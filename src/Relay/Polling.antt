-- ===== src/Relay/Polling.antt =====
-- A poll of relay_server.py, interleaved with other calls.
use shogunet.Prelude.{
  ℕ, suc, ◌≡◌, refl, ap, String, Option, none, some, List, [], ◌∷◌, leb, string_eq, length, drop,
  All, All-take, All-drop, length-drop, arith, Bool-cases, Option-cases, inl, inr,
}
use shogunet.Prelude.Dict.{Dict, lookup}
use shogunet.Protocol.Errors.{ok}
use shogunet.Relay.{Info, Message, Hub, Drained, expire, drain, answer, poll_loop}
use shogunet.Relay.Invariant.{IsChecked, IsValid, expire-IsBox, IsBox-of, refill-IsValid}

drain-IsValid :
    (now room : ℕ) (agent : String) (h : Hub)
    → IsValid h
    → IsValid (drain now room agent h).0 × All (IsChecked h.agents) (drain now room agent h).1
unfolding drain
drain-IsValid now room agent h v = elim (Option-cases (lookup agent h.mailboxes)) [
  | inl missing ↦ rw (missing, drain) (v, tt)
  | inr (ms, there) ↦
      let kept = expire now ms in
      let b = expire-IsBox h.agents h.max_messages now ms (IsBox-of agent h v there) in
      rw (there, drain)
        (
          refill-IsValid now agent ms (drop room kept) h (IsBox-of agent h v there)
              (
                All-drop (IsChecked h.agents) room kept b.0,
                omega (arith, length-drop room kept, b.1),
              )
              v,
          All-take (IsChecked h.agents) room kept b.0,
        )
]

answer-total :
    (agents : Dict String Info) (ms : List Message)
    → All (IsChecked agents) ms
    → (ds : List Drained) × (answer ms ≡ ok ds) × (length ds ≡ length ms)
unfolding answer
answer-total agents [] c = ([], refl, refl)
answer-total agents (m ∷ ms) c =
    let ((head, peeks), known) = c.0 in
    let (ds, answers, same) = answer-total agents ms c.1 in
    (
      record { sender = m.sender; frame = m.frame; msg_id = head.msg_id } ∷ ds,
      rw (peeks, answers) refl,
      ap suc same,
    )

drain-Polled :
    (now room : ℕ) (agent : String) (h : Hub)
    → IsValid h
    → (ds : List Drained) × (answer (drain now room agent h).1 ≡ ok ds)
      × (length ds ≡ length (drain now room agent h).1)
drain-Polled now room agent h v =
    answer-total h.agents (drain now room agent h).1 (drain-IsValid now room agent h v).1

-- A poll that ends leaves a valid hub, and has an answer with every message that it drained.
pub data IsPolled : Option (Hub × List Message) → Type 0 where
  waits : IsPolled none
  ends :
      {h : Hub} {ms : List Message}
      → IsValid h
      → (ds : List Drained) × (answer ms ≡ ok ds) × (length ds ≡ length ms)
      → IsPolled (some (h, ms))

-- However the wakings of a poll are interleaved with other threads that keep the hub valid: where the
-- poll of a valid hub ends, the hub is valid, and reading the headers of the drained frames raises
-- nothing: each of them is in the answer.
pub poll_loop-IsPolled :
    (deadline room : ℕ) (agent : String) (rounds : List (ℕ × (Hub → Hub))) (h : Hub)
    → All (λ r. (h' : Hub) → IsValid h' → IsValid (r.1 h')) rounds
    → IsValid h
    → IsPolled (poll_loop deadline room agent rounds h)
unfolding poll_loop
poll_loop-IsPolled deadline room agent [] h keep v = waits
poll_loop-IsPolled deadline room agent ((now, others) ∷ rest) h keep v =
    let v' = keep.0 h v in
    let d = drain-IsValid now room agent (others h) v' in
    elim (Bool-cases (leb deadline now)) [
      | inl over ↦ rw (over) (ends d.0 (drain-Polled now room agent (others h) v'))
      | inr early ↦ rw early (
          go (drain now room agent (others h)).1
            (ends d.0 (drain-Polled now room agent (others h) v'))
            (poll_loop-IsPolled deadline room agent rest (drain now room agent (others h)).0 keep.1
              d.0))
    ]
  where
    go :
        (drained : List Message)
        → IsPolled (some ((drain now room agent (others h)).0, drained))
        → IsPolled (poll_loop deadline room agent rest (drain now room agent (others h)).0)
        → IsPolled (elim drained as (λ _. Option (Hub × List Message)) [
          | [] ↦ poll_loop deadline room agent rest (drain now room agent (others h)).0
          | m ∷ ms ↦ some ((drain now room agent (others h)).0, m ∷ ms)
        ])
    go [] some_ends later = later
    go (m ∷ ms) some_ends later = some_ends
