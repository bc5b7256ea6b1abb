-- ===== src/Relay/Invariant.antt =====
-- What the hub keeps: bounded mailboxes of frames that were checked, from registered senders.
use shogunet.Prelude.{
  ℕ, ◌+◌, ◌-◌, ◌≤◌, ◌<◌, ◌≡◌, String, some, List, [], ◌∷◌, ◌++◌, true, not, ◌&&◌, ltb, leb, ◌==◌,
  string_eq, length, All, All-append, length-append, arith, Bool-cases, Option-cases, inl, inr,
}
use shogunet.Prelude.Dict.{Dict, lookup, insert, contains, lookup-insert, All-lookup}
use shogunet.Security.{sanitize_text, strip}
use shogunet.Payload.{Fields}
use shogunet.Protocol.Errors.{ok, ◌>>=◌, Result-cases, >>=-eq-ok}
use shogunet.Protocol.Header.{Header, peek_header}
use shogunet.Protocol.Envelope.{Stdlib, or_all}
use shogunet.Protocol.Decode.{decode}
use shogunet.Chain.Sending.{is_protocol_error}
use shogunet.Relay.{
  Info, Message, Hub, new_hub, count, put_mailbox, expire, expire_locked, register, enqueue, refuse,
  deliver,
}

-- The frame passes `peek_header`, and the sender is registered.
abbrev pub IsChecked : Dict String Info → Message → Type 0
IsChecked agents m =
    ((head : Header) × (peek_header m.frame ≡ ok head)) × (contains m.sender agents ≡ true)

abbrev pub IsBox : Dict String Info → ℕ → List Message → Type 0
IsBox agents limit ms = All (IsChecked agents) ms × (length ms ≤ limit)

pub record IsValid (h : Hub) : Type 0 where
  pub boxes : All (λ e. IsBox h.agents h.max_messages e.1) h.mailboxes
  pub positive : 0 < h.max_messages

All-insert :
    (P : List Message → Type 0) (k : String) (v : List Message) (d : Dict String (List Message))
    → All (λ e. P e.1) d
    → P v
    → All (λ e. P e.1) (insert k v d)
All-insert P k v [] h p = (p, tt)
All-insert P k v ((j, w) ∷ d) h p = elim (Bool-cases (j == k)) [
  | inl same ↦ rw same (p, h.1)
  | inr other ↦ rw other (h.0, All-insert P k v d h.1 p)
]

All-map :
    {A : Type 0} (P Q : A → Type 0) (xs : List A) → ((x : A) → P x → Q x) → All P xs → All Q xs
All-map P Q [] f h = tt
All-map P Q (x ∷ xs) f h = (f x h.0, All-map P Q xs f h.1)

pub expire-IsBox :
    (agents : Dict String Info) (limit now : ℕ) (ms : List Message)
    → IsBox agents limit ms
    → IsBox agents limit (expire now ms)
unfolding expire
expire-IsBox agents limit now [] b = b
expire-IsBox agents limit now (m ∷ ms) b = elim (Bool-cases (ltb m.expiry now)) [
  | inl old ↦ rw old (expire-IsBox agents limit now ms (b.0.1, omega (arith, b.1)))
  | inr fresh ↦ rw fresh b
]

put_mailbox-IsValid :
    (name : String) (ms : List Message) (h : Hub)
    → IsBox h.agents h.max_messages ms
    → IsValid h
    → IsValid (put_mailbox name ms h)
put_mailbox-IsValid name ms h b v = record {
  boxes = All-insert (IsBox h.agents h.max_messages) name ms h.mailboxes v.boxes b;
  positive = v.positive;
}

count-IsValid : (key : String) (n : ℕ) (h : Hub) → IsValid h → IsValid (count key n h)
count-IsValid key n h v = record { boxes = v.boxes; positive = v.positive }

expire_locked-IsValid :
    (now : ℕ) (name : String) (ms : List Message) (h : Hub)
    → IsBox h.agents h.max_messages ms
    → IsValid h
    → IsValid (expire_locked now name ms h)
unfolding expire_locked
expire_locked-IsValid now name ms h b v =
    let kept =
      put_mailbox-IsValid name (expire now ms) h (expire-IsBox h.agents h.max_messages now ms b)
        v in
    elim (Bool-cases (ltb 0 (length ms - length (expire now ms)))) [
      | inl some_old ↦ rw some_old (record { boxes = kept.boxes; positive = kept.positive })
      | inr none_old ↦ rw none_old kept
    ]

pub new_hub-IsValid :
    (max_messages message_ttl max_registered : ℕ)
    → IsValid (new_hub max_messages message_ttl max_registered)
unfolding new_hub
new_hub-IsValid max_messages message_ttl max_registered = record {
  boxes = tt;
  positive = omega arith;
}

-- What is at an agent's mailbox.
pub IsBox-of :
    (name : String) (h : Hub) {ms : List Message}
    → IsValid h
    → lookup name h.mailboxes ≡ some ms
    → IsBox h.agents h.max_messages ms
IsBox-of name h v e = All-lookup (λ e. IsBox h.agents h.max_messages e.1) name h.mailboxes v.boxes e

-- A mailbox is put in place of the one that was expired.
pub refill-IsValid :
    (now : ℕ) (name : String) (ms new : List Message) (h : Hub)
    → IsBox h.agents h.max_messages ms
    → IsBox h.agents h.max_messages new
    → IsValid h
    → IsValid (put_mailbox name new (expire_locked now name ms h))
unfolding expire_locked
refill-IsValid now name ms new h b c v =
    let kept =
      put_mailbox-IsValid name (expire now ms) h (expire-IsBox h.agents h.max_messages now ms b)
        v in
    let both = put_mailbox-IsValid name new (put_mailbox name (expire now ms) h) c kept in
    elim (Bool-cases (ltb 0 (length ms - length (expire now ms)))) [
      | inl some_old ↦ rw some_old (record { boxes = both.boxes; positive = both.positive })
      | inr none_old ↦ rw none_old both
    ]

enqueue-IsValid :
    (now later : ℕ) (recipient sender : String) (frame : List ℕ) (h : Hub)
    → IsValid h
    → IsChecked h.agents (record { expiry = later + h.message_ttl; sender = sender; frame = frame })
    → IsValid (enqueue now later recipient sender frame h).0
unfolding enqueue
enqueue-IsValid now later recipient sender frame h v c =
    elim (Option-cases (lookup recipient h.mailboxes)) [
      | inl missing ↦ rw (missing, enqueue) (count-IsValid "dropped_unknown_recipient" 1 h v)
      | inr (ms, there) ↦
          let b = IsBox-of recipient h v there in
          let kept = expire-IsBox h.agents h.max_messages now ms b in
          let message : Message = record {
            expiry = later + h.message_ttl;
            sender = sender;
            frame = frame;
          } in
          elim (Bool-cases (leb h.max_messages (length (expire now ms)))) [
            | inl full ↦
                rw (there, full, enqueue)
                  (count-IsValid "dropped_full" 1 _ (expire_locked-IsValid now recipient ms h b v))
            | inr room ↦
                rw (there, room, enqueue)
                  (count-IsValid "delivered" 1 _ (
                    refill-IsValid now recipient ms (expire now ms ++ message ∷ []) h b
                      (
                        All-append (IsChecked h.agents) (expire now ms) (message ∷ []) kept.0
                            (c, tt),
                        ground (arith, length-append (expire now ms) (message ∷ [])),
                      )
                      v))
          ]
    ]

-- What is checked stays checked when an agent is registered.
register-boxes :
    (agent : String) (info : Info) (h : Hub)
    → IsValid h
    → IsValid (record h { agents = insert agent info h.agents })
register-boxes agent info h v = record {
  boxes =
      All-map (λ e. IsBox h.agents h.max_messages e.1)
        (λ e. IsBox (insert agent info h.agents) h.max_messages e.1) h.mailboxes
        (λ e b. (
          All-map (IsChecked h.agents) (IsChecked (insert agent info h.agents)) e.1
              (λ m c. (c.0, ground (arith, lookup-insert agent m.sender info h.agents))) b.0,
          b.1,
        ))
        v.boxes;
  positive = v.positive;
}

-- The hub that `register` keeps in its three ways.
module _ (py : Stdlib) where
  pub register-IsValid :
      (wall : ℕ) (agent_id realm : String) (manifest : Fields) (h : Hub)
      → IsValid h
      → IsValid (register py wall agent_id realm manifest h).0
  unfolding register
  register-IsValid wall agent_id realm manifest h v =
      let u = py.unicode in
      let agent = strip u (sanitize_text u (some agent_id) 48) in
      let info : Info = record {
        realm = or_all (sanitize_text u (some realm) 8);
        manifest = manifest;
        registered_at = wall;
      } in
      let h' : Hub = record h { agents = insert agent info h.agents } in
      let v' = register-boxes agent info h v in
      elim (Bool-cases (agent == "")) [
        | inl empty ↦ rw (empty, register) v
        | inr named ↦
            elim (Bool-cases
              (not (contains agent h.agents) && leb h.max_registered (length h.agents))) [
                | inl full ↦ rw (named, full, register) v
                | inr room ↦ elim (Bool-cases (contains agent h.mailboxes)) [
                  | inl known ↦
                      rw (named, room, known, register) (count-IsValid "registered" 1 h' v')
                  | inr new ↦
                      rw (named, room, new, register)
                        (count-IsValid "registered" 1 _
                          (put_mailbox-IsValid agent [] h' (tt, omega arith) v'))
                ]
              ]
      ]

  -- `deliver` keeps a valid hub valid on every branch: its mailboxes are bounded, and hold frames that
  -- pass `peek_header`, from registered senders.
  pub deliver-IsValid :
      (wall now later : ℕ) (recipient : String) (frame : List ℕ) (h : Hub)
      → IsValid h
      → IsValid (deliver py wall now later recipient frame h).0
  unfolding deliver refuse
  deliver-IsValid wall now later recipient frame h v =
      elim (Result-cases (peek_header frame >>= (λ head. decode py wall frame))) [
        | inl (e, fails) ↦ elim (Bool-cases (is_protocol_error e)) [
          | inl caught ↦ rw (fails, caught, deliver, refuse) (count-IsValid "dropped_bad" 1 h v)
          | inr uncaught ↦ rw (fails, uncaught, deliver, refuse) v
        ]
        | inr (env, decoded) ↦ elim (Bool-cases (contains env.sender h.agents)) [
          | inr spoofed ↦ rw (decoded, spoofed, deliver) (count-IsValid "dropped_spoofed" 1 h v)
          | inl known ↦
              let (head, peeks, _) =
                >>=-eq-ok (peek_header frame) (λ head. decode py wall frame) decoded in
              rw (decoded, known, deliver)
                (enqueue-IsValid now later recipient env.sender frame h v ((head, peeks), known))
        ]
      ]
