-- ===== src/LinkSimulator/Delivery.antt =====
-- How a send and a dispatch of link_simulator.py change the counters.
use shogunet.Prelude.{
  ℕ, suc, ◌+◌, ◌≡◌, refl, sym, ap, subst, ◌∙◌, inl, inr, String, Option, some, List, [], ◌∷◌, ◌++◌,
  Bool, true, false, ◌==◌, if◌then◌else◌, string_eq, nat_eq, length, drop, filter, All, Bool-cases,
  Option-cases, length-append, length-drop, arith,
}
use shogunet.Prelude.Dict.{lookup, insert-All, All-lookup}
use shogunet.LinkSimulator.{
  Endpoint, Mail, Frame, Ether, Draw, deliver, deliver_all, dispatch, is_target, admit, submit,
  count_sent, send_frame,
}
use shogunet.LinkSimulator.Accounts.{
  room_for, total, total-insert, taken, tried, Fits, IsConserved, admit-Admits,
}

count_sent-taken : (carried : Bool) (e : Endpoint) → taken (count_sent carried e) ≡ taken e
count_sent-taken true e = refl
count_sent-taken false e = refl

count_sent-tried : (carried : Bool) (e : Endpoint) → tried (count_sent carried e) ≡ suc (tried e)
count_sent-tried true e = omega arith
count_sent-tried false e = omega arith

count_sent-Fits : (carried : Bool) (e : Endpoint) → Fits e → Fits (count_sent carried e)
count_sent-Fits true e h = h
count_sent-Fits false e h = h

pub send_frame-IsConserved :
    (passed id now : ℕ) (draw : Draw) (peer : Option String) (frame : List ℕ) (s : Ether)
    → IsConserved passed s
    → IsConserved passed (send_frame id now draw peer frame s)
unfolding send_frame submit
send_frame-IsConserved passed id now draw peer frame s h =
    elim (Option-cases (lookup id s.endpoints)) [
      | inl absent ↦ rw (absent, send_frame) h
      | inr (e, found) ↦
          let s1 : Ether = record s { submitted = s.submitted + 1 } in
          let (s2, carried) = admit now draw e.agent_id peer frame s1 in
          let a = admit-Admits now draw e.agent_id peer frame s1 in
          let found2 : lookup id s2.endpoints ≡ some e = ap (lookup id) a.endpoints ∙ found in
          let e' = count_sent carried e in
          rw (found, send_frame)
            (record {
              frames = a.submitted ∙ omega (arith, h.frames, a.frames);
              bounded = a.bounded h.bounded;
              reports = omega (
                arith,
                a.submitted,
                h.reports,
                ap (total tried) a.endpoints,
                total-insert tried id e e' s2.endpoints found2,
                count_sent-tried carried e,
              );
              mail = omega (
                arith,
                a.delivered,
                h.mail,
                ap (total taken) a.endpoints,
                total-insert taken id e e' s2.endpoints found2,
                count_sent-taken carried e,
              );
              queues =
                  insert-All Fits id e' s2.endpoints
                    (count_sent-Fits carried e
                      (All-lookup (λ (e : ℕ × Endpoint). Fits e.1) id s.endpoints h.queues found))
                    (subst (All (λ (e : ℕ × Endpoint). Fits e.1)) (sym a.endpoints) h.queues);
            })
    ]

-- One more mail is taken, and the queue keeps within its bound.
deliver-Takes :
    (mail : Mail) (e : Endpoint)
    → Fits e
    → (taken (deliver mail e) ≡ suc (taken e)) × Fits (deliver mail e)
unfolding deliver
deliver-Takes mail e h = elim (Bool-cases (length e.inbox == e.max_queue)) [
  | inl full ↦
      let one : length (drop 1 e.inbox ++ mail ∷ []) ≡ length e.inbox =
        ground (arith, h, length-append (drop 1 e.inbox) (mail ∷ []), length-drop 1 e.inbox) in
      rw (full, deliver) (omega (arith, one), (h.0, omega (arith, one, h.1)))
  | inr free ↦
      rw (free, deliver)
        (
          omega (arith, length-append e.inbox (mail ∷ [])),
          (h.0, room_for e.inbox mail e.max_queue h.1 free),
        )
]

deliver-tried : (mail : Mail) (e : Endpoint) → tried (deliver mail e) ≡ tried e
unfolding deliver
deliver-tried mail e = elim (Bool-cases (length e.inbox == e.max_queue)) [
  | inl full ↦ rw (full, deliver) refl
  | inr free ↦ rw (free, deliver) refl
]

deliver_all-IsConserved :
    (passed : ℕ) (mail : Mail) (ids : List ℕ) (s : Ether)
    → IsConserved passed s
    → IsConserved passed (deliver_all mail ids s)
unfolding deliver_all
deliver_all-IsConserved passed mail [] s h = h
deliver_all-IsConserved passed mail (id ∷ ids) s h = elim (Option-cases (lookup id s.endpoints)) [
  | inl absent ↦ rw (absent, deliver_all) (deliver_all-IsConserved passed mail ids s h)
  | inr (e, found) ↦
      let takes =
        deliver-Takes mail e
          (All-lookup (λ (e : ℕ × Endpoint). Fits e.1) id s.endpoints h.queues found) in
      rw (found, deliver_all)
        (deliver_all-IsConserved passed mail ids _ (record {
          frames = h.frames;
          bounded = h.bounded;
          reports = omega (
            arith,
            h.reports,
            total-insert tried id e (deliver mail e) s.endpoints found,
            deliver-tried mail e,
          );
          mail =
              omega (
                arith,
                h.mail,
                total-insert taken id e (deliver mail e) s.endpoints found,
                takes.0,
              );
          queues = insert-All Fits id (deliver mail e) s.endpoints takes.1 h.queues;
        }))
]

-- The frame leaves the schedule and is dispatched.
pub run_scheduled-IsConserved :
    (passed now : ℕ) (f : Frame) (fs : List Frame) (s : Ether)
    → s.scheduled ≡ f ∷ fs
    → IsConserved passed s
    → IsConserved (suc passed) (dispatch f (record s { scheduled = fs }))
unfolding dispatch
run_scheduled-IsConserved passed now f fs s head h =
    let shorter : length s.scheduled ≡ suc (length fs) = ap length head in
    let taken_off : IsConserved (suc passed) (record s { scheduled = fs }) = record {
      frames = omega (arith, h.frames, shorter);
      bounded = omega (arith, h.bounded, shorter);
      reports = h.reports;
      mail = h.mail;
      queues = h.queues;
    } in
    deliver_all-IsConserved (suc passed) (f.sender, f.bytes)
      (filter (is_target f (record s { scheduled = fs })) s.members) _
      (unseen (length (filter (is_target f (record s { scheduled = fs })) s.members) == 0)
        (record s { scheduled = fs }) taken_off)
  where
    unseen :
        (b : Bool) (s : Ether)
        → IsConserved (suc passed) s
        → IsConserved
            (suc passed)
            (if b then record s { dropped_no_member = s.dropped_no_member + 1 } else s)
    unseen true s h = record {
      frames = h.frames;
      bounded = h.bounded;
      reports = h.reports;
      mail = h.mail;
      queues = h.queues;
    }
    unseen false s h = h
