-- ===== src/Transports/Loopback/Queue.antt =====
-- The queue of a loopback transport of transports.py over deliveries and polls.
use shogunet.Prelude.{
  ℕ, ◌+◌, ◌-◌, ◌<◌, ◌≡◌, refl, ap, sym, ◌∙◌, List, [], ◌∷◌, ◌++◌, ◌==◌, nat_eq, length, drop, arith,
  length-append, length-drop, Bool-cases, true, false, inl, inr, drop-nil,
}
use mathlib.Core.List.{append_assoc, append-nil}
use shogunet.Inbox.Window.{last_n, last_n-push}
use shogunet.Transports.Loopback.{Mail, Endpoint, deliver, poll}

abbrev pub deliver_all : List Mail → Endpoint → Endpoint
deliver_all [] e = e
deliver_all (m ∷ ms) e = deliver_all ms (deliver m e)

-- The endpoint has been handed the mail `before` since its queue was empty.
record IsQueue (n : ℕ) (before : List Mail) (e : Endpoint) : Type 0 where
  room : e.max_queue ≡ n
  newest : e.inbox ≡ last_n n before
  lost : e.dropped + length e.inbox ≡ length before

deliver-IsQueue :
    (n : ℕ) (before : List Mail) (m : Mail) (e : Endpoint)
    → 0 < n
    → IsQueue n before e
    → IsQueue n (before ++ m ∷ []) (deliver m e)
unfolding deliver
deliver-IsQueue n before m e p q =
    let next = last_n-push n m e.inbox before p q.newest in
    let held : length e.inbox ≡ length (last_n n before) = ap length q.newest in
    elim (Bool-cases (length e.inbox == e.max_queue)) [
      | inl full ↦
          let full_n : (length e.inbox == n) ≡ true = rw (q.room) at full in
          rw (full, deliver)
            (record {
              room = q.room;
              newest = rw full_n at next;
              lost = ground (
                arith,
                q.lost,
                q.room,
                p,
                length-append (drop 1 e.inbox) (m ∷ []),
                length-append before (m ∷ []),
                length-drop 1 e.inbox,
              );
            })
      | inr free ↦
          let free_n : (length e.inbox == n) ≡ false = rw (q.room) at free in
          rw (free, deliver)
            (record {
              room = q.room;
              newest = rw free_n at next;
              lost =
                  omega
                    (arith, q.lost, length-append e.inbox (m ∷ []), length-append before (m ∷ []));
            })
    ]

deliver_all-IsQueue :
    (n : ℕ) (before ms : List Mail) (e : Endpoint)
    → 0 < n
    → IsQueue n before e
    → IsQueue n (before ++ ms) (deliver_all ms e)
deliver_all-IsQueue n before [] e p q = rw (append-nil before) q
deliver_all-IsQueue n before (m ∷ ms) e p q =
    rw (sym (append_assoc before (m ∷ []) ms)) (
      deliver_all-IsQueue n (before ++ m ∷ []) ms (deliver m e) p
        (deliver-IsQueue n before m e p q))

-- An endpoint with an empty queue, room for at least one and nothing dropped so far is handed any mail: a poll then hands out
-- the last `max_queue` pieces of it in the order of arrival, and the dropped ones are counted.
pub poll-deliver_all :
    (ms : List Mail) (e : Endpoint)
    → 0 < e.max_queue
    → e.inbox ≡ []
    → e.dropped ≡ 0
    → ((poll (deliver_all ms e)).1 ≡ last_n e.max_queue ms)
      × ((deliver_all ms e).dropped + length (last_n e.max_queue ms) ≡ length ms)
unfolding poll
poll-deliver_all ms e p empty none_lost =
    let start : IsQueue e.max_queue [] e = record {
      room = refl;
      newest = empty ∙ sym (drop-nil (0 - e.max_queue));
      lost = ground (arith, empty, none_lost);
    } in
    let q = deliver_all-IsQueue e.max_queue [] ms e p start in
    (q.newest, ap (λ xs. (deliver_all ms e).dropped + length xs) (sym q.newest) ∙ q.lost)
