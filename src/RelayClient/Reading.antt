-- ===== src/RelayClient/Reading.antt =====
-- The poll loop of relay_transport.py against what the hub answers.
use shogunet.Prelude.{
  ℕ, ◌+◌, ◌-◌, ◌≤◌, ◌<◌, ◌≡◌, refl, ap, subst, ◌∙◌, String, Option, List, [], ◌∷◌, ◌++◌, Bool, true,
  false, if◌then◌else◌, nat_eq, length, drop, arith,
}
use mathlib.Core.List.{append_assoc, append-nil}
use shogunet.Inbox.Window.{last_n}
use shogunet.Payload.{Value}
use shogunet.Protocol.Envelope.{Stdlib}
use shogunet.RelayClient.{
  Answer, unreachable, raises, answered, Mail, Client, End, goes_on, returns, dies, Round, wait,
  read_round, offline_round, loop_round, poll_loop,
}
use shogunet.RelayClient.Heard.{
  IsNewest, mails, all_dicts, heard_poll, heard_offline, heard, take_messages-Takes,
}

module _ (py : Stdlib) (b64decode : String → Option (List ℕ)) (longer : ℕ → ℕ) where
  -- What `poll_loop` makes of the end of a round.
  abbrev go_on : ℕ → List Round → Client × End → Client × End
  go_on base rs (c, goes_on delay) = poll_loop py b64decode longer base delay rs c
  go_on base rs (c, returns) = (c, returns)
  go_on base rs (c, dies) = (c, dies)

  -- The rounds that follow keep to what they are answered.
  abbrev Follows : ℕ → ℕ → List Round → Type 0
  Follows n base rs =
      (delay : ℕ) (before : List Mail) (c : Client)
      → IsNewest n before c
      → IsNewest n (before ++ heard py b64decode longer c.connected rs)
          (poll_loop py b64decode longer base delay rs c).0

  wait-IsNewest :
      (n base retry : ℕ) (before : List Mail) (rs : List Round) (stopped : Bool) (c : Client)
      → Follows n base rs
      → c.connected ≡ false
      → IsNewest n before c
      → IsNewest n
          (before ++ (if stopped then [] else heard py b64decode longer false rs))
          (go_on base rs (wait py b64decode longer stopped retry c)).0
  wait-IsNewest n base retry before rs true c later off q = rw (append-nil before) q
  wait-IsNewest n base retry before rs false c later off q =
      subst
        (λ (on : Bool).
          IsNewest n (before ++ heard py b64decode longer on rs)
            (poll_loop py b64decode longer base (longer retry) rs c).0)
        off (later (longer retry) before c q)

  answered-IsNewest :
      (n base : ℕ) (before : List Mail) (rs : List Round) (xs : List Mail) (fine : Bool)
      (c : Client)
      → Follows n base rs
      → c.connected ≡ true
      → IsNewest n (before ++ xs) c
      → IsNewest n
          (before ++ (xs ++ (if fine then heard py b64decode longer true rs else [])))
          (go_on base rs (c, if fine then goes_on base else dies)).0
  answered-IsNewest n base before rs xs true c later on q =
      subst (λ (ys : List Mail). IsNewest n ys (poll_loop py b64decode longer base base rs c).0)
        (ap (λ (b : Bool). (before ++ xs) ++ heard py b64decode longer b rs) on
          ∙ append_assoc before xs (heard py b64decode longer true rs))
        (later base (before ++ xs) c q)
  answered-IsNewest n base before rs xs false c later on q = rw (append-nil xs) q

  read_round-IsNewest :
      (n base retry : ℕ) (before : List Mail) (rs : List Round) (g : Answer Bool)
      (m : Answer (List Value)) (stopped : Bool) (c : Client)
      → 0 < n
      → Follows n base rs
      → c.connected ≡ true
      → IsNewest n before c
      → let r : Round = record { registration = g; messages = m; stopped = stopped } in
        IsNewest n
          (before
            ++ heard_poll py b64decode longer r
                (heard py b64decode longer false rs)
                (heard py b64decode longer true rs))
          (go_on base rs (read_round py b64decode longer base retry r c)).0
  unfolding read_round
  read_round-IsNewest n base retry before rs g unreachable stopped c p later on q =
      wait-IsNewest n base retry before rs stopped
        (record c { connected = false; poll_errors = c.poll_errors + 1 }) later refl
        (record { room = q.room; newest = q.newest })
  read_round-IsNewest n base retry before rs g raises stopped c p later on q =
      rw (append-nil before) q
  read_round-IsNewest n base retry before rs g (answered vs) stopped c p later on q =
      let t = take_messages-Takes py b64decode longer n before vs c p q in
      rw (t.fine) (
        answered-IsNewest n base before rs (mails py b64decode longer vs)
          (all_dicts py b64decode longer vs) _ later (t.online ∙ on) t.queue)

  offline_round-IsNewest :
      (n base retry : ℕ) (before : List Mail) (rs : List Round) (g : Answer Bool)
      (m : Answer (List Value)) (stopped : Bool) (c : Client)
      → 0 < n
      → Follows n base rs
      → c.connected ≡ false
      → IsNewest n before c
      → let r : Round = record { registration = g; messages = m; stopped = stopped } in
        IsNewest n
          (before
            ++ heard_offline py b64decode longer r
                (heard py b64decode longer false rs)
                (heard py b64decode longer true rs))
          (go_on base rs (offline_round py b64decode longer base retry r c)).0
  unfolding offline_round
  offline_round-IsNewest n base retry before rs unreachable m stopped c p later off q =
      (wait-IsNewest n base retry before rs stopped c later off q)
  offline_round-IsNewest n base retry before rs raises m stopped c p later off q =
      (rw (append-nil before) q)
  offline_round-IsNewest n base retry before rs (answered true) m stopped c p later off q =
      (read_round-IsNewest n base retry before rs (answered true) m stopped
        (record c { connected = true; registered = c.registered + 1 }) p later refl
        (record { room = q.room; newest = q.newest }))
  offline_round-IsNewest n base retry before rs (answered false) m stopped c p later off q =
      (wait-IsNewest n base retry before rs stopped c later off q)

  choose :
      (b : Bool) (P : List Mail → Client × End → Type 0) (xs ys : List Mail)
      (out out' : Client × End)
      → (b ≡ true → P xs out)
      → (b ≡ false → P ys out')
      → P (if b then xs else ys) (if b then out else out')
  choose true P xs ys out out' f g = f refl
  choose false P xs ys out out' f g = g refl

  poll_loop-IsNewest : (n base : ℕ) (rs : List Round) → 0 < n → Follows n base rs
  unfolding poll_loop loop_round
  poll_loop-IsNewest n base [] p retry before c q = rw (append-nil before) q
  poll_loop-IsNewest n base (r ∷ rs) p retry before c q =
      choose c.connected
        (λ (xs : List Mail) (out : Client × End). IsNewest n (before ++ xs) (go_on base rs out).0)
        (heard_poll py b64decode longer r (heard py b64decode longer false rs)
          (heard py b64decode longer true rs))
        (heard_offline py b64decode longer r (heard py b64decode longer false rs)
          (heard py b64decode longer true rs))
        (read_round py b64decode longer base retry r c)
        (offline_round py b64decode longer base retry r c)
        (λ on.
          read_round-IsNewest n base retry before rs r.registration r.messages r.stopped c p
            (poll_loop-IsNewest n base rs p) on q)
        (λ off.
          offline_round-IsNewest n base retry before rs r.registration r.messages r.stopped c p
            (poll_loop-IsNewest n base rs p) off q)

  -- Whatever the hub answers to the requests of a poll loop, and until a poll hands mail out: the inbox holds the
  -- newest of the mail that was in it and that the hub answered with, as many as the queue has room for, in
  -- order. Mail is a message whose frame decodes and has a header; the queue was within its bound.
  pub poll_loop-newest :
      (base retry : ℕ) (rs : List Round) (c : Client)
      → 0 < c.max_queue
      → length c.inbox ≤ c.max_queue
      → (poll_loop py b64decode longer base retry rs c).0.inbox
        ≡ last_n c.max_queue (c.inbox ++ heard py b64decode longer c.connected rs)
  poll_loop-newest base retry rs c p h =
      let nothing_old : 0 ≡ length c.inbox - c.max_queue = omega arith in
      (poll_loop-IsNewest c.max_queue base rs p retry c.inbox c
        (record { room = refl; newest = ap (λ (n : ℕ). drop n c.inbox) nothing_old })).newest
