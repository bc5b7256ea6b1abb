-- ===== src/LinkSimulator/Conservation.antt =====
-- The counters of link_simulator.py over any steps of its threads.
use shogunet.Prelude.{
  Bool, true, false, ℕ, ◌+◌, ◌≡◌, refl, subst, inl, inr, String, Option, none, some, List, [], ◌∷◌,
  ◌++◌, ltb, max, ◌==◌, if◌then◌else◌, string_eq, nat_eq, Bool-cases, Option-cases, arith,
}
use shogunet.Prelude.Dict.{lookup, insert-All, All-lookup, elem, remove_first}
use shogunet.Security.{Unicode, sanitize_text, strip}
use shogunet.Transports.{LinkProfile}
use shogunet.LinkSimulator.{
  Endpoint, Frame, Ether, Draw, new_ether, start, close, join, leave, put_endpoint, new_endpoint,
  run_scheduled, run_once, send_frame, poll,
}
use shogunet.LinkSimulator.Accounts.{
  total-insert, total-insert_new, taken, tried, Fits, IsConserved,
}
use shogunet.LinkSimulator.Delivery.{send_frame-IsConserved, run_scheduled-IsConserved}

-- What threads do to an ether: an endpoint is made under a new number, joins and leaves, sends and polls,
-- the ether is started and closed, and its thread runs a round.
pub data Step : Type 0 where
  make : ℕ → String → ℕ → Step
  enter : ℕ → Step
  exit : ℕ → Step
  send : ℕ → ℕ → Draw → Option String → List ℕ → Step
  launch : Step
  shut : Step
  round : ℕ → Step
  take_mail : ℕ → Step

abbrev pub or_same : Ether → Option Ether → Ether
or_same s none = s
or_same s (some s') = s'

recount : {p q : ℕ} {s : Ether} → p ≡ q → IsConserved p s → IsConserved q s
recount {s = s} e h = subst (λ (n : ℕ). IsConserved n s) e h

module _ (u : Unicode) where
  abbrev pub step : Step → Ether → Ether
  step (make id agent_id max_queue) s = elim (lookup id s.endpoints) [
    | none ↦ or_same s (new_endpoint u id agent_id max_queue s)
    | some _ ↦ s
  ]
  step (enter id) s = join id s
  step (exit id) s = leave id s
  step (send id now draw peer frame) s = send_frame id now draw peer frame s
  step launch s = start s
  step shut s = close s
  step (round now) s = (run_once now s).0
  step (take_mail id) s = (poll id s).0

  -- The number of frames that a step dispatches.
  abbrev pub dispatches : Step → Ether → ℕ
  dispatches (round now) s = if (run_once now s).1 then 1 else 0
  dispatches _ s = 0

  -- The ether after the steps, and how many frames they have dispatched.
  abbrev pub run : List Step → Ether → Ether
  run [] s = s
  run (t ∷ ts) s = run ts (step t s)

  abbrev pub dispatched : List Step → Ether → ℕ
  dispatched [] s = 0
  dispatched (t ∷ ts) s = dispatches t s + dispatched ts (step t s)

  same_mail :
      (passed : ℕ) (members : List ℕ) (s : Ether)
      → IsConserved passed s
      → IsConserved passed (record s { members = members })
  same_mail passed members s h = record {
    frames = h.frames;
    bounded = h.bounded;
    reports = h.reports;
    mail = h.mail;
    queues = h.queues;
  }

  -- Whether the thread runs does not count.
  same_counts :
      (passed : ℕ) (running : Bool) (s : Ether)
      → IsConserved passed s
      → IsConserved passed (record s { running = running })
  same_counts passed running s h = record {
    frames = h.frames;
    bounded = h.bounded;
    reports = h.reports;
    mail = h.mail;
    queues = h.queues;
  }

  start-IsConserved : (passed : ℕ) (s : Ether) → IsConserved passed s → IsConserved passed (start s)
  unfolding start
  start-IsConserved passed s h = by_running s.running
    where
      by_running : (on : Bool) → IsConserved passed (if on then s else record s { running = true })
      by_running true = h
      by_running false = same_counts passed true s h

  join-IsConserved :
      (passed id : ℕ) (s : Ether) → IsConserved passed s → IsConserved passed (join id s)
  unfolding join
  join-IsConserved passed id s h = elim (Bool-cases (elem id s.members)) [
    | inl member ↦ rw (member, join) h
    | inr other ↦ rw (other, join) (same_mail passed (s.members ++ id ∷ []) s h)
  ]

  leave-IsConserved :
      (passed id : ℕ) (s : Ether) → IsConserved passed s → IsConserved passed (leave id s)
  unfolding leave
  leave-IsConserved passed id s h = elim (Bool-cases (elem id s.members)) [
    | inl member ↦ rw (member, leave) (same_mail passed (remove_first id s.members) s h)
    | inr other ↦ rw (other, leave) h
  ]

  new_endpoint-IsConserved :
      (passed id : ℕ) (agent_id : String) (max_queue : ℕ) (s : Ether)
      → lookup id s.endpoints ≡ none
      → IsConserved passed s
      → IsConserved passed (or_same s (new_endpoint u id agent_id max_queue s))
  unfolding new_endpoint
  new_endpoint-IsConserved passed id agent_id max_queue s new h =
      let e : Endpoint = record {
        agent_id = strip u (sanitize_text u (some agent_id) 48);
        max_queue = max 1 max_queue;
        inbox = [];
        sent = 0;
        send_failed = 0;
        received = 0;
        dropped = 0;
      } in
      elim (Bool-cases (strip u (sanitize_text u (some agent_id) 48) == "")) [
        | inl unnamed ↦ rw (unnamed, new_endpoint) h
        | inr named ↦
            rw (named, new_endpoint)
              (join-IsConserved passed id (put_endpoint id e s) (record {
                frames = h.frames;
                bounded = h.bounded;
                reports = omega (arith, h.reports, total-insert_new tried id e s.endpoints new);
                mail = omega (arith, h.mail, total-insert_new taken id e s.endpoints new);
                queues = insert-All Fits id e s.endpoints (omega arith, omega arith) h.queues;
              }))
      ]

  poll-IsConserved :
      (passed id : ℕ) (s : Ether) → IsConserved passed s → IsConserved passed (poll id s).0
  unfolding poll
  poll-IsConserved passed id s h = elim (Option-cases (lookup id s.endpoints)) [
    | inl absent ↦ rw (absent, poll) h
    | inr (e, found) ↦
        rw (found, poll)
          (record {
            frames = h.frames;
            bounded = h.bounded;
            reports = omega (arith, h.reports, total-insert tried id e _ s.endpoints found);
            mail = omega (arith, h.mail, total-insert taken id e _ s.endpoints found);
            queues =
                insert-All Fits id _ s.endpoints
                  (
                    (All-lookup (λ (e : ℕ × Endpoint). Fits e.1) id s.endpoints h.queues found).0,
                    omega arith,
                  )
                  h.queues;
          })
  ]

  step-IsConserved :
      (passed : ℕ) (t : Step) (s : Ether)
      → IsConserved passed s
      → IsConserved (passed + dispatches t s) (step t s)
  unfolding run_once close
  step-IsConserved passed (make id agent_id max_queue) s h =
      elim (Option-cases (lookup id s.endpoints)) [
        | inl new ↦
            rw (new, step)
              (recount (omega arith)
                (new_endpoint-IsConserved passed id agent_id max_queue s new h))
        | inr (e, used) ↦ rw (used, step) (recount (omega arith) h)
      ]
  step-IsConserved passed (enter id) s h = recount (omega arith) (join-IsConserved passed id s h)
  step-IsConserved passed (exit id) s h = recount (omega arith) (leave-IsConserved passed id s h)
  step-IsConserved passed (send id now draw peer frame) s h =
      recount (omega arith) (send_frame-IsConserved passed id now draw peer frame s h)
  step-IsConserved passed launch s h = recount (omega arith) (start-IsConserved passed s h)
  step-IsConserved passed shut s h = recount (omega arith) (same_counts passed false s h)
  step-IsConserved passed (round now) s h = by_running s.running
    where
      by_head :
          (fs : List Frame)
          → s.scheduled ≡ fs
          → IsConserved
              (passed + (if (run_scheduled now fs s).1 then 1 else 0))
              (run_scheduled now fs s).0
      by_head [] head = recount (omega arith) h
      by_head (f ∷ fs) head = elim (Bool-cases (ltb now f.due)) [
        | inl early ↦ rw early (recount (omega arith) h)
        | inr due ↦
            rw due (recount (omega arith) (run_scheduled-IsConserved passed now f fs s head h))
      ]

      by_running :
          (on : Bool)
          → let r = if on then run_scheduled now s.scheduled s else (s, false) in
            IsConserved (passed + (if r.1 then 1 else 0)) r.0
      by_running true = by_head s.scheduled refl
      by_running false = recount (omega arith) h
  step-IsConserved passed (take_mail id) s h =
      recount (omega arith) (poll-IsConserved passed id s h)

  run-IsConserved' :
      (passed : ℕ) (ts : List Step) (s : Ether)
      → IsConserved passed s
      → IsConserved (passed + dispatched ts s) (run ts s)
  run-IsConserved' passed [] s h = recount (omega arith) h
  run-IsConserved' passed (t ∷ ts) s h =
      recount (omega arith)
        (run-IsConserved' (passed + dispatches t s) ts (step t s) (step-IsConserved passed t s h))

  -- Whatever endpoints and the thread of a new ether do, in any order: every frame submitted is dispatched, still
  -- scheduled, or counted as dropped for one reason; the schedule and every queue keep within their bounds; the
  -- endpoints report as many sends as were submitted; and every delivery is polled, dropped by a full queue or
  -- still in a queue.
  pub run-IsConserved :
      (profile : LinkProfile) (scheduled_cap : ℕ) (ts : List Step)
      → IsConserved
          (dispatched ts (new_ether profile scheduled_cap))
          (run ts (new_ether profile scheduled_cap))
  unfolding new_ether
  run-IsConserved profile scheduled_cap ts = recount (omega arith) (
      run-IsConserved' 0 ts (new_ether profile scheduled_cap) (record {
        frames = omega arith;
        bounded = omega arith;
        reports = refl;
        mail = refl;
        queues = tt;
      }))
