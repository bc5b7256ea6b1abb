-- ===== src/Tests/Oversight.antt =====
-- The relay hub, the audit log and the fallback controller on short histories.
use shogunet.Prelude.{
  ℕ, ◌≡◌, ◌≢◌, refl, ap, arith, String, List, [], ◌∷◌, map, true, false, length, max, nat_eq,
  string_eq, pair_eq, list_eq, if◌then◌else◌, ltb,
}
use shogunet.Payload.{Fields}
use shogunet.Relay.{Hub, new_hub, deliver, register, poll_loop}
use shogunet.Relay.Invariant.{IsValid, new_hub-IsValid, register-IsValid, deliver-IsValid}
use shogunet.Relay.Polling.{IsPolled, poll_loop-IsPolled}
use shogunet.Audit.{Record, entry, blank, open_chain, verify, verify_from, record_hash}
use shogunet.Audit.Chained.{append_all, append-verify}
use shogunet.Audit.Tamper.{verify-front, verify-injective}
use shogunet.Fallbacks.{normal, safe_state, new_controller}
use shogunet.Fallbacks.Latch.{
  call_report, call_resume, run, mode_of, mode-orders, storm, storm-mode,
}
use shogunet.Tests.Values.{python, heartbeat_frame}

abbrev hub : Hub
hub = new_hub 2 1000 8

deliver-IsValid_example : IsValid (deliver python 0 0 0 "b" heartbeat_frame (new_hub 2 1000 8)).0
deliver-IsValid_example =
    deliver-IsValid python 0 0 0 "b" heartbeat_frame (new_hub 2 1000 8) (new_hub-IsValid 2 1000 8)

register_b : (h : Hub) → IsValid h → IsValid (register python 0 "b" "*" Fields.end h).0
register_b h v = register-IsValid python 0 "b" "*" Fields.end h v

poll_loop-IsPolled_example : IsPolled (
    poll_loop 9 64 "b"
      ((5, λ h. (register python 0 "b" "*" Fields.end h).0) ∷ [])
      (new_hub 2 1000 8))
poll_loop-IsPolled_example =
    poll_loop-IsPolled 9 64 "b" ((5, λ h. (register python 0 "b" "*" Fields.end h).0) ∷ [])
      (new_hub 2 1000 8) (register_b, tt) (new_hub-IsValid 2 1000 8)

-- A digest that keeps all: the fields of the records so far, the latest first.
abbrev Trace : Type 0
Trace = List (ℕ × (String × (String × String)))

abbrev trace : ℕ → String → String → String → Trace → Trace
trace seq ts event payload prev = (seq, (ts, (event, payload))) ∷ prev

abbrev genesis : Trace
genesis = []

append-verify_example :
    verify genesis trace
      (append_all genesis trace
        (("t", "paired", "{}") ∷ ("u", "unpaired", "{}") ∷ [])
        (open_chain genesis trace [])).file
    ≡ []
append-verify_example =
    append-verify genesis trace (("t", "paired", "{}") ∷ ("u", "unpaired", "{}") ∷ [])

abbrev first : Record Trace
first = record {
  seq = 1;
  ts = "t";
  event = "paired";
  payload = "{}";
  prev = genesis;
  hash = trace 1 "t" "paired" "{}" genesis;
}

verified : verify genesis trace (entry first ∷ blank ∷ []) ≡ []
unfolding verify verify_from
verified = refl

verify-front_example : verify genesis trace (entry first ∷ []) ≡ []
verify-front_example = verify-front genesis trace (entry first ∷ []) (blank ∷ []) verified

trace_head : Trace → ℕ × (String × (String × String))
trace_head [] = (0, ("", ("", "")))
trace_head (x ∷ xs) = x

trace_rest : Trace → Trace
trace_rest [] = []
trace_rest (x ∷ xs) = xs

told :
    (r q : Record Trace)
    → record_hash genesis trace r ≡ record_hash genesis trace q
    → (r.seq ≡ q.seq)
      × (r.ts ≡ q.ts)
      × (r.event ≡ q.event)
      × (r.payload ≡ q.payload)
      × (r.prev ≡ q.prev)
unfolding trace_head trace_rest
told r q h = (
  ap (λ t. (trace_head t).0) h,
  ap (λ t. (trace_head t).1.0) h,
  ap (λ t. (trace_head t).1.1.0) h,
  ap (λ t. (trace_head t).1.1.1) h,
  ap trace_rest h,
)

no_genesis : (r : Record Trace) → record_hash genesis trace r ≢ genesis
no_genesis r h = ground (arith, h)

alone : verify genesis trace (map entry (first ∷ [])) ≡ []
unfolding verify verify_from
alone = refl

verify-injective_example : first ∷ [] ≡ first ∷ []
verify-injective_example =
    verify-injective genesis trace told no_genesis (first ∷ []) (first ∷ []) alone alone refl

mode-orders_example :
    let c =
      run
        (λ s. s)
        (call_report true 5 "network_peer_lost" ∷ call_resume false ∷ [])
        (new_controller [] 20) in
    c.mode ≡ mode_of c.orders
mode-orders_example =
    mode-orders (λ s. s) [] 20 (call_report true 5 "network_peer_lost" ∷ call_resume false ∷ [])

storm-mode_example :
    (run (λ s. s) (map (λ t. call_report true t storm) (1 ∷ 2 ∷ 3 ∷ [])) (new_controller [] 3)).mode
    ≡ (if ltb (length {A = ℕ} (1 ∷ 2 ∷ 3 ∷ [])) (max 1 3) then normal else safe_state)
storm-mode_example =
    storm-mode (λ s. s) refl 0 3 (1 ∷ 2 ∷ 3 ∷ [])
      ((omega arith, omega arith), ((omega arith, omega arith), ((omega arith, omega arith), tt)))
