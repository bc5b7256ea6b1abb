-- ===== src/Tests/Ether.antt =====
-- A LoRa ether with two endpoints.
use shogunet.Prelude.{◌≡◌, refl, some, List, [], ◌∷◌, false}
use shogunet.Transports.{LinkProfile}
use shogunet.LinkSimulator.{start, Draw, new_ether, new_endpoint, send_frame, run_once}
use shogunet.LinkSimulator.Accounts.{IsConserved}
use shogunet.LinkSimulator.Conservation.{
  Step, make, send, launch, round, take_mail, dispatched, run, run-IsConserved,
}
use shogunet.Tests.Values.{ascii}

abbrev lora : LinkProfile
lora = record {
  name = "lora";
  kbps = 5;
  latency = 2000;
  max_payload_bytes = 220;
  duty_cycle = some 1;
  supports_ip = false;
  segmented = false;
}

abbrev draw : Draw
draw = record { lost = false; jitter = 0 }

abbrev steps : List Step
steps =
    make 0 "a" 4
    ∷ make 1 "b" 4
    ∷ send 0 0 draw (some "b") (1 ∷ 2 ∷ [])
    ∷ launch
    ∷ round 0
    ∷ round 20000
    ∷ take_mail 1
    ∷ []

test_dispatched : dispatched ascii steps (new_ether lora 8) ≡ 1
unfolding run_once send_frame new_ether new_endpoint start
test_dispatched = refl

run-IsConserved_example :
    IsConserved (dispatched ascii steps (new_ether lora 8)) (run ascii steps (new_ether lora 8))
run-IsConserved_example = run-IsConserved ascii lora 8 steps
