-- ===== src/Tests/Hub.antt =====
-- A client of the hub that reads one good message and two bad ones, and one whose first start fails.
use shogunet.Prelude.{ℕ, ◌≡◌, ◌++◌, refl, String, Option, some, List, [], ◌∷◌, true, false, arith}
use shogunet.Payload.{Value, str, dict, end, field}
use shogunet.Inbox.Window.{last_n}
use shogunet.RelayClient.{unreachable, answered, Client, Round, start, poll_loop}
use shogunet.RelayClient.Heard.{heard}
use shogunet.RelayClient.Reading.{poll_loop-newest}
use shogunet.RelayClient.Starting.{IsStuck, start-IsStuck}
use shogunet.Tests.Values.{python, heartbeat_frame}

abbrev client : Client
client = record {
  running = false;
  stopping = false;
  threaded = false;
  connected = false;
  max_queue = 1;
  inbox = ("a", 1 ∷ []) ∷ [];
  registered = 0;
  sent = 0;
  send_failed = 0;
  received = 0;
  poll_errors = 0;
}

-- Every text is the same frame.
abbrev decodes : String → Option (List ℕ)
decodes text = some heartbeat_frame

abbrev message : Value
message = dict (field "sender" (str "b") end)

abbrev rounds : List Round
rounds =
    record { registration = unreachable; messages = answered []; stopped = false }
    ∷ record {
      registration = answered true;
      messages = answered (message ∷ str "x" ∷ []);
      stopped = false;
    }
    ∷ []

poll_loop-newest_example :
    (poll_loop python decodes (λ n. n) 1 1 rounds client).0.inbox
    ≡ last_n 1 (client.inbox ++ heard python decodes (λ n. n) false rounds)
poll_loop-newest_example =
    poll_loop-newest python decodes (λ n. n) 1 1 rounds client (omega arith) (omega arith)

start-IsStuck_example : IsStuck (start unreachable client)
start-IsStuck_example = start-IsStuck unreachable client refl refl refl refl
