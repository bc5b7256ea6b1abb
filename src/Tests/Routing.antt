-- ===== src/Tests/Routing.antt =====
-- A chain of two transports, a registry and a hub.
use mathlib.Core.List.{Perm}
use shogunet.Prelude.{
  ℕ, ◌+◌, ◌≡◌, refl, arith, String, none, some, List, [], ◌∷◌, true, false, max, nat_eq, string_eq,
  pair_eq, if◌then◌else◌, ◌==◌, filter, hour, all, All,
}
use shogunet.Prelude.Dict.{lookup, values}
use shogunet.Security.{sanitize_text, take_text, clean_text, clean_char}
use shogunet.Payload.{Fields}
use shogunet.Protocol.Errors.{ok}
use shogunet.Protocol.Registry.{class_of, type_id}
use shogunet.Protocol.Header.{pack_header}
use shogunet.Protocol.Envelope.{normalized}
use shogunet.Payload.{bound_payload, count_fields, set_field}
use shogunet.Protocol.Encode.{encode, encode_typed, encode_normalized, encode_json_body, frame_body}
use shogunet.Transports.{accepts_class}
use shogunet.Outbox.{all_written}
use shogunet.Chain.{Transport, Chain, Platform, new_report}
use shogunet.Chain.Ranking.{ranked}
use shogunet.Chain.Ranking.Order.{InOrder, tied, ranked-InOrder}
use shogunet.Chain.Sending.{send, send_ranked}
use shogunet.Chain.Sending.Report.{Ends, send_ranked-Ends}
use shogunet.Chain.Sending.Persistence.{Files, send-Files}
use shogunet.Chain.Receiving.{on_frame}
use shogunet.Chain.Receiving.Guard.{IsGuarded, on_frame-IsGuarded}
use shogunet.Agents.{Grant, Registry, new_registry, is_paired, list_agents, can_accept}
use shogunet.Agents.Topic.{parse_shugonet_topic}
use shogunet.Agents.Consent.{Call, call_pair, call_alive, run, lasts, grants, is_paired-grants}
use shogunet.Agents.Acl.{unexpired, can_accept-injective, list_agents_lem}
use shogunet.Tests.Values.{ascii, python, announcement, heartbeat_frame}

abbrev wifi : Transport
wifi = record {
  name = "wifi";
  profile = record {
    name = "wifi";
    kbps = 50000;
    latency = 3;
    max_payload_bytes = 1400;
    duty_cycle = none;
    supports_ip = true;
    segmented = false;
  };
  broadcast_supported = true;
}

abbrev lora : Transport
lora = record {
  name = "lora";
  profile = record {
    name = "lora";
    kbps = 5;
    latency = 2000;
    max_payload_bytes = 220;
    duty_cycle = some 1;
    supports_ip = false;
    segmented = false;
  };
  broadcast_supported = true;
}

-- A world that counts the readings of its clock, and media that take every frame but over wifi.
abbrev world : Platform ℕ
world = record {
  monotonic = λ w. (w, w + 1);
  wall = λ w. (w, w + 1);
  wal_written = λ w. (all_written, w);
  send_frame = λ name recipient frame w. (some (if name == "wifi" then false else true), w + 1);
  elapsed = λ a b. a;
  blend = λ a b. a + b;
  add_half = λ a. a + 1;
}

abbrev chain : Chain
chain = record {
  agent_id = "b";
  transports = lora ∷ wifi ∷ [];
  outbox =
      some (record { max_pending = 2; pending = []; wal = record { lines = []; ended = true } });
  breaker_threshold = 3;
  breaker_cooldown = 5000;
  circuits = ("wifi", record { failures = 0; open_until = 9; latency_ewma = none }) ∷ [];
  inbox = record { capacity = 4; seen = []; order = [] };
  assembler = record { pending = []; order = []; max_pending = 16; ttl = 60000 };
  stats = [];
}

ranked-InOrder_example :
    let eligible = filter (λ t. accepts_class t.profile 0) chain.transports in
    InOrder 1 chain (ranked 1 0 chain)
    × Perm (ranked 1 0 chain) eligible
    × (filter (tied 1 chain true 7) (ranked 1 0 chain) ≡ filter (tied 1 chain true 7) eligible)
ranked-InOrder_example = ranked-InOrder 1 0 chain true 7

heartbeat_class : class_of "heartbeat" ≡ some 0
unfolding class_of
heartbeat_class = refl

send_ranked-Ends_example :
    let (s', w', o) = send_ranked world python announcement chain 1 in
    Ends world python announcement (ranked 1 0 chain) chain new_report s' o
    × All (λ t. accepts_class t.profile 0 ≡ true) (ranked 1 0 chain)
send_ranked-Ends_example = send_ranked-Ends world python announcement 0 chain 1 heartbeat_class

on_frame-IsGuarded_example :
    let (s', d) = on_frame python all_written 1 1 [] "a" heartbeat_frame chain in
    IsGuarded chain "a" s' d
on_frame-IsGuarded_example = on_frame-IsGuarded python all_written 1 1 [] "a" heartbeat_frame chain

abbrev pairings : List Call
pairings = call_pair 5 5 "a" none "operator" ∷ call_alive 6 6 "a" ∷ []

is_paired-grants_example :
    (is_paired 7 "a" (run ascii pairings (new_registry hour 30000))).1
    ≡ lasts 7 (lookup "a" (grants ascii (max 36000 hour) pairings []))
is_paired-grants_example =
    is_paired-grants ascii 7 hour 30000 pairings "a" (omega arith, (omega arith, tt))

abbrev grant_a : Grant
grant_a = record {
  agent_id = "a";
  manifest = Fields.end;
  realm = "phys";
  paired_by = "operator";
  paired_at = 0;
  expires_at = 10;
}

abbrev registry : Registry
registry = record {
  pairing_ttl = 36000;
  heartbeat_timeout = 1000;
  paired = ("a", grant_a) ∷ [];
  last_heartbeat = [];
}

accepted_a : (can_accept 3 "a" "/shugunet/a/facts" registry).1 ≡ true
unfolding can_accept is_paired parse_shugonet_topic
accepted_a = refl

accepted_later : (can_accept 4 "a" "/shugunet/a/facts" registry).1 ≡ true
unfolding can_accept is_paired parse_shugonet_topic
accepted_later = refl

can_accept-injective_example : ◌≡◌ {A = String} "a" "a"
can_accept-injective_example =
    can_accept-injective 3 4 "a" "a" "/shugunet/a/facts" registry registry accepted_a accepted_later

abbrev announcement_json : List ℕ
announcement_json =
    b'S' ∷ b'G' ∷ b'N' ∷ 1 ∷ 0 ∷ 0 ∷ 1 ∷ 0 ∷ 0 ∷ 0 ∷ 0 ∷ 7 ∷ 0 ∷ 0 ∷ 0 ∷ 2 ∷ b'{' ∷ b'}' ∷ []

test_json : encode python announcement 0 ≡ ok announcement_json
unfolding encode encode_typed encode_normalized encode_json_body frame_body normalized bound_payload
    sanitize_text take_text clean_text clean_char count_fields set_field type_id class_of
    pack_header
test_json = refl

send-Files_example :
    Files world python announcement announcement_json
      (send world python announcement true chain 1).0.outbox
send-Files_example =
    send-Files world python announcement announcement_json chain 1
      (record { max_pending = 2; pending = []; wal = record { lines = []; ended = true } }) refl
      test_json (omega arith)

list_agents_lem_example :
    (list_agents 20 registry).1
    ≡ (if all (unexpired 20) (values registry.paired) then some (values registry.paired) else none)
list_agents_lem_example = list_agents_lem 20 registry (refl, tt) (refl, tt)
