-- ===== src/Tests/Radio.antt =====
-- A LoRa link over a port that reads what it is given.
use shogunet.Prelude.{ℕ, ◌≡◌, ◌≢◌, refl, arith, List, [], ◌∷◌, ◌++◌, true, false, map}
use shogunet.Protocol.Errors.{ok}
use shogunet.Protocol.Registry.{type_name, class_of}
use shogunet.Protocol.Header.{peek_header}
use shogunet.Protocol.Segment.{segment_frame}
use shogunet.Payload.{get_field, bound_payload}
use shogunet.Protocol.Assembler.{add}
use shogunet.Chain.Sending.{is_protocol_error}
use shogunet.Protocol.Decode.{decode, decode_json_body, decode_compact_body}
use shogunet.Tests.Values.{python, heartbeat_frame}
use shogunet.Lora.{
  Radio, Lora, wire, drain_outbox, sent, raises, pump_receiver, receive, next_frame, handle_frame,
  decode_frame,
}
use shogunet.Lora.Delivery.{bytes_of, drain_outbox-sent, drain_outbox-stuck}
use shogunet.Lora.Stream.Frames.{wires}
use shogunet.Lora.Stream.{listen, frames_of, listen-frames}

-- A clock that stands, a port that writes, and reads that are listed.
abbrev quiet : Radio (List (List ℕ))
quiet = record {
  monotonic = λ w. (5, w);
  wall = λ w. (0, w);
  write = λ bytes w. (true, w);
  read = λ w. elim w [ [] ↦ ([], []) | c ∷ cs ↦ (c, cs) ];
}

-- An hour's window with a budget of a hundredth, or of `fraction` thousandths.
abbrev lora : ℕ → Lora
lora fraction = record {
  rate = 5;
  chunk_len = 120;
  max_queue = 64;
  outbox = (heartbeat_frame, 0) ∷ [];
  duty_window = 3600000;
  airtime_fraction = fraction;
  airtime_used = 0;
  window_start = 0;
  assembler = record { pending = []; order = []; max_pending = 8; ttl = 30000 };
  recv_buf = [];
  peers = [];
}

test_whole : segment_frame heartbeat_frame 120 ≡ ok (heartbeat_frame ∷ [])
unfolding segment_frame peek_header type_name class_of
test_whole = refl

drain_outbox-sent_example :
    ((drain_outbox quiet (lora 10) []).0.outbox ≡ [])
    × (bytes_of (drain_outbox quiet (lora 10) []).2 ≡ map wire (heartbeat_frame ∷ []))
    × ((drain_outbox quiet (lora 10) []).3 ≡ sent)
drain_outbox-sent_example =
    drain_outbox-sent quiet (λ bytes w. refl) heartbeat_frame 0 [] (heartbeat_frame ∷ []) (lora 10)
      [] refl test_whole (omega arith)

-- A window of forty seconds, whose budget is less than the frame.
abbrev short_link : Lora
short_link = record (lora 1) { duty_window = 40000 }

drain_outbox-stuck_example :
    ((drain_outbox quiet short_link []).0.outbox ≡ (heartbeat_frame, 0) ∷ [])
    × ((drain_outbox quiet short_link []).3 ≢ sent)
drain_outbox-stuck_example =
    drain_outbox-stuck quiet heartbeat_frame 0 [] (heartbeat_frame ∷ []) short_link [] refl
      (λ w. refl) test_whole (omega arith)

-- A frame, in reads that cut its length.
abbrev stream : List (List ℕ)
stream = (0 ∷ 0 ∷ 0 ∷ []) ∷ (25 ∷ heartbeat_frame) ∷ []

abbrev listener : Lora
listener = record (lora 10) { outbox = [] }

test_listen : (listen quiet python 2 listener stream).2 ++ [] ≡ wires (heartbeat_frame ∷ [])
unfolding listen pump_receiver receive next_frame handle_frame add peek_header decode_frame
test_listen = refl

listen-frames_example :
    (remaining : List (List ℕ)) × (heartbeat_frame ∷ []
      ≡ frames_of (listen quiet python 2 listener stream).3 ++ remaining)
    × ((listen quiet python 2 listener stream).0.recv_buf ++ [] ≡ wires remaining)
    × (raises quiet python (listen quiet python 2 listener stream).3 ≡ false
        → ◌≡◌ {A = List ℕ} [] []
        → remaining ≡ [])
listen-frames_example =
    listen-frames quiet python 2 (heartbeat_frame ∷ []) [] listener stream (omega arith) refl
      test_listen

no_raise : raises quiet python (listen quiet python 2 listener stream).3 ≡ false
unfolding listen pump_receiver receive next_frame handle_frame add peek_header decode_frame
    type_name class_of is_protocol_error decode decode_json_body decode_compact_body get_field
    bound_payload
no_raise = refl
