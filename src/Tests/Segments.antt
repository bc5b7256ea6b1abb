-- ===== src/Tests/Segments.antt =====
-- Frames that are cut, lost in part and put together.
use shogunet.Prelude.{
  ℕ, ◌<◌, ◌≤◌, ◌≡◌, ◌≢◌, refl, arith, none, some, List, [], ◌∷◌, length, All, ltb, true, map,
  get_or, if◌then◌else◌, nat_eq, ltb→lt, all,
}
use shogunet.Protocol.Errors.{ok, err, key_error}
use shogunet.Protocol.Registry.{type_id, type_name, class_of}
use shogunet.Protocol.Struct.{IsBytes}
use shogunet.Protocol.Header.{Header, peek_header, pack_header}
use shogunet.Protocol.Segment.{segment_frame, defragment, chunk_at, chunks_from, cut_payload}
use shogunet.Protocol.Segment.Pieces.{covers}
use shogunet.Protocol.Segment.Arrival.{defragment-arrival, segment_frame-fits}
use shogunet.Protocol.Segment.Safety.{defragment-ne-key_error}
use shogunet.Protocol.Assembler.{new_assembler, add}
use shogunet.Protocol.Assembler.Invariant.{IsValid, new_assembler-IsValid, add-IsValid}
use shogunet.Tests.Values.{heartbeat_frame, heartbeat_chunks}

abbrev heartbeat_header : Header
heartbeat_header = record {
  version = 1;
  codec = 0;
  cls = 0;
  msg_type = "heartbeat";
  flags = 0;
  msg_id = 7;
  payload_len = 9;
  total_len = 25;
}

test_peek : peek_header heartbeat_frame ≡ ok heartbeat_header
unfolding peek_header type_name class_of
test_peek = refl

test_segment : segment_frame heartbeat_frame 24 ≡ ok heartbeat_chunks
unfolding segment_frame cut_payload chunks_from chunk_at pack_header peek_header type_name class_of
    type_id
test_segment = refl

below_256 : (b : ℕ) → ltb b 256 ≡ true → b < 256
below_256 b h = ltb→lt b 256 h

IsBytes-of_all : (f : List ℕ) → all (λ b. ltb b 256) f ≡ true → IsBytes f
IsBytes-of_all [] h = tt
IsBytes-of_all (b ∷ f) h = (ground (arith, h), IsBytes-of_all f (ground (arith, h)))

heartbeat_frame-IsBytes : IsBytes heartbeat_frame
heartbeat_frame-IsBytes = IsBytes-of_all heartbeat_frame refl

defragment-arrival_example :
    defragment (map (λ k. get_or heartbeat_chunks k []) (4 ∷ 2 ∷ 0 ∷ 2 ∷ 3 ∷ 1 ∷ []))
    ≡ ok (
        if covers (length heartbeat_chunks) (4 ∷ 2 ∷ 0 ∷ 2 ∷ 3 ∷ 1 ∷ [])
        then some heartbeat_frame
        else none)
defragment-arrival_example =
    defragment-arrival heartbeat_frame heartbeat_header heartbeat_frame-IsBytes test_peek 24
      heartbeat_chunks 4 (2 ∷ 0 ∷ 2 ∷ 3 ∷ 1 ∷ []) refl test_segment
      (omega arith, (omega arith, (omega arith, (omega arith, (omega arith, (omega arith, tt))))))

segment_frame-fits_example :
    All (λ c. length c ≤ 24) heartbeat_chunks × (length heartbeat_chunks ≤ 255)
segment_frame-fits_example =
    segment_frame-fits heartbeat_frame heartbeat_header heartbeat_frame-IsBytes test_peek 24
      heartbeat_chunks test_segment

defragment-ne-key_error_example : defragment heartbeat_chunks ≢ err key_error
defragment-ne-key_error_example = defragment-ne-key_error heartbeat_chunks

add-IsValid_example :
    IsValid (add 5 heartbeat_frame (new_assembler 16 60000)).0
    × ((add 5 heartbeat_frame (new_assembler 16 60000)).1 ≢ err key_error)
add-IsValid_example =
    add-IsValid 5 heartbeat_frame (new_assembler 16 60000) (new_assembler-IsValid 16 60000)
