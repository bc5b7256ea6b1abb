-- ===== src/Tests/Codec.antt =====
-- Envelopes that are encoded, bounded and decoded.
use shogunet.Prelude.{ℕ, ◌≤◌, ◌≡◌, ◌≢◌, ◌+◌, refl, arith, some, List, [], ◌∷◌, drop, nat_eq}
use shogunet.Security.{sanitize_text, text_length, take_text, clean_text, clean_char}
use shogunet.Security.Laws.{AllChars, IsPrintable, sanitize_text-bounds, sanitize_text_idem}
use shogunet.Payload.{nat, dict, end, field, bound_payload, count_fields, set_field}
use shogunet.Payload.Bounds.{IsBounded, bound_payload-IsBounded}
use shogunet.Protocol.Errors.{ok, err, out_of_fuel, index_error}
use shogunet.Protocol.Registry.{type_id, type_name, class_of}
use shogunet.Protocol.Header.{Header, peek_header, pack_header}
use shogunet.Protocol.Envelope.{normalized, field_id, utf8}
use shogunet.Protocol.Encode.{
  encode, encode_typed, encode_normalized, encode_compact_body, encode_entries, encode_value,
  frame_body,
}
use shogunet.Protocol.Encode.Laws.{header_of, peek_header-encode}
use shogunet.Protocol.Decode.{decode, decode_compact_body}
use shogunet.Protocol.Decode.Laws.{decode_compact_body-ne-out_of_fuel, decode_truncated}
use shogunet.Tests.Values.{ascii, python, announcement}

abbrev announcement_frame : List ℕ
announcement_frame =
    b'S' ∷ b'G' ∷ b'N' ∷ 1 ∷ 1 ∷ 0 ∷ 1 ∷ 0 ∷ 0 ∷ 0 ∷ 0 ∷ 7 ∷ 0 ∷ 0 ∷ 0 ∷ 28 ∷ 1 ∷ b'a' ∷ 1 ∷ b'*'
    ∷ 1 ∷ b't' ∷ 1 ∷ b'*' ∷ 0 ∷ 0 ∷ 0 ∷ 0 ∷ 0 ∷ 0 ∷ 0 ∷ 0 ∷ 0 ∷ 10 ∷ 17 ∷ 1 ∷ 0 ∷ 0 ∷ 0 ∷ 0 ∷ 0 ∷ 0
    ∷ 0 ∷ 3 ∷ []

test_encode : encode python announcement 1 ≡ ok announcement_frame
unfolding encode encode_typed encode_normalized encode_compact_body encode_entries encode_value
    frame_body normalized bound_payload sanitize_text take_text clean_text clean_char count_fields
    set_field field_id utf8 type_id class_of pack_header
test_encode = refl

peek_header-encode_example :
    (cls : ℕ) × (len : ℕ) × (class_of "heartbeat" ≡ some cls)
    × (peek_header announcement_frame ≡ ok (header_of announcement 1 cls len))
    × (16 + len ≤ 65535)
peek_header-encode_example = peek_header-encode python announcement 1 announcement_frame test_encode

test_bound :
    bound_payload ascii 0 (dict (field "count" (nat 3) end)) ≡ ok (dict (field "count" (nat 3) end))
unfolding bound_payload sanitize_text take_text clean_text clean_char count_fields set_field
test_bound = refl

bound_payload-IsBounded_example : IsBounded ascii 0 (dict (field "count" (nat 3) end))
bound_payload-IsBounded_example =
    bound_payload-IsBounded ascii (dict (field "count" (nat 3) end))
      (dict (field "count" (nat 3) end)) test_bound

decode_compact_body-ne-out_of_fuel_example :
    decode_compact_body python (drop 16 announcement_frame) ≢ err out_of_fuel
decode_compact_body-ne-out_of_fuel_example =
    decode_compact_body-ne-out_of_fuel python (drop 16 announcement_frame)

-- A heartbeat whose body is one name of twelve bytes.
abbrev truncated_frame : List ℕ
truncated_frame =
    b'S' ∷ b'G' ∷ b'N' ∷ 1 ∷ 1 ∷ 0 ∷ 1 ∷ 0 ∷ 0 ∷ 0 ∷ 0 ∷ 7 ∷ 0 ∷ 0 ∷ 0 ∷ 13 ∷ 12 ∷ 97 ∷ 97 ∷ 97 ∷ 97
    ∷ 97 ∷ 97 ∷ 97 ∷ 97 ∷ 97 ∷ 97 ∷ 97 ∷ 97 ∷ []

abbrev truncated_header : Header
truncated_header = record {
  version = 1;
  codec = 1;
  cls = 0;
  msg_type = "heartbeat";
  flags = 0;
  msg_id = 7;
  payload_len = 13;
  total_len = 29;
}

test_truncated : peek_header truncated_frame ≡ ok truncated_header
unfolding peek_header type_name class_of
test_truncated = refl

decode_truncated_example : decode python 0 truncated_frame ≡ err index_error
decode_truncated_example =
    decode_truncated python 0 truncated_frame truncated_header 12 (drop 17 truncated_frame)
      test_truncated refl refl refl (omega arith)

sanitize_text-bounds_example :
    AllChars (IsPrintable ascii) (sanitize_text ascii (some "ab") 1)
    × (text_length (sanitize_text ascii (some "ab") 1) ≤ 1)
sanitize_text-bounds_example = sanitize_text-bounds ascii (some "ab") 1

sanitize_text_idem_example :
    sanitize_text ascii (some (sanitize_text ascii (some "ab") 1)) 1
    ≡ sanitize_text ascii (some "ab") 1
sanitize_text_idem_example = sanitize_text_idem ascii (some "ab") 1
