-- ===== src/Protocol/Encode.antt =====
-- `encode` of protocol.py, with its JSON and compact bodies.
pub mod Laws
use shogunet.Prelude.{
  ℕ, zero, suc, ◌+◌, ◌-◌, ◌*◌, ◌/◌, ◌%◌, ◌^◌, ◌≡◌, String, Option, some, none, List, [], ◌∷◌, ◌++◌,
  ltb, if◌then◌else◌, Bool, true, false, ◌==◌, string_eq, nat_eq, length, take,
}
use shogunet.Prelude.Dict.{contains}
use shogunet.Payload.{
  Value, null, bool, nat, neg, float, str, list, dict, other, Fields, end, field, set_field,
  bound_payload, max_str_value,
}
use shogunet.Protocol.Errors.{
  Result, ok, err, ◌>>=◌, unknown_type, unknown_codec, sender_required, envelope_too_large,
  bad_body, key_error,
}
use shogunet.Protocol.Registry.{
  type_id, class_of, codec_names, codec_json, max_envelope_bytes, header_len,
}
use shogunet.Protocol.Struct.{pack16, pack64}
use shogunet.Protocol.Header.{pack_header}
use shogunet.Protocol.Envelope.{
  Stdlib, Envelope, normalized, clean, or_all, utf8, field_id, tag_str, tag_uint, tag_float,
  tag_json, max_agent_id, max_realm,
}

-- int(value) & 0xFFFFFFFFFFFFFFFF
abbrev pub mask64 : Value → ℕ
mask64 (nat n) = n % 2 ^ 64
mask64 (neg n) = 2 ^ 64 - 1 - n % 2 ^ 64
mask64 _ = 0

-- What `_encode_compact_body` has built: the entries, and the keys outside the registry.
pub record Entries : Type 0 where
  pub bytes : List ℕ
  pub blob : Fields

-- [fid][TAG_JSON][len][json]
abbrev pub json_entry : ℕ → List ℕ → List ℕ
json_entry fid text = fid ∷ tag_json ∷ pack16 (length text) text

-- env.payload if isinstance(env.payload, dict) else {"_value": env.payload}
abbrev pub payload_items : Value → Fields
payload_items (dict fs) = fs
payload_items v = field "_value" v end

-- The header in front of a body that fits.
unfoldable pub frame_body : ℕ → ℕ → ℕ → ℕ → List ℕ → Result (List ℕ)
frame_body codec cls typ msg_id body =
    if ltb (max_envelope_bytes - header_len) (length body)
    then err envelope_too_large
    else ok (pack_header codec cls typ 0 (msg_id % 4294967296) (length body) body)

module _ (py : Stdlib) where
  -- The bytes that `_encode_value` appends.
  unfoldable pub encode_value : ℕ → Value → Result (List ℕ)
  encode_value fid null = ok (json_entry fid (py.dumps null))
  encode_value fid (bool b) = ok (json_entry fid (py.dumps (bool b)))
  encode_value fid (nat n) = ok (fid ∷ tag_uint ∷ pack64 (mask64 (nat n)) [])
  encode_value fid (neg n) = ok (fid ∷ tag_uint ∷ pack64 (mask64 (neg n)) [])
  encode_value fid (float bits) = ok (fid ∷ tag_float ∷ pack64 bits [])
  encode_value fid (str s) =
      let text = take 65535 (utf8 (clean py s max_str_value)) in
      ok (fid ∷ tag_str ∷ pack16 (length text) text)
  encode_value fid value = do
    bounded ← bound_payload py.unicode 0 value
    ok (json_entry fid (take 65535 (py.dumps bounded)))

  -- for key, val in payload.items()
  unfoldable pub encode_entries : Fields → Entries → Result Entries
  unfolding encode_value
  encode_entries end acc = ok acc
  encode_entries (field key val rest) acc = do
    acc' ← elim (field_id key) [
      | none ↦ ok (record acc { blob = set_field key val acc.blob })
      | some fid ↦ do bytes ← encode_value fid val; ok (record acc { bytes = acc.bytes ++ bytes })
    ]
    encode_entries rest acc'

  -- One of the four length-prefixed names.
  abbrev pub name_field : String → ℕ → List ℕ
  name_field s cap = let raw = take 255 (utf8 (clean py s cap)) in length raw ∷ raw

  -- if blob: append it as entry 0
  abbrev pub close_entries : Entries → Result (List ℕ)
  close_entries acc = elim acc.blob [
    | end ↦ ok acc.bytes
    | field k v rest ↦ do
      blob ← bound_payload py.unicode 0 (dict (field k v rest))
      bytes ← encode_value 0 blob
      ok (acc.bytes ++ bytes)
  ]

  unfoldable pub encode_compact_body : Envelope → Result (List ℕ)
  unfolding encode_entries
  encode_compact_body env = do
    acc ← encode_entries (payload_items env.payload) (record { bytes = []; blob = end })
    entries ← close_entries acc
    if ltb 65535 (length entries)
        then err envelope_too_large
        else ok (
            name_field env.sender max_agent_id
            ++ (name_field env.recipient max_agent_id
                ++ (name_field env.topic 64
                    ++ (name_field env.realm max_realm
                        ++ pack64 env.created_at (pack16 (length entries) entries)))))

  unfoldable pub encode_json_body : Envelope → Result (List ℕ)
  encode_json_body env = do
    p ← bound_payload py.unicode 0 env.payload
    elim (py.dumps_sorted (
        dict (
          field "s" (str (clean py env.sender max_agent_id)) (
            field "r" (str (or_all (clean py env.recipient max_agent_id))) (
              field "t" (str (clean py env.topic 64)) (
                field "re" (str (or_all (clean py env.realm max_realm)))
                  (field "ts" (float env.created_at) (field "p" p end)))))))) [
                    | none ↦ err bad_body
                    | some bytes ↦ ok bytes
                  ]

  unfoldable pub encode_normalized : ℕ → ℕ → ℕ → Envelope → Result (List ℕ)
  unfolding frame_body encode_json_body encode_compact_body
  encode_normalized codec cls typ env = if env.sender == "" then err sender_required else do
    body ← if codec == codec_json then encode_json_body env else encode_compact_body env
    frame_body codec cls typ env.msg_id body

  unfoldable pub encode_typed : ℕ → ℕ → Envelope → Result (List ℕ)
  unfolding encode_normalized normalized
  encode_typed codec typ envelope = do
    env ← normalized py envelope
    cls ← elim (class_of envelope.msg_type) [ none ↦ err key_error | some c ↦ ok c ]
    encode_normalized codec cls typ env

  unfoldable pub encode : Envelope → ℕ → Result (List ℕ)
  unfolding encode_typed
  encode envelope codec = elim (type_id envelope.msg_type) [
    | none ↦ err unknown_type
    | some typ ↦
        if contains codec codec_names then encode_typed codec typ envelope else err unknown_codec
  ]
