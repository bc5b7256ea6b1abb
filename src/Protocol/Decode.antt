-- ===== src/Protocol/Decode.antt =====
-- `decode` of protocol.py, with its JSON and compact bodies. Accesses out of range raise IndexError
-- and struct.error, which are no ProtocolError. The loop over the entries runs on fuel.
pub mod Laws
use shogunet.Prelude.{
  ℕ, zero, suc, ◌+◌, ◌-◌, ◌*◌, ◌≡◌, String, Option, some, none, List, [], ◌∷◌, ltb, leb,
  if◌then◌else◌, Bool, true, false, ◌==◌, string_eq, nat_eq, length, drop, slice,
}
use shogunet.Security.{sanitize_text}
use shogunet.Payload.{
  Value, null, bool, nat, neg, float, str, list, dict, other, Fields, end, field, set_field,
  get_field, bound_payload,
}
use shogunet.Protocol.Errors.{
  Result, ok, err, ◌>>=◌, body_truncated, entries_truncated, corrupt_json, unknown_tag, bad_body,
  index_error, struct_error, out_of_fuel,
}
use shogunet.Protocol.Registry.{codec_json, header_len}
use shogunet.Protocol.Struct.{byte, unpack16, unpack32}
use shogunet.Protocol.Header.{Header, peek_header}
use shogunet.Protocol.Envelope.{
  Stdlib, Envelope, or_all, field_name, max_agent_id, max_realm, clean,
}

-- data[off]
unfoldable pub index : List ℕ → ℕ → Result ℕ
index body off = if ltb off (length body) then ok (byte body off) else err index_error

-- struct.unpack_from(">H", data, off)
unfoldable pub unpack_from16 : List ℕ → ℕ → Result ℕ
unpack_from16 body off =
    if ltb (length body) (off + 2)
    then err struct_error
    else ok (unpack16 (byte body off) (byte body (off + 1)))

-- struct.unpack_from(">Q", data, off), and ">d" as a bit pattern
unfoldable pub unpack_from64 : List ℕ → ℕ → Result ℕ
unpack_from64 body off =
    if ltb (length body) (off + 8)
    then err struct_error
    else ok (
        unpack32 (byte body off) (byte body (off + 1)) (byte body (off + 2)) (byte body (off + 3))
          * 4294967296
        + unpack32 (byte body (off + 4)) (byte body (off + 5)) (byte body (off + 6))
            (byte body (off + 7)))

-- payload.update(value)
unfoldable pub update_fields : Fields → Fields → Fields
update_fields end payload = payload
update_fields (field k v rest) payload = update_fields rest (set_field k v payload)

module _ (py : Stdlib) where
  json_value : List ℕ → ℕ → Result (Value × ℕ)
  json_value text off = elim (py.loads text) [ none ↦ err corrupt_json | some v ↦ ok (v, off) ]

  -- The value and the new offset.
  unfoldable pub decode_value : ℕ → List ℕ → ℕ → Result (Value × ℕ)
  unfolding json_value unpack_from16 unpack_from64
  decode_value tag body off =
      if tag == 0
      then (do
        n ← unpack_from16 body off
        ok (str (py.utf8_replace (slice (off + 2) (off + 2 + n) body)), off + 2 + n))
      else if tag == 1
      then (do v ← unpack_from64 body off; ok (nat v, off + 8))
      else if tag == 2
      then (do v ← unpack_from64 body off; ok (float v, off + 8))
      else if tag == 3
      then (do
        n ← unpack_from16 body off
        json_value (slice (off + 2) (off + 2 + n) body) (off + 2 + n))
      else err unknown_tag

  -- FIELD_IDS.get(fid, f"f{fid}")
  abbrev pub name_of : ℕ → String
  name_of fid = elim (field_name fid) [
    | none ↦ String.◌∷◌ "f" (py.to_str (nat fid))
    | some name ↦ name
  ]

  -- One decoded entry: the blob's keys go in by themselves.
  abbrev pub add_entry : ℕ → Value → Fields → Fields
  add_entry fid (dict fs) payload =
      if fid == 0 then update_fields fs payload else set_field (name_of fid) (dict fs) payload
  add_entry fid value payload = set_field (name_of fid) value payload

  -- while off < end
  unfoldable pub decode_entries : ℕ → List ℕ → ℕ → ℕ → Fields → Result Fields
  unfolding decode_value index
  decode_entries zero body off stop payload = err out_of_fuel
  decode_entries (suc fuel) body off stop payload =
      let round = do
        fid ← index body off
        tag ← index body (off + 1)
        entry ← decode_value tag body (off + 2)
        decode_entries fuel body entry.1 stop (add_entry fid entry.0 payload)
      in if ltb off stop then round else ok payload

  -- A length byte, and the text behind it with the new offset.
  unfoldable pub decode_name : List ℕ → ℕ → Result (String × ℕ)
  unfolding index
  decode_name body off = do
    n ← index body off
    if ltb (length body) (off + 1 + n)
        then err body_truncated
        else ok (py.utf8_replace (slice (off + 1) (off + 1 + n) body), off + 1 + n)

  abbrev pub decoded : String → String → String → String → Value → ℕ → Result Envelope
  decoded sender recipient topic realm payload ts = do
    bounded ← bound_payload py.unicode 0 payload
    ok (record {
      msg_id = 0;
      msg_type = "";
      sender = clean py sender max_agent_id;
      recipient = or_all (clean py recipient max_agent_id);
      topic = clean py topic 64;
      realm = or_all (clean py realm max_realm);
      payload = bounded;
      created_at = ts;
    })

  -- What stands behind the four names.
  unfoldable pub decode_tail : List ℕ → ℕ → Result (ℕ × Fields)
  unfolding decode_entries
  decode_tail body off = do
    ts ← unpack_from64 body off
    n_entries ← unpack_from16 body (off + 8)
    if ltb (length body) (off + 10 + n_entries) then err entries_truncated else do
      payload ← decode_entries (suc (length body)) body (off + 10) (off + 10 + n_entries) end
      ok (ts, payload)

  unfoldable pub decode_compact_body : List ℕ → Result Envelope
  unfolding decode_name decode_tail
  decode_compact_body body = if ltb (length body) 13 then err body_truncated else do
    sender ← decode_name body 0
    recipient ← decode_name body sender.1
    topic ← decode_name body recipient.1
    realm ← decode_name body topic.1
    tail ← decode_tail body realm.1
    decoded sender.0 recipient.0 topic.0 realm.0 (dict tail.1) tail.0

  -- sanitize_text(body.get(key, default), cap)
  abbrev pub text_field : Fields → String → String → ℕ → String
  text_field fs key default cap = elim (get_field key fs) [
    | none ↦ clean py default cap
    | some v ↦ elim v [
      | null ↦ sanitize_text py.unicode none cap
      | str s ↦ clean py s cap
      | bool b ↦ clean py (py.to_str (bool b)) cap
      | nat n ↦ clean py (py.to_str (nat n)) cap
      | neg n ↦ clean py (py.to_str (neg n)) cap
      | float n ↦ clean py (py.to_str (float n)) cap
      | list vs ↦ clean py (py.to_str (list vs)) cap
      | dict ks ↦ clean py (py.to_str (dict ks)) cap
      | other s ↦ clean py s cap
    ]
  ]

  -- The payload and the time of a JSON body; a failed bound or conversion is one error.
  abbrev pub payload_field : Fields → Result Value
  payload_field fs = elim (get_field "p" fs) [
    | none ↦ bound_payload py.unicode 0 (dict end)
    | some v ↦ bound_payload py.unicode 0 v
  ]

  abbrev pub time_field : ℕ → Fields → Option ℕ
  time_field now fs = elim (get_field "ts" fs) [ none ↦ some now | some v ↦ py.to_float v ]

  unfoldable pub decode_json_object : ℕ → Fields → Result Envelope
  decode_json_object now fs = elim (payload_field fs) [
    | err e ↦ err bad_body
    | ok payload ↦ elim (time_field now fs) [
      | none ↦ err bad_body
      | some ts ↦ ok (record {
        msg_id = 0;
        msg_type = "";
        sender = text_field fs "s" "" max_agent_id;
        recipient = or_all (text_field fs "r" "*" max_agent_id);
        topic = text_field fs "t" "" 64;
        realm = or_all (text_field fs "re" "*" max_realm);
        payload = payload;
        created_at = ts;
      })
    ]
  ]

  abbrev pub as_object : Value → Result Fields
  as_object (dict fs) = ok fs
  as_object _ = err bad_body

  unfoldable pub decode_json_body : ℕ → List ℕ → Result Envelope
  unfolding decode_json_object
  decode_json_body now body = elim (py.loads body) [
    | none ↦ err corrupt_json
    | some v ↦ as_object v >>= decode_json_object now
  ]

  -- `now` is time.time(), for a JSON body without a time.
  unfoldable pub decode : ℕ → List ℕ → Result Envelope
  unfolding decode_json_body decode_compact_body
  decode now frame = do
    head ← peek_header frame
    env ←
        if head.codec == codec_json
        then decode_json_body now (drop header_len frame)
        else decode_compact_body (drop header_len frame)
    ok (record env { msg_id = head.msg_id; msg_type = head.msg_type })
