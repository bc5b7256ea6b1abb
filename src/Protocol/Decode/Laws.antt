-- ===== src/Protocol/Decode/Laws.antt =====
-- How `decode` of protocol.py ends.
use shogunet.Prelude.{
  ℕ, zero, suc, ◌+◌, ◌≤◌, ◌<◌, ◌≡◌, ◌≢◌, String, List, ◌∷◌, ltb, ◌==◌, string_eq, nat_eq, length,
  drop, slice, arith, Option-cases, inl, inr, ltb→lt, not_ltb→le,
}
use shogunet.Payload.{Value, dict, Fields, end, bound_payload}
use shogunet.Protocol.Errors.{
  ok, err, Ensures, Ensures-bind, Ensures-if, Ensures-ne, Anything, index_error, out_of_fuel,
}
use shogunet.Payload.Bounds.{bound_payload-Ensures}
use shogunet.Protocol.Header.{Header, peek_header}
use shogunet.Protocol.Envelope.{Stdlib}
use shogunet.Protocol.Decode.{
  index, unpack_from16, unpack_from64, json_value, decode_value, decode_entries, add_entry,
  decode_name, decode_tail, decode_compact_body, decode, decoded,
}

index-Ensures : (body : List ℕ) (off : ℕ) → Ensures out_of_fuel Anything (index body off)
unfolding index
index-Ensures body off =
    Ensures-if out_of_fuel Anything (ltb off (length body)) _ _ (λ _. tt) (λ _ e. cc)

unpack_from16-Ensures :
    (body : List ℕ) (off : ℕ) → Ensures out_of_fuel Anything (unpack_from16 body off)
unfolding unpack_from16
unpack_from16-Ensures body off =
    Ensures-if out_of_fuel Anything (ltb (length body) (off + 2)) _ _ (λ _ e. cc) (λ _. tt)

unpack_from64-Ensures :
    (body : List ℕ) (off : ℕ) → Ensures out_of_fuel Anything (unpack_from64 body off)
unfolding unpack_from64
unpack_from64-Ensures body off =
    Ensures-if out_of_fuel Anything (ltb (length body) (off + 8)) _ _ (λ _ e. cc) (λ _. tt)

module _ (py : Stdlib) where
  abbrev Onward : ℕ → Value × ℕ → Type 0
  Onward off r = off ≤ r.1

  json_value-Ensures :
      (text : List ℕ) (off off' : ℕ)
      → off ≤ off'
      → Ensures out_of_fuel (Onward off) (json_value py text off')
  unfolding json_value
  json_value-Ensures text off off' h = elim (Option-cases (py.loads text)) [
    | inl bad ↦ rw (bad, json_value) (λ e. cc)
    | inr (v, good) ↦ rw (good, json_value) h
  ]

  -- A decoded value ends behind its start.
  decode_value-Ensures :
      (tag : ℕ) (body : List ℕ) (off : ℕ)
      → Ensures out_of_fuel (Onward off) (decode_value py tag body off)
  unfolding decode_value
  decode_value-Ensures tag body off =
      Ensures-if out_of_fuel (Onward off) (tag == 0) _ _
        (λ _.
          Ensures-bind out_of_fuel Anything (Onward off) (unpack_from16 body off) _
            (unpack_from16-Ensures body off) λ n _. omega arith)
        λ _.
          Ensures-if out_of_fuel (Onward off) (tag == 1) _ _
            (λ _.
              Ensures-bind out_of_fuel Anything (Onward off) (unpack_from64 body off) _
                (unpack_from64-Ensures body off) λ n _. omega arith)
            λ _.
              Ensures-if out_of_fuel (Onward off) (tag == 2) _ _
                (λ _.
                  Ensures-bind out_of_fuel Anything (Onward off) (unpack_from64 body off) _
                    (unpack_from64-Ensures body off) λ n _. omega arith)
                λ _.
                  Ensures-if out_of_fuel (Onward off) (tag == 3) _ _
                    (λ _.
                      Ensures-bind out_of_fuel Anything (Onward off) (unpack_from16 body off) _
                        (unpack_from16-Ensures body off)
                        λ n _.
                          json_value-Ensures (slice (off + 2) (off + 2 + n) body) off (off + 2 + n)
                            (omega arith))
                    (λ _ e. cc)

  -- Each round moves on by two bytes at least, so fuel for the distance is enough.
  decode_entries-Ensures :
      (fuel : ℕ) (body : List ℕ) (off stop : ℕ) (payload : Fields)
      → 0 < fuel
      → stop < fuel + off
      → Ensures out_of_fuel Anything (decode_entries py fuel body off stop payload)
  unfolding decode_entries
  decode_entries-Ensures zero body off stop payload p h = absurd (omega arith)
  decode_entries-Ensures (suc fuel) body off stop payload p h =
      Ensures-if out_of_fuel Anything (ltb off stop) _ _
        (λ more.
          Ensures-bind out_of_fuel Anything Anything (index body off) _ (index-Ensures body off)
            λ fid _.
              Ensures-bind out_of_fuel Anything Anything (index body (off + 1)) _
                (index-Ensures body (off + 1))
                λ tag _.
                  Ensures-bind out_of_fuel (Onward (off + 2)) Anything
                    (decode_value py tag body (off + 2)) _ (decode_value-Ensures tag body (off + 2))
                    λ entry on.
                      decode_entries-Ensures fuel body entry.1 stop
                        (add_entry py fid entry.0 payload) (omega (arith, ltb→lt off stop more))
                        (omega (arith, ltb→lt off stop more)))
        (λ _. tt)

  decode_name-Ensures :
      (body : List ℕ) (off : ℕ) → Ensures out_of_fuel Anything (decode_name py body off)
  unfolding decode_name
  decode_name-Ensures body off =
      Ensures-bind out_of_fuel Anything Anything (index body off) _ (index-Ensures body off) λ n _.
        Ensures-if out_of_fuel Anything (ltb (length body) (off + 1 + n)) _ _ (λ _ e. cc) (λ _. tt)

  decode_tail-Ensures :
      (body : List ℕ) (off : ℕ) → Ensures out_of_fuel Anything (decode_tail py body off)
  unfolding decode_tail
  decode_tail-Ensures body off =
      Ensures-bind out_of_fuel Anything Anything (unpack_from64 body off) _
        (unpack_from64-Ensures body off)
        λ ts _.
          Ensures-bind out_of_fuel Anything Anything (unpack_from16 body (off + 8)) _
            (unpack_from16-Ensures body (off + 8))
            λ n _.
              Ensures-if out_of_fuel Anything (ltb (length body) (off + 10 + n)) _ _ (λ _ e. cc)
                λ fits.
                  Ensures-bind out_of_fuel Anything Anything
                    (decode_entries py (suc (length body)) body (off + 10) (off + 10 + n) end) _
                    (decode_entries-Ensures (suc (length body)) body (off + 10) (off + 10 + n) end
                      (omega arith) (omega (arith, not_ltb→le (length body) (off + 10 + n) fits)))
                    (λ _ _. tt)

  decoded-Ensures :
      (sender recipient topic realm : String) (payload : Value) (ts : ℕ)
      → Ensures out_of_fuel Anything (decoded py sender recipient topic realm payload ts)
  decoded-Ensures sender recipient topic realm payload ts =
      Ensures-bind out_of_fuel Anything Anything (bound_payload py.unicode 0 payload) _
        (bound_payload-Ensures py.unicode payload) (λ _ _. tt)

  -- The fuel of the loop over the entries is enough for every body.
  pub decode_compact_body-ne-out_of_fuel :
      (body : List ℕ) → decode_compact_body py body ≢ err out_of_fuel
  unfolding decode_compact_body
  decode_compact_body-ne-out_of_fuel body = Ensures-ne out_of_fuel _ (
      Ensures-if out_of_fuel Anything (ltb (length body) 13) _ _ (λ _ e. cc)
        λ _.
          Ensures-bind out_of_fuel Anything Anything (decode_name py body 0) _
            (decode_name-Ensures body 0)
            λ s _.
              Ensures-bind out_of_fuel Anything Anything (decode_name py body s.1) _
                (decode_name-Ensures body s.1)
                λ r _.
                  Ensures-bind out_of_fuel Anything Anything (decode_name py body r.1) _
                    (decode_name-Ensures body r.1)
                    λ t _.
                      Ensures-bind out_of_fuel Anything Anything (decode_name py body t.1) _
                        (decode_name-Ensures body t.1)
                        λ m _.
                          Ensures-bind out_of_fuel Anything Anything (decode_tail py body m.1) _
                            (decode_tail-Ensures body m.1)
                            λ tail _. decoded-Ensures s.0 r.0 t.0 m.0 (dict tail.1) tail.0)

  -- A compact frame whose body ends with its sender's name, of at least 12 bytes, passes the length check and the header, and
  -- then leaves `decode` by an IndexError, which is no ProtocolError.
  pub decode_truncated :
      (now : ℕ) (frame : List ℕ) (head : Header) (n : ℕ) (name : List ℕ)
      → peek_header frame ≡ ok head
      → head.codec ≡ 1
      → drop 16 frame ≡ n ∷ name
      → length name ≡ n
      → 12 ≤ n
      → decode py now frame ≡ err index_error
  unfolding decode decode_compact_body decode_name index
  decode_truncated now frame head n name peeked compact body len long =
      rw (peeked, compact, body, len) (ground arith)
