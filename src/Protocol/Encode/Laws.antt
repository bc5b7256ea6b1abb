-- ===== src/Protocol/Encode/Laws.antt =====
-- `encode` of protocol.py against `peek_header`.
use shogunet.Prelude.{
  ℕ, ◌+◌, ◌-◌, ◌%◌, ◌≤◌, ◌<◌, ◌≡◌, String, some, List, arith, length, inl, inr, Option-cases,
  Bool-cases, ltb, ◌==◌, nat_eq, string_eq, if◌then◌else◌,
}
use shogunet.Protocol.Errors.{ok, >>=-eq-ok}
use shogunet.Protocol.Registry.{type_id, type_name, class_of, type_name-type_id}
use shogunet.Protocol.Header.{Header, pack_header, peek_header}
use shogunet.Protocol.Header.Laws.{peek_header-pack_header}
use shogunet.Protocol.Envelope.{Stdlib, Envelope, normalized}
use shogunet.Protocol.Encode.{
  encode, encode_typed, encode_normalized, frame_body, encode_json_body, encode_compact_body,
}

-- The header that a receiver reads off a frame made of `env`.
abbrev pub header_of : Envelope → ℕ → ℕ → ℕ → Header
header_of env codec cls len = record {
  version = 1;
  codec = codec;
  cls = cls;
  msg_type = env.msg_type;
  flags = 0;
  msg_id = env.msg_id % 4294967296;
  payload_len = len;
  total_len = 16 + len;
}

frame_body-peek_header :
    (codec cls typ msg_id : ℕ) (name : String) (body frame : List ℕ)
    → codec < 2
    → type_name typ ≡ some name
    → class_of name ≡ some cls
    → frame_body codec cls typ msg_id body ≡ ok frame
    → (peek_header frame
        ≡ ok (record {
          version = 1;
          codec = codec;
          cls = cls;
          msg_type = name;
          flags = 0;
          msg_id = msg_id % 4294967296;
          payload_len = length body;
          total_len = 16 + length body;
        }))
      × (16 + length body ≤ 65535)
unfolding frame_body
frame_body-peek_header codec cls typ msg_id name body frame hc ht hk e =
    elim (Bool-cases (ltb (65535 - 16) (length body))) [
      | inl long ↦ absurd (ground arith)
      | inr fits ↦
          let same : frame ≡ pack_header codec cls typ 0 (msg_id % 4294967296) (length body) body =
            ground arith in
          (
            rw same (
                peek_header-pack_header codec typ 0 (msg_id % 4294967296) name cls body hc ht hk
                  (omega arith) (ground arith)),
            ground arith,
          )
    ]

module _ (py : Stdlib) where
  encode_normalized-body :
      (codec cls typ : ℕ) (env : Envelope) (frame : List ℕ)
      → encode_normalized py codec cls typ env ≡ ok frame
      → (body : List ℕ) × (frame_body codec cls typ env.msg_id body ≡ ok frame)
  unfolding encode_normalized
  encode_normalized-body codec cls typ env frame e = elim (Bool-cases (env.sender == "")) [
    | inl missing ↦ absurd (ground arith)
    | inr there ↦
        let (body, made, framed) =
          >>=-eq-ok (if codec == 0 then encode_json_body py env else encode_compact_body py env)
            (λ body. frame_body codec cls typ env.msg_id body) (rw there at e) in
        (body, framed)
  ]

  encode_typed-parts :
      (env : Envelope) (codec typ cls : ℕ) (frame : List ℕ)
      → class_of env.msg_type ≡ some cls
      → encode_typed py codec typ env ≡ ok frame
      → (env' : Envelope) × (normalized py env ≡ ok env')
        × (encode_normalized py codec cls typ env' ≡ ok frame)
  unfolding encode_typed
  encode_typed-parts env codec typ cls frame hk e =
      >>=-eq-ok (normalized py env) (λ env'. encode_normalized py codec cls typ env') (rw hk at e)

  encode-typed :
      (env : Envelope) (codec : ℕ) (frame : List ℕ)
      → encode py env codec ≡ ok frame
      → (codec < 2)
        × ((typ : ℕ) × (type_id env.msg_type ≡ some typ)
            × (encode_typed py codec typ env ≡ ok frame))
  unfolding encode
  encode-typed env codec frame e = elim (Option-cases (type_id env.msg_type)) [
    | inl unknown ↦ absurd (ground arith)
    | inr (typ, found) ↦ (ground arith, (typ, found, ground arith))
  ]

  -- Normalizing keeps the type, and cuts the id to 32 bits.
  normalized-fields :
      (env env' : Envelope)
      → normalized py env ≡ ok env'
      → (env'.msg_id ≡ env.msg_id % 4294967296) × (env'.msg_type ≡ env.msg_type)
  unfolding normalized
  normalized-fields env env' e = ground arith

  -- A frame that `encode` returns has at most 65535 bytes, and `peek_header` reads off it the
  -- codec, the type with its own class, the id cut to 32 bits, no flag and the true lengths.
  pub peek_header-encode :
      (env : Envelope) (codec : ℕ) (frame : List ℕ)
      → encode py env codec ≡ ok frame
      → (cls : ℕ) × (len : ℕ) × (class_of env.msg_type ≡ some cls)
        × (peek_header frame ≡ ok (header_of env codec cls len))
        × (16 + len ≤ 65535)
  peek_header-encode env codec frame e =
      let (hc, (typ, ht, typed)) = encode-typed env codec frame e in
      let (hn, (cls, hk, small)) = type_name-type_id env.msg_type typ ht in
      let (env', normal, enc) = encode_typed-parts env codec typ cls frame hk typed in
      let (body, framed) = encode_normalized-body codec cls typ env' frame enc in
      let (head, fits) =
        frame_body-peek_header codec cls typ env'.msg_id env.msg_type body frame hc hn hk framed in
      let same : env'.msg_id % 4294967296 ≡ env.msg_id % 4294967296 =
        omega (arith, (normalized-fields env env' normal).0) in
      (cls, length body, hk, rw (← same) head, fits)
