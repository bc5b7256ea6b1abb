-- ===== src/Protocol/Header.antt =====
-- The 16-byte header: `struct.pack(HEADER_FMT, ...)` and `peek_header` of protocol.py.
pub mod Laws
use shogunet.Prelude.{
  ℕ, ◌+◌, ◌-◌, ◌*◌, ◌/◌, ◌%◌, ◌<◌, ◌≤◌, ◌≡◌, refl, String, Option, none, some, List, [], ◌∷◌, ◌++◌,
  arith, Bool, true, false, ltb, ◌==◌, if◌then◌else◌, nat_eq, string_eq, list_eq, length, take,
  drop, get_or,
}
use shogunet.Prelude.Dict.{contains}
use shogunet.Protocol.Errors.{
  Error, Result, ok, err, short_frame, bad_magic, unsupported_version, unknown_codec, unknown_type,
  class_mismatch, length_mismatch, key_error,
}
use shogunet.Protocol.Registry.{protocol_version, header_len, codec_names, type_name, class_of}
use shogunet.Protocol.Struct.{byte, pack32, unpack32}

abbrev pub magic : List ℕ
magic = b'S' ∷ b'G' ∷ b'N' ∷ []

-- struct.pack(HEADER_FMT, MAGIC, PROTOCOL_VERSION, codec, cls, typ, flags, msg_id, plen), before
-- what follows it
unfoldable pub pack_header : ℕ → ℕ → ℕ → ℕ → ℕ → ℕ → List ℕ → List ℕ
pack_header codec cls typ flags msg_id plen rest =
    b'S'
    ∷ b'G'
    ∷ b'N'
    ∷ protocol_version
    ∷ codec
    ∷ cls
    ∷ typ
    ∷ flags
    ∷ pack32 msg_id (pack32 plen rest)

pub record Header : Type 0 where
  pub version : ℕ
  pub codec : ℕ
  pub cls : ℕ
  pub msg_type : String
  pub flags : ℕ
  pub msg_id : ℕ
  pub payload_len : ℕ
  pub total_len : ℕ

-- The checks behind the type's name: class, then length.
check_class : List ℕ → String → Result Header
check_class f name = elim (class_of name) [
  | none ↦ err key_error
  | some c ↦
      if byte f 5 == c
      then if unpack32 (byte f 12) (byte f 13) (byte f 14) (byte f 15) == length f - header_len
        then ok (record {
          version = byte f 3;
          codec = byte f 4;
          cls = byte f 5;
          msg_type = name;
          flags = byte f 7;
          msg_id = unpack32 (byte f 8) (byte f 9) (byte f 10) (byte f 11);
          payload_len = unpack32 (byte f 12) (byte f 13) (byte f 14) (byte f 15);
          total_len = length f;
        })
        else err length_mismatch
      else err class_mismatch
]

unfoldable pub peek_header : List ℕ → Result Header
unfolding check_class
peek_header f =
    if ltb (length f) header_len
    then err short_frame
    else if (take 3 f == magic)
    then if byte f 3 == protocol_version
      then if contains (byte f 4) codec_names
        then elim (type_name (byte f 6)) [
          | none ↦ err unknown_type
          | some name ↦ check_class f name
        ]
        else err unknown_codec
      else err unsupported_version
    else err bad_magic
