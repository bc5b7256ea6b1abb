-- ===== src/Protocol/Header/Laws.antt =====
-- `peek_header` of protocol.py against the header that `struct.pack` writes.
use shogunet.Prelude.{
  ℕ, zero, suc, ◌+◌, ◌-◌, ◌<◌, ◌≤◌, ◌≡◌, refl, String, some, List, [], ◌∷◌, arith, length, take,
  drop, list_eq, nat_eq, list_beq_iff,
}
use shogunet.Protocol.Errors.{ok, err, key_error}
use shogunet.Prelude.{◌≢◌, Option-cases, inl, inr}
use shogunet.Protocol.Registry.{type_name, type_id, class_of, type_id-type_name}
use shogunet.Protocol.Struct.{byte, unpack32, IsBytes, pack32, pack32-unpack32, unpack32-pack32}
use shogunet.Protocol.Header.{magic, pack_header, Header, peek_header}

-- What the checks of `peek_header` have established of a frame that it accepts.
pub record Peeked (f : List ℕ) (h : Header) : Type 0 where
  pub long : 16 ≤ length f
  pub is_magic : take 3 f ≡ magic
  pub version_ok : byte f 3 ≡ 1
  pub codec_ok : byte f 4 < 2
  pub codec_eq : h.codec ≡ byte f 4
  pub cls_eq : h.cls ≡ byte f 5
  pub flags_eq : h.flags ≡ byte f 7
  pub version_eq : h.version ≡ byte f 3
  pub msg_id_eq : h.msg_id ≡ unpack32 (byte f 8) (byte f 9) (byte f 10) (byte f 11)
  pub payload_eq : h.payload_len ≡ length f - 16
  pub payload_bytes : h.payload_len ≡ unpack32 (byte f 12) (byte f 13) (byte f 14) (byte f 15)
  pub total_eq : h.total_len ≡ length f
  pub type_ok : type_name (byte f 6) ≡ some h.msg_type
  pub class_ok : class_of h.msg_type ≡ some h.cls

pub Peeked-of_peek_header : (f : List ℕ) (h : Header) → peek_header f ≡ ok h → Peeked f h
unfolding peek_header
Peeked-of_peek_header f h e = ground (arith, list_beq_iff (take 3 f) magic)

-- A frame of sixteen bytes or more is its sixteen header bytes and the rest.
header_bytes :
    (f : List ℕ)
    → 16 ≤ length f
    → f
      ≡ byte f 0
        ∷ byte f 1
        ∷ byte f 2
        ∷ byte f 3
        ∷ byte f 4
        ∷ byte f 5
        ∷ byte f 6
        ∷ byte f 7
        ∷ byte f 8
        ∷ byte f 9
        ∷ byte f 10
        ∷ byte f 11
        ∷ byte f 12
        ∷ byte f 13
        ∷ byte f 14
        ∷ byte f 15
        ∷ drop 16 f
header_bytes (a ∷ b ∷ c ∷ d ∷ e ∷ f ∷ g ∷ h ∷ i ∷ j ∷ k ∷ l ∷ m ∷ n ∷ o ∷ p ∷ rest) long = refl
header_bytes _ long = absurd (omega arith)

pub byte-lt : (f : List ℕ) (i : ℕ) → IsBytes f → byte f i < 256
byte-lt [] i h = omega arith
byte-lt (x ∷ xs) zero h = h.0
byte-lt (x ∷ xs) (suc i) h = byte-lt xs i h.1

-- A frame of bytes that `peek_header` accepts is the header packed again from what it returns, and
-- its payload.
pub pack_header-peek_header :
    (f : List ℕ) (h : Header)
    → IsBytes f
    → peek_header f ≡ ok h
    → (t : ℕ) × (type_id h.msg_type ≡ some t)
      × (f ≡ pack_header h.codec h.cls t h.flags h.msg_id h.payload_len (drop 16 f))
unfolding pack_header
pack_header-peek_header f h bytes e =
    let p : Peeked f h = Peeked-of_peek_header f h e in
    let b = λ (i : ℕ). byte-lt f i bytes in
    (
      byte f 6,
      (type_id-type_name (byte f 6) h.msg_type p.type_ok).0,
      cc (
        header_bytes f p.long,
        p.is_magic,
        p.version_ok,
        p.codec_eq,
        p.cls_eq,
        p.flags_eq,
        p.msg_id_eq,
        p.payload_bytes,
        pack32-unpack32 (byte f 8) (byte f 9) (byte f 10) (byte f 11)
            (pack32 h.payload_len (drop 16 f)) (b 8) (b 9) (b 10) (b 11),
        pack32-unpack32 (byte f 12) (byte f 13) (byte f 14) (byte f 15) (drop 16 f) (b 12) (b 13)
            (b 14) (b 15),
      ),
    )

-- `peek_header` reads back every field that was packed.
pub peek_header-pack_header :
    (codec t flags msg_id : ℕ) (name : String) (c : ℕ) (rest : List ℕ)
    → codec < 2
    → type_name t ≡ some name
    → class_of name ≡ some c
    → msg_id < 4294967296
    → length rest < 4294967296
    → peek_header (pack_header codec c t flags msg_id (length rest) rest)
      ≡ ok (record {
        version = 1;
        codec = codec;
        cls = c;
        msg_type = name;
        flags = flags;
        msg_id = msg_id;
        payload_len = length rest;
        total_len = 16 + length rest;
      })
unfolding peek_header pack_header
peek_header-pack_header codec t flags msg_id name c rest hc ht hk hm hl =
    ground (arith, unpack32-pack32 msg_id hm, unpack32-pack32 (length rest) hl)

-- Every registered type has a class, so the access TYPE_CLASS[type_name] never fails.
pub peek_header-ne-key_error : (f : List ℕ) → peek_header f ≢ err key_error
unfolding peek_header
peek_header-ne-key_error f q = elim (Option-cases (type_name (byte f 6))) [
  | inl unknown ↦ ground arith
  | inr (name, known) ↦
      let (c, found, small) = (type_id-type_name (byte f 6) name known).2 in ground arith
]
