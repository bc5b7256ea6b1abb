-- ===== src/Protocol/Struct.antt =====
-- struct.pack and unpack of big-endian unsigned fields, as the wire formats of protocol.py use them.
use shogunet.Prelude.{ℕ, ◌+◌, ◌*◌, ◌/◌, ◌%◌, ◌<◌, ◌≡◌, List, ◌∷◌, arith, All, get_or}

-- A byte string: every element is below 256.
abbrev pub IsBytes : List ℕ → Type 0
IsBytes = All (λ b. b < 256)

-- ">H"
abbrev pub pack16 : ℕ → List ℕ → List ℕ
pack16 n rest = (n / 256 % 256) ∷ (n % 256) ∷ rest

abbrev pub unpack16 : ℕ → ℕ → ℕ
unpack16 a b = a * 256 + b

-- ">I"
abbrev pub pack32 : ℕ → List ℕ → List ℕ
pack32 n rest = (n / 16777216 % 256) ∷ (n / 65536 % 256) ∷ (n / 256 % 256) ∷ (n % 256) ∷ rest

abbrev pub unpack32 : ℕ → ℕ → ℕ → ℕ → ℕ
unpack32 a b c d = a * 16777216 + b * 65536 + c * 256 + d

-- ">Q", and ">d" of a bit pattern
abbrev pub pack64 : ℕ → List ℕ → List ℕ
pack64 n rest = pack32 (n / 4294967296) (pack32 (n % 4294967296) rest)

-- frame[i]
abbrev pub byte : List ℕ → ℕ → ℕ
byte f i = get_or f i 0

-- The bit 0 of a flags byte: `flags & 1`, `flags | 1`, `flags & ~1`.
abbrev pub bit_zero : ℕ → ℕ
bit_zero flags = flags % 2

abbrev pub set_bit_zero : ℕ → ℕ
set_bit_zero flags = 2 * (flags / 2) + 1

abbrev pub clear_bit_zero : ℕ → ℕ
clear_bit_zero flags = 2 * (flags / 2)

pub unpack32-pack32 :
    (n : ℕ)
    → n < 4294967296
    → unpack32 (n / 16777216 % 256) (n / 65536 % 256) (n / 256 % 256) (n % 256) ≡ n
unpack32-pack32 n h = omega arith

pub pack32-unpack32 :
    (a b c d : ℕ) (rest : List ℕ)
    → a < 256
    → b < 256
    → c < 256
    → d < 256
    → pack32 (unpack32 a b c d) rest ≡ a ∷ b ∷ c ∷ d ∷ rest
pack32-unpack32 a b c d rest ha hb hc hd =
    let n : ℕ = unpack32 a b c d in
    let p : n / 16777216 % 256 ≡ a = omega arith in
    let q : n / 65536 % 256 ≡ b = omega arith in
    let r : n / 256 % 256 ≡ c = omega arith in
    let s : n % 256 ≡ d = omega arith in λ i. p i ∷ q i ∷ r i ∷ s i ∷ rest
