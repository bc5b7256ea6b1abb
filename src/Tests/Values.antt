-- ===== src/Tests/Values.antt =====
-- The concrete platform, frames and states of the tests.
use Prim.Native.Char.{Char, code}
use shogunet.Prelude.{
  ℕ, ◌≡◌, refl, ap, String, Option, none, some, List, [], ◌∷◌, Bool, true, ◌&&◌, leb, ◌==◌,
  if◌then◌else◌, string_eq, nat_eq,
}
use shogunet.Security.{Unicode}
use shogunet.Payload.{Value, nat, dict, end, field}
use shogunet.Protocol.Envelope.{Stdlib, Envelope}

head_or_space : String → Char
head_or_space String.[] = " "
head_or_space (String.◌∷◌ c s) = c

abbrev is_blank : Char → Bool
is_blank c = String.◌∷◌ c "" == " "

pub blank_only : (c : Char) → is_blank c ≡ true → c ≡ " "
unfolding head_or_space
blank_only c h = ap head_or_space ((string_eq.beq_iff (String.◌∷◌ c "") " ").0 h)

-- Printable ASCII.
abbrev pub ascii : Unicode
ascii = record {
  printable = λ c. leb 32 (code c) && leb (code c) 126;
  is_space = is_blank;
  space_printable = refl;
  only_space = λ c p s. blank_only c s;
}

abbrev letters : List ℕ → String
letters [] = ""
letters (n ∷ ns) = if n == 97 then String.◌∷◌ "a" (letters ns) else String.◌∷◌ "?" (letters ns)

abbrev number_of : Value → Option ℕ
number_of (nat n) = some n
number_of _ = none

-- A library that knows one JSON text, `{}`.
abbrev pub python : Stdlib
python = record {
  unicode = ascii;
  dumps = λ v. b'{' ∷ b'}' ∷ [];
  dumps_sorted = λ v. some (b'{' ∷ b'}' ∷ []);
  loads = λ text. some (dict end);
  utf8_replace = letters;
  to_str = λ v. "0";
  to_float = number_of;
}

-- A heartbeat with nine bytes of payload, as `peek_header` reads it.
abbrev pub heartbeat_frame : List ℕ
heartbeat_frame =
    b'S' ∷ b'G' ∷ b'N' ∷ 1 ∷ 0 ∷ 0 ∷ 1 ∷ 0 ∷ 0 ∷ 0 ∷ 0 ∷ 7 ∷ 0 ∷ 0 ∷ 0 ∷ 9 ∷ 1 ∷ 2 ∷ 3 ∷ 4 ∷ 5 ∷ 6
    ∷ 7 ∷ 8 ∷ 9 ∷ []

-- The chunk `i` of five, with its piece.
abbrev pub heartbeat_chunk : ℕ → ℕ → List ℕ → List ℕ
heartbeat_chunk i len piece =
    b'S' ∷ b'G' ∷ b'N' ∷ 1 ∷ 0 ∷ 0 ∷ 1 ∷ 1 ∷ 0 ∷ 0 ∷ 0 ∷ 7 ∷ 0 ∷ 0 ∷ 0 ∷ len ∷ i ∷ 5 ∷ 0 ∷ 0 ∷ 0 ∷ 9
    ∷ piece

abbrev pub heartbeat_chunks : List (List ℕ)
heartbeat_chunks =
    heartbeat_chunk 0 8 (1 ∷ 2 ∷ [])
    ∷ heartbeat_chunk 1 8 (3 ∷ 4 ∷ [])
    ∷ heartbeat_chunk 2 8 (5 ∷ 6 ∷ [])
    ∷ heartbeat_chunk 3 8 (7 ∷ 8 ∷ [])
    ∷ heartbeat_chunk 4 7 (9 ∷ [])
    ∷ []

-- A fact that agent a shares with all.
abbrev pub announcement : Envelope
announcement = record {
  msg_id = 7;
  msg_type = "heartbeat";
  sender = "a";
  recipient = "*";
  topic = "t";
  realm = "*";
  payload = dict (field "count" (nat 3) end);
  created_at = 0;
}
