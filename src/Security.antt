-- ===== src/Security.antt =====
-- security.py: text hygiene and clamping. Python's Unicode tables are a parameter.
pub mod Laws
use Prim.Native.Char.{Char}
use shogunet.Prelude.{ℕ, zero, suc, ◌≡◌, String, Bool, true, Option, none, some, ltb, if◌then◌else◌}

-- `str.isprintable` and `str.isspace` on one character; the documented facts that are used: the
-- ASCII space is printable, and no other white space is.
pub record Unicode : Type 0 where
  pub printable : Char → Bool
  pub is_space : Char → Bool
  pub space_printable : printable " " ≡ true
  pub only_space : (c : Char) → printable c ≡ true → is_space c ≡ true → c ≡ " "

-- s[:n], in characters
unfoldable pub take_text : ℕ → String → String
take_text zero s = ""
take_text (suc n) String.[] = ""
take_text (suc n) (String.◌∷◌ c s) = String.◌∷◌ c (take_text n s)

-- len(s)
unfoldable pub text_length : String → ℕ
text_length String.[] = 0
text_length (String.◌∷◌ c s) = suc (text_length s)

module _ (u : Unicode) where
  unfoldable pub clean_char : Char → Char
  clean_char c = if u.printable c then c else " "

  unfoldable pub clean_text : String → String
  unfolding clean_char
  clean_text String.[] = ""
  clean_text (String.◌∷◌ c s) = String.◌∷◌ (clean_char c) (clean_text s)

  -- `None` is `none`; any other object is its `str`.
  unfoldable pub sanitize_text : Option String → ℕ → String
  unfolding clean_text take_text
  sanitize_text none max_length = ""
  sanitize_text (some text) max_length = take_text max_length (clean_text text)

  unfoldable pub lstrip : String → String
  lstrip String.[] = ""
  lstrip (String.◌∷◌ c s) = if u.is_space c then lstrip s else String.◌∷◌ c s

  -- Trailing white space goes where nothing else is left behind it.
  unfoldable pub cons_stripped : Char → String → String
  cons_stripped c String.[] = if u.is_space c then "" else String.◌∷◌ c ""
  cons_stripped c (String.◌∷◌ d r) = String.◌∷◌ c (String.◌∷◌ d r)

  unfoldable pub rstrip : String → String
  unfolding cons_stripped
  rstrip String.[] = ""
  rstrip (String.◌∷◌ c s) = cons_stripped c (rstrip s)

  -- str.strip()
  unfoldable pub strip : String → String
  unfolding lstrip rstrip
  strip s = rstrip (lstrip s)

-- `clamp_int` of an integer; `none` is a value that `int` refuses.
unfoldable pub clamp_int : Option ℕ → ℕ → ℕ → ℕ → ℕ
clamp_int none default lo hi = default
clamp_int (some n) default lo hi =
    let low = if ltb n hi then n else hi in if ltb lo low then low else lo
