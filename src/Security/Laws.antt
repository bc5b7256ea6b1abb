-- ===== src/Security/Laws.antt =====
-- What `sanitize_text` promises of every text that crosses the wire.
use Prim.Native.Char.{Char}
use shogunet.Prelude.{
  ℕ, zero, suc, ◌≤◌, ◌≡◌, refl, ap, ◌∙◌, String, true, Option, none, some, arith, Bool-cases, inl,
  inr,
}
use shogunet.Security.{
  Unicode, take_text, text_length, clean_char, clean_text, sanitize_text, clamp_int,
}

abbrev pub AllChars : (Char → Type 0) → String → Type 0
AllChars P String.[] = Unit
AllChars P (String.◌∷◌ c s) = P c × AllChars P s

text_length-take_text : (n : ℕ) (s : String) → text_length (take_text n s) ≤ n
unfolding text_length take_text
text_length-take_text zero s = omega arith
text_length-take_text (suc n) String.[] = omega arith
text_length-take_text (suc n) (String.◌∷◌ c s) = omega (arith, text_length-take_text n s)

take_text-take_text : (n : ℕ) (s : String) → take_text n (take_text n s) ≡ take_text n s
unfolding take_text
take_text-take_text zero s = refl
take_text-take_text (suc n) String.[] = refl
take_text-take_text (suc n) (String.◌∷◌ c s) = ap (String.◌∷◌ c) (take_text-take_text n s)

AllChars-take_text :
    (P : Char → Type 0) (n : ℕ) (s : String) → AllChars P s → AllChars P (take_text n s)
unfolding take_text
AllChars-take_text P zero s h = tt
AllChars-take_text P (suc n) String.[] h = tt
AllChars-take_text P (suc n) (String.◌∷◌ c s) h = (h.0, AllChars-take_text P n s h.1)

module _ (u : Unicode) where
  abbrev pub IsPrintable : Char → Type 0
  IsPrintable c = u.printable c ≡ true

  clean_char-IsPrintable : (c : Char) → IsPrintable (clean_char u c)
  unfolding clean_char
  clean_char-IsPrintable c = elim (Bool-cases (u.printable c)) [
    | inl good ↦ rw good good
    | inr bad ↦ rw bad u.space_printable
  ]

  clean_text-IsPrintable : (s : String) → AllChars IsPrintable (clean_text u s)
  unfolding clean_text
  clean_text-IsPrintable String.[] = tt
  clean_text-IsPrintable (String.◌∷◌ c s) = (clean_char-IsPrintable c, clean_text-IsPrintable s)

  clean_text-unchanged : (s : String) → AllChars IsPrintable s → clean_text u s ≡ s
  unfolding clean_text
  clean_text-unchanged String.[] h = refl
  clean_text-unchanged (String.◌∷◌ c s) h =
      let p : clean_char u c ≡ c = rw (h.0, clean_char) refl in
      λ i. String.◌∷◌ (p i) (clean_text-unchanged s h.1 i)

  -- Sanitized text is printable throughout and no longer than the cap.
  pub sanitize_text-bounds :
      (text : Option String) (cap : ℕ)
      → AllChars IsPrintable (sanitize_text u text cap)
        × (text_length (sanitize_text u text cap) ≤ cap)
  unfolding sanitize_text text_length
  sanitize_text-bounds none cap = (tt, omega arith)
  sanitize_text-bounds (some s) cap = (
    AllChars-take_text IsPrintable cap (clean_text u s) (clean_text-IsPrintable s),
    text_length-take_text cap (clean_text u s),
  )

  -- Sanitizing once is enough: a second pass, as at each hop, changes nothing.
  pub sanitize_text_idem :
      (text : Option String) (cap : ℕ)
      → sanitize_text u (some (sanitize_text u text cap)) cap ≡ sanitize_text u text cap
  unfolding sanitize_text
  sanitize_text_idem none cap = take_text-nil cap
    where
      take_text-nil : (n : ℕ) → take_text n (clean_text u "") ≡ ""
      take_text-nil zero = refl
      take_text-nil (suc n) = refl
  sanitize_text_idem (some s) cap =
      ap (take_text cap) (
        clean_text-unchanged (take_text cap (clean_text u s))
          (AllChars-take_text IsPrintable cap (clean_text u s) (clean_text-IsPrintable s)))
      ∙ take_text-take_text cap (clean_text u s)

-- The clamp stays in its range.
pub clamp_int_bounds :
    (value : Option ℕ) (default lo hi : ℕ)
    → lo ≤ hi
    → lo ≤ default
    → default ≤ hi
    → (lo ≤ clamp_int value default lo hi) × (clamp_int value default lo hi ≤ hi)
unfolding clamp_int
clamp_int_bounds none default lo hi p q r = (q, r)
clamp_int_bounds (some n) default lo hi p q r = ground arith
