-- ===== src/Protocol/Errors.antt =====
-- What the codec raises (`ProtocolError` of protocol.py by its messages, and the `KeyError` of a
-- dictionary access), and results that may be such an error.
use shogunet.Prelude.{◌≡◌, ◌≢◌, ◌⊎◌, inl, inr, refl, arith, Bool, true, false, if◌then◌else◌}

pub data Error : Type 0 where
  unknown_type unknown_codec sender_required envelope_too_large : Error
  short_frame bad_magic unsupported_version class_mismatch length_mismatch : Error
  chunk_too_small too_many_segments : Error
  spans_frames prefix_truncated inconsistent_metadata index_out_of_range reassembled_length : Error
  payload_too_deep too_many_keys list_too_long : Error
  body_truncated entries_truncated corrupt_json unknown_tag bad_body : Error
  key_error index_error struct_error out_of_fuel : Error

-- What a call returns, or what it raises.
pub data Result {ℓ} (R : Type ℓ) : Type ℓ where
  err : Error → Result R
  ok : R → Result R

-- The next call sees only what was returned.
infixl 5 ◌>>=◌
abbrev pub ◌>>=◌ {ℓ κ} : {R : Type ℓ} {S : Type κ} → Result R → (R → Result S) → Result S
err raised >>= next = err raised
ok returned >>= next = next returned

-- A bind that returns has returned in both parts.
pub >>=-eq-ok {ℓ κ} :
    {R : Type ℓ} {S : Type κ} (first : Result R) (next : R → Result S) {s : S}
    → (first >>= next) ≡ ok s
    → (r : R) × (first ≡ ok r) × (next r ≡ ok s)
>>=-eq-ok (err raised) next h = ground arith
>>=-eq-ok (ok returned) next h = (returned, refl, h)

pub err-injective {ℓ} : {A : Type ℓ} {d e : Error} → ◌≡◌ {A = Result A} (err d) (err e) → d ≡ e
err-injective h = ground arith

-- What holds of the value, where there is one.
abbrev pub Returns {ℓ} : {A : Type ℓ} → (A → Type 0) → Result A → Type 0
Returns P (ok a) = P a
Returns P (err e) = Unit

module _ {A B : Type 0} where
  pub Returns-bind :
      (P : A → Type 0) (Q : B → Type 0) (m : Result A) (k : A → Result B)
      → Returns P m
      → ((a : A) → P a → Returns Q (k a))
      → Returns Q (m >>= k)
  Returns-bind P Q (ok a) k h step = step a h
  Returns-bind P Q (err e) k h step = tt

pub Returns-guard :
    {A : Type 0} (P : A → Type 0) (b : Bool) (e : Error) (y : Result A)
    → (b ≡ false → Returns P y)
    → Returns P (if b then err e else y)
Returns-guard P true e y h = tt
Returns-guard P false e y h = h refl

pub Returns-ok : {A : Type 0} (P : A → Type 0) (r : Result A) (a : A) → Returns P r → r ≡ ok a → P a
Returns-ok P r a h e = rw e at h

pub Returns-weaken :
    {A : Type 0} (P Q : A → Type 0) (r : Result A)
    → Returns P r
    → ((a : A) → P a → Q a)
    → Returns Q r
Returns-weaken P Q (ok a) h k = k a h
Returns-weaken P Q (err e) h k = tt

-- The computation returns a value with the property, or raises something other than `bad`.
abbrev pub Ensures : {A : Type 0} → Error → (A → Type 0) → Result A → Type 0
Ensures bad P (ok a) = P a
Ensures bad P (err e) = e ≢ bad

abbrev pub Anything : {A : Type 0} → A → Type 0
Anything _ = Unit

module _ (bad : Error) where
  pub Ensures-bind :
      {A B : Type 0} (P : A → Type 0) (Q : B → Type 0) (m : Result A) (k : A → Result B)
      → Ensures bad P m
      → ((a : A) → P a → Ensures bad Q (k a))
      → Ensures bad Q (m >>= k)
  Ensures-bind P Q (ok a) k h step = step a h
  Ensures-bind P Q (err e) k h step = h

  pub Ensures-if :
      {A : Type 0} (P : A → Type 0) (b : Bool) (x y : Result A)
      → (b ≡ true → Ensures bad P x)
      → (b ≡ false → Ensures bad P y)
      → Ensures bad P (if b then x else y)
  Ensures-if P true x y p q = p refl
  Ensures-if P false x y p q = q refl

  pub Ensures-weaken :
      {A : Type 0} (P Q : A → Type 0) (r : Result A)
      → Ensures bad P r
      → ((a : A) → P a → Q a)
      → Ensures bad Q r
  Ensures-weaken P Q (ok a) h k = k a h
  Ensures-weaken P Q (err e) h k = h

  pub Ensures-ne : {A : Type 0} (r : Result A) → Ensures bad Anything r → r ≢ err bad
  Ensures-ne (ok a) h e = cc
  Ensures-ne (err x) h e = h (err-injective e)

pub Result-cases {ℓ} :
    {A : Type ℓ} (r : Result A) → ((e : Error) × (r ≡ err e)) ⊎ ((a : A) × (r ≡ ok a))
Result-cases (ok a) = inr (a, refl)
Result-cases (err e) = inl (e, refl)
