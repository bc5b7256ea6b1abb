-- ===== src/Payload/Bounds.antt =====
-- What `_bound_payload` promises of every payload that it lets through.
use shogunet.Prelude.{
  ℕ, suc, ◌+◌, ◌≤◌, ◌≡◌, refl, ap, String, true, some, arith, ltb, ◌==◌, nat_eq, string_eq,
  Bool-cases, inl, inr, if◌then◌else◌, not_ltb→le,
}
use shogunet.Security.{Unicode, sanitize_text, text_length}
use shogunet.Security.Laws.{AllChars, IsPrintable, sanitize_text-bounds}
use shogunet.Protocol.Errors.{
  ok, Returns, Returns-bind, Returns-guard, Returns-ok, Returns-weaken, Ensures, Ensures-if,
  Ensures-bind, Anything, out_of_fuel, payload_too_deep, too_many_keys, list_too_long,
}
use shogunet.Payload.{
  Value, null, bool, nat, neg, float, str, list, dict, other, Values, nil, cons, Fields, end, field,
  count_values, count_fields, set_field, is_finite, bound_payload, bound_values, bound_fields,
}

module _ (u : Unicode) where
  abbrev pub CleanText : String → ℕ → Type 0
  CleanText s cap = AllChars (IsPrintable u) s × (text_length s ≤ cap)

  -- A value that may cross the wire from depth `d` on: four levels, 64 items at each, clean
  -- texts, finite floats, and no object that is not a plain value.
  abbrev mutual
    pub IsBounded : ℕ → Value → Type 0
    IsBounded d null = d ≤ 4
    IsBounded d (bool b) = d ≤ 4
    IsBounded d (nat n) = d ≤ 4
    IsBounded d (neg n) = d ≤ 4
    IsBounded d (float bits) = (d ≤ 4) × (is_finite bits ≡ true)
    IsBounded d (str s) = (d ≤ 4) × CleanText s 2048
    IsBounded d (list vs) = (d ≤ 4) × (count_values vs ≤ 64) × AreBounded (d + 1) vs
    IsBounded d (dict fs) = (d ≤ 4) × (count_fields fs ≤ 64) × HasBounded (d + 1) fs
    IsBounded d (other s) = ⊥

    pub AreBounded : ℕ → Values → Type 0
    AreBounded d nil = Unit
    AreBounded d (cons v vs) = IsBounded d v × AreBounded d vs

    pub HasBounded : ℕ → Fields → Type 0
    HasBounded d end = Unit
    HasBounded d (field k v fs) = CleanText k 64 × IsBounded d v × HasBounded d fs

  set_field-HasBounded :
      (d : ℕ) (k : String) (v : Value) (fs : Fields)
      → CleanText k 64
      → IsBounded d v
      → HasBounded d fs
      → HasBounded d (set_field k v fs)
  unfolding set_field
  set_field-HasBounded d k v end ck b h = (ck, b, tt)
  set_field-HasBounded d k v (field j w fs) ck b h = elim (Bool-cases (j == k)) [
    | inl same ↦ rw same (h.0, b, h.2)
    | inr new ↦ rw new (h.0, h.1, set_field-HasBounded d k v fs ck b h.2)
  ]

  finite_or_zero : (bits : ℕ) → is_finite (if is_finite bits then bits else 0) ≡ true
  finite_or_zero bits = elim (Bool-cases (is_finite bits)) [
    | inl yes_it_is ↦ rw yes_it_is yes_it_is
    | inr not_finite ↦ rw not_finite (unfold is_finite in refl)
  ]

  count-set_field :
      (k : String) (v : Value) (fs : Fields) → count_fields (set_field k v fs) ≤ count_fields fs + 1
  unfolding set_field count_fields
  count-set_field k v end = omega arith
  count-set_field k v (field j w fs) = ground (arith, count-set_field k v fs)

  mutual
    unfolding bound_payload count_values count_fields

    bound-IsBounded : (d : ℕ) (v : Value) → Returns (IsBounded d) (bound_payload u d v)
    bound-IsBounded d null =
        Returns-guard (IsBounded d) (ltb 4 d) payload_too_deep (ok null) (λ h. not_ltb→le 4 d h)
    bound-IsBounded d (bool b) =
        Returns-guard (IsBounded d) (ltb 4 d) payload_too_deep (ok (bool b)) (λ h. not_ltb→le 4 d h)
    bound-IsBounded d (nat n) =
        Returns-guard (IsBounded d) (ltb 4 d) payload_too_deep (ok (nat n)) (λ h. not_ltb→le 4 d h)
    bound-IsBounded d (neg n) =
        Returns-guard (IsBounded d) (ltb 4 d) payload_too_deep (ok (neg n)) (λ h. not_ltb→le 4 d h)
    bound-IsBounded d (float bits) =
        Returns-guard (IsBounded d) (ltb 4 d) payload_too_deep _
          (λ h. (not_ltb→le 4 d h, finite_or_zero bits))
    bound-IsBounded d (str s) =
        Returns-guard (IsBounded d) (ltb 4 d) payload_too_deep _
          (λ h. (not_ltb→le 4 d h, sanitize_text-bounds u (some s) 2048))
    bound-IsBounded d (other s) =
        Returns-guard (IsBounded d) (ltb 4 d) payload_too_deep _
          (λ h. (not_ltb→le 4 d h, sanitize_text-bounds u (some s) 2048))
    bound-IsBounded d (list vs) = Returns-guard (IsBounded d) (ltb 4 d) payload_too_deep _ λ h.
        Returns-guard (IsBounded d) (ltb 64 (count_values vs)) list_too_long _ λ few.
          Returns-bind (λ out. AreBounded (d + 1) out × (count_values out ≡ count_values vs))
            (IsBounded d) (bound_values u (d + 1) vs) _ (bound_values-AreBounded (d + 1) vs)
            λ out b. (not_ltb→le 4 d h, rw (b.1) (not_ltb→le 64 (count_values vs) few), b.0)
    bound-IsBounded d (dict fs) = Returns-guard (IsBounded d) (ltb 4 d) payload_too_deep _ λ h.
        Returns-guard (IsBounded d) (ltb 64 (count_fields fs)) too_many_keys _ λ few.
          Returns-bind (λ out. HasBounded (d + 1) out × (count_fields out ≤ 0 + count_fields fs))
            (IsBounded d) (bound_fields u (d + 1) fs end) _
            (bound_fields-HasBounded (d + 1) fs end tt)
            λ out b.
              (not_ltb→le 4 d h, omega (arith, not_ltb→le 64 (count_fields fs) few, b.1), b.0)

    bound_values-AreBounded :
        (d : ℕ) (vs : Values)
        → Returns
            (λ out. AreBounded d out × (count_values out ≡ count_values vs))
            (bound_values u d vs)
    bound_values-AreBounded d nil = (tt, refl)
    bound_values-AreBounded d (cons v vs) =
        Returns-bind (IsBounded d) _ (bound_payload u d v) _ (bound-IsBounded d v) λ w b.
          Returns-bind (λ out. AreBounded d out × (count_values out ≡ count_values vs)) _
            (bound_values u d vs) _ (bound_values-AreBounded d vs) λ ws bs. ((b, bs.0), ap suc bs.1)

    bound_fields-HasBounded :
        (d : ℕ) (fs out : Fields)
        → HasBounded d out
        → Returns
            (λ r. HasBounded d r × (count_fields r ≤ count_fields out + count_fields fs))
            (bound_fields u d fs out)
    bound_fields-HasBounded d end out h = (h, omega arith)
    bound_fields-HasBounded d (field k v fs) out h =
        Returns-bind (IsBounded d) _ (bound_payload u d v) _ (bound-IsBounded d v) λ w b.
          let key = sanitize_text u (some k) 64 in
          let out' = set_field key w out in
          Returns-weaken
            (λ r. HasBounded d r × (count_fields r ≤ count_fields out' + count_fields fs))
            (λ r. HasBounded d r × (count_fields r ≤ count_fields out + suc (count_fields fs)))
            (bound_fields u d fs out')
            (bound_fields-HasBounded d fs out'
              (set_field-HasBounded d key w out (sanitize_text-bounds u (some k) 64) b h))
            λ r c. (c.0, omega (arith, c.1, count-set_field key w out))

  -- A payload that `_bound_payload` lets through has at most four levels below the top, at most 64
  -- items at each of them, printable keys of at most 64 characters and texts of at most 2048, finite
  -- floats, and no other objects.
  pub bound_payload-IsBounded : (v w : Value) → bound_payload u 0 v ≡ ok w → IsBounded 0 w
  bound_payload-IsBounded v w e =
      Returns-ok (IsBounded 0) (bound_payload u 0 v) w (bound-IsBounded 0 v) e

-- `_bound_payload` raises ProtocolErrors of its own only.
module _ (u : Unicode) where
  mutual
    unfolding bound_payload

    bound-Ensures : (d : ℕ) (v : Value) → Ensures out_of_fuel Anything (bound_payload u d v)
    bound-Ensures d null = Ensures-if out_of_fuel Anything (ltb 4 d) _ _ (λ _ e. cc) (λ _. tt)
    bound-Ensures d (bool b) = Ensures-if out_of_fuel Anything (ltb 4 d) _ _ (λ _ e. cc) (λ _. tt)
    bound-Ensures d (nat n) = Ensures-if out_of_fuel Anything (ltb 4 d) _ _ (λ _ e. cc) (λ _. tt)
    bound-Ensures d (neg n) = Ensures-if out_of_fuel Anything (ltb 4 d) _ _ (λ _ e. cc) (λ _. tt)
    bound-Ensures d (float n) = Ensures-if out_of_fuel Anything (ltb 4 d) _ _ (λ _ e. cc) (λ _. tt)
    bound-Ensures d (str s) = Ensures-if out_of_fuel Anything (ltb 4 d) _ _ (λ _ e. cc) (λ _. tt)
    bound-Ensures d (other s) = Ensures-if out_of_fuel Anything (ltb 4 d) _ _ (λ _ e. cc) (λ _. tt)
    bound-Ensures d (list vs) =
        Ensures-if out_of_fuel Anything (ltb 4 d) _ _ (λ _ e. cc)
          λ _.
            Ensures-if out_of_fuel Anything (ltb 64 (count_values vs)) _ _ (λ _ e. cc)
              λ _.
                Ensures-bind out_of_fuel Anything Anything (bound_values u (d + 1) vs) _
                  (bound_values-Ensures (d + 1) vs) (λ _ _. tt)
    bound-Ensures d (dict fs) =
        Ensures-if out_of_fuel Anything (ltb 4 d) _ _ (λ _ e. cc)
          λ _.
            Ensures-if out_of_fuel Anything (ltb 64 (count_fields fs)) _ _ (λ _ e. cc)
              λ _.
                Ensures-bind out_of_fuel Anything Anything (bound_fields u (d + 1) fs end) _
                  (bound_fields-Ensures (d + 1) fs end) (λ _ _. tt)

    bound_values-Ensures :
        (d : ℕ) (vs : Values) → Ensures out_of_fuel Anything (bound_values u d vs)
    bound_values-Ensures d nil = tt
    bound_values-Ensures d (cons v vs) =
        Ensures-bind out_of_fuel Anything Anything (bound_payload u d v) _ (bound-Ensures d v)
          λ _ _.
            Ensures-bind out_of_fuel Anything Anything (bound_values u d vs) _
              (bound_values-Ensures d vs) (λ _ _. tt)

    bound_fields-Ensures :
        (d : ℕ) (fs out : Fields) → Ensures out_of_fuel Anything (bound_fields u d fs out)
    bound_fields-Ensures d end out = tt
    bound_fields-Ensures d (field k v fs) out =
        Ensures-bind out_of_fuel Anything Anything (bound_payload u d v) _ (bound-Ensures d v)
          λ w _. bound_fields-Ensures d fs _

  pub bound_payload-Ensures : (v : Value) → Ensures out_of_fuel Anything (bound_payload u 0 v)
  bound_payload-Ensures v = bound-Ensures 0 v
