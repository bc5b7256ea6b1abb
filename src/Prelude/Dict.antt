-- ===== src/Prelude/Dict.antt =====
-- Python's `dict` as an association list in insertion order. Its keys are distinct, so dropping
-- every entry of a key is dropping the one that there is.
use Prim.Native.Nat.{ℕ, zero, suc, ◌≤◌}
use mathlib.Core.Path.{◌≡◌, refl, ap, sym, subst, ◌∙◌}
use mathlib.Core.Logic.{inl, inr}
use mathlib.Core.Bool.{Bool, true, false}
use mathlib.Core.Option.{Option, none, some}
use mathlib.Core.List.{List, [], ◌∷◌, ◌++◌}
use native.Mathlib.Omega.{arith}
use shogunet.Prelude.Tests.{if◌then◌else◌, is_some, Bool-cases}
use shogunet.Prelude.Lists.{length, take, All}
use shogunet.Prelude.Equality.{Eq, ◌==◌}

abbrev pub Dict {ℓ} : Type ℓ → Type ℓ → Type ℓ
Dict K V = List (K × V)

module _ {ℓ} {K V : Type ℓ} where
  -- list(d), the keys in insertion order
  abbrev pub keys : Dict K V → List K
  keys [] = []
  keys ((k, _) ∷ d) = k ∷ keys d

  -- list(d.values())
  abbrev pub values : Dict K V → List V
  values [] = []
  values ((_, v) ∷ d) = v ∷ values d

  pub length-keys : (d : Dict K V) → length (keys d) ≡ length d
  length-keys [] = refl
  length-keys (e ∷ d) = ap suc (length-keys d)

  pub length-values : (d : Dict K V) → length (values d) ≡ length d
  length-values [] = refl
  length-values (e ∷ d) = ap suc (length-values d)

module _ {ℓ} {K : Type ℓ} ⦃e : Eq K⦄ where
  -- k in xs, for a list of keys
  abbrev pub elem : K → List K → Bool
  elem k [] = false
  elem k (j ∷ js) = if j == k then true else elem k js

  -- xs.remove(k)
  abbrev pub drop_key : K → List K → List K
  drop_key k [] = []
  drop_key k (j ∷ js) = if j == k then drop_key k js else j ∷ drop_key k js

module _ {ℓ} {K V : Type ℓ} ⦃e : Eq K⦄ where
  -- d.get(k)
  abbrev pub lookup : K → Dict K V → Option V
  lookup k [] = none
  lookup k ((j, v) ∷ d) = if j == k then some v else lookup k d

  -- k in d
  abbrev pub contains : K → Dict K V → Bool
  contains k d = is_some (lookup k d)

  -- d[k] = v: a key that is there keeps its place
  abbrev pub insert : K → V → Dict K V → Dict K V
  insert k v [] = (k, v) ∷ []
  insert k v ((j, w) ∷ d) = if j == k then (j, v) ∷ d else (j, w) ∷ insert k v d

  -- d.pop(k, None)
  abbrev pub erase : K → Dict K V → Dict K V
  erase k [] = []
  erase k ((j, v) ∷ d) = if j == k then erase k d else (j, v) ∷ erase k d

  -- No key occurs twice.
  abbrev pub Distinct : Dict K V → Type 0
  Distinct [] = Unit
  Distinct ((k, v) ∷ d) = (contains k d ≡ false) × Distinct d

  pub lookup-insert :
      (k j : K) (v : V) (d : Dict K V)
      → lookup j (insert k v d) ≡ (if k == j then some v else lookup j d)
  lookup-insert k j v [] = refl
  lookup-insert k j v ((i, w) ∷ d) =
      ground (arith, e.beq_iff k j, e.beq_iff i k, e.beq_iff i j, lookup-insert k j v d)

  pub lookup-erase :
      (k j : K) (d : Dict K V) → lookup j (erase k d) ≡ (if k == j then none else lookup j d)
  lookup-erase k j [] = ground arith
  lookup-erase k j ((i, w) ∷ d) =
      ground (arith, e.beq_iff k j, e.beq_iff i k, e.beq_iff i j, lookup-erase k j d)

  pub length-insert :
      (k : K) (v : V) (d : Dict K V)
      → length (insert k v d) ≡ (if contains k d then length d else suc (length d))
  length-insert k v [] = refl
  length-insert k v ((i, w) ∷ d) = ground (arith, length-insert k v d)

  pub length-erase-le : (k : K) (d : Dict K V) → length (erase k d) ≤ length d
  length-erase-le k [] = omega arith
  length-erase-le k ((i, w) ∷ d) = ground (arith, length-erase-le k d)

  pub erase_absent : (k : K) (d : Dict K V) → contains k d ≡ false → erase k d ≡ d
  erase_absent k [] h = refl
  erase_absent k ((i, w) ∷ d) h = ground (arith, erase_absent k d)

  pub length-erase :
      (k : K) (d : Dict K V)
      → Distinct d
      → contains k d ≡ true
      → suc (length (erase k d)) ≡ length d
  length-erase k [] u h = ground arith
  length-erase k ((i, w) ∷ d) u h =
      ground (arith, e.beq_iff i k, erase_absent k d, length-erase k d u.1)

  pub insert-Distinct : (k : K) (v : V) (d : Dict K V) → Distinct d → Distinct (insert k v d)
  insert-Distinct k v [] u = (refl, tt)
  insert-Distinct k v ((i, w) ∷ d) u =
      ground (arith, e.beq_iff i k, e.beq_iff k i, lookup-insert k i v d, insert-Distinct k v d u.1)

  pub erase-Distinct : (k : K) (d : Dict K V) → Distinct d → Distinct (erase k d)
  erase-Distinct k [] u = tt
  erase-Distinct k ((i, w) ∷ d) u = ground (arith, lookup-erase k i d, erase-Distinct k d u.1)

  -- A new key goes to the end; a known one changes no place.
  pub keys-insert :
      (k : K) (v : V) (d : Dict K V)
      → keys (insert k v d) ≡ (if contains k d then keys d else keys d ++ k ∷ [])
  keys-insert k v [] = refl
  keys-insert k v ((i, w) ∷ d) = ground (arith, keys-insert k v d)

  pub keys-erase : (k : K) (d : Dict K V) → keys (erase k d) ≡ drop_key k (keys d)
  keys-erase k [] = refl
  keys-erase k ((i, w) ∷ d) = ground (arith, keys-erase k d)

  pub elem-keys : (k : K) (d : Dict K V) → elem k (keys d) ≡ contains k d
  elem-keys k [] = refl
  elem-keys k ((i, w) ∷ d) = ground (arith, elem-keys k d)

  -- What holds of every entry holds of what a lookup finds.
  pub All-lookup {κ} :
      (P : K × V → Type κ) (k : K) (d : Dict K V) {v : V} → All P d → lookup k d ≡ some v → P (k, v)
  All-lookup P k [] h f = absurd (ground arith)
  All-lookup P k ((j, w) ∷ d) {v} h f = elim (Bool-cases (j == k)) [
    | inl same ↦ let p : (j, w) ≡ (k, v) = ground (arith, e.beq_iff j k) in subst P p h.0
    | inr other ↦ All-lookup P k d h.1 (rw other at f)
  ]

module _ {ℓ} {K : Type ℓ} ⦃e : Eq K⦄ where
  -- xs.remove(k), if k in xs
  abbrev pub remove_first : K → List K → List K
  remove_first k [] = []
  remove_first k (j ∷ js) = if j == k then js else j ∷ remove_first k js

  -- No key is listed twice.
  abbrev pub Unique : List K → Type 0
  Unique [] = Unit
  Unique (k ∷ ks) = (elem k ks ≡ false) × Unique ks

  pub elem-last : (k : K) (ks : List K) → elem k (ks ++ k ∷ []) ≡ true
  elem-last k [] = ground (arith, e.beq_iff k k)
  elem-last k (j ∷ ks) = ground (arith, elem-last k ks)

  drop_key_absent : (k : K) (js : List K) → elem k js ≡ false → drop_key k js ≡ js
  drop_key_absent k [] h = refl
  drop_key_absent k (j ∷ js) h = ground (arith, drop_key_absent k js)

module _ {ℓ} {K V : Type ℓ} ⦃e : Eq K⦄ where
  -- In a list of distinct keys the first occurrence is the only one.
  pub remove_first-keys :
      (k : K) (d : Dict K V) → Distinct d → remove_first k (keys d) ≡ keys (erase k d)
  remove_first-keys k [] u = refl
  remove_first-keys k ((i, w) ∷ d) u =
      ground (arith, e.beq_iff i k, erase_absent k d, remove_first-keys k d u.1)

  -- The oldest entry goes by its key.
  pub erase_head : (k : K) (v : V) (d : Dict K V) → Distinct ((k, v) ∷ d) → erase k ((k, v) ∷ d) ≡ d
  erase_head k v d u = ground (arith, e.beq_iff k k, erase_absent k d u.0)

  pub Unique-keys : (d : Dict K V) → Distinct d → Unique (keys d)
  Unique-keys [] u = tt
  Unique-keys ((k, v) ∷ d) u = (elem-keys k d ∙ u.0, Unique-keys d u.1)

  pub keys-contained : (d : Dict K V) → All (λ k. contains k d ≡ true) (keys d)
  keys-contained d = below (keys d) d (λ k h. sym (elem-keys k d) ∙ h)
    where
      below :
          (ks : List K) (d : Dict K V)
          → ((k : K) → elem k ks ≡ true → contains k d ≡ true)
          → All (λ k. contains k d ≡ true) ks
      below [] d h = tt
      below (k ∷ ks) d h = (
        h k (ground (arith, e.beq_iff k k)),
        below ks d (λ j m. h j (ground (arith, e.beq_iff k j))),
      )

  pub contained-erase :
      (k : K) (ks : List K) (d : Dict K V)
      → elem k ks ≡ false
      → All (λ j. contains j d ≡ true) ks
      → All (λ j. contains j (erase k d) ≡ true) ks
  contained-erase k [] d n h = tt
  contained-erase k (j ∷ ks) d n h = (
    ground (arith, lookup-erase k j d, e.beq_iff j k, e.beq_iff k j),
    contained-erase k ks d (ground arith) h.1,
  )

  pub contains-append :
      (k : K) (c d : Dict K V) → contains k (c ++ d) ≡ (if contains k c then true else contains k d)
  contains-append k [] d = refl
  contains-append k ((i, w) ∷ c) d = ground (arith, contains-append k c d)

  -- A new key goes to the end.
  pub insert_new :
      (k : K) (v : V) (d : Dict K V) → contains k d ≡ false → insert k v d ≡ d ++ (k, v) ∷ []
  insert_new k v [] h = refl
  insert_new k v ((i, w) ∷ d) h = ground (arith, insert_new k v d)

  -- A key that is missing differs from every key.
  pub apart : (k : K) (d : Dict K V) → contains k d ≡ false → All (λ p. (k == p.0) ≡ false) d
  apart k [] h = tt
  apart k ((i, w) ∷ d) h = (ground (arith, e.beq_iff i k, e.beq_iff k i), apart k d (ground arith))

module _ {ℓ κ} {K V : Type ℓ} ⦃e : Eq K⦄ where
  -- A property of the values.
  pub insert-All :
      (P : V → Type κ) (k : K) (v : V) (d : Dict K V)
      → P v
      → All (λ p. P p.1) d
      → All (λ p. P p.1) (insert k v d)
  insert-All P k v [] h hs = (h, tt)
  insert-All P k v ((j, w) ∷ d) h hs = elim (Bool-cases (j == k)) [
    | inl same ↦ rw same (h, hs.1)
    | inr other ↦ rw other (hs.0, insert-All P k v d h hs.1)
  ]

module _ {ℓ} {K : Type ℓ} ⦃e : Eq K⦄ where
  pub elem_self : (k : K) (ks : List K) → elem k (k ∷ ks) ≡ true
  elem_self k ks = ground (arith, e.beq_iff k k)

  pub elem-append :
      (k : K) (js ks : List K) → elem k (js ++ ks) ≡ (if elem k js then true else elem k ks)
  elem-append k [] ks = refl
  elem-append k (j ∷ js) ks = ground (arith, elem-append k js ks)

  -- A key that is not entered is no result's.
  pub new_key :
      (key : K) (keys js : List K)
      → elem key keys ≡ false
      → All (λ k. elem k keys ≡ true) js
      → elem key js ≡ false
  new_key key keys [] new h = refl
  new_key key keys (j ∷ js) new h =
      ground (arith, h.0, new_key key keys js new h.1, e.beq_iff j key)

  pub Unique-snoc :
      (key : K) (js : List K) → Unique js → elem key js ≡ false → Unique (js ++ key ∷ [])
  Unique-snoc key [] u new = (refl, tt)
  Unique-snoc key (j ∷ js) u new = (
    ground (arith, elem-append j js (key ∷ []), u.0, e.beq_iff j key, e.beq_iff key j),
    Unique-snoc key js u.1 (ground arith),
  )

  pub entered_more :
      (key : K) (keys js : List K)
      → All (λ k. elem k keys ≡ true) js
      → All (λ k. elem k (key ∷ keys) ≡ true) js
  entered_more key keys [] h = tt
  entered_more key keys (j ∷ js) h = (ground (arith, h.0), entered_more key keys js h.1)

  pub elem-swap : (k f g : K) (ks : List K) → elem k (f ∷ g ∷ ks) ≡ elem k (g ∷ f ∷ ks)
  elem-swap k f g ks = ground arith

  pub Unique-swap : (f g : K) (ks : List K) → Unique (f ∷ g ∷ ks) → Unique (g ∷ f ∷ ks)
  Unique-swap f g ks u =
      (ground (arith, u.0, u.1.0, e.beq_iff f g, e.beq_iff g f), (ground (arith, u.0), u.1.1))

  pub elem-take : (n : ℕ) (k : K) (ks : List K) → elem k ks ≡ false → elem k (take n ks) ≡ false
  elem-take zero k ks h = refl
  elem-take (suc n) k [] h = refl
  elem-take (suc n) k (j ∷ ks) h = ground (arith, elem-take n k ks)

  pub take-Unique : (n : ℕ) (ks : List K) → Unique ks → Unique (take n ks)
  take-Unique zero ks u = tt
  take-Unique (suc n) [] u = tt
  take-Unique (suc n) (k ∷ ks) u = (elem-take n k ks u.0, take-Unique n ks u.1)
