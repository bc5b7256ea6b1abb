-- ===== src/Protocol/Segment/Pieces.antt =====
-- The dictionary of pieces that `defragment` fills, and the join of a complete one.
use shogunet.Prelude.{
  ℕ, zero, suc, ◌+◌, ◌<◌, ◌≤◌, ◌≡◌, refl, List, [], ◌∷◌, ◌++◌, arith, Bool, true, false, ◌&&◌, ◌||◌,
  ltb, ◌==◌, if◌then◌else◌, nat_eq, length, All, inl, inr, Bool-cases, Option-cases,
}
use shogunet.Prelude.Dict.{
  Dict, lookup, contains, insert, elem, Distinct, insert-Distinct, lookup-insert, All-lookup,
}
use shogunet.Protocol.Errors.{ok}
use shogunet.Protocol.Segment.{set_default, join_from}

-- Every index below `n` is in the list.
abbrev pub covers : ℕ → List ℕ → Bool
covers zero idxs = true
covers (suc n) idxs = elem n idxs && covers n idxs

-- How many indices below `n` have an entry.
present : ℕ → Dict ℕ (List ℕ) → ℕ
present zero d = 0
present (suc n) d = (if contains n d then 1 else 0) + present n d

present-nil : (n : ℕ) → present n [] ≡ 0
unfolding present
present-nil zero = refl
present-nil (suc n) = omega (arith, present-nil n)

present-cons :
    (n k : ℕ) (v : List ℕ) (d : Dict ℕ (List ℕ))
    → contains k d ≡ false
    → present n ((k, v) ∷ d) ≡ (if ltb k n then 1 else 0) + present n d
unfolding present
present-cons zero k v d h = ground arith
present-cons (suc n) k v d h = ground (arith, present-cons n k v d h)

-- Distinct indices below `n` are counted by the length: no pigeon shares a hole.
present-eq-length :
    (n : ℕ) (d : Dict ℕ (List ℕ)) → Distinct d → All (λ e. e.0 < n) d → present n d ≡ length d
present-eq-length n [] u b = present-nil n
present-eq-length n ((k, v) ∷ d) u b =
    ground (arith, present-cons n k v d u.0, present-eq-length n d u.1 b.1)

present-le : (n : ℕ) (d : Dict ℕ (List ℕ)) → present n d ≤ n
unfolding present
present-le zero d = omega arith
present-le (suc n) d = ground (arith, present-le n d)

-- The indices below `n` all have entries.
abbrev Full : ℕ → Dict ℕ (List ℕ) → Type 0
Full n d = (i : ℕ) → i < n → contains i d ≡ true

Full-of_present : (n : ℕ) (d : Dict ℕ (List ℕ)) → present n d ≡ n → Full n d
unfolding present
Full-of_present zero d h i lt = absurd (omega arith)
Full-of_present (suc n) d h i lt =
    ground (arith, present-le n d, Full-of_present n d (ground (arith, present-le n d)) i)

present_of_Full : (n : ℕ) (d : Dict ℕ (List ℕ)) → Full n d → present n d ≡ n
unfolding present
present_of_Full zero d h = refl
present_of_Full (suc n) d h = ground (arith, h n, present_of_Full n d (λ i lt. h i (omega arith)))

pub Full-of_length :
    (n : ℕ) (d : Dict ℕ (List ℕ))
    → Distinct d
    → All (λ e. e.0 < n) d
    → ltb (length d) n ≡ false
    → Full n d
Full-of_length n d u b h =
    Full-of_present n d (ground (arith, present-eq-length n d u b, present-le n d))

pub length_of_Full :
    (n : ℕ) (d : Dict ℕ (List ℕ))
    → Distinct d
    → All (λ e. e.0 < n) d
    → Full n d
    → ltb (length d) n ≡ false
length_of_Full n d u b h = ground (arith, present-eq-length n d u b, present_of_Full n d h)

-- The join of a dictionary that has every index is defined: no access fails.
pub join_from_total :
    (d : Dict ℕ (List ℕ)) (n i total : ℕ)
    → i + n ≡ total
    → ((j : ℕ) → j < total → contains j d ≡ true)
    → (b : List ℕ) × (join_from d n i ≡ ok b)
unfolding join_from
join_from_total d zero i total e full = ([], refl)
join_from_total d (suc n) i total e full =
    let (rest, q) = join_from_total d n (i + 1) total (omega arith) full in
    elim (Option-cases (lookup i d)) [
      | inl missing ↦ absurd (ground (arith, full i (omega arith)))
      | inr (piece, found) ↦ (piece ++ rest, rw (found, q) refl)
    ]

pub All-insert :
    (P : ℕ × List ℕ → Type 0) (k : ℕ) (v : List ℕ) (d : Dict ℕ (List ℕ))
    → P (k, v)
    → All P d
    → contains k d ≡ false
    → All P (insert k v d)
All-insert P k v [] p h c = (p, tt)
All-insert P k v ((j, w) ∷ d) p h c = elim (Bool-cases (j == k)) [
  | inl same ↦ absurd (ground arith)
  | inr other ↦ rw other (h.0, All-insert P k v d p h.1 (rw other at c))
]

module _ (piece : ℕ → List ℕ) where
  abbrev pub gathered : List ℕ → Dict ℕ (List ℕ) → Dict ℕ (List ℕ)
  gathered [] d = d
  gathered (i ∷ is) d = gathered is (set_default i (piece i) d)

  -- What holds of the pieces that were collected.
  pub record IsGathered (count : ℕ) (d : Dict ℕ (List ℕ)) : Type 0 where
    pub distinct : Distinct d
    pub bounded : All (λ e. e.0 < count) d
    pub right : All (λ e. e.1 ≡ piece e.0) d

  set_default-IsGathered :
      (count i : ℕ) (d : Dict ℕ (List ℕ))
      → i < count
      → IsGathered count d
      → IsGathered count (set_default i (piece i) d)
  set_default-IsGathered count i d lt g = elim (Bool-cases (contains i d)) [
    | inl old ↦ rw old g
    | inr new ↦ rw new (record {
      distinct = insert-Distinct i (piece i) d g.distinct;
      bounded = All-insert (λ e. e.0 < count) i (piece i) d lt g.bounded new;
      right = All-insert (λ e. e.1 ≡ piece e.0) i (piece i) d refl g.right new;
    })
  ]

  pub gathered-IsGathered :
      (count : ℕ) (idxs : List ℕ) (d : Dict ℕ (List ℕ))
      → All (λ i. i < count) idxs
      → IsGathered count d
      → IsGathered count (gathered idxs d)
  gathered-IsGathered count [] d b g = g
  gathered-IsGathered count (i ∷ is) d b g =
      gathered-IsGathered count is (set_default i (piece i) d) b.1
        (set_default-IsGathered count i d b.0 g)

  contains-set_default :
      (i j : ℕ) (d : Dict ℕ (List ℕ))
      → contains j (set_default i (piece i) d) ≡ ((i == j) || contains j d)
  contains-set_default i j d = ground (arith, lookup-insert i j (piece i) d)

  pub contains-gathered :
      (idxs : List ℕ) (j : ℕ) (d : Dict ℕ (List ℕ))
      → contains j (gathered idxs d) ≡ (elem j idxs || contains j d)
  contains-gathered [] j d = refl
  contains-gathered (i ∷ is) j d =
      ground (arith, contains-gathered is j (set_default i (piece i) d), contains-set_default i j d)

  -- Where every index has an entry, the join is that of the pieces themselves.
  abbrev pub pieces_from : ℕ → ℕ → List ℕ
  pieces_from zero i = []
  pieces_from (suc n) i = piece i ++ pieces_from n (i + 1)

  pub join_from-pieces :
      (count : ℕ) (d : Dict ℕ (List ℕ)) (n i : ℕ)
      → IsGathered count d
      → i + n ≡ count
      → ((j : ℕ) → j < count → contains j d ≡ true)
      → join_from d n i ≡ ok (pieces_from n i)
  unfolding join_from
  join_from-pieces count d zero i g e full = refl
  join_from-pieces count d (suc n) i g e full = elim (Option-cases (lookup i d)) [
    | inl missing ↦ absurd (ground (arith, full i (omega arith)))
    | inr (b, found) ↦
        let same : b ≡ piece i = All-lookup (λ e. e.1 ≡ piece e.0) i d g.right found in
        rw (found, join_from-pieces count d n (i + 1) g (omega arith) full, same) refl
  ]

pub covers_iff :
    (n : ℕ) (idxs : List ℕ) → covers n idxs ≡ true → (i : ℕ) → i < n → elem i idxs ≡ true
covers_iff zero idxs h i lt = absurd (omega arith)
covers_iff (suc n) idxs h i lt = ground (arith, covers_iff n idxs (ground arith) i)

pub covers_of_all :
    (n : ℕ) (idxs : List ℕ) → ((i : ℕ) → i < n → elem i idxs ≡ true) → covers n idxs ≡ true
covers_of_all zero idxs h = refl
covers_of_all (suc n) idxs h = ground (arith, h n, covers_of_all n idxs (λ i lt. h i (omega arith)))
