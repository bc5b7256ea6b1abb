-- ===== src/Spatial/Query.antt =====
-- Sphere queries of the octree of spatial.py against all that it holds.
use shogunet.Prelude.{
  ℕ, ◌+◌, ◌≤◌, ◌≡◌, refl, sym, ap, ◌∙◌, inl, inr, String, List, [], ◌∷◌, ◌++◌, Bool, true, false,
  ◌&&◌, leb, filter, All, All-append, Bool-cases, arith, filter-append, leb→le, le→leb,
}
use shogunet.Prelude.Dict.{Dict, values}
use shogunet.Prelude.Int.{ℤ, pos, ◌+ℤ◌, ◌-ℤ◌, ltb_ℤ, abs, square, square-le}
use shogunet.Spatial.{
  Point, Observation, Cube, Node, leaf, branch, Nodes, nil, cons, contains, concat, collect_all,
  collect_nodes, excess, overlaps_sphere, within, query_node, query_nodes,
}
use shogunet.Spatial.Boxes.{Held, Everywhere, EverywhereIn, Lies, IsBoxed, AreBoxed}

-- A point of the interval is at least as far as the interval.
below :
    (c o v : ℤ) (h : ℕ)
    → leb (abs (c -ℤ o)) h ≡ true
    → ltb_ℤ v (c -ℤ pos h) ≡ true
    → abs (v -ℤ (c -ℤ pos h)) ≤ abs (o -ℤ v)
unfolding ◌-ℤ◌
below c o v h near out = ground arith

above :
    (c o v : ℤ) (h : ℕ)
    → leb (abs (c -ℤ o)) h ≡ true
    → ltb_ℤ (c +ℤ pos h) v ≡ true
    → abs (v -ℤ (c +ℤ pos h)) ≤ abs (o -ℤ v)
unfolding ◌-ℤ◌ ◌+ℤ◌
above c o v h near out = ground arith

excess-le : (c o v : ℤ) (h : ℕ) → leb (abs (c -ℤ o)) h ≡ true → excess v c h ≤ square (o -ℤ v)
unfolding excess
excess-le c o v h near = elim (Bool-cases (ltb_ℤ v (c -ℤ pos h))) [
  | inl out ↦ rw out (square-le (v -ℤ (c -ℤ pos h)) (o -ℤ v) (below c o v h near out))
  | inr up ↦ elim (Bool-cases (ltb_ℤ (c +ℤ pos h) v)) [
    | inl out ↦ rw (up, out) (square-le (v -ℤ (c +ℤ pos h)) (o -ℤ v) (above c o v h near out))
    | inr inside ↦ rw (up, inside) (omega arith)
  ]
]

both : (a b : Bool) → (a && b) ≡ true → (a ≡ true) × (b ≡ true)
both a b h = ground arith

farther : {a b c a' b' c' r : ℕ} → a ≤ a' → b ≤ b' → c ≤ c' → a' + b' + c' ≤ r → a + b + c ≤ r
farther p q s h = omega arith

-- A cube that holds a point of the sphere overlaps the sphere.
overlaps_of_within :
    (c : Cube) (q : Point) (radius : ℕ) (o : Observation)
    → contains c o.place ≡ true
    → within q radius o ≡ true
    → overlaps_sphere c q radius ≡ true
unfolding overlaps_sphere within contains
overlaps_of_within c q radius o inside near =
    let (along_x, others) = both _ _ inside in
    let (along_y, along_z) = both _ _ others in
    let dx = excess-le c.centre.x o.place.x q.x c.half along_x in
    let dy = excess-le c.centre.y o.place.y q.y c.half along_y in
    let dz = excess-le c.centre.z o.place.z q.z c.half along_z in
    le→leb _ _ (farther dx dy dz (leb→le _ _ near))

true_and_false : (b : Bool) → b ≡ true → b ≡ false → ⊥
true_and_false b h k = cc

module _ (q : Point) (radius : ℕ) where
  filter-none :
      (os : List Observation)
      → All (λ o. within q radius o ≡ false) os
      → filter (within q radius) os ≡ []
  filter-none [] h = refl
  filter-none (o ∷ os) h = rw h.0 (filter-none os h.1)

  -- None of these observations is in the sphere.
  abbrev Far : Observation → Type 0
  Far o = within q radius o ≡ false

  Lies-Far : (c : Cube) (o : Observation) → overlaps_sphere c q radius ≡ false → Lies c o → Far o
  Lies-Far c o apart inside = elim (Bool-cases (within q radius o)) [
    | inr far ↦ far
    | inl near ↦ absurd (true_and_false _ (overlaps_of_within c q radius o inside near) apart)
  ]

  concat-All :
      (P Q : Observation → Type 0)
      → ((o : Observation) → P o → Q o)
      → (held : Dict String (List Observation)) → Held P held
      → All Q (concat (values held))
  concat-All P Q step [] h = tt
  concat-All P Q step ((k, os) ∷ held) h =
      All-append Q os (concat (values held)) (every os h.0) (concat-All P Q step held h.1)
    where
      every : (os : List Observation) → All P os → All Q os
      every [] h = tt
      every (o ∷ os) h = (step o h.0, every os h.1)

  mutual
    unfolding collect_all

    collect_all-All :
        (P Q : Observation → Type 0)
        → ((o : Observation) → P o → Q o)
        → (n : Node) → Everywhere P n
        → All Q (collect_all n)
    collect_all-All P Q step (leaf c held) h = concat-All P Q step held h
    collect_all-All P Q step (branch c held children) h =
        All-append Q (concat (values held)) (collect_nodes children) (concat-All P Q step held h.0)
          (collect_nodes-All P Q step children h.1)

    collect_nodes-All :
        (P Q : Observation → Type 0)
        → ((o : Observation) → P o → Q o)
        → (ns : Nodes) → EverywhereIn P ns
        → All Q (collect_nodes ns)
    collect_nodes-All P Q step nil h = tt
    collect_nodes-All P Q step (cons n ns) h =
        All-append Q (collect_all n) (collect_nodes ns) (collect_all-All P Q step n h.0)
          (collect_nodes-All P Q step ns h.1)

  mutual
    unfolding query_node collect_all

    pub query_node-filter :
        (n : Node) → IsBoxed n → query_node q radius n ≡ filter (within q radius) (collect_all n)
    query_node-filter (leaf c held) h = elim (Bool-cases (overlaps_sphere c q radius)) [
      | inl near ↦ rw near refl
      | inr apart ↦ rw apart (
          sym (
            filter-none (concat (values held))
              (concat-All (Lies c) Far (λ o. Lies-Far c o apart) held h)))
    ]
    query_node-filter (branch c held children) h = elim (Bool-cases (overlaps_sphere c q radius)) [
      | inl near ↦ rw near (
          ap (λ (x : List Observation). filter (within q radius) (concat (values held)) ++ x)
            (query_nodes-filter children h.2)
          ∙ sym (filter-append (within q radius) (concat (values held)) (collect_nodes children)))
      | inr apart ↦ rw apart (
          sym (
            filter-none (concat (values held) ++ collect_nodes children) (
              All-append Far (concat (values held)) (collect_nodes children)
                (concat-All (Lies c) Far (λ o. Lies-Far c o apart) held h.0)
                (collect_nodes-All (Lies c) Far (λ o. Lies-Far c o apart) children h.1))))
    ]

    query_nodes-filter :
        (ns : Nodes)
        → AreBoxed ns
        → query_nodes q radius ns ≡ filter (within q radius) (collect_nodes ns)
    query_nodes-filter nil h = refl
    query_nodes-filter (cons n ns) h =
        ap (λ (x : List Observation). x ++ query_nodes q radius ns) (query_node-filter n h.0)
        ∙ ap (λ (x : List Observation). filter (within q radius) (collect_all n) ++ x)
            (query_nodes-filter ns h.1)
        ∙ sym (filter-append (within q radius) (collect_all n) (collect_nodes ns))
