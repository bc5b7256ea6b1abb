-- ===== src/Spatial/Boxes.antt =====
-- The cubes of the octree of spatial.py, and the observations in them.
use shogunet.Prelude.{
  ℕ, zero, suc, ◌≡◌, inl, inr, String, List, [], ◌∷◌, ◌++◌, true, string_eq, length, ltb, All,
  All-append, Bool-cases, Option-cases,
}
use shogunet.Prelude.Dict.{Dict, lookup, insert-All, All-lookup}
use shogunet.Spatial.{
  Observation, Cube, Node, leaf, branch, Nodes, nil, cons, contains, subdivide, append_to, each,
  insert_node,
}

-- A property of all the observations that a node holds itself.
abbrev pub Held : (Observation → Type 0) → Dict String (List Observation) → Type 0
Held P held = All (λ p. All P p.1) held

abbrev mutual
  pub Everywhere : (Observation → Type 0) → Node → Type 0
  Everywhere P (leaf c held) = Held P held
  Everywhere P (branch c held children) = Held P held × EverywhereIn P children

  pub EverywhereIn : (Observation → Type 0) → Nodes → Type 0
  EverywhereIn P nil = Unit
  EverywhereIn P (cons n ns) = Everywhere P n × EverywhereIn P ns

abbrev pub Lies : Cube → Observation → Type 0
Lies c o = contains c o.place ≡ true

abbrev mutual
  pub IsBoxed : Node → Type 0
  IsBoxed (leaf c held) = Held (Lies c) held
  IsBoxed (branch c held children) =
      Held (Lies c) held × EverywhereIn (Lies c) children × AreBoxed children

  pub AreBoxed : Nodes → Type 0
  AreBoxed nil = Unit
  AreBoxed (cons n ns) = IsBoxed n × AreBoxed ns

append_to-Held :
    (P : Observation → Type 0) (o : Observation) (held : Dict String (List Observation))
    → P o
    → Held P held
    → Held P (append_to o held)
append_to-Held P o held h hs = elim (Option-cases (lookup o.entity_id held)) [
  | inl new ↦ rw (new, append_to) (insert-All (All P) o.entity_id (o ∷ []) held (h, tt) hs)
  | inr (os, found) ↦
      let before = All-lookup (λ p. All P p.1) o.entity_id held hs found in
      rw (found, append_to)
        (insert-All (All P) o.entity_id (os ++ o ∷ []) held
          (All-append P os (o ∷ []) before (h, tt)) hs)
]

subdivide-Everywhere : (P : Observation → Type 0) (c : Cube) → EverywhereIn P (subdivide c)
unfolding subdivide
subdivide-Everywhere P c = (tt, (tt, (tt, (tt, (tt, (tt, (tt, (tt, tt))))))))

subdivide-AreBoxed : (c : Cube) → AreBoxed (subdivide c)
unfolding subdivide
subdivide-AreBoxed c = (tt, (tt, (tt, (tt, (tt, (tt, (tt, (tt, tt))))))))

each-Everywhere :
    (P : Observation → Type 0) (f : Node → Node)
    → ((n : Node) → Everywhere P n → Everywhere P (f n))
    → (ns : Nodes) → EverywhereIn P ns
    → EverywhereIn P (each f ns)
unfolding each
each-Everywhere P f keep nil h = tt
each-Everywhere P f keep (cons n ns) h = (keep n h.0, each-Everywhere P f keep ns h.1)

each-AreBoxed :
    (f : Node → Node)
    → ((n : Node) → IsBoxed n → IsBoxed (f n))
    → (ns : Nodes) → AreBoxed ns
    → AreBoxed (each f ns)
unfolding each
each-AreBoxed f keep nil h = tt
each-AreBoxed f keep (cons n ns) h = (keep n h.0, each-AreBoxed f keep ns h.1)

module _ (per_leaf : ℕ) (o : Observation) where
  insert_node-Everywhere :
      (P : Observation → Type 0)
      → P o
      → (levels : ℕ) (n : Node) → Everywhere P n
      → Everywhere P (insert_node levels per_leaf o n)
  unfolding insert_node
  insert_node-Everywhere P h zero (leaf c held) hs = elim (Bool-cases (contains c o.place)) [
    | inl inside ↦ rw inside (append_to-Held P o held h hs)
    | inr outside ↦ rw outside hs
  ]
  insert_node-Everywhere P h zero (branch c held children) hs = hs
  insert_node-Everywhere P h (suc levels) (leaf c held) hs =
      elim (Bool-cases (contains c o.place)) [
        | inr outside ↦ rw outside hs
        | inl inside ↦ elim (Bool-cases (ltb (length held) per_leaf)) [
          | inl room ↦ rw (inside, room) (append_to-Held P o held h hs)
          | inr full ↦
              rw (inside, full)
                (
                  hs,
                  each-Everywhere P (insert_node levels per_leaf o)
                      (insert_node-Everywhere P h levels) (subdivide c) (subdivide-Everywhere P c),
                )
        ]
      ]
  insert_node-Everywhere P h (suc levels) (branch c held children) hs =
      elim (Bool-cases (contains c o.place)) [
        | inr outside ↦ rw outside hs
        | inl inside ↦ rw inside (
          hs.0,
          each-Everywhere P (insert_node levels per_leaf o) (insert_node-Everywhere P h levels)
              children hs.1,
        )
      ]

  pub insert_node-IsBoxed :
      (levels : ℕ) (n : Node) → IsBoxed n → IsBoxed (insert_node levels per_leaf o n)
  unfolding insert_node
  insert_node-IsBoxed zero (leaf c held) hs = elim (Bool-cases (contains c o.place)) [
    | inl inside ↦ rw inside (append_to-Held (Lies c) o held inside hs)
    | inr outside ↦ rw outside hs
  ]
  insert_node-IsBoxed zero (branch c held children) hs = hs
  insert_node-IsBoxed (suc levels) (leaf c held) hs = elim (Bool-cases (contains c o.place)) [
    | inr outside ↦ rw outside hs
    | inl inside ↦ elim (Bool-cases (ltb (length held) per_leaf)) [
      | inl room ↦ rw (inside, room) (append_to-Held (Lies c) o held inside hs)
      | inr full ↦
          rw (inside, full)
            (
              hs,
              each-Everywhere (Lies c) (insert_node levels per_leaf o)
                  (insert_node-Everywhere (Lies c) inside levels) (subdivide c)
                  (subdivide-Everywhere (Lies c) c),
              each-AreBoxed (insert_node levels per_leaf o) (insert_node-IsBoxed levels)
                  (subdivide c) (subdivide-AreBoxed c),
            )
    ]
  ]
  insert_node-IsBoxed (suc levels) (branch c held children) hs =
      elim (Bool-cases (contains c o.place)) [
        | inr outside ↦ rw outside hs
        | inl inside ↦ rw inside (
          hs.0,
          each-Everywhere (Lies c) (insert_node levels per_leaf o)
              (insert_node-Everywhere (Lies c) inside levels) children hs.1,
          each-AreBoxed (insert_node levels per_leaf o) (insert_node-IsBoxed levels) children hs.2,
        )
      ]
