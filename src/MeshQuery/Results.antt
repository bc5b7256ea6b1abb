-- ===== src/MeshQuery/Results.antt =====
-- The order and the length of the answer of `query` of mesh_query.py.
use shogunet.Prelude.{
  ℕ, zero, suc, ◌≤◌, ◌≡◌, refl, sym, ap, subst, ◌∙◌, inl, inr, String, some, List, [], ◌∷◌, Bool,
  true, false, ◌==◌, if◌then◌else◌, string_eq, nat_eq, pair_eq, length, take, max, All, Bool-cases,
  Option-cases, length-take-le, arith, list_eq,
}
use shogunet.Prelude.Dict.{lookup, elem, Unique, All-lookup, elem-swap, Unique-swap, take-Unique}
use shogunet.Protocol.Envelope.{Stdlib, Envelope}
use shogunet.MeshQuery.{Key, Found, Pending, Mesh}
use shogunet.MeshQuery.Querying.{Outside, open_query, await, place, by_score, close_query}
use shogunet.MeshQuery.Collecting.{
  key_of, keys_of, IsDistinct, AreDistinct, open_query-AreDistinct, await-AreDistinct,
}

module _ (py : Stdlib) where
  module _ (le : ℕ → ℕ → Bool) where
    elem-place :
        (k : Key) (f : Found) (fs : List Found)
        → elem k (keys_of py (place py le f fs)) ≡ elem k (keys_of py (f ∷ fs))
    unfolding place
    elem-place k f [] = refl
    elem-place k f (g ∷ gs) = elim (Bool-cases (le g.score f.score)) [
      | inl above ↦ rw above refl
      | inr below ↦ rw below (
          ap (λ (b : Bool). if key_of py g == k then true else b) (elem-place k f gs)
          ∙ elem-swap k (key_of py g) (key_of py f) (keys_of py gs))
    ]

    place-Unique :
        (f : Found) (fs : List Found)
        → elem (key_of py f) (keys_of py fs) ≡ false
        → Unique (keys_of py fs)
        → Unique (keys_of py (place py le f fs))
    unfolding place
    place-Unique f [] new u = (refl, tt)
    place-Unique f (g ∷ gs) new u = elim (Bool-cases (le g.score f.score)) [
      | inl above ↦ rw above (new, u)
      | inr below ↦
          let u' = Unique-swap (key_of py f) (key_of py g) (keys_of py gs) (new, u) in
          rw below (elem-place (key_of py g) f gs ∙ u'.0, place-Unique f gs u'.1.0 u.1)
    ]

    elem-by_score :
        (k : Key) (fs : List Found)
        → elem k (keys_of py (by_score py le fs)) ≡ elem k (keys_of py fs)
    unfolding by_score
    elem-by_score k [] = refl
    elem-by_score k (f ∷ fs) =
        elem-place k f (by_score py le fs)
        ∙ ap (λ (b : Bool). if key_of py f == k then true else b) (elem-by_score k fs)

    by_score-Unique :
        (fs : List Found) → Unique (keys_of py fs) → Unique (keys_of py (by_score py le fs))
    unfolding by_score
    by_score-Unique [] u = tt
    by_score-Unique (f ∷ fs) u =
        place-Unique f (by_score py le fs) (elem-by_score (key_of py f) fs ∙ u.0)
          (by_score-Unique fs u.1)

    keys_of-take : (n : ℕ) (fs : List Found) → keys_of py (take n fs) ≡ take n (keys_of py fs)
    keys_of-take zero fs = refl
    keys_of-take (suc n) [] = refl
    keys_of-take (suc n) (f ∷ fs) = ap (◌∷◌ (key_of py f)) (keys_of-take n fs)

    AreDistinct-answer :
        (qid top_k : ℕ) (m : Mesh)
        → AreDistinct py m
        → Unique (keys_of py (close_query py le qid top_k m).1)
          × (length (close_query py le qid top_k m).1 ≤ max 1 top_k)
    unfolding close_query
    AreDistinct-answer qid top_k m hs = elim (Option-cases (lookup qid m.pending)) [
      | inl absent ↦ rw (absent, close_query) (tt, omega arith)
      | inr (p, waits) ↦
          let h = All-lookup (λ (e : ℕ × Pending). IsDistinct py e.1) qid m.pending hs waits in
          let sorted = by_score py le p.results in
          rw (waits, close_query)
            (
              subst Unique (sym (keys_of-take (max 1 top_k) sorted)) (
                  take-Unique (max 1 top_k) (keys_of py sorted)
                    (by_score-Unique p.results h.unique)),
              length-take-le (max 1 top_k) sorted,
            )
    ]

    -- Whatever envelopes come in while a query waits on a mesh whose waiting queries have distinct results, as
    -- on a new one: the answer has at most as many results as were asked for, or one, and no two of them are
    -- about the same memory, by their origin and the text of the fact id as it came in.
    pub close_query-distinct :
        (out : Outside) (now qid top_k : ℕ) (text : String) (peers : List String)
        (envs : List Envelope) (m m' : Mesh) (asked : List Envelope)
        → All (λ e. IsDistinct py e.1) m.pending
        → open_query py now qid top_k text peers m ≡ some (m', asked)
        → let found = (close_query py le qid top_k (await py out envs m')).1 in
          Unique (keys_of py found) × (length found ≤ max 1 top_k)
    close_query-distinct out now qid top_k text peers envs m m' asked hs opened =
        AreDistinct-answer qid top_k (await py out envs m') (
          await-AreDistinct py out envs m'
            (open_query-AreDistinct py now qid top_k text peers m m' asked hs opened))
