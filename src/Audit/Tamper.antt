-- ===== src/Audit/Tamper.antt =====
-- `verify` of audit.py on logs that were tampered with.
use shogunet.Prelude.{
  ℕ, suc, ◌≡◌, refl, ◌≢◌, ap, sym, subst, ◌∙◌, String, List, [], ◌∷◌, ◌++◌, false, ◌==◌, nat_eq, Eq,
  arith, map, Bool-cases, inl, inr,
}
use shogunet.Prelude.Dict.{elem}
use shogunet.Audit.{
  Record, Line, blank, corrupt, entry, Problem, record_problems, record_hash, verify_from, verify,
}

module _ {D : Type 0} ⦃e : Eq D⦄ (genesis : D) (digest : ℕ → String → String → String → D → D) where
  -- What the absence of problems says of a record and of the lines behind it.
  record IsClean (n : ℕ) (previous : D) (seen : List ℕ) (r : Record D) (rest : List (Line D))
      : Type 0 where
    follows : r.prev ≡ previous
    hashed : r.hash ≡ record_hash genesis digest r
    new : elem r.seq seen ≡ false
    behind : verify_from genesis digest (suc n) r.hash (r.seq ∷ seen) rest ≡ []

  record_problems-nil :
      (n : ℕ) (seen : List ℕ) (r : Record D) (ps : List Problem)
      → record_problems genesis digest n seen r ++ ps ≡ []
      → (r.hash ≡ record_hash genesis digest r) × (elem r.seq seen ≡ false) × (ps ≡ [])
  record_problems-nil n seen r ps h =
      ground (arith, e.beq_iff r.hash (record_hash genesis digest r))

  verify_from-IsClean :
      (n : ℕ) (previous : D) (seen : List ℕ) (r : Record D) (rest : List (Line D))
      → verify_from genesis digest n previous seen (entry r ∷ rest) ≡ []
      → IsClean n previous seen r rest
  unfolding verify_from
  verify_from-IsClean n previous seen r rest h = elim (Bool-cases (r.prev == previous)) [
    | inl same ↦
        let (hashed, new, behind) = record_problems-nil n seen r _ (rw same at h) in
        record {
          follows = (e.beq_iff r.prev previous).0 same;
          hashed = hashed;
          new = new;
          behind = behind;
        }
    | inr other ↦ absurd (ground (arith, h, other))
  ]

  IsClean-verify_from :
      (n : ℕ) (previous : D) (seen : List ℕ) (r : Record D) (rest : List (Line D))
      → r.prev ≡ previous
      → r.hash ≡ record_hash genesis digest r
      → elem r.seq seen ≡ false
      → verify_from genesis digest (suc n) r.hash (r.seq ∷ seen) rest ≡ []
      → verify_from genesis digest n previous seen (entry r ∷ rest) ≡ []
  unfolding verify_from
  IsClean-verify_from n previous seen r rest p h u b =
      ground (arith, e.beq_iff r.prev previous, e.beq_iff r.hash (record_hash genesis digest r))

  verify_from-front :
      (n : ℕ) (previous : D) (seen : List ℕ) (front back : List (Line D))
      → verify_from genesis digest n previous seen (front ++ back) ≡ []
      → verify_from genesis digest n previous seen front ≡ []
  unfolding verify_from
  verify_from-front n previous seen [] back h = refl
  verify_from-front n previous seen (blank ∷ rest) back h =
      verify_from-front (suc n) previous seen rest back h
  verify_from-front n previous seen (corrupt ∷ rest) back h = absurd (ground (arith, h))
  verify_from-front n previous seen (entry r ∷ rest) back h =
      let c = verify_from-IsClean n previous seen r (rest ++ back) h in
      IsClean-verify_from n previous seen r rest c.follows c.hashed c.new
        (verify_from-front (suc n) r.hash (r.seq ∷ seen) rest back c.behind)

  -- A log in which `verify` finds no problem has none after its last lines are cut off: deleting the
  -- latest records is not detected.
  pub verify-front :
      (front back : List (Line D))
      → verify genesis digest (front ++ back) ≡ []
      → verify genesis digest front ≡ []
  unfolding verify
  verify-front front back h = verify_from-front 1 genesis [] front back h

  -- The hash of the last record.
  abbrev pub last_hash : D → List (Record D) → D
  last_hash d [] = d
  last_hash d (r ∷ rs) = last_hash r.hash rs

  abbrev onto : List (Record D) → List (Record D) → List (Record D)
  onto [] done = done
  onto (r ∷ rs) done = onto rs (r ∷ done)

  onto-onto : (xs ys : List (Record D)) → onto (onto xs ys) [] ≡ onto ys xs
  onto-onto [] ys = refl
  onto-onto (x ∷ xs) ys = onto-onto xs (x ∷ ys)

  -- The records, latest first, lead from `tail` back to the genesis.
  abbrev Back : List (Record D) → D → Type 0
  Back [] tail = tail ≡ genesis
  Back (r ∷ rs) tail = (tail ≡ r.hash) × (r.hash ≡ record_hash genesis digest r) × Back rs r.prev

  verify-Back :
      (n : ℕ) (previous : D) (seen : List ℕ) (rs done : List (Record D))
      → Back done previous
      → verify_from genesis digest n previous seen (map entry rs) ≡ []
      → Back (onto rs done) (last_hash previous rs)
  verify-Back n previous seen [] done b h = b
  verify-Back n previous seen (r ∷ rs) done b h =
      let c = verify_from-IsClean n previous seen r (map entry rs) h in
      verify-Back (suc n) r.hash (r.seq ∷ seen) rs (r ∷ done)
        (refl, c.hashed, subst (Back done) (sym c.follows) b) c.behind

  module _
      (collision_free : (r q : Record D)
        → record_hash genesis digest r ≡ record_hash genesis digest q
        → (r.seq ≡ q.seq)
          × (r.ts ≡ q.ts)
          × (r.event ≡ q.event)
          × (r.payload ≡ q.payload)
          × (r.prev ≡ q.prev))
      (no_genesis : (r : Record D) → record_hash genesis digest r ≢ genesis) where
    Back-injective : (rs qs : List (Record D)) (tail : D) → Back rs tail → Back qs tail → rs ≡ qs
    Back-injective [] [] tail b c = refl
    Back-injective [] (q ∷ qs) tail b (t, h, c) = absurd (no_genesis q (sym h ∙ sym t ∙ b))
    Back-injective (r ∷ rs) [] tail (t, h, b) c = absurd (no_genesis r (sym h ∙ sym t ∙ c))
    Back-injective (r ∷ rs) (q ∷ qs) tail (t, h, b) (u, k, c) =
        let same : r.hash ≡ q.hash = sym t ∙ u in
        let (seq, ts, event, payload, prev) = collision_free r q (sym h ∙ same ∙ k) in
        let rest = Back-injective rs qs q.prev (subst (Back rs) prev b) c in
        λ i.
          record {
            seq = seq i;
            ts = ts i;
            event = event i;
            payload = payload i;
            prev = prev i;
            hash = same i;
          }
          ∷ rest i

    -- Where the digest of a record tells its fields and is never the genesis hash: two logs of records
    -- in which `verify` finds no problem and whose last hashes agree are the same log. So an edit, a
    -- deletion or a change of order that keeps the last hash is detected.
    pub verify-injective :
        (rs qs : List (Record D))
        → verify genesis digest (map entry rs) ≡ []
        → verify genesis digest (map entry qs) ≡ []
        → last_hash genesis rs ≡ last_hash genesis qs
        → rs ≡ qs
    unfolding verify
    verify-injective rs qs h k same =
        let reversed : onto rs [] ≡ onto qs [] =
          Back-injective (onto rs []) (onto qs []) (last_hash genesis qs)
            (subst (Back (onto rs [])) same (verify-Back 1 genesis [] rs [] refl h))
            (verify-Back 1 genesis [] qs [] refl k) in
        sym (onto-onto rs []) ∙ ap (λ xs. onto xs []) reversed ∙ onto-onto qs []
