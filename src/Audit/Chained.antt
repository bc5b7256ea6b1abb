-- ===== src/Audit/Chained.antt =====
-- `append` of audit.py against `verify`.
use shogunet.Prelude.{
  ℕ, suc, ◌≤◌, ◌≡◌, refl, sym, ◌∙◌, String, List, [], ◌∷◌, ◌++◌, true, false, nat_eq, Eq, arith,
  All,
}
use shogunet.Prelude.Dict.{elem}
use shogunet.Audit.{
  Record, Line, blank, corrupt, entry, AuditChain, open_chain, load_from, append, record_hash,
  verify_from, verify,
}

module _ {D : Type 0} ⦃e : Eq D⦄ (genesis : D) (digest : ℕ → String → String → String → D → D) where
  -- From `previous` and the numbers `seen` on, each record follows the one before it, and the lines
  -- lead to `tail` with numbers up to `top`.
  abbrev pub Linked : D → List ℕ → List (Line D) → D → ℕ → Type 0
  Linked previous seen [] tail top = (previous ≡ tail) × All (λ n. n ≤ top) seen
  Linked previous seen (blank ∷ rest) tail top = Linked previous seen rest tail top
  Linked previous seen (corrupt ∷ rest) tail top = true ≡ false
  Linked previous seen (entry r ∷ rest) tail top =
      (r.prev ≡ previous)
      × (r.hash ≡ record_hash genesis digest r)
      × (elem r.seq seen ≡ false)
      × Linked r.hash (r.seq ∷ seen) rest tail top

  Linked-verify :
      (n : ℕ) (previous tail : D) (top : ℕ) (seen : List ℕ) (ls : List (Line D))
      → Linked previous seen ls tail top
      → verify_from genesis digest n previous seen ls ≡ []
  unfolding verify_from
  Linked-verify n previous tail top seen [] l = refl
  Linked-verify n previous tail top seen (blank ∷ rest) l =
      Linked-verify (suc n) previous tail top seen rest l
  Linked-verify n previous tail top seen (corrupt ∷ rest) l = absurd (ground (arith, l))
  Linked-verify n previous tail top seen (entry r ∷ rest) (p, h, u, l) = ground (
    arith,
    p,
    h,
    u,
    e.beq_iff r.prev previous,
    e.beq_iff r.hash (record_hash genesis digest r),
    Linked-verify (suc n) r.hash tail top (r.seq ∷ seen) rest l,
  )

  elem-new : (top : ℕ) (seen : List ℕ) → All (λ n. n ≤ top) seen → elem (suc top) seen ≡ false
  elem-new top [] h = refl
  elem-new top (n ∷ ns) h = ground (arith, elem-new top ns h.1)

  All-suc : (top : ℕ) (seen : List ℕ) → All (λ n. n ≤ top) seen → All (λ n. n ≤ suc top) seen
  All-suc top [] h = tt
  All-suc top (n ∷ ns) h = (omega (arith, h.0), All-suc top ns h.1)

  -- One more record, with the next number.
  Linked-append :
      (previous tail : D) (top : ℕ) (seen : List ℕ) (ls : List (Line D)) (r : Record D)
      → Linked previous seen ls tail top
      → r.prev ≡ tail
      → r.hash ≡ record_hash genesis digest r
      → r.seq ≡ suc top
      → Linked previous seen (ls ++ entry r ∷ []) r.hash (suc top)
  Linked-append previous tail top seen [] r (e, all) p h n =
      (p ∙ sym e, h, rw n (elem-new top seen all), (refl, (omega (arith, n), All-suc top seen all)))
  Linked-append previous tail top seen (blank ∷ rest) r l p h n =
      Linked-append previous tail top seen rest r l p h n
  Linked-append previous tail top seen (corrupt ∷ rest) r l p h n = l
  Linked-append previous tail top seen (entry q ∷ rest) r (p0, h0, u0, l) p h n =
      (p0, h0, u0, Linked-append q.hash tail top (q.seq ∷ seen) rest r l p h n)

  -- Events, each with its time and its payload.
  abbrev pub append_all : List (String × String × String) → AuditChain D → AuditChain D
  append_all [] a = a
  append_all ((ts, event, payload) ∷ rest) a =
      append_all rest (append genesis digest true ts event payload a).0

  abbrev IsLinked : AuditChain D → Type 0
  IsLinked a = Linked genesis [] a.file a.tail a.seq

  append-IsLinked :
      (ts event payload : String) (a : AuditChain D)
      → IsLinked a
      → IsLinked (append genesis digest true ts event payload a).0
  unfolding append
  append-IsLinked ts event payload a l =
      Linked-append genesis a.tail a.seq [] a.file (append genesis digest true ts event payload a).1
        l refl refl refl

  append_all-IsLinked :
      (events : List (String × String × String)) (a : AuditChain D)
      → IsLinked a
      → IsLinked (append_all events a)
  append_all-IsLinked [] a l = l
  append_all-IsLinked ((ts, event, payload) ∷ rest) a l =
      append_all-IsLinked rest (append genesis digest true ts event payload a).0
        (append-IsLinked ts event payload a l)

  -- Whatever events are appended to a new log, and where every write succeeds, `verify` finds no
  -- problem in the file.
  pub append-verify :
      (events : List (String × String × String))
      → verify genesis digest (append_all events (open_chain genesis digest [])).file ≡ []
  unfolding verify open_chain load_from
  append-verify events =
      let a = append_all events (open_chain genesis digest []) in
      Linked-verify 1 genesis a.tail a.seq [] a.file
        (append_all-IsLinked events (open_chain genesis digest []) (refl, tt))
