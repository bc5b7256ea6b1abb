-- ===== src/Chain/Ranking/Order.antt =====
-- The order that `_ranked` of transport_fallback.py makes, against that of the ranks.
use mathlib.Core.List.{Perm}
use mathlib.Core.List.Perm
use shogunet.Prelude.{
  ℕ, ◌≤◌, ◌≡◌, refl, ap, ◌∙◌, ◌⊎◌, none, some, List, [], ◌∷◌, Bool, true, false, ltb, ◌==◌, ◌&&◌,
  not, if◌then◌else◌, nat_eq, filter, arith, All, Bool-cases, inl, inr,
}
use shogunet.Transports.{accepts_class}
use shogunet.Chain.{Transport, Chain, circuit_of}
use shogunet.Chain.Ranking.{Rank, rank_le, place, sorted, rank, ranked}

rank_le_total : (a b : Rank) → rank_le a b ≡ false → rank_le b a ≡ true
rank_le_total (false, l) (false, m) h = ground arith
rank_le_total (false, l) (true, m) h = ground arith
rank_le_total (true, l) (false, m) h = ground arith
rank_le_total (true, l) (true, m) h = ground arith

rank_le_trans : (a b c : Rank) → rank_le a b ≡ true → rank_le b c ≡ true → rank_le a c ≡ true
rank_le_trans (false, l) (false, m) (false, n) h k = ground arith
rank_le_trans (false, l) (false, m) (true, n) h k = ground arith
rank_le_trans (false, l) (true, m) (false, n) h k = ground arith
rank_le_trans (false, l) (true, m) (true, n) h k = ground arith
rank_le_trans (true, l) (false, m) (false, n) h k = ground arith
rank_le_trans (true, l) (false, m) (true, n) h k = ground arith
rank_le_trans (true, l) (true, m) (false, n) h k = ground arith
rank_le_trans (true, l) (true, m) (true, n) h k = ground arith

module _ (key : Transport → Rank) where
  -- Every transport's rank is at most that of all behind it.
  abbrev pub IsSorted : List Transport → Type 0
  IsSorted [] = Unit
  IsSorted (t ∷ ts) = All (λ u. rank_le (key t) (key u) ≡ true) ts × IsSorted ts

  All-place :
      (P : Transport → Type 0) (t : Transport) (ts : List Transport)
      → P t
      → All P ts
      → All P (place key t ts)
  unfolding place
  All-place P t [] p h = (p, tt)
  All-place P t (u ∷ us) p h = elim (Bool-cases (rank_le (key t) (key u))) [
    | inl before ↦ rw before (p, h)
    | inr behind ↦ rw behind (h.0, All-place P t us p h.1)
  ]

  All-weaken :
      (P Q : Transport → Type 0) (ts : List Transport)
      → ((t : Transport) → P t → Q t)
      → All P ts
      → All Q ts
  All-weaken P Q [] f h = tt
  All-weaken P Q (t ∷ ts) f h = (f t h.0, All-weaken P Q ts f h.1)

  place-IsSorted : (t : Transport) (ts : List Transport) → IsSorted ts → IsSorted (place key t ts)
  unfolding place
  place-IsSorted t [] h = (tt, tt)
  place-IsSorted t (u ∷ us) h = elim (Bool-cases (rank_le (key t) (key u))) [
    | inl before ↦ rw before (
      (
        before,
        All-weaken (λ v. rank_le (key u) (key v) ≡ true) (λ v. rank_le (key t) (key v) ≡ true) us
            (λ v. rank_le_trans (key t) (key u) (key v) before) h.0,
      ),
      h,
    )
    | inr behind ↦ rw behind (
      All-place (λ v. rank_le (key u) (key v) ≡ true) t us (rank_le_total (key t) (key u) behind)
          h.0,
      place-IsSorted t us h.1,
    )
  ]

  pub sorted-IsSorted : (ts : List Transport) → IsSorted (sorted key ts)
  unfolding sorted
  sorted-IsSorted [] = tt
  sorted-IsSorted (t ∷ ts) = place-IsSorted t (sorted key ts) (sorted-IsSorted ts)

  place-Perm : (t : Transport) (ts : List Transport) → Perm (place key t ts) (t ∷ ts)
  unfolding place
  place-Perm t [] = Perm.refl (t ∷ [])
  place-Perm t (u ∷ us) = elim (Bool-cases (rank_le (key t) (key u))) [
    | inl before ↦ rw before (Perm.refl (t ∷ u ∷ us))
    | inr behind ↦ rw behind (Perm.trans (Perm.cons u (place-Perm t us)) (Perm.swap t u us))
  ]

  pub sorted-Perm : (ts : List Transport) → Perm (sorted key ts) ts
  unfolding sorted
  sorted-Perm [] = Perm.refl []
  sorted-Perm (t ∷ ts) = Perm.trans (place-Perm t (sorted key ts)) (Perm.cons t (sorted-Perm ts))

-- The breaker of a transport is open, and its mean latency, or 1e12 where it has none.
abbrev pub is_shut : ℕ → Chain → Transport → Bool
is_shut now s t = ltb now (circuit_of t.name s).open_until

abbrev pub mean_latency : Chain → Transport → ℕ
mean_latency s t = elim (circuit_of t.name s).latency_ewma [
  | none ↦ 4786511204640096256
  | some l ↦ l
]

-- A closed breaker goes before an open one; among the others the latency decides.
abbrev pub Before : ℕ → Chain → Transport → Transport → Type 0
Before now s t u =
    ((is_shut now s t ≡ false) × (is_shut now s u ≡ true))
    ⊎ ((is_shut now s t ≡ is_shut now s u) × (mean_latency s t ≤ mean_latency s u))

-- Each goes before all behind it.
abbrev pub InOrder : ℕ → Chain → List Transport → Type 0
InOrder now s [] = Unit
InOrder now s (t ∷ ts) = All (Before now s t) ts × InOrder now s ts

-- A state of the breaker and a latency are the ones asked for.
abbrev pub agrees : Bool → ℕ → Bool → ℕ → Bool
agrees shut latency b l = (if shut then b else not b) && (l == latency)

-- The transports with this state of the breaker and this latency.
abbrev pub tied : ℕ → Chain → Bool → ℕ → Transport → Bool
tied now s shut latency t = agrees shut latency (is_shut now s t) (mean_latency s t)

rank_le-cases :
    (a b : Bool) (l m : ℕ)
    → rank_le (a, l) (b, m) ≡ true
    → ((a ≡ false) × (b ≡ true)) ⊎ ((a ≡ b) × (l ≤ m))
rank_le-cases false false l m h = inr (refl, ground arith)
rank_le-cases false true l m h = inl (refl, refl)
rank_le-cases true false l m h = absurd (impossible h)
  where
    impossible : false ≡ true → ⊥
    impossible e = cc
rank_le-cases true true l m h = inr (refl, ground arith)

rank_le-agrees :
    (shut : Bool) (latency : ℕ) (a b : Bool) (l m : ℕ)
    → rank_le (a, l) (b, m) ≡ false
    → agrees shut latency a l ≡ true
    → agrees shut latency b m ≡ false
rank_le-agrees shut latency false false l m h k = ground arith
rank_le-agrees shut latency false true l m h k = ground arith
rank_le-agrees shut latency true false l m h k = ground arith
rank_le-agrees shut latency true true l m h k = ground arith

rank_le-Before :
    (now : ℕ) (s : Chain) (t u : Transport)
    → rank_le (rank now s t) (rank now s u) ≡ true
    → Before now s t u
rank_le-Before now s t u h =
    rank_le-cases (is_shut now s t) (is_shut now s u) (mean_latency s t) (mean_latency s u) h

IsSorted-InOrder :
    (now : ℕ) (s : Chain) (ts : List Transport) → IsSorted (rank now s) ts → InOrder now s ts
IsSorted-InOrder now s [] h = tt
IsSorted-InOrder now s (t ∷ ts) h = (
  All-weaken (rank now s) (λ u. rank_le (rank now s t) (rank now s u) ≡ true) (Before now s t) ts
      (λ u. rank_le-Before now s t u) h.0,
  IsSorted-InOrder now s ts h.1,
)

swapped :
    (a b : Bool) (t u : Transport) (ts : List Transport)
    → (a ≡ true → b ≡ false)
    → ◌≡◌ {A = List Transport}
        (if b then u ∷ (if a then t ∷ ts else ts) else if a then t ∷ ts else ts)
        (if a then t ∷ (if b then u ∷ ts else ts) else if b then u ∷ ts else ts)
swapped true b t u ts apart = rw (apart refl) refl
swapped false b t u ts apart = refl

module _ (now : ℕ) (s : Chain) (shut : Bool) (latency : ℕ) where
  -- A transport that goes behind another is not tied with it.
  behind_untied :
      (t u : Transport)
      → rank_le (rank now s t) (rank now s u) ≡ false
      → tied now s shut latency t ≡ true
      → tied now s shut latency u ≡ false
  behind_untied t u h same =
      rank_le-agrees shut latency (is_shut now s t) (is_shut now s u) (mean_latency s t)
        (mean_latency s u) h same

  place-tied :
      (t : Transport) (ts : List Transport)
      → filter (tied now s shut latency) (place (rank now s) t ts)
        ≡ filter (tied now s shut latency) (t ∷ ts)
  unfolding place
  place-tied t [] = refl
  place-tied t (u ∷ us) = elim (Bool-cases (rank_le (rank now s t) (rank now s u))) [
    | inl before ↦ rw before refl
    | inr behind ↦ rw behind (
        ap (λ (ts : List Transport). if tied now s shut latency u then u ∷ ts else ts)
          (place-tied t us)
        ∙ swapped (tied now s shut latency t) (tied now s shut latency u) t u
            (filter (tied now s shut latency) us) (behind_untied t u behind))
  ]

  sorted-tied :
      (ts : List Transport)
      → filter (tied now s shut latency) (sorted (rank now s) ts)
        ≡ filter (tied now s shut latency) ts
  unfolding sorted
  sorted-tied [] = refl
  sorted-tied (t ∷ ts) =
      place-tied t (sorted (rank now s) ts)
      ∙ ap (λ (us : List Transport). if tied now s shut latency t then t ∷ us else us)
          (sorted-tied ts)

-- The walk tries each transport that accepts the class, once: those with a closed breaker before those with
-- an open one, then by mean latency, where one without counts as 1e12; and those that are tied in both in the
-- order of the chain.
pub ranked-InOrder :
    (now priority_class : ℕ) (s : Chain) (shut : Bool) (latency : ℕ)
    → let eligible = filter (λ t. accepts_class t.profile priority_class) s.transports in
      InOrder now s (ranked now priority_class s)
      × Perm (ranked now priority_class s) eligible
      × (filter (tied now s shut latency) (ranked now priority_class s)
          ≡ filter (tied now s shut latency) eligible)
unfolding ranked
ranked-InOrder now priority_class s shut latency =
    let eligible = filter (λ t. accepts_class t.profile priority_class) s.transports in
    (
      IsSorted-InOrder now s (sorted (rank now s) eligible) (sorted-IsSorted (rank now s) eligible),
      sorted-Perm (rank now s) eligible,
      sorted-tied now s shut latency eligible,
    )

-- What holds of every transport holds of every ranked one.
pub All-sorted :
    (key : Transport → Rank) (P : Transport → Type 0) (ts : List Transport)
    → All P ts
    → All P (sorted key ts)
unfolding sorted
All-sorted key P [] h = tt
All-sorted key P (t ∷ ts) h = All-place key P t (sorted key ts) h.0 (All-sorted key P ts h.1)
