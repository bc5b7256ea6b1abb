-- ===== src/Chain/Ranking.antt =====
-- The order in which the chain tries its transports: `_ranked`, and the order in `send_raw`.
pub mod Order
use shogunet.Prelude.{
  ℕ, zero, suc, String, Option, none, some, List, [], ◌∷◌, Bool, true, false, ltb, leb, filter,
  if◌then◌else◌, nat_eq, ◌==◌,
}
use shogunet.Transports.{accepts_class}
use shogunet.Chain.{Transport, Circuit, Chain, circuit_of, is_open}

-- 1e12 and float("inf"), as bit patterns
abbrev pub trillion : ℕ
trillion = 4786511204640096256

abbrev pub infinity : ℕ
infinity = 9218868437227405312

-- A key of the sort: (1 if is_open else 0, latency)
abbrev pub Rank : Type 0
Rank = Bool × ℕ

-- The order of the keys, as tuples.
abbrev pub rank_le : Rank → Rank → Bool
rank_le (false, l) (false, m) = leb l m
rank_le (false, l) (true, m) = true
rank_le (true, l) (false, m) = false
rank_le (true, l) (true, m) = leb l m

-- sorted(xs, key=key): stable
unfoldable pub place : (Transport → Rank) → Transport → List Transport → List Transport
place key t [] = t ∷ []
place key t (u ∷ us) = if rank_le (key t) (key u) then t ∷ u ∷ us else u ∷ place key t us

unfoldable pub sorted : (Transport → Rank) → List Transport → List Transport
unfolding place
sorted key [] = []
sorted key (t ∷ ts) = place key t (sorted key ts)

-- The key of `_ranked`.
abbrev pub rank : ℕ → Chain → Transport → Rank
rank now s t =
    let c = circuit_of t.name s in
    (is_open now c, elim c.latency_ewma [ none ↦ trillion | some l ↦ l ])

unfoldable pub ranked : ℕ → ℕ → Chain → List Transport
unfolding sorted
ranked now priority_class s =
    sorted (rank now s) (filter (λ t. accepts_class t.profile priority_class) s.transports)

-- circuit.latency_ewma or float("inf"): a latency of 0.0 is as good as none
abbrev pub latency_or : Option ℕ → ℕ
latency_or none = infinity
latency_or (some l) = if l == 0 then infinity else l

-- The key in `send_raw`.
abbrev pub raw_rank : ℕ → Chain → Transport → Rank
raw_rank now s t = let c = circuit_of t.name s in (is_open now c, latency_or c.latency_ewma)

unfoldable pub raw_candidates : ℕ → Chain → List Transport
unfolding sorted
raw_candidates now s = sorted (raw_rank now s) s.transports
