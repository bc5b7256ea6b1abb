-- ===== src/Fallbacks.antt =====
-- `class NetworkFallbackController` of fallbacks.py. Whether the governor engages is an argument:
-- where it does not, it raises. Readings of the monotonic clock are in milliseconds; `str.lower` is a
-- parameter.
pub mod Latch
use shogunet.Prelude.{
  ℕ, zero, suc, ◌+◌, ◌-◌, ◌*◌, String, Option, none, some, List, [], ◌∷◌, ◌++◌, Bool, true, false,
  ltb, leb, max, filter, ◌==◌, if◌then◌else◌, string_eq, length, second,
}
use shogunet.Prelude.Dict.{Dict, lookup, insert}

abbrev pub default_severities : Dict String String
default_severities =
    ("network_transport_exhausted", "pause")
    ∷ ("network_peer_lost", "pause")
    ∷ ("memory_sync_conflict_storm", "safe_state")
    ∷ ("audit_chain_broken", "halt")
    ∷ []

pub data Mode : Type 0 where
  normal paused safe_state halted : Mode

-- What the governor is told.
pub data Order : Type 0 where
  order_pause order_safe_state order_halt order_resume : Order

-- `orders` are those that the governor has carried out, the latest first.
pub record Controller : Type 0 where
  pub severities : Dict String String
  pub threshold : ℕ
  pub mode : Mode
  pub violations : Dict String ℕ
  pub window : List ℕ
  pub orders : List Order

-- The call returns, raises NetworkFallbackHalt, or passes on what the governor raised.
pub data Ending : Type 0 where
  returns raises_halt governor_raises : Ending

-- {**NETWORK_FALLBACK_SEVERITIES, **severities}
unfoldable pub merged : Dict String String → Dict String String → Dict String String
merged base [] = base
merged base ((kind, severity) ∷ rest) = merged (insert kind severity base) rest

unfoldable pub new_controller : Dict String String → ℕ → Controller
unfolding merged
new_controller severities threshold = record {
  severities = merged default_severities severities;
  threshold = max 1 threshold;
  mode = normal;
  violations = [];
  window = [];
  orders = [];
}

-- The governor engages first, and the mode is latched behind it.
abbrev pub latch : Bool → Order → Mode → Ending → Controller → Controller × Ending
latch engages order mode ending c =
    if engages
    then (record c { orders = order ∷ c.orders; mode = mode }, ending)
    else (c, governor_raises)

-- self._violations[kind] += 1
abbrev pub note : String → Controller → Controller
note kind c = record c {
  violations =
      insert kind (elim (lookup kind c.violations) [ none ↦ 1 | some n ↦ n + 1 ]) c.violations;
}

-- The conflicts of the last minute, with the new one.
abbrev pub recent : ℕ → List ℕ → List ℕ
recent now window = filter (λ t. leb (now - t) (60 * second)) (window ++ now ∷ [])

module _ (lower : String → String) where
  -- str(self.severities.get(kind, "pause")).lower()
  abbrev pub severity_of : String → Controller → String
  severity_of kind c = lower (elim (lookup kind c.severities) [ none ↦ "pause" | some s ↦ s ])

  unfoldable pub fire : Bool → String → Controller → Controller × Ending
  fire engages kind c =
      if severity_of kind c == "halt"
      then latch engages order_halt halted raises_halt c
      else if severity_of kind c == "safe_state"
      then latch engages order_safe_state safe_state returns c
      else latch engages order_pause paused returns c

  unfoldable pub report_violation : Bool → ℕ → String → Controller → Controller × Ending
  unfolding fire
  report_violation engages now kind c =
      let c' = note kind c in
      let c'' = record c' { window = recent now c'.window } in
      if kind == "memory_sync_conflict_storm"
      then if ltb (length c''.window) c''.threshold then (c'', returns) else fire engages kind c''
      else fire engages kind c'

-- `resume`: HALT is left to the governor, which may raise.
unfoldable pub resume : Bool → Controller → Controller × Ending
resume engages c =
    if engages
    then (
      record c { mode = normal; violations = []; window = []; orders = order_resume ∷ c.orders },
      returns,
    )
    else (c, governor_raises)
