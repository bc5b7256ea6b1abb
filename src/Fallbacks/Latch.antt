-- ===== src/Fallbacks/Latch.antt =====
-- The mode of fallbacks.py against the orders to the governor, and conflict storms.
use shogunet.Prelude.{
  ℕ, suc, ◌+◌, ◌-◌, ◌*◌, ◌≤◌, ◌≡◌, refl, String, some, List, [], ◌∷◌, ◌++◌, Bool, true, ltb, leb,
  if◌then◌else◌, string_eq, length, second, arith, All, Bool-cases, inl, inr, filter_of_All,
  length-append, All-append, map, max,
}
use shogunet.Prelude.Dict.{Dict, lookup}
use shogunet.Fallbacks.{
  Mode, normal, paused, safe_state, halted, Order, order_pause, order_safe_state, order_halt,
  order_resume, Controller, new_controller, merged, recent, fire, report_violation, resume,
}

-- The mode that an order stands for.
abbrev pub mode_of : List Order → Mode
mode_of [] = normal
mode_of (order_pause ∷ os) = paused
mode_of (order_safe_state ∷ os) = safe_state
mode_of (order_halt ∷ os) = halted
mode_of (order_resume ∷ os) = normal

-- A call of the controller, with whether the governor engages.
pub data Call : Type 0 where
  call_report : Bool → ℕ → String → Call
  call_resume : Bool → Call

module _ (lower : String → String) where
  abbrev pub call : Call → Controller → Controller
  call (call_report engages now kind) c = (report_violation lower engages now kind c).0
  call (call_resume engages) c = (resume engages c).0

  abbrev pub run : List Call → Controller → Controller
  run [] c = c
  run (k ∷ ks) c = run ks (call k c)

  fire-mode :
      (engages : Bool) (kind : String) (c : Controller)
      → c.mode ≡ mode_of c.orders
      → (fire lower engages kind c).0.mode ≡ mode_of (fire lower engages kind c).0.orders
  unfolding fire
  fire-mode engages kind c h = ground (arith, h)

  call-mode :
      (k : Call) (c : Controller)
      → c.mode ≡ mode_of c.orders
      → (call k c).mode ≡ mode_of (call k c).orders
  unfolding report_violation resume
  call-mode (call_report engages now kind) c h = ground (arith, h, fire-mode engages kind)
  call-mode (call_resume engages) c h = ground (arith, h)

  run-mode :
      (ks : List Call) (c : Controller)
      → c.mode ≡ mode_of c.orders
      → (run ks c).mode ≡ mode_of (run ks c).orders
  run-mode [] c h = h
  run-mode (k ∷ ks) c h = run-mode ks (call k c) (call-mode k c h)

  -- After any calls on a new controller, whichever of the governor's actions fail: the mode is that
  -- of the last order which the governor carried out.
  pub mode-orders :
      (severities : Dict String String) (threshold : ℕ) (ks : List Call)
      → let c = run ks (new_controller severities threshold) in c.mode ≡ mode_of c.orders
  unfolding new_controller
  mode-orders severities threshold ks = run-mode ks (new_controller severities threshold) refl

abbrev pub storm : String
storm = "memory_sync_conflict_storm"

-- Within the minute from `start`.
abbrev pub Within : ℕ → List ℕ → Type 0
Within start = All (λ t. (start ≤ t) × (t ≤ start + 60 * second))

recent-Within :
    (start now : ℕ) (window : List ℕ)
    → Within start window
    → start ≤ now
    → now ≤ start + 60 * second
    → recent now window ≡ window ++ now ∷ []
recent-Within start now window w from to =
    filter_of_All (λ t. leb (now - t) (60 * second)) (window ++ now ∷ []) (close window w)
  where
    close :
        (ts : List ℕ)
        → Within start ts
        → All (λ t. leb (now - t) (60 * second) ≡ true) (ts ++ now ∷ [])
    close [] w = (ground arith, tt)
    close (t ∷ ts) w = (ground (arith, w.0), close ts w.1)

module _ (lower : String → String) (lower_safe_state : lower "safe_state" ≡ "safe_state") where
  -- A controller whose window has `n` conflicts.
  record Stormed (start threshold n : ℕ) (c : Controller) : Type 0 where
    default : lookup storm c.severities ≡ some "safe_state"
    same : c.threshold ≡ threshold
    within : Within start c.window
    held : length c.window ≡ n
    latched : c.mode ≡ (if ltb n threshold then normal else safe_state)

  storm-step :
      (start threshold n now : ℕ) (c : Controller)
      → start ≤ now
      → now ≤ start + 60 * second
      → Stormed start threshold n c
      → Stormed start threshold (suc n) (report_violation lower true now storm c).0
  unfolding report_violation fire
  storm-step start threshold n now c from to s =
      let w : recent now c.window ≡ c.window ++ now ∷ [] =
        recent-Within start now c.window s.within from to in
      let inside : Within start (recent now c.window) = rw w (
        All-append (λ t. (start ≤ t) × (t ≤ start + 60 * second)) c.window (now ∷ []) s.within
          ((from, to), tt)) in
      let held : length (recent now c.window) ≡ suc n =
        rw w (omega (arith, length-append c.window (now ∷ []), s.held)) in
      elim (Bool-cases (ltb (length (recent now c.window)) c.threshold)) [
        | inl few ↦
            rw (few, report_violation)
              (record {
                default = s.default;
                same = s.same;
                within = inside;
                held = held;
                latched = ground (arith, held, few, s.latched, s.same);
              })
        | inr many ↦
            rw (many, report_violation, s.default, fire, lower_safe_state)
              (record {
                default = s.default;
                same = s.same;
                within = inside;
                held = held;
                latched = ground (arith, held, many, s.same);
              })
      ]

  storm-run :
      (start threshold n : ℕ) (ts : List ℕ) (c : Controller)
      → Within start ts
      → Stormed start threshold n c
      → Stormed start threshold
          (n + length ts)
          (run lower (map (λ t. call_report true t storm) ts) c)
  storm-run start threshold n [] c w s = let e : n + 0 ≡ n = omega arith in rw e s
  storm-run start threshold n (t ∷ ts) c w s =
      let e : n + suc (length ts) ≡ suc n + length ts = omega arith in
      rw e (
        storm-run start threshold (suc n) ts (report_violation lower true t storm c).0 w.1
          (storm-step start threshold n t c w.0.0 w.0.1 s))

  -- Conflict storms reported within one minute, to a new controller with the default severities and a
  -- governor that engages: the mode stays normal below the threshold, and is safe_state from the
  -- threshold on.
  pub storm-mode :
      (start threshold : ℕ) (ts : List ℕ)
      → Within start ts
      → (run lower (map (λ t. call_report true t storm) ts) (new_controller [] threshold)).mode
        ≡ (if ltb (length ts) (max 1 threshold) then normal else safe_state)
  unfolding new_controller merged
  storm-mode start threshold ts w =
      let e : length ts ≡ 0 + length ts = omega arith in
      rw e
        (storm-run start (max 1 threshold) 0 ts (new_controller [] threshold) w (record {
          default = refl;
          same = refl;
          within = tt;
          held = refl;
          latched = ground arith;
        })).latched
