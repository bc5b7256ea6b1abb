-- ===== src/Chain/Sending/Automaton.antt =====
-- The breaker of a transport of transport_fallback.py as an automaton, and the events of a walk of `send`.
use shogunet.Prelude.{
  ℕ, ◌+◌, ◌≤◌, ◌≡◌, refl, ap, ◌∙◌, String, Option, none, some, List, [], ◌∷◌, Bool, true, false,
  leb, if◌then◌else◌, ◌==◌, string_eq, nat_eq, arith, All,
}
use shogunet.Prelude.Dict.{lookup, lookup-insert}
use shogunet.Chain.{
  Transport, Circuit, SendReport, Chain, Platform, new_circuit, circuit_of, put_circuit,
}
use shogunet.Chain.Sending.{Outcome, returned, raised, crashed}

-- What a round does to the breaker of its transport: nothing, a failure that is noticed at a reading of the
-- clock, or a success.
pub data Event : Type 0 where
  kept : Event
  fell : ℕ → Event
  healed : Event

-- The failures in a row, and until when the breaker is open.
abbrev pub State : Type 0
State = ℕ × ℕ

abbrev pub state : Circuit → State
state c = (c.failures, c.open_until)

-- A failure that reaches the threshold opens the breaker for the cooldown.
abbrev pub move : ℕ → ℕ → Event → State → State
move threshold cooldown kept (f, u) = (f, u)
move threshold cooldown (fell now) (f, u) =
    (f + 1, if leb threshold (f + 1) then now + cooldown else u)
move threshold cooldown healed (f, u) = (0, u)

-- The events belong to the transports in order; a walk that ends early has fewer.
abbrev pub moves : ℕ → ℕ → String → List Transport → List Event → State → State
moves threshold cooldown name [] es st = st
moves threshold cooldown name (t ∷ ts) [] st = st
moves threshold cooldown name (t ∷ ts) (e ∷ es) st =
    moves threshold cooldown name ts es
      (if t.name == name then move threshold cooldown e st else st)

pub moves-nil :
    (threshold cooldown : ℕ) (name : String) (ts : List Transport) (st : State)
    → moves threshold cooldown name ts [] st ≡ st
moves-nil threshold cooldown name [] st = refl
moves-nil threshold cooldown name (t ∷ ts) st = refl

-- A failure or a success is an attempt.
abbrev pub attempts_in : List Event → ℕ
attempts_in [] = 0
attempts_in (kept ∷ es) = attempts_in es
attempts_in (fell now ∷ es) = attempts_in es + 1
attempts_in (healed ∷ es) = attempts_in es + 1

-- A report that is returned counts them; an exception leaves none.
abbrev pub Tallies : SendReport → List Event → Outcome → Type 0
Tallies r es (returned r') = r'.attempts ≡ r.attempts + attempts_in es
Tallies r es (raised e) = Unit
Tallies r es crashed = Unit

-- A failure is noticed between two times.
abbrev pub Within : ℕ → ℕ → Event → Type 0
Within start end (fell now) = (start ≤ now) × (now ≤ end)
Within start end kept = Unit
Within start end healed = Unit

-- time.monotonic() never goes backwards: `at` is the time in a state of the surroundings.
pub record IsClock {W : Type 0} (p : Platform W) (at : W → ℕ) : Type 0 where
  pub reads : (w : W) → (at w ≤ (p.monotonic w).0) × ((p.monotonic w).0 ≤ at (p.monotonic w).1)
  pub carries :
      (name recipient : String) (frame : List ℕ) (w : W)
      → at w ≤ at (p.send_frame name recipient frame w).1

-- The breakers of `s` have moved to those of `s'` by events at the transports, the failures among them
-- noticed between `start` and `end`; and the report counts these.
pub record IsMoved (start end : ℕ) (ts : List Transport) (s : Chain) (r : SendReport) (s' : Chain)
    (o : Outcome) : Type 0 where
  pub events : List Event
  pub moved :
      (name : String)
      → state (circuit_of name s')
        ≡ moves s.breaker_threshold s.breaker_cooldown name ts events (state (circuit_of name s))
  pub timely : All (Within start end) events
  pub forward : start ≤ end
  pub tallied : Tallies r events o

pub pick_true : {A : Type 0} (b : Bool) → b ≡ true → (x y : A) → (if b then x else y) ≡ x
pick_true b h x y = ap (λ (b : Bool). if b then x else y) h

pub pick_false : {A : Type 0} (b : Bool) → b ≡ false → (x y : A) → (if b then x else y) ≡ y
pick_false b h x y = ap (λ (b : Bool). if b then x else y) h

pub circuit_of-put :
    (name j : String) (c : Circuit) (s : Chain)
    → circuit_of j (put_circuit name c s) ≡ (if name == j then c else circuit_of j s)
circuit_of-put name j c s = ap read (lookup-insert name j c s.circuits) ∙ of_test (name == j)
  where
    read : Option Circuit → Circuit
    read o = elim o [ none ↦ new_circuit | some c ↦ c ]

    of_test :
        (b : Bool)
        → read (if b then some c else lookup j s.circuits) ≡ (if b then c else circuit_of j s)
    of_test true = refl
    of_test false = refl

-- A longer time admits the same.
pub Within-mono : (a b c d : ℕ) (e : Event) → a ≤ b → c ≤ d → Within b c e → Within a d e
Within-mono a b c d kept h k t = tt
Within-mono a b c d (fell now) h k t = (omega (arith, t), omega (arith, t))
Within-mono a b c d healed h k t = tt

pub All-Within : (a b c : ℕ) (es : List Event) → a ≤ b → All (Within b c) es → All (Within a c) es
All-Within a b c [] h t = tt
All-Within a b c (e ∷ es) h t =
    (Within-mono a b c c e h (omega arith) t.0, All-Within a b c es h t.1)
