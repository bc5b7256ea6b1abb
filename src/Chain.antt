-- ===== src/Chain.antt =====
-- `class TransportChain` of transport_fallback.py: its state, and the surroundings of its calls.
pub mod Ranking
pub mod Sending
pub mod Receiving
use shogunet.Prelude.{
  ℕ, ◌+◌, String, Option, none, some, List, [], ◌∷◌, ◌++◌, Bool, false, ltb, max, string_eq,
}
use shogunet.Prelude.Dict.{Dict, lookup, insert}
use shogunet.Transports.{LinkProfile}
use shogunet.Protocol.Envelope.{Envelope}
use shogunet.Protocol.Assembler.{Assembler}
use shogunet.Outbox.{Outbox, Write}
use shogunet.Inbox.{Inbox}

-- What the chain reads of a transport.
pub record Transport : Type 0 where
  pub name : String
  pub profile : LinkProfile
  pub broadcast_supported : Bool

-- `open_until` is in milliseconds of the monotonic clock. `latency_ewma` is the bit pattern of a
-- double that is not negative: the order of the patterns is that of the doubles.
pub record Circuit : Type 0 where
  pub failures : ℕ
  pub open_until : ℕ
  pub latency_ewma : Option ℕ

pub record SendReport : Type 0 where
  pub ok : Bool
  pub via : Option String
  pub attempts : ℕ
  pub skipped : List String
  pub codec : Option ℕ
  pub segmented : Bool

pub record Chain : Type 0 where
  pub agent_id : String
  pub transports : List Transport
  pub outbox : Option Outbox
  pub breaker_threshold : ℕ
  pub breaker_cooldown : ℕ
  pub circuits : Dict String Circuit
  pub inbox : Inbox
  pub assembler : Assembler
  pub stats : Dict String ℕ

-- What a call meets outside: clocks, the transports' media, the outbox file. `W` is the state of all
-- that. `send_frame` is `none` where the transport raises. The floats' arithmetic is on bit patterns:
-- `elapsed` is the difference of two readings in seconds, `blend a b` is 0.8 * a + 0.2 * b and
-- `add_half a` is a + 0.5.
pub record Platform (W : Type 0) : Type 0 where
  pub monotonic : W → ℕ × W
  pub wall : W → ℕ × W
  pub wal_written : W → Write × W
  pub send_frame : String → String → List ℕ → W → Option Bool × W
  pub elapsed : ℕ → ℕ → ℕ
  pub blend : ℕ → ℕ → ℕ
  pub add_half : ℕ → ℕ

abbrev pub half : ℕ
half = 4602678819172646912

-- SendReport(ok=False)
abbrev pub new_report : SendReport
new_report = record {
  ok = false;
  via = none;
  attempts = 0;
  skipped = [];
  codec = none;
  segmented = false;
}

abbrev pub new_circuit : Circuit
new_circuit = record { failures = 0; open_until = 0; latency_ewma = none }

-- self._circuits[name]: the constructor makes one for every transport
abbrev pub circuit_of : String → Chain → Circuit
circuit_of name s = elim (lookup name s.circuits) [ none ↦ new_circuit | some c ↦ c ]

abbrev pub put_circuit : String → Circuit → Chain → Chain
put_circuit name c s = record s { circuits = insert name c s.circuits }

-- self._stats.get(key, 0)
abbrev pub stat : String → Chain → ℕ
stat key s = elim (lookup key s.stats) [ none ↦ 0 | some n ↦ n ]

unfoldable pub bump : String → Chain → Chain
bump key s = record s { stats = insert key (stat key s + 1) s.stats }

-- report.skipped.append(name)
abbrev pub skip : String → SendReport → SendReport
skip name report = record report { skipped = report.skipped ++ name ∷ [] }

-- circuit.open_until > now
abbrev pub is_open : ℕ → Circuit → Bool
is_open now c = ltb now c.open_until
