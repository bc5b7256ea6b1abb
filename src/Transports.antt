-- ===== src/Transports.antt =====
-- The link profiles and the shared policy of `BaseTransport`, from transports.py. Latencies are in
-- milliseconds and duty cycles in percent: both are only policy inputs.
pub mod Loopback
use shogunet.Prelude.{
  ℕ, String, Option, none, some, [], ◌∷◌, Bool, true, false, ◌||◌, leb, min, string_eq,
}
use shogunet.Prelude.Dict.{Dict, lookup}
use shogunet.Protocol.Registry.{max_envelope_bytes}

pub record LinkProfile : Type 0 where
  pub name : String
  pub kbps : ℕ
  pub latency : ℕ
  pub max_payload_bytes : ℕ
  pub duty_cycle : Option ℕ
  pub supports_ip : Bool
  pub segmented : Bool

abbrev profile : String → ℕ → ℕ → ℕ → Option ℕ → Bool → Bool → String × LinkProfile
profile name kbps latency cap duty ip segmented = (
  name,
  record {
    name = name;
    kbps = kbps;
    latency = latency;
    max_payload_bytes = cap;
    duty_cycle = duty;
    supports_ip = ip;
    segmented = segmented;
  },
)

abbrev pub link_profiles : Dict String LinkProfile
link_profiles =
    profile "loopback" 0 0 max_envelope_bytes none true false
    ∷ profile "wifi" 50000 3 1400 none true false
    ∷ profile "5g" 30000 30 1400 none true false
    ∷ profile "4g" 8000 80 1400 none true false
    ∷ profile "edge" 100 900 1400 none true false
    ∷ profile "wifi_halow" 120 150 1400 none true false
    ∷ profile "bluetooth" 250 50 990 none false false
    ∷ profile "ble" 100 100 247 none false true
    ∷ profile "lora" 5 2000 220 (some 1) false false
    ∷ []

-- `profile_for`, behind its `strip().lower()`; `none` is the ProtocolError.
unfoldable pub profile_for : String → Option LinkProfile
profile_for key = lookup key link_profiles

unfoldable pub accepts_class : LinkProfile → ℕ → Bool
accepts_class p priority_class =
    p.supports_ip || (p.segmented || (leb 1024 p.max_payload_bytes || leb priority_class 1))

unfoldable pub chunk_size : LinkProfile → ℕ
chunk_size p = min p.max_payload_bytes max_envelope_bytes
