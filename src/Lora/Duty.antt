-- ===== src/Lora/Duty.antt =====
-- The duty cycle of lora_transport.py over its windows.
use shogunet.Prelude.{
  ℕ, ◌+◌, ◌<◌, ◌≤◌, ◌≡◌, List, [], ◌∷◌, ◌++◌, ◌==◌, if◌then◌else◌, nat_eq, length,
}
use shogunet.Protocol.Envelope.{Stdlib}
use shogunet.Lora.{Radio, Lora, Airing, Drained, budget, airtime, send_frame, poll}

-- The airtime of what was written in the duty window that starts at `v`.
abbrev pub spent : ℕ → List Airing → ℕ
spent v [] = 0
spent v ((u, bytes) ∷ aired) = (if u == v then airtime (length bytes) else 0) + spent v aired

-- The link has used at least the airtime of what it wrote in this window, and wrote nothing later; no
-- window carries more than `cap`.
pub record IsWithin (cap : ℕ) (s : Lora) (aired : List Airing) : Type 0 where
  pub allowance : budget s ≡ cap
  pub windowed : 0 < s.duty_window
  pub used : spent s.window_start aired ≤ s.airtime_used
  pub bounded : s.airtime_used ≤ cap
  pub each : (v : ℕ) → spent v aired ≤ cap
  pub future : (v : ℕ) → s.window_start < v → spent v aired ≡ 0

module _ (cap : ℕ) where
  module _ {W : Type 0} (port : Radio W) where
    -- What the chunks leave, for every trace so far.
    abbrev Kept : List Airing → Lora × W × List Airing × Drained → Type 0
    Kept aired (s, w, more, ending) = IsWithin cap s (aired ++ more)

-- A use of the transport: a frame is queued, or the link is polled.
pub data Use : Type 0 where
  queue : List ℕ → ℕ → Use
  poll_once : Use

module _ {W : Type 0} (port : Radio W) (py : Stdlib) where
  -- The uses one after the other, with all that was written.
  pub run : List Use → Lora → W → Lora × W × List Airing
  run [] s w = (s, w, [])
  run (queue frame now ∷ uses) s w = run uses (send_frame frame now s).0 w
  run (poll_once ∷ uses) s w =
      let (s1, w1, _, airings, _) = poll port py s w in
      let (s2, w2, more) = run uses s1 w1 in (s2, w2, airings ++ more)
