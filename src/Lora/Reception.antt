-- ===== src/Lora/Reception.antt =====
-- What the receiver of the LoRa link leaves alone.
use shogunet.Prelude.{
  ℕ, zero, suc, ◌≡◌, refl, ap, ◌∙◌, inl, inr, Option, none, some, List, [], ◌∷◌, ◌++◌, ◌==◌, nat_eq,
  length, Bool-cases,
}
use shogunet.Protocol.Errors.{Result, ok, err, Result-cases}
use shogunet.Protocol.Envelope.{Stdlib}
use shogunet.Protocol.Decode.{decode}
use shogunet.Protocol.Assembler.{Assembler, add}
use shogunet.Chain.Sending.{is_protocol_error}
use shogunet.Lora.{
  Radio, Lora, Heard, Cut, starved, oversized, framed, next_frame, handle_frame, decode_frame,
  receive, pump_receiver,
}

-- Only the buffer, the assembler and the peers may differ.
abbrev pub Receives : Lora → Lora → Type 0
Receives s s' = s' ≡ record s { assembler = s'.assembler; recv_buf = s'.recv_buf; peers = s'.peers }

-- The buffer stays, too.
abbrev pub Handles : Lora → Lora → Type 0
Handles s s' = s' ≡ record s { assembler = s'.assembler; peers = s'.peers }

module _ {W : Type 0} (port : Radio W) (py : Stdlib) where
  decode_frame-Handles :
      (whole : List ℕ) (s : Lora) (w : W) → Handles s (decode_frame port py whole s w).0
  unfolding decode_frame
  decode_frame-Handles whole s w = elim (Result-cases (decode py (port.wall w).0 whole)) [
    | inr (env, decoded) ↦ rw (decoded, decode_frame) refl
    | inl (e, fails) ↦ elim (Bool-cases (is_protocol_error e)) [
      | inl caught ↦ rw (fails, decode_frame) (rw caught refl)
      | inr uncaught ↦ rw (fails, decode_frame) (rw uncaught refl)
    ]
  ]

  pub handle_frame-Handles :
      (frame : List ℕ) (s : Lora) (w : W) → Handles s (handle_frame port py frame s w).0
  unfolding handle_frame
  handle_frame-Handles frame s w =
      let now = (port.monotonic w).0 in
      by_answer (add now frame s.assembler).0 (add now frame s.assembler).1
    where
      by_answer :
          (a : Assembler) (assembled : Result (Option (List ℕ)))
          → let s1 = record s { assembler = a } in
            Handles s
              (elim assembled as (λ _. Lora × W × Result (Option Heard)) [
                | err e ↦ (s1, (port.monotonic w).1, err e)
                | ok none ↦ (s1, (port.monotonic w).1, ok none)
                | ok (some whole) ↦ decode_frame port py whole s1 (port.monotonic w).1
              ]).0
      by_answer a (err e) = refl
      by_answer a (ok none) = refl
      by_answer a (ok (some whole)) =
          decode_frame-Handles whole (record s { assembler = a }) (port.monotonic w).1

  receive-Receives : (fuel : ℕ) (s : Lora) (w : W) → Receives s (receive port py fuel s w).0
  unfolding receive
  receive-Receives zero s w = refl
  receive-Receives (suc fuel) s w = by_cut (next_frame s.recv_buf) (receive-Receives fuel)
    where
      later :
          (s1 s2 : Lora) (rest : List ℕ)
          → Handles (record s { recv_buf = rest }) s1
          → Receives s1 s2
          → Receives s s2
      later s1 s2 rest h k =
          k
          ∙ ap
              (λ (t : Lora). record t {
                assembler = s2.assembler;
                recv_buf = s2.recv_buf;
                peers = s2.peers;
              })
              h

      by_answer :
          (frame rest : List ℕ) (s1 : Lora) (w1 : W) (answer : Result (Option Heard))
          → Handles (record s { recv_buf = rest }) s1
          → ((s' : Lora) (w' : W) → Receives s' (receive port py fuel s' w').0)
          → Receives s
              (elim answer as (λ _. Lora × W × List (List ℕ × Result (Option Heard))) [
                | err e ↦ (s1, w1, (frame, err e) ∷ [])
                | ok heard ↦
                    let (s2, w2, more) = receive port py fuel s1 w1 in
                    (s2, w2, (frame, ok heard) ∷ more)
              ]).0
      by_answer frame rest s1 w1 (err e) h ih = later s1 s1 rest h refl
      by_answer frame rest s1 w1 (ok heard) h ih =
          later s1 (receive port py fuel s1 w1).0 rest h (ih s1 w1)

      by_cut :
          (cut : Cut)
          → ((s' : Lora) (w' : W) → Receives s' (receive port py fuel s' w').0)
          → Receives s
              (elim cut as (λ _. Lora × W × List (List ℕ × Result (Option Heard))) [
                | starved ↦ (s, w, [])
                | oversized ↦ (record s { recv_buf = [] }, w, [])
                | framed frame rest ↦
                    let (s1, w1, answer) =
                      handle_frame port py frame (record s { recv_buf = rest }) w in
                    elim answer as (λ _. Lora × W × List (List ℕ × Result (Option Heard))) [
                      | err e ↦ (s1, w1, (frame, err e) ∷ [])
                      | ok heard ↦
                          let (s2, w2, more) = receive port py fuel s1 w1 in
                          (s2, w2, (frame, ok heard) ∷ more)
                    ]
              ]).0
      by_cut starved ih = refl
      by_cut oversized ih = refl
      by_cut (framed frame rest) ih =
          let s0 = record s { recv_buf = rest } in
          let handled = handle_frame port py frame s0 w in
          by_answer frame rest handled.0 handled.1 handled.2 (handle_frame-Handles frame s0 w) ih

  pub pump_receiver-Receives : (s : Lora) (w : W) → Receives s (pump_receiver port py s w).0
  unfolding pump_receiver
  pump_receiver-Receives s w = elim (Bool-cases (length (port.read w).0 == 0)) [
    | inl quiet ↦ rw quiet refl
    | inr busy ↦
        let s' = record s { recv_buf = s.recv_buf ++ (port.read w).0 } in
        rw busy (receive-Receives (suc (length s'.recv_buf)) s' (port.read w).1)
  ]
