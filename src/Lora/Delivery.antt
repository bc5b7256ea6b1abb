-- ===== src/Lora/Delivery.antt =====
-- Which frames leave the queue of the LoRa link.
use shogunet.Prelude.{
  ◌∙◌, le→not_ltb, ◌≢◌, ℕ, ◌+◌, ◌-◌, ◌<◌, ◌≤◌, ◌≡◌, refl, sym, ap, subst, inl, inr, List, [], ◌∷◌,
  true, false, ltb, leb, nat_eq, length, arith, Bool-cases, map, drop,
}
use shogunet.Protocol.Errors.{ok}
use shogunet.Protocol.Segment.{segment_frame}
use shogunet.Lora.{
  Radio, Lora, Airing, Drained, idle, deferred, broken, sent, raised, budget, airtime, wire,
  len_size, reset_window_if_needed, consume_airtime, airtime_budget_remaining, send_chunks,
  pop_sent, drain_frame, drain_outbox,
}

-- The airtime that a list of chunks takes.
abbrev pub cost : List (List ℕ) → ℕ
cost [] = 0
cost (c ∷ cs) = airtime (length c + len_size) + cost cs

-- What was written, in order.
abbrev pub bytes_of : List Airing → List (List ℕ)
bytes_of [] = []
bytes_of ((v, bytes) ∷ more) = bytes ∷ bytes_of more

-- A reset of the window leaves no less budget.
reset-budget :
    (n now : ℕ) (s : Lora)
    → n ≤ budget s - s.airtime_used
    → n ≤ budget (reset_window_if_needed now s) - (reset_window_if_needed now s).airtime_used
unfolding reset_window_if_needed
reset-budget n now s h = elim (Bool-cases (leb s.duty_window (now - s.window_start))) [
  | inl over ↦ rw over (omega arith)
  | inr stays ↦ rw stays h
]

reset-outbox : (now : ℕ) (s : Lora) → (reset_window_if_needed now s).outbox ≡ s.outbox
unfolding reset_window_if_needed
reset-outbox now s = ground arith

module _ {W : Type 0} (port : Radio W)
    (writes : (bytes : List ℕ) (w : W) → (port.write bytes w).0 ≡ true) where
  -- Every chunk is on the air, in order, and the queue is as it was.
  abbrev Carried : List (List ℕ) → Lora → Lora × W × List Airing × Drained → Type 0
  Carried cs s (s', w, airings, ending) =
      (s'.outbox ≡ s.outbox) × (bytes_of airings ≡ map wire cs) × (ending ≡ sent)

  send_chunks-Carried :
      (cs : List (List ℕ)) (s : Lora) (w : W)
      → cost cs ≤ budget s - s.airtime_used
      → Carried cs s (send_chunks port cs s w)
  unfolding send_chunks airtime_budget_remaining
  send_chunks-Carried [] s w h = (refl, refl, refl)
  send_chunks-Carried (c ∷ cs) s w h =
      let now = (port.monotonic w).0 in
      let s1 = reset_window_if_needed now s in
      let enough = reset-budget (cost (c ∷ cs)) now s h in
      let room : ltb (budget s1 - s1.airtime_used) (airtime (length c + len_size)) ≡ false =
        le→not_ltb _ _ (omega (arith, enough)) in
      let s2 = consume_airtime (length c + len_size) s1 in
      let rest =
        send_chunks-Carried cs s2 (port.write (wire c) (port.monotonic w).1).1
          (omega (arith, enough)) in
      rw (room, writes (wire c) (port.monotonic w).1)
        (rest.0 ∙ reset-outbox now s, ap (◌∷◌ (wire c)) rest.1, rest.2)

  pop_sent_lem :
      (out : Lora × W × List Airing × Drained)
      → out.3 ≡ sent
      → pop_sent port out ≡ (record (out.0) { outbox = drop 1 (out.0).outbox }, out.1, out.2, sent)
  pop_sent_lem (s, w, airings, sent) h = refl
  pop_sent_lem (s, w, airings, idle) h = cc
  pop_sent_lem (s, w, airings, deferred) h = cc
  pop_sent_lem (s, w, airings, broken) h = cc
  pop_sent_lem (s, w, airings, raised e) h = cc

  -- The first frame is gone from the queue, and is on the air.
  abbrev Leaves : List (List ℕ × ℕ) → List (List ℕ) → Lora × W × List Airing × Drained → Type 0
  Leaves rest chunks (s', w', airings, ending) =
      (s'.outbox ≡ rest) × (bytes_of airings ≡ map wire chunks) × (ending ≡ sent)

  drain_frame-Leaves :
      (frame : List ℕ) (chunks : List (List ℕ)) (s : Lora) (w : W)
      → segment_frame frame s.chunk_len ≡ ok chunks
      → cost chunks ≤ budget s - s.airtime_used
      → Leaves (drop 1 s.outbox) chunks (drain_frame port frame s w)
  unfolding drain_frame
  drain_frame-Leaves frame chunks s w cut enough =
      let out = send_chunks port chunks s w in
      let carried = send_chunks-Carried chunks s w enough in
      rw (cut, drain_frame)
        (subst (Leaves (drop 1 s.outbox) chunks) (sym (pop_sent_lem out carried.2))
          (ap (drop 1) carried.0, carried.1, refl))

  -- Where the port writes, and the budget that is left in the window covers the airtime of the first frame
  -- in the queue: one drain writes all its chunks in order, and takes it off the queue.
  pub drain_outbox-sent :
      (frame : List ℕ) (since : ℕ) (rest : List (List ℕ × ℕ)) (chunks : List (List ℕ)) (s : Lora)
      (w : W)
      → s.outbox ≡ (frame, since) ∷ rest
      → segment_frame frame s.chunk_len ≡ ok chunks
      → cost chunks ≤ budget s - s.airtime_used
      → ((drain_outbox port s w).0.outbox ≡ rest)
        × (bytes_of (drain_outbox port s w).2 ≡ map wire chunks)
        × ((drain_outbox port s w).3 ≡ sent)
  unfolding drain_outbox drain_frame
  drain_outbox-sent frame since rest chunks s w queued cut enough =
      by_queue s.outbox queued (drain_frame-Leaves frame chunks s w cut enough)
    where
      by_queue :
          (queue : List (List ℕ × ℕ))
          → queue ≡ (frame, since) ∷ rest
          → Leaves (drop 1 queue) chunks (drain_frame port frame s w)
          → Leaves rest chunks (elim queue as (λ _. Lora × W × List Airing × Drained) [
            | [] ↦ (s, w, [], idle)
            | (frame, _) ∷ _ ↦ drain_frame port frame s w
          ])
      by_queue queue same h = rw same (rw same at h)

module _ {W : Type 0} (port : Radio W) where
  reset_within :
      (now : ℕ) (s : Lora)
      → leb s.duty_window (now - s.window_start) ≡ false
      → reset_window_if_needed now s ≡ s
  unfolding reset_window_if_needed
  reset_within now s within = rw within refl

  -- The drain ends short of the last chunk, and the queue is as it was.
  abbrev Stays : Lora → Lora × W × List Airing × Drained → Type 0
  Stays s (s', w, airings, ending) = (s'.outbox ≡ s.outbox) × (ending ≢ sent)

  send_chunks-Stays :
      (cs : List (List ℕ)) (s : Lora) (w : W)
      → ((w : W) → leb s.duty_window ((port.monotonic w).0 - s.window_start) ≡ false)
      → budget s - s.airtime_used < cost cs
      → Stays s (send_chunks port cs s w)
  unfolding send_chunks airtime_budget_remaining
  send_chunks-Stays [] s w within short = absurd (omega arith)
  send_chunks-Stays (c ∷ cs) s w within short =
      let s2 = consume_airtime (length c + len_size) s in
      let w2 = (port.write (wire c) (port.monotonic w).1).1 in
      rw (reset_within (port.monotonic w).0 s (within w))
        (elim (Bool-cases (ltb (budget s - s.airtime_used) (airtime (length c + len_size)))) [
          | inl empty ↦ rw empty (refl, λ e. cc)
          | inr room ↦
              let rest = send_chunks-Stays cs s2 w2 within (ground arith) in
              elim (Bool-cases (port.write (wire c) (port.monotonic w).1).0) [
                | inl written ↦ rw (room, written) rest
                | inr fails ↦ rw (room, fails) (refl, λ e. cc)
              ]
        ])

  pop_sent-Stays :
      (s : Lora) (out : Lora × W × List Airing × Drained)
      → Stays s out
      → Stays s (pop_sent port out)
  pop_sent-Stays s (s', w, airings, sent) h = absurd (h.1 refl)
  pop_sent-Stays s (s', w, airings, idle) h = h
  pop_sent-Stays s (s', w, airings, deferred) h = h
  pop_sent-Stays s (s', w, airings, broken) h = h
  pop_sent-Stays s (s', w, airings, raised e) h = h

  drain_frame-Stays :
      (frame : List ℕ) (chunks : List (List ℕ)) (s : Lora) (w : W)
      → ((w : W) → leb s.duty_window ((port.monotonic w).0 - s.window_start) ≡ false)
      → segment_frame frame s.chunk_len ≡ ok chunks
      → budget s - s.airtime_used < cost chunks
      → Stays s (drain_frame port frame s w)
  unfolding drain_frame
  drain_frame-Stays frame chunks s w within cut short =
      rw (cut, drain_frame)
        (pop_sent-Stays s (send_chunks port chunks s w) (send_chunks-Stays chunks s w within short))

  -- Where the first frame in the queue takes more airtime than is left in the window, as a frame that takes
  -- more than a whole window's budget does in every window: a drain during which no window ends never sends
  -- it, whatever it has written of it, and the queue stays as it was.
  pub drain_outbox-stuck :
      (frame : List ℕ) (since : ℕ) (rest : List (List ℕ × ℕ)) (chunks : List (List ℕ)) (s : Lora)
      (w : W)
      → s.outbox ≡ (frame, since) ∷ rest
      → ((w : W) → leb s.duty_window ((port.monotonic w).0 - s.window_start) ≡ false)
      → segment_frame frame s.chunk_len ≡ ok chunks
      → budget s - s.airtime_used < cost chunks
      → ((drain_outbox port s w).0.outbox ≡ s.outbox) × ((drain_outbox port s w).3 ≢ sent)
  unfolding drain_outbox
  drain_outbox-stuck frame since rest chunks s w queued within cut short =
      by_queue s.outbox queued (drain_frame-Stays frame chunks s w within cut short)
    where
      by_queue :
          (queue : List (List ℕ × ℕ))
          → queue ≡ (frame, since) ∷ rest
          → Stays s (drain_frame port frame s w)
          → Stays s (elim queue as (λ _. Lora × W × List Airing × Drained) [
            | [] ↦ (s, w, [], idle)
            | (frame, _) ∷ _ ↦ drain_frame port frame s w
          ])
      by_queue queue same h = rw same h
