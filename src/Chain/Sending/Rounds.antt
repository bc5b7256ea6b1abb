-- ===== src/Chain/Sending/Rounds.antt =====
-- One round of `send` of transport_fallback.py against the breakers.
use shogunet.Prelude.{
  ℕ, ◌+◌, ◌≤◌, ◌≡◌, refl, ap, sym, ◌∙◌, String, List, [], ◌∷◌, Bool, true, false, leb, ltb,
  if◌then◌else◌, ◌==◌, not, ◌&&◌, string_eq, nat_eq, length, arith, Bool-cases, Option-cases, inl,
  inr,
}
use shogunet.Transports.{chunk_size}
use shogunet.Protocol.Errors.{Result, ok, err, Result-cases}
use shogunet.Protocol.Registry.{codec_json, codec_compact}
use shogunet.Protocol.Envelope.{Stdlib, Envelope}
use shogunet.Protocol.Encode.{encode}
use shogunet.Protocol.Segment.{segment_frame}
use shogunet.Chain.{
  Transport, Circuit, SendReport, Chain, Platform, circuit_of, put_circuit, bump, skip, is_open,
}
use shogunet.Chain.Sending.{
  returned, raised, crashed, Round, next, stop, is_protocol_error, send_pieces, trip, fail, succeed,
  counts_attempt, transmit, prepare, attempt,
}
use shogunet.Chain.Sending.Persistence.{left}
use shogunet.Chain.Sending.Automaton.{
  Event, kept, fell, healed, State, state, move, attempts_in, Tallies, Within, IsClock, pick_true,
  pick_false, circuit_of-put, Within-mono,
}

module _ {W : Type 0} (p : Platform W) (at : W → ℕ) (clock : IsClock p at) (env : Envelope) where
  abbrev pub world : Round W → W
  world (next s w r) = w
  world (stop s w o) = w

  abbrev pub Counts : SendReport → Event → Round W → Type 0
  Counts r e (next s w r') = r'.attempts ≡ r.attempts + attempts_in (e ∷ [])
  Counts r e (stop s w o) = Tallies r (e ∷ []) o

  -- A round moves the breaker of its transport by one event.
  pub record Moves (t : Transport) (s : Chain) (w : W) (r : SendReport) (round : Round W)
      : Type 0 where
    pub event : Event
    pub moved :
        (name : String)
        → state (circuit_of name (left round)) ≡ (
            if t.name == name
            then move s.breaker_threshold s.breaker_cooldown event (state (circuit_of name s))
            else state (circuit_of name s))
    pub timely : Within (at w) (at (world round)) event
    pub threshold : (left round).breaker_threshold ≡ s.breaker_threshold
    pub cooldown : (left round).breaker_cooldown ≡ s.breaker_cooldown
    pub later : at w ≤ at (world round)
    pub tallied : Counts r event round

  put_circuit-state :
      (t : Transport) (c : Circuit) (e : Event) (s : Chain)
      → state c ≡ move s.breaker_threshold s.breaker_cooldown e (state (circuit_of t.name s))
      → (name : String)
      → state (circuit_of name (put_circuit t.name c s)) ≡ (
          if t.name == name
          then move s.breaker_threshold s.breaker_cooldown e (state (circuit_of name s))
          else state (circuit_of name s))
  put_circuit-state t c e s h name = elim (Bool-cases (t.name == name)) [
    | inl same ↦
        let here : t.name ≡ name = (string_eq.beq_iff t.name name).0 same in
        let put : circuit_of name (put_circuit t.name c s) ≡ c =
          circuit_of-put t.name name c s ∙ pick_true (t.name == name) same _ _ in
        ap state put
        ∙ h
        ∙ ap
            (λ (n : String). move s.breaker_threshold s.breaker_cooldown e (state (circuit_of n s)))
            here
        ∙ sym (pick_true (t.name == name) same _ _)
    | inr other ↦
        let put : circuit_of name (put_circuit t.name c s) ≡ circuit_of name s =
          circuit_of-put t.name name c s ∙ pick_false (t.name == name) other _ _ in
        ap state put ∙ sym (pick_false (t.name == name) other _ _)
  ]

  send_pieces-later :
      (name : String) (frames : List (List ℕ)) (w : W)
      → at w ≤ at (send_pieces p name env.recipient frames w).1
  unfolding send_pieces
  send_pieces-later name [] w = omega arith
  send_pieces-later name (piece ∷ rest) w =
      elim (Option-cases (p.send_frame name env.recipient piece w).0) [
        | inl raises ↦ rw (raises, send_pieces) (clock.carries name env.recipient piece w)
        | inr (true, took) ↦
            rw (took, send_pieces)
              (omega (
                arith,
                clock.carries name env.recipient piece w,
                send_pieces-later name rest (p.send_frame name env.recipient piece w).1,
              ))
        | inr (false, refused) ↦
            rw (refused, send_pieces) (clock.carries name env.recipient piece w)
      ]

  unmoved :
      (t : Transport) (s : Chain) (name : String)
      → state (circuit_of name s) ≡ (
          if t.name == name
          then move s.breaker_threshold s.breaker_cooldown kept (state (circuit_of name s))
          else state (circuit_of name s))
  unmoved t s name = same (t.name == name) (state (circuit_of name s))
    where
      same :
          (b : Bool) (st : State)
          → st ≡ (if b then move s.breaker_threshold s.breaker_cooldown kept st else st)
      same true st = refl
      same false st = refl

  -- A round that leaves the chain alone.
  still :
      (t : Transport) (s : Chain) (w : W) (r : SendReport) (round : Round W)
      → left round ≡ s
      → at w ≤ at (world round)
      → Counts r kept round
      → Moves t s w r round
  still t s w r round same later tallied = record {
    event = kept;
    moved = λ name. ap (λ (s : Chain). state (circuit_of name s)) same ∙ unmoved t s name;
    timely = tt;
    threshold = ap (λ (s : Chain). s.breaker_threshold) same;
    cooldown = ap (λ (s : Chain). s.breaker_cooldown) same;
    later = later;
    tallied = tallied;
  }

  trip-Moves :
      (t : Transport) (s : Chain) (w w0 : W) (r : SendReport)
      → at w0 ≤ at w
      → let (s', w') = trip p t.name (fail p (circuit_of t.name s)) s w in
        Moves t s w0 r (next s' w' (counts_attempt p r))
  unfolding trip
  trip-Moves t s w w0 r since =
      let c = fail p (circuit_of t.name s) in
      let now = (p.monotonic w).0 in
      elim (Bool-cases (leb s.breaker_threshold ((circuit_of t.name s).failures + 1))) [
        | inl full ↦
            rw (full, trip)
              (record {
                event = fell now;
                moved =
                    put_circuit-state t (record c { open_until = now + s.breaker_cooldown })
                      (fell now) s
                      (ap (λ (u : ℕ). ((circuit_of t.name s).failures + 1, u))
                        (sym (pick_true _ full _ _)));
                timely = (omega (arith, since, (clock.reads w).0), (clock.reads w).1);
                threshold = refl;
                cooldown = refl;
                later = omega (arith, since, (clock.reads w).0, (clock.reads w).1);
                tallied = omega arith;
              })
        | inr below ↦
            rw (below, trip)
              (record {
                event = fell (at w);
                moved = put_circuit-state t c (fell (at w)) s (
                    ap (λ (u : ℕ). ((circuit_of t.name s).failures + 1, u))
                      (sym (pick_false _ below _ _)));
                timely = (since, omega arith);
                threshold = refl;
                cooldown = refl;
                later = since;
                tallied = omega arith;
              })
      ]

  transmit-Moves :
      (t : Transport) (codec : ℕ) (frames : List (List ℕ)) (s : Chain) (w : W) (r : SendReport)
      → Moves t s w r (transmit p env t codec frames s w r)
  unfolding transmit bump
  transmit-Moves t codec frames s w r =
      let w1 = (p.monotonic w).1 in
      let w2 = (send_pieces p t.name env.recipient frames w1).1 in
      let w3 = (p.monotonic w2).1 in
      let sent = send_pieces-later t.name frames w1 in
      let until2 : at w ≤ at w2 = omega (arith, clock.reads w, sent) in
      let until3 : at w ≤ at w3 = omega (arith, until2, clock.reads w2) in
      elim (Option-cases (send_pieces p t.name env.recipient frames w1).0) [
        | inl raises ↦ rw (raises, transmit) (still t s w r (stop s w2 crashed) refl until2 tt)
        | inr (false, fails) ↦ rw (fails, transmit) (trip-Moves t s w3 w r until3)
        | inr (true, sends) ↦
            rw (sends, transmit)
              (record {
                event = healed;
                moved =
                    put_circuit-state t
                      (succeed p (p.elapsed (p.monotonic w).0 (p.monotonic w2).0)
                        (circuit_of t.name s))
                      healed s refl;
                timely = tt;
                threshold = refl;
                cooldown = refl;
                later = until3;
                tallied = omega arith;
              })
      ]

  module _ (py : Stdlib) where
    if-Moves :
        (t : Transport) (s : Chain) (w : W) (r : SendReport) (b : Bool) (x y : Round W)
        → Moves t s w r x
        → Moves t s w r y
        → Moves t s w r (if b then x else y)
    if-Moves t s w r true x y h k = h
    if-Moves t s w r false x y h k = k

    cut-Moves :
        (t : Transport) (codec : ℕ) (cut : Result (List (List ℕ))) (s : Chain) (w : W)
        (r : SendReport)
        → Moves t s w r (elim cut as (λ _. Round W) [
          | err e ↦ stop s w (raised e)
          | ok frames ↦ transmit p env t codec frames s w r
        ])
    cut-Moves t codec (err e) s w r = still t s w r (stop s w (raised e)) refl (omega arith) tt
    cut-Moves t codec (ok frames) s w r = transmit-Moves t codec frames s w r

    prepare-Moves :
        (t : Transport) (s : Chain) (w : W) (r : SendReport)
        → Moves t s w r (prepare p py env t s w r)
    unfolding prepare
    prepare-Moves t s w r =
        let chunk = chunk_size t.profile in
        let codec = if leb chunk 1024 then codec_compact else codec_json in
        elim (Result-cases (encode py env codec)) [
          | inl (e, fails) ↦
              rw (fails, prepare)
                (if-Moves t s w r (is_protocol_error e) _ _
                  (still t s w r (stop s w (returned r)) refl (omega arith) (omega arith))
                  (still t s w r (stop s w (raised e)) refl (omega arith) tt))
          | inr (frame, encoded) ↦
              rw (encoded, prepare)
                (if-Moves t s w r (ltb chunk (length frame)) _ _
                  (if-Moves t s w r t.profile.segmented _ _
                    (cut-Moves t codec (segment_frame frame chunk) s w r)
                    (still t s w r (next s w (skip t.name r)) refl (omega arith) (omega arith)))
                  (transmit-Moves t codec (frame ∷ []) s w r))
        ]

    -- A round that begins later than `w0` moves it likewise.
    since :
        (t : Transport) (s : Chain) (w0 w : W) (r : SendReport) (round : Round W)
        → at w0 ≤ at w
        → Moves t s w r round
        → Moves t s w0 r round
    since t s w0 w r round first m = record {
      event = m.event;
      moved = m.moved;
      timely =
          Within-mono (at w0) (at w) (at (world round)) (at (world round)) m.event first
            (omega arith) m.timely;
      threshold = m.threshold;
      cooldown = m.cooldown;
      later = omega (arith, first, m.later);
      tallied = m.tallied;
    }

    pub attempt-Moves :
        (t : Transport) (s : Chain) (w : W) (r : SendReport)
        → Moves t s w r (attempt p py env t s w r)
    unfolding attempt
    attempt-Moves t s w r =
        let w' = (p.monotonic w).1 in
        let read : at w ≤ at w' = omega (arith, clock.reads w) in
        if-Moves t s w r (is_open (p.monotonic w).0 (circuit_of t.name s)) _ _
          (still t s w r (next s w' (skip t.name r)) refl read (omega arith))
          (if-Moves t s w r ((env.recipient == "*") && not t.broadcast_supported) _ _
            (still t s w r (next s w' (skip t.name r)) refl read (omega arith))
            (since t s w w' r (prepare p py env t s w' r) read (prepare-Moves t s w' r)))
