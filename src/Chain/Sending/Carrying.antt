-- ===== src/Chain/Sending/Carrying.antt =====
-- What one round of `send` of transport_fallback.py does with the envelope.
use shogunet.Prelude.{
  none, ◌++◌, ℕ, ◌+◌, ◌≡◌, refl, ◌⊎◌, String, some, List, [], ◌∷◌, Bool, true, false, ltb, leb,
  if◌then◌else◌, ◌==◌, not, ◌&&◌, string_eq, nat_eq, length, arith, Option-cases, Bool-cases, inl,
  inr, beq_refl,
}
use shogunet.Prelude.Dict.{lookup-insert}
use shogunet.Protocol.Errors.{Error, Result, ok, err, Result-cases}
use shogunet.Protocol.Registry.{codec_json, codec_compact}
use shogunet.Protocol.Envelope.{Stdlib, Envelope}
use shogunet.Protocol.Encode.{encode}
use shogunet.Protocol.Segment.{segment_frame}
use shogunet.Transports.{chunk_size}
use shogunet.Chain.{
  Transport, Circuit, SendReport, Chain, Platform, circuit_of, put_circuit, bump, stat, is_open,
}
use shogunet.Chain.Sending.{
  returned, raised, crashed, Round, next, stop, is_protocol_error, send_pieces, trip, transmit,
  prepare, attempt, succeed, fail,
}

put_circuit-failures :
    (name : String) (c : Circuit) (s : Chain)
    → (circuit_of name (put_circuit name c s)).failures ≡ c.failures
put_circuit-failures name c s = ground (arith, lookup-insert name name c s.circuits, beq_refl name)

pub bump-stat : (key : String) (s : Chain) → stat key (bump key s) ≡ stat key s + 1
unfolding bump
bump-stat key s = ground (arith, lookup-insert key key (stat key s + 1) s.stats, beq_refl key)

pub bump-apart : (s : Chain) → stat "sent" (bump "send_failed" s) ≡ stat "sent" s
unfolding bump
bump-apart s = ground (arith, lookup-insert "send_failed" "sent" (stat "send_failed" s + 1) s.stats)

raised_apart : {b : Bool} → none ≡ some b → ⊥
raised_apart e = cc

refused_apart : some false ≡ some true → ⊥
refused_apart e = cc

taken_apart : some true ≡ some false → ⊥
taken_apart e = cc

module _ {W : Type 0} (p : Platform W) (py : Stdlib) (env : Envelope) where
  -- The medium takes all the pieces, one after the other.
  abbrev pub Takes : String → List (List ℕ) → W → Type 0
  Takes name [] w = Unit
  Takes name (piece ∷ rest) w =
      let (sent, w') = p.send_frame name env.recipient piece w in
      (sent ≡ some true) × Takes name rest w'

  -- The medium refuses one of the pieces.
  abbrev pub Refuses : String → List (List ℕ) → W → Type 0
  Refuses name [] w = ⊥
  Refuses name (piece ∷ rest) w =
      let (sent, w') = p.send_frame name env.recipient piece w in
      (sent ≡ some false) ⊎ ((sent ≡ some true) × Refuses name rest w')

  -- The codec for the medium.
  abbrev pub codec_for : Transport → ℕ
  codec_for t = if leb (chunk_size t.profile) 1024 then codec_compact else codec_json

  -- The pieces of the envelope for the medium: its frame, or the segments of one that is too long.
  pub record IsCut (t : Transport) (frames : List (List ℕ)) : Type 0 where
    pub frame : List ℕ
    pub encoded : encode py env (codec_for t) ≡ ok frame
    pub pieces :
        ((ltb (chunk_size t.profile) (length frame) ≡ false) × (frames ≡ frame ∷ []))
        ⊎ ((ltb (chunk_size t.profile) (length frame) ≡ true)
            × (t.profile.segmented ≡ true)
            × (segment_frame frame (chunk_size t.profile) ≡ ok frames))

  -- Why a transport is passed over: its breaker is open at a reading of the clock, it takes no broadcasts, or
  -- the frame is too long for it.
  abbrev pub Unfit : Transport → Chain → Type 0
  Unfit t s =
      ((w : W) × (ltb (p.monotonic w).0 (circuit_of t.name s).open_until ≡ true))
      ⊎ (((env.recipient ≡ "*") × (t.broadcast_supported ≡ false))
          ⊎ ((frame : List ℕ) × (encode py env (codec_for t) ≡ ok frame)
              × (ltb (chunk_size t.profile) (length frame) ≡ true)
              × (t.profile.segmented ≡ false)))

  -- A transport that does not carry the envelope is skipped, or attempted: then its medium refuses a piece, and
  -- one more attempt and one more failure are counted.
  abbrev pub Tried : Transport → Chain → SendReport → Chain → SendReport → Type 0
  Tried t s r s' r' =
      ((s' ≡ s) × (r' ≡ record r { skipped = r.skipped ++ t.name ∷ [] }) × Unfit t s)
      ⊎ ((r' ≡ record r { attempts = r.attempts + 1 })
          × (s'.stats ≡ s.stats)
          × ((circuit_of t.name s').failures ≡ (circuit_of t.name s).failures + 1)
          × ((frames : List (List ℕ)) × (w : W) × IsCut t frames × Refuses t.name frames w))

  -- All of the transports were tried, in order.
  abbrev pub Passed : List Transport → Chain → SendReport → Chain → SendReport → Type 0
  Passed [] s r s' r' = (s' ≡ s) × (r' ≡ r)
  Passed (t ∷ ts) s r s' r' =
      (s1 : Chain) × (r1 : SendReport) × Tried t s r s1 r1 × Passed ts s1 r1 s' r'

  -- The transport carried the envelope: its medium took all the pieces, the report says how, its failures are
  -- forgotten, and one more message is counted as sent.
  pub record IsDelivered (t : Transport) (s : Chain) (r : SendReport) (s' : Chain) (r' : SendReport)
      : Type 0 where
    pub frames : List (List ℕ)
    pub start : W
    pub cut : IsCut t frames
    pub taken : Takes t.name frames start
    pub report : r' ≡ record r {
      ok = true;
      via = some t.name;
      attempts = r.attempts + 1;
      codec = some (codec_for t);
      segmented = ltb 1 (length frames);
    }
    pub healthy : (circuit_of t.name s').failures ≡ 0
    pub counted : stat "sent" s' ≡ stat "sent" s + 1

  -- The envelope does not encode for the medium.
  abbrev pub Unencodable : Transport → Type 0
  Unencodable t = (e : Error) × (encode py env (codec_for t) ≡ err e)

  -- What a round may do.
  abbrev pub Explains : Transport → Chain → SendReport → Round W → Type 0
  Explains t s r (next s' w' r') = Tried t s r s' r'
  Explains t s r (stop s' w' (returned r')) =
      IsDelivered t s r s' r' ⊎ ((r' ≡ r) × (s' ≡ s) × Unencodable t)
  Explains t s r (stop s' w' (raised e)) = Unit
  Explains t s r (stop s' w' crashed) = Unit

  send_pieces-Takes :
      (name : String) (frames : List (List ℕ)) (w : W)
      → (send_pieces p name env.recipient frames w).0 ≡ some true
      → Takes name frames w
  unfolding send_pieces
  send_pieces-Takes name [] w h = tt
  send_pieces-Takes name (piece ∷ rest) w h =
      elim (Option-cases (p.send_frame name env.recipient piece w).0) [
        | inl raises ↦ absurd (raised_apart (rw (raises, send_pieces) at h))
        | inr (true, took) ↦ (took, send_pieces-Takes name rest _ (rw (took, send_pieces) at h))
        | inr (false, refused) ↦ absurd (refused_apart (rw (refused, send_pieces) at h))
      ]

  send_pieces-Refuses :
      (name : String) (frames : List (List ℕ)) (w : W)
      → (send_pieces p name env.recipient frames w).0 ≡ some false
      → Refuses name frames w
  unfolding send_pieces
  send_pieces-Refuses name [] w h = taken_apart h
  send_pieces-Refuses name (piece ∷ rest) w h =
      elim (Option-cases (p.send_frame name env.recipient piece w).0) [
        | inl raises ↦ absurd (raised_apart (rw (raises, send_pieces) at h))
        | inr (true, took) ↦
            inr (took, send_pieces-Refuses name rest _ (rw (took, send_pieces) at h))
        | inr (false, refused) ↦ inl refused
      ]

  trip-counts :
      (name : String) (c : Circuit) (s : Chain) (w : W)
      → ((trip p name c s w).0.stats ≡ s.stats)
        × ((circuit_of name (trip p name c s w).0).failures ≡ c.failures)
  unfolding trip
  trip-counts name c s w = elim (Bool-cases (leb s.breaker_threshold c.failures)) [
    | inl full ↦
        rw (full, trip)
          (
            refl,
            put_circuit-failures name
                (record c { open_until = (p.monotonic w).0 + s.breaker_cooldown }) s,
          )
    | inr below ↦ rw (below, trip) (refl, put_circuit-failures name c s)
  ]

  -- The circuit of the transport that carried the frames.
  abbrev carrying : Transport → List (List ℕ) → Chain → W → Circuit
  carrying t frames s w =
      let (started, w1) = p.monotonic w in
      let ended = (p.monotonic (send_pieces p t.name env.recipient frames w1).1).0 in
      succeed p (p.elapsed started ended) (circuit_of t.name s)

  transmit-Explains :
      (t : Transport) (frames : List (List ℕ)) (s : Chain) (w : W) (r : SendReport)
      → IsCut t frames
      → Explains t s r (transmit p env t (codec_for t) frames s w r)
  unfolding transmit bump
  transmit-Explains t frames s w r cut =
      elim (Option-cases (send_pieces p t.name env.recipient frames (p.monotonic w).1).0) [
        | inl raises ↦ rw (raises, transmit) tt
        | inr (false, fails) ↦
            let w3 =
              (p.monotonic (send_pieces p t.name env.recipient frames (p.monotonic w).1).1).1 in
            let counts = trip-counts t.name (fail p (circuit_of t.name s)) s w3 in
            rw (fails, transmit)
              (inr (
                refl,
                counts.0,
                counts.1,
                (
                  frames,
                  (p.monotonic w).1,
                  cut,
                  send_pieces-Refuses t.name frames (p.monotonic w).1 fails,
                ),
              ))
        | inr (true, sends) ↦
            rw (sends, transmit)
              (inl (record {
                frames = frames;
                start = (p.monotonic w).1;
                cut = cut;
                taken = send_pieces-Takes t.name frames (p.monotonic w).1 sends;
                report = refl;
                healthy = put_circuit-failures t.name (carrying t frames s w) s;
                counted = bump-stat "sent" (put_circuit t.name (carrying t frames s w) s);
              }))
      ]

  cut-Explains :
      (t : Transport) (frame : List ℕ) (s : Chain) (w : W) (r : SendReport)
      (encoded : encode py env (codec_for t) ≡ ok frame)
      (long : ltb (chunk_size t.profile) (length frame) ≡ true)
      (segmented : t.profile.segmented ≡ true) (cut : Result (List (List ℕ)))
      → segment_frame frame (chunk_size t.profile) ≡ cut
      → Explains t s r (elim cut as (λ _. Round W) [
        | err e ↦ stop s w (raised e)
        | ok frames ↦ transmit p env t (codec_for t) frames s w r
      ])
  cut-Explains t frame s w r encoded long segmented (err e) same = tt
  cut-Explains t frame s w r encoded long segmented (ok frames) same =
      transmit-Explains t frames s w r
        (record { frame = frame; encoded = encoded; pieces = inr (long, segmented, same) })

  Explains-if :
      (t : Transport) (s : Chain) (r : SendReport) (b : Bool) (x y : Round W)
      → (b ≡ true → Explains t s r x)
      → (b ≡ false → Explains t s r y)
      → Explains t s r (if b then x else y)
  Explains-if t s r true x y h k = h refl
  Explains-if t s r false x y h k = k refl

  prepare-Explains :
      (t : Transport) (s : Chain) (w : W) (r : SendReport)
      → Explains t s r (prepare p py env t s w r)
  unfolding prepare
  prepare-Explains t s w r =
      let chunk = chunk_size t.profile in
      elim (Result-cases (encode py env (codec_for t))) [
        | inl (e, fails) ↦ elim (Bool-cases (is_protocol_error e)) [
          | inl caught ↦ rw (fails, caught, prepare) (inr (refl, refl, (e, fails)))
          | inr uncaught ↦ rw (fails, uncaught, prepare) tt
        ]
        | inr (frame, encoded) ↦ elim (Bool-cases (ltb chunk (length frame))) [
          | inr fits ↦
              rw (encoded, fits, prepare)
                (transmit-Explains t (frame ∷ []) s w r
                  (record { frame = frame; encoded = encoded; pieces = inl (fits, refl) }))
          | inl long ↦
              rw (encoded, long, prepare)
                (Explains-if t s r t.profile.segmented _ _
                  (λ cuts.
                    cut-Explains t frame s w r encoded long cuts (segment_frame frame chunk) refl)
                  (λ whole. inl (refl, refl, inr (inr (frame, encoded, long, whole)))))
        ]
      ]

  pub attempt-Explains :
      (t : Transport) (s : Chain) (w : W) (r : SendReport)
      → Explains t s r (attempt p py env t s w r)
  unfolding attempt
  attempt-Explains t s w r =
      Explains-if t s r (is_open (p.monotonic w).0 (circuit_of t.name s)) _ _
        (λ shut. inl (refl, refl, inl (w, shut)))
        (λ closed.
          Explains-if t s r ((env.recipient == "*") && not t.broadcast_supported) _ _
            (λ unheard. inl (
              refl,
              refl,
              inr (inl (ground (arith, string_eq.beq_iff env.recipient "*"), ground arith)),
            ))
            (λ heard. prepare-Explains t s (p.monotonic w).1 r))
