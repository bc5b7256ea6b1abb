-- ===== src/Chain/Sending.antt =====
-- `send` of transport_fallback.py: the walk over the transports. The pieces of one
-- round of the loop are functions of their own; a round goes on to the next transport or ends the
-- call.
pub mod Carrying
pub mod Report
pub mod Persistence
pub mod Raw
pub mod Automaton
pub mod Rounds
pub mod Breaker
use shogunet.Prelude.{
  ℕ, ◌+◌, String, Option, none, some, List, [], ◌∷◌, ◌++◌, Bool, true, false, not, ◌&&◌, ltb, leb,
  ◌==◌, if◌then◌else◌, string_eq, nat_eq, length,
}
use shogunet.Transports.{accepts_class, chunk_size}
use shogunet.Protocol.Errors.{
  Error, Result, ok, err, key_error, index_error, struct_error, out_of_fuel,
}
use shogunet.Protocol.Registry.{codec_json, codec_compact, class_of}
use shogunet.Protocol.Envelope.{Stdlib, Envelope}
use shogunet.Protocol.Encode.{encode}
use shogunet.Protocol.Segment.{segment_frame}
use shogunet.Outbox.{Outbox, enqueue}
use shogunet.Chain.{
  Transport, Circuit, SendReport, Chain, Platform, half, new_report, circuit_of, put_circuit, bump,
  skip, is_open,
}
use shogunet.Chain.Ranking.{ranked, raw_candidates}

-- A report, an exception of the codec, or an exception of a transport.
pub data Outcome : Type 0 where
  returned : SendReport → Outcome
  raised : Error → Outcome
  crashed : Outcome

-- except ProtocolError
unfoldable pub is_protocol_error : Error → Bool
is_protocol_error key_error = false
is_protocol_error index_error = false
is_protocol_error struct_error = false
is_protocol_error out_of_fuel = false
is_protocol_error _ = true

pub data Round (W : Type 0) : Type 0 where
  next : Chain → W → SendReport → Round W
  stop : Chain → W → Outcome → Round W

-- (circuit.latency_ewma or 0.5), where 0.0 is as good as none
abbrev pub ewma_or_half : Option ℕ → ℕ
ewma_or_half none = half
ewma_or_half (some l) = if l == 0 then half else l

module _ {W : Type 0} (p : Platform W) where
  -- for piece in frames: send it, until one fails
  unfoldable pub send_pieces : String → String → List (List ℕ) → W → Option Bool × W
  send_pieces name recipient [] w = (some true, w)
  send_pieces name recipient (piece ∷ rest) w =
      let (sent, w') = p.send_frame name recipient piece w in
      elim sent [
        | none ↦ (none, w')
        | some b ↦ if b then send_pieces name recipient rest w' else (some false, w')
      ]

  -- The circuit behind a send that took `latency`.
  abbrev pub succeed : ℕ → Circuit → Circuit
  succeed latency c = record c {
    failures = 0;
    latency_ewma = some (elim c.latency_ewma [ none ↦ latency | some l ↦ p.blend l latency ]);
  }

  -- The circuit behind a failed send, before the breaker is looked at.
  abbrev pub fail : Circuit → Circuit
  fail c = record c {
    failures = c.failures + 1;
    latency_ewma = some (p.add_half (ewma_or_half c.latency_ewma));
  }

  abbrev pub reports_sent : String → ℕ → Bool → SendReport → SendReport
  reports_sent name codec segmented r = record r {
    ok = true;
    via = some name;
    attempts = r.attempts + 1;
    codec = some codec;
    segmented = segmented;
  }

  abbrev pub counts_attempt : SendReport → SendReport
  counts_attempt r = record r { attempts = r.attempts + 1 }

  -- if circuit.failures >= self.breaker_threshold: open it from now on
  unfoldable pub trip : String → Circuit → Chain → W → Chain × W
  trip name c s w =
      let (now, w') = p.monotonic w in
      if leb s.breaker_threshold c.failures
      then (put_circuit name (record c { open_until = now + s.breaker_cooldown }) s, w')
      else (put_circuit name c s, w)

  -- The frames are cut: send them, and note how that went.
  unfoldable pub transmit :
      Envelope → Transport → ℕ → List (List ℕ) → Chain → W → SendReport → Round W
  unfolding send_pieces trip bump
  transmit env t codec frames s w r =
      let (started, w1) = p.monotonic w in
      let (sent, w2) = send_pieces t.name env.recipient frames w1 in
      let (ended, w3) = p.monotonic w2 in
      let c = circuit_of t.name s in
      let (s', w4) = trip t.name (fail c) s w3 in
      elim sent [
        | none ↦ stop s w2 crashed
        | some all_sent ↦
            if all_sent
            then stop (bump "sent" (put_circuit t.name (succeed (p.elapsed started ended) c) s)) w3
                (returned (reports_sent t.name codec (ltb 1 (length frames)) r))
            else next s' w4 (counts_attempt r)
      ]

  module _ (py : Stdlib) where
    -- The transport's breaker is closed and it takes the recipient: encode for it, and cut.
    unfoldable pub prepare : Envelope → Transport → Chain → W → SendReport → Round W
    unfolding transmit encode segment_frame is_protocol_error chunk_size
    prepare env t s w r =
        let chunk = chunk_size t.profile in
        let codec = if leb chunk 1024 then codec_compact else codec_json in
        elim (encode py env codec) [
          | err e ↦ if is_protocol_error e then stop s w (returned r) else stop s w (raised e)
          | ok frame ↦
              if ltb chunk (length frame)
              then if t.profile.segmented
                then elim (segment_frame frame chunk) [
                  | err e ↦ stop s w (raised e)
                  | ok frames ↦ transmit env t codec frames s w r
                ]
                else next s w (skip t.name r)
              else transmit env t codec (frame ∷ []) s w r
        ]

    -- One round of the loop of `send`.
    unfoldable pub attempt : Envelope → Transport → Chain → W → SendReport → Round W
    unfolding prepare
    attempt env t s w r =
        let (now, w') = p.monotonic w in
        if is_open now (circuit_of t.name s)
        then next s w' (skip t.name r)
        else if (env.recipient == "*") && not t.broadcast_supported
        then next s w' (skip t.name r)
        else prepare env t s w' r

    unfoldable pub walk : Envelope → List Transport → Chain → W → SendReport → Chain × W × Outcome
    unfolding attempt bump
    walk env [] s w r = (bump "send_failed" s, w, returned r)
    walk env (t ∷ ts) s w r = elim (attempt env t s w r) [
      | next s' w' r' ↦ walk env ts s' w' r'
      | stop s' w' o ↦ (s', w', o)
    ]

    -- Persist first: at_least_once, with an outbox.
    unfoldable pub persist : Envelope → Chain → W → Result (Chain × W)
    unfolding encode enqueue
    persist env s w = elim s.outbox [
      | none ↦ ok (s, w)
      | some outbox ↦ elim (encode py env codec_json) [
        | err e ↦ err e
        | ok frame ↦
            let (now, w1) = p.wall w in
            let (written, w2) = p.wal_written w1 in
            let stored =
              enqueue written now env.msg_id (some env.recipient) frame
                (("msg_type", env.msg_type) ∷ []) outbox in
            ok (record s { outbox = some stored.0 }, w2)
      ]
    ]

    -- The walk over what `_ranked` answers; `TYPE_CLASS[msg_type]` may be a KeyError.
    unfoldable pub send_ranked : Envelope → Chain → W → Chain × W × Outcome
    unfolding walk ranked
    send_ranked env s w = elim (class_of env.msg_type) [
      | none ↦ (s, w, raised key_error)
      | some priority_class ↦
          let (now, w') = p.monotonic w in walk env (ranked now priority_class s) s w' new_report
    ]

    unfoldable pub send : Envelope → Bool → Chain → W → Chain × W × Outcome
    unfolding persist send_ranked
    send env at_least_once s w =
        if at_least_once
        then elim (persist env s w) [
          | err e ↦ (s, w, raised e)
          | ok (s', w') ↦ send_ranked env s' w'
        ]
        else send_ranked env s w
