-- ===== src/Chain/Sending/Persistence.antt =====
-- What `send` of transport_fallback.py files in the outbox.
use shogunet.Prelude.{
  ℕ, ◌<◌, ◌≡◌, refl, ◌∙◌, String, Option, some, List, [], ◌∷◌, true, string_eq, nat_eq, length,
  arith, Option-cases, inl, inr, beq_refl,
}
use shogunet.Prelude.Dict.{Dict, lookup, lookup-insert}
use shogunet.Protocol.Errors.{ok}
use shogunet.Protocol.Registry.{codec_json, class_of}
use shogunet.Protocol.Envelope.{Stdlib, Envelope}
use shogunet.Protocol.Encode.{encode}
use shogunet.Outbox.{Outbox, Write, Entry, uint32, peer_or_all, enqueue}
use shogunet.Chain.{Transport, SendReport, Chain, Platform, bump, new_report}
use shogunet.Chain.Ranking.{ranked}
use shogunet.Chain.Sending.{
  Outcome, Round, next, stop, trip, transmit, prepare, attempt, walk, persist, send_ranked, send,
}

enqueue-found :
    (written : Write) (now msg_id : ℕ) (peer : Option String) (frame : List ℕ)
    (meta : Dict String String) (o : Outbox)
    → length o.pending < o.max_pending
    → lookup (uint32 msg_id) (enqueue written now msg_id peer frame meta o).0.pending
      ≡ some (record {
        msg_id = uint32 msg_id;
        peer = peer_or_all peer;
        frame = frame;
        queued_at = now;
        meta = meta;
      })
unfolding enqueue
enqueue-found written now msg_id peer frame meta o room =
    let entry : Entry = record {
      msg_id = uint32 msg_id;
      peer = peer_or_all peer;
      frame = frame;
      queued_at = now;
      meta = meta;
    } in
    ground (
      arith,
      lookup-insert (uint32 msg_id) (uint32 msg_id) entry o.pending,
      beq_refl (uint32 msg_id),
    )

-- The chain that a round leaves.
abbrev pub left : {W : Type 0} → Round W → Chain
left (next s w r) = s
left (stop s w o) = s

module _ {W : Type 0} (p : Platform W) where
  transmit-outbox :
      (env : Envelope) (t : Transport) (codec : ℕ) (frames : List (List ℕ)) (s : Chain) (w : W)
      (r : SendReport)
      → (left (transmit p env t codec frames s w r)).outbox ≡ s.outbox
  unfolding transmit trip bump
  transmit-outbox env t codec frames s w r = ground arith

  module _ (py : Stdlib) where
    attempt-outbox :
        (env : Envelope) (t : Transport) (s : Chain) (w : W) (r : SendReport)
        → (left (attempt p py env t s w r)).outbox ≡ s.outbox
    unfolding attempt prepare
    attempt-outbox env t s w r = ground (arith, transmit-outbox env t)

    walk-outbox :
        (env : Envelope) (ts : List Transport) (s : Chain) (w : W) (r : SendReport)
        → (walk p py env ts s w r).0.outbox ≡ s.outbox
    unfolding walk bump
    walk-outbox env [] s w r = refl
    walk-outbox env (t ∷ ts) s w r =
        go (attempt p py env t s w r) (attempt-outbox env t s w r) (walk-outbox env ts)
      where
        go :
            (round : Round W)
            → (left round).outbox ≡ s.outbox
            → ((s' : Chain) (w' : W) (r' : SendReport)
                → (walk p py env ts s' w' r').0.outbox ≡ s'.outbox)
            → (elim round as (λ _. Chain × W × Outcome) [
              | next s' w' r' ↦ walk p py env ts s' w' r'
              | stop s' w' o ↦ (s', w', o)
            ]).0.outbox
              ≡ s.outbox
        go (next s' w' r') e ih = ih s' w' r' ∙ e
        go (stop s' w' o) e ih = e

    send_ranked-outbox :
        (env : Envelope) (s : Chain) (w : W) → (send_ranked p py env s w).0.outbox ≡ s.outbox
    unfolding send_ranked
    send_ranked-outbox env s w = elim (Option-cases (class_of env.msg_type)) [
      | inl unknown ↦ rw (unknown, send_ranked) refl
      | inr (c, known) ↦
          let (now, w') = p.monotonic w in
          rw (known, send_ranked) (walk-outbox env (ranked now c s) s w' new_report)
    ]

    -- What is asked of an outbox: it files this frame for this recipient under the id.
    pub record Files (env : Envelope) (frame : List ℕ) (o : Option Outbox) : Type 0 where
      pub outbox : Outbox
      pub present : o ≡ some outbox
      pub entry : Entry
      pub found : lookup (uint32 env.msg_id) outbox.pending ≡ some entry
      pub same_frame : entry.frame ≡ frame
      pub same_peer : entry.peer ≡ peer_or_all (some env.recipient)

    -- After `send` at least once, on a chain whose outbox has room for the id, and for an envelope
    -- that encodes: the outbox files the JSON frame for the recipient under the message's id,
    -- whatever the transports do, raise included.
    pub send-Files :
        (env : Envelope) (frame : List ℕ) (s : Chain) (w : W) (o : Outbox)
        → s.outbox ≡ some o
        → encode py env codec_json ≡ ok frame
        → length o.pending < o.max_pending
        → Files env frame (send p py env true s w).0.outbox
    unfolding send persist
    send-Files env frame s w o there encoded room =
        let (now, w1) = p.wall w in
        let (written, w2) = p.wal_written w1 in
        let stored =
          enqueue written now env.msg_id (some env.recipient) frame
            (("msg_type", env.msg_type) ∷ []) o in
        rw (there, encoded)
          (record {
            outbox = stored.0;
            present = send_ranked-outbox env (record s { outbox = some stored.0 }) w2;
            entry = record {
              msg_id = uint32 env.msg_id;
              peer = peer_or_all (some env.recipient);
              frame = frame;
              queued_at = now;
              meta = ("msg_type", env.msg_type) ∷ [];
            };
            found = enqueue-found written now env.msg_id (some env.recipient) frame _ o room;
            same_frame = refl;
            same_peer = refl;
          })
