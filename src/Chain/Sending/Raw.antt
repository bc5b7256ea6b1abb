-- ===== src/Chain/Sending/Raw.antt =====
-- `send_raw` of transport_fallback.py: a frame that is encoded already goes to one recipient.
use shogunet.Prelude.{
  ℕ, ◌+◌, String, none, some, List, [], ◌∷◌, true, not, leb, if◌then◌else◌, string_eq, nat_eq,
}
use shogunet.Transports.{accepts_class}
use shogunet.Chain.{
  Transport, SendReport, Chain, Platform, new_report, circuit_of, put_circuit, bump, skip, is_open,
}
use shogunet.Chain.Ranking.{raw_candidates}
use shogunet.Chain.Sending.{Outcome, returned, Round, next, stop, counts_attempt}

module _ {W : Type 0} (p : Platform W) where
  -- One round of the loop of `send_raw`, at `now`; a failure, too, ends with the name among the
  -- skipped ones. An exception counts as a failure that opens no breaker.
  unfoldable pub raw_round : ℕ → String → List ℕ → Transport → Chain → W → SendReport → Round W
  unfolding bump accepts_class
  raw_round now recipient frame t s w r =
      let c = circuit_of t.name s in
      let failed = record c { failures = c.failures + 1 } in
      let (sent, w') = p.send_frame t.name recipient frame w in
      let lost = skip t.name (counts_attempt p r) in
      if is_open now c
      then next s w (skip t.name r)
      else if not (accepts_class t.profile 0)
      then next s w (skip t.name r)
      else elim sent [
        | none ↦ next (put_circuit t.name failed s) w' lost
        | some b ↦
            if b
            then stop (bump "sent" (put_circuit t.name (record c { failures = 0 }) s)) w'
                (returned (record r { ok = true; via = some t.name; attempts = r.attempts + 1 }))
            else if leb s.breaker_threshold failed.failures
            then next
                (bump "breaker_opened"
                  (put_circuit t.name (record failed { open_until = now + s.breaker_cooldown }) s))
                w' lost
            else next (put_circuit t.name failed s) w' lost
      ]

  unfoldable pub raw_walk :
      ℕ → String → List ℕ → List Transport → Chain → W → SendReport → Chain × W × Outcome
  unfolding raw_round bump
  raw_walk now recipient frame [] s w r = (bump "send_failed" s, w, returned r)
  raw_walk now recipient frame (t ∷ ts) s w r = elim (raw_round now recipient frame t s w r) [
    | next s' w' r' ↦ raw_walk now recipient frame ts s' w' r'
    | stop s' w' o ↦ (s', w', o)
  ]

  unfoldable pub send_raw : String → List ℕ → Chain → W → Chain × W × Outcome
  unfolding raw_walk raw_candidates
  send_raw recipient frame s w =
      let (now, w') = p.monotonic w in
      raw_walk now recipient frame (raw_candidates now s) s w' new_report
