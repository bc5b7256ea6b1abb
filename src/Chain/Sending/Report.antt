-- ===== src/Chain/Sending/Report.antt =====
-- The report of `send` of transport_fallback.py against the walk.
use shogunet.Prelude.{
  ◌++◌, ℕ, ◌+◌, ◌≡◌, refl, ap, ◌⊎◌, some, List, [], ◌∷◌, Bool, true, string_eq, nat_eq, All, filter,
  filter-All, inl, inr,
}
use shogunet.Protocol.Registry.{class_of}
use shogunet.Protocol.Envelope.{Stdlib, Envelope}
use shogunet.Transports.{accepts_class}
use shogunet.Chain.{Transport, SendReport, Chain, Platform, stat, new_report}
use shogunet.Chain.Ranking.{ranked, rank}
use shogunet.Chain.Ranking.Order.{All-sorted}
use shogunet.Chain.Sending.{
  Outcome, returned, raised, crashed, Round, next, stop, attempt, walk, send_ranked,
}
use shogunet.Chain.Sending.Carrying.{
  bump-stat, bump-apart, Tried, Passed, IsDelivered, Unencodable, Explains, attempt-Explains,
}

module _ {W : Type 0} (p : Platform W) (py : Stdlib) (env : Envelope) where
  -- The walk came to a transport behind others, which were all tried, and ended there.
  abbrev pub Reached :
      List Transport → Chain → SendReport → (Transport → Chain → SendReport → Type 0) → Type 0
  Reached ts s r E =
      (before : List Transport) × (t : Transport) × (after : List Transport) × (s1 : Chain)
      × (r1 : SendReport) × (ts ≡ before ++ t ∷ after)
      × Passed p py env before s r s1 r1
      × E t s1 r1

  -- How a walk over the transports `ts` may end.
  abbrev pub Ends : List Transport → Chain → SendReport → Chain → Outcome → Type 0
  Ends ts s r s' (returned r') =
      Reached ts s r (λ t s1 r1. IsDelivered p py env t s1 r1 s' r')
      ⊎ (Reached ts s r (λ t s1 r1. (r' ≡ r1) × (s' ≡ s1) × Unencodable p py env t)
          ⊎ ((s1 : Chain) × Passed p py env ts s r s1 r'
              × (stat "send_failed" s' ≡ stat "send_failed" s1 + 1)
              × (stat "sent" s' ≡ stat "sent" s1)))
  Ends ts s r s' (raised e) = Unit
  Ends ts s r s' crashed = Unit

  further :
      (E : Transport → Chain → SendReport → Type 0) (t : Transport) (ts : List Transport)
      (s s1 : Chain) (r r1 : SendReport)
      → Tried p py env t s r s1 r1
      → Reached ts s1 r1 E
      → Reached (t ∷ ts) s r E
  further E t ts s s1 r r1 tried (before, u, after, s2, r2, split, passed, e) =
      (t ∷ before, u, after, s2, r2, ap (◌∷◌ t) split, (s1, r1, tried, passed), e)

  follows :
      (t : Transport) (ts : List Transport) (s s1 s' : Chain) (r r1 : SendReport) (o : Outcome)
      → Tried p py env t s r s1 r1
      → Ends ts s1 r1 s' o
      → Ends (t ∷ ts) s r s' o
  follows t ts s s1 s' r r1 (returned r') tried (inl there) =
      inl (further _ t ts s s1 r r1 tried there)
  follows t ts s s1 s' r r1 (returned r') tried (inr (inl there)) =
      inr (inl (further _ t ts s s1 r r1 tried there))
  follows t ts s s1 s' r r1 (returned r') tried (inr (inr (s2, passed, failed, sent))) =
      inr (inr (s2, (s1, r1, tried, passed), failed, sent))
  follows t ts s s1 s' r r1 (raised e) tried h = tt
  follows t ts s s1 s' r r1 crashed tried h = tt

  walk-Ends :
      (ts : List Transport) (s : Chain) (w : W) (r : SendReport)
      → let (s', w', o) = walk p py env ts s w r in Ends ts s r s' o
  unfolding walk
  walk-Ends [] s w r = inr (inr (s, (refl, refl), bump-stat "send_failed" s, bump-apart s))
  walk-Ends (t ∷ ts) s w r =
      go (attempt p py env t s w r) (attempt-Explains p py env t s w r)
        (λ s' w' r'. walk-Ends ts s' w' r')
    where
      go :
          (round : Round W)
          → Explains p py env t s r round
          → ((s' : Chain) (w' : W) (r' : SendReport)
              → let (s'', w'', o) = walk p py env ts s' w' r' in Ends ts s' r' s'' o)
          → let (s'', w'', o) = elim round as (λ _. Chain × W × Outcome) [
            | next s' w' r' ↦ walk p py env ts s' w' r'
            | stop s' w' o ↦ (s', w', o)
          ] in
            Ends (t ∷ ts) s r s'' o
      go (next s' w' r') tried ih =
          follows t ts s s' (walk p py env ts s' w' r').0 r r' (walk p py env ts s' w' r').2 tried
            (ih s' w' r')
      go (stop s' w' (returned r')) (inl delivered) ih =
          inl ([], t, ts, s, r, refl, (refl, refl), delivered)
      go (stop s' w' (returned r')) (inr un) ih =
          inr (inl ([], t, ts, s, r, refl, (refl, refl), un))
      go (stop s' w' (raised e)) x ih = tt
      go (stop s' w' crashed) x ih = tt

  -- What a report says that a walk over the ranked transports returns. All of these but for the
  -- ones behind the last that it came to were tried in order: each was skipped for a reason and is named, or was
  -- attempted, its medium refused a piece, and one more attempt and one more failure are counted. Then either the
  -- medium of the next took all pieces of the envelope, the report says so, its failures are forgotten and one
  -- more message is counted as sent; or the envelope does not encode for it; or there was none, and one more failed
  -- send is counted and none as sent.
  pub send_ranked-Ends :
      (c : ℕ) (s : Chain) (w : W)
      → class_of env.msg_type ≡ some c
      → let (s', w', o) = send_ranked p py env s w in
        Ends (ranked (p.monotonic w).0 c s) s new_report s' o
        × All (λ t. accepts_class t.profile c ≡ true) (ranked (p.monotonic w).0 c s)
  unfolding send_ranked ranked
  send_ranked-Ends c s w known =
      let (now, w') = p.monotonic w in
      let accepts : Transport → Bool = λ t. accepts_class t.profile c in
      rw (known, send_ranked)
        (
          walk-Ends (ranked now c s) s w' new_report,
          All-sorted (rank now s) (λ t. accepts t ≡ true) (filter accepts s.transports)
              (filter-All accepts s.transports),
        )
