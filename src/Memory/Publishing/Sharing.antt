-- ===== src/Memory/Publishing/Sharing.antt =====
-- The sharing profiles of memory_sync.py on the way out.
use shogunet.Prelude.{
  ℕ, ◌+◌, ◌≤◌, ◌≡◌, refl, sym, ap, subst, ◌∙◌, inl, inr, String, Option, none, some, List, [], ◌∷◌,
  Bool, true, false, not, ◌&&◌, ◌||◌, ◌==◌, if◌then◌else◌, string_eq, nat_eq, pair_eq, length, take,
  All, All-append, Bool-cases, Option-cases, length-append, length-take-le, arith,
}
use shogunet.Prelude.Dict.{values, lookup, elem}
use shogunet.Security.Laws.{sanitize_text_idem}
use shogunet.Payload.{Value, dict, Fields, redact}
use shogunet.Protocol.Envelope.{Stdlib, Envelope, clean}
use shogunet.Memory.{Key, Fact, Store, Numerics, foreign_key, get_fact}
use shogunet.Memory.Reading.{is_int, get}
use shogunet.Memory.Node.{Profile, redacted, Node, count, put_store, private_profile, profile_for}
use shogunet.Memory.Publishing.{
  Outside, Digest, shared_as, send_each, publish_to, publish_fact, payload_of, text_or, push_all,
  push_missing, on_digest, incoming_digests, peer_digests, missing_from, by_salience, digests,
}

module _ (py : Stdlib) (num : Numerics) (unpack : Value → Option (List ℕ)) (out : Outside) where
  -- Sent in the agent's own name to a peer that is not private; one with the profile redacted gets a payload
  -- that was redacted.
  abbrev pub Permitted : Node → Envelope → Type 0
  Permitted n env =
      (env.sender ≡ n.store.agent_id)
      × (private_profile (profile_for py num unpack env.recipient n) ≡ false)
      × (profile_for py num unpack env.recipient n ≡ redacted
          → (fs : Fields) × (env.payload ≡ redact out.lower (dict fs)))

  -- A peer's profile is that of the name which the envelope carries.
  profile_for-clean :
      (peer : String) (n : Node)
      → profile_for py num unpack (clean py peer 48) n ≡ profile_for py num unpack peer n
  unfolding profile_for
  profile_for-clean peer n =
      ap
        (λ (name : String). elim (lookup name n.profiles) as (λ _. Profile) [
          | none ↦ n.default_profile
          | some p ↦ p
        ])
        (sanitize_text_idem py.unicode (some peer) 48)

  shared_as-redacted :
      (p : Profile) (fs : Fields)
      → p ≡ redacted
      → (gs : Fields) × (shared_as py num unpack out p fs ≡ redact out.lower (dict gs))
  shared_as-redacted p fs e = (fs, rw e refl)

  send_each-Permitted :
      (k : ℕ) (fs : Fields) (peers : List String) (n : Node)
      → All (Permitted n) (send_each py num unpack out k fs peers n).1
  unfolding send_each
  send_each-Permitted k fs [] n = tt
  send_each-Permitted k fs (peer ∷ peers) n =
      let profile = profile_for py num unpack peer n in
      let same = profile_for-clean peer n in
      elim (Bool-cases (private_profile profile)) [
        | inl hidden ↦ rw hidden (send_each-Permitted k fs peers n)
        | inr shown ↦ rw shown (
          (
            refl,
            ap private_profile same ∙ shown,
            λ e. shared_as-redacted profile fs (sym same ∙ e),
          ),
          send_each-Permitted (k + 1) fs peers (count "facts_sent" n),
        )
      ]

  length-send_each-le :
      (k : ℕ) (fs : Fields) (peer : String) (n : Node)
      → length (send_each py num unpack out k fs (peer ∷ []) n).1 ≤ 1
  unfolding send_each
  length-send_each-le k fs peer n =
      elim (Bool-cases (private_profile (profile_for py num unpack peer n))) [
        | inl hidden ↦ rw hidden (omega arith)
        | inr shown ↦ rw shown (omega arith)
      ]

  -- One peer is sent at most one envelope, and it is permitted.
  abbrev OnePermitted : Node → List Envelope → Type 0
  OnePermitted n envs = All (Permitted n) envs × (length envs ≤ 1)

  publish_fact-Permitted :
      (k : ℕ) (f : Fact) (peer : String) (n : Node)
      → OnePermitted n (publish_fact py num unpack out k f (some (peer ∷ [])) n).1
  unfolding publish_fact publish_to
  publish_fact-Permitted k f peer n =
      let origin = clean py (text_or f.origin n.store.agent_id) 48 in
      elim (Bool-cases
        (not (origin == n.store.agent_id) || (not (is_int f.fact_id) || (f.content == "")))) [
          | inl refused ↦ rw refused (tt, omega arith)
          | inr fine ↦ rw fine (
            send_each-Permitted k (payload_of py num unpack out f origin) (peer ∷ []) n,
            length-send_each-le k (payload_of py num unpack out f origin) peer n,
          )
        ]

  -- Publishing changes only what the node counts.
  abbrev Quiet : Node → Node → Type 0
  Quiet n n' = n' ≡ record n { stats = n'.stats }

  send_one-Quiet :
      (k : ℕ) (fs : Fields) (peer : String) (n : Node)
      → Quiet n (send_each py num unpack out k fs (peer ∷ []) n).0
  unfolding send_each
  send_one-Quiet k fs peer n =
      elim (Bool-cases (private_profile (profile_for py num unpack peer n))) [
        | inl hidden ↦ rw hidden refl
        | inr shown ↦ rw shown refl
      ]

  publish_fact-Quiet :
      (k : ℕ) (f : Fact) (peer : String) (n : Node)
      → Quiet n (publish_fact py num unpack out k f (some (peer ∷ [])) n).0
  unfolding publish_fact publish_to
  publish_fact-Quiet k f peer n =
      let origin = clean py (text_or f.origin n.store.agent_id) 48 in
      elim (Bool-cases
        (not (origin == n.store.agent_id) || (not (is_int f.fact_id) || (f.content == "")))) [
          | inl refused ↦ rw refused refl
          | inr fine ↦ rw fine (send_one-Quiet k (payload_of py num unpack out f origin) peer n)
        ]

  push_all-Permitted :
      (k : ℕ) (peer : String) (fs : List Fact) (n : Node)
      → let envs = (push_all py num unpack out k peer fs n).1 in
        All (Permitted n) envs × (length envs ≤ length fs)
  unfolding push_all
  push_all-Permitted k peer [] n = (tt, omega arith)
  push_all-Permitted k peer (f ∷ fs) n =
      let published = publish_fact py num unpack out k f (some (peer ∷ [])) n in
      let one = publish_fact-Permitted k f peer n in
      let more =
        push_all-Permitted (k + length published.1) peer fs (count "facts_pulled" published.0) in
      let rest =
        (push_all py num unpack out (k + length published.1) peer fs
          (count "facts_pulled" published.0)).1 in
      (
        All-append (Permitted n) published.1 rest one.0
            (subst (λ m. All (Permitted m) rest) (publish_fact-Quiet k f peer n) more.0),
        omega (arith, one.1, more.1, length-append published.1 rest),
      )

  get_fact-agent_id :
      (now : ℕ) (key : Key) (st : Store) → (get_fact now key st).0.agent_id ≡ st.agent_id
  unfolding get_fact
  get_fact-agent_id now key st = elim (Option-cases (lookup key st.facts)) [
    | inl absent ↦ rw (absent, get_fact) refl
    | inr (f, found) ↦ rw (found, get_fact) refl
  ]

  if_agent_id :
      (b : Bool) (s t : Store) (agent : String)
      → s.agent_id ≡ agent
      → t.agent_id ≡ agent
      → (if b then s else t).agent_id ≡ agent
  if_agent_id true s t agent h k = h
  if_agent_id false s t agent h k = k

  missing_from-agent_id :
      (clock : ℕ → ℕ) (i : ℕ) (known : List String) (es : List Digest) (st : Store)
      → (missing_from py num unpack out clock i known es st).0.agent_id ≡ st.agent_id
  unfolding missing_from
  missing_from-agent_id clock i known [] st = refl
  missing_from-agent_id clock i known (e ∷ es) st =
      let wanted = (e.origin == st.agent_id) && not (elem e.d known) in
      let key = foreign_key py num e.origin e.fact_id in
      missing_from-agent_id clock (i + 1) known es
        (if wanted then (get_fact (clock i) key st).0 else st)
      ∙ if_agent_id wanted (get_fact (clock i) key st).0 st st.agent_id
          (get_fact-agent_id (clock i) key st) refl

  -- Whatever digest comes in, it is answered with at most 32 facts; each is sent in the
  -- node's own name, to a peer whose profile is not private, and redacted where the profile says so.
  pub on_digest-Permitted :
      (clock : ℕ → ℕ) (env : Envelope) (fs : Fields) (n : Node)
      → let envs = (on_digest py num unpack out clock env fs n).1 in
        All (Permitted n) envs × (length envs ≤ 32)
  unfolding on_digest push_missing profile_for
  on_digest-Permitted clock env fs n =
      elim (Option-cases (incoming_digests py num unpack out (get "digests" fs))) [
        | inl raises ↦ rw (raises, on_digest) (tt, omega arith)
        | inr (vs, listed) ↦
            let known = peer_digests py num unpack out vs in
            let found =
              missing_from py num unpack out clock 0 known
                (digests py num unpack out (values n.store.facts)) n.store in
            let chosen = take 32 (by_salience py num unpack out found.1) in
            let pushed = push_all-Permitted 0 env.sender chosen (put_store found.0 n) in
            let envs = (push_all py num unpack out 0 env.sender chosen (put_store found.0 n)).1 in
            rw (listed, on_digest)
              (
                subst
                    (λ (agent : String).
                      All
                        (λ (env : Envelope).
                          (env.sender ≡ agent)
                          × (private_profile (profile_for py num unpack env.recipient n) ≡ false)
                          × (profile_for py num unpack env.recipient n ≡ redacted
                              → (fs : Fields) × (env.payload ≡ redact out.lower (dict fs))))
                        envs)
                    (missing_from-agent_id clock 0 known
                      (digests py num unpack out (values n.store.facts)) n.store)
                    pushed.0,
                omega (arith, pushed.1, length-take-le 32 (by_salience py num unpack out found.1)),
              )
      ]
