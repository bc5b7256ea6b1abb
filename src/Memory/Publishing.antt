-- ===== src/Memory/Publishing.antt =====
-- What `MemorySyncNode` of memory_sync.py sends: facts, reinforcements, tombstones and digests. A method
-- returns the node beside the envelopes that it hands to the chain, in order.
pub mod Sharing
use Prim.Native.String.{◌++◌ as text_append}
use shogunet.Prelude.{
  ℕ, zero, suc, ◌+◌, String, Option, none, some, List, [], ◌∷◌, ◌++◌, Bool, true, false, not, ◌&&◌,
  ◌||◌, ltb, leb, max, min, ◌==◌, if◌then◌else◌, string_eq, nat_eq, pair_eq, length, take, map,
  filter,
}
use shogunet.Prelude.Dict.{Dict, lookup, insert, elem, values}
use shogunet.Payload.{
  Value, null, bool, nat, neg, float, str, list, dict, other, Values, nil, cons, Fields, end, field,
  redact, count_fields, get_field,
}
use shogunet.Protocol.Envelope.{Stdlib, Envelope, clean}
use shogunet.Memory.{Key, Fact, Store, Numerics, foreign_key, not_negative, get_fact}
use shogunet.Memory.Reading.{is_int, truthy, get}
use shogunet.Memory.Node.{
  Profile, private, redacted, full, Node, count, put_store, private_profile, profile_for, boost_of,
}

-- What sending asks of its platform: str.lower, a vector packed as base64, the digest of a fact's key,
-- the salience rounded to three digits, the new message ids and their times, and whether the chain carries an envelope.
pub record Outside : Type 0 where
  pub lower : String → String
  pub pack_vector : List ℕ → String
  pub fact_digest : Key → String
  pub round3 : ℕ → ℕ
  pub new_msg_id : ℕ → ℕ
  pub time : ℕ → ℕ
  pub carries : Envelope → Bool

abbrev pub Sent : Type 0
Sent = Node × List Envelope

-- x or y, of two texts
abbrev pub text_or : String → String → String
text_or x y = if x == "" then y else x

-- created_at > 0, of what `store_fact` has stored
abbrev pub created_field : ℕ → Fields → Fields
created_field created rest =
    if (created == 0) then rest else field "created_at" (float created) rest

-- isinstance(metadata, dict) and 0 < len(metadata) <= 16
abbrev pub metadata_field : Fields → Fields → Fields
metadata_field metadata rest =
    if leb 1 (count_fields metadata) && leb (count_fields metadata) 16
    then field "metadata" (dict metadata) rest
    else rest

-- An entry of `digests`.
pub record Digest : Type 0 where
  pub d : String
  pub s : ℕ
  pub origin : String
  pub fact_id : Value

module _ (py : Stdlib) (num : Numerics) (unpack : Value → Option (List ℕ)) (out : Outside) where
  abbrev pub vector_field : List ℕ → Fields
  vector_field [] = end
  vector_field (x ∷ xs) = field "vector_b64" (str (out.pack_vector (x ∷ xs))) end

  -- The payload of a fact.
  unfoldable pub payload_of : Fact → String → Fields
  unfolding count_fields
  payload_of f origin = field "fact_id" f.fact_id (
      field "content" (str (clean py f.content 4096)) (
        field "kind" (str (clean py f.kind 32)) (
          field "salience" (float (not_negative f.salience)) (
            field "origin" (str origin)
              (created_field f.created_at (metadata_field f.metadata (vector_field f.vector)))))))

  -- An envelope of the node, on its memory topic; `k` numbers the message ids.
  abbrev pub envelope : String → String → String → Value → ℕ → Envelope
  envelope agent msg_type recipient payload k = record {
    msg_id = out.new_msg_id k;
    msg_type = msg_type;
    sender = agent;
    recipient = recipient;
    topic = text_append "/shugunet/" (text_append agent "/memory");
    realm = "*";
    payload = payload;
    created_at = out.time k;
  }

  -- redact(payload) if profile is SharingProfile.REDACTED else payload
  abbrev pub shared_as : Profile → Fields → Value
  shared_as redacted fs = redact out.lower (dict fs)
  shared_as _ fs = dict fs

  -- for peer in peers
  unfoldable pub send_each : ℕ → Fields → List String → Node → Sent
  unfolding profile_for
  send_each k fs [] n = (n, [])
  send_each k fs (peer ∷ peers) n =
      let profile = profile_for py num unpack peer n in
      let env =
        envelope n.store.agent_id "memory_fact" (clean py peer 48) (shared_as profile fs) k in
      let hidden = private_profile profile in
      let (n', envs) =
        send_each (if hidden then k else k + 1) fs peers
          (if hidden then n else count "facts_sent" n) in
      (n', if hidden then envs else env ∷ envs)

  -- The broadcast, with the default profile.
  unfoldable pub send_all : ℕ → Fields → Node → Sent
  send_all k fs n =
      let env = envelope n.store.agent_id "memory_fact" "*" (shared_as n.default_profile fs) k in
      if private_profile n.default_profile
      then (n, [])
      else (if out.carries env then count "facts_sent" n else n, env ∷ [])

  unfoldable pub publish_to : Option (List String) → ℕ → Fields → Node → Sent
  unfolding send_each send_all
  publish_to none k fs n = send_all k fs n
  publish_to (some peers) k fs n = send_each k fs peers n

  unfoldable pub publish_fact : ℕ → Fact → Option (List String) → Node → Sent
  unfolding publish_to payload_of
  publish_fact k f peers n =
      let origin = clean py (text_or f.origin n.store.agent_id) 48 in
      if not (origin == n.store.agent_id) || (not (is_int f.fact_id) || (f.content == ""))
      then (n, [])
      else publish_to peers k (payload_of f origin) n

  -- What is counted where the chain carries the envelope.
  abbrev pub send_counted : String → Envelope → Node → Sent
  send_counted stat env n = (if out.carries env then count stat n else n, env ∷ [])

  -- `amount` is a float.
  unfoldable pub send_reinforce : ℕ → String → String → Value → ℕ → Node → Sent
  send_reinforce k peer origin fact_id amount n =
      send_counted "reinforces_sent"
        (envelope n.store.agent_id "reinforce" peer
          (dict (
            field "origin" (str (clean py origin 48))
              (field "fact_id" fact_id (field "amount" (float (boost_of amount)) end))))
          k)
        n

  unfoldable pub publish_tombstone : ℕ → String → Value → String → Node → Sent
  publish_tombstone k origin fact_id reason n =
      send_counted "tombstones_sent"
        (envelope n.store.agent_id "tombstone" "*"
          (dict (
            field "origin" (str (clean py origin 48))
              (field "fact_id" fact_id (field "reason" (str (clean py reason 120)) end))))
          k)
        n

  unfoldable pub digests : List Fact → List Digest
  digests [] = []
  digests (f ∷ fs) =
      record {
        d = out.fact_digest (foreign_key py num f.origin f.fact_id);
        s = out.round3 f.salience;
        origin = f.origin;
        fact_id = f.fact_id;
      }
      ∷ digests fs

  abbrev pub digest_value : Digest → Value
  digest_value e = dict (
      field "d" (str e.d)
        (field "s" (float e.s) (field "origin" (str e.origin) (field "fact_id" e.fact_id end))))

  abbrev pub digest_values : List Digest → Values
  digest_values [] = nil
  digest_values (e ∷ es) = cons (digest_value e) (digest_values es)

  unfoldable pub send_digests : ℕ → String → Node → Sent
  unfolding digests
  send_digests k peer n =
      send_counted "digests_sent"
        (envelope n.store.agent_id "memory_digest" peer
          (dict (field "digests" (list (digest_values (digests (values n.store.facts)))) end)) k)
        n

  -- {str(entry["d"]) for entry in incoming if isinstance(entry, dict) and entry.get("d")}
  unfoldable pub peer_digests : Values → List String
  unfolding truthy get_field
  peer_digests nil = []
  peer_digests (cons (dict fs) vs) =
      if truthy (get "d" fs) then py.to_str (get "d" fs) ∷ peer_digests vs else peer_digests vs
  peer_digests (cons _ vs) = peer_digests vs

  -- env.payload.get("digests") or []; `none` where the loop over it raises
  unfoldable pub incoming_digests : Value → Option Values
  unfolding truthy
  incoming_digests (list vs) = some vs
  incoming_digests (dict fs) = some nil
  incoming_digests (str s) = some nil
  incoming_digests v = if truthy v then none else some nil

  -- for entry in self.store.digests(): the own facts that the peer does not have, each read once
  unfoldable pub missing_from : (ℕ → ℕ) → ℕ → List String → List Digest → Store → Store × List Fact
  unfolding get_fact
  missing_from clock i known [] st = (st, [])
  missing_from clock i known (e ∷ es) st =
      let wanted = (e.origin == st.agent_id) && not (elem e.d known) in
      let (st1, found) = get_fact (clock i) (foreign_key py num e.origin e.fact_id) st in
      let (st2, rest) = missing_from clock (i + 1) known es (if wanted then st1 else st) in
      (st2, if wanted then elim found [ none ↦ rest | some f ↦ f ∷ rest ] else rest)

  -- missing.sort(key=lambda f: f["salience"], reverse=True), which is stable
  unfoldable pub place : Fact → List Fact → List Fact
  place f [] = f ∷ []
  place f (g ∷ gs) = if leb g.salience f.salience then f ∷ g ∷ gs else g ∷ place f gs

  unfoldable pub by_salience : List Fact → List Fact
  unfolding place
  by_salience [] = []
  by_salience (f ∷ fs) = place f (by_salience fs)

  -- for fact in missing[: MAX_FACTS_PER_DIGEST]
  unfoldable pub push_all : ℕ → String → List Fact → Node → Sent
  unfolding publish_fact
  push_all k peer [] n = (n, [])
  push_all k peer (f ∷ fs) n =
      let (n1, envs) = publish_fact k f (some (peer ∷ [])) n in
      let (n2, more) = push_all (k + length envs) peer fs (count "facts_pulled" n1) in
      (n2, envs ++ more)

  unfoldable pub push_missing : (ℕ → ℕ) → String → List String → Node → Sent
  unfolding missing_from by_salience push_all digests
  push_missing clock peer known n =
      let (st, missing) = missing_from clock 0 known (digests (values n.store.facts)) n.store in
      let (n', envs) = push_all 0 peer (take 32 (by_salience missing)) (put_store st n) in
      (count "digests_received" n', envs)

  unfoldable pub on_digest : (ℕ → ℕ) → Envelope → Fields → Node → Sent
  unfolding incoming_digests peer_digests push_missing get_field
  on_digest clock env fs n = elim (incoming_digests (get "digests" fs)) [
    | none ↦ (n, [])
    | some vs ↦ push_missing clock env.sender (peer_digests vs) n
  ]
