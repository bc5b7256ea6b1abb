-- ===== src/Memory/Node.antt =====
-- `_on_envelope` of memory_sync.py and its handlers for facts, reinforcements and tombstones, on a
-- node without a backend. `clock k` is the reading of time.time() at the k-th place of the call.
pub mod Convergence
pub mod Ownership
use shogunet.Prelude.{
  ℕ, ◌+◌, String, Option, none, some, List, [], ◌∷◌, Bool, true, false, ltb, leb, max, min, ◌==◌,
  if◌then◌else◌, string_eq, nat_eq, pair_eq, not, ◌||◌, ◌&&◌,
}
use shogunet.Prelude.Dict.{Dict, lookup, insert}
use shogunet.Payload.{Value, null, nat, dict, Fields, end}
use shogunet.Protocol.Envelope.{Stdlib, Envelope, clean}
use shogunet.Memory.{
  Key, Fact, Store, Numerics, foreign_key, store_foreign, reinforce, get_fact, remove, not_negative,
}
use shogunet.Memory.Reading.{Incoming, origin_of, read_fact, is_int, is_null, get}

pub data Profile : Type 0 where
  private redacted full : Profile

-- The node of the agent `store.agent_id`; the stats are those that a call counts.
pub record Node : Type 0 where
  pub store : Store
  pub profiles : Dict String Profile
  pub default_profile : Profile
  pub tombstones : Dict Key ℕ
  pub stats : Dict String ℕ

abbrev pub count : String → Node → Node
count key n = record n {
  stats = insert key (elim (lookup key n.stats) [ none ↦ 1 | some m ↦ m + 1 ]) n.stats;
}

abbrev pub put_store : Store → Node → Node
put_store s n = record n { store = s }

-- incoming_metadata or existing.get("metadata")
abbrev pub fields_or : Fields → Fields → Fields
fields_or end old = old
fields_or (Fields.field k v fs) old = Fields.field k v fs

abbrev pub private_profile : Profile → Bool
private_profile private = true
private_profile redacted = false
private_profile full = false

-- max(0.0, min(2.0, x)), where x that is no number counts as 2.0
abbrev pub boost_of : ℕ → ℕ
boost_of x =
    if leb x 4611686018427387904
    then x
    else if leb 9223372036854775808 x && leb x 18442240474082181120
    then 0
    else 4611686018427387904

module _ (py : Stdlib) (num : Numerics) (unpack : Value → Option (List ℕ)) where
  unfoldable pub profile_for : String → Node → Profile
  profile_for peer n = elim (lookup (clean py peer 48) n.profiles) [
    | none ↦ n.default_profile
    | some p ↦ p
  ]

  -- The fact is new: store it, and read it once more.
  unfoldable pub learn : (ℕ → ℕ) → Key → Incoming → Node → Node
  unfolding store_foreign get_fact
  learn clock key i n =
      let s =
        store_foreign py num (clock 1) i.content i.kind i.vector (not_negative i.salience) i.fact_id
          i.origin i.metadata i.created n.store in
      put_store (get_fact (clock 2) key s).0 (count "facts_received" n)

  -- Another content: the later one stays, with the greater salience.
  unfoldable pub overwrite : (ℕ → ℕ) → Fact → Incoming → Node → Node
  unfolding store_foreign
  overwrite clock old i n =
      put_store
        (store_foreign py num (clock 1) i.content i.kind i.vector
          (max old.salience (not_negative i.salience)) i.fact_id i.origin
          (fields_or i.metadata old.metadata) (some old.created_at) n.store)
        (count "conflicts_resolved" n)

  -- A fact that was read, with what `get_fact` found at its key; the same content is reinforced by
  -- 0.05.
  unfoldable pub apply_fact : (ℕ → ℕ) → Key → Option Fact → Incoming → Node → Node
  unfolding learn overwrite reinforce
  apply_fact clock key none i n = learn clock key i n
  apply_fact clock key (some old) i n =
      if old.content == i.content
      then put_store (reinforce py num (clock 1) key 4587366580439587226 n.store).0 n
      else overwrite clock old i n

  unfoldable pub on_fact : (ℕ → ℕ) → Envelope → Fields → Node → Node
  unfolding apply_fact read_fact get_fact origin_of
  on_fact clock env fs n =
      let origin = origin_of py fs env in
      let key = foreign_key py num origin (get "fact_id" fs) in
      let existing = get_fact (clock 0) key n.store in
      let touched = put_store existing.0 n in
      if (origin == "") || (not (is_int (get "fact_id" fs)) || is_null (get "content" fs))
      then n
      else if origin == n.store.agent_id
      then n
      else elim (read_fact py unpack fs env) [
        | none ↦ touched
        | some i ↦ apply_fact clock key existing.1 i touched
      ]

  -- Only the origin applies a reinforcement: of at most 2.0, and 0.25 without an amount.
  unfoldable pub on_reinforce : (ℕ → ℕ) → Envelope → Fields → Node → Node
  unfolding reinforce origin_of
  on_reinforce clock env fs n =
      let origin = origin_of py fs env in
      let boost : ℕ =
        if is_null (get "amount" fs)
        then 4598175219545276416
        else elim (py.to_float (get "amount" fs)) [
          | none ↦ 4598175219545276416
          | some a ↦ boost_of a
        ] in
      let applied =
        reinforce py num (clock 0) (foreign_key py num origin (get "fact_id" fs)) boost n.store in
      if not (origin == n.store.agent_id) || not (is_int (get "fact_id" fs))
      then n
      else if applied.1
      then put_store applied.0 (count "reinforces_applied" n)
      else n

  -- Another agent's fact goes where it is there, and the tombstone is kept.
  unfoldable pub on_tombstone : (ℕ → ℕ) → Envelope → Fields → Node → Node
  unfolding remove get_fact origin_of
  on_tombstone clock env fs n =
      let origin = origin_of py fs env in
      let key = foreign_key py num origin (get "fact_id" fs) in
      let removed = count "tombstones_applied" (put_store (remove key n.store).0 n) in
      let kept : Node = elim (lookup key n.store.facts) [ none ↦ n | some f ↦ removed ] in
      if not (is_int (get "fact_id" fs)) || (origin == "")
      then n
      else if origin == n.store.agent_id
      then n
      else record kept { tombstones = insert key (clock 1) kept.tombstones }

  -- `_on_digest` sends facts over the chain: a parameter. A payload that is no dict ends the handler in an exception, which is caught.
  unfoldable pub handle :
      (Envelope → Fields → Node → Node) → (ℕ → ℕ) → Envelope → Value → Node → Node
  unfolding on_fact on_reinforce on_tombstone
  handle on_digest clock env (dict fs) n =
      if env.msg_type == "memory_fact"
      then on_fact clock env fs n
      else if env.msg_type == "reinforce"
      then on_reinforce clock env fs n
      else if env.msg_type == "tombstone"
      then on_tombstone clock env fs n
      else if env.msg_type == "memory_digest"
      then on_digest env fs n
      else n
  handle on_digest clock env _ n = n

  unfoldable pub on_envelope : (Envelope → Fields → Node → Node) → (ℕ → ℕ) → Envelope → Node → Node
  unfolding handle profile_for
  on_envelope on_digest clock env n =
      if (env.recipient == "*") || (env.recipient == n.store.agent_id)
      then if private_profile (profile_for env.sender n)
        then n
        else handle on_digest clock env env.payload n
      else n
