-- ===== src/MeshQuery.antt =====
-- `class MeshQuery` of mesh_query.py: queries to the memories of the peers, and what comes back. Querying
-- asks and answers; here a response is collected.
pub mod Collecting
pub mod Querying
pub mod Results
use shogunet.Prelude.{
  ℕ, zero, suc, ◌+◌, String, Option, none, some, List, [], ◌∷◌, ◌++◌, Bool, true, false, not, ◌&&◌,
  ◌||◌, ltb, leb, max, ◌==◌, if◌then◌else◌, string_eq, nat_eq, pair_eq, length, take, filter, map,
}
use shogunet.Prelude.Dict.{Dict, lookup, insert, erase, elem}
use shogunet.Payload.{
  Value, null, bool, nat, neg, float, str, list, dict, other, Values, nil, cons, Fields, end, field,
  get_field,
}
use shogunet.Protocol.Envelope.{Stdlib, Envelope, clean}
use shogunet.Memory.Reading.{is_int, truthy, get, get_or_default, text_of}
use shogunet.Memory.Node.{Profile, private, redacted, full, private_profile}

-- `origin:fact_id`, as its two parts
abbrev pub Key : Type 0
Key = String × String

-- One of `results`, with the id as it came in beside `int` of it.
pub record Found : Type 0 where
  pub origin : String
  pub sent_id : Value
  pub fact_id : Value
  pub content : String
  pub kind : String
  pub salience : ℕ
  pub score : ℕ
  pub peer : String

-- An entry of `_pending`. The keys are listed with the last first.
pub record Pending : Type 0 where
  pub results : List Found
  pub keys : List Key
  pub replies : ℕ
  pub expected : ℕ

pub record Mesh : Type 0 where
  pub agent_id : String
  pub profiles : Dict String Profile
  pub default_profile : Profile
  pub pending : Dict ℕ Pending
  pub queries_sent : ℕ
  pub replies_received : ℕ
  pub queries_answered : ℕ

-- `__init__`, of a name that is not empty; the profiles are named already.
unfoldable pub new_mesh : String → Dict String Profile → Profile → Mesh
new_mesh agent_id profiles default_profile = record {
  agent_id = agent_id;
  profiles = profiles;
  default_profile = default_profile;
  pending = [];
  queries_sent = 0;
  replies_received = 0;
  queries_answered = 0;
}

module _ (py : Stdlib) where
  unfoldable pub set_profile : String → Profile → Mesh → Mesh
  set_profile peer profile m = record m { profiles = insert (clean py peer 48) profile m.profiles }

  unfoldable pub profile_for : String → Mesh → Profile
  profile_for peer m = elim (lookup (clean py peer 48) m.profiles) [
    | none ↦ m.default_profile
    | some p ↦ p
  ]

  -- int(fact_id) of an int, or of a bool, which is one
  abbrev pub int_of : Value → Value
  int_of (bool b) = nat (if b then 1 else 0)
  int_of v = v

  -- One item of a response, as it is kept; `none` where `float` raises
  abbrev pub found_of : String → Fields → Option Found
  found_of sender fs =
      elim (py.to_float (get_or_default "salience" (float 4607182418800017408) fs)) [
        | none ↦ none
        | some score ↦ some (record {
          origin = text_of py (get_or_default "origin" (str "") fs) 48;
          sent_id = get "fact_id" fs;
          fact_id = int_of (get "fact_id" fs);
          content = text_of py (get_or_default "content" (str "") fs) 2048;
          kind = text_of py (get_or_default "kind" (str "fact") fs) 32;
          salience = score;
          score = score;
          peer = clean py sender 48;
        })
      ]

  -- `key` is entered before the item is read.
  abbrev pub keep : Key → Option Found → Pending → Pending × Bool
  keep key none p = (record p { keys = key ∷ p.keys }, false)
  keep key (some f) p = (record p { keys = key ∷ p.keys; results = p.results ++ f ∷ [] }, true)

  -- An item that is a dict, and whether no exception ended the loop.
  unfoldable pub collect_item : String → Fields → Pending → Pending × Bool
  unfolding get_field
  collect_item sender fs p =
      let origin = text_of py (get_or_default "origin" (str "") fs) 48 in
      let key : Key = (origin, py.to_str (get "fact_id" fs)) in
      if (origin == "") || not (is_int (get "fact_id" fs))
      then (p, true)
      else if elem key p.keys
      then (p, true)
      else keep key (found_of sender fs) p

  -- for item in incoming
  unfoldable pub collect_items : String → Values → Pending → Pending × Bool
  unfolding collect_item
  collect_items sender nil p = (p, true)
  collect_items sender (cons (dict fs) vs) p =
      let (p', fine) = collect_item sender fs p in
      let rest = collect_items sender vs p' in if fine then rest else (p', false)
  collect_items sender (cons _ vs) p = collect_items sender vs p

  -- isinstance(correlation, int): a bool is one, and it is the key 0 or 1
  abbrev pub correlation_of : Value → Option ℕ
  correlation_of (nat n) = some n
  correlation_of (bool b) = some (if b then 1 else 0)
  correlation_of _ = none

  -- env.payload.get("results") or [], where it is a list
  abbrev pub results_of : Value → Option Values
  results_of (list vs) = some vs
  results_of v = if truthy v then none else some nil

  -- A whole response counts as a reply.
  abbrev pub count_reply : ℕ → Pending × Bool → Mesh → Mesh
  count_reply qid (p, false) m = record m { pending = insert qid p m.pending }
  count_reply qid (p, true) m = record m {
    pending = insert qid (record p { replies = p.replies + 1 }) m.pending;
    replies_received = m.replies_received + 1;
  }

  unfoldable pub collect_into : ℕ → String → Values → Mesh → Mesh
  unfolding collect_items
  collect_into qid sender vs m = elim (lookup qid m.pending) [
    | none ↦ m
    | some p ↦ count_reply qid (collect_items sender vs p) m
  ]

  unfoldable pub collect : Envelope → Fields → Mesh → Mesh
  unfolding collect_into truthy get_field
  collect env fs m = elim (correlation_of (get "correlation" fs)) [
    | none ↦ m
    | some qid ↦ elim (results_of (get "results" fs)) [
      | none ↦ m
      | some vs ↦ collect_into qid env.sender vs m
    ]
  ]
