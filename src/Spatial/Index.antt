-- ===== src/Spatial/Index.antt =====
-- `class SpatialIndex` of spatial.py, without the fusion of observations. A clock reading and an age are in
-- the unit of the timestamps.
use shogunet.Prelude.{
  ℕ, ◌+◌, ◌-◌, ◌/◌, ◌≡◌, inl, inr, String, List, [], ◌∷◌, Bool, false, ◌&&◌, ◌||◌, leb, max, ◌==◌,
  if◌then◌else◌, string_eq, nat_eq, length, filter, map, Bool-cases,
}
use shogunet.Prelude.Int.{ℤ, pos, pos_part, neg_part}
use shogunet.Security.{Unicode, sanitize_text}
use shogunet.Spatial.{
  Point, Observation, Node, leaf, branch, insert_node, collect_all, within, query_node,
}
use shogunet.Spatial.Boxes.{IsBoxed, insert_node-IsBoxed}
use shogunet.Spatial.Query.{query_node-filter}
use shogunet.Prelude.{some}

-- round(v, 6), of a coordinate and of another number
pub record Rounding : Type 0 where
  pub coordinate : ℤ → ℤ
  pub number : ℕ → ℕ

-- `_dedup_key`, behind its rounding
pub record Key : Type 0 where
  pub entity : String
  pub agent : String
  pub place : Point
  pub confidence : ℕ
  pub timestamp : ℕ
  pub frame : String
  pub label : String

unfoldable pub dedup_key : Rounding → Observation → Key
dedup_key r o = record {
  entity = o.entity_id;
  agent = o.agent_id;
  place = record {
    x = r.coordinate o.place.x;
    y = r.coordinate o.place.y;
    z = r.coordinate o.place.z;
  };
  confidence = r.number o.confidence;
  timestamp = r.number o.timestamp;
  frame = o.frame_id;
  label = o.label;
}

abbrev pub int_beq : ℤ → ℤ → Bool
int_beq a b = (pos_part a == pos_part b) && (neg_part a == neg_part b)

-- Tuples are equal field by field.
unfoldable pub key_beq : Key → Key → Bool
key_beq j k =
    (j.entity == k.entity)
    && ((j.agent == k.agent)
        && (int_beq j.place.x k.place.x
            && (int_beq j.place.y k.place.y
                && (int_beq j.place.z k.place.z
                    && ((j.confidence == k.confidence)
                        && ((j.timestamp == k.timestamp)
                            && ((j.frame == k.frame) && (j.label == k.label))))))))

-- key in self._seen
unfoldable pub seen_in : Key → List Key → Bool
unfolding key_beq
seen_in k [] = false
seen_in k (j ∷ js) = key_beq j k || seen_in k js

pub record Index : Type 0 where
  pub root : Node
  pub max_depth : ℕ
  pub per_leaf : ℕ
  pub seen : List Key
  pub inserts : ℕ
  pub queries : ℕ
  pub removed_expired : ℕ
  pub duplicates_skipped : ℕ

abbrev pub empty_root : ℕ → Node
empty_root half =
    leaf (record { centre = record { x = pos 0; y = pos 0; z = pos 0 }; half = half }) []

unfoldable pub new_index : ℕ → ℕ → ℕ → Index
new_index world_size max_depth per_leaf = record {
  root = empty_root (world_size / 2);
  max_depth = max 3 max_depth;
  per_leaf = max 1 per_leaf;
  seen = [];
  inserts = 0;
  queries = 0;
  removed_expired = 0;
  duplicates_skipped = 0;
}

abbrev pub half_of : Node → ℕ
half_of (leaf c held) = c.half
half_of (branch c held children) = c.half

unfoldable pub all_observations : Index → List Observation
unfolding collect_all
all_observations i = collect_all i.root

unfoldable pub query_sphere : Point → ℕ → Index → Index × List Observation
unfolding query_node
query_sphere q radius i = (record i { queries = i.queries + 1 }, query_node q radius i.root)

module _ (u : Unicode) where
  unfoldable pub query_entity : String → Index → List Observation
  unfolding all_observations sanitize_text
  query_entity name i =
      filter (λ o. o.entity_id == sanitize_text u (some name) 64) (all_observations i)

  unfoldable pub query_agent : String → Index → List Observation
  unfolding all_observations sanitize_text
  query_agent name i =
      filter (λ o. o.agent_id == sanitize_text u (some name) 48) (all_observations i)

unfoldable pub query_since : ℕ → Index → List Observation
unfolding all_observations
query_since since i = filter (λ o. leb since o.timestamp) (all_observations i)

module _ (r : Rounding) where
  unfoldable pub insert : Observation → Index → Index
  unfolding dedup_key seen_in insert_node
  insert o i =
      let key = dedup_key r o in
      if seen_in key i.seen
      then record i { duplicates_skipped = i.duplicates_skipped + 1 }
      else record i {
        seen = key ∷ i.seen;
        root = insert_node i.max_depth i.per_leaf o i.root;
        inserts = i.inserts + 1;
      }

  -- for o in obs: self._root.insert(o, ...)
  unfoldable pub insert_all : ℕ → ℕ → List Observation → Node → Node
  unfolding insert_node
  insert_all max_depth per_leaf [] n = n
  insert_all max_depth per_leaf (o ∷ os) n =
      insert_all max_depth per_leaf os (insert_node max_depth per_leaf o n)

  unfoldable pub rebuild : List Observation → Index → Index
  unfolding insert_all dedup_key
  rebuild os i = record i {
    root = insert_all i.max_depth i.per_leaf os (empty_root (half_of i.root));
    seen = map (dedup_key r) os;
  }

  -- `prune_expired`: an observation is fresh from the cutoff on
  unfoldable pub prune_expired : ℕ → ℕ → Index → Index × ℕ
  unfolding all_observations rebuild
  prune_expired max_age now i =
      let every = all_observations i in
      let fresh = filter (λ o. leb now (o.timestamp + max_age)) every in
      let i' = rebuild fresh i in
      let removed = length every - length fresh in
      (record i' { removed_expired = i'.removed_expired + removed }, removed)

  insert_all-IsBoxed :
      (max_depth per_leaf : ℕ) (os : List Observation) (n : Node)
      → IsBoxed n
      → IsBoxed (insert_all max_depth per_leaf os n)
  unfolding insert_all
  insert_all-IsBoxed max_depth per_leaf [] n h = h
  insert_all-IsBoxed max_depth per_leaf (o ∷ os) n h =
      insert_all-IsBoxed max_depth per_leaf os (insert_node max_depth per_leaf o n)
        (insert_node-IsBoxed per_leaf o max_depth n h)

-- What is done to an index.
pub data Use : Type 0 where
  inserts : Observation → Use
  prunes : ℕ → ℕ → Use
  queries : Point → ℕ → Use

module _ (r : Rounding) where
  abbrev use_index : Use → Index → Index
  use_index (inserts o) i = insert r o i
  use_index (prunes max_age now) i = (prune_expired r max_age now i).0
  use_index (queries q radius) i = (query_sphere q radius i).0

  unfoldable pub run : List Use → Index → Index
  unfolding insert prune_expired query_sphere
  run [] i = i
  run (call ∷ calls) i = run calls (use_index call i)

  use_index-IsBoxed : (call : Use) (i : Index) → IsBoxed i.root → IsBoxed (use_index call i).root
  unfolding insert prune_expired query_sphere rebuild
  use_index-IsBoxed (inserts o) i h = elim (Bool-cases (seen_in (dedup_key r o) i.seen)) [
    | inl old ↦ rw old h
    | inr new ↦ rw new (insert_node-IsBoxed i.per_leaf o i.max_depth i.root h)
  ]
  use_index-IsBoxed (prunes max_age now) i h =
      insert_all-IsBoxed r i.max_depth i.per_leaf
        (filter (λ o. leb now (o.timestamp + max_age)) (all_observations i))
        (empty_root (half_of i.root)) tt
  use_index-IsBoxed (queries q radius) i h = h

  run-IsBoxed : (calls : List Use) (i : Index) → IsBoxed i.root → IsBoxed (run calls i).root
  unfolding run
  run-IsBoxed [] i h = h
  run-IsBoxed (call ∷ calls) i h = run-IsBoxed calls (use_index call i) (use_index-IsBoxed call i h)

  -- However observations are inserted into a new index, expired ones pruned and spheres queried: a query
  -- answers with exactly the observations of the index that are in the sphere, in the order in which
  -- all_observations lists them. The tests that skip whole cubes lose none.
  pub query_sphere-filter :
      (calls : List Use) (world_size max_depth per_leaf radius : ℕ) (q : Point)
      → let i = run calls (new_index world_size max_depth per_leaf) in
        (query_sphere q radius i).1 ≡ filter (within q radius) (all_observations i)
  unfolding query_sphere all_observations new_index
  query_sphere-filter calls world_size max_depth per_leaf radius q =
      query_node-filter q radius _ (run-IsBoxed calls (new_index world_size max_depth per_leaf) tt)
