-- ===== src/Spatial.antt =====
-- The octree of spatial.py, and `SpatialIndex` over it. Coordinates and lengths are integers in a unit in
-- which every half that the tree takes is whole; they are floats in the program.
pub mod Boxes
pub mod Index
pub mod Query
use shogunet.Prelude.{
  ℕ, zero, suc, ◌+◌, ◌-◌, ◌*◌, ◌/◌, String, Option, none, some, List, [], ◌∷◌, ◌++◌, Bool, true,
  false, not, ◌&&◌, ◌||◌, ltb, leb, max, ◌==◌, if◌then◌else◌, string_eq, nat_eq, length, filter,
  map,
}
use shogunet.Prelude.Dict.{Dict, lookup, insert, values, elem}
use shogunet.Prelude.Int.{ℤ, pos, negsuc, ◌+ℤ◌, ◌-ℤ◌, ltb_ℤ, abs, square}

pub record Point : Type 0 where
  pub x : ℤ
  pub y : ℤ
  pub z : ℤ

-- `SpatialObservation`, less what is only carried along: orientation, size and metadata.
pub record Observation : Type 0 where
  pub entity_id : String
  pub agent_id : String
  pub place : Point
  pub confidence : ℕ
  pub timestamp : ℕ
  pub frame_id : String
  pub label : String

-- The cube of a node: its centre, and half of its side.
pub record Cube : Type 0 where
  pub centre : Point
  pub half : ℕ

-- `_OctreeNode`: `leaf` where `children` is None. `size` is written and never read.
mutual
  pub data Node : Type 0 where
    leaf : Cube → Dict String (List Observation) → Node
    branch : Cube → Dict String (List Observation) → Nodes → Node

  pub data Nodes : Type 0 where
    nil : Nodes
    cons : Node → Nodes → Nodes

-- `_contains`
unfoldable pub contains : Cube → Point → Bool
unfolding ◌-ℤ◌
contains c p =
    leb (abs (c.centre.x -ℤ p.x)) c.half
    && (leb (abs (c.centre.y -ℤ p.y)) c.half && leb (abs (c.centre.z -ℤ p.z)) c.half)

abbrev pub shift : Bool → ℤ → ℕ → ℤ
shift up c off = if up then c +ℤ pos off else c -ℤ pos off

-- One child of `_subdivide`.
abbrev pub octant : Cube → Bool → Bool → Bool → Node
octant c dx dy dz =
    let off = c.half / 2 in
    leaf
      (record {
        centre = record {
          x = shift dx c.centre.x off;
          y = shift dy c.centre.y off;
          z = shift dz c.centre.z off;
        };
        half = c.half / 2;
      })
      []

unfoldable pub subdivide : Cube → Nodes
unfolding ◌+ℤ◌ ◌-ℤ◌
subdivide c = cons (octant c false false false) (
    cons (octant c false false true) (
      cons (octant c false true false) (
        cons (octant c false true true) (
          cons (octant c true false false) (
            cons (octant c true false true)
              (cons (octant c true true false) (cons (octant c true true true) nil)))))))

-- self.obs.setdefault(obs.entity_id, []).append(obs)
abbrev pub append_to : Observation → Dict String (List Observation) → Dict String (List Observation)
append_to o held = elim (lookup o.entity_id held) [
  | none ↦ insert o.entity_id (o ∷ []) held
  | some os ↦ insert o.entity_id (os ++ o ∷ []) held
]

-- for child in self.children
unfoldable pub each : (Node → Node) → Nodes → Nodes
each f nil = nil
each f (cons n ns) = cons (f n) (each f ns)

-- `insert` at a node, with `levels` levels left, so that `depth >= max_depth` where there is none. A tree
-- that is built with one `max_depth` has no children there.
unfoldable pub insert_node : ℕ → ℕ → Observation → Node → Node
unfolding contains subdivide each
insert_node zero per_leaf o (leaf c held) =
    if contains c o.place then leaf c (append_to o held) else leaf c held
insert_node zero per_leaf o (branch c held children) = branch c held children
insert_node (suc levels) per_leaf o (leaf c held) =
    let deeper = branch c held (each (insert_node levels per_leaf o) (subdivide c)) in
    if not (contains c o.place)
    then leaf c held
    else if ltb (length held) per_leaf
    then leaf c (append_to o held)
    else deeper
insert_node (suc levels) per_leaf o (branch c held children) =
    let deeper = branch c held (each (insert_node levels per_leaf o) children) in
    if not (contains c o.place) then branch c held children else deeper

-- for obs_list in self.obs.values()
abbrev pub concat : List (List Observation) → List Observation
concat [] = []
concat (os ∷ rest) = os ++ concat rest

unfoldable mutual
  pub collect_all : Node → List Observation
  collect_all (leaf c held) = concat (values held)
  collect_all (branch c held children) = concat (values held) ++ collect_nodes children

  pub collect_nodes : Nodes → List Observation
  collect_nodes nil = []
  collect_nodes (cons n ns) = collect_all n ++ collect_nodes ns

-- What one axis adds to the distance of a point from a cube.
unfoldable pub excess : ℤ → ℤ → ℕ → ℕ
unfolding ◌+ℤ◌ ◌-ℤ◌
excess v c h =
    if ltb_ℤ v (c -ℤ pos h)
    then square (v -ℤ (c -ℤ pos h))
    else if ltb_ℤ (c +ℤ pos h) v
    then square (v -ℤ (c +ℤ pos h))
    else 0

-- `_overlaps_sphere`
unfoldable pub overlaps_sphere : Cube → Point → ℕ → Bool
unfolding excess
overlaps_sphere c q radius =
    leb (excess q.x c.centre.x c.half + excess q.y c.centre.y c.half + excess q.z c.centre.z c.half)
      (radius * radius)

-- dx * dx + dy * dy + dz * dz <= radius * radius
unfoldable pub within : Point → ℕ → Observation → Bool
unfolding ◌-ℤ◌
within q radius o =
    leb (square (o.place.x -ℤ q.x) + square (o.place.y -ℤ q.y) + square (o.place.z -ℤ q.z))
      (radius * radius)

unfoldable mutual
  unfolding overlaps_sphere within

  pub query_node : Point → ℕ → Node → List Observation
  query_node q radius (leaf c held) =
      if not (overlaps_sphere c q radius)
      then []
      else filter (within q radius) (concat (values held))
  query_node q radius (branch c held children) =
      if not (overlaps_sphere c q radius)
      then []
      else filter (within q radius) (concat (values held)) ++ query_nodes q radius children

  pub query_nodes : Point → ℕ → Nodes → List Observation
  query_nodes q radius nil = []
  query_nodes q radius (cons n ns) = query_node q radius n ++ query_nodes q radius ns
