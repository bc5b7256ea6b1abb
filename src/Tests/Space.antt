-- ===== src/Tests/Space.antt =====
-- An octree that is cut into octants.
use shogunet.Prelude.{◌≡◌, refl, String, List, [], ◌∷◌, filter, length}
use shogunet.Prelude.Int.{ℤ, pos, negsuc}
use shogunet.Spatial.{Point, Observation, within, insert_node, subdivide}
use shogunet.Spatial.Index.{
  Rounding, Index, new_index, all_observations, query_sphere, insert, Use, inserts, run,
  query_sphere-filter,
}

abbrev exact : Rounding
exact = record { coordinate = λ v. v; number = λ n. n }

abbrev at : ℤ → ℤ → ℤ → Point
at x y z = record { x = x; y = y; z = z }

abbrev sight : String → Point → Observation
sight name p = record {
  entity_id = name;
  agent_id = "a";
  place = p;
  confidence = 1;
  timestamp = 5;
  frame_id = "world";
  label = "";
}

-- Each leaf holds one entity; the third one stands where all octants meet.
abbrev sights : List Use
sights =
    inserts (sight "p" (at (pos 3) (pos 3) (pos 3)))
    ∷ inserts (sight "q" (at (negsuc 4) (pos 3) (pos 3)))
    ∷ inserts (sight "r" (at (pos 0) (pos 0) (pos 0)))
    ∷ []

abbrev index : Index
index = run exact sights (new_index 16 3 1)

query_sphere-filter_example :
    (query_sphere (at (pos 2) (pos 3) (pos 3)) 2 index).1
    ≡ filter (within (at (pos 2) (pos 3) (pos 3)) 2) (all_observations index)
query_sphere-filter_example = query_sphere-filter exact sights 16 3 1 2 (at (pos 2) (pos 3) (pos 3))

-- The entity at the centre of the root is in all eight octants.
copies : length (all_observations index) ≡ 10
unfolding all_observations run insert new_index insert_node subdivide
copies = refl
