-- ===== src/Protocol/Registry.antt =====
-- The constants and tables of protocol.py: message types, priority classes, codecs, caps.
use shogunet.Prelude.{
  ℕ, ◌≡◌, String, Option, some, [], ◌∷◌, map, arith, nat_eq, string_eq, refl, ◌<◌, All-of_all, Bool,
  true, false, none, all, ◌&&◌, ◌==◌, ltb, inl, inr, Option-cases,
}
use shogunet.Prelude.Dict.{Dict, lookup, All-lookup}

abbrev pub protocol_version : ℕ
protocol_version = 1

abbrev pub header_len : ℕ
header_len = 16

abbrev pub codec_json : ℕ
codec_json = 0

abbrev pub codec_compact : ℕ
codec_compact = 1

abbrev pub codec_names : Dict ℕ String
codec_names = (0, "json") ∷ (1, "compact") ∷ []

abbrev pub max_envelope_bytes : ℕ
max_envelope_bytes = 65535

abbrev pub max_segments : ℕ
max_segments = 255

abbrev pub message_types : Dict String ℕ
message_types =
    ("announce", 0)
    ∷ ("heartbeat", 1)
    ∷ ("ack", 2)
    ∷ ("tombstone", 3)
    ∷ ("memory_fact", 4)
    ∷ ("reinforce", 5)
    ∷ ("memory_digest", 6)
    ∷ ("memory_query", 7)
    ∷ ("memory_response", 8)
    ∷ ("task_request", 9)
    ∷ ("task_result", 10)
    ∷ ("promotion_proposal", 11)
    ∷ ("bulk_snapshot", 12)
    ∷ ("audit_ship", 13)
    ∷ ("spatial_observation", 14)
    ∷ ("spatial_query", 15)
    ∷ ("spatial_response", 16)
    ∷ ("spatial_merge", 17)
    ∷ ("coordinate_frame", 18)
    ∷ ("nrr_render_request", 19)
    ∷ ("nrr_render_result", 20)
    ∷ ("nrr_scene_request", 21)
    ∷ ("nrr_scene_result", 22)
    ∷ ("nrr_motion_event", 23)
    ∷ []

abbrev swap : String × ℕ → ℕ × String
swap (name, n) = (n, name)

abbrev pub type_names : Dict ℕ String
type_names = map swap message_types

abbrev pub class_control : ℕ
class_control = 0

abbrev pub class_memory : ℕ
class_memory = 1

abbrev pub class_task : ℕ
class_task = 2

abbrev pub class_bulk : ℕ
class_bulk = 3

abbrev pub type_class : Dict String ℕ
type_class =
    ("announce", class_control)
    ∷ ("heartbeat", class_control)
    ∷ ("ack", class_control)
    ∷ ("tombstone", class_control)
    ∷ ("memory_fact", class_memory)
    ∷ ("reinforce", class_memory)
    ∷ ("memory_digest", class_memory)
    ∷ ("memory_query", class_task)
    ∷ ("memory_response", class_task)
    ∷ ("task_request", class_task)
    ∷ ("task_result", class_task)
    ∷ ("promotion_proposal", class_task)
    ∷ ("bulk_snapshot", class_bulk)
    ∷ ("audit_ship", class_bulk)
    ∷ ("spatial_observation", class_memory)
    ∷ ("spatial_query", class_task)
    ∷ ("spatial_response", class_memory)
    ∷ ("spatial_merge", class_bulk)
    ∷ ("coordinate_frame", class_control)
    ∷ ("nrr_render_request", class_task)
    ∷ ("nrr_render_result", class_task)
    ∷ ("nrr_scene_request", class_task)
    ∷ ("nrr_scene_result", class_task)
    ∷ ("nrr_motion_event", class_memory)
    ∷ []

-- MESSAGE_TYPES[name], TYPE_NAMES.get(id), TYPE_CLASS[name]
unfoldable pub type_id : String → Option ℕ
type_id name = lookup name message_types

unfoldable pub type_name : ℕ → Option String
type_name n = lookup n type_names

unfoldable pub class_of : String → Option ℕ
class_of name = lookup name type_class

-- The two tables are inverse, every id is a byte and every type has a class that is one.
abbrev entry_ok : ℕ × String → Bool
entry_ok (n, name) = elim (type_id name) [
  | none ↦ false
  | some m ↦ (m == n) && ltb n 256 && elim (class_of name) [ none ↦ false | some c ↦ ltb c 256 ]
]

type_names_ok : all entry_ok type_names ≡ true
unfolding type_id class_of
type_names_ok = refl

pub type_id-type_name :
    (n : ℕ) (name : String)
    → type_name n ≡ some name
    → (type_id name ≡ some n) × (n < 256) × ((c : ℕ) × (class_of name ≡ some c) × (c < 256))
unfolding type_name
type_id-type_name n name h =
    let ok : entry_ok (n, name) ≡ true =
      All-lookup (λ e. entry_ok e ≡ true) n type_names
        (All-of_all entry_ok type_names type_names_ok) h in
    elim (Option-cases (class_of name)) [
      | inl missing ↦ absurd (ground arith)
      | inr (c, e) ↦ (ground arith, ground arith, (c, e, ground arith))
    ]

abbrev name_ok : String × ℕ → Bool
name_ok (name, n) = elim (type_name n) [
  | none ↦ false
  | some m ↦ (m == name) && elim (class_of name) [ none ↦ false | some c ↦ ltb c 4 ]
]

message_types_ok : all name_ok message_types ≡ true
unfolding type_name class_of
message_types_ok = refl

-- A registered type's id leads back to its name, and its class is one of the four.
pub type_name-type_id :
    (name : String) (t : ℕ)
    → type_id name ≡ some t
    → (type_name t ≡ some name) × ((c : ℕ) × (class_of name ≡ some c) × (c < 4))
unfolding type_id
type_name-type_id name t h =
    let ok : name_ok (name, t) ≡ true =
      All-lookup (λ e. name_ok e ≡ true) name message_types
        (All-of_all name_ok message_types message_types_ok) h in
    elim (Option-cases (class_of name)) [
      | inl missing ↦ absurd (ground arith)
      | inr (c, e) ↦ elim (Option-cases (type_name t)) [
        | inl unknown ↦ absurd (ground arith)
        | inr (m, f) ↦ (ground (arith, string_eq.beq_iff m name), (c, e, ground arith))
      ]
    ]
