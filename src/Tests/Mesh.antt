-- ===== src/Tests/Mesh.antt =====
-- A node that learns a fact.
use shogunet.Prelude.{ℕ, ◌≡◌, refl, Option, none, some, List, [], ◌∷◌, nat_eq, string_eq, pair_eq}
use shogunet.Security.{sanitize_text, take_text, clean_text, clean_char}
use shogunet.Payload.{Value, nat, str, Fields, end, field, get_field, count_fields}
use shogunet.Memory.{Numerics, foreign_key}
use shogunet.Memory.Reading.{Incoming, read_fact, origin_of, created_of, truthy}
use shogunet.Memory.Node.{Node, full, on_fact, on_tombstone}
use shogunet.Memory.Node.Ownership.{inbound-own}
use shogunet.Prelude.Dict.{lookup}
use shogunet.Memory.Node.Convergence.{Holds, on_fact-Holds}
use shogunet.Tests.Values.{python, announcement}

abbrev pub numerics : Numerics
numerics = record { embed = λ text n. 0 ∷ []; plus = λ a b. a }

abbrev pub packed : Value → Option (List ℕ)
packed v = none

abbrev fact_fields : Fields
fact_fields = field "fact_id" (nat 4) (field "content" (str "x") (field "salience" (nat 1) end))

abbrev incoming : Incoming
incoming = record {
  origin = "a";
  fact_id = nat 4;
  content = "x";
  kind = "fact";
  vector = [];
  salience = 1;
  metadata = end;
  created = none;
}

abbrev node : Node
node = record {
  store = record { agent_id = "b"; dimension = 8; facts = []; next_local_id = 1 };
  profiles = [];
  default_profile = full;
  tombstones = [];
  stats = [];
}

test_read : read_fact python packed fact_fields announcement ≡ some incoming
unfolding read_fact origin_of created_of truthy get_field count_fields sanitize_text take_text
    clean_text clean_char
test_read = refl

on_fact-Holds_example :
    Holds
      (foreign_key python numerics "a" (nat 4))
      "x"
      (on_fact python numerics packed (λ k. k) announcement fact_fields node).store
unfolding get_field
on_fact-Holds_example =
    on_fact-Holds python numerics packed (λ k. k) announcement fact_fields incoming node test_read
      refl refl refl refl

inbound-own_example :
    (lookup
        ("b", 1)
        (on_fact python numerics packed (λ k. k) announcement fact_fields node).store.facts
      ≡ lookup ("b", 1) node.store.facts)
    × (lookup
          ("b", 1)
          (on_tombstone python numerics packed (λ k. k) announcement fact_fields node).store.facts
        ≡ lookup ("b", 1) node.store.facts)
inbound-own_example = inbound-own python numerics fact_fields announcement packed (λ k. k) node 1
