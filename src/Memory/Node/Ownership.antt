-- ===== src/Memory/Node/Ownership.antt =====
-- What comes in to a node of memory_sync.py, and the node's own facts.
use shogunet.Prelude.{
  ℕ, ◌≡◌, refl, ap, ◌∙◌, ◌⊎◌, String, Option, none, some, List, false, ◌==◌, not, ◌||◌, string_eq,
  nat_eq, pair_eq, arith, Bool-cases, Option-cases, inl, inr, max,
}
use shogunet.Prelude.Dict.{lookup, lookup-insert, lookup-erase}
use shogunet.Payload.{Value, Fields}
use shogunet.Protocol.Envelope.{Stdlib, Envelope, clean}
use shogunet.Memory.{
  Key, Fact, Store, Numerics, foreign_key, store_foreign, reinforce, get_fact, remove, not_negative,
}
use shogunet.Memory.Reading.{Incoming, origin_of, read_fact, is_int, is_null, get, truthy}
use shogunet.Memory.Node.{
  Node, count, put_store, fields_or, learn, overwrite, apply_fact, on_fact, on_tombstone,
}
use shogunet.Memory.Node.Convergence.{text_of-clean, read_fact-text}

module _ (py : Stdlib) (num : Numerics) (j key : Key) (apart : (key == j) ≡ false) where
  get_fact-apart : (now : ℕ) (s : Store) → lookup j (get_fact now key s).0.facts ≡ lookup j s.facts
  unfolding get_fact
  get_fact-apart now s = elim (Option-cases (lookup key s.facts)) [
    | inl missing ↦ rw (missing, get_fact) refl
    | inr (f, there) ↦
        rw (there, get_fact)
          (lookup-insert key j (record f { last_accessed = now }) s.facts ∙ rw apart refl)
  ]

  reinforce-apart :
      (now boost : ℕ) (s : Store)
      → lookup j (reinforce py num now key boost s).0.facts ≡ lookup j s.facts
  unfolding reinforce
  reinforce-apart now boost s = elim (Option-cases (lookup key s.facts)) [
    | inl missing ↦ rw (missing, reinforce) refl
    | inr (f, there) ↦ rw (there, reinforce) (lookup-insert key j _ s.facts ∙ rw apart refl)
  ]

  remove-apart : (s : Store) → lookup j (remove key s).0.facts ≡ lookup j s.facts
  unfolding remove
  remove-apart s = lookup-erase key j s.facts ∙ rw apart refl

module _ (py : Stdlib) (num : Numerics) (j : Key) where
  store_foreign-apart :
      (now : ℕ) (content kind : String) (vector : List ℕ) (salience : ℕ) (fact_id : Value)
      (origin : String) (metadata : Fields) (created : Option ℕ) (s : Store)
      → (foreign_key py num origin fact_id == j) ≡ false
      → lookup j
          (store_foreign py num now content kind vector salience fact_id origin metadata created
            s).facts
        ≡ lookup j s.facts
  unfolding store_foreign
  store_foreign-apart now content kind vector salience fact_id origin metadata created s apart =
      lookup-insert (foreign_key py num origin fact_id) j _ s.facts ∙ rw apart refl

  module _ (unpack : Value → Option (List ℕ)) where
    apply_fact-apart :
        (clock : ℕ → ℕ) (key : Key) (existing : Option Fact) (i : Incoming) (n : Node)
        → (key == j) ≡ false
        → (foreign_key py num i.origin i.fact_id == j) ≡ false
        → lookup j (apply_fact py num unpack clock key existing i n).store.facts
          ≡ lookup j n.store.facts
    unfolding apply_fact learn overwrite
    apply_fact-apart clock key none i n apart apart' =
        get_fact-apart py num j key apart (clock 2) _
        ∙ store_foreign-apart (clock 1) i.content i.kind i.vector (not_negative i.salience)
            i.fact_id i.origin i.metadata i.created n.store apart'
    apply_fact-apart clock key (some old) i n apart apart' =
        elim (Bool-cases (old.content == i.content)) [
          | inl same ↦
              rw (same, apply_fact)
                (reinforce-apart py num j key apart (clock 1) 4587366580439587226 n.store)
          | inr changed ↦
              rw (changed, apply_fact)
                (store_foreign-apart (clock 1) i.content i.kind i.vector
                  (max old.salience (not_negative i.salience)) i.fact_id i.origin
                  (fields_or i.metadata old.metadata) (some old.created_at) n.store apart')
        ]

module _ (py : Stdlib) (num : Numerics) (fs : Fields) (env : Envelope) where
  -- The origin that is read off a payload is sanitized already.
  origin_of-clean : clean py (origin_of py fs env) 48 ≡ origin_of py fs env
  unfolding origin_of
  origin_of-clean = elim (Bool-cases (truthy (get "origin" fs))) [
    | inl given ↦ rw (given, origin_of) (text_of-clean py num (get "origin" fs) 48)
    | inr absent ↦ rw (absent, origin_of) (text_of-clean py num (Value.str env.sender) 48)
  ]

  -- The key of another agent's fact is no key of this agent.
  foreign_key-apart :
      (own : String) (id : ℕ)
      → (origin_of py fs env == own) ≡ false
      → (foreign_key py num (origin_of py fs env) (get "fact_id" fs) == (own, id)) ≡ false
  foreign_key-apart own id other =
      let same : (clean py (origin_of py fs env) 48 == own) ≡ false = rw (origin_of-clean) other in
      ground (arith, same)

  module _ (unpack : Value → Option (List ℕ)) (clock : ℕ → ℕ) (n : Node) (id : ℕ) where
    abbrev Kept : Node → Type 0
    Kept n' =
        lookup (n.store.agent_id, id) n'.store.facts ≡ lookup (n.store.agent_id, id) n.store.facts

    on_tombstone-own : Kept (on_tombstone py num unpack clock env fs n)
    unfolding on_tombstone
    on_tombstone-own =
        let key = foreign_key py num (origin_of py fs env) (get "fact_id" fs) in
        elim (Bool-cases (not (is_int (get "fact_id" fs)) || (origin_of py fs env == ""))) [
          | inl malformed ↦ rw (malformed, on_tombstone) refl
          | inr named ↦ elim (Bool-cases (origin_of py fs env == n.store.agent_id)) [
            | inl own ↦ rw (named, own, on_tombstone) refl
            | inr other ↦
                rw (named, other, on_tombstone)
                  (removed (foreign_key-apart n.store.agent_id id other) (lookup key n.store.facts))
          ]
        ]
      where
        removed :
            (foreign_key py num (origin_of py fs env) (get "fact_id" fs) == (n.store.agent_id, id))
              ≡ false
            → (found : Option Fact)
            → Kept (elim found as (λ _. Node) [
              | none ↦ n
              | some f ↦ count "tombstones_applied" (
                  put_store
                    (remove (foreign_key py num (origin_of py fs env) (get "fact_id" fs)) n.store).0
                    n)
            ])
        removed apart none = refl
        removed apart (some f) =
            remove-apart py num (n.store.agent_id, id)
              (foreign_key py num (origin_of py fs env) (get "fact_id" fs)) apart n.store

    on_fact-own : Kept (on_fact py num unpack clock env fs n)
    unfolding on_fact
    on_fact-own =
        elim (Bool-cases (
          (origin_of py fs env == "")
          || (not (is_int (get "fact_id" fs)) || is_null (get "content" fs)))) [
            | inl malformed ↦ rw (malformed, on_fact) refl
            | inr named ↦ elim (Bool-cases (origin_of py fs env == n.store.agent_id)) [
              | inl own ↦ rw (named, own, on_fact) refl
              | inr other ↦
                  rw (named, other, on_fact)
                    (applied (foreign_key-apart n.store.agent_id id other)
                      (Option-cases (read_fact py unpack fs env)))
            ]
          ]
      where
        applied :
            (foreign_key py num (origin_of py fs env) (get "fact_id" fs) == (n.store.agent_id, id))
              ≡ false
            → (read_fact py unpack fs env ≡ none)
              ⊎ ((i : Incoming) × (read_fact py unpack fs env ≡ some i))
            → Kept (elim (read_fact py unpack fs env) as (λ _. Node) [
              | none ↦
                  put_store
                    (get_fact
                      (clock 0)
                      (foreign_key py num (origin_of py fs env) (get "fact_id" fs))
                      n.store).0
                    n
              | some i ↦
                  apply_fact py num unpack clock
                    (foreign_key py num (origin_of py fs env) (get "fact_id" fs))
                    (get_fact
                      (clock 0)
                      (foreign_key py num (origin_of py fs env) (get "fact_id" fs))
                      n.store).1
                    i
                    (put_store
                      (get_fact
                        (clock 0)
                        (foreign_key py num (origin_of py fs env) (get "fact_id" fs))
                        n.store).0
                      n)
            ])
        applied apart (inl fails) = rw fails (
            get_fact-apart py num (n.store.agent_id, id)
              (foreign_key py num (origin_of py fs env) (get "fact_id" fs)) apart (clock 0) n.store)
        applied apart (inr (i, reads)) =
            let key = foreign_key py num (origin_of py fs env) (get "fact_id" fs) in
            let (o, f, c) = read_fact-text py num unpack fs env i reads in
            let same : foreign_key py num i.origin i.fact_id ≡ key =
              λ k. foreign_key py num (o k) (f k) in
            rw reads (
              apply_fact-apart py num (n.store.agent_id, id) unpack clock key
                (get_fact (clock 0) key n.store).1 i
                (put_store (get_fact (clock 0) key n.store).0 n) apart
                (ap (λ k. k == (n.store.agent_id, id)) same ∙ apart)
              ∙ get_fact-apart py num (n.store.agent_id, id) key apart (clock 0) n.store)

    -- Whatever `memory_fact` or `tombstone` comes in, from whatever sender and in whatever state of the
    -- node: what stands in the store under the node's own agent id stays as it is. No own fact is
    -- changed, removed or added.
    pub inbound-own :
        (lookup (n.store.agent_id, id) (on_fact py num unpack clock env fs n).store.facts
          ≡ lookup (n.store.agent_id, id) n.store.facts)
        × (lookup (n.store.agent_id, id) (on_tombstone py num unpack clock env fs n).store.facts
            ≡ lookup (n.store.agent_id, id) n.store.facts)
    inbound-own = (on_fact-own, on_tombstone-own)
