-- ===== src/Memory/Node/Convergence.antt =====
-- What the node of memory_sync.py holds after a fact has come in.
use shogunet.Prelude.{
  ℕ, ◌≡◌, sym, ap, subst, String, Option, none, some, List, [], true, false, ◌==◌, string_eq,
  nat_eq, pair_eq, arith, Bool-cases, Option-cases, inl, inr, beq_refl, max, min, ◌+◌,
}
use shogunet.Prelude.Dict.{Dict, lookup, insert, lookup-insert}
use shogunet.Security.Laws.{sanitize_text_idem}
use shogunet.Payload.{Value, null, bool, nat, neg, float, str, list, dict, other, Fields}
use shogunet.Protocol.Envelope.{Stdlib, Envelope, clean}
use shogunet.Memory.{
  Key, Fact, Store, Numerics, foreign_key, store_foreign, reinforce, get_fact, not_negative,
}
use shogunet.Memory.Reading.{
  Incoming, origin_of, read_fact, get_or_default, has_legacy, metadata_of, created_of, is_int,
  is_null, get, text_of,
}
use shogunet.Memory.Node.{Node, learn, overwrite, apply_fact, on_fact, fields_or}

-- The store has a fact with this content at the key.
pub record Holds (key : Key) (content : String) (s : Store) : Type 0 where
  pub fact : Fact
  pub there : lookup key s.facts ≡ some fact
  pub same : fact.content ≡ content

abbrev incoming_or : Incoming → Option Incoming → Incoming
incoming_or d none = d
incoming_or d (some i) = i

module _ (py : Stdlib) (num : Numerics) where
  pub text_of-clean : (v : Value) (cap : ℕ) → clean py (text_of py v cap) cap ≡ text_of py v cap
  text_of-clean null cap = sanitize_text_idem py.unicode none cap
  text_of-clean (str s) cap = sanitize_text_idem py.unicode (some s) cap
  text_of-clean (bool b) cap = sanitize_text_idem py.unicode (some (py.to_str (bool b))) cap
  text_of-clean (nat n) cap = sanitize_text_idem py.unicode (some (py.to_str (nat n))) cap
  text_of-clean (neg n) cap = sanitize_text_idem py.unicode (some (py.to_str (neg n))) cap
  text_of-clean (float n) cap = sanitize_text_idem py.unicode (some (py.to_str (float n))) cap
  text_of-clean (list vs) cap = sanitize_text_idem py.unicode (some (py.to_str (list vs))) cap
  text_of-clean (dict fs) cap = sanitize_text_idem py.unicode (some (py.to_str (dict fs))) cap
  text_of-clean (other s) cap = sanitize_text_idem py.unicode (some s) cap

  store_foreign-Holds :
      (now : ℕ) (content kind : String) (vector : List ℕ) (salience : ℕ) (fact_id : Value)
      (origin : String) (metadata : Fields) (created : Option ℕ) (s : Store)
      → clean py content 4096 ≡ content
      → Holds
          (foreign_key py num origin fact_id)
          content
          (store_foreign py num now content kind vector salience fact_id origin metadata created s)
  unfolding store_foreign
  store_foreign-Holds now content kind vector salience fact_id origin metadata created s cleaned =
      let key = foreign_key py num origin fact_id in
      record { fact = _; there = inserted key _ s.facts; same = cleaned }
    where
      inserted : (key : Key) (f : Fact) (d : Dict Key Fact) → lookup key (insert key f d) ≡ some f
      inserted key f d = ground (arith, lookup-insert key key f d, beq_refl key)

  get_fact-Holds :
      (now : ℕ) (key : Key) (content : String) (s : Store)
      → Holds key content s
      → Holds key content (get_fact now key s).0
  unfolding get_fact
  get_fact-Holds now key content s h =
      rw (h.there, get_fact)
        (record {
          fact = record h.fact { last_accessed = now };
          there = inserted key (record h.fact { last_accessed = now }) s.facts;
          same = h.same;
        })
    where
      inserted : (key : Key) (f : Fact) (d : Dict Key Fact) → lookup key (insert key f d) ≡ some f
      inserted key f d = ground (arith, lookup-insert key key f d, beq_refl key)

  reinforce-Holds :
      (now boost : ℕ) (key : Key) (content : String) (s : Store)
      → Holds key content s
      → Holds key content (reinforce py num now key boost s).0
  unfolding reinforce
  reinforce-Holds now boost key content s h =
      rw (h.there, reinforce)
        (record { fact = raised; there = inserted key raised s.facts; same = h.same })
    where
      raised : Fact
      raised = record h.fact {
        salience = min 4621819117588971520 (num.plus h.fact.salience (not_negative boost));
        access_count = h.fact.access_count + 1;
        updated_at = now;
      }

      inserted : (key : Key) (f : Fact) (d : Dict Key Fact) → lookup key (insert key f d) ≡ some f
      inserted key f d = ground (arith, lookup-insert key key f d, beq_refl key)

  module _ (unpack : Value → Option (List ℕ)) where
    -- What was found at the key.
    abbrev Found : Key → Option Fact → Node → Type 0
    Found key none n = Unit
    Found key (some old) n = lookup key n.store.facts ≡ some old

    apply_fact-Holds :
        (clock : ℕ → ℕ) (key : Key) (existing : Option Fact) (i : Incoming) (n : Node)
        → foreign_key py num i.origin i.fact_id ≡ key
        → clean py i.content 4096 ≡ i.content
        → Found key existing n
        → Holds key i.content (apply_fact py num unpack clock key existing i n).store
    unfolding apply_fact learn overwrite
    apply_fact-Holds clock key none i n e cleaned found = get_fact-Holds (clock 2) key i.content _ (
        subst
          (λ k. Holds k i.content (
            store_foreign py num (clock 1) i.content i.kind i.vector (not_negative i.salience)
              i.fact_id i.origin i.metadata i.created n.store))
          e
          (store_foreign-Holds (clock 1) i.content i.kind i.vector (not_negative i.salience)
            i.fact_id i.origin i.metadata i.created n.store cleaned))
    apply_fact-Holds clock key (some old) i n e cleaned found =
        elim (Bool-cases (old.content == i.content)) [
          | inl same ↦
              rw (same, apply_fact)
                (reinforce-Holds (clock 1) 4587366580439587226 key i.content n.store (record {
                  fact = old;
                  there = found;
                  same = (string_eq.beq_iff old.content i.content).0 same;
                }))
          | inr changed ↦
              let metadata = fields_or i.metadata old.metadata in
              let salience = max old.salience (not_negative i.salience) in
              rw (changed, apply_fact)
                (subst
                  (λ k. Holds k i.content (
                    store_foreign py num (clock 1) i.content i.kind i.vector salience i.fact_id
                      i.origin metadata (some old.created_at) n.store))
                  e
                  (store_foreign-Holds (clock 1) i.content i.kind i.vector salience i.fact_id
                    i.origin metadata (some old.created_at) n.store cleaned))
        ]

    get_fact-Found :
        (now : ℕ) (key : Key) (n : Node)
        → Found key (get_fact now key n.store).1 (record n { store = (get_fact now key n.store).0 })
    unfolding get_fact
    get_fact-Found now key n = elim (Option-cases (lookup key n.store.facts)) [
      | inl missing ↦ rw (missing, get_fact) tt
      | inr (f, there) ↦
          rw (there, get_fact)
            (ground (
              arith,
              lookup-insert key key (record f { last_accessed = now }) n.store.facts,
              beq_refl key,
            ))
    ]

    pub read_fact-text :
        (fs : Fields) (env : Envelope) (i : Incoming)
        → read_fact py unpack fs env ≡ some i
        → (i.origin ≡ origin_of py fs env)
          × (i.fact_id ≡ get "fact_id" fs)
          × (i.content ≡ text_of py (get "content" fs) 4096)
    unfolding read_fact
    read_fact-text fs env i h = elim (Option-cases (unpack (get "vector_b64" fs))) [
      | inr (v, packed) ↦ parts v (rw (packed, read_fact) at h)
      | inl absent ↦ elim (Bool-cases (has_legacy (get "vector" fs))) [
        | inl legacy ↦ absurd (ground (arith, clash (rw (absent, legacy, read_fact) at h)))
        | inr plain ↦ parts [] (rw (absent, plain, read_fact) at h)
      ]
    ]
      where
        clash : ◌≡◌ {A = Option Incoming} none (some i) → true ≡ false
        clash e = absurd (ground (arith, e))

        fields :
            (v : List ℕ) (salience : ℕ)
            → ◌≡◌ {A = Option Incoming}
                (some (record {
                  origin = origin_of py fs env;
                  fact_id = get "fact_id" fs;
                  content = text_of py (get "content" fs) 4096;
                  kind = text_of py (get_or_default "kind" (str "fact") fs) 32;
                  vector = v;
                  salience = salience;
                  metadata = metadata_of (get "metadata" fs);
                  created = created_of py fs;
                }))
                (some i)
            → (i.origin ≡ origin_of py fs env)
              × (i.fact_id ≡ get "fact_id" fs)
              × (i.content ≡ text_of py (get "content" fs) 4096)
        fields v salience e = (
          sym (ap (λ o. (incoming_or i o).origin) e),
          sym (ap (λ o. (incoming_or i o).fact_id) e),
          sym (ap (λ o. (incoming_or i o).content) e),
        )

        parts :
            (v : List ℕ)
            → (elim (py.to_float (get_or_default "salience" (float 4607182418800017408) fs))
                as (λ _. Option Incoming) [
                  | none ↦ none
                  | some salience ↦ some (record {
                    origin = origin_of py fs env;
                    fact_id = get "fact_id" fs;
                    content = text_of py (get "content" fs) 4096;
                    kind = text_of py (get_or_default "kind" (str "fact") fs) 32;
                    vector = v;
                    salience = salience;
                    metadata = metadata_of (get "metadata" fs);
                    created = created_of py fs;
                  })
                ])
              ≡ some i
            → (i.origin ≡ origin_of py fs env)
              × (i.fact_id ≡ get "fact_id" fs)
              × (i.content ≡ text_of py (get "content" fs) 4096)
        parts v e =
            elim (Option-cases
              (py.to_float (get_or_default "salience" (float 4607182418800017408) fs))) [
                | inl no_float ↦ absurd (ground (arith, clash (rw no_float at e)))
                | inr (salience, float_value) ↦ fields v salience (rw float_value at e)
              ]

    -- A fact of another agent that `_on_fact` reads without an exception decides the content at its
    -- key, whatever the node held there before: nothing, another content, or the same. So the last
    -- message read for a key, not the latest in time, wins, and a fact that a tombstone has removed
    -- comes back.
    pub on_fact-Holds :
        (clock : ℕ → ℕ) (env : Envelope) (fs : Fields) (i : Incoming) (n : Node)
        → read_fact py unpack fs env ≡ some i
        → (i.origin == "") ≡ false
        → (i.origin == n.store.agent_id) ≡ false
        → is_int i.fact_id ≡ true
        → is_null (get "content" fs) ≡ false
        → Holds
            (foreign_key py num i.origin i.fact_id)
            i.content
            (on_fact py num unpack clock env fs n).store
    unfolding on_fact
    on_fact-Holds clock env fs i n reads named other_agent int there =
        let (o, f, c) = read_fact-text fs env i reads in
        let key = foreign_key py num (origin_of py fs env) (get "fact_id" fs) in
        let touched : Node = record n { store = (get_fact (clock 0) key n.store).0 } in
        let cleaned : clean py i.content 4096 ≡ i.content =
          rw c (text_of-clean (get "content" fs) 4096) in
        let named' : (origin_of py fs env == "") ≡ false = rw o at named in
        let other' : (origin_of py fs env == n.store.agent_id) ≡ false = rw o at other_agent in
        let int' : is_int (get "fact_id" fs) ≡ true = rw f at int in
        let same : foreign_key py num i.origin i.fact_id ≡ key =
          λ k. foreign_key py num (o k) (f k) in
        let held =
          apply_fact-Holds clock key (get_fact (clock 0) key n.store).1 i touched same cleaned
            (get_fact-Found (clock 0) key n) in
        subst (λ k. Holds k i.content (on_fact py num unpack clock env fs n).store) (sym same)
          (rw (named', int', there, other', reads, on_fact) held)
