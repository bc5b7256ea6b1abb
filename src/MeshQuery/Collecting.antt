-- ===== src/MeshQuery/Collecting.antt =====
-- What `_collect` of mesh_query.py keeps of the responses to a query.
use shogunet.Prelude.{
  ℕ, ◌+◌, ◌≡◌, refl, sym, ap, subst, ◌∙◌, inl, inr, String, Option, none, some, List, [], ◌∷◌, ◌++◌,
  Bool, true, false, not, ◌||◌, ◌==◌, if◌then◌else◌, string_eq, nat_eq, pair_eq, length, filter,
  All, All-append, Bool-cases, Option-cases, list_eq,
}
use shogunet.Prelude.Dict.{
  lookup, elem, Unique, insert-All, All-lookup, new_key, Unique-snoc, entered_more, elem_self,
}
use shogunet.Payload.{Value, float, str, dict, Values, nil, cons, Fields}
use shogunet.Protocol.Envelope.{Stdlib, Envelope, clean}
use shogunet.Memory.{Fact}
use shogunet.Memory.Node.{private_profile}
use shogunet.Memory.Reading.{is_int, get, get_or_default, text_of}
use shogunet.MeshQuery.{
  Key, Found, Pending, Mesh, profile_for, found_of, keep, collect_item, collect_items,
  correlation_of, results_of, count_reply, collect_into, collect,
}
use shogunet.MeshQuery.Querying.{Outside, asks, open_query, reply, answer, on_envelope, await}

module _ {A : Type 0} where
  no_item : {x : A} → none ≡ some x → ⊥
  no_item e = cc

  some_injective : (x y : A) → some x ≡ some y → x ≡ y
  some_injective x y e = cc

module _ (py : Stdlib) where
  -- The key that a result was entered by.
  abbrev pub key_of : Found → Key
  key_of f = (f.origin, py.to_str f.sent_id)

  abbrev pub keys_of : List Found → List Key
  keys_of [] = []
  keys_of (f ∷ fs) = key_of f ∷ keys_of fs

  -- The results are about different memories, and each of these is among the keys.
  pub record IsDistinct (p : Pending) : Type 0 where
    pub unique : Unique (keys_of p.results)
    pub entered : All (λ k. elem k p.keys ≡ true) (keys_of p.results)

  keys_of-append : (fs gs : List Found) → keys_of (fs ++ gs) ≡ keys_of fs ++ keys_of gs
  keys_of-append [] gs = refl
  keys_of-append (f ∷ fs) gs = ap (◌∷◌ (key_of f)) (keys_of-append fs gs)

  -- The key is entered, and the item is of that key where it is kept.
  keep-IsDistinct :
      (key : Key) (o : Option Found) (p : Pending)
      → elem key p.keys ≡ false
      → ((f : Found) → o ≡ some f → key_of f ≡ key)
      → IsDistinct p
      → IsDistinct (keep py key o p).0
  keep-IsDistinct key none p new about h = record {
    unique = h.unique;
    entered = entered_more key p.keys (keys_of p.results) h.entered;
  }
  keep-IsDistinct key (some f) p new about h =
      let same = about f refl in
      let shape : keys_of (p.results ++ f ∷ []) ≡ keys_of p.results ++ key ∷ [] =
        keys_of-append p.results (f ∷ []) ∙ ap (λ (k : Key). keys_of p.results ++ k ∷ []) same in
      record {
        unique = subst Unique (sym shape) (
            Unique-snoc key (keys_of p.results) h.unique
              (new_key key p.keys (keys_of p.results) new h.entered));
        entered = subst (All (λ k. elem k (key ∷ p.keys) ≡ true)) (sym shape) (
            All-append (λ k. elem k (key ∷ p.keys) ≡ true) (keys_of p.results) (key ∷ [])
              (entered_more key p.keys (keys_of p.results) h.entered) (elem_self key p.keys, tt));
      }

  found_of-key :
      (sender : String) (fs : Fields) (f : Found)
      → found_of py sender fs ≡ some f
      → key_of f
        ≡ (text_of py (get_or_default "origin" (str "") fs) 48, py.to_str (get "fact_id" fs))
  found_of-key sender fs f e =
      elim (Option-cases (py.to_float (get_or_default "salience" (float 4607182418800017408) fs))) [
        | inl raises ↦ absurd (no_item (rw (raises, found_of) at e))
        | inr (score, read) ↦ ap key_of (sym (some_injective _ f (rw (read, found_of) at e)))
      ]

  collect_item-IsDistinct :
      (sender : String) (fs : Fields) (p : Pending)
      → IsDistinct p
      → IsDistinct (collect_item py sender fs p).0
  unfolding collect_item
  collect_item-IsDistinct sender fs p h =
      let origin = text_of py (get_or_default "origin" (str "") fs) 48 in
      let key : Key = (origin, py.to_str (get "fact_id" fs)) in
      elim (Bool-cases ((origin == "") || not (is_int (get "fact_id" fs)))) [
        | inl malformed ↦ rw malformed h
        | inr formed ↦ elim (Bool-cases (elem key p.keys)) [
          | inl known ↦ rw (formed, known) h
          | inr new ↦
              rw (formed, new)
                (keep-IsDistinct key (found_of py sender fs) p new (found_of-key sender fs) h)
        ]
      ]

  collect_items-IsDistinct :
      (sender : String) (vs : Values) (p : Pending)
      → IsDistinct p
      → IsDistinct (collect_items py sender vs p).0
  unfolding collect_items
  collect_items-IsDistinct sender nil p h = h
  collect_items-IsDistinct sender (cons (dict fs) vs) p h =
      let item = collect_item py sender fs p in
      let h' = collect_item-IsDistinct sender fs p h in
      elim (Bool-cases item.1) [
        | inl fine ↦ rw fine (collect_items-IsDistinct sender vs item.0 h')
        | inr raised ↦ rw raised h'
      ]
  collect_items-IsDistinct sender (cons _ vs) p h = collect_items-IsDistinct sender vs p h

  -- Every query that waits has distinct results.
  abbrev pub AreDistinct : Mesh → Type 0
  AreDistinct m = All (λ e. IsDistinct e.1) m.pending

  count_reply-AreDistinct :
      (qid : ℕ) (out : Pending × Bool) (m : Mesh)
      → IsDistinct out.0
      → AreDistinct m
      → AreDistinct (count_reply py qid out m)
  count_reply-AreDistinct qid (p, false) m h hs = insert-All IsDistinct qid p m.pending h hs
  count_reply-AreDistinct qid (p, true) m h hs =
      insert-All IsDistinct qid _ m.pending (record { unique = h.unique; entered = h.entered }) hs

  collect_into-AreDistinct :
      (qid : ℕ) (sender : String) (vs : Values) (m : Mesh)
      → AreDistinct m
      → AreDistinct (collect_into py qid sender vs m)
  unfolding collect_into
  collect_into-AreDistinct qid sender vs m hs = elim (Option-cases (lookup qid m.pending)) [
    | inl absent ↦ rw (absent, collect_into) hs
    | inr (p, waits) ↦
        rw (waits, collect_into)
          (count_reply-AreDistinct qid (collect_items py sender vs p) m
            (collect_items-IsDistinct sender vs p
              (All-lookup (λ e. IsDistinct e.1) qid m.pending hs waits))
            hs)
  ]

  collect-AreDistinct :
      (env : Envelope) (fs : Fields) (m : Mesh) → AreDistinct m → AreDistinct (collect py env fs m)
  unfolding collect
  collect-AreDistinct env fs m hs = elim (Option-cases (correlation_of py (get "correlation" fs))) [
    | inl unrelated ↦ rw (unrelated, collect) hs
    | inr (qid, related) ↦ elim (Option-cases (results_of py (get "results" fs))) [
      | inl malformed ↦ rw (related, collect) (rw (malformed, collect) hs)
      | inr (vs, listed) ↦
          rw (related, collect)
            (rw (listed, collect) (collect_into-AreDistinct qid env.sender vs m hs))
    ]
  ]

  answer-pending :
      (out : Outside) (env : Envelope) (fs : Fields) (m : Mesh)
      → (answer py out env fs m).0.pending ≡ m.pending
  unfolding answer
  answer-pending out env fs m =
      elim (Bool-cases
        ((env.sender == m.agent_id) || private_profile (profile_for py env.sender m))) [
          | inl hidden ↦ rw hidden refl
          | inr open_to ↦
              rw open_to
                (elim (Bool-cases (
                  not ((env.recipient == "*") || (env.recipient == m.agent_id))
                  || (text_of py (get_or_default "query" (str "") fs) 512 == ""))) [
                    | inl empty ↦ rw empty refl
                    | inr asked ↦ rw asked (searched (out.search _ _))
                  ])
        ]
    where
      counted :
          (b : Bool)
          → (if b then record m { queries_answered = m.queries_answered + 1 } else m).pending
            ≡ m.pending
      counted true = refl
      counted false = refl

      searched :
          (r : Option (List Fact))
          → (elim r as (λ _. Mesh × List Envelope) [
            | none ↦ (m, [])
            | some hits ↦ reply py out env fs m hits
          ]).0.pending
            ≡ m.pending
      searched none = refl
      searched (some hits) = counted _

  on_envelope-AreDistinct :
      (out : Outside) (env : Envelope) (m : Mesh)
      → AreDistinct m
      → AreDistinct (on_envelope py out env m).0
  unfolding on_envelope
  on_envelope-AreDistinct out env m hs =
      elim (Bool-cases (not ((env.recipient == "*") || (env.recipient == m.agent_id)))) [
        | inl passed ↦ rw passed hs
        | inr ours ↦ rw ours (by_payload env.payload)
      ]
    where
      by_type :
          (query response : Bool) (fs : Fields)
          → AreDistinct
              (if query
                then answer py out env fs m
                else if response
                then (collect py env fs m, [])
                else (m, [])).0
      by_type true response fs =
          subst (All (λ e. IsDistinct e.1)) (sym (answer-pending out env fs m)) hs
      by_type false true fs = collect-AreDistinct env fs m hs
      by_type false false fs = hs

      by_payload :
          (payload : Value)
          → AreDistinct
              (elim payload as (λ _. Mesh × List Envelope) [
                | dict fs ↦
                    if env.msg_type == "memory_query"
                    then answer py out env fs m
                    else if env.msg_type == "memory_response"
                    then (collect py env fs m, [])
                    else (m, [])
                | _ ↦ (m, [])
              ]).0
      by_payload (dict fs) =
          by_type (env.msg_type == "memory_query") (env.msg_type == "memory_response") fs
      by_payload _ = hs

  pub await-AreDistinct :
      (out : Outside) (envs : List Envelope) (m : Mesh)
      → AreDistinct m
      → AreDistinct (await py out envs m)
  unfolding await
  await-AreDistinct out [] m hs = hs
  await-AreDistinct out (env ∷ envs) m hs =
      await-AreDistinct out envs (on_envelope py out env m).0 (on_envelope-AreDistinct out env m hs)

  pub open_query-AreDistinct :
      (now qid top_k : ℕ) (text : String) (peers : List String) (m m' : Mesh)
      (asked : List Envelope)
      → AreDistinct m
      → open_query py now qid top_k text peers m ≡ some (m', asked)
      → AreDistinct m'
  unfolding open_query
  open_query-AreDistinct now qid top_k text peers m m' asked hs opened =
      elim (Bool-cases ((clean py text 512 == "") || (length (filter (asks py m) peers) == 0))) [
        | inl empty ↦ absurd (no_item (rw (empty, open_query) at opened))
        | inr asks_some ↦
            subst (λ (r : Mesh × List Envelope). AreDistinct r.0)
              (some_injective _ _ (rw (asks_some, open_query) at opened))
              (insert-All IsDistinct qid _ m.pending (record { unique = tt; entered = tt }) hs)
      ]
