-- ===== src/MeshQuery/Querying.antt =====
-- `query`, `_answer` and `_on_envelope` of mesh_query.py. The wait of a query is the envelopes that come in
-- until it ends; the chain and the search of the store are parameters.
use Prim.Native.String.{◌++◌ as text_append}
use shogunet.Prelude.{
  ℕ, ◌+◌, String, Option, none, some, List, [], ◌∷◌, Bool, not, ◌&&◌, ◌||◌, max, ◌==◌,
  if◌then◌else◌, string_eq, nat_eq, pair_eq, length, take, filter, map,
}
use shogunet.Prelude.Dict.{lookup, insert, erase}
use shogunet.Payload.{
  Value, nat, float, str, list, dict, Values, nil, cons, Fields, end, field, get_field,
}
use shogunet.Protocol.Envelope.{Stdlib, Envelope, clean}
use shogunet.Memory.{Fact}
use shogunet.Memory.Reading.{truthy, get, get_or_default, text_of}
use shogunet.Memory.Node.{private_profile}
use shogunet.MeshQuery.{Found, Mesh, profile_for, collect, int_of}

-- What answering asks of the rest: `search` of the store with `int` of the top_k, which may raise; the
-- salience rounded to three digits; a new message id; the time; and whether the chain carries an envelope.
pub record Outside : Type 0 where
  pub search : String → Value → Option (List Fact)
  pub round3 : ℕ → ℕ
  pub new_msg_id : ℕ
  pub time : ℕ
  pub carries : Envelope → Bool

-- An envelope of the mesh, on the agent's memory topic.
abbrev pub envelope : ℕ → ℕ → String → String → String → Fields → Envelope
envelope now id msg_type agent recipient payload = record {
  msg_id = id;
  msg_type = msg_type;
  sender = agent;
  recipient = recipient;
  topic = text_append "/shugunet/" (text_append agent "/memory");
  realm = "*";
  payload = dict payload;
  created_at = now;
}

module _ (py : Stdlib) where
  -- The peers that a query is for.
  unfoldable pub asks : Mesh → String → Bool
  unfolding profile_for
  asks m peer =
      not (clean py peer 48 == "")
      && (not (clean py peer 48 == m.agent_id) && not (private_profile (profile_for py peer m)))

  abbrev pub query_envelope : ℕ → ℕ → ℕ → String → Mesh → String → Envelope
  query_envelope now qid top_k text m peer =
      envelope now qid "memory_query" m.agent_id (clean py peer 48) (
        field "query" (str (clean py text 512))
          (field "top_k" (nat (max 1 top_k)) (field "correlation" (nat qid) end)))

  -- The first part of `query`, up to the envelopes that it sends; `none` is the empty answer.
  unfoldable pub open_query :
      ℕ → ℕ → ℕ → String → List String → Mesh → Option (Mesh × List Envelope)
  unfolding asks
  open_query now qid top_k text peers m =
      let asked = filter (asks m) peers in
      if (clean py text 512 == "") || (length asked == 0)
      then none
      else some (
        record m {
          pending =
              insert qid (record { results = []; keys = []; replies = 0; expected = length asked })
                m.pending;
        },
        map (query_envelope now qid top_k text m) asked,
      )

  -- [... for h in hits]
  unfoldable pub result_values : (ℕ → ℕ) → List Fact → Values
  result_values round3 [] = nil
  result_values round3 (h ∷ hs) =
      cons
        (dict (
          field "origin" (str (clean py h.origin 48)) (
            field "fact_id" (int_of py h.fact_id) (
              field "content" (str (clean py h.content 2048)) (
                field "kind" (str (clean py h.kind 32))
                  (field "salience" (float (round3 h.salience)) end))))))
        (result_values round3 hs)

  -- env.payload.get("correlation") or env.msg_id
  abbrev pub value_or : Value → Value → Value
  value_or v w = if truthy v then v else w

  abbrev pub reply : Outside → Envelope → Fields → Mesh → List Fact → Mesh × List Envelope
  reply out env fs m hits =
      let back = envelope out.time out.new_msg_id "memory_response" m.agent_id env.sender (
        field "correlation" (value_or (get "correlation" fs) (nat env.msg_id))
          (field "results" (list (result_values out.round3 hits)) end)) in
      (
        if out.carries back then record m { queries_answered = m.queries_answered + 1 } else m,
        back ∷ [],
      )

  -- The envelopes that it sends stand beside the mesh.
  unfoldable pub answer : Outside → Envelope → Fields → Mesh → Mesh × List Envelope
  unfolding profile_for get_field truthy result_values
  answer out env fs m =
      let text = text_of py (get_or_default "query" (str "") fs) 512 in
      if (env.sender == m.agent_id) || private_profile (profile_for py env.sender m)
      then (m, [])
      else if not ((env.recipient == "*") || (env.recipient == m.agent_id)) || (text == "")
      then (m, [])
      else elim (out.search text (get_or_default "top_k" (nat 8) fs)) [
        | none ↦ (m, [])
        | some hits ↦ reply out env fs m hits
      ]

  -- A payload that is no dict makes `get` raise.
  unfoldable pub on_envelope : Outside → Envelope → Mesh → Mesh × List Envelope
  unfolding answer collect
  on_envelope out env m =
      if not ((env.recipient == "*") || (env.recipient == m.agent_id))
      then (m, [])
      else elim env.payload as (λ _. Mesh × List Envelope) [
        | dict fs ↦
            if env.msg_type == "memory_query"
            then answer out env fs m
            else if env.msg_type == "memory_response"
            then (collect py env fs m, [])
            else (m, [])
        | _ ↦ (m, [])
      ]

  -- The envelopes that come in while a query waits.
  unfoldable pub await : Outside → List Envelope → Mesh → Mesh
  unfolding on_envelope
  await out [] m = m
  await out (env ∷ envs) m = await out envs (on_envelope out env m).0

  -- `le` compares two doubles.
  module _ (le : ℕ → ℕ → Bool) where
    -- sorted(..., key=score, reverse=True), which is stable. No score is a NaN.
    unfoldable pub place : Found → List Found → List Found
    place f [] = f ∷ []
    place f (g ∷ gs) = if le g.score f.score then f ∷ g ∷ gs else g ∷ place f gs

    unfoldable pub by_score : List Found → List Found
    unfolding place
    by_score [] = []
    by_score (f ∷ fs) = place f (by_score fs)

    -- The last part of `query`.
    unfoldable pub close_query : ℕ → ℕ → Mesh → Mesh × List Found
    unfolding by_score
    close_query qid top_k m = elim (lookup qid m.pending) [
      | none ↦ (m, [])
      | some p ↦ (
        record m { pending = erase qid m.pending; queries_sent = m.queries_sent + 1 },
        take (max 1 top_k) (by_score p.results),
      )
    ]
