-- ===== src/Agents/Acl.antt =====
-- The topic ACL: what an agent may publish and what is accepted from it. And what `list_agents` does
-- where a grant has ended.
use shogunet.Prelude.{
  ℕ, ◌≡◌, refl, ap, String, none, some, List, [], ◌∷◌, Bool, true, false, not, ◌&&◌, ltb, ◌==◌,
  if◌then◌else◌, string_eq, arith, All, Bool-cases, Option-cases, inl, inr, all,
}
use shogunet.Prelude.Dict.{Dict, lookup, values, Distinct, apart}
use shogunet.Agents.{
  Grant, Registry, is_paired, roster, list_agents, own_topic, can_publish, can_accept,
}
use shogunet.Agents.Topic.{three_parts, split_slash, strip_slash, parse_shugonet_topic}
use shogunet.Agents.Consent.{lives, is_paired-lives}

three_parts-agent :
    (parts : List String) {agent tail : String}
    → three_parts parts ≡ some (agent, tail)
    → (agent == "") ≡ false
three_parts-agent (root ∷ agent ∷ tail ∷ []) h = ground arith
three_parts-agent [] h = ground arith
three_parts-agent (a ∷ []) h = ground arith
three_parts-agent (a ∷ b ∷ []) h = ground arith
three_parts-agent (a ∷ b ∷ c ∷ d ∷ e) h = ground arith

-- No topic is in the namespace of the empty agent id.
own_topic-empty : (topic : String) → own_topic "" topic ≡ false
unfolding parse_shugonet_topic
own_topic-empty topic = elim (Option-cases (parse_shugonet_topic topic)) [
  | inl outside ↦ rw (outside, own_topic) refl
  | inr ((agent, tail), inside) ↦
      rw (inside, own_topic)
        (ground (
          arith,
          string_eq.beq_iff agent "",
          three_parts-agent (split_slash (strip_slash topic)) inside,
        ))
]

-- What is accepted: the sender's grant lasts, and the topic is `/shugunet/{sender}/{tail}`.
pub can_accept_lem :
    (wall : ℕ) (sender topic : String) (r : Registry)
    → (can_accept wall sender topic r).1 ≡ (lives wall sender r && own_topic sender topic)
unfolding can_accept
can_accept_lem wall sender topic r =
    ap (λ b. b && own_topic sender topic) (is_paired-lives wall sender r)

-- An agent may publish on a topic exactly when the topic is accepted from it.
pub can_publish-can_accept :
    (wall : ℕ) (agent topic : String) (r : Registry)
    → (can_publish wall agent topic r).1 ≡ (can_accept wall agent topic r).1
unfolding can_publish can_accept
can_publish-can_accept wall agent topic r =
    ground (arith, own_topic-empty topic, string_eq.beq_iff agent "")

-- A topic on which frames of two senders are accepted, in whatever states of the registry, shows
-- that the two are one.
pub can_accept-injective :
    (wall wall' : ℕ) (s t topic : String) (r r' : Registry)
    → (can_accept wall s topic r).1 ≡ true
    → (can_accept wall' t topic r').1 ≡ true
    → s ≡ t
can_accept-injective wall wall' s t topic r r' h k =
    elim (Option-cases (parse_shugonet_topic topic)) [
      | inl outside ↦ absurd (ground (arith, can_accept_lem wall s topic r))
      | inr (parsed, inside) ↦ ground (
        arith,
        can_accept_lem wall s topic r,
        can_accept_lem wall' t topic r',
        string_eq.beq_iff parsed.0 s,
        string_eq.beq_iff parsed.0 t,
      )
    ]

-- Grants stand under their own agent ids.
abbrev pub IsFiled : Dict String Grant → Type 0
IsFiled = All (λ e. e.1.agent_id ≡ e.0)

abbrev pub unexpired : ℕ → Grant → Bool
unexpired wall g = not (ltb g.expires_at wall)

roster-unexpired :
    (wall : ℕ) (r : Registry) (d : Dict String Grant)
    → All (λ e. lookup e.1.agent_id r.paired ≡ some e.1) d
    → (roster wall (values d) r).1
      ≡ (if all (unexpired wall) (values d) then some (values d) else none)
unfolding roster is_paired
roster-unexpired wall r [] h = refl
roster-unexpired wall r ((k, g) ∷ d) h = elim (Bool-cases (ltb g.expires_at wall)) [
  | inl over ↦ rw (h.0, over, roster, is_paired) refl
  | inr running ↦ ground (arith, h.0, roster-unexpired wall r d h.1)
]

-- In a dict of distinct keys every entry is what a lookup of its key finds.
found :
    (d : Dict String Grant) → Distinct d → IsFiled d → All (λ e. lookup e.1.agent_id d ≡ some e.1) d
found [] u f = tt
found ((k, g) ∷ d) u f =
    (ground (arith, f.0, string_eq.beq_iff k k), behind d (apart k d u.0) f.1 (found d u.1 f.1))
  where
    behind :
        (es : Dict String Grant)
        → All (λ e. (k == e.0) ≡ false) es
        → IsFiled es
        → All (λ e. lookup e.1.agent_id d ≡ some e.1) es
        → All (λ e. lookup e.1.agent_id ((k, g) ∷ d) ≡ some e.1) es
    behind [] a f h = tt
    behind ((j, v) ∷ es) a f h =
        (ground (arith, a.0, f.0, h.0, string_eq.beq_iff k j), behind es a.1 f.1 h.1)

-- In a registry whose grants stand under their own ids, each once: `list_agents` answers with every
-- grant where none has ended, and raises RuntimeError where one has.
pub list_agents_lem :
    (wall : ℕ) (r : Registry)
    → Distinct r.paired
    → IsFiled r.paired
    → (list_agents wall r).1
      ≡ (if all (unexpired wall) (values r.paired) then some (values r.paired) else none)
unfolding list_agents
list_agents_lem wall r u f = roster-unexpired wall r r.paired (found r.paired u f)
