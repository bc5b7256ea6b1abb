-- ===== src/Agents.antt =====
-- `class AgentRegistry` of agent_registry.py: who is paired, until when, and the topics that a paired
-- agent may use. The clocks' readings are arguments, in milliseconds: `wall` is time.time(), `mono`
-- is time.monotonic(). A method returns the events that it audits beside its result.
pub mod Topic
pub mod Consent
pub mod Acl
use shogunet.Prelude.{
  ℕ, ◌+◌, ◌-◌, String, Option, none, some, List, [], ◌∷◌, Bool, true, false, ◌&&◌, ltb, leb, max,
  ◌==◌, if◌then◌else◌, string_eq, second, is_some, hour,
}
use shogunet.Prelude.Dict.{Dict, lookup, insert, erase, contains, values}
use shogunet.Security.{Unicode, sanitize_text, strip}
use shogunet.Payload.{Fields}
use shogunet.Agents.Topic.{parse_shugonet_topic}

pub record Grant : Type 0 where
  pub agent_id : String
  pub manifest : Fields
  pub realm : String
  pub paired_by : String
  pub paired_at : ℕ
  pub expires_at : ℕ

pub data Event : Type 0 where
  agent_paired : String → String → String → Event
  agent_unpaired : String → Event
  agent_pairing_expired : String → Event

-- `pairing_ttl` and `heartbeat_timeout` are in milliseconds.
pub record Registry : Type 0 where
  pub pairing_ttl : ℕ
  pub heartbeat_timeout : ℕ
  pub paired : Dict String Grant
  pub last_heartbeat : Dict String ℕ

-- max(0.01 h, ...) and max(1.0 s, ...)
unfoldable pub new_registry : ℕ → ℕ → Registry
new_registry pairing_ttl heartbeat_timeout = record {
  pairing_ttl = max 36000 pairing_ttl;
  heartbeat_timeout = max second heartbeat_timeout;
  paired = [];
  last_heartbeat = [];
}

-- self._paired.pop(agent), self._last_heartbeat.pop(agent)
abbrev pub forget : String → Registry → Registry
forget agent r = record r {
  paired = erase agent r.paired;
  last_heartbeat = erase agent r.last_heartbeat;
}

-- x or "phys"
abbrev pub or_phys : String → String
or_phys s = if s == "" then "phys" else s

module _ (u : Unicode) where
  -- `manifest` has the realm text and the fields of a manifest that is a dict, its compute block
  -- already sanitized; `none` is a missing one. `none` for the result is the ValueError.
  unfoldable pub pair :
      ℕ
      → ℕ
      → String
      → Option (String × Fields)
      → String
      → Registry
      → Registry × Option Grant × List Event
  unfolding sanitize_text strip
  pair wall mono agent_id manifest paired_by r =
      let agent = strip u (sanitize_text u (some agent_id) 48) in
      let realm : String = elim manifest [
        | none ↦ "phys"
        | some m ↦ or_phys (sanitize_text u (some m.0) 8)
      ] in
      let grant : Grant = record {
        agent_id = agent;
        manifest = elim manifest [ none ↦ Fields.end | some m ↦ m.1 ];
        realm = realm;
        paired_by = sanitize_text u (some paired_by) 120;
        paired_at = wall;
        expires_at = wall + r.pairing_ttl;
      } in
      if agent == "" then (r, none, []) else (
        record r {
          paired = insert agent grant r.paired;
          last_heartbeat = insert agent mono r.last_heartbeat;
        },
        some grant,
        agent_paired agent grant.paired_by realm ∷ [],
      )

unfoldable pub unpair : String → Registry → Registry × Bool × List Event
unpair agent r =
    if contains agent r.paired
    then (forget agent r, true, agent_unpaired agent ∷ [])
    else (forget agent r, false, [])

-- An expired grant goes when it is looked at.
unfoldable pub is_paired : ℕ → String → Registry → Registry × Bool × List Event
is_paired wall agent r = elim (lookup agent r.paired) [
  | none ↦ (r, false, [])
  | some grant ↦
      if ltb grant.expires_at wall
      then (forget agent r, false, agent_pairing_expired agent ∷ [])
      else (r, true, [])
]

unfoldable pub heartbeat : ℕ → ℕ → String → Registry → Registry × Bool × List Event
unfolding is_paired
heartbeat wall mono agent r =
    let (r', paired, events) = is_paired wall agent r in
    if paired
    then (record r' { last_heartbeat = insert agent mono r'.last_heartbeat }, true, events)
    else (r', false, events)

-- last is not None and time.monotonic() - last <= self.heartbeat_timeout_s
abbrev pub recent : ℕ → ℕ → Option ℕ → Bool
recent mono timeout none = false
recent mono timeout (some last) = leb (mono - last) timeout

unfoldable pub alive : ℕ → ℕ → String → Registry → Registry × Bool × List Event
unfolding is_paired
alive wall mono agent r =
    let (r', paired, events) = is_paired wall agent r in
    if paired
    then (r', recent mono r'.heartbeat_timeout (lookup agent r'.last_heartbeat), events)
    else (r', false, events)

-- The comprehension of `list_agents`, over the grants that the dict holds when it starts: where
-- `is_paired` pops an entry, the next step of the dict's iterator raises RuntimeError, `none`.
unfoldable pub roster : ℕ → List Grant → Registry → Registry × Option (List Grant) × List Event
unfolding is_paired
roster wall [] r = (r, some [], [])
roster wall (grant ∷ rest) r =
    let (r', paired, events) = is_paired wall grant.agent_id r in
    let (r'', agents, more) = roster wall rest r' in
    if paired
    then (r'', elim agents [ none ↦ none | some gs ↦ some (grant ∷ gs) ], more)
    else (r', none, events)

-- `list_agents`, before it adds the `alive` flags.
unfoldable pub list_agents : ℕ → Registry → Registry × Option (List Grant) × List Event
unfolding roster
list_agents wall r = roster wall (values r.paired) r

unfoldable pub manifest : String → Registry → Fields
manifest agent r = elim (lookup agent r.paired) [ none ↦ Fields.end | some g ↦ g.manifest ]

unfoldable pub realm : String → Registry → Option String
realm agent r = elim (lookup agent r.paired) [ none ↦ none | some g ↦ some g.realm ]

-- The topic lies in the namespace of the agent.
abbrev pub own_topic : String → String → Bool
own_topic agent topic = elim (parse_shugonet_topic topic) [
  | none ↦ false
  | some parsed ↦ parsed.0 == agent
]

unfoldable pub can_publish : ℕ → String → String → Registry → Registry × Bool × List Event
unfolding is_paired parse_shugonet_topic
can_publish wall agent topic r =
    if (if agent == "" then false else own_topic agent topic)
    then is_paired wall agent r
    else (r, false, [])

unfoldable pub can_accept : ℕ → String → String → Registry → Registry × Bool × List Event
unfolding is_paired parse_shugonet_topic
can_accept wall sender topic r =
    let (r', paired, events) = is_paired wall sender r in
    (r', paired && own_topic sender topic, events)
