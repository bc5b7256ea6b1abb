-- ===== src/Transports/Loopback.antt =====
-- `LoopbackBus` and `LoopbackTransport` of transports.py. An endpoint is known by a number, as an object
-- by its identity; the subscribers are outside.
pub mod Queue
use shogunet.Prelude.{
  ℕ, suc, ◌+◌, String, Option, none, some, List, [], ◌∷◌, ◌++◌, Bool, true, false, not, ◌&&◌, ◌||◌,
  ltb, max, ◌==◌, if◌then◌else◌, string_eq, nat_eq, length, drop,
}
use shogunet.Prelude.Dict.{Dict, lookup, insert, elem, remove_first}
use shogunet.Security.{Unicode, sanitize_text, strip}
use shogunet.Protocol.Errors.{Result, ok, err}
use shogunet.Protocol.Registry.{max_envelope_bytes}
use shogunet.Protocol.Header.{peek_header}

abbrev pub Mail : Type 0
Mail = String × List ℕ

pub record Endpoint : Type 0 where
  pub agent_id : String
  pub max_queue : ℕ
  pub inbox : List Mail
  pub sent : ℕ
  pub send_failed : ℕ
  pub received : ℕ
  pub dropped : ℕ

pub record Bus : Type 0 where
  pub members : List ℕ
  pub endpoints : Dict ℕ Endpoint

unfoldable pub join : ℕ → Bus → Bus
join id bus = if elem id bus.members then bus else record bus { members = bus.members ++ id ∷ [] }

unfoldable pub leave : ℕ → Bus → Bus
leave id bus =
    if elem id bus.members then record bus { members = remove_first id bus.members } else bus

-- `_deliver`: a full queue drops its oldest mail
unfoldable pub deliver : Mail → Endpoint → Endpoint
deliver mail e =
    if length e.inbox == e.max_queue
    then record e { inbox = drop 1 e.inbox ++ mail ∷ []; dropped = e.dropped + 1 }
    else record e { inbox = e.inbox ++ mail ∷ [] }

abbrev pub put_endpoint : ℕ → Endpoint → Bus → Bus
put_endpoint id e bus = record bus { endpoints = insert id e bus.endpoints }

module _ (u : Unicode) where
  -- The constructor: `none` is the ValueError.
  unfoldable pub new_endpoint : ℕ → String → ℕ → Bus → Option Bus
  unfolding sanitize_text strip join
  new_endpoint id agent_id max_queue bus =
      let agent = strip u (sanitize_text u (some agent_id) 48) in
      let e : Endpoint = record {
        agent_id = agent;
        max_queue = max 1 max_queue;
        inbox = [];
        sent = 0;
        send_failed = 0;
        received = 0;
        dropped = 0;
      } in
      if agent == "" then none else some (join id (put_endpoint id e bus))

  -- if peer and peer != "*": only the member of that name
  unfoldable pub addressed : Option String → Endpoint → Bool
  unfolding sanitize_text
  addressed none e = true
  addressed (some peer) e =
      if peer == ""
      then true
      else if peer == "*"
      then true
      else e.agent_id == sanitize_text u (some peer) 48

  -- The loop of `broadcast` over the members, with the count so far.
  unfoldable pub broadcast_to : ℕ → Mail → Option String → List ℕ → ℕ → Bus → Bus × ℕ
  unfolding addressed deliver
  broadcast_to sender mail peer [] delivered bus = (bus, delivered)
  broadcast_to sender mail peer (id ∷ ids) delivered bus =
      let skipped = broadcast_to sender mail peer ids delivered bus in
      if id == sender then skipped else elim (lookup id bus.endpoints) [
        | none ↦ skipped
        | some e ↦
            if addressed peer e
            then broadcast_to sender mail peer ids (delivered + 1)
                (put_endpoint id (deliver mail e) bus)
            else skipped
      ]

  -- Point-to-point mail that reached nobody has failed.
  abbrev pub is_point_to_point : Option String → Bool
  is_point_to_point none = false
  is_point_to_point (some peer) = if peer == "" then false else if peer == "*" then false else true

  abbrev pub count_sent : Bool → ℕ → Bus → Bus × Bool
  count_sent carried id bus = elim (lookup id bus.endpoints) [
    | none ↦ (bus, carried)
    | some e ↦ (
      put_endpoint id
          (if carried
            then record e { sent = e.sent + 1 }
            else record e { send_failed = e.send_failed + 1 })
          bus,
      carried,
    )
  ]

  unfoldable pub send_frame : ℕ → String → Option String → List ℕ → Bus → Bus × Bool
  unfolding broadcast_to peek_header
  send_frame id agent_id peer frame bus =
      if ltb max_envelope_bytes (length frame)
      then count_sent false id bus
      else elim (peek_header frame) [
        | err e ↦ count_sent false id bus
        | ok head ↦
            let (bus', delivered) = broadcast_to id (agent_id, frame) peer bus.members 0 bus in
            count_sent (not ((delivered == 0) && is_point_to_point peer)) id bus'
      ]

-- `poll`: the mail for the subscribers, oldest first, where nothing is delivered meanwhile
unfoldable pub poll : Endpoint → Endpoint × List Mail
poll e = (record e { inbox = []; received = e.received + length e.inbox }, e.inbox)
