-- ===== src/Tcp.antt =====
-- `class TCPTransport` of tcp_transport.py: the connections, their handshake, and the queue of frames. A
-- connection is known by a number, as an object by its identity. The sockets are outside: what they
-- do is an argument.
pub mod Sending
pub mod Reading
pub mod Admission
use shogunet.Prelude.{
  ℕ, zero, suc, ◌+◌, ◌≡◌, String, Option, none, some, List, [], ◌∷◌, ◌++◌, Bool, true, false, not,
  ◌&&◌, ◌||◌, ltb, leb, max, min, ◌==◌, if◌then◌else◌, string_eq, nat_eq, length, drop, is_some,
}
use shogunet.Prelude.Dict.{Dict, lookup, contains, insert, erase, values}
use shogunet.Security.{sanitize_text, strip}
use shogunet.Payload.{Value, bool, nat, dict, Fields, get_field}
use shogunet.Memory.Reading.{truthy}
use shogunet.Protocol.Errors.{Error, Result, ok, err}
use shogunet.Protocol.Registry.{max_envelope_bytes}
use shogunet.Protocol.Header.{peek_header}
use shogunet.Protocol.Envelope.{Stdlib, Envelope}
use shogunet.Protocol.Decode.{decode}
use shogunet.Chain.Sending.{is_protocol_error}

-- `_Connection`: `addr` is str(conn.addr), and `host` is conn.addr[0]
pub record Connection : Type 0 where
  pub addr : String
  pub host : String
  pub agent_id : Option String
  pub client_version : String

abbrev pub Mail : Type 0
Mail = String × List ℕ

-- `objects` are the connections by their identity; `lost` are the calls of on_connection_lost, the last
-- first.
pub record Tcp : Type 0 where
  pub objects : Dict ℕ Connection
  pub conns : Dict String ℕ
  pub awaiting : Dict String ℕ
  pub peers : Dict String (String × ℕ)
  pub default_peer : Option String
  pub inbox : List Mail
  pub max_queue : ℕ
  pub lost : List String
  pub received : ℕ
  pub dropped : ℕ
  pub refused : ℕ
  pub connections : ℕ
  pub dials : ℕ
  pub sent : ℕ
  pub send_failed : ℕ

unfoldable pub new_tcp : ℕ → Tcp
new_tcp max_queue = record {
  objects = [];
  conns = [];
  awaiting = [];
  peers = [];
  default_peer = none;
  inbox = [];
  max_queue = max 1 max_queue;
  lost = [];
  received = 0;
  dropped = 0;
  refused = 0;
  connections = 0;
  dials = 0;
  sent = 0;
  send_failed = 0;
}

-- The hooks of the constructor: `None` is no hook. They are code of the caller; each answers the same to the
-- same argument throughout a run, does not raise, and does not change the transport.
pub record Hooks : Type 0 where
  pub admission_check : Option (String → Bool)
  pub version_check : Option (String → Bool)

abbrev pub passes : Option (String → Bool) → String → Bool
passes none name = true
passes (some check) name = check name

-- isinstance(port, int) and 1 <= port <= 65535: True is 1
unfoldable pub port_of : Option Value → Option ℕ
port_of (some (nat n)) = if leb 1 n && leb n 65535 then some n else none
port_of (some (bool true)) = some 1
port_of _ = none

-- A hit keeps the entry.
abbrev pub set_default : String → String × ℕ → Dict String (String × ℕ) → Dict String (String × ℕ)
set_default name peer peers = if contains name peers then peers else insert name peer peers

-- accept: a connection that awaits its handshake
unfoldable pub accept : ℕ → String → String → Tcp → Tcp
accept id addr host s = record s {
  objects =
      insert id (record { addr = addr; host = host; agent_id = none; client_version = "" })
        s.objects;
  awaiting = insert addr id s.awaiting;
}

-- self._conns.get(conn.agent_id) is conn
abbrev pub holds : String → ℕ → Tcp → Bool
holds name id s = elim (lookup name s.conns) [ none ↦ false | some held ↦ held == id ]

abbrev pub forget : Option String → ℕ → Tcp → Tcp
forget none id s = s
forget (some name) id s =
    if not (name == "") && holds name id s
    then record s { conns = erase name s.conns; lost = name ∷ s.lost }
    else s

unfoldable pub close_conn : ℕ → Tcp → Tcp
close_conn id s = elim (lookup id s.objects) [
  | none ↦ s
  | some conn ↦
      let s' = forget conn.agent_id id s in record s' { awaiting = erase conn.addr s'.awaiting }
]

-- The queue drops its oldest mail.
unfoldable pub queue_mail : Mail → Tcp → Tcp
queue_mail mail s =
    let s' = record s { received = s.received + 1 } in
    if length s'.inbox == s'.max_queue
    then record s' { dropped = s'.dropped + 1; inbox = drop 1 s'.inbox ++ mail ∷ [] }
    else record s' { inbox = s'.inbox ++ mail ∷ [] }

-- What a frame does to its connection: it goes on, or an exception ends its loop.
pub data Verdict : Type 0 where
  goes_on ends : Verdict

abbrev pub refuse : Tcp → Tcp × Verdict
refuse s = (record s { refused = s.refused + 1 }, ends)

-- str(env.payload.get("shugonet_version", "") or "")
unfoldable pub version_of : Stdlib → Fields → String
unfolding truthy get_field
version_of py fs = elim (get_field "shugonet_version" fs) [
  | none ↦ ""
  | some v ↦ if truthy v then py.to_str v else ""
]

abbrev pub version_or_unknown : String → String
version_or_unknown v = if v == "" then "unknown" else v

-- The connection is the agent's from here on.
unfoldable pub admit : ℕ → Connection → String → String → Option ℕ → Tcp → Tcp
admit id conn sender version port s = record s {
  objects =
      insert id
        (record conn { agent_id = some sender; client_version = version_or_unknown version })
        s.objects;
  awaiting = erase conn.addr s.awaiting;
  conns = insert sender id s.conns;
  connections = s.connections + 1;
  peers = elim port [ none ↦ s.peers | some p ↦ set_default sender (conn.host, p) s.peers ];
}

module _ (py : Stdlib) (hooks : Hooks) where
  -- The handshake: the first frame of a connection.
  unfoldable pub handshake : ℕ → Connection → Envelope → List ℕ → Tcp → Tcp × Verdict
  unfolding version_of port_of get_field admit queue_mail
  handshake id conn env frame s =
      if not (env.msg_type == "announce") || (env.sender == "")
      then refuse s
      else if not (passes hooks.admission_check env.sender)
      then refuse s
      else elim env.payload [
        | dict fs ↦
            let version = version_of py fs in
            if not (version == "") && not (passes hooks.version_check version) then refuse s else (
              queue_mail (env.sender, frame)
                  (admit id conn env.sender version (port_of (get_field "port" fs)) s),
              goes_on,
            )
        | _ ↦ (s, ends)
      ]

  -- A frame whose connection has decoded it.
  unfoldable pub handle_envelope : ℕ → Connection → Envelope → List ℕ → Tcp → Tcp × Verdict
  unfolding handshake queue_mail
  handle_envelope id conn env frame s = elim conn.agent_id [
    | none ↦ handshake id conn env frame s
    | some name ↦ (queue_mail (name, frame) s, goes_on)
  ]

  unfoldable pub handle_frame : ℕ → ℕ → List ℕ → Tcp → Tcp × Verdict
  unfolding decode is_protocol_error handle_envelope
  handle_frame wall id frame s = elim (lookup id s.objects) [
    | none ↦ (s, ends)
    | some conn ↦ elim (decode py wall frame) [
      | err e ↦
          if is_protocol_error e then (record s { dropped = s.dropped + 1 }, goes_on) else (s, ends)
      | ok env ↦ handle_envelope id conn env frame s
    ]
  ]

  -- A frame that the read loop has read: where it ends the loop, the connection is closed.
  unfoldable pub read_frame : ℕ → ℕ → List ℕ → Tcp → Tcp
  unfolding handle_frame close_conn
  read_frame wall id frame s =
      let (s', verdict) = handle_frame wall id frame s in
      elim verdict [ goes_on ↦ s' | ends ↦ close_conn id s' ]

  unfoldable pub add_peer : String → String → ℕ → Tcp → Option Tcp
  unfolding sanitize_text strip
  add_peer name host port s =
      let agent = strip py.unicode (sanitize_text py.unicode (some name) 48) in
      if agent == ""
      then none
      else some (record s { peers = insert agent (host, max 1 (min 65535 port)) s.peers })

-- `poll`: the mail for the subscribers, oldest first, where nothing comes in meanwhile
unfoldable pub poll : Tcp → Tcp × List Mail
poll s = (record s { inbox = [] }, s.inbox)
