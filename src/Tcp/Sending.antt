-- ===== src/Tcp/Sending.antt =====
-- `_dial` and `send_frame` of tcp_transport.py.
use shogunet.Prelude.{
  ℕ, ◌+◌, String, Option, none, some, List, [], ◌∷◌, Bool, true, false, ltb, ◌==◌, if◌then◌else◌,
  string_eq, nat_eq, length,
}
use shogunet.Prelude.Dict.{lookup, insert, values}
use shogunet.Protocol.Errors.{ok, err}
use shogunet.Protocol.Registry.{max_envelope_bytes}
use shogunet.Protocol.Header.{peek_header}
use shogunet.Tcp.{Tcp, close_conn}

-- What the network does: whether a peer answers a dial and takes the announce, the identity and the
-- address of the new connection, and whether a socket takes a frame.
pub record Network : Type 0 where
  pub answers : String → Bool
  pub identity : String → ℕ
  pub address : String × ℕ → String
  pub takes : ℕ → Bool

module _ (net : Network) where
  unfoldable pub dial : String → Tcp → Tcp × Option ℕ
  dial name s = elim (lookup name s.conns) [
    | some existing ↦ (s, some existing)
    | none ↦ elim (lookup name s.peers) [
      | none ↦ (s, none)
      | some peer ↦
          if net.answers name
          then (
            record s {
              objects =
                  insert (net.identity name)
                    (record {
                      addr = net.address peer;
                      host = peer.0;
                      agent_id = some name;
                      client_version = "";
                    })
                    s.objects;
              conns = insert name (net.identity name) s.conns;
              dials = s.dials + 1;
              connections = s.connections + 1;
            },
            some (net.identity name),
          )
          else (s, none)
    ]
  ]

  abbrev pub target : Tcp × Option ℕ → Tcp × List ℕ
  target (s, none) = (s, [])
  target (s, some id) = (s, id ∷ [])

  -- peer in (None, "", "*")
  abbrev pub is_broadcast : Option String → Bool
  is_broadcast none = true
  is_broadcast (some peer) = if peer == "" then true else peer == "*"

  -- The connections that the frame is for.
  unfoldable pub targets_of : Option String → Tcp → Tcp × List ℕ
  unfolding dial
  targets_of none s = (s, values s.conns)
  targets_of (some peer) s =
      if is_broadcast (some peer) then (s, values s.conns) else target (dial peer s)

  -- `if not targets and self._default_peer`
  unfoldable pub or_default : Tcp × List ℕ → Tcp × List ℕ
  unfolding dial
  or_default (s, id ∷ ids) = (s, id ∷ ids)
  or_default (s, []) = elim s.default_peer [
    | none ↦ (s, [])
    | some name ↦ if name == "" then (s, []) else target (dial name s)
  ]

  -- for conn in targets
  unfoldable pub send_to : List ℕ → ℕ → Tcp → Tcp × ℕ
  unfolding close_conn
  send_to [] delivered s = (s, delivered)
  send_to (id ∷ ids) delivered s =
      let carried = net.takes id in
      send_to ids (if carried then delivered + 1 else delivered)
        (if carried then s else close_conn id s)

  abbrev pub failed : Tcp → Tcp × Bool
  failed s = (record s { send_failed = s.send_failed + 1 }, false)

  abbrev pub count_sent : Tcp × ℕ → Tcp × Bool
  count_sent (s, delivered) =
      if delivered == 0 then failed s else (record s { sent = s.sent + 1 }, true)

  abbrev pub send_targets : Tcp × List ℕ → Tcp × Bool
  send_targets (s, []) = failed s
  send_targets (s, id ∷ ids) = count_sent (send_to (id ∷ ids) 0 s)

  unfoldable pub send_frame : Option String → List ℕ → Tcp → Tcp × Bool
  unfolding targets_of or_default send_to peek_header
  send_frame peer frame s =
      if ltb max_envelope_bytes (length frame) then failed s else elim (peek_header frame) [
        | err e ↦ failed s
        | ok head ↦ send_targets (or_default (targets_of peer s))
      ]
