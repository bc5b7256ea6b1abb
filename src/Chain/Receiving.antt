-- ===== src/Chain/Receiving.antt =====
-- `_on_frame` of transport_fallback.py: what a chain does with a frame that a transport hands it.
-- The routers are functions of the envelope and the peer, `none` where one raises; the handlers come
-- last, so that the result says with which envelope they are called.
pub mod Guard
use shogunet.Prelude.{
  ℕ, ◌-◌, ◌%◌, ◌^◌, String, Option, none, some, List, [], ◌∷◌, Bool, true, false, ◌&&◌, ◌==◌,
  if◌then◌else◌, string_eq, is_some,
}
use shogunet.Payload.{Value, bool, nat, neg, dict, get_field}
use shogunet.Protocol.Errors.{Error, Result, ok, err}
use shogunet.Protocol.Envelope.{Stdlib, Envelope}
use shogunet.Protocol.Decode.{decode}
use shogunet.Protocol.Assembler.{add}
use shogunet.Outbox.{Write, Outbox, mark_done}
use shogunet.Inbox.{is_duplicate}
use shogunet.Chain.{Chain, bump}
use shogunet.Chain.Sending.{is_protocol_error}

-- How the call ends: a bad frame, a frame whose other segments are missing, a duplicate, a message
-- that a router has consumed or that is for another agent, a message for the handlers, or an
-- exception: of the codec, or the AttributeError of an ack whose payload is no dict.
pub data Delivery : Type 0 where
  bad_frame incomplete duplicate consumed not_addressed : Delivery
  handled : Envelope → Delivery
  raised : Error → Delivery
  attribute_error : Delivery

abbrev pub Router : Type 0
Router = Envelope → String → Option Bool

-- for router in self._routers: the first that answers True
unfoldable pub route : List Router → Envelope → String → Bool
route [] env peer = false
route (router ∷ rest) env peer = elim (router env peer) [
  | none ↦ route rest env peer
  | some b ↦ if b then true else route rest env peer
]

-- isinstance(acked, int), and int(acked) & 0xFFFFFFFF: a bool is an int
unfoldable pub acked_id : Option Value → Option ℕ
acked_id (some (nat n)) = some n
acked_id (some (neg n)) = some (2 ^ 32 - 1 - n % 2 ^ 32)
acked_id (some (bool b)) = some (if b then 1 else 0)
acked_id _ = none

-- The outbox drops the message; `acked` is counted where it held it.
unfoldable pub settle : Write → Option ℕ → Outbox → Chain → Chain
unfolding mark_done bump
settle written none outbox s = s
settle written (some id) outbox s =
    let (outbox', known) = mark_done written id outbox in
    let s' = record s { outbox = some outbox' } in if known then bump "acked" s' else s'

-- if env.msg_type == "ack" and self.outbox is not None; `none` is the AttributeError
unfoldable pub acknowledge : Write → Envelope → Chain → Option Chain
unfolding settle acked_id get_field
acknowledge written env s =
    if env.msg_type == "ack"
    then elim s.outbox [
      | none ↦ some s
      | some outbox ↦ elim env.payload [
        | dict fs ↦ some (settle written (acked_id (get_field "msg_id" fs)) outbox s)
        | _ ↦ none
      ]
    ]
    else some s

-- x or y
abbrev pub text_or : String → String → String
text_or x y = if x == "" then y else x

abbrev pub addressed : Envelope → Chain → Bool
addressed env s = if env.recipient == "*" then true else env.recipient == s.agent_id

-- The routers, then the guard on the recipient.
unfoldable pub dispatch : List Router → Envelope → String → Chain → Chain × Delivery
unfolding route
dispatch routers env peer s =
    if route routers env peer
    then (s, consumed)
    else if addressed env s
    then (s, handled env)
    else (s, not_addressed)

-- A new message.
unfoldable pub accept : Write → List Router → Envelope → String → Chain → Chain × Delivery
unfolding acknowledge dispatch bump
accept written routers env peer s = elim (acknowledge written env (bump "decoded" s)) [
  | none ↦ (bump "decoded" s, attribute_error)
  | some s' ↦ dispatch routers env peer s'
]

-- A decoded message.
unfoldable pub receive : Write → List Router → Envelope → String → Chain → Chain × Delivery
unfolding accept bump is_duplicate
receive written routers env peer s =
    let (inbox', seen) = is_duplicate (text_or env.sender peer) env.msg_id s.inbox in
    let s' = record s { inbox = inbox' } in
    if seen then (bump "duplicates" s', duplicate) else accept written routers env peer s'

-- What is not a ProtocolError is not caught.
abbrev pub refuse : Error → Chain → Chain × Delivery
refuse e s = if is_protocol_error e then (bump "bad_frames" s, bad_frame) else (s, raised e)

module _ (py : Stdlib) where
  -- An assembled frame.
  unfoldable pub open_frame : Write → ℕ → List Router → List ℕ → String → Chain → Chain × Delivery
  unfolding receive decode bump is_protocol_error
  open_frame written wall routers frame peer s = elim (decode py wall frame) [
    | err e ↦ refuse e s
    | ok env ↦ receive written routers env peer s
  ]

  unfoldable pub on_frame : Write → ℕ → ℕ → List Router → String → List ℕ → Chain → Chain × Delivery
  unfolding open_frame add bump is_protocol_error
  on_frame written mono wall routers peer frame s =
      let (assembler', assembled) = add mono frame s.assembler in
      let s' = record s { assembler = assembler' } in
      elim assembled [
        | err e ↦ refuse e s'
        | ok none ↦ (s', incomplete)
        | ok (some whole) ↦ open_frame written wall routers whole peer s'
      ]
