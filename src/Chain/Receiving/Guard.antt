-- ===== src/Chain/Receiving/Guard.antt =====
-- What `_on_frame` of transport_fallback.py hands to the handlers.
use shogunet.Prelude.{
  ℕ, ◌≡◌, refl, ◌∙◌, ◌⊎◌, inl, inr, String, Option, none, some, List, true, false, ◌==◌, string_eq,
  nat_eq, pair_eq, arith, Bool-cases, beq_refl,
}
use shogunet.Prelude.Dict.{contains, lookup-insert}
use shogunet.Payload.{Value, null, bool, nat, neg, float, str, list, dict, other, get_field}
use shogunet.Protocol.Errors.{Error, Result, ok, err, Result-cases}
use shogunet.Protocol.Envelope.{Stdlib, Envelope}
use shogunet.Protocol.Decode.{decode}
use shogunet.Protocol.Assembler.{add}
use shogunet.Inbox.{Inbox, Key, is_duplicate, key_of, remember, make_room}
use shogunet.Outbox.{Write, Outbox}
use shogunet.Chain.{Chain, bump}
use shogunet.Chain.Sending.{is_protocol_error}
use shogunet.Chain.Receiving.{
  Delivery, incomplete, handled, attribute_error, Router, route, settle, acknowledge, acked_id,
  text_or, addressed, dispatch, accept, receive, refuse, open_frame, on_frame,
}

-- A message that reaches the handlers is for this agent or for all, was not in the window of the
-- inbox before and is in it now.
abbrev pub IsGuarded : Chain → String → Chain → Delivery → Type 0
IsGuarded s peer s' (handled env) =
    ((env.recipient ≡ "*") ⊎ (env.recipient ≡ s.agent_id))
    × (contains (key_of (text_or env.sender peer) env.msg_id) s.inbox.seen ≡ false)
    × (contains (key_of (text_or env.sender peer) env.msg_id) s'.inbox.seen ≡ true)
IsGuarded s peer s' _ = Unit

settle-same :
    (written : Write) (id : Option ℕ) (o : Outbox) (s : Chain)
    → ((settle written id o s).agent_id ≡ s.agent_id) × ((settle written id o s).inbox ≡ s.inbox)
unfolding settle bump
settle-same written none o s = (refl, refl)
settle-same written (some id) o s = ground arith

-- What `acknowledge` answers keeps the agent and the inbox.
abbrev Keeps : Chain → Option Chain → Type 0
Keeps s none = Unit
Keeps s (some s') = (s'.agent_id ≡ s.agent_id) × (s'.inbox ≡ s.inbox)

settle_payload-Keeps :
    (written : Write) (o : Outbox) (s : Chain) (v : Value)
    → Keeps s (elim v as (λ _. Option Chain) [
      | dict fs ↦ some (settle written (acked_id (get_field "msg_id" fs)) o s)
      | _ ↦ none
    ])
settle_payload-Keeps written o s (dict fs) =
    settle-same written (acked_id (get_field "msg_id" fs)) o s
settle_payload-Keeps written o s (null) = tt
settle_payload-Keeps written o s (bool b) = tt
settle_payload-Keeps written o s (nat n) = tt
settle_payload-Keeps written o s (neg n) = tt
settle_payload-Keeps written o s (float n) = tt
settle_payload-Keeps written o s (str n) = tt
settle_payload-Keeps written o s (list n) = tt
settle_payload-Keeps written o s (other n) = tt

settle_outbox-Keeps :
    (written : Write) (v : Value) (s : Chain) (o : Option Outbox)
    → Keeps s (elim o as (λ _. Option Chain) [
      | none ↦ some s
      | some outbox ↦ elim v as (λ _. Option Chain) [
        | dict fs ↦ some (settle written (acked_id (get_field "msg_id" fs)) outbox s)
        | _ ↦ none
      ]
    ])
settle_outbox-Keeps written v s none = (refl, refl)
settle_outbox-Keeps written v s (some outbox) = settle_payload-Keeps written outbox s v

acknowledge-Keeps :
    (written : Write) (env : Envelope) (s : Chain) → Keeps s (acknowledge written env s)
unfolding acknowledge
acknowledge-Keeps written env s = elim (Bool-cases (env.msg_type == "ack")) [
  | inr foreign ↦ rw (foreign, acknowledge) (refl, refl)
  | inl ack ↦ rw (ack, acknowledge) (settle_outbox-Keeps written env.payload s s.outbox)
]

-- What `dispatch` does for a chain that has the same agent and the message's key in its inbox.
dispatch-IsGuarded :
    (routers : List Router) (env : Envelope) (peer : String) (s0 s : Chain)
    → s.agent_id ≡ s0.agent_id
    → contains (key_of (text_or env.sender peer) env.msg_id) s0.inbox.seen ≡ false
    → contains (key_of (text_or env.sender peer) env.msg_id) s.inbox.seen ≡ true
    → let (s', d) = dispatch routers env peer s in IsGuarded s0 peer s' d
unfolding dispatch
dispatch-IsGuarded routers env peer s0 s same new kept =
    elim (Bool-cases (route routers env peer)) [
      | inl taken ↦ rw (taken, dispatch) tt
      | inr free ↦ elim (Bool-cases (addressed env s)) [
        | inr elsewhere ↦ rw (free, elsewhere, dispatch) tt
        | inl here ↦ rw (free, here, dispatch) (recipient-cases here, new, kept)
      ]
    ]
  where
    recipient-cases : addressed env s ≡ true → (env.recipient ≡ "*") ⊎ (env.recipient ≡ s0.agent_id)
    recipient-cases here = elim (Bool-cases (env.recipient == "*")) [
      | inl all ↦ inl ((string_eq.beq_iff env.recipient "*").0 all)
      | inr one ↦ inr ((string_eq.beq_iff env.recipient s.agent_id).0 (ground arith) ∙ same)
    ]

accept-IsGuarded :
    (written : Write) (routers : List Router) (env : Envelope) (peer : String) (s0 s : Chain)
    → s.agent_id ≡ s0.agent_id
    → contains (key_of (text_or env.sender peer) env.msg_id) s0.inbox.seen ≡ false
    → contains (key_of (text_or env.sender peer) env.msg_id) s.inbox.seen ≡ true
    → let (s', d) = accept written routers env peer s in IsGuarded s0 peer s' d
unfolding accept bump
accept-IsGuarded written routers env peer s0 s same new kept =
    go (acknowledge written env (bump "decoded" s))
      (acknowledge-Keeps written env (bump "decoded" s))
  where
    go :
        (o : Option Chain)
        → Keeps (bump "decoded" s) o
        → let (s', d) = elim o as (λ _. Chain × Delivery) [
          | none ↦ (bump "decoded" s, attribute_error)
          | some s' ↦ dispatch routers env peer s'
        ] in
          IsGuarded s0 peer s' d
    go none k = tt
    go (some s') k = dispatch-IsGuarded routers env peer s0 s' (k.0 ∙ same) new (rw (k.1) kept)

receive-IsGuarded :
    (written : Write) (routers : List Router) (env : Envelope) (peer : String) (s : Chain)
    → let (s', d) = receive written routers env peer s in IsGuarded s peer s' d
unfolding receive is_duplicate bump
receive-IsGuarded written routers env peer s =
    let key = key_of (text_or env.sender peer) env.msg_id in
    elim (Bool-cases (contains key s.inbox.seen)) [
      | inl known ↦ rw (known, receive, is_duplicate) tt
      | inr new ↦
          rw (new, receive, is_duplicate)
            (accept-IsGuarded written routers env peer s
              (record s { inbox = remember key (make_room s.inbox s.inbox.order) }) refl new
              (remembered key (make_room s.inbox s.inbox.order)))
    ]
  where
    remembered : (key : Key) (b : Inbox) → contains key (remember key b).seen ≡ true
    remembered key b = ground (arith, lookup-insert key key tt b.seen, beq_refl key)

refuse-IsGuarded :
    (e : Error) (peer : String) (s0 s : Chain) → let (s', d) = refuse e s in IsGuarded s0 peer s' d
refuse-IsGuarded e peer s0 s = elim (Bool-cases (is_protocol_error e)) [
  | inl caught ↦ rw caught tt
  | inr uncaught ↦ rw uncaught tt
]

module _ (py : Stdlib) where
  open_frame-IsGuarded :
      (written : Write) (wall : ℕ) (routers : List Router) (frame : List ℕ) (peer : String)
      (s : Chain)
      → let (s', d) = open_frame py written wall routers frame peer s in IsGuarded s peer s' d
  unfolding open_frame
  open_frame-IsGuarded written wall routers frame peer s =
      elim (Result-cases (decode py wall frame)) [
        | inl (e, fails) ↦ rw (fails, open_frame) (refuse-IsGuarded e peer s s)
        | inr (env, decoded) ↦
            rw (decoded, open_frame) (receive-IsGuarded written routers env peer s)
      ]

  -- Whatever frame comes in, from whatever peer and in whatever state: the handlers are called only
  -- with a message for all or for this agent whose sender and id were not in the inbox's window
  -- before, and are in it now. The sender is the peer where the message names none.
  pub on_frame-IsGuarded :
      (written : Write) (mono wall : ℕ) (routers : List Router) (peer : String) (frame : List ℕ)
      (s : Chain)
      → let (s', d) = on_frame py written mono wall routers peer frame s in IsGuarded s peer s' d
  unfolding on_frame
  on_frame-IsGuarded written mono wall routers peer frame s = go (add mono frame s.assembler).1
    where
      go :
          (r : Result (Option (List ℕ)))
          → let s' = record s { assembler = (add mono frame s.assembler).0 } in
            let (s'', d) = elim r as (λ _. Chain × Delivery) [
              | err e ↦ refuse e s'
              | ok none ↦ (s', incomplete)
              | ok (some whole) ↦ open_frame py written wall routers whole peer s'
            ] in
            IsGuarded s peer s'' d
      go (err e) =
          refuse-IsGuarded e peer s (record s { assembler = (add mono frame s.assembler).0 })
      go (ok none) = tt
      go (ok (some whole)) =
          open_frame-IsGuarded written wall routers whole peer
            (record s { assembler = (add mono frame s.assembler).0 })
