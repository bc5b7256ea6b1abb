-- ===== src/Relay.antt =====
-- `class RelayHub` of relay_server.py: registered agents and their mailboxes. Readings of the
-- monotonic clock are arguments, in milliseconds.
pub mod Invariant
pub mod Polling
use shogunet.Prelude.{
  ℕ, suc, ◌+◌, ◌-◌, ◌≡◌, String, Option, none, some, List, [], ◌∷◌, ◌++◌, Bool, true, false, not,
  ◌&&◌, ltb, leb, max, ◌==◌, if◌then◌else◌, string_eq, nat_eq, length, take, drop, is_some,
}
use shogunet.Prelude.Dict.{Dict, lookup, insert, contains}
use shogunet.Security.{sanitize_text, strip}
use shogunet.Payload.{Fields}
use shogunet.Protocol.Errors.{Error, Result, ok, err, ◌>>=◌}
use shogunet.Protocol.Header.{Header, peek_header}
use shogunet.Protocol.Envelope.{Stdlib, Envelope, or_all}
use shogunet.Protocol.Decode.{decode}
use shogunet.Chain.Sending.{is_protocol_error}

pub record Info : Type 0 where
  pub realm : String
  pub manifest : Fields
  pub registered_at : ℕ

-- (expiry, sender, frame)
pub record Message : Type 0 where
  pub expiry : ℕ
  pub sender : String
  pub frame : List ℕ

pub record Hub : Type 0 where
  pub max_messages : ℕ
  pub message_ttl : ℕ
  pub max_registered : ℕ
  pub agents : Dict String Info
  pub mailboxes : Dict String (List Message)
  pub stats : Dict String ℕ

pub data Reply : Type 0 where
  id_required at_capacity : Reply
  registered : String → Reply
  invalid_frame unknown_sender recipient_unknown mailbox_full : Reply
  delivered : String → Reply

-- One message of the answer of `poll`, its frame before base64.
pub record Drained : Type 0 where
  pub sender : String
  pub frame : List ℕ
  pub msg_id : ℕ

unfoldable pub new_hub : ℕ → ℕ → ℕ → Hub
new_hub max_messages message_ttl max_registered = record {
  max_messages = max 1 max_messages;
  message_ttl = max 10 message_ttl;
  max_registered = max 1 max_registered;
  agents = [];
  mailboxes = [];
  stats = [];
}

-- self._stats[key] += n
abbrev pub count : String → ℕ → Hub → Hub
count key n h = record h {
  stats = insert key (elim (lookup key h.stats) [ none ↦ n | some m ↦ m + n ]) h.stats;
}

abbrev pub put_mailbox : String → List Message → Hub → Hub
put_mailbox name messages h = record h { mailboxes = insert name messages h.mailboxes }

-- `_expire_locked`: while the first message is older than its time
unfoldable pub expire : ℕ → List Message → List Message
expire now [] = []
expire now (m ∷ ms) = if ltb m.expiry now then expire now ms else m ∷ ms

-- `_expire_locked` on the mailbox of an agent, with its count.
unfoldable pub expire_locked : ℕ → String → List Message → Hub → Hub
unfolding expire
expire_locked now name messages h =
    let kept = expire now messages in
    let h' = put_mailbox name kept h in
    let expired = length messages - length kept in
    if ltb 0 expired then count "expired" expired h' else h'

-- The frame is valid and its sender is `sender`.
unfoldable pub enqueue : ℕ → ℕ → String → String → List ℕ → Hub → Hub × Reply
unfolding expire_locked expire
enqueue now later recipient sender frame h = elim (lookup recipient h.mailboxes) [
  | none ↦ (count "dropped_unknown_recipient" 1 h, recipient_unknown)
  | some messages ↦
      let kept = expire now messages in
      let h' = expire_locked now recipient messages h in
      let message : Message = record {
        expiry = later + h.message_ttl;
        sender = sender;
        frame = frame;
      } in
      if leb h.max_messages (length kept)
      then (count "dropped_full" 1 h', mailbox_full)
      else (count "delivered" 1 (put_mailbox recipient (kept ++ message ∷ []) h'), delivered sender)
]

abbrev pub replied : Hub × Reply → Hub × Result Reply
replied (h, reply) = (h, ok reply)

-- except ProtocolError
unfoldable pub refuse : Error → Hub → Hub × Result Reply
unfolding is_protocol_error
refuse e h = if is_protocol_error e then (count "dropped_bad" 1 h, ok invalid_frame) else (h, err e)

module _ (py : Stdlib) where
  unfoldable pub register : ℕ → String → String → Fields → Hub → Hub × Reply
  unfolding sanitize_text strip
  register wall agent_id realm manifest h =
      let u = py.unicode in
      let agent = strip u (sanitize_text u (some agent_id) 48) in
      let info : Info = record {
        realm = or_all (sanitize_text u (some realm) 8);
        manifest = manifest;
        registered_at = wall;
      } in
      let h' = record h { agents = insert agent info h.agents } in
      let h'' = if contains agent h.mailboxes then h' else put_mailbox agent [] h' in
      if agent == ""
      then (h, id_required)
      else if not (contains agent h.agents) && leb h.max_registered (length h.agents)
      then (h, at_capacity)
      else (count "registered" 1 h'', registered agent)

  -- `err` is an exception that is no ProtocolError.
  unfoldable pub deliver : ℕ → ℕ → ℕ → String → List ℕ → Hub → Hub × Result Reply
  unfolding enqueue decode refuse
  deliver wall now later recipient frame h =
      elim (peek_header frame >>= (λ head. decode py wall frame)) [
        | err e ↦ refuse e h
        | ok env ↦
            if contains env.sender h.agents
            then replied (enqueue now later recipient env.sender frame h)
            else (count "dropped_spoofed" 1 h, ok unknown_sender)
      ]

-- One round of the loop of `poll`: what is drained, up to `room` messages, and the hub.
unfoldable pub drain : ℕ → ℕ → String → Hub → Hub × List Message
unfolding expire_locked expire
drain now room agent h = elim (lookup agent h.mailboxes) [
  | none ↦ (h, [])
  | some messages ↦
      let kept = expire now messages in
      (put_mailbox agent (drop room kept) (expire_locked now agent messages h), take room kept)
]

-- The answer's messages: `peek_header` once more.
unfoldable pub answer : List Message → Result (List Drained)
answer [] = ok []
answer (m ∷ ms) = do
  head ← peek_header m.frame
  rest ← answer ms
  ok (record { sender = m.sender; frame = m.frame; msg_id = head.msg_id } ∷ rest)

-- The loop of `poll`, over the wakings: the reading of the clock, and what the other threads have
-- made of the hub by then. `none`: it still waits.
unfoldable pub poll_loop :
    ℕ → ℕ → String → List (ℕ × (Hub → Hub)) → Hub → Option (Hub × List Message)
unfolding drain
poll_loop deadline room agent [] h = none
poll_loop deadline room agent ((now, others) ∷ rest) h =
    let (h', drained) = drain now room agent (others h) in
    let later = poll_loop deadline room agent rest h' in
    if leb deadline now
    then some (h', drained)
    else elim drained [ [] ↦ later | m ∷ ms ↦ some (h', m ∷ ms) ]

-- The answer is `none` for an agent without a mailbox.
unfoldable pub poll :
    ℕ → ℕ → String → List (ℕ × (Hub → Hub)) → Hub → Option (Hub × Option (Result (List Drained)))
unfolding poll_loop answer
poll deadline room agent rounds h =
    if contains agent h.mailboxes
    then elim (poll_loop deadline room agent rounds h) [
      | none ↦ none
      | some (h', drained) ↦ some (count "polls" 1 h', some (answer drained))
    ]
    else some (h, none)
