-- ===== src/RelayClient.antt =====
-- `_RelayHttpClient` and `RelayTransport` of relay_transport.py, the agent's side of the hub. What the hub
-- answers to a request is an argument. Delays are the bit patterns of doubles.
pub mod Heard
pub mod Reading
pub mod Starting
use shogunet.Prelude.{
  max, ℕ, suc, ◌+◌, String, Option, none, some, List, [], ◌∷◌, ◌++◌, Bool, true, false, not, ◌&&◌,
  ◌||◌, ltb, ◌==◌, if◌then◌else◌, string_eq, nat_eq, length, drop,
}
use shogunet.Payload.{Value, str, dict, Fields, get_field}
use shogunet.Protocol.Errors.{Result, ok, err}
use shogunet.Protocol.Envelope.{Stdlib}
use shogunet.Protocol.Header.{peek_header}
use shogunet.Protocol.Registry.{max_envelope_bytes}
use shogunet.Memory.Reading.{get_or_default, text_of}

-- How a request ends: with ConnectionError, with what another exception says, such as that the answer is no
-- JSON, or with what the hub answers.
pub data Answer (A : Type 0) : Type 0 where
  unreachable : Answer A
  raises : Answer A
  answered : A → Answer A

abbrev pub Mail : Type 0
Mail = String × List ℕ

pub record Client : Type 0 where
  pub running : Bool
  pub stopping : Bool
  pub threaded : Bool
  pub connected : Bool
  pub max_queue : ℕ
  pub inbox : List Mail
  pub registered : ℕ
  pub sent : ℕ
  pub send_failed : ℕ
  pub received : ℕ
  pub poll_errors : ℕ

-- The state that `__init__` begins with.
unfoldable pub new_client : ℕ → Client
new_client max_queue = record {
  running = false;
  stopping = false;
  threaded = false;
  connected = false;
  max_queue = max 1 max_queue;
  inbox = [];
  registered = 0;
  sent = 0;
  send_failed = 0;
  received = 0;
  poll_errors = 0;
}

unfoldable pub is_available : Client → Bool
is_available c = c.running && c.connected

-- What follows the registration in `start`, and whether it returns.
abbrev pub registered_by : Answer Bool → Client → Client × Bool
registered_by unreachable c = (c, false)
registered_by raises c = (c, false)
registered_by (answered true) c =
    (record c { connected = true; registered = c.registered + 1; threaded = true }, true)
registered_by (answered false) c = (record c { connected = false; threaded = true }, true)

unfoldable pub start : Answer Bool → Client → Client × Bool
start registration c =
    if c.running
    then (c, true)
    else registered_by registration (record c { running = true; stopping = false })

unfoldable pub stop : Client → Client
stop c = record c { running = false; stopping = true; threaded = false; connected = false }

-- A full queue drops its oldest mail: the newest wins.
unfoldable pub push : Mail → Client → Client
push mail c =
    if length c.inbox == c.max_queue
    then record c { inbox = drop 1 c.inbox ++ mail ∷ [] }
    else record c { inbox = c.inbox ++ mail ∷ [] }

-- `poll`: the mail for the subscribers, oldest first, where none comes in meanwhile
unfoldable pub poll : Client → Client × List Mail
poll c = (record c { inbox = []; received = c.received + length c.inbox }, c.inbox)

-- How a round of the poll loop ends: it goes on with a delay, the loop returns, or an exception ends the thread.
pub data End : Type 0 where
  goes_on : ℕ → End
  returns : End
  dies : End

-- What a round meets: the answers to its requests, and whether the wait for a retry is ended by `stop`.
pub record Round : Type 0 where
  pub registration : Answer Bool
  pub messages : Answer (List Value)
  pub stopped : Bool

-- b64decode with validation, `none` where it raises; the text of a value; and min(retry * 1.5, 30.0).
module _ (py : Stdlib) (b64decode : String → Option (List ℕ)) (longer : ℕ → ℕ) where
  -- The mail in a message, where its frame decodes and has a header.
  unfoldable pub mail_of : Fields → Option Mail
  unfolding get_field peek_header
  mail_of fs = elim (b64decode (py.to_str (get_or_default "frame_b64" (str "") fs))) [
    | none ↦ none
    | some frame ↦ elim (peek_header frame) [
      | err e ↦ none
      | ok head ↦
          let sender = text_of py (get_or_default "sender" (str "") fs) 48 in
          some (if sender == "" then "?" else sender, frame)
    ]
  ]

  unfoldable pub take_message : Fields → Client → Client
  unfolding mail_of push
  take_message fs c = elim (mail_of fs) [
    | none ↦ record c { poll_errors = c.poll_errors + 1 }
    | some mail ↦ push mail c
  ]

  -- for message in messages; false where one is no dict
  unfoldable pub take_messages : List Value → Client → Client × Bool
  unfolding take_message
  take_messages [] c = (c, true)
  take_messages (dict fs ∷ vs) c = take_messages vs (take_message fs c)
  take_messages (_ ∷ vs) c = (c, false)

  -- The wait before a retry.
  abbrev pub wait : Bool → ℕ → Client → Client × End
  wait true retry c = (c, returns)
  wait false retry c = (c, goes_on (longer retry))

  unfoldable pub read_round : ℕ → ℕ → Round → Client → Client × End
  unfolding take_messages
  read_round base retry r c = elim r.messages [
    | unreachable ↦
        wait r.stopped retry (record c { connected = false; poll_errors = c.poll_errors + 1 })
    | raises ↦ (c, dies)
    | answered vs ↦ let (c', fine) = take_messages vs c in (c', if fine then goes_on base else dies)
  ]

  -- A client that is not connected registers first.
  unfoldable pub offline_round : ℕ → ℕ → Round → Client → Client × End
  unfolding read_round
  offline_round base retry r c = elim r.registration [
    | unreachable ↦ wait r.stopped retry c
    | raises ↦ (c, dies)
    | answered accepted ↦
        if accepted
        then read_round base retry r (record c { connected = true; registered = c.registered + 1 })
        else wait r.stopped retry c
  ]

  -- A round of `_poll_loop`, with the delays at first and now.
  unfoldable pub loop_round : ℕ → ℕ → Round → Client → Client × End
  unfolding offline_round
  loop_round base retry r c =
      if c.connected then read_round base retry r c else offline_round base retry r c

  -- `_poll_loop` over its rounds, until `stop`.
  unfoldable pub poll_loop : ℕ → ℕ → List Round → Client → Client × End
  unfolding loop_round
  poll_loop base retry [] c = (c, returns)
  poll_loop base retry (r ∷ rs) c =
      let (c', end) = loop_round base retry r c in
      let go : ℕ → Client × End = λ delay. poll_loop base delay rs c' in
      elim end [ goes_on delay ↦ go delay | returns ↦ (c', returns) | dies ↦ (c', dies) ]

-- peer in (None, "", "*")
abbrev pub no_peer : Option String → Bool
no_peer none = true
no_peer (some peer) = (peer == "") || (peer == "*")

-- `deliver` of the HTTP client makes no request for a frame over the cap.
abbrev pub deliver : List ℕ → Answer Bool → Answer Bool
deliver frame answer = if ltb max_envelope_bytes (length frame) then answered false else answer

abbrev pub failed : Client → Client
failed c = record c { send_failed = c.send_failed + 1 }

-- What `send_frame` returns, `none` where it raises.
abbrev pub sent_by : Answer Bool → Client → Client × Option Bool
sent_by unreachable c = (failed (record c { connected = false }), some false)
sent_by raises c = (c, none)
sent_by (answered true) c = (record c { sent = c.sent + 1 }, some true)
sent_by (answered false) c = (failed c, some false)

unfoldable pub send_frame : Option String → List ℕ → Answer Bool → Client → Client × Option Bool
unfolding peek_header
send_frame peer frame answer c =
    if not c.connected || no_peer peer then (failed c, some false) else elim (peek_header frame) [
      | err e ↦ (failed c, some false)
      | ok head ↦ sent_by (deliver frame answer) c
    ]
