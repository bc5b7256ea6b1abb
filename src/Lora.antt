-- ===== src/Lora.antt =====
-- `class LoraTransport` of lora_transport.py: a queue of frames behind a duty cycle, and a receiver that
-- cuts frames out of a byte stream. Airtime is counted in thousandths of a bit at the link's rate, so
-- that it is a whole number: one second is kbps * 1000000 of them.
pub mod Duty
pub mod Pipe
pub mod Stream
pub mod Delivery
pub mod Reception
use shogunet.Prelude.{
  ℕ, zero, suc, ◌+◌, ◌-◌, ◌*◌, String, Option, none, some, List, [], ◌∷◌, ◌++◌, Bool, true, false,
  ltb, leb, ◌==◌, if◌then◌else◌, string_eq, nat_eq, length, take, drop,
}
use shogunet.Prelude.Dict.{elem}
use shogunet.Protocol.Errors.{Error, Result, ok, err, out_of_fuel}
use shogunet.Protocol.Registry.{max_envelope_bytes, class_task}
use shogunet.Protocol.Struct.{byte, pack32, unpack32}
use shogunet.Protocol.Envelope.{Stdlib, Envelope}
use shogunet.Protocol.Decode.{decode}
use shogunet.Protocol.Segment.{segment_frame}
use shogunet.Protocol.Assembler.{Assembler, add, new_assembler}
use shogunet.Chain.Sending.{is_protocol_error}

abbrev pub len_size : ℕ
len_size = 4

-- What the transport reads from outside: the clock, the wall clock, and the port, whose `write` says
-- whether it returned, and whose `read` gives no bytes where it raised.
pub record Radio (W : Type 0) : Type 0 where
  pub monotonic : W → ℕ × W
  pub wall : W → ℕ × W
  pub write : List ℕ → W → Bool × W
  pub read : W → List ℕ × W

-- `duty_window` is in milliseconds, and `airtime_fraction` in thousandths.
pub record Lora : Type 0 where
  pub rate : ℕ
  pub chunk_len : ℕ
  pub max_queue : ℕ
  pub outbox : List (List ℕ × ℕ)
  pub duty_window : ℕ
  pub airtime_fraction : ℕ
  pub airtime_used : ℕ
  pub window_start : ℕ
  pub assembler : Assembler
  pub recv_buf : List ℕ
  pub peers : List String

-- The constructor, behind its test of the agent's name: `none` is the ValueError.
unfoldable pub new_lora : ℕ → ℕ → ℕ → ℕ → ℕ → ℕ → Option Lora
unfolding new_assembler
new_lora rate max_queue chunk_len duty_window airtime_fraction now =
    if ltb chunk_len 40
    then none
    else some (record {
      rate = rate;
      chunk_len = chunk_len;
      max_queue = max_queue;
      outbox = [];
      duty_window = duty_window;
      airtime_fraction = airtime_fraction;
      airtime_used = 0;
      window_start = now;
      assembler = new_assembler 8 30000;
      recv_buf = [];
      peers = [];
    })

-- `send_frame`: a frame of a class that the link may carry joins the queue
unfoldable pub send_frame : List ℕ → ℕ → Lora → Lora × Bool
send_frame frame now s =
    if ltb (length frame) 16
    then (s, false)
    else if leb class_task (byte frame 5)
    then (s, false)
    else if leb s.max_queue (length s.outbox)
    then (s, false)
    else (record s { outbox = s.outbox ++ (frame, now) ∷ [] }, true)

-- self._profile.kbps if self._profile.kbps > 0 else 5.0
abbrev pub kbps_of : ℕ → ℕ
kbps_of rate = if ltb 0 rate then rate else 5

-- self._max_airtime * self._duty_window
abbrev pub budget : Lora → ℕ
budget s = s.airtime_fraction * s.duty_window * kbps_of s.rate

-- (byte_count * 8) / (kbps * 1000)
abbrev pub airtime : ℕ → ℕ
airtime byte_count = byte_count * 8000

unfoldable pub reset_window_if_needed : ℕ → Lora → Lora
reset_window_if_needed now s =
    if leb s.duty_window (now - s.window_start)
    then record s { window_start = now; airtime_used = 0 }
    else s

unfoldable pub airtime_budget_remaining : ℕ → Lora → Lora × ℕ
unfolding reset_window_if_needed
airtime_budget_remaining now s =
    let s' = reset_window_if_needed now s in (s', budget s' - s'.airtime_used)

unfoldable pub consume_airtime : ℕ → Lora → Lora
consume_airtime byte_count s = record s { airtime_used = s.airtime_used + airtime byte_count }

-- What was written to the port, beside the start of the duty window in which it was.
abbrev pub Airing : Type 0
Airing = ℕ × List ℕ

-- struct.pack(_LEN_FMT, len(chunk)) + chunk
abbrev pub wire : List ℕ → List ℕ
wire chunk = pack32 (length chunk) chunk

-- How a drain ends: nothing was queued, the budget ran out, the port raised, the frame went out, or
-- `segment_frame` raised.
pub data Drained : Type 0 where
  idle deferred broken sent : Drained
  raised : Error → Drained

-- What came in: its sender and the frame that the subscribers are given.
abbrev pub Heard : Type 0
Heard = String × List ℕ

-- self._peers.add
abbrev pub add_peer : String → List String → List String
add_peer name peers = if elem name peers then peers else name ∷ peers

-- How a frame in the receive buffer begins: too few bytes, a length that is refused, or the frame and
-- what follows it.
pub data Cut : Type 0 where
  starved oversized : Cut
  framed : List ℕ → List ℕ → Cut

abbrev pub next_length : List ℕ → ℕ
next_length buf = unpack32 (byte buf 0) (byte buf 1) (byte buf 2) (byte buf 3)

-- One round of the receive loop's tests.
unfoldable pub next_frame : List ℕ → Cut
next_frame buf =
    if ltb (length buf) len_size
    then starved
    else let len = next_length buf in
      if ltb max_envelope_bytes len
      then oversized
      else if ltb (length buf) (len + len_size)
      then starved
      else framed (take len (drop len_size buf)) (drop (len + len_size) buf)

module _ {W : Type 0} (port : Radio W) where
  -- for chunk in chunks
  unfoldable pub send_chunks : List (List ℕ) → Lora → W → Lora × W × List Airing × Drained
  unfolding airtime_budget_remaining consume_airtime
  send_chunks [] s w = (s, w, [], sent)
  send_chunks (c ∷ cs) s w =
      let (now, w1) = port.monotonic w in
      let (s1, remaining) = airtime_budget_remaining now s in
      let s2 = consume_airtime (length c + len_size) s1 in
      let (written, w2) = port.write (wire c) w1 in
      let (s3, w3, airings, ending) = send_chunks cs s2 w2 in
      if ltb remaining (airtime (length c + len_size))
      then (s1, w1, [], deferred)
      else if written
      then (s3, w3, (s2.window_start, wire c) ∷ airings, ending)
      else (s2, w2, [], broken)

  -- self._outbox.popleft(), where every chunk went out
  abbrev pub pop_sent : Lora × W × List Airing × Drained → Lora × W × List Airing × Drained
  pop_sent (s, w, airings, sent) = (record s { outbox = drop 1 s.outbox }, w, airings, sent)
  pop_sent (s, w, airings, ending) = (s, w, airings, ending)

  unfoldable pub drain_frame : List ℕ → Lora → W → Lora × W × List Airing × Drained
  unfolding send_chunks segment_frame
  drain_frame frame s w = elim (segment_frame frame s.chunk_len) [
    | err e ↦ (s, w, [], raised e)
    | ok chunks ↦ pop_sent (send_chunks chunks s w)
  ]

  unfoldable pub drain_outbox : Lora → W → Lora × W × List Airing × Drained
  unfolding drain_frame
  drain_outbox s w = elim s.outbox [
    | [] ↦ (s, w, [], idle)
    | (frame, _) ∷ _ ↦ drain_frame frame s w
  ]

  module _ (py : Stdlib) where
    -- An assembled frame.
    unfoldable pub decode_frame : List ℕ → Lora → W → Lora × W × Result (Option Heard)
    unfolding decode is_protocol_error
    decode_frame whole s w =
        let (wall, w') = port.wall w in
        elim (decode py wall whole) [
          | err e ↦ if is_protocol_error e then (s, w', ok none) else (s, w', err e)
          | ok env ↦
              (record s { peers = add_peer env.sender s.peers }, w', ok (some (env.sender, whole)))
        ]

    unfoldable pub handle_frame : List ℕ → Lora → W → Lora × W × Result (Option Heard)
    unfolding add decode_frame
    handle_frame frame s w =
        let (now, w1) = port.monotonic w in
        let (assembler', assembled) = add now frame s.assembler in
        let s1 = record s { assembler = assembler' } in
        elim assembled [
          | err e ↦ (s1, w1, err e)
          | ok none ↦ (s1, w1, ok none)
          | ok (some whole) ↦ decode_frame whole s1 w1
        ]

    -- A frame that was cut out, and what handling it returned or raised.
    abbrev pub Handled : Type 0
    Handled = List ℕ × Result (Option Heard)

    -- while len(self._recv_buf) >= _LEN_SIZE: an exception ends the loop, behind the frame that it came from
    unfoldable pub receive : ℕ → Lora → W → Lora × W × List Handled
    unfolding next_frame handle_frame
    receive zero s w = (s, w, ([], err out_of_fuel) ∷ [])
    receive (suc fuel) s w = elim (next_frame s.recv_buf) [
      | starved ↦ (s, w, [])
      | oversized ↦ (record s { recv_buf = [] }, w, [])
      | framed frame rest ↦
          let (s1, w1, answer) = handle_frame frame (record s { recv_buf = rest }) w in
          elim answer [
            | err e ↦ (s1, w1, (frame, err e) ∷ [])
            | ok heard ↦
                let (s2, w2, more) = receive fuel s1 w1 in (s2, w2, (frame, ok heard) ∷ more)
          ]
    ]

    -- `_pump_receiver`: one round of fuel for each byte, and one more, is enough
    unfoldable pub pump_receiver : Lora → W → Lora × W × List Handled
    unfolding receive
    pump_receiver s w =
        let (chunk, w') = port.read w in
        if length chunk == 0
        then (s, w', [])
        else let s' = record s { recv_buf = s.recv_buf ++ chunk } in
          receive (suc (length s'.recv_buf)) s' w'

    -- The handler of the last frame raised.
    abbrev pub raises : List Handled → Bool
    raises [] = false
    raises ((frame, err e) ∷ _) = true
    raises ((frame, ok heard) ∷ more) = raises more

    -- `poll`: where the receiver raises, `none`, the outbox is not drained
    unfoldable pub poll : Lora → W → Lora × W × List Handled × List Airing × Option Drained
    unfolding pump_receiver drain_outbox
    poll s w =
        let (s1, w1, handled) = pump_receiver s w in
        let (s2, w2, airings, ending) = drain_outbox s1 w1 in
        if raises handled
        then (s1, w1, handled, [], none)
        else (s2, w2, handled, airings, some ending)
