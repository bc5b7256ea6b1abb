-- ===== src/LinkSimulator.antt =====
-- `SimulatedEther` and `SimulatedTransport` of link_simulator.py. Times are in milliseconds times the rate of
-- the link in kbit/s, or times one where it has none, so the airtime of a frame is its number of bits; the
-- arithmetic is exact. An endpoint is known by a number, as an object by its identity.
pub mod Accounts
pub mod Conservation
pub mod Delivery
use shogunet.Prelude.{
  ℕ, suc, ◌+◌, ◌*◌, ◌-◌, String, Option, none, some, List, [], ◌∷◌, ◌++◌, Bool, true, false, not,
  ◌&&◌, ◌||◌, ltb, leb, max, min, ◌==◌, if◌then◌else◌, string_eq, nat_eq, length, drop, filter,
}
use shogunet.Prelude.Dict.{Dict, lookup, insert, elem, remove_first}
use shogunet.Security.{Unicode, sanitize_text, strip}
use shogunet.Transports.{LinkProfile}

abbrev pub Mail : Type 0
Mail = String × List ℕ

pub record Endpoint : Type 0 where
  pub agent_id : String
  pub max_queue : ℕ
  pub inbox : List Mail
  pub sent : ℕ
  pub send_failed : ℕ
  pub received : ℕ
  pub dropped : ℕ

-- An entry of `_scheduled`.
pub record Frame : Type 0 where
  pub due : ℕ
  pub sender : String
  pub recipient : String
  pub bytes : List ℕ

-- `airtime` lists the start and the end of each transmission; the endpoints are all that exist, members or
-- not.
pub record Ether : Type 0 where
  pub running : Bool
  pub profile : LinkProfile
  pub scheduled_cap : ℕ
  pub members : List ℕ
  pub endpoints : Dict ℕ Endpoint
  pub scheduled : List Frame
  pub airtime : List (ℕ × ℕ)
  pub submitted : ℕ
  pub delivered : ℕ
  pub dropped_loss : ℕ
  pub dropped_mtu : ℕ
  pub dropped_duty : ℕ
  pub dropped_overflow : ℕ
  pub dropped_no_member : ℕ

unfoldable pub new_ether : LinkProfile → ℕ → Ether
new_ether profile cap = record {
  running = false;
  profile = profile;
  scheduled_cap = max 1 cap;
  members = [];
  endpoints = [];
  scheduled = [];
  airtime = [];
  submitted = 0;
  delivered = 0;
  dropped_loss = 0;
  dropped_mtu = 0;
  dropped_duty = 0;
  dropped_overflow = 0;
  dropped_no_member = 0;
}

-- A second start changes nothing.
unfoldable pub start : Ether → Ether
start s = if s.running then s else record s { running = true }

unfoldable pub close : Ether → Ether
close s = record s { running = false }

unfoldable pub join : ℕ → Ether → Ether
join id s = if elem id s.members then s else record s { members = s.members ++ id ∷ [] }

unfoldable pub leave : ℕ → Ether → Ether
leave id s = if elem id s.members then record s { members = remove_first id s.members } else s

abbrev pub put_endpoint : ℕ → Endpoint → Ether → Ether
put_endpoint id e s = record s { endpoints = insert id e s.endpoints }

-- `__init__` of the transport: `none` is the ValueError.
module _ (u : Unicode) where
  unfoldable pub new_endpoint : ℕ → String → ℕ → Ether → Option Ether
  unfolding join sanitize_text strip
  new_endpoint id agent_id max_queue s =
      let agent = strip u (sanitize_text u (some agent_id) 48) in
      let e : Endpoint = record {
        agent_id = agent;
        max_queue = max 1 max_queue;
        inbox = [];
        sent = 0;
        send_failed = 0;
        received = 0;
        dropped = 0;
      } in
      if agent == "" then none else some (join id (put_endpoint id e s))

-- A full queue drops its oldest mail.
unfoldable pub deliver : Mail → Endpoint → Endpoint
deliver mail e =
    if length e.inbox == e.max_queue
    then record e { inbox = drop 1 e.inbox ++ mail ∷ []; dropped = e.dropped + 1 }
    else record e { inbox = e.inbox ++ mail ∷ [] }

-- `[m for m in self._members if ...]`
abbrev pub is_target : Frame → Ether → ℕ → Bool
is_target f s id = elim (lookup id s.endpoints) [
  | none ↦ false
  | some e ↦
      not (e.agent_id == f.sender)
      && ((f.recipient == "*") || ((f.recipient == "") || (e.agent_id == f.recipient)))
]

-- for member in targets
unfoldable pub deliver_all : Mail → List ℕ → Ether → Ether
unfolding deliver
deliver_all mail [] s = s
deliver_all mail (id ∷ ids) s = deliver_all mail ids (elim (lookup id s.endpoints) [
  | none ↦ s
  | some e ↦ record s {
    endpoints = insert id (deliver mail e) s.endpoints;
    delivered = s.delivered + 1;
  }
])

unfoldable pub dispatch : Frame → Ether → Ether
unfolding deliver_all
dispatch f s =
    let targets = filter (is_target f s) s.members in
    deliver_all (f.sender, f.bytes) targets
      (if length targets == 0 then record s { dropped_no_member = s.dropped_no_member + 1 } else s)

-- One round of `_run`, and whether it dispatched a frame; else it waits, or its thread has ended.
abbrev pub run_scheduled : ℕ → List Frame → Ether → Ether × Bool
run_scheduled now [] s = (s, false)
run_scheduled now (f ∷ fs) s =
    if ltb now f.due then (s, false) else (dispatch f (record s { scheduled = fs }), true)

unfoldable pub run_once : ℕ → Ether → Ether × Bool
unfolding dispatch
run_once now s = if s.running then run_scheduled now s.scheduled s else (s, false)

abbrev pub rate : LinkProfile → ℕ
rate p = max 1 p.kbps

-- _WINDOW_S
abbrev pub window : LinkProfile → ℕ
window p = 3600000 * rate p

unfoldable pub airtime_of : LinkProfile → ℕ → ℕ
airtime_of p frame_len = if p.kbps == 0 then 0 else frame_len * 8

-- The sum of the overlaps with the window that ends at `window_end`.
unfoldable pub used : ℕ → ℕ → List (ℕ × ℕ) → ℕ
used span window_end [] = 0
used span window_end ((t_start, t_end) ∷ ts) =
    (min t_end window_end - max t_start (window_end - span)) + used span window_end ts

-- The duty cycle is in percent.
unfoldable pub duty_allows : ℕ → ℕ → Ether → Bool
unfolding used
duty_allows start airtime s = elim s.profile.duty_cycle [
  | none ↦ true
  | some percent ↦
      leb (100 * (used (window s.profile) (start + airtime) s.airtime + airtime))
        (percent * window s.profile)
]

-- while self._airtime and self._airtime[0][1] < now - _WINDOW_S
unfoldable pub prune : ℕ → ℕ → List (ℕ × ℕ) → List (ℕ × ℕ)
prune span now [] = []
prune span now ((t_start, t_end) ∷ ts) =
    if ltb (t_end + span) now then prune span now ts else (t_start, t_end) ∷ ts

unfoldable pub note_airtime : ℕ → ℕ → Ether → Ether
unfolding prune
note_airtime now airtime s = if airtime == 0 then s else record s {
  airtime = prune (window s.profile) now (s.airtime ++ (now, now + airtime) ∷ []);
}

-- What the random numbers say: whether the frame is lost, and the jitter. Without a loss rate none is lost.
pub record Draw : Type 0 where
  pub lost : Bool
  pub jitter : ℕ

abbrev pub recipient_of : Option String → String
recipient_of none = "*"
recipient_of (some peer) = if peer == "" then "*" else peer

-- The second half of `submit`.
unfoldable pub schedule : ℕ → Draw → String → Option String → List ℕ → Ether → Ether × Bool
unfolding airtime_of
schedule now draw sender recipient frame s =
    if draw.lost
    then (record s { dropped_loss = s.dropped_loss + 1 }, false)
    else if length s.scheduled == s.scheduled_cap
    then (record s { dropped_overflow = s.dropped_overflow + 1 }, false)
    else (
      record s {
        scheduled =
            s.scheduled
            ++ record {
              due =
                  now
                  + (s.profile.latency * rate s.profile
                      + airtime_of s.profile (length frame)
                      + draw.jitter);
              sender = sender;
              recipient = recipient_of recipient;
              bytes = frame;
            }
              ∷ [];
      },
      true,
    )

unfoldable pub admit : ℕ → Draw → String → Option String → List ℕ → Ether → Ether × Bool
unfolding schedule duty_allows note_airtime
admit now draw sender recipient frame s =
    let airtime = airtime_of s.profile (length frame) in
    if ltb s.profile.max_payload_bytes (length frame)
    then (record s { dropped_mtu = s.dropped_mtu + 1 }, false)
    else if not (duty_allows now airtime s)
    then (record s { dropped_duty = s.dropped_duty + 1 }, false)
    else schedule now draw sender recipient frame (note_airtime now airtime s)

unfoldable pub submit : ℕ → Draw → String → Option String → List ℕ → Ether → Ether × Bool
unfolding admit
submit now draw sender recipient frame s =
    admit now draw sender recipient frame (record s { submitted = s.submitted + 1 })

abbrev pub count_sent : Bool → Endpoint → Endpoint
count_sent true e = record e { sent = e.sent + 1 }
count_sent false e = record e { send_failed = e.send_failed + 1 }

-- `send_frame` of an endpoint that exists.
unfoldable pub send_frame : ℕ → ℕ → Draw → Option String → List ℕ → Ether → Ether
unfolding submit
send_frame id now draw peer frame s = elim (lookup id s.endpoints) [
  | none ↦ s
  | some e ↦
      let (s', carried) = submit now draw e.agent_id peer frame s in
      put_endpoint id (count_sent carried e) s'
]

-- `poll`: the mail for the subscribers, oldest first, where nothing is delivered meanwhile
unfoldable pub poll : ℕ → Ether → Ether × List Mail
poll id s = elim (lookup id s.endpoints) [
  | none ↦ (s, [])
  | some e ↦
      (put_endpoint id (record e { inbox = []; received = e.received + length e.inbox }) s, e.inbox)
]
