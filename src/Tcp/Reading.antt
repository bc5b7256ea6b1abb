-- ===== src/Tcp/Reading.antt =====
-- `_recv_exact` and `_read_loop` of tcp_transport.py, over what the socket does: bytes come in, the receive
-- times out, or, as no bytes, the peer has closed.
use shogunet.Prelude.{
  ℕ, zero, suc, ◌-◌, ◌<◌, ◌≤◌, ◌≡◌, refl, ap, ◌∙◌, ◌⊎◌, inl, inr, List, [], ◌∷◌, ◌++◌, Bool, true,
  false, ◌||◌, ltb, leb, ◌==◌, if◌then◌else◌, nat_eq, length, take, drop, arith,
}
use shogunet.Protocol.Registry.{max_envelope_bytes}
use shogunet.Protocol.Struct.{byte, pack32, unpack32, unpack32-pack32}
use shogunet.Protocol.Envelope.{Stdlib}
use shogunet.Tcp.{Tcp, Hooks, Verdict, goes_on, ends, handle_frame, close_conn}

pub data Arrival : Type 0 where
  bytes : List ℕ → Arrival
  timeout : Arrival

-- What `_recv_exact` ends with: all the bytes, `None`, the ConnectionError, or still in the loop where
-- the socket has done nothing more.
pub data Received : Type 0 where
  got : List ℕ → List Arrival → Received
  idle : List Arrival → Received
  hung_up : Received
  waits : Received

-- while len(data) < n: a receive takes at most the bytes that are missing
unfoldable pub recv_exact : ℕ → List ℕ → List Arrival → Received
recv_exact n got_so_far [] = if leb n (length got_so_far) then got got_so_far [] else waits
recv_exact n got_so_far (timeout ∷ arrivals) =
    let rest = recv_exact n got_so_far arrivals in
    if leb n (length got_so_far)
    then got got_so_far (timeout ∷ arrivals)
    else if length got_so_far == 0
    then idle arrivals
    else rest
recv_exact n got_so_far (bytes chunk ∷ arrivals) =
    let missing = n - length got_so_far in
    let rest = recv_exact n (got_so_far ++ chunk) arrivals in
    if leb n (length got_so_far)
    then got got_so_far (bytes chunk ∷ arrivals)
    else if length chunk == 0
    then hung_up
    else if ltb missing (length chunk)
    then got (got_so_far ++ take missing chunk) (bytes (drop missing chunk) ∷ arrivals)
    else rest

-- Enough bytes are there.
recv_exact-full :
    (n : ℕ) (all : List ℕ) (arrivals : List Arrival)
    → leb n (length all) ≡ true
    → recv_exact n all arrivals ≡ got all arrivals
unfolding recv_exact
recv_exact-full n all [] h = rw h refl
recv_exact-full n all (timeout ∷ arrivals) h = rw h refl
recv_exact-full n all (bytes chunk ∷ arrivals) h = rw h refl

-- The bytes come in one piece.
pub recv_exact-one :
    (n : ℕ) (all : List ℕ) (arrivals : List Arrival)
    → length all ≡ n
    → 0 < n
    → recv_exact n [] (bytes all ∷ arrivals) ≡ got all arrivals
unfolding recv_exact
recv_exact-one n all arrivals same positive =
    ground (arith, recv_exact-full n all arrivals, same, positive)

pub recv_exact-idle :
    (n : ℕ) (arrivals : List Arrival) → 0 < n → recv_exact n [] (timeout ∷ arrivals) ≡ idle arrivals
unfolding recv_exact
recv_exact-idle n arrivals positive = ground (arith, positive)

-- What is left behind the first four bytes of a piece.
abbrev behind : List ℕ → List Arrival → List Arrival
behind [] later = later
behind (x ∷ xs) later = bytes (x ∷ xs) ∷ later

recv_exact-magic :
    (frame : List ℕ) (later : List Arrival)
    → recv_exact 4 [] (bytes (b'S' ∷ b'G' ∷ b'N' ∷ 1 ∷ frame) ∷ later)
      ≡ got (b'S' ∷ b'G' ∷ b'N' ∷ 1 ∷ []) (behind frame later)
unfolding recv_exact
recv_exact-magic [] later = recv_exact-one 4 (b'S' ∷ b'G' ∷ b'N' ∷ 1 ∷ []) later refl (omega arith)
recv_exact-magic (x ∷ xs) later = ground arith

recv_exact-nothing : recv_exact 4 [] [] ≡ waits
unfolding recv_exact
recv_exact-nothing = refl

Verdict-cases : (v : Verdict) → (v ≡ goes_on) ⊎ (v ≡ ends)
Verdict-cases goes_on = inl refl
Verdict-cases ends = inr refl

-- How the loop stands: it waits for the socket, or it has ended and closed the connection.
pub data Standing : Type 0 where
  reading closed out_of_fuel : Standing

abbrev pub length_of : List ℕ → ℕ
length_of raw = unpack32 (byte raw 0) (byte raw 1) (byte raw 2) (byte raw 3)

-- length <= 0 or length > MAX_ENVELOPE_BYTES
abbrev pub out_of_range : ℕ → Bool
out_of_range len = (len == 0) || ltb max_envelope_bytes len

module _ (py : Stdlib) (hooks : Hooks) where
  -- The loop of a transport that runs, with all the frames that it has handled; `wall` is the clock.
  unfoldable pub read_loop : ℕ → ℕ → ℕ → List Arrival → Tcp → Tcp × Standing × List (List ℕ)
  read_loop zero wall id arrivals s = (s, out_of_fuel, [])
  read_loop (suc fuel) wall id arrivals s = elim (recv_exact 4 [] arrivals) [
    | waits ↦ (s, reading, [])
    | hung_up ↦ (close_conn id s, closed, [])
    | idle later ↦ read_loop fuel wall id later s
    | got raw later ↦
        if out_of_range (length_of raw)
        then (close_conn id s, closed, [])
        else elim (recv_exact (length_of raw) [] later) [
          | waits ↦ (s, reading, [])
          | hung_up ↦ (close_conn id s, closed, [])
          | idle later' ↦ read_loop fuel wall id later' s
          | got frame later' ↦
              let (s1, verdict) = handle_frame py hooks wall id frame s in
              elim verdict [
                | ends ↦ (close_conn id s1, closed, frame ∷ [])
                | goes_on ↦
                    let (s2, standing, more) = read_loop fuel wall id later' s1 in
                    (s2, standing, frame ∷ more)
              ]
        ]
  ]

  -- A frame that begins as every frame of the protocol does, sent behind its length. Where both parts come
  -- in without a pause, the frame is handled. Where the receive times out once between them, the loop takes
  -- the first bytes of the frame for the next length: it handles nothing and closes the connection.
  pub read_loop-timeout :
      (fuel wall id len : ℕ) (frame : List ℕ) (later : List Arrival) (s : Tcp)
      → length (b'S' ∷ b'G' ∷ b'N' ∷ 1 ∷ frame) ≡ len
      → len ≤ max_envelope_bytes
      → ((read_loop
            (suc (suc fuel))
            wall
            id
            (bytes (pack32 len []) ∷ bytes (b'S' ∷ b'G' ∷ b'N' ∷ 1 ∷ frame) ∷ [])
            s).2
          ≡ (b'S' ∷ b'G' ∷ b'N' ∷ 1 ∷ frame) ∷ [])
        × (read_loop
              (suc (suc fuel))
              wall
              id
              (bytes (pack32 len []) ∷ timeout ∷ bytes (b'S' ∷ b'G' ∷ b'N' ∷ 1 ∷ frame) ∷ later)
              s
            ≡ (close_conn id s, closed, []))
  unfolding read_loop
  read_loop-timeout fuel wall id len frame later s same fits =
      let raw = pack32 len [] in
      let body : List ℕ = b'S' ∷ b'G' ∷ b'N' ∷ 1 ∷ frame in
      let len_ok : length_of raw ≡ len = unpack32-pack32 len (omega arith) in
      let in_range : out_of_range len ≡ false = ground (arith, same) in
      let prompt : recv_exact (length_of raw) [] (bytes body ∷ []) ≡ got body [] =
        rw (len_ok) (recv_exact-one len body [] same (ground (arith, same))) in
      let late : recv_exact (length_of raw) [] (timeout ∷ bytes body ∷ later)
          ≡ idle (bytes body ∷ later) =
        rw len_ok (recv_exact-idle len (bytes body ∷ later) (ground (arith, same))) in
      let first = λ (r : List Arrival). recv_exact-one 4 raw r refl (omega arith) in
      let allowed : out_of_range (length_of raw) ≡ false = ap out_of_range len_ok ∙ in_range in
      let second : recv_exact 4 [] (bytes body ∷ later)
          ≡ got (b'S' ∷ b'G' ∷ b'N' ∷ 1 ∷ []) (behind frame later) =
        recv_exact-magic frame later in
      let handled = handle_frame py hooks wall id body s in
      (
        rw (first (bytes body ∷ []), read_loop)
            (rw allowed (
              rw (prompt, read_loop)
                (elim (Verdict-cases handled.1) [
                  | inl more ↦ rw (more, read_loop) (rw (recv_exact-nothing, read_loop) refl)
                  | inr last ↦ rw (last, read_loop) refl
                ]))),
        rw (first (timeout ∷ bytes body ∷ later), read_loop)
            (rw allowed (rw (late, read_loop) (rw (second, read_loop) refl))),
      )
