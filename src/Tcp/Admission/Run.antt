-- ===== src/Tcp/Admission/Run.antt =====
-- The queue of tcp_transport.py over any events.
use shogunet.Prelude.{
  ℕ, ◌+◌, ◌≡◌, inl, inr, String, Option, none, some, List, [], ◌∷◌, Bool, true, false, ◌==◌,
  if◌then◌else◌, nat_eq, string_eq, length, All, Bool-cases, Option-cases, ltb,
}
use shogunet.Prelude.Dict.{lookup, elem, insert-All}
use shogunet.Security.{sanitize_text, strip}
use shogunet.Protocol.Errors.{Result-cases}
use shogunet.Protocol.Registry.{max_envelope_bytes}
use shogunet.Protocol.Header.{peek_header}
use shogunet.Protocol.Envelope.{Stdlib}
use shogunet.Tcp.{Tcp, Hooks, accept, close_conn, read_frame, poll, new_tcp, add_peer}
use shogunet.Tcp.Sending.{
  Network, dial, send_frame, target, targets_of, or_default, send_to, send_targets, count_sent,
  is_broadcast,
}
use shogunet.Tcp.Admission.{
  Sound, FromTrusted, MayDial, IsAdmitted, accept-IsAdmitted, close_conn-IsAdmitted,
  read_frame-IsAdmitted,
}

module _ (hooks : Hooks) (dialled : List String) where
  -- The invariant, for these hooks and these names.
  abbrev Admitted : Tcp → Type 0
  Admitted s = IsAdmitted hooks dialled s

  module _ (net : Network) where
    dial-IsAdmitted :
        (name : String) (s : Tcp)
        → elem name dialled ≡ true
        → Admitted s
        → Admitted (dial net name s).0
    unfolding dial
    dial-IsAdmitted name s ours h = elim (Option-cases (lookup name s.conns)) [
      | inr (existing, held) ↦ rw (held, dial) h
      | inl new ↦ elim (Option-cases (lookup name s.peers)) [
        | inl unknown ↦ rw (new, dial) (rw (unknown, dial) h)
        | inr (peer, found) ↦ elim (Bool-cases (net.answers name)) [
          | inr silent ↦ rw (new, dial) (rw (found, dial) (rw silent h))
          | inl answers ↦
              rw (new, dial)
                (rw (found, dial)
                  (rw answers (record {
                    known =
                        insert-All (Sound hooks dialled) (net.identity name) _ s.objects (inr ours)
                          h.known;
                    mails = h.mails;
                    default = h.default;
                  })))
        ]
      ]
    ]

    if_then : (b : Bool) (s s' : Tcp) → Admitted s → Admitted s' → Admitted (if b then s else s')
    if_then true s s' h h' = h
    if_then false s s' h h' = h'

    send_to-IsAdmitted :
        (ids : List ℕ) (delivered : ℕ) (s : Tcp)
        → Admitted s
        → Admitted (send_to net ids delivered s).0
    unfolding send_to
    send_to-IsAdmitted [] delivered s h = h
    send_to-IsAdmitted (id ∷ ids) delivered s h =
        send_to-IsAdmitted ids (if net.takes id then delivered + 1 else delivered)
          (if net.takes id then s else close_conn id s)
          (if_then (net.takes id) s (close_conn id s) h
            (close_conn-IsAdmitted hooks dialled id s h))

    target-IsAdmitted : (out : Tcp × Option ℕ) → Admitted out.0 → Admitted (target net out).0
    target-IsAdmitted (s, none) h = h
    target-IsAdmitted (s, some id) h = h

    targets_of-IsAdmitted :
        (peer : Option String) (s : Tcp)
        → MayDial hooks dialled peer
        → Admitted s
        → Admitted (targets_of net peer s).0
    unfolding targets_of
    targets_of-IsAdmitted none s ours h = h
    targets_of-IsAdmitted (some peer) s ours h = elim (Bool-cases (is_broadcast net (some peer))) [
      | inl all ↦ rw all h
      | inr one ↦ rw one (target-IsAdmitted (dial net peer s) (dial-IsAdmitted peer s ours h))
    ]

    or_default-IsAdmitted : (out : Tcp × List ℕ) → Admitted out.0 → Admitted (or_default net out).0
    unfolding or_default
    or_default-IsAdmitted (s, id ∷ ids) h = h
    or_default-IsAdmitted (s, []) h = by_name s.default_peer h.default
      where
        by_name :
            (name : Option String)
            → MayDial hooks dialled name
            → Admitted
                (elim name as (λ _. Tcp × List ℕ) [
                  | none ↦ (s, [])
                  | some name ↦ if name == "" then (s, []) else target net (dial net name s)
                ]).0
        by_name none ours = h
        by_name (some name) ours = elim (Bool-cases (name == "")) [
          | inl empty ↦ rw empty h
          | inr named ↦
              rw named (target-IsAdmitted (dial net name s) (dial-IsAdmitted name s ours h))
        ]

    count_sent-IsAdmitted : (s : Tcp) (n : ℕ) → Admitted s → Admitted (count_sent net (s, n)).0
    count_sent-IsAdmitted s n h = elim (Bool-cases (n == 0)) [
      | inl nobody ↦ rw nobody (record { known = h.known; mails = h.mails; default = h.default })
      | inr some_one ↦
          rw some_one (record { known = h.known; mails = h.mails; default = h.default })
    ]

    send_targets-IsAdmitted :
        (out : Tcp × List ℕ) → Admitted out.0 → Admitted (send_targets net out).0
    send_targets-IsAdmitted (s, []) h = record {
      known = h.known;
      mails = h.mails;
      default = h.default;
    }
    send_targets-IsAdmitted (s, id ∷ ids) h =
        count_sent-IsAdmitted (send_to net (id ∷ ids) 0 s).0 (send_to net (id ∷ ids) 0 s).1
          (send_to-IsAdmitted (id ∷ ids) 0 s h)

    send_frame-IsAdmitted :
        (peer : Option String) (frame : List ℕ) (s : Tcp)
        → MayDial hooks dialled peer
        → Admitted s
        → Admitted (send_frame net peer frame s).0
    unfolding send_frame
    send_frame-IsAdmitted peer frame s ours h =
        elim (Bool-cases (ltb max_envelope_bytes (length frame))) [
          | inl large ↦ rw large (record { known = h.known; mails = h.mails; default = h.default })
          | inr fits ↦ elim (Result-cases (peek_header frame)) [
            | inl (e, fails) ↦
                rw (fits, send_frame)
                  (rw (fails, send_frame)
                    (record { known = h.known; mails = h.mails; default = h.default }))
            | inr (head, peeked) ↦
                rw (fits, send_frame)
                  (rw (peeked, send_frame)
                    (send_targets-IsAdmitted (or_default net (targets_of net peer s)) (
                      or_default-IsAdmitted (targets_of net peer s)
                        (targets_of-IsAdmitted peer s ours h))))
          ]
        ]

-- What happens to a transport: a peer connects, a frame is read from a connection, a connection ends, a
-- frame is sent, a peer's address or the default peer is given, or the queue is polled.
pub data Event : Type 0 where
  connects : ℕ → String → String → Event
  reads : ℕ → ℕ → List ℕ → Event
  hangs_up : ℕ → Event
  sends : Network → Option String → List ℕ → Event
  learns : String → String → ℕ → Event
  defaults : String → Event
  polls : Event

abbrev pub learned : Option Tcp → Tcp → Tcp
learned none s = s
learned (some s') s = s'

module _ (py : Stdlib) (hooks : Hooks) where
  unfoldable pub step : Event → Tcp → Tcp
  unfolding accept read_frame close_conn send_frame add_peer poll
  step (connects id addr host) s = accept id addr host s
  step (reads wall id frame) s = read_frame py hooks wall id frame s
  step (hangs_up id) s = close_conn id s
  step (sends net peer frame) s = (send_frame net peer frame s).0
  step (learns name host port) s = learned (add_peer py hooks name host port s) s
  step (defaults name) s = record s { default_peer = some name }
  step polls s = (poll s).0

  unfoldable pub run : List Event → Tcp → Tcp
  unfolding step
  run [] s = s
  run (e ∷ es) s = run es (step e s)

  module _ (dialled : List String) where
    -- The names that an event may dial are among these.
    abbrev pub Dials : Event → Type 0
    Dials (sends net peer frame) = MayDial hooks dialled peer
    Dials (defaults name) = elem name dialled ≡ true
    Dials _ = Unit

    learns-IsAdmitted :
        (name host : String) (port : ℕ) (s : Tcp)
        → IsAdmitted hooks dialled s
        → IsAdmitted hooks dialled (learned (add_peer py hooks name host port s) s)
    unfolding add_peer
    learns-IsAdmitted name host port s h =
        either (strip py.unicode (sanitize_text py.unicode (some name) 48) == "") _
          (record { known = h.known; mails = h.mails; default = h.default })
      where
        either :
            (b : Bool) (s' : Tcp)
            → IsAdmitted hooks dialled s'
            → IsAdmitted hooks dialled (learned (if b then none else some s') s)
        either true s' h' = h
        either false s' h' = h'

    step-IsAdmitted :
        (e : Event) (s : Tcp)
        → Dials e
        → IsAdmitted hooks dialled s
        → IsAdmitted hooks dialled (step e s)
    unfolding step poll
    step-IsAdmitted (connects id addr host) s ours h =
        accept-IsAdmitted hooks dialled id addr host s h
    step-IsAdmitted (reads wall id frame) s ours h =
        read_frame-IsAdmitted hooks dialled py wall id frame s h
    step-IsAdmitted (hangs_up id) s ours h = close_conn-IsAdmitted hooks dialled id s h
    step-IsAdmitted (sends net peer frame) s ours h =
        send_frame-IsAdmitted hooks dialled net peer frame s ours h
    step-IsAdmitted (learns name host port) s ours h = learns-IsAdmitted name host port s h
    step-IsAdmitted (defaults name) s ours h = record {
      known = h.known;
      mails = h.mails;
      default = ours;
    }
    step-IsAdmitted polls s ours h = record { known = h.known; mails = tt; default = h.default }

    run-IsAdmitted :
        (es : List Event) (s : Tcp)
        → All Dials es
        → IsAdmitted hooks dialled s
        → IsAdmitted hooks dialled (run es s)
    unfolding run
    run-IsAdmitted [] s ours h = h
    run-IsAdmitted (e ∷ es) s ours h =
        run-IsAdmitted es (step e s) ours.1 (step-IsAdmitted e s ours.0 h)

    -- Whatever happens to a new transport that dials only these names, each frame in its queue stands under
    -- the name of an agent that the admission check lets in, or of one that this transport may dial; and
    -- each connection that has a name has such a one, whose reported version the version check lets in
    -- where the agent has connected by itself.
    pub inbox-run :
        (max_queue : ℕ) (es : List Event)
        → All Dials es
        → All (FromTrusted hooks dialled) (run es (new_tcp max_queue)).inbox
          × All (λ p. Sound hooks dialled p.1) (run es (new_tcp max_queue)).objects
    unfolding new_tcp
    inbox-run max_queue es ours =
        let h =
          run-IsAdmitted es (new_tcp max_queue) ours
            (record { known = tt; mails = tt; default = tt }) in
        (h.mails, h.known)
