-- ===== src/Tcp/Admission.antt =====
-- Pairing is consent: whose frames a TCP transport lets in.
pub mod Run
use shogunet.Prelude.{
  ℕ, zero, suc, ◌+◌, ◌≡◌, refl, sym, subst, ◌⊎◌, inl, inr, String, Option, none, some, List, [],
  ◌∷◌, ◌++◌, Bool, true, false, not, ◌||◌, ◌&&◌, ◌==◌, if◌then◌else◌, nat_eq, string_eq, length,
  drop, All, All-append, All-drop, arith, Bool-cases, Option-cases, ltb,
}
use shogunet.Prelude.Dict.{Dict, lookup, elem, insert, values, insert-All, All-lookup}
use shogunet.Payload.{Value, dict, Fields, get_field}
use shogunet.Protocol.Errors.{Error, Result, ok, err, Result-cases}
use shogunet.Protocol.Registry.{max_envelope_bytes}
use shogunet.Protocol.Header.{peek_header}
use shogunet.Protocol.Envelope.{Stdlib, Envelope}
use shogunet.Protocol.Decode.{decode}
use shogunet.Chain.Sending.{is_protocol_error}
use shogunet.Tcp.{
  Tcp, Connection, Mail, Hooks, Verdict, goes_on, ends, passes, accept, close_conn, forget,
  queue_mail, admit, version_of, version_or_unknown, port_of, refuse, handshake, handle_envelope,
  handle_frame, read_frame, poll, new_tcp, holds,
}
use shogunet.Tcp.Sending.{
  Network, dial, send_frame, target, targets_of, or_default, send_to, send_targets, count_sent,
  is_broadcast, failed,
}

module _ (hooks : Hooks) (dialled : List String) where
  -- The agent passes the admission check, or this transport has dialled it.
  abbrev pub Trusted : String → Type 0
  Trusted name = (passes hooks.admission_check name ≡ true) ⊎ (elem name dialled ≡ true)

  -- The version that the peer reported passes, where it reported one.
  abbrev pub Speaks : String → Type 0
  Speaks version = (version ≡ "unknown") ⊎ (passes hooks.version_check version ≡ true)

  -- A connection that an agent is known by.
  abbrev pub Vouched : Option String → String → Type 0
  Vouched none version = Unit
  Vouched (some name) version =
      ((passes hooks.admission_check name ≡ true) × Speaks version) ⊎ (elem name dialled ≡ true)

  abbrev pub Sound : Connection → Type 0
  Sound conn = Vouched conn.agent_id conn.client_version

  abbrev pub FromTrusted : Mail → Type 0
  FromTrusted mail = Trusted mail.0

  -- The names that a call may dial.
  abbrev pub MayDial : Option String → Type 0
  MayDial none = Unit
  MayDial (some name) = elem name dialled ≡ true

  -- Every connection with a name is vouched for, so is every mail, and the default peer may be dialled.
  pub record IsAdmitted (s : Tcp) : Type 0 where
    pub known : All (λ p. Sound p.1) s.objects
    pub mails : All FromTrusted s.inbox
    pub default : MayDial s.default_peer

  Vouched-Trusted : (name version : String) → Vouched (some name) version → Trusted name
  Vouched-Trusted name version (inl (admitted, speaks)) = inl admitted
  Vouched-Trusted name version (inr ours) = inr ours

  pub accept-IsAdmitted :
      (id : ℕ) (addr host : String) (s : Tcp) → IsAdmitted s → IsAdmitted (accept id addr host s)
  unfolding accept
  accept-IsAdmitted id addr host s h = record {
    known = insert-All Sound id _ s.objects tt h.known;
    mails = h.mails;
    default = h.default;
  }

  forget-IsAdmitted :
      (name : Option String) (id : ℕ) (s : Tcp) → IsAdmitted s → IsAdmitted (forget name id s)
  forget-IsAdmitted none id s h = h
  forget-IsAdmitted (some name) id s h = elim (Bool-cases (not (name == "") && holds name id s)) [
    | inl held ↦ rw held (record { known = h.known; mails = h.mails; default = h.default })
    | inr lost ↦ rw lost h
  ]

  pub close_conn-IsAdmitted : (id : ℕ) (s : Tcp) → IsAdmitted s → IsAdmitted (close_conn id s)
  unfolding close_conn
  close_conn-IsAdmitted id s h = elim (Option-cases (lookup id s.objects)) [
    | inl absent ↦ rw (absent, close_conn) h
    | inr (conn, found) ↦
        let h' = forget-IsAdmitted conn.agent_id id s h in
        rw (found, close_conn) (record { known = h'.known; mails = h'.mails; default = h'.default })
  ]

  queue_mail-IsAdmitted :
      (mail : Mail) (s : Tcp) → FromTrusted mail → IsAdmitted s → IsAdmitted (queue_mail mail s)
  unfolding queue_mail
  queue_mail-IsAdmitted mail s trusted h = elim (Bool-cases (length s.inbox == s.max_queue)) [
    | inl full ↦ rw full (record {
      known = h.known;
      mails =
          All-append FromTrusted (drop 1 s.inbox) (mail ∷ [])
            (All-drop FromTrusted 1 s.inbox h.mails) (trusted, tt);
      default = h.default;
    })
    | inr room ↦ rw room (record {
      known = h.known;
      mails = All-append FromTrusted s.inbox (mail ∷ []) h.mails (trusted, tt);
      default = h.default;
    })
  ]

  module _ (py : Stdlib) where
    -- The version of a client that is let in.
    speaks :
        (version : String)
        → (not (version == "") && not (passes hooks.version_check version)) ≡ false
        → Speaks (version_or_unknown version)
    speaks version h = elim (Bool-cases (version == "")) [
      | inl silent ↦ inl (rw silent refl)
      | inr reported ↦ inr (rw reported (ground arith))
    ]

    admit-IsAdmitted :
        (id : ℕ) (conn : Connection) (sender version : String) (port : Option ℕ) (s : Tcp)
        → passes hooks.admission_check sender ≡ true
        → Speaks (version_or_unknown version)
        → IsAdmitted s
        → IsAdmitted (admit id conn sender version port s)
    unfolding admit
    admit-IsAdmitted id conn sender version port s admitted spoken h = record {
      known = insert-All Sound id _ s.objects (inl (admitted, spoken)) h.known;
      mails = h.mails;
      default = h.default;
    }

    handshake-IsAdmitted :
        (id : ℕ) (conn : Connection) (env : Envelope) (frame : List ℕ) (s : Tcp)
        → IsAdmitted s
        → IsAdmitted (handshake py hooks id conn env frame s).0
    unfolding handshake
    handshake-IsAdmitted id conn env frame s h =
        elim (Bool-cases (not (env.msg_type == "announce") || (env.sender == ""))) [
          | inl anonymous ↦ rw anonymous refused
          | inr announced ↦ elim (Bool-cases (not (passes hooks.admission_check env.sender))) [
            | inl unpaired ↦ rw (announced, unpaired) refused
            | inr paired ↦ rw (announced, paired) (by_payload env.payload (ground arith))
          ]
        ]
      where
        refused : IsAdmitted (refuse s).0
        refused = record { known = h.known; mails = h.mails; default = h.default }

        welcome :
            (fs : Fields)
            → passes hooks.admission_check env.sender ≡ true
            → IsAdmitted
                (if not (version_of py fs == "")
                    && not (passes hooks.version_check (version_of py fs))
                  then refuse s
                  else (
                    queue_mail
                        (env.sender, frame)
                        (admit id conn env.sender
                          (version_of py fs)
                          (port_of (get_field "port" fs))
                          s),
                    goes_on,
                  )).0
        welcome fs admitted =
            elim (Bool-cases (
              not (version_of py fs == "")
              && not (passes hooks.version_check (version_of py fs)))) [
                | inl foreign ↦ rw foreign refused
                | inr spoken ↦ rw spoken (
                    queue_mail-IsAdmitted (env.sender, frame) _ (inl admitted)
                      (admit-IsAdmitted id conn env.sender (version_of py fs)
                        (port_of (get_field "port" fs)) s admitted
                        (speaks (version_of py fs) spoken) h))
              ]

        by_payload :
            (payload : Value)
            → passes hooks.admission_check env.sender ≡ true
            → IsAdmitted
                (elim payload as (λ _. Tcp × Verdict) [
                  | dict fs ↦
                      let version = version_of py fs in
                      if not (version == "") && not (passes hooks.version_check version)
                      then refuse s
                      else (
                        queue_mail
                            (env.sender, frame)
                            (admit id conn env.sender version (port_of (get_field "port" fs)) s),
                        goes_on,
                      )
                  | _ ↦ (s, ends)
                ]).0
        by_payload (dict fs) admitted = welcome fs admitted
        by_payload _ admitted = h

    handle_envelope-IsAdmitted :
        (id : ℕ) (conn : Connection) (env : Envelope) (frame : List ℕ) (s : Tcp)
        → Sound conn
        → IsAdmitted s
        → IsAdmitted (handle_envelope py hooks id conn env frame s).0
    unfolding handle_envelope
    handle_envelope-IsAdmitted id conn env frame s sound h = by_name conn.agent_id sound
      where
        by_name :
            (name : Option String)
            → Vouched name conn.client_version
            → IsAdmitted
                (elim name as (λ _. Tcp × Verdict) [
                  | none ↦ handshake py hooks id conn env frame s
                  | some name ↦ (queue_mail (name, frame) s, goes_on)
                ]).0
        by_name none vouched = handshake-IsAdmitted id conn env frame s h
        by_name (some name) vouched =
            queue_mail-IsAdmitted (name, frame) s (Vouched-Trusted name conn.client_version vouched)
              h

    handle_frame-IsAdmitted :
        (wall id : ℕ) (frame : List ℕ) (s : Tcp)
        → IsAdmitted s
        → IsAdmitted (handle_frame py hooks wall id frame s).0
    unfolding handle_frame
    handle_frame-IsAdmitted wall id frame s h = elim (Option-cases (lookup id s.objects)) [
      | inl absent ↦ rw (absent, handle_frame) h
      | inr (conn, found) ↦ elim (Result-cases (decode py wall frame)) [
        | inr (env, decoded) ↦
            rw (found, handle_frame)
              (rw (decoded, handle_frame)
                (handle_envelope-IsAdmitted id conn env frame s
                  (All-lookup (λ p. Sound p.1) id s.objects h.known found) h))
        | inl (e, fails) ↦ elim (Bool-cases (is_protocol_error e)) [
          | inl caught ↦
              rw (found, handle_frame)
                (rw (fails, handle_frame)
                  (rw caught (record { known = h.known; mails = h.mails; default = h.default })))
          | inr uncaught ↦ rw (found, handle_frame) (rw (fails, handle_frame) (rw uncaught h))
        ]
      ]
    ]

    pub read_frame-IsAdmitted :
        (wall id : ℕ) (frame : List ℕ) (s : Tcp)
        → IsAdmitted s
        → IsAdmitted (read_frame py hooks wall id frame s)
    unfolding read_frame
    read_frame-IsAdmitted wall id frame s h =
        by_verdict (handle_frame py hooks wall id frame s)
          (handle_frame-IsAdmitted wall id frame s h)
      where
        by_verdict :
            (out : Tcp × Verdict)
            → IsAdmitted out.0
            → IsAdmitted (elim out.1 as (λ _. Tcp) [ goes_on ↦ out.0 | ends ↦ close_conn id out.0 ])
        by_verdict (s', goes_on) h = h
        by_verdict (s', ends) h = close_conn-IsAdmitted id s' h
