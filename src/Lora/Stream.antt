-- ===== src/Lora/Stream.antt =====
-- The receiver of lora_transport.py against the frames that were sent.
pub mod Frames
use mathlib.Core.List.{append_assoc, append-nil}
use shogunet.Prelude.{
  ℕ, zero, suc, ◌+◌, ◌<◌, ◌≤◌, ◌≡◌, ◌≢◌, refl, sym, ap, subst, ◌∙◌, inl, inr, ◌&&◌, not, ltb→lt,
  not_ltb→le, Option, List, [], ◌∷◌, ◌++◌, Bool, true, false, ltb, ◌==◌, if◌then◌else◌, nat_eq,
  length, take, drop, All, arith, Bool-cases, length-append,
}
use shogunet.Protocol.Errors.{Result, ok, err, Result-cases}
use shogunet.Protocol.Registry.{max_envelope_bytes}
use shogunet.Protocol.Struct.{unpack32, unpack32-pack32}
use shogunet.Protocol.Envelope.{Stdlib}
use shogunet.Lora.{
  Radio, Lora, Heard, starved, oversized, framed, wire, next_length, next_frame, handle_frame,
  receive, pump_receiver, raises,
}
use shogunet.Lora.Reception.{handle_frame-Handles}
use shogunet.Lora.Stream.Frames.{
  wires, Fits, take-append, drop-prefix, split_prefix, next_length-wire, drop-drop_head,
  next_frame_by_length, next_frame-wire, next_frame-short,
}

-- The frames that were cut out.
abbrev pub frames_of : List (List ℕ × Result (Option Heard)) → List (List ℕ)
frames_of [] = []
frames_of ((frame, answer) ∷ more) = frame ∷ frames_of more

append-eq_nil : (xs ys : List ℕ) → xs ++ ys ≡ [] → xs ≡ []
append-eq_nil [] ys e = refl
append-eq_nil (x ∷ xs) ys e = absurd (cc)

starved-ne-framed : (f more : List ℕ) → starved ≢ framed f more
starved-ne-framed f more e = cc

next_frame-nil : next_frame [] ≡ starved
unfolding next_frame
next_frame-nil = refl

All-right : (xs ys : List (List ℕ)) → All Fits (xs ++ ys) → All Fits ys
All-right [] ys h = h
All-right (x ∷ xs) ys h = All-right xs ys h.1

nil_of_length : (xs : List ℕ) → length xs ≡ 0 → xs ≡ []
nil_of_length [] h = refl
nil_of_length (x ∷ xs) h = absurd (omega arith)

module _ {W : Type 0} (port : Radio W) (py : Stdlib) where
  -- Of the frames `fs` the first ones were cut out; the buffer and the unread stream are the others. Where
  -- no handler raised, now or before, the buffer holds no whole frame.
  pub record Follows (calm : Bool) (fs : List (List ℕ)) (unread : List ℕ) (buf : List ℕ)
      (handled : List (List ℕ × Result (Option Heard))) : Type 0 where
    pub remaining : List (List ℕ)
    pub parts : fs ≡ frames_of handled ++ remaining
    pub behind : buf ++ unread ≡ wires remaining
    pub settled : calm ≡ true → raises port py handled ≡ false → next_frame buf ≡ starved

  receive-Follows :
      (calm : Bool) (fuel : ℕ) (fs : List (List ℕ)) (unread : List ℕ) (s : Lora) (w : W)
      → All Fits fs
      → s.recv_buf ++ unread ≡ wires fs
      → length s.recv_buf < fuel
      → Follows calm fs unread (receive port py fuel s w).0.recv_buf (receive port py fuel s w).2
  unfolding receive
  receive-Follows calm zero fs unread s w fits e enough = absurd (omega arith)
  receive-Follows calm (suc fuel) [] unread s w fits e enough =
      let waits : next_frame s.recv_buf ≡ starved =
        ap next_frame (append-eq_nil s.recv_buf unread e) ∙ next_frame-nil in
      rw (waits, receive)
        (record { remaining = []; parts = refl; behind = e; settled = λ _ _. waits })
  receive-Follows calm (suc fuel) (f ∷ fs) unread s w fits e enough =
      elim (Bool-cases (ltb (length s.recv_buf) (length (wire f)))) [
        | inl short ↦
            let waits =
              next_frame-short f (wires fs) s.recv_buf unread fits.0 e (ltb→lt _ _ short) in
            rw (waits, receive)
              (record { remaining = f ∷ fs; parts = refl; behind = e; settled = λ _ _. waits })
        | inr whole ↦
            let (rest, same, follows) =
              split_prefix (wire f) (wires fs) s.recv_buf unread e (not_ltb→le _ _ whole) in
            let cuts : next_frame s.recv_buf ≡ framed f rest =
              ap next_frame same ∙ next_frame-wire f rest fits.0 in
            let s0 = record s { recv_buf = rest } in
            let handled = handle_frame port py f s0 w in
            let kept : handled.0.recv_buf ≡ rest =
              ap (λ (t : Lora). t.recv_buf) (handle_frame-Handles port py f s0 w) in
            let more =
              receive-Follows calm fuel fs unread handled.0 handled.1 fits.1
                (ap (◌++ unread) kept ∙ follows)
                (ground (arith, ap length same, ap length kept, length-append (wire f) rest)) in
            elim (Result-cases handled.2) [
              | inl (x, fails) ↦
                  rw (cuts, receive)
                    (rw (fails, receive)
                      (record {
                        remaining = fs;
                        parts = refl;
                        behind = ap (◌++ unread) kept ∙ follows;
                        settled = λ _ h. cc;
                      }))
              | inr (heard, answers) ↦
                  rw (cuts, receive)
                    (rw (answers, receive)
                      (record {
                        remaining = more.remaining;
                        parts = ap (◌∷◌ f) more.parts;
                        behind = more.behind;
                        settled = more.settled;
                      }))
            ]
      ]

  pump_receiver-Follows :
      (calm : Bool) (fs : List (List ℕ)) (unread : List ℕ) (s : Lora) (w : W)
      → All Fits fs
      → s.recv_buf ++ ((port.read w).0 ++ unread) ≡ wires fs
      → (calm ≡ true → next_frame s.recv_buf ≡ starved)
      → Follows calm fs unread (pump_receiver port py s w).0.recv_buf (pump_receiver port py s w).2
  unfolding pump_receiver
  pump_receiver-Follows calm fs unread s w fits e waits =
      let chunk = (port.read w).0 in
      elim (Bool-cases (length chunk == 0)) [
        | inl quiet ↦
            let none_read : chunk ≡ [] = nil_of_length chunk ((nat_eq.beq_iff _ _).0 quiet) in
            rw quiet (record {
              remaining = fs;
              parts = refl;
              behind = subst (λ c. s.recv_buf ++ (c ++ unread) ≡ wires fs) none_read e;
              settled = λ c _. waits c;
            })
        | inr busy ↦
            let s' = record s { recv_buf = s.recv_buf ++ chunk } in
            rw busy (
              receive-Follows calm (suc (length s'.recv_buf)) fs unread s' (port.read w).1 fits
                (append_assoc s.recv_buf chunk unread ∙ e) (omega arith))
      ]

  -- `n` polls of the receiver, with all the bytes that were read and all the frames that were cut out.
  unfoldable pub listen : ℕ → Lora → W → Lora × W × List ℕ × List (List ℕ × Result (Option Heard))
  listen zero s w = (s, w, [], [])
  listen (suc n) s w =
      let (s1, w1, handled) = pump_receiver port py s w in
      let (s2, w2, bytes, more) = listen n s1 w1 in
      (s2, w2, (port.read w).0 ++ bytes, handled ++ more)

  frames_of-append :
      (xs ys : List (List ℕ × Result (Option Heard)))
      → frames_of (xs ++ ys) ≡ frames_of xs ++ frames_of ys
  frames_of-append [] ys = refl
  frames_of-append ((frame, answer) ∷ xs) ys = ap (◌∷◌ frame) (frames_of-append xs ys)

  raises-append :
      (xs ys : List (List ℕ × Result (Option Heard)))
      → raises port py (xs ++ ys) ≡ (if raises port py xs then true else raises port py ys)
  raises-append [] ys = refl
  raises-append ((frame, err e) ∷ xs) ys = refl
  raises-append ((frame, ok heard) ∷ xs) ys = raises-append xs ys

  listen-Follows :
      (calm : Bool) (n : ℕ) (fs : List (List ℕ)) (unread : List ℕ) (s : Lora) (w : W)
      → All Fits fs
      → s.recv_buf ++ ((listen n s w).2 ++ unread) ≡ wires fs
      → (calm ≡ true → next_frame s.recv_buf ≡ starved)
      → Follows calm fs unread (listen n s w).0.recv_buf (listen n s w).3
  unfolding listen
  listen-Follows calm zero fs unread s w fits e waits = record {
    remaining = fs;
    parts = refl;
    behind = e;
    settled = λ c _. waits c;
  }
  listen-Follows calm (suc n) fs unread s w fits e waits =
      let pumped = pump_receiver port py s w in
      let rest = listen n pumped.0 pumped.1 in
      let first =
        pump_receiver-Follows calm fs (rest.2 ++ unread) s w fits
          (subst (λ x. s.recv_buf ++ x ≡ wires fs) (append_assoc (port.read w).0 rest.2 unread) e)
          waits in
      let then_calm = calm && not (raises port py pumped.2) in
      let later =
        listen-Follows then_calm n first.remaining unread pumped.0 pumped.1
          (All-right (frames_of pumped.2) first.remaining (subst (All Fits) first.parts fits))
          first.behind (λ c. first.settled (ground arith) (ground arith)) in
      record {
        remaining = later.remaining;
        parts =
            first.parts
            ∙ ap (λ (x : List (List ℕ)). frames_of pumped.2 ++ x) later.parts
            ∙ sym (append_assoc (frames_of pumped.2) (frames_of rest.3) later.remaining)
            ∙ ap (λ (x : List (List ℕ)). x ++ later.remaining)
                (sym (frames_of-append pumped.2 rest.3));
        behind = later.behind;
        settled = λ c fine.
            later.settled (ground (arith, raises-append pumped.2 rest.3))
              (ground (arith, raises-append pumped.2 rest.3));
      }

  -- Whatever pieces the port reads a stream of frames in, none of them refused by its length: the frames
  -- that the receiver cuts out are the first ones of the stream, whole and in order, and the others are
  -- still in its buffer and in what is unread. Where the stream is read to its end and no handler raises,
  -- every frame was cut out.
  pub listen-frames :
      (n : ℕ) (fs : List (List ℕ)) (unread : List ℕ) (s : Lora) (w : W)
      → All Fits fs
      → s.recv_buf ≡ []
      → (listen n s w).2 ++ unread ≡ wires fs
      → (remaining : List (List ℕ)) × (fs ≡ frames_of (listen n s w).3 ++ remaining)
        × ((listen n s w).0.recv_buf ++ unread ≡ wires remaining)
        × (raises port py (listen n s w).3 ≡ false → unread ≡ [] → remaining ≡ [])
  listen-frames n fs unread s w fits empty e =
      let heard =
        listen-Follows true n fs unread s w fits (ap (◌++ ((listen n s w).2 ++ unread)) empty ∙ e)
          (λ _. ap next_frame empty ∙ next_frame-nil) in
      (
        heard.remaining,
        heard.parts,
        heard.behind,
        λ fine ended.
            all_out heard.remaining
              (All-right _ heard.remaining (subst (All Fits) heard.parts fits))
              (heard.settled refl fine)
              (sym (append-nil _)
                ∙ ap (λ (u : List ℕ). (listen n s w).0.recv_buf ++ u) (sym ended)
                ∙ heard.behind),
      )
    where
      all_out :
          (remaining : List (List ℕ))
          → All Fits remaining
          → next_frame (listen n s w).0.recv_buf ≡ starved
          → (listen n s w).0.recv_buf ≡ wires remaining
          → remaining ≡ []
      all_out [] fits waits same = refl
      all_out (f ∷ more) fits waits same = absurd (
          starved-ne-framed f (wires more)
            (sym waits ∙ ap next_frame same ∙ next_frame-wire f (wires more) fits.0))
