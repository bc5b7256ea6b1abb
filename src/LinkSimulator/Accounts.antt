-- ===== src/LinkSimulator/Accounts.antt =====
-- How an admission and a delivery of link_simulator.py change the counters.
use shogunet.Prelude.{
  ℕ, suc, ◌+◌, ◌≤◌, ◌≡◌, refl, inl, inr, String, Option, none, some, List, [], ◌∷◌, ◌++◌, false,
  not, ltb, ◌==◌, string_eq, nat_eq, length, All, Bool-cases, length-append, arith,
}
use shogunet.Prelude.Dict.{Dict, lookup, insert}
use shogunet.LinkSimulator.{
  Endpoint, Ether, Draw, airtime_of, note_airtime, duty_allows, schedule, admit,
}

pub room_for :
    {A : Type 0} (xs : List A) (x : A) (cap : ℕ)
    → length xs ≤ cap
    → (length xs == cap) ≡ false
    → length (xs ++ x ∷ []) ≤ cap
room_for xs x cap h free = ground (arith, length-append xs (x ∷ []), nat_eq.beq_iff (length xs) cap)

module _ (measure : Endpoint → ℕ) where
  -- The sum of a measure over the endpoints.
  abbrev pub total : Dict ℕ Endpoint → ℕ
  total [] = 0
  total ((id, e) ∷ d) = measure e + total d

  pub total-insert :
      (id : ℕ) (e e' : Endpoint) (d : Dict ℕ Endpoint)
      → lookup id d ≡ some e
      → total (insert id e' d) + measure e ≡ total d + measure e'
  total-insert id e e' [] h = cc
  total-insert id e e' ((j, w) ∷ d) h = elim (Bool-cases (j == id)) [
    | inl same ↦
        let found : some w ≡ some e = rw same at h in
        let this : w ≡ e = cc in rw (same, this) (omega arith)
    | inr other ↦ rw other (omega (arith, total-insert id e e' d (rw other at h)))
  ]

  pub total-insert_new :
      (id : ℕ) (e : Endpoint) (d : Dict ℕ Endpoint)
      → lookup id d ≡ none
      → total (insert id e d) ≡ total d + measure e
  total-insert_new id e [] h = omega arith
  total-insert_new id e ((j, w) ∷ d) h = elim (Bool-cases (j == id)) [
    | inl same ↦ absurd (nothing (rw same at h))
    | inr other ↦ rw other (omega (arith, total-insert_new id e d (rw other at h)))
  ]
    where
      nothing : some w ≡ none → ⊥
      nothing e = cc

-- What was delivered to an endpoint, and what it has tried to send.
abbrev pub taken : Endpoint → ℕ
taken e = e.received + e.dropped + length e.inbox

abbrev pub tried : Endpoint → ℕ
tried e = e.sent + e.send_failed

abbrev pub Fits : Endpoint → Type 0
Fits e = (1 ≤ e.max_queue) × (length e.inbox ≤ e.max_queue)

-- Frames that are accounted for otherwise than by `passed` dispatches.
abbrev pub kept : Ether → ℕ
kept s = length s.scheduled + s.dropped_mtu + s.dropped_duty + s.dropped_loss + s.dropped_overflow

pub record IsConserved (passed : ℕ) (s : Ether) : Type 0 where
  pub frames : s.submitted ≡ passed + kept s
  pub bounded : length s.scheduled ≤ s.scheduled_cap
  pub reports : s.submitted ≡ total tried s.endpoints
  pub mail : s.delivered ≡ total taken s.endpoints
  pub queues : All (λ e. Fits e.1) s.endpoints

-- An admission keeps or drops one frame, and leaves the rest.
pub record Admits (s s' : Ether) : Type 0 where
  pub frames : kept s' ≡ suc (kept s)
  pub bounded : length s.scheduled ≤ s.scheduled_cap → length s'.scheduled ≤ s'.scheduled_cap
  pub submitted : s'.submitted ≡ s.submitted
  pub delivered : s'.delivered ≡ s.delivered
  pub endpoints : s'.endpoints ≡ s.endpoints

counted_drop :
    (s : Ether) (mtu duty loss overflow : ℕ)
    → mtu + duty + loss + overflow
      ≡ suc (s.dropped_mtu + s.dropped_duty + s.dropped_loss + s.dropped_overflow)
    → Admits s (record s {
      dropped_mtu = mtu;
      dropped_duty = duty;
      dropped_loss = loss;
      dropped_overflow = overflow;
    })
counted_drop s mtu duty loss overflow one = record {
  frames = omega arith;
  bounded = λ h. h;
  submitted = refl;
  delivered = refl;
  endpoints = refl;
}

Admits-note_airtime :
    (now airtime : ℕ) (s s' : Ether) → Admits (note_airtime now airtime s) s' → Admits s s'
unfolding note_airtime
Admits-note_airtime now airtime s s' h = elim (Bool-cases (airtime == 0)) [
  | inl none_used ↦ rw none_used at h
  | inr some_used ↦
      let h' = rw some_used at h in
      record {
        frames = h'.frames;
        bounded = h'.bounded;
        submitted = h'.submitted;
        delivered = h'.delivered;
        endpoints = h'.endpoints;
      }
]

schedule-Admits :
    (now : ℕ) (draw : Draw) (sender : String) (recipient : Option String) (frame : List ℕ)
    (s : Ether)
    → Admits s (schedule now draw sender recipient frame s).0
unfolding schedule
schedule-Admits now draw sender recipient frame s = elim (Bool-cases draw.lost) [
  | inl lost ↦ rw lost (
      counted_drop s s.dropped_mtu s.dropped_duty (s.dropped_loss + 1) s.dropped_overflow
        (omega arith))
  | inr carried ↦ elim (Bool-cases (length s.scheduled == s.scheduled_cap)) [
    | inl full ↦
        rw (carried, full)
          (counted_drop s s.dropped_mtu s.dropped_duty s.dropped_loss (s.dropped_overflow + 1)
            (omega arith))
    | inr room ↦
        rw (carried, room)
          (record {
            frames = omega (arith, length-append s.scheduled (_ ∷ []));
            bounded = λ h. room_for s.scheduled _ s.scheduled_cap h room;
            submitted = refl;
            delivered = refl;
            endpoints = refl;
          })
  ]
]

pub admit-Admits :
    (now : ℕ) (draw : Draw) (sender : String) (recipient : Option String) (frame : List ℕ)
    (s : Ether)
    → Admits s (admit now draw sender recipient frame s).0
unfolding admit
admit-Admits now draw sender recipient frame s =
    elim (Bool-cases (ltb s.profile.max_payload_bytes (length frame))) [
      | inl long ↦ rw long (
          counted_drop s (s.dropped_mtu + 1) s.dropped_duty s.dropped_loss s.dropped_overflow
            (omega arith))
      | inr short ↦
          elim (Bool-cases (not (duty_allows now (airtime_of s.profile (length frame)) s))) [
            | inl exhausted ↦
                rw (short, exhausted)
                  (counted_drop s s.dropped_mtu (s.dropped_duty + 1) s.dropped_loss
                    s.dropped_overflow (omega arith))
            | inr allowed ↦
                rw (short, allowed)
                  (Admits-note_airtime now (airtime_of s.profile (length frame)) s _ (
                    schedule-Admits now draw sender recipient frame
                      (note_airtime now (airtime_of s.profile (length frame)) s)))
          ]
    ]
