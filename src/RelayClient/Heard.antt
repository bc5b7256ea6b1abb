-- ===== src/RelayClient/Heard.antt =====
-- What the hub answers a poll loop of relay_transport.py with, and how the loop takes an answer in.
use shogunet.Prelude.{
  ℕ, ◌<◌, ◌≡◌, refl, ap, subst, ◌∙◌, inl, inr, String, Option, none, some, List, [], ◌∷◌, ◌++◌,
  Bool, true, false, ◌==◌, if◌then◌else◌, nat_eq, length, Bool-cases, Option-cases,
}
use mathlib.Core.List.{append_assoc, append-nil}
use shogunet.Inbox.Window.{last_n, last_n-push}
use shogunet.Payload.{Value, dict, Fields}
use shogunet.Protocol.Envelope.{Stdlib}
use shogunet.RelayClient.{
  Answer, unreachable, raises, answered, Mail, Client, Round, push, mail_of, take_message,
  take_messages,
}

-- The queue holds the newest of the mail that has come in since it was empty.
pub record IsNewest (n : ℕ) (before : List Mail) (c : Client) : Type 0 where
  pub room : c.max_queue ≡ n
  pub newest : c.inbox ≡ last_n n before

push-IsNewest :
    (n : ℕ) (before : List Mail) (mail : Mail) (c : Client)
    → 0 < n
    → IsNewest n before c
    → IsNewest n (before ++ mail ∷ []) (push mail c)
unfolding push
push-IsNewest n before mail c p q =
    let next = last_n-push n mail c.inbox before p q.newest in
    elim (Bool-cases (length c.inbox == c.max_queue)) [
      | inl full ↦
          let full_n : (length c.inbox == n) ≡ true = rw (q.room) at full in
          rw (full, push) (record { room = q.room; newest = rw full_n at next })
      | inr free ↦
          let free_n : (length c.inbox == n) ≡ false = rw (q.room) at free in
          rw (free, push) (record { room = q.room; newest = rw free_n at next })
    ]

push-connected : (mail : Mail) (c : Client) → (push mail c).connected ≡ c.connected
unfolding push
push-connected mail c = elim (Bool-cases (length c.inbox == c.max_queue)) [
  | inl full ↦ rw (full, push) refl
  | inr free ↦ rw (free, push) refl
]

module _ (py : Stdlib) (b64decode : String → Option (List ℕ)) (longer : ℕ → ℕ) where
  abbrev pub cons_mail : Option Mail → List Mail → List Mail
  cons_mail none mails = mails
  cons_mail (some mail) mails = mail ∷ mails

  -- The mail in the messages of an answer, up to one that is no dict.
  abbrev pub mails : List Value → List Mail
  mails [] = []
  mails (dict fs ∷ vs) = cons_mail (mail_of py b64decode longer fs) (mails vs)
  mails (_ ∷ vs) = []

  abbrev pub all_dicts : List Value → Bool
  all_dicts [] = true
  all_dicts (dict fs ∷ vs) = all_dicts vs
  all_dicts (_ ∷ vs) = false

  -- Whether a round registers, where the client is not connected.
  abbrev pub accepted : Answer Bool → Bool
  accepted (answered b) = b
  accepted _ = false

  abbrev pub is_raised : {A : Type 0} → Answer A → Bool
  is_raised raises = true
  is_raised _ = false

  -- What a poll is answered with, and then what comes in after it, offline or online.
  abbrev pub heard_poll : Round → List Mail → List Mail → List Mail
  heard_poll r offline online = elim r.messages [
    | unreachable ↦ if r.stopped then [] else offline
    | raises ↦ []
    | answered vs ↦ mails vs ++ (if all_dicts vs then online else [])
  ]

  abbrev pub heard_offline : Round → List Mail → List Mail → List Mail
  heard_offline r offline online =
      if accepted r.registration
      then heard_poll r offline online
      else if is_raised r.registration
      then []
      else if r.stopped
      then []
      else offline

  -- The mail that a loop is answered with, from the answers alone: a round polls where the client is connected
  -- or is registered in it, and a failed poll loses the connection.
  abbrev pub heard : Bool → List Round → List Mail
  heard connected [] = []
  heard connected (r ∷ rs) =
      let offline = heard false rs in
      let online = heard true rs in
      if connected then heard_poll r offline online else heard_offline r offline online

  -- Messages are taken in order, up to one that is no dict.
  pub record Takes (n : ℕ) (before : List Mail) (vs : List Value) (c : Client) (r : Client × Bool)
      : Type 0 where
    pub queue : IsNewest n (before ++ mails vs) r.0
    pub fine : r.1 ≡ all_dicts vs
    pub online : r.0.connected ≡ c.connected

  first_mail :
      (before : List Mail) (o : Option Mail) (rest : List Mail)
      → (before ++ cons_mail o []) ++ rest ≡ before ++ cons_mail o rest
  first_mail before none rest = ap (λ (xs : List Mail). xs ++ rest) (append-nil before)
  first_mail before (some mail) rest = append_assoc before (mail ∷ []) rest

  take_message-IsNewest :
      (n : ℕ) (before : List Mail) (fs : Fields) (c : Client)
      → 0 < n
      → IsNewest n before c
      → IsNewest n
          (before ++ cons_mail (mail_of py b64decode longer fs) [])
          (take_message py b64decode longer fs c)
        × ((take_message py b64decode longer fs c).connected ≡ c.connected)
  unfolding take_message push
  take_message-IsNewest n before fs c p q = elim (Option-cases (mail_of py b64decode longer fs)) [
    | inl malformed ↦
        rw (malformed, take_message, append-nil before)
          (record { room = q.room; newest = q.newest }, refl)
    | inr (mail, formed) ↦
        rw (formed, take_message) (push-IsNewest n before mail c p q, push-connected mail c)
  ]

  pub take_messages-Takes :
      (n : ℕ) (before : List Mail) (vs : List Value) (c : Client)
      → 0 < n
      → IsNewest n before c
      → Takes n before vs c (take_messages py b64decode longer vs c)
  unfolding take_messages
  take_messages-Takes n before [] c p q = record {
    queue = rw (append-nil before) q;
    fine = refl;
    online = refl;
  }
  take_messages-Takes n before (dict fs ∷ vs) c p q =
      let m = take_message-IsNewest n before fs c p q in
      let t =
        take_messages-Takes n (before ++ cons_mail (mail_of py b64decode longer fs) []) vs
          (take_message py b64decode longer fs c) p m.0 in
      record {
        queue =
            subst
              (λ (xs : List Mail).
                IsNewest n xs
                  (take_messages py b64decode longer vs (take_message py b64decode longer fs c)).0)
              (first_mail before (mail_of py b64decode longer fs) (mails vs)) t.queue;
        fine = t.fine;
        online = t.online ∙ m.1;
      }
  take_messages-Takes n before (_ ∷ vs) c p q = record {
    queue = rw (append-nil before) q;
    fine = refl;
    online = refl;
  }
