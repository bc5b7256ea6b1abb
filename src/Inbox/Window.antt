-- ===== src/Inbox/Window.antt =====
-- The inbox of store_forward.py against the list of the accepted messages.
use shogunet.Prelude.{
  ℕ, zero, suc, ◌+◌, ◌-◌, ◌≤◌, ◌<◌, ◌≡◌, refl, ap, sym, ◌∙◌, String, List, [], ◌∷◌, ◌++◌, Bool,
  true, false, arith, leb, ◌==◌, if◌then◌else◌, max, nat_eq, string_eq, pair_eq, length, drop,
  Bool-cases, drop-nil, drop-append, inl, inr, length-append, length-drop, drop-drop,
}
use shogunet.Prelude.Dict.{
  Dict, keys, contains, elem, Distinct, insert-Distinct, keys-insert, erase_head, elem-keys,
}
use shogunet.Inbox.{Key, Inbox, new_inbox, make_room, remember, key_of, is_duplicate}

-- The last `n` elements.
abbrev pub last_n {ℓ} : {A : Type ℓ} → ℕ → List A → List A
last_n n xs = drop (length xs - n) xs

pub record IsValid (b : Inbox) : Type 0 where
  pub in_order : b.order ≡ keys b.seen
  pub distinct : Distinct b.seen
  pub bounded : length b.order ≤ b.capacity
  pub positive : 0 < b.capacity

-- The keys that were accepted so far, oldest first, and what the inbox holds of them.
pub record Tracks (b : Inbox) (accepted : List Key) : Type 0 where
  pub valid : IsValid b
  pub window : b.order ≡ last_n b.capacity accepted

pub new_inbox-Tracks : (n : ℕ) → Tracks (new_inbox n) []
unfolding new_inbox
new_inbox-Tracks n = record {
  valid = record { in_order = refl; distinct = tt; bounded = omega arith; positive = omega arith };
  window = sym (drop-nil (0 - max 1 n));
}

-- What is left when room is made for one more: the oldest goes exactly when the window is full.
record HasRoom (b : Inbox) (before : List Key) (n : ℕ) : Type 0 where
  in_order : b.order ≡ keys b.seen
  distinct : Distinct b.seen
  room : suc (length b.order) ≤ n
  capacity : b.capacity ≡ n
  left : b.order ≡ drop (suc (length before) - n) before

make_room-keys :
    (n : ℕ) (d : Dict Key (Unit {0}))
    → 0 < n
    → Distinct d
    → length (keys d) ≤ n
    → HasRoom (make_room (record { capacity = n; seen = d; order = keys d }) (keys d)) (keys d) n
unfolding make_room
make_room-keys n [] p u fits = record {
  in_order = refl;
  distinct = tt;
  room = omega arith;
  capacity = refl;
  left = sym (drop-nil (1 - n));
}
make_room-keys n ((k, v) ∷ d) p u fits = elim (Bool-cases (leb n (suc (length (keys d))))) [
  | inl full ↦
      let e : suc (suc (length (keys d))) - n ≡ 1 = ground arith in
      rw (full, erase_head k v d u)
        (record {
          in_order = refl;
          distinct = u.1;
          room = fits;
          capacity = refl;
          left = ap (λ m. drop m (k ∷ keys d)) (sym e);
        })
  | inr free ↦
      let e : suc (suc (length (keys d))) - n ≡ 0 = ground arith in
      rw free (record {
        in_order = refl;
        distinct = u;
        room = ground arith;
        capacity = refl;
        left = ap (λ m. drop m (k ∷ keys d)) (sym e);
      })
]

make_room-HasRoom : (b : Inbox) → IsValid b → HasRoom (make_room b b.order) b.order b.capacity
make_room-HasRoom b v =
    rw (v.in_order)
      (make_room-keys b.capacity b.seen v.positive v.distinct (rw (v.in_order) at v.bounded))

-- The window moves on by one.
pub last_n-snoc {ℓ} :
    {A : Type ℓ} (n : ℕ) (k : A) (xs : List A)
    → 0 < n
    → last_n n (xs ++ k ∷ []) ≡ drop (suc (length (last_n n xs)) - n) (last_n n xs) ++ k ∷ []
last_n-snoc n k xs p =
    let len : length (last_n n xs) ≡ length xs - (length xs - n) = length-drop (length xs - n) xs in
    let a : length (xs ++ k ∷ []) - n ≡ suc (length xs) - n =
      omega (arith, length-append xs (k ∷ [])) in
    let b : length xs - n + (suc (length (last_n n xs)) - n) ≡ suc (length xs) - n = omega arith in
    rw
      (
        a,
        drop-append (suc (length xs) - n) xs (k ∷ []) (omega arith),
        drop-drop (length xs - n) (suc (length (last_n n xs)) - n) xs,
        b,
      )
      refl

-- A queue of at most `n` that drops its oldest entry when it is full holds the newest `n`.
pub last_n-push {ℓ} :
    {A : Type ℓ} (n : ℕ) (x : A) (queue before : List A)
    → 0 < n
    → queue ≡ last_n n before
    → (if length queue == n then drop 1 queue ++ x ∷ [] else queue ++ x ∷ [])
      ≡ last_n n (before ++ x ∷ [])
last_n-push n x queue before p newest =
    let len : length (last_n n before) ≡ length before - (length before - n) =
      length-drop (length before - n) before in
    let held : length queue ≡ length (last_n n before) = ap length newest in
    let move : last_n n (before ++ x ∷ []) ≡ drop (suc (length queue) - n) queue ++ x ∷ [] =
      rw newest (last_n-snoc n x before p) in
    elim (Bool-cases (length queue == n)) [
      | inl full ↦
          let one : suc (length queue) - n ≡ 1 = ground arith in rw full (sym (rw one at move))
      | inr free ↦
          let none_goes : suc (length queue) - n ≡ 0 = ground (arith, held, len) in
          rw free (sym (rw none_goes at move))
    ]

elem-drop : (k : Key) (n : ℕ) (xs : List Key) → elem k xs ≡ false → elem k (drop n xs) ≡ false
elem-drop k zero xs h = h
elem-drop k (suc n) [] h = h
elem-drop k (suc n) (x ∷ xs) h = elem-drop k n xs (ground arith)

remember-Tracks :
    (key : Key) (b : Inbox) (accepted : List Key) (b' : Inbox)
    → Tracks b accepted
    → contains key b.seen ≡ false
    → HasRoom b' b.order b.capacity
    → Tracks (remember key b') (accepted ++ key ∷ [])
remember-Tracks key b accepted b' t new r =
    let v = t.valid in
    let old : elem key b.order ≡ false = ap (elem key) v.in_order ∙ elem-keys key b.seen ∙ new in
    let gone : contains key b'.seen ≡ false =
      sym (elem-keys key b'.seen)
      ∙ ap (elem key) (sym r.in_order ∙ r.left)
      ∙ elem-drop key (suc (length b.order) - b.capacity) b.order old in
    record {
      valid = record {
        in_order = rw (keys-insert key tt b'.seen, gone) (ap (λ ks. ks ++ key ∷ []) r.in_order);
        distinct = insert-Distinct key tt b'.seen r.distinct;
        bounded = omega (arith, length-append b'.order (key ∷ []), r.room, r.capacity);
        positive = omega (arith, r.capacity, v.positive);
      };
      window =
          ap (λ ks. ks ++ key ∷ [])
            (r.left ∙ ap (λ w. drop (suc (length w) - b.capacity) w) t.window)
          ∙ sym (last_n-snoc b.capacity key accepted v.positive)
          ∙ ap (λ c. last_n c (accepted ++ key ∷ [])) (sym r.capacity);
    }

-- What a message does to the history of the accepted ones.
abbrev pub after : Key → Bool → List Key → List Key
after key true accepted = accepted
after key false accepted = accepted ++ key ∷ []

-- Where the inbox tracks the accepted messages, a message is called a duplicate exactly when it is among the last `capacity` accepted ones; any
-- other is accepted, and the window moves on.
pub is_duplicate-Tracks :
    (sender : String) (msg_id : ℕ) (b : Inbox) (accepted : List Key)
    → Tracks b accepted
    → let (b', answer) = is_duplicate sender msg_id b in
      let key = key_of sender msg_id in
      (answer ≡ elem key (last_n b.capacity accepted))
      × Tracks b' (after key answer accepted)
      × (b'.capacity ≡ b.capacity)
unfolding is_duplicate
is_duplicate-Tracks sender msg_id b accepted t =
    let key : Key = key_of sender msg_id in
    let v = t.valid in
    let known : contains key b.seen ≡ elem key (last_n b.capacity accepted) =
      sym (elem-keys key b.seen) ∙ ap (elem key) (sym v.in_order ∙ t.window) in
    elim (Bool-cases (contains key b.seen)) [
      | inl old ↦ rw old (sym old ∙ known, t, refl)
      | inr new ↦
          let b' = make_room b b.order in
          let r = make_room-HasRoom b v in
          rw new (sym new ∙ known, remember-Tracks key b accepted b' t new r, r.capacity)
    ]

-- A whole stream of messages: the answers, and the history that they leave.
pub answers : Inbox → List (String × ℕ) → List Bool
answers b [] = []
answers b ((sender, msg_id) ∷ ms) =
    let (b', answer) = is_duplicate sender msg_id b in answer ∷ answers b' ms

-- The specification: a list of accepted keys, of which the last `capacity` count.
pub window_answers : ℕ → List Key → List (String × ℕ) → List Bool
window_answers n accepted [] = []
window_answers n accepted ((sender, msg_id) ∷ ms) =
    let key = key_of sender msg_id in
    let answer = elem key (last_n n accepted) in
    answer ∷ window_answers n (after key answer accepted) ms

answers_from :
    (ms : List (String × ℕ)) (n : ℕ) (b : Inbox) (accepted : List Key)
    → b.capacity ≡ n
    → Tracks b accepted
    → answers b ms ≡ window_answers n accepted ms
unfolding answers window_answers
answers_from [] n b accepted e t = refl
answers_from ((sender, msg_id) ∷ ms) n b accepted e t =
    let key = key_of sender msg_id in
    let (same, t', c) = is_duplicate-Tracks sender msg_id b accepted t in
    let same' : (is_duplicate sender msg_id b).1 ≡ elem key (last_n n accepted) =
      same ∙ ap (λ c. elem key (last_n c accepted)) e in
    λ i.
      same' i
      ∷ (answers_from ms n (is_duplicate sender msg_id b).0
              (after key (is_duplicate sender msg_id b).1 accepted) (c ∙ e) t'
            ∙ ap (λ a. window_answers n (after key a accepted) ms) same')
          i

-- The bounded inbox answers every stream as the window on the accepted messages does.
pub answers-window :
    (n : ℕ) (ms : List (String × ℕ)) → answers (new_inbox n) ms ≡ window_answers (max 1 n) [] ms
answers-window n ms =
    answers_from ms (max 1 n) (new_inbox n) [] (unfold new_inbox in refl) (new_inbox-Tracks n)
