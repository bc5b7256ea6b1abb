-- ===== src/Outbox/Replay.antt =====
-- The log of store_forward.py as what `_replay` reads: appends, a rewrite, and a torn line.
use shogunet.Prelude.{
  ℕ, ◌≡◌, refl, ap, sym, ◌∙◌, String, Option, List, [], ◌∷◌, ◌++◌, map, Bool, true, false, arith,
  nat_eq, length, All, not, ◌&&◌, leb, if◌then◌else◌, Bool-cases, inl, inr, ◌==◌,
}
use mathlib.Core.List.{append-nil, append_assoc}
use shogunet.Prelude.Dict.{
  Dict, contains, insert, erase, values, Distinct, insert_new, apart, contains-append,
}
use shogunet.Outbox.{
  Entry, Record, queued, done, unreadable, Log, all_written, spoil, write_line, append_record,
  Outbox, uint32, peer_or_all, enqueue, mark_done, compact, replay_record, replay_from,
}
use shogunet.Outbox.Invariant.{IsFiled, IsValid}

-- The file ends with a newline, and what it gives on reopening is what is pending, in the same order.
abbrev pub IsDurable : Outbox → Type 0
IsDurable o = (o.wal.ended ≡ true) × (replay_from [] o.wal.lines ≡ o.pending)

pub replay_from-append :
    (d : Dict ℕ Entry) (xs ys : List Record)
    → replay_from d (xs ++ ys) ≡ replay_from (replay_from d xs) ys
unfolding replay_from
replay_from-append d [] ys = refl
replay_from-append d (x ∷ xs) ys = replay_from-append (replay_record d x) xs ys

replay_one : (d : Dict ℕ Entry) (r : Record) → replay_from d (r ∷ []) ≡ replay_record d r
unfolding replay_from
replay_one d r = refl

append_record-IsDurable :
    (r : Record) (o o' : Outbox)
    → o'.wal ≡ o.wal
    → IsDurable o
    → o'.pending ≡ replay_record o.pending r
    → IsDurable (append_record all_written r o')
unfolding write_line
append_record-IsDurable r o o' same h next =
    let ended : o'.wal.ended ≡ true = ap (λ (log : Log). log.ended) same ∙ h.0 in
    let lines : o'.wal.lines ≡ o.wal.lines = ap (λ (log : Log). log.lines) same in
    let after : replay_from [] (o'.wal.lines ++ r ∷ []) ≡ o'.pending =
      replay_from-append [] o'.wal.lines (r ∷ [])
      ∙ replay_one (replay_from [] o'.wal.lines) r
      ∙ ap (λ (d : Dict ℕ Entry). replay_record d r) (ap (replay_from []) lines ∙ h.1)
      ∙ sym next in
    if_ended o'.wal.ended ended o'.wal.lines after
  where
    if_ended :
        (b : Bool)
        → b ≡ true
        → (ls : List Record) → replay_from [] (ls ++ r ∷ []) ≡ o'.pending
        → let log : Log =
            if b
            then record { lines = ls ++ r ∷ []; ended = true }
            else record { lines = spoil ls; ended = true } in
          (log.ended ≡ true) × (replay_from [] log.lines ≡ o'.pending)
    if_ended true e ls after = (refl, after)
    if_ended false e ls after = absurd (never e)
      where
        never : false ≡ true → ⊥
        never e = cc

-- The records that `compact` writes replay to what was pending, behind any other entries.
replay_from-values :
    (d acc : Dict ℕ Entry)
    → Distinct d
    → IsFiled d
    → All (λ e. contains e.0 acc ≡ false) d
    → replay_from acc (map queued (values d)) ≡ acc ++ d
unfolding replay_from replay_record
replay_from-values [] acc u f n = sym (append-nil acc)
replay_from-values ((k, v) ∷ d) acc u f n =
    let step : insert v.msg_id v acc ≡ acc ++ (k, v) ∷ [] =
      ap (λ i. insert i v acc) f.0 ∙ insert_new k v acc n.0 in
    ap (λ a. replay_from a (map queued (values d))) step
    ∙ replay_from-values d (acc ++ (k, v) ∷ []) u.1 f.1 (others d (apart k d u.0) n.1)
    ∙ append_assoc acc ((k, v) ∷ []) d
  where
    others :
        (d' : Dict ℕ Entry)
        → All (λ e. (k == e.0) ≡ false) d'
        → All (λ e. contains e.0 acc ≡ false) d'
        → All (λ e. contains e.0 (acc ++ (k, v) ∷ []) ≡ false) d'
    others [] a b = tt
    others (e ∷ es) a b = (ground (arith, contains-append e.0 acc ((k, v) ∷ [])), others es a.1 b.1)

-- A rewrite makes a log durable, whatever it was.
pub compact-IsDurable : (o : Outbox) → IsValid o → IsDurable (compact true o).0
unfolding compact
compact-IsDurable o v =
    (refl, replay_from-values o.pending [] v.distinct v.filed (nothing o.pending))
  where
    nothing : (d : Dict ℕ Entry) → All (λ e. contains {V = Entry} e.0 [] ≡ false) d
    nothing [] = tt
    nothing (e ∷ es) = (refl, nothing es)

pub enqueue-IsDurable :
    (now msg_id : ℕ) (peer : Option String) (frame : List ℕ) (meta : Dict String String)
    (o : Outbox)
    → IsDurable o
    → IsDurable (enqueue all_written now msg_id peer frame meta o).0
unfolding enqueue replay_record
enqueue-IsDurable now msg_id peer frame meta o h =
    let entry : Entry = record {
      msg_id = uint32 msg_id;
      peer = peer_or_all peer;
      frame = frame;
      queued_at = now;
      meta = meta;
    } in
    elim (Bool-cases
      (leb o.max_pending (length o.pending) && not (contains entry.msg_id o.pending))) [
        | inl full ↦ rw (full, enqueue) h
        | inr room ↦
            rw (room, enqueue)
              (append_record-IsDurable (queued entry) o
                (record o { pending = insert entry.msg_id entry o.pending }) refl h refl)
      ]

pub mark_done-IsDurable :
    (msg_id : ℕ) (o : Outbox) → IsDurable o → IsDurable (mark_done all_written msg_id o).0
unfolding mark_done replay_record
mark_done-IsDurable msg_id o h = elim (Bool-cases (contains (uint32 msg_id) o.pending)) [
  | inl known ↦
      rw (known, mark_done)
        (append_record-IsDurable (done (uint32 msg_id)) o
          (record o { pending = erase (uint32 msg_id) o.pending }) refl h refl)
  | inr unknown ↦ rw (unknown, mark_done) h
]

spoil-snoc : (rs : List Record) (r : Record) → spoil (rs ++ r ∷ []) ≡ rs ++ unreadable ∷ []
spoil-snoc [] r = refl
spoil-snoc (q ∷ []) r = refl
spoil-snoc (q ∷ q' ∷ rs) r = ap (◌∷◌ q) (spoil-snoc (q' ∷ rs) r)

skipped : (d : Dict ℕ Entry) → replay_from d (unreadable ∷ []) ≡ d
unfolding replay_from replay_record
skipped d = refl

-- Where the last line lacks its newline, the next append takes that line with it, and both are lost.
pub append_torn :
    (rs : List Record) (last r : Record)
    → replay_from []
        (write_line all_written r (record { lines = rs ++ last ∷ []; ended = false })).lines
      ≡ replay_from [] rs
unfolding write_line
append_torn rs last r =
    ap (replay_from []) (spoil-snoc rs last)
    ∙ replay_from-append [] rs (unreadable ∷ [])
    ∙ skipped (replay_from [] rs)
