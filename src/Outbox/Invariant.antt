-- ===== src/Outbox/Invariant.antt =====
-- The pending frames of store_forward.py: their ids and their number.
use shogunet.Prelude.{
  ℕ, ◌≤◌, ◌<◌, ◌≡◌, refl, String, Option, some, List, [], ◌∷◌, Bool, true, false, not, arith, leb,
  ◌&&◌, if◌then◌else◌, nat_eq, length, All, Bool-cases, inl, inr, ◌==◌, ◌⊎◌,
}
use shogunet.Prelude.Dict.{
  Dict, lookup, contains, insert, erase, Distinct, insert-Distinct, erase-Distinct, length-insert,
  length-erase-le, lookup-insert,
}
use shogunet.Outbox.{
  Write, Entry, Record, queued, done, unreadable, Outbox, uint32, peer_or_all, append_record,
  enqueue, mark_done, compact, replay_record, replay_from,
}

abbrev pub IsFiled : Dict ℕ Entry → Type 0
IsFiled = All (λ e. e.1.msg_id ≡ e.0)

pub record IsValid (o : Outbox) : Type 0 where
  pub distinct : Distinct o.pending
  pub filed : IsFiled o.pending
  pub bounded : length o.pending ≤ o.max_pending
  pub positive : 0 < o.max_pending

pub insert-IsFiled :
    (entry : Entry) (d : Dict ℕ Entry) → IsFiled d → IsFiled (insert entry.msg_id entry d)
insert-IsFiled entry [] f = (refl, tt)
insert-IsFiled entry ((k, v) ∷ d) f = ground (arith, insert-IsFiled entry d f.1)

pub erase-IsFiled : (k : ℕ) (d : Dict ℕ Entry) → IsFiled d → IsFiled (erase k d)
erase-IsFiled k [] f = tt
erase-IsFiled k ((j, v) ∷ d) f = ground (arith, erase-IsFiled k d f.1)

replay_record-Distinct :
    (r : Record) (d : Dict ℕ Entry)
    → Distinct d × IsFiled d
    → Distinct (replay_record d r) × IsFiled (replay_record d r)
unfolding replay_record
replay_record-Distinct (queued e) d h = (insert-Distinct e.msg_id e d h.0, insert-IsFiled e d h.1)
replay_record-Distinct (done k) d h = (erase-Distinct k d h.0, erase-IsFiled k d h.1)
replay_record-Distinct unreadable d h = h

-- Whatever stands in the file, the replayed frames are filed under their own ids, each once.
pub replay_from-Distinct :
    (rs : List Record) (d : Dict ℕ Entry)
    → Distinct d × IsFiled d
    → Distinct (replay_from d rs) × IsFiled (replay_from d rs)
unfolding replay_from
replay_from-Distinct [] d h = h
replay_from-Distinct (r ∷ rs) d h =
    replay_from-Distinct rs (replay_record d r) (replay_record-Distinct r d h)

module _ (written : Write) (o : Outbox) (v : IsValid o) where
  pub enqueue-IsValid :
      (now msg_id : ℕ) (peer : Option String) (frame : List ℕ) (meta : Dict String String)
      → IsValid (enqueue written now msg_id peer frame meta o).0
  unfolding enqueue
  enqueue-IsValid now msg_id peer frame meta =
      let entry : Entry = record {
        msg_id = uint32 msg_id;
        peer = peer_or_all peer;
        frame = frame;
        queued_at = now;
        meta = meta;
      } in
      ground (
        arith,
        insert-Distinct entry.msg_id entry o.pending v.distinct,
        insert-IsFiled entry o.pending v.filed,
        length-insert entry.msg_id entry o.pending,
      )

  pub mark_done-IsValid : (msg_id : ℕ) → IsValid (mark_done written msg_id o).0
  unfolding mark_done
  mark_done-IsValid msg_id = ground (
    arith,
    erase-Distinct (uint32 msg_id) o.pending v.distinct,
    erase-IsFiled (uint32 msg_id) o.pending v.filed,
    length-erase-le (uint32 msg_id) o.pending,
  )

  pub compact-IsValid : (rewritten : Bool) → IsValid (compact rewritten o).0
  unfolding compact
  compact-IsValid true = record {
    distinct = v.distinct;
    filed = v.filed;
    bounded = v.bounded;
    positive = v.positive;
  }
  compact-IsValid false = v

  -- On a valid store, `enqueue` refuses exactly a new id at capacity, and then changes nothing; otherwise the id
  -- has the new frame and no other id is touched.
  enqueue_lem :
      (now msg_id : ℕ) (peer : Option String) (frame : List ℕ) (meta : Dict String String)
      → let (o', accepted) = enqueue written now msg_id peer frame meta o in
        let id = uint32 msg_id in
        ((accepted ≡ false)
          × (o' ≡ o)
          × (contains id o.pending ≡ false)
          × (length o.pending ≡ o.max_pending))
        ⊎ ((accepted ≡ true)
            × ((j : ℕ)
                → lookup j o'.pending ≡ (
                    if id == j
                    then some (record {
                      msg_id = id;
                      peer = peer_or_all peer;
                      frame = frame;
                      queued_at = now;
                      meta = meta;
                    })
                    else lookup j o.pending)))
  unfolding enqueue
  enqueue_lem now msg_id peer frame meta =
      let id = uint32 msg_id in
      let entry : Entry = record {
        msg_id = id;
        peer = peer_or_all peer;
        frame = frame;
        queued_at = now;
        meta = meta;
      } in
      elim (Bool-cases (leb o.max_pending (length o.pending) && not (contains id o.pending))) [
        | inl full ↦ rw full (inl (refl, refl, ground arith, ground arith))
        | inr room ↦ rw room (inr (refl, λ j. stored entry j))
      ]
    where
      stored :
          (entry : Entry) (j : ℕ)
          → lookup j
              (append_record written
                (queued entry)
                (record o { pending = insert entry.msg_id entry o.pending })).pending
            ≡ (if entry.msg_id == j then some entry else lookup j o.pending)
      stored entry j = ground (arith, lookup-insert entry.msg_id j entry o.pending)
