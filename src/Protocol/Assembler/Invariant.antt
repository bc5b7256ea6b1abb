-- ===== src/Protocol/Assembler/Invariant.antt =====
-- What `SegmentAssembler` of protocol.py keeps from one frame to the next.
use shogunet.Prelude.{
  ℕ, ◌-◌, ◌<◌, ◌≤◌, ◌≡◌, ◌≢◌, refl, ap, sym, ◌∙◌, Option, none, some, List, [], ◌∷◌, ◌++◌, true,
  false, ltb, ◌==◌, nat_eq, string_eq, pair_eq, length, arith, Bool-cases, Option-cases, inl, inr,
  beq_refl, All, is_some, String,
}
use shogunet.Prelude.Dict.{
  Dict, lookup, contains, insert, erase, elem, remove_first, keys, Distinct, insert-Distinct,
  erase-Distinct, keys-insert, remove_first-keys, erase_head, elem-keys, length-keys, lookup-insert,
  length-erase-le, lookup-erase, elem-last, erase_absent, Unique, Unique-keys, keys-contained,
  contained-erase,
}
use shogunet.Protocol.Errors.{Result, ok, err, key_error, err-injective}
use shogunet.Protocol.Struct.{bit_zero}
use shogunet.Protocol.Header.{Header, peek_header}
use shogunet.Protocol.Header.Laws.{peek_header-ne-key_error}
use shogunet.Protocol.Segment.{defragment}
use shogunet.Protocol.Segment.Safety.{defragment-ne-key_error}
use shogunet.Protocol.Assembler.{
  Assembler, Key, Entry, new_assembler, evict, open_entry, close_entry, prune, finish, add_piece,
  add,
}

-- The order lists the pending keys, each once, oldest first, and there are at most `max_pending`.
pub record IsValid (a : Assembler) : Type 0 where
  pub in_order : a.order ≡ keys a.pending
  pub distinct : Distinct a.pending
  pub bounded : length a.order ≤ a.max_pending
  pub positive : 0 < a.max_pending

pub new_assembler-IsValid : (n ttl : ℕ) → IsValid (new_assembler n ttl)
unfolding new_assembler
new_assembler-IsValid n ttl = record {
  in_order = refl;
  distinct = tt;
  bounded = omega arith;
  positive = omega arith;
}

evict-keys :
    (limit : ℕ) (d : Dict Key Entry)
    → Distinct d
    → (evict limit (keys d) d).0 ≡ keys (evict limit (keys d) d).1
unfolding evict
evict-keys limit [] u = refl
evict-keys limit ((k, v) ∷ d) u = rw (erase_head k v d u) (ground (arith, evict-keys limit d u.1))

evict-Distinct : (limit : ℕ) (d : Dict Key Entry) → Distinct d → Distinct (evict limit (keys d) d).1
unfolding evict
evict-Distinct limit [] u = tt
evict-Distinct limit ((k, v) ∷ d) u =
    rw (erase_head k v d u) (ground (arith, evict-Distinct limit d u.1))

evict-bounded :
    (limit : ℕ) (d : Dict Key Entry) (ks : List Key) → length (evict limit ks d).0 ≤ limit
unfolding evict
evict-bounded limit d [] = omega arith
evict-bounded limit d (k ∷ ks) = ground (arith, evict-bounded limit (erase k d) ks)

open_entry-IsValid :
    (now : ℕ) (key : Key) (a : Assembler) → IsValid a → IsValid (open_entry now key a)
unfolding open_entry
open_entry-IsValid now key a v = elim (Bool-cases (contains key a.pending)) [
  | inl known ↦ rw known v
  | inr new ↦
      let d : Dict Key Entry = insert key (now, []) a.pending in
      let order : a.order ++ key ∷ [] ≡ keys d =
        rw (v.in_order, keys-insert key (now, []) a.pending, new) refl in
      let u = insert-Distinct key (now, []) a.pending v.distinct in
      rw (new, order)
        (record {
          in_order = evict-keys a.max_pending d u;
          distinct = evict-Distinct a.max_pending d u;
          bounded = evict-bounded a.max_pending d (keys d);
          positive = v.positive;
        })
]

abbrev without_key : Key → Assembler → Assembler
without_key key a = record a { pending = erase key a.pending; order = remove_first key a.order }

without_key-IsValid : (key : Key) (a : Assembler) → IsValid a → IsValid (without_key key a)
without_key-IsValid key a v =
    let order : remove_first key a.order ≡ keys (erase key a.pending) =
      rw v.in_order (remove_first-keys key a.pending v.distinct) in
    record {
      in_order = order;
      distinct = erase-Distinct key a.pending v.distinct;
      bounded = rw order (
          omega (
            arith,
            length-keys (erase key a.pending),
            length-erase-le key a.pending,
            length-keys a.pending,
            v.bounded,
            ap length v.in_order,
          ));
      positive = v.positive;
    }

close_entry-IsValid : (key : Key) (a : Assembler) → IsValid a → IsValid (close_entry key a)
unfolding close_entry
close_entry-IsValid key a v = elim (Bool-cases (elem key a.order)) [
  | inl known ↦ rw known (without_key-IsValid key a v)
  | inr unknown ↦
      let gone : contains key a.pending ≡ false =
        sym (elem-keys key a.pending) ∙ ap (elem key) (sym v.in_order) ∙ unknown in
      rw (unknown, erase_absent key a.pending gone) v
]

-- Pruning keeps the invariant, and every access of its loop finds its key.
prune_total :
    (now : ℕ) (ks : List Key) (a : Assembler)
    → Unique ks
    → All (λ k. contains k a.pending ≡ true) ks
    → IsValid a
    → (a' : Assembler) × (prune now ks a ≡ ok a') × IsValid a'
unfolding prune
prune_total now [] a u there v = (a, refl, v)
prune_total now (k ∷ ks) a u there v = elim (Option-cases (lookup k a.pending)) [
  | inl missing ↦ absurd (ground arith)
  | inr (entry, found) ↦ elim (Bool-cases (ltb a.ttl (now - entry.0))) [
    | inl stale ↦
        let (a', q, w) =
          prune_total now ks (without_key k a) u.1 (contained-erase k ks a.pending u.0 there.1)
            (without_key-IsValid k a v) in
        (a', rw (found, stale) q, w)
    | inr fresh ↦
        let (a', q, w) = prune_total now ks a u.1 there.1 v in (a', rw (found, fresh) q, w)
  ]
]

finish-IsValid :
    (now : ℕ) (key : Key) (a : Assembler) (r : Result (Option (List ℕ)))
    → IsValid a
    → r ≢ err key_error
    → IsValid (finish now key a r).0 × ((finish now key a r).1 ≢ err key_error)
unfolding finish
finish-IsValid now key a (err x) v safe = (v, safe)
finish-IsValid now key a (ok (some frame)) v safe = (close_entry-IsValid key a v, λ e. cc)
finish-IsValid now key a (ok none) v safe =
    let (a', q, w) =
      prune_total now a.order a (rw v.in_order (Unique-keys a.pending v.distinct))
        (rw v.in_order (keys-contained a.pending)) v in
    rw (q, finish) (w, λ e. cc)

add_piece-IsValid :
    (now : ℕ) (key : Key) (frame : List ℕ) (a : Assembler)
    → IsValid a
    → contains key a.pending ≡ true
    → IsValid (add_piece now key frame a).0 × ((add_piece now key frame a).1 ≢ err key_error)
unfolding add_piece
add_piece-IsValid now key frame a v there = elim (Option-cases (lookup key a.pending)) [
  | inl missing ↦ absurd (ground arith)
  | inr (entry, found) ↦
      let chunks = entry.1 ++ frame ∷ [] in
      let a' = record a { pending = insert key (entry.0, chunks) a.pending } in
      let order : a.order ≡ keys a'.pending =
        v.in_order ∙ sym (keys-insert key (entry.0, chunks) a.pending ∙ rw there refl) in
      rw (found, add_piece)
        (finish-IsValid now key a' (defragment chunks)
          (record {
            in_order = order;
            distinct = insert-Distinct key (entry.0, chunks) a.pending v.distinct;
            bounded = v.bounded;
            positive = v.positive;
          })
          (defragment-ne-key_error chunks))
]

-- Making room never evicts the entry that was just opened.
evict-keeps :
    (limit : ℕ) (key : Key) (ks : List Key) (d : Dict Key Entry)
    → 0 < limit
    → Unique (ks ++ key ∷ [])
    → contains key d ≡ true
    → contains key (evict limit (ks ++ key ∷ []) d).1 ≡ true
unfolding evict
evict-keeps limit key [] d p u there = ground arith
evict-keeps limit key (k ∷ ks) d p u there = ground (
  arith,
  evict-keeps limit key ks (erase k d) p u.1,
  elem-last key ks,
  lookup-erase k key d,
  (pair_eq {A = String} {B = ℕ}).beq_iff k key,
)

open_entry-contains :
    (now : ℕ) (key : Key) (a : Assembler)
    → IsValid a
    → contains key (open_entry now key a).pending ≡ true
unfolding open_entry
open_entry-contains now key a v = elim (Bool-cases (contains key a.pending)) [
  | inl known ↦ rw known known
  | inr new ↦
      let d : Dict Key Entry = insert key (now, []) a.pending in
      let order : keys d ≡ a.order ++ key ∷ [] =
        rw (v.in_order, keys-insert key (now, []) a.pending, new) refl in
      let there : contains key d ≡ true =
        ap is_some (lookup-insert key key (now, []) a.pending) ∙ rw (beq_refl key) refl in
      rw new (
        evict-keeps a.max_pending key a.order d v.positive
          (rw order at (Unique-keys d (insert-Distinct key (now, []) a.pending v.distinct))) there)
]

-- Adding any frame at any time keeps a valid assembler consistent and bounded, and no access to its
-- dictionary ends in a KeyError.
pub add-IsValid :
    (now : ℕ) (frame : List ℕ) (a : Assembler)
    → IsValid a
    → IsValid (add now frame a).0 × ((add now frame a).1 ≢ err key_error)
unfolding add
add-IsValid now frame a v = by_header (peek_header frame) refl
  where
    by_header :
        (r : Result Header)
        → peek_header frame ≡ r
        → IsValid (add now frame a).0 × ((add now frame a).1 ≢ err key_error)
    by_header (err e) q =
        rw (q, add) (v, λ x. peek_header-ne-key_error frame (q ∙ ap err (err-injective x)))
    by_header (ok head) q = elim (Bool-cases (bit_zero head.flags == 0)) [
      | inl complete ↦ rw (q, add, complete) (v, λ e. cc)
      | inr segment ↦
          let key : Key = (head.msg_type, head.msg_id) in
          rw (q, add, segment)
            (add_piece-IsValid now key frame (open_entry now key a) (open_entry-IsValid now key a v)
              (open_entry-contains now key a v))
    ]
