-- ===== src/Protocol/Segment/Safety.antt =====
-- `defragment` of protocol.py on chunks from anywhere.
use shogunet.Prelude.{
  ℕ, ◌<◌, ◌≡◌, ◌≢◌, refl, ap, ◌∙◌, Option, none, some, List, [], ◌∷◌, ltb, leb, not, ◌||◌, ◌==◌,
  nat_eq, string_eq, length, arith, Bool-cases, Option-cases, inl, inr, All, String, drop,
  not_leb→lt,
}
use shogunet.Prelude.Dict.{Dict, contains, Distinct, insert-Distinct}
use shogunet.Protocol.Errors.{
  Result, ok, err, key_error, ◌>>=◌, Ensures, Ensures-bind, Ensures-if, Ensures-ne, Anything,
}
use shogunet.Protocol.Registry.{type_id, type_id-type_name}
use shogunet.Protocol.Struct.{byte, unpack32}
use shogunet.Protocol.Header.{Header, peek_header}
use shogunet.Protocol.Header.Laws.{Peeked-of_peek_header, peek_header-ne-key_error}
use shogunet.Protocol.Segment.{
  Partial, empty_partial, set_default, collect_chunk, collect, assemble, peek_all, reassemble,
  defragment, first_complete, same_key,
}
use shogunet.Protocol.Segment.Pieces.{join_from_total, Full-of_length, All-insert}

-- The pieces have distinct indices, all below the announced count.
abbrev Below : Option (ℕ × ℕ) → Dict ℕ (List ℕ) → Type 0
Below none d = d ≡ []
Below (some (total, _)) d = Distinct d × All (λ e. e.0 < total) d

set_default-Below :
    (idx total : ℕ) (piece : List ℕ) (d : Dict ℕ (List ℕ))
    → idx < total
    → Distinct d
    → All (λ e. e.0 < total) d
    → Distinct (set_default idx piece d) × All (λ e. e.0 < total) (set_default idx piece d)
set_default-Below idx total piece d lt u b = elim (Bool-cases (contains idx d)) [
  | inl old ↦ rw old (u, b)
  | inr new ↦
      rw new (insert-Distinct idx piece d u, All-insert (λ e. e.0 < total) idx piece d lt b new)
]

abbrev IsBelow : Partial → Type 0
IsBelow p = Below p.meta p.pieces

collect_chunk-Ensures :
    (frame : List ℕ) (m : Option (ℕ × ℕ)) (d : Dict ℕ (List ℕ))
    → Below m d
    → Ensures key_error IsBelow (collect_chunk frame (record { meta = m; pieces = d }))
unfolding collect_chunk
collect_chunk-Ensures frame none d b =
    let idx = byte frame 16 in
    let count = byte frame 17 in
    let plen = unpack32 (byte frame 18) (byte frame 19) (byte frame 20) (byte frame 21) in
    Ensures-if key_error IsBelow (not (count == count) || not (plen == plen)) _ _ (λ _ e. cc)
      λ _.
        Ensures-if key_error IsBelow (leb count idx) _ _ (λ _ e. cc)
          λ inside.
            set_default-Below idx count (drop 22 frame) d (not_leb→lt count idx inside) (rw b tt)
              (rw b tt)
collect_chunk-Ensures frame (some (total, total_len)) d b =
    let idx = byte frame 16 in
    let count = byte frame 17 in
    let plen = unpack32 (byte frame 18) (byte frame 19) (byte frame 20) (byte frame 21) in
    Ensures-if key_error IsBelow (not (count == total) || not (plen == total_len)) _ _ (λ _ e. cc)
      λ _.
        Ensures-if key_error IsBelow (leb total idx) _ _ (λ _ e. cc)
          λ inside.
            set_default-Below idx total (drop 22 frame) d (not_leb→lt total idx inside) b.0 b.1

collect-Ensures :
    (msg_type : String) (msg_id : ℕ) (fs : List (List ℕ × Header)) (p : Partial)
    → IsBelow p
    → Ensures key_error IsBelow (collect msg_type msg_id fs p)
unfolding collect
collect-Ensures msg_type msg_id [] p b = b
collect-Ensures msg_type msg_id ((f, head) ∷ fs) p b =
    Ensures-bind key_error IsBelow IsBelow _ _
      (Ensures-if key_error IsBelow (not (same_key head msg_type msg_id)) _ _ (λ _ e. cc)
        λ _.
          Ensures-if key_error IsBelow (ltb (length f) 22) _ _ (λ _ e. cc)
            λ _. collect_chunk-Ensures f p.meta p.pieces b)
      λ p' b'. collect-Ensures msg_type msg_id fs p' b'

-- A head that `peek_header` returned names a registered type.
abbrev IsKnown : Header → Type 0
IsKnown h = (t : ℕ) × (type_id h.msg_type ≡ some t)

assemble-Ensures :
    (first : Header) (m : Option (ℕ × ℕ)) (d : Dict ℕ (List ℕ))
    → IsKnown first
    → Below m d
    → Ensures key_error Anything (assemble first (record { meta = m; pieces = d }))
unfolding assemble
assemble-Ensures first none d known b = tt
assemble-Ensures first (some (total, plen)) d known b =
    Ensures-if key_error Anything (ltb (length d) total) _ _ (λ _. tt)
      λ long.
        let (payload, join) =
          join_from_total d total 0 total (omega arith) (Full-of_length total d b.0 b.1 long) in
        rw join (
          Ensures-if key_error Anything (not (length payload == plen)) _ _ (λ _ e. cc)
            λ _. ground arith)

peek_all-Ensures : (fs : List (List ℕ)) → Ensures key_error (All (λ p. IsKnown p.1)) (peek_all fs)
unfolding peek_all
peek_all-Ensures [] = tt
peek_all-Ensures (f ∷ fs) = by_header (peek_header f) refl (peek_all-Ensures fs)
  where
    by_header :
        (r : Result Header)
        → peek_header f ≡ r
        → Ensures key_error (All (λ p. IsKnown p.1)) (peek_all fs)
        → Ensures key_error (All (λ p. IsKnown p.1)) (peek_all (f ∷ fs))
    by_header (err e) q ih = rw (q, peek_all) (λ x. peek_header-ne-key_error f (q ∙ ap err x))
    by_header (ok h) q ih =
        let p = Peeked-of_peek_header f h q in
        rw (q, peek_all)
          (Ensures-bind key_error (All (λ x. IsKnown x.1)) (All (λ x. IsKnown x.1)) (peek_all fs) _
            ih
            λ rest known.
              ((byte f 6, (type_id-type_name (byte f 6) h.msg_type p.type_ok).0), known))

reassemble-Ensures :
    (fs : List (List ℕ × Header))
    → All (λ p. IsKnown p.1) fs
    → Ensures key_error Anything (reassemble fs)
reassemble-Ensures [] known = tt
reassemble-Ensures ((f, first) ∷ fs) known =
    elim (Option-cases (first_complete ((f, first) ∷ fs))) [
      | inr (whole, found) ↦ rw (found, reassemble) tt
      | inl segments ↦
          rw (segments, reassemble)
            (Ensures-bind key_error IsBelow Anything _ (assemble first)
              (collect-Ensures first.msg_type first.msg_id ((f, first) ∷ fs) empty_partial refl)
              λ p b. assemble-Ensures first p.meta p.pieces known.0 b)
    ]

-- Whatever chunks come, from whatever senders, reassembly never ends in a KeyError: the count of
-- distinct indices below the total leaves no gap when it reaches the total.
pub defragment-ne-key_error : (chunks : List (List ℕ)) → defragment chunks ≢ err key_error
unfolding defragment
defragment-ne-key_error chunks = Ensures-ne key_error (peek_all chunks >>= reassemble) (
    Ensures-bind key_error (All (λ p. IsKnown p.1)) Anything (peek_all chunks) reassemble
      (peek_all-Ensures chunks) reassemble-Ensures)
