-- ===== src/Protocol/Segment/Reassembly.antt =====
-- `defragment` on the chunks of one frame: any order, duplicates and losses.
use shogunet.Prelude.{
  ℕ, zero, suc, ◌+◌, ◌-◌, ◌*◌, ◌<◌, ◌≤◌, ◌≡◌, refl, ap, sym, ◌∙◌, none, some, List, [], ◌∷◌, map,
  arith, true, if◌then◌else◌, nat_eq, string_eq, beq_refl, length, take, drop, All, inl, inr,
  Bool-cases, take-append-drop, drop-drop, take_of_length-le, ltb, not,
}
use shogunet.Prelude.Dict.{Dict, elem, contains}
use shogunet.Protocol.Errors.{ok, ◌>>=◌}
use shogunet.Protocol.Registry.{type_id}
use shogunet.Protocol.Struct.{set_bit_zero, clear_bit_zero, bit_zero}
use shogunet.Protocol.Header.{Header, pack_header, peek_header}
use shogunet.Protocol.Segment.{
  first_complete, reassemble, collect, defragment, assemble, empty_partial, join_from,
}
use shogunet.Protocol.Segment.Pieces.{
  gathered, covers, covers_iff, covers_of_all, IsGathered, gathered-IsGathered, contains-gathered,
  pieces_from, join_from-pieces, Full-of_length, length_of_Full,
}
use shogunet.Protocol.Segment.Chunks.{
  Cut, piece, chunk, chunk_head, labelled, peek_all-chunks, first_complete-chunks, collect-chunks,
}

-- With no complete frame among the chunks, the loop runs and its result is assembled.
reassemble-none :
    (f : List ℕ) (first : Header) (rest : List (List ℕ × Header))
    → first_complete ((f, first) ∷ rest) ≡ none
    → reassemble ((f, first) ∷ rest)
      ≡ (collect first.msg_type first.msg_id ((f, first) ∷ rest) empty_partial >>= assemble first)
reassemble-none f first rest e = rw (e, reassemble) refl

module _ (h : Header) (t per count : ℕ) (payload : List ℕ) (c : Cut h t per count payload) where
  abbrev piece_of : ℕ → List ℕ
  piece_of = piece h t per count payload c

  abbrev chunk_of : ℕ → List ℕ
  chunk_of = chunk h t per count payload c

  -- The pieces from the `i`-th on are a slice of the payload.
  pieces_from-slice : (n i : ℕ) → pieces_from piece_of n i ≡ take (n * per) (drop (i * per) payload)
  pieces_from-slice zero i = let e : 0 * per ≡ 0 = omega arith in rw e refl
  pieces_from-slice (suc n) i =
      let e : (i + 1) * per - i * per ≡ per = grind arith in
      let s : (i + 1) * per ≡ i * per + per = omega arith in
      let m : suc n * per ≡ per + n * per = omega arith in
      rw (pieces_from-slice n (i + 1), e, s, m, ← drop-drop (i * per) per payload)
        (take-append-drop per (n * per) (drop (i * per) payload))

  pieces_from-payload : length payload ≤ count * per → pieces_from piece_of count 0 ≡ payload
  pieces_from-payload le =
      let z : 0 * per ≡ 0 = omega arith in
      pieces_from-slice count 0 ∙ rw z (take_of_length-le (count * per) payload le)

  -- What is there after the pieces of the indices `is` were filed.
  filed : List ℕ → Dict ℕ (List ℕ)
  filed is = gathered piece_of is []

  module _ (is : List ℕ) (b : All (λ i. i < count) is) where
    filed-IsGathered : IsGathered piece_of count (filed is)
    unfolding filed
    filed-IsGathered =
        gathered-IsGathered piece_of count is [] b
          (record { distinct = tt; bounded = tt; right = tt })

    contains-filed : (j : ℕ) → contains j (filed is) ≡ elem j is
    unfolding filed
    contains-filed j = ground (arith, contains-gathered piece_of is j [])

    -- The count of the pieces tells whether all indices have come.
    ltb-covers : ltb (length (filed is)) count ≡ not (covers count is)
    ltb-covers =
        let g = filed-IsGathered in
        elim (Bool-cases (covers count is)) [
          | inl all_there ↦ rw all_there (
              length_of_Full count (filed is) g.distinct g.bounded
                (λ i lt. contains-filed i ∙ covers_iff count is all_there i lt))
          | inr some_missing ↦ elim (Bool-cases (ltb (length (filed is)) count)) [
            | inl short ↦ rw (some_missing, short) refl
            | inr long ↦ absurd (
                ground (
                  arith,
                  covers_of_all count is (λ i lt.
                      sym (contains-filed i)
                      ∙ Full-of_length count (filed is) g.distinct g.bounded long i lt),
                ))
          ]
        ]

  abbrev pub rebuilt : List ℕ
  rebuilt =
      pack_header h.codec h.cls t (clear_bit_zero (set_bit_zero h.flags)) h.msg_id (length payload)
        payload

  assemble-filed :
      (i : ℕ) (is : List ℕ)
      → All (λ i. i < count) is
      → length payload ≤ count * per
      → type_id h.msg_type ≡ some t
      → assemble
          (chunk_head h t per count payload c i)
          (record { meta = some (count, length payload); pieces = filed is })
        ≡ ok (if covers count is then some rebuilt else none)
  unfolding assemble
  assemble-filed i is b le tid = elim (Bool-cases (covers count is)) [
    | inl all_there ↦
        let g = filed-IsGathered is b in
        let join : join_from (filed is) count 0 ≡ ok payload =
          join_from-pieces piece_of count (filed is) count 0 g (omega arith)
            (λ j lt. contains-filed is b j ∙ covers_iff count is all_there j lt)
          ∙ ap ok (pieces_from-payload le) in
        rw (ltb-covers is b, all_there, join, beq_refl (length payload)) (ground arith)
    | inr some_missing ↦ rw (ltb-covers is b, some_missing) refl
  ]

  -- Any arrival of chunks of one frame, in any order and with duplicates: the frame if every index
  -- has come, nothing yet if one is missing.
  pub defragment-chunks :
      (i : ℕ) (is : List ℕ)
      → All (λ i. i < count) (i ∷ is)
      → length payload ≤ count * per
      → type_id h.msg_type ≡ some t
      → defragment (map chunk_of (i ∷ is))
        ≡ ok (if covers count (i ∷ is) then some rebuilt else none)
  unfolding defragment filed
  defragment-chunks i is b le tid =
      rw
        (
          peek_all-chunks h t per count payload c (i ∷ is),
          reassemble-none (chunk_of i) (chunk_head h t per count payload c i)
              (labelled h t per count payload c is)
              (first_complete-chunks h t per count payload c (i ∷ is)),
          collect-chunks h t per count payload c (i ∷ is) none [] b refl,
        )
        (assemble-filed i (i ∷ is) b le tid)

-- range(i, i + n)
abbrev pub range_from : ℕ → ℕ → List ℕ
range_from zero i = []
range_from (suc n) i = i ∷ range_from n (i + 1)

pub range_from-below : (n i count : ℕ) → i + n ≤ count → All (λ j. j < count) (range_from n i)
range_from-below zero i count h = tt
range_from-below (suc n) i count h = (omega arith, range_from-below n (i + 1) count (omega arith))

elem-range_from : (n i j : ℕ) → i ≤ j → j < i + n → elem j (range_from n i) ≡ true
elem-range_from zero i j lo hi = absurd (omega arith)
elem-range_from (suc n) i j lo hi = ground (arith, elem-range_from n (i + 1) j)

pub covers-range : (count : ℕ) → covers count (range_from count 0) ≡ true
covers-range count =
    covers_of_all count (range_from count 0)
      (λ j lt. elem-range_from count 0 j (omega arith) (omega arith))

-- A cut of the payload of `f`: what `segment_frame` has computed when it splits.
pub record IsSplit (f : List ℕ) (h : Header) (t per count : ℕ) : Type 0 where
  pub cut : Cut h t per count (drop 16 f)
  pub peeked : peek_header f ≡ ok h
  pub enough : length (drop 16 f) ≤ count * per
  pub some_chunk : 0 < count
  pub id_ok : type_id h.msg_type ≡ some t
  pub few : count ≤ 255
  pub original :
      bit_zero h.flags ≡ 0
      → f
        ≡ pack_header h.codec h.cls t
            (clear_bit_zero (set_bit_zero h.flags))
            h.msg_id
            (length (drop 16 f))
            (drop 16 f)
