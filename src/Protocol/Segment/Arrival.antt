-- ===== src/Protocol/Segment/Arrival.antt =====
-- The theorems on segmentation, about `segment_frame` and `defragment` alone.
use shogunet.Prelude.{
  ℕ, zero, suc, ◌+◌, ◌<◌, ◌≤◌, ◌≡◌, refl, ap, sym, ◌∙◌, some, none, List, [], ◌∷◌, map, arith, true,
  if◌then◌else◌, nat_eq, length, drop, All, get_or, length-map, subst,
}
use shogunet.Protocol.Errors.{ok}
use shogunet.Protocol.Struct.{IsBytes, bit_zero}
use shogunet.Protocol.Header.{Header, peek_header}
use shogunet.Protocol.Segment.{segment_frame, defragment}
use shogunet.Protocol.Segment.Pieces.{covers}
use shogunet.Protocol.Segment.Chunks.{chunk, length-piece-le, length-chunk}
use shogunet.Protocol.Segment.Reassembly.{
  defragment-chunks, IsSplit, range_from, covers-range, range_from-below,
}
use shogunet.Protocol.Segment.RoundTrip.{
  Segmented, whole, split, segment_frame-Segmented, defragment-copies,
}

get_or-map-range :
    (g : ℕ → List ℕ) (n i j : ℕ) → j < n → get_or (map g (range_from n i)) j [] ≡ g (i + j)
get_or-map-range g zero i j lt = absurd (omega arith)
get_or-map-range g (suc n) i zero lt = let e : i + 0 ≡ i = omega arith in rw e refl
get_or-map-range g (suc n) i (suc j) lt =
    let e : i + suc j ≡ i + 1 + j = omega arith in
    rw e (get_or-map-range g n (i + 1) j (omega arith))

arrival-range :
    (g : ℕ → List ℕ) (count : ℕ) (is : List ℕ)
    → All (λ i. i < count) is
    → map (λ i. get_or (map g (range_from count 0)) i []) is ≡ map g is
arrival-range g count [] b = refl
arrival-range g count (i ∷ is) b =
    let e : 0 + i ≡ i = omega arith in
    let here : get_or (map g (range_from count 0)) i [] ≡ g i =
      rw e at (get_or-map-range g count 0 i b.0) in
    λ k. here k ∷ arrival-range g count is b.1 k

length-range_from : (n i : ℕ) → length (range_from n i) ≡ n
length-range_from zero i = refl
length-range_from (suc n) i = ap suc (length-range_from n (i + 1))

covers_one : (i : ℕ) (is : List ℕ) → i < 1 → covers 1 (i ∷ is) ≡ true
covers_one zero is lt = refl
covers_one (suc i) is lt = absurd (omega arith)

-- Whatever chunks arrive, the frame is back exactly when none is missing.
abbrev Rebuilds : List ℕ → List (List ℕ) → Type 0
Rebuilds f chunks =
    (i : ℕ) (is : List ℕ)
    → All (λ j. j < length chunks) (i ∷ is)
    → defragment (map (λ k. get_or chunks k []) (i ∷ is))
      ≡ ok (if covers (length chunks) (i ∷ is) then some f else none)

module _ (f : List ℕ) (h : Header) (bytes : IsBytes f) (peeked : peek_header f ≡ ok h) where
  Rebuilds-whole : bit_zero h.flags ≡ 0 → Rebuilds f (f ∷ [])
  Rebuilds-whole even i is b =
      rw (covers_one i is b.0) (defragment-copies f h bytes peeked i is b even)

  Rebuilds-split :
      (t per count : ℕ) (s : IsSplit f h t per count)
      → bit_zero h.flags ≡ 0
      → Rebuilds f (map (chunk h t per count (drop 16 f) s.cut) (range_from count 0))
  Rebuilds-split t per count s even i is b =
      let g = chunk h t per count (drop 16 f) s.cut in
      let len : length (map g (range_from count 0)) ≡ count =
        length-map g (range_from count 0) ∙ length-range_from count 0 in
      let b' : All (λ j. j < count) (i ∷ is) = subst (λ n. All (λ j. j < n) (i ∷ is)) len b in
      let back = s.original even in
      arrive_as g (i ∷ is) count len b' (
        defragment-chunks h t per count (drop 16 f) s.cut i is b' s.enough s.id_ok
        ∙ ap (λ x. ok (if covers count (i ∷ is) then some x else none)) (sym back))
    where
      arrive_as :
          (g : ℕ → List ℕ) (js : List ℕ) (n : ℕ)
          → length (map g (range_from n 0)) ≡ n
          → All (λ j. j < n) js
          → defragment (map g js) ≡ ok (if covers n js then some f else none)
          → defragment (map (λ k. get_or (map g (range_from n 0)) k []) js)
            ≡ ok (if covers (length (map g (range_from n 0))) js then some f else none)
      arrive_as g js n len b q = rw (len, arrival-range g n js b) q

  -- The chunks of a frame, received in any order, with any repetitions: the frame comes back
  -- exactly when every chunk is among them, and otherwise `defragment` waits for more. Never does
  -- it raise. The frame is made of bytes, has a header that `peek_header` accepts, and is not a
  -- segment itself.
  pub defragment-arrival :
      (size : ℕ) (chunks : List (List ℕ)) (i : ℕ) (is : List ℕ)
      → bit_zero h.flags ≡ 0
      → segment_frame f size ≡ ok chunks
      → All (λ j. j < length chunks) (i ∷ is)
      → defragment (map (λ k. get_or chunks k []) (i ∷ is))
        ≡ ok (if covers (length chunks) (i ∷ is) then some f else none)
  defragment-arrival size chunks i is even e b =
      by_cases (segment_frame-Segmented f h bytes peeked size chunks e) i is b
    where
      by_cases : Segmented f h bytes peeked size chunks → Rebuilds f chunks
      by_cases (whole fits same) = subst (Rebuilds f) (sym same) (Rebuilds-whole even)
      by_cases (split t per count s eq same) =
          subst (Rebuilds f) (sym same) (Rebuilds-split t per count s even)

  -- What `segment_frame` returns, `defragment` turns back into the frame.
  pub defragment-segment_frame :
      (size : ℕ) (chunks : List (List ℕ))
      → bit_zero h.flags ≡ 0
      → segment_frame f size ≡ ok chunks
      → defragment chunks ≡ ok (some f)
  defragment-segment_frame size chunks even e =
      by_cases (segment_frame-Segmented f h bytes peeked size chunks e)
    where
      in_order :
          (t per count : ℕ) (s : IsSplit f h t per count)
          → defragment (map (chunk h t per count (drop 16 f) s.cut) (range_from count 0))
            ≡ ok (some f)
      in_order t per zero s = absurd (omega (arith, s.some_chunk))
      in_order t per (suc n) s =
          defragment-chunks h t per (suc n) (drop 16 f) s.cut 0 (range_from n 1)
            (range_from-below (suc n) 0 (suc n) (omega arith)) s.enough s.id_ok
          ∙ rw (covers-range (suc n), ← s.original even) refl

      by_cases : Segmented f h bytes peeked size chunks → defragment chunks ≡ ok (some f)
      by_cases (whole fits same) =
          rw same (defragment-copies f h bytes peeked 0 [] (omega arith, tt) even)
      by_cases (split t per count s eq same) = rw same (in_order t per count s)

  -- Where `segment_frame` cuts a frame of bytes that `peek_header` accepts: every chunk fits the
  -- medium, and no frame takes more than 255 of them.
  pub segment_frame-fits :
      (size : ℕ) (chunks : List (List ℕ))
      → segment_frame f size ≡ ok chunks
      → All (λ c. length c ≤ size) chunks × (length chunks ≤ 255)
  segment_frame-fits size chunks e =
      by_cases (segment_frame-Segmented f h bytes peeked size chunks e)
    where
      all_fit :
          (t per count : ℕ) (s : IsSplit f h t per count) (n i : ℕ)
          → All
              (λ c. length c ≤ 22 + per)
              (map (chunk h t per count (drop 16 f) s.cut) (range_from n i))
      all_fit t per count s zero i = tt
      all_fit t per count s (suc n) i = (
        omega (
          arith,
          length-chunk h t per count (drop 16 f) s.cut i,
          length-piece-le h t per count (drop 16 f) s.cut i,
        ),
        all_fit t per count s n (i + 1),
      )

      by_cases :
          Segmented f h bytes peeked size chunks
          → All (λ c. length c ≤ size) chunks × (length chunks ≤ 255)
      by_cases (whole fits same) = rw same ((fits, tt), omega arith)
      by_cases (split t per count s eq same) =
          rw (same, ← eq)
            (
              all_fit t per count s count 0,
              omega (
                arith,
                length-map (chunk h t per count (drop 16 f) s.cut) (range_from count 0),
                length-range_from count 0,
                s.few,
              ),
            )
