-- ===== src/Protocol/Segment/RoundTrip.antt =====
-- `segment_frame` and `defragment` together: what a receiver makes of the chunks of a frame.
use shogunet.Prelude.{
  ℕ, zero, suc, ◌+◌, ◌-◌, ◌*◌, ◌<◌, ◌≤◌, ◌≡◌, refl, ap, ◌∙◌, some, List, [], ◌∷◌, map, arith,
  nat_eq, string_eq, length, drop, All, length-drop, inl, inr, Bool-cases, Option-cases, ltb, leb,
  get_or,
}
use shogunet.Protocol.Errors.{ok, ◌>>=◌}
use shogunet.Protocol.Registry.{type_id, type_id-type_name}
use shogunet.Protocol.Struct.{byte, set_bit_zero, clear_bit_zero, IsBytes, bit_zero}
use shogunet.Protocol.Header.{Header, peek_header}
use shogunet.Protocol.Header.Laws.{Peeked-of_peek_header, pack_header-peek_header, byte-lt}
use shogunet.Protocol.Segment.{
  segment_frame, cut_payload, segment_count, chunks_from, defragment, message_type_id, peek_all,
}
use shogunet.Protocol.Segment.Chunks.{Cut, chunk}
use shogunet.Protocol.Segment.Reassembly.{IsSplit, range_from}

-- The whole payload fits in `count` chunks of `per` bytes, and a longer one leaves none empty.
segment_count-enough : (len per : ℕ) → 0 < per → len ≤ segment_count len per * per
segment_count-enough len per h = grind arith

segment_count-pos : (len per : ℕ) → 0 < per → 0 < len → 0 < segment_count len per
segment_count-pos len per h p = grind arith

module _ (f : List ℕ) (h : Header) (bytes : IsBytes f) (peeked : peek_header f ≡ ok h) where
  msg_id-lt : h.msg_id < 4294967296
  msg_id-lt =
      let p = Peeked-of_peek_header f h peeked in
      omega (
        arith,
        p.msg_id_eq,
        byte-lt f 8 bytes,
        byte-lt f 9 bytes,
        byte-lt f 10 bytes,
        byte-lt f 11 bytes,
      )

  payload-lt : length (drop 16 f) < 4294967296
  payload-lt =
      let p = Peeked-of_peek_header f h peeked in
      omega (
        arith,
        length-drop 16 f,
        p.payload_eq,
        p.payload_bytes,
        byte-lt f 12 bytes,
        byte-lt f 13 bytes,
        byte-lt f 14 bytes,
        byte-lt f 15 bytes,
      )

  IsSplit-of_cut :
      (size t : ℕ)
      → 22 < size
      → size < length f
      → segment_count (length (drop 16 f)) (size - 22) ≤ 255
      → type_id h.msg_type ≡ some t
      → IsSplit f h t (size - 22) (segment_count (length (drop 16 f)) (size - 22))
  IsSplit-of_cut size t big long few tid =
      let p = Peeked-of_peek_header f h peeked in
      let (t', tid', whole) = pack_header-peek_header f h bytes peeked in
      let known = type_id-type_name (byte f 6) h.msg_type p.type_ok in
      let same : byte f 6 ≡ t = ground (arith, known.0) in
      let same' : t' ≡ t = ground arith in
      record {
        cut = record {
          codec_ok = omega (arith, p.codec_eq, p.codec_ok);
          type_ok = rw (← same) p.type_ok;
          class_ok = p.class_ok;
          msg_id_ok = msg_id-lt;
          length_ok = payload-lt;
          per_ok = omega arith;
          per_small = omega (arith, payload-lt, length-drop 16 f);
        };
        peeked = peeked;
        enough = segment_count-enough (length (drop 16 f)) (size - 22) (omega arith);
        some_chunk =
            segment_count-pos (length (drop 16 f)) (size - 22) (omega arith)
              (omega (arith, length-drop 16 f));
        id_ok = tid;
        few = few;
        original = λ even.
            let fl : clear_bit_zero (set_bit_zero h.flags) ≡ h.flags = omega arith in
            let ln : length (drop 16 f) ≡ h.payload_len =
              omega (arith, length-drop 16 f, p.payload_eq) in
            rw (fl, ln, ← same') whole;
      }

  -- The ways in which `segment_frame` returns: the frame alone, or a split.
  pub data Segmented (size : ℕ) (chunks : List (List ℕ)) : Type 0 where
    whole : length f ≤ size → chunks ≡ f ∷ [] → Segmented size chunks
    split :
        (t per count : ℕ)
        → (s : IsSplit f h t per count) → 22 + per ≡ size
        → chunks ≡ map (chunk h t per count (drop 16 f) s.cut) (range_from count 0)
        → Segmented size chunks

  chunks_from-range :
      (t per count : ℕ) (c : Cut h t per count (drop 16 f)) (n i : ℕ)
      → chunks_from h t (drop 16 f) per count n i
        ≡ map (chunk h t per count (drop 16 f) c) (range_from n i)
  unfolding chunks_from
  chunks_from-range t per count c zero i = refl
  chunks_from-range t per count c (suc n) i =
      ap (◌∷◌ (chunk h t per count (drop 16 f) c i)) (chunks_from-range t per count c n (i + 1))

  cut_payload-Segmented :
      (size : ℕ) (chunks : List (List ℕ))
      → 22 < size
      → size < length f
      → cut_payload h (drop 16 f) (size - 22) ≡ ok chunks
      → Segmented size chunks
  unfolding cut_payload
  cut_payload-Segmented size chunks big long e =
      let count = segment_count (length (drop 16 f)) (size - 22) in
      elim (Bool-cases (ltb 255 count)) [
        | inl many ↦ absurd (ground arith)
        | inr few ↦
            let (t, tid) = typed (rw few at e) in
            let s = IsSplit-of_cut size t big long (ground arith) tid.0 in
            split t (size - 22) count s (omega arith)
              (tid.1 ∙ chunks_from-range t (size - 22) count s.cut count 0)
      ]
    where
      typed :
          (do
            typ ← message_type_id h.msg_type
            ok (
                chunks_from h typ
                  (drop 16 f)
                  (size - 22)
                  (segment_count (length (drop 16 f)) (size - 22))
                  (segment_count (length (drop 16 f)) (size - 22))
                  0))
            ≡ ok chunks
          → (t : ℕ) × ((type_id h.msg_type ≡ some t)
              × (chunks
                  ≡ chunks_from h t
                      (drop 16 f)
                      (size - 22)
                      (segment_count (length (drop 16 f)) (size - 22))
                      (segment_count (length (drop 16 f)) (size - 22))
                      0))
      typed e' = elim (Option-cases (type_id h.msg_type)) [
        | inl missing ↦ absurd (ground arith)
        | inr (t, found) ↦ (t, (found, ground arith))
      ]

  pub segment_frame-Segmented :
      (size : ℕ) (chunks : List (List ℕ)) → segment_frame f size ≡ ok chunks → Segmented size chunks
  unfolding segment_frame
  segment_frame-Segmented size chunks e = elim (Bool-cases (leb (length f) size)) [
    | inl fits ↦ whole (ground arith) (ground arith)
    | inr long ↦ cut_payload-Segmented size chunks (ground arith) (ground arith) (ground arith)
  ]

  -- Chunks of one frame that arrive in the order of the indices `is`.
  abbrev pub arrival : List (List ℕ) → List ℕ → List (List ℕ)
  arrival chunks = map (λ i. get_or chunks i [])

  peek_all-copies :
      (is : List ℕ)
      → All (λ i. i < 1) is
      → peek_all (arrival (f ∷ []) is) ≡ ok (map (λ _. (f, h)) is)
  unfolding peek_all
  peek_all-copies [] b = refl
  peek_all-copies (zero ∷ is) b = rw (peeked, peek_all-copies is b.1) refl
  peek_all-copies (suc i ∷ is) b = absurd (omega arith)

  pub defragment-copies :
      (i : ℕ) (is : List ℕ)
      → All (λ j. j < 1) (i ∷ is)
      → bit_zero h.flags ≡ 0
      → defragment (arrival (f ∷ []) (i ∷ is)) ≡ ok (some f)
  unfolding defragment
  defragment-copies i is b even = rw (peek_all-copies (i ∷ is) b) (ground arith)
