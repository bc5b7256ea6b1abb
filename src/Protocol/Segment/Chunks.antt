-- ===== src/Protocol/Segment/Chunks.antt =====
-- One chunk of `segment_frame`, as the receiver reads it.
use shogunet.Prelude.{
  ℕ, ◌+◌, ◌-◌, ◌*◌, ◌<◌, ◌≤◌, ◌≡◌, refl, Option, none, some, List, [], ◌∷◌, map, arith, nat_eq,
  string_eq, beq_refl, le→not_ltb, length, drop, slice, All, length-take,
}
use shogunet.Prelude.Dict.{Dict}
use shogunet.Protocol.Errors.{ok}
use shogunet.Protocol.Registry.{type_name, class_of}
use shogunet.Protocol.Struct.{pack32, set_bit_zero, unpack32-pack32}
use shogunet.Protocol.Header.{Header, pack_header, peek_header}
use shogunet.Protocol.Header.Laws.{peek_header-pack_header}
use shogunet.Protocol.Segment.{
  chunk_at, collect_chunk, collect, meta_or, set_default, peek_all, first_complete,
}
use shogunet.Protocol.Segment.Pieces.{gathered}

-- What `segment_frame` knows of the frame that it cuts: its header was accepted, `t` is the id of
-- its type, `per` bytes go into each of `count` chunks.
pub record Cut (h : Header) (t per count : ℕ) (payload : List ℕ) : Type 0 where
  pub codec_ok : h.codec < 2
  pub type_ok : type_name t ≡ some h.msg_type
  pub class_ok : class_of h.msg_type ≡ some h.cls
  pub msg_id_ok : h.msg_id < 4294967296
  pub length_ok : length payload < 4294967296
  pub per_ok : 0 < per
  pub per_small : per < 4294967290

module _ (h : Header) (t per count : ℕ) (payload : List ℕ) (c : Cut h t per count payload) where
  abbrev pub piece : ℕ → List ℕ
  piece i = slice (i * per) ((i + 1) * per) payload

  abbrev pub chunk : ℕ → List ℕ
  chunk i = chunk_at h t payload per count i

  -- The header of a chunk.
  abbrev pub chunk_head : ℕ → Header
  chunk_head i = record {
    version = 1;
    codec = h.codec;
    cls = h.cls;
    msg_type = h.msg_type;
    flags = set_bit_zero h.flags;
    msg_id = h.msg_id;
    payload_len = 6 + length (piece i);
    total_len = 16 + (6 + length (piece i));
  }

  pub length-piece-le : (i : ℕ) → length (piece i) ≤ per
  length-piece-le i = grind (arith, length-take ((i + 1) * per - i * per) (drop (i * per) payload))

  pub peek_header-chunk : (i : ℕ) → peek_header (chunk i) ≡ ok (chunk_head i)
  unfolding chunk_at
  peek_header-chunk i =
      let body : List ℕ = i ∷ count ∷ pack32 (length payload) (piece i) in
      let e : length body ≡ 6 + length (piece i) = omega arith in
      rw (← e) (
        peek_header-pack_header h.codec t (set_bit_zero h.flags) h.msg_id h.msg_type h.cls body
          c.codec_ok c.type_ok c.class_ok c.msg_id_ok (omega (arith, length-piece-le i)))

  pub collect_chunk-chunk :
      (i : ℕ) (m : Option (ℕ × ℕ)) (d : Dict ℕ (List ℕ))
      → i < count
      → meta_or m (count, length payload) ≡ (count, length payload)
      → collect_chunk (chunk i) (record { meta = m; pieces = d })
        ≡ ok (record { meta = some (count, length payload); pieces = set_default i (piece i) d })
  unfolding collect_chunk chunk_at pack_header
  collect_chunk-chunk i m d lt e =
      rw (unpack32-pack32 (length payload) c.length_ok, e) (ground arith)

  abbrev pub labelled : List ℕ → List (List ℕ × Header)
  labelled = map (λ i. (chunk i, chunk_head i))

  pub peek_all-chunks : (is : List ℕ) → peek_all (map chunk is) ≡ ok (labelled is)
  unfolding peek_all
  peek_all-chunks [] = refl
  peek_all-chunks (i ∷ is) = rw (peek_header-chunk i, peek_all-chunks is) refl

  -- Chunks are marked as segments, so none of them is taken for a whole frame.
  pub first_complete-chunks : (is : List ℕ) → first_complete (labelled is) ≡ none
  unfolding first_complete
  first_complete-chunks [] = refl
  first_complete-chunks (i ∷ is) = ground (arith, first_complete-chunks is)

  abbrev pub meta_after : List ℕ → Option (ℕ × ℕ) → Option (ℕ × ℕ)
  meta_after [] m = m
  meta_after (_ ∷ _) _ = some (count, length payload)

  pub length-chunk : (i : ℕ) → length (chunk i) ≡ 22 + length (piece i)
  unfolding chunk_at pack_header
  length-chunk i = omega arith

  length-chunk-ge : (i : ℕ) → 22 ≤ length (chunk i)
  length-chunk-ge i = omega (arith, length-chunk i)

  meta_after-some :
      (is : List ℕ) → meta_after is (some (count, length payload)) ≡ some (count, length payload)
  meta_after-some [] = refl
  meta_after-some (i ∷ is) = refl

  -- The loop accepts every chunk and files its piece under its index.
  pub collect-chunks :
      (is : List ℕ) (m : Option (ℕ × ℕ)) (d : Dict ℕ (List ℕ))
      → All (λ i. i < count) is
      → meta_or m (count, length payload) ≡ (count, length payload)
      → collect h.msg_type h.msg_id (labelled is) (record { meta = m; pieces = d })
        ≡ ok (record { meta = meta_after is m; pieces = gathered piece is d })
  unfolding collect
  collect-chunks [] m d b e = refl
  collect-chunks (i ∷ is) m d b e =
      rw
        (
          beq_refl h.msg_type,
          beq_refl h.msg_id,
          le→not_ltb (length (chunk i)) 22 (length-chunk-ge i),
          collect_chunk-chunk i m d b.0 e,
          collect-chunks is (some (count, length payload)) (set_default i (piece i) d) b.1 refl,
          meta_after-some is,
        )
        refl
