-- ===== src/Protocol/Segment.antt =====
-- `segment_frame` and `defragment` of protocol.py: frames cut into chunks for small-MTU media, and
-- put together again.
pub mod Pieces
pub mod Chunks
pub mod Reassembly
pub mod RoundTrip
pub mod Safety
pub mod Arrival
use shogunet.Prelude.{
  ℕ, zero, suc, ◌+◌, ◌-◌, ◌*◌, ◌/◌, ◌<◌, ◌≤◌, ◌≡◌, refl, String, Option, none, some, List, [], ◌∷◌,
  ◌++◌, Bool, true, false, not, ltb, leb, ◌==◌, ◌&&◌, ◌||◌, if◌then◌else◌, nat_eq, string_eq,
  length, take, drop, slice,
}
use shogunet.Prelude.Dict.{Dict, lookup, contains, insert}
use shogunet.Protocol.Errors.{
  Result, ok, err, ◌>>=◌, chunk_too_small, too_many_segments, spans_frames, prefix_truncated,
  inconsistent_metadata, index_out_of_range, reassembled_length, key_error,
}
use shogunet.Protocol.Registry.{header_len, max_segments, type_id}
use shogunet.Protocol.Struct.{byte, pack32, unpack32, bit_zero, set_bit_zero, clear_bit_zero}
use shogunet.Protocol.Header.{Header, pack_header, peek_header}

-- idx, count and the total payload length, behind the header of a chunk
abbrev pub seg_overhead : ℕ
seg_overhead = header_len + 6

-- One chunk: header, `struct.pack(">BBI", idx, count, len(payload))`, piece.
unfoldable pub chunk_at : Header → ℕ → List ℕ → ℕ → ℕ → ℕ → List ℕ
chunk_at head typ payload per_chunk count idx =
    let piece = slice (idx * per_chunk) ((idx + 1) * per_chunk) payload in
    pack_header head.codec head.cls typ (set_bit_zero head.flags) head.msg_id (6 + length piece)
      (idx ∷ count ∷ pack32 (length payload) piece)

-- for idx in range(count): `n` rounds are left
unfoldable pub chunks_from : Header → ℕ → List ℕ → ℕ → ℕ → ℕ → ℕ → List (List ℕ)
unfolding chunk_at
chunks_from head typ payload per_chunk count zero idx = []
chunks_from head typ payload per_chunk count (suc n) idx =
    chunk_at head typ payload per_chunk count idx
    ∷ chunks_from head typ payload per_chunk count n (idx + 1)

-- MESSAGE_TYPES[name]
abbrev pub message_type_id : String → Result ℕ
message_type_id name = elim (type_id name) [ none ↦ err key_error | some t ↦ ok t ]

abbrev pub segment_count : ℕ → ℕ → ℕ
segment_count len per_chunk = (len + per_chunk - 1) / per_chunk

unfoldable pub cut_payload : Header → List ℕ → ℕ → Result (List (List ℕ))
unfolding chunks_from
cut_payload head payload per_chunk =
    let count = segment_count (length payload) per_chunk in
    if ltb max_segments count then err too_many_segments else do
      typ ← message_type_id head.msg_type
      ok (chunks_from head typ payload per_chunk count count 0)

unfoldable pub segment_frame : List ℕ → ℕ → Result (List (List ℕ))
unfolding cut_payload
segment_frame frame chunk_size = do
  head ← peek_header frame
  if ltb chunk_size (seg_overhead + 1)
      then err chunk_too_small
      else if leb (length frame) chunk_size
      then ok (frame ∷ [])
      else cut_payload head (drop header_len frame) (chunk_size - seg_overhead)

-- heads = [peek_header(f) for f in frames], each beside its frame
unfoldable pub peek_all : List (List ℕ) → Result (List (List ℕ × Header))
peek_all [] = ok []
peek_all (f ∷ fs) = do head ← peek_header f; rest ← peek_all fs; ok ((f, head) ∷ rest)

-- The first complete frame among the chunks.
unfoldable pub first_complete : List (List ℕ × Header) → Option (List ℕ)
first_complete [] = none
first_complete ((f, head) ∷ rest) = if bit_zero head.flags == 0 then some f else first_complete rest

-- `total`, `plen_total` and `pieces` of the loop; the first two are set together.
pub record Partial : Type 0 where
  pub meta : Option (ℕ × ℕ)
  pub pieces : Dict ℕ (List ℕ)

abbrev pub empty_partial : Partial
empty_partial = record { meta = none; pieces = [] }

-- if total is None: total, plen_total = count, plen
abbrev pub meta_or : Option (ℕ × ℕ) → ℕ × ℕ → ℕ × ℕ
meta_or none m = m
meta_or (some m) _ = m

-- pieces.setdefault(idx, piece)
abbrev pub set_default : ℕ → List ℕ → Dict ℕ (List ℕ) → Dict ℕ (List ℕ)
set_default idx piece pieces = if contains idx pieces then pieces else insert idx piece pieces

-- One round of the loop, behind the test of the frame's identity.
unfoldable pub collect_chunk : List ℕ → Partial → Result Partial
collect_chunk frame p =
    let idx = byte frame 16 in
    let count = byte frame 17 in
    let plen = unpack32 (byte frame 18) (byte frame 19) (byte frame 20) (byte frame 21) in
    let (total, plen_total) = meta_or p.meta (count, plen) in
    if not (count == total) || not (plen == plen_total)
    then err inconsistent_metadata
    else if leb total idx
    then err index_out_of_range
    else ok (record {
      meta = some (total, plen_total);
      pieces = set_default idx (drop seg_overhead frame) p.pieces;
    })

abbrev pub same_key : Header → String → ℕ → Bool
same_key head msg_type msg_id = (head.msg_type == msg_type) && (head.msg_id == msg_id)

unfoldable pub collect : String → ℕ → List (List ℕ × Header) → Partial → Result Partial
unfolding collect_chunk
collect msg_type msg_id [] p = ok p
collect msg_type msg_id ((frame, head) ∷ rest) p = do
  p' ←
      if not (same_key head msg_type msg_id)
      then err spans_frames
      else if ltb (length frame) seg_overhead
      then err prefix_truncated
      else collect_chunk frame p
  collect msg_type msg_id rest p'

-- b"".join(pieces[i] for i in range(total)): from `i`, with `n` rounds left
unfoldable pub join_from : Dict ℕ (List ℕ) → ℕ → ℕ → Result (List ℕ)
join_from pieces zero i = ok []
join_from pieces (suc n) i = do
  piece ← elim (lookup i pieces) [ none ↦ err key_error | some b ↦ ok b ]
  rest ← join_from pieces n (i + 1)
  ok (piece ++ rest)

-- What follows the loop.
unfoldable pub assemble : Header → Partial → Result (Option (List ℕ))
unfolding join_from
assemble first p = elim p.meta [
  | none ↦ ok none
  | some (total, plen_total) ↦ if ltb (length p.pieces) total then ok none else do
    payload ← join_from p.pieces total 0
    if not (length payload == plen_total) then err reassembled_length else do
      typ ← message_type_id first.msg_type
      ok (
          some (
            pack_header first.codec first.cls typ (clear_bit_zero first.flags) first.msg_id
              plen_total payload))
]

abbrev pub reassemble : List (List ℕ × Header) → Result (Option (List ℕ))
reassemble [] = ok none
reassemble ((f, first) ∷ rest) = elim (first_complete ((f, first) ∷ rest)) [
  | some frame ↦ ok (some frame)
  | none ↦ do
    p ← collect first.msg_type first.msg_id ((f, first) ∷ rest) empty_partial
    assemble first p
]

unfoldable pub defragment : List (List ℕ) → Result (Option (List ℕ))
unfolding peek_all first_complete collect assemble
defragment chunks = do heads ← peek_all chunks; reassemble heads
