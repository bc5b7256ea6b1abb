-- ===== src/Protocol/Assembler.antt =====
-- `class SegmentAssembler` of protocol.py. A method returns the new state beside its result, since
-- what was written before an exception stays written.
pub mod Invariant
use shogunet.Prelude.{
  ℕ, zero, suc, ◌+◌, ◌-◌, ◌≡◌, refl, String, Option, none, some, List, [], ◌∷◌, ◌++◌, Bool, true,
  false, ltb, max, ◌==◌, if◌then◌else◌, nat_eq, string_eq, pair_eq, length, second,
}
use shogunet.Prelude.Dict.{Dict, lookup, contains, insert, erase, elem, remove_first}
use shogunet.Protocol.Errors.{Result, ok, err, ◌>>=◌, key_error}
use shogunet.Protocol.Struct.{bit_zero}
use shogunet.Protocol.Header.{Header, peek_header}
use shogunet.Protocol.Segment.{defragment}

abbrev pub Key : Type 0
Key = String × ℕ

-- When the first piece came, and the pieces so far.
abbrev pub Entry : Type 0
Entry = ℕ × List (List ℕ)

pub record Assembler : Type 0 where
  pub pending : Dict Key Entry
  pub order : List Key
  pub max_pending : ℕ
  pub ttl : ℕ

unfoldable pub new_assembler : ℕ → ℕ → Assembler
new_assembler max_pending ttl = record {
  pending = [];
  order = [];
  max_pending = max 1 max_pending;
  ttl = max second ttl;
}

-- while len(self._order) > self._max_pending
unfoldable pub evict : ℕ → List Key → Dict Key Entry → List Key × Dict Key Entry
evict limit [] pending = ([], pending)
evict limit (k ∷ ks) pending =
    let rest = evict limit ks (erase k pending) in
    if ltb limit (length (k ∷ ks)) then rest else (k ∷ ks, pending)

-- if key not in self._pending
unfoldable pub open_entry : ℕ → Key → Assembler → Assembler
unfolding evict
open_entry now key a =
    if contains key a.pending
    then a
    else let (order, pending) =
        evict a.max_pending (a.order ++ key ∷ []) (insert key (now, []) a.pending) in
      record a { pending = pending; order = order }

unfoldable pub close_entry : Key → Assembler → Assembler
close_entry key a = record a {
  pending = erase key a.pending;
  order = if elem key a.order then remove_first key a.order else a.order;
}

-- for stale in list(self._order): the list is the snapshot
unfoldable pub prune : ℕ → List Key → Assembler → Result Assembler
prune now [] a = ok a
prune now (stale ∷ rest) a = do
  entry ← elim (lookup stale a.pending) [ none ↦ err key_error | some x ↦ ok x ]
  prune now rest (
      if ltb a.ttl (now - entry.0)
      then record a { pending = erase stale a.pending; order = remove_first stale a.order }
      else a)

-- What `add` does with the answer of `defragment`.
unfoldable pub finish :
    ℕ → Key → Assembler → Result (Option (List ℕ)) → Assembler × Result (Option (List ℕ))
unfolding close_entry prune
finish now key a (err e) = (a, err e)
finish now key a (ok (some frame)) = (close_entry key a, ok (some frame))
finish now key a (ok none) = elim (prune now a.order a) [
  | err e ↦ (a, err e)
  | ok a' ↦ (a', ok none)
]

-- The entry that `open_entry` has made sure of, with one more piece.
unfoldable pub add_piece : ℕ → Key → List ℕ → Assembler → Assembler × Result (Option (List ℕ))
unfolding finish
add_piece now key frame a = elim (lookup key a.pending) [
  | none ↦ (a, err key_error)
  | some entry ↦
      let chunks = entry.1 ++ frame ∷ [] in
      finish now key (record a { pending = insert key (entry.0, chunks) a.pending })
        (defragment chunks)
]

unfoldable pub add : ℕ → List ℕ → Assembler → Assembler × Result (Option (List ℕ))
unfolding open_entry add_piece
add now frame a = elim (peek_header frame) [
  | err e ↦ (a, err e)
  | ok head ↦
      if bit_zero head.flags == 0
      then (a, ok (some frame))
      else let key : Key = (head.msg_type, head.msg_id) in
        add_piece now key frame (open_entry now key a)
]
