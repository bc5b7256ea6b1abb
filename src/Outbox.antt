-- ===== src/Outbox.antt =====
-- `class OutboxStore` of store_forward.py: pending frames and their write-ahead log. The log is its lines
-- that are not blank, each as the record that `_replay` reads; a line that it skips is `unreadable`. The
-- file decodes as UTF-8, and no line makes `_replay` raise.
pub mod Invariant
pub mod Replay
pub mod Durability
use shogunet.Prelude.{
  ℕ, zero, suc, ◌+◌, ◌%◌, ◌≡◌, refl, String, Option, none, some, List, [], ◌∷◌, ◌++◌, map, Bool,
  true, false, not, ◌&&◌, leb, max, ◌==◌, if◌then◌else◌, nat_eq, string_eq, length,
}
use shogunet.Prelude.Dict.{Dict, lookup, contains, insert, erase, values}

pub record Entry : Type 0 where
  pub msg_id : ℕ
  pub peer : String
  pub frame : List ℕ
  pub queued_at : ℕ
  pub meta : Dict String String

pub data Record : Type 0 where
  queued : Entry → Record
  done : ℕ → Record
  unreadable : Record

-- The file: its lines, and whether the last of them ends with its newline, as where there is none.
pub record Log : Type 0 where
  pub lines : List Record
  pub ended : Bool

-- What a write to the file does: all of it, nothing, the whole record without its newline, or a part of it.
pub data Write : Type 0 where
  all_written : Write
  none_written : Write
  newline_missing : Write
  cut_short : Write

pub record Outbox : Type 0 where
  pub max_pending : ℕ
  pub pending : Dict ℕ Entry
  pub wal : Log

-- int(msg_id) & 0xFFFFFFFF
abbrev pub uint32 : ℕ → ℕ
uint32 n = n % 4294967296

-- str(peer or "*")
abbrev pub peer_or_all : Option String → String
peer_or_all none = "*"
peer_or_all (some peer) = if peer == "" then "*" else peer

-- One line of `_replay`.
unfoldable pub replay_record : Dict ℕ Entry → Record → Dict ℕ Entry
replay_record pending (queued entry) = insert entry.msg_id entry pending
replay_record pending (done msg_id) = erase msg_id pending
replay_record pending unreadable = pending

unfoldable pub replay_from : Dict ℕ Entry → List Record → Dict ℕ Entry
unfolding replay_record
replay_from pending [] = pending
replay_from pending (r ∷ rs) = replay_from (replay_record pending r) rs

-- The constructor, on this file.
unfoldable pub open_outbox : ℕ → Log → Outbox
unfolding replay_from
open_outbox max_pending wal = record {
  max_pending = max 1 max_pending;
  pending = replay_from [] wal.lines;
  wal = wal;
}

-- Text that is written behind a line without its newline joins that line: what is not blank with a record
-- behind it is no JSON.
abbrev pub spoil : List Record → List Record
spoil [] = []
spoil (r ∷ []) = unreadable ∷ []
spoil (r ∷ q ∷ rs) = r ∷ spoil (q ∷ rs)

abbrev pub join_line : Record → Bool → Log → Log
join_line r ended log =
    if log.ended
    then record { lines = log.lines ++ r ∷ []; ended = ended }
    else record { lines = spoil log.lines; ended = ended }

-- `_append`, with what the write does.
unfoldable pub write_line : Write → Record → Log → Log
write_line all_written r log = join_line r true log
write_line none_written r log = log
write_line newline_missing r log = join_line r false log
write_line cut_short r log = join_line unreadable false log

abbrev pub append_record : Write → Record → Outbox → Outbox
append_record written r o = record o { wal = write_line written r o.wal }

unfoldable pub enqueue :
    Write → ℕ → ℕ → Option String → List ℕ → Dict String String → Outbox → Outbox × Bool
unfolding write_line
enqueue written now msg_id peer frame meta o =
    let entry : Entry = record {
      msg_id = uint32 msg_id;
      peer = peer_or_all peer;
      frame = frame;
      queued_at = now;
      meta = meta;
    } in
    if leb o.max_pending (length o.pending) && not (contains entry.msg_id o.pending)
    then (o, false)
    else (
      append_record written (queued entry)
          (record o { pending = insert entry.msg_id entry o.pending }),
      true,
    )

unfoldable pub mark_done : Write → ℕ → Outbox → Outbox × Bool
unfolding write_line
mark_done written msg_id o =
    let id = uint32 msg_id in
    if contains id o.pending
    then (append_record written (done id) (record o { pending = erase id o.pending }), true)
    else (o, false)

-- `compact`: the rewrite replaces the file, or fails and leaves it.
unfoldable pub compact : Bool → Outbox → Outbox × ℕ
compact written o =
    let kept = values o.pending in
    (
      if written then record o { wal = record { lines = map queued kept; ended = true } } else o,
      length kept,
    )
