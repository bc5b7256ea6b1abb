-- ===== src/Outbox/Durability.antt =====
-- The log of store_forward.py against the pending frames, over any calls.
use shogunet.Prelude.{
  subst, ℕ, ◌≤◌, ◌≡◌, refl, ◌∙◌, String, Option, List, [], ◌∷◌, ◌++◌, Bool, true, false, arith,
  nat_eq, length, ◌&&◌, if◌then◌else◌, max, length-map,
}
use shogunet.Prelude.Dict.{Dict, values, length-values}
use shogunet.Outbox.{
  Record, queued, Log, Write, all_written, none_written, newline_missing, cut_short, write_line,
  Outbox, open_outbox, enqueue, mark_done, compact, replay_from,
}
use shogunet.Outbox.Invariant.{
  IsValid, enqueue-IsValid, mark_done-IsValid, compact-IsValid, replay_from-Distinct,
}
use shogunet.Outbox.Replay.{
  IsDurable, compact-IsDurable, enqueue-IsDurable, mark_done-IsDurable, append_torn,
}

-- The calls of a run, with what each write to the file does; a compaction may fail.
pub data Call : Type 0 where
  enqueue_call : Write → ℕ → ℕ → Option String → List ℕ → Dict String String → Call
  done_call : Write → ℕ → Call
  compact_call : Bool → Call

pub call : Outbox → Call → Outbox
call o (enqueue_call w now msg_id peer frame meta) = (enqueue w now msg_id peer frame meta o).0
call o (done_call w msg_id) = (mark_done w msg_id o).0
call o (compact_call written) = (compact written o).0

pub run : Outbox → List Call → Outbox
unfolding call
run o [] = o
run o (c ∷ cs) = run (call o c) cs

abbrev is_whole : Write → Bool
is_whole all_written = true
is_whole _ = false

-- Whether the file is whole: a write that is not leaves it broken until a compaction rewrites it.
abbrev whole_after_call : Bool → Call → Bool
whole_after_call whole (enqueue_call w now msg_id peer frame meta) = whole && is_whole w
whole_after_call whole (done_call w msg_id) = whole && is_whole w
whole_after_call whole (compact_call written) = if written then true else whole

abbrev pub whole_after : Bool → List Call → Bool
whole_after whole [] = whole
whole_after whole (c ∷ cs) = whole_after (whole_after_call whole c) cs

abbrev DurableIf : Bool → Outbox → Type 0
DurableIf true o = IsDurable o
DurableIf false o = Unit

call_keeps :
    (c : Call) (whole : Bool) (o : Outbox)
    → IsValid o × DurableIf whole o
    → IsValid (call o c) × DurableIf (whole_after_call whole c) (call o c)
unfolding call compact
call_keeps (enqueue_call all_written now i p f m) true o (v, d) =
    (enqueue-IsValid all_written o v now i p f m, enqueue-IsDurable now i p f m o d)
call_keeps (enqueue_call none_written now i p f m) true o (v, d) =
    (enqueue-IsValid none_written o v now i p f m, tt)
call_keeps (enqueue_call newline_missing now i p f m) true o (v, d) =
    (enqueue-IsValid newline_missing o v now i p f m, tt)
call_keeps (enqueue_call cut_short now i p f m) true o (v, d) =
    (enqueue-IsValid cut_short o v now i p f m, tt)
call_keeps (enqueue_call w now i p f m) false o (v, d) = (enqueue-IsValid w o v now i p f m, tt)
call_keeps (done_call all_written i) true o (v, d) =
    (mark_done-IsValid all_written o v i, mark_done-IsDurable i o d)
call_keeps (done_call none_written i) true o (v, d) = (mark_done-IsValid none_written o v i, tt)
call_keeps (done_call newline_missing i) true o (v, d) =
    (mark_done-IsValid newline_missing o v i, tt)
call_keeps (done_call cut_short i) true o (v, d) = (mark_done-IsValid cut_short o v i, tt)
call_keeps (done_call w i) false o (v, d) = (mark_done-IsValid w o v i, tt)
call_keeps (compact_call true) whole o (v, d) =
    (compact-IsValid all_written o v true, compact-IsDurable o v)
call_keeps (compact_call false) whole o (v, d) = (v, d)

run_keeps :
    (cs : List Call) (whole : Bool) (o : Outbox)
    → IsValid o × DurableIf whole o
    → IsValid (run o cs) × DurableIf (whole_after whole cs) (run o cs)
unfolding run
run_keeps [] whole o h = h
run_keeps (c ∷ cs) whole o h =
    run_keeps cs (whole_after_call whole c) (call o c) (call_keeps c whole o h)

-- From any file whose replay fits the bound, whether it ends with a newline or not, and after any
-- calls, with appends that write the whole line or not and compactions that fail or not. Suppose
-- that the file ended with a newline and every append wrote the whole line, or that every append
-- since a compaction that succeeded did. Then the store is valid, the file ends with a newline, and
-- reopening it gives the very same pending frames. But an append to a file whose last line lacks
-- its newline loses its record together with that line.
pub run-reopen :
    (n : ℕ) (file : Log) (cs : List Call) (lines : List Record) (last r : Record)
    → length (replay_from [] file.lines) ≤ max 1 n
    → whole_after file.ended cs ≡ true
    → let o = run (open_outbox n file) cs in
      IsValid o
      × (o.wal.ended ≡ true)
      × ((open_outbox n o.wal).pending ≡ o.pending)
      × (replay_from []
            (write_line all_written r (record { lines = lines ++ last ∷ []; ended = false })).lines
          ≡ replay_from [] lines)
unfolding open_outbox
run-reopen n file cs lines last r fits whole =
    let (u, f) = replay_from-Distinct file.lines [] (tt, tt) in
    let o : Outbox = record {
      max_pending = max 1 n;
      pending = replay_from [] file.lines;
      wal = file;
    } in
    let valid : IsValid o = record {
      distinct = u;
      filed = f;
      bounded = fits;
      positive = omega arith;
    } in
    let kept = run_keeps cs file.ended o (valid, opened file.ended refl) in
    let durable : IsDurable (run o cs) = subst (λ b. DurableIf b (run o cs)) whole kept.1 in
    (kept.0, durable.0, durable.1, append_torn lines last r)
  where
    opened :
        (b : Bool)
        → file.ended ≡ b
        → DurableIf b
            (record { max_pending = max 1 n; pending = replay_from [] file.lines; wal = file })
    opened true e = (e, refl)
    opened false e = tt

-- A compaction that succeeds leaves one record for each pending frame.
pub compact_shrinks :
    (o : Outbox)
    → (length (compact true o).0.wal.lines ≡ length o.pending)
      × ((compact true o).1 ≡ length o.pending)
unfolding compact
compact_shrinks o =
    (length-map queued (values o.pending) ∙ length-values o.pending, length-values o.pending)
