-- ===== src/Tests/Storage.antt =====
-- The outbox and the inbox on short histories.
use shogunet.Prelude.{
  ◌≤◌, ◌+◌, ◌≡◌, refl, arith, none, List, [], ◌∷◌, ◌++◌, true, false, length, max, nat_eq,
  string_eq, pair_eq,
}
use shogunet.Prelude.Dict.{elem}
use shogunet.Outbox.{
  Outbox, Log, write_line, all_written, cut_short, Record, queued, done, unreadable, Entry,
  open_outbox, replay_from, replay_record, compact,
}
use shogunet.Outbox.Invariant.{IsValid}
use shogunet.Outbox.Durability.{Call, run, run-reopen, compact_shrinks}
use shogunet.Inbox.{new_inbox, is_duplicate, key_of}
use shogunet.Inbox.Window.{
  Tracks, new_inbox-Tracks, last_n, after, answers, window_answers, is_duplicate-Tracks,
  answers-window,
}
use shogunet.Transports.Loopback.{Mail, Endpoint, poll}
use shogunet.Transports.Loopback.Queue.{deliver_all, poll-deliver_all}

abbrev waiting : Entry
waiting = record { msg_id = 7; peer = "b"; frame = 1 ∷ []; queued_at = 0; meta = [] }

abbrev log : List Record
log = queued waiting ∷ unreadable ∷ done 3 ∷ []

abbrev file : Log
file = record { lines = log; ended = true }

abbrev torn : Log
torn = record { lines = log; ended = false }

replayed : length (replay_from [] log) ≤ max 1 2
unfolding replay_from replay_record
replayed = omega arith

abbrev calls : List Call
calls =
    Call.enqueue_call cut_short 5 8 none (2 ∷ []) []
    ∷ Call.compact_call true
    ∷ Call.enqueue_call all_written 6 9 none (3 ∷ []) []
    ∷ Call.done_call all_written 7
    ∷ []

run-reopen_example :
    let o = run (open_outbox 2 torn) calls in
    IsValid o
    × (o.wal.ended ≡ true)
    × ((open_outbox 2 o.wal).pending ≡ o.pending)
    × (replay_from []
          (write_line all_written
            (done 7)
            (record { lines = log ++ queued waiting ∷ []; ended = false })).lines
        ≡ replay_from [] log)
run-reopen_example = run-reopen 2 torn calls log (queued waiting) (done 7) replayed refl

compact_shrinks_example :
    (length (compact true (open_outbox 2 file)).0.wal.lines ≡ length (open_outbox 2 file).pending)
    × ((compact true (open_outbox 2 file)).1 ≡ length (open_outbox 2 file).pending)
compact_shrinks_example = compact_shrinks (open_outbox 2 file)

abbrev full : Outbox
full = record {
  max_pending = 1;
  pending = (7, waiting) ∷ [];
  wal = record { lines = queued waiting ∷ []; ended = true };
}

full-IsValid : IsValid full
full-IsValid = record {
  distinct = (refl, tt);
  filed = (refl, tt);
  bounded = omega arith;
  positive = omega arith;
}

is_duplicate-Tracks_example :
    let (b', answer) = is_duplicate "a" 7 (new_inbox 2) in
    (answer ≡ elem (key_of "a" 7) (last_n 2 []))
    × Tracks b' (after (key_of "a" 7) answer [])
    × (b'.capacity ≡ 2)
unfolding new_inbox
is_duplicate-Tracks_example = is_duplicate-Tracks "a" 7 (new_inbox 2) [] (new_inbox-Tracks 2)

answers-window_example :
    answers (new_inbox 2) (("a", 1) ∷ ("a", 2) ∷ ("a", 1) ∷ ("b", 1) ∷ ("a", 1) ∷ [])
    ≡ window_answers (max 1 2) [] (("a", 1) ∷ ("a", 2) ∷ ("a", 1) ∷ ("b", 1) ∷ ("a", 1) ∷ [])
answers-window_example =
    answers-window 2 (("a", 1) ∷ ("a", 2) ∷ ("a", 1) ∷ ("b", 1) ∷ ("a", 1) ∷ [])

abbrev endpoint : Endpoint
endpoint = record {
  agent_id = "a";
  max_queue = 2;
  inbox = [];
  sent = 0;
  send_failed = 0;
  received = 0;
  dropped = 0;
}

abbrev mail : List Mail
mail = ("b", 1 ∷ []) ∷ ("b", 2 ∷ []) ∷ ("c", 3 ∷ []) ∷ []

poll-deliver_all_example :
    ((poll (deliver_all mail endpoint)).1 ≡ last_n 2 mail)
    × ((deliver_all mail endpoint).dropped + length (last_n 2 mail) ≡ length mail)
poll-deliver_all_example = poll-deliver_all mail endpoint (omega arith) refl refl
