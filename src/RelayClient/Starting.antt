-- ===== src/RelayClient/Starting.antt =====
-- `start` and `stop` of relay_transport.py, where the hub cannot be reached.
use shogunet.Prelude.{◌≡◌, refl, sym, subst, Bool, true, false, if◌then◌else◌}
use shogunet.RelayClient.{Answer, unreachable, raises, answered, Client, is_available, start, stop}

abbrev pub is_answered : Answer Bool → Bool
is_answered (answered accepted) = true
is_answered _ = false

-- What a failed start leaves behind.
pub record IsStuck (failed : Client × Bool) : Type 0 where
  pub raised : failed.1 ≡ false
  pub ignored : (later : Answer Bool) → start later failed.0 ≡ (failed.0, true)
  pub unavailable : is_available failed.0 ≡ false
  pub unthreaded : failed.0.threaded ≡ false
  pub mended : is_available (start (answered true) (stop failed.0)).0 ≡ true

left_running :
    (c : Client)
    → c.running ≡ false
    → c.threaded ≡ false
    → c.connected ≡ false
    → IsStuck
        (if c.running then (c, true) else (record c { running = true; stopping = false }, false))
unfolding start stop is_available
left_running c idle unthreaded offline =
    subst
      (λ (b : Bool).
        IsStuck (if b then (c, true) else (record c { running = true; stopping = false }, false)))
      (sym idle)
      (record {
        raised = refl;
        ignored = λ later. refl;
        unavailable = offline;
        unthreaded = unthreaded;
        mended = refl;
      })

-- Where the hub cannot be reached, or answers with no JSON, when a client that is not running starts: start
-- raises, without a thread, and whatever the hub would answer later, another start returns at once and changes
-- nothing, so the client stays unavailable; only stop and then start mend it.
pub start-IsStuck :
    (failure : Answer Bool) (c : Client)
    → is_answered failure ≡ false
    → c.running ≡ false
    → c.threaded ≡ false
    → c.connected ≡ false
    → IsStuck (start failure c)
unfolding start stop is_available
start-IsStuck unreachable c failed idle unthreaded offline = left_running c idle unthreaded offline
start-IsStuck raises c failed idle unthreaded offline = left_running c idle unthreaded offline
start-IsStuck (answered accepted) c failed idle unthreaded offline = absurd (answers failed)
  where
    answers : true ≡ false → ⊥
    answers e = cc
