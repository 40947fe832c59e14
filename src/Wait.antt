-- ===== src/Wait.antt =====
-- 16-tcp_data_transfer/include/synch_wait.h: a flag that a thread sleeps on. A call is one step, since
-- it holds the mutex, but for `pthread_cond_wait`, which gives the mutex up: it parts sleep_on into
-- what comes before it and what comes behind it.
pub mod Lost
mod Tests
use network_lab.Base.{ℕ, zero, suc, ◌+◌, ◌≤◌, ◌≡◌, Bool, true, false, not, if◌then◌else◌}

pub record SynchWait : Type 0 where
  pub notified : Bool
  pub dead : Bool
  pub sleep : Bool

abbrev pub wait_init : SynchWait
wait_init = record { notified = false; dead = false; sleep = false }

-- Whether it broadcasts.
unfoldable pub wait_exit : SynchWait → SynchWait × Bool
wait_exit wait = if wait.dead then (wait, false) else (record wait { dead = true }, wait.sleep)

-- sleep_on up to `pthread_cond_wait`: whether the thread waits there.
unfoldable pub sleep_on_begin : SynchWait → SynchWait × Bool
sleep_on_begin wait =
    if wait.dead
    then (wait, false)
    else if wait.notified
    then (record wait { notified = false; sleep = false }, false)
    else (record wait { sleep = true }, true)

-- sleep_on behind `pthread_cond_wait`.
unfoldable pub sleep_on_end : SynchWait → SynchWait
sleep_on_end wait = record wait { notified = false; sleep = false }

-- Whether it signals.
unfoldable pub wake_up : SynchWait → SynchWait × Bool
wake_up wait =
    if wait.dead
    then (wait, false)
    else if wait.notified
    then (wait, false)
    else (record wait { notified = true }, wait.sleep)

-- The flag, the number of threads that wait for a signal, and of those that got one and have not gone
-- on yet.
pub record Threads : Type 0 where
  pub wait : SynchWait
  pub blocked : ℕ
  pub ready : ℕ

-- A thread calls sleep_on.
unfoldable pub call_sleep_on : Threads → Threads
call_sleep_on t =
    let (wait, waits) = sleep_on_begin t.wait in
    record t { wait = wait; blocked = if waits then t.blocked + 1 else t.blocked }

-- A signal readies one thread, if there is one.
abbrev pub signal : Threads → Threads
signal t = elim t.blocked [ zero ↦ t | suc n ↦ record t { blocked = n; ready = t.ready + 1 } ]

unfoldable pub call_wake_up : Threads → Threads
call_wake_up t =
    let (wait, signals) = wake_up t.wait in
    if signals then signal (record t { wait = wait }) else record t { wait = wait }

unfoldable pub call_wait_exit : Threads → Threads
call_wait_exit t =
    let (wait, broadcasts) = wait_exit t.wait in
    if broadcasts
    then record { wait = wait; blocked = 0; ready = t.ready + t.blocked }
    else record t { wait = wait }

-- The steps: the three calls, a thread that goes on, and a wake-up without a signal, which
-- `pthread_cond_wait` may have.
pub data Step : Threads → Threads → Type 0 where
  sleeps : (t : Threads) → Step t (call_sleep_on t)
  wakes : (t : Threads) → Step t (call_wake_up t)
  exits : (t : Threads) → Step t (call_wait_exit t)
  goes_on :
      (t : Threads) (n : ℕ)
      → t.ready ≡ suc n
      → Step t (record t { wait = sleep_on_end t.wait; ready = n })
  spurious :
      (t : Threads) (n : ℕ)
      → t.blocked ≡ suc n
      → Step t (record t { blocked = n; ready = t.ready + 1 })

-- What can happen from the start, with at most one thread at a time in sleep_on.
pub data Reachable : Threads → Type 0 where
  initial : Reachable (record { wait = wait_init; blocked = 0; ready = 0 })
  step : {t u : Threads} → Reachable t → Step t u → u.blocked + u.ready ≤ 1 → Reachable u
