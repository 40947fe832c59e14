-- ===== src/Wait/Tests.antt =====
-- Threads that sleep and are woken.
use network_lab.Base.{◌≡◌, ◌⊎◌, refl, true, arith}
use network_lab.Wait.{
  Threads, wait_init, sleep_on_begin, sleep_on_end, wake_up, call_sleep_on, call_wake_up,
  call_wait_exit, sleeps, Reachable, initial, step,
}
use network_lab.Wait.Lost.{call_wake_up-Reachable}

abbrev start : Threads
start = record { wait = wait_init; blocked = 0; ready = 0 }

asleep-Reachable : Reachable (call_sleep_on start)
unfolding call_sleep_on sleep_on_begin
asleep-Reachable = step initial (sleeps start) (omega arith)

call_wake_up-Reachable_example :
    ((((call_sleep_on start).wait.notified ≡ true) ⊎ ((call_sleep_on start).wait.dead ≡ true))
      → (call_sleep_on start).blocked ≡ 0)
    × ((call_wake_up (call_sleep_on start)).blocked ≡ 0)
    × ((call_wait_exit (call_sleep_on start)).blocked ≡ 0)
call_wake_up-Reachable_example = call_wake_up-Reachable asleep-Reachable

-- With two threads a wake-up can be lost: both sleep, the first is woken and goes on, and then
-- the second waits on under the flag that the next wake-up sets.
abbrev one_left : Threads
one_left =
    let woken = call_wake_up (call_sleep_on (call_sleep_on start)) in
    call_wake_up (record woken { wait = sleep_on_end woken.wait; ready = 0 })

lost : (one_left.wait.notified ≡ true) × (one_left.blocked ≡ 1) × (one_left.ready ≡ 0)
unfolding call_sleep_on sleep_on_begin call_wake_up wake_up sleep_on_end
lost = (refl, refl, refl)
