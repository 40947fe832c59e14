-- ===== src/Wait/Lost.antt =====
-- Whether a wake-up of include/synch_wait.h can be lost.
use network_lab.Base.{
  ℕ, zero, suc, ◌+◌, ◌≤◌, ◌≡◌, ◌⊎◌, refl, true, false, inl, inr, arith, Bool-cases,
}
use network_lab.Wait.{
  SynchWait, Threads, wait_exit, sleep_on_begin, sleep_on_end, wake_up, call_sleep_on, call_wake_up,
  call_wait_exit, signal, Step, sleeps, wakes, exits, goes_on, spurious, Reachable, initial, step,
}

-- With one thread: no thread waits under a set flag or after an exit, and one that waits has said so.
pub record IsAwake (t : Threads) : Type 0 where
  pub one : t.blocked + t.ready ≤ 1
  pub heard : t.wait.notified ≡ true → t.blocked ≡ 0
  pub over : t.wait.dead ≡ true → t.blocked ≡ 0
  pub said : t.wait.sleep ≡ false → t.blocked ≡ 0

call_sleep_on-IsAwake :
    (t : Threads)
    → IsAwake t
    → (call_sleep_on t).blocked + (call_sleep_on t).ready ≤ 1
    → IsAwake (call_sleep_on t)
unfolding call_sleep_on sleep_on_begin
call_sleep_on-IsAwake t a h = record {
  one = h;
  heard = ground (arith, a.heard, a.over);
  over = ground (arith, a.heard, a.over);
  said = ground (arith, a.heard, a.over, a.said);
}

-- no thread waits, and at most one has been woken
abbrev IsQuiet : Threads → Type 0
IsQuiet u = (u.blocked ≡ 0) × (u.ready ≤ 1)

IsQuiet-IsAwake : (u : Threads) → IsQuiet u → IsAwake u
IsQuiet-IsAwake u q = record {
  one = omega (arith, q);
  heard = λ _. q.0;
  over = λ _. q.0;
  said = λ _. q.0;
}

signal-IsQuiet :
    (wait : SynchWait) (blocked ready : ℕ)
    → blocked + ready ≤ 1
    → IsQuiet (signal (record { wait = wait; blocked = blocked; ready = ready }))
signal-IsQuiet wait zero ready h = (refl, omega arith)
signal-IsQuiet wait (suc n) ready h = (omega arith, omega arith)

call_wake_up-IsQuiet : (t : Threads) → IsAwake t → IsQuiet (call_wake_up t)
unfolding call_wake_up wake_up
call_wake_up-IsQuiet t a = elim (Bool-cases t.wait.dead) [
  | inl gone ↦ rw gone (a.over gone, omega (arith, a.one))
  | inr alive ↦ elim (Bool-cases t.wait.notified) [
    | inl set ↦ rw (alive, set) (a.heard set, omega (arith, a.one))
    | inr clear ↦ elim (Bool-cases t.wait.sleep) [
      | inl asleep ↦ rw (alive, clear, asleep) (signal-IsQuiet _ t.blocked t.ready a.one)
      | inr nobody ↦ rw (alive, clear, nobody) (a.said nobody, omega (arith, a.one))
    ]
  ]
]

call_wait_exit-IsQuiet : (t : Threads) → IsAwake t → IsQuiet (call_wait_exit t)
unfolding call_wait_exit wait_exit
call_wait_exit-IsQuiet t a = elim (Bool-cases t.wait.dead) [
  | inl gone ↦ rw gone (a.over gone, omega (arith, a.one))
  | inr alive ↦ elim (Bool-cases t.wait.sleep) [
    | inl asleep ↦ rw (alive, asleep) (refl, omega (arith, a.one))
    | inr nobody ↦ rw (alive, nobody) (a.said nobody, omega (arith, a.one))
  ]
]

Step-IsAwake : {t u : Threads} → Step t u → IsAwake t → u.blocked + u.ready ≤ 1 → IsAwake u
unfolding sleep_on_end
Step-IsAwake (sleeps t) a h = call_sleep_on-IsAwake t a h
Step-IsAwake (wakes t) a h = IsQuiet-IsAwake _ (call_wake_up-IsQuiet t a)
Step-IsAwake (exits t) a h = IsQuiet-IsAwake _ (call_wait_exit-IsQuiet t a)
Step-IsAwake (goes_on t n e) a h = record {
  one = h;
  heard = λ q. omega (arith, a.one, e);
  over = λ q. omega (arith, a.one, e);
  said = λ q. omega (arith, a.one, e);
}
Step-IsAwake (spurious t n e) a h = record {
  one = h;
  heard = λ q. omega (arith, a.one, e);
  over = λ q. omega (arith, a.one, e);
  said = λ q. omega (arith, a.one, e);
}

Reachable-IsAwake : {t : Threads} → Reachable t → IsAwake t
Reachable-IsAwake initial = record {
  one = omega arith;
  heard = λ q. refl;
  over = λ q. refl;
  said = λ q. refl;
}
Reachable-IsAwake (step r s h) = Step-IsAwake s (Reachable-IsAwake r) h

-- With at most one thread at a time in sleep_on no wake-up is lost: a thread does not wait while the
-- flag is set or after an exit, and neither after wake_up nor after wait_exit does any thread wait.
pub call_wake_up-Reachable :
    {t : Threads}
    → Reachable t
    → (((t.wait.notified ≡ true) ⊎ (t.wait.dead ≡ true)) → t.blocked ≡ 0)
      × ((call_wake_up t).blocked ≡ 0)
      × ((call_wait_exit t).blocked ≡ 0)
call_wake_up-Reachable {t} r =
    let a = Reachable-IsAwake r in
    (
      λ q. elim q [ inl e ↦ a.heard e | inr e ↦ a.over e ],
      (call_wake_up-IsQuiet t a).0,
      (call_wait_exit-IsQuiet t a).0,
    )
