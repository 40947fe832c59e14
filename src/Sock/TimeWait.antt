-- ===== src/Sock/TimeWait.antt =====
-- How long a socket stays in TIME_WAIT.
use mathlib.Core.Option
use network_lab.Base.{
  ℕ, zero, suc, ◌+◌, ◌-◌, ◌*◌, ◌<◌, ◌≤◌, ◌≡◌, refl, ◌∙◌, ap, subst, true, false, [], ◌∷◌, Option,
  none, some, arith, ◌>>=◌, leb, Returns, Holds→Returns, ==_refl, update_self, remove,
}
use network_lab.Sock.{
  closed, time_wait, Sock, Stack, put, linked, stale, free_tcp_sock, tcp_set_state,
}
use network_lab.Sock.Table.{tcp_bind_unhash}
use network_lab.Sock.Timer.{tcp_timer_scan_interval, tick, scan_from, tcp_scan_timer_list}
use network_lab.Sock.Quiet.{state_of}

-- The timer thread wakes up `n` times.
unfoldable pub scans : ℕ → Stack → Option Stack
scans zero st = some st
scans (suc n) st = tcp_scan_timer_list st >>= λ st'. scans n st'

-- A socket that a client connected, alone on the list of the timers, with `t` to go.
pub record IsWaiting (st : Stack) (i : ℕ) (tsk : Sock) (t : ℕ) : Type 0 where
  pub at : st.socks i ≡ some tsk
  pub timers : st.timer_list ≡ i ∷ []
  pub waits : tsk.state ≡ time_wait
  pub no_parent : tsk.parent ≡ none
  pub bound : tsk.bind_node ≡ linked
  pub referred : 2 < tsk.ref_cnt
  pub left : tsk.timeout ≡ t

IsWaiting-state :
    {st : Stack} {i : ℕ} {tsk : Sock} {t : ℕ}
    → IsWaiting st i tsk t
    → state_of st i ≡ some time_wait
IsWaiting-state w = rw (w.at, w.waits) refl

scan_one :
    (st : Stack) (i : ℕ)
    → st.timer_list ≡ i ∷ []
    → tcp_scan_timer_list st ≡ (tick i st >>= λ st'. some st')
unfolding tcp_scan_timer_list scan_from
scan_one st i timers = rw timers refl

tick_before :
    (st : Stack) (i : ℕ) (tsk : Sock) (t : ℕ)
    → IsWaiting st i tsk (t + tcp_timer_scan_interval)
    → 0 < t
    → Returns (tcp_scan_timer_list st) (λ st'. (tsk' : Sock) × IsWaiting st' i tsk' t)
unfolding tick
tick_before st i tsk t w more =
    let later : leb tsk.timeout tcp_timer_scan_interval ≡ false = ground (arith, w.left, more) in
    let tsk' = record tsk { timeout = tsk.timeout - tcp_timer_scan_interval } in
    Holds→Returns _ _ (
      rw (scan_one st i w.timers, tick, w.at, later)
        (
          tsk',
          record {
            at = update_self st.socks i _;
            timers = w.timers;
            waits = w.waits;
            no_parent = w.no_parent;
            bound = w.bound;
            referred = w.referred;
            left = omega (arith, w.left);
          },
        ))

free_kept :
    (st : Stack) (i : ℕ) (tsk : Sock)
    → st.socks i ≡ some tsk
    → 1 < tsk.ref_cnt
    → free_tcp_sock i st ≡ some (put i (record tsk { ref_cnt = tsk.ref_cnt - 1 }) st)
unfolding free_tcp_sock
free_kept st i tsk at referred =
    let kept : leb tsk.ref_cnt 1 ≡ false = ground (arith, referred) in rw (at, kept) refl

unhash_kept :
    (st : Stack) (i : ℕ) (tsk : Sock)
    → st.socks i ≡ some tsk
    → tsk.bind_node ≡ linked
    → 1 < tsk.ref_cnt
    → Returns (tcp_bind_unhash i st) (λ st'.
      (st'.socks i ≡ some (record tsk { bind_node = stale; ref_cnt = tsk.ref_cnt - 1 }))
      × (st'.timer_list ≡ st.timer_list))
unfolding tcp_bind_unhash
unhash_kept st i tsk at bound referred =
    let st₁ = record (put i (record tsk { bind_node = stale }) st) {
      bind_table = λ h. remove i (st.bind_table h);
    } in
    Holds→Returns _ _ (
      rw
        (
          at,
          bound,
          free_kept st₁ i (record tsk { bind_node = stale }) (update_self st.socks i _) referred,
        )
        (update_self st₁.socks i _, refl))

tick_last :
    (st : Stack) (i : ℕ) (tsk : Sock)
    → IsWaiting st i tsk tcp_timer_scan_interval
    → Returns
        (tcp_scan_timer_list st)
        (λ st'. (state_of st' i ≡ some closed) × (st'.timer_list ≡ []))
unfolding tick tcp_set_state
tick_last st i tsk w =
    let over : leb tsk.timeout tcp_timer_scan_interval ≡ true = ground (arith, w.left) in
    let st₁ = record st { timer_list = remove i st.timer_list } in
    let none_left : remove i st.timer_list ≡ [] = rw (w.timers, ==_refl i) refl in
    let (st₂, e₂, (at₂, timers₂)) =
      unhash_kept st₁ i tsk w.at w.bound (omega (arith, w.referred)) in
    let tsk₃ = record tsk { bind_node = stale; ref_cnt = tsk.ref_cnt - 1; state = closed } in
    Holds→Returns _ _ (
      rw
        (
          scan_one st i w.timers,
          tick,
          w.at,
          over,
          w.no_parent,
          e₂,
          at₂,
          free_kept (put i tsk₃ st₂) i tsk₃ (update_self st₂.socks i _) (omega (arith, w.referred)),
        )
        (
          ap (Option.map (λ (t : Sock). t.state)) (update_self (put i tsk₃ st₂).socks i _),
          timers₂ ∙ none_left,
        ))

later :
    {st : Stack} {i : ℕ} {tsk : Sock} (n : ℕ)
    → IsWaiting st i tsk (suc (suc n) * tcp_timer_scan_interval)
    → IsWaiting st i tsk (suc n * tcp_timer_scan_interval + tcp_timer_scan_interval)
later {st} {i} {tsk} n w = subst (λ t. IsWaiting st i tsk t) (omega arith) w

still_waits :
    (n k : ℕ) (st : Stack) (i : ℕ) (tsk : Sock)
    → IsWaiting st i tsk (suc n * tcp_timer_scan_interval)
    → k ≤ n
    → Returns (scans k st) (λ st'. state_of st' i ≡ some time_wait)
unfolding scans
still_waits n zero st i tsk w few = (st, refl, IsWaiting-state w)
still_waits zero (suc k) st i tsk w few = absurd (omega arith)
still_waits (suc n) (suc k) st i tsk w few =
    let (st₁, e₁, (tsk₁, w₁)) =
      tick_before st i tsk (suc n * tcp_timer_scan_interval) (later n w) (omega arith) in
    let (st₂, e₂, p₂) = still_waits n k st₁ i tsk₁ w₁ (omega arith) in (st₂, rw (e₁, e₂) refl, p₂)

closes :
    (n : ℕ) (st : Stack) (i : ℕ) (tsk : Sock)
    → IsWaiting st i tsk (suc n * tcp_timer_scan_interval)
    → Returns (scans (suc n) st) (λ st'. (state_of st' i ≡ some closed) × (st'.timer_list ≡ []))
unfolding scans
closes zero st i tsk w = let (st₁, e₁, p₁) = tick_last st i tsk w in (st₁, rw e₁ refl, p₁)
closes (suc n) st i tsk w =
    let (st₁, e₁, (tsk₁, w₁)) =
      tick_before st i tsk (suc n * tcp_timer_scan_interval) (later n w) (omega arith) in
    let (st₂, e₂, p₂) = closes n st₁ i tsk₁ w₁ in (st₂, rw (e₁, e₂) refl, p₂)

-- A client's socket in TIME_WAIT with `n + 1` intervals left and no other timer set: after at most
-- `n` scans it is in TIME_WAIT still, and after `n + 1` it is CLOSED and no timer is left.
pub scans_lem :
    (n k : ℕ) (st : Stack) (i : ℕ) (tsk : Sock)
    → IsWaiting st i tsk (suc n * tcp_timer_scan_interval)
    → k ≤ n
    → Returns (scans k st) (λ st'. state_of st' i ≡ some time_wait)
      × Returns (scans (suc n) st) (λ st'. (state_of st' i ≡ some closed) × (st'.timer_list ≡ []))
scans_lem n k st i tsk w few = (still_waits n k st i tsk w few, closes n st i tsk w)
