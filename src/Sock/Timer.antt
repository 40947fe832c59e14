-- ===== src/Sock/Timer.antt =====
-- 16-tcp_data_transfer/tcp_timer.c: the timers of the sockets in TIME_WAIT.
use network_lab.Base.{
  ℕ, ◌-◌, ◌*◌, List, [], ◌∷◌, ◌++◌, Option, none, some, leb, if◌then◌else◌, ◌>>=◌, remove,
}
use network_lab.Sock.{closed, Stack, put, free_tcp_sock, tcp_sock_inc_ref_cnt, tcp_set_state}
use network_lab.Sock.Table.{tcp_bind_unhash}

abbrev pub tcp_timer_scan_interval : ℕ
tcp_timer_scan_interval = 100000

abbrev tcp_msl : ℕ
tcp_msl = 1000000

abbrev pub tcp_timewait_timeout : ℕ
tcp_timewait_timeout = 2 * tcp_msl

unfoldable pub tcp_set_timewait_timer : ℕ → Stack → Option Stack
tcp_set_timewait_timer i st = st.socks i >>= λ tsk.
    tcp_sock_inc_ref_cnt i (record (put i (record tsk { timeout = tcp_timewait_timeout }) st) {
      timer_list = st.timer_list ++ (i ∷ []);
    })

-- The timer of one socket; a `timeout` of 0 or less is never kept.
unfoldable pub tick : ℕ → Stack → Option Stack
tick i st = st.socks i >>= λ tsk.
    if leb tsk.timeout tcp_timer_scan_interval
    then (let st₁ = record st { timer_list = remove i st.timer_list } in
        elim tsk.parent as (λ _. Option Stack) [ none ↦ tcp_bind_unhash i st₁ | some p ↦ some st₁ ]
        >>= λ st₂. tcp_set_state i closed st₂ >>= λ st₃. free_tcp_sock i st₃)
    else some (put i (record tsk { timeout = tsk.timeout - tcp_timer_scan_interval }) st)

unfoldable pub scan_from : List ℕ → Stack → Option Stack
scan_from [] st = some st
scan_from (i ∷ is) st = tick i st >>= λ st'. scan_from is st'

unfoldable pub tcp_scan_timer_list : Stack → Option Stack
tcp_scan_timer_list st = scan_from st.timer_list st
