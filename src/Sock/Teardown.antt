-- ===== src/Sock/Teardown.antt =====
-- The segments that close a connection, and the wait behind them.

use network_lab.Base.{
  ℕ, ◌+◌, ◌%◌, ◌^◌, ◌≡◌, refl, ◌∙◌, ap, true, false, [], ◌∷◌, ◌++◌, some, Returns, Holds→Returns,
  ==_refl, update_self,
}
use network_lab.Segment.{tcp_fin, tcp_psh, tcp_ack, has_flag}
use network_lab.Tcp.{TcpCb, tcp_send_control_packet}
use network_lab.Sock.{
  TcpState, closed, established, close_wait, last_ack, fin_wait_1, fin_wait_2, time_wait, Sock,
  Stack, put, tcp_set_state, tcp_sock_inc_ref_cnt,
}
use network_lab.Sock.Timer.{tcp_timewait_timeout, tcp_set_timewait_timer}
use network_lab.Sock.Input.{tcp_process, process_established, receive_fin, enter_time_wait}
use network_lab.Sock.Call.{tcp_sock_close}
use network_lab.Sock.Connect.{send_lem}

set_timer_lem :
    (i : ℕ) (st : Stack) (tsk : Sock)
    → st.socks i ≡ some tsk
    → Returns (tcp_set_timewait_timer i st) (λ st'.
      (st'.socks i
        ≡ some (record tsk { timeout = tcp_timewait_timeout; ref_cnt = tsk.ref_cnt + 1 }))
      × (st'.timer_list ≡ st.timer_list ++ (i ∷ [])))
unfolding tcp_set_timewait_timer tcp_sock_inc_ref_cnt
set_timer_lem i st tsk at =
    let st₁ = put i (record tsk { timeout = tcp_timewait_timeout }) st in
    Holds→Returns _ _ (rw (at, ==_refl i) (update_self st₁.socks i _, refl))

module _ (id i : ℕ) (st : Stack) (tsk : Sock) (at : st.socks i ≡ some tsk) where
  pub close_established :
      tsk.state ≡ established
      → let (conn, fin) = tcp_send_control_packet id tsk.conn (tcp_fin + tcp_ack) in
        Returns (tcp_sock_close id i st) (λ (st', sent).
          (st'.socks i ≡ some (record tsk { conn = conn; state = fin_wait_1 }))
          × (st'.established_table ≡ st.established_table)
          × (st'.timer_list ≡ st.timer_list)
          × (sent ≡ fin ∷ []))
  unfolding tcp_sock_close tcp_set_state
  close_established es =
      let st₁ : Stack = put i (record tsk { state = fin_wait_1 }) st in
      Holds→Returns _ _ (
        rw
          (
            at,
            es,
            at,
            send_lem id i (tcp_fin + tcp_ack) st₁ (record tsk { state = fin_wait_1 })
                (update_self st.socks i _),
          )
          (update_self st₁.socks i _, refl, refl, refl))

  pub close_after_peer :
      tsk.state ≡ close_wait
      → let (conn, fin) = tcp_send_control_packet id tsk.conn (tcp_fin + tcp_ack) in
        Returns (tcp_sock_close id i st) (λ (st', sent).
          (st'.socks i ≡ some (record tsk { conn = conn; state = last_ack }))
          × (st'.established_table ≡ st.established_table)
          × (st'.timer_list ≡ st.timer_list)
          × (sent ≡ fin ∷ []))
  unfolding tcp_sock_close tcp_set_state
  close_after_peer es =
      let st₁ : Stack = put i (record tsk { state = last_ack }) st in
      Holds→Returns _ _ (
        rw
          (
            at,
            es,
            at,
            send_lem id i (tcp_fin + tcp_ack) st₁ (record tsk { state = last_ack })
                (update_self st.socks i _),
          )
          (update_self st₁.socks i _, refl, refl, refl))

  fin_lem :
      (next : TcpState) (cb : TcpCb)
      → let (conn, ack) =
          tcp_send_control_packet id
            (record (tsk.conn) { rcv_nxt = (cb.seq + 1) % 2 ^ 32 })
            tcp_ack in
        Returns (receive_fin id i next cb st) (λ (st', sent).
          (st'.socks i ≡ some (record tsk { conn = conn; state = next }))
          × (st'.established_table ≡ st.established_table)
          × (st'.timer_list ≡ st.timer_list)
          × (sent ≡ ack ∷ []))
  unfolding receive_fin tcp_set_state
  fin_lem next cb =
      let asked = record (tsk.conn) { rcv_nxt = (cb.seq + 1) % 2 ^ 32 } in
      let st₁ = put i (record tsk { conn = asked }) st in
      let st₂ = put i (record tsk { conn = (tcp_send_control_packet id asked tcp_ack).0 }) st₁ in
      Holds→Returns _ _ (
        rw
          (
            at,
            send_lem id i tcp_ack st₁ (record tsk { conn = asked }) (update_self st.socks i _),
            update_self st₁.socks i
                (some (record tsk { conn = (tcp_send_control_packet id asked tcp_ack).0 })),
          )
          (update_self st₂.socks i _, refl, refl, refl))

  -- A FIN without data in ESTABLISHED.
  pub established_lem :
      (cb : TcpCb)
      → tsk.state ≡ established
      → has_flag cb.flags tcp_fin ≡ true
      → has_flag cb.flags tcp_psh ≡ false
      → let (conn, ack) =
          tcp_send_control_packet id
            (record (tsk.conn) { rcv_nxt = (cb.seq + 1) % 2 ^ 32 })
            tcp_ack in
        Returns (tcp_process id i cb st) (λ (st', sent).
          (st'.socks i ≡ some (record tsk { conn = conn; state = close_wait }))
          × (st'.established_table ≡ st.established_table)
          × (st'.timer_list ≡ st.timer_list)
          × (sent ≡ ack ∷ []))
  unfolding tcp_process process_established
  established_lem cb es fin no_psh =
      let ((st₁, sent₁), e₁, p₁) = fin_lem close_wait cb in
      ((st₁, sent₁), rw (at, es, process_established, fin, no_psh, e₁) refl, p₁)

  pub fin_wait_1_lem :
      (cb : TcpCb)
      → tsk.state ≡ fin_wait_1
      → has_flag cb.flags tcp_ack ≡ true
      → tcp_process id i cb st ≡ some (put i (record tsk { state = fin_wait_2 }) st, [])
  unfolding tcp_process tcp_set_state
  fin_wait_1_lem cb es acks = rw (at, es, acks, at) refl

  pub last_ack_lem :
      (cb : TcpCb)
      → tsk.state ≡ last_ack
      → has_flag cb.flags tcp_ack ≡ true
      → tcp_process id i cb st ≡ some (put i (record tsk { state = closed }) st, [])
  unfolding tcp_process tcp_set_state
  last_ack_lem cb es acks = rw (at, es, acks, at) refl

  pub fin_wait_2_lem :
      (cb : TcpCb)
      → tsk.state ≡ fin_wait_2
      → has_flag cb.flags tcp_fin ≡ true
      → let (conn, ack) =
          tcp_send_control_packet id
            (record (tsk.conn) { rcv_nxt = (cb.seq + 1) % 2 ^ 32 })
            tcp_ack in
        Returns (tcp_process id i cb st) (λ (st', sent).
          (st'.socks i
            ≡ some (record tsk {
              conn = conn;
              state = time_wait;
              timeout = tcp_timewait_timeout;
              ref_cnt = tsk.ref_cnt + 1;
            }))
          × (st'.timer_list ≡ st.timer_list ++ (i ∷ []))
          × (sent ≡ ack ∷ []))
  unfolding tcp_process enter_time_wait
  fin_wait_2_lem cb es fin =
      let asked = record (tsk.conn) { rcv_nxt = (cb.seq + 1) % 2 ^ 32 } in
      let ((st₁, sent₁), e₁, (at₁, est₁, timers₁, sent)) = fin_lem time_wait cb in
      let (st₂, e₂, (at₂, timers₂)) = set_timer_lem i st₁ _ at₁ in
      (
        (st₂, sent₁),
        rw (at, es, fin, enter_time_wait, e₁, e₂) refl,
        (at₂, timers₂ ∙ ap (λ l. l ++ (i ∷ [])) timers₁, sent),
      )
