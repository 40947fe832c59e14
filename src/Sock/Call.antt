-- ===== src/Sock/Call.antt =====
-- The calls of an application in tcp_sock.c. A call that sleeps is two functions, for what it does
-- before it sleeps and behind that.
use network_lab.Base.{
  ℕ, ◌+◌, ◌%◌, ◌^◌, Bool, List, [], ◌∷◌, Option, none, some, if◌then◌else◌, ◌>>=◌,
}
use network_lab.Segment.{Segment, tcp_fin, tcp_syn, tcp_ack}
use network_lab.Ring.{ring_buffer_empty, ring_buffer_free, read_ring_buffer}
use network_lab.Tcp.{Sending, tcp_send_data}
use network_lab.Wait.{sleep_on_begin, sleep_on_end}
use network_lab.Sock.{
  closed, listen, syn_sent, established, close_wait, last_ack, fin_wait_1, Stack, put, own,
  tcp_set_state,
}
use network_lab.Sock.Table.{tcp_hash, tcp_unhash, tcp_sock_set_sport}
use network_lab.Sock.Queue.{tcp_max_backlog, tcp_sock_accept_dequeue, tcp_sock_clear_listen_queue}
use network_lab.Sock.Input.{send_control}

-- What tcp_sock_connect does before it sleeps on wait_connect: whether it then waits there. The port
-- is bound or not, the call goes on. The address is 10.0.0.2, whatever the host's is.
unfoldable pub tcp_sock_connect_begin :
    (ℕ → ℕ) → ℕ → ℕ → ℕ → ℕ → Stack → Option (Stack × List Segment × Bool)
tcp_sock_connect_begin bits id i ip port st = st.socks i >>= λ tsk.
    tcp_sock_set_sport bits i 12346 (
      put i
        (record tsk {
          conn = record (tsk.conn) { sk_dip = ip; sk_dport = port; sk_sip = 0x0a000002 };
        })
        st)
    >>= λ (st₁, bound). st₁.socks i >>= λ tsk₁.
        tcp_hash i
          (put i (record tsk₁ { conn = record (tsk₁.conn) { rcv_nxt = 0 }; state = syn_sent }) st₁)
        >>= λ (st₂, hashed). send_control id i tcp_syn st₂ >>= λ (st₃, sent).
            st₃.owned tsk.resources >>= λ res.
            let (wait, waits) = sleep_on_begin res.wait_connect in
            some (own tsk.resources (record res { wait_connect = wait }) st₃, sent, waits)

-- Behind the wake-up; the call returns 1.
unfoldable tcp_sock_connect_end : ℕ → Stack → Option Stack
tcp_sock_connect_end i st = st.socks i >>= λ tsk. st.owned tsk.resources >>= λ res.
    some (own tsk.resources (record res { wait_connect = sleep_on_end res.wait_connect }) st)

-- The argument `backlog` is not used. The Boolean is whether it returns 0, not -1.
unfoldable pub tcp_sock_listen : ℕ → ℕ → Stack → Option (Stack × Bool)
tcp_sock_listen i backlog st = st.socks i >>= λ tsk.
    tcp_hash i (put i (record tsk { backlog = tcp_max_backlog; state = listen }) st)

-- The accepted socket, or `none` if the call sleeps on wait_accept.
unfoldable tcp_sock_accept_begin : ℕ → Stack → Option (Stack × Option ℕ)
tcp_sock_accept_begin i st = st.socks i >>= λ tsk. elim tsk.accept_queue [
  | c ∷ queue ↦ tcp_sock_accept_dequeue i st >>= λ (st', new_tsk). some (st', some new_tsk)
  | [] ↦ st.owned tsk.resources >>= λ res.
      let (wait, waits) = sleep_on_begin res.wait_accept in
      let st' = own tsk.resources (record res { wait_accept = wait }) st in
      if waits
      then some (st', none)
      else (tcp_sock_accept_dequeue i st' >>= λ (st'', new_tsk). some (st'', some new_tsk))
]

-- Behind the wake-up.
unfoldable tcp_sock_accept_end : ℕ → Stack → Option (Stack × ℕ)
tcp_sock_accept_end i st = st.socks i >>= λ tsk. st.owned tsk.resources >>= λ res.
    tcp_sock_accept_dequeue i
      (own tsk.resources (record res { wait_accept = sleep_on_end res.wait_accept }) st)

unfoldable pub tcp_sock_close : ℕ → ℕ → Stack → Option (Stack × List Segment)
tcp_sock_close id i st = st.socks i >>= λ tsk. elim tsk.state [
  | listen ↦ tcp_sock_clear_listen_queue i st >>= λ st₁.
      tcp_unhash i st₁ >>= λ st₂. tcp_set_state i closed st₂ >>= λ st₃. some (st₃, [])
  | established ↦ tcp_set_state i fin_wait_1 st >>= λ st'. send_control id i (tcp_fin + tcp_ack) st'
  | close_wait ↦ tcp_set_state i last_ack st >>= λ st'. send_control id i (tcp_fin + tcp_ack) st'
  | _ ↦ some (st, [])
]

-- The length returned, the bytes copied to `buf`, and the new stack; the window is an u16.
unfoldable pub tcp_sock_read : ℕ → ℕ → Stack → Option (ℕ × List ℕ × Stack)
tcp_sock_read i len st = st.socks i >>= λ tsk. st.owned tsk.resources >>= λ res.
    if ring_buffer_empty res.rcv_buf
    then some (0, [], st)
    else (let (read_len, bytes, rcv_buf) = read_ring_buffer res.rcv_buf len in
        some (
          read_len,
          bytes,
          own tsk.resources (record res { rcv_buf = rcv_buf })
              (put i
                (record tsk {
                  conn = record (tsk.conn) { rcv_wnd = ring_buffer_free rcv_buf % 2 ^ 16 };
                })
                st),
        ))

-- How far the call came; it returns the length when it ends.
unfoldable pub tcp_sock_write : (ℕ → ℕ) → ℕ → List ℕ → List ℕ → Stack → Option (Stack × Sending)
tcp_sock_write ids i buf windows st = st.socks i >>= λ tsk.
    tcp_send_data ids tsk.conn buf windows >>= λ out.
    some (put i (record tsk { conn = out.tsk }) st, out)
