-- ===== src/Sock/Input.antt =====
-- 16-tcp_data_transfer/tcp_in.c, and handle_tcp_packet of tcp.c: what a socket does with a packet.
-- A function takes what `rand()` returns for the ip header, and returns the segments that it sends.
use network_lab.Base.{
  ℕ, ◌+◌, ◌%◌, ◌^◌, Bool, ◌&&◌, List, [], ◌∷◌, ◌++◌, Option, some, leb, ltb, ◌==◌, if◌then◌else◌,
  ◌>>=◌,
}
use network_lab.Segment.{Segment, tcp_fin, tcp_syn, tcp_psh, tcp_ack, has_flag, tcp_checksum}
use network_lab.Ring.{write_ring_buffer}
use network_lab.Wait.{wake_up}
use network_lab.Tcp.{TcpSock, TcpCb, tcp_cb_init, tcp_send_control_packet, tcp_send_reset}
use network_lab.Sock.{
  TcpState, closed, listen, syn_recv, syn_sent, established, close_wait, last_ack, fin_wait_1,
  fin_wait_2, time_wait, Node, linked, stale, Sock, Stack, put, own, tcp_set_state,
}
use network_lab.Sock.Table.{tcp_hash, tcp_sock_lookup}
use network_lab.Sock.Queue.{detach, tcp_sock_accept_enqueue}
use network_lab.Sock.Timer.{tcp_set_timewait_timer}

-- tcp_send_control_packet for a socket of the store.
unfoldable pub send_control : ℕ → ℕ → ℕ → Stack → Option (Stack × List Segment)
send_control id i flags st = st.socks i >>= λ tsk.
    let (conn, seg) = tcp_send_control_packet id tsk.conn flags in
    some (put i (record tsk { conn = conn }) st, seg ∷ [])

-- What `memcpy` makes of a node: pointers into a list that the copy is not on.
abbrev pub copy_node : Node → Node
copy_node linked = stale
copy_node node = node

-- The listening socket itself is set to SYN_RECV, and its child is a copy of it, which shares what it
-- points to. (The copied heads of the queues are not used.)
unfoldable pub add_child : ℕ → Sock → TcpCb → Stack → Stack
add_child i tsk cb st =
    let par = record tsk { state = syn_recv; listen_queue = tsk.listen_queue ++ (st.fresh ∷ []) } in
    let child = record tsk {
      conn = record (tsk.conn) {
        sk_dip = cb.saddr;
        sk_sip = cb.daddr;
        sk_dport = cb.sport;
        sk_sport = cb.dport;
        rcv_nxt = (cb.seq + 1) % 2 ^ 32;
      };
      parent = some i;
      hash_node = copy_node tsk.hash_node;
      bind_node = copy_node tsk.bind_node;
      state = syn_recv;
    } in
    record (put st.fresh child (put i par st)) { fresh = st.fresh + 1 }

unfoldable pub tcp_state_listen : ℕ → ℕ → TcpCb → Stack → Option (Stack × List Segment)
tcp_state_listen id i cb st = st.socks i >>= λ tsk.
    tcp_hash st.fresh (add_child i tsk cb st) >>= λ (st', hashed).
    send_control id st.fresh (tcp_syn + tcp_ack) st'

unfoldable pub tcp_state_closed : ℕ → TcpCb → Stack → Option (Stack × List Segment)
tcp_state_closed id cb st = some (st, tcp_send_reset id cb ∷ [])

-- The window is an u16.
unfoldable pub tcp_update_window : ℕ → TcpCb → Stack → Option Stack
tcp_update_window i cb st = st.socks i >>= λ tsk.
    let st' = put i (record tsk { conn = record (tsk.conn) { snd_wnd = cb.rwnd % 2 ^ 16 } }) st in
    if tsk.conn.snd_wnd == 0
    then (st.owned tsk.resources >>= λ res.
        some (own tsk.resources (record res { wait_send = (wake_up res.wait_send).0 }) st'))
    else some st'

unfoldable tcp_update_window_safe : ℕ → TcpCb → Stack → Option Stack
tcp_update_window_safe i cb st = st.socks i >>= λ tsk.
    if leb tsk.snd_una cb.ack && leb cb.ack tsk.conn.snd_nxt
    then tcp_update_window i cb st
    else some st

unfoldable pub establish : ℕ → ℕ → TcpCb → Stack → Option (Stack × List Segment)
establish id i cb st = st.socks i >>= λ tsk.
    send_control id i tcp_ack
      (put i (record tsk { conn = record (tsk.conn) { rcv_nxt = (cb.seq + 1) % 2 ^ 32 } }) st)
    >>= λ (st₁, sent). tcp_update_window i cb st₁ >>= λ st₂.
        tcp_set_state i established st₂ >>= λ st₃. st₃.owned tsk.resources >>= λ res.
        some
          (own tsk.resources (record res { wait_connect = (wake_up res.wait_connect).0 }) st₃, sent)

unfoldable pub tcp_state_syn_sent : ℕ → ℕ → TcpCb → Stack → Option (Stack × List Segment)
tcp_state_syn_sent id i cb st =
    if cb.flags == tcp_syn + tcp_ack then establish id i cb st else some (st, [])

-- `wake_up(tsk->parent->wait_accept)`
unfoldable pub wake_parent : ℕ → Stack → Option Stack
wake_parent i st = st.socks i >>= λ tsk. tsk.parent >>= λ p. st.socks p >>= λ par.
    st.owned par.resources >>= λ res.
    some (own par.resources (record res { wait_accept = (wake_up res.wait_accept).0 }) st)

-- A socket without a parent, the listening one, follows its null pointer.
unfoldable pub tcp_state_syn_recv : ℕ → TcpCb → Stack → Option (Stack × List Segment)
tcp_state_syn_recv i cb st = tcp_update_window i cb st >>= λ st₁.
    tcp_set_state i established st₁ >>= λ st₂. detach i st₂ >>= λ st₃.
    tcp_sock_accept_enqueue i st₃ >>= λ st₄. wake_parent i st₄ >>= λ st₅. some (st₅, [])

-- `max(tsk->rcv_wnd, 1)` is in unsigned arithmetic, like the sum; the function is called nowhere.
unfoldable is_tcp_seq_valid : TcpSock → TcpCb → Bool
is_tcp_seq_valid tsk cb =
    let rcv_end = (tsk.rcv_nxt + (if ltb 1 tsk.rcv_wnd then tsk.rcv_wnd else 1)) % 2 ^ 32 in
    ltb cb.seq rcv_end && leb tsk.rcv_nxt cb.seq_end

-- A FIN, or a data packet, or both, in ESTABLISHED.
unfoldable pub receive_fin : ℕ → ℕ → TcpState → TcpCb → Stack → Option (Stack × List Segment)
receive_fin id i next cb st = st.socks i >>= λ tsk.
    send_control id i tcp_ack
      (put i (record tsk { conn = record (tsk.conn) { rcv_nxt = (cb.seq + 1) % 2 ^ 32 } }) st)
    >>= λ (st', sent). tcp_set_state i next st' >>= λ st''. some (st'', sent)

unfoldable pub receive_data : ℕ → TcpCb → Stack → Option Stack
receive_data i cb st = st.socks i >>= λ tsk. st.owned tsk.resources >>= λ res.
    write_ring_buffer res.rcv_buf cb.payload cb.pl_len >>= λ rcv_buf. tcp_update_window i cb (
      own tsk.resources (record res { rcv_buf = rcv_buf })
        (put i (record tsk { conn = record (tsk.conn) { rcv_nxt = (cb.seq + 1) % 2 ^ 32 } }) st))

unfoldable pub process_established : ℕ → ℕ → TcpCb → Stack → Option (Stack × List Segment)
process_established id i cb st =
    (if has_flag cb.flags tcp_fin then receive_fin id i close_wait cb st else some (st, []))
    >>= λ (st', sent).
        if has_flag cb.flags tcp_psh
        then (receive_data i cb st' >>= λ st''. some (st'', sent))
        else some (st', sent)

-- A FIN in FIN_WAIT_2.
unfoldable pub enter_time_wait : ℕ → ℕ → TcpCb → Stack → Option (Stack × List Segment)
enter_time_wait id i cb st = receive_fin id i time_wait cb st >>= λ (st', sent).
    tcp_set_timewait_timer i st' >>= λ st''. some (st'', sent)

unfoldable pub tcp_process : ℕ → ℕ → TcpCb → Stack → Option (Stack × List Segment)
tcp_process id i cb st = st.socks i >>= λ tsk. elim tsk.state [
  | closed ↦ tcp_state_closed id cb st
  | listen ↦ tcp_state_listen id i cb st
  | syn_sent ↦ tcp_state_syn_sent id i cb st
  | syn_recv ↦ tcp_state_syn_recv i cb st
  | established ↦ process_established id i cb st
  | fin_wait_1 ↦
      if has_flag cb.flags tcp_ack
      then (tcp_set_state i fin_wait_2 st >>= λ st'. some (st', []))
      else some (st, [])
  | fin_wait_2 ↦ if has_flag cb.flags tcp_fin then enter_time_wait id i cb st else some (st, [])
  | last_ack ↦
      if has_flag cb.flags tcp_ack
      then (tcp_set_state i closed st >>= λ st'. some (st', []))
      else some (st, [])
  | _ ↦ some (st, [])
]

unfoldable pub handle_tcp_packet : ℕ → Segment → Stack → Option (Stack × List Segment)
handle_tcp_packet id seg st =
    if tcp_checksum seg == seg.tcp.checksum
    then (let cb = tcp_cb_init seg in tcp_sock_lookup st cb >>= λ i. tcp_process id i cb st)
    else some (st, [])
