-- ===== src/Sock/Close.antt =====
-- The segments that close a connection between two hosts, and the wait behind them.
use mathlib.Core.Option
use network_lab.Base.{
  ℕ, ◌+◌, ◌*◌, ◌%◌, ◌^◌, ◌<◌, ◌≡◌, refl, ◌∙◌, ap, [], ◌∷◌, ◌++◌, none, some, arith, Returns,
  update_self,
}
use network_lab.Segment.{tcp_fin, tcp_ack, tcp_init_hdr}
use network_lab.Packet.{ip_init_hdr}
use network_lab.Tcp.{TcpSock, tcp_send_control_packet, tcp_cb_init, tcp_build}
use network_lab.Tcp.Control.{tcp_send_control_packet-IsIntact}
use network_lab.Sock.{
  closed, established, close_wait, fin_wait_2, time_wait, Sock, Stack, put, linked,
}
use network_lab.Sock.Table.{tcp_hash_function}
use network_lab.Sock.Timer.{tcp_timer_scan_interval, tcp_timewait_timeout}
use network_lab.Sock.Call.{tcp_sock_close}
use network_lab.Sock.Quiet.{state_of}
use network_lab.Sock.Handshake.{deliver, deliver_one, lookup_first}
use network_lab.Sock.TimeWait.{IsWaiting, scans, scans_lem}
use network_lab.Sock.Teardown.{
  close_established, close_after_peer, established_lem, fin_wait_1_lem, fin_wait_2_lem,
  last_ack_lem,
}

-- The socket is alone in the bucket in which the segments that `conn` sends are looked up.
pub record Faces (st : Stack) (i : ℕ) (tsk : Sock) (conn : TcpSock) : Type 0 where
  pub at : st.socks i ≡ some tsk
  pub first :
      st.established_table (tcp_hash_function conn.sk_dip conn.sk_sip conn.sk_dport conn.sk_sport)
      ≡ i ∷ []

-- A socket that connected, as its host has it when nothing is closing yet.
pub record CanClose (st : Stack) (i : ℕ) (tsk : Sock) : Type 0 where
  pub up : tsk.state ≡ established
  pub no_parent : tsk.parent ≡ none
  pub bound : tsk.bind_node ≡ linked
  pub referred : 1 < tsk.ref_cnt
  pub no_timer : st.timer_list ≡ []

-- The acknowledgement of a FIN, and the socket that has taken it.
abbrev asks : TcpSock → TcpSock → TcpSock
asks conn peer = record conn { rcv_nxt = (peer.snd_nxt + 1) % 2 ^ 32 }

abbrev counted : TcpSock → TcpSock
counted conn = record conn { snd_nxt = (conn.snd_nxt + 1) % 2 ^ 32 }

-- The client has closed, and the server has not.
record IsHalfClosed (i j : ℕ) (a b : Sock) (client client₂ server server₁ : Stack) : Type 0 where
  at_a : client₂.socks i ≡ some (record a { conn = counted a.conn; state = fin_wait_2 })
  at_b : server₁.socks j ≡ some (record b { conn = asks b.conn a.conn; state = close_wait })
  table_a : client₂.established_table ≡ client.established_table
  table_b : server₁.established_table ≡ server.established_table
  timers : client₂.timer_list ≡ client.timer_list

-- The bucket of a table that did not change.
still_first :
    (st' : Stack) {st : Stack} {i : ℕ} {tsk : Sock} (conn : TcpSock)
    → Faces st i tsk conn
    → st'.established_table ≡ st.established_table
    → st'.established_table (tcp_hash_function conn.sk_dip conn.sk_sip conn.sk_dport conn.sk_sport)
      ≡ i ∷ []
still_first st' conn f same =
    ap (λ t. t (tcp_hash_function conn.sk_dip conn.sk_sip conn.sk_dport conn.sk_sport)) same
    ∙ f.first

module _ (id i j : ℕ) (a b : Sock) where
  half_close :
      (client server : Stack)
      → Faces client i a b.conn
      → Faces server j b a.conn
      → a.state ≡ established
      → b.state ≡ established
      → Returns (tcp_sock_close id i client) (λ (client₁, fin).
        Returns (deliver id fin server) (λ (server₁, ack).
          Returns (deliver id ack client₁) (λ (client₂, nothing).
            (nothing ≡ []) × IsHalfClosed i j a b client client₂ server server₁)))
  unfolding tcp_send_control_packet tcp_cb_init tcp_build ip_init_hdr tcp_init_hdr
  half_close client server at_a at_b a_up b_up =
      let fin = (tcp_send_control_packet id a.conn (tcp_fin + tcp_ack)).1 in
      let ((client₁, fins), e₁, (a₁, est₁, timers₁, sent₁)) =
        close_established id i client a at_a.at a_up in
      let ack = (tcp_send_control_packet id (asks b.conn a.conn) tcp_ack).1 in
      let ((server₁, acks), e₂, (b₂, est₂, timers₂, sent₂)) =
        established_lem id j server b at_b.at (tcp_cb_init fin) b_up refl refl in
      let d₂ : deliver id fins server ≡ some (server₁, ack ∷ []) =
        ap (λ s. deliver id s server) sent₁
        ∙ deliver_one id j fin server server₁ (ack ∷ [])
            (tcp_send_control_packet-IsIntact id a.conn (tcp_fin + tcp_ack))
            (lookup_first server (tcp_cb_init fin) j at_b.first)
            (e₂ ∙ ap (λ s. some (server₁, s)) sent₂) in
      let client₂ = put i (record a { conn = counted a.conn; state = fin_wait_2 }) client₁ in
      let d₃ : deliver id (ack ∷ []) client₁ ≡ some (client₂, []) =
        deliver_one id i ack client₁ client₂ []
          (tcp_send_control_packet-IsIntact id (asks b.conn a.conn) tcp_ack)
          (lookup_first client₁ (tcp_cb_init ack) i (still_first client₁ b.conn at_a est₁))
          (fin_wait_1_lem id i client₁ _ a₁ (tcp_cb_init ack) refl refl) in
      let half : IsHalfClosed i j a b client client₂ server server₁ = record {
        at_a = update_self client₁.socks i _;
        at_b = b₂;
        table_a = est₁;
        table_b = est₂;
        timers = timers₁;
      } in
      ((client₁, fins), e₁, ((server₁, ack ∷ []), d₂, ((client₂, []), d₃, (refl, half))))

  other_half :
      (client client₂ server server₁ : Stack)
      → Faces client i a b.conn
      → Faces server j b a.conn
      → CanClose client i a
      → IsHalfClosed i j a b client client₂ server server₁
      → Returns (tcp_sock_close id j server₁) (λ (server₂, fin).
        Returns (deliver id fin client₂) (λ (client₃, ack).
          Returns (deliver id ack server₂) (λ (server₃, nothing).
            (nothing ≡ [])
            × (state_of server₃ j ≡ some closed)
            × ((waiting : Sock) × IsWaiting client₃ i waiting (20 * tcp_timer_scan_interval)))))
  unfolding tcp_send_control_packet tcp_cb_init tcp_build ip_init_hdr tcp_init_hdr
  other_half client client₂ server server₁ at_a at_b can h =
      let conn = asks b.conn a.conn in
      let fin = (tcp_send_control_packet id conn (tcp_fin + tcp_ack)).1 in
      let ((server₂, fins), e₄, (b₄, est₄, timers₄, sent₄)) =
        close_after_peer id j server₁ _ h.at_b refl in
      let asked = asks (counted a.conn) conn in
      let ack = (tcp_send_control_packet id asked tcp_ack).1 in
      let ((client₃, acks), e₅, (a₅, timers₅, sent₅)) =
        fin_wait_2_lem id i client₂ _ h.at_a (tcp_cb_init fin) refl refl in
      let d₅ : deliver id fins client₂ ≡ some (client₃, ack ∷ []) =
        ap (λ s. deliver id s client₂) sent₄
        ∙ deliver_one id i fin client₂ client₃ (ack ∷ [])
            (tcp_send_control_packet-IsIntact id conn (tcp_fin + tcp_ack))
            (lookup_first client₂ (tcp_cb_init fin) i (still_first client₂ b.conn at_a h.table_a))
            (e₅ ∙ ap (λ s. some (client₃, s)) sent₅) in
      let server₃ = put j (record b { conn = counted conn; state = closed }) server₂ in
      let d₆ : deliver id (ack ∷ []) server₂ ≡ some (server₃, []) =
        deliver_one id j ack server₂ server₃ [] (tcp_send_control_packet-IsIntact id asked tcp_ack)
          (lookup_first server₂ (tcp_cb_init ack) j
            (still_first server₂ a.conn at_b (est₄ ∙ h.table_b)))
          (last_ack_lem id j server₂ _ b₄ (tcp_cb_init ack) refl refl) in
      let waiting = record a {
        conn = asked;
        state = time_wait;
        timeout = tcp_timewait_timeout;
        ref_cnt = a.ref_cnt + 1;
      } in
      let waits : IsWaiting client₃ i waiting (20 * tcp_timer_scan_interval) = record {
        at = a₅;
        timers = timers₅ ∙ ap (λ l. l ++ (i ∷ [])) (h.timers ∙ can.no_timer);
        waits = refl;
        no_parent = can.no_parent;
        bound = can.bound;
        referred = omega (arith, can.referred);
        left = refl;
      } in
      (
        (server₂, fins),
        e₄,
        (
          (client₃, ack ∷ []),
          d₅,
          (
            (server₃, []),
            d₆,
            (
              refl,
              ap (Option.map (λ (t : Sock). t.state)) (update_self server₂.socks j _),
              (_, waits),
            ),
          ),
        ),
      )

-- Two connected sockets, each alone in the bucket of the other's segments. The client closes, the
-- server answers and closes in its turn, every segment being delivered to the other host: no call
-- and no packet faults, the server's socket ends CLOSED, and the client's is CLOSED after the twenty
-- scans of the timers that make up the time of TIME_WAIT, if the client had connected and no other
-- timer was set.
pub teardown :
    (id i j : ℕ) (client server : Stack) (a b : Sock)
    → Faces client i a b.conn
    → Faces server j b a.conn
    → CanClose client i a
    → b.state ≡ established
    → Returns (tcp_sock_close id i client) (λ (client₁, fin).
      Returns (deliver id fin server) (λ (server₁, ack).
        Returns (deliver id ack client₁) (λ (client₂, nothing).
          Returns (tcp_sock_close id j server₁) (λ (server₂, fin').
            Returns (deliver id fin' client₂) (λ (client₃, ack').
              Returns (deliver id ack' server₂) (λ (server₃, nothing').
                (nothing ≡ [])
                × (nothing' ≡ [])
                × (state_of server₃ j ≡ some closed)
                × Returns (scans 20 client₃) (λ client₄. state_of client₄ i ≡ some closed)))))))
teardown id i j client server a b at_a at_b can up =
    let (out₁, e₁, (out₂, e₂, (out₃, e₃, (none₃, half)))) =
      half_close id i j a b client server at_a at_b can.up up in
    let (out₄, e₄, (out₅, e₅, (out₆, e₆, (none₆, shut, (waiting, waits))))) =
      other_half id i j a b client out₃.0 server out₂.0 at_a at_b can half in
    let (client₄, e₇, (ended, none_left)) =
      (scans_lem 19 0 out₅.0 i waiting waits (omega arith)).1 in
    (
      out₁,
      e₁,
      (
        out₂,
        e₂,
        (out₃, e₃, (out₄, e₄, (out₅, e₅, (out₆, e₆, (none₃, none₆, shut, (client₄, e₇, ended)))))),
      ),
    )
