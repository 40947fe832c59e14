-- ===== src/Sock/Handshake.antt =====
-- The three packets that open a connection between two hosts.

use mathlib.Core.Option.{none-ne-some}
use network_lab.Base.{
  ℕ, ◌+◌, ◌%◌, ◌^◌, ◌≡◌, ◌≢◌, refl, sym, ◌∙◌, ap, true, List, [], ◌∷◌, ◌++◌, Option, none, some,
  ◌==◌, ◌>>=◌, Returns, ==_refl, get_elem?,
}
use network_lab.Packet.{ip_init_hdr}
use network_lab.Segment.{Segment, tcp_syn, tcp_ack, tcp_checksum, tcp_init_hdr}
use network_lab.Tcp.{TcpCb, tcp_send_control_packet, tcp_cb_init, tcp_build}
use network_lab.Tcp.Control.{IsIntact, tcp_send_control_packet-IsIntact}
use network_lab.Sock.{listen, established, Sock, Stack, Resources, linked}
use network_lab.Sock.Table.{
  tcp_hash_function, tcp_sock_lookup, tcp_sock_lookup_established, tcp_sock_lookup_listen,
}
use network_lab.Sock.Input.{handle_tcp_packet, tcp_process}
use network_lab.Sock.Call.{tcp_sock_connect_begin}
use network_lab.Sock.Connect.{CanConnect, connect_lem, local_ip, asked_conn}
use network_lab.Sock.Passive.{child_conn, listen_lem, syn_sent_lem, syn_recv_lem}

-- The segments reach a host in their order.
unfoldable pub deliver : ℕ → List Segment → Stack → Option (Stack × List Segment)
deliver id [] st = some (st, [])
deliver id (seg ∷ segs) st = handle_tcp_packet id seg st >>= λ (st₁, sent).
    deliver id segs st₁ >>= λ (st₂, sent'). some (st₂, sent ++ sent')

-- A socket that listens to `port`, first in its bucket, with no socket in the bucket of the
-- connection that is asked for.
pub record CanAccept (st : Stack) (l : ℕ) (lsn : Sock) (res : Resources) (ip port : ℕ)
    : Type 0 where
  pub at : st.socks l ≡ some lsn
  pub listens : lsn.state ≡ listen
  pub hashed : lsn.hash_node ≡ linked
  pub owns : st.owned lsn.resources ≡ some res
  pub first : get_elem? (st.listen_table (tcp_hash_function 0 0 port 0)) 0 ≡ some l
  pub bucket_free : st.established_table (tcp_hash_function ip local_ip port 12346) ≡ []
  pub new : st.socks st.fresh ≡ none
  pub none_waits : lsn.accept_queue ≡ []

-- Both ends are up, and agree on the addresses, the numbers and the windows.
pub record Connected (a b : Sock) : Type 0 where
  pub a_up : a.state ≡ established
  pub b_up : b.state ≡ established
  pub ips : a.conn.sk_sip ≡ b.conn.sk_dip
  pub peer_ips : a.conn.sk_dip ≡ b.conn.sk_sip
  pub ports : a.conn.sk_sport ≡ b.conn.sk_dport
  pub peer_ports : a.conn.sk_dport ≡ b.conn.sk_sport
  pub a_to_b : b.conn.rcv_nxt ≡ a.conn.snd_nxt
  pub b_to_a : a.conn.rcv_nxt ≡ b.conn.snd_nxt
  pub a_window : a.conn.snd_wnd ≡ b.conn.rcv_wnd % 2 ^ 16
  pub b_window : b.conn.snd_wnd ≡ a.conn.rcv_wnd % 2 ^ 16

-- The segment is accepted, and its socket processes it.
module _ (id i : ℕ) (seg : Segment) (st st' : Stack) (sent : List Segment) (intact : IsIntact seg)
    (found : tcp_sock_lookup st (tcp_cb_init seg) ≡ some i)
    (e : tcp_process id i (tcp_cb_init seg) st ≡ some (st', sent)) where
  pub handle_one : handle_tcp_packet id seg st ≡ some (st', sent)
  unfolding handle_tcp_packet
  handle_one =
      let test : (tcp_checksum seg == seg.tcp.checksum) ≡ true = rw intact (==_refl _) in
      rw (test, found, e) refl

  pub deliver_one : deliver id (seg ∷ []) st ≡ some (st', sent ++ [])
  unfolding deliver
  deliver_one = rw handle_one refl

pub lookup_first :
    (st : Stack) (cb : TcpCb) (i : ℕ)
    → st.established_table (tcp_hash_function cb.daddr cb.saddr cb.dport cb.sport) ≡ i ∷ []
    → tcp_sock_lookup st cb ≡ some i
unfolding tcp_sock_lookup tcp_sock_lookup_established
lookup_first st cb i e = rw e refl

lookup_listener :
    (st : Stack) (cb : TcpCb) (i : ℕ)
    → st.established_table (tcp_hash_function cb.daddr cb.saddr cb.dport cb.sport) ≡ []
    → get_elem? (st.listen_table (tcp_hash_function 0 0 cb.dport 0)) 0 ≡ some i
    → tcp_sock_lookup st cb ≡ some i
unfolding tcp_sock_lookup tcp_sock_lookup_established tcp_sock_lookup_listen
lookup_listener st cb i e f = rw (e, f) refl

-- A closed socket, neither hashed nor bound, connects to one that listens. On the client's host no
-- socket is bound in the bucket of port 12346, and the bucket of the connection is empty; on the
-- server's host the listener is first in its bucket and has nothing to accept, the bucket of the
-- connection is empty, and the next place is free. Then the SYN, the SYN and ACK and the ACK that the two hosts send,
-- each delivered to the other, are processed without a fault, and leave the client's socket and the
-- listener's child both ESTABLISHED, with the same addresses, sequence numbers and windows, and the
-- child in the queue that accept takes it from.
pub handshake :
    (bits : ℕ → ℕ) (id c l ip port : ℕ) (client server : Stack) (tsk lsn : Sock)
    (res lsn_res : Resources)
    → CanConnect client c tsk res ip port
    → CanAccept server l lsn lsn_res ip port
    → Returns (tcp_sock_connect_begin bits id c ip port client) (λ (client₁, syn, waits).
      Returns (deliver id syn server) (λ (server₁, syn_ack).
        Returns (deliver id syn_ack client₁) (λ (client₂, ack).
          Returns (deliver id ack server₁) (λ (server₂, nothing).
            (a : Sock) × (b : Sock) × (par : Sock) × (client₂.socks c ≡ some a)
            × (server₂.socks server.fresh ≡ some b)
            × Connected a b
            × (server₂.socks l ≡ some par)
            × (par.accept_queue ≡ server.fresh ∷ [])
            × (nothing ≡ [])))))
unfolding tcp_send_control_packet tcp_cb_init tcp_build ip_init_hdr tcp_init_hdr
handshake bits id c l ip port client server tsk lsn res lsn_res can acc =
    let (conn₁, syn) = tcp_send_control_packet id (asked_conn tsk.conn ip port) tcp_syn in
    let ((client₁, syns, waits), e₁, (at₁, owns₁, est₁, sent₁)) =
      connect_lem bits id c ip port client tsk res can in
    let ((server₁, syn_acks), e₂, (child₂, lsn₂, owned₂, est₂, sent₂)) =
      listen_lem id l (tcp_cb_init syn) server lsn acc.at acc.listens acc.hashed acc.new
        acc.bucket_free in
    let asked₂ = child_conn lsn.conn (tcp_cb_init syn) in
    let (conn₂, syn_ack) = tcp_send_control_packet id asked₂ (tcp_syn + tcp_ack) in
    let ((client₂, acks), e₃, (at₃, owns₃, sent₃)) =
      syn_sent_lem id c (tcp_cb_init syn_ack) client₁ _ _ at₁ refl refl owns₁ in
    let asked₃ = record conn₁ { rcv_nxt = ((tcp_cb_init syn_ack).seq + 1) % 2 ^ 32 } in
    let (conn₃, ack) = tcp_send_control_packet id asked₃ tcp_ack in
    let apart : server.fresh ≢ l =
      λ e. none-ne-some lsn (sym acc.new ∙ ap server.socks e ∙ acc.at) in
    let ((server₂, nothing), e₄, (at₄, lsn₄, owns₄, sent₄)) =
      syn_recv_lem id server.fresh l (tcp_cb_init ack) server₁ _ _ lsn_res child₂ refl refl lsn₂
        apart (ap (λ f. f lsn.resources) owned₂ ∙ acc.owns) refl in
    let d₂ : deliver id syns server ≡ some (server₁, syn_ack ∷ []) =
      ap (λ s. deliver id s server) sent₁
      ∙ deliver_one id l syn server server₁ (syn_ack ∷ [])
          (tcp_send_control_packet-IsIntact id (asked_conn tsk.conn ip port) tcp_syn)
          (lookup_listener server (tcp_cb_init syn) l acc.bucket_free acc.first)
          (e₂ ∙ ap (λ s. some (server₁, s)) sent₂) in
    let d₃ : deliver id (syn_ack ∷ []) client₁ ≡ some (client₂, ack ∷ []) =
      deliver_one id c syn_ack client₁ client₂ (ack ∷ [])
        (tcp_send_control_packet-IsIntact id asked₂ (tcp_syn + tcp_ack))
        (lookup_first client₁ (tcp_cb_init syn_ack) c est₁)
        (e₃ ∙ ap (λ s. some (client₂, s)) sent₃) in
    let d₄ : deliver id (ack ∷ []) server₁ ≡ some (server₂, []) =
      deliver_one id server.fresh ack server₁ server₂ []
        (tcp_send_control_packet-IsIntact id asked₃ tcp_ack)
        (lookup_first server₁ (tcp_cb_init ack) server.fresh est₂)
        (e₄ ∙ ap (λ s. some (server₂, s)) sent₄) in
    (
      (client₁, syns, waits),
      e₁,
      (
        (server₁, syn_ack ∷ []),
        d₂,
        (
          (client₂, ack ∷ []),
          d₃,
          (
            (server₂, []),
            d₄,
            (
              _,
              _,
              _,
              at₃,
              at₄,
              record {
                a_up = refl;
                b_up = refl;
                ips = refl;
                peer_ips = refl;
                ports = refl;
                peer_ports = refl;
                a_to_b = refl;
                b_to_a = refl;
                a_window = refl;
                b_window = refl;
              },
              lsn₄,
              rw acc.none_waits refl,
              refl,
            ),
          ),
        ),
      ),
    )
