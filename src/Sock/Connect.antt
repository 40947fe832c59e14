-- ===== src/Sock/Connect.antt =====
-- What connect does for a socket whose buckets are empty.

use network_lab.Base.{
  ℕ, ◌+◌, ◌≡◌, ◌≢◌, refl, ◌∙◌, ap, false, [], ◌∷◌, some, ◌==◌, inl, inr, ◌⊎◌, Returns,
  Holds→Returns, Holds→Returns, update_self, update_of_ne, ==_refl,
}
use network_lab.Segment.{tcp_syn}
use network_lab.Tcp.{TcpSock, tcp_send_control_packet}
use network_lab.Wait.{sleep_on_begin}
use network_lab.Sock.{
  TcpState, syn_recv, syn_sent, Sock, Stack, put, Resources, zeroed, linked, tcp_sock_inc_ref_cnt,
}
use network_lab.Sock.Table.{
  tcp_hash_function, tcp_sock_set_sport, tcp_port_in_use, in_use, tcp_bind_hash, tcp_hash,
  hash_established, is_taken, link_hash, is_linked,
}
use network_lab.Sock.Call.{tcp_sock_connect_begin}
use network_lab.Sock.Input.{send_control}

abbrev pub local_ip : ℕ
local_ip = 0x0a000002

-- What is left alone by a function that writes the socket `i` only.
abbrev pub Others : ℕ → Stack → Stack → Type 0
Others i st st' = (j : ℕ) → j ≢ i → st'.socks j ≡ st.socks j

set_sport_lem :
    (bits : ℕ → ℕ) (i port : ℕ) (st : Stack) (tsk : Sock)
    → (port == 0) ≡ false
    → st.socks i ≡ some tsk
    → tsk.bind_node ≡ zeroed
    → st.bind_table (tcp_hash_function 0 0 port 0) ≡ []
    → Returns (tcp_sock_set_sport bits i port st) (λ (st', ok).
      (st'.socks i
        ≡ some (record tsk {
          conn = record (tsk.conn) { sk_sport = port };
          bind_node = linked;
          ref_cnt = tsk.ref_cnt + 1;
        }))
      × (st'.owned ≡ st.owned)
      × (st'.established_table ≡ st.established_table))
unfolding tcp_sock_set_sport tcp_port_in_use in_use tcp_bind_hash tcp_sock_inc_ref_cnt
set_sport_lem bits i port st tsk ne at unbound free =
    Holds→Returns _ _ (rw (ne, at, free, ==_refl i, unbound, ==_refl i) (refl, refl, refl))

pub hash_lem :
    (i : ℕ) (st : Stack) (tsk : Sock)
    → st.socks i ≡ some tsk
    → is_linked tsk.hash_node ≡ false
    → let h =
        tcp_hash_function tsk.conn.sk_sip tsk.conn.sk_dip tsk.conn.sk_sport tsk.conn.sk_dport in
      (st.established_table h ≡ [])
      → Returns (hash_established i tsk st) (λ (st', ok).
        (st'.socks i ≡ some (record tsk { hash_node = linked; ref_cnt = tsk.ref_cnt + 1 }))
        × (st'.owned ≡ st.owned)
        × (st'.established_table h ≡ i ∷ [])
        × Others i st st')
unfolding hash_established is_taken link_hash
hash_lem i st tsk at unhashed free = Holds→Returns _ _ (
    rw (free, at, unhashed)
      (
        update_self st.socks i _,
        refl,
        update_self st.established_table _ _,
        λ j ne. update_of_ne st.socks i j _ ne,
      ))

pub tcp_hash-of :
    (i : ℕ) (st : Stack) (tsk : Sock) (s : TcpState)
    → st.socks i ≡ some tsk
    → tsk.state ≡ s
    → (s ≡ syn_sent) ⊎ (s ≡ syn_recv)
    → tcp_hash i st ≡ hash_established i tsk st
unfolding tcp_hash hash_established
tcp_hash-of i st tsk s at es (inl sent) = rw (at, es, sent) refl
tcp_hash-of i st tsk s at es (inr recv) = rw (at, es, recv) refl

pub send_lem :
    (id i flags : ℕ) (st : Stack) (tsk : Sock)
    → st.socks i ≡ some tsk
    → let (conn, seg) = tcp_send_control_packet id tsk.conn flags in
      send_control id i flags st ≡ some (put i (record tsk { conn = conn }) st, seg ∷ [])
unfolding send_control
send_lem id i flags st tsk at = rw at refl

-- A socket that can be connected
pub record CanConnect (st : Stack) (i : ℕ) (tsk : Sock) (res : Resources) (ip port : ℕ)
    : Type 0 where
  pub at : st.socks i ≡ some tsk
  pub unhashed : tsk.hash_node ≡ zeroed
  pub unbound : tsk.bind_node ≡ zeroed
  pub owns : st.owned tsk.resources ≡ some res
  pub port_free : st.bind_table (tcp_hash_function 0 0 12346 0) ≡ []
  pub bucket_free : st.established_table (tcp_hash_function local_ip ip 12346 port) ≡ []

abbrev pub asked_conn : TcpSock → ℕ → ℕ → TcpSock
asked_conn conn ip port = record conn {
  sk_dip = ip;
  sk_dport = port;
  sk_sip = local_ip;
  sk_sport = 12346;
  rcv_nxt = 0;
}

pub connect_lem :
    (bits : ℕ → ℕ) (id i ip port : ℕ) (st : Stack) (tsk : Sock) (res : Resources)
    → CanConnect st i tsk res ip port
    → Returns (tcp_sock_connect_begin bits id i ip port st) (λ (st', sent, waits).
      let (conn, syn) = tcp_send_control_packet id (asked_conn tsk.conn ip port) tcp_syn in
      (st'.socks i
        ≡ some (record tsk {
          conn = conn;
          hash_node = linked;
          bind_node = linked;
          ref_cnt = tsk.ref_cnt + 1 + 1;
          state = syn_sent;
        }))
      × (st'.owned tsk.resources
          ≡ some (record res { wait_connect = (sleep_on_begin res.wait_connect).0 }))
      × (st'.established_table (tcp_hash_function local_ip ip 12346 port) ≡ i ∷ [])
      × (sent ≡ syn ∷ []))
unfolding tcp_sock_connect_begin
connect_lem bits id i ip port st tsk res can =
    let st₀ =
      put i
        (record tsk {
          conn = record (tsk.conn) { sk_dip = ip; sk_dport = port; sk_sip = local_ip };
        })
        st in
    let tsk₀ = record tsk {
      conn = record (tsk.conn) { sk_dip = ip; sk_dport = port; sk_sip = local_ip };
    } in
    let ((st₁, ok), e₁, (at₁, own₁, est₁)) =
      set_sport_lem bits i 12346 st₀ tsk₀ refl (update_self st.socks i _) can.unbound
        can.port_free in
    let tsk₂ = record tsk {
      conn = asked_conn tsk.conn ip port;
      bind_node = linked;
      ref_cnt = tsk.ref_cnt + 1;
      state = syn_sent;
    } in
    let st₂ = put i tsk₂ st₁ in
    let ((st₃, ok'), e₃, (at₃, own₃, est₃, others)) =
      hash_lem i st₂ tsk₂ (update_self st₁.socks i _) (rw can.unhashed refl)
        (ap (λ f. f (tcp_hash_function local_ip ip 12346 port)) est₁ ∙ can.bucket_free) in
    let owns₃ : st₃.owned tsk.resources ≡ some res =
      ap (λ f. f tsk.resources) (own₃ ∙ own₁) ∙ can.owns in
    Holds→Returns _ _ (
      rw
        (
          can.at,
          e₁,
          at₁,
          tcp_hash-of i st₂ tsk₂ syn_sent (update_self st₁.socks i _) refl (inl refl),
          e₃,
          send_lem id i tcp_syn st₃ _ at₃,
          owns₃,
        )
        (update_self st₃.socks i _, update_self st₃.owned tsk.resources _, est₃, refl))
