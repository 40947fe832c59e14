-- ===== src/Sock/Faults.antt =====
-- Where the sockets fail: a second connection request, and a port that is taken.

use network_lab.Base.{
  ℕ, ◌+◌, ◌≡◌, refl, ◌∙◌, ap, true, false, List, [], ◌∷◌, none, some, ◌==◌, Returns, Holds→Returns,
  ==_refl, update_self, Every,
}
use network_lab.Tcp.{TcpCb}
use network_lab.Sock.{
  listen, syn_recv, Sock, Stack, Resources, zeroed, linked, tcp_set_state, tcp_sock_inc_ref_cnt,
}
use network_lab.Sock.Table.{
  tcp_hash_function, tcp_port_in_use, in_use, tcp_sock_set_sport, tcp_sock_bind, tcp_bind_hash,
}
use network_lab.Sock.Queue.{tcp_sock_accept_enqueue, detach}
use network_lab.Sock.Input.{tcp_process, tcp_state_syn_recv}
use network_lab.Sock.Passive.{listen_lem, update_window_lem}

recv_crashes :
    (id i : ℕ) (cb : TcpCb) (st : Stack) (tsk : Sock) (res : Resources)
    → st.socks i ≡ some tsk
    → st.owned tsk.resources ≡ some res
    → tsk.state ≡ syn_recv
    → tsk.parent ≡ none
    → tcp_process id i cb st ≡ none
unfolding tcp_process tcp_state_syn_recv tcp_set_state detach tcp_sock_accept_enqueue
recv_crashes id i cb st tsk res at owns recv orphan =
    let (st₁, e₁, (at₁, owns₁, est₁, others)) = update_window_lem i cb st tsk res at owns in
    rw
      (
        at,
        recv,
        tcp_state_syn_recv,
        e₁,
        at₁,
        ==_refl i,
        orphan,
        tcp_sock_accept_enqueue,
        ==_refl i,
        orphan,
        ==_refl i,
        orphan,
      )
      refl

-- A listening socket that has taken one connection request: a further packet that is looked up
-- among the listening sockets, as a second request is, ends the process.
pub second_request :
    (id id' l : ℕ) (syn cb : TcpCb) (st : Stack) (lsn : Sock) (res : Resources)
    → st.socks l ≡ some lsn
    → st.owned lsn.resources ≡ some res
    → lsn.state ≡ listen
    → lsn.parent ≡ none
    → lsn.hash_node ≡ linked
    → st.socks st.fresh ≡ none
    → st.established_table (tcp_hash_function syn.daddr syn.saddr syn.dport syn.sport) ≡ []
    → Returns (tcp_process id l syn st) (λ (st', sent). tcp_process id' l cb st' ≡ none)
second_request id id' l syn cb st lsn res at owns lst orphan node new free =
    let ((st₁, sent), e₁, (child, par, owned, est, seg)) =
      listen_lem id l syn st lsn at lst node new free in
    (
      (st₁, sent),
      e₁,
      recv_crashes id' l cb st₁ _ res par (ap (λ f. f lsn.resources) owned ∙ owns) refl orphan,
    )

-- No socket on the list has a parent.
unfoldable pub IsOrphan : Stack → ℕ → Type 0
IsOrphan st i = (tsk : Sock) × (st.socks i ≡ some tsk) × (tsk.parent ≡ none)

never_in_use :
    (bits : ℕ → ℕ) (st : Stack) (port : ℕ) (is : List ℕ)
    → (0 == port) ≡ false
    → Every (IsOrphan st) is
    → in_use bits st port is ≡ some false
unfolding in_use IsOrphan
never_in_use bits st port [] ne orphans = refl
never_in_use bits st port (i ∷ is) ne ((tsk, at, orphan), orphans) =
    rw (in_use, at, orphan, ne, never_in_use bits st port is ne orphans) refl

-- A call of bind with a port other than 0 succeeds, and gives the socket the port, though a socket
-- of the bucket may have it already: the sockets there are only live and without a parent, as
-- those are that bind and connect put there.
pub tcp_sock_bind_taken :
    (bits : ℕ → ℕ) (i port : ℕ) (st : Stack) (tsk : Sock)
    → (0 == port) ≡ false
    → (port == 0) ≡ false
    → st.socks i ≡ some tsk
    → tsk.bind_node ≡ zeroed
    → Every (IsOrphan st) (st.bind_table (tcp_hash_function 0 0 port 0))
    → Returns (tcp_sock_bind bits i port st) (λ (st', ok).
      (ok ≡ true)
      × (st'.socks i
          ≡ some (record tsk {
            conn = record (tsk.conn) { sk_sport = port };
            bind_node = linked;
            ref_cnt = tsk.ref_cnt + 1;
          }))
      × (st'.bind_table (tcp_hash_function 0 0 port 0)
          ≡ i ∷ st.bind_table (tcp_hash_function 0 0 port 0)))
unfolding tcp_sock_bind tcp_sock_set_sport tcp_port_in_use tcp_bind_hash tcp_sock_inc_ref_cnt
tcp_sock_bind_taken bits i port st tsk ne ne' at unbound orphans =
    let unused =
      never_in_use bits st port (st.bind_table (tcp_hash_function 0 0 port 0)) ne orphans in
    Holds→Returns _ _ (
      rw (ne', unused, at, ==_refl i, unbound, ==_refl i)
        (refl, refl, update_self st.bind_table _ _))
