-- ===== src/Sock/Passive.antt =====
-- What a packet does in LISTEN, SYN_SENT and SYN_RECV.

use mathlib.Core.Option.{none-ne-some}
use network_lab.Base.{
  ℕ, ◌+◌, ◌%◌, ◌^◌, ◌≡◌, ◌≢◌, refl, sym, ◌∙◌, ap, true, [], ◌∷◌, ◌++◌, none, some, arith, ◌==◌,
  Bool-cases, inl, inr, Returns, Holds→Returns, update_self, update_of_ne, remove,
}
use network_lab.Segment.{tcp_syn, tcp_ack}
use network_lab.Tcp.{TcpSock, TcpCb, tcp_send_control_packet}
use network_lab.Wait.{SynchWait, wake_up}
use network_lab.Sock.{
  listen, syn_recv, syn_sent, established, Sock, Stack, put, own, Resources, linked, tcp_set_state,
}
use network_lab.Sock.Table.{tcp_hash_function}
use network_lab.Sock.Queue.{detach, tcp_sock_accept_enqueue}
use network_lab.Sock.Connect.{hash_lem, tcp_hash-of, send_lem, Others}
use network_lab.Sock.Input.{
  tcp_process, tcp_state_listen, tcp_state_syn_sent, establish, tcp_state_syn_recv, add_child,
  copy_node, tcp_update_window, wake_parent,
}

-- The connection that a SYN asks for.
abbrev pub child_conn : TcpSock → TcpCb → TcpSock
child_conn conn cb = record conn {
  sk_dip = cb.saddr;
  sk_sip = cb.daddr;
  sk_dport = cb.sport;
  sk_sport = cb.dport;
  rcv_nxt = (cb.seq + 1) % 2 ^ 32;
}

pub listen_lem :
    (id i : ℕ) (cb : TcpCb) (st : Stack) (lsn : Sock)
    → st.socks i ≡ some lsn
    → lsn.state ≡ listen
    → lsn.hash_node ≡ linked
    → st.socks st.fresh ≡ none
    → let h = tcp_hash_function cb.daddr cb.saddr cb.dport cb.sport in
      (st.established_table h ≡ [])
      → Returns (tcp_process id i cb st) (λ (st', sent).
        let (conn, seg) = tcp_send_control_packet id (child_conn lsn.conn cb) (tcp_syn + tcp_ack) in
        (st'.socks st.fresh
          ≡ some (record lsn {
            conn = conn;
            parent = some i;
            hash_node = linked;
            bind_node = copy_node lsn.bind_node;
            ref_cnt = lsn.ref_cnt + 1;
            state = syn_recv;
          }))
        × (st'.socks i
            ≡ some (record lsn {
              state = syn_recv;
              listen_queue = lsn.listen_queue ++ (st.fresh ∷ []);
            }))
        × (st'.owned ≡ st.owned)
        × (st'.established_table h ≡ st.fresh ∷ [])
        × (sent ≡ seg ∷ []))
unfolding tcp_process tcp_state_listen add_child
listen_lem id i cb st lsn at lst linked_node new free =
    let child : Sock = record lsn {
      conn = child_conn lsn.conn cb;
      parent = some i;
      hash_node = copy_node lsn.hash_node;
      bind_node = copy_node lsn.bind_node;
      state = syn_recv;
    } in
    let par : Sock = record lsn {
      state = syn_recv;
      listen_queue = lsn.listen_queue ++ (st.fresh ∷ []);
    } in
    let st₁ = add_child i lsn cb st in
    let apart : i ≢ st.fresh = λ e. none-ne-some lsn (sym new ∙ ap st.socks (sym e) ∙ at) in
    let at_child : st₁.socks st.fresh ≡ some child =
      update_self (put i par st).socks st.fresh (some child) in
    let ((st₂, ok), e₂, (at₂, own₂, est₂, others)) =
      hash_lem st.fresh st₁ child at_child (rw linked_node refl) free in
    Holds→Returns _ _ (
      rw
        (
          at,
          lst,
          tcp_state_listen,
          at,
          tcp_hash-of st.fresh st₁ child syn_recv at_child refl (inr refl),
          e₂,
          send_lem id st.fresh (tcp_syn + tcp_ack) st₂ _ at₂,
        )
        (
          update_self st₂.socks st.fresh _,
          update_of_ne st₂.socks st.fresh i _ apart
              ∙ others i apart
              ∙ update_of_ne (put i par st).socks st.fresh i (some child) apart
              ∙ update_self st.socks i _,
          own₂,
          est₂,
          refl,
        ))

pub update_window_lem :
    (i : ℕ) (cb : TcpCb) (st : Stack) (tsk : Sock) (res : Resources)
    → st.socks i ≡ some tsk
    → st.owned tsk.resources ≡ some res
    → Returns (tcp_update_window i cb st) (λ st'.
      (st'.socks i ≡ some (record tsk { conn = record (tsk.conn) { snd_wnd = cb.rwnd % 2 ^ 16 } }))
      × ((wait : SynchWait) × (st'.owned tsk.resources ≡ some (record res { wait_send = wait })))
      × (st'.established_table ≡ st.established_table)
      × Others i st st')
unfolding tcp_update_window
update_window_lem i cb st tsk res at owns = elim (Bool-cases (tsk.conn.snd_wnd == 0)) [
  | inl shut ↦ Holds→Returns _ _ (
      rw (at, shut, owns)
        (
          update_self st.socks i _,
          ((wake_up res.wait_send).0, update_self st.owned tsk.resources _),
          refl,
          λ j ne. update_of_ne st.socks i j _ ne,
        ))
  | inr open_window ↦ Holds→Returns _ _ (
      rw (at, open_window, owns)
        (
          update_self st.socks i _,
          (res.wait_send, refl),
          refl,
          λ j ne. update_of_ne st.socks i j _ ne,
        ))
]

pub syn_sent_lem :
    (id i : ℕ) (cb : TcpCb) (st : Stack) (tsk : Sock) (res : Resources)
    → st.socks i ≡ some tsk
    → tsk.state ≡ syn_sent
    → cb.flags ≡ tcp_syn + tcp_ack
    → st.owned tsk.resources ≡ some res
    → Returns (tcp_process id i cb st) (λ (st', sent).
      let asked = record (tsk.conn) { rcv_nxt = (cb.seq + 1) % 2 ^ 32 } in
      let (conn, seg) = tcp_send_control_packet id asked tcp_ack in
      (st'.socks i
        ≡ some
            (record tsk { conn = record conn { snd_wnd = cb.rwnd % 2 ^ 16 }; state = established }))
      × ((wait : SynchWait) × (st'.owned tsk.resources
            ≡ some (record res { wait_send = wait; wait_connect = (wake_up res.wait_connect).0 })))
      × (sent ≡ seg ∷ []))
unfolding tcp_process tcp_state_syn_sent establish tcp_set_state
syn_sent_lem id i cb st tsk res at sent both owns =
    let test : (cb.flags == tcp_syn + tcp_ack) ≡ true = ground (arith, both) in
    let asked = record (tsk.conn) { rcv_nxt = (cb.seq + 1) % 2 ^ 32 } in
    let (conn, seg) = tcp_send_control_packet id asked tcp_ack in
    let st₁ = put i (record tsk { conn = asked }) st in
    let st₂ = put i (record tsk { conn = conn }) st₁ in
    let (st₃, e₃, (at₃, (wait, owns₃), est₃, others)) =
      update_window_lem i cb st₂ (record tsk { conn = conn }) res (update_self st₁.socks i _)
        owns in
    Holds→Returns _ _ (
      rw
        (
          at,
          sent,
          tcp_state_syn_sent,
          test,
          at,
          send_lem id i tcp_ack st₁ (record tsk { conn = asked }) (update_self st.socks i _),
          e₃,
          at₃,
          owns₃,
        )
        (update_self st₃.socks i _, (wait, update_self st₃.owned tsk.resources _), refl))

abbrev detached : ℕ → Sock → Sock
detached i par = record par {
  listen_queue = remove i par.listen_queue;
  accept_queue = remove i par.accept_queue;
}

abbrev enqueued : ℕ → Sock → Sock
enqueued i par = record par {
  accept_queue = par.accept_queue ++ (i ∷ []);
  accept_backlog = par.accept_backlog + 1;
}

module _ (i p : ℕ) (st : Stack) (tsk par : Sock) where
  detach_lem :
      st.socks i ≡ some tsk
      → tsk.parent ≡ some p
      → st.socks p ≡ some par
      → detach i st ≡ some (put p (detached i par) st)
  unfolding detach
  detach_lem at child at_p = rw (at, child, at_p) refl

  enqueue_lem :
      st.socks i ≡ some tsk
      → tsk.parent ≡ some p
      → st.socks p ≡ some par
      → i ≢ p
      → tcp_sock_accept_enqueue i st
        ≡ some (put p (enqueued i (detached i par)) (put p (detached i par) st))
  unfolding tcp_sock_accept_enqueue
  enqueue_lem at child at_p apart =
      rw
        (
          detach_lem at child at_p,
          update_of_ne st.socks p i (some (detached i par)) apart,
          at,
          child,
          update_self st.socks p (some (detached i par)),
        )
        refl

  wake_parent_lem :
      (res : Resources)
      → st.socks i ≡ some tsk
      → tsk.parent ≡ some p
      → st.socks p ≡ some par
      → st.owned par.resources ≡ some res
      → wake_parent i st
        ≡ some (own par.resources (record res { wait_accept = (wake_up res.wait_accept).0 }) st)
  unfolding wake_parent
  wake_parent_lem res at child at_p owns = rw (at, child, at_p, owns) refl

pub syn_recv_lem :
    (id i p : ℕ) (cb : TcpCb) (st : Stack) (tsk par : Sock) (res : Resources)
    → st.socks i ≡ some tsk
    → tsk.state ≡ syn_recv
    → tsk.parent ≡ some p
    → st.socks p ≡ some par
    → i ≢ p
    → st.owned tsk.resources ≡ some res
    → par.resources ≡ tsk.resources
    → Returns (tcp_process id i cb st) (λ (st', sent).
      (st'.socks i
        ≡ some (record tsk {
          conn = record (tsk.conn) { snd_wnd = cb.rwnd % 2 ^ 16 };
          state = established;
        }))
      × (st'.socks p
          ≡ some (record par {
            listen_queue = remove i (remove i par.listen_queue);
            accept_queue = remove i (remove i par.accept_queue) ++ (i ∷ []);
            accept_backlog = par.accept_backlog + 1;
          }))
      × ((wait : SynchWait) × (st'.owned tsk.resources
            ≡ some (record res { wait_send = wait; wait_accept = (wake_up res.wait_accept).0 })))
      × (sent ≡ []))
unfolding tcp_process tcp_state_syn_recv tcp_set_state
syn_recv_lem id i p cb st tsk par res at recv child at_p apart owns shared =
    let opened = record (tsk.conn) { snd_wnd = cb.rwnd % 2 ^ 16 } in
    let up : Sock = record tsk { conn = opened; state = established } in
    let (st₁, e₁, (at₁, (wait, owns₁), est₁, others)) = update_window_lem i cb st tsk res at owns in
    let st₂ = put i up st₁ in
    let st₃ = put p (detached i par) st₂ in
    let st₄ =
      put p (enqueued i (detached i (detached i par))) (put p (detached i (detached i par)) st₃) in
    let at₂ : st₂.socks i ≡ some up = update_self st₁.socks i _ in
    let at_p₂ : st₂.socks p ≡ some par =
      update_of_ne st₁.socks i p _ (λ e. apart (sym e)) ∙ others p (λ e. apart (sym e)) ∙ at_p in
    let at₃ : st₃.socks i ≡ some up = update_of_ne st₂.socks p i _ apart ∙ at₂ in
    let at₄ : st₄.socks i ≡ some up =
      update_of_ne (put p (detached i (detached i par)) st₃).socks p i _ apart
      ∙ update_of_ne st₃.socks p i _ apart
      ∙ at₃ in
    let at_p₄ = update_self (put p (detached i (detached i par)) st₃).socks p _ in
    Holds→Returns _ _ (
      rw
        (
          at,
          recv,
          tcp_state_syn_recv,
          e₁,
          at₁,
          detach_lem i p st₂ up par at₂ child at_p₂,
          enqueue_lem i p st₃ up (detached i par) at₃ child (update_self st₂.socks p _) apart,
          wake_parent_lem i p st₄ up (enqueued i (detached i (detached i par)))
              (record res { wait_send = wait }) at₄ child at_p₄ (ap st₁.owned shared ∙ owns₁),
        )
        (
          at₄,
          at_p₄,
          (
            wait,
            ap
                  (λ r.
                    (own r
                        (record res { wait_send = wait; wait_accept = (wake_up res.wait_accept).0 })
                        st₄).owned
                      tsk.resources)
                  shared
                ∙ update_self st₄.owned tsk.resources _,
          ),
          refl,
        ))
