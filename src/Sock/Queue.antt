-- ===== src/Sock/Queue.antt =====
-- The listen queue and the accept queue of tcp_sock.c.
use network_lab.Base.{
  ℕ, ◌+◌, ◌-◌, Bool, List, [], ◌∷◌, ◌++◌, Option, none, some, leb, ◌>>=◌, remove,
}
use network_lab.Sock.{syn_recv, Sock, Stack, put, free_tcp_sock}
use network_lab.Sock.Table.{tcp_unhash}

abbrev pub tcp_max_backlog : ℕ
tcp_max_backlog = 128

unfoldable tcp_sock_accept_queue_full : Sock → Bool
tcp_sock_accept_queue_full tsk = leb tsk.backlog tsk.accept_backlog

-- `list_delete_entry(&tsk->list)`: the node is on a queue of the parent, or on none.
unfoldable pub detach : ℕ → Stack → Option Stack
detach i st = st.socks i >>= λ tsk. elim tsk.parent [
  | none ↦ some st
  | some p ↦ st.socks p >>= λ par. some (
      put p
        (record par {
          listen_queue = remove i par.listen_queue;
          accept_queue = remove i par.accept_queue;
        })
        st)
]

unfoldable pub tcp_sock_accept_enqueue : ℕ → Stack → Option Stack
tcp_sock_accept_enqueue i st = detach i st >>= λ st'. st'.socks i >>= λ tsk. tsk.parent >>= λ p.
    st'.socks p >>= λ par. some (
      put p
        (record par {
          accept_queue = par.accept_queue ++ (i ∷ []);
          accept_backlog = par.accept_backlog + 1;
        })
        st')

-- With an empty queue the head of the queue is taken for the node of a socket.
unfoldable pub tcp_sock_accept_dequeue : ℕ → Stack → Option (Stack × ℕ)
tcp_sock_accept_dequeue i st = st.socks i >>= λ tsk. elim tsk.accept_queue [
  | [] ↦ none
  | c ∷ queue ↦ st.socks c >>= λ new_tsk.
      some
        (put i (record tsk { accept_queue = queue; accept_backlog = tsk.accept_backlog - 1 }) st, c)
]

unfoldable tcp_sock_listen_dequeue : ℕ → Stack → Option (Stack × ℕ)
tcp_sock_listen_dequeue i st = st.socks i >>= λ tsk. elim tsk.listen_queue [
  | [] ↦ none
  | c ∷ queue ↦ st.socks c >>= λ new_tsk. some (put i (record tsk { listen_queue = queue }) st, c)
]

-- A socket that a connection was asked of, and that has not come up.
unfoldable pub drop_child : ℕ → Stack → Option Stack
drop_child c st = st.socks c >>= λ child. elim child.state [
  | syn_recv ↦
      tcp_unhash c (put c (record child { parent = none }) st) >>= λ st'. free_tcp_sock c st'
  | _ ↦ some st
]

unfoldable pub clear_from : List ℕ → Stack → Option Stack
clear_from [] st = some st
clear_from (c ∷ queue) st = drop_child c st >>= λ st'. clear_from queue st'

-- The loop takes the sockets off the queue one by one; nothing in it looks at the queue.
unfoldable pub tcp_sock_clear_listen_queue : ℕ → Stack → Option Stack
tcp_sock_clear_listen_queue i st =
    st.socks i >>= λ tsk. clear_from tsk.listen_queue (put i (record tsk { listen_queue = [] }) st)
