-- ===== src/Sock.antt =====
-- The tcp sockets of 16-tcp_data_transfer (tcp_sock.c, tcp_in.c and tcp_timer.c): their memory, and
-- how they are allocated and released. A pointer to a socket is a number, its
-- place in a store; a list is the list of the sockets on it. `none` is what ends or corrupts the
-- process: a null pointer or one to released memory is followed, a node that is on a list is put on
-- another one or is deleted twice, an assertion fails, or `exit` is called.
pub mod Table
pub mod Queue
pub mod Timer
pub mod Input
pub mod Call
pub mod Quiet
pub mod Connect
pub mod Passive
pub mod Handshake
pub mod Receive
pub mod Transfer
pub mod TimeWait
pub mod Teardown
pub mod Close
pub mod Faults
mod Tests
use network_lab.Base.{
  ℕ, ◌+◌, ◌-◌, ◌%◌, ◌^◌, List, [], Option, none, some, leb, if◌then◌else◌, ◌>>=◌, update,
}
use network_lab.Ring.{RingBuffer, alloc_ring_buffer}
use network_lab.Segment.{tcp_default_window}
use network_lab.Tcp.{TcpSock}
use network_lab.Wait.{SynchWait, wait_init}

pub data TcpState : Type 0 where
  closed listen syn_recv syn_sent established close_wait last_ack fin_wait_1 fin_wait_2 closing
        time_wait :
      TcpState

-- A node of a list: as `memset` leaves it, on a list, or with pointers that are not its own any more.
pub data Node : Type 0 where
  zeroed linked stale : Node

-- What a socket points to. The five pointers are set by one call, copied together and released
-- together, so that they are one pointer here.
pub record Resources : Type 0 where
  pub wait_connect : SynchWait
  pub wait_accept : SynchWait
  pub wait_recv : SynchWait
  pub wait_send : SynchWait
  pub rcv_buf : RingBuffer

-- `struct tcp_sock`; `conn` has the fields that the sending functions use.
pub record Sock : Type 0 where
  pub conn : TcpSock
  pub parent : Option ℕ
  pub ref_cnt : ℕ
  pub hash_node : Node
  pub bind_node : Node
  pub listen_queue : List ℕ
  pub accept_queue : List ℕ
  pub accept_backlog : ℕ
  pub backlog : ℕ
  pub timeout : ℕ
  pub resources : ℕ
  pub state : TcpState
  pub snd_una : ℕ

-- The sockets, what they point to, the next free place, `struct tcp_hash_table` and timer_list.
pub record Stack : Type 0 where
  pub socks : ℕ → Option Sock
  pub owned : ℕ → Option Resources
  pub fresh : ℕ
  pub established_table : ℕ → List ℕ
  pub listen_table : ℕ → List ℕ
  pub bind_table : ℕ → List ℕ
  pub timer_list : List ℕ

abbrev pub put : ℕ → Sock → Stack → Stack
put i tsk st = record st { socks = update st.socks i (some tsk) }

abbrev pub own : ℕ → Resources → Stack → Stack
own r res st = record st { owned = update st.owned r (some res) }

-- The three tables are empty. (The timer thread empties its list.)
abbrev pub init_tcp_stack : Stack
init_tcp_stack = record {
  socks = λ i. none;
  owned = λ r. none;
  fresh = 0;
  established_table = λ h. [];
  listen_table = λ h. [];
  bind_table = λ h. [];
  timer_list = [];
}

unfoldable pub tcp_set_state : ℕ → TcpState → Stack → Option Stack
tcp_set_state i s st = st.socks i >>= λ tsk. some (put i (record tsk { state = s }) st)

-- `rand` is what `rand()` returns; the result has the new socket's place.
unfoldable pub alloc_tcp_sock : ℕ → Stack → Stack × ℕ
alloc_tcp_sock rand st =
    let tsk : Sock = record {
      conn = record {
        sk_sip = 0;
        sk_sport = 0;
        sk_dip = 0;
        sk_dport = 0;
        snd_nxt = rand % 2 ^ 32;
        rcv_nxt = 0;
        snd_wnd = 0;
        rcv_wnd = tcp_default_window;
      };
      parent = none;
      ref_cnt = 0;
      hash_node = zeroed;
      bind_node = zeroed;
      listen_queue = [];
      accept_queue = [];
      accept_backlog = 0;
      backlog = 0;
      timeout = 0;
      resources = st.fresh;
      state = closed;
      snd_una = 0;
    } in
    let res : Resources = record {
      wait_connect = wait_init;
      wait_accept = wait_init;
      wait_recv = wait_init;
      wait_send = wait_init;
      rcv_buf = alloc_ring_buffer tcp_default_window;
    } in
    (record (put st.fresh tsk (own st.fresh res st)) { fresh = st.fresh + 1 }, st.fresh)

unfoldable pub tcp_sock_inc_ref_cnt : ℕ → Stack → Option Stack
tcp_sock_inc_ref_cnt i st =
    st.socks i >>= λ tsk. some (put i (record tsk { ref_cnt = tsk.ref_cnt + 1 }) st)

-- The count is an `int`; a socket with a count of 0 or less has been released, so that no negative
-- one is stored.
unfoldable pub free_tcp_sock : ℕ → Stack → Option Stack
free_tcp_sock i st = st.socks i >>= λ tsk.
    if leb tsk.ref_cnt 1
    then (st.owned tsk.resources >>= λ res.
        some (record st {
          socks = update st.socks i none;
          owned = update st.owned tsk.resources none;
        }))
    else some (put i (record tsk { ref_cnt = tsk.ref_cnt - 1 }) st)
