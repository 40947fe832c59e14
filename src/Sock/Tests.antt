-- ===== src/Sock/Tests.antt =====
-- A client and a server.

use network_lab.Base.{ℕ, ◌≡◌, refl, [], ◌∷◌, ◌++◌, true, none, some, arith, Returns, update, length}
use network_lab.Hash.{hash8}
use network_lab.Packet.{le16}
use network_lab.Ring.{RingBuffer, ring_buffer_used}
use network_lab.Base.Tabulate.{tabulate_from}
use network_lab.Tcp.{TcpSock, TcpCb, tcp_send_data}
use network_lab.Wait.{wait_init}
use network_lab.Sock.{
  closed, listen, established, time_wait, zeroed, linked, Sock, Stack, Resources, init_tcp_stack,
  put, own,
}
use network_lab.Sock.Table.{le32, tcp_hash_function, tcp_sock_bind}
use network_lab.Sock.Input.{tcp_process}
use network_lab.Sock.Call.{tcp_sock_connect_begin, tcp_sock_read, tcp_sock_close}
use network_lab.Sock.Quiet.{state_of}
use network_lab.Sock.Connect.{local_ip}
use network_lab.Sock.Handshake.{Connected, deliver, handshake}
use network_lab.Sock.Transfer.{transfer}
use network_lab.Sock.TimeWait.{scans, scans_lem}
use network_lab.Sock.Close.{teardown}
use network_lab.Sock.Faults.{IsOrphan, second_request, tcp_sock_bind_taken}

abbrev fresh_sock : Sock
fresh_sock = record {
  conn = record {
    sk_sip = 0;
    sk_sport = 0;
    sk_dip = 0;
    sk_dport = 0;
    snd_nxt = 77;
    rcv_nxt = 0;
    snd_wnd = 0;
    rcv_wnd = 65535;
  };
  parent = none;
  ref_cnt = 0;
  hash_node = zeroed;
  bind_node = zeroed;
  listen_queue = [];
  accept_queue = [];
  accept_backlog = 0;
  backlog = 0;
  timeout = 0;
  resources = 0;
  state = closed;
  snd_una = 0;
}

abbrev ring : RingBuffer
ring = record { size = 4; head = 0; tail = 0; buf = 0 ∷ 0 ∷ 0 ∷ 0 ∷ 0 ∷ [] }

abbrev res : Resources
res = record {
  wait_connect = wait_init;
  wait_accept = wait_init;
  wait_recv = wait_init;
  wait_send = wait_init;
  rcv_buf = ring;
}

abbrev server_ip : ℕ
server_ip = 0x0a000001

-- The socket is at place 0, and place 1 is the next one.
abbrev with_sock : Sock → Stack
with_sock tsk = record (put 0 tsk (own 0 res init_tcp_stack)) { fresh = 1 }

abbrev listener : Sock
listener = record fresh_sock {
  conn = record (fresh_sock.conn) { sk_sport = 10001; snd_nxt = 500 };
  state = listen;
  hash_node = linked;
  bind_node = linked;
  ref_cnt = 2;
  backlog = 128;
}

abbrev server : Stack
server = record (with_sock listener) {
  listen_table = update (λ h. []) (tcp_hash_function 0 0 10001 0) (0 ∷ []);
}

abbrev from_client : TcpSock
from_client = record (fresh_sock.conn) {
  sk_sip = local_ip;
  sk_sport = 12346;
  sk_dip = server_ip;
  sk_dport = 10001;
  snd_wnd = 65535;
}

abbrev to_client : TcpSock
to_client = record (fresh_sock.conn) {
  sk_sip = server_ip;
  sk_sport = 10001;
  sk_dip = local_ip;
  sk_dport = 12346;
  rcv_nxt = 77;
  snd_wnd = 65535;
}

abbrev a_sock : Sock
a_sock = record fresh_sock {
  conn = from_client;
  state = established;
  hash_node = linked;
  bind_node = linked;
  ref_cnt = 2;
}

abbrev b_sock : Sock
b_sock = record fresh_sock { conn = to_client; state = established; hash_node = linked }

-- Every bucket starts with the socket.
abbrev up : Sock → Stack
up tsk = record (with_sock tsk) { established_table = λ h. 0 ∷ [] }

handshake_example :
    Returns
      (tcp_sock_connect_begin (λ p. p) 9 0 server_ip 10001 (with_sock fresh_sock))
      (λ (client₁, syn, waits). Returns (deliver 9 syn server) (λ (server₁, syn_ack).
        Returns (deliver 9 syn_ack client₁) (λ (client₂, ack).
          Returns (deliver 9 ack server₁) (λ (server₂, nothing).
            (a : Sock) × (b : Sock) × (par : Sock) × (client₂.socks 0 ≡ some a)
            × (server₂.socks 1 ≡ some b)
            × Connected a b
            × (server₂.socks 0 ≡ some par)
            × (par.accept_queue ≡ 1 ∷ [])
            × (nothing ≡ [])))))
unfolding tcp_hash_function le32 le16 hash8
handshake_example =
    handshake (λ p. p) 9 0 0 server_ip 10001 (with_sock fresh_sock) server fresh_sock listener res
      res
      (record {
        at = refl;
        unhashed = refl;
        unbound = refl;
        owns = refl;
        port_free = refl;
        bucket_free = refl;
      })
      (record {
        at = refl;
        listens = refl;
        hashed = refl;
        owns = refl;
        first = refl;
        bucket_free = refl;
        new = refl;
        none_waits = refl;
      })

transfer_example : Returns (tcp_send_data (λ i. i) from_client (7 ∷ 8 ∷ 9 ∷ []) (5 ∷ [])) (λ out.
    Returns (deliver 9 out.segments (up b_sock)) (λ (st', answers).
      (answers ≡ [])
      × Returns
          (tcp_sock_read 0 3 st')
          (λ (len, bytes, st''). (len ≡ length bytes) × (bytes ++ out.left ≡ 7 ∷ 8 ∷ 9 ∷ []))))
unfolding ring_buffer_used tabulate_from
transfer_example =
    transfer (λ i. i) 9 0 from_client (7 ∷ 8 ∷ 9 ∷ []) (5 ∷ []) (up b_sock) b_sock res
      (omega arith, tt)
      (record {
        at = refl;
        up = refl;
        owns = refl;
        first = refl;
        valid = record {
          positive = omega arith;
          storage = omega arith;
          head_in = omega arith;
          tail_in = omega arith;
        };
      })
      refl (omega arith)

teardown_example : Returns (tcp_sock_close 9 0 (up a_sock)) (λ (client₁, fin).
    Returns (deliver 9 fin (up b_sock)) (λ (server₁, ack).
      Returns (deliver 9 ack client₁) (λ (client₂, nothing).
        Returns (tcp_sock_close 9 0 server₁) (λ (server₂, fin').
          Returns (deliver 9 fin' client₂) (λ (client₃, ack').
            Returns (deliver 9 ack' server₂) (λ (server₃, nothing').
              (nothing ≡ [])
              × (nothing' ≡ [])
              × (state_of server₃ 0 ≡ some closed)
              × Returns (scans 20 client₃) (λ client₄. state_of client₄ 0 ≡ some closed)))))))
teardown_example =
    teardown 9 0 0 (up a_sock) (up b_sock) a_sock b_sock (record { at = refl; first = refl })
      (record { at = refl; first = refl })
      (record {
        up = refl;
        no_parent = refl;
        bound = refl;
        referred = omega arith;
        no_timer = refl;
      })
      refl

abbrev waiting : Sock
waiting = record a_sock { state = time_wait; timeout = 300000; ref_cnt = 3 }

abbrev waits : Stack
waits = record (up waiting) { timer_list = 0 ∷ [] }

scans_lem_example :
    Returns (scans 2 waits) (λ st'. state_of st' 0 ≡ some time_wait)
    × Returns (scans 3 waits) (λ st'. (state_of st' 0 ≡ some closed) × (st'.timer_list ≡ []))
scans_lem_example =
    scans_lem 2 2 waits 0 waiting
      (record {
        at = refl;
        timers = refl;
        waits = refl;
        no_parent = refl;
        bound = refl;
        referred = omega arith;
        left = refl;
      })
      (omega arith)

-- A SYN of the client, by its fields.
abbrev syn : TcpCb
syn = record {
  saddr = local_ip;
  daddr = server_ip;
  sport = 12346;
  dport = 10001;
  seq = 77;
  seq_end = 78;
  ack = 0;
  payload = [];
  pl_len = 0;
  rwnd = 65535;
  flags = 2;
}

second_request_example :
    Returns
      (tcp_process 9 0 syn server)
      (λ (st', sent). tcp_process 9 0 (record syn { sport = 12347 }) st' ≡ none)
second_request_example =
    second_request 9 9 0 syn (record syn { sport = 12347 }) server listener res refl refl refl refl
      refl refl refl

-- Places 0 and 1 have port 10001 and none.
abbrev bound : Stack
bound = record (put 1 fresh_sock server) {
  bind_table = update (λ h. []) (tcp_hash_function 0 0 10001 0) (0 ∷ []);
}

tcp_sock_bind_taken_example : Returns (tcp_sock_bind (λ p. p) 1 10001 bound) (λ (st', ok).
    (ok ≡ true)
    × (st'.socks 1
        ≡ some (record fresh_sock {
          conn = record (fresh_sock.conn) { sk_sport = 10001 };
          bind_node = linked;
          ref_cnt = 1;
        }))
    × (st'.bind_table (tcp_hash_function 0 0 10001 0) ≡ 1 ∷ 0 ∷ []))
unfolding tcp_hash_function le32 le16 hash8 IsOrphan
tcp_sock_bind_taken_example =
    tcp_sock_bind_taken (λ p. p) 1 10001 bound fresh_sock refl refl refl refl
      ((listener, refl, refl), tt)
