-- ===== src/Apps/Tests.antt =====
-- A host with one connection, and rings that hold a round.
use network_lab.Base.{◌≡◌, refl, [], ◌∷◌, ◌++◌, replicate, none, arith, Returns, take}
use network_lab.Ring.{RingBuffer, ring_buffer_used}
use network_lab.Ring.Valid.{IsValid}
use network_lab.Ring.Contents.{contents}
use network_lab.Base.Tabulate.{tabulate_from}
use network_lab.Tcp.{TcpSock}
use network_lab.Tcp.Data.{payloads}
use network_lab.Wait.{wait_init}
use network_lab.Sock.{established, linked, Sock, Stack, Resources, init_tcp_stack, put, own}
use network_lab.Sock.Handshake.{deliver}
use network_lab.Sock.Receive.{CanReceive}
use network_lab.Apps.{client_text, server_round, client_write, client_read}
use network_lab.Apps.Echo.{reply, server_round_lem}
use network_lab.Apps.Exchange.{exchange}

abbrev ring : RingBuffer
ring = record { size = 99; head = 0; tail = 0; buf = replicate 100 0 }

-- "hi!" has come.
abbrev filled : RingBuffer
filled = record ring { tail = 3; buf = 104 ∷ 105 ∷ 33 ∷ replicate 97 0 }

abbrev res : RingBuffer → Resources
res r = record {
  wait_connect = wait_init;
  wait_accept = wait_init;
  wait_recv = wait_init;
  wait_send = wait_init;
  rcv_buf = r;
}

abbrev to_server : TcpSock
to_server = record {
  sk_sip = 0x0a000002;
  sk_sport = 12345;
  sk_dip = 0x0a000001;
  sk_dport = 10001;
  snd_nxt = 1;
  rcv_nxt = 1;
  snd_wnd = 65535;
  rcv_wnd = 65535;
}

abbrev to_client : TcpSock
to_client = record to_server {
  sk_sip = 0x0a000001;
  sk_sport = 10001;
  sk_dip = 0x0a000002;
  sk_dport = 12345;
}

abbrev sock : TcpSock → Sock
sock conn = record {
  conn = conn;
  parent = none;
  ref_cnt = 2;
  hash_node = linked;
  bind_node = linked;
  listen_queue = [];
  accept_queue = [];
  accept_backlog = 0;
  backlog = 0;
  timeout = 0;
  resources = 0;
  state = established;
  snd_una = 0;
}

-- Every bucket starts with the socket.
abbrev host : RingBuffer → TcpSock → Stack
host r conn = record (put 0 (sock conn) (own 0 (res r) init_tcp_stack)) {
  established_table = λ h. 0 ∷ [];
}

ring-IsValid : IsValid ring
ring-IsValid = record {
  positive = omega arith;
  storage = omega arith;
  head_in = omega arith;
  tail_in = omega arith;
}

filled-IsValid : IsValid filled
filled-IsValid = record {
  positive = omega arith;
  storage = omega arith;
  head_in = omega arith;
  tail_in = omega arith;
}

host-CanReceive :
    (conn conn' : TcpSock) → CanReceive (host ring conn) 0 (sock conn) (res ring) conn'
host-CanReceive conn conn' = record {
  at = refl;
  up = refl;
  owns = refl;
  first = refl;
  valid = ring-IsValid;
}

server_round_lem_example :
    Returns
      (server_round (λ i. i) 0 (5 ∷ []) (host filled to_client))
      (λ (st', segments, left). payloads segments ++ left ≡ reply (take 1000 (contents filled)))
server_round_lem_example =
    server_round_lem (λ i. i) 0 (5 ∷ []) (host filled to_client) (sock to_client) (res filled) refl
      refl filled-IsValid

exchange_example :
    Returns (client_write (λ i. i) 0 (5 ∷ []) (host ring to_server)) (λ (client₁, request, unsent).
      (unsent ≡ [])
      × Returns (deliver 9 request (host ring to_client)) (λ (server₁, nothing).
        (nothing ≡ [])
        × Returns (server_round (λ i. i) 0 (7 ∷ []) server₁) (λ (server₂, answer, unsent').
          Returns (deliver 9 answer client₁) (λ (client₂, nothing').
            (nothing' ≡ [])
            × Returns
                (client_read 0 client₂)
                (λ (client₃, printed). printed ++ unsent' ≡ reply client_text)))))
unfolding ring_buffer_used tabulate_from
exchange_example =
    exchange (λ i. i) 9 0 0 (5 ∷ []) (7 ∷ []) (host ring to_client) (host ring to_server)
      (sock to_server) (sock to_client) (res ring) (res ring) (omega arith, tt) (omega arith, tt)
      (host-CanReceive to_client to_server) (host-CanReceive to_server to_client) (omega arith)
      (omega arith) refl refl (omega arith) (omega arith)
