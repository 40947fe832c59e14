-- ===== src/Apps.antt =====
-- 16-tcp_data_transfer/tcp_apps.c: the loops of the server and of the client, a round of each as one
-- step on the host's sockets. What a call of tcp_sock_write still has to send when it sleeps is the
-- last component. `none` is a fault, or the exit when a call fails.
pub mod Echo
pub mod Text
mod Exchange
mod Tests
use network_lab.Base.{
  ℕ, ◌+◌, Bool, List, [], ◌∷◌, ◌++◌, Option, none, some, length, ltb, ◌==◌, if◌then◌else◌, ◌>>=◌,
  c_string,
}
use network_lab.Segment.{Segment}
use network_lab.Tcp.{Sending}
use network_lab.Sock.{Stack, alloc_tcp_sock}
use network_lab.Sock.Table.{tcp_sock_bind}
use network_lab.Sock.Call.{
  tcp_sock_listen, tcp_sock_connect_begin, tcp_sock_read, tcp_sock_write, tcp_sock_close,
}

-- The length that is read at most, and the sizes of the buffers.
abbrev pub read_len : ℕ
read_len = 1000

abbrev pub rbuf_size : ℕ
rbuf_size = 1001

abbrev pub wbuf_size : ℕ
wbuf_size = 1024

-- "server echoes: "
abbrev pub greeting : List ℕ
greeting = 115 ∷ 101 ∷ 114 ∷ 118 ∷ 101 ∷ 114 ∷ 32 ∷ 101 ∷ 99 ∷ 104 ∷ 111 ∷ 101 ∷ 115 ∷ 58 ∷ 32 ∷ []

-- The `wbuf` of the client.
abbrev pub client_text : List ℕ
client_text =
    48 ∷ 49 ∷ 50 ∷ 51 ∷ 52 ∷ 53 ∷ 54 ∷ 55 ∷ 56 ∷ 57 ∷ 97 ∷ 98 ∷ 99 ∷ 100 ∷ 101 ∷ 102 ∷ 103 ∷ 104
    ∷ 105 ∷ 106 ∷ 107 ∷ 108 ∷ 109 ∷ 110 ∷ 111 ∷ 112 ∷ 113 ∷ 114 ∷ 115 ∷ 116 ∷ 117 ∷ 118 ∷ 119 ∷ 120
    ∷ 121 ∷ 122 ∷ 65 ∷ 66 ∷ 67 ∷ 68 ∷ 69 ∷ 70 ∷ 71 ∷ 72 ∷ 73 ∷ 74 ∷ 75 ∷ 76 ∷ 77 ∷ 78 ∷ 79 ∷ 80 ∷ 81
    ∷ 82 ∷ 83 ∷ 84 ∷ 85 ∷ 86 ∷ 87 ∷ 88 ∷ 89 ∷ 90 ∷ []

-- Up to the call of tcp_sock_accept; `rand` is what `rand()` returns.
unfoldable tcp_server_start : (ℕ → ℕ) → ℕ → ℕ → Stack → Option (Stack × ℕ)
tcp_server_start bits rand port st =
    let (st₁, tsk) = alloc_tcp_sock rand st in
    tcp_sock_bind bits tsk port st₁ >>= λ (st₂, bound).
    if bound
    then (tcp_sock_listen tsk 3 st₂ >>= λ (st₃, listens). if listens then some (st₃, tsk) else none)
    else none

-- What ends `rbuf` and what `sprintf` writes, each inside of its buffer.
unfoldable pub print_echo : ℕ → List ℕ → Option (List ℕ)
print_echo rlen rbuf =
    let wbuf = greeting ++ c_string rbuf in
    if ltb rlen rbuf_size then (if ltb (length wbuf) wbuf_size then some wbuf else none) else none

-- A round of tcp_server. No call returns a negative value, so that the loop never ends.
unfoldable pub server_round : (ℕ → ℕ) → ℕ → List ℕ → Stack → Option (Stack × List Segment × List ℕ)
server_round ids csk windows st = tcp_sock_read csk read_len st >>= λ (rlen, rbuf, st₁).
    if rlen == 0
    then some (st₁, [], [])
    else (print_echo rlen rbuf >>= λ wbuf. tcp_sock_write ids csk wbuf windows st₁ >>= λ (st₂, out).
        some (st₂, out.segments, out.left))

-- Up to the sleep in tcp_sock_connect: whether it sleeps.
unfoldable tcp_client_start : (ℕ → ℕ) → ℕ → ℕ → ℕ → ℕ → Stack → Option (Stack × List Segment × Bool)
tcp_client_start bits id rand ip port st =
    let (st₁, tsk) = alloc_tcp_sock rand st in tcp_sock_connect_begin bits id tsk ip port st₁

-- The two halves of a round of tcp_client: what it writes, and what it prints.
unfoldable pub client_write : (ℕ → ℕ) → ℕ → List ℕ → Stack → Option (Stack × List Segment × List ℕ)
client_write ids tsk windows st = tcp_sock_write ids tsk client_text windows st >>= λ (st₁, out).
    some (st₁, out.segments, out.left)

unfoldable pub client_read : ℕ → Stack → Option (Stack × List ℕ)
client_read tsk st = tcp_sock_read tsk read_len st >>= λ (rlen, rbuf, st₁).
    if rlen == 0
    then some (st₁, [])
    else if ltb rlen rbuf_size
    then some (st₁, c_string rbuf)
    else none

-- Behind the loop.
unfoldable tcp_client_end : ℕ → ℕ → Stack → Option (Stack × List Segment)
tcp_client_end id tsk st = tcp_sock_close id tsk st
