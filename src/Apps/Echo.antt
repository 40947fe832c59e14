-- ===== src/Apps/Echo.antt =====
-- What the client of tcp_apps.c prints of what it has written.

use network_lab.Base.{
  ℕ, ◌+◌, ◌≤◌, ◌≡◌, refl, ap, subst, true, false, List, [], ◌∷◌, ◌++◌, some, arith, length, take,
  length-take, length-append, ltb, ◌==◌, if◌then◌else◌, ◌>>=◌, Returns, at_some, c_string,
}
use network_lab.Segment.{Segment}
use network_lab.Ring.Valid.{IsValid}
use network_lab.Ring.Contents.{contents}
use network_lab.Tcp.{TcpSock, Sending, tcp_send_data, send_loop}
use network_lab.Tcp.Data.{payloads, tcp_send_data-Delivers}
use network_lab.Tcp.Stream.{SameTuple}
use network_lab.Sock.{Sock, Stack, Resources, put}
use network_lab.Sock.Call.{tcp_sock_write}
use network_lab.Sock.Transfer.{read_lem}
use network_lab.Apps.{read_len, rbuf_size, wbuf_size, greeting, print_echo, server_round}

-- What the server makes of what it reads.
abbrev pub reply : List ℕ → List ℕ
reply [] = []
reply (b ∷ bytes) = greeting ++ c_string (b ∷ bytes)

length-c_string : (buf : List ℕ) → length (c_string buf) ≤ length buf
length-c_string [] = omega arith
length-c_string (c ∷ buf) = ground (arith, length-c_string buf)

pub length-reply : (bytes : List ℕ) → length (reply bytes) ≤ 15 + length bytes
length-reply [] = omega arith
length-reply (b ∷ bytes) =
    omega (arith, length-append greeting (c_string (b ∷ bytes)), length-c_string (b ∷ bytes))

-- Both buffers are long enough.
print_echo_lem :
    (rbuf : List ℕ)
    → length rbuf ≤ read_len
    → print_echo (length rbuf) rbuf ≡ some (greeting ++ c_string rbuf)
unfolding print_echo
print_echo_lem rbuf few =
    let ends : ltb (length rbuf) rbuf_size ≡ true = ground (arith, few) in
    let fits : ltb (length (greeting ++ c_string rbuf)) wbuf_size ≡ true =
      ground (arith, length-c_string rbuf, length-append greeting (c_string rbuf), few) in
    rw (ends, fits) refl

-- A round as the call of tcp_send_data that it makes, with nothing to send if nothing is read.
abbrev pub IsRound : (ℕ → ℕ) → List ℕ → List ℕ → TcpSock → Stack × List Segment × List ℕ → Type 0
IsRound ids windows bytes conn (st, segments, left) =
    (conn' : TcpSock) × SameTuple conn' conn
    × ((out : Sending) × (tcp_send_data ids conn' (reply bytes) windows ≡ some out)
        × (segments ≡ out.segments)
        × (left ≡ out.left))

nothing_to_send :
    (ids : ℕ → ℕ) (conn : TcpSock) (windows : List ℕ)
    → tcp_send_data ids conn [] windows ≡ some (record { tsk = conn; segments = []; left = [] })
unfolding tcp_send_data send_loop
nothing_to_send ids conn [] = refl
nothing_to_send ids conn (w ∷ windows) = refl

-- The part behind the read.
answer_lem :
    (ids : ℕ → ℕ) (i : ℕ) (windows rbuf : List ℕ) (st : Stack) (tsk : Sock) (conn : TcpSock)
    → st.socks i ≡ some (record tsk { conn = conn })
    → SameTuple conn tsk.conn
    → length rbuf ≤ read_len
    → Returns
        (if length rbuf == 0
          then some (st, [], [])
          else (print_echo (length rbuf) rbuf >>= λ wbuf.
              tcp_sock_write ids i wbuf windows st >>= λ (st₂, out).
              some (st₂, out.segments, out.left)))
        (IsRound ids windows rbuf tsk.conn)
unfolding tcp_sock_write
answer_lem ids i windows [] st tsk conn at same few = (
  (st, [], []),
  refl,
  (
    conn,
    same,
    (record { tsk = conn; segments = []; left = [] }, nothing_to_send ids conn windows, refl, refl),
  ),
)
answer_lem ids i windows (b ∷ rbuf) st tsk conn at same few =
    let (out, e, d) = tcp_send_data-Delivers ids conn (greeting ++ c_string (b ∷ rbuf)) windows in
    let some_bytes : (length (b ∷ rbuf) == 0) ≡ false = ground arith in
    (
      (put i (record tsk { conn = out.tsk }) st, out.segments, out.left),
      rw (some_bytes, print_echo_lem (b ∷ rbuf) few, at, e) refl,
      (conn, same, (out, e, refl, refl)),
    )

pub round_lem :
    (ids : ℕ → ℕ) (i : ℕ) (windows : List ℕ) (st : Stack) (tsk : Sock) (res : Resources)
    → st.socks i ≡ some tsk
    → st.owned tsk.resources ≡ some res
    → IsValid res.rcv_buf
    → Returns
        (server_round ids i windows st)
        (IsRound ids windows (take read_len (contents res.rcv_buf)) tsk.conn)
unfolding server_round
round_lem ids i windows st tsk res at owns valid =
    let ((rlen, rbuf, st₁), e, read) = read_lem i read_len st tsk res at owns valid in
    let (conn, at₁, same) = read.socket in
    let few : length rbuf ≤ read_len =
      omega (arith, ap length read.bytes, length-take read_len (contents res.rcv_buf)) in
    let (out, e', result) = answer_lem ids i windows rbuf st₁ tsk conn at₁ same few in
    (
      out,
      rw (e, read.count) e',
      subst (λ bytes. IsRound ids windows bytes tsk.conn out) read.bytes result,
    )

-- A round of the server on a socket with a valid ring: it does not fault, neither buffer is written
-- behind its end, and what it sends and what is left to send are the reply to the first 1000 bytes
-- that there are.
pub server_round_lem :
    (ids : ℕ → ℕ) (i : ℕ) (windows : List ℕ) (st : Stack) (tsk : Sock) (res : Resources)
    → st.socks i ≡ some tsk
    → st.owned tsk.resources ≡ some res
    → IsValid res.rcv_buf
    → Returns (server_round ids i windows st) (λ (st', segments, left).
      payloads segments ++ left ≡ reply (take 1000 (contents res.rcv_buf)))
server_round_lem ids i windows st tsk res at owns valid =
    let (out, e, (conn, same, (sent, e', segments, left))) =
      round_lem ids i windows st tsk res at owns valid in
    let (sent', e'', d) =
      tcp_send_data-Delivers ids conn (reply (take read_len (contents res.rcv_buf))) windows in
    let content =
      at_some
        (λ (o : Sending).
          payloads o.segments ++ o.left ≡ reply (take read_len (contents res.rcv_buf)))
        e'' e' d.content in
    (out, e, rw (segments, left) content)
