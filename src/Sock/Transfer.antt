-- ===== src/Sock/Transfer.antt =====
-- Data from one host to the other: tcp_sock_write, the segments, and tcp_sock_read.

use network_lab.Base.{
  ℕ, ◌+◌, ◌<◌, ◌≤◌, ◌≡◌, refl, sym, ◌∙◌, ap, true, List, [], ◌++◌, some, arith, Returns,
  Holds→Returns, inl, inr, Bool-cases, ==_iff, length, take, length-append, length-take, take-all,
  take-min, update_self, Every, at_some,
}
use network_lab.Base.Tabulate.{tabulate_from}
use network_lab.Ring.{RingBuffer, ring_buffer_empty, ring_buffer_used, read_ring_buffer}
use network_lab.Ring.Valid.{IsValid}
use network_lab.Ring.Contents.{contents, entry}
use network_lab.Ring.Refine.{read_refines}
use network_lab.Tcp.{TcpSock, Sending, tcp_send_data}
use network_lab.Tcp.Data.{payloads, tcp_send_data-Delivers}
use network_lab.Tcp.Stream.{SameTuple, same_tuple, tcp_send_data-IsRead}
use network_lab.Sock.{Sock, Stack, Resources}
use network_lab.Sock.Call.{tcp_sock_read}
use network_lab.Sock.Receive.{CanReceive, receive_all}
use network_lab.Sock.Handshake.{deliver}

contents-empty : (r : RingBuffer) → ring_buffer_empty r ≡ true → contents r ≡ []
unfolding ring_buffer_empty tabulate_from
contents-empty r empty =
    ap (λ n. tabulate_from 0 n (entry r)) ((==_iff (ring_buffer_used r) 0).0 empty)

-- What a read does to the socket and gives back.
pub record IsReadFrom (tsk : Sock) (res : Resources) (n i : ℕ) (out : ℕ × List ℕ × Stack)
    : Type 0 where
  pub bytes : out.1 ≡ take n (contents res.rcv_buf)
  pub count : out.0 ≡ length out.1
  pub socket :
      (conn : TcpSock) × (out.2.socks i ≡ some (record tsk { conn = conn }))
      × SameTuple conn tsk.conn

-- With a ring that is empty, nothing is read; else what read_ring_buffer gives.
pub read_lem :
    (i n : ℕ) (st : Stack) (tsk : Sock) (res : Resources)
    → st.socks i ≡ some tsk
    → st.owned tsk.resources ≡ some res
    → IsValid res.rcv_buf
    → Returns (tcp_sock_read i n st) (IsReadFrom tsk res n i)
unfolding tcp_sock_read
read_lem i n st tsk res at owns valid = elim (Bool-cases (ring_buffer_empty res.rcv_buf)) [
  | inl empty ↦ Holds→Returns _ _ (
      rw (at, owns, empty)
        (record {
          bytes =
              sym (ap (take n) (contents-empty res.rcv_buf empty) ∙ take-all n [] (omega arith));
          count = refl;
          socket = (tsk.conn, at, same_tuple _);
        }))
  | inr filled ↦
      let (counted, taken, left) = read_refines n valid in
      let bytes : (read_ring_buffer res.rcv_buf n).1 ≡ take n (contents res.rcv_buf) =
        taken
        ∙ ap (λ k. take k (contents res.rcv_buf)) counted
        ∙ take-min n (contents res.rcv_buf) in
      Holds→Returns _ _ (
        rw (at, owns, filled)
          (record {
            bytes = bytes;
            count =
                counted
                ∙ sym (length-take n (contents res.rcv_buf) ∙ omega arith)
                ∙ ap length (sym bytes);
            socket = (
              _,
              update_self st.socks i _,
              record { sip = refl; sport = refl; dip = refl; dport = refl },
            );
          }))
]

-- The segments of a call of tcp_send_data, at the socket that they are for.
pub deliver-tcp_send_data :
    (ids : ℕ → ℕ) (id i : ℕ) (conn : TcpSock) (buf windows : List ℕ) (out : Sending) (st : Stack)
    (tsk : Sock) (res : Resources)
    → Every (λ w. 0 < w) windows
    → CanReceive st i tsk res conn
    → contents res.rcv_buf ≡ []
    → length buf < res.rcv_buf.size
    → tcp_send_data ids conn buf windows ≡ some out
    → (payloads out.segments ++ out.left ≡ buf)
      × Returns (deliver id out.segments st) (λ (st', answers).
        (tsk' : Sock) × (res' : Resources) × CanReceive st' i tsk' res' conn
        × SameTuple tsk'.conn tsk.conn
        × (contents res'.rcv_buf ≡ payloads out.segments)
        × (answers ≡ []))
deliver-tcp_send_data ids id i conn buf windows out st tsk res wide can empty room sends =
    let (out', sends', d) = tcp_send_data-Delivers ids conn buf windows in
    let content : payloads out.segments ++ out.left ≡ buf =
      at_some (λ (o : Sending). payloads o.segments ++ o.left ≡ buf) sends' sends d.content in
    let total : length (payloads out.segments) + length out.left ≡ length buf =
      sym (length-append (payloads out.segments) out.left) ∙ ap length content in
    let (done, e, (tsk', res', can', same, holds, nothing)) =
      receive_all id i out.segments st tsk res conn can
        (tcp_send_data-IsRead ids conn buf windows out wide sends)
        (rw empty (omega (arith, total, room))) in
    (
      content,
      (
        done,
        e,
        (tsk', res', can', same, holds ∙ ap (λ xs. xs ++ payloads out.segments) empty, nothing),
      ),
    )

-- What one side writes, the other reads, in order. The receiving socket is up, alone in its bucket, and has an empty
-- ring with room for the data; the windows that wake the sender are open. Then the call of
-- tcp_send_data ends, its segments are received without a fault or an answer, and a read as long as
-- the data returns all but the bytes that the call still has to send.
pub transfer :
    (ids : ℕ → ℕ) (id i : ℕ) (conn : TcpSock) (buf windows : List ℕ) (st : Stack) (tsk : Sock)
    (res : Resources)
    → Every (λ w. 0 < w) windows
    → CanReceive st i tsk res conn
    → contents res.rcv_buf ≡ []
    → length buf < res.rcv_buf.size
    → Returns (tcp_send_data ids conn buf windows) (λ out.
      Returns (deliver id out.segments st) (λ (st', answers).
        (answers ≡ [])
        × Returns
            (tcp_sock_read i (length buf) st')
            (λ (len, bytes, st''). (len ≡ length bytes) × (bytes ++ out.left ≡ buf))))
transfer ids id i conn buf windows st tsk res wide can empty room =
    let (out, e, d) = tcp_send_data-Delivers ids conn buf windows in
    let (content, ((st', answers), e', (tsk', res', can', same, all, nothing))) =
      deliver-tcp_send_data ids id i conn buf windows out st tsk res wide can empty room e in
    let (given, e'', read) = read_lem i (length buf) st' tsk' res' can'.at can'.owns can'.valid in
    let few : length (contents res'.rcv_buf) ≤ length buf =
      omega
        (arith, ap length all, length-append (payloads out.segments) out.left, ap length content) in
    let whole : given.1 ≡ contents res'.rcv_buf =
      read.bytes ∙ take-all (length buf) (contents res'.rcv_buf) few in
    (
      out,
      e,
      (
        (st', answers),
        e',
        (nothing, (given, e'', (read.count, ap (λ xs. xs ++ out.left) (whole ∙ all) ∙ content))),
      ),
    )
