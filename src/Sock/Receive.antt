-- ===== src/Sock/Receive.antt =====
-- Data segments at the socket that they are for: handle_tcp_packet and the ring.
use mathlib.Core.Option
use mathlib.Core.Option.{none-ne-some, some-injective}
use network_lab.Base.{
  ℕ, ◌+◌, ◌%◌, ◌^◌, ◌<◌, ◌≡◌, refl, sym, ◌∙◌, ap, true, false, List, [], ◌∷◌, ◌++◌, some, arith,
  Returns, Holds→Returns, Option-cases, inl, inr, length, take, length-append, append_assoc,
  append-nil, update_self, Every,
}
use network_lab.Segment.{Segment, tcp_fin, tcp_psh, has_flag}
use network_lab.Ring.{RingBuffer, write_ring_buffer}
use network_lab.Ring.Valid.{IsValid, write-IsValid}
use network_lab.Ring.Contents.{contents}
use network_lab.Ring.Queue.{size-write, take-length}
use network_lab.Ring.Refine.{write_refines}
use network_lab.Wait.{SynchWait}
use network_lab.Tcp.{TcpSock, TcpCb, tcp_cb_init}
use network_lab.Tcp.Data.{payloads}
use network_lab.Tcp.Stream.{SameTuple, same_tuple, SameTuple-trans, IsRead}
use network_lab.Sock.{established, Sock, Stack, Resources, put, own}
use network_lab.Sock.Table.{tcp_hash_function}
use network_lab.Sock.Input.{handle_tcp_packet, tcp_process, process_established, receive_data}
use network_lab.Sock.Passive.{update_window_lem}
use network_lab.Sock.Handshake.{deliver, handle_one, lookup_first}

receive_lem :
    (id i : ℕ) (cb : TcpCb) (st : Stack) (tsk : Sock) (res : Resources) (rbuf : RingBuffer)
    → st.socks i ≡ some tsk
    → tsk.state ≡ established
    → st.owned tsk.resources ≡ some res
    → has_flag cb.flags tcp_fin ≡ false
    → has_flag cb.flags tcp_psh ≡ true
    → write_ring_buffer res.rcv_buf cb.payload cb.pl_len ≡ some rbuf
    → Returns (tcp_process id i cb st) (λ (st', sent).
      ((conn : TcpSock) × (st'.socks i ≡ some (record tsk { conn = conn; state = established }))
        × SameTuple conn tsk.conn)
      × ((wait : SynchWait) × (st'.owned tsk.resources
            ≡ some (record res { rcv_buf = rbuf; wait_send = wait })))
      × (st'.established_table ≡ st.established_table)
      × (sent ≡ []))
unfolding tcp_process process_established receive_data
receive_lem id i cb st tsk res rbuf at up owns no_fin psh written =
    let conn₂ = record (tsk.conn) { rcv_nxt = (cb.seq + 1) % 2 ^ 32; snd_wnd = cb.rwnd % 2 ^ 16 } in
    let tsk₁ = record tsk { conn = record (tsk.conn) { rcv_nxt = (cb.seq + 1) % 2 ^ 32 } } in
    let st₁ = own tsk.resources (record res { rcv_buf = rbuf }) (put i tsk₁ st) in
    let (st₂, e₂, (at₂, (wait, owns₂), est₂, others)) =
      update_window_lem i cb st₁ tsk₁ (record res { rcv_buf = rbuf }) (update_self st.socks i _)
        (update_self st.owned tsk.resources _) in
    Holds→Returns _ _ (
      rw (at, up, process_established, no_fin, psh, at, owns, written, e₂)
        (
          (
            conn₂,
            at₂ ∙ ap (λ s. some (record tsk { conn = conn₂; state = s })) up,
            record { sip = refl; sport = refl; dip = refl; dport = refl },
          ),
          (wait, owns₂),
          est₂,
          refl,
        ))

-- The socket at the other end of `conn`: it is up, and first in its bucket.
pub record CanReceive (st : Stack) (i : ℕ) (tsk : Sock) (res : Resources) (conn : TcpSock)
    : Type 0 where
  pub at : st.socks i ≡ some tsk
  pub up : tsk.state ≡ established
  pub owns : st.owned tsk.resources ≡ some res
  pub first :
      st.established_table (tcp_hash_function conn.sk_dip conn.sk_sip conn.sk_dport conn.sk_sport)
      ≡ i ∷ []
  pub valid : IsValid res.rcv_buf

write_room :
    (r : RingBuffer) (src : List ℕ)
    → IsValid r
    → 0 < length src
    → length (contents r) + length src < r.size
    → (r' : RingBuffer) × (write_ring_buffer r src (length src) ≡ some r')
      × (contents r' ≡ contents r ++ src)
      × (r'.size ≡ r.size)
      × IsValid r'
write_room r src valid some_bytes room =
    elim (Option-cases (write_ring_buffer r src (length src))) [
      | inl fails ↦ absurd (
          none-ne-some (contents r ++ take (length src) src)
            (ap (Option.map contents) (sym fails) ∙ fits))
      | inr (r', e) ↦ (
        r',
        e,
        some-injective (contents r') (contents r ++ take (length src) src)
              (ap (Option.map contents) (sym e) ∙ fits)
            ∙ ap (◌++◌ (contents r)) (take-length src),
        size-write r r' src (length src) e,
        write-IsValid src (length src) valid e,
      )
    ]
  where
    fits :
        Option.map contents (write_ring_buffer r src (length src))
        ≡ some (contents r ++ take (length src) src)
    fits = write_refines src (length src) valid (omega arith) ∙ ground (arith, some_bytes, room)

receive_one :
    (id i : ℕ) (seg : Segment) (st : Stack) (tsk : Sock) (res : Resources) (conn : TcpSock)
    → CanReceive st i tsk res conn
    → IsRead conn seg
    → length (contents res.rcv_buf) + length seg.payload < res.rcv_buf.size
    → Returns (handle_tcp_packet id seg st) (λ (st', sent).
      (tsk' : Sock) × (res' : Resources) × CanReceive st' i tsk' res' conn
      × SameTuple tsk'.conn tsk.conn
      × (contents res'.rcv_buf ≡ contents res.rcv_buf ++ seg.payload)
      × (res'.rcv_buf.size ≡ res.rcv_buf.size)
      × (sent ≡ []))
receive_one id i seg st tsk res conn can r room =
    let cb = tcp_cb_init seg in
    let (rbuf, e, holds, same_size, valid) =
      write_room res.rcv_buf seg.payload can.valid r.some_bytes room in
    let ((st', sent), e', ((conn', at, same_tuple), (wait, owns), est, nothing)) =
      receive_lem id i cb st tsk res rbuf can.at can.up can.owns r.no_fin r.psh
        (rw (r.bytes, r.count) e) in
    (
      (st', []),
      handle_one id i seg st st' [] r.intact
          (lookup_first st cb i (rw (r.to_ip, r.from_ip, r.to_port, r.from_port) can.first))
          (e' ∙ ap (λ s. some (st', s)) nothing),
      (
        record tsk { conn = conn'; state = established },
        record res { rcv_buf = rbuf; wait_send = wait },
        record {
          at = at;
          up = refl;
          owns = owns;
          first =
              ap (λ f. f (tcp_hash_function conn.sk_dip conn.sk_sip conn.sk_dport conn.sk_sport))
                est
              ∙ can.first;
          valid = valid;
        },
        same_tuple,
        holds,
        same_size,
        refl,
      ),
    )

pub receive_all :
    (id i : ℕ) (segs : List Segment) (st : Stack) (tsk : Sock) (res : Resources) (conn : TcpSock)
    → CanReceive st i tsk res conn
    → Every (IsRead conn) segs
    → length (contents res.rcv_buf) + length (payloads segs) < res.rcv_buf.size
    → Returns (deliver id segs st) (λ (st', sent).
      (tsk' : Sock) × (res' : Resources) × CanReceive st' i tsk' res' conn
      × SameTuple tsk'.conn tsk.conn
      × (contents res'.rcv_buf ≡ contents res.rcv_buf ++ payloads segs)
      × (sent ≡ []))
unfolding deliver payloads
receive_all id i [] st tsk res conn can reads room =
    ((st, []), refl, (tsk, res, can, same_tuple _, sym (append-nil _), refl))
receive_all id i (seg ∷ segs) st tsk res conn can reads room =
    let ((st₁, sent₁), e₁, (tsk₁, res₁, can₁, same, holds, size, nothing₁)) =
      receive_one id i seg st tsk res conn can reads.0
        (omega (arith, length-append seg.payload (payloads segs), room)) in
    let ((st₂, sent₂), e₂, (tsk₂, res₂, can₂, same₂, holds₂, nothing₂)) =
      receive_all id i segs st₁ tsk₁ res₁ conn can₁ reads.1 (
        rw (holds, size)
          (omega (
            arith,
            length-append (contents res.rcv_buf) seg.payload,
            length-append seg.payload (payloads segs),
            room,
          ))) in
    (
      (st₂, []),
      rw (deliver, e₁, e₂, nothing₁, nothing₂) refl,
      (
        tsk₂,
        res₂,
        can₂,
        SameTuple-trans same₂ same,
        holds₂
            ∙ ap (λ xs. xs ++ payloads segs) holds
            ∙ append_assoc (contents res.rcv_buf) seg.payload (payloads segs),
        refl,
      ),
    )
