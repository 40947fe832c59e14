-- ===== src/Apps/Exchange.antt =====
-- A round of the client against a round of the server.
use network_lab.Base.{
  append-nil, ◌^◌, ℕ, ◌≤◌, ◌<◌, ◌≡◌, refl, sym, ◌∙◌, ap, subst, List, [], ◌∷◌, ◌++◌, some, arith,
  Returns, length, take, length-append, take-all, Bool-cases, inl, inr, true, ltb, ◌==◌, ==_iff,
  c_string, Every, update_self,
}
use network_lab.Ring.Contents.{contents}
use network_lab.Tcp.{TcpSock, Sending, tcp_send_data}
use network_lab.Tcp.Data.{payloads, tcp_send_data-Delivers}
use network_lab.Tcp.Stream.{SameTuple, SameTuple-trans, tcp_send_data-whole}
use network_lab.Sock.{Sock, Stack, Resources, put}
use network_lab.Sock.Call.{tcp_sock_write}
use network_lab.Sock.Handshake.{deliver}
use network_lab.Sock.Receive.{CanReceive}
use network_lab.Sock.Transfer.{deliver-tcp_send_data, read_lem}
use network_lab.Apps.{
  read_len, rbuf_size, greeting, client_text, server_round, client_write, client_read,
}
use network_lab.Apps.Echo.{reply, length-reply, round_lem}
use network_lab.Apps.Text.{IsText, c_string-text, front-IsText, reply-IsText}

nil-length : (xs : List ℕ) → length xs ≡ 0 → xs ≡ []
nil-length [] none_left = refl
nil-length (x ∷ xs) none_left = absurd (omega (arith, none_left))

CanReceive-same :
    (st : Stack) (i : ℕ) (tsk : Sock) (res : Resources) (conn conn' : TcpSock)
    → SameTuple conn' conn
    → CanReceive st i tsk res conn
    → CanReceive st i tsk res conn'
CanReceive-same st i tsk res conn conn' same can = record {
  at = can.at;
  up = can.up;
  owns = can.owns;
  first = rw (same.sip, same.sport, same.dip, same.dport) can.first;
  valid = can.valid;
}

-- The client behind its write.
write_lem :
    (ids : ℕ → ℕ) (j : ℕ) (windows : List ℕ) (st : Stack) (tsk : Sock) (res : Resources)
    (conn : TcpSock)
    → CanReceive st j tsk res conn
    → Returns (client_write ids j windows st) (λ (st', segments, left).
      ((out : Sending) × (tcp_send_data ids tsk.conn client_text windows ≡ some out)
        × (segments ≡ out.segments)
        × (left ≡ out.left))
      × ((tsk' : Sock) × CanReceive st' j tsk' res conn))
unfolding client_write tcp_sock_write
write_lem ids j windows st tsk res conn can =
    let (out, e, d) = tcp_send_data-Delivers ids tsk.conn client_text windows in
    (
      (put j (record tsk { conn = out.tsk }) st, out.segments, out.left),
      rw (can.at, e) refl,
      (
        (out, e, refl, refl),
        (
          record tsk { conn = out.tsk },
          record {
            at = update_self st.socks j _;
            up = can.up;
            owns = can.owns;
            first = can.first;
            valid = can.valid;
          },
        ),
      ),
    )

-- The client prints a text that is at most 1000 bytes long.
print_lem :
    (j : ℕ) (st : Stack) (tsk : Sock) (res : Resources) (conn : TcpSock)
    → CanReceive st j tsk res conn
    → IsText (contents res.rcv_buf)
    → length (contents res.rcv_buf) ≤ 1000
    → Returns (client_read j st) (λ (st', printed). printed ≡ contents res.rcv_buf)
unfolding client_read
print_lem j st tsk res conn can text few =
    let ((rlen, rbuf, st'), e, read) = read_lem j read_len st tsk res can.at can.owns can.valid in
    let whole : rbuf ≡ contents res.rcv_buf =
      read.bytes ∙ take-all read_len (contents res.rcv_buf) few in
    elim (Bool-cases (rlen == 0)) [
      | inl nothing ↦
          let empty : contents res.rcv_buf ≡ [] =
            nil-length (contents res.rcv_buf)
              (ap length (sym whole) ∙ sym read.count ∙ (==_iff rlen 0).0 nothing) in
          ((st', []), rw (e, nothing) refl, sym empty)
      | inr some_read ↦
          let ends : ltb rlen rbuf_size ≡ true = ground (arith, read.count, ap length whole, few) in
          (
            (st', c_string rbuf),
            rw (e, some_read, ends) refl,
            ap c_string whole ∙ c_string-text (contents res.rcv_buf) text,
          )
    ]

-- The server's round, and what the client prints of it.
respond :
    (ids : ℕ → ℕ) (id i j : ℕ) (windows bytes : List ℕ) (server client : Stack) (a b : Sock)
    (res res' : Resources) (to conn : TcpSock)
    → Every (λ w. 0 < w) windows
    → CanReceive server i b res to
    → SameTuple b.conn conn
    → CanReceive client j a res' conn
    → take 1000 (contents res.rcv_buf) ≡ bytes
    → contents res'.rcv_buf ≡ []
    → length bytes ≤ 62
    → 77 < res'.rcv_buf.size
    → Returns (server_round ids i windows server) (λ (server', answer, unsent).
      Returns (deliver id answer client) (λ (client', nothing).
        (nothing ≡ [])
        × Returns (client_read j client') (λ (client'', printed). printed ++ unsent ≡ reply bytes)))
respond ids id i j windows bytes server client a b res res' to conn wide can same can' got empty few
      room =
    let ((server', answer, unsent), e, (conn', same', (out, sends, segs, left))) =
      round_lem ids i windows server b res can.at can.owns can.valid in
    let can₁ = CanReceive-same client j a res' conn conn' (SameTuple-trans same' same) can' in
    let short : length (reply bytes) ≤ 77 = omega (arith, length-reply bytes, few) in
    let (content, ((client', nothing), e', (a', res₁, can₂, same'', holds, silent))) =
      deliver-tcp_send_data ids id j conn' (reply bytes) windows out client a res' wide can₁ empty
        (omega (arith, short, room))
        (subst (λ bytes. tcp_send_data ids conn' (reply bytes) windows ≡ some out) got sends) in
    let text : IsText (payloads out.segments) =
      front-IsText (payloads out.segments) out.left
        (subst IsText (sym content) (reply-IsText bytes)) in
    let (shown, e'', printed) =
      print_lem j client' a' res₁ conn' can₂ (subst IsText (sym holds) text) (
        omega (
          arith,
          ap length holds,
          length-append (payloads out.segments) out.left,
          ap length content,
          short,
        )) in
    let whole : shown.1 ++ unsent ≡ reply bytes = rw (left, printed, holds) content in
    let received : deliver id answer client ≡ some (client', nothing) =
      ap (λ segments. deliver id segments client) segs ∙ e' in
    ((server', answer, unsent), e, ((client', nothing), received, (silent, (shown, e'', whole))))

-- A round of the client and one of the server that it meets. Each host's socket is up, alone in its
-- bucket and holds nothing yet, with room for what comes; the client's window is as wide as its text
-- and below 2 ^ 16, and no window that wakes a sender is closed. Then no step faults, the client's
-- write sends all of the text, nothing that is received is answered, and the client, whose read comes
-- once the answer is there, prints the reply to its text, but for the bytes at the end that the
-- server's write, asleep at a closed window, still has to send.
pub exchange :
    (ids : ℕ → ℕ) (id i j : ℕ) (windows windows' : List ℕ) (server client : Stack) (a b : Sock)
    (res res' : Resources)
    → Every (λ w. 0 < w) windows
    → Every (λ w. 0 < w) windows'
    → CanReceive server i b res a.conn
    → CanReceive client j a res' b.conn
    → length client_text ≤ a.conn.snd_wnd
    → a.conn.snd_wnd < 2 ^ 16
    → contents res.rcv_buf ≡ []
    → contents res'.rcv_buf ≡ []
    → length client_text < res.rcv_buf.size
    → length (greeting ++ client_text) < res'.rcv_buf.size
    → Returns (client_write ids j windows client) (λ (client₁, request, unsent).
      (unsent ≡ [])
      × Returns (deliver id request server) (λ (server₁, nothing).
        (nothing ≡ [])
        × Returns (server_round ids i windows' server₁) (λ (server₂, answer, unsent').
          Returns (deliver id answer client₁) (λ (client₂, nothing').
            (nothing' ≡ [])
            × Returns
                (client_read j client₂)
                (λ (client₃, printed). printed ++ unsent' ≡ reply client_text)))))
exchange ids id i j windows windows' server client a b res res' wide wide' can can' whole bound
      empty empty' room room' =
    let ((client₁, request, unsent), e, ((out, sends, segs, left), (a₁, can₁))) =
      write_lem ids j windows client a res' b.conn can' in
    let (content, ((server₁, nothing), e', (b₁, res₁, can₂, same, holds, silent))) =
      deliver-tcp_send_data ids id i a.conn client_text windows out server b res wide can empty room
        sends in
    let all : out.left ≡ [] =
      tcp_send_data-whole ids a.conn client_text windows out whole bound sends in
    let text : payloads out.segments ≡ client_text =
      sym (append-nil (payloads out.segments))
      ∙ sym (ap (◌++◌ (payloads out.segments)) all)
      ∙ content in
    let got : take 1000 (contents res₁.rcv_buf) ≡ client_text = ap (take 1000) (holds ∙ text) in
    let received : deliver id request server ≡ some (server₁, nothing) =
      ap (λ segments. deliver id segments server) segs ∙ e' in
    let rest =
      respond ids id i j windows' client_text server₁ client₁ a₁ b₁ res₁ res' a.conn b.conn wide'
        can₂ same can₁ got empty' (omega arith) room' in
    ((client₁, request, unsent), e, (left ∙ all, ((server₁, nothing), received, (silent, rest))))
