-- ===== src/Tcp.antt =====
-- 16-tcp_data_transfer/tcp_out.c, and the types of include/tcp.h and include/tcp_sock.h, with
-- tcp_cb_init of tcp.c: what a socket sends. A function takes what `rand()` returns for the ip header
-- and returns the segments that it hands to ip_send_packet.
pub mod Data
pub mod Control
pub mod Stream
mod Tests
use network_lab.Base.{
  ℕ, zero, suc, ◌+◌, ◌-◌, ◌%◌, ◌^◌, Bool, true, false, ◌||◌, List, [], ◌∷◌, ◌++◌, Option, none,
  some, length, take, drop, min, ◌==◌, if◌then◌else◌, ◌>>=◌,
}
use network_lab.Packet.{ether_hdr_size, ip_base_hdr_size, ipproto_tcp, ip_hdr_size, ip_init_hdr}
use network_lab.Segment.{
  TcpHdr, Segment, tcp_fin, tcp_syn, tcp_rst, tcp_psh, tcp_ack, has_flag, tcp_base_hdr_size,
  tcp_hdr_size, tcp_checksum, tcp_init_hdr,
}

abbrev eth_frame_len : ℕ
eth_frame_len = 1500

-- The fields of `struct tcp_sock` that the sending functions read and write.
pub record TcpSock : Type 0 where
  pub sk_sip : ℕ
  pub sk_sport : ℕ
  pub sk_dip : ℕ
  pub sk_dport : ℕ
  pub snd_nxt : ℕ
  pub rcv_nxt : ℕ
  pub snd_wnd : ℕ
  pub rcv_wnd : ℕ

-- `struct tcp_cb` without its pointers; the payload is a list.
pub record TcpCb : Type 0 where
  pub saddr : ℕ
  pub daddr : ℕ
  pub sport : ℕ
  pub dport : ℕ
  pub seq : ℕ
  pub seq_end : ℕ
  pub ack : ℕ
  pub payload : List ℕ
  pub pl_len : ℕ
  pub rwnd : ℕ
  pub flags : ℕ

-- A packet is taken to be as long as its headers at least; `payload` of the segment starts behind
-- the 20 bytes of `struct tcphdr`.
unfoldable pub tcp_cb_init : Segment → TcpCb
tcp_cb_init seg =
    let len = seg.ip.tot_len - ip_hdr_size seg.ip - tcp_hdr_size seg.tcp in
    record {
      saddr = seg.ip.saddr;
      daddr = seg.ip.daddr;
      sport = seg.tcp.sport;
      dport = seg.tcp.dport;
      seq = seg.tcp.seq;
      seq_end =
          (seg.tcp.seq
            + len
            + (if has_flag seg.tcp.flags tcp_syn || has_flag seg.tcp.flags tcp_fin then 1 else 0))
          % 2 ^ 32;
      ack = seg.tcp.ack;
      payload = drop (tcp_hdr_size seg.tcp - tcp_base_hdr_size) seg.payload;
      pl_len = len;
      rwnd = seg.tcp.rwnd;
      flags = seg.tcp.flags;
    }

-- The packet of `len` bytes of data behind the two headers, with its checksums.
unfoldable pub tcp_build : ℕ → ℕ → ℕ → TcpHdr → List ℕ → Segment
tcp_build id saddr daddr tcp payload =
    let tot_len = (ip_base_hdr_size + tcp_base_hdr_size + length payload) % 2 ^ 16 in
    let seg : Segment = record {
      ip = ip_init_hdr id saddr daddr tot_len ipproto_tcp [];
      tcp = tcp;
      payload = payload;
    } in
    record seg { tcp = record tcp { checksum = tcp_checksum seg } }

-- The payload is a packet of its own length; the window is an u16.
unfoldable pub tcp_send_packet : ℕ → TcpSock → List ℕ → TcpSock × Segment
tcp_send_packet id tsk payload = (
  record tsk {
    snd_nxt = (tsk.snd_nxt + length payload) % 2 ^ 32;
    snd_wnd = (tsk.snd_wnd + 2 ^ 16 - length payload) % 2 ^ 16;
  },
  tcp_build id tsk.sk_sip tsk.sk_dip
      (tcp_init_hdr tsk.sk_sport tsk.sk_dport tsk.snd_nxt tsk.rcv_nxt (tcp_psh + tcp_ack)
        tsk.rcv_wnd)
      payload,
)

unfoldable pub tcp_send_control_packet : ℕ → TcpSock → ℕ → TcpSock × Segment
tcp_send_control_packet id tsk flags = (
  if has_flag flags tcp_syn || has_flag flags tcp_fin
      then record tsk { snd_nxt = (tsk.snd_nxt + 1) % 2 ^ 32 }
      else tsk,
  tcp_build id tsk.sk_sip tsk.sk_dip
      (tcp_init_hdr tsk.sk_sport tsk.sk_dport tsk.snd_nxt tsk.rcv_nxt flags tsk.rcv_wnd) [],
)

unfoldable pub tcp_send_reset : ℕ → TcpCb → Segment
tcp_send_reset id cb =
    tcp_build id cb.daddr cb.saddr
      (tcp_init_hdr cb.dport cb.sport 0 cb.seq_end (tcp_rst + tcp_ack) 0) []

-- `hdr_size` and `max_seg_size`
abbrev hdr_size : ℕ
hdr_size = ether_hdr_size + ip_base_hdr_size + tcp_base_hdr_size

abbrev pub max_seg_size : ℕ
max_seg_size = eth_frame_len - hdr_size

-- With a closed window the call sleeps on wait_send. `windows` are the windows that it finds at the
-- wake-ups to come; when they are used up it sleeps on. (`wait_exit` is called nowhere, so that
-- `sleep_on` returns 0.) The other fields are taken to keep their values while it sleeps.
unfoldable pub await_window : TcpSock → List ℕ → Option (TcpSock × List ℕ)
await_window tsk [] = if tsk.snd_wnd == 0 then none else some (tsk, [])
await_window tsk (w ∷ windows) =
    if tsk.snd_wnd == 0 then some (record tsk { snd_wnd = w }, windows) else some (tsk, w ∷ windows)

-- How far a call of tcp_send_data came: `left` has the bytes not sent yet if it sleeps.
pub record Sending : Type 0 where
  pub tsk : TcpSock
  pub segments : List Segment
  pub left : List ℕ

-- `min3(max_seg_size, len - wlen, tsk->snd_wnd)`
abbrev pub seg_size : TcpSock → List ℕ → ℕ
seg_size tsk buf = min (min max_seg_size (length buf)) tsk.snd_wnd

-- The loop of tcp_send_data on the bytes that are still to be sent; `none` is no fuel.
unfoldable pub send_loop : ℕ → (ℕ → ℕ) → ℕ → TcpSock → List ℕ → List ℕ → Option Sending
send_loop fuel ids i tsk [] windows = some (record { tsk = tsk; segments = []; left = [] })
send_loop zero ids i tsk (b ∷ buf) windows = none
send_loop (suc fuel) ids i tsk (b ∷ buf) windows = elim (await_window tsk windows) [
  | none ↦ some (record { tsk = tsk; segments = []; left = b ∷ buf })
  | some (awake, windows') ↦
      let size = seg_size awake (b ∷ buf) in
      let (tsk', seg) = tcp_send_packet (ids i) awake (take size (b ∷ buf)) in
      send_loop fuel ids (i + 1) tsk' (drop size (b ∷ buf)) windows' >>= λ out.
      some (record out { segments = seg ∷ out.segments })
]

-- Every round sends a byte or uses up a wake-up.
unfoldable pub tcp_send_data : (ℕ → ℕ) → TcpSock → List ℕ → List ℕ → Option Sending
tcp_send_data ids tsk buf windows = send_loop (length buf + length windows) ids 0 tsk buf windows
