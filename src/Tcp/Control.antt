-- ===== src/Tcp/Control.antt =====
-- What the peer reads from the segments of tcp_out.c, with tcp_cb_init.
use network_lab.Base.{
  ℕ, ◌+◌, ◌^◌, ◌<◌, ◌≡◌, refl, true, ◌||◌, inl, inr, List, [], arith, length, Bool-cases,
}
use network_lab.Packet.{ip_init_hdr}
use network_lab.Segment.{
  Segment, TcpHdr, tcp_checksum, tcp_init_hdr, tcp_syn, tcp_fin, tcp_rst, has_flag,
}
use network_lab.Tcp.{
  TcpSock, TcpCb, tcp_cb_init, tcp_build, tcp_send_packet, tcp_send_control_packet, tcp_send_reset,
}

-- the segment is accepted by handle_tcp_packet
abbrev pub IsIntact : Segment → Type 0
IsIntact seg = tcp_checksum seg ≡ seg.tcp.checksum

tcp_build-IsIntact :
    (id saddr daddr : ℕ) (tcp : TcpHdr) (payload : List ℕ)
    → IsIntact (tcp_build id saddr daddr tcp payload)
unfolding tcp_build tcp_checksum
tcp_build-IsIntact id saddr daddr tcp payload = refl

pub tcp_send_control_packet-IsIntact :
    (id : ℕ) (tsk : TcpSock) (flags : ℕ) → IsIntact (tcp_send_control_packet id tsk flags).1
unfolding tcp_send_control_packet tcp_build tcp_checksum
tcp_send_control_packet-IsIntact id tsk flags = refl

-- A data segment, when it is not too long for an ip packet, is intact, and its receiver reads from it
-- the connection, the numbers and the data of the sender; it ends at the number at which the sender
-- goes on.
pub tcp_cb_init-tcp_send_packet :
    (id : ℕ) (tsk : TcpSock) (payload : List ℕ)
    → 40 + length payload < 2 ^ 16
    → let (tsk', seg) = tcp_send_packet id tsk payload in
      let cb = tcp_cb_init seg in
      IsIntact seg
      × (cb.saddr ≡ tsk.sk_sip)
      × (cb.daddr ≡ tsk.sk_dip)
      × (cb.sport ≡ tsk.sk_sport)
      × (cb.dport ≡ tsk.sk_dport)
      × (cb.seq ≡ tsk.snd_nxt)
      × (cb.ack ≡ tsk.rcv_nxt)
      × (cb.rwnd ≡ tsk.rcv_wnd)
      × (cb.payload ≡ payload)
      × (cb.pl_len ≡ length payload)
      × (cb.seq_end ≡ tsk'.snd_nxt)
unfolding tcp_send_packet tcp_cb_init tcp_build tcp_init_hdr ip_init_hdr tcp_checksum
tcp_cb_init-tcp_send_packet id tsk payload fits =
    (refl, refl, refl, refl, refl, refl, refl, refl, refl, omega arith, omega arith)

-- A control segment of a socket whose `snd_nxt` is a word of 32 bits is intact and is read back in
-- the same way, and ends at the number at which the sender goes on: SYN and FIN count for one.
tcp_cb_init-tcp_send_control_packet :
    (id : ℕ) (tsk : TcpSock) (flags : ℕ)
    → tsk.snd_nxt < 2 ^ 32
    → let (tsk', seg) = tcp_send_control_packet id tsk flags in
      let cb = tcp_cb_init seg in
      IsIntact seg
      × (cb.saddr ≡ tsk.sk_sip)
      × (cb.daddr ≡ tsk.sk_dip)
      × (cb.sport ≡ tsk.sk_sport)
      × (cb.dport ≡ tsk.sk_dport)
      × (cb.flags ≡ flags)
      × (cb.seq ≡ tsk.snd_nxt)
      × (cb.ack ≡ tsk.rcv_nxt)
      × (cb.payload ≡ [])
      × (cb.seq_end ≡ tsk'.snd_nxt)
unfolding tcp_send_control_packet tcp_cb_init tcp_build tcp_init_hdr ip_init_hdr tcp_checksum
tcp_cb_init-tcp_send_control_packet id tsk flags word = (
  refl,
  refl,
  refl,
  refl,
  refl,
  refl,
  refl,
  refl,
  refl,
  elim (Bool-cases (has_flag flags tcp_syn || has_flag flags tcp_fin)) [
    | inl counts ↦ rw counts (omega arith)
    | inr not_counts ↦ rw not_counts (omega (arith, word))
  ],
)

-- The reset that answers a segment goes back along its connection and acknowledges all of it.
pub tcp_cb_init-tcp_send_reset :
    (id : ℕ) (cb : TcpCb)
    → let back = tcp_cb_init (tcp_send_reset id cb) in
      IsIntact (tcp_send_reset id cb)
      × (back.saddr ≡ cb.daddr)
      × (back.daddr ≡ cb.saddr)
      × (back.sport ≡ cb.dport)
      × (back.dport ≡ cb.sport)
      × (back.ack ≡ cb.seq_end)
      × (back.payload ≡ [])
      × (has_flag back.flags tcp_rst ≡ true)
unfolding tcp_send_reset tcp_cb_init tcp_build tcp_init_hdr ip_init_hdr tcp_checksum
tcp_cb_init-tcp_send_reset id cb = (refl, refl, refl, refl, refl, refl, refl, refl)
