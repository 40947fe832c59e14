-- ===== src/Tcp/Tests.antt =====
-- A socket that sends.
use mathlib.Core.Option
use network_lab.Base.{ℕ, ◌≡◌, refl, true, List, [], ◌∷◌, some, arith, map}
use network_lab.Segment.{Segment, has_flag, tcp_rst}
use network_lab.Tcp.{
  TcpSock, TcpCb, Sending, tcp_cb_init, tcp_build, tcp_send_packet, tcp_send_reset, tcp_send_data,
  await_window, send_loop,
}
use network_lab.Tcp.Data.{Delivers, tcp_send_data-Delivers}
use network_lab.Tcp.Control.{IsIntact, tcp_cb_init-tcp_send_packet, tcp_cb_init-tcp_send_reset}

-- The window is open for three bytes.
abbrev sock : TcpSock
sock = record {
  sk_sip = 0x0a000002;
  sk_sport = 12346;
  sk_dip = 0x0a000001;
  sk_dport = 10001;
  snd_nxt = 4294967294;
  rcv_nxt = 77;
  snd_wnd = 3;
  rcv_wnd = 65535;
}

abbrev bytes : List ℕ
bytes = 1 ∷ 2 ∷ 3 ∷ 4 ∷ 5 ∷ []

tcp_send_data-Delivers_example :
    (out : Sending) × (tcp_send_data (λ i. i) sock bytes (100 ∷ []) ≡ some out)
    × Delivers sock bytes out
tcp_send_data-Delivers_example = tcp_send_data-Delivers (λ i. i) sock bytes (100 ∷ [])

-- Three bytes fit into the window, and the others follow after the wake-up.
two_segments :
    Option.map
      (λ (out : Sending). map (λ (s : Segment). s.payload) out.segments)
      (tcp_send_data (λ i. i) sock bytes (100 ∷ []))
    ≡ some ((1 ∷ 2 ∷ 3 ∷ []) ∷ (4 ∷ 5 ∷ []) ∷ [])
unfolding tcp_send_data send_loop await_window tcp_send_packet tcp_build
two_segments = refl

tcp_cb_init-tcp_send_packet_example :
    let (tsk', seg) = tcp_send_packet 9 sock bytes in
    let cb = tcp_cb_init seg in
    IsIntact seg
    × (cb.saddr ≡ 0x0a000002)
    × (cb.daddr ≡ 0x0a000001)
    × (cb.sport ≡ 12346)
    × (cb.dport ≡ 10001)
    × (cb.seq ≡ 4294967294)
    × (cb.ack ≡ 77)
    × (cb.rwnd ≡ 65535)
    × (cb.payload ≡ bytes)
    × (cb.pl_len ≡ 5)
    × (cb.seq_end ≡ tsk'.snd_nxt)
tcp_cb_init-tcp_send_packet_example = tcp_cb_init-tcp_send_packet 9 sock bytes (omega arith)

abbrev stray : TcpCb
stray = tcp_cb_init (tcp_send_packet 9 sock bytes).1

tcp_cb_init-tcp_send_reset_example :
    let back = tcp_cb_init (tcp_send_reset 8 stray) in
    IsIntact (tcp_send_reset 8 stray)
    × (back.saddr ≡ stray.daddr)
    × (back.daddr ≡ stray.saddr)
    × (back.sport ≡ stray.dport)
    × (back.dport ≡ stray.sport)
    × (back.ack ≡ stray.seq_end)
    × (back.payload ≡ [])
    × (has_flag back.flags tcp_rst ≡ true)
tcp_cb_init-tcp_send_reset_example = tcp_cb_init-tcp_send_reset 8 stray
