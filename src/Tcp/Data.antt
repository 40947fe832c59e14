-- ===== src/Tcp/Data.antt =====
-- What tcp_send_data hands to ip_send_packet.
use network_lab.Base.{
  ℕ, zero, suc, ◌+◌, ◌%◌, ◌^◌, ◌<◌, ◌≤◌, ◌≡◌, ◌⊎◌, refl, ap, subst, ◌∙◌, inl, inr, List, [], ◌∷◌,
  ◌++◌, append_assoc, none, some, arith, length, length-take, length-drop, take, drop, Every, ◌==◌,
  Bool-cases,
}
use network_lab.Segment.{Segment, tcp_init_hdr}
use network_lab.Tcp.{
  TcpSock, Sending, tcp_build, tcp_send_packet, await_window, seg_size, send_loop, tcp_send_data,
  max_seg_size,
}

unfoldable pub payloads : List Segment → List ℕ
payloads [] = []
payloads (seg ∷ segs) = seg.payload ++ payloads segs

-- Each segment starts at the sequence number at which the one before it ended.
abbrev Contiguous : ℕ → List Segment → ℕ → Type 0
Contiguous start [] end = start ≡ end
Contiguous start (seg ∷ segs) end =
    (seg.tcp.seq ≡ start) × Contiguous ((start + length seg.payload) % 2 ^ 32) segs end

-- The segments and the bytes left make up the data in order; the sequence numbers run from that of
-- the socket before to that of the socket after; no segment is too long for a frame; and bytes are
-- left only behind a closed window.
pub record Delivers (tsk : TcpSock) (buf : List ℕ) (out : Sending) : Type 0 where
  pub content : payloads out.segments ++ out.left ≡ buf
  pub ordered : Contiguous tsk.snd_nxt out.segments out.tsk.snd_nxt
  pub fitting : Every (λ seg. length seg.payload ≤ max_seg_size) out.segments
  pub stuck : (out.left ≡ []) ⊎ (out.tsk.snd_wnd ≡ 0)

take-drop : (n : ℕ) (xs : List ℕ) → take n xs ++ drop n xs ≡ xs
take-drop zero xs = refl
take-drop (suc n) [] = refl
take-drop (suc n) (x ∷ xs) = ap (◌∷◌ x) (take-drop n xs)

await_cases :
    (tsk : TcpSock) (windows : List ℕ)
    → ((await_window tsk windows ≡ none) × (tsk.snd_wnd ≡ 0))
      ⊎ ((awake : TcpSock) × (windows' : List ℕ) × (await_window tsk windows
            ≡ some (awake, windows'))
          × (awake.snd_nxt ≡ tsk.snd_nxt)
          × (((0 < awake.snd_wnd) × (length windows' ≤ length windows))
              ⊎ (length windows' < length windows)))
unfolding await_window
await_cases tsk [] = elim (Bool-cases (tsk.snd_wnd == 0)) [
  | inl closed ↦ inl (rw closed refl, ground arith)
  | inr wide ↦ inr (tsk, [], rw wide refl, refl, inl (ground arith, omega arith))
]
await_cases tsk (w ∷ windows) = elim (Bool-cases (tsk.snd_wnd == 0)) [
  | inl closed ↦ inr (record tsk { snd_wnd = w }, windows, rw closed refl, refl, inr (omega arith))
  | inr wide ↦ inr (tsk, w ∷ windows, rw wide refl, refl, inl (ground arith, omega arith))
]

send_one :
    (id : ℕ) (tsk : TcpSock) (payload : List ℕ)
    → let (tsk', seg) = tcp_send_packet id tsk payload in
      (tsk'.snd_nxt ≡ (tsk.snd_nxt + length payload) % 2 ^ 32)
      × (seg.payload ≡ payload)
      × (seg.tcp.seq ≡ tsk.snd_nxt)
unfolding tcp_send_packet tcp_build tcp_init_hdr
send_one id tsk payload = (refl, refl, refl)

Delivers-cons :
    (id : ℕ) (tsk awake : TcpSock) (buf : List ℕ) (out : Sending)
    → awake.snd_nxt ≡ tsk.snd_nxt
    → Delivers
        (tcp_send_packet id awake (take (seg_size awake buf) buf)).0
        (drop (seg_size awake buf) buf)
        out
    → Delivers tsk buf (record out {
      segments = (tcp_send_packet id awake (take (seg_size awake buf) buf)).1 ∷ out.segments;
    })
unfolding payloads
Delivers-cons id tsk awake buf out same d =
    let payload = take (seg_size awake buf) buf in
    let (next, own, seq) = send_one id awake payload in
    record {
      content =
          rw (own, append_assoc) (ap (◌++◌ payload) d.content ∙ take-drop (seg_size awake buf) buf);
      ordered = (
        seq ∙ same,
        rw own (
            subst (λ n. Contiguous n out.segments out.tsk.snd_nxt)
              (next ∙ ap (λ n. (n + length payload) % 2 ^ 32) same) d.ordered),
      );
      fitting = (rw own (omega (arith, length-take (seg_size awake buf) buf)), d.fitting);
      stuck = d.stuck;
    }

send_loop_lem :
    (ids : ℕ → ℕ) (fuel i : ℕ) (tsk : TcpSock) (buf windows : List ℕ)
    → length buf + length windows ≤ fuel
    → (out : Sending) × (send_loop fuel ids i tsk buf windows ≡ some out) × Delivers tsk buf out
unfolding send_loop payloads
send_loop_lem ids fuel i tsk [] windows enough = (
  record { tsk = tsk; segments = []; left = [] },
  refl,
  record { content = refl; ordered = refl; fitting = tt; stuck = inl refl },
)
send_loop_lem ids zero i tsk (b ∷ buf) windows enough = absurd (omega arith)
send_loop_lem ids (suc fuel) i tsk (b ∷ buf) windows enough = elim (await_cases tsk windows) [
  | inl (asleep, closed) ↦ (
    record { tsk = tsk; segments = []; left = b ∷ buf },
    rw (send_loop, asleep) refl,
    record { content = refl; ordered = refl; fitting = tt; stuck = inr closed },
  )
  | inr (awake, windows', e, same, progress) ↦
      let size = seg_size awake (b ∷ buf) in
      let (out, sent, d) =
        send_loop_lem ids fuel (i + 1) (tcp_send_packet (ids i) awake (take size (b ∷ buf))).0
          (drop size (b ∷ buf)) windows'
          (omega (arith, length-drop size (b ∷ buf), enough, progress)) in
      (
        record out {
          segments = (tcp_send_packet (ids i) awake (take size (b ∷ buf))).1 ∷ out.segments;
        },
        rw (send_loop, e, sent) refl,
        Delivers-cons (ids i) tsk awake (b ∷ buf) out same d,
      )
]

-- tcp_send_data comes to an end, with all the data sent or asleep on a closed window: the segments
-- carry the data in order from its start, with contiguous sequence numbers from `snd_nxt` on, and
-- each fits into a frame.
pub tcp_send_data-Delivers :
    (ids : ℕ → ℕ) (tsk : TcpSock) (buf windows : List ℕ)
    → (out : Sending) × (tcp_send_data ids tsk buf windows ≡ some out) × Delivers tsk buf out
unfolding tcp_send_data
tcp_send_data-Delivers ids tsk buf windows =
    send_loop_lem ids (length buf + length windows) 0 tsk buf windows (omega arith)
