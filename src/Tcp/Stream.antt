-- ===== src/Tcp/Stream.antt =====
-- What the receiver reads from the segments of tcp_send_data.
use mathlib.Core.Option.{none-ne-some, some-injective}
use network_lab.Base.{
  ℕ, zero, suc, ◌+◌, ◌-◌, ◌%◌, ◌^◌, ap, length-drop, ◌<◌, ◌≤◌, ◌≡◌, refl, sym, ◌∙◌, subst, true,
  false, List, [], ◌∷◌, some, arith, length, take, drop, length-take, Every, Option-cases, inl, inr,
  bind-some,
}
use network_lab.Packet.{ip_init_hdr}
use network_lab.Segment.{Segment, tcp_fin, tcp_psh, has_flag, tcp_checksum, tcp_init_hdr}
use network_lab.Tcp.{
  TcpSock, Sending, tcp_send_packet, tcp_send_data, send_loop, await_window, seg_size, tcp_cb_init,
  tcp_build, max_seg_size,
}
use network_lab.Tcp.Control.{IsIntact}

pub record SameTuple (tsk conn : TcpSock) : Type 0 where
  pub sip : tsk.sk_sip ≡ conn.sk_sip
  pub sport : tsk.sk_sport ≡ conn.sk_sport
  pub dip : tsk.sk_dip ≡ conn.sk_dip
  pub dport : tsk.sk_dport ≡ conn.sk_dport

pub same_tuple : (conn : TcpSock) → SameTuple conn conn
same_tuple conn = record { sip = refl; sport = refl; dip = refl; dport = refl }

pub SameTuple-trans : {a b c : TcpSock} → SameTuple a b → SameTuple b c → SameTuple a c
SameTuple-trans ab bc = record {
  sip = ab.sip ∙ bc.sip;
  sport = ab.sport ∙ bc.sport;
  dip = ab.dip ∙ bc.dip;
  dport = ab.dport ∙ bc.dport;
}

-- What the receiver reads from a data segment.
pub record IsRead (conn : TcpSock) (seg : Segment) : Type 0 where
  pub intact : IsIntact seg
  pub from_ip : (tcp_cb_init seg).saddr ≡ conn.sk_sip
  pub to_ip : (tcp_cb_init seg).daddr ≡ conn.sk_dip
  pub from_port : (tcp_cb_init seg).sport ≡ conn.sk_sport
  pub to_port : (tcp_cb_init seg).dport ≡ conn.sk_dport
  pub no_fin : has_flag (tcp_cb_init seg).flags tcp_fin ≡ false
  pub psh : has_flag (tcp_cb_init seg).flags tcp_psh ≡ true
  pub bytes : (tcp_cb_init seg).payload ≡ seg.payload
  pub count : (tcp_cb_init seg).pl_len ≡ length seg.payload
  pub some_bytes : 0 < length seg.payload

IsRead-send :
    (id : ℕ) (conn tsk : TcpSock) (bytes : List ℕ)
    → SameTuple tsk conn
    → 0 < length bytes
    → length bytes ≤ max_seg_size
    → IsRead conn (tcp_send_packet id tsk bytes).1
unfolding tcp_send_packet tcp_cb_init tcp_build tcp_init_hdr ip_init_hdr tcp_checksum
IsRead-send id conn tsk bytes same given few = record {
  intact = refl;
  from_ip = same.sip;
  to_ip = same.dip;
  from_port = same.sport;
  to_port = same.dport;
  no_fin = refl;
  psh = refl;
  bytes = refl;
  count = omega (arith, few);
  some_bytes = given;
}

await_open :
    (tsk awake : TcpSock) (windows windows' : List ℕ)
    → Every (λ w. 0 < w) windows
    → await_window tsk windows ≡ some (awake, windows')
    → (0 < awake.snd_wnd) × Every (λ w. 0 < w) windows'
unfolding await_window
await_open tsk awake [] windows' wide e = ground arith
await_open tsk awake (w ∷ windows) windows' wide e = ground (arith, wide)

await-SameTuple :
    (tsk awake conn : TcpSock) (windows windows' : List ℕ)
    → await_window tsk windows ≡ some (awake, windows')
    → SameTuple tsk conn
    → SameTuple awake conn
unfolding await_window
await-SameTuple tsk awake conn [] windows' e same = ground (arith, same)
await-SameTuple tsk awake conn (w ∷ windows) windows' e same = ground (arith, same)

send-SameTuple :
    (id : ℕ) (tsk conn : TcpSock) (bytes : List ℕ)
    → SameTuple tsk conn
    → SameTuple (tcp_send_packet id tsk bytes).0 conn
unfolding tcp_send_packet
send-SameTuple id tsk conn bytes same = record {
  sip = same.sip;
  sport = same.sport;
  dip = same.dip;
  dport = same.dport;
}

send_loop-IsRead :
    (ids : ℕ → ℕ) (fuel i : ℕ) (tsk conn : TcpSock) (buf windows : List ℕ) (out : Sending)
    → SameTuple tsk conn
    → Every (λ w. 0 < w) windows
    → send_loop fuel ids i tsk buf windows ≡ some out
    → Every (IsRead conn) out.segments
unfolding send_loop
send_loop-IsRead ids fuel i tsk conn [] windows out same wide e =
    subst (λ (o : Sending). Every (IsRead conn) o.segments) (some-injective _ _ e) tt
send_loop-IsRead ids zero i tsk conn (b ∷ buf) windows out same wide e = absurd (none-ne-some out e)
send_loop-IsRead ids (suc fuel) i tsk conn (b ∷ buf) windows out same wide e =
    elim (Option-cases (await_window tsk windows)) [
      | inl asleep ↦
          subst (λ (o : Sending). Every (IsRead conn) o.segments)
            (some-injective (record { tsk = tsk; segments = []; left = b ∷ buf }) out
              (sym (rw (send_loop, asleep) refl) ∙ e))
            tt
      | inr ((awake, windows'), found) ↦
          let size = seg_size awake (b ∷ buf) in
          let payload = take size (b ∷ buf) in
          let (open_now, wide') = await_open tsk awake windows windows' wide found in
          let same' = await-SameTuple tsk awake conn windows windows' found same in
          let (rest, e₁, e₂) =
            bind-some
              (send_loop fuel ids (i + 1) (tcp_send_packet (ids i) awake payload).0
                (drop size (b ∷ buf)) windows')
              (rw (send_loop, found) at e) in
          subst (λ (o : Sending). Every (IsRead conn) o.segments) (some-injective _ _ e₂)
            (
              IsRead-send (ids i) conn awake payload same'
                  (omega (arith, length-take size (b ∷ buf), open_now))
                  (omega (arith, length-take size (b ∷ buf))),
              send_loop-IsRead ids fuel (i + 1) (tcp_send_packet (ids i) awake payload).0 conn
                  (drop size (b ∷ buf)) windows' rest
                  (send-SameTuple (ids i) awake conn payload same') wide' e₁,
            )
    ]

-- Every segment of a call that never finds its window closed when it is woken is intact, carries the
-- connection, the flag PSH and at least one byte.
pub tcp_send_data-IsRead :
    (ids : ℕ → ℕ) (tsk : TcpSock) (buf windows : List ℕ) (out : Sending)
    → Every (λ w. 0 < w) windows
    → tcp_send_data ids tsk buf windows ≡ some out
    → Every (IsRead tsk) out.segments
unfolding tcp_send_data
tcp_send_data-IsRead ids tsk buf windows out wide e =
    send_loop-IsRead ids (length buf + length windows) 0 tsk tsk buf windows out
      (record { sip = refl; sport = refl; dip = refl; dport = refl }) wide e

await_wide :
    (tsk : TcpSock) (windows : List ℕ)
    → 0 < tsk.snd_wnd
    → await_window tsk windows ≡ some (tsk, windows)
unfolding await_window
await_wide tsk [] wide = ground (arith, wide)
await_wide tsk (w ∷ windows) wide = ground (arith, wide)

window-shrink : (wnd n : ℕ) → n ≤ wnd → wnd < 2 ^ 16 → (wnd + 2 ^ 16 - n) % 2 ^ 16 ≡ wnd - n
window-shrink wnd n fits bound = omega arith

send_loop-whole :
    (ids : ℕ → ℕ) (fuel i : ℕ) (tsk : TcpSock) (buf windows : List ℕ) (out : Sending)
    → length buf ≤ tsk.snd_wnd
    → tsk.snd_wnd < 2 ^ 16
    → send_loop fuel ids i tsk buf windows ≡ some out
    → out.left ≡ []
unfolding send_loop
send_loop-whole ids fuel i tsk [] windows out wide bound e =
    subst (λ (o : Sending). o.left ≡ []) (some-injective _ _ e) refl
send_loop-whole ids zero i tsk (b ∷ buf) windows out wide bound e = absurd (none-ne-some out e)
send_loop-whole ids (suc fuel) i tsk (b ∷ buf) windows out wide bound e =
    let size = seg_size tsk (b ∷ buf) in
    let payload = take size (b ∷ buf) in
    let sent : length payload ≡ size = omega (arith, length-take size (b ∷ buf)) in
    let (rest, e₁, e₂) =
      bind-some
        (send_loop fuel ids (i + 1) (tcp_send_packet (ids i) tsk payload).0 (drop size (b ∷ buf))
          windows)
        (rw (send_loop, await_wide tsk windows (omega (arith, wide))) at e) in
    let window : (tcp_send_packet (ids i) tsk payload).0.snd_wnd ≡ tsk.snd_wnd - size =
      unfold tcp_send_packet in
      (ap (λ n. (tsk.snd_wnd + 2 ^ 16 - n) % 2 ^ 16) sent
        ∙ window-shrink tsk.snd_wnd size (omega arith) bound) in
    subst (λ (o : Sending). o.left ≡ []) (some-injective _ _ e₂)
      (send_loop-whole ids fuel (i + 1) (tcp_send_packet (ids i) tsk payload).0
        (drop size (b ∷ buf)) windows rest (omega (arith, window, length-drop size (b ∷ buf), wide))
        (omega (arith, window, bound)) e₁)

-- A window that is as wide as the data lets all of it go.
pub tcp_send_data-whole :
    (ids : ℕ → ℕ) (tsk : TcpSock) (buf windows : List ℕ) (out : Sending)
    → length buf ≤ tsk.snd_wnd
    → tsk.snd_wnd < 2 ^ 16
    → tcp_send_data ids tsk buf windows ≡ some out
    → out.left ≡ []
unfolding tcp_send_data
tcp_send_data-whole ids tsk buf windows out wide bound e =
    send_loop-whole ids (length buf + length windows) 0 tsk buf windows out wide bound e
