-- ===== src/Nat/Direction.antt =====
-- get_packet_direction and nat_translate_packet of 12-nat-yisong/nat.c.
use network_lab.Base.{
  ℕ, ◌≡◌, ◌≢◌, ◌↔◌, Bool, ◌&&◌, List, [], Option, none, some, arith, ◌==◌, if◌then◌else◌, ◌>>=◌,
}
use network_lab.Packet.{ipproto_tcp}
use network_lab.Route.{RtEntry, longest_prefix_match}
use network_lab.Segment.{Segment}
use network_lab.Nat.{NatTable, Env, translate_out, translate_in}

pub data PacketDir : Type 0 where
  dir_in dir_out dir_invalid : PacketDir

-- The address of the interface of the route; `none` is a null pointer that is followed.
unfoldable pub route_ip : List RtEntry → ℕ → Option ℕ
route_ip rtable addr = longest_prefix_match rtable addr >>= λ entry. some entry.iface.ip

-- The second test, which stands behind the first also where the first one's inner test fails.
unfoldable direction_in : NatTable → ℕ → ℕ → PacketDir
direction_in nat src_ip daddr =
    if src_ip == nat.external_ip && daddr == nat.external_ip then dir_in else dir_invalid

unfoldable pub get_packet_direction : List RtEntry → NatTable → Segment → Option PacketDir
unfolding direction_in
get_packet_direction rtable nat seg = route_ip rtable seg.ip.saddr >>= λ src_ip.
    if src_ip == nat.internal_ip
    then (route_ip rtable seg.ip.daddr >>= λ dst_ip.
        if dst_ip == nat.external_ip
        then some dir_out
        else some (direction_in nat src_ip seg.ip.daddr))
    else some (direction_in nat src_ip seg.ip.daddr)

-- What becomes of a packet: a null pointer, an icmp answer (DEST_UNREACH, HOST_UNREACH) to it, a
-- silent drop, a search for a port that still runs or a use of freed memory, or a translation.
pub data Verdict : Type 0 where
  fault : Verdict
  unreachable : Verdict
  dropped : Verdict
  stuck : Verdict
  translated : NatTable → List Segment → Verdict

module _ (sprintf_d : ℕ → List ℕ) (is_kept : Segment → Bool) where
  unfoldable pub do_translation : Env → NatTable → Segment → PacketDir → Verdict
  do_translation env nat seg dir_out = elim (translate_out sprintf_d is_kept env nat seg) [
    | none ↦ stuck
    | some (nat', sent) ↦ translated nat' sent
  ]
  do_translation env nat seg dir_in = elim (translate_in sprintf_d is_kept env.now nat seg) [
    | none ↦ stuck
    | some (nat', sent) ↦ translated nat' sent
  ]
  do_translation env nat seg dir_invalid = translated nat []

  -- An invalid direction is answered, and then a packet that is not tcp is dropped.
  unfoldable pub act : Env → NatTable → Segment → PacketDir → Verdict
  unfolding do_translation
  act env nat seg dir_invalid = unreachable
  act env nat seg dir =
      if seg.ip.protocol == ipproto_tcp then do_translation env nat seg dir else dropped

  unfoldable pub nat_translate_packet : List RtEntry → Env → NatTable → Segment → Verdict
  nat_translate_packet rtable env nat seg = elim (get_packet_direction rtable nat seg) [
    | none ↦ fault
    | some dir ↦ act env nat seg dir
  ]

-- Between two interfaces of different addresses, and with routes for both ends: a packet goes out
-- exactly when its source is routed inside and its destination outside, and comes in exactly when its
-- source is routed outside and it is for the external address itself.
get_packet_direction_lem :
    (rtable : List RtEntry) (nat : NatTable) (seg : Segment) (src dst : ℕ)
    → nat.internal_ip ≢ nat.external_ip
    → route_ip rtable seg.ip.saddr ≡ some src
    → route_ip rtable seg.ip.daddr ≡ some dst
    → ((get_packet_direction rtable nat seg ≡ some dir_out)
        ↔ ((src ≡ nat.internal_ip) × (dst ≡ nat.external_ip)))
      × ((get_packet_direction rtable nat seg ≡ some dir_in)
          ↔ ((src ≡ nat.external_ip) × (seg.ip.daddr ≡ nat.external_ip)))
unfolding get_packet_direction
get_packet_direction_lem rtable nat seg src dst ne s d =
    rw (s, d) ((λ e. ground arith, λ e. ground arith), (λ e. ground arith, λ e. ground arith))
