-- ===== src/Route/Kernel.antt =====
-- 16-tcp_data_transfer/rtable_internal.c: the table that is made of the kernel's messages. The
-- messages stand as the macros of netlink read them, and what SIOCGIFNAME answers is a parameter.
use network_lab.Base.{
  List, Option, [], if◌then◌else◌, leb, none, some, ℕ, ◌%◌, ◌&&◌, ◌*◌, ◌+◌, ◌-◌, ◌==◌, ◌>>=◌, ◌^◌,
  ◌∷◌,
}
use network_lab.Packet.{Iface, if_name_to_iface}
use network_lab.Route.{RtEntry, new_rt_entry, add_rt_entry}

-- An attribute of a route, the numbers in host order.
pub data RtAttr : Type 0 where
  rta_dst : ℕ → RtAttr
  rta_gateway : ℕ → RtAttr
  rta_oif : ℕ → RtAttr
  rta_other : RtAttr

pub record RtMsg : Type 0 where
  pub rtm_table : ℕ
  pub rtm_dst_len : ℕ
  pub attrs : List RtAttr

-- The variables of the inner loop; `if_name` is not initialised.
pub record Parsed : Type 0 where
  pub dest : ℕ
  pub mask : ℕ
  pub gw : ℕ
  pub if_name : Option (List ℕ)

-- `0xFFFFFFFF << (32 - rtm_dst_len)`, which C leaves undefined for other lengths.
unfoldable pub mask_of : ℕ → Option ℕ
mask_of dst_len =
    if leb 1 dst_len && leb dst_len 32
    then some (0xFFFFFFFF * 2 ^ (32 - dst_len) % 2 ^ 32)
    else none

-- The inner loop; `none` is an exit or undefined.
unfoldable pub parse_attrs : (ℕ → Option (List ℕ)) → ℕ → List RtAttr → Parsed → Option Parsed
parse_attrs names dst_len [] p = some p
parse_attrs names dst_len (rta_dst dest ∷ attrs) p = mask_of dst_len >>= λ mask.
    parse_attrs names dst_len attrs (record p { dest = dest; mask = mask })
parse_attrs names dst_len (rta_gateway gw ∷ attrs) p =
    parse_attrs names dst_len attrs (record p { gw = gw })
parse_attrs names dst_len (rta_oif index ∷ attrs) p =
    names index >>= λ name. parse_attrs names dst_len attrs (record p { if_name = some name })
parse_attrs names dst_len (rta_other ∷ attrs) p = parse_attrs names dst_len attrs p

abbrev pub add_if : Option Iface → Parsed → List RtEntry → ℕ → List RtEntry × ℕ
add_if none p rtable n = (rtable, n)
add_if (some iface) p rtable n =
    (add_rt_entry rtable (new_rt_entry p.dest p.mask p.gw iface), n + 1)

-- The outer loop on the table so far and the number of its entries.
unfoldable pub parse_from :
    (ℕ → Option (List ℕ))
    → List (List ℕ × Iface)
    → List RtMsg
    → List RtEntry
    → ℕ
    → Option (List RtEntry × ℕ)
parse_from names ifaces [] rtable n = some (rtable, n)
parse_from names ifaces (msg ∷ msgs) rtable n =
    let skipped = parse_from names ifaces msgs rtable n in
    let parsed =
      parse_attrs names msg.rtm_dst_len msg.attrs
        (record { dest = 0; mask = 0; gw = 0; if_name = none })
      >>= λ p. p.if_name >>= λ if_name.
          let (rtable', n') = add_if (if_name_to_iface ifaces if_name) p rtable n in
          parse_from names ifaces msgs rtable' n' in
    if msg.rtm_table == 254 then parsed else skipped

unfoldable pub parse_routing_info :
    (ℕ → Option (List ℕ)) → List (List ℕ × Iface) → List RtMsg → Option (List RtEntry × ℕ)
parse_routing_info names ifaces msgs = parse_from names ifaces msgs [] 0
