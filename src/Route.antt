-- ===== src/Route.antt =====
-- 16-tcp_data_transfer/rtable.c and longest_prefix_match of ip.c: the routing table, a list in the
-- order of insertion. Addresses and masks are numbers below 2 ^ 32.
pub mod Match
mod Entries
mod Kernel
mod Messages
mod Tests
use Prim.Native.Nat.{bit_and}
use network_lab.Base.{
  ℕ, Bool, List, [], ◌∷◌, ◌++◌, Option, none, some, true, false, ltb, ◌==◌, ◌&&◌, if◌then◌else◌,
}
use network_lab.Packet.{Iface}

pub record RtEntry : Type 0 where
  pub dest : ℕ
  pub mask : ℕ
  pub gw : ℕ
  pub iface : Iface

unfoldable new_rt_entry : ℕ → ℕ → ℕ → Iface → RtEntry
new_rt_entry dest mask gw iface = record { dest = dest; mask = mask; gw = gw; iface = iface }

unfoldable pub add_rt_entry : List RtEntry → RtEntry → List RtEntry
add_rt_entry rtable entry = rtable ++ entry ∷ []

-- `(dst & entry->mask) == (entry->dest & entry->mask)`
unfoldable pub matches : RtEntry → ℕ → Bool
matches entry dst = bit_and dst entry.mask == bit_and entry.dest entry.mask

-- `!selected || selected->mask < entry->mask`
unfoldable pub is_better : Option RtEntry → RtEntry → Bool
is_better none entry = true
is_better (some selected) entry = ltb selected.mask entry.mask

-- The loop over the table.
unfoldable pub select_longest : ℕ → Option RtEntry → List RtEntry → Option RtEntry
select_longest dst selected [] = selected
select_longest dst selected (entry ∷ rtable) =
    select_longest dst
      (if matches entry dst
        then (if is_better selected entry then some entry else selected)
        else selected)
      rtable

unfoldable pub longest_prefix_match : List RtEntry → ℕ → Option RtEntry
longest_prefix_match rtable dst = select_longest dst none rtable

unfoldable pub get_next_hop : RtEntry → ℕ → ℕ
get_next_hop entry dst = if entry.gw == 0 then dst else entry.gw
