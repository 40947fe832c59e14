-- ===== src/Switch.antt =====
-- 06-switching-yisong/mac.c, hash.c, packet.c (broadcast_packet) and main.c (handle_packet): the
-- learning switch. `time(NULL)` is read once for a packet. A bucket is the list that hangs on its slot
-- of the hash table, and a null slot is the empty list.
pub mod Table
pub mod Learn
pub mod Forward
pub mod Aging
mod Tests
use Prim.Native.Nat.{bit_xor}
use network_lab.Base.{
  ℕ, zero, suc, ◌+◌, ◌%◌, ◌^◌, Bool, true, false, ◌&&◌, not, List, [], ◌∷◌, ◌++◌, Option, none,
  some, take, drop, replicate, ltb, ◌==◌, if◌then◌else◌, ◌>>=◌,
}
use network_lab.Packet.{Mac, eth_alen}

-- `iface_info_t`, as far as the switch reads it
pub record Port : Type 0 where
  pub fd : ℕ
  pub index : ℕ

pub record MacPortEntry : Type 0 where
  pub mac : Mac
  pub iface : Port
  pub visited : ℕ

abbrev pub MacPortMap : Type 0
MacPortMap = List (List MacPortEntry)

-- hash8 of hash.c, from the last byte to the first
unfoldable pub hash8_down : List ℕ → ℕ
hash8_down [] = 0
hash8_down (b ∷ addr) = bit_xor (hash8_down addr) b % 2 ^ 8

-- The loop of compare_mac_addr: how many bytes agree.
unfoldable pub count_equal : Mac → Mac → ℕ
count_equal [] b = 0
count_equal (x ∷ a) [] = 0
count_equal (x ∷ a) (y ∷ b) = count_equal a b + (if x == y then 1 else 0)

unfoldable pub compare_mac_addr : Mac → Mac → Bool
compare_mac_addr a b = count_equal a b == eth_alen

abbrev pub init_mac_hash_table : MacPortMap
init_mac_hash_table = replicate 256 []

-- The walk along one bucket of lookup_port: the port, and the bucket with the entry's time set.
unfoldable pub lookup_bucket : ℕ → Mac → List MacPortEntry → Option (Port × List MacPortEntry)
lookup_bucket now mac [] = none
lookup_bucket now mac (entry ∷ bucket) =
    let rest = lookup_bucket now mac bucket in
    if compare_mac_addr mac entry.mac
    then some (entry.iface, record entry { visited = now } ∷ bucket)
    else elim rest [ none ↦ none | some (port, bucket') ↦ some (port, entry ∷ bucket') ]

-- The buckets are walked one after the other, whatever the hash of the address.
unfoldable pub lookup_port : ℕ → Mac → MacPortMap → Option Port × MacPortMap
lookup_port now mac [] = (none, [])
lookup_port now mac (bucket ∷ table) =
    let rest = lookup_port now mac table in
    elim (lookup_bucket now mac bucket) [
      | some (port, bucket') ↦ (some port, bucket' ∷ table)
      | none ↦ (rest.0, bucket ∷ rest.1)
    ]

-- A new last entry of bucket `i`.
unfoldable pub append_at : ℕ → MacPortEntry → MacPortMap → MacPortMap
append_at i entry [] = []
append_at zero entry (bucket ∷ table) = (bucket ++ entry ∷ []) ∷ table
append_at (suc i) entry (bucket ∷ table) = bucket ∷ append_at i entry table

unfoldable pub insert_mac_port : ℕ → Mac → Port → MacPortMap → MacPortMap
insert_mac_port now mac iface table =
    append_at (hash8_down mac) (record { mac = mac; iface = iface; visited = now }) table

-- `(int)(now - current_entry->visited) > 30`
abbrev is_aged : ℕ → MacPortEntry → Bool
is_aged now entry = ltb (entry.visited + 30) now

unfoldable pub has_aged : ℕ → List MacPortEntry → Bool
has_aged now [] = false
has_aged now (entry ∷ bucket) = if is_aged now entry then true else has_aged now bucket

-- One entry, which has aged: it is freed and then read for a message.
unfoldable pub is_lone : ℕ → List MacPortEntry → Bool
is_lone now [] = false
is_lone now (entry ∷ []) = is_aged now entry
is_lone now (entry ∷ entry' ∷ bucket) = false

-- The first aged entry of a bucket empties its slot and ends the walk; the number of such buckets.
-- `none` is the read of an entry that is freed.
unfoldable pub sweep_aged_mac_port_entry : ℕ → MacPortMap → Option (ℕ × MacPortMap)
sweep_aged_mac_port_entry now [] = some (0, [])
sweep_aged_mac_port_entry now (bucket ∷ table) =
    let rest = sweep_aged_mac_port_entry now table in
    if is_lone now bucket
    then none
    else rest >>= λ (deleted, table').
        if has_aged now bucket
        then some (deleted + 1, [] ∷ table')
        else some (deleted, bucket ∷ table')

-- The ports that broadcast_packet sends on.
unfoldable pub broadcast_packet : List Port → Port → List Port
broadcast_packet [] iface = []
broadcast_packet (port ∷ ports) iface =
    if port.fd == iface.fd
    then broadcast_packet ports iface
    else port ∷ broadcast_packet ports iface

-- `strcmp(packet, "33")` is 0 on a packet that starts with the bytes 0x33, 0x33 and 0.
unfoldable pub is_33 : List ℕ → Bool
is_33 (a ∷ b ∷ c ∷ packet) = a == 0x33 && b == 0x33 && c == 0
is_33 _ = false

abbrev pub ether_dhost : List ℕ → Mac
ether_dhost packet = take eth_alen packet

abbrev pub ether_shost : List ℕ → Mac
ether_shost packet = take eth_alen (drop eth_alen packet)

-- The first half of handle_packet: the packet is sent on a known port, or on all the others.
unfoldable pub forward : ℕ → List Port → Port → List ℕ → MacPortMap → List Port × MacPortMap
forward now ports iface packet table =
    let (found, table') = lookup_port now (ether_dhost packet) table in
    elim found [
      | none ↦ (if is_33 packet then [] else broadcast_packet ports iface, table')
      | some _ ↦
          if is_33 packet
          then ([], table')
          else (let (again, table'') = lookup_port now (ether_dhost packet) table' in
              elim again [ none ↦ ([], table'') | some port ↦ (port ∷ [], table'') ])
    ]

-- The second half: an unknown source is learnt.
unfoldable pub learn : ℕ → Port → List ℕ → MacPortMap → MacPortMap
learn now iface packet table =
    let (found, table') = lookup_port now (ether_shost packet) table in
    elim found [
      | none ↦
          if is_33 packet then table' else insert_mac_port now (ether_shost packet) iface table'
      | some _ ↦ table'
    ]

-- The ports that the packet is sent on, and the new table.
unfoldable pub handle_packet : ℕ → List Port → Port → List ℕ → MacPortMap → List Port × MacPortMap
unfolding forward learn
handle_packet now ports iface packet table =
    let (sent, table') = forward now ports iface packet table in
    (sent, learn now iface packet table')
