-- ===== src/Arp.antt =====
-- 16-tcp_data_transfer/arpcache.c and arp.c: the table of address mappings, the packets that wait for
-- a reply, and the arp messages. The functions take what `time(NULL)` and `rand()` return, and return
-- the frames that they send beside the new cache.
mod Message
pub mod Lookup
pub mod Insert
pub mod Pending
pub mod Sweep
pub mod Reach
mod Tests
pub use Message.*
use network_lab.Base.{
  ℕ, zero, suc, ◌+◌, ◌-◌, ◌%◌, ◌≤◌, ◌<◌, Bool, true, false, ◌&&◌, not, List, [], ◌∷◌, ◌++◌, map,
  Option, none, some, ltb, leb, ◌==◌, if◌then◌else◌, set, ◌>>=◌,
}
use network_lab.Packet.{
  Mac, Iface, EtherHdr, IpPacket, EtherArp, ArpPacket, Frame, ip_frame, arp_frame, Sent, eth_alen,
  eth_p_ip, eth_p_arp,
}

abbrev pub max_arp_size : ℕ
max_arp_size = 32

abbrev pub arp_entry_timeout : ℕ
arp_entry_timeout = 15

abbrev pub arp_request_max_retries : ℕ
arp_request_max_retries = 5

pub record CachedPkt : Type 0 where
  pub packet : IpPacket
  pub len : ℕ

pub record ArpReq : Type 0 where
  pub iface : Iface
  pub ip4 : ℕ
  pub sent : ℕ
  pub retries : ℕ
  pub cached_packets : List CachedPkt

pub record CacheEntry : Type 0 where
  pub ip4 : ℕ
  pub mac : Mac
  pub added : ℕ
  pub valid : Bool

pub record ArpCache : Type 0 where
  pub entries : List CacheEntry
  pub req_list : List ArpReq

-- `entry->valid && entry->ip4 == ip4`
abbrev pub holds : ℕ → CacheEntry → Bool
holds ip4 entry = entry.valid && entry.ip4 == ip4

-- arpcache_lookup: the first valid entry for the address.
unfoldable pub lookup_entries : ℕ → List CacheEntry → Option Mac
lookup_entries ip4 [] = none
lookup_entries ip4 (entry ∷ entries) =
    if holds ip4 entry then some entry.mac else lookup_entries ip4 entries

unfoldable pub arpcache_lookup : ArpCache → ℕ → Option Mac
arpcache_lookup cache ip4 = lookup_entries ip4 cache.entries

-- `req_entry->iface->index == iface->index && req_entry->ip4 == ip4`
abbrev pub same_request : Iface → ℕ → ArpReq → Bool
same_request iface ip4 req = req.iface.index == iface.index && req.ip4 == ip4

-- The packet goes to the tail of the first request that fits, if there is one.
unfoldable pub append_pending : Iface → ℕ → CachedPkt → List ArpReq → Option (List ArpReq)
append_pending iface ip4 pkt [] = none
append_pending iface ip4 pkt (req ∷ reqs) =
    let rest = append_pending iface ip4 pkt reqs in
    if same_request iface ip4 req
    then some (record req { cached_packets = req.cached_packets ++ pkt ∷ [] } ∷ reqs)
    else rest >>= λ reqs'. some (req ∷ reqs')

unfoldable pub new_request : ℕ → Iface → ℕ → CachedPkt → ArpReq
new_request now iface ip4 pkt = record {
  iface = iface;
  ip4 = ip4;
  sent = now;
  retries = 1;
  cached_packets = pkt ∷ [];
}

unfoldable pub arpcache_append_packet : ℕ → ArpCache → Iface → ℕ → CachedPkt → ArpCache × List Sent
arpcache_append_packet now cache iface ip4 pkt =
    elim (append_pending iface ip4 pkt cache.req_list) [
      | some reqs ↦ (record cache { req_list = reqs }, [])
      | none ↦ (
        record cache { req_list = new_request now iface ip4 pkt ∷ cache.req_list },
        arp_request iface ip4 ∷ [],
      )
    ]

-- The first loop of arpcache_insert: every valid entry for the address is refreshed.
unfoldable pub refresh : ℕ → ℕ → Mac → List CacheEntry → List CacheEntry
refresh now ip4 mac [] = []
refresh now ip4 mac (entry ∷ entries) =
    (if holds ip4 entry then record entry { mac = mac; added = now } else entry)
    ∷ refresh now ip4 mac entries

-- Its flag `found`.
unfoldable pub is_known : ℕ → List CacheEntry → Bool
is_known ip4 [] = false
is_known ip4 (entry ∷ entries) = if holds ip4 entry then true else is_known ip4 entries

-- Its `pos`, the last entry that is not valid; `none` is -1.
unfoldable pub last_free : ℕ → List CacheEntry → Option ℕ
last_free i [] = none
last_free i (entry ∷ entries) = elim (last_free (i + 1) entries) [
  | some pos ↦ some pos
  | none ↦ if entry.valid then none else some i
]

-- Without an entry for the address one is overwritten: `if (pos != -1) pos = rand() % MAX_ARP_SIZE`.
-- `none` is the write to `entries[-1]`.
unfoldable pub insert_entry : ℕ → ℕ → ℕ → Mac → List CacheEntry → Option (List CacheEntry)
insert_entry now rand ip4 mac entries =
    if is_known ip4 entries
    then some (refresh now ip4 mac entries)
    else (last_free 0 entries >>= λ _. some (
        set (refresh now ip4 mac entries) (rand % max_arp_size)
          (record { ip4 = ip4; mac = mac; added = now; valid = true })))

-- A packet leaves with the ether header filled in.
unfoldable pub send_pending : Mac → Iface → CachedPkt → Sent
send_pending mac iface pkt = record {
  iface = iface;
  frame = ip_frame (record (pkt.packet) {
    eth = record (pkt.packet.eth) { ether_dhost = mac; ether_shost = iface.mac };
  });
  len = pkt.len;
}

-- The first request for the address is removed and its packets are sent.
unfoldable pub flush : ℕ → Mac → List ArpReq → List ArpReq × List Sent
flush ip4 mac [] = ([], [])
flush ip4 mac (req ∷ reqs) =
    let rest = flush ip4 mac reqs in
    if req.ip4 == ip4
    then (reqs, map (send_pending mac req.iface) req.cached_packets)
    else (req ∷ rest.0, rest.1)

unfoldable pub arpcache_insert : ℕ → ℕ → ArpCache → ℕ → Mac → Option (ArpCache × List Sent)
arpcache_insert now rand cache ip4 mac = insert_entry now rand ip4 mac cache.entries >>= λ entries.
    let (reqs, frames) = flush ip4 mac cache.req_list in
    some (record { entries = entries; req_list = reqs }, frames)

-- `now - entries[i].added >= ARP_ENTRY_TIMEOUT`: signed, so it fails with an entry from the future.
abbrev is_old : ℕ → CacheEntry → Bool
is_old now entry = leb (entry.added + arp_entry_timeout) now

unfoldable pub expire : ℕ → List CacheEntry → List CacheEntry
expire now [] = []
expire now (entry ∷ entries) =
    (if entry.valid && is_old now entry then record entry { valid = false } else entry)
    ∷ expire now entries

-- What the sweep leaves of the request list, what it sends and what it gives up.
pub record Swept : Type 0 where
  pub reqs : List ArpReq
  pub resent : List Sent
  pub dropped : List CachedPkt

-- The loop over the requests. A request that is sent again keeps its time `sent`.
unfoldable pub sweep_requests : ℕ → List ArpReq → Swept
sweep_requests now [] = record { reqs = []; resent = []; dropped = [] }
sweep_requests now (req ∷ reqs) =
    let rest = sweep_requests now reqs in
    if ltb now (req.sent + 1)
    then record rest { reqs = req ∷ rest.reqs }
    else if ltb req.retries arp_request_max_retries
    then record rest {
      reqs = record req { retries = req.retries + 1 } ∷ rest.reqs;
      resent = arp_request req.iface req.ip4 ∷ rest.resent;
    }
    else record rest { dropped = req.cached_packets ++ rest.dropped }

-- The part of arpcache_sweep under the lock; the dropped packets get an icmp message each.
unfoldable pub sweep_cache : ℕ → ArpCache → ArpCache × List Sent × List CachedPkt
sweep_cache now cache =
    let swept = sweep_requests now cache.req_list in
    (
      record { entries = expire now cache.entries; req_list = swept.reqs },
      swept.resent,
      swept.dropped,
    )

-- iface_send_packet_by_arp
unfoldable pub iface_send_packet_by_arp :
    ℕ → ArpCache → Iface → ℕ → CachedPkt → ArpCache × List Sent
iface_send_packet_by_arp now cache iface dst_ip pkt =
    let ready : CachedPkt = record pkt {
      packet = record (pkt.packet) {
        eth = record (pkt.packet.eth) { ether_shost = iface.mac; ether_type = eth_p_ip };
      };
    } in
    elim (arpcache_lookup cache dst_ip) [
      | some mac ↦ (cache, send_pending mac iface ready ∷ [])
      | none ↦ arpcache_append_packet now cache iface dst_ip ready
    ]

-- handle_arp_packet; the reply to a request is sent before the sender is cached.
unfoldable pub handle_arp_packet :
    ℕ → ℕ → ArpCache → Iface → ArpPacket → Option (ArpCache × List Sent)
handle_arp_packet now rand cache iface packet =
    let arp = packet.arp in
    if arp.arp_op == 1
    then (if iface.ip == arp.arp_tpa
        then (arpcache_insert now rand cache arp.arp_spa arp.arp_sha >>= λ out.
            some (out.0, arp_reply iface arp ∷ out.1))
        else some (cache, []))
    else if arp.arp_op == 2
    then (if iface.ip == arp.arp_tpa
        then arpcache_insert now rand cache arp.arp_spa arp.arp_sha
        else some (cache, []))
    else some (cache, [])
