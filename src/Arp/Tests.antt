-- ===== src/Arp/Tests.antt =====
-- The arp cache on small tables.
use mathlib.Core.Option
use network_lab.Base.{
  ℕ, zero, suc, ◌≡◌, refl, true, false, List, [], ◌∷◌, none, some, replicate, ◌⊎◌, ◌≢◌, Every,
}
use network_lab.Packet.{Mac, Iface, IpPacket}
use network_lab.Arp.{
  CachedPkt, ArpReq, CacheEntry, ArpCache, lookup_entries, refresh, is_known, last_free,
  insert_entry, arpcache_append_packet, send_pending, flush, expire,
}
use network_lab.Arp.Lookup.{IsTable, Distinct}
use network_lab.Arp.Insert.{Inserted, insert_entry_lem}
use network_lab.Arp.Sweep.{expire-IsTable}
use network_lab.Arp.Reach.{arpcache_init, appends, initial, step, IsCache, Reachable-IsCache}
use network_lab.Packet.{ip_frame}
use network_lab.Arp.Pending.{flush_lem, Flushed, flush-arpcache_append_packet}

abbrev mac_a : Mac
mac_a = 2 ∷ 0 ∷ 0 ∷ 0 ∷ 0 ∷ 10 ∷ []

abbrev mac_b : Mac
mac_b = 2 ∷ 0 ∷ 0 ∷ 0 ∷ 0 ∷ 11 ∷ []

abbrev free_entry : CacheEntry
free_entry = record { ip4 = 0; mac = []; added = 0; valid = false }

abbrev entry_a : CacheEntry
entry_a = record { ip4 = 10; mac = mac_a; added = 100; valid = true }

-- One mapping in slot 0 and 31 free slots.
abbrev table : List CacheEntry
table = entry_a ∷ replicate 31 free_entry

abbrev eth0 : Iface
eth0 = record { index = 1; mac = mac_b; ip = 0x0a000001; mask = 0xffffff00 }

abbrev packet : IpPacket
packet = record {
  eth = record { ether_dhost = []; ether_shost = []; ether_type = 0x0800 };
  hdr = record {
    version = 4;
    ihl = 5;
    tos = 0;
    tot_len = 20;
    id = 0;
    frag_off = 0;
    ttl = 64;
    protocol = 6;
    checksum = 0;
    saddr = 0x0a000001;
    daddr = 11;
  };
  body = [];
}

abbrev pending : CachedPkt
pending = record { packet = packet; len = 34 }

abbrev request : ArpReq
request = record { iface = eth0; ip4 = 11; sent = 100; retries = 1; cached_packets = pending ∷ [] }

abbrev cache : ArpCache
cache = record { entries = table; req_list = request ∷ [] }

free-Distinct : (n : ℕ) → Distinct (replicate n free_entry)
free-Distinct zero = tt
free-Distinct (suc n) = (λ h. cc, free-Distinct n)

table-IsTable : IsTable table
unfolding is_known
table-IsTable = record { full_size = refl; distinct = (λ _. refl, free-Distinct 31) }

insert_keeps_others : lookup_entries 10 (refresh 101 11 mac_b table) ≡ some mac_a
unfolding lookup_entries refresh
insert_keeps_others = refl

-- A random slot is overwritten even though others are free: with slot 0 the only mapping is lost.
insert_evicts : Option.map (lookup_entries 10) (insert_entry 101 32 11 mac_b table) ≡ some none
unfolding lookup_entries refresh insert_entry is_known last_free
insert_evicts = refl

insert_entry_lem_example :
    Inserted 101 32 11 mac_b table
      (record { ip4 = 11; mac = mac_b; added = 101; valid = true } ∷ replicate 31 free_entry)
unfolding refresh insert_entry is_known last_free
insert_entry_lem_example = insert_entry_lem 101 32 11 mac_b table table-IsTable refl

expire-IsTable_example : IsTable (expire 200 table)
expire-IsTable_example = expire-IsTable 200 table-IsTable

flush-arpcache_append_packet_example :
    (flush 11 mac_a (arpcache_append_packet 102 cache eth0 11 pending).0.req_list).1
    ≡ send_pending mac_a eth0 pending
      ∷ record {
        iface = eth0;
        frame = ip_frame (record (pending.packet) {
          eth = record (pending.packet.eth) { ether_dhost = mac_a; ether_shost = eth0.mac };
        });
        len = pending.len;
      }
      ∷ []
unfolding flush
flush-arpcache_append_packet_example =
    flush-arpcache_append_packet eth0 11 pending mac_a 102 cache ((λ _. refl), tt)

flush_lem_example :
    (Every (λ r. r.ip4 ≢ 11) (request ∷ []) × (flush 11 mac_a (request ∷ []) ≡ (request ∷ [], [])))
    ⊎ Flushed 11 mac_a (request ∷ [])
flush_lem_example = flush_lem 11 mac_a (request ∷ [])

-- A packet is queued in the empty cache.
Reachable-IsCache_example : IsCache (arpcache_append_packet 7 arpcache_init eth0 11 pending).0
Reachable-IsCache_example =
    Reachable-IsCache (step initial (appends 7 arpcache_init eth0 11 pending))
