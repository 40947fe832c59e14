-- ===== src/Arp/Reach.antt =====
-- The arp cache over its whole life: arpcache_init, and every operation of arpcache.c as a step.
use network_lab.Base.{
  ℕ, ◌+◌, ◌<◌, ◌≤◌, ◌≡◌, refl, false, inl, inr, List, [], ◌∷◌, ◌++◌, none, some, arith, length,
  length-append, replicate, Every, zero, suc, ◌==◌, Bool-cases, Option-cases, at_some, ltb,
}
use network_lab.Packet.{Mac, Iface, Sent}
use network_lab.Arp.{
  CacheEntry, ArpReq, ArpCache, CachedPkt, max_arp_size, arp_request_max_retries, same_request,
  append_pending, new_request, arpcache_append_packet, insert_entry, flush, arpcache_insert,
  sweep_requests, sweep_cache,
}
use network_lab.Arp.Lookup.{IsTable, Distinct}
use network_lab.Arp.Insert.{insert_entry_lem}
use network_lab.Arp.Sweep.{expire-IsTable}

-- An entry of zeroed memory, and the cache that arpcache_init leaves.
abbrev empty_entry : CacheEntry
empty_entry = record { ip4 = 0; mac = replicate 6 0; added = 0; valid = false }

abbrev pub arpcache_init : ArpCache
arpcache_init = record { entries = replicate max_arp_size empty_entry; req_list = [] }

-- What the calls and the sweep do to the cache, with an insertion that does not fault.
pub data Step : ArpCache → ArpCache → Type 0 where
  appends :
      (now : ℕ) (cache : ArpCache) (iface : Iface) (ip4 : ℕ) (pkt : CachedPkt)
      → Step cache (arpcache_append_packet now cache iface ip4 pkt).0
  inserts :
      (now rand : ℕ) (cache cache' : ArpCache) (ip4 : ℕ) (mac : Mac) (frames : List Sent)
      → arpcache_insert now rand cache ip4 mac ≡ some (cache', frames)
      → Step cache cache'
  sweeps : (now : ℕ) (cache : ArpCache) → Step cache (sweep_cache now cache).0

pub data Reachable : ArpCache → Type 0 where
  initial : Reachable arpcache_init
  step : {c d : ArpCache} → Reachable c → Step c d → Reachable d

-- sent five times at most, with a packet that waits
abbrev IsPending : ArpReq → Type 0
IsPending req = (req.retries ≤ arp_request_max_retries) × (0 < length req.cached_packets)

module _ (iface : Iface) (ip4 : ℕ) (pkt : CachedPkt) where
  append_pending-IsPending :
      (reqs reqs' : List ArpReq)
      → append_pending iface ip4 pkt reqs ≡ some reqs'
      → Every IsPending reqs
      → Every IsPending reqs'
  unfolding append_pending
  append_pending-IsPending [] reqs' e p = cc
  append_pending-IsPending (req ∷ reqs) reqs' e p = elim (Bool-cases (same_request iface ip4 req)) [
    | inl same ↦
        let h : append_pending iface ip4 pkt (req ∷ reqs)
            ≡ some (record req { cached_packets = req.cached_packets ++ pkt ∷ [] } ∷ reqs) =
          rw (append_pending, same) refl in
        at_some (Every IsPending) h e
          ((p.0.0, omega (arith, length-append req.cached_packets (pkt ∷ []))), p.1)
    | inr other ↦ elim (Option-cases (append_pending iface ip4 pkt reqs)) [
      | inl nobody ↦
          let h : append_pending iface ip4 pkt (req ∷ reqs) ≡ none =
            rw (append_pending, other, nobody) refl in
          cc
      | inr (rest, found) ↦
          let h : append_pending iface ip4 pkt (req ∷ reqs) ≡ some (req ∷ rest) =
            rw (append_pending, other, found) refl in
          at_some (Every IsPending) h e (p.0, append_pending-IsPending reqs rest found p.1)
    ]
  ]

flush-IsPending :
    (ip4 : ℕ) (mac : Mac) (reqs : List ArpReq)
    → Every IsPending reqs
    → Every IsPending (flush ip4 mac reqs).0
unfolding flush
flush-IsPending ip4 mac [] p = tt
flush-IsPending ip4 mac (req ∷ reqs) p = elim (Bool-cases (req.ip4 == ip4)) [
  | inl same ↦ rw same p.1
  | inr other ↦ rw other (p.0, flush-IsPending ip4 mac reqs p.1)
]

sweep_requests-IsPending :
    (now : ℕ) (reqs : List ArpReq)
    → Every IsPending reqs
    → Every IsPending (sweep_requests now reqs).reqs
unfolding sweep_requests
sweep_requests-IsPending now [] p = tt
sweep_requests-IsPending now (req ∷ reqs) p = elim (Bool-cases (ltb now (req.sent + 1))) [
  | inl early ↦ rw early (p.0, sweep_requests-IsPending now reqs p.1)
  | inr due ↦ elim (Bool-cases (ltb req.retries arp_request_max_retries)) [
    | inl again ↦ rw (due, again) ((ground arith, p.0.1), sweep_requests-IsPending now reqs p.1)
    | inr over ↦ rw (due, over) (sweep_requests-IsPending now reqs p.1)
  ]
]

-- What holds of the cache at every moment.
pub record IsCache (cache : ArpCache) : Type 0 where
  pub table : IsTable cache.entries
  pub pending : Every IsPending cache.req_list

replicate-Distinct : (n : ℕ) → Distinct (replicate n empty_entry)
replicate-Distinct zero = tt
replicate-Distinct (suc n) = (λ h. cc, replicate-Distinct n)

append-IsCache :
    (now : ℕ) (cache : ArpCache) (iface : Iface) (ip4 : ℕ) (pkt : CachedPkt)
    → IsCache cache
    → IsCache (arpcache_append_packet now cache iface ip4 pkt).0
unfolding arpcache_append_packet new_request
append-IsCache now cache iface ip4 pkt c =
    elim (Option-cases (append_pending iface ip4 pkt cache.req_list)) [
      | inl fresh ↦
          rw (arpcache_append_packet, fresh)
            (record { table = c.table; pending = ((omega arith, omega arith), c.pending) })
      | inr (reqs, found) ↦
          rw (arpcache_append_packet, found)
            (record {
              table = c.table;
              pending = append_pending-IsPending iface ip4 pkt cache.req_list reqs found c.pending;
            })
    ]

insert-IsCache :
    (now rand : ℕ) (cache : ArpCache) (ip4 : ℕ) (mac : Mac) (out : ArpCache × List Sent)
    → arpcache_insert now rand cache ip4 mac ≡ some out
    → IsCache cache
    → IsCache out.0
unfolding arpcache_insert
insert-IsCache now rand cache ip4 mac out e c =
    elim (Option-cases (insert_entry now rand ip4 mac cache.entries)) [
      | inl fault ↦
          let h : arpcache_insert now rand cache ip4 mac ≡ none =
            rw (arpcache_insert, fault) refl in
          cc
      | inr (entries, done) ↦
          let h : arpcache_insert now rand cache ip4 mac
              ≡ some (
                record { entries = entries; req_list = (flush ip4 mac cache.req_list).0 },
                (flush ip4 mac cache.req_list).1,
              ) =
            rw (arpcache_insert, done) refl in
          at_some (λ o. IsCache o.0) h e
            (record {
              table = (insert_entry_lem now rand ip4 mac cache.entries c.table done).table;
              pending = flush-IsPending ip4 mac cache.req_list c.pending;
            })
    ]

Step-IsCache : {c d : ArpCache} → Step c d → IsCache c → IsCache d
Step-IsCache (appends now cache iface ip4 pkt) c = append-IsCache now cache iface ip4 pkt c
Step-IsCache (inserts now rand cache cache' ip4 mac frames e) c =
    insert-IsCache now rand cache ip4 mac (cache', frames) e c
Step-IsCache (sweeps now cache) c =
    unfold sweep_cache in
    record {
      table = expire-IsTable now c.table;
      pending = sweep_requests-IsPending now cache.req_list c.pending;
    }

-- Whatever calls and sweeps have run since arpcache_init, none of them at fault: the table has 32
-- entries and no address twice among the valid ones, every request was sent five times at most, and
-- every request has a packet that waits for it.
pub Reachable-IsCache : {cache : ArpCache} → Reachable cache → IsCache cache
Reachable-IsCache initial = record {
  table = record { full_size = refl; distinct = replicate-Distinct 32 };
  pending = tt;
}
Reachable-IsCache (step r s) = Step-IsCache s (Reachable-IsCache r)
