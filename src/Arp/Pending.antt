-- ===== src/Arp/Pending.antt =====
-- Packets that wait for an address: they are sent when it is learnt, and none is lost.
use mathlib.Core.List.{Perm, perm_middle, map-append}
use mathlib.Core.List.Perm
use network_lab.Base.{
  ℕ, ◌≡◌, ◌≢◌, refl, sym, ap, ap₂, ◌∙◌, true, false, ◌⊎◌, inl, inr, List, [], ◌∷◌, ◌++◌, map, none,
  some, arith, Every, ◌==◌, Bool-cases, Option-cases, append_assoc, at_some, ==_refl,
}
use mathlib.Core.Option.{some-injective}
use network_lab.Packet.{Mac, Iface, ip_frame}
use network_lab.Arp.{
  ArpReq, ArpCache, CachedPkt, same_request, append_pending, new_request, arpcache_append_packet,
  arp_request, send_pending, flush,
}
use network_lab.Arp.Sweep.{waiting}

module _ (iface : Iface) (ip4 : ℕ) (pkt : CachedPkt) where
  -- A packet is appended to the first request that fits, or no request fits.
  append_cases :
      (req : ArpReq) (reqs : List ArpReq)
      → ((same_request iface ip4 req ≡ true)
          × (append_pending iface ip4 pkt (req ∷ reqs)
              ≡ some (record req { cached_packets = req.cached_packets ++ pkt ∷ [] } ∷ reqs)))
        ⊎ ((same_request iface ip4 req ≡ false)
            × (append_pending iface ip4 pkt reqs ≡ none)
            × (append_pending iface ip4 pkt (req ∷ reqs) ≡ none))
        ⊎ ((reqs' : List ArpReq) × (same_request iface ip4 req ≡ false)
            × (append_pending iface ip4 pkt reqs ≡ some reqs')
            × (append_pending iface ip4 pkt (req ∷ reqs) ≡ some (req ∷ reqs')))
  unfolding append_pending
  append_cases req reqs = elim (Bool-cases (same_request iface ip4 req)) [
    | inl same ↦ inl (same, rw same refl)
    | inr other ↦ elim (Option-cases (append_pending iface ip4 pkt reqs)) [
      | inl e ↦ inr (inl (other, e, rw (other, e) refl))
      | inr (reqs', e) ↦ inr (inr (reqs', other, e, rw (other, e) refl))
    ]
  ]

  append_pending-Perm :
      (reqs reqs' : List ArpReq)
      → append_pending iface ip4 pkt reqs ≡ some reqs'
      → Perm (waiting reqs') (pkt ∷ waiting reqs)
  unfolding waiting
  append_pending-Perm [] reqs' e = unfold append_pending in cc
  append_pending-Perm (req ∷ reqs) reqs' e = elim (append_cases req reqs) [
    | inl (same, h) ↦
        at_some (λ rs. Perm (waiting rs) (pkt ∷ waiting (req ∷ reqs))) h e
          (rw append_assoc (perm_middle req.cached_packets (waiting reqs)))
    | inr (inl (other, none_left, h)) ↦ cc
    | inr (inr (rest, other, g, h)) ↦
        at_some (λ rs. Perm (waiting rs) (pkt ∷ waiting (req ∷ reqs))) h e
          (Perm.trans (Perm.append_left req.cached_packets (append_pending-Perm reqs rest g))
            (perm_middle req.cached_packets (waiting reqs)))
  ]

  -- A request of the address on the interface, with the packet as its last one.
  abbrev pub IsLast : ArpReq → Type 0
  IsLast req =
      (earlier : List CachedPkt) × (req.ip4 ≡ ip4)
      × (req.iface.index ≡ iface.index)
      × (req.cached_packets ≡ earlier ++ pkt ∷ [])

  append_pending-IsLast :
      (reqs reqs' : List ArpReq)
      → append_pending iface ip4 pkt reqs ≡ some reqs'
      → (before : List ArpReq) × (req : ArpReq) × (after : List ArpReq) × (reqs'
          ≡ before ++ req ∷ after)
        × IsLast req
  append_pending-IsLast [] reqs' e = unfold append_pending in cc
  append_pending-IsLast (req ∷ reqs) reqs' e = elim (append_cases req reqs) [
    | inl (same, h) ↦ (
      [],
      record req { cached_packets = req.cached_packets ++ pkt ∷ [] },
      reqs,
      some-injective _ _ (sym e ∙ h),
      (req.cached_packets, ground (arith, same), ground (arith, same), refl),
    )
    | inr (inl (other, none_left, h)) ↦ cc
    | inr (inr (rest, other, g, h)) ↦
        let (before, hit, after, split, last) = append_pending-IsLast reqs rest g in
        (req ∷ before, hit, after, some-injective _ _ (sym e ∙ h) ∙ ap (◌∷◌ req) split, last)
  ]

  pub arpcache_append_packet-IsLast :
      (now : ℕ) (cache : ArpCache)
      → (before : List ArpReq) × (req : ArpReq) × (after : List ArpReq) × ((arpcache_append_packet
            now cache iface ip4 pkt).0.req_list
          ≡ before ++ req ∷ after)
        × IsLast req
  unfolding arpcache_append_packet new_request
  arpcache_append_packet-IsLast now cache =
      elim (Option-cases (append_pending iface ip4 pkt cache.req_list)) [
        | inl e ↦ (
          [],
          new_request now iface ip4 pkt,
          cache.req_list,
          rw (e, arpcache_append_packet) refl,
          ([], refl, refl, refl),
        )
        | inr (reqs', e) ↦
            let (before, hit, after, split, last) = append_pending-IsLast cache.req_list reqs' e in
            (before, hit, after, rw (e, arpcache_append_packet) split, last)
      ]

  -- An appended packet waits beside all that waited before, and a request is sent exactly when a new
  -- one is made for it.
  pub arpcache_append_packet-Perm :
      (now : ℕ) (cache : ArpCache)
      → let (cache', frames) = arpcache_append_packet now cache iface ip4 pkt in
        Perm (waiting cache'.req_list) (pkt ∷ waiting cache.req_list)
        × (cache'.entries ≡ cache.entries)
        × (frames ≡ elim (append_pending iface ip4 pkt cache.req_list) [
          | none ↦ arp_request iface ip4 ∷ []
          | some _ ↦ []
        ])
  unfolding arpcache_append_packet new_request waiting
  arpcache_append_packet-Perm now cache =
      elim (Option-cases (append_pending iface ip4 pkt cache.req_list)) [
        | inl e ↦ rw (e, arpcache_append_packet) (Perm.refl _, refl, refl)
        | inr (reqs', e) ↦
            rw (e, arpcache_append_packet) (append_pending-Perm cache.req_list reqs' e, refl, refl)
      ]

-- A reply empties the first request for its address and touches no other.
pub record Flushed (ip4 : ℕ) (mac : Mac) (reqs : List ArpReq) : Type 0 where
  pub before : List ArpReq
  pub req : ArpReq
  pub after : List ArpReq
  pub split : reqs ≡ before ++ req ∷ after
  pub skipped : Every (λ r. r.ip4 ≢ ip4) before
  pub hit : req.ip4 ≡ ip4
  pub result :
      flush ip4 mac reqs ≡ (before ++ after, map (send_pending mac req.iface) req.cached_packets)

-- Either no request is for the address and nothing happens, or the first one for it is removed and
-- all its packets are sent, in order, on its interface.
pub flush_lem :
    (ip4 : ℕ) (mac : Mac) (reqs : List ArpReq)
    → (Every (λ r. r.ip4 ≢ ip4) reqs × (flush ip4 mac reqs ≡ (reqs, []))) ⊎ Flushed ip4 mac reqs
unfolding flush
flush_lem ip4 mac [] = inl (tt, refl)
flush_lem ip4 mac (req ∷ reqs) = elim (Bool-cases (req.ip4 == ip4)) [
  | inl same ↦ inr (record {
    before = [];
    req = req;
    after = reqs;
    split = refl;
    skipped = tt;
    hit = ground arith;
    result = rw same refl;
  })
  | inr other ↦ elim (flush_lem ip4 mac reqs) [
    | inl (all, e) ↦ inl ((ground arith, all), rw (other, e) refl)
    | inr f ↦ inr (record {
      before = req ∷ f.before;
      req = f.req;
      after = f.after;
      split = ap (◌∷◌ req) f.split;
      skipped = (ground arith, f.skipped);
      hit = f.hit;
      result = rw (other, f.result) refl;
    })
  ]
]

module _ (iface : Iface) (ip4 : ℕ) (pkt : CachedPkt) (mac : Mac) where
  flush_skip :
      (req : ArpReq) (reqs : List ArpReq)
      → (req.ip4 == ip4) ≡ false
      → (flush ip4 mac (req ∷ reqs)).1 ≡ (flush ip4 mac reqs).1
  unfolding flush
  flush_skip req reqs h = rw h refl

  flush_hit :
      (req : ArpReq) (reqs : List ArpReq)
      → (req.ip4 == ip4) ≡ true
      → (flush ip4 mac (req ∷ reqs)).1 ≡ map (send_pending mac req.iface) req.cached_packets
  unfolding flush
  flush_hit req reqs h = rw h refl

  flush_append :
      (reqs reqs' : List ArpReq)
      → Every (λ r. r.ip4 ≡ ip4 → r.iface ≡ iface) reqs
      → append_pending iface ip4 pkt reqs ≡ some reqs'
      → (flush ip4 mac reqs').1 ≡ (flush ip4 mac reqs).1 ++ send_pending mac iface pkt ∷ []
  flush_append [] reqs' a e = unfold append_pending in cc
  flush_append (req ∷ reqs) reqs' a e = elim (append_cases iface ip4 pkt req reqs) [
    | inl (same, h) ↦
        at_some
          (λ rs.
            (flush ip4 mac rs).1
            ≡ (flush ip4 mac (req ∷ reqs)).1 ++ send_pending mac iface pkt ∷ [])
          h e
          (flush_hit _ reqs (ground arith)
            ∙ map-append (send_pending mac req.iface) req.cached_packets (pkt ∷ [])
            ∙ ap₂ (λ xs i. xs ++ send_pending mac i pkt ∷ [])
                (sym (flush_hit req reqs (ground arith))) (a.0 (ground arith)))
    | inr (inl (other, none_left, h)) ↦ cc
    | inr (inr (rest, other, g, h)) ↦
        at_some
          (λ rs.
            (flush ip4 mac rs).1
            ≡ (flush ip4 mac (req ∷ reqs)).1 ++ send_pending mac iface pkt ∷ [])
          h e
          (elim (Bool-cases (req.ip4 == ip4)) [
            | inl same_ip ↦
                absurd (ground (arith, a.0, ap (λ (i : Iface). i.index) (a.0 (ground arith))))
            | inr other_ip ↦
                flush_skip req rest other_ip
                ∙ flush_append reqs rest a.1 g
                ∙ ap (λ xs. xs ++ send_pending mac iface pkt ∷ [])
                    (sym (flush_skip req reqs other_ip))
          ])
  ]

  no_request :
      (reqs : List ArpReq)
      → Every (λ r. r.ip4 ≡ ip4 → r.iface ≡ iface) reqs
      → append_pending iface ip4 pkt reqs ≡ none
      → (flush ip4 mac reqs).1 ≡ []
  no_request [] a e = unfold flush in refl
  no_request (req ∷ reqs) a e = elim (append_cases iface ip4 pkt req reqs) [
    | inl (same, h) ↦ cc
    | inr (inl (other, none_left, h)) ↦ elim (Bool-cases (req.ip4 == ip4)) [
      | inl same_ip ↦ absurd (ground (arith, ap (λ (i : Iface). i.index) (a.0 (ground arith))))
      | inr other_ip ↦ flush_skip req reqs other_ip ∙ no_request reqs a.1 none_left
    ]
    | inr (inr (rest, other, g, h)) ↦ cc
  ]

  flush_appended :
      (now : ℕ) (cache : ArpCache)
      → Every (λ r. r.ip4 ≡ ip4 → r.iface ≡ iface) cache.req_list
      → (flush ip4 mac (arpcache_append_packet now cache iface ip4 pkt).0.req_list).1
        ≡ (flush ip4 mac cache.req_list).1 ++ send_pending mac iface pkt ∷ []
  unfolding arpcache_append_packet
  flush_appended now cache a = elim (Option-cases (append_pending iface ip4 pkt cache.req_list)) [
    | inl e ↦
        rw (e, arpcache_append_packet)
          (flush_hit (new_request now iface ip4 pkt) cache.req_list
              (unfold new_request in ==_refl ip4)
            ∙ unfold new_request in
              ap (λ xs. xs ++ send_pending mac iface pkt ∷ [])
                (sym (no_request cache.req_list a e)))
    | inr (reqs', e) ↦ rw (e, arpcache_append_packet) (flush_append cache.req_list reqs' a e)
  ]

  -- When the requests for an address are all on one interface, a packet that is queued for it is
  -- sent by the next reply, behind those that waited before: on that interface, from its mac address,
  -- to the learnt mac address, and else as it was queued.
  pub flush-arpcache_append_packet :
      (now : ℕ) (cache : ArpCache)
      → Every (λ r. r.ip4 ≡ ip4 → r.iface ≡ iface) cache.req_list
      → (flush ip4 mac (arpcache_append_packet now cache iface ip4 pkt).0.req_list).1
        ≡ (flush ip4 mac cache.req_list).1
          ++ record {
            iface = iface;
            frame = ip_frame (record (pkt.packet) {
              eth = record (pkt.packet.eth) { ether_dhost = mac; ether_shost = iface.mac };
            });
            len = pkt.len;
          }
            ∷ []
  unfolding send_pending
  flush-arpcache_append_packet now cache a = flush_appended now cache a
