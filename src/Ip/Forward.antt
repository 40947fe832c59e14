-- ===== src/Ip/Forward.antt =====
-- Where ip packets go: ip_send_packet, ip_forward_packet, handle_ip_packet and arpcache_sweep.
use mathlib.Core.List.{Perm}
use network_lab.Base.{
  ℕ, ◌+◌, ◌-◌, ◌++◌, ◌<◌, ◌≤◌, ◌≡◌, ◌≢◌, ◌⊎◌, ◌↔◌, refl, sym, ap, subst, ◌∙◌, true, false, List, [],
  ◌∷◌, none, some, arith, drop, take, leb, get_or, inl, inr, Option-cases,
}
use network_lab.Packet.{
  ip_frame, ip_checksum, Mac, Iface, IpPacket, Sent, ip_hdr_size, ipproto_tcp, eth_p_ip,
}
use network_lab.Route.{RtEntry, longest_prefix_match, get_next_hop}
use network_lab.Arp.{
  ArpReq, CachedPkt, ArpCache, arpcache_lookup, arpcache_append_packet, iface_send_packet_by_arp,
  send_pending, sweep_cache, expire,
}
use network_lab.Arp.Sweep.{waiting}
use network_lab.Arp.Pending.{arpcache_append_packet-Perm, arpcache_append_packet-IsLast, IsLast}
use network_lab.Ip.{
  raw_bytes, ip_send_packet, icmp_send_packet, icmp_saddr, icmp_build, out_len_of, decrease_ttl,
  ip_forward_packet, handle_ip_packet, icmp_dest_unreach, icmp_time_exceeded, icmp_exc_ttl,
  icmp_net_unreach, icmp_host_unreach, report_unreachable, arpcache_sweep,
}
use network_lab.Ip.Icmp.{icmp_send_packet_error}

-- The packet is on its way to `ip4`: it left towards the cached address, or waits beside all that
-- waited before, as the last one of a request for `ip4` on the interface.
abbrev pub Handed : ArpCache → Iface → ℕ → CachedPkt → ArpCache × List Sent → Type 0
Handed cache iface ip4 pkt out =
    ((mac : Mac) × (arpcache_lookup cache ip4 ≡ some mac)
      × (out ≡ (
        cache,
        record {
          iface = iface;
          frame = ip_frame (record (pkt.packet) {
            eth = record (pkt.packet.eth) { ether_dhost = mac; ether_shost = iface.mac };
          });
          len = pkt.len;
        }
            ∷ [],
      )))
    ⊎ ((arpcache_lookup cache ip4 ≡ none)
        × Perm (waiting out.0.req_list) (pkt ∷ waiting cache.req_list)
        × (out.0.entries ≡ cache.entries)
        × ((before : List ArpReq) × (req : ArpReq) × (after : List ArpReq) × (out.0.req_list
              ≡ before ++ req ∷ after)
            × IsLast iface ip4 pkt req))

append-Handed :
    (now : ℕ) (cache : ArpCache) (iface : Iface) (ip4 : ℕ) (pkt : CachedPkt)
    (out : ArpCache × List Sent)
    → arpcache_lookup cache ip4 ≡ none
    → out ≡ arpcache_append_packet now cache iface ip4 pkt
    → Handed cache iface ip4 pkt out
append-Handed now cache iface ip4 pkt out e same =
    let appended = arpcache_append_packet-Perm iface ip4 pkt now cache in
    inr (
      e,
      subst (λ o. Perm (waiting o.0.req_list) (pkt ∷ waiting cache.req_list)) (sym same) appended.0,
      ap (λ o. o.0.entries) same ∙ appended.1,
      (let (before, req, after, split, last) =
            arpcache_append_packet-IsLast iface ip4 pkt now cache in
          (before, req, after, ap (λ o. o.0.req_list) same ∙ split, last)),
    )

-- With a route, a packet is handed to the next hop of that route, with the type of an ip frame and
-- the source address of the interface.
ip_send_packet-Handed :
    (now : ℕ) (rtable : List RtEntry) (cache : ArpCache) (pkt : IpPacket) (len : ℕ)
    (entry : RtEntry)
    → longest_prefix_match rtable pkt.hdr.daddr ≡ some entry
    → Handed cache entry.iface
        (get_next_hop entry pkt.hdr.daddr)
        (record {
          packet = record pkt {
            eth = record (pkt.eth) { ether_shost = entry.iface.mac; ether_type = eth_p_ip };
          };
          len = len;
        })
        (ip_send_packet now rtable cache pkt len)
unfolding ip_send_packet iface_send_packet_by_arp send_pending
ip_send_packet-Handed now rtable cache pkt len entry route =
    elim (Option-cases (arpcache_lookup cache (get_next_hop entry pkt.hdr.daddr))) [
      | inr (mac, e) ↦ inl (mac, e, rw (ip_send_packet, route, iface_send_packet_by_arp, e) refl)
      | inl e ↦
          append-Handed now cache entry.iface _ _ _ e
            (rw (ip_send_packet, route, iface_send_packet_by_arp, e) refl)
    ]

-- A packet that may make more than one hop and has a route is handed to the next hop of that route,
-- by the interface of the route, with one hop less and the checksum of its header.
pub ip_forward_packet-Handed :
    (now id : ℕ) (rtable : List RtEntry) (cache : ArpCache) (dst : ℕ) (pkt : IpPacket) (len : ℕ)
    (entry : RtEntry)
    → 1 < pkt.hdr.ttl
    → longest_prefix_match rtable dst ≡ some entry
    → Handed cache entry.iface
        (get_next_hop entry dst)
        (record {
          packet = record pkt {
            hdr = record (pkt.hdr) {
              ttl = pkt.hdr.ttl - 1;
              checksum = ip_checksum (record (pkt.hdr) { ttl = pkt.hdr.ttl - 1 }) pkt.body;
            };
          };
          len = len;
        })
        (ip_forward_packet now id rtable cache dst pkt len)
unfolding ip_forward_packet decrease_ttl
ip_forward_packet-Handed now id rtable cache dst pkt len entry alive route =
    let more : leb pkt.hdr.ttl 1 ≡ false = ground arith in
    elim (Option-cases (arpcache_lookup cache (get_next_hop entry dst))) [
      | inr (mac, e) ↦ inl (mac, e, rw (ip_forward_packet, more, route, e) refl)
      | inl e ↦
          append-Handed now cache entry.iface _ _ _ e (rw (ip_forward_packet, more, route, e) refl)
    ]

-- A packet on its last hop, or one without a route, is not forwarded: its sender, if there is a route
-- towards it, gets an error message in its place, which quotes the header.
ip_forward_packet_error :
    (now id : ℕ) (rtable : List RtEntry) (cache : ArpCache) (dst : ℕ) (pkt : IpPacket) (len : ℕ)
    (back : RtEntry)
    → ((pkt.hdr.ttl ≤ 1) ⊎ ((1 < pkt.hdr.ttl) × (longest_prefix_match rtable dst ≡ none)))
    → longest_prefix_match rtable pkt.hdr.saddr ≡ some back
    → (out : IpPacket) × (out_len : ℕ) × (ip_forward_packet now id rtable cache dst pkt len
        ≡ ip_send_packet now rtable cache out out_len)
      × (out.hdr.daddr ≡ pkt.hdr.saddr)
      × (out.hdr.saddr ≡ back.iface.ip)
      × (((get_or out.body 0 0 ≡ icmp_time_exceeded)
            × (drop 4 (drop 4 out.body) ≡ take (ip_hdr_size pkt.hdr + 8) (raw_bytes pkt)))
          ⊎ ((get_or out.body 0 0 ≡ icmp_dest_unreach)
              × (drop 4 (drop 4 out.body)
                  ≡ take (ip_hdr_size pkt.hdr + 8) (raw_bytes (decrease_ttl pkt)))))
unfolding ip_forward_packet decrease_ttl
ip_forward_packet_error now id rtable cache dst pkt len back (inl last) route =
    let (out, out_len, sent, to, from, kind, quote) =
      icmp_send_packet_error now id rtable cache pkt len icmp_time_exceeded icmp_exc_ttl back
        (ground arith) route in
    let over : leb pkt.hdr.ttl 1 ≡ true = ground arith in
    (out, out_len, rw (ip_forward_packet, over) sent, to, from, inl (kind, quote))
ip_forward_packet_error now id rtable cache dst pkt len back (inr (alive, lost)) route =
    let (out, out_len, sent, to, from, kind, quote) =
      icmp_send_packet_error now id rtable cache (decrease_ttl pkt) len icmp_dest_unreach
        icmp_net_unreach back (ground arith) route in
    let more : leb pkt.hdr.ttl 1 ≡ false = ground arith in
    (out, out_len, rw (ip_forward_packet, more, lost) sent, to, from, inr (kind, quote))

-- A packet is handed to tcp exactly when it is for the address of the interface it came in on and
-- carries tcp. Then it is handed over once, as it came, nothing is sent, and the cache is as before.
handle_ip_packet-to_tcp :
    (now id : ℕ) (rtable : List RtEntry) (cache : ArpCache) (iface : Iface) (pkt : IpPacket)
    (len : ℕ)
    → let handled = handle_ip_packet now id rtable cache iface pkt len in
      ((handled.to_tcp ≢ []) ↔ ((pkt.hdr.daddr ≡ iface.ip) × (pkt.hdr.protocol ≡ ipproto_tcp)))
      × (handled.to_tcp ≢ []
          → (handled.to_tcp ≡ pkt ∷ []) × (handled.sent ≡ []) × (handled.cache ≡ cache))
unfolding handle_ip_packet
handle_ip_packet-to_tcp now id rtable cache iface pkt len = ground arith

-- Sending changes no mapping of the arp cache.
ip_send_packet-entries :
    (now : ℕ) (rtable : List RtEntry) (cache : ArpCache) (pkt : IpPacket) (len : ℕ)
    → (ip_send_packet now rtable cache pkt len).0.entries ≡ cache.entries
unfolding ip_send_packet
ip_send_packet-entries now rtable cache pkt len =
    elim (Option-cases (longest_prefix_match rtable pkt.hdr.daddr)) [
      | inl e ↦ rw (ip_send_packet, e) refl
      | inr (entry, e) ↦ elim (ip_send_packet-Handed now rtable cache pkt len entry e) [
        | inl (mac, known, sent) ↦ ap (λ out. out.0.entries) sent
        | inr (unknown, perm, same, at_last) ↦ same
      ]
    ]

icmp_send_packet-entries :
    (now id : ℕ) (rtable : List RtEntry) (cache : ArpCache) (pkt : IpPacket) (len type code : ℕ)
    → (icmp_send_packet now id rtable cache pkt len type code).0.entries ≡ cache.entries
unfolding icmp_send_packet
icmp_send_packet-entries now id rtable cache pkt len type code =
    elim (Option-cases (icmp_saddr rtable type pkt)) [
      | inl e ↦ rw (icmp_send_packet, e) refl
      | inr (saddr, e) ↦
          rw (icmp_send_packet, e)
            (ip_send_packet-entries now rtable cache (icmp_build id saddr pkt len type code)
              (out_len_of type pkt len))
    ]

report_unreachable-entries :
    (now : ℕ) (ids : ℕ → ℕ) (rtable : List RtEntry) (pkts : List CachedPkt) (cache : ArpCache)
    (i : ℕ)
    → (report_unreachable now ids rtable cache pkts i).0.entries ≡ cache.entries
unfolding report_unreachable
report_unreachable-entries now ids rtable [] cache i = refl
report_unreachable-entries now ids rtable (pkt ∷ pkts) cache i =
    report_unreachable-entries now ids rtable pkts _ (i + 1)
    ∙ icmp_send_packet-entries now (ids i) rtable cache pkt.packet pkt.len icmp_dest_unreach
        icmp_host_unreach

-- A round of the sweep leaves the mappings of the cache aged and nothing else: the messages that it
-- sends change none.
arpcache_sweep-expire :
    (now : ℕ) (ids : ℕ → ℕ) (rtable : List RtEntry) (cache : ArpCache)
    → (arpcache_sweep now ids rtable cache).0.entries ≡ expire now cache.entries
unfolding arpcache_sweep sweep_cache
arpcache_sweep-expire now ids rtable cache = report_unreachable-entries now ids rtable _ _ 0
