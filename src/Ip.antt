-- ===== src/Ip.antt =====
-- 16-tcp_data_transfer/ip.c, icmp.c and include/icmp.h, with handle_packet of main.c and the messages
-- of arpcache_sweep: sending, forwarding and receiving of ip packets. `now` is what `time(NULL)`
-- returns and `id` what `rand()` does. A packet is assumed to have as many bytes as its header says,
-- and a frame the form that its type says.
pub mod Icmp
pub mod Forward
mod Tests
use network_lab.Base.{
  ℕ, zero, suc, ◌+◌, ◌-◌, ◌%◌, ◌^◌, Bool, true, false, List, [], ◌∷◌, ◌++◌, Option, none, some,
  take, drop, replicate, get_or, ltb, leb, ◌==◌, if◌then◌else◌, ◌>>=◌,
}
use network_lab.Checksum.{checksum}
use network_lab.Packet.{
  Iface, EtherHdr, IpHdr, IpPacket, ArpPacket, Frame, ip_frame, arp_frame, Sent, eth_p_ip,
  eth_p_arp, ether_hdr_size, ip_base_hdr_size, ip_hdr_size, ipproto_icmp, ipproto_tcp, le16,
  ip_bytes, ip_checksum, ip_init_hdr,
}
use network_lab.Route.{RtEntry, longest_prefix_match, get_next_hop}
use network_lab.Arp.{
  CachedPkt, ArpCache, arpcache_lookup, arpcache_append_packet, iface_send_packet_by_arp,
  handle_arp_packet, sweep_cache,
}

abbrev pub icmp_hdr_size : ℕ
icmp_hdr_size = 8

abbrev pub icmp_copied_data_len : ℕ
icmp_copied_data_len = 8

abbrev pub icmp_echorequest : ℕ
icmp_echorequest = 8

abbrev pub icmp_echoreply : ℕ
icmp_echoreply = 0

abbrev pub icmp_dest_unreach : ℕ
icmp_dest_unreach = 3

abbrev pub icmp_time_exceeded : ℕ
icmp_time_exceeded = 11

abbrev pub icmp_net_unreach : ℕ
icmp_net_unreach = 0

abbrev pub icmp_host_unreach : ℕ
icmp_host_unreach = 1

abbrev pub icmp_exc_ttl : ℕ
icmp_exc_ttl = 0

-- The bytes from the ip header on, and `IP_DATA`.
abbrev pub raw_bytes : IpPacket → List ℕ
raw_bytes pkt = ip_bytes pkt.hdr ++ pkt.body

abbrev pub ip_data : IpPacket → List ℕ
ip_data pkt = drop (ip_hdr_size pkt.hdr) (raw_bytes pkt)

-- A packet without a route is dropped.
unfoldable pub ip_send_packet : ℕ → List RtEntry → ArpCache → IpPacket → ℕ → ArpCache × List Sent
ip_send_packet now rtable cache pkt len =
    let dst = pkt.hdr.daddr in
    elim (longest_prefix_match rtable dst) [
      | none ↦ (cache, [])
      | some entry ↦
          iface_send_packet_by_arp now cache entry.iface (get_next_hop entry dst) (record {
            packet = record pkt {
              eth = record (pkt.eth) { ether_type = eth_p_ip; ether_shost = entry.iface.mac };
            };
            len = len;
          })
    ]

-- `icmp_len`, and `out_len` of a packet of `len` bytes.
unfoldable pub icmp_len_of : ℕ → IpPacket → ℕ
icmp_len_of type in_pkt =
    if type == icmp_echoreply
    then in_pkt.hdr.tot_len - ip_hdr_size in_pkt.hdr
    else icmp_hdr_size + ip_hdr_size in_pkt.hdr + icmp_copied_data_len

unfoldable pub out_len_of : ℕ → IpPacket → ℕ → ℕ
out_len_of type in_pkt len =
    if type == icmp_echoreply
    then len
    else ether_hdr_size + ip_base_hdr_size + icmp_len_of type in_pkt

-- What stands behind the checksum of the message: a reply repeats the request, and an error quotes
-- the packet that caused it, behind four zeros.
unfoldable pub icmp_rest : ℕ → IpPacket → List ℕ
icmp_rest type in_pkt =
    if type == icmp_echoreply
    then take (icmp_len_of type in_pkt - 4) (drop 4 (ip_data in_pkt))
    else 0 ∷ 0 ∷ 0 ∷ 0 ∷ take (icmp_len_of type in_pkt - icmp_hdr_size) (raw_bytes in_pkt)

-- The message with `sum` in its checksum.
abbrev pub icmp_with : ℕ → ℕ → IpPacket → ℕ → List ℕ
icmp_with type code in_pkt sum = type ∷ code ∷ le16 sum ++ icmp_rest type in_pkt

unfoldable pub icmp_message : ℕ → ℕ → IpPacket → List ℕ
icmp_message type code in_pkt =
    icmp_with type code in_pkt (checksum (icmp_with type code in_pkt 0) 0)

-- The source address: that of the packet answered, or of the interface towards its sender.
unfoldable pub icmp_saddr : List RtEntry → ℕ → IpPacket → Option ℕ
icmp_saddr rtable type in_pkt =
    if type == icmp_echoreply
    then some in_pkt.hdr.daddr
    else (longest_prefix_match rtable in_pkt.hdr.saddr >>= λ entry. some entry.iface.ip)

-- The packet that icmp_send_packet builds in zeroed memory.
unfoldable pub icmp_build : ℕ → ℕ → IpPacket → ℕ → ℕ → ℕ → IpPacket
icmp_build id saddr in_pkt len type code =
    let icmp_len = icmp_len_of type in_pkt in
    let body =
      icmp_message type code in_pkt
      ++ replicate (out_len_of type in_pkt len - (ether_hdr_size + ip_base_hdr_size + icmp_len))
          0 in
    record {
      eth = record { ether_dhost = replicate 6 0; ether_shost = replicate 6 0; ether_type = 0 };
      hdr =
          ip_init_hdr id saddr in_pkt.hdr.saddr ((ip_base_hdr_size + icmp_len) % 2 ^ 16)
            ipproto_icmp body;
      body = body;
    }

-- Without a route towards the sender nothing is sent.
unfoldable pub icmp_send_packet :
    ℕ → ℕ → List RtEntry → ArpCache → IpPacket → ℕ → ℕ → ℕ → ArpCache × List Sent
icmp_send_packet now id rtable cache in_pkt len type code = elim (icmp_saddr rtable type in_pkt) [
  | none ↦ (cache, [])
  | some saddr ↦
      ip_send_packet now rtable cache (icmp_build id saddr in_pkt len type code)
        (out_len_of type in_pkt len)
]

-- The packet with one hop less.
unfoldable pub decrease_ttl : IpPacket → IpPacket
decrease_ttl pkt =
    let hdr = record (pkt.hdr) { ttl = pkt.hdr.ttl - 1 } in
    record pkt { hdr = record hdr { checksum = ip_checksum hdr pkt.body } }

unfoldable pub ip_forward_packet :
    ℕ → ℕ → List RtEntry → ArpCache → ℕ → IpPacket → ℕ → ArpCache × List Sent
ip_forward_packet now id rtable cache ip_dst pkt len =
    if leb pkt.hdr.ttl 1
    then icmp_send_packet now id rtable cache pkt len icmp_time_exceeded icmp_exc_ttl
    else (let pkt' = decrease_ttl pkt in
        elim (longest_prefix_match rtable ip_dst) [
          | none ↦ icmp_send_packet now id rtable cache pkt' len icmp_dest_unreach icmp_net_unreach
          | some entry ↦
              let next_hop = get_next_hop entry ip_dst in
              elim (arpcache_lookup cache next_hop) [
                | some mac ↦ (
                  cache,
                  record {
                    iface = entry.iface;
                    frame = ip_frame (record pkt' {
                      eth = record (pkt'.eth) { ether_dhost = mac; ether_shost = entry.iface.mac };
                    });
                    len = len;
                  }
                      ∷ [],
                )
                | none ↦
                    arpcache_append_packet now cache entry.iface next_hop
                      (record { packet = pkt'; len = len })
              ]
        ])

-- What a packet does: the cache and the frames sent, and the packets handed to handle_tcp_packet.
pub record Handled : Type 0 where
  pub cache : ArpCache
  pub sent : List Sent
  pub to_tcp : List IpPacket

unfoldable pub handle_ip_packet : ℕ → ℕ → List RtEntry → ArpCache → Iface → IpPacket → ℕ → Handled
handle_ip_packet now id rtable cache iface pkt len =
    if pkt.hdr.daddr == iface.ip
    then if pkt.hdr.protocol == ipproto_icmp
      then if get_or (ip_data pkt) 0 0 == icmp_echorequest
        then (let (cache', sent) = icmp_send_packet now id rtable cache pkt len icmp_echoreply 0 in
            record { cache = cache'; sent = sent; to_tcp = [] })
        else record { cache = cache; sent = []; to_tcp = [] }
      else if pkt.hdr.protocol == ipproto_tcp
      then record { cache = cache; sent = []; to_tcp = pkt ∷ [] }
      else record { cache = cache; sent = []; to_tcp = [] }
    else (let (cache', sent) = ip_forward_packet now id rtable cache pkt.hdr.daddr pkt len in
        record { cache = cache'; sent = sent; to_tcp = [] })

-- handle_packet of main.c; `rand` is for arpcache_insert, which may fault.
unfoldable pub handle_packet :
    ℕ → ℕ → ℕ → List RtEntry → ArpCache → Iface → Frame → ℕ → Option Handled
handle_packet now id rand rtable cache iface (ip_frame pkt) len =
    if pkt.eth.ether_type == eth_p_ip
    then some (handle_ip_packet now id rtable cache iface pkt len)
    else some (record { cache = cache; sent = []; to_tcp = [] })
handle_packet now id rand rtable cache iface (arp_frame packet) len =
    if packet.eth.ether_type == eth_p_arp
    then (handle_arp_packet now rand cache iface packet >>= λ out.
        some (record { cache = out.0; sent = out.1; to_tcp = [] }))
    else some (record { cache = cache; sent = []; to_tcp = [] })

-- The last loop of arpcache_sweep: each packet given up is answered. `ids i` is what `rand()` returns
-- for the packet at position `i`.
unfoldable pub report_unreachable :
    ℕ → (ℕ → ℕ) → List RtEntry → ArpCache → List CachedPkt → ℕ → ArpCache × List Sent
report_unreachable now ids rtable cache [] i = (cache, [])
report_unreachable now ids rtable cache (pkt ∷ pkts) i =
    let (cache', sent) =
      icmp_send_packet now (ids i) rtable cache pkt.packet pkt.len icmp_dest_unreach
        icmp_host_unreach in
    let rest = report_unreachable now ids rtable cache' pkts (i + 1) in (rest.0, sent ++ rest.1)

-- A round of arpcache_sweep.
unfoldable pub arpcache_sweep : ℕ → (ℕ → ℕ) → List RtEntry → ArpCache → ArpCache × List Sent
arpcache_sweep now ids rtable cache =
    let (swept, resent, dropped) = sweep_cache now cache in
    let reported = report_unreachable now ids rtable swept dropped 0 in
    (reported.0, resent ++ reported.1)
