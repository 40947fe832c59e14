-- ===== src/Ip/Tests.antt =====
-- A router between 10.0.1.0/24 and 10.0.2.0/24.
use network_lab.Base.{ℕ, ◌≡◌, refl, true, List, [], ◌∷◌, arith, replicate, drop, take, get_or}
use network_lab.Packet.{Iface, IpPacket, Mac, ip_bytes, be16, be32, le16}
use network_lab.Route.{
  RtEntry, longest_prefix_match, select_longest, matches, is_better, get_next_hop,
}
use network_lab.Arp.{ArpCache}
use network_lab.Ip.{
  raw_bytes, ip_send_packet, icmp_send_packet, ip_forward_packet, handle_ip_packet,
}
use network_lab.Ip.Icmp.{icmp_send_packet_error, handle_ip_packet-echo}
use network_lab.Packet.{ip_checksum}
use network_lab.Ip.Forward.{Handed, ip_forward_packet-Handed}

abbrev eth : ℕ → ℕ → Iface
eth index ip = record { index = index; mac = replicate 6 index; ip = ip; mask = 0xffffff00 }

abbrev to_net : ℕ → Iface → RtEntry
to_net dest iface = record { dest = dest; mask = 0xffffff00; gw = 0; iface = iface }

abbrev rtable : List RtEntry
rtable = to_net 0x0a000100 (eth 1 0x0a000101) ∷ to_net 0x0a000200 (eth 2 0x0a000201) ∷ []

abbrev host_mac : Mac
host_mac = replicate 6 9

-- The host 10.0.2.7 is known.
abbrev cache : ArpCache
cache = record {
  entries = record { ip4 = 0x0a000207; mac = host_mac; added = 3; valid = true } ∷ [];
  req_list = [];
}

-- An echo request from 10.0.1.5, with 8 bytes of data.
abbrev echo : ℕ → ℕ → IpPacket
echo daddr ttl = record {
  eth = record { ether_dhost = replicate 6 1; ether_shost = replicate 6 5; ether_type = 0x0800 };
  hdr = record {
    version = 4;
    ihl = 5;
    tos = 0;
    tot_len = 36;
    id = 77;
    frag_off = 0;
    ttl = ttl;
    protocol = 1;
    checksum = 0;
    saddr = 0x0a000105;
    daddr = daddr;
  };
  body = 8 ∷ 0 ∷ 0 ∷ 0 ∷ 0 ∷ 7 ∷ 0 ∷ 1 ∷ 1 ∷ 2 ∷ 3 ∷ 4 ∷ 5 ∷ 6 ∷ 7 ∷ 8 ∷ [];
}

icmp_send_packet_error_example :
    (out : IpPacket) × (out_len : ℕ) × (icmp_send_packet 9 4 rtable cache
        (echo 0x0a000301 64)
        50
        3
        0
      ≡ ip_send_packet 9 rtable cache out out_len)
    × (out.hdr.daddr ≡ 0x0a000105)
    × (out.hdr.saddr ≡ 0x0a000101)
    × (get_or out.body 0 0 ≡ 3)
    × (drop 4 (drop 4 out.body) ≡ take 28 (raw_bytes (echo 0x0a000301 64)))
unfolding longest_prefix_match select_longest matches is_better get_next_hop
icmp_send_packet_error_example =
    icmp_send_packet_error 9 4 rtable cache (echo 0x0a000301 64) 50 3 0
      (to_net 0x0a000100 (eth 1 0x0a000101)) (omega arith) refl

handle_ip_packet-echo_example :
    (out : IpPacket) × (let handled =
        handle_ip_packet 9 4 rtable cache (eth 1 0x0a000101) (echo 0x0a000101 64) 50 in
      (handled.cache, handled.sent) ≡ ip_send_packet 9 rtable cache out 50)
    × (out.hdr.saddr ≡ 0x0a000101)
    × (out.hdr.daddr ≡ 0x0a000105)
    × (get_or out.body 0 1 ≡ 0)
    × (take 12 (drop 4 out.body) ≡ 0 ∷ 7 ∷ 0 ∷ 1 ∷ 1 ∷ 2 ∷ 3 ∷ 4 ∷ 5 ∷ 6 ∷ 7 ∷ 8 ∷ [])
unfolding ip_bytes be16 be32 le16
handle_ip_packet-echo_example =
    handle_ip_packet-echo 9 4 rtable cache (eth 1 0x0a000101) (echo 0x0a000101 64) 50 refl refl refl
      (omega arith)

ip_forward_packet-Handed_example :
    Handed cache
      (eth 2 0x0a000201)
      0x0a000207
      (record {
        packet = record (echo 0x0a000207 64) {
          hdr = record ((echo 0x0a000207 64).hdr) {
            ttl = 63;
            checksum =
                ip_checksum
                  (record ((echo 0x0a000207 64).hdr) { ttl = 63 })
                  (echo 0x0a000207 64).body;
          };
        };
        len = 50;
      })
      (ip_forward_packet 9 4 rtable cache 0x0a000207 (echo 0x0a000207 64) 50)
unfolding longest_prefix_match select_longest matches is_better get_next_hop
ip_forward_packet-Handed_example =
    ip_forward_packet-Handed 9 4 rtable cache 0x0a000207 (echo 0x0a000207 64) 50
      (to_net 0x0a000200 (eth 2 0x0a000201)) (omega arith) refl

abbrev segment : IpPacket
segment = record (echo 0x0a000101 64) { hdr = record ((echo 0x0a000101 64).hdr) { protocol = 6 } }
