-- ===== src/Ip/Icmp.antt =====
-- The icmp messages of 16-tcp_data_transfer/icmp.c.
use network_lab.Base.{
  ℕ, ◌+◌, ◌-◌, ◌*◌, ◌%◌, ◌^◌, ◌<◌, ◌≤◌, ◌≡◌, ◌≢◌, refl, ap, ◌∙◌, true, false, List, [], ◌∷◌, ◌++◌,
  append-nil, ap₂, length-drop, zero, suc, some, arith, length, take, drop, get_or, ◌==◌, replicate,
}
use network_lab.Checksum.{words, checksum}
use network_lab.Checksum.Bounds.{AllBelow, ones_sum, total}
use network_lab.Checksum.Verify.{checksum_verifies}
use network_lab.Packet.{
  Iface, IpPacket, le16, ip_hdr_size, ipproto_icmp, ip_init_hdr, ip_base_hdr_size, ether_hdr_size,
}
use network_lab.Route.{RtEntry, longest_prefix_match}
use network_lab.Arp.{ArpCache}
use network_lab.Ip.{
  raw_bytes, ip_data, icmp_len_of, out_len_of, icmp_rest, icmp_with, icmp_message, icmp_saddr,
  icmp_build, icmp_send_packet, icmp_echoreply, icmp_echorequest, icmp_hdr_size,
  icmp_copied_data_len, ip_send_packet, handle_ip_packet,
}

total-words : (buf : List ℕ) → AllBelow 256 buf → total (words buf) ≤ length buf * 32768
unfolding total words
total-words [] a = omega arith
total-words (x ∷ []) a = omega arith
total-words (x ∷ y ∷ buf) a = omega (arith, total-words buf a.1.1)

checksum-lt : (buf : List ℕ) (sum : ℕ) → checksum buf sum < 2 ^ 16
unfolding checksum
checksum-lt buf sum = omega arith

-- A message of even length, below 64 KB and made of bytes sums up to all ones, so that its receiver
-- finds it intact.
icmp_message_verifies :
    (type code : ℕ) (in_pkt : IpPacket)
    → AllBelow 256 (icmp_with type code in_pkt 0)
    → length (icmp_with type code in_pkt 0) % 2 ≡ 0
    → length (icmp_with type code in_pkt 0) < 2 ^ 16
    → ones_sum 0 (words (icmp_message type code in_pkt)) ≡ 2 ^ 16 - 1
unfolding icmp_message le16
icmp_message_verifies type code in_pkt bytes even fits =
    ap (λ hi. ones_sum 0 (words (type ∷ code ∷ sum % 256 ∷ hi ∷ icmp_rest type in_pkt)))
      (omega (arith, checksum-lt zeroed 0))
    ∙ checksum_verifies (type ∷ code ∷ []) (icmp_rest type in_pkt) refl even bytes
        (omega (arith, total-words zeroed bytes))
  where
    zeroed : List ℕ
    zeroed = type ∷ code ∷ 0 ∷ 0 ∷ icmp_rest type in_pkt

    sum : ℕ
    sum = checksum zeroed 0

take_again : (n : ℕ) (xs ys : List ℕ) → n ≤ length xs → take n (take n xs ++ ys) ≡ take n xs
take_again zero xs ys h = refl
take_again (suc n) [] ys h = absurd (omega arith)
take_again (suc n) (x ∷ xs) ys h = ap (◌∷◌ x) (take_again n xs ys (omega arith))

module _ (id saddr : ℕ) (in_pkt : IpPacket) (len type code : ℕ) where
  icmp_build-hdr :
      ((icmp_build id saddr in_pkt len type code).hdr.saddr ≡ saddr)
      × ((icmp_build id saddr in_pkt len type code).hdr.daddr ≡ in_pkt.hdr.saddr)
  unfolding icmp_build ip_init_hdr
  icmp_build-hdr = (refl, refl)

  icmp_build-type : get_or (icmp_build id saddr in_pkt len type code).body 0 0 ≡ type
  unfolding icmp_build icmp_message
  icmp_build-type = refl

  icmp_build-rest : drop 4 (icmp_build id saddr in_pkt len type code).body ≡ (
      icmp_rest type in_pkt
      ++ replicate (out_len_of type in_pkt len - (34 + icmp_len_of type in_pkt)) 0)
  unfolding icmp_build icmp_message le16
  icmp_build-rest = refl

  pub icmp_send_packet_built :
      (now : ℕ) (rtable : List RtEntry) (cache : ArpCache)
      → icmp_saddr rtable type in_pkt ≡ some saddr
      → icmp_send_packet now id rtable cache in_pkt len type code
        ≡ ip_send_packet now rtable cache
            (icmp_build id saddr in_pkt len type code)
            (out_len_of type in_pkt len)
  unfolding icmp_send_packet
  icmp_send_packet_built now rtable cache e = rw (icmp_send_packet, e) refl

error_rest :
    (type : ℕ) (in_pkt : IpPacket) (len : ℕ)
    → (type == icmp_echoreply) ≡ false
    → drop 4 (
        icmp_rest type in_pkt
        ++ replicate (out_len_of type in_pkt len - (34 + icmp_len_of type in_pkt)) 0)
      ≡ take (ip_hdr_size in_pkt.hdr + 8) (raw_bytes in_pkt)
unfolding icmp_rest out_len_of icmp_len_of
error_rest type in_pkt len no_reply =
    let quoted : icmp_hdr_size + ip_hdr_size in_pkt.hdr + icmp_copied_data_len - icmp_hdr_size
        ≡ ip_hdr_size in_pkt.hdr + 8 =
      omega arith in
    let exact : ether_hdr_size
          + ip_base_hdr_size
          + (icmp_hdr_size + ip_hdr_size in_pkt.hdr + icmp_copied_data_len)
          - (34 + (icmp_hdr_size + ip_hdr_size in_pkt.hdr + icmp_copied_data_len))
        ≡ 0 =
      omega arith in
    rw no_reply
      (ap₂ (λ n k. take n (raw_bytes in_pkt) ++ replicate k 0) quoted exact ∙ append-nil _)

icmp_saddr_error :
    (rtable : List RtEntry) (type : ℕ) (in_pkt : IpPacket) (entry : RtEntry)
    → (type == icmp_echoreply) ≡ false
    → longest_prefix_match rtable in_pkt.hdr.saddr ≡ some entry
    → icmp_saddr rtable type in_pkt ≡ some entry.iface.ip
unfolding icmp_saddr
icmp_saddr_error rtable type in_pkt entry no_reply route = rw (no_reply, route) refl

-- An error message is sent to the sender of the packet that caused it if there is a route towards
-- it, from the interface of that route, and quotes the ip header of the packet and the 8 bytes behind
-- it.
pub icmp_send_packet_error :
    (now id : ℕ) (rtable : List RtEntry) (cache : ArpCache) (in_pkt : IpPacket) (len type code : ℕ)
    (entry : RtEntry)
    → type ≢ icmp_echoreply
    → longest_prefix_match rtable in_pkt.hdr.saddr ≡ some entry
    → (out : IpPacket) × (out_len : ℕ) × (icmp_send_packet now id rtable cache in_pkt len type code
        ≡ ip_send_packet now rtable cache out out_len)
      × (out.hdr.daddr ≡ in_pkt.hdr.saddr)
      × (out.hdr.saddr ≡ entry.iface.ip)
      × (get_or out.body 0 0 ≡ type)
      × (drop 4 (drop 4 out.body) ≡ take (ip_hdr_size in_pkt.hdr + 8) (raw_bytes in_pkt))
icmp_send_packet_error now id rtable cache in_pkt len type code entry other route =
    let no_reply : (type == icmp_echoreply) ≡ false = ground arith in
    let (from, to) = icmp_build-hdr id entry.iface.ip in_pkt len type code in
    (
      icmp_build id entry.iface.ip in_pkt len type code,
      out_len_of type in_pkt len,
      icmp_send_packet_built id entry.iface.ip in_pkt len type code now rtable cache
          (icmp_saddr_error rtable type in_pkt entry no_reply route),
      to,
      from,
      icmp_build-type id entry.iface.ip in_pkt len type code,
      ap (drop 4) (icmp_build-rest id entry.iface.ip in_pkt len type code)
          ∙ error_rest type in_pkt len no_reply,
    )

echo_sent :
    (now id : ℕ) (rtable : List RtEntry) (cache : ArpCache) (iface : Iface) (pkt : IpPacket)
    (len : ℕ)
    → (pkt.hdr.daddr == iface.ip) ≡ true
    → (pkt.hdr.protocol == ipproto_icmp) ≡ true
    → (get_or (ip_data pkt) 0 0 == icmp_echorequest) ≡ true
    → let handled = handle_ip_packet now id rtable cache iface pkt len in
      (handled.cache, handled.sent)
      ≡ ip_send_packet now rtable cache (icmp_build id pkt.hdr.daddr pkt len icmp_echoreply 0) len
unfolding handle_ip_packet icmp_send_packet icmp_saddr out_len_of
echo_sent now id rtable cache iface pkt len a b c = rw (a, b, c) refl

echo_type :
    (id : ℕ) (pkt : IpPacket) (len : ℕ)
    → get_or (icmp_build id pkt.hdr.daddr pkt len icmp_echoreply 0).body 0 1 ≡ icmp_echoreply
unfolding icmp_build icmp_message
echo_type id pkt len = refl

echo_rest :
    (id : ℕ) (pkt : IpPacket) (len : ℕ)
    → pkt.hdr.tot_len - ip_hdr_size pkt.hdr ≤ length (ip_data pkt)
    → let n = pkt.hdr.tot_len - ip_hdr_size pkt.hdr - 4 in
      take n (drop 4 (icmp_build id pkt.hdr.daddr pkt len icmp_echoreply 0).body)
      ≡ take n (drop 4 (ip_data pkt))
unfolding icmp_build icmp_message icmp_rest icmp_len_of le16
echo_rest id pkt len enough =
    take_again (pkt.hdr.tot_len - ip_hdr_size pkt.hdr - 4) (drop 4 (ip_data pkt)) _
      (omega (arith, length-drop 4 (ip_data pkt), enough))

-- An echo request for the address of the interface is answered: the answer goes from that address to
-- the sender, and repeats the identifier, the sequence number and the data of the request, when the
-- packet has as many bytes as its header says.
pub handle_ip_packet-echo :
    (now id : ℕ) (rtable : List RtEntry) (cache : ArpCache) (iface : Iface) (pkt : IpPacket)
    (len : ℕ)
    → pkt.hdr.daddr ≡ iface.ip
    → pkt.hdr.protocol ≡ ipproto_icmp
    → get_or (ip_data pkt) 0 0 ≡ icmp_echorequest
    → pkt.hdr.tot_len - ip_hdr_size pkt.hdr ≤ length (ip_data pkt)
    → (out : IpPacket) × (let handled = handle_ip_packet now id rtable cache iface pkt len in
        (handled.cache, handled.sent) ≡ ip_send_packet now rtable cache out len)
      × (out.hdr.saddr ≡ iface.ip)
      × (out.hdr.daddr ≡ pkt.hdr.saddr)
      × (get_or out.body 0 1 ≡ icmp_echoreply)
      × (let n = pkt.hdr.tot_len - ip_hdr_size pkt.hdr - 4 in
          take n (drop 4 out.body) ≡ take n (drop 4 (ip_data pkt)))
handle_ip_packet-echo now id rtable cache iface pkt len mine icmp request enough =
    let (from, to) = icmp_build-hdr id pkt.hdr.daddr pkt len icmp_echoreply 0 in
    (
      icmp_build id pkt.hdr.daddr pkt len icmp_echoreply 0,
      echo_sent now id rtable cache iface pkt len (ground arith) (ground arith) (ground arith),
      from ∙ mine,
      to,
      echo_type id pkt len,
      echo_rest id pkt len enough,
    )
