-- ===== src/Arp/Message.antt =====
-- The messages of 16-tcp_data_transfer/arp.c: a request is broadcast, and a reply goes back to the
-- sender of the request.
use network_lab.Base.{ℕ, [], ◌∷◌}
use network_lab.Packet.{Iface, EtherArp, arp_frame, Sent, eth_alen, eth_p_ip, eth_p_arp}

-- The 28 bytes of `struct ether_arp` behind the ether header.
abbrev arp_len : ℕ
arp_len = 42

-- arp_send_request
unfoldable pub arp_request : Iface → ℕ → Sent
arp_request iface dst_ip = record {
  iface = iface;
  frame = arp_frame (record {
    eth = record {
      ether_dhost = 255 ∷ 255 ∷ 255 ∷ 255 ∷ 255 ∷ 255 ∷ [];
      ether_shost = iface.mac;
      ether_type = eth_p_arp;
    };
    arp = record {
      arp_hrd = 1;
      arp_pro = eth_p_ip;
      arp_hln = eth_alen;
      arp_pln = 4;
      arp_op = 1;
      arp_sha = iface.mac;
      arp_spa = iface.ip;
      arp_tha = 0 ∷ 0 ∷ 0 ∷ 0 ∷ 0 ∷ 0 ∷ [];
      arp_tpa = dst_ip;
    };
  });
  len = arp_len;
}

-- arp_send_reply
unfoldable pub arp_reply : Iface → EtherArp → Sent
arp_reply iface req_hdr = record {
  iface = iface;
  frame = arp_frame (record {
    eth = record { ether_dhost = req_hdr.arp_sha; ether_shost = iface.mac; ether_type = eth_p_arp };
    arp = record {
      arp_hrd = 1;
      arp_pro = eth_p_ip;
      arp_hln = eth_alen;
      arp_pln = 4;
      arp_op = 2;
      arp_sha = iface.mac;
      arp_spa = iface.ip;
      arp_tha = req_hdr.arp_sha;
      arp_tpa = req_hdr.arp_spa;
    };
  });
  len = arp_len;
}
