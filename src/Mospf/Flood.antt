-- ===== src/Mospf/Flood.antt =====
-- send_mospf_lsu, the hello messages, and the forwarding of a link state update.
use network_lab.Base.{
  ℕ, ◌+◌, ◌*◌, ◌%◌, ◌^◌, Bool, not, ◌&&◌, ◌||◌, List, [], ◌∷◌, ◌++◌, map, length, ◌==◌,
  if◌then◌else◌,
}
use Prim.Native.Nat.{bit_and}
use network_lab.Packet.{Iface, ip_base_hdr_size, ip_checksum}
use network_lab.Mospf.{
  mospf_version, mospf_all_spf_routers, lan_ip1, lan_ip2, mospf_type_hello, mospf_type_lsu,
  mospf_default_helloint, mospf_max_lsu_ttl, ipproto_mospf, MospfLsa, mospf_hdr_size,
  mospf_hello_size, mospf_lsu_size, mospf_lsa_size, hello_body, lsu_body, MospfPacket,
  mospf_checksum, mospf_hdr_bytes, body_bytes, MospfNbr, MospfIface, Daemon,
}

-- The first loop of send_mospf_lsu.
unfoldable pub count_nbrs : List MospfIface → ℕ
count_nbrs [] = 0
count_nbrs (current ∷ ifaces) =
    (if current.iface.ip == lan_ip1 || current.iface.ip == lan_ip2 then 1 else 0)
    + length current.nbr_list
    + count_nbrs ifaces

abbrev lan_lsa : Iface → ℕ → MospfLsa
lan_lsa iface rid = record { subnet = bit_and iface.ip iface.mask; mask = iface.mask; rid = rid }

abbrev pub nbr_lsa : MospfNbr → MospfLsa
nbr_lsa nbr = record {
  subnet = bit_and nbr.nbr_ip nbr.nbr_mask;
  mask = nbr.nbr_mask;
  rid = nbr.nbr_id;
}

-- What the second loop writes behind the header.
unfoldable pub fill_lsas : List MospfIface → List MospfLsa
fill_lsas [] = []
fill_lsas (current ∷ ifaces) =
    (if current.iface.ip == lan_ip1 then lan_lsa current.iface 101 ∷ [] else [])
    ++ ((if current.iface.ip == lan_ip2 then lan_lsa current.iface 102 ∷ [] else [])
        ++ (map nbr_lsa current.nbr_list ++ fill_lsas ifaces))

-- A header with its checksums, as they are written last.
unfoldable pub seal : MospfPacket → MospfPacket
seal pkt =
    let hdr = record (pkt.hdr) { checksum = mospf_checksum pkt.hdr pkt.body } in
    record pkt {
      hdr = hdr;
      ip = record (pkt.ip) {
        checksum = ip_checksum pkt.ip (mospf_hdr_bytes hdr ++ body_bytes pkt.body);
      };
    }

-- The update with the sequence number `seq` for one neighbour.
unfoldable pub lsu_packet : ℕ → Daemon → Iface → MospfNbr → ℕ → MospfPacket
lsu_packet id d iface nbr seq =
    let nadv = count_nbrs d.ifaces in
    let len = (mospf_lsu_size + nadv * mospf_lsa_size) % 2 ^ 16 in
    seal (record {
      shost = iface.mac;
      ip = record {
        version = 4;
        ihl = 5;
        tos = 0;
        tot_len =
            (ip_base_hdr_size + mospf_hdr_size + mospf_lsu_size + nadv * mospf_lsa_size) % 2 ^ 16;
        id = id % 2 ^ 16;
        frag_off = 0x4000;
        ttl = 64;
        protocol = ipproto_mospf;
        checksum = 0;
        saddr = iface.ip;
        daddr = nbr.nbr_ip;
      };
      hdr = record {
        version = mospf_version;
        type = mospf_type_lsu;
        len = len;
        rid = d.router_id;
        aid = 0;
        checksum = 0;
        padding = 0;
      };
      body =
          lsu_body (record { seq = seq; ttl = mospf_max_lsu_ttl; unused = 0; nadv = nadv })
            (fill_lsas d.ifaces);
    })

-- The third loop, for the neighbours of one interface: the next sequence number too.
unfoldable pub lsus_of : ℕ → Daemon → Iface → ℕ → List MospfNbr → ℕ × List MospfPacket
lsus_of id d iface seq [] = (seq, [])
lsus_of id d iface seq (nbr ∷ nbrs) =
    let seq' = (seq + 1) % 2 ^ 16 in
    let (last, sent) = lsus_of id d iface seq' nbrs in (last, lsu_packet id d iface nbr seq' ∷ sent)

unfoldable pub lsus_from : ℕ → Daemon → ℕ → List MospfIface → ℕ × List MospfPacket
lsus_from id d seq [] = (seq, [])
lsus_from id d seq (current ∷ ifaces) =
    let (seq', sent) = lsus_of id d current.iface seq current.nbr_list in
    let (last, sent') = lsus_from id d seq' ifaces in (last, sent ++ sent')

-- The packets as they are at the calls of ip_send_packet. All are one buffer, which is taken to be still
-- in memory for the next neighbour, though ip_send_packet frees it once it is sent or has no route.
unfoldable pub send_mospf_lsu : ℕ → Daemon → Daemon × List MospfPacket
send_mospf_lsu id d =
    let (last, sent) = lsus_from id d d.sequence_num d.ifaces in
    (record d { sequence_num = last }, sent)

-- The packet of sending_mospf_hello_thread for an interface, which goes to 01:00:5e:00:00:05.
unfoldable pub hello_packet : ℕ → Daemon → MospfIface → MospfPacket
hello_packet id d current = seal (record {
  shost = current.iface.mac;
  ip = record {
    version = 4;
    ihl = 5;
    tos = 0;
    tot_len = ip_base_hdr_size + mospf_hdr_size + mospf_hello_size;
    id = id % 2 ^ 16;
    frag_off = 0x4000;
    ttl = 64;
    protocol = ipproto_mospf;
    checksum = 0;
    saddr = current.iface.ip;
    daddr = mospf_all_spf_routers;
  };
  hdr = record {
    version = mospf_version;
    type = mospf_type_hello;
    len = mospf_hdr_size + mospf_hello_size;
    rid = d.router_id;
    aid = 0;
    checksum = 0;
    padding = 0;
  };
  body =
      hello_body
        (record { mask = current.iface.mask; helloint = mospf_default_helloint; padding = 0 });
})

-- One round of sending_mospf_hello_thread.
unfoldable send_hellos : (ℕ → ℕ) → Daemon → List MospfIface → List MospfPacket
send_hellos ids d [] = []
send_hellos ids d (current ∷ ifaces) =
    hello_packet (ids (length ifaces)) d current ∷ send_hellos ids d ifaces

-- The copy of an update for one neighbour.
unfoldable pub forwarded : Iface → MospfNbr → MospfPacket → MospfPacket
forwarded iface nbr pkt = seal (record pkt {
  shost = iface.mac;
  ip = record (pkt.ip) { saddr = iface.ip; daddr = nbr.nbr_ip };
})

abbrev pub can_forward : MospfNbr → MospfPacket → Bool
can_forward nbr pkt = not (nbr.nbr_ip == pkt.ip.saddr) && not (nbr.nbr_id == pkt.hdr.rid)

unfoldable pub forward_of : Iface → List MospfNbr → MospfPacket → List MospfPacket
forward_of iface [] pkt = []
forward_of iface (nbr ∷ nbrs) pkt =
    (if can_forward nbr pkt then forwarded iface nbr pkt ∷ [] else []) ++ forward_of iface nbrs pkt

unfoldable pub forward_lsu : List MospfIface → MospfPacket → List MospfPacket
forward_lsu [] pkt = []
forward_lsu (current ∷ ifaces) pkt =
    forward_of current.iface current.nbr_list pkt ++ forward_lsu ifaces pkt
