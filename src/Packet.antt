-- ===== src/Packet.antt =====
-- The headers of 16-tcp_data_transfer/include: ether.h, arp.h, ip.h, icmp.h, base.h, and ip_init_hdr
-- of 16-tcp_data_transfer/ip.c. A field of several bytes holds the value that `ntohs` or `ntohl`
-- reads from it, except `checksum`, which the source stores without a conversion: it holds the value
-- that the (little-endian) machine reads.
use network_lab.Base.{
  ℕ, ◌+◌, ◌*◌, ◌/◌, ◌%◌, ◌^◌, List, [], ◌∷◌, ◌++◌, take, Option, none, some, same_string,
  if◌then◌else◌,
}
use network_lab.Checksum.{checksum}

abbrev pub Mac : Type 0
Mac = List ℕ

-- The fields of `iface_info_t` that the protocols read.
pub record Iface : Type 0 where
  pub index : ℕ
  pub mac : Mac
  pub ip : ℕ
  pub mask : ℕ

-- The interfaces stand with their names.
unfoldable pub if_name_to_iface : List (List ℕ × Iface) → List ℕ → Option Iface
if_name_to_iface [] if_name = none
if_name_to_iface ((name, iface) ∷ ifaces) if_name =
    if same_string name if_name then some iface else if_name_to_iface ifaces if_name

pub record EtherHdr : Type 0 where
  pub ether_dhost : Mac
  pub ether_shost : Mac
  pub ether_type : ℕ

pub record IpHdr : Type 0 where
  pub version : ℕ
  pub ihl : ℕ
  pub tos : ℕ
  pub tot_len : ℕ
  pub id : ℕ
  pub frag_off : ℕ
  pub ttl : ℕ
  pub protocol : ℕ
  pub checksum : ℕ
  pub saddr : ℕ
  pub daddr : ℕ

-- An ether frame with an ip header; `body` is all that follows the 20 bytes of `struct iphdr`.
pub record IpPacket : Type 0 where
  pub eth : EtherHdr
  pub hdr : IpHdr
  pub body : List ℕ

pub record EtherArp : Type 0 where
  pub arp_hrd : ℕ
  pub arp_pro : ℕ
  pub arp_hln : ℕ
  pub arp_pln : ℕ
  pub arp_op : ℕ
  pub arp_sha : Mac
  pub arp_spa : ℕ
  pub arp_tha : Mac
  pub arp_tpa : ℕ

pub record ArpPacket : Type 0 where
  pub eth : EtherHdr
  pub arp : EtherArp

-- What goes out by `iface_send_packet`.
pub data Frame : Type 0 where
  ip_frame : IpPacket → Frame
  arp_frame : ArpPacket → Frame

pub record Sent : Type 0 where
  pub iface : Iface
  pub frame : Frame
  pub len : ℕ

abbrev pub eth_alen : ℕ
eth_alen = 6

abbrev pub eth_p_ip : ℕ
eth_p_ip = 0x0800

abbrev pub eth_p_arp : ℕ
eth_p_arp = 0x0806

abbrev pub ether_hdr_size : ℕ
ether_hdr_size = 14

abbrev pub ip_base_hdr_size : ℕ
ip_base_hdr_size = 20

abbrev default_ttl : ℕ
default_ttl = 64

abbrev ip_df : ℕ
ip_df = 0x4000

abbrev pub ipproto_icmp : ℕ
ipproto_icmp = 1

abbrev pub ipproto_tcp : ℕ
ipproto_tcp = 6

abbrev pub ip_hdr_size : IpHdr → ℕ
ip_hdr_size hdr = hdr.ihl * 4

-- The bytes of a number in network order, and of one stored as the machine holds it.
unfoldable pub be16 : ℕ → List ℕ
be16 x = x / 256 % 256 ∷ x % 256 ∷ []

unfoldable pub be32 : ℕ → List ℕ
unfolding be16
be32 x = be16 (x / 2 ^ 16) ++ be16 (x % 2 ^ 16)

unfoldable pub le16 : ℕ → List ℕ
le16 x = x % 256 ∷ x / 256 % 256 ∷ []

unfoldable pub ip_bytes : IpHdr → List ℕ
unfolding be16 be32 le16
ip_bytes hdr =
    (hdr.ihl + 16 * hdr.version) ∷ hdr.tos ∷ be16 hdr.tot_len
    ++ (be16 hdr.id
        ++ (be16 hdr.frag_off
            ++ (hdr.ttl ∷ hdr.protocol ∷ le16 hdr.checksum ++ (be32 hdr.saddr ++ be32 hdr.daddr))))

-- The header is summed up with zeros in the place of its checksum; options stand in the body.
unfoldable pub ip_checksum : IpHdr → List ℕ → ℕ
unfolding ip_bytes checksum
ip_checksum hdr body =
    checksum (take (hdr.ihl * 4) (ip_bytes (record hdr { checksum = 0 }) ++ body)) 0

-- `id` is what `rand()` returns, cut to 16 bits.
unfoldable pub ip_init_hdr : ℕ → ℕ → ℕ → ℕ → ℕ → List ℕ → IpHdr
unfolding ip_checksum
ip_init_hdr id saddr daddr len proto body =
    let hdr : IpHdr = record {
      version = 4;
      ihl = 5;
      tos = 0;
      tot_len = len;
      id = id % 2 ^ 16;
      frag_off = ip_df;
      ttl = default_ttl;
      protocol = proto;
      checksum = 0;
      saddr = saddr;
      daddr = daddr;
    } in
    record hdr { checksum = ip_checksum hdr body }
