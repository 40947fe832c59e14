-- ===== src/Mospf.antt =====
-- 11-mospf-ping/mospf_daemon.c, mospf_proto.c and mospf_database.c: the messages of the routers, their
-- neighbours, the database of the links, and dijkstra. A packet is its source address in the ether header, its ip
-- header without options, the mospf header and what follows it. A function returns the daemon with the packets that it
-- hands to ip_send_packet, in their order, as they are at that moment. `now` is what `time(NULL)`
-- returns, less 1500000000, and `id` what `rand()` does.
pub mod Flood
pub mod Database
pub mod Newest
pub mod Exchange
pub mod Hello
pub mod Path
pub mod Graph
pub mod Mirror
pub mod Links
pub mod Closest
pub mod Walks
pub mod Relax
pub mod Tree
pub mod Cut
pub mod Shortest
mod Sums
pub mod Rtable
pub mod Network
pub mod Routes
pub mod Via
pub mod Deal
mod Tests
mod RoutingTests
use network_lab.Base.{
  ℕ, zero, suc, ◌+◌, ◌*◌, ◌-◌, ◌%◌, ◌^◌, Bool, true, false, not, ◌&&◌, ◌||◌, List, [], ◌∷◌, ◌++◌,
  map, Option, none, some, length, take, ltb, leb, ◌==◌, if◌then◌else◌, ◌>>=◌,
}
use Prim.Native.Nat.{bit_and}
use network_lab.Checksum.{checksum}
use network_lab.Packet.{
  Mac, Iface, IpHdr, ip_base_hdr_size, be16, be32, le16, ip_checksum, ip_init_hdr,
}

abbrev pub mospf_version : ℕ
mospf_version = 2

abbrev pub mospf_all_spf_routers : ℕ
mospf_all_spf_routers = 0xe0000005

abbrev pub lan_ip1 : ℕ
lan_ip1 = 0x0a000101

abbrev pub lan_ip2 : ℕ
lan_ip2 = 0x0a000604

abbrev pub mospf_type_hello : ℕ
mospf_type_hello = 1

abbrev pub mospf_type_lsu : ℕ
mospf_type_lsu = 4

abbrev pub mospf_default_helloint : ℕ
mospf_default_helloint = 5

abbrev mospf_default_lsuint : ℕ
mospf_default_lsuint = 30

abbrev pub mospf_neighbor_timeout : ℕ
mospf_neighbor_timeout = 20

abbrev pub mospf_max_lsu_ttl : ℕ
mospf_max_lsu_ttl = 255

abbrev pub ipproto_mospf : ℕ
ipproto_mospf = 90

pub record MospfHdr : Type 0 where
  pub version : ℕ
  pub type : ℕ
  pub len : ℕ
  pub rid : ℕ
  pub aid : ℕ
  pub checksum : ℕ
  pub padding : ℕ

pub record MospfHello : Type 0 where
  pub mask : ℕ
  pub helloint : ℕ
  pub padding : ℕ

pub record MospfLsu : Type 0 where
  pub seq : ℕ
  pub ttl : ℕ
  pub unused : ℕ
  pub nadv : ℕ

pub record MospfLsa : Type 0 where
  pub subnet : ℕ
  pub mask : ℕ
  pub rid : ℕ

abbrev pub mospf_hdr_size : ℕ
mospf_hdr_size = 16

abbrev pub mospf_hello_size : ℕ
mospf_hello_size = 8

abbrev pub mospf_lsu_size : ℕ
mospf_lsu_size = 8

abbrev pub mospf_lsa_size : ℕ
mospf_lsa_size = 12

-- What follows the header; the lsas are all that the packet holds.
pub data Body : Type 0 where
  hello_body : MospfHello → Body
  lsu_body : MospfLsu → List MospfLsa → Body

pub record MospfPacket : Type 0 where
  pub shost : Mac
  pub ip : IpHdr
  pub hdr : MospfHdr
  pub body : Body

unfoldable pub mospf_hdr_bytes : MospfHdr → List ℕ
mospf_hdr_bytes hdr =
    hdr.version ∷ hdr.type ∷ be16 hdr.len
    ++ (be32 hdr.rid ++ (be32 hdr.aid ++ (le16 hdr.checksum ++ be16 hdr.padding)))

unfoldable pub lsa_bytes : List MospfLsa → List ℕ
lsa_bytes [] = []
lsa_bytes (lsa ∷ lsas) = be32 lsa.subnet ++ (be32 lsa.mask ++ (be32 lsa.rid ++ lsa_bytes lsas))

unfoldable pub body_bytes : Body → List ℕ
body_bytes (hello_body hello) = be32 hello.mask ++ (be16 hello.helloint ++ be16 hello.padding)
body_bytes (lsu_body lsu lsas) =
    be16 lsu.seq ++ (lsu.ttl ∷ lsu.unused ∷ be32 lsu.nadv ++ lsa_bytes lsas)

-- Over as many bytes from the header on as its field `len` says.
unfoldable pub mospf_checksum : MospfHdr → Body → ℕ
mospf_checksum hdr body =
    checksum (take hdr.len (mospf_hdr_bytes (record hdr { checksum = 0 }) ++ body_bytes body)) 0

pub record MospfNbr : Type 0 where
  pub nbr_id : ℕ
  pub nbr_ip : ℕ
  pub nbr_mask : ℕ
  pub alive : ℕ
  pub mac : Mac

-- An interface with the fields of the daemon.
pub record MospfIface : Type 0 where
  pub iface : Iface
  pub helloint : ℕ
  pub nbr_list : List MospfNbr

pub record MospfDbEntry : Type 0 where
  pub rid : ℕ
  pub seq : ℕ
  pub nadv : ℕ
  pub array : List MospfLsa
  pub alive : ℕ

-- The fields of `ustack_t` that the daemon uses, with its interfaces and mospf_db.
pub record Daemon : Type 0 where
  pub area_id : ℕ
  pub router_id : ℕ
  pub sequence_num : ℕ
  pub lsuint : ℕ
  pub ifaces : List MospfIface
  pub mospf_db : List MospfDbEntry

abbrev init_iface : Iface → MospfIface
init_iface iface = record { iface = iface; helloint = mospf_default_helloint; nbr_list = [] }

-- `none`: without an interface the head of the list is taken for one.
unfoldable mospf_init : List Iface → Option Daemon
mospf_init [] = none
mospf_init (iface ∷ ifaces) = some (record {
  area_id = 0;
  router_id = iface.ip;
  sequence_num = 0;
  lsuint = mospf_default_lsuint;
  ifaces = map init_iface (iface ∷ ifaces);
  mospf_db = [];
})
