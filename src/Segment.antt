-- ===== src/Segment.antt =====
-- The tcp header: 16-tcp_data_transfer/include/tcp.h, tcp_cb_init of tcp.c and tcp_init_hdr of
-- tcp_out.c. As in the other headers a field holds the value that `ntohs` or `ntohl` reads, except
-- `checksum`.
use Prim.Native.Nat.{bit_and}
use network_lab.Base.{ℕ, ◌+◌, ◌-◌, ◌*◌, ◌/◌, ◌%◌, ◌^◌, List, ◌∷◌, ◌++◌, Bool, not, ◌==◌, take}
use network_lab.Checksum.{checksum}
use network_lab.Packet.{IpHdr, ip_hdr_size, be16, be32, le16}

pub record TcpHdr : Type 0 where
  pub sport : ℕ
  pub dport : ℕ
  pub seq : ℕ
  pub ack : ℕ
  pub off : ℕ
  pub flags : ℕ
  pub rwnd : ℕ
  pub checksum : ℕ
  pub urp : ℕ

-- An ip packet that carries a tcp segment. `options` of the ip header are left out: all packets that
-- the program builds have none.
pub record Segment : Type 0 where
  pub ip : IpHdr
  pub tcp : TcpHdr
  pub payload : List ℕ

abbrev pub tcp_fin : ℕ
tcp_fin = 0x01

abbrev pub tcp_syn : ℕ
tcp_syn = 0x02

abbrev pub tcp_rst : ℕ
tcp_rst = 0x04

abbrev pub tcp_psh : ℕ
tcp_psh = 0x08

abbrev pub tcp_ack : ℕ
tcp_ack = 0x10

abbrev tcp_hdr_offset : ℕ
tcp_hdr_offset = 5

abbrev pub tcp_base_hdr_size : ℕ
tcp_base_hdr_size = 20

abbrev pub tcp_default_window : ℕ
tcp_default_window = 65535

abbrev pub tcp_hdr_size : TcpHdr → ℕ
tcp_hdr_size tcp = tcp.off * 4

-- `flags & mask`
abbrev pub has_flag : ℕ → ℕ → Bool
has_flag flags mask = not (bit_and flags mask == 0)

unfoldable pub tcp_bytes : TcpHdr → List ℕ
unfolding be16 be32 le16
tcp_bytes tcp =
    be16 tcp.sport
    ++ (be16 tcp.dport
        ++ (be32 tcp.seq
            ++ (be32 tcp.ack
                ++ (16 * tcp.off ∷ tcp.flags ∷ be16 tcp.rwnd
                    ++ (le16 tcp.checksum ++ be16 tcp.urp)))))

-- `htons` and `htonl` on a little-endian machine.
unfoldable htons : ℕ → ℕ
htons x = x % 256 * 256 + x / 256 % 256

unfoldable htonl : ℕ → ℕ
unfolding htons
htonl x = htons (x % 2 ^ 16) * 2 ^ 16 + htons (x / 2 ^ 16)

-- The pseudo header is summed up as the machine's `u32`, with wrap-around.
unfoldable pub tcp_checksum : Segment → ℕ
unfolding tcp_bytes htons htonl
tcp_checksum seg =
    let tcp_len = (seg.ip.tot_len + 2 ^ 16 - ip_hdr_size seg.ip) % 2 ^ 16 in
    let sum =
      (htonl seg.ip.saddr + htonl seg.ip.daddr + htons seg.ip.protocol + htons tcp_len) % 2 ^ 32 in
    checksum (take tcp_len (tcp_bytes (record (seg.tcp) { checksum = 0 }) ++ seg.payload)) sum

-- tcp_init_hdr
unfoldable pub tcp_init_hdr : ℕ → ℕ → ℕ → ℕ → ℕ → ℕ → TcpHdr
tcp_init_hdr sport dport seq ack flags rwnd = record {
  sport = sport;
  dport = dport;
  seq = seq;
  ack = ack;
  off = tcp_hdr_offset;
  flags = flags;
  rwnd = rwnd;
  checksum = 0;
  urp = 0;
}
