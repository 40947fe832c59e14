-- ===== src/Nat.antt =====
-- 12-nat-yisong/nat.c and include/nat.h: address and port translation. A call takes the time, what
-- `rand()` returns, and what `malloc` leaves in the fields `conn` of two new mappings, which the
-- source never sets; it returns the packets that it hands to `ip_send_packet`.
pub mod Ports
pub mod Bucket
pub mod Outbound
pub mod Inbound
pub mod Timeout
mod Swept
pub mod Direction
pub mod Setup
mod Tests
use network_lab.Base.{
  update, ℕ, zero, suc, ◌+◌, ◌-◌, ◌%◌, Bool, true, false, not, ◌&&◌, ◌||◌, List, [], ◌∷◌, ◌++◌,
  Option, none, some, ltb, ◌==◌, if◌then◌else◌, ◌>>=◌,
}
use network_lab.Hash.{hash8}
use network_lab.Packet.{IpHdr, Iface, ip_checksum, ipproto_tcp}
use network_lab.Route.{RtEntry, longest_prefix_match}
use network_lab.Segment.{Segment, TcpHdr, tcp_checksum, tcp_bytes, tcp_fin, tcp_ack, tcp_rst}

-- `struct nat_connection`; the sequence numbers are never used.
pub record NatConnection : Type 0 where
  pub internal_fin : ℕ
  pub external_fin : ℕ

pub record NatMapping : Type 0 where
  pub internal_ip : ℕ
  pub external_ip : ℕ
  pub internal_port : ℕ
  pub external_port : ℕ
  pub update_time : ℕ
  pub conn : NatConnection

-- The hash table as its buckets, and the port pool, 1 for a port that is assigned.
pub record NatTable : Type 0 where
  pub nat_mapping_list : ℕ → List NatMapping
  pub internal_ip : ℕ
  pub external_ip : ℕ
  pub assigned_ports : ℕ → ℕ

-- assign_external_port: the loop over the values that `rand()` returns; `none` while it still runs
-- after the given ones.
unfoldable pub assign_external_port : List ℕ → (ℕ → ℕ) → Option ℕ
assign_external_port [] ports = none
assign_external_port (rand ∷ rands) ports =
    let r = rand % 65536 in
    let again = assign_external_port rands ports in if ports r == 0 then some r else again

abbrev pub is_internal : ℕ → ℕ → NatMapping → Bool
is_internal saddr sport m = m.internal_ip == saddr && m.internal_port == sport

abbrev pub is_external : ℕ → ℕ → NatMapping → Bool
is_external daddr dport m = m.external_ip == daddr && m.external_port == dport

-- The flag `found` of the first scan of a bucket.
unfoldable pub has_internal : ℕ → ℕ → List NatMapping → Bool
has_internal saddr sport [] = false
has_internal saddr sport (m ∷ ms) = is_internal saddr sport m || has_internal saddr sport ms

-- Both checksums are computed again, the tcp checksum first.
unfoldable pub recalculate : Segment → Segment
recalculate seg =
    let seg' : Segment = record seg { tcp = record (seg.tcp) { checksum = tcp_checksum seg } } in
    record seg' {
      ip = record (seg'.ip) { checksum = ip_checksum seg'.ip (tcp_bytes seg'.tcp ++ seg'.payload) };
    }

unfoldable pub rewrite_source : ℕ → NatMapping → Segment → Segment
rewrite_source external_ip m seg = recalculate (record seg {
  ip = record (seg.ip) { saddr = external_ip };
  tcp = record (seg.tcp) { sport = m.external_port };
})

unfoldable pub rewrite_dest : NatMapping → Segment → Segment
rewrite_dest m seg = recalculate (record seg {
  ip = record (seg.ip) { daddr = m.internal_ip };
  tcp = record (seg.tcp) { dport = m.internal_port };
})

-- A loop over a bucket changes its mappings, the ports and the packet, and sends; `fault` tells whether
-- it uses the packet behind an `ip_send_packet` that has freed it, or has it wait twice.
pub record Pass : Type 0 where
  pub bucket : List NatMapping
  pub ports : ℕ → ℕ
  pub sent : List Segment
  pub fault : Bool

abbrev pub set_internal_fin : NatMapping → NatMapping
set_internal_fin m = record m { conn = record (m.conn) { internal_fin = 1 } }

abbrev pub set_external_fin : NatMapping → NatMapping
set_external_fin m = record m { conn = record (m.conn) { external_fin = 1 } }

-- `update_time`, then the flag on FIN + ACK.
abbrev pub touch : ℕ → (NatMapping → NatMapping) → ℕ → NatMapping → NatMapping
touch now set_fin flags m =
    if flags == tcp_fin + tcp_ack
    then set_fin (record m { update_time = now })
    else record m { update_time = now }

-- On RST, with both sides finished.
abbrev pub is_finished : ℕ → NatMapping → Bool
is_finished flags m = flags == tcp_rst && m.conn.internal_fin + m.conn.external_fin == 2

abbrev is_nil : List Segment → Bool
is_nil [] = true
is_nil (seg ∷ segs) = false

-- The loop of both directions: `hit` tells the mappings of the flow, `rewrite_by` is the rewriting.
-- The flags are read behind `ip_send_packet`, which frees the packet unless it has it wait for the mac
-- address of the next hop, as `is_kept` tells of the packet sent. A packet that waits is rewritten in
-- place, so that a second hit would have the same memory wait twice, and freed twice.
unfoldable pub translate_bucket :
    (Segment → Bool)
    → ℕ
    → (NatMapping → Bool)
    → (NatMapping → Segment → Segment)
    → (NatMapping → NatMapping)
    → List NatMapping
    → (ℕ → ℕ)
    → Segment
    → Pass
translate_bucket is_kept now hit rewrite_by set_fin [] ports seg = record {
  bucket = [];
  ports = ports;
  sent = [];
  fault = false;
}
translate_bucket is_kept now hit rewrite_by set_fin (m ∷ ms) ports seg =
    let seg' = if hit m then rewrite_by m seg else seg in
    let m' = if hit m then touch now set_fin seg.tcp.flags m else m in
    let over = hit m && is_finished seg.tcp.flags m' in
    let rest =
      translate_bucket is_kept now hit rewrite_by set_fin ms
        (if over then update ports m.external_port 0 else ports) seg' in
    record {
      bucket = if over then rest.bucket else m' ∷ rest.bucket;
      ports = rest.ports;
      sent = if hit m then seg' ∷ rest.sent else rest.sent;
      fault = hit m && (not (is_kept seg') || not (is_nil rest.sent)) || rest.fault;
    }

abbrev pub add_tail : (ℕ → List NatMapping) → ℕ → NatMapping → ℕ → List NatMapping
add_tail buckets i m = update buckets i (buckets i ++ m ∷ [])

unfoldable pub new_mapping : ℕ → NatTable → ℕ → ℕ → ℕ → NatConnection → NatMapping
new_mapping now nat saddr sport port conn = record {
  internal_ip = saddr;
  external_ip = nat.external_ip;
  internal_port = sport;
  external_port = port;
  update_time = now;
  conn = conn;
}

-- What a translation takes from its environment.
pub record Env : Type 0 where
  pub now : ℕ
  pub rands : List ℕ
  pub conn : NatConnection
  pub conn_2 : NatConnection

-- `sprintf_d` is the decimal print of `sprintf(str, "%d", …)`.
module _ (sprintf_d : ℕ → List ℕ) where
  unfoldable pub port_hash : ℕ → ℕ
  port_hash port = hash8 (sprintf_d port)

  -- Without a mapping in the bucket of the source port two copies of a new one are made, one in the
  -- bucket of each port.
  unfoldable pub add_mapping : Env → NatTable → ℕ → ℕ → Option NatTable
  add_mapping env nat saddr sport =
      if has_internal saddr sport (nat.nat_mapping_list (port_hash sport))
      then some nat
      else (assign_external_port env.rands nat.assigned_ports >>= λ port. some (record nat {
        nat_mapping_list =
            add_tail
              (add_tail nat.nat_mapping_list (port_hash sport)
                (new_mapping env.now nat saddr sport port env.conn))
              (port_hash port) (new_mapping env.now nat saddr sport port env.conn_2);
        assigned_ports = update nat.assigned_ports port 1;
      }))

  module _ (is_kept : Segment → Bool) where
    -- The bucket `i` is run over, and the table keeps what the loop made of it; `none` is a use of
    -- freed memory.
    unfoldable pub run_bucket :
        ℕ
        → (NatMapping → Bool)
        → (NatMapping → Segment → Segment)
        → (NatMapping → NatMapping)
        → ℕ
        → NatTable
        → Segment
        → Option (NatTable × List Segment)
    run_bucket now hit rewrite_by set_fin i nat seg =
        let pass =
          translate_bucket is_kept now hit rewrite_by set_fin (nat.nat_mapping_list i)
            nat.assigned_ports seg in
        if pass.fault
        then none
        else some (
          record nat {
            nat_mapping_list = update nat.nat_mapping_list i pass.bucket;
            assigned_ports = pass.ports;
          },
          pass.sent,
        )

    -- do_translation with `dir == 2`
    unfoldable pub translate_out : Env → NatTable → Segment → Option (NatTable × List Segment)
    translate_out env nat seg = add_mapping env nat seg.ip.saddr seg.tcp.sport >>= λ nat'.
        run_bucket env.now (is_internal seg.ip.saddr seg.tcp.sport) (rewrite_source nat.external_ip)
          set_internal_fin (port_hash seg.tcp.sport) nat' seg

    -- do_translation with `dir == 1`
    unfoldable pub translate_in : ℕ → NatTable → Segment → Option (NatTable × List Segment)
    translate_in now nat seg =
        run_bucket now (is_external seg.ip.daddr seg.tcp.dport) rewrite_dest set_external_fin
          (port_hash seg.tcp.dport) nat seg
