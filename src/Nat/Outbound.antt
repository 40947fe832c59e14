-- ===== src/Nat/Outbound.antt =====
-- Packets from the private network.
use network_lab.Base.{
  update, ℕ, ◌≡◌, refl, Bool, true, false, List, [], ◌∷◌, ◌++◌, some, Every, ◌==◌, ==_refl,
}
use network_lab.Packet.{ip_checksum}
use network_lab.Segment.{Segment, tcp_checksum, tcp_bytes, tcp_rst}
use network_lab.Nat.{
  NatConnection, NatMapping, NatTable, assign_external_port, is_internal, has_internal,
  rewrite_source, recalculate, rewrite_dest, touch, set_internal_fin, add_tail, new_mapping, Env,
  port_hash, add_mapping, run_bucket, translate_out,
}
use network_lab.Nat.Bucket.{translate_bucket_one, has_internal-Every, has_internal-hit}

-- `out` is `seg` from another source, or to another destination, with valid checksums.
pub record Rewritten (saddr sport daddr dport : ℕ) (seg out : Segment) : Type 0 where
  pub same_saddr : out.ip.saddr ≡ saddr
  pub same_sport : out.tcp.sport ≡ sport
  pub same_daddr : out.ip.daddr ≡ daddr
  pub same_dport : out.tcp.dport ≡ dport
  pub same_seq : out.tcp.seq ≡ seg.tcp.seq
  pub same_ack : out.tcp.ack ≡ seg.tcp.ack
  pub same_flags : out.tcp.flags ≡ seg.tcp.flags
  pub same_payload : out.payload ≡ seg.payload
  pub tcp_sum : out.tcp.checksum ≡ tcp_checksum out
  pub ip_sum : out.ip.checksum ≡ ip_checksum out.ip (tcp_bytes out.tcp ++ out.payload)

pub rewrite_source-Rewritten :
    (external_ip : ℕ) (m : NatMapping) (seg : Segment)
    → Rewritten external_ip m.external_port seg.ip.daddr seg.tcp.dport seg
        (rewrite_source external_ip m seg)
unfolding rewrite_source recalculate tcp_checksum ip_checksum
rewrite_source-Rewritten external_ip m seg = record {
  same_saddr = refl;
  same_sport = refl;
  same_daddr = refl;
  same_dport = refl;
  same_seq = refl;
  same_ack = refl;
  same_flags = refl;
  same_payload = refl;
  tcp_sum = refl;
  ip_sum = refl;
}

pub rewrite_dest-Rewritten :
    (m : NatMapping) (seg : Segment)
    → Rewritten seg.ip.saddr seg.tcp.sport m.internal_ip m.internal_port seg (rewrite_dest m seg)
unfolding rewrite_dest recalculate tcp_checksum ip_checksum
rewrite_dest-Rewritten m seg = record {
  same_saddr = refl;
  same_sport = refl;
  same_daddr = refl;
  same_dport = refl;
  same_seq = refl;
  same_ack = refl;
  same_flags = refl;
  same_payload = refl;
  tcp_sum = refl;
  ip_sum = refl;
}

is_internal-new :
    (now : ℕ) (nat : NatTable) (saddr sport port : ℕ) (conn : NatConnection)
    → is_internal saddr sport (new_mapping now nat saddr sport port conn) ≡ true
unfolding new_mapping
is_internal-new now nat saddr sport port conn = rw (==_refl saddr, ==_refl sport) refl

module _ (sprintf_d : ℕ → List ℕ) (env : Env) (nat : NatTable) (seg : Segment) (port : ℕ) where
  abbrev pub first_copy : NatMapping
  first_copy = new_mapping env.now nat seg.ip.saddr seg.tcp.sport port env.conn

  abbrev pub second_copy : NatMapping
  second_copy = new_mapping env.now nat seg.ip.saddr seg.tcp.sport port env.conn_2

  -- the table with the two copies of the new mapping
  abbrev pub opened : NatTable
  opened = record nat {
    nat_mapping_list =
        add_tail (add_tail nat.nat_mapping_list (port_hash sprintf_d seg.tcp.sport) first_copy)
          (port_hash sprintf_d port) second_copy;
    assigned_ports = update nat.assigned_ports port 1;
  }

  -- the table behind the first packet of a flow
  abbrev pub translated : NatTable
  translated = record opened {
    nat_mapping_list = update opened.nat_mapping_list (port_hash sprintf_d seg.tcp.sport) (
        nat.nat_mapping_list (port_hash sprintf_d seg.tcp.sport)
        ++ touch env.now set_internal_fin seg.tcp.flags first_copy ∷ []);
  }

  module _ (is_kept : Segment → Bool)
      (fresh : has_internal seg.ip.saddr seg.tcp.sport
          (nat.nat_mapping_list (port_hash sprintf_d seg.tcp.sport))
        ≡ false)
      (chosen : assign_external_port env.rands nat.assigned_ports ≡ some port)
      (no_reset : (seg.tcp.flags == tcp_rst) ≡ false)
      (kept : is_kept (rewrite_source nat.external_ip first_copy seg) ≡ true) where
    add_mapping-opened : add_mapping sprintf_d env nat seg.ip.saddr seg.tcp.sport ≡ some opened
    unfolding add_mapping
    add_mapping-opened = rw (fresh, chosen) refl

    pub translate_out_new :
        (port_hash sprintf_d port == port_hash sprintf_d seg.tcp.sport) ≡ false
        → translate_out sprintf_d is_kept env nat seg
          ≡ some (translated, rewrite_source nat.external_ip first_copy seg ∷ [])
    unfolding translate_out run_bucket
    translate_out_new apart =
        rw
          (
            add_mapping-opened,
            apart,
            ==_refl (port_hash sprintf_d seg.tcp.sport),
            translate_bucket_one is_kept env.now (is_internal seg.ip.saddr seg.tcp.sport)
                (rewrite_source nat.external_ip) set_internal_fin
                (nat.nat_mapping_list (port_hash sprintf_d seg.tcp.sport)) first_copy []
                opened.assigned_ports seg (has_internal-Every _ _ _ fresh)
                (is_internal-new env.now nat seg.ip.saddr seg.tcp.sport port env.conn) tt
                (rw no_reset refl) kept,
          )
          refl

-- A flow with exactly one mapping in the bucket of its source port keeps its external port: a packet
-- that is no reset and is kept by ip_send_packet leaves as the mapping says, once.
translate_out_known :
    (sprintf_d : ℕ → List ℕ) (is_kept : Segment → Bool) (env : Env) (nat : NatTable) (seg : Segment)
    (before : List NatMapping) (m : NatMapping) (after : List NatMapping)
    → nat.nat_mapping_list (port_hash sprintf_d seg.tcp.sport) ≡ before ++ m ∷ after
    → Every (λ x. is_internal seg.ip.saddr seg.tcp.sport x ≡ false) before
    → is_internal seg.ip.saddr seg.tcp.sport m ≡ true
    → Every (λ x. is_internal seg.ip.saddr seg.tcp.sport x ≡ false) after
    → (seg.tcp.flags == tcp_rst) ≡ false
    → is_kept (rewrite_source nat.external_ip m seg) ≡ true
    → translate_out sprintf_d is_kept env nat seg
      ≡ some (
        record nat {
          nat_mapping_list =
              update nat.nat_mapping_list
                (port_hash sprintf_d seg.tcp.sport)
                (before ++ touch env.now set_internal_fin seg.tcp.flags m ∷ after);
        },
        rewrite_source nat.external_ip m seg ∷ [],
      )
unfolding translate_out run_bucket add_mapping
translate_out_known sprintf_d is_kept env nat seg before m after e b h a no_reset kept =
    rw
      (
        e,
        has_internal-hit seg.ip.saddr seg.tcp.sport before m after h,
        e,
        translate_bucket_one is_kept env.now (is_internal seg.ip.saddr seg.tcp.sport)
            (rewrite_source nat.external_ip) set_internal_fin before m after nat.assigned_ports seg
            b h a (rw no_reset refl) kept,
      )
      refl
