-- ===== src/Nat/Inbound.antt =====
-- Packets from the public network.
use network_lab.Base.{
  update, ℕ, ◌≡◌, ◌≢◌, some, refl, Bool, Returns, true, false, List, [], ◌∷◌, ◌++◌, arith, Every,
  Every-map, ap, ◌∙◌, ◌==◌, ==_refl,
}
use network_lab.Segment.{Segment, tcp_rst}
use network_lab.Nat.{
  NatMapping, NatTable, is_external, rewrite_dest, set_external_fin, touch, Env, port_hash,
  run_bucket, translate_in, new_mapping, translate_out, has_internal, assign_external_port,
  rewrite_source,
}
use network_lab.Nat.Bucket.{translate_bucket_miss, translate_bucket_one}
use network_lab.Nat.Outbound.{
  Rewritten, rewrite_dest-Rewritten, second_copy, translated, first_copy, translate_out_new,
  rewrite_source-Rewritten,
}

-- A packet for a port without a mapping is dropped, without a fault, and the table stays as it is.
pub translate_in_unknown :
    (sprintf_d : ℕ → List ℕ) (is_kept : Segment → Bool) (now : ℕ) (nat : NatTable) (seg : Segment)
    → Every
        (λ m. is_external seg.ip.daddr seg.tcp.dport m ≡ false)
        (nat.nat_mapping_list (port_hash sprintf_d seg.tcp.dport))
    → Returns (translate_in sprintf_d is_kept now nat seg) (λ (nat', sent).
      (sent ≡ [])
      × ((i : ℕ) → nat'.nat_mapping_list i ≡ nat.nat_mapping_list i)
      × (nat'.assigned_ports ≡ nat.assigned_ports))
unfolding translate_in run_bucket
translate_in_unknown sprintf_d is_kept now nat seg h =
    rw
      (translate_bucket_miss is_kept now (is_external seg.ip.daddr seg.tcp.dport) rewrite_dest
        set_external_fin (nat.nat_mapping_list (port_hash sprintf_d seg.tcp.dport))
        nat.assigned_ports seg h)
      (_, refl, (refl, (λ i. ground arith), refl))

module _ (sprintf_d : ℕ → List ℕ) (is_kept : Segment → Bool) (env : Env) (nat : NatTable)
    (seg : Segment) (port : ℕ) (now : ℕ) (reply : Segment)
    (to_us : reply.ip.daddr ≡ nat.external_ip) (to_port : reply.tcp.dport ≡ port)
    (apart : (port_hash sprintf_d seg.tcp.sport == port_hash sprintf_d port) ≡ false)
    (unused : Every
      (λ m. is_external nat.external_ip port m ≡ false)
      (nat.nat_mapping_list (port_hash sprintf_d port)))
    (no_reset : (reply.tcp.flags == tcp_rst) ≡ false)
    (kept : is_kept (rewrite_dest (second_copy sprintf_d env nat seg port) reply) ≡ true) where
  bucket_of_reply :
      (translated sprintf_d env nat seg port).nat_mapping_list (port_hash sprintf_d port)
      ≡ nat.nat_mapping_list (port_hash sprintf_d port)
        ++ second_copy sprintf_d env nat seg port ∷ []
  bucket_of_reply = rw (apart, ==_refl (port_hash sprintf_d port)) refl

  old : List NatMapping
  old = nat.nat_mapping_list (port_hash sprintf_d port)

  bucket_of_dport :
      (translated sprintf_d env nat seg port).nat_mapping_list (port_hash sprintf_d reply.tcp.dport)
      ≡ old ++ second_copy sprintf_d env nat seg port ∷ []
  unfolding old
  bucket_of_dport =
      ap (λ p. (translated sprintf_d env nat seg port).nat_mapping_list (port_hash sprintf_d p))
        to_port
      ∙ bucket_of_reply

  unused_by_reply : Every (λ m. is_external reply.ip.daddr reply.tcp.dport m ≡ false) old
  unfolding old
  unused_by_reply =
      Every-map _ _ (nat.nat_mapping_list (port_hash sprintf_d port)) (λ m h. ground arith) unused

  is_external-second :
      is_external reply.ip.daddr reply.tcp.dport (second_copy sprintf_d env nat seg port) ≡ true
  unfolding new_mapping
  is_external-second = ground arith

  -- The answer to the first packet of a flow comes back to the host and the port that sent it, once,
  -- when no older mapping in the bucket of the external port stands for that port and ip_send_packet
  -- keeps it.
  pub translate_in_answer :
      (nat' : NatTable) × (out : Segment) × (translate_in sprintf_d is_kept now
          (translated sprintf_d env nat seg port)
          reply
        ≡ some (nat', out ∷ []))
      × Rewritten reply.ip.saddr reply.tcp.sport seg.ip.saddr seg.tcp.sport reply out
  unfolding translate_in run_bucket
  translate_in_answer = (
    record (translated sprintf_d env nat seg port) {
      nat_mapping_list =
          update (translated sprintf_d env nat seg port).nat_mapping_list
            (port_hash sprintf_d reply.tcp.dport)
            (old
              ++ touch now set_external_fin reply.tcp.flags (second_copy sprintf_d env nat seg port)
                ∷ []);
    },
    rewrite_dest (second_copy sprintf_d env nat seg port) reply,
    rw
        (
          bucket_of_dport,
          translate_bucket_one is_kept now (is_external reply.ip.daddr reply.tcp.dport) rewrite_dest
              set_external_fin old (second_copy sprintf_d env nat seg port) []
              (translated sprintf_d env nat seg port).assigned_ports reply unused_by_reply
              is_external-second tt (rw no_reset refl) kept,
        )
        refl,
    unfold new_mapping in rewrite_dest-Rewritten (second_copy sprintf_d env nat seg port) reply,
  )

-- The first packet of a flow leaves once, from the external address and the port that was chosen, and
-- then a packet to that address and port comes back to the host and the port that sent it, once, with
-- valid checksums. The hashes of the two ports have to differ, no older mapping may stand for the
-- chosen port, neither packet may be a reset, and ip_send_packet keeps both packets, the mac address of
-- the next hop being unknown; otherwise the code reads the packet once it was freed.
pub translate_in-translate_out :
    (sprintf_d : ℕ → List ℕ) (is_kept : Segment → Bool) (env : Env) (nat : NatTable) (seg : Segment)
    (port now : ℕ) (reply : Segment)
    → has_internal seg.ip.saddr seg.tcp.sport
        (nat.nat_mapping_list (port_hash sprintf_d seg.tcp.sport))
      ≡ false
    → assign_external_port env.rands nat.assigned_ports ≡ some port
    → port_hash sprintf_d seg.tcp.sport ≢ port_hash sprintf_d port
    → Every
        (λ m. is_external nat.external_ip port m ≡ false)
        (nat.nat_mapping_list (port_hash sprintf_d port))
    → (seg.tcp.flags == tcp_rst) ≡ false
    → (reply.tcp.flags == tcp_rst) ≡ false
    → reply.ip.daddr ≡ nat.external_ip
    → reply.tcp.dport ≡ port
    → is_kept (rewrite_source nat.external_ip (first_copy sprintf_d env nat seg port) seg) ≡ true
    → is_kept (rewrite_dest (second_copy sprintf_d env nat seg port) reply) ≡ true
    → (nat' : NatTable) × (nat'' : NatTable) × (out : Segment) × (back : Segment) × (translate_out
          sprintf_d is_kept env nat seg
        ≡ some (nat', out ∷ []))
      × Rewritten nat.external_ip port seg.ip.daddr seg.tcp.dport seg out
      × (translate_in sprintf_d is_kept now nat' reply ≡ some (nat'', back ∷ []))
      × Rewritten reply.ip.saddr reply.tcp.sport seg.ip.saddr seg.tcp.sport reply back
translate_in-translate_out sprintf_d is_kept env nat seg port now reply fresh chosen differ unused
      no_reset no_reset' to_us to_port kept kept' =
    let (nat'', back, sent, same) =
      translate_in_answer sprintf_d is_kept env nat seg port now reply to_us to_port
        (ground (arith, differ)) unused no_reset' kept' in
    (
      translated sprintf_d env nat seg port,
      nat'',
      rewrite_source nat.external_ip (first_copy sprintf_d env nat seg port) seg,
      back,
      translate_out_new sprintf_d env nat seg port is_kept fresh chosen no_reset kept
          (ground (arith, differ)),
      unfold new_mapping in
          rewrite_source-Rewritten nat.external_ip (first_copy sprintf_d env nat seg port) seg,
      sent,
      same,
    )
