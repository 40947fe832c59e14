-- ===== src/Switch/Forward.antt =====
-- Where the switch sends a packet: forward, broadcast_packet and handle_packet.
use mathlib.Core.List.{Perm, perm_middle}
use mathlib.Core.List.Perm
use network_lab.Base.{
  ℕ, ◌≤◌, ◌≡◌, ◌≢◌, refl, ◌∙◌, false, List, [], ◌∷◌, none, some, arith, length, ◌==◌, if◌then◌else◌,
  Option-cases, Bool-cases, inl, inr, Every, ◌++◌,
}
use network_lab.Switch.{
  Port, MacPortMap, lookup_port, broadcast_packet, ether_dhost, ether_shost, is_33, forward,
  handle_packet,
}
use network_lab.Switch.Table.{port_of, lookup_port_lem}
use network_lab.Switch.Learn.{handle_packet-learn}

-- A packet is sent on the port of its destination, and where that is unknown on all the ports but the
-- one it came in on; one that starts with the bytes 0x33, 0x33, 0 is not sent at all.
handle_packet-forward :
    (now : ℕ) (ports : List Port) (iface : Port) (packet : List ℕ) (table : MacPortMap)
    → (handle_packet now ports iface packet table).0 ≡ (
        if is_33 packet then [] else elim (port_of (ether_dhost packet) table) [
          | some port ↦ port ∷ []
          | none ↦ broadcast_packet ports iface
        ])
unfolding handle_packet forward
handle_packet-forward now ports iface packet table =
    let first = lookup_port_lem now (ether_dhost packet) table in
    let again =
      lookup_port_lem now (ether_dhost packet) (lookup_port now (ether_dhost packet) table).1 in
    elim (Option-cases (port_of (ether_dhost packet) table)) [
      | inl unknown ↦ rw (handle_packet, forward, first.0 ∙ unknown, unknown) refl
      | inr (p, known) ↦ elim (Bool-cases (is_33 packet)) [
        | inl ignored ↦ rw (handle_packet, forward, first.0 ∙ known, ignored) refl
        | inr heard ↦
            rw
              (
                handle_packet,
                forward,
                first.0 ∙ known,
                heard,
                again.0 ∙ first.1 (ether_dhost packet) ∙ known,
                known,
              )
              refl
      ]
    ]

-- A flooded packet leaves on every port of the switch but those with the descriptor of the port that
-- the packet came in on, once on each.
broadcast_packet-Perm :
    (ports : List Port) (iface : Port)
    → Every (λ p. p.fd ≢ iface.fd) (broadcast_packet ports iface)
      × ((left : List Port) × Every (λ p. p.fd ≡ iface.fd) left
          × Perm ports (left ++ broadcast_packet ports iface))
unfolding broadcast_packet
broadcast_packet-Perm [] iface = (tt, ([], tt, Perm.nil))
broadcast_packet-Perm (port ∷ ports) iface =
    let (away, (left, own, perm)) = broadcast_packet-Perm ports iface in
    elim (Bool-cases (port.fd == iface.fd)) [
      | inl same ↦ rw same (away, (port ∷ left, (ground arith, own), Perm.cons port perm))
      | inr other ↦ rw other (
        (ground arith, away),
        (left, own, Perm.trans (Perm.cons port perm) (Perm.symm (perm_middle left _))),
      )
    ]

-- When a packet of at least 12 bytes that is not ignored comes from a source that a table of 256
-- buckets does not know, then a packet to that source that is not ignored leaves on the port that
-- the first one came in on, and on no other.
pub handle_packet_answer :
    (now now' : ℕ) (ports : List Port) (iface iface' : Port) (packet answer : List ℕ)
    (table : MacPortMap)
    → length table ≡ 256
    → 12 ≤ length packet
    → is_33 packet ≡ false
    → port_of (ether_shost packet) table ≡ none
    → is_33 answer ≡ false
    → ether_dhost answer ≡ ether_shost packet
    → (handle_packet now' ports iface' answer (handle_packet now ports iface packet table).1).0
      ≡ iface ∷ []
handle_packet_answer now now' ports iface iface' packet answer table buckets len heard unknown
      heard' to =
    let learnt = (handle_packet-learn now ports iface packet table buckets len heard).0 in
    handle_packet-forward now' ports iface' answer (handle_packet now ports iface packet table).1
    ∙ rw (heard', to, learnt, unknown) refl
