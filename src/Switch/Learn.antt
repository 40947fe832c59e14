-- ===== src/Switch/Learn.antt =====
-- What the switch learns from a packet: learn and handle_packet of 06-switching-yisong/main.c.
use network_lab.Base.{
  ℕ, ◌<◌, ◌≤◌, ◌≡◌, ◌∙◌, true, false, List, [], ◌∷◌, none, some, arith, length, length-take,
  length-drop, drop, Option-cases, Bool-cases, inl, inr, ◌<|>◌, ◌⊎◌,
}
use network_lab.Packet.{Mac, eth_alen}
use network_lab.Switch.{
  Port, MacPortMap, hash8_down, compare_mac_addr, lookup_port, insert_mac_port, ether_dhost,
  ether_shost, is_33, forward, learn, handle_packet,
}
use network_lab.Switch.Table.{
  port_of, count_equal_self, lookup_port_lem, port_of-append_at, length-append_at,
}

hash8_down-lt : (a : List ℕ) → hash8_down a < 256
unfolding hash8_down
hash8_down-lt [] = omega arith
hash8_down-lt (b ∷ a) = omega arith

length-ether_shost : (packet : List ℕ) → 12 ≤ length packet → length (ether_shost packet) ≡ eth_alen
length-ether_shost packet h = omega (arith, length-take 6 (drop 6 packet), length-drop 6 packet)

shost_self :
    (packet : List ℕ)
    → 12 ≤ length packet
    → compare_mac_addr (ether_shost packet) (ether_shost packet) ≡ true
unfolding compare_mac_addr
shost_self packet h =
    ground (arith, count_equal_self (ether_shost packet), length-ether_shost packet h)

module _ (now : ℕ) (iface : Port) (packet : List ℕ) (table : MacPortMap) where
  -- A packet that is ignored, or one from a known source, teaches nothing.
  learn_nothing :
      ((is_33 packet ≡ true) ⊎ ((p : Port) × (port_of (ether_shost packet) table ≡ some p)))
      → ((m : Mac) → port_of m (learn now iface packet table) ≡ port_of m table)
        × (length (learn now iface packet table) ≡ length table)
  unfolding learn
  learn_nothing h =
      let (found, same, len) = lookup_port_lem now (ether_shost packet) table in
      elim (Option-cases (port_of (ether_shost packet) table)) [
        | inr (p, known) ↦ rw (learn, found ∙ known) (same, len)
        | inl unknown ↦ elim h [
          | inl ignored ↦ rw (learn, found ∙ unknown, ignored) (same, len)
          | inr (p, known) ↦ cc
        ]
      ]

  learn_new :
      length table ≡ 256
      → is_33 packet ≡ false
      → port_of (ether_shost packet) table ≡ none
      → ((m : Mac)
          → ((compare_mac_addr m (ether_shost packet) ≡ true)
              → port_of m table ≡ none
              → port_of m (learn now iface packet table) ≡ some iface)
            × ((compare_mac_addr m (ether_shost packet) ≡ false)
                → port_of m (learn now iface packet table) ≡ port_of m table))
        × (length (learn now iface packet table) ≡ length table)
  unfolding learn insert_mac_port
  learn_new buckets heard unknown =
      let (found, same, len) = lookup_port_lem now (ether_shost packet) table in
      rw (learn, found ∙ unknown, heard)
        (
          λ m.
              let added =
                port_of-append_at m
                  (record { mac = ether_shost packet; iface = iface; visited = now })
                  (hash8_down (ether_shost packet)) (lookup_port now (ether_shost packet) table).1
                  (omega (arith, hash8_down-lt (ether_shost packet), len)) in
              (
                λ hit none_before. added.0 hit (same m ∙ none_before),
                λ miss. added.1 miss ∙ same m,
              ),
          length-append_at _ _ _ ∙ len,
        )

-- Forwarding changes no port.
forward-same :
    (now : ℕ) (ports : List Port) (iface : Port) (packet : List ℕ) (table : MacPortMap)
    → ((m : Mac) → port_of m (forward now ports iface packet table).1 ≡ port_of m table)
      × (length (forward now ports iface packet table).1 ≡ length table)
unfolding forward
forward-same now ports iface packet table =
    let first = lookup_port_lem now (ether_dhost packet) table in
    let again =
      lookup_port_lem now (ether_dhost packet) (lookup_port now (ether_dhost packet) table).1 in
    elim (Option-cases (port_of (ether_dhost packet) table)) [
      | inl unknown ↦ rw (forward, first.0 ∙ unknown) (first.1, first.2)
      | inr (p, known) ↦ elim (Bool-cases (is_33 packet)) [
        | inl ignored ↦ rw (forward, first.0 ∙ known, ignored) (first.1, first.2)
        | inr heard ↦
            rw (forward, first.0 ∙ known, heard, again.0 ∙ first.1 (ether_dhost packet) ∙ known)
              (λ m. again.1 m ∙ first.1 m, again.2 ∙ first.2)
      ]
    ]

-- In a table of 256 buckets, a packet with at least 12 bytes that is not ignored gives its source a
-- port: the one it had, or else the one that the packet came in on. No other address gets another
-- port, and the table keeps its 256 buckets.
pub handle_packet-learn :
    (now : ℕ) (ports : List Port) (iface : Port) (packet : List ℕ) (table : MacPortMap)
    → length table ≡ 256
    → 12 ≤ length packet
    → is_33 packet ≡ false
    → let table' = (handle_packet now ports iface packet table).1 in
      (port_of (ether_shost packet) table' ≡ (port_of (ether_shost packet) table <|> some iface))
      × ((m : Mac)
          → compare_mac_addr m (ether_shost packet) ≡ false
          → port_of m table' ≡ port_of m table)
      × (length table' ≡ 256)
unfolding handle_packet
handle_packet-learn now ports iface packet table buckets len heard =
    let table₁ = (forward now ports iface packet table).1 in
    let (same, size) = forward-same now ports iface packet table in
    elim (Option-cases (port_of (ether_shost packet) table)) [
      | inr (p, known) ↦
          let nothing =
            learn_nothing now iface packet table₁ (inr (p, same (ether_shost packet) ∙ known)) in
          (
            rw known (nothing.0 (ether_shost packet) ∙ same (ether_shost packet) ∙ known),
            λ m _. nothing.0 m ∙ same m,
            nothing.1 ∙ size ∙ buckets,
          )
      | inl unknown ↦
          let unknown₁ = same (ether_shost packet) ∙ unknown in
          let new = learn_new now iface packet table₁ (size ∙ buckets) heard unknown₁ in
          (
            rw unknown ((new.0 (ether_shost packet)).0 (shost_self packet len) unknown₁),
            λ m miss. (new.0 m).1 miss ∙ same m,
            new.1 ∙ size ∙ buckets,
          )
    ]
