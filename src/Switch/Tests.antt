-- ===== src/Switch/Tests.antt =====
-- The switch at concrete packets.
use network_lab.Base.{ℕ, ◌≡◌, ◌↔◌, refl, true, List, [], ◌∷◌, ◌++◌, arith, some}
use network_lab.Packet.{Mac}
use network_lab.Switch.{
  Port, MacPortMap, compare_mac_addr, init_mac_hash_table, is_33, has_aged, is_lone,
  sweep_aged_mac_port_entry, handle_packet,
}
use network_lab.Switch.Table.{port_in, port_of, compare_mac_addr_iff}
use network_lab.Switch.Forward.{handle_packet_answer}

abbrev port_1 : Port
port_1 = record { fd = 3; index = 1 }

abbrev port_2 : Port
port_2 = record { fd = 4; index = 2 }

abbrev ports : List Port
ports = port_1 ∷ port_2 ∷ []

abbrev host_a : Mac
host_a = 2 ∷ 0 ∷ 0 ∷ 0 ∷ 0 ∷ 10 ∷ []

abbrev host_b : Mac
host_b = 2 ∷ 0 ∷ 0 ∷ 0 ∷ 0 ∷ 11 ∷ []

abbrev to_b : List ℕ
to_b = host_b ++ host_a ++ 8 ∷ 0 ∷ []

abbrev to_a : List ℕ
to_a = host_a ++ host_b ++ 8 ∷ 0 ∷ []

compare_mac_addr_iff_example : (compare_mac_addr host_a host_b ≡ true) ↔ (host_a ≡ host_b)
compare_mac_addr_iff_example = compare_mac_addr_iff host_a host_b refl refl

handle_packet_answer_example :
    (handle_packet 8 ports port_2 to_a (handle_packet 7 ports port_1 to_b init_mac_hash_table).1).0
    ≡ port_1 ∷ []
unfolding port_of port_in is_33
handle_packet_answer_example =
    handle_packet_answer 7 8 ports port_1 port_2 to_b to_a init_mac_hash_table refl (omega arith)
      refl refl refl refl

-- Host a was heard 40 seconds ago and host b just now.
abbrev aging : MacPortMap
aging =
    (record { mac = host_a; iface = port_1; visited = 60 }
      ∷ record { mac = host_b; iface = port_2; visited = 100 }
      ∷ [])
    ∷ []

sweep_loses_b : sweep_aged_mac_port_entry 100 aging ≡ some (1, [] ∷ [])
unfolding sweep_aged_mac_port_entry has_aged is_lone
sweep_loses_b = refl
