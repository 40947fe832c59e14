-- ===== src/Nat/Tests.antt =====
-- The translation at concrete flows. `digits` stands for `sprintf`: it prints numbers below 100000.
use network_lab.Base.{update}
use network_lab.Base.{
  ℕ, ◌+◌, ◌%◌, ◌/◌, ◌<◌, ◌≡◌, refl, List, [], ◌∷◌, Bool, true, false, none, some, arith, ltb, ◌==◌,
  if◌then◌else◌,
}
use network_lab.Hash.{hash8}
use network_lab.Packet.{IpHdr}
use network_lab.Segment.{Segment, TcpHdr}
use network_lab.Nat.{
  NatConnection, NatMapping, NatTable, assign_external_port, has_internal, Env, port_hash,
  translate_out, translate_in, run_bucket, translate_bucket, add_mapping, new_mapping,
}
use network_lab.Nat.Ports.{assign_external_port_lem, assign_external_port_ends}
use network_lab.Nat.Outbound.{Rewritten}
use network_lab.Nat.Timeout.{sweep_bucket, sweep_bucket_lem, recent, idle_ports, is_in}
use network_lab.Packet.{Iface}
use network_lab.Route.{RtEntry}
use network_lab.Nat.Inbound.{translate_in-translate_out}

abbrev digits : ℕ → List ℕ
digits n =
    if ltb n 10
    then ((48 + n) ∷ [])
    else ((48 + n / 10000)
        ∷ (48 + n / 1000 % 10)
        ∷ (48 + n / 100 % 10)
        ∷ (48 + n / 10 % 10)
        ∷ (48 + n % 10)
        ∷ [])

abbrev zero_conn : NatConnection
zero_conn = record { internal_fin = 0; external_fin = 0 }

abbrev empty_table : NatTable
empty_table = record {
  nat_mapping_list = λ i. [];
  internal_ip = 0x0a150001;
  external_ip = 0x9fe21001;
  assigned_ports = λ p. 0;
}

abbrev ip_hdr : ℕ → ℕ → IpHdr
ip_hdr saddr daddr = record {
  version = 4;
  ihl = 5;
  tos = 0;
  tot_len = 40;
  id = 7;
  frag_off = 0x4000;
  ttl = 64;
  protocol = 6;
  checksum = 0;
  saddr = saddr;
  daddr = daddr;
}

abbrev tcp_hdr : ℕ → ℕ → TcpHdr
tcp_hdr sport dport = record {
  sport = sport;
  dport = dport;
  seq = 1;
  ack = 0;
  off = 5;
  flags = 2;
  rwnd = 65535;
  checksum = 0;
  urp = 0;
}

-- from 10.21.0.1:20001 to 159.226.39.34:80
abbrev syn : Segment
syn = record { ip = ip_hdr 0x0a150001 0x9fe22722; tcp = tcp_hdr 20001 80; payload = [] }

-- the answer, to port 30004 of the external address
abbrev reply : Segment
reply = record { ip = ip_hdr 0x9fe22722 0x9fe21001; tcp = tcp_hdr 80 30004; payload = [] }

abbrev env : Env
env = record { now = 100; rands = 30004 ∷ []; conn = zero_conn; conn_2 = zero_conn }

-- 10002 hashes as 20001, whose digits it has in another order
abbrev env_same : Env
env_same = record { now = 100; rands = 10002 ∷ []; conn = zero_conn; conn_2 = zero_conn }

assign_external_port_lem_example : (update {A = ℕ} (λ p. 0) 30000 1 30001 ≡ 0) × (30001 < 65536)
unfolding assign_external_port
assign_external_port_lem_example =
    assign_external_port_lem (30000 ∷ 95537 ∷ []) (update (λ p. 0) 30000 1) 30001 refl

assign_external_port_ends_example :
    (r : ℕ) × (assign_external_port (30000 ∷ 95537 ∷ 5 ∷ []) (update (λ p. 0) 30000 1) ≡ some r)
assign_external_port_ends_example =
    assign_external_port_ends (30000 ∷ []) 95537 (5 ∷ []) (update (λ p. 0) 30000 1) refl

-- No mac address is known yet.
abbrev waits : Segment → Bool
waits seg = true

-- With the mac address of the next hop known, the flags are read from freed memory.
freed_test : translate_out digits (λ seg. false) env empty_table syn ≡ none
unfolding has_internal assign_external_port port_hash hash8 translate_out run_bucket
    translate_bucket add_mapping new_mapping
freed_test = refl

-- With equal hashes of the two ports a packet waits twice.
twice_test : translate_out digits waits env_same empty_table syn ≡ none
unfolding has_internal assign_external_port port_hash hash8 translate_out run_bucket
    translate_bucket add_mapping new_mapping
twice_test = refl

abbrev known : NatMapping
known = record {
  internal_ip = 0x0a150001;
  external_ip = 0x9fe21001;
  internal_port = 20001;
  external_port = 30004;
  update_time = 90;
  conn = zero_conn;
}

abbrev known_table : NatTable
known_table = record empty_table { nat_mapping_list = λ i. known ∷ [] }

translate_in-translate_out_example :
    (nat' : NatTable) × (nat'' : NatTable) × (out : Segment) × (back : Segment) × (translate_out
        digits waits env empty_table syn
      ≡ some (nat', out ∷ []))
    × Rewritten 0x9fe21001 30004 0x9fe22722 80 syn out
    × (translate_in digits waits 101 nat' reply ≡ some (nat'', back ∷ []))
    × Rewritten 0x9fe22722 80 0x0a150001 20001 reply back
unfolding has_internal assign_external_port port_hash hash8
translate_in-translate_out_example =
    translate_in-translate_out digits waits env empty_table syn 30004 101 reply refl refl
      (omega arith) tt refl refl refl refl refl refl

abbrev eth : ℕ → ℕ → Iface
eth index ip = record { index = index; mac = []; ip = ip; mask = 0xffffff00 }

abbrev rtable : List RtEntry
rtable =
    record { dest = 0x0a150000; mask = 0xffffff00; gw = 0; iface = eth 1 0x0a150001 }
    ∷ record { dest = 0; mask = 0; gw = 0x9fe21002; iface = eth 2 0x9fe21001 }
    ∷ []

abbrev idle : NatMapping
idle = record known { external_port = 30005; update_time = 80 }

sweep_bucket_lem_example :
    ((sweep_bucket 90 (known ∷ idle ∷ []) (λ p. 1)).0 ≡ known ∷ [])
    × ((p : ℕ)
        → (sweep_bucket 90 (known ∷ idle ∷ []) (λ p. 1)).1 p
          ≡ (if is_in p (30005 ∷ []) then 0 else 1))
unfolding recent idle_ports
sweep_bucket_lem_example = sweep_bucket_lem 90 (known ∷ idle ∷ []) (λ p. 1)

-- Both in every bucket, with the port of the one that is not idle.
abbrev swept_table : NatTable
swept_table = record empty_table {
  nat_mapping_list = λ i. known ∷ idle ∷ [];
  assigned_ports = λ p. if p == 30004 then 1 else 0;
}
