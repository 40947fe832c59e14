-- ===== src/Nat/Setup.antt =====
-- nat_table_init, if_name_to_iface and nat_table_destroy of 12-nat-yisong/nat.c.
use network_lab.Base.{
  ℕ, Bool, Returns, ◌≡◌, refl, List, [], ◌∷◌, Option, none, some, ◌>>=◌, at_some,
}
use network_lab.Packet.{Iface, if_name_to_iface}
use network_lab.Segment.{Segment}
use network_lab.Nat.{NatTable, translate_in, port_hash}
use network_lab.Nat.Inbound.{translate_in_unknown}

-- "n1-eth0" and "n1-eth1"
abbrev internal_name : List ℕ
internal_name = 110 ∷ 49 ∷ 45 ∷ 101 ∷ 116 ∷ 104 ∷ 48 ∷ []

abbrev external_name : List ℕ
external_name = 110 ∷ 49 ∷ 45 ∷ 101 ∷ 116 ∷ 104 ∷ 49 ∷ []

-- `none` is the exit for want of an interface.
unfoldable nat_table_init : List (List ℕ × Iface) → Option NatTable
nat_table_init ifaces = if_name_to_iface ifaces internal_name >>= λ internal.
    if_name_to_iface ifaces external_name >>= λ external. some (record {
      nat_mapping_list = λ i. [];
      internal_ip = internal.ip;
      external_ip = external.ip;
      assigned_ports = λ p. 0;
    })

-- The mappings are freed; the ports stay as they are.
unfoldable nat_table_destroy : NatTable → NatTable
nat_table_destroy nat = record nat { nat_mapping_list = λ i. [] }

-- Before the first packet goes out, and after the table is destroyed, nothing comes in.
nat_table_init-closed :
    (sprintf_d : ℕ → List ℕ) (is_kept : Segment → Bool) (now : ℕ) (ifaces : List (List ℕ × Iface))
    (nat : NatTable) (seg : Segment)
    → nat_table_init ifaces ≡ some nat
    → Returns (translate_in sprintf_d is_kept now nat seg) (λ (nat', sent). sent ≡ [])
      × ((old : NatTable)
          → Returns
              (translate_in sprintf_d is_kept now (nat_table_destroy old) seg)
              (λ (nat', sent). sent ≡ []))
unfolding nat_table_init nat_table_destroy
nat_table_init-closed sprintf_d is_kept now ifaces nat seg e = (
  closed nat
      (empty (if_name_to_iface ifaces internal_name) (if_name_to_iface ifaces external_name) e),
  λ old. closed (record old { nat_mapping_list = λ i. [] }) (λ i. refl),
)
  where
    closed :
        (n : NatTable)
        → ((i : ℕ) → n.nat_mapping_list i ≡ [])
        → Returns (translate_in sprintf_d is_kept now n seg) (λ (nat', sent). sent ≡ [])
    closed n bare =
        let ((nat', sent), e, (nothing, same, ports)) =
          translate_in_unknown sprintf_d is_kept now n seg
            (rw (bare (port_hash sprintf_d seg.tcp.dport)) tt) in
        ((nat', sent), e, nothing)

    empty :
        (a b : Option Iface)
        → (a >>= λ internal. b >>= λ external. some (record {
          nat_mapping_list = λ i. [];
          internal_ip = internal.ip;
          external_ip = external.ip;
          assigned_ports = λ p. 0;
        }))
          ≡ some nat
        → (i : ℕ) → nat.nat_mapping_list i ≡ []
    empty none b q = cc
    empty (some a) none q = cc
    empty (some a) (some b) q =
        at_some (λ (n : NatTable). (i : ℕ) → n.nat_mapping_list i ≡ []) refl q (λ i. refl)
