-- ===== src/Nat/Swept.antt =====
-- A round of nat_timeout of 12-nat-yisong/nat.c on the whole table.
use network_lab.Base.{ℕ, ◌≡◌, ◌⊎◌, true}
use network_lab.Nat.{NatTable}
use network_lab.Nat.Timeout.{recent, idle_ports, is_in}

module _ (now : ℕ) where
  -- Of the bucket `j` the idle mappings are gone, and their ports are free.
  pub record IsCleared (nat nat' : NatTable) (j : ℕ) : Type 0 where
    pub kept : nat'.nat_mapping_list j ≡ recent now (nat.nat_mapping_list j)
    pub freed :
        (p : ℕ)
        → is_in p (idle_ports now (nat.nat_mapping_list j)) ≡ true
        → nat'.assigned_ports p ≡ 0

  -- A bucket is as it was or cleared, and a port is as it was, or free and that of an idle mapping.
  pub record IsSwept (nat nat' : NatTable) : Type 0 where
    pub buckets :
        (j : ℕ) → (nat'.nat_mapping_list j ≡ nat.nat_mapping_list j) ⊎ IsCleared nat nat' j
    pub ports :
        (p : ℕ)
        → (nat'.assigned_ports p ≡ nat.assigned_ports p)
          ⊎ ((nat'.assigned_ports p ≡ 0)
              × ((j : ℕ) × (is_in p (idle_ports now (nat.nat_mapping_list j)) ≡ true)))
