-- ===== src/Nat/Timeout.antt =====
-- nat_timeout of 12-nat-yisong/nat.c, the sweep of idle mappings.
use network_lab.Base.{
  update, ℕ, zero, suc, ◌+◌, ◌≤◌, ◌≡◌, refl, Bool, true, false, inl, inr, List, [], ◌∷◌, arith, ltb,
  leb, ◌==◌, if◌then◌else◌, Bool-cases,
}
use network_lab.Nat.{NatMapping, NatTable, port_hash}

-- nat_timeout on the mappings of one bucket: those that were idle for more than 5 seconds go.
unfoldable pub sweep_bucket : ℕ → List NatMapping → (ℕ → ℕ) → List NatMapping × (ℕ → ℕ)
sweep_bucket now [] ports = ([], ports)
sweep_bucket now (m ∷ ms) ports =
    let over = ltb (m.update_time + 5) now in
    let rest = sweep_bucket now ms (if over then update ports m.external_port 0 else ports) in
    (if over then rest.0 else m ∷ rest.0, rest.1)

-- `sprintf_d` is the decimal print of `sprintf(str, "%d", …)`.
module _ (sprintf_d : ℕ → List ℕ) where
  -- For an assigned port `i` its bucket is swept.
  unfoldable pub sweep_port : ℕ → ℕ → NatTable → NatTable
  sweep_port now i nat =
      if nat.assigned_ports i == 1
      then (let (ms, ports) =
            sweep_bucket now (nat.nat_mapping_list (port_hash sprintf_d i)) nat.assigned_ports in
          record nat {
            nat_mapping_list = update nat.nat_mapping_list (port_hash sprintf_d i) ms;
            assigned_ports = ports;
          })
      else nat

  -- Its loop over the ports, `n` of them from `i` on.
  unfoldable pub sweep_ports : ℕ → ℕ → ℕ → NatTable → NatTable
  sweep_ports now zero i nat = nat
  sweep_ports now (suc n) i nat = sweep_ports now n (i + 1) (sweep_port now i nat)

  -- One round of nat_timeout.
  unfoldable pub nat_timeout : ℕ → NatTable → NatTable
  nat_timeout now nat = sweep_ports now 65536 0 nat

-- heard of in the last 5 seconds
abbrev pub IsRecent : ℕ → NatMapping → Type 0
IsRecent now m = now ≤ m.update_time + 5

-- the mappings that a sweep keeps, and the ports of the others
unfoldable pub recent : ℕ → List NatMapping → List NatMapping
recent now [] = []
recent now (m ∷ ms) = if leb now (m.update_time + 5) then m ∷ recent now ms else recent now ms

unfoldable pub idle_ports : ℕ → List NatMapping → List ℕ
idle_ports now [] = []
idle_ports now (m ∷ ms) =
    if leb now (m.update_time + 5) then idle_ports now ms else m.external_port ∷ idle_ports now ms

unfoldable pub is_in : ℕ → List ℕ → Bool
is_in p [] = false
is_in p (q ∷ qs) = if q == p then true else is_in p qs

module _ (now : ℕ) where
  -- A sweep of a bucket keeps exactly the recent mappings, in their order, frees the ports of the
  -- others and leaves every other port as it was.
  pub sweep_bucket_lem :
      (ms : List NatMapping) (ports : ℕ → ℕ)
      → ((sweep_bucket now ms ports).0 ≡ recent now ms)
        × ((p : ℕ)
            → (sweep_bucket now ms ports).1 p
              ≡ (if is_in p (idle_ports now ms) then 0 else ports p))
  unfolding sweep_bucket recent idle_ports is_in
  sweep_bucket_lem [] ports = (refl, λ p. refl)
  sweep_bucket_lem (m ∷ ms) ports = elim (Bool-cases (ltb (m.update_time + 5) now)) [
    | inl over ↦ (
      ground (arith, (sweep_bucket_lem ms (update ports m.external_port 0)).0),
      λ p. ground (arith, (sweep_bucket_lem ms (update ports m.external_port 0)).1 p),
    )
    | inr live ↦ (
      ground (arith, (sweep_bucket_lem ms ports).0),
      λ p. ground (arith, (sweep_bucket_lem ms ports).1 p),
    )
  ]
