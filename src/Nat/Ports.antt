-- ===== src/Nat/Ports.antt =====
-- The choice of an external port.
use network_lab.Base.{
  ℕ, ◌<◌, ◌%◌, ◌≡◌, refl, List, [], ◌∷◌, ◌++◌, some, arith, inl, inr, ◌==◌, Bool-cases,
}
use network_lab.Nat.{assign_external_port}

-- A port that is assigned was free and is a port number.
pub assign_external_port_lem :
    (rands : List ℕ) (ports : ℕ → ℕ) (r : ℕ)
    → assign_external_port rands ports ≡ some r
    → (ports r ≡ 0) × (r < 65536)
unfolding assign_external_port
assign_external_port_lem [] ports r e = cc
assign_external_port_lem (x ∷ rands) ports r e =
    ground (arith, assign_external_port_lem rands ports r)

-- The loop ends as soon as `rand` hits a free port.
pub assign_external_port_ends :
    (before : List ℕ) (x : ℕ) (after : List ℕ) (ports : ℕ → ℕ)
    → ports (x % 65536) ≡ 0
    → (r : ℕ) × (assign_external_port (before ++ x ∷ after) ports ≡ some r)
unfolding assign_external_port
assign_external_port_ends [] x after ports h = (x % 65536, ground arith)
assign_external_port_ends (y ∷ before) x after ports h =
    elim (Bool-cases (ports (y % 65536) == 0)) [
      | inl free ↦ (y % 65536, rw free refl)
      | inr taken ↦ rw taken (assign_external_port_ends before x after ports h)
    ]
