-- ===== src/Switch/Aging.antt =====
-- The sweep of the switch: sweep_aged_mac_port_entry of 06-switching-yisong/mac.c.
use network_lab.Base.{ℕ, ◌+◌, ◌≤◌, ◌≡◌, true, false, List, [], ◌∷◌, Every, ◌||◌, Bool, ◌⊎◌}
use network_lab.Switch.{MacPortEntry, MacPortMap, has_aged, is_lone}

-- used in the last 30 seconds
abbrev pub IsRecent : ℕ → MacPortEntry → Type 0
IsRecent now entry = now ≤ entry.visited + 30

-- There is a bucket with one entry, which has aged.
abbrev pub has_lone : ℕ → MacPortMap → Bool
has_lone now [] = false
has_lone now (bucket ∷ table) = is_lone now bucket || has_lone now table

-- A bucket behind a sweep, and before.
abbrev pub IsSwept : ℕ → List MacPortEntry → List MacPortEntry → Type 0
IsSwept now bucket' bucket =
    (Every (IsRecent now) bucket × (bucket' ≡ bucket))
    ⊎ ((has_aged now bucket ≡ true) × (bucket' ≡ []))
