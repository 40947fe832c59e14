-- ===== src/Mospf/Sums.antt =====
-- The sums of ints in dijkstra of 11-mospf-ping/mospf_daemon.c.
use mathlib.Core.Option.{some-injective}
use network_lab.Base.{
  ℕ, zero, suc, ◌+◌, ◌^◌, ◌≤◌, ◌<◌, ◌≡◌, refl, subst, Bool, true, false, some, arith, bind-some,
  update,
}
use network_lab.Mospf.Path.{
  num_vertices, int_max, Paths, relax, relax_from, rounds, dijkstra, min_distance,
}
use network_lab.Mospf.Walks.{relax-le}

-- Every cell can be added to a distance.
abbrev pub IsAddable : (ℕ → ℕ → ℕ) → Type 0
IsAddable graph = (u v : ℕ) → int_max + graph u v < 2 ^ 31

-- No distance is above INT_MAX, and no sum was.
record IsExact (paths : Paths) : Type 0 where
  near : (w : ℕ) → paths.dist w ≤ int_max
  exact : paths.overflow ≡ false

module _ (graph subnet_graph : ℕ → ℕ → ℕ) (small : IsAddable graph) where
  relax-IsExact :
      (u v : ℕ) (spt_set : ℕ → Bool) (paths : Paths)
      → IsExact paths
      → IsExact (relax graph subnet_graph u spt_set v paths)
  relax-IsExact u v spt_set paths h = record {
    near = λ w. omega (arith, relax-le graph subnet_graph u v w spt_set paths, h.near w);
    exact = ground (arith, h.exact, h.near u, small u v);
  }

  relax_from-IsExact :
      (u n v : ℕ) (spt_set : ℕ → Bool) (paths : Paths)
      → IsExact paths
      → IsExact (relax_from graph subnet_graph u spt_set n v paths)
  unfolding relax_from
  relax_from-IsExact u zero v spt_set paths h = h
  relax_from-IsExact u (suc n) v spt_set paths h =
      relax_from-IsExact u n (v + 1) spt_set (relax graph subnet_graph u spt_set v paths)
        (relax-IsExact u v spt_set paths h)

  rounds-IsExact :
      (n : ℕ) (spt_set : ℕ → Bool) (paths last : Paths)
      → rounds graph subnet_graph n spt_set paths ≡ some last
      → IsExact paths
      → IsExact last
  unfolding rounds
  rounds-IsExact zero spt_set paths last e h = subst IsExact (some-injective paths last e) h
  rounds-IsExact (suc n) spt_set paths last e h =
      let (u, at_u, e') = bind-some (min_distance paths.dist spt_set) e in
      let with_u = update spt_set u true in
      rounds-IsExact n with_u (relax_from graph subnet_graph u with_u num_vertices 0 paths) last e'
        (relax_from-IsExact u num_vertices 0 with_u paths h)

  -- No sum of ints overflows.
  pub dijkstra-overflow :
      (src : ℕ) (purpose : ℕ → ℕ) (p : Paths)
      → dijkstra graph src purpose subnet_graph ≡ some p
      → p.overflow ≡ false
  unfolding dijkstra
  dijkstra-overflow src purpose p e =
      (rounds-IsExact 5 (λ v. false) _ p e
        (record { near = λ w. ground arith; exact = refl })).exact
