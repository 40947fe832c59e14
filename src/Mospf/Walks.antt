-- ===== src/Mospf/Walks.antt =====
-- The distances of dijkstra of 11-mospf-ping/mospf_daemon.c as lengths of walks.
use network_lab.Base.{
  ℕ, zero, suc, ◌+◌, ◌≤◌, ◌<◌, ◌≢◌, subst, Bool, not, ◌&&◌, arith, ltb, ◌==◌, Bool-cases, inl, inr,
  ==_iff,
}
use network_lab.Mospf.Path.{int_max, Paths, relax, relax_from}

-- The walks of a graph from a vertex, with their lengths.
pub data Walk (graph : ℕ → ℕ → ℕ) (src : ℕ) : ℕ → ℕ → Type 0 where
  here : Walk graph src src 0
  along : (u v d : ℕ) → Walk graph src u d → graph u v ≢ 0 → Walk graph src v (d + graph u v)

-- A distance is the length of a walk, or it is the one of the start.
abbrev pub IsWalked : (ℕ → ℕ → ℕ) → ℕ → Paths → Type 0
IsWalked graph src paths = (v : ℕ) → (paths.dist v < int_max) → Walk graph src v (paths.dist v)

relax-IsWalked :
    (graph subnet_graph : ℕ → ℕ → ℕ) (src u v : ℕ) (spt_set : ℕ → Bool) (paths : Paths)
    → paths.dist u < int_max
    → IsWalked graph src paths
    → IsWalked graph src (relax graph subnet_graph u spt_set v paths)
relax-IsWalked graph subnet_graph src u v spt_set paths near walked =
    elim (Bool-cases (
      not (spt_set v) && (not (graph u v == 0) && ltb (paths.dist u + graph u v) (paths.dist v)))) [
        | inl better ↦ λ w. elim (Bool-cases (v == w)) [
          | inl same ↦
              rw (better, same)
                (λ _.
                  subst (λ x. Walk graph src x (paths.dist u + graph u v)) ((==_iff v w).0 same)
                    (along u v (paths.dist u) (walked u near) (ground (arith, better))))
          | inr other ↦ rw (better, other) (walked w)
        ]
        | inr worse ↦ rw worse walked
      ]

pub relax-le :
    (graph subnet_graph : ℕ → ℕ → ℕ) (u v w : ℕ) (spt_set : ℕ → Bool) (paths : Paths)
    → (relax graph subnet_graph u spt_set v paths).dist w ≤ paths.dist w
relax-le graph subnet_graph u v w spt_set paths = ground arith

-- The inner loop keeps every distance the length of a walk.
pub relax_from-IsWalked :
    (graph subnet_graph : ℕ → ℕ → ℕ) (src u n v : ℕ) (spt_set : ℕ → Bool) (paths : Paths)
    → paths.dist u < int_max
    → IsWalked graph src paths
    → IsWalked graph src (relax_from graph subnet_graph u spt_set n v paths)
unfolding relax_from
relax_from-IsWalked graph subnet_graph src u zero v spt_set paths near walked = walked
relax_from-IsWalked graph subnet_graph src u (suc n) v spt_set paths near walked =
    relax_from-IsWalked graph subnet_graph src u n (v + 1) spt_set
      (relax graph subnet_graph u spt_set v paths)
      (omega (arith, near, relax-le graph subnet_graph u v u spt_set paths))
      (relax-IsWalked graph subnet_graph src u v spt_set paths near walked)
