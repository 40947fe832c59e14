-- ===== src/Mospf/Cut.antt =====
-- The vertices that dijkstra of 11-mospf-ping/mospf_daemon.c is done with, and the walks that leave them.
use network_lab.Base.{
  ℕ, ◌+◌, ◌≤◌, ◌<◌, ◌≡◌, ◌≢◌, sym, subst, Bool, true, false, arith, Bool-cases, ◌⊎◌, inl, inr,
  update,
}
use network_lab.Mospf.Path.{num_vertices, int_max, Paths, relax_from}
use network_lab.Mospf.Closest.{IsClosest}
use network_lab.Mospf.Walks.{Walk, here, along}
use network_lab.Mospf.Relax.{relax_from-le, relax_from-inside, relax_from-edge, relax_from-above}

-- Edges are between the vertices of the array.
abbrev pub IsGraph : (ℕ → ℕ → ℕ) → Type 0
IsGraph graph = (u v : ℕ) → graph u v ≢ 0 → (u < num_vertices) × (v < num_vertices)

-- Every vertex has a walk shorter than INT_MAX.
abbrev pub IsConnected : (ℕ → ℕ → ℕ) → ℕ → Type 0
IsConnected graph src = (v : ℕ) → v < num_vertices → (d : ℕ) × Walk graph src v d × (d < int_max)

-- The distances when the vertices of the set are done.
pub record IsDone (graph : ℕ → ℕ → ℕ) (src : ℕ) (spt_set : ℕ → Bool) (paths : Paths) : Type 0 where
  pub start : paths.dist src ≡ 0
  pub edge : (u v : ℕ) → spt_set u ≡ true → graph u v ≢ 0 → paths.dist v ≤ paths.dist u + graph u v
  pub order :
      (u v : ℕ)
      → v < num_vertices
      → spt_set u ≡ true
      → spt_set v ≡ false
      → paths.dist u ≤ paths.dist v

-- A walk that is shorter than the distance of its end leaves the set before.
pub cut :
    (graph : ℕ → ℕ → ℕ) (src : ℕ) (spt_set : ℕ → Bool) (paths : Paths)
    → IsGraph graph
    → IsDone graph src spt_set paths
    → (w d : ℕ) → Walk graph src w d
    → (paths.dist w ≤ d) ⊎ ((x : ℕ) × (x < num_vertices) × (spt_set x ≡ false) × (paths.dist x ≤ d))
cut graph src spt_set paths real done w d here = inl (omega (arith, done.start))
cut graph src spt_set paths real done w d (along u v l walk some_edge) =
    elim (cut graph src spt_set paths real done u l walk) [
      | inl short ↦ elim (Bool-cases (spt_set u)) [
        | inl inside ↦ inl (omega (arith, done.edge u v inside some_edge, short))
        | inr outside ↦ inr (u, (real u v some_edge).0, outside, omega (arith, short))
      ]
      | inr (x, bound, outside, short) ↦ inr (x, bound, outside, omega (arith, short))
    ]

-- A round keeps it, with the closest vertex in the set.
pub round-IsDone :
    (graph subnet_graph : ℕ → ℕ → ℕ) (src u : ℕ) (spt_set : ℕ → Bool) (paths : Paths)
    → IsGraph graph
    → IsDone graph src spt_set paths
    → IsClosest paths.dist spt_set 0 num_vertices u
    → let with_u = update spt_set u true in
      IsDone graph src with_u (relax_from graph subnet_graph u with_u num_vertices 0 paths)
round-IsDone graph subnet_graph src u spt_set paths real done (lo, hi, outside, closest) = record {
  start = omega (arith, le src, done.start);
  edge = λ a v inside some_edge. elim (member a inside) [
    | inl a_u ↦
        subst (λ a. graph a v ≢ 0 → after.dist v ≤ after.dist a + graph a v) (sym a_u)
          (λ some_edge. elim (Bool-cases (with_u v)) [
            | inl v_inside ↦ elim (member v v_inside) [
              | inl v_u ↦
                  subst (λ v. after.dist v ≤ after.dist u + graph u v) (sym v_u) (omega arith)
              | inr v_old ↦ omega (arith, le v, same u with_itself, done.order v u hi v_old outside)
            ]
            | inr v_outside ↦
                let short =
                  relax_from-edge graph subnet_graph u num_vertices 0 v with_u paths with_itself
                    v_outside some_edge (omega arith) (real u v some_edge).1 in
                omega (arith, short, same u with_itself)
          ])
          some_edge
    | inr old ↦ omega (arith, le v, same a inside, done.edge a v old some_edge)
  ];
  order = λ a v bound inside v_outside.
      let v_old : spt_set v ≡ false = ground (arith, v_outside) in
      let near : paths.dist a ≤ paths.dist u = elim (member a inside) [
        | inl a_u ↦ subst (λ x. paths.dist x ≤ paths.dist u) (sym a_u) (omega arith)
        | inr old ↦ done.order a u hi old outside
      ] in
      let far = closest v (omega arith) bound v_old in
      let above =
        relax_from-above graph subnet_graph (paths.dist a) u num_vertices 0 v with_u paths
          with_itself near (omega (arith, near, far)) in
      omega (arith, above, same a inside);
}
  where
    with_u : ℕ → Bool
    with_u = update spt_set u true

    after : Paths
    after = relax_from graph subnet_graph u with_u num_vertices 0 paths

    with_itself : with_u u ≡ true
    with_itself = ground arith

    le : (v : ℕ) → after.dist v ≤ paths.dist v
    le v = relax_from-le graph subnet_graph u num_vertices 0 v with_u paths

    same : (a : ℕ) → with_u a ≡ true → after.dist a ≡ paths.dist a
    same a inside = relax_from-inside graph subnet_graph u num_vertices 0 a with_u paths inside

    member : (a : ℕ) → with_u a ≡ true → (a ≡ u) ⊎ (spt_set a ≡ true)
    member a inside = ground (arith, inside)
