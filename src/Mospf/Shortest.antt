-- ===== src/Mospf/Shortest.antt =====
-- dijkstra of 11-mospf-ping/mospf_daemon.c finds the lengths of the shortest walks.
use network_lab.Base.{
  ℕ, zero, suc, ◌+◌, ◌≤◌, ◌<◌, ◌≡◌, ◌≢◌, refl, subst, Bool, true, false, arith, ◌==◌, Returns,
  Bool-cases, inl, inr, ==_iff, update,
}
use network_lab.Mospf.Path.{
  num_vertices, int_max, Paths, relax_from, rounds, dijkstra, find_desired_index,
}
use network_lab.Mospf.Tree.{
  IsTree, IsFirstHop, relax_from-IsTree, IsTree-update, find_desired_index_lem,
}
use network_lab.Mospf.Closest.{min_distance_lem}
use network_lab.Mospf.Walks.{Walk, here, IsWalked, relax_from-IsWalked}
use network_lab.Mospf.Sums.{IsAddable, dijkstra-overflow}
use network_lab.Mospf.Relax.{count, count-some, count-one, count-update}
use network_lab.Mospf.Cut.{IsGraph, IsConnected, IsDone, cut, round-IsDone}

-- The least lengths of walks.
abbrev pub IsShortest : (ℕ → ℕ → ℕ) → ℕ → Paths → Type 0
IsShortest graph src paths =
    (v d : ℕ)
    → v < num_vertices
    → Walk graph src v d
    → (paths.dist v ≤ d) × Walk graph src v (paths.dist v)

last-IsShortest :
    (graph : ℕ → ℕ → ℕ) (src : ℕ) (spt_set : ℕ → Bool) (paths : Paths)
    → IsGraph graph
    → IsConnected graph src
    → IsDone graph src spt_set paths
    → IsWalked graph src paths
    → count num_vertices spt_set ≡ 1
    → IsShortest graph src paths
last-IsShortest graph src spt_set paths real connected done walked one v d bound walk =
    let (l, short_walk, near) = connected v bound in
    (least d walk, walked v (omega (arith, least l short_walk, near)))
  where
    least : (d : ℕ) → Walk graph src v d → paths.dist v ≤ d
    least d walk = elim (cut graph src spt_set paths real done v d walk) [
      | inl short ↦ short
      | inr (x, x_bound, x_outside, short) ↦ elim (Bool-cases (spt_set v)) [
        | inl inside ↦ omega (arith, done.order v x x_bound inside x_outside, short)
        | inr outside ↦
            subst (λ x. paths.dist x ≤ d)
              (count-one num_vertices x v spt_set one x_bound bound x_outside outside) short
      ]
    ]

rounds_lem :
    (graph subnet_graph : ℕ → ℕ → ℕ) (src n : ℕ) (spt_set : ℕ → Bool) (paths : Paths)
    → IsGraph graph
    → IsConnected graph src
    → IsDone graph src spt_set paths
    → IsWalked graph src paths
    → IsTree graph subnet_graph src spt_set paths
    → count num_vertices spt_set ≡ n + 1
    → Returns
        (rounds graph subnet_graph n spt_set paths)
        (λ p. IsShortest graph src p × ((done : ℕ → Bool) × IsTree graph subnet_graph src done p))
unfolding rounds
rounds_lem graph subnet_graph src zero spt_set paths real connected done walked tree left = (
  paths,
  refl,
  (last-IsShortest graph src spt_set paths real connected done walked left, (spt_set, tree)),
)
rounds_lem graph subnet_graph src (suc n) spt_set paths real connected done walked tree left =
    let (w, w_bound, w_out) = count-some num_vertices spt_set (omega (arith, left)) in
    let (d, walk, near) = connected w w_bound in
    let (x, x_bound, x_out, x_near) : (x : ℕ) × (x < num_vertices)
        × (spt_set x ≡ false)
        × (paths.dist x ≤ d) =
      elim (cut graph src spt_set paths real done w d walk) [
        | inl short ↦ (w, w_bound, w_out, short)
        | inr found ↦ found
      ] in
    let (u, e, closest) =
      min_distance_lem paths.dist spt_set x x_bound x_out (omega (arith, x_near, near)) in
    let (lo, hi, out, least) = closest in
    let with_u = update spt_set u true in
    let (p, e', shortest) =
      rounds_lem graph subnet_graph src n with_u
        (relax_from graph subnet_graph u with_u num_vertices 0 paths) real connected
        (round-IsDone graph subnet_graph src u spt_set paths real done closest)
        (relax_from-IsWalked graph subnet_graph src u num_vertices 0 with_u paths
          (omega (arith, least x (omega arith) x_bound x_out, x_near, near)) walked)
        (relax_from-IsTree graph subnet_graph src u num_vertices 0 with_u paths (ground arith)
          (IsTree-update graph subnet_graph src u spt_set paths tree))
        (omega (arith, left, count-update num_vertices u spt_set hi out)) in
    (p, rw e e', shortest)

pub dijkstra_lem :
    (graph subnet_graph : ℕ → ℕ → ℕ) (src : ℕ) (purpose : ℕ → ℕ)
    → IsGraph graph
    → IsConnected graph src
    → Returns
        (dijkstra graph src purpose subnet_graph)
        (λ p. IsShortest graph src p × ((done : ℕ → Bool) × IsTree graph subnet_graph src done p))
unfolding dijkstra count
dijkstra_lem graph subnet_graph src purpose real connected =
    rounds_lem graph subnet_graph src 5 (λ v. false) _ real connected
      (record {
        start = ground arith;
        edge = λ u v inside some_edge. absurd (ground (arith, inside));
        order = λ u v bound inside outside. absurd (ground (arith, inside));
      })
      (λ v near. elim (Bool-cases (src == v)) [
        | inl same ↦ rw same (subst (λ x. Walk graph src x 0) ((==_iff src v).0 same) here)
        | inr other ↦ absurd (ground (arith, other, near))
      ])
      (record {
        root = refl;
        start = ground arith;
        child = λ v ne near. absurd (ground (arith, ne, near));
      })
      refl

-- In a graph of the six vertices, each with a walk from `src` that is shorter than INT_MAX, and with cells
-- that can be added to INT_MAX without overflow, dijkstra returns, no index being left uninitialised and
-- no sum overflowing, and the distance of every vertex is the length of a walk to it, and of no longer
-- one than any other.
pub dijkstra-IsShortest :
    (graph subnet_graph : ℕ → ℕ → ℕ) (src : ℕ) (purpose : ℕ → ℕ)
    → IsGraph graph
    → IsAddable graph
    → IsConnected graph src
    → Returns
        (dijkstra graph src purpose subnet_graph)
        (λ p. (p.overflow ≡ false) × IsShortest graph src p)
dijkstra-IsShortest graph subnet_graph src purpose real small connected =
    let (p, e, (shortest, tree)) = dijkstra_lem graph subnet_graph src purpose real connected in
    (p, e, (dijkstra-overflow graph subnet_graph small src purpose p e, shortest))

-- In such a graph, where no sum overflows, find_desired_index ends for every vertex but the source, with
-- the first vertex of a walk whose length is the distance: it is next to the source, and the distance
-- is the one edge and the length of a walk from there. purpose has the subnet of the last edge of a walk
-- of this length.
pub find_desired_index-dijkstra :
    (graph subnet_graph : ℕ → ℕ → ℕ) (src v : ℕ) (purpose : ℕ → ℕ)
    → IsGraph graph
    → IsAddable graph
    → IsConnected graph src
    → v < num_vertices
    → v ≢ src
    → Returns (dijkstra graph src purpose subnet_graph) (λ p.
      (p.overflow ≡ false)
      × Returns (find_desired_index int_max p.prev v) (IsFirstHop graph src p v)
      × ((u : ℕ) × (graph u v ≢ 0)
          × (p.dist v ≡ p.dist u + graph u v)
          × (p.purpose v ≡ subnet_graph u v)))
find_desired_index-dijkstra graph subnet_graph src v purpose real small connected bound ne =
    let (p, e, (shortest, (done, tree))) =
      dijkstra_lem graph subnet_graph src purpose real connected in
    let (d, walk, short) = connected v bound in
    let near : p.dist v < int_max = omega (arith, (shortest v d bound walk).0, short) in
    let (u, last) = tree.child v ne near in
    (
      p,
      e,
      (
        dijkstra-overflow graph subnet_graph small src purpose p e,
        find_desired_index_lem graph subnet_graph src int_max v done p tree ne near near,
        (u, last.edge, last.length, last.subnet),
      ),
    )
