-- ===== src/Mospf/Path.antt =====
-- minDistance and dijkstra of 11-mospf-ping/mospf_daemon.c. An array is a function from indices; the
-- cells are ints that are not negative, and a sum that is no int is told by a flag.
use network_lab.Base.{
  ℕ, zero, suc, ◌+◌, ◌-◌, Bool, true, false, not, ◌&&◌, Option, none, some, ltb, leb, ◌||◌, ◌^◌,
  ◌==◌, if◌then◌else◌, ◌>>=◌, update,
}

abbrev pub num_vertices : ℕ
num_vertices = 6

abbrev pub int_max : ℕ
int_max = 99999

-- The loop from `v` on, with `n` rounds to go; an index that is never assigned is `none`.
unfoldable pub min_from : (ℕ → ℕ) → (ℕ → Bool) → ℕ → ℕ → ℕ → Option ℕ → Option ℕ
min_from dist spt_set zero v min min_index = min_index
min_from dist spt_set (suc n) v min min_index =
    let is_less = not (spt_set v) && ltb (dist v) min in
    min_from dist spt_set n (v + 1) (if is_less then dist v else min)
      (if is_less then some v else min_index)

unfoldable pub min_distance : (ℕ → ℕ) → (ℕ → Bool) → Option ℕ
min_distance dist spt_set = min_from dist spt_set num_vertices 0 int_max none

-- The arrays that dijkstra fills; `none` is the index -1. `overflow` tells whether a sum of two ints
-- has been 2 ^ 31 or more, for which C defines no value.
pub record Paths : Type 0 where
  pub dist : ℕ → ℕ
  pub prev : ℕ → Option ℕ
  pub purpose : ℕ → ℕ
  pub overflow : Bool

-- The sum is taken for an edge to a vertex outside of the set.
abbrev pub relax : (ℕ → ℕ → ℕ) → (ℕ → ℕ → ℕ) → ℕ → (ℕ → Bool) → ℕ → Paths → Paths
relax graph subnet_graph u spt_set v paths =
    let through = paths.dist u + graph u v in
    let is_edge = not (spt_set v) && not (graph u v == 0) in
    let is_better = not (spt_set v) && (not (graph u v == 0) && ltb through (paths.dist v)) in
    record {
      dist = if is_better then update paths.dist v through else paths.dist;
      prev = if is_better then update paths.prev v (some u) else paths.prev;
      purpose = if is_better then update paths.purpose v (subnet_graph u v) else paths.purpose;
      overflow = paths.overflow || is_edge && leb (2 ^ 31) through;
    }

-- The inner loop from `v` on, with `n` rounds to go.
unfoldable pub relax_from : (ℕ → ℕ → ℕ) → (ℕ → ℕ → ℕ) → ℕ → (ℕ → Bool) → ℕ → ℕ → Paths → Paths
relax_from graph subnet_graph u spt_set zero v paths = paths
relax_from graph subnet_graph u spt_set (suc n) v paths =
    relax_from graph subnet_graph u spt_set n (v + 1) (relax graph subnet_graph u spt_set v paths)

-- The rounds of the outer loop; `none` is an index that minDistance leaves uninitialised.
unfoldable pub rounds : (ℕ → ℕ → ℕ) → (ℕ → ℕ → ℕ) → ℕ → (ℕ → Bool) → Paths → Option Paths
rounds graph subnet_graph zero spt_set paths = some paths
rounds graph subnet_graph (suc n) spt_set paths = min_distance paths.dist spt_set >>= λ u.
    let with_u = update spt_set u true in
    rounds graph subnet_graph n with_u (relax_from graph subnet_graph u with_u num_vertices 0 paths)

-- `purpose` is what the array holds before.
unfoldable pub dijkstra : (ℕ → ℕ → ℕ) → ℕ → (ℕ → ℕ) → (ℕ → ℕ → ℕ) → Option Paths
dijkstra graph src purpose subnet_graph =
    rounds graph subnet_graph (num_vertices - 1) (λ v. false)
      (record {
        dist = update (λ v. int_max) src 0;
        prev = λ v. none;
        purpose = purpose;
        overflow = false;
      })

-- The vertex behind the source on the way to `index`. Reading behind the index -1 is `none`, and so is
-- a loop of more rounds than the fuel.
unfoldable pub find_desired_index : ℕ → (ℕ → Option ℕ) → ℕ → Option ℕ
find_desired_index zero prev index = none
find_desired_index (suc fuel) prev index = prev index >>= λ p. elim (prev p) [
  | none ↦ some index
  | some q ↦ find_desired_index fuel prev p
]
