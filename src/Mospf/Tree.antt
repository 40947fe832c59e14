-- ===== src/Mospf/Tree.antt =====
-- The arrays prev and purpose of dijkstra of 11-mospf-ping/mospf_daemon.c: the tree of the walks, and
-- find_desired_index in it.
use network_lab.Base.{
  ℕ, zero, suc, ◌+◌, ◌<◌, ◌≡◌, ◌≢◌, refl, sym, ◌∙◌, subst, Bool, true, false, not, ◌&&◌, none, some,
  arith, ltb, ◌==◌, Bool-cases, inl, inr, ==_iff, update, Returns,
}
use network_lab.Mospf.Path.{int_max, Paths, relax, relax_from, find_desired_index}
use network_lab.Mospf.Walks.{Walk, here, along, relax-le}
use network_lab.Mospf.Relax.{relax-inside}

-- The last edge of the walk to a vertex: it comes from a vertex of the set, and it is the one that
-- prev, the distance and purpose tell of.
pub record IsChild (graph subnet_graph : ℕ → ℕ → ℕ) (spt_set : ℕ → Bool) (paths : Paths) (v u : ℕ)
    : Type 0 where
  pub parent : paths.prev v ≡ some u
  pub inside : spt_set u ≡ true
  pub edge : graph u v ≢ 0
  pub length : paths.dist v ≡ paths.dist u + graph u v
  pub subnet : paths.purpose v ≡ subnet_graph u v

pub record IsTree (graph subnet_graph : ℕ → ℕ → ℕ) (src : ℕ) (spt_set : ℕ → Bool) (paths : Paths)
    : Type 0 where
  pub root : paths.prev src ≡ none
  pub start : paths.dist src ≡ 0
  pub child :
      (v : ℕ)
      → v ≢ src
      → paths.dist v < int_max
      → (u : ℕ) × IsChild graph subnet_graph spt_set paths v u

-- A vertex whose distance gets better is outside of the set, and not the source.
relax-IsChild :
    (graph subnet_graph : ℕ → ℕ → ℕ) (u v : ℕ) (spt_set : ℕ → Bool) (paths : Paths)
    → spt_set u ≡ true
    → (not (spt_set v) && (not (graph u v == 0) && ltb (paths.dist u + graph u v) (paths.dist v)))
      ≡ true
    → IsChild graph subnet_graph spt_set (relax graph subnet_graph u spt_set v paths) v u
relax-IsChild graph subnet_graph u v spt_set paths in_u better =
    let same_u = relax-inside graph subnet_graph u v u spt_set paths in_u in
    record {
      parent = rw better (ground arith);
      inside = in_u;
      edge = ground (arith, better);
      length = rw same_u (rw better (ground arith));
      subnet = rw better (ground arith);
    }

-- All others keep their last edge.
relax-IsChild_ne :
    (graph subnet_graph : ℕ → ℕ → ℕ) (u v w x : ℕ) (spt_set : ℕ → Bool) (paths : Paths)
    → (v == w) ≡ false
    → IsChild graph subnet_graph spt_set paths w x
    → IsChild graph subnet_graph spt_set (relax graph subnet_graph u spt_set v paths) w x
relax-IsChild_ne graph subnet_graph u v w x spt_set paths other old =
    let same_x = relax-inside graph subnet_graph u v x spt_set paths old.inside in
    record {
      parent = ground (arith, other, old.parent);
      inside = old.inside;
      edge = old.edge;
      length = rw same_x (ground (arith, other, old.length));
      subnet = ground (arith, other, old.subnet);
    }

relax-IsTree :
    (graph subnet_graph : ℕ → ℕ → ℕ) (src u v : ℕ) (spt_set : ℕ → Bool) (paths : Paths)
    → spt_set u ≡ true
    → IsTree graph subnet_graph src spt_set paths
    → IsTree graph subnet_graph src spt_set (relax graph subnet_graph u spt_set v paths)
relax-IsTree graph subnet_graph src u v spt_set paths in_u tree =
    elim (Bool-cases (
      not (spt_set v) && (not (graph u v == 0) && ltb (paths.dist u + graph u v) (paths.dist v)))) [
        | inl better ↦ record {
          root = rw (better, not_src better) tree.root;
          start = omega (arith, relax-le graph subnet_graph u v src spt_set paths, tree.start);
          child = λ w ne near. elim (Bool-cases (v == w)) [
            | inl same ↦ (
              u,
              subst
                  (λ w.
                    IsChild graph subnet_graph spt_set (relax graph subnet_graph u spt_set v paths)
                      w u)
                  ((==_iff v w).0 same)
                  (relax-IsChild graph subnet_graph u v spt_set paths in_u better),
            )
            | inr other ↦
                let (x, old) = tree.child w ne (ground (arith, other, near)) in
                (x, relax-IsChild_ne graph subnet_graph u v w x spt_set paths other old)
          ];
        }
        | inr worse ↦ rw worse (record {
          root = tree.root;
          start = tree.start;
          child = λ w ne near.
              let (x, old) = tree.child w ne near in
              (
                x,
                record {
                  parent = old.parent;
                  inside = old.inside;
                  edge = old.edge;
                  length = old.length;
                  subnet = old.subnet;
                },
              );
        })
      ]
  where
    not_src :
        (not (spt_set v) && (not (graph u v == 0) && ltb (paths.dist u + graph u v) (paths.dist v)))
          ≡ true
        → (v == src) ≡ false
    not_src better = elim (Bool-cases (v == src)) [
      | inl same ↦
          let no_dist : paths.dist v ≡ 0 =
            subst (λ x. paths.dist x ≡ 0) (sym ((==_iff v src).0 same)) tree.start in
          absurd (ground (arith, better, no_dist))
      | inr other ↦ other
    ]

-- The inner loop keeps the tree.
pub relax_from-IsTree :
    (graph subnet_graph : ℕ → ℕ → ℕ) (src u n v : ℕ) (spt_set : ℕ → Bool) (paths : Paths)
    → spt_set u ≡ true
    → IsTree graph subnet_graph src spt_set paths
    → IsTree graph subnet_graph src spt_set (relax_from graph subnet_graph u spt_set n v paths)
unfolding relax_from
relax_from-IsTree graph subnet_graph src u zero v spt_set paths in_u tree = tree
relax_from-IsTree graph subnet_graph src u (suc n) v spt_set paths in_u tree =
    relax_from-IsTree graph subnet_graph src u n (v + 1) spt_set
      (relax graph subnet_graph u spt_set v paths) in_u
      (relax-IsTree graph subnet_graph src u v spt_set paths in_u tree)

-- So does a vertex that enters the set.
pub IsTree-update :
    (graph subnet_graph : ℕ → ℕ → ℕ) (src u : ℕ) (spt_set : ℕ → Bool) (paths : Paths)
    → IsTree graph subnet_graph src spt_set paths
    → IsTree graph subnet_graph src (update spt_set u true) paths
IsTree-update graph subnet_graph src u spt_set paths tree = record {
  root = tree.root;
  start = tree.start;
  child = λ v ne near.
      let (x, old) = tree.child v ne near in
      (
        x,
        record {
          parent = old.parent;
          inside = ground (arith, old.inside);
          edge = old.edge;
          length = old.length;
          subnet = old.subnet;
        },
      );
}

-- The first vertex of the walk that the tree has to `v`, and what is left of it.
abbrev pub IsFirstHop : (ℕ → ℕ → ℕ) → ℕ → Paths → ℕ → ℕ → Type 0
IsFirstHop graph src paths v h =
    (graph src h ≢ 0)
    × (paths.prev h ≡ some src)
    × ((d : ℕ) × Walk graph h v d × (paths.dist v ≡ graph src h + d))

-- find_desired_index ends, with the first hop, in fewer rounds than the distance.
pub find_desired_index_lem :
    (graph subnet_graph : ℕ → ℕ → ℕ) (src fuel v : ℕ) (spt_set : ℕ → Bool) (paths : Paths)
    → IsTree graph subnet_graph src spt_set paths
    → v ≢ src
    → paths.dist v < int_max
    → paths.dist v < fuel
    → Returns (find_desired_index fuel paths.prev v) (IsFirstHop graph src paths v)
unfolding find_desired_index
find_desired_index_lem graph subnet_graph src zero v spt_set paths tree ne near enough =
    absurd (omega arith)
find_desired_index_lem graph subnet_graph src (suc fuel) v spt_set paths tree ne near enough =
    let (u, last) = tree.child v ne near in
    elim (Bool-cases (u == src)) [
      | inl same ↦
          let u_src = (==_iff u src).0 same in
          (
            v,
            rw (last.parent, u_src, tree.root) refl,
            (
              subst (λ x. graph x v ≢ 0) u_src last.edge,
              last.parent ∙ rw u_src refl,
              (0, here, last.length ∙ rw (u_src, tree.start) (omega arith)),
            ),
          )
      | inr other ↦
          let closer : paths.dist u < paths.dist v = ground (arith, last.length, last.edge) in
          let ne' : u ≢ src = ground (arith, other) in
          let (w, before) = tree.child u ne' (omega (arith, closer, near)) in
          let (h, e, (edge, parent, (d, walk, sum))) =
            find_desired_index_lem graph subnet_graph src fuel u spt_set paths tree ne'
              (omega (arith, closer, near)) (omega (arith, closer, enough)) in
          (
            h,
            rw (last.parent, before.parent) e,
            (
              edge,
              parent,
              (d + graph u v, along u v d walk last.edge, last.length ∙ omega (arith, sum)),
            ),
          )
    ]
