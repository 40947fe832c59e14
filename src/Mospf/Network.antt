-- ===== src/Mospf/Network.antt =====
-- The graph that deal_rtable of 11-mospf-ping/mospf_daemon.c gives to dijkstra.
use network_lab.Base.{
  ℕ, zero, suc, ◌≤◌, ◌<◌, ◌≡◌, refl, fun_ext, ◌∙◌, Bool, true, false, not, ◌&&◌, ◌||◌, List, [],
  ◌∷◌, some, arith, leb, ◌==◌, if◌then◌else◌, Returns, Every, Bool-cases, ◌⊎◌, inl, inr,
}
use network_lab.Mospf.{Daemon}
use network_lab.Mospf.Path.{num_vertices}
use network_lab.Mospf.Graph.{rid_to_index, index_to_rid, draw_graph, mirror_graph}
use network_lab.Mospf.Links.{links, is_at, has_link, IsKnown, draw_graph_lem}
use network_lab.Mospf.Mirror.{mirrored, mirror_graph_lem, mirror_graph-outside}
use network_lab.Mospf.Cut.{IsGraph}

-- The links, in both directions, each of the length 1.
abbrev pub network : Daemon → ℕ → ℕ → ℕ
network d i j = if has_link (links d) i j || has_link (links d) j i then 1 else 0

abbrev pub no_graph : ℕ → ℕ → ℕ
no_graph i j = 0

rid_to_index-lt : (rid i : ℕ) → is_at i (rid_to_index rid) ≡ true → i < num_vertices
unfolding rid_to_index
rid_to_index-lt rid i at_i = ground arith

pub index_to_rid_lem :
    (i : ℕ) → i < num_vertices → Returns (index_to_rid i) (λ rid. rid_to_index rid ≡ some i)
unfolding index_to_rid rid_to_index
index_to_rid_lem zero bound = (101, refl, refl)
index_to_rid_lem (suc zero) bound = (167772417, refl, refl)
index_to_rid_lem (suc (suc zero)) bound = (167772674, refl, refl)
index_to_rid_lem (suc (suc (suc zero))) bound = (167772931, refl, refl)
index_to_rid_lem (suc (suc (suc (suc zero)))) bound = (167773188, refl, refl)
index_to_rid_lem (suc (suc (suc (suc (suc zero))))) bound = (102, refl, refl)
index_to_rid_lem (suc (suc (suc (suc (suc (suc i)))))) bound = absurd (omega arith)

has_link-lt :
    (ls : List (ℕ × ℕ)) (i j : ℕ) → has_link ls i j ≡ true → (i < num_vertices) × (j < num_vertices)
unfolding has_link
has_link-lt [] i j linked = absurd (ground arith)
has_link-lt ((from, to) ∷ ls) i j linked =
    elim (Bool-cases (is_at i (rid_to_index from) && is_at j (rid_to_index to))) [
      | inl first ↦
          (rid_to_index-lt from i (and-left _ _ first), rid_to_index-lt to j (and-right _ _ first))
      | inr other ↦ has_link-lt ls i j (or-right _ _ other linked)
    ]
  where
    and-left : (a b : Bool) → (a && b) ≡ true → a ≡ true
    and-left true b e = refl
    and-left false b e = e

    and-right : (a b : Bool) → (a && b) ≡ true → b ≡ true
    and-right true b e = e
    and-right false b e = absurd (ground (arith, e))

    or-right : (a b : Bool) → a ≡ false → (a || b) ≡ true → b ≡ true
    or-right true b e f = absurd (ground (arith, e))
    or-right false b e f = f

pub network-IsGraph : (d : Daemon) → IsGraph (network d)
network-IsGraph d u v edge = elim (Bool-cases (has_link (links d) u v)) [
  | inl linked ↦ has_link-lt (links d) u v linked
  | inr other ↦
      let (v_lt, u_lt) = has_link-lt (links d) v u (ground (arith, other, edge)) in (u_lt, v_lt)
]

abbrev one_if : Bool → ℕ
one_if b = if b then 1 else 0

cell_lem :
    (d : Daemon) (graph : ℕ → ℕ → ℕ) (i j : ℕ)
    → ((a b : ℕ) → graph a b ≡ (if has_link (links d) a b then 1 else 0))
    → mirrored graph i j ≡ network d i j
cell_lem d graph i j cells =
    rw (cells i j, cells j i) (both (has_link (links d) i j) (has_link (links d) j i))
  where
    both : (p q : Bool) → (if not (one_if p == 0) then one_if p else one_if q) ≡ one_if (p || q)
    both true q = refl
    both false true = refl
    both false false = refl

network_comm : (d : Daemon) (i j : ℕ) → network d i j ≡ network d j i
network_comm d i j = both (has_link (links d) i j) (has_link (links d) j i)
  where
    both : (p q : Bool) → one_if (p || q) ≡ one_if (q || p)
    both true true = refl
    both true false = refl
    both false true = refl
    both false false = refl

-- Outside of the vertices both are 0.
outside_lem :
    (d : Daemon) (graph : ℕ → ℕ → ℕ) (i j : ℕ)
    → ((a b : ℕ) → graph a b ≡ (if has_link (links d) a b then 1 else 0))
    → (num_vertices ≤ i) ⊎ (num_vertices ≤ j)
    → mirror_graph graph i j ≡ network d i j
outside_lem d graph i j cells far =
    mirror_graph-outside i j graph far
    ∙ cells i j
    ∙ rw (unlinked i j far, unlinked j i (swap far)) refl
  where
    unlinked : (a b : ℕ) → (num_vertices ≤ a) ⊎ (num_vertices ≤ b) → has_link (links d) a b ≡ false
    unlinked a b far = elim (Bool-cases (has_link (links d) a b)) [
      | inl linked ↦
          let (a_lt, b_lt) = has_link-lt (links d) a b linked in
          elim far [
            | inl a_far ↦ absurd (omega (arith, a_far))
            | inr b_far ↦ absurd (omega (arith, b_far))
          ]
      | inr none_there ↦ none_there
    ]

    swap : (num_vertices ≤ i) ⊎ (num_vertices ≤ j) → (num_vertices ≤ j) ⊎ (num_vertices ≤ i)
    swap (inl far) = inr far
    swap (inr far) = inl far

drawn_lem :
    (d : Daemon) (graph : ℕ → ℕ → ℕ)
    → ((a b : ℕ) → graph a b ≡ (if has_link (links d) a b then 1 else 0))
    → mirror_graph graph ≡ network d
drawn_lem d graph cells = fun_ext (λ i. fun_ext (λ j. cell i j))
  where
    cell : (i j : ℕ) → mirror_graph graph i j ≡ network d i j
    cell i j = elim (Bool-cases (leb num_vertices i || leb num_vertices j)) [
      | inl far ↦ outside_lem d graph i j cells (ground (arith, far))
      | inr near ↦ elim (Bool-cases (leb i j)) [
        | inl up ↦
            (mirror_graph_lem i j graph (ground (arith, up)) (ground (arith, near))).0
            ∙ cell_lem d graph i j cells
        | inr down ↦
            (mirror_graph_lem j i graph (ground (arith, down)) (ground (arith, near))).1
            ∙ cell_lem d graph j i cells
            ∙ network_comm d j i
      ]
    ]

-- If every router that is named in the database, or is a neighbour, has a vertex, then the graph that
-- draw_graph and mirror_graph make of an empty one has the links in both directions.
pub mirror_graph-draw_graph :
    (d : Daemon)
    → Every IsKnown (links d)
    → Returns (draw_graph d no_graph) (λ graph. mirror_graph graph ≡ network d)
mirror_graph-draw_graph d known =
    let (graph, e, cells) = draw_graph_lem d no_graph known in (graph, e, drawn_lem d graph cells)
