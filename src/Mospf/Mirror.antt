-- ===== src/Mospf/Mirror.antt =====
-- What mirror_graph of 11-mospf-ping/mospf_daemon.c makes of a graph.
use network_lab.Base.{
  ℕ, zero, suc, ◌+◌, ◌≤◌, ◌<◌, ◌≡◌, refl, subst, ◌∙◌, true, false, not, ◌&&◌, ◌||◌, arith, ltb, leb,
  ◌==◌, if◌then◌else◌, Bool-cases, ◌⊎◌, inl, inr, ==_iff,
}
use network_lab.Mospf.Path.{num_vertices}
use network_lab.Mospf.Graph.{mirror_cell, mirror_row, mirror_from, mirror_graph}

-- The row that is gone through stays as it is.
cell-row : (i j b : ℕ) (graph : ℕ → ℕ → ℕ) → mirror_cell i j graph i b ≡ graph i b
cell-row i j b graph = ground arith

row_lem :
    (i n j a b : ℕ) (graph : ℕ → ℕ → ℕ)
    → mirror_row i n j graph a b ≡ (
        if (b == i && leb j a) && (ltb a (j + n) && not (graph i a == 0))
        then graph i a
        else graph a b)
unfolding mirror_row
row_lem i zero j a b graph = ground arith
row_lem i (suc n) j a b graph =
    row_lem i n (j + 1) a b (mirror_cell i j graph)
    ∙ rw (cell-row i j a graph) (step (Bool-cases (a == j)) (Bool-cases (b == i)))
  where
    step :
        ((a == j) ≡ true) ⊎ ((a == j) ≡ false)
        → ((b == i) ≡ true) ⊎ ((b == i) ≡ false)
        → (if (b == i && leb (j + 1) a) && (ltb a (j + 1 + n) && not (graph i a == 0))
            then graph i a
            else mirror_cell i j graph a b)
          ≡ (if (b == i && leb j a) && (ltb a (j + suc n) && not (graph i a == 0))
              then graph i a
              else graph a b)
    step (inl a_j) (inl b_i) = rw ((==_iff a j).0 a_j, (==_iff b i).0 b_i) (ground arith)
    step (inl a_j) (inr other) = rw other (ground (arith, other))
    step (inr other) (inl b_i) = rw b_i (ground (arith, other, b_i))
    step (inr other) (inr apart) = rw apart (ground (arith, other, apart))

-- The value that both cells of a pair end with, which is the one of the first that is gone through.
abbrev pub mirrored : (ℕ → ℕ → ℕ) → ℕ → ℕ → ℕ
mirrored graph a b = if not (graph a b == 0) then graph a b else graph b a

row-kept :
    (i a b : ℕ) (graph : ℕ → ℕ → ℕ)
    → (i == b) ≡ false
    → mirror_row i num_vertices 0 graph a b ≡ graph a b
row-kept i a b graph other = row_lem i num_vertices 0 a b graph ∙ ground (arith, other)

row-turn :
    (i a b : ℕ) (graph : ℕ → ℕ → ℕ)
    → (i == a) ≡ true
    → b < num_vertices
    → mirror_row i num_vertices 0 graph b a ≡ mirrored graph a b
row-turn i a b graph same bound =
    row_lem i num_vertices 0 b a graph ∙ rw ((==_iff i a).0 same) (ground (arith, bound))

-- A cell changes in the round of its column alone.
from-other :
    (n i a b : ℕ) (graph : ℕ → ℕ → ℕ)
    → (ltb b i || leb (i + n) b) ≡ true
    → mirror_from n i graph a b ≡ graph a b
unfolding mirror_from
from-other zero i a b graph apart = refl
from-other (suc n) i a b graph apart =
    from-other n (i + 1) a b (mirror_row i num_vertices 0 graph) (ground (arith, apart))
    ∙ row-kept i a b graph (ground (arith, apart))

-- The cell (b, a), the other one of the pair being as it is until the round of `a`.
from-first :
    (n i a b : ℕ) (graph : ℕ → ℕ → ℕ)
    → i ≤ a
    → a < i + n
    → b < num_vertices
    → (ltb b i || leb a b) ≡ true
    → mirror_from n i graph b a ≡ mirrored graph a b
unfolding mirror_from
from-first zero i a b graph lo hi bound kept = absurd (omega arith)
from-first (suc n) i a b graph lo hi bound kept = elim (Bool-cases (i == a)) [
  | inl same ↦
      from-other n (i + 1) b a (mirror_row i num_vertices 0 graph) (ground (arith, same))
      ∙ row-turn i a b graph same bound
  | inr other ↦
      from-first n (i + 1) a b (mirror_row i num_vertices 0 graph) (ground (arith, other, lo))
        (omega arith) bound (ground (arith, other, lo, kept))
      ∙ rw (row-kept i a b graph (ground (arith, other, lo, kept)), row-kept i b a graph other) refl
]

-- The cell (a, b) on or above the diagonal, which takes what the round of `a` makes of the other one.
from-second :
    (n i a b : ℕ) (graph : ℕ → ℕ → ℕ)
    → i ≤ a
    → a < b
    → b < i + n
    → b < num_vertices
    → mirror_from n i graph a b ≡ mirrored graph a b
unfolding mirror_from
from-second zero i a b graph lo up hi bound = absurd (omega arith)
from-second (suc n) i a b graph lo up hi bound = elim (Bool-cases (i == a)) [
  | inl same ↦
      from-first n (i + 1) b a (mirror_row i num_vertices 0 graph) (ground (arith, same, up))
        (omega arith) (omega arith) (ground (arith, same))
      ∙ rw (row-turn i a b graph same bound, row-kept i a b graph (ground (arith, same, up)))
          (ground arith)
  | inr other ↦
      from-second n (i + 1) a b (mirror_row i num_vertices 0 graph) (ground (arith, other, lo)) up
        (omega arith) bound
      ∙ rw (row-kept i a b graph (ground (arith, other, lo, up)), row-kept i b a graph other) refl
]

-- Rows that are no vertices stay as they are, and so do columns, by from-other.
from-outside :
    (n i a b : ℕ) (graph : ℕ → ℕ → ℕ) → num_vertices ≤ a → mirror_from n i graph a b ≡ graph a b
unfolding mirror_from
from-outside zero i a b graph far = refl
from-outside (suc n) i a b graph far =
    from-outside n (i + 1) a b (mirror_row i num_vertices 0 graph) far
    ∙ row_lem i num_vertices 0 a b graph
    ∙ ground (arith, far)

pub mirror_graph-outside :
    (a b : ℕ) (graph : ℕ → ℕ → ℕ)
    → (num_vertices ≤ a) ⊎ (num_vertices ≤ b)
    → mirror_graph graph a b ≡ graph a b
unfolding mirror_graph
mirror_graph-outside a b graph (inl far) = from-outside num_vertices 0 a b graph far
mirror_graph-outside a b graph (inr far) = from-other num_vertices 0 a b graph (ground (arith, far))

-- Both cells of a pair of vertices, `a` not behind `b`, end with what the first one holds, or with what
-- the second one holds if the first one is 0: the graph is symmetric, and an edge that is drawn in one
-- direction is there in both.
pub mirror_graph_lem :
    (a b : ℕ) (graph : ℕ → ℕ → ℕ)
    → a ≤ b
    → b < num_vertices
    → (mirror_graph graph a b ≡ mirrored graph a b) × (mirror_graph graph b a ≡ mirrored graph a b)
unfolding mirror_graph
mirror_graph_lem a b graph up bound = (
  elim (Bool-cases (a == b)) [
    | inl same ↦
        subst (λ c. mirror_from num_vertices 0 graph a c ≡ mirrored graph a c) ((==_iff a b).0 same)
          (from-first num_vertices 0 a a graph (omega arith) (omega arith) (omega arith)
            (ground arith))
    | inr other ↦
        from-second num_vertices 0 a b graph (omega arith) (ground (arith, other, up)) bound bound
  ],
  from-first num_vertices 0 a b graph (omega arith) (omega arith) bound (ground (arith, up)),
)
