-- ===== src/Mospf/Closest.antt =====
-- What minDistance of 11-mospf-ping/mospf_daemon.c returns.
use network_lab.Base.{
  ℕ, zero, suc, ◌+◌, ◌≤◌, ◌<◌, ◌≡◌, refl, subst, Bool, false, not, ◌&&◌, Option, none, some, arith,
  ltb, ◌==◌, Returns, Bool-cases, ◌⊎◌, inl, inr, ==_iff,
}
use network_lab.Mospf.Path.{num_vertices, int_max, min_from, min_distance}

-- A closest vertex of those from `from` to below `to` that are not in the set.
abbrev pub IsClosest : (ℕ → ℕ) → (ℕ → Bool) → ℕ → ℕ → ℕ → Type 0
IsClosest dist spt_set from to u =
    (from ≤ u)
    × (u < to)
    × (spt_set u ≡ false)
    × ((w : ℕ) → from ≤ w → w < to → spt_set w ≡ false → dist u ≤ dist w)

from_first : (P : ℕ → Type 0) (v w : ℕ) → v ≤ w → P v → (v + 1 ≤ w → P w) → P w
from_first P v w le here later = elim (Bool-cases (v == w)) [
  | inl same ↦ subst P ((==_iff v w).0 same) here
  | inr other ↦ later (ground (arith, other, le))
]

min_from_lem :
    (dist : ℕ → ℕ) (spt_set : ℕ → Bool) (n v min : ℕ) (min_index : Option ℕ)
    → ((min_from dist spt_set n v min min_index ≡ min_index)
        × ((w : ℕ) → v ≤ w → w < v + n → spt_set w ≡ false → min ≤ dist w))
      ⊎ ((u : ℕ) × (min_from dist spt_set n v min min_index ≡ some u)
          × (dist u < min)
          × IsClosest dist spt_set v (v + n) u)
unfolding min_from
min_from_lem dist spt_set zero v min min_index = inl (refl, λ w lo hi out. absurd (omega arith))
min_from_lem dist spt_set (suc n) v min min_index =
    elim (Bool-cases (not (spt_set v) && ltb (dist v) min)) [
      | inl less ↦
          let out : spt_set v ≡ false = ground (arith, less) in
          let lt : dist v < min = ground (arith, less) in
          elim (min_from_lem dist spt_set n (v + 1) (dist v) (some v)) [
            | inl (e, ge) ↦ inr (
              v,
              rw less e,
              lt,
              (
                omega arith,
                omega arith,
                out,
                λ w lo hi at_w.
                    from_first (λ w. w < v + suc n → spt_set w ≡ false → dist v ≤ dist w) v w lo
                      (λ hi at_w. omega arith) (λ lo hi at_w. ge w lo (omega arith) at_w) hi at_w,
              ),
            )
            | inr (u, e, near, (lo, hi, at_u, ge)) ↦ inr (
              u,
              rw less e,
              omega arith,
              (
                omega arith,
                omega arith,
                at_u,
                λ w lo hi at_w.
                    from_first (λ w. w < v + suc n → spt_set w ≡ false → dist u ≤ dist w) v w lo
                      (λ hi at_w. omega arith) (λ lo hi at_w. ge w lo (omega arith) at_w) hi at_w,
              ),
            )
          ]
      | inr more ↦ elim (min_from_lem dist spt_set n (v + 1) min min_index) [
        | inl (e, ge) ↦ inl (
          rw more e,
          λ w lo hi at_w.
              from_first (λ w. w < v + suc n → spt_set w ≡ false → min ≤ dist w) v w lo
                (λ hi at_w. ground (arith, more, at_w)) (λ lo hi at_w. ge w lo (omega arith) at_w)
                hi at_w,
        )
        | inr (u, e, near, (lo, hi, at_u, ge)) ↦ inr (
          u,
          rw more e,
          near,
          (
            omega arith,
            omega arith,
            at_u,
            λ w lo hi at_w.
                from_first (λ w. w < v + suc n → spt_set w ≡ false → dist u ≤ dist w) v w lo
                  (λ hi at_w. ground (arith, more, at_w, near))
                  (λ lo hi at_w. ge w lo (omega arith) at_w) hi at_w,
          ),
        )
      ]
    ]

-- If a vertex that is not in the set has a distance, minDistance returns one of those with the least.
pub min_distance_lem :
    (dist : ℕ → ℕ) (spt_set : ℕ → Bool) (w : ℕ)
    → w < num_vertices
    → spt_set w ≡ false
    → dist w < int_max
    → Returns (min_distance dist spt_set) (λ u. IsClosest dist spt_set 0 num_vertices u)
unfolding min_distance
min_distance_lem dist spt_set w bound out near =
    elim (min_from_lem dist spt_set num_vertices 0 int_max none) [
      | inl (e, ge) ↦ let far = ge w (omega arith) bound out in absurd (omega arith)
      | inr (u, e, lt, closest) ↦ (u, e, closest)
    ]
