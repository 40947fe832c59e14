-- ===== src/Mospf/Relax.antt =====
-- The rounds of dijkstra of 11-mospf-ping/mospf_daemon.c: the vertices outside of the set, and the loops.
use network_lab.Base.{
  ℕ, zero, suc, ◌+◌, ◌≤◌, ◌<◌, ◌≡◌, ◌≢◌, refl, sym, ◌∙◌, subst, Bool, true, false, arith, ◌==◌,
  if◌then◌else◌, Bool-cases, inl, inr, ==_iff, update,
}
use network_lab.Mospf.Path.{Paths, relax, relax_from}

-- How many vertices below `n` are not in the set.
unfoldable pub count : ℕ → (ℕ → Bool) → ℕ
count zero spt_set = 0
count (suc n) spt_set = (if spt_set n then 0 else 1) + count n spt_set

count-outside :
    (n u : ℕ) (spt_set : ℕ → Bool) → n ≤ u → count n (update spt_set u true) ≡ count n spt_set
unfolding count
count-outside zero u spt_set far = refl
count-outside (suc n) u spt_set far = ground (arith, far, count-outside n u spt_set (omega arith))

pub count-update :
    (n u : ℕ) (spt_set : ℕ → Bool)
    → u < n
    → spt_set u ≡ false
    → count n spt_set ≡ count n (update spt_set u true) + 1
unfolding count
count-update zero u spt_set bound out = absurd (omega arith)
count-update (suc n) u spt_set bound out = elim (Bool-cases (u == n)) [
  | inl same ↦
      let at_n : spt_set n ≡ false = subst (λ x. spt_set x ≡ false) ((==_iff u n).0 same) out in
      rw (same, at_n, count-outside n u spt_set (ground (arith, same))) (omega arith)
  | inr other ↦
      let below : u < n = ground (arith, other, bound) in
      rw (other, count-update n u spt_set below out) (omega arith)
]

pub count-some :
    (n : ℕ) (spt_set : ℕ → Bool) → 0 < count n spt_set → (w : ℕ) × (w < n) × (spt_set w ≡ false)
unfolding count
count-some zero spt_set more = absurd (omega arith)
count-some (suc n) spt_set more = elim (Bool-cases (spt_set n)) [
  | inl inside ↦
      let (w, bound, out) = count-some n spt_set (ground (arith, inside, more)) in
      (w, omega arith, out)
  | inr out ↦ (n, omega arith, out)
]

pub count-one :
    (n x y : ℕ) (spt_set : ℕ → Bool)
    → count n spt_set ≡ 1
    → x < n
    → y < n
    → spt_set x ≡ false
    → spt_set y ≡ false
    → x ≡ y
count-one n x y spt_set one x_bound y_bound x_out y_out = elim (Bool-cases (x == y)) [
  | inl same ↦ (==_iff x y).0 same
  | inr other ↦
      let still : update spt_set x true y ≡ false = ground (arith, other, y_out) in
      let first = count-update n x spt_set x_bound x_out in
      let second = count-update n y (update spt_set x true) y_bound still in
      absurd (omega (arith, first, second, one))
]

-- What the inner loop makes of a distance.
pub relax_from-le :
    (graph subnet_graph : ℕ → ℕ → ℕ) (u n v w : ℕ) (spt_set : ℕ → Bool) (paths : Paths)
    → (relax_from graph subnet_graph u spt_set n v paths).dist w ≤ paths.dist w
unfolding relax_from
relax_from-le graph subnet_graph u zero v w spt_set paths = omega arith
relax_from-le graph subnet_graph u (suc n) v w spt_set paths =
    let next = relax graph subnet_graph u spt_set v paths in
    let rest = relax_from-le graph subnet_graph u n (v + 1) w spt_set next in
    let step : next.dist w ≤ paths.dist w = ground arith in omega (arith, rest, step)

pub relax-inside :
    (graph subnet_graph : ℕ → ℕ → ℕ) (u v w : ℕ) (spt_set : ℕ → Bool) (paths : Paths)
    → spt_set w ≡ true
    → (relax graph subnet_graph u spt_set v paths).dist w ≡ paths.dist w
relax-inside graph subnet_graph u v w spt_set paths inside = elim (Bool-cases (v == w)) [
  | inl same ↦
      let at_v : spt_set v ≡ true =
        subst (λ x. spt_set x ≡ true) (sym ((==_iff v w).0 same)) inside in
      rw at_v refl
  | inr other ↦ ground (arith, other)
]

pub relax_from-inside :
    (graph subnet_graph : ℕ → ℕ → ℕ) (u n v w : ℕ) (spt_set : ℕ → Bool) (paths : Paths)
    → spt_set w ≡ true
    → (relax_from graph subnet_graph u spt_set n v paths).dist w ≡ paths.dist w
unfolding relax_from
relax_from-inside graph subnet_graph u zero v w spt_set paths inside = refl
relax_from-inside graph subnet_graph u (suc n) v w spt_set paths inside =
    relax_from-inside graph subnet_graph u n (v + 1) w spt_set
      (relax graph subnet_graph u spt_set v paths) inside
    ∙ relax-inside graph subnet_graph u v w spt_set paths inside

pub relax_from-edge :
    (graph subnet_graph : ℕ → ℕ → ℕ) (u n v w : ℕ) (spt_set : ℕ → Bool) (paths : Paths)
    → spt_set u ≡ true
    → spt_set w ≡ false
    → graph u w ≢ 0
    → v ≤ w
    → w < v + n
    → (relax_from graph subnet_graph u spt_set n v paths).dist w ≤ paths.dist u + graph u w
unfolding relax_from
relax_from-edge graph subnet_graph u zero v w spt_set paths inside out edge lo hi =
    absurd (omega arith)
relax_from-edge graph subnet_graph u (suc n) v w spt_set paths inside out edge lo hi =
    elim (Bool-cases (v == w)) [
      | inl same ↦
          let v_w = (==_iff v w).0 same in
          let rest =
            relax_from-le graph subnet_graph u n (v + 1) w spt_set
              (relax graph subnet_graph u spt_set v paths) in
          let step : (relax graph subnet_graph u spt_set w paths).dist w
              ≤ paths.dist u + graph u w =
            ground (arith, out, edge) in
          let step' =
            subst
              (λ x. (relax graph subnet_graph u spt_set x paths).dist w ≤ paths.dist u + graph u w)
              (sym v_w) step in
          omega (arith, rest, step')
      | inr other ↦
          let rest =
            relax_from-edge graph subnet_graph u n (v + 1) w spt_set
              (relax graph subnet_graph u spt_set v paths) inside out edge
              (ground (arith, other, lo)) (omega arith) in
          let same_u = relax-inside graph subnet_graph u v u spt_set paths inside in
          omega (arith, rest, same_u)
    ]

pub relax_from-above :
    (graph subnet_graph : ℕ → ℕ → ℕ) (m u n v w : ℕ) (spt_set : ℕ → Bool) (paths : Paths)
    → spt_set u ≡ true
    → m ≤ paths.dist u
    → m ≤ paths.dist w
    → m ≤ (relax_from graph subnet_graph u spt_set n v paths).dist w
unfolding relax_from
relax_from-above graph subnet_graph m u zero v w spt_set paths inside at_u at_w = at_w
relax_from-above graph subnet_graph m u (suc n) v w spt_set paths inside at_u at_w =
    let same_u = relax-inside graph subnet_graph u v u spt_set paths inside in
    relax_from-above graph subnet_graph m u n (v + 1) w spt_set
      (relax graph subnet_graph u spt_set v paths) inside (omega (arith, same_u, at_u))
      (ground (arith, at_u, at_w))
