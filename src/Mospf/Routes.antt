-- ===== src/Mospf/Routes.antt =====
-- What deal_rtable of 11-mospf-ping/mospf_daemon.c makes of the routing table.
use mathlib.Core.Option.{some-injective}
use network_lab.Base.{
  ℕ, zero, suc, ◌+◌, ◌≤◌, ◌<◌, ◌≡◌, ◌≢◌, refl, sym, ◌∙◌, ap, subst, true, false, List, [], ◌∷◌,
  ◌++◌, Option, none, some, arith, ◌==◌, if◌then◌else◌, Returns, Bool-cases, inl, inr, ==_iff,
}
use network_lab.Mospf.{Daemon}
use network_lab.Mospf.Path.{Paths}
use network_lab.Mospf.Rtable.{
  RouteEntry, route_of, refresh_routes, has_route, enter_route, route_from,
}

-- The first route to a destination.
unfoldable pub find_route : ℕ → List RouteEntry → Option RouteEntry
find_route dest [] = none
find_route dest (entry ∷ rtable) = if entry.dest == dest then some entry else find_route dest rtable

find-other :
    (dest : ℕ) (new : RouteEntry) (rtable : List RouteEntry)
    → (new.dest == dest) ≡ false
    → find_route dest (refresh_routes new rtable) ≡ find_route dest rtable
unfolding find_route refresh_routes
find-other dest new [] other = refl
find-other dest new (entry ∷ rtable) other = ground (arith, other, find-other dest new rtable other)

find-known :
    (new : RouteEntry) (rtable : List RouteEntry)
    → has_route new.dest rtable ≡ true
    → find_route new.dest (refresh_routes new rtable) ≡ some new
unfolding find_route refresh_routes has_route
find-known new [] known = absurd (ground arith)
find-known new (entry ∷ rtable) known = elim (Bool-cases (entry.dest == new.dest)) [
  | inl same ↦ rw ((==_iff entry.dest new.dest).0 same) (ground arith)
  | inr other ↦ ground (arith, other, known, find-known new rtable)
]

find-absent :
    (new : RouteEntry) (rtable : List RouteEntry)
    → has_route new.dest rtable ≡ false
    → find_route new.dest (refresh_routes new rtable ++ (new ∷ [])) ≡ some new
unfolding find_route refresh_routes has_route
find-absent new [] absent = ground arith
find-absent new (entry ∷ rtable) absent = ground (arith, absent, find-absent new rtable)

find-append :
    (dest : ℕ) (new : RouteEntry) (rtable : List RouteEntry)
    → (new.dest == dest) ≡ false
    → find_route dest (rtable ++ (new ∷ [])) ≡ find_route dest rtable
unfolding find_route
find-append dest new [] other = rw other refl
find-append dest new (entry ∷ rtable) other = ground (arith, find-append dest new rtable other)

-- A route that is entered is the one to its destination, and all other routes are as before.
find-enter :
    (dest : ℕ) (new : RouteEntry) (rtable : List RouteEntry)
    → find_route dest (enter_route new rtable)
      ≡ (if new.dest == dest then some new else find_route dest rtable)
unfolding enter_route
find-enter dest new rtable = elim (Bool-cases (new.dest == dest)) [
  | inl same ↦
      subst
        (λ x.
          find_route x (enter_route new rtable)
          ≡ (if new.dest == x then some new else find_route x rtable))
        ((==_iff new.dest dest).0 same)
        (elim (Bool-cases (has_route new.dest rtable)) [
          | inl known ↦ rw (known, find-known new rtable known) (ground arith)
          | inr absent ↦ rw (absent, find-absent new rtable absent) (ground arith)
        ])
  | inr other ↦ elim (Bool-cases (has_route new.dest rtable)) [
    | inl known ↦ rw (known, other) (find-other dest new rtable other)
    | inr absent ↦
        rw (absent, other)
          (find-append dest new (refresh_routes new rtable) other
            ∙ find-other dest new rtable other)
  ]
]

-- The vertices of a range, all with a route to the subnet of their last edge.
abbrev pub IsRouted : Daemon → Paths → (ℕ → ℕ) → ℕ → ℕ → Type 0
IsRouted d paths stale from to =
    (w : ℕ)
    → from ≤ w
    → w < to
    → Returns (route_of d paths (stale w) w) (λ new. new.dest ≡ paths.purpose w)

-- A route stays while no vertex has one to the same subnet.
route_from-kept :
    (d : Daemon) (paths : Paths) (stale : ℕ → ℕ) (n i dest : ℕ) (rtable : List RouteEntry)
    → IsRouted d paths stale i (i + n)
    → ((w : ℕ) → i ≤ w → w < i + n → paths.purpose w ≢ dest)
    → Returns
        (route_from d paths stale n i rtable)
        (λ table. find_route dest table ≡ find_route dest rtable)
unfolding route_from
route_from-kept d paths stale zero i dest rtable routed others = (rtable, refl, refl)
route_from-kept d paths stale (suc n) i dest rtable routed others =
    let (new, e, subnet) = routed i (omega arith) (omega arith) in
    let ne = others i (omega arith) (omega arith) in
    let (table, e', kept) =
      route_from-kept d paths stale n (i + 1) dest (enter_route new rtable)
        (λ w lo hi. routed w (omega arith) (omega arith))
        (λ w lo hi. others w (omega arith) (omega arith)) in
    (table, rw e e', kept ∙ find-enter dest new rtable ∙ ground (arith, subnet, ne))

-- The route of a vertex is in the table, if no later vertex has one to the same subnet.
pub route_from_lem :
    (d : Daemon) (paths : Paths) (stale : ℕ → ℕ) (n i v : ℕ) (route : RouteEntry)
    (rtable : List RouteEntry)
    → IsRouted d paths stale i (i + n)
    → i ≤ v
    → v < i + n
    → route_of d paths (stale v) v ≡ some route
    → ((w : ℕ) → v < w → w < i + n → paths.purpose w ≢ paths.purpose v)
    → Returns
        (route_from d paths stale n i rtable)
        (λ table. find_route (paths.purpose v) table ≡ some route)
unfolding route_from
route_from_lem d paths stale zero i v route rtable routed lo hi at_v others = absurd (omega arith)
route_from_lem d paths stale (suc n) i v route rtable routed lo hi at_v others =
    let (new, e, subnet) = routed i (omega arith) (omega arith) in
    elim (Bool-cases (i == v)) [
      | inl same ↦
          let i_v = (==_iff i v).0 same in
          let new_route : new ≡ route =
            some-injective new route
              (sym e ∙ subst (λ x. route_of d paths (stale x) x ≡ some route) (sym i_v) at_v) in
          let (table, e', kept) =
            route_from-kept d paths stale n (i + 1) (paths.purpose v) (enter_route new rtable)
              (λ w lo hi. routed w (omega arith) (omega arith))
              (λ w lo hi. others w (omega (arith, i_v)) (omega arith)) in
          let to_v : new.dest ≡ paths.purpose v = subnet ∙ ap paths.purpose i_v in
          (
            table,
            rw e e',
            kept
                ∙ find-enter (paths.purpose v) new rtable
                ∙ ap (λ b. if b then some new else find_route (paths.purpose v) rtable)
                    ((==_iff _ _).1 to_v)
                ∙ ap some new_route,
          )
      | inr other ↦
          let (table, e', found) =
            route_from_lem d paths stale n (i + 1) v route (enter_route new rtable)
              (λ w lo hi. routed w (omega arith) (omega arith)) (ground (arith, other, lo))
              (omega arith) at_v (λ w lo hi. others w (omega arith) (omega arith)) in
          (table, rw e e', found)
    ]
