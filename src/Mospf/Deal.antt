-- ===== src/Mospf/Deal.antt =====
-- deal_rtable of 11-mospf-ping/mospf_daemon.c as a whole: the routes follow the shortest walks.
use network_lab.Base.{◌⊎◌, ℕ, ◌≡◌, false, Option, none, some, Every}
use network_lab.Mospf.{Daemon}
use network_lab.Mospf.Path.{Paths}
use network_lab.Mospf.Graph.{rid_to_index}
use network_lab.Mospf.Network.{network}
use network_lab.Mospf.Tree.{IsFirstHop}
use network_lab.Mospf.Rtable.{RouteEntry}
use network_lab.Mospf.Via.{IsVia, is_linked}

-- An entry of purpose is written together with the one of prev.
abbrev IsIdle : (ℕ → ℕ) → Paths → Type 0
IsIdle purpose paths = (v : ℕ) → paths.prev v ≡ none → paths.purpose v ≡ purpose v

-- The route of a vertex by its first hop, if the database has a link of that router to a subnet of an
-- interface.
abbrev pub IsRoute : Daemon → ℕ → Paths → ℕ → RouteEntry → Type 0
IsRoute d src p v route =
    (route.dest ≡ p.purpose v)
    × ((h : ℕ) × IsFirstHop (network d) src p v h
        × ((rid : ℕ) × (rid_to_index rid ≡ some h)
            × (IsVia d rid route
                ⊎ Every (λ current. is_linked rid d.mospf_db current ≡ false) d.ifaces)))
