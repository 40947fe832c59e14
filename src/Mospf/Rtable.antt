-- ===== src/Mospf/Rtable.antt =====
-- deal_rtable of 11-mospf-ping/mospf_daemon.c: the routing table that is made of the database.
use Prim.Native.Nat.{bit_and}
use network_lab.Base.{
  ℕ, zero, suc, ◌+◌, Bool, false, ◌&&◌, ◌||◌, List, [], ◌∷◌, ◌++◌, Option, none, some, ◌==◌,
  if◌then◌else◌, ◌>>=◌,
}
use network_lab.Packet.{Iface}
use network_lab.Mospf.{MospfLsa, MospfNbr, MospfIface, MospfDbEntry, Daemon}
use network_lab.Mospf.Path.{num_vertices, int_max, Paths, dijkstra, find_desired_index}
use network_lab.Mospf.Graph.{
  rid_to_index, index_to_rid, draw_graph, generate_subnet_graph, mirror_graph,
}

-- A route as the daemon makes it, whose interface may be the null pointer.
pub record RouteEntry : Type 0 where
  pub dest : ℕ
  pub gw : ℕ
  pub mask : ℕ
  pub iface : Option Iface

unfoldable pub has_subnet : Iface → List MospfLsa → Bool
has_subnet iface [] = false
has_subnet iface (lsa ∷ lsas) =
    bit_and lsa.subnet lsa.mask == bit_and iface.ip iface.mask || has_subnet iface lsas

unfoldable pub is_advertised : Iface → ℕ → List MospfDbEntry → Bool
is_advertised iface rid [] = false
is_advertised iface rid (entry ∷ db) =
    (entry.rid == rid && has_subnet iface entry.array) || is_advertised iface rid db

unfoldable pub find_desired_subnet : List MospfIface → List MospfDbEntry → ℕ → ℕ
find_desired_subnet [] db rid = 0
find_desired_subnet (current ∷ ifaces) db rid =
    if is_advertised current.iface rid db
    then bit_and current.iface.ip current.iface.mask
    else find_desired_subnet ifaces db rid

-- The last interface of the subnet.
unfoldable pub find_desired_iface : ℕ → List MospfIface → Option MospfIface → Option MospfIface
find_desired_iface subnet [] desired = desired
find_desired_iface subnet (current ∷ ifaces) desired =
    find_desired_iface subnet ifaces
      (if bit_and current.iface.ip current.iface.mask == subnet then some current else desired)

-- The last neighbour of the subnet.
unfoldable pub find_desired_gw : ℕ → List MospfNbr → ℕ → ℕ
find_desired_gw subnet [] gw = gw
find_desired_gw subnet (nbr ∷ nbrs) gw =
    find_desired_gw subnet nbrs
      (if bit_and nbr.nbr_ip nbr.nbr_mask == subnet then nbr.nbr_ip else gw)

-- The route by an interface; `stale` is what the uninitialised `desired_mask` holds.
unfoldable pub route_via : ℕ → ℕ → ℕ → Option MospfIface → RouteEntry
route_via stale dest subnet none = record { dest = dest; gw = 0; mask = stale; iface = none }
route_via stale dest subnet (some desired) = record {
  dest = dest;
  gw = find_desired_gw subnet desired.nbr_list 0;
  mask = desired.iface.mask;
  iface = some desired.iface;
}

-- The route by the router `rid`.
unfoldable pub route_by : Daemon → ℕ → ℕ → ℕ → RouteEntry
route_by d stale dest rid =
    let subnet = find_desired_subnet d.ifaces d.mospf_db rid in
    route_via stale dest subnet (find_desired_iface subnet d.ifaces none)

-- The route to the subnet of the last edge to `i`; `none` is a fault or an exit.
unfoldable pub route_of : Daemon → Paths → ℕ → ℕ → Option RouteEntry
route_of d paths stale i =
    if paths.purpose i == 0
    then some (record { dest = 0; gw = 0; mask = stale; iface = none })
    else (find_desired_index int_max paths.prev i >>= λ index.
        index_to_rid index >>= λ rid. some (route_by d stale (paths.purpose i) rid))

unfoldable pub refresh_routes : RouteEntry → List RouteEntry → List RouteEntry
refresh_routes new [] = []
refresh_routes new (entry ∷ rtable) =
    (if entry.dest == new.dest
      then record entry { gw = new.gw; mask = new.mask; iface = new.iface }
      else entry)
    ∷ refresh_routes new rtable

unfoldable pub has_route : ℕ → List RouteEntry → Bool
has_route dest [] = false
has_route dest (entry ∷ rtable) = entry.dest == dest || has_route dest rtable

unfoldable pub enter_route : RouteEntry → List RouteEntry → List RouteEntry
enter_route new rtable =
    if has_route new.dest rtable
    then refresh_routes new rtable
    else refresh_routes new rtable ++ (new ∷ [])

-- The loop over the vertices from `i` on, with `n` rounds to go.
unfoldable pub route_from :
    Daemon → Paths → (ℕ → ℕ) → ℕ → ℕ → List RouteEntry → Option (List RouteEntry)
route_from d paths stale zero i rtable = some rtable
route_from d paths stale (suc n) i rtable = route_of d paths (stale i) i >>= λ new.
    route_from d paths stale n (i + 1) (enter_route new rtable)

-- One round of deal_rtable; the graphs and `purpose` are what the arrays hold before.
unfoldable pub deal_rtable :
    Daemon
    → (ℕ → ℕ → ℕ)
    → (ℕ → ℕ → ℕ)
    → (ℕ → ℕ)
    → (ℕ → ℕ)
    → List RouteEntry
    → Option (List RouteEntry)
deal_rtable d graph subnet_graph purpose stale rtable =
    generate_subnet_graph d subnet_graph >>= λ subnets. draw_graph d graph >>= λ drawn.
    rid_to_index d.router_id >>= λ src.
    dijkstra (mirror_graph drawn) src purpose (mirror_graph subnets) >>= λ paths.
    route_from d paths stale num_vertices 0 rtable
