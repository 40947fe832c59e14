-- ===== src/Mospf/RoutingTests.antt =====
-- The router 10.0.1.1 in a network that is a line, from the host at its interface to the one behind
-- 10.0.4.4.
use network_lab.Base.{
  false, ℕ, zero, suc, ◌+◌, ◌*◌, ◌≡◌, ◌≢◌, refl, List, [], ◌∷◌, Option, none, some, arith, length,
  Returns, Every,
}
use network_lab.Mospf.{MospfLsa, MospfDbEntry, Daemon}
use network_lab.Mospf.Path.{
  int_max, Paths, dijkstra, rounds, relax_from, min_from, min_distance, find_desired_index,
}
use network_lab.Mospf.Graph.{
  rid_to_index, index_to_rid, draw_ifaces, draw_nbrs, draw_lan, draw_link, draw_lsas, draw_db,
  draw_graph, generate_subnet_graph, mirror_graph, mirror_from, mirror_row,
}
use network_lab.Mospf.Links.{db_links, own_links, links, has_link, IsKnown}
use network_lab.Mospf.Network.{network, no_graph, network-IsGraph, mirror_graph-draw_graph}
use network_lab.Mospf.Walks.{Walk, here, along}
use network_lab.Mospf.Cut.{IsConnected}
use network_lab.Mospf.Tree.{IsFirstHop}
use network_lab.Mospf.Sums.{IsAddable}
use network_lab.Mospf.Shortest.{find_desired_index-dijkstra}
use network_lab.Mospf.Rtable.{
  deal_rtable, route_by, route_of, route_from, route_via, enter_route, refresh_routes, has_route,
  find_desired_gw, find_desired_iface, find_desired_subnet, is_advertised, has_subnet,
}
use network_lab.Mospf.Routes.{find_route}

abbrev lsa_to : ℕ → ℕ → MospfLsa
lsa_to rid subnet = record { subnet = subnet; mask = 0xffffff00; rid = rid }

abbrev entry_of : ℕ → List MospfLsa → MospfDbEntry
entry_of rid array = record { rid = rid; seq = 1; nadv = length array; array = array; alive = 0 }

abbrev router : Daemon
router = record {
  area_id = 0;
  router_id = 167772417;
  sequence_num = 0;
  lsuint = 30;
  ifaces =
      record {
        iface = record { index = 1; mac = []; ip = 0x0a000101; mask = 0xffffff00 };
        helloint = 5;
        nbr_list = [];
      }
      ∷ record {
        iface = record { index = 2; mac = []; ip = 0x0a000201; mask = 0xffffff00 };
        helloint = 5;
        nbr_list =
            record {
              nbr_id = 167772674;
              nbr_ip = 0x0a000202;
              nbr_mask = 0xffffff00;
              alive = 0;
              mac = [];
            }
            ∷ [];
      }
      ∷ [];
  mospf_db =
      entry_of 167772674 (lsa_to 167772417 0x0a000200 ∷ lsa_to 167772931 0x0a000300 ∷ [])
      ∷ entry_of 167772931 (lsa_to 167772674 0x0a000300 ∷ lsa_to 167773188 0x0a000400 ∷ [])
      ∷ entry_of 167773188 (lsa_to 167772931 0x0a000400 ∷ lsa_to 102 0x0a000600 ∷ [])
      ∷ [];
}

router-IsKnown : Every IsKnown (links router)
unfolding db_links own_links rid_to_index
router-IsKnown = (
  ((2, refl), (1, refl)),
  (
    ((2, refl), (3, refl)),
    (
      ((3, refl), (2, refl)),
      (
        ((3, refl), (4, refl)),
        (
          ((4, refl), (3, refl)),
          (((4, refl), (5, refl)), (((1, refl), (0, refl)), (((1, refl), (2, refl)), tt))),
        ),
      ),
    ),
  ),
)

one_ne : (n : ℕ) → n ≡ 1 → n ≢ 0
one_ne n one zero_there = omega (arith, one, zero_there)

along_link :
    (u v d : ℕ)
    → network router u v ≡ 1
    → Walk (network router) 1 u d
    → Walk (network router) 1 v (d + network router u v)
along_link u v d edge walk = along u v d walk (one_ne _ edge)

router-IsConnected : IsConnected (network router) 1
unfolding db_links own_links rid_to_index has_link
router-IsConnected zero bound = (1, along_link 1 0 0 refl here, omega arith)
router-IsConnected (suc zero) bound = (0, here, omega arith)
router-IsConnected (suc (suc zero)) bound = (1, to_2, omega arith)
  where
    to_2 : Walk (network router) 1 2 1
    to_2 = along_link 1 2 0 refl here
router-IsConnected (suc (suc (suc zero))) bound =
    (2, along_link 2 3 1 refl (along_link 1 2 0 refl here), omega arith)
router-IsConnected (suc (suc (suc (suc zero)))) bound =
    (3, along_link 3 4 2 refl (along_link 2 3 1 refl (along_link 1 2 0 refl here)), omega arith)
router-IsConnected (suc (suc (suc (suc (suc zero))))) bound = (
  4,
  along_link 4 5 3 refl
      (along_link 3 4 2 refl (along_link 2 3 1 refl (along_link 1 2 0 refl here))),
  omega arith,
)
router-IsConnected (suc (suc (suc (suc (suc (suc v)))))) bound = absurd (omega arith)

mirror_graph-draw_graph_example :
    Returns (draw_graph router no_graph) (λ graph. mirror_graph graph ≡ network router)
mirror_graph-draw_graph_example = mirror_graph-draw_graph router router-IsKnown

router-IsAddable : IsAddable (network router)
router-IsAddable u v = ground arith

find_desired_index-dijkstra_example :
    Returns (dijkstra (network router) 1 (λ v. 0) (λ i j. 10 * i + j)) (λ p.
      (p.overflow ≡ false)
      × Returns (find_desired_index int_max p.prev 5) (IsFirstHop (network router) 1 p 5)
      × ((u : ℕ) × (network router u 5 ≢ 0)
          × (p.dist 5 ≡ p.dist u + network router u 5)
          × (p.purpose 5 ≡ 10 * u + 5)))
find_desired_index-dijkstra_example =
    find_desired_index-dijkstra (network router) (λ i j. 10 * i + j) 1 5 (λ v. 0)
      (network-IsGraph router) router-IsAddable router-IsConnected (omega arith)
      (λ e. omega (arith, e))

abbrev graph_of : Option (ℕ → ℕ → ℕ) → ℕ → ℕ → ℕ
graph_of none = no_graph
graph_of (some graph) = graph

abbrev paths_of : Option Paths → Paths
paths_of none = record { dist = λ v. 0; prev = λ v. none; purpose = λ v. 0; overflow = false }
paths_of (some p) = p

abbrev subnets : ℕ → ℕ → ℕ
subnets = graph_of (generate_subnet_graph router no_graph)

abbrev paths : Paths
paths = paths_of (dijkstra (network router) 1 (λ v. 0) (mirror_graph subnets))

-- By 10.0.2.2.
deal_rtable_test : Returns (deal_rtable router no_graph no_graph (λ v. 0) (λ i. 9) []) (λ table.
    find_route 0x0a000600 table
    ≡ some (record {
      dest = 0x0a000600;
      gw = 0x0a000202;
      mask = 0xffffff00;
      iface = some (record { index = 2; mac = []; ip = 0x0a000201; mask = 0xffffff00 });
    }))
unfolding dijkstra rounds min_distance min_from relax_from rid_to_index index_to_rid find_route
    generate_subnet_graph draw_db draw_lsas draw_link mirror_graph mirror_from mirror_row draw_graph
    draw_ifaces draw_nbrs draw_lan deal_rtable route_from route_of enter_route refresh_routes
    has_route route_by route_via find_desired_gw find_desired_iface find_desired_subnet
    is_advertised has_subnet find_desired_index
deal_rtable_test = (_, refl, refl)
