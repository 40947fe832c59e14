-- ===== src/Mospf/Graph.antt =====
-- The graphs of 11-mospf-ping/mospf_daemon.c that dijkstra runs on: draw_graph, generate_subnet_graph
-- and mirror_graph. A graph is a function from two indices; what is in it before is an argument.
use network_lab.Base.{
  ℕ, zero, suc, ◌+◌, not, ◌&&◌, List, [], ◌∷◌, Option, none, some, ◌==◌, if◌then◌else◌, ◌>>=◌,
}
use network_lab.Mospf.{MospfLsa, MospfNbr, MospfIface, MospfDbEntry, Daemon, lan_ip1, lan_ip2}
use network_lab.Mospf.Path.{num_vertices}

-- `none` is the exit for a router that has no vertex.
unfoldable pub rid_to_index : ℕ → Option ℕ
rid_to_index rid =
    if rid == 167772417
    then some 1
    else if rid == 167772674
    then some 2
    else if rid == 167772931
    then some 3
    else if rid == 167773188
    then some 4
    else if rid == 101
    then some 0
    else if rid == 102
    then some 5
    else none

-- The index -1 has an equation of its own in the source, which no call uses.
unfoldable pub index_to_rid : ℕ → Option ℕ
index_to_rid index =
    if index == 1
    then some 167772417
    else if index == 2
    then some 167772674
    else if index == 3
    then some 167772931
    else if index == 4
    then some 167773188
    else if index == 0
    then some 101
    else if index == 5
    then some 102
    else none

abbrev pub set_cell : (ℕ → ℕ → ℕ) → ℕ → ℕ → ℕ → ℕ → ℕ → ℕ
set_cell graph i j x a b = if a == i && b == j then x else graph a b

-- The link from one router to another one.
unfoldable pub draw_link : ℕ → ℕ → ℕ → (ℕ → ℕ → ℕ) → Option (ℕ → ℕ → ℕ)
draw_link from to x graph =
    rid_to_index from >>= λ i. rid_to_index to >>= λ j. some (set_cell graph i j x)

-- The inner loop over an entry of the database, the array of which holds `nadv` lsas.
unfoldable pub draw_lsas : (MospfLsa → ℕ) → ℕ → List MospfLsa → (ℕ → ℕ → ℕ) → Option (ℕ → ℕ → ℕ)
draw_lsas cell rid [] graph = some graph
draw_lsas cell rid (lsa ∷ lsas) graph =
    draw_link rid lsa.rid (cell lsa) graph >>= draw_lsas cell rid lsas

unfoldable pub draw_db : (MospfLsa → ℕ) → List MospfDbEntry → (ℕ → ℕ → ℕ) → Option (ℕ → ℕ → ℕ)
draw_db cell [] graph = some graph
draw_db cell (entry ∷ db) graph = draw_lsas cell entry.rid entry.array graph >>= draw_db cell db

unfoldable pub draw_nbrs : ℕ → List MospfNbr → (ℕ → ℕ → ℕ) → Option (ℕ → ℕ → ℕ)
draw_nbrs router_id [] graph = some graph
draw_nbrs router_id (nbr ∷ nbrs) graph =
    draw_link router_id nbr.nbr_id 1 graph >>= draw_nbrs router_id nbrs

-- The link to an end of the network, by the address of the interface.
unfoldable pub draw_lan : ℕ → ℕ → (ℕ → ℕ → ℕ) → Option (ℕ → ℕ → ℕ)
draw_lan router_id ip graph =
    (if ip == lan_ip1
      then (rid_to_index router_id >>= λ i. some (set_cell graph i 0 1))
      else some graph)
    >>= λ graph'.
        if ip == lan_ip2
        then (rid_to_index router_id >>= λ i. some (set_cell graph' i 5 1))
        else some graph'

unfoldable pub draw_ifaces : ℕ → List MospfIface → (ℕ → ℕ → ℕ) → Option (ℕ → ℕ → ℕ)
draw_ifaces router_id [] graph = some graph
draw_ifaces router_id (current ∷ ifaces) graph =
    draw_lan router_id current.iface.ip graph >>= λ graph'.
    draw_nbrs router_id current.nbr_list graph' >>= draw_ifaces router_id ifaces

unfoldable pub draw_graph : Daemon → (ℕ → ℕ → ℕ) → Option (ℕ → ℕ → ℕ)
draw_graph d graph = draw_db (λ lsa. 1) d.mospf_db graph >>= draw_ifaces d.router_id d.ifaces

unfoldable pub generate_subnet_graph : Daemon → (ℕ → ℕ → ℕ) → Option (ℕ → ℕ → ℕ)
generate_subnet_graph d graph = draw_db (λ (lsa : MospfLsa). lsa.subnet) d.mospf_db graph

abbrev pub mirror_cell : ℕ → ℕ → (ℕ → ℕ → ℕ) → ℕ → ℕ → ℕ
mirror_cell i j graph = if not (graph i j == 0) then set_cell graph j i (graph i j) else graph

-- The inner loop from `j` on, with `n` rounds to go.
unfoldable pub mirror_row : ℕ → ℕ → ℕ → (ℕ → ℕ → ℕ) → ℕ → ℕ → ℕ
mirror_row i zero j graph = graph
mirror_row i (suc n) j graph = mirror_row i n (j + 1) (mirror_cell i j graph)

unfoldable pub mirror_from : ℕ → ℕ → (ℕ → ℕ → ℕ) → ℕ → ℕ → ℕ
mirror_from zero i graph = graph
mirror_from (suc n) i graph = mirror_from n (i + 1) (mirror_row i num_vertices 0 graph)

unfoldable pub mirror_graph : (ℕ → ℕ → ℕ) → ℕ → ℕ → ℕ
mirror_graph graph = mirror_from num_vertices 0 graph
