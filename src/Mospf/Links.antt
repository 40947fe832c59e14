-- ===== src/Mospf/Links.antt =====
-- The graph that draw_graph of 11-mospf-ping/mospf_daemon.c draws, by the links between routers.
use network_lab.Base.{
  ℕ, ◌≡◌, refl, sym, ◌∙◌, ap, ap₂, Bool, true, false, ◌&&◌, ◌||◌, List, [], ◌∷◌, ◌++◌, map, Option,
  none, some, arith, ◌==◌, if◌then◌else◌, ◌>>=◌, Returns, Every,
}
use network_lab.Mospf.{MospfLsa, MospfNbr, MospfIface, MospfDbEntry, Daemon, lan_ip1, lan_ip2}
use network_lab.Mospf.Graph.{
  rid_to_index, set_cell, draw_link, draw_lsas, draw_db, draw_nbrs, draw_lan, draw_ifaces,
  draw_graph,
}

-- The links of the entries of a database.
unfoldable pub db_links : List MospfDbEntry → List (ℕ × ℕ)
db_links [] = []
db_links (entry ∷ db) = map (λ (lsa : MospfLsa). (entry.rid, lsa.rid)) entry.array ++ db_links db

-- The links of a router to its neighbours, and to the end of the network at an interface.
unfoldable pub own_links : ℕ → List MospfIface → List (ℕ × ℕ)
own_links router_id [] = []
own_links router_id (current ∷ ifaces) =
    (if current.iface.ip == lan_ip1 then (router_id, 101) ∷ [] else [])
    ++ ((if current.iface.ip == lan_ip2 then (router_id, 102) ∷ [] else [])
        ++ (map (λ (nbr : MospfNbr). (router_id, nbr.nbr_id)) current.nbr_list
            ++ own_links router_id ifaces))

abbrev pub links : Daemon → List (ℕ × ℕ)
links d = db_links d.mospf_db ++ own_links d.router_id d.ifaces

abbrev pub is_at : ℕ → Option ℕ → Bool
is_at i none = false
is_at i (some v) = i == v

abbrev is_vertex : ℕ → ℕ → Bool
is_vertex rid i = is_at i (rid_to_index rid)

-- Whether one of the links is between two vertices.
unfoldable pub has_link : List (ℕ × ℕ) → ℕ → ℕ → Bool
has_link [] i j = false
has_link ((from, to) ∷ rest) i j = (is_vertex from i && is_vertex to j) || has_link rest i j

-- Both routers of a link have a vertex.
abbrev pub IsKnown : ℕ × ℕ → Type 0
IsKnown (from, to) =
    ((i : ℕ) × (rid_to_index from ≡ some i)) × ((j : ℕ) × (rid_to_index to ≡ some j))

-- The loops as one.
unfoldable draw_links : List (ℕ × ℕ) → (ℕ → ℕ → ℕ) → Option (ℕ → ℕ → ℕ)
draw_links [] graph = some graph
draw_links ((from, to) ∷ rest) graph = draw_link from to 1 graph >>= draw_links rest

bind_assoc {ℓ κ μ} :
    {A : Type ℓ} {B : Type κ} {C : Type μ} (m : Option A) (f : A → Option B) (g : B → Option C)
    → (m >>= f) >>= g ≡ m >>= (λ a. f a >>= g)
bind_assoc none f g = refl
bind_assoc (some a) f g = refl

bind_ext {ℓ κ} :
    {A : Type ℓ} {B : Type κ} (m : Option A) (f g : A → Option B)
    → ((a : A) → f a ≡ g a)
    → m >>= f ≡ m >>= g
bind_ext none f g h = refl
bind_ext (some a) f g h = h a

draw_links-append :
    (xs ys : List (ℕ × ℕ)) (graph : ℕ → ℕ → ℕ)
    → draw_links (xs ++ ys) graph ≡ draw_links xs graph >>= draw_links ys
unfolding draw_links
draw_links-append [] ys graph = refl
draw_links-append ((from, to) ∷ xs) ys graph =
    bind_ext (draw_link from to 1 graph) _ _ (draw_links-append xs ys)
    ∙ sym (bind_assoc (draw_link from to 1 graph) (draw_links xs) (draw_links ys))

lsas_lem :
    (rid : ℕ) (lsas : List MospfLsa) (graph : ℕ → ℕ → ℕ)
    → draw_lsas (λ lsa. 1) rid lsas graph
      ≡ draw_links (map (λ (lsa : MospfLsa). (rid, lsa.rid)) lsas) graph
unfolding draw_lsas draw_links
lsas_lem rid [] graph = refl
lsas_lem rid (lsa ∷ lsas) graph = bind_ext (draw_link rid lsa.rid 1 graph) _ _ (lsas_lem rid lsas)

db_lem :
    (db : List MospfDbEntry) (graph : ℕ → ℕ → ℕ)
    → draw_db (λ lsa. 1) db graph ≡ draw_links (db_links db) graph
unfolding draw_db db_links
db_lem [] graph = unfold draw_links in refl
db_lem (entry ∷ db) graph =
    bind_ext (draw_lsas (λ lsa. 1) entry.rid entry.array graph) _ _ (db_lem db)
    ∙ ap (λ m. m >>= draw_links (db_links db)) (lsas_lem entry.rid entry.array graph)
    ∙ sym (draw_links-append _ (db_links db) graph)

nbrs_lem :
    (router_id : ℕ) (nbrs : List MospfNbr) (graph : ℕ → ℕ → ℕ)
    → draw_nbrs router_id nbrs graph
      ≡ draw_links (map (λ (nbr : MospfNbr). (router_id, nbr.nbr_id)) nbrs) graph
unfolding draw_nbrs draw_links
nbrs_lem router_id [] graph = refl
nbrs_lem router_id (nbr ∷ nbrs) graph =
    bind_ext (draw_link router_id nbr.nbr_id 1 graph) _ _ (nbrs_lem router_id nbrs)

-- A link to an end of the network, the vertex of which is known.
lan_link :
    (b : Bool) (router_id to k : ℕ) (graph : ℕ → ℕ → ℕ)
    → rid_to_index to ≡ some k
    → (if b then (rid_to_index router_id >>= λ i. some (set_cell graph i k 1)) else some graph)
      ≡ (if b then draw_link router_id to 1 graph else some graph)
unfolding draw_link
lan_link true router_id to k graph e = bind_ext (rid_to_index router_id) _ _ (λ i. rw e refl)
lan_link false router_id to k graph e = refl

optional_link :
    (b : Bool) (from to : ℕ) (rest : List (ℕ × ℕ)) (graph : ℕ → ℕ → ℕ)
    → (if b then draw_link from to 1 graph else some graph) >>= draw_links rest
      ≡ draw_links ((if b then (from, to) ∷ [] else []) ++ rest) graph
unfolding draw_links
optional_link true from to rest graph = refl
optional_link false from to rest graph = refl

lan_lem :
    (router_id ip : ℕ) (rest : List (ℕ × ℕ)) (graph : ℕ → ℕ → ℕ)
    → draw_lan router_id ip graph >>= draw_links rest
      ≡ draw_links
          ((if ip == lan_ip1 then (router_id, 101) ∷ [] else [])
            ++ ((if ip == lan_ip2 then (router_id, 102) ∷ [] else []) ++ rest))
          graph
unfolding draw_lan
lan_lem router_id ip rest graph =
    bind_assoc (lan (ip == lan_ip1) 0 graph) (lan (ip == lan_ip2) 5) (draw_links rest)
    ∙ bind_ext (lan (ip == lan_ip1) 0 graph) _ _ (λ g.
      ap (λ m. m >>= draw_links rest)
        (lan_link (ip == lan_ip2) router_id 102 5 g (unfold rid_to_index in refl))
      ∙ optional_link (ip == lan_ip2) router_id 102 rest g)
    ∙ ap (λ m. m >>= draw_links ((if ip == lan_ip2 then (router_id, 102) ∷ [] else []) ++ rest))
        (lan_link (ip == lan_ip1) router_id 101 0 graph (unfold rid_to_index in refl))
    ∙ optional_link (ip == lan_ip1) router_id 101 _ graph
  where
    lan : Bool → ℕ → (ℕ → ℕ → ℕ) → Option (ℕ → ℕ → ℕ)
    lan b k g = if b then (rid_to_index router_id >>= λ i. some (set_cell g i k 1)) else some g

ifaces_lem :
    (router_id : ℕ) (ifaces : List MospfIface) (graph : ℕ → ℕ → ℕ)
    → draw_ifaces router_id ifaces graph ≡ draw_links (own_links router_id ifaces) graph
unfolding draw_ifaces own_links
ifaces_lem router_id [] graph = unfold draw_links in refl
ifaces_lem router_id (current ∷ ifaces) graph =
    bind_ext (draw_lan router_id current.iface.ip graph) _
      (draw_links (
        map (λ (nbr : MospfNbr). (router_id, nbr.nbr_id)) current.nbr_list
        ++ own_links router_id ifaces))
      (λ g.
        bind_ext (draw_nbrs router_id current.nbr_list g) _ _ (ifaces_lem router_id ifaces)
        ∙ ap (λ m. m >>= draw_links (own_links router_id ifaces))
            (nbrs_lem router_id current.nbr_list g)
        ∙ sym (draw_links-append _ (own_links router_id ifaces) g))
    ∙ lan_lem router_id current.iface.ip _ graph

-- A link of two vertices is one cell.
links_lem :
    (rest : List (ℕ × ℕ)) (graph : ℕ → ℕ → ℕ)
    → Every IsKnown rest
    → Returns
        (draw_links rest graph)
        (λ graph'. (i j : ℕ) → graph' i j ≡ (if has_link rest i j then 1 else graph i j))
unfolding draw_links has_link draw_link
links_lem [] graph known = (graph, refl, λ i j. refl)
links_lem ((from, to) ∷ rest) graph (((v, from_v), (w, to_w)), known) =
    let (graph', e, cells) = links_lem rest (set_cell graph v w 1) known in
    (
      graph',
      rw (from_v, to_w) e,
      λ i j.
          cells i j
          ∙ drawn (has_link rest i j) i j
          ∙ ap₂ (λ p q. if (is_at i p && is_at j q) || has_link rest i j then 1 else graph i j)
              (sym from_v) (sym to_w),
    )
  where
    drawn :
        (b : Bool) (i j : ℕ)
        → (if b then 1 else set_cell graph v w 1 i j)
          ≡ (if (i == v && j == w) || b then 1 else graph i j)
    drawn true i j = ground arith
    drawn false i j = ground arith

-- If every router that is named in the database, or is a neighbour, has a vertex, draw_graph returns,
-- and sets the cells of the links, in their direction, to 1, and no other one.
pub draw_graph_lem :
    (d : Daemon) (graph : ℕ → ℕ → ℕ)
    → Every IsKnown (links d)
    → Returns
        (draw_graph d graph)
        (λ graph'. (i j : ℕ) → graph' i j ≡ (if has_link (links d) i j then 1 else graph i j))
unfolding draw_graph
draw_graph_lem d graph known =
    let (graph', e, cells) = links_lem (links d) graph known in
    (
      graph',
      bind_ext (draw_db (λ lsa. 1) d.mospf_db graph) _ _ (ifaces_lem d.router_id d.ifaces)
          ∙ ap (λ m. m >>= draw_links (own_links d.router_id d.ifaces)) (db_lem d.mospf_db graph)
          ∙ sym (draw_links-append (db_links d.mospf_db) _ graph)
          ∙ e,
      cells,
    )
