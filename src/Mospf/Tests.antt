-- ===== src/Mospf/Tests.antt =====
-- Two routers on a link, and graphs of six vertices.

use network_lab.Base.{
  false, ltb, not, ◌&&◌, ◌||◌, Bool-cases, inl, inr, subst, sym, ==_iff, ℕ, ◌>>=◌, ◌+◌, ◌≡◌, refl,
  [], ◌∷◌, some, arith, get_elem?, if◌then◌else◌, ◌==◌, Returns, map, Every,
}
use network_lab.Packet.{Iface}
use network_lab.Mospf.{MospfLsu, MospfLsa, MospfNbr, MospfIface, MospfDbEntry, Daemon}
use network_lab.Mospf.Flood.{count_nbrs, fill_lsas, lsu_packet, hello_packet, seal}
use network_lab.Mospf.Database.{
  handle_mospf_packet, handle_mospf_lsu, new_db_entry, is_found, is_newer,
}
use network_lab.Mospf.Newest.{
  find_db, newest, handle_mospf_lsu_lem, handle_mospf_lsu-old, ends_of, ends_to, recipients,
}
use network_lab.Mospf.Path.{min_from, min_distance, relax_from, rounds, dijkstra}
use network_lab.Mospf.Walks.{Walk, here, along}
use network_lab.Mospf.Cut.{IsGraph, IsConnected}
use network_lab.Mospf.Sums.{IsAddable}
use network_lab.Mospf.Shortest.{IsShortest, dijkstra-IsShortest}
use network_lab.Mospf.Exchange.{handle-lsu_packet}
use network_lab.Mospf.Hello.{find_nbr, heard, handle-hello_packet}

abbrev iface_a : Iface
iface_a = record { index = 1; mac = 1 ∷ []; ip = 0x0a000201; mask = 0xffffff00 }

abbrev iface_b : Iface
iface_b = record { index = 1; mac = 2 ∷ []; ip = 0x0a000202; mask = 0xffffff00 }

abbrev nbr_b : MospfNbr
nbr_b = record {
  nbr_id = 0x0a000202;
  nbr_ip = 0x0a000202;
  nbr_mask = 0xffffff00;
  alive = 100;
  mac = 2 ∷ [];
}

abbrev at_a : MospfIface
at_a = record { iface = iface_a; helloint = 5; nbr_list = nbr_b ∷ [] }

abbrev at_b : MospfIface
at_b = record { iface = iface_b; helloint = 5; nbr_list = [] }

abbrev router_a : Daemon
router_a = record {
  area_id = 0;
  router_id = 0x0a000201;
  sequence_num = 65535;
  lsuint = 30;
  ifaces = at_a ∷ [];
  mospf_db = [];
}

abbrev old_entry : MospfDbEntry
old_entry = record { rid = 0x0a000201; seq = 7; nadv = 0; array = []; alive = 50 }

abbrev router_b : Daemon
router_b = record {
  area_id = 0;
  router_id = 0x0a000202;
  sequence_num = 0;
  lsuint = 30;
  ifaces = at_b ∷ [];
  mospf_db = old_entry ∷ [];
}

abbrev lsu : MospfLsu
lsu = record { seq = 6; ttl = 255; unused = 0; nadv = 1 }

abbrev lsa : MospfLsa
lsa = record { subnet = 0x0a000200; mask = 0xffffff00; rid = 0x0a000202 }

handle_mospf_lsu_lem_example :
    Returns
      (handle_mospf_lsu 99 (lsu_packet 5 router_a iface_a nbr_b 6) lsu (lsa ∷ []) router_b)
      (λ (d', sent). find_db 3 d'.mospf_db ≡ (
        if 3 == (lsu_packet 5 router_a iface_a nbr_b 6).hdr.rid
        then newest
            (new_db_entry 99 (lsu_packet 5 router_a iface_a nbr_b 6) lsu (lsa ∷ []))
            (find_db 3 router_b.mospf_db)
        else find_db 3 router_b.mospf_db))
handle_mospf_lsu_lem_example =
    handle_mospf_lsu_lem 99 3 (lsu_packet 5 router_a iface_a nbr_b 6) lsu (lsa ∷ []) router_b
      (omega arith) (omega arith)

handle_mospf_lsu-old_example :
    Returns
      (handle_mospf_lsu 99 (lsu_packet 5 router_a iface_a nbr_b 6) lsu (lsa ∷ []) router_b)
      (λ (d', sent).
        (d' ≡ router_b)
        × (map ends_of sent
            ≡ map ends_to (
                recipients
                  (lsu_packet 5 router_a iface_a nbr_b 6).ip.saddr
                  (lsu_packet 5 router_a iface_a nbr_b 6).hdr.rid
                  router_b.ifaces))
        × Every (λ out. out.body ≡ (lsu_packet 5 router_a iface_a nbr_b 6).body) sent)
unfolding lsu_packet seal is_found is_newer
handle_mospf_lsu-old_example =
    handle_mospf_lsu-old 99 (lsu_packet 5 router_a iface_a nbr_b 6) lsu (lsa ∷ []) router_b refl
      refl

handle-lsu_packet_example :
    Returns
      (handle_mospf_packet 6 99 0 (lsu_packet 5 router_a iface_a nbr_b 8) router_b)
      (λ (d'', sent).
        find_db 0x0a000201 d''.mospf_db
        ≡ newest
            (record {
              rid = 0x0a000201;
              seq = 8;
              nadv = count_nbrs (at_a ∷ []);
              array = fill_lsas (at_a ∷ []);
              alive = 99;
            })
            (find_db 0x0a000201 (old_entry ∷ [])))
unfolding count_nbrs
handle-lsu_packet_example =
    handle-lsu_packet 5 6 99 0 8 router_a router_b iface_a nbr_b (omega arith) refl

handle-hello_packet_example :
    Returns (handle_mospf_packet 6 99 0 (hello_packet 5 router_a at_a) router_b) (λ (d'', sent).
      (after : MospfIface) × (get_elem? d''.ifaces 0 ≡ some after)
      × (find_nbr 0x0a000201 after.nbr_list ≡ (
          if 0x0a000201 == 0x0a000201
          then heard 99
              (record {
                nbr_id = 0x0a000201;
                nbr_ip = 0x0a000201;
                nbr_mask = 0xffffff00;
                alive = 99;
                mac = 1 ∷ [];
              })
              (find_nbr 0x0a000201 [])
          else find_nbr 0x0a000201 [])))
handle-hello_packet_example =
    handle-hello_packet 5 6 99 0 0x0a000201 router_a router_b at_a at_b refl refl

-- A line of the vertices 1 to 4 with the ends 0 and 5.
abbrev line : ℕ → ℕ → ℕ
line i j = if i + 1 == j then 1 else if j + 1 == i then 1 else 0

-- The walk from 1 to 5 has four edges.
dijkstra_test : (dijkstra line 1 (λ v. 0) line >>= λ paths. some (paths.dist 5)) ≡ some 4
unfolding dijkstra rounds min_distance min_from relax_from
dijkstra_test = refl

-- The edges between 0 and the other vertices.
abbrev star : ℕ → ℕ → ℕ
star i j = if ltb i 6 && (ltb j 6 && not (i == j)) && (i == 0 || j == 0) then 1 else 0

star-IsGraph : IsGraph star
star-IsGraph u v edge = (ground (arith, edge), ground (arith, edge))

star-IsConnected : IsConnected star 0
star-IsConnected v bound = elim (Bool-cases (v == 0)) [
  | inl same ↦ (0, subst (λ x. Walk star 0 x 0) (sym ((==_iff v 0).0 same)) here, omega arith)
  | inr other ↦ (0 + star 0 v, along 0 v 0 here (ground (arith, other, bound)), ground (arith))
]

star-IsAddable : IsAddable star
star-IsAddable u v = ground arith

dijkstra-IsShortest_example :
    Returns (dijkstra star 0 (λ v. 0) star) (λ p. (p.overflow ≡ false) × IsShortest star 0 p)
dijkstra-IsShortest_example =
    dijkstra-IsShortest star star 0 (λ v. 0) star-IsGraph star-IsAddable star-IsConnected
