-- ===== src/Mospf/Exchange.antt =====
-- What one router sends and the other one makes of it.

use network_lab.Base.{
  ℕ, suc, ◌+◌, ◌%◌, ◌^◌, ◌≤◌, ◌<◌, ◌≡◌, refl, ◌∙◌, ap, ap₂, true, List, [], ◌∷◌, ◌++◌, map, arith,
  length, ◌==◌, ==_refl, ==_iff, Returns, length-append,
}
use network_lab.Packet.{Iface}
use network_lab.Ring.Queue.{take-length}
use network_lab.Mospf.{MospfPacket, MospfLsu, MospfNbr, MospfIface, Daemon, mospf_checksum}
use network_lab.Mospf.Flood.{
  count_nbrs, fill_lsas, nbr_lsa, seal, lsu_packet, lsus_of, lsus_from, send_mospf_lsu,
}
use network_lab.Mospf.Database.{handle_mospf_packet, handle_mospf_lsu}
use network_lab.Mospf.Newest.{find_db, newest, handle_mospf_lsu_lem}

length-map {ℓ κ} :
    {A : Type ℓ} {B : Type κ} (f : A → B) (xs : List A) → length (map f xs) ≡ length xs
length-map f [] = refl
length-map f (x ∷ xs) = ap suc (length-map f xs)

-- The room that send_mospf_lsu allocates, and the number that it announces, are the links that it
-- writes.
length-fill_lsas : (ifaces : List MospfIface) → length (fill_lsas ifaces) ≡ count_nbrs ifaces
unfolding fill_lsas count_nbrs
length-fill_lsas [] = refl
length-fill_lsas (current ∷ ifaces) = ground (
  arith,
  length-fill_lsas ifaces,
  length-map nbr_lsa current.nbr_list,
  length-append (map nbr_lsa current.nbr_list) (fill_lsas ifaces),
)

-- The addresses of all neighbours.
unfoldable pub all_nbr_ips : List MospfIface → List ℕ
all_nbr_ips [] = []
all_nbr_ips (current ∷ ifaces) =
    map (λ (n : MospfNbr). n.nbr_ip) current.nbr_list ++ all_nbr_ips ifaces

abbrev pub daddr_of : MospfPacket → ℕ
daddr_of pkt = pkt.ip.daddr

map-append {ℓ κ} :
    {A : Type ℓ} {B : Type κ} (f : A → B) (xs ys : List A) → map f (xs ++ ys) ≡ map f xs ++ map f ys
map-append f [] ys = refl
map-append f (x ∷ xs) ys = ap (◌∷◌ (f x)) (map-append f xs ys)

lsus_of_lem :
    (id : ℕ) (d : Daemon) (iface : Iface) (seq : ℕ) (nbrs : List MospfNbr)
    → let (last, sent) = lsus_of id d iface seq nbrs in
      (map daddr_of sent ≡ map (λ (n : MospfNbr). n.nbr_ip) nbrs)
      × (seq < 2 ^ 16 → last ≡ (seq + length sent) % 2 ^ 16)
unfolding lsus_of lsu_packet seal
lsus_of_lem id d iface seq [] = (refl, λ word. omega arith)
lsus_of_lem id d iface seq (nbr ∷ nbrs) =
    let (ips, last) = lsus_of_lem id d iface ((seq + 1) % 2 ^ 16) nbrs in
    (ap (◌∷◌ nbr.nbr_ip) ips, λ word. last (omega arith) ∙ omega arith)

lsus_from_lem :
    (id : ℕ) (d : Daemon) (seq : ℕ) (ifaces : List MospfIface)
    → let (last, sent) = lsus_from id d seq ifaces in
      (map daddr_of sent ≡ all_nbr_ips ifaces)
      × (seq < 2 ^ 16 → last ≡ (seq + length sent) % 2 ^ 16)
unfolding lsus_from all_nbr_ips
lsus_from_lem id d seq [] = (refl, λ word. omega arith)
lsus_from_lem id d seq (current ∷ ifaces) =
    let (seq', sent) = lsus_of id d current.iface seq current.nbr_list in
    let (last, sent') = lsus_from id d seq' ifaces in
    let (ips, counts) = lsus_of_lem id d current.iface seq current.nbr_list in
    let (ips', counts') = lsus_from_lem id d seq' ifaces in
    (
      map-append daddr_of sent sent' ∙ ap₂ ◌++◌ ips ips',
      λ word.
          counts' (omega (arith, counts word))
          ∙ omega (arith, counts word, length-append sent sent'),
    )

-- send_mospf_lsu sends one update to each neighbour, in the order of the interfaces, and the sequence
-- number, a word of 16 bits, goes up by one for each.
pub send_mospf_lsu_lem :
    (id : ℕ) (d : Daemon)
    → d.sequence_num < 2 ^ 16
    → let (d', sent) = send_mospf_lsu id d in
      (map daddr_of sent ≡ all_nbr_ips d.ifaces)
      × (d'.sequence_num ≡ (d.sequence_num + length sent) % 2 ^ 16)
unfolding send_mospf_lsu
send_mospf_lsu_lem id d word =
    let (ips, counts) = lsus_from_lem id d d.sequence_num d.ifaces in (ips, counts word)

pub seal-IsIntact :
    (pkt : MospfPacket) → (seal pkt).hdr.checksum ≡ mospf_checksum (seal pkt).hdr (seal pkt).body
unfolding seal mospf_checksum
seal-IsIntact pkt = refl

lsu_packet-IsIntact :
    (id seq : ℕ) (d : Daemon) (iface : Iface) (nbr : MospfNbr)
    → let pkt = lsu_packet id d iface nbr seq in pkt.hdr.checksum ≡ mospf_checksum pkt.hdr pkt.body
unfolding lsu_packet
lsu_packet-IsIntact id seq d iface nbr = seal-IsIntact _

lsu_packet-test :
    (id seq : ℕ) (d : Daemon) (iface : Iface) (nbr : MospfNbr)
    → let pkt = lsu_packet id d iface nbr seq in
      (pkt.hdr.checksum == mospf_checksum pkt.hdr pkt.body) ≡ true
lsu_packet-test id seq d iface nbr = (==_iff _ _).1 (lsu_packet-IsIntact id seq d iface nbr)

abbrev sent_lsu : Daemon → ℕ → MospfLsu
sent_lsu d seq = record { seq = seq; ttl = 255; unused = 0; nadv = count_nbrs d.ifaces }

dispatch_lsu :
    (id id' now i seq : ℕ) (d d' : Daemon) (iface : Iface) (nbr : MospfNbr)
    → d'.area_id ≡ 0
    → let pkt = lsu_packet id d iface nbr seq in
      handle_mospf_packet id' now i pkt d'
      ≡ handle_mospf_lsu now pkt (sent_lsu d seq) (fill_lsas d.ifaces) d'
unfolding handle_mospf_packet lsu_packet seal
dispatch_lsu id id' now i seq d d' iface nbr area =
    let same_area : (0 == d'.area_id) ≡ true = ground (arith, area) in
    rw (lsu_packet-test id seq d iface nbr, same_area) refl

-- An update that a router with at most five links sends is accepted by a router of area 0, which then
-- has in its database the newer one of the update, with all the links, and of what it had.
pub handle-lsu_packet :
    (id id' now i seq : ℕ) (d d' : Daemon) (iface : Iface) (nbr : MospfNbr)
    → count_nbrs d.ifaces ≤ 5
    → d'.area_id ≡ 0
    → Returns (handle_mospf_packet id' now i (lsu_packet id d iface nbr seq) d') (λ (d'', sent).
      find_db d.router_id d''.mospf_db
      ≡ newest
          (record {
            rid = d.router_id;
            seq = seq;
            nadv = count_nbrs d.ifaces;
            array = fill_lsas d.ifaces;
            alive = now;
          })
          (find_db d.router_id d'.mospf_db))
unfolding lsu_packet seal
handle-lsu_packet id id' now i seq d d' iface nbr few area =
    let counted = length-fill_lsas d.ifaces in
    let (out, e, newer) =
      handle_mospf_lsu_lem now d.router_id (lsu_packet id d iface nbr seq) (sent_lsu d seq)
        (fill_lsas d.ifaces) d' few (omega (arith, counted)) in
    (
      out,
      dispatch_lsu id id' now i seq d d' iface nbr area ∙ e,
      newer ∙ rw (==_refl d.router_id, ← counted, take-length (fill_lsas d.ifaces)) refl,
    )
