-- ===== src/Mospf/Newest.antt =====
-- The database as a map from routers to their newest update, and what an update does that is not new.

use network_lab.Base.{
  ℕ, ◌≤◌, ◌≡◌, refl, sym, ap, ap₂, ◌∙◌, map, Every, Every-append, true, false, ◌&&◌, List, [], ◌∷◌,
  ◌++◌, Option, none, some, arith, length, take, ltb, leb, ◌==◌, if◌then◌else◌, Returns,
  Holds→Returns, Bool-cases, inl, inr,
}
use network_lab.Mospf.{MospfPacket, MospfLsu, MospfLsa, MospfDbEntry, Daemon, MospfPacket}
use mathlib.Core.List.{map-append}
use network_lab.Packet.{Mac, Iface}
use network_lab.Mospf.{MospfNbr, MospfIface}
use network_lab.Mospf.Flood.{seal, can_forward, forwarded, forward_of, forward_lsu}
use network_lab.Mospf.Database.{
  update_db, is_newer, is_found, read_lsas, new_db_entry, handle_mospf_lsu,
}

-- The entry of a router.
unfoldable pub find_db : ℕ → List MospfDbEntry → Option MospfDbEntry
find_db r [] = none
find_db r (entry ∷ db) = if entry.rid == r then some entry else find_db r db

-- The newer one of what there is and an update.
unfoldable pub newest : MospfDbEntry → Option MospfDbEntry → Option MospfDbEntry
newest new none = some new
newest new (some entry) = if ltb entry.seq new.seq then some new else some entry

-- The loop alone: it enters no router.
renewed : MospfDbEntry → Option MospfDbEntry → Option MospfDbEntry
renewed new none = none
renewed new (some entry) = if ltb entry.seq new.seq then some new else some entry

find-loop :
    (r : ℕ) (new : MospfDbEntry) (db : List MospfDbEntry)
    → find_db r (update_db new db)
      ≡ (if r == new.rid then renewed new (find_db r db) else find_db r db)
unfolding find_db update_db renewed
find-loop r new [] = ground arith
find-loop r new (entry ∷ db) = ground (arith, find-loop r new db)

find-found :
    (r : ℕ) (db : List MospfDbEntry)
    → is_found r db ≡ true
    → (entry : MospfDbEntry) × (find_db r db ≡ some entry)
unfolding find_db is_found
find-found r [] found = absurd (ground arith)
find-found r (entry ∷ db) found = elim (Bool-cases (entry.rid == r)) [
  | inl same ↦ (entry, rw same refl)
  | inr other ↦ let (e, at) = find-found r db (sym (rw other refl) ∙ found) in (e, rw other at)
]

find-update :
    (r : ℕ) (new : MospfDbEntry) (db : List MospfDbEntry)
    → is_found new.rid db ≡ true
    → find_db r (update_db new db)
      ≡ (if r == new.rid then newest new (find_db r db) else find_db r db)
unfolding newest renewed
find-update r new db found = elim (Bool-cases (r == new.rid)) [
  | inl same ↦
      let r_rid : r ≡ new.rid = ground (arith, same) in
      let (entry, at) = find-found new.rid db found in
      let at_r : find_db r db ≡ some entry = rw r_rid at in
      find-loop r new db ∙ rw (same, at_r) refl
  | inr other ↦ find-loop r new db ∙ rw other refl
]

find-absent :
    (r : ℕ) (new : MospfDbEntry) (db : List MospfDbEntry)
    → is_found new.rid db ≡ false
    → find_db r (update_db new db ++ (new ∷ []))
      ≡ (if r == new.rid then newest new (find_db r db) else find_db r db)
unfolding find_db update_db newest is_found
find-absent r new [] absent = ground arith
find-absent r new (entry ∷ db) absent = ground (arith, find-absent r new db)

not_newer :
    (r seq : ℕ) (db : List MospfDbEntry) (entry : MospfDbEntry)
    → is_newer r seq db ≡ false
    → find_db r db ≡ some entry
    → ltb entry.seq seq ≡ false
unfolding is_newer find_db
not_newer r seq [] entry old at = ground arith
not_newer r seq (e ∷ db) entry old at = ground (arith, not_newer r seq db entry)

-- Whichever lsas an older update is given, it is not entered.
find-older :
    (r : ℕ) (new new' : MospfDbEntry) (db : List MospfDbEntry)
    → new'.rid ≡ new.rid
    → new'.seq ≡ new.seq
    → is_newer new.rid new.seq db ≡ false
    → is_found new.rid db ≡ true
    → find_db r (update_db new' db)
      ≡ (if r == new.rid then newest new (find_db r db) else find_db r db)
unfolding renewed newest
find-older r new new' db rids seqs old found = elim (Bool-cases (r == new.rid)) [
  | inl same ↦
      let r_rid : r ≡ new.rid = ground (arith, same) in
      let (entry, at) = find-found new.rid db found in
      let at_r : find_db r db ≡ some entry = rw r_rid at in
      let older = not_newer new.rid new.seq db entry old at in
      find-loop r new' db ∙ rw (rids, same, at_r, seqs, older) refl
  | inr other ↦ find-loop r new' db ∙ rw (rids, other) refl
]

-- An update of at most five links, all of them in the packet: the database then has for its router
-- the newer one of the update and of what it had, by the sequence numbers, and for every other router
-- what it had.
pub handle_mospf_lsu_lem :
    (now r : ℕ) (pkt : MospfPacket) (lsu : MospfLsu) (lsas : List MospfLsa) (d : Daemon)
    → lsu.nadv ≤ 5
    → lsu.nadv ≤ length lsas
    → Returns (handle_mospf_lsu now pkt lsu lsas d) (λ (d', sent). find_db r d'.mospf_db ≡ (
        if r == pkt.hdr.rid
        then newest (new_db_entry now pkt lsu (take lsu.nadv lsas)) (find_db r d.mospf_db)
        else find_db r d.mospf_db))
unfolding handle_mospf_lsu read_lsas
handle_mospf_lsu_lem now r pkt lsu lsas d few given =
    elim (Bool-cases (is_newer pkt.hdr.rid lsu.seq d.mospf_db)) [
      | inl newer ↦ elim (Bool-cases (is_found pkt.hdr.rid d.mospf_db)) [
        | inl found ↦
            Holds→Returns _ _ (rw (newer, fits, found) (find-update r new d.mospf_db found))
        | inr absent ↦
            Holds→Returns _ _ (rw (newer, fits, absent) (find-absent r new d.mospf_db absent))
      ]
      | inr older ↦ elim (Bool-cases (is_found pkt.hdr.rid d.mospf_db)) [
        | inl found ↦ Holds→Returns _ _ (
            rw (older, found)
              (find-older r new (new_db_entry now pkt lsu []) d.mospf_db refl refl older found))
        | inr absent ↦
            Holds→Returns _ _ (rw (older, absent, fits) (find-absent r new d.mospf_db absent))
      ]
    ]
  where
    new : MospfDbEntry
    new = new_db_entry now pkt lsu (take lsu.nadv lsas)

    fits : (leb lsu.nadv 5 && leb lsu.nadv (length lsas)) ≡ true
    fits = ground (arith, few, given)

update-old :
    (new : MospfDbEntry) (db : List MospfDbEntry)
    → is_newer new.rid new.seq db ≡ false
    → update_db new db ≡ db
unfolding is_newer update_db
update-old new [] old = refl
update-old new (entry ∷ db) old = ground (arith, update-old new db)

-- The neighbours that an update is for, with the interface to each: those whose address is not the
-- sender's and whose identifier is not that of the update's router.
abbrev pub recipients_of : ℕ → ℕ → Iface → List MospfNbr → List (Iface × MospfNbr)
recipients_of saddr rid iface [] = []
recipients_of saddr rid iface (nbr ∷ nbrs) =
    (if nbr.nbr_ip == saddr then [] else if nbr.nbr_id == rid then [] else (iface, nbr) ∷ [])
    ++ recipients_of saddr rid iface nbrs

abbrev pub recipients : ℕ → ℕ → List MospfIface → List (Iface × MospfNbr)
recipients saddr rid [] = []
recipients saddr rid (current ∷ ifaces) =
    recipients_of saddr rid current.iface current.nbr_list ++ recipients saddr rid ifaces

-- Where a packet goes from and to.
abbrev pub ends_of : MospfPacket → Mac × ℕ × ℕ
ends_of pkt = (pkt.shost, pkt.ip.saddr, pkt.ip.daddr)

abbrev pub ends_to : Iface × MospfNbr → Mac × ℕ × ℕ
ends_to (iface, nbr) = (iface.mac, iface.ip, nbr.nbr_ip)

ends-forward_of :
    (iface : Iface) (nbrs : List MospfNbr) (pkt : MospfPacket)
    → map ends_of (forward_of iface nbrs pkt)
      ≡ map ends_to (recipients_of pkt.ip.saddr pkt.hdr.rid iface nbrs)
unfolding forward_of forwarded seal
ends-forward_of iface [] pkt = refl
ends-forward_of iface (nbr ∷ nbrs) pkt = elim (Bool-cases (nbr.nbr_ip == pkt.ip.saddr)) [
  | inl sender ↦ rw sender (ends-forward_of iface nbrs pkt)
  | inr other ↦ elim (Bool-cases (nbr.nbr_id == pkt.hdr.rid)) [
    | inl router ↦ rw (other, router) (ends-forward_of iface nbrs pkt)
    | inr another ↦
        rw (other, another)
          (ap (◌∷◌ (iface.mac, iface.ip, nbr.nbr_ip)) (ends-forward_of iface nbrs pkt))
  ]
]

ends-forward_lsu :
    (ifaces : List MospfIface) (pkt : MospfPacket)
    → map ends_of (forward_lsu ifaces pkt)
      ≡ map ends_to (recipients pkt.ip.saddr pkt.hdr.rid ifaces)
unfolding forward_lsu
ends-forward_lsu [] pkt = refl
ends-forward_lsu (current ∷ ifaces) pkt =
    map-append ends_of (forward_of current.iface current.nbr_list pkt) (forward_lsu ifaces pkt)
    ∙ ap₂ (λ xs ys. xs ++ ys) (ends-forward_of current.iface current.nbr_list pkt)
        (ends-forward_lsu ifaces pkt)
    ∙ sym (
        map-append ends_to (recipients_of pkt.ip.saddr pkt.hdr.rid current.iface current.nbr_list)
          (recipients pkt.ip.saddr pkt.hdr.rid ifaces))

forward_of-body :
    (iface : Iface) (nbrs : List MospfNbr) (pkt : MospfPacket)
    → Every (λ out. out.body ≡ pkt.body) (forward_of iface nbrs pkt)
unfolding forward_of forwarded seal
forward_of-body iface [] pkt = tt
forward_of-body iface (nbr ∷ nbrs) pkt = elim (Bool-cases (can_forward nbr pkt)) [
  | inl goes ↦ rw goes (refl, forward_of-body iface nbrs pkt)
  | inr stays ↦ rw stays (forward_of-body iface nbrs pkt)
]

forward_lsu-body :
    (ifaces : List MospfIface) (pkt : MospfPacket)
    → Every (λ out. out.body ≡ pkt.body) (forward_lsu ifaces pkt)
unfolding forward_lsu
forward_lsu-body [] pkt = tt
forward_lsu-body (current ∷ ifaces) pkt =
    Every-append (λ out. out.body ≡ pkt.body) (forward_of current.iface current.nbr_list pkt)
      (forward_lsu ifaces pkt) (forward_of-body current.iface current.nbr_list pkt)
      (forward_lsu-body ifaces pkt)

-- An update that the database has already, or an older one, changes nothing, and is forwarded all the
-- same, with the body that it came with, its ttl included: once to every neighbour whose address is
-- not the sender's and whose identifier is not that of the update's router, from the interface of
-- that neighbour, in their order, and to no one else.
pub handle_mospf_lsu-old :
    (now : ℕ) (pkt : MospfPacket) (lsu : MospfLsu) (lsas : List MospfLsa) (d : Daemon)
    → is_found pkt.hdr.rid d.mospf_db ≡ true
    → is_newer pkt.hdr.rid lsu.seq d.mospf_db ≡ false
    → Returns (handle_mospf_lsu now pkt lsu lsas d) (λ (d', sent).
      (d' ≡ d)
      × (map ends_of sent ≡ map ends_to (recipients pkt.ip.saddr pkt.hdr.rid d.ifaces))
      × Every (λ out. out.body ≡ pkt.body) sent)
unfolding handle_mospf_lsu
handle_mospf_lsu-old now pkt lsu lsas d found old = (
  (d, forward_lsu d.ifaces pkt),
  rw (old, found, update-old (new_db_entry now pkt lsu []) d.mospf_db old) refl,
  (refl, ends-forward_lsu d.ifaces pkt, forward_lsu-body d.ifaces pkt),
)
