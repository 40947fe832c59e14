-- ===== src/Mospf/Hello.antt =====
-- The neighbours of an interface: who is heard, and who is dropped.

use network_lab.Base.{
  ℕ, zero, suc, ◌+◌, ◌-◌, ◌≡◌, refl, sym, ◌∙◌, ap, true, false, List, [], ◌∷◌, ◌++◌, Option, none,
  some, arith, set, get_elem?, ltb, leb, ◌==◌, ==_iff, if◌then◌else◌, Returns, Holds→Returns,
  Bool-cases, inl, inr, append_assoc,
}
use network_lab.Mospf.{
  MospfHello, MospfNbr, MospfIface, Daemon, mospf_checksum, mospf_default_helloint,
  mospf_neighbor_timeout,
}
use network_lab.Mospf.Flood.{seal, send_mospf_lsu, hello_packet}
use network_lab.Mospf.Database.{
  handle_mospf_packet, handle_mospf_hello, refresh_nbrs, is_nbr, set_nbrs, new_nbr, check_nbrs,
}
use network_lab.Mospf.Exchange.{seal-IsIntact}

unfoldable pub find_nbr : ℕ → List MospfNbr → Option MospfNbr
find_nbr r [] = none
find_nbr r (nbr ∷ nbrs) = if r == nbr.nbr_ip then some nbr else find_nbr r nbrs

-- What a hello makes of the neighbour that it comes from.
unfoldable pub heard : ℕ → MospfNbr → Option MospfNbr → Option MospfNbr
heard now new none = some new
heard now new (some nbr) = some (record nbr { alive = now })

-- The loop alone.
refreshed : ℕ → Option MospfNbr → Option MospfNbr
refreshed now none = none
refreshed now (some nbr) = some (record nbr { alive = now })

find-loop :
    (now r saddr : ℕ) (nbrs : List MospfNbr)
    → find_nbr r (refresh_nbrs now saddr nbrs)
      ≡ (if r == saddr then refreshed now (find_nbr r nbrs) else find_nbr r nbrs)
unfolding find_nbr refresh_nbrs refreshed
find-loop now r saddr [] = ground arith
find-loop now r saddr (nbr ∷ nbrs) = elim (Bool-cases (saddr == nbr.nbr_ip)) [
  | inl same ↦ rw (find_nbr, same) (ground (arith, same, find-loop now r saddr nbrs))
  | inr other ↦ rw (find_nbr, other) (ground (arith, other, find-loop now r saddr nbrs))
]

find-known :
    (r : ℕ) (nbrs : List MospfNbr)
    → is_nbr r nbrs ≡ true
    → (nbr : MospfNbr) × (find_nbr r nbrs ≡ some nbr)
unfolding find_nbr is_nbr
find-known r [] known = absurd (ground arith)
find-known r (nbr ∷ nbrs) known = elim (Bool-cases (r == nbr.nbr_ip)) [
  | inl same ↦ (nbr, rw same refl)
  | inr other ↦ let (n, at) = find-known r nbrs (sym (rw other refl) ∙ known) in (n, rw other at)
]

find-refresh :
    (now r saddr : ℕ) (new : MospfNbr) (nbrs : List MospfNbr)
    → is_nbr saddr nbrs ≡ true
    → find_nbr r (refresh_nbrs now saddr nbrs)
      ≡ (if r == saddr then heard now new (find_nbr r nbrs) else find_nbr r nbrs)
unfolding heard refreshed
find-refresh now r saddr new nbrs known = elim (Bool-cases (r == saddr)) [
  | inl same ↦
      let r_saddr : r ≡ saddr = ground (arith, same) in
      let (nbr, at) = find-known saddr nbrs known in
      let at_r : find_nbr r nbrs ≡ some nbr = rw r_saddr at in
      find-loop now r saddr nbrs ∙ rw (same, at_r) refl
  | inr other ↦ find-loop now r saddr nbrs ∙ rw other refl
]

find-new :
    (now r : ℕ) (new : MospfNbr) (nbrs : List MospfNbr)
    → is_nbr new.nbr_ip nbrs ≡ false
    → find_nbr r (nbrs ++ (new ∷ []))
      ≡ (if r == new.nbr_ip then heard now new (find_nbr r nbrs) else find_nbr r nbrs)
unfolding find_nbr heard is_nbr
find-new now r new [] unknown = ground arith
find-new now r new (nbr ∷ nbrs) unknown = ground (arith, find-new now r new nbrs)

get_elem?-set {ℓ} :
    {A : Type ℓ} (xs : List A) (i : ℕ) (x y : A)
    → get_elem? xs i ≡ some x
    → get_elem? (set xs i y) i ≡ some y
get_elem?-set [] i x y e = ground arith
get_elem?-set (z ∷ xs) zero x y e = refl
get_elem?-set (z ∷ xs) (suc i) x y e = get_elem?-set xs i x y e

ifaces-send : (id : ℕ) (d : Daemon) → (send_mospf_lsu id d).0.ifaces ≡ d.ifaces
unfolding send_mospf_lsu
ifaces-send id d = refl

hello_packet-test :
    (id : ℕ) (d : Daemon) (current : MospfIface)
    → let pkt = hello_packet id d current in
      (pkt.hdr.checksum == mospf_checksum pkt.hdr pkt.body) ≡ true
unfolding hello_packet
hello_packet-test id d current = (==_iff _ _).1 (seal-IsIntact _)

abbrev hello_of : MospfIface → MospfHello
hello_of current = record {
  mask = current.iface.mask;
  helloint = mospf_default_helloint;
  padding = 0;
}

dispatch_hello :
    (id id' now i : ℕ) (d d' : Daemon) (current : MospfIface)
    → d'.area_id ≡ 0
    → let pkt = hello_packet id d current in
      handle_mospf_packet id' now i pkt d' ≡ handle_mospf_hello id' now i pkt (hello_of current) d'
unfolding handle_mospf_packet hello_packet seal
dispatch_hello id id' now i d d' current area =
    let same_area : (0 == d'.area_id) ≡ true = ground (arith, area) in
    rw (hello_packet-test id d current, same_area) refl

-- The hello that a router sends from an interface, received at an interface of a router of area 0:
-- there the sender is then a neighbour that was heard now, with its router and its mask if it was
-- none before, and all other neighbours are as they were.
pub handle-hello_packet :
    (id id' now i r : ℕ) (d d' : Daemon) (current at_i : MospfIface)
    → d'.area_id ≡ 0
    → get_elem? d'.ifaces i ≡ some at_i
    → Returns (handle_mospf_packet id' now i (hello_packet id d current) d') (λ (d'', sent).
      (after : MospfIface) × (get_elem? d''.ifaces i ≡ some after)
      × (find_nbr r after.nbr_list ≡ (
          if r == current.iface.ip
          then heard now
              (record {
                nbr_id = d.router_id;
                nbr_ip = current.iface.ip;
                nbr_mask = current.iface.mask;
                alive = now;
                mac = current.iface.mac;
              })
              (find_nbr r at_i.nbr_list)
          else find_nbr r at_i.nbr_list)))
unfolding hello_packet seal handle_mospf_hello
handle-hello_packet id id' now i r d d' current at_i area at =
    elim (Bool-cases (is_nbr current.iface.ip at_i.nbr_list)) [
      | inl known ↦ Holds→Returns _ _ (
          rw (dispatch_hello id id' now i d d' current area, handle_mospf_hello, at, known)
            (
              record at_i { nbr_list = refresh_nbrs now current.iface.ip at_i.nbr_list },
              get_elem?-set d'.ifaces i at_i _ at,
              find-refresh now r current.iface.ip _ at_i.nbr_list known,
            ))
      | inr unknown ↦ Holds→Returns _ _ (
          rw (dispatch_hello id id' now i d d' current area, handle_mospf_hello, at, unknown)
            (
              record at_i {
                nbr_list =
                    at_i.nbr_list
                    ++ (new_nbr now (hello_packet id d current) (hello_of current) ∷ []);
              },
              ap (λ l. get_elem? l i)
                    (ifaces-send id' (
                      set_nbrs i at_i
                        (at_i.nbr_list
                          ++ (new_nbr now (hello_packet id d current) (hello_of current) ∷ []))
                        d'))
                  ∙ get_elem?-set d'.ifaces i at_i _ at,
              find-new now r _ at_i.nbr_list unknown,
            ))
    ]

-- The neighbours heard in the last 20 seconds.
unfoldable pub recent : ℕ → List MospfNbr → List MospfNbr
recent now [] = []
recent now (nbr ∷ nbrs) =
    let rest = recent now nbrs in
    if leb now (nbr.alive + mospf_neighbor_timeout) then nbr ∷ rest else rest

-- The round of checking_nbr_thread on an interface leaves the neighbours that were kept before and,
-- of the others, those heard in the last 20 seconds, in their order.
check_nbrs_lem :
    (id now i : ℕ) (current : MospfIface) (kept nbrs : List MospfNbr) (d : Daemon)
    → get_elem? d.ifaces i ≡ some (record current { nbr_list = kept ++ nbrs })
    → get_elem? (check_nbrs id now i current kept nbrs d).0.ifaces i
      ≡ some (record current { nbr_list = kept ++ recent now nbrs })
unfolding check_nbrs recent
check_nbrs_lem id now i current kept [] d at = at
check_nbrs_lem id now i current kept (nbr ∷ nbrs) d at =
    elim (Bool-cases (ltb mospf_neighbor_timeout (now - nbr.alive))) [
      | inl aged ↦
          let late : leb now (nbr.alive + mospf_neighbor_timeout) ≡ false = ground (arith, aged) in
          let d₁ = set_nbrs i current (kept ++ nbrs) d in
          rw (check_nbrs, aged, late)
            (check_nbrs_lem id now i current kept nbrs (send_mospf_lsu id d₁).0
              (ap (λ l. get_elem? l i) (ifaces-send id d₁) ∙ get_elem?-set d.ifaces i _ _ at))
      | inr fresh ↦
          let early : leb now (nbr.alive + mospf_neighbor_timeout) ≡ true = ground (arith, fresh) in
          rw (check_nbrs, fresh, early)
            (check_nbrs_lem id now i current (kept ++ (nbr ∷ [])) nbrs d (
                at
                ∙ ap (λ l. some (record current { nbr_list = l }))
                    (sym (append_assoc kept (nbr ∷ []) nbrs)))
              ∙ ap (λ l. some (record current { nbr_list = l }))
                  (append_assoc kept (nbr ∷ []) (recent now nbrs)))
    ]
