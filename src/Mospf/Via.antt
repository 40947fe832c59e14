-- ===== src/Mospf/Via.antt =====
-- The way that deal_rtable of 11-mospf-ping/mospf_daemon.c finds to a router next to this one.
use Prim.Native.Nat.{bit_and}
use network_lab.Base.{
  ℕ, ◌≡◌, ◌⊎◌, refl, ap, Bool, true, false, List, [], ◌∷◌, ◌++◌, Option, none, some, arith, ◌==◌,
  ◌&&◌, subst, ==_refl, Every, Bool-cases, inl, inr, ==_iff,
}
use network_lab.Packet.{Iface}
use network_lab.Mospf.{MospfLsa, MospfNbr, MospfIface, MospfDbEntry, Daemon}
use network_lab.Mospf.Rtable.{
  RouteEntry, has_subnet, is_advertised, find_desired_subnet, find_desired_iface, find_desired_gw,
  route_via, route_by,
}

-- An element of a list that passes a test: the first one, and the last one.
pub record IsFirst {A : Type 0} (test : A → Bool) (xs : List A) (x : A) : Type 0 where
  pub before : List A
  pub after : List A
  pub split : xs ≡ before ++ x ∷ after
  pub passes : test x ≡ true
  pub others : Every (λ y. test y ≡ false) before

pub record IsLast {A : Type 0} (test : A → Bool) (xs : List A) (x : A) : Type 0 where
  pub before : List A
  pub after : List A
  pub split : xs ≡ before ++ x ∷ after
  pub passes : test x ≡ true
  pub others : Every (λ y. test y ≡ false) after

IsFirst-cons :
    {A : Type 0} (test : A → Bool) (xs : List A) (x y : A)
    → test y ≡ false
    → IsFirst test xs x
    → IsFirst test (y ∷ xs) x
IsFirst-cons test xs x y fails first = record {
  before = y ∷ first.before;
  after = first.after;
  split = ap (◌∷◌ y) first.split;
  passes = first.passes;
  others = (fails, first.others);
}

IsLast-cons :
    {A : Type 0} (test : A → Bool) (xs : List A) (x y : A)
    → IsLast test xs x
    → IsLast test (y ∷ xs) x
IsLast-cons test xs x y last = record {
  before = y ∷ last.before;
  after = last.after;
  split = ap (◌∷◌ y) last.split;
  passes = last.passes;
  others = last.others;
}

-- The database has a link of the router `rid` to the subnet of the interface.
pub record IsLinkedTo (iface : Iface) (rid : ℕ) (db : List MospfDbEntry) : Type 0 where
  pub entry : MospfDbEntry
  pub lsa : MospfLsa
  pub in_db :
      (before : List MospfDbEntry) × (after : List MospfDbEntry) × (db ≡ before ++ entry ∷ after)
  pub of_router : entry.rid ≡ rid
  pub in_entry :
      (before : List MospfLsa) × (after : List MospfLsa) × (entry.array ≡ before ++ lsa ∷ after)
  pub same_subnet : bit_and lsa.subnet lsa.mask ≡ bit_and iface.ip iface.mask

has_subnet_lem :
    (iface : Iface) (lsas : List MospfLsa)
    → has_subnet iface lsas ≡ true
    → (lsa : MospfLsa) × (before : List MospfLsa) × (after : List MospfLsa) × (lsas
        ≡ before ++ lsa ∷ after)
      × (bit_and lsa.subnet lsa.mask ≡ bit_and iface.ip iface.mask)
unfolding has_subnet
has_subnet_lem iface [] has = absurd (ground (arith, has))
has_subnet_lem iface (lsa ∷ lsas) has =
    elim (Bool-cases (bit_and lsa.subnet lsa.mask == bit_and iface.ip iface.mask)) [
      | inl same ↦ (lsa, [], lsas, refl, (==_iff _ _).0 same)
      | inr other ↦
          let (found, before, after, e, same) = has_subnet_lem iface lsas (rw other at has) in
          (found, lsa ∷ before, after, ap (◌∷◌ lsa) e, same)
    ]

is_advertised_lem :
    (iface : Iface) (rid : ℕ) (db : List MospfDbEntry)
    → is_advertised iface rid db ≡ true
    → IsLinkedTo iface rid db
unfolding is_advertised
is_advertised_lem iface rid [] has = absurd (ground (arith, has))
is_advertised_lem iface rid (entry ∷ db) has =
    elim (Bool-cases (entry.rid == rid && has_subnet iface entry.array)) [
      | inl here ↦
          let (lsa, before, after, e, same) =
            has_subnet_lem iface entry.array (ground (arith, here)) in
          record {
            entry = entry;
            lsa = lsa;
            in_db = ([], db, refl);
            of_router = ground (arith, here);
            in_entry = (before, after, e);
            same_subnet = same;
          }
      | inr other ↦
          let there = is_advertised_lem iface rid db (rw other at has) in
          let (before, after, e) = there.in_db in
          record {
            entry = there.entry;
            lsa = there.lsa;
            in_db = (entry ∷ before, after, ap (◌∷◌ entry) e);
            of_router = there.of_router;
            in_entry = there.in_entry;
            same_subnet = there.same_subnet;
          }
    ]

abbrev pub subnet_of : MospfIface → ℕ
subnet_of current = bit_and current.iface.ip current.iface.mask

abbrev pub is_on : ℕ → MospfIface → Bool
is_on subnet current = subnet_of current == subnet

abbrev pub is_nbr_on : ℕ → MospfNbr → Bool
is_nbr_on subnet nbr = bit_and nbr.nbr_ip nbr.nbr_mask == subnet

abbrev pub is_linked : ℕ → List MospfDbEntry → MospfIface → Bool
is_linked rid db current = is_advertised current.iface rid db

find_desired_subnet_lem :
    (ifaces : List MospfIface) (db : List MospfDbEntry) (rid : ℕ)
    → ((near : MospfIface) × IsFirst (is_linked rid db) ifaces near
        × (find_desired_subnet ifaces db rid ≡ subnet_of near))
      ⊎ Every (λ current. is_linked rid db current ≡ false) ifaces
unfolding find_desired_subnet
find_desired_subnet_lem [] db rid = inr tt
find_desired_subnet_lem (current ∷ ifaces) db rid = elim (Bool-cases (is_linked rid db current)) [
  | inl here ↦ inl (
    current,
    record { before = []; after = ifaces; split = refl; passes = here; others = tt },
    rw here refl,
  )
  | inr other ↦ elim (find_desired_subnet_lem ifaces db rid) [
    | inl (near, first, e) ↦
        inl (near, IsFirst-cons (is_linked rid db) ifaces near current other first, rw other e)
    | inr never ↦ inr (other, never)
  ]
]

find_desired_iface_lem :
    (subnet : ℕ) (ifaces : List MospfIface) (desired : Option MospfIface)
    → ((out : MospfIface) × IsLast (is_on subnet) ifaces out
        × (find_desired_iface subnet ifaces desired ≡ some out))
      ⊎ (Every (λ current. is_on subnet current ≡ false) ifaces
          × (find_desired_iface subnet ifaces desired ≡ desired))
unfolding find_desired_iface
find_desired_iface_lem subnet [] desired = inr (tt, refl)
find_desired_iface_lem subnet (current ∷ ifaces) desired =
    elim (Bool-cases (is_on subnet current)) [
      | inl here ↦ elim (find_desired_iface_lem subnet ifaces (some current)) [
        | inl (out, last, e) ↦
            inl (out, IsLast-cons (is_on subnet) ifaces out current last, rw here e)
        | inr (never, e) ↦ inl (
          current,
          record { before = []; after = ifaces; split = refl; passes = here; others = never },
          rw here e,
        )
      ]
      | inr other ↦ elim (find_desired_iface_lem subnet ifaces desired) [
        | inl (out, last, e) ↦
            inl (out, IsLast-cons (is_on subnet) ifaces out current last, rw other e)
        | inr (never, e) ↦ inr ((other, never), rw other e)
      ]
    ]

-- The address of the last neighbour on the subnet, or 0 without one.
abbrev pub IsGateway : ℕ → List MospfNbr → ℕ → Type 0
IsGateway subnet nbrs gw =
    ((nbr : MospfNbr) × IsLast (is_nbr_on subnet) nbrs nbr × (gw ≡ nbr.nbr_ip))
    ⊎ (Every (λ nbr. is_nbr_on subnet nbr ≡ false) nbrs × (gw ≡ 0))

find_desired_gw_lem :
    (subnet : ℕ) (nbrs : List MospfNbr) (gw : ℕ)
    → ((nbr : MospfNbr) × IsLast (is_nbr_on subnet) nbrs nbr
        × (find_desired_gw subnet nbrs gw ≡ nbr.nbr_ip))
      ⊎ (Every (λ nbr. is_nbr_on subnet nbr ≡ false) nbrs × (find_desired_gw subnet nbrs gw ≡ gw))
unfolding find_desired_gw
find_desired_gw_lem subnet [] gw = inr (tt, refl)
find_desired_gw_lem subnet (nbr ∷ nbrs) gw = elim (Bool-cases (is_nbr_on subnet nbr)) [
  | inl here ↦ elim (find_desired_gw_lem subnet nbrs nbr.nbr_ip) [
    | inl (out, last, e) ↦ inl (out, IsLast-cons (is_nbr_on subnet) nbrs out nbr last, rw here e)
    | inr (never, e) ↦ inl (
      nbr,
      record { before = []; after = nbrs; split = refl; passes = here; others = never },
      rw here e,
    )
  ]
  | inr other ↦ elim (find_desired_gw_lem subnet nbrs gw) [
    | inl (out, last, e) ↦ inl (out, IsLast-cons (is_nbr_on subnet) nbrs out nbr last, rw other e)
    | inr (never, e) ↦ inr ((other, never), rw other e)
  ]
]

Every-at :
    {A : Type 0} (P : A → Type 0) (before : List A) (x : A) (after : List A)
    → Every P (before ++ x ∷ after)
    → P x
Every-at P [] x after h = h.0
Every-at P (y ∷ before) x after h = Every-at P before x after h.1

-- The route goes by the last interface on the subnet of the first interface to whose subnet the
-- database has a link of the router `rid`, to the last neighbour there.
pub record IsVia (d : Daemon) (rid : ℕ) (route : RouteEntry) : Type 0 where
  pub near : MospfIface
  pub out : MospfIface
  pub first : IsFirst (is_linked rid d.mospf_db) d.ifaces near
  pub link : IsLinkedTo near.iface rid d.mospf_db
  pub last : IsLast (is_on (subnet_of near)) d.ifaces out
  pub iface : route.iface ≡ some out.iface
  pub mask : route.mask ≡ out.iface.mask
  pub gw : IsGateway (subnet_of near) out.nbr_list route.gw

pub route_by-IsVia :
    (d : Daemon) (stale dest rid : ℕ)
    → IsVia d rid (route_by d stale dest rid)
      ⊎ Every (λ current. is_linked rid d.mospf_db current ≡ false) d.ifaces
unfolding route_by route_via
route_by-IsVia d stale dest rid = elim (find_desired_subnet_lem d.ifaces d.mospf_db rid) [
  | inr never ↦ inr never
  | inl (near, first, e) ↦ elim (find_desired_iface_lem (subnet_of near) d.ifaces none) [
    | inr (never, _) ↦
        let not_near : is_on (subnet_of near) near ≡ false =
          Every-at (λ current. is_on (subnet_of near) current ≡ false) first.before near first.after
            (subst (Every (λ current. is_on (subnet_of near) current ≡ false)) first.split never) in
        absurd (ground (arith, not_near, ==_refl (subnet_of near)))
    | inl (out, last, e') ↦ inl (record {
      near = near;
      out = out;
      first = first;
      link = is_advertised_lem near.iface rid d.mospf_db first.passes;
      last = last;
      iface = rw (e, e') refl;
      mask = rw (e, e') refl;
      gw = rw (e, e') (find_desired_gw_lem (subnet_of near) out.nbr_list 0);
    })
  ]
]
