-- ===== src/Mospf/Database.antt =====
-- The handlers of the messages, and the rounds of the threads that age what they enter.
use network_lab.Base.{
  ℕ, ◌+◌, ◌-◌, Bool, true, false, not, ◌&&◌, ◌||◌, List, [], ◌∷◌, ◌++◌, Option, none, some, length,
  take, set, get_elem?, ltb, leb, ◌==◌, if◌then◌else◌, ◌>>=◌,
}
use network_lab.Mospf.{
  mospf_version, mospf_type_hello, mospf_type_lsu, mospf_neighbor_timeout, ipproto_mospf,
  MospfHello, MospfLsu, MospfLsa, hello_body, lsu_body, MospfPacket, mospf_checksum, MospfNbr,
  MospfIface, MospfDbEntry, Daemon,
}
use network_lab.Mospf.Flood.{send_mospf_lsu, forward_lsu}

unfoldable pub refresh_nbrs : ℕ → ℕ → List MospfNbr → List MospfNbr
refresh_nbrs now saddr [] = []
refresh_nbrs now saddr (nbr ∷ nbrs) =
    (if saddr == nbr.nbr_ip then record nbr { alive = now } else nbr) ∷ refresh_nbrs now saddr nbrs

unfoldable pub is_nbr : ℕ → List MospfNbr → Bool
is_nbr saddr [] = false
is_nbr saddr (nbr ∷ nbrs) = saddr == nbr.nbr_ip || is_nbr saddr nbrs

abbrev pub new_nbr : ℕ → MospfPacket → MospfHello → MospfNbr
new_nbr now pkt hello = record {
  nbr_id = pkt.hdr.rid;
  nbr_ip = pkt.ip.saddr;
  nbr_mask = hello.mask;
  alive = now;
  mac = pkt.shost;
}

abbrev pub set_nbrs : ℕ → MospfIface → List MospfNbr → Daemon → Daemon
set_nbrs i current nbrs d = record d {
  ifaces = set d.ifaces i (record current { nbr_list = nbrs });
}

-- `i` is the place of the interface that the packet came in by; `none` is no such interface.
unfoldable pub handle_mospf_hello :
    ℕ → ℕ → ℕ → MospfPacket → MospfHello → Daemon → Option (Daemon × List MospfPacket)
handle_mospf_hello id now i pkt hello d =
    if pkt.ip.protocol == ipproto_mospf && pkt.hdr.type == mospf_type_hello
    then (get_elem? d.ifaces i >>= λ current.
        if is_nbr pkt.ip.saddr current.nbr_list
        then some (set_nbrs i current (refresh_nbrs now pkt.ip.saddr current.nbr_list) d, [])
        else some (
            send_mospf_lsu id
              (set_nbrs i current (current.nbr_list ++ (new_nbr now pkt hello ∷ [])) d)))
    else some (d, [])

-- The lsas that are read; `none` is what reads behind the packet or writes behind the array of five.
-- A number of 2 ^ 31 or more, a negative int in the source, is outside of the model, and `none` too.
unfoldable pub read_lsas : ℕ → List MospfLsa → Option (List MospfLsa)
read_lsas nadv lsas = if leb nadv 5 && leb nadv (length lsas) then some (take nadv lsas) else none

abbrev pub new_db_entry : ℕ → MospfPacket → MospfLsu → List MospfLsa → MospfDbEntry
new_db_entry now pkt lsu array = record {
  rid = pkt.hdr.rid;
  seq = lsu.seq;
  nadv = lsu.nadv;
  array = array;
  alive = now;
}

-- The loop over the database.
unfoldable pub update_db : MospfDbEntry → List MospfDbEntry → List MospfDbEntry
update_db new [] = []
update_db new (entry ∷ db) =
    (if entry.rid == new.rid && ltb entry.seq new.seq then new else entry) ∷ update_db new db

-- Whether the loop reads the lsas: for an entry of the router with a lower sequence number.
unfoldable pub is_newer : ℕ → ℕ → List MospfDbEntry → Bool
is_newer rid seq [] = false
is_newer rid seq (entry ∷ db) = entry.rid == rid && ltb entry.seq seq || is_newer rid seq db

unfoldable pub is_found : ℕ → List MospfDbEntry → Bool
is_found rid [] = false
is_found rid (entry ∷ db) = entry.rid == rid || is_found rid db

-- The update is forwarded whether it is new or not.
unfoldable pub handle_mospf_lsu :
    ℕ → MospfPacket → MospfLsu → List MospfLsa → Daemon → Option (Daemon × List MospfPacket)
handle_mospf_lsu now pkt lsu lsas d =
    (if is_newer pkt.hdr.rid lsu.seq d.mospf_db || not (is_found pkt.hdr.rid d.mospf_db)
      then read_lsas lsu.nadv lsas
      else some [])
    >>= λ array.
        let new = new_db_entry now pkt lsu array in
        let db = update_db new d.mospf_db in
        some (
          record d { mospf_db = if is_found pkt.hdr.rid d.mospf_db then db else db ++ (new ∷ []) },
          forward_lsu d.ifaces pkt,
        )

-- A body that is not of the type that the header says is outside of the model.
unfoldable pub handle_mospf_packet :
    ℕ → ℕ → ℕ → MospfPacket → Daemon → Option (Daemon × List MospfPacket)
handle_mospf_packet id now i pkt d =
    if not (pkt.hdr.version == mospf_version)
    then some (d, [])
    else if not (pkt.hdr.checksum == mospf_checksum pkt.hdr pkt.body)
    then some (d, [])
    else if not (pkt.hdr.aid == d.area_id)
    then some (d, [])
    else if pkt.hdr.type == mospf_type_hello
    then elim pkt.body [
      | hello_body hello ↦ handle_mospf_hello id now i pkt hello d
      | lsu_body lsu lsas ↦ none
    ]
    else if pkt.hdr.type == mospf_type_lsu
    then elim pkt.body [
      | hello_body hello ↦ none
      | lsu_body lsu lsas ↦ handle_mospf_lsu now pkt lsu lsas d
    ]
    else some (d, [])

-- One round of checking_db_thread.
unfoldable check_db : ℕ → List MospfDbEntry → List MospfDbEntry
check_db now [] = []
check_db now (entry ∷ db) =
    let rest = check_db now db in if ltb 10 (now - entry.alive) then rest else entry ∷ rest

-- checking_nbr_thread on the neighbours of the interface at `i`; those before are kept.
unfoldable pub check_nbrs :
    ℕ → ℕ → ℕ → MospfIface → List MospfNbr → List MospfNbr → Daemon → Daemon × List MospfPacket
check_nbrs id now i current kept [] d = (d, [])
check_nbrs id now i current kept (nbr ∷ nbrs) d =
    elim (ltb mospf_neighbor_timeout (now - nbr.alive)) [
      | true ↦
          let (d', sent) = send_mospf_lsu id (set_nbrs i current (kept ++ nbrs) d) in
          let (d'', sent') = check_nbrs id now i current kept nbrs d' in (d'', sent ++ sent')
      | false ↦ check_nbrs id now i current (kept ++ (nbr ∷ [])) nbrs d
    ]

-- One round over the interfaces from `i` on.
unfoldable check_ifaces : ℕ → ℕ → ℕ → List MospfIface → Daemon → Daemon × List MospfPacket
check_ifaces id now i [] d = (d, [])
check_ifaces id now i (current ∷ ifaces) d =
    let (d', sent) = check_nbrs id now i current [] current.nbr_list d in
    let (d'', sent') = check_ifaces id now (i + 1) ifaces d' in (d'', sent ++ sent')
