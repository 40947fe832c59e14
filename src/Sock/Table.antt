-- ===== src/Sock/Table.antt =====
-- The three hash tables of tcp_sock.c, with include/tcp_hash.h.
use Prim.Native.Nat.{bit_xor, bit_and}
use network_lab.Base.{
  ℕ, suc, zero, ◌+◌, ◌-◌, ◌/◌, ◌%◌, ◌^◌, Bool, true, false, ◌&&◌, List, [], ◌∷◌, ◌++◌, Option, none,
  some, ◌==◌, if◌then◌else◌, ◌>>=◌, get_elem?, ◌<|>◌, update, remove,
}
use network_lab.Packet.{le16}
use network_lab.Hash.{hash8}
use network_lab.Tcp.{TcpSock, TcpCb}
use network_lab.Sock.{
  closed, listen, Node, linked, stale, Sock, Stack, put, free_tcp_sock, tcp_sock_inc_ref_cnt,
}

unfoldable pub le32 : ℕ → List ℕ
le32 x = le16 (x % 2 ^ 16) ++ le16 (x / 2 ^ 16)

unfoldable pub tcp_hash_function : ℕ → ℕ → ℕ → ℕ → ℕ
tcp_hash_function saddr daddr sport dport =
    bit_and
      (bit_xor (bit_xor (bit_xor (hash8 (le32 saddr)) (hash8 (le32 daddr))) (hash8 (le16 sport)))
        (hash8 (le16 dport)))
      255

-- The first socket of the bucket, whatever its addresses and ports are.
unfoldable pub tcp_sock_lookup_established : Stack → ℕ → ℕ → ℕ → ℕ → Option ℕ
tcp_sock_lookup_established st saddr daddr sport dport =
    get_elem? (st.established_table (tcp_hash_function saddr daddr sport dport)) 0

unfoldable pub tcp_sock_lookup_listen : Stack → ℕ → Option ℕ
tcp_sock_lookup_listen st sport = get_elem? (st.listen_table (tcp_hash_function 0 0 sport 0)) 0

-- `none` is `exit(-1)`.
unfoldable pub tcp_sock_lookup : Stack → TcpCb → Option ℕ
tcp_sock_lookup st cb =
    tcp_sock_lookup_established st cb.daddr cb.saddr cb.dport cb.sport
    <|> tcp_sock_lookup_listen st cb.dport

abbrev same_tuple : TcpSock → TcpSock → Bool
same_tuple tsk tmp =
    tsk.sk_sip == tmp.sk_sip
    && tsk.sk_dip == tmp.sk_dip
    && tsk.sk_sport == tmp.sk_sport
    && tsk.sk_dport == tmp.sk_dport

-- Whether a socket of the bucket has the addresses and ports of `tsk`.
unfoldable pub is_taken : Stack → TcpSock → List ℕ → Option Bool
is_taken st tsk [] = some false
is_taken st tsk (i ∷ is) =
    let rest = is_taken st tsk is in
    st.socks i >>= λ tmp. if same_tuple tsk tmp.conn then some true else rest

abbrev pub is_linked : Node → Bool
is_linked linked = true
is_linked _ = false

-- `list_add_head(&tsk->hash_list, list)` with the count; a socket that is on a list already would
-- corrupt it.
unfoldable pub link_hash : ℕ → Stack → Option Stack
link_hash i st = st.socks i >>= λ tsk.
    if is_linked tsk.hash_node
    then none
    else some (put i (record tsk { hash_node = linked; ref_cnt = tsk.ref_cnt + 1 }) st)

unfoldable pub hash_listen : ℕ → Sock → Stack → Option (Stack × Bool)
hash_listen i tsk st =
    let h = tcp_hash_function 0 0 tsk.conn.sk_sport 0 in
    link_hash i (record st { listen_table = update st.listen_table h (i ∷ st.listen_table h) })
    >>= λ st'. some (st', true)

unfoldable pub hash_established : ℕ → Sock → Stack → Option (Stack × Bool)
hash_established i tsk st =
    let h = tcp_hash_function tsk.conn.sk_sip tsk.conn.sk_dip tsk.conn.sk_sport tsk.conn.sk_dport in
    is_taken st tsk.conn (st.established_table h) >>= λ taken.
    if taken
    then some (st, false)
    else (link_hash i (record st {
      established_table = update st.established_table h (i ∷ st.established_table h);
    })
        >>= λ st'. some (st', true))

-- The Boolean is whether it returns 0, not -1.
unfoldable pub tcp_hash : ℕ → Stack → Option (Stack × Bool)
tcp_hash i st = st.socks i >>= λ tsk. elim tsk.state [
  | closed ↦ some (st, false)
  | listen ↦ hash_listen i tsk st
  | _ ↦ hash_established i tsk st
]

-- The node of the socket is taken off the list, and the socket is released once. A node of zeros
-- counts as on a list, and its null pointers are followed.
unfoldable pub tcp_unhash : ℕ → Stack → Option Stack
tcp_unhash i st = st.socks i >>= λ tsk. elim tsk.hash_node [
  | linked ↦ free_tcp_sock i (record (put i (record tsk { hash_node = stale }) st) {
    established_table = λ h. remove i (st.established_table h);
    listen_table = λ h. remove i (st.listen_table h);
  })
  | _ ↦ none
]

unfoldable pub tcp_bind_hash : ℕ → Stack → Option Stack
tcp_bind_hash i st = st.socks i >>= λ tsk.
    let h = tcp_hash_function 0 0 tsk.conn.sk_sport 0 in
    if is_linked tsk.bind_node
    then none
    else tcp_sock_inc_ref_cnt i (record (put i (record tsk { bind_node = linked }) st) {
      bind_table = update st.bind_table h (i ∷ st.bind_table h);
    })

unfoldable pub tcp_bind_unhash : ℕ → Stack → Option Stack
tcp_bind_unhash i st = st.socks i >>= λ tsk. elim tsk.bind_node [
  | linked ↦ free_tcp_sock i (record (put i (record tsk { bind_node = stale }) st) {
    bind_table = λ h. remove i (st.bind_table h);
  })
  | _ ↦ none
]

-- The bucket is run over by `hash_list`, though its sockets are on it by `bind_hash_list`: the field
-- that is compared lies beside `sk_sport`, in the pointer `parent`. `bits` is what the machine has
-- there for a pointer to a socket; a null pointer has zeros.
unfoldable pub in_use : (ℕ → ℕ) → Stack → ℕ → List ℕ → Option Bool
in_use bits st sport [] = some false
in_use bits st sport (i ∷ is) =
    let rest = in_use bits st sport is in
    st.socks i >>= λ tsk.
    let read : ℕ = elim tsk.parent [ none ↦ 0 | some p ↦ bits p ] in
    if read == sport then some true else rest

unfoldable pub tcp_port_in_use : (ℕ → ℕ) → Stack → ℕ → Option Bool
tcp_port_in_use bits st sport = in_use bits st sport (st.bind_table (tcp_hash_function 0 0 sport 0))

abbrev port_min : ℕ
port_min = 12345

abbrev port_max : ℕ
port_max = 23456

-- The loop from `port` on, over as many ports as are left below port_max.
unfoldable pub get_port_from : (ℕ → ℕ) → Stack → ℕ → ℕ → Option ℕ
get_port_from bits st zero port = some 0
get_port_from bits st (suc left) port =
    let rest = get_port_from bits st left (port + 1) in
    tcp_port_in_use bits st port >>= λ used. if used then rest else some port

unfoldable pub tcp_get_port : (ℕ → ℕ) → Stack → Option ℕ
tcp_get_port bits st = get_port_from bits st (port_max - port_min) port_min

-- The Boolean is whether it returns 0, not -1.
unfoldable pub tcp_sock_set_sport : (ℕ → ℕ) → ℕ → ℕ → Stack → Option (Stack × Bool)
tcp_sock_set_sport bits i port st =
    let bind : ℕ → Option (Stack × Bool) = λ p. st.socks i >>= λ tsk.
    tcp_bind_hash i (put i (record tsk { conn = record (tsk.conn) { sk_sport = p } }) st) >>= λ st'.
    some (st', true) in
    if port == 0
    then (tcp_get_port bits st >>= λ p. if p == 0 then some (st, false) else bind p)
    else (tcp_port_in_use bits st port >>= λ used. if used then some (st, false) else bind port)

unfoldable pub tcp_sock_bind : (ℕ → ℕ) → ℕ → ℕ → Stack → Option (Stack × Bool)
tcp_sock_bind bits i port st = tcp_sock_set_sport bits i port st
