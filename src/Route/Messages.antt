-- ===== src/Route/Messages.antt =====
-- What rtable_internal.c of 16-tcp_data_transfer makes of messages with attributes in any order.
use native.Mathlib.Nat.{one-le-pow, pow-le-pow_right}
use mathlib.Core.Option.{none-ne-some}
use network_lab.Base.{
  ==_iff, Bool-cases, Every, List, Option, [], ap, append-nil, append_assoc, arith, if◌then◌else◌,
  inl, inr, leb, length, none, refl, some, sym, true, ℕ, ◌%◌, ◌&&◌, ◌*◌, ◌++◌, ◌+◌, ◌-◌, ◌<◌, ◌==◌,
  ◌^◌, ◌∙◌, ◌∷◌, ◌≡◌, ◌≢◌, ◌≤◌,
}
use network_lab.Packet.{Iface, if_name_to_iface}
use network_lab.Route.{RtEntry, new_rt_entry, add_rt_entry}
use network_lab.Route.Kernel.{
  RtAttr, rta_dst, rta_gateway, rta_oif, rta_other, RtMsg, Parsed, mask_of, parse_attrs, add_if,
  parse_from, parse_routing_info,
}

-- The last attribute of a kind, and the attributes of each kind.
unfoldable pub orelse : Option ℕ → Option ℕ → Option ℕ
orelse none b = b
orelse (some a) b = some a

abbrev last_of : (RtAttr → Option ℕ) → List RtAttr → Option ℕ
last_of pick [] = none
last_of pick (attr ∷ attrs) = orelse (last_of pick attrs) (pick attr)

abbrev pick_dst : RtAttr → Option ℕ
pick_dst (rta_dst dest) = some dest
pick_dst (rta_gateway gw) = none
pick_dst (rta_oif index) = none
pick_dst rta_other = none

abbrev pick_gateway : RtAttr → Option ℕ
pick_gateway (rta_dst dest) = none
pick_gateway (rta_gateway gw) = some gw
pick_gateway (rta_oif index) = none
pick_gateway rta_other = none

abbrev pick_oif : RtAttr → Option ℕ
pick_oif (rta_dst dest) = none
pick_oif (rta_gateway gw) = none
pick_oif (rta_oif index) = some index
pick_oif rta_other = none

abbrev value_or : ℕ → Option ℕ → ℕ
value_or x none = x
value_or x (some y) = y

abbrev name_or : Option (List ℕ) → (ℕ → List ℕ) → Option ℕ → Option (List ℕ)
name_or before name none = before
name_or before name (some index) = some (name index)

-- The upper `len` bits if there is a destination.
abbrev mask_if : ℕ → ℕ → Option ℕ → ℕ
mask_if before len none = before
mask_if before len (some dest) = 2 ^ 32 - 2 ^ (32 - len)

shift_lem : (k : ℕ) → 1 ≤ k → k ≤ 2 ^ 31 → 0xFFFFFFFF * k % 2 ^ 32 ≡ 2 ^ 32 - k
shift_lem k some_bit fits = omega arith

mask_lem : (len : ℕ) → 0 < len → len ≤ 32 → mask_of len ≡ some (2 ^ 32 - 2 ^ (32 - len))
unfolding mask_of
mask_lem len some_bits fits =
    let defined : (leb 1 len && leb len 32) ≡ true = ground (arith, some_bits, fits) in
    let two : 0 < 2 = omega arith in
    rw defined (
      ap some (
        shift_lem (2 ^ (32 - len)) (one-le-pow (32 - len) 2 two)
          (pow-le-pow_right two {i = 32 - len} {j = 31} (omega (arith, some_bits)))))

abbrev parsed_from : (ℕ → List ℕ) → ℕ → List RtAttr → Parsed → Parsed
parsed_from name len attrs p = record {
  dest = value_or p.dest (last_of pick_dst attrs);
  mask = mask_if p.mask len (last_of pick_dst attrs);
  gw = value_or p.gw (last_of pick_gateway attrs);
  if_name = name_or p.if_name name (last_of pick_oif attrs);
}

orelse-none : (o : Option ℕ) → orelse o none ≡ o
unfolding orelse
orelse-none none = refl
orelse-none (some x) = refl

orelse-ne : (o : Option ℕ) (y : ℕ) → orelse o (some y) ≢ none
unfolding orelse
orelse-ne none y e = none-ne-some y (sym e)
orelse-ne (some x) y e = none-ne-some x (sym e)

value_or-some : (x y : ℕ) (o : Option ℕ) → value_or x (orelse o (some y)) ≡ value_or y o
unfolding orelse
value_or-some x y none = refl
value_or-some x y (some z) = refl

mask_if-some :
    (m len y : ℕ) (o : Option ℕ)
    → mask_if m len (orelse o (some y)) ≡ mask_if (2 ^ 32 - 2 ^ (32 - len)) len o
unfolding orelse
mask_if-some m len y none = refl
mask_if-some m len y (some z) = refl

name_or-some :
    (n : Option (List ℕ)) (name : ℕ → List ℕ) (y : ℕ) (o : Option ℕ)
    → name_or n name (orelse o (some y)) ≡ name_or (some (name y)) name o
unfolding orelse
name_or-some n name y none = refl
name_or-some n name y (some z) = refl

module _ (name : ℕ → List ℕ) (len : ℕ) (fits : len ≤ 32) where
  parse_attrs_lem :
      (attrs : List RtAttr) (p : Parsed)
      → (len ≡ 0 → last_of pick_dst attrs ≡ none)
      → parse_attrs (λ i. some (name i)) len attrs p ≡ some (parsed_from name len attrs p)
  unfolding parse_attrs
  parse_attrs_lem [] p proper = refl
  parse_attrs_lem (rta_dst dest ∷ attrs) p proper = elim (Bool-cases (len == 0)) [
    | inl default ↦
        absurd (orelse-ne (last_of pick_dst attrs) dest (proper ((==_iff len 0).0 default)))
    | inr prefix ↦
        rw
          (
            mask_lem len (ground (arith, prefix)) fits,
            orelse-none (last_of pick_gateway attrs),
            orelse-none (last_of pick_oif attrs),
            value_or-some,
            mask_if-some,
          )
          (parse_attrs_lem attrs (record p { dest = dest; mask = 2 ^ 32 - 2 ^ (32 - len) })
            (λ e. absurd (ground (arith, prefix, e))))
  ]
  parse_attrs_lem (rta_gateway gw ∷ attrs) p proper =
      rw (orelse-none (last_of pick_dst attrs), orelse-none (last_of pick_oif attrs), value_or-some)
        (parse_attrs_lem attrs (record p { gw = gw }) (λ e. sym (orelse-none _) ∙ proper e))
  parse_attrs_lem (rta_oif index ∷ attrs) p proper =
      rw
        (
          orelse-none (last_of pick_dst attrs),
          orelse-none (last_of pick_gateway attrs),
          name_or-some,
        )
        (parse_attrs_lem attrs (record p { if_name = some (name index) })
          (λ e. sym (orelse-none _) ∙ proper e))
  parse_attrs_lem (rta_other ∷ attrs) p proper =
      rw
        (
          orelse-none (last_of pick_dst attrs),
          orelse-none (last_of pick_gateway attrs),
          orelse-none (last_of pick_oif attrs),
        )
        (parse_attrs_lem attrs p (λ e. sym (orelse-none _) ∙ proper e))

-- The last interface index, and the route that a message stands for: to its last destination or 0, with
-- the mask of its length if it has a destination, and by its last gateway or 0.
abbrev pub entry_of : RtMsg → Iface → RtEntry
entry_of msg iface = record {
  dest = value_or 0 (last_of pick_dst msg.attrs);
  mask = mask_if 0 msg.rtm_dst_len (last_of pick_dst msg.attrs);
  gw = value_or 0 (last_of pick_gateway msg.attrs);
  iface = iface;
}

abbrev entry_if : RtMsg → Option Iface → List RtEntry
entry_if msg none = []
entry_if msg (some iface) = entry_of msg iface ∷ []

abbrev entry_by : (ℕ → List ℕ) → List (List ℕ × Iface) → RtMsg → Option ℕ → List RtEntry
entry_by name ifaces msg none = []
entry_by name ifaces msg (some index) = entry_if msg (if_name_to_iface ifaces (name index))

-- The routes of the main table by interfaces of the router.
abbrev pub entries_of : (ℕ → List ℕ) → List (List ℕ × Iface) → List RtMsg → List RtEntry
entries_of name ifaces [] = []
entries_of name ifaces (msg ∷ msgs) =
    (if msg.rtm_table == 254 then entry_by name ifaces msg (last_of pick_oif msg.attrs) else [])
    ++ entries_of name ifaces msgs

-- A message of the main table has an interface, and a length of at most 32, which is not 0 if it has a
-- destination.
abbrev pub IsProper : RtMsg → Type 0
IsProper msg =
    (msg.rtm_table ≡ 254)
    → (msg.rtm_dst_len ≤ 32)
      × ((msg.rtm_dst_len ≡ 0) → last_of pick_dst msg.attrs ≡ none)
      × ((index : ℕ) × (last_of pick_oif msg.attrs ≡ some index))

module _ (name : ℕ → List ℕ) (ifaces : List (List ℕ × Iface)) where
  add_if_lem :
      (msg : RtMsg) (msgs : List RtMsg) (index : ℕ) (found : Option Iface) (rtable : List RtEntry)
      (n : ℕ)
      → ((rtable' : List RtEntry) (n' : ℕ)
          → parse_from (λ i. some (name i)) ifaces msgs rtable' n'
            ≡ some
                (rtable' ++ entries_of name ifaces msgs, n' + length (entries_of name ifaces msgs)))
      → (let (rtable', n') =
            add_if found
              (record (parsed_from name msg.rtm_dst_len msg.attrs
                (record { dest = 0; mask = 0; gw = 0; if_name = none })) {
                  if_name = some (name index);
                })
              rtable
              n in
          parse_from (λ i. some (name i)) ifaces msgs rtable' n')
        ≡ some (
          rtable ++ (entry_if msg found ++ entries_of name ifaces msgs),
          n + length (entry_if msg found ++ entries_of name ifaces msgs),
        )
  unfolding add_rt_entry new_rt_entry
  add_if_lem msg msgs index none rtable n rest = rest rtable n
  add_if_lem msg msgs index (some iface) rtable n rest =
      let others = entries_of name ifaces msgs in
      rest (rtable ++ (entry_of msg iface ∷ [])) (n + 1)
      ∙ ap (λ xs. some (xs, (n + 1) + length others))
          (append_assoc rtable (entry_of msg iface ∷ []) others)
      ∙ ap (λ m. some (rtable ++ (entry_of msg iface ∷ others), m)) (omega arith)

  parse_from_lem :
      (msgs : List RtMsg) (rtable : List RtEntry) (n : ℕ)
      → Every IsProper msgs
      → parse_from (λ i. some (name i)) ifaces msgs rtable n
        ≡ some (rtable ++ entries_of name ifaces msgs, n + length (entries_of name ifaces msgs))
  unfolding parse_from
  parse_from_lem [] rtable n proper =
      ap (λ xs. some (xs, n)) (sym (append-nil rtable))
      ∙ ap (λ m. some (rtable ++ [], m)) (omega arith)
  parse_from_lem (msg ∷ msgs) rtable n proper = elim (Bool-cases (msg.rtm_table == 254)) [
    | inl main ↦
        let (fits, some_bits, (index, e)) = proper.0 ((==_iff msg.rtm_table 254).0 main) in
        rw
          (
            main,
            parse_attrs_lem name msg.rtm_dst_len fits msg.attrs
                (record { dest = 0; mask = 0; gw = 0; if_name = none }) some_bits,
            e,
          )
          (add_if_lem msg msgs index (if_name_to_iface ifaces (name index)) rtable n
            (λ rtable' n'. parse_from_lem msgs rtable' n' proper.1))
    | inr other ↦ rw other (parse_from_lem msgs rtable n proper.1)
  ]

  -- The table that the messages make has an entry for each message of the main table whose last
  -- interface is one of the router, in order, with its last destination and gateway, if any, and the
  -- mask of its length, and the count is the number of entries. Every index has a name, and the messages
  -- of the main table have an interface, a length of at most 32, and none of 0 with a destination.
  pub parse_routing_info_lem :
      (msgs : List RtMsg)
      → Every IsProper msgs
      → parse_routing_info (λ i. some (name i)) ifaces msgs
        ≡ some (entries_of name ifaces msgs, length (entries_of name ifaces msgs))
  unfolding parse_routing_info
  parse_routing_info_lem msgs proper =
      parse_from_lem msgs [] 0 proper
      ∙ ap (λ m. some (entries_of name ifaces msgs, m)) (omega arith)
