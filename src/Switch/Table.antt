-- ===== src/Switch/Table.antt =====
-- The address table of mac.c as a partial map from addresses to ports.
use network_lab.Base.{
  ℕ, zero, suc, ◌<◌, ◌≤◌, ◌≡◌, refl, ap, true, false, List, [], ◌∷◌, ◌++◌, Option, none, some,
  arith, length, ◌==◌, if◌then◌else◌, Bool-cases, Option-cases, ◌<|>◌, ◌∙◌, ◌⊎◌, ◌↔◌, inl, inr,
}
use network_lab.Packet.{Mac, eth_alen}
use network_lab.Switch.{
  Port, MacPortEntry, MacPortMap, count_equal, compare_mac_addr, lookup_bucket, lookup_port,
  append_at,
}

-- The port of the first entry for an address, in a bucket and in the table.
unfoldable pub port_in : Mac → List MacPortEntry → Option Port
port_in mac [] = none
port_in mac (entry ∷ bucket) =
    if compare_mac_addr mac entry.mac then some entry.iface else port_in mac bucket

unfoldable pub port_of : Mac → MacPortMap → Option Port
port_of mac [] = none
port_of mac (bucket ∷ table) = port_in mac bucket <|> port_of mac table

pub count_equal_self : (a : Mac) → count_equal a a ≡ length a
unfolding count_equal
count_equal_self [] = refl
count_equal_self (x ∷ a) = ground (arith, count_equal_self a)

count_equal_le : (a b : Mac) → count_equal a b ≤ length a
unfolding count_equal
count_equal_le [] b = omega arith
count_equal_le (x ∷ a) [] = omega arith
count_equal_le (x ∷ a) (y ∷ b) = ground (arith, count_equal_le a b)

count_equal-length : (a b : Mac) → length a ≡ length b → count_equal a b ≡ length a → a ≡ b
unfolding count_equal
count_equal-length [] [] l e = refl
count_equal-length [] (y ∷ b) l e = absurd (omega arith)
count_equal-length (x ∷ a) [] l e = absurd (omega arith)
count_equal-length (x ∷ a) (y ∷ b) l e = elim (Bool-cases (x == y)) [
  | inl same ↦
      let head : x ≡ y = ground arith in
      rw (head, count_equal-length a b (omega arith) (ground arith)) refl
  | inr other ↦ absurd (ground (arith, count_equal_le a b))
]

-- Two addresses of six bytes compare as equal exactly when they are.
pub compare_mac_addr_iff :
    (a b : Mac)
    → length a ≡ eth_alen
    → length b ≡ eth_alen
    → (compare_mac_addr a b ≡ true) ↔ (a ≡ b)
unfolding compare_mac_addr
compare_mac_addr_iff a b la lb = (
  λ e. count_equal-length a b (omega arith) (ground arith),
  λ e. rw e (ground (arith, count_equal_self b)),
)

module _ (now : ℕ) (mac : Mac) where
  lookup_bucket_lem :
      (bucket : List MacPortEntry)
      → ((lookup_bucket now mac bucket ≡ none) × (port_in mac bucket ≡ none))
        ⊎ ((p : Port) × (bucket' : List MacPortEntry) × (lookup_bucket now mac bucket
              ≡ some (p, bucket'))
            × (port_in mac bucket ≡ some p)
            × ((m : Mac) → port_in m bucket' ≡ port_in m bucket))
  unfolding lookup_bucket port_in
  lookup_bucket_lem [] = inl (refl, refl)
  lookup_bucket_lem (entry ∷ bucket) = elim (Bool-cases (compare_mac_addr mac entry.mac)) [
    | inl hit ↦ rw hit (inr (entry.iface, _, refl, refl, λ m. refl))
    | inr miss ↦ elim (lookup_bucket_lem bucket) [
      | inl (e, n) ↦ inl (rw (miss, e) refl, rw miss n)
      | inr (p, bucket', e, found, same) ↦
          inr (p, entry ∷ bucket', rw (miss, e) refl, rw miss found, λ m. rw (same m) refl)
    ]
  ]

  -- A lookup finds the port of the address, and changes no port.
  pub lookup_port_lem :
      (table : MacPortMap)
      → ((lookup_port now mac table).0 ≡ port_of mac table)
        × ((m : Mac) → port_of m (lookup_port now mac table).1 ≡ port_of m table)
        × (length (lookup_port now mac table).1 ≡ length table)
  unfolding lookup_port port_of
  lookup_port_lem [] = (refl, λ m. refl, refl)
  lookup_port_lem (bucket ∷ table) = elim (lookup_bucket_lem bucket) [
    | inl (e, n) ↦
        let rest = lookup_port_lem table in
        (
          rw (lookup_port, port_of, e, n) rest.0,
          λ m. rw (lookup_port, e) (ap (◌<|>◌ (port_in m bucket)) (rest.1 m)),
          rw (lookup_port, length, e) (ap suc rest.2),
        )
    | inr (p, bucket', e, found, same) ↦ (
      rw (lookup_port, port_of, e, found) refl,
      λ m. rw (lookup_port, e) (ap (λ o. o <|> port_of m table) (same m)),
      rw (lookup_port, length, e) refl,
    )
  ]

port_in-append :
    (m : Mac) (entry : MacPortEntry) (bucket : List MacPortEntry)
    → port_in m (bucket ++ entry ∷ [])
      ≡ (port_in m bucket <|> (if compare_mac_addr m entry.mac then some entry.iface else none))
unfolding port_in
port_in-append m entry [] = refl
port_in-append m entry (e ∷ bucket) = elim (Bool-cases (compare_mac_addr m e.mac)) [
  | inl hit ↦ rw hit refl
  | inr miss ↦ rw miss (port_in-append m entry bucket)
]

-- A new entry gives an unknown address its port, and no other address another one.
pub port_of-append_at :
    (m : Mac) (entry : MacPortEntry) (i : ℕ) (table : MacPortMap)
    → i < length table
    → ((compare_mac_addr m entry.mac ≡ true)
        → port_of m table ≡ none
        → port_of m (append_at i entry table) ≡ some entry.iface)
      × ((compare_mac_addr m entry.mac ≡ false)
          → port_of m (append_at i entry table) ≡ port_of m table)
unfolding port_of append_at
port_of-append_at m entry i [] lt = absurd (omega arith)
port_of-append_at m entry zero (bucket ∷ table) lt = elim (Option-cases (port_in m bucket)) [
  | inl n ↦ (
    λ hit unknown.
        ap (λ o. o <|> port_of m table) (port_in-append m entry bucket) ∙ rw (n, hit) refl,
    λ miss. ap (λ o. o <|> port_of m table) (port_in-append m entry bucket) ∙ rw (n, miss) refl,
  )
  | inr (p, e) ↦ (
    λ hit none_before. cc,
    λ miss. ap (λ o. o <|> port_of m table) (port_in-append m entry bucket) ∙ rw e refl,
  )
]
port_of-append_at m entry (suc i) (bucket ∷ table) lt = elim (Option-cases (port_in m bucket)) [
  | inl n ↦ rw n (port_of-append_at m entry i table (omega arith))
  | inr (p, e) ↦ (λ hit none_before. cc, λ miss. rw e refl)
]

pub length-append_at :
    (i : ℕ) (entry : MacPortEntry) (table : MacPortMap)
    → length (append_at i entry table) ≡ length table
unfolding append_at
length-append_at i entry [] = refl
length-append_at zero entry (bucket ∷ table) = refl
length-append_at (suc i) entry (bucket ∷ table) = ap suc (length-append_at i entry table)
