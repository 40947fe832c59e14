-- ===== src/Arp/Lookup.antt =====
-- Address mappings: what a lookup finds after an insertion and after the entries have aged.
use network_lab.Base.{
  ℕ, zero, suc, ◌+◌, ◌<◌, ◌≡◌, ◌≢◌, ◌↔◌, refl, ap, true, false, ◌⊎◌, inl, inr, List, [], ◌∷◌, none,
  some, arith, length, set, get_elem?, Bool-cases, Option-cases, Every, ==_refl,
}
use network_lab.Packet.{Mac}
use network_lab.Arp.{CacheEntry, holds, lookup_entries, refresh, is_known, last_free, max_arp_size}

-- No address has two valid entries.
abbrev pub Distinct : List CacheEntry → Type 0
Distinct [] = Unit {0}
Distinct (e ∷ es) = (e.valid ≡ true → is_known e.ip4 es ≡ false) × Distinct es

-- What holds of the table between operations.
pub record IsTable (es : List CacheEntry) : Type 0 where
  pub full_size : length es ≡ max_arp_size
  pub distinct : Distinct es

module _ (now ip4 : ℕ) (mac : Mac) where
  pub length-refresh : (es : List CacheEntry) → length (refresh now ip4 mac es) ≡ length es
  unfolding refresh
  length-refresh [] = refl
  length-refresh (e ∷ es) = ap suc (length-refresh es)

  pub refresh_unknown :
      (es : List CacheEntry) → is_known ip4 es ≡ false → refresh now ip4 mac es ≡ es
  unfolding refresh is_known
  refresh_unknown [] h = refl
  refresh_unknown (e ∷ es) h = ground (arith, refresh_unknown es)

  pub lookup-refresh_self :
      (es : List CacheEntry)
      → is_known ip4 es ≡ true
      → lookup_entries ip4 (refresh now ip4 mac es) ≡ some mac
  unfolding refresh is_known lookup_entries
  lookup-refresh_self [] h = cc
  lookup-refresh_self (e ∷ es) h = ground (arith, lookup-refresh_self es)

  pub lookup-refresh_ne :
      (es : List CacheEntry) (j : ℕ)
      → j ≢ ip4
      → lookup_entries j (refresh now ip4 mac es) ≡ lookup_entries j es
  unfolding refresh lookup_entries
  lookup-refresh_ne [] j h = refl
  lookup-refresh_ne (e ∷ es) j h = ground (arith, lookup-refresh_ne es j h)

  pub is_known-refresh :
      (es : List CacheEntry) (j : ℕ) → is_known j (refresh now ip4 mac es) ≡ is_known j es
  unfolding refresh is_known
  is_known-refresh [] j = refl
  is_known-refresh (e ∷ es) j = ground (arith, is_known-refresh es j)

  pub refresh-Distinct : (es : List CacheEntry) → Distinct es → Distinct (refresh now ip4 mac es)
  unfolding refresh
  refresh-Distinct [] d = tt
  refresh-Distinct (e ∷ es) d =
      ground (arith, refresh-Distinct es d.1, is_known-refresh es e.ip4, d.0)

pub lookup-unknown :
    (j : ℕ) (es : List CacheEntry) → is_known j es ≡ false → lookup_entries j es ≡ none
unfolding lookup_entries is_known
lookup-unknown j [] h = refl
lookup-unknown j (e ∷ es) h = ground (arith, lookup-unknown j es)

module _ (v : CacheEntry) where
  pub lookup-set_self :
      (es : List CacheEntry) (i : ℕ)
      → v.valid ≡ true
      → is_known v.ip4 es ≡ false
      → i < length es
      → lookup_entries v.ip4 (set es i v) ≡ some v.mac
  unfolding lookup_entries is_known
  lookup-set_self [] i a u h = absurd (omega arith)
  lookup-set_self (e ∷ es) zero a u h = ground (arith, ==_refl v.ip4)
  lookup-set_self (e ∷ es) (suc i) a u h = ground (arith, lookup-set_self es i a)

  -- Overwriting an entry drops the mapping that it held and no other.
  pub lookup-set_ne :
      (es : List CacheEntry) (i j : ℕ)
      → j ≢ v.ip4
      → Distinct es
      → (lookup_entries j (set es i v) ≡ lookup_entries j es)
        ⊎ ((e : CacheEntry) × (get_elem? es i ≡ some e)
            × (holds j e ≡ true)
            × (lookup_entries j (set es i v) ≡ none))
  unfolding lookup_entries
  lookup-set_ne [] i j h d = inl refl
  lookup-set_ne (e ∷ es) zero j h d = elim (Bool-cases (holds j e)) [
    | inl held ↦ inr (e, refl, held, ground (arith, d.0, lookup-unknown j es))
    | inr other ↦ inl (ground arith)
  ]
  lookup-set_ne (e ∷ es) (suc i) j h d = elim (Bool-cases (holds j e)) [
    | inl held ↦ inl (ground arith)
    | inr other ↦ elim (lookup-set_ne es i j h d.1) [
      | inl same ↦ inl (ground arith)
      | inr (x, at, held, gone) ↦ inr (x, at, held, ground arith)
    ]
  ]

  is_known-set :
      (es : List CacheEntry) (i j : ℕ)
      → j ≢ v.ip4
      → is_known j es ≡ false
      → is_known j (set es i v) ≡ false
  unfolding is_known
  is_known-set [] i j h k = refl
  is_known-set (e ∷ es) zero j h k = ground arith
  is_known-set (e ∷ es) (suc i) j h k = ground (arith, is_known-set es i j h)

  pub set-Distinct :
      (es : List CacheEntry) (i : ℕ)
      → is_known v.ip4 es ≡ false
      → Distinct es
      → Distinct (set es i v)
  unfolding is_known
  set-Distinct [] i u d = tt
  set-Distinct (e ∷ es) zero u d = (λ _. ground arith, d.1)
  set-Distinct (e ∷ es) (suc i) u d = (
    λ a. is_known-set es i e.ip4 (λ q. ground arith) (d.0 a),
    set-Distinct es i (ground arith) d.1,
  )

-- A free entry is found exactly when one is not valid.
pub last_free-none :
    (i : ℕ) (es : List CacheEntry) → (last_free i es ≡ none) ↔ Every (λ e. e.valid ≡ true) es
unfolding last_free
last_free-none i [] = (λ _. tt, λ _. refl)
last_free-none i (e ∷ es) = elim (Option-cases (last_free (i + 1) es)) [
  | inl h ↦ (λ q. (ground arith, (last_free-none (i + 1) es).0 h), λ q. ground arith)
  | inr (pos, h) ↦
      (λ q. absurd (ground arith), λ q. absurd (ground (arith, (last_free-none (i + 1) es).1 q.1)))
]
