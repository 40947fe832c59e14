-- ===== src/Arp/Insert.antt =====
-- arpcache_insert on the table of mappings.
use network_lab.Base.{
  ℕ, ◌%◌, ◌≡◌, ◌≢◌, ◌↔◌, refl, ◌∙◌, true, false, ◌⊎◌, inl, inr, List, none, some, arith, set,
  get_elem?, Bool-cases, Option-cases, Every, length-set, at_some,
}
use network_lab.Packet.{Mac}
use network_lab.Arp.{
  CacheEntry, holds, lookup_entries, refresh, is_known, last_free, insert_entry, max_arp_size,
}
use network_lab.Arp.Lookup.{
  IsTable, length-refresh, refresh_unknown, lookup-refresh_self, lookup-refresh_ne,
  refresh-Distinct, lookup-set_self, lookup-set_ne, set-Distinct, last_free-none,
}

module _ (now rand ip4 : ℕ) (mac : Mac) (es : List CacheEntry) where
  abbrev new_entry : CacheEntry
  new_entry = record { ip4 = ip4; mac = mac; added = now; valid = true }

  -- An insertion refreshes, or overwrites the random slot, or writes out of bounds.
  insert_cases :
      ((is_known ip4 es ≡ true)
        × (insert_entry now rand ip4 mac es ≡ some (refresh now ip4 mac es)))
      ⊎ ((is_known ip4 es ≡ false)
          × (¬ Every (λ e. e.valid ≡ true) es)
          × (insert_entry now rand ip4 mac es ≡ some (set es (rand % max_arp_size) new_entry)))
      ⊎ ((is_known ip4 es ≡ false)
          × Every (λ e. e.valid ≡ true) es
          × (insert_entry now rand ip4 mac es ≡ none))
  unfolding insert_entry
  insert_cases = elim (Bool-cases (is_known ip4 es)) [
    | inl known ↦ inl (known, rw known refl)
    | inr unknown ↦ elim (Option-cases (last_free 0 es)) [
      | inl full ↦ inr (inr (unknown, (last_free-none 0 es).0 full, rw (unknown, full) refl))
      | inr (pos, free) ↦ inr (
          inl (
            unknown,
            λ all. let full : last_free 0 es ≡ none = (last_free-none 0 es).1 all in cc,
            rw (unknown, free, refresh_unknown now ip4 mac es unknown) refl,
          ))
    ]
  ]

  -- What an insertion leaves behind.
  pub record Inserted (es' : List CacheEntry) : Type 0 where
    pub table : IsTable es'
    pub found : lookup_entries ip4 es' ≡ some mac
    pub others :
        (j : ℕ)
        → j ≢ ip4
        → (lookup_entries j es' ≡ lookup_entries j es)
          ⊎ ((e : CacheEntry) × (get_elem? es (rand % max_arp_size) ≡ some e)
              × (holds j e ≡ true)
              × (lookup_entries j es' ≡ none))

  refreshed : IsTable es → is_known ip4 es ≡ true → Inserted (refresh now ip4 mac es)
  refreshed t known = record {
    table = record {
      full_size = length-refresh now ip4 mac es ∙ t.full_size;
      distinct = refresh-Distinct now ip4 mac es t.distinct;
    };
    found = lookup-refresh_self now ip4 mac es known;
    others = λ j h. inl (lookup-refresh_ne now ip4 mac es j h);
  }

  replaced :
      IsTable es → is_known ip4 es ≡ false → Inserted (set es (rand % max_arp_size) new_entry)
  replaced t unknown = record {
    table = record {
      full_size = length-set es (rand % max_arp_size) new_entry ∙ t.full_size;
      distinct = set-Distinct new_entry es (rand % max_arp_size) unknown t.distinct;
    };
    found =
        lookup-set_self new_entry es (rand % max_arp_size) refl unknown
          (omega (arith, t.full_size));
    others = λ j h. lookup-set_ne new_entry es (rand % max_arp_size) j h t.distinct;
  }

  -- An insertion that does not fault into a table of 32 entries without double addresses leaves such
  -- a table, in which a lookup of the address finds the new mapping, and a lookup of any other
  -- address finds what it found before, unless the slot that `rand` chose held that address: then it
  -- finds nothing.
  pub insert_entry_lem :
      {es' : List CacheEntry}
      → IsTable es
      → insert_entry now rand ip4 mac es ≡ some es'
      → Inserted es'
  insert_entry_lem t e = elim insert_cases [
    | inl (known, h) ↦ at_some Inserted h e (refreshed t known)
    | inr (inl (unknown, free, h)) ↦ at_some Inserted h e (replaced t unknown)
    | inr (inr (unknown, full, h)) ↦ cc
  ]

  -- It writes out of bounds exactly when the address is unknown and every entry is valid.
  pub insert_entry-none :
      (insert_entry now rand ip4 mac es ≡ none)
      ↔ ((is_known ip4 es ≡ false) × Every (λ e. e.valid ≡ true) es)
  insert_entry-none = elim insert_cases [
    | inl (known, h) ↦ (λ e. cc, λ q. absurd (ground arith))
    | inr (inl (unknown, free, h)) ↦ (λ e. cc, λ q. absurd (free q.1))
    | inr (inr (unknown, full, h)) ↦ (λ e. (unknown, full), λ q. h)
  ]
