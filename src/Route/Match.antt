-- ===== src/Route/Match.antt =====
-- What longest_prefix_match selects.
use network_lab.Base.{
  ℕ, ◌≤◌, ◌<◌, ◌≡◌, refl, ap, true, false, ◌⊎◌, inl, inr, List, [], ◌∷◌, ◌++◌, none, some, arith,
  ltb, Bool-cases, Every, Option, ◌&&◌, if◌then◌else◌, ◌∙◌,
}
use network_lab.Route.{
  RtEntry, add_rt_entry, matches, is_better, select_longest, longest_prefix_match,
}

-- The first of the entries with the longest mask among those that match.
pub record Longest (dst : ℕ) (rtable : List RtEntry) (e : RtEntry) : Type 0 where
  pub before : List RtEntry
  pub after : List RtEntry
  pub place : rtable ≡ before ++ e ∷ after
  pub fits : matches e dst ≡ true
  pub shorter : Every (λ f. matches f dst ≡ true → f.mask < e.mask) before
  pub not_longer : Every (λ f. matches f dst ≡ true → f.mask ≤ e.mask) after

Longest-cons :
    {dst : ℕ} {rest : List RtEntry} {e : RtEntry} (x : RtEntry)
    → (matches x dst ≡ true → x.mask < e.mask)
    → Longest dst rest e
    → Longest dst (x ∷ rest) e
Longest-cons x h l = record {
  before = x ∷ l.before;
  after = l.after;
  place = ap (◌∷◌ x) l.place;
  fits = l.fits;
  shorter = (h, l.shorter);
  not_longer = l.not_longer;
}

module _ (dst : ℕ) where
  -- The loop keeps the entry `s` if nothing of the rest is longer, and otherwise selects from the rest.
  abbrev Outcome : RtEntry → List RtEntry → Type 0
  Outcome s rest =
      ((select_longest dst (some s) rest ≡ some s)
        × Every (λ f. matches f dst ≡ true → f.mask ≤ s.mask) rest)
      ⊎ ((e : RtEntry) × (select_longest dst (some s) rest ≡ some e)
          × (s.mask < e.mask)
          × Longest dst rest e)

  keep_on :
      (s x : RtEntry) (rest : List RtEntry)
      → (matches x dst ≡ true → x.mask ≤ s.mask)
      → (select_longest dst (some s) (x ∷ rest) ≡ select_longest dst (some s) rest)
      → Outcome s rest
      → Outcome s (x ∷ rest)
  keep_on s x rest h step (inl (e, all)) = inl (rw step e, (h, all))
  keep_on s x rest h step (inr (f, e, lt, l)) =
      inr (f, rw step e, lt, Longest-cons x (λ m. omega (arith, h m)) l)

  take_up :
      (s x : RtEntry) (rest : List RtEntry)
      → matches x dst ≡ true
      → s.mask < x.mask
      → (select_longest dst (some s) (x ∷ rest) ≡ select_longest dst (some x) rest)
      → Outcome x rest
      → Outcome s (x ∷ rest)
  take_up s x rest m lt step (inl (e, all)) = inr (
    x,
    rw step e,
    lt,
    record { before = []; after = rest; place = refl; fits = m; shorter = tt; not_longer = all },
  )
  take_up s x rest m lt step (inr (f, e, lt', l)) =
      inr (f, rw step e, omega arith, Longest-cons x (λ _. lt') l)

  select_some : (s : RtEntry) (rest : List RtEntry) → Outcome s rest
  unfolding select_longest is_better
  select_some s [] = inl (refl, tt)
  select_some s (x ∷ rest) = elim (Bool-cases (matches x dst)) [
    | inr miss ↦ keep_on s x rest (λ m. cc) (rw miss refl) (select_some s rest)
    | inl hit ↦ elim (Bool-cases (ltb s.mask x.mask)) [
      | inl longer ↦
          take_up s x rest hit (ground arith) (rw (hit, longer) refl) (select_some x rest)
      | inr shorter ↦
          keep_on s x rest (λ m. ground arith) (rw (hit, shorter) refl) (select_some s rest)
    ]
  ]

  select_none :
      (rtable : List RtEntry)
      → ((select_longest dst none rtable ≡ none) × Every (λ f. matches f dst ≡ false) rtable)
        ⊎ ((e : RtEntry) × (select_longest dst none rtable ≡ some e) × Longest dst rtable e)
  unfolding select_longest is_better
  select_none [] = inl (refl, tt)
  select_none (x ∷ rest) = elim (Bool-cases (matches x dst)) [
    | inr miss ↦ skip miss (select_none rest)
    | inl hit ↦ first hit (select_some x rest)
  ]
    where
      skip :
          matches x dst ≡ false
          → ((select_longest dst none rest ≡ none) × Every (λ f. matches f dst ≡ false) rest)
            ⊎ ((e : RtEntry) × (select_longest dst none rest ≡ some e) × Longest dst rest e)
          → ((select_longest dst none (x ∷ rest) ≡ none)
              × Every (λ f. matches f dst ≡ false) (x ∷ rest))
            ⊎ ((e : RtEntry) × (select_longest dst none (x ∷ rest) ≡ some e)
                × Longest dst (x ∷ rest) e)
      skip miss (inl (e, all)) = inl (rw miss e, (miss, all))
      skip miss (inr (f, e, l)) = inr (f, rw miss e, Longest-cons x (λ m. cc) l)

      first :
          matches x dst ≡ true
          → Outcome x rest
          → ((select_longest dst none (x ∷ rest) ≡ none)
              × Every (λ f. matches f dst ≡ false) (x ∷ rest))
            ⊎ ((e : RtEntry) × (select_longest dst none (x ∷ rest) ≡ some e)
                × Longest dst (x ∷ rest) e)
      first hit (inl (e, all)) = inr (
        x,
        rw hit e,
        record {
          before = [];
          after = rest;
          place = refl;
          fits = hit;
          shorter = tt;
          not_longer = all;
        },
      )
      first hit (inr (f, e, lt, l)) = inr (f, rw hit e, Longest-cons x (λ _. lt) l)

-- The lookup finds nothing exactly when no entry matches; otherwise it returns the first of the
-- matching entries with the longest mask.
pub longest_prefix_match_lem :
    (rtable : List RtEntry) (dst : ℕ)
    → ((longest_prefix_match rtable dst ≡ none) × Every (λ f. matches f dst ≡ false) rtable)
      ⊎ ((e : RtEntry) × (longest_prefix_match rtable dst ≡ some e) × Longest dst rtable e)
unfolding longest_prefix_match
longest_prefix_match_lem rtable dst = select_none dst rtable

select_longest-append :
    (dst : ℕ) (xs ys : List RtEntry) (s : Option RtEntry)
    → select_longest dst s (xs ++ ys) ≡ select_longest dst (select_longest dst s xs) ys
unfolding select_longest
select_longest-append dst [] ys s = refl
select_longest-append dst (x ∷ xs) ys s =
    select_longest-append dst xs ys
      (if matches x dst then (if is_better s x then some x else s) else s)

-- A new entry is selected where it matches and nothing matched before, or only entries with shorter
-- masks; every other destination keeps its entry.
longest_prefix_match-add :
    (rtable : List RtEntry) (entry : RtEntry) (dst : ℕ)
    → longest_prefix_match (add_rt_entry rtable entry) dst ≡ (
        if matches entry dst && is_better (longest_prefix_match rtable dst) entry
        then some entry
        else longest_prefix_match rtable dst)
unfolding longest_prefix_match add_rt_entry select_longest
longest_prefix_match-add rtable entry dst =
    select_longest-append dst rtable (entry ∷ []) none ∙ ground arith
