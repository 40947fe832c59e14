-- ===== src/LinkedList/Loop.antt =====
-- The two loops of list.h.
use mathlib.Core.Option
use mathlib.Core.Option.{some-injective}
use network_lab.Base.{
  ℕ, suc, ◌≡◌, ◌≢◌, refl, false, sym, ◌∙◌, ap, subst, Bool, List, [], ◌∷◌, ◌++◌, Option, some,
  length, append_assoc, ◌==◌, arith, Bool-cases, inl, inr, Returns, if◌then◌else◌,
}
use network_lab.LinkedList.{
  Store, list_delete_entry, each_from, safe_from, list_for_each_entry, list_for_each_entry_safe,
}
use network_lab.LinkedList.Chain.{
  Chain, Missing, first_or, Every-back, Every-first, Chain-first, Chain-middle,
}
use network_lab.LinkedList.Store.{next_of, IsMapped, map-IsMapped}
use network_lab.LinkedList.Refine.{IsLinked, Chain-IsMapped, list_delete_entry_lem}

each_from_lem :
    (h : Store) (a head : ℕ) (xs : List ℕ)
    → Chain (next_of h) a xs head
    → Missing head xs
    → each_from (suc (length xs)) head (first_or head xs) h ≡ some xs
unfolding each_from
each_from_lem h a head [] chain missing = ground arith
each_from_lem h a head (x ∷ xs) chain missing =
    let (n, at, to_next) =
      map-IsMapped (λ n. n.next) (first_or head xs) (h x)
        (Chain-first (next_of h) x head xs chain.1) in
    let other : (x == head) ≡ false = ground (arith, missing.0) in
    rw (other, at, to_next, each_from_lem h x head xs chain.1 missing.1) refl

-- The loop comes to every node of the list, in order, and ends.
list_for_each_entry_lem :
    (h : Store) (head : ℕ) (xs : List ℕ)
    → IsLinked h head xs
    → list_for_each_entry (suc (length xs)) head h ≡ some xs
unfolding list_for_each_entry
list_for_each_entry_lem h head xs l =
    let (n, at, to_first) =
      map-IsMapped (λ n. n.next) (first_or head xs) (h head)
        (Chain-first (next_of h) head head xs l.nexts) in
    rw (at, to_first) (each_from_lem h head head xs l.nexts l.apart.0)

-- A body that deletes the entries with a test, and what it leaves.
abbrev pub delete_if : (ℕ → Bool) → ℕ → Store → Option Store
delete_if test pos h = if test pos then list_delete_entry pos h else some h

abbrev pub without : (ℕ → Bool) → List ℕ → List ℕ
without test [] = []
without test (x ∷ xs) = let rest = without test xs in if test x then rest else x ∷ rest

-- `q` is the node behind the first one.
abbrev IsAhead : ℕ → List ℕ → ℕ → Type 0
IsAhead head [] q = Unit
IsAhead head (x ∷ xs) q = q ≡ first_or head xs

at_first :
    (h : Store) (head : ℕ) (kept xs : List ℕ)
    → IsLinked h head (kept ++ xs)
    → IsMapped h (first_or head xs)
at_first h head kept xs l =
    let is = Chain-IsMapped h head head (kept ++ xs) l.nexts in
    Every-first (IsMapped h) head xs (is.0, Every-back (IsMapped h) kept xs is.1)

is_ahead :
    (h : Store) (head : ℕ) (kept xs : List ℕ) (l : IsLinked h head (kept ++ xs))
    → IsAhead head xs ((at_first h head kept xs l).0.next)
is_ahead h head kept [] l = tt
is_ahead h head kept (x ∷ xs) l =
    let (n, at) = at_first h head kept (x ∷ xs) l in
    some-injective n.next (first_or head xs) (
      ap (Option.map (λ m. m.next)) (sym at) ∙ Chain-middle (next_of h) head head x kept xs l.nexts)

-- The body at the first entry that is left.
body_lem :
    (test : ℕ → Bool) (h : Store) (head x : ℕ) (kept xs : List ℕ)
    → IsLinked h head (kept ++ (x ∷ xs))
    → Returns (delete_if test x h) (λ h'.
      (kept' : List ℕ) × IsLinked h' head (kept' ++ xs)
      × (kept' ++ without test xs ≡ kept ++ without test (x ∷ xs)))
body_lem test h head x kept xs l = elim (Bool-cases (test x)) [
  | inl goes ↦
      let (h', e, (l', local, mapped)) = list_delete_entry_lem h head x kept xs l in
      (h', rw goes e, (kept, l', rw goes refl))
  | inr stays ↦ (
    h,
    rw stays refl,
    (
      kept ++ (x ∷ []),
      subst (IsLinked h head) (sym (append_assoc kept (x ∷ []) xs)) l,
      rw stays (append_assoc kept (x ∷ []) (without test xs)),
    ),
  )
]

safe_from_lem :
    (test : ℕ → Bool) (h : Store) (head q : ℕ) (kept xs : List ℕ)
    → IsLinked h head (kept ++ xs)
    → IsAhead head xs q
    → Returns
        (safe_from (suc (length xs)) (delete_if test) head (first_or head xs) q h)
        (λ h'. IsLinked h' head (kept ++ without test xs))
unfolding safe_from
safe_from_lem test h head q kept [] l ahead = (h, ground arith, l)
safe_from_lem test h head q kept (x ∷ xs) l ahead =
    let other : (x == head) ≡ false =
      ground (arith, (Every-back (λ y. y ≢ head) kept (x ∷ xs) l.apart.0).0) in
    let (h₁, e₁, (kept', l₁, same)) = body_lem test h head x kept xs l in
    let (n, at) = at_first h₁ head kept' xs l₁ in
    let (h₂, e₂, l₂) =
      safe_from_lem test h₁ head n.next kept' xs l₁ (is_ahead h₁ head kept' xs l₁) in
    (h₂, rw (other, e₁, ahead, at) e₂, subst (IsLinked h₂ head) same l₂)

-- The loop may delete the entry that it is at: with a body that deletes the entries with a test, it
-- does not fault and ends, and the list has the others, in order.
pub list_for_each_entry_safe_lem :
    (test : ℕ → Bool) (h : Store) (head : ℕ) (xs : List ℕ)
    → IsLinked h head xs
    → Returns
        (list_for_each_entry_safe (suc (length xs)) (delete_if test) head h)
        (λ h'. IsLinked h' head (without test xs))
unfolding list_for_each_entry_safe
list_for_each_entry_safe_lem test h head xs l =
    let (n, at, to_first) =
      map-IsMapped (λ n. n.next) (first_or head xs) (h head)
        (Chain-first (next_of h) head head xs l.nexts) in
    let (n', at') = at_first h head [] xs l in
    let (h', e, l') = safe_from_lem test h head n'.next [] xs l (is_ahead h head [] xs l) in
    (h', rw (at, to_first, at') e, l')
