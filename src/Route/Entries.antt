-- ===== src/Route/Entries.antt =====
-- The table of rtable.c as a list of list.h, an entry at the address of its node: what is in memory
-- while entries come and go.
use mathlib.Core.Option
use mathlib.Core.Option.{none-ne-some}
use network_lab.Base.{
  ℕ, zero, suc, ◌≡◌, ◌≢◌, refl, true, false, sym, ◌∙◌, ap, List, [], ◌∷◌, ◌++◌, Option, none, some,
  length, ◌==◌, arith, Bool-cases, inl, inr, Every, Every-map, Returns, ◌>>=◌, if◌then◌else◌,
  update, update_self, update_of_ne,
}
use network_lab.LinkedList.{ListHead, Store, list_delete_entry}
use network_lab.LinkedList.Chain.{Missing, Apart, Every-back}
use network_lab.LinkedList.Store.{map-IsMapped}
use network_lab.LinkedList.Refine.{IsLinked, IsLocal, other_list, list_delete_entry_lem}

-- `free`: nothing is at the address.
abbrev free : ℕ → Store → Store
free a h = update h a none

remove_rt_entry : ℕ → Store → Option Store
remove_rt_entry entry h = list_delete_entry entry h >>= λ h'. some (free entry h')

-- The loop, whose body is remove_rt_entry; `none` is a fault or no fuel.
pub clear_rtable : ℕ → ℕ → Store → Option Store
clear_rtable zero rtable h = none
clear_rtable (suc fuel) rtable h = h rtable >>= λ n.
    let rest = remove_rt_entry n.next h >>= clear_rtable fuel rtable in
    if n.next == rtable then some h else rest

Missing-middle : (xs ys : List ℕ) (e : ℕ) → Apart (xs ++ (e ∷ ys)) → Missing e (xs ++ ys)
Missing-middle [] ys e apart = apart.0
Missing-middle (x ∷ xs) ys e apart = (
  (λ same. (Every-back (λ y. y ≢ x) xs (e ∷ ys) apart.0).0 (sym same)),
  Missing-middle xs ys e apart.1,
)

not_mapped : (f : ListHead → ℕ) (o : Option ListHead) → Option.map f o ≡ none → o ≡ none
not_mapped f none e = refl
not_mapped f (some n) e = absurd (none-ne-some (f n) (sym e))

-- The entry is out of the list and not in memory, and nothing that was not in memory comes back.
remove_rt_entry_lem :
    (h : Store) (rtable entry : ℕ) (xs ys : List ℕ)
    → IsLinked h rtable (xs ++ (entry ∷ ys))
    → Returns (remove_rt_entry entry h) (λ h'.
      IsLinked h' rtable (xs ++ ys)
      × (h' entry ≡ none)
      × ((c : ℕ) → Missing c (rtable ∷ xs ++ ys) → h c ≡ none → h' c ≡ none))
unfolding remove_rt_entry
remove_rt_entry_lem h rtable entry xs ys l =
    let (h', e, (l', local, kept)) = list_delete_entry_lem h rtable entry xs ys l in
    let freed : IsLocal h' (entry ∷ []) (free entry h') = record {
      nexts = λ c other.
          ap (Option.map (λ n. n.next)) (update_of_ne h' entry c none (λ s. other.0 (sym s)));
      prevs = λ c other.
          ap (Option.map (λ n. n.prev)) (update_of_ne h' entry c none (λ s. other.0 (sym s)));
    } in
    let aside : Every (λ c. Missing c (entry ∷ [])) (rtable ∷ xs ++ ys) =
      Every-map (λ c. c ≢ entry) (λ c. Missing c (entry ∷ [])) (rtable ∷ xs ++ ys)
        (λ c other. ((λ s. other (sym s)), tt)) (Missing-middle (rtable ∷ xs) ys entry l.apart) in
    (
      free entry h',
      rw e refl,
      (
        other_list h' (free entry h') (entry ∷ []) rtable (xs ++ ys) freed aside l',
        update_self h' entry none,
        λ c missing gone. elim (Bool-cases (entry == c)) [
          | inl same ↦ rw same refl
          | inr other ↦ rw other (
              not_mapped (λ n. n.next) (h' c)
                (local.nexts c missing ∙ ap (Option.map (λ n. n.next)) gone))
        ],
      ),
    )

-- The loop ends without a fault, no entry is used after it is freed, the table is empty, and every
-- entry that it had is freed.
pub clear_rtable_lem :
    (h : Store) (rtable : ℕ) (xs : List ℕ)
    → IsLinked h rtable xs
    → Returns (clear_rtable (suc (length xs)) rtable h) (λ h'.
      IsLinked h' rtable []
      × Every (λ entry. h' entry ≡ none) xs
      × ((c : ℕ) → Missing c (rtable ∷ xs) → h c ≡ none → h' c ≡ none))
unfolding clear_rtable
clear_rtable_lem h rtable [] l =
    let (n, at, to_first) = map-IsMapped (λ n. n.next) rtable (h rtable) l.nexts in
    let done : (n.next == rtable) ≡ true = ground (arith, to_first) in
    (h, rw (at, done) refl, (l, tt, λ c missing gone. gone))
clear_rtable_lem h rtable (x ∷ xs) l =
    let (n, at, to_first) = map-IsMapped (λ n. n.next) x (h rtable) l.nexts.0 in
    let goes_on : (x == rtable) ≡ false = ground (arith, l.apart.0.0) in
    let (h₁, e₁, (l₁, freed, still)) = remove_rt_entry_lem h rtable x [] xs l in
    let (h₂, e₂, (l₂, all_freed, still')) = clear_rtable_lem h₁ rtable xs l₁ in
    (
      h₂,
      rw (at, to_first, goes_on, e₁) e₂,
      (
        l₂,
        (still' x ((λ e. l.apart.0.0 (sym e)), l.apart.1.0) freed, all_freed),
        λ c missing gone. still' c (missing.0, missing.1.1) (still c (missing.0, missing.1.1) gone),
      ),
    )
