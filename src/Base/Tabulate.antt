-- ===== src/Base/Tabulate.antt =====
-- Lists given by their entries: `memcpy` and circular indices are compared entry by entry.
use mathlib.Core.List.{List, [], ◌∷◌, ◌++◌}
use mathlib.Core.Path.{◌≡◌, refl, ap, ap₂, ◌∙◌}
use mathlib.Core.Logic.{inl, inr}
use Prim.Native.Nat.{ℕ, zero, suc, ◌+◌, ◌-◌, ◌%◌, ◌≤◌, ◌<◌}
use native.Mathlib.Nat.{mod-eq_of_lt, mod-eq-sub-mod, suc-add}
use native.Mathlib.Omega.{arith}
use network_lab.Base.Tests.{ltb, if◌then◌else◌, Bool-cases, ltb→lt}
use network_lab.Base.Lists.{
  length, get_or, set, take, drop, length-drop, length-set, get_or-set_self, get_or-set_ne,
}

module _ {ℓ} {A : Type ℓ} where
  -- f i ∷ f (i + 1) ∷ …, n entries
  unfoldable pub tabulate_from : ℕ → ℕ → (ℕ → A) → List A
  tabulate_from i zero f = []
  tabulate_from i (suc n) f = f i ∷ tabulate_from (i + 1) n f

  pub length-tabulate_from : (i n : ℕ) (f : ℕ → A) → length (tabulate_from i n f) ≡ n
  unfolding tabulate_from
  length-tabulate_from i zero f = refl
  length-tabulate_from i (suc n) f = ap suc (length-tabulate_from (i + 1) n f)

  -- Two tables whose entries agree at the same offset are equal.
  pub tabulate_ext :
      (i j n : ℕ) (f g : ℕ → A)
      → ((k : ℕ) → k < n → f (i + k) ≡ g (j + k))
      → tabulate_from i n f ≡ tabulate_from j n g
  unfolding tabulate_from
  tabulate_ext i j zero f g h = refl
  tabulate_ext i j (suc n) f g h = ap₂ ◌∷◌ head (tabulate_ext (i + 1) (j + 1) n f g rest)
    where
      head : f i ≡ g j
      head = ap f (omega arith) ∙ h 0 (omega arith) ∙ ap g (omega arith)

      rest : (k : ℕ) → k < n → f (i + 1 + k) ≡ g (j + 1 + k)
      rest k hk = ap f (omega arith) ∙ h (suc k) (omega arith) ∙ ap g (omega arith)

  pub tabulate-append :
      (i m n : ℕ) (f : ℕ → A)
      → tabulate_from i (m + n) f ≡ tabulate_from i m f ++ tabulate_from (i + m) n f
  unfolding tabulate_from
  tabulate-append i zero n f = ap₂ (λ k s. tabulate_from s k f) (omega arith) (omega arith)
  tabulate-append i (suc m) n f = rw suc-add (
      ap (◌∷◌ (f i)) (
        tabulate-append (i + 1) m n f
        ∙ ap (λ s. tabulate_from (i + 1) m f ++ tabulate_from s n f) (omega arith)))

  pub get_or-drop : (xs : List A) (s k : ℕ) (d : A) → get_or (drop s xs) k d ≡ get_or xs (s + k) d
  get_or-drop xs zero k d = ap (λ j. get_or xs j d) (omega arith)
  get_or-drop [] (suc s) k d = refl
  get_or-drop (x ∷ xs) (suc s) k d = rw suc-add (get_or-drop xs s k d)

  take-tabulate :
      (n : ℕ) (xs : List A) (d : A)
      → n ≤ length xs
      → take n xs ≡ tabulate_from 0 n (λ j. get_or xs j d)
  unfolding tabulate_from
  take-tabulate zero xs d h = refl
  take-tabulate (suc n) [] d h = absurd (omega arith)
  take-tabulate (suc n) (x ∷ xs) d h =
      ap (◌∷◌ x)
        (take-tabulate n xs d (omega arith) ∙ tabulate_ext 0 (0 + 1) n _ _ (λ k hk. shift k))
    where
      shift : (k : ℕ) → get_or xs (0 + k) d ≡ get_or (x ∷ xs) (0 + 1 + k) d
      shift k = rw suc-add (ap (λ j. get_or xs j d) (omega arith))

  -- The bytes that `memcpy` reads from offset `s`.
  pub slice-tabulate :
      (xs : List A) (s n : ℕ) (d : A)
      → s + n ≤ length xs
      → take n (drop s xs) ≡ tabulate_from s n (λ j. get_or xs j d)
  slice-tabulate xs s n d h =
      take-tabulate n (drop s xs) d (omega (arith, length-drop s xs))
      ∙ tabulate_ext 0 s n _ _
          (λ k hk. get_or-drop xs s (0 + k) d ∙ ap (λ j. get_or xs (s + j) d) (omega arith))

  pub get_or-append :
      (xs ys : List A) (j : ℕ) (d : A)
      → get_or (xs ++ ys) j d
        ≡ (if ltb j (length xs) then get_or xs j d else get_or ys (j - length xs) d)
  get_or-append [] ys j d = ground arith
  get_or-append (x ∷ xs) ys zero d = ground arith
  get_or-append (x ∷ xs) ys (suc j) d = ground (arith, get_or-append xs ys j d)

  pub get_or-take :
      (n : ℕ) (xs : List A) (k : ℕ) (d : A) → k < n → get_or (take n xs) k d ≡ get_or xs k d
  get_or-take zero xs k d h = absurd (omega arith)
  get_or-take (suc n) [] k d h = refl
  get_or-take (suc n) (x ∷ xs) zero d h = refl
  get_or-take (suc n) (x ∷ xs) (suc k) d h = get_or-take n xs k d (omega arith)

  pub take-append_length : (n : ℕ) (xs ys : List A) → length xs ≡ n → take n (xs ++ ys) ≡ xs
  take-append_length zero [] ys h = refl
  take-append_length zero (x ∷ xs) ys h = absurd (omega arith)
  take-append_length (suc n) [] ys h = absurd (omega arith)
  take-append_length (suc n) (x ∷ xs) ys h = ap (◌∷◌ x) (take-append_length n xs ys (omega arith))

  pub drop-append_length : (n : ℕ) (xs ys : List A) → length xs ≡ n → drop n (xs ++ ys) ≡ ys
  drop-append_length zero [] ys h = refl
  drop-append_length zero (x ∷ xs) ys h = absurd (omega arith)
  drop-append_length (suc n) [] ys h = absurd (omega arith)
  drop-append_length (suc n) (x ∷ xs) ys h = drop-append_length n xs ys (omega arith)

  -- `memcpy` of `src` to offset `at` of `buf`.
  unfoldable pub copy_to : List A → ℕ → List A → List A
  copy_to buf at [] = buf
  copy_to buf at (x ∷ src) = copy_to (set buf at x) (at + 1) src

  pub length-copy_to : (src buf : List A) (at : ℕ) → length (copy_to buf at src) ≡ length buf
  unfolding copy_to
  length-copy_to [] buf at = refl
  length-copy_to (x ∷ src) buf at = length-copy_to src (set buf at x) (at + 1) ∙ length-set buf at x

  -- What stands before the copied bytes is unchanged.
  pub get_or-copy_to_before :
      (src buf : List A) (at j : ℕ) (d : A)
      → j < at
      → get_or (copy_to buf at src) j d ≡ get_or buf j d
  unfolding copy_to
  get_or-copy_to_before [] buf at j d h = refl
  get_or-copy_to_before (x ∷ src) buf at j d h =
      get_or-copy_to_before src (set buf at x) (at + 1) j d (omega arith)
      ∙ get_or-set_ne buf at j x d (omega arith)

  -- What stands behind the copied bytes is unchanged.
  pub get_or-copy_to_behind :
      (src buf : List A) (at j : ℕ) (d : A)
      → at + length src ≤ j
      → get_or (copy_to buf at src) j d ≡ get_or buf j d
  unfolding copy_to
  get_or-copy_to_behind [] buf at j d h = refl
  get_or-copy_to_behind (x ∷ src) buf at j d h =
      get_or-copy_to_behind src (set buf at x) (at + 1) j d (omega arith)
      ∙ get_or-set_ne buf at j x d (omega arith)

  -- The copied bytes stand at `at` and behind.
  pub get_or-copy_to_in :
      (src buf : List A) (at k : ℕ) (d : A)
      → k < length src
      → at + length src ≤ length buf
      → get_or (copy_to buf at src) (at + k) d ≡ get_or src k d
  unfolding copy_to
  get_or-copy_to_in [] buf at k d h fits = absurd (omega arith)
  get_or-copy_to_in (x ∷ src) buf at zero d h fits =
      ap (λ j. get_or (copy_to (set buf at x) (at + 1) src) j d) (omega arith)
      ∙ get_or-copy_to_before src (set buf at x) (at + 1) at d (omega arith)
      ∙ get_or-set_self buf at x d (omega arith)
  get_or-copy_to_in (x ∷ src) buf at (suc k) d h fits =
      ap (λ j. get_or (copy_to (set buf at x) (at + 1) src) j d) (omega arith)
      ∙ get_or-copy_to_in src (set buf at x) (at + 1) k d (omega arith)
          (omega (arith, length-set buf at x))

-- One step round a ring: an index below twice the size.
pub mod_wrap : (x n : ℕ) → x < n + n → x % n ≡ (if ltb x n then x else x - n)
mod_wrap x n h = elim (Bool-cases (ltb x n)) [
  | inl lt ↦ rw lt (mod-eq_of_lt (ltb→lt x n lt))
  | inr ge ↦ rw ge (mod-eq-sub-mod {n = x} {m = n} (ground arith) ∙ mod-eq_of_lt (ground arith))
]
