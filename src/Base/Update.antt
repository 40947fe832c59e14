-- ===== src/Base/Update.antt =====
-- A store as a function, changed at one place.
use Prim.Native.Nat.{ℕ}
use mathlib.Core.Path.{◌≡◌, refl, subst, fun_ext}
use mathlib.Core.Logic.{◌≢◌, inl, inr}
use mathlib.Core.List.{List, [], ◌∷◌}
use native.Mathlib.Omega.{arith}
use network_lab.Base.Tests.{◌==◌, ==_iff, Bool-cases, if◌then◌else◌}

abbrev pub update {ℓ} : {A : Type ℓ} → (ℕ → A) → ℕ → A → ℕ → A
update f i a j = if i == j then a else f j

pub update_self {ℓ} : {A : Type ℓ} (f : ℕ → A) (i : ℕ) (a : A) → update f i a i ≡ a
update_self f i a = ground arith

pub update_of_ne {ℓ} : {A : Type ℓ} (f : ℕ → A) (i j : ℕ) (a : A) → j ≢ i → update f i a j ≡ f j
update_of_ne f i j a h = ground arith

-- A list without one of its elements.
abbrev pub remove : ℕ → List ℕ → List ℕ
remove i [] = []
remove i (j ∷ js) = if j == i then remove i js else j ∷ remove i js

-- What is there already.
pub update-same {ℓ} : {A : Type ℓ} (f : ℕ → A) (i : ℕ) (a : A) → f i ≡ a → f ≡ update f i a
update-same f i a e = fun_ext (λ j. elim (Bool-cases (i == j)) [
  | inl same ↦ rw same (subst (λ j. f j ≡ a) ((==_iff i j).0 same) e)
  | inr other ↦ rw other refl
])
