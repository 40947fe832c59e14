-- ===== src/Base/Options.antt =====
-- Chains of fallible steps.
use mathlib.Core.Option
use mathlib.Core.Option.{Option, none, some, some-injective, none-ne-some}
use mathlib.Core.Path.{◌≡◌, refl, sym, subst, ◌∙◌}

infixl 5 ◌>>=◌ ◌>>◌
abbrev pub ◌>>=◌ {ℓ κ} : {A : Type ℓ} {B : Type κ} → Option A → (A → Option B) → Option B
none >>= f = none
some a >>= f = f a

abbrev pub ◌>>◌ {ℓ κ} : {A : Type ℓ} {B : Type κ} → Option A → Option B → Option B
m >> k = m >>= λ _. k

-- The first of two that there is.
infixr 6 ◌<|>◌
abbrev pub ◌<|>◌ {ℓ} : {A : Type ℓ} → Option A → Option A → Option A
none <|> o = o
some a <|> o = some a

-- A step that refines another one, and continuations that agree on what it returns.
pub bind-map {ℓ κ μ} :
    {A : Type ℓ} {B : Type κ} {C : Type μ} (o : Option A) (f : A → B) (g : A → Option C)
    (h : B → Option C)
    → ((a : A) → o ≡ some a → g a ≡ h (f a))
    → (o >>= g) ≡ (Option.map f o >>= h)
bind-map none f g h e = refl
bind-map (some a) f g h e = e a refl

-- What holds of one result of a computation holds of the other, which is the same.
pub at_some {ℓ κ} :
    {A : Type ℓ} (P : A → Type κ) {o : Option A} {x y : A} → o ≡ some x → o ≡ some y → P x → P y
at_some P {x = x} {y = y} h e p = subst P (some-injective x y (sym h ∙ e)) p

-- The two steps of a chain that ends.
pub bind-some {ℓ κ} :
    {A : Type ℓ} {B : Type κ} (o : Option A) {f : A → Option B} {b : B}
    → (o >>= f) ≡ some b
    → (a : A) × (o ≡ some a) × (f a ≡ some b)
bind-some none {f} {b} e = absurd (none-ne-some b e)
bind-some (some a) e = (a, refl, e)

-- A computation that ends, with a property of its result.
abbrev pub Returns {ℓ κ} : {A : Type ℓ} → Option A → (A → Type κ) → Type (ℓ ⊔ κ)
Returns {A = A} o P = (a : A) × (o ≡ some a) × P a

-- The same by recursion, which a computation that is rewritten to its result unfolds.
abbrev pub Holds {ℓ} : {A : Type ℓ} → Option A → (A → Type 0) → Type 0
Holds none P = ⊥
Holds (some a) P = P a

pub Holds→Returns {ℓ} : {A : Type ℓ} (o : Option A) (P : A → Type 0) → Holds o P → Returns o P
Holds→Returns none P h = absurd h
Holds→Returns (some a) P h = (a, refl, h)
