-- ===== src/LinkedList/Chain.antt =====
-- Chains of pointers, the pointers of a store as a function.
use mathlib.Core.List.{reverse, reverse-cons, reverse-append, reverse-reverse}
use network_lab.Base.{
  ℕ, Every-append, ◌≡◌, ◌≢◌, refl, sym, ap, append_assoc, ◌∙◌, subst, List, [], ◌∷◌, ◌++◌, Option,
  some, Every, Every-map, update, update_self, update_of_ne,
}

-- From `a` through the nodes to `b`.
abbrev pub Chain : (ℕ → Option ℕ) → ℕ → List ℕ → ℕ → Type 0
Chain f a [] b = f a ≡ some b
Chain f a (x ∷ xs) b = (f a ≡ some x) × Chain f x xs b

abbrev pub Missing : ℕ → List ℕ → Type 0
Missing c = Every (λ x. x ≢ c)

abbrev pub Apart : List ℕ → Type 0
Apart [] = Unit
Apart (x ∷ xs) = Missing x xs × Apart xs

abbrev pub first_or : ℕ → List ℕ → ℕ
first_or a [] = a
first_or a (x ∷ xs) = x

abbrev pub last_or : ℕ → List ℕ → ℕ
last_or a [] = a
last_or a (x ∷ xs) = last_or x xs

module _ {ℓ κ} {A : Type ℓ} (P : A → Type κ) where
  pub Every-front : (xs ys : List A) → Every P (xs ++ ys) → Every P xs
  Every-front [] ys all = tt
  Every-front (x ∷ xs) ys all = (all.0, Every-front xs ys all.1)

  pub Every-back : (xs ys : List A) → Every P (xs ++ ys) → Every P ys
  Every-back [] ys all = all
  Every-back (x ∷ xs) ys all = Every-back xs ys all.1

  pub Every-reverse : (xs : List A) → Every P xs → Every P (reverse xs)
  Every-reverse [] all = tt
  Every-reverse (x ∷ xs) all =
      subst (Every P) (sym (reverse-cons x xs))
        (Every-append P (reverse xs) (x ∷ []) (Every-reverse xs all.1) (all.0, tt))

pub Apart-snoc : (xs : List ℕ) (c : ℕ) → Apart xs → Missing c xs → Apart (xs ++ (c ∷ []))
Apart-snoc [] c apart new = (tt, tt)
Apart-snoc (x ∷ xs) c apart new = (
  Every-append (λ y. y ≢ x) xs (c ∷ []) apart.0 ((λ e. new.0 (sym e)), tt),
  Apart-snoc xs c apart.1 new.1,
)

pub Apart-reverse : (xs : List ℕ) → Apart xs → Apart (reverse xs)
Apart-reverse [] apart = tt
Apart-reverse (x ∷ xs) apart =
    subst Apart (sym (reverse-cons x xs))
      (Apart-snoc (reverse xs) x (Apart-reverse xs apart.1) (Every-reverse (λ y. y ≢ x) xs apart.0))

pub Apart-drop : (xs ys : List ℕ) (e : ℕ) → Apart (xs ++ (e ∷ ys)) → Apart (xs ++ ys)
Apart-drop [] ys e apart = apart.1
Apart-drop (x ∷ xs) ys e apart = (
  Every-append (λ y. y ≢ x) xs ys (Every-front (λ y. y ≢ x) xs (e ∷ ys) apart.0)
      ((Every-back (λ y. y ≢ x) xs (e ∷ ys) apart.0).1),
  Apart-drop xs ys e apart.1,
)

last_or-append : (a c : ℕ) (xs : List ℕ) → last_or a (xs ++ (c ∷ [])) ≡ c
last_or-append a c [] = refl
last_or-append a c (x ∷ xs) = last_or-append x c xs

pub last_or-reverse : (a : ℕ) (xs : List ℕ) → last_or a (reverse xs) ≡ first_or a xs
last_or-reverse a [] = refl
last_or-reverse a (x ∷ xs) = rw (reverse-cons x xs) (last_or-append a x (reverse xs))

pub Every-last {κ} : (P : ℕ → Type κ) (a : ℕ) (xs : List ℕ) → Every P (a ∷ xs) → P (last_or a xs)
Every-last P a [] all = all.0
Every-last P a (x ∷ xs) all = Every-last P x xs all.1

pub Every-first {κ} : (P : ℕ → Type κ) (a : ℕ) (xs : List ℕ) → Every P (a ∷ xs) → P (first_or a xs)
Every-first P a [] all = all.0
Every-first P a (x ∷ xs) all = all.1.0

pub Chain-first :
    (f : ℕ → Option ℕ) (a b : ℕ) (xs : List ℕ) → Chain f a xs b → f a ≡ some (first_or b xs)
Chain-first f a b [] chain = chain
Chain-first f a b (x ∷ xs) chain = chain.0

-- A chain whose pointers are kept, but for the one of its start.
Chain-move :
    (f g : ℕ → Option ℕ) (a c b : ℕ) (xs : List ℕ)
    → Chain f a xs b
    → g c ≡ f a
    → Every (λ x. g x ≡ f x) xs
    → Chain g c xs b
Chain-move f g a c b [] chain start kept = start ∙ chain
Chain-move f g a c b (x ∷ xs) chain start kept =
    (start ∙ chain.0, Chain-move f g x x b xs chain.1 kept.0 kept.1)

pub push_first :
    (f : ℕ → Option ℕ) (a b new first : ℕ) (xs : List ℕ)
    → Chain f a xs b
    → f a ≡ some first
    → Missing a xs
    → Missing new (a ∷ xs)
    → Chain (update (update f a (some new)) new (some first)) a (new ∷ xs) b
push_first f a b new first xs chain at apart fresh =
    let g = update (update f a (some new)) new (some first) in
    (
      update_of_ne (update f a (some new)) new a (some first) fresh.0 ∙ update_self f a (some new),
      Chain-move f g a new b xs chain
          (update_self (update f a (some new)) new (some first) ∙ sym at) (kept xs apart fresh.1),
    )
  where
    kept :
        (ys : List ℕ)
        → Missing a ys
        → Missing new ys
        → Every (λ x. update (update f a (some new)) new (some first) x ≡ f x) ys
    kept [] apart fresh = tt
    kept (y ∷ ys) apart fresh = (
      update_of_ne (update f a (some new)) new y (some first) fresh.0
          ∙ update_of_ne f a y (some new) apart.0,
      kept ys apart.1 fresh.1,
    )

pub push_last :
    (f : ℕ → Option ℕ) (a b new : ℕ) (xs : List ℕ)
    → Chain f a xs b
    → Apart (a ∷ xs)
    → Missing new (a ∷ xs)
    → Chain (update (update f (last_or a xs) (some new)) new (some b)) a (xs ++ (new ∷ [])) b
push_last f a b new [] chain apart fresh = (
  update_of_ne (update f a (some new)) new a (some b) fresh.0 ∙ update_self f a (some new),
  update_self (update f a (some new)) new (some b),
)
push_last f a b new (x ∷ xs) chain apart fresh =
    let l = last_or x xs in
    (
      update_of_ne (update f l (some new)) new a (some b) fresh.0
          ∙ update_of_ne f l a (some new) (λ e. Every-last (λ y. y ≢ a) x xs apart.0 (sym e))
          ∙ chain.0,
      push_last f x b new xs chain.1 apart.1 fresh.1,
    )

pub cut :
    (f : ℕ → Option ℕ) (a b e : ℕ) (xs ys : List ℕ)
    → Chain f a (xs ++ (e ∷ ys)) b
    → Apart (a ∷ xs ++ (e ∷ ys))
    → Chain (update f (last_or a xs) (some (first_or b ys))) a (xs ++ ys) b
cut f a b e [] ys chain apart =
    Chain-move f (update f a (some (first_or b ys))) e a b ys chain.1
      (update_self f a (some (first_or b ys)) ∙ sym (Chain-first f e b ys chain.1))
      (Every-map (λ y. y ≢ a) (λ y. update f a (some (first_or b ys)) y ≡ f y) ys
        (λ y other. update_of_ne f a y (some (first_or b ys)) other) apart.0.1)
cut f a b e (x ∷ xs) ys chain apart = (
  update_of_ne f (last_or x xs) a (some (first_or b ys)) (λ same.
        Every-last (λ y. y ≢ a) x xs (Every-front (λ y. y ≢ a) (x ∷ xs) (e ∷ ys) apart.0)
          (sym same))
      ∙ chain.0,
  cut f x b e xs ys chain.1 apart.1,
)

pub Chain-middle :
    (f : ℕ → Option ℕ) (a b e : ℕ) (xs ys : List ℕ)
    → Chain f a (xs ++ (e ∷ ys)) b
    → f e ≡ some (first_or b ys)
Chain-middle f a b e [] ys chain = Chain-first f e b ys chain.1
Chain-middle f a b e (x ∷ xs) ys chain = Chain-middle f x b e xs ys chain.1

-- Pointers that are the same on the nodes of a chain.
pub Chain-kept :
    (f g : ℕ → Option ℕ) (a b : ℕ) (xs : List ℕ)
    → Chain f a xs b
    → Every (λ x. g x ≡ f x) (a ∷ xs)
    → Chain g a xs b
Chain-kept f g a b xs chain kept = Chain-move f g a a b xs chain kept.0 kept.1

pub reverse-middle :
    (e : ℕ) (xs ys : List ℕ) → reverse (xs ++ (e ∷ ys)) ≡ reverse ys ++ (e ∷ reverse xs)
reverse-middle e xs ys =
    reverse-append xs (e ∷ ys)
    ∙ ap (λ zs. zs ++ reverse xs) (reverse-cons e ys)
    ∙ append_assoc (reverse ys) (e ∷ []) (reverse xs)

pub first_or-reverse : (a : ℕ) (xs : List ℕ) → first_or a (reverse xs) ≡ last_or a xs
first_or-reverse a xs = sym (last_or-reverse a (reverse xs)) ∙ ap (last_or a) (reverse-reverse xs)

pub Apart-at : (xs ys : List ℕ) (e : ℕ) → Apart (xs ++ (e ∷ ys)) → Missing e ys
Apart-at [] ys e apart = apart.0
Apart-at (x ∷ xs) ys e apart = Apart-at xs ys e apart.1

pub cut-reverse :
    (f : ℕ → Option ℕ) (a b e : ℕ) (xs ys : List ℕ)
    → Chain f a (reverse (xs ++ (e ∷ ys))) b
    → Apart (a ∷ reverse (xs ++ (e ∷ ys)))
    → Chain (update f (first_or a ys) (some (last_or b xs))) a (reverse (xs ++ ys)) b
cut-reverse f a b e xs ys chain apart =
    let at = λ (p n : ℕ) (zs : List ℕ). Chain (update f p (some n)) a zs b in
    let cut_one : at (last_or a (reverse ys)) (first_or b (reverse xs)) (reverse ys ++ reverse xs) =
      cut f a b e (reverse ys) (reverse xs)
        (subst (λ zs. Chain f a zs b) (reverse-middle e xs ys) chain)
        (subst (λ zs. Apart (a ∷ zs)) (reverse-middle e xs ys) apart) in
    subst (λ p. at p (last_or b xs) (reverse (xs ++ ys))) (last_or-reverse a ys)
      (subst (λ n. at (last_or a (reverse ys)) n (reverse (xs ++ ys))) (first_or-reverse b xs)
        (subst (at (last_or a (reverse ys)) (first_or b (reverse xs))) (sym (reverse-append xs ys))
          cut_one))
