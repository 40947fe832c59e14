-- ===== src/LinkedList/Store.antt =====
-- What the operations of list.h do to the pointers of a store, as functions.
use mathlib.Core.Option
use mathlib.Core.Option.{none-ne-some, some-injective}
use network_lab.Base.{
  ℕ, ◌≡◌, refl, sym, ◌∙◌, ap, fun_ext, Option, none, some, ◌==◌, ==_iff, Bool-cases, inl, inr,
  Returns, update, update_of_ne, ◌≢◌,
}
use network_lab.LinkedList.{
  ListHead, Store, set_next, set_prev, list_insert, list_delete_entry, init_list_head,
}

-- One of the two pointers of every node.
abbrev pub field_of : (ListHead → ℕ) → Store → ℕ → Option ℕ
field_of f h a = Option.map f (h a)

abbrev pub next_of : Store → ℕ → Option ℕ
next_of = field_of (λ n. n.next)

abbrev pub prev_of : Store → ℕ → Option ℕ
prev_of = field_of (λ n. n.prev)

-- There is a node at the address.
abbrev pub IsMapped : Store → ℕ → Type 0
IsMapped h a = (n : ListHead) × (h a ≡ some n)

pub map-IsMapped :
    (f : ListHead → ℕ) (v : ℕ) (o : Option ListHead)
    → Option.map f o ≡ some v
    → (n : ListHead) × (o ≡ some n) × (f n ≡ v)
map-IsMapped f v none e = absurd (none-ne-some v e)
map-IsMapped f v (some n) e = (n, refl, some-injective (f n) v e)

-- The pointers that a step leaves behind, at the least at the same addresses.
pub record IsWritten (h : Store) (nexts' prevs' : ℕ → Option ℕ) (h' : Store) : Type 0 where
  pub nexts : next_of h' ≡ nexts'
  pub prevs : prev_of h' ≡ prevs'
  pub mapped : (c : ℕ) → IsMapped h c → IsMapped h' c

written_at :
    (f : ListHead → ℕ) (a : ℕ) (n : ListHead) (h : Store)
    → field_of f (update h a (some n)) ≡ update (field_of f h) a (some (f n))
written_at f a n h =
    fun_ext
      (λ c. elim (Bool-cases (a == c)) [ inl same ↦ rw same refl | inr other ↦ rw other refl ])

kept_at :
    (f : ListHead → ℕ) (a : ℕ) (n n' : ListHead) (h : Store)
    → h a ≡ some n
    → f n' ≡ f n
    → field_of f (update h a (some n')) ≡ field_of f h
kept_at f a n n' h at same_field = fun_ext (λ c. elim (Bool-cases (a == c)) [
  | inl same ↦ rw same (
      ap some same_field
      ∙ ap (Option.map f) (sym at)
      ∙ ap (λ d. Option.map f (h d)) ((==_iff a c).0 same))
  | inr other ↦ rw other refl
])

still_mapped :
    (a : ℕ) (n : ListHead) (h : Store) (c : ℕ) → IsMapped h c → IsMapped (update h a (some n)) c
still_mapped a n h c (m, at) = elim (Bool-cases (a == c)) [
  | inl same ↦ (n, rw same refl)
  | inr other ↦ (m, rw other at)
]

set_next_lem :
    (a v : ℕ) (h : Store)
    → IsMapped h a
    → Returns (set_next a v h) (IsWritten h (update (next_of h) a (some v)) (prev_of h))
unfolding set_next
set_next_lem a v h (n, at) = (
  update h a (some (record n { next = v })),
  rw at refl,
  record {
    nexts = written_at (λ n. n.next) a (record n { next = v }) h;
    prevs = kept_at (λ n. n.prev) a n (record n { next = v }) h at refl;
    mapped = still_mapped a (record n { next = v }) h;
  },
)

set_prev_lem :
    (a v : ℕ) (h : Store)
    → IsMapped h a
    → Returns (set_prev a v h) (IsWritten h (next_of h) (update (prev_of h) a (some v)))
unfolding set_prev
set_prev_lem a v h (n, at) = (
  update h a (some (record n { prev = v })),
  rw at refl,
  record {
    nexts = kept_at (λ n. n.next) a n (record n { prev = v }) h at refl;
    prevs = written_at (λ n. n.prev) a (record n { prev = v }) h;
    mapped = still_mapped a (record n { prev = v }) h;
  },
)

-- The two neighbours may be the same node.
pub insert_lem :
    (new prev next : ℕ) (h : Store)
    → IsMapped h new
    → IsMapped h prev
    → IsMapped h next
    → Returns (list_insert new prev next h) (
        IsWritten h
          (update (update (next_of h) prev (some new)) new (some next))
          (update (update (prev_of h) next (some new)) new (some prev)))
unfolding list_insert
insert_lem new prev next h is_new is_prev is_next =
    let (h₁, e₁, w₁) = set_prev_lem next new h is_next in
    let (h₂, e₂, w₂) = set_next_lem prev new h₁ (w₁.mapped prev is_prev) in
    let (h₃, e₃, w₃) = set_next_lem new next h₂ (w₂.mapped new (w₁.mapped new is_new)) in
    let (h₄, e₄, w₄) =
      set_prev_lem new prev h₃ (w₃.mapped new (w₂.mapped new (w₁.mapped new is_new))) in
    let nexts₂ = w₂.nexts ∙ ap (λ f. update f prev (some new)) w₁.nexts in
    let prevs₃ = w₃.prevs ∙ w₂.prevs ∙ w₁.prevs in
    (
      h₄,
      rw (e₁, e₂, e₃, e₄) refl,
      record {
        nexts = w₄.nexts ∙ w₃.nexts ∙ ap (λ f. update f new (some next)) nexts₂;
        prevs = w₄.prevs ∙ ap (λ f. update f new (some prev)) prevs₃;
        mapped = λ c is. w₄.mapped c (w₃.mapped c (w₂.mapped c (w₁.mapped c is)));
      },
    )

-- The pointers of an entry that is not its own neighbour.
pub delete_lem :
    (entry prev next : ℕ) (h : Store)
    → next_of h entry ≡ some next
    → prev_of h entry ≡ some prev
    → next ≢ entry
    → IsMapped h prev
    → IsMapped h next
    → Returns
        (list_delete_entry entry h)
        (IsWritten h (update (next_of h) prev (some next)) (update (prev_of h) next (some prev)))
unfolding list_delete_entry
delete_lem entry prev next h nexts prevs other is_prev is_next =
    let (n, at, to_next) = map-IsMapped (λ n. n.next) next (h entry) nexts in
    let to_prev : n.prev ≡ prev =
      some-injective n.prev prev (ap (Option.map (λ n. n.prev)) (sym at) ∙ prevs) in
    let (h₁, e₁, w₁) = set_prev_lem next prev h is_next in
    let (n₁, at₁, to_next₁) =
      map-IsMapped (λ n. n.next) next (h₁ entry) (ap (λ f. f entry) w₁.nexts ∙ nexts) in
    let prevs₁ : prev_of h₁ entry ≡ some prev =
      ap (λ f. f entry) w₁.prevs
      ∙ update_of_ne (prev_of h) next entry (some prev) (λ e. other (sym e))
      ∙ prevs in
    let to_prev₁ : n₁.prev ≡ prev =
      some-injective n₁.prev prev (ap (Option.map (λ n. n.prev)) (sym at₁) ∙ prevs₁) in
    let (h₂, e₂, w₂) = set_next_lem prev next h₁ (w₁.mapped prev is_prev) in
    (
      h₂,
      rw (at, to_next, to_prev, e₁, at₁, to_next₁, to_prev₁, e₂) refl,
      record {
        nexts = w₂.nexts ∙ ap (λ f. update f prev (some next)) w₁.nexts;
        prevs = w₂.prevs ∙ w₁.prevs;
        mapped = λ c is. w₂.mapped c (w₁.mapped c is);
      },
    )

-- A node by itself.
pub init_lem :
    (list : ℕ) (h : Store)
    → IsMapped h list
    → Returns
        (init_list_head list h)
        (IsWritten h (update (next_of h) list (some list)) (update (prev_of h) list (some list)))
unfolding init_list_head
init_lem list h is =
    let (h₁, e₁, w₁) = set_prev_lem list list h is in
    let (h₂, e₂, w₂) = set_next_lem list list h₁ (w₁.mapped list is) in
    (
      h₂,
      rw (e₁, e₂) refl,
      record {
        nexts = w₂.nexts ∙ ap (λ f. update f list (some list)) w₁.nexts;
        prevs = w₂.prevs ∙ w₁.prevs;
        mapped = λ c is'. w₂.mapped c (w₁.mapped c is');
      },
    )
