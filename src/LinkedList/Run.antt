-- ===== src/LinkedList/Run.antt =====
-- Sequences of the operations of list.h on one list, in a store that has others.
use network_lab.Base.{
  Every-append, ℕ, ◌≡◌, ◌≢◌, refl, sym, ◌∙◌, ap, subst, List, [], ◌∷◌, ◌++◌, Option, some, ◌==◌,
  arith, Bool-cases, inl, inr, Every, Every-map, Returns, ◌>>=◌, remove,
}
use network_lab.LinkedList.{Store, list_add_head, list_add_tail, list_delete_entry}
use network_lab.LinkedList.Chain.{Missing, Apart, Every-back}
use network_lab.LinkedList.Store.{IsMapped}
use network_lab.LinkedList.Refine.{
  IsLinked, IsLocal, AreKept, other_list, list_add_head_lem, list_add_tail_lem,
  list_delete_entry_lem,
}

pub data ListOp : Type 0 where
  add_head : ℕ → ListOp
  add_tail : ℕ → ListOp
  delete : ℕ → ListOp

abbrev pub node_of : ListOp → ℕ
node_of (add_head new) = new
node_of (add_tail new) = new
node_of (delete entry) = entry

abbrev pub run_op : ℕ → ListOp → Store → Option Store
run_op head (add_head new) h = list_add_head new head h
run_op head (add_tail new) h = list_add_tail new head h
run_op head (delete entry) h = list_delete_entry entry h

abbrev pub run_ops : ℕ → List ListOp → Store → Option Store
run_ops head [] h = some h
run_ops head (op ∷ ops) h = run_op head op h >>= run_ops head ops

-- What the operations do to a list of nodes.
abbrev pub on_list : ListOp → List ℕ → List ℕ
on_list (add_head new) xs = new ∷ xs
on_list (add_tail new) xs = xs ++ (new ∷ [])
on_list (delete entry) xs = remove entry xs

abbrev pub on_lists : List ListOp → List ℕ → List ℕ
on_lists [] xs = xs
on_lists (op ∷ ops) xs = on_lists ops (on_list op xs)

-- A node that is added is in memory and not in the list; one that is deleted is in the list.
abbrev pub IsAllowed : Store → ℕ → List ℕ → ListOp → Type 0
IsAllowed h head xs (add_head new) = IsMapped h new × Missing new (head ∷ xs)
IsAllowed h head xs (add_tail new) = IsMapped h new × Missing new (head ∷ xs)
IsAllowed h head xs (delete entry) =
    (before : List ℕ) × (after : List ℕ) × (xs ≡ before ++ (entry ∷ after))

abbrev pub AreAllowed : Store → ℕ → List ℕ → List ListOp → Type 0
AreAllowed h head xs [] = Unit
AreAllowed h head xs (op ∷ ops) = IsAllowed h head xs op × AreAllowed h head (on_list op xs) ops

remove-Missing : (e : ℕ) (xs : List ℕ) → Missing e xs → remove e xs ≡ xs
remove-Missing e [] missing = refl
remove-Missing e (x ∷ xs) missing = ground (arith, missing.0, remove-Missing e xs missing.1)

remove_middle :
    (e : ℕ) (xs ys : List ℕ) → Apart (xs ++ (e ∷ ys)) → remove e (xs ++ (e ∷ ys)) ≡ xs ++ ys
remove_middle e [] ys apart = ground (arith, remove-Missing e ys apart.0)
remove_middle e (x ∷ xs) ys apart =
    let other : e ≢ x = (Every-back (λ y. y ≢ x) xs (e ∷ ys) apart.0).0 in
    ground (arith, other, remove_middle e xs ys apart.1)

Every-remove {κ} : (P : ℕ → Type κ) (e : ℕ) (xs : List ℕ) → Every P xs → Every P (remove e xs)
Every-remove P e [] all = tt
Every-remove P e (x ∷ xs) all = elim (Bool-cases (x == e)) [
  | inl same ↦ rw same (Every-remove P e xs all.1)
  | inr other ↦ rw other (all.0, Every-remove P e xs all.1)
]

run_op_lem :
    (h : Store) (head : ℕ) (xs : List ℕ) (op : ListOp)
    → IsLinked h head xs
    → IsAllowed h head xs op
    → Returns (run_op head op h) (λ h'.
      IsLinked h' head (on_list op xs) × IsLocal h (node_of op ∷ head ∷ xs) h' × AreKept h h')
run_op_lem h head xs (add_head new) l allowed =
    list_add_head_lem h head new xs l allowed.0 allowed.1
run_op_lem h head xs (add_tail new) l allowed =
    list_add_tail_lem h head new xs l allowed.0 allowed.1
run_op_lem h head xs (delete entry) l (before, after, split) =
    let l' = subst (IsLinked h head) split l in
    let (h', e, (linked, local, mapped)) = list_delete_entry_lem h head entry before after l' in
    let rest : remove entry xs ≡ before ++ after =
      ap (remove entry) split ∙ remove_middle entry before after l'.apart.1 in
    let still : (c : ℕ) → Missing c xs → Missing c (before ++ after) =
      λ c missing. subst (Missing c) rest (Every-remove (λ x. x ≢ c) entry xs missing) in
    (
      h',
      e,
      (
        subst (IsLinked h' head) (sym rest) linked,
        record {
          nexts = λ c other. local.nexts c (other.1.0, still c other.1.1);
          prevs = λ c other. local.prevs c (other.1.0, still c other.1.1);
        },
        mapped,
      ),
    )

on_list-Missing :
    (op : ListOp) (xs : List ℕ) (c : ℕ) → Missing c xs → node_of op ≢ c → Missing c (on_list op xs)
on_list-Missing (add_head new) xs c missing other = (other, missing)
on_list-Missing (add_tail new) xs c missing other =
    Every-append (λ x. x ≢ c) xs (new ∷ []) missing (other, tt)
on_list-Missing (delete entry) xs c missing other = Every-remove (λ x. x ≢ c) entry xs missing

on_list-AreAllowed :
    (h h' : Store) (head : ℕ) (xs : List ℕ) (ops : List ListOp)
    → ((c : ℕ) → IsMapped h c → IsMapped h' c)
    → AreAllowed h head xs ops
    → AreAllowed h' head xs ops
on_list-AreAllowed h h' head xs [] mapped allowed = tt
on_list-AreAllowed h h' head xs (op ∷ ops) mapped (now, later) =
    (one op now, on_list-AreAllowed h h' head (on_list op xs) ops mapped later)
  where
    one : (op : ListOp) → IsAllowed h head xs op → IsAllowed h' head xs op
    one (add_head new) (is, fresh) = (mapped new is, fresh)
    one (add_tail new) (is, fresh) = (mapped new is, fresh)
    one (delete entry) split = split

-- `c` is neither in the list nor touched by one of the operations.
abbrev pub IsAside : ℕ → List ℕ → List ListOp → ℕ → Type 0
IsAside head xs ops c = (Missing c xs × Every (λ op. node_of op ≢ c) ops) × (head ≢ c)

-- A sequence of operations, each of which adds a node that is in memory and not in the list, or
-- deletes one that is in it: none of them faults, the list at `head` becomes what they make of a
-- list of nodes, read forwards and backwards, and another list in the store, no node of which
-- is in this list or in an operation, stays as it is.
pub run_ops_lem :
    (h : Store) (head other : ℕ) (xs zs : List ℕ) (ops : List ListOp)
    → IsLinked h head xs
    → AreAllowed h head xs ops
    → IsLinked h other zs
    → Every (IsAside head xs ops) (other ∷ zs)
    → Returns (run_ops head ops h) (λ h'. IsLinked h' head (on_lists ops xs) × IsLinked h' other zs)
run_ops_lem h head other xs zs [] l allowed l' aside = (h, refl, (l, l'))
run_ops_lem h head other xs zs (op ∷ ops) l allowed l' aside =
    let (h₁, e₁, (l₁, local, mapped)) = run_op_lem h head xs op l allowed.0 in
    let l₁' =
      other_list h h₁ (node_of op ∷ head ∷ xs) other zs local
        (Every-map (IsAside head xs (op ∷ ops)) (λ c. Missing c (node_of op ∷ head ∷ xs))
          (other ∷ zs) (λ c a. (a.0.1.0, (a.1, a.0.0))) aside)
        l' in
    let aside₁ =
      Every-map (IsAside head xs (op ∷ ops)) (IsAside head (on_list op xs) ops) (other ∷ zs)
        (λ c a. ((on_list-Missing op xs c a.0.0 a.0.1.0, a.0.1.1), a.1)) aside in
    let (h₂, e₂, done) =
      run_ops_lem h₁ head other (on_list op xs) zs ops l₁
        (on_list-AreAllowed h h₁ head (on_list op xs) ops mapped allowed.1) l₁' aside₁ in
    (h₂, rw e₁ e₂, done)
