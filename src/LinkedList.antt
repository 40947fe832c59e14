-- ===== src/LinkedList.antt =====
-- 16-tcp_data_transfer/include/list.h: the nodes by their addresses in a store, each with its two
-- pointers, so that a node may be its own neighbour. `none` is a fault: an address where no node is,
-- or no fuel. An entry is the address of its node, which is what list_entry computes back and forth.
pub mod Chain
pub mod Store
pub mod Refine
pub mod Run
pub mod Loop
mod Tests
use network_lab.Base.{
  ℕ, zero, suc, Bool, List, [], ◌∷◌, Option, none, some, ◌==◌, if◌then◌else◌, ◌>>=◌, update,
}

pub record ListHead : Type 0 where
  pub next : ℕ
  pub prev : ℕ

abbrev pub Store : Type 0
Store = ℕ → Option ListHead

-- `a->next = v` and `a->prev = v`.
set_next : ℕ → ℕ → Store → Option Store
set_next a v h = h a >>= λ n. some (update h a (some (record n { next = v })))

set_prev : ℕ → ℕ → Store → Option Store
set_prev a v h = h a >>= λ n. some (update h a (some (record n { prev = v })))

list_empty : ℕ → Store → Option Bool
list_empty list h = h list >>= λ n. some (n.next == list)

pub init_list_head : ℕ → Store → Option Store
init_list_head list h = set_prev list list h >>= set_next list list

pub list_insert : ℕ → ℕ → ℕ → Store → Option Store
list_insert new prev next h = set_prev next new h >>= λ h₁.
    set_next prev new h₁ >>= λ h₂. set_next new next h₂ >>= λ h₃. set_prev new prev h₃

pub list_add_head : ℕ → ℕ → Store → Option Store
list_add_head new head h = h head >>= λ n. list_insert new head n.next h

pub list_add_tail : ℕ → ℕ → Store → Option Store
list_add_tail new head h = h head >>= λ n. list_insert new n.prev head h

pub list_delete_entry : ℕ → Store → Option Store
list_delete_entry entry h = h entry >>= λ n.
    set_prev n.next n.prev h >>= λ h₁. h₁ entry >>= λ n₁. set_next n₁.prev n₁.next h₁

-- The loop from `pos` on, with a body that changes no pointer: the entries it comes to.
pub each_from : ℕ → ℕ → ℕ → Store → Option (List ℕ)
each_from zero head pos h = none
each_from (suc fuel) head pos h =
    let rest = h pos >>= λ n. each_from fuel head n.next h in
    if pos == head then some [] else (rest >>= λ entries. some (pos ∷ entries))

pub list_for_each_entry : ℕ → ℕ → Store → Option (List ℕ)
list_for_each_entry fuel head h = h head >>= λ n. each_from fuel head n.next h

-- The loop with the next entry at hand in `q`, so that the body may delete `pos`.
pub safe_from : ℕ → (ℕ → Store → Option Store) → ℕ → ℕ → ℕ → Store → Option Store
safe_from zero body head pos q h = none
safe_from (suc fuel) body head pos q h =
    let rest = body pos h >>= λ h'. h' q >>= λ n. safe_from fuel body head q n.next h' in
    if pos == head then some h else rest

pub list_for_each_entry_safe : ℕ → (ℕ → Store → Option Store) → ℕ → Store → Option Store
list_for_each_entry_safe fuel body head h =
    h head >>= λ n. h n.next >>= λ n'. safe_from fuel body head n.next n'.next h
