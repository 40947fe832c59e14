-- ===== src/LinkedList/Tests.antt =====
-- Two lists in one store: three nodes at 10, and a node at 20.
use network_lab.Base.{ℕ, refl, [], ◌∷◌, some, none, Returns, update, arith, ltb}
use network_lab.LinkedList.{ListHead, Store, list_for_each_entry_safe}
use network_lab.LinkedList.Refine.{IsLinked}
use network_lab.LinkedList.Run.{add_head, add_tail, delete, run_ops, on_lists, run_ops_lem}
use network_lab.LinkedList.Loop.{delete_if, without, list_for_each_entry_safe_lem}

abbrev node : ℕ → ℕ → ListHead
node next prev = record { next = next; prev = prev }

abbrev store : Store
store =
    update
      (update
        (update
          (update (update (update (λ a. none) 10 (some (node 1 3))) 1 (some (node 2 10))) 2
            (some (node 3 1)))
          3 (some (node 10 2)))
        20 (some (node 4 4)))
      4 (some (node 20 20))

-- A node in memory, in no list.
abbrev with_new : Store
with_new = update store 5 (some (node 0 0))

store-IsLinked : IsLinked with_new 10 (1 ∷ 2 ∷ 3 ∷ [])
store-IsLinked = record {
  nexts = (refl, (refl, (refl, refl)));
  prevs = (refl, (refl, (refl, refl)));
  apart = ground arith;
}

other-IsLinked : IsLinked with_new 20 (4 ∷ [])
other-IsLinked = record { nexts = (refl, refl); prevs = (refl, refl); apart = ground arith }

run_ops_lem_example :
    Returns (run_ops 10 (delete 2 ∷ add_head 5 ∷ delete 3 ∷ add_tail 2 ∷ []) with_new) (λ h'.
      IsLinked h' 10
        (on_lists (delete 2 ∷ add_head 5 ∷ delete 3 ∷ add_tail 2 ∷ []) (1 ∷ 2 ∷ 3 ∷ []))
      × IsLinked h' 20 (4 ∷ []))
run_ops_lem_example =
    run_ops_lem with_new 10 20 (1 ∷ 2 ∷ 3 ∷ []) (4 ∷ [])
      (delete 2 ∷ add_head 5 ∷ delete 3 ∷ add_tail 2 ∷ []) store-IsLinked
      (
        (1 ∷ [], 3 ∷ [], refl),
        (
          ((node 0 0, refl), ground arith),
          ((5 ∷ 1 ∷ [], [], refl), (((node 3 1, refl), ground arith), tt)),
        ),
      )
      other-IsLinked (ground arith)

list_for_each_entry_safe_lem_example :
    Returns
      (list_for_each_entry_safe 4 (delete_if (λ a. ltb a 3)) 10 with_new)
      (λ h'. IsLinked h' 10 (without (λ a. ltb a 3) (1 ∷ 2 ∷ 3 ∷ [])))
list_for_each_entry_safe_lem_example =
    list_for_each_entry_safe_lem (λ a. ltb a 3) with_new 10 (1 ∷ 2 ∷ 3 ∷ []) store-IsLinked
