-- ===== src/LinkedList/Refine.antt =====
-- The operations of list.h as operations on lists of nodes.

use mathlib.Core.List.{reverse, reverse-cons, reverse-append}
use network_lab.Base.{
  ℕ, ◌≡◌, ◌≢◌, sym, ◌∙◌, ap, subst, List, [], ◌∷◌, ◌++◌, Option, some, Every, Every-map, Returns,
  update, update_self, update_of_ne,
}
use network_lab.LinkedList.{Store, init_list_head, list_add_head, list_add_tail, list_delete_entry}
use network_lab.LinkedList.Chain.{
  Chain, Missing, Apart, first_or, last_or, Every-front, Every-back, Every-reverse, Apart-snoc,
  Apart-reverse, Apart-drop, last_or-reverse, first_or-reverse, Every-last, Every-first,
  Chain-first, Chain-middle, push_first, push_last, Chain-kept, cut, cut-reverse, Apart-at,
  reverse-middle,
}
use network_lab.LinkedList.Store.{
  next_of, prev_of, IsMapped, map-IsMapped, IsWritten, insert_lem, delete_lem, init_lem,
}

-- The nodes of the list at `head`, in their order: forwards, backwards, and no node twice.
pub record IsLinked (h : Store) (head : ℕ) (xs : List ℕ) : Type 0 where
  pub nexts : Chain (next_of h) head xs head
  pub prevs : Chain (prev_of h) head (reverse xs) head
  pub apart : Apart (head ∷ xs)

pub Chain-IsMapped :
    (h : Store) (a b : ℕ) (xs : List ℕ) → Chain (next_of h) a xs b → Every (IsMapped h) (a ∷ xs)
Chain-IsMapped h a b [] chain =
    let (n, at, e) = map-IsMapped (λ n. n.next) b (h a) chain in ((n, at), tt)
Chain-IsMapped h a b (x ∷ xs) chain =
    let (n, at, e) = map-IsMapped (λ n. n.next) x (h a) chain.0 in
    ((n, at), Chain-IsMapped h x b xs chain.1)

-- What an operation on the nodes `zs` leaves as it is.
pub record IsLocal (h : Store) (zs : List ℕ) (h' : Store) : Type 0 where
  pub nexts : (c : ℕ) → Missing c zs → next_of h' c ≡ next_of h c
  pub prevs : (c : ℕ) → Missing c zs → prev_of h' c ≡ prev_of h c

-- The addresses that have nodes keep them.
abbrev pub AreKept : Store → Store → Type 0
AreKept h h' = (c : ℕ) → IsMapped h c → IsMapped h' c

twice :
    (f : ℕ → Option ℕ) (a b c : ℕ) (u v : Option ℕ)
    → a ≢ c
    → b ≢ c
    → update (update f a u) b v c ≡ f c
twice f a b c u v a_c b_c =
    update_of_ne (update f a u) b c v (λ e. b_c (sym e)) ∙ update_of_ne f a c u (λ e. a_c (sym e))

IsWritten-IsLinked :
    {h h' : Store} {nexts prevs : ℕ → Option ℕ} (head : ℕ) (xs : List ℕ)
    → IsWritten h nexts prevs h'
    → Chain nexts head xs head
    → Chain prevs head (reverse xs) head
    → Apart (head ∷ xs)
    → IsLinked h' head xs
IsWritten-IsLinked head xs w forth back apart = record {
  nexts = subst (λ f. Chain f head xs head) (sym w.nexts) forth;
  prevs = subst (λ f. Chain f head (reverse xs) head) (sym w.prevs) back;
  apart = apart;
}

init_list_head-IsLinked :
    (list : ℕ) (h : Store)
    → IsMapped h list
    → Returns (init_list_head list h) (λ h'. IsLinked h' list [])
init_list_head-IsLinked list h is =
    let (h', e, w) = init_lem list h is in
    (
      h',
      e,
      IsWritten-IsLinked list [] w (update_self (next_of h) list (some list))
          (update_self (prev_of h) list (some list)) (tt, tt),
    )

backwards : (head : ℕ) (xs : List ℕ) → Apart (head ∷ xs) → Apart (head ∷ reverse xs)
backwards head xs apart = (Every-reverse (λ y. y ≢ head) xs apart.0, Apart-reverse xs apart.1)

pub list_add_head_lem :
    (h : Store) (head new : ℕ) (xs : List ℕ)
    → IsLinked h head xs
    → IsMapped h new
    → Missing new (head ∷ xs)
    → Returns
        (list_add_head new head h)
        (λ h'. IsLinked h' head (new ∷ xs) × IsLocal h (new ∷ head ∷ xs) h' × AreKept h h')
unfolding list_add_head
list_add_head_lem h head new xs l is_new fresh =
    let q = first_or head xs in
    let (n, at, to_first) =
      map-IsMapped (λ n. n.next) q (h head) (Chain-first (next_of h) head head xs l.nexts) in
    let is = Chain-IsMapped h head head xs l.nexts in
    let (h', e, w) = insert_lem new head q h is_new is.0 (Every-first (IsMapped h) head xs is) in
    let back =
      push_last (prev_of h) head head new (reverse xs) l.prevs (backwards head xs l.apart)
        (fresh.0, Every-reverse (λ y. y ≢ new) xs fresh.1) in
    (
      h',
      rw (at, to_first) e,
      (
        IsWritten-IsLinked head (new ∷ xs) w
            (push_first (next_of h) head head new q xs l.nexts
              (Chain-first (next_of h) head head xs l.nexts) l.apart.0 fresh)
            (subst
              (λ ys. Chain (update (update (prev_of h) q (some new)) new (some head)) head ys head)
              (sym (reverse-cons new xs))
              (subst
                (λ p.
                  Chain (update (update (prev_of h) p (some new)) new (some head)) head
                    (reverse xs ++ (new ∷ [])) head)
                (last_or-reverse head xs) back))
            (((λ e. fresh.0 (sym e)), l.apart.0), (fresh.1, l.apart.1)),
        record {
          nexts = λ c other.
              ap (λ f. f c) w.nexts
              ∙ twice (next_of h) head new c (some new) (some q) other.1.0 other.0;
          prevs = λ c other.
              ap (λ f. f c) w.prevs
              ∙ twice (prev_of h) q new c (some new) (some head)
                  (Every-first (λ y. y ≢ c) head xs other.1) other.0;
        },
        w.mapped,
      ),
    )

pub list_add_tail_lem :
    (h : Store) (head new : ℕ) (xs : List ℕ)
    → IsLinked h head xs
    → IsMapped h new
    → Missing new (head ∷ xs)
    → Returns
        (list_add_tail new head h)
        (λ h'. IsLinked h' head (xs ++ (new ∷ [])) × IsLocal h (new ∷ head ∷ xs) h' × AreKept h h')
unfolding list_add_tail
list_add_tail_lem h head new xs l is_new fresh =
    let p = last_or head xs in
    let to_last : prev_of h head ≡ some p =
      Chain-first (prev_of h) head head (reverse xs) l.prevs ∙ ap some (first_or-reverse head xs) in
    let (n, at, last) = map-IsMapped (λ n. n.prev) p (h head) to_last in
    let is = Chain-IsMapped h head head xs l.nexts in
    let (h', e, w) = insert_lem new p head h is_new (Every-last (IsMapped h) head xs is) is.0 in
    let back =
      push_first (prev_of h) head head new p (reverse xs) l.prevs to_last
        (Every-reverse (λ y. y ≢ head) xs l.apart.0)
        (fresh.0, Every-reverse (λ y. y ≢ new) xs fresh.1) in
    (
      h',
      rw (at, last) e,
      (
        IsWritten-IsLinked head (xs ++ (new ∷ [])) w
            (push_last (next_of h) head head new xs l.nexts l.apart fresh)
            (subst
              (λ ys. Chain (update (update (prev_of h) head (some new)) new (some p)) head ys head)
              (sym (reverse-append xs (new ∷ []))) back)
            (Apart-snoc (head ∷ xs) new l.apart fresh),
        record {
          nexts = λ c other.
              ap (λ f. f c) w.nexts
              ∙ twice (next_of h) p new c (some new) (some head)
                  (Every-last (λ y. y ≢ c) head xs other.1) other.0;
          prevs = λ c other.
              ap (λ f. f c) w.prevs
              ∙ twice (prev_of h) head new c (some new) (some p) other.1.0 other.0;
        },
        w.mapped,
      ),
    )

pub list_delete_entry_lem :
    (h : Store) (head entry : ℕ) (xs ys : List ℕ)
    → IsLinked h head (xs ++ (entry ∷ ys))
    → Returns
        (list_delete_entry entry h)
        (λ h'. IsLinked h' head (xs ++ ys) × IsLocal h (head ∷ xs ++ ys) h' × AreKept h h')
list_delete_entry_lem h head entry xs ys l =
    let p = last_or head xs in
    let q = first_or head ys in
    let all = xs ++ (entry ∷ ys) in
    let back = subst (λ zs. Chain (prev_of h) head zs head) (reverse-middle entry xs ys) l.prevs in
    let to_prev : prev_of h entry ≡ some p =
      Chain-middle (prev_of h) head head entry (reverse ys) (reverse xs) back
      ∙ ap some (first_or-reverse head xs) in
    let is = Chain-IsMapped h head head all l.nexts in
    let is_prev =
      Every-last (IsMapped h) head xs (Every-front (IsMapped h) (head ∷ xs) (entry ∷ ys) is) in
    let is_next =
      Every-first (IsMapped h) head ys
        (is.0, (Every-back (IsMapped h) (head ∷ xs) (entry ∷ ys) is).1) in
    let other : q ≢ entry =
      Every-first (λ y. y ≢ entry) head ys
        (
          (λ e. (Every-back (λ y. y ≢ head) xs (entry ∷ ys) l.apart.0).0 (sym e)),
          Apart-at xs ys entry l.apart.1,
        ) in
    let (h', e, w) =
      delete_lem entry p q h (Chain-middle (next_of h) head head entry xs ys l.nexts) to_prev other
        is_prev is_next in
    (
      h',
      e,
      (
        IsWritten-IsLinked head (xs ++ ys) w (cut (next_of h) head head entry xs ys l.nexts l.apart)
            (cut-reverse (prev_of h) head head entry xs ys l.prevs (backwards head all l.apart))
            (Apart-drop (head ∷ xs) ys entry l.apart),
        record {
          nexts = λ c other.
              ap (λ f. f c) w.nexts
              ∙ update_of_ne (next_of h) p c (some q) (λ e.
                Every-last (λ y. y ≢ c) head xs (Every-front (λ y. y ≢ c) (head ∷ xs) ys other)
                  (sym e));
          prevs = λ c other.
              ap (λ f. f c) w.prevs
              ∙ update_of_ne (prev_of h) q c (some p) (λ e.
                Every-first (λ y. y ≢ c) head ys
                  (other.0, Every-back (λ y. y ≢ c) (head ∷ xs) ys other) (sym e));
        },
        w.mapped,
      ),
    )

-- A list none of whose nodes is touched.
pub other_list :
    (h h' : Store) (zs : List ℕ) (head : ℕ) (xs : List ℕ)
    → IsLocal h zs h'
    → Every (λ c. Missing c zs) (head ∷ xs)
    → IsLinked h head xs
    → IsLinked h' head xs
other_list h h' zs head xs local missing l = record {
  nexts = Chain-kept (next_of h) (next_of h') head head xs l.nexts (
      Every-map (λ c. Missing c zs) (λ c. next_of h' c ≡ next_of h c) (head ∷ xs) local.nexts
        missing);
  prevs = Chain-kept (prev_of h) (prev_of h') head head (reverse xs) l.prevs (
      Every-map (λ c. Missing c zs) (λ c. prev_of h' c ≡ prev_of h c) (head ∷ reverse xs)
        local.prevs (missing.0, Every-reverse (λ c. Missing c zs) xs missing.1));
  apart = l.apart;
}
