-- ===== src/Trie/Search.antt =====
-- The trie of unitrie.c as a set of keys.
use network_lab.Base.{
  ℕ, ◌≡◌, ◌≢◌, ◌⊎◌, refl, ap₂, ◌∙◌, sym, inl, inr, List, [], ◌∷◌, Option, some, Every,
}
use network_lab.Trie.{TrieNode, null, node, ensure, insert_at, insert_node, search_at}

-- made of '0' and '1'
abbrev IsKey : List ℕ → Type 0
IsKey = Every (λ c. (c ≡ 48) ⊎ (c ≡ 49))

-- What search does at a child.
abbrev below : List ℕ → TrieNode → Option ℕ
below key null = some 0
below key (node zeros ones is_end) = search_at key (node zeros ones is_end)

search_zero :
    (key : List ℕ) (zeros ones : TrieNode) (e : ℕ)
    → search_at (48 ∷ key) (node zeros ones e) ≡ below key zeros
unfolding search_at
search_zero key null ones e = refl
search_zero key (node z o f) ones e = refl

search_one :
    (key : List ℕ) (zeros ones : TrieNode) (e : ℕ)
    → search_at (49 ∷ key) (node zeros ones e) ≡ below key ones
unfolding search_at
search_one key zeros null e = refl
search_one key zeros (node z o f) e = refl

below-ensure : (key : List ℕ) (t : TrieNode) → IsKey key → search_at key (ensure t) ≡ below key t
below-ensure [] null k = unfold search_at in refl
below-ensure (c ∷ key) null (inl zero, k) = rw zero (search_zero key null null 0)
below-ensure (c ∷ key) null (inr one, k) = rw one (search_one key null null 0)
below-ensure key (node z o e) k = refl

-- What an insertion of `key` at the node `t` leaves behind.
pub record Inserted (key : List ℕ) (t t' : TrieNode) : Type 0 where
  pub found : search_at key t' ≡ some 1
  pub others : (other : List ℕ) → IsKey other → other ≢ key → search_at other t' ≡ search_at other t

-- The node is there, and so is the one after the insertion.
abbrev Result : List ℕ → TrieNode → Type 0
Result key t =
    (zeros ones : TrieNode) × (e : ℕ) × (insert_at key t ≡ some (node zeros ones e))
    × Inserted key t (node zeros ones e)

insert_end : (zeros ones : TrieNode) (e : ℕ) → Result [] (node zeros ones e)
unfolding insert_at
insert_end zeros ones e =
    (zeros, ones, 1, refl, record { found = unfold search_at in refl; others = same })
  where
    same :
        (other : List ℕ)
        → IsKey other
        → other ≢ []
        → search_at other (node zeros ones 1) ≡ search_at other (node zeros ones e)
    same [] k ne = absurd (ne refl)
    same (c ∷ other) (inl zero, k) ne =
        rw zero (search_zero other zeros ones 1 ∙ sym (search_zero other zeros ones e))
    same (c ∷ other) (inr one, k) ne =
        rw one (search_one other zeros ones 1 ∙ sym (search_one other zeros ones e))

insert_zero :
    (key : List ℕ) (zeros ones : TrieNode) (e : ℕ)
    → Result key (ensure zeros)
    → Result (48 ∷ key) (node zeros ones e)
unfolding insert_at
insert_zero key zeros ones e (z, o, f, ins, done) = (
  node z o f,
  ones,
  e,
  rw ins refl,
  record { found = search_zero key (node z o f) ones e ∙ done.found; others = same },
)
  where
    same :
        (other : List ℕ)
        → IsKey other
        → other ≢ 48 ∷ key
        → search_at other (node (node z o f) ones e) ≡ search_at other (node zeros ones e)
    same [] k ne = unfold search_at in refl
    same (c ∷ other) (inl zero, k) ne = rw zero (
        search_zero other (node z o f) ones e
        ∙ done.others other k (λ q. ne (ap₂ (λ x xs. x ∷ xs) zero q))
        ∙ below-ensure other zeros k
        ∙ sym (search_zero other zeros ones e))
    same (c ∷ other) (inr one, k) ne =
        rw one (search_one other (node z o f) ones e ∙ sym (search_one other zeros ones e))

insert_one :
    (key : List ℕ) (zeros ones : TrieNode) (e : ℕ)
    → Result key (ensure ones)
    → Result (49 ∷ key) (node zeros ones e)
unfolding insert_at
insert_one key zeros ones e (z, o, f, ins, done) = (
  zeros,
  node z o f,
  e,
  rw ins refl,
  record { found = search_one key zeros (node z o f) e ∙ done.found; others = same },
)
  where
    same :
        (other : List ℕ)
        → IsKey other
        → other ≢ 49 ∷ key
        → search_at other (node zeros (node z o f) e) ≡ search_at other (node zeros ones e)
    same [] k ne = unfold search_at in refl
    same (c ∷ other) (inl zero, k) ne =
        rw zero (search_zero other zeros (node z o f) e ∙ sym (search_zero other zeros ones e))
    same (c ∷ other) (inr one, k) ne = rw one (
        search_one other zeros (node z o f) e
        ∙ done.others other k (λ q. ne (ap₂ (λ x xs. x ∷ xs) one q))
        ∙ below-ensure other ones k
        ∙ sym (search_one other zeros ones e))

insert_lem : (key : List ℕ) (t : TrieNode) → IsKey key → Result key (ensure t)
insert_lem [] null k = insert_end null null 0
insert_lem [] (node zeros ones e) k = insert_end zeros ones e
insert_lem (c ∷ key) null (inl zero, k) =
    rw zero (insert_zero key null null 0 (insert_lem key null k))
insert_lem (c ∷ key) null (inr one, k) = rw one (insert_one key null null 0 (insert_lem key null k))
insert_lem (c ∷ key) (node zeros ones e) (inl zero, k) =
    rw zero (insert_zero key zeros ones e (insert_lem key zeros k))
insert_lem (c ∷ key) (node zeros ones e) (inr one, k) =
    rw one (insert_one key zeros ones e (insert_lem key ones k))

-- An insertion of a key of '0' and '1' below a node succeeds and leaves a node; then the key is found,
-- and every other key is found exactly if it was before.
pub insert_node-Inserted :
    (key : List ℕ) (zeros ones : TrieNode) (e : ℕ)
    → IsKey key
    → (zeros' ones' : TrieNode) × (e' : ℕ) × (insert_node (node zeros ones e) key
        ≡ some (node zeros' ones' e'))
      × Inserted key (node zeros ones e) (node zeros' ones' e')
unfolding insert_node
insert_node-Inserted key zeros ones e k = insert_lem key (node zeros ones e) k
