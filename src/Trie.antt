-- ===== src/Trie.antt =====
-- 09-trie-yisong/unitrie.c: the trie with one bit a level. A key is the list of its characters, and a
-- character other than '0' and '1' reads outside the children; `none` is that, or a null root.
pub mod Search
mod Tests
use network_lab.Base.{ℕ, List, [], ◌∷◌, Option, none, some, ◌==◌, if◌then◌else◌, ◌>>=◌}

-- A pointer to a `struct trie_node`, by its children and isEndOfWord.
pub data TrieNode : Type 0 where
  null : TrieNode
  node : TrieNode → TrieNode → ℕ → TrieNode

abbrev pub create_node : TrieNode
create_node = node null null 0

-- A missing child is made.
abbrev pub ensure : TrieNode → TrieNode
ensure null = create_node
ensure (node zeros ones is_end) = node zeros ones is_end

-- The rest of the loop of insert_node at one node, and the mark behind it.
unfoldable pub insert_at : List ℕ → TrieNode → Option TrieNode
insert_at [] null = none
insert_at (c ∷ key) null = none
insert_at [] (node zeros ones is_end) = some (node zeros ones 1)
insert_at (c ∷ key) (node zeros ones is_end) =
    let left = insert_at key (ensure zeros) in
    let right = insert_at key (ensure ones) in
    if c == 48
    then (left >>= λ zeros'. some (node zeros' ones is_end))
    else if c == 49
    then (right >>= λ ones'. some (node zeros ones' is_end))
    else none

unfoldable pub insert_node : TrieNode → List ℕ → Option TrieNode
insert_node root key = insert_at key root

-- The rest of the loop of search.
unfoldable pub search_at : List ℕ → TrieNode → Option ℕ
search_at [] null = none
search_at (c ∷ key) null = none
search_at [] (node zeros ones is_end) = some (if is_end == 0 then 0 else 1)
search_at (c ∷ key) (node zeros ones is_end) =
    let left = search_at key zeros in
    let right = search_at key ones in
    if c == 48
    then elim zeros [ null ↦ some 0 | node _ _ _ ↦ left ]
    else if c == 49
    then elim ones [ null ↦ some 0 | node _ _ _ ↦ right ]
    else none

unfoldable pub search : TrieNode → List ℕ → Option ℕ
search root key = search_at key root
