-- ===== src/Trie/Tests.antt =====
-- The keys of main in unitrie.c: "010", "101" and "1011".
use network_lab.Base.{ℕ, ◌≡◌, refl, inl, inr, List, [], ◌∷◌, Option, some, ◌>>=◌}
use network_lab.Trie.{TrieNode, null, node, create_node, insert_at, insert_node, search_at, search}
use network_lab.Trie.Search.{Inserted, insert_node-Inserted}

abbrev k101 : List ℕ
k101 = 49 ∷ 48 ∷ 49 ∷ []

abbrev three_keys : Option TrieNode
three_keys = insert_node create_node (48 ∷ 49 ∷ 48 ∷ []) >>= λ t.
    insert_node t k101 >>= λ u. insert_node u (49 ∷ 48 ∷ 49 ∷ 49 ∷ [])

present : (three_keys >>= λ t. search t k101) ≡ some 1
unfolding insert_node insert_at search search_at
present = refl

absent : (three_keys >>= λ t. search t (49 ∷ 48 ∷ [])) ≡ some 0
unfolding insert_node insert_at search search_at
absent = refl

insert_node-Inserted_example :
    (zeros ones : TrieNode) × (e : ℕ) × (insert_node create_node k101 ≡ some (node zeros ones e))
    × Inserted k101 create_node (node zeros ones e)
insert_node-Inserted_example =
    insert_node-Inserted k101 null null 0 (inr refl, (inl refl, (inr refl, tt)))
