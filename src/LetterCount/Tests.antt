-- ===== src/LetterCount/Tests.antt =====
-- A text with three workers.
use network_lab.Base.{ℕ, ◌≡◌, refl, List, [], ◌∷◌, get_or, arith, some}
use network_lab.LetterCount.{master, range_of, ranges_from}
use network_lab.LetterCount.Count.{occurrences}
use network_lab.LetterCount.Total.{master_lem}

-- "AbBa z!b"
abbrev text : List ℕ
text = 65 ∷ 98 ∷ 66 ∷ 97 ∷ 32 ∷ 122 ∷ 33 ∷ 98 ∷ []

-- The second worker has nothing to do.
ranges : ranges_from 2 8 3 3 0 0 ≡ (0, 2) ∷ (2, 2) ∷ (2, 8) ∷ []
unfolding ranges_from range_of
ranges = refl

master_lem_example :
    (result : List ℕ) × (master 2 3 text ≡ some result) × (get_or result 1 0 ≡ occurrences 1 text)
master_lem_example =
    master_lem 2 3 1 text (omega arith) (omega arith) (omega arith) (omega arith)
      (λ e. absurd (omega (arith, e))) (omega arith)
