-- ===== src/LetterCount/Count.antt =====
-- What a worker counts.
use network_lab.Base.{
  ℕ, ◌+◌, ◌-◌, ◌<◌, ◌≡◌, refl, ◌∙◌, subst, Bool, true, false, List, [], ◌∷◌, arith, ◌==◌, ◌&&◌,
  ◌||◌, if◌then◌else◌, length, get_or, length-set, get_or-set_self, get_or-set_ne, Bool-cases,
  ==_iff, inl, inr,
}
use network_lab.LetterCount.{bump, is_upper, is_lower, count_char, is_within, count_from}

-- The letter with the number `j`, in either case.
abbrev pub is_letter : ℕ → ℕ → Bool
is_letter j c = c == 65 + j || c == 97 + j

abbrev pub one_if : Bool → ℕ
one_if true = 1
one_if false = 0

-- How many there are in the text.
abbrev pub occurrences : ℕ → List ℕ → ℕ
occurrences j [] = 0
occurrences j (c ∷ text) = one_if (is_letter j c) + occurrences j text

-- How many there are between two positions.
abbrev pub occurrences_in : ℕ → ℕ → ℕ → ℕ → List ℕ → ℕ
occurrences_in j start end position [] = 0
occurrences_in j start end position (c ∷ text) =
    one_if (is_within start end position && is_letter j c)
    + occurrences_in j start end (position + 1) text

bump_if : Bool → ℕ → List ℕ → List ℕ
bump_if test i statistics = if test then bump statistics i else statistics

length-bump_if :
    (test : Bool) (i : ℕ) (statistics : List ℕ)
    → length (bump_if test i statistics) ≡ length statistics
unfolding bump_if
length-bump_if true i statistics = length-set statistics i (get_or statistics i 0 + 1)
length-bump_if false i statistics = refl

bump_if_lem :
    (test : Bool) (i j : ℕ) (statistics : List ℕ)
    → (test ≡ true → i < length statistics)
    → get_or (bump_if test i statistics) j 0 ≡ one_if (test && i == j) + get_or statistics j 0
unfolding bump_if
bump_if_lem false i j statistics inside = omega arith
bump_if_lem true i j statistics inside = elim (Bool-cases (i == j)) [
  | inl same ↦
      let same' : i ≡ j = (==_iff i j).0 same in
      let written : get_or (bump statistics i) i 0 ≡ get_or statistics i 0 + 1 =
        get_or-set_self statistics i (get_or statistics i 0 + 1) 0 (inside refl) in
      let written' : get_or (bump statistics i) j 0 ≡ get_or statistics j 0 + 1 =
        subst (λ k. get_or (bump statistics i) k 0 ≡ get_or statistics k 0 + 1) same' written in
      ground (arith, written', same)
  | inr other ↦
      let kept : get_or (bump statistics i) j 0 ≡ get_or statistics j 0 =
        get_or-set_ne statistics i j (get_or statistics i 0 + 1) 0 (ground (arith, other)) in
      ground (arith, kept, other)
]

-- Each of the two tests holds of letters only, with a number below 26.
count_char_lem :
    (c j : ℕ) (statistics : List ℕ)
    → length statistics ≡ 26
    → j < 26
    → (get_or (count_char c statistics) j 0 ≡ one_if (is_letter j c) + get_or statistics j 0)
      × (length (count_char c statistics) ≡ 26)
unfolding count_char bump_if
count_char_lem c j statistics size inside =
    let upper = bump_if (is_upper c) (c - 65) statistics in
    let upper_in : is_upper c ≡ true → c - 65 < length statistics = λ u. ground (arith, u, size) in
    let lower_in : is_lower c ≡ true → c - 97 < length upper =
      λ l. ground (arith, l, size, length-bump_if (is_upper c) (c - 65) statistics) in
    let first = bump_if_lem (is_upper c) (c - 65) j statistics upper_in in
    let second = bump_if_lem (is_lower c) (c - 97) j upper lower_in in
    let either : one_if (is_letter j c)
        ≡ one_if (is_lower c && c - 97 == j) + one_if (is_upper c && c - 65 == j) =
      ground (arith, inside) in
    (
      omega (arith, first, second, either),
      length-bump_if (is_lower c) (c - 97) upper
          ∙ length-bump_if (is_upper c) (c - 65) statistics
          ∙ size,
    )

pub count_from_lem :
    (start end position j : ℕ) (text statistics : List ℕ)
    → length statistics ≡ 26
    → j < 26
    → (get_or (count_from start end position text statistics) j 0
        ≡ occurrences_in j start end position text + get_or statistics j 0)
      × (length (count_from start end position text statistics) ≡ 26)
unfolding count_from
count_from_lem start end position j [] statistics size inside = (omega arith, size)
count_from_lem start end position j (c ∷ text) statistics size inside =
    elim (Bool-cases (is_within start end position)) [
      | inl here ↦
          let (now, size') = count_char_lem c j statistics size inside in
          let (later, size'') =
            count_from_lem start end (position + 1) j text (count_char c statistics) size' inside in
          rw here (omega (arith, now, later), size'')
      | inr not_here ↦
          let (later, size'') =
            count_from_lem start end (position + 1) j text statistics size inside in
          rw not_here (omega (arith, later), size'')
    ]
