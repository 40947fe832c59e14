-- ===== src/LetterCount/Total.antt =====
-- The sum of what the workers count.
use network_lab.Base.{
  some, leb, ltb, ◌^◌, ℕ, zero, suc, ◌+◌, ◌-◌, ◌≤◌, ◌<◌, ◌≡◌, refl, sym, ◌∙◌, ap, Bool, true, false,
  List, [], ◌∷◌, arith, ◌==◌, ◌&&◌, length, get_or, replicate, map,
}
use network_lab.LetterCount.{is_within, worker, range_of, ranges_from, add_all, aggregate, master}
use network_lab.LetterCount.Count.{is_letter, one_if, occurrences, occurrences_in, count_from_lem}

get_or-replicate : (n j z : ℕ) → get_or (replicate n z) j z ≡ z
get_or-replicate zero j z = refl
get_or-replicate (suc n) zero z = refl
get_or-replicate (suc n) (suc j) z = get_or-replicate n j z

worker_lem :
    (start end j : ℕ) (text : List ℕ)
    → j < 26
    → (get_or (worker text start end) j 0 ≡ occurrences_in j start end 0 text)
      × (length (worker text start end) ≡ 26)
unfolding worker
worker_lem start end j text inside =
    let (counted, size) = count_from_lem start end 0 j text (replicate 26 0) refl inside in
    (omega (arith, counted, get_or-replicate 26 j 0), size)

range_last :
    (part size line_no i : ℕ)
    → 0 < i
    → i + 1 ≡ line_no
    → range_of part size line_no i part ≡ (part, size)
unfolding range_of
range_last part size line_no i behind count =
    let not_first : (i == 0) ≡ false = ground (arith, behind) in
    let last : (i == line_no - 1) ≡ true = ground (arith, count) in rw (not_first, last) refl

range_middle :
    (part size line_no i left : ℕ)
    → 0 < i
    → 0 < left
    → i + suc left ≡ line_no
    → range_of part size line_no i part ≡ (part, part)
unfolding range_of
range_middle part size line_no i left behind others count =
    let not_first : (i == 0) ≡ false = ground (arith, behind) in
    let not_last : (i == line_no - 1) ≡ false = ground (arith, count, others) in
    rw (not_first, not_last) refl

module _ (j : ℕ) where
  -- Ranges that meet.
  occurrences_in-meet :
      (start middle end position : ℕ) (text : List ℕ)
      → start ≤ middle
      → middle ≤ end
      → occurrences_in j start middle position text + occurrences_in j middle end position text
        ≡ occurrences_in j start end position text
  occurrences_in-meet start middle end position [] before behind = omega arith
  occurrences_in-meet start middle end position (c ∷ text) before behind =
      let here : one_if (is_within start middle position && is_letter j c)
            + one_if (is_within middle end position && is_letter j c)
          ≡ one_if (is_within start end position && is_letter j c) =
        within_meet (is_letter j c) in
      omega (arith, here, occurrences_in-meet start middle end (position + 1) text before behind)
    where
      within_meet :
          (b : Bool)
          → one_if (is_within start middle position && b)
              + one_if (is_within middle end position && b)
            ≡ one_if (is_within start end position && b)
      within_meet b = ground (arith, before, behind)

  occurrences_in-empty :
      (middle position : ℕ) (text : List ℕ) → occurrences_in j middle middle position text ≡ 0
  occurrences_in-empty middle position [] = refl
  occurrences_in-empty middle position (c ∷ text) =
      let nowhere : is_within middle middle position ≡ false = ground arith in
      rw nowhere (omega (arith, occurrences_in-empty middle (position + 1) text))

  occurrences_in-all :
      (end position : ℕ) (text : List ℕ)
      → position + length text ≤ end
      → occurrences_in j 0 end position text ≡ occurrences j text
  occurrences_in-all end position [] fits = refl
  occurrences_in-all end position (c ∷ text) fits =
      let here : is_within 0 end position ≡ true = ground (arith, fits) in
      rw here (
        ap (λ n. one_if (is_letter j c) + n)
          (occurrences_in-all end (position + 1) text (omega (arith, fits))))

  sum_in : List (ℕ × ℕ) → List ℕ → ℕ
  sum_in [] text = 0
  sum_in ((start, end) ∷ ranges) text = occurrences_in j start end 0 text + sum_in ranges text

  -- The workers behind the first one: all but the last get nothing to count.
  sum_in-ranges_from :
      (part size line_no left i : ℕ) (text : List ℕ)
      → 0 < i
      → i + suc left ≡ line_no
      → sum_in (ranges_from part size line_no (suc left) i part) text
        ≡ occurrences_in j part size 0 text
  unfolding sum_in ranges_from
  sum_in-ranges_from part size line_no zero i text behind count =
      rw (range_last part size line_no i behind count) (omega arith)
  sum_in-ranges_from part size line_no (suc left) i text behind count =
      rw (range_middle part size line_no i (suc left) behind (omega arith) count) (
        omega (
          arith,
          occurrences_in-empty part 0 text,
          sum_in-ranges_from part size line_no left (suc i) text (omega arith)
              (omega (arith, count)),
        ))

  sum_in-ranges :
      (part size line_no : ℕ) (text : List ℕ)
      → 0 < line_no
      → part ≤ size
      → (line_no ≡ 1 → part ≡ size)
      → sum_in (ranges_from part size line_no line_no 0 0) text ≡ occurrences_in j 0 size 0 text
  unfolding sum_in ranges_from range_of
  sum_in-ranges part size zero text some_worker fits single = absurd (omega arith)
  sum_in-ranges part size (suc zero) text some_worker fits single =
      ap (λ n. n + 0) (ap (λ e. occurrences_in j 0 e 0 text) (single refl)) ∙ omega arith
  sum_in-ranges part size (suc (suc left)) text some_worker fits single = omega (
    arith,
    sum_in-ranges_from part size (suc (suc left)) left 1 text (omega arith) (omega arith),
    occurrences_in-meet 0 part size 0 text (omega arith) fits,
  )

add_all_lem :
    (j : ℕ) (result received : List ℕ)
    → length result ≡ length received
    → (get_or (add_all result received) j 0 ≡ get_or result j 0 + get_or received j 0)
      × (length (add_all result received) ≡ length result)
unfolding add_all
add_all_lem j [] [] same = (omega arith, refl)
add_all_lem j [] (b ∷ received) same = absurd (omega arith)
add_all_lem j (a ∷ result) [] same = absurd (omega arith)
add_all_lem zero (a ∷ result) (b ∷ received) same =
    (refl, ap suc ((add_all_lem zero result received (omega (arith, same))).1))
add_all_lem (suc j) (a ∷ result) (b ∷ received) same =
    let (sums, size) = add_all_lem j result received (omega (arith, same)) in (sums, ap suc size)

aggregate_lem :
    (j : ℕ) (text : List ℕ) (ranges : List (ℕ × ℕ)) (result : List ℕ)
    → j < 26
    → length result ≡ 26
    → get_or (aggregate (map (λ (start, end). worker text start end) ranges) result) j 0
      ≡ sum_in j ranges text + get_or result j 0
unfolding aggregate sum_in
aggregate_lem j text [] result inside size = omega arith
aggregate_lem j text ((start, end) ∷ ranges) result inside size =
    let (counted, sent) = worker_lem start end j text inside in
    let (sums, size') = add_all_lem j result (worker text start end) (size ∙ sym sent) in
    omega (
      arith,
      counted,
      sums,
      aggregate_lem j text ranges (add_all result (worker text start end)) inside (size' ∙ size),
    )

-- The master's result has, for each of the 26 letters, how often it occurs in the file, in either
-- case, if there is a worker and the first one's part is no longer than the file, and all of it if there
-- is no other worker. There are at most 100 workers, the file has fewer than 2 ^ 31 bytes, and each
-- `recv` returns what one `send` wrote.
pub master_lem :
    (part line_no j : ℕ) (file : List ℕ)
    → 0 < line_no
    → line_no ≤ 100
    → length file < 2 ^ 31
    → part ≤ length file
    → (line_no ≡ 1 → part ≡ length file)
    → j < 26
    → (result : List ℕ) × (master part line_no file ≡ some result)
      × (get_or result j 0 ≡ occurrences j file)
unfolding master
master_lem part line_no j file some_worker few short fits single inside =
    let ranges = ranges_from part (length file) line_no line_no 0 0 in
    let total = aggregate_lem j file ranges (replicate 26 0) inside refl in
    let fits' : (leb line_no 100 && ltb (length file) (2 ^ 31)) ≡ true =
      ground (arith, few, short) in
    (
      aggregate (map (λ (start, end). worker file start end) ranges) (replicate 26 0),
      rw fits' refl,
      omega (
        arith,
        total,
        get_or-replicate 26 j 0,
        sum_in-ranges j part (length file) line_no file some_worker fits single,
        occurrences_in-all j (length file) 0 file (omega arith),
      ),
    )
