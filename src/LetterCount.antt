-- ===== src/LetterCount.antt =====
-- 04-socket/master.c and worker.c: a master divides a file among workers, which count its letters, and
-- adds up what they send back. Messages are numbers, which both sides convert on the way.
pub mod Count
mod Total
mod Tests
use network_lab.Base.{
  ℕ, zero, suc, ◌+◌, ◌-◌, Bool, List, [], ◌∷◌, Option, none, some, leb, ◌^◌, ltb, ◌==◌, ◌&&◌,
  if◌then◌else◌, length, get_or, set, replicate, map,
}

-- `statistics[i] += 1`
abbrev pub bump : List ℕ → ℕ → List ℕ
bump statistics i = set statistics i (get_or statistics i 0 + 1)

abbrev pub is_upper : ℕ → Bool
is_upper c = ltb 64 c && ltb c 91

abbrev pub is_lower : ℕ → Bool
is_lower c = ltb 96 c && ltb c 123

pub count_char : ℕ → List ℕ → List ℕ
count_char c statistics =
    let upper = if is_upper c then bump statistics (c - 65) else statistics in
    if is_lower c then bump upper (c - 97) else upper

-- `position < end_point && position > start_point - 1`
abbrev pub is_within : ℕ → ℕ → ℕ → Bool
is_within start end position = ltb position end && ltb start (position + 1)

-- The loop over the file.
pub count_from : ℕ → ℕ → ℕ → List ℕ → List ℕ → List ℕ
count_from start end position [] statistics = statistics
count_from start end position (c ∷ file) statistics =
    count_from start end (position + 1) file
      (if is_within start end position then count_char c statistics else statistics)

-- What a worker sends.
pub worker : List ℕ → ℕ → ℕ → List ℕ
worker file start end = count_from start end 0 file (replicate 26 0)

-- The range of worker `i` of `line_no`, the one before having ended at `last`. `part` is what
-- `lengthOfFile / (float) line_no` is as an int.
pub range_of : ℕ → ℕ → ℕ → ℕ → ℕ → ℕ × ℕ
range_of part size line_no i last =
    if i == 0 then (0, part) else if i == line_no - 1 then (last, size) else (last, part)

-- The workers from `i` on, of whom `left` are left.
pub ranges_from : ℕ → ℕ → ℕ → ℕ → ℕ → ℕ → List (ℕ × ℕ)
ranges_from part size line_no zero i last = []
ranges_from part size line_no (suc left) i last =
    let range = range_of part size line_no i last in
    range ∷ ranges_from part size line_no left (suc i) range.1

-- `statistics_result[j] += recv_statistics[i][j]`
pub add_all : List ℕ → List ℕ → List ℕ
add_all [] received = []
add_all (a ∷ result) [] = a ∷ result
add_all (a ∷ result) (b ∷ received) = (a + b) ∷ add_all result received

pub aggregate : List (List ℕ) → List ℕ → List ℕ
aggregate [] result = result
aggregate (received ∷ others) result = aggregate others (add_all result received)

-- The master, with workers that read the same file, each `recv` returning what one `send` wrote. It
-- has 100 lines for its workers and counts in ints: `none` is a worker or a letter too many.
pub master : ℕ → ℕ → List ℕ → Option (List ℕ)
master part line_no file =
    if leb line_no 100 && ltb (length file) (2 ^ 31)
    then some (
        aggregate
          (map (λ (start, end). worker file start end)
            (ranges_from part (length file) line_no line_no 0 0))
          (replicate 26 0))
    else none
