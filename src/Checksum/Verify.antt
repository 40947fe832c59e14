-- ===== src/Checksum/Verify.antt =====
-- What a receiver sees of a buffer that carries its own checksum.
use network_lab.Base.{
  ℕ, ◌+◌, ◌-◌, ◌*◌, ◌/◌, ◌%◌, ◌^◌, ◌<◌, ◌≡◌, ap, ◌∙◌, List, [], ◌∷◌, ◌++◌, arith, length,
}
use network_lab.Checksum.{words, checksum}
use network_lab.Checksum.Bounds.{
  AllBelow, ones_sum, total, checksum_even, norm, ones_sum-total, words-AllBelow,
}

total_field :
    (pre post : List ℕ) (lo hi : ℕ)
    → length pre % 2 ≡ 0
    → total (words (pre ++ lo ∷ hi ∷ post)) ≡ total (words (pre ++ 0 ∷ 0 ∷ post)) + (lo + 256 * hi)
unfolding total words
total_field [] post lo hi h = omega arith
total_field (x ∷ []) post lo hi h = absurd (omega arith)
total_field (x ∷ y ∷ pre) post lo hi h = omega (arith, total_field pre post lo hi (omega arith))

AllBelow-field :
    (pre post : List ℕ) (lo hi : ℕ)
    → lo < 256
    → hi < 256
    → AllBelow 256 (pre ++ 0 ∷ 0 ∷ post)
    → AllBelow 256 (pre ++ lo ∷ hi ∷ post)
AllBelow-field [] post lo hi h k a = (h, (k, a.1.1))
AllBelow-field (x ∷ pre) post lo hi h k a = (a.0, AllBelow-field pre post lo hi h k a.1)

-- A buffer of bytes, of even length, whose words with zeros in the place of the checksum sum up to less
-- than 2 ^ 32 - 2 ^ 16. With its checksum in that place, at an even offset and low byte first, the
-- ones' complement sum of its words is all ones.
pub checksum_verifies :
    (pre post : List ℕ)
    → length pre % 2 ≡ 0
    → length (pre ++ 0 ∷ 0 ∷ post) % 2 ≡ 0
    → AllBelow 256 (pre ++ 0 ∷ 0 ∷ post)
    → total (words (pre ++ 0 ∷ 0 ∷ post)) + 2 ^ 16 < 2 ^ 32
    → let c = checksum (pre ++ 0 ∷ 0 ∷ post) 0 in
      ones_sum 0 (words (pre ++ c % 256 ∷ c / 256 ∷ post)) ≡ 2 ^ 16 - 1
checksum_verifies pre post aligned even bytes fits =
    ones_sum-total (words (pre ++ c % 256 ∷ c / 256 ∷ post)) (words-AllBelow _ bytes')
      (omega (arith, sum', c_lt))
    ∙ omega (arith, sum', c_eq)
  where
    zeroed : List ℕ
    zeroed = pre ++ 0 ∷ 0 ∷ post

    c : ℕ
    c = checksum zeroed 0

    c_eq : c ≡ 2 ^ 16 - 1 - norm (total (words zeroed))
    c_eq =
        checksum_even zeroed 0 bytes (omega arith) (omega arith) even
        ∙ ap (λ s. 2 ^ 16 - 1 - s)
            (ones_sum-total (words zeroed) (words-AllBelow zeroed bytes) (omega arith))

    c_lt : c < 2 ^ 16
    c_lt = omega (arith, c_eq)

    bytes' : AllBelow 256 (pre ++ c % 256 ∷ c / 256 ∷ post)
    bytes' = AllBelow-field pre post (c % 256) (c / 256) (omega arith) (omega (arith, c_lt)) bytes

    sum' : total (words (pre ++ c % 256 ∷ c / 256 ∷ post)) ≡ total (words zeroed) + c
    sum' = omega (arith, total_field pre post (c % 256) (c / 256) aligned)
