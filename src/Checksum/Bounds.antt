-- ===== src/Checksum/Bounds.antt =====
-- The checksum is the complement of the ones' complement sum of the words (RFC 1071).
use network_lab.Base.{
  ℕ, ◌+◌, ◌-◌, ◌/◌, ◌%◌, ◌^◌, ◌<◌, ◌≡◌, ◌↔◌, refl, ap, ◌∙◌, sym, List, [], ◌∷◌, arith, length, ltb,
  if◌then◌else◌,
}
use native.Mathlib.Nat.{mod-eq_of_lt}
use network_lab.Checksum.{words, odd_byte, sum_words, fold_carry, checksum}

-- Addition with an end-around carry, the sum that RFC 1071 asks for.
unfoldable pub ones_add : ℕ → ℕ → ℕ
ones_add a b = if ltb (a + b) (2 ^ 16) then a + b else a + b - (2 ^ 16 - 1)

unfoldable pub ones_sum : ℕ → List ℕ → ℕ
unfolding ones_add
ones_sum acc [] = acc
ones_sum acc (w ∷ ws) = ones_sum (ones_add acc w) ws

abbrev pub AllBelow : ℕ → List ℕ → Type 0
AllBelow n [] = Unit {0}
AllBelow n (x ∷ xs) = (x < n) × AllBelow n xs

-- The sum of the words, unbounded.
unfoldable pub total : List ℕ → ℕ
total [] = 0
total (w ∷ ws) = w + total ws

abbrev pub norm : ℕ → ℕ
norm s = (s / 2 ^ 16 + s % 2 ^ 16 + (s / 2 ^ 16 + s % 2 ^ 16) / 2 ^ 16) % 2 ^ 16

norm_add : (s w : ℕ) → w < 2 ^ 16 → s + w < 2 ^ 32 → norm (s + w) ≡ ones_add (norm s) w
unfolding ones_add
norm_add s w h k = ground arith

norm_lt : (s : ℕ) → norm s < 2 ^ 16
norm_lt s = omega arith

norm_small : (s : ℕ) → s < 2 ^ 16 → norm s ≡ s
norm_small s h = omega arith

ones_sum-norm :
    (ws : List ℕ) (s : ℕ)
    → AllBelow (2 ^ 16) ws
    → s + total ws < 2 ^ 32
    → ones_sum (norm s) ws ≡ norm (s + total ws)
unfolding ones_sum total
ones_sum-norm [] s a h = ap norm (omega arith)
ones_sum-norm (w ∷ ws) s a h =
    ap (λ acc. ones_sum acc ws) (sym (norm_add s w a.0 (omega arith)))
    ∙ ones_sum-norm ws (s + w) a.1 (omega arith)
    ∙ ap norm (omega arith)

sum_words-total : (ws : List ℕ) (s : ℕ) → s + total ws < 2 ^ 32 → sum_words s ws ≡ s + total ws
unfolding sum_words total
sum_words-total [] s h = omega arith
sum_words-total (w ∷ ws) s h =
    ap (λ t. sum_words t ws) (mod-eq_of_lt (omega arith))
    ∙ sum_words-total ws (s + w) (omega arith)
    ∙ omega arith

fold_carry-norm : (s : ℕ) → s < 2 ^ 32 → fold_carry s % 2 ^ 16 ≡ norm s
unfolding fold_carry
fold_carry-norm s h = omega arith

-- The bytes of an `u8` buffer give words of an `u16`.
pub words-AllBelow : (buf : List ℕ) → AllBelow 256 buf → AllBelow (2 ^ 16) (words buf)
unfolding words
words-AllBelow [] a = tt
words-AllBelow (x ∷ []) a = tt
words-AllBelow (x ∷ y ∷ buf) a = (omega arith, words-AllBelow buf a.1.1)

odd_byte-even : (buf : List ℕ) → length buf % 2 ≡ 0 → odd_byte buf ≡ 0
unfolding odd_byte
odd_byte-even [] h = refl
odd_byte-even (x ∷ []) h = absurd (omega arith)
odd_byte-even (x ∷ y ∷ buf) h = odd_byte-even buf (omega arith)

odd_byte-lt : (buf : List ℕ) → AllBelow 256 buf → odd_byte buf < 256
unfolding odd_byte
odd_byte-lt [] a = omega arith
odd_byte-lt (x ∷ []) a = a.0
odd_byte-lt (x ∷ y ∷ buf) a = odd_byte-lt buf a.1.1

-- Without overflow the ones' complement sum depends on the plain sum only.
pub ones_sum-total :
    (ws : List ℕ) → AllBelow (2 ^ 16) ws → total ws < 2 ^ 32 → ones_sum 0 ws ≡ norm (total ws)
ones_sum-total ws a h =
    ap (λ s. ones_sum s ws) (sym (norm_small 0 (omega arith)))
    ∙ ones_sum-norm ws 0 a (omega arith)
    ∙ ap norm (omega arith)

module _ (buf : List ℕ) (sum : ℕ) (bytes : AllBelow 256 buf)
    (fits : sum + total (words buf) < 2 ^ 32) where
  -- what the words alone sum up to, with the carry brought round
  folded : fold_carry (sum_words sum (words buf)) % 2 ^ 16 ≡ ones_sum (norm sum) (words buf)
  folded =
      ap (λ s. fold_carry s % 2 ^ 16) (sum_words-total (words buf) sum fits)
      ∙ fold_carry-norm (sum + total (words buf)) fits
      ∙ sym (ones_sum-norm (words buf) sum (words-AllBelow buf bytes) fits)

  -- For a buffer of even length, from an initial sum of 16 bits and with words whose sum fits in 32
  -- bits, the checksum is the complement of the ones' complement sum of the words.
  pub checksum_even :
      sum < 2 ^ 16 → length buf % 2 ≡ 0 → checksum buf sum ≡ 2 ^ 16 - 1 - ones_sum sum (words buf)
  unfolding checksum
  checksum_even small even = omega (
    arith,
    folded,
    odd_byte-even buf even,
    ap (λ s. ones_sum s (words buf)) (norm_small sum small),
  )

  -- A last odd byte is added after the carry has been brought round: under the same bounds the
  -- checksum is the complement of the ones' complement sum exactly when that addition carries nothing.
  pub checksum_odd :
      sum < 2 ^ 16
      → (checksum buf sum ≡ 2 ^ 16 - 1 - ones_add (ones_sum sum (words buf)) (odd_byte buf))
        ↔ (ones_sum sum (words buf) + odd_byte buf < 2 ^ 16)
  unfolding checksum ones_add
  checksum_odd small = (
    λ e. grind (
      arith,
      folded,
      odd_byte-lt buf bytes,
      ap (λ s. ones_sum s (words buf)) (norm_small sum small),
    ),
    λ h. ground (
      arith,
      folded,
      odd_byte-lt buf bytes,
      ap (λ s. ones_sum s (words buf)) (norm_small sum small),
    ),
  )
