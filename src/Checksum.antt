-- ===== src/Checksum.antt =====
-- 16-tcp_data_transfer/include/checksum.h, over the bytes of the buffer: `((u16 *)buf)[i]` is read by
-- a little-endian machine. `sum` is an `u32` and wraps.
pub mod Bounds
pub mod Verify
mod Tests
use network_lab.Base.{ℕ, ◌+◌, ◌-◌, ◌*◌, ◌/◌, ◌%◌, ◌^◌, List, [], ◌∷◌}

-- The 16-bit words of a buffer, and its odd last byte (0 if there is none).
unfoldable pub words : List ℕ → List ℕ
words [] = []
words (a ∷ []) = []
words (a ∷ b ∷ bytes) = (a + 256 * b) ∷ words bytes

unfoldable pub odd_byte : List ℕ → ℕ
odd_byte [] = 0
odd_byte (a ∷ []) = a
odd_byte (a ∷ b ∷ bytes) = odd_byte bytes

-- The loop over the words.
unfoldable pub sum_words : ℕ → List ℕ → ℕ
sum_words sum [] = sum
sum_words sum (w ∷ ws) = sum_words ((sum + w) % 2 ^ 32) ws

-- `(sum >> 16) + (sum & 0xffff)`, then `sum + (sum >> 16)`.
unfoldable pub fold_carry : ℕ → ℕ
fold_carry sum = let once = sum / 2 ^ 16 + sum % 2 ^ 16 in (once + once / 2 ^ 16) % 2 ^ 32

-- `(u16)~sum`
abbrev pub complement : ℕ → ℕ
complement sum = 2 ^ 16 - 1 - sum % 2 ^ 16

unfoldable pub checksum : List ℕ → ℕ → ℕ
unfolding words odd_byte sum_words fold_carry
checksum buf sum = complement ((fold_carry (sum_words sum (words buf)) + odd_byte buf) % 2 ^ 32)
