-- ===== src/Hash.antt =====
-- 16-tcp_data_transfer/include/hash.h (12-nat-yisong has the same): the exclusive or of the bytes
-- of a buffer, and of its words of two bytes.
use Prim.Native.Nat.{bit_xor}
use network_lab.Base.{ℕ, ◌+◌, ◌*◌, List, [], ◌∷◌}

hash_from : ℕ → List ℕ → ℕ
hash_from result [] = result
hash_from result (b ∷ buf) = hash_from (bit_xor result b) buf

unfoldable pub hash8 : List ℕ → ℕ
unfolding hash_from
hash8 buf = hash_from 0 buf

-- Two bytes at a time, the first one as the low one, and an odd last byte by itself.
hash16_from : ℕ → List ℕ → ℕ
hash16_from result [] = result
hash16_from result (b ∷ []) = bit_xor result b
hash16_from result (b ∷ c ∷ buf) = hash16_from (bit_xor result (b + 256 * c)) buf

unfoldable hash16 : List ℕ → ℕ
unfolding hash16_from
hash16 buf = hash16_from 0 buf
