-- ===== src/Checksum/Tests.antt =====
-- The checksum on small buffers.
use network_lab.Base.{◌-◌, ◌^◌, ◌≡◌, refl, ℕ, List, [], ◌∷◌, arith}
use network_lab.Checksum.{words, checksum}
use network_lab.Checksum.Bounds.{ones_sum, total}
use network_lab.Checksum.Verify.{checksum_verifies}

abbrev header : List ℕ
header = 0x45 ∷ 0 ∷ 0xff ∷ 0xff ∷ 0 ∷ 0 ∷ 0x10 ∷ 0xf0 ∷ []

checksum-header : checksum header 0 ≡ 0x0faa
unfolding checksum
checksum-header = refl

checksum_verifies_example :
    ones_sum 0 (words (0x45 ∷ 0 ∷ 0xff ∷ 0xff ∷ 0xaa ∷ 0x0f ∷ 0x10 ∷ 0xf0 ∷ [])) ≡ 2 ^ 16 - 1
unfolding total words checksum
checksum_verifies_example =
    checksum_verifies (0x45 ∷ 0 ∷ 0xff ∷ 0xff ∷ []) (0x10 ∷ 0xf0 ∷ []) refl refl (omega arith)
      (omega arith)
