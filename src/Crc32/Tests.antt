-- ===== src/Crc32/Tests.antt =====
-- The CRC's claim at concrete bytes, and the check value of the PNG specification's CRC.
use hcore.Base.{ℕ, ◌≡◌, refl, List, [], ◌∷◌, ◌++◌, arith}
use hcore.Crc32.{crc32_long, crc32_short, crc32_update, crc32_init, crc32_final, long_step}
use hcore.Crc32.Bitwise.{reference, crc32-reference}

-- 123456789
abbrev digits : List ℕ
digits = b'1' ∷ b'2' ∷ b'3' ∷ b'4' ∷ b'5' ∷ b'6' ∷ b'7' ∷ b'8' ∷ b'9' ∷ []

digits_check : crc32_long digits ≡ 0xcbf43926
unfolding crc32_long crc32_update long_step
digits_check = refl

crc32-reference_example :
    (crc32_long digits ≡ reference digits)
    × (crc32_short digits ≡ reference digits)
    × (crc32_final (crc32_update (crc32_update crc32_init digits) (7 ∷ []))
        ≡ reference (digits ++ 7 ∷ []))
crc32-reference_example = crc32-reference digits (7 ∷ []) (omega arith) (omega arith)
