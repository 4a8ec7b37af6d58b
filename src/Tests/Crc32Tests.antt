-- ===== src/Tests/Crc32Tests.antt =====
-- The CRC of myos-lib/src/crc32.c on concrete messages.
use freelang_independent_ful.Prelude.{ℕ, ◌≡◌, ◌≢◌, [], ◌∷◌, ◌++◌, List, refl, arith}
use freelang_independent_ful.Crc32.{
  shift_bit, shift_bits, crc32_table_entry, crc32_update, crc32_calculate, calculate_from, all_ones,
}
use freelang_independent_ful.Crc32.Stream.{AllBytes, reference, update-reference}
use freelang_independent_ful.Crc32.Detection.{calculate-detects}

-- "123456789", whose CRC the standard gives as CBF43926
abbrev digit_text : List ℕ
digit_text = 49 ∷ 50 ∷ 51 ∷ 52 ∷ 53 ∷ 54 ∷ 55 ∷ 56 ∷ 57 ∷ []

check_value : crc32_calculate digit_text ≡ 3421780262
unfolding crc32_calculate calculate_from crc32_table_entry shift_bits shift_bit
check_value = refl

two-AllBytes : AllBytes (7 ∷ 255 ∷ [])
unfolding AllBytes
two-AllBytes = (omega arith, (omega arith, tt))

update-reference_example : crc32_update all_ones (7 ∷ 255 ∷ []) ≡ reference all_ones (7 ∷ 255 ∷ [])
update-reference_example = update-reference all_ones (7 ∷ 255 ∷ []) two-AllBytes

calculate-detects_example :
    crc32_calculate ((1 ∷ []) ++ 4 ∷ 7 ∷ 255 ∷ []) ≢ crc32_calculate ((1 ∷ []) ++ 5 ∷ 7 ∷ 255 ∷ [])
calculate-detects_example =
    calculate-detects (1 ∷ []) (7 ∷ 255 ∷ []) 4 5 two-AllBytes (omega arith) (omega arith)
      (omega arith)
