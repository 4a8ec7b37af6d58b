-- ===== src/Crc32/Stream.antt =====
-- The CRC of a stream of bytes: in parts, in one call, against the bit by bit definition, in range.
use freelang_independent_ful.Prelude.{
  ℕ, zero, suc, ◌/◌, ◌%◌, ◌^◌, ◌<◌, ◌≡◌, refl, ap, ◌∙◌, arith, ◌==◌, List, [], ◌∷◌, ◌++◌,
  Bool-cases, inl, inr,
}
use freelang_independent_ful.Bits.{bit_xor, xor-lt}
use freelang_independent_ful.Crc32.{
  shift_bit, shift_bits, crc32_table_entry, feed_byte, polynomial, all_ones, crc32_update,
  crc32_finalize, crc32_calculate, calculate_from,
}
use freelang_independent_ful.Crc32.Linear.{feed_byte_lem}

unfoldable pub AllBytes : List ℕ → Type 0
AllBytes [] = Unit
AllBytes (b ∷ bs) = b < 256 × AllBytes bs

pub calculate_from-update :
    (crc : ℕ) (bytes : List ℕ) → calculate_from crc bytes ≡ crc32_finalize (crc32_update crc bytes)
unfolding calculate_from crc32_finalize crc32_update feed_byte
calculate_from-update crc [] = refl
calculate_from-update crc (b ∷ bytes) = calculate_from-update (feed_byte crc b) bytes

pub update-append :
    (crc : ℕ) (xs ys : List ℕ) → crc32_update crc (xs ++ ys) ≡ crc32_update (crc32_update crc xs) ys
unfolding crc32_update
update-append crc [] ys = refl
update-append crc (x ∷ xs) ys = update-append (feed_byte crc x) xs ys

-- The CRC of two parts one after the other, in one call of `crc32_calculate`, is what two calls of
-- `crc32_update` from 0xFFFFFFFF and one of `crc32_finalize` yield.
pub calculate-update :
    (xs ys : List ℕ)
    → crc32_calculate (xs ++ ys) ≡ crc32_finalize (crc32_update (crc32_update all_ones xs) ys)
unfolding crc32_calculate
calculate-update xs ys =
    calculate_from-update all_ones (xs ++ ys) ∙ ap crc32_finalize (update-append all_ones xs ys)

-- the CRC as the standard states it: each byte is xored in and shifted out bit by bit
unfoldable pub reference : ℕ → List ℕ → ℕ
reference crc [] = crc
reference crc (b ∷ bytes) = reference (shift_bits 8 (bit_xor crc b)) bytes

-- `crc32_update`, by a table entry for each byte, computes the bit by bit CRC, on any list of bytes.
pub update-reference :
    (crc : ℕ) (bytes : List ℕ) → AllBytes bytes → crc32_update crc bytes ≡ reference crc bytes
unfolding crc32_update reference AllBytes
update-reference crc [] h = refl
update-reference crc (b ∷ bytes) (h, hs) =
    update-reference (feed_byte crc b) bytes hs
    ∙ ap (λ k. reference k bytes) (feed_byte_lem crc b h)

pub shift_bit-lt : (crc : ℕ) → crc < 2 ^ 32 → shift_bit crc < 2 ^ 32
unfolding shift_bit
shift_bit-lt crc h = elim (Bool-cases (crc % 2 == 1)) [
  | inl e ↦ rw e (xor-lt 32 (crc / 2) polynomial (omega arith) (omega arith))
  | inr e ↦ rw e (omega arith)
]

pub shift_bits-lt : (n crc : ℕ) → crc < 2 ^ 32 → shift_bits n crc < 2 ^ 32
unfolding shift_bits
shift_bits-lt zero crc h = h
shift_bits-lt (suc n) crc h = shift_bits-lt n (shift_bit crc) (shift_bit-lt crc h)

pub feed_byte-lt : (crc b : ℕ) → crc < 2 ^ 32 → feed_byte crc b < 2 ^ 32
unfolding feed_byte crc32_table_entry
feed_byte-lt crc b h =
    xor-lt 32 (crc / 256) (shift_bits 8 (bit_xor crc b % 256)) (omega arith)
      (shift_bits-lt 8 (bit_xor crc b % 256) (omega arith))

pub update-lt : (crc : ℕ) (bytes : List ℕ) → crc < 2 ^ 32 → crc32_update crc bytes < 2 ^ 32
unfolding crc32_update
update-lt crc [] h = h
update-lt crc (b ∷ bytes) h = update-lt (feed_byte crc b) bytes (feed_byte-lt crc b h)

-- `crc32_calculate` of any list of bytes is below 2^32.
pub calculate-lt : (bytes : List ℕ) → crc32_calculate bytes < 2 ^ 32
unfolding crc32_calculate crc32_finalize
calculate-lt bytes = rw (calculate_from-update all_ones bytes) (
    xor-lt 32 (crc32_update all_ones bytes) all_ones (update-lt all_ones bytes (omega arith))
      (omega arith))
