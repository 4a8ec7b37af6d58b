-- ===== src/Crc32.antt =====
-- The CRC of myos-lib/src/crc32.c. A uint32_t is a number below 2^32 and a byte one below 256: a
-- right shift by k is a division by 2^k, the mask 0xFF a remainder by 256.
pub mod Linear
pub mod Stream
pub mod Detection
use freelang_independent_ful.Prelude.{ℕ, zero, suc, ◌/◌, ◌%◌, List, [], ◌∷◌, ◌==◌, if◌then◌else◌}
use freelang_independent_ful.Bits.{bit_xor}

-- 0xEDB88320
abbrev pub polynomial : ℕ
polynomial = 3988292384

-- 0xFFFFFFFF
abbrev pub all_ones : ℕ
all_ones = 4294967295

-- one round of the loop of `crc32_table_entry`
unfoldable pub shift_bit : ℕ → ℕ
shift_bit crc = if crc % 2 == 1 then bit_xor (crc / 2) polynomial else crc / 2

unfoldable pub shift_bits : ℕ → ℕ → ℕ
unfolding shift_bit
shift_bits zero crc = crc
shift_bits (suc n) crc = shift_bits n (shift_bit crc)

unfoldable pub crc32_table_entry : ℕ → ℕ
unfolding shift_bits
crc32_table_entry index = shift_bits 8 index

-- one round of the loop over the data
unfoldable pub feed_byte : ℕ → ℕ → ℕ
unfolding crc32_table_entry
feed_byte crc byte = bit_xor (crc / 256) (crc32_table_entry (bit_xor crc byte % 256))

unfoldable pub crc32_update : ℕ → List ℕ → ℕ
unfolding feed_byte
crc32_update crc [] = crc
crc32_update crc (byte ∷ bytes) = crc32_update (feed_byte crc byte) bytes

unfoldable pub crc32_finalize : ℕ → ℕ
crc32_finalize crc = bit_xor crc all_ones

-- the loop of `crc32_calculate`, its own copy of that of `crc32_update`
unfoldable pub calculate_from : ℕ → List ℕ → ℕ
unfolding crc32_table_entry
calculate_from crc [] = bit_xor crc all_ones
calculate_from crc (byte ∷ bytes) =
    calculate_from (bit_xor (crc / 256) (crc32_table_entry (bit_xor crc byte % 256))) bytes

unfoldable pub crc32_calculate : List ℕ → ℕ
unfolding calculate_from
crc32_calculate bytes = calculate_from all_ones bytes
