-- ===== src/Crc32/Detection.antt =====
-- What the CRC detects: a shift loses nothing, so a message with one byte changed has another CRC.
use freelang_independent_ful.Prelude.{
  ℕ, zero, suc, ◌/◌, ◌%◌, ◌^◌, ◌<◌, ◌≡◌, ◌≢◌, sym, ap, ◌∙◌, arith, ◌==◌, List, [], ◌∷◌, ◌++◌,
  Bool-cases, inl, inr,
}
use freelang_independent_ful.Bits.{bit_xor, xor-lt, xor_cancel, xor_self, xor_zero_left, xor_comm}
use freelang_independent_ful.Crc32.{
  shift_bit, shift_bits, feed_byte, polynomial, all_ones, crc32_update, crc32_finalize,
  crc32_calculate,
}
use freelang_independent_ful.Crc32.Linear.{feed_byte_lem, shift_bits-xor}
use freelang_independent_ful.Crc32.Stream.{
  shift_bit-lt, feed_byte-lt, AllBytes, update-lt, calculate_from-update, update-append,
}

xor_eq_zero : (a b : ℕ) → bit_xor a b ≡ 0 → a ≡ b
xor_eq_zero a b e = sym (xor_cancel a b) ∙ ap (λ k. bit_xor k b) e ∙ xor_zero_left b

shift_bit-zero : (a : ℕ) → a < 2 ^ 32 → shift_bit a ≡ 0 → a ≡ 0
unfolding shift_bit
shift_bit-zero a h e = elim (Bool-cases (a % 2 == 1)) [
  | inl odd ↦
      let z : bit_xor (a / 2) polynomial ≡ 0 = rw odd at e in
      absurd (omega (arith, xor_eq_zero (a / 2) polynomial z))
  | inr even ↦ let z : a / 2 ≡ 0 = rw even at e in ground arith
]

shift_bits-zero : (n a : ℕ) → a < 2 ^ 32 → shift_bits n a ≡ 0 → a ≡ 0
unfolding shift_bits
shift_bits-zero zero a h e = e
shift_bits-zero (suc n) a h e =
    shift_bit-zero a h (shift_bits-zero n (shift_bit a) (shift_bit-lt a h) e)

feed_byte-inj :
    (c c' b b' : ℕ)
    → c < 2 ^ 32
    → c' < 2 ^ 32
    → b < 256
    → b' < 256
    → feed_byte c b ≡ feed_byte c' b'
    → bit_xor c b ≡ bit_xor c' b'
feed_byte-inj c c' b b' h h' k k' e =
    let p = xor-lt 32 c b h (omega arith) in
    let q = xor-lt 32 c' b' h' (omega arith) in
    let same : shift_bits 8 (bit_xor c b) ≡ shift_bits 8 (bit_xor c' b') =
      sym (feed_byte_lem c b k) ∙ e ∙ feed_byte_lem c' b' k' in
    xor_eq_zero (bit_xor c b) (bit_xor c' b') (
      shift_bits-zero 8 (bit_xor (bit_xor c b) (bit_xor c' b'))
        (xor-lt 32 (bit_xor c b) (bit_xor c' b') p q)
        (shift_bits-xor 8 (bit_xor c b) (bit_xor c' b')
          ∙ ap (λ k. bit_xor k (shift_bits 8 (bit_xor c' b'))) same
          ∙ xor_self (shift_bits 8 (bit_xor c' b'))))

xor_cancel_left : (a b c : ℕ) → bit_xor a b ≡ bit_xor a c → b ≡ c
xor_cancel_left a b c e =
    sym (xor_cancel b a) ∙ ap (λ k. bit_xor k a) (xor_comm b a ∙ e ∙ xor_comm a c) ∙ xor_cancel c a

xor_cancel_right : (a b c : ℕ) → bit_xor a c ≡ bit_xor b c → a ≡ b
xor_cancel_right a b c e = sym (xor_cancel a c) ∙ ap (λ k. bit_xor k c) e ∙ xor_cancel b c

update-inj :
    (bytes : List ℕ) (c c' : ℕ)
    → AllBytes bytes
    → c < 2 ^ 32
    → c' < 2 ^ 32
    → crc32_update c bytes ≡ crc32_update c' bytes
    → c ≡ c'
unfolding crc32_update AllBytes
update-inj [] c c' k h h' e = e
update-inj (b ∷ bytes) c c' (k, ks) h h' e = xor_cancel_right c c' b (
    feed_byte-inj c c' b b h h' k k (
      update-inj bytes (feed_byte c b) (feed_byte c' b) ks (feed_byte-lt c b h)
        (feed_byte-lt c' b h') e))

-- `crc32_calculate` tells apart any two messages that differ in exactly one byte, wherever it
-- stands and whatever stands around it.
pub calculate-detects :
    (xs ys : List ℕ) (b b' : ℕ)
    → AllBytes ys
    → b < 256
    → b' < 256
    → b ≢ b'
    → crc32_calculate (xs ++ b ∷ ys) ≢ crc32_calculate (xs ++ b' ∷ ys)
unfolding crc32_calculate crc32_finalize crc32_update
calculate-detects xs ys b b' k h h' ne e =
    let bound = update-lt all_ones xs (omega arith) in
    let final : crc32_update all_ones (xs ++ b ∷ ys) ≡ crc32_update all_ones (xs ++ b' ∷ ys) =
      xor_cancel_right _ _ all_ones (
        sym (calculate_from-update all_ones (xs ++ b ∷ ys))
        ∙ e
        ∙ calculate_from-update all_ones (xs ++ b' ∷ ys)) in
    let after : crc32_update (feed_byte (crc32_update all_ones xs) b) ys
        ≡ crc32_update (feed_byte (crc32_update all_ones xs) b') ys =
      sym (update-append all_ones xs (b ∷ ys)) ∙ final ∙ update-append all_ones xs (b' ∷ ys) in
    let first =
      update-inj ys _ _ k (feed_byte-lt (crc32_update all_ones xs) b bound)
        (feed_byte-lt (crc32_update all_ones xs) b' bound) after in
    ne (
      xor_cancel_left (crc32_update all_ones xs) b b' (
        feed_byte-inj (crc32_update all_ones xs) (crc32_update all_ones xs) b b' bound bound h h'
          first))
