-- ===== src/Crc32/Linear.antt =====
-- The table against the bit by bit definition of the CRC: a shift by one bit is linear for
-- exclusive or, so eight of them split into the table entry of the low byte and the high bytes.
use freelang_independent_ful.Prelude.{
  ℕ, zero, suc, ◌+◌, ◌*◌, ◌/◌, ◌%◌, ◌^◌, ◌<◌, ◌≡◌, refl, sym, ap, ◌∙◌, arith, ◌==◌, if◌then◌else◌,
  Bool-cases, inl, inr,
}
use freelang_independent_ful.Bits.{
  bit_xor, xor-half, xor-last, xor_assoc, xor_comm, xor_self, xor_zero_left, xor_disjoint, xor-lt,
  shift_double,
}
use Prim.Native.Nat.{differ}
use freelang_independent_ful.Crc32.{shift_bit, shift_bits, crc32_table_entry, feed_byte, polynomial}

-- what one shift adds to the halved number
term : ℕ → ℕ
term d = if d == 1 then polynomial else 0

shift_bit-term : (a : ℕ) → shift_bit a ≡ bit_xor (a / 2) (term (a % 2))
unfolding shift_bit term
shift_bit-term a = elim (Bool-cases (a % 2 == 1)) [
  | inl e ↦ rw e refl
  | inr e ↦ rw e (sym (xor_zero_left (a / 2)) ∙ xor_comm 0 (a / 2))
]

term-differ : (d e : ℕ) → d < 2 → e < 2 → term (differ d e) ≡ bit_xor (term d) (term e)
unfolding term
term-differ zero e p q = sym (xor_zero_left (term e))
term-differ (suc zero) zero p q = sym (xor_zero_left polynomial) ∙ xor_comm 0 polynomial
term-differ (suc zero) (suc zero) p q = sym (xor_self polynomial)
term-differ (suc zero) (suc (suc e)) p q = absurd (omega arith)
term-differ (suc (suc d)) e p q = absurd (omega arith)

xor_exchange :
    (a b c d : ℕ) → bit_xor (bit_xor a b) (bit_xor c d) ≡ bit_xor (bit_xor a c) (bit_xor b d)
xor_exchange a b c d =
    xor_assoc a b (bit_xor c d)
    ∙ ap (λ k. bit_xor a k)
        (sym (xor_assoc b c d) ∙ ap (λ k. bit_xor k d) (xor_comm b c) ∙ xor_assoc c b d)
    ∙ sym (xor_assoc a c (bit_xor b d))

shift_bit-xor : (a b : ℕ) → shift_bit (bit_xor a b) ≡ bit_xor (shift_bit a) (shift_bit b)
shift_bit-xor a b =
    rw
      (
        shift_bit-term (bit_xor a b),
        shift_bit-term a,
        shift_bit-term b,
        xor-half a b,
        xor-last a b,
        term-differ (a % 2) (b % 2) (omega arith) (omega arith),
      )
      (xor_exchange (a / 2) (b / 2) (term (a % 2)) (term (b % 2)))

pub shift_bits-xor :
    (n a b : ℕ) → shift_bits n (bit_xor a b) ≡ bit_xor (shift_bits n a) (shift_bits n b)
unfolding shift_bits
shift_bits-xor zero a b = refl
shift_bits-xor (suc n) a b =
    ap (shift_bits n) (shift_bit-xor a b) ∙ shift_bits-xor n (shift_bit a) (shift_bit b)

-- the bits above the lowest `n` are only shifted down
shift_bits-high : (n a : ℕ) → shift_bits n (a * 2 ^ n) ≡ a
unfolding shift_bits shift_bit
shift_bits-high zero a = omega arith
shift_bits-high (suc n) a =
    let double : a * 2 ^ suc n ≡ (a * 2 ^ n) * 2 = shift_double a n in
    let rest : (a * 2 ^ n) * 2 / 2 ≡ a * 2 ^ n = omega arith in
    let last : (a * 2 ^ n) * 2 % 2 ≡ 0 = omega arith in
    rw (double, last, rest) (shift_bits-high n a)

-- The table lookup of `crc32_update` computes eight shifts of the CRC, bit by bit, after the byte
-- is xored into it, for a byte below 256 and any CRC.
pub feed_byte_lem :
    (crc byte : ℕ) → byte < 256 → feed_byte crc byte ≡ shift_bits 8 (bit_xor crc byte)
unfolding feed_byte crc32_table_entry
feed_byte_lem crc byte h =
    let whole : crc ≡ bit_xor (crc / 256 * 256) (crc % 256) =
      omega arith ∙ sym (xor_disjoint 8 (crc / 256) (crc % 256) (omega arith)) in
    let low : bit_xor (crc % 256) byte < 256 = xor-lt 8 (crc % 256) byte (omega arith) h in
    let mixed : bit_xor crc byte ≡ bit_xor (crc / 256 * 256) (bit_xor (crc % 256) byte) =
      ap (λ k. bit_xor k byte) whole ∙ xor_assoc (crc / 256 * 256) (crc % 256) byte in
    let sum : bit_xor crc byte ≡ crc / 256 * 256 + bit_xor (crc % 256) byte =
      mixed ∙ xor_disjoint 8 (crc / 256) (bit_xor (crc % 256) byte) low in
    let last : bit_xor crc byte % 256 ≡ bit_xor (crc % 256) byte = omega (arith, sum) in
    ap (λ k. bit_xor (crc / 256) (shift_bits 8 k)) last
    ∙ ap (λ k. bit_xor k (shift_bits 8 (bit_xor (crc % 256) byte)))
        (sym (shift_bits-high 8 (crc / 256)))
    ∙ sym (shift_bits-xor 8 (crc / 256 * 256) (bit_xor (crc % 256) byte))
    ∙ ap (shift_bits 8) (sym mixed)
