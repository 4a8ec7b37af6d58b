-- ===== src/Bits.antt =====
-- The bitwise operators of C on the native numbers, digit by digit: what the shifts, the masks and
-- the exclusive ors of myos-lib/src/crc32.c and myos-lib/src/serializer.c rest on.
use Prim.Native.Nat.{digits, differ, bit_xor, bit_xor-bitwise, bit_or, bit_or-bitwise, max}
pub use Prim.Native.Nat.{bit_xor, bit_or}
use native.Mathlib.Nat.{mul_assoc}
use freelang_independent_ful.Prelude.{
  ℕ, zero, suc, ◌+◌, ◌*◌, ◌/◌, ◌%◌, ◌^◌, ◌≤◌, ◌<◌, ◌≡◌, refl, sym, ap, ◌∙◌, arith,
}

digits-fuel :
    (z : ℕ → ℕ) (f : ℕ → ℕ → ℕ) (n m a b : ℕ) → a ≤ n → a ≤ m → digits z f n a b ≡ digits z f m a b
digits-fuel z f zero zero a b p q = refl
digits-fuel z f zero (suc m) zero b p q = refl
digits-fuel z f zero (suc m) (suc a) b p q = absurd (omega arith)
digits-fuel z f (suc n) zero zero b p q = refl
digits-fuel z f (suc n) zero (suc a) b p q = absurd (omega arith)
digits-fuel z f (suc n) (suc m) zero b p q = refl
digits-fuel z f (suc n) (suc m) (suc a) b p q =
    ap (λ k. k * 2 + f (suc a % 2) (b % 2))
      (digits-fuel z f n m (suc a / 2) (b / 2) (omega arith) (omega arith))

-- The last digit and the rest.
pub xor_step : (a b : ℕ) → bit_xor a b ≡ bit_xor (a / 2) (b / 2) * 2 + differ (a % 2) (b % 2)
xor_step zero b = rw (bit_xor-bitwise 0 b, bit_xor-bitwise 0 (b / 2)) (omega arith)
xor_step (suc a) b =
    rw (bit_xor-bitwise (suc a) b, bit_xor-bitwise (suc a / 2) (b / 2))
      (ap (λ k. k * 2 + differ (suc a % 2) (b % 2))
        (digits-fuel (λ b. b) differ a (suc a / 2) (suc a / 2) (b / 2) (omega arith) (omega arith)))

pub or_step : (a b : ℕ) → bit_or a b ≡ bit_or (a / 2) (b / 2) * 2 + max (a % 2) (b % 2)
or_step zero b = rw (bit_or-bitwise 0 b, bit_or-bitwise 0 (b / 2)) (omega arith)
or_step (suc a) b =
    rw (bit_or-bitwise (suc a) b, bit_or-bitwise (suc a / 2) (b / 2))
      (ap (λ k. k * 2 + max (suc a % 2) (b % 2))
        (digits-fuel (λ b. b) max a (suc a / 2) (suc a / 2) (b / 2) (omega arith) (omega arith)))

differ-lt : (a b : ℕ) → a < 2 → b < 2 → differ a b < 2
differ-lt zero b p q = q
differ-lt (suc zero) zero p q = omega arith
differ-lt (suc zero) (suc zero) p q = omega arith
differ-lt (suc zero) (suc (suc b)) p q = absurd (omega arith)
differ-lt (suc (suc a)) b p q = absurd (omega arith)

pub xor-half : (a b : ℕ) → bit_xor a b / 2 ≡ bit_xor (a / 2) (b / 2)
xor-half a b = omega (arith, xor_step a b, differ-lt (a % 2) (b % 2) (omega arith) (omega arith))

pub xor-last : (a b : ℕ) → bit_xor a b % 2 ≡ differ (a % 2) (b % 2)
xor-last a b = omega (arith, xor_step a b, differ-lt (a % 2) (b % 2) (omega arith) (omega arith))

pub xor-lt : (n a b : ℕ) → a < 2 ^ n → b < 2 ^ n → bit_xor a b < 2 ^ n
xor-lt zero a b p q =
    let e : a ≡ 0 = omega arith in let e' : b ≡ 0 = omega arith in rw (e, e') (omega arith)
xor-lt (suc n) a b p q =
    let ih = xor-lt n (a / 2) (b / 2) (omega arith) (omega arith) in
    omega (arith, xor_step a b, differ-lt (a % 2) (b % 2) (omega arith) (omega arith))

-- Two numbers with the same last digit and the same rest are equal.
halves_ext : (a b : ℕ) → a / 2 ≡ b / 2 → a % 2 ≡ b % 2 → a ≡ b
halves_ext a b p q = omega arith

pub xor_zero_left : (b : ℕ) → bit_xor 0 b ≡ b
xor_zero_left b = bit_xor-bitwise 0 b

differ_assoc : (a b c : ℕ) → a < 2 → b < 2 → c < 2 → differ (differ a b) c ≡ differ a (differ b c)
differ_assoc zero b c p q r = refl
differ_assoc (suc zero) zero c p q r = refl
differ_assoc (suc zero) (suc zero) zero p q r = refl
differ_assoc (suc zero) (suc zero) (suc zero) p q r = refl
differ_assoc (suc zero) (suc zero) (suc (suc c)) p q r = absurd (omega arith)
differ_assoc (suc zero) (suc (suc b)) c p q r = absurd (omega arith)
differ_assoc (suc (suc a)) b c p q r = absurd (omega arith)

differ_comm : (a b : ℕ) → differ a b ≡ differ b a
differ_comm zero zero = refl
differ_comm zero (suc b) = refl
differ_comm (suc a) zero = refl
differ_comm (suc a) (suc b) = differ_comm a b

differ_self : (a : ℕ) → differ a a ≡ 0
differ_self zero = refl
differ_self (suc a) = differ_self a

xor_comm_below : (n a b : ℕ) → a ≤ n → b ≤ n → bit_xor a b ≡ bit_xor b a
xor_comm_below zero a b p q = let e : a ≡ b = omega arith in rw e refl
xor_comm_below (suc n) a b p q =
    halves_ext _ _
      (xor-half a b
        ∙ xor_comm_below n (a / 2) (b / 2) (omega arith) (omega arith)
        ∙ sym (xor-half b a))
      (xor-last a b ∙ differ_comm (a % 2) (b % 2) ∙ sym (xor-last b a))

pub xor_comm : (a b : ℕ) → bit_xor a b ≡ bit_xor b a
xor_comm a b = xor_comm_below (a + b) a b (omega arith) (omega arith)

xor_assoc_below :
    (n a b c : ℕ) → a ≤ n → b ≤ n → c ≤ n → bit_xor (bit_xor a b) c ≡ bit_xor a (bit_xor b c)
xor_assoc_below zero a b c p q r =
    let e : a ≡ 0 = omega arith in rw (e, xor_zero_left b, xor_zero_left (bit_xor b c)) refl
xor_assoc_below (suc n) a b c p q r =
    halves_ext _ _
      (xor-half (bit_xor a b) c
        ∙ ap (λ k. bit_xor k (c / 2)) (xor-half a b)
        ∙ xor_assoc_below n (a / 2) (b / 2) (c / 2) (omega arith) (omega arith) (omega arith)
        ∙ ap (λ k. bit_xor (a / 2) k) (sym (xor-half b c))
        ∙ sym (xor-half a (bit_xor b c)))
      (xor-last (bit_xor a b) c
        ∙ ap (λ k. differ k (c % 2)) (xor-last a b)
        ∙ differ_assoc (a % 2) (b % 2) (c % 2) (omega arith) (omega arith) (omega arith)
        ∙ ap (λ k. differ (a % 2) k) (sym (xor-last b c))
        ∙ sym (xor-last a (bit_xor b c)))

pub xor_assoc : (a b c : ℕ) → bit_xor (bit_xor a b) c ≡ bit_xor a (bit_xor b c)
xor_assoc a b c = xor_assoc_below (a + b + c) a b c (omega arith) (omega arith) (omega arith)

xor_self_below : (n a : ℕ) → a ≤ n → bit_xor a a ≡ 0
xor_self_below zero a p = let e : a ≡ 0 = omega arith in rw (e, xor_zero_left 0) refl
xor_self_below (suc n) a p =
    halves_ext _ _ (xor-half a a ∙ xor_self_below n (a / 2) (omega arith))
      (xor-last a a ∙ differ_self (a % 2))

pub xor_self : (a : ℕ) → bit_xor a a ≡ 0
xor_self a = xor_self_below a a (omega arith)

-- Exclusive or with the same number twice changes nothing.
pub xor_cancel : (a b : ℕ) → bit_xor (bit_xor a b) b ≡ a
xor_cancel a b =
    xor_assoc a b b ∙ ap (λ k. bit_xor a k) (xor_self b) ∙ xor_comm a 0 ∙ xor_zero_left a

pub shift_double : (a k : ℕ) → a * 2 ^ suc k ≡ (a * 2 ^ k) * 2
shift_double a k =
    let e : 2 ^ suc k ≡ 2 ^ k * 2 = omega arith in ap (λ t. a * t) e ∙ sym (mul_assoc a (2 ^ k) 2)

-- Digits that do not overlap: the operators add.
pub xor_disjoint : (k a b : ℕ) → b < 2 ^ k → bit_xor (a * 2 ^ k) b ≡ a * 2 ^ k + b
xor_disjoint zero a b h =
    let e : b ≡ 0 = omega arith in
    rw e (ap (λ t. bit_xor t 0) (omega arith) ∙ xor_comm a 0 ∙ xor_zero_left a ∙ omega arith)
xor_disjoint (suc k) a b h =
    let double : a * 2 ^ suc k ≡ (a * 2 ^ k) * 2 = shift_double a k in
    let rest : (a * 2 ^ k) * 2 / 2 ≡ a * 2 ^ k = omega arith in
    let last : (a * 2 ^ k) * 2 % 2 ≡ 0 = omega arith in
    let ih = xor_disjoint k a (b / 2) (omega arith) in
    rw (double, xor_step ((a * 2 ^ k) * 2) b, rest, last, ih) (omega arith)

or_zero_below : (n a : ℕ) → a ≤ n → bit_or a 0 ≡ a
or_zero_below zero a p = let e : a ≡ 0 = omega arith in rw (e, bit_or-bitwise 0 0) refl
or_zero_below (suc n) a p = rw (or_step a 0, or_zero_below n (a / 2) (omega arith)) (omega arith)

pub or_disjoint : (k a b : ℕ) → b < 2 ^ k → bit_or (a * 2 ^ k) b ≡ a * 2 ^ k + b
or_disjoint zero a b h =
    let e : b ≡ 0 = omega arith in
    rw e (ap (λ t. bit_or t 0) (omega arith) ∙ or_zero_below a a (omega arith) ∙ omega arith)
or_disjoint (suc k) a b h =
    let double : a * 2 ^ suc k ≡ (a * 2 ^ k) * 2 = shift_double a k in
    let rest : (a * 2 ^ k) * 2 / 2 ≡ a * 2 ^ k = omega arith in
    let last : (a * 2 ^ k) * 2 % 2 ≡ 0 = omega arith in
    let ih = or_disjoint k a (b / 2) (omega arith) in
    rw (double, or_step ((a * 2 ^ k) * 2) b, rest, last, ih) (omega arith)
