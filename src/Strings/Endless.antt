-- ===== src/Strings/Endless.antt =====
-- Loops of myos-lib/src/string.c that do not end: the doubling of a capacity that wraps to 0, and the
-- search of `string_replace` in a text that is shorter than what is sought.
use freelang_independent_ful.Prelude.{
  ℕ, zero, suc, ◌+◌, ◌-◌, ◌*◌, ◌^◌, ◌≤◌, ◌<◌, ◌≡◌, refl, true, false, none, ltb, ◌==◌, arith,
}
use freelang_independent_ful.Memory.{Bytes, size_mod, mul_size, sub_size}
use freelang_independent_ful.Heap.{Heap}
use freelang_independent_ful.Strings.{String, spinning, my_strlen, double_until}
use freelang_independent_ful.Strings.Search.{my_strncmp, is_equal}
use freelang_independent_ful.Strings.Rework.{replace_from, string_replace}

double_until-zero : (n r : ℕ) → 0 < r → double_until n 0 r ≡ none
unfolding double_until
double_until-zero zero r h = refl
double_until-zero (suc n) r h =
    let t : ltb 0 r ≡ true = ground arith in rw t (double_until-zero n r h)

pow_le : (a b : ℕ) → 2 ^ a ≤ 2 ^ (a + b)
pow_le a zero = let e : a + 0 ≡ a = omega arith in rw e (omega arith)
pow_le a (suc b) =
    let e : a + suc b ≡ suc (a + b) = omega arith in
    let ih = pow_le a b in
    let p : 2 ^ suc (a + b) ≡ 2 ^ (a + b) * 2 = omega arith in rw e (omega (arith, ih, p))

double_until-pow : (j d n r : ℕ) → d + j ≡ 63 → 2 ^ 63 < r → double_until n (2 ^ d) r ≡ none
unfolding double_until
double_until-pow j d zero r e h = refl
double_until-pow zero d (suc n) r e h =
    let last : d ≡ 63 = omega arith in
    let t : ltb (2 ^ 63) r ≡ true = ground arith in
    rw (last, t) (double_until-zero n r (omega arith))
double_until-pow (suc j) d (suc n) r e h =
    let top : 2 ^ suc d ≤ 2 ^ 63 =
      let q : suc d + j ≡ 63 = omega arith in (rw q at (pow_le (suc d) j)) in
    let p : 2 ^ suc d ≡ 2 ^ d * 2 = omega arith in
    let t : ltb (2 ^ d) r ≡ true = let q : 2 ^ d < r = omega arith in ground arith in
    let m : mul_size (2 ^ d) 2 ≡ 2 ^ suc d = omega arith in
    rw (t, m) (double_until-pow j (suc d) n r (omega arith) h)

-- When the capacity is a power of two, as it is from 16 on by doubling, a request for more than 2^63
-- bytes makes the loop of `string_ensure_capacity` run on for any number of rounds: the capacity
-- wraps to 0 and stays there.
pub double_until-spins :
    (s : String) (k required n : ℕ)
    → s.capacity ≡ 2 ^ k
    → k ≤ 62
    → 2 ^ 63 < required
    → double_until n (mul_size s.capacity 2) required ≡ none
double_until-spins s k required n e h r =
    let p : 2 ^ suc k ≡ 2 ^ k * 2 = omega arith in
    let top : 2 ^ suc k ≤ 2 ^ 63 =
      let q : suc k + (62 - k) ≡ 63 = omega arith in (rw q at (pow_le (suc k) (62 - k))) in
    let m : mul_size s.capacity 2 ≡ 2 ^ suc k = omega arith in
    rw m (double_until-pow (62 - k) (suc k) n required (omega arith) r)

replace_from-spins :
    (n pos count : ℕ) (s : String) (from to : Bytes) (h : Heap)
    → s.len < my_strlen from
    → pos + n + my_strlen from ≤ size_mod
    → ((p : ℕ) → is_equal (my_strncmp (my_strlen from) s.data' p from 0) ≡ false)
    → (replace_from n pos count s from to h).0 ≡ spinning
unfolding replace_from
replace_from-spins zero pos count s from to h short room miss = refl
replace_from-spins (suc n) pos count s from to h short room miss =
    let t : ltb (sub_size s.len (my_strlen from)) pos ≡ false =
      let q : pos ≤ sub_size s.len (my_strlen from) = omega arith in ground (arith, q) in
    rw (t, miss pos) (replace_from-spins n (pos + 1) count s from to h short (omega arith) miss)

-- On a text shorter than `from`, the bound of the loop of `string_replace` wraps: while nothing
-- matches, the loop runs on far behind the buffer, for any number of rounds that leaves the offset
-- and the length of `from` within a size_t.
pub replace_spins :
    (rounds : ℕ) (s : String) (from to : Bytes) (h : Heap)
    → s.len < my_strlen from
    → rounds + my_strlen from ≤ size_mod
    → ((p : ℕ) → is_equal (my_strncmp (my_strlen from) s.data' p from 0) ≡ false)
    → (string_replace rounds s from to h).0 ≡ spinning
unfolding string_replace
replace_spins rounds s from to h short room miss =
    let t : (my_strlen from == 0) ≡ false = ground arith in
    rw t (replace_from-spins rounds 0 0 s from to h short (omega arith) miss)
