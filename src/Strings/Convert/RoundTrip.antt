-- ===== src/Strings/Convert/RoundTrip.antt =====
-- A number that is written as text is read back.
use freelang_independent_ful.Prelude.{
  ℕ, zero, suc, ◌+◌, ◌-◌, ◌*◌, ◌/◌, ◌^◌, ◌≤◌, ◌<◌, ◌≡◌, ◌≢◌, refl, sym, ap, ◌∙◌, true, false, ◌||◌,
  none, some, [], ◌∷◌, ltb, leb, ◌==◌, get_or, take, length, arith, inl, inr, ◌⊎◌, Bool-cases,
  ℕ_discrete,
}
use freelang_independent_ful.Prelude.Slices.{take_past}
use freelang_independent_ful.Memory.{Bytes}
use freelang_independent_ful.Heap.{Heap}
use freelang_independent_ful.Strings.{String, my_strlen}
use freelang_independent_ful.Strings.New.{Makes, string_new_lem}
use freelang_independent_ful.Strings.Insert.{chars}
use freelang_independent_ful.Strings.Valid.{IsValid, text, length-text, get_or-text}
use freelang_independent_ful.Strings.Convert.{
  ℤ, pos, negsuc, signed, scan, number, parse_int, string_to_int, temp_digits, turned, digits_of,
  decimal, int_to_string_impl, string_from_int,
}

IsDigit : ℕ → Type 0
IsDigit c = 48 ≤ c × c ≤ 57

AllDigits : Bytes → Type 0
AllDigits [] = Unit
AllDigits (c ∷ cs) = IsDigit c × AllDigits cs

-- the number that digits spell, the last one first
value : Bytes → ℕ
value [] = 0
value (c ∷ cs) = value cs * 10 + (c - 48)

temp_digits_lem : (n v : ℕ) → v < 10 ^ n → AllDigits (temp_digits n v) × value (temp_digits n v) ≡ v
unfolding temp_digits AllDigits value IsDigit
temp_digits_lem zero v h = (tt, omega arith)
temp_digits_lem (suc n) v h = elim (ℕ_discrete v 0) [
  | yes z ↦ let t : (v == 0) ≡ true = ground arith in rw t (tt, sym z)
  | no nz ↦
      let t : (v == 0) ≡ false = ground arith in
      let (ds, e) = temp_digits_lem n (v / 10) (omega arith) in
      rw t (((omega arith, omega arith), ds), omega (arith, e))
]

-- the digits of a list read in order, by the same sum
read : Bytes → ℕ → ℕ
read [] r = r
read (c ∷ cs) r = read cs (r * 10 + (c - 48))

read-turned : (ds out : Bytes) → read (turned ds out) 0 ≡ read out (value ds)
unfolding read turned value
read-turned [] out = refl
read-turned (c ∷ ds) out = read-turned ds (c ∷ out)

AllDigits-turned : (ds out : Bytes) → AllDigits ds → AllDigits out → AllDigits (turned ds out)
unfolding AllDigits turned
AllDigits-turned [] out h k = k
AllDigits-turned (c ∷ ds) out (h, hs) k = AllDigits-turned ds (c ∷ out) hs (h, k)

-- The loop of `parse_int` over the end of a buffer that holds digits.
scan-read :
    (cs : Bytes) (n i : ℕ) (str : Bytes) (r : ℕ)
    → n ≡ length cs
    → ((k : ℕ) → k < n → get_or str (i + k) 0 ≡ get_or cs k 0)
    → AllDigits cs
    → scan n i str r ≡ some (read cs r)
unfolding scan read AllDigits IsDigit
scan-read [] zero i str r e m h = refl
scan-read [] (suc n) i str r e m h = absurd (omega arith)
scan-read (c ∷ cs) zero i str r e m h = absurd (omega arith)
scan-read (c ∷ cs) (suc n) i str r e m ((low, high), hs) =
    let here : get_or str i 0 ≡ c = ap (λ t. get_or str t 0) (omega arith) ∙ m 0 (omega arith) in
    let t : (ltb c 48 || ltb 57 c) ≡ false = ground arith in
    rw (here, t)
      (scan-read cs n (i + 1) str (r * 10 + (c - 48)) (omega arith)
        (λ k p. ap (λ t. get_or str t 0) (omega arith) ∙ m (suc k) (omega arith)) hs)

pub length-turned : (ds out : Bytes) → length (turned ds out) ≡ length ds + length out
unfolding turned
length-turned [] out = omega arith
length-turned (c ∷ ds) out = omega (arith, length-turned ds (c ∷ out))

temp_digits-some : (n v : ℕ) → v ≢ 0 → 1 ≤ length (temp_digits (suc n) v)
unfolding temp_digits
temp_digits-some n v h = let t : (v == 0) ≡ false = ground arith in rw t (omega arith)

digits_of_lem :
    (v : ℕ)
    → v < 10 ^ 19
    → AllDigits (digits_of v) × read (digits_of v) 0 ≡ v × 1 ≤ length (digits_of v)
unfolding digits_of AllDigits IsDigit read
digits_of_lem v h = elim (ℕ_discrete v 0) [
  | yes z ↦
      let t : (v == 0) ≡ true = ground arith in
      rw t (((omega arith, omega arith), tt), sym z, omega arith)
  | no nz ↦
      let t : (v == 0) ≡ false = ground arith in
      let (ds, e) = temp_digits_lem 19 v h in
      rw t (
        AllDigits-turned (temp_digits 19 v) [] ds tt,
        read-turned (temp_digits 19 v) [] ∙ e,
        omega (arith, length-turned (temp_digits 19 v) [], temp_digits-some 18 v nz),
      )
]

-- the absolute value
unfoldable pub magnitude : ℤ → ℕ
magnitude (pos n) = n
magnitude (negsuc n) = n + 1

digits-strlen : (cs : Bytes) → AllDigits cs → my_strlen cs ≡ length cs
unfolding AllDigits IsDigit my_strlen
digits-strlen [] h = refl
digits-strlen (c ∷ cs) ((low, high), hs) =
    let t : (c == 0) ≡ false = ground arith in rw t (ap suc (digits-strlen cs hs))

decimal-strlen :
    (value : ℤ) → magnitude value < 2 ^ 31 → my_strlen (decimal value) ≡ length (decimal value)
unfolding decimal magnitude my_strlen
decimal-strlen (pos n) h =
    let (ds, _, _) = digits_of_lem n (omega arith) in digits-strlen (digits_of n) ds
decimal-strlen (negsuc n) h =
    let (ds, _, _) = digits_of_lem (suc n) (omega arith) in
    ap suc (digits-strlen (digits_of (suc n)) ds)

first-IsDigit : (cs : Bytes) → AllDigits cs → 1 ≤ length cs → IsDigit (get_or cs 0 0)
unfolding AllDigits
first-IsDigit [] h one = absurd (omega arith)
first-IsDigit (c ∷ cs) (h, _) one = h

temp_digits-le : (n v : ℕ) → length (temp_digits n v) ≤ n
unfolding temp_digits
temp_digits-le zero v = omega arith
temp_digits-le (suc n) v = let ih = temp_digits-le n (v / 10) in ground arith

digits_of-le : (v : ℕ) → length (digits_of v) ≤ 19
unfolding digits_of
digits_of-le v = elim (Bool-cases (v == 0)) [
  | inl e ↦ rw e (omega arith)
  | inr e ↦ rw e (omega (arith, length-turned (temp_digits 19 v) [], temp_digits-le 19 v))
]

length-decimal : (value : ℤ) → length (decimal value) ≤ 20
unfolding decimal
length-decimal (pos n) = omega (arith, digits_of-le n)
length-decimal (negsuc n) = omega (arith, digits_of-le (suc n))

-- A buffer that begins with the decimal text of a number is parsed as that number.
parse-decimal :
    (value : ℤ) (str : Bytes)
    → magnitude value < 2 ^ 31
    → ((k : ℕ) → k < length (decimal value) → get_or str k 0 ≡ get_or (decimal value) k 0)
    → parse_int str (length (decimal value)) ≡ some value
unfolding parse_int decimal magnitude number signed IsDigit
parse-decimal (pos n) str h m =
    let (ds, r, some_digit) = digits_of_lem n (omega arith) in
    let (low, high) = first-IsDigit (digits_of n) ds some_digit in
    let first = m 0 some_digit in
    let not_minus : (get_or str 0 0 == 45) ≡ false = ground (arith, first) in
    let not_plus : (get_or str 0 0 == 43) ≡ false = ground (arith, first) in
    let nonempty : (length (digits_of n) == 0) ≡ false = ground arith in
    let inside : leb (length (digits_of n)) 0 ≡ false = ground arith in
    let whole : length (digits_of n) - 0 ≡ length (digits_of n) = omega arith in
    let scanned =
      scan-read (digits_of n) (length (digits_of n)) 0 str 0 refl
        (λ k p. ap (λ t. get_or str t 0) (omega arith) ∙ m k p) ds in
    rw (not_minus, not_plus, nonempty, inside, whole, scanned, r) refl
parse-decimal (negsuc n) str h m =
    let (ds, r, some_digit) = digits_of_lem (suc n) (omega arith) in
    let minus : (get_or str 0 0 == 45) ≡ true =
      let e : get_or str 0 0 ≡ 45 = m 0 (omega arith) in ground (arith, e) in
    let nonempty : (suc (length (digits_of (suc n))) == 0) ≡ false = ground arith in
    let inside : leb (suc (length (digits_of (suc n)))) 1 ≡ false = ground arith in
    let whole : suc (length (digits_of (suc n))) - 1 ≡ length (digits_of (suc n)) = omega arith in
    let scanned =
      scan-read (digits_of (suc n)) (length (digits_of (suc n))) 1 str 0 refl
        (λ k p. ap (λ t. get_or str t 0) (omega arith) ∙ m (suc k) (omega arith)) ds in
    rw (minus, nonempty, inside, whole, scanned, r) refl

-- A number below 2^31 in absolute value that `string_from_int` turns into a string is read back from
-- it by `string_to_int`. When there is no string, no block is in use that was not before.
pub to_int-from_int :
    (value : ℤ) (h : Heap)
    → magnitude value < 2 ^ 31
    → let (o, h') = string_from_int value h in
      (o ≡ none × h'.live ≡ h.live)
      ⊎ (s : String) × (o ≡ some s)
        × IsValid s
        × text s ≡ decimal value
        × string_to_int s ≡ some value
unfolding string_from_int int_to_string_impl Makes string_to_int chars
to_int-from_int value h small =
    let n = decimal-strlen value small in
    elim (string_new_lem (decimal value) h (omega (arith, n, length-decimal value))) [
      | inl (e, live, _) ↦ inl (e, live)
      | inr (s, made, v, t, _) ↦
          let same : text s ≡ decimal value =
            t
            ∙ ap (λ k. take k (decimal value)) n
            ∙ take_past (length (decimal value)) (decimal value) (omega arith) in
          let l : s.len ≡ length (decimal value) = sym (length-text s v) ∙ ap length same in
          inr (
            s,
            made,
            v,
            same,
            ap (λ k. parse_int s.data' k) l
                ∙ parse-decimal value s.data' small
                    (λ k p. sym (get_or-text s k (omega arith)) ∙ ap (λ xs. get_or xs k 0) same),
          )
    ]
