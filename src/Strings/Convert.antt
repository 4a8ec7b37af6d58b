-- ===== src/Strings/Convert.antt =====
-- Decimal numbers as text: parse_int and int_to_string_impl of myos-lib/src/string.c, and the
-- functions that call them. An int or a long is an integer in the range of its type, which the sums
-- of `parse_int` and the negation of `int_to_string_impl` may not leave.
pub mod RoundTrip
use freelang_independent_ful.Prelude.{
  ℕ, zero, suc, ◌+◌, ◌-◌, ◌*◌, ◌/◌, ◌%◌, Bool, true, false, ◌||◌, Option, none, some, List, [], ◌∷◌,
  ◌++◌, ltb, leb, ◌==◌, if◌then◌else◌, get_or, length,
}
use freelang_independent_ful.Memory.{Bytes}
use freelang_independent_ful.Heap.{Heap}
use freelang_independent_ful.Strings.{String, string_new}

-- `pos n` is n, `negsuc n` is -(n + 1)
pub data ℤ : Type 0 where
  pos negsuc : ℕ → ℤ

-- `result * sign`
unfoldable pub signed : Bool → ℕ → ℤ
signed false n = pos n
signed true zero = pos 0
signed true (suc n) = negsuc n

-- the loop over the digits, from byte `i` with `n` bytes left
unfoldable pub scan : ℕ → ℕ → Bytes → ℕ → Option ℕ
scan zero i str result = some result
scan (suc n) i str result =
    let rest = scan n (i + 1) str (result * 10 + (get_or str i 0 - 48)) in
    if ltb (get_or str i 0) 48 || ltb 57 (get_or str i 0) then none else rest

unfoldable pub number : Bool → Option ℕ → Option ℤ
number negative none = none
number negative (some n) = some (signed negative n)

-- `-` is 45 and `+` is 43; `none` is -1
unfoldable pub parse_int : Bytes → ℕ → Option ℤ
parse_int str len =
    let negative = get_or str 0 0 == 45 in
    let start = if negative || get_or str 0 0 == 43 then 1 else 0 in
    if len == 0
    then none
    else if leb len start
    then none
    else number negative (scan (len - start) start str 0)

unfoldable pub string_to_int : String → Option ℤ
string_to_int s = parse_int s.data' s.len

unfoldable pub string_to_long : String → Option ℤ
string_to_long s = parse_int s.data' s.len

-- the loop that writes the digits to `temp`, the last one first; a long has at most 19
unfoldable pub temp_digits : ℕ → ℕ → Bytes
temp_digits zero v = []
temp_digits (suc n) v =
    let rest = temp_digits n (v / 10) in if v == 0 then [] else (48 + v % 10) ∷ rest

abbrev pub max_digits : ℕ
max_digits = 19

-- the loop that copies `temp` from its end to its start, in front of `out`
unfoldable pub turned : Bytes → Bytes → Bytes
turned [] out = out
turned (c ∷ temp) out = turned temp (c ∷ out)

unfoldable pub digits_of : ℕ → Bytes
digits_of v = if v == 0 then 48 ∷ [] else turned (temp_digits max_digits v) []

-- the characters that `int_to_string_impl` puts in its buffer
unfoldable pub decimal : ℤ → Bytes
decimal (pos n) = digits_of n
decimal (negsuc n) = 45 ∷ digits_of (suc n)

unfoldable pub int_to_string_impl : ℤ → Heap → Option String × Heap
int_to_string_impl value h = string_new (decimal value) h

unfoldable pub string_from_int : ℤ → Heap → Option String × Heap
string_from_int value h = int_to_string_impl value h

unfoldable pub string_from_long : ℤ → Heap → Option String × Heap
string_from_long value h = int_to_string_impl value h
