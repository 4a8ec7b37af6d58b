-- ===== src/Strings/Split.antt =====
-- Splitting: string_split and string_split_str of myos-lib/src/string.c. A result is the strings that
-- were written to the array, and the count that is reported for them.
pub mod Tally
pub mod Laws
pub mod Ends
use freelang_independent_ful.Prelude.{
  ℕ, zero, suc, ◌+◌, ◌-◌, ◌*◌, ◌%◌, ◌^◌, Bool, true, false, ◌&&◌, ◌||◌, Option, none, some, List,
  [], ◌∷◌, ◌++◌, ltb, leb, ◌==◌, if◌then◌else◌, get_or, length,
}
use freelang_independent_ful.Memory.{Bytes, size_mod, mul_size, add_size}
use freelang_independent_ful.Heap.{Heap, alloc, free}
use freelang_independent_ful.Strings.{String, my_strlen, string_free}
use freelang_independent_ful.Strings.Search.{my_strncmp, is_equal}
use freelang_independent_ful.Strings.Rework.{string_substring}

-- an `int` as a size_t, given its 32 bits
unfoldable pub int_size : ℕ → ℕ
int_size c = if ltb c (2 ^ 31) then c else size_mod - 2 ^ 32 + c

-- the delimiters among the `n` bytes from `i` on, and one, as an `int` holds them
unfoldable pub count_parts : ℕ → ℕ → Bytes → ℕ → ℕ
count_parts zero i buf delimiter = 1
count_parts (suc n) i buf delimiter =
    let rest = count_parts n (i + 1) buf delimiter in
    if get_or buf i 0 == delimiter then (rest + 1) % 2 ^ 32 else rest

unfoldable pub free_parts : List String → Heap → Heap
free_parts [] h = h
free_parts (part ∷ parts) h = free_parts parts (string_free part h)

-- the loop of `string_split`, with `n` rounds left
unfoldable pub split_from :
    ℕ → ℕ → ℕ → List String → String → ℕ → Heap → Option (List String) × Heap
split_from zero i start parts s delimiter h = (some parts, h)
split_from (suc n) i start parts s delimiter h =
    let (part, h') = string_substring s start (i - start) h in
    let cut = elim part as (λ _. Option (List String) × Heap) [
      | none ↦ (none, free_parts parts h')
      | some p ↦ split_from n (i + 1) (i + 1) (parts ++ (p ∷ [])) s delimiter h'
    ] in
    let on = split_from n (i + 1) start parts s delimiter h in
    if i == s.len || get_or s.data' i 0 == delimiter then cut else on

-- what the two splits do with the array `p`
unfoldable pub with_count : ℕ → ℕ → Option (List String) × Heap → Option (List String × ℕ) × Heap
with_count p count (none, h) = (none, free p h)
with_count p count (some parts, h) = (some (parts, count), h)

unfoldable pub string_split : String → ℕ → Heap → Option (List String × ℕ) × Heap
unfolding int_size
string_split s delimiter h =
    let count = count_parts s.len 0 s.data' delimiter in
    let (array, h') = alloc (mul_size 8 (int_size count)) h in
    elim array [
      | none ↦ (none, h')
      | some p ↦ with_count p count (split_from (s.len + 1) 0 0 [] s delimiter h')
    ]

-- the places among `n` where the delimiter stands, overlapping ones included, and one, as an `int`
-- holds them
unfoldable pub count_matches : ℕ → ℕ → Bytes → Bytes → ℕ
count_matches zero i buf delimiter = 1
count_matches (suc n) i buf delimiter =
    let rest = count_matches n (i + 1) buf delimiter in
    if is_equal (my_strncmp (my_strlen delimiter) buf i delimiter 0)
    then (rest + 1) % 2 ^ 32
    else rest

-- the test of the loop of `string_split_str`
unfoldable pub found_at : String → ℕ → Bytes → Bool
found_at s i delimiter =
    leb (i + my_strlen delimiter) s.len
    && is_equal (my_strncmp (my_strlen delimiter) s.data' i delimiter 0)

-- the loop of `string_split_str`, with `n` rounds left; `none` in the second place is a failure, and
-- `none` as a whole a loop that has used up its rounds
unfoldable pub split_str_from :
    ℕ → ℕ → ℕ → List String → String → Bytes → Heap → Option (Option (List String) × Heap)
split_str_from zero i start parts s delimiter h = none
split_str_from (suc n) i start parts s delimiter h =
    let found = found_at s i delimiter in
    let step = if found then my_strlen delimiter else 1 in
    let (part, h') = string_substring s start (i - start) h in
    let cut = elim part as (λ _. Option (Option (List String) × Heap)) [
      | none ↦ some (none, free_parts parts h')
      | some p ↦ split_str_from n (i + step) (i + step) (parts ++ (p ∷ [])) s delimiter h'
    ] in
    let on = split_str_from n (i + 1) start parts s delimiter h in
    if ltb s.len i then some (some parts, h) else if found || i == s.len then cut else on

unfoldable pub with_count? :
    ℕ → ℕ → Option (Option (List String) × Heap) → Option (Option (List String × ℕ) × Heap)
with_count? p count none = none
with_count? p count (some r) = some (with_count p count r)

-- A round moves on by a byte at least, so two rounds more than the text has bytes are enough.
unfoldable pub string_split_str : String → Bytes → Heap → Option (Option (List String × ℕ) × Heap)
unfolding int_size
string_split_str s delimiter h =
    let delim_len = my_strlen delimiter in
    let places = if ltb s.len delim_len then 0 else s.len - delim_len + 1 in
    let count = count_matches places 0 s.data' delimiter in
    let (array, h') = alloc (mul_size 8 (int_size count)) h in
    if delim_len == 0 then some (none, h) else elim array [
      | none ↦ some (none, h')
      | some p ↦ with_count? p count (split_str_from (s.len + 2) 0 0 [] s delimiter h')
    ]

unfoldable pub string_split_free : ℕ → List String → Heap → Heap
string_split_free p parts h = free p (free_parts parts h)
