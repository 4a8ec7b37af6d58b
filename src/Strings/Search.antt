-- ===== src/Strings/Search.antt =====
-- Comparing and searching: my_strcmp, my_strncmp and the queries of myos-lib/src/string.c that use
-- them. A C string is a buffer and the offset where it begins.
pub mod Find
use freelang_independent_ful.Prelude.{
  ℕ, zero, suc, ◌+◌, ◌-◌, ◌*◌, ◌^◌, ◌≤◌, ◌<◌, ◌≡◌, ◌≢◌, refl, sym, ap, ◌∙◌, Bool, true, false, not,
  ◌&&◌, ◌||◌, Option, none, some, List, [], ◌∷◌, ◌++◌, ltb, leb, ◌==◌, if◌then◌else◌, get_or, take,
  drop, length, arith, inl, inr, ◌⊎◌, Bool-cases, dec_lt, ℕ_discrete,
}
use freelang_independent_ful.Memory.{Bytes, as_int}
use freelang_independent_ful.Strings.{String, my_strlen}

-- the sign of `a - b`, which is all that the callers look at
pub data Sign : Type 0 where
  below equal above : Sign

unfoldable pub compare_bytes : ℕ → ℕ → Sign
compare_bytes a b = if a == b then equal else if ltb a b then below else above

-- with `n` rounds left; a C string ends inside its buffer, so as many rounds as the buffer has bytes
-- are enough
unfoldable pub strcmp_from : ℕ → Bytes → ℕ → Bytes → ℕ → Sign
unfolding compare_bytes
strcmp_from zero a i b j = compare_bytes (get_or a i 0) (get_or b j 0)
strcmp_from (suc n) a i b j =
    let rest = strcmp_from n a (i + 1) b (j + 1) in
    if not (get_or a i 0 == 0) && get_or a i 0 == get_or b j 0
    then rest
    else compare_bytes (get_or a i 0) (get_or b j 0)

unfoldable pub my_strcmp : Bytes → ℕ → Bytes → Sign
unfolding strcmp_from
my_strcmp a i b = strcmp_from (length a) a i b 0

unfoldable pub my_strncmp : ℕ → Bytes → ℕ → Bytes → ℕ → Sign
unfolding compare_bytes
my_strncmp zero a i b j = equal
my_strncmp (suc n) a i b j =
    let rest = my_strncmp n a (i + 1) b (j + 1) in
    if get_or a i 0 == 0 || get_or b j 0 == 0 || not (get_or a i 0 == get_or b j 0)
    then compare_bytes (get_or a i 0) (get_or b j 0)
    else rest

unfoldable pub is_equal : Sign → Bool
is_equal below = false
is_equal equal = true
is_equal above = false

-- the loop of `string_find`, from offset `i` with `n` rounds left
unfoldable pub find_from : ℕ → ℕ → Bytes → Bytes → ℕ → Option ℕ
unfolding my_strncmp is_equal
find_from zero i buf substr sub_len = none
find_from (suc n) i buf substr sub_len =
    let rest = find_from n (i + 1) buf substr sub_len in
    if is_equal (my_strncmp sub_len buf i substr 0) then some i else rest

-- `none` is a negative number, as -1
unfoldable pub string_find : String → Bytes → Option ℕ
unfolding find_from my_strlen as_int
string_find s substr =
    let sub_len = my_strlen substr in
    if sub_len == 0 || ltb s.len sub_len
    then none
    else as_int (find_from (s.len - sub_len + 1) 0 s.data' substr sub_len)

unfoldable pub string_contains : String → Bytes → Bool
unfolding string_find
string_contains s substr = elim (string_find s substr) [ none ↦ false | some _ ↦ true ]

unfoldable pub string_starts_with : String → Bytes → Bool
unfolding my_strncmp is_equal my_strlen
string_starts_with s prefix =
    if ltb s.len (my_strlen prefix)
    then false
    else is_equal (my_strncmp (my_strlen prefix) s.data' 0 prefix 0)

unfoldable pub string_ends_with : String → Bytes → Bool
unfolding my_strcmp is_equal my_strlen
string_ends_with s suffix =
    if ltb s.len (my_strlen suffix)
    then false
    else is_equal (my_strcmp s.data' (s.len - my_strlen suffix) suffix)

-- NULL counts as an empty string
unfoldable pub data_of : Option String → Bytes
data_of none = []
data_of (some s) = s.data'

unfoldable pub string_compare : Option String → Option String → Sign
unfolding my_strcmp data_of
string_compare a b = my_strcmp (data_of a) 0 (data_of b)

unfoldable pub string_compare_c_str : Option String → Bytes → Sign
unfolding my_strcmp data_of
string_compare_c_str s str = my_strcmp (data_of s) 0 str
