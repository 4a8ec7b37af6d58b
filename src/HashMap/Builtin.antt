-- ===== src/HashMap/Builtin.antt =====
-- The hash and comparison functions that myos-lib/src/hash.c comes with, as functions of the bytes or
-- of the number that a key points to, and the iteration. A C string is a list of bytes that ends at
-- its first 0 or at the end of the list; `none` is NULL.
use freelang_independent_ful.Prelude.{
  ℕ, zero, suc, ◌+◌, ◌-◌, ◌*◌, ◌/◌, ◌%◌, ◌^◌, ◌≡◌, refl, sym, Bool, true, false, not, ◌&&◌, Option,
  none, some, List, [], ◌∷◌, ltb, ◌==◌, if◌then◌else◌, get_or, arith, inl, inr, Bool-cases,
}
use freelang_independent_ful.Memory.{Bytes}
use freelang_independent_ful.Strings.Search.{Sign, below, equal, above, is_equal}
use freelang_independent_ful.HashMap.{KeyOps, Entry, HashMap, occupied, pointee}

-- `hash = ((hash << 5) + hash) + c` in uint32_t
unfoldable pub mix : ℕ → ℕ → ℕ
mix hash c = ((hash * 2 ^ 5) % 2 ^ 32 + hash + c) % 2 ^ 32

unfoldable pub djb2_from : ℕ → Bytes → ℕ
unfolding mix
djb2_from hash [] = hash
djb2_from hash (b ∷ bs) = djb2_from (mix hash b) bs

unfoldable pub hash_djb2 : Bytes → ℕ
unfolding djb2_from
hash_djb2 key = djb2_from 5381 key

-- of the unsigned number
unfoldable pub hash_int : ℕ → ℕ
hash_int x = (x * 2654435761) % 2 ^ 32 / 2 ^ 16

-- a char is signed: added to a uint32_t, one from 128 on counts as itself less 256
unfoldable pub promoted : ℕ → ℕ
promoted c = if ltb c 128 then c else c + (2 ^ 32 - 256)

unfoldable pub string_from : ℕ → Bytes → ℕ
unfolding mix promoted
string_from hash [] = hash
string_from hash (c ∷ str) =
    let rest = string_from (mix hash (promoted c)) str in if c == 0 then hash else rest

unfoldable pub hash_string : Option Bytes → ℕ
unfolding string_from
hash_string none = 0
hash_string (some str) = string_from 5381 str

-- two chars, which are signed
unfoldable pub compare_chars : ℕ → ℕ → Sign
compare_chars a b =
    if a == b then equal else if ltb ((a + 128) % 256) ((b + 128) % 256) then below else above

unfoldable pub compare_strings : Bytes → Bytes → Sign
unfolding compare_chars
compare_strings [] str2 = compare_chars 0 (get_or str2 0 0)
compare_strings (a ∷ str1) [] = compare_chars a 0
compare_strings (a ∷ str1) (b ∷ str2) =
    let rest = compare_strings str1 str2 in
    if not (a == 0) && a == b then rest else compare_chars a b

unfoldable pub cmp_string : Option Bytes → Option Bytes → Sign
unfolding compare_strings
cmp_string none none = equal
cmp_string none (some str2) = below
cmp_string (some str1) none = above
cmp_string (some str1) (some str2) = compare_strings str1 str2

-- the loop of `cmp_bytes`, from byte `i` with `n` rounds left
unfoldable pub bytes_from : ℕ → ℕ → Bytes → Bytes → Sign
bytes_from zero i b1 b2 = equal
bytes_from (suc n) i b1 b2 =
    let rest = bytes_from n (i + 1) b1 b2 in
    if ltb (get_or b1 i 0) (get_or b2 i 0)
    then below
    else if ltb (get_or b2 i 0) (get_or b1 i 0)
    then above
    else if get_or b1 i 0 == 0
    then equal
    else rest

unfoldable pub cmp_bytes : Bytes → Bytes → Sign
unfolding bytes_from
cmp_bytes b1 b2 = bytes_from 32 0 b1 b2

-- the functions for keys that are C strings
unfoldable pub string_ops : KeyOps (Option Bytes)
string_ops = record { hash = hash_string; same = λ a b. is_equal (cmp_string a b) }

-- the calls of the callback, in order
unfoldable pub calls : {K V : Type 0} → List (Entry K V) → List (Option K × Option V)
unfolding pointee
calls [] = []
calls (e ∷ es) =
    let rest = calls es in
    elim e.slot [ occupied ↦ (pointee e.key, pointee e.value) ∷ rest | _ ↦ rest ]

unfoldable pub hash_foreach : {K V : Type 0} → Option (HashMap K V) → List (Option K × Option V)
unfolding calls
hash_foreach none = []
hash_foreach (some m) = calls m.entries

unordered : (t : Bool) → is_equal (if t then below else above) ≡ false
unfolding is_equal
unordered true = refl
unordered false = refl

chars_same : (a b : ℕ) → is_equal (compare_chars a b) ≡ true → a ≡ b
unfolding compare_chars
chars_same a b e = elim (Bool-cases (a == b)) [
  | inl t ↦ ground (arith, t)
  | inr t ↦
      let n = unordered (ltb ((a + 128) % 256) ((b + 128) % 256)) in
      let e' : is_equal (if ltb ((a + 128) % 256) ((b + 128) % 256) then below else above) ≡ true =
        rw t at e in
      absurd (ground (arith, n, e'))
]

strings_same :
    (a b : Bytes) (h : ℕ)
    → is_equal (compare_strings a b) ≡ true
    → string_from h a ≡ string_from h b
unfolding compare_strings string_from
strings_same [] [] h e = refl
strings_same [] (b ∷ bs) h e =
    let z : b ≡ 0 = sym (chars_same 0 b e) in let t : (b == 0) ≡ true = ground arith in rw t refl
strings_same (a ∷ str1) [] h e =
    let z : a ≡ 0 = chars_same a 0 e in let t : (a == 0) ≡ true = ground arith in rw t refl
strings_same (a ∷ str1) (b ∷ str2) h e = elim (Bool-cases (not (a == 0) && a == b)) [
  | inl t ↦
      let same : a ≡ b = ground (arith, t) in
      let e' : is_equal (compare_strings str1 str2) ≡ true = rw t at e in
      let ih = strings_same str1 str2 (mix h (promoted b)) e' in rw (same, ih) refl
  | inr t ↦
      let e' : is_equal (compare_chars a b) ≡ true = rw t at e in
      let same : a ≡ b = chars_same a b e' in
      let z : (b == 0) ≡ true = ground (arith, t, same) in rw (same, z) refl
]

strings_refl : (a : Bytes) → is_equal (compare_strings a a) ≡ true
unfolding compare_strings compare_chars is_equal
strings_refl [] = refl
strings_refl (a ∷ str) =
    let t : (a == a) ≡ true = ground arith in
    elim (Bool-cases (not (a == 0))) [
      | inl u ↦ rw (u, t) (strings_refl str)
      | inr u ↦ rw (u, t) refl
    ]

-- The functions for C strings suit the table: each key compares equal to itself, and keys that
-- compare equal have the same hash.
pub string_ops-lawful :
    (a b : Option Bytes)
    → string_ops.same a a ≡ true
      × (string_ops.same a b ≡ true → string_ops.hash a ≡ string_ops.hash b)
unfolding string_ops cmp_string hash_string is_equal
string_ops-lawful none none = (refl, λ e. refl)
string_ops-lawful none (some b) = (refl, λ e. absurd (ground arith))
string_ops-lawful (some a) none = (strings_refl a, λ e. absurd (ground arith))
string_ops-lawful (some a) (some b) = (strings_refl a, strings_same a b 5381)
