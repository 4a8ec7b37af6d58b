-- ===== src/Tests/StringTests.antt =====
-- The string of myos-lib/src/string.c on concrete inputs.
use freelang_independent_ful.Prelude.{
  ◌+◌, ℕ, zero, suc, ◌-◌, ◌≤◌, ◌≡◌, refl, ◌⊎◌, Option, none, some, List, [], ◌∷◌, ◌++◌, true, false,
  arith, length, ltb, if◌then◌else◌, get_or, replicate,
}
use freelang_independent_ful.Memory.{Bytes, my_memcpy, memcpy_from, my_memmove, move_down}
use freelang_independent_ful.Heap.{Heap, IsStarved, alloc}
use freelang_independent_ful.Strings.{
  String, done, failed, spinning, my_strlen, string_ensure_capacity, string_insert, string_remove,
  string_to_uppercase, string_new_with_capacity,
}
use freelang_independent_ful.Strings.Valid.{IsValid, text, IsRefused, Yields, ensure_lem}
use freelang_independent_ful.Strings.Insert.{spliced, string_insert_lem}
use freelang_independent_ful.Strings.Remove.{Holds, without, string_remove_lem, remove_grows}
use freelang_independent_ful.Strings.Search.{
  compare_bytes, my_strncmp, is_equal, string_find, string_ends_with,
}
use freelang_independent_ful.Strings.Search.Find.{Found, string_find_lem}
use freelang_independent_ful.Strings.Convert.{
  negsuc, decimal, string_to_int, string_from_int, turned,
}
use freelang_independent_ful.Strings.Convert.RoundTrip.{magnitude, to_int-from_int}
use freelang_independent_ful.Strings.Split.{
  string_split, string_split_str, count_matches, with_count?, split_str_from, found_at, with_count,
}
use freelang_independent_ful.Strings.Split.Laws.{string_split_lem}
use freelang_independent_ful.Strings.Split.Tally.{closed, tally, Unsplit}
use freelang_independent_ful.Strings.Rework.{
  sub_clipped, string_substring, string_replace, string_reverse,
}
use freelang_independent_ful.Strings.Rework.Reverse.{reverse_lem, reverse_spins}
use freelang_independent_ful.Strings.Endless.{replace_spins}

-- every request is granted, and new memory holds the byte 7
abbrev generous : Heap
generous = record { grants = λ _ _. true; junk = λ _ _. 7; requests = 5; live = 4 ∷ 3 ∷ [] }

abbrev with_text : Bytes → ℕ → String
with_text xs n = record {
  self = 3;
  block = 4;
  data' = xs ++ replicate (17 - n) 0;
  len = n;
  capacity = 16;
}

-- " a,b"
abbrev word : String
word = with_text (32 ∷ 97 ∷ 44 ∷ 98 ∷ []) 4

-- "aaa"
abbrev letters : String
letters = with_text (97 ∷ 97 ∷ 97 ∷ []) 3

abbrev blank : String
blank = with_text [] 0

word-IsValid : IsValid word
unfolding IsValid
word-IsValid = (refl, omega arith, refl, omega arith, omega arith)

word-text : text word ≡ 32 ∷ 97 ∷ 44 ∷ 98 ∷ []
unfolding text
word-text = refl

insert_run :
    text (string_insert word 1 (120 ∷ 0 ∷ 9 ∷ []) generous).1 ≡ 32 ∷ 120 ∷ 97 ∷ 44 ∷ 98 ∷ []
unfolding text string_insert my_memcpy memcpy_from my_memmove move_down
insert_run = refl

upper_run : text (string_to_uppercase word) ≡ 32 ∷ 65 ∷ 44 ∷ 66 ∷ []
unfolding text string_to_uppercase
upper_run = refl

ends_with_run : string_ends_with word (44 ∷ 98 ∷ []) ≡ true
unfolding string_ends_with
ends_with_run = refl

-- "aaa" split at "aa" reports three parts, and two are written
overcounted : Option (Option (List String × ℕ) × Heap) → ℕ × ℕ
overcounted none = (0, 0)
overcounted (some (none, h)) = (0, 0)
overcounted (some (some (parts, count), h)) = (length parts, count)

split_str_run : overcounted (string_split_str letters (97 ∷ 97 ∷ []) generous) ≡ (2, 3)
unfolding overcounted string_split_str my_strlen alloc count_matches is_equal my_strncmp with_count?
    split_str_from found_at string_substring sub_clipped string_new_with_capacity with_count
split_str_run = refl

ensure_lem_example :
    let (o, s', h') = string_ensure_capacity word 40 generous in
    (o ≡ done × IsValid s' × text s' ≡ text word × s'.len ≡ word.len × 40 ≤ s'.capacity)
    ⊎ (o ≡ failed × s' ≡ word × IsRefused word 40 generous)
ensure_lem_example = ensure_lem word 40 generous word-IsValid (omega arith)

string_insert_lem_example :
    Yields word 5 generous
      (spliced (text word) (if ltb 4 1 then 4 else 1) (120 ∷ []))
      (string_insert word 1 (120 ∷ []) generous)
unfolding my_strlen
string_insert_lem_example = string_insert_lem word 1 (120 ∷ []) generous word-IsValid (omega arith)

string_remove_lem_example : Holds (string_remove word 1 2) (without (text word) 1 2)
string_remove_lem_example = string_remove_lem word 1 2 word-IsValid (omega arith)

remove_grows_example : (string_remove word 1 0xffff_ffff_ffff_ffff).len ≡ 5
remove_grows_example =
    remove_grows word 1 0xffff_ffff_ffff_ffff word-IsValid (omega arith) (omega arith) (omega arith)
      (omega arith)

string_find_lem_example : Found (text word) (44 ∷ 98 ∷ []) (string_find word (44 ∷ 98 ∷ []))
string_find_lem_example = string_find_lem word (44 ∷ 98 ∷ []) word-IsValid (omega arith)

to_int-from_int_example :
    let (o, h') = string_from_int (negsuc 41) generous in
    (o ≡ none × h'.live ≡ 4 ∷ 3 ∷ [])
    ⊎ (s : String) × (o ≡ some s)
      × IsValid s
      × text s ≡ decimal (negsuc 41)
      × string_to_int s ≡ some (negsuc 41)
unfolding magnitude
to_int-from_int_example = to_int-from_int (negsuc 41) generous (omega arith)

string_split_lem_example :
    ((string_split word 44 generous).0 ≡ none × IsStarved generous)
    ⊎ (parts : List String) × (count : ℕ) × ((string_split word 44 generous).0
        ≡ some (parts, count))
      × length parts ≡ count
      × count ≡ tally 44 (text word) + 1
      × closed 44 parts ≡ text word ++ (44 ∷ [])
      × Unsplit 44 parts
string_split_lem_example = string_split_lem word 44 generous word-IsValid (omega arith)

reverse_lem_example :
    (s' : String) × (string_reverse 4 word ≡ some s') × IsValid s' × text s' ≡ turned (text word) []
reverse_lem_example = reverse_lem word word-IsValid (omega arith)

reverse_spins_example : string_reverse 1000 blank ≡ none
reverse_spins_example = reverse_spins 1000 blank refl (omega arith)

zeros : (n p : ℕ) → get_or {A = ℕ} (replicate n 0) p 0 ≡ 0
zeros zero p = refl
zeros (suc n) zero = refl
zeros (suc n) (suc p) = zeros n p

blank_miss : (p : ℕ) → is_equal (my_strncmp 1 blank.data' p (97 ∷ []) 0) ≡ false
unfolding my_strncmp is_equal compare_bytes
blank_miss p = rw (zeros 17 p) refl

replace_spins_example : (string_replace 5000 blank (97 ∷ []) (98 ∷ []) generous).0 ≡ spinning
unfolding my_strlen
replace_spins_example =
    replace_spins 5000 blank (97 ∷ []) (98 ∷ []) generous (omega arith) (omega arith) blank_miss
