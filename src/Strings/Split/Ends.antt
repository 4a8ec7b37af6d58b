-- ===== src/Strings/Split/Ends.antt =====
-- The loop of string_split_str of myos-lib/src/string.c ends within its rounds.
use freelang_independent_ful.Prelude.{
  ℕ, zero, suc, ◌+◌, ◌-◌, ◌≤◌, ◌<◌, ◌≡◌, Bool, true, false, ◌||◌, Option, none, some, List, [], ◌∷◌,
  ◌++◌, ltb, ◌==◌, if◌then◌else◌, arith, inl, inr, Bool-cases, Option-cases, dec_lt, ℕ_discrete,
}
use freelang_independent_ful.Memory.{Bytes, mul_size}
use freelang_independent_ful.Heap.{Heap, alloc}
use freelang_independent_ful.Strings.{String, my_strlen}
use freelang_independent_ful.Strings.Rework.{string_substring}
use freelang_independent_ful.Strings.Split.{
  found_at, split_str_from, with_count?, string_split_str, count_matches, int_size,
}

unfoldable Ends : {A : Type 0} → Option A → Type 0
Ends none = ⊥
Ends (some _) = Unit

step_some : (found : Bool) (k : ℕ) → 0 < k → 1 ≤ (if found then k else 1)
step_some true k h = h
step_some false k h = omega arith

split_str_from-Ends :
    (n i start : ℕ) (parts : List String) (s : String) (delimiter : Bytes) (h : Heap)
    → 0 < my_strlen delimiter
    → 1 ≤ n
    → s.len + 2 ≤ i + n
    → Ends (split_str_from n i start parts s delimiter h)
unfolding split_str_from Ends
split_str_from-Ends zero i start parts s delimiter h d one enough = absurd (omega arith)
split_str_from-Ends (suc n) i start parts s delimiter h d one enough = elim (dec_lt s.len i) [
  | yes past ↦ let t : ltb s.len i ≡ true = ground arith in rw t tt
  | no inside ↦
      let t : ltb s.len i ≡ false = ground arith in
      elim (Bool-cases (found_at s i delimiter || i == s.len)) [
        | inr u ↦
            rw (t, u)
              (split_str_from-Ends n (i + 1) start parts s delimiter h d (omega arith)
                (omega arith))
        | inl u ↦
            let step : ℕ = if found_at s i delimiter then my_strlen delimiter else 1 in
            let some_step = step_some (found_at s i delimiter) (my_strlen delimiter) d in
            elim (Option-cases (string_substring s start (i - start) h).0) [
              | inl refused ↦ rw (t, u, refused) tt
              | inr (p, made) ↦
                  rw (t, u, made)
                    (split_str_from-Ends n (i + step) (i + step) (parts ++ (p ∷ [])) s delimiter
                      (string_substring s start (i - start) h).1 d (omega arith) (omega arith))
            ]
      ]
]

with_count?-Ends :
    (p count : ℕ) (r : Option (Option (List String) × Heap)) → Ends r → Ends (with_count? p count r)
unfolding Ends with_count?
with_count?-Ends p count none e = e
with_count?-Ends p count (some r) e = tt

-- `string_split_str` ends within two rounds more than the text has bytes, whatever the delimiter.
split_str-Ends : (s : String) (delimiter : Bytes) (h : Heap) → Ends (string_split_str s delimiter h)
unfolding string_split_str Ends
split_str-Ends s delimiter h = elim (ℕ_discrete (my_strlen delimiter) 0) [
  | yes z ↦ let t : (my_strlen delimiter == 0) ≡ true = ground arith in rw t tt
  | no nz ↦
      let t : (my_strlen delimiter == 0) ≡ false = ground arith in
      let places : ℕ =
        if ltb s.len (my_strlen delimiter) then 0 else s.len - my_strlen delimiter + 1 in
      let count : ℕ = count_matches places 0 s.data' delimiter in
      elim (Option-cases (alloc (mul_size 8 (int_size count)) h).0) [
        | inl refused ↦ rw (t, refused) tt
        | inr (p, got) ↦
            rw (t, got)
              (with_count?-Ends p count
                (split_str_from (s.len + 2) 0 0 [] s delimiter
                  (alloc (mul_size 8 (int_size count)) h).1)
                (split_str_from-Ends (s.len + 2) 0 0 [] s delimiter
                  (alloc (mul_size 8 (int_size count)) h).1 (omega arith) (omega arith)
                  (omega arith)))
      ]
]
