-- ===== src/Strings/Split/Laws.antt =====
-- The parts of `string_split` spell the text.
use freelang_independent_ful.Prelude.{
  ℕ, zero, suc, ◌+◌, ◌-◌, ◌%◌, ◌^◌, ◌≤◌, ◌<◌, ◌≡◌, refl, sym, ap, ◌∙◌, true, false, ◌||◌, Option,
  none, some, List, [], ◌∷◌, ◌++◌, ◌==◌, get_or, drop, length, arith, inl, inr, ◌⊎◌, Option-cases,
  ℕ_discrete, length-append, length-drop, take-append-drop,
}
use freelang_independent_ful.Prelude.Slices.{take_past, drop-drop, drop_head}
use freelang_independent_ful.Memory.{Bytes, mul_size}
use freelang_independent_ful.Heap.{
  Heap, alloc, IsStarved, alloc-IsStarved, alloc-grants, IsStarved-grants,
}
use freelang_independent_ful.Strings.{String}
use freelang_independent_ful.Strings.Valid.{IsValid, text, length-text, get_or-text}
use freelang_independent_ful.Strings.New.{Makes}
use freelang_independent_ful.Strings.Rework.{string_substring}
use freelang_independent_ful.Strings.Rework.Substring.{stretch, substring-Makes}
use freelang_independent_ful.Strings.Split.{
  count_parts, split_from, with_count, string_split, int_size,
}
use freelang_independent_ful.Strings.Split.Tally.{
  closed, append_assoc, closed-snoc, tally, Unsplit, tally-closed, closed-Unsplit, count_parts-le,
  count_parts-tally,
}

-- A stretch up to a byte, the byte, and what is behind it.
stretch-byte :
    (xs : Bytes) (start i d : ℕ)
    → start ≤ i
    → i < length xs
    → get_or xs i 0 ≡ d
    → stretch xs start (i - start) ++ (d ∷ drop (i + 1) xs) ≡ drop start xs
stretch-byte xs start i d h k e =
    let there : start + (i - start) ≡ i = omega arith in
    ap (λ l. stretch xs start (i - start) ++ l)
      (ap (λ c. c ∷ drop (i + 1) xs) (sym e)
        ∙ sym (drop_head i xs 0 k)
        ∙ ap (λ t. drop t xs) (sym there)
        ∙ sym (drop-drop (i - start) start xs))
    ∙ take-append-drop (i - start) (drop start xs)

-- what the loop leaves: the parts so far, then parts that spell the rest of the text; or nothing, if
-- a request is refused
Spelt : Heap → Bytes → ℕ → ℕ → List String → ℕ → Option (List String) × Heap → Type 0
Spelt h₀ xs d start parts count (none, h) = IsStarved h₀
Spelt h₀ xs d start parts count (some parts', h) =
    closed d parts' ≡ closed d parts ++ (drop start xs ++ (d ∷ []))
    × length parts' ≡ length parts + count

extend :
    (h₀ h₁ : Heap) (xs : Bytes) (d start i : ℕ) (parts : List String) (p : String) (c : ℕ)
    (r : Option (List String) × Heap)
    → h₁.grants ≡ h₀.grants
    → start ≤ i
    → i < length xs
    → get_or xs i 0 ≡ d
    → text p ≡ stretch xs start (i - start)
    → Spelt h₁ xs d (i + 1) (parts ++ (p ∷ [])) c r
    → Spelt h₀ xs d start parts (c + 1) r
unfolding Spelt
extend h₀ h₁ xs d start i parts p c (none, h) kept a b e t sp = IsStarved-grants h₀ h₁ kept sp
extend h₀ h₁ xs d start i parts p c (some parts', h) kept a b e t (spelt, n) = (
  spelt
      ∙ ap (λ l. l ++ (drop (i + 1) xs ++ (d ∷ []))) (closed-snoc d parts p)
      ∙ append_assoc (closed d parts) (text p ++ (d ∷ [])) (drop (i + 1) xs ++ (d ∷ []))
      ∙ ap (λ l. closed d parts ++ l)
          (append_assoc (text p) (d ∷ []) (drop (i + 1) xs ++ (d ∷ []))
            ∙ sym (append_assoc (text p) (d ∷ drop (i + 1) xs) (d ∷ []))
            ∙ ap (λ l. l ++ (d ∷ []))
                (ap (λ l. l ++ (d ∷ drop (i + 1) xs)) t ∙ stretch-byte xs start i d a b e)),
  omega (arith, n, length-append parts (p ∷ [])),
)

-- the last part
finish :
    (h₀ : Heap) (xs : Bytes) (d start : ℕ) (parts : List String) (p : String) (h : Heap)
    → text p ≡ drop start xs
    → Spelt h₀ xs d start parts 1 (some (parts ++ (p ∷ [])), h)
unfolding Spelt
finish h₀ xs d start parts p h t = (
  closed-snoc d parts p ∙ ap (λ l. closed d parts ++ (l ++ (d ∷ []))) t,
  length-append parts (p ∷ []),
)

split_from-Spelt :
    (n i start : ℕ) (parts : List String) (s : String) (d : ℕ) (h : Heap)
    → IsValid s
    → s.len + 1 < 2 ^ 31
    → start ≤ i
    → i + n ≡ s.len + 1
    → 1 ≤ n
    → Spelt h
        (text s)
        d
        start
        parts
        (count_parts (s.len - i) i s.data' d)
        (split_from n i start parts s d h)
unfolding split_from count_parts Makes
split_from-Spelt zero i start parts s d h v small p q one = absurd (omega arith)
split_from-Spelt (suc zero) i start parts s d h v small p q one =
    let here : i ≡ s.len = omega arith in
    let t : (i == s.len || get_or s.data' i 0 == d) ≡ true = ground (arith, here) in
    let left : s.len - i ≡ 0 = omega arith in
    let l = length-text s v in
    let whole : stretch (text s) start (i - start) ≡ drop start (text s) =
      take_past (i - start) (drop start (text s)) (omega (arith, length-drop start (text s))) in
    rw (t, left)
      (elim (substring-Makes s start (i - start) h v (omega arith) (omega arith)) [
        | inl (refused, _, starved) ↦ rw refused (unfold Spelt in starved)
        | inr (part, got, _, same, _) ↦
            rw got (finish h (text s) d start parts part _ (same ∙ whole))
      ])
split_from-Spelt (suc (suc n)) i start parts s d h v small p q one =
    let l = length-text s v in
    let left : s.len - i ≡ suc (s.len - (i + 1)) = omega arith in
    let ahead : (i == s.len) ≡ false = ground arith in
    elim (ℕ_discrete (get_or s.data' i 0) d) [
      | yes e ↦
          let t : (get_or s.data' i 0 == d) ≡ true = ground (arith, e) in
          let most = count_parts-le (s.len - (i + 1)) (i + 1) s.data' d (omega arith) in
          let plain : (count_parts (s.len - (i + 1)) (i + 1) s.data' d + 1) % 2 ^ 32
              ≡ count_parts (s.len - (i + 1)) (i + 1) s.data' d + 1 =
            omega arith in
          rw (left, ahead, t)
            (elim (substring-Makes s start (i - start) h v (omega arith) (omega arith)) [
              | inl (refused, _, starved) ↦ rw refused (unfold Spelt in starved)
              | inr (part, got, _, same, kept) ↦
                  let ih =
                    split_from-Spelt (suc n) (i + 1) (i + 1) (parts ++ (part ∷ [])) s d
                      (string_substring s start (i - start) h).1 v small (omega arith) (omega arith)
                      (omega arith) in
                  rw (got, plain)
                    (extend h (string_substring s start (i - start) h).1 (text s) d start i parts
                      part (count_parts (s.len - (i + 1)) (i + 1) s.data' d) _ kept p (omega arith)
                      (get_or-text s i (omega arith) ∙ e) same ih)
            ])
      | no e ↦
          let t : (get_or s.data' i 0 == d) ≡ false = ground (arith, e) in
          rw (left, ahead, t)
            (split_from-Spelt (suc n) (i + 1) start parts s d h v small (omega arith) (omega arith)
              (omega arith))
    ]

-- what `string_split` reports, from what its loop leaves
reported :
    (h₀ : Heap) (xs : Bytes) (d p count : ℕ) (r : Option (List String) × Heap)
    → count ≡ tally d xs + 1
    → Spelt h₀ xs d 0 [] count r
    → ((with_count p count r).0 ≡ none × IsStarved h₀)
      ⊎ (parts : List String) × (c : ℕ) × ((with_count p count r).0 ≡ some (parts, c))
        × length parts ≡ c
        × c ≡ tally d xs + 1
        × closed d parts ≡ xs ++ (d ∷ [])
        × Unsplit d parts
unfolding with_count Spelt closed
reported h₀ xs d p count (none, h) e sp = inl (refl, sp)
reported h₀ xs d p count (some parts, h) e (spelt, n) =
    let t : tally d (closed d parts) ≡ tally d xs + 1 + tally d [] =
      ap (tally d) spelt ∙ tally-closed d xs [] in
    let zero_more : tally d [] ≡ 0 = unfold tally in refl in
    inr (
      parts,
      count,
      refl,
      n ∙ omega arith,
      e,
      spelt,
      closed-Unsplit d parts (omega (arith, t, n, e, zero_more)),
    )

-- `string_split` of a valid string of at most 2^31 - 2 bytes either yields NULL, which happens only if
-- a request for memory is refused; or yields as many parts as it reports, one more than the delimiter
-- occurs in the text. No part holds the delimiter, and the parts, each with the delimiter behind it,
-- spell the text with the delimiter behind it.
pub string_split_lem :
    (s : String) (d : ℕ) (h : Heap)
    → IsValid s
    → s.len + 1 < 2 ^ 31
    → ((string_split s d h).0 ≡ none × IsStarved h)
      ⊎ (parts : List String) × (count : ℕ) × ((string_split s d h).0 ≡ some (parts, count))
        × length parts ≡ count
        × count ≡ tally d (text s) + 1
        × closed d parts ≡ text s ++ (d ∷ [])
        × Unsplit d parts
unfolding string_split text IsValid int_size
string_split_lem s d h v small =
    let count : ℕ = count_parts s.len 0 s.data' d in
    let most = count_parts-le s.len 0 s.data' d (omega arith) in
    let counted : count ≡ tally d (text s) + 1 =
      count_parts-tally s.len 0 s.data' d (omega arith) (omega (arith, v.0, v.1)) in
    let size : ℕ = mul_size 8 (int_size count) in
    let some_bytes : 0 < size = ground arith in
    let spelt =
      split_from-Spelt (s.len + 1) 0 0 [] s d (alloc size h).1 v small (omega arith) (omega arith)
        (omega arith) in
    let whole : s.len - 0 ≡ s.len = omega arith in
    elim (Option-cases (alloc size h).0) [
      | inl refused ↦
          rw (string_split, refused) (inl (refl, alloc-IsStarved size h some_bytes refused))
      | inr (p, got) ↦
          let back : IsStarved (alloc size h).1 → IsStarved h =
            IsStarved-grants h (alloc size h).1 (alloc-grants size h) in
          rw (string_split, got)
            (elim (reported (alloc size h).1 (text s) d p count
              (split_from (s.len + 1) 0 0 [] s d (alloc size h).1) counted (rw whole at spelt)) [
                | inl (e, starved) ↦ inl (e, back starved)
                | inr made ↦ inr made
              ])
    ]
