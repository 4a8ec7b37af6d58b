-- ===== src/Strings/New.antt =====
-- The strings that `string_new` and `string_new_with_capacity` make.
use freelang_independent_ful.Prelude.{
  ℕ, ◌+◌, ◌^◌, ◌≤◌, ◌<◌, ◌≡◌, refl, ◌∙◌, Option, none, some, ltb, if◌then◌else◌, set, take, length,
  arith, inl, inr, ◌⊎◌, length-set, get_or-set,
}
use freelang_independent_ful.Prelude.Slices.{get_or-take, length-take_of_le}
use freelang_independent_ful.Memory.{Bytes, size_mod, my_memcpy, mul_size, add_size}
use freelang_independent_ful.Memory.Copy.{length-my_memcpy, get_or-my_memcpy}
use freelang_independent_ful.Heap.{
  Heap, alloc, fresh, length-fresh, alloc-live, free-live, IsStarved, alloc-IsStarved, alloc-grants,
  IsStarved-grants,
}
use freelang_independent_ful.Strings.{
  String, my_strlen, copied, string_new, string_new_with_capacity,
}
use freelang_independent_ful.Strings.Valid.{IsValid, text, prefix_ext}
use freelang_independent_ful.Strings.Insert.{chars, length-my_strlen}

-- NULL, with no block in use that was not before, if a request is refused; or a valid string with the
-- given text.
unfoldable pub Makes : Heap → Bytes → Option String × Heap → Type 0
Makes h xs (o, h') =
    (o ≡ none × h'.live ≡ h.live × IsStarved h)
    ⊎ (s : String) × (o ≡ some s) × IsValid s × text s ≡ xs × h'.grants ≡ h.grants

copied-IsValid :
    (p b : ℕ) (buf str : Bytes) (len capacity : ℕ)
    → length buf ≡ capacity + 1
    → len ≤ capacity
    → len ≤ length str
    → capacity + 1 < size_mod
    → 1 ≤ capacity
    → let s : String = record {
      self = p;
      block = b;
      data' = copied buf str len;
      len = len;
      capacity = capacity;
    } in
      IsValid s × text s ≡ take len str
unfolding IsValid copied text
copied-IsValid p b buf str len capacity l f k bound one =
    let m = length-my_memcpy buf 0 str 0 len in
    let w = length-set (my_memcpy buf 0 str 0 len) len 0 in
    (
      (
        w ∙ m ∙ l,
        f,
        get_or-set (my_memcpy buf 0 str 0 len) len len 0 0 (omega arith) ∙ ground arith,
        bound,
        one,
      ),
      prefix_ext (set (my_memcpy buf 0 str 0 len) len 0) (take len str) len
          (length-take_of_le len str k) (omega arith)
          (λ i q.
            get_or-set (my_memcpy buf 0 str 0 len) len i 0 0 (omega arith)
            ∙ ground (arith, get_or-my_memcpy buf 0 str 0 len i, get_or-take len str i 0)),
    )

-- `string_new` of a C string of fewer than 2^62 characters makes a valid string of them.
pub string_new_lem :
    (str : Bytes) (h : Heap) → my_strlen str < 2 ^ 62 → Makes h (chars str) (string_new str h)
unfolding string_new Makes chars
string_new_lem str h small =
    let capacity : ℕ = if ltb (my_strlen str) 16 then 16 else mul_size (my_strlen str) 2 in
    let fits : my_strlen str ≤ capacity = ground arith in
    let bound : capacity + 1 < size_mod = ground arith in
    let one : 1 ≤ capacity = ground arith in
    let size : add_size capacity 1 ≡ capacity + 1 = omega arith in
    elim (alloc-live 24 h) [
      | inl (no_self, live) ↦
          rw (string_new, no_self) (inl (refl, live, alloc-IsStarved 24 h (omega arith) no_self))
      | inr (p, self, live) ↦
          let h₁ = (alloc 24 h).1 in
          let kept = alloc-grants 24 h in
          let kept₁ = alloc-grants (add_size capacity 1) h₁ in
          elim (alloc-live (add_size capacity 1) h₁) [
            | inl (no_block, live₁) ↦
                rw (string_new, self, no_block)
                  (inl (
                    refl,
                    free-live p _ h.live (live₁ ∙ live),
                    IsStarved-grants h h₁ kept
                        (alloc-IsStarved (add_size capacity 1) h₁ (omega arith) no_block),
                  ))
            | inr (b, block, live₁) ↦
                let (valid, same) =
                  copied-IsValid p b (fresh h₁ b (add_size capacity 1)) str (my_strlen str) capacity
                    (length-fresh h₁ b (add_size capacity 1) ∙ size) fits (length-my_strlen str)
                    bound one in
                rw (string_new, self, block) (inr (_, refl, valid, same, kept₁ ∙ kept))
          ]
    ]

-- `string_new_with_capacity` makes a valid empty string with as much room as asked for.
pub string_new_with_capacity_lem :
    (wanted : ℕ) (h : Heap)
    → wanted < 2 ^ 62
    → let (o, h') = string_new_with_capacity wanted h in
      (o ≡ none × h'.live ≡ h.live × IsStarved h)
      ⊎ (s : String) × (o ≡ some s) × IsValid s × wanted ≤ s.capacity × h'.grants ≡ h.grants
unfolding string_new_with_capacity IsValid
string_new_with_capacity_lem wanted h small =
    let capacity : ℕ = if ltb wanted 16 then 16 else wanted in
    let fits : wanted ≤ capacity = ground arith in
    let bound : capacity + 1 < size_mod = ground arith in
    let one : 1 ≤ capacity = ground arith in
    let size : add_size capacity 1 ≡ capacity + 1 = omega arith in
    elim (alloc-live 24 h) [
      | inl (no_self, live) ↦
          rw (string_new_with_capacity, no_self)
            (inl (refl, live, alloc-IsStarved 24 h (omega arith) no_self))
      | inr (p, self, live) ↦
          let h₁ = (alloc 24 h).1 in
          let kept = alloc-grants 24 h in
          let kept₁ = alloc-grants (add_size capacity 1) h₁ in
          elim (alloc-live (add_size capacity 1) h₁) [
            | inl (no_block, live₁) ↦
                rw (string_new_with_capacity, self, no_block)
                  (inl (
                    refl,
                    free-live p _ h.live (live₁ ∙ live),
                    IsStarved-grants h h₁ kept
                        (alloc-IsStarved (add_size capacity 1) h₁ (omega arith) no_block),
                  ))
            | inr (b, block, live₁) ↦
                let buf : Bytes = fresh h₁ b (add_size capacity 1) in
                let l : length buf ≡ capacity + 1 =
                  length-fresh h₁ b (add_size capacity 1) ∙ size in
                rw (string_new_with_capacity, self, block)
                  (inr (
                    _,
                    refl,
                    (
                      length-set buf 0 0 ∙ l,
                      omega arith,
                      get_or-set buf 0 0 0 0 (omega arith) ∙ ground arith,
                      bound,
                      one,
                    ),
                    fits,
                    kept₁ ∙ kept,
                  ))
          ]
    ]
