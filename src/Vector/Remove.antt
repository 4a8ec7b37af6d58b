-- ===== src/Vector/Remove.antt =====
-- `vector_remove` and `vector_pop` as removals from the list of the elements.
use freelang_independent_ful.Prelude.{
  ℕ, ◌+◌, ◌-◌, ◌≤◌, ◌<◌, ◌≡◌, ◌≢◌, refl, sym, ◌∙◌, ◌⊎◌, inl, inr, none, some, [], arith, ltb, leb,
  ◌==◌, if◌then◌else◌, length, get_or, get_elem?, Bool-cases, leb→le, lt→ltb, dec_lt,
}
use freelang_independent_ful.Prelude.Positions.{remove_at, length-remove_at, get_or-remove_at}
use freelang_independent_ful.Memory.{mul_size, add_size}
use freelang_independent_ful.Memory.Elements.{elem_at, Copied, my_memmove-Copied_at, mul_le, mul_lt}
use freelang_independent_ful.Status.{ok, fail}
use freelang_independent_ful.Vector.{Vector, load, closed_data, remove_elem, remove, pop, at}
use freelang_independent_ful.Vector.Valid.{
  IsValid, contents, length-contents, get_or-contents, contents_unique, offset, capacity-lt,
}
use freelang_independent_ful.Vector.Contents.{Holds, at-get_elem?}

-- An element in use is inside the capacity: its index and its successor do not wrap.
module _ {v : Vector} (valid : IsValid v) (i : ℕ) (inside : i < v.count) where
  closed_next : add_size i 1 ≡ i + 1
  closed_next = omega (arith, capacity-lt valid)

  closed-Copied :
      i < v.count - 1
      → Copied v.elem_size v.data' i v.data' (i + 1) (v.count - i - 1) (closed_data v i)
  unfolding closed_data
  closed-Copied h = rw (lt→ltb i (v.count - 1) h) (
      my_memmove-Copied_at v.elem_size v.data' i (i + 1) (v.count - i - 1) (mul_size i v.elem_size)
        (mul_size (add_size i 1) v.elem_size) (mul_size (v.count - i - 1) v.elem_size)
        ((offset i valid (omega arith)).0) (rw closed_next ((offset (i + 1) valid (omega arith)).0))
        ((offset (v.count - i - 1) valid (omega arith)).0)
        (omega
          (arith, valid.sized, mul_le (i + (v.count - i - 1)) v.capacity v.elem_size (omega arith)))
        (omega (
          arith,
          valid.sized,
          mul_le (i + 1 + (v.count - i - 1)) v.capacity v.elem_size (omega arith),
        )))

  closed_width : length (closed_data v i) ≡ length v.data'
  unfolding closed_data
  closed_width = elim (dec_lt i (v.count - 1)) [
    | yes h ↦ (closed-Copied h).width
    | no h ↦ ground arith
  ]

  closed_before :
      (k : ℕ) → k < i → elem_at v.elem_size (closed_data v i) k ≡ elem_at v.elem_size v.data' k
  unfolding closed_data
  closed_before k p = elim (dec_lt i (v.count - 1)) [
    | yes h ↦
        (closed-Copied h).outside k
          (omega (arith, valid.sized, mul_lt k v.capacity v.elem_size (omega arith)))
          (inl (omega arith))
    | no h ↦ ground arith
  ]

  closed_after :
      (k : ℕ)
      → i ≤ k
      → k < v.count - 1
      → elem_at v.elem_size (closed_data v i) k ≡ elem_at v.elem_size v.data' (k + 1)
  closed_after k p q =
      let a : i + (k - i) ≡ k = omega arith in
      let b : i + 1 + (k - i) ≡ k + 1 = omega arith in
      rw (a, b) at ((closed-Copied (omega arith)).inside (k - i) (omega arith))

  pub remove_elem-IsValid : IsValid (remove_elem v i)
  unfolding remove_elem
  remove_elem-IsValid = record {
    sized = closed_width ∙ valid.sized;
    fits = omega (arith, valid.fits);
    nonempty = valid.nonempty;
    bounded = valid.bounded;
  }

  pub remove_elem_lem : contents (remove_elem v i) ≡ remove_at i (contents v)
  unfolding remove_elem
  remove_elem_lem =
      contents_unique (remove_elem v i) (remove_at i (contents v))
        (omega (
          arith,
          length-remove_at i (contents v) (omega (arith, length-contents v)),
          length-contents v,
        ))
        (λ k p. at k p ∙ sym (get_or-remove_at i (contents v) k []))
    where
      at :
          (k : ℕ)
          → k < v.count - 1
          → elem_at v.elem_size (closed_data v i) k
            ≡ (if ltb k i then get_or (contents v) k [] else get_or (contents v) (k + 1) [])
      at k p = elim (dec_lt k i) [
        | yes q ↦ closed_before k q ∙ sym (get_or-contents v k (omega arith)) ∙ ground arith
        | no q ↦
            closed_after k (omega arith) p
            ∙ sym (get_or-contents v (k + 1) (omega arith))
            ∙ ground arith
      ]

-- `vector_remove` hands out the element at the position and leaves the others in order; past the
-- count it fails and changes nothing.
pub remove_lem :
    {v : Vector} (i : ℕ)
    → IsValid v
    → let (s, out, w) = remove (some v) i in
      ((s ≡ ok)
        × (i < v.count)
        × (out ≡ get_elem? (contents v) i)
        × Holds w (remove_at i (contents v)))
      ⊎ ((s ≡ fail) × (v.count ≤ i) × (out ≡ none) × (w ≡ some v))
unfolding remove at
remove_lem {v} i valid = elim (Bool-cases (leb v.count i)) [
  | inl past ↦ rw past (inr (refl, leb→le v.count i past, refl, refl))
  | inr within ↦
      let q : i < v.count = ground arith in
      rw within (
        inl (
          refl,
          q,
          ground (arith, at-get_elem? i valid),
          (remove_elem v i, refl, remove_elem-IsValid valid i q, remove_elem_lem valid i q),
        ))
]

-- The last element goes with the count.
remove_elem-pop :
    (v : Vector) → v.count ≢ 0 → remove_elem v (v.count - 1) ≡ record v { count = v.count - 1 }
unfolding remove_elem closed_data
remove_elem-pop v h = ground arith

-- `vector_pop` hands out the last element and leaves the others; on an empty vector it does
-- nothing.
pub pop_lem :
    {v : Vector}
    → IsValid v
    → let (out, w) = pop (some v) in
      ((0 < v.count)
        × (out ≡ get_elem? (contents v) (v.count - 1))
        × Holds w (remove_at (v.count - 1) (contents v)))
      ⊎ ((v.count ≡ 0) × (out ≡ none) × (w ≡ some v))
unfolding pop at load
pop_lem {v} valid = elim (Bool-cases (v.count == 0)) [
  | inl empty ↦ rw empty (inr (ground arith, refl, refl))
  | inr full ↦
      let q : v.count - 1 < v.count = ground arith in
      let e = remove_elem-pop v (ground arith) in
      rw full (
        inl (
          omega arith,
          ground (arith, at-get_elem? (v.count - 1) valid),
          (
            record v { count = v.count - 1 },
            refl,
            rw e at (remove_elem-IsValid valid (v.count - 1) q),
            rw e at (remove_elem_lem valid (v.count - 1) q),
          ),
        ))
]
