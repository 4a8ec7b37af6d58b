-- ===== src/Vector/Buffer.antt =====
-- The buffer of a `Vector`: creation, `vector_reserve`, `vector_shrink_to_fit`, and what goes wrong
-- when a byte size wraps or an empty vector grows.
use freelang_independent_ful.Prelude.{
  ℕ, ◌*◌, ◌≤◌, ◌<◌, ◌≡◌, refl, ap, ◌∙◌, ◌⊎◌, inl, inr, Option, none, some, [], ◌∷◌, arith, ltb, leb,
  ◌==◌, length, Bool-cases, Option-cases, leb→le,
}
use freelang_independent_ful.Memory.{Bytes, size_mod, mul_size}
use freelang_independent_ful.Memory.Elements.{mul_le}
use freelang_independent_ful.Memory.Copy.{length-my_memcpy}
use freelang_independent_ful.Heap.{Heap, alloc, fresh, length-fresh}
use freelang_independent_ful.Status.{ok, fail}
use freelang_independent_ful.Vector.{
  Vector, sizeof_vector, grown_capacity, copied, regrow, grow, new, reserve, shrink_to_fit,
}
use freelang_independent_ful.Vector.Valid.{
  IsValid, contents, contents_unique, Kept, Kept-refl, rebuffer-Kept, grow_lem,
}

-- The pointer is NULL, or it points to a valid vector with no elements of the size asked for.
abbrev pub Fresh : ℕ → Option Vector → Type 0
Fresh e o =
    (o ≡ none)
    ⊎ ((v : Vector) × (o ≡ some v)
        × IsValid v
        × (contents v ≡ [])
        × (v.elem_size ≡ e)
        × (v.capacity ≡ 16))

Fresh-vector :
    (e s p : ℕ) (buf : Bytes)
    → 0 < e
    → 16 * e < size_mod
    → length buf ≡ mul_size 16 e
    → Fresh e (
        some (record { self = s; block = p; data' = buf; count = 0; capacity = 16; elem_size = e }))
Fresh-vector e s p buf h room width =
    let v : Vector = record {
      self = s;
      block = p;
      data' = buf;
      count = 0;
      capacity = 16;
      elem_size = e;
    } in
    inr (
      v,
      refl,
      record { sized = width ∙ omega arith; fits = omega arith; nonempty = h; bounded = room },
      contents_unique v [] refl (λ k q. absurd (omega arith)),
      refl,
      refl,
    )

-- `vector_new` of an element size whose sixteenfold does not wrap yields NULL or a valid empty
-- vector of capacity 16.
pub new-Fresh : (e : ℕ) (h : Heap) → 16 * e < size_mod → Fresh e (new e h).0
unfolding new
new-Fresh e h room = elim (Bool-cases (e == 0)) [
  | inl z ↦ rw z (inl refl)
  | inr nz ↦ elim (Option-cases (alloc sizeof_vector h).0) [
    | inl no_self ↦ rw (nz, new, no_self) (inl refl)
    | inr (s, self) ↦
        let h₁ = (alloc sizeof_vector h).1 in
        elim (Option-cases (alloc (mul_size 16 e) h₁).0) [
          | inl no_block ↦ rw (nz, new, self, no_block) (inl refl)
          | inr (p, block) ↦
              rw (nz, new, self, block)
                (Fresh-vector e s p (fresh h₁ p (mul_size 16 e)) (ground arith) room
                  (length-fresh h₁ p (mul_size 16 e)))
        ]
  ]
]

-- `vector_reserve` keeps the elements, and on success has room for as many as were asked for,
-- if the byte size of the new capacity does not wrap.
pub reserve_lem :
    {v : Vector} (m : ℕ) (h : Heap)
    → IsValid v
    → grown_capacity v.capacity m * v.elem_size < size_mod
    → let (s, o, _) = reserve (some v) m h in
      ((s ≡ ok) × (w : Vector) × (o ≡ some w) × Kept v w × (m ≤ w.capacity))
      ⊎ ((s ≡ fail) × (o ≡ some v))
unfolding reserve
reserve_lem {v} m h valid room = elim (grow_lem m h valid room) [
  | inl (done, kept, wide) ↦ inl (done, (grow v m h).1, refl, kept, wide)
  | inr (failed, same) ↦ inr (failed, ap some same)
]

-- `vector_shrink_to_fit` keeps the elements of a valid vector, and on success leaves no spare
-- capacity; it fails, with the vector unchanged, if there are no elements or no buffer is granted.
pub shrink_to_fit_lem :
    {v : Vector} (h : Heap)
    → IsValid v
    → let (s, o, _) = shrink_to_fit (some v) h in
      ((s ≡ ok) × (w : Vector) × (o ≡ some w) × Kept v w × (w.capacity ≡ v.count))
      ⊎ ((s ≡ fail) × (o ≡ some v))
unfolding shrink_to_fit
shrink_to_fit_lem {v} h valid = elim (Bool-cases (v.count == 0)) [
  | inl z ↦ rw z (inr (refl, refl))
  | inr nz ↦ elim (Bool-cases (v.capacity == v.count)) [
    | inl tight ↦ rw (nz, tight) (inl (refl, v, refl, Kept-refl valid, ground arith))
    | inr loose ↦
        let size = mul_size v.count v.elem_size in
        elim (Option-cases (alloc size h).0) [
          | inl refused ↦ rw (nz, loose, shrink_to_fit, refused) (inr (refl, refl))
          | inr (p, got) ↦
              rw (nz, loose, shrink_to_fit, got)
                (inl (
                  refl,
                  _,
                  refl,
                  rebuffer-Kept v.count p (fresh h p size) valid (omega arith)
                      (omega
                        (arith, valid.bounded, mul_le v.count v.capacity v.elem_size valid.fits))
                      (length-fresh h p size),
                  refl,
                ))
        ]
  ]
]

-- A buffer obtained for a new capacity is as long as the wrapped byte size says.
record Regrown (v : Vector) (capacity : ℕ) (w : Vector) : Type 0 where
  width : length w.data' ≡ mul_size capacity v.elem_size
  capacity_set : w.capacity ≡ capacity
  elem_size : w.elem_size ≡ v.elem_size

regrow-Regrown :
    (v : Vector) (capacity : ℕ) (h : Heap)
    → (regrow v capacity h).0 ≡ ok
    → Regrown v capacity (regrow v capacity h).1
unfolding regrow copied
regrow-Regrown v capacity h =
    let size = mul_size capacity v.elem_size in
    elim (Option-cases (alloc size h).0) [
      | inl refused ↦ rw (refused, regrow) (λ e. cc)
      | inr (p, got) ↦
          let new_data = fresh h p size in
          let n = length-fresh h p size in
          let c = length-my_memcpy new_data 0 v.data' 0 (mul_size v.count v.elem_size) in
          elim (Bool-cases (ltb 0 v.count)) [
            | inl used ↦
                rw (got, regrow, used)
                  (λ e. record { width = c ∙ n; capacity_set = refl; elem_size = refl })
            | inr unused ↦
                rw (got, regrow, unused)
                  (λ e. record { width = n; capacity_set = refl; elem_size = refl })
          ]
    ]

-- Where the byte size of the new capacity wraps and the small request is granted, `vector_reserve`
-- reports success and leaves a buffer shorter than the capacity says.
pub reserve_overflow :
    {v : Vector} (m : ℕ) (h : Heap)
    → IsValid v
    → v.capacity < m
    → size_mod ≤ grown_capacity v.capacity m * v.elem_size
    → (reserve (some v) m h).0 ≡ ok
    → (w : Vector) × ((reserve (some v) m h).1 ≡ some w)
      × (length w.data' < w.capacity * w.elem_size)
unfolding reserve grow
reserve_overflow {v} m h valid more wraps = elim (Bool-cases (leb m v.capacity)) [
  | inl enough ↦ absurd (omega (arith, leb→le m v.capacity enough))
  | inr short ↦
      let c = grown_capacity v.capacity m in
      rw (short, grow)
        (λ done.
          let r = regrow-Regrown v c h done in
          ((regrow v c h).1, refl, rw (r.width, r.capacity_set, r.elem_size) (omega arith)))
]

regrow_empty_live :
    (v : Vector) (capacity : ℕ) (h : Heap)
    → v.count ≡ 0
    → (regrow v capacity h).0 ≡ ok
    → ((regrow v capacity h).1.block ≡ h.requests)
      × ((regrow v capacity h).2.live ≡ h.requests ∷ h.live)
unfolding regrow alloc
regrow_empty_live v capacity h z done = ground arith

-- Growing a vector with no elements gives it a new buffer and releases none: every block that was
-- in use, the old buffer among them, still is.
pub reserve_leaks :
    (v : Vector) (m : ℕ) (h : Heap)
    → v.count ≡ 0
    → v.capacity < m
    → (reserve (some v) m h).0 ≡ ok
    → (w : Vector) × ((reserve (some v) m h).1 ≡ some w)
      × (w.block ≡ h.requests)
      × ((reserve (some v) m h).2.live ≡ h.requests ∷ h.live)
unfolding reserve grow
reserve_leaks v m h z more = elim (Bool-cases (leb m v.capacity)) [
  | inl enough ↦ absurd (omega (arith, leb→le m v.capacity enough))
  | inr short ↦
      let c = grown_capacity v.capacity m in
      rw (short, grow)
        (λ done. let l = regrow_empty_live v c h z done in ((regrow v c h).1, refl, l.0, l.1))
]
