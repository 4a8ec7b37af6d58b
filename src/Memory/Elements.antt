-- ===== src/Memory/Elements.antt =====
-- A buffer of elements of one size: what the copy loops do to whole elements.
use freelang_independent_ful.Prelude.{
  ℕ, suc, ◌+◌, ◌-◌, ◌*◌, ◌≤◌, ◌<◌, ◌≡◌, sym, ◌∙◌, ◌⊎◌, inl, inr, arith, length, get_or, take, drop,
  length-take, length-drop, list_ext,
}
use freelang_independent_ful.Prelude.Slices.{get_or-take, get_or-drop}
use freelang_independent_ful.Memory.{Bytes, my_memcpy, my_memmove}
use freelang_independent_ful.Memory.Copy.{
  written, length-my_memcpy, get_or-my_memcpy, length-my_memmove, get_or-my_memmove,
}

pub mul_le : (a b e : ℕ) → a ≤ b → a * e ≤ b * e
mul_le a b e h = grind arith

pub mul_lt : (a b e : ℕ) → a < b → a * e + e ≤ b * e
mul_lt a b e h = omega (arith, mul_le (suc a) b e h)

-- element `k` of a buffer of elements of `e` bytes
abbrev pub elem_at : ℕ → Bytes → ℕ → Bytes
elem_at e buf k = take e (drop (k * e) buf)

pub length-elem_at :
    (e : ℕ) (buf : Bytes) (k : ℕ) → k * e + e ≤ length buf → length (elem_at e buf k) ≡ e
length-elem_at e buf k h = omega (arith, length-take e (drop (k * e) buf), length-drop (k * e) buf)

get_or-elem_at :
    (e : ℕ) (buf : Bytes) (k b : ℕ)
    → b < e
    → get_or (elem_at e buf k) b 0 ≡ get_or buf (k * e + b) 0
get_or-elem_at e buf k b h =
    ground (arith, get_or-take e (drop (k * e) buf) b 0, get_or-drop (k * e) buf b 0)

-- Two elements are equal if their bytes are.
elem_ext :
    (e : ℕ) (buf : Bytes) (k : ℕ) (buf' : Bytes) (k' : ℕ)
    → k * e + e ≤ length buf
    → k' * e + e ≤ length buf'
    → ((b : ℕ) → b < e → get_or buf (k * e + b) 0 ≡ get_or buf' (k' * e + b) 0)
    → elem_at e buf k ≡ elem_at e buf' k'
elem_ext e buf k buf' k' h h' same =
    let n = length-elem_at e buf k h in
    list_ext (elem_at e buf k) (elem_at e buf' k') 0 (n ∙ sym (length-elem_at e buf' k' h')) (λ b p.
      let q : b < e = omega (arith, n) in
      get_or-elem_at e buf k b q ∙ same b q ∙ sym (get_or-elem_at e buf' k' b q))

-- `m` elements from element `s` of `src` on were copied to element `d` of `dest`, giving `buf`.
pub record Copied (e : ℕ) (dest : Bytes) (d : ℕ) (src : Bytes) (s m : ℕ) (buf : Bytes)
    : Type 0 where
  pub width : length buf ≡ length dest
  pub inside : (q : ℕ) → q < m → elem_at e buf (d + q) ≡ elem_at e src (s + q)
  pub outside :
      (k : ℕ) → k * e + e ≤ length dest → (k < d) ⊎ (d + m ≤ k) → elem_at e buf k ≡ elem_at e dest k

module _ (e : ℕ) (dest : Bytes) (d : ℕ) (src : Bytes) (s m : ℕ) (room : (d + m) * e ≤ length dest)
    (have : (s + m) * e ≤ length src) (buf : Bytes) (width : length buf ≡ length dest)
    (bytes : (j : ℕ) → get_or buf j 0 ≡ written dest (d * e) src (s * e) (m * e) j) where
  copied_inside : (q : ℕ) → q < m → elem_at e buf (d + q) ≡ elem_at e src (s + q)
  copied_inside q p =
      let low = mul_lt q m e p in
      elem_ext e buf (d + q) src (s + q) (omega arith) (omega arith) (λ b h.
        let i : s * e + ((d + q) * e + b - d * e) ≡ (s + q) * e + b = omega arith in
        ground (arith, bytes ((d + q) * e + b), i, low))

  copied_outside :
      (k : ℕ) → k * e + e ≤ length dest → (k < d) ⊎ (d + m ≤ k) → elem_at e buf k ≡ elem_at e dest k
  copied_outside k h o = elem_ext e buf k dest k (omega arith) h (λ b p. at b p o)
    where
      at :
          (b : ℕ)
          → b < e
          → (k < d) ⊎ (d + m ≤ k)
          → get_or buf (k * e + b) 0 ≡ get_or dest (k * e + b) 0
      at b p (inl o) = ground (arith, bytes (k * e + b), mul_lt k d e o)
      at b p (inr o) = ground (arith, bytes (k * e + b), mul_le (d + m) k e o)

  pub copied : Copied e dest d src s m buf
  copied = record { width = width; inside = copied_inside; outside = copied_outside }

-- `my_memcpy` of whole elements.
pub my_memcpy-Copied :
    (e : ℕ) (dest : Bytes) (d : ℕ) (src : Bytes) (s m : ℕ)
    → (d + m) * e ≤ length dest
    → (s + m) * e ≤ length src
    → Copied e dest d src s m (my_memcpy dest (d * e) src (s * e) (m * e))
my_memcpy-Copied e dest d src s m room have =
    copied e dest d src s m room have _ (length-my_memcpy dest (d * e) src (s * e) (m * e))
      (λ j. get_or-my_memcpy dest (d * e) src (s * e) (m * e) j (omega arith))

-- `my_memmove` of whole elements, whichever way the ranges overlap.
pub my_memmove-Copied :
    (e : ℕ) (buf : Bytes) (d s m : ℕ)
    → (d + m) * e ≤ length buf
    → (s + m) * e ≤ length buf
    → Copied e buf d buf s m (my_memmove buf (d * e) (s * e) (m * e))
my_memmove-Copied e buf d s m room have =
    copied e buf d buf s m room have _ (length-my_memmove buf (d * e) (s * e) (m * e))
      (λ j. get_or-my_memmove buf (d * e) (s * e) (m * e) j (omega arith))

-- The same at offsets and sizes that are known to be multiples of the element size.
pub my_memcpy-Copied_at :
    (e : ℕ) (dest : Bytes) (d : ℕ) (src : Bytes) (s m d' s' n' : ℕ)
    → d' ≡ d * e
    → s' ≡ s * e
    → n' ≡ m * e
    → (d + m) * e ≤ length dest
    → (s + m) * e ≤ length src
    → Copied e dest d src s m (my_memcpy dest d' src s' n')
my_memcpy-Copied_at e dest d src s m d' s' n' p q r room have =
    rw (p, q, r) (my_memcpy-Copied e dest d src s m room have)

pub my_memmove-Copied_at :
    (e : ℕ) (buf : Bytes) (d s m d' s' n' : ℕ)
    → d' ≡ d * e
    → s' ≡ s * e
    → n' ≡ m * e
    → (d + m) * e ≤ length buf
    → (s + m) * e ≤ length buf
    → Copied e buf d buf s m (my_memmove buf d' s' n')
my_memmove-Copied_at e buf d s m d' s' n' p q r room have =
    rw (p, q, r) (my_memmove-Copied e buf d s m room have)
