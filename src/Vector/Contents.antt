-- ===== src/Vector/Contents.antt =====
-- Each operation of `Vector` as an operation on the list of the elements.
use freelang_independent_ful.Prelude.{
  ℕ, ◌+◌, ◌*◌, ◌≤◌, ◌<◌, ◌≡◌, ◌≢◌, refl, sym, ap, ◌∙◌, ◌⊎◌, inl, inr, Option, some, List, [], ◌∷◌,
  arith, leb, length, get_elem?, get_elem?-get_or, set, take, Bool-cases, leb→le, length-set,
  get_or-set_apart, get_or-set_self, ℕ_discrete,
}
use freelang_independent_ful.Memory.{Bytes, mul_size}
use freelang_independent_ful.Memory.Elements.{elem_at, Copied, my_memcpy-Copied_at, mul_lt}
use freelang_independent_ful.Status.{ok, fail}
use freelang_independent_ful.Vector.{Vector, store, load, at, set_elem}
use freelang_independent_ful.Vector.Valid.{
  IsValid, contents, length-contents, get_or-contents, contents_unique, offset,
}

take_all : (xs : Bytes) → take (length xs) xs ≡ xs
take_all [] = refl
take_all (x ∷ xs) = ap (λ l. x ∷ l) (take_all xs)

elem_at_whole : (e : ℕ) (x : Bytes) → length x ≡ e → elem_at e x 0 ≡ x
elem_at_whole e x h = let z : 0 * e ≡ 0 = omega arith in rw (z, ← h) (take_all x)

-- Storing an element inside the capacity replaces that element and no other.
module _ {v : Vector} (valid : IsValid v) (i : ℕ) (x : Bytes) (inside : i < v.capacity)
    (whole : length x ≡ v.elem_size) where
  pub store-Copied : Copied v.elem_size v.data' i x 0 1 (store v i x)
  unfolding store
  store-Copied =
      my_memcpy-Copied_at v.elem_size v.data' i x 0 1 (mul_size i v.elem_size) 0 v.elem_size
        ((offset i valid (omega arith)).0) (omega arith) (omega arith)
        (omega (arith, valid.sized, mul_lt i v.capacity v.elem_size inside)) (omega arith)

  pub store_here : elem_at v.elem_size (store v i x) i ≡ x
  store_here =
      let z : i + 0 ≡ i = omega arith in
      let z' : 0 + 0 ≡ 0 = omega arith in
      rw (z, z') at (store-Copied.inside 0 (omega arith)) ∙ elem_at_whole v.elem_size x whole

  pub store_apart :
      (k : ℕ)
      → k < v.capacity
      → k ≢ i
      → elem_at v.elem_size (store v i x) k ≡ elem_at v.elem_size v.data' k
  store_apart k h ne =
      store-Copied.outside k (omega (arith, valid.sized, mul_lt k v.capacity v.elem_size h))
        (omega arith)

-- What a pointer to a valid vector with the given elements is.
abbrev pub Holds : Option Vector → List Bytes → Type 0
Holds o xs = (v : Vector) × (o ≡ some v) × IsValid v × (contents v ≡ xs)

-- `vector_at` yields the element at the position, and NULL past the count.
pub at-get_elem? : {v : Vector} (k : ℕ) → IsValid v → at (some v) k ≡ get_elem? (contents v) k
unfolding at load
at-get_elem? {v} k valid =
    let e = get_elem?-get_or (contents v) k [] in
    let n = length-contents v in
    elim (Bool-cases (leb v.count k)) [
      | inl past ↦ ground (arith, e, n)
      | inr within ↦
          let q : k < v.count = ground arith in
          let o = (offset k valid (omega (arith, valid.fits))).0 in
          rw (within, o) (ground (arith, e, n, get_or-contents v k q))
    ]

-- `vector_set` within the count replaces the element.
pub set_elem_lem :
    {v : Vector} (k : ℕ) (x : Bytes)
    → IsValid v
    → length x ≡ v.elem_size
    → let (s, w) = set_elem (some v) k (some x) in
      ((s ≡ ok) × (k < v.count) × Holds w (set (contents v) k x))
      ⊎ ((s ≡ fail) × (v.count ≤ k) × (w ≡ some v))
unfolding set_elem
set_elem_lem {v} k x valid whole = elim (Bool-cases (leb v.count k)) [
  | inl past ↦ rw past (inr (refl, leb→le v.count k past, refl))
  | inr within ↦
      rw within (let q : k < v.count = ground arith in inl (refl, q, (w, refl, keeps q, is_set q)))
]
  where
    w : Vector
    w = record v { data' = store v k x }

    keeps : k < v.count → IsValid w
    keeps q = record {
      sized = (store-Copied valid k x (omega arith) whole).width ∙ valid.sized;
      fits = valid.fits;
      nonempty = valid.nonempty;
      bounded = valid.bounded;
    }

    is_set : k < v.count → contents w ≡ set (contents v) k x
    is_set q =
        contents_unique w (set (contents v) k x) (length-set (contents v) k x ∙ length-contents v)
          (λ j p. elim (ℕ_discrete j k) [
            | yes e ↦ rw e (
                store_here valid k x (omega arith) whole
                ∙ sym (get_or-set_self (contents v) k x [] (omega (arith, length-contents v))))
            | no ne ↦
                store_apart valid k x (omega arith) whole j (omega arith) ne
                ∙ sym (get_or-contents v j p)
                ∙ sym (get_or-set_apart (contents v) k j x [] (omega arith))
          ])
