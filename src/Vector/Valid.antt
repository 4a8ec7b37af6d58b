-- ===== src/Vector/Valid.antt =====
-- The representation invariant of `Vector`, the elements that it holds, and `vector_grow`.
use freelang_independent_ful.Prelude.{
  ℕ, zero, suc, ◌+◌, ◌*◌, ◌≤◌, ◌<◌, ◌≡◌, refl, sym, ap, ◌∙◌, ◌⊎◌, inl, inr, List, [], ◌∷◌, arith,
  ltb, leb, length, get_or, list_ext, Bool-cases, Option-cases, leb→le, none,
}
use freelang_independent_ful.Memory.{Bytes, size_mod, mul_size, add_size}
use freelang_independent_ful.Memory.Elements.{elem_at, my_memcpy-Copied_at, mul_le}
use freelang_independent_ful.Heap.{Heap, alloc, fresh, length-fresh}
use freelang_independent_ful.Status.{ok, fail}
use freelang_independent_ful.Vector.{Vector, grown_capacity, copied, regrow, grow, make_room}

pub record IsValid (v : Vector) : Type 0 where
  pub sized : length v.data' ≡ v.capacity * v.elem_size
  pub fits : v.count ≤ v.capacity
  pub nonempty : 0 < v.elem_size
  pub bounded : v.capacity * v.elem_size < size_mod

-- elements `i`, `i + 1`, … of a buffer, `n` of them
elems_from : ℕ → Bytes → ℕ → ℕ → List Bytes
elems_from e buf i zero = []
elems_from e buf i (suc n) = elem_at e buf i ∷ elems_from e buf (i + 1) n

-- the elements of a vector, in order
pub contents : Vector → List Bytes
unfolding elems_from
contents v = elems_from v.elem_size v.data' 0 v.count

length-elems_from : (e : ℕ) (buf : Bytes) (i n : ℕ) → length (elems_from e buf i n) ≡ n
unfolding elems_from
length-elems_from e buf i zero = refl
length-elems_from e buf i (suc n) = ap suc (length-elems_from e buf (i + 1) n)

get_or-elems_from :
    (e : ℕ) (buf : Bytes) (i n k : ℕ)
    → k < n
    → get_or (elems_from e buf i n) k [] ≡ elem_at e buf (i + k)
unfolding elems_from
get_or-elems_from e buf i zero k h = absurd (omega arith)
get_or-elems_from e buf i (suc n) zero h = ap (elem_at e buf) (omega arith)
get_or-elems_from e buf i (suc n) (suc k) h =
    get_or-elems_from e buf (i + 1) n k (omega arith) ∙ ap (elem_at e buf) (omega arith)

pub length-contents : (v : Vector) → length (contents v) ≡ v.count
unfolding contents
length-contents v = length-elems_from v.elem_size v.data' 0 v.count

pub get_or-contents :
    (v : Vector) (k : ℕ) → k < v.count → get_or (contents v) k [] ≡ elem_at v.elem_size v.data' k
unfolding contents
get_or-contents v k h =
    get_or-elems_from v.elem_size v.data' 0 v.count k h
    ∙ ap (elem_at v.elem_size v.data') (omega arith)

-- A list is the contents if it has the count's length and the buffer's elements.
pub contents_unique :
    (v : Vector) (xs : List Bytes)
    → length xs ≡ v.count
    → ((k : ℕ) → k < v.count → elem_at v.elem_size v.data' k ≡ get_or xs k [])
    → contents v ≡ xs
contents_unique v xs e same = list_ext (contents v) xs [] (length-contents v ∙ sym e) (λ k p.
    let q : k < v.count = omega (arith, length-contents v) in get_or-contents v k q ∙ same k q)

-- The offset of an element of a valid vector does not wrap, and lies in the buffer.
pub offset :
    {v : Vector} (k : ℕ)
    → IsValid v
    → k ≤ v.capacity
    → (mul_size k v.elem_size ≡ k * v.elem_size) × (k * v.elem_size ≤ length v.data')
offset {v} k valid h = omega (arith, mul_le k v.capacity v.elem_size h)

-- The capacity of a valid vector is far from wrapping.
pub capacity-lt : {v : Vector} → IsValid v → v.capacity < size_mod
capacity-lt {v} valid = omega (arith, cap_le v.capacity v.elem_size valid.nonempty)
  where
    cap_le : (c e : ℕ) → 0 < e → c ≤ c * e
    cap_le c e h = grind arith

-- What growing and shrinking keep.
pub record Kept (v w : Vector) : Type 0 where
  pub valid : IsValid w
  pub count : w.count ≡ v.count
  pub elem_size : w.elem_size ≡ v.elem_size
  pub self : w.self ≡ v.self
  pub same : contents w ≡ contents v

pub Kept-refl : {v : Vector} → IsValid v → Kept v v
Kept-refl valid = record { valid = valid; count = refl; elem_size = refl; self = refl; same = refl }

-- A new buffer of `capacity` elements into which the elements in use were copied.
pub rebuffer-Kept :
    {v : Vector} (capacity p : ℕ) (new_data : Bytes)
    → IsValid v
    → v.count ≤ capacity
    → capacity * v.elem_size < size_mod
    → length new_data ≡ mul_size capacity v.elem_size
    → Kept v (record v { block = p; data' = copied v new_data; capacity = capacity })
unfolding copied
rebuffer-Kept {v} capacity p new_data valid h room e =
    let c =
      my_memcpy-Copied_at v.elem_size new_data 0 v.data' 0 v.count 0 0
        (mul_size v.count v.elem_size) (omega arith) (omega arith)
        ((offset v.count valid valid.fits).0) (omega (arith, mul_le v.count capacity v.elem_size h))
        (omega (arith, mul_le v.count v.capacity v.elem_size valid.fits)) in
    record {
      valid = record {
        sized = c.width ∙ e ∙ omega arith;
        fits = h;
        nonempty = valid.nonempty;
        bounded = room;
      };
      count = refl;
      elem_size = refl;
      self = refl;
      same =
          contents_unique (record v { block = p; data' = copied v new_data; capacity = capacity })
            (contents v) (length-contents v)
            (λ k q.
              let z : 0 + k ≡ k = omega arith in
              rw z at (c.inside k q) ∙ sym (get_or-contents v k q));
    }

-- A larger buffer into which nothing is copied, as no element is in use.
empty-Kept :
    {v : Vector} (capacity p : ℕ) (new_data : Bytes)
    → IsValid v
    → v.count ≡ 0
    → capacity * v.elem_size < size_mod
    → length new_data ≡ mul_size capacity v.elem_size
    → Kept v (record v { block = p; data' = new_data; capacity = capacity })
empty-Kept {v} capacity p new_data valid z room e = record {
  valid = record {
    sized = e ∙ omega arith;
    fits = omega arith;
    nonempty = valid.nonempty;
    bounded = room;
  };
  count = refl;
  elem_size = refl;
  self = refl;
  same =
      contents_unique (record v { block = p; data' = new_data; capacity = capacity }) (contents v)
        (length-contents v) (λ k q. absurd (omega arith));
}

-- Growing to a capacity whose byte size does not wrap: on success the elements are kept and the
-- capacity is the one asked for, on failure nothing changes.
pub regrow_lem :
    {v : Vector} (capacity : ℕ) (h : Heap)
    → IsValid v
    → v.count ≤ capacity
    → capacity * v.elem_size < size_mod
    → let (s, w, _) = regrow v capacity h in
      ((s ≡ ok) × Kept v w × (w.capacity ≡ capacity)) ⊎ ((s ≡ fail) × (w ≡ v))
unfolding regrow
regrow_lem {v} capacity h valid fits room =
    let size = mul_size capacity v.elem_size in
    elim (Option-cases (alloc size h).0) [
      | inl e ↦ rw (e, regrow) (inr (refl, refl))
      | inr (p, e) ↦ elim (Bool-cases (ltb 0 v.count)) [
        | inl some_in_use ↦
            rw (e, regrow, some_in_use)
              (inl (
                refl,
                rebuffer-Kept capacity p (fresh h p size) valid fits room (length-fresh h p size),
                refl,
              ))
        | inr none_in_use ↦
            rw (e, regrow, none_in_use)
              (inl (
                refl,
                empty-Kept capacity p (fresh h p size) valid (ground arith) room
                    (length-fresh h p size),
                refl,
              ))
      ]
    ]

le-grown_capacity : (c m : ℕ) → m ≤ grown_capacity c m
unfolding grown_capacity
le-grown_capacity c m = ground arith

-- `vector_grow` to a capacity whose byte size does not wrap: on success the elements are kept and
-- the capacity is at least the one asked for, on failure nothing changes.
pub grow_lem :
    {v : Vector} (m : ℕ) (h : Heap)
    → IsValid v
    → grown_capacity v.capacity m * v.elem_size < size_mod
    → let (s, w, _) = grow v m h in
      ((s ≡ ok) × Kept v w × (m ≤ w.capacity)) ⊎ ((s ≡ fail) × (w ≡ v))
unfolding grow
grow_lem {v} m h valid room = elim (Bool-cases (leb m v.capacity)) [
  | inl enough ↦ rw (enough, grow) (inl (refl, Kept-refl valid, leb→le m v.capacity enough))
  | inr short ↦
      rw (short, grow)
        (elim (regrow_lem (grown_capacity v.capacity m) h valid
          (ground (arith, le-grown_capacity v.capacity m)) room) [
            | inl (done, kept, wide) ↦
                inl (done, kept, omega (arith, wide, le-grown_capacity v.capacity m))
            | inr same ↦ inr same
          ])
]

-- The byte size of the capacity that a full vector grows to does not wrap.
abbrev pub CanGrow : Vector → Type 0
CanGrow v = grown_capacity v.capacity (v.count + 1) * v.elem_size < size_mod

le-mul : (c e : ℕ) → 0 < e → c ≤ c * e
le-mul c e h = grind arith

-- No wrap of `count + 1`.
pub next_count : {v : Vector} → IsValid v → CanGrow v → add_size v.count 1 ≡ v.count + 1
next_count {v} valid room = omega (
  arith,
  le-grown_capacity v.capacity (v.count + 1),
  le-mul (grown_capacity v.capacity (v.count + 1)) v.elem_size valid.nonempty,
)

-- The capacity test of push and insert: there is room for one more, or the vector is full and
-- unchanged.
pub make_room_lem :
    {v : Vector} (h : Heap)
    → IsValid v
    → CanGrow v
    → let (s, w, _) = make_room v h in
      ((s ≡ ok) × Kept v w × (v.count < w.capacity))
      ⊎ ((s ≡ fail) × (w ≡ v) × (v.count ≡ v.capacity))
unfolding make_room
make_room_lem {v} h valid room = elim (Bool-cases (leb v.capacity v.count)) [
  | inr roomy ↦ rw (roomy, make_room) (inl (refl, Kept-refl valid, ground arith))
  | inl full ↦
      rw (full, make_room, next_count valid room)
        (elim (grow_lem (v.count + 1) h valid room) [
          | inl (done, kept, wide) ↦ inl (done, kept, omega (arith, wide))
          | inr (failed, same) ↦ inr (failed, same, ground (arith, valid.fits))
        ])
]

-- The request for the buffer that a full vector grows to is refused.
abbrev pub IsRefused : Vector → Heap → Type 0
IsRefused v h = (alloc (grown_capacity v.capacity (v.count + 1) * v.elem_size) h).0 ≡ none

-- `vector_grow` past its test fails only when its request is refused.
regrow_refused :
    (v : Vector) (c : ℕ) (h : Heap)
    → (regrow v c h).0 ≡ fail
    → (alloc (mul_size c v.elem_size) h).0 ≡ none
unfolding regrow
regrow_refused v c h = elim (Option-cases (alloc (mul_size c v.elem_size) h).0) [
  | inl refused ↦ λ z. refused
  | inr (p, got) ↦ elim (Bool-cases (ltb 0 v.count)) [
    | inl some_in_use ↦ rw (regrow, got, some_in_use) (λ z. cc)
    | inr none_in_use ↦ rw (regrow, got, none_in_use) (λ z. cc)
  ]
]

-- `make_room` fails only when the request is refused.
pub make_room-IsRefused :
    {v : Vector} (h : Heap) → IsValid v → CanGrow v → (make_room v h).0 ≡ fail → IsRefused v h
unfolding make_room grow
make_room-IsRefused {v} h valid room =
    let c : ℕ = grown_capacity v.capacity (v.count + 1) in
    let size : mul_size c v.elem_size ≡ c * v.elem_size = omega arith in
    let n = next_count valid room in
    elim (Bool-cases (leb v.capacity v.count)) [
      | inr roomy ↦ rw (make_room, roomy) (λ z. cc)
      | inl full ↦ elim (Bool-cases (leb (v.count + 1) v.capacity)) [
        | inl enough ↦ rw (make_room, full, n, enough) (λ z. cc)
        | inr short ↦
            rw (make_room, full, n, short)
              (λ z. ap (λ k. (alloc k h).0) (sym size) ∙ regrow_refused v c h z)
      ]
    ]
