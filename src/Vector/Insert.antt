-- ===== src/Vector/Insert.antt =====
-- `vector_push` and `vector_insert` as insertions into the list of the elements.
use freelang_independent_ful.Prelude.{
  ℕ, ◌+◌, ◌-◌, ◌*◌, ◌≤◌, ◌<◌, ◌≡◌, refl, sym, ap, ◌∙◌, ◌⊎◌, inl, inr, some, List, [], ◌∷◌, ◌++◌,
  arith, ltb, ◌==◌, if◌then◌else◌, length, get_or, Bool-cases, ltb→lt, lt→ltb, dec_lt, ℕ_discrete,
}
use freelang_independent_ful.Prelude.Positions.{insert_at, length-insert_at, get_or-insert_at}
use freelang_independent_ful.Memory.{Bytes, mul_size, add_size}
use freelang_independent_ful.Memory.Elements.{elem_at, Copied, my_memmove-Copied_at, mul_le, mul_lt}
use freelang_independent_ful.Heap.{Heap}
use freelang_independent_ful.Status.{ok, fail}
use freelang_independent_ful.Vector.{
  Vector, append_elem, gap_data, insert_elem, make_room, push, insert,
}
use freelang_independent_ful.Vector.Valid.{
  IsValid, contents, length-contents, get_or-contents, contents_unique, offset, capacity-lt,
  CanGrow, make_room_lem, IsRefused, make_room-IsRefused,
}
use freelang_independent_ful.Vector.Contents.{Holds, store-Copied, store_here, store_apart}

-- A buffer whose elements are those of a list with `x` put in at `i`.
insert_at_unique :
    (v w : Vector) (i : ℕ) (x : Bytes)
    → i ≤ v.count
    → w.count ≡ v.count + 1
    → ((k : ℕ) → k < i → elem_at w.elem_size w.data' k ≡ elem_at v.elem_size v.data' k)
    → elem_at w.elem_size w.data' i ≡ x
    → ((k : ℕ)
        → i ≤ k
        → k < v.count
        → elem_at w.elem_size w.data' (k + 1) ≡ elem_at v.elem_size v.data' k)
    → contents w ≡ insert_at i x (contents v)
insert_at_unique v w i x h e before here after =
    contents_unique w (insert_at i x (contents v))
      (length-insert_at i x (contents v) ∙ omega (arith, length-contents v))
      (λ k p.
        at k p ∙ sym (get_or-insert_at i x (contents v) k [] (omega (arith, length-contents v))))
  where
    at :
        (k : ℕ)
        → k < w.count
        → elem_at w.elem_size w.data' k ≡ (
            if ltb k i
            then get_or (contents v) k []
            else if k == i
            then x
            else get_or (contents v) (k - 1) [])
    at k p = elim (dec_lt k i) [
      | yes q ↦ before k q ∙ sym (get_or-contents v k (omega arith)) ∙ ground arith
      | no q ↦ elim (ℕ_discrete k i) [
        | yes z ↦ rw z (here ∙ ground arith)
        | no z ↦
            let back : k - 1 + 1 ≡ k = omega arith in
            rw back at (after (k - 1) (omega arith) (omega arith))
            ∙ sym (get_or-contents v (k - 1) (omega arith))
            ∙ ground arith
      ]
    ]

-- With room for one more: the tail moves up by one, and the element fills the gap.
module _ {v : Vector} (valid : IsValid v) (i : ℕ) (x : Bytes) (inside : i ≤ v.count)
    (room : v.count < v.capacity) (whole : length x ≡ v.elem_size) where
  next : (k : ℕ) → k < v.capacity → add_size k 1 ≡ k + 1
  next k h = omega (arith, capacity-lt valid)

  gap-Copied :
      i < v.count → Copied v.elem_size v.data' (i + 1) v.data' i (v.count - i) (gap_data v i)
  unfolding gap_data
  gap-Copied h = rw (lt→ltb i v.count h) (
      my_memmove-Copied_at v.elem_size v.data' (i + 1) i (v.count - i)
        (mul_size (add_size i 1) v.elem_size) (mul_size i v.elem_size)
        (mul_size (v.count - i) v.elem_size)
        (rw (next i (omega arith)) ((offset (i + 1) valid (omega arith)).0))
        ((offset i valid (omega arith)).0) ((offset (v.count - i) valid (omega arith)).0)
        (omega
          (arith, valid.sized, mul_le (i + 1 + (v.count - i)) v.capacity v.elem_size (omega arith)))
        (omega
          (arith, valid.sized, mul_le (i + (v.count - i)) v.capacity v.elem_size (omega arith))))

  in_buffer : (k : ℕ) → k < v.capacity → k * v.elem_size + v.elem_size ≤ length v.data'
  in_buffer k h = omega (arith, valid.sized, mul_lt k v.capacity v.elem_size h)

  gap_width : length (gap_data v i) ≡ length v.data'
  unfolding gap_data
  gap_width = elim (dec_lt i v.count) [ yes h ↦ (gap-Copied h).width | no h ↦ ground arith ]

  gap_before :
      (k : ℕ) → k < i → elem_at v.elem_size (gap_data v i) k ≡ elem_at v.elem_size v.data' k
  unfolding gap_data
  gap_before k p = elim (dec_lt i v.count) [
    | yes h ↦ (gap-Copied h).outside k (in_buffer k (omega arith)) (inl (omega arith))
    | no h ↦ ground arith
  ]

  gap_after :
      (k : ℕ)
      → i ≤ k
      → k < v.count
      → elem_at v.elem_size (gap_data v i) (k + 1) ≡ elem_at v.elem_size v.data' k
  gap_after k p q =
      let a : i + 1 + (k - i) ≡ k + 1 = omega arith in
      let b : i + (k - i) ≡ k = omega arith in
      rw (a, b) at ((gap-Copied (omega arith)).inside (k - i) (omega arith))

  opened : Vector
  opened = record v { data' = gap_data v i }

  opened-IsValid : IsValid opened
  unfolding opened
  opened-IsValid = record {
    sized = gap_width ∙ valid.sized;
    fits = valid.fits;
    nonempty = valid.nonempty;
    bounded = valid.bounded;
  }

  pub insert_elem-IsValid : IsValid (insert_elem v i x)
  unfolding insert_elem opened
  insert_elem-IsValid =
      let n = next v.count room in
      record {
        sized =
            (store-Copied opened-IsValid i x (omega arith) whole).width ∙ gap_width ∙ valid.sized;
        fits = omega (arith, n);
        nonempty = valid.nonempty;
        bounded = valid.bounded;
      }

  pub insert_elem_lem : contents (insert_elem v i x) ≡ insert_at i x (contents v)
  unfolding insert_elem opened
  insert_elem_lem =
      insert_at_unique v (insert_elem v i x) i x inside (next v.count room)
        (λ k p.
          store_apart opened-IsValid i x (omega arith) whole k (omega arith) (omega arith)
          ∙ gap_before k p)
        (store_here opened-IsValid i x (omega arith) whole)
        (λ k p q.
          store_apart opened-IsValid i x (omega arith) whole (k + 1) (omega arith) (omega arith)
          ∙ gap_after k p q)

-- For a vector whose buffer, once grown, would be smaller than 2^64 bytes: `vector_insert` of an
-- element of the vector's size within the count puts the element there and keeps the others in order;
-- it fails, with the vector unchanged, if the position is past the count, or if the vector is full and
-- the request for the larger buffer is refused.
pub insert_lem :
    {v : Vector} (i : ℕ) (x : Bytes) (h : Heap)
    → IsValid v
    → CanGrow v
    → length x ≡ v.elem_size
    → let (s, w, _) = insert (some v) i (some x) h in
      ((s ≡ ok) × (i ≤ v.count) × Holds w (insert_at i x (contents v)))
      ⊎ ((s ≡ fail) × ((v.count < i) ⊎ (v.count ≡ v.capacity × IsRefused v h)) × (w ≡ some v))
unfolding insert
insert_lem {v} i x h valid can whole = elim (Bool-cases (ltb v.count i)) [
  | inl past ↦ rw past (inr (refl, inl (ltb→lt v.count i past), refl))
  | inr within ↦
      let p : i ≤ v.count = ground arith in
      elim (make_room_lem h valid can) [
        | inr (failed, same, full) ↦
            rw (within, failed, insert)
              (inr (refl, inr (full, make_room-IsRefused h valid can failed), ap some same))
        | inl (done, kept, room) ↦
            let w = (make_room v h).1 in
            let p' : i ≤ w.count = omega (arith, kept.count) in
            let room' : w.count < w.capacity = omega (arith, kept.count) in
            let whole' : length x ≡ w.elem_size = whole ∙ sym kept.elem_size in
            rw (within, done, insert)
              (inl (
                refl,
                p,
                (
                  insert_elem w i x,
                  refl,
                  insert_elem-IsValid kept.valid i x p' room' whole',
                  insert_elem_lem kept.valid i x p' room' whole' ∙ ap (insert_at i x) kept.same,
                ),
              ))
      ]
]

insert_at-length : (x : Bytes) (xs : List Bytes) → insert_at (length xs) x xs ≡ xs ++ (x ∷ [])
insert_at-length x [] = refl
insert_at-length x (y ∷ ys) = ap (λ l. y ∷ l) (insert_at-length x ys)

append_elem-insert_elem : (v : Vector) (x : Bytes) → append_elem v x ≡ insert_elem v v.count x
unfolding append_elem insert_elem gap_data
append_elem-insert_elem v x = ground arith

-- For a vector whose buffer, once grown, would be smaller than 2^64 bytes: `vector_push` of an element
-- of the vector's size puts it behind the others; it fails, with the vector unchanged, only if the
-- vector is full and the request for the larger buffer is refused.
pub push_lem :
    {v : Vector} (x : Bytes) (h : Heap)
    → IsValid v
    → CanGrow v
    → length x ≡ v.elem_size
    → let (s, w, _) = push (some v) (some x) h in
      ((s ≡ ok) × Holds w (contents v ++ (x ∷ [])))
      ⊎ ((s ≡ fail) × (v.count ≡ v.capacity) × IsRefused v h × (w ≡ some v))
unfolding push
push_lem {v} x h valid can whole = elim (make_room_lem h valid can) [
  | inr (failed, same, full) ↦
      rw (failed, push) (inr (refl, full, make_room-IsRefused h valid can failed, ap some same))
  | inl (done, kept, room) ↦
      let w = (make_room v h).1 in
      let room' : w.count < w.capacity = omega (arith, kept.count) in
      let whole' : length x ≡ w.elem_size = whole ∙ sym kept.elem_size in
      let n : w.count ≡ length (contents v) = omega (arith, kept.count, length-contents v) in
      rw (done, push)
        (inl (
          refl,
          (
            append_elem w x,
            refl,
            rw (append_elem-insert_elem w x)
                (insert_elem-IsValid kept.valid w.count x (omega arith) room' whole'),
            rw (append_elem-insert_elem w x) (
                insert_elem_lem kept.valid w.count x (omega arith) room' whole'
                ∙ ap (insert_at w.count x) kept.same
                ∙ ap (λ k. insert_at k x (contents v)) n
                ∙ insert_at-length x (contents v)),
          ),
        ))
]
