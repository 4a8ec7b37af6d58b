-- ===== src/Vector.antt =====
-- The dynamic array of myos-lib/src/vector.c. A `Vector *` that may be NULL is an option; so is an
-- element argument. `data` is the buffer that `v->data` points to, `block` and `self` are the
-- heap's names of that buffer and of the structure. A function returns its status, the structure
-- that the pointer then points to, and the heap.
pub mod Valid
pub mod Contents
pub mod Insert
pub mod Remove
pub mod Buffer
use freelang_independent_ful.Prelude.{
  ℕ, zero, suc, ◌+◌, ◌-◌, ◌*◌, ◌<◌, ◌≤◌, Bool, true, false, ◌||◌, Option, none, some, List, [], ◌∷◌,
  ltb, leb, ◌==◌, if◌then◌else◌, take, drop,
}
use freelang_independent_ful.Memory.{as_int, Bytes, add_size, mul_size, my_memcpy, my_memmove}
use freelang_independent_ful.Status.{Status, ok, fail}
use freelang_independent_ful.Heap.{Heap, alloc, fresh, free}

pub record Vector : Type 0 where
  pub self : ℕ
  pub block : ℕ
  pub data' : Bytes
  pub count : ℕ
  pub capacity : ℕ
  pub elem_size : ℕ

abbrev pub sizeof_vector : ℕ
sizeof_vector = 32

-- `max(max(capacity * 2, 16), min_capacity)`, the doubling in size_t
unfoldable pub grown_capacity : ℕ → ℕ → ℕ
grown_capacity capacity min_capacity =
    let doubled = mul_size capacity 2 in
    let base = if ltb doubled 16 then 16 else doubled in
    if ltb base min_capacity then min_capacity else base

-- the elements in use, copied to a new buffer
unfoldable pub copied : Vector → Bytes → Bytes
copied v new_data = my_memcpy new_data 0 v.data' 0 (mul_size v.count v.elem_size)

-- `vector_grow` after the test of the capacity
unfoldable pub regrow : Vector → ℕ → Heap → Status × Vector × Heap
regrow v new_capacity h =
    let size = mul_size new_capacity v.elem_size in
    let (got, h') = alloc size h in
    elim got [
      | none ↦ (fail, v, h')
      | some p ↦
          let new_data = fresh h p size in
          if ltb 0 v.count
          then (
            ok,
            record v { block = p; data' = copied v new_data; capacity = new_capacity },
            free v.block h',
          )
          else (ok, record v { block = p; data' = new_data; capacity = new_capacity }, h')
    ]

-- `vector_grow`
unfoldable pub grow : Vector → ℕ → Heap → Status × Vector × Heap
grow v min_capacity h =
    if leb min_capacity v.capacity
    then (ok, v, h)
    else regrow v (grown_capacity v.capacity min_capacity) h

-- `vector_new`
unfoldable pub new : ℕ → Heap → Option Vector × Heap
new elem_size h =
    if elem_size == 0
    then (none, h)
    else let (self, h₁) = alloc sizeof_vector h in
      elim self [
        | none ↦ (none, h₁)
        | some s ↦
            let size = mul_size 16 elem_size in
            let (block, h₂) = alloc size h₁ in
            elim block [
              | none ↦ (none, free s h₂)
              | some p ↦ (
                some (record {
                  self = s;
                  block = p;
                  data' = fresh h₁ p size;
                  count = 0;
                  capacity = 16;
                  elem_size = elem_size;
                }),
                h₂,
              )
            ]
      ]

-- `vector_free`
unfoldable pub release : Option Vector → Heap → Heap
release none h = h
release (some v) h = free v.self (free v.block h)

-- the capacity test of `vector_push` and `vector_insert`
unfoldable pub make_room : Vector → Heap → Status × Vector × Heap
make_room v h = if leb v.capacity v.count then grow v (add_size v.count 1) h else (ok, v, h)

-- `my_memcpy(data + index * elem_size, elem, elem_size)`
unfoldable pub store : Vector → ℕ → Bytes → Bytes
store v index elem = my_memcpy v.data' (mul_size index v.elem_size) elem 0 v.elem_size

-- `my_memcpy(out, data + index * elem_size, elem_size)`, as the bytes that `out` receives
unfoldable pub load : Vector → ℕ → Bytes
load v index = take v.elem_size (drop (mul_size index v.elem_size) v.data')

-- `vector_push` once there is room
unfoldable pub append_elem : Vector → Bytes → Vector
append_elem v elem = record v { data' = store v v.count elem; count = add_size v.count 1 }

-- `vector_push`
unfoldable pub push : Option Vector → Option Bytes → Heap → Status × Option Vector × Heap
push none elem h = (fail, none, h)
push (some v) none h = (fail, some v, h)
push (some v) (some elem) h =
    let (s, v', h') = make_room v h in
    elim s [ ok ↦ (ok, some (append_elem v' elem), h') | fail ↦ (fail, some v', h') ]

-- `vector_pop`: what `out` receives, if anything, and the vector. `count--` runs at `count ≢ 0`.
unfoldable pub pop : Option Vector → Option Bytes × Option Vector
pop none = (none, none)
pop (some v) =
    if v.count == 0
    then (none, some v)
    else let v' = record v { count = v.count - 1 } in (some (load v' v'.count), some v')

-- `vector_at`, as the bytes that the pointer points to
unfoldable pub at : Option Vector → ℕ → Option Bytes
at none index = none
at (some v) index = if leb v.count index then none else some (load v index)

-- `vector_set`
unfoldable pub set_elem : Option Vector → ℕ → Option Bytes → Status × Option Vector
set_elem none index elem = (fail, none)
set_elem (some v) index none = (fail, some v)
set_elem (some v) index (some elem) =
    if leb v.count index
    then (fail, some v)
    else (ok, some (record v { data' = store v index elem }))

-- `vector_insert` once there is room: the move, the copy, the count
unfoldable pub gap_data : Vector → ℕ → Bytes
gap_data v index =
    if ltb index v.count
    then my_memmove v.data' (mul_size (add_size index 1) v.elem_size) (mul_size index v.elem_size)
        (mul_size (v.count - index) v.elem_size)
    else v.data'

unfoldable pub insert_elem : Vector → ℕ → Bytes → Vector
insert_elem v index elem =
    let w = record v { data' = gap_data v index } in
    record w { data' = store w index elem; count = add_size w.count 1 }

-- `vector_insert`
unfoldable pub insert : Option Vector → ℕ → Option Bytes → Heap → Status × Option Vector × Heap
insert none index elem h = (fail, none, h)
insert (some v) index none h = (fail, some v, h)
insert (some v) index (some elem) h =
    if ltb v.count index
    then (fail, some v, h)
    else let (s, v', h') = make_room v h in
      elim s [ ok ↦ (ok, some (insert_elem v' index elem), h') | fail ↦ (fail, some v', h') ]

-- the move of `vector_remove`
unfoldable pub closed_data : Vector → ℕ → Bytes
closed_data v index =
    if ltb index (v.count - 1)
    then my_memmove v.data' (mul_size index v.elem_size) (mul_size (add_size index 1) v.elem_size)
        (mul_size (v.count - index - 1) v.elem_size)
    else v.data'

unfoldable pub remove_elem : Vector → ℕ → Vector
remove_elem v index = record v { data' = closed_data v index; count = v.count - 1 }

-- `vector_remove`: the bytes that go to `out`, if it is not NULL, are those of the element
unfoldable pub remove : Option Vector → ℕ → Status × Option Bytes × Option Vector
remove none index = (fail, none, none)
remove (some v) index =
    if leb v.count index
    then (fail, none, some v)
    else (ok, some (load v index), some (remove_elem v index))

-- `vector_clear`
unfoldable pub clear : Option Vector → Option Vector
clear none = none
clear (some v) = some (record v { count = 0 })

-- `vector_size`, `vector_capacity`, `vector_is_empty`, `vector_get_elem_size`
unfoldable pub size : Option Vector → ℕ
size none = 0
size (some v) = v.count

unfoldable pub capacity_of : Option Vector → ℕ
capacity_of none = 0
capacity_of (some v) = v.capacity

unfoldable pub is_empty : Option Vector → Bool
is_empty none = true
is_empty (some v) = v.count == 0

unfoldable pub get_elem_size : Option Vector → ℕ
get_elem_size none = 0
get_elem_size (some v) = v.elem_size

-- `vector_reserve`
unfoldable pub reserve : Option Vector → ℕ → Heap → Status × Option Vector × Heap
reserve none capacity h = (fail, none, h)
reserve (some v) capacity h = let (s, v', h') = grow v capacity h in (s, some v', h')

-- `vector_shrink_to_fit`
unfoldable pub shrink_to_fit : Option Vector → Heap → Status × Option Vector × Heap
shrink_to_fit none h = (fail, none, h)
shrink_to_fit (some v) h =
    if v.count == 0
    then (fail, some v, h)
    else if v.capacity == v.count
    then (ok, some v, h)
    else let size = mul_size v.count v.elem_size in
      let (got, h') = alloc size h in
      elim got [
        | none ↦ (fail, some v, h')
        | some p ↦ (
          ok,
          some (record v { block = p; data' = copied v (fresh h p size); capacity = v.count }),
          free v.block h',
        )
      ]

-- the loop of `vector_find`: `n` rounds left, from index `i` on
find_from : (Bytes → Bytes → Bool) → Vector → Bytes → ℕ → ℕ → Option ℕ
find_from same v elem zero i = none
find_from same v elem (suc n) i =
    if same (load v i) elem then some i else find_from same v elem n (i + 1)

-- `vector_find`, with `same` for `cmp(…) == 0`
unfoldable pub find : Option Vector → Option Bytes → (Bytes → Bytes → Bool) → Option ℕ
unfolding find_from as_int
find none elem same = none
find (some v) none same = none
find (some v) (some elem) same = as_int (find_from same v elem v.count 0)
