-- ===== src/Tests/VectorTests.antt =====
-- The vector of myos-lib/src/vector.c on concrete inputs.
use freelang_independent_ful.Prelude.{
  ◌-◌, ◌*◌, ◌≤◌, ◌<◌, ◌≡◌, refl, ◌⊎◌, none, some, [], ◌∷◌, ◌++◌, true, arith, length, get_elem?,
  replicate,
}
use freelang_independent_ful.Prelude.Positions.{insert_at, remove_at}
use freelang_independent_ful.Heap.{Heap, alloc}
use freelang_independent_ful.Status.{ok, fail}
use freelang_independent_ful.Vector.{
  Vector, grown_capacity, push, pop, at, insert, remove, grow, regrow, reserve,
}
use freelang_independent_ful.Vector.Valid.{IsRefused, IsValid, contents}
use freelang_independent_ful.Vector.Contents.{Holds, at-get_elem?}
use freelang_independent_ful.Vector.Insert.{insert_lem, push_lem}
use freelang_independent_ful.Vector.Remove.{remove_lem, pop_lem}
use freelang_independent_ful.Vector.Buffer.{reserve_overflow, reserve_leaks}

-- every request is granted, and new memory holds the byte 7
abbrev generous : Heap
generous = record { grants = λ _ _. true; junk = λ _ _. 7; requests = 5; live = 4 ∷ 3 ∷ [] }

-- two elements of two bytes, in a buffer for three
abbrev pair : Vector
pair = record {
  self = 3;
  block = 4;
  data' = 1 ∷ 2 ∷ 3 ∷ 4 ∷ 9 ∷ 9 ∷ [];
  count = 2;
  capacity = 3;
  elem_size = 2;
}

abbrev hollow : Vector
hollow = record {
  self = 3;
  block = 4;
  data' = replicate 16 0;
  count = 0;
  capacity = 2;
  elem_size = 8;
}

pair-IsValid : IsValid pair
pair-IsValid = omega arith

hollow-IsValid : IsValid hollow
hollow-IsValid = omega arith

at-get_elem?_example : at (some pair) 1 ≡ get_elem? (contents pair) 1
at-get_elem?_example = at-get_elem? 1 pair-IsValid

insert_lem_example :
    let (s, w, _) = insert (some pair) 0 (some (5 ∷ 6 ∷ [])) generous in
    ((s ≡ ok) × (0 ≤ pair.count) × Holds w (insert_at 0 (5 ∷ 6 ∷ []) (contents pair)))
    ⊎ ((s ≡ fail)
        × ((pair.count < 0) ⊎ (pair.count ≡ pair.capacity × IsRefused pair generous))
        × (w ≡ some pair))
unfolding grown_capacity
insert_lem_example = insert_lem 0 (5 ∷ 6 ∷ []) generous pair-IsValid (omega arith) refl

push_lem_example :
    let (s, w, _) = push (some pair) (some (5 ∷ 6 ∷ [])) generous in
    ((s ≡ ok) × Holds w (contents pair ++ ((5 ∷ 6 ∷ []) ∷ [])))
    ⊎ ((s ≡ fail) × (pair.count ≡ pair.capacity) × IsRefused pair generous × (w ≡ some pair))
unfolding grown_capacity
push_lem_example = push_lem (5 ∷ 6 ∷ []) generous pair-IsValid (omega arith) refl

remove_lem_example :
    let (s, out, w) = remove (some pair) 0 in
    ((s ≡ ok)
      × (0 < pair.count)
      × (out ≡ get_elem? (contents pair) 0)
      × Holds w (remove_at 0 (contents pair)))
    ⊎ ((s ≡ fail) × (pair.count ≤ 0) × (out ≡ none) × (w ≡ some pair))
remove_lem_example = remove_lem 0 pair-IsValid

pop_lem_example :
    let (out, w) = pop (some pair) in
    ((0 < pair.count)
      × (out ≡ get_elem? (contents pair) (pair.count - 1))
      × Holds w (remove_at (pair.count - 1) (contents pair)))
    ⊎ ((pair.count ≡ 0) × (out ≡ none) × (w ≡ some pair))
pop_lem_example = pop_lem pair-IsValid

-- 2 ^ 61 + 1 elements of 8 bytes wrap to a request for 8 bytes
reserve_overflow_example :
    (w : Vector) × ((reserve (some hollow) 0x2000_0000_0000_0001 generous).1 ≡ some w)
    × (length w.data' < w.capacity * w.elem_size)
unfolding grown_capacity reserve grow regrow alloc
reserve_overflow_example =
    reserve_overflow 0x2000_0000_0000_0001 generous hollow-IsValid (omega arith) (omega arith) refl

reserve_leaks_example :
    (w : Vector) × ((reserve (some hollow) 20 generous).1 ≡ some w)
    × (w.block ≡ 5)
    × ((reserve (some hollow) 20 generous).2.live ≡ 5 ∷ 4 ∷ 3 ∷ [])
unfolding grown_capacity reserve grow regrow alloc
reserve_leaks_example = reserve_leaks hollow 20 generous refl (omega arith) refl
