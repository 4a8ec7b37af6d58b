-- ===== src/ObjectPool.antt =====
-- The fixed-capacity object pool of myos-lib/src/object_pool.c: a pointer and an in-use byte for
-- each slot. NULL is `none`; `has_out` says whether the caller passes a place for the id.
pub mod Slots
pub mod Laws
use freelang_independent_ful.Prelude.{
  ℕ, zero, suc, ◌+◌, ◌-◌, ◌*◌, ◌/◌, Bool, true, false, ◌&&◌, ◌||◌, not, Option, none, some, List,
  [], ◌∷◌, ltb, leb, ◌==◌, if◌then◌else◌, get_or, set, replicate, map,
}
use freelang_independent_ful.Memory.{mul_size, add_size, sub_size}
use freelang_independent_ful.Status.{Status, ok, fail}
use freelang_independent_ful.Heap.{Heap, alloc, fresh, free}

pub record ObjectPool : Type 0 where
  pub self : ℕ
  pub objects_block : ℕ
  pub allocated_block : ℕ
  pub objects : List (Option ℕ)
  pub allocated : List ℕ
  pub capacity : ℕ
  pub count : ℕ

abbrev pub sizeof_pool : ℕ
sizeof_pool = 32

-- `if (p) mm_free(p)`
unfoldable pub free_block : Option ℕ → Heap → Heap
free_block none h = h
free_block (some p) h = free p h

-- the two arrays are there or not; `s` is the block of the pool itself
unfoldable pub assemble : ℕ → ℕ → Option ℕ → Option ℕ → Heap → Option ObjectPool × Heap
unfolding free_block
assemble capacity s (some o) (some a) h = (
  some (record {
    self = s;
    objects_block = o;
    allocated_block = a;
    objects = map some (fresh h o (mul_size 8 capacity / 8));
    allocated = replicate capacity 0;
    capacity = capacity;
    count = 0;
  }),
  h,
)
assemble capacity s (some o) none h = (none, free s (free o h))
assemble capacity s none allocated h = (none, free s (free_block allocated h))

unfoldable pub pool_new : ℕ → Heap → Option ObjectPool × Heap
unfolding assemble
pool_new capacity h =
    if capacity == 0
    then (none, h)
    else let (self, h₁) = alloc sizeof_pool h in
      elim self [
        | none ↦ (none, h₁)
        | some s ↦
            let (objects, h₂) = alloc (mul_size 8 capacity) h₁ in
            let (allocated, h₃) = alloc capacity h₂ in assemble capacity s objects allocated h₃
      ]

-- the search loop of `pool_allocate`, with `n` rounds left from slot `i`
unfoldable pub first_free : ℕ → ℕ → List ℕ → Option ℕ
first_free zero i allocated = none
first_free (suc n) i allocated =
    let rest = first_free n (i + 1) allocated in if get_or allocated i 0 == 0 then some i else rest

unfoldable pub take_slot : ObjectPool → Option ℕ → ℕ → ObjectPool
take_slot p obj i = record p {
  objects = set p.objects i obj;
  allocated = set p.allocated i 1;
  count = add_size p.count 1;
}

-- the status, the id that is written out, and the pool
unfoldable pub pool_allocate : ObjectPool → Option ℕ → Bool → Status × Option ℕ × ObjectPool
unfolding first_free take_slot
pool_allocate p none has_out = (fail, none, p)
pool_allocate p (some obj) false = (fail, none, p)
pool_allocate p (some obj) true = elim (first_free p.capacity 0 p.allocated) [
  | none ↦ (fail, none, p)
  | some i ↦ (ok, some i, take_slot p (some obj) i)
]

unfoldable pub pool_get : ObjectPool → ℕ → Option ℕ
pool_get p id =
    if leb p.capacity id
    then none
    else if get_or p.allocated id 0 == 0
    then none
    else get_or p.objects id none

unfoldable pub clear_slot : ObjectPool → ℕ → ObjectPool
clear_slot p id = record p {
  objects = set p.objects id none;
  allocated = set p.allocated id 0;
  count = sub_size p.count 1;
}

unfoldable pub pool_release : ObjectPool → ℕ → Status × ObjectPool
unfolding clear_slot
pool_release p id =
    if leb p.capacity id
    then (fail, p)
    else if get_or p.allocated id 0 == 0
    then (fail, p)
    else (ok, clear_slot p id)

-- `none` is -1
unfoldable pub pool_is_allocated : ObjectPool → ℕ → Option Bool
pool_is_allocated p id =
    if leb p.capacity id then none else some (not (get_or p.allocated id 0 == 0))

unfoldable pub pool_count : ObjectPool → ℕ
pool_count p = p.count

unfoldable pub pool_free : ObjectPool → Heap → Heap
pool_free p h = free p.self (free p.allocated_block (free p.objects_block h))
