-- ===== src/Tests/ObjectPoolTests.antt =====
-- The object pool of myos-lib/src/object_pool.c on concrete pools.
use freelang_independent_ful.Prelude.{
  ℕ, ◌+◌, ◌<◌, ◌≡◌, ◌≢◌, ◌⊎◌, true, false, none, some, [], ◌∷◌, refl, arith, ◌==◌, if◌then◌else◌,
}
use freelang_independent_ful.Status.{ok, fail}
use freelang_independent_ful.Heap.{Heap}
use freelang_independent_ful.ObjectPool.{
  ObjectPool, pool_allocate, pool_get, pool_release, pool_is_allocated, pool_count, first_free,
  take_slot, clear_slot,
}
use freelang_independent_ful.ObjectPool.Slots.{marked, bit}
use freelang_independent_ful.ObjectPool.Laws.{IsValid, allocate_lem, release_lem}

abbrev roomy : Heap
roomy = record { grants = λ _ _. true; junk = λ _ _. 0; requests = 0; live = [] }

-- slots 0 and 2 are in use
abbrev mixed : ObjectPool
mixed = record {
  self = 0;
  objects_block = 1;
  allocated_block = 2;
  objects = some 70 ∷ some 99 ∷ some 72 ∷ [];
  allocated = 1 ∷ 0 ∷ 1 ∷ [];
  capacity = 3;
  count = 2;
}

mixed-IsValid : IsValid mixed
unfolding IsValid marked bit
mixed-IsValid = (refl, refl, omega arith, refl)

second_slot : (pool_allocate mixed (some 50) true).1 ≡ some 1
unfolding pool_allocate first_free
second_slot = refl

allocate_lem_example :
    ((i : ℕ) × pool_allocate mixed (some 50) true ≡ (ok, some i, take_slot mixed (some 50) i)
      × pool_is_allocated mixed i ≡ some false
      × ((j : ℕ) → j < i → pool_is_allocated mixed j ≡ some true)
      × IsValid (take_slot mixed (some 50) i)
      × pool_count (take_slot mixed (some 50) i) ≡ pool_count mixed + 1
      × ((j : ℕ)
          → pool_get (take_slot mixed (some 50) i) j
            ≡ (if i == j then some 50 else pool_get mixed j)))
    ⊎ pool_allocate mixed (some 50) true ≡ (fail, none, mixed)
      × pool_count mixed ≡ 3
      × ((j : ℕ) → j < 3 → pool_is_allocated mixed j ≡ some true)
allocate_lem_example = allocate_lem mixed 50 mixed-IsValid

release_lem_example :
    (pool_is_allocated mixed 2 ≡ some true
      × pool_release mixed 2 ≡ (ok, clear_slot mixed 2)
      × IsValid (clear_slot mixed 2)
      × pool_count (clear_slot mixed 2) + 1 ≡ pool_count mixed
      × ((j : ℕ) → pool_get (clear_slot mixed 2) j ≡ (if 2 == j then none else pool_get mixed j)))
    ⊎ (pool_is_allocated mixed 2 ≢ some true) × pool_release mixed 2 ≡ (fail, mixed)
release_lem_example = release_lem mixed 2 mixed-IsValid
