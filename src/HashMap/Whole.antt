-- ===== src/HashMap/Whole.antt =====
-- The functions of myos-lib/src/hash.c that take the table as a whole: clearing, freeing, the
-- queries and the validation.
use freelang_independent_ful.Prelude.{
  ℕ, ◌+◌, ◌/◌, Bool, true, Option, none, some, List, [], ◌∷◌, ◌==◌, if◌then◌else◌,
}
use freelang_independent_ful.Memory.{mul_size}
use freelang_independent_ful.Status.{Status, ok, fail}
use freelang_independent_ful.Heap.{Heap, free}
use freelang_independent_ful.HashMap.{Entry, HashMap, empty, occupied, free_ptr}

module _ {K V : Type 0} where
  -- one round of the loop of `hash_clear`
  unfoldable pub clear_entry : Entry K V → Heap → Entry K V × Heap
  clear_entry e h = elim e.slot [
    | occupied ↦
        (record e { key = none; value = none; slot = empty }, free_ptr e.value (free_ptr e.key h))
    | _ ↦ (record e { slot = empty }, h)
  ]

  unfoldable pub clear_all : List (Entry K V) → Heap → List (Entry K V) × Heap
  clear_all [] h = ([], h)
  clear_all (e ∷ es) h =
      let (e', h') = clear_entry e h in let (es', h'') = clear_all es h' in (e' ∷ es', h'')

  -- `hash_clear`
  unfoldable pub hash_clear : Option (HashMap K V) → Heap → Option (HashMap K V) × Heap
  hash_clear none h = (none, h)
  hash_clear (some m) h =
      let (es, h') = clear_all m.entries h in (some (record m { entries = es; count = 0 }), h')

  -- the loop of `hash_free`
  unfoldable pub release_all : List (Entry K V) → Heap → Heap
  release_all [] h = h
  release_all (e ∷ es) h = elim e.slot [
    | occupied ↦ release_all es (free_ptr e.value (free_ptr e.key h))
    | _ ↦ release_all es h
  ]

  -- `hash_free`
  unfoldable pub hash_free : Option (HashMap K V) → Heap → Heap
  hash_free none h = h
  hash_free (some m) h = free m.self (free m.block (release_all m.entries h))

  -- `hash_size`, `hash_capacity`, `hash_is_empty`, `hash_load_factor`
  unfoldable pub hash_size : Option (HashMap K V) → ℕ
  hash_size none = 0
  hash_size (some m) = m.count

  unfoldable pub hash_capacity : Option (HashMap K V) → ℕ
  hash_capacity none = 0
  hash_capacity (some m) = m.capacity

  unfoldable pub hash_is_empty : Option (HashMap K V) → Bool
  hash_is_empty none = true
  hash_is_empty (some m) = m.count == 0

  -- the cast to `int` is the identity below 2 ^ 31
  unfoldable pub hash_load_factor : Option (HashMap K V) → ℕ
  hash_load_factor none = 0
  hash_load_factor (some m) = if m.capacity == 0 then 0 else mul_size m.count 100 / m.capacity

  -- the loop of `hash_validate`: the number of occupied slots, none if one lacks a key or a value
  unfoldable pub count_valid : List (Entry K V) → ℕ → Option ℕ
  count_valid [] n = some n
  count_valid (e ∷ es) n =
      let here : Option ℕ = elim e.slot [
        | occupied ↦ elim e.key [
          | none ↦ none
          | some _ ↦ elim e.value [ none ↦ none | some _ ↦ some (n + 1) ]
        ]
        | _ ↦ some n
      ] in
      elim here [ none ↦ none | some k ↦ count_valid es k ]

  -- `hash_validate`
  unfoldable pub hash_validate : Option (HashMap K V) → Status
  hash_validate none = fail
  hash_validate (some m) = elim (count_valid m.entries 0) [
    | none ↦ fail
    | some n ↦ if n == m.count then ok else fail
  ]
