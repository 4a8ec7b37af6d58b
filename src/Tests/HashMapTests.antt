-- ===== src/Tests/HashMapTests.antt =====
-- The hash table of myos-lib/src/hash.c on concrete tables.
use freelang_independent_ful.Prelude.{
  ℕ, get_or, set, ◌≡◌, ◌≢◌, refl, none, some, [], ◌∷◌, true, false, arith, ◌==◌,
}
use freelang_independent_ful.Heap.{Heap, alloc}
use freelang_independent_ful.Strings.Search.{equal}
use freelang_independent_ful.HashMap.Builtin.{hash_string, cmp_bytes, string_ops, string_ops-lawful}
use freelang_independent_ful.HashMap.{
  KeyOps, Entry, HashMap, occupied, deleted, spinning, blank, matches, action, probe, narrowed,
  find_entry, finish, set_value, set_slot, relieve, put, set_pair, hash_set, hash_get,
  hash_contains, pointee, free_ptr, delete_slot, hash_delete,
}
use freelang_independent_ful.HashMap.Search.{
  FirstStop, IsTable, IsIndexed, round_of, find_entry-ne-spinning,
}
use freelang_independent_ful.HashMap.Write.{HoldsKey}
use freelang_independent_ful.HashMap.Growth.{get-set}
use freelang_independent_ful.HashMap.Delete.{HeldOnce, delete-get}
use freelang_independent_ful.HashMap.Stale.{set-delete-stale}

abbrev generous : Heap
generous = record { grants = λ _ _. true; junk = λ _ _. 0; requests = 9; live = [] }

abbrev numbers : KeyOps ℕ
numbers = record { hash = λ k. k; same = λ a b. a == b }

abbrev held : ℕ → ℕ → Entry ℕ ℕ
held k v = record { key = some (1, k); value = some (2, v); hash = k; slot = occupied }

abbrev gone : Entry ℕ ℕ
gone = record { key = none; value = none; hash = 1; slot = deleted }

-- key 5 stands behind a deleted slot in which its search starts
abbrev worn : HashMap ℕ ℕ
worn = record {
  self = 0;
  block = 1;
  entries = blank ∷ gone ∷ held 5 50 ∷ blank ∷ [];
  count = 1;
  capacity = 4;
  key_size = 4;
  value_size = 4;
}

abbrev single : HashMap ℕ ℕ
single = record worn { entries = held 5 50 ∷ []; capacity = 1 }

worn-IsTable : IsTable worn
worn-IsTable = omega arith

worn-IsIndexed : IsIndexed worn
worn-IsIndexed = omega arith

single-IsIndexed : IsIndexed single
single-IsIndexed = omega arith

program : Unit {0}
unfolding matches action probe narrowed find_entry finish set_value set_slot relieve put set_pair
    hash_set hash_get hash_contains pointee free_ptr delete_slot hash_delete alloc
program = tt

get_before : hash_get numbers (some worn) (some 5) ≡ some 50
unfolding program
get_before = refl

find_entry-ne-spinning_example : find_entry numbers worn 5 5 true ≢ spinning
find_entry-ne-spinning_example = find_entry-ne-spinning numbers 5 5 true worn-IsTable

get-set_example :
    let o = (hash_set numbers (some worn) (some 5) (some 51) generous).1 in
    hash_get numbers o (some 5) ≡ some 51
    × (m' : HashMap ℕ ℕ) × (o ≡ some m')
    × (i : ℕ) × HoldsKey numbers m' i 5
    × pointee (get_or m'.entries i blank).value ≡ some 51
unfolding program
get-set_example = get-set numbers worn 5 51 generous worn-IsIndexed (omega arith) refl refl

single-HeldOnce : HeldOnce numbers single 5
single-HeldOnce i k p q _ _ = omega arith

delete-get_example :
    let (_, out, o, _) = hash_delete numbers (some single) (some 5) generous in
    (hash_get numbers o (some 5) ≡ none)
    × (hash_contains numbers o (some 5) ≡ false)
    × (i : ℕ) × HoldsKey numbers single i 5
    × out ≡ pointee (get_or single.entries i blank).value
    × (w : Entry ℕ ℕ) × (w.slot ≡ deleted)
    × (m' : HashMap ℕ ℕ) × (o ≡ some m')
    × m'.entries ≡ set single.entries i w
    × m'.capacity ≡ 1
unfolding program
delete-get_example = delete-get numbers single 5 generous single-IsIndexed single-HeldOnce refl

worn-FirstStop : FirstStop (round_of numbers worn false 5 5) 1
unfolding program
worn-FirstStop = record { stops = refl; passed = λ m h. let z : m ≡ 0 = omega arith in rw z refl }

set-delete-stale_example :
    let m' = (hash_set numbers (some worn) (some 5) (some 51) generous).1 in
    let m'' = (hash_delete numbers m' (some 5) generous).2 in
    (hash_get numbers m'' (some 5) ≡ hash_get numbers (some worn) (some 5))
    × (hash_contains numbers m'' (some 5) ≡ true)
unfolding program
set-delete-stale_example =
    set-delete-stale numbers worn 5 51 0 1 generous generous worn-IsIndexed refl (omega arith)
      (omega arith) (omega arith) refl worn-FirstStop refl

-- "a" and "b"
string_ops-lawful_example :
    string_ops.same (some (97 ∷ [])) (some (97 ∷ [])) ≡ true
    × (string_ops.same (some (97 ∷ [])) (some (98 ∷ [])) ≡ true
        → string_ops.hash (some (97 ∷ [])) ≡ string_ops.hash (some (98 ∷ [])))
string_ops-lawful_example = string_ops-lawful (some (97 ∷ [])) (some (98 ∷ []))

hash_string_run : hash_string (some (97 ∷ [])) ≡ 177670
unfolding hash_string
hash_string_run = refl

-- keys that differ behind a 0 compare equal as bytes
cmp_bytes_run : cmp_bytes (1 ∷ 0 ∷ 5 ∷ []) (1 ∷ 0 ∷ 6 ∷ []) ≡ equal
unfolding cmp_bytes
cmp_bytes_run = refl
