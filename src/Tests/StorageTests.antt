-- ===== src/Tests/StorageTests.antt =====
-- The server's store, c-server/src/storage.c, on concrete items.
use freelang_independent_ful.Prelude.{
  ℕ, ◌+◌, ◌≤◌, ◌≡◌, ◌⊎◌, true, false, none, some, [], ◌∷◌, refl, arith, if◌then◌else◌, length,
  replicate, take,
}
use freelang_independent_ful.Status.{ok, fail}
use freelang_independent_ful.Storage.{
  Text, StorageItem, Storage, same_text, fit, find_item, storage_set, storage_get, storage_delete,
  value_at, drop_last, replace_item,
}
use freelang_independent_ful.Storage.Laws.{lookup, IsRoomy, get-storage_set}
use freelang_independent_ful.Storage.LongKeys.{Short, set_long}
use freelang_independent_ful.Storage.Gap.{Distinct}
use freelang_independent_ful.Storage.Delete.{get-storage_delete}

abbrev item_of : Text → Text → StorageItem
item_of key value = record { key = key; value = value; created_at = 1; updated_at = 1 }

abbrev two_items : Storage
two_items = record {
  items = item_of (97 ∷ []) (49 ∷ []) ∷ item_of (98 ∷ []) (50 ∷ []) ∷ [];
  capacity = 10;
}

deleted_first : storage_get (storage_delete two_items (97 ∷ [])).1 (98 ∷ []) 64 ≡ some (50 ∷ [])
unfolding storage_delete storage_get find_item same_text drop_last replace_item value_at fit
deleted_first = refl

two_items-IsRoomy : IsRoomy two_items
unfolding IsRoomy
two_items-IsRoomy = (omega arith, omega arith)

get-storage_set_example :
    let (status, s') = storage_set false 5 5 two_items (97 ∷ []) (51 ∷ []) in
    IsRoomy s'
    × ((status ≡ ok
          × storage_get s' (97 ∷ []) 64 ≡ (
              if same_text (97 ∷ []) (97 ∷ [])
              then some (take 63 (take 511 (51 ∷ [])))
              else storage_get two_items (97 ∷ []) 64))
        ⊎ (false ≡ false × 10 ≤ length two_items.items × status ≡ fail × s' ≡ two_items))
get-storage_set_example =
    get-storage_set false 5 5 two_items (97 ∷ []) (51 ∷ []) (97 ∷ []) 64 two_items-IsRoomy
      (omega arith) (omega arith) (omega arith) (omega arith)

two_items-Distinct : Distinct two_items.items
unfolding Distinct lookup same_text
two_items-Distinct = (refl, (refl, tt))

get-storage_delete_example :
    let (status, s') = storage_delete two_items (97 ∷ []) in
    ((status ≡ ok)
      × length s'.items + 1 ≡ 2
      × Distinct s'.items
      × ((other : Text) (size : ℕ)
          → storage_get s' other size
            ≡ (if same_text (97 ∷ []) other then none else storage_get two_items other size)))
    ⊎ (status ≡ fail × s' ≡ two_items × ((size : ℕ) → storage_get two_items (97 ∷ []) size ≡ none))
get-storage_delete_example = get-storage_delete two_items (97 ∷ []) two_items-Distinct

two_items-Short : Short two_items.items
unfolding Short
two_items-Short = (omega arith, (omega arith, tt))

abbrev long_key : Text
long_key = replicate 128 97

set_long_example :
    let (status, s') = storage_set true 5 5 two_items long_key (51 ∷ []) in
    status ≡ ok × storage_get s' long_key 64 ≡ none × length s'.items ≡ 3 × Short s'.items
set_long_example = set_long 5 5 two_items long_key (51 ∷ []) 64 two_items-Short (omega arith)
