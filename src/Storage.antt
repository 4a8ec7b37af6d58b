-- ===== src/Storage.antt =====
-- The key-value store of the server, c-server/src/storage.c. A C string is the list of its
-- characters, none of them 0, and the array is the list of its `count` items: no cell behind them is
-- ever read. The clock and the answer of `malloc` are arguments.
pub mod Laws
pub mod LongKeys
pub mod Gap
pub mod Delete
use freelang_independent_ful.Prelude.{
  ℕ, zero, suc, ◌+◌, ◌-◌, ◌*◌, ◌%◌, ◌^◌, ◌<◌, Bool, true, false, ◌&&◌, Option, none, some, List, [],
  ◌∷◌, ◌++◌, ltb, leb, ◌==◌, if◌then◌else◌, get_or, set, take, length,
}
use freelang_independent_ful.Memory.{sub_size}
use freelang_independent_ful.Status.{Status, ok, fail}

abbrev pub Text : Type 0
Text = List ℕ

pub record StorageItem : Type 0 where
  pub key : Text
  pub value : Text
  pub created_at : ℕ
  pub updated_at : ℕ

pub record Storage : Type 0 where
  pub items : List StorageItem
  pub capacity : ℕ

abbrev pub initial_capacity : ℕ
initial_capacity = 10

-- the sizes of the two text fields
abbrev pub key_size : ℕ
key_size = 128

abbrev pub value_size : ℕ
value_size = 512

-- `strcmp(a, b) == 0`
unfoldable pub same_text : Text → Text → Bool
same_text [] [] = true
same_text [] (c ∷ b) = false
same_text (c ∷ a) [] = false
same_text (c ∷ a) (d ∷ b) = if c == d then same_text a b else false

-- `strncpy(field, text, size - 1); field[size - 1] = '\0'` for a field of `size` bytes, the
-- subtraction in size_t
unfoldable pub fit : ℕ → Text → Text
fit size text = take (sub_size size 1) text

-- the two allocations of `storage_new`
unfoldable pub storage_new : Bool → Bool → Option Storage
storage_new got_storage got_items =
    if got_storage && got_items
    then some (record { items = []; capacity = initial_capacity })
    else none

-- the search that set, get and delete begin with: the first item with the key
unfoldable pub find_item : List StorageItem → Text → ℕ → Option ℕ
unfolding same_text
find_item [] key i = none
find_item (item ∷ items) key i =
    let rest = find_item items key (i + 1) in if same_text item.key key then some i else rest

-- the doubling of an int, as the 32 bits that it leaves
unfoldable pub storage_resize : Bool → Storage → Status × Storage
storage_resize granted s =
    if granted then (ok, record s { capacity = (s.capacity * 2) % 2 ^ 32 }) else (fail, s)

unfoldable pub make_room : Bool → Storage → Status × Storage
unfolding storage_resize
make_room granted s = if leb s.capacity (length s.items) then storage_resize granted s else (ok, s)

unfoldable pub new_item : Text → Text → ℕ → ℕ → StorageItem
unfolding fit
new_item key value created updated = record {
  key = fit key_size key;
  value = fit value_size value;
  created_at = created;
  updated_at = updated;
}

unfoldable pub update_item : List StorageItem → ℕ → Text → ℕ → List StorageItem
unfolding fit
update_item [] i value updated = []
update_item (item ∷ items) zero value updated =
    record item { value = fit value_size value; updated_at = updated } ∷ items
update_item (item ∷ items) (suc i) value updated = item ∷ update_item items i value updated

unfoldable pub append_item : Storage → Text → Text → ℕ → ℕ → Status × Storage
unfolding new_item
append_item s key value created updated =
    (ok, record s { items = s.items ++ (new_item key value created updated ∷ []) })

unfoldable pub storage_set : Bool → ℕ → ℕ → Storage → Text → Text → Status × Storage
unfolding find_item make_room update_item append_item
storage_set granted created updated s key value = elim (find_item s.items key 0) [
  | some i ↦ (ok, record s { items = update_item s.items i value updated })
  | none ↦
      let (ready, s') = make_room granted s in
      elim ready [ ok ↦ append_item s' key value created updated | fail ↦ (fail, s') ]
]

-- the value of item `i`
unfoldable pub value_at : List StorageItem → ℕ → Text
value_at [] i = []
value_at (item ∷ items) zero = item.value
value_at (item ∷ items) (suc i) = value_at items i

-- the characters that are written to a buffer of `out_size` bytes
unfoldable pub storage_get : Storage → Text → ℕ → Option Text
unfolding find_item value_at fit
storage_get s key out_size = elim (find_item s.items key 0) [
  | some i ↦ some (fit out_size (value_at s.items i))
  | none ↦ none
]

unfoldable pub drop_last : List StorageItem → List StorageItem
drop_last [] = []
drop_last (item ∷ []) = []
drop_last (item ∷ next ∷ items) = item ∷ drop_last (next ∷ items)

-- `items[i] = items[count - 1]`
unfoldable pub replace_item : List StorageItem → ℕ → List StorageItem → List StorageItem
replace_item items i [] = items
replace_item items i (item ∷ []) = set items i item
replace_item items i (item ∷ next ∷ rest) = replace_item items i (next ∷ rest)

unfoldable pub storage_delete : Storage → Text → Status × Storage
unfolding find_item drop_last replace_item
storage_delete s key = elim (find_item s.items key 0) [
  | some i ↦ (
    ok,
    record s {
      items =
          drop_last
            (if ltb i (length s.items - 1) then replace_item s.items i s.items else s.items);
    },
  )
  | none ↦ (fail, s)
]
