-- ===== src/Storage/LongKeys.antt =====
-- Keys that do not fit their field: they are stored cut short and searched for whole.
use freelang_independent_ful.Prelude.{
  ℕ, ◌+◌, ◌≤◌, ◌<◌, ◌≡◌, ◌≢◌, refl, sym, ap, ◌∙◌, arith, true, false, none, some, List, [], ◌∷◌,
  ◌++◌, length, length-append, length-take, inl, inr, Bool-cases,
}
use freelang_independent_ful.Status.{ok}
use freelang_independent_ful.Storage.{
  Text, StorageItem, Storage, same_text, fit, new_item, append_item, storage_set, value_at,
  storage_get, key_size,
}
use freelang_independent_ful.Storage.Laws.{
  lookup, shown, same_text-eq, find_item-Found, Found, get-lookup, make_room-cases,
}

-- every stored key ends inside its field
unfoldable pub Short : List StorageItem → Type 0
Short [] = Unit
Short (item ∷ items) = length item.key < key_size × Short items

long_ne : (a b : Text) → length a < key_size → key_size ≤ length b → same_text a b ≡ false
long_ne a b h k = elim (Bool-cases (same_text a b)) [
  | inl e ↦ let l : length a ≡ length b = ap length (same_text-eq a b e) in absurd (omega arith)
  | inr e ↦ e
]

long_absent :
    (items : List StorageItem) (key : Text)
    → Short items
    → key_size ≤ length key
    → lookup items key ≡ none
unfolding Short lookup
long_absent [] key h k = refl
long_absent (item ∷ items) key (h, hs) k =
    rw (long_ne item.key key h k) (long_absent items key hs k)

Short-append :
    (items : List StorageItem) (item : StorageItem)
    → Short items
    → length item.key < key_size
    → Short (items ++ (item ∷ []))
unfolding Short
Short-append [] item h k = (k, tt)
Short-append (x ∷ items) item (h, hs) k = (h, Short-append items item hs k)

new_item-Short :
    (key value : Text) (created updated : ℕ)
    → length (new_item key value created updated).key < key_size
unfolding new_item fit
new_item-Short key value created updated = omega (arith, length-take 127 key)

present :
    (items : List StorageItem) (key : Text) (i : ℕ) → Found items key i → lookup items key ≢ none
unfolding Found
present items key i (l, _) e = let z : some (value_at items i) ≡ none = sym l ∙ e in ground arith

appended :
    (created updated : ℕ) (s : Storage) (key value : Text) (size : ℕ)
    → Short s.items
    → key_size ≤ length key
    → let (status, s') = append_item s key value created updated in
      status ≡ ok
      × storage_get s' key size ≡ none
      × length s'.items ≡ length s.items + 1
      × Short s'.items
unfolding append_item shown
appended created updated s key value size h k =
    let short =
      Short-append s.items (new_item key value created updated) h
        (new_item-Short key value created updated) in
    (
      refl,
      get-lookup (append_item s key value created updated).1 key size
          ∙ ap (shown size)
              (long_absent (s.items ++ (new_item key value created updated ∷ [])) key short k),
      length-append s.items (new_item key value created updated ∷ []),
      short,
    )

-- When every stored key ends inside its field and memory is granted, `storage_set` of a key of 128
-- characters or more reports success and adds an item, each time it is called, for the stored keys
-- still end inside their fields; `storage_get` of that key finds nothing.
pub set_long :
    (created updated : ℕ) (s : Storage) (key value : Text) (size : ℕ)
    → Short s.items
    → key_size ≤ length key
    → let (status, s') = storage_set true created updated s key value in
      status ≡ ok
      × storage_get s' key size ≡ none
      × length s'.items ≡ length s.items + 1
      × Short s'.items
unfolding storage_set
set_long created updated s key value size h k = elim (find_item-Found s.items key 0) [
  | inr (i, f, found) ↦ absurd (present s.items key i found (long_absent s.items key h k))
  | inl (f, l) ↦ elim (make_room-cases true s) [
    | inr (refused, _, _) ↦ ground arith
    | inl (capacity, room) ↦
        rw (storage_set, f, ap (λ r. r.0) room, ap (λ r. r.1) room)
          (appended created updated (record s { capacity = capacity }) key value size h k)
  ]
]
