-- ===== src/Storage/Laws.antt =====
-- The store as a map from keys to values: what set and get do to it.
use freelang_independent_ful.Prelude.{
  ℕ, zero, suc, ◌+◌, ◌-◌, ◌*◌, ◌%◌, ◌^◌, ◌≤◌, ◌<◌, ◌≡◌, refl, sym, ap, ap₂, ◌∙◌, arith, Bool, true,
  false, Option, none, some, List, [], ◌∷◌, ◌++◌, leb, ◌==◌, if◌then◌else◌, take, length, ◌⊎◌, inl,
  inr, Bool-cases, Option-cases,
}
use freelang_independent_ful.Memory.{size_mod, sub_size}
use freelang_independent_ful.Status.{ok, fail}
use freelang_independent_ful.Storage.{
  Text, StorageItem, Storage, same_text, fit, find_item, storage_resize, new_item, update_item,
  append_item, storage_set, make_room, value_at, storage_get, key_size, value_size,
}

-- The store read as an association list.
unfoldable pub lookup : List StorageItem → Text → Option Text
lookup [] key = none
lookup (item ∷ items) key = if same_text item.key key then some item.value else lookup items key

-- the answer of `storage_get` for what the map holds
unfoldable pub shown : ℕ → Option Text → Option Text
shown size none = none
shown size (some value) = some (fit size value)

pub same_text-eq : (a b : Text) → same_text a b ≡ true → a ≡ b
unfolding same_text
same_text-eq [] [] e = refl
same_text-eq [] (c ∷ b) e = ground arith
same_text-eq (c ∷ a) [] e = ground arith
same_text-eq (c ∷ a) (d ∷ b) e = elim (Bool-cases (c == d)) [
  | inl q ↦
      let h : c ≡ d = ground arith in
      let r : same_text a b ≡ true = rw q at e in ap₂ ◌∷◌ h (same_text-eq a b r)
  | inr q ↦ let r : false ≡ true = rw q at e in ground arith
]

pub same_text_refl : (a : Text) → same_text a a ≡ true
unfolding same_text
same_text_refl [] = refl
same_text_refl (c ∷ a) = let e : (c == c) ≡ true = ground arith in rw e (same_text_refl a)

-- What the search finds at position `k`, and that the update of that item is that of the map.
unfoldable pub Found : List StorageItem → Text → ℕ → Type 0
Found items key k =
    lookup items key ≡ some (value_at items k)
    × ((value : Text) (updated : ℕ) (other : Text)
        → lookup (update_item items k value updated) other
          ≡ (if same_text key other then some (fit value_size value) else lookup items other))

update_head :
    (item : StorageItem) (items : List StorageItem) (key : Text) (value : Text) (updated : ℕ)
    (other : Text)
    → item.key ≡ key
    → lookup (update_item (item ∷ items) 0 value updated) other
      ≡ (if same_text key other then some (fit value_size value) else lookup (item ∷ items) other)
unfolding lookup update_item
update_head item items key value updated other e = elim (Bool-cases (same_text item.key other)) [
  | inl s ↦
      let t : same_text key other ≡ true = ap (λ k. same_text k other) (sym e) ∙ s in rw (s, t) refl
  | inr s ↦
      let t : same_text key other ≡ false = ap (λ k. same_text k other) (sym e) ∙ s in
      rw (s, t) refl
]

update_tail :
    (item : StorageItem) (items items' : List StorageItem) (key other value : Text)
    → same_text item.key key ≡ false
    → lookup items' other ≡ (if same_text key other then some value else lookup items other)
    → lookup (item ∷ items') other
      ≡ (if same_text key other then some value else lookup (item ∷ items) other)
unfolding lookup
update_tail item items items' key other value ne h = elim (Bool-cases (same_text item.key other)) [
  | inl s ↦ elim (Bool-cases (same_text key other)) [
    | inl t ↦
        let both : item.key ≡ key =
          same_text-eq item.key other s ∙ sym (same_text-eq key other t) in
        let z : true ≡ false =
          sym (same_text_refl key) ∙ ap (λ k. same_text k key) (sym both) ∙ ne in
        ground arith
    | inr t ↦ rw (s, t) refl
  ]
  | inr s ↦ rw s h
]

pub find_item-Found :
    (items : List StorageItem) (key : Text) (i : ℕ)
    → (find_item items key i ≡ none × lookup items key ≡ none)
      ⊎ (k : ℕ) × (find_item items key i ≡ some (i + k)) × Found items key k
unfolding find_item lookup Found update_item value_at
find_item-Found [] key i = inl (refl, refl)
find_item-Found (item ∷ items) key i = elim (Bool-cases (same_text item.key key)) [
  | inl e ↦
      let same : item.key ≡ key = same_text-eq item.key key e in
      rw e (
        inr (
          0,
          ap some (omega arith),
          (refl, λ value updated other. update_head item items key value updated other same),
        ))
  | inr e ↦ elim (find_item-Found items key (i + 1)) [
    | inl (f, l) ↦ rw e (inl (f, l))
    | inr (k, f, (l, u)) ↦ rw e (
        inr (
          suc k,
          f ∙ ap some (omega arith),
          (
            l,
            λ value updated other.
                update_tail item items (update_item items k value updated) key other
                  (fit value_size value) e (u value updated other),
          ),
        ))
  ]
]

pub lookup-append :
    (items : List StorageItem) (key other : Text) (item : StorageItem)
    → lookup items key ≡ none
    → item.key ≡ key
    → lookup (items ++ (item ∷ [])) other
      ≡ (if same_text key other then some item.value else lookup items other)
unfolding lookup
lookup-append [] key other item h e = rw e refl
lookup-append (x ∷ items) key other item h e = elim (Bool-cases (same_text x.key key)) [
  | inl s ↦ let z : some x.value ≡ none = rw s at h in ground arith
  | inr s ↦
      update_tail x items (items ++ (item ∷ [])) key other item.value s
        (lookup-append items key other item (rw s at h) e)
]

pub get-lookup :
    (s : Storage) (key : Text) (size : ℕ) → storage_get s key size ≡ shown size (lookup s.items key)
unfolding storage_get shown Found
get-lookup s key size = elim (find_item-Found s.items key 0) [
  | inl (f, l) ↦ rw (storage_get, f, l) refl
  | inr (k, f, (l, _)) ↦
      let at_k : find_item s.items key 0 ≡ some k = f ∙ ap some (omega arith) in
      rw (storage_get, at_k, l) refl
]

fit-take :
    (size : ℕ) (text : Text) → 0 < size → size < size_mod → fit size text ≡ take (size - 1) text
unfolding fit
fit-take size text h k = let e : sub_size size 1 ≡ size - 1 = omega arith in ap (λ n. take n text) e

fit-short : (size : ℕ) (text : Text) → length text < size → size < size_mod → fit size text ≡ text
fit-short size text h k =
    fit-take size text (omega arith) k ∙ take-all (size - 1) text (omega arith)
  where
    take-all : (n : ℕ) (xs : Text) → length xs ≤ n → take n xs ≡ xs
    take-all zero [] h = refl
    take-all zero (x ∷ xs) h = absurd (omega arith)
    take-all (suc n) [] h = refl
    take-all (suc n) (x ∷ xs) h = ap (λ l. x ∷ l) (take-all n xs (omega arith))

pub shown_if :
    (size : ℕ) (b : Bool) (value : Text) (o : Option Text)
    → shown size (if b then some value else o) ≡ (if b then some (fit size value) else shown size o)
unfolding shown
shown_if size true value o = refl
shown_if size false value o = refl

-- the map after a value has been stored under a key
Stored : Storage → Text → Text → Storage → Type 0
Stored s key value s' =
    (other : Text)
    → lookup s'.items other
      ≡ (if same_text key other then some (fit value_size value) else lookup s.items other)

append-Stored :
    (s : Storage) (key value : Text) (created updated : ℕ) (capacity : ℕ)
    → length key < key_size
    → lookup s.items key ≡ none
    → Stored s key value
        (append_item (record s { capacity = capacity }) key value created updated).1
unfolding Stored append_item new_item
append-Stored s key value created updated capacity h none_there = λ other.
    lookup-append s.items key other (new_item key value created updated) none_there
      (fit-short key_size key h (omega arith))

pub make_room-cases :
    (granted : Bool) (s : Storage)
    → ((c : ℕ) × (make_room granted s ≡ (ok, record s { capacity = c })))
      ⊎ (granted ≡ false × s.capacity ≤ length s.items × make_room granted s ≡ (fail, s))
unfolding make_room storage_resize
make_room-cases granted s = elim (Bool-cases (leb s.capacity (length s.items))) [
  | inr room ↦ rw room (inl (s.capacity, refl))
  | inl full ↦ elim (Bool-cases granted) [
    | inl g ↦ rw (full, g) (inl ((s.capacity * 2) % 2 ^ 32, refl))
    | inr g ↦
        let le : s.capacity ≤ length s.items = ground arith in rw (full, g) (inr (refl, le, refl))
  ]
]

Found-update :
    (s : Storage) (key value : Text) (updated k : ℕ)
    → Found s.items key k
    → Stored s key value (record s { items = update_item s.items k value updated })
unfolding Found Stored
Found-update s key value updated k (l, u) = λ other. u value updated other

set-Stored :
    (granted : Bool) (created updated : ℕ) (s : Storage) (key value : Text)
    → length key < key_size
    → let (status, s') = storage_set granted created updated s key value in
      ((status ≡ ok) × Stored s key value s')
      ⊎ (granted ≡ false × s.capacity ≤ length s.items × (status ≡ fail) × (s' ≡ s))
unfolding storage_set
set-Stored granted created updated s key value h = elim (find_item-Found s.items key 0) [
  | inr (k, f, at_k) ↦
      let e : find_item s.items key 0 ≡ some k = f ∙ ap some (omega arith) in
      rw (storage_set, e) (inl (refl, Found-update s key value updated k at_k))
  | inl (f, l) ↦ elim (make_room-cases granted s) [
    | inl (capacity, room) ↦
        rw (storage_set, f, ap (λ r. r.0) room, ap (λ r. r.1) room)
          (inl (refl, append-Stored s key value created updated capacity h l))
    | inr (refused, full, stuck) ↦
        rw (storage_set, f, ap (λ r. r.0) stuck, ap (λ r. r.1) stuck)
          (inr (refused, full, refl, refl))
  ]
]

-- The array has room for its items, and its size can be doubled.
unfoldable pub IsRoomy : Storage → Type 0
IsRoomy s = 0 < s.capacity × length s.items ≤ s.capacity

length-update_item :
    (items : List StorageItem) (i : ℕ) (value : Text) (updated : ℕ)
    → length (update_item items i value updated) ≡ length items
unfolding update_item
length-update_item [] i value updated = refl
length-update_item (item ∷ items) zero value updated = refl
length-update_item (item ∷ items) (suc i) value updated =
    ap suc (length-update_item items i value updated)

length-snoc :
    (items : List StorageItem) (item : StorageItem)
    → length (items ++ (item ∷ [])) ≡ length items + 1
length-snoc [] item = refl
length-snoc (x ∷ items) item = omega (arith, length-snoc items item)

-- After `make_room` there is room for one more item.
make_room-fits :
    (granted : Bool) (s : Storage)
    → IsRoomy s
    → s.capacity < 2 ^ 30
    → (make_room granted s).0 ≡ ok
    → length (make_room granted s).1.items ≡ length s.items
      × length s.items < (make_room granted s).1.capacity
unfolding make_room storage_resize IsRoomy
make_room-fits granted s (some_room, fits) small e =
    elim (Bool-cases (leb s.capacity (length s.items))) [
      | inr room ↦ rw room (refl, ground arith)
      | inl full ↦ elim (Bool-cases granted) [
        | inl g ↦
            let twice : (s.capacity * 2) % 2 ^ 32 ≡ s.capacity * 2 = omega arith in
            rw (full, g, twice) (refl, omega arith)
        | inr g ↦ let z : fail ≡ ok = rw (full, g) at e in absurd (ground (arith, z))
      ]
    ]

append-IsRoomy :
    (s : Storage) (key value : Text) (created updated : ℕ)
    → length s.items < s.capacity
    → IsRoomy (append_item s key value created updated).1
unfolding append_item IsRoomy
append-IsRoomy s key value created updated h =
    (omega arith, omega (arith, length-snoc s.items (new_item key value created updated)))

set-IsRoomy :
    (granted : Bool) (created updated : ℕ) (s : Storage) (key value : Text)
    → IsRoomy s
    → s.capacity < 2 ^ 30
    → IsRoomy (storage_set granted created updated s key value).1
unfolding storage_set IsRoomy
set-IsRoomy granted created updated s key value (some_room, fits) small =
    elim (Option-cases (find_item s.items key 0)) [
      | inr (k, f) ↦
          rw (storage_set, f) (some_room, omega (arith, length-update_item s.items k value updated))
      | inl f ↦ elim (make_room-cases granted s) [
        | inl (capacity, room) ↦
            let done = ap (λ r. r.0) room in
            let (same, wide) = make_room-fits granted s (some_room, fits) small done in
            rw (storage_set, f, done)
              (append-IsRoomy (make_room granted s).1 key value created updated (omega arith))
        | inr (refused, full, stuck) ↦
            rw (storage_set, f, ap (λ r. r.0) stuck, ap (λ r. r.1) stuck) (some_room, fits)
      ]
    ]

-- `storage_set` of a key shorter than its field, on an array of fewer than 2^30 items that has room for
-- its items, leaves an array that has room for its items. It either stores the value, cut to 511
-- characters, under the key, so that `storage_get` into a buffer of at least one byte yields it, cut
-- to one less than the buffer, and what it yields for every other key is what it was; or it fails and
-- changes nothing, and then the array was full and could not grow.
pub get-storage_set :
    (granted : Bool) (created updated : ℕ) (s : Storage) (key value other : Text) (size : ℕ)
    → IsRoomy s
    → s.capacity < 2 ^ 30
    → length key < key_size
    → 0 < size
    → size < size_mod
    → let (status, s') = storage_set granted created updated s key value in
      IsRoomy s'
      × ((status ≡ ok
            × storage_get s' other size ≡ (
                if same_text key other
                then some (take (size - 1) (take 511 value))
                else storage_get s other size))
          ⊎ (granted ≡ false × s.capacity ≤ length s.items × status ≡ fail × s' ≡ s))
unfolding Stored
get-storage_set granted created updated s key value other size roomy small h p q = (
  set-IsRoomy granted created updated s key value roomy small,
  elim (set-Stored granted created updated s key value h) [
    | inl (done, stored) ↦
        let field = fit-take value_size value (omega arith) (omega arith) in
        let cut = fit-take size (fit value_size value) p q ∙ ap (take (size - 1)) field in
        inl (
          done,
          get-lookup (storage_set granted created updated s key value).1 other size
              ∙ ap (shown size) (stored other)
              ∙ shown_if size (same_text key other) (fit value_size value) (lookup s.items other)
              ∙ ap (λ t. if same_text key other then some t else shown size (lookup s.items other))
                  cut
              ∙ ap (λ o. if same_text key other then some (take (size - 1) (take 511 value)) else o)
                  (sym (get-lookup s other size)),
        )
    | inr failed ↦ inr failed
  ],
)
