-- ===== src/HashMap.antt =====
-- The open-addressing hash table of myos-lib/src/hash.c. Keys and values are copied whole, so the
-- model is generic in both; the two function pointers `hash_func` and `cmp_func` are `KeyOps`.
-- A pointer to a copy is the heap's name of the block with the copy; NULL is `none`.
pub mod Whole
pub mod Builtin
pub mod Search
pub mod Overwrite
pub mod Write
pub mod Lookup
pub mod Growth
pub mod Delete
pub mod Stale
use freelang_independent_ful.Prelude.{
  ℕ, zero, suc, ◌+◌, ◌-◌, ◌*◌, ◌/◌, ◌%◌, ◌^◌, Bool, true, false, ◌&&◌, ◌||◌, Option, none, some,
  List, [], ◌∷◌, ltb, leb, ◌==◌, if◌then◌else◌, get_or, set, replicate,
}
use freelang_independent_ful.Memory.{mul_size, add_size, sub_size}
use freelang_independent_ful.Status.{Status, ok, fail}
use freelang_independent_ful.Heap.{Heap, alloc, free}

-- `hash_func`, and `cmp_func(a, b) == 0`
pub record KeyOps (K : Type 0) : Type 0 where
  pub hash : K → ℕ
  pub same : K → K → Bool

-- `is_occupied`: 0, -1 and 1
pub data Slot : Type 0 where
  empty deleted occupied : Slot

pub record Entry (K V : Type 0) : Type 0 where
  pub key : Option (ℕ × K)
  pub value : Option (ℕ × V)
  pub hash : ℕ
  pub slot : Slot

pub record HashMap (K V : Type 0) : Type 0 where
  pub self : ℕ
  pub block : ℕ
  pub entries : List (Entry K V)
  pub count : ℕ
  pub capacity : ℕ
  pub key_size : ℕ
  pub value_size : ℕ

-- what one round of the probe decides
pub data Action : Type 0 where
  stop pass give_up : Action

-- the result of the probe; `spinning` is the model's, for a loop that has used up its rounds
pub data Probe : Type 0 where
  found : ℕ → Probe
  absent spinning : Probe

-- The `size_t` index returned as an `int`: the callers take a negative one for -1.
unfoldable pub narrowed : Probe → Probe
narrowed (found i) = if ltb (i % 2 ^ 32) (2 ^ 31) then found (i % 2 ^ 32) else absent
narrowed absent = absent
narrowed spinning = spinning

abbrev pub blank : {K V : Type 0} → Entry K V
blank = record { key = none; value = none; hash = 0; slot = empty }

abbrev pub sizeof_entry : ℕ
sizeof_entry = 24

abbrev pub sizeof_map : ℕ
sizeof_map = 56

-- `max(max(capacity * 2, 16), min_capacity)`, the doubling in size_t
unfoldable pub new_capacity : ℕ → ℕ → ℕ
new_capacity capacity min_capacity =
    let doubled = mul_size capacity 2 in
    let base = if ltb doubled 16 then 16 else doubled in
    if ltb base min_capacity then min_capacity else base

-- `mm_free` of a pointer that may be NULL
unfoldable pub free_ptr : {A : Type 0} → Option (ℕ × A) → Heap → Heap
free_ptr none h = h
free_ptr (some (b, _)) h = free b h

-- the bytes behind a pointer that may be NULL
unfoldable pub pointee : {A : Type 0} → Option (ℕ × A) → Option A
pointee none = none
pointee (some (_, a)) = some a

module _ {K V : Type 0} where
  -- `hash_new` after the check of the arguments
  unfoldable pub new : ℕ → ℕ → Heap → Option (HashMap K V) × Heap
  new key_size value_size h =
      if key_size == 0 || value_size == 0
      then (none, h)
      else let (self, h₁) = alloc sizeof_map h in
        elim self [
          | none ↦ (none, h₁)
          | some s ↦
              let (block, h₂) = alloc (mul_size 16 sizeof_entry) h₁ in
              elim block [
                | none ↦ (none, free s h₂)
                | some p ↦ (
                  some (record {
                    self = s;
                    block = p;
                    entries = replicate 16 blank;
                    count = 0;
                    capacity = 16;
                    key_size = key_size;
                    value_size = value_size;
                  }),
                  h₂,
                )
              ]
        ]

  -- the last lines of `hash_set`: the value, the hash and the mark are written to slot `i`
  unfoldable pub finish : HashMap K V → ℕ → Entry K V → ℕ → V → ℕ → HashMap K V
  finish m i e b value hash = record m {
    entries = set m.entries i (record e { value = some (b, value); hash = hash; slot = occupied });
  }

  -- the value part of `hash_set`: `e` is the entry of slot `i`, with its key
  unfoldable pub set_value :
      HashMap K V → ℕ → Entry K V → V → ℕ → Heap → Status × HashMap K V × Heap
  set_value m i e value hash h = elim e.value [
    | some (b, _) ↦ (ok, finish m i e b value hash, h)
    | none ↦
        let (got, h') = alloc m.value_size h in
        elim got [
          | none ↦ (fail, record m { entries = set m.entries i e }, h')
          | some b ↦ (ok, finish m i e b value hash, h')
        ]
  ]

  -- `hash_set` once the slot `i` is found
  unfoldable pub set_slot : HashMap K V → ℕ → K → V → ℕ → Heap → Status × HashMap K V × Heap
  set_slot m i key value hash h =
      let e = get_or m.entries i blank in
      elim e.slot [
        | occupied ↦ set_value m i e value hash h
        | _ ↦
            let (got, h') = alloc m.key_size h in
            elim got [
              | none ↦ (fail, m, h')
              | some b ↦
                  set_value (record m { count = add_size m.count 1 }) i
                    (record e { key = some (b, key) }) value hash h'
            ]
      ]

  -- `hash_delete` at the slot that was found
  unfoldable pub delete_slot : HashMap K V → ℕ → Heap → Option V × HashMap K V × Heap
  delete_slot m i h =
      let e = get_or m.entries i blank in
      (
        pointee e.value,
        record m {
          entries = set m.entries i (record e { key = none; value = none; slot = deleted });
          count = sub_size m.count 1;
        },
        free_ptr e.value (free_ptr e.key h),
      )

module _ {K V : Type 0} (ops : KeyOps K) where
  -- `entry->hash == hash && cmp_func(entry->key, key) == 0`
  unfoldable pub matches : K → ℕ → Entry K V → Bool
  matches key hash e = e.hash == hash && elim e.key [ none ↦ false | some (_, k) ↦ ops.same k key ]

  -- the tests of one round of `hash_find_entry`
  unfoldable pub action : Bool → K → ℕ → Entry K V → Action
  action find_empty key hash e = elim e.slot [
    | empty ↦ if find_empty then stop else give_up
    | deleted ↦ if find_empty then stop else pass
    | occupied ↦ if matches key hash e then stop else pass
  ]

  -- the loop of `hash_find_entry`, for so many rounds
  unfoldable pub probe : Bool → K → ℕ → List (Entry K V) → ℕ → ℕ → ℕ → ℕ → Probe
  probe find_empty key hash entries capacity start zero index = spinning
  probe find_empty key hash entries capacity start (suc rounds) index =
      let next = (index + 1) % capacity in
      let rest = probe find_empty key hash entries capacity start rounds next in
      elim (action find_empty key hash (get_or entries index blank)) [
        | stop ↦ found index
        | give_up ↦ absent
        | pass ↦ if next == start then absent else rest
      ]

  -- `hash_find_entry`; a table of `capacity` slots takes that many rounds at most
  unfoldable pub find_entry : HashMap K V → K → ℕ → Bool → Probe
  unfolding narrowed
  find_entry m key hash find_empty =
      let start = hash % m.capacity in
      narrowed (probe find_empty key hash m.entries m.capacity start m.capacity start)

  -- one round of the reinsertion loop of `hash_grow`
  unfoldable pub reinsert : Entry K V → HashMap K V → HashMap K V
  reinsert e m = elim e.slot [
    | occupied ↦ elim e.key [
      | none ↦ m
      | some (b, k) ↦ elim (find_entry m k e.hash true) [
        | found i ↦ record m {
          entries = set m.entries i (record e { slot = occupied });
          count = add_size m.count 1;
        }
        | _ ↦ m
      ]
    ]
    | _ ↦ m
  ]

  unfoldable pub reinsert_all : List (Entry K V) → HashMap K V → HashMap K V
  reinsert_all [] m = m
  reinsert_all (e ∷ es) m = reinsert_all es (reinsert e m)

  -- `hash_grow`; the product of the request may wrap, and the block then holds fewer entries
  unfoldable pub grow : HashMap K V → ℕ → Heap → Status × HashMap K V × Heap
  grow m min_capacity h =
      if leb min_capacity m.capacity
      then (ok, m, h)
      else let size = new_capacity m.capacity min_capacity in
        let (got, h') = alloc (mul_size size sizeof_entry) h in
        elim got [
          | none ↦ (fail, m, h')
          | some p ↦ (
            ok,
            reinsert_all m.entries (record m {
              block = p;
              entries = replicate (mul_size size sizeof_entry / sizeof_entry) blank;
              capacity = size;
              count = 0;
            }),
            free m.block h',
          )
        ]

  -- the load factor test of `hash_set`
  unfoldable pub relieve : HashMap K V → Heap → Status × HashMap K V × Heap
  relieve m h =
      if ltb (mul_size m.capacity 3) (mul_size m.count 4)
      then grow m (mul_size m.capacity 2) h
      else (ok, m, h)

  -- the search and the write of `hash_set`
  unfoldable pub put : HashMap K V → K → V → Heap → Status × HashMap K V × Heap
  put m key value h = elim (find_entry m key (ops.hash key) true) [
    | found i ↦ set_slot m i key value (ops.hash key) h
    | _ ↦ (fail, m, h)
  ]

  -- `hash_set` after the test for NULL
  unfoldable pub set_pair : HashMap K V → K → V → Heap → Status × HashMap K V × Heap
  set_pair m key value h =
      let (s, m', h') = relieve m h in elim s [ fail ↦ (fail, m', h') | ok ↦ put m' key value h' ]

  -- `hash_set`
  unfoldable pub hash_set :
      Option (HashMap K V) → Option K → Option V → Heap → Status × Option (HashMap K V) × Heap
  hash_set none key value h = (fail, none, h)
  hash_set (some m) none value h = (fail, some m, h)
  hash_set (some m) (some key) none h = (fail, some m, h)
  hash_set (some m) (some key) (some value) h =
      let (s, m', h') = set_pair m key value h in (s, some m', h')

  -- `hash_get`: the value that the pointer points to
  unfoldable pub hash_get : Option (HashMap K V) → Option K → Option V
  hash_get none key = none
  hash_get (some m) none = none
  hash_get (some m) (some key) = elim (find_entry m key (ops.hash key) false) [
    | found i ↦ pointee (get_or m.entries i blank).value
    | _ ↦ none
  ]

  -- `hash_contains`
  unfoldable pub hash_contains : Option (HashMap K V) → Option K → Bool
  hash_contains none key = false
  hash_contains (some m) none = false
  hash_contains (some m) (some key) = elim (find_entry m key (ops.hash key) false) [
    | found i ↦ true
    | _ ↦ false
  ]

  -- `hash_delete`: the status, the bytes that `out_value` receives if it is not NULL, the map, the
  -- heap
  unfoldable pub hash_delete :
      Option (HashMap K V) → Option K → Heap → Status × Option V × Option (HashMap K V) × Heap
  hash_delete none key h = (fail, none, none, h)
  hash_delete (some m) none h = (fail, none, some m, h)
  hash_delete (some m) (some key) h = elim (find_entry m key (ops.hash key) false) [
    | found i ↦ let (v, m', h') = delete_slot m i h in (ok, v, some m', h')
    | _ ↦ (fail, none, some m, h)
  ]

  -- `hash_resize`
  unfoldable pub hash_resize :
      Option (HashMap K V) → ℕ → Heap → Status × Option (HashMap K V) × Heap
  hash_resize none capacity h = (fail, none, h)
  hash_resize (some m) capacity h =
      if ltb capacity m.count
      then (fail, some m, h)
      else let (s, m', h') = grow m capacity h in (s, some m', h')
