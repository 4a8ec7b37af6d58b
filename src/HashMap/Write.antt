-- ===== src/HashMap/Write.antt =====
-- What a successful `hash_set` writes, and where.
use freelang_independent_ful.Prelude.{
  ℕ, ◌%◌, ◌<◌, ◌≡◌, ◌≢◌, refl, sym, ap, ◌∙◌, ◌⊎◌, inl, inr, Bool, true, false, arith, get_or, set,
  some, Option-cases,
}
use freelang_independent_ful.Status.{ok}
use freelang_independent_ful.Heap.{Heap, alloc}
use freelang_independent_ful.Memory.{add_size}
use freelang_independent_ful.HashMap.{
  KeyOps, Slot, empty, deleted, occupied, Entry, HashMap, stop, pass, Probe, found, absent,
  spinning, blank, pointee, matches, action, find_entry, finish, set_value, set_slot, put,
}
use freelang_independent_ful.HashMap.Search.{
  FirstStop, IsIndexed, slot_at, round_of, visited-lt, find_entry_sound,
}

pub Slot-cases : (s : Slot) → (s ≡ occupied) ⊎ (s ≢ occupied)
Slot-cases empty = inr (λ h. cc)
Slot-cases deleted = inr (λ h. cc)
Slot-cases occupied = inl refl

module _ {K V : Type 0} where
  -- The entry `e` after a successful write of a value under a key.
  pub record Stored (key : K) (hash : ℕ) (value : V) (e w : Entry K V) : Type 0 where
    pub mark : w.slot ≡ occupied
    pub digest : w.hash ≡ hash
    pub reads : pointee w.value ≡ some value
    pub kept : e.slot ≡ occupied → w.key ≡ e.key
    pub made : e.slot ≢ occupied → (b : ℕ) × (w.key ≡ some (b, key))

  -- The map `m` after a successful write to slot `i`.
  abbrev StoredAt : HashMap K V → ℕ → K → ℕ → V → HashMap K V → Type 0
  StoredAt m i key hash value m' =
      (w : Entry K V) × Stored key hash value (get_or m.entries i blank) w
      × (m'.entries ≡ set m.entries i w)
      × (m'.capacity ≡ m.capacity)

  set_value-ok :
      (m : HashMap K V) (i : ℕ) (e : Entry K V) (value : V) (hash : ℕ) (h : Heap)
      → (set_value m i e value hash h).0 ≡ ok
      → (b : ℕ) × ((set_value m i e value hash h).1 ≡ finish m i e b value hash)
  unfolding set_value finish
  set_value-ok m i e value hash h = elim (Option-cases e.value) [
    | inr ((b, v), p) ↦ rw (p, set_value) (λ _. (b, refl))
    | inl p ↦ elim (Option-cases (alloc m.value_size h).0) [
      | inl q ↦ rw (p, set_value, q) (λ z. cc)
      | inr (b, q) ↦ rw (p, set_value, q) (λ _. (b, refl))
    ]
  ]

  set_old :
      (m : HashMap K V) (i : ℕ) (key : K) (value : V) (hash : ℕ) (h : Heap)
      → (get_or m.entries i blank).slot ≡ occupied
      → set_slot m i key value hash h ≡ set_value m i (get_or m.entries i blank) value hash h
  unfolding set_slot
  set_old m i key value hash h o = ground arith

  -- The fresh key of `hash_set`, followed by its value.
  set_new :
      (m : HashMap K V) (i : ℕ) (key : K) (value : V) (hash : ℕ) (h : Heap)
      → (get_or m.entries i blank).slot ≢ occupied
      → (set_slot m i key value hash h).0 ≡ ok
      → (b : ℕ) × (h' : Heap) × (set_slot m i key value hash h
          ≡ set_value
              (record m { count = add_size m.count 1 })
              i
              (record (get_or m.entries i blank) { key = some (b, key) })
              value
              hash
              h')
  unfolding set_slot
  set_new m i key value hash h ne = elim (Option-cases (alloc m.key_size h).0) [
    | inl q ↦ ground arith
    | inr (b, q) ↦ λ z. (b, (alloc m.key_size h).1, ground arith)
  ]

  set_slot-StoredAt :
      (m : HashMap K V) (i : ℕ) (key : K) (value : V) (hash : ℕ) (h : Heap)
      → (set_slot m i key value hash h).0 ≡ ok
      → StoredAt m i key hash value (set_slot m i key value hash h).1
  unfolding finish
  set_slot-StoredAt m i key value hash h z = elim (Slot-cases (get_or m.entries i blank).slot) [
    | inl o ↦
        let same = set_old m i key value hash h o in
        let (b, e) =
          set_value-ok m i (get_or m.entries i blank) value hash h (ap (λ r. r.0) (sym same) ∙ z) in
        (
          record (get_or m.entries i blank) {
            value = some (b, value);
            hash = hash;
            slot = occupied;
          },
          record {
            mark = refl;
            digest = refl;
            reads = unfold pointee in refl;
            kept = λ _. refl;
            made = λ ne. absurd (ne o);
          },
          ap (λ r. r.1.entries) same ∙ ap (λ n. n.entries) e,
          ap (λ r. r.1.capacity) same ∙ ap (λ n. n.capacity) e,
        )
    | inr ne ↦
        let (k, h', same) = set_new m i key value hash h ne z in
        let n = record m { count = add_size m.count 1 } in
        let w = record (get_or m.entries i blank) { key = some (k, key) } in
        let (b, e) = set_value-ok n i w value hash h' (ap (λ r. r.0) (sym same) ∙ z) in
        (
          record w { value = some (b, value); hash = hash; slot = occupied },
          record {
            mark = refl;
            digest = refl;
            reads = unfold pointee in refl;
            kept = λ o. absurd (ne o);
            made = λ _. (k, refl);
          },
          ap (λ r. r.1.entries) same ∙ ap (λ n. n.entries) e,
          ap (λ r. r.1.capacity) same ∙ ap (λ n. n.capacity) e,
        )
  ]

module _ {K V : Type 0} (ops : KeyOps K) (key : K) (hash : ℕ) where
  -- What the search for a place passes over, the search for the key passes over too.
  pub action_pass :
      (e : Entry K V) → action ops true key hash e ≡ pass → action ops false key hash e ≡ pass
  unfolding action
  action_pass e h = ground arith

  -- Where the search for a place stops at an occupied slot, the slot matches.
  pub stop-matches :
      (find_empty : Bool) (e : Entry K V)
      → e.slot ≡ occupied
      → action ops find_empty key hash e ≡ stop
      → matches ops key hash e ≡ true
  unfolding action
  stop-matches find_empty e o h = ground arith

  -- The search for the key stops at occupied slots only.
  pub stop-occupied : (e : Entry K V) → action ops false key hash e ≡ stop → e.slot ≡ occupied
  unfolding action
  stop-occupied e h = ground arith

  matches_congr :
      (e w : Entry K V)
      → w.key ≡ e.key
      → w.hash ≡ hash
      → matches ops key hash e ≡ true
      → matches ops key hash w ≡ true
  unfolding matches
  matches_congr e w k d h = ground arith

  matches_made :
      (w : Entry K V) (b : ℕ)
      → w.key ≡ some (b, key)
      → w.hash ≡ hash
      → ops.same key key ≡ true
      → matches ops key hash w ≡ true
  unfolding matches
  matches_made w b k d r = ground arith

  stop_of_matches :
      (find_empty : Bool) (w : Entry K V)
      → w.slot ≡ occupied
      → matches ops key hash w ≡ true
      → action ops find_empty key hash w ≡ stop
  unfolding action
  stop_of_matches find_empty w o h = ground arith

  -- A written entry is what the search for its key stops at.
  pub Stored-stop :
      {value : V} {e w : Entry K V}
      → ops.same key key ≡ true
      → Stored key hash value e w
      → action ops true key hash e ≡ stop
      → action ops false key hash w ≡ stop
  Stored-stop {value} {e} {w} r s a = stop_of_matches false w s.mark (elim (Slot-cases e.slot) [
    | inl o ↦ matches_congr e w (s.kept o) s.digest (stop-matches true e o a)
    | inr ne ↦ matches_made w (s.made ne).0 (s.made ne).1 s.digest r
  ])

module _ {K V : Type 0} (ops : KeyOps K) where
  put_found :
      (m : HashMap K V) (key : K) (value : V) (h : Heap)
      → (put ops m key value h).0 ≡ ok
      → (i : ℕ) × (find_entry ops m key (ops.hash key) true ≡ found i)
        × (put ops m key value h ≡ set_slot m i key value (ops.hash key) h)
  unfolding put
  put_found m key value h = from (find_entry ops m key (ops.hash key) true) refl
    where
      from :
          (p : Probe)
          → find_entry ops m key (ops.hash key) true ≡ p
          → (put ops m key value h).0 ≡ ok
          → (i : ℕ) × (find_entry ops m key (ops.hash key) true ≡ found i)
            × (put ops m key value h ≡ set_slot m i key value (ops.hash key) h)
      from (found i) e = λ z. (i, e, rw (e, put))
      from absent e = rw (e, put) (λ z. cc)
      from spinning e = rw (e, put) (λ z. cc)

  -- What a successful `put` has done: the slot of some round `j` was written, where the search for
  -- a place stopped first.
  pub record Placed (m : HashMap K V) (key : K) (value : V) (m' : HashMap K V) : Type 0 where
    pub round_no : ℕ
    pub in_range : round_no < m.capacity
    pub first : FirstStop (round_of ops m true key (ops.hash key)) round_no
    pub entry : Entry K V
    pub stored :
        Stored key
          (ops.hash key)
          value
          (get_or m.entries (slot_at m (ops.hash key) round_no) blank)
          entry
    pub entries : m'.entries ≡ set m.entries (slot_at m (ops.hash key) round_no) entry
    pub capacity : m'.capacity ≡ m.capacity

  pub put-Placed :
      {m : HashMap K V} (key : K) (value : V) (h : Heap)
      → IsIndexed m
      → (put ops m key value h).0 ≡ ok
      → Placed m key value (put ops m key value h).1
  put-Placed {m} key value h t z =
      let (i, at, same) = put_found m key value h z in
      let (j, lt, e, first) = find_entry_sound ops key (ops.hash key) true i t at in
      let (w, s, es, cap) =
        set_slot-StoredAt m i key value (ops.hash key) h (ap (λ r. r.0) (sym same) ∙ z) in
      record {
        round_no = j;
        in_range = lt;
        first = first;
        entry = w;
        stored = rw e at s;
        entries = ap (λ r. r.1.entries) same ∙ es ∙ ap (λ n. set m.entries n w) e;
        capacity = ap (λ r. r.1.capacity) same ∙ cap;
      }

module _ {K V : Type 0} (ops : KeyOps K) where
  -- Slot `i` holds an entry in use whose key compares equal to `key`, under the hash of `key`.
  unfoldable pub HoldsKey : HashMap K V → ℕ → K → Type 0
  HoldsKey m i key =
      let e = get_or m.entries i blank in
      i < m.capacity
      × e.slot ≡ occupied
      × e.hash ≡ ops.hash key
      × (b : ℕ) × (k : K) × (e.key ≡ some (b, k))
      × ops.same k key ≡ true

  matches-key :
      (key : K) (hash : ℕ) (e : Entry K V)
      → matches ops key hash e ≡ true
      → e.hash ≡ hash × (b : ℕ) × (k : K) × (e.key ≡ some (b, k)) × ops.same k key ≡ true
  unfolding matches
  matches-key key hash e h = elim (Option-cases e.key) [
    | inl z ↦ absurd (ground (arith, z))
    | inr ((b, k), z) ↦ (ground (arith, z), b, k, z, ground (arith, z))
  ]

  -- Where the search for a key stops, the key is.
  pub stop-HoldsKey :
      {m : HashMap K V} (key : K) (j : ℕ)
      → IsIndexed m
      → round_of ops m false key (ops.hash key) j ≡ stop
      → HoldsKey m (slot_at m (ops.hash key) j) key
  unfolding HoldsKey
  stop-HoldsKey {m} key j t a =
      let e = get_or m.entries (slot_at m (ops.hash key) j) blank in
      let o = stop-occupied ops key (ops.hash key) e a in
      let (d, b, k, at, same) =
        matches-key key (ops.hash key) e (stop-matches ops key (ops.hash key) false e o a) in
      (visited-lt m.capacity (ops.hash key % m.capacity) j t.roomy, o, d, b, k, at, same)
