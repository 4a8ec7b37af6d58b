-- ===== src/HashMap/Delete.antt =====
-- `hash_delete`, and the deleted slot that `hash_set` reuses too early.
use freelang_independent_ful.Prelude.{
  ℕ, ◌<◌, ◌≡◌, ◌≢◌, refl, sym, ap, ◌∙◌, false, arith, get_or, set, none, some, ℕ_discrete,
}
use freelang_independent_ful.Status.{ok}
use freelang_independent_ful.Heap.{Heap}
use freelang_independent_ful.HashMap.{
  KeyOps, deleted, Entry, HashMap, stop, pass, Probe, found, absent, spinning, blank, action,
  find_entry, pointee, hash_get, hash_contains, delete_slot, hash_delete,
}
use freelang_independent_ful.HashMap.Search.{
  FirstStop, IsIndexed, slot_at, round_of, find_entry_sound, find_entry_complete,
}
use freelang_independent_ful.HashMap.Write.{HoldsKey, stop-HoldsKey}
use freelang_independent_ful.HashMap.Overwrite.{
  Overwritten, Overwritten-IsIndexed, entry_here, entry_apart, rounds_apart,
}

pass≢stop : pass ≡ stop → ⊥
pass≢stop e = cc

module _ {K V : Type 0} (ops : KeyOps K) where
  -- A deletion that finds the key marks the slot of the round at which the search stops first.
  pub delete-Overwritten :
      (m : HashMap K V) (key : K) (j : ℕ) (h : Heap)
      → IsIndexed m
      → j < m.capacity
      → FirstStop (round_of ops m false key (ops.hash key)) j
      → (w : Entry K V) × (w.slot ≡ deleted)
        × (m' : HashMap K V) × ((hash_delete ops (some m) (some key) h).2 ≡ some m')
        × Overwritten m (ops.hash key) j w m'
        × (hash_delete ops (some m) (some key) h).1
          ≡ pointee (get_or m.entries (slot_at m (ops.hash key) j) blank).value
  unfolding hash_delete delete_slot
  delete-Overwritten m key j h t lt first =
      let i = slot_at m (ops.hash key) j in
      let e = get_or m.entries i blank in
      let f = find_entry_complete ops key (ops.hash key) false j t lt first in
      (
        record e { key = none; value = none; slot = deleted },
        refl,
        (delete_slot m i h).1,
        rw (f, hash_delete),
        record { entries = refl; capacity = refl },
        rw (f, hash_delete) refl,
      )

  action_deleted :
      (key : K) (hash : ℕ) (w : Entry K V) → w.slot ≡ deleted → action ops false key hash w ≡ pass
  unfolding action
  action_deleted key hash w d = ground arith

  -- A round of the search after a deletion: past the marked slot, and elsewhere as before.
  pub marked_round :
      {m m' : HashMap K V} (key : K) (j : ℕ) {w : Entry K V}
      → Overwritten m (ops.hash key) j w m'
      → w.slot ≡ deleted
      → IsIndexed m
      → round_of ops m' false key (ops.hash key) j ≡ pass
  marked_round key j {w} o d t =
      ap (action ops false key (ops.hash key)) (entry_here o t)
      ∙ action_deleted key (ops.hash key) w d

  pub other_round :
      {m m' : HashMap K V} (key : K) (j : ℕ) {w : Entry K V} (i : ℕ)
      → Overwritten m (ops.hash key) j w m'
      → IsIndexed m
      → j < m.capacity
      → i < m.capacity
      → i ≢ j
      → round_of ops m' false key (ops.hash key) i ≡ round_of ops m false key (ops.hash key) i
  other_round key j i o t p q ne =
      ap (action ops false key (ops.hash key))
        (entry_apart o t (ops.hash key) i (rounds_apart o t i p q ne))

  delete_found :
      (m : HashMap K V) (key : K) (h : Heap)
      → (hash_delete ops (some m) (some key) h).0 ≡ ok
      → (i : ℕ) × (find_entry ops m key (ops.hash key) false ≡ found i)
  unfolding hash_delete
  delete_found m key h = from (find_entry ops m key (ops.hash key) false) refl
    where
      from :
          (p : Probe)
          → find_entry ops m key (ops.hash key) false ≡ p
          → (hash_delete ops (some m) (some key) h).0 ≡ ok
          → (i : ℕ) × (find_entry ops m key (ops.hash key) false ≡ found i)
      from (found i) e = λ z. (i, e)
      from absent e = rw (e, hash_delete) (λ z. cc)
      from spinning e = rw (e, hash_delete) (λ z. cc)

  get_missing :
      (m : HashMap K V) (key : K)
      → ((i : ℕ) → find_entry ops m key (ops.hash key) false ≢ found i)
      → (hash_get ops (some m) (some key) ≡ none) × (hash_contains ops (some m) (some key) ≡ false)
  unfolding hash_get hash_contains
  get_missing m key never = from (find_entry ops m key (ops.hash key) false) refl
    where
      from :
          (p : Probe)
          → find_entry ops m key (ops.hash key) false ≡ p
          → (hash_get ops (some m) (some key) ≡ none)
            × (hash_contains ops (some m) (some key) ≡ false)
      from (found i) e = absurd (never i e)
      from absent e = (rw (e, hash_get), rw (e, hash_contains))
      from spinning e = (rw (e, hash_get), rw (e, hash_contains))

  -- Of all the slots that the search visits, at most one holds the key.
  abbrev pub HeldOnce : HashMap K V → K → Type 0
  HeldOnce m key =
      (i k : ℕ)
      → i < m.capacity
      → k < m.capacity
      → round_of ops m false key (ops.hash key) i ≡ stop
      → round_of ops m false key (ops.hash key) k ≡ stop
      → i ≡ k

  -- If at most one slot of a table of at most 2^31 slots holds the key, then a successful
  -- `hash_delete` of the key has marked as deleted a slot that held a key comparing equal to it, has
  -- yielded the value of that slot, and has changed no other slot; a lookup then finds nothing, and
  -- the membership test fails.
  pub delete-get :
      (m : HashMap K V) (key : K) (h : Heap)
      → IsIndexed m
      → HeldOnce m key
      → (hash_delete ops (some m) (some key) h).0 ≡ ok
      → let (_, out, o, _) = hash_delete ops (some m) (some key) h in
        (hash_get ops o (some key) ≡ none)
        × (hash_contains ops o (some key) ≡ false)
        × (i : ℕ) × HoldsKey ops m i key
        × out ≡ pointee (get_or m.entries i blank).value
        × (w : Entry K V) × (w.slot ≡ deleted)
        × (m' : HashMap K V) × (o ≡ some m')
        × m'.entries ≡ set m.entries i w
        × m'.capacity ≡ m.capacity
  delete-get m key h t once z =
      let (i, at) = delete_found m key h z in
      let (j, lt, _, first) = find_entry_sound ops key (ops.hash key) false i t at in
      let (w, d, m', e, o, out) = delete-Overwritten m key j h t lt first in
      let missing = get_missing m' key (λ i' f'.
        let (k, lt', _, first') =
          find_entry_sound ops key (ops.hash key) false i' (Overwritten-IsIndexed o t) f' in
        let q : k < m.capacity = rw o.capacity at lt' in
        elim (ℕ_discrete k j) [
          | yes same ↦
              let s = rw same at first'.stops in pass≢stop (sym (marked_round key j o d t) ∙ s)
          | no differ ↦
              differ (
                once k j q lt (sym (other_round key j k o t lt q differ) ∙ first'.stops)
                  first.stops)
        ]) in
      (
        ap (λ r. hash_get ops r (some key)) e ∙ missing.0,
        ap (λ r. hash_contains ops r (some key)) e ∙ missing.1,
        slot_at m (ops.hash key) j,
        stop-HoldsKey ops key j t first.stops,
        out,
        w,
        d,
        m',
        e,
        o.entries,
        o.capacity,
      )
