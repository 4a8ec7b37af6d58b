-- ===== src/HashMap/Lookup.antt =====
-- What `hash_set` writes and `hash_get` then reads, deleted slots included.
use freelang_independent_ful.Prelude.{ℕ, ◌≡◌, ap, ◌∙◌, true, false, arith, get_or, some}
use freelang_independent_ful.HashMap.{
  KeyOps, HashMap, found, blank, pointee, action, find_entry, hash_get,
}
use freelang_independent_ful.HashMap.Overwrite.{
  Overwritten, Overwritten-IsIndexed, entry_here, entry_apart, rounds_apart,
}
use freelang_independent_ful.HashMap.Write.{
  HoldsKey, stop-HoldsKey, Stored-stop, action_pass, Placed,
}
use freelang_independent_ful.HashMap.Search.{
  FirstStop, IsIndexed, slot_at, round_of, find_entry_complete,
}

module _ {K V : Type 0} (ops : KeyOps K) where
  pub Placed-Overwritten :
      {m m' : HashMap K V} {key : K} {value : V} (p : Placed ops m key value m')
      → Overwritten m (ops.hash key) p.round_no p.entry m'
  Placed-Overwritten p = record { entries = p.entries; capacity = p.capacity }

  -- The search for the key that was put stops first at the slot that was written.
  pub Placed-FirstStop :
      {m m' : HashMap K V} {key : K} {value : V} (p : Placed ops m key value m')
      → IsIndexed m
      → ops.same key key ≡ true
      → FirstStop (round_of ops m' false key (ops.hash key)) p.round_no
  Placed-FirstStop {m} {m'} {key} p t r =
      let hash = ops.hash key in
      let o = Placed-Overwritten p in
      record {
        stops =
            ap (action ops false key hash) (entry_here o t)
            ∙ Stored-stop ops key hash r p.stored p.first.stops;
        passed = λ k q.
            ap (action ops false key hash) (
              entry_apart o t hash k
                (rounds_apart o t k p.in_range (omega (arith, p.in_range)) (omega arith)))
            ∙ action_pass ops key hash (get_or m.entries (slot_at m hash k) blank)
                (p.first.passed k q);
      }

  -- What a lookup and a membership test say where the search ends.
  pub get_found :
      (m : HashMap K V) (key : K) (i : ℕ)
      → find_entry ops m key (ops.hash key) false ≡ found i
      → hash_get ops (some m) (some key) ≡ pointee (get_or m.entries i blank).value
  unfolding hash_get
  get_found m key i e = rw (e, hash_get)

  -- A lookup of the key that was put reads the value that was put.
  pub get-Placed :
      {m m' : HashMap K V} {key : K} {value : V}
      → Placed ops m key value m'
      → IsIndexed m
      → ops.same key key ≡ true
      → hash_get ops (some m') (some key) ≡ some value
  get-Placed {m} {m'} {key} p t r =
      let hash = ops.hash key in
      let o = Placed-Overwritten p in
      let f =
        find_entry_complete ops key hash false p.round_no (Overwritten-IsIndexed o t)
          (rw p.capacity p.in_range) (Placed-FirstStop p t r) in
      get_found m' key (slot_at m' hash p.round_no) f
      ∙ ap (λ e. pointee e.value) (entry_here o t)
      ∙ p.stored.reads

  -- The key that was put is held, with the value.
  pub Placed-HoldsKey :
      {m m' : HashMap K V} {key : K} {value : V}
      → Placed ops m key value m'
      → IsIndexed m
      → ops.same key key ≡ true
      → (i : ℕ) × HoldsKey ops m' i key × pointee (get_or m'.entries i blank).value ≡ some value
  Placed-HoldsKey {m} {m'} {key} p t r =
      let o = Placed-Overwritten p in
      (
        slot_at m' (ops.hash key) p.round_no,
        stop-HoldsKey ops key p.round_no (Overwritten-IsIndexed o t) (Placed-FirstStop p t r).stops,
        ap (λ e. pointee e.value) (entry_here o t) ∙ p.stored.reads,
      )
