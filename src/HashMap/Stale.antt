-- ===== src/HashMap/Stale.antt =====
-- A slot that was deleted in front of a key: `hash_set` takes it without looking further.
use freelang_independent_ful.Prelude.{
  ℕ, ◌≤◌, ◌<◌, ◌≡◌, ◌≢◌, sym, ap, ◌∙◌, true, false, arith, get_or, some, ℕ_discrete, dec_lt,
}
use freelang_independent_ful.Status.{ok}
use freelang_independent_ful.Heap.{Heap}
use freelang_independent_ful.Memory.{mul_size}
use freelang_independent_ful.HashMap.{
  KeyOps, deleted, Entry, HashMap, stop, found, blank, pointee, action, put, find_entry, relieve,
  set_pair, hash_set, hash_get, hash_contains, hash_delete,
}
use freelang_independent_ful.HashMap.Search.{
  FirstStop, IsIndexed, slot_at, round_of, find_entry_complete,
}
use freelang_independent_ful.HashMap.Overwrite.{Overwritten-IsIndexed, entry_apart, rounds_apart}
use freelang_independent_ful.HashMap.Write.{Placed, put-Placed}
use freelang_independent_ful.HashMap.Lookup.{Placed-Overwritten, Placed-FirstStop, get_found}
use freelang_independent_ful.HashMap.Delete.{delete-Overwritten, marked_round, other_round}

module _ {K V : Type 0} (ops : KeyOps K) where
  set-put :
      (m : HashMap K V) (key : K) (value : V) (h : Heap)
      → mul_size m.count 4 ≤ mul_size m.capacity 3
      → hash_set ops (some m) (some key) (some value) h
        ≡ ((put ops m key value h).0, some (put ops m key value h).1, (put ops m key value h).2)
  unfolding hash_set set_pair relieve
  set-put m key value h roomy = ground arith

  deleted-stop :
      (key : K) (hash : ℕ) (e : Entry K V) → e.slot ≡ deleted → action ops true key hash e ≡ stop
  unfolding action
  deleted-stop key hash e d = ground arith

  contains_found :
      (m : HashMap K V) (key : K) (i : ℕ)
      → find_entry ops m key (ops.hash key) false ≡ found i
      → hash_contains ops (some m) (some key) ≡ true
  unfolding hash_contains
  contains_found m key i e = rw (e, hash_contains)

  -- The slot that `put` takes is not behind a deleted one.
  place-le :
      {m m' : HashMap K V} {key : K} {value : V} (p : Placed ops m key value m') (d : ℕ)
      → (get_or m.entries (slot_at m (ops.hash key) d) blank).slot ≡ deleted
      → p.round_no ≤ d
  place-le {m} {m'} {key} p d gone = elim (dec_lt d p.round_no) [
    | no h ↦ omega arith
    | yes h ↦
        let a =
          deleted-stop key (ops.hash key) (get_or m.entries (slot_at m (ops.hash key) d) blank)
            gone in
        let b = p.first.passed d h in cc
  ]

  -- The state after a `put` in front of the old entry and a deletion: the old entry is found.
  stale :
      {m m' : HashMap K V} {key : K} {value : V} (p : Placed ops m key value m') (k : ℕ) (h : Heap)
      → IsIndexed m
      → ops.same key key ≡ true
      → k < m.capacity
      → FirstStop (round_of ops m false key (ops.hash key)) k
      → p.round_no < k
      → let m'' = (hash_delete ops (some m') (some key) h).2 in
        (hash_get ops m'' (some key) ≡ hash_get ops (some m) (some key))
        × (hash_contains ops m'' (some key) ≡ true)
  stale {m} {m'} {key} p k h t r lt old before =
      let hash = ops.hash key in
      let o = Placed-Overwritten ops p in
      let j = p.round_no in
      let t' = Overwritten-IsIndexed o t in
      let in_m' : (i : ℕ) → i < m.capacity → i < m'.capacity = λ i q. rw p.capacity q in
      let in' = in_m' j p.in_range in
      let (w, d, m'', e, o', _) =
        delete-Overwritten ops m' key j h t' in' (Placed-FirstStop ops p t r) in
      let same : (i : ℕ)
          → i < m.capacity
          → i ≢ j
          → round_of ops m'' false key hash i ≡ round_of ops m false key hash i =
        λ i q ne.
          other_round ops key j i o' t' in' (in_m' i q) ne
          ∙ other_round ops key j i o t p.in_range q ne in
      let first : FirstStop (round_of ops m'' false key hash) k = record {
        stops = same k lt (omega arith) ∙ old.stops;
        passed = λ i q. elim (ℕ_discrete i j) [
          | yes z ↦ rw z (marked_round ops key j o' d t')
          | no ne ↦ same i (omega arith) ne ∙ old.passed i q
        ];
      } in
      let f =
        find_entry_complete ops key hash false k (Overwritten-IsIndexed o' t')
          (rw o'.capacity (in_m' k lt)) first in
      let g = find_entry_complete ops key hash false k t lt old in
      let entry =
        entry_apart o' t' hash k (rounds_apart o' t' k in' (in_m' k lt) (omega arith))
        ∙ entry_apart o t hash k (rounds_apart o t k p.in_range lt (omega arith)) in
      rw e (
        get_found ops m'' key (slot_at m'' hash k) f
            ∙ ap (λ x. pointee x.value) entry
            ∙ sym (get_found ops m key (slot_at m hash k) g),
        contains_found m'' key (slot_at m'' hash k) f,
      )

  -- In a table of at most 2^31 slots, where a key is held behind a deleted slot that its search visits, a successful `hash_set` of the
  -- key, with no growth, followed by a `hash_delete` of it leaves the key in the table: it is still
  -- a member, and a lookup yields the value from before both calls.
  pub set-delete-stale :
      (m : HashMap K V) (key : K) (value : V) (d k : ℕ) (h h' : Heap)
      → IsIndexed m
      → ops.same key key ≡ true
      → mul_size m.count 4 ≤ mul_size m.capacity 3
      → d < k
      → k < m.capacity
      → (get_or m.entries (slot_at m (ops.hash key) d) blank).slot ≡ deleted
      → FirstStop (round_of ops m false key (ops.hash key)) k
      → (hash_set ops (some m) (some key) (some value) h).0 ≡ ok
      → let m' = (hash_set ops (some m) (some key) (some value) h).1 in
        let m'' = (hash_delete ops m' (some key) h').2 in
        (hash_get ops m'' (some key) ≡ hash_get ops (some m) (some key))
        × (hash_contains ops m'' (some key) ≡ true)
  set-delete-stale m key value d k h h' t r roomy before lt gone old z =
      let e = set-put m key value h roomy in
      let p = put-Placed ops key value h t (ap (λ q. q.0) (sym e) ∙ z) in
      rw e (stale p k h' t r lt old (omega (arith, place-le p d gone)))
