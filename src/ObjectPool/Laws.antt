-- ===== src/ObjectPool/Laws.antt =====
-- The pool as a partial map from ids to objects: what allocation and release do to it.
use freelang_independent_ful.Prelude.{
  ℕ, zero, suc, ◌+◌, ◌<◌, true, false, Option, none, some, ◌==◌, if◌then◌else◌, get_or, set, length,
  replicate, ◌≡◌, ◌≢◌, refl, sym, ◌∙◌, arith, leb, dec_le, ◌⊎◌, inl, inr, length-set, get_or-set,
  length-map, length-replicate, Bool-cases, ◌/◌, ◌*◌,
}
use freelang_independent_ful.Memory.{size_mod, mul_size}
use freelang_independent_ful.Status.{Status, ok, fail}
use freelang_independent_ful.Heap.{Heap, alloc, length-fresh, alloc-live, free-live}
use freelang_independent_ful.ObjectPool.{
  ObjectPool, pool_new, pool_allocate, pool_get, pool_release, pool_is_allocated, pool_count,
  first_free, take_slot, clear_slot, assemble, free_block,
}
use freelang_independent_ful.ObjectPool.Slots.{
  marked, bit, marked-set, marked-le, marked-replicate, marked-full, Answer, first_free-Answer,
}

-- The two arrays have a cell for each slot, and `count` is the number of slots in use.
unfoldable pub IsValid : ObjectPool → Type 0
IsValid p =
    length p.objects ≡ p.capacity
    × length p.allocated ≡ p.capacity
    × p.capacity < size_mod
    × p.count ≡ marked p.allocated

used :
    (p : ObjectPool) (j : ℕ)
    → j < p.capacity
    → get_or p.allocated j 0 ≢ 0
    → pool_is_allocated p j ≡ some true
unfolding pool_is_allocated
used p j h ne = ground arith

unused :
    (p : ObjectPool) (j : ℕ)
    → j < p.capacity
    → get_or p.allocated j 0 ≡ 0
    → pool_is_allocated p j ≡ some false
unfolding pool_is_allocated
unused p j h e = ground arith

take_slot-IsValid :
    (p : ObjectPool) (obj i : ℕ)
    → IsValid p
    → i < p.capacity
    → get_or p.allocated i 0 ≡ 0
    → IsValid (take_slot p (some obj) i) × (take_slot p (some obj) i).count ≡ p.count + 1
unfolding IsValid take_slot bit
take_slot-IsValid p obj i (l, l', c, e) h z =
    let m = marked-set p.allocated i 1 (omega arith) in
    let m' = marked-le (set p.allocated i 1) in
    let z' : (get_or p.allocated i 0 == 0) ≡ true = ground arith in
    let m₂ : marked (set p.allocated i 1) ≡ p.count + 1 = omega (arith, (rw z' at m)) in
    let k = length-set p.allocated i 1 in
    (
      (length-set p.objects i (some obj) ∙ l, length-set p.allocated i 1 ∙ l', c, omega arith),
      omega arith,
    )

get-take_slot :
    (p : ObjectPool) (obj i : ℕ)
    → IsValid p
    → i < p.capacity
    → (j : ℕ) → pool_get (take_slot p (some obj) i) j ≡ (if i == j then some obj else pool_get p j)
unfolding IsValid take_slot pool_get
get-take_slot p obj i (l, l', c, e) h j =
    rw
      (
        get_or-set p.allocated i j 1 0 (omega arith),
        get_or-set p.objects i j (some obj) none (omega arith),
      )
      (ground arith)

-- On a valid pool, `pool_allocate` takes the lowest free slot: it was free and all the slots below
-- it were in use, the count grows by one, the slot then holds the object, every other slot is what
-- it was, and the pool is valid. Otherwise all slots are in use, the count is the capacity, and
-- the call fails and changes nothing.
pub allocate_lem :
    (p : ObjectPool) (obj : ℕ)
    → IsValid p
    → ((i : ℕ) × pool_allocate p (some obj) true ≡ (ok, some i, take_slot p (some obj) i)
        × pool_is_allocated p i ≡ some false
        × ((j : ℕ) → j < i → pool_is_allocated p j ≡ some true)
        × IsValid (take_slot p (some obj) i)
        × pool_count (take_slot p (some obj) i) ≡ pool_count p + 1
        × ((j : ℕ)
            → pool_get (take_slot p (some obj) i) j ≡ (if i == j then some obj else pool_get p j)))
      ⊎ pool_allocate p (some obj) true ≡ (fail, none, p)
        × pool_count p ≡ p.capacity
        × ((j : ℕ) → j < p.capacity → pool_is_allocated p j ≡ some true)
unfolding pool_allocate pool_count Answer IsValid
allocate_lem p obj v =
    from (first_free p.capacity 0 p.allocated) (first_free-Answer p.capacity 0 p.allocated)
  where
    from :
        (r : Option ℕ)
        → Answer p.allocated p.capacity 0 r
        → ((i : ℕ) × Path
              (Status × Option ℕ × ObjectPool)
              (elim r [ none ↦ (fail, none, p) | some i ↦ (ok, some i, take_slot p (some obj) i) ])
              (ok, some i, take_slot p (some obj) i)
            × pool_is_allocated p i ≡ some false
            × ((j : ℕ) → j < i → pool_is_allocated p j ≡ some true)
            × IsValid (take_slot p (some obj) i)
            × (take_slot p (some obj) i).count ≡ p.count + 1
            × ((j : ℕ)
                → pool_get (take_slot p (some obj) i) j
                  ≡ (if i == j then some obj else pool_get p j)))
          ⊎ Path
              (Status × Option ℕ × ObjectPool)
              (elim r [ none ↦ (fail, none, p) | some i ↦ (ok, some i, take_slot p (some obj) i) ])
              (fail, none, p)
            × p.count ≡ p.capacity
            × ((j : ℕ) → j < p.capacity → pool_is_allocated p j ≡ some true)
    from none a =
        let (l, l', c, e) = v in
        let f = marked-full p.allocated (λ j q. a j (omega arith) (omega arith)) in
        inr (refl, omega arith, λ j q. used p j q (a j (omega arith) (omega arith)))
    from (some i) a =
        let (q, r, z, w) = a in
        let (k, n) = take_slot-IsValid p obj i v (omega arith) z in
        inl (
          i,
          refl,
          unused p i (omega arith) z,
          (λ j u. used p j (omega arith) (w j (omega arith) u)),
          k,
          n,
          get-take_slot p obj i v (omega arith),
        )

clear_slot-IsValid :
    (p : ObjectPool) (i : ℕ)
    → IsValid p
    → i < p.capacity
    → (get_or p.allocated i 0 == 0) ≡ false
    → IsValid (clear_slot p i) × (clear_slot p i).count + 1 ≡ p.count
unfolding IsValid clear_slot bit
clear_slot-IsValid p i (l, l', c, e) h nz =
    let m = marked-set p.allocated i 0 (omega arith) in
    let m' = marked-le p.allocated in
    let m₂ : marked (set p.allocated i 0) + 1 ≡ p.count = omega (arith, (rw nz at m)) in
    (
      (length-set p.objects i none ∙ l, length-set p.allocated i 0 ∙ l', c, omega arith),
      omega arith,
    )

get-clear_slot :
    (p : ObjectPool) (i : ℕ)
    → IsValid p
    → i < p.capacity
    → (j : ℕ) → pool_get (clear_slot p i) j ≡ (if i == j then none else pool_get p j)
unfolding IsValid clear_slot pool_get
get-clear_slot p i (l, l', c, e) h j =
    rw
      (
        get_or-set p.allocated i j 0 0 (omega arith),
        get_or-set p.objects i j none none (omega arith),
      )
      (ground arith)

-- On a valid pool, `pool_release` of a slot in use frees it: the count falls by one, the slot
-- yields NULL, every other slot is what it was, and the pool is valid. Any other id, out of range
-- or not in use, is refused and changes nothing.
pub release_lem :
    (p : ObjectPool) (i : ℕ)
    → IsValid p
    → (pool_is_allocated p i ≡ some true
        × pool_release p i ≡ (ok, clear_slot p i)
        × IsValid (clear_slot p i)
        × pool_count (clear_slot p i) + 1 ≡ pool_count p
        × ((j : ℕ) → pool_get (clear_slot p i) j ≡ (if i == j then none else pool_get p j)))
      ⊎ (pool_is_allocated p i ≢ some true) × pool_release p i ≡ (fail, p)
unfolding pool_release pool_count pool_is_allocated clear_slot
release_lem p i v = elim (dec_le p.capacity i) [
  | yes out ↦
      let e : leb p.capacity i ≡ true = ground arith in rw e (inr ((λ z. ground (arith, z)), refl))
  | no inside ↦
      let e : leb p.capacity i ≡ false = ground arith in
      elim (Bool-cases (get_or p.allocated i 0 == 0)) [
        | inl z ↦ rw (e, z) (inr ((λ w. ground (arith, w)), refl))
        | inr nz ↦
            let (k, n) = clear_slot-IsValid p i v (omega arith) nz in
            rw (e, nz) (inl (refl, refl, k, n, get-clear_slot p i v (omega arith)))
      ]
]

blank_bytes : (n j : ℕ) → get_or {A = ℕ} (replicate n 0) j 0 ≡ 0
blank_bytes zero j = refl
blank_bytes (suc n) zero = refl
blank_bytes (suc n) (suc j) = blank_bytes n j

-- When 8 times the capacity is below 2^64, `pool_new` either yields NULL and leaves no block in use
-- that was not before, or yields a valid pool of that capacity with no slot in use.
pub new_lem :
    (capacity : ℕ) (h : Heap)
    → 8 * capacity < size_mod
    → let (o, h') = pool_new capacity h in
      (o ≡ none × h'.live ≡ h.live)
      ⊎ (p : ObjectPool) × (o ≡ some p)
        × IsValid p
        × pool_count p ≡ 0
        × p.capacity ≡ capacity
        × ((j : ℕ) → pool_get p j ≡ none)
unfolding pool_new assemble pool_count IsValid pool_get free_block
new_lem capacity h b =
    let words : mul_size 8 capacity / 8 ≡ capacity = omega arith in
    elim (Bool-cases (capacity == 0)) [
      | inl z ↦ rw z (inl (refl, refl))
      | inr nz ↦ elim (alloc-live 32 h) [
        | inl (no_self, live) ↦ rw (nz, no_self) (inl (refl, live))
        | inr (s, self, live) ↦
            let h₁ = (alloc 32 h).1 in
            let h₂ = (alloc (mul_size 8 capacity) h₁).1 in
            elim (alloc-live (mul_size 8 capacity) h₁) [
              | inl (no_objects, live₁) ↦ elim (alloc-live capacity h₂) [
                | inl (no_bytes, live₂) ↦
                    rw (nz, self, no_objects, no_bytes)
                      (inl (refl, free-live s _ h.live (live₂ ∙ live₁ ∙ live)))
                | inr (a, bytes, live₂) ↦
                    rw (nz, self, no_objects, bytes)
                      (inl
                        (refl, free-live s _ h.live (free-live a _ h₂.live live₂ ∙ live₁ ∙ live)))
              ]
              | inr (o, objects, live₁) ↦ elim (alloc-live capacity h₂) [
                | inl (no_bytes, live₂) ↦
                    rw (nz, self, objects, no_bytes)
                      (inl
                        (refl, free-live s _ h.live (free-live o _ h₁.live (live₂ ∙ live₁) ∙ live)))
                | inr (a, bytes, live₂) ↦
                    rw (nz, self, objects, bytes)
                      (inr (
                        _,
                        refl,
                        (
                          length-map _ some ∙ length-fresh _ o _ ∙ words,
                          length-replicate capacity 0,
                          omega arith,
                          sym (marked-replicate capacity),
                        ),
                        refl,
                        refl,
                        λ j. rw (blank_bytes capacity j) (ground arith),
                      ))
              ]
            ]
      ]
    ]
