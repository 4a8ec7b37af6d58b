-- ===== src/HashMap/Growth.antt =====
-- `hash_grow` and `hash_set`: the table keeps its shape, and a value that was set is read back.
use freelang_independent_ful.Prelude.{
  ℕ, ◌*◌, ◌/◌, ◌^◌, ◌≤◌, ◌<◌, ◌≡◌, refl, sym, ap, ◌∙◌, ◌⊎◌, inl, inr, true, List, [], ◌∷◌, arith,
  leb, length-set, get_or, replicate, length-replicate, some, Option-cases, Bool-cases,
}
use freelang_independent_ful.Status.{Status, ok, fail}
use freelang_independent_ful.Heap.{Heap, alloc}
use freelang_independent_ful.Memory.{mul_size}
use freelang_independent_ful.HashMap.{
  KeyOps, Entry, HashMap, blank, sizeof_entry, new_capacity, reinsert, reinsert_all, grow, relieve,
  put, set_pair, hash_set, hash_get, pointee,
}
use freelang_independent_ful.HashMap.Search.{IsIndexed}
use freelang_independent_ful.HashMap.Write.{put-Placed, HoldsKey}
use freelang_independent_ful.HashMap.Lookup.{get-Placed, Placed-HoldsKey}

pub new_capacity-pos : (c m : ℕ) → 0 < new_capacity c m
unfolding new_capacity
new_capacity-pos c m = ground arith

Status-cases : (s : Status) → (s ≡ ok) ⊎ (s ≡ fail)
Status-cases ok = inl refl
Status-cases fail = inr refl

-- Doubling a capacity of at most 2^30 leaves the indices in the range of an int, and the request for
-- the new array does not wrap.
doubled :
    (c : ℕ)
    → c ≤ 2 ^ 30
    → new_capacity c (mul_size c 2) ≤ 2 ^ 31
      × mul_size (new_capacity c (mul_size c 2)) sizeof_entry / sizeof_entry
        ≡ new_capacity c (mul_size c 2)
unfolding new_capacity
doubled c h =
    let e : mul_size c 2 ≡ c * 2 = omega arith in rw e (ground arith, whole (ground arith))
  where
    whole : {n : ℕ} → n ≤ 2 ^ 31 → mul_size n 24 / 24 ≡ n
    whole {n} h = omega arith

module _ {K V : Type 0} (ops : KeyOps K) where
  reinsert-IsIndexed :
      (e : Entry K V) (m : HashMap K V) → IsIndexed m → IsIndexed (reinsert ops e m)
  unfolding reinsert
  reinsert-IsIndexed e m t = grind (arith, length-set)

  reinsert_all-IsIndexed :
      (es : List (Entry K V)) (m : HashMap K V) → IsIndexed m → IsIndexed (reinsert_all ops es m)
  unfolding reinsert_all
  reinsert_all-IsIndexed [] m t = t
  reinsert_all-IsIndexed (e ∷ es) m t =
      reinsert_all-IsIndexed es (reinsert ops e m) (reinsert-IsIndexed e m t)

  pub grow-IsIndexed :
      (m : HashMap K V) (c : ℕ) (h : Heap)
      → IsIndexed m
      → new_capacity m.capacity c ≤ 2 ^ 31
      → mul_size (new_capacity m.capacity c) sizeof_entry / sizeof_entry ≡ new_capacity m.capacity c
      → IsIndexed (grow ops m c h).1
  unfolding grow
  grow-IsIndexed m c h t b w = elim (Bool-cases (leb c m.capacity)) [
    | inl enough ↦ rw (enough, grow) t
    | inr short ↦
        let size = new_capacity m.capacity c in
        elim (Option-cases (alloc (mul_size size sizeof_entry) h).0) [
          | inl refused ↦ rw (short, grow, refused) t
          | inr (p, got) ↦
              rw (short, grow, got)
                (reinsert_all-IsIndexed m.entries
                  (record m {
                    block = p;
                    entries = replicate (mul_size size sizeof_entry / sizeof_entry) blank;
                    capacity = size;
                    count = 0;
                  })
                  (record {
                    sized = length-replicate (mul_size size sizeof_entry / sizeof_entry) blank ∙ w;
                    roomy = new_capacity-pos m.capacity c;
                    bounded = b;
                  }))
        ]
  ]

  relieve-IsIndexed :
      (m : HashMap K V) (h : Heap)
      → IsIndexed m
      → m.capacity ≤ 2 ^ 30
      → IsIndexed (relieve ops m h).1
  unfolding relieve
  relieve-IsIndexed m h t k =
      let (b, w) = doubled m.capacity k in
      ground (arith, grow-IsIndexed m (mul_size m.capacity 2) h t b w)

  set_pair-put :
      (m : HashMap K V) (key : K) (value : V) (h : Heap)
      → (set_pair ops m key value h).0 ≡ ok
      → (n : HashMap K V) × (h' : Heap) × (IsIndexed m → m.capacity ≤ 2 ^ 30 → IsIndexed n)
        × (set_pair ops m key value h ≡ put ops n key value h')
  unfolding set_pair
  set_pair-put m key value h = elim (Status-cases (relieve ops m h).0) [
    | inr e ↦ rw (e, set_pair) (λ z. cc)
    | inl e ↦
        λ z. ((relieve ops m h).1, (relieve ops m h).2, relieve-IsIndexed m h, rw (e, set_pair))
  ]

  -- After a successful `hash_set` on a table of at most 2^30 slots, a lookup of the key yields the
  -- value, and a slot in use holds a key that compares equal to it, under its hash, with the value:
  -- whatever the table held before, deleted slots included, and whether or not it grew.
  pub get-set :
      (m : HashMap K V) (key : K) (value : V) (h : Heap)
      → IsIndexed m
      → m.capacity ≤ 2 ^ 30
      → ops.same key key ≡ true
      → (hash_set ops (some m) (some key) (some value) h).0 ≡ ok
      → let o = (hash_set ops (some m) (some key) (some value) h).1 in
        hash_get ops o (some key) ≡ some value
        × (m' : HashMap K V) × (o ≡ some m')
        × (i : ℕ) × HoldsKey ops m' i key
        × pointee (get_or m'.entries i blank).value ≡ some value
  unfolding hash_set
  get-set m key value h t k r z =
      let (n, h', keeps, same) = set_pair-put m key value h z in
      let t' = keeps t k in
      let p = put-Placed ops key value h' t' (ap (λ q. q.0) (sym same) ∙ z) in
      let (i, holds, reads) = Placed-HoldsKey ops p t' r in
      (
        ap (λ q. hash_get ops (some q.1) (some key)) same ∙ get-Placed ops p t' r,
        (put ops n key value h').1,
        ap (λ q. some q.1) same,
        i,
        holds,
        reads,
      )
