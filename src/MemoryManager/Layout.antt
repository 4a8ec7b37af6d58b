-- ===== src/MemoryManager/Layout.antt =====
-- The blocks of the heap in the order of their addresses, and the free list that runs through them.
use freelang_independent_ful.Prelude.{
  ℕ, ◌+◌, ◌*◌, ◌≤◌, ◌<◌, ◌≡◌, refl, ◌∙◌, true, false, Option, none, some, List, [], ◌∷◌, ◌++◌, ◌==◌,
  if◌then◌else◌, length, arith, inl, inr, ◌⊎◌, Bool-cases,
}
use freelang_independent_ful.Memory.{size_mod}
use freelang_independent_ful.MemoryManager.{MemBlock, Manager, put, set_prev, set_next}

-- The blocks stand between two addresses, one behind the other; there may be gaps.
unfoldable pub Apart : (ℕ → MemBlock) → ℕ → List ℕ → ℕ → Type 0
Apart f lo [] hi = lo ≤ hi
Apart f lo (a ∷ bs) hi = lo ≤ a × Apart f (a + 32 + (f a).size) bs hi

-- The free ones among the blocks are linked, in this order, from one pointer to another.
unfoldable pub Linked : (ℕ → MemBlock) → Option ℕ → List ℕ → Option ℕ → Type 0
Linked f head [] tail = head ≡ tail
Linked f head (a ∷ bs) tail =
    ((f a).is_free ≡ 0 × Linked f head bs tail)
    ⊎ ((f a).is_free ≡ 1 × head ≡ some a × Linked f (f a).next bs tail)

-- Two memories agree on a stretch, but for the `prev` pointers, which nothing reads.
unfoldable pub Agree : (ℕ → MemBlock) → (ℕ → MemBlock) → ℕ → ℕ → Type 0
Agree f g lo hi =
    (q : ℕ)
    → lo ≤ q
    → q < hi
    → (g q).next ≡ (f q).next × (g q).is_free ≡ (f q).is_free × (g q).size ≡ (f q).size

pub Apart-bound :
    (f : ℕ → MemBlock) (lo : ℕ) (bs : List ℕ) (hi : ℕ) → Apart f lo bs hi → lo + 32 * length bs ≤ hi
unfolding Apart
Apart-bound f lo [] hi h = omega arith
Apart-bound f lo (a ∷ bs) hi (p, h) =
    let ih = Apart-bound f (a + 32 + (f a).size) bs hi h in omega arith

pub Apart-Agree :
    (f g : ℕ → MemBlock) (lo : ℕ) (bs : List ℕ) (hi : ℕ)
    → Apart f lo bs hi
    → Agree f g lo hi
    → Apart g lo bs hi
unfolding Apart Agree
Apart-Agree f g lo [] hi h e = h
Apart-Agree f g lo (a ∷ bs) hi (p, h) e =
    let b = Apart-bound f (a + 32 + (f a).size) bs hi h in
    let (_, _, s) = e a p (omega arith) in
    let ih = Apart-Agree f g (a + 32 + (f a).size) bs hi h (λ q r. e q (omega arith)) in
    (p, rw s ih)

pub Linked-Agree :
    (f g : ℕ → MemBlock) (head : Option ℕ) (lo : ℕ) (bs : List ℕ) (hi : ℕ) (tail : Option ℕ)
    → Apart f lo bs hi
    → Agree f g lo hi
    → Linked f head bs tail
    → Linked g head bs tail
unfolding Apart Agree Linked
Linked-Agree f g head lo [] hi tail h e l = l
Linked-Agree f g head lo (a ∷ bs) hi tail (p, h) e (inl (u, l)) =
    let b = Apart-bound f (a + 32 + (f a).size) bs hi h in
    let (_, fr, _) = e a p (omega arith) in
    inl (
      fr ∙ u,
      Linked-Agree f g head (a + 32 + (f a).size) bs hi tail h (λ q r. e q (omega arith)) l,
    )
Linked-Agree f g head lo (a ∷ bs) hi tail (p, h) e (inr (u, at_head, l)) =
    let b = Apart-bound f (a + 32 + (f a).size) bs hi h in
    let (nx, fr, _) = e a p (omega arith) in
    let ih =
      Linked-Agree f g (f a).next (a + 32 + (f a).size) bs hi tail h (λ q r. e q (omega arith)) l in
    inr (fr ∙ u, at_head, rw nx ih)

pub Apart-split :
    (f : ℕ → MemBlock) (lo : ℕ) (xs : List ℕ) (a : ℕ) (ys : List ℕ) (hi : ℕ)
    → Apart f lo (xs ++ (a ∷ ys)) hi
    → Apart f lo xs a × Apart f (a + 32 + (f a).size) ys hi
unfolding Apart
Apart-split f lo [] a ys hi h = h
Apart-split f lo (x ∷ xs) a ys hi (p, h) =
    let (l, r) = Apart-split f (x + 32 + (f x).size) xs a ys hi h in ((p, l), r)

pub Apart-join :
    (f : ℕ → MemBlock) (lo : ℕ) (xs : List ℕ) (a : ℕ) (ys : List ℕ) (hi : ℕ)
    → Apart f lo xs a
    → Apart f (a + 32 + (f a).size) ys hi
    → Apart f lo (xs ++ (a ∷ ys)) hi
unfolding Apart
Apart-join f lo [] a ys hi l r = (l, r)
Apart-join f lo (x ∷ xs) a ys hi (p, l) r = (p, Apart-join f (x + 32 + (f x).size) xs a ys hi l r)

pub Apart-lower :
    (f : ℕ → MemBlock) (lo lo' : ℕ) (bs : List ℕ) (hi : ℕ)
    → lo ≤ lo'
    → Apart f lo' bs hi
    → Apart f lo bs hi
unfolding Apart
Apart-lower f lo lo' [] hi p h = omega arith
Apart-lower f lo lo' (b ∷ bs) hi p (q, h) = (omega arith, h)

pub Linked-split :
    (f : ℕ → MemBlock) (head : Option ℕ) (xs ys : List ℕ) (tail : Option ℕ)
    → Linked f head (xs ++ ys) tail
    → (mid : Option ℕ) × Linked f head xs mid × Linked f mid ys tail
unfolding Linked
Linked-split f head [] ys tail l = (head, refl, l)
Linked-split f head (x ∷ xs) ys tail (inl (u, l)) =
    let (mid, p, q) = Linked-split f head xs ys tail l in (mid, inl (u, p), q)
Linked-split f head (x ∷ xs) ys tail (inr (u, e, l)) =
    let (mid, p, q) = Linked-split f (f x).next xs ys tail l in (mid, inr (u, e, p), q)

pub Linked-join :
    (f : ℕ → MemBlock) (head : Option ℕ) (xs : List ℕ) (mid : Option ℕ) (ys : List ℕ)
    (tail : Option ℕ)
    → Linked f head xs mid
    → Linked f mid ys tail
    → Linked f head (xs ++ ys) tail
unfolding Linked
Linked-join f head [] mid ys tail p q = rw p q
Linked-join f head (x ∷ xs) mid ys tail (inl (u, p)) q =
    inl (u, Linked-join f head xs mid ys tail p q)
Linked-join f head (x ∷ xs) mid ys tail (inr (u, e, p)) q =
    inr (u, e, Linked-join f (f x).next xs mid ys tail p q)

-- the last free block of a list, or what came before it
unfoldable pub last_free : (ℕ → MemBlock) → Option ℕ → List ℕ → Option ℕ
last_free f prev [] = prev
last_free f prev (a ∷ bs) = last_free f (if (f a).is_free == 0 then prev else some a) bs

pub set_next-Agree :
    (f : ℕ → MemBlock) (p : ℕ) (t : Option ℕ) (lo hi : ℕ)
    → (p < lo ⊎ hi ≤ p)
    → Agree f (set_next p t f) lo hi
unfolding Agree set_next put
set_next-Agree f p t lo hi o q a b =
    let e : (q == p) ≡ false = ground (arith, o) in rw e (refl, refl, refl)

set_next-at :
    (f : ℕ → MemBlock) (p : ℕ) (t : Option ℕ)
    → (set_next p t f p).is_free ≡ (f p).is_free × (set_next p t f p).next ≡ t
unfolding set_next put
set_next-at f p t = let e : (p == p) ≡ true = ground arith in rw e (refl, refl)

set_next-size :
    (f : ℕ → MemBlock) (p : ℕ) (t : Option ℕ) (q : ℕ) → (set_next p t f q).size ≡ (f q).size
unfolding set_next put
set_next-size f p t q = elim (Bool-cases (q == p)) [
  | inl e ↦ let same : q ≡ p = ground (arith, e) in rw (e, same) refl
  | inr e ↦ rw e refl
]

-- the last free block of a list, made to point elsewhere
redirected :
    (f : ℕ → MemBlock) (a : ℕ) (head : Option ℕ) (bs : List ℕ) (hi : ℕ) (t : Option ℕ)
    → Apart f (a + 32 + (f a).size) bs hi
    → (f a).is_free ≡ 1
    → head ≡ some a
    → Linked f t bs t
    → Linked (set_next a t f) head (a ∷ bs) t
unfolding Linked
redirected f a head bs hi t h u e l =
    let (fr, nx) = set_next-at f a t in
    let rest =
      Linked-Agree f (set_next a t f) t (a + 32 + (f a).size) bs hi t h
        (set_next-Agree f a t (a + 32 + (f a).size) hi (inl (omega arith))) l in
    inr (fr ∙ u, e, rw nx rest)

pub set_prev-Agree :
    (f : ℕ → MemBlock) (p t : Option ℕ) (lo hi : ℕ) → Agree f (set_prev p t f) lo hi
unfolding Agree set_prev put
set_prev-Agree f none t lo hi q a b = (refl, refl, refl)
set_prev-Agree f (some p) t lo hi q a b = elim (Bool-cases (q == p)) [
  | inl e ↦ let same : q ≡ p = ground (arith, e) in rw (e, same) (refl, refl, refl)
  | inr e ↦ rw e (refl, refl, refl)
]

-- What `prev` is for a list of blocks: the last free one among them, which may be made to point
-- elsewhere, or none if they are all in use.
unfoldable pub Redirects : (ℕ → MemBlock) → Option ℕ → ℕ → List ℕ → ℕ → Option ℕ → Option ℕ → Type 0
Redirects f head lo bs hi prev last =
    (last ≡ prev × ((t : Option ℕ) → Linked f t bs t))
    ⊎ (p : ℕ) × (last ≡ some p)
      × lo ≤ p
      × p < hi
      × ((t : Option ℕ) → Linked (set_next p t f) head bs t)

pub last_free-Redirects :
    (f : ℕ → MemBlock) (head : Option ℕ) (lo : ℕ) (bs : List ℕ) (hi : ℕ) (prev tail : Option ℕ)
    → Apart f lo bs hi
    → Linked f head bs tail
    → Redirects f head lo bs hi prev (last_free f prev bs)
unfolding Redirects Linked last_free Apart Agree
last_free-Redirects f head lo [] hi prev tail h l = inl (refl, λ t. refl)
last_free-Redirects f head lo (a ∷ bs) hi prev tail (p, h) (inl (u, l)) =
    let b = Apart-bound f (a + 32 + (f a).size) bs hi h in
    let e : ((f a).is_free == 0) ≡ true = ground arith in
    rw e (elim (last_free-Redirects f head (a + 32 + (f a).size) bs hi prev tail h l) [
      | inl (same, k) ↦ inl (same, λ t. inl (u, k t))
      | inr (r, found, q, w, k) ↦ inr (
        r,
        found,
        omega arith,
        w,
        λ t.
            let (_, fr, _) =
              set_next-Agree f r t a (a + 1) (inr (omega arith)) a (omega arith) (omega arith) in
            inl (fr ∙ u, k t),
      )
    ])
last_free-Redirects f head lo (a ∷ bs) hi prev tail (p, h) (inr (u, at_head, l)) =
    let b = Apart-bound f (a + 32 + (f a).size) bs hi h in
    let e : ((f a).is_free == 0) ≡ false = ground arith in
    rw e (elim (last_free-Redirects f (f a).next (a + 32 + (f a).size) bs hi (some a) tail h l) [
      | inl (same, k) ↦
          inr (a, same, p, omega arith, λ t. redirected f a head bs hi t h u at_head (k t))
      | inr (r, found, q, w, k) ↦ inr (
        r,
        found,
        omega arith,
        w,
        λ t.
            let (nx, fr, _) =
              set_next-Agree f r t a (a + 1) (inr (omega arith)) a (omega arith) (omega arith) in
            inr (fr ∙ u, at_head, rw nx (k t)),
      )
    ])

pub Agree-trans :
    (f g k : ℕ → MemBlock) (lo hi : ℕ) → Agree f g lo hi → Agree g k lo hi → Agree f k lo hi
unfolding Agree
Agree-trans f g k lo hi d e q a b =
    let (x, y, z) = d q a b in let (x', y', z') = e q a b in (x' ∙ x, y' ∙ y, z' ∙ z)

pub set_next-both :
    (f g : ℕ → MemBlock) (p : ℕ) (t : Option ℕ) (lo hi : ℕ)
    → Agree f g lo hi
    → Agree (set_next p t f) (set_next p t g) lo hi
unfolding Agree set_next put
set_next-both f g p t lo hi d q a b = elim (Bool-cases (q == p)) [
  | inl e ↦
      let same : q ≡ p = ground (arith, e) in
      let (x, y, z) = d q a b in
      let y' : (g p).is_free ≡ (f p).is_free = rw same at y in
      let z' : (g p).size ≡ (f p).size = rw same at z in rw e (refl, y', z')
  | inr e ↦ rw e (d q a b)
]

pub set_next-Apart :
    (f : ℕ → MemBlock) (p : ℕ) (t : Option ℕ) (lo : ℕ) (bs : List ℕ) (hi : ℕ)
    → Apart f lo bs hi
    → Apart (set_next p t f) lo bs hi
unfolding Apart
set_next-Apart f p t lo [] hi h = h
set_next-Apart f p t lo (b ∷ bs) hi (q, h) =
    (q, rw (set_next-size f p t b) (set_next-Apart f p t (b + 32 + (f b).size) bs hi h))

-- The heap is laid out in blocks, the free ones of which are on the free list.
unfoldable pub IsLaid : Manager → ℕ → List ℕ → Type 0
IsLaid m base bs =
    m.heap_base ≡ some base
    × base + m.heap_size < size_mod
    × Linked m.blocks m.free_list bs none
    × Apart m.blocks base bs (base + m.heap_size)
