-- ===== src/MemoryManager/Place.antt =====
-- Where `mm_free` of myos-lib/src/mm.c puts a block on the free list.
use freelang_independent_ful.Prelude.{
  ℕ, zero, suc, ◌+◌, ◌≤◌, ◌<◌, ◌≡◌, refl, ap, ◌∙◌, true, false, Option, none, some, List, [], ◌∷◌,
  ◌++◌, ltb, ◌==◌, length, arith, inl, inr, ◌⊎◌,
}
use freelang_independent_ful.MemoryManager.{MemBlock, put, set_prev, set_next, find_place, linked}
use freelang_independent_ful.MemoryManager.Layout.{
  Apart, Linked, Agree, Apart-bound, Apart-Agree, Linked-Agree, Apart-join, Linked-join, last_free,
  set_prev-Agree, Redirects, Agree-trans, set_next-Agree, set_next-both, set_next-Apart,
}
use freelang_independent_ful.MemoryManager.Alloc.{put-at, put-off}

-- the first free block of a list is not in front of the list
pub first_free-le :
    (f : ℕ → MemBlock) (c lo : ℕ) (bs : List ℕ) (hi : ℕ)
    → Linked f (some c) bs none
    → Apart f lo bs hi
    → lo ≤ c
unfolding Linked Apart
first_free-le f c lo [] hi l h = absurd (ground arith)
first_free-le f c lo (b ∷ bs) hi (inl (u, l)) (p, h) =
    let ih = first_free-le f c (b + 32 + (f b).size) bs hi l h in omega arith
first_free-le f c lo (b ∷ bs) hi (inr (u, e, l)) (p, h) = ground (arith, e)

-- the end of the search, at the first free block behind the one that is put back
place_here :
    (n : ℕ) (prev mid : Option ℕ) (a lo : ℕ) (ys : List ℕ) (hi : ℕ) (f : ℕ → MemBlock)
    → Linked f mid ys none
    → Apart f lo ys hi
    → a ≤ lo
    → find_place (suc n) prev mid a f ≡ some (prev, mid)
unfolding find_place
place_here n prev none a lo ys hi f l h p = refl
place_here n prev (some c) a lo ys hi f l h p =
    let q = first_free-le f c lo ys hi l h in let e : ltb c a ≡ false = ground arith in rw e refl

pub find_place_lem :
    (n : ℕ) (prev head mid : Option ℕ) (lo : ℕ) (xs : List ℕ) (a lo' : ℕ) (ys : List ℕ) (hi : ℕ)
    (f : ℕ → MemBlock)
    → length xs < n
    → Linked f head xs mid
    → Apart f lo xs a
    → Linked f mid ys none
    → Apart f lo' ys hi
    → a ≤ lo'
    → find_place n prev head a f ≡ some (last_free f prev xs, mid)
unfolding find_place Linked Apart last_free
find_place_lem zero prev head mid lo xs a lo' ys hi f small l h l' h' p = absurd (omega arith)
find_place_lem (suc n) prev head mid lo [] a lo' ys hi f small l h l' h' p =
    rw l (place_here n prev mid a lo' ys hi f l' h' p)
find_place_lem (suc n) prev head mid lo (x ∷ xs) a lo' ys hi f small (inl (u, l)) (q, h) l' h' p =
    let e : ((f x).is_free == 0) ≡ true = ground arith in
    let ih =
      find_place_lem (suc n) prev head mid (x + 32 + (f x).size) xs a lo' ys hi f (omega arith) l h
        l' h' p in
    rw e ih
find_place_lem (suc n) prev head mid lo (x ∷ xs) a lo' ys hi f small (inr (u, at_head, l)) (q, h) l'
      h' p =
    let b = Apart-bound f (x + 32 + (f x).size) xs a h in
    let e : ((f x).is_free == 0) ≡ false = ground arith in
    let t : ltb x a ≡ true = ground arith in
    let ih =
      find_place_lem n (some x) (f x).next mid (x + 32 + (f x).size) xs a lo' ys hi f (omega arith)
        l h l' h' p in
    rw (at_head, e, t) ih

-- the blocks, with the free list from the head, laid out
unfoldable pub Lies : ℕ → List ℕ → ℕ → Option ℕ × (ℕ → MemBlock) → Type 0
Lies lo bs hi (head, k) = Linked k head bs none × Apart k lo bs hi

-- the block put back: `k` has it as a free block in front of `mid`
pub relay :
    (f k : ℕ → MemBlock) (head mid : Option ℕ) (lo : ℕ) (xs : List ℕ) (a : ℕ) (ys : List ℕ) (hi : ℕ)
    → Linked k head xs (some a)
    → Apart k lo xs a
    → Linked f mid ys none
    → Apart f (a + 32 + (f a).size) ys hi
    → (k a).is_free ≡ 1
    → (k a).next ≡ mid
    → (k a).size ≡ (f a).size
    → Agree f k (a + 32 + (f a).size) hi
    → Lies lo (xs ++ (a ∷ ys)) hi (head, k)
unfolding Lies Linked
relay f k head mid lo xs a ys hi before below l h fr nx sz agree =
    let after = Linked-Agree f k mid (a + 32 + (f a).size) ys hi none h agree l in
    (
      Linked-join k head xs (some a) (a ∷ ys) none before (inr (fr, refl, rw nx after)),
      Apart-join k lo xs a ys hi below
          (rw sz (Apart-Agree f k (a + 32 + (f a).size) ys hi h agree)),
    )

pub put-Agree :
    (f : ℕ → MemBlock) (a : ℕ) (b : MemBlock) (lo hi : ℕ)
    → (a < lo ⊎ hi ≤ a)
    → Agree f (put a b f) lo hi
unfolding Agree
put-Agree f a b lo hi o q p r = rw (put-off a b f q (λ s. ground (arith, o))) (refl, refl, refl)

pub Agree-at :
    (f g : ℕ → MemBlock) (q : ℕ)
    → Agree f g q (q + 1)
    → (g q).next ≡ (f q).next × (g q).is_free ≡ (f q).is_free × (g q).size ≡ (f q).size
unfolding Agree
Agree-at f g q e = e q (omega arith) (omega arith)

pub set_prev-fields :
    (f : ℕ → MemBlock) (p t : Option ℕ) (q : ℕ)
    → (set_prev p t f q).next ≡ (f q).next
      × (set_prev p t f q).is_free ≡ (f q).is_free
      × (set_prev p t f q).size ≡ (f q).size
set_prev-fields f p t q = Agree-at f (set_prev p t f) q (set_prev-Agree f p t q (q + 1))

pub linked-Lies :
    (f : ℕ → MemBlock) (head mid last : Option ℕ) (lo : ℕ) (xs : List ℕ) (a : ℕ) (ys : List ℕ)
    (hi : ℕ)
    → Apart f lo xs a
    → Redirects f head lo xs a none last
    → Linked f mid ys none
    → Apart f (a + 32 + (f a).size) ys hi
    → Lies lo (xs ++ (a ∷ ys)) hi (linked last mid a head f)
unfolding Redirects linked
linked-Lies f head mid last lo xs a ys hi h (inl (e, r)) l h' =
    let b = record (f a) { is_free = 1; next = mid; prev = none } in
    let g = put a b f in
    let k = set_prev mid (some a) g in
    let same =
      Agree-trans f g k lo a (put-Agree f a b lo a (inr (omega arith)))
        (set_prev-Agree g mid (some a) lo a) in
    let above =
      Agree-trans f g k (a + 32 + (f a).size) hi
        (put-Agree f a b (a + 32 + (f a).size) hi (inl (omega arith)))
        (set_prev-Agree g mid (some a) (a + 32 + (f a).size) hi) in
    let (nx, fr, sz) = set_prev-fields g mid (some a) a in
    let w = put-at a b f in
    rw e (
      relay f k (some a) mid lo xs a ys hi
        (Linked-Agree f k (some a) lo xs a (some a) h same (r (some a)))
        (Apart-Agree f k lo xs a h same) l h' (fr ∙ ap (λ t. t.is_free) w) (nx ∙ ap (λ t. t.next) w)
        (sz ∙ ap (λ t. t.size) w) above)
linked-Lies f head mid last lo xs a ys hi h (inr (p, e, q, below, r)) l h' =
    let b = record (f a) { is_free = 1; next = mid; prev = some p } in
    let g = put a b f in
    let n = set_next p (some a) g in
    let k = set_prev mid (some a) n in
    let same =
      Agree-trans (set_next p (some a) f) n k lo a
        (set_next-both f g p (some a) lo a (put-Agree f a b lo a (inr (omega arith))))
        (set_prev-Agree n mid (some a) lo a) in
    let h'' = set_next-Apart f p (some a) lo xs a h in
    let above =
      Agree-trans f g k (a + 32 + (f a).size) hi
        (put-Agree f a b (a + 32 + (f a).size) hi (inl (omega arith)))
        (Agree-trans g n k (a + 32 + (f a).size) hi
          (set_next-Agree g p (some a) (a + 32 + (f a).size) hi (inl (omega arith)))
          (set_prev-Agree n mid (some a) (a + 32 + (f a).size) hi)) in
    let (nx, fr, sz) = set_prev-fields n mid (some a) a in
    let (nx', fr', sz') = Agree-at g n a (set_next-Agree g p (some a) a (a + 1) (inl below)) in
    let w = put-at a b f in
    rw e (
      relay f k head mid lo xs a ys hi
        (Linked-Agree (set_next p (some a) f) k head lo xs a (some a) h'' same (r (some a)))
        (Apart-Agree (set_next p (some a) f) k lo xs a h'' same) l h'
        (fr ∙ fr' ∙ ap (λ t. t.is_free) w) (nx ∙ nx' ∙ ap (λ t. t.next) w)
        (sz ∙ sz' ∙ ap (λ t. t.size) w) above)
