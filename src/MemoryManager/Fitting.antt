-- ===== src/MemoryManager/Fitting.antt =====
-- The search of `mm_alloc` of myos-lib/src/mm.c.
use freelang_independent_ful.Prelude.{
  ℕ, zero, suc, ◌≤◌, ◌<◌, ◌≡◌, refl, ap, Bool, true, false, Option, none, some, List, [], ◌∷◌, ◌++◌,
  ◌==◌, if◌then◌else◌, length, arith, inl, inr, ◌⊎◌,
}
use freelang_independent_ful.MemoryManager.{MemBlock, Fit, no_fit, fit, fits, find_fit}
use freelang_independent_ful.MemoryManager.Layout.{Linked, last_free}

-- None of the blocks is free and large enough.
unfoldable pub NoFit : ℕ → (ℕ → MemBlock) → List ℕ → Type 0
NoFit size f [] = Unit
NoFit size f (a ∷ bs) = fits size (f a) ≡ false × NoFit size f bs

-- what the search finds: nothing, or the first block that fits
unfoldable pub Finds : ℕ → (ℕ → MemBlock) → Option ℕ → List ℕ → Fit → Type 0
Finds size f prev bs r =
    (r ≡ no_fit × NoFit size f bs)
    ⊎ (xs : List ℕ) × (a : ℕ) × (ys : List ℕ) × (bs ≡ xs ++ (a ∷ ys))
      × (r ≡ fit (last_free f prev xs) a)
      × NoFit size f xs
      × (f a).is_free ≡ 1
      × size ≤ (f a).size

-- one more block in front that does not fit
Finds-cons :
    (size : ℕ) (f : ℕ → MemBlock) (prev : Option ℕ) (b : ℕ) (bs : List ℕ) (r : Fit)
    → fits size (f b) ≡ false
    → Finds size f (if (f b).is_free == 0 then prev else some b) bs r
    → Finds size f prev (b ∷ bs) r
unfolding Finds NoFit last_free
Finds-cons size f prev b bs r e (inl (u, v)) = inl (u, (e, v))
Finds-cons size f prev b bs r e (inr (xs, a, ys, s, u, v, w, x)) =
    inr (b ∷ xs, a, ys, ap (λ l. b ∷ l) s, u, (e, v), w, x)

in_use : (size : ℕ) (b : MemBlock) → b.is_free ≡ 0 → fits size b ≡ false
unfolding fits
in_use size b u = ground arith

large_enough : (size : ℕ) (b : MemBlock) → fits size b ≡ true → size ≤ b.size
unfolding fits
large_enough size b e = ground arith

no_blocks : (size : ℕ) (f : ℕ → MemBlock) (prev : Option ℕ) → Finds size f prev [] no_fit
unfolding Finds NoFit
no_blocks size f prev = inl (refl, tt)

Finds-free :
    (size : ℕ) (f : ℕ → MemBlock) (prev : Option ℕ) (a : ℕ) (bs : List ℕ) (r : Fit) (t : Bool)
    → (f a).is_free ≡ 1
    → fits size (f a) ≡ t
    → Finds size f (some a) bs r
    → Finds size f prev (a ∷ bs) (if t then fit prev a else r)
unfolding Finds NoFit last_free
Finds-free size f prev a bs r true u e h =
    inr ([], a, bs, refl, refl, tt, u, large_enough size (f a) e)
Finds-free size f prev a bs r false u e h =
    let t : ((f a).is_free == 0) ≡ false = ground arith in Finds-cons size f prev a bs r e (rw t h)

pub find_fit-Finds :
    (n : ℕ) (size : ℕ) (f : ℕ → MemBlock) (prev head : Option ℕ) (bs : List ℕ)
    → Linked f head bs none
    → length bs < n
    → Finds size f prev bs (find_fit n prev head size f)
unfolding find_fit Linked
find_fit-Finds zero size f prev head bs l h = absurd (omega arith)
find_fit-Finds (suc n) size f prev head [] l h = rw l (no_blocks size f prev)
find_fit-Finds (suc n) size f prev head (a ∷ bs) (inl (u, l)) h =
    let t : ((f a).is_free == 0) ≡ true = ground arith in
    let ih : Finds size f prev bs (find_fit (suc n) prev head size f) =
      find_fit-Finds (suc n) size f prev head bs l (omega arith) in
    Finds-cons size f prev a bs (find_fit (suc n) prev head size f) (in_use size (f a) u) (rw t ih)
find_fit-Finds (suc n) size f prev head (a ∷ bs) (inr (u, at_head, l)) h = rw at_head (
    Finds-free size f prev a bs (find_fit n (some a) (f a).next size f) (fits size (f a)) u refl
      (find_fit-Finds n size f (some a) (f a).next bs l (omega arith)))
