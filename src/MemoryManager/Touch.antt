-- ===== src/MemoryManager/Touch.antt =====
-- Lists of blocks of which no free one touches a block that `mm_free` of myos-lib/src/mm.c gives back.
use freelang_independent_ful.Prelude.{
  ℕ, ◌+◌, ◌<◌, ◌≤◌, ◌≡◌, ◌≢◌, refl, ap, ◌∙◌, true, false, Option, none, some, List, [], ◌∷◌, ◌==◌,
  arith, inl, inr, ◌⊎◌,
}
use freelang_independent_ful.MemoryManager.{MemBlock}
use freelang_independent_ful.MemoryManager.Layout.{Apart, Linked, Apart-bound, last_free}

-- No free block of the list begins at an address.
unfoldable pub NoneBegins : (ℕ → MemBlock) → ℕ → List ℕ → Type 0
NoneBegins f e [] = Unit
NoneBegins f e (y ∷ ys) = ((f y).is_free ≡ 0 ⊎ y ≢ e) × NoneBegins f e ys

-- No free block of the list ends at an address.
unfoldable pub NoneEnds : (ℕ → MemBlock) → ℕ → List ℕ → Type 0
NoneEnds f e [] = Unit
NoneEnds f e (x ∷ xs) = ((f x).is_free ≡ 0 ⊎ x + 32 + (f x).size ≢ e) × NoneEnds f e xs

begin_later :
    (f : ℕ → MemBlock) (e lo : ℕ) (ys : List ℕ) (hi : ℕ)
    → Apart f lo ys hi
    → e < lo
    → NoneBegins f e ys
unfolding Apart NoneBegins
begin_later f e lo [] hi h p = tt
begin_later f e lo (y ∷ ys) hi (q, h) p =
    (inr (λ s. omega arith), begin_later f e (y + 32 + (f y).size) ys hi h (omega arith))

pub none_begins :
    (f : ℕ → MemBlock) (mid : Option ℕ) (e lo : ℕ) (ys : List ℕ) (hi : ℕ)
    → Linked f mid ys none
    → Apart f lo ys hi
    → e ≤ lo
    → mid ≢ some e
    → NoneBegins f e ys
unfolding Apart Linked NoneBegins
none_begins f mid e lo [] hi l h p d = tt
none_begins f mid e lo (y ∷ ys) hi (inl (u, l)) (q, h) p d =
    (inl u, none_begins f mid e (y + 32 + (f y).size) ys hi l h (omega arith) d)
none_begins f mid e lo (y ∷ ys) hi (inr (u, at_y, l)) (q, h) p d =
    (inr (λ s. d (at_y ∙ ap some s)), begin_later f e (y + 32 + (f y).size) ys hi h (omega arith))

pub none_ends :
    (f : ℕ → MemBlock) (head tail prev : Option ℕ) (lo : ℕ) (xs : List ℕ) (a : ℕ)
    → Linked f head xs tail
    → Apart f lo xs a
    → ((p : ℕ) → last_free f prev xs ≡ some p → p + 32 + (f p).size ≢ a)
    → NoneEnds f a xs
unfolding Apart Linked NoneEnds last_free
none_ends f head tail prev lo [] a l h d = tt
none_ends f head tail prev lo (x ∷ xs) a (inl (u, l)) (q, h) d =
    let t : ((f x).is_free == 0) ≡ true = ground arith in
    (inl u, none_ends f head tail prev (x + 32 + (f x).size) xs a l h (rw t at d))
none_ends f head tail prev lo (x ∷ []) a (inr (u, _, l)) (q, h) d =
    let t : ((f x).is_free == 0) ≡ false = ground arith in (inr ((rw t at d) x refl), tt)
none_ends f head tail prev lo (x ∷ y ∷ xs) a (inr (u, _, l)) (q, h) d =
    let t : ((f x).is_free == 0) ≡ false = ground arith in
    let w = Apart-bound f (x + 32 + (f x).size) (y ∷ xs) a h in
    (
      inr (λ s. omega arith),
      none_ends f (f x).next tail (some x) (x + 32 + (f x).size) (y ∷ xs) a l h (rw t at d),
    )
