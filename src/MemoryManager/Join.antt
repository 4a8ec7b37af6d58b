-- ===== src/MemoryManager/Join.antt =====
-- The two mergings of `mm_free` of myos-lib/src/mm.c, with the block behind and with the one in front.
use freelang_independent_ful.Prelude.{
  ℕ, ◌+◌, ◌<◌, ◌≡◌, ◌≢◌, refl, ap, ◌∙◌, true, false, Option, none, some, List, [], ◌∷◌, ◌++◌, ◌==◌,
  arith, inl, inr, ◌⊎◌, Bool-cases,
}
use freelang_independent_ful.Memory.{size_mod}
use freelang_independent_ful.MemoryManager.{MemBlock, behind, merge, merge_after, merge_before}
use freelang_independent_ful.MemoryManager.Layout.{
  Apart, Linked, Apart-bound, Apart-split, last_free,
}
use freelang_independent_ful.MemoryManager.Alloc.{behind-plain}
use freelang_independent_ful.MemoryManager.Place.{Lies}
use freelang_independent_ful.MemoryManager.Frame.{Alike, Alike-equal}
use freelang_independent_ful.MemoryManager.Merge.{merge_lem, merge-Alike, merge-is_free, first_here}
use freelang_independent_ful.MemoryManager.Touch.{NoneBegins, NoneEnds, none_begins, none_ends}

-- From the list `ys` behind a block that ends at `e`, the free block that begins there is taken off,
-- and its bytes end at `e'`; or there is none.
unfoldable pub IsShortened : (ℕ → MemBlock) → ℕ → List ℕ → List ℕ → ℕ → Type 0
IsShortened f e ys zs e' =
    (zs ≡ ys × e' ≡ e × NoneBegins f e ys)
    ⊎ (ys ≡ e ∷ zs × (f e).is_free ≡ 1 × e' ≡ e + 32 + (f e).size)

-- Between two lists of blocks there is a free block `p`, which ends at `e`.
unfoldable pub Covers : ℕ → List ℕ → ℕ → List ℕ → ℕ → ℕ → Option ℕ × (ℕ → MemBlock) → Type 0
Covers lo xs p ys hi e (head, f) =
    Lies lo (xs ++ (p ∷ ys)) hi (head, f) × (f p).is_free ≡ 1 × p + 32 + (f p).size ≡ e

not_merged : (f : ℕ → MemBlock) (a c : ℕ) → (behind a (f a).size == c) ≡ false → merge a c f ≡ f
unfolding merge
not_merged f a c e = rw e refl

pub merge_after-Alike :
    (mid : Option ℕ) (a : ℕ) (f : ℕ → MemBlock) (q : ℕ)
    → q ≢ a
    → Alike (f q) (merge_after mid a f q)
unfolding merge_after
merge_after-Alike none a f q d = Alike-equal (f q) (f q) refl
merge_after-Alike (some c) a f q d = merge-Alike a c f q d

-- `g` are the headers with the block `a` on the free list.
pub merge_after-Covers :
    (f g : ℕ → MemBlock) (head mid : Option ℕ) (lo : ℕ) (xs : List ℕ) (a : ℕ) (ys : List ℕ)
    (hi e : ℕ)
    → hi < size_mod
    → Linked f mid ys none
    → Apart f e ys hi
    → ((q : ℕ) → q ≢ a → Alike (f q) (g q))
    → Lies lo (xs ++ (a ∷ ys)) hi (head, g)
    → (g a).is_free ≡ 1
    → a + 32 + (g a).size ≡ e
    → (zs : List ℕ) × (e' : ℕ) × IsShortened f e ys zs e'
      × Covers lo xs a zs hi e' (head, merge_after mid a g)
unfolding IsShortened Covers merge_after Alike
merge_after-Covers f g head none lo xs a ys hi e bound l h same lies u end = (
  ys,
  e,
  inl (
    refl,
    refl,
    none_begins f none e e ys hi l h (omega arith) (λ s. absurd (ground (arith, s))),
  ),
  (lies, u, end),
)
merge_after-Covers f g head (some c) lo xs a ys hi e bound l h same lies u end =
    let w = Apart-bound f e ys hi h in
    let place = behind-plain a (g a).size (omega arith) in
    elim (Bool-cases (behind a (g a).size == c)) [
      | inr off ↦
          let none_there =
            none_begins f (some c) e e ys hi l h (omega arith)
              (λ s. ground (arith, off, place, end, s)) in
          rw (not_merged g a c off) (ys, e, inl (refl, refl, none_there), (lies, u, end))
      | inl on ↦
          let here : c ≡ e = ground (arith, on, place) in
          let (zs, spelt, v) = first_here f c e ys hi l h here in
          let lies' : Lies lo (xs ++ (a ∷ c ∷ zs)) hi (head, g) = rw spelt at lies in
          let (_, fr, sz) = same c (λ s. omega arith) in
          let (merged, size) =
            merge_lem g head lo xs a c zs hi bound lies' u (fr ∙ v) (omega arith) in
          (
            zs,
            c + 32 + (f c).size,
            inr (spelt ∙ ap (λ t. t ∷ zs) here, rw⁻¹ here v, ap (λ t. t + 32 + (f t).size) here),
            (merged, merge-is_free a c g ∙ u, omega (arith, size, sz)),
          )
    ]

-- the last free block is one of the list, and is free
last_free-split :
    (f : ℕ → MemBlock) (prev : Option ℕ) (xs : List ℕ) (p : ℕ) (head tail : Option ℕ)
    → Linked f head xs tail
    → last_free f prev xs ≡ some p
    → (prev ≡ some p) ⊎ (us : List ℕ) × (vs : List ℕ) × (xs ≡ us ++ (p ∷ vs)) × (f p).is_free ≡ 1
unfolding last_free Linked
last_free-split f prev [] p head tail l e = inl e
last_free-split f prev (x ∷ xs) p head tail (inl (u, l)) e =
    let t : ((f x).is_free == 0) ≡ true = ground arith in
    let e' : last_free f prev xs ≡ some p = rw t at e in
    elim (last_free-split f prev xs p head tail l e') [
      | inl s ↦ inl s
      | inr (us, vs, s, v) ↦ inr (x ∷ us, vs, ap (λ r. x ∷ r) s, v)
    ]
last_free-split f prev (x ∷ xs) p head tail (inr (u, _, l)) e =
    let t : ((f x).is_free == 0) ≡ false = ground arith in
    let e' : last_free f (some x) xs ≡ some p = rw t at e in
    elim (last_free-split f (some x) xs p (f x).next tail l e') [
      | inl s ↦
          let same : x ≡ p = ground (arith, s) in inr ([], xs, ap (λ y. y ∷ xs) same, rw same at u)
      | inr (us, vs, s, v) ↦ inr (x ∷ us, vs, ap (λ r. x ∷ r) s, v)
    ]

-- nothing stands between two blocks that touch
nothing_between :
    (f : ℕ → MemBlock) (lo : ℕ) (us : List ℕ) (p : ℕ) (vs : List ℕ) (a : ℕ)
    → Apart f lo (us ++ (p ∷ vs)) a
    → p + 32 + (f p).size ≡ a
    → vs ≡ []
unfolding Apart
nothing_between f lo us p [] a h e = refl
nothing_between f lo us p (v ∷ vs) a h e =
    let (below, (q, above)) = Apart-split f lo us p (v ∷ vs) a h in
    let w = Apart-bound f (v + 32 + (f v).size) vs a above in absurd (omega arith)

append_snoc : (us : List ℕ) (p : ℕ) (zs : List ℕ) → (us ++ (p ∷ [])) ++ zs ≡ us ++ (p ∷ zs)
append_snoc [] p zs = refl
append_snoc (u ∷ us) p zs = ap (λ r. u ∷ r) (append_snoc us p zs)

-- From the list `xs` in front of the block `a`, the free block `p` that ends there is taken off; or
-- there is none, and `p` is `a`.
unfoldable pub IsJoined : (ℕ → MemBlock) → List ℕ → ℕ → List ℕ → ℕ → Type 0
IsJoined f xs a us p =
    (us ≡ xs × p ≡ a × NoneEnds f a xs)
    ⊎ (xs ≡ us ++ (p ∷ []) × (f p).is_free ≡ 1 × p + 32 + (f p).size ≡ a)

-- the block in front, right before the block that is put back, takes it in
last_of :
    (k : ℕ → MemBlock) (head : Option ℕ) (lo : ℕ) (us : List ℕ) (p : ℕ) (vs : List ℕ) (a : ℕ)
    (zs : List ℕ) (hi : ℕ)
    → Lies lo ((us ++ (p ∷ vs)) ++ (a ∷ zs)) hi (head, k)
    → p + 32 + (k p).size ≡ a
    → vs ≡ []
unfolding Lies
last_of k head lo us p vs a zs hi (l, h) e =
    let (below, _) = Apart-split k lo (us ++ (p ∷ vs)) a zs hi h in
    nothing_between k lo us p vs a below e

joined :
    (k : ℕ → MemBlock) (head : Option ℕ) (lo : ℕ) (us : List ℕ) (p a : ℕ) (vs zs : List ℕ)
    (hi e : ℕ)
    → hi < size_mod
    → Lies lo ((us ++ (p ∷ vs)) ++ (a ∷ zs)) hi (head, k)
    → (k p).is_free ≡ 1
    → (k a).is_free ≡ 1
    → a + 32 + (k a).size ≡ e
    → p + 32 + (k p).size ≡ a
    → (vs ≡ []) × Covers lo us p zs hi e (head, merge p a k)
unfolding Covers
joined k head lo us p a vs zs hi e bound lies v u end touch =
    let last = last_of k head lo us p vs a zs hi lies touch in
    let lies' : Lies lo ((us ++ (p ∷ [])) ++ (a ∷ zs)) hi (head, k) = rw last at lies in
    let lies'' : Lies lo (us ++ (p ∷ a ∷ zs)) hi (head, k) =
      rw (append_snoc us p (a ∷ zs)) at lies' in
    let (merged, total) = merge_lem k head lo us p a zs hi bound lies'' v u touch in
    (last, (merged, merge-is_free p a k ∙ v, omega (arith, total)))

-- `k` are the headers with the block `a` on the free list, which may have taken in the next.
pub merge_before-Covers :
    (f k : ℕ → MemBlock) (head₀ mid₀ head last : Option ℕ) (lo : ℕ) (xs : List ℕ) (a : ℕ)
    (zs : List ℕ) (hi e : ℕ)
    → hi < size_mod
    → Linked f head₀ xs mid₀
    → Apart f lo xs a
    → last_free f none xs ≡ last
    → ((q : ℕ) → q ≢ a → Alike (f q) (k q))
    → Lies lo (xs ++ (a ∷ zs)) hi (head, k)
    → (k a).is_free ≡ 1
    → a + 32 + (k a).size ≡ e
    → (us : List ℕ) × (p : ℕ) × IsJoined f xs a us p
      × Covers lo us p zs hi e (head, merge_before last a k)
      × ((q : ℕ) → q ≢ p → Alike (k q) (merge_before last a k q))
unfolding merge_before Covers IsJoined Lies Alike
merge_before-Covers f k head₀ mid₀ head none lo xs a zs hi e bound l h r same lies u end = (
  xs,
  a,
  inl (refl, refl, none_ends f head₀ mid₀ none lo xs a l h (λ p s. absurd (ground (arith, r, s)))),
  (lies, u, end),
  λ q d. Alike-equal (k q) (k q) refl,
)
merge_before-Covers f k head₀ mid₀ head (some p) lo xs a zs hi e bound l h r same lies u end =
    elim (last_free-split f none xs p head₀ mid₀ l r) [
      | inl n ↦ absurd (ground (arith, n))
      | inr (us, vs, spelt, v) ↦
          let lies' : Lies lo ((us ++ (p ∷ vs)) ++ (a ∷ zs)) hi (head, k) = rw spelt at lies in
          let (below, above) = Apart-split k lo (us ++ (p ∷ vs)) a zs hi lies'.1 in
          let (_, between) = Apart-split k lo us p vs a below in
          let w = Apart-bound k (p + 32 + (k p).size) vs a between in
          let w' = Apart-bound k (a + 32 + (k a).size) zs hi above in
          let (_, fr, sz) = same p (λ s. omega arith) in
          let place = behind-plain p (k p).size (omega arith) in
          elim (Bool-cases (behind p (k p).size == a)) [
            | inr off ↦
                let none_there =
                  none_ends f head₀ mid₀ none lo xs a l h
                    (λ q s t. ground (arith, off, place, sz, r, s, t)) in
                rw (not_merged k p a off) (
                  xs,
                  a,
                  inl (refl, refl, none_there),
                  (lies, u, end),
                  λ q d. Alike-equal (k q) (k q) refl,
                )
            | inl on ↦
                let touch : p + 32 + (k p).size ≡ a = ground (arith, on, place) in
                let (last, covers) =
                  joined k head lo us p a vs zs hi e bound lies' (fr ∙ v) u end touch in
                let spelt' : xs ≡ us ++ (p ∷ []) = rw last at spelt in
                (
                  us,
                  p,
                  inr (spelt', v, omega (arith, sz, touch)),
                  covers,
                  λ q d. merge-Alike p a k q d,
                )
          ]
    ]
