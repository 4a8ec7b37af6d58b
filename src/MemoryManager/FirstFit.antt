-- ===== src/MemoryManager/FirstFit.antt =====
-- `mm_alloc` of myos-lib/src/mm.c as a whole: first fit, on a heap that is laid out in blocks.
use freelang_independent_ful.Prelude.{
  ℕ, ◌+◌, ◌*◌, ◌/◌, ◌≤◌, ◌<◌, ◌≡◌, refl, ap, ◌∙◌, false, Option, none, some, List, ◌∷◌, ◌++◌, ◌==◌,
  arith, inl, inr,
}
use freelang_independent_ful.Memory.{size_mod, add_size, sub_size}
use freelang_independent_ful.MemoryManager.{
  MemBlock, Manager, rounds, fit, find_fit, taken, align_up, mm_alloc,
}
use freelang_independent_ful.MemoryManager.Layout.{
  Linked, Apart-bound, Apart-split, Linked-split, last_free, last_free-Redirects, IsLaid,
}
use freelang_independent_ful.MemoryManager.Fitting.{NoFit}
use freelang_independent_ful.MemoryManager.Alloc.{
  carved, carved-Agree, carved-Taken, left_over, Settled, unlinked-Settled,
}
use freelang_independent_ful.MemoryManager.Frame.{Shortens, taken-Shortens}

-- The first block that fits, behind `xs` and in front of `ys`, is taken, and its address is the result.
unfoldable pub Takes : ℕ → Manager → ℕ → List ℕ → ℕ → List ℕ → Option (Option ℕ × Manager) → Type 0
Takes size m base xs a ys r =
    NoFit size m.blocks xs
    × (m.blocks a).is_free ≡ 1
    × size ≤ (m.blocks a).size
    × (m' : Manager) × (r ≡ some (some (a + 32), m'))
    × IsLaid m' base (xs ++ (a ∷ left_over a size m.blocks ys))
    × (m'.blocks a).is_free ≡ 0
    × (m'.blocks a).size ≡ size
    × Shortens a size m.blocks m'.blocks

free_head :
    (f : ℕ → MemBlock) (head : Option ℕ) (a : ℕ) (ys : List ℕ)
    → (f a).is_free ≡ 1
    → Linked f head (a ∷ ys) none
    → Linked f (f a).next ys none
unfolding Linked
free_head f head a ys u (inl (v, l)) = absurd (omega arith)
free_head f head a ys u (inr (_, _, l)) = l

taken-IsLaid :
    (size : ℕ) (m : Manager) (base : ℕ) (xs : List ℕ) (a : ℕ) (ys : List ℕ)
    → IsLaid m base (xs ++ (a ∷ ys))
    → (m.blocks a).is_free ≡ 1
    → size ≤ (m.blocks a).size
    → let m' = taken (last_free m.blocks none xs) a size m in
      IsLaid m' base (xs ++ (a ∷ left_over a size m.blocks ys))
      × (m'.blocks a).is_free ≡ 0
      × (m'.blocks a).size ≡ size
unfolding IsLaid taken carved Settled
taken-IsLaid size m base xs a ys (e, bound, l, h) u k =
    let f = m.blocks in
    let hi : ℕ = base + m.heap_size in
    let (below, above) = Apart-split f base xs a ys hi h in
    let (mid, before, after) = Linked-split f m.free_list xs (a ∷ ys) none l in
    let w = Apart-bound f (a + 32 + (f a).size) ys hi above in
    let behind_a = carved-Taken a size f ys hi bound k above (free_head f mid a ys u after) in
    let (l', h', fr, sz) =
      unlinked-Settled base a size f (carved a size f) m.free_list (last_free f none xs) xs
        (left_over a size f ys) hi below (carved-Agree a size f base hi bound (omega arith) k)
        (last_free-Redirects f m.free_list base xs a none mid below before) behind_a in
    ((e, bound, l', h'), fr, sz)

pub aligned : (wanted : ℕ) → wanted + 16 ≤ size_mod → align_up wanted 16 ≡ (wanted + 15) / 16 * 16
unfolding align_up
aligned wanted q =
    let e : sub_size (add_size wanted 16) 1 ≡ wanted + 15 = omega arith in ap (λ t. t / 16 * 16) e

pub alloc_some :
    (malloc : ℕ → Option ℕ) (wanted : ℕ) (m : Manager) (base : ℕ) (prev : Option ℕ) (a : ℕ)
    → m.heap_base ≡ some base
    → 0 < wanted
    → find_fit (rounds m) none m.free_list (align_up wanted 16) m.blocks ≡ fit prev a
    → mm_alloc malloc wanted m ≡ some (some (add_size a 32), taken prev a (align_up wanted 16) m)
unfolding mm_alloc
alloc_some malloc wanted m base prev a e p r =
    let nonzero : (wanted == 0) ≡ false = ground arith in simp (nonzero, e, r) refl

pub taken-Takes :
    (size : ℕ) (m : Manager) (base : ℕ) (xs : List ℕ) (a : ℕ) (ys : List ℕ)
    (r : Option (Option ℕ × Manager))
    → IsLaid m base (xs ++ (a ∷ ys))
    → NoFit size m.blocks xs
    → (m.blocks a).is_free ≡ 1
    → size ≤ (m.blocks a).size
    → r ≡ some (some (add_size a 32), taken (last_free m.blocks none xs) a size m)
    → Takes size m base xs a ys r
unfolding Takes IsLaid
taken-Takes size m base xs a ys r laid before u k e =
    let (_, bound, _, h) = laid in
    let (_, above) = Apart-split m.blocks base xs a ys (base + m.heap_size) h in
    let w = Apart-bound m.blocks (a + 32 + (m.blocks a).size) ys (base + m.heap_size) above in
    let plain : add_size a 32 ≡ a + 32 = omega arith in
    let (laid', fr, sz) = taken-IsLaid size m base xs a ys laid u k in
    let m' = taken (last_free m.blocks none xs) a size m in
    let shortens = taken-Shortens (last_free m.blocks none xs) a size m k (omega arith) in
    (before, u, k, m', e ∙ ap (λ t. some (some t, m')) plain, laid', fr, sz, shortens)
