-- ===== src/MemoryManager/Merge.antt =====
-- The merging of neighbours in `mm_free` of myos-lib/src/mm.c.
use freelang_independent_ful.Prelude.{
  ℕ, ◌+◌, ◌≢◌, ◌<◌, ◌≡◌, refl, ap, ◌∙◌, true, Option, none, some, List, [], ◌∷◌, ◌++◌, ◌==◌, arith,
  inl, inr, Bool-cases,
}
use freelang_independent_ful.Memory.{size_mod, add_size}
use freelang_independent_ful.MemoryManager.{
  MemBlock, metadata_size, put, set_prev, set_next, behind, merge, linked,
}
use freelang_independent_ful.MemoryManager.Layout.{
  Apart, Linked, Apart-bound, Apart-Agree, Linked-Agree, Apart-split, Linked-split, set_prev-Agree,
  Agree-trans,
}
use freelang_independent_ful.MemoryManager.Alloc.{put-at, put-off, behind-plain}
use freelang_independent_ful.MemoryManager.Frame.{
  Alike, Alike-trans, Alike-equal, set_next-Alike, set_prev-Alike,
}
use freelang_independent_ful.MemoryManager.Place.{
  first_free-le, Lies, relay, put-Agree, set_prev-fields,
}

-- what is known of two free neighbours
two_free :
    (f : ℕ → MemBlock) (mid : Option ℕ) (p c : ℕ) (ys : List ℕ)
    → (f p).is_free ≡ 1
    → (f c).is_free ≡ 1
    → Linked f mid (p ∷ c ∷ ys) none
    → mid ≡ some p × Linked f (f c).next ys none
unfolding Linked
two_free f mid p c ys u v (inl (w, _)) = absurd (omega arith)
two_free f mid p c ys u v (inr (_, e, inl (w, _))) = absurd (omega arith)
two_free f mid p c ys u v (inr (_, e, inr (_, _, l))) = (e, l)

-- One free block takes in the next, which stands right behind it.
pub merge_lem :
    (f : ℕ → MemBlock) (head : Option ℕ) (lo : ℕ) (xs : List ℕ) (p c : ℕ) (ys : List ℕ) (hi : ℕ)
    → hi < size_mod
    → Lies lo (xs ++ (p ∷ c ∷ ys)) hi (head, f)
    → (f p).is_free ≡ 1
    → (f c).is_free ≡ 1
    → p + 32 + (f p).size ≡ c
    → Lies lo (xs ++ (p ∷ ys)) hi (head, merge p c f)
      × (merge p c f p).size ≡ (f p).size + 32 + (f c).size
unfolding Lies merge Apart
merge_lem f head lo xs p c ys hi bound (l, h) u v e =
    let (mid, before, after) = Linked-split f head xs (p ∷ c ∷ ys) none l in
    let (below, (_, above)) = Apart-split f lo xs p (c ∷ ys) hi h in
    let w = Apart-bound f (c + 32 + (f c).size) ys hi above in
    let (at_p, rest) = two_free f mid p c ys u v after in
    let place = behind-plain p (f p).size (omega arith) in
    let t : (behind p (f p).size == c) ≡ true = ground (arith, place, e) in
    let total : add_size (f p).size (add_size metadata_size (f c).size)
        ≡ (f p).size + 32 + (f c).size =
      omega arith in
    let b = record (f p) {
      size = add_size (f p).size (add_size metadata_size (f c).size);
      next = (f c).next;
    } in
    let g = put p b f in
    let k = set_prev (f c).next (some p) g in
    let x = put-at p b f in
    let (nx, fr, sz) = set_prev-fields g (f c).next (some p) p in
    let same =
      Agree-trans f g k lo p (put-Agree f p b lo p (inr (omega arith)))
        (set_prev-Agree g (f c).next (some p) lo p) in
    let behind_c = put-Agree f p b (c + 32 + (f c).size) hi (inl (omega arith)) in
    let size_g : (g p).size ≡ (f p).size + 32 + (f c).size = ap (λ s. s.size) x ∙ total in
    let end : p + 32 + (g p).size ≡ c + 32 + (f c).size = omega (arith, size_g, e) in
    let before' : Linked f head xs (some p) = rw⁻¹ at_p before in
    let above' : Apart g (p + 32 + (g p).size) ys hi =
      rw end (Apart-Agree f g (c + 32 + (f c).size) ys hi above behind_c) in
    rw t (
      relay g k head (f c).next lo xs p ys hi
          (Linked-Agree f k head lo xs p (some p) below same before')
          (Apart-Agree f k lo xs p below same)
          (Linked-Agree f g (f c).next (c + 32 + (f c).size) ys hi none above behind_c rest) above'
          (fr ∙ ap (λ s. s.is_free) x ∙ u) (nx ∙ ap (λ s. s.next) x) sz
          (set_prev-Agree g (f c).next (some p) (p + 32 + (g p).size) hi),
      sz ∙ size_g,
    )

-- merging changes the size of one block
pub merge-Alike : (p c : ℕ) (f : ℕ → MemBlock) (q : ℕ) → q ≢ p → Alike (f q) (merge p c f q)
unfolding merge
merge-Alike p c f q d = elim (Bool-cases (behind p (f p).size == c)) [
  | inr e ↦ rw e (Alike-equal (f q) (f q) refl)
  | inl e ↦
      let b = record (f p) {
        size = add_size (f p).size (add_size metadata_size (f c).size);
        next = (f c).next;
      } in
      rw e (
        Alike-trans (f q) (put p b f q) (set_prev (f c).next (some p) (put p b f) q)
          (Alike-equal (f q) (put p b f q) (put-off p b f q d))
          (set_prev-Alike (f c).next (some p) (put p b f) q))
]

-- and no mark
pub merge-is_free : (p c : ℕ) (f : ℕ → MemBlock) → (merge p c f p).is_free ≡ (f p).is_free
unfolding merge Alike
merge-is_free p c f = elim (Bool-cases (behind p (f p).size == c)) [
  | inr e ↦ rw e refl
  | inl e ↦
      let b = record (f p) {
        size = add_size (f p).size (add_size metadata_size (f c).size);
        next = (f c).next;
      } in
      let (_, fr, _) = set_prev-Alike (f c).next (some p) (put p b f) p in
      rw e (fr ∙ ap (λ s. s.is_free) (put-at p b f))
]

-- Putting a block on the free list changes the marks and sizes of no other block.
pub linked-Alike :
    (f : ℕ → MemBlock) (head mid last : Option ℕ) (a q : ℕ)
    → q ≢ a
    → Alike (f q) ((linked last mid a head f).1 q)
unfolding linked
linked-Alike f head mid none a q d =
    let b = record (f a) { is_free = 1; next = mid; prev = none } in
    Alike-trans (f q) (put a b f q) (set_prev mid (some a) (put a b f) q)
      (Alike-equal (f q) (put a b f q) (put-off a b f q d))
      (set_prev-Alike mid (some a) (put a b f) q)
linked-Alike f head mid (some p) a q d =
    let b = record (f a) { is_free = 1; next = mid; prev = some p } in
    let n = set_next p (some a) (put a b f) in
    Alike-trans (f q) (put a b f q) (set_prev mid (some a) n q)
      (Alike-equal (f q) (put a b f q) (put-off a b f q d))
      (Alike-trans (put a b f q) (n q) (set_prev mid (some a) n q)
        (set_next-Alike p (some a) (put a b f) q) (set_prev-Alike mid (some a) n q))

-- the first free block, when it stands where the list begins
pub first_here :
    (f : ℕ → MemBlock) (c lo : ℕ) (ys : List ℕ) (hi : ℕ)
    → Linked f (some c) ys none
    → Apart f lo ys hi
    → c ≡ lo
    → (zs : List ℕ) × (ys ≡ c ∷ zs) × (f c).is_free ≡ 1
unfolding Linked Apart
first_here f c lo [] hi l h e = absurd (ground arith)
first_here f c lo (y ∷ ys) hi (inl (u, l)) (p, h) e =
    let q = first_free-le f c (y + 32 + (f y).size) ys hi l h in absurd (omega arith)
first_here f c lo (y ∷ ys) hi (inr (u, at_c, l)) (p, h) e =
    let same : c ≡ y = ground (arith, at_c) in rw same (ys, refl, u)
