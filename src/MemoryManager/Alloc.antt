-- ===== src/MemoryManager/Alloc.antt =====
-- A block taken in `mm_alloc` of myos-lib/src/mm.c: cut, marked, and taken off the free list.
use freelang_independent_ful.Prelude.{
  ℕ, ◌+◌, ◌≤◌, ◌<◌, ◌≡◌, ◌≢◌, refl, ap, ◌∙◌, true, false, Option, none, some, List, ◌∷◌, ◌++◌, ltb,
  ◌==◌, if◌then◌else◌, arith, inl, inr, ◌⊎◌, Bool-cases,
}
use freelang_independent_ful.Memory.{size_mod, add_size, sub_size}
use freelang_independent_ful.MemoryManager.{
  MemBlock, mem_magic, metadata_size, put, set_prev, set_next, behind, split, occupied, unlinked,
}
use freelang_independent_ful.MemoryManager.Layout.{
  Apart, Linked, Agree, Apart-bound, Apart-Agree, Linked-Agree, Apart-join, Apart-lower,
  Linked-join, set_prev-Agree, Redirects, Agree-trans, set_next-Agree, set_next-both,
  set_next-Apart,
}

-- the blocks as the two steps on a found block leave them
unfoldable pub carved : ℕ → ℕ → (ℕ → MemBlock) → ℕ → MemBlock
carved a size f = occupied a size (split a size f)

pub put-at : (p : ℕ) (b : MemBlock) (f : ℕ → MemBlock) → put p b f p ≡ b
unfolding put
put-at p b f = let e : (p == p) ≡ true = ground arith in rw e refl

pub put-off : (p : ℕ) (b : MemBlock) (f : ℕ → MemBlock) (q : ℕ) → q ≢ p → put p b f q ≡ f q
unfolding put
put-off p b f q h = let e : (q == p) ≡ false = ground (arith, h) in rw e refl

-- the block itself, and the blocks that are not touched
whole-at :
    (a size : ℕ) (f : ℕ → MemBlock)
    → ltb (add_size size metadata_size) (f a).size ≡ false
    → (carved a size f a).next ≡ (f a).next
      × (carved a size f a).is_free ≡ 0
      × (carved a size f a).size ≡ size
unfolding carved occupied split
whole-at a size f e =
    rw (e, put-at a (record (f a) { size = size; is_free = 0 }) f) (refl, refl, refl)

whole-Agree :
    (a size : ℕ) (f : ℕ → MemBlock) (lo hi : ℕ)
    → ltb (add_size size metadata_size) (f a).size ≡ false
    → (a < lo ⊎ hi ≤ a)
    → Agree f (carved a size f) lo hi
unfolding carved occupied split Agree
whole-Agree a size f lo hi e o q p r =
    rw (e, put-off a (record (f a) { size = size; is_free = 0 }) f q (λ s. ground (arith, o)))
      (refl, refl, refl)

-- the new block that the rest of a block becomes
unfoldable pub rest_of : ℕ → ℕ → (ℕ → MemBlock) → MemBlock
rest_of a size f = record {
  magic = mem_magic;
  is_free = 1;
  size = sub_size (sub_size (f a).size size) metadata_size;
  next = (f a).next;
  prev = some a;
}

cut-at :
    (a size : ℕ) (f : ℕ → MemBlock)
    → ltb (add_size size metadata_size) (f a).size ≡ true
    → (carved a size f a).next ≡ some (behind a size)
      × (carved a size f a).is_free ≡ 0
      × (carved a size f a).size ≡ size
unfolding carved occupied split set_next put
cut-at a size f e = let t : (a == a) ≡ true = ground arith in rw (e, t) (refl, refl, refl)

pub cut-off :
    (a size : ℕ) (f : ℕ → MemBlock) (q : ℕ)
    → ltb (add_size size metadata_size) (f a).size ≡ true
    → q ≢ a
    → carved a size f q
      ≡ set_prev (f a).next (some (behind a size)) (put (behind a size) (rest_of a size f) f) q
unfolding carved occupied split set_next rest_of
cut-off a size f q e d =
    let g = set_prev (f a).next (some (behind a size)) (put (behind a size) (rest_of a size f) f) in
    let h = put a (record (g a) { next = some (behind a size) }) g in
    rw e (
      put-off a (record (h a) { size = size; is_free = 0 }) h q d
      ∙ put-off a (record (g a) { next = some (behind a size) }) g q d)

cut-rest :
    (a size : ℕ) (f : ℕ → MemBlock)
    → ltb (add_size size metadata_size) (f a).size ≡ true
    → behind a size ≢ a
    → (carved a size f (behind a size)).next ≡ (f a).next
      × (carved a size f (behind a size)).is_free ≡ 1
      × (carved a size f (behind a size)).size ≡ sub_size (sub_size (f a).size size) metadata_size
unfolding Agree rest_of
cut-rest a size f e d =
    let nb = behind a size in
    let (x, y, z) =
      set_prev-Agree (put nb (rest_of a size f) f) (f a).next (some nb) nb (nb + 1) nb (omega arith)
        (omega arith) in
    let w = put-at nb (rest_of a size f) f in
    rw (cut-off a size f nb e d)
      (x ∙ ap (λ b. b.next) w, y ∙ ap (λ b. b.is_free) w, z ∙ ap (λ b. b.size) w)

cut-Agree :
    (a size : ℕ) (f : ℕ → MemBlock) (lo hi : ℕ)
    → ltb (add_size size metadata_size) (f a).size ≡ true
    → (a < lo ⊎ hi ≤ a)
    → (behind a size < lo ⊎ hi ≤ behind a size)
    → Agree f (carved a size f) lo hi
unfolding Agree
cut-Agree a size f lo hi e o o' q p r =
    let nb = behind a size in
    let (x, y, z) =
      set_prev-Agree (put nb (rest_of a size f) f) (f a).next (some nb) q (q + 1) q (omega arith)
        (omega arith) in
    let w = put-off nb (rest_of a size f) f q (λ s. ground (arith, o')) in
    rw (cut-off a size f q e (λ s. ground (arith, o)))
      (x ∙ ap (λ b. b.next) w, y ∙ ap (λ b. b.is_free) w, z ∙ ap (λ b. b.size) w)

-- What the free list looks like around a block that has been taken: the blocks behind it are linked
-- from where it points.
unfoldable pub Taken : ℕ → ℕ → (ℕ → MemBlock) → List ℕ → ℕ → Type 0
Taken a size g zs hi =
    (g a).is_free ≡ 0
    × (g a).size ≡ size
    × Linked g (g a).next zs none
    × Apart g (a + 32 + size) zs hi

-- the blocks behind a taken block
unfoldable pub left_over : ℕ → ℕ → (ℕ → MemBlock) → List ℕ → List ℕ
left_over a size f ys = if ltb (size + 32) (f a).size then (a + 32 + size) ∷ ys else ys

cut-Taken :
    (a size : ℕ) (f : ℕ → MemBlock) (ys : List ℕ) (hi : ℕ)
    → hi < size_mod
    → size + 32 < (f a).size
    → Apart f (a + 32 + (f a).size) ys hi
    → Linked f (f a).next ys none
    → Taken a size (carved a size f) ((a + 32 + size) ∷ ys) hi
unfolding Taken Linked Apart behind
cut-Taken a size f ys hi b k h l =
    let w = Apart-bound f (a + 32 + (f a).size) ys hi h in
    let t : ltb (add_size size metadata_size) (f a).size ≡ true = ground arith in
    let place : behind a size ≡ a + 32 + size = omega arith in
    let (nx, fr, sz) = cut-at a size f t in
    let (rx, rf, rs) = cut-rest a size f t (omega (arith, place)) in
    let agree =
      cut-Agree a size f (a + 32 + (f a).size) hi t (inl (omega arith))
        (inl (omega (arith, place))) in
    let rx' : (carved a size f (a + 32 + size)).next ≡ (f a).next = rw place at rx in
    let rf' : (carved a size f (a + 32 + size)).is_free ≡ 1 = rw place at rf in
    let rs' : (carved a size f (a + 32 + size)).size
        ≡ sub_size (sub_size (f a).size size) metadata_size =
      rw place at rs in
    let end : a + 32 + size + 32 + (carved a size f (a + 32 + size)).size ≡ a + 32 + (f a).size =
      omega arith in
    let linked =
      Linked-Agree f (carved a size f) (f a).next (a + 32 + (f a).size) ys hi none h agree l in
    let apart = Apart-Agree f (carved a size f) (a + 32 + (f a).size) ys hi h agree in
    (fr, sz, inr (rf', nx ∙ ap some place, rw rx' linked), (omega arith, rw end apart))

pub carved-Taken :
    (a size : ℕ) (f : ℕ → MemBlock) (ys : List ℕ) (hi : ℕ)
    → hi < size_mod
    → size ≤ (f a).size
    → Apart f (a + 32 + (f a).size) ys hi
    → Linked f (f a).next ys none
    → Taken a size (carved a size f) (left_over a size f ys) hi
unfolding Taken left_over
carved-Taken a size f ys hi b k h l =
    let w = Apart-bound f (a + 32 + (f a).size) ys hi h in
    let sum : add_size size metadata_size ≡ size + 32 = omega arith in
    elim (Bool-cases (ltb (size + 32) (f a).size)) [
      | inl e ↦ rw e (cut-Taken a size f ys hi b (ground arith) h l)
      | inr e ↦
          let t : ltb (add_size size metadata_size) (f a).size ≡ false = rw sum e in
          let (nx, fr, sz) = whole-at a size f t in
          let agree = whole-Agree a size f (a + 32 + (f a).size) hi t (inl (omega arith)) in
          rw (e, nx)
            (
              fr,
              sz,
              Linked-Agree f (carved a size f) (f a).next (a + 32 + (f a).size) ys hi none h agree
                  l,
              Apart-lower (carved a size f) (a + 32 + size) (a + 32 + (f a).size) ys hi
                  (omega arith)
                  (Apart-Agree f (carved a size f) (a + 32 + (f a).size) ys hi h agree),
            )
    ]

-- the blocks `k`, with the free list from `head`, once the block `a` is in use
unfoldable pub Settled : ℕ → ℕ → ℕ → List ℕ → List ℕ → ℕ → Option ℕ × (ℕ → MemBlock) → Type 0
Settled lo a size xs zs hi (head, k) =
    Linked k head (xs ++ (a ∷ zs)) none
    × Apart k lo (xs ++ (a ∷ zs)) hi
    × (k a).is_free ≡ 0
    × (k a).size ≡ size

-- the two halves put together
settle :
    (lo a size : ℕ) (g k : ℕ → MemBlock) (head : Option ℕ) (xs zs : List ℕ) (hi : ℕ)
    → Taken a size g zs hi
    → Linked k head xs (g a).next
    → Apart k lo xs a
    → (k a).is_free ≡ (g a).is_free
    → (k a).size ≡ (g a).size
    → Agree g k (a + 32 + size) hi
    → Settled lo a size xs zs hi (head, k)
unfolding Settled Taken Linked
settle lo a size g k head xs zs hi (fr, sz, l, h) before below fr' sz' agree =
    let s : (k a).size ≡ size = sz' ∙ sz in
    (
      Linked-join k head xs (g a).next (a ∷ zs) none before
          (inl (fr' ∙ fr, Linked-Agree g k (g a).next (a + 32 + size) zs hi none h agree l)),
      Apart-join k lo xs a zs hi below (rw s (Apart-Agree g k (a + 32 + size) zs hi h agree)),
      fr' ∙ fr,
      s,
    )

pub unlinked-Settled :
    (lo a size : ℕ) (f g : ℕ → MemBlock) (head last : Option ℕ) (xs zs : List ℕ) (hi : ℕ)
    → Apart f lo xs a
    → Agree f g lo a
    → Redirects f head lo xs a none last
    → Taken a size g zs hi
    → Settled lo a size xs zs hi (unlinked last a head g)
unfolding Redirects unlinked Agree
unlinked-Settled lo a size f g head last xs zs hi h agree (inl (e, r)) w =
    let t = (g a).next in
    let k = set_prev t none g in
    let same = Agree-trans f g k lo a agree (set_prev-Agree g t none lo a) in
    let (_, fr, sz) = set_prev-Agree g t none a (a + 1) a (omega arith) (omega arith) in
    rw e (
      settle lo a size g k t xs zs hi w (Linked-Agree f k t lo xs a t h same (r t))
        (Apart-Agree f k lo xs a h same) fr sz (set_prev-Agree g t none (a + 32 + size) hi))
unlinked-Settled lo a size f g head last xs zs hi h agree (inr (p, e, q, below, r)) w =
    let t = (g a).next in
    let n = set_next p t g in
    let k = set_prev t (some p) n in
    let same =
      Agree-trans (set_next p t f) n k lo a (set_next-both f g p t lo a agree)
        (set_prev-Agree n t (some p) lo a) in
    let h' = set_next-Apart f p t lo xs a h in
    let above =
      Agree-trans g n k a (hi + a + 1) (set_next-Agree g p t a (hi + a + 1) (inl below))
        (set_prev-Agree n t (some p) a (hi + a + 1)) in
    let (_, fr, sz) = above a (omega arith) (omega arith) in
    rw e (
      settle lo a size g k head xs zs hi w
        (Linked-Agree (set_next p t f) k head lo xs a t h' same (r t))
        (Apart-Agree (set_next p t f) k lo xs a h' same) fr sz
        (λ i u v. above i (omega arith) (omega arith)))

pub behind-plain : (a size : ℕ) → a + 32 + size < size_mod → behind a size ≡ a + 32 + size
unfolding behind
behind-plain a size h = omega arith

pub carved-Agree :
    (a size : ℕ) (f : ℕ → MemBlock) (lo hi : ℕ)
    → hi < size_mod
    → a + 32 + (f a).size ≤ hi
    → size ≤ (f a).size
    → Agree f (carved a size f) lo a
carved-Agree a size f lo hi b h k =
    elim (Bool-cases (ltb (add_size size metadata_size) (f a).size)) [
      | inl e ↦
          let place : behind a size ≡ a + 32 + size = behind-plain a size (omega arith) in
          cut-Agree a size f lo a e (inr (omega arith)) (inr (omega (arith, place)))
      | inr e ↦ whole-Agree a size f lo a e (inr (omega arith))
    ]
