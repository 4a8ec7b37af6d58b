-- ===== src/MemoryManager/Frame.antt =====
-- What the steps of `mm_alloc` and `mm_free` of myos-lib/src/mm.c leave as it is in the headers.
use freelang_independent_ful.Prelude.{
  ℕ, ◌+◌, ◌-◌, ◌<◌, ◌≤◌, ◌≡◌, ◌≢◌, refl, ap, ◌∙◌, true, false, Option, none, some, ltb, ◌==◌, arith,
  inl, inr, ◌⊎◌, Bool-cases,
}
use freelang_independent_ful.Memory.{size_mod, add_size, sub_size}
use freelang_independent_ful.MemoryManager.{
  MemBlock, Manager, mem_magic, metadata_size, put, set_prev, set_next, behind, split, occupied,
  unlinked, taken,
}
use freelang_independent_ful.MemoryManager.Alloc.{
  put-at, put-off, carved, rest_of, cut-off, behind-plain,
}

-- Two headers that differ in their pointers only.
unfoldable pub Alike : MemBlock → MemBlock → Type 0
Alike b c = c.magic ≡ b.magic × c.is_free ≡ b.is_free × c.size ≡ b.size

pub Alike-trans : (b c d : MemBlock) → Alike b c → Alike c d → Alike b d
unfolding Alike
Alike-trans b c d (x, y, z) (x', y', z') = (x' ∙ x, y' ∙ y, z' ∙ z)

pub Alike-equal : (b c : MemBlock) → c ≡ b → Alike b c
unfolding Alike
Alike-equal b c e = rw e (refl, refl, refl)

-- a header written in the place of one that it is like
pub put-Alike :
    (p : ℕ) (b : MemBlock) (f : ℕ → MemBlock) (q : ℕ) → Alike (f p) b → Alike (f q) (put p b f q)
unfolding Alike put
put-Alike p b f q h = elim (Bool-cases (q == p)) [
  | inl e ↦ let same : q ≡ p = ground (arith, e) in rw (e, same) h
  | inr e ↦ rw e (refl, refl, refl)
]

pub set_next-Alike :
    (p : ℕ) (t : Option ℕ) (f : ℕ → MemBlock) (q : ℕ) → Alike (f q) (set_next p t f q)
unfolding set_next Alike
set_next-Alike p t f q = put-Alike p (record (f p) { next = t }) f q (refl, refl, refl)

pub set_prev-Alike : (p t : Option ℕ) (f : ℕ → MemBlock) (q : ℕ) → Alike (f q) (set_prev p t f q)
unfolding set_prev Alike
set_prev-Alike none t f q = (refl, refl, refl)
set_prev-Alike (some p) t f q = put-Alike p (record (f p) { prev = t }) f q (refl, refl, refl)

unlinked-Alike :
    (prev : Option ℕ) (a : ℕ) (head : Option ℕ) (k : ℕ → MemBlock) (q : ℕ)
    → Alike (k q) ((unlinked prev a head k).1 q)
unfolding unlinked
unlinked-Alike none a head k q = set_prev-Alike (k a).next none k q
unlinked-Alike (some p) a head k q =
    Alike-trans (k q) (set_next p (k a).next k q)
      (set_prev (k a).next (some p) (set_next p (k a).next k) q) (set_next-Alike p (k a).next k q)
      (set_prev-Alike (k a).next (some p) (set_next p (k a).next k) q)

-- The headers `g` are `f` with the block `a` shortened to so many bytes: if more than a header is left
-- over, a new free block has the rest of the bytes, and no other block has changed.
unfoldable pub Shortens : ℕ → ℕ → (ℕ → MemBlock) → (ℕ → MemBlock) → Type 0
Shortens a size f g =
    ((f a).size ≤ size + 32
      ⊎ (size + 32 < (f a).size
          × (g (a + 32 + size)).magic ≡ mem_magic
          × (g (a + 32 + size)).is_free ≡ 1
          × (g (a + 32 + size)).size ≡ (f a).size - size - 32))
    × ((q : ℕ) → q ≡ a ⊎ (size + 32 < (f a).size × q ≡ a + 32 + size) ⊎ Alike (f q) (g q))

carved-whole :
    (a size : ℕ) (f : ℕ → MemBlock) (q : ℕ)
    → ltb (add_size size metadata_size) (f a).size ≡ false
    → q ≢ a
    → Alike (f q) (carved a size f q)
unfolding carved occupied split
carved-whole a size f q e d = rw e (
    Alike-equal (f q) (put a (record (f a) { size = size; is_free = 0 }) f q)
      (put-off a (record (f a) { size = size; is_free = 0 }) f q d))

carved-cut :
    (a size : ℕ) (f : ℕ → MemBlock) (q : ℕ)
    → ltb (add_size size metadata_size) (f a).size ≡ true
    → q ≢ a
    → Alike (put (behind a size) (rest_of a size f) f q) (carved a size f q)
carved-cut a size f q e d =
    rw (cut-off a size f q e d) (
      set_prev-Alike (f a).next (some (behind a size)) (put (behind a size) (rest_of a size f) f) q)

carved-Shortens :
    (a size : ℕ) (f : ℕ → MemBlock)
    → size ≤ (f a).size
    → a + 32 + (f a).size < size_mod
    → Shortens a size f (carved a size f)
unfolding Shortens Alike rest_of
carved-Shortens a size f k bound = elim (Bool-cases (ltb (size + 32) (f a).size)) [
  | inr e ↦
      let t : ltb (add_size size metadata_size) (f a).size ≡ false = ground arith in
      (
        inl (ground arith),
        λ q. elim (Bool-cases (q == a)) [
          | inl s ↦ inl (ground arith)
          | inr s ↦ inr (inr (carved-whole a size f q t (λ r. ground arith)))
        ],
      )
  | inl e ↦
      let t : ltb (add_size size metadata_size) (f a).size ≡ true = ground arith in
      let more : size + 32 < (f a).size = ground arith in
      let place : behind a size ≡ a + 32 + size = behind-plain a size (omega arith) in
      let rest = put-at (behind a size) (rest_of a size f) f in
      let (g, fr, sz) = carved-cut a size f (behind a size) t (λ s. omega (arith, place)) in
      let left : sub_size (sub_size (f a).size size) metadata_size ≡ (f a).size - size - 32 =
        omega arith in
      (
        inr (
          more,
          rw⁻¹ place (g ∙ ap (λ b. b.magic) rest),
          rw⁻¹ place (fr ∙ ap (λ b. b.is_free) rest),
          rw⁻¹ place (sz ∙ ap (λ b. b.size) rest ∙ left),
        ),
        λ q. elim (Bool-cases (q == a)) [
          | inl s ↦ inl (ground arith)
          | inr s ↦ elim (Bool-cases (q == a + 32 + size)) [
            | inl s' ↦ inr (inl (more, ground arith))
            | inr s' ↦
                let off =
                  put-off (behind a size) (rest_of a size f) f q (λ r. ground (arith, place)) in
                inr (
                  inr (
                    Alike-trans (f q) (put (behind a size) (rest_of a size f) f q)
                      (carved a size f q)
                      (Alike-equal (f q) (put (behind a size) (rest_of a size f) f q) off)
                      (carved-cut a size f q t (λ r. ground arith))))
          ]
        ],
      )
]

Shortens-trans :
    (a size : ℕ) (f g k : ℕ → MemBlock)
    → Shortens a size f g
    → ((q : ℕ) → Alike (g q) (k q))
    → Shortens a size f k
unfolding Shortens Alike
Shortens-trans a size f g k (rest, others) same = (
  elim rest [
    | inl e ↦ inl e
    | inr (more, x, y, z) ↦
        let (x', y', z') = same (a + 32 + size) in inr (more, x' ∙ x, y' ∙ y, z' ∙ z)
  ],
  λ q. elim (others q) [
    | inl e ↦ inl e
    | inr (inl e) ↦ inr (inl e)
    | inr (inr e) ↦ inr (inr (Alike-trans (f q) (g q) (k q) e (same q)))
  ],
)

pub taken-Shortens :
    (prev : Option ℕ) (a size : ℕ) (m : Manager)
    → size ≤ (m.blocks a).size
    → a + 32 + (m.blocks a).size < size_mod
    → Shortens a size m.blocks (taken prev a size m).blocks
unfolding taken carved
taken-Shortens prev a size m k bound =
    Shortens-trans a size m.blocks (carved a size m.blocks) (taken prev a size m).blocks
      (carved-Shortens a size m.blocks k bound)
      (unlinked-Alike prev a m.free_list (carved a size m.blocks))
