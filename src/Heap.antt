-- ===== src/Heap.antt =====
-- What the containers use of the memory manager (`mm_alloc` and `mm_free` of myos-lib/src/mm.h):
-- a request is refused, or yields a block that is not in use; a free ends the use of a block.
-- Which requests are granted, and what bytes a new block holds, is the environment's choice.
use freelang_independent_ful.Prelude.{
  ℕ, zero, suc, ◌+◌, Bool, Option, none, some, List, [], ◌∷◌, ◌==◌, if◌then◌else◌, length, ◌≡◌, ◌<◌,
  false, sym, ◌∙◌, refl, ap, arith, true, Bool-cases, inl, inr, ◌⊎◌,
}
use freelang_independent_ful.Memory.{Bytes}

pub record Heap : Type 0 where
  -- whether the `n`-th request, for so many bytes, is granted
  pub grants : ℕ → ℕ → Bool
  -- byte `i` of the block that the `n`-th request yields
  pub junk : ℕ → ℕ → ℕ
  pub requests : ℕ
  -- the blocks in use; a block is named by the number of its request
  pub live : List ℕ

forget : ℕ → List ℕ → List ℕ
forget p [] = []
forget p (q ∷ qs) = if q == p then qs else q ∷ forget p qs

fill_from : ℕ → ℕ → (ℕ → ℕ) → Bytes
fill_from zero i junk = []
fill_from (suc n) i junk = junk i ∷ fill_from n (i + 1) junk

-- `mm_alloc(size)`; a request for no bytes yields NULL
unfoldable pub alloc : ℕ → Heap → Option ℕ × Heap
alloc size h =
    if size == 0
    then (none, h)
    else if h.grants h.requests size
    then (some h.requests, record h { requests = h.requests + 1; live = h.requests ∷ h.live })
    else (none, record h { requests = h.requests + 1 })

-- the bytes of the block `p`, just yielded for a request of `size` bytes
unfoldable pub fresh : Heap → ℕ → ℕ → Bytes
unfolding fill_from
fresh h p size = fill_from size 0 (h.junk p)

-- `mm_free(p)`
unfoldable pub free : ℕ → Heap → Heap
unfolding forget
free p h = record h { live = forget p h.live }

length-fill_from : (n i : ℕ) (junk : ℕ → ℕ) → length (fill_from n i junk) ≡ n
unfolding fill_from
length-fill_from zero i junk = refl
length-fill_from (suc n) i junk = ap suc (length-fill_from n (i + 1) junk)

pub length-fresh : (h : Heap) (p size : ℕ) → length (fresh h p size) ≡ size
unfolding fresh
length-fresh h p size = length-fill_from size 0 (h.junk p)

pub alloc-live :
    (size : ℕ) (h : Heap)
    → let (o, h') = alloc size h in
      (o ≡ none × h'.live ≡ h.live) ⊎ (p : ℕ) × (o ≡ some p) × (h'.live ≡ p ∷ h.live)
unfolding alloc
alloc-live size h = elim (Bool-cases (size == 0)) [
  | inl z ↦ rw z (inl (refl, refl))
  | inr nz ↦ elim (Bool-cases (h.grants h.requests size)) [
    | inl g ↦ rw (nz, g) (inr (h.requests, refl, refl))
    | inr ng ↦ rw (nz, ng) (inl (refl, refl))
  ]
]

-- Some request is refused.
unfoldable pub IsStarved : Heap → Type 0
IsStarved h = (n : ℕ) × (size : ℕ) × h.grants n size ≡ false

pub alloc-IsStarved : (size : ℕ) (h : Heap) → 0 < size → (alloc size h).0 ≡ none → IsStarved h
unfolding alloc IsStarved
alloc-IsStarved size h p = elim (Bool-cases (h.grants h.requests size)) [
  | inr ng ↦ λ _. (h.requests, size, ng)
  | inl g ↦
      let nz : (size == 0) ≡ false = ground arith in rw (nz, g) (λ e. absurd (ground (arith, e)))
]

-- The environment's choices do not change.
pub alloc-grants : (size : ℕ) (h : Heap) → (alloc size h).1.grants ≡ h.grants
unfolding alloc
alloc-grants size h = elim (Bool-cases (size == 0)) [
  | inl z ↦ rw z refl
  | inr nz ↦ elim (Bool-cases (h.grants h.requests size)) [
    | inl g ↦ rw (nz, g) refl
    | inr ng ↦ rw (nz, ng) refl
  ]
]

pub IsStarved-grants : (h h' : Heap) → h'.grants ≡ h.grants → IsStarved h' → IsStarved h
unfolding IsStarved
IsStarved-grants h h' e (n, size, ng) = (n, size, ap (λ g. g n size) (sym e) ∙ ng)

pub free-live : (p : ℕ) (h : Heap) (qs : List ℕ) → h.live ≡ p ∷ qs → (free p h).live ≡ qs
unfolding free forget
free-live p h qs e = let t : (p == p) ≡ true = ground arith in rw (e, t) refl
