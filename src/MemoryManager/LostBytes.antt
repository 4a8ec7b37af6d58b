-- ===== src/MemoryManager/LostBytes.antt =====
-- Bytes that `mm_alloc` of myos-lib/src/mm.c loses, and the walk of `mm_validate` over them.
use freelang_independent_ful.Prelude.{
  ℕ, suc, ◌+◌, ◌-◌, ◌*◌, ◌/◌, ◌≤◌, ◌<◌, ◌≡◌, ◌≢◌, refl, ap, ◌∙◌, true, false, not, ◌&&◌, Option,
  none, some, [], ◌∷◌, ltb, leb, ◌==◌, arith, inl, inr,
}
use freelang_independent_ful.Memory.{size_mod, add_size}
use freelang_independent_ful.Status.{fail}
use freelang_independent_ful.MemoryManager.{
  MemBlock, Manager, mem_magic, metadata_size, put, set_prev, rounds, fit, fits, find_fit, split,
  occupied, unlinked, taken, behind, align_up, mm_alloc,
}
use freelang_independent_ful.MemoryManager.Inspect.{check_from, mm_validate}
use freelang_independent_ful.MemoryManager.Layout.{Linked, IsLaid}
use freelang_independent_ful.MemoryManager.FirstFit.{alloc_some, aligned}

-- The heap is one free block.
unfoldable pub IsWhole : Manager → ℕ → Type 0
IsWhole m base =
    IsLaid m base (base ∷ [])
    × (m.blocks base).is_free ≡ 1
    × (m.blocks base).magic ≡ mem_magic
    × (m.blocks base).size + 32 ≡ m.heap_size

only_block :
    (f : ℕ → MemBlock) (head : Option ℕ) (a : ℕ)
    → (f a).is_free ≡ 1
    → Linked f head (a ∷ []) none
    → head ≡ some a × (f a).next ≡ none
unfolding Linked
only_block f head a u (inl (v, _)) = absurd (omega arith)
only_block f head a u (inr (_, e, n)) = (e, n)

find_only :
    (n : ℕ) (size a : ℕ) (f : ℕ → MemBlock)
    → (f a).is_free ≡ 1
    → size ≤ (f a).size
    → find_fit (suc n) none (some a) size f ≡ fit none a
unfolding find_fit fits
find_only n size a f u k =
    let e : (not ((f a).is_free == 0) && leb size (f a).size) ≡ true = ground arith in rw e refl

-- the blocks when the only block is taken whole
taken_whole :
    (size a : ℕ) (m : Manager)
    → ltb (add_size size metadata_size) (m.blocks a).size ≡ false
    → (m.blocks a).next ≡ none
    → (taken none a size m).blocks
      ≡ put a (record (m.blocks a) { size = size; is_free = 0 }) m.blocks
unfolding taken split occupied unlinked set_prev put
taken_whole size a m e n = let t : (a == a) ≡ true = ground arith in rw (e, t, n) refl

walk_fails :
    (n a size end : ℕ) (b : MemBlock) (f : ℕ → MemBlock)
    → b.magic ≡ mem_magic
    → b.size ≡ size
    → a + 32 + size < end
    → end < size_mod
    → (f (a + 32 + size)).magic ≢ mem_magic
    → check_from (suc (suc n)) a end (put a b f) ≡ some fail
unfolding check_from put behind
walk_fails n a size end b f g s h k bad =
    let here : (a == a) ≡ true = ground arith in
    let place : add_size (add_size a metadata_size) b.size ≡ a + 32 + size = omega arith in
    let inside : ltb a end ≡ true = ground arith in
    let no_end : ltb end (a + 32 + size) ≡ false = ground arith in
    let again : ltb (a + 32 + size) end ≡ true = ground arith in
    let away : (a + 32 + size == a) ≡ false = ground arith in
    let fits_magic : (mem_magic == mem_magic) ≡ true = refl in
    let wrong : ((f (a + 32 + size)).magic == mem_magic) ≡ false = ground (arith, bad) in
    rw (here, place, inside, g, no_end, again, away, wrong) refl

find_rounds :
    (m : Manager) (size a : ℕ)
    → (m.blocks a).is_free ≡ 1
    → size ≤ (m.blocks a).size
    → find_fit (rounds m) none (some a) size m.blocks ≡ fit none a
unfolding rounds
find_rounds m size a u k =
    let n : m.heap_size / 32 + 1 ≡ suc (m.heap_size / 32) = omega arith in
    rw n (find_only (m.heap_size / 32) size a m.blocks u k)

validate_some :
    (m : Manager) (base : ℕ)
    → m.heap_base ≡ some base
    → mm_validate m ≡ check_from (rounds m) base (add_size base m.heap_size) m.blocks
unfolding mm_validate
validate_some m base e = rw (mm_validate, e) refl

validate_taken :
    (m : Manager) (a size : ℕ)
    → m.heap_base ≡ some a
    → ltb (add_size size metadata_size) (m.blocks a).size ≡ false
    → (m.blocks a).next ≡ none
    → 32 + size < m.heap_size
    → a + m.heap_size < size_mod
    → (m.blocks a).magic ≡ mem_magic
    → (m.blocks (a + 32 + size)).magic ≢ mem_magic
    → mm_validate (taken none a size m) ≡ some fail
unfolding taken rounds
validate_taken m a size e t n h bound g bad =
    let two : m.heap_size / 32 + 1 ≡ suc (suc (m.heap_size / 32 - 1)) = omega arith in
    let end : add_size a m.heap_size ≡ a + m.heap_size = omega arith in
    let walked : check_from (m.heap_size / 32 + 1) a (add_size a m.heap_size)
          (taken none a size m).blocks
        ≡ some fail =
      rw (taken_whole size a m t n, two, end)
        (walk_fails (m.heap_size / 32 - 1) a size (a + m.heap_size)
          (record (m.blocks a) { size = size; is_free = 0 }) m.blocks g refl (omega arith) bound
          bad) in
    validate_some (taken none a size m) a e ∙ walked

-- On a heap of one free block, a size that leaves 1 to 32 bytes of it over makes `mm_alloc` shorten
-- the block and put nothing in the place of the rest. Unless these bytes look like a header,
-- `mm_validate` then reports a heap that is not in order.
pub alloc_loses :
    (malloc : ℕ → Option ℕ) (wanted : ℕ) (m : Manager) (base : ℕ)
    → IsWhole m base
    → 0 < wanted
    → wanted + 16 ≤ size_mod
    → (wanted + 15) / 16 * 16 < (m.blocks base).size
    → (m.blocks base).size ≤ (wanted + 15) / 16 * 16 + 32
    → (m.blocks (base + 32 + (wanted + 15) / 16 * 16)).magic ≢ mem_magic
    → (m' : Manager) × (mm_alloc malloc wanted m ≡ some (some (base + 32), m'))
      × (mm_validate m' ≡ some fail)
unfolding IsWhole IsLaid rounds
alloc_loses malloc wanted m base ((e, bound, l, h), u, g, whole) p q less most bad =
    let size : ℕ = align_up wanted 16 in
    let sz = aligned wanted q in
    let (at_head, next) = only_block m.blocks m.free_list base u l in
    let found : find_fit (rounds m) none m.free_list size m.blocks ≡ fit none base =
      rw at_head (find_rounds m size base u (omega arith)) in
    let t : ltb (add_size size metadata_size) (m.blocks base).size ≡ false = ground arith in
    let m' = taken none base size m in
    let plain : add_size base 32 ≡ base + 32 = omega arith in
    let bad' : (m.blocks (base + 32 + align_up wanted 16)).magic ≢ mem_magic = rw sz bad in
    (
      m',
      alloc_some malloc wanted m base none base e p found ∙ ap (λ r. some (some r, m')) plain,
      validate_taken m base size e t next (omega arith) bound g bad',
    )
