-- ===== src/MemoryManager/Start.antt =====
-- The heap that `mm_init` of myos-lib/src/mm.c makes, and sizes that `mm_alloc` does not round up.
use freelang_independent_ful.Prelude.{
  ℕ, ◌+◌, ◌-◌, ◌*◌, ◌/◌, ◌≤◌, ◌<◌, ◌≡◌, ◌≢◌, refl, ap, ◌∙◌, true, Option, none, some, List, [], ◌∷◌,
  ◌++◌, ◌==◌, arith, inl, inr, ◌⊎◌, Option-cases,
}
use freelang_independent_ful.Memory.{size_mod, add_size, sub_size}
use freelang_independent_ful.Status.{ok, fail}
use freelang_independent_ful.MemoryManager.{
  MemBlock, Manager, mem_magic, put, rounds, fits, align_up, mm_init, mm_alloc,
}
use freelang_independent_ful.MemoryManager.Layout.{Apart, Linked, Apart-bound, IsLaid, last_free}
use freelang_independent_ful.MemoryManager.Fitting.{NoFit, Finds, find_fit-Finds}
use freelang_independent_ful.MemoryManager.LostBytes.{IsWhole}
use freelang_independent_ful.MemoryManager.FirstFit.{Takes, taken-Takes, alloc_some}

-- the heap as one free block
started : ℕ → ℕ → Manager → Manager
started base size m = record m {
  heap_base = some base;
  heap_size = size;
  free_list = some base;
  blocks =
      put base
        (record {
          magic = mem_magic;
          is_free = 1;
          size = sub_size size 32;
          next = none;
          prev = none;
        })
        m.blocks;
}

started-IsWhole :
    (base size : ℕ) (m : Manager)
    → 32 ≤ size
    → base + size < size_mod
    → IsWhole (started base size m) base
unfolding started IsWhole IsLaid Linked Apart put
started-IsWhole base size m h b =
    let self : (base == base) ≡ true = ground arith in
    rw self ((refl, b, inr (refl, refl, refl), (omega arith, omega arith)), refl, refl, omega arith)

init_some :
    (mmap : ℕ → Option ℕ) (requested_size : ℕ) (m : Manager) (base : ℕ)
    → m.heap_base ≡ none
    → mmap (align_up requested_size 4096) ≡ some base
    → mm_init mmap requested_size m ≡ (ok, started base (align_up requested_size 4096) m)
unfolding mm_init started
init_some mmap requested_size m base e got = rw (mm_init, e, got) refl

init_none :
    (mmap : ℕ → Option ℕ) (requested_size : ℕ) (m : Manager)
    → m.heap_base ≡ none
    → mmap (align_up requested_size 4096) ≡ none
    → mm_init mmap requested_size m
      ≡ (fail, record m { heap_base = none; heap_size = align_up requested_size 4096 })
unfolding mm_init
init_none mmap requested_size m e refused = rw (mm_init, e, refused) refl

pages : (n : ℕ) → n + 4096 ≤ size_mod → align_up n 4096 ≡ (n + 4095) / 4096 * 4096
unfolding align_up
pages n q =
    let k : sub_size (add_size n 4096) 1 ≡ n + 4095 = omega arith in ap (λ t. t / 4096 * 4096) k

wraps : (n : ℕ) → n < size_mod → size_mod < n + 16 → align_up n 16 ≡ 0
unfolding align_up
wraps n p q =
    let k : sub_size (add_size n 16) 1 ≡ n + 15 - size_mod = omega arith in
    let z : (n + 15 - size_mod) / 16 * 16 ≡ 0 = omega arith in ap (λ t. t / 16 * 16) k ∙ z

large :
    (n : ℕ) (m : Manager) (base : ℕ)
    → align_up n 4096 ≡ (n + 4095) / 4096 * 4096
    → n ≤ (started base (align_up n 4096) m).heap_size
unfolding started
large n m base e = omega arith

-- The first `mm_init`, of a size from 1 to 2^64 - 4096, when the memory that mmap yields ends below
-- 2^64: it leaves a heap at least as large as asked for that is one free block, which is on the free
-- list, carries the magic number and fills the heap but for its header; or fails and leaves no heap.
pub init-IsLaid :
    (mmap : ℕ → Option ℕ) (requested_size : ℕ) (m : Manager)
    → m.heap_base ≡ none
    → 0 < requested_size
    → requested_size + 4096 ≤ size_mod
    → ((size base : ℕ) → mmap size ≡ some base → base + size < size_mod)
    → let (status, m') = mm_init mmap requested_size m in
      (status ≡ ok × requested_size ≤ m'.heap_size × (base : ℕ) × IsWhole m' base)
      ⊎ (status ≡ fail × m'.heap_base ≡ none)
init-IsLaid mmap requested_size m e p q inside =
    let size : ℕ = align_up requested_size 4096 in
    let rounded = pages requested_size q in
    elim (Option-cases (mmap size)) [
      | inl refused ↦ rw (init_none mmap requested_size m e refused) (inr (refl, refl))
      | inr (base, got) ↦ rw (init_some mmap requested_size m base e got) (
          inl (
            refl,
            large requested_size m base rounded,
            base,
            started-IsWhole base size m (omega arith) (inside size base got),
          ))
    ]

-- A block that is free has room for no bytes, so none of the blocks is free if none has.
all_used :
    (f : ℕ → MemBlock) (head : Option ℕ) (bs : List ℕ)
    → Linked f head bs none
    → NoFit 0 f bs
    → head ≡ none
unfolding Linked NoFit fits
all_used f head [] l n = l
all_used f head (a ∷ bs) (inl (u, l)) (x, n) = all_used f head bs l n
all_used f head (a ∷ bs) (inr (u, _, l)) (x, n) = absurd (ground arith)

-- A size within 15 bytes of 2^64 is rounded up to 0: if there is a free block, `mm_alloc` takes the
-- first one, with no room for data.
pub alloc_wraps :
    (malloc : ℕ → Option ℕ) (wanted : ℕ) (m : Manager) (base : ℕ) (bs : List ℕ)
    → IsLaid m base bs
    → m.free_list ≢ none
    → wanted < size_mod
    → size_mod < wanted + 16
    → (xs : List ℕ) × (a : ℕ) × (ys : List ℕ) × (bs ≡ xs ++ (a ∷ ys))
      × Takes 0 m base xs a ys (mm_alloc malloc wanted m)
unfolding IsLaid Finds rounds
alloc_wraps malloc wanted m base bs laid some_free p q =
    let (e, bound, l, h) = laid in
    let w = Apart-bound m.blocks base bs (base + m.heap_size) h in
    let wrapped = wraps wanted p q in
    elim (find_fit-Finds (rounds m) 0 m.blocks none m.free_list bs l (omega arith)) [
      | inl (r, none_fits) ↦ absurd (some_free (all_used m.blocks m.free_list bs l none_fits))
      | inr (xs, a, ys, spelt, r, before, u, k) ↦
          let laid' : IsLaid m base (xs ++ (a ∷ ys)) = rw spelt at laid in
          (
            xs,
            a,
            ys,
            spelt,
            taken-Takes 0 m base xs a ys (mm_alloc malloc wanted m) laid' before u k (
                rw wrapped at (
                  alloc_some malloc wanted m base (last_free m.blocks none xs) a e (omega arith)
                    (rw wrapped r))),
          )
    ]
