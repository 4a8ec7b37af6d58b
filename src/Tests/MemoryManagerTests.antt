-- ===== src/Tests/MemoryManagerTests.antt =====
-- The memory manager of myos-lib/src/mm.c on a heap of one page at the address 4096.
use freelang_independent_ful.Prelude.{
  ℕ, ◌+◌, ◌^◌, ◌≤◌, ◌<◌, ◌≡◌, refl, ◌⊎◌, inl, inr, Option, none, some, List, [], ◌∷◌, ◌++◌, true,
  arith, if◌then◌else◌, ◌==◌,
}
use freelang_independent_ful.Status.{ok, fail}
use freelang_independent_ful.MemoryManager.{
  MemBlock, Manager, mem_magic, mm_init, mm_alloc, mm_free, mm_destroy,
}
use freelang_independent_ful.MemoryManager.Inspect.{MmStats, mm_get_stats, mm_validate, itoa_simple}
use freelang_independent_ful.MemoryManager.Layout.{Apart, Linked, IsLaid}
use freelang_independent_ful.MemoryManager.Free.{Joins, free-IsLaid}
use freelang_independent_ful.MemoryManager.FirstFit.{Takes}
use freelang_independent_ful.MemoryManager.Start.{init-IsLaid, alloc_wraps}
use freelang_independent_ful.MemoryManager.LostBytes.{IsWhole, alloc_loses}

abbrev zeros : MemBlock
zeros = record { magic = 0; is_free = 0; size = 0; next = none; prev = none }

abbrev idle : Manager
idle = record {
  heap_base = none;
  heap_size = 0;
  free_list = none;
  total_allocations = 0;
  total_deallocations = 0;
  current_allocated = 0;
  blocks = λ _. zeros;
}

abbrev page_at : ℕ → Option ℕ
page_at size = if size == 4096 then some 4096 else none

abbrev no_malloc : ℕ → Option ℕ
no_malloc size = none

page_at-bound : (size base : ℕ) → page_at size ≡ some base → base + size < 2 ^ 64
page_at-bound size base e = ground arith

init-IsLaid_example :
    let (status, m') = mm_init page_at 100 idle in
    (status ≡ ok × 100 ≤ m'.heap_size × (base : ℕ) × IsWhole m' base)
    ⊎ (status ≡ fail × m'.heap_base ≡ none)
init-IsLaid_example = init-IsLaid page_at 100 idle refl (omega arith) (omega arith) page_at-bound

abbrev page : Manager
page = record idle {
  heap_base = some 4096;
  heap_size = 4096;
  free_list = some 4096;
  blocks = λ p.
      if p == 4096
      then record { magic = mem_magic; is_free = 1; size = 4064; next = none; prev = none }
      else zeros;
}

page-IsLaid : IsLaid page 4096 (4096 ∷ [])
unfolding IsLaid Linked Apart
page-IsLaid = (refl, omega arith, inr (refl, refl, refl), (omega arith, omega arith))

page-IsWhole : IsWhole page 4096
unfolding IsWhole
page-IsWhole = (page-IsLaid, refl, refl, refl)

alloc_wraps_example :
    (xs : List ℕ) × (a : ℕ) × (ys : List ℕ) × (4096 ∷ [] ≡ xs ++ (a ∷ ys))
    × Takes 0 page 4096 xs a ys (mm_alloc no_malloc 0xffff_ffff_ffff_ffff page)
alloc_wraps_example =
    alloc_wraps no_malloc 0xffff_ffff_ffff_ffff page 4096 (4096 ∷ []) page-IsLaid
      (λ e. absurd (ground arith)) (omega arith) (omega arith)

alloc_loses_example :
    (m' : Manager) × (mm_alloc no_malloc 4040 page ≡ some (some 4128, m'))
    × (mm_validate m' ≡ some fail)
alloc_loses_example =
    alloc_loses no_malloc 4040 page 4096 page-IsWhole (omega arith) (omega arith) (omega arith)
      (omega arith) (λ e. absurd (ground arith))

-- a block taken and given back
stats_after : Option (Option ℕ × Manager) → Option MmStats
stats_after none = none
stats_after (some (p, m)) = elim (mm_free p m) [ none ↦ none | some m' ↦ mm_get_stats m' ]

there_and_back :
    stats_after (mm_alloc no_malloc 100 page)
    ≡ some (record {
      total_heap_size = 4096;
      allocated_size = 0;
      free_size = 4064;
      total_allocations = 1;
      total_deallocations = 1;
      free_blocks_count = 1;
      allocated_blocks_count = 0;
    })
unfolding stats_after mm_alloc mm_free mm_get_stats
there_and_back = refl

destroy_run : mm_validate (mm_destroy page) ≡ some fail
unfolding mm_validate mm_destroy
destroy_run = refl

itoa_run : itoa_simple true 255 16 ≡ 45 ∷ 102 ∷ 102 ∷ []
unfolding itoa_simple
itoa_run = refl

-- the page with 112 bytes of it in use
abbrev shared_page : Manager
shared_page = record page {
  free_list = some 4240;
  blocks = λ p.
      if p == 4096
      then record { magic = mem_magic; is_free = 0; size = 112; next = some 4240; prev = none }
      else if p == 4240
      then record { magic = mem_magic; is_free = 1; size = 3920; next = none; prev = none }
      else zeros;
}

shared_page-IsLaid : IsLaid shared_page 4096 ([] ++ (4096 ∷ 4240 ∷ []))
unfolding IsLaid Linked Apart
shared_page-IsLaid = (
  refl,
  omega arith,
  inl (refl, inr (refl, refl, refl)),
  (omega arith, (omega arith, omega arith)),
)

free-IsLaid_example :
    (m' : Manager) × (mm_free (some 4128) shared_page ≡ some m')
    × (us : List ℕ) × (p : ℕ) × (zs : List ℕ) × IsLaid m' 4096 (us ++ (p ∷ zs))
    × Joins shared_page.blocks m'.blocks [] 4096 (4240 ∷ []) us p zs
free-IsLaid_example = free-IsLaid shared_page 4096 [] 4096 (4240 ∷ []) shared_page-IsLaid refl refl
