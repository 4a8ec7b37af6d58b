-- ===== src/MemoryManager/Inspect.antt =====
-- The walks over the heap of myos-lib/src/mm.c: mm_get_stats and mm_validate, and the digits that
-- mm_dump_stats prints.
use freelang_independent_ful.Prelude.{
  ℕ, zero, suc, ◌+◌, ◌-◌, ◌/◌, ◌%◌, ◌^◌, Bool, not, ◌&&◌, ◌||◌, Option, none, some, [], ◌∷◌, ltb,
  ◌==◌, if◌then◌else◌,
}
use freelang_independent_ful.Memory.{Bytes, add_size}
use freelang_independent_ful.Status.{Status, ok, fail}
use freelang_independent_ful.MemoryManager.{MemBlock, Manager, mem_magic, behind, rounds}

pub record MmStats : Type 0 where
  pub total_heap_size : ℕ
  pub allocated_size : ℕ
  pub free_size : ℕ
  pub total_allocations : ℕ
  pub total_deallocations : ℕ
  pub free_blocks_count : ℕ
  pub allocated_blocks_count : ℕ

-- the walk along the free list: the bytes and the number of its blocks
unfoldable pub walk_free : ℕ → Option ℕ → ℕ → ℕ → (ℕ → MemBlock) → Option (ℕ × ℕ)
walk_free zero block free_size count blocks = none
walk_free (suc n) none free_size count blocks = some (free_size, count)
walk_free (suc n) (some block) free_size count blocks =
    let b = blocks block in
    let counted = walk_free n b.next (add_size free_size b.size) ((count + 1) % 2 ^ 32) blocks in
    let skipped = walk_free n b.next free_size count blocks in
    if b.is_free == 0 then skipped else counted

-- the walk along the heap: the number of blocks in use
unfoldable pub walk_heap : ℕ → ℕ → ℕ → ℕ → (ℕ → MemBlock) → Option ℕ
unfolding behind
walk_heap zero curr end count blocks = none
walk_heap (suc n) curr end count blocks =
    let b = blocks curr in
    let used = b.magic == mem_magic && b.is_free == 0 in
    let rest =
      walk_heap n (behind curr b.size) end (if used then (count + 1) % 2 ^ 32 else count) blocks in
    if ltb curr end then rest else some count

unfoldable pub count_used : Manager → Option ℕ
unfolding walk_heap rounds
count_used m = elim m.heap_base [
  | none ↦ some 0
  | some base ↦ walk_heap (rounds m) base (add_size base m.heap_size) 0 m.blocks
]

-- `none` when a walk has used up its rounds
unfoldable pub mm_get_stats : Manager → Option MmStats
unfolding walk_free count_used rounds
mm_get_stats m = elim (walk_free (rounds m) m.free_list 0 0 m.blocks) [
  | none ↦ none
  | some (free_size, free_count) ↦ elim (count_used m) [
    | none ↦ none
    | some used_count ↦ some (record {
      total_heap_size = m.heap_size;
      allocated_size = m.current_allocated;
      free_size = free_size;
      total_allocations = m.total_allocations;
      total_deallocations = m.total_deallocations;
      free_blocks_count = free_count;
      allocated_blocks_count = used_count;
    })
  ]
]

-- the loop of `mm_validate`
unfoldable pub check_from : ℕ → ℕ → ℕ → (ℕ → MemBlock) → Option Status
unfolding behind
check_from zero block end blocks = none
check_from (suc n) block end blocks =
    let b = blocks block in
    let block_end = behind block b.size in
    let rest = check_from n block_end end blocks in
    if ltb block end
    then (if not (b.magic == mem_magic) || ltb end block_end then some fail else rest)
    else some ok

unfoldable pub mm_validate : Manager → Option Status
unfolding check_from rounds
mm_validate m = elim m.heap_base [
  | none ↦ some fail
  | some base ↦ check_from (rounds m) base (add_size base m.heap_size) m.blocks
]

-- the digit characters of `itoa_simple`, in front of `out`; 63 binary digits are the most
unfoldable pub itoa_digits : ℕ → ℕ → ℕ → Bytes → Bytes
itoa_digits zero num base out = out
itoa_digits (suc n) num base out =
    let digit = if ltb (num % base) 10 then 48 + num % base else 97 + num % base - 10 in
    let rest = itoa_digits n (num / base) base (digit ∷ out) in if num == 0 then out else rest

-- the buffer up to the 0; the sign is apart
unfoldable pub itoa_simple : Bool → ℕ → ℕ → Bytes
unfolding itoa_digits
itoa_simple negative num base =
    let digits = itoa_digits 63 num base [] in
    if num == 0 then 48 ∷ [] else if negative then 45 ∷ digits else digits
