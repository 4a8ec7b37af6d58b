-- ===== src/MemoryManager.antt =====
-- The memory manager of myos-lib/src/mm.c. Memory is seen as the block header that stands at each
-- address; a header is written whole or field by field, and the bytes between the headers belong to
-- the callers. Pointers are addresses, NULL is `none`. The calls of mmap and of the libc malloc are
-- arguments. `none` as the result of a whole call is a loop that has used up its rounds.
pub mod Inspect
pub mod Layout
pub mod Fitting
pub mod Alloc
pub mod Frame
pub mod FirstFit
pub mod Start
pub mod Place
pub mod Merge
pub mod Touch
pub mod Join
pub mod Free
pub mod LostBytes
use freelang_independent_ful.Prelude.{
  ℕ, zero, suc, ◌+◌, ◌-◌, ◌*◌, ◌/◌, ◌%◌, ◌^◌, Bool, true, false, not, ◌&&◌, ◌||◌, Option, none,
  some, List, [], ◌∷◌, ltb, leb, ◌==◌, if◌then◌else◌,
}
use freelang_independent_ful.Memory.{add_size, sub_size}
use freelang_independent_ful.Status.{Status, ok, fail}

pub record MemBlock : Type 0 where
  pub magic : ℕ
  pub is_free : ℕ
  pub size : ℕ
  pub next : Option ℕ
  pub prev : Option ℕ

abbrev pub mem_magic : ℕ
mem_magic = 0xdeadbeef

abbrev pub mem_align : ℕ
mem_align = 16

abbrev pub metadata_size : ℕ
metadata_size = 32

-- the static variables, and the headers in memory
pub record Manager : Type 0 where
  pub heap_base : Option ℕ
  pub heap_size : ℕ
  pub free_list : Option ℕ
  pub total_allocations : ℕ
  pub total_deallocations : ℕ
  pub current_allocated : ℕ
  pub blocks : ℕ → MemBlock

unfoldable pub align_up : ℕ → ℕ → ℕ
align_up size align = sub_size (add_size size align) 1 / align * align

-- `*p = b`
unfoldable pub put : ℕ → MemBlock → (ℕ → MemBlock) → ℕ → MemBlock
put p b blocks q = if q == p then b else blocks q

-- `if (p) p->prev = q`
unfoldable pub set_prev : Option ℕ → Option ℕ → (ℕ → MemBlock) → ℕ → MemBlock
unfolding put
set_prev none q blocks = blocks
set_prev (some p) q blocks = put p (record (blocks p) { prev = q }) blocks

unfoldable pub set_next : ℕ → Option ℕ → (ℕ → MemBlock) → ℕ → MemBlock
unfolding put
set_next p q blocks = put p (record (blocks p) { next = q }) blocks

-- the address behind a block with so many bytes of data
unfoldable pub behind : ℕ → ℕ → ℕ
behind block size = add_size (add_size block metadata_size) size

-- `mmap` yields the address of the new memory, or fails
unfoldable pub mm_init : (ℕ → Option ℕ) → ℕ → Manager → Status × Manager
unfolding align_up put
mm_init mmap requested_size m = elim m.heap_base [
  | some _ ↦ (fail, m)
  | none ↦
      let heap_size = align_up requested_size 4096 in
      elim (mmap heap_size) [
        | none ↦ (fail, record m { heap_base = none; heap_size = heap_size })
        | some base ↦ (
          ok,
          record m {
            heap_base = some base;
            heap_size = heap_size;
            free_list = some base;
            blocks =
                put base
                  (record {
                    magic = mem_magic;
                    is_free = 1;
                    size = sub_size heap_size metadata_size;
                    next = none;
                    prev = none;
                  })
                  m.blocks;
          },
        )
      ]
]

-- Two blocks are at least a header apart, so a list of blocks has no more of them than fit the heap.
unfoldable pub rounds : Manager → ℕ
rounds m = m.heap_size / metadata_size + 1

-- what the search of `mm_alloc` finds: the block, and the one before it on the list
pub data Fit : Type 0 where
  spinning no_fit : Fit
  fit : Option ℕ → ℕ → Fit

unfoldable pub fits : ℕ → MemBlock → Bool
fits size b = not (b.is_free == 0) && leb size b.size

-- the loop of `mm_alloc`, with `n` rounds left
unfoldable pub find_fit : ℕ → Option ℕ → Option ℕ → ℕ → (ℕ → MemBlock) → Fit
unfolding fits
find_fit zero prev block size blocks = spinning
find_fit (suc n) prev none size blocks = no_fit
find_fit (suc n) prev (some block) size blocks =
    let rest = find_fit n (some block) (blocks block).next size blocks in
    if fits size (blocks block) then fit prev block else rest

-- the block cut in two, when what is left holds a header and more
unfoldable pub split : ℕ → ℕ → (ℕ → MemBlock) → ℕ → MemBlock
unfolding put set_prev set_next behind
split block size blocks =
    let b = blocks block in
    let new_block = behind block size in
    if ltb (add_size size metadata_size) b.size
    then set_next block (some new_block) (
        set_prev b.next (some new_block) (
          put new_block
            (record {
              magic = mem_magic;
              is_free = 1;
              size = sub_size (sub_size b.size size) metadata_size;
              next = b.next;
              prev = some block;
            })
            blocks))
    else blocks

-- `block->size = size; block->is_free = 0;`
unfoldable pub occupied : ℕ → ℕ → (ℕ → MemBlock) → ℕ → MemBlock
unfolding put
occupied block size blocks = put block (record (blocks block) { size = size; is_free = 0 }) blocks

-- the block taken off the free list: the head of the list, and the headers
unfoldable pub unlinked : Option ℕ → ℕ → Option ℕ → (ℕ → MemBlock) → Option ℕ × (ℕ → MemBlock)
unfolding set_prev set_next
unlinked none block free_list blocks =
    ((blocks block).next, set_prev (blocks block).next none blocks)
unlinked (some prev) block free_list blocks =
    (free_list, set_prev (blocks block).next (some prev) (set_next prev (blocks block).next blocks))

-- the body of the loop of `mm_alloc`, once a block is found
unfoldable pub taken : Option ℕ → ℕ → ℕ → Manager → Manager
unfolding split occupied unlinked
taken prev block size m =
    let (free_list, blocks) =
      unlinked prev block m.free_list (occupied block size (split block size m.blocks)) in
    record m {
      free_list = free_list;
      blocks = blocks;
      total_allocations = add_size m.total_allocations 1;
      current_allocated = add_size m.current_allocated size;
    }

unfoldable pub mm_alloc : (ℕ → Option ℕ) → ℕ → Manager → Option (Option ℕ × Manager)
unfolding align_up find_fit taken rounds
mm_alloc malloc wanted m = if wanted == 0 then some (none, m) else elim m.heap_base [
  | none ↦ some (malloc wanted, m)
  | some _ ↦
      let size = align_up wanted mem_align in
      elim (find_fit (rounds m) none m.free_list size m.blocks) [
        | spinning ↦ none
        | no_fit ↦ some (none, m)
        | fit prev block ↦ some (some (add_size block metadata_size), taken prev block size m)
      ]
]

-- the place of a block on the free list, which is in the order of addresses: the blocks before and
-- behind it
unfoldable pub find_place :
    ℕ → Option ℕ → Option ℕ → ℕ → (ℕ → MemBlock) → Option (Option ℕ × Option ℕ)
find_place zero pos curr block blocks = none
find_place (suc n) pos none block blocks = some (pos, none)
find_place (suc n) pos (some curr) block blocks =
    let rest = find_place n (some curr) (blocks curr).next block blocks in
    if ltb curr block then rest else some (pos, some curr)

-- the block put on the free list between the two
unfoldable pub linked :
    Option ℕ → Option ℕ → ℕ → Option ℕ → (ℕ → MemBlock) → Option ℕ × (ℕ → MemBlock)
unfolding put set_prev set_next
linked none curr block free_list blocks = (
  some block,
  set_prev curr (some block)
      (put block (record (blocks block) { is_free = 1; next = curr; prev = none }) blocks),
)
linked (some pos) curr block free_list blocks = (
  free_list,
  set_prev curr (some block) (
      set_next pos (some block)
        (put block (record (blocks block) { is_free = 1; next = curr; prev = some pos }) blocks)),
)

-- two blocks made one, when the second stands right behind the first
unfoldable pub merge : ℕ → ℕ → (ℕ → MemBlock) → ℕ → MemBlock
unfolding put set_prev behind
merge block curr blocks =
    let b = blocks block in
    let c = blocks curr in
    if behind block b.size == curr
    then set_prev c.next (some block) (
        put block
          (record b { size = add_size b.size (add_size metadata_size c.size); next = c.next })
          blocks)
    else blocks

unfoldable pub merge_after : Option ℕ → ℕ → (ℕ → MemBlock) → ℕ → MemBlock
unfolding merge
merge_after none block blocks = blocks
merge_after (some curr) block blocks = merge block curr blocks

unfoldable pub merge_before : Option ℕ → ℕ → (ℕ → MemBlock) → ℕ → MemBlock
unfolding merge
merge_before none block blocks = blocks
merge_before (some pos) block blocks = merge pos block blocks

-- the lines of `mm_free` behind the checks
unfoldable pub returned : Option ℕ → Option ℕ → ℕ → Manager → Manager
unfolding linked merge_after merge_before
returned pos curr block m =
    let (free_list, blocks) = linked pos curr block m.free_list m.blocks in
    record m {
      free_list = free_list;
      blocks = merge_before pos block (merge_after curr block blocks);
      total_deallocations = add_size m.total_deallocations 1;
      current_allocated = sub_size m.current_allocated (m.blocks block).size;
    }

unfoldable pub mm_free : Option ℕ → Manager → Option Manager
unfolding find_place returned rounds
mm_free none m = some m
mm_free (some ptr) m = elim m.heap_base [
  | none ↦ some m
  | some _ ↦
      let block = sub_size ptr metadata_size in
      if not ((m.blocks block).magic == mem_magic) || not ((m.blocks block).is_free == 0)
      then some m
      else elim (find_place (rounds m) none m.free_list block m.blocks) [
        | none ↦ none
        | some (pos, curr) ↦ some (returned pos curr block m)
      ]
]

unfoldable pub mm_destroy : Manager → Manager
mm_destroy m = elim m.heap_base [
  | none ↦ m
  | some _ ↦ record m {
    heap_base = none;
    heap_size = 0;
    free_list = none;
    total_allocations = 0;
    total_deallocations = 0;
    current_allocated = 0;
  }
]
