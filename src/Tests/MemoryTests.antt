-- ===== src/Tests/MemoryTests.antt =====
-- The copy loops on concrete buffers.
use freelang_independent_ful.Prelude.{◌≡◌, refl, [], ◌∷◌, arith, get_or}
use freelang_independent_ful.Memory.{my_memmove, move_up, move_down}
use freelang_independent_ful.Memory.Copy.{written, get_or-my_memmove}

my_memmove_overlaps : my_memmove (1 ∷ 2 ∷ 3 ∷ 4 ∷ 5 ∷ []) 1 0 4 ≡ 1 ∷ 1 ∷ 2 ∷ 3 ∷ 4 ∷ []
unfolding my_memmove move_up move_down
my_memmove_overlaps = refl

get_or-my_memmove_example :
    get_or (my_memmove (1 ∷ 2 ∷ 3 ∷ 4 ∷ 5 ∷ []) 1 0 4) 3 0
    ≡ written (1 ∷ 2 ∷ 3 ∷ 4 ∷ 5 ∷ []) 1 (1 ∷ 2 ∷ 3 ∷ 4 ∷ 5 ∷ []) 0 4 3
get_or-my_memmove_example = get_or-my_memmove (1 ∷ 2 ∷ 3 ∷ 4 ∷ 5 ∷ []) 1 0 4 3 (omega arith)
