-- ===== src/Strings/Trim.antt =====
-- Trimming: the white space at both ends of the text.
use freelang_independent_ful.Prelude.{ℕ, [], ◌∷◌, if◌then◌else◌}
use freelang_independent_ful.Memory.{Bytes}
use freelang_independent_ful.Strings.{is_space}

-- the text without the white space in front of it
unfoldable pub trim_front : Bytes → Bytes
trim_front [] = []
trim_front (c ∷ cs) = let rest = trim_front cs in if is_space c then rest else c ∷ cs

-- the text without the white space behind it
unfoldable pub cons_unless_space : ℕ → Bytes → Bytes
cons_unless_space c [] = if is_space c then [] else c ∷ []
cons_unless_space c (d ∷ rest) = c ∷ d ∷ rest

unfoldable pub trim_back : Bytes → Bytes
unfolding cons_unless_space
trim_back [] = []
trim_back (c ∷ cs) = cons_unless_space c (trim_back cs)
