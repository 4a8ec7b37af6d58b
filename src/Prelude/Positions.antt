-- ===== src/Prelude/Positions.antt =====
-- Lists by position: insertion, removal and replacement, and what stands where afterwards.
use Prim.Native.Nat.{ℕ, zero, suc, ◌+◌, ◌-◌, ◌≤◌, ◌<◌}
use mathlib.Core.Path.{◌≡◌}
use mathlib.Core.List.{List, [], ◌∷◌}
use native.Mathlib.Omega.{arith}
use freelang_independent_ful.Prelude.Tests.{ltb, ◌==◌, if◌then◌else◌}
use freelang_independent_ful.Prelude.Lists.{length, get_or}

module _ {ℓ} {A : Type ℓ} where
  -- the list with `x` in front of position `i`
  abbrev pub insert_at : ℕ → A → List A → List A
  insert_at zero x xs = x ∷ xs
  insert_at (suc i) x [] = x ∷ []
  insert_at (suc i) x (y ∷ ys) = y ∷ insert_at i x ys

  -- the list with no position `i`
  abbrev pub remove_at : ℕ → List A → List A
  remove_at i [] = []
  remove_at zero (x ∷ xs) = xs
  remove_at (suc i) (x ∷ xs) = x ∷ remove_at i xs

  pub length-insert_at : (i : ℕ) (x : A) (xs : List A) → length (insert_at i x xs) ≡ length xs + 1
  length-insert_at zero x xs = omega arith
  length-insert_at (suc i) x [] = omega arith
  length-insert_at (suc i) x (y ∷ ys) = omega (arith, length-insert_at i x ys)

  pub length-remove_at :
      (i : ℕ) (xs : List A) → i < length xs → length (remove_at i xs) + 1 ≡ length xs
  length-remove_at i [] h = absurd (omega arith)
  length-remove_at zero (x ∷ xs) h = omega arith
  length-remove_at (suc i) (x ∷ xs) h = omega (arith, length-remove_at i xs (omega arith))

  pub get_or-insert_at :
      (i : ℕ) (x : A) (xs : List A) (k : ℕ) (d : A)
      → i ≤ length xs
      → get_or (insert_at i x xs) k d
        ≡ (if ltb k i then get_or xs k d else if k == i then x else get_or xs (k - 1) d)
  get_or-insert_at zero x xs zero d h = ground arith
  get_or-insert_at zero x xs (suc k) d h = let e : suc k - 1 ≡ k = omega arith in ground (arith, e)
  get_or-insert_at (suc i) x [] k d h = absurd (omega arith)
  get_or-insert_at (suc i) x (y ∷ ys) zero d h = ground arith
  get_or-insert_at (suc i) x (y ∷ ys) (suc zero) d h = ground (arith, get_or-insert_at i x ys 0 d)
  get_or-insert_at (suc i) x (y ∷ ys) (suc (suc k)) d h =
      let e : suc k - 1 ≡ k = omega arith in
      let e' : suc (suc k) - 1 ≡ suc k = omega arith in
      ground (arith, e, e', get_or-insert_at i x ys (suc k) d)

  pub get_or-remove_at :
      (i : ℕ) (xs : List A) (k : ℕ) (d : A)
      → get_or (remove_at i xs) k d ≡ (if ltb k i then get_or xs k d else get_or xs (k + 1) d)
  get_or-remove_at i [] k d = ground arith
  get_or-remove_at zero (x ∷ xs) k d = let e : k + 1 ≡ suc k = omega arith in rw e (ground arith)
  get_or-remove_at (suc i) (x ∷ xs) zero d = ground arith
  get_or-remove_at (suc i) (x ∷ xs) (suc k) d =
      let e : suc k + 1 ≡ suc (k + 1) = omega arith in
      rw e (ground (arith, get_or-remove_at i xs k d))
