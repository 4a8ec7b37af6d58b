-- ===== src/ObjectPool/Slots.antt =====
-- The in-use bytes of a pool: how many are set, and what the search for a free one finds.
use freelang_independent_ful.Prelude.{
  ℕ, zero, suc, ◌+◌, ◌≤◌, ◌<◌, List, [], ◌∷◌, Option, none, some, ◌==◌, if◌then◌else◌, get_or, set,
  length, replicate, ◌≡◌, ◌≢◌, refl, arith, ℕ_discrete, false, dec_lt, ap, ◌∙◌,
}
use freelang_independent_ful.ObjectPool.{first_free}

unfoldable pub bit : ℕ → ℕ
bit b = if b == 0 then 0 else 1

-- the number of slots in use
unfoldable pub marked : List ℕ → ℕ
marked [] = 0
marked (b ∷ bs) = bit b + marked bs

pub marked-set :
    (bs : List ℕ) (i v : ℕ)
    → i < length bs
    → marked (set bs i v) + bit (get_or bs i 0) ≡ marked bs + bit v
unfolding marked
marked-set [] i v h = absurd (omega arith)
marked-set (b ∷ bs) zero v h = omega arith
marked-set (b ∷ bs) (suc i) v h = omega (arith, marked-set bs i v (omega arith))

pub marked-le : (bs : List ℕ) → marked bs ≤ length bs
unfolding marked bit
marked-le [] = omega arith
marked-le (b ∷ bs) = let ih = marked-le bs in ground arith

pub marked-replicate : (n : ℕ) → marked (replicate n 0) ≡ 0
unfolding marked bit
marked-replicate zero = refl
marked-replicate (suc n) = omega (arith, marked-replicate n)

-- what the search answers: the first free slot of the range, or that there is none
unfoldable pub Answer : List ℕ → ℕ → ℕ → Option ℕ → Type 0
Answer bs n i none = (j : ℕ) → i ≤ j → j < i + n → get_or bs j 0 ≢ 0
Answer bs n i (some k) =
    i ≤ k × k < i + n × get_or bs k 0 ≡ 0 × ((j : ℕ) → i ≤ j → j < k → get_or bs j 0 ≢ 0)

pub first_free-Answer : (n i : ℕ) (bs : List ℕ) → Answer bs n i (first_free n i bs)
unfolding Answer first_free
first_free-Answer zero i bs = λ j p q. absurd (omega arith)
first_free-Answer (suc n) i bs =
    from (ℕ_discrete (get_or bs i 0) 0) (first_free n (i + 1) bs) (first_free-Answer n (i + 1) bs)
  where
    from :
        Dec (get_or bs i 0 ≡ 0)
        → (r : Option ℕ) → Answer bs n (i + 1) r
        → Answer bs (suc n) i (if get_or bs i 0 == 0 then some i else r)
    from (yes e) r a = rw e (omega arith, omega arith, e, λ j p q. absurd (omega arith))
    from (no ne) none a =
        let e : (get_or bs i 0 == 0) ≡ false = ground arith in
        rw e (λ j p q. elim (dec_lt i j) [
          | yes l ↦ a j (omega arith) (omega arith)
          | no l ↦ (λ z. ne (ap (λ k. get_or bs k 0) (omega arith) ∙ z))
        ])
    from (no ne) (some k) a =
        let (p, q, z, w) = a in
        let e : (get_or bs i 0 == 0) ≡ false = ground arith in
        rw e (
          omega arith,
          omega arith,
          z,
          λ j l u. elim (dec_lt i j) [
            | yes t ↦ w j (omega arith) u
            | no t ↦ (λ z'. ne (ap (λ k. get_or bs k 0) (omega arith) ∙ z'))
          ],
        )

pub marked-full :
    (bs : List ℕ) → ((j : ℕ) → j < length bs → get_or bs j 0 ≢ 0) → marked bs ≡ length bs
unfolding marked bit
marked-full [] h = refl
marked-full (b ∷ bs) h =
    let ih = marked-full bs (λ j p. h (suc j) (omega arith)) in
    let e : (b == 0) ≡ false = let ne = h 0 (omega arith) in ground arith in rw e (omega arith)
