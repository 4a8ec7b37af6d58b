-- ===== src/Strings/Split/Tally.antt =====
-- The parts of `string_split`, and how often the delimiter occurs in them and in the text.
use freelang_independent_ful.Prelude.{
  ℕ, zero, suc, ◌+◌, ◌%◌, ◌^◌, if◌then◌else◌, take, ◌≤◌, ◌<◌, ◌≡◌, refl, sym, ap, ◌∙◌, true, List,
  [], ◌∷◌, ◌++◌, ◌==◌, drop, length, arith,
}
use freelang_independent_ful.Prelude.Slices.{drop_head}
use freelang_independent_ful.Memory.{Bytes}
use freelang_independent_ful.Strings.{String}
use freelang_independent_ful.Strings.Valid.{text}
use freelang_independent_ful.Strings.Split.{count_parts}

-- the texts of the parts, each with the delimiter behind it
unfoldable pub closed : ℕ → List String → Bytes
closed d [] = []
closed d (p ∷ ps) = text p ++ (d ∷ closed d ps)

pub append_assoc : (xs ys zs : Bytes) → (xs ++ ys) ++ zs ≡ xs ++ (ys ++ zs)
append_assoc [] ys zs = refl
append_assoc (x ∷ xs) ys zs = ap (λ l. x ∷ l) (append_assoc xs ys zs)

pub closed-snoc :
    (d : ℕ) (ps : List String) (p : String)
    → closed d (ps ++ (p ∷ [])) ≡ closed d ps ++ (text p ++ (d ∷ []))
unfolding closed
closed-snoc d [] p = refl
closed-snoc d (q ∷ ps) p =
    ap (λ l. text q ++ (d ∷ l)) (closed-snoc d ps p)
    ∙ sym (append_assoc (text q) (d ∷ closed d ps) (text p ++ (d ∷ [])))

-- how often a byte occurs
unfoldable pub tally : ℕ → Bytes → ℕ
tally d [] = 0
tally d (x ∷ xs) = let rest = tally d xs in if x == d then rest + 1 else rest

-- none of the parts holds the byte
unfoldable pub Unsplit : ℕ → List String → Type 0
Unsplit d [] = Unit
Unsplit d (p ∷ ps) = tally d (text p) ≡ 0 × Unsplit d ps

tally-append : (d : ℕ) (xs ys : Bytes) → tally d (xs ++ ys) ≡ tally d xs + tally d ys
unfolding tally
tally-append d [] ys = omega arith
tally-append d (x ∷ xs) ys = let ih = tally-append d xs ys in ground arith

-- with `n` more bytes in front of the delimiter
pub tally-closed : (d : ℕ) (xs ys : Bytes) → tally d (xs ++ (d ∷ ys)) ≡ tally d xs + 1 + tally d ys
unfolding tally
tally-closed d xs ys =
    let same : (d == d) ≡ true = ground arith in tally-append d xs (d ∷ ys) ∙ rw same (omega arith)

length-le-tally : (d : ℕ) (ps : List String) → length ps ≤ tally d (closed d ps)
unfolding closed
length-le-tally d [] = omega arith
length-le-tally d (p ∷ ps) =
    let ih = length-le-tally d ps in omega (arith, ih, tally-closed d (text p) (closed d ps))

pub closed-Unsplit : (d : ℕ) (ps : List String) → tally d (closed d ps) ≤ length ps → Unsplit d ps
unfolding closed Unsplit
closed-Unsplit d [] h = tt
closed-Unsplit d (p ∷ ps) h =
    let more = length-le-tally d ps in
    let t = tally-closed d (text p) (closed d ps) in
    (omega (arith, more, t), closed-Unsplit d ps (omega (arith, more, t)))

pub count_parts-le :
    (n i : ℕ) (buf : Bytes) (d : ℕ) → n + 1 < 2 ^ 32 → count_parts n i buf d ≤ n + 1
unfolding count_parts
count_parts-le zero i buf d h = omega arith
count_parts-le (suc n) i buf d h =
    let ih = count_parts-le n (i + 1) buf d (omega arith) in
    let plain : (count_parts n (i + 1) buf d + 1) % 2 ^ 32 ≡ count_parts n (i + 1) buf d + 1 =
      omega arith in
    rw plain (ground arith)

pub count_parts-tally :
    (n i : ℕ) (buf : Bytes) (d : ℕ)
    → n + 1 < 2 ^ 32
    → i + n ≤ length buf
    → count_parts n i buf d ≡ tally d (take n (drop i buf)) + 1
unfolding count_parts tally
count_parts-tally zero i buf d h k = refl
count_parts-tally (suc n) i buf d h k =
    let most = count_parts-le n (i + 1) buf d (omega arith) in
    let plain : (count_parts n (i + 1) buf d + 1) % 2 ^ 32 ≡ count_parts n (i + 1) buf d + 1 =
      omega arith in
    let ih = count_parts-tally n (i + 1) buf d (omega arith) (omega arith) in
    rw (plain, drop_head i buf 0 (omega arith)) (ground (arith, ih))
