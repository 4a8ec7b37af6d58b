-- ===== src/Serializer/Words.antt =====
-- The big-endian words of a frame: what a write puts down a read takes up.
use freelang_independent_ful.Prelude.{
  ℕ, zero, suc, ◌+◌, ◌*◌, ◌/◌, ◌%◌, ◌^◌, ◌≤◌, ◌<◌, ◌≡◌, refl, sym, ap, ◌∙◌, arith, [], ◌∷◌, ◌++◌,
  get_or, set, take, drop, length, length-append, get_or-append_right, length-drop,
  take-append-drop,
}
use freelang_independent_ful.Prelude.Slices.{length-take_of_le}
use freelang_independent_ful.Memory.{Bytes, memcpy_from, my_memcpy}
use freelang_independent_ful.Bits.{bit_or, or_disjoint}
use freelang_independent_ful.Serializer.{write_u32, read_u32, write_u16}

-- the four bytes of a word
abbrev pub be32 : ℕ → Bytes
be32 v = v / 2 ^ 24 % 256 ∷ v / 2 ^ 16 % 256 ∷ v / 2 ^ 8 % 256 ∷ v % 256 ∷ []

pub append_assoc : (xs ys zs : Bytes) → (xs ++ ys) ++ zs ≡ xs ++ (ys ++ zs)
append_assoc [] ys zs = refl
append_assoc (x ∷ xs) ys zs = ap (λ l. x ∷ l) (append_assoc xs ys zs)

-- A write behind what has been written.
set-append :
    (done xs : Bytes) (o k v : ℕ) → o ≡ length done + k → set (done ++ xs) o v ≡ done ++ set xs k v
set-append [] xs o k v e = ap (λ t. set xs t v) (omega arith)
set-append (x ∷ done) xs zero k v e = absurd (omega arith)
set-append (x ∷ done) xs (suc o) k v e = ap (λ l. x ∷ l) (set-append done xs o k v (omega arith))

-- A buffer is what has been written and the rest; a write goes to where the rest begins.
pub put_byte :
    (done rest : Bytes) (o v : ℕ)
    → o ≡ length done
    → 1 ≤ length rest
    → set (done ++ rest) o v ≡ (done ++ (v ∷ [])) ++ drop 1 rest
put_byte done [] o v e h = absurd (omega arith)
put_byte done (r ∷ rest) o v e h =
    set-append done (r ∷ rest) o 0 v (omega arith) ∙ sym (append_assoc done (v ∷ []) rest)

pub put_u16 :
    (done rest : Bytes) (o v : ℕ)
    → o ≡ length done
    → 2 ≤ length rest
    → write_u16 v (done ++ rest) o ≡ (done ++ (v / 2 ^ 8 % 256 ∷ v % 256 ∷ [])) ++ drop 2 rest
unfolding write_u16
put_u16 done [] o v e h = absurd (omega arith)
put_u16 done (a ∷ []) o v e h = absurd (omega arith)
put_u16 done (a ∷ b ∷ rest) o v e h =
    rw
      (
        set-append done (a ∷ b ∷ rest) o 0 (v / 2 ^ 8 % 256) (omega arith),
        set-append done (v / 2 ^ 8 % 256 ∷ b ∷ rest) (o + 1) 1 (v % 256) (omega arith),
      )
      (sym (append_assoc done (v / 2 ^ 8 % 256 ∷ v % 256 ∷ []) rest))

pub put_u32 :
    (done rest : Bytes) (o v : ℕ)
    → o ≡ length done
    → 4 ≤ length rest
    → write_u32 v (done ++ rest) o ≡ (done ++ be32 v) ++ drop 4 rest
unfolding write_u32
put_u32 done [] o v e h = absurd (omega arith)
put_u32 done (a ∷ []) o v e h = absurd (omega arith)
put_u32 done (a ∷ b ∷ []) o v e h = absurd (omega arith)
put_u32 done (a ∷ b ∷ c ∷ []) o v e h = absurd (omega arith)
put_u32 done (a ∷ b ∷ c ∷ d ∷ rest) o v e h =
    let v₀ : ℕ = v / 2 ^ 24 % 256 in
    let v₁ : ℕ = v / 2 ^ 16 % 256 in
    let v₂ : ℕ = v / 2 ^ 8 % 256 in
    rw
      (
        set-append done (a ∷ b ∷ c ∷ d ∷ rest) o 0 (v / 2 ^ 24 % 256) (omega arith),
        set-append done (v₀ ∷ b ∷ c ∷ d ∷ rest) (o + 1) 1 (v / 2 ^ 16 % 256) (omega arith),
        set-append done (v₀ ∷ v₁ ∷ c ∷ d ∷ rest) (o + 2) 2 (v / 2 ^ 8 % 256) (omega arith),
        set-append done (v₀ ∷ v₁ ∷ v₂ ∷ d ∷ rest) (o + 3) 3 (v % 256) (omega arith),
      )
      (sym (append_assoc done (be32 v) rest))

get_or-append_at :
    (done xs : Bytes) (o k : ℕ) → o ≡ length done + k → get_or (done ++ xs) o 0 ≡ get_or xs k 0
get_or-append_at done xs o k e =
    ap (λ t. get_or (done ++ xs) t 0) e ∙ get_or-append_right done xs k 0

-- the four bytes at an offset, joined
bytes_join :
    (a b c d : ℕ)
    → b < 256
    → c < 256
    → d < 256
    → bit_or (bit_or (bit_or (a * 2 ^ 24) (b * 2 ^ 16)) (c * 2 ^ 8)) d
      ≡ a * 2 ^ 24 + b * 2 ^ 16 + c * 2 ^ 8 + d
bytes_join a b c d p q r =
    let e₁ : bit_or (a * 2 ^ 24) (b * 2 ^ 16) ≡ (a * 2 ^ 8 + b) * 2 ^ 16 =
      or_disjoint 24 a (b * 2 ^ 16) (omega arith) ∙ omega arith in
    let e₂ : bit_or ((a * 2 ^ 8 + b) * 2 ^ 16) (c * 2 ^ 8) ≡ ((a * 2 ^ 8 + b) * 2 ^ 8 + c) * 2 ^ 8 =
      or_disjoint 16 (a * 2 ^ 8 + b) (c * 2 ^ 8) (omega arith) ∙ omega arith in
    rw (e₁, e₂) (or_disjoint 8 ((a * 2 ^ 8 + b) * 2 ^ 8 + c) d r ∙ omega arith)

pub read_u32_join :
    (buf : Bytes) (o : ℕ)
    → get_or buf (o + 1) 0 < 256
    → get_or buf (o + 2) 0 < 256
    → get_or buf (o + 3) 0 < 256
    → read_u32 buf o
      ≡ get_or buf o 0 * 2 ^ 24
        + get_or buf (o + 1) 0 * 2 ^ 16
        + get_or buf (o + 2) 0 * 2 ^ 8
        + get_or buf (o + 3) 0
unfolding read_u32
read_u32_join buf o p q r =
    bytes_join (get_or buf o 0) (get_or buf (o + 1) 0) (get_or buf (o + 2) 0) (get_or buf (o + 3) 0)
      p q r

-- The word whose bytes stand at an offset is what `serializer_read_u32` yields there.
pub read_u32-be32 :
    (done rest : Bytes) (o v : ℕ)
    → o ≡ length done
    → v < 2 ^ 32
    → read_u32 (done ++ (be32 v ++ rest)) o ≡ v
unfolding read_u32
read_u32-be32 done rest o v e h =
    rw
      (
        get_or-append_at done (be32 v ++ rest) o 0 (omega arith),
        get_or-append_at done (be32 v ++ rest) (o + 1) 1 (omega arith),
        get_or-append_at done (be32 v ++ rest) (o + 2) 2 (omega arith),
        get_or-append_at done (be32 v ++ rest) (o + 3) 3 (omega arith),
      )
      (bytes_join (v / 2 ^ 24 % 256) (v / 2 ^ 16 % 256) (v / 2 ^ 8 % 256) (v % 256) (omega arith)
          (omega arith) (omega arith)
        ∙ omega arith)

pub append-nil : (xs : Bytes) → xs ++ [] ≡ xs
append-nil [] = refl
append-nil (x ∷ xs) = ap (λ l. x ∷ l) (append-nil xs)

take-drop_head :
    (n i : ℕ) (src : Bytes)
    → i < length src
    → take (suc n) (drop i src) ≡ get_or src i 0 ∷ take n (drop (i + 1) src)
take-drop_head n i [] h = absurd (omega arith)
take-drop_head n zero (x ∷ src) h = refl
take-drop_head n (suc i) (x ∷ src) h =
    let e : suc i + 1 ≡ suc (i + 1) = omega arith in rw e (take-drop_head n i src (omega arith))

copy-from :
    (n i : ℕ) (done rest src : Bytes) (o : ℕ)
    → o + i ≡ length done
    → n ≤ length rest
    → i + n ≤ length src
    → memcpy_from n i (done ++ rest) o src 0 ≡ (done ++ take n (drop i src)) ++ drop n rest
unfolding memcpy_from
copy-from zero i done rest src o e h k = ap (λ l. l ++ rest) (sym (append-nil done))
copy-from (suc n) i done [] src o e h k = absurd (omega arith)
copy-from (suc n) i done (r ∷ rest) src o e h k =
    let z : 0 + i ≡ i = omega arith in
    ap (λ k. memcpy_from n (i + 1) (set (done ++ r ∷ rest) (o + i) (get_or src k 0)) o src 0) z
    ∙ ap (λ l. memcpy_from n (i + 1) l o src 0)
        (put_byte done (r ∷ rest) (o + i) (get_or src i 0) e (omega arith))
    ∙ copy-from n (i + 1) (done ++ (get_or src i 0 ∷ [])) rest src o
        (omega (arith, length-append done (get_or src i 0 ∷ []))) (omega arith) (omega arith)
    ∙ ap (λ l. l ++ drop n rest)
        (append_assoc done (get_or src i 0 ∷ []) (take n (drop (i + 1) src))
          ∙ ap (λ l. done ++ l) (sym (take-drop_head n i src (omega arith))))

-- The copy of the first `n` bytes of a buffer.
pub put_copy :
    (done rest src : Bytes) (o n : ℕ)
    → o ≡ length done
    → n ≤ length rest
    → n ≤ length src
    → my_memcpy (done ++ rest) o src 0 n ≡ (done ++ take n src) ++ drop n rest
unfolding my_memcpy
put_copy done rest src o n e h k = copy-from n 0 done rest src o (omega arith) h (omega arith)

-- A word below 2^32 written anywhere inside a buffer is read back from there.
pub read_u32-write_u32 :
    (buf : Bytes) (o v : ℕ) → o + 4 ≤ length buf → v < 2 ^ 32 → read_u32 (write_u32 v buf o) o ≡ v
read_u32-write_u32 buf o v h k =
    let l : length (take o buf) ≡ o = length-take_of_le o buf (omega arith) in
    let r = length-drop o buf in
    ap (λ b. read_u32 (write_u32 v b o) o) (sym (take-append-drop o buf))
    ∙ ap (λ b. read_u32 b o)
        (put_u32 (take o buf) (drop o buf) o v (sym l) (omega arith)
          ∙ append_assoc (take o buf) (be32 v) (drop 4 (drop o buf)))
    ∙ read_u32-be32 (take o buf) (drop 4 (drop o buf)) o v (sym l) k
