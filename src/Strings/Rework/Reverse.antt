-- ===== src/Strings/Rework/Reverse.antt =====
-- `string_reverse`: the swaps turn the text round, and what they do to an empty string.
use freelang_independent_ful.Prelude.{
  ℕ, zero, suc, ◌+◌, ◌-◌, ◌*◌, ◌^◌, ◌≤◌, ◌<◌, ◌≡◌, refl, ap, ◌∙◌, true, false, ◌&&◌, none, some, [],
  ◌∷◌, ltb, leb, ◌==◌, if◌then◌else◌, get_or, set, take, length, arith, inl, inr, Bool-cases,
  dec_lt, ℕ_discrete, length-set, get_or-set,
}
use freelang_independent_ful.Memory.{Bytes, size_mod, sub_size}
use freelang_independent_ful.Strings.{String}
use freelang_independent_ful.Strings.Valid.{IsValid, text, length-text, get_or-text, prefix_ext}
use freelang_independent_ful.Strings.Convert.{turned}
use freelang_independent_ful.Strings.Convert.RoundTrip.{length-turned}
use freelang_independent_ful.Strings.Rework.{swap_from, string_reverse}

-- the buffer with the bytes from `l` to `r` turned round
unfoldable pub Turned : Bytes → ℕ → ℕ → Bytes → Type 0
Turned buf l r buf' =
    length buf' ≡ length buf
    × ((j : ℕ)
        → get_or buf' j 0
          ≡ (if leb l j && leb j r then get_or buf (l + r - j) 0 else get_or buf j 0))

same :
    (l r j : ℕ) (buf : Bytes)
    → r ≤ l
    → get_or buf j 0 ≡ (if leb l j && leb j r then get_or buf (l + r - j) 0 else get_or buf j 0)
same l r j buf h = elim (Bool-cases (leb l j && leb j r)) [
  | inl e ↦ rw e (ap (λ t. get_or buf t 0) (ground arith))
  | inr e ↦ rw e refl
]

swapped_byte :
    (buf : Bytes) (l r j : ℕ)
    → r < length buf
    → l < r
    → get_or (set (set buf l (get_or buf r 0)) r (get_or buf l 0)) j 0
      ≡ (if r == j then get_or buf l 0 else if l == j then get_or buf r 0 else get_or buf j 0)
swapped_byte buf l r j h k =
    get_or-set (set buf l (get_or buf r 0)) r j (get_or buf l 0) 0
      (omega (arith, length-set buf l (get_or buf r 0)))
    ∙ ap (λ t. if r == j then get_or buf l 0 else t)
        (get_or-set buf l j (get_or buf r 0) 0 (omega arith))

swap_from-Turned :
    (n l r : ℕ) (buf : Bytes)
    → r < length buf
    → r < size_mod
    → r + 2 ≤ l + 2 * n
    → (l ≤ r + 1)
    → (buf' : Bytes) × (swap_from n l r buf ≡ some buf') × Turned buf l r buf'
unfolding swap_from Turned
swap_from-Turned zero l r buf h b e o = absurd (omega arith)
swap_from-Turned (suc n) l r buf h b e o = elim (dec_lt l r) [
  | no stop ↦
      let t : ltb l r ≡ false = ground arith in
      rw t (buf, refl, (refl, λ j. same l r j buf (omega arith)))
  | yes go ↦
      let t : ltb l r ≡ true = ground arith in
      let back : sub_size r 1 ≡ r - 1 = omega arith in
      let swapped : Bytes = set (set buf l (get_or buf r 0)) r (get_or buf l 0) in
      let w : length swapped ≡ length buf =
        length-set (set buf l (get_or buf r 0)) r (get_or buf l 0)
        ∙ length-set buf l (get_or buf r 0) in
      let (buf', found, (size, at_j)) =
        swap_from-Turned n (l + 1) (r - 1) swapped (omega arith) (omega arith) (omega arith)
          (omega arith) in
      rw (t, back)
        (
          buf',
          found,
          (
            size ∙ w,
            λ j.
                at_j j
                ∙ ground (
                  arith,
                  swapped_byte buf l r j h go,
                  swapped_byte buf l r (l + 1 + (r - 1) - j) h go,
                ),
          ),
        )
]

turned_byte :
    (xs ys : Bytes) (j : ℕ)
    → get_or (turned xs ys) j 0
      ≡ (if ltb j (length xs) then get_or xs (length xs - 1 - j) 0 else get_or ys (j - length xs) 0)
unfolding turned
turned_byte [] ys j = ground arith
turned_byte (x ∷ xs) ys j = turned_byte xs (x ∷ ys) j ∙ elim (dec_lt j (length xs)) [
  | yes p ↦
      let e : suc (length xs) - 1 - j ≡ suc (length xs - 1 - j) = omega arith in rw e (ground arith)
  | no p ↦ elim (ℕ_discrete j (length xs)) [
    | yes q ↦
        let a : j - length xs ≡ 0 = omega arith in
        let b : suc (length xs) - 1 - j ≡ 0 = omega arith in rw (a, b) (ground arith)
    | no q ↦ let a : j - length xs ≡ suc (j - suc (length xs)) = omega arith in rw a (ground arith)
  ]
]

-- `string_reverse` of a valid string that is not empty ends, within as many rounds as the text has
-- bytes, with the bytes of the text in reverse order and the string still valid.
pub reverse_lem :
    (s : String)
    → IsValid s
    → 1 ≤ s.len
    → (s' : String) × (string_reverse s.len s ≡ some s') × IsValid s' × text s' ≡ turned (text s) []
unfolding string_reverse IsValid text Turned
reverse_lem s v h =
    let (l, f, z, bound, o) = v in
    let last : sub_size s.len 1 ≡ s.len - 1 = omega arith in
    let (buf', found, (size, at_j)) =
      swap_from-Turned s.len 0 (s.len - 1) s.data' (omega arith) (omega arith) (omega arith)
        (omega arith) in
    let n = length-text s v in
    rw (string_reverse, last, found)
      (
        record s { data' = buf' },
        refl,
        (size ∙ l, f, at_j s.len ∙ ground (arith, z), bound, o),
        prefix_ext buf' (turned (take s.len s.data') []) s.len
            (length-turned (take s.len s.data') [] ∙ omega arith) (omega arith)
            (λ j p.
              at_j j
              ∙ ground
                  (arith, turned_byte (take s.len s.data') [] j, get_or-text s (s.len - 1 - j))),
      )

swap_from-spins :
    (n l r : ℕ) (buf : Bytes) → l + 2 * n ≤ r → r < size_mod → swap_from n l r buf ≡ none
unfolding swap_from
swap_from-spins zero l r buf h b = refl
swap_from-spins (suc n) l r buf h b =
    let t : ltb l r ≡ true = ground arith in
    let back : sub_size r 1 ≡ r - 1 = omega arith in
    rw (t, back) (swap_from-spins n (l + 1) (r - 1) _ (omega arith) (omega arith))

-- On an empty string the index of the last byte wraps to 2^64 - 1: the loop of `string_reverse` does
-- not end within 2^63 - 1 rounds, although there is nothing to reverse.
pub reverse_spins :
    (rounds : ℕ) (s : String) → s.len ≡ 0 → rounds < 2 ^ 63 → string_reverse rounds s ≡ none
unfolding string_reverse
reverse_spins rounds s e h =
    let last : sub_size s.len 1 ≡ 2 ^ 64 - 1 = omega arith in
    rw
      (
        string_reverse,
        last,
        swap_from-spins rounds 0 (2 ^ 64 - 1) s.data' (omega arith) (omega arith),
      )
      refl
