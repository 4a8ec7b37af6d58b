-- ===== src/Memory/Copy.antt =====
-- What the copy loops leave in the buffer, byte by byte and as a sequence.
use freelang_independent_ful.Prelude.{
  ℕ, zero, suc, ◌+◌, ◌-◌, ◌≤◌, ◌<◌, ◌≡◌, refl, ◌∙◌, inl, inr, Bool-cases, ◌&&◌, arith, ltb, leb,
  if◌then◌else◌, length, get_or, set, length-set, get_or-set, get_or-set_self, get_or-set_apart,
  dec_lt, ltb→lt, ◌⊎◌,
}
use freelang_independent_ful.Memory.{Bytes, memcpy_from, my_memcpy, move_up, move_down, my_memmove}

-- byte `j` of a buffer into which `n` bytes of `src` from `s` on were put at `d`
abbrev pub written : Bytes → ℕ → Bytes → ℕ → ℕ → ℕ → ℕ
written dest d src s n j =
    if leb d j && ltb j (d + n) then get_or src (s + (j - d)) 0 else get_or dest j 0

length-memcpy_from :
    (n i : ℕ) (dest : Bytes) (d : ℕ) (src : Bytes) (s : ℕ)
    → length (memcpy_from n i dest d src s) ≡ length dest
unfolding memcpy_from
length-memcpy_from zero i dest d src s = refl
length-memcpy_from (suc n) i dest d src s =
    length-memcpy_from n (i + 1) (set dest (d + i) (get_or src (s + i) 0)) d src s
    ∙ length-set dest (d + i) (get_or src (s + i) 0)

pub length-my_memcpy :
    (dest : Bytes) (d : ℕ) (src : Bytes) (s n : ℕ) → length (my_memcpy dest d src s n) ≡ length dest
unfolding my_memcpy
length-my_memcpy dest d src s n = length-memcpy_from n 0 dest d src s

get_or-memcpy_from :
    (n i : ℕ) (dest : Bytes) (d : ℕ) (src : Bytes) (s j : ℕ)
    → d + i + n ≤ length dest
    → get_or (memcpy_from n i dest d src s) j 0 ≡ written dest (d + i) src (s + i) n j
unfolding memcpy_from
get_or-memcpy_from zero i dest d src s j h = ground arith
get_or-memcpy_from (suc n) i dest d src s j h = ground (
  arith,
  length-set dest (d + i) (get_or src (s + i) 0),
  get_or-memcpy_from n (i + 1) (set dest (d + i) (get_or src (s + i) 0)) d src s j,
  get_or-set dest (d + i) j (get_or src (s + i) 0) 0,
)

-- `my_memcpy` into a buffer with room puts the source bytes at the offset and leaves the rest.
pub get_or-my_memcpy :
    (dest : Bytes) (d : ℕ) (src : Bytes) (s n j : ℕ)
    → d + n ≤ length dest
    → get_or (my_memcpy dest d src s n) j 0 ≡ written dest d src s n j
unfolding my_memcpy
get_or-my_memcpy dest d src s n j h = ground (arith, get_or-memcpy_from n 0 dest d src s j)

length-move_up : (n i : ℕ) (buf : Bytes) (d s : ℕ) → length (move_up n i buf d s) ≡ length buf
unfolding move_up
length-move_up zero i buf d s = refl
length-move_up (suc n) i buf d s =
    length-move_up n (i + 1) (set buf (d + i) (get_or buf (s + i) 0)) d s
    ∙ length-set buf (d + i) (get_or buf (s + i) 0)

length-move_down : (n : ℕ) (buf : Bytes) (d s : ℕ) → length (move_down n buf d s) ≡ length buf
unfolding move_down
length-move_down zero buf d s = refl
length-move_down (suc n) buf d s =
    length-move_down n (set buf (d + n) (get_or buf (s + n) 0)) d s
    ∙ length-set buf (d + n) (get_or buf (s + n) 0)

pub length-my_memmove : (buf : Bytes) (d s n : ℕ) → length (my_memmove buf d s n) ≡ length buf
unfolding my_memmove
length-my_memmove buf d s n = ground (arith, length-move_up n 0 buf d s, length-move_down n buf d s)

move_down_outside :
    (n : ℕ) (buf : Bytes) (d s j : ℕ)
    → d + n ≤ length buf
    → (j < d) ⊎ (d + n ≤ j)
    → get_or (move_down n buf d s) j 0 ≡ get_or buf j 0
unfolding move_down
move_down_outside zero buf d s j h o = refl
move_down_outside (suc n) buf d s j h o =
    let v = get_or buf (s + n) 0 in
    move_down_outside n (set buf (d + n) v) d s j (omega (arith, length-set buf (d + n) v))
      (omega arith)
    ∙ get_or-set_apart buf (d + n) j v 0 (omega arith)

move_down_inside :
    (n : ℕ) (buf : Bytes) (d s k : ℕ)
    → s ≤ d
    → d + n ≤ length buf
    → k < n
    → get_or (move_down n buf d s) (d + k) 0 ≡ get_or buf (s + k) 0
unfolding move_down
move_down_inside zero buf d s k o h p = absurd (omega arith)
move_down_inside (suc n) buf d s k o h p =
    let v = get_or buf (s + n) 0 in
    let room : d + n ≤ length (set buf (d + n) v) = omega (arith, length-set buf (d + n) v) in
    elim (dec_lt k n) [
      | yes q ↦
          move_down_inside n (set buf (d + n) v) d s k o room q
          ∙ get_or-set_apart buf (d + n) (s + k) v 0 (omega arith)
      | no q ↦
          let e : k ≡ n = omega arith in
          rw e (
            move_down_outside n (set buf (d + n) v) d s (d + n) room (omega arith)
            ∙ get_or-set_self buf (d + n) v 0 (omega arith))
    ]

get_or-move_down :
    (n : ℕ) (buf : Bytes) (d s j : ℕ)
    → s ≤ d
    → d + n ≤ length buf
    → get_or (move_down n buf d s) j 0 ≡ written buf d buf s n j
get_or-move_down n buf d s j o h = elim (dec_lt j d) [
  | yes p ↦ ground (arith, move_down_outside n buf d s j h (omega arith))
  | no p ↦ elim (dec_lt j (d + n)) [
    | yes q ↦
        let e : d + (j - d) ≡ j = omega arith in
        ground (arith, e, move_down_inside n buf d s (j - d) o h (omega arith))
    | no q ↦ ground (arith, move_down_outside n buf d s j h (omega arith))
  ]
]

get_or-move_up :
    (n i : ℕ) (buf : Bytes) (d s j : ℕ)
    → d ≤ s
    → d + i + n ≤ length buf
    → get_or (move_up n i buf d s) j 0 ≡ written buf (d + i) buf (s + i) n j
unfolding move_up
get_or-move_up zero i buf d s j o h = ground arith
get_or-move_up (suc n) i buf d s j o h = ground (
  arith,
  length-set buf (d + i) (get_or buf (s + i) 0),
  get_or-move_up n (i + 1) (set buf (d + i) (get_or buf (s + i) 0)) d s j,
  get_or-set buf (d + i) j (get_or buf (s + i) 0) 0,
  get_or-set buf (d + i) (s + (i + 1) + (j - (d + (i + 1)))) (get_or buf (s + i) 0) 0,
)

-- `my_memmove` moves the bytes as they were before the call, whichever way the two ranges overlap.
pub get_or-my_memmove :
    (buf : Bytes) (d s n j : ℕ)
    → d + n ≤ length buf
    → get_or (my_memmove buf d s n) j 0 ≡ written buf d buf s n j
unfolding my_memmove
get_or-my_memmove buf d s n j h = elim (Bool-cases (ltb s d)) [
  | inl e ↦ rw e (get_or-move_down n buf d s j (omega (arith, ltb→lt s d e)) h)
  | inr e ↦ rw e (ground (arith, get_or-move_up n 0 buf d s j))
]
