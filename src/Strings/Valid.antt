-- ===== src/Strings/Valid.antt =====
-- The invariant of a string, and the text that it stands for.
use freelang_independent_ful.Prelude.{
  ℕ, zero, suc, ◌+◌, ◌*◌, ◌^◌, ◌≤◌, ◌<◌, ◌≡◌, refl, sym, ap, ◌∙◌, none, some, ltb, leb, get_or, set,
  take, length, arith, list_ext, inl, inr, ◌⊎◌, Option-cases, length-set, get_or-set, true, false,
  dec_lt, dec_le,
}
use native.Mathlib.Nat.{mul_assoc}
use freelang_independent_ful.Prelude.Slices.{get_or-take, length-take_of_le}
use freelang_independent_ful.Memory.{Bytes, size_mod, my_memcpy, mul_size, add_size}
use freelang_independent_ful.Memory.Copy.{length-my_memcpy, get_or-my_memcpy}
use freelang_independent_ful.Heap.{Heap, alloc, fresh, length-fresh}
use freelang_independent_ful.Strings.{
  String, done, failed, Run, copied, double_until, moved, regrow, string_ensure_capacity, ended,
}

-- The buffer holds `capacity + 1` bytes, the text fits, and a 0 stands behind it.
unfoldable pub IsValid : String → Type 0
IsValid s =
    length s.data' ≡ s.capacity + 1
    × s.len ≤ s.capacity
    × get_or s.data' s.len 0 ≡ 0
    × s.capacity + 1 < size_mod
    × 1 ≤ s.capacity

unfoldable pub text : String → Bytes
text s = take s.len s.data'

-- The string has no room for so many bytes, and a larger buffer that would have is refused.
unfoldable pub IsRefused : String → ℕ → Heap → Type 0
IsRefused s required h = s.capacity < required × (c : ℕ) × required ≤ c × (alloc (c + 1) h).0 ≡ none

-- A call that changes the string either ends with the given text in a valid string, or, if it is
-- refused room for so many bytes, fails and leaves the string as it was.
unfoldable pub Yields : String → ℕ → Heap → Bytes → Run → Type 0
Yields s required h xs (o, s', h') =
    (o ≡ done × IsValid s' × text s' ≡ xs) ⊎ (o ≡ failed × s' ≡ s × IsRefused s required h)

-- The prefix of a buffer, byte by byte.
pub prefix_ext :
    (buf spec : Bytes) (n : ℕ)
    → length spec ≡ n
    → n ≤ length buf
    → ((i : ℕ) → i < n → get_or buf i 0 ≡ get_or spec i 0)
    → take n buf ≡ spec
prefix_ext buf spec n l h e =
    list_ext (take n buf) spec 0 (length-take_of_le n buf h ∙ sym l) (λ i p.
      let q = length-take_of_le n buf h in
      get_or-take n buf i 0 ∙ (let r : i < n = omega arith in ground (arith, r, e i r)))

pub length-text : (s : String) → IsValid s → length (text s) ≡ s.len
unfolding IsValid text
length-text s (l, f, z, b, o) = length-take_of_le s.len s.data' (omega arith)

pub get_or-text : (s : String) (i : ℕ) → i < s.len → get_or (text s) i 0 ≡ get_or s.data' i 0
unfolding text
get_or-text s i h = get_or-take s.len s.data' i 0 ∙ ground arith

-- The last lines of an edit: any buffer of the right size is a valid string again.
pub ended-IsValid :
    (s : String) (buf : Bytes) (len : ℕ)
    → IsValid s
    → length buf ≡ length s.data'
    → len ≤ s.capacity
    → IsValid (ended s buf len) × text (ended s buf len) ≡ take len buf
unfolding IsValid ended text
ended-IsValid s buf len (l, f, z, b, o) same h = (
  (
    length-set buf len 0 ∙ same ∙ l,
    h,
    get_or-set buf len len 0 0 (omega arith) ∙ ground arith,
    b,
    o,
  ),
  prefix_ext (set buf len 0) (take len buf) len (length-take_of_le len buf (omega arith))
      (omega (arith, length-set buf len 0))
      (λ i p. get_or-set buf len i 0 0 (omega arith) ∙ ground (arith, get_or-take len buf i 0)),
)

moved-Kept :
    (s : String) (c b : ℕ) (buf : Bytes)
    → IsValid s
    → s.len ≤ c
    → c + 1 < size_mod
    → 1 ≤ c
    → length buf ≡ c + 1
    → IsValid (moved s c b buf) × text (moved s c b buf) ≡ text s
unfolding IsValid moved copied text
moved-Kept s c b buf (l, f, z, bound, o) h h' one same =
    let m = length-my_memcpy buf 0 s.data' 0 s.len in
    (
      (
        length-set (my_memcpy buf 0 s.data' 0 s.len) s.len 0 ∙ m ∙ same,
        h,
        get_or-set (my_memcpy buf 0 s.data' 0 s.len) s.len s.len 0 0 (omega arith) ∙ ground arith,
        h',
        one,
      ),
      prefix_ext (set (my_memcpy buf 0 s.data' 0 s.len) s.len 0) (take s.len s.data') s.len
          (length-take_of_le s.len s.data' (omega arith))
          (omega (arith, length-set (my_memcpy buf 0 s.data' 0 s.len) s.len 0))
          (λ i p.
            get_or-set (my_memcpy buf 0 s.data' 0 s.len) s.len i 0 0 (omega arith)
            ∙ ground
                (arith, get_or-my_memcpy buf 0 s.data' 0 s.len i, get_or-take s.len s.data' i 0)),
    )

double_pow : (c m : ℕ) → c * 2 ^ suc m ≡ (c * 2) * 2 ^ m
double_pow c m =
    let e : 2 ^ suc m ≡ 2 * 2 ^ m = omega arith in ap (λ t. c * t) e ∙ sym (mul_assoc c 2 (2 ^ m))

-- Doubling gets to any size up to 2^62.
double_until-reaches :
    (m c r : ℕ)
    → r ≤ c * 2 ^ m
    → r ≤ 2 ^ 62
    → c ≤ 2 ^ 63
    → (c' : ℕ) × (double_until (suc m) c r ≡ some c') × r ≤ c' × c ≤ c' × c' ≤ 2 ^ 63
unfolding double_until
double_until-reaches zero c r h k b =
    let t : ltb c r ≡ false = ground arith in rw t (c, refl, omega arith, omega arith, b)
double_until-reaches (suc m) c r h k b = elim (dec_lt c r) [
  | no enough ↦
      let t : ltb c r ≡ false = ground arith in rw t (c, refl, omega arith, omega arith, b)
  | yes small ↦
      let t : ltb c r ≡ true = ground arith in
      let e : mul_size c 2 ≡ c * 2 = omega arith in
      let up : r ≤ (c * 2) * 2 ^ m = rw (double_pow c m) at h in
      let (c', found, p, q, u) = double_until-reaches m (c * 2) r up k (omega arith) in
      rw (t, e) (c', found, p, omega arith, u)
]

-- The move to a larger buffer, when memory is had.
regrow_lem :
    (s : String) (c : ℕ) (h : Heap)
    → IsValid s
    → s.len ≤ c
    → c ≤ 2 ^ 63
    → 1 ≤ c
    → let (o, s', h') = regrow s c h in
      (o ≡ done × IsValid s' × text s' ≡ text s × s'.len ≡ s.len × c ≤ s'.capacity)
      ⊎ (o ≡ failed × s' ≡ s × (alloc (c + 1) h).0 ≡ none)
unfolding regrow moved
regrow_lem s c h v p q one = elim (Option-cases (alloc (add_size c 1) h).0) [
  | inl refused ↦
      let size : add_size c 1 ≡ c + 1 = omega arith in
      let refused' : (alloc (c + 1) h).0 ≡ none = rw size at refused in
      rw (regrow, refused) (inr (refl, refl, refused'))
  | inr (b, got) ↦
      let size : add_size c 1 ≡ c + 1 = omega arith in
      let kept =
        moved-Kept s c b (fresh h b (add_size c 1)) v p (omega arith) one
          (length-fresh h b (add_size c 1) ∙ size) in
      rw (regrow, got) (inl (refl, kept.0, kept.1, refl, omega arith))
]

grown :
    (s : String) (required : ℕ) (h : Heap)
    → IsValid s
    → s.capacity < required
    → (c : ℕ) → required ≤ c
    → s.capacity * 2 ≤ c
    → c ≤ 2 ^ 63
    → let (o, s', h') = regrow s c h in
      (o ≡ done × IsValid s' × text s' ≡ text s × s'.len ≡ s.len × required ≤ s'.capacity)
      ⊎ (o ≡ failed × s' ≡ s × IsRefused s required h)
unfolding IsValid IsRefused
grown s required h v small c enough more bound =
    let (l, f, z, b, o) = v in
    elim (regrow_lem s c h v (omega arith) bound (omega arith)) [
      | inl (e, valid, same, n, room) ↦ inl (e, valid, same, n, omega arith)
      | inr (e, same, refused) ↦ inr (e, same, (small, c, enough, refused))
    ]

-- Making room for up to 2^62 bytes does not spin: it leaves a valid string with the same text and a
-- capacity as asked for; or, when the capacity is less and the environment refuses a larger buffer, it
-- fails and changes nothing.
pub ensure_lem :
    (s : String) (required : ℕ) (h : Heap)
    → IsValid s
    → required ≤ 2 ^ 62
    → let (o, s', h') = string_ensure_capacity s required h in
      (o ≡ done × IsValid s' × text s' ≡ text s × s'.len ≡ s.len × required ≤ s'.capacity)
      ⊎ (o ≡ failed × s' ≡ s × IsRefused s required h)
unfolding string_ensure_capacity IsValid
ensure_lem s required h v r = elim (dec_le required s.capacity) [
  | yes enough ↦
      let t : leb required s.capacity ≡ true = ground arith in
      rw t (inl (refl, v, refl, refl, enough))
  | no small ↦
      let t : leb required s.capacity ≡ false = ground arith in
      let (l, f, z, b, o) = v in
      let e : mul_size s.capacity 2 ≡ s.capacity * 2 = omega arith in
      let (c, found, enough, more, bound) =
        double_until-reaches 64 (s.capacity * 2) required (omega arith) r (omega arith) in
      rw (t, e, found) (grown s required h v (omega arith) c enough more bound)
]
