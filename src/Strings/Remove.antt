-- ===== src/Strings/Remove.antt =====
-- The edits that make a string shorter: removing and trimming.
use freelang_independent_ful.Prelude.{
  ℕ, ◌+◌, ◌-◌, ◌^◌, ◌≤◌, ◌<◌, ◌≡◌, sym, ap, ap₂, ◌∙◌, ◌++◌, ltb, leb, if◌then◌else◌, get_or, take,
  drop, length, arith, true, false, dec_lt, dec_le, length-append, length-drop,
}
use freelang_independent_ful.Prelude.Slices.{
  get_or-take, length-take_of_le, get_or-append, get_or-drop, take_past, drop_past, append-nil,
}
use freelang_independent_ful.Memory.{Bytes, size_mod, my_memmove, add_size, sub_size}
use freelang_independent_ful.Memory.Copy.{length-my_memmove, get_or-my_memmove}
use freelang_independent_ful.Strings.{String, ended, cut, string_remove}
use freelang_independent_ful.Strings.Valid.{
  IsValid, text, prefix_ext, length-text, get_or-text, ended-IsValid,
}

-- A valid string with the given text.
unfoldable pub Holds : String → Bytes → Type 0
Holds s xs = IsValid s × text s ≡ xs

-- the text without `count` bytes from `start` on
abbrev pub without : Bytes → ℕ → ℕ → Bytes
without xs start count = take start xs ++ drop (start + count) xs

length-without :
    (xs : Bytes) (start count : ℕ)
    → start + count ≤ length xs
    → length (without xs start count) ≡ length xs - count
length-without xs start count h = omega (
  arith,
  length-append (take start xs) (drop (start + count) xs),
  length-take_of_le start xs (omega arith),
  length-drop (start + count) xs,
)

without_byte :
    (xs : Bytes) (start count i : ℕ)
    → start ≤ length xs
    → get_or (without xs start count) i 0
      ≡ (if ltb i start then get_or xs i 0 else get_or xs (i + count) 0)
without_byte xs start count i h =
    let l = length-take_of_le start xs h in
    get_or-append (take start xs) (drop (start + count) xs) i 0
    ∙ ground (
      arith,
      get_or-take start xs i 0,
      get_or-drop (start + count) xs (i - length (take start xs)) 0,
    )

cut-Holds :
    (s : String) (start count : ℕ)
    → IsValid s
    → start + count ≤ s.len
    → Holds (cut s start count) (without (text s) start count)
unfolding cut Holds IsValid
cut-Holds s start count v h =
    let (l, f, _, bound, _) = v in
    let a = length-text s v in
    let from : add_size start count ≡ start + count = omega arith in
    let tail : sub_size (sub_size s.len start) count ≡ s.len - start - count = omega arith in
    let left : sub_size s.len count ≡ s.len - count = omega arith in
    let buf : Bytes = my_memmove s.data' start (start + count) (s.len - start - count) in
    let w = length-my_memmove s.data' start (start + count) (s.len - start - count) in
    let (valid, t) =
      ended-IsValid s (my_memmove s.data' start (start + count) (s.len - start - count))
        (s.len - count) v w (omega arith) in
    rw (from, tail, left)
      (
        valid,
        t
            ∙ prefix_ext (my_memmove s.data' start (start + count) (s.len - start - count))
                (without (text s) start count) (s.len - count)
                (length-without (text s) start count (omega arith) ∙ omega arith) (omega arith)
                (λ i p.
                  get_or-my_memmove s.data' start (start + count) (s.len - start - count) i
                    (omega arith)
                  ∙ ground (arith, get_or-text s i, get_or-text s (i + count))
                  ∙ sym (without_byte (text s) start count i (omega arith))),
      )

unchanged :
    (s : String) (start wanted : ℕ)
    → IsValid s
    → s.len ≤ start
    → Holds s (without (text s) start wanted)
unfolding Holds
unchanged s start wanted v past =
    let a = length-text s v in
    (
      v,
      sym (
          ap₂ ◌++◌ (take_past start (text s) (omega arith))
            (drop_past (start + wanted) (text s) (omega arith))
          ∙ append-nil (text s)),
    )

clipped :
    (s : String) (start wanted : ℕ)
    → IsValid s
    → start < s.len
    → s.len < start + wanted
    → Holds (cut s start (sub_size s.len start)) (without (text s) start wanted)
unfolding IsValid Holds
clipped s start wanted v inside over =
    let (l, f, z, bound, o) = v in
    let a = length-text s v in
    let rest : sub_size s.len start ≡ s.len - start = omega arith in
    let (w, t) = cut-Holds s start (s.len - start) v (omega arith) in
    rw rest (
      w,
      t
          ∙ ap (λ ys. take start (text s) ++ ys)
              (drop_past (start + (s.len - start)) (text s) (omega arith)
                ∙ sym (drop_past (start + wanted) (text s) (omega arith))),
    )

-- `string_remove` of a stretch that starts inside the text or at its end, and whose end fits a
-- size_t, takes away what of the stretch is in the text, and nothing else.
pub string_remove_lem :
    (s : String) (start wanted : ℕ)
    → IsValid s
    → start + wanted < size_mod
    → Holds (string_remove s start wanted) (without (text s) start wanted)
unfolding string_remove
string_remove_lem s start wanted v h = elim (dec_le s.len start) [
  | yes past ↦
      let t : leb s.len start ≡ true = ground arith in rw t (unchanged s start wanted v past)
  | no inside ↦
      let t : leb s.len start ≡ false = ground arith in
      let e : add_size start wanted ≡ start + wanted = omega arith in
      elim (dec_lt s.len (start + wanted)) [
        | yes over ↦
            let u : ltb s.len (add_size start wanted) ≡ true = ground (arith, e) in
            rw (t, u) (clipped s start wanted v (omega arith) over)
        | no fits ↦
            let u : ltb s.len (add_size start wanted) ≡ false = ground (arith, e) in
            rw (t, u) (cut-Holds s start wanted v (omega arith))
      ]
]

-- A stretch whose end does not fit a size_t, as of a count of 2^64 - 1 that asks for all the rest, is
-- not cut down to the text: the recorded length grows.
pub remove_grows :
    (s : String) (start wanted : ℕ)
    → IsValid s
    → s.len ≤ 2 ^ 63
    → start < s.len
    → wanted < size_mod
    → size_mod ≤ start + wanted
    → (string_remove s start wanted).len ≡ s.len + (size_mod - wanted)
unfolding string_remove cut ended IsValid
remove_grows s start wanted v half inside small over =
    let (l, f, z, bound, o) = v in
    let t : leb s.len start ≡ false = ground arith in
    let u : ltb s.len (add_size start wanted) ≡ false =
      let e : add_size start wanted ≤ s.len = omega arith in ground (arith, e) in
    let grown : sub_size s.len wanted ≡ s.len + (size_mod - wanted) = omega arith in rw (t, u) grown
