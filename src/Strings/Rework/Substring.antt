-- ===== src/Strings/Rework/Substring.antt =====
-- `string_substring` and `string_clone`: a new string with a stretch of the text.
use freelang_independent_ful.Prelude.{
  ℕ, ◌+◌, ◌-◌, ◌^◌, ◌≤◌, ◌<◌, ◌≡◌, refl, sym, ap, ◌∙◌, true, false, Option, [], ltb, leb, set, take,
  drop, length, arith, inl, inr, dec_lt, dec_le, length-set, get_or-set, length-drop,
}
use mathlib.Core.Path.{subst}
use freelang_independent_ful.Prelude.Slices.{
  get_or-take, get_or-drop, length-take_of_le, take_past, drop_past,
}
use freelang_independent_ful.Memory.{Bytes, size_mod, my_memcpy, add_size, sub_size}
use freelang_independent_ful.Memory.Copy.{length-my_memcpy, get_or-my_memcpy}
use freelang_independent_ful.Heap.{Heap}
use freelang_independent_ful.Strings.{String, my_strlen, string_new}
use freelang_independent_ful.Strings.Valid.{IsValid, text, length-text, prefix_ext}
use freelang_independent_ful.Strings.Insert.{chars}
use freelang_independent_ful.Strings.New.{Makes, string_new_lem, string_new_with_capacity_lem}
use freelang_independent_ful.Strings.Rework.{
  sub_filled, sub_clipped, string_substring, string_clone,
}

-- the stretch of `n` bytes from `start` on
abbrev pub stretch : Bytes → ℕ → ℕ → Bytes
stretch xs start n = take n (drop start xs)

sub_filled-IsValid :
    (r s : String) (start n : ℕ)
    → IsValid r
    → IsValid s
    → start + n ≤ s.len
    → n + 1 ≤ r.capacity
    → IsValid (sub_filled r s start n) × text (sub_filled r s start n) ≡ stretch (text s) start n
unfolding sub_filled IsValid text
sub_filled-IsValid r s start n (l, f, z, bound, one) v h room =
    let (ls, fs, _, _, _) = v in
    let m = length-my_memcpy r.data' 0 s.data' start n in
    let w = length-set (my_memcpy r.data' 0 s.data' start n) n 0 in
    let d = length-drop start (take s.len s.data') in
    let t = length-take_of_le s.len s.data' (omega arith) in
    (
      (
        w ∙ m ∙ l,
        omega arith,
        get_or-set (my_memcpy r.data' 0 s.data' start n) n n 0 0 (omega arith) ∙ ground arith,
        bound,
        one,
      ),
      prefix_ext (set (my_memcpy r.data' 0 s.data' start n) n 0)
          (stretch (take s.len s.data') start n) n
          (length-take_of_le n (drop start (take s.len s.data')) (omega arith)) (omega arith)
          (λ i p.
            get_or-set (my_memcpy r.data' 0 s.data' start n) n i 0 0 (omega arith)
            ∙ ground (
              arith,
              get_or-my_memcpy r.data' 0 s.data' start n i,
              get_or-take n (drop start (take s.len s.data')) i 0,
              get_or-drop start (take s.len s.data') i 0,
              get_or-take s.len s.data' (start + i) 0,
            )),
    )

sub_clipped-Makes :
    (s : String) (start n : ℕ) (h : Heap)
    → IsValid s
    → start + n ≤ s.len
    → s.len < 2 ^ 61
    → Makes h (stretch (text s) start n) (sub_clipped s start n h)
unfolding sub_clipped Makes
sub_clipped-Makes s start n h v k small =
    let e : add_size n 1 ≡ n + 1 = omega arith in
    elim (string_new_with_capacity_lem (add_size n 1) h (omega arith)) [
      | inl (refused, live, starved) ↦ rw (sub_clipped, refused) (inl (refl, live, starved))
      | inr (r, got, valid, room, kept) ↦
          let (w, t) = sub_filled-IsValid r s start n valid v k (omega arith) in
          rw (sub_clipped, got) (inr (_, refl, w, t, kept))
    ]

no_text : chars [] ≡ []
unfolding chars my_strlen
no_text = refl

transport-Makes :
    (h : Heap) (xs ys : Bytes) (r : Option String × Heap) → xs ≡ ys → Makes h xs r → Makes h ys r
transport-Makes h xs ys r e m = subst (λ zs. Makes h zs r) e m

no_chars : my_strlen [] < 2 ^ 62
unfolding my_strlen
no_chars = omega arith

all_of : (xs : Bytes) (n m : ℕ) → length xs ≤ n → n ≤ m → take n xs ≡ take m xs
all_of xs n m h k = take_past n xs h ∙ sym (take_past m xs (omega arith))

-- `string_substring` of a valid string of fewer than 2^61 bytes makes a valid string with what of
-- the stretch is in the text, if the end of the stretch fits a size_t; the stretch may start behind
-- the text.
pub substring-Makes :
    (s : String) (start wanted : ℕ) (h : Heap)
    → IsValid s
    → s.len < 2 ^ 61
    → start + wanted < size_mod
    → Makes h (stretch (text s) start wanted) (string_substring s start wanted h)
unfolding string_substring
substring-Makes s start wanted h v small fits = elim (dec_le s.len start) [
  | yes past ↦
      let t : leb s.len start ≡ true = ground arith in
      rw t (
        transport-Makes h (chars []) (stretch (text s) start wanted) (string_new [] h)
          (no_text
            ∙ sym (take_past wanted [] (omega arith))
            ∙ ap (take wanted) (sym (drop_past start (text s) (omega (arith, length-text s v)))))
          (string_new_lem [] h no_chars))
  | no inside ↦
      let t : leb s.len start ≡ false = ground arith in
      let e : add_size start wanted ≡ start + wanted = omega arith in
      elim (dec_lt s.len (start + wanted)) [
        | yes over ↦
            let u : ltb s.len (add_size start wanted) ≡ true = ground (arith, e) in
            let rest : sub_size s.len start ≡ s.len - start = omega arith in
            rw (t, u, rest)
              (transport-Makes h (stretch (text s) start (s.len - start))
                (stretch (text s) start wanted) (sub_clipped s start (s.len - start) h)
                (all_of (drop start (text s)) (s.len - start) wanted
                  (omega (arith, length-text s v, length-drop start (text s))) (omega arith))
                (sub_clipped-Makes s start (s.len - start) h v (omega arith) small))
        | no in_text ↦
            let u : ltb s.len (add_size start wanted) ≡ false = ground (arith, e) in
            rw (t, u) (sub_clipped-Makes s start wanted h v (omega arith) small)
      ]
]

-- `string_clone` of a valid string of fewer than 2^61 bytes makes a valid string with the same text.
pub clone-Makes :
    (s : String) (h : Heap) → IsValid s → s.len < 2 ^ 61 → Makes h (text s) (string_clone s h)
unfolding string_clone
clone-Makes s h v small =
    transport-Makes h (stretch (text s) 0 s.len) (text s) (string_substring s 0 s.len h)
      (take_past s.len (text s) (omega (arith, length-text s v)))
      (substring-Makes s 0 s.len h v small (omega arith))
