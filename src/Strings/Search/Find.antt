-- ===== src/Strings/Search/Find.antt =====
-- The first place where a C string stands in a text.
use freelang_independent_ful.Prelude.{
  ℕ, ◌%◌, ◌^◌, zero, suc, ◌+◌, ◌-◌, ◌≤◌, ◌<◌, ◌≡◌, ◌≢◌, refl, sym, ap, ◌∙◌, true, false, not, ◌||◌,
  Option, none, some, [], ◌∷◌, ltb, ◌==◌, if◌then◌else◌, get_or, length, arith, inl, inr, ◌⊎◌,
  Bool-cases, dec_lt, ℕ_discrete,
}
use freelang_independent_ful.Memory.{Bytes, as_int}
use freelang_independent_ful.Strings.{String, my_strlen}
use freelang_independent_ful.Strings.Valid.{IsValid, text, get_or-text, length-text}
use freelang_independent_ful.Strings.Search.{
  compare_bytes, my_strncmp, is_equal, find_from, string_find,
}

pub my_strlen-chars : (str : Bytes) (k : ℕ) → k < my_strlen str → get_or str k 0 ≢ 0
unfolding my_strlen
my_strlen-chars [] k h = absurd (omega arith)
my_strlen-chars (c ∷ str) zero h = ground arith
my_strlen-chars (c ∷ str) (suc k) h = let ih = my_strlen-chars str k in ground arith

-- `n` bytes from `i` on are those of `b` from `j` on
Match : Bytes → ℕ → Bytes → ℕ → ℕ → Type 0
Match a i b j n = (k : ℕ) → k < n → get_or a (i + k) 0 ≡ get_or b (j + k) 0

Match-cons :
    (a : Bytes) (i : ℕ) (b : Bytes) (j n : ℕ)
    → get_or a i 0 ≡ get_or b j 0
    → Match a (i + 1) b (j + 1) n
    → Match a i b j (suc n)
unfolding Match
Match-cons a i b j n e m zero h =
    ap (λ t. get_or a t 0) (omega arith) ∙ e ∙ ap (λ t. get_or b t 0) (omega arith)
Match-cons a i b j n e m (suc k) h =
    ap (λ t. get_or a t 0) (omega arith) ∙ m k (omega arith) ∙ ap (λ t. get_or b t 0) (omega arith)

Match-tail :
    (a : Bytes) (i : ℕ) (b : Bytes) (j n : ℕ)
    → Match a i b j (suc n)
    → (get_or a i 0 ≡ get_or b j 0) × Match a (i + 1) b (j + 1) n
unfolding Match
Match-tail a i b j n m = (
  ap (λ t. get_or a t 0) (omega arith) ∙ m 0 (omega arith) ∙ ap (λ t. get_or b t 0) (omega arith),
  λ k h.
      ap (λ t. get_or a t 0) (omega arith)
      ∙ m (suc k) (omega arith)
      ∙ ap (λ t. get_or b t 0) (omega arith),
)

unequal : (a b : ℕ) → a ≢ b → is_equal (compare_bytes a b) ≡ false
unfolding compare_bytes is_equal
unequal a b d =
    let t : (a == b) ≡ false = ground (arith, d) in
    elim (Bool-cases (ltb a b)) [ inl l ↦ rw (t, l) refl | inr l ↦ rw (t, l) refl ]

-- A comparison of characters other than 0 says whether they match.
strncmp_lem :
    (n : ℕ) (a : Bytes) (i : ℕ) (b : Bytes) (j : ℕ)
    → ((k : ℕ) → k < n → get_or b (j + k) 0 ≢ 0)
    → (is_equal (my_strncmp n a i b j) ≡ true × Match a i b j n)
      ⊎ (is_equal (my_strncmp n a i b j) ≡ false × (Match a i b j n → ⊥))
unfolding my_strncmp is_equal Match
strncmp_lem zero a i b j h = inl (refl, λ k p. absurd (omega arith))
strncmp_lem (suc n) a i b j h =
    let ne : get_or b j 0 ≢ 0 = λ z. h 0 (omega arith) (ap (λ t. get_or b t 0) (omega arith) ∙ z) in
    let later =
      strncmp_lem n a (i + 1) b (j + 1)
        (λ k p z. h (suc k) (omega arith) (ap (λ t. get_or b t 0) (omega arith) ∙ z)) in
    elim (ℕ_discrete (get_or a i 0) (get_or b j 0)) [
      | yes e ↦
          let t : (get_or a i 0 == 0 || get_or b j 0 == 0 || not (get_or a i 0 == get_or b j 0))
              ≡ false =
            ground (arith, e, ne) in
          rw t (elim later [
            | inl (r, m) ↦ inl (r, Match-cons a i b j n e m)
            | inr (r, m) ↦ inr (r, λ w. m (Match-tail a i b j n w).1)
          ])
      | no d ↦
          let t : (get_or a i 0 == 0 || get_or b j 0 == 0 || not (get_or a i 0 == get_or b j 0))
              ≡ true =
            ground (arith, d) in
          rw t (inr (unequal (get_or a i 0) (get_or b j 0) d, λ w. d (Match-tail a i b j n w).0))
    ]

-- The characters of the C string stand in the text from offset `i` on.
unfoldable pub Occurs : Bytes → ℕ → Bytes → Type 0
Occurs xs i str = (k : ℕ) → k < my_strlen str → get_or xs (i + k) 0 ≡ get_or str k 0

-- what a search answers: the first place, or that there is none, among the offsets from `i` on
Answer : Bytes → ℕ → ℕ → Bytes → Option ℕ → Type 0
Answer buf i n str none = (j : ℕ) → i ≤ j → j < i + n → Match buf j str 0 (my_strlen str) → ⊥
Answer buf i n str (some p) =
    i ≤ p
    × p < i + n
    × Match buf p str 0 (my_strlen str)
    × ((j : ℕ) → i ≤ j → j < p → Match buf j str 0 (my_strlen str) → ⊥)

same_place :
    (buf str : Bytes) (j i : ℕ)
    → j ≡ i
    → Match buf j str 0 (my_strlen str)
    → Match buf i str 0 (my_strlen str)
unfolding Match
same_place buf str j i e m = λ k p. ap (λ t. get_or buf (t + k) 0) (sym e) ∙ m k p

find_from-Answer :
    (n i : ℕ) (buf str : Bytes) → Answer buf i n str (find_from n i buf str (my_strlen str))
unfolding find_from Answer
find_from-Answer zero i buf str = λ j p q. absurd (omega arith)
find_from-Answer (suc n) i buf str =
    from
      (strncmp_lem (my_strlen str) buf i str 0 (λ k p. my_strlen-chars str (0 + k) (omega arith)))
      (find_from n (i + 1) buf str (my_strlen str)) (find_from-Answer n (i + 1) buf str)
  where
    from :
        (is_equal (my_strncmp (my_strlen str) buf i str 0) ≡ true
            × Match buf i str 0 (my_strlen str))
          ⊎ (is_equal (my_strncmp (my_strlen str) buf i str 0) ≡ false
              × (Match buf i str 0 (my_strlen str) → ⊥))
        → (r : Option ℕ) → Answer buf (i + 1) n str r
        → Answer buf i
            (suc n)
            str
            (if is_equal (my_strncmp (my_strlen str) buf i str 0) then some i else r)
    from (inl (e, m)) r a = rw e (omega arith, omega arith, m, λ j p q. absurd (omega arith))
    from (inr (e, m)) none a = rw e (λ j p q w. elim (dec_lt i j) [
      | yes l ↦ a j (omega arith) (omega arith) w
      | no l ↦ m (same_place buf str j i (omega arith) w)
    ])
    from (inr (e, m)) (some p) (l, u, found, first) = rw e (
      omega arith,
      omega arith,
      found,
      λ j q r w. elim (dec_lt i j) [
        | yes l' ↦ first j (omega arith) r w
        | no l' ↦ m (same_place buf str j i (omega arith) w)
      ],
    )

Occurs-Match :
    (s : String) (p : ℕ) (str : Bytes)
    → p + my_strlen str ≤ s.len
    → (Match s.data' p str 0 (my_strlen str) → Occurs (text s) p str)
      × (Occurs (text s) p str → Match s.data' p str 0 (my_strlen str))
unfolding Occurs Match
Occurs-Match s p str h = (
  λ m k q. get_or-text s (p + k) (omega arith) ∙ m k q ∙ ap (λ t. get_or str t 0) (omega arith),
  λ o k q.
      sym (get_or-text s (p + k) (omega arith)) ∙ o k q ∙ ap (λ t. get_or str t 0) (omega arith),
)

-- what `string_find` says of a text
unfoldable pub Found : Bytes → Bytes → Option ℕ → Type 0
Found xs str none =
    my_strlen str ≡ 0 ⊎ ((j : ℕ) → j + my_strlen str ≤ length xs → Occurs xs j str → ⊥)
Found xs str (some p) =
    p + my_strlen str ≤ length xs × Occurs xs p str × ((j : ℕ) → j < p → Occurs xs j str → ⊥)

shifted :
    (s : String) (str : Bytes)
    → IsValid s
    → my_strlen str ≢ 0
    → my_strlen str ≤ s.len
    → (r : Option ℕ) → Answer s.data' 0 (s.len - my_strlen str + 1) str r
    → Found (text s) str r
unfolding Answer Found
shifted s str v nz h none a = inr (λ j p w.
    let l = length-text s v in
    a j (omega arith) (omega arith) ((Occurs-Match s j str (omega arith)).1 w))
shifted s str v nz h (some p) (q, r, m, first) =
    let l = length-text s v in
    (
      omega arith,
      (Occurs-Match s p str (omega arith)).0 m,
      λ j u w. first j (omega arith) u ((Occurs-Match s j str (omega arith)).1 w),
    )

-- An offset into fewer than 2^31 bytes is an int.
as_int-Answer :
    (buf : Bytes) (n : ℕ) (str : Bytes) (r : Option ℕ)
    → n ≤ 2 ^ 31
    → Answer buf 0 n str r
    → Answer buf 0 n str (as_int r)
unfolding as_int Answer
as_int-Answer buf n str none h a = a
as_int-Answer buf n str (some p) h (l, u, found, first) =
    let e : p % 2 ^ 32 ≡ p = omega arith in
    let t : ltb p (2 ^ 31) ≡ true = ground arith in rw (e, t) (l, u, found, first)

-- `string_find` on a valid string of fewer than 2^31 bytes answers the first offset at which the
-- characters of the C string stand in the text, and a negative number only if they stand nowhere in
-- it or there are none.
pub string_find_lem :
    (s : String) (substr : Bytes)
    → IsValid s
    → s.len < 2 ^ 31
    → Found (text s) substr (string_find s substr)
unfolding string_find Found
string_find_lem s substr v small = elim (ℕ_discrete (my_strlen substr) 0) [
  | yes z ↦
      let t : (my_strlen substr == 0 || ltb s.len (my_strlen substr)) ≡ true = ground arith in
      rw t (inl z)
  | no nz ↦ elim (dec_lt s.len (my_strlen substr)) [
    | yes long ↦
        let t : (my_strlen substr == 0 || ltb s.len (my_strlen substr)) ≡ true = ground arith in
        rw t (inr (λ j p w. absurd (omega (arith, length-text s v))))
    | no fits ↦
        let t : (my_strlen substr == 0 || ltb s.len (my_strlen substr)) ≡ false = ground arith in
        let r = find_from (s.len - my_strlen substr + 1) 0 s.data' substr (my_strlen substr) in
        rw t (
          shifted s substr v nz (omega arith) (as_int r) (
            as_int-Answer s.data' (s.len - my_strlen substr + 1) substr r (omega arith)
              (find_from-Answer (s.len - my_strlen substr + 1) 0 s.data' substr)))
  ]
]
