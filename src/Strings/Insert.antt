-- ===== src/Strings/Insert.antt =====
-- The edits that make a string longer: appending and inserting.
use freelang_independent_ful.Prelude.{
  ℕ, ◌+◌, ◌-◌, ◌^◌, ◌≤◌, ◌<◌, ◌≡◌, refl, sym, ap, ◌∙◌, [], ◌∷◌, ◌++◌, ltb, if◌then◌else◌, get_or,
  set, take, drop, length, arith, inl, inr, ◌⊎◌, length-set, get_or-set, dec_lt, length-append,
  length-drop,
}
use freelang_independent_ful.Prelude.Slices.{
  get_or-take, length-take_of_le, get_or-append, get_or-drop,
}
use freelang_independent_ful.Memory.{Bytes, my_memcpy, my_memmove, add_size, sub_size}
use freelang_independent_ful.Memory.Copy.{
  length-my_memcpy, get_or-my_memcpy, length-my_memmove, get_or-my_memmove,
}
use freelang_independent_ful.Heap.{Heap}
use freelang_independent_ful.Strings.{
  String, Outcome, done, failed, spinning, Run, after, my_strlen, string_ensure_capacity, ended,
  string_append_n, string_append, string_append_char, inserted, string_insert,
}
use freelang_independent_ful.Strings.Valid.{
  IsValid, text, IsRefused, Yields, prefix_ext, length-text, get_or-text, ended-IsValid, ensure_lem,
}

-- What follows on making room may take the room for granted, and the same text.
module _ (s : String) (required : ℕ) (h : Heap) (xs : Bytes) (next : String → Heap → Run) where
  abbrev Goes : Type 0
  Goes =
      (s' : String) (h' : Heap)
      → IsValid s'
      → text s' ≡ text s
      → s'.len ≡ s.len
      → required ≤ s'.capacity
      → Yields s required h xs (next s' h')

  after-Yields :
      (o : Outcome) (s' : String) (h' : Heap)
      → (o ≡ done × IsValid s' × text s' ≡ text s × s'.len ≡ s.len × required ≤ s'.capacity)
        ⊎ (o ≡ failed × s' ≡ s × IsRefused s required h)
      → Goes
      → Yields s required h xs (after (o, s', h') next)
  unfolding after Yields
  after-Yields done s' h' (inl (e, v, t, n, r)) go = go s' h' v t n r
  after-Yields done s' h' (inr (e, same, _)) go = ground arith
  after-Yields failed s' h' (inl (e, _, _, _, _)) go = ground arith
  after-Yields failed s' h' (inr (e, same, refused)) go = inr (refl, same, refused)
  after-Yields spinning s' h' (inl (e, _, _, _, _)) go = ground arith
  after-Yields spinning s' h' (inr (e, same, _)) go = ground arith

  pub room-Yields :
      IsValid s
      → required ≤ 2 ^ 62
      → Goes
      → Yields s required h xs (after (string_ensure_capacity s required h) next)
  room-Yields v r go =
      let (o, s', h') = string_ensure_capacity s required h in
      after-Yields o s' h' (ensure_lem s required h v r) go

pub length-my_strlen : (str : Bytes) → my_strlen str ≤ length str
unfolding my_strlen
length-my_strlen [] = omega arith
length-my_strlen (c ∷ str) = let ih = length-my_strlen str in ground arith

-- the characters of a C string
unfoldable pub chars : Bytes → Bytes
chars str = take (my_strlen str) str

pub length-chars : (str : Bytes) → length (chars str) ≡ my_strlen str
unfolding chars
length-chars str = length-take_of_le (my_strlen str) str (length-my_strlen str)

-- An edit is right when the buffer reads as the new text.
pub edited :
    (s s' : String) (required : ℕ) (h : Heap) (buf xs : Bytes) (len : ℕ) (h' : Heap)
    → IsValid s'
    → length buf ≡ length s'.data'
    → len ≤ s'.capacity
    → length xs ≡ len
    → ((i : ℕ) → i < len → get_or buf i 0 ≡ get_or xs i 0)
    → Yields s required h xs (done, ended s' buf len, h')
unfolding Yields IsValid
edited s s' required h buf xs len h' v same room l e =
    let (w, t) = ended-IsValid s' buf len v same room in
    let (size, _, _, _, _) = v in inl (refl, w, t ∙ prefix_ext buf xs len l (omega arith) e)

-- a byte of the text, through a string with the same text
text_byte :
    (s s' : String) (i : ℕ)
    → IsValid s
    → text s' ≡ text s
    → s'.len ≡ s.len
    → i < s.len
    → get_or s'.data' i 0 ≡ get_or (text s) i 0
text_byte s s' i v t n h = sym (get_or-text s' i (omega arith)) ∙ ap (λ xs. get_or xs i 0) t

append_n_lem :
    (s : String) (str : Bytes) (n : ℕ) (h : Heap)
    → IsValid s
    → n ≤ length str
    → s.len + n ≤ 2 ^ 62
    → Yields s (s.len + n) h (text s ++ take n str) (string_append_n s str n h)
unfolding string_append_n IsValid
append_n_lem s str n h v k r =
    let total : add_size s.len n ≡ s.len + n = omega arith in
    let a = length-text s v in
    let b = length-take_of_le n str k in
    rw total (
      room-Yields s (s.len + n) h (text s ++ take n str)
        (λ s' h'. (done, ended s' (my_memcpy s'.data' s'.len str 0 n) (add_size s'.len n), h')) v
        (omega arith)
        (λ s' h' v' t e room.
          let (l', _, _, _, _) = v' in
          let total' : add_size s'.len n ≡ s.len + n = omega arith in
          edited s s' (s.len + n) h (my_memcpy s'.data' s'.len str 0 n) (text s ++ take n str)
            (add_size s'.len n) h' v' (length-my_memcpy s'.data' s'.len str 0 n) (omega arith)
            (length-append (text s) (take n str) ∙ omega arith)
            (λ i p.
              get_or-my_memcpy s'.data' s'.len str 0 n i (omega arith) ∙ elim (dec_lt i s.len) [
                | yes q ↦
                    ground
                      (arith, text_byte s s' i v t e q, get_or-append (text s) (take n str) i 0)
                | no q ↦ ground (
                  arith,
                  get_or-append (text s) (take n str) i 0,
                  get_or-take n str (i - s.len) 0,
                )
              ])))

append_lem :
    (s : String) (str : Bytes) (h : Heap)
    → IsValid s
    → s.len + my_strlen str ≤ 2 ^ 62
    → Yields s (s.len + my_strlen str) h (text s ++ chars str) (string_append s str h)
unfolding string_append chars
append_lem s str h v r = append_n_lem s str (my_strlen str) h v (length-my_strlen str) r

append_char_lem :
    (s : String) (c : ℕ) (h : Heap)
    → IsValid s
    → s.len + 1 ≤ 2 ^ 62
    → Yields s (s.len + 1) h (text s ++ (c ∷ [])) (string_append_char s c h)
unfolding string_append_char IsValid
append_char_lem s c h v r =
    let total : add_size s.len 1 ≡ s.len + 1 = omega arith in
    let a = length-text s v in
    rw total (
      room-Yields s (s.len + 1) h (text s ++ (c ∷ []))
        (λ s' h'. (done, ended s' (set s'.data' s'.len c) (add_size s'.len 1), h')) v (omega arith)
        (λ s' h' v' t e room.
          let (l', _, _, _, _) = v' in
          edited s s' (s.len + 1) h (set s'.data' s'.len c) (text s ++ (c ∷ [])) (add_size s'.len 1)
            h' v' (length-set s'.data' s'.len c) (omega arith)
            (length-append (text s) (c ∷ []) ∙ omega arith)
            (λ i p. get_or-set s'.data' s'.len i c 0 (omega arith) ∙ elim (dec_lt i s.len) [
              | yes q ↦
                  ground (arith, text_byte s s' i v t e q, get_or-append (text s) (c ∷ []) i 0)
              | no q ↦
                  let here : i ≡ s.len = omega arith in
                  let zero_off : i - length (text s) ≡ 0 = omega arith in
                  ground (arith, get_or-append (text s) (c ∷ []) i 0, zero_off)
            ])))

-- the text with a C string put in at a position
abbrev pub spliced : Bytes → ℕ → Bytes → Bytes
spliced xs pos str = take pos xs ++ (chars str ++ drop pos xs)

inserted_byte :
    (buf : Bytes) (len pos : ℕ) (str : Bytes) (k i : ℕ)
    → pos ≤ len
    → len + k ≤ length buf
    → len + k ≤ 2 ^ 62
    → get_or (inserted buf len pos str k) i 0 ≡ (
        if ltb i pos
        then get_or buf i 0
        else if ltb i (pos + k)
        then get_or str (i - pos) 0
        else if ltb i (len + k)
        then get_or buf (i - k) 0
        else get_or buf i 0)
unfolding inserted
inserted_byte buf len pos str k i p q r =
    let a : add_size pos k ≡ pos + k = omega arith in
    let b : sub_size len pos ≡ len - pos = omega arith in
    let w = length-my_memmove buf (pos + k) pos (len - pos) in
    let e : i - k ≡ i - k = refl in
    rw (a, b)
      (get_or-my_memcpy (my_memmove buf (pos + k) pos (len - pos)) pos str 0 k i (omega arith)
        ∙ ground (arith, get_or-my_memmove buf (pos + k) pos (len - pos) i))

length-inserted :
    (buf : Bytes) (len pos : ℕ) (str : Bytes) (k : ℕ)
    → length (inserted buf len pos str k) ≡ length buf
unfolding inserted
length-inserted buf len pos str k =
    length-my_memcpy (my_memmove buf (add_size pos k) pos (sub_size len pos)) pos str 0 k
    ∙ length-my_memmove buf (add_size pos k) pos (sub_size len pos)

spliced_byte :
    (xs : Bytes) (pos : ℕ) (str : Bytes) (i : ℕ)
    → pos ≤ length xs
    → get_or (spliced xs pos str) i 0 ≡ (
        if ltb i pos
        then get_or xs i 0
        else if ltb i (pos + my_strlen str)
        then get_or str (i - pos) 0
        else get_or xs (i - my_strlen str) 0)
unfolding chars
spliced_byte xs pos str i h =
    let l = length-take_of_le pos xs h in
    let k = length-take_of_le (my_strlen str) str (length-my_strlen str) in
    get_or-append (take pos xs) (take (my_strlen str) str ++ drop pos xs) i 0
    ∙ ground (
      arith,
      get_or-take pos xs i 0,
      get_or-append (take (my_strlen str) str) (drop pos xs) (i - length (take pos xs)) 0,
      get_or-take (my_strlen str) str (i - length (take pos xs)) 0,
      get_or-drop pos xs (i - length (take pos xs) - length (take (my_strlen str) str)) 0,
    )

length-spliced :
    (xs : Bytes) (pos : ℕ) (str : Bytes)
    → pos ≤ length xs
    → length (spliced xs pos str) ≡ length xs + my_strlen str
length-spliced xs pos str h =
    let a = length-append (take pos xs) (chars str ++ drop pos xs) in
    let b = length-append (chars str) (drop pos xs) in
    omega (arith, a, b, length-take_of_le pos xs h, length-chars str, length-drop pos xs)

insert_at_lem :
    (s : String) (pos : ℕ) (str : Bytes) (h : Heap)
    → IsValid s
    → pos ≤ s.len
    → s.len + my_strlen str ≤ 2 ^ 62
    → Yields s (s.len + my_strlen str) h (spliced (text s) pos str) (
        after (string_ensure_capacity s (add_size s.len (my_strlen str)) h) (λ s' h'. (
          done,
          ended s'
              (inserted s'.data' s'.len pos str (my_strlen str))
              (add_size s'.len (my_strlen str)),
          h',
        )))
unfolding IsValid
insert_at_lem s pos str h v p r =
    let k : ℕ = my_strlen str in
    let total : add_size s.len k ≡ s.len + k = omega arith in
    let a = length-text s v in
    rw total (
      room-Yields s (s.len + k) h (spliced (text s) pos str)
        (λ s' h'. (done, ended s' (inserted s'.data' s'.len pos str k) (add_size s'.len k), h')) v
        (omega arith)
        (λ s' h' v' t e room.
          let (l', _, _, _, _) = v' in
          edited s s' (s.len + k) h (inserted s'.data' s'.len pos str k) (spliced (text s) pos str)
            (add_size s'.len k) h' v' (length-inserted s'.data' s'.len pos str k) (omega arith)
            (length-spliced (text s) pos str (omega arith) ∙ omega arith)
            (λ i q.
              inserted_byte s'.data' s'.len pos str k i (omega arith) (omega arith) (omega arith)
              ∙ byte s s' pos k str i v t e p (omega arith)
              ∙ sym (spliced_byte (text s) pos str i (omega arith)))))
  where
    byte :
        (s s' : String) (pos k : ℕ) (str : Bytes) (i : ℕ)
        → IsValid s
        → text s' ≡ text s
        → s'.len ≡ s.len
        → pos ≤ s.len
        → i < s.len + k
        → (if ltb i pos
            then get_or s'.data' i 0
            else if ltb i (pos + k)
            then get_or str (i - pos) 0
            else if ltb i (s'.len + k)
            then get_or s'.data' (i - k) 0
            else get_or s'.data' i 0)
          ≡ (if ltb i pos
              then get_or (text s) i 0
              else if ltb i (pos + k)
              then get_or str (i - pos) 0
              else get_or (text s) (i - k) 0)
    byte s s' pos k str i v t e p q =
        ground (arith, text_byte s s' i v t e, text_byte s s' (i - k) v t e)

-- `string_insert` puts the characters of the C string in at the position, or at the end if that is
-- behind the end, in a valid string; or, when the capacity is less than the new length and the
-- environment refuses a larger buffer, it fails and leaves the string as it was. The new length is at
-- most 2^62.
pub string_insert_lem :
    (s : String) (at_pos : ℕ) (str : Bytes) (h : Heap)
    → IsValid s
    → s.len + my_strlen str ≤ 2 ^ 62
    → Yields s
        (s.len + my_strlen str)
        h
        (spliced (text s) (if ltb s.len at_pos then s.len else at_pos) str)
        (string_insert s at_pos str h)
unfolding string_insert
string_insert_lem s at_pos str h v r =
    insert_at_lem s (if ltb s.len at_pos then s.len else at_pos) str h v (ground arith) r
