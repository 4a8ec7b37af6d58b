-- ===== src/Serializer/Encode.antt =====
-- What the encoders write: the frame of the payload, whatever the buffer held before.
use freelang_independent_ful.Prelude.{
  ℕ, ◌+◌, ◌%◌, ◌^◌, ◌<◌, ◌≡◌, refl, sym, ap, ap₂, ◌∙◌, arith, [], ◌∷◌, ◌++◌, set, take, drop,
  length, length-drop, ltb, true, none, some, ◌⊎◌, inl, inr, Option-cases,
}
use freelang_independent_ful.Memory.{Bytes, add_size, my_memcpy, memcpy_from}
use freelang_independent_ful.Status.{ok, fail}
use freelang_independent_ful.Heap.{Heap, alloc, fresh, length-fresh}
use freelang_independent_ful.Serializer.{
  fill_bytes, encode_bytes, fill_string, encode_string, copy_chars, write_crc, write_u32,
  write_header,
}
use freelang_independent_ful.Serializer.Frame.{header, framed, body, write_body, write_crc_lem}

take-whole : (xs : Bytes) → take (length xs) xs ≡ xs
take-whole [] = refl
take-whole (x ∷ xs) = ap (λ l. x ∷ l) (take-whole xs)

-- The writes that the encoders of bytes and of strings share, for a payload of type `t`.
write_data_lem :
    (t : ℕ) (src buf : Bytes)
    → 5 + length src < 2 ^ 32
    → length buf ≡ 20 + length src
    → write_crc
        (my_memcpy
          (write_u32
            (length src % 2 ^ 32)
            (set (write_header buf ((5 + length src) % 2 ^ 32)) 11 t)
            12)
          16
          src
          0
          (length src))
        (5 + length src)
      ≡ framed (body t (length src) src)
write_data_lem t src buf h room =
    let small : (5 + length src) % 2 ^ 32 ≡ 5 + length src = omega arith in
    let whole : 5 + length src ≡ length (body t (length src) src) = omega arith in
    let small' : length src % 2 ^ 32 ≡ length src = omega arith in
    ap
      (λ k.
        write_crc
          (my_memcpy (write_u32 (length src % 2 ^ 32) (set (write_header buf k) 11 t) 12) 16 src 0
            (length src))
          (5 + length src))
      small
    ∙ ap
        (λ k.
          write_crc
            (my_memcpy (write_u32 k (set (write_header buf (5 + length src)) 11 t) 12) 16 src 0
              (length src))
            (5 + length src))
        small'
    ∙ ap (λ b. write_crc b (5 + length src))
        (write_body t (5 + length src) (length src) src buf (omega arith) (omega arith)
          ∙ ap
              (λ l.
                (header (5 + length src) ++ body t (length src) l) ++ drop (16 + length src) buf)
              (take-whole src))
    ∙ ap (λ k. write_crc ((header k ++ body t (length src) src) ++ drop (16 + length src) buf) k)
        whole
    ∙ write_crc_lem (length (body t (length src) src)) (body t (length src) src)
        (drop (16 + length src) buf) (omega (arith, length-drop (16 + length src) buf))

fill_bytes_lem :
    (src buf : Bytes)
    → 5 + length src < 2 ^ 32
    → length buf ≡ 20 + length src
    → fill_bytes src (length src) buf (5 + length src) ≡ framed (body 5 (length src) src)
unfolding fill_bytes
fill_bytes_lem src buf h room = write_data_lem 5 src buf h room

-- The test for an empty string skips a copy of no bytes.
copy_chars_lem :
    (frame chars : Bytes)
    → copy_chars frame (some chars) (length chars) ≡ my_memcpy frame 16 chars 0 (length chars)
unfolding copy_chars my_memcpy memcpy_from
copy_chars_lem frame [] = refl
copy_chars_lem frame (c ∷ chars) =
    let e : ltb 0 (length (c ∷ chars)) ≡ true = ground arith in rw e refl

fill_string_lem :
    (chars buf : Bytes)
    → 5 + length chars < 2 ^ 32
    → length buf ≡ 20 + length chars
    → fill_string (some chars) (length chars) buf (5 + length chars)
      ≡ framed (body 2 (length chars) chars)
unfolding fill_string
fill_string_lem chars buf h room =
    ap (λ f. write_crc f (5 + length chars)) (copy_chars_lem _ chars)
    ∙ write_data_lem 2 chars buf h room

-- `serializer_encode_bytes` of data of fewer than 2^32 - 5 bytes fails only if no memory is had, and
-- otherwise yields the frame of the payload: the type 5, the length, the data.
pub encode_bytes_lem :
    (src : Bytes) (h : Heap)
    → 5 + length src < 2 ^ 32
    → let (s, o, _) = encode_bytes (some src) (length src) h in
      (s ≡ ok × o ≡ some (framed (body 5 (length src) src), 20 + length src))
      ⊎ (s ≡ fail × o ≡ none × (alloc (20 + length src) h).0 ≡ none)
unfolding encode_bytes
encode_bytes_lem src h small =
    let fs : ℕ = add_size (add_size 11 (add_size 5 (length src))) 4 in
    let size : fs ≡ 20 + length src = omega arith in
    let n : add_size 5 (length src) ≡ 5 + length src = omega arith in
    elim (Option-cases (alloc fs h).0) [
      | inl e ↦ rw (encode_bytes, e) (inr (refl, refl, ap (λ k. (alloc k h).0) (sym size) ∙ e))
      | inr (p, e) ↦
          rw (encode_bytes, e)
            (inl (
              refl,
              ap₂ (λ b k. some (b, k))
                  (ap (fill_bytes src (length src) (fresh h p fs)) n
                    ∙ fill_bytes_lem src (fresh h p fs) small (length-fresh h p fs ∙ size))
                  size,
            ))
    ]

-- `serializer_encode_string` of a string of fewer than 2^32 - 5 characters fails only if no memory is had, and
-- otherwise yields the frame of the payload: the type 2, the length, the characters.
pub encode_string_lem :
    (chars : Bytes) (h : Heap)
    → 5 + length chars < 2 ^ 32
    → let (s, o, _) = encode_string (some chars) (length chars) h in
      (s ≡ ok × o ≡ some (framed (body 2 (length chars) chars), 20 + length chars))
      ⊎ (s ≡ fail × o ≡ none × (alloc (20 + length chars) h).0 ≡ none)
unfolding encode_string
encode_string_lem chars h small =
    let fs : ℕ = add_size (add_size 11 (add_size 5 (length chars))) 4 in
    let size : fs ≡ 20 + length chars = omega arith in
    let n : add_size 5 (length chars) ≡ 5 + length chars = omega arith in
    elim (Option-cases (alloc fs h).0) [
      | inl e ↦ rw (encode_string, e) (inr (refl, refl, ap (λ k. (alloc k h).0) (sym size) ∙ e))
      | inr (p, e) ↦
          rw (encode_string, e)
            (inl (
              refl,
              ap₂ (λ b k. some (b, k))
                  (ap (fill_string (some chars) (length chars) (fresh h p fs)) n
                    ∙ fill_string_lem chars (fresh h p fs) small (length-fresh h p fs ∙ size))
                  size,
            ))
    ]
