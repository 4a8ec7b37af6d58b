-- ===== src/Serializer/Frame.antt =====
-- The layout of a frame, and the parts of the encoders that all of them share.
use freelang_independent_ful.Prelude.{
  ℕ, zero, suc, ◌+◌, ◌≤◌, ◌≡◌, refl, sym, ap, ◌∙◌, arith, [], ◌∷◌, ◌++◌, set, take, drop, length,
  length-append, length-drop,
}
use freelang_independent_ful.Prelude.Slices.{take-append}
use freelang_independent_ful.Memory.{Bytes, my_memcpy}
use freelang_independent_ful.Crc32.{crc32_calculate}
use freelang_independent_ful.Serializer.{
  magic, version, write_header, write_crc, write_u32, write_u16,
}
use freelang_independent_ful.Serializer.Words.{
  be32, put_byte, put_u16, put_u32, append-nil, put_copy,
}

-- the header for a payload of `n` bytes
abbrev pub header : ℕ → Bytes
header n = be32 magic ++ (version ∷ 0 ∷ 0 ∷ be32 n)

-- the frame of a payload
abbrev pub framed : Bytes → Bytes
framed payload = (header (length payload) ++ payload) ++ be32 (crc32_calculate payload)

pub drop-drop : (a b : ℕ) (xs : Bytes) → drop a (drop b xs) ≡ drop (b + a) xs
drop-drop a zero xs = ap (λ k. drop k xs) (omega arith)
drop-drop zero (suc b) [] = let e : suc b + 0 ≡ suc b = omega arith in rw e refl
drop-drop (suc a) (suc b) [] = let e : suc b + suc a ≡ suc (b + suc a) = omega arith in rw e refl
drop-drop a (suc b) (x ∷ xs) =
    let e : suc b + a ≡ suc (b + a) = omega arith in rw e (drop-drop a b xs)

pub write_header_lem :
    (buf : Bytes) (n : ℕ) → 11 ≤ length buf → write_header buf n ≡ header n ++ drop 11 buf
unfolding write_header
write_header_lem buf n h =
    let l₄ = length-drop 4 buf in
    let l₅ = length-drop 1 (drop 4 buf) in
    let l₇ = length-drop 2 (drop 1 (drop 4 buf)) in
    ap (λ b. write_u32 n (write_u16 0 (set b 4 version) 5) 7)
      (put_u32 [] buf 0 magic refl (omega arith))
    ∙ ap (λ b. write_u32 n (write_u16 0 b 5) 7)
        (put_byte (be32 magic) (drop 4 buf) 4 version refl (omega arith))
    ∙ ap (λ b. write_u32 n b 7)
        (put_u16 (be32 magic ++ (version ∷ [])) (drop 1 (drop 4 buf)) 5 0 refl (omega arith))
    ∙ put_u32 (be32 magic ++ (version ∷ 0 ∷ 0 ∷ [])) (drop 2 (drop 1 (drop 4 buf))) 7 n refl
        (omega arith)
    ∙ ap (λ l. header n ++ l)
        (ap (drop 4) (ap (drop 2) (drop-drop 1 4 buf) ∙ drop-drop 2 5 buf) ∙ drop-drop 4 7 buf)

drop-all : (n : ℕ) (xs : Bytes) → length xs ≡ n → drop n xs ≡ []
drop-all zero [] e = refl
drop-all zero (x ∷ xs) e = absurd (omega arith)
drop-all (suc n) [] e = refl
drop-all (suc n) (x ∷ xs) e = drop-all n xs (omega arith)

-- what the last write leaves: the CRC behind the payload
pub write_crc_lem :
    (n : ℕ) (payload rest : Bytes)
    → length rest ≡ 4
    → write_crc ((header n ++ payload) ++ rest) (length payload)
      ≡ (header n ++ payload) ++ be32 (crc32_calculate payload)
unfolding write_crc
write_crc_lem n payload rest h =
    let inside : take (length payload) (drop 11 ((header n ++ payload) ++ rest)) ≡ payload =
      take-append payload rest (length payload) refl in
    ap (λ c. write_u32 (crc32_calculate c) ((header n ++ payload) ++ rest) (11 + length payload))
      inside
    ∙ put_u32 (header n ++ payload) rest (11 + length payload) (crc32_calculate payload)
        (sym (length-append (header n) payload)) (omega arith)
    ∙ ap (λ l. ((header n ++ payload) ++ be32 (crc32_calculate payload)) ++ l) (drop-all 4 rest h)
    ∙ append-nil ((header n ++ payload) ++ be32 (crc32_calculate payload))

-- the type, the length and the data of a payload
abbrev pub body : ℕ → ℕ → Bytes → Bytes
body t len src = t ∷ (be32 len ++ src)

-- the header, and a payload that is one piece of data
pub write_body :
    (t n len : ℕ) (src buf : Bytes)
    → len ≤ length src
    → 16 + len ≤ length buf
    → my_memcpy (write_u32 len (set (write_header buf n) 11 t) 12) 16 src 0 len
      ≡ (header n ++ body t len (take len src)) ++ drop (16 + len) buf
write_body t n len src buf h room =
    let l₁ = length-drop 11 buf in
    let l₂ = length-drop 1 (drop 11 buf) in
    let l₃ = length-drop 4 (drop 1 (drop 11 buf)) in
    ap (λ b. my_memcpy (write_u32 len (set b 11 t) 12) 16 src 0 len)
      (write_header_lem buf n (omega arith))
    ∙ ap (λ b. my_memcpy (write_u32 len b 12) 16 src 0 len)
        (put_byte (header n) (drop 11 buf) 11 t refl (omega arith))
    ∙ ap (λ b. my_memcpy b 16 src 0 len)
        (put_u32 (header n ++ (t ∷ [])) (drop 1 (drop 11 buf)) 12 len refl (omega arith))
    ∙ put_copy (header n ++ body t len []) (drop 4 (drop 1 (drop 11 buf))) src 16 len refl
        (omega arith) h
    ∙ ap (λ l. (header n ++ body t len (take len src)) ++ l)
        (ap (drop len) (ap (drop 4) (drop-drop 1 11 buf) ∙ drop-drop 4 12 buf)
          ∙ drop-drop len 16 buf)
