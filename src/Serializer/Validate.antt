-- ===== src/Serializer/Validate.antt =====
-- What `serializer_validate` and `serializer_parse_header` answer.
use freelang_independent_ful.Prelude.{
  ℕ, zero, suc, ◌+◌, ◌%◌, ◌^◌, ◌≤◌, ◌<◌, ◌≡◌, ◌≢◌, refl, sym, ap, ◌∙◌, arith, [], ◌∷◌, ◌++◌, get_or,
  take, drop, length, length-append, Option, none, some, inl, inr, ◌==◌, if◌then◌else◌, ltb, not,
  true, false,
}
use freelang_independent_ful.Prelude.Slices.{take-append}
use freelang_independent_ful.Memory.{Bytes}
use freelang_independent_ful.Status.{Status, ok, fail}
use freelang_independent_ful.Heap.{Heap}
use freelang_independent_ful.Crc32.{crc32_calculate}
use freelang_independent_ful.Crc32.Stream.{AllBytes, calculate-lt}
use freelang_independent_ful.Crc32.Detection.{calculate-detects}
use freelang_independent_ful.Serializer.{
  serializer_validate, serializer_parse_header, read_u32, read_u16, magic, version, encode_bytes,
}
use freelang_independent_ful.Serializer.Words.{be32, read_u32-be32, read_u32_join, append-nil}
use freelang_independent_ful.Serializer.Frame.{header, framed, body}
use freelang_independent_ful.Serializer.Encode.{encode_bytes_lem}

abbrev sealed : Bytes → ℕ → Bytes
sealed payload c = (header (length payload) ++ payload) ++ be32 c

magic_read : (payload : Bytes) (c : ℕ) → read_u32 (sealed payload c) 0 ≡ magic
magic_read payload c = read_u32-be32 [] _ 0 magic refl (omega arith)

length_read :
    (payload : Bytes) (c : ℕ)
    → length payload < 2 ^ 32
    → read_u32 (sealed payload c) 7 ≡ length payload
length_read payload c h =
    read_u32-be32 (be32 magic ++ (version ∷ 0 ∷ 0 ∷ [])) (payload ++ be32 c) 7 (length payload) refl
      h

crc_read :
    (payload : Bytes) (c : ℕ) → c < 2 ^ 32 → read_u32 (sealed payload c) (11 + length payload) ≡ c
crc_read payload c h =
    ap (λ l. read_u32 l (11 + length payload))
      (ap (λ l. (header (length payload) ++ payload) ++ l) (sym (append-nil (be32 c))))
    ∙ read_u32-be32 (header (length payload) ++ payload) [] (11 + length payload) c
        (sym (length-append (header (length payload)) payload)) h

validate_steps :
    (frame payload : Bytes) (len n c : ℕ)
    → read_u32 frame 0 ≡ magic
    → read_u32 frame 7 ≡ n
    → read_u32 frame (11 + n) ≡ c
    → take n (drop 11 frame) ≡ payload
    → ltb len 16 ≡ false
    → ((11 + n + 4) % 2 ^ 32 == len) ≡ true
    → serializer_validate frame len ≡ (if c == crc32_calculate payload then ok else fail)
unfolding serializer_validate
validate_steps frame payload len n c m l stored inside long fits =
    rw (l, long, m, fits, stored, inside) refl

validate-sealed :
    (payload : Bytes) (c : ℕ)
    → c < 2 ^ 32
    → 1 ≤ length payload
    → 15 + length payload < 2 ^ 32
    → serializer_validate (sealed payload c) (15 + length payload)
      ≡ (if c == crc32_calculate payload then ok else fail)
validate-sealed payload c h one room =
    let inside : take (length payload) (drop 11 (sealed payload c)) ≡ payload =
      take-append payload (be32 c) (length payload) refl in
    let long : ltb (15 + length payload) 16 ≡ false = ground arith in
    let fits : ((11 + length payload + 4) % 2 ^ 32 == 15 + length payload) ≡ true =
      let e : (11 + length payload + 4) % 2 ^ 32 ≡ 15 + length payload = omega arith in
      ground (arith, e) in
    validate_steps (sealed payload c) payload (15 + length payload) (length payload) c
      (magic_read payload c) (length_read payload c (omega arith)) (crc_read payload c h) inside
      long fits

-- Every frame of a payload of at least one byte, as long as its length fits a uint32_t, is accepted.
framed-Accepted :
    (payload : Bytes)
    → 1 ≤ length payload
    → 15 + length payload < 2 ^ 32
    → serializer_validate (framed payload) (15 + length payload) ≡ ok
framed-Accepted payload one room =
    validate-sealed payload (crc32_calculate payload) (calculate-lt payload) one room
    ∙ (let e : (crc32_calculate payload == crc32_calculate payload) ≡ true = ground arith in
        rw e refl)

-- A frame in whose payload one byte has been changed is rejected, whichever byte it is.
pub validate-detects :
    (xs ys : Bytes) (b b' : ℕ)
    → AllBytes ys
    → b < 256
    → b' < 256
    → b ≢ b'
    → 15 + length (xs ++ b' ∷ ys) < 2 ^ 32
    → let payload = xs ++ b' ∷ ys in
      serializer_validate
        ((header (length payload) ++ payload) ++ be32 (crc32_calculate (xs ++ b ∷ ys)))
        (15 + length payload)
      ≡ fail
validate-detects xs ys b b' k h h' ne room =
    let one : 1 ≤ length (xs ++ b' ∷ ys) = omega (arith, length-append xs (b' ∷ ys)) in
    let differs : (crc32_calculate (xs ++ b ∷ ys) == crc32_calculate (xs ++ b' ∷ ys)) ≡ false =
      let d = calculate-detects xs ys b b' k h h' ne in ground (arith, d) in
    validate-sealed (xs ++ b' ∷ ys) (crc32_calculate (xs ++ b ∷ ys)) (calculate-lt (xs ++ b ∷ ys))
      one room
    ∙ rw differs refl

get_or-lt : (xs : Bytes) (i : ℕ) → AllBytes xs → get_or xs i 0 < 256
unfolding AllBytes
get_or-lt [] i h = omega arith
get_or-lt (x ∷ xs) zero (h, hs) = h
get_or-lt (x ∷ xs) (suc i) (h, hs) = get_or-lt xs i hs

read_u32-lt : (buf : Bytes) (o : ℕ) → AllBytes buf → read_u32 buf o < 2 ^ 32
read_u32-lt buf o h =
    let a = get_or-lt buf o h in
    let b = get_or-lt buf (o + 1) h in
    let c = get_or-lt buf (o + 2) h in
    let d = get_or-lt buf (o + 3) h in omega (arith, read_u32_join buf o b c d)

verdict :
    (len m n s c : ℕ)
    → n < 2 ^ 32
    → Path Status
        (if ltb len 16
          then fail
          else if not (m == magic)
          then fail
          else if not ((11 + n + 4) % 2 ^ 32 == len)
          then fail
          else if s == c
          then ok
          else fail)
        ok
    → m ≡ magic × 11 + n + 4 ≡ len × s ≡ c
verdict len m n s c h e = ground arith

-- What `serializer_validate` accepts has the magic number, a payload length that makes up the whole
-- length with header and CRC, so that both reads stay inside the frame although the sum of the sizes
-- is taken modulo 2^32, and the CRC of that payload.
pub validate_sound :
    (frame : Bytes) (len : ℕ)
    → AllBytes frame
    → serializer_validate frame len ≡ ok
    → read_u32 frame 0 ≡ magic
      × 11 + read_u32 frame 7 + 4 ≡ len
      × read_u32 frame (11 + read_u32 frame 7)
        ≡ crc32_calculate (take (read_u32 frame 7) (drop 11 frame))
unfolding serializer_validate
validate_sound frame len bytes e =
    let bound = read_u32-lt frame 7 bytes in
    verdict len (read_u32 frame 0) (read_u32 frame 7) (read_u32 frame (11 + read_u32 frame 7))
      (crc32_calculate (take (read_u32 frame 7) (drop 11 frame))) bound e

parse-framed :
    (t : ℕ) (rest : Bytes)
    → 15 + length (t ∷ rest) < 2 ^ 32
    → serializer_parse_header (framed (t ∷ rest)) (15 + length (t ∷ rest))
      ≡ some (1, 0, length (t ∷ rest), t)
unfolding serializer_parse_header read_u16
parse-framed t rest room =
    let long : ltb (15 + length (t ∷ rest)) 12 ≡ false = ground arith in
    let m = magic_read (t ∷ rest) (crc32_calculate (t ∷ rest)) in
    let l = length_read (t ∷ rest) (crc32_calculate (t ∷ rest)) (omega arith) in
    rw (long, m, l) refl

frame_of : Option (Bytes × ℕ) → Bytes × ℕ
frame_of none = ([], 0)
frame_of (some f) = f

-- When `serializer_encode_bytes` of data of fewer than 2^32 - 20 bytes succeeds, the frame is
-- accepted by `serializer_validate`, and `serializer_parse_header` finds version 1, no flags, the
-- length of the payload and the type 5 in it.
pub encode_bytes-validate :
    (src : Bytes) (h h' : Heap) (frame : Bytes) (len : ℕ)
    → 20 + length src < 2 ^ 32
    → encode_bytes (some src) (length src) h ≡ (ok, some (frame, len), h')
    → serializer_validate frame len ≡ ok
      × serializer_parse_header frame len ≡ some (1, 0, 5 + length src, 5)
unfolding frame_of
encode_bytes-validate src h h' frame len room e =
    let payload : Bytes = body 5 (length src) src in
    elim (encode_bytes_lem src h (omega arith)) [
      | inl (done, same) ↦
          let pair : (frame, len) ≡ (framed (body 5 (length src) src), 20 + length src) =
            ap frame_of (sym (ap (λ r. r.1) e) ∙ same) in
          let n : 20 + length src ≡ 15 + length payload = omega arith in
          rw (ap (λ r. r.0) pair, ap (λ r. r.1) pair, n)
            (
              framed-Accepted payload (omega arith) (omega arith),
              parse-framed 5 (be32 (length src) ++ src) (omega arith)
                  ∙ ap (λ k. some (1, 0, k, 5)) (omega arith),
            )
      | inr (failed, _, _) ↦ let z : fail ≡ ok = sym failed ∙ ap (λ r. r.0) e in ground arith
    ]
