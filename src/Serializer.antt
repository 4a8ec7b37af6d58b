-- ===== src/Serializer.antt =====
-- The frame format of myos-lib/src/serializer.c: an 11-byte header, a payload, a CRC. A buffer is the
-- list of its bytes, an offset into it stands for the pointer `buf + offset`, and the uint32_t
-- parameters truncate the size_t values passed to them. The encoders take arguments that are not
-- NULL; NULL data is `none`.
pub mod Words
pub mod Frame
pub mod Encode
pub mod Validate
use freelang_independent_ful.Prelude.{
  ℕ, zero, suc, ◌+◌, ◌*◌, ◌/◌, ◌%◌, ◌^◌, Option, none, some, List, [], ◌∷◌, ◌==◌, ltb, not,
  if◌then◌else◌, get_or, set, take, drop, length,
}
use freelang_independent_ful.Memory.{Bytes, my_memcpy, add_size, mul_size}
use freelang_independent_ful.Status.{Status, ok, fail}
use freelang_independent_ful.Heap.{Heap, alloc, fresh}
use freelang_independent_ful.Bits.{bit_or}
use freelang_independent_ful.Crc32.{crc32_calculate}

-- 0x4D59004F
abbrev pub magic : ℕ
magic = 1297678415

abbrev pub version : ℕ
version = 1

abbrev pub header_size : ℕ
header_size = 11

unfoldable pub write_u32 : ℕ → Bytes → ℕ → Bytes
write_u32 val buf o =
    set
      (set (set (set buf o (val / 2 ^ 24 % 256)) (o + 1) (val / 2 ^ 16 % 256)) (o + 2)
        (val / 2 ^ 8 % 256))
      (o + 3) (val % 256)

unfoldable pub read_u32 : Bytes → ℕ → ℕ
read_u32 buf o =
    bit_or
      (bit_or (bit_or (get_or buf o 0 * 2 ^ 24) (get_or buf (o + 1) 0 * 2 ^ 16))
        (get_or buf (o + 2) 0 * 2 ^ 8))
      (get_or buf (o + 3) 0)

unfoldable pub write_u16 : ℕ → Bytes → ℕ → Bytes
write_u16 val buf o = set (set buf o (val / 2 ^ 8 % 256)) (o + 1) (val % 256)

unfoldable pub read_u16 : Bytes → ℕ → ℕ
read_u16 buf o = bit_or (get_or buf o 0 * 2 ^ 8) (get_or buf (o + 1) 0)

unfoldable pub write_header : Bytes → ℕ → Bytes
unfolding write_u32 write_u16
write_header buf payload_len =
    write_u32 payload_len (write_u16 0 (set (write_u32 magic buf 0) 4 version) 5) 7

-- the last lines of each encoder: the CRC of the payload is written behind it
unfoldable pub write_crc : Bytes → ℕ → Bytes
unfolding write_u32
write_crc frame payload_size =
    write_u32 (crc32_calculate (take payload_size (drop header_size frame))) frame
      (header_size + payload_size)

-- the buffer of `serializer_encode_bytes`, with the sizes that it computed
unfoldable pub fill_bytes : Bytes → ℕ → Bytes → ℕ → Bytes
unfolding write_header write_crc
fill_bytes data_bytes len frame payload_size =
    let frame₁ = write_header frame (payload_size % 2 ^ 32) in
    let frame₂ = set frame₁ header_size 5 in
    let frame₃ = write_u32 (len % 2 ^ 32) frame₂ (header_size + 1) in
    let frame₄ = my_memcpy frame₃ (header_size + 5) data_bytes 0 len in
    write_crc frame₄ payload_size

-- the status, the frame and its length
unfoldable pub encode_bytes : Option Bytes → ℕ → Heap → Status × Option (Bytes × ℕ) × Heap
unfolding fill_bytes
encode_bytes none len h = (fail, none, h)
encode_bytes (some data_bytes) len h =
    let payload_size = add_size 5 len in
    let frame_size = add_size (add_size header_size payload_size) 4 in
    let (got, h') = alloc frame_size h in
    elim got [
      | none ↦ (fail, none, h')
      | some p ↦
          (ok, some (fill_bytes data_bytes len (fresh h p frame_size) payload_size, frame_size), h')
    ]

unfoldable pub copy_chars : Bytes → Option Bytes → ℕ → Bytes
copy_chars frame none str_len = frame
copy_chars frame (some chars) str_len =
    if ltb 0 str_len then my_memcpy frame (header_size + 5) chars 0 str_len else frame

-- the buffer of `serializer_encode_string`; `c_str` is what `string_c_str` answers
unfoldable pub fill_string : Option Bytes → ℕ → Bytes → ℕ → Bytes
unfolding write_header write_crc copy_chars
fill_string c_str str_len frame payload_size =
    let frame₁ = write_header frame (payload_size % 2 ^ 32) in
    let frame₂ = set frame₁ header_size 2 in
    let frame₃ = write_u32 (str_len % 2 ^ 32) frame₂ (header_size + 1) in
    write_crc (copy_chars frame₃ c_str str_len) payload_size

unfoldable pub encode_string : Option Bytes → ℕ → Heap → Status × Option (Bytes × ℕ) × Heap
unfolding fill_string
encode_string c_str str_len h =
    let payload_size = add_size 5 str_len in
    let frame_size = add_size (add_size header_size payload_size) 4 in
    let (got, h') = alloc frame_size h in
    elim got [
      | none ↦ (fail, none, h')
      | some p ↦
          (ok, some (fill_string c_str str_len (fresh h p frame_size) payload_size, frame_size), h')
    ]

-- the buffer of `serializer_encode_hashmap`, which writes the number of entries and no entry
unfoldable pub fill_hashmap : ℕ → Bytes → Bytes
unfolding write_header write_crc
fill_hashmap count frame =
    let frame₁ = write_header frame 13 in
    let frame₂ = set frame₁ header_size 3 in
    let frame₃ = write_u32 0 frame₂ (header_size + 1) in
    let frame₄ = write_u32 0 frame₃ (header_size + 5) in
    let frame₅ = write_u32 (count % 2 ^ 32) frame₄ (header_size + 9) in write_crc frame₅ 13

unfoldable pub encode_hashmap : ℕ → Heap → Status × Option (Bytes × ℕ) × Heap
unfolding fill_hashmap
encode_hashmap count h =
    let (got, h') = alloc 28 h in
    elim got [
      | none ↦ (fail, none, h')
      | some p ↦ (ok, some (fill_hashmap count (fresh h p 28), 28), h')
    ]

-- the tests of `serializer_validate` in order; the sum of the sizes is a uint32_t
unfoldable pub serializer_validate : Bytes → ℕ → Status
serializer_validate frame len =
    let payload_len = read_u32 frame 7 in
    let crc_stored = read_u32 frame (header_size + payload_len) in
    let crc_calc = crc32_calculate (take payload_len (drop header_size frame)) in
    if ltb len 16
    then fail
    else if not (read_u32 frame 0 == magic)
    then fail
    else if not ((header_size + payload_len + 4) % 2 ^ 32 == len)
    then fail
    else if crc_stored == crc_calc
    then ok
    else fail

-- the version, the flags, the payload's length and its type
unfoldable pub serializer_parse_header : Bytes → ℕ → Option (ℕ × ℕ × ℕ × ℕ)
serializer_parse_header frame len =
    if ltb len 12
    then none
    else if read_u32 frame 0 == magic
    then some (get_or frame 4 0, read_u16 frame 5, read_u32 frame 7, get_or frame header_size 0)
    else none

-- `serializer_decode_bytes`, whose body is empty
unfoldable pub decode_bytes : Bytes → ℕ → Option Bytes
decode_bytes frame len = none
