-- ===== src/Tests/SerializerTests.antt =====
-- The frames of myos-lib/src/serializer.c on concrete data.
use freelang_independent_ful.Prelude.{
  ◌+◌, ◌≡◌, ◌⊎◌, [], ◌∷◌, ◌++◌, refl, arith, true, none, some, take, drop,
}
use freelang_independent_ful.Memory.{Bytes, my_memcpy, memcpy_from}
use freelang_independent_ful.Status.{ok, fail}
use freelang_independent_ful.Heap.{Heap, alloc, fresh}
use freelang_independent_ful.Crc32.{
  shift_bit, shift_bits, crc32_table_entry, crc32_calculate, calculate_from,
}
use freelang_independent_ful.Crc32.Stream.{AllBytes}
use freelang_independent_ful.Serializer.{
  encode_bytes, read_u32, serializer_validate, serializer_parse_header, magic,
}
use freelang_independent_ful.Serializer.Words.{be32}
use freelang_independent_ful.Serializer.Frame.{framed, header, body}
use freelang_independent_ful.Serializer.Encode.{encode_bytes_lem}
use freelang_independent_ful.Serializer.Validate.{
  validate-detects, validate_sound, encode_bytes-validate,
}

-- every request is granted, and new memory holds the byte 7
abbrev spacious : Heap
spacious = record { grants = λ _ _. true; junk = λ _ _. 7; requests = 0; live = [] }

-- the frame of the one byte 9
abbrev nine : Bytes
nine =
    77
    ∷ 89
    ∷ 0
    ∷ 79
    ∷ 1
    ∷ 0
    ∷ 0
    ∷ 0
    ∷ 0
    ∷ 0
    ∷ 6
    ∷ 5
    ∷ 0
    ∷ 0
    ∷ 0
    ∷ 1
    ∷ 9
    ∷ be32 (crc32_calculate (5 ∷ 0 ∷ 0 ∷ 0 ∷ 1 ∷ 9 ∷ []))

abbrev later : Heap
later = record { grants = λ _ _. true; junk = λ _ _. 7; requests = 1; live = 0 ∷ [] }

encoded : encode_bytes (some (9 ∷ [])) 1 spacious ≡ (ok, some (nine, 21), later)
unfolding encode_bytes alloc fresh my_memcpy memcpy_from
encoded = refl

encode_bytes_lem_example :
    let (s, o, _) = encode_bytes (some (9 ∷ [])) 1 spacious in
    (s ≡ ok × o ≡ some (framed (body 5 1 (9 ∷ [])), 21))
    ⊎ (s ≡ fail × o ≡ none × (alloc 21 spacious).0 ≡ none)
encode_bytes_lem_example = encode_bytes_lem (9 ∷ []) spacious (omega arith)

encode_bytes-validate_example :
    serializer_validate nine 21 ≡ ok × serializer_parse_header nine 21 ≡ some (1, 0, 6, 5)
encode_bytes-validate_example =
    encode_bytes-validate (9 ∷ []) spacious later nine 21 (omega arith) encoded

none-AllBytes : AllBytes []
unfolding AllBytes
none-AllBytes = tt

nine-AllBytes : AllBytes nine
unfolding AllBytes crc32_calculate calculate_from crc32_table_entry shift_bits shift_bit
nine-AllBytes = (
  omega arith,
  (
    omega arith,
    (
      omega arith,
      (
        omega arith,
        (
          omega arith,
          (
            omega arith,
            (
              omega arith,
              (
                omega arith,
                (
                  omega arith,
                  (
                    omega arith,
                    (
                      omega arith,
                      (
                        omega arith,
                        (
                          omega arith,
                          (
                            omega arith,
                            (
                              omega arith,
                              (
                                omega arith,
                                (
                                  omega arith,
                                  (omega arith, (omega arith, (omega arith, (omega arith, tt)))),
                                ),
                              ),
                            ),
                          ),
                        ),
                      ),
                    ),
                  ),
                ),
              ),
            ),
          ),
        ),
      ),
    ),
  ),
)

nine_accepted : serializer_validate nine 21 ≡ ok
unfolding serializer_validate read_u32 crc32_calculate calculate_from crc32_table_entry shift_bits
    shift_bit
nine_accepted = refl

validate-detects_example :
    serializer_validate
      ((header 6 ++ (5 ∷ 0 ∷ 0 ∷ 0 ∷ 1 ∷ 8 ∷ []))
        ++ be32 (crc32_calculate (5 ∷ 0 ∷ 0 ∷ 0 ∷ 1 ∷ 9 ∷ [])))
      21
    ≡ fail
validate-detects_example =
    validate-detects (5 ∷ 0 ∷ 0 ∷ 0 ∷ 1 ∷ []) [] 9 8 none-AllBytes (omega arith) (omega arith)
      (omega arith) (omega arith)

validate_sound_example :
    read_u32 nine 0 ≡ magic
    × 11 + read_u32 nine 7 + 4 ≡ 21
    × read_u32 nine (11 + read_u32 nine 7) ≡ crc32_calculate (take (read_u32 nine 7) (drop 11 nine))
validate_sound_example = validate_sound nine 21 nine-AllBytes nine_accepted
