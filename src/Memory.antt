-- ===== src/Memory.antt =====
-- Byte buffers and the copy loops that every container file carries its own copy of:
-- `my_memcpy` and `my_memmove` of myos-lib/src/vector.c (the same text in hash.c).
-- A buffer is the list of its bytes. A write out of range changes nothing; `Memory.Copy` and the
-- invariants of the containers are what excludes it.
pub mod Copy
pub mod Elements
use freelang_independent_ful.Prelude.{
  ℕ, zero, suc, ◌+◌, ◌-◌, ◌*◌, ◌%◌, ◌^◌, Option, none, some, List, ltb, if◌then◌else◌, get_or, set,
}

abbrev pub Bytes : Type 0
Bytes = List ℕ

-- size_t arithmetic
abbrev pub size_mod : ℕ
size_mod = 2 ^ 64

abbrev pub add_size : ℕ → ℕ → ℕ
add_size a b = (a + b) % size_mod

abbrev pub mul_size : ℕ → ℕ → ℕ
mul_size a b = (a * b) % size_mod

abbrev pub sub_size : ℕ → ℕ → ℕ
sub_size a b = (a + size_mod - b % size_mod) % size_mod

-- `for (; i < i + n; i++) dest[d + i] = src[s + i]`, the two buffers apart
unfoldable pub memcpy_from : ℕ → ℕ → Bytes → ℕ → Bytes → ℕ → Bytes
memcpy_from zero i dest d src s = dest
memcpy_from (suc n) i dest d src s =
    memcpy_from n (i + 1) (set dest (d + i) (get_or src (s + i) 0)) d src s

-- `my_memcpy(dest + d, src + s, n)`
unfoldable pub my_memcpy : Bytes → ℕ → Bytes → ℕ → ℕ → Bytes
my_memcpy dest d src s n = memcpy_from n 0 dest d src s

-- the loop from the front, inside one buffer
unfoldable pub move_up : ℕ → ℕ → Bytes → ℕ → ℕ → Bytes
move_up zero i buf d s = buf
move_up (suc n) i buf d s = move_up n (i + 1) (set buf (d + i) (get_or buf (s + i) 0)) d s

-- the loop from the back: the round with `i = n + 1` moves byte `n`
unfoldable pub move_down : ℕ → Bytes → ℕ → ℕ → Bytes
move_down zero buf d s = buf
move_down (suc n) buf d s = move_down n (set buf (d + n) (get_or buf (s + n) 0)) d s

-- `my_memmove(buf + d, buf + s, n)`
unfoldable pub my_memmove : Bytes → ℕ → ℕ → ℕ → Bytes
my_memmove buf d s n = if ltb s d then move_down n buf d s else move_up n 0 buf d s

-- an index of type size_t returned as an int: `none` is a negative number, as -1
unfoldable pub as_int : Option ℕ → Option ℕ
as_int none = none
as_int (some i) = if ltb (i % 2 ^ 32) (2 ^ 31) then some (i % 2 ^ 32) else none
