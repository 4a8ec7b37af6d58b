-- ===== src/Strings.antt =====
-- The growing string of myos-lib/src/string.c. Its buffer is the list of its bytes, one more than
-- `capacity`. A C string that is passed in is a list of bytes too: it ends at its first 0 or, as a
-- read behind the list yields 0, at the end of the list. The pointers to strings are not NULL.
pub mod Valid
pub mod New
pub mod Endless
pub mod Insert
pub mod Remove
pub mod Trim
pub mod Search
pub mod Convert
pub mod Split
pub mod Rework
use freelang_independent_ful.Prelude.{
  ℕ, zero, suc, ◌+◌, ◌-◌, ◌*◌, Bool, true, false, ◌&&◌, ◌||◌, Option, none, some, List, [], ◌∷◌,
  ltb, leb, ◌==◌, if◌then◌else◌, get_or, set, take,
}
use freelang_independent_ful.Memory.{Bytes, my_memcpy, my_memmove, mul_size, add_size, sub_size}
use freelang_independent_ful.Heap.{Heap, alloc, fresh, free}

pub record String : Type 0 where
  pub self : ℕ
  pub block : ℕ
  pub data' : Bytes
  pub len : ℕ
  pub capacity : ℕ

abbrev pub sizeof_string : ℕ
sizeof_string = 24

-- how a call ends: 0, -1, or not at all, which is the model's word for a loop that has used up its
-- rounds
pub data Outcome : Type 0 where
  done failed spinning : Outcome

-- what a call leaves behind
abbrev pub Run : Type 0
Run = Outcome × String × Heap

-- `if (call != 0) return -1;` and what follows
unfoldable pub after : Run → (String → Heap → Run) → Run
after (done, s, h) next = next s h
after (failed, s, h) next = (failed, s, h)
after (spinning, s, h) next = (spinning, s, h)

unfoldable pub my_strlen : Bytes → ℕ
my_strlen [] = 0
my_strlen (c ∷ str) = let rest = my_strlen str in if c == 0 then 0 else suc rest

-- the buffer of `string_new`: the characters and the 0
unfoldable pub copied : Bytes → Bytes → ℕ → Bytes
copied buf str len = set (my_memcpy buf 0 str 0 len) len 0

-- NULL is the empty list
unfoldable pub string_new : Bytes → Heap → Option String × Heap
unfolding my_strlen copied
string_new str h =
    let len = my_strlen str in
    let capacity = if ltb len 16 then 16 else mul_size len 2 in
    let (self, h₁) = alloc sizeof_string h in
    elim self [
      | none ↦ (none, h₁)
      | some p ↦
          let (block, h₂) = alloc (add_size capacity 1) h₁ in
          elim block [
            | none ↦ (none, free p h₂)
            | some b ↦ (
              some (record {
                self = p;
                block = b;
                data' = copied (fresh h₁ b (add_size capacity 1)) str len;
                len = len;
                capacity = capacity;
              }),
              h₂,
            )
          ]
    ]

unfoldable pub string_new_with_capacity : ℕ → Heap → Option String × Heap
string_new_with_capacity wanted h =
    let (self, h₁) = alloc sizeof_string h in
    elim self [
      | none ↦ (none, h₁)
      | some p ↦
          let capacity = if ltb wanted 16 then 16 else wanted in
          let (block, h₂) = alloc (add_size capacity 1) h₁ in
          elim block [
            | none ↦ (none, free p h₂)
            | some b ↦ (
              some (record {
                self = p;
                block = b;
                data' = set (fresh h₁ b (add_size capacity 1)) 0 0;
                len = 0;
                capacity = capacity;
              }),
              h₂,
            )
          ]
    ]

unfoldable pub string_free : String → Heap → Heap
string_free s h = free s.self (free s.block h)

-- `while (new_capacity < required) new_capacity *= 2;`; `none` when the rounds are used up
unfoldable pub double_until : ℕ → ℕ → ℕ → Option ℕ
double_until zero new_capacity required = none
double_until (suc n) new_capacity required =
    let rest = double_until n (mul_size new_capacity 2) required in
    if ltb new_capacity required then rest else some new_capacity

-- Once it has doubled 64 times, the capacity is 0 and stays 0.
abbrev pub doubling_rounds : ℕ
doubling_rounds = 65

-- the move to a buffer of the new capacity
unfoldable pub moved : String → ℕ → ℕ → Bytes → String
unfolding copied
moved s new_capacity b buf = record s {
  block = b;
  data' = copied buf s.data' s.len;
  capacity = new_capacity;
}

unfoldable pub regrow : String → ℕ → Heap → Run
unfolding moved
regrow s new_capacity h =
    let (block, h') = alloc (add_size new_capacity 1) h in
    elim block [
      | none ↦ (failed, s, h')
      | some b ↦
          (done, moved s new_capacity b (fresh h b (add_size new_capacity 1)), free s.block h')
    ]

unfoldable pub string_ensure_capacity : String → ℕ → Heap → Run
unfolding double_until regrow
string_ensure_capacity s required h =
    if leb required s.capacity
    then (done, s, h)
    else elim (double_until doubling_rounds (mul_size s.capacity 2) required) [
      | none ↦ (spinning, s, h)
      | some new_capacity ↦ regrow s new_capacity h
    ]

-- `s->len = len; s->data[s->len] = '\0';` behind a change of the buffer
unfoldable pub ended : String → Bytes → ℕ → String
ended s buf len = record s { data' = set buf len 0; len = len }

unfoldable pub string_append_n : String → Bytes → ℕ → Heap → Run
unfolding string_ensure_capacity after ended
string_append_n s str n h =
    after (string_ensure_capacity s (add_size s.len n) h)
      (λ s' h'. (done, ended s' (my_memcpy s'.data' s'.len str 0 n) (add_size s'.len n), h'))

unfoldable pub string_append : String → Bytes → Heap → Run
unfolding string_append_n my_strlen
string_append s str h = string_append_n s str (my_strlen str) h

unfoldable pub string_append_char : String → ℕ → Heap → Run
unfolding string_ensure_capacity after ended
string_append_char s c h =
    after (string_ensure_capacity s (add_size s.len 1) h)
      (λ s' h'. (done, ended s' (set s'.data' s'.len c) (add_size s'.len 1), h'))

-- the buffer of `string_insert`, once there is room
unfoldable pub inserted : Bytes → ℕ → ℕ → Bytes → ℕ → Bytes
inserted buf len pos str str_len =
    my_memcpy (my_memmove buf (add_size pos str_len) pos (sub_size len pos)) pos str 0 str_len

unfoldable pub string_insert : String → ℕ → Bytes → Heap → Run
unfolding string_ensure_capacity after ended my_strlen inserted
string_insert s at_pos str h =
    let pos = if ltb s.len at_pos then s.len else at_pos in
    let str_len = my_strlen str in
    after (string_ensure_capacity s (add_size s.len str_len) h) (λ s' h'.
      (done, ended s' (inserted s'.data' s'.len pos str str_len) (add_size s'.len str_len), h'))

-- the lines of `string_remove` behind the checks, with `count` bytes to go
unfoldable pub cut : String → ℕ → ℕ → String
unfolding ended
cut s start count =
    ended s
      (my_memmove s.data' start (add_size start count) (sub_size (sub_size s.len start) count))
      (sub_size s.len count)

unfoldable pub string_remove : String → ℕ → ℕ → String
unfolding cut
string_remove s start wanted =
    if leb s.len start
    then s
    else cut s start (if ltb s.len (add_size start wanted) then sub_size s.len start else wanted)

unfoldable pub string_clear : String → String
string_clear s = record s { data' = set s.data' 0 0; len = 0 }

-- ' ', '\t', '\n' and '\r'
unfoldable pub is_space : ℕ → Bool
is_space c = c == 32 || c == 9 || c == 10 || c == 13

-- the loop of `string_trim_left`, from byte `i` with `n` bytes left
unfoldable pub skip_spaces : ℕ → ℕ → Bytes → ℕ
unfolding is_space
skip_spaces zero i buf = i
skip_spaces (suc n) i buf =
    let rest = skip_spaces n (i + 1) buf in if is_space (get_or buf i 0) then rest else i

unfoldable pub string_trim_left : String → String
unfolding skip_spaces ended
string_trim_left s =
    let i = skip_spaces s.len 0 s.data' in
    if ltb 0 i then ended s (my_memmove s.data' 0 i (s.len - i)) (s.len - i) else s

-- the loop of `string_trim_right`
unfoldable pub drop_spaces : ℕ → Bytes → ℕ
unfolding is_space
drop_spaces zero buf = 0
drop_spaces (suc n) buf =
    let rest = drop_spaces n buf in if is_space (get_or buf n 0) then rest else suc n

unfoldable pub string_trim_right : String → String
unfolding drop_spaces ended
string_trim_right s = ended s s.data' (drop_spaces s.len s.data')

unfoldable pub string_trim : String → String
unfolding string_trim_left string_trim_right
string_trim s = string_trim_right (string_trim_left s)

-- the loops of `string_to_uppercase` and `string_to_lowercase`, over `n` bytes from byte `i`
unfoldable pub recase : (ℕ → ℕ) → ℕ → ℕ → Bytes → Bytes
recase f zero i buf = buf
recase f (suc n) i buf = recase f n (i + 1) (set buf i (f (get_or buf i 0)))

unfoldable pub upper : ℕ → ℕ
upper c = if leb 97 c && leb c 122 then c - 97 + 65 else c

unfoldable pub lower : ℕ → ℕ
lower c = if leb 65 c && leb c 90 then c - 65 + 97 else c

unfoldable pub string_to_uppercase : String → String
unfolding recase upper
string_to_uppercase s = record s { data' = recase upper s.len 0 s.data' }

unfoldable pub string_to_lowercase : String → String
unfolding recase lower
string_to_lowercase s = record s { data' = recase lower s.len 0 s.data' }

unfoldable pub string_at : String → ℕ → ℕ
string_at s idx = if leb s.len idx then 0 else get_or s.data' idx 0

unfoldable pub string_validate : String → Bool
string_validate s = leb s.len s.capacity && get_or s.data' s.len 0 == 0

unfoldable pub string_length : Option String → ℕ
string_length none = 0
string_length (some s) = s.len

unfoldable pub string_capacity : Option String → ℕ
string_capacity none = 0
string_capacity (some s) = s.capacity

unfoldable pub string_is_empty : Option String → Bool
string_is_empty none = true
string_is_empty (some s) = s.len == 0
