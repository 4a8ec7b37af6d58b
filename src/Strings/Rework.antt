-- ===== src/Strings/Rework.antt =====
-- Substrings, copies and the edits that rewrite a whole string: string_substring, string_slice,
-- string_clone, string_concat, string_join, string_replace, string_reverse, string_repeat and the two
-- paddings of myos-lib/src/string.c.
pub mod Reverse
pub mod Substring
use freelang_independent_ful.Prelude.{
  ℕ, zero, suc, ◌+◌, ◌-◌, ◌*◌, Bool, true, false, Option, none, some, List, [], ◌∷◌, ◌++◌, ltb, leb,
  ◌==◌, if◌then◌else◌, get_or, set, drop, length,
}
use freelang_independent_ful.Memory.{Bytes, my_memcpy, my_memmove, add_size, mul_size, sub_size}
use freelang_independent_ful.Heap.{Heap}
use freelang_independent_ful.Strings.{
  String, Outcome, done, failed, spinning, Run, after, my_strlen, string_new,
  string_new_with_capacity, string_free, string_ensure_capacity, string_append, ended,
}
use freelang_independent_ful.Strings.Search.{my_strncmp, is_equal}

-- the rest of `string_substring`, once there is room for the result
unfoldable pub sub_filled : String → String → ℕ → ℕ → String
sub_filled result s start len = record result {
  data' = set (my_memcpy result.data' 0 s.data' start len) len 0;
  len = len;
}

unfoldable pub sub_clipped : String → ℕ → ℕ → Heap → Option String × Heap
sub_clipped s start len h =
    let (result, h') = string_new_with_capacity (add_size len 1) h in
    elim result [ none ↦ (none, h') | some r ↦ (some (sub_filled r s start len), h') ]

unfoldable pub string_substring : String → ℕ → ℕ → Heap → Option String × Heap
string_substring s start wanted h =
    if leb s.len start
    then string_new [] h
    else sub_clipped s start
        (if ltb s.len (add_size start wanted) then sub_size s.len start else wanted) h

-- the pointer into the buffer, as the bytes from there on
unfoldable pub string_slice : String → ℕ → Bytes
string_slice s start = if leb s.len start then [] else drop start s.data'

unfoldable pub string_clone : String → Heap → Option String × Heap
string_clone s h = string_substring s 0 s.len h

-- a call that makes a string or yields NULL
unfoldable pub made : Option String × Heap → Outcome × Option String × Heap
made (o, h) = (done, o, h)

-- an append to a new string, which is freed when that fails
unfoldable pub append_or_free : Run → Outcome × Option String × Heap
append_or_free (done, s, h) = (done, some s, h)
append_or_free (failed, s, h) = (done, none, string_free s h)
append_or_free (spinning, s, h) = (spinning, none, h)

unfoldable pub string_concat : Option String → Option String → Heap → Outcome × Option String × Heap
string_concat none none h = made (string_new [] h)
string_concat none (some b) h = made (string_clone b h)
string_concat (some a) none h = made (string_clone a h)
string_concat (some a) (some b) h =
    let (result, h') = string_clone a h in
    elim result [ none ↦ (done, none, h') | some r ↦ append_or_free (string_append r b.data' h') ]

-- the separator, unless it is NULL
unfoldable pub append_separator : String → Option Bytes → Heap → Run
append_separator s none h = (done, s, h)
append_separator s (some separator) h = string_append s separator h

-- the loop of `string_join`; NULL among the strings is skipped
unfoldable pub join_rest : List (Option String) → Option Bytes → String → Heap → Run
join_rest [] separator result h = (done, result, h)
join_rest (none ∷ strings) separator result h =
    after (append_separator result separator h) (λ r h'. join_rest strings separator r h')
join_rest (some s ∷ strings) separator result h =
    after (append_separator result separator h)
      (λ r h'. after (string_append r s.data' h') (λ r' h''. join_rest strings separator r' h''))

unfoldable pub string_join :
    List (Option String) → Option Bytes → Heap → Outcome × Option String × Heap
string_join [] separator h = made (string_new [] h)
string_join (none ∷ strings) separator h = (done, none, h)
string_join (some s ∷ strings) separator h =
    let (result, h') = string_clone s h in
    elim result [
      | none ↦ (done, none, h')
      | some r ↦ append_or_free (join_rest strings separator r h')
    ]

-- the bytes behind the match moved to make the lengths agree
unfoldable pub shifted : String → ℕ → ℕ → ℕ → String
shifted s pos from_len to_len =
    if from_len == to_len
    then s
    else ended s
        (my_memmove s.data' (add_size pos to_len) (add_size pos from_len)
          (sub_size (sub_size s.len pos) from_len))
        (add_size (sub_size s.len from_len) to_len)

-- room for one replacement
unfoldable pub replace_room : String → ℕ → ℕ → Heap → Run
replace_room s from_len to_len h =
    if ltb from_len to_len
    then string_ensure_capacity s (sub_size (add_size s.len to_len) from_len) h
    else (done, s, h)

-- the loop of `string_replace`, with `n` rounds left: how it ended, the number of replacements, and
-- what it left
unfoldable pub replace_from :
    ℕ → ℕ → ℕ → String → Bytes → Bytes → Heap → Outcome × ℕ × String × Heap
replace_from zero pos count s from to h = (spinning, count, s, h)
replace_from (suc n) pos count s from to h =
    let missed = replace_from n (pos + 1) count s from to h in
    let (o, s', h') = replace_room s (my_strlen from) (my_strlen to) h in
    let s'' = shifted s' pos (my_strlen from) (my_strlen to) in
    let s₃ = record s'' { data' = my_memcpy s''.data' pos to 0 (my_strlen to) } in
    let replaced = replace_from n (pos + my_strlen to) (count + 1) s₃ from to h' in
    if ltb (sub_size s.len (my_strlen from)) pos
    then (done, count, s, h)
    else if is_equal (my_strncmp (my_strlen from) s.data' pos from 0)
    then elim o [
      | done ↦ replaced
      | failed ↦ (done, count, s', h')
      | spinning ↦ (spinning, count, s', h')
    ]
    else missed

-- The rounds of the loop are an argument: it need not end.
unfoldable pub string_replace : ℕ → String → Bytes → Bytes → Heap → Outcome × ℕ × String × Heap
string_replace rounds s from to h =
    if my_strlen from == 0 then (done, 0, s, h) else replace_from rounds 0 0 s from to h

-- the loop of `string_reverse`
unfoldable pub swap_from : ℕ → ℕ → ℕ → Bytes → Option Bytes
swap_from zero left right buf = none
swap_from (suc n) left right buf =
    let swapped = set (set buf left (get_or buf right 0)) right (get_or buf left 0) in
    let rest = swap_from n (left + 1) (sub_size right 1) swapped in
    if ltb left right then rest else some buf

-- `none` when the rounds are used up
unfoldable pub string_reverse : ℕ → String → Option String
string_reverse rounds s = elim (swap_from rounds 0 (sub_size s.len 1) s.data') [
  | none ↦ none
  | some buf ↦ some (record s { data' = buf })
]

-- the copies of `string_repeat` from the `i`-th on, with `n` to go
unfoldable pub copies : ℕ → ℕ → ℕ → Bytes → Bytes
copies zero i len buf = buf
copies (suc n) i len buf = copies n (i + 1) len (my_memcpy buf (mul_size i len) buf 0 len)

unfoldable pub string_repeat : String → ℕ → Heap → Run
string_repeat s count h =
    if count == 0
    then (failed, s, h)
    else if count == 1
    then (done, s, h)
    else after (string_ensure_capacity s (mul_size s.len count) h) (λ s' h'.
      (done, ended s' (copies (count - 1) 1 s'.len s'.data') (mul_size s'.len count), h'))

-- the loop of the paddings
unfoldable pub fill : ℕ → ℕ → ℕ → Bytes → Bytes
fill zero i c buf = buf
fill (suc n) i c buf = fill n (i + 1) c (set buf i c)

unfoldable pub string_pad_left : String → ℕ → ℕ → Heap → Run
string_pad_left s width pad_char h =
    if leb width s.len
    then (done, s, h)
    else let pad_count = width - s.len in
      after (string_ensure_capacity s width h) (λ s' h'. (
        done,
        ended s' (fill pad_count 0 pad_char (my_memmove s'.data' pad_count 0 s'.len)) width,
        h',
      ))

unfoldable pub string_pad_right : String → ℕ → ℕ → Heap → Run
string_pad_right s width pad_char h =
    if leb width s.len
    then (done, s, h)
    else let pad_count = width - s.len in
      after (string_ensure_capacity s width h)
        (λ s' h'. (done, ended s' (fill pad_count s'.len pad_char s'.data') width, h'))
