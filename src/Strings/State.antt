-- ===== src/Strings/State.antt =====
-- lib/string.c: memory and the functions on it. A pointer is an address, and 0 is the null pointer. A
-- loop that looks for the end of a string has a `limit` on its rounds, and a run past the limit is
-- `panic`, like a failed ASSERT.
use cs380l.Base.{
  ℕ, zero, suc, ◌+◌, ◌-◌, ◌%◌, not, ◌||◌, ◌&&◌, ◌==◌, ltb, if◌then◌else◌, Result, ok, panic, ◌>>=◌,
  ◌>>◌, assert,
}

abbrev pub Memory : Type 0
Memory = ℕ → ℕ

abbrev pub store : ℕ → ℕ → Memory → Memory
store p x mem = λ q. if p == q then x else mem q

-- The sign of an `int` result.
pub data Sign : Type 0 where
  negative null positive : Sign

-- `*dst++ = *src++`, `size` times.
unfoldable pub copy_up : ℕ → ℕ → ℕ → Memory → Memory
copy_up zero dst src mem = mem
copy_up (suc size) dst src mem = copy_up size (dst + 1) (src + 1) (store dst (mem src) mem)

-- `*--dst = *--src`, `size` times.
unfoldable pub copy_down : ℕ → ℕ → ℕ → Memory → Memory
copy_down zero dst src mem = mem
copy_down (suc size) dst src mem =
    copy_down size (dst - 1) (src - 1) (store (dst - 1) (mem (src - 1)) mem)

unfoldable pub memcpy : ℕ → ℕ → ℕ → Memory → Result (ℕ × Memory)
memcpy dst src size mem = do
  assert (not (dst == 0) || size == 0)
  assert (not (src == 0) || size == 0)
  ok (dst, copy_up size dst src mem)

unfoldable pub memmove : ℕ → ℕ → ℕ → Memory → Result (ℕ × Memory)
memmove dst src size mem = do
  assert (not (dst == 0) || size == 0)
  assert (not (src == 0) || size == 0)
  if ltb dst src
      then ok (dst + size, copy_up size dst src mem)
      else ok (dst, copy_down size (dst + size) (src + size) mem)

-- The loop of `memcmp`.
unfoldable pub compare_bytes : ℕ → ℕ → ℕ → Memory → Sign
compare_bytes zero a b mem = null
compare_bytes (suc size) a b mem =
    let rest = compare_bytes size (a + 1) (b + 1) mem in
    if not (mem a == mem b) then (if ltb (mem b) (mem a) then positive else negative) else rest

unfoldable pub memcmp : ℕ → ℕ → ℕ → Memory → Result Sign
memcmp a b size mem = do
  assert (not (a == 0) || size == 0)
  assert (not (b == 0) || size == 0)
  ok (compare_bytes size a b mem)

-- `strcmp` after its ASSERTs.
unfoldable pub compare_strings : ℕ → ℕ → ℕ → Memory → Result Sign
compare_strings zero a b mem = panic
compare_strings (suc limit) a b mem =
    let rest = compare_strings limit (a + 1) (b + 1) mem in
    if not (mem a == 0) && mem a == mem b
    then rest
    else ok
        (if ltb (mem a) (mem b) then negative else if ltb (mem b) (mem a) then positive else null)

unfoldable pub strcmp : ℕ → ℕ → ℕ → Memory → Result Sign
strcmp limit a b mem = do
  assert (not (a == 0))
  assert (not (b == 0))
  compare_strings limit a b mem

-- The loop of `memchr`.
unfoldable pub find_byte : ℕ → ℕ → ℕ → Memory → ℕ
find_byte zero block ch mem = 0
find_byte (suc size) block ch mem =
    let rest = find_byte size (block + 1) ch mem in if mem block == ch then block else rest

unfoldable pub memchr : ℕ → ℕ → ℕ → Memory → Result ℕ
memchr block ch size mem = do
  assert (not (block == 0) || size == 0)
  ok (find_byte size block (ch % 256) mem)

-- The loop of `strchr`.
unfoldable pub find_char : ℕ → ℕ → ℕ → Memory → Result ℕ
find_char zero string c mem = panic
find_char (suc limit) string c mem =
    let rest = find_char limit (string + 1) c mem in
    if mem string == c then ok string else if mem string == 0 then ok 0 else rest

unfoldable pub strchr : ℕ → ℕ → ℕ → Memory → Result ℕ
strchr limit string c mem = do assert (not (string == 0)); find_char limit string (c % 256) mem

-- The loop of `memset`.
unfoldable pub set_bytes : ℕ → ℕ → ℕ → Memory → Memory
set_bytes zero dst value mem = mem
set_bytes (suc size) dst value mem = set_bytes size (dst + 1) value (store dst (value % 256) mem)

unfoldable pub memset : ℕ → ℕ → ℕ → Memory → Result (ℕ × Memory)
memset dst value size mem = do
  assert (not (dst == 0) || size == 0)
  ok (dst, set_bytes size dst value mem)

-- The loop of `strlen`, at `p`.
unfoldable pub length_from : ℕ → ℕ → ℕ → Memory → Result ℕ
length_from zero p string mem = panic
length_from (suc limit) p string mem =
    let rest = length_from limit (p + 1) string mem in if mem p == 0 then ok (p - string) else rest

unfoldable pub strlen : ℕ → ℕ → Memory → Result ℕ
strlen limit string mem = do assert (not (string == 0)); length_from limit string string mem

-- The loop of `strnlen`, with `rounds` = `maxlen - length` rounds to go.
unfoldable pub bounded_length : ℕ → ℕ → ℕ → Memory → ℕ
bounded_length zero length string mem = length
bounded_length (suc rounds) length string mem =
    let rest = bounded_length rounds (length + 1) string mem in
    if mem (string + length) == 0 then length else rest

unfoldable pub strnlen : ℕ → ℕ → Memory → ℕ
strnlen string maxlen mem = bounded_length maxlen 0 string mem

unfoldable pub strlcpy : ℕ → ℕ → ℕ → ℕ → Memory → Result (ℕ × Memory)
strlcpy limit dst src size mem = do
  assert (not (dst == 0))
  assert (not (src == 0))
  src_len ← strlen limit src mem
  if ltb 0 size
      then (do
        let dst_len = if ltb src_len (size - 1) then src_len else size - 1
        (_, copied) ← memcpy dst src dst_len mem
        ok (src_len, store (dst + dst_len) 0 copied))
      else ok (src_len, mem)

unfoldable pub strlcat : ℕ → ℕ → ℕ → ℕ → Memory → Result (ℕ × Memory)
strlcat limit dst src size mem = do
  assert (not (dst == 0))
  assert (not (src == 0))
  src_len ← strlen limit src mem
  dst_len ← strlen limit dst mem
  if ltb 0 size && ltb dst_len size
      then (do
        let copy_cnt = if ltb src_len (size - dst_len - 1) then src_len else size - dst_len - 1
        (_, copied) ← memcpy (dst + dst_len) src copy_cnt mem
        ok (src_len + dst_len, store (dst + dst_len + copy_cnt) 0 copied))
      else ok (src_len + dst_len, mem)
