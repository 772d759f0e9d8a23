-- ===== src/Strings/Spans.antt =====
-- lib/string.c: the functions that look for characters out of a set, and `strtok_r`. Each `limit` is a
-- limit on the rounds, as in Strings/State; the searches inside a round have it as well.
use cs380l.Base.{
  ℕ, zero, suc, ◌+◌, ◌-◌, ◌%◌, ◌<◌, ◌≤◌, ◌≡◌, ◌≢◌, ◌∙◌, refl, sym, Bool, true, false, not, ◌||◌,
  ◌==◌, leb, if◌then◌else◌, Result, ok, panic, ◌>>=◌, ◌>>◌, assert, List, [], ◌∷◌, arith,
}
use cs380l.Strings.State.{Memory, store, Sign, null, strchr, strlen, memcmp}
use cs380l.Strings.Blocks.{bytes}
use cs380l.Strings.Length.{
  IsString, IsString-head, IsString-nil, IsString-tail, first, strchr-first,
}

-- The loop of `strcspn`, at `length`.
unfoldable pub cspan_from : ℕ → ℕ → ℕ → ℕ → ℕ → Memory → Result ℕ
cspan_from zero fuel length string stop mem = panic
cspan_from (suc limit) fuel length string stop mem =
    let rest = cspan_from limit fuel (length + 1) string stop mem in
    if mem (string + length) == 0 then ok length else (do
      found ← strchr fuel stop (mem (string + length)) mem
      if not (found == 0) then ok length else rest)

unfoldable pub strcspn : ℕ → ℕ → ℕ → Memory → Result ℕ
strcspn limit string stop mem = cspan_from limit limit 0 string stop mem

-- The loop of `strspn`.
unfoldable pub span_from : ℕ → ℕ → ℕ → ℕ → ℕ → Memory → Result ℕ
span_from zero fuel length string skip mem = panic
span_from (suc limit) fuel length string skip mem =
    let rest = span_from limit fuel (length + 1) string skip mem in
    if mem (string + length) == 0 then ok length else (do
      found ← strchr fuel skip (mem (string + length)) mem
      if found == 0 then ok length else rest)

unfoldable pub strspn : ℕ → ℕ → ℕ → Memory → Result ℕ
strspn limit string skip mem = span_from limit limit 0 string skip mem

-- `strpbrk`, with `fuel` for `strchr`.
unfoldable pub strpbrk : ℕ → ℕ → ℕ → ℕ → Memory → Result ℕ
strpbrk zero fuel string stop mem = panic
strpbrk (suc limit) fuel string stop mem =
    let rest = strpbrk limit fuel (string + 1) stop mem in
    if mem string == 0 then ok 0 else (do
      found ← strchr fuel stop (mem string) mem
      if not (found == 0) then ok string else rest)

-- The loop of `strrchr`.
unfoldable pub last_from : ℕ → ℕ → ℕ → ℕ → Memory → Result ℕ
last_from zero p string c mem = panic
last_from (suc limit) p string c mem =
    let rest = last_from limit (if mem string == c then string else p) (string + 1) c mem in
    if mem string == 0 then ok p else rest

unfoldable pub strrchr : ℕ → ℕ → ℕ → Memory → Result ℕ
strrchr limit string c mem = last_from limit 0 string (c % 256) mem

abbrev pub is_null : Sign → Bool
is_null s = elim s [ null ↦ true | _ ↦ false ]

-- The loop of `strstr`, with `n` values of `i` to go.
unfoldable pub match_from : ℕ → ℕ → ℕ → ℕ → ℕ → Memory → Result ℕ
match_from zero i haystack needle needle_len mem = ok 0
match_from (suc n) i haystack needle needle_len mem =
    let rest = match_from n (i + 1) haystack needle needle_len mem in
    do
      s ← memcmp (haystack + i) needle needle_len mem
      if is_null s then ok (haystack + i) else rest

unfoldable pub strstr : ℕ → ℕ → ℕ → Memory → Result ℕ
strstr limit haystack needle mem = do
  haystack_len ← strlen limit haystack mem
  needle_len ← strlen limit needle mem
  if leb needle_len haystack_len
      then match_from (haystack_len - needle_len + 1) 0 haystack needle needle_len mem
      else ok 0

-- The first loop of `strtok_r`: it stops at a character that is no delimiter, or at the null byte.
unfoldable pub skip_delimiters : ℕ → ℕ → ℕ → ℕ → Memory → Result ℕ
skip_delimiters zero fuel s delimiters mem = panic
skip_delimiters (suc limit) fuel s delimiters mem =
    let rest = skip_delimiters limit fuel (s + 1) delimiters mem in
    do
      found ← strchr fuel delimiters (mem s) mem
      if not (found == 0) then (if mem s == 0 then ok s else rest) else ok s

-- The second loop.
unfoldable pub skip_token : ℕ → ℕ → ℕ → ℕ → Memory → Result ℕ
skip_token zero fuel s delimiters mem = panic
skip_token (suc limit) fuel s delimiters mem =
    let rest = skip_token limit fuel (s + 1) delimiters mem in
    do found ← strchr fuel delimiters (mem s) mem; if found == 0 then rest else ok s

-- The result is the token, what `*save_ptr` holds afterwards, and the memory.
unfoldable pub strtok_r : ℕ → ℕ → ℕ → ℕ → Memory → Result (ℕ × ℕ × Memory)
strtok_r limit s delimiters saved mem = do
  assert (not (delimiters == 0))
  let start = if s == 0 then saved else s
  assert (not (start == 0))
  t ← skip_delimiters limit limit start delimiters mem
  if mem t == 0 then ok (0, t, mem) else (do
    e ← skip_token limit limit t delimiters mem
    if not (mem e == 0) then ok (t, e + 1, store e 0 mem) else ok (t, e, mem))

-- The length of the longest start of a list with, or without, members of a set.
abbrev pub elem : ℕ → List ℕ → Bool
elem y [] = false
elem y (x ∷ xs) = x == y || elem y xs

abbrev pub prefix : Bool → List ℕ → List ℕ → ℕ
prefix inside cs [] = 0
prefix inside cs (x ∷ xs) =
    if elem x cs
    then (if inside then suc (prefix inside cs xs) else 0)
    else (if inside then 0 else suc (prefix inside cs xs))

first-elem : (p c : ℕ) (cs : List ℕ) → 1 ≤ p → (first p cs c 0 == 0) ≡ not (elem c cs)
first-elem p c [] l = refl
first-elem p c (x ∷ cs) l = ground (arith, first-elem (p + 1) c cs)

module _ (m fuel set : ℕ) (mem : Memory) (z : set ≢ 0) (t : IsString set m mem) (l : m < fuel)
    (byte : (p : ℕ) → mem p < 256) where
  found_lem :
      (p : ℕ)
      → mem p ≢ 0
      → (found : ℕ) × (strchr fuel set (mem p) mem ≡ ok found)
        × ((found == 0) ≡ not (elem (mem p) (bytes set m mem)))
  found_lem p ne =
      let c : mem p % 256 ≡ mem p = omega (arith, byte p) in
      let e = strchr-first m fuel set (mem p) mem z t l in
      (
        first set (bytes set m mem) (mem p) 0,
        ground arith,
        first-elem set (mem p) (bytes set m mem) (ground arith),
      )

  cspan_from-prefix :
      (n limit i string : ℕ)
      → IsString (string + i) n mem
      → n < limit
      → cspan_from limit fuel i string set mem
        ≡ ok (i + prefix false (bytes set m mem) (bytes (string + i) n mem))
  unfolding cspan_from bytes
  cspan_from-prefix n zero i string s lt = absurd (omega arith)
  cspan_from-prefix zero (suc k) i string s lt = ground (arith, IsString-nil s)
  cspan_from-prefix (suc n) (suc k) i string s lt =
      let a : string + i + 1 ≡ string + (i + 1) = omega arith in
      let r : IsString (string + (i + 1)) n mem = rw (sym a) (IsString-tail s) in
      let (f, e, g) = found_lem (string + i) (IsString-head s) in
      ground (arith, IsString-head s, cspan_from-prefix n k (i + 1) string r)

  span_from-prefix :
      (n limit i string : ℕ)
      → IsString (string + i) n mem
      → n < limit
      → span_from limit fuel i string set mem
        ≡ ok (i + prefix true (bytes set m mem) (bytes (string + i) n mem))
  unfolding span_from bytes
  span_from-prefix n zero i string s lt = absurd (omega arith)
  span_from-prefix zero (suc k) i string s lt = ground (arith, IsString-nil s)
  span_from-prefix (suc n) (suc k) i string s lt =
      let a : string + i + 1 ≡ string + (i + 1) = omega arith in
      let r : IsString (string + (i + 1)) n mem = rw (sym a) (IsString-tail s) in
      let (f, e, g) = found_lem (string + i) (IsString-head s) in
      ground (arith, IsString-head s, span_from-prefix n k (i + 1) string r)

-- `strcspn` and `strspn` return the length of the longest start of the string without, and with only,
-- characters of the set, in a memory of bytes.
pub strspn-prefix :
    (m n limit set string : ℕ) (mem : Memory)
    → set ≢ 0
    → IsString set m mem
    → IsString string n mem
    → m < limit
    → n < limit
    → ((p : ℕ) → mem p < 256)
    → (strcspn limit string set mem ≡ ok (prefix false (bytes set m mem) (bytes string n mem)))
      × (strspn limit string set mem ≡ ok (prefix true (bytes set m mem) (bytes string n mem)))
unfolding strcspn strspn
strspn-prefix m n limit set string mem z t s lm ln byte =
    let a : string + 0 ≡ string = omega arith in
    (
      cspan_from-prefix m limit set mem z t lm byte n limit 0 string (rw a s) ln ∙ ground arith,
      span_from-prefix m limit set mem z t lm byte n limit 0 string (rw a s) ln ∙ ground arith,
    )
