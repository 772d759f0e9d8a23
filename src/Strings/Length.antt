-- ===== src/Strings/Length.antt =====
-- lib/string.c: the end of a string, and the functions that look for it.
use Prim.Native.Nat.{min}
use cs380l.Base.{
  ℕ, zero, suc, ◌+◌, ◌-◌, ◌%◌, ◌<◌, ◌≤◌, ◌≡◌, ◌≢◌, ◌∙◌, refl, sym, ◌==◌, if◌then◌else◌, ok, List,
  [], ◌∷◌, arith,
}
use cs380l.Strings.State.{
  Memory, length_from, strlen, bounded_length, strnlen, find_char, strchr, compare_strings, strcmp,
  find_byte, memchr,
}
use cs380l.Strings.Blocks.{bytes, lexical}

-- A string of `n` characters at `p`.
pub record IsString (p n : ℕ) (mem : Memory) : Type 0 where
  pub stop : mem (p + n) ≡ 0
  pub body : (i : ℕ) → i < n → mem (p + i) ≢ 0

pub IsString-tail : {p n : ℕ} {mem : Memory} → IsString p (suc n) mem → IsString (p + 1) n mem
IsString-tail {p} {n} s =
    let z : p + 1 + n ≡ p + suc n = omega arith in
    record {
      stop = rw z s.stop;
      body = λ i l e.
          let w : p + 1 + i ≡ p + suc i = omega arith in
          s.body (suc i) (omega arith) (rw (sym w) e);
    }

pub IsString-head : {p n : ℕ} {mem : Memory} → IsString p (suc n) mem → mem p ≢ 0
IsString-head {p} s e = let z : p + 0 ≡ p = omega arith in s.body 0 (omega arith) (rw z e)

pub IsString-nil : {p : ℕ} {mem : Memory} → IsString p 0 mem → mem p ≡ 0
IsString-nil {p} s = let z : p + 0 ≡ p = omega arith in rw (sym z) s.stop

length_from-IsString :
    (n limit p string : ℕ) (mem : Memory)
    → IsString p n mem
    → n < limit
    → string ≤ p
    → length_from limit p string mem ≡ ok (p + n - string)
unfolding length_from
length_from-IsString zero (suc limit) p string mem s l b = ground (arith, IsString-nil s)
length_from-IsString (suc n) (suc limit) p string mem s l b =
    let z : p + 1 + n - string ≡ p + suc n - string = omega arith in
    ground
      (arith, IsString-head s, length_from-IsString n limit (p + 1) string mem (IsString-tail s))
length_from-IsString n zero p string mem s l b = absurd (omega arith)

-- `strlen` returns the number of characters before the null byte.
pub strlen-IsString :
    (n limit string : ℕ) (mem : Memory)
    → string ≢ 0
    → IsString string n mem
    → n < limit
    → strlen limit string mem ≡ ok n
unfolding strlen
strlen-IsString n limit string mem z s l =
    ground (arith, length_from-IsString n limit string string mem s l)

bounded_length-IsString :
    (rounds n length string : ℕ) (mem : Memory)
    → IsString (string + length) n mem
    → bounded_length rounds length string mem ≡ length + min n rounds
unfolding bounded_length
bounded_length-IsString zero n length string mem s = omega arith
bounded_length-IsString (suc r) zero length string mem s = ground (arith, IsString-nil s)
bounded_length-IsString (suc r) (suc n) length string mem s =
    let z : string + length + 1 ≡ string + (length + 1) = omega arith in
    let t : IsString (string + (length + 1)) n mem = rw (sym z) (IsString-tail s) in
    ground (arith, IsString-head s, bounded_length-IsString r n (length + 1) string mem t)

-- `strnlen` returns the length of the string, or `maxlen` if that is less.
pub strnlen-IsString :
    (string maxlen n : ℕ) (mem : Memory)
    → IsString string n mem
    → strnlen string maxlen mem ≡ min n maxlen
unfolding strnlen
strnlen-IsString string maxlen n mem s =
    let z : string + 0 ≡ string = omega arith in
    bounded_length-IsString maxlen n 0 string mem (rw z s) ∙ omega arith

compare_strings-lexical :
    (m n limit a b : ℕ) (mem : Memory)
    → IsString a m mem
    → IsString b n mem
    → m < limit
    → compare_strings limit a b mem ≡ ok (lexical (bytes a m mem) (bytes b n mem))
unfolding compare_strings bytes
compare_strings-lexical m n zero a b mem s t l = absurd (omega arith)
compare_strings-lexical zero zero (suc k) a b mem s t l =
    ground (arith, IsString-nil s, IsString-nil t)
compare_strings-lexical zero (suc n) (suc k) a b mem s t l =
    ground (arith, IsString-nil s, IsString-head t)
compare_strings-lexical (suc m) zero (suc k) a b mem s t l =
    ground (arith, IsString-head s, IsString-nil t)
compare_strings-lexical (suc m) (suc n) (suc k) a b mem s t l = ground (
  arith,
  IsString-head s,
  compare_strings-lexical m n k (a + 1) (b + 1) mem (IsString-tail s) (IsString-tail t),
)

-- `strcmp` compares the strings in the lexicographic order of their characters.
pub strcmp-lexical :
    (m n limit a b : ℕ) (mem : Memory)
    → a ≢ 0
    → b ≢ 0
    → IsString a m mem
    → IsString b n mem
    → m < limit
    → strcmp limit a b mem ≡ ok (lexical (bytes a m mem) (bytes b n mem))
unfolding strcmp
strcmp-lexical m n limit a b mem p q s t l =
    ground (arith, compare_strings-lexical m n limit a b mem s t l)

-- The address of the first `c` in a block, and `missing` if there is none.
abbrev pub first : ℕ → List ℕ → ℕ → ℕ → ℕ
first p [] c missing = missing
first p (x ∷ xs) c missing = if x == c then p else first (p + 1) xs c missing

find_byte-first :
    (size p c : ℕ) (mem : Memory) → find_byte size p c mem ≡ first p (bytes p size mem) c 0
unfolding find_byte bytes
find_byte-first zero p c mem = refl
find_byte-first (suc n) p c mem = ground (arith, find_byte-first n (p + 1) c mem)

-- `memchr` returns the address of the first byte of the block that is equal to `ch`, taken as an
-- `unsigned char`, and the null pointer if there is none.
pub memchr-first :
    (block ch size : ℕ) (mem : Memory)
    → block ≢ 0
    → memchr block ch size mem ≡ ok (first block (bytes block size mem) (ch % 256) 0)
unfolding memchr
memchr-first block ch size mem z = ground (arith, find_byte-first size block (ch % 256) mem)

find_char-first :
    (n limit p c : ℕ) (mem : Memory)
    → IsString p n mem
    → n < limit
    → find_char limit p c mem ≡ ok (first p (bytes p n mem) c (if c == 0 then p + n else 0))
unfolding find_char bytes
find_char-first n zero p c mem s l = absurd (omega arith)
find_char-first zero (suc k) p c mem s l = ground (arith, IsString-nil s)
find_char-first (suc n) (suc k) p c mem s l =
    let z : p + 1 + n ≡ p + suc n = omega arith in
    ground (arith, IsString-head s, find_char-first n k (p + 1) c mem (IsString-tail s))

-- `strchr` returns the address of the first character of the string that is equal to `c`, the address
-- of the null byte if `c` is 0, and the null pointer otherwise.
pub strchr-first :
    (n limit string c : ℕ) (mem : Memory)
    → string ≢ 0
    → IsString string n mem
    → n < limit
    → strchr limit string c mem
      ≡ ok (first string (bytes string n mem) (c % 256) (if c % 256 == 0 then string + n else 0))
unfolding strchr
strchr-first n limit string c mem z s l =
    ground (arith, find_char-first n limit string (c % 256) mem s l)
