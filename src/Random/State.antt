-- ===== src/Random/State.antt =====
-- lib/random.c: the generator, with its static variables as a state. A byte is a number, and its wrap-around is
-- written out.
use Prim.Native.Nat.{◌^◌}
use cs380l.Base.{ℕ, zero, suc, ◌+◌, ◌%◌, Bool, true, not, ◌==◌, if◌then◌else◌}
use cs380l.Files.Disk.{Buffer, byte_of, word_at}

pub record Random : Type 0 where
  pub s : Buffer
  pub s_i : ℕ
  pub s_j : ℕ
  pub inited : Bool

-- The two stores of `swap_byte`, to the places `a` and `b` of a table.
abbrev pub swap_byte : ℕ → ℕ → Buffer → Buffer
swap_byte a b s =
    let t = s a in
    let half : Buffer = λ p. if a == p then s b else s p in λ p. if b == p then t else half p

-- The second loop of `random_init`, from `i` on for `n` rounds.
unfoldable pub mix_from : ℕ → ℕ → ℕ → ℕ → Buffer → Buffer
mix_from zero seed i j s = s
mix_from (suc n) seed i j s =
    let next = (j + (s i + byte_of seed (i % 4))) % 2 ^ 8 in
    mix_from n seed (i + 1) next (swap_byte i next s)

unfoldable pub random_init : ℕ → Random → Random
random_init seed r =
    if r.inited
    then r
    else record { s = mix_from 256 seed 0 0 (λ i. i % 2 ^ 8); s_i = 0; s_j = 0; inited = true }

-- One round of the loop of `random_bytes`: the state, and the byte that is written.
abbrev pub advance : Random → Random
advance r =
    let i = (r.s_i + 1) % 2 ^ 8 in
    let j = (r.s_j + r.s i) % 2 ^ 8 in
    record { s = swap_byte i j r.s; s_i = i; s_j = j; inited = r.inited }

abbrev pub byte_out : Random → ℕ
byte_out r = r.s ((r.s r.s_i + r.s r.s_j) % 2 ^ 8)

unfoldable pub bytes_from : ℕ → ℕ → Buffer → Random → Buffer × Random
bytes_from zero k buf r = (buf, r)
bytes_from (suc size) k buf r =
    let next = advance r in
    bytes_from size (k + 1) (λ p. if k == p then byte_out next else buf p) next

unfoldable pub random_bytes : Buffer → ℕ → Random → Buffer × Random
random_bytes buf size r =
    let ready = if not r.inited then random_init 0 r else r in bytes_from size 0 buf ready

-- `ul` holds anything at first.
unfoldable pub random_ulong : Buffer → Random → ℕ × Random
random_ulong ul r = let (bytes, after) = random_bytes ul 4 r in (word_at bytes 0, after)
