-- ===== src/Strings/Tests.antt =====
-- A memory with the strings "ab" at 10 and "cad" at 20.
use cs380l.Base.{◌+◌, ◌≡◌, refl, ok, ◌==◌, if◌then◌else◌, arith}
use cs380l.Base.{◌>>=◌, [], ◌∷◌, ◌++◌, ◌%◌, ◌^◌}
use cs380l.Strings.Numbers.{atoi, printed, decimal, negated, atoi-decimal}
use cs380l.Strings.State.{find_char, Memory, memmove, strchr}
use cs380l.Strings.Blocks.{memmove-copies}
use cs380l.Strings.Length.{IsString}
use cs380l.Strings.Spans.{strtok_r, skip_delimiters, skip_token}

abbrev two : Memory
two p =
    if p == 10
    then 97
    else if p == 11
    then 98
    else if p == 20
    then 99
    else if p == 21
    then 97
    else if p == 22
    then 100
    else 0

ab : IsString 10 2 two
ab = record { stop = refl; body = λ i l e. ground arith }

cad : IsString 20 3 two
cad = record { stop = refl; body = λ i l e. ground arith }

memmove-copies_example : (after : Memory) × (memmove 11 10 2 two ≡ ok (11, after)) × (after 12 ≡ 98)
memmove-copies_example = memmove-copies 11 10 2 two 12 (ground arith) (ground arith)

-- "cad" with 'a' as the delimiter: the tokens are "c" and "d".
abbrev delimiter : Memory
delimiter p = if p == 40 then 97 else two p

strtok_r_first : (do (t, saved, mem) ← strtok_r 10 20 40 0 delimiter; ok (saved + t)) ≡ ok 42
unfolding strtok_r skip_delimiters skip_token strchr find_char
strtok_r_first = refl

strtok_r_next : (do (t, saved, mem) ← strtok_r 10 0 40 22 delimiter; ok (saved + t)) ≡ ok 45
unfolding strtok_r skip_delimiters skip_token strchr find_char
strtok_r_next = refl

-- The strings " 42x", " +42x" and " -42x".
atoi-decimal_example :
    (atoi (32 ∷ (printed (4 ∷ 2 ∷ []) ++ (120 ∷ []))) ≡ decimal 0 (4 ∷ 2 ∷ []) % 2 ^ 32)
    × (atoi (32 ∷ 43 ∷ (printed (4 ∷ 2 ∷ []) ++ (120 ∷ []))) ≡ decimal 0 (4 ∷ 2 ∷ []) % 2 ^ 32)
    × (atoi (32 ∷ 45 ∷ (printed (4 ∷ 2 ∷ []) ++ (120 ∷ []))) ≡ negated (decimal 0 (4 ∷ 2 ∷ [])))
atoi-decimal_example = atoi-decimal (32 ∷ []) (2 ∷ []) (120 ∷ []) 4 refl refl refl
