-- ===== src/Strings/Numbers.antt =====
-- lib/stdlib.c and lib/ctype.h: atoi() on the characters of a string. An `int` is its 32 bits, as a number.
-- Overflow, which C leaves undefined here, wraps around, as the arithmetic of the processor does.
use Prim.Native.Nat.{◌^◌}
use cs380l.Base.{
  ℕ, ◌+◌, ◌-◌, ◌*◌, ◌%◌, ◌≤◌, ◌≡◌, refl, sym, ap, ◌∙◌, Bool, true, false, not, ◌==◌, leb, ◌&&◌,
  ◌||◌, if◌then◌else◌, List, [], ◌∷◌, ◌++◌, arith,
}

abbrev pub isspace : ℕ → Bool
isspace c = c == 32 || (c == 12 || (c == 10 || (c == 13 || (c == 9 || c == 11))))

abbrev pub isdigit : ℕ → Bool
isdigit c = leb 48 c && leb c 57

unfoldable pub skip_space : List ℕ → List ℕ
skip_space [] = []
skip_space (c ∷ s) = let rest = skip_space s in if isspace c then rest else c ∷ s

-- The negative of an `int`.
abbrev pub negated : ℕ → ℕ
negated v = (2 ^ 32 - v % 2 ^ 32) % 2 ^ 32

-- The loop over the digits, which makes a negative value.
unfoldable pub digits_from : ℕ → List ℕ → ℕ
digits_from value [] = value
digits_from value (c ∷ s) =
    let rest = digits_from ((value * 10 + (2 ^ 32 - (c - 48))) % 2 ^ 32) s in
    if isdigit c then rest else value

-- `atoi` behind the white space.
unfoldable pub parse_sign : List ℕ → ℕ
parse_sign [] = negated 0
parse_sign (c ∷ s) =
    if c == 43
    then negated (digits_from 0 s)
    else if c == 45
    then digits_from 0 s
    else negated (digits_from 0 (c ∷ s))

unfoldable pub atoi : List ℕ → ℕ
atoi s = parse_sign (skip_space s)

-- The number that digits stand for, behind a number.
abbrev pub decimal : ℕ → List ℕ → ℕ
decimal n [] = n
decimal n (d ∷ ds) = decimal (n * 10 + d) ds

abbrev pub digits : List ℕ → Bool
digits [] = true
digits (d ∷ ds) = leb d 9 && digits ds

abbrev pub spaces : List ℕ → Bool
spaces [] = true
spaces (c ∷ s) = isspace c && spaces s

-- The string goes on without a digit.
abbrev pub ends : List ℕ → Bool
ends [] = true
ends (c ∷ s) = not (isdigit c)

abbrev pub printed : List ℕ → List ℕ
printed [] = []
printed (d ∷ ds) = (d + 48) ∷ printed ds

digits_from-decimal :
    (n : ℕ) (ds rest : List ℕ)
    → digits ds ≡ true
    → ends rest ≡ true
    → digits_from (negated n) (printed ds ++ rest) ≡ negated (decimal n ds)
unfolding digits_from
digits_from-decimal n [] [] d e = refl
digits_from-decimal n [] (c ∷ rest) d e =
    let no_digit : isdigit c ≡ false = ground arith in rw no_digit refl
digits_from-decimal n (d ∷ ds) rest ok_ds e =
    let small : d ≤ 9 = ground arith in
    let is_digit : isdigit (d + 48) ≡ true = ground arith in
    let next : (negated n * 10 + (2 ^ 32 - (d + 48 - 48))) % 2 ^ 32 ≡ negated (n * 10 + d) =
      omega arith in
    let more = digits_from-decimal (n * 10 + d) ds rest (ground arith) e in
    rw is_digit (ap (λ v. digits_from v (printed ds ++ rest)) next ∙ more)

skip_space-spaces : (ws s : List ℕ) → spaces ws ≡ true → skip_space (ws ++ s) ≡ skip_space s
unfolding skip_space
skip_space-spaces [] s e = refl
skip_space-spaces (c ∷ ws) s e =
    let white : isspace c ≡ true = ground arith in rw white (skip_space-spaces ws s (ground arith))

skip_space-visible : (c : ℕ) (s : List ℕ) → isspace c ≡ false → skip_space (c ∷ s) ≡ c ∷ s
unfolding skip_space
skip_space-visible c s e = rw e refl

-- White space, a sign or none, at least one digit, and then no further digit: atoi() returns the number that the
-- digits stand for, as an `int` of 32 bits, and its negative behind a minus sign. A number that is too large wraps around.
pub atoi-decimal :
    (ws ds rest : List ℕ) (d : ℕ)
    → spaces ws ≡ true
    → digits (d ∷ ds) ≡ true
    → ends rest ≡ true
    → (atoi (ws ++ (printed (d ∷ ds) ++ rest)) ≡ decimal 0 (d ∷ ds) % 2 ^ 32)
      × (atoi (ws ++ 43 ∷ (printed (d ∷ ds) ++ rest)) ≡ decimal 0 (d ∷ ds) % 2 ^ 32)
      × (atoi (ws ++ 45 ∷ (printed (d ∷ ds) ++ rest)) ≡ negated (decimal 0 (d ∷ ds)))
unfolding atoi parse_sign
atoi-decimal ws ds rest d white ok_ds e =
    let run = digits_from-decimal 0 (d ∷ ds) rest ok_ds e in
    let start : negated 0 ≡ 0 = omega arith in
    let twice : negated (negated (decimal 0 (d ∷ ds))) ≡ decimal 0 (d ∷ ds) % 2 ^ 32 =
      omega arith in
    let small : d ≤ 9 = ground arith in
    let seen : isspace (d + 48) ≡ false = ground arith in
    let plus : (d + 48 == 43) ≡ false = ground arith in
    let minus : (d + 48 == 45) ≡ false = ground arith in
    let from_0 = ap (λ v. digits_from v (printed (d ∷ ds) ++ rest)) start in
    let value = sym from_0 ∙ run in
    let text = printed (d ∷ ds) ++ rest in
    (
      ap parse_sign (
            skip_space-spaces ws text white ∙ skip_space-visible (d + 48) (printed ds ++ rest) seen)
          ∙ rw (plus, minus) (ap negated value ∙ twice),
      ap parse_sign (skip_space-spaces ws (43 ∷ text) white ∙ skip_space-visible 43 text refl)
          ∙ (ap negated value ∙ twice),
      ap parse_sign (skip_space-spaces ws (45 ∷ text) white ∙ skip_space-visible 45 text refl)
          ∙ value,
    )
