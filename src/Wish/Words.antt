-- ===== src/Wish/Words.antt =====
-- aos_wish_shell/wish.c: what `parse_input` makes of a command.
use cs380l.Base.{
  ℕ, zero, suc, ◌+◌, ◌-◌, ◌*◌, ◌<◌, ◌≤◌, ◌≡◌, refl, ap, false, ltb, if◌then◌else◌, List, [], ◌∷◌,
  length, Option, none, some, ok, panic, arith, Bool-cases, List-cases, Option-cases, inl, inr,
}
use cs380l.Wish.State.{
  Text, max_args, redirect_char, is_delimiter, blanks, skip, token, behind, strtok_r,
  before_redirect, after_redirect, snoc, add_token, parse_from, parse_input,
}

pub length-skip : (ds : List ℕ) (s : Text) → length (skip ds s) ≤ length s
length-skip ds [] = omega arith
length-skip ds (x ∷ s) = ground (arith, length-skip ds s)

pub length-token : (ds : List ℕ) (s : Text) → length (token ds s) + length (behind ds s) ≤ length s
length-token ds [] = omega arith
length-token ds (x ∷ s) = ground (arith, length-token ds s)

pub skip-head :
    (ds : List ℕ) (s : Text) (x : ℕ) (xs : Text) → skip ds s ≡ x ∷ xs → is_delimiter x ds ≡ false
skip-head ds [] x xs e = absurd (cc)
skip-head ds (y ∷ s) x xs e = elim (Bool-cases (is_delimiter y ds)) [
  | inl z ↦ skip-head ds s x xs (ground arith)
  | inr z ↦ ground arith
]

-- What is left to read.
abbrev pub size : Option (Text × Text) → ℕ
size none = 0
size (some (t, rest)) = suc (length t + 2 * length rest)

pub size-strtok_r : (ds : List ℕ) (s : Text) → size (strtok_r ds s) ≤ 2 * length s
size-strtok_r ds s = elim (List-cases (skip ds s)) [
  | inl e ↦ ground arith
  | inr (x, xs, e) ↦ ground (arith, length-skip ds s, skip-head ds s x xs e, length-token ds xs)
]

length-after_redirect : (t u : Text) → after_redirect t ≡ some u → length u < length t
length-after_redirect [] u e = absurd (cc)
length-after_redirect (x ∷ t) u e = ground (arith, length-after_redirect t u)

pub length-snoc {ℓ} : {A : Type ℓ} (xs : List A) (y : A) → length (snoc xs y) ≡ suc (length xs)
length-snoc [] y = refl
length-snoc (x ∷ xs) y = ap suc (length-snoc xs y)

length-add_token : (args : List Text) (t : Text) → length (add_token args t) ≤ suc (length args)
length-add_token args t = ground (arith, length-snoc args (before_redirect t))

parse_from-ok :
    (limit : ℕ) (args : List Text) (next : Option (Text × Text))
    → size next < limit
    → length args ≤ max_args
    → (all : List Text) × (parse_from limit args next ≡ ok all) × (length all ≤ max_args)
unfolding parse_from
parse_from-ok zero args next l b = absurd (omega arith)
parse_from-ok (suc k) args none l b = (args, refl, b)
parse_from-ok (suc k) args (some (t, rest)) l b =
    let more = add_token args t in
    let a = length-add_token args t in
    elim (Bool-cases (ltb (length args) (max_args - 1))) [
      | inr e ↦ (args, ground arith, b)
      | inl e ↦ elim (Option-cases (after_redirect t)) [
        | inl n ↦
            let (all, p, q) =
              parse_from-ok k more (strtok_r blanks rest)
                (ground (arith, size-strtok_r blanks rest)) (ground arith) in
            (all, ground arith, q)
        | inr (u, n) ↦
            let (all, p, q) =
              parse_from-ok k (snoc more (redirect_char ∷ [])) (some (u, rest))
                (ground (arith, length-after_redirect t u n))
                (ground (arith, length-snoc more (redirect_char ∷ []))) in
            (all, ground arith, q)
      ]
    ]

-- `parse_input` always comes to an end, with at most 64 arguments. With fewer than 64 it returns them;
-- with 64 the null pointer behind them is stored out of bounds.
pub parse_input-bounds :
    (p_input : Text)
    → (all : List Text) × (length all ≤ max_args)
      × (parse_from (suc (2 * length p_input)) [] (strtok_r blanks p_input) ≡ ok all)
      × (parse_input p_input ≡ (if ltb (length all) max_args then ok all else panic))
unfolding parse_input
parse_input-bounds p_input =
    let (all, p, q) =
      parse_from-ok (suc (2 * length p_input)) [] (strtok_r blanks p_input)
        (ground (arith, size-strtok_r blanks p_input)) (omega arith) in
    (all, q, p, ground arith)
