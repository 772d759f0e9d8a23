-- ===== src/Wish/Plain.antt =====
-- aos_wish_shell/wish.c: `parse_input` on a command without '>'.
use cs380l.Base.{
  ℕ, zero, suc, ◌-◌, ◌*◌, ◌<◌, ◌≤◌, ◌≡◌, ◌∙◌, refl, sym, ap, Bool, true, false, not, ◌&&◌, ◌==◌,
  if◌then◌else◌, List, [], ◌∷◌, ◌++◌, length, take, none, ok, arith, Bool-cases, List-cases,
  ℕ-cases, inl, inr,
}
use cs380l.Wish.State.{
  Text, redirect_char, is_delimiter, blanks, skip, token, behind, strtok_r, before_redirect,
  after_redirect, snoc, parse_from, parse_input,
}
use cs380l.Wish.Words.{skip-head, length-skip, length-snoc, length-token}

abbrev pub starts_blank : Text → Bool
starts_blank [] = true
starts_blank (x ∷ xs) = is_delimiter x blanks

abbrev pub join : ℕ → List Text → List Text
join x [] = (x ∷ []) ∷ []
join x (w ∷ ws) = (x ∷ w) ∷ ws

-- The words of a text, which blanks separate.
abbrev pub words : Text → List Text
words [] = []
words (x ∷ xs) =
    if is_delimiter x blanks
    then words xs
    else if starts_blank xs
    then (x ∷ []) ∷ words xs
    else join x (words xs)

words-skip : (s : Text) → words s ≡ words (skip blanks s)
words-skip [] = refl
words-skip (x ∷ xs) = elim (Bool-cases (is_delimiter x blanks)) [
  | inl e ↦ ground (arith, words-skip xs)
  | inr e ↦ ground arith
]

words-token :
    (x : ℕ) (xs : Text)
    → is_delimiter x blanks ≡ false
    → words (x ∷ xs) ≡ (x ∷ token blanks xs) ∷ words (behind blanks xs)
words-token x [] e = ground arith
words-token x (y ∷ ys) e = elim (Bool-cases (is_delimiter y blanks)) [
  | inl z ↦ ground arith
  | inr z ↦ ground (arith, words-token y ys z)
]

-- No character is '>'.
abbrev pub is_plain : Text → Bool
is_plain [] = true
is_plain (x ∷ xs) = not (x == redirect_char) && is_plain xs

plain-skip : (s : Text) → is_plain s ≡ true → is_plain (skip blanks s) ≡ true
plain-skip [] p = refl
plain-skip (x ∷ s) p = ground (arith, plain-skip s)

plain-token : (s : Text) → is_plain s ≡ true → is_plain (token blanks s) ≡ true
plain-token [] p = refl
plain-token (x ∷ s) p = ground (arith, plain-token s)

plain-behind : (s : Text) → is_plain s ≡ true → is_plain (behind blanks s) ≡ true
plain-behind [] p = refl
plain-behind (x ∷ s) p = ground (arith, plain-behind s)

plain-before : (t : Text) → is_plain t ≡ true → before_redirect t ≡ t
plain-before [] p = refl
plain-before (x ∷ t) p = ground (arith, plain-before t)

plain-after : (t : Text) → is_plain t ≡ true → after_redirect t ≡ none
plain-after [] p = refl
plain-after (x ∷ t) p = ground (arith, plain-after t)

snoc-append {ℓ} : {A : Type ℓ} (xs : List A) (y : A) (ys : List A) → snoc xs y ++ ys ≡ xs ++ y ∷ ys
snoc-append [] y ys = refl
snoc-append (x ∷ xs) y ys = ap (λ zs. x ∷ zs) (snoc-append xs y ys)

append-nil {ℓ} : {A : Type ℓ} (xs : List A) → xs ++ [] ≡ xs
append-nil [] = refl
append-nil (x ∷ xs) = ap (λ zs. x ∷ zs) (append-nil xs)

take-suc : (n : ℕ) (t : Text) (ts : List Text) → 1 ≤ n → take n (t ∷ ts) ≡ t ∷ take (n - 1) ts
take-suc zero t ts l = absurd (omega arith)
take-suc (suc n) t ts l = ap (λ m. t ∷ take m ts) (omega arith)

parse_from-nil :
    (k : ℕ) (args : List Text) (s : Text)
    → skip blanks s ≡ []
    → parse_from (suc k) args (strtok_r blanks s) ≡ ok (args ++ take (63 - length args) (words s))
unfolding parse_from
parse_from-nil k args s e =
    ground (arith, words-skip s, append-nil args, ℕ-cases (63 - length args))

parse_from-step :
    (k : ℕ) (args : List Text) (s : Text) (x : ℕ) (xs : Text)
    → skip blanks s ≡ x ∷ xs
    → is_plain s ≡ true
    → length args < 63
    → parse_from (suc k) args (strtok_r blanks s)
      ≡ parse_from k (snoc args (x ∷ token blanks xs)) (strtok_r blanks (behind blanks xs))
unfolding parse_from
parse_from-step k args s x xs e p l =
    let z = skip-head blanks s x xs e in
    let q : is_plain (x ∷ token blanks xs) ≡ true =
      ground (arith, plain-skip s p, plain-token xs) in
    ground (arith, plain-before (x ∷ token blanks xs) q, plain-after (x ∷ token blanks xs) q)

parse_from-full :
    (k : ℕ) (args : List Text) (s : Text) (x : ℕ) (xs : Text)
    → skip blanks s ≡ x ∷ xs
    → length args ≡ 63
    → parse_from (suc k) args (strtok_r blanks s) ≡ ok args
unfolding parse_from
parse_from-full k args s x xs e l = ground arith

parse_from-words :
    (k : ℕ) (args : List Text) (s : Text)
    → 2 * length s < k
    → length args ≤ 63
    → is_plain s ≡ true
    → parse_from k args (strtok_r blanks s) ≡ ok (args ++ take (63 - length args) (words s))
parse_from-words zero args s m l p = absurd (omega arith)
parse_from-words (suc k) args s m l p = elim (List-cases (skip blanks s)) [
  | inl e ↦ parse_from-nil k args s e
  | inr (x, xs, e) ↦
      let t = x ∷ token blanks xs in
      let ws : words s ≡ t ∷ words (behind blanks xs) =
        words-skip s ∙ ap words e ∙ words-token x xs (skip-head blanks s x xs e) in
      elim (Bool-cases (length args == 63)) [
        | inl f ↦
            let n : 63 - length args ≡ 0 = ground arith in
            parse_from-full k args s x xs e (ground arith) ∙ rw n (ap ok (sym (append-nil args)))
        | inr f ↦
            let lt : length args < 63 = ground arith in
            parse_from-step k args s x xs e p lt
            ∙ parse_from-words k (snoc args t) (behind blanks xs)
                (ground (arith, length-skip blanks s, length-token blanks xs))
                (ground (arith, length-snoc args t))
                (ground (arith, plain-skip s p, plain-behind xs))
            ∙ ap ok (
                snoc-append args t (take (63 - length (snoc args t)) (words (behind blanks xs)))
                ∙ ap (λ zs. args ++ zs) (rest args t (words (behind blanks xs)) lt)
                ∙ ap (λ ys. args ++ take (63 - length args) ys) (sym ws))
      ]
]
  where
    rest :
        (args : List Text) (t : Text) (ts : List Text)
        → length args < 63
        → t ∷ take (63 - length (snoc args t)) ts ≡ take (63 - length args) (t ∷ ts)
    rest args t ts lt =
        let n : 63 - length (snoc args t) ≡ 63 - length args - 1 =
          omega (arith, length-snoc args t) in
        ap (λ m. t ∷ take m ts) n ∙ sym (take-suc (63 - length args) t ts (omega arith))

-- `parse_input` on a command without '>' returns the words of the command, the first 63 of them.
pub parse_input-words :
    (p_input : Text) → is_plain p_input ≡ true → parse_input p_input ≡ ok (take 63 (words p_input))
unfolding parse_input
parse_input-words s p =
    let e = parse_from-words (suc (2 * length s)) [] s (omega arith) (omega arith) p in
    ground (arith, length-take 63 (words s))
  where
    length-take : (n : ℕ) (ts : List Text) → length (take n ts) ≤ n
    length-take zero ts = omega arith
    length-take (suc n) [] = omega arith
    length-take (suc n) (t ∷ ts) = omega (arith, length-take n ts)
