-- ===== src/Wish/State.antt =====
-- aos_wish_shell/wish.c: strings, tokens, and the parsing of a command. A C string is the list of its
-- characters, without the null byte. `strtok_r` and `strchr` are those of the C library.
use cs380l.Base.{
  ℕ, zero, suc, ◌-◌, ◌*◌, Bool, true, false, not, ◌||◌, ◌==◌, ltb, if◌then◌else◌, List, [], ◌∷◌,
  length, Option, none, some, Result, ok, panic, ◌>>=◌, ◌>>◌, assert,
}

abbrev pub Text : Type 0
Text = List ℕ

-- Whether `compare` returns 0.
unfoldable pub compare : Text → Text → Bool
compare [] [] = true
compare [] (y ∷ ys) = false
compare (x ∷ xs) [] = false
compare (x ∷ xs) (y ∷ ys) = if not (x == y) then false else compare xs ys

abbrev pub exit_name : Text
exit_name = 101 ∷ 120 ∷ 105 ∷ 116 ∷ []

abbrev pub cd_name : Text
cd_name = 99 ∷ 100 ∷ []

abbrev pub path_name : Text
path_name = 112 ∷ 97 ∷ 116 ∷ 104 ∷ []

abbrev pub built_in_commands : List Text
built_in_commands = exit_name ∷ cd_name ∷ path_name ∷ []

-- The loop of `is_built_in`.
unfoldable pub is_among : Text → List Text → Bool
is_among p [] = false
is_among p (c ∷ cs) = if compare p c then true else is_among p cs

unfoldable pub is_built_in : Text → Bool
is_built_in p = is_among p built_in_commands

abbrev pub max_args : ℕ
max_args = 64

abbrev pub redirect_char : ℕ
redirect_char = 62

abbrev pub is_delimiter : ℕ → List ℕ → Bool
is_delimiter x [] = false
is_delimiter x (d ∷ ds) = d == x || is_delimiter x ds

-- Space, tab and newline.
abbrev pub blanks : List ℕ
blanks = 32 ∷ 9 ∷ 10 ∷ []

abbrev pub ampersand : List ℕ
ampersand = 38 ∷ []

abbrev pub skip : List ℕ → Text → Text
skip ds [] = []
skip ds (x ∷ xs) = if is_delimiter x ds then skip ds xs else x ∷ xs

abbrev pub token : List ℕ → Text → Text
token ds [] = []
token ds (x ∷ xs) = if is_delimiter x ds then [] else x ∷ token ds xs

abbrev pub behind : List ℕ → Text → Text
behind ds [] = []
behind ds (x ∷ xs) = if is_delimiter x ds then xs else behind ds xs

-- The next token, and what `saveptr` points to then.
abbrev pub strtok_r : List ℕ → Text → Option (Text × Text)
strtok_r ds s = elim (skip ds s) [
  | [] ↦ none
  | x ∷ xs ↦ some (token ds (x ∷ xs), behind ds (x ∷ xs))
]

-- What stands before the first '>', and behind it if there is one.
abbrev pub before_redirect : Text → Text
before_redirect t = token (redirect_char ∷ []) t

abbrev pub after_redirect : Text → Option Text
after_redirect [] = none
after_redirect (x ∷ xs) = if x == redirect_char then some xs else after_redirect xs

abbrev pub is_nil {ℓ} : {A : Type ℓ} → List A → Bool
is_nil [] = true
is_nil (x ∷ xs) = false

abbrev pub snoc {ℓ} : {A : Type ℓ} → List A → A → List A
snoc [] y = y ∷ []
snoc (x ∷ xs) y = x ∷ snoc xs y

-- The arguments with the part of the token before '>', if there is one.
abbrev pub add_token : List Text → Text → List Text
add_token args t = if is_nil (before_redirect t) then args else snoc args (before_redirect t)

-- The loop of `parse_input`: `next` is `p_token` with what `saveptr` points to. `args` are the entries
-- of `pp_args` so far, and `i` is their number. Running out of `limit` is `panic`.
unfoldable pub parse_from : ℕ → List Text → Option (Text × Text) → Result (List Text)
parse_from zero args next = panic
parse_from (suc limit) args next = elim next [
  | none ↦ ok args
  | some (t, rest) ↦
      let on = parse_from limit (snoc (add_token args t) (redirect_char ∷ [])) in
      let over = parse_from limit (add_token args t) (strtok_r blanks rest) in
      if not (ltb (length args) (max_args - 1))
      then ok args
      else elim (after_redirect t) [ none ↦ over | some u ↦ on (some (u, rest)) ]
]

-- The null pointer is stored behind the last argument, in an array of `max_args` entries.
unfoldable pub parse_input : Text → Result (List Text)
parse_input p_input = do
  args ← parse_from (suc (2 * length p_input)) [] (strtok_r blanks p_input)
  assert (ltb (length args) max_args)
  ok args
