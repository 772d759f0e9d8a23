-- ===== src/Wish/Runs.antt =====
-- aos_wish_shell/wish.c: what the shell does with a plain command, and what it ever starts.
use cs380l.Base.{
  ℕ, zero, suc, ◌≡◌, refl, Bool, true, false, ◌&&◌, if◌then◌else◌, List, [], ◌∷◌, length, take,
  Option, none, some, panic, arith, List-cases,
}
use cs380l.Wish.State.{Text, compare, redirect_char, parse_input, is_built_in}
use cs380l.Wish.Plain.{words, is_plain, parse_input-words}
use cs380l.Wish.Commands.{
  Os, Launch, Shell, execute_cmd, execute_builtins, find_redirect, process_command, Run, goes_on,
  exits, overruns, stuck, run_args,
}

abbrev all_plain : List Text → Bool
all_plain [] = true
all_plain (w ∷ ws) = is_plain w && all_plain ws

plain-words : (s : Text) → is_plain s ≡ true → all_plain (words s) ≡ true
plain-words [] p = refl
plain-words (x ∷ xs) p = ground (arith, plain-words xs, List-cases (words xs))

compare-plain : (w : Text) → is_plain w ≡ true → compare w (redirect_char ∷ []) ≡ false
unfolding compare
compare-plain [] p = refl
compare-plain (x ∷ []) p = ground arith
compare-plain (x ∷ y ∷ w) p = ground arith

find_redirect-plain :
    (later : Bool) (ws : List Text) → all_plain ws ≡ true → find_redirect later ws ≡ some (ws, none)
unfolding find_redirect
find_redirect-plain later [] p = refl
find_redirect-plain later (w ∷ ws) p = ground (arith, compare-plain w, find_redirect-plain true ws)

take-plain : (n : ℕ) (ws : List Text) → all_plain ws ≡ true → all_plain (take n ws) ≡ true
take-plain zero ws p = refl
take-plain (suc n) [] p = refl
take-plain (suc n) (w ∷ ws) p = ground (arith, take-plain n ws)

-- A command without '>' is run by its first word, with the next 62 at most as arguments: by the shell
-- itself if the word names a built-in command, and else as a program whose output is not redirected.
pub process_command-words :
    (os : Os) (p_input name : Text) (more : List Text) (k : Shell)
    → is_plain p_input ≡ true
    → words p_input ≡ name ∷ more
    → process_command os p_input k ≡ (
        if is_built_in name
        then goes_on (execute_builtins os name (take 62 more) k)
        else execute_cmd os none name (take 62 more) k)
unfolding process_command run_args
process_command-words os p_input name more k p e =
    let q : all_plain (take 63 (words p_input)) ≡ true =
      take-plain 63 (words p_input) (plain-words p_input p) in
    ground
      (arith, parse_input-words p_input p, find_redirect-plain false (take 63 (words p_input)) q)

-- Every program that was started was found executable.
abbrev pub granted : Os → List Launch → Bool
granted os [] = true
granted os (c ∷ cs) = os.access c.program && granted os cs

-- The programs that were started are granted, and the shell stopped early only when `fork` had failed or a command had
-- too many arguments.
abbrev pub Kept : Os → Run → Type 0
Kept os (goes_on k) = granted os k.launched ≡ true
Kept os (exits k) = (granted os k.launched ≡ true) × ((n : ℕ) × (os.fork n ≡ false))
Kept os (overruns k) = (granted os k.launched ≡ true) × ((p : Text) × (parse_input p ≡ panic))
Kept os stuck = true ≡ false

-- A bound on the rounds of the loop of `process_line` that are left.
abbrev left : Option (Text × Text) → ℕ
left none = 0
left (some (t, rest)) = suc (length rest)
