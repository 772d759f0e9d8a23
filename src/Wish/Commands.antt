-- ===== src/Wish/Commands.antt =====
-- aos_wish_shell/wish.c: what the shell does with a command, a line and a sequence of lines. The
-- calls of the operating system are a parameter.
use cs380l.Base.{
  ℕ, zero, suc, ◌+◌, Bool, true, false, not, if◌then◌else◌, List, [], ◌∷◌, ◌++◌, length, take,
  Option, none, some, ok, panic, ◌==◌, ◌||◌,
}
use cs380l.Wish.State.{
  Text, compare, exit_name, cd_name, path_name, is_built_in, redirect_char, blanks, ampersand,
  is_delimiter, skip, token, strtok_r, parse_input,
}

-- `access (path, X_OK)`, `chdir` and `fork`, each true on success; `fork` may depend on how many
-- processes were started.
pub record Os : Type 0 where
  pub access : Text → Bool
  pub chdir : Text → Bool
  pub fork : ℕ → Bool

-- What a child passes to `execv`, and the file that it sends its output to.
pub record Launch : Type 0 where
  pub program : Text
  pub args : List Text
  pub out : Option Text

-- The search path, the number of error messages, the directories that were passed to `chdir`, and
-- the children, the last first.
pub record Shell : Type 0 where
  pub paths : List Text
  pub errors : ℕ
  pub visited : List Text
  pub launched : List Launch

-- Where the shell stands: it goes on, it has called `exit (1)`, it has stored behind the array of arguments, which has no
-- defined effect in C, or a loop has run out of its limit. The state is kept, with the children started so far.
pub data Run : Type 0 where
  goes_on : Shell → Run
  exits : Shell → Run
  overruns : Shell → Run
  stuck : Run

abbrev pub and_next : Run → (Shell → Run) → Run
and_next (goes_on k) f = f k
and_next (exits k) f = exits k
and_next (overruns k) f = overruns k
and_next stuck f = stuck

abbrev pub handle_error : Shell → Shell
handle_error k = record k { errors = k.errors + 1 }

-- `snprintf` of "%s/%s" into the 1024 bytes of MAX_INPUT, one of them for the null byte.
abbrev pub candidate : Text → Text → Text
candidate dir name = take 1023 (dir ++ 47 ∷ name)

abbrev pub find_program : Os → List Text → Text → Option Text
find_program os [] name = none
find_program os (dir ∷ dirs) name =
    if os.access (candidate dir name) then some (candidate dir name) else find_program os dirs name

-- The command is `name` with the arguments `args` behind it.
unfoldable pub execute_cmd : Os → Option Text → Text → List Text → Shell → Run
execute_cmd os out name args k = elim (find_program os k.paths name) [
  | none ↦ goes_on (handle_error k)
  | some program ↦
      let child : Launch = record { program = program; args = name ∷ args; out = out } in
      if os.fork (length k.launched)
      then goes_on (record k { launched = child ∷ k.launched })
      else exits (handle_error k)
]

unfoldable pub execute_builtins : Os → Text → List Text → Shell → Shell
execute_builtins os p_command args k =
    if compare p_command exit_name
    then elim args [ [] ↦ k | _ ∷ _ ↦ handle_error k ]
    else if compare p_command cd_name
    then elim args [
      | [] ↦ handle_error k
      | dir ∷ _ ↦
          let j = record k { visited = dir ∷ k.visited } in
          if not (os.chdir dir) then handle_error j else j
    ]
    else if compare p_command path_name
    then record k { paths = args }
    else k

-- The loop of `process_command` that looks for '>': the arguments before it and the file, or `none` for
-- an error. `later` says that the index is above 0.
unfoldable pub find_redirect : Bool → List Text → Option (List Text × Option Text)
find_redirect later [] = some ([], none)
find_redirect later (a ∷ args) =
    let rest = find_redirect true args in
    if compare a (redirect_char ∷ [])
    then (if later
        then elim args [
          | [] ↦ none
          | f ∷ more ↦ elim more [ [] ↦ some ([], some f) | _ ∷ _ ↦ none ]
        ]
        else none)
    else elim rest [ none ↦ none | some (before, out) ↦ some (a ∷ before, out) ]

-- `process_command` on the arguments that `parse_input` has left.
unfoldable pub run_args : Os → List Text → Shell → Run
run_args os args k = elim (find_redirect false args) [
  | none ↦ goes_on (handle_error k)
  | some (before, out) ↦ elim before [
    | [] ↦ goes_on k
    | name ∷ more ↦
        if is_built_in name
        then goes_on (execute_builtins os name more k)
        else execute_cmd os out name more k
  ]
]

unfoldable pub process_command : Os → Text → Shell → Run
process_command os p_input k = elim (parse_input p_input) [
  | panic ↦ overruns k
  | ok args ↦ run_args os args k
]

-- The loop of `process_line`, for at most `limit` rounds.
unfoldable pub process_from : ℕ → Os → Option (Text × Text) → Shell → Run
process_from zero os next k = stuck
process_from (suc limit) os next k = elim next [
  | none ↦ goes_on k
  | some (p_command, rest) ↦
      and_next (process_command os p_command k)
        (λ j. process_from limit os (strtok_r ampersand rest) j)
]

-- The wait for the children that follows has no effect on the state.
unfoldable pub process_line : Os → Text → Shell → Run
process_line os p_input k = process_from (suc (length p_input)) os (strtok_r ampersand p_input) k

-- The delimiters at the start of a string.
abbrev pub leading : List ℕ → Text → Text
leading ds [] = []
leading ds (x ∷ xs) = if is_delimiter x ds then x ∷ leading ds xs else []

-- What `p_input` reads as when `strtok_r` has stored its null bytes in it: up to the end of the first
-- word.
abbrev pub remains : Text → Text
remains line =
    let first = token ampersand (skip ampersand line) in
    leading ampersand line ++ (leading blanks first ++ token blanks (skip blanks first))

-- A line that ends with a newline. `getline` returns another one only at the end of the input, where `feof` holds.
abbrev pub has_newline : Text → Bool
has_newline [] = false
has_newline (c ∷ line) = c == 10 || has_newline line

-- The loop of `main` on the lines that `getline` returns.
unfoldable pub run_lines : Os → List Text → Shell → Run
run_lines os [] k = goes_on k
run_lines os (line ∷ lines) k =
    if not (has_newline line)
    then goes_on k
    else and_next (process_line os line k)
        (λ j. if compare exit_name (remains line) then goes_on j else run_lines os lines j)

abbrev pub boot : Shell
boot = record { paths = (47 ∷ 98 ∷ 105 ∷ 110 ∷ []) ∷ []; errors = 0; visited = []; launched = [] }
