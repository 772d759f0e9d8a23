-- ===== src/Wish/Tests.antt =====
-- Commands of the shell.
use cs380l.Base.{◌≡◌, ◌≤◌, refl, true, ltb, if◌then◌else◌, List, [], ◌∷◌, length, some, ok, panic}
use cs380l.Wish.State.{
  Text, compare, is_among, is_built_in, path_name, blanks, strtok_r, parse_from, parse_input,
}
use cs380l.Wish.Words.{parse_input-bounds}
use cs380l.Wish.Plain.{parse_input-words}
use cs380l.Wish.Commands.{
  Os, Launch, find_redirect, execute_cmd, process_command, process_from, process_line, run_lines,
  boot, goes_on, run_args,
}

-- "path a", and "ls>f".
abbrev set_path : Text
set_path = 112 ∷ 97 ∷ 116 ∷ 104 ∷ 32 ∷ 97 ∷ []

abbrev redirected : Text
redirected = 108 ∷ 115 ∷ 62 ∷ 102 ∷ []

abbrev anything : Os
anything = record { access = λ p. true; chdir = λ p. true; fork = λ n. true }

redirected_args : parse_input redirected ≡ ok ((108 ∷ 115 ∷ []) ∷ (62 ∷ []) ∷ (102 ∷ []) ∷ [])
unfolding parse_input parse_from
redirected_args = refl

parse_input-bounds_example :
    (all : List Text) × (length all ≤ 64)
    × (parse_from 9 [] (strtok_r blanks redirected) ≡ ok all)
    × (parse_input redirected ≡ (if ltb (length all) 64 then ok all else panic))
parse_input-bounds_example = parse_input-bounds redirected

parse_input-words_example : parse_input set_path ≡ ok (path_name ∷ (97 ∷ []) ∷ [])
parse_input-words_example = parse_input-words set_path refl

abbrev child : Launch
child = record {
  program = 47 ∷ 98 ∷ 105 ∷ 110 ∷ 47 ∷ 108 ∷ 115 ∷ [];
  args = (108 ∷ 115 ∷ []) ∷ [];
  out = some (102 ∷ []);
}

abbrev redirected_line : Text
redirected_line = 108 ∷ 115 ∷ 62 ∷ 102 ∷ 10 ∷ []

-- "ls>f", and "path a" without a newline.
run_lines-child :
    run_lines anything (redirected_line ∷ set_path ∷ []) boot
    ≡ goes_on (record boot { launched = child ∷ [] })
unfolding run_lines process_line process_from process_command run_args parse_input parse_from
    find_redirect compare is_built_in is_among execute_cmd
run_lines-child = refl
