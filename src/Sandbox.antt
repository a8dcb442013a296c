-- ===== src/Sandbox.antt =====
-- internal/sandbox/sandbox.go: what one verification may be and what comes back of it. A pointer to a result is an
-- option, none for nil; the durations of the steps and the JSON codec are left out.
pub mod Run
pub mod Plain
mod Tests
use kibitz.Prelude.{
  ℕ, ltb, ◌==◌, Bool, true, false, not, ◌&&◌, ◌||◌, Option, none, some, List, [], ◌∷◌, length,
  is_empty, if◌then◌else◌, Bytes, codes, Result, ok, err, contains, trim_space, fields,
}
use kibitz.Prelude.Int.{ℤ, pos, negsuc}

abbrev pub max_output_bytes : ℕ
max_output_bytes = 16384

abbrev pub max_commands : ℕ
max_commands = 10

pub record Step : Type 0 where
  pub argv : List Bytes
  pub exit_code : ℤ
  pub output : Bytes
  pub truncated : Bool
  pub timed_out : Bool

abbrev pub zero_code : ℤ → Bool
zero_code (pos n) = n == 0
zero_code (negsuc n) = false

unfoldable pub step_passed : Step → Bool
step_passed s = zero_code s.exit_code && not s.timed_out

pub record SandboxResult : Type 0 where
  pub steps : List Step
  pub failure : Bytes

unfoldable pub all_passed : List Step → Bool
all_passed [] = true
all_passed (s ∷ ss) = step_passed s && all_passed ss

-- `Result.Passed`
unfoldable pub passed : Option SandboxResult → Bool
unfolding all_passed
passed none = false
passed (some r) = if not (is_empty r.failure) || is_empty r.steps then false else all_passed r.steps

abbrev pub first_failed : List Step → Option Step
first_failed [] = none
first_failed (s ∷ ss) = let rest = first_failed ss in if step_passed s then rest else some s

unfoldable pub first_failure : Option SandboxResult → Option Step
unfolding step_passed
first_failure none = none
first_failure (some r) = first_failed r.steps

pub data CommandFault : Type 0 where
  too_many no_commands : CommandFault
  needs_shell : Bytes → Bytes → CommandFault

abbrev pub shell_tokens : List Bytes
shell_tokens =
    codes "&&"
    ∷ codes "||"
    ∷ codes ";"
    ∷ codes "|"
    ∷ codes ">"
    ∷ codes "<"
    ∷ codes "`"
    ∷ codes "$("
    ∷ codes "$"
    ∷ (10 ∷ [])
    ∷ []

-- `shellOnly`, with the tokens of its loop; none stands for "".
abbrev pub first_token : Bytes → List Bytes → Option Bytes
first_token command [] = none
first_token command (t ∷ ts) =
    let rest = first_token command ts in if contains command t then some t else rest

unfoldable pub shell_only : Bytes → Option Bytes
shell_only command = first_token command shell_tokens

-- One round of the loop of `ParseCommands`, with the result of the rounds after it.
abbrev pub add_command :
    Bytes
    → Option Bytes
    → Result CommandFault (List (List Bytes))
    → Result CommandFault (List (List Bytes))
add_command command (some bad) rest = err (needs_shell command bad)
add_command command none (err fault) = err fault
add_command command none (ok out) = ok (fields command ∷ out)

unfoldable pub split_commands : List Bytes → Result CommandFault (List (List Bytes))
unfolding shell_only
split_commands [] = ok []
split_commands (c ∷ cs) =
    let rest = split_commands cs in
    let command = trim_space c in
    if is_empty command then rest else add_command command (shell_only command) rest

abbrev pub some_command :
    Result CommandFault (List (List Bytes)) → Result CommandFault (List (List Bytes))
some_command (err fault) = err fault
some_command (ok []) = err no_commands
some_command (ok (argv ∷ rest)) = ok (argv ∷ rest)

-- `ParseCommands`
unfoldable pub parse_commands : List Bytes → Result CommandFault (List (List Bytes))
unfolding split_commands
parse_commands commands =
    if ltb max_commands (length commands)
    then err too_many
    else some_command (split_commands commands)
