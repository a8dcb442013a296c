-- ===== src/Worker/Implement.antt =====
-- internal/worker/implement.go and implement_run.go: the mode that writes code. Here is what it is given, what it
-- calls, and the gate before it. The forge, the workspace, the engine and the sandbox are parameters: what each
-- of their calls answers. A message is what it is about, without its text; log lines, spans and usage are left out.
pub mod Run
pub mod Grounds
pub mod Opens
mod Tests
use kibitz.Prelude.{
  ℕ, Bool, true, false, not, ◌&&◌, ◌||◌, Option, none, some, List, [], ◌∷◌, ◌++◌, is_some, is_empty,
  if◌then◌else◌, Bytes, codes, str_eq, trim_space, Result, ok, err,
}
use kibitz.Prelude.Int.{ℤ, pos, ltb_ℤ, leb_ℤ}
use kibitz.Prelude.Decimal.{format_int}
use kibitz.Event.{ReviewEvent, Command}
use kibitz.Store.{StoreError}
use kibitz.RepoConfig.PathFilter.{PatternFault}
use kibitz.RepoConfig.Settings.{ImplementSettings, may_instruct}
use kibitz.Sandbox.{CommandFault, SandboxResult}
use kibitz.Worker.Errors.{JobError}

-- The fields of ReviewJob that this mode reads.
pub record Deployment : Type 0 where
  pub implement_enabled : Bool
  pub branch_prefix : Bytes
  pub commit_name : Bytes
  pub commit_email : Bytes
  pub max_posts_per_hour : ℤ
  pub has_sandbox : Bool

pub data Reason : Type 0 where
  disabled_here disabled_repo actor_not_allowed no_paths not_an_issue not_a_command : Reason
  no_commands no_changes path_not_allowed verify_failed : Reason

pub data Mode : Type 0 where
  implement_mode plan_mode : Mode

pub record Commit : Type 0 where
  pub message : Bytes
  pub name : Bytes
  pub email : Bytes

pub record NewPullRequest : Type 0 where
  pub head : Bytes
  pub base : Bytes
  pub draft : Bool

-- What is said on the issue.
pub data Said : Type 0 where
  help_text the_plan cannot_write nowhere_to_verify branch_taken nothing_changed : Said
  not_verified nothing_left : Said
  refused : Reason → Said
  bad_commands : CommandFault → Said
  bad_paths : PatternFault → Said
  has_pull_request : ℤ → Said
  outside : List Bytes → Said
  opened : ℤ → Said

-- The calls that are made, in their order, whether they succeed or not.
pub data Call : Type 0 where
  find_pull_request clone_auth prepare branch_exists push : Bytes → Call
  run_engine : Mode → Call
  charge discard list_changes close : Call
  verify : List (List Bytes) → Call
  record_commit : Commit → Call
  create_pull_request : NewPullRequest → Call
  count : Reason → Call
  say : Said → Call

pub data RecordFault : Type 0 where
  err_no_changes : RecordFault
  not_recorded : JobError → RecordFault

-- What the calls answer. `posts` is what the counter of posts answers, none where there is no store.
pub record Services : Type 0 where
  pub can_write : Bool
  pub can_comment : Bool
  pub posts : Option (Result StoreError ℤ)
  pub posted : Said → Option JobError
  pub found : Bytes → Result JobError (Option ℤ)
  pub authorized : Option JobError
  pub prepared : Bytes → Option JobError
  pub existing : Bytes → Result JobError Bool
  pub engine : Mode → Option JobError
  pub discarded : Option JobError
  pub changed : Result JobError (List Bytes)
  pub verified : List (List Bytes) → Result JobError SandboxResult
  pub committed : Commit → Result RecordFault Bytes
  pub pushed : Bytes → Option JobError
  pub created : NewPullRequest → Result JobError ℤ

pub record Outcome : Type 0 where
  pub error : Option JobError
  pub calls : List Call

abbrev pub command_name : Option Command → Bytes
command_name none = []
command_name (some c) = c.name

abbrev pub implement_name : Bytes
implement_name = codes "implement"

abbrev pub plan_name : Bytes
plan_name = codes "plan"

abbrev pub help_name : Bytes
help_name = codes "help"

-- `implementCommands`
abbrev pub is_implement_command : Bytes → Bool
is_implement_command name = str_eq name implement_name || str_eq name plan_name

-- `allowImplement`: why not, or none.
unfoldable pub allow_implement : Deployment → ReviewEvent → ImplementSettings → Option Reason
allow_implement d e settings =
    if not d.implement_enabled
    then some disabled_here
    else if not settings.enabled
    then some disabled_repo
    else if not (is_some e.issue)
    then some not_an_issue
    else if not (is_some e.instruction) || not (is_implement_command (command_name e.instruction))
    then some not_a_command
    else if not (may_instruct settings e.actor.login)
    then some actor_not_allowed
    else if is_empty settings.paths_allow
    then some no_paths
    else if str_eq (command_name e.instruction) implement_name && is_empty settings.commands_allow
    then some no_commands
    else none

-- `r.Say`, which is empty for a comment that was not addressed to this mode.
abbrev pub says : Reason → Bool
says not_a_command = false
says _ = true

abbrev pub or_else : Bytes → Bytes → Bytes
or_else s other = if is_empty (trim_space s) then other else trim_space s

-- `branchName`
unfoldable pub branch_name : Deployment → Bytes → ℤ → Bytes
branch_name d prefix number =
    or_else prefix (or_else d.branch_prefix (codes "kibitz/"))
    ++ codes "issue-"
    ++ format_int number

-- `commitMessage`
abbrev requested_by : Bytes → Bytes
requested_by [] = []
requested_by (c ∷ login) = 10 ∷ (codes "Requested-by: " ++ c ∷ login) ++ 10 ∷ []

unfoldable pub commit_message : ReviewEvent → ℤ → Bytes
commit_message e number =
    codes "feat: implement issue #"
    ++ format_int number
    ++ 10 ∷ 10 ∷ codes "Written by kibitz from the issue, and not read by a person yet."
    ++ 10 ∷ codes "The change passed the repository's own build and tests before this"
    ++ 10 ∷ codes "commit was made; nothing else about it has been checked."
    ++ 10 ∷ requested_by e.actor.login

unfoldable pub commit_of : Deployment → ReviewEvent → ℤ → Commit
unfolding commit_message
commit_of d e number = record {
  message = commit_message e number;
  name = or_else d.commit_name (codes "kibitz");
  email = or_else d.commit_email (codes "kibitz@users.noreply.github.com");
}

-- `allowPost`
unfoldable pub allow_post : Deployment → Option (Result StoreError ℤ) → Bool
allow_post d none = true
allow_post d (some (err fault)) = true
allow_post d (some (ok n)) =
    leb_ℤ n (if leb_ℤ d.max_posts_per_hour (pos 0) then pos 10 else d.max_posts_per_hour)
