-- ===== src/Worker/Implement/Run.antt =====
-- internal/worker/implement.go and implement_run.go: `issueCommand` and what it runs. Each call goes to the front of
-- what is called after it.
use kibitz.Prelude.{
  Bool, true, false, not, Option, none, some, List, [], ◌∷◌, ◌++◌, is_empty, if◌then◌else◌, Bytes,
  codes, str_eq, Result, ok, err,
}
use kibitz.Prelude.Int.{ℤ}
use kibitz.Event.{ReviewEvent, Issue}
use kibitz.RepoConfig.PathFilter.{Filter, PatternFault, new_path_filter}
use kibitz.RepoConfig.Settings.{ImplementSettings}
use kibitz.Sandbox.{CommandFault, SandboxResult, parse_commands, passed}
use kibitz.Worker.Errors.{JobError, plain, permanent}
use kibitz.Worker.Paths.{not_editable}
use kibitz.Worker.Implement.{
  Deployment, Services, Outcome, Call, Said, Reason, RecordFault, NewPullRequest, implement_mode,
  plan_mode, err_no_changes, not_recorded, allow_implement, says, branch_name, commit_of,
  allow_post, command_name, implement_name, plan_name, help_name, no_changes, path_not_allowed,
  verify_failed,
}

module _ (d : Deployment) (s : Services) (e : ReviewEvent) (set : ImplementSettings) where
  abbrev pub stops : Option JobError → Outcome
  stops error = record { error = error; calls = [] }

  infixr 5 ◌>>◌
  abbrev pub ◌>>◌ : Call → Outcome → Outcome
  c >> out = record { error = out.error; calls = c ∷ out.calls }

  -- A deferred `Close`, whose error is only logged.
  abbrev pub closing : Outcome → Outcome
  closing out = record { error = out.error; calls = out.calls ++ Call.close ∷ [] }

  -- `sayOnIssue`
  unfoldable pub say_on_issue : Said → Outcome
  say_on_issue what =
      if not s.can_comment
      then stops none
      else if not (allow_post d s.posts)
      then stops none
      else Call.say what >> stops (s.posted what)

  -- `refuse`
  unfoldable pub refuse : Reason → Outcome
  unfolding say_on_issue
  refuse r = Call.count r >> (if says r then say_on_issue (Said.refused r) else stops none)

  -- The rest of `prepareIssueWorkspace`, with what is done in the workspace.
  abbrev pub in_workspace : Option JobError → Outcome → Outcome
  in_workspace (some fault) next = stops (some fault)
  in_workspace none next = closing next

  unfoldable pub with_clone : Outcome → Outcome
  with_clone next =
      if is_empty e.clone_url
      then stops (some (plain (codes "no clone url")))
      else if is_empty e.default_branch
      then stops (some (permanent (plain (codes "no default branch"))))
      else Call.prepare e.default_branch >> in_workspace (s.prepared e.default_branch) next

  abbrev pub authorized_as : Option JobError → Outcome → Outcome
  authorized_as (some fault) next = stops (some fault)
  authorized_as none next = with_clone next

  unfoldable pub prepare_issue_workspace : Outcome → Outcome
  unfolding with_clone
  prepare_issue_workspace next = Call.clone_auth e.full_name >> authorized_as s.authorized next

  -- `plan`
  abbrev pub after_plan : Option JobError → Outcome
  after_plan (some fault) = stops (some fault)
  after_plan none = Call.charge >> say_on_issue Said.the_plan

  unfoldable pub plan : Outcome
  unfolding say_on_issue prepare_issue_workspace
  plan = prepare_issue_workspace (Call.run_engine plan_mode >> after_plan (s.engine plan_mode))

  -- `implement`, from its end to its beginning.
  abbrev pub after_create : Result JobError ℤ → Outcome
  after_create (err fault) = stops (some fault)
  after_create (ok number) = say_on_issue (Said.opened number)

  abbrev pub proposal : Bytes → NewPullRequest
  proposal branch = record { head = branch; base = e.default_branch; draft = true }

  abbrev pub after_push : Bytes → Option JobError → Outcome
  after_push branch (some fault) = stops (some fault)
  after_push branch none =
      Call.create_pull_request (proposal branch) >> after_create (s.created (proposal branch))

  abbrev pub after_record : Bytes → Result RecordFault Bytes → Outcome
  after_record branch (err err_no_changes) = say_on_issue Said.nothing_left
  after_record branch (err (not_recorded fault)) = stops (some fault)
  after_record branch (ok commit) = Call.push branch >> after_push branch (s.pushed branch)

  unfoldable pub after_verify : Bytes → ℤ → Result JobError SandboxResult → Outcome
  unfolding say_on_issue
  after_verify branch number (err fault) = stops (some fault)
  after_verify branch number (ok result) =
      if not (passed (some result))
      then Call.count verify_failed >> say_on_issue Said.not_verified
      else Call.record_commit (commit_of d e number)
        >> after_record branch (s.committed (commit_of d e number))

  abbrev pub when_inside : Bytes → ℤ → List (List Bytes) → List Bytes → Outcome
  when_inside branch number commands [] =
      Call.verify commands >> after_verify branch number (s.verified commands)
  when_inside branch number commands (path ∷ paths) =
      Call.count path_not_allowed >> say_on_issue (Said.outside (path ∷ paths))

  unfoldable pub after_changes :
      Bytes → ℤ → List (List Bytes) → Filter → Result JobError (List Bytes) → Outcome
  unfolding after_verify
  after_changes branch number commands allow (err fault) = stops (some fault)
  after_changes branch number commands allow (ok []) =
      Call.count no_changes >> say_on_issue Said.nothing_changed
  after_changes branch number commands allow (ok (path ∷ paths)) =
      when_inside branch number commands (not_editable allow (path ∷ paths))

  abbrev pub after_discard : Bytes → ℤ → List (List Bytes) → Filter → Option JobError → Outcome
  after_discard branch number commands allow (some fault) = stops (some fault)
  after_discard branch number commands allow none =
      Call.list_changes >> after_changes branch number commands allow s.changed

  abbrev pub after_engine : Bytes → ℤ → List (List Bytes) → Filter → Option JobError → Outcome
  after_engine branch number commands allow (some fault) = stops (some fault)
  after_engine branch number commands allow none =
      Call.charge >> Call.discard >> after_discard branch number commands allow s.discarded

  unfoldable pub unless_branch :
      Bytes → ℤ → List (List Bytes) → Filter → Result JobError Bool → Outcome
  unfolding after_changes
  unless_branch branch number commands allow (err fault) = stops (some fault)
  unless_branch branch number commands allow (ok true) = say_on_issue Said.branch_taken
  unless_branch branch number commands allow (ok false) =
      Call.run_engine implement_mode
      >> after_engine branch number commands allow (s.engine implement_mode)

  abbrev pub unless_found :
      Bytes → ℤ → List (List Bytes) → Filter → Result JobError (Option ℤ) → Outcome
  unless_found branch number commands allow (err fault) = stops (some fault)
  unless_found branch number commands allow (ok (some pull)) =
      say_on_issue (Said.has_pull_request pull)
  unless_found branch number commands allow (ok none) =
      prepare_issue_workspace (
        Call.branch_exists branch >> unless_branch branch number commands allow (s.existing branch))

  abbrev pub with_filter : ℤ → List (List Bytes) → Result PatternFault Filter → Outcome
  with_filter number commands (err fault) = say_on_issue (Said.bad_paths fault)
  with_filter number commands (ok allow) =
      let branch = branch_name d set.branch_prefix number in
      Call.find_pull_request branch >> unless_found branch number commands allow (s.found branch)

  abbrev pub with_commands : ℤ → Result CommandFault (List (List Bytes)) → Outcome
  with_commands number (err fault) = say_on_issue (Said.bad_commands fault)
  with_commands number (ok commands) = with_filter number commands (new_path_filter set.paths_allow)

  unfoldable pub implement : ℤ → Outcome
  unfolding unless_branch prepare_issue_workspace
  implement number =
      if not s.can_write
      then say_on_issue Said.cannot_write
      else if not d.has_sandbox
      then say_on_issue Said.nowhere_to_verify
      else with_commands number (parse_commands set.commands_allow)

  abbrev pub unless_refused : Bytes → ℤ → Option Reason → Outcome
  unless_refused name number (some r) = refuse r
  unless_refused name number none = if str_eq name plan_name then plan else implement number

  abbrev pub on_issue : Bytes → Option Issue → Outcome
  on_issue name none = stops none
  on_issue name (some issue) =
      if str_eq name help_name
      then say_on_issue Said.help_text
      else if str_eq name implement_name
      then unless_refused name issue.number (allow_implement d e set)
      else if str_eq name plan_name
      then unless_refused name issue.number (allow_implement d e set)
      else stops none

  -- `issueCommand`, with the repository's settings
  unfoldable pub issue_command : Outcome
  unfolding implement plan refuse
  issue_command = on_issue (command_name e.instruction) e.issue
