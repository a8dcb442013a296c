-- ===== src/Worker/Implement/Grounds/Held.antt =====
-- The steps of the mode that writes code, each with what has been found before it.
use kibitz.Prelude.{
  ◌∙◌, sym, ◌≡◌, inl, inr, refl, arith, subst, Bool, true, false, not, Option, none, some, List, [],
  ◌∷◌, Bytes, str_eq, str_eq→eq, Result, ok, err, Each, Bool-cases,
}
use kibitz.Prelude.Int.{ℤ}
use kibitz.Event.{ReviewEvent, Issue}
use kibitz.RepoConfig.PathFilter.{Filter, PatternFault, new_path_filter}
use kibitz.RepoConfig.Settings.{ImplementSettings}
use kibitz.Sandbox.{CommandFault, SandboxResult, parse_commands, passed}
use kibitz.Worker.Errors.{JobError}
use kibitz.Worker.Paths.{not_editable}
use kibitz.Worker.Implement.{
  Deployment, Services, Said, Reason, RecordFault, implement_mode, err_no_changes, not_recorded,
  allow_implement, commit_of, command_name, implement_name, plan_name, help_name,
  is_implement_command,
}
use kibitz.Worker.Implement.Run
use kibitz.Worker.Implement.Grounds.{
  not_editable-none, Gate, branch, Fresh, Grounds, Permitted, Only, if-Only, say_on_issue-Only,
  refuse-Only, prepare-Only, plan-Only,
}

module _ (d : Deployment) (s : Services) (e : ReviewEvent) (set : ImplementSettings)
    (number : ℤ) where
  after_create-Only :
      (r : Result JobError ℤ) → (Only d s e set number) (Run.after_create d s e set r)
  after_create-Only (err fault) = tt
  after_create-Only (ok pull) = say_on_issue-Only d s e set number (Said.opened pull)

  after_push-Only :
      (fault : Option JobError)
      → (Grounds d s e set number)
      → s.pushed (branch d s e set number) ≡ fault
      → (Only d s e set number) (Run.after_push d s e set (branch d s e set number) fault)
  after_push-Only (some fault) g h = tt
  after_push-Only none g h = (
    (g, h, refl),
    after_create-Only (s.created (Run.proposal d s e set (branch d s e set number))),
  )

  after_record-Only :
      (r : Result RecordFault Bytes)
      → (Grounds d s e set number)
      → (Only d s e set number) (Run.after_record d s e set (branch d s e set number) r)
  after_record-Only (err err_no_changes) g = say_on_issue-Only d s e set number Said.nothing_left
  after_record-Only (err (not_recorded fault)) g = tt
  after_record-Only (ok commit) g =
      ((g, refl), after_push-Only (s.pushed (branch d s e set number)) g refl)

  after_verify-Only :
      (r : Result JobError SandboxResult)
      → ((result : SandboxResult)
          → r ≡ ok result
          → passed (some result) ≡ true
          → (Grounds d s e set number))
      → (Only d s e set number) (Run.after_verify d s e set (branch d s e set number) number r)
  unfolding Run.after_verify
  after_verify-Only (err fault) g = tt
  after_verify-Only (ok result) g = elim (Bool-cases (passed (some result))) [
    | inr no_ ↦ rw no_ (tt, say_on_issue-Only d s e set number Said.not_verified)
    | inl yes_ ↦
        let grounds = g result refl yes_ in
        rw yes_ ((grounds, refl), after_record-Only (s.committed (commit_of d e number)) grounds)
  ]

  when_inside-Only :
      (commands : List (List Bytes)) (out : List Bytes)
      → (out ≡ []
          → (result : SandboxResult) → s.verified commands ≡ ok result
          → passed (some result) ≡ true
          → (Grounds d s e set number))
      → (Only d s e set number)
          (Run.when_inside d s e set (branch d s e set number) number commands out)
  when_inside-Only commands [] g = (tt, after_verify-Only (s.verified commands) (g refl))
  when_inside-Only commands (path ∷ paths) g =
      (tt, say_on_issue-Only d s e set number (Said.outside (path ∷ paths)))

  after_changes-Only :
      (commands : List (List Bytes)) (allow : Filter) (r : Result JobError (List Bytes))
      → (Gate d s e set number)
      → (Fresh d s e set number)
      → command_name e.instruction ≡ implement_name
      → parse_commands set.commands_allow ≡ ok commands
      → new_path_filter set.paths_allow ≡ ok allow
      → s.changed ≡ r
      → (Only d s e set number)
          (Run.after_changes d s e set (branch d s e set number) number commands allow r)
  unfolding Run.after_changes
  after_changes-Only commands allow (err fault) gate fresh name cs ps h = tt
  after_changes-Only commands allow (ok []) gate fresh name cs ps h =
      (tt, say_on_issue-Only d s e set number Said.nothing_changed)
  after_changes-Only commands allow (ok (path ∷ paths)) gate fresh name cs ps h =
      when_inside-Only commands (not_editable allow (path ∷ paths)) (λ none_ result v p. (
        gate,
        fresh,
        name,
        commands,
        allow,
        path,
        paths,
        result,
        cs,
        ps,
        h,
        not_editable-none allow (path ∷ paths) none_,
        v,
        p,
      ))

  -- What the steps before the engine have found.
  abbrev Asked : List (List Bytes) → Filter → Type 0
  Asked commands allow =
      (Gate d s e set number)
      × (command_name e.instruction ≡ implement_name)
      × (parse_commands set.commands_allow ≡ ok commands)
      × (new_path_filter set.paths_allow ≡ ok allow)

  module _ (commands : List (List Bytes)) (allow : Filter) (asked : Asked commands allow) where
    after_discard-Only :
        (fault : Option JobError)
        → (Fresh d s e set number)
        → (Only d s e set number)
            (Run.after_discard d s e set (branch d s e set number) number commands allow fault)
    after_discard-Only (some fault) fresh = tt
    after_discard-Only none fresh =
        let (gate, name, cs, ps) = asked in
        (tt, after_changes-Only commands allow s.changed gate fresh name cs ps refl)

    after_engine-Only :
        (fault : Option JobError)
        → (Fresh d s e set number)
        → (Only d s e set number)
            (Run.after_engine d s e set (branch d s e set number) number commands allow fault)
    after_engine-Only (some fault) fresh = tt
    after_engine-Only none fresh = (tt, (tt, after_discard-Only s.discarded fresh))

    unless_branch-Only :
        (r : Result JobError Bool)
        → s.found (branch d s e set number) ≡ ok none
        → s.existing (branch d s e set number) ≡ r
        → (Only d s e set number)
            (Run.unless_branch d s e set (branch d s e set number) number commands allow r)
    unfolding Run.unless_branch
    unless_branch-Only (err fault) found h = tt
    unless_branch-Only (ok true) found h = say_on_issue-Only d s e set number Said.branch_taken
    unless_branch-Only (ok false) found h =
        ((asked.0, (found, h)), after_engine-Only (s.engine implement_mode) (found, h))

    unless_found-Only :
        (r : Result JobError (Option ℤ))
        → s.found (branch d s e set number) ≡ r
        → (Only d s e set number)
            (Run.unless_found d s e set (branch d s e set number) number commands allow r)
    unless_found-Only (err fault) h = tt
    unless_found-Only (ok (some pull)) h =
        say_on_issue-Only d s e set number (Said.has_pull_request pull)
    unless_found-Only (ok none) h =
        prepare-Only d s e set number _
          (tt, unless_branch-Only (s.existing (branch d s e set number)) h refl)

  with_filter-Only :
      (commands : List (List Bytes)) (r : Result PatternFault Filter)
      → (Gate d s e set number)
      → command_name e.instruction ≡ implement_name
      → parse_commands set.commands_allow ≡ ok commands
      → new_path_filter set.paths_allow ≡ r
      → (Only d s e set number) (Run.with_filter d s e set number commands r)
  with_filter-Only commands (err fault) gate name cs h =
      say_on_issue-Only d s e set number (Said.bad_paths fault)
  with_filter-Only commands (ok allow) gate name cs h = (
    tt,
    unless_found-Only commands allow (gate, name, cs, h) (s.found (branch d s e set number)) refl,
  )

  with_commands-Only :
      (r : Result CommandFault (List (List Bytes)))
      → (Gate d s e set number)
      → command_name e.instruction ≡ implement_name
      → parse_commands set.commands_allow ≡ r
      → (Only d s e set number) (Run.with_commands d s e set number r)
  with_commands-Only (err fault) gate name h =
      say_on_issue-Only d s e set number (Said.bad_commands fault)
  with_commands-Only (ok commands) gate name h =
      with_filter-Only commands (new_path_filter set.paths_allow) gate name h refl

  implement-Only :
      (Gate d s e set number)
      → command_name e.instruction ≡ implement_name
      → (Only d s e set number) (Run.implement d s e set number)
  unfolding Run.implement
  implement-Only gate name =
      if-Only d s e set number (not s.can_write) _ _
        (λ no_. say_on_issue-Only d s e set number Said.cannot_write)
        (λ able.
          if-Only d s e set number (not d.has_sandbox) _ _
            (λ nowhere. say_on_issue-Only d s e set number Said.nowhere_to_verify)
            (λ there. with_commands-Only (parse_commands set.commands_allow) gate name refl))

  allow_implement-Gate : allow_implement d e set ≡ none → (Gate d s e set number)
  unfolding allow_implement
  allow_implement-Gate h = ground (arith, h)

  unless_refused-Only :
      (name : Bytes) (r : Option Reason)
      → allow_implement d e set ≡ r
      → command_name e.instruction ≡ name
      → is_implement_command name ≡ true
      → (Only d s e set number) (Run.unless_refused d s e set name number r)
  unless_refused-Only name (some r) h named is_one = refuse-Only d s e set number r
  unless_refused-Only name none h named is_one = elim (Bool-cases (str_eq name plan_name)) [
    | inl plans ↦ rw plans (plan-Only d s e set number (allow_implement-Gate h))
    | inr writes ↦ rw writes (
        implement-Only (allow_implement-Gate h)
          (named ∙ str_eq→eq name implement_name (ground (arith, is_one, writes))))
  ]

on_issue-Only :
    (d : Deployment) (s : Services) (e : ReviewEvent) (set : ImplementSettings) (issue : Issue)
    (name : Bytes)
    → command_name e.instruction ≡ name
    → Only d s e set issue.number (Run.on_issue d s e set name (some issue))
on_issue-Only d s e set issue name h = elim (Bool-cases (str_eq name help_name)) [
  | inl helps ↦ rw helps (say_on_issue-Only d s e set issue.number Said.help_text)
  | inr other ↦ elim (Bool-cases (str_eq name implement_name)) [
    | inl writes ↦
        rw (other, writes)
          (unless_refused-Only d s e set issue.number name (allow_implement d e set) refl h
            (ground (arith, writes)))
    | inr not_ ↦ elim (Bool-cases (str_eq name plan_name)) [
      | inl plans ↦
          rw (other, not_, plans)
            (unless_refused-Only d s e set issue.number name (allow_implement d e set) refl h
              (ground (arith, plans)))
      | inr nothing ↦ rw (other, not_, nothing) tt
    ]
  ]
]

-- Whatever the forge, the workspace, the engine and the sandbox answer: on an issue's command the engine runs only
-- once the deployment, the repository and the list of actors have allowed it, and to write code only where the
-- issue's branch neither exists nor has a pull request. A commit, a push and a pull request are made only where that
-- command was to implement, the engine changed something, each path it changed may be written to, and the sandbox
-- passed the repository's commands; the push is to the issue's branch, and the pull request is a draft from that
-- branch to the default one, after a push that succeeded.
pub issue_command-Permitted :
    (d : Deployment) (s : Services) (e : ReviewEvent) (set : ImplementSettings) (issue : Issue)
    → e.issue ≡ some issue
    → Each (Permitted d s e set issue.number) (Run.issue_command d s e set).calls
unfolding Run.issue_command
issue_command-Permitted d s e set issue h =
    subst
      (λ o.
        Each (Permitted d s e set issue.number)
          (Run.on_issue d s e set (command_name e.instruction) o).calls)
      (sym h) (on_issue-Only d s e set issue (command_name e.instruction) refl)
