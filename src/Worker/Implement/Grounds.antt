-- ===== src/Worker/Implement/Grounds.antt =====
-- What has to hold before the mode that writes code runs the engine, commits, pushes or opens a pull request.
pub mod Held
use kibitz.Prelude.{
  ◌∙◌, sym, ◌≡◌, ◌≢◌, ◌⊎◌, inl, inr, refl, arith, ap, subst, Bool, true, false, not, Option, none,
  some, List, [], ◌∷◌, ◌++◌, is_some, is_empty, if◌then◌else◌, Bytes, str_eq, str_eq→eq, Result, ok,
  err, Each, Each-append, Bool-cases,
}
use kibitz.Prelude.Int.{ℤ}
use kibitz.Event.{ReviewEvent, Issue}
use kibitz.RepoConfig.PathFilter.{Filter, PatternFault, new_path_filter}
use kibitz.RepoConfig.Settings.{ImplementSettings, may_instruct}
use kibitz.Sandbox.{CommandFault, SandboxResult, parse_commands, passed}
use kibitz.Worker.Errors.{JobError}
use kibitz.Worker.Paths.{is_editable, not_editable}
use kibitz.Worker.Implement.{
  Deployment, Services, Outcome, Call, Mode, Said, Reason, RecordFault, NewPullRequest,
  implement_mode, plan_mode, err_no_changes, not_recorded, allow_implement, says, branch_name,
  commit_of, allow_post, command_name, implement_name, plan_name, help_name, is_implement_command,
  no_changes, path_not_allowed, verify_failed,
}
use kibitz.Worker.Implement.Run

pub not_editable-none :
    (allow : Filter) (paths : List Bytes)
    → not_editable allow paths ≡ []
    → Each (λ p. is_editable allow p ≡ true) paths
unfolding not_editable
not_editable-none allow [] h = tt
not_editable-none allow (p ∷ paths) h = elim (Bool-cases (is_editable allow p)) [
  | inl yes_ ↦ (yes_, not_editable-none allow paths (ground (arith, yes_, h)))
  | inr no_ ↦ absurd (ground (arith, no_, h))
]

module _ (d : Deployment) (s : Services) (e : ReviewEvent) (set : ImplementSettings)
    (number : ℤ) where
  -- The gate was passed.
  abbrev pub Gate : Type 0
  Gate =
      (d.implement_enabled ≡ true)
      × (set.enabled ≡ true)
      × (is_implement_command (command_name e.instruction) ≡ true)
      × (may_instruct set e.actor.login ≡ true)
      × (is_empty set.paths_allow ≡ false)

  abbrev pub branch : Bytes
  branch = branch_name d set.branch_prefix number

  -- Nobody has pushed for this issue before.
  abbrev pub Fresh : Type 0
  Fresh = (s.found branch ≡ ok none) × (s.existing branch ≡ ok false)

  -- The change was written under the gate, for this issue's command to implement it, changes something, nothing that
  -- may not be written to, and has passed the repository's commands.
  abbrev pub Grounds : Type 0
  Grounds =
      Gate
      × Fresh
      × (command_name e.instruction ≡ implement_name)
      × (commands : List (List Bytes)) × (allow : Filter) × (path : Bytes) × (paths : List Bytes)
      × (result : SandboxResult) × (parse_commands set.commands_allow ≡ ok commands)
      × (new_path_filter set.paths_allow ≡ ok allow)
      × (s.changed ≡ ok (path ∷ paths))
      × Each (λ p. is_editable allow p ≡ true) (path ∷ paths)
      × (s.verified commands ≡ ok result)
      × (passed (some result) ≡ true)

  -- When each call may be made.
  abbrev pub Permitted : Call → Type 0
  Permitted (Call.run_engine implement_mode) = Gate × Fresh
  Permitted (Call.run_engine plan_mode) = Gate
  Permitted (Call.record_commit c) = Grounds × (c ≡ commit_of d e number)
  Permitted (Call.push b) = Grounds × (b ≡ branch)
  Permitted (Call.create_pull_request p) =
      Grounds
      × (s.pushed branch ≡ none)
      × (p ≡ record { head = branch; base = e.default_branch; draft = true })
  Permitted _ = Unit

  abbrev pub Only : Outcome → Type 0
  Only out = Each Permitted out.calls

  pub if-Only :
      (b : Bool) (x y : Outcome)
      → (b ≡ true → Only x)
      → (b ≡ false → Only y)
      → Only (if b then x else y)
  if-Only true x y f g = f refl
  if-Only false x y f g = g refl

  pub say_on_issue-Only : (what : Said) → Only (Run.say_on_issue d s e set what)
  unfolding Run.say_on_issue
  say_on_issue-Only what = elim (Bool-cases s.can_comment) [
    | inr mute ↦ rw mute tt
    | inl able ↦ elim (Bool-cases (allow_post d s.posts)) [
      | inr quiet ↦ rw (able, quiet) tt
      | inl loud ↦ rw (able, loud) (tt, tt)
    ]
  ]

  pub refuse-Only : (r : Reason) → Only (Run.refuse d s e set r)
  unfolding Run.refuse
  refuse-Only r = elim (Bool-cases (says r)) [
    | inl aloud ↦ rw aloud (tt, say_on_issue-Only (Said.refused r))
    | inr mute ↦ rw mute (tt, tt)
  ]

  in_workspace-Only :
      (fault : Option JobError) (next : Outcome)
      → Only next
      → Only (Run.in_workspace d s e set fault next)
  in_workspace-Only (some fault) next h = tt
  in_workspace-Only none next h = Each-append Permitted next.calls (Call.close ∷ []) h (tt, tt)

  with_clone-Only : (next : Outcome) → Only next → Only (Run.with_clone d s e set next)
  unfolding Run.with_clone
  with_clone-Only next h = elim (Bool-cases (is_empty e.clone_url)) [
    | inl nowhere ↦ rw nowhere tt
    | inr there ↦ elim (Bool-cases (is_empty e.default_branch)) [
      | inl unknown ↦ rw (there, unknown) tt
      | inr known ↦ rw (there, known) (tt, in_workspace-Only (s.prepared e.default_branch) next h)
    ]
  ]

  authorized_as-Only :
      (fault : Option JobError) (next : Outcome)
      → Only next
      → Only (Run.authorized_as d s e set fault next)
  authorized_as-Only (some fault) next h = tt
  authorized_as-Only none next h = with_clone-Only next h

  pub prepare-Only :
      (next : Outcome) → Only next → Only (Run.prepare_issue_workspace d s e set next)
  unfolding Run.prepare_issue_workspace
  prepare-Only next h = (tt, authorized_as-Only s.authorized next h)

  after_plan-Only : (fault : Option JobError) → Only (Run.after_plan d s e set fault)
  after_plan-Only (some fault) = tt
  after_plan-Only none = (tt, say_on_issue-Only Said.the_plan)

  pub plan-Only : Gate → Only (Run.plan d s e set)
  unfolding Run.plan
  plan-Only gate = prepare-Only _ (gate, after_plan-Only (s.engine plan_mode))
