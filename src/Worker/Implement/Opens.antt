-- ===== src/Worker/Implement/Opens.antt =====
-- Where nothing stands in the way, an issue's command does become a pull request.
use kibitz.Prelude.{
  ◌≡◌, refl, ap, true, false, none, some, List, [], ◌∷◌, ◌++◌, is_some, is_empty, Bytes, ok, Each,
}
use kibitz.Prelude.Int.{ℤ}
use kibitz.Event.{ReviewEvent, Issue}
use kibitz.RepoConfig.PathFilter.{Filter, new_path_filter}
use kibitz.RepoConfig.Settings.{ImplementSettings, may_instruct}
use kibitz.Sandbox.{SandboxResult, parse_commands, passed}
use kibitz.Worker.Paths.{is_editable, not_editable}
use kibitz.Worker.Implement.{
  Deployment, Services, Outcome, Call, Said, NewPullRequest, implement_mode, allow_implement,
  branch_name, commit_of, allow_post, command_name, implement_name,
}
use kibitz.Worker.Implement.Run

-- What the deployment, the repository and the event have to say.
pub record IsAsked (d : Deployment) (e : ReviewEvent) (set : ImplementSettings) (issue : Issue)
    : Type 0 where
  pub on_issue : e.issue ≡ some issue
  pub name : command_name e.instruction ≡ implement_name
  pub given : is_some e.instruction ≡ true
  pub enabled_here : d.implement_enabled ≡ true
  pub enabled_repo : set.enabled ≡ true
  pub actor : may_instruct set e.actor.login ≡ true
  pub paths : is_empty set.paths_allow ≡ false
  pub commands : is_empty set.commands_allow ≡ false
  pub sandbox : d.has_sandbox ≡ true
  pub url : is_empty e.clone_url ≡ false
  pub base : is_empty e.default_branch ≡ false

-- What the calls have to answer.
pub record IsServed (d : Deployment) (s : Services) (e : ReviewEvent) (set : ImplementSettings)
    (number : ℤ) (commands : List (List Bytes)) (changed : List Bytes) (result : SandboxResult)
    (commit : Bytes) (pull : ℤ) : Type 0 where
  pub writer : s.can_write ≡ true
  pub commenter : s.can_comment ≡ true
  pub room : allow_post d s.posts ≡ true
  pub posted : s.posted (Said.opened pull) ≡ none
  pub found : s.found (branch_name d set.branch_prefix number) ≡ ok none
  pub authorized : s.authorized ≡ none
  pub prepared : s.prepared e.default_branch ≡ none
  pub existing : s.existing (branch_name d set.branch_prefix number) ≡ ok false
  pub engine : s.engine implement_mode ≡ none
  pub discarded : s.discarded ≡ none
  pub changes : s.changed ≡ ok changed
  pub verified : s.verified commands ≡ ok result
  pub good : passed (some result) ≡ true
  pub committed : s.committed (commit_of d e number) ≡ ok commit
  pub pushed : s.pushed (branch_name d set.branch_prefix number) ≡ none
  pub created :
      s.created (record {
        head = branch_name d set.branch_prefix number;
        base = e.default_branch;
        draft = true;
      })
      ≡ ok pull

not_editable-all :
    (allow : Filter) (paths : List Bytes)
    → Each (λ p. is_editable allow p ≡ true) paths
    → not_editable allow paths ≡ []
unfolding not_editable
not_editable-all allow [] h = refl
not_editable-all allow (p ∷ paths) (q, h) = rw q (not_editable-all allow paths h)

allow_implement-asked :
    (d : Deployment) (e : ReviewEvent) (set : ImplementSettings) (issue : Issue)
    → IsAsked d e set issue
    → allow_implement d e set ≡ none
unfolding allow_implement
allow_implement-asked d e set issue a =
    simp (a.on_issue, a.name, a.given, a.enabled_here, a.enabled_repo, a.actor, a.paths, a.commands)
      refl

module _ (d : Deployment) (s : Services) (e : ReviewEvent) (set : ImplementSettings) (issue : Issue)
    (commands : List (List Bytes)) (allow : Filter) (path : Bytes) (paths : List Bytes)
    (result : SandboxResult) (commit : Bytes) (pull : ℤ) (a : IsAsked d e set issue)
    (w : IsServed d s e set issue.number commands (path ∷ paths) result commit pull) where
  abbrev b : Bytes
  b = branch_name d set.branch_prefix issue.number

  abbrev proposal : NewPullRequest
  proposal = record { head = b; base = e.default_branch; draft = true }

  from_verify : Run.after_verify d s e set b issue.number (ok result) ≡ record {
    error = none;
    calls =
        Call.record_commit (commit_of d e issue.number)
        ∷ Call.push b
        ∷ Call.create_pull_request proposal
        ∷ Call.say (Said.opened pull)
        ∷ [];
  }
  unfolding Run.after_verify Run.say_on_issue
  from_verify = simp (w.good, w.committed, w.pushed, w.created, w.commenter, w.room, w.posted) refl

  abbrev to_the_end : List Call
  to_the_end =
      Call.run_engine implement_mode
      ∷ Call.charge
      ∷ Call.discard
      ∷ Call.list_changes
      ∷ Call.verify commands
      ∷ Call.record_commit (commit_of d e issue.number)
      ∷ Call.push b
      ∷ Call.create_pull_request proposal
      ∷ Call.say (Said.opened pull)
      ∷ []

  from_engine :
      Each (λ p. is_editable allow p ≡ true) (path ∷ paths)
      → Run.unless_branch d s e set b issue.number commands allow (ok false)
        ≡ record { error = none; calls = to_the_end }
  unfolding Run.unless_branch Run.after_changes
  from_engine inside =
      simp
        (
          w.engine,
          w.discarded,
          w.changes,
          not_editable-all allow (path ∷ paths) inside,
          w.verified,
          from_verify,
        )
        refl

  from_search :
      Each (λ p. is_editable allow p ≡ true) (path ∷ paths)
      → Run.unless_found d s e set b issue.number commands allow (ok none) ≡ record {
        error = none;
        calls =
            Call.clone_auth e.full_name
              ∷ Call.prepare e.default_branch
              ∷ Call.branch_exists b
              ∷ to_the_end
            ++ Call.close ∷ [];
      }
  unfolding Run.prepare_issue_workspace Run.with_clone
  from_search inside =
      simp (w.authorized, a.url, a.base, w.prepared, w.existing, from_engine inside) refl

-- Where the command to implement an issue is given by somebody who may, in a repository and a deployment that allow
-- it, its settings read as commands and patterns, and no call fails: if the engine changes something, all of it
-- where it may write, and the sandbox passes it, then there is a pull request at the end. The calls are those of
-- the right hand side, in that order: the model is paid for once, and the workspace is closed last.
pub issue_command-opens :
    (d : Deployment) (s : Services) (e : ReviewEvent) (set : ImplementSettings) (issue : Issue)
    (commands : List (List Bytes)) (allow : Filter) (path : Bytes) (paths : List Bytes)
    (result : SandboxResult) (commit : Bytes) (pull : ℤ)
    → IsAsked d e set issue
    → IsServed d s e set issue.number commands (path ∷ paths) result commit pull
    → parse_commands set.commands_allow ≡ ok commands
    → new_path_filter set.paths_allow ≡ ok allow
    → Each (λ p. is_editable allow p ≡ true) (path ∷ paths)
    → let b = branch_name d set.branch_prefix issue.number in
      Run.issue_command d s e set ≡ record {
        error = none;
        calls =
            Call.find_pull_request b
            ∷ Call.clone_auth e.full_name
            ∷ Call.prepare e.default_branch
            ∷ Call.branch_exists b
            ∷ Call.run_engine implement_mode
            ∷ Call.charge
            ∷ Call.discard
            ∷ Call.list_changes
            ∷ Call.verify commands
            ∷ Call.record_commit (commit_of d e issue.number)
            ∷ Call.push b
            ∷ Call.create_pull_request (record { head = b; base = e.default_branch; draft = true })
            ∷ Call.say (Said.opened pull)
            ∷ Call.close
            ∷ [];
      }
unfolding Run.issue_command Run.implement
issue_command-opens d s e set issue commands allow path paths result commit pull a w cs ps inside =
    simp
      (
        a.on_issue,
        a.name,
        allow_implement-asked d e set issue a,
        w.writer,
        a.sandbox,
        cs,
        ps,
        w.found,
      )
      (ap
        (λ (o : Outcome). record {
          error = o.error;
          calls = Call.find_pull_request (branch_name d set.branch_prefix issue.number) ∷ o.calls;
        })
        (from_search d s e set issue commands allow path paths result commit pull a w inside))
