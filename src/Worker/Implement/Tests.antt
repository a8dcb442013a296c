-- ===== src/Worker/Implement/Tests.antt =====
-- An issue's command that becomes a pull request, and some that do not.
use kibitz.Prelude.{
  ◌≡◌, refl, arith, true, false, Option, none, some, List, [], ◌∷◌, Bytes, codes, Result, ok, err,
  Each,
}
use kibitz.Prelude.Int.{pos}
use kibitz.Event.{ReviewEvent, Issue}
use kibitz.Event.Samples.{plan_asked}
use kibitz.RepoConfig.PathFilter.{Filter, new_path_filter}
use kibitz.RepoConfig.Settings.{ImplementSettings}
use kibitz.Sandbox.{Step, SandboxResult, parse_commands}
use kibitz.Worker.Paths.{must_filter}
use kibitz.Worker.Implement.{
  Deployment, Services, Outcome, Call, Said, Reason, branch_name, commit_of, implement_mode,
  verify_failed, not_verified, disabled_here,
}
use kibitz.Worker.Implement.Run
use kibitz.Worker.Implement.Grounds.{Permitted}
use kibitz.Worker.Implement.Grounds.Held.{issue_command-Permitted}
use kibitz.Worker.Implement.Opens.{IsAsked, IsServed, issue_command-opens}

abbrev broken : Issue
broken = record { number = pos 42; title = codes "Broken" }

abbrev asked : ReviewEvent
asked = record plan_asked {
  kind = kibitz.Event.issue_command;
  instruction = some (record { name = codes "implement"; args = [] });
}

abbrev deployment : Deployment
deployment = record {
  implement_enabled = true;
  branch_prefix = [];
  commit_name = [];
  commit_email = [];
  max_posts_per_hour = pos 0;
  has_sandbox = true;
}

abbrev settings : ImplementSettings
settings = record {
  deployment_allows = true;
  enabled = true;
  allowed_actors = codes "alice" ∷ [];
  paths_allow = codes "internal/**" ∷ [];
  commands_allow = codes "go test ./..." ∷ [];
  branch_prefix = codes "bot/";
}

abbrev tested : Step
tested = record {
  argv = codes "go" ∷ codes "test" ∷ codes "./..." ∷ [];
  exit_code = pos 0;
  output = [];
  truncated = false;
  timed_out = false;
}

abbrev good : SandboxResult
good = record { steps = tested ∷ []; failure = [] }

abbrev services : SandboxResult → Services
services result = record {
  can_write = true;
  can_comment = true;
  posts = none;
  posted = (λ what. none);
  found = (λ b. ok none);
  authorized = none;
  prepared = (λ b. none);
  existing = (λ b. ok false);
  engine = (λ m. none);
  discarded = none;
  changed = ok (codes "internal/a.go" ∷ []);
  verified = (λ commands. ok result);
  committed = (λ c. ok (codes "c0ffee"));
  pushed = (λ b. none);
  created = (λ p. ok (pos 7));
}

abbrev internals : Filter
internals = must_filter (new_path_filter (codes "internal/**" ∷ []))

issue_command-Permitted_example :
    Each
      (Permitted deployment (services good) asked settings (pos 42))
      (Run.issue_command deployment (services good) asked settings).calls
issue_command-Permitted_example =
    issue_command-Permitted deployment (services good) asked settings broken refl

is_asked : IsAsked deployment asked settings broken
unfolding kibitz.RepoConfig.Settings.may_instruct
is_asked = record {
  on_issue = refl;
  name = refl;
  given = refl;
  enabled_here = refl;
  enabled_repo = refl;
  actor = refl;
  paths = refl;
  commands = refl;
  sandbox = refl;
  url = refl;
  base = refl;
}

is_served :
    IsServed deployment
      (services good)
      asked
      settings
      (pos 42)
      (tested.argv ∷ [])
      (codes "internal/a.go" ∷ [])
      good
      (codes "c0ffee")
      (pos 7)
unfolding kibitz.Worker.Implement.allow_post kibitz.Sandbox.passed kibitz.Sandbox.step_passed
is_served = record {
  writer = refl;
  commenter = refl;
  room = refl;
  posted = refl;
  found = refl;
  authorized = refl;
  prepared = refl;
  existing = refl;
  engine = refl;
  discarded = refl;
  changes = refl;
  verified = refl;
  good = refl;
  committed = refl;
  pushed = refl;
  created = refl;
}

issue_command-opens_example : Run.issue_command deployment (services good) asked settings ≡ record {
  error = none;
  calls =
      Call.find_pull_request (codes "bot/issue-42")
      ∷ Call.clone_auth (codes "o/r")
      ∷ Call.prepare (codes "main")
      ∷ Call.branch_exists (codes "bot/issue-42")
      ∷ Call.run_engine implement_mode
      ∷ Call.charge
      ∷ Call.discard
      ∷ Call.list_changes
      ∷ Call.verify (tested.argv ∷ [])
      ∷ Call.record_commit (commit_of deployment asked (pos 42))
      ∷ Call.push (codes "bot/issue-42")
      ∷ Call.create_pull_request
          (record { head = codes "bot/issue-42"; base = codes "main"; draft = true })
      ∷ Call.say (Said.opened (pos 7))
      ∷ Call.close
      ∷ [];
}
unfolding branch_name parse_commands new_path_filter kibitz.Worker.Paths.is_editable
    kibitz.RepoConfig.PathFilter.valid_pattern kibitz.Prelude.Clean.clean
    kibitz.Prelude.Clean.walk_parts kibitz.RepoConfig.PathFilter.covers kibitz.Worker.Paths.denied
    kibitz.RepoConfig.PathFilter.tokens_match kibitz.RepoConfig.PathFilter.translate
    kibitz.Prelude.Decimal.format_int
issue_command-opens_example =
    issue_command-opens deployment (services good) asked settings broken (tested.argv ∷ [])
      internals (codes "internal/a.go") [] good (codes "c0ffee") (pos 7) is_asked is_served refl
      refl (refl, tt)

-- A change that fails the commands leaves a message and nothing else; the model is paid for all the same.
abbrev failed : SandboxResult
failed = record { steps = record tested { exit_code = pos 1 } ∷ []; failure = [] }

not_pushed :
    (Run.issue_command deployment (services failed) asked settings).calls
    ≡ Call.find_pull_request (codes "bot/issue-42")
      ∷ Call.clone_auth (codes "o/r")
      ∷ Call.prepare (codes "main")
      ∷ Call.branch_exists (codes "bot/issue-42")
      ∷ Call.run_engine implement_mode
      ∷ Call.charge
      ∷ Call.discard
      ∷ Call.list_changes
      ∷ Call.verify (tested.argv ∷ [])
      ∷ Call.count verify_failed
      ∷ Call.say not_verified
      ∷ Call.close
      ∷ []
unfolding Run.issue_command kibitz.Worker.Implement.allow_implement
    kibitz.RepoConfig.Settings.may_instruct parse_commands new_path_filter
    kibitz.RepoConfig.PathFilter.valid_pattern branch_name kibitz.Worker.Paths.not_editable
    kibitz.Prelude.Decimal.format_int kibitz.Worker.Paths.is_editable kibitz.Prelude.Clean.clean
    kibitz.Prelude.Clean.walk_parts kibitz.RepoConfig.PathFilter.covers kibitz.Worker.Paths.denied
    kibitz.RepoConfig.PathFilter.tokens_match kibitz.RepoConfig.PathFilter.translate
    kibitz.Sandbox.passed kibitz.Sandbox.step_passed kibitz.Worker.Implement.allow_post
not_pushed = refl

turned_off :
    (Run.issue_command
      (record deployment { implement_enabled = false })
      (services good)
      asked
      settings).calls
    ≡ Call.count disabled_here ∷ Call.say (Said.refused disabled_here) ∷ []
unfolding Run.issue_command kibitz.Worker.Implement.allow_implement
    kibitz.Worker.Implement.allow_post
turned_off = refl
