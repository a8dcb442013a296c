-- ===== src/Event/Samples.antt =====
-- Events that the tests of several components use.
use kibitz.Prelude.{none, some, [], codes}
use kibitz.Prelude.Int.{pos}
use kibitz.Event
use kibitz.Event.{ReviewEvent, Actor, Comment, PullRequest, Issue}

abbrev pub alice : Actor
alice = record { login = codes "alice"; app_id = [] }

-- A pull request pushed to.
abbrev pub pushed : ReviewEvent
pushed = record {
  schema_version = pos 1;
  id = codes "e1";
  occurred_at = 1000;
  source = record { platform = codes "github"; delivery_id = codes "d1" };
  kind = Event.pr_updated;
  full_name = codes "o/r";
  clone_url = codes "https://forge.example/r.git";
  default_branch = codes "main";
  pull_request = some (record { number = pos 42; title = codes "Fix"; description = codes "all" });
  issue = none;
  comment = none;
  instruction = none;
  actor = alice;
  trace_parent = none;
}

-- A comment on an issue that asks for a plan.
abbrev pub plan_asked : ReviewEvent
plan_asked = record pushed {
  kind = Event.issue_comment;
  pull_request = none;
  issue = some (record { number = pos 42; title = codes "Broken" });
  comment = some (record { body = codes "/kibitz plan now"; author = alice });
}
