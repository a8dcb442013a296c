-- ===== src/Webhook/Tests.antt =====
-- Deliveries of GitHub that are let through and deliveries that are not. The code of a body is, here, the secret in
-- front of it, and the digits are themselves.
use kibitz.Prelude.{
  ℕ, ◌≡◌, ◌↔◌, refl, true, false, Option, none, some, List, [], ◌∷◌, ◌++◌, if◌then◌else◌, Bytes,
  codes, str_eq, Result, ok, err,
}
use kibitz.Prelude.Int.{pos}
use kibitz.Event.{ReviewEvent, pr_opened, validate}
use kibitz.Policy.Engine
use kibitz.Webhook.{Request, Handler}
use kibitz.Webhook.Github
use kibitz.Webhook.Github.{
  PullRequestPayload, IssueCommentPayload, ReviewCommentPayload, verify, normalize, pull_event,
  normalize_pull_request, header_event, header_delivery, header_signature, event_id,
}
use kibitz.Webhook.Github.Authentic.{IsSigned, github_handler, verify_iff, serve-IsSigned}
use kibitz.Webhook.Github.Complete.{IsWhole, normalize_pull_request_iff}
use kibitz.Webhook.Receiver
use kibitz.Webhook.Receiver.{Response, accepted, unavailable, serve, attempts_of}

abbrev mac : Bytes → Bytes → Bytes
mac secret body = secret ++ body

abbrev headers : Bytes → Bytes
headers name =
    if str_eq name header_event
    then codes "pull_request"
    else if str_eq name header_delivery
    then codes "d-1"
    else if str_eq name header_signature
    then codes "sha256=new{}"
    else []

abbrev request : Request
request = record { is_post = true; headers = headers }

abbrev secrets : List Bytes
secrets = codes "old" ∷ codes "new" ∷ []

abbrev opened : PullRequestPayload
opened = record {
  action = codes "opened";
  pull_request = record {
    number = pos 7;
    title = codes "Fix";
    body = [];
    merged = false;
    created_at = 5;
    updated_at = 0;
  };
  repository = record {
    full_name = codes "o/r";
    clone_url = codes "u";
    default_branch = codes "main";
  };
  sender = codes "alice";
}

abbrev decode_pull : Bytes → Option PullRequestPayload
decode_pull body = some opened

abbrev decode_issue_comment : Bytes → Option IssueCommentPayload
decode_issue_comment body = none

abbrev decode_review_comment : Bytes → Option ReviewCommentPayload
decode_review_comment body = none

abbrev handler : Handler
handler = github_handler mac some decode_pull decode_issue_comment decode_review_comment 9 secrets

abbrev engine : Engine.Engine
engine = record {
  app_id = [];
  bot_logins = [];
  allowed_repos = codes "o/r" ∷ [];
  mention = codes "/kibitz";
  keywords = [];
  max_event_age = pos 0;
  commenters = [];
}

-- A publisher that fails as often as its state says.
abbrev flaky : ReviewEvent → ℕ → Result Unit Bytes × ℕ
flaky ev ℕ.zero = (ok (codes "m"), 0)
flaky ev (ℕ.suc n) = (err tt, n)

abbrev response : ℕ → Response ℕ
response = serve handler engine flaky (λ n. true) 3 true [] [] 9 request (ok (codes "{}"))

verify_iff_example :
    (verify mac some secrets request (codes "{}") ≡ none)
    ↔ IsSigned mac some secrets request (codes "{}")
verify_iff_example = verify_iff mac some secrets request (codes "{}")

normalize_pull_request_iff_example :
    (normalize_pull_request (codes "d-1") 9 (some opened)
      ≡ ok (some (pull_event (codes "d-1") 9 opened pr_opened)))
    ↔ IsWhole (codes "d-1") 9 opened
unfolding Github.pull_request_kind
normalize_pull_request_iff_example =
    normalize_pull_request_iff (codes "d-1") 9 opened pr_opened refl

serve-IsSigned_example :
    IsSigned mac some secrets request (codes "{}")
    × ((ev : ReviewEvent) × ((response 2).published ≡ ev ∷ [])
        × (validate (some ev) ≡ ok tt)
        × (ev.id ≡ event_id (codes "d-1")))
unfolding serve verify normalize validate Engine.evaluate Receiver.attach_trace Engine.is_self
    kibitz.Policy.Glob.match_any kibitz.Policy.Glob.match Engine.is_stale Engine.wanted
serve-IsSigned_example =
    serve-IsSigned mac some decode_pull decode_issue_comment decode_review_comment 9 secrets engine
      flaky (λ n. true) 3 true [] [] 9 request (codes "{}") 2 refl

-- Two failures are made up for, three are not.
retried :
    ((response 2).status ≡ accepted)
    × ((response 3).status ≡ unavailable)
    × (attempts_of (pos 0) ≡ 3)
unfolding serve attempts_of verify normalize validate Engine.evaluate Receiver.attach_trace
    Engine.is_self kibitz.Policy.Glob.match_any kibitz.Policy.Glob.match Engine.is_stale
    Engine.wanted
retried = (refl, refl, refl)
