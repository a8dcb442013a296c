-- ===== src/Webhook/Github.antt =====
-- internal/webhook/github: the handler of GitHub's deliveries, after the JSON decoder. The HMAC, the hexadecimal decoder
-- and the JSON decoder are parameters. The fields are those that the event has here.
pub mod Authentic
pub mod Complete
use kibitz.Prelude.{
  ℕ, ◌==◌, Bool, true, false, not, ◌&&◌, ◌||◌, Option, none, some, List, [], ◌∷◌, ◌++◌, is_empty,
  is_some, any, if◌then◌else◌, Bytes, codes, str_eq, has_prefix, trim_prefix, trim_space, Result,
  ok, err,
}
use kibitz.Prelude.Int.{ℤ, pos, negsuc}
use kibitz.Prelude.Decimal.{format_int}
use kibitz.Event.{
  ReviewEvent, PullRequest, Issue, Comment, Actor, Kind, Invalid, validate, invalid, event_is_nil,
  platform_github, pr_opened, pr_updated, pr_ready_for_review, pr_review_requested, pr_closed,
  pr_merged, comment_created, issue_comment,
}
use kibitz.Webhook.{
  Request, VerifyError, NormalizeError, err_no_secrets, err_missing_signature,
  err_invalid_signature, malformed_payload, not_valid,
}

abbrev pub header_event : Bytes
header_event = codes "X-GitHub-Event"

abbrev pub header_delivery : Bytes
header_delivery = codes "X-GitHub-Delivery"

abbrev pub header_signature : Bytes
header_signature = codes "X-Hub-Signature-256"

abbrev pub signature_prefix : Bytes
signature_prefix = codes "sha256="

-- The secrets that `New` keeps
unfoldable pub secrets_of : List Bytes → List Bytes
secrets_of [] = []
secrets_of (s ∷ ss) =
    let rest = secrets_of ss in if is_empty (trim_space s) then rest else trim_space s ∷ rest

module _ (mac : Bytes → Bytes → Bytes) (decode_hex : Bytes → Option Bytes) where
  abbrev pub against : List Bytes → Bytes → Option Bytes → Option VerifyError
  against secrets body none = some err_invalid_signature
  against secrets body (some want) =
      if any (λ s. str_eq (mac s body) want) secrets then none else some err_invalid_signature

  abbrev pub verify_header : List Bytes → Bytes → Bytes → Option VerifyError
  verify_header secrets header body =
      if is_empty secrets
      then some err_no_secrets
      else if is_empty header
      then some err_missing_signature
      else if not (has_prefix header signature_prefix)
      then some err_invalid_signature
      else against secrets body (decode_hex (trim_prefix header signature_prefix))

  -- `Verify`
  unfoldable pub verify : List Bytes → Request → Bytes → Option VerifyError
  verify secrets r body = verify_header secrets (r.headers header_signature) body

pub record RepositoryPart : Type 0 where
  pub full_name : Bytes
  pub clone_url : Bytes
  pub default_branch : Bytes

pub record PullPart : Type 0 where
  pub number : ℤ
  pub title : Bytes
  pub body : Bytes
  pub merged : Bool
  pub created_at : ℕ
  pub updated_at : ℕ

-- `issue`: whether the member pull_request is there tells the two apart.
pub record IssuePart : Type 0 where
  pub number : ℤ
  pub title : Bytes
  pub body : Bytes
  pub has_pull_request : Bool

-- `comment`, with the id of the app that it was made through
pub record CommentPart : Type 0 where
  pub body : Bytes
  pub login : Bytes
  pub performed_via : Option ℤ
  pub created_at : ℕ

pub record PullRequestPayload : Type 0 where
  pub action : Bytes
  pub pull_request : PullPart
  pub repository : RepositoryPart
  pub sender : Bytes

pub record IssueCommentPayload : Type 0 where
  pub action : Bytes
  pub issue : IssuePart
  pub remark : CommentPart
  pub repository : RepositoryPart
  pub sender : Bytes

pub record ReviewCommentPayload : Type 0 where
  pub action : Bytes
  pub remark : CommentPart
  pub pull_request : PullPart
  pub repository : RepositoryPart
  pub sender : Bytes

abbrev pub user_actor : Bytes → Actor
user_actor login = record { login = login; app_id = [] }

abbrev zero_id : ℤ → Bool
zero_id (pos n) = n == 0
zero_id (negsuc n) = false

-- `comment.actor`
abbrev app_id_of : Option ℤ → Bytes
app_id_of none = []
app_id_of (some id) = if zero_id id then [] else format_int id

unfoldable pub comment_actor : CommentPart → Actor
comment_actor c = record { login = c.login; app_id = app_id_of c.performed_via }

abbrev pub normalize_pull : PullPart → PullRequest
normalize_pull p = record { number = p.number; title = p.title; description = p.body }

abbrev pub issue_as_pull : IssuePart → PullRequest
issue_as_pull i = record { number = i.number; title = i.title; description = i.body }

abbrev pub normalize_issue : IssuePart → Issue
normalize_issue i = record { number = i.number; title = i.title }

-- `firstNonZero`
abbrev pub first_non_zero : List ℕ → ℕ
first_non_zero [] = 0
first_non_zero (t ∷ ts) = let rest = first_non_zero ts in if t == 0 then rest else t

-- `pullRequestKind`
unfoldable pub pull_request_kind : Bytes → Bool → Option Kind
pull_request_kind action merged =
    if str_eq action (codes "opened") || str_eq action (codes "reopened")
    then some pr_opened
    else if str_eq action (codes "synchronize")
    then some pr_updated
    else if str_eq action (codes "ready_for_review")
    then some pr_ready_for_review
    else if str_eq action (codes "review_requested")
    then some pr_review_requested
    else if str_eq action (codes "closed")
    then some (if merged then pr_merged else pr_closed)
    else none

abbrev pub event_id : Bytes → Bytes
event_id delivery = platform_github ++ codes ":" ++ delivery

-- `newEvent`, and what its callers set
abbrev pub new_event :
    Bytes
    → Kind
    → RepositoryPart
    → Bytes
    → ℕ
    → Option PullRequest
    → Option Issue
    → Option Comment
    → ReviewEvent
new_event delivery kind repo sender now pull issue remark = record {
  schema_version = pos 1;
  id = event_id delivery;
  occurred_at = now;
  source = record { platform = platform_github; delivery_id = delivery };
  kind = kind;
  full_name = repo.full_name;
  clone_url = repo.clone_url;
  default_branch = repo.default_branch;
  pull_request = pull;
  issue = issue;
  comment = remark;
  instruction = none;
  actor = user_actor sender;
  trace_parent = none;
}

-- `return ev, ev.Validate()`, of which the event is read only without an error
abbrev pub when_valid :
    ReviewEvent → Result Invalid Unit → Result NormalizeError (Option ReviewEvent)
when_valid ev (ok _) = ok (some ev)
when_valid ev (err (invalid ps)) = err (not_valid ps)
when_valid ev (err event_is_nil) = err (not_valid [])

abbrev pub validated : ReviewEvent → Result NormalizeError (Option ReviewEvent)
validated ev = when_valid ev (validate (some ev))

unfoldable pub said : CommentPart → Comment
said c = record { body = c.body; author = comment_actor c }

abbrev pub pull_event : Bytes → ℕ → PullRequestPayload → Kind → ReviewEvent
pull_event delivery now p kind =
    new_event delivery kind p.repository p.sender
      (first_non_zero (p.pull_request.updated_at ∷ p.pull_request.created_at ∷ now ∷ []))
      (some (normalize_pull p.pull_request)) none none

abbrev pub issue_comment_event : Bytes → ℕ → IssueCommentPayload → ReviewEvent
issue_comment_event delivery now p =
    let at = first_non_zero (p.remark.created_at ∷ now ∷ []) in
    if p.issue.has_pull_request
    then new_event delivery comment_created p.repository p.sender at (some (issue_as_pull p.issue))
        none (some (said p.remark))
    else new_event delivery issue_comment p.repository p.sender at none
        (some (normalize_issue p.issue)) (some (said p.remark))

abbrev pub review_comment_event : Bytes → ℕ → ReviewCommentPayload → ReviewEvent
review_comment_event delivery now p =
    new_event delivery comment_created p.repository p.sender
      (first_non_zero (p.remark.created_at ∷ now ∷ [])) (some (normalize_pull p.pull_request)) none
      (some (said p.remark))

abbrev pub created_action : Bytes
created_action = codes "created"

abbrev pub of_kind :
    Bytes → ℕ → PullRequestPayload → Option Kind → Result NormalizeError (Option ReviewEvent)
of_kind delivery now p none = ok none
of_kind delivery now p (some kind) = validated (pull_event delivery now p kind)

abbrev pub normalize_pull_request :
    Bytes → ℕ → Option PullRequestPayload → Result NormalizeError (Option ReviewEvent)
normalize_pull_request delivery now none = err malformed_payload
normalize_pull_request delivery now (some p) =
    of_kind delivery now p (pull_request_kind p.action p.pull_request.merged)

abbrev pub normalize_issue_comment :
    Bytes → ℕ → Option IssueCommentPayload → Result NormalizeError (Option ReviewEvent)
normalize_issue_comment delivery now none = err malformed_payload
normalize_issue_comment delivery now (some p) =
    if not (str_eq p.action created_action)
    then ok none
    else validated (issue_comment_event delivery now p)

abbrev pub normalize_review_comment :
    Bytes → ℕ → Option ReviewCommentPayload → Result NormalizeError (Option ReviewEvent)
normalize_review_comment delivery now none = err malformed_payload
normalize_review_comment delivery now (some p) =
    if not (str_eq p.action created_action)
    then ok none
    else validated (review_comment_event delivery now p)

module _ (decode_pull : Bytes → Option PullRequestPayload)
    (decode_issue_comment : Bytes → Option IssueCommentPayload)
    (decode_review_comment : Bytes → Option ReviewCommentPayload) where
  -- `Normalize`, with the time that the handler's clock shows
  unfoldable pub normalize : ℕ → Request → Bytes → Result NormalizeError (Option ReviewEvent)
  unfolding pull_request_kind said
  normalize now r body =
      let name = r.headers header_event in
      let delivery = r.headers header_delivery in
      if str_eq name (codes "pull_request")
      then normalize_pull_request delivery now (decode_pull body)
      else if str_eq name (codes "issue_comment")
      then normalize_issue_comment delivery now (decode_issue_comment body)
      else if str_eq name (codes "pull_request_review_comment")
      then normalize_review_comment delivery now (decode_review_comment body)
      else ok none
