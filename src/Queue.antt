-- ===== src/Queue.antt =====
-- internal/queue/queue.go: a message of the queue and the attributes it travels with.
pub mod Memory
use kibitz.Prelude.{
  ℕ, Option, none, some, List, [], ◌∷◌, ◌++◌, if◌then◌else◌, is_empty, Bytes, codes,
}
use kibitz.Prelude.Table.{Table}
use kibitz.Prelude.Decimal.{format_int}
use kibitz.Event.{
  ReviewEvent, PullRequest, Kind, pr_opened, pr_updated, pr_ready_for_review, pr_review_requested,
  pr_closed, pr_merged, comment_created, command, issue_comment, issue_command, other_kind, key,
}

pub record Message : Type 0 where
  pub id : Bytes
  pub event : ReviewEvent
  pub attributes : Table Bytes
  pub deliveries : ℕ

-- The text of a kind.
unfoldable pub kind_name : Kind → Bytes
kind_name pr_opened = codes "pr.opened"
kind_name pr_updated = codes "pr.updated"
kind_name pr_ready_for_review = codes "pr.ready_for_review"
kind_name pr_review_requested = codes "pr.review_requested"
kind_name pr_closed = codes "pr.closed"
kind_name pr_merged = codes "pr.merged"
kind_name comment_created = codes "comment.created"
kind_name command = codes "command"
kind_name issue_comment = codes "issue.comment"
kind_name issue_command = codes "issue.command"
kind_name (other_kind s) = s

abbrev pull_request_attribute : Option PullRequest → Table Bytes
pull_request_attribute none = []
pull_request_attribute (some p) = (codes "pull_request", format_int p.number) ∷ []

abbrev trace_attribute : Option Bytes → Table Bytes
trace_attribute none = []
trace_attribute (some t) = if is_empty t then [] else (codes "traceparent", t) ∷ []

unfoldable pub attributes : ReviewEvent → Table Bytes
unfolding kind_name
attributes e =
    (codes "platform", e.source.platform)
    ∷ (codes "kind", kind_name e.kind)
    ∷ (codes "repository", e.full_name)
    ∷ (codes "delivery_id", e.source.delivery_id)
    ∷ (pull_request_attribute e.pull_request ++ trace_attribute e.trace_parent)

-- `OrderingKey`
unfoldable pub ordering_key : ReviewEvent → Bytes
ordering_key e = key e
