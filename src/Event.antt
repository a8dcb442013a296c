-- ===== src/Event.antt =====
-- internal/event/event.go: the normalized event, its ordering key and its validation. The fields
-- are those that some part of the model reads. A time is a number of nanoseconds, 0 the zero time.
pub mod Validity
pub mod Keys
pub mod Samples
mod Tests
use kibitz.Prelude.{
  ℕ, ◌==◌, Bool, true, false, not, ◌&&◌, ◌||◌, Option, none, some, List, [], ◌∷◌, ◌++◌, is_some,
  if◌then◌else◌, Bytes, codes, str_eq, is_empty, Result, ok, err,
}
use kibitz.Prelude.Int.{ℤ, pos, negsuc, leb_ℤ}
use kibitz.Prelude.Decimal.{format_int}

-- A kind is one of the constants or some other text.
pub data Kind : Type 0 where
  pr_opened pr_updated pr_ready_for_review pr_review_requested pr_closed pr_merged : Kind
  comment_created command issue_comment issue_command : Kind
  other_kind : Bytes → Kind

unfoldable pub known : Kind → Bool
known (other_kind s) = false
known _ = true

unfoldable pub about_issue : Kind → Bool
about_issue issue_comment = true
about_issue issue_command = true
about_issue _ = false

unfoldable pub needs_comment : Kind → Bool
needs_comment comment_created = true
needs_comment command = true
needs_comment issue_comment = true
needs_comment issue_command = true
needs_comment _ = false

unfoldable pub needs_command : Kind → Bool
needs_command command = true
needs_command issue_command = true
needs_command _ = false

abbrev pub platform_github : Bytes
platform_github = codes "github"

abbrev pub platform_gitlab : Bytes
platform_gitlab = codes "gitlab"

abbrev pub platform_azure_devops : Bytes
platform_azure_devops = codes "azure_devops"

pub record Source : Type 0 where
  pub platform : Bytes
  pub delivery_id : Bytes

pub record Actor : Type 0 where
  pub login : Bytes
  pub app_id : Bytes

pub record PullRequest : Type 0 where
  pub number : ℤ
  pub title : Bytes
  pub description : Bytes

pub record Issue : Type 0 where
  pub number : ℤ
  pub title : Bytes

pub record Comment : Type 0 where
  pub body : Bytes
  pub author : Actor

pub record Command : Type 0 where
  pub name : Bytes
  pub args : List Bytes

pub record ReviewEvent : Type 0 where
  pub schema_version : ℤ
  pub id : Bytes
  pub occurred_at : ℕ
  pub source : Source
  pub kind : Kind
  pub full_name : Bytes
  pub clone_url : Bytes
  pub default_branch : Bytes
  pub pull_request : Option PullRequest
  pub issue : Option Issue
  pub comment : Option Comment
  pub instruction : Option Command
  pub actor : Actor
  pub trace_parent : Option Bytes

abbrev slash : ℕ
slash = b'/'

abbrev pub key_tail : Option Issue → Option PullRequest → Bytes
key_tail (some i) p = slash ∷ codes "issue/" ++ format_int i.number
key_tail none (some p) = slash ∷ format_int p.number
key_tail none none = []

-- `Key`
unfoldable pub key : ReviewEvent → Bytes
key e = e.source.platform ++ (slash ∷ e.full_name ++ key_tail e.issue e.pull_request)

pub data Problem : Type 0 where
  schema_version_differs id_empty platform_empty delivery_id_empty kind_unknown : Problem
  full_name_empty occurred_at_zero pull_request_set issue_missing issue_not_positive : Problem
  issue_set pull_request_missing pull_request_not_positive comment_missing command_missing : Problem

-- One `problems = append(problems, …)` under its condition.
abbrev when : Bool → Problem → List Problem
when b p = if b then p ∷ [] else []

abbrev number_problem : Problem → Problem → Option ℤ → List Problem
number_problem missing low none = missing ∷ []
number_problem missing low (some n) = when (leb_ℤ n (pos 0)) low

abbrev issue_number : Option Issue → Option ℤ
issue_number none = none
issue_number (some i) = some i.number

abbrev pr_number : Option PullRequest → Option ℤ
pr_number none = none
pr_number (some p) = some p.number

abbrev named : Option Command → Bool
named none = false
named (some c) = not (is_empty c.name)

-- The switch on what the event is about.
subject_problems : ReviewEvent → List Problem
unfolding about_issue
subject_problems e =
    if about_issue e.kind
    then when (is_some e.pull_request) pull_request_set
      ++ number_problem issue_missing issue_not_positive (issue_number e.issue)
    else when (is_some e.issue) issue_set
      ++ number_problem pull_request_missing pull_request_not_positive (pr_number e.pull_request)

schema_is_current : ℤ → Bool
schema_is_current (pos n) = n == 1
schema_is_current (negsuc n) = false

-- The checks of `Validate`, in their order, with what each adds to the problems.
checks : ReviewEvent → List (List Problem)
unfolding known needs_comment needs_command schema_is_current
checks e =
    when (not (schema_is_current e.schema_version)) schema_version_differs
    ∷ when (is_empty e.id) id_empty
    ∷ when (is_empty e.source.platform) platform_empty
    ∷ when (is_empty e.source.delivery_id) delivery_id_empty
    ∷ when (not (known e.kind)) kind_unknown
    ∷ when (is_empty e.full_name) full_name_empty
    ∷ when (e.occurred_at == 0) occurred_at_zero
    ∷ subject_problems e
    ∷ when (needs_comment e.kind && not (is_some e.comment)) comment_missing
    ∷ when (needs_command e.kind && not (named e.instruction)) command_missing
    ∷ []

abbrev concat : List (List Problem) → List Problem
concat [] = []
concat (ps ∷ rest) = ps ++ concat rest

unfoldable pub problems : ReviewEvent → List Problem
unfolding checks subject_problems
problems e = concat (checks e)

-- The error of `Validate`: the event is nil, or its problems.
pub data Invalid : Type 0 where
  event_is_nil : Invalid
  invalid : List Problem → Invalid

abbrev verdict : List Problem → Result Invalid Unit
verdict [] = ok tt
verdict (p ∷ ps) = err (invalid (p ∷ ps))

unfoldable pub validate : Option ReviewEvent → Result Invalid Unit
unfolding problems
validate none = err event_is_nil
validate (some e) = verdict (problems e)
