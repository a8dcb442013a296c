-- ===== src/RepoConfig/Settings.antt =====
-- `Apply`, `Allows` and `Reviews` of internal/repoconfig/settings.go.
pub mod Narrows
use kibitz.Prelude.{
  ℕ, Bool, true, false, not, ◌&&◌, ◌||◌, Option, none, some, List, [], ◌∷◌, ◌++◌, any, reverse,
  if◌then◌else◌, Bytes, codes, str_eq, equal_fold, Result, ok, err, is_empty, is_some, trim_space,
  trim_left, ◌==◌,
}
use kibitz.Prelude.Int.{ℤ, pos, ltb_ℤ}
use kibitz.Event.{Kind, pr_opened, pr_updated, pr_ready_for_review, pr_review_requested, command}
use kibitz.Queue.{kind_name}
use kibitz.Reviewer.{known_severity}
use kibitz.Reviewer.Sanitize.{Limits}
use kibitz.RepoConfig.{Implement, Review, RepoFile}
use kibitz.RepoConfig.Validate.{trigger_kind}
use kibitz.RepoConfig.PathFilter.{Filter, PatternFault, valid_pattern, new_path_filter}

pub record ImplementSettings : Type 0 where
  pub deployment_allows : Bool
  pub enabled : Bool
  pub allowed_actors : List Bytes
  pub paths_allow : List Bytes
  pub commands_allow : List Bytes
  pub branch_prefix : Bytes

-- The set of triggers is the list of the kinds' texts; none stands for every kind.
pub record Settings : Type 0 where
  pub review_enabled : Bool
  pub answer_enabled : Bool
  pub skip_draft : Bool
  pub triggers : Option (List Bytes)
  pub paths_ignore : Filter
  pub focus : List Bytes
  pub language : Bytes
  pub limits : Limits
  pub model : Bytes
  pub guidelines : Bytes
  pub mcp : List Bytes
  pub implement : ImplementSettings

abbrev pub add_kind : Option Kind → List Bytes → List Bytes
add_kind none ks = ks
add_kind (some k) ks = kind_name k ∷ ks

abbrev pub kinds_of : List Bytes → List Bytes
kinds_of [] = []
kinds_of (n ∷ ns) = add_kind (trigger_kind n) (kinds_of ns)

-- `ImplementSettings.Allows`
abbrev pub any_actor : List Bytes → Bytes → Bool
any_actor allowed actor = not (is_empty actor) && any (λ a. equal_fold (trim_space a) actor) allowed

unfoldable pub may_instruct : ImplementSettings → Bytes → Bool
may_instruct s actor = any_actor s.allowed_actors (trim_space actor)

abbrev pub is_command : Kind → Bool
is_command k = str_eq (kind_name k) (kind_name command)

abbrev pub triggered : Option (List Bytes) → Kind → Bool
triggered none k = true
triggered (some ks) k = is_command k || any (str_eq (kind_name k)) ks

-- `Settings.Reviews`
unfoldable pub reviews : Settings → Kind → Bool
reviews s k = s.review_enabled && triggered s.triggers k

-- `trimAll`
abbrev pub trim_all : List Bytes → List Bytes
trim_all [] = []
trim_all (i ∷ is) =
    let rest = trim_all is in if is_empty (trim_space i) then rest else trim_space i ∷ rest

-- `join`
abbrev pub trim_newlines : Bytes → Bytes
trim_newlines s = reverse (trim_left (λ c. c == 10) (reverse s))

unfoldable pub join_lines : Bytes → Bytes → Bytes
join_lines base extra =
    if is_empty (trim_space base) then extra else trim_newlines base ++ 10 ∷ extra

abbrev pub unless_empty : Bytes → Bytes → Bytes
unless_empty s base = if is_empty s then base else s

abbrev pub or_base : Option Bool → Bool → Bool
or_base none base = base
or_base (some b) base = b

abbrev pub is_on : Option Bool → Bool
is_on none = false
is_on (some b) = b

abbrev pub implement_over : Option Implement → ImplementSettings → ImplementSettings
implement_over none base = record {
  deployment_allows = base.deployment_allows;
  enabled = false;
  allowed_actors = base.allowed_actors;
  paths_allow = base.paths_allow;
  commands_allow = base.commands_allow;
  branch_prefix = base.branch_prefix;
}
implement_over (some i) base = record {
  deployment_allows = base.deployment_allows;
  enabled = base.deployment_allows && is_on i.enabled;
  allowed_actors = trim_all i.allowed_actors;
  paths_allow = trim_all i.paths_allow;
  commands_allow = trim_all i.commands_allow;
  branch_prefix = trim_space i.branch_prefix;
}

abbrev pub answer_over : Option (Option Bool) → Bool → Bool
answer_over none base = base
answer_over (some e) base = or_base e base

abbrev pub mcp_over : Option (List Bytes) → List Bytes → List Bytes
mcp_over none base = base
mcp_over (some allow) base = trim_all allow

abbrev pub lower_cap : Option ℤ → ℤ → ℤ
lower_cap none base = base
lower_cap (some n) base = if ltb_ℤ n base then n else base

abbrev pub limits_over : Review → Limits → Limits
limits_over r base = record {
  max_comments = lower_cap r.max_comments base.max_comments;
  min_severity = unless_empty (trim_space r.min_severity) base.min_severity;
  max_body_bytes = base.max_body_bytes;
}

-- What is laid over before the review's settings are.
abbrev pub outside_review : RepoFile → Settings → Settings
outside_review c base = record {
  review_enabled = base.review_enabled;
  answer_enabled = answer_over c.answer base.answer_enabled;
  skip_draft = base.skip_draft;
  triggers = base.triggers;
  paths_ignore = base.paths_ignore;
  focus = base.focus;
  language = base.language;
  limits = base.limits;
  model = base.model;
  guidelines =
      (if is_empty (trim_space c.guidelines)
        then base.guidelines
        else join_lines base.guidelines (trim_space c.guidelines));
  mcp = mcp_over c.mcp base.mcp;
  implement = implement_over c.implement base.implement;
}

abbrev pub with_review : Review → Filter → Settings → Settings
with_review r filter out = record {
  review_enabled = or_base r.enabled out.review_enabled;
  answer_enabled = out.answer_enabled;
  skip_draft = or_base r.skip_draft out.skip_draft;
  triggers = (if is_empty r.triggers then out.triggers else some (kinds_of r.triggers));
  paths_ignore = filter;
  focus = (if is_empty r.focus then out.focus else trim_all r.focus);
  language = unless_empty (trim_space r.language) out.language;
  limits = limits_over r out.limits;
  model = unless_empty (trim_space r.model) out.model;
  guidelines = out.guidelines;
  mcp = out.mcp;
  implement = out.implement;
}

abbrev pub filter_over : List Bytes → Filter → Result PatternFault Filter
filter_over [] base = ok base
filter_over (p ∷ ps) base = new_path_filter (base.patterns ++ p ∷ ps)

abbrev pub filtered : Review → Settings → Result PatternFault Filter → Result PatternFault Settings
filtered r out (err fault) = err fault
filtered r out (ok filter) = ok (with_review r filter out)

abbrev pub review_over : Option Review → Settings → Result PatternFault Settings
review_over none out = ok out
review_over (some r) out = filtered r out (filter_over r.paths_ignore out.paths_ignore)

-- `Apply`: without a file nothing changes. With an error the source returns the base beside it.
unfoldable pub apply_file : Option RepoFile → Settings → Result PatternFault Settings
apply_file none base = ok base
apply_file (some c) base = review_over c.review (outside_review c base)
