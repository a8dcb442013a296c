-- ===== src/Policy/Engine.antt =====
-- internal/policy/policy.go: the decision whether an event is published, and the command it attaches.
-- A set of strings is the list of its members. A difference of times is saturated as in package time.
pub mod Decisions
pub mod Promotion
use kibitz.Prelude.{
  ℕ, ◌^◌, ◌-◌, ◌==◌, Bool, true, false, not, ◌&&◌, ◌||◌, Option, none, some, List, [], ◌∷◌, ◌++◌,
  is_empty, if◌then◌else◌, Bytes, codes, str_eq, to_lower, trim_space, contains, cut,
}
use kibitz.Prelude.Int.{ℤ, pos, negsuc, ltb_ℤ, min_ℤ, max_ℤ, ◌-ℤ◌}
use kibitz.Event
use kibitz.Event.{
  ReviewEvent, Actor, PullRequest, Comment, Command, Kind, known, platform_github, platform_gitlab,
  platform_azure_devops,
}
use kibitz.Policy.Glob.{match, match_any}
use kibitz.Policy.Markdown.{strip_code, newline}
use kibitz.Policy.Command.{mentions, parse_command, issue_command}

pub data Reason : Type 0 where
  accepted unknown_kind self_authored repo_not_allowed stale no_mention no_keyword : Reason
  no_command command_not_for_issue actor_not_allowed : Reason

pub record Config : Type 0 where
  pub bot_logins : List Bytes
  pub allowed_repos : List Bytes
  pub app_id : Bytes
  pub mention : Bytes
  pub keywords : List Bytes
  pub max_event_age : ℤ
  pub allowed_commenters : List Bytes

pub record Commenter : Type 0 where
  pub platform : Bytes
  pub login : Bytes

pub record Engine : Type 0 where
  pub app_id : Bytes
  pub bot_logins : List Bytes
  pub allowed_repos : List Bytes
  pub mention : Bytes
  pub keywords : List Bytes
  pub max_event_age : ℤ
  pub commenters : List Commenter

unfoldable pub platforms : Bytes → Bool
platforms p = str_eq p platform_github || str_eq p platform_gitlab || str_eq p platform_azure_devops

abbrev anywhere : Bytes → Commenter
anywhere entry = record { platform = []; login = entry }

abbrev limited : Bytes → Option (Bytes × Bytes) → Commenter
limited entry none = anywhere entry
limited entry (some (p, l)) =
    if platforms p then record { platform = p; login = l } else anywhere entry

-- `parseCommenters`
unfoldable pub parse_commenters : List Bytes → List Commenter
unfolding platforms
parse_commenters [] = []
parse_commenters (e ∷ list) =
    let entry = to_lower (trim_space e) in
    let out = parse_commenters list in
    if is_empty entry then out else limited entry (cut b':' entry) ∷ out

-- The trimmed and lowered texts that are not empty.
unfoldable pub lowered : List Bytes → List Bytes
lowered [] = []
lowered (k ∷ ks) =
    let out = lowered ks in if is_empty (trim_space k) then out else to_lower (trim_space k) ∷ out

-- `New`
unfoldable pub new : Config → Engine
unfolding parse_commenters lowered
new cfg = record {
  app_id = trim_space cfg.app_id;
  bot_logins = lowered cfg.bot_logins;
  allowed_repos = cfg.allowed_repos;
  mention = cfg.mention;
  keywords = lowered cfg.keywords;
  max_event_age = cfg.max_event_age;
  commenters = parse_commenters cfg.allowed_commenters;
}

abbrev pub member : Bytes → List Bytes → Bool
member k [] = false
member k (x ∷ xs) = str_eq x k || member k xs

-- `isSelf`
unfoldable pub is_self : Engine → Actor → Bool
is_self e a =
    not (is_empty e.app_id) && str_eq a.app_id e.app_id
    || not (is_empty a.login) && member (to_lower a.login) e.bot_logins

abbrev any_keyword : Bytes → List Bytes → Bool
any_keyword haystack [] = false
any_keyword haystack (k ∷ ks) = contains haystack k || any_keyword haystack ks

abbrev asked : Engine → Option PullRequest → Bool
asked e none = false
asked e (some p) =
    let text = p.title ++ newline ∷ p.description in
    mentions text e.mention || any_keyword (to_lower (strip_code text)) e.keywords

-- `wanted`
unfoldable pub wanted : Engine → ReviewEvent → Bool
wanted e ev = is_empty e.keywords || asked e ev.pull_request

abbrev author : ReviewEvent → Option Comment → Actor
author ev none = ev.actor
author ev (some c) = if is_empty c.author.login then ev.actor else c.author

abbrev pub allows : Bytes → Bytes → List Commenter → Bool
allows platform login [] = false
allows platform login (c ∷ cs) =
    (is_empty c.platform || str_eq c.platform platform) && match c.login login
    || allows platform login cs

-- `mayAsk`
unfoldable pub may_ask : Engine → ReviewEvent → Bool
may_ask e ev =
    is_empty e.commenters
    || (let login = to_lower (trim_space (author ev ev.comment).login) in
        not (is_empty login) && allows ev.source.platform login e.commenters)

pub record Decision : Type 0 where
  pub publish : Bool
  pub reason : Reason

-- `Evaluate` returns the decision and changes the event.
abbrev pub drop_for : Reason → ReviewEvent → Decision × ReviewEvent
drop_for r ev = (record { publish = false; reason = r }, ev)

abbrev pub accept : ReviewEvent → Decision × ReviewEvent
accept ev = (record { publish = true; reason = accepted }, ev)

abbrev pub ask_issue : Engine → ReviewEvent → Option Command → Decision × ReviewEvent
ask_issue e ev none = drop_for no_command ev
ask_issue e ev (some cmd) =
    if not (issue_command cmd.name)
    then drop_for command_not_for_issue ev
    else if not (may_ask e ev)
    then drop_for actor_not_allowed ev
    else accept (record ev { instruction = some cmd; kind = Event.issue_command })

abbrev pub for_issue : Engine → ReviewEvent → Option Comment → Decision × ReviewEvent
for_issue e ev none = drop_for no_mention ev
for_issue e ev (some c) =
    if not (mentions c.body e.mention)
    then drop_for no_mention ev
    else ask_issue e ev (parse_command c.body e.mention)

abbrev pub promote : ReviewEvent → Option Command → ReviewEvent
promote ev none = ev
promote ev (some cmd) = record ev { instruction = some cmd; kind = Event.command }

abbrev pub for_comment : Engine → ReviewEvent → Option Comment → Decision × ReviewEvent
for_comment e ev none = drop_for no_mention ev
for_comment e ev (some c) =
    if not (mentions c.body e.mention)
    then drop_for no_mention ev
    else if not (may_ask e ev)
    then drop_for actor_not_allowed ev
    else accept (promote ev (parse_command c.body e.mention))

abbrev pub for_pull_request : Engine → ReviewEvent → Decision × ReviewEvent
for_pull_request e ev = if not (wanted e ev) then drop_for no_keyword ev else accept ev

-- The part of `Evaluate` that depends on the kind.
unfoldable pub by_kind : Engine → ReviewEvent → Kind → Decision × ReviewEvent
by_kind e ev Event.issue_comment = for_issue e ev ev.comment
by_kind e ev Event.comment_created = for_comment e ev ev.comment
by_kind e ev Event.command = accept ev
by_kind e ev _ = for_pull_request e ev

abbrev pub self_comment : Engine → Option Comment → Bool
self_comment e none = false
self_comment e (some c) = is_self e c.author

-- time.Time.Sub
abbrev elapsed : ℕ → ℕ → ℤ
elapsed now then_ = min_ℤ (max_ℤ (pos now -ℤ pos then_) (negsuc (2 ^ 63 - 1))) (pos (2 ^ 63 - 1))

unfoldable pub is_stale : Engine → ReviewEvent → ℕ → Bool
is_stale e ev now =
    ltb_ℤ (pos 0) e.max_event_age
    && not (ev.occurred_at == 0)
    && ltb_ℤ e.max_event_age (elapsed now ev.occurred_at)

-- `Evaluate`, of an event that is not nil.
unfoldable pub evaluate : Engine → ReviewEvent → ℕ → Decision × ReviewEvent
unfolding by_kind
evaluate e ev now =
    if not (known ev.kind)
    then drop_for unknown_kind ev
    else if is_self e ev.actor
    then drop_for self_authored ev
    else if self_comment e ev.comment
    then drop_for self_authored ev
    else if not (match_any e.allowed_repos ev.full_name)
    then drop_for repo_not_allowed ev
    else if is_stale e ev now
    then drop_for stale ev
    else by_kind e ev ev.kind
