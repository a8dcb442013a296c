-- ===== src/Policy/Engine/Decisions.antt =====
-- What a decision says of the event, and what it leaves of it.
use kibitz.Prelude.{
  ℕ, ◌≡◌, ◌≢◌, ◌⊎◌, inl, inr, refl, Bool, true, false, not, Option, none, some, arith,
  if◌then◌else◌,
}
use kibitz.Event
use kibitz.Event.{ReviewEvent, Comment, Command, Kind, known, Invalid, validate}
use kibitz.Policy.Glob.{match_any}
use kibitz.Policy.Command.{mentions, parse_command, issue_command}
use kibitz.Policy.Engine

if-holds :
    {A : Type 0} (P : A → Type 0) (b : Bool) {x y : A}
    → (b ≡ true → P x)
    → (b ≡ false → P y)
    → P (if b then x else y)
if-holds P true when_true when_false = when_true refl
if-holds P false when_true when_false = when_false refl

unless-holds :
    {A : Type 0} (P : A → Type 0) (b : Bool) {x y : A}
    → (b ≡ false → P x)
    → (b ≡ true → P y)
    → P (if not b then x else y)
unless-holds P true when_false when_true = when_true refl
unless-holds P false when_false when_true = when_false refl

module _ (e : Engine.Engine) (ev : ReviewEvent) (now : ℕ) where
  -- What every published event has.
  abbrev pub Admitted : Type 0
  Admitted =
      (known ev.kind ≡ true)
      × (Engine.is_self e ev.actor ≡ false)
      × (Engine.self_comment e ev.comment ≡ false)
      × (match_any e.allowed_repos ev.full_name ≡ true)
      × (Engine.is_stale e ev now ≡ false)

  -- A comment, allowed to ask, that addresses kibitz.
  abbrev pub Asks : Comment → Type 0
  Asks c = (ev.comment ≡ some c) × (mentions c.body e.mention ≡ true) × (Engine.may_ask e ev ≡ true)

  abbrev pub Asked : Kind → ReviewEvent → Type 0
  Asked Event.issue_comment out =
      (c : Comment) × (cmd : Command) × Asks c
      × (parse_command c.body e.mention ≡ some cmd)
      × (issue_command cmd.name ≡ true)
      × (out ≡ record ev { instruction = some cmd; kind = Event.issue_command })
  Asked Event.comment_created out =
      (c : Comment) × Asks c × (out ≡ Engine.promote ev (parse_command c.body e.mention))
  Asked Event.command out = out ≡ ev
  Asked _ out = (Engine.wanted e ev ≡ true) × (out ≡ ev)

  -- What a decision with the event it leaves means, for an event of a kind.
  abbrev pub Means : Kind → Engine.Decision × ReviewEvent → Type 0
  Means k r =
      ((r.0.publish ≡ true) × (r.0.reason ≡ Engine.accepted) × Asked k r.1)
      ⊎ ((r.0.publish ≡ false) × (r.0.reason ≢ Engine.accepted) × (r.1 ≡ ev))

  dropped : (k : Kind) (r : Engine.Reason) → r ≢ Engine.accepted → Means k (Engine.drop_for r ev)
  dropped k r h = inr (refl, h, refl)

  for_pull_request-Means :
      (k : Kind) → (Engine.wanted e ev ≡ true → Asked k ev) → Means k (Engine.for_pull_request e ev)
  for_pull_request-Means k asked =
      unless-holds (Means k) (Engine.wanted e ev)
        (λ _. dropped k Engine.no_keyword (λ h. ground arith)) (λ w. inl (refl, refl, asked w))

  ask_issue-Means :
      (c : Comment) (o : Option Command)
      → ev.comment ≡ some c
      → mentions c.body e.mention ≡ true
      → parse_command c.body e.mention ≡ o
      → Means Event.issue_comment (Engine.ask_issue e ev o)
  ask_issue-Means c none h m p = dropped Event.issue_comment Engine.no_command (λ h. ground arith)
  ask_issue-Means c (some cmd) h m p =
      unless-holds (Means Event.issue_comment) (issue_command cmd.name)
        (λ _. dropped Event.issue_comment Engine.command_not_for_issue (λ h. ground arith))
        (λ i.
          unless-holds (Means Event.issue_comment) (Engine.may_ask e ev)
            (λ _. dropped Event.issue_comment Engine.actor_not_allowed (λ h. ground arith))
            (λ a. inl (refl, refl, (c, cmd, (h, m, a), p, i, refl))))

  for_issue-Means :
      (o : Option Comment) → ev.comment ≡ o → Means Event.issue_comment (Engine.for_issue e ev o)
  for_issue-Means none h = dropped Event.issue_comment Engine.no_mention (λ h. ground arith)
  for_issue-Means (some c) h =
      unless-holds (Means Event.issue_comment) (mentions c.body e.mention)
        (λ _. dropped Event.issue_comment Engine.no_mention (λ h. ground arith))
        (λ m. ask_issue-Means c (parse_command c.body e.mention) h m refl)

  for_comment-Means :
      (o : Option Comment)
      → ev.comment ≡ o
      → Means Event.comment_created (Engine.for_comment e ev o)
  for_comment-Means none h = dropped Event.comment_created Engine.no_mention (λ h. ground arith)
  for_comment-Means (some c) h =
      unless-holds (Means Event.comment_created) (mentions c.body e.mention)
        (λ _. dropped Event.comment_created Engine.no_mention (λ h. ground arith))
        (λ m.
          unless-holds (Means Event.comment_created) (Engine.may_ask e ev)
            (λ _. dropped Event.comment_created Engine.actor_not_allowed (λ h. ground arith))
            (λ a. inl (refl, refl, (c, (h, m, a), refl))))

  by_kind-Means : (k : Kind) → Means k (Engine.by_kind e ev k)
  unfolding Engine.by_kind
  by_kind-Means Event.issue_comment = for_issue-Means ev.comment refl
  by_kind-Means Event.comment_created = for_comment-Means ev.comment refl
  by_kind-Means Event.command = inl (refl, refl, refl)
  by_kind-Means k = for_pull_request-Means k (λ w. (w, refl))

  -- What an answer of `Evaluate` means.
  abbrev pub Explained : Engine.Decision × ReviewEvent → Type 0
  Explained r =
      ((r.0.publish ≡ true) × (r.0.reason ≡ Engine.accepted) × Admitted × Asked ev.kind r.1)
      ⊎ ((r.0.publish ≡ false) × (r.0.reason ≢ Engine.accepted) × (r.1 ≡ ev))

  refused : (r : Engine.Reason) → r ≢ Engine.accepted → Explained (Engine.drop_for r ev)
  refused r h = inr (refl, h, refl)

  admitted : (r : Engine.Decision × ReviewEvent) → Admitted → Means ev.kind r → Explained r
  admitted r ad (inl (p, a, asked)) = inl (p, a, ad, asked)
  admitted r ad (inr h) = inr h

-- Every answer of `Evaluate`. It publishes only what is of a known kind, not kibitz's own, of an allowed
-- repository and not stale, and then: a comment on an issue only when it addresses kibitz, carries a
-- command for issues and its author may ask, with that command attached and the kind promoted; a
-- comment on a pull request only when it addresses kibitz and its author may ask, promoted if it carries
-- a command; a command as it is; any other event as it is, if it is wanted. Otherwise the reason is not
-- "accepted" and the event is left as it was.
pub evaluate-Explained :
    (e : Engine.Engine) (ev : ReviewEvent) (now : ℕ) → Explained e ev now (Engine.evaluate e ev now)
unfolding Engine.evaluate
evaluate-Explained e ev now =
    unless-holds (Explained e ev now) (known ev.kind)
      (λ _. refused e ev now Engine.unknown_kind (λ h. ground arith))
      (λ k.
        if-holds (Explained e ev now) (Engine.is_self e ev.actor)
          (λ _. refused e ev now Engine.self_authored (λ h. ground arith))
          (λ s.
            if-holds (Explained e ev now) (Engine.self_comment e ev.comment)
              (λ _. refused e ev now Engine.self_authored (λ h. ground arith))
              (λ c.
                unless-holds (Explained e ev now) (match_any e.allowed_repos ev.full_name)
                  (λ _. refused e ev now Engine.repo_not_allowed (λ h. ground arith))
                  (λ m.
                    if-holds (Explained e ev now) (Engine.is_stale e ev now)
                      (λ _. refused e ev now Engine.stale (λ h. ground arith))
                      (λ t.
                        admitted e ev now (Engine.by_kind e ev ev.kind) (k, s, c, m, t)
                          (by_kind-Means e ev now ev.kind))))))
