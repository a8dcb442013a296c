-- ===== src/Webhook/Github/Complete.antt =====
-- Which deliveries of GitHub become events, and what is sure of the event.
use kibitz.Prelude.{
  ℕ, ◌≡◌, ◌≢◌, ◌↔◌, inl, inr, refl, sym, arith, ap, subst, Bool, true, false, not, Option, none,
  some, [], ◌∷◌, if◌then◌else◌, Bytes, codes, str_eq, Result, ok, err, Bool-cases,
}
use kibitz.Prelude.Int.{pos, ◌<ℤ◌}
use kibitz.Event.{
  ReviewEvent, Kind, Invalid, invalid, event_is_nil, validate, platform_github, known,
  needs_command, about_issue, needs_comment,
}
use kibitz.Event.Validity.{IsValid, HasSubject, validate_iff}
use kibitz.Webhook.{Request, NormalizeError}
use kibitz.Webhook.Github.{
  PullRequestPayload, IssueCommentPayload, ReviewCommentPayload, header_event, header_delivery,
  event_id, validated, when_valid, pull_event, issue_comment_event, review_comment_event,
  pull_request_kind, created_action, of_kind, normalize, normalize_pull, normalize_pull_request,
  normalize_issue_comment, normalize_review_comment, first_non_zero,
}

-- What is sure of an event that a delivery of GitHub became: it is valid, it stands for that delivery, and it carries
-- no command.
abbrev pub IsFrom : Bytes → ReviewEvent → Type 0
IsFrom delivery ev =
    IsValid ev
    × (ev.id ≡ event_id delivery)
    × (ev.source.platform ≡ platform_github)
    × (ev.source.delivery_id ≡ delivery)
    × (needs_command ev.kind ≡ false)
    × (ev.instruction ≡ none)

when_valid-ok :
    (ev out : ReviewEvent) (v : Result Invalid Unit)
    → when_valid ev v ≡ ok (some out)
    → (v ≡ ok tt) × (ev ≡ out)
when_valid-ok ev out (ok tt) h = (refl, ground (arith, h))
when_valid-ok ev out (err (invalid ps)) h = absurd (ground (arith, h))
when_valid-ok ev out (err event_is_nil) h = absurd (ground (arith, h))

validated-ok : (ev out : ReviewEvent) → validated ev ≡ ok (some out) → IsValid ev × (ev ≡ out)
validated-ok ev out h =
    let (v, same) = when_valid-ok ev out (validate (some ev)) h in ((validate_iff ev).0 v, same)

abbrev IsPullKind : Kind → Type 0
IsPullKind k =
    (known k ≡ true)
    × (about_issue k ≡ false)
    × (needs_comment k ≡ false)
    × (needs_command k ≡ false)

pull_request_kind-IsPullKind :
    (action : Bytes) (merged : Bool) (kind : Kind)
    → pull_request_kind action merged ≡ some kind
    → IsPullKind kind
unfolding pull_request_kind known about_issue needs_comment needs_command
pull_request_kind-IsPullKind action true kind h = ground (arith, h)
pull_request_kind-IsPullKind action false kind h = ground (arith, h)

event_id-nonempty : (delivery : Bytes) → event_id delivery ≢ []
event_id-nonempty delivery h = ground (arith, h)

of_kind-IsFrom :
    (delivery : Bytes) (now : ℕ) (p : PullRequestPayload) (o : Option Kind) (ev : ReviewEvent)
    → pull_request_kind p.action p.pull_request.merged ≡ o
    → of_kind delivery now p o ≡ ok (some ev)
    → IsFrom delivery ev
of_kind-IsFrom delivery now p none ev k h = absurd (ground (arith, h))
of_kind-IsFrom delivery now p (some kind) ev k h =
    let (v, same) = validated-ok (pull_event delivery now p kind) ev h in
    let (is_known, pull, quiet, plain) =
      pull_request_kind-IsPullKind p.action p.pull_request.merged kind k in
    subst (IsFrom delivery) same (v, refl, refl, refl, plain, refl)

normalize_pull_request-IsFrom :
    (delivery : Bytes) (now : ℕ) (o : Option PullRequestPayload) (ev : ReviewEvent)
    → normalize_pull_request delivery now o ≡ ok (some ev)
    → IsFrom delivery ev
normalize_pull_request-IsFrom delivery now none ev h = absurd (ground (arith, h))
normalize_pull_request-IsFrom delivery now (some p) ev h =
    of_kind-IsFrom delivery now p (pull_request_kind p.action p.pull_request.merged) ev refl h

issue_comment_event-plain :
    (delivery : Bytes) (now : ℕ) (p : IssueCommentPayload)
    → let ev = issue_comment_event delivery now p in
      (ev.id ≡ event_id delivery)
      × (ev.source.platform ≡ platform_github)
      × (ev.source.delivery_id ≡ delivery)
      × (needs_command ev.kind ≡ false)
      × (ev.instruction ≡ none)
unfolding needs_command
issue_comment_event-plain delivery now p = elim (Bool-cases p.issue.has_pull_request) [
  | inl pull ↦ simp pull (refl, refl, refl, refl, refl)
  | inr issue ↦ simp issue (refl, refl, refl, refl, refl)
]

if-some :
    (b : Bool) (x : Result NormalizeError (Option ReviewEvent)) (ev : ReviewEvent)
    → (if b then ok none else x) ≡ ok (some ev)
    → (b ≡ false) × (x ≡ ok (some ev))
if-some true x ev h = absurd (ground (arith, h))
if-some false x ev h = (refl, h)

normalize_issue_comment-IsFrom :
    (delivery : Bytes) (now : ℕ) (o : Option IssueCommentPayload) (ev : ReviewEvent)
    → normalize_issue_comment delivery now o ≡ ok (some ev)
    → IsFrom delivery ev
normalize_issue_comment-IsFrom delivery now none ev h = absurd (ground (arith, h))
normalize_issue_comment-IsFrom delivery now (some p) ev h =
    let (made, built) =
      if-some (not (str_eq p.action created_action))
        (validated (issue_comment_event delivery now p)) ev h in
    let (v, same) = validated-ok (issue_comment_event delivery now p) ev built in
    let (id, platform, from, plain, none_) = issue_comment_event-plain delivery now p in
    subst (IsFrom delivery) same (v, id, platform, from, plain, none_)

normalize_review_comment-IsFrom :
    (delivery : Bytes) (now : ℕ) (o : Option ReviewCommentPayload) (ev : ReviewEvent)
    → normalize_review_comment delivery now o ≡ ok (some ev)
    → IsFrom delivery ev
unfolding needs_command
normalize_review_comment-IsFrom delivery now none ev h = absurd (ground (arith, h))
normalize_review_comment-IsFrom delivery now (some p) ev h =
    let (made, built) =
      if-some (not (str_eq p.action created_action))
        (validated (review_comment_event delivery now p)) ev h in
    let (v, same) = validated-ok (review_comment_event delivery now p) ev built in
    subst (IsFrom delivery) same (v, refl, refl, refl, refl, refl)

either :
    (P : Type 0) (b : Bool) (x y : Result NormalizeError (Option ReviewEvent))
    (out : Result NormalizeError (Option ReviewEvent))
    → (x ≡ out → P)
    → (y ≡ out → P)
    → (if b then x else y) ≡ out
    → P
either P true x y out f g h = f h
either P false x y out f g h = g h

-- Whatever the JSON decoder makes of a delivery: an event that `Normalize` returns is valid, its id is that of the
-- delivery, and it is of a kind without a command and carries none.
pub normalize-IsFrom :
    (decode_pull : Bytes → Option PullRequestPayload)
    (decode_issue_comment : Bytes → Option IssueCommentPayload)
    (decode_review_comment : Bytes → Option ReviewCommentPayload) (now : ℕ) (r : Request)
    (body : Bytes) (ev : ReviewEvent)
    → normalize decode_pull decode_issue_comment decode_review_comment now r body ≡ ok (some ev)
    → IsFrom (r.headers header_delivery) ev
unfolding normalize
normalize-IsFrom decode_pull decode_issue_comment decode_review_comment now r body ev =
    let delivery = r.headers header_delivery in
    let name = r.headers header_event in
    let P = IsFrom delivery ev in
    let out : Result NormalizeError (Option ReviewEvent) = ok (some ev) in
    either P (str_eq name (codes "pull_request")) _ _ out
      (normalize_pull_request-IsFrom delivery now (decode_pull body) ev)
      (either P (str_eq name (codes "issue_comment")) _ _ out
        (normalize_issue_comment-IsFrom delivery now (decode_issue_comment body) ev)
        (either P (str_eq name (codes "pull_request_review_comment")) _ _ out
          (normalize_review_comment-IsFrom delivery now (decode_review_comment body) ev)
          (λ h. absurd (ground (arith, h)))))

-- What an event about a pull request needs.
abbrev pub IsWhole : Bytes → ℕ → PullRequestPayload → Type 0
IsWhole delivery now p =
    (delivery ≢ [])
    × (p.repository.full_name ≢ [])
    × (pos 0 <ℤ p.pull_request.number)
    × (first_non_zero (p.pull_request.updated_at ∷ p.pull_request.created_at ∷ now ∷ []) ≢ 0)

-- A delivery about a pull request whose action is of a kind becomes an event exactly when it has an id, its payload
-- names the repository and a positive number, and one of the times of the pull request, or the clock, is set.
pub normalize_pull_request_iff :
    (delivery : Bytes) (now : ℕ) (p : PullRequestPayload) (kind : Kind)
    → pull_request_kind p.action p.pull_request.merged ≡ some kind
    → (normalize_pull_request delivery now (some p) ≡ ok (some (pull_event delivery now p kind)))
      ↔ IsWhole delivery now p
normalize_pull_request_iff delivery now p kind k =
    let (is_known, pull, quiet, plain) =
      pull_request_kind-IsPullKind p.action p.pull_request.merged kind k in
    rw k (
      (λ h.
          let (v, same) =
            validated-ok (pull_event delivery now p kind) (pull_event delivery now p kind) h in
          (
            v.delivery,
            v.repository,
            subst (λ a. HasSubject a none (some (normalize_pull p.pull_request))) pull v.subject,
            v.time,
          )),
      (λ (d, n, positive, t).
          let v : IsValid (pull_event delivery now p kind) = record {
            schema = refl;
            id = event_id-nonempty delivery;
            platform = (λ e. ground (arith, e));
            delivery = d;
            kind = is_known;
            repository = n;
            time = t;
            subject =
                subst (λ a. HasSubject a none (some (normalize_pull p.pull_request))) (sym pull)
                  positive;
            comment = (λ e. absurd (ground (arith, e, quiet)));
            command = (λ e. absurd (ground (arith, e, plain)));
          } in
          ap (when_valid (pull_event delivery now p kind))
            ((validate_iff (pull_event delivery now p kind)).1 v)),
    )
