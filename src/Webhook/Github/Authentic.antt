-- ===== src/Webhook/Github/Authentic.antt =====
-- Whose deliveries are let through.
use kibitz.Prelude.{
  ℕ, ◌∙◌, Result, ok, ◌≡◌, ◌≢◌, ◌↔◌, refl, sym, arith, ap, subst, Bool, true, false, Option, none,
  some, List, [], ◌∷◌, ◌++◌, is_empty, any, drop, length, if◌then◌else◌, Bytes, str_eq, str_eq→eq,
  str_eq_refl, has_prefix, Bool-cases, inl, inr,
}
use kibitz.Event
use kibitz.Event.{ReviewEvent, Kind, Command, validate}
use kibitz.Event.Validity.{IsValid, validate_iff}
use kibitz.Policy.Command.{parse_command}
use kibitz.Policy.Engine.{Engine, Decision, evaluate, promote}
use kibitz.Policy.Engine.Decisions.{Asked, evaluate-Explained}
use kibitz.Policy.Engine.Promotion.{evaluate-keeps_valid}
use kibitz.Webhook.{Request, Handler}
use kibitz.Webhook.Receiver.{accepted, attach_trace, serve}
use kibitz.Webhook.Receiver.Served.{Means, serve-Means}
use kibitz.Webhook.Github.Complete.{normalize-IsFrom}
use kibitz.Webhook.Github.{
  PullRequestPayload, IssueCommentPayload, ReviewCommentPayload, normalize, header_delivery,
  event_id, header_signature, signature_prefix, against, verify_header, verify,
}

any-found :
    (f : Bytes → Bool) (xs : List Bytes)
    → any f xs ≡ true
    → (front : List Bytes) × (x : Bytes) × (back : List Bytes) × (xs ≡ front ++ x ∷ back)
      × (f x ≡ true)
any-found f [] h = absurd (ground (arith, h))
any-found f (x ∷ xs) h = elim (Bool-cases (f x)) [
  | inl here ↦ ([], x, xs, refl, here)
  | inr not_ ↦
      let (front, y, back, same, there) = any-found f xs (ground (arith, h, not_)) in
      (x ∷ front, y, back, ap (λ l. x ∷ l) same, there)
]

found-any :
    (f : Bytes → Bool) (front : List Bytes) (x : Bytes) (back : List Bytes)
    → f x ≡ true
    → any f (front ++ x ∷ back) ≡ true
found-any f [] x back h = ground (arith, h)
found-any f (y ∷ front) x back h = ground (arith, found-any f front x back h)

never_empty : (front : List Bytes) (x : Bytes) (back : List Bytes) → [] ≢ front ++ x ∷ back
never_empty [] x back h = ground (arith, h)
never_empty (y ∷ front) x back h = ground (arith, h)

prefix-split : (s t : Bytes) → has_prefix s t ≡ true → s ≡ t ++ drop (length t) s
prefix-split s [] h = refl
prefix-split [] (d ∷ t) h = absurd (ground (arith, h))
prefix-split (c ∷ s) (d ∷ t) h = ground (arith, h, prefix-split s t (ground (arith, h)))

module _ (mac : Bytes → Bytes → Bytes) (decode_hex : Bytes → Option Bytes) where
  -- The header has the code of the body under one of the secrets.
  abbrev pub IsSigned : List Bytes → Request → Bytes → Type 0
  IsSigned secrets r body =
      (digits : Bytes) × (front : List Bytes) × (secret : Bytes) × (back : List Bytes) × (r.headers
          header_signature
        ≡ signature_prefix ++ digits)
      × (secrets ≡ front ++ secret ∷ back)
      × (decode_hex digits ≡ some (mac secret body))

  abbrev Matches : List Bytes → Bytes → Option Bytes → Type 0
  Matches secrets body o =
      (front : List Bytes) × (secret : Bytes) × (back : List Bytes) × (secrets
        ≡ front ++ secret ∷ back)
      × (o ≡ some (mac secret body))

  against_iff :
      (secrets : List Bytes) (body : Bytes) (o : Option Bytes)
      → (against mac decode_hex secrets body o ≡ none) ↔ Matches secrets body o
  against_iff secrets body none = (
    (λ h. absurd (ground (arith, h))),
    (λ (front, secret, back, same, h). absurd (ground (arith, h))),
  )
  against_iff secrets body (some want) = (
    (λ h.
        let (front, secret, back, same, eq) =
          any-found (λ s. str_eq (mac s body) want) secrets (ground (arith, h)) in
        (front, secret, back, same, ap some (sym (str_eq→eq (mac secret body) want eq)))),
    (λ (front, secret, back, same, h).
        let code : mac secret body ≡ want = ground (arith, h) in
        let eq : str_eq (mac secret body) want ≡ true =
          subst (λ w. str_eq (mac secret body) w ≡ true) code (str_eq_refl (mac secret body)) in
        let all : any (λ s. str_eq (mac s body) want) secrets ≡ true =
          subst (λ l. any (λ s. str_eq (mac s body) want) l ≡ true) (sym same)
            (found-any (λ s. str_eq (mac s body) want) front secret back eq) in
        rw all refl),
  )

  with_digits_iff :
      (secrets : List Bytes) (digits body : Bytes)
      → (verify_header mac decode_hex secrets (signature_prefix ++ digits) body ≡ none)
        ↔ Matches secrets body (decode_hex digits)
  with_digits_iff [] digits body = (
    (λ h. absurd (ground (arith, h))),
    (λ (front, secret, back, same, h). absurd (never_empty front secret back same)),
  )
  with_digits_iff (s ∷ secrets) digits body = against_iff (s ∷ secrets) body (decode_hex digits)

  verify_header-prefixed :
      (secrets : List Bytes) (header body : Bytes)
      → verify_header mac decode_hex secrets header body ≡ none
      → has_prefix header signature_prefix ≡ true
  verify_header-prefixed secrets header body h =
      elim (Bool-cases (has_prefix header signature_prefix)) [
        | inl good ↦ good
        | inr bad ↦ absurd (ground (arith, bad, h))
      ]

-- A delivery passes verification exactly when its signature header is the prefix and the digits of the code of the raw
-- body under one of the secrets that the handler holds.
pub verify_iff :
    (mac : Bytes → Bytes → Bytes) (decode_hex : Bytes → Option Bytes) (secrets : List Bytes)
    (r : Request) (body : Bytes)
    → (verify mac decode_hex secrets r body ≡ none) ↔ IsSigned mac decode_hex secrets r body
unfolding verify
verify_iff mac decode_hex secrets r body = (
  (λ h.
      let header = r.headers header_signature in
      let digits = drop (length signature_prefix) header in
      let split_ =
        prefix-split header signature_prefix
          (verify_header-prefixed mac decode_hex secrets header body h) in
      let (front, secret, back, same, code) =
        (with_digits_iff mac decode_hex secrets digits body).0
          (subst (λ x. verify_header mac decode_hex secrets x body ≡ none) split_ h) in
      (digits, front, secret, back, split_, same, code)),
  (λ (digits, front, secret, back, split_, same, code).
      subst (λ x. verify_header mac decode_hex secrets x body ≡ none) (sym split_)
        ((with_digits_iff mac decode_hex secrets digits body).1 (front, secret, back, same, code))),
)

-- What a receiver for GitHub says with 202.
module _ (mac : Bytes → Bytes → Bytes) (decode_hex : Bytes → Option Bytes)
    (decode_pull : Bytes → Option PullRequestPayload)
    (decode_issue_comment : Bytes → Option IssueCommentPayload)
    (decode_review_comment : Bytes → Option ReviewCommentPayload) (clock : ℕ)
    (secrets : List Bytes) where
  -- The handler that `New` makes, at a reading of its clock
  abbrev pub github_handler : Handler
  github_handler = record {
    verify = verify mac decode_hex secrets;
    normalize = normalize decode_pull decode_issue_comment decode_review_comment clock;
  }

abbrev Named : Bytes → ReviewEvent → Type 0
Named id ev = IsValid ev × (ev.id ≡ id)

if-Named :
    (b : Bool) (id : Bytes) (x y : ReviewEvent)
    → Named id x
    → Named id y
    → Named id (if b then x else y)
if-Named true id x y h k = h
if-Named false id x y h k = k

traced-IsValid :
    (ev : ReviewEvent) (parent : Option Bytes)
    → IsValid ev
    → IsValid (record ev { trace_parent = parent })
traced-IsValid ev parent v = record {
  schema = v.schema;
  id = v.id;
  platform = v.platform;
  delivery = v.delivery;
  kind = v.kind;
  repository = v.repository;
  time = v.time;
  subject = v.subject;
  comment = v.comment;
  command = v.command;
}

attach_trace-Named :
    (own inbound id : Bytes) (ev : ReviewEvent)
    → Named id ev
    → Named id (attach_trace own inbound ev)
unfolding attach_trace
attach_trace-Named own inbound id ev (v, same) =
    let parent = if is_empty own then inbound else own in
    if-Named (is_empty parent) id ev (record ev { trace_parent = some parent }) (v, same)
      (traced-IsValid ev (some parent) v, same)

promote-id : (ev : ReviewEvent) (o : Option Command) → (promote ev o).id ≡ ev.id
promote-id ev none = refl
promote-id ev (some cmd) = refl

Asked-id :
    (e : Engine) (ev out : ReviewEvent) (now : ℕ) (k : Kind) → Asked e ev now k out → out.id ≡ ev.id
Asked-id e ev out now Event.issue_comment (c, cmd, asks, p, i, eq) =
    ap (λ (x : ReviewEvent). x.id) eq
Asked-id e ev out now Event.comment_created (c, asks, eq) =
    ap (λ (x : ReviewEvent). x.id) eq ∙ promote-id ev (parse_command c.body e.mention)
Asked-id e ev out now Event.command eq = ap (λ (x : ReviewEvent). x.id) eq
Asked-id e ev out now _ asked = ap (λ (x : ReviewEvent). x.id) asked.1

-- What the policy leaves of an event that it publishes.
evaluate-id : (e : Engine) (ev : ReviewEvent) (now : ℕ) → (evaluate e ev now).1.id ≡ ev.id
evaluate-id e ev now = elim (evaluate-Explained e ev now) [
  | inl (p, a, ad, asked) ↦ Asked-id e ev (evaluate e ev now).1 now ev.kind asked
  | inr (p, a, same) ↦ ap (λ (x : ReviewEvent). x.id) same
]

decided-Named :
    (e : Engine) (ev out : ReviewEvent) (now : ℕ) (decision : Decision) (id : Bytes)
    → evaluate e ev now ≡ (decision, out)
    → Named id ev
    → (validate (some out) ≡ ok tt) × (out.id ≡ id)
decided-Named e ev out now decision id h (v, same) =
    let left : (evaluate e ev now).1 ≡ out = ap (λ (p : Decision × ReviewEvent). p.1) h in
    (
      subst (λ x. validate (some x) ≡ ok tt) left
          (evaluate-keeps_valid e ev now ((validate_iff ev).1 v)),
      sym (ap (λ (x : ReviewEvent). x.id) left) ∙ evaluate-id e ev now ∙ same,
    )

-- What GitHub's receiver publishes with a 202: the body was signed with one of the secrets, and the event, the one
-- published, is valid and has the id of the delivery, so that a delivery that is sent twice keeps its id. The policy
-- and the publisher may be any.
pub serve-IsSigned :
    {Q E : Type 0} (mac : Bytes → Bytes → Bytes) (decode_hex : Bytes → Option Bytes)
    (decode_pull : Bytes → Option PullRequestPayload)
    (decode_issue_comment : Bytes → Option IssueCommentPayload)
    (decode_review_comment : Bytes → Option ReviewCommentPayload) (clock : ℕ) (secrets : List Bytes)
    (engine : Engine) (send : ReviewEvent → Q → Result E Bytes × Q) (in_time : ℕ → Bool)
    (attempts : ℕ) (has_waker : Bool) (own inbound : Bytes) (now : ℕ) (r : Request) (body : Bytes)
    (q : Q)
    → let handler =
        github_handler mac decode_hex decode_pull decode_issue_comment decode_review_comment clock
          secrets in
      let resp =
        serve handler engine send in_time attempts has_waker own inbound now r (ok body) q in
      resp.status ≡ accepted
      → IsSigned mac decode_hex secrets r body
        × ((ev : ReviewEvent) × (resp.published ≡ ev ∷ [])
            × (validate (some ev) ≡ ok tt)
            × (ev.id ≡ event_id (r.headers header_delivery)))
serve-IsSigned mac decode_hex decode_pull decode_issue_comment decode_review_comment clock secrets
      engine send in_time attempts has_waker own inbound now r body q h =
    let handler =
      github_handler mac decode_hex decode_pull decode_issue_comment decode_review_comment clock
        secrets in
    let resp = serve handler engine send in_time attempts has_waker own inbound now r (ok body) q in
    let (
      out,
      id,
      (ev, decision, (b, post, read_, clean, made), decided_, keeps, not_),
      sent,
      published,
      after_,
    ) =
      subst
        (λ st.
          Means handler engine send in_time attempts has_waker own inbound now r (ok body) q st
            resp)
        h
        (serve-Means handler engine send in_time attempts has_waker own inbound now r (ok body)
          q) in
    let same : b ≡ body = ground (arith, read_) in
    let (valid, named, _, _, _, _) =
      normalize-IsFrom decode_pull decode_issue_comment decode_review_comment clock r b ev made in
    (
      (verify_iff mac decode_hex secrets r body).0
          (subst (λ x. verify mac decode_hex secrets r x ≡ none) same clean),
      let (holds, id_) =
            decided-Named engine (attach_trace own inbound ev) out now decision
              (event_id (r.headers header_delivery)) decided_
              (attach_trace-Named own inbound (event_id (r.headers header_delivery)) ev
                (valid, named)) in
          (out, published, holds, id_),
    )
