-- ===== src/Webhook/Receiver.antt =====
-- internal/webhook/receiver.go: `ServeHTTP` with `publish` and `attachTrace`. The publisher is a parameter, on a state of
-- its own; so is whether the wait before another attempt ends in time. What the reaction and the waker do is left
-- out, but not that they are called.
pub mod Served
use kibitz.Prelude.{
  ℕ, zero, suc, ◌==◌, Bool, true, false, not, Option, none, some, List, [], ◌∷◌, is_empty,
  if◌then◌else◌, Bytes, Result, ok, err,
}
use kibitz.Prelude.Int.{ℤ, pos, negsuc}
use kibitz.Event.{ReviewEvent}
use kibitz.Policy.Engine.{Engine, Decision, Reason, actor_not_allowed, evaluate}
use kibitz.Webhook.{
  Request, Handler, VerifyError, NormalizeError, err_missing_signature, err_invalid_signature,
  err_no_secrets,
}

pub data Status : Type 0 where
  accepted no_content bad_request unauthorized method_not_allowed too_large : Status
  internal_error unavailable : Status

pub data Reaction : Type 0 where
  seen refused : Reaction

-- What is done after the answer.
pub data After : Type 0 where
  react : Reaction → After
  wake : After

pub data ReadError : Type 0 where
  max_bytes unreadable : ReadError

pub record Response (Q : Type 0) : Type 0 where
  pub status : Status
  pub published : List ReviewEvent
  pub afterwards : List After
  pub state : Q

-- `WithPublishRetry` on top of the default
unfoldable pub attempts_of : ℤ → ℕ
attempts_of (pos zero) = 3
attempts_of (pos (suc n)) = suc n
attempts_of (negsuc n) = 3

-- `Decision.Refused`
unfoldable pub is_refusal : Reason → Bool
is_refusal actor_not_allowed = true
is_refusal _ = false

-- The traceparent that is written onto the event: that of kibitz's own trace, or the caller's.
unfoldable pub attach_trace : Bytes → Bytes → ReviewEvent → ReviewEvent
attach_trace own inbound ev =
    let parent = if is_empty own then inbound else own in
    if is_empty parent then ev else record ev { trace_parent = some parent }

module _ {Q E : Type 0} (send : ReviewEvent → Q → Result E Bytes × Q) (in_time : ℕ → Bool) where
  -- The loop of `publish`, with the attempts that are left and the number of this one.
  unfoldable pub publish_from : ℕ → ℕ → ReviewEvent → Q → Result E Bytes × Q
  publish_from zero attempt ev q = (ok [], q)
  publish_from (suc left) attempt ev q =
      let (r, q') = send ev q in
      let again = publish_from left (suc attempt) ev q' in
      elim r [
        | ok id ↦ (ok id, q')
        | err e ↦
            if left == 0 then (err e, q') else (if in_time attempt then again else (err e, q'))
      ]

module _ {Q E : Type 0} (handler : Handler) (engine : Engine)
    (send : ReviewEvent → Q → Result E Bytes × Q) (in_time : ℕ → Bool) (attempts : ℕ)
    (has_waker : Bool) where
  abbrev rejects : Status → Q → Response Q
  rejects status q = record { status = status; published = []; afterwards = []; state = q }

  abbrev pub status_of : VerifyError → Status
  status_of err_no_secrets = internal_error
  status_of err_missing_signature = bad_request
  status_of err_invalid_signature = unauthorized

  abbrev pub after_publish : ReviewEvent → Result E Bytes × Q → Response Q
  after_publish ev (err e, q) = rejects unavailable q
  after_publish ev (ok id, q) = record {
    status = accepted;
    published = ev ∷ [];
    afterwards = react seen ∷ (if has_waker then wake ∷ [] else []);
    state = q;
  }

  abbrev pub decided : Decision × ReviewEvent → Q → Response Q
  decided (decision, ev) q =
      if is_refusal decision.reason
      then record {
        status = no_content;
        published = [];
        afterwards = react refused ∷ [];
        state = q;
      }
      else if not decision.publish
      then rejects no_content q
      else after_publish ev (publish_from send in_time attempts 1 ev q)

  abbrev pub normalized :
      Bytes → Bytes → ℕ → Result NormalizeError (Option ReviewEvent) → Q → Response Q
  normalized own inbound now (err e) q = rejects bad_request q
  normalized own inbound now (ok none) q = rejects no_content q
  normalized own inbound now (ok (some ev)) q =
      decided (evaluate engine (attach_trace own inbound ev) now) q

  abbrev pub verified : Bytes → Bytes → ℕ → Request → Bytes → Option VerifyError → Q → Response Q
  verified own inbound now r body (some e) q = rejects (status_of e) q
  verified own inbound now r body none q = normalized own inbound now (handler.normalize r body) q

  abbrev pub read : Bytes → Bytes → ℕ → Request → Result ReadError Bytes → Q → Response Q
  read own inbound now r (err max_bytes) q = rejects too_large q
  read own inbound now r (err unreadable) q = rejects bad_request q
  read own inbound now r (ok body) q = verified own inbound now r body (handler.verify r body) q

  -- `ServeHTTP`, with the two traces, the time and the body that was read
  unfoldable pub serve : Bytes → Bytes → ℕ → Request → Result ReadError Bytes → Q → Response Q
  unfolding publish_from is_refusal
  serve own inbound now r body q =
      if not r.is_post then rejects method_not_allowed q else read own inbound now r body q
