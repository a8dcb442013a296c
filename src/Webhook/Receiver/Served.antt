-- ===== src/Webhook/Receiver/Served.antt =====
-- What each answer of the receiver means.
use kibitz.Prelude.{
  ℕ, ◌≡◌, ◌⊎◌, inl, inr, refl, Bool, true, false, not, Option, none, some, [], ◌∷◌, if◌then◌else◌,
  Bytes, Result, ok, err, Bool-cases,
}
use kibitz.Event.{ReviewEvent}
use kibitz.Policy.Engine.{Engine, Decision, evaluate}
use kibitz.Webhook.{
  Request, Handler, VerifyError, NormalizeError, err_missing_signature, err_invalid_signature,
  err_no_secrets,
}
use kibitz.Webhook.Receiver.{
  Status, accepted, method_not_allowed, unavailable, seen, refused, react, wake, ReadError,
  max_bytes, unreadable, Response, is_refusal, attach_trace, publish_from, decided, after_publish,
  normalized, verified, read, serve,
}

module _ {Q E : Type 0} (handler : Handler) (engine : Engine)
    (send : ReviewEvent → Q → Result E Bytes × Q) (in_time : ℕ → Bool) (attempts : ℕ)
    (has_waker : Bool) (own inbound : Bytes) (now : ℕ) (r : Request) (body : Result ReadError Bytes)
    (q : Q) where
  -- The delivery was authenticated and read as an event, which is then decided on.
  abbrev pub Event : ReviewEvent → Type 0
  Event ev =
      (b : Bytes) × (r.is_post ≡ true)
      × (body ≡ ok b)
      × (handler.verify r b ≡ none)
      × (handler.normalize r b ≡ ok (some ev))

  abbrev pub Decided : ReviewEvent → Decision → ReviewEvent → Type 0
  Decided ev decision out = evaluate engine (attach_trace own inbound ev) now ≡ (decision, out)

  abbrev pub Accepted : ReviewEvent → Type 0
  Accepted out =
      (ev : ReviewEvent) × (decision : Decision) × Event ev
      × Decided ev decision out
      × (decision.publish ≡ true)
      × (is_refusal decision.reason ≡ false)

  abbrev pub Sent : ReviewEvent → Result E Bytes → Q → Type 0
  Sent out answer q' = publish_from send in_time attempts 1 out q ≡ (answer, q')

  -- What a response says, by its status.
  abbrev pub Means : Status → Response Q → Type 0
  Means accepted resp =
      (out : ReviewEvent) × (id : Bytes) × Accepted out
      × Sent out (ok id) resp.state
      × (resp.published ≡ out ∷ [])
      × (resp.afterwards ≡ react seen ∷ (if has_waker then wake ∷ [] else []))
  Means unavailable resp =
      (out : ReviewEvent) × (e : E) × Accepted out
      × Sent out (err e) resp.state
      × (resp.published ≡ [])
      × (resp.afterwards ≡ [])
  Means _ resp =
      (resp.published ≡ [])
      × (resp.state ≡ q)
      × ((resp.afterwards ≡ [])
          ⊎ ((resp.afterwards ≡ react refused ∷ [])
              × (ev : ReviewEvent) × (decision : Decision) × (out : ReviewEvent) × Event ev
              × Decided ev decision out
              × (is_refusal decision.reason ≡ true)))

  abbrev Explained : Response Q → Type 0
  Explained resp = Means resp.status resp

  after_publish-Explained :
      (out : ReviewEvent) (answer : Result E Bytes × Q)
      → Accepted out
      → publish_from send in_time attempts 1 out q ≡ answer
      → Explained (after_publish handler engine send in_time attempts has_waker out answer)
  after_publish-Explained out (err e, q') a h = (out, e, a, h, refl, refl)
  after_publish-Explained out (ok id, q') a h = (out, id, a, h, refl, refl)

  decided-Explained :
      (ev out : ReviewEvent) (decision : Decision)
      → Event ev
      → Decided ev decision out
      → Explained (decided handler engine send in_time attempts has_waker (decision, out) q)
  decided-Explained ev out decision h d = elim (Bool-cases (is_refusal decision.reason)) [
    | inl refuses ↦ rw refuses (refl, refl, inr (refl, ev, decision, out, h, d, refuses))
    | inr not_ ↦ elim (Bool-cases decision.publish) [
      | inr drops ↦ rw (not_, drops) (refl, refl, inl refl)
      | inl keeps ↦
          rw (not_, keeps)
            (after_publish-Explained out (publish_from send in_time attempts 1 out q)
              (ev, decision, h, d, keeps, not_) refl)
    ]
  ]

  normalized-Explained :
      (b : Bytes) (answer : Result NormalizeError (Option ReviewEvent))
      → r.is_post ≡ true
      → body ≡ ok b
      → handler.verify r b ≡ none
      → handler.normalize r b ≡ answer
      → Explained
          (normalized handler engine send in_time attempts has_waker own inbound now answer q)
  normalized-Explained b (err e) post sent clean h = (refl, refl, inl refl)
  normalized-Explained b (ok none) post sent clean h = (refl, refl, inl refl)
  normalized-Explained b (ok (some ev)) post sent clean h =
      let (decision, out) = evaluate engine (attach_trace own inbound ev) now in
      decided-Explained ev out decision (b, post, sent, clean, h) refl

  verified-Explained :
      (b : Bytes) (fault : Option VerifyError)
      → r.is_post ≡ true
      → body ≡ ok b
      → handler.verify r b ≡ fault
      → Explained
          (verified handler engine send in_time attempts has_waker own inbound now r b fault q)
  verified-Explained b (some err_no_secrets) post sent h = (refl, refl, inl refl)
  verified-Explained b (some err_missing_signature) post sent h = (refl, refl, inl refl)
  verified-Explained b (some err_invalid_signature) post sent h = (refl, refl, inl refl)
  verified-Explained b none post sent h =
      normalized-Explained b (handler.normalize r b) post sent h refl

  read-Explained :
      (given : Result ReadError Bytes)
      → r.is_post ≡ true
      → body ≡ given
      → Explained (read handler engine send in_time attempts has_waker own inbound now r given q)
  read-Explained (err max_bytes) post h = (refl, refl, inl refl)
  read-Explained (err unreadable) post h = (refl, refl, inl refl)
  read-Explained (ok b) post h = verified-Explained b (handler.verify r b) post h refl

  posted-Explained :
      (post : Bool)
      → r.is_post ≡ post
      → Explained (
          if not post
          then record { status = method_not_allowed; published = []; afterwards = []; state = q }
          else read handler engine send in_time attempts has_waker own inbound now r body q)
  posted-Explained true h = read-Explained body h refl
  posted-Explained false h = (refl, refl, inl refl)

pub serve-Means :
    {Q E : Type 0} (handler : Handler) (engine : Engine)
    (send : ReviewEvent → Q → Result E Bytes × Q) (in_time : ℕ → Bool) (attempts : ℕ)
    (has_waker : Bool) (own inbound : Bytes) (now : ℕ) (r : Request) (body : Result ReadError Bytes)
    (q : Q)
    → let resp = serve handler engine send in_time attempts has_waker own inbound now r body q in
      Means handler engine send in_time attempts has_waker own inbound now r body q resp.status resp
unfolding serve
serve-Means handler engine send in_time attempts has_waker own inbound now r body q =
    posted-Explained handler engine send in_time attempts has_waker own inbound now r body q
      r.is_post refl
