-- ===== src/Event/Keys.antt =====
-- Ordering keys of valid events.
use mathlib.Core.List.{append_cancel_left}
use kibitz.Prelude.{
  ◌≡◌, refl, Option, none, some, ◌∷◌, ◌++◌, Bool, true, false, arith, Bytes, codes,
}
use kibitz.Prelude.Int.{ℤ, pos}
use kibitz.Prelude.Decimal.{format_int, format_int-injective, format_int-head, IsI64}
use kibitz.Event.{ReviewEvent, Issue, PullRequest, about_issue, key, key_tail, slash}
use kibitz.Event.Validity.{IsValid, HasSubject}

-- The number of what the event is about.
abbrev pub number_of : Option Issue → Option PullRequest → ℤ
number_of (some i) p = i.number
number_of none (some p) = p.number
number_of none none = pos 0

key_tail-injective :
    (x y : Bool) (i j : Option Issue) (p q : Option PullRequest)
    → HasSubject x i p
    → HasSubject y j q
    → IsI64 (number_of i p)
    → IsI64 (number_of j q)
    → key_tail i p ≡ key_tail j q
    → (x ≡ y) × (number_of i p ≡ number_of j q)
key_tail-injective true true (some i) (some j) none none hi hj bi bj e =
    (refl, format_int-injective i.number j.number bi bj (cc))
key_tail-injective false false none none (some p) (some q) hi hj bi bj e =
    (refl, format_int-injective p.number q.number bi bj (cc))
key_tail-injective true false (some i) none none (some q) hi hj bi bj e =
    absurd (format_int-head q.number (codes "ssue/" ++ format_int i.number) (cc))
key_tail-injective false true none (some j) (some p) none hi hj bi bj e =
    absurd (format_int-head p.number (codes "ssue/" ++ format_int j.number) (cc))
key_tail-injective _ _ _ _ _ _ hi hj bi bj e = ground arith

tail_of_key :
    (p q f g t u : Bytes) → p ≡ q → f ≡ g → p ++ (slash ∷ f ++ t) ≡ q ++ (slash ∷ g ++ u) → t ≡ u
tail_of_key p q f g t u same_platform same_repo e =
    let after = append_cancel_left p (slash ∷ f ++ t) (slash ∷ f ++ u) (cc) in
    append_cancel_left f t u (cc after)

-- Two valid events of one repository of one platform have the same key only if both are about an
-- issue or both about a pull request, and of the same number: issue 42 never waits for pull request 42.
pub key-injective :
    (a b : ReviewEvent)
    → IsValid a
    → IsValid b
    → a.source.platform ≡ b.source.platform
    → a.full_name ≡ b.full_name
    → IsI64 (number_of a.issue a.pull_request)
    → IsI64 (number_of b.issue b.pull_request)
    → key a ≡ key b
    → (about_issue a.kind ≡ about_issue b.kind)
      × (number_of a.issue a.pull_request ≡ number_of b.issue b.pull_request)
unfolding key
key-injective a b va vb same_platform same_repo ra rb e =
    key_tail-injective (about_issue a.kind) (about_issue b.kind) a.issue b.issue a.pull_request
      b.pull_request va.subject vb.subject ra rb
      (tail_of_key a.source.platform b.source.platform a.full_name b.full_name _ _ same_platform
        same_repo e)
