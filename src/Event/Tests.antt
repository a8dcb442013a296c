-- ===== src/Event/Tests.antt =====
-- Events run through the model.
use kibitz.Prelude.{
  ℕ, ◌≤◌, ◌<◌, ◌≡◌, ◌≢◌, refl, arith, Option, none, some, List, [], ◌∷◌, Bool, true, false, Bytes,
  codes, Result, ok, err,
}
use kibitz.Event.{validate, about_issue, key, invalid, comment_missing}
use kibitz.Event.Validity.{IsValid, validate_iff}
use kibitz.Event.Keys.{number_of, key-injective}
use kibitz.Event.Samples.{pushed, plan_asked}
use mathlib.Core.Logic.{◌↔◌}

pushed-valid : validate (some pushed) ≡ ok tt
unfolding validate
pushed-valid = refl

comment-less :
    validate (some (record plan_asked { comment = none })) ≡ err (invalid (comment_missing ∷ []))
unfolding validate
comment-less = refl

keys_of_42 : (key pushed ≡ codes "github/o/r/42") × (key plan_asked ≡ codes "github/o/r/issue/42")
unfolding key kibitz.Prelude.Decimal.format_int
keys_of_42 = (refl, refl)

pushed-IsValid : IsValid pushed
pushed-IsValid = (validate_iff pushed).0 pushed-valid

validate_iff_example : (validate (some pushed) ≡ ok tt) ↔ IsValid pushed
validate_iff_example = validate_iff pushed

key-injective_example :
    (about_issue pushed.kind ≡ about_issue pushed.kind)
    × (number_of pushed.issue pushed.pull_request ≡ number_of pushed.issue pushed.pull_request)
key-injective_example =
    key-injective pushed pushed pushed-IsValid pushed-IsValid refl refl (omega arith) (omega arith)
      refl
