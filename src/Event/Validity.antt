-- ===== src/Event/Validity.antt =====
-- What a valid event is, with no order of checks in it.
use kibitz.Prelude.{
  ◌≡◌, ◌≢◌, ◌↔◌, refl, Option, none, some, List, [], ◌∷◌, Bool, true, false, arith, ok,
}
use kibitz.Prelude.Int.{pos, ◌<ℤ◌}
use kibitz.Event.{
  Problem, checks, concat, verdict, ReviewEvent, Issue, PullRequest, Command, known, about_issue,
  needs_comment, needs_command, problems, validate, subject_problems,
}

-- It is about an issue with a positive number and about no pull request, or the other way round.
abbrev pub HasSubject : Bool → Option Issue → Option PullRequest → Type 0
HasSubject true (some i) none = pos 0 <ℤ i.number
HasSubject false none (some p) = pos 0 <ℤ p.number
HasSubject _ _ _ = ⊥

abbrev pub HasName : Option Command → Type 0
HasName none = ⊥
HasName (some c) = c.name ≢ []

pub record IsValid (e : ReviewEvent) : Type 0 where
  pub schema : e.schema_version ≡ pos 1
  pub id : e.id ≢ []
  pub platform : e.source.platform ≢ []
  pub delivery : e.source.delivery_id ≢ []
  pub kind : known e.kind ≡ true
  pub repository : e.full_name ≢ []
  pub time : e.occurred_at ≢ 0
  pub subject : HasSubject (about_issue e.kind) e.issue e.pull_request
  pub comment : needs_comment e.kind ≡ true → e.comment ≢ none
  pub command : needs_command e.kind ≡ true → HasName e.instruction

subject_problems_iff :
    (e : ReviewEvent)
    → (subject_problems e ≡ []) ↔ HasSubject (about_issue e.kind) e.issue e.pull_request
unfolding subject_problems
subject_problems_iff e = ground arith

abbrev AllNil : List (List Problem) → Type 0
AllNil [] = Unit
AllNil (ps ∷ rest) = (ps ≡ []) × AllNil rest

concat→AllNil : (ls : List (List Problem)) → concat ls ≡ [] → AllNil ls
concat→AllNil [] h = tt
concat→AllNil ([] ∷ rest) h = (refl, concat→AllNil rest h)
concat→AllNil ((p ∷ ps) ∷ rest) h = cc

AllNil→concat : (ls : List (List Problem)) → AllNil ls → concat ls ≡ []
AllNil→concat [] h = refl
AllNil→concat ([] ∷ rest) h = AllNil→concat rest h.1
AllNil→concat ((p ∷ ps) ∷ rest) h = cc (h.0)

checks→IsValid : (e : ReviewEvent) → AllNil (checks e) → IsValid e
unfolding checks
checks→IsValid e h = record {
  schema = ground arith;
  id = ground arith;
  platform = ground arith;
  delivery = ground arith;
  kind = ground arith;
  repository = ground arith;
  time = ground arith;
  subject = (subject_problems_iff e).0 (ground arith);
  comment = ground arith;
  command = ground arith;
}

IsValid→checks : (e : ReviewEvent) → IsValid e → AllNil (checks e)
unfolding checks
IsValid→checks e v = (
  ground arith,
  (
    ground arith,
    (
      ground arith,
      (
        ground arith,
        (
          ground arith,
          (
            ground arith,
            (
              ground arith,
              ((subject_problems_iff e).1 v.subject, (ground arith, (ground arith, tt))),
            ),
          ),
        ),
      ),
    ),
  ),
)

verdict_iff : (ps : List Problem) → (verdict ps ≡ ok tt) ↔ (ps ≡ [])
verdict_iff [] = ground arith
verdict_iff (p ∷ ps) = ground arith

-- `Validate` accepts exactly the events of which `IsValid` holds.
pub validate_iff : (e : ReviewEvent) → (validate (some e) ≡ ok tt) ↔ IsValid e
unfolding validate problems
validate_iff e = (
  λ h. checks→IsValid e (concat→AllNil (checks e) ((verdict_iff (concat (checks e))).0 h)),
  λ v. (verdict_iff (concat (checks e))).1 (AllNil→concat (checks e) (IsValid→checks e v)),
)
