-- ===== src/Reviewer/Output/Accepted.antt =====
-- What an accepted output is.
use kibitz.Prelude.{
  ℕ, suc, ◌-◌, ◌≤◌, sym, get_elem?, take, ◌≡◌, ◌↔◌, ◌⊎◌, inl, inr, refl, subst, arith, true, false,
  none, some, List, [], ◌∷◌, ok, err, is_empty, to_lower, trim_space, Each, Option-cases,
}
use kibitz.Prelude.Int.{pos, ◌≤ℤ◌}
use kibitz.Reviewer.{known_severity, OutputComment, Document}
use kibitz.Reviewer.Output.{CommentFault, in_comment, comment_fault, comments_fault, parse_output}

-- A comment that the contract allows.
pub record IsSound (c : OutputComment) : Type 0 where
  pub named : is_empty (trim_space c.path) ≡ false
  pub positive : pos 1 ≤ℤ c.line
  pub span : (c.end_line ≡ pos 0) ⊎ (c.line ≤ℤ c.end_line)
  pub worded : is_empty (trim_space c.body) ≡ false
  pub rated : known_severity (to_lower c.severity) ≡ true

comment_fault-IsSound : (c : OutputComment) → comment_fault c ≡ none → IsSound c
unfolding comment_fault
comment_fault-IsSound c e = record {
  named = ground (arith, e);
  positive = ground (arith, e);
  span = ground (arith, e);
  worded = ground (arith, e);
  rated = ground (arith, e);
}

IsSound-comment_fault : (c : OutputComment) → IsSound c → comment_fault c ≡ none
unfolding comment_fault
IsSound-comment_fault c s = ground (arith, s.named, s.positive, s.span, s.worded, s.rated)

comments_fault-Each :
    (i : ℕ) (cs : List OutputComment) → comments_fault i cs ≡ none → Each IsSound cs
unfolding comments_fault
comments_fault-Each i [] e = tt
comments_fault-Each i (c ∷ cs) e = elim (Option-cases (comment_fault c)) [
  | inl sound ↦
      (comment_fault-IsSound c sound, comments_fault-Each (suc i) cs (ground (arith, e, sound)))
  | inr (fault, bad) ↦ absurd (ground (arith, e, bad))
]

Each-comments_fault :
    (i : ℕ) (cs : List OutputComment) → Each IsSound cs → comments_fault i cs ≡ none
unfolding comments_fault
Each-comments_fault i [] h = refl
Each-comments_fault i (c ∷ cs) (s, h) =
    rw (IsSound-comment_fault c s) (Each-comments_fault (suc i) cs h)

-- An output as the contract has it.
pub record MeetsContract (out : Document) : Type 0 where
  pub version : out.schema_version ≡ pos 1
  pub summarised : is_empty (trim_space out.summary) ≡ false
  pub sound : Each IsSound out.comments

-- An output is accepted, as it is, exactly when its version is 1, its summary is not blank and each of its comments
-- names a path, a positive line and no last line before it, has a body and a severity that is known.
pub parse_output_iff : (out : Document) → (parse_output out ≡ ok out) ↔ MeetsContract out
unfolding parse_output
parse_output_iff out = (
  (λ e. record {
    version = ground (arith, e);
    summarised = ground (arith, e);
    sound =
        comments_fault-Each 0 out.comments (elim (Option-cases (comments_fault 0 out.comments)) [
          | inl sound ↦ sound
          | inr (fault, bad) ↦ absurd (ground (arith, e, bad))
        ]);
  }),
  (λ m. ground (arith, m.version, m.summarised, Each-comments_fault 0 out.comments m.sound)),
)

comments_fault-first :
    (i : ℕ) (cs : List OutputComment) (k : ℕ) (fault : CommentFault)
    → comments_fault i cs ≡ some (in_comment k fault)
    → (c : OutputComment) × (i ≤ k)
      × (get_elem? cs (k - i) ≡ some c)
      × (comment_fault c ≡ some fault)
      × Each IsSound (take (k - i) cs)
unfolding comments_fault
comments_fault-first i [] k fault e = absurd (ground (arith, e))
comments_fault-first i (c ∷ cs) k fault e = elim (Option-cases (comment_fault c)) [
  | inl sound ↦
      let (d, le, there, bad, before) =
        comments_fault-first (suc i) cs k fault (ground (arith, e, sound)) in
      let place : k - i ≡ suc (k - suc i) = omega arith in
      (d, omega arith, rw place there, bad, rw place (comment_fault-IsSound c sound, before))
  | inr (other, bad) ↦
      let same : other ≡ fault = ground (arith, e, bad) in
      let here : k ≡ i = ground (arith, e, bad) in
      let place : k - i ≡ 0 = omega arith in
      (c, omega arith, rw place refl, rw (sym same) bad, rw place tt)
]

-- An error about a comment is about the first that breaks the contract: the comment at its index has that fault,
-- and those before it have none.
pub parse_output-first :
    (out : Document) (k : ℕ) (fault : CommentFault)
    → parse_output out ≡ err (in_comment k fault)
    → (c : OutputComment) × (get_elem? out.comments k ≡ some c)
      × (comment_fault c ≡ some fault)
      × Each IsSound (take k out.comments)
unfolding parse_output
parse_output-first out k fault e =
    let (c, le, there, bad, before) =
      comments_fault-first 0 out.comments k fault (ground (arith, e)) in
    let place : k - 0 ≡ k = omega arith in
    (
      c,
      subst (λ i. get_elem? out.comments i ≡ some c) place there,
      bad,
      subst (λ i. Each IsSound (take i out.comments)) place before,
    )
