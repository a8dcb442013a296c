-- ===== src/RepoConfig/Settings/Narrows.antt =====
-- What a repository's file cannot do.
use kibitz.Prelude.{
  ◌≡◌, refl, sym, ap, subst, ◌∙◌, ◌⊎◌, inl, inr, arith, Bool, true, false, Option, none, some, ◌∷◌,
  ◌++◌, Bytes, Result, ok, err, is_empty, trim_space, Bool-cases,
}
use kibitz.Prelude.Int.{ℤ, ◌≤ℤ◌}
use kibitz.RepoConfig.{Implement, Review, RepoFile}
use kibitz.RepoConfig.PathFilter.{Filter, PatternFault}
use kibitz.RepoConfig.Settings.{
  Settings, ImplementSettings, trim_newlines, join_lines, outside_review, review_over, filtered,
  filter_over, lower_cap, implement_over, apply_file, with_review, is_on,
}

-- Settings that a file may have made of others.
pub record IsNarrower (base out : Settings) : Type 0 where
  pub switch_kept : out.implement.deployment_allows ≡ base.implement.deployment_allows
  pub allowed : out.implement.enabled ≡ true → base.implement.deployment_allows ≡ true
  pub cap : out.limits.max_comments ≤ℤ base.limits.max_comments
  pub size_kept : out.limits.max_body_bytes ≡ base.limits.max_body_bytes
  pub guidelines_kept :
      (is_empty (trim_space base.guidelines) ≡ true)
      ⊎ ((out.guidelines ≡ base.guidelines)
          ⊎ ((rest : Bytes) × (out.guidelines ≡ trim_newlines base.guidelines ++ 10 ∷ rest)))

lower_cap-le : (n : Option ℤ) (base : ℤ) → lower_cap n base ≤ℤ base
lower_cap-le none base = omega arith
lower_cap-le (some n) base = ground arith

implement_over-allowed :
    (i : Option Implement) (base : ImplementSettings)
    → (implement_over i base).enabled ≡ true
    → base.deployment_allows ≡ true
implement_over-allowed none base e = ground (arith, e)
implement_over-allowed (some i) base e = ground (arith, e)

implement_over-switch :
    (i : Option Implement) (base : ImplementSettings)
    → (implement_over i base).deployment_allows ≡ base.deployment_allows
implement_over-switch none base = refl
implement_over-switch (some i) base = refl

outside_review-IsNarrower :
    (c : RepoFile) (base : Settings) → IsNarrower base (outside_review c base)
unfolding join_lines
outside_review-IsNarrower c base = record {
  switch_kept = implement_over-switch c.implement base.implement;
  allowed = implement_over-allowed c.implement base.implement;
  cap = omega arith;
  size_kept = refl;
  guidelines_kept = elim (Bool-cases (is_empty (trim_space base.guidelines))) [
    | inl blank ↦ inl blank
    | inr said ↦ inr (elim (Bool-cases (is_empty (trim_space c.guidelines))) [
      | inl silent ↦ inl (rw silent refl)
      | inr more ↦ inr (trim_space c.guidelines, rw more (rw said refl))
    ])
  ];
}

filtered-IsNarrower :
    (r : Review) (base out result : Settings) (f : Result PatternFault Filter)
    → IsNarrower base out
    → filtered r out f ≡ ok result
    → IsNarrower base result
filtered-IsNarrower r base out result (err fault) n e = absurd (ground (arith, e))
filtered-IsNarrower r base out result (ok filter) n e =
    let same : with_review r filter out ≡ result = ground (arith, e) in
    subst (λ s. IsNarrower base s) same
      (record {
        switch_kept = n.switch_kept;
        allowed = n.allowed;
        cap = omega (arith, n.cap, lower_cap-le r.max_comments out.limits.max_comments);
        size_kept = n.size_kept;
        guidelines_kept = n.guidelines_kept;
      })

filtered-implement :
    (r : Review) (out result : Settings) (f : Result PatternFault Filter)
    → filtered r out f ≡ ok result
    → result.implement ≡ out.implement
filtered-implement r out result (err fault) e = absurd (ground (arith, e))
filtered-implement r out result (ok filter) e =
    let same : with_review r filter out ≡ result = ground (arith, e) in
    sym (ap (λ (s : Settings). s.implement) same)

review_over-IsNarrower :
    (r : Option Review) (base out result : Settings)
    → IsNarrower base out
    → review_over r out ≡ ok result
    → IsNarrower base result × (result.implement ≡ out.implement)
review_over-IsNarrower none base out result n e =
    let same : out ≡ result = ground (arith, e) in
    (subst (λ s. IsNarrower base s) same n, sym (ap (λ (s : Settings). s.implement) same))
review_over-IsNarrower (some r) base out result n e = (
  filtered-IsNarrower r base out result (filter_over r.paths_ignore out.paths_ignore) n e,
  filtered-implement r out result (filter_over r.paths_ignore out.paths_ignore) e,
)

asked_for :
    (i : Option Implement) (base : ImplementSettings)
    → (implement_over i base).enabled ≡ true
    → (j : Implement) × (i ≡ some j) × (j.enabled ≡ some true)
asked_for none base e = absurd (ground (arith, e))
asked_for (some i) base e = (i, refl, said i.enabled (ground (arith, e)))
  where
    said : (b : Option Bool) → is_on b ≡ true → b ≡ some true
    said none h = absurd (ground (arith, h))
    said (some true) h = refl
    said (some false) h = absurd (ground (arith, h))

-- A repository's file cannot give itself more than the deployment does: with it, the mode that writes code is on
-- only where the deployment allows it and the file asks for it, the cap on comments is no higher, the size of a
-- finding is the deployment's, and its guidelines stand first, where it has any.
pub apply_file-IsNarrower :
    (c : RepoFile) (base result : Settings)
    → apply_file (some c) base ≡ ok result
    → IsNarrower base result
      × (result.implement.enabled ≡ true
          → (i : Implement) × (c.implement ≡ some i) × (i.enabled ≡ some true))
unfolding apply_file
apply_file-IsNarrower c base result e =
    let (narrower, same) =
      review_over-IsNarrower c.review base (outside_review c base) result
        (outside_review-IsNarrower c base) e in
    (
      narrower,
      λ on.
          asked_for c.implement base.implement
            (ap (λ (i : ImplementSettings). i.enabled) (sym same) ∙ on),
    )
