-- ===== src/Reviewer/Sanitize/Ranked.antt =====
-- The most serious findings survive, each once.
use kibitz.Prelude.{
  ℕ, suc, ◌≤◌, ◌≡◌, ◌≢◌, sym, ap, arith, leb, true, List, [], ◌∷◌, ◌++◌, any, take, drop, Bytes,
  str_eq, str_eq_refl, Bool-cases, inl, inr, Each, Each-take, Each-drop, Each-append, Each-mono,
  zero, to_lower,
}
use kibitz.Prelude.Int.{pos_part}
use kibitz.Prelude.Decimal.{format_int}
use kibitz.Reviewer.{OutputComment, Finding}
use kibitz.Reviewer.Positions.{Positions, allows_line}
use kibitz.Reviewer.Sanitize.{
  Limits, Tally, finding_key, finding, too_minor, consider, consider_all, no_tally, rank, insert,
  sort_stable, sanitize,
}
use kibitz.Reviewer.Sanitize.Postable.{Each-insert, Each-sort_stable}

abbrev pub AllRanked : List Finding → Type 0
AllRanked [] = Unit
AllRanked (f ∷ fs) = Each (λ g. rank f ≤ rank g) fs × AllRanked fs

-- The path, the line and the title with no regard to case.
abbrev pub identity : Finding → Bytes
identity f = f.path ++ b':' ∷ format_int f.line ++ b':' ∷ to_lower f.title

abbrev pub AllDistinct : List Finding → Type 0
AllDistinct [] = Unit
AllDistinct (f ∷ fs) = Each (λ g. identity f ≢ identity g) fs × AllDistinct fs

insert-AllRanked : (f : Finding) (fs : List Finding) → AllRanked fs → AllRanked (insert f fs)
unfolding insert
insert-AllRanked f [] h = (tt, tt)
insert-AllRanked f (g ∷ gs) (least, h) = elim (Bool-cases (leb (rank f) (rank g))) [
  | inl le ↦
      rw le ((ground (arith, le), Each-mono gs least (λ x p. ground (arith, le, p))), (least, h))
  | inr gt ↦
      rw gt (
        Each-insert (λ x. rank g ≤ rank x) f gs (ground (arith, gt)) least,
        insert-AllRanked f gs h,
      )
]

sort_stable-AllRanked : (fs : List Finding) → AllRanked (sort_stable fs)
unfolding sort_stable
sort_stable-AllRanked [] = tt
sort_stable-AllRanked (f ∷ fs) = insert-AllRanked f (sort_stable fs) (sort_stable-AllRanked fs)

insert-AllDistinct :
    (f : Finding) (fs : List Finding)
    → Each (λ g. identity f ≢ identity g) fs
    → AllDistinct fs
    → AllDistinct (insert f fs)
unfolding insert
insert-AllDistinct f [] other h = (tt, tt)
insert-AllDistinct f (g ∷ gs) (ne, other) (apart, h) = elim (Bool-cases (leb (rank f) (rank g))) [
  | inl le ↦ rw le ((ne, other), (apart, h))
  | inr gt ↦ rw gt (
    Each-insert (λ x. identity g ≢ identity x) f gs (λ e. ne (sym e)) apart,
    insert-AllDistinct f gs other h,
  )
]

sort_stable-AllDistinct : (fs : List Finding) → AllDistinct fs → AllDistinct (sort_stable fs)
unfolding sort_stable
sort_stable-AllDistinct [] h = tt
sort_stable-AllDistinct (f ∷ fs) (other, h) =
    insert-AllDistinct f (sort_stable fs) (Each-sort_stable (λ g. identity f ≢ identity g) fs other)
      (sort_stable-AllDistinct fs h)

take-AllRanked : (n : ℕ) (fs : List Finding) → AllRanked fs → AllRanked (take n fs)
take-AllRanked zero fs h = tt
take-AllRanked (suc n) [] h = tt
take-AllRanked (suc n) (f ∷ fs) (least, h) =
    (Each-take (λ g. rank f ≤ rank g) n fs least, take-AllRanked n fs h)

take-AllDistinct : (n : ℕ) (fs : List Finding) → AllDistinct fs → AllDistinct (take n fs)
take-AllDistinct zero fs h = tt
take-AllDistinct (suc n) [] h = tt
take-AllDistinct (suc n) (f ∷ fs) (other, h) =
    (Each-take (λ g. identity f ≢ identity g) n fs other, take-AllDistinct n fs h)

-- What the cap cuts off is no more serious than what it leaves.
cap-ranked :
    (n : ℕ) (fs : List Finding)
    → AllRanked fs
    → Each (λ f. Each (λ g. rank f ≤ rank g) (drop n fs)) (take n fs)
cap-ranked zero fs h = tt
cap-ranked (suc n) [] h = tt
cap-ranked (suc n) (f ∷ fs) (least, h) =
    (Each-drop (λ g. rank f ≤ rank g) n fs least, cap-ranked n fs h)

append-AllDistinct :
    (fs : List Finding) (g : Finding)
    → AllDistinct fs
    → Each (λ f. identity f ≢ identity g) fs
    → AllDistinct (fs ++ g ∷ [])
append-AllDistinct [] g h other = (tt, tt)
append-AllDistinct (f ∷ fs) g (apart, h) (ne, other) = (
  Each-append (λ x. identity f ≢ identity x) fs (g ∷ []) apart (ne, tt),
  append-AllDistinct fs g h other,
)

module _ (p : Positions) (limits : Limits) where
  -- Every candidate's key has been seen, and no two are the same.
  abbrev Known : Tally → Type 0
  Known t =
      AllDistinct t.candidates × Each (λ f. any (str_eq (identity f)) t.seen ≡ true) t.candidates

  consider-Known : (c : OutputComment) (t : Tally) → Known t → Known (consider p limits c t)
  unfolding consider finding_key
  consider-Known c t (h, seen) = elim (Bool-cases (too_minor limits c)) [
    | inl minor ↦ rw minor (h, seen)
    | inr major ↦ rw major (elim (Bool-cases (allows_line p c.path c.line)) [
      | inr outside ↦ rw outside (h, seen)
      | inl inside ↦
          rw inside (elim (Bool-cases (any (str_eq (finding_key c.path c.line c.title)) t.seen)) [
            | inl again ↦ rw again (h, seen)
            | inr fresh ↦ rw fresh (
              append-AllDistinct t.candidates (finding p limits c) h (
                  Each-mono t.candidates seen
                    (λ f known e. cc (ap (λ k. any (str_eq k) t.seen) e, known, fresh))),
              Each-append _ t.candidates _
                  (Each-mono t.candidates seen (λ f known. ground (arith, known)))
                  (ground (arith, str_eq_refl (finding_key c.path c.line c.title)), tt),
            )
          ])
    ])
  ]

  consider_all-Known :
      (cs : List OutputComment) (t : Tally) → Known t → Known (consider_all p limits cs t)
  unfolding consider_all
  consider_all-Known [] t h = h
  consider_all-Known (c ∷ cs) t h =
      consider_all-Known cs (consider p limits c t) (consider-Known c t h)

-- The findings that survive stand by rank, the most serious first; no two are about the same path and line under
-- the same title, letter case aside; and every one that the cap cuts off ranks no higher than each that is left.
pub sanitize-AllRanked :
    (comments : List OutputComment) (p : Positions) (limits : Limits)
    → AllRanked (sanitize comments p limits).findings
      × AllDistinct (sanitize comments p limits).findings
      × Each
          (λ f.
            Each
              (λ g. rank f ≤ rank g)
              (drop
                (pos_part limits.max_comments)
                (sort_stable (consider_all p limits comments no_tally).candidates)))
          (sanitize comments p limits).findings
unfolding sanitize
sanitize-AllRanked comments p limits =
    let cap = pos_part limits.max_comments in
    let (distinct, seen) = consider_all-Known p limits comments no_tally (tt, tt) in
    let fs = (consider_all p limits comments no_tally).candidates in
    let ranked = sort_stable-AllRanked fs in
    (
      take-AllRanked cap (sort_stable fs) ranked,
      take-AllDistinct cap (sort_stable fs) (sort_stable-AllDistinct fs distinct),
      cap-ranked cap (sort_stable fs) ranked,
    )
