-- ===== src/Reviewer/Sanitize/Counted.antt =====
-- No finding is lost uncounted.
use kibitz.Prelude.{
  ℕ, suc, ◌+◌, ◌≤◌, ◌≡◌, refl, arith, List, [], ◌∷◌, length, length-take, length-append,
}
use kibitz.Prelude.Int.{pos_part}
use kibitz.Reviewer.{OutputComment, Finding}
use kibitz.Reviewer.Positions.{Positions}
use kibitz.Reviewer.Sanitize.{
  Limits, Tally, finding, consider, consider_all, no_tally, insert, sort_stable, total_dropped,
  sanitize,
}

abbrev counted : Tally → ℕ
counted t = length t.candidates + t.out_of_diff + t.below_severity + t.duplicate

module _ (p : Positions) (limits : Limits) where
  consider-counted :
      (c : OutputComment) (t : Tally) → counted (consider p limits c t) ≡ suc (counted t)
  unfolding consider
  consider-counted c t = ground (arith, length-append t.candidates (finding p limits c ∷ []))

  consider_all-counted :
      (cs : List OutputComment) (t : Tally)
      → counted (consider_all p limits cs t) ≡ length cs + counted t
  unfolding consider_all
  consider_all-counted [] t = omega arith
  consider_all-counted (c ∷ cs) t =
      omega (arith, consider_all-counted cs (consider p limits c t), consider-counted c t)

length-insert : (f : Finding) (fs : List Finding) → length (insert f fs) ≡ suc (length fs)
unfolding insert
length-insert f [] = refl
length-insert f (g ∷ gs) = ground (arith, length-insert f gs)

pub length-sort_stable : (fs : List Finding) → length (sort_stable fs) ≡ length fs
unfolding sort_stable
length-sort_stable [] = refl
length-sort_stable (f ∷ fs) = omega (arith, length-insert f (sort_stable fs), length-sort_stable fs)

-- The findings that survive and those that the four counts say were dropped are as many as the agent wrote, and no
-- more survive than the cap, which is zero where it is below zero.
pub sanitize-dropped :
    (comments : List OutputComment) (p : Positions) (limits : Limits)
    → (length (sanitize comments p limits).findings + total_dropped (sanitize comments p limits)
        ≡ length comments)
      × (length (sanitize comments p limits).findings ≤ pos_part limits.max_comments)
unfolding sanitize
sanitize-dropped comments p limits =
    let t = consider_all p limits comments no_tally in
    omega (
      arith,
      consider_all-counted p limits comments no_tally,
      length-sort_stable t.candidates,
      length-take (pos_part limits.max_comments) (sort_stable t.candidates),
    )
