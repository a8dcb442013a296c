-- ===== src/TextDiff/Script/Sound.antt =====
-- Every script that `diffLines` returns is a way through the two texts.
use kibitz.Prelude.{
  ℕ, suc, ◌+◌, ◌≡◌, refl, sym, subst, append-nil, arith, min, Option, none, some, List, [], ◌∷◌,
  Bytes, length,
}
use kibitz.TextDiff.Script.{
  TraceEntry, trim_row, diagonals, next_round, search, outcome_of, diff_lines, insert_from,
  delete_from,
}
use kibitz.TextDiff.Script.Walks.{Walk, insert_from-Walk, delete_from-Walk}
use kibitz.TextDiff.Script.Furthest.{inside_zero}
use kibitz.TextDiff.Script.Backtrack.{backtrack-Walk}
use kibitz.TextDiff.Script.Search.{Outcome, Done, diagonals_zero-Outcome, search-Done}

module _ (old cur : List Bytes) where
  first_round-Done :
      (offset : ℕ) (r : Option (ℕ → ℕ)) (e : TraceEntry)
      (onward : (ℕ → ℕ) → Option (List TraceEntry))
      → Outcome old cur offset 0 r
      → ((v : ℕ → ℕ) → Outcome old cur offset 0 (some v) → Done old cur offset (onward v))
      → Done old cur offset (next_round old cur r (e ∷ []) onward)
  first_round-Done offset none e onward (j, h, past) on = (
    (tt, tt),
    (λ d k e' le past'. absurd (omega arith)),
    j,
    h,
    omega (arith, inside_zero old cur j),
    omega (arith, inside_zero old cur j),
  )
  first_round-Done offset (some v) e onward out on = on v out

  pub whole_search-Done :
      (limit : ℕ) → Done old cur (suc limit) (search old cur (suc limit) (suc limit) 0 (λ i. 0) [])
  unfolding search
  whole_search-Done limit =
      let e = trim_row (λ i. 0) (suc limit) 0 in
      first_round-Done (suc limit) (diagonals old cur (suc limit) 0 1 0 (λ i. 0)) e
        (λ v. search old cur (suc limit) limit 1 v (e ∷ []))
        (diagonals_zero-Outcome old cur (suc limit) (λ i. 0) (omega arith) refl)
        (λ v (row, fresh).
          search-Done old cur (suc limit) limit 0 v (e ∷ []) (omega arith) refl (tt, tt) row fresh)

  found-Walk :
      (offset : ℕ) (r : Option (List TraceEntry))
      → Done old cur offset r
      → Walk old cur (outcome_of old cur r).0 0 0
  found-Walk offset none h =
      delete_from-Walk old cur 0 0 old (insert_from 0 cur) (omega arith)
        (insert_from-Walk old cur (length old) 0 cur refl (omega arith))
  found-Walk offset (some []) h = absurd h
  found-Walk offset (some (e ∷ older)) (t, early, j, h, right, below) =
      backtrack-Walk old cur e older (length old) (length cur) [] t
        (j, h, sym right, below, omega arith, omega arith, (refl, refl))

-- The edit script leads through both texts, whatever the cap: from their starts, by lines that are equal,
-- lines of the old text removed and lines of the new one added, each in its place, to their ends.
pub diff_lines-Walk :
    (old cur : List Bytes) (max_edits : ℕ) → Walk old cur (diff_lines old cur max_edits).0 0 0
unfolding diff_lines
diff_lines-Walk [] [] max_edits = (refl, refl)
diff_lines-Walk [] (l ∷ ls) max_edits = insert_from-Walk [] (l ∷ ls) 0 0 (l ∷ ls) refl (omega arith)
diff_lines-Walk (l ∷ ls) [] max_edits =
    subst (λ t. Walk (l ∷ ls) [] t 0 0) (append-nil (delete_from 0 (l ∷ ls)))
      (delete_from-Walk (l ∷ ls) [] 0 0 (l ∷ ls) [] (omega arith) (refl, refl))
diff_lines-Walk (l ∷ ls) (m ∷ ms) max_edits =
    let limit = min (length (l ∷ ls) + length (m ∷ ms)) max_edits in
    let one : limit + 1 ≡ suc limit = omega arith in
    rw one (found-Walk (l ∷ ls) (m ∷ ms) (suc limit) _ (whole_search-Done (l ∷ ls) (m ∷ ms) limit))
