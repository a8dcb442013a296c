-- ===== src/TextDiff/Script/Search.antt =====
-- The search records the furthest points, and stops at the far corner.
use kibitz.Prelude.{
  ℕ, zero, suc, ◌+◌, ◌-◌, ◌*◌, ◌≤◌, ◌<◌, ◌≡◌, refl, sym, subst, arith, Option, none, some, List, [],
  ◌∷◌, if◌then◌else◌, Bytes, length, Bool-cases, inl, inr,
}
use native.Mathlib.Decide.{ℕ_discrete}
use kibitz.TextDiff.Script.{
  TraceEntry, trim_row, update, came_from, at_corner, snake, next_round, diagonals, search,
}
use kibitz.TextDiff.Script.Furthest.{
  furthest, first, furthest-by, furthest_zero, furthest-natural, Past, corner_exact,
}
use kibitz.TextDiff.Script.Backtrack.{Recorded, Traced}

module _ (old cur : List Bytes) (offset : ℕ) where
  -- What the slice holds on the diagonals of a round.
  abbrev pub Row : ℕ → (ℕ → ℕ) → Type 0
  Row d v = (j : ℕ) → j ≤ d → v (offset + 2 * j - d) ≡ furthest old cur d j

  -- The far corner was not reached on the first diagonals of a round.
  abbrev pub Fresh : ℕ → ℕ → Type 0
  Fresh d n = (j : ℕ) → j < n → ¬ Past old cur d j

  -- Within the round after d: the first diagonals are of this round, the others of the one before.
  abbrev pub Within : ℕ → ℕ → (ℕ → ℕ) → Type 0
  Within d n v =
      ((j : ℕ) → j < n → v (offset + 2 * j - suc d) ≡ furthest old cur (suc d) j)
      × Row d v
      × Fresh (suc d) n

  abbrev pub Outcome : ℕ → Option (ℕ → ℕ) → Type 0
  Outcome d none = (j : ℕ) × (j ≤ d) × Past old cur d j
  Outcome d (some v) = Row d v × Fresh d (suc d)

  came_from-first :
      (d j : ℕ) (v : ℕ → ℕ)
      → j ≤ suc d
      → suc d ≤ offset
      → Row d v
      → came_from old cur (suc d) j v (offset + 2 * j - suc d) ≡ first old cur (suc d) j
  unfolding first
  came_from-first d zero v h o row =
      let i : offset + 2 * 0 - suc d + 1 ≡ offset + 2 * 0 - d = omega arith in
      let right : v (offset + 2 * 0 - suc d + 1) ≡ furthest old cur d 0 =
        rw i (row 0 (omega arith)) in
      ground (arith, right)
  came_from-first d (suc j) v h o row =
      let i : offset + 2 * suc j - suc d - 1 ≡ offset + 2 * j - d = omega arith in
      let left : v (offset + 2 * suc j - suc d - 1) ≡ furthest old cur d j =
        rw i (row j (omega arith)) in
      elim (ℕ_discrete j d) [
        | yes end ↦ ground (arith, end, left)
        | no short ↦
            let k : offset + 2 * suc j - suc d + 1 ≡ offset + 2 * suc j - d = omega arith in
            let right : v (offset + 2 * suc j - suc d + 1) ≡ furthest old cur d (suc j) =
              rw k (row (suc j) (omega arith)) in
            ground (arith, left, right)
      ]

  diagonals-suc :
      (d left j x0 y0 t : ℕ) (v : ℕ → ℕ)
      → came_from old cur (suc d) j v (offset + 2 * j - suc d) ≡ x0
      → x0 + offset - (offset + 2 * j - suc d) ≡ y0
      → snake old cur x0 y0 ≡ t
      → diagonals old cur offset (suc d) (suc left) j v ≡ (
          if at_corner old cur (x0 + t) (y0 + t)
          then none
          else diagonals old cur offset
              (suc d)
              left
              (suc j)
              (update v (offset + 2 * j - suc d) (x0 + t)))
  unfolding diagonals
  diagonals-suc d left j x0 y0 t v ex ey et = rw ex (rw ey (rw et refl))

  update-Within :
      (d j x : ℕ) (v : ℕ → ℕ)
      → j ≤ suc d
      → suc d ≤ offset
      → Within d j v
      → furthest old cur (suc d) j ≡ x
      → ¬ Past old cur (suc d) j
      → Within d (suc j) (update v (offset + 2 * j - suc d) x)
  update-Within d j x v h o (new, row, fresh) ex short = (
    (λ i le. elim (ℕ_discrete i j) [
      | yes here ↦ ground (arith, here, ex)
      | no before ↦ ground (arith, new i (omega arith))
    ]),
    (λ i le. ground (arith, row i le)),
    (λ i le past. elim (ℕ_discrete i j) [
      | yes here ↦ short (subst (λ k. Past old cur (suc d) k) here past)
      | no before ↦ fresh i (omega arith) past
    ]),
  )

  diagonals-Outcome :
      (d left j : ℕ) (v : ℕ → ℕ)
      → j + left ≡ suc (suc d)
      → suc d ≤ offset
      → Within d j v
      → Outcome (suc d) (diagonals old cur offset (suc d) left j v)
  diagonals-Outcome d zero j v e o (new, row, fresh) =
      unfold diagonals in
      ((λ j' h. new j' (omega arith)), (λ j' h past. fresh j' (omega arith) past))
  diagonals-Outcome d (suc left) j v e o (new, row, fresh) =
      let x0 = first old cur (suc d) j in
      let y0 = x0 + suc d - 2 * j in
      let t = snake old cur x0 y0 in
      let on = furthest-by old cur (suc d) j x0 y0 (omega arith) refl refl in
      let natural = furthest-natural old cur (suc d) j (omega arith) in
      rw
        (diagonals-suc d left j x0 y0 t v (came_from-first d j v (omega arith) o row) (omega arith)
          refl)
        (elim (Bool-cases (at_corner old cur (x0 + t) (y0 + t))) [
          | inl there ↦ rw there (j, omega arith, ground (arith, there, on, natural))
          | inr short ↦ rw short (
              diagonals-Outcome d left (suc j) (update v (offset + 2 * j - suc d) (x0 + t))
                (omega arith) o
                (update-Within d j (x0 + t) v (omega arith) o (new, row, fresh) on
                  (λ past. ground (arith, short, on, natural, past))))
        ])

  -- The first round, from the corner itself.
  pub diagonals_zero-Outcome :
      (v : ℕ → ℕ) → 0 < offset → v (offset + 1) ≡ 0 → Outcome 0 (diagonals old cur offset 0 1 0 v)
  unfolding diagonals
  diagonals_zero-Outcome v o e =
      let i : offset + 0 - 0 + 1 ≡ offset + 1 = omega arith in
      let x : v (offset + 0 - 0 + 1) ≡ 0 = rw i e in
      let y : 0 + offset - (offset + 0 - 0) ≡ 0 = omega arith in
      let z : 0 + snake old cur 0 0 ≡ snake old cur 0 0 = omega arith in
      rw x (
        rw y (
          rw z (elim (Bool-cases (at_corner old cur (snake old cur 0 0) (snake old cur 0 0))) [
            | inl there ↦ rw there (0, omega arith, ground (arith, there, furthest_zero old cur 0))
            | inr short ↦ rw short (
              (λ j le. ground (arith, furthest_zero old cur j)),
              (λ j le past. ground (arith, short, past, furthest_zero old cur j)),
            )
          ])))

  -- The trace of a finished search, the corner being reached in its last round and in none before; without one, it
  -- was reached in no round.
  abbrev pub Early : ℕ → Type 0
  Early n = (d k : ℕ) → n ≡ suc d → k ≤ d → ¬ Past old cur d k

  abbrev pub Done : Option (List TraceEntry) → Type 0
  Done none = (d k : ℕ) → offset ≡ suc d → k ≤ d → ¬ Past old cur d k
  Done (some []) = ⊥
  Done (some (e ∷ older)) =
      Traced old cur (e ∷ older)
      × Early (length older)
      × (j : ℕ) × (j ≤ length older)
      × (furthest old cur (length older) j ≡ length old)
      × (length cur + 2 * j ≡ length old + length older)

  trim_row-Recorded :
      (d : ℕ) (v : ℕ → ℕ)
      → suc d ≤ offset
      → Row d v
      → Recorded old cur (suc d) (trim_row v offset (suc d))
  unfolding trim_row
  trim_row-Recorded d v o row = (omega arith, λ j h. rw (place j h) (row j h))
    where
      place : (j : ℕ) → j ≤ d → offset - suc d + (2 * j + 1) ≡ offset + 2 * j - d
      place j h = omega arith

  next_round-Done :
      (d : ℕ) (r : Option (ℕ → ℕ)) (e : TraceEntry) (older : List TraceEntry)
      (onward : (ℕ → ℕ) → Option (List TraceEntry))
      → length older ≡ suc d
      → Traced old cur (e ∷ older)
      → Fresh d (suc d)
      → Outcome (suc d) r
      → ((v : ℕ → ℕ) → Outcome (suc d) (some v) → Done (onward v))
      → Done (next_round old cur r (e ∷ older) onward)
  next_round-Done d none e older onward len t fresh (j, h, past) on =
      let (right, below) = corner_exact old cur d j h (λ i le. fresh i (omega arith)) past in
      let early : Early (length older) = λ d' k e' le past'.
        fresh k (omega arith) (subst (λ n. Past old cur n k) (same d' e') past') in
      (t, early, j, omega arith, rw len right, omega arith)
    where
      same : (d' : ℕ) → length older ≡ suc d' → d' ≡ d
      same d' e' = omega arith
  next_round-Done d (some v) e older onward len t fresh out on = on v out

  pub search-Done :
      (left d : ℕ) (v : ℕ → ℕ) (trace : List TraceEntry)
      → left + suc d ≡ offset
      → length trace ≡ suc d
      → Traced old cur trace
      → Row d v
      → Fresh d (suc d)
      → Done (search old cur offset left (suc d) v trace)
  unfolding search
  search-Done zero d v trace o len t row fresh =
      λ d' k e le past. fresh k (omega arith) (subst (λ n. Past old cur n k) (same d' e) past)
    where
      same : (d' : ℕ) → offset ≡ suc d' → d' ≡ d
      same d' e = omega arith
  search-Done (suc left) d v trace o len t row fresh =
      let e = trim_row v offset (suc d) in
      next_round-Done d (diagonals old cur offset (suc d) (suc (suc d)) 0 v) e trace
        (λ v'. search old cur offset left (suc (suc d)) v' (e ∷ trace)) len
        (subst (λ n. Recorded old cur n e) (sym len) (trim_row-Recorded d v (omega arith) row), t)
        fresh
        (diagonals-Outcome d (suc (suc d)) 0 v (omega arith) (omega arith)
          ((λ i h. absurd (omega arith)), row, (λ i h. absurd (omega arith))))
        (λ v' (row', fresh').
          search-Done left (suc d) v' (e ∷ trace) (omega arith) (omega arith)
            (
              subst (λ n. Recorded old cur n e) (sym len) (trim_row-Recorded d v (omega arith) row),
              t,
            )
            row' fresh')
