-- ===== src/TextDiff/Script/Furthest.antt =====
-- The furthest points of the search, as a recursion on the distance alone.
use kibitz.Prelude.{
  ℕ, zero, suc, ◌+◌, ◌-◌, ◌*◌, ◌≤◌, ◌<◌, ◌≡◌, ◌⊎◌, inl, inr, refl, ◌∙◌, true, false, List, arith,
  if◌then◌else◌, Bytes, length, drop, length-drop, dec_lt,
}
use native.Mathlib.Numerals.{unary_clauses}
use kibitz.TextDiff.Script.Walks.{common_prefix-le}
use kibitz.TextDiff.Script.{snake, goes_down}

module _ (old cur : List Bytes) where
  -- Equal lines end with either text.
  pub snake-le :
      (x y : ℕ) → (snake old cur x y ≤ length old - x) × (snake old cur x y ≤ length cur - y)
  unfolding snake
  snake-le x y =
      omega
        (arith, common_prefix-le (drop x old) (drop y cur), length-drop x old, length-drop y cur)

  abbrev pub start_from : ℕ → ℕ → ℕ → ℕ → ℕ
  start_from d j left right = if goes_down d j left right then right else left + 1

  -- The x of the furthest point at distance d on the j-th diagonal, k = 2 j - d; its y is x + d - 2 j.
  unfoldable pub furthest : ℕ → ℕ → ℕ
  furthest zero j = snake old cur 0 0
  furthest (suc d) j =
      let x0 = start_from (suc d) j (furthest d (j - 1)) (furthest d j) in
      x0 + snake old cur x0 (x0 + suc d - 2 * j)

  unfoldable pub first : ℕ → ℕ → ℕ
  first zero j = 0
  first (suc d) j = start_from (suc d) j (furthest d (j - 1)) (furthest d j)

  pub furthest-first :
      (d j : ℕ)
      → j ≤ d
      → furthest d j ≡ first d j + snake old cur (first d j) (first d j + d - 2 * j)
  unfolding furthest first
  furthest-first zero zero h = omega arith
  furthest-first zero (suc j) h = absurd (omega arith)
  furthest-first (suc d) j h = refl

  pub furthest-by :
      (d j x0 y0 : ℕ)
      → j ≤ d
      → first d j ≡ x0
      → x0 + d - 2 * j ≡ y0
      → furthest d j ≡ x0 + snake old cur x0 y0
  furthest-by d j x0 y0 h ex ey = furthest-first d j h ∙ rw ex (rw ey refl)

  -- The cases of the choice.
  pub first-cases :
      (d j : ℕ)
      → j ≤ suc d
      → ((j ≤ d)
          × (first (suc d) j ≡ furthest d j)
          × (goes_down (suc d) j (furthest d (j - 1)) (furthest d j) ≡ true))
        ⊎ ((1 ≤ j)
            × (first (suc d) j ≡ furthest d (j - 1) + 1)
            × (goes_down (suc d) j (furthest d (j - 1)) (furthest d j) ≡ false))
  unfolding first
  first-cases d j h = ground arith

  pub first-le : (d j : ℕ) → j ≤ d → first d j ≤ furthest d j
  first-le d j h = omega (arith, furthest-first d j h)

  first-right : (d j : ℕ) → j ≤ d → furthest d j ≤ first (suc d) j
  unfolding first
  first-right d j h = ground arith

  first-below : (d j : ℕ) → j ≤ d → furthest d j + 1 ≤ first (suc d) (suc j)
  unfolding first
  first-below d j h = simp unary_clauses (ground arith)

  -- Greed: no point falls behind its neighbours of the round before.
  pub greedy :
      (d j : ℕ)
      → j ≤ d
      → (furthest d j ≤ furthest (suc d) j) × (furthest d j + 1 ≤ furthest (suc d) (suc j))
  greedy d j h = (
    omega (arith, first-right d j h, first-le (suc d) j),
    omega (arith, first-below d j h, first-le (suc d) (suc j)),
  )

  -- y is not negative.
  pub furthest-natural : (d j : ℕ) → j ≤ d → 2 * j ≤ first d j + d
  furthest-natural zero zero h = omega arith
  furthest-natural zero (suc j) h = absurd (omega arith)
  furthest-natural (suc d) j h = elim (first-cases d j h) [
    | inl (le, e, c) ↦ omega (arith, furthest-natural d j le, first-le d j le)
    | inr (pos, e, c) ↦ omega (arith, furthest-natural d (j - 1) (omega arith), first-le d (j - 1))
  ]

  -- Beyond an edge there are no equal lines to follow.
  first-out_right : (d j : ℕ) → j ≤ d → length old < furthest d j → first d j ≡ furthest d j
  first-out_right d j h out =
      omega (arith, furthest-first d j h, snake-le (first d j) (first d j + d - 2 * j))

  first-out_below :
      (d j : ℕ) → j ≤ d → length cur < furthest d j + d - 2 * j → first d j ≡ furthest d j
  first-out_below d j h out = omega (
    arith,
    furthest-first d j h,
    furthest-natural d j h,
    snake-le (first d j) (first d j + d - 2 * j),
  )

  pub first_zero : (j : ℕ) → first 0 j ≡ 0
  unfolding first
  first_zero j = refl

  pub furthest_zero : (j : ℕ) → furthest 0 j ≡ snake old cur 0 0
  unfolding furthest
  furthest_zero j = refl

  pub inside_zero : (j : ℕ) → (furthest 0 j ≤ length old) × (furthest 0 j ≤ length cur)
  unfolding furthest
  inside_zero j = omega (arith, snake-le 0 0)

  -- Beyond the right edge the neighbour on the left was no further than one step behind.
  out_right :
      (d j : ℕ)
      → j ≤ suc d
      → length old < furthest (suc d) j
      → (i : ℕ) × (j ≡ suc i) × (furthest (suc d) j ≤ furthest d i + 1)
  out_right zero j h out = elim (first-cases 0 j h) [
    | inl (le, e, c) ↦ absurd (omega (arith, first-out_right 1 j h out, inside_zero j))
    | inr (pos, e, c) ↦ (j - 1, omega arith, omega (arith, first-out_right 1 j h out))
  ]
  out_right (suc d) j h out = elim (first-cases (suc d) j h) [
    | inl (le, e, c) ↦
        let (i, same, behind) =
          out_right d j le (omega (arith, first-out_right (suc (suc d)) j h out)) in
        (i, same, omega (arith, first-out_right (suc (suc d)) j h out, greedy d i (omega arith)))
    | inr (pos, e, c) ↦ (j - 1, omega arith, omega (arith, first-out_right (suc (suc d)) j h out))
  ]

  -- Below the bottom edge the neighbour on the right was no less far.
  behind_of : (d j : ℕ) → 1 ≤ j → j ≤ suc d → furthest d (j - 1) + 1 ≤ furthest (suc d) j
  behind_of d zero pos h = absurd (omega arith)
  behind_of d (suc j) pos h = simp unary_clauses (omega (arith, greedy d j (omega arith)))

  out_below :
      (d j : ℕ)
      → j ≤ suc d
      → length cur < furthest (suc d) j + suc d - 2 * j
      → (j ≤ d) × (furthest (suc d) j ≤ furthest d j)
  out_below zero j h out = elim (first-cases 0 j h) [
    | inl (le, e, c) ↦ (le, omega (arith, first-out_below 1 j h out))
    | inr (pos, e, c) ↦ absurd (omega (arith, first-out_below 1 j h out, inside_zero (j - 1)))
  ]
  out_below (suc d) j h out = elim (first-cases (suc d) j h) [
    | inl (le, e, c) ↦ (le, omega (arith, first-out_below (suc (suc d)) j h out))
    | inr (pos, e, c) ↦
        let same = first-out_below (suc (suc d)) j h out in
        let (le, behind) = out_below d (j - 1) (omega arith) (omega arith) in
        (omega arith, omega (arith, behind_of d j pos (omega arith)))
  ]

  -- The far corner lies behind the point, or at it.
  abbrev pub Past : ℕ → ℕ → Type 0
  Past d j = (length old ≤ furthest d j) × (length cur + 2 * j ≤ furthest d j + d)

  pub corner_exact :
      (d j : ℕ)
      → j ≤ suc d
      → ((i : ℕ) → i ≤ d → ¬ Past d i)
      → Past (suc d) j
      → (furthest (suc d) j ≡ length old) × (length cur + 2 * j ≡ furthest (suc d) j + suc d)
  corner_exact d j h fresh (right, below) = elim (dec_lt (length old) (furthest (suc d) j)) [
    | yes out ↦
        let (i, same, behind) = out_right d j h out in
        absurd (fresh i (omega arith) (omega arith, omega arith))
    | no inside ↦ elim (dec_lt (length cur + 2 * j) (furthest (suc d) j + suc d)) [
      | yes out ↦
          let (le, behind) = out_below d j h (omega arith) in
          absurd (fresh j le (omega arith, omega arith))
      | no inside' ↦ (omega arith, omega arith)
    ]
  ]
