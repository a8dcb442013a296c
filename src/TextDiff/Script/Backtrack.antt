-- ===== src/TextDiff/Script/Backtrack.antt =====
-- The walk back along a trace that records the furthest points.
use kibitz.Prelude.{
  ℕ, zero, suc, ◌+◌, ◌-◌, ◌*◌, ◌≤◌, ◌≡◌, inl, inr, refl, sym, ◌∙◌, subst, arith, Bool, true, false,
  List, [], ◌∷◌, ◌++◌, if◌then◌else◌, Bytes, length,
}
use native.Mathlib.Decide.{ℕ_discrete}
use kibitz.TextDiff.Script.{
  EditStep, TraceEntry, at, snake, run, Back, back_by, came_down, back_one, backtrack, goes_down,
}
use kibitz.TextDiff.Script.Walks.{Walk, Alike, snake-Alike, run-Walk}
use kibitz.TextDiff.Script.Furthest.{
  furthest, first-cases, furthest-by, furthest-natural, first-le, furthest_zero,
}

module _ (old cur : List Bytes) where
  -- What the entry at a distance has on record, and a whole trace, the latest entry first.
  abbrev pub Recorded : ℕ → TraceEntry → Type 0
  Recorded zero e = Unit
  Recorded (suc d) e =
      (e.size ≡ 2 * d + 3) × ((j : ℕ) → j ≤ d → e.cell (2 * j + 1) ≡ furthest old cur d j)

  abbrev pub Traced : List TraceEntry → Type 0
  Traced [] = Unit
  Traced (e ∷ older) = Recorded (length older) e × Traced older

  at-Recorded :
      (d : ℕ) (e : TraceEntry) (j : ℕ)
      → Recorded (suc d) e
      → j ≤ d
      → at e (2 * j + 1) ≡ furthest old cur d j
  unfolding at
  at-Recorded d e j (size, cells) h = ground (arith, cells j h)

  came_down-goes_down :
      (d j : ℕ) (e : TraceEntry)
      → Recorded (suc d) e
      → j ≤ suc d
      → came_down e (suc d) (2 * j)
        ≡ goes_down (suc d) j (furthest old cur d (j - 1)) (furthest old cur d j)
  came_down-goes_down d zero e r h = ground arith
  came_down-goes_down d (suc j) e r h = elim (ℕ_discrete (suc j) (suc d)) [
    | yes end ↦ ground (arith, end)
    | no short ↦
        let place : 2 * suc j - 1 ≡ 2 * j + 1 = omega arith in
        let left : at e (2 * suc j - 1) ≡ furthest old cur d j =
          rw place (at-Recorded d e j r (omega arith)) in
        ground (arith, left, at-Recorded d e (suc j) r (omega arith))
  ]

  -- A point that the search reached at a distance, with a way on from it to the ends.
  abbrev pub Reached : ℕ → ℕ → ℕ → List EditStep → Type 0
  Reached d x y steps =
      (j : ℕ) × (j ≤ d)
      × (x ≡ furthest old cur d j)
      × (y + 2 * j ≡ x + d)
      × (x ≤ length old)
      × (y ≤ length cur)
      × Walk old cur steps x y

  run_to :
      (t a b c d x y : ℕ) (acc : List EditStep)
      → a ≡ c
      → b ≡ d
      → t ≡ snake old cur c d
      → x ≡ c + t
      → y ≡ d + t
      → x ≤ length old
      → y ≤ length cur
      → Walk old cur acc x y
      → Walk old cur (run t a b ++ acc) c d
  run_to t a b c d x y acc ea eb et ex ey hx hy w = rw ea (
      rw eb (
        run-Walk old cur t c d x y acc
          (subst (λ s. Alike old cur s c d) (sym et) (snake-Alike old cur c d)) ex ey hx hy w))

  back_by-down :
      (px py x y : ℕ) (acc : List EditStep)
      → x ≡ px + snake old cur px (suc py)
      → y ≡ suc py + snake old cur px (suc py)
      → x ≤ length old
      → y ≤ length cur
      → Walk old cur acc x y
      → Walk old cur (back_by true px py x y acc).steps px py
  back_by-down px py x y acc ex ey hx hy w = (
    (omega arith, omega arith),
    run_to _ _ _ px (suc py) x y acc (omega arith) (omega arith) (omega arith) (omega arith)
        (omega arith) hx hy w,
  )

  back_by-right :
      (px py x y : ℕ) (acc : List EditStep)
      → x ≡ suc px + snake old cur (suc px) py
      → y ≡ py + snake old cur (suc px) py
      → x ≤ length old
      → y ≤ length cur
      → Walk old cur acc x y
      → Walk old cur (back_by false px py x y acc).steps px py
  back_by-right px py x y acc ex ey hx hy w = (
    (omega arith, omega arith),
    run_to _ _ _ (suc px) py x y acc (omega arith) (omega arith) (omega arith) (omega arith)
        (omega arith) hx hy w,
  )

  back_one-back_by :
      (e : TraceEntry) (d i x y : ℕ) (down : Bool) (px : ℕ) (acc : List EditStep)
      → x + d - y ≡ i
      → came_down e d i ≡ down
      → at e (if down then i + 1 else i - 1) ≡ px
      → back_one e d x y acc ≡ back_by down px (px + d - (if down then i + 1 else i - 1)) x y acc
  unfolding back_one
  back_one-back_by e d i x y down px acc ei ed ep = rw ei (rw ed (rw ep refl))

  abbrev pub Point : ℕ → Back → Type 0
  Point d b = Reached d b.x b.y b.steps

  back_one-Reached :
      (d : ℕ) (e : TraceEntry) (x y : ℕ) (acc : List EditStep)
      → Recorded (suc d) e
      → Reached (suc d) x y acc
      → Point d (back_one e (suc d) x y acc)
  back_one-Reached d e x y acc r (j, h, ex, ey, hx, hy, w) = elim (first-cases old cur d j h) [
    | inl (le, same, choice) ↦
        let px = furthest old cur d j in
        let py = px + suc d - (2 * j + 1) in
        let natural : 2 * j ≤ px + d =
          omega (arith, furthest-natural old cur d j le, first-le old cur d j le) in
        let on = furthest-by old cur (suc d) j px (suc py) h same (omega arith) in
        subst (λ b. Point d b)
          (sym (
            back_one-back_by e (suc d) (2 * j) x y true px acc (omega arith)
              (came_down-goes_down d j e r h ∙ choice) (at-Recorded d e j r le)))
          (
            j,
            le,
            refl,
            omega arith,
            omega arith,
            omega arith,
            back_by-down px py x y acc (omega arith) (omega arith) hx hy w,
          )
    | inr (pos, same, choice) ↦
        let i = j - 1 in
        let px = furthest old cur d i in
        let py = px + suc d - (2 * j - 1) in
        let place : 2 * j - 1 ≡ 2 * i + 1 = omega arith in
        let natural : 2 * i ≤ px + d =
          omega (
            arith,
            furthest-natural old cur d i (omega arith),
            first-le old cur d i (omega arith),
          ) in
        let on = furthest-by old cur (suc d) j (suc px) py h (omega arith) (omega arith) in
        subst (λ b. Point d b)
          (sym (
            back_one-back_by e (suc d) (2 * j) x y false px acc (omega arith)
              (came_down-goes_down d j e r h ∙ choice)
              (rw place (at-Recorded d e i r (omega arith)))))
          (
            i,
            omega arith,
            refl,
            omega arith,
            omega arith,
            omega arith,
            back_by-right px py x y acc (omega arith) (omega arith) hx hy w,
          )
  ]

  pub backtrack-Walk :
      (e : TraceEntry) (older : List TraceEntry) (x y : ℕ) (acc : List EditStep)
      → Traced (e ∷ older)
      → Reached (length older) x y acc
      → Walk old cur (backtrack (e ∷ older) x y acc) 0 0
  unfolding backtrack
  backtrack-Walk e [] x y acc t (j, h, ex, ey, hx, hy, w) =
      run_to _ _ _ 0 0 x y acc (omega arith) (omega arith) (omega (arith, furthest_zero old cur j))
        (omega arith) (omega arith) hx hy w
  backtrack-Walk e (f ∷ older) x y acc (r, t) p =
      let b = back_one e (suc (length older)) x y acc in
      backtrack-Walk f older b.x b.y b.steps t (back_one-Reached (length older) e x y acc r p)
