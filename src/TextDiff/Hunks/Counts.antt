-- ===== src/TextDiff/Hunks/Counts.antt =====
-- The hunks of a script hold all of its changes, each once.
use kibitz.Prelude.{
  ℕ, zero, suc, ◌+◌, ◌-◌, ◌≤◌, ◌≡◌, ◌⊎◌, inl, inr, refl, sym, subst, arith, min, true, List, [],
  ◌∷◌, take, drop, length, length-drop, Bool-cases,
}
use native.Mathlib.Decide.{ℕ_discrete}
use kibitz.TextDiff.Script.{Op, equal, delete, insert, EditStep}
use kibitz.TextDiff.Hunks.{
  is_equal, stays, count_while, count_ops, Hunk, extend_run, cut_hunk, group_from, group,
}
use kibitz.TextDiff.Hunks.Extent.{
  count_while-le, count_while-drop, drop-drop, drop_changed, IsExtent, extend-IsExtent,
}

abbrev pub total : (Hunk → ℕ) → List Hunk → ℕ
total f [] = 0
total f (h ∷ hs) = f h + total f hs

module _ (f : Op → ℕ) (none_equal : f equal ≡ 0) where
  count-split :
      (k : ℕ) (l : List EditStep) → count_ops f l ≡ count_ops f (take k l) + count_ops f (drop k l)
  count-split zero l = omega arith
  count-split (suc k) [] = omega arith
  count-split (suc k) (s ∷ ss) = omega (arith, count-split k ss)

  count_slice :
      (a b : ℕ) (l : List EditStep)
      → a ≤ b
      → count_ops f (drop a l) ≡ count_ops f (take (b - a) (drop a l)) + count_ops f (drop b l)
  count_slice a b l h =
      let place : a + (b - a) ≡ b = omega arith in
      subst
        (λ t.
          count_ops f (drop a l) ≡ count_ops f (take (b - a) (drop a l)) + count_ops f (drop t l))
        place
        (subst (λ t. count_ops f (drop a l) ≡ count_ops f (take (b - a) (drop a l)) + count_ops f t)
          (drop-drop (b - a) a l) (count-split (b - a) (drop a l)))

  count_equal : (o : Op) → is_equal o ≡ true → f o ≡ 0
  count_equal equal e = none_equal
  count_equal delete e = absurd (ground (arith, e))
  count_equal insert e = absurd (ground (arith, e))

  -- Steps that stay count for nothing.
  count_gap :
      (k : ℕ) (l : List EditStep) → k ≤ count_while stays l → count_ops f l ≡ count_ops f (drop k l)
  unfolding count_while
  count_gap zero l h = refl
  count_gap (suc k) [] h = refl
  count_gap (suc k) (s ∷ ss) h = elim (Bool-cases (stays s)) [
    | inl e ↦ omega (arith, count_equal s.kind e, count_gap k ss (ground (arith, e, h)))
    | inr e ↦ absurd (ground (arith, e, h))
  ]

  count_gap_to :
      (i b : ℕ) (l : List EditStep)
      → i ≤ b
      → b ≤ i + count_while stays (drop i l)
      → count_ops f (drop i l) ≡ count_ops f (drop b l)
  count_gap_to i b l h le =
      let place : i + (b - i) ≡ b = omega arith in
      subst (λ t. count_ops f (drop i l) ≡ count_ops f (drop t l)) place
        (subst (λ t. count_ops f (drop i l) ≡ count_ops f t) (drop-drop (b - i) i l)
          (count_gap (b - i) (drop i l) (omega arith)))

  count_end : (i : ℕ) (l : List EditStep) → length l ≤ i → count_ops f (drop i l) ≡ 0
  count_end zero [] h = refl
  count_end zero (s ∷ ss) h = absurd (omega arith)
  count_end (suc i) [] h = refl
  count_end (suc i) (s ∷ ss) h = count_end i ss (omega arith)

gap_after :
    (script : List EditStep) (end to : ℕ)
    → end ≤ to
    → to ≤ end + count_while stays (drop end script)
    → to + count_while stays (drop to script) ≡ end + count_while stays (drop end script)
gap_after script end to h le =
    let place : end + (to - end) ≡ to = omega arith in
    let shorter : count_while stays (drop to script)
        ≡ count_while stays (drop end script) - (to - end) =
      subst
        (λ t. count_while stays (drop t script) ≡ count_while stays (drop end script) - (to - end))
        place
        (subst (λ t. count_while stays t ≡ count_while stays (drop end script) - (to - end))
          (drop-drop (to - end) end script)
          (count_while-drop stays (to - end) (drop end script) (omega arith))) in
    omega arith

-- A hunk begins no earlier than where the one before it ended.
abbrev pub IsApart : ℕ → List EditStep → ℕ → Type 0
IsApart context script i =
    let start = i + count_while stays (drop i script) in
    (i ≤ start - context) ⊎ (start ≡ length script)

next-IsApart :
    (context : ℕ) (script : List EditStep) (start end : ℕ)
    → IsExtent context script start end
    → IsApart context script (min (end + context) (length script))
next-IsApart context script start end (lt, le, inl far) =
    let gap = count_while-le stays (drop end script) in
    inl (
      omega (
        arith,
        length-drop end script,
        gap_after script end (min (end + context) (length script)) (omega arith)
            (omega (arith, length-drop end script)),
      ))
next-IsApart context script start end (lt, le, inr last) = inr (
    omega (
      arith,
      gap_after script end (min (end + context) (length script)) (omega arith) (omega arith),
    ))

module _ (f : Op → ℕ) (none_equal : f equal ≡ 0) (measure : Hunk → ℕ)
    (of_steps : (script : List EditStep) (from to : ℕ)
      → measure (cut_hunk script from to) ≡ count_ops f (take (to - from) (drop from script))) where
  group_from-count :
      (fuel context : ℕ) (script : List EditStep) (i : ℕ)
      → length script ≤ fuel + i
      → i ≤ length script
      → IsApart context script i
      → total measure (group_from fuel script context i) ≡ count_ops f (drop i script)
  unfolding group_from
  group_from-count zero context script i e h apart =
      sym (count_end f none_equal i script (omega arith))
  group_from-count (suc fuel) context script i e h apart =
      let start = i + count_while stays (drop i script) in
      let le = count_while-le stays (drop i script) in
      let bound : start ≤ length script = omega (arith, length-drop i script) in
      let gap = count_gap_to f none_equal i start script (omega arith) (omega arith) in
      elim (ℕ_discrete start (length script)) [
        | yes last ↦ ground (arith, last, gap, count_end f none_equal start script (omega arith))
        | no more ↦
            let end = extend_run (length script) context script start in
            let to = min (end + context) (length script) in
            let extent : IsExtent context script start end =
              extend-IsExtent (length script) context script start (omega arith)
                (drop_changed script i (omega arith)) in
            let rest : total measure (group_from fuel script context to)
                ≡ count_ops f (drop to script) =
              group_from-count fuel context script to (omega arith) (omega arith)
                (next-IsApart context script start end extent) in
            let from : i ≤ start - context = ground (arith, apart, more) in
            let lead = count_gap_to f none_equal i (start - context) script from (omega arith) in
            let inside = count_slice f none_equal (start - context) to script (omega arith) in
            let this = of_steps script (start - context) to in
            ground (arith, more, this, rest, lead, inside)
      ]

  -- The hunks hold every change of the script, and each once.
  pub group-count :
      (script : List EditStep) (context : ℕ)
      → total measure (group script context) ≡ count_ops f script
  unfolding group
  group-count script context =
      group_from-count (length script) context script 0 (omega arith) (omega arith)
        (inl (omega arith))
