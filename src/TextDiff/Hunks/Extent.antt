-- ===== src/TextDiff/Hunks/Extent.antt =====
-- Where the hunks of a script begin and end.
use kibitz.Prelude.{
  ℕ, zero, suc, ◌+◌, ◌-◌, ◌*◌, ◌≤◌, ◌<◌, ◌≡◌, ◌⊎◌, inl, inr, refl, subst, arith, ◌==◌, ltb, Bool,
  ◌||◌, List, [], ◌∷◌, drop, length, length-drop, Bool-cases,
}
use kibitz.TextDiff.Script.{EditStep}
use kibitz.TextDiff.Hunks.{stays, is_change, count_while, extend_run}

pub count_while-le : (p : EditStep → Bool) (l : List EditStep) → count_while p l ≤ length l
unfolding count_while
count_while-le p [] = omega arith
count_while-le p (s ∷ ss) = ground (arith, count_while-le p ss)

pub count_while-drop :
    (p : EditStep → Bool) (k : ℕ) (l : List EditStep)
    → k ≤ count_while p l
    → count_while p (drop k l) ≡ count_while p l - k
unfolding count_while
count_while-drop p zero l h = omega arith
count_while-drop p (suc k) [] h = absurd (omega arith)
count_while-drop p (suc k) (s ∷ ss) h = ground (arith, count_while-drop p k ss)

drop_of_nil : (n : ℕ) → drop {A = EditStep} n [] ≡ []
drop_of_nil zero = refl
drop_of_nil (suc n) = refl

pub drop-drop : (a b : ℕ) (l : List EditStep) → drop a (drop b l) ≡ drop (b + a) l
drop-drop a zero l = ground arith
drop-drop a (suc b) [] = rw (drop_of_nil a) (rw (drop_of_nil (suc b + a)) refl)
drop-drop a (suc b) (x ∷ l) =
    let place : suc b + a ≡ suc (b + a) = omega arith in rw place (drop-drop a b l)

-- A run of the one kind is followed by a step of the other, or by the end.
pub is_change-next :
    (l : List EditStep)
    → count_while stays l < length l
    → 0 < count_while is_change (drop (count_while stays l) l)
unfolding count_while
is_change-next [] h = absurd (omega arith)
is_change-next (s ∷ ss) h = ground (arith, is_change-next ss)

pub drop_changed :
    (script : List EditStep) (i : ℕ)
    → i + count_while stays (drop i script) < length script
    → 0 < count_while is_change (drop (i + count_while stays (drop i script)) script)
drop_changed script i h =
    let l = drop i script in
    subst (λ t. 0 < count_while is_change t) (drop-drop (count_while stays l) i script)
      (is_change-next l (omega (arith, length-drop i script)))

-- The stretch ends after it began, within the script, and a gap of more than twice the context, or the end of
-- the script, follows.
abbrev pub IsExtent : ℕ → List EditStep → ℕ → ℕ → Type 0
IsExtent context script start end =
    let gap = count_while stays (drop end script) in
    (start < end) × (end ≤ length script) × ((2 * context < gap) ⊎ (end + gap ≡ length script))

pub extend-IsExtent :
    (fuel context : ℕ) (script : List EditStep) (start : ℕ)
    → length script < fuel + start + 1
    → 0 < count_while is_change (drop start script)
    → IsExtent context script start (extend_run fuel context script start)
unfolding extend_run
extend-IsExtent zero context script start f h =
    absurd (omega (arith, count_while-le is_change (drop start script), length-drop start script))
extend-IsExtent (suc fuel) context script start f h =
    let end = start + count_while is_change (drop start script) in
    let gap = count_while stays (drop end script) in
    let within : end ≤ length script =
      omega (arith, count_while-le is_change (drop start script), length-drop start script) in
    let within' : end + gap ≤ length script =
      omega (arith, count_while-le stays (drop end script), length-drop end script) in
    elim (Bool-cases (ltb (2 * context) (end + gap - end) || end + gap == length script)) [
      | inl stop ↦ rw stop (omega arith, within, ground (arith, stop))
      | inr go_on ↦
          let (after, inside, far) =
            extend-IsExtent fuel context script (end + gap) (omega arith)
              (drop_changed script end (ground (arith, go_on))) in
          rw go_on (omega arith, inside, far)
    ]
