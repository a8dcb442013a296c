-- ===== src/TextDiff/Script/Edits.antt =====
-- How many edits a script makes.
use kibitz.Prelude.{
  ℕ, zero, suc, ◌+◌, ◌-◌, ◌≡◌, refl, arith, min, Bool, true, false, List, [], ◌∷◌, ◌++◌, Bytes,
  length,
}
use kibitz.TextDiff.Script.{
  Op, equal, delete, insert, EditStep, run, TraceEntry, back_by, back_one, backtrack, insert_from,
  delete_from,
}

abbrev pub cost : Op → ℕ
cost equal = 0
cost delete = 1
cost insert = 1

-- How many lines a script removes and adds.
abbrev pub edits : List EditStep → ℕ
edits [] = 0
edits (s ∷ r) = cost s.kind + edits r

pub edits-append : (s t : List EditStep) → edits (s ++ t) ≡ edits s + edits t
edits-append [] t = omega arith
edits-append (x ∷ s) t = omega (arith, edits-append s t)

pub edits-run : (t x y : ℕ) → edits (run t x y) ≡ 0
edits-run zero x y = refl
edits-run (suc t) x y = omega (arith, edits-run t (suc x) (suc y))

pub edits-back_by :
    (down : Bool) (px py x y : ℕ) (acc : List EditStep)
    → edits (back_by down px py x y acc).steps ≡ suc (edits acc)
edits-back_by true px py x y acc = omega (arith, edits-append (run _ _ _) acc, edits-run _ _ _)
edits-back_by false px py x y acc = omega (arith, edits-append (run _ _ _) acc, edits-run _ _ _)

pub edits-back_one :
    (e : TraceEntry) (d x y : ℕ) (acc : List EditStep)
    → edits (back_one e d x y acc).steps ≡ suc (edits acc)
unfolding back_one
edits-back_one e d x y acc = edits-back_by _ _ _ _ _ acc

-- The walk back makes one edit in each round.
pub edits-backtrack :
    (e : TraceEntry) (older : List TraceEntry) (x y : ℕ) (acc : List EditStep)
    → edits (backtrack (e ∷ older) x y acc) ≡ length older + edits acc
unfolding backtrack
edits-backtrack e [] x y acc = omega (
  arith,
  edits-append (run (min x y) (x - min x y) (y - min x y)) acc,
  edits-run (min x y) (x - min x y) (y - min x y),
)
edits-backtrack e (f ∷ older) x y acc =
    let d = suc (length older) in
    let b = back_one e d x y acc in
    let rest = edits-backtrack f older b.x b.y b.steps in
    omega (arith, rest, edits-back_one e d x y acc)

pub edits-insert_from : (i : ℕ) (l : List Bytes) → edits (insert_from i l) ≡ length l
unfolding insert_from
edits-insert_from i [] = refl
edits-insert_from i (x ∷ l) = omega (arith, edits-insert_from (suc i) l)

pub edits-delete_from : (i : ℕ) (l : List Bytes) → edits (delete_from i l) ≡ length l
unfolding delete_from
edits-delete_from i [] = refl
edits-delete_from i (x ∷ l) = omega (arith, edits-delete_from (suc i) l)
