-- ===== src/TextDiff/Slide.antt =====
-- `slide` of internal/textdiff/compact.go: the two arrays are one list of marked lines, and the loops over
-- indices one walk over it.
pub mod Kept
use kibitz.Prelude.{ℕ, suc, Bool, true, false, List, [], ◌∷◌, ◌++◌, if◌then◌else◌, Bytes, str_eq}

-- A line, unchanged or changed.
pub data Marked : Type 0 where
  same changed : Bytes → Marked

abbrev pub mark : List Bytes → List Marked
mark [] = []
mark (l ∷ ls) = changed l ∷ mark ls

-- Where the loops are: between two runs; at the end of the run `first ∷ rest` that is still being
-- measured; or sliding it.
pub data At : Type 0 where
  between : At
  measuring sliding : Bytes → List Bytes → At

-- The run moves down by a line, and its new first line is the one after the old.
abbrev pub moved : List Bytes → Bytes → (Bytes → List Bytes → List Marked) → List Marked
moved [] y onward = onward y []
moved (x ∷ xs) y onward = onward x (xs ++ y ∷ [])

unfoldable pub walk : At → List Marked → List Marked
walk between [] = []
walk (measuring f run) [] = mark (f ∷ run)
walk (sliding f run) [] = mark (f ∷ run)
walk between (same y ∷ r) = same y ∷ walk between r
walk between (changed y ∷ r) = walk (measuring y []) r
walk (measuring f run) (changed y ∷ r) = walk (measuring f (run ++ y ∷ [])) r
walk (sliding f run) (changed y ∷ r) = mark (f ∷ run) ++ walk (measuring y []) r
walk (measuring f run) (same y ∷ r) =
    let onward = λ (x : Bytes) (xs : List Bytes). walk (sliding x xs) r in
    let stopped = walk between r in
    if str_eq f y then same f ∷ moved run y onward else mark (f ∷ run) ++ same y ∷ stopped
walk (sliding f run) (same y ∷ r) =
    let onward = λ (x : Bytes) (xs : List Bytes). walk (sliding x xs) r in
    let stopped = walk between r in
    if str_eq f y then same f ∷ moved run y onward else mark (f ∷ run) ++ same y ∷ stopped

unfoldable pub slide : List Marked → List Marked
unfolding walk
slide l = walk between l
