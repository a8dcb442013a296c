-- ===== src/TextDiff/Compact.antt =====
-- `compact` and `rebuild` of internal/textdiff/compact.go. The Boolean slices that say what is changed are
-- marks on the lines themselves.
pub mod Rebuilt
use kibitz.Prelude.{
  ℕ, zero, suc, ◌+◌, ◌==◌, Bool, true, false, ◌&&◌, List, [], ◌∷◌, any, if◌then◌else◌, Bytes,
}
use kibitz.TextDiff.Script.{Op, equal, delete, insert, EditStep, step}
use kibitz.TextDiff.Slide.{Marked, same, changed, slide}

-- Whether a step removes the old line, or adds the new one, at an index.
abbrev pub removes : ℕ → Op → EditStep → Bool
removes i delete s = s.old == i
removes i equal s = false
removes i insert s = false

abbrev pub adds : ℕ → Op → EditStep → Bool
adds i insert s = s.cur == i
adds i equal s = false
adds i delete s = false

abbrev pub removed : ℕ → EditStep → Bool
removed i s = removes i s.kind s

abbrev pub added : ℕ → EditStep → Bool
added i s = adds i s.kind s

-- The lines from an index on, changed where a step says so.
unfoldable pub mark_by : (ℕ → EditStep → Bool) → List EditStep → ℕ → List Bytes → List Marked
mark_by changes script i [] = []
mark_by changes script i (l ∷ ls) =
    (if any (changes i) script then changed l else same l) ∷ mark_by changes script (suc i) ls

-- `rebuild`, from (i, j) on. Where one side is at its end and the other at an unchanged line, the
-- source's loop steps past both.
unfoldable pub rebuild : ℕ → ℕ → List Marked → List Marked → List EditStep
rebuild i j [] [] = []
rebuild i j (changed l ∷ os) cs = step delete i j ∷ rebuild (suc i) j os cs
rebuild i j [] (changed l ∷ cs) = step insert i j ∷ rebuild i (suc j) [] cs
rebuild i j (same k ∷ os) (changed l ∷ cs) = step insert i j ∷ rebuild i (suc j) (same k ∷ os) cs
rebuild i j (same k ∷ os) (same l ∷ cs) = step equal i j ∷ rebuild (suc i) (suc j) os cs
rebuild i j (same k ∷ os) [] = step equal i j ∷ rebuild (suc i) (suc j) os []
rebuild i j [] (same l ∷ cs) = step equal i j ∷ rebuild (suc i) (suc j) [] cs

unfoldable pub compact : List EditStep → List Bytes → List Bytes → List EditStep
compact script old cur =
    rebuild 0 0 (slide (mark_by removed script 0 old)) (slide (mark_by added script 0 cur))
