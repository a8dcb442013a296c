-- ===== src/TextDiff/Rebase.antt =====
-- `rebase` of internal/textdiff/hunks.go, and the trimming of both ends around the search in `Unified` of
-- internal/textdiff/textdiff.go.
pub mod Whole
use kibitz.Prelude.{ℕ, ◌+◌, ◌-◌, List, [], ◌∷◌, ◌++◌, map, take, drop, length, Bytes}
use kibitz.TextDiff.Lines.{common_prefix, common_suffix}
use kibitz.TextDiff.Script.{EditStep, step, run, diff_lines}
use kibitz.TextDiff.Compact.{compact}

abbrev pub shift : ℕ → EditStep → EditStep
shift prefix s = step s.kind (s.old + prefix) (s.cur + prefix)

-- `rebase`, by the lengths of the two texts
unfoldable pub rebase : List EditStep → ℕ → ℕ → ℕ → ℕ → List EditStep
rebase script prefix n m suffix =
    run prefix 0 0 ++ (map (shift prefix) script ++ run suffix (n - suffix) (m - suffix))

abbrev pub slice : List Bytes → ℕ → ℕ → List Bytes
slice l from to = take (to - from) (drop from l)

unfoldable pub suffix_of : List Bytes → List Bytes → ℕ
suffix_of old cur = let p = common_prefix old cur in common_suffix (drop p old) (drop p cur)

-- The script of the whole file, before it is cut into hunks.
unfoldable pub edit_script : List Bytes → List Bytes → ℕ → List EditStep
edit_script old cur max_edits =
    let p = common_prefix old cur in
    let s = suffix_of old cur in
    let found =
      diff_lines (slice old p (length old - s)) (slice cur p (length cur - s)) max_edits in
    compact (rebase found.0 p (length old) (length cur) s) old cur
