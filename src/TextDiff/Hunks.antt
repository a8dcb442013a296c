-- ===== src/TextDiff/Hunks.antt =====
-- `group` of internal/textdiff/hunks.go. Its loops have fuel; the script's length is enough.
pub mod Extent
pub mod Counts
use kibitz.Prelude.{
  ℕ, zero, suc, ◌+◌, ◌-◌, ◌*◌, ◌==◌, ltb, min, Bool, true, false, not, ◌||◌, List, [], ◌∷◌, take,
  drop, length, if◌then◌else◌,
}
use kibitz.TextDiff.Script.{Op, equal, delete, insert, EditStep}

abbrev pub is_equal : Op → Bool
is_equal equal = true
is_equal delete = false
is_equal insert = false

abbrev pub stays : EditStep → Bool
stays s = is_equal s.kind

abbrev pub is_change : EditStep → Bool
is_change s = not (is_equal s.kind)

-- `for … p(script[i]) { i++ }`
unfoldable pub count_while : (EditStep → Bool) → List EditStep → ℕ
count_while p [] = 0
count_while p (s ∷ ss) = let n = count_while p ss in if p s then suc n else 0

abbrev pub adds_one : Op → ℕ
adds_one equal = 0
adds_one delete = 0
adds_one insert = 1

abbrev pub removes_one : Op → ℕ
removes_one equal = 0
removes_one delete = 1
removes_one insert = 0

abbrev pub count_ops : (Op → ℕ) → List EditStep → ℕ
count_ops f [] = 0
count_ops f (s ∷ ss) = f s.kind + count_ops f ss

pub record Hunk : Type 0 where
  pub steps : List EditStep
  pub additions : ℕ
  pub deletions : ℕ

-- The end of the changes that share a hunk.
unfoldable pub extend_run : ℕ → ℕ → List EditStep → ℕ → ℕ
unfolding count_while
extend_run zero context script end = end
extend_run (suc fuel) context script end =
    let end' = end + count_while is_change (drop end script) in
    let run = end' + count_while stays (drop end' script) in
    let further = extend_run fuel context script run in
    if ltb (2 * context) (run - end') || run == length script then end' else further

abbrev pub cut_hunk : List EditStep → ℕ → ℕ → Hunk
cut_hunk script from to =
    let steps = take (to - from) (drop from script) in
    record {
      steps = steps;
      additions = count_ops adds_one steps;
      deletions = count_ops removes_one steps;
    }

unfoldable pub group_from : ℕ → List EditStep → ℕ → ℕ → List Hunk
unfolding extend_run
group_from zero script context i = []
group_from (suc fuel) script context i =
    let start = i + count_while stays (drop i script) in
    let to = min (extend_run (length script) context script start + context) (length script) in
    let rest = group_from fuel script context to in
    if start == length script then [] else cut_hunk script (start - context) to ∷ rest

unfoldable pub group : List EditStep → ℕ → List Hunk
unfolding group_from
group script context = group_from (length script) script context 0
