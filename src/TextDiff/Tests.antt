-- ===== src/TextDiff/Tests.antt =====
-- A run of changed lines slid down, and a small file diffed.
use kibitz.Prelude.{
  ◌⊎◌, ◌↔◌, ◌==◌, any, true, arith, ◌≡◌, refl, List, [], ◌∷◌, ◌++◌, Bytes, codes, false,
}
use kibitz.Prelude.Decimal.{format_uint}
use kibitz.TextDiff.Lines.{newline, split_lines, is_binary, common_prefix, common_suffix}
use kibitz.TextDiff.Script.{
  EditStep, equal, delete, insert, step, diff_lines, diagonals, snake, at, back_one, backtrack,
  delete_from, insert_from, search, trim_row,
}
use kibitz.TextDiff.Script.Sound.{diff_lines-Walk}
use kibitz.TextDiff.Script.Shortest.{IsShortest, diff_lines-IsShortest}
use kibitz.TextDiff.Slide.{Marked, same, changed, slide, walk}
use kibitz.TextDiff.Compact.{compact, rebuild, mark_by}
use kibitz.TextDiff.Hunks.{group, group_from, extend_run, count_while}
use kibitz.TextDiff.Rebase.{edit_script, rebase, suffix_of}
use kibitz.TextDiff.Unified.{
  Options, unified, diff_texts, write_hunks, is_exact, render, rng, span, span_from, write_line,
  write_steps,
}
use kibitz.Reviewer.Positions.{commentable_lines}
use kibitz.Reviewer.Positions.Rendered.Patch.{InHunk, IsJustAfter}
use kibitz.Reviewer.Positions.Rendered.Whole.{unified-commentable}
use kibitz.TextDiff.Unified.Replay.{old_text, new_text, edit_script-texts}

-- A function added after another: the closing brace of the change moves to its own.
abbrev added_function : List Marked
added_function =
    same (codes "f")
    ∷ changed (codes "}")
    ∷ changed (codes "g")
    ∷ same (codes "}")
    ∷ same (codes "h")
    ∷ []

added-slid :
    slide added_function
    ≡ same (codes "f")
      ∷ same (codes "}")
      ∷ changed (codes "g")
      ∷ changed (codes "}")
      ∷ same (codes "h")
      ∷ []
unfolding slide
added-slid = refl

abbrev line : Bytes → Bytes
line s = s ++ newline ∷ []

abbrev small_old : List Bytes
small_old = line (codes "a") ∷ line (codes "b") ∷ line (codes "c") ∷ []

abbrev small_new : List Bytes
small_new =
    line (codes "a") ∷ line (codes "x") ∷ line (codes "y") ∷ line (codes "c") ∷ codes "d" ∷ []

-- One line replaced by two, and one added at the end.
script_run :
    edit_script small_old small_new 1500
    ≡ step equal 0 0
      ∷ step delete 1 1
      ∷ step insert 2 1
      ∷ step insert 2 2
      ∷ step equal 2 3
      ∷ step insert 3 4
      ∷ []
unfolding edit_script kibitz.TextDiff.Compact.compact kibitz.TextDiff.Compact.rebuild slide
    kibitz.TextDiff.Compact.mark_by kibitz.TextDiff.Rebase.rebase
    kibitz.TextDiff.Lines.common_prefix diff_lines kibitz.TextDiff.Rebase.suffix_of
    kibitz.TextDiff.Lines.common_suffix kibitz.TextDiff.Script.diagonals
    kibitz.TextDiff.Script.snake kibitz.TextDiff.Script.at kibitz.TextDiff.Script.trim_row
script_run = refl

-- The search gives up past its cap.
capped_run :
    diff_lines (codes "a" ∷ []) (codes "b" ∷ []) 1 ≡ (step delete 0 0 ∷ step insert 0 0 ∷ [], false)
unfolding diff_lines kibitz.TextDiff.Script.diagonals kibitz.TextDiff.Script.snake
    kibitz.TextDiff.Lines.common_prefix kibitz.TextDiff.Script.delete_from
    kibitz.TextDiff.Script.insert_from
capped_run = refl

edit_script-texts_example :
    (old_text small_old (edit_script small_old small_new 1500) ≡ small_old)
    × (new_text small_old small_new (edit_script small_old small_new 1500) ≡ small_new)
edit_script-texts_example = edit_script-texts small_old small_new 1500

abbrev old_file : Bytes
old_file = line (codes "a") ++ line (codes "b")

abbrev new_file : Bytes
new_file = line (codes "a") ++ line (codes "c") ++ codes "d"

abbrev options : Options
options = record { context = 0; max_lines = 0; max_edits = 0 }

patch_run :
    (unified old_file new_file options).patch
    ≡ line (codes "@@ -1,2 +1,3 @@")
      ++ line (codes " a")
      ++ line (codes "-b")
      ++ line (codes "+c")
      ++ line (codes "+d")
      ++ line (codes "\\ No newline at end of file")
unfolding unified is_binary split_lines diff_texts write_hunks group edit_script compact rebuild
    slide mark_by rebase common_prefix diff_lines suffix_of common_suffix diagonals snake
    format_uint count_while extend_run group_from at back_one backtrack delete_from insert_from
    search trim_row walk is_exact render rng span span_from write_line write_steps
patch_run = refl

-- Against the script that replaces every line.
diff_lines-IsShortest_example :
    IsShortest (diff_lines small_old small_new 1500) 1500 (diff_lines small_old small_new 0).0
diff_lines-IsShortest_example =
    diff_lines-IsShortest small_old small_new 1500 (diff_lines small_old small_new 0).0
      (diff_lines-Walk small_old small_new 0)

abbrev only_hunk : List EditStep
only_hunk = step equal 0 0 ∷ step delete 1 1 ∷ step insert 2 1 ∷ step insert 2 2 ∷ []

-- The third line is the last of the new text; the fourth, which is not there, takes a comment too.
unified-commentable_example :
    (any (λ l. l == 4) (commentable_lines (unified old_file new_file options).patch) ≡ true)
    ↔ (InHunk (only_hunk ∷ []) 4 ⊎ IsJustAfter (only_hunk ∷ []) 4)
unfolding unified is_binary split_lines diff_texts write_hunks group edit_script compact rebuild
    slide mark_by rebase common_prefix diff_lines suffix_of common_suffix diagonals snake
    format_uint count_while extend_run group_from at back_one backtrack delete_from insert_from
    search trim_row walk is_exact render rng span span_from write_line write_steps
unified-commentable_example =
    unified-commentable old_file new_file options only_hunk [] 4 refl refl refl refl
      (omega arith, omega arith, tt)
