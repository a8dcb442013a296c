-- ===== src/TextDiff/Unified/Balance.antt =====
-- What the diff of a file says, read back.
use kibitz.Prelude.{
  ℕ, ◌+◌, ◌≡◌, refl, ap, arith, true, false, List, [], ◌∷◌, length, Bytes, str_eq, str_eq→eq,
}
use kibitz.TextDiff.Lines.{split_lines}
use kibitz.TextDiff.Script.{Op, equal, delete, insert, EditStep}
use kibitz.TextDiff.Script.Walks.{Walk, old_on, cur_on}
use kibitz.TextDiff.Rebase.{edit_script}
use kibitz.TextDiff.Rebase.Whole.{edit_script-Walk}
use kibitz.TextDiff.Hunks.{adds_one, removes_one, count_ops, Hunk, group}
use kibitz.TextDiff.Hunks.Counts.{total, group-count}
use kibitz.TextDiff.Unified.{Options, Diff, write_hunks, default_to, diff_texts, unified}

Walk-balance :
    (old cur : List Bytes) (script : List EditStep) (i j : ℕ)
    → Walk old cur script i j
    → length old + j + count_ops adds_one script ≡ length cur + i + count_ops removes_one script
Walk-balance old cur [] i j (ei, ej) = omega arith
Walk-balance old cur (s ∷ r) i j (fits, w) = go s.kind (Walk-balance old cur r _ _ w)
  where
    go :
        (o : Op)
        → length old + cur_on o j + count_ops adds_one r
          ≡ length cur + old_on o i + count_ops removes_one r
        → length old + j + (adds_one o + count_ops adds_one r)
          ≡ length cur + i + (removes_one o + count_ops removes_one r)
    go equal ih = omega arith
    go delete ih = omega arith
    go insert ih = omega arith

write_hunks-total :
    (old cur : List Bytes) (hs : List Hunk) (d : Diff)
    → ((write_hunks old cur hs d).additions ≡ d.additions + total (λ h. h.additions) hs)
      × ((write_hunks old cur hs d).deletions ≡ d.deletions + total (λ h. h.deletions) hs)
unfolding write_hunks
write_hunks-total old cur [] d = omega arith
write_hunks-total old cur (h ∷ hs) d = omega (arith, write_hunks-total old cur hs _)

diff_texts-balance :
    (old cur : List Bytes) (o : Options)
    → length old + (diff_texts old cur o).additions ≡ length cur + (diff_texts old cur o).deletions
unfolding diff_texts
diff_texts-balance old cur o =
    let max_edits = default_to o.max_edits 1500 in
    let script = edit_script old cur max_edits in
    omega (
      arith,
      write_hunks-total old cur (group script (default_to o.context 3)) _,
      group-count adds_one refl (λ h. h.additions) (λ s from to. refl) script
          (default_to o.context 3),
      group-count removes_one refl (λ h. h.deletions) (λ s from to. refl) script
          (default_to o.context 3),
      Walk-balance old cur script 0 0 (edit_script-Walk old cur max_edits),
    )

-- Where a file was diffed, being neither binary nor too large, the counts add up: the lines of the old version
-- and those counted as added are as many as the lines of the new version and those counted as deleted.
pub unified-balance :
    (before after : Bytes) (o : Options)
    → (unified before after o).binary ≡ false
    → (unified before after o).too_large ≡ false
    → length (split_lines before) + (unified before after o).additions
      ≡ length (split_lines after) + (unified before after o).deletions
unfolding unified
unified-balance before after o text small = ground (
  arith,
  diff_texts-balance (split_lines before) (split_lines after) o,
  λ (e : str_eq before after ≡ true). ap (λ t. length (split_lines t)) (str_eq→eq before after e),
)
