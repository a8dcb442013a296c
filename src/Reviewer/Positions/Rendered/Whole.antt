-- ===== src/Reviewer/Positions/Rendered/Whole.antt =====
-- The patch of two texts, read back by the reviewer.
use kibitz.Prelude.{
  ℕ, ◌==◌, ◌≡◌, ◌↔◌, ◌⊎◌, inl, inr, sym, ap, subst, ◌∙◌, arith, true, false, List, [], ◌∷◌, ◌++◌,
  any, append_assoc, append-nil, Bytes, str_eq, push_byte, Each, Bool-cases,
}
use kibitz.TextDiff.Lines.{newline, split_lines}
use kibitz.TextDiff.Script.{EditStep}
use kibitz.TextDiff.Rebase.{edit_script}
use kibitz.TextDiff.Hunks.{Hunk, group}
use kibitz.TextDiff.Unified.{Options, Diff, default_to, write_hunks, diff_texts, unified}
use kibitz.Reviewer.Positions.{commentable_lines}
use kibitz.Reviewer.Positions.Rendered.{IsLine, rendered, AllStart}
use kibitz.Reviewer.Positions.Rendered.Patch.{InHunk, IsJustAfter, rendered-commentable}

abbrev pub steps_of : List Hunk → List (List EditStep)
steps_of [] = []
steps_of (h ∷ hs) = h.steps ∷ steps_of hs

write_hunks-rendered :
    (old cur : List Bytes) (hs : List Hunk) (d : Diff)
    → (write_hunks old cur hs d).patch ≡ d.patch ++ rendered old cur (steps_of hs)
unfolding write_hunks
write_hunks-rendered old cur [] d = sym (append-nil d.patch)
write_hunks-rendered old cur (h ∷ hs) d =
    write_hunks-rendered old cur hs _ ∙ append_assoc d.patch _ _

push_byte-IsLine :
    (c : ℕ) (ls : List Bytes)
    → (c == newline) ≡ false
    → Each IsLine ls
    → Each IsLine (push_byte c ls)
push_byte-IsLine c [] other h = (inl (other, tt), tt)
push_byte-IsLine c (l ∷ ls) other (inl plain, h) = (inl (other, plain), h)
push_byte-IsLine c (l ∷ ls) other (inr (s, plain, e), h) =
    (inr (c ∷ s, (other, plain), ap (λ t. c ∷ t) e), h)

split_lines-IsLine : (s : Bytes) → Each IsLine (split_lines s)
unfolding split_lines
split_lines-IsLine [] = tt
split_lines-IsLine (c ∷ s) = elim (Bool-cases (c == newline)) [
  | inl end ↦ rw end (inr ([], tt, ap (λ d. d ∷ []) (ground (arith, end))), split_lines-IsLine s)
  | inr other ↦ rw other (push_byte-IsLine c (split_lines s) other (split_lines-IsLine s))
]

-- The hunks that the diff of two texts is made of.
abbrev pub hunks_of : Bytes → Bytes → Options → List (List EditStep)
hunks_of before after o = steps_of (
    group (edit_script (split_lines before) (split_lines after) (default_to o.max_edits 1500))
      (default_to o.context 3))

diff_texts-rendered :
    (before after : Bytes) (o : Options)
    → (diff_texts (split_lines before) (split_lines after) o).patch
      ≡ rendered (split_lines before) (split_lines after) (hunks_of before after o)
unfolding diff_texts
diff_texts-rendered before after o =
    write_hunks-rendered (split_lines before) (split_lines after) _ _

unified-rendered :
    (before after : Bytes) (o : Options)
    → str_eq before after ≡ false
    → (unified before after o).binary ≡ false
    → (unified before after o).too_large ≡ false
    → (unified before after o).patch
      ≡ rendered (split_lines before) (split_lines after) (hunks_of before after o)
unfolding unified
unified-rendered before after o differ text small =
    ground (arith, differ, text, small, diff_texts-rendered before after o)

-- The patch of two texts that differ, neither binary nor too large, read back by the reviewer: if it has a hunk, and
-- each hunk has a step and starts at a positive number that is an int64, a line of the new text takes a comment
-- exactly when it is on the new side of a hunk, or is the one after the last hunk.
pub unified-commentable :
    (before after : Bytes) (o : Options) (h : List EditStep) (hs : List (List EditStep)) (n : ℕ)
    → str_eq before after ≡ false
    → (unified before after o).binary ≡ false
    → (unified before after o).too_large ≡ false
    → hunks_of before after o ≡ h ∷ hs
    → AllStart (h ∷ hs)
    → (any (λ l. l == n) (commentable_lines (unified before after o).patch) ≡ true)
      ↔ (InHunk (h ∷ hs) n ⊎ IsJustAfter (h ∷ hs) n)
unified-commentable before after o h hs n differ text small hunks starts =
    let patch =
      unified-rendered before after o differ text small
      ∙ ap (rendered (split_lines before) (split_lines after)) hunks in
    subst
      (λ p.
        (any (λ l. l == n) (commentable_lines p) ≡ true)
        ↔ (InHunk (h ∷ hs) n ⊎ IsJustAfter (h ∷ hs) n))
      (sym patch)
      (rendered-commentable (split_lines before) (split_lines after) h hs n
        (split_lines-IsLine before) (split_lines-IsLine after) starts)
