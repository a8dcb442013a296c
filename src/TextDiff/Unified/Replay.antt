-- ===== src/TextDiff/Unified/Replay.antt =====
-- The two versions of a file, read back from its edit script.
use kibitz.Prelude.{
  ℕ, suc, ◌<◌, ◌≡◌, sym, ◌∙◌, ap, arith, List, [], ◌∷◌, drop, length, get_elem?, Bytes,
}
use kibitz.TextDiff.Script.{Op, equal, delete, insert, EditStep}
use kibitz.TextDiff.Script.Walks.{Fits, Walk, old_on, cur_on}
use kibitz.TextDiff.Compact.Rebuilt.{drop-suc, drop-all}
use kibitz.TextDiff.Rebase.{edit_script}
use kibitz.TextDiff.Rebase.Whole.{edit_script-Walk}
use kibitz.TextDiff.Unified.{line_at, line_or}

abbrev pub old_lines : Op → Bytes → List Bytes → List Bytes
old_lines equal l ls = l ∷ ls
old_lines delete l ls = l ∷ ls
old_lines insert l ls = ls

abbrev pub new_lines : Op → Bytes → Bytes → List Bytes → List Bytes
new_lines equal k l ls = k ∷ ls
new_lines delete k l ls = ls
new_lines insert k l ls = l ∷ ls

-- The lines that a script keeps or removes, in its order.
abbrev pub old_text : List Bytes → List EditStep → List Bytes
old_text old [] = []
old_text old (s ∷ r) = old_lines s.kind (line_at old s.old) (old_text old r)

-- The lines that it keeps, read in the old text, and those that it adds.
abbrev pub new_text : List Bytes → List Bytes → List EditStep → List Bytes
new_text old cur [] = []
new_text old cur (s ∷ r) =
    new_lines s.kind (line_at old s.old) (line_at cur s.cur) (new_text old cur r)

-- A line that stands at an index.
line_at-drop :
    (l : List Bytes) (i k : ℕ) → k ≡ i → i < length l → drop i l ≡ line_at l k ∷ drop (suc i) l
line_at-drop l i k e h =
    let (a, d, g) = drop-suc i l h in
    d ∙ ap (λ t. t ∷ drop (suc i) l) (sym (ap (λ n. line_at l n) e ∙ ap line_or g))

line_at-alike :
    (old cur : List Bytes) (i j k l : ℕ)
    → k ≡ i
    → l ≡ j
    → get_elem? old i ≡ get_elem? cur j
    → line_at old k ≡ line_at cur l
line_at-alike old cur i j k l e f alike =
    ap (λ n. line_at old n) e ∙ ap line_or alike ∙ sym (ap (λ n. line_at cur n) f)

Walk-texts :
    (old cur : List Bytes) (script : List EditStep) (i j : ℕ)
    → Walk old cur script i j
    → (old_text old script ≡ drop i old) × (new_text old cur script ≡ drop j cur)
Walk-texts old cur [] i j (ei, ej) =
    (sym (drop-all i old (omega arith)), sym (drop-all j cur (omega arith)))
Walk-texts old cur (s ∷ r) i j (fits, w) = go s.kind fits (Walk-texts old cur r _ _ w)
  where
    go :
        (o : Op)
        → Fits old cur o s i j
        → (old_text old r ≡ drop (old_on o i) old) × (new_text old cur r ≡ drop (cur_on o j) cur)
        → (old_lines o (line_at old s.old) (old_text old r) ≡ drop i old)
          × (new_lines o (line_at old s.old) (line_at cur s.cur) (new_text old cur r) ≡ drop j cur)
    go equal (so, sc, lt_i, lt_j, alike) (ih, ih') = (
      rw ih (sym (line_at-drop old i s.old so lt_i)),
      rw ih' (
          rw (line_at-alike old cur i j s.old s.cur so sc alike)
            (sym (line_at-drop cur j s.cur sc lt_j))),
    )
    go delete (so, lt_i) (ih, ih') = (rw ih (sym (line_at-drop old i s.old so lt_i)), ih')
    go insert (sc, lt_j) (ih, ih') = (ih, rw ih' (sym (line_at-drop cur j s.cur sc lt_j)))

-- The edit script of a file is right about both versions, whatever the cap on the search: the lines that it keeps
-- or removes are the old version, and the old lines that it keeps, with those that it adds, are the new one.
pub edit_script-texts :
    (old cur : List Bytes) (max_edits : ℕ)
    → (old_text old (edit_script old cur max_edits) ≡ old)
      × (new_text old cur (edit_script old cur max_edits) ≡ cur)
edit_script-texts old cur max_edits =
    Walk-texts old cur (edit_script old cur max_edits) 0 0 (edit_script-Walk old cur max_edits)
