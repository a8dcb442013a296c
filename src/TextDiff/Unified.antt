-- ===== src/TextDiff/Unified.antt =====
-- `render` and what it calls, of internal/textdiff/hunks.go, and `Unified` of internal/textdiff/textdiff.go.
pub mod Balance
pub mod Replay
use kibitz.Prelude.{
  ℕ, zero, suc, ◌+◌, ◌-◌, ◌==◌, ltb, min, Bool, true, false, not, ◌||◌, Option, none, some, List,
  [], ◌∷◌, ◌++◌, length, get_elem?, if◌then◌else◌, Bytes, codes, str_eq, has_suffix,
}
use kibitz.Prelude.Decimal.{format_uint}
use kibitz.TextDiff.Lines.{newline, split_lines, is_binary, common_prefix}
use kibitz.TextDiff.Script.{Op, equal, delete, insert, EditStep, diff_lines}
use kibitz.TextDiff.Rebase.{slice, suffix_of, edit_script}
use kibitz.TextDiff.Hunks.{adds_one, removes_one, Hunk, group}

-- A line with no newline is the last one of its file.
abbrev pub no_newline : Bytes
no_newline = (newline ∷ []) ++ codes "\\ No newline at end of file" ++ newline ∷ []

unfoldable pub write_line : ℕ → Bytes → Bytes
write_line prefix line =
    prefix ∷ (if has_suffix line (newline ∷ []) then line else line ++ no_newline)

-- The line that a step names: in the source an index past the end panics.
abbrev pub line_or : Option Bytes → Bytes
line_or none = []
line_or (some line) = line

abbrev pub line_at : List Bytes → ℕ → Bytes
line_at l i = line_or (get_elem? l i)

abbrev pub write_step : List Bytes → List Bytes → Op → EditStep → Bytes
write_step old cur equal s = write_line b' ' (line_at old s.old)
write_step old cur delete s = write_line b'-' (line_at old s.old)
write_step old cur insert s = write_line b'+' (line_at cur s.cur)

abbrev pub old_one : Op → ℕ
old_one equal = 1
old_one delete = 1
old_one insert = 0

abbrev pub cur_one : Op → ℕ
cur_one equal = 1
cur_one delete = 0
cur_one insert = 1

-- `span` and `position`: the side by what counts a line of it, and by its index in a step. The first line's
-- index is the one found before, where there is one.
abbrev pub first_or : Option ℕ → ℕ → Option ℕ
first_or none i = some i
first_or (some f) i = some f

unfoldable pub span_from : (Op → ℕ) → (EditStep → ℕ) → List EditStep → Option ℕ → ℕ → Option ℕ × ℕ
span_from on index [] first n = (first, n)
span_from on index (s ∷ ss) first n =
    let counted = span_from on index ss (first_or first (index s)) (n + 1) in
    let other = span_from on index ss first n in if on s.kind == 0 then other else counted

abbrev pub position : (EditStep → ℕ) → List EditStep → ℕ
position index [] = 0
position index (s ∷ ss) = index s

abbrev pub spanned : Option ℕ × ℕ → ℕ → ℕ × ℕ
spanned (none, n) before = (before, 0)
spanned (some f, n) before = (f + 1, n)

unfoldable pub span : (Op → ℕ) → (EditStep → ℕ) → List EditStep → ℕ × ℕ
unfolding span_from
span on index steps = spanned (span_from on index steps none 0) (position index steps)

unfoldable pub rng : ℕ × ℕ → Bytes
rng (start, n) = if n == 1 then format_uint start else format_uint start ++ b',' ∷ format_uint n

unfoldable pub write_steps : List Bytes → List Bytes → List EditStep → Bytes
unfolding write_line
write_steps old cur [] = []
write_steps old cur (s ∷ ss) = write_step old cur s.kind s ++ write_steps old cur ss

abbrev pub hunk_header : ℕ × ℕ → ℕ × ℕ → Bytes
hunk_header old cur = codes "@@ -" ++ (rng old ++ (codes " +" ++ (rng cur ++ codes " @@")))

unfoldable pub render : List Bytes → List Bytes → List EditStep → Bytes
unfolding span write_steps
render old cur [] = []
render old cur (s ∷ ss) =
    hunk_header (span old_one (λ t. t.old) (s ∷ ss)) (span cur_one (λ t. t.cur) (s ∷ ss))
    ++ newline ∷ write_steps old cur (s ∷ ss)

pub record Options : Type 0 where
  pub context : ℕ
  pub max_lines : ℕ
  pub max_edits : ℕ

abbrev pub default_to : ℕ → ℕ → ℕ
default_to n d = if ltb 0 n then n else d

pub record Diff : Type 0 where
  pub patch : Bytes
  pub additions : ℕ
  pub deletions : ℕ
  pub binary : Bool
  pub too_large : Bool
  pub approximate : Bool

abbrev pub no_diff : Diff
no_diff = record {
  patch = [];
  additions = 0;
  deletions = 0;
  binary = false;
  too_large = false;
  approximate = false;
}

unfoldable pub write_hunks : List Bytes → List Bytes → List Hunk → Diff → Diff
write_hunks old cur [] d = d
write_hunks old cur (h ∷ hs) d = write_hunks old cur hs (record {
  patch = d.patch ++ render old cur h.steps;
  additions = d.additions + h.additions;
  deletions = d.deletions + h.deletions;
  binary = d.binary;
  too_large = d.too_large;
  approximate = d.approximate;
})

-- `diffLines` on what is left between the common ends: whether the script is the shortest.
unfoldable pub is_exact : List Bytes → List Bytes → ℕ → Bool
is_exact old cur max_edits =
    let p = common_prefix old cur in
    let s = suffix_of old cur in
    (diff_lines (slice old p (length old - s)) (slice cur p (length cur - s)) max_edits).1

unfoldable pub diff_texts : List Bytes → List Bytes → Options → Diff
diff_texts old cur o =
    let max_edits = default_to o.max_edits 1500 in
    let hunks = group (edit_script old cur max_edits) (default_to o.context 3) in
    write_hunks old cur hunks (record {
      patch = [];
      additions = 0;
      deletions = 0;
      binary = false;
      too_large = false;
      approximate = not (is_exact old cur max_edits);
    })

-- `Unified`
unfoldable pub unified : Bytes → Bytes → Options → Diff
unified before after o =
    let old = split_lines before in
    let cur = split_lines after in
    let max_lines = default_to o.max_lines 20000 in
    if str_eq before after
    then no_diff
    else if is_binary before || is_binary after
    then record {
      patch = [];
      additions = 0;
      deletions = 0;
      binary = true;
      too_large = false;
      approximate = false;
    }
    else if ltb max_lines (length old) || ltb max_lines (length cur)
    then record {
      patch = [];
      additions = 0;
      deletions = 0;
      binary = false;
      too_large = true;
      approximate = false;
    }
    else diff_texts old cur o
