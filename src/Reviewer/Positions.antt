-- ===== src/Reviewer/Positions.antt =====
-- internal/reviewer/diffmap.go. A set of line numbers is the list of those that were put in it.
pub mod Hunks
pub mod Headers
pub mod Rendered
use kibitz.Prelude.{
  ℕ, zero, suc, ◌+◌, ◌^◌, ◌==◌, leb, Bool, true, false, not, ◌&&◌, ◌||◌, Option, none, some, List,
  [], ◌∷◌, ◌++◌, any, drop, if◌then◌else◌, Bytes, codes, str_eq, has_prefix, split, index_byte,
  trim_space, is_empty,
}
use kibitz.Prelude.Table.{Table, get, put}
use kibitz.Prelude.Int.{ℤ, pos, negsuc}
use kibitz.Prelude.Decimal.{parse_uint}
use kibitz.TextDiff.Lines.{newline}

-- strings.Cut at one byte: what is before it and what is after.
abbrev pub cut_before : ℕ → Bytes → Bytes
cut_before c [] = []
cut_before c (d ∷ s) = if d == c then [] else d ∷ cut_before c s

abbrev pub cut_after : ℕ → Bytes → Option Bytes
cut_after c [] = none
cut_after c (d ∷ s) = if d == c then some s else cut_after c s

-- strconv.Atoi, where it gives a positive number: a sign may stand before the digits.
abbrev pub positive_only : Option ℕ → Option ℕ
positive_only none = none
positive_only (some n) = if n == 0 || leb (2 ^ 63) n then none else some n

abbrev pub atoi_pos : Bytes → Option ℕ
atoi_pos [] = none
atoi_pos (c ∷ s) =
    if c == b'-'
    then none
    else if c == b'+'
    then positive_only (parse_uint s)
    else positive_only (parse_uint (c ∷ s))

-- `parseHunkStart`
abbrev pub start_of : Option Bytes → Option ℕ
start_of none = none
start_of (some rest) = atoi_pos (trim_space (cut_before b',' (cut_before b' ' rest)))

unfoldable pub parse_hunk_start : Bytes → Option ℕ
unfolding parse_uint
parse_hunk_start header = start_of (cut_after b'+' header)

-- How a raw line of a patch is read.
pub data Raw : Type 0 where
  header : Option ℕ → Raw
  new_side old_side remark : Raw

unfoldable pub classify : Bytes → Raw
unfolding parse_hunk_start
classify raw =
    if has_prefix raw (codes "@@")
    then header (parse_hunk_start raw)
    else if has_prefix raw (codes "+")
    then new_side
    else if has_prefix raw (codes "-")
    then old_side
    else if has_prefix raw (codes "\\")
    then remark
    else new_side

-- One round of the loop: the line number after it, and the line that it adds to the set.
abbrev pub next_line : ℕ → Raw → ℕ
next_line current (header none) = current
next_line current (header (some start)) = start
next_line current new_side = if current == 0 then 0 else suc current
next_line current old_side = current
next_line current remark = current

abbrev pub marks : ℕ → Raw → Bool
marks current new_side = not (current == 0)
marks current (header start) = false
marks current old_side = false
marks current remark = false

unfoldable pub collect : ℕ → List Bytes → List ℕ
unfolding classify
collect current [] = []
collect current (raw ∷ rest) =
    let lines = collect (next_line current (classify raw)) rest in
    if marks current (classify raw) then current ∷ lines else lines

-- `commentableLines`
unfoldable pub commentable_lines : Bytes → List ℕ
unfolding collect
commentable_lines patch = collect 0 (split newline patch)

pub record FileDiff : Type 0 where
  pub path : Bytes
  pub patch : Bytes

abbrev pub Positions : Type 0
Positions = Table (List ℕ)

-- `NewPositions`
unfoldable pub add_files : Positions → List FileDiff → Positions
unfolding commentable_lines
add_files p [] = p
add_files p (f ∷ fs) =
    let skipped = add_files p fs in
    let added = add_files (put f.path (commentable_lines f.patch) p) fs in
    if is_empty f.patch then skipped else added

abbrev pub line_in : List ℕ → ℤ → Bool
line_in lines (pos n) = any (λ l. l == n) lines
line_in lines (negsuc n) = false

abbrev pub allowed : Option (List ℕ) → ℤ → Bool
allowed none line = false
allowed (some lines) line = line_in lines line

-- `Positions.Allows`
unfoldable pub allows_line : Positions → Bytes → ℤ → Bool
allows_line p path line = allowed (get path p) line
