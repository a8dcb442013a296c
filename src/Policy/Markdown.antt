-- ===== src/Policy/Markdown.antt =====
-- internal/policy/markdown.go: a comment without the parts that quote code. A loop over an index that
-- jumps is a walk over the bytes with a count of those still to be jumped over.
pub mod Lines
use kibitz.Prelude.{
  ℕ, zero, suc, ◌+◌, ◌-◌, ◌==◌, Bool, true, false, Option, none, some, List, [], ◌∷◌, ◌++◌,
  is_empty, if◌then◌else◌, Bytes, codes, has_prefix, contains, trim_left, trim_space, in_set, split,
  join, take, drop, is_some,
}

abbrev pub newline : ℕ
newline = 10

abbrev pub backtick : ℕ
backtick = b'`'

-- `backtickRun`
unfoldable pub backtick_run : Bytes → ℕ
backtick_run [] = 0
backtick_run (c ∷ s) = let n = backtick_run s in if c == backtick then suc n else 0

abbrev later : ℕ → Option ℕ → Option ℕ
later k none = none
later k (some i) = some (suc i)

-- `indexBacktickRun`, with the bytes still to be jumped over.
unfoldable pub index_run : ℕ → ℕ → Bytes → Option ℕ
unfolding backtick_run
index_run n skip [] = none
index_run n (suc k) (c ∷ s) = later 1 (index_run n k s)
index_run n zero (c ∷ s) =
    let run = backtick_run (c ∷ s) in
    let next = index_run n 0 s in
    let past = index_run n (run - 1) s in
    if c == backtick then (if run == n then some 0 else later 1 past) else later 1 next

-- At a run of backticks: unclosed, or closed by one at `closing`. `onward` is the rest of the loop.
abbrev pub close_span : ℕ → Bytes → (ℕ → Bytes) → Option ℕ → Bytes
close_span run line onward none = take run line ++ onward (run - 1)
close_span run line onward (some closing) = 32 ∷ onward (run + closing + run - 1)

-- The loop of `stripSpans`, with the bytes still to be jumped over.
unfoldable pub spans : ℕ → Bytes → Bytes
unfolding backtick_run index_run
spans skip [] = []
spans (suc k) (c ∷ s) = spans k s
spans zero (c ∷ s) =
    let next = spans 0 s in
    let onward = λ (k : ℕ). spans k s in
    let run = backtick_run (c ∷ s) in
    if c == backtick
    then close_span run (c ∷ s) onward (index_run run 0 (drop run (c ∷ s)))
    else c ∷ next

-- `stripSpans`
unfoldable pub strip_spans : Bytes → Bytes
unfolding spans
strip_spans line = if contains line (backtick ∷ []) then spans 0 line else line

abbrev pub ticks : Bytes
ticks = codes "```"

abbrev pub tildes : Bytes
tildes = codes "~~~"

-- `openingFence`
unfoldable pub opening_fence : Bytes → Bytes
opening_fence line =
    if has_prefix line ticks then ticks else if has_prefix line tildes then tildes else []

abbrev pub bare : Bytes → Bytes
bare line = trim_space (trim_left (in_set (codes ">")) (trim_space line))

-- The loop of `StripCode` over the lines, with the fence that is open.
unfoldable pub strip_lines : Bytes → List Bytes → List Bytes
unfolding opening_fence
strip_lines fence [] = []
strip_lines (f ∷ ence) (line ∷ lines) =
    let closed = strip_lines [] lines in
    let still = strip_lines (f ∷ ence) lines in
    [] ∷ (if has_prefix (bare line) (f ∷ ence) then closed else still)
strip_lines [] (line ∷ lines) =
    let opened = strip_lines (opening_fence (bare line)) lines in
    let plain = strip_lines [] lines in
    if is_empty (opening_fence (bare line)) then strip_spans line ∷ plain else [] ∷ opened

-- `StripCode`
unfoldable pub strip_code : Bytes → Bytes
unfolding strip_lines
strip_code body = join newline (strip_lines [] (split newline body))
