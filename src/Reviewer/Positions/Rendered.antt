-- ===== src/Reviewer/Positions/Rendered.antt =====
-- A patch that the text diff renders, read back by the positions.
pub mod Patch
pub mod Whole
use kibitz.Prelude.{
  ℕ, zero, suc, ◌+◌, ◌^◌, ◌≤◌, ◌<◌, ◌==◌, ◌≡◌, ◌≢◌, ◌↔◌, ◌⊎◌, inl, inr, refl, sym, ap, subst, ◌∙◌,
  arith, Bool, true, false, Option, none, some, List, [], ◌∷◌, ◌++◌, any, reverse, reverse-cons,
  append_assoc, if◌then◌else◌, Bytes, codes, has_prefix, has_suffix, split, push_byte, get_elem?,
  Each, Bool-cases,
}
use mathlib.Core.List.{reverse-append}
use kibitz.Prelude.Clean.{NoByte, split-step}
use kibitz.TextDiff.Lines.{newline, split_lines}
use kibitz.TextDiff.Script.{Op, equal, delete, insert, EditStep}
use kibitz.TextDiff.Hunks.{count_ops}
use kibitz.TextDiff.Unified.{
  no_newline, write_line, line_at, line_or, write_step, write_steps, span, span_from, spanned,
  cur_one, old_one, hunk_header, render, first_or, position, rng,
}
use kibitz.Reviewer.Positions.{
  Raw, header, new_side, old_side, remark, classify, commentable_lines, parse_hunk_start,
}
use kibitz.Reviewer.Positions.Hunks.{
  PatchHunk, width, NoHeader, Readings, flatten, IsHunks, Covers, commentable_lines-Covers,
}
use kibitz.Reviewer.Positions.Headers.{NoByte-append, rng-NoByte, parse_hunk_start-hunk_header}

-- A newline stands at the end of a line or nowhere in it.
abbrev pub IsLine : Bytes → Type 0
IsLine l = NoByte newline l ⊎ ((s : Bytes) × NoByte newline s × (l ≡ s ++ newline ∷ []))

NoByte-reverse : (l : Bytes) → NoByte newline l → NoByte newline (reverse l)
NoByte-reverse [] h = tt
NoByte-reverse (c ∷ l) (other, h) =
    rw reverse-cons (NoByte-append newline (reverse l) (c ∷ []) (NoByte-reverse l h) (other, tt))

begins_not : (l : Bytes) → NoByte newline l → has_prefix l (newline ∷ []) ≡ false
begins_not [] h = refl
begins_not (c ∷ l) (other, h) = rw other refl

has_suffix-none : (l : Bytes) → NoByte newline l → has_suffix l (newline ∷ []) ≡ false
has_suffix-none l h = begins_not (reverse l) (NoByte-reverse l h)

has_suffix-some : (s : Bytes) → has_suffix (s ++ newline ∷ []) (newline ∷ []) ≡ true
has_suffix-some s = rw reverse-append refl

-- What a step is read as: its kind, and a remark after a line without a newline.
abbrev pub raw_of : Op → Raw
raw_of equal = new_side
raw_of delete = old_side
raw_of insert = new_side

abbrev pub prefix_of : Op → ℕ
prefix_of equal = b' '
prefix_of delete = b'-'
prefix_of insert = b'+'

abbrev pub text_of : List Bytes → List Bytes → Op → EditStep → Bytes
text_of old cur equal s = line_at old s.old
text_of old cur delete s = line_at old s.old
text_of old cur insert s = line_at cur s.cur

write_step-line :
    (old cur : List Bytes) (o : Op) (s : EditStep)
    → write_step old cur o s ≡ write_line (prefix_of o) (text_of old cur o s)
write_step-line old cur equal s = refl
write_step-line old cur delete s = refl
write_step-line old cur insert s = refl

pub classify-step : (o : Op) (s : Bytes) → classify (prefix_of o ∷ s) ≡ raw_of o
unfolding classify
classify-step equal s = refl
classify-step delete s = refl
classify-step insert s = refl

abbrev pub raws : Op → Bytes → List Raw
raws o l = raw_of o ∷ (if has_suffix l (newline ∷ []) then [] else remark ∷ [])

prefix_of-other : (o : Op) → (prefix_of o == newline) ≡ false
prefix_of-other equal = refl
prefix_of-other delete = refl
prefix_of-other insert = refl

has_none : (s : Bytes) → any (λ d. d == newline) s ≡ false → NoByte newline s
has_none [] h = tt
has_none (c ∷ s) h = (ground (arith, h), has_none s (ground (arith, h)))

abbrev remark_line : Bytes
remark_line = codes "\\ No newline at end of file"

split-whole :
    (o : Op) (s t : Bytes)
    → NoByte newline s
    → split newline ((prefix_of o ∷ (s ++ newline ∷ [])) ++ t) ≡ (prefix_of o ∷ s) ∷ split newline t
split-whole o s t h =
    ap (λ l. split newline (prefix_of o ∷ l)) (append_assoc s (newline ∷ []) t)
    ∙ split-step newline (prefix_of o ∷ s) t (prefix_of-other o, h)

split-cut_short :
    (o : Op) (s t : Bytes)
    → NoByte newline s
    → split newline ((prefix_of o ∷ (s ++ no_newline)) ++ t)
      ≡ (prefix_of o ∷ s) ∷ remark_line ∷ split newline t
split-cut_short o s t h =
    ap (λ l. split newline (prefix_of o ∷ l)) (append_assoc s no_newline t)
    ∙ split-step newline (prefix_of o ∷ s) (remark_line ++ newline ∷ t) (prefix_of-other o, h)
    ∙ ap (λ l. (prefix_of o ∷ s) ∷ l) (split-step newline remark_line t (has_none remark_line refl))

classify-remark : classify remark_line ≡ remark
unfolding classify
classify-remark = refl

-- One line that is written is read as one line, or as two.
line_read :
    (o : Op) (l t : Bytes) (rs : List Raw)
    → IsLine l
    → Readings (split newline t) rs
    → Readings (split newline (write_line (prefix_of o) l ++ t)) (raws o l ++ rs)
unfolding write_line
line_read o l t rs (inl plain) h =
    rw (has_suffix-none l plain)
      (rw (split-cut_short o l t plain) (classify-step o l, (classify-remark, h)))
line_read o l t rs (inr (s, plain, e)) h =
    rw (e, has_suffix-some s) (rw (split-whole o s t plain) (classify-step o s, h))

-- What the steps of a hunk are read as.
abbrev pub step_raws : List Bytes → List Bytes → List EditStep → List Raw
step_raws old cur [] = []
step_raws old cur (s ∷ ss) = raws s.kind (text_of old cur s.kind s) ++ step_raws old cur ss

line_at-IsLine : (ls : List Bytes) (i : ℕ) → Each IsLine ls → IsLine (line_at ls i)
line_at-IsLine [] i h = inl tt
line_at-IsLine (l ∷ ls) zero (k, h) = k
line_at-IsLine (l ∷ ls) (suc i) (k, h) = line_at-IsLine ls i h

text_of-IsLine :
    (old cur : List Bytes) (o : Op) (s : EditStep)
    → Each IsLine old
    → Each IsLine cur
    → IsLine (text_of old cur o s)
text_of-IsLine old cur equal s h k = line_at-IsLine old s.old h
text_of-IsLine old cur delete s h k = line_at-IsLine old s.old h
text_of-IsLine old cur insert s h k = line_at-IsLine cur s.cur k

steps_read :
    (old cur : List Bytes) (ss : List EditStep) (t : Bytes) (rs : List Raw)
    → Each IsLine old
    → Each IsLine cur
    → Readings (split newline t) rs
    → Readings (split newline (write_steps old cur ss ++ t)) (step_raws old cur ss ++ rs)
unfolding write_steps
steps_read old cur [] t rs ho hc h = h
steps_read old cur (s ∷ ss) t rs ho hc h =
    let line = text_of old cur s.kind s in
    let first = write_line (prefix_of s.kind) line in
    let later = write_steps old cur ss ++ t in
    let later_rs = step_raws old cur ss ++ rs in
    let read : Readings (split newline (first ++ later)) (raws s.kind line ++ later_rs) =
      line_read s.kind line later later_rs (text_of-IsLine old cur s.kind s ho hc)
        (steps_read old cur ss t rs ho hc h) in
    let bytes : write_steps old cur (s ∷ ss) ++ t ≡ first ++ later =
      ap (λ w. (w ++ write_steps old cur ss) ++ t) (write_step-line old cur s.kind s)
      ∙ append_assoc first (write_steps old cur ss) t in
    let lines : step_raws old cur (s ∷ ss) ++ rs ≡ raws s.kind line ++ later_rs =
      append_assoc (raws s.kind line) (step_raws old cur ss) rs in
    subst (λ b. Readings (split newline b) (step_raws old cur (s ∷ ss) ++ rs)) (sym bytes)
      (subst (λ l. Readings (split newline (first ++ later)) l) (sym lines) read)

-- The hunks of a patch, one after another.
abbrev pub rendered : List Bytes → List Bytes → List (List EditStep) → Bytes
rendered old cur [] = []
rendered old cur (h ∷ hs) = render old cur h ++ rendered old cur hs

abbrev pub new_span : List EditStep → ℕ × ℕ
new_span steps = span cur_one (λ t. t.cur) steps

-- Each hunk has a step, and starts at a positive number that is an int64.
abbrev pub AllStart : List (List EditStep) → Type 0
AllStart [] = Unit
AllStart ([] ∷ hs) = ⊥
AllStart ((s ∷ ss) ∷ hs) =
    (0 < (new_span (s ∷ ss)).0) × ((new_span (s ∷ ss)).0 < 2 ^ 63) × AllStart hs

abbrev pub patch_hunk : List Bytes → List Bytes → List EditStep → PatchHunk
patch_hunk old cur h = record { start = (new_span h).0; body = step_raws old cur h }

-- As they are read: the end of the patch adds an empty line to the last.
abbrev pub patch_hunks : List Bytes → List Bytes → List (List EditStep) → List PatchHunk
patch_hunks old cur [] = []
patch_hunks old cur (h ∷ []) =
    record { start = (new_span h).0; body = step_raws old cur h ++ new_side ∷ [] } ∷ []
patch_hunks old cur (h ∷ k ∷ hs) = patch_hunk old cur h ∷ patch_hunks old cur (k ∷ hs)

hunk_header-NoByte : (a b : ℕ × ℕ) → NoByte newline (hunk_header a b)
hunk_header-NoByte a b =
    NoByte-append newline (codes "@@ -") (rng a ++ (codes " +" ++ (rng b ++ codes " @@")))
      (has_none (codes "@@ -") refl)
      (NoByte-append newline (rng a) (codes " +" ++ (rng b ++ codes " @@"))
        (rng-NoByte newline a (omega arith))
        (NoByte-append newline (codes " +") (rng b ++ codes " @@") (has_none (codes " +") refl) (
          NoByte-append newline (rng b) (codes " @@") (rng-NoByte newline b (omega arith))
            (has_none (codes " @@") refl))))

classify-hunk_header :
    (a : ℕ × ℕ) (start n : ℕ)
    → 0 < start
    → start < 2 ^ 63
    → classify (hunk_header a (start, n)) ≡ header (some start)
unfolding classify
classify-hunk_header a start n lo hi = ap header (parse_hunk_start-hunk_header a start n lo hi)

pub render_read :
    (old cur : List Bytes) (s : EditStep) (ss : List EditStep) (t : Bytes) (rs : List Raw)
    → Each IsLine old
    → Each IsLine cur
    → 0 < (new_span (s ∷ ss)).0
    → (new_span (s ∷ ss)).0 < 2 ^ 63
    → Readings (split newline t) rs
    → Readings
        (split newline (render old cur (s ∷ ss) ++ t))
        (header (some (new_span (s ∷ ss)).0) ∷ (step_raws old cur (s ∷ ss) ++ rs))
unfolding render
render_read old cur s ss t rs ho hc lo hi h =
    let a = span old_one (λ (t : EditStep). t.old) (s ∷ ss) in
    let b = new_span (s ∷ ss) in
    let lines = write_steps old cur (s ∷ ss) in
    let bytes : split newline (render old cur (s ∷ ss) ++ t)
        ≡ hunk_header a b ∷ split newline (lines ++ t) =
      ap (split newline) (append_assoc (hunk_header a b) (newline ∷ lines) t)
      ∙ split-step newline (hunk_header a b) (lines ++ t) (hunk_header-NoByte a b) in
    subst (λ ls. Readings ls (header (some b.0) ∷ (step_raws old cur (s ∷ ss) ++ rs))) (sym bytes)
      (classify-hunk_header a b.0 b.1 lo hi, steps_read old cur (s ∷ ss) t rs ho hc h)
