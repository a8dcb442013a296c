-- ===== src/Reviewer/Positions/Rendered/Patch.antt =====
-- Which lines of a rendered patch take a comment.
use kibitz.Prelude.{
  dec_lt, ℕ, ◌+◌, ◌≤◌, ◌<◌, ◌==◌, ◌≡◌, ◌≢◌, ◌↔◌, ◌⊎◌, inl, inr, refl, sym, subst, ◌∙◌, arith, true,
  false, Option, none, some, List, [], ◌∷◌, ◌++◌, any, append-nil, Bytes, split, has_suffix, Each,
  Bool-cases,
}
use kibitz.TextDiff.Lines.{newline}
use kibitz.TextDiff.Script.{Op, equal, delete, insert, EditStep}
use kibitz.TextDiff.Unified.{span, span_from, spanned, cur_one, first_or, position}
use kibitz.Reviewer.Positions.{Raw, header, new_side, old_side, remark, classify, commentable_lines}
use kibitz.Reviewer.Positions.Hunks.{
  width, NoHeader, Readings, flatten, IsHunks, Covers, commentable_lines-Covers,
}
use kibitz.Reviewer.Positions.Rendered.{
  IsLine, raw_of, text_of, raws, step_raws, rendered, new_span, AllStart, patch_hunks, render_read,
}

classify-empty : classify [] ≡ new_side
unfolding classify
classify-empty = refl

patch_read :
    (old cur : List Bytes) (h : List EditStep) (hs : List (List EditStep))
    → Each IsLine old
    → Each IsLine cur
    → AllStart (h ∷ hs)
    → Readings (split newline (rendered old cur (h ∷ hs))) (flatten (patch_hunks old cur (h ∷ hs)))
patch_read old cur [] hs ho hc a = absurd a
patch_read old cur (s ∷ ss) [] ho hc (lo, hi, a) =
    subst
      (λ rs.
        Readings (split newline (rendered old cur ((s ∷ ss) ∷ [])))
          (header (some (new_span (s ∷ ss)).0) ∷ rs))
      (sym (append-nil (step_raws old cur (s ∷ ss) ++ new_side ∷ [])))
      (render_read old cur s ss [] (new_side ∷ []) ho hc lo hi (classify-empty, refl))
patch_read old cur (s ∷ ss) (k ∷ hs) ho hc (lo, hi, a) =
    render_read old cur s ss (rendered old cur (k ∷ hs)) (flatten (patch_hunks old cur (k ∷ hs))) ho
      hc lo hi (patch_read old cur k hs ho hc a)

NoHeader-append : (rs qs : List Raw) → NoHeader rs → NoHeader qs → NoHeader (rs ++ qs)
NoHeader-append [] qs h k = k
NoHeader-append (header n ∷ rs) qs h k = absurd h
NoHeader-append (new_side ∷ rs) qs h k = NoHeader-append rs qs h k
NoHeader-append (old_side ∷ rs) qs h k = NoHeader-append rs qs h k
NoHeader-append (remark ∷ rs) qs h k = NoHeader-append rs qs h k

width-append : (rs qs : List Raw) → width (rs ++ qs) ≡ width rs + width qs
width-append [] qs = omega arith
width-append (header n ∷ rs) qs = width-append rs qs
width-append (new_side ∷ rs) qs = omega (arith, width-append rs qs)
width-append (old_side ∷ rs) qs = width-append rs qs
width-append (remark ∷ rs) qs = width-append rs qs

one_raw : (o : Op) → NoHeader (raw_of o ∷ []) × (width (raw_of o ∷ []) ≡ cur_one o)
one_raw equal = (tt, refl)
one_raw delete = (tt, refl)
one_raw insert = (tt, refl)

two_raws :
    (o : Op) → NoHeader (raw_of o ∷ remark ∷ []) × (width (raw_of o ∷ remark ∷ []) ≡ cur_one o)
two_raws equal = (tt, refl)
two_raws delete = (tt, refl)
two_raws insert = (tt, refl)

raws-plain : (o : Op) (l : Bytes) → NoHeader (raws o l) × (width (raws o l) ≡ cur_one o)
raws-plain o l = elim (Bool-cases (has_suffix l (newline ∷ []))) [
  | inl whole ↦ rw whole (one_raw o)
  | inr short ↦ rw short (two_raws o)
]

step_raws-NoHeader : (old cur : List Bytes) (ss : List EditStep) → NoHeader (step_raws old cur ss)
step_raws-NoHeader old cur [] = tt
step_raws-NoHeader old cur (s ∷ ss) =
    let line = text_of old cur s.kind s in
    NoHeader-append (raws s.kind line) (step_raws old cur ss) (raws-plain s.kind line).0
      (step_raws-NoHeader old cur ss)

cur_one-one : (o : Op) → (cur_one o == 0) ≡ false → cur_one o ≡ 1
cur_one-one equal h = refl
cur_one-one delete h = absurd (ground (arith, h))
cur_one-one insert h = refl

==→≡ : (a b : ℕ) → (a == b) ≡ true → a ≡ b
==→≡ a b h = ground (arith, h)

first_or-some : (first : Option ℕ) (i : ℕ) → first_or first i ≢ none
first_or-some none i h = ground (arith, h)
first_or-some (some f) i h = ground (arith, h)

-- What `span` counts is what the lines are read as.
span_from-width :
    (old cur : List Bytes) (index : EditStep → ℕ) (ss : List EditStep) (first : Option ℕ) (n : ℕ)
    → (span_from cur_one index ss first n).1 ≡ n + width (step_raws old cur ss)
unfolding span_from
span_from-width old cur index [] first n = omega arith
span_from-width old cur index (s ∷ ss) first n =
    let line = text_of old cur s.kind s in
    let count = width-append (raws s.kind line) (step_raws old cur ss) in
    let one = (raws-plain s.kind line).1 in
    elim (Bool-cases (cur_one s.kind == 0)) [
      | inl none_ ↦ rw none_ (
          omega (
            arith,
            span_from-width old cur index ss first n,
            count,
            one,
            ==→≡ (cur_one s.kind) 0 none_,
          ))
      | inr some_ ↦ rw some_ (
          omega (
            arith,
            span_from-width old cur index ss (first_or first (index s)) (n + 1),
            count,
            one,
            cur_one-one s.kind some_,
          ))
    ]

span_from-none :
    (index : EditStep → ℕ) (ss : List EditStep) (first : Option ℕ) (n : ℕ)
    → (span_from cur_one index ss first n).0 ≡ none
    → (first ≡ none) × ((span_from cur_one index ss first n).1 ≡ n)
unfolding span_from
span_from-none index [] first n h = (h, refl)
span_from-none index (s ∷ ss) first n h = elim (Bool-cases (cur_one s.kind == 0)) [
  | inl none_ ↦ rw none_ (span_from-none index ss first n (ground (arith, none_, h)))
  | inr some_ ↦ absurd (
      first_or-some first (index s)
        (span_from-none index ss (first_or first (index s)) (n + 1) (ground (arith, some_, h))).0)
]

spanned-count :
    (r : Option ℕ × ℕ) (before : ℕ) → (r.0 ≡ none → r.1 ≡ 0) → (spanned r before).1 ≡ r.1
spanned-count (none, n) before h = sym (h refl)
spanned-count (some f, n) before h = refl

new_span-width :
    (old cur : List Bytes) (h : List EditStep) → (new_span h).1 ≡ width (step_raws old cur h)
unfolding span
new_span-width old cur h =
    let index = λ (t : EditStep). t.cur in
    spanned-count (span_from cur_one index h none 0) (position index h)
      (λ e. (span_from-none index h none 0 e).1)
    ∙ span_from-width old cur index h none 0
    ∙ omega arith

-- The lines on the new side of a hunk, and the line after the last hunk's.
abbrev pub InHunk : List (List EditStep) → ℕ → Type 0
InHunk [] n = ⊥
InHunk (h ∷ hs) n = (((new_span h).0 ≤ n) × (n < (new_span h).0 + (new_span h).1)) ⊎ InHunk hs n

abbrev pub IsJustAfter : List (List EditStep) → ℕ → Type 0
IsJustAfter [] n = ⊥
IsJustAfter (h ∷ []) n = n ≡ (new_span h).0 + (new_span h).1
IsJustAfter (h ∷ k ∷ hs) n = IsJustAfter (k ∷ hs) n

patch_hunks-IsHunks :
    (old cur : List Bytes) (hs : List (List EditStep))
    → AllStart hs
    → IsHunks (patch_hunks old cur hs)
patch_hunks-IsHunks old cur [] a = tt
patch_hunks-IsHunks old cur ([] ∷ hs) a = absurd a
patch_hunks-IsHunks old cur ((s ∷ ss) ∷ []) (lo, hi, a) = (
  lo,
  NoHeader-append (step_raws old cur (s ∷ ss)) (new_side ∷ []) (step_raws-NoHeader old cur (s ∷ ss))
      tt,
  tt,
)
patch_hunks-IsHunks old cur ((s ∷ ss) ∷ k ∷ hs) (lo, hi, a) =
    (lo, step_raws-NoHeader old cur (s ∷ ss), patch_hunks-IsHunks old cur (k ∷ hs) a)

patch_hunks-Covers :
    (old cur : List Bytes) (hs : List (List EditStep)) (n : ℕ)
    → Covers (patch_hunks old cur hs) n ↔ (InHunk hs n ⊎ IsJustAfter hs n)
patch_hunks-Covers old cur [] n =
    ((λ e. absurd e), (λ e. elim e [ inl x ↦ absurd x | inr x ↦ absurd x ]))
patch_hunks-Covers old cur (h ∷ []) n =
    let w = new_span-width old cur h in
    let v = width-append (step_raws old cur h) (new_side ∷ []) in
    (
      (λ e. elim e [
        | inl (lo, hi) ↦ elim (dec_lt n ((new_span h).0 + (new_span h).1)) [
          | yes in_ ↦ inl (inl (lo, in_))
          | no out ↦ inr (omega (arith, lo, hi, w, v, out))
        ]
        | inr x ↦ absurd x
      ]),
      (λ e. elim e [
        | inl (inl (lo, hi)) ↦ inl (lo, omega (arith, hi, w, v))
        | inl (inr x) ↦ absurd x
        | inr same ↦ inl (omega (arith, same), omega (arith, same, w, v))
      ]),
    )
patch_hunks-Covers old cur (h ∷ k ∷ hs) n =
    let w = new_span-width old cur h in
    let (to, from) = patch_hunks-Covers old cur (k ∷ hs) n in
    (
      (λ e. elim e [
        | inl (lo, hi) ↦ inl (inl (lo, omega (arith, hi, w)))
        | inr later ↦ elim (to later) [ inl x ↦ inl (inr x) | inr x ↦ inr x ]
      ]),
      (λ e. elim e [
        | inl (inl (lo, hi)) ↦ inl (lo, omega (arith, hi, w))
        | inl (inr x) ↦ inr (from (inl x))
        | inr x ↦ inr (from (inr x))
      ]),
    )

-- A patch rendered from hunks, read back by the reviewer: where no line has a newline but at its end, and every hunk
-- has a step and starts at a positive number that is an int64, the lines that take a comment are exactly the lines on
-- the new side of the hunks, as many as their headers say, and the one line after the last hunk.
pub rendered-commentable :
    (old cur : List Bytes) (h : List EditStep) (hs : List (List EditStep)) (n : ℕ)
    → Each IsLine old
    → Each IsLine cur
    → AllStart (h ∷ hs)
    → (any (λ l. l == n) (commentable_lines (rendered old cur (h ∷ hs))) ≡ true)
      ↔ (InHunk (h ∷ hs) n ⊎ IsJustAfter (h ∷ hs) n)
rendered-commentable old cur h hs n ho hc a =
    let (to, from) =
      commentable_lines-Covers (rendered old cur (h ∷ hs)) (patch_hunks old cur (h ∷ hs)) n
        (patch_read old cur h hs ho hc a) (patch_hunks-IsHunks old cur (h ∷ hs) a) in
    let (up, down) = patch_hunks-Covers old cur (h ∷ hs) n in
    ((λ e. up (to e)), (λ e. from (down e)))
