-- ===== src/Reviewer/Positions/Hunks.antt =====
-- Which lines of a patch take a comment.
use kibitz.Prelude.{
  ℕ, suc, ◌+◌, ◌≤◌, ◌<◌, ◌==◌, ◌≡◌, ◌↔◌, ◌⊎◌, inl, inr, refl, arith, Bool, true, false, some, List,
  [], ◌∷◌, ◌++◌, any, if◌then◌else◌, Bytes, Bool-cases, split,
}
use kibitz.Reviewer.Positions.{
  Raw, header, new_side, old_side, remark, classify, next_line, marks, collect, commentable_lines,
}
use kibitz.TextDiff.Lines.{newline}

-- A hunk, as its lines are read: the number on its header and the lines after it, of which none is a header.
pub record PatchHunk : Type 0 where
  pub start : ℕ
  pub body : List Raw

abbrev pub width : List Raw → ℕ
width [] = 0
width (new_side ∷ rs) = suc (width rs)
width (old_side ∷ rs) = width rs
width (remark ∷ rs) = width rs
width (header n ∷ rs) = width rs

abbrev pub NoHeader : List Raw → Type 0
NoHeader [] = Unit
NoHeader (header n ∷ rs) = ⊥
NoHeader (new_side ∷ rs) = NoHeader rs
NoHeader (old_side ∷ rs) = NoHeader rs
NoHeader (remark ∷ rs) = NoHeader rs

abbrev pub Readings : List Bytes → List Raw → Type 0
Readings [] rs = rs ≡ []
Readings (l ∷ ls) [] = ⊥
Readings (l ∷ ls) (r ∷ rs) = (classify l ≡ r) × Readings ls rs

-- The lines of hunks one after another.
abbrev pub flatten : List PatchHunk → List Raw
flatten [] = []
flatten (h ∷ hs) = header (some h.start) ∷ (h.body ++ flatten hs)

abbrev pub IsHunks : List PatchHunk → Type 0
IsHunks [] = Unit
IsHunks (h ∷ hs) = (0 < h.start) × NoHeader h.body × IsHunks hs

abbrev pub Covers : List PatchHunk → ℕ → Type 0
Covers [] n = ⊥
Covers (h ∷ hs) n = ((h.start ≤ n) × (n < h.start + width h.body)) ⊎ Covers hs n

abbrev has : ℕ → List ℕ → Bool
has n = any (λ l. l == n)

-- The loop over lines already classified.
collect_raw : ℕ → List Raw → List ℕ
collect_raw current [] = []
collect_raw current (r ∷ rs) =
    let lines = collect_raw (next_line current r) rs in
    if marks current r then current ∷ lines else lines

collect-collect_raw :
    (current : ℕ) (ls : List Bytes) (rs : List Raw)
    → Readings ls rs
    → collect current ls ≡ collect_raw current rs
unfolding collect collect_raw
collect-collect_raw current [] rs e = rw e refl
collect-collect_raw current (l ∷ ls) [] h = absurd h
collect-collect_raw current (l ∷ ls) (r ∷ rs) (e, h) =
    rw e (rw (collect-collect_raw (next_line current r) ls rs h) refl)

module _ (n : ℕ) (rest : List Raw) (Later : Type 0)
    (later : (c : ℕ) → (has n (collect_raw c rest) ≡ true) ↔ Later) where
  body_lines :
      (current : ℕ) (body : List Raw)
      → 0 < current
      → NoHeader body
      → (has n (collect_raw current (body ++ rest)) ≡ true)
        ↔ (((current ≤ n) × (n < current + width body)) ⊎ Later)
  unfolding collect_raw
  body_lines current [] h ok = (
    (λ e. inr ((later current).0 e)),
    λ e. elim e [ inl (lo, hi) ↦ absurd (omega arith) | inr l ↦ (later current).1 l ],
  )
  body_lines current (new_side ∷ body) h ok =
      let (to, from) = body_lines (suc current) body (omega arith) ok in
      let nonzero : (current == 0) ≡ false = ground arith in
      rw nonzero (elim (Bool-cases (current == n)) [
        | inl here ↦ rw here ((λ e. inl (ground (arith, here))), (λ e. refl))
        | inr other ↦ rw other (
          (λ e. elim (to e) [ inl (lo, hi) ↦ inl (omega arith, omega arith) | inr l ↦ inr l ]),
          (λ e. elim e [
            | inl (lo, hi) ↦ from (inl (ground (arith, other, lo), omega arith))
            | inr l ↦ from (inr l)
          ]),
        )
      ])
  body_lines current (old_side ∷ body) h ok = body_lines current body h ok
  body_lines current (remark ∷ body) h ok = body_lines current body h ok
  body_lines current (header k ∷ body) h ok = absurd ok

hunks_lines :
    (hs : List PatchHunk) (current n : ℕ)
    → IsHunks hs
    → (has n (collect_raw current (flatten hs)) ≡ true) ↔ Covers hs n
unfolding collect_raw
hunks_lines [] current n ok = ((λ e. absurd (ground (arith, e))), λ e. absurd e)
hunks_lines (h ∷ hs) current n (positive, clean, ok) =
    body_lines n (flatten hs) (Covers hs n) (λ c. hunks_lines hs c n ok) h.start h.body positive
      clean

-- Where the lines of a patch read as hunks, each a header with a positive number and lines after it, the
-- lines that take a comment are exactly, for each hunk, as many as it has lines on the new side, from the number on
-- its header on.
pub commentable_lines-Covers :
    (patch : Bytes) (hs : List PatchHunk) (n : ℕ)
    → Readings (split newline patch) (flatten hs)
    → IsHunks hs
    → (any (λ l. l == n) (commentable_lines patch) ≡ true) ↔ Covers hs n
unfolding commentable_lines
commentable_lines-Covers patch hs n read ok =
    rw (collect-collect_raw 0 (split newline patch) (flatten hs) read) (hunks_lines hs 0 n ok)
