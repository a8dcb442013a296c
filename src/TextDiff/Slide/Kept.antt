-- ===== src/TextDiff/Slide/Kept.antt =====
-- What sliding leaves as it was.
use kibitz.Prelude.{
  ℕ, suc, ◌+◌, ◌≡◌, refl, ap, sym, ◌∙◌, List, [], ◌∷◌, ◌++◌, if◌then◌else◌, Bytes, length,
  length-append, append_assoc, append-nil, str_eq, str_eq→eq, arith, Bool-cases, inl, inr,
}
use kibitz.TextDiff.Slide.{
  Marked, same, changed, mark, At, between, measuring, sliding, walk, slide, moved,
}

-- The lines of the text, the unchanged ones among them, and how many are changed.
abbrev pub lines : List Marked → List Bytes
lines [] = []
lines (same l ∷ ms) = l ∷ lines ms
lines (changed l ∷ ms) = l ∷ lines ms

abbrev pub unchanged : List Marked → List Bytes
unchanged [] = []
unchanged (same l ∷ ms) = l ∷ unchanged ms
unchanged (changed l ∷ ms) = unchanged ms

abbrev pub changes : List Marked → ℕ
changes [] = 0
changes (same l ∷ ms) = changes ms
changes (changed l ∷ ms) = suc (changes ms)

-- The run that a place in the loops carries.
abbrev carried : At → List Bytes
carried between = []
carried (measuring f run) = f ∷ run
carried (sliding f run) = f ∷ run

lines-append : (xs ys : List Marked) → lines (xs ++ ys) ≡ lines xs ++ lines ys
lines-append [] ys = refl
lines-append (same l ∷ xs) ys = ap (λ t. l ∷ t) (lines-append xs ys)
lines-append (changed l ∷ xs) ys = ap (λ t. l ∷ t) (lines-append xs ys)

unchanged-append : (run : List Bytes) (ys : List Marked) → unchanged (mark run ++ ys) ≡ unchanged ys
unchanged-append [] ys = refl
unchanged-append (x ∷ xs) ys = unchanged-append xs ys

changes-append : (xs ys : List Marked) → changes (xs ++ ys) ≡ changes xs + changes ys
changes-append [] ys = omega arith
changes-append (same l ∷ xs) ys = changes-append xs ys
changes-append (changed l ∷ xs) ys = omega (arith, changes-append xs ys)

lines-mark : (run : List Bytes) → lines (mark run) ≡ run
lines-mark [] = refl
lines-mark (x ∷ xs) = ap (λ t. x ∷ t) (lines-mark xs)

unchanged-mark : (run : List Bytes) → unchanged (mark run) ≡ []
unchanged-mark [] = refl
unchanged-mark (x ∷ xs) = unchanged-mark xs

changes-mark : (run : List Bytes) → changes (mark run) ≡ length run
changes-mark [] = refl
changes-mark (x ∷ xs) = ap suc (changes-mark xs)

-- Where an unchanged line follows the run: what holds of both ways on holds of the way taken.
either_way :
    (P : List Marked → Type 0) (f y : Bytes) (on off : List Marked)
    → (f ≡ y → P on)
    → P off
    → P (if str_eq f y then on else off)
either_way P f y on off slid stopped = elim (Bool-cases (str_eq f y)) [
  | inl e ↦ rw e (slid (str_eq→eq f y e))
  | inr e ↦ rw e stopped
]

module _ (onward : Bytes → List Bytes → List Marked) (y : Bytes) where
  moved-unchanged :
      (run : List Bytes) (u : List Bytes)
      → ((x : Bytes) (xs : List Bytes) → unchanged (onward x xs) ≡ u)
      → unchanged (moved run y onward) ≡ u
  moved-unchanged [] u h = h y []
  moved-unchanged (x ∷ xs) u h = h x (xs ++ y ∷ [])

  moved-lines :
      (run ls : List Bytes)
      → ((x : Bytes) (xs : List Bytes) → lines (onward x xs) ≡ (x ∷ xs) ++ ls)
      → lines (moved run y onward) ≡ run ++ y ∷ ls
  moved-lines [] ls h = h y []
  moved-lines (x ∷ xs) ls h = h x (xs ++ y ∷ []) ∙ ap (λ t. x ∷ t) (append_assoc xs (y ∷ []) ls)

  moved-changes :
      (run : List Bytes) (n : ℕ)
      → ((x : Bytes) (xs : List Bytes) → changes (onward x xs) ≡ suc (length xs) + n)
      → changes (moved run y onward) ≡ suc (length run) + n
  moved-changes [] n h = h y []
  moved-changes (x ∷ xs) n h = omega (arith, h x (xs ++ y ∷ []), length-append xs (y ∷ []))

walk-unchanged : (a : At) (l : List Marked) → unchanged (walk a l) ≡ unchanged l
unfolding walk
walk-unchanged between [] = refl
walk-unchanged (measuring f run) [] = unchanged-mark run
walk-unchanged (sliding f run) [] = unchanged-mark run
walk-unchanged between (same y ∷ r) = ap (λ t. y ∷ t) (walk-unchanged between r)
walk-unchanged between (changed y ∷ r) = walk-unchanged (measuring y []) r
walk-unchanged (measuring f run) (changed y ∷ r) = walk-unchanged (measuring f (run ++ y ∷ [])) r
walk-unchanged (sliding f run) (changed y ∷ r) =
    unchanged-append run (walk (measuring y []) r) ∙ walk-unchanged (measuring y []) r
walk-unchanged (measuring f run) (same y ∷ r) =
    either_way (λ t. unchanged t ≡ y ∷ unchanged r) f y _ _
      (λ e. cc (
        e,
        moved-unchanged (λ x xs. walk (sliding x xs) r) y run (unchanged r)
            (λ x xs. walk-unchanged (sliding x xs) r),
      ))
      (unchanged-append run (same y ∷ walk between r) ∙ ap (λ t. y ∷ t) (walk-unchanged between r))
walk-unchanged (sliding f run) (same y ∷ r) =
    either_way (λ t. unchanged t ≡ y ∷ unchanged r) f y _ _
      (λ e. cc (
        e,
        moved-unchanged (λ x xs. walk (sliding x xs) r) y run (unchanged r)
            (λ x xs. walk-unchanged (sliding x xs) r),
      ))
      (unchanged-append run (same y ∷ walk between r) ∙ ap (λ t. y ∷ t) (walk-unchanged between r))

stopped-lines :
    (run : List Bytes) (ms : List Marked) (ls : List Bytes)
    → lines ms ≡ ls
    → lines (mark run ++ ms) ≡ run ++ ls
stopped-lines run ms ls h = lines-append (mark run) ms ∙ cc (h, lines-mark run)

stopped-changes :
    (run : List Bytes) (ms : List Marked) (n : ℕ)
    → changes ms ≡ n
    → changes (mark run ++ ms) ≡ length run + n
stopped-changes run ms n h = omega (arith, changes-append (mark run) ms, changes-mark run)

walk-lines : (a : At) (l : List Marked) → lines (walk a l) ≡ carried a ++ lines l
unfolding walk
walk-lines between [] = refl
walk-lines (measuring f run) [] = ap (λ t. f ∷ t) (lines-mark run ∙ sym (append-nil run))
walk-lines (sliding f run) [] = ap (λ t. f ∷ t) (lines-mark run ∙ sym (append-nil run))
walk-lines between (same y ∷ r) = ap (λ t. y ∷ t) (walk-lines between r)
walk-lines between (changed y ∷ r) = walk-lines (measuring y []) r
walk-lines (measuring f run) (changed y ∷ r) =
    walk-lines (measuring f (run ++ y ∷ [])) r
    ∙ ap (λ t. f ∷ t) (append_assoc run (y ∷ []) (lines r))
walk-lines (sliding f run) (changed y ∷ r) =
    stopped-lines (f ∷ run) (walk (measuring y []) r) (y ∷ lines r) (walk-lines (measuring y []) r)
walk-lines (measuring f run) (same y ∷ r) =
    either_way (λ t. lines t ≡ f ∷ (run ++ y ∷ lines r)) f y _ _
      (λ e.
        ap (λ t. f ∷ t)
          (moved-lines (λ x xs. walk (sliding x xs) r) y run (lines r)
            (λ x xs. walk-lines (sliding x xs) r)))
      (stopped-lines (f ∷ run) (same y ∷ walk between r) (y ∷ lines r)
        (ap (λ t. y ∷ t) (walk-lines between r)))
walk-lines (sliding f run) (same y ∷ r) =
    either_way (λ t. lines t ≡ f ∷ (run ++ y ∷ lines r)) f y _ _
      (λ e.
        ap (λ t. f ∷ t)
          (moved-lines (λ x xs. walk (sliding x xs) r) y run (lines r)
            (λ x xs. walk-lines (sliding x xs) r)))
      (stopped-lines (f ∷ run) (same y ∷ walk between r) (y ∷ lines r)
        (ap (λ t. y ∷ t) (walk-lines between r)))

walk-changes : (a : At) (l : List Marked) → changes (walk a l) ≡ length (carried a) + changes l
unfolding walk
walk-changes between [] = omega arith
walk-changes (measuring f run) [] = omega (arith, changes-mark run)
walk-changes (sliding f run) [] = omega (arith, changes-mark run)
walk-changes between (same y ∷ r) = omega (arith, walk-changes between r)
walk-changes between (changed y ∷ r) = omega (arith, walk-changes (measuring y []) r)
walk-changes (measuring f run) (changed y ∷ r) =
    omega (arith, walk-changes (measuring f (run ++ y ∷ [])) r, length-append run (y ∷ []))
walk-changes (sliding f run) (changed y ∷ r) = omega (
  arith,
  stopped-changes (f ∷ run) (walk (measuring y []) r) (suc (changes r))
      (omega (arith, walk-changes (measuring y []) r)),
)
walk-changes (measuring f run) (same y ∷ r) =
    either_way (λ t. changes t ≡ suc (length run) + changes r) f y _ _
      (λ e.
        moved-changes (λ x xs. walk (sliding x xs) r) y run (changes r)
          (λ x xs. walk-changes (sliding x xs) r))
      (stopped-changes (f ∷ run) (same y ∷ walk between r) (changes r)
        (omega (arith, walk-changes between r)))
walk-changes (sliding f run) (same y ∷ r) =
    either_way (λ t. changes t ≡ suc (length run) + changes r) f y _ _
      (λ e.
        moved-changes (λ x xs. walk (sliding x xs) r) y run (changes r)
          (λ x xs. walk-changes (sliding x xs) r))
      (stopped-changes (f ∷ run) (same y ∷ walk between r) (changes r)
        (omega (arith, walk-changes between r)))

-- Sliding the runs of changed lines says the same change: the text is as it was, the lines that are not
-- changed read as before, in their order, and as many lines are changed.
pub slide-same_change :
    (l : List Marked)
    → (lines (slide l) ≡ lines l)
      × (unchanged (slide l) ≡ unchanged l)
      × (changes (slide l) ≡ changes l)
unfolding slide
slide-same_change l =
    (walk-lines between l, walk-unchanged between l, omega (arith, walk-changes between l))
