-- ===== src/Policy/Markdown/Lines.antt =====
-- The lines of a comment before and after its code is taken out.
use kibitz.Prelude.{
  ℕ, zero, suc, ◌+◌, ◌-◌, ◌==◌, ◌≡◌, ◌≢◌, refl, ap, sym, ◌∙◌, Bool, true, false, Option, none, some,
  List, [], ◌∷◌, ◌++◌, arith, is_empty, if◌then◌else◌, Bytes, in_set, split, push_byte, has_prefix,
  join, take, length, Bool-cases, inl, inr,
}
use kibitz.Policy.Markdown.{
  newline, backtick, backtick_run, close_span, spans, strip_spans, strip_lines, strip_code,
  opening_fence, bare,
}

-- No line break among the bytes, or in any of the lines.
abbrev Unbroken : Bytes → Type 0
Unbroken l = in_set l newline ≡ false

abbrev AllUnbroken : List Bytes → Type 0
AllUnbroken [] = Unit
AllUnbroken (l ∷ ls) = Unbroken l × AllUnbroken ls

push_byte-AllUnbroken :
    (c : ℕ) (ls : List Bytes)
    → (c == newline) ≡ false
    → AllUnbroken ls
    → AllUnbroken (push_byte c ls)
push_byte-AllUnbroken c [] h all = ground arith
push_byte-AllUnbroken c (l ∷ ls) h (hl, all) = (ground arith, all)

split-AllUnbroken : (s : Bytes) → AllUnbroken (split newline s)
split-AllUnbroken [] = (refl, tt)
split-AllUnbroken (c ∷ s) = elim (Bool-cases (c == newline)) [
  | inl e ↦ rw e (refl, split-AllUnbroken s)
  | inr e ↦ rw e (push_byte-AllUnbroken c (split newline s) e (split-AllUnbroken s))
]

append-Unbroken : (s t : Bytes) → Unbroken s → Unbroken t → Unbroken (s ++ t)
append-Unbroken [] t hs ht = ht
append-Unbroken (c ∷ s) t hs ht = ground (arith, append-Unbroken s t)

take-Unbroken : (n : ℕ) (s : Bytes) → Unbroken s → Unbroken (take n s)
take-Unbroken zero s h = refl
take-Unbroken (suc n) [] h = refl
take-Unbroken (suc n) (c ∷ s) h = ground (arith, take-Unbroken n s)

tail-Unbroken : (c : ℕ) (s : Bytes) → Unbroken (c ∷ s) → Unbroken s
tail-Unbroken c s h = ground arith

close_span-Unbroken :
    (run : ℕ) (line : Bytes) (onward : ℕ → Bytes) (o : Option ℕ)
    → Unbroken line
    → ((k : ℕ) → Unbroken (onward k))
    → Unbroken (close_span run line onward o)
close_span-Unbroken run line onward none h rest =
    append-Unbroken (take run line) (onward (run - 1)) (take-Unbroken run line h) (rest (run - 1))
close_span-Unbroken run line onward (some closing) h rest = rest (run + closing + run - 1)

spans-Unbroken : (skip : ℕ) (s : Bytes) → Unbroken s → Unbroken (spans skip s)
unfolding spans
spans-Unbroken skip [] h = refl
spans-Unbroken (suc k) (c ∷ s) h = spans-Unbroken k s (tail-Unbroken c s h)
spans-Unbroken zero (c ∷ s) h = elim (Bool-cases (c == backtick)) [
  | inl tick ↦ rw tick (
      close_span-Unbroken (suc (backtick_run s)) (c ∷ s) (λ k. spans k s) _ h
        (λ k. spans-Unbroken k s (tail-Unbroken c s h)))
  | inr other ↦ rw other (ground (arith, spans-Unbroken 0 s))
]

strip_spans-Unbroken : (s : Bytes) → Unbroken s → Unbroken (strip_spans s)
unfolding strip_spans
strip_spans-Unbroken s h = ground (arith, spans-Unbroken 0 s)

if-AllUnbroken :
    (b : Bool) (ls ms : List Bytes)
    → AllUnbroken ls
    → AllUnbroken ms
    → AllUnbroken (if b then ls else ms)
if-AllUnbroken true ls ms h k = h
if-AllUnbroken false ls ms h k = k

strip_lines-AllUnbroken :
    (fence : Bytes) (ls : List Bytes) → AllUnbroken ls → AllUnbroken (strip_lines fence ls)
unfolding strip_lines
strip_lines-AllUnbroken fence [] all = tt
strip_lines-AllUnbroken (f ∷ ence) (l ∷ ls) (hl, all) = (
  refl,
  if-AllUnbroken (has_prefix (bare l) (f ∷ ence)) (strip_lines [] ls) (strip_lines (f ∷ ence) ls)
      (strip_lines-AllUnbroken [] ls all) (strip_lines-AllUnbroken (f ∷ ence) ls all),
)
strip_lines-AllUnbroken [] (l ∷ ls) (hl, all) =
    if-AllUnbroken (is_empty (opening_fence (bare l))) (strip_spans l ∷ strip_lines [] ls)
      ([] ∷ strip_lines (opening_fence (bare l)) ls)
      (strip_spans-Unbroken l hl, strip_lines-AllUnbroken [] ls all)
      (refl, strip_lines-AllUnbroken (opening_fence (bare l)) ls all)

length-strip_lines : (fence : Bytes) (ls : List Bytes) → length (strip_lines fence ls) ≡ length ls
unfolding strip_lines
length-strip_lines fence [] = refl
length-strip_lines (f ∷ ence) (l ∷ ls) =
    ground (arith, length-strip_lines [] ls, length-strip_lines (f ∷ ence) ls)
length-strip_lines [] (l ∷ ls) =
    ground (arith, length-strip_lines [] ls, length-strip_lines (opening_fence (bare l)) ls)

split_free : (s : Bytes) → Unbroken s → split newline s ≡ s ∷ []
split_free [] h = refl
split_free (c ∷ s) h = ground (arith, split_free s)

split_sep : (s t : Bytes) → Unbroken s → split newline (s ++ newline ∷ t) ≡ s ∷ split newline t
split_sep [] t h = refl
split_sep (c ∷ s) t h = ground (arith, split_sep s t)

split-join : (ls : List Bytes) → ls ≢ [] → AllUnbroken ls → split newline (join newline ls) ≡ ls
split-join [] h all = ground arith
split-join (l ∷ []) h (hl, all) = split_free l hl
split-join (l ∷ m ∷ ls) h (hl, all) =
    rw (split_sep l (join newline (m ∷ ls)) hl)
      (ap (λ x. l ∷ x) (split-join (m ∷ ls) (λ e. ground arith) all))

nil_of_length : (ls : List Bytes) → length ls ≡ 0 → ls ≡ []
nil_of_length [] h = refl
nil_of_length (l ∷ ls) h = ground arith

push_byte-some_line : (c : ℕ) (ls : List Bytes) → push_byte c ls ≢ []
push_byte-some_line c [] h = ground arith
push_byte-some_line c (l ∷ ls) h = ground arith

-- There is a line in every text.
split-some_line : (s : Bytes) → split newline s ≢ []
split-some_line [] = λ h. ground arith
split-some_line (c ∷ s) = elim (Bool-cases (c == newline)) [
  | inl e ↦ rw e (λ h. ground arith)
  | inr e ↦ rw e (push_byte-some_line c (split newline s))
]

strip_lines-some_line : (fence : Bytes) (ls : List Bytes) → ls ≢ [] → strip_lines fence ls ≢ []
strip_lines-some_line fence ls h e =
    h (nil_of_length ls (sym (length-strip_lines fence ls) ∙ ap length e))

-- A comment without its code has as many lines as it had.
pub strip_code-lines :
    (body : Bytes) → length (split newline (strip_code body)) ≡ length (split newline body)
unfolding strip_code
strip_code-lines body =
    ap length (
      split-join (strip_lines [] (split newline body))
        (strip_lines-some_line [] (split newline body) (split-some_line body))
        (strip_lines-AllUnbroken [] (split newline body) (split-AllUnbroken body)))
    ∙ length-strip_lines [] (split newline body)
