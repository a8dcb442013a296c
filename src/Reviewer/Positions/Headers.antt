-- ===== src/Reviewer/Positions/Headers.antt =====
-- The header that a hunk is written with, read back.
use kibitz.Prelude.{
  ℕ, ◌^◌, ◌<◌, ◌==◌, ◌≡◌, refl, ap, ◌∙◌, arith, some, [], ◌∷◌, ◌++◌, reverse, reverse-cons,
  reverse-reverse, Bytes, codes, is_space, trim_left, trim_space, Bool-cases, inl, inr,
}
use kibitz.Prelude.Clean.{NoByte}
use kibitz.Prelude.Decimal.{
  format_uint, parse_uint, IsDigits, FirstIsDigit, format_uint-IsDigits, format_uint-FirstIsDigit,
  parse-format_uint,
}
use kibitz.TextDiff.Unified.{rng, hunk_header}
use kibitz.Reviewer.Positions.{
  cut_before, cut_after, atoi_pos, start_of, positive_only, parse_hunk_start,
}

cut_after-skip : (c : ℕ) (s t : Bytes) → NoByte c s → cut_after c (s ++ t) ≡ cut_after c t
cut_after-skip c [] t h = refl
cut_after-skip c (d ∷ s) t (ne, h) = rw ne (cut_after-skip c s t h)

cut_before-found : (c : ℕ) (s t : Bytes) → NoByte c s → cut_before c (s ++ c ∷ t) ≡ s
cut_before-found c [] t h = ground arith
cut_before-found c (d ∷ s) t (ne, h) = rw ne (ap (λ r. d ∷ r) (cut_before-found c s t h))

cut_before-none : (c : ℕ) (s : Bytes) → NoByte c s → cut_before c s ≡ s
cut_before-none c [] h = refl
cut_before-none c (d ∷ s) (ne, h) = rw ne (ap (λ r. d ∷ r) (cut_before-none c s h))

pub NoByte-append : (c : ℕ) (s t : Bytes) → NoByte c s → NoByte c t → NoByte c (s ++ t)
NoByte-append c [] t h k = k
NoByte-append c (d ∷ s) t (ne, h) k = (ne, NoByte-append c s t h k)

IsDigits-NoByte : (c : ℕ) (s : Bytes) → c < b'0' → IsDigits s → NoByte c s
IsDigits-NoByte c [] lt h = tt
IsDigits-NoByte c (d ∷ s) lt (lo, hi, h) = (ground (arith, lt, lo), IsDigits-NoByte c s lt h)

pub rng-NoByte : (c : ℕ) (p : ℕ × ℕ) → c < b',' → NoByte c (rng p)
unfolding rng
rng-NoByte c (start, n) lt = elim (Bool-cases (n == 1)) [
  | inl one ↦
      rw one (IsDigits-NoByte c (format_uint start) (omega arith) (format_uint-IsDigits start))
  | inr many ↦ rw many (
      NoByte-append c (format_uint start) (b',' ∷ format_uint n)
        (IsDigits-NoByte c (format_uint start) (omega arith) (format_uint-IsDigits start))
        (
          ground (arith, lt),
          IsDigits-NoByte c (format_uint n) (omega arith) (format_uint-IsDigits n),
        ))
]

rng-start : (start n : ℕ) → cut_before b',' (rng (start, n)) ≡ format_uint start
unfolding rng
rng-start start n = elim (Bool-cases (n == 1)) [
  | inl one ↦ rw one (
      cut_before-none b',' (format_uint start)
        (IsDigits-NoByte b',' (format_uint start) (omega arith) (format_uint-IsDigits start)))
  | inr many ↦ rw many (
      cut_before-found b',' (format_uint start) (format_uint n)
        (IsDigits-NoByte b',' (format_uint start) (omega arith) (format_uint-IsDigits start)))
]

IsDigits-append : (s t : Bytes) → IsDigits s → IsDigits t → IsDigits (s ++ t)
IsDigits-append [] t h k = k
IsDigits-append (c ∷ s) t (lo, hi, h) k = (lo, hi, IsDigits-append s t h k)

IsDigits-reverse : (s : Bytes) → IsDigits s → IsDigits (reverse s)
IsDigits-reverse [] h = tt
IsDigits-reverse (c ∷ s) (lo, hi, h) =
    rw (reverse-cons c s) (IsDigits-append (reverse s) (c ∷ []) (IsDigits-reverse s h) (lo, hi, tt))

trim_left-IsDigits : (s : Bytes) → IsDigits s → trim_left is_space s ≡ s
trim_left-IsDigits [] h = refl
trim_left-IsDigits (c ∷ s) (lo, hi, h) = ground (arith, lo, hi)

trim_space-IsDigits : (s : Bytes) → IsDigits s → trim_space s ≡ s
trim_space-IsDigits s h =
    rw (trim_left-IsDigits s h)
      (rw (trim_left-IsDigits (reverse s) (IsDigits-reverse s h)) (reverse-reverse s))

atoi_pos-digits : (s : Bytes) → FirstIsDigit s → atoi_pos s ≡ positive_only (parse_uint s)
atoi_pos-digits [] h = absurd h
atoi_pos-digits (c ∷ s) h = ground (arith, h)

-- The header that a hunk is rendered with is read back: the number that the positions take from it is where the
-- hunk starts on the new side, for a start that is positive and an int64.
pub parse_hunk_start-hunk_header :
    (old : ℕ × ℕ) (start n : ℕ)
    → 0 < start
    → start < 2 ^ 63
    → parse_hunk_start (hunk_header old (start, n)) ≡ some start
unfolding parse_hunk_start
parse_hunk_start-hunk_header old start n lo hi =
    let digits = format_uint-IsDigits start in
    ap start_of (
      cut_after-skip b'+' (rng old) (codes " +" ++ (rng (start, n) ++ codes " @@"))
        (rng-NoByte b'+' old (omega arith)))
    ∙ ap (λ s. atoi_pos (trim_space (cut_before b',' s)))
        (cut_before-found b' ' (rng (start, n)) (codes "@@")
          (rng-NoByte b' ' (start, n) (omega arith)))
    ∙ ap (λ s. atoi_pos (trim_space s)) (rng-start start n)
    ∙ ap atoi_pos (trim_space-IsDigits (format_uint start) digits)
    ∙ atoi_pos-digits (format_uint start) (format_uint-FirstIsDigit start)
    ∙ ap positive_only (parse-format_uint start (omega arith))
    ∙ ground (arith, lo, hi)
