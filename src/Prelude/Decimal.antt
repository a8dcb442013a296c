-- ===== src/Prelude/Decimal.antt =====
-- strconv.FormatInt and strconv.ParseInt at base 10 and 64 bits, and int64 addition.
use Prim.Native.Nat.{ℕ, zero, suc, ◌+◌, ◌-◌, ◌*◌, ◌/◌, ◌%◌, ◌^◌, ◌≤◌, ◌<◌}
use mathlib.Core.Path.{◌≡◌, refl, ap, ◌∙◌}
use mathlib.Core.Logic.{inl, inr, ◌≢◌}
use mathlib.Core.Bool.{false, ◌||◌}
use mathlib.Core.Option.{Option, none, some}
use mathlib.Core.List.{[], ◌∷◌}
use native.Mathlib.Omega.{arith}
use kibitz.Prelude.Tests.{ltb, leb, ◌==◌, if◌then◌else◌, Bool-cases}
use kibitz.Prelude.Strings.{Bytes, str_eq}
use kibitz.Prelude.Int.{ℤ, pos, negsuc, pos_part, neg_part, sub_ℕ, ◌+ℤ◌}

abbrev pub max_u64 : ℕ
max_u64 = 2 ^ 64 - 1

abbrev pub min_i64_size : ℕ
min_i64_size = 2 ^ 63

-- The digits of a positive number, before `out`. The fuel is past the number of digits.
digits : ℕ → ℕ → Bytes → Bytes
digits zero n out = out
digits (suc f) n out =
    let rest = digits f (n / 10) ((b'0' + n % 10) ∷ out) in if n == 0 then out else rest

unfoldable pub format_uint : ℕ → Bytes
unfolding digits
format_uint n = if n == 0 then b'0' ∷ [] else digits (suc n) n []

unfoldable pub format_int : ℤ → Bytes
unfolding format_uint
format_int (pos n) = format_uint n
format_int (negsuc n) = b'-' ∷ format_uint (suc n)

-- A value past 64 bits ends the scan with the largest value; a byte that is no digit is an error.
scan : Bytes → ℕ → Option ℕ
scan [] n = some n
scan (c ∷ s) n =
    let d = c - b'0' in
    if ltb c b'0' || ltb b'9' c
    then none
    else if ltb max_u64 (n * 10 + d)
    then some max_u64
    else scan s (n * 10 + d)

unfoldable pub parse_uint : Bytes → Option ℕ
unfolding scan
parse_uint [] = none
parse_uint (c ∷ s) = scan (c ∷ s) 0

abbrev positive : Option ℕ → ℤ
positive none = pos 0
positive (some u) = if leb min_i64_size u then pos (min_i64_size - 1) else pos u

abbrev negative : Option ℕ → ℤ
negative none = pos 0
negative (some u) = if ltb min_i64_size u then sub_ℕ 0 min_i64_size else sub_ℕ 0 u

-- The value that ParseInt returns beside its error: 0 for a syntax error, a bound for a range error.
unfoldable pub parse_int : Bytes → ℤ
unfolding parse_uint
parse_int [] = pos 0
parse_int (c ∷ s) =
    if c == b'-'
    then negative (parse_uint s)
    else if c == b'+'
    then positive (parse_uint s)
    else positive (parse_uint (c ∷ s))

abbrev pub IsI64 : ℤ → Type 0
IsI64 (pos n) = n < 2 ^ 63
IsI64 (negsuc n) = n < 2 ^ 63

-- int64 `a + b`, which wraps around.
abbrev pub wrap_i64 : ℤ → ℤ
wrap_i64 z =
    let u = (pos_part z + (2 ^ 64 - neg_part z % 2 ^ 64)) % 2 ^ 64 in
    if ltb u (2 ^ 63) then pos u else negsuc (2 ^ 64 - u - 1)

unfoldable pub add_i64 : ℤ → ℤ → ℤ
unfolding ◌+ℤ◌
add_i64 a b = wrap_i64 (a +ℤ b)

pub add_i64-exact : (a b : ℤ) → IsI64 (a +ℤ b) → add_i64 a b ≡ a +ℤ b
unfolding add_i64
add_i64-exact (pos a) (pos b) h = ground arith
add_i64-exact (pos a) (negsuc b) h = ground arith
add_i64-exact (negsuc a) (pos b) h = ground arith
add_i64-exact (negsuc a) (negsuc b) h = ground arith

abbrev pub IsDigits : Bytes → Type 0
IsDigits [] = Unit
IsDigits (c ∷ s) = (b'0' ≤ c) × (c ≤ b'9') × IsDigits s

digits-IsDigits : (f n : ℕ) (out : Bytes) → IsDigits out → IsDigits (digits f n out)
unfolding digits
digits-IsDigits zero n out h = h
digits-IsDigits (suc f) n out h =
    ground (arith, digits-IsDigits f (n / 10) ((b'0' + n % 10) ∷ out) (omega arith, omega arith, h))

scan-digit :
    (d n : ℕ) (out : Bytes)
    → d < 10
    → n * 10 + d ≤ max_u64
    → scan ((b'0' + d) ∷ out) n ≡ scan out (n * 10 + d)
unfolding scan
scan-digit d n out h k = ground arith

scan-digits : (f n : ℕ) (out : Bytes) → n < f → n ≤ max_u64 → scan (digits f n out) 0 ≡ scan out n
unfolding digits
scan-digits zero n out h k = absurd (omega arith)
scan-digits (suc f) n out h k = elim (Bool-cases (n == 0)) [
  | inl z ↦ rw z (ap (scan out) (ground arith))
  | inr p ↦ rw p (
      scan-digits f (n / 10) ((b'0' + n % 10) ∷ out) (ground arith) (omega arith)
      ∙ scan-digit (n % 10) (n / 10) out (omega arith) (omega arith)
      ∙ ap (scan out) (omega arith))
]

-- A printed number begins with a digit, so no sign is read from it.
abbrev pub FirstIsDigit : Bytes → Type 0
FirstIsDigit [] = ⊥
FirstIsDigit (c ∷ s) = (b'0' ≤ c) × (c ≤ b'9')

digits-FirstIsDigit : (f n : ℕ) (out : Bytes) → FirstIsDigit out → FirstIsDigit (digits f n out)
unfolding digits
digits-FirstIsDigit zero n out h = h
digits-FirstIsDigit (suc f) n out h =
    ground
      (arith, digits-FirstIsDigit f (n / 10) ((b'0' + n % 10) ∷ out) (omega arith, omega arith))

pub format_uint-FirstIsDigit : (n : ℕ) → FirstIsDigit (format_uint n)
unfolding format_uint digits
format_uint-FirstIsDigit n =
    ground (arith, digits-FirstIsDigit n (n / 10) ((b'0' + n % 10) ∷ []) (omega arith, omega arith))

pub format_uint-IsDigits : (n : ℕ) → IsDigits (format_uint n)
unfolding format_uint
format_uint-IsDigits n = ground (arith, digits-IsDigits (suc n) n [] tt)

parse_uint-scan : (s : Bytes) → FirstIsDigit s → parse_uint s ≡ scan s 0
unfolding parse_uint
parse_uint-scan [] h = absurd h
parse_uint-scan (c ∷ s) h = refl

pub parse-format_uint : (n : ℕ) → n ≤ max_u64 → parse_uint (format_uint n) ≡ some n
unfolding format_uint scan digits
parse-format_uint n h =
    parse_uint-scan (format_uint n) (format_uint-FirstIsDigit n)
    ∙ ground (arith, scan-digits (suc n) n [] (omega arith) h)

parse_int-digit : (s : Bytes) → FirstIsDigit s → parse_int s ≡ positive (parse_uint s)
unfolding parse_int
parse_int-digit [] h = absurd h
parse_int-digit (c ∷ s) h = ground arith

-- What an int64 is printed as reads back as that int64.
pub parse-format_int : (z : ℤ) → IsI64 z → parse_int (format_int z) ≡ z
unfolding format_int
parse-format_int (pos n) h =
    parse_int-digit (format_uint n) (format_uint-FirstIsDigit n)
    ∙ rw (parse-format_uint n (omega arith)) (ground arith)
parse-format_int (negsuc n) h =
    unfold parse_int in rw (parse-format_uint (suc n) (omega arith)) (ground arith)

pub format_uint-injective :
    (m n : ℕ) → m ≤ max_u64 → n ≤ max_u64 → format_uint m ≡ format_uint n → m ≡ n
format_uint-injective m n hm hn e =
    ground (arith, parse-format_uint m hm, parse-format_uint n hn, ap parse_uint e)

pub format_uint-ne-nil : (n : ℕ) → str_eq [] (format_uint n) ≡ false
format_uint-ne-nil n = go (format_uint n) (format_uint-FirstIsDigit n)
  where
    go : (s : Bytes) → FirstIsDigit s → str_eq [] s ≡ false
    go [] h = absurd h
    go (c ∷ s) h = refl

pub add_i64-IsI64 : (a b : ℤ) → IsI64 (add_i64 a b)
unfolding add_i64
add_i64-IsI64 a b = go (a +ℤ b)
  where
    go : (z : ℤ) → IsI64 (wrap_i64 z)
    go z = ground arith

pub format_int-injective : (a b : ℤ) → IsI64 a → IsI64 b → format_int a ≡ format_int b → a ≡ b
format_int-injective a b ha hb e = cc (parse-format_int a ha, parse-format_int b hb, ap parse_int e)

-- The text of a number never begins with the letter that begins "issue/".
pub format_int-head : (a : ℤ) (s : Bytes) → format_int a ≢ b'i' ∷ s
unfolding format_int
format_int-head (pos n) s e = go (format_uint n) (format_uint-FirstIsDigit n) e
  where
    go : (t : Bytes) → FirstIsDigit t → t ≢ b'i' ∷ s
    go [] h e = absurd h
    go (c ∷ t) h e = ground arith
format_int-head (negsuc n) s e = ground arith
