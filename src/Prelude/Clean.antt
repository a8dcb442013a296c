-- ===== src/Prelude/Clean.antt =====
-- path.Clean of package path, and what the parts of a cleaned path are.
use kibitz.Prelude.{
  ℕ, zero, suc, ◌==◌, Bool, true, false, ◌||◌, ◌≡◌, refl, arith, ap, inl, inr, List, [], ◌∷◌, ◌++◌,
  reverse, reverse-cons, is_empty, if◌then◌else◌, Bytes, codes, str_eq, has_prefix, split,
  push_byte, join, Each, subst, sym, ◌∙◌, Each-append, Each-mono, trim_prefix, Bool-cases,
}

-- What is left of the parts read so far: how many ".." stand in front, and the parts after them, the last first.
pub record Walked : Type 0 where
  pub up : ℕ
  pub parts : List Bytes

-- The part ".."
abbrev pub climb : Bool → ℕ → List Bytes → Walked
climb rooted up [] = record { up = (if rooted then up else suc up); parts = [] }
climb rooted up (p ∷ ps) = record { up = up; parts = ps }

abbrev pub enter : Bool → Bytes → Walked → Walked
enter rooted part w =
    if is_empty part || str_eq part (codes ".")
    then w
    else (if str_eq part (codes "..")
        then climb rooted w.up w.parts
        else record { up = w.up; parts = part ∷ w.parts })

unfoldable pub walk_parts : Bool → List Bytes → Walked → Walked
walk_parts rooted [] w = w
walk_parts rooted (p ∷ ps) w = walk_parts rooted ps (enter rooted p w)

abbrev pub ups : ℕ → List Bytes → List Bytes
ups zero ps = ps
ups (suc n) ps = codes ".." ∷ ups n ps

abbrev pub start : Walked
start = record { up = 0; parts = [] }

abbrev pub joined : Walked → Bytes
joined w = join b'/' (ups w.up (reverse w.parts))

abbrev pub or_dot : Bytes → Bytes
or_dot s = if is_empty s then codes "." else s

unfoldable pub clean : Bytes → Bytes
clean p =
    let rooted = has_prefix p (codes "/") in
    let rest = joined (walk_parts rooted (split b'/' p) start) in
    or_dot (if rooted then b'/' ∷ rest else rest)

-- A part that names something below where it stands.
abbrev pub IsName : Bytes → Type 0
IsName p = (is_empty p ≡ false) × (str_eq p (codes ".") ≡ false) × (str_eq p (codes "..") ≡ false)

abbrev pub NoByte : ℕ → Bytes → Type 0
NoByte c [] = Unit
NoByte c (d ∷ s) = ((d == c) ≡ false) × NoByte c s

abbrev IsPart : Bytes → Type 0
IsPart p = IsName p × NoByte b'/' p

push_byte-NoByte :
    (c d : ℕ) (ps : List Bytes)
    → (d == c) ≡ false
    → Each (NoByte c) ps
    → Each (NoByte c) (push_byte d ps)
push_byte-NoByte c d [] other h = ((other, tt), tt)
push_byte-NoByte c d (p ∷ ps) other (q, h) = ((other, q), h)

split-NoByte : (c : ℕ) (s : Bytes) → Each (NoByte c) (split c s)
split-NoByte c [] = (tt, tt)
split-NoByte c (d ∷ s) = elim (Bool-cases (d == c)) [
  | inl same ↦ rw same (tt, split-NoByte c s)
  | inr other ↦ rw other (push_byte-NoByte c d (split c s) other (split-NoByte c s))
]

split-part : (c : ℕ) (p : Bytes) → NoByte c p → split c p ≡ p ∷ []
split-part c [] h = refl
split-part c (d ∷ p) (other, h) = rw (other, split-part c p h) refl

pub split-step : (c : ℕ) (p s : Bytes) → NoByte c p → split c (p ++ c ∷ s) ≡ p ∷ split c s
split-step c [] s h = ground arith
split-step c (d ∷ p) s (other, h) = rw (other, split-step c p s h) refl

pub split-join :
    (c : ℕ) (p : Bytes) (ps : List Bytes)
    → Each (NoByte c) (p ∷ ps)
    → split c (join c (p ∷ ps)) ≡ p ∷ ps
split-join c p [] (h, k) = split-part c p h
split-join c p (q ∷ ps) (h, k) = rw (split-step c p (join c (q ∷ ps)) h, split-join c q ps k) refl

climb-parts :
    (rooted : Bool) (up : ℕ) (ps : List Bytes)
    → Each IsPart ps
    → Each IsPart (climb rooted up ps).parts
climb-parts rooted up [] k = tt
climb-parts rooted up (p ∷ ps) (q, k) = k

enter-parts :
    (rooted : Bool) (p : Bytes) (w : Walked)
    → NoByte b'/' p
    → Each IsPart w.parts
    → Each IsPart (enter rooted p w).parts
enter-parts rooted p w flat k = elim (Bool-cases (is_empty p)) [
  | inl e ↦ rw e k
  | inr e ↦ elim (Bool-cases (str_eq p (codes "."))) [
    | inl here ↦ rw (e, here) k
    | inr h ↦ elim (Bool-cases (str_eq p (codes ".."))) [
      | inl above ↦ rw (e, h, above) (climb-parts rooted w.up w.parts k)
      | inr a ↦ rw (e, h, a) (((e, h, a), flat), k)
    ]
  ]
]

walk_parts-parts :
    (rooted : Bool) (ps : List Bytes) (w : Walked)
    → Each (NoByte b'/') ps
    → Each IsPart w.parts
    → Each IsPart (walk_parts rooted ps w).parts
unfolding walk_parts
walk_parts-parts rooted [] w h k = k
walk_parts-parts rooted (p ∷ ps) w (flat, h) k =
    walk_parts-parts rooted ps (enter rooted p w) h (enter-parts rooted p w flat k)

climb-rooted : (ps : List Bytes) → (climb true 0 ps).up ≡ 0
climb-rooted [] = refl
climb-rooted (p ∷ ps) = refl

enter-rooted : (p : Bytes) (w : Walked) → w.up ≡ 0 → (enter true p w).up ≡ 0
enter-rooted p w h = ground (arith, h, climb-rooted w.parts)

walk_parts-rooted : (ps : List Bytes) (w : Walked) → w.up ≡ 0 → (walk_parts true ps w).up ≡ 0
unfolding walk_parts
walk_parts-rooted [] w h = h
walk_parts-rooted (p ∷ ps) w h = walk_parts-rooted ps (enter true p w) (enter-rooted p w h)

Each-reverse : (P : Bytes → Type 0) (ps : List Bytes) → Each P ps → Each P (reverse ps)
Each-reverse P [] h = tt
Each-reverse P (p ∷ ps) (q, h) =
    rw reverse-cons (Each-append P (reverse ps) (p ∷ []) (Each-reverse P ps h) (q, tt))

-- What is no path below the place where it is read.
abbrev pub escapes : Bytes → Bool
escapes c =
    is_empty c || str_eq c (codes ".") || str_eq c (codes "..") || has_prefix c (codes "../")

joined-names :
    (ps : List Bytes)
    → Each IsPart ps
    → escapes (join b'/' ps) ≡ false
    → Each IsName (split b'/' (join b'/' ps))
joined-names [] h inside = absurd (ground (arith, inside))
joined-names (p ∷ ps) h inside =
    rw (split-join b'/' p ps (Each-mono (p ∷ ps) h (λ x k. k.1)))
      (Each-mono (p ∷ ps) h (λ x k. k.0))

kept_start :
    (b : ℕ) (p : Bytes) (ps : List Bytes)
    → (b == b'/') ≡ false
    → trim_prefix (or_dot (join b'/' ((b ∷ p) ∷ ps))) (codes "/") ≡ join b'/' ((b ∷ p) ∷ ps)
kept_start b p [] other = rw other refl
kept_start b p (q ∷ ps) other = rw other refl

climbing-escapes :
    (rest : List Bytes)
    → escapes (trim_prefix (or_dot (join b'/' (codes ".." ∷ rest))) (codes "/")) ≡ true
climbing-escapes [] = refl
climbing-escapes (q ∷ rest) = refl

relative-names :
    (up : ℕ) (ps : List Bytes)
    → Each IsPart ps
    → let c = trim_prefix (or_dot (join b'/' (ups up ps))) (codes "/") in
      escapes c ≡ false → Each IsName (split b'/' c)
relative-names zero [] h inside = absurd (ground (arith, inside))
relative-names zero (([] ∷ ps)) ((n, flat), h) inside = absurd (ground (arith, n.0))
relative-names zero ((b ∷ p) ∷ ps) ((n, (other, flat)), h) inside =
    let same = kept_start b p ps other in
    subst (λ c. Each IsName (split b'/' c)) (sym same)
      (joined-names ((b ∷ p) ∷ ps) ((n, (other, flat)), h) (sym (ap escapes same) ∙ inside))
relative-names (suc up) ps h inside = absurd (ground (arith, climbing-escapes (ups up ps), inside))

clean-rooted :
    (s : Bytes)
    → has_prefix s (codes "/") ≡ true
    → trim_prefix (clean s) (codes "/")
      ≡ join b'/' (reverse (walk_parts true (split b'/' s) start).parts)
unfolding clean
clean-rooted s rooted = rw (rooted, walk_parts-rooted (split b'/' s) start refl) refl

clean-flat :
    (s : Bytes)
    → has_prefix s (codes "/") ≡ false
    → clean s ≡ or_dot (joined (walk_parts false (split b'/' s) start))
unfolding clean
clean-flat s flat = rw flat refl

walked_parts :
    (rooted : Bool) (s : Bytes)
    → Each IsPart (reverse (walk_parts rooted (split b'/' s) start).parts)
walked_parts rooted s =
    Each-reverse IsPart (walk_parts rooted (split b'/' s) start).parts
      (walk_parts-parts rooted (split b'/' s) start (split-NoByte b'/' s) tt)

-- What is not refused is made of names.
abbrev NamesOnly : Bytes → Type 0
NamesOnly c = escapes c ≡ false → Each IsName (split b'/' c)

-- A cleaned path, without the slash in front, is made of names unless it is empty, "." or "..", or begins with
-- "../".
pub clean-names : (s : Bytes) → NamesOnly (trim_prefix (clean s) (codes "/"))
clean-names s = elim (Bool-cases (has_prefix s (codes "/"))) [
  | inl rooted ↦
      subst NamesOnly (sym (clean-rooted s rooted))
        (joined-names (reverse (walk_parts true (split b'/' s) start).parts) (walked_parts true s))
  | inr flat ↦
      let w = walk_parts false (split b'/' s) start in
      subst NamesOnly (sym (ap (λ c. trim_prefix c (codes "/")) (clean-flat s flat)))
        (relative-names w.up (reverse w.parts) (walked_parts false s))
]
