-- ===== src/RepoConfig/PathFilter/Literal.antt =====
-- Patterns without wildcards.
use kibitz.Prelude.{
  ◌≤◌, ◌<◌, ◌≡◌, ◌↔◌, ◌⊎◌, inl, inr, refl, subst, ap, arith, ◌==◌, Bool, true, false, [], ◌∷◌, ◌++◌,
  length, length-append, Bytes, codes, has_prefix, Bool-cases, dec_lt,
}
use kibitz.RepoConfig.PathFilter.{
  string_of_byte, tokens, translate, without_newline, ends, match_text, tokens_match,
}

-- No byte is "*" or "?".
abbrev pub NoWildcard : Bytes → Type 0
NoWildcard [] = Unit
NoWildcard (c ∷ s) = ((c == b'*') ≡ false) × ((c == b'?') ≡ false) × NoWildcard s

abbrev pub AllAscii : Bytes → Type 0
AllAscii [] = Unit
AllAscii (c ∷ s) = (c < 128) × AllAscii s

-- What the fragments of such a pattern spell.
abbrev pub spelled : Bytes → Bytes
spelled [] = []
spelled (c ∷ s) = string_of_byte c ++ spelled s

-- The path itself or something below it.
abbrev pub IsBelow : Bytes → Bytes → Type 0
IsBelow dir path =
    (path ≡ dir) ⊎ ((rest : Bytes) × (path ≡ dir ++ b'/' ∷ rest) × (without_newline rest ≡ true))

ends-IsBelow : (s : Bytes) → (ends s ≡ true) ↔ IsBelow [] s
ends-IsBelow [] = ((λ e. inl refl), λ h. refl)
ends-IsBelow (c ∷ s) = (
  (λ e. inr (s, ground (arith, e), ground (arith, e))),
  (λ h. elim h [
    | inl e ↦ absurd (ground (arith, e))
    | inr (rest, e, clean) ↦ ground (arith, e, clean)
  ]),
)

match_text-IsBelow :
    (bs dir s : Bytes) (rest : Bytes → Bool)
    → ((t : Bytes) → (rest t ≡ true) ↔ IsBelow dir t)
    → (match_text bs rest s ≡ true) ↔ IsBelow (bs ++ dir) s
match_text-IsBelow [] dir s rest h = h s
match_text-IsBelow (b ∷ bs) dir [] rest h = (
  (λ e. absurd (ground (arith, e))),
  (λ below. elim below [
    | inl e ↦ absurd (ground (arith, e))
    | inr (r, e, clean) ↦ absurd (ground (arith, e))
  ]),
)
match_text-IsBelow (b ∷ bs) dir (c ∷ s) rest h =
    let (to, from) = match_text-IsBelow bs dir s rest h in
    (
      (λ e. elim (to (ground (arith, e))) [
        | inl same ↦ inl (ground (arith, e, same))
        | inr (r, same, clean) ↦ inr (r, ground (arith, e, same), clean)
      ]),
      (λ below. elim below [
        | inl same ↦ ground (arith, same, from (inl (ground (arith, same))))
        | inr (r, same, clean) ↦ ground (arith, same, from (inr (r, ground (arith, same), clean)))
      ]),
    )

tokens-IsBelow :
    (p s : Bytes) → NoWildcard p → (tokens_match (tokens 0 p) s ≡ true) ↔ IsBelow (spelled p) s
unfolding tokens tokens_match
tokens-IsBelow [] s h = ends-IsBelow s
tokens-IsBelow (c ∷ p) s (star, mark, h) = rw star (
    rw mark (
      match_text-IsBelow (string_of_byte c) (spelled p) s (tokens_match (tokens 0 p))
        (λ t. tokens-IsBelow p t h)))

no_star_prefix : (p : Bytes) → NoWildcard p → has_prefix p (codes "**/") ≡ false
no_star_prefix [] h = refl
no_star_prefix (c ∷ p) (star, mark, rest) = ground (arith, star)

tokens_match-spelled :
    (p s : Bytes) → NoWildcard p → (tokens_match (translate p) s ≡ true) ↔ IsBelow (spelled p) s
unfolding translate
tokens_match-spelled p s h = rw (no_star_prefix p h) (tokens-IsBelow p s h)

spelled-ascii : (p : Bytes) → AllAscii p → spelled p ≡ p
spelled-ascii [] h = refl
spelled-ascii (c ∷ p) (lt, h) = ground (arith, lt, spelled-ascii p h)

-- A pattern of ASCII bytes without wildcards covers exactly the path that it names and what is below it, as long
-- as no newline is in the path there.
pub tokens_match-IsBelow :
    (p path : Bytes)
    → NoWildcard p
    → AllAscii p
    → (tokens_match (translate p) path ≡ true) ↔ IsBelow p path
tokens_match-IsBelow p path plain ascii =
    subst (λ d. (tokens_match (translate p) path ≡ true) ↔ IsBelow d path) (spelled-ascii p ascii)
      (tokens_match-spelled p path plain)

length-spelled :
    (p : Bytes) → (length p ≤ length (spelled p)) × (¬ AllAscii p → length p < length (spelled p))
length-spelled [] = (omega arith, λ h. absurd (h tt))
length-spelled (c ∷ p) =
    let (le, lt) = length-spelled p in
    elim (dec_lt c 128) [
      | yes small ↦ (
        ground (arith, small, le),
        λ h. ground (arith, small, lt (λ ascii. h (small, ascii)), le),
      )
      | no big ↦ (ground (arith, big, le), λ h. ground (arith, big, le))
    ]

-- A pattern without wildcards that has a byte outside ASCII does not cover the path that it names: each such
-- byte is written into the expression as a character of its own.
pub non_ascii_misses :
    (p : Bytes) → NoWildcard p → ¬ AllAscii p → tokens_match (translate p) p ≡ false
non_ascii_misses p plain wide = elim (Bool-cases (tokens_match (translate p) p)) [
  | inr miss ↦ miss
  | inl hit ↦
      let longer = (length-spelled p).1 wide in
      elim ((tokens_match-spelled p p plain).0 hit) [
        | inl e ↦ absurd (omega (arith, ap length e))
        | inr (rest, e, clean) ↦
            absurd (omega (arith, ap length e, length-append (spelled p) (b'/' ∷ rest)))
      ]
]
