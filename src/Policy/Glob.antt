-- ===== src/Policy/Glob.antt =====
-- internal/policy/glob.go: wildcard patterns, "*" for any run of bytes and "?" for one.
pub mod Matching
pub mod Decides
use kibitz.Prelude.{
  ℕ, zero, suc, ◌+◌, ◌*◌, Bool, true, false, ◌&&◌, ◌||◌, Option, none, some, List, [], ◌∷◌, ◌==◌,
  ltb, leb, if◌then◌else◌, Bytes, length, get_elem?,
}

-- An index into the pattern or the name is the suffix from it. `starP + 1` and `starN` are such a pair
-- of suffixes, present once a star has been met.
abbrev pub Star : Type 0
Star = Option (Bytes × Bytes)

-- The last two cases of the switch. A star saved with nothing left of the name would answer `none`.
unfoldable pub retry : Star → (Bytes → Bytes → Star → Option Bool) → Option Bool
retry none next = some false
retry (some (p, [])) next = none
retry (some (p, c ∷ s)) next = next p s (some (p, s))

-- The loop over the rest of the pattern, and `p == patLen`.
unfoldable pub only_stars : Bytes → Bool
only_stars [] = true
only_stars (c ∷ p) = c == b'*' && only_stars p

-- The main loop, on fuel: `none` is out of fuel.
unfoldable pub loop : ℕ → Bytes → Bytes → Star → Option Bool
unfolding retry only_stars
loop zero p s star = none
loop (suc f) p [] star = some (only_stars p)
loop (suc f) [] (c ∷ s) star = retry star (loop f)
loop (suc f) (x ∷ p) (c ∷ s) star =
    let onward = loop f p s star in
    let at_star = loop f p (c ∷ s) (some (p, c ∷ s)) in
    if x == b'?' || x == c then onward else if x == b'*' then at_star else retry star (loop f)

abbrev pub fuel : Bytes → Bytes → ℕ
fuel pattern name = suc (length name * suc (length pattern) + length pattern)

abbrev answer : Option Bool → Bool
answer none = false
answer (some b) = b

-- `Match`
unfoldable pub match : Bytes → Bytes → Bool
unfolding loop
match pattern name = answer (loop (fuel pattern name) pattern name none)

-- `MatchAny`
unfoldable pub match_any : List Bytes → Bytes → Bool
match_any [] name = false
match_any (p ∷ ps) name = match p name || match_any ps name
