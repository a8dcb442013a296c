-- ===== src/Policy/Glob/Matching.antt =====
-- What it means for a name to match a pattern, with no search order in it.
use kibitz.Prelude.{
  ℕ, ◌≡◌, Bool, true, false, not, ◌&&◌, ◌||◌, [], ◌∷◌, ◌==◌, if◌then◌else◌, is_empty, arith, Bytes,
}

-- Some suffix of the text passes the test.
unfoldable pub some_suffix : (Bytes → Bool) → Bytes → Bool
some_suffix k [] = k []
some_suffix k (c ∷ s) = k (c ∷ s) || some_suffix k s

abbrev first_and : (Bytes → Bool) → ℕ → Bytes → Bool
first_and k x [] = false
first_and k x (c ∷ s) = (x == b'?' || x == c) && k s

-- "*" stands for any run of bytes, "?" for one, any other byte for itself.
unfoldable pub matches : Bytes → Bytes → Bool
unfolding some_suffix
matches [] s = is_empty s
matches (x ∷ p) s = if x == b'*' then some_suffix (matches p) s else first_and (matches p) x s

abbrev pub no_star : Bytes → Bool
no_star [] = true
no_star (c ∷ s) = not (c == b'*') && no_star s

module _ (k : Bytes → Bool) where
  pub some_suffix-whole : (s : Bytes) → k s ≡ true → some_suffix k s ≡ true
  unfolding some_suffix
  some_suffix-whole [] h = h
  some_suffix-whole (c ∷ s) h = ground arith

  pub some_suffix-tail : (c : ℕ) (s : Bytes) → some_suffix k s ≡ true → some_suffix k (c ∷ s) ≡ true
  unfolding some_suffix
  some_suffix-tail c s h = ground arith

  pub some_suffix_twice :
      (s : Bytes) → some_suffix (some_suffix k) s ≡ true → some_suffix k s ≡ true
  unfolding some_suffix
  some_suffix_twice [] h = h
  some_suffix_twice (c ∷ s) h = ground (arith, some_suffix_twice s)

  -- If the text itself fails the test, a later suffix passes it.
  pub some_suffix_later :
      (c : ℕ) (s : Bytes)
      → some_suffix k (c ∷ s) ≡ true
      → (k (c ∷ s) ≡ true → ⊥)
      → some_suffix k s ≡ true
  unfolding some_suffix
  some_suffix_later c s h fails = ground arith

pub matches-star :
    (x : ℕ) (p s : Bytes) → (x == b'*') ≡ true → matches (x ∷ p) s ≡ some_suffix (matches p) s
unfolding matches
matches-star x p s h = ground arith

pub matches-byte :
    (x c : ℕ) (p s : Bytes)
    → (x == b'*') ≡ false
    → matches (x ∷ p) (c ∷ s) ≡ ((x == b'?' || x == c) && matches p s)
unfolding matches
matches-byte x c p s h = ground arith

-- Where a name matches from some byte on, the rest of the pattern matches from some later byte on.
pub drop_byte :
    (x : ℕ) (p s : Bytes)
    → (x == b'*') ≡ false
    → some_suffix (matches (x ∷ p)) s ≡ true
    → some_suffix (matches p) s ≡ true
unfolding some_suffix matches
drop_byte x p [] ne h = ground arith
drop_byte x p (c ∷ s) ne h = ground (arith, drop_byte x p s ne, some_suffix-whole (matches p) s)
