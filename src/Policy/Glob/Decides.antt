-- ===== src/Policy/Glob/Decides.antt =====
-- The loop of `Match` against what it means to match.
use kibitz.Prelude.{
  ℕ, zero, suc, ◌+◌, ◌*◌, ◌≤◌, ◌<◌, ◌≡◌, refl, Bool, true, false, ◌||◌, Option, none, some, [], ◌∷◌,
  ◌==◌, arith, Bytes, length, Bool-cases, inl, inr, false≢true, sym, ◌∙◌, subst, is_some, is_empty,
}
use mathlib.Core.Path.{fun_ext}
use kibitz.Policy.Glob.{Star, retry, only_stars, loop, fuel, match}
use kibitz.Policy.Glob.Matching.{
  some_suffix, matches, no_star, some_suffix-whole, some_suffix-tail, some_suffix_twice,
  matches-star, matches-byte, drop_byte, some_suffix_later,
}

-- An answer was given; yes means `G`; and no means not `G`, if the name is plain.
record Answers (G P : Type 0) (r : Option Bool) : Type 0 where
  bit : Bool
  ended : r ≡ some bit
  sound : bit ≡ true → G
  complete : P → G → bit ≡ true

-- `G` is the question asked at the start, `P` says that the name is plain, and every pattern in play
-- is shorter than `k`.
module _ (G P : Type 0) (k : ℕ) where
  -- What the saved star is good for; `m` bounds the text that it can still take.
  abbrev Saved : ℕ → Bytes → Bytes → Star → Type 0
  Saved m p s none = P → G → matches p s ≡ true
  Saved m p s (some (q, t)) =
      (some_suffix (matches q) t ≡ true → G)
      × (P → G → some_suffix (matches q) t ≡ true)
      × (P → no_star t ≡ true)
      × (P → matches q t ≡ true → matches p s ≡ true)
      × (length s ≤ length t)
      × (length t ≤ m)
      × (length q < k)

  record Inv (f m : ℕ) (p s : Bytes) (star : Star) : Type 0 where
    now : matches p s ≡ true → G
    later : P → G → some_suffix (matches p) s ≡ true
    plain : P → no_star s ≡ true
    saved : Saved m p s star
    text : length s ≤ m
    short : length p < k
    fuelled : m * k + length p < f

  -- A start right behind a star.
  Inv-restart :
      {f m : ℕ} {p t : Bytes}
      → (some_suffix (matches p) t ≡ true → G)
      → (P → G → some_suffix (matches p) t ≡ true)
      → (P → no_star t ≡ true)
      → length t ≤ m
      → length p < k
      → m * k + length p < f
      → Inv f m p t (some (p, t))
  Inv-restart {p} {t} yes_ if_g clean ht hp hf = record {
    now = λ h. yes_ (some_suffix-whole (matches p) t h);
    later = if_g;
    plain = clean;
    saved = (yes_, if_g, clean, λ _ h. h, omega arith, ht, hp);
    text = ht;
    short = hp;
    fuelled = hf;
  }

  -- A byte is taken, for itself or for "?". (A "*" in the name may take the pattern's "*".)
  module _ (x c : ℕ) (p s : Bytes) (taken : (x == b'?' || x == c) ≡ true) where
    take_forward : matches p s ≡ true → matches (x ∷ p) (c ∷ s) ≡ true
    take_forward h = elim (Bool-cases (x == b'*')) [
      | inl star ↦
          rw (matches-star x p (c ∷ s) star)
            (some_suffix-tail (matches p) c s (some_suffix-whole (matches p) s h))
      | inr byte ↦ rw (matches-byte x c p s byte) (ground arith)
    ]

    not_star : no_star (c ∷ s) ≡ true → (x == b'*') ≡ false
    not_star h = ground arith

    take_back : no_star (c ∷ s) ≡ true → matches (x ∷ p) (c ∷ s) ≡ true → matches p s ≡ true
    take_back clean h = ground (arith, matches-byte x c p s (not_star clean))

    take_later :
        no_star (c ∷ s) ≡ true
        → some_suffix (matches (x ∷ p)) (c ∷ s) ≡ true
        → some_suffix (matches p) s ≡ true
    unfolding some_suffix
    take_later clean h = ground (
      arith,
      matches-byte x c p s (not_star clean),
      some_suffix-whole (matches p) s,
      drop_byte x p s (not_star clean),
    )

    Saved-byte :
        (m : ℕ) (star : Star)
        → (P → no_star (c ∷ s) ≡ true)
        → Saved m (x ∷ p) (c ∷ s) star
        → Saved m p s star
    Saved-byte m none clean h = λ pl g. take_back (clean pl) (h pl g)
    Saved-byte m (some (q, t)) clean (a, b, d, down, le, lt, lq) =
        (a, b, d, λ pl e. take_back (clean pl) (down pl e), omega arith, lt, lq)

    Inv-byte : {f m : ℕ} {star : Star} → Inv (suc f) m (x ∷ p) (c ∷ s) star → Inv f m p s star
    Inv-byte {m} {star} i = record {
      now = λ h. i.now (take_forward h);
      later = λ pl g. take_later (i.plain pl) (i.later pl g);
      plain = λ pl. ground (arith, i.plain pl);
      saved = Saved-byte m star i.plain i.saved;
      text = omega (arith, i.text);
      short = omega (arith, i.short);
      fuelled = omega (arith, i.fuelled);
    }

  -- After a mismatch the saved star takes one more byte.
  retry-Answers :
      {f c : ℕ} {p s : Bytes} (m : ℕ) (star : Star) (next : Bytes → Bytes → Star → Option Bool)
      → ((m' : ℕ) (p' s' : Bytes) (st : Star) → Inv f m' p' s' st → Answers G P (next p' s' st))
      → Inv (suc f) m p (c ∷ s) star
      → matches p (c ∷ s) ≡ false
      → Answers G P (retry star next)
  unfolding retry
  retry-Answers m none next ih i mismatch = record {
    bit = false;
    ended = refl;
    sound = λ h. absurd (false≢true h);
    complete = λ pl g. sym mismatch ∙ i.saved pl g;
  }
  retry-Answers m (some (q, [])) next ih i mismatch = absurd (omega (arith, i.saved.4))
  retry-Answers zero (some (q, y ∷ t)) next ih i mismatch = absurd (omega (arith, i.text))
  retry-Answers (suc m) (some (q, y ∷ t)) next ih i mismatch =
      let (a, b, d, down, le, lt, lq) = i.saved in
      ih m q t (some (q, t)) (
        Inv-restart (λ h. a (some_suffix-tail (matches q) y t h))
          (λ pl g.
            some_suffix_later (matches q) y t (b pl g) (λ e. false≢true (sym mismatch ∙ down pl e)))
          (λ pl. ground (arith, d pl)) (omega arith) lq (omega (arith, i.fuelled)))

  only_stars-matches : (p : Bytes) → only_stars p ≡ matches p []
  unfolding only_stars matches
  only_stars-matches [] = refl
  only_stars-matches (x ∷ p) = ground (arith, only_stars-matches p)

  mismatched :
      (x c : ℕ) (p s : Bytes)
      → (x == b'?' || x == c) ≡ false
      → (x == b'*') ≡ false
      → matches (x ∷ p) (c ∷ s) ≡ false
  mismatched x c p s differ byte = ground (arith, matches-byte x c p s byte)

  loop-Answers :
      (f m : ℕ) (p s : Bytes) (star : Star) → Inv f m p s star → Answers G P (loop f p s star)
  unfolding loop
  loop-Answers zero m p s star i = absurd (omega (arith, i.fuelled))
  loop-Answers (suc f) m p [] star i = record {
    bit = only_stars p;
    ended = refl;
    sound = λ h. i.now (sym (only_stars-matches p) ∙ h);
    complete = λ pl g. only_stars-matches p ∙ unfold some_suffix in i.later pl g;
  }
  loop-Answers (suc f) m [] (c ∷ s) star i =
      retry-Answers m star (loop f) (loop-Answers f) i (unfold matches in refl)
  loop-Answers (suc f) m (x ∷ p) (c ∷ s) star i = elim (Bool-cases (x == b'?' || x == c)) [
    | inl taken ↦ rw taken (loop-Answers f m p s star (Inv-byte x c p s taken i))
    | inr differ ↦ elim (Bool-cases (x == b'*')) [
      | inl at ↦
          rw (differ, at)
            (loop-Answers f m p (c ∷ s) (some (p, c ∷ s)) (
              Inv-restart (λ h. i.now (matches-star x p (c ∷ s) at ∙ h))
                (λ pl g. some_suffix_twice (matches p) (c ∷ s) (
                  subst (λ test. some_suffix test (c ∷ s) ≡ true)
                    (fun_ext λ t. matches-star x p t at) (i.later pl g)))
                i.plain i.text (omega (arith, i.short)) (omega (arith, i.fuelled))))
      | inr byte ↦
          rw (differ, byte)
            (retry-Answers m star (loop f) (loop-Answers f) i (mismatched x c p s differ byte))
    ]
  ]

match-Answers :
    (pattern name : Bytes)
    → Answers
        (matches pattern name ≡ true)
        (no_star name ≡ true)
        (loop (fuel pattern name) pattern name none)
match-Answers pattern name =
    loop-Answers _ _ (suc (length pattern)) (fuel pattern name) (length name) pattern name none
      (record {
        now = λ h. h;
        later = λ _ g. some_suffix-whole (matches pattern) name g;
        plain = λ h. h;
        saved = λ _ g. g;
        text = omega arith;
        short = omega arith;
        fuelled = omega arith;
      })

-- The loop stops within its fuel, for every pattern and every name.
pub match_ends :
    (pattern name : Bytes) → is_some (loop (fuel pattern name) pattern name none) ≡ true
match_ends pattern name = ground (arith, (match-Answers pattern name).ended)

-- Whatever the loop accepts does match, in the sense of "*" for any run of bytes and "?" for one.
pub match_sound : (pattern name : Bytes) → match pattern name ≡ true → matches pattern name ≡ true
unfolding match
match_sound pattern name h = let a = match-Answers pattern name in a.sound (ground (arith, a.ended))

-- For a name without the byte "*" the answer is exactly whether it matches.
pub match_exact :
    (pattern name : Bytes) → no_star name ≡ true → match pattern name ≡ matches pattern name
unfolding match
match_exact pattern name clean =
    let a = match-Answers pattern name in ground (arith, a.ended, a.sound, a.complete clean)

after_one : (f c : ℕ) (s : Bytes) → 2 ≤ f → loop f (b'*' ∷ []) (b'*' ∷ c ∷ s) none ≡ some false
unfolding loop
after_one zero c s h = absurd (omega arith)
after_one (suc zero) c s h = absurd (omega arith)
after_one (suc (suc f)) c s h = refl

some_suffix-empty : (s : Bytes) → some_suffix is_empty s ≡ true
unfolding some_suffix
some_suffix-empty [] = refl
some_suffix-empty (c ∷ s) = some_suffix-empty s

-- A "*" in the pattern that meets a "*" in the name is spent on that one byte: the pattern "*" refuses
-- every longer name that begins with "*", although such a name matches it.
pub star_misses :
    (c : ℕ) (s : Bytes)
    → (match (b'*' ∷ []) (b'*' ∷ c ∷ s) ≡ false) × (matches (b'*' ∷ []) (b'*' ∷ c ∷ s) ≡ true)
star_misses c s = (
  unfold match in rw (after_one (fuel (b'*' ∷ []) (b'*' ∷ c ∷ s)) c s (omega arith)),
  unfold matches in some_suffix-empty s,
)
