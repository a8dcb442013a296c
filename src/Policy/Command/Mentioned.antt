-- ===== src/Policy/Command/Mentioned.antt =====
-- The search for a mention against what a mention is.
use kibitz.Prelude.{
  ℕ, zero, suc, ◌-◌, ◌≡◌, ◌≢◌, refl, ◌↔◌, Bool, true, false, not, ◌&&◌, ◌||◌, Option, none, some,
  [], ◌∷◌, arith, ◌⊎◌, Bytes, has_prefix, to_lower, length, drop, Bool-cases, inl, inr,
}
use native.Mathlib.Numerals.{unary_clauses}
use kibitz.Policy.Markdown.{strip_code}
use kibitz.Policy.Command.{is_boundary, bounds, is_standalone, mentions_from, mentions}

-- A mention `m` stands somewhere in a text that follows the byte `before`, with a boundary on both sides.
pub data Stands (m : Bytes) : Option ℕ → Bytes → Type 0 where
  here :
      {before : Option ℕ} {c : ℕ} {s : Bytes}
      → has_prefix (c ∷ s) m ≡ true
      → is_standalone before (drop (length m) (c ∷ s)) ≡ true
      → Stands m before (c ∷ s)
  there : {before : Option ℕ} {c : ℕ} {s : Bytes} → Stands m (some c) s → Stands m before (c ∷ s)

-- No byte of the text is a boundary.
abbrev pub solid : Bytes → Bool
solid [] = true
solid (c ∷ s) = not (is_boundary c) && solid s

at_mention :
    (m : Bytes) (before : Option ℕ) (c : ℕ) (s : Bytes)
    → (mentions_from m (length m - 1) (some c) s ≡ true → Stands m (some c) s)
    → has_prefix (c ∷ s) m ≡ true
    → (is_standalone before (drop (length m) (c ∷ s)) ≡ true)
      ⊎ (mentions_from m (length m - 1) (some c) s ≡ true)
    → Stands m before (c ∷ s)
at_mention m before c s rec p (inl alone) = here p alone
at_mention m before c s rec p (inr h) = there (rec h)

or-cases : (a b : Bool) → (a || b) ≡ true → (a ≡ true) ⊎ (b ≡ true)
or-cases true b h = inl refl
or-cases false b h = inr h

mentions_from_sound :
    (m : Bytes) (skip : ℕ) (before : Option ℕ) (s : Bytes)
    → mentions_from m skip before s ≡ true
    → Stands m before s
unfolding mentions_from
mentions_from_sound m skip before [] h = ground arith
mentions_from_sound m (suc k) before (c ∷ s) h = there (mentions_from_sound m k (some c) s h)
mentions_from_sound m zero before (c ∷ s) h = elim (Bool-cases (has_prefix (c ∷ s) m)) [
  | inl p ↦
      at_mention m before c s (mentions_from_sound m (length m - 1) (some c) s) p
        (or-cases _ _ (rw p at h))
  | inr p ↦ there (mentions_from_sound m 0 (some c) s (rw p at h))
]

-- The bytes still to be jumped over belong to a mention, and so does the one before each.
Inside : ℕ → Option ℕ → Bytes → Type 0
Inside zero before s = Unit
Inside (suc k) before [] = Unit
Inside (suc k) before (c ∷ s) = (bounds before ≡ false) × Inside k (some c) s

prefix-Inside :
    (m s : Bytes) (d : ℕ)
    → has_prefix s m ≡ true
    → solid (d ∷ m) ≡ true
    → Inside (length m) (some d) s
unfolding Inside
prefix-Inside [] s d p h = tt
prefix-Inside (x ∷ m) [] d p h = tt
prefix-Inside (x ∷ m) (c ∷ s) d p h = (ground arith, ground (arith, prefix-Inside m s c))

jump-Inside :
    (m : Bytes) (c : ℕ) (s : Bytes)
    → m ≢ []
    → has_prefix (c ∷ s) m ≡ true
    → solid m ≡ true
    → Inside (length m - 1) (some c) s
jump-Inside [] c s some_m p h = elim (some_m refl) [ ]
jump-Inside (x ∷ m) c s some_m p h =
    simp unary_clauses (prefix-Inside m s c (ground arith) (ground arith))

or-right : (a b : Bool) → b ≡ true → (a || b) ≡ true
or-right true b h = refl
or-right false b h = h

mentions_from_complete :
    (m : Bytes) (skip : ℕ) (before : Option ℕ) (s : Bytes)
    → m ≢ []
    → solid m ≡ true
    → Inside skip before s
    → Stands m before s
    → mentions_from m skip before s ≡ true
unfolding mentions_from Inside is_standalone
mentions_from_complete m zero before [] some_m h inside x = elim x [ ]
mentions_from_complete m (suc k) before [] some_m h inside x = elim x [ ]
mentions_from_complete m (suc k) before (c ∷ s) some_m h (b, inside) (here p alone) = ground arith
mentions_from_complete m (suc k) before (c ∷ s) some_m h (b, inside) (there st) =
    mentions_from_complete m k (some c) s some_m h inside st
mentions_from_complete m zero before (c ∷ s) some_m h inside (here p alone) = rw p (rw alone refl)
mentions_from_complete m zero before (c ∷ s) some_m h inside (there st) =
    elim (Bool-cases (has_prefix (c ∷ s) m)) [
      | inl p ↦ rw p (
          or-right _ _ (
            mentions_from_complete m (length m - 1) (some c) s some_m h
              (jump-Inside m c s some_m p h) st))
      | inr p ↦ rw p (mentions_from_complete m 0 (some c) s some_m h tt st)
    ]

-- For a mention that is not empty and has no boundary byte once lowered, such as "/kibitz": `Mentions` says
-- yes exactly when it stands somewhere in the lowered body without its code, with a boundary or an end of
-- the text on both sides.
pub mentions_exact :
    (body mention : Bytes)
    → to_lower mention ≢ []
    → solid (to_lower mention) ≡ true
    → (mentions body mention ≡ true) ↔ Stands (to_lower mention) none (to_lower (strip_code body))
unfolding mentions Inside
mentions_exact body [] h _ = elim (h refl) [ ]
mentions_exact body (c ∷ mention) h whole = (
  mentions_from_sound (to_lower (c ∷ mention)) 0 none (to_lower (strip_code body)),
  mentions_from_complete (to_lower (c ∷ mention)) 0 none (to_lower (strip_code body)) h whole tt,
)
