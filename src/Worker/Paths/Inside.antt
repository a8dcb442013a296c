-- ===== src/Worker/Paths/Inside.antt =====
-- What may be written to stays inside the repository and off the denied paths.
use kibitz.Prelude.{
  leb, str_eq→eq, false≢true, ◌==◌, ◌≡◌, refl, sym, ap, ◌∙◌, subst, arith, inl, inr, Bool, true,
  false, not, ◌&&◌, ◌||◌, Option, none, some, List, [], ◌∷◌, any, Bytes, codes, Result, ok, err,
  is_empty, split, to_lower, has_prefix, trim_prefix, trim_suffix, trim_space, Each, Bool-cases,
  Option-cases, if◌then◌else◌, str_eq,
}
use kibitz.Prelude.Clean.{clean, escapes, IsName, clean-names}
use kibitz.RepoConfig.PathFilter.{
  Filter, PatternFault, new_path_filter, add_pattern, covers, translate, tokens_match,
  valid_pattern,
}
use kibitz.RepoConfig.PathFilter.Literal.{IsBelow, NoWildcard, AllAscii, tokens_match-IsBelow}
use kibitz.Worker.Paths.{denied_paths, lower_all, denied, clean_repo_path, is_editable}

clean_repo_path-names :
    (path c : Bytes) → clean_repo_path path ≡ some c → Each IsName (split b'/' c)
unfolding clean_repo_path
clean_repo_path-names path c h =
    let d = trim_prefix (clean (trim_space path)) (codes "/") in
    elim (Bool-cases (escapes d)) [
      | inl out ↦ absurd (ground (arith, out, h))
      | inr inside ↦
          let same : d ≡ c = ground (arith, inside, h) in
          subst (λ x. Each IsName (split b'/' x)) same (clean-names (trim_space path) inside)
    ]

dot_slash_names : (s : Bytes) → Each IsName (split b'/' (b'.' ∷ b'/' ∷ s)) → true ≡ false
dot_slash_names s (n, h) = n.1

-- A path of names does not begin with "./", in whatever case it is written.
no_dot_slash :
    (c : Bytes) → Each IsName (split b'/' c) → has_prefix (to_lower c) (codes "./") ≡ false
no_dot_slash [] h = refl
no_dot_slash (x ∷ []) h = ground arith
no_dot_slash (x ∷ y ∷ s) h = elim (Bool-cases (x == b'.' && y == b'/')) [
  | inl dot ↦
      let same : x ∷ y ∷ s ≡ b'.' ∷ b'/' ∷ s = ground (arith, dot) in
      absurd (false≢true (sym (dot_slash_names s (subst (λ l. Each IsName (split b'/' l)) same h))))
  | inr no_ ↦ ground (arith, no_)
]

-- What no branch of a filter matches, none of its patterns does.
abbrev Misses : Bytes → Bytes → Type 0
Misses path p =
    is_empty (trim_space p) ≡ false
    → tokens_match (translate (trim_suffix (trim_space p) (codes "/"))) path ≡ false

add_pattern-ok :
    (p : Bytes) (fault : Option PatternFault) (r : Result PatternFault Filter) (f : Filter)
    → add_pattern p fault r ≡ ok f
    → (g : Filter) × (r ≡ ok g) × (f.branches ≡ translate (trim_suffix p (codes "/")) ∷ g.branches)
add_pattern-ok p (some fault) r f h = absurd (ground (arith, h))
add_pattern-ok p none (err fault) f h = absurd (ground (arith, h))
add_pattern-ok p none (ok g) f h = (g, refl, ground (arith, h))

new_path_filter-Misses :
    (path : Bytes) (ps : List Bytes) (f : Filter)
    → new_path_filter ps ≡ ok f
    → any (λ ts. tokens_match ts path) f.branches ≡ false
    → Each (Misses path) ps
unfolding new_path_filter
new_path_filter-Misses path [] f h miss = tt
new_path_filter-Misses path (p ∷ ps) f h miss = elim (Bool-cases (is_empty (trim_space p))) [
  | inl blank ↦ (
    (λ e. absurd (ground (arith, blank, e))),
    new_path_filter-Misses path ps f (ground (arith, blank, h)) miss,
  )
  | inr word ↦
      let (g, built, shape) =
        add_pattern-ok (trim_space p) (valid_pattern (trim_space p)) (new_path_filter ps) f
          (ground (arith, word, h)) in
      let first = translate (trim_suffix (trim_space p) (codes "/")) in
      let both : (tokens_match first path || any (λ ts. tokens_match ts path) g.branches) ≡ false =
        subst (λ bs. any (λ ts. tokens_match ts path) bs ≡ false) shape miss in
      ((λ e. ground (arith, both)), new_path_filter-Misses path ps g built (ground (arith, both)))
]

-- A pattern that is read as it is written, without a wildcard: the name of a file or a directory.
abbrev pub plain_bytes : Bytes → Bool
plain_bytes [] = true
plain_bytes (c ∷ s) = not (c == b'*') && not (c == b'?') && not (leb 128 c) && plain_bytes s

abbrev pub is_name_of : Bytes → Bool
is_name_of p =
    plain_bytes p
    && not (is_empty p)
    && str_eq (trim_space p) p
    && str_eq (trim_suffix p (codes "/")) p

abbrev pub names_in : List Bytes → List Bytes
names_in [] = []
names_in (p ∷ ps) = if is_name_of p then p ∷ names_in ps else names_in ps

plain_bytes-NoWildcard : (p : Bytes) → plain_bytes p ≡ true → NoWildcard p × AllAscii p
plain_bytes-NoWildcard [] h = (tt, tt)
plain_bytes-NoWildcard (c ∷ s) h =
    let (n, a) = plain_bytes-NoWildcard s (ground (arith, h)) in
    ((ground (arith, h), ground (arith, h), n), (ground (arith, h), a))

kept : (path : Bytes) → has_prefix path (codes "./") ≡ false → trim_prefix path (codes "./") ≡ path
kept path h = rw h refl

covers-branches :
    (f : Filter) (path : Bytes)
    → has_prefix path (codes "./") ≡ false
    → covers f path ≡ false
    → any (λ ts. tokens_match ts path) f.branches ≡ false
unfolding covers
covers-branches f path plain h =
    subst (λ q. any (λ ts. tokens_match ts q) f.branches ≡ false) (kept path plain) h

name_missed : (path p : Bytes) → is_name_of p ≡ true → Misses path p → ¬ IsBelow p path
name_missed path p h miss below =
    let (n, a) = plain_bytes-NoWildcard p (ground (arith, h)) in
    let trimmed : trim_space p ≡ p = str_eq→eq (trim_space p) p (ground (arith, h)) in
    let whole : trim_suffix p (codes "/") ≡ p =
      str_eq→eq (trim_suffix p (codes "/")) p (ground (arith, h)) in
    let read : trim_suffix (trim_space p) (codes "/") ≡ p =
      ap (λ t. trim_suffix t (codes "/")) trimmed ∙ whole in
    let word : is_empty (trim_space p) ≡ false = ap is_empty trimmed ∙ ground (arith, h) in
    false≢true (
      sym (subst (λ t. tokens_match (translate t) path ≡ false) read (miss word))
      ∙ (tokens_match-IsBelow p path n a).1 below)

names_missed :
    (path : Bytes) (ps : List Bytes)
    → Each (Misses path) ps
    → Each (λ p. ¬ IsBelow p path) (names_in ps)
names_missed path [] h = tt
names_missed path (p ∷ ps) (m, h) = elim (Bool-cases (is_name_of p)) [
  | inl named ↦ rw named (name_missed path p named m, names_missed path ps h)
  | inr other ↦ rw other (names_missed path ps h)
]

denied_lem : new_path_filter (lower_all denied_paths) ≡ ok denied
unfolding denied new_path_filter valid_pattern
denied_lem = refl

-- The names on the list of what is never written to, such as "go.mod" and ".kibitz.yaml".
abbrev pub denied_names : List Bytes
denied_names = names_in (lower_all denied_paths)

abbrev pub IsAllowed : Filter → Bytes → Type 0
IsAllowed allow path =
    (c : Bytes) × (clean_repo_path path ≡ some c)
    × Each IsName (split b'/' c)
    × (covers allow c ≡ true)
    × (covers denied (to_lower c) ≡ false)
    × Each (λ p. ¬ IsBelow p (to_lower c)) denied_names

-- Where a path may be written to, the cleaned path is made of names, none of them "." or "..", so that it stays
-- inside the repository; the repository's own patterns cover it; the patterns of what is never written to do not
-- cover it, whatever its letter case; and it is none of the files named on that list, nor below one.
pub is_editable-IsAllowed :
    (allow : Filter) (path : Bytes) → is_editable allow path ≡ true → IsAllowed allow path
unfolding is_editable
is_editable-IsAllowed allow path h = elim (Option-cases (clean_repo_path path)) [
  | inl out ↦ absurd (ground (arith, out, h))
  | inr (c, e) ↦
      let names = clean_repo_path-names path c e in
      let off : covers denied (to_lower c) ≡ false = ground (arith, e, h) in
      (
        c,
        e,
        names,
        ground (arith, e, h),
        off,
        names_missed (to_lower c) (lower_all denied_paths) (
            new_path_filter-Misses (to_lower c) (lower_all denied_paths) denied denied_lem
              (covers-branches denied (to_lower c) (no_dot_slash c names) off)),
      )
]
