-- ===== src/Egress/Parse/Shape.antt =====
-- What every rule that parses looks like.
use mathlib.Core.List.{reverse, reverse-reverse, reverse-cons}
use kibitz.Prelude.{
  ℕ, ◌≡◌, ◌≢◌, inl, inr, refl, sym, ap, ◌∙◌, subst, Bool, true, false, ◌&&◌, List, [], ◌∷◌, ◌++◌,
  is_empty, Bytes, codes, contains, index_byte, trim, trim_left, trim_space, trim_prefix, in_set,
  take, drop, length, Result, ok, err, arith, Bool-cases, false≢true,
}
use kibitz.Egress.{Rule, Policy}
use kibitz.Egress.Parse.{
  RuleError, index_or, host_and_port, parse_rule, parse_rules, sort_out, policy_of, new_policy,
  parse_trimmed, with_parts,
}

abbrev pub digit_set : Bytes
digit_set = codes "0123456789"

abbrev pub all_in : (ℕ → Bool) → Bytes → Bool
all_in p [] = true
all_in p (c ∷ s) = p c && all_in p s

-- Empty, or from a "/" on.
abbrev pub IsPath : Bytes → Type 0
IsPath [] = Unit
IsPath (c ∷ s) = c ≡ b'/'

pub record IsWellFormed (r : Rule) : Type 0 where
  pub raw : r.raw ≢ []
  pub no_scheme : contains r.raw (codes "://") ≡ false
  pub host : r.host ≢ []
  pub wildcard : contains (trim_prefix r.host (codes "*.")) (codes "*") ≡ false
  pub port : all_in (in_set digit_set) r.port ≡ true
  pub path : IsPath r.path

module _ (p : ℕ → Bool) where
  all_in-append : (s t : Bytes) → all_in p (s ++ t) ≡ (all_in p s && all_in p t)
  all_in-append [] t = ground arith
  all_in-append (c ∷ s) t = ground (arith, all_in-append s t)

  all_in-reverse : (s : Bytes) → all_in p (reverse s) ≡ all_in p s
  all_in-reverse [] = refl
  all_in-reverse (c ∷ s) =
      ap (all_in p) (reverse-cons c s)
      ∙ ground (arith, all_in-reverse s, all_in-append (reverse s) (c ∷ []))

  trim_left-nil : (s : Bytes) → trim_left p s ≡ [] → all_in p s ≡ true
  trim_left-nil [] h = refl
  trim_left-nil (c ∷ s) h = ground (arith, trim_left-nil s)

  -- What is left by trimming at the left begins with a byte that is kept.
  trim_left-all : (s : Bytes) → all_in p (trim_left p s) ≡ true → trim_left p s ≡ []
  trim_left-all [] h = refl
  trim_left-all (c ∷ s) h = ground (arith, trim_left-all s)

  trim-nil : (s : Bytes) → trim p s ≡ [] → all_in p s ≡ true
  trim-nil s h =
      let inner : trim_left p (reverse (trim_left p s)) ≡ [] =
        sym (reverse-reverse _) ∙ ap reverse h in
      trim_left-nil s (
        trim_left-all s
          (sym (all_in-reverse (trim_left p s)) ∙ trim_left-nil (reverse (trim_left p s)) inner))

drop-IsPath : (s : Bytes) → IsPath (drop (index_or (index_byte s b'/') (length s)) s)
drop-IsPath [] = tt
drop-IsPath (c ∷ s) = ground (arith, drop-IsPath s)

is_empty→nil : (s : Bytes) → is_empty s ≡ true → s ≡ []
is_empty→nil [] h = refl
is_empty→nil (c ∷ s) h = cc

with_parts-IsWellFormed :
    (raw path : Bytes) (hp : Result RuleError (Bytes × Bytes)) (r : Rule)
    → raw ≢ []
    → contains raw (codes "://") ≡ false
    → IsPath path
    → with_parts raw path hp ≡ ok r
    → IsWellFormed r
with_parts-IsWellFormed raw path (err e) r full plain shape h = cc
with_parts-IsWellFormed raw path (ok (host, port)) r full plain shape h =
    ground (arith, trim-nil (in_set digit_set) port, is_empty→nil (trim (in_set digit_set) port))

-- A rule that parses is not empty and names no scheme; its host is not empty and has no "*" but for
-- a leading "*."; its port is made of digits only; and
-- its path is empty or begins with "/".
pub parse_rule-IsWellFormed : (s : Bytes) (r : Rule) → parse_rule s ≡ ok r → IsWellFormed r
unfolding parse_rule
parse_rule-IsWellFormed s r = go (trim_space s)
  where
    go : (raw : Bytes) → parse_trimmed raw ≡ ok r → IsWellFormed r
    go [] h = cc
    go (c ∷ t) h = elim (Bool-cases (contains (c ∷ t) (codes "://"))) [
      | inl scheme ↦ ground (arith, scheme)
      | inr plain ↦
          with_parts-IsWellFormed (c ∷ t)
            (drop (index_or (index_byte (c ∷ t) b'/') (length (c ∷ t))) (c ∷ t))
            (host_and_port (take (index_or (index_byte (c ∷ t) b'/') (length (c ∷ t))) (c ∷ t))) r
            (ground arith) plain (drop-IsPath (c ∷ t)) (rw plain at h)
    ]

-- No rule that parses has the host "*": the text "*", with or without a port and a path, is refused,
-- although the format names it as "every host".
pub parse_rule-no_star : (s : Bytes) (r : Rule) → parse_rule s ≡ ok r → r.host ≢ codes "*"
parse_rule-no_star s r h e = false≢true (
    sym (parse_rule-IsWellFormed s r h).wildcard
    ∙ ap (λ n. contains (trim_prefix n (codes "*.")) (codes "*")) e)

abbrev pub AllWellFormed : List Rule → Type 0
AllWellFormed [] = Unit
AllWellFormed (r ∷ rs) = IsWellFormed r × AllWellFormed rs

sort_out-AllWellFormed :
    (res : Result RuleError Rule) (acc : List Rule × List RuleError)
    → ((r : Rule) → res ≡ ok r → IsWellFormed r)
    → AllWellFormed acc.0
    → AllWellFormed (sort_out res acc).0
sort_out-AllWellFormed (ok r) acc one rest = (one r refl, rest)
sort_out-AllWellFormed (err e) acc one rest = rest

parse_rules-AllWellFormed : (ss : List Bytes) → AllWellFormed (parse_rules ss).0
unfolding parse_rules
parse_rules-AllWellFormed [] = tt
parse_rules-AllWellFormed (s ∷ ss) =
    sort_out-AllWellFormed (parse_rule s) (parse_rules ss) (parse_rule-IsWellFormed s)
      (parse_rules-AllWellFormed ss)

policy_of-lists :
    (a d : List Rule × List RuleError) (p : Policy)
    → policy_of a d ≡ ok p
    → (a.0 ≡ p.allow) × (d.0 ≡ p.deny) × (a.1 ≡ []) × (d.1 ≡ [])
policy_of-lists (rs, []) (qs, []) p h = ground arith
policy_of-lists (rs, e ∷ es) (qs, fs) p h = ground arith
policy_of-lists (rs, []) (qs, f ∷ fs) p h = ground arith

-- A policy is built only if every rule of both lists parses, and all its rules are well formed.
pub new_policy-AllWellFormed :
    (allow deny : List Bytes) (p : Policy)
    → new_policy allow deny ≡ ok p
    → AllWellFormed p.allow
      × AllWellFormed p.deny
      × ((parse_rules allow).1 ≡ [])
      × ((parse_rules deny).1 ≡ [])
unfolding new_policy
new_policy-AllWellFormed allow deny p h =
    let (a, d, ea, ed) = policy_of-lists (parse_rules allow) (parse_rules deny) p h in
    (
      subst AllWellFormed a (parse_rules-AllWellFormed allow),
      subst AllWellFormed d (parse_rules-AllWellFormed deny),
      ea,
      ed,
    )
