-- ===== src/Egress/Parse.antt =====
-- `ParseRule`, `ParseRules` and `NewPolicy` of internal/egress/rules.go, with net.SplitHostPort.
pub mod Shape
use kibitz.Prelude.{
  ℕ, suc, ◌+◌, ◌-◌, ◌==◌, Bool, true, false, not, ◌&&◌, ◌||◌, Option, none, some, is_some, List, [],
  ◌∷◌, ◌++◌, is_empty, if◌then◌else◌, Bytes, codes, str_eq, has_prefix, has_suffix, contains,
  index_byte, last_index_byte, count_byte, trim, trim_space, trim_prefix, in_set, take, drop,
  length, Result, ok, err, ◌≡◌, refl,
}
use kibitz.Egress.{Rule, Policy, normalize_host}

pub data RuleError : Type 0 where
  empty_rule has_scheme bad_host_port empty_host bad_wildcard bad_port : RuleError

abbrev index_or : Option ℕ → ℕ → ℕ
index_or none d = d
index_or (some i) d = i

-- The pieces of net.SplitHostPort after its checks: what is left of the last colon must hold no second
-- colon (or be in brackets that end there), and no other bracket may stand in either part.
abbrev split_bracketed : Bytes → ℕ → Option ℕ → Option (Bytes × Bytes)
split_bracketed s i none = none
split_bracketed s i (some end) =
    if not (suc end == i)
    then none
    else if is_some (index_byte (drop 1 s) b'[') || is_some (index_byte (drop (suc end) s) b']')
    then none
    else some (take (end - 1) (drop 1 s), drop (suc i) s)

abbrev split_plain : Bytes → ℕ → Option (Bytes × Bytes)
split_plain s i =
    if is_some (index_byte (take i s) b':')
    then none
    else if is_some (index_byte s b'[') || is_some (index_byte s b']')
    then none
    else some (take i s, drop (suc i) s)

abbrev split_at : Bytes → Option ℕ → Option (Bytes × Bytes)
split_at s none = none
split_at s (some i) =
    if has_prefix s (codes "[") then split_bracketed s i (index_byte s b']') else split_plain s i

-- net.SplitHostPort; `none` is its error
unfoldable pub split_host_port : Bytes → Option (Bytes × Bytes)
split_host_port s = split_at s (last_index_byte s b':')

-- "[::1]" without a port is a host on its own.
abbrev host_alone : Bytes → Result RuleError (Bytes × Bytes)
host_alone s =
    if not (has_suffix s (codes "]"))
    then err bad_host_port
    else ok (trim (in_set (codes "[]")) s, [])

abbrev or_alone : Bytes → Option (Bytes × Bytes) → Result RuleError (Bytes × Bytes)
or_alone s (some hp) = ok hp
or_alone s none = host_alone s

unfoldable pub host_and_port : Bytes → Result RuleError (Bytes × Bytes)
unfolding split_host_port
host_and_port s =
    if has_prefix s (codes "[") || count_byte s b':' == 1
    then or_alone s (split_host_port s)
    else ok (s, [])

abbrev check_port : Bytes → Bytes → Bytes → Bytes → Result RuleError Rule
check_port raw host port path =
    if not (is_empty port) && not (is_empty (trim (in_set (codes "0123456789")) port))
    then err bad_port
    else ok (record { raw = raw; host = host; port = port; path = path })

abbrev check_host : Bytes → Bytes → Bytes → Bytes → Result RuleError Rule
check_host raw host port path =
    if is_empty host
    then err empty_host
    else if contains (trim_prefix host (codes "*.")) (codes "*")
    then err bad_wildcard
    else check_port raw host port path

abbrev with_parts : Bytes → Bytes → Result RuleError (Bytes × Bytes) → Result RuleError Rule
with_parts raw path (err e) = err e
with_parts raw path (ok (host, port)) = check_host raw (normalize_host host) port path

abbrev parse_trimmed : Bytes → Result RuleError Rule
parse_trimmed raw =
    if is_empty raw
    then err empty_rule
    else if contains raw (codes "://")
    then err has_scheme
    else let cut = index_or (index_byte raw b'/') (length raw) in
      with_parts raw (drop cut raw) (host_and_port (take cut raw))

unfoldable pub parse_rule : Bytes → Result RuleError Rule
unfolding host_and_port
parse_rule s = parse_trimmed (trim_space s)

-- The rules that parse, and the errors of the others.
abbrev sort_out : Result RuleError Rule → List Rule × List RuleError → List Rule × List RuleError
sort_out (ok r) (rules, errors) = (r ∷ rules, errors)
sort_out (err e) (rules, errors) = (rules, e ∷ errors)

unfoldable pub parse_rules : List Bytes → List Rule × List RuleError
parse_rules [] = ([], [])
parse_rules (s ∷ ss) = sort_out (parse_rule s) (parse_rules ss)

abbrev policy_of :
    List Rule × List RuleError → List Rule × List RuleError → Result (List RuleError) Policy
policy_of (allow, []) (deny, []) = ok (record { allow = allow; deny = deny })
policy_of (allow, e ∷ es) (deny, fs) = err ((e ∷ es) ++ fs)
policy_of (allow, []) (deny, f ∷ fs) = err (f ∷ fs)

unfoldable pub new_policy : List Bytes → List Bytes → Result (List RuleError) Policy
unfolding parse_rules
new_policy allow deny = policy_of (parse_rules allow) (parse_rules deny)
