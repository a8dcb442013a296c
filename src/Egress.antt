-- ===== src/Egress.antt =====
-- internal/egress/rules.go: which destinations the agent may reach.
pub mod Parse
pub mod Consistency
pub mod Hosts
mod Tests
use kibitz.Prelude.{
  ℕ, Bool, true, false, not, ◌&&◌, ◌||◌, List, [], ◌∷◌, ◌++◌, any, is_empty, if◌then◌else◌, Bytes,
  codes, str_eq, has_prefix, has_suffix, to_lower, trim, trim_space, trim_suffix, in_set, drop,
}
use kibitz.Policy.Glob.{match}

-- An empty port or path stands for any.
pub record Rule : Type 0 where
  pub raw : Bytes
  pub host : Bytes
  pub port : Bytes
  pub path : Bytes

unfoldable pub has_path : Rule → Bool
has_path r = not (is_empty r.path)

unfoldable pub match_host : Bytes → Bytes → Bool
match_host pattern host =
    if str_eq pattern (codes "*")
    then true
    else if has_prefix pattern (codes "*.")
    then has_suffix host (drop 1 pattern)
    else str_eq pattern host

unfoldable pub matches_host : Rule → Bytes → Bytes → Bool
matches_host r host port =
    if not (is_empty r.port) && not (str_eq r.port port) then false else match_host r.host host

unfoldable pub matches_request : Rule → Bytes → Bytes → Bytes → Bool
matches_request r host port path =
    if not (matches_host r host port) then false else is_empty r.path || match r.path path

unfoldable pub normalize_host : Bytes → Bytes
normalize_host host =
    trim_suffix (trim (in_set (codes "[]")) (to_lower (trim_space host))) (codes ".")

pub record Policy : Type 0 where
  pub allow : List Rule
  pub deny : List Rule

unfoldable pub restricted : Policy → Bool
restricted p = not (is_empty p.allow)

unfoldable pub has_path_rules : Policy → Bool
unfolding has_path
has_path_rules p = any has_path (p.allow ++ p.deny)

-- `rule` is empty where no rule decided.
pub record Decision : Type 0 where
  pub allowed : Bool
  pub rule : Bytes

unfoldable pub reason : Decision → Bytes
reason d =
    if d.allowed && is_empty d.rule
    then codes "no allow list is configured"
    else if d.allowed
    then codes "allowed by " ++ d.rule
    else if not (is_empty d.rule)
    then codes "denied by " ++ d.rule
    else codes "not in the allow list"

-- The loops of the three decisions, over the test that each of them makes.
abbrev allow_loop : (Rule → Bool) → List Rule → Decision
allow_loop t [] = record { allowed = false; rule = [] }
allow_loop t (r ∷ rs) = if t r then record { allowed = true; rule = r.raw } else allow_loop t rs

abbrev deny_loop : (Rule → Bool) → List Rule → Decision → Decision
deny_loop t [] otherwise = otherwise
deny_loop t (r ∷ rs) otherwise =
    if t r then record { allowed = false; rule = r.raw } else deny_loop t rs otherwise

abbrev pub decide_by : (Rule → Bool) → (Rule → Bool) → Policy → Decision
decide_by denies allows p =
    deny_loop denies p.deny (
      if not (restricted p)
      then record { allowed = true; rule = [] }
      else allow_loop allows p.allow)

unfoldable pub decide : Policy → Bytes → Bytes → Bytes → Decision
unfolding restricted matches_request matches_host
decide p host port path =
    let h = normalize_host host in
    decide_by (λ r. matches_request r h port path) (λ r. matches_request r h port path) p

unfoldable pub decide_connect : Policy → Bytes → Bytes → Decision
unfolding restricted has_path matches_host
decide_connect p host port =
    let h = normalize_host host in
    decide_by (λ r. not (has_path r) && matches_host r h port) (λ r. matches_host r h port) p

unfoldable pub decide_tunnel : Policy → Bytes → Bytes → Decision
unfolding restricted has_path matches_host
decide_tunnel p host port =
    let h = normalize_host host in
    decide_by (λ r. matches_host r h port) (λ r. not (has_path r) && matches_host r h port) p

-- `parseHostList` and `contains`
unfoldable pub parse_host_list : List Bytes → List Bytes
parse_host_list [] = []
parse_host_list (h ∷ hs) =
    let rest = parse_host_list hs in
    if is_empty (normalize_host h) then rest else normalize_host h ∷ rest

unfoldable pub host_list_contains : List Bytes → Bytes → Bool
host_list_contains l host = any (λ pattern. match_host pattern (normalize_host host)) l
