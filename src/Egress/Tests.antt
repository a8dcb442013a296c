-- ===== src/Egress/Tests.antt =====
-- Rules and decisions run on concrete hosts.
use kibitz.Prelude.{◌≡◌, refl, [], ◌∷◌, true, Bytes, codes, ok, err}
use kibitz.Egress.{Rule, Policy, decide, decide_connect, decide_tunnel, match_host, normalize_host}
use kibitz.Egress.Consistency.{decide_tunnel_safe, decide_connect_covers}
use kibitz.Egress.Parse.{parse_rule, parse_rules, new_policy, bad_wildcard}

abbrev api_rule : Rule
api_rule = record {
  raw = codes "API.example.com:8443/v1/*";
  host = codes "api.example.com";
  port = codes "8443";
  path = codes "/v1/*";
}

abbrev api_text : Bytes
api_text = codes " API.example.com:8443/v1/* "

api-parsed : parse_rule api_text ≡ ok api_rule
unfolding parse_rule normalize_host
api-parsed = refl

alone-parsed :
    parse_rule (codes "[::1]")
    ≡ ok (record { raw = codes "[::1]"; host = codes "::1"; port = []; path = [] })
unfolding parse_rule normalize_host
alone-parsed = refl

bracketed-parsed :
    parse_rule (codes "[::1]:80")
    ≡ ok (record { raw = codes "[::1]:80"; host = codes "::1"; port = codes "80"; path = [] })
unfolding parse_rule normalize_host
bracketed-parsed = refl

middle_star-refused : parse_rule (codes "a.*.com") ≡ err bad_wildcard
unfolding parse_rule normalize_host
middle_star-refused = refl

abbrev policy : Policy
policy = record {
  allow =
      record { raw = codes "*.example.com"; host = codes "*.example.com"; port = []; path = [] }
      ∷ [];
  deny = api_rule ∷ [];
}

policy-built : new_policy (codes "*.example.com" ∷ []) (api_text ∷ []) ≡ ok policy
unfolding new_policy parse_rules parse_rule normalize_host
policy-built = refl

-- The port is another one, so that the rule to deny does not apply.
decide_tunnel_safe_example :
    (decide policy (codes "Git.example.com.") (codes "443") (codes "/v1/x")).allowed ≡ true
unfolding decide_tunnel match_host normalize_host
decide_tunnel_safe_example =
    decide_tunnel_safe policy (codes "Git.example.com.") (codes "443") (codes "/v1/x") refl

decide_connect_covers_example :
    (decide_connect policy (codes "api.example.com") (codes "8443")).allowed ≡ true
unfolding decide match_host normalize_host kibitz.Policy.Glob.match
decide_connect_covers_example =
    decide_connect_covers policy (codes "api.example.com") (codes "8443") (codes "/v2") refl
