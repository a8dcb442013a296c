-- ===== src/Egress/Consistency.antt =====
-- The three decisions against each other, and against the two lists.
use kibitz.Prelude.{
  ◌≡◌, Bool, true, not, ◌&&◌, ◌||◌, List, [], ◌∷◌, any, is_empty, if◌then◌else◌, Bytes, arith, refl,
}
use kibitz.Egress.{
  Rule, Policy, Decision, matches_request, restricted, normalize_host, decide_by, decide,
  decide_connect, decide_tunnel, allow_loop, deny_loop,
}

-- The tests of one decision are at least as strict as those of another.
deny_loop-allowed :
    (t : Rule → Bool) (rs : List Rule) (d : Decision)
    → (deny_loop t rs d).allowed ≡ (not (any t rs) && d.allowed)
deny_loop-allowed t [] d = ground arith
deny_loop-allowed t (r ∷ rs) d = ground (arith, deny_loop-allowed t rs d)

allow_loop-allowed : (t : Rule → Bool) (rs : List Rule) → (allow_loop t rs).allowed ≡ any t rs
allow_loop-allowed t [] = refl
allow_loop-allowed t (r ∷ rs) = ground (arith, allow_loop-allowed t rs)

decide_by-allowed :
    (denies allows : Rule → Bool) (p : Policy)
    → (decide_by denies allows p).allowed
      ≡ (not (any denies p.deny) && (not (restricted p) || any allows p.allow))
decide_by-allowed denies allows p = ground (
  arith,
  deny_loop-allowed denies p.deny (
      if not (restricted p)
      then record { allowed = true; rule = [] }
      else allow_loop allows p.allow),
  allow_loop-allowed allows p.allow,
)

any_mono :
    (t u : Rule → Bool) (rs : List Rule)
    → ((r : Rule) → t r ≡ true → u r ≡ true)
    → any t rs ≡ true
    → any u rs ≡ true
any_mono t u [] h e = e
any_mono t u (r ∷ rs) h e = ground (arith, h r, any_mono t u rs h)

decide_by_mono :
    (d1 a1 d2 a2 : Rule → Bool) (p : Policy)
    → ((r : Rule) → d2 r ≡ true → d1 r ≡ true)
    → ((r : Rule) → a1 r ≡ true → a2 r ≡ true)
    → (decide_by d1 a1 p).allowed ≡ true
    → (decide_by d2 a2 p).allowed ≡ true
decide_by_mono d1 a1 d2 a2 p denies allows h = ground (
  arith,
  decide_by-allowed d1 a1 p,
  decide_by-allowed d2 a2 p,
  any_mono d2 d1 p.deny denies,
  any_mono a1 a2 p.allow allows,
)

-- A connection that will be inspected is turned away only if no path on it could be allowed.
pub decide_connect_covers :
    (p : Policy) (host port path : Bytes)
    → (decide p host port path).allowed ≡ true
    → (decide_connect p host port).allowed ≡ true
unfolding decide decide_connect
decide_connect_covers p host port path =
    decide_by_mono _ _ _ _ p (λ r h. ground arith) (λ r h. ground arith)

-- A connection that will not be inspected is let through only if every path on it is allowed.
pub decide_tunnel_safe :
    (p : Policy) (host port path : Bytes)
    → (decide_tunnel p host port).allowed ≡ true
    → (decide p host port path).allowed ≡ true
unfolding decide decide_tunnel
decide_tunnel_safe p host port path =
    decide_by_mono _ _ _ _ p (λ r h. ground arith) (λ r h. ground arith)

-- Deny comes before allow, and no allow list allows: a request is allowed exactly when no deny rule matches
-- it and there is no allow list or some rule of it matches.
pub decide-allowed :
    (p : Policy) (host port path : Bytes)
    → (decide p host port path).allowed ≡ (
        not (any (λ r. matches_request r (normalize_host host) port path) p.deny)
        && (is_empty p.allow
            || any (λ r. matches_request r (normalize_host host) port path) p.allow))
unfolding decide
decide-allowed p host port path = grind (arith, decide_by-allowed)
