-- ===== src/Policy/Tests.antt =====
-- Patterns, comments and events run through the rules.
use kibitz.Prelude.{
  ℕ, ◌≤◌, ◌<◌, ◌≡◌, ◌≢◌, ◌↔◌, refl, arith, Option, none, some, is_some, List, [], ◌∷◌, Bool, true,
  false, Bytes, codes, ◌++◌, length, split, to_lower, Result, ok, err,
}
use kibitz.Prelude.Int.{ℤ, pos, negsuc}
use kibitz.Event
use kibitz.Event.{ReviewEvent, Command, validate, known}
use kibitz.Event.Samples.{plan_asked}
use kibitz.Policy.Glob.{match, loop, fuel}
use kibitz.Policy.Glob.Matching.{matches}
use kibitz.Policy.Glob.Decides.{match_exact, star_misses}
use kibitz.Policy.Markdown.{newline, strip_code}
use kibitz.Policy.Command.{mentions, parse_command, is_boundary}
use kibitz.Policy.Command.Mentioned.{Stands, mentions_exact}
use kibitz.Policy.Engine
use kibitz.Policy.Engine.Decisions.{Explained, evaluate-Explained}
use kibitz.Policy.Engine.Promotion.{evaluate-keeps_valid}

star_meets_middle :
    (match (codes "a*c?") (codes "abbcd") ≡ true) × (match (codes "a*c") (codes "abcb") ≡ false)
unfolding match
star_meets_middle = (refl, refl)

match_exact_example : match (codes "o/*") (codes "o/r") ≡ matches (codes "o/*") (codes "o/r")
match_exact_example = match_exact (codes "o/*") (codes "o/r") refl

star_misses_example :
    (match (codes "*") (codes "*x") ≡ false) × (matches (codes "*") (codes "*x") ≡ true)
star_misses_example = star_misses b'x' []

abbrev handle : Bytes
handle = codes "/kibitz"

-- Code is not speech, a longer word is another one, and a command has to open the comment.
commands :
    (mentions (codes "use `/kibitz review` here") handle ≡ false)
    × (mentions (codes "hey /Kibitz, why?") handle ≡ true)
    × (mentions (codes "/kibitz-staging review") handle ≡ false)
    × (parse_command (codes "/kibitz Review fast") handle
        ≡ some (record { name = codes "review"; args = codes "fast" ∷ [] }))
    × (parse_command (codes "please /kibitz review") handle ≡ none)
unfolding mentions strip_code kibitz.Policy.Markdown.strip_spans parse_command
commands = (refl, refl, refl, refl, refl)

abbrev fenced : Bytes
fenced =
    codes "see"
    ++ newline ∷ codes "```"
    ++ newline ∷ codes "/kibitz review"
    ++ newline ∷ codes "```"
    ++ newline ∷ codes "``a`b`` done"

fenced-stripped :
    strip_code fenced ≡ codes "see" ++ newline ∷ newline ∷ newline ∷ newline ∷ codes "  done"
unfolding strip_code kibitz.Policy.Markdown.strip_spans
fenced-stripped = refl

mentions_exact_example :
    (mentions (codes "hey /kibitz!") handle ≡ true)
    ↔ Stands (to_lower handle) none (to_lower (strip_code (codes "hey /kibitz!")))
unfolding is_boundary
mentions_exact_example = mentions_exact (codes "hey /kibitz!") handle (λ h. ground arith) refl

abbrev config : Engine.Config
config = record {
  bot_logins = codes "Kibitz[bot]" ∷ [];
  allowed_repos = codes "o/*" ∷ [];
  app_id = [];
  mention = handle;
  keywords = [];
  max_event_age = pos 100;
  allowed_commenters = codes "github:alice" ∷ codes "gitlab:*" ∷ [];
}

plan_published : Engine.evaluate (Engine.new config) plan_asked 1050 ≡ (
  record { publish = true; reason = Engine.accepted },
  record plan_asked {
    kind = Event.issue_command;
    instruction = some (record { name = codes "plan"; args = codes "now" ∷ [] });
  },
)
unfolding Engine.evaluate known Engine.is_self Engine.new kibitz.Policy.Glob.match_any match
    Engine.is_stale kibitz.Prelude.Int.◌-ℤ◌ mentions strip_code kibitz.Policy.Markdown.strip_spans
    parse_command kibitz.Policy.Command.issue_command Engine.may_ask
plan_published = refl

evaluate-Explained_example :
    Explained
      (Engine.new config)
      plan_asked
      1050
      (Engine.evaluate (Engine.new config) plan_asked 1050)
evaluate-Explained_example = evaluate-Explained (Engine.new config) plan_asked 1050

evaluate-keeps_valid_example :
    validate (some (Engine.evaluate (Engine.new config) plan_asked 1050).1) ≡ ok tt
unfolding validate
evaluate-keeps_valid_example = evaluate-keeps_valid (Engine.new config) plan_asked 1050 refl
