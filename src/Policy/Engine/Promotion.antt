-- ===== src/Policy/Engine/Promotion.antt =====
-- An event that `Evaluate` changed, against `Validate`.
use kibitz.Prelude.{
  ℕ, ◌≡◌, ◌≢◌, inl, inr, refl, true, Option, none, some, List, [], ◌∷◌, arith, Bytes, ok,
}
use kibitz.Event
use kibitz.Event.{
  ReviewEvent, Comment, Command, Kind, validate, known, about_issue, needs_comment, needs_command,
}
use kibitz.Event.Validity.{IsValid, validate_iff}
use kibitz.Policy.Command.{parse_command, command_of, known_command}
use kibitz.Policy.Engine
use kibitz.Policy.Engine.Decisions.{Asked, evaluate-Explained}

command_of-known :
    (mention : Bytes) (fs : List Bytes) (cmd : Command)
    → command_of mention fs ≡ some cmd
    → known_command cmd.name ≡ true
unfolding command_of
command_of-known mention [] cmd h = ground arith
command_of-known mention (f ∷ []) cmd h = ground arith
command_of-known mention (f ∷ word ∷ args) cmd h = ground arith

parse_command-known :
    (body mention : Bytes) (cmd : Command)
    → parse_command body mention ≡ some cmd
    → known_command cmd.name ≡ true
unfolding parse_command
parse_command-known body mention cmd h = grind (arith, command_of-known)

known_command-named : (name : Bytes) → known_command name ≡ true → name ≢ []
unfolding known_command
known_command-named [] h e = ground arith
known_command-named (c ∷ name) h e = ground arith

module _ (ev : ReviewEvent) (cmd : Command) where
  command-IsValid :
      IsValid ev
      → ev.kind ≡ Event.comment_created
      → known_command cmd.name ≡ true
      → IsValid (record ev { instruction = some cmd; kind = Event.command })
  unfolding known about_issue needs_comment needs_command
  command-IsValid v k n = record {
    schema = v.schema;
    id = v.id;
    platform = v.platform;
    delivery = v.delivery;
    kind = refl;
    repository = v.repository;
    time = v.time;
    subject = (rw k at v.subject);
    comment = λ _. v.comment (rw k refl);
    command = λ _. known_command-named cmd.name n;
  }

  issue_command-IsValid :
      IsValid ev
      → ev.kind ≡ Event.issue_comment
      → known_command cmd.name ≡ true
      → IsValid (record ev { instruction = some cmd; kind = Event.issue_command })
  unfolding known about_issue needs_comment needs_command
  issue_command-IsValid v k n = record {
    schema = v.schema;
    id = v.id;
    platform = v.platform;
    delivery = v.delivery;
    kind = refl;
    repository = v.repository;
    time = v.time;
    subject = (rw k at v.subject);
    comment = λ _. v.comment (rw k refl);
    command = λ _. known_command-named cmd.name n;
  }

promote-IsValid :
    (ev : ReviewEvent) (o : Option Command)
    → IsValid ev
    → ev.kind ≡ Event.comment_created
    → ((cmd : Command) → o ≡ some cmd → known_command cmd.name ≡ true)
    → IsValid (Engine.promote ev o)
promote-IsValid ev none v k n = v
promote-IsValid ev (some cmd) v k n = command-IsValid ev cmd v k (n cmd refl)

Asked-IsValid :
    (e : Engine.Engine) (ev out : ReviewEvent) (now : ℕ) (k : Kind)
    → ev.kind ≡ k
    → IsValid ev
    → Asked e ev now k out
    → IsValid out
Asked-IsValid e ev out now Event.issue_comment k v (c, cmd, asks, p, i, eq) =
    rw eq (issue_command-IsValid ev cmd v k (parse_command-known c.body e.mention cmd p))
Asked-IsValid e ev out now Event.comment_created k v (c, asks, eq) =
    rw eq (
      promote-IsValid ev (parse_command c.body e.mention) v k
        (parse_command-known c.body e.mention))
Asked-IsValid e ev out now Event.command k v eq = rw eq v
Asked-IsValid e ev out now _ k v asked = rw (asked.1) v

-- An event that `Validate` accepts is still one after `Evaluate`, which may have attached a command to it
-- and promoted its kind.
pub evaluate-keeps_valid :
    (e : Engine.Engine) (ev : ReviewEvent) (now : ℕ)
    → validate (some ev) ≡ ok tt
    → validate (some (Engine.evaluate e ev now).1) ≡ ok tt
evaluate-keeps_valid e ev now h = elim (evaluate-Explained e ev now) [
  | inl (p, a, ad, asked) ↦ (validate_iff (Engine.evaluate e ev now).1).1 (
      Asked-IsValid e ev (Engine.evaluate e ev now).1 now ev.kind refl ((validate_iff ev).0 h)
        asked)
  | inr (p, a, same) ↦ rw same h
]
