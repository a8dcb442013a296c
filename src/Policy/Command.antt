-- ===== src/Policy/Command.antt =====
-- internal/policy/command.go: whether a comment addresses kibitz, and the command it opens with.
pub mod Mentioned
use kibitz.Prelude.{
  ℕ, zero, suc, ◌-◌, ◌==◌, leb, Bool, true, false, not, ◌&&◌, ◌||◌, Option, none, some, List, [],
  ◌∷◌, is_empty, if◌then◌else◌, Bytes, codes, str_eq, has_prefix, to_lower, equal_fold, trim_space,
  split, fields, length, drop,
}
use kibitz.Event.{Command}
use kibitz.Policy.Markdown.{newline, strip_code}

abbrev in_range : ℕ → ℕ → ℕ → Bool
in_range lo hi c = leb lo c && leb c hi

-- `isBoundary`
unfoldable pub is_boundary : ℕ → Bool
is_boundary c = not (
    in_range b'a' b'z' c
    || in_range b'A' b'Z' c
    || in_range b'0' b'9' c
    || c == b'_'
    || c == b'-'
    || c == b'/'
    || c == b'[')

-- The byte before the mention, and the text after it, when there is any.
abbrev pub bounds : Option ℕ → Bool
bounds none = true
bounds (some c) = is_boundary c

abbrev pub head? : Bytes → Option ℕ
head? [] = none
head? (c ∷ s) = some c

-- `isStandaloneMention`
unfoldable pub is_standalone : Option ℕ → Bytes → Bool
unfolding is_boundary
is_standalone before after = bounds before && bounds (head? after)

-- The loop of `Mentions` over the lowered text: the search for the mention from the current position,
-- given the byte before it and how many bytes of a mention refused are still to be jumped over.
unfoldable pub mentions_from : Bytes → ℕ → Option ℕ → Bytes → Bool
unfolding is_standalone
mentions_from m skip before [] = false
mentions_from m (suc k) before (c ∷ s) = mentions_from m k (some c) s
mentions_from m zero before (c ∷ s) =
    let step = mentions_from m 0 (some c) s in
    let jump = mentions_from m (length m - 1) (some c) s in
    if has_prefix (c ∷ s) m then is_standalone before (drop (length m) (c ∷ s)) || jump else step

-- `Mentions`
unfoldable pub mentions : Bytes → Bytes → Bool
unfolding mentions_from
mentions body mention =
    if is_empty mention
    then false
    else mentions_from (to_lower mention) 0 none (to_lower (strip_code body))

unfoldable pub issue_command : Bytes → Bool
issue_command name =
    str_eq name (codes "implement") || str_eq name (codes "plan") || str_eq name (codes "help")

unfoldable pub known_command : Bytes → Bool
known_command name =
    str_eq name (codes "review")
    || str_eq name (codes "explain")
    || str_eq name (codes "answer")
    || str_eq name (codes "ignore")
    || str_eq name (codes "help")
    || str_eq name (codes "implement")
    || str_eq name (codes "plan")

-- The walk over the lines: of the first line with content, what is left of it without code.
unfoldable pub first_content : List Bytes → List Bytes → Bytes
first_content [] stripped = []
first_content (line ∷ lines) [] = []
first_content (line ∷ lines) (t ∷ stripped) =
    let rest = first_content lines stripped in if is_empty (trim_space line) then rest else t

unfoldable pub command_of : Bytes → List Bytes → Option Command
unfolding known_command
command_of mention [] = none
command_of mention (f ∷ []) = none
command_of mention (f ∷ word ∷ args) =
    if equal_fold f mention && known_command (to_lower word)
    then some (record { name = to_lower word; args = args })
    else none

-- `ParseCommand`
unfoldable pub parse_command : Bytes → Bytes → Option Command
unfolding first_content command_of
parse_command body mention =
    if is_empty mention
    then none
    else command_of mention
        (fields (first_content (split newline body) (split newline (strip_code body))))
