-- ===== src/Reviewer.antt =====
-- `Severity`, `Finding` and the agent's output of internal/reviewer (reviewer.go, output.go). The output is
-- modelled after json.Unmarshal, as the struct that it fills.
pub mod Positions
pub mod Output
pub mod Sanitize
pub mod Price
mod Tests
use kibitz.Prelude.{
  ℕ, leb, Bool, true, false, Option, none, some, List, [], ◌∷◌, if◌then◌else◌, Bytes, codes, str_eq,
  is_some,
}
use kibitz.Prelude.Int.{ℤ}

-- `severityRank`, a map from text
unfoldable pub severity_rank : Bytes → Option ℕ
severity_rank s =
    if str_eq s (codes "critical")
    then some 0
    else if str_eq s (codes "high")
    then some 1
    else if str_eq s (codes "medium")
    then some 2
    else if str_eq s (codes "low")
    then some 3
    else if str_eq s (codes "info")
    then some 4
    else none

-- `Severity.Known`
abbrev pub known_severity : Bytes → Bool
known_severity s = is_some (severity_rank s)

abbrev pub rank_at_least : Option ℕ → Option ℕ → Bool
rank_at_least none limit = false
rank_at_least (some rank) none = true
rank_at_least (some rank) (some limit) = leb rank limit

-- `Severity.AtLeast`
abbrev pub at_least : Bytes → Bytes → Bool
at_least s threshold = rank_at_least (severity_rank s) (severity_rank threshold)

pub record OutputComment : Type 0 where
  pub path : Bytes
  pub line : ℤ
  pub end_line : ℤ
  pub severity : Bytes
  pub category : Bytes
  pub title : Bytes
  pub body : Bytes
  pub suggestion : Bytes

pub record Document : Type 0 where
  pub schema_version : ℤ
  pub summary : Bytes
  pub comments : List OutputComment

pub record Finding : Type 0 where
  pub path : Bytes
  pub line : ℤ
  pub end_line : ℤ
  pub severity : Bytes
  pub category : Bytes
  pub title : Bytes
  pub body : Bytes
  pub suggestion : Bytes
