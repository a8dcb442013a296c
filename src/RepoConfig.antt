-- ===== src/RepoConfig.antt =====
-- internal/repoconfig: a repository's settings file, after the YAML decoder, and what it changes.
pub mod PathFilter
pub mod Validate
pub mod Settings
mod Tests
use kibitz.Prelude.{Bool, Option, List, Bytes}
use kibitz.Prelude.Int.{ℤ}

-- The file as written: what it leaves out is none.
pub record Implement : Type 0 where
  pub enabled : Option Bool
  pub allowed_actors : List Bytes
  pub paths_allow : List Bytes
  pub commands_allow : List Bytes
  pub branch_prefix : Bytes

pub record Review : Type 0 where
  pub enabled : Option Bool
  pub triggers : List Bytes
  pub skip_draft : Option Bool
  pub paths_ignore : List Bytes
  pub focus : List Bytes
  pub language : Bytes
  pub min_severity : Bytes
  pub max_comments : Option ℤ
  pub model : Bytes

pub record RepoFile : Type 0 where
  pub review : Option Review
  pub answer : Option (Option Bool)
  pub guidelines : Bytes
  pub mcp : Option (List Bytes)
  pub implement : Option Implement
