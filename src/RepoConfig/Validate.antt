-- ===== src/RepoConfig/Validate.antt =====
-- `validate` of internal/repoconfig/validate.go.
use kibitz.Prelude.{
  Bool, false, not, ◌&&◌, Option, none, some, List, [], ◌∷◌, any, if◌then◌else◌, Bytes, codes,
  str_eq, is_empty, is_some,
}
use kibitz.Prelude.Int.{ℤ, pos, ltb_ℤ}
use kibitz.Event.{Kind, pr_opened, pr_updated, pr_ready_for_review, pr_review_requested, command}
use kibitz.Reviewer.{known_severity}
use kibitz.RepoConfig.{Review, RepoFile}
use kibitz.RepoConfig.PathFilter.{PatternFault, valid_pattern}

-- `triggerNames`
unfoldable pub trigger_kind : Bytes → Option Kind
trigger_kind name =
    if str_eq name (codes "pr_opened")
    then some pr_opened
    else if str_eq name (codes "pr_updated")
    then some pr_updated
    else if str_eq name (codes "pr_ready_for_review")
    then some pr_ready_for_review
    else if str_eq name (codes "pr_review_requested")
    then some pr_review_requested
    else if str_eq name (codes "command")
    then some command
    else none

pub data FileFault : Type 0 where
  bad_severity negative_cap unknown_trigger : FileFault
  bad_pattern : PatternFault → FileFault

abbrev pub first_fault : Option PatternFault → Option FileFault → Option FileFault
first_fault none later = later
first_fault (some f) later = some (bad_pattern f)

abbrev pub is_below_zero : Option ℤ → Bool
is_below_zero none = false
is_below_zero (some n) = ltb_ℤ n (pos 0)

abbrev pub patterns_fault : List Bytes → Option FileFault
patterns_fault [] = none
patterns_fault (p ∷ ps) = first_fault (valid_pattern p) (patterns_fault ps)

abbrev pub review_fault : Review → Option FileFault
review_fault r =
    if not (is_empty r.min_severity) && not (known_severity r.min_severity)
    then some bad_severity
    else if is_below_zero r.max_comments
    then some negative_cap
    else if any (λ n. not (is_some (trigger_kind n))) r.triggers
    then some unknown_trigger
    else patterns_fault r.paths_ignore

-- `validate`
unfoldable pub file_fault : RepoFile → Option FileFault
file_fault c = elim c.review [ none ↦ none | some r ↦ review_fault r ]
