-- ===== src/RepoConfig/Tests.antt =====
-- A repository that asks for more than it may have, and patterns on paths.
use kibitz.Prelude.{
  ◌≡◌, ◌↔◌, refl, arith, true, false, none, some, [], ◌∷◌, Bool, Bytes, codes, ok, err, Result,
}
use kibitz.Prelude.Int.{pos}
use kibitz.RepoConfig.{Implement, RepoFile}
use kibitz.RepoConfig.PathFilter.{
  no_filter, translate, tokens_match, valid_pattern, new_path_filter, absolute, covers, Filter,
  PatternFault,
}
use kibitz.RepoConfig.PathFilter.Literal.{IsBelow, tokens_match-IsBelow, non_ascii_misses}
use kibitz.RepoConfig.Settings.{Settings, apply_file, reviews, may_instruct}
use kibitz.RepoConfig.Validate.{file_fault}
use kibitz.Event.{command, pr_opened}
use kibitz.RepoConfig.Settings.Narrows.{IsNarrower, apply_file-IsNarrower}

stars_run : tokens_match (translate (codes "**/*.md")) (codes "docs/README.md") ≡ true
unfolding tokens_match translate
stars_run = refl

root_run : tokens_match (translate (codes "**/*.md")) (codes "README.md") ≡ true
unfolding tokens_match translate
root_run = refl

segment_run : tokens_match (translate (codes "docs/*.md")) (codes "docs/a/b.md") ≡ false
unfolding tokens_match translate
segment_run = refl

tokens_match-IsBelow_example :
    (tokens_match (translate (codes "vendor")) (codes "vendor/a.go") ≡ true)
    ↔ IsBelow (codes "vendor") (codes "vendor/a.go")
tokens_match-IsBelow_example =
    tokens_match-IsBelow (codes "vendor") (codes "vendor/a.go")
      (refl, refl, (refl, refl, (refl, refl, (refl, refl, (refl, refl, (refl, refl, tt))))))
      (omega arith)

-- "é" in UTF-8
abbrev accented : Bytes
accented = 195 ∷ 169 ∷ []

non_ascii_misses_example : tokens_match (translate accented) accented ≡ false
non_ascii_misses_example =
    non_ascii_misses accented (refl, refl, (refl, refl, tt)) (λ h. absurd (omega (arith, h)))

abbrev deployment : Settings
deployment = record {
  review_enabled = true;
  answer_enabled = true;
  skip_draft = false;
  triggers = none;
  paths_ignore = no_filter;
  focus = [];
  language = codes "en";
  limits = record { max_comments = pos 20; min_severity = []; max_body_bytes = pos 4000 };
  model = [];
  guidelines = codes "be kind";
  mcp = [];
  implement = record {
    deployment_allows = false;
    enabled = false;
    allowed_actors = [];
    paths_allow = [];
    commands_allow = [];
    branch_prefix = [];
  };
}

abbrev greedy_file : RepoFile
greedy_file = record {
  review = none;
  answer = some (some false);
  guidelines = codes "and quick";
  mcp = none;
  implement = some (record {
    enabled = some true;
    allowed_actors = codes "mallory" ∷ [];
    paths_allow = codes "**" ∷ [];
    commands_allow = [];
    branch_prefix = [];
  });
}

abbrev laid_over : Settings
laid_over = record {
  review_enabled = true;
  answer_enabled = false;
  skip_draft = false;
  triggers = none;
  paths_ignore = no_filter;
  focus = [];
  language = codes "en";
  limits = record { max_comments = pos 20; min_severity = []; max_body_bytes = pos 4000 };
  model = [];
  guidelines = 98 ∷ 101 ∷ 32 ∷ 107 ∷ 105 ∷ 110 ∷ 100 ∷ 10 ∷ codes "and quick";
  mcp = [];
  implement = record {
    deployment_allows = false;
    enabled = false;
    allowed_actors = codes "mallory" ∷ [];
    paths_allow = codes "**" ∷ [];
    commands_allow = [];
    branch_prefix = [];
  };
}

apply_file-IsNarrower_example :
    IsNarrower deployment laid_over
    × (false ≡ true → (i : Implement) × (greedy_file.implement ≡ some i) × (i.enabled ≡ some true))
unfolding apply_file kibitz.RepoConfig.Settings.join_lines
apply_file-IsNarrower_example = apply_file-IsNarrower greedy_file deployment laid_over refl

-- A pattern is checked as it is written when the file is read, and without the spaces around it when it is used.
unchecked_run :
    (valid_pattern (codes " /x") ≡ none) × (new_path_filter (codes " /x" ∷ []) ≡ err absolute)
unfolding valid_pattern new_path_filter
unchecked_run = (refl, refl)

abbrev ap_filter : Result PatternFault Filter → Bytes → Bool
ap_filter (ok f) path = covers f path
ap_filter (err e) path = false

-- A filter of two patterns, one of them a directory.
covers_run :
    (ap_filter (new_path_filter (codes "vendor/" ∷ codes " *.lock " ∷ [])) (codes "./vendor/x/y.go")
      ≡ true)
    × (ap_filter (new_path_filter (codes "vendor/" ∷ codes " *.lock " ∷ [])) (codes "go.lock")
        ≡ true)
    × (ap_filter (new_path_filter (codes "vendor/" ∷ codes " *.lock " ∷ [])) (codes "a/go.lock")
        ≡ false)
unfolding new_path_filter covers valid_pattern tokens_match translate
covers_run = (refl, refl, refl)

-- A command is reviewed whatever the triggers are, and nothing is where reviewing is off.
reviews_run :
    (reviews (record deployment { triggers = some [] }) command ≡ true)
    × (reviews (record deployment { triggers = some [] }) pr_opened ≡ false)
    × (reviews (record deployment { review_enabled = false }) command ≡ false)
unfolding reviews kibitz.Queue.kind_name
reviews_run = (refl, refl, refl)

actor_run : may_instruct laid_over.implement (codes " Mallory ") ≡ true
unfolding may_instruct
actor_run = refl

valid_run : file_fault greedy_file ≡ none
unfolding file_fault
valid_run = refl
