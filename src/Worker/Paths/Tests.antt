-- ===== src/Worker/Paths/Tests.antt =====
-- Paths that may be written to and paths that may not.
use kibitz.Prelude.{◌≡◌, refl, true, false, some, [], ◌∷◌, length, codes}
use kibitz.RepoConfig.PathFilter.{Filter, new_path_filter, covers}
use kibitz.Worker.Paths.Inside.{IsAllowed, is_editable-IsAllowed}
use kibitz.Worker.Paths.{must_filter, denied_paths, denied, is_denied, is_editable, clean_repo_path}

-- The list of what is never written to compiles, as one branch for each of its patterns.
denied_compiles : length denied.branches ≡ length denied_paths
unfolding denied new_path_filter kibitz.RepoConfig.PathFilter.valid_pattern
denied_compiles = refl

abbrev everything : Filter
everything = must_filter (new_path_filter (codes "**" ∷ []))

-- A manifest below the root is not on the list: its patterns name those at the root alone.
nested_manifest :
    (is_denied (codes "go.mod") ≡ true)
    × (is_denied (codes "web/package.json") ≡ false)
    × (is_editable everything (codes "web/package.json") ≡ true)
unfolding is_denied is_editable denied kibitz.Prelude.Clean.clean kibitz.Prelude.Clean.walk_parts
    covers new_path_filter kibitz.RepoConfig.PathFilter.valid_pattern
    kibitz.RepoConfig.PathFilter.tokens_match kibitz.RepoConfig.PathFilter.translate
nested_manifest = (refl, refl, refl)

-- As the code's own tests have it.
never_editable :
    (is_editable everything (codes ".github/Workflows/ci.yml") ≡ false)
    × (is_editable everything (codes "deploy/TLS.KEY") ≡ false)
    × (is_editable everything (codes "../outside.go") ≡ false)
    × (clean_repo_path (codes " ./a//b/../c ") ≡ some (codes "a/c"))
unfolding is_denied is_editable denied kibitz.Prelude.Clean.clean kibitz.Prelude.Clean.walk_parts
    covers new_path_filter kibitz.RepoConfig.PathFilter.valid_pattern
    kibitz.RepoConfig.PathFilter.tokens_match kibitz.RepoConfig.PathFilter.translate
never_editable = (refl, refl, refl, refl)

abbrev internals : Filter
internals = must_filter (new_path_filter (codes "internal/**" ∷ []))

is_editable-IsAllowed_example : IsAllowed internals (codes "internal/./x/../a.go")
unfolding is_editable kibitz.Prelude.Clean.clean kibitz.Prelude.Clean.walk_parts covers denied
    new_path_filter kibitz.RepoConfig.PathFilter.valid_pattern
    kibitz.RepoConfig.PathFilter.tokens_match kibitz.RepoConfig.PathFilter.translate
is_editable-IsAllowed_example = is_editable-IsAllowed internals (codes "internal/./x/../a.go") refl
