-- ===== src/Worker/Paths.antt =====
-- internal/worker/implement.go: which paths the mode that writes code may write to.
pub mod Inside
mod Tests
use kibitz.Prelude.{
  Bool, true, false, not, ◌&&◌, ◌||◌, Option, none, some, List, [], ◌∷◌, map, if◌then◌else◌, Bytes,
  codes, Result, ok, err, to_lower, trim_space, trim_prefix,
}
use kibitz.Prelude.Clean.{clean, escapes}
use kibitz.RepoConfig.PathFilter.{Filter, PatternFault, new_path_filter, covers}

abbrev pub denied_paths : List Bytes
denied_paths =
    codes ".github/workflows/**"
    ∷ codes ".github/actions/**"
    ∷ codes ".gitlab-ci.yml"
    ∷ codes "**/.gitlab-ci.yml"
    ∷ codes "azure-pipelines.yml"
    ∷ codes "**/azure-pipelines.yml"
    ∷ codes ".azuredevops/**"
    ∷ codes ".circleci/**"
    ∷ codes "Jenkinsfile"
    ∷ codes ".kibitz.yaml"
    ∷ codes ".kibitz/**"
    ∷ codes "AGENTS.md"
    ∷ codes "go.mod"
    ∷ codes "go.sum"
    ∷ codes "package.json"
    ∷ codes "package-lock.json"
    ∷ codes "pnpm-lock.yaml"
    ∷ codes "yarn.lock"
    ∷ codes "requirements.txt"
    ∷ codes "pyproject.toml"
    ∷ codes "poetry.lock"
    ∷ codes "uv.lock"
    ∷ codes "Cargo.toml"
    ∷ codes "Cargo.lock"
    ∷ codes "Gemfile"
    ∷ codes "Gemfile.lock"
    ∷ codes "composer.json"
    ∷ codes "composer.lock"
    ∷ codes "pom.xml"
    ∷ codes "build.gradle"
    ∷ codes "build.gradle.kts"
    ∷ codes "**/*.pem"
    ∷ codes "**/*.key"
    ∷ codes ".env"
    ∷ codes "**/.env"
    ∷ []

abbrev pub lower_all : List Bytes → List Bytes
lower_all = map to_lower

-- `mustFilter`, which panics where the patterns do not compile: they do, as the tests show.
abbrev pub must_filter : Result PatternFault Filter → Filter
must_filter (ok f) = f
must_filter (err fault) = record { patterns = []; branches = [] }

-- `denied`
unfoldable pub denied : Filter
denied = must_filter (new_path_filter (lower_all denied_paths))

-- `cleanRepoPath`
unfoldable pub clean_repo_path : Bytes → Option Bytes
clean_repo_path path =
    let c = trim_prefix (clean (trim_space path)) (codes "/") in if escapes c then none else some c

abbrev pub is_denied_at : Option Bytes → Bool
is_denied_at none = true
is_denied_at (some c) = covers denied (to_lower c)

-- `Denied`
unfoldable pub is_denied : Bytes → Bool
unfolding clean_repo_path
is_denied path = is_denied_at (clean_repo_path path)

abbrev pub is_editable_at : Filter → Option Bytes → Bool
is_editable_at allow none = false
is_editable_at allow (some c) = if covers denied (to_lower c) then false else covers allow c

-- `Editable`
unfoldable pub is_editable : Filter → Bytes → Bool
unfolding clean_repo_path
is_editable allow path = is_editable_at allow (clean_repo_path path)

-- `notEditable`
unfoldable pub not_editable : Filter → List Bytes → List Bytes
not_editable allow [] = []
not_editable allow (path ∷ paths) =
    let rest = not_editable allow paths in if is_editable allow path then rest else path ∷ rest
