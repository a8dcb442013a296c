-- ===== src/Sandbox/Tests.antt =====
-- Commands that are parsed, and verifications that pass and fail.
use kibitz.Prelude.{◌≡◌, refl, true, false, none, some, List, [], ◌∷◌, Bytes, codes, err, length}
use kibitz.Prelude.Int.{pos}
use kibitz.Sandbox.{parse_commands, needs_shell, passed}
use kibitz.Sandbox.Run.{Ended, exited, verify}

abbrev go_test : List (List Bytes)
go_test = (codes "go" ∷ codes "test" ∷ codes "./..." ∷ []) ∷ []

shell_refused :
    parse_commands (codes "go build && go test" ∷ [])
    ≡ err (needs_shell (codes "go build && go test") (codes "&&"))
unfolding parse_commands
shell_refused = refl

abbrev ends_with : List Bytes → List Bytes → Ended × List Bytes
ends_with argv [] = (record { error = none; deadline_over = false; written = [] }, [])
ends_with argv (w ∷ ws) =
    (record { error = some (exited (pos 2)); deadline_over = false; written = w ∷ [] }, ws)

abbrev three : List (List Bytes)
three = (codes "make" ∷ []) ∷ [] ∷ (codes "make" ∷ codes "test" ∷ []) ∷ []

-- The first command fails, and the others are not run.
stopped_run :
    (length (verify ends_with three (codes "no rule" ∷ [])).steps ≡ 1)
    × (passed (some (verify ends_with three (codes "no rule" ∷ []))) ≡ false)
    × (passed (some (verify ends_with three [])) ≡ true)
unfolding verify passed
stopped_run = (refl, refl, refl)
