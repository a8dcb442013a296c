-- ===== src/Worker/Errors.antt =====
-- internal/worker/errors.go: errors that say how a job is to be retried. `errors.As` looks through
-- the wrappers for the first of its type.
use kibitz.Prelude.{Bool, true, false, Option, none, some, Bytes}
use kibitz.Prelude.Int.{ℤ}

pub data JobError : Type 0 where
  plain : Bytes → JobError
  permanent : JobError → JobError
  retry_after : JobError → ℤ → JobError

unfoldable pub is_permanent : JobError → Bool
is_permanent (plain s) = false
is_permanent (permanent e) = true
is_permanent (retry_after e d) = is_permanent e

unfoldable pub retry_delay : JobError → Option ℤ
retry_delay (plain s) = none
retry_delay (permanent e) = retry_delay e
retry_delay (retry_after e d) = some d
