-- ===== src/Lib.antt =====
-- kibitz: a bot that reviews pull requests. A server turns webhooks into events and publishes those that its
-- policy accepts; workers take them from a queue, run a job for each under a lock on the pull request, and
-- may reach the outside only as the egress rules allow; a scaler sets how many workers there are.
--
-- The parts, and the files that model them (paths from the repository's root):
--
--   Prelude                shared helpers: Boolean tests, lists, Go strings as lists of bytes (Strings), tables
--                          for maps (Table), int64 as signed integers (Int), strconv (Decimal), results
--   Event                  internal/event/event.go: ReviewEvent, `Key`, `Validate`; Event/Validity and
--                          Event/Keys have the proofs, Event/Samples the events of the tests
--   Queue                  internal/queue/queue.go: Message, `Attributes`, `OrderingKey`
--   Queue/Memory           internal/queue/memory/memory.go: Queue; `Publish` is `publish`, a round of `Receive` is
--                          `pop`, `delivered`, the handler and `requeue`; Delivery interleaves rounds of any
--                          receivers as steps, Drain runs one receiver
--   Store                  internal/store/store.go: errors, markers, keys
--   Store/Memory           internal/store/memory/memory.go: Store with `MarkProcessed`, `AcquireLock`, `Get`, `Put`,
--                          `Delete`, `Incr`, `Len`, and the lease's `Extend` and `Release`
--   Store/Interface        the interface Store as a record of operations, the laws that its client relies on,
--                          and the in-process store as an instance of it
--   Scale                  internal/scale/scale.go: `Normalize` and `Desired`
--   Scale/Scaler           internal/scale/scaler.go: `Reconcile` with `settling`
--   Scale/Waker            internal/scale/scaler.go: `NewWaker` and `Wake`
--   Policy/Glob            internal/policy/glob.go: `Match` and `MatchAny`
--   Policy/Markdown        internal/policy/markdown.go: `StripCode`
--   Policy/Command         internal/policy/command.go: `Mentions` and `ParseCommand`
--   Policy/Engine          internal/policy/policy.go: `New` and `Evaluate`
--   Egress                 internal/egress/rules.go: matching and the three decisions; Egress/Parse has `ParseRule`
--                          and `NewPolicy`
--   TextDiff/Lines         internal/textdiff/hunks.go: `splitLines`, `commonPrefix`, `commonSuffix`, `isBinary`
--   TextDiff/Script        internal/textdiff/textdiff.go: `diffLines`, `trim`, `at`, `backtrack`; below it Furthest has
--                          the furthest points as a recursion, Search and Backtrack the loops against it, Walks
--                          what a script has to be, Shortest how it compares with others
--   TextDiff/Compact       internal/textdiff/compact.go: `compact` and `rebuild`; TextDiff/Slide has `slide`, as a walk
--                          over the lines with their marks
--   TextDiff/Rebase        internal/textdiff/hunks.go: `rebase`, and the script of a whole file
--   TextDiff/Hunks         internal/textdiff/hunks.go: `group`
--   TextDiff/Unified       internal/textdiff/textdiff.go: `Unified`, with `render`, `span`, `rng` and `write`
--   Reviewer               internal/reviewer/reviewer.go: severities and findings
--   Reviewer/Positions     internal/reviewer/diffmap.go: `NewPositions`, `Allows`, `commentableLines`; Headers
--                          and Rendered read the patches that the text diff writes
--   Reviewer/Output        internal/reviewer/output.go: `ParseOutput`, after the JSON decoder
--   Reviewer/Sanitize      internal/reviewer/output.go: `Sanitize` and `truncate`
--   Reviewer/Price         internal/reviewer/price.go: `ParsePrices` and `Cost`, with `Usage` of reviewer.go
--   RepoConfig             internal/repoconfig/repoconfig.go: the settings file after the YAML decoder
--   RepoConfig/PathFilter  internal/repoconfig/match.go: `NewPathFilter`, `Match`, `translate`
--   RepoConfig/Settings    internal/repoconfig/settings.go: `Apply`, `Allows`, `Reviews`; RepoConfig/Validate has
--                          `validate` of internal/repoconfig/validate.go
--   Sandbox                internal/sandbox/sandbox.go: results, `ParseCommands`; Sandbox/Run has `Verify` of
--                          internal/sandbox/run.go
--   Webhook                internal/webhook/webhook.go: what a platform's handler does
--   Webhook/Receiver       internal/webhook/receiver.go: `ServeHTTP` with `publish` and `attachTrace`
--   Webhook/Github         internal/webhook/github: `Verify` and `Normalize`, after the JSON decoder
--   Worker/Errors          internal/worker/errors.go: permanent errors and delays
--   Worker/Guard           internal/worker/guard.go: `Handle` and `fail`
--   Worker/Paths           internal/worker/implement.go: `Denied` and `Editable`; Prelude/Clean has path.Clean
--   Worker/Implement       internal/worker/implement.go: the gate `allowImplement`; Worker/Implement/Run has `issueCommand`,
--                          `plan`, and `implement` of internal/worker/implement_run.go
--   Worker/Budget          internal/worker/budget.go: `ParseBudgets`, `For`, `cost`, `exhausted`, `charge` and
--                          `reportExhausted`; Worker/Budget/Month runs them on the in-process store
--
-- How they interact: `Publish` validates an event and copies it into a message; the guard takes any store
-- by its interface, and its keys are made from the event's; the egress rules and the trigger policy use the
-- same patterns. The patch that the text diff makes is read back by the reviewer's positions, against which the
-- agent's findings are checked. What a job costs is added to a counter of the store, which the next job reads
-- first.
--
-- What stands for what:
--   * A string is the list of its bytes. Letter case and white space are those of ASCII, and the wildcard "?"
--     stands for a byte, as it does in the code.
--   * A time is a number of nanoseconds, 0 the zero time; a duration is an integer. Each reading of a clock is
--     an argument of the operation that makes it.
--   * A method that holds its mutex from the first statement to the return is one step. The queue's handler
--     runs between two steps.
--   * An error is the constructor of a data type, without its text. Log lines are left out.
--   * In the mode that writes code the forge, the workspace, the engine and the sandbox are what their calls answer, and
--     a run is the list of its calls, each made at most once. In the receiver a response is what is answered, what
--     was published, and what is called after the answer.
--   * In the queue the copy of an event by encoding and decoding it is the event itself.
--   * The guard's job, its notifier and its store are arguments; of its store a budget has `Incr` as an argument. What the lease's keepalive and other workers do
--     while the job runs is part of what the job does to the store.
--   * In the text diff a slice of numbers is a function of its index, and a diagonal is named by its index in the
--     slice. The slices of Booleans that say which lines changed are marks on the lines. An option that is below
--     zero counts as zero.
--   * In the reviewer a set is the list of what was put in it, and sort.SliceStable is insertion from the right.
--   * The expression that a path pattern is compiled to is the list of its fragments, matched as package regexp
--     matches them on text in UTF-8; compiling it does not fail.
--   * Numbers of float64 are a parameter: a type with strconv.ParseFloat, the conversions, math.Round, the sums and
--     the comparisons that prices and budgets use. The month, which time.Format prints, is an argument.
--   * The sum that `Desired` rounds up with fits in an int64.
--
-- Loops: `Match` runs on the fuel |name| * (|pattern| + 1) + |pattern| + 1, since every step either advances the
-- pattern or takes one more byte into a star. `receive` runs for a number of rounds that is an argument. The
-- digits of a number below 2^64 are at most 20. The loops of the comment parser walk over the bytes, with a
-- count of those still to be jumped over. The search of the text diff runs for its limit of rounds and one more, as in
-- the code; each round of `group` and of the loop in it moves on by a line, so the length of the script is enough.
-- Counters of ids stay below 2^63, where the code's int64 would wrap; the counters of the store wrap.
--
-- Not modelled: the forges' clients and the webhooks of GitLab and Azure DevOps, the reviewing agents and the jobs that
-- drive them but for the mode that writes code, the sandbox's runner in a job of its own and its archives, the
-- workspace, the prompt and triage, the service's configuration, the YAML decoder, the proxy itself, Firestore and
-- Pub/Sub, telemetry and the commands, which are input and output, calls of libraries, or wiring. Among the files above:
-- the JSON codec, the store's key that counts posts by the hour, the tickers around `Reconcile` and around the lease.
pub mod Prelude
pub mod Event
pub mod Queue
pub mod Store
pub mod Scale
pub mod Policy
pub mod Egress
pub mod TextDiff
pub mod Reviewer
pub mod RepoConfig
pub mod Sandbox
pub mod Webhook
pub mod Worker
