-- ===== src/Sandbox/Run.antt =====
-- internal/sandbox/run.go: `Verify`. The process that `exec` starts is a parameter: what it wrote, its error, and
-- whether the deadline was over when it ended, on a state that it may change.
use kibitz.Prelude.{
  length-take, lt→ltb, ltb-ge, subst, append-nil, ◌≤◌, dec_lt, take, zero, suc, ap, append_assoc,
  ◌⊎◌, ℕ, ◌-◌, ltb, ◌≡◌, refl, arith, Bool, true, false, not, Option, none, some, List, [], ◌∷◌,
  ◌++◌, length, length-drop, drop, is_empty, if◌then◌else◌, Bytes, trim_space,
}
use kibitz.Prelude.Int.{ℤ, pos, negsuc}
use kibitz.Sandbox.{Step, SandboxResult, step_passed, all_passed, first_failed, max_output_bytes}

-- `boundedBuffer`
pub record Buffer : Type 0 where
  pub buf : Bytes
  pub truncated : Bool

abbrev pub empty_buffer : Buffer
empty_buffer = record { buf = []; truncated = false }

unfoldable pub write : Buffer → Bytes → Buffer
write b p =
    let all = b.buf ++ p in
    if ltb max_output_bytes (length all)
    then record { buf = drop (length all - max_output_bytes) all; truncated = true }
    else record { buf = all; truncated = b.truncated }

unfoldable pub write_all : Buffer → List Bytes → Buffer
write_all b [] = b
write_all b (p ∷ ps) = write_all (write b p) ps

pub data ProcessError : Type 0 where
  exited : ℤ → ProcessError
  unstartable : Bytes → ProcessError

pub record Ended : Type 0 where
  pub error : Option ProcessError
  pub deadline_over : Bool
  pub written : List Bytes

-- The switch of `runOne`
abbrev pub step_of : List Bytes → Buffer → Option ProcessError → Bool → Step
step_of argv b none over = record {
  argv = argv;
  exit_code = pos 0;
  output = trim_space b.buf;
  truncated = b.truncated;
  timed_out = false;
}
step_of argv b (some e) true = record {
  argv = argv;
  exit_code = negsuc 0;
  output = trim_space b.buf;
  truncated = b.truncated;
  timed_out = true;
}
step_of argv b (some (exited code)) false = record {
  argv = argv;
  exit_code = code;
  output = trim_space b.buf;
  truncated = b.truncated;
  timed_out = false;
}
step_of argv b (some (unstartable text)) false = record {
  argv = argv;
  exit_code = negsuc 0;
  output = trim_space (trim_space b.buf ++ 10 ∷ text);
  truncated = b.truncated;
  timed_out = false;
}

module _ {S : Type 0} (exec : List Bytes → S → Ended × S) where
  unfoldable pub run_one : List Bytes → S → Step × S
  run_one argv s =
      let (e, s') = exec argv s in
      (step_of argv (write_all empty_buffer e.written) e.error e.deadline_over, s')

  -- The loop of `Verify`
  unfoldable pub run_all : List (List Bytes) → S → List Step
  unfolding run_one step_passed
  run_all [] s = []
  run_all (argv ∷ rest) s =
      let (step, s') = run_one argv s in
      let later = run_all rest s' in
      let skipped = run_all rest s in
      if is_empty argv then skipped else (if step_passed step then step ∷ later else step ∷ [])

  unfoldable pub verify : List (List Bytes) → S → SandboxResult
  unfolding run_all
  verify commands s = record { steps = run_all commands s; failure = [] }

-- The commands that are run: those with a word in them.
abbrev pub worded : List (List Bytes) → List (List Bytes)
worded [] = []
worded (argv ∷ rest) = if is_empty argv then worded rest else argv ∷ worded rest

abbrev pub commands_of : List Step → List (List Bytes)
commands_of [] = []
commands_of (s ∷ ss) = s.argv ∷ commands_of ss

-- What the steps are of: all commands, each passed; or those up to the first that did not pass, and that step last.
abbrev pub Answers : List (List Bytes) → List Step → Type 0
Answers cs steps =
    ((all_passed steps ≡ true) × (commands_of steps ≡ cs))
    ⊎ ((all_passed steps ≡ false)
        × ((front : List Step) × (last : Step) × (rest : List (List Bytes)) × (steps
              ≡ front ++ last ∷ [])
            × (all_passed front ≡ true)
            × (step_passed last ≡ false)
            × (first_failed steps ≡ some last)
            × (cs ≡ commands_of steps ++ rest)))

-- What a buffer keeps of all that was written is its end, of no more bytes than the limit, and it says so when it
-- dropped any.
abbrev all_bytes : List Bytes → Bytes
all_bytes [] = []
all_bytes (p ∷ ps) = p ++ all_bytes ps

abbrev IsTail : Bytes → Buffer → Type 0
IsTail whole b =
    (length b.buf ≤ max_output_bytes)
    × ((cut : Bytes) × (whole ≡ cut ++ b.buf) × (b.truncated ≡ not (is_empty cut)))

take-drop : (n : ℕ) (xs : Bytes) → take n xs ++ drop n xs ≡ xs
take-drop zero xs = refl
take-drop (suc n) [] = refl
take-drop (suc n) (x ∷ xs) = ap (λ l. x ∷ l) (take-drop n xs)

is_empty-append : (xs ys : Bytes) → 1 ≤ length ys → is_empty (xs ++ ys) ≡ false
is_empty-append [] [] h = absurd (omega (arith, h))
is_empty-append [] (y ∷ ys) h = refl
is_empty-append (x ∷ xs) ys h = refl

write-IsTail :
    (whole : Bytes) (b : Buffer) (p : Bytes) → IsTail whole b → IsTail (whole ++ p) (write b p)
unfolding write
write-IsTail whole b p (small, (cut, shape, flag)) =
    let all = b.buf ++ p in
    let n = length all - max_output_bytes in
    elim (dec_lt max_output_bytes (length all)) [
      | yes over ↦ rw (lt→ltb max_output_bytes (length all) over) (
        omega (arith, length-drop n all),
        (
          cut ++ take n all,
          rw (shape, append_assoc, append_assoc, take-drop n all) refl,
          rw (is_empty-append cut (take n all) (omega (arith, length-take n all, over))) refl,
        ),
      )
      | no fits ↦
          rw (ltb-ge max_output_bytes (length all) (omega (arith, fits)))
            (omega (arith, fits), (cut, rw (shape, append_assoc) refl, flag))
    ]

write_from-IsTail :
    (whole : Bytes) (b : Buffer) (ps : List Bytes)
    → IsTail whole b
    → IsTail (whole ++ all_bytes ps) (write_all b ps)
unfolding write_all
write_from-IsTail whole b [] h = rw append-nil h
write_from-IsTail whole b (p ∷ ps) h =
    subst (λ w. IsTail w (write_all (write b p) ps)) (append_assoc whole p (all_bytes ps))
      (write_from-IsTail (whole ++ p) (write b p) ps (write-IsTail whole b p h))

-- Whatever is written in whatever pieces, what is kept is the end of it all, no longer than the limit, and it is
-- marked as truncated exactly when something before it was dropped.
pub write_all-IsTail : (ps : List Bytes) → IsTail (all_bytes ps) (write_all empty_buffer ps)
write_all-IsTail ps = write_from-IsTail [] empty_buffer ps (omega arith, ([], refl, refl))
