-- ===== src/Worker/Budget/Month.antt =====
-- The budgets of internal/worker/budget.go over a month of checks and charges, on the in-process store.
use kibitz.Prelude.{
  ℕ, Bool, true, false, Option, none, some, List, [], ◌∷◌, Bytes, str_eq, if◌then◌else◌,
}
use kibitz.Prelude.Int.{ℤ}
use kibitz.Prelude.Decimal.{add_i64}
use kibitz.Prelude.Table
use kibitz.Prelude.Table.{get-put, get-remove}
use kibitz.Store.{spend_key}
use kibitz.Store.Memory.{Store}
use kibitz.Reviewer.Price.{Floats, zero_amount}
use kibitz.Worker.Budget.{Pass, Accounts, exhausted, charge, job_cost, to_micros, from_micros}
use kibitz.Worker.Budget.Counter.{incr_at}

-- A job asks whether its repository has spent the month, or adds what it cost, at a reading of the clock.
pub data Step : Type 0 where
  checks : ℕ → Bytes → Step
  charges : ℕ → Bytes → List Pass → Step

abbrev at : Step → ℕ
at (checks t repo) = t
at (charges t repo passes) = t

module _ (f : Floats) (d : Accounts f) (last : ℕ) where
  abbrev do_step : Step → Store → Store
  do_step (checks t r) s = (exhausted f (incr_at t) d r s).1
  do_step (charges t r passes) s = charge f (incr_at t) d r passes s

  abbrev pub do_all : List Step → Store → Store
  do_all [] s = s
  do_all (x ∷ xs) s = do_all xs (do_step x s)

  -- The priced costs of the repository's own jobs, rounded to millionths and added up.
  abbrev pub add_charge : ℤ → Option f.Float → ℤ
  add_charge total none = total
  add_charge total (some amount) =
      if f.within amount (zero_amount f) then total else add_i64 total (to_micros f amount)

  abbrev pub spent_by : Bytes → ℤ → List Step → ℤ
  spent_by repo total [] = total
  spent_by repo total (checks t r ∷ xs) = spent_by repo total xs
  spent_by repo total (charges t r passes ∷ xs) =
      let charged = spent_by repo (add_charge total (job_cost f d.prices passes)) xs in
      let same = spent_by repo total xs in if str_eq r repo then charged else same

  -- What a job hears of a limit and a total.
  abbrev pub verdict : Option f.Float → ℤ → Bool × Option (f.Float × f.Float)
  verdict none total = (false, none)
  verdict (some limit) total =
      let spent = from_micros f total in
      if f.within limit spent then (true, some (spent, limit)) else (false, none)

  abbrev key_of : Bytes → Bytes
  key_of repo = spend_key repo d.month
