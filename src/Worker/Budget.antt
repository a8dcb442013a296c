-- ===== src/Worker/Budget.antt =====
-- internal/worker/budget.go: what a set of repositories may cost in a month. The store's `Incr`, the month as it
-- is printed and the numbers of float64 are parameters; log lines are left out.
pub mod Counter
pub mod Month
mod Tests
use kibitz.Prelude.{
  Bool, true, false, not, ◌&&◌, Option, none, some, List, [], ◌∷◌, ◌++◌, is_empty, if◌then◌else◌,
  Bytes, trim_space, cut, Result, ok, err,
}
use kibitz.Prelude.Int.{ℤ, pos, leb_ℤ}
use kibitz.Store.{StoreError, spend_key}
use kibitz.Policy.Glob.{match}
use kibitz.Reviewer.Output.{is_zero}
use kibitz.Reviewer.Price.{Floats, Usage, usage_tokens, Prices, cost, zero_amount}

-- 70 days, in nanoseconds.
abbrev pub spend_ttl : ℤ
spend_ttl = pos 6048000000000000

pub record Budget (F : Type 0) : Type 0 where
  pub pattern : Bytes
  pub amount : F

pub data BudgetFault : Type 0 where
  not_a_budget no_pattern : Bytes → BudgetFault
  not_an_amount : Bytes → Bytes → BudgetFault
  not_positive : Bytes → BudgetFault

-- One call of the agent: the model that it ran on and what it used.
pub record Pass : Type 0 where
  pub model : Bytes
  pub usage : Usage

module _ (f : Floats) where
  abbrev pub budget_of : Bytes → Bytes → Option f.Float → Result BudgetFault (Budget f.Float)
  budget_of pattern amount none = err (not_an_amount pattern amount)
  budget_of pattern amount (some value) =
      if f.within value (zero_amount f)
      then err (not_positive pattern)
      else ok (record { pattern = pattern; amount = value })

  abbrev pub parse_budget : Bytes → Option (Bytes × Bytes) → Result BudgetFault (Budget f.Float)
  parse_budget entry none = err (not_a_budget entry)
  parse_budget entry (some (pattern, amount)) =
      if is_empty (trim_space pattern)
      then err (no_pattern entry)
      else budget_of (trim_space pattern) amount (f.parse (trim_space amount))

  abbrev pub add_budget :
      Result BudgetFault (Budget f.Float)
      → Result BudgetFault (List (Budget f.Float))
      → Result BudgetFault (List (Budget f.Float))
  add_budget (err fault) rest = err fault
  add_budget (ok budget) (err fault) = err fault
  add_budget (ok budget) (ok budgets) = ok (budget ∷ budgets)

  -- `ParseBudgets`, whose loop ends at the first entry that is refused.
  unfoldable pub parse_budgets : List Bytes → Result BudgetFault (List (Budget f.Float))
  parse_budgets [] = ok []
  parse_budgets (entry ∷ entries) =
      let rest = parse_budgets entries in
      let trimmed = trim_space entry in
      if is_empty trimmed then rest else add_budget (parse_budget trimmed (cut b'=' trimmed)) rest

  -- `For`: the first pattern that matches decides.
  unfoldable pub for_repo : List (Budget f.Float) → Bytes → Option f.Float
  for_repo [] repo = none
  for_repo (b ∷ bs) repo = if match b.pattern repo then some b.amount else for_repo bs repo

  -- `toMicros` and `fromMicros`
  unfoldable pub to_micros : f.Float → ℤ
  to_micros amount = f.to_int (f.round (f.mul amount (f.of_int (pos 1000000))))

  unfoldable pub from_micros : ℤ → f.Float
  from_micros micros = f.div (f.of_int micros) (f.of_int (pos 1000000))

  -- `cost`, with the total so far and whether any pass was priced.
  abbrev pub add_cost : Option f.Float → f.Float → (f.Float → Option f.Float) → Option f.Float
  add_cost none total next = none
  add_cost (some amount) total next = next (f.add total amount)

  unfoldable pub cost_from : Prices f.Float → f.Float → Bool → List Pass → Option f.Float
  cost_from prices total priced [] = if priced then some total else none
  cost_from prices total priced (p ∷ ps) =
      let unused = cost_from prices total priced ps in
      let used = add_cost (cost f p.model p.usage prices) total (λ t. cost_from prices t true ps) in
      if is_zero (usage_tokens p.usage) then unused else used

  unfoldable pub job_cost : Prices f.Float → List Pass → Option f.Float
  unfolding cost_from
  job_cost prices passes = cost_from prices (zero_amount f) false passes

  -- The fields of ReviewJob that the budget reads, with the month that it is.
  pub record Accounts : Type 0 where
    pub prices : Prices f.Float
    pub budgets : List (Budget f.Float)
    pub has_store : Bool
    pub month : Bytes

  pub record Spending : Type 0 where
    pub spent : f.Float
    pub limit : f.Float
    pub over : Bool

  module _ {S : Type 0} (incr : Bytes → ℤ → ℤ → S → Result StoreError ℤ × S) (d : Accounts) where
    abbrev no_limit : Spending
    no_limit = record { spent = zero_amount f; limit = zero_amount f; over = false }

    abbrev pub against_limit : f.Float → Result StoreError ℤ × S → Spending × S
    against_limit limit (err fault, s) =
        (record { spent = zero_amount f; limit = limit; over = false }, s)
    against_limit limit (ok micros, s) = (
      record {
        spent = from_micros micros;
        limit = limit;
        over = f.within limit (from_micros micros);
      },
      s,
    )

    abbrev pub when_limited : Bytes → Option f.Float → S → Spending × S
    when_limited repo none s = (no_limit, s)
    when_limited repo (some limit) s =
        if not d.has_store
        then (no_limit, s)
        else against_limit limit (incr (spend_key repo d.month) (pos 0) spend_ttl s)

    unfoldable pub exhausted : Bytes → S → Spending × S
    exhausted repo s = when_limited repo (for_repo d.budgets repo) s

    abbrev pub charge_cost : Bytes → Option f.Float → S → S
    charge_cost repo none s = s
    charge_cost repo (some amount) s =
        if f.within amount (zero_amount f)
        then s
        else (incr (spend_key repo d.month) (to_micros amount) spend_ttl s).1

    unfoldable pub charge : Bytes → List Pass → S → S
    charge repo passes s =
        if not d.has_store then s else charge_cost repo (job_cost d.prices passes) s

    -- `reportExhausted`: whether the job is stopped, and the totals of the budget_notice that it leaves.
    abbrev pub budget_notice : Spending → Option (f.Float × f.Float)
    budget_notice t = if t.over then some (t.spent, t.limit) else none

    abbrev pub stopped : Spending × S → (Bool × Option (f.Float × f.Float)) × S
    stopped (t, s) = ((t.over, budget_notice t), s)

    unfoldable pub report_exhausted : Bytes → S → (Bool × Option (f.Float × f.Float)) × S
    unfolding exhausted
    report_exhausted repo s = stopped (exhausted repo s)
