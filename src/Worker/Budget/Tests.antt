-- ===== src/Worker/Budget/Tests.antt =====
-- Budgets, prices and a month of charges, with whole numbers for amounts.
use kibitz.Prelude.{
  ℕ, ◌+◌, ◌*◌, ◌/◌, ◌≡◌, refl, Bool, true, false, Option, none, List, [], ◌∷◌, Bytes, codes, ltb,
  leb, Result, ok, err,
}
use kibitz.Prelude.Int.{ℤ, pos, pos_part}
use kibitz.Prelude.Decimal.{parse_uint}
use kibitz.Store.Memory
use kibitz.Reviewer.Price.{
  Floats, Usage, Prices, RateFault, parse_prices, parse_price, negative_rate, wrong_number_of_rates,
}
use kibitz.Worker.Budget.{Budget, Pass, Accounts, parse_budgets, not_a_budget, not_positive}
use kibitz.Worker.Budget.Month.{Step, checks, charges}

abbrev whole : Floats
whole = record {
  Float = ℕ;
  parse = parse_uint;
  of_int = pos_part;
  to_int = pos;
  round = λ n. n;
  add = λ a b. a + b;
  mul = λ a b. a * b;
  div = λ a b. a / b;
  below = ltb;
  within = leb;
}

budgets_read :
    parse_budgets whole (codes " acme/payments = 2" ∷ codes "  " ∷ codes "acme/*=5" ∷ [])
    ≡ ok (
        record { pattern = codes "acme/payments"; amount = 2 }
        ∷ record { pattern = codes "acme/*"; amount = 5 }
        ∷ [])
unfolding parse_budgets kibitz.Prelude.Decimal.parse_uint
budgets_read = refl

no_amount : parse_budgets whole (codes "acme" ∷ []) ≡ err (not_a_budget (codes "acme"))
unfolding parse_budgets
no_amount = refl

nothing_allowed : parse_budgets whole (codes "*=0" ∷ []) ≡ err (not_positive (codes "*"))
unfolding parse_budgets kibitz.Prelude.Decimal.parse_uint
nothing_allowed = refl

cache_rates_default :
    parse_price whole (codes "3" ∷ codes "15" ∷ [])
    ≡ ok (record { input_rate = 3; output_rate = 15; cache_read_rate = 3; cache_write_rate = 3 })
unfolding parse_price kibitz.Prelude.Decimal.parse_uint
cache_rates_default = refl

one_rate : parse_price whole (codes "3" ∷ []) ≡ err wrong_number_of_rates
unfolding parse_price
one_rate = refl

abbrev accounts : Accounts whole
accounts = record {
  prices =
      (
        codes "*",
        record {
          input_rate = 1000000;
          output_rate = 1000000;
          cache_read_rate = 0;
          cache_write_rate = 0;
        },
      )
      ∷ [];
  budgets =
      record { pattern = codes "acme/payments"; amount = 2 }
      ∷ record { pattern = codes "acme/*"; amount = 5 }
      ∷ [];
  has_store = true;
  month = codes "202611";
}

abbrev web : Bytes
web = codes "acme/web"

abbrev three_in : List Pass
three_in =
    record {
      model = codes "m";
      usage = record {
        input_tokens = pos 2;
        cache_read_tokens = pos 0;
        cache_write_tokens = pos 0;
        output_tokens = pos 1;
        reasoning_tokens = pos 0;
      };
    }
    ∷ []

abbrev month : List Step
month =
    checks 1 web
    ∷ charges 20 web three_in
    ∷ charges 10 (codes "acme/payments") three_in
    ∷ checks 15 web
    ∷ charges 30 web three_in
    ∷ []
