-- ===== src/Reviewer/Price.antt =====
-- internal/reviewer/price.go: what the models cost, and the counts of tokens of reviewer.go that are priced.
-- Numbers of Go's float64 are a parameter: the package strconv reads them and the processor computes with them.
use kibitz.Prelude.{
  ℕ, suc, Bool, ◌||◌, Option, none, some, List, [], ◌∷◌, length, ltb, is_empty, if◌then◌else◌,
  Bytes, codes, split, trim_space, cut, Result, ok, err,
}
use kibitz.Prelude.Int.{ℤ, pos}
use kibitz.Prelude.Decimal.{add_i64}
use kibitz.Prelude.Table
use kibitz.Prelude.Table.{Table}

-- `parse` is strconv.ParseFloat, `of_int` and `to_int` are the conversions from int64 and to it, `round` is
-- math.Round, `below` is `<` and `within` is `<=`.
pub record Floats : Type 1 where
  pub Float : Type 0
  pub parse : Bytes → Option Float
  pub of_int : ℤ → Float
  pub to_int : Float → ℤ
  pub round : Float → Float
  pub add : Float → Float → Float
  pub mul : Float → Float → Float
  pub div : Float → Float → Float
  pub below : Float → Float → Bool
  pub within : Float → Float → Bool

pub record Usage : Type 0 where
  pub input_tokens : ℤ
  pub cache_read_tokens : ℤ
  pub cache_write_tokens : ℤ
  pub output_tokens : ℤ
  pub reasoning_tokens : ℤ

abbrev pub input : Usage → ℤ
input u = add_i64 (add_i64 u.input_tokens u.cache_read_tokens) u.cache_write_tokens

abbrev pub output : Usage → ℤ
output u = add_i64 u.output_tokens u.reasoning_tokens

unfoldable pub usage_tokens : Usage → ℤ
usage_tokens u = add_i64 (input u) (output u)

pub record Price (F : Type 0) : Type 0 where
  pub input_rate : F
  pub output_rate : F
  pub cache_read_rate : F
  pub cache_write_rate : F

-- `Prices`. The nil map and an empty one are read alike.
abbrev pub Prices : Type 0 → Type 0
Prices F = Table (Price F)

abbrev pub price_fallback : Bytes
price_fallback = codes "*"

-- The rates are counted from 0, in the order of `names`.
pub data RateFault : Type 0 where
  wrong_number_of_rates : RateFault
  not_a_rate : ℕ → Bytes → RateFault
  negative_rate : ℕ → RateFault

pub data PriceFault : Type 0 where
  not_a_price : Bytes → PriceFault
  bad_price : Bytes → RateFault → PriceFault

module _ (f : Floats) where
  abbrev pub zero_amount : f.Float
  zero_amount = f.of_int (pos 0)

  abbrev rate_within : ℕ → Bytes → Option f.Float → Result RateFault f.Float
  rate_within i rate none = err (not_a_rate i rate)
  rate_within i rate (some value) =
      if f.below value zero_amount then err (negative_rate i) else ok value

  abbrev add_rate :
      Result RateFault f.Float → Result RateFault (List f.Float) → Result RateFault (List f.Float)
  add_rate (err fault) rest = err fault
  add_rate (ok value) (err fault) = err fault
  add_rate (ok value) (ok values) = ok (value ∷ values)

  -- The loop over the rates, which ends at the first that is refused.
  unfoldable pub parse_rates : ℕ → List Bytes → Result RateFault (List f.Float)
  parse_rates i [] = ok []
  parse_rates i (rate ∷ rates) =
      add_rate (rate_within i rate (f.parse (trim_space rate))) (parse_rates (suc i) rates)

  abbrev price_of : List f.Float → Result RateFault (Price f.Float)
  price_of (i ∷ o ∷ []) =
      ok (record { input_rate = i; output_rate = o; cache_read_rate = i; cache_write_rate = i })
  price_of (i ∷ o ∷ r ∷ []) =
      ok (record { input_rate = i; output_rate = o; cache_read_rate = r; cache_write_rate = i })
  price_of (i ∷ o ∷ r ∷ w ∷ _) =
      ok (record { input_rate = i; output_rate = o; cache_read_rate = r; cache_write_rate = w })
  price_of _ = err wrong_number_of_rates

  abbrev with_rates : Result RateFault (List f.Float) → Result RateFault (Price f.Float)
  with_rates (err fault) = err fault
  with_rates (ok rates) = price_of rates

  unfoldable pub parse_price : List Bytes → Result RateFault (Price f.Float)
  unfolding parse_rates
  parse_price rates =
      if ltb (length rates) 2 || ltb 4 (length rates)
      then err wrong_number_of_rates
      else with_rates (parse_rates 0 rates)

  abbrev add_price :
      Bytes → Result RateFault (Price f.Float) → Prices f.Float → Result PriceFault (Prices f.Float)
  add_price model (err fault) prices = err (bad_price model fault)
  add_price model (ok price) prices = ok (Table.put (trim_space model) price prices)

  abbrev pub price_entry :
      Bytes → Option (Bytes × Bytes) → Prices f.Float → Result PriceFault (Prices f.Float)
  unfolding parse_price
  price_entry entry none prices = err (not_a_price entry)
  price_entry entry (some (model, rate)) prices =
      add_price model (parse_price (split b'/' rate)) prices

  abbrev price_line : Bytes → Prices f.Float → Result PriceFault (Prices f.Float)
  price_line entry prices =
      if is_empty entry then ok prices else price_entry entry (cut b'=' entry) prices

  abbrev and_then :
      Result PriceFault (Prices f.Float)
      → (Prices f.Float → Result PriceFault (Prices f.Float))
      → Result PriceFault (Prices f.Float)
  and_then (err fault) next = err fault
  and_then (ok prices) next = next prices

  unfoldable pub add_prices : List Bytes → Prices f.Float → Result PriceFault (Prices f.Float)
  add_prices [] prices = ok prices
  add_prices (entry ∷ entries) prices =
      and_then (price_line (trim_space entry) prices) (add_prices entries)

  -- `ParsePrices`
  abbrev pub parse_prices : List Bytes → Result PriceFault (Prices f.Float)
  parse_prices entries = add_prices entries []

  abbrev first_of : {A : Type 0} → Option A → Option A → Option A
  first_of none other = other
  first_of (some a) other = some a

  unfoldable pub lookup : Bytes → Prices f.Float → Option (Price f.Float)
  lookup model prices = first_of (Table.get model prices) (Table.get price_fallback prices)

  abbrev pub total_of : Usage → Price f.Float → f.Float
  total_of u price =
      f.add
        (f.add
          (f.add (f.mul (f.of_int u.input_tokens) price.input_rate)
            (f.mul (f.of_int u.cache_read_tokens) price.cache_read_rate))
          (f.mul (f.of_int u.cache_write_tokens) price.cache_write_rate))
        (f.mul (f.of_int (output u)) price.output_rate)

  abbrev priced : Usage → Option (Price f.Float) → Option f.Float
  priced u none = none
  priced u (some price) = some (f.div (total_of u price) (f.of_int (pos 1000000)))

  -- `Cost`: none for a model without a price.
  unfoldable pub cost : Bytes → Usage → Prices f.Float → Option f.Float
  unfolding lookup
  cost model u prices = priced u (lookup model prices)
