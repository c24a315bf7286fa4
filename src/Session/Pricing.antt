-- ===== src/Session/Pricing.antt =====
-- The price of a turn (session/src/orxtra/session/_pricing.py) and the usage that it is computed from
-- (transport/src/orxtra/transport/_events.py). Money is counted in billionths of a dollar, so that
-- the division by a million is exact for rates in thousandths of a dollar, as all of the table are.
use orxtra.Prelude.{
  ℕ, ◌+◌, ◌*◌, ◌/◌, String, Option, none, some, [], ◌∷◌, string_eq, Result, ok, err, value_error,
}
use orxtra.Prelude.Ids.{Decimal}
use orxtra.Prelude.Dict.{Dict, get}

pub record Usage : Type 0 where
  pub input_tokens : ℕ
  pub output_tokens : ℕ
  pub reasoning_tokens : ℕ
  pub cache_read_tokens : ℕ
  pub cache_write_tokens : ℕ

pub record TokenRates : Type 0 where
  pub input_per_million : Decimal
  pub output_per_million : Decimal
  pub cache_read_per_million : Decimal
  pub cache_write_per_million : Decimal
  pub reasoning_per_million : Decimal

-- A rate in thousandths of a dollar.
abbrev milli : ℕ → Decimal
milli n = n * 1_000_000

abbrev rates : (input output cache_read cache_write reasoning : ℕ) → TokenRates
rates input output cache_read cache_write reasoning = record {
  input_per_million = milli input;
  output_per_million = milli output;
  cache_read_per_million = milli cache_read;
  cache_write_per_million = milli cache_write;
  reasoning_per_million = milli reasoning;
}

unfoldable pub pricing_table : Dict String TokenRates
pricing_table =
    ("anthropic/claude-opus-4-6", rates 5000 25_000 500 6250 60_000)
    ∷ ("anthropic/claude-sonnet-4-6", rates 3000 15_000 300 3750 20_000)
    ∷ ("anthropic/claude-haiku-4-5", rates 1000 5000 100 1250 2000)
    ∷ ("openai/gpt-4o", rates 2500 10_000 1250 2500 10_000)
    ∷ ("openai/gpt-4o-mini", rates 150 600 75 150 600)
    ∷ ("google/gemini-2.5-flash", rates 300 2500 30 300 2500)
    ∷ []

-- The rates of the run's configuration come first.
unfoldable pub or_table : (model : String) → Option TokenRates → Option TokenRates
unfolding pricing_table
or_table model none = get pricing_table model
or_table model (some found) = some found

unfoldable pub extra_rates_of :
    (model : String) → Option (Dict String TokenRates) → Option TokenRates
extra_rates_of model none = none
extra_rates_of model (some extra) = get extra model

unfoldable pub cost_at : Usage → Option TokenRates → Result Decimal
cost_at usage none = err value_error
cost_at usage (some r) = ok (
    (r.input_per_million * usage.input_tokens
      + r.output_per_million * usage.output_tokens
      + r.reasoning_per_million * usage.reasoning_tokens
      + r.cache_read_per_million * usage.cache_read_tokens
      + r.cache_write_per_million * usage.cache_write_tokens)
    / 1_000_000)

unfoldable pub compute_cost_usd :
    (model : String) (usage : Usage) (extra_rates : Option (Dict String TokenRates))
    → Result Decimal
unfolding cost_at or_table extra_rates_of
compute_cost_usd model usage extra_rates =
    cost_at usage (or_table model (extra_rates_of model extra_rates))
