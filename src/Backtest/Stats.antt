-- ===== src/Backtest/Stats.antt =====
-- `BacktestEvaluator::evaluate`, engine/core/backtest_stats.hpp, and what its drawdown is.
pub mod Drawdown
use holographic_market.Base.{
  ℕ, ◌≡◌, refl, sym, ap, ◌∙◌, subst, Bool, true, false, not, List, [], ◌∷◌, if◌then◌else◌, length,
  ltb, ◌==◌, ◌⊎◌, inl, inr, Bool-cases,
}
use holographic_market.Base.Double.{Double, IsOrdered, ◌<?◌}

pub record BacktestResult (W : Type 0) : Type 0 where
  pub sharpe_ratio : W
  pub max_drawdown : W
  pub win_rate : W
  pub annualized_volatility : W
  pub total_return : W
  pub mean_return : W
  pub n_trades : ℕ
  pub n_wins : ℕ

module _ {W : Type 0} ⦃d : Double W⦄ where
  abbrev pub no_result : BacktestResult W
  no_result = record {
    sharpe_ratio = d.nought;
    max_drawdown = d.nought;
    win_rate = d.nought;
    annualized_volatility = d.nought;
    total_return = d.nought;
    mean_return = d.nought;
    n_trades = 0;
    n_wins = 0;
  }

  -- The returns between neighbours; one from nothing is left out.
  unfoldable pub returns_from : W → List W → List W
  returns_from prev [] = []
  returns_from prev (x ∷ curve) =
      let rest = returns_from x curve in
      if d.eq prev d.nought then rest else d.div (d.sub x prev) prev ∷ rest

  -- `std::accumulate`, and the sum of squared distances.
  unfoldable pub accumulate : W → List W → W
  accumulate sum [] = sum
  accumulate sum (x ∷ xs) = accumulate (d.add sum x) xs

  unfoldable pub squares_from : W → W → List W → W
  squares_from mean var [] = var
  squares_from mean var (x ∷ xs) =
      let away = d.sub x mean in squares_from mean (d.add var (d.mul away away)) xs

  -- The peak after a point, and the fall from it.
  abbrev pub raise : W → W → W
  raise peak x = if peak <? x then x else peak

  abbrev pub fall : W → W → W
  fall peak x = if d.nought <? peak then d.div (d.sub peak x) peak else d.nought

  -- The loop behind `max_drawdown`.
  unfoldable pub drawdown_from : W → W → List W → W
  drawdown_from peak max_dd [] = max_dd
  drawdown_from peak max_dd (x ∷ curve) =
      let dd = fall (raise peak x) x in
      drawdown_from (raise peak x) (if max_dd <? dd then dd else max_dd) curve

  abbrev pub last_of : W → List W → W
  last_of x [] = x
  last_of x (y ∷ curve) = last_of y curve

  module _ (sqrt : W → W) (of_ℕ : ℕ → W) where
    abbrev pub win_rate_of : ℕ → ℕ → W
    win_rate_of wins trades = if ltb 0 trades then d.div (of_ℕ wins) (of_ℕ trades) else d.nought

    -- The part behind the collection of the returns.
    unfoldable pub evaluate_returns : W → List W → List W → ℕ → ℕ → W → BacktestResult W
    unfolding accumulate squares_from drawdown_from
    evaluate_returns start curve [] wins trades ticks_per_year = record no_result {
      n_trades = trades;
      n_wins = wins;
      win_rate = win_rate_of wins trades;
    }
    evaluate_returns start curve (r ∷ returns) wins trades ticks_per_year =
        let n = of_ℕ (length (r ∷ returns)) in
        let mean = d.div (accumulate d.nought (r ∷ returns)) n in
        let stdv = sqrt (d.div (squares_from mean d.nought (r ∷ returns)) n) in
        record {
          sharpe_ratio =
              if d.tiny <? stdv then d.mul (d.div mean stdv) (sqrt ticks_per_year) else d.nought;
          max_drawdown = drawdown_from start d.nought curve;
          win_rate = win_rate_of wins trades;
          annualized_volatility = d.mul stdv (sqrt ticks_per_year);
          total_return =
              if not (d.eq start d.nought)
              then d.div (d.sub (last_of start curve) start) start
              else d.nought;
          mean_return = mean;
          n_trades = trades;
          n_wins = wins;
        }

    -- Fewer than two points give the empty result.
    unfoldable pub evaluate : List W → ℕ → ℕ → W → BacktestResult W
    unfolding evaluate_returns returns_from
    evaluate [] wins trades ticks_per_year = no_result
    evaluate (start ∷ []) wins trades ticks_per_year = no_result
    evaluate (start ∷ x ∷ curve) wins trades ticks_per_year =
        evaluate_returns start (x ∷ curve) (returns_from start (x ∷ curve)) wins trades
          ticks_per_year
