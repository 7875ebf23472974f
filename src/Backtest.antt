-- ===== src/Backtest.antt =====
-- The offline backtest, engine/app/main_backtest.cpp, and its statistics,
-- engine/core/backtest_stats.hpp. `float` and `double` are one type here, whose operations are a
-- parameter, and so are the functions of <cmath>. The GPU pass is a parameter too.
pub mod Args
pub mod Pnl
pub mod Loop
pub mod Stats
mod Tests
use holographic_market.Base.{ℕ}

-- The functions and the literals that the program uses beyond the arithmetic of `Double`.
pub record Maths (W : Type 0) : Type 0 where
  pub log : W → W
  pub sqrt : W → W
  pub tanh : W → W
  pub copysign : W → W → W
  pub of_ℕ : ℕ → W
  -- `static_cast<float>` of a `double`
  pub to_float : W → W
  -- `active_k_alpha()`
  pub alpha : W
  -- 1e-8, 1e-5, 1e4, 5.0, 0.5, 1e-4 and 2e-4
  pub first_m2 : W
  pub k_min_sigma : W
  pub bps : W
  pub k_max_gross_bps : W
  pub half : W
  pub least_action : W
  pub two_bps : W
