-- ===== src/Backtest/Pnl.antt =====
-- `EwmaPair` and `PnlTracker`: the trades that routed edges make, with their running totals.
pub mod Totals
use holographic_market.Base.{
  ℕ, ◌+◌, ◌*◌, ◌%◌, ◌^◌, ◌≡◌, refl, sym, subst, Bool, true, false, not, List, [], ◌∷◌, ◌&&◌, ◌||◌,
  if◌then◌else◌, arith, length, get_or, set, replicate, length-set, leb, Bool-cases, inl, inr, ap,
}
use holographic_market.Base.Int.{ℤ}
use holographic_market.Base.Double.{Double, ◌<?◌, ◌≤?◌, negate, least, magnitude}
use holographic_market.Router.{RoutedEdge}
use holographic_market.Backtest.{Maths}

pub record EwmaPair (W : Type 0) : Type 0 where
  pub mu : W
  pub m2 : W
  pub warm : Bool

-- The fields of `cuda::SignalRecord` that a trade is recorded with.
pub record SignalRecord (W : Type 0) : Type 0 where
  pub timestamp_ns : ℕ
  pub yang_mills_action : W
  pub max_curl : W
  pub floer_asd_residual : W
  pub floer_hf1 : ℤ

pub record TickRecord (W : Type 0) : Type 0 where
  pub timestamp_ns : ℕ
  pub pnl : W
  pub cumulative_pnl : W
  pub yang_mills_action : W
  pub max_curl : W
  pub floer_asd_residual : W
  pub betti_1 : ℤ
  pub spread_bps : W

-- `equity_curve` and `ticks` have the latest entry first.
pub record PnlTracker (W : Type 0) : Type 0 where
  pub equity_curve : List W
  pub ticks : List (TickRecord W)
  pub current_pnl : W
  pub sum_ret : W
  pub sum_ret2 : W
  pub n : ℕ
  pub wins : ℕ
  pub filtered : ℕ
  pub prev_signal_ts_ns : ℕ
  pub baselines : List (EwmaPair W)

abbrev pub k_feed_n_instruments : ℕ
k_feed_n_instruments = 4

abbrev pub count : ℕ → ℕ
count n = (n + 1) % 2 ^ 64

module _ {W : Type 0} ⦃d : Double W⦄ (f : Maths W) where
  abbrev pub new_pair : EwmaPair W
  new_pair = record { mu = d.nought; m2 = f.first_m2; warm = false }

  unfoldable pub sigma : W → W
  sigma m2 =
      let floor = d.mul f.k_min_sigma f.k_min_sigma in f.sqrt (if m2 <? floor then floor else m2)

  abbrev pub update_by : Bool → EwmaPair W → W → W × EwmaPair W
  update_by false b log_ratio = (d.nought, record { mu = log_ratio; m2 = f.first_m2; warm = true })
  update_by true b log_ratio =
      let diff = d.sub log_ratio b.mu in
      let mu = d.add b.mu (d.mul f.alpha diff) in
      let m2 = d.add (d.mul (d.sub d.one f.alpha) b.m2) (d.mul (d.mul f.alpha diff) diff) in
      (d.div (d.sub log_ratio mu) (sigma m2), record { mu = mu; m2 = m2; warm = true })

  -- The score, and the pair after the call.
  unfoldable pub update : EwmaPair W → W → W × EwmaPair W
  unfolding sigma
  update b log_ratio = update_by b.warm b log_ratio

  unfoldable pub sigma_bps : EwmaPair W → W
  unfolding sigma
  sigma_bps b = f.to_float (d.mul (sigma b.m2) f.bps)

  abbrev pub gross_ret : W → W → W → W
  gross_ret strength z sigma =
      least (d.mul (d.mul (magnitude strength) (magnitude z)) sigma) f.k_max_gross_bps

  abbrev pub direction : W → W → W
  direction strength z = d.mul (negate (f.copysign d.one z)) (f.copysign d.one strength)

  unfoldable pub new_tracker : PnlTracker W
  new_tracker = record {
    equity_curve = d.nought ∷ [];
    ticks = [];
    current_pnl = d.nought;
    sum_ret = d.nought;
    sum_ret2 = d.nought;
    n = 0;
    wins = 0;
    filtered = 0;
    prev_signal_ts_ns = 0;
    baselines = replicate (k_feed_n_instruments * k_feed_n_instruments) new_pair;
  }

module _ {W : Type 0} ⦃d : Double W⦄ where
  abbrev pub skip : PnlTracker W → PnlTracker W
  skip p = record p { filtered = count p.filtered }

  -- The end of `record`, for a trade that is made.
  unfoldable pub book : PnlTracker W → SignalRecord W → W → W → PnlTracker W
  book p sig net_ret spread_bps =
      let total = d.add p.current_pnl net_ret in
      record p {
        sum_ret = d.add p.sum_ret net_ret;
        sum_ret2 = d.add p.sum_ret2 (d.mul net_ret net_ret);
        n = count p.n;
        wins = if d.nought <? net_ret then count p.wins else p.wins;
        current_pnl = total;
        equity_curve = total ∷ p.equity_curve;
        ticks =
            record {
              timestamp_ns = sig.timestamp_ns;
              pnl = net_ret;
              cumulative_pnl = total;
              yang_mills_action = sig.yang_mills_action;
              max_curl = sig.max_curl;
              floer_asd_residual = sig.floer_asd_residual;
              betti_1 = sig.floer_hf1;
              spread_bps = spread_bps;
            }
            ∷ p.ticks;
        prev_signal_ts_ns = sig.timestamp_ns;
      }

module _ {W : Type 0} ⦃d : Double W⦄ (f : Maths W) where
  -- `record` from the tests on, with the baseline's score.
  unfoldable pub judge : PnlTracker W → SignalRecord W → W → W → W → W → PnlTracker W
  unfolding book
  judge p sig strength z sigma spread_bps =
      let gross = gross_ret f strength z sigma in
      let net = d.mul (direction f strength z) (d.sub gross spread_bps) in
      if (gross ≤? spread_bps) || (magnitude z <? f.half) then skip p else book p sig net spread_bps

  abbrev pub out_of_range : RoutedEdge W → W → W → Bool
  out_of_range edge mid_src mid_dst =
      (mid_src ≤? d.nought)
      || (mid_dst ≤? d.nought)
      || (leb k_feed_n_instruments edge.src_instrument
          || leb k_feed_n_instruments edge.dst_instrument)

  unfoldable pub record_edge :
      PnlTracker W → RoutedEdge W → W → W → W → SignalRecord W → PnlTracker W
  unfolding judge update sigma_bps
  record_edge p edge mid_src mid_dst spread_price sig =
      let at = edge.src_instrument * k_feed_n_instruments + edge.dst_instrument in
      let (z, bl) = update f (get_or p.baselines at (new_pair f)) (f.log (d.div mid_dst mid_src)) in
      let p' = record p { baselines = set p.baselines at bl } in
      if out_of_range edge mid_src mid_dst
      then p
      else if not bl.warm
      then p'
      else judge p' sig (f.tanh edge.harmonic_flow) (f.to_float z) (sigma_bps f bl)
          (d.mul (d.div spread_price mid_src) f.bps)
