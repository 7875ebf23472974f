-- ===== src/Backtest/Pnl/Totals.antt =====
-- The running totals of the tracker are those of its trades, whatever edges are recorded.
use holographic_market.Base.{
  ℕ, suc, ◌+◌, ◌*◌, ◌%◌, ◌^◌, ◌≡◌, refl, ◌∙◌, Bool, true, false, List, [], ◌∷◌, ◌||◌, if◌then◌else◌,
  arith, length, get_or, set, length-set, Bool-cases, inl, inr,
}
use holographic_market.Base.Double.{Double, ◌<?◌, ◌≤?◌, magnitude}
use holographic_market.Router.{RoutedEdge}
use holographic_market.Backtest.{Maths}
use holographic_market.Backtest.Pnl.{
  EwmaPair, SignalRecord, TickRecord, PnlTracker, new_pair, update, new_tracker, skip, book, judge,
  record_edge, gross_ret,
}

won-next :
    (b : Bool) (wins w : ℕ)
    → wins ≡ w % 2 ^ 64
    → (if b then (wins + 1) % 2 ^ 64 else wins) ≡ (if b then suc w else w) % 2 ^ 64
won-next true wins w h = omega (arith, h)
won-next false wins w h = h

module _ {W : Type 0} ⦃d : Double W⦄ where
  -- The sum of the trades' returns, from the first on.
  abbrev pub total : List (TickRecord W) → W
  total [] = d.nought
  total (t ∷ ticks) = d.add (total ticks) t.pnl

  abbrev pub total_squares : List (TickRecord W) → W
  total_squares [] = d.nought
  total_squares (t ∷ ticks) = d.add (total_squares ticks) (d.mul t.pnl t.pnl)

  -- The equity after each trade, and before the first.
  abbrev pub curve : List (TickRecord W) → List W
  curve [] = d.nought ∷ []
  curve (t ∷ ticks) = total (t ∷ ticks) ∷ curve ticks

  abbrev pub winners : List (TickRecord W) → ℕ
  winners [] = 0
  winners (t ∷ ticks) = if d.nought <? t.pnl then suc (winners ticks) else winners ticks

  abbrev pub Cumulative : List (TickRecord W) → Type 0
  Cumulative [] = Unit {0}
  Cumulative (t ∷ ticks) = (t.cumulative_pnl ≡ total (t ∷ ticks)) × Cumulative ticks

  -- Every total is that of the trades; the counters count them up to wrap-around.
  pub record IsTallied (p : PnlTracker W) : Type 0 where
    pub equity : p.equity_curve ≡ curve p.ticks
    pub current : p.current_pnl ≡ total p.ticks
    pub sum : p.sum_ret ≡ total p.ticks
    pub squares : p.sum_ret2 ≡ total_squares p.ticks
    pub trades : p.n ≡ length p.ticks % 2 ^ 64
    pub won : p.wins ≡ winners p.ticks % 2 ^ 64
    pub running : Cumulative p.ticks
    pub pairs : length p.baselines ≡ 16

  book-IsTallied :
      (p : PnlTracker W) (sig : SignalRecord W) (net spread : W)
      → IsTallied p
      → IsTallied (book p sig net spread)
  unfolding book
  book-IsTallied p sig net spread v = record {
    equity = rw (v.equity, v.current) refl;
    current = rw (v.current) refl;
    sum = rw (v.sum) refl;
    squares = rw (v.squares) refl;
    trades = omega (arith, v.trades);
    won = won-next (d.nought <? net) p.wins (winners p.ticks) v.won;
    running = (rw (v.current) refl, v.running);
    pairs = v.pairs;
  }

  skip-IsTallied : (p : PnlTracker W) → IsTallied p → IsTallied (skip p)
  skip-IsTallied p v = record {
    equity = v.equity;
    current = v.current;
    sum = v.sum;
    squares = v.squares;
    trades = v.trades;
    won = v.won;
    running = v.running;
    pairs = v.pairs;
  }

  set-IsTallied :
      (p : PnlTracker W) (at : ℕ) (b : EwmaPair W)
      → IsTallied p
      → IsTallied (record p { baselines = set p.baselines at b })
  set-IsTallied p at b v = record {
    equity = v.equity;
    current = v.current;
    sum = v.sum;
    squares = v.squares;
    trades = v.trades;
    won = v.won;
    running = v.running;
    pairs = length-set p.baselines at b ∙ v.pairs;
  }

  if-IsTallied :
      (b : Bool) (p q : PnlTracker W) → IsTallied p → IsTallied q → IsTallied (if b then p else q)
  if-IsTallied true p q v w = v
  if-IsTallied false p q v w = w

module _ {W : Type 0} ⦃d : Double W⦄ (f : Maths W) where
  judge-IsTallied :
      (p : PnlTracker W) (sig : SignalRecord W) (strength z sigma spread : W)
      → IsTallied p
      → IsTallied (judge f p sig strength z sigma spread)
  unfolding judge
  judge-IsTallied p sig strength z sigma spread v =
      elim (Bool-cases ((gross_ret f strength z sigma ≤? spread) || (magnitude z <? f.half))) [
        | inl e ↦ rw e (skip-IsTallied p v)
        | inr e ↦ rw e (book-IsTallied p sig _ spread v)
      ]

  pub record_edge-IsTallied :
      (p : PnlTracker W) (edge : RoutedEdge W) (mid_src mid_dst spread_price : W)
      (sig : SignalRecord W)
      → IsTallied p
      → IsTallied (record_edge f p edge mid_src mid_dst spread_price sig)
  unfolding record_edge
  record_edge-IsTallied p edge mid_src mid_dst spread_price sig v =
      let at = edge.src_instrument * 4 + edge.dst_instrument in
      let (z, bl) = update f (get_or p.baselines at (new_pair f)) (f.log (d.div mid_dst mid_src)) in
      let kept = set-IsTallied p at bl v in
      if-IsTallied _ p _ v
        (if-IsTallied _ _ _ kept (judge-IsTallied _ sig _ (f.to_float z) _ _ kept))

  pub new_tracker-IsTallied : IsTallied (new_tracker f)
  unfolding new_tracker
  new_tracker-IsTallied = record {
    equity = refl;
    current = refl;
    sum = refl;
    squares = refl;
    trades = omega arith;
    won = omega arith;
    running = tt;
    pairs = refl;
  }
