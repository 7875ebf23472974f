-- ===== src/Live.antt =====
-- engine/app/main_live.cpp: one turn of the main loop, from the latest signal to the pairs of orders
-- that it spawns, the price of a maker order and the marks of the profit logger. The start-up, the
-- threads and the REST calls are left out. What the other threads do between two reads is in the
-- arguments: the books and the positions at each read.
pub mod Symbols
pub mod Claims
mod Tests
use holographic_market.Base.{
  ℕ, zero, suc, Bool, true, false, not, ◌&&◌, ◌||◌, List, [], ◌∷◌, Option, if◌then◌else◌, ◌==◌, ltb,
  length, get_or,
}
use holographic_market.Base.Bytes.{codes}
use holographic_market.Base.Int.{ℤ}
use holographic_market.Base.Table.{same_text}
use holographic_market.Base.Double.{Double, ◌<?◌, magnitude}
use holographic_market.Oms.Order.{Text, Side, buy, sell}
use holographic_market.Lob.{Lob, best_bid, best_ask, mid_price}
use holographic_market.Router.{RoutedEdge, Metrics, Signal, route}
use holographic_market.Engine.State.{Leg, Position}
use holographic_market.Engine.Book.{snapshot}
use holographic_market.Gateway.Texts.{SymbolPrecision, precision_for}

abbrev pub k_symbols_upper : List Text
k_symbols_upper = codes "BTCUSDT" ∷ codes "ETHUSDT" ∷ codes "SOLUSDT" ∷ codes "BNBUSDT" ∷ []

abbrev pub symbol_of : ℕ → Text
symbol_of instrument = get_or k_symbols_upper instrument []

-- The literals 10.0, 0.5, `order_size_usd` and `max_position_usd`.
pub record Limits (W : Type 0) : Type 0 where
  pub ten : W
  pub half : W
  pub order_size_usd : W
  pub max_position_usd : W

-- The reads of a book for one edge.
pub data Read : Type 0 where
  for_risk for_qty1 for_price1 for_qty2 for_price2 : Read

-- What one edge of a turn sees: the positions, and the books at each read.
pub record Seen (W : Type 0) : Type 0 where
  pub positions : List (Text × Position W)
  pub book : Read → Lob W

module _ {W : Type 0} ⦃d : Double W⦄ (lim : Limits W) where
  -- The loop that divides the tick, `n` times.
  unfoldable pub divided : ℕ → W → W
  divided zero tick = tick
  divided (suc n) tick = divided n (d.div tick lim.ten)

  unfoldable pub safe_maker_price : Text → Bool → W → W
  unfolding divided precision_for
  safe_maker_price symbol is_buy touch_price =
      let tick = divided (precision_for symbol).price_decimals d.one in
      if is_buy then d.sub touch_price tick else d.add touch_price tick

  abbrev pub side_of : Bool → Side
  side_of true = buy
  side_of false = sell

  abbrev pub touch : Bool → Lob W → ℕ → W
  touch true b instr = best_bid b instr
  touch false b instr = best_ask b instr

  -- A leg that buys or sells an instrument.
  unfoldable pub leg_of : ℕ → Bool → Lob W → Lob W → Leg W
  unfolding safe_maker_price mid_price best_bid best_ask
  leg_of instr is_buy sized priced = record {
    symbol = symbol_of instr;
    side = side_of is_buy;
    qty = d.div lim.order_size_usd (mid_price lim.half sized instr);
    price = safe_maker_price (symbol_of instr) is_buy (touch is_buy priced instr);
  }

  unfoldable pub is_over_limit : Seen W → ℕ → Bool
  unfolding snapshot
  is_over_limit seen instr =
      lim.max_position_usd
      <? d.mul (magnitude (snapshot seen.positions (symbol_of instr)).qty)
          (mid_price lim.half (seen.book for_risk) instr)

  abbrev pub pair_of : Seen W → RoutedEdge W → Leg W × Leg W
  pair_of seen edge =
      let is_long = d.nought <? edge.harmonic_flow in
      (
        leg_of edge.src_instrument is_long (seen.book for_qty1) (seen.book for_price1),
        leg_of edge.dst_instrument (not is_long) (seen.book for_qty2) (seen.book for_price2),
      )

  -- The loop over the routed edges, from edge `i` on.
  unfoldable pub pairs_from : (ℕ → Seen W) → ℕ → List (RoutedEdge W) → List (Leg W × Leg W)
  unfolding is_over_limit leg_of
  pairs_from seen i [] = []
  pairs_from seen i (edge ∷ edges) =
      let rest = pairs_from seen (suc i) edges in
      if is_over_limit (seen i) edge.src_instrument then rest else pair_of (seen i) edge ∷ rest

-- `last_sig_ts`, and the metrics of the router.
pub record Loop : Type 0 where
  pub last_sig_ts : ℕ
  pub metrics : Metrics

-- The latest topology: the flows of its edges, and their two ends.
pub record Topology (W : Type 0) : Type 0 where
  pub flows : List W
  pub edge_src : List ℤ
  pub edge_dst : List ℤ

module _ {W : Type 0} ⦃d : Double W⦄ (lim : Limits W) (threshold : W) where
  abbrev pub spawn :
      Loop → Bool → (ℕ → Seen W) → List (RoutedEdge W) × Metrics → Loop × List (Leg W × Leg W)
  spawn s blocked seen (edges, metrics) =
      (record s { metrics = metrics }, if blocked then [] else pairs_from lim seen 0 edges)

  -- `blocked` is the result of `exec.is_halted() || exec.is_at_capacity()`.
  unfoldable pub turn :
      Loop → Signal W → Topology W → Bool → (ℕ → Seen W) → Loop × List (Leg W × Leg W)
  unfolding route pairs_from
  turn s sig topo blocked seen =
      let noticed = record s { last_sig_ts = sig.timestamp_ns } in
      if (sig.timestamp_ns == s.last_sig_ts) || (sig.timestamp_ns == 0)
      then (s, [])
      else if length topo.flows == 0
      then (noticed, [])
      else spawn noticed blocked seen
          (route threshold s.metrics sig topo.flows topo.edge_src topo.edge_dst)

-- The mark of a symbol for the profit logger.
unfoldable pub mark_of : {W : Type 0} ⦃d : Double W⦄ → W → Lob W → Text → W
unfolding mid_price
mark_of ⦃d⦄ half b symbol =
    if same_text symbol (codes "BTCUSDT")
    then mid_price half b 0
    else if same_text symbol (codes "ETHUSDT")
    then mid_price half b 1
    else if same_text symbol (codes "SOLUSDT")
    then mid_price half b 2
    else if same_text symbol (codes "BNBUSDT")
    then mid_price half b 3
    else d.nought
