-- ===== src/Live/Tests.antt =====
-- A signal over the six edges of the four instruments. Amounts are whole numbers.
use holographic_market.Base.{ℕ, zero, suc, ◌≡◌, ◌≤◌, refl, arith, false, [], ◌∷◌, some, map, length}
use holographic_market.Base.Int.{ℤ, pos, negsuc}
use holographic_market.Base.Double.{whole}
use holographic_market.Oms.Order.{Text, Side, buy, sell}
use holographic_market.Lob.{make}
use holographic_market.Router.{
  top_k, Signal, best_from, fill_slots, eligible, is_used, routed, route,
}
use holographic_market.Router.Range.{AllNodes}
use holographic_market.Base.Bytes.{codes}
use holographic_market.Base.Table.{find}
use holographic_market.Engine.State.{Engine, Leg, Throttle}
use holographic_market.Live.{Limits, Seen, Loop, Topology, leg_of, is_over_limit, pairs_from, turn}
use holographic_market.Live.Claims.{claim_all, turn-claimed}

abbrev limits : Limits ℤ
limits = record {
  ten = pos 10;
  half = pos 1;
  order_size_usd = pos 100;
  max_position_usd = pos 1000;
}

abbrev topology : Topology ℤ
topology = record {
  flows = pos 12 ∷ negsuc 29 ∷ pos 25 ∷ pos 3 ∷ pos 11 ∷ pos 20 ∷ [];
  edge_src = pos 0 ∷ pos 0 ∷ pos 0 ∷ pos 1 ∷ pos 1 ∷ pos 2 ∷ [];
  edge_dst = pos 1 ∷ pos 2 ∷ pos 3 ∷ pos 2 ∷ pos 3 ∷ pos 3 ∷ [];
}

abbrev signal : Signal ℤ
signal = record { action = pos 50; timestamp_ns = 9 }

abbrev loop : Loop
loop = record {
  last_sig_ts = 4;
  metrics = record { signals_processed = 0; edges_routed = 0; signals_suppressed = 0 };
}

abbrev seen : ℕ → Seen ℤ
unfolding make
seen n = record { positions = []; book = λ r. make (pos 100) 4 1 }

nodes : AllNodes 4 topology.edge_src topology.edge_dst
nodes zero s t = (omega arith, omega arith)
nodes (suc zero) s t = (omega arith, omega arith)
nodes (suc (suc zero)) s t = (omega arith, omega arith)
nodes (suc (suc (suc zero))) s t = (omega arith, omega arith)
nodes (suc (suc (suc (suc zero)))) s t = (omega arith, omega arith)
nodes (suc (suc (suc (suc (suc zero))))) s t = (omega arith, omega arith)
nodes (suc (suc (suc (suc (suc (suc e)))))) s t = absurd (ground (arith, s))

abbrev quiet : Throttle
quiet = record { last_ns = pos 0; suppressed = 0 }

abbrev engine : Engine ℤ ℕ
engine = record {
  oms = record { slots = []; index = []; free_list = [] };
  book = [];
  seq = 7;
  max_open_orders = 40;
  switches = record {
    halted = false;
    consecutive_rejects = 0;
    pnl_high_water_mark = pos 0;
    halt_flag = false;
  };
  halt_log = quiet;
  capacity_log = quiet;
  dup_log = quiet;
  inflight_pairs = [];
  inflight_symbols = [];
  waiters = [];
  last_filled = [];
  last_commission = [];
}

abbrev traded : Leg ℤ × Leg ℤ → Text × Side × Text × Side
traded (a, b) = (a.symbol, a.side, b.symbol, b.side)

-- The first pair shorts instrument 0 and the second is long of instrument 1.
spawned_lem :
    map traded (turn limits (pos 10) loop signal topology false seen).1
    ≡ (codes "BTCUSDT", sell, codes "SOLUSDT", buy)
      ∷ (codes "ETHUSDT", buy, codes "BNBUSDT", sell)
      ∷ []
unfolding turn route fill_slots best_from eligible is_used routed pairs_from is_over_limit leg_of
    find seen
spawned_lem = refl

turn-claimed_example :
    let pairs = (turn limits (pos 10) loop signal topology false seen).1 in
    (length pairs ≤ top_k) × ((e' : Engine ℤ ℕ) × (claim_all engine pairs ≡ some e'))
turn-claimed_example =
    turn-claimed limits (pos 10) loop signal topology false seen engine nodes refl
