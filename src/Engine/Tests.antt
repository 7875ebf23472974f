-- ===== src/Engine/Tests.antt =====
-- An engine at work on two legs, and the theorems at these inputs. Amounts are whole numbers, and
-- a channel is the list of the messages that it was sent.
use holographic_market.Base.{
  ℕ, ◌+◌, ◌≡◌, refl, Bool, true, false, List, [], ◌∷◌, none, some, arith, leb, ◌==◌, map, ==_refl,
  if◌then◌else◌,
}
use holographic_market.Base.Int.{ℤ, pos, negsuc, ◌+ℤ◌}
use holographic_market.Base.Double.{whole}
use holographic_market.Base.Table.{text_key, int_key, insert}
use holographic_market.Base.Table
use holographic_market.Oms.Index
use holographic_market.Oms.Order.{
  OrderStatus, partial, filled, canceled, rejected, buy, sell, Text, OrderRecord, blank,
  make_client_id, fnv1a64,
}
use holographic_market.Oms.Core.{updated, get, release}
use holographic_market.Engine.State.{Engine, Leg, Switches, Throttle, Channels}
use holographic_market.Engine.Breaker.Trips.{count_all, count_all-halted}
use holographic_market.Engine.Book.{snapshot, apply_fill, apply_commission}
use holographic_market.Engine.Book.Flow.{Fill, apply_fills, net, apply_fills-qty}
use holographic_market.Engine.Orders.{
  client_id, dispatch_update, release_terminal, value_or, apply_fill_pnl, charge_commission,
  charge_fill,
}
use holographic_market.Engine.Orders.Routing.{update-delivered}
use holographic_market.Engine.Orders.Profit.{apply_each, directed, apply_each-qty}
use holographic_market.Engine.Signal.{Request, Moment, claim, pair_key, market}
use holographic_market.Engine.Signal.Inflight.{Reach, Holds, Reach-Holds, start, claims}
use holographic_market.Engine.Monitor.{
  Answers, monitor_pair, await_authoritative, abandon, abandon_run, hedge_remaining,
}
use holographic_market.Engine.Monitor.Cover.{monitor_pair-ignores}

abbrev btc : Text
btc = b'B' ∷ b'T' ∷ b'C' ∷ []

abbrev eth : Text
eth = b'E' ∷ b'T' ∷ b'H' ∷ []

abbrev channels : Channels ℤ
channels = record {
  Chan = List (OrderRecord ℤ);
  fresh = [];
  try_send = λ c r. (leb (size c) 15, if leb (size c) 15 then r ∷ c else c);
}
  where
    size : List (OrderRecord ℤ) → ℕ
    size [] = 0
    size (r ∷ rs) = 1 + size rs

abbrev quiet : Throttle
quiet = record { last_ns = pos 0; suppressed = 0 }

abbrev switches : Bool → ℕ → Switches ℤ
switches off n = record {
  halted = off;
  consecutive_rejects = n;
  pnl_high_water_mark = pos 0;
  halt_flag = off;
}

abbrev engine : Engine ℤ (List (OrderRecord ℤ))
engine = record {
  oms = record { slots = []; index = []; free_list = [] };
  book = [];
  seq = 7;
  max_open_orders = 40;
  switches = switches false 0;
  halt_log = quiet;
  capacity_log = quiet;
  dup_log = quiet;
  inflight_pairs = [];
  inflight_symbols = [];
  waiters = [];
  last_filled = [];
  last_commission = [];
}

abbrev bounced : List OrderStatus
bounced = rejected ∷ canceled ∷ rejected ∷ partial ∷ rejected ∷ rejected ∷ rejected ∷ []

count_all-halted_example : (count_all (switches false 0) bounced).halted ≡ true
count_all-halted_example = count_all-halted bounced (switches false 0) refl refl refl (omega arith)

abbrev trades : List (Fill ℤ)
trades =
    record { symbol = btc; side = buy; delta = pos 4; price = pos 100 }
    ∷ record { symbol = eth; side = buy; delta = pos 1; price = pos 9 }
    ∷ record { symbol = btc; side = sell; delta = pos 6; price = pos 110 }
    ∷ []

-- The second trade of the symbol reverses the position, with a profit of 4 * 10.
trades_lem :
    snapshot (apply_fills [] trades) btc
    ≡ record { qty = negsuc 1; avg_price = pos 110; realized_pnl = pos 40 }
unfolding snapshot apply_fills apply_fill Table.find Table.assign
trades_lem = refl

apply_fills-qty_example : (snapshot (apply_fills [] trades) btc).qty ≡ net btc (pos 0) trades
unfolding Table.find snapshot
apply_fills-qty_example = apply_fills-qty trades [] btc

abbrev id_7 : Text
id_7 = 104 ∷ 111 ∷ 108 ∷ 111 ∷ 45 ∷ 55 ∷ []

abbrev order_7 : OrderRecord ℤ
order_7 = record blank {
  client_order_id = make_client_id (client_id 7);
  qty = pos 10;
  exchange_order_id = pos 77;
}

abbrev awaited : Engine ℤ (List (OrderRecord ℤ))
awaited = record engine { waiters = (fnv1a64 (client_id 7), []) ∷ [] }

update-delivered_example :
    let r' = updated order_7 partial (pos 4) (pos 100) (pos 77) (pos 9) (pos 1) in
    Index.find 3 (dispatch_update channels awaited r').waiters ≡ (
      if 3 == fnv1a64 (client_id 7)
      then some (channels.try_send [] r').1
      else Index.find 3 awaited.waiters)
unfolding Index.find
update-delivered_example =
    update-delivered channels awaited 7 [] order_7 partial (pos 4) (pos 100) (pos 77) (pos 9)
      (pos 1) refl (find_only (fnv1a64 (client_id 7))) 3
  where
    find_only : (k : ℕ) → Index.find {V = List (OrderRecord ℤ)} k ((k, []) ∷ []) ≡ some []
    find_only k = rw (Index.find, ==_refl k) refl

abbrev leg_btc : Leg ℤ
leg_btc = record { symbol = btc; side = buy; qty = pos 10; price = pos 100 }

abbrev leg_eth : Leg ℤ
leg_eth = record { symbol = eth; side = sell; qty = pos 20; price = pos 50 }

abbrev fill_4 : OrderRecord ℤ
fill_4 = record order_7 {
  status = partial;
  filled_qty = pos 4;
  avg_fill_price = pos 100;
  cumulative_commission = pos 1;
}

abbrev fill_10 : OrderRecord ℤ
fill_10 = record order_7 { status = filled; filled_qty = pos 10; avg_fill_price = pos 106 }

apply_each-qty_example :
    (snapshot (apply_each engine leg_btc (fill_4 ∷ fill_10 ∷ [])).book btc).qty
    ≡ pos 0 +ℤ directed buy (pos 10)
unfolding snapshot Table.find value_or
apply_each-qty_example =
    apply_each-qty (fill_4 ∷ fill_10 ∷ []) engine leg_btc (pos 77) (pos 0) refl
      (refl, refl, omega arith, (refl, refl, omega arith, tt))

-- A fill that is reported without a price counts as charged, and is never booked.
unpriced_lem :
    (snapshot
      (apply_each engine leg_btc (record fill_4 { avg_fill_price = pos 0 } ∷ fill_10 ∷ [])).book
      btc).qty
    ≡ pos 6
unfolding snapshot Table.find value_or apply_each apply_fill_pnl charge_commission charge_fill
    Table.assign apply_fill apply_commission
unpriced_lem = refl

-- Two pairs are claimed, and the first one ends.
abbrev busy : Engine ℤ (List (OrderRecord ℤ))
busy = record engine { inflight_pairs = pair_key btc eth ∷ []; inflight_symbols = eth ∷ btc ∷ [] }

busy-Reach : Reach busy ((btc, eth) ∷ [])
unfolding claim insert Table.member
busy-Reach = claims btc eth (start engine refl) refl

Reach-Holds_example : Holds busy ((btc, eth) ∷ [])
Reach-Holds_example = Reach-Holds busy ((btc, eth) ∷ []) busy-Reach

abbrev moment : Moment ℤ (List (OrderRecord ℤ))
moment = record {
  log_now = pos 5_000_000_000;
  clock1 = (pos 5, pos 5);
  clock2 = (pos 6, pos 6);
  send1_ok = true;
  send2_ok = true;
  during1 = λ e. e;
  during2 = λ e. e;
}

-- The first leg is filled, the other one is not in time: it is cancelled with 4 of 20 filled.
abbrev cancelled_partner : OrderRecord ℤ
cancelled_partner = record fill_4 { status = canceled; qty = pos 20; exchange_order_id = pos 78 }

abbrev slow : Answers ℤ (List (OrderRecord ℤ))
slow = record {
  first_is_1 = true;
  first_rec = fill_10;
  race = none;
  cancel_ok = true;
  ack = some (record fill_4 { status = canceled; qty = pos 20; exchange_order_id = pos 78 });
  market_ok = true;
  hedge_clock = (pos 9, pos 9);
  during_first = λ e. e;
  during_race = λ e. e;
  during_cancel = λ e. e;
  during_ack = λ e. e;
  during_market = λ e. e;
}

abbrev dropped : Answers ℤ (List (OrderRecord ℤ))
dropped = record slow { first_rec = record fill_4 { status = canceled } }

monitor_pair-ignores_example :
    monitor_pair channels engine
      (client_id 5)
      leg_btc
      (client_id 6)
      leg_eth
      (record dropped { first_rec = record blank { status = rejected } })
    ≡ monitor_pair channels engine (client_id 5) leg_btc (client_id 6) leg_eth dropped
monitor_pair-ignores_example =
    monitor_pair-ignores channels engine (client_id 5) leg_btc (client_id 6) leg_eth dropped
      (record blank { status = rejected }) refl refl

-- Whether a request sells at the market, and how much.
abbrev kind_of : Request ℤ → Bool × List ℤ
kind_of (market id symbol sell qty) = (true, qty ∷ [])
kind_of _ = (false, [])

-- The cancel is followed by an order for the rest of the partner in its own direction.
abandon_lem :
    map kind_of (abandon channels engine 5 (client_id 6) leg_eth dropped).sent
    ≡ (false, []) ∷ (true, pos 16 ∷ []) ∷ []
unfolding abandon abandon_run hedge_remaining await_authoritative release_terminal get release
    Index.find
abandon_lem = refl
