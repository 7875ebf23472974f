-- ===== src/Engine/Monitor.antt =====
-- `monitor_pair` and the coroutines around it. A coroutine is one function from what its awaits
-- answer to what it has sent and the state it leaves. What other code does to the state during an
-- await is a function among the answers; a request that throws ends the coroutine there.
pub mod Cover
use holographic_market.Base.{
  ℕ, Bool, true, false, List, [], ◌∷◌, ◌++◌, Option, none, some, map, if◌then◌else◌,
}
use holographic_market.Base.Int.{ℤ}
use holographic_market.Base.Double.{Double, ◌<?◌, ◌≤?◌}
use holographic_market.Oms.Order.{
  Text, Side, OrderRecord, filled, is_status, is_terminal, fnv1a64, blank, view,
}
use holographic_market.Oms.Core.{get, get_stale_orders}
use holographic_market.Engine.State.{Engine, Leg, Channels}
use holographic_market.Engine.Orders.{
  next_client_id, register, get_or_create_waiter, release_terminal, apply_fill_pnl, value_or,
}
use holographic_market.Engine.Signal.{Request, market, cancel}

pub data Ending : Type 0 where
  completed threw : Ending
  watching : (hedge_id : Text) → Ending  -- `watch_hedge` is running

pub record Run (W C : Type 0) : Type 0 where
  pub sent : List (Request W)
  pub ending : Ending
  pub engine : Engine W C

-- What the awaits of `monitor_pair` answer.
pub record Answers (W C : Type 0) : Type 0 where
  pub first_is_1 : Bool
  pub first_rec : OrderRecord W
  pub race : Option (OrderRecord W)  -- `none` if the timer of the leg is first
  pub cancel_ok : Bool
  pub ack : Option (OrderRecord W)  -- `none` if the timer of the cancel is first
  pub market_ok : Bool
  pub hedge_clock : ℤ × ℤ
  pub during_first : Engine W C → Engine W C
  pub during_race : Engine W C → Engine W C
  pub during_cancel : Engine W C → Engine W C
  pub during_ack : Engine W C → Engine W C
  pub during_market : Engine W C → Engine W C

module _ {W : Type 0} ⦃d : Double W⦄ where
  -- The first message of a channel with a terminal status, and the messages after it.
  unfoldable pub wait_for_terminal :
      List (OrderRecord W) → Option (OrderRecord W × List (OrderRecord W))
  wait_for_terminal [] = none
  wait_for_terminal (r ∷ rs) =
      let rest = wait_for_terminal rs in if is_terminal r.status then some (r, rs) else rest

  abbrev pub rest_of : OrderRecord W → W
  rest_of r = d.sub r.qty r.filled_qty

  -- One tick of the sweeper.
  unfoldable pub sweep : {C : Type 0} → Engine W C → ℤ → ℤ → List (Request W)
  sweep e mono max_age =
      map (λ r. cancel (view r.symbol) (view r.client_order_id))
        (get_stale_orders e.oms mono max_age)

module _ {W : Type 0} ⦃d : Double W⦄ (ch : Channels W) where
  unfoldable pub hedge_remaining : Engine W ch.Chan → Leg W → W → Answers W ch.Chan → Run W ch.Chan
  hedge_remaining e leg remaining a =
      let (hedge_id, e1) = next_client_id ch e in
      let e2 = register ch e1 hedge_id leg d.nought remaining a.hedge_clock in
      let e3 = a.during_market (get_or_create_waiter ch e2 (fnv1a64 hedge_id)) in
      if remaining ≤? d.tiny then record { sent = []; ending = completed; engine = e } else record {
        sent = market hedge_id leg.symbol leg.side remaining ∷ [];
        ending = if a.market_ok then watching hedge_id else threw;
        engine = e3;
      }

  abbrev pub hedge_leg : Text → Side → OrderRecord W → Leg W
  hedge_leg symbol side rec = record {
    symbol = symbol;
    side = side;
    qty = rec.filled_qty;
    price = rec.avg_fill_price;
  }

  unfoldable pub watch_hedge :
      Engine W ch.Chan → Text → Text → Side → OrderRecord W → Engine W ch.Chan
  watch_hedge e hedge_id symbol side rec =
      release_terminal ch
        (if d.nought <? rec.filled_qty then apply_fill_pnl e rec (hedge_leg symbol side rec) else e)
        (fnv1a64 hedge_id)

  -- The answer to the cancel; without one, the last known record.
  abbrev pub acknowledged :
      Engine W ch.Chan → ℕ → Option (OrderRecord W) → OrderRecord W × Engine W ch.Chan
  acknowledged e key none = (value_or blank (get e.oms key), e)
  acknowledged e key (some r) = (r, e)

  abbrev pub unless_settled :
      Option (OrderRecord W)
      → Engine W ch.Chan
      → OrderRecord W × Engine W ch.Chan
      → OrderRecord W × Engine W ch.Chan
  unless_settled none e waited = waited
  unless_settled (some snap) e waited = if is_terminal snap.status then (snap, e) else waited

  unfoldable pub await_authoritative :
      Engine W ch.Chan → ℕ → Answers W ch.Chan → OrderRecord W × Engine W ch.Chan
  await_authoritative e key a =
      unless_settled (get e.oms key) e (acknowledged (a.during_ack e) key a.ack)

  -- More requests before those of a run.
  abbrev pub after_request : Request W → Run W ch.Chan → Run W ch.Chan
  after_request r run = record run { sent = r ∷ run.sent }

  abbrev pub charged_if : Bool → Engine W ch.Chan → OrderRecord W → Leg W → Engine W ch.Chan
  charged_if b e r leg = if b then apply_fill_pnl e r leg else e

  -- What follows the cancel of the partner, `e1` and `e3` as in `late_run`.
  unfoldable pub abandon_run :
      Engine W ch.Chan
      → Engine W ch.Chan
      → Leg W
      → OrderRecord W
      → Request W
      → Answers W ch.Chan
      → Bool
      → Run W ch.Chan
  abandon_run e1 e3 leg partner request a false = record {
    sent = request ∷ [];
    ending = threw;
    engine = e1;
  }
  abandon_run e1 e3 leg partner request a true =
      let hedged = hedge_remaining (apply_fill_pnl e3 partner leg) leg (rest_of partner) a in
      if d.nought <? partner.filled_qty
      then after_request request hedged
      else record { sent = request ∷ []; ending = completed; engine = e3 }

  -- The first leg has settled without being filled.
  unfoldable pub abandon : Engine W ch.Chan → ℕ → Text → Leg W → Answers W ch.Chan → Run W ch.Chan
  abandon e filled_key resting_id resting_leg a =
      let key = fnv1a64 resting_id in
      let e1 = a.during_cancel (release_terminal ch e filled_key) in
      let (partner, e2) = await_authoritative e1 key a in
      abandon_run e1 (release_terminal ch e2 key) resting_leg partner
        (cancel resting_leg.symbol resting_id) a a.cancel_ok

  -- The resting leg has settled by itself in time.
  unfoldable pub resting_settled :
      Engine W ch.Chan → Text → Leg W → OrderRecord W → Answers W ch.Chan → Run W ch.Chan
  resting_settled e resting_id resting_leg r a =
      let key = fnv1a64 resting_id in
      let partly = charged_if (d.nought <? r.filled_qty) e r resting_leg in
      let hedged = hedge_remaining (release_terminal ch partly key) resting_leg (rest_of r) a in
      if is_status r.status filled
      then record {
        sent = [];
        ending = completed;
        engine = release_terminal ch (apply_fill_pnl e r resting_leg) key;
      }
      else hedged

  -- What follows the cancel: `e1` is the state if its request throws, and `e3` the state once the
  -- record `final` is known.
  unfoldable pub late_run :
      Engine W ch.Chan
      → Engine W ch.Chan
      → Leg W
      → OrderRecord W
      → Request W
      → Answers W ch.Chan
      → Bool
      → Run W ch.Chan
  late_run e1 e3 leg final request a false = record {
    sent = request ∷ [];
    ending = threw;
    engine = e1;
  }
  late_run e1 e3 leg final request a true =
      let partly = charged_if (d.nought <? final.filled_qty) e3 final leg in
      let hedged = hedge_remaining partly leg (rest_of final) a in
      if is_status final.status filled
      then record { sent = request ∷ []; ending = completed; engine = apply_fill_pnl e3 final leg }
      else after_request request hedged

  -- The resting leg has not settled in time.
  unfoldable pub resting_late : Engine W ch.Chan → Text → Leg W → Answers W ch.Chan → Run W ch.Chan
  resting_late e resting_id resting_leg a =
      let key = fnv1a64 resting_id in
      let e1 = a.during_cancel e in
      let (final, e2) = await_authoritative e1 key a in
      late_run e1 (release_terminal ch e2 key) resting_leg final
        (cancel resting_leg.symbol resting_id) a a.cancel_ok

  -- The race of the resting leg against its timer.
  unfoldable pub after_race :
      Engine W ch.Chan → Text → Leg W → Answers W ch.Chan → Option (OrderRecord W) → Run W ch.Chan
  after_race e resting_id resting_leg a none = resting_late e resting_id resting_leg a
  after_race e resting_id resting_leg a (some r) = resting_settled e resting_id resting_leg r a

  -- The state when the resting leg's race is over, the first leg being filled.
  abbrev pub after_first : Engine W ch.Chan → Text → Leg W → Answers W ch.Chan → Engine W ch.Chan
  after_first e first_id first_leg a = a.during_race (
      release_terminal ch (apply_fill_pnl (a.during_first e) a.first_rec first_leg)
        (fnv1a64 first_id))

  abbrev pub either : {A : Type 0} → Bool → A → A → A
  either b x y = if b then x else y

  unfoldable pub monitor_pair :
      Engine W ch.Chan → Text → Leg W → Text → Leg W → Answers W ch.Chan → Run W ch.Chan
  monitor_pair e id1 leg1 id2 leg2 a =
      let first_id = either a.first_is_1 id1 id2 in
      let first_leg = either a.first_is_1 leg1 leg2 in
      let resting_id = either a.first_is_1 id2 id1 in
      let resting_leg = either a.first_is_1 leg2 leg1 in
      if is_status a.first_rec.status filled
      then after_race (after_first e first_id first_leg a) resting_id resting_leg a a.race
      else abandon (a.during_first e) (fnv1a64 first_id) resting_id resting_leg a
