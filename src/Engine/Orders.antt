-- ===== src/Engine/Orders.antt =====
-- The order identifiers, the waiters of an order's updates, and the profit bookkeeping of fills.
-- A waiter is a shared channel: `get_or_create_waiter` returns a pointer, named here by the
-- channel's key.
pub mod Ids
pub mod Routing
pub mod Profit
use holographic_market.Base.{
  ℕ, suc, zero, ◌+◌, ◌/◌, ◌%◌, ◌^◌, Bool, ◌&&◌, List, [], ◌∷◌, ◌++◌, Option, none, some, ltb,
  if◌then◌else◌,
}
use holographic_market.Base.Int.{ℤ}
use holographic_market.Base.Double.{Double, ◌<?◌}
use holographic_market.Base.Table.{int_key}
use holographic_market.Base.Table
use holographic_market.Oms.Index
use holographic_market.Oms.Order.{Text, Side, OrderRecord, fnv1a64, view}
use holographic_market.Oms.Core.{register_new_order, release}
use holographic_market.Engine.State.{Engine, Leg, Channels, Position}
use holographic_market.Engine.Breaker.{count_reject}
use holographic_market.Engine.Book.{apply_fill, apply_commission}

-- `std::to_string`: at most `fuel` digits, before the text `acc`.
unfoldable pub digits_before : ℕ → ℕ → Text → Text
digits_before zero n acc = acc
digits_before (suc fuel) n acc =
    let digit = 48 + n % 10 in
    let more = digits_before fuel (n / 10) (digit ∷ acc) in if ltb n 10 then digit ∷ acc else more

-- A 64-bit number has at most twenty digits.
unfoldable pub to_string : ℕ → Text
unfolding digits_before
to_string n = digits_before 20 n []

-- "holo-"
abbrev pub id_prefix : Text
id_prefix = 104 ∷ 111 ∷ 108 ∷ 111 ∷ 45 ∷ []

unfoldable pub client_id : ℕ → Text
client_id seq = id_prefix ++ to_string seq

unfoldable pub value_or : {W : Type 0} → W → Option W → W
value_or w none = w
value_or w (some v) = v

module _ {W : Type 0} ⦃d : Double W⦄ (ch : Channels W) where
  unfoldable pub next_client_id : Engine W ch.Chan → Text × Engine W ch.Chan
  next_client_id e = (client_id e.seq, record e { seq = (e.seq + 1) % 2 ^ 64 })

  unfoldable pub get_or_create_waiter : Engine W ch.Chan → ℕ → Engine W ch.Chan
  get_or_create_waiter e key = elim (Index.find key e.waiters) [
    | none ↦ record e { waiters = Index.assign key ch.fresh e.waiters }
    | some c ↦ e
  ]

  -- The update is lost if the channel is full: `try_send` then leaves it unchanged.
  unfoldable pub deliver : Engine W ch.Chan → OrderRecord W → Engine W ch.Chan
  deliver e rec =
      let key = fnv1a64 (view rec.client_order_id) in
      elim (Index.find key e.waiters) [
        | none ↦ e
        | some c ↦ record e { waiters = Index.assign key (ch.try_send c rec).1 e.waiters }
      ]

  unfoldable pub dispatch_update : Engine W ch.Chan → OrderRecord W → Engine W ch.Chan
  dispatch_update e rec = deliver (record e { switches = count_reject e.switches rec.status }) rec

  -- `oms_.register_new_order`, whose callback is `dispatch_update`.
  unfoldable pub register : Engine W ch.Chan → Text → Leg W → W → W → ℤ × ℤ → Engine W ch.Chan
  register e id leg price qty (now, mono) =
      let (key, oms, rec) = register_new_order e.oms id leg.symbol leg.side price qty now mono in
      dispatch_update (record e { oms = oms }) rec

  unfoldable pub release_terminal : Engine W ch.Chan → ℕ → Engine W ch.Chan
  release_terminal e key = record e { oms = release e.oms key; waiters = Index.erase key e.waiters }

-- The part of the state that a fill changes.
pub record Ledger (W : Type 0) : Type 0 where
  pub book : List (Text × Position W)
  pub last_filled : List (ℤ × W)
  pub last_commission : List (ℤ × W)

module _ {W : Type 0} ⦃d : Double W⦄ where
  unfoldable pub charge_fill : Ledger W → OrderRecord W → Leg W → Ledger W
  charge_fill l rec leg =
      let prev = value_or d.nought (Table.find rec.exchange_order_id l.last_filled) in
      let delta = d.sub rec.filled_qty prev in
      record l {
        book =
            if (d.tiny <? delta) && (d.nought <? rec.avg_fill_price)
            then apply_fill l.book leg.symbol leg.side delta rec.avg_fill_price
            else l.book;
        last_filled = Table.assign rec.exchange_order_id rec.filled_qty l.last_filled;
      }

  unfoldable pub charge_commission : Ledger W → OrderRecord W → Leg W → Ledger W
  charge_commission l rec leg =
      let prev_comm = value_or d.nought (Table.find rec.exchange_order_id l.last_commission) in
      let comm_delta = d.sub rec.cumulative_commission prev_comm in
      record l {
        book =
            if d.tiny <? comm_delta then apply_commission l.book leg.symbol comm_delta else l.book;
        last_commission =
            Table.assign rec.exchange_order_id rec.cumulative_commission l.last_commission;
      }

  abbrev pub ledger : {C : Type 0} → Engine W C → Ledger W
  ledger e = record {
    book = e.book;
    last_filled = e.last_filled;
    last_commission = e.last_commission;
  }

  unfoldable pub apply_fill_pnl : {C : Type 0} → Engine W C → OrderRecord W → Leg W → Engine W C
  apply_fill_pnl e rec leg =
      let l = charge_commission (charge_fill (ledger e) rec leg) rec leg in
      record e { book = l.book; last_filled = l.last_filled; last_commission = l.last_commission }
