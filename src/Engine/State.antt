-- ===== src/Engine/State.antt =====
-- The state of `ExecutionEngine`. Its members are guarded by mutexes or atomic: each access is one
-- step, and what other threads do between two accesses is an argument where it matters.
use holographic_market.Base.{ℕ, Bool, List}
use holographic_market.Base.Int.{ℤ}
use holographic_market.Base.Double.{Double}
use holographic_market.Oms.Order.{Text, Side, OrderRecord}
use holographic_market.Oms.Core.{Oms}

-- `ArbLeg`
pub record Leg (W : Type 0) : Type 0 where
  pub symbol : Text
  pub side : Side
  pub qty : W
  pub price : W

-- `PnlBook::Position`
pub record Position (W : Type 0) : Type 0 where
  pub qty : W
  pub avg_price : W
  pub realized_pnl : W

-- A line of the log per drop reason: when it was last written, and what was left out since.
pub record Throttle : Type 0 where
  pub last_ns : ℤ
  pub suppressed : ℕ

-- What the code asks of a bounded channel of the Asio library: a new one, and `try_send`.
pub record Channels (W : Type 0) : Type 1 where
  pub Chan : Type 0
  pub fresh : Chan
  pub try_send : Chan → OrderRecord W → Bool × Chan

module _ {W : Type 0} ⦃d : Double W⦄ where
  -- `Position{}`
  abbrev pub flat : Position W
  flat = record { qty = d.nought; avg_price = d.nought; realized_pnl = d.nought }

-- The switches that halt new signals.
pub record Switches (W : Type 0) : Type 0 where
  pub halted : Bool
  pub consecutive_rejects : ℕ
  pub pnl_high_water_mark : W
  pub halt_flag : Bool  -- whether the file holo_halt.flag exists

pub record Engine (W C : Type 0) : Type 0 where
  pub oms : Oms W
  pub book : List (Text × Position W)
  pub seq : ℕ
  pub max_open_orders : ℕ
  pub switches : Switches W
  pub halt_log : Throttle
  pub capacity_log : Throttle
  pub dup_log : Throttle
  pub inflight_pairs : List Text
  pub inflight_symbols : List Text
  pub waiters : List (ℕ × C)
  pub last_filled : List (ℤ × W)
  pub last_commission : List (ℤ × W)
