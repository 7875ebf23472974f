-- ===== src/Engine/Breaker.antt =====
-- The two kill switches, the manual ones, and the throttled log.
pub mod Trips
use holographic_market.Base.{
  ℕ, suc, ◌+◌, ◌%◌, ◌^◌, Bool, true, false, not, ◌&&◌, ◌||◌, List, [], ◌∷◌, Option, none, some, leb,
  ltb, if◌then◌else◌,
}
use holographic_market.Base.Int.{ℤ, pos, ◌-ℤ◌, ltb_ℤ}
use holographic_market.Base.Double.{Double, ◌<?◌, ◌≤?◌}
use holographic_market.Oms.Order.{OrderStatus, open_, filled, rejected, is_status}
use holographic_market.Engine.State.{Switches, Throttle}

abbrev pub max_consecutive_rejects : ℕ
max_consecutive_rejects = 5

abbrev pub log_throttle_ns : ℤ
log_throttle_ns = pos 2_000_000_000

module _ {W : Type 0} ⦃d : Double W⦄ where
  unfoldable pub initial : Switches W
  initial = record {
    halted = false;
    consecutive_rejects = 0;
    pnl_high_water_mark = d.nought;
    halt_flag = false;
  }

  unfoldable pub is_halted : Switches W → Bool
  is_halted s = s.halted

  unfoldable pub reset_halt : Switches W → Switches W
  reset_halt s = record s { halted = false; consecutive_rejects = 0; halt_flag = false }

  unfoldable pub force_halt : Switches W → Switches W
  force_halt s = record s { halted = true }

  -- The bookkeeping of `dispatch_update`. The counter is an `int`, kept by its 32 bits. The flag file is written by the call that trips.
  unfoldable pub count_reject : Switches W → OrderStatus → Switches W
  count_reject s status =
      if is_status status rejected
      then (let n = (s.consecutive_rejects + 1) % 2 ^ 32 in
          if leb max_consecutive_rejects n && ltb n (2 ^ 31)
          then record s {
            consecutive_rejects = n;
            halted = true;
            halt_flag = if s.halted then s.halt_flag else true;
          }
          else record s { consecutive_rejects = n })
      else (if is_status status open_ || is_status status filled
          then record s { consecutive_rejects = 0 }
          else s)

  unfoldable pub check_drawdown : Switches W → W → W → Switches W
  check_drawdown s current max_drawdown =
      let peak = if s.pnl_high_water_mark <? current then current else s.pnl_high_water_mark in
      let drawdown = d.sub peak current in
      record s { pnl_high_water_mark = peak; halted = s.halted || (max_drawdown ≤? drawdown) }

-- Returns the new state of the log and, if the line is written, how many it stands for besides.
unfoldable pub throttled_log : Throttle → ℤ → Throttle × Option ℕ
throttled_log t now =
    if ltb_ℤ (now -ℤ t.last_ns) log_throttle_ns
    then (record t { suppressed = (t.suppressed + 1) % 2 ^ 64 }, none)
    else (record { last_ns = now; suppressed = 0 }, some t.suppressed)
