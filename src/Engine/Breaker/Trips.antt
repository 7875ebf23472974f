-- ===== src/Engine/Breaker/Trips.antt =====
-- When the kill switches trip, and that they stay tripped.
use holographic_market.Base.{
  ℕ, ◌+◌, ◌^◌, ◌<◌, ◌≡◌, refl, sym, ap, ◌∙◌, Bool, true, false, ◌&&◌, List, [], ◌∷◌, arith, inl,
  inr, leb, if◌then◌else◌,
}
use holographic_market.Base.Double.{Double, IsOrdered, ◌<?◌}
use holographic_market.Oms.Order.{OrderStatus, open_, filled, rejected}
use holographic_market.Oms.Fills.{AtLeast, AtLeast-trans}
use holographic_market.Engine.State.{Switches}
use holographic_market.Engine.Breaker.{
  force_halt, count_reject, check_drawdown, max_consecutive_rejects,
}

-- What happens to the switches, in the order in which it happens.
pub data Event (W : Type 0) : Type 0 where
  status : OrderStatus → Event W
  pnl : (current max_drawdown : W) → Event W
  margin_call : Event W

-- The statuses that do not reset the count of rejects.
abbrev pub stalls : OrderStatus → Bool
stalls open_ = false
stalls filled = false
stalls _ = true

abbrev pub all_stall : List OrderStatus → Bool
all_stall [] = true
all_stall (st ∷ l) = stalls st && all_stall l

abbrev pub bounce : OrderStatus → ℕ
bounce rejected = 1
bounce _ = 0

abbrev pub bounces : List OrderStatus → ℕ
bounces [] = 0
bounces (st ∷ l) = bounce st + bounces l

module _ {W : Type 0} ⦃d : Double W⦄ where
  unfoldable pub react : Switches W → Event W → Switches W
  react s (status st) = count_reject s st
  react s (pnl current max_drawdown) = check_drawdown s current max_drawdown
  react s margin_call = force_halt s

  unfoldable pub react_all : Switches W → List (Event W) → Switches W
  react_all s [] = s
  react_all s (e ∷ es) = react_all (react s e) es

  react-halted : (s : Switches W) (e : Event W) → s.halted ≡ true → (react s e).halted ≡ true
  unfolding react count_reject check_drawdown force_halt
  react-halted s (status st) h = ground arith
  react-halted s (pnl current max_drawdown) h = ground arith
  react-halted s margin_call h = refl

  -- A halt stays until `reset_halt`: no order status, PnL value or margin call clears it.
  pub react_all-halted :
      (es : List (Event W)) (s : Switches W) → s.halted ≡ true → (react_all s es).halted ≡ true
  unfolding react_all
  react_all-halted [] s h = h
  react_all-halted (e ∷ es) s h = react_all-halted es (react s e) (react-halted s e h)

  unfoldable pub count_all : Switches W → List OrderStatus → Switches W
  count_all s [] = s
  count_all s (st ∷ l) = count_all (count_reject s st) l

  count_reject-tripped :
      (s : Switches W) (st : OrderStatus)
      → stalls st ≡ true
      → s.consecutive_rejects + bounce st < 2 ^ 31
      → s.halted ≡ leb max_consecutive_rejects s.consecutive_rejects
      → let t = count_reject s st in
        (t.halted ≡ leb max_consecutive_rejects t.consecutive_rejects)
        × (t.consecutive_rejects ≡ s.consecutive_rejects + bounce st)
  unfolding count_reject
  count_reject-tripped s st h small inv = ground arith

  count_all-tripped :
      (l : List OrderStatus) (s : Switches W)
      → all_stall l ≡ true
      → s.consecutive_rejects + bounces l < 2 ^ 31
      → s.halted ≡ leb max_consecutive_rejects s.consecutive_rejects
      → (count_all s l).halted ≡ leb max_consecutive_rejects (s.consecutive_rejects + bounces l)
  unfolding count_all
  count_all-tripped [] s h small inv = inv ∙ ap (leb max_consecutive_rejects) (omega arith)
  count_all-tripped (st ∷ l) s h small inv =
      let (inv', count) = count_reject-tripped s st (ground arith) (omega arith) inv in
      count_all-tripped l (count_reject s st) (ground arith) (omega (arith, count)) inv'
      ∙ ap (leb max_consecutive_rejects) (omega (arith, count))

  -- Between two orders that are accepted or filled, the engine halts exactly when five or more
  -- orders are rejected: partial fills and cancels in between neither count nor reset the count.
  -- It is stated from a state without a halt and with no reject counted.
  pub count_all-halted :
      (l : List OrderStatus) (s : Switches W)
      → s.halted ≡ false
      → s.consecutive_rejects ≡ 0
      → all_stall l ≡ true
      → bounces l < 2 ^ 31
      → (count_all s l).halted ≡ leb max_consecutive_rejects (bounces l)
  count_all-halted l s off none_yet h small =
      count_all-tripped l s h (omega (arith, none_yet)) (ground (arith, off, none_yet))
      ∙ ap (leb max_consecutive_rejects) (omega (arith, none_yet))

  unfoldable pub check_all : Switches W → W → List W → Switches W
  check_all s max_drawdown [] = s
  check_all s max_drawdown (v ∷ vs) = check_all (check_drawdown s v max_drawdown) max_drawdown vs

  -- No value of the list is above the mark.
  abbrev pub NoneAbove : W → List W → Type 0
  NoneAbove mark [] = Unit {0}
  NoneAbove mark (v ∷ vs) = ((mark <? v) ≡ false) × NoneAbove mark vs

  -- The mark of the end is that of the start, or greater.
  check_all-AtLeast :
      IsOrdered W
      → (s : Switches W) (limit : W) (vs : List W)
      → AtLeast s.pnl_high_water_mark (check_all s limit vs).pnl_high_water_mark
  unfolding check_all check_drawdown
  check_all-AtLeast laws s limit [] = inl refl
  check_all-AtLeast laws s limit (v ∷ vs) =
      AtLeast-trans laws s.pnl_high_water_mark (check_drawdown s v limit).pnl_high_water_mark _
        (ground arith) (check_all-AtLeast laws (check_drawdown s v limit) limit vs)

  above : IsOrdered W → (m v t : W) → AtLeast (if m <? v then v else m) t → (t <? v) ≡ false
  above laws m v t (inl e) = ground (arith, sym e, laws.lt_irrefl v)
  above laws m v t (inr e) = ground (arith, laws.lt_asymm v t, laws.lt_trans m t v)

  -- The high-water mark is never below a PnL value that it was given, in any sequence of calls.
  pub check_all-mark :
      (laws : IsOrdered W) (s : Switches W) (limit : W) (vs : List W)
      → NoneAbove (check_all s limit vs).pnl_high_water_mark vs
  unfolding check_all check_drawdown
  check_all-mark laws s limit [] = record {}
  check_all-mark laws s limit (v ∷ vs) = (
    above laws s.pnl_high_water_mark v _
        (check_all-AtLeast laws (check_drawdown s v limit) limit vs),
    check_all-mark laws (check_drawdown s v limit) limit vs,
  )
