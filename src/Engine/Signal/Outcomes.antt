-- ===== src/Engine/Signal/Outcomes.antt =====
-- What a signal leads to on each branch of `on_signal`, and how many orders are live after it.
use holographic_market.Base.{◌+◌, ◌≤◌, ◌<◌, ◌≡◌, true, false, List, [], ◌∷◌, ◌||◌}
use holographic_market.Base.Double.{Double}
use holographic_market.Base.Table.{text_key, member, insert}
use holographic_market.Oms.Index
use holographic_market.Oms.Order.{Text}
use holographic_market.Oms.Core.{Oms, live_order_count}
use holographic_market.Engine.State.{Engine, Leg, Channels}
use holographic_market.Engine.Signal.{
  Request, post_only, Reply, halted, capacity, duplicate, failed, spawned,
}

module _ {W : Type 0} ⦃d : Double W⦄ (ch : Channels W) where
  -- The two states have the same orders, and the same symbols in flight.
  abbrev pub Alike : Engine W ch.Chan → Engine W ch.Chan → Type 0
  Alike e e' = (e'.oms ≡ e.oms) × (e'.inflight_symbols ≡ e.inflight_symbols)

  -- Nothing is sent, and the state is `but`.
  abbrev pub Dropped : Engine W ch.Chan → List (Request W) → Engine W ch.Chan → Type 0
  Dropped but sent e' = (sent ≡ []) × (e' ≡ but)

  -- No guard stands in the way of the signal.
  abbrev pub Passes : Engine W ch.Chan → Leg W → Leg W → Type 0
  Passes e leg1 leg2 =
      (e.switches.halted ≡ false)
      × (live_order_count e.oms < e.max_open_orders)
      × (member leg1.symbol e.inflight_symbols ≡ false)
      × (member leg2.symbol e.inflight_symbols ≡ false)

  -- What each reply says: of the state before, of what is sent, and of the state after.
  abbrev pub Described :
      Engine W ch.Chan → Leg W → Leg W → Reply → List (Request W) → Engine W ch.Chan → Type 0
  Described e leg1 leg2 halted sent e' =
      (e.switches.halted ≡ true) × Dropped (record e { halt_log = e'.halt_log }) sent e'
  Described e leg1 leg2 capacity sent e' =
      (e.max_open_orders ≤ live_order_count e.oms)
      × Dropped (record e { capacity_log = e'.capacity_log }) sent e'
  Described e leg1 leg2 duplicate sent e' =
      ((member leg1.symbol e.inflight_symbols || member leg2.symbol e.inflight_symbols) ≡ true)
      × Dropped (record e { dup_log = e'.dup_log }) sent e'
  Described e leg1 leg2 failed sent e' =
      Passes e leg1 leg2 × ((s : Text) → member s e'.inflight_symbols ≡ member s e.inflight_symbols)
  Described e leg1 leg2 (spawned id1 id2) sent e' =
      Passes e leg1 leg2
      × (sent
          ≡ post_only id1 leg1.symbol leg1.side leg1.price leg1.qty
            ∷ post_only id2 leg2.symbol leg2.side leg2.price leg2.qty
            ∷ [])
      × (live_order_count e'.oms ≤ 1 + e.max_open_orders)
      × (e'.inflight_symbols ≡ insert leg2.symbol (insert leg1.symbol e.inflight_symbols))
