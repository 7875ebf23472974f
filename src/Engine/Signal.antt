-- ===== src/Engine/Signal.antt =====
-- `on_signal`: the guards, the claim of the two symbols, and what is sent.
pub mod Inflight
pub mod Outcomes
use holographic_market.Base.{
  ℕ, zero, suc, Bool, true, false, ◌||◌, List, [], ◌∷◌, ◌++◌, Option, none, some, leb, ◌==◌,
  if◌then◌else◌,
}
use holographic_market.Base.Int.{ℤ}
use holographic_market.Base.Double.{Double}
use holographic_market.Base.Table.{text_key, member, insert, remove}
use holographic_market.Oms.Order.{Text, Side, fnv1a64}
use holographic_market.Oms.Core.{live_order_count}
use holographic_market.Engine.State.{Engine, Leg, Channels}
use holographic_market.Engine.Breaker.{throttled_log}
use holographic_market.Engine.Orders.{next_client_id, register, get_or_create_waiter}

-- '|'
abbrev pub bar : ℕ
bar = 124

abbrev pub pair_key : Text → Text → Text
pair_key a b = a ++ bar ∷ b

-- `find('|')` and the two `substr`: the texts before and after the first bar, if there is one.
unfoldable pub split_at_bar : Text → Option (Text × Text)
split_at_bar [] = none
split_at_bar (c ∷ t) =
    let rest = split_at_bar t in
    if c == bar then some ([], t) else (elim rest [ none ↦ none | some (a, b) ↦ some (c ∷ a, b) ])

-- What `IOrderGateway` is asked to send.
pub data Request (W : Type 0) : Type 0 where
  post_only : (id symbol : Text) → Side → (price qty : W) → Request W
  market : (id symbol : Text) → Side → (qty : W) → Request W
  cancel : (symbol id : Text) → Request W

pub data Reply : Type 0 where
  halted capacity duplicate : Reply
  failed : Reply  -- a send has thrown
  spawned : (id1 id2 : Text) → Reply  -- `monitor_pair` is running

module _ {W C : Type 0} ⦃d : Double W⦄ where
  -- The first step under `inflight_mtx_`.
  unfoldable pub claim : Engine W C → Text → Text → Option (Engine W C)
  claim e a b =
      if member a e.inflight_symbols || member b e.inflight_symbols
      then none
      else (some (record e {
        inflight_pairs = insert (pair_key a b) e.inflight_pairs;
        inflight_symbols = insert b (insert a e.inflight_symbols);
      }))

  unfoldable pub clear_inflight : Engine W C → Text → Engine W C
  clear_inflight e key =
      let e' = record e { inflight_pairs = remove key e.inflight_pairs } in
      elim (split_at_bar key) [
        | none ↦ e'
        | some (a, b) ↦ record e' { inflight_symbols = remove b (remove a e.inflight_symbols) }
      ]

  unfoldable pub is_at_capacity : Engine W C → Bool
  is_at_capacity e = leb e.max_open_orders (live_order_count e.oms)

-- What the rest of the program does during a call: whether a send returns, what other code does to
-- the state in the meantime, and the clocks: of the log, and of the two registrations.
pub record Moment (W C : Type 0) : Type 0 where
  pub log_now : ℤ
  pub clock1 : ℤ × ℤ
  pub clock2 : ℤ × ℤ
  pub send1_ok : Bool
  pub send2_ok : Bool
  pub during1 : Engine W C → Engine W C
  pub during2 : Engine W C → Engine W C

module _ {W : Type 0} ⦃d : Double W⦄ (ch : Channels W) where
  -- Both orders are registered, and have a waiter each.
  unfoldable pub prepare :
      Engine W ch.Chan → Leg W → Leg W → ℤ × ℤ → ℤ × ℤ → Text × Text × Engine W ch.Chan
  prepare e leg1 leg2 t1 t2 =
      let (id1, e1) = next_client_id ch e in
      let (id2, e2) = next_client_id ch e1 in
      let e3 = register ch e2 id1 leg1 leg1.price leg1.qty t1 in
      let e4 = register ch e3 id2 leg2 leg2.price leg2.qty t2 in
      (id1, id2, get_or_create_waiter ch (get_or_create_waiter ch e4 (fnv1a64 id1)) (fnv1a64 id2))

  -- The two sends: a throw runs the destructor of the `InflightGuard`.
  unfoldable pub send_pair :
      Engine W ch.Chan
      → Text
      → Text
      → Leg W
      → Leg W
      → Moment W ch.Chan
      → Reply × List (Request W) × Engine W ch.Chan
  send_pair e id1 id2 leg1 leg2 m =
      let request1 = post_only id1 leg1.symbol leg1.side leg1.price leg1.qty in
      let request2 = post_only id2 leg2.symbol leg2.side leg2.price leg2.qty in
      let key = pair_key leg1.symbol leg2.symbol in
      let e1 = m.during1 e in
      let e2 = m.during2 e1 in
      if m.send1_ok
      then (if m.send2_ok
          then (spawned id1 id2, request1 ∷ request2 ∷ [], e2)
          else (failed, request1 ∷ request2 ∷ [], clear_inflight e2 key))
      else (failed, request1 ∷ [], clear_inflight e1 key)

  -- The guards in their order: halted, at capacity, and the claim of the symbols.
  unfoldable pub respond :
      Engine W ch.Chan
      → Leg W
      → Leg W
      → Moment W ch.Chan
      → Bool
      → Bool
      → Option (Engine W ch.Chan)
      → Reply × List (Request W) × Engine W ch.Chan
  respond e leg1 leg2 m true full claimed =
      (halted, [], record e { halt_log = (throttled_log e.halt_log m.log_now).0 })
  respond e leg1 leg2 m false true claimed =
      (capacity, [], record e { capacity_log = (throttled_log e.capacity_log m.log_now).0 })
  respond e leg1 leg2 m false false none =
      (duplicate, [], record e { dup_log = (throttled_log e.dup_log m.log_now).0 })
  respond e leg1 leg2 m false false (some e') =
      let (id1, id2, ready) = prepare e' leg1 leg2 m.clock1 m.clock2 in
      send_pair ready id1 id2 leg1 leg2 m

  unfoldable pub on_signal :
      Engine W ch.Chan
      → Leg W
      → Leg W
      → Moment W ch.Chan
      → Reply × List (Request W) × Engine W ch.Chan
  on_signal e leg1 leg2 m =
      respond e leg1 leg2 m e.switches.halted (is_at_capacity e) (claim e leg1.symbol leg2.symbol)
