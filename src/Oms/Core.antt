-- ===== src/Oms/Core.antt =====
-- `OMSCore`. A call runs under the lock from its first access of the state to its last, so it is
-- one function of the state. The clocks are read by the caller's arguments; the update callback is
-- fired after the lock is released: the record that it is given is part of the result.
use holographic_market.Base.{
  ℕ, Bool, List, [], ◌∷◌, ◌++◌, Option, none, some, ◌&&◌, length, get_or, set, if◌then◌else◌,
}
use holographic_market.Base.Int.{ℤ, ◌-ℤ◌, ltb_ℤ}
use holographic_market.Base.Double.{Double, ◌<?◌}
use holographic_market.Oms.Order.{
  OrderStatus, pending_new, Side, Text, make_symbol, make_client_id, fnv1a64, OrderRecord, blank,
  is_live,
}
use holographic_market.Oms.Index.{find, erase, assign}

-- The head of `free_list` is the back of the vector.
pub record Oms (W : Type 0) : Type 0 where
  pub slots : List (OrderRecord W)
  pub index : List (ℕ × ℕ)
  pub free_list : List ℕ

module _ {W : Type 0} ⦃d : Double W⦄ where
  unfoldable pub make : Oms W
  make = record { slots = []; index = []; free_list = [] }

  -- `alloc_slot_locked`
  unfoldable pub alloc_slot : Oms W → ℕ × Oms W
  alloc_slot o = elim o.free_list [
    | [] ↦ (length o.slots, record o { slots = o.slots ++ blank ∷ [] })
    | s ∷ rest ↦ (s, record o { free_list = rest })
  ]

  unfoldable pub new_record : Text → Text → Side → W → W → ℤ → ℤ → OrderRecord W
  new_record id symbol side price qty now mono = record blank {
    client_order_id = make_client_id id;
    symbol = make_symbol symbol;
    side = side;
    status = pending_new;
    price = price;
    qty = qty;
    created_ns = now;
    updated_ns = now;
    created_mono_ns = mono;
  }

  -- The part of `register_new_order` under the lock.
  unfoldable pub store_record : Oms W → ℕ → OrderRecord W → Oms W
  unfolding alloc_slot
  store_record o key rec =
      let (slot, o') = alloc_slot o in
      record o' { slots = set o'.slots slot rec; index = assign key slot o'.index }

  -- Returns the key, the new state and the record that the callback is given.
  unfoldable pub register_new_order :
      Oms W → Text → Text → Side → W → W → ℤ → ℤ → ℕ × Oms W × OrderRecord W
  unfolding new_record
  register_new_order o id symbol side price qty now mono =
      let rec = new_record id symbol side price qty now mono in
      let key = fnv1a64 id in (key, store_record o key rec, rec)

  -- The change that `apply_update` makes to a record's fill.
  unfoldable pub advance_fill : OrderRecord W → W → W → OrderRecord W
  advance_fill rec cumulative last_price =
      if (rec.filled_qty <? cumulative) && (d.nought <? last_price)
      then (let prev_notional = d.mul rec.avg_fill_price rec.filled_qty in
          let delta_qty = d.sub cumulative rec.filled_qty in
          record rec {
            avg_fill_price = d.div (d.add prev_notional (d.mul last_price delta_qty)) cumulative;
            filled_qty = cumulative;
          })
      else (if rec.filled_qty <? cumulative then record rec { filled_qty = cumulative } else rec)

  unfoldable pub add_commission : OrderRecord W → W → OrderRecord W
  add_commission rec delta =
      if d.nought <? delta
      then record rec { cumulative_commission = d.add rec.cumulative_commission delta }
      else rec

  unfoldable pub updated : OrderRecord W → OrderStatus → W → W → ℤ → ℤ → W → OrderRecord W
  unfolding advance_fill add_commission
  updated rec status cumulative last_price exchange_id event_ns commission =
      record (add_commission (advance_fill rec cumulative last_price) commission) {
        status = status;
        exchange_order_id = exchange_id;
        updated_ns = event_ns;
      }

  -- `none` is the result false; `some` has the record that the callback is given.
  unfoldable pub apply_update :
      Oms W → ℕ → OrderStatus → W → W → ℤ → ℤ → W → Option (OrderRecord W × Oms W)
  apply_update o key status cumulative last_price exchange_id event_ns commission =
      elim (find key o.index) [
        | none ↦ none
        | some slot ↦
            let rec =
              updated (get_or o.slots slot blank) status cumulative last_price exchange_id event_ns
                commission in
            some (rec, record o { slots = set o.slots slot rec })
      ]

  -- An update of an unknown key changes nothing.
  abbrev pub after : Oms W → Option (OrderRecord W × Oms W) → Oms W
  after o none = o
  after o (some (rec, o')) = o'

  unfoldable pub get : Oms W → ℕ → Option (OrderRecord W)
  get o key = elim (find key o.index) [ none ↦ none | some slot ↦ some (get_or o.slots slot blank) ]

  -- The overload by client order id.
  unfoldable pub get_by_id : Oms W → Text → Option (OrderRecord W)
  unfolding get
  get_by_id o id = get o (fnv1a64 id)

  abbrev pub is_stale : ℤ → OrderRecord W → Bool
  is_stale cutoff rec = is_live rec.status && ltb_ℤ rec.created_mono_ns cutoff

  unfoldable pub collect_stale : ℤ → List (OrderRecord W) → List (ℕ × ℕ) → List (OrderRecord W)
  collect_stale cutoff slots [] = []
  collect_stale cutoff slots ((key, slot) ∷ m) =
      let rec = get_or slots slot blank in
      let rest = collect_stale cutoff slots m in if is_stale cutoff rec then rec ∷ rest else rest

  unfoldable pub get_stale_orders : Oms W → ℤ → ℤ → List (OrderRecord W)
  unfolding collect_stale
  get_stale_orders o mono max_age = collect_stale (mono -ℤ max_age) o.slots o.index

  unfoldable pub release : Oms W → ℕ → Oms W
  release o key = elim (find key o.index) [
    | none ↦ o
    | some slot ↦ record o { free_list = slot ∷ o.free_list; index = erase key o.index }
  ]

  unfoldable pub live_order_count : Oms W → ℕ
  live_order_count o = length o.index

-- The calls that change the state.
pub data Op (W : Type 0) : Type 0 where
  registers : (id symbol : Text) → Side → (price qty : W) → (now mono : ℤ) → Op W
  updates :
      (key : ℕ)
      → OrderStatus
      → (cumulative last_price : W) → (exchange_id event_ns : ℤ) → (commission : W) → Op W
  releases : (key : ℕ) → Op W

module _ {W : Type 0} ⦃d : Double W⦄ where
  unfoldable pub step : Oms W → Op W → Oms W
  step o (registers id symbol side price qty now mono) =
      (register_new_order o id symbol side price qty now mono).1
  step o (updates key status cumulative last_price exchange_id event_ns commission) =
      after o (apply_update o key status cumulative last_price exchange_id event_ns commission)
  step o (releases key) = release o key

  unfoldable pub run : Oms W → List (Op W) → Oms W
  run o [] = o
  run o (op ∷ ops) = run (step o op) ops
