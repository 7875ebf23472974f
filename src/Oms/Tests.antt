-- ===== src/Oms/Tests.antt =====
-- Orders at work, and the theorems on the manager at these inputs. Amounts are whole numbers.
use mathlib.Core.Option
use holographic_market.Base.{ℕ, ◌≡◌, refl, List, [], ◌∷◌, some, arith, subst, if◌then◌else◌, ◌==◌}
use holographic_market.Base.Int.{ℤ, pos}
use holographic_market.Base.Double.{whole, ℤ-IsOrdered}
use holographic_market.Oms.Order.{
  open_, partial, filled, buy, sell, Text, OrderRecord, blank, make_symbol, make_client_id,
  fill_buffer, fnv1a64,
}
use holographic_market.Oms.Index.{find, assign}
use holographic_market.Oms.Core.{
  Oms, make, new_record, register_new_order, updated, apply_update, after, get, Op, registers,
  updates, step, run, store_record,
}
use holographic_market.Oms.Inv.{Inv}
use holographic_market.Oms.Runs.{run-Inv, get-update, get-register}
use holographic_market.Oms.Fills.{Advanced, run-Advanced}

-- "holo-0" and "BTCUSDT"
abbrev holo_0 : Text
holo_0 = b'h' ∷ b'o' ∷ b'l' ∷ b'o' ∷ b'-' ∷ b'0' ∷ []

abbrev btcusdt : Text
btcusdt = b'B' ∷ b'T' ∷ b'C' ∷ b'U' ∷ b'S' ∷ b'D' ∷ b'T' ∷ []

abbrev key_0 : ℕ
key_0 = 15575691308032425146

fnv_of_holo_0 : fnv1a64 holo_0 ≡ key_0
unfolding fnv1a64
fnv_of_holo_0 = refl

-- One order of 10 at 100, sent at time 5.
abbrev one_order : List (Op ℤ)
one_order = registers holo_0 btcusdt buy (pos 100) (pos 10) (pos 5) (pos 5) ∷ []

abbrev fills : List (Op ℤ)
fills =
    updates key_0 open_ (pos 0) (pos 0) (pos 77) (pos 6) (pos 0)
    ∷ updates key_0 partial (pos 4) (pos 100) (pos 77) (pos 7) (pos 1)
    ∷ updates key_0 partial (pos 2) (pos 100) (pos 77) (pos 8) (pos 0)
    ∷ updates key_0 filled (pos 10) (pos 110) (pos 77) (pos 9) (pos 2)
    ∷ []

abbrev sent : OrderRecord ℤ
sent = record blank {
  client_order_id = fill_buffer 40 6 holo_0;
  symbol = fill_buffer 16 7 btcusdt;
  side = buy;
  price = pos 100;
  qty = pos 10;
  created_ns = pos 5;
  updated_ns = pos 5;
  created_mono_ns = pos 5;
}

abbrev started : Oms ℤ
started = record { slots = sent ∷ []; index = (key_0, 0) ∷ []; free_list = [] }

started_lem : run make one_order ≡ started
unfolding run step make register_new_order store_record fnv1a64 make_symbol make_client_id
    fill_buffer assign
started_lem = refl

-- The stale fill of 2 changes nothing, and the average price is (4 * 100 + 6 * 110) / 10.
fills_lem :
    get (run started fills) key_0
    ≡ some (record sent {
      status = filled;
      filled_qty = pos 10;
      avg_fill_price = pos 106;
      cumulative_commission = pos 3;
      exchange_order_id = pos 77;
      updated_ns = pos 9;
    })
unfolding run step apply_update updated get find
fills_lem = refl

started-Inv : Inv started
started-Inv = subst Inv started_lem (run-Inv one_order)

run-Inv_example : Inv (run {W = ℤ} make one_order)
run-Inv_example = run-Inv one_order

run-Advanced_example : Advanced sent (get (run started fills) key_0)
unfolding get find
run-Advanced_example =
    run-Advanced ℤ-IsOrdered fills started key_0 sent started-Inv (omega arith) refl

get-update_example :
    get
      (after started
        (apply_update started key_0 partial (pos 4) (pos 100) (pos 77) (pos 7) (pos 1)))
      key_0
    ≡ Option.map
        (λ r. updated r partial (pos 4) (pos 100) (pos 77) (pos 7) (pos 1))
        (get started key_0)
get-update_example =
    get-update started key_0 key_0 partial (pos 4) (pos 100) (pos 77) (pos 7) (pos 1) started-Inv

get-register_example :
    get (register_new_order started btcusdt btcusdt sell (pos 9) (pos 1) (pos 8) (pos 8)).1 key_0
    ≡ (if fnv1a64 btcusdt == key_0
        then some (new_record btcusdt btcusdt sell (pos 9) (pos 1) (pos 8) (pos 8))
        else get started key_0)
get-register_example =
    get-register started btcusdt btcusdt sell (pos 9) (pos 1) (pos 8) (pos 8) key_0 started-Inv
