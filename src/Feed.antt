-- ===== src/Feed.antt =====
-- `UserDataFeed`: the account's own event stream, from the text of a message to the update of the
-- order manager, the reconciliation after a reconnect, and the waits between two connections.
-- simdjson, `std::from_chars`, the REST calls and the clock are parameters.
pub mod Updates
pub mod Events
pub mod Reconcile
pub mod Session
pub mod Backoff
pub mod Rest
mod Tests
use holographic_market.Base.{
  ℕ, ◌*◌, Bool, true, false, List, [], ◌∷◌, ◌++◌, Option, none, some, if◌then◌else◌, ◌||◌, ◌==◌,
}
use holographic_market.Base.Bytes.{codes, ◌>>=◌, or_else}
use holographic_market.Base.Int.{ℤ, pos, ◌*ℤ◌}
use holographic_market.Base.Table.{same_text}
use holographic_market.Base.Double.{Double}
use holographic_market.Oms.Order.{
  OrderStatus, open_, partial, filled, canceled, rejected, Text, OrderRecord, view, fnv1a64,
}
use holographic_market.Oms.Core.{Oms, apply_update, after, get_stale_orders}

-- What the code calls of simdjson: `none` is an error code.
pub record Json (J : Type 0) : Type 0 where
  pub parse : Text → Option J
  pub text_at : J → Text → Option Text
  pub int_at : J → Text → Option ℤ
  pub element_at : J → Text → Option J
  pub elements : J → Option (List J)

unfoldable pub map_status : Text → OrderStatus
map_status s =
    if same_text s (codes "NEW")
    then open_
    else if same_text s (codes "PARTIALLY_FILLED")
    then partial
    else if same_text s (codes "FILLED")
    then filled
    else if same_text s (codes "CANCELED") || same_text s (codes "EXPIRED")
    then canceled
    else if same_text s (codes "REJECTED")
    then rejected
    else open_

-- What `handle_order_trade_update` reads of an event.
pub record TradeUpdate : Type 0 where
  pub client_id : Text
  pub status_str : Text
  pub z_str : Text
  pub exch_order_id : ℤ
  pub l_price_str : Text
  pub commission_str : Text
  pub t_ms : ℤ

-- What `reconcile_single_order` reads of a response.
pub record OrderLookup : Type 0 where
  pub status_str : Text
  pub z_str : Text
  pub exch_order_id : ℤ
  pub avg_px_str : Text

-- What a message does: the result of `handle_message`, the text handed to the margin-call
-- callback, and the order manager.
pub record Handled (W : Type 0) : Type 0 where
  pub reconnect : Bool
  pub margin_call : Option Text
  pub oms : Oms W

module _ {J : Type 0} (json : Json J) where
  -- The four fields without which an event is dropped, then the three that may be missing.
  unfoldable pub trade_update : J → Option TradeUpdate
  trade_update o = do
    c ← json.text_at o (codes "c")
    x ← json.text_at o (codes "X")
    z ← json.text_at o (codes "z")
    i ← json.int_at o (codes "i")
    some (record {
      client_id = c;
      status_str = x;
      z_str = z;
      exch_order_id = i;
      l_price_str = or_else [] (json.text_at o (codes "L"));
      commission_str = or_else [] (json.text_at o (codes "n"));
      t_ms = or_else (pos 0) (json.int_at o (codes "T"));
    })

  unfoldable pub order_lookup : J → Option OrderLookup
  order_lookup doc = do
    x ← json.text_at doc (codes "status")
    z ← json.text_at doc (codes "executedQty")
    i ← json.int_at doc (codes "orderId")
    some (record {
      status_str = x;
      z_str = z;
      exch_order_id = i;
      avg_px_str = or_else [] (json.text_at doc (codes "avgPrice"));
    })

  -- `still_open_keys`: the hashes of the client order ids that the venue lists. An entry without
  -- one is passed over.
  unfoldable pub listed_keys : List J → List ℕ
  listed_keys [] = []
  listed_keys (order ∷ arr) = elim (json.text_at order (codes "clientOrderId")) [
    | none ↦ listed_keys arr
    | some coid ↦ fnv1a64 coid ∷ listed_keys arr
  ]

  -- A document that is not an array lists nothing.
  unfoldable pub still_open_keys : J → List ℕ
  unfolding listed_keys
  still_open_keys doc = listed_keys (or_else [] (json.elements doc))

  abbrev pub event_of : Text → Option (J × Text)
  event_of text = do
    doc ← json.parse text
    event_type ← json.text_at doc (codes "e")
    some (doc, event_type)

-- `still_open_keys.count(key)`
abbrev pub counts : ℕ → List ℕ → Bool
counts key [] = false
counts key (k ∷ ks) = (k == key) || counts key ks

-- `"symbol=" + symbol + "&origClientOrderId=" + client_order_id`
unfoldable pub lookup_query : Text → Text → Text
lookup_query symbol client_order_id =
    codes "symbol=" ++ symbol ++ codes "&origClientOrderId=" ++ client_order_id

module _ {W : Type 0} where
  abbrev pub unhandled : Oms W → Handled W
  unhandled oms = record { reconnect = false; margin_call = none; oms = oms }

-- `rest` is `rest_get_signed`, `none` when it throws.
module _ {J : Type 0} (json : Json J) (rest : Text → Text → Option Text) where
  -- The response, unless the call throws, it does not parse or a field is missing.
  abbrev pub lookup : Text → Text → Option OrderLookup
  lookup symbol client_order_id = do
    body ← rest (codes "/fapi/v1/order") (lookup_query symbol client_order_id)
    doc ← json.parse body
    order_lookup json doc

  abbrev pub open_orders : Option J
  open_orders = do body ← rest (codes "/fapi/v1/openOrders") []; json.parse body

module _ {W : Type 0} ⦃d : Double W⦄ (from_chars : Text → Option W) where
  unfoldable pub svtod : Text → W
  svtod sv = or_else d.nought (from_chars sv)

  abbrev pub svtod_or_nought : Text → W
  svtod_or_nought [] = d.nought
  svtod_or_nought (c ∷ s) = svtod (c ∷ s)

  -- The event time is the product of integers without a bound: that of the code, on 64 bits, is
  -- undefined where it overflows.
  unfoldable pub apply_trade : Oms W → TradeUpdate → Oms W
  unfolding map_status
  apply_trade oms u = after oms (
      apply_update oms (fnv1a64 u.client_id) (map_status u.status_str) (svtod u.z_str)
        (svtod_or_nought u.l_price_str) u.exch_order_id (u.t_ms *ℤ pos 1000000)
        (svtod_or_nought u.commission_str))

  unfoldable pub apply_lookup : Oms W → ℕ → ℤ → OrderLookup → Oms W
  apply_lookup oms key event_ns u = after oms (
      apply_update oms key (map_status u.status_str) (svtod u.z_str) (svtod_or_nought u.avg_px_str)
        u.exch_order_id event_ns d.nought)

module _ {J W : Type 0} ⦃d : Double W⦄ (json : Json J) (from_chars : Text → Option W) where
  unfoldable pub handle_order_trade_update : Oms W → J → Oms W
  unfolding apply_trade
  handle_order_trade_update oms o = elim (trade_update json o) [
    | none ↦ oms
    | some u ↦ apply_trade from_chars oms u
  ]

  abbrev pub order_event : Oms W → Option J → Handled W
  order_event oms none = unhandled oms
  order_event oms (some o) = unhandled (handle_order_trade_update oms o)

  unfoldable pub handle_event : Oms W → Text → J → Text → Handled W
  unfolding handle_order_trade_update
  handle_event oms text doc event_type =
      if same_text event_type (codes "ORDER_TRADE_UPDATE")
      then order_event oms (json.element_at doc (codes "o"))
      else if same_text event_type (codes "listenKeyExpired")
      then record { reconnect = true; margin_call = none; oms = oms }
      else if same_text event_type (codes "MARGIN_CALL")
      then record { reconnect = false; margin_call = some text; oms = oms }
      else unhandled oms

  unfoldable pub handle_message : Oms W → Text → Handled W
  unfolding handle_event
  handle_message oms text = elim (event_of json text) [
    | none ↦ unhandled oms
    | some (doc, event_type) ↦ handle_event oms text doc event_type
  ]

  -- The reads of one connection, up to the message on which `run` returns.
  unfoldable pub read_loop : Oms W → List Text → Bool × Oms W
  unfolding handle_message
  read_loop oms [] = (false, oms)
  read_loop oms (text ∷ more) =
      let h = handle_message oms text in
      let rest = read_loop h.oms more in if h.reconnect then (true, h.oms) else rest

  -- `now` is the clock's reading when the order of a key is looked up.
  module _ (rest : Text → Text → Option Text) (now : ℕ → ℤ) where
    unfoldable pub reconcile_single_order : Oms W → Text → Text → ℕ → Oms W
    unfolding apply_lookup
    reconcile_single_order oms symbol client_order_id key =
        elim (lookup json rest symbol client_order_id) [
          | none ↦ oms
          | some u ↦ apply_lookup from_chars oms key (now key) u
        ]

    unfoldable pub reconcile_each : List ℕ → Oms W → List (OrderRecord W) → Oms W
    unfolding reconcile_single_order
    reconcile_each keys oms [] = oms
    reconcile_each keys oms (rec ∷ local_live) =
        let coid = view rec.client_order_id in
        let key = fnv1a64 coid in
        if counts key keys
        then reconcile_each keys oms local_live
        else reconcile_each keys (reconcile_single_order oms (view rec.symbol) coid key) local_live

    abbrev pub reconcile_live : Oms W → List (OrderRecord W) → Oms W
    reconcile_live oms [] = oms
    reconcile_live oms (rec ∷ live) = elim (open_orders json rest) [
      | none ↦ oms
      | some doc ↦ reconcile_each (still_open_keys json doc) oms (rec ∷ live)
    ]

    -- `mono` is the steady clock that `get_stale_orders` reads.
    unfoldable pub reconcile_open_orders : Oms W → ℤ → Oms W
    unfolding reconcile_each
    reconcile_open_orders oms mono = reconcile_live oms (get_stale_orders oms mono (pos 0))
