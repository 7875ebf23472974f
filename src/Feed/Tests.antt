-- ===== src/Feed/Tests.antt =====
-- A venue of four documents, and the theorems on the feed at it. Amounts are whole numbers.
use holographic_market.Base.{
  ℕ, ◌+◌, ◌*◌, ◌-◌, ◌≡◌, refl, true, false, List, [], ◌∷◌, Option, none, some, if◌then◌else◌,
}
use holographic_market.Base.Bytes.{codes}
use holographic_market.Base.Int.{ℤ, pos}
use holographic_market.Base.Table.{same_text}
use holographic_market.Base.Double.{whole}
use holographic_market.Oms.Order.{
  OrderStatus, filled, open_, canceled, buy, Text, OrderRecord, blank, fill_buffer, fnv1a64, view,
}
use holographic_market.Oms.Core.{
  Oms, make, get, run, Op, registers, step, get_stale_orders, is_stale, register_new_order,
}
use holographic_market.Oms.Runs.{run-Inv}
use holographic_market.Feed.{
  Json, OrderLookup, handle_message, reconcile_open_orders, still_open_keys, counts, map_status,
  lookup_query, order_lookup,
}
use holographic_market.Feed.Events.{get-handle_message, after_order}
use holographic_market.Feed.Updates.{is_type, event_type}
use holographic_market.Feed.Reconcile.{HasStatus, key_of, AllAnswer, reconcile-recovers}
use holographic_market.Feed.Session.{FeedStep, connects, receives}

abbrev decimal : ℕ → Text → ℕ
decimal n [] = n
decimal n (c ∷ s) = decimal (n * 10 + (c - 48)) s

abbrev number : Text → Option ℤ
number [] = none
number (c ∷ s) = some (pos (decimal 0 (c ∷ s)))

abbrev field : Text → List (Text × Text) → Option Text
field k [] = none
field k ((j, v) ∷ m) = if same_text j k then some v else field k m

-- An order event and its order, the answer to a lookup, and the lists of open orders.
data Document : Type 0 where
  event order_object canceled_order nothing_open one_open open_entry : Document

abbrev fields_of : Document → List (Text × Text)
fields_of event = (codes "e", codes "ORDER_TRADE_UPDATE") ∷ []
fields_of order_object =
    (codes "c", codes "holo-0")
    ∷ (codes "X", codes "PARTIALLY_FILLED")
    ∷ (codes "z", codes "4")
    ∷ (codes "L", codes "100")
    ∷ []
fields_of canceled_order =
    (codes "status", codes "CANCELED") ∷ (codes "executedQty", codes "4") ∷ []
fields_of open_entry = (codes "clientOrderId", codes "holo-0") ∷ []
fields_of _ = []

abbrev entries_of : Document → List Document
entries_of one_open = open_entry ∷ []
entries_of _ = []

abbrev parsed : Text → Option Document
parsed t =
    if same_text t (codes "event")
    then some event
    else if same_text t (codes "order")
    then some canceled_order
    else if same_text t (codes "none")
    then some nothing_open
    else if same_text t (codes "open")
    then some one_open
    else none

abbrev venue : Json Document
venue = record {
  parse = parsed;
  text_at = λ j k. field k (fields_of j);
  int_at = λ j k. some (pos 7);
  element_at = λ j k. some order_object;
  elements = λ j. some (entries_of j);
}

-- One order of 10 at 100, sent at time 5.
abbrev sent : List (Op ℤ)
sent = registers (codes "holo-0") (codes "BTCUSDT") buy (pos 100) (pos 10) (pos 5) (pos 5) ∷ []

abbrev one_order : Oms ℤ
one_order = run make sent

abbrev known : OrderRecord ℤ
known = record blank {
  client_order_id = fill_buffer 40 6 (codes "holo-0");
  symbol = fill_buffer 16 7 (codes "BTCUSDT");
  price = pos 100;
  qty = pos 10;
  created_ns = pos 5;
  updated_ns = pos 5;
  created_mono_ns = pos 5;
}

-- The answers of a venue that has canceled the order, and of one that still lists it.
abbrev gone : Text → Text → Option Text
gone path query =
    some (if same_text path (codes "/fapi/v1/order") then codes "order" else codes "none")

abbrev listing : Text → Text → Option Text
listing path query = some (codes "open")

key_example : key_of known ≡ 15575691308032425146
unfolding fnv1a64 view fill_buffer
key_example = refl

known_lem : get one_order (key_of known) ≡ some known
unfolding run step fnv1a64 view fill_buffer get register_new_order make
    holographic_market.Oms.Index.find holographic_market.Oms.Core.store_record
    holographic_market.Oms.Index.assign holographic_market.Oms.Order.make_client_id
    holographic_market.Oms.Order.make_symbol
known_lem = refl

get-handle_message_example :
    let h = handle_message venue number one_order (codes "event") in
    (h.reconnect ≡ is_type (codes "listenKeyExpired") (event_type venue (codes "event")))
    × (h.margin_call ≡ none)
    × (get h.oms (key_of known)
        ≡ after_order venue number one_order (key_of known) (some order_object))
get-handle_message_example =
    get-handle_message venue number one_order (codes "event") (key_of known) (run-Inv sent)

clock : ℕ → ℤ
clock key = pos 50

listed_lem : counts (key_of known) (still_open_keys venue one_open) ≡ true
unfolding still_open_keys fnv1a64 view fill_buffer
listed_lem = refl

unlisted_lem : counts (key_of known) (still_open_keys venue nothing_open) ≡ false
unfolding still_open_keys
unlisted_lem = refl

abbrev answer : OrderLookup
answer = record {
  status_str = codes "CANCELED";
  z_str = codes "4";
  exch_order_id = pos 7;
  avg_px_str = [];
}

answered :
    AllAnswer venue number gone clock
      (key_of known)
      answer
      (get_stale_orders one_order (pos 60) (pos 0))
unfolding run step fnv1a64 view fill_buffer get_stale_orders register_new_order make
    holographic_market.Oms.Index.find holographic_market.Oms.Core.store_record
    holographic_market.Oms.Index.assign holographic_market.Oms.Order.make_client_id
    holographic_market.Oms.Order.make_symbol lookup_query order_lookup
answered = ((λ e. refl), tt)

reconcile-recovers_example :
    HasStatus canceled
      (get (reconcile_open_orders venue number gone clock one_order (pos 60)) (key_of known))
unfolding map_status
reconcile-recovers_example =
    reconcile-recovers venue number gone clock one_order (pos 60) known nothing_open answer
      (run-Inv sent) known_lem refl refl unlisted_lem answered

abbrev steps : List FeedStep
steps = connects listing clock (pos 60) ∷ receives (codes "event") ∷ receives (codes "?") ∷ []
