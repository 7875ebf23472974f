-- ===== src/Depth/Tests.antt =====
-- A message with two bids and one ask, the second bid without a quantity, and a ring of four slots.
use holographic_market.Base.{
  ◌≡◌, refl, Bool, true, false, List, [], ◌∷◌, Option, none, some, if◌then◌else◌, map, take,
}
use holographic_market.Base.Bytes.{codes}
use holographic_market.Base.Int.{ℤ, pos}
use holographic_market.Base.Table.{same_text}
use holographic_market.Base.Double.{whole}
use holographic_market.Oms.Order.{Text}
use holographic_market.Lob.{LobUpdate, bid}
use holographic_market.Ring.{make, try_push, next_index}
use holographic_market.Replay.{Decimal}
use holographic_market.Depth.{
  BoostJson, Feeding, parse_and_enqueue, levels_from, push_update, count_message,
  instrument_id_from_stream, parse_price, price_from,
}
use holographic_market.Depth.Pushes.{Fed, parse_and_enqueue-Fed}

abbrev literals : Decimal ℤ
literals = record { of_digit = pos; ten = pos 10; tenth = pos 0 }

-- The documents of the message.
data Document : Type 0 where
  root data_object bids asks full_level short_level : Document
  words : Text → Document

abbrev member : Document → Text → Option Document
member root k =
    if same_text k (codes "stream")
    then some (words (codes "ethusdt@depth5@100ms"))
    else some data_object
member data_object k = if same_text k (codes "b") then some bids else some asks
member _ k = none

abbrev text_of : Document → Option Text
text_of (words t) = some t
text_of _ = none

abbrev items_of : Document → Option (List Document)
items_of bids = some (full_level ∷ short_level ∷ [])
items_of asks = some (full_level ∷ [])
items_of full_level = some (words (codes "35") ∷ words (codes "7") ∷ [])
items_of short_level = some (words (codes "34") ∷ [])
items_of _ = none

abbrev is_object : Document → Bool
is_object root = true
is_object data_object = true
is_object _ = false

abbrev sample : BoostJson Document
sample = record {
  parse = λ t. if same_text t (codes "{}") then some root else none;
  is_object = is_object;
  if_contains = member;
  as_string = text_of;
  as_array = items_of;
}

abbrev blank_update : LobUpdate ℤ
blank_update = record {
  timestamp_ns = 0;
  price = pos 0;
  quantity = pos 0;
  instrument_id = 0;
  depth_level = 0;
  side = bid;
}

abbrev start : Feeding ℤ
start = record {
  ring = make blank_update 4;
  metrics = record {
    msgs_received = 0;
    msgs_dropped = 0;
    parse_errors = 0;
    reconnects = 0;
    per_instrument_msgs = 0 ∷ 0 ∷ 0 ∷ 0 ∷ [];
  };
}

parse_and_enqueue-Fed_example :
    Fed 9 32 start (parse_and_enqueue sample literals start 9 (codes "{}"))
parse_and_enqueue-Fed_example = parse_and_enqueue-Fed sample literals start 9 (codes "{}")

-- The short level is passed over, and the others are pushed with their place in the message.
pushed :
    map (λ u. u.price) (take 3 (parse_and_enqueue sample literals start 9 (codes "{}")).ring.slots)
    ≡ pos 35 ∷ pos 35 ∷ pos 0 ∷ []
unfolding parse_and_enqueue levels_from push_update count_message instrument_id_from_stream
    parse_price price_from try_push make next_index
pushed = refl

-- A text that does not parse counts as an error.
rejected : (parse_and_enqueue sample literals start 9 (codes "?")).metrics.parse_errors ≡ 1
unfolding parse_and_enqueue
rejected = refl
