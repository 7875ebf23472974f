-- ===== src/Gateway/Texts.antt =====
-- The texts of the requests of `BinanceGateway`, engine/net/binance_gateway.hpp. `snprintf` with a
-- number of decimals, the digest of OpenSSL and the clock are parameters.
use holographic_market.Base.{ℕ, Bool, true, false, not, List, [], ◌∷◌, ◌++◌, if◌then◌else◌}
use holographic_market.Base.Bytes.{codes}
use holographic_market.Base.Table.{same_text}
use holographic_market.Base.Double.{Double, ◌<?◌}
use holographic_market.Oms.Order.{Text, Side, buy, sell}
use holographic_market.Engine.Orders.{to_string}
use holographic_market.Feed.Rest.{to_hex}

pub record SymbolPrecision : Type 0 where
  pub qty_decimals : ℕ
  pub price_decimals : ℕ

-- The table, and the default of a symbol that is not in it. The warning is a log.
unfoldable pub precision_for : Text → SymbolPrecision
precision_for symbol =
    if same_text symbol (codes "BTCUSDT")
    then record { qty_decimals = 3; price_decimals = 1 }
    else if same_text symbol (codes "ETHUSDT")
    then record { qty_decimals = 3; price_decimals = 2 }
    else if same_text symbol (codes "BNBUSDT")
    then record { qty_decimals = 2; price_decimals = 2 }
    else if same_text symbol (codes "SOLUSDT")
    then record { qty_decimals = 0; price_decimals = 3 }
    else record { qty_decimals = 2; price_decimals = 2 }

-- A text that is built piece after piece.
abbrev pub concat : List Text → Text
concat [] = []
concat (t ∷ ts) = t ++ concat ts

-- A quotation mark, a text and a quotation mark.
abbrev pub quote : Text
quote = 34 ∷ []

abbrev pub side_text : Side → Text
side_text buy = codes "BUY"
side_text sell = codes "SELL"

-- What a gateway is given, and what it calls: `format_decimal` and the digest.
pub record Venue (W : Type 0) : Type 0 where
  pub api_key : Text
  pub api_secret : Text
  pub format_decimal : W → ℕ → Text
  pub hmac : Text → Text → List ℕ

abbrev pub pieces_if : Bool → List Text → List Text → List Text
pieces_if true pieces more = pieces ++ more
pieces_if false pieces more = more

abbrev pub is_empty : Text → Bool
is_empty [] = true
is_empty (c ∷ t) = false

module _ {W : Type 0} ⦃d : Double W⦄ (venue : Venue W) where
  -- `priced` is the test `price > 0.0`, and `untimed` that of an empty time in force.
  unfoldable pub order_payload :
      Text → Text → Text → Text → Text → Text → Text → ℕ → Bool → Bool → Text
  order_payload cid sym side type q_str p_str tif ts priced untimed = concat (
      codes "apiKey="
      ∷ venue.api_key
      ∷ codes "&newClientOrderId="
      ∷ cid
      ∷ pieces_if priced (codes "&price=" ∷ p_str ∷ []) (
          codes "&quantity="
          ∷ q_str
          ∷ codes "&side="
          ∷ side
          ∷ codes "&symbol="
          ∷ sym
          ∷ pieces_if (not untimed) (codes "&timeInForce=" ∷ tif ∷ [])
              (codes "&timestamp=" ∷ to_string ts ∷ codes "&type=" ∷ type ∷ [])))

  -- `"key":"`, and `","key":"` behind another text.
  abbrev pub opens : Text → Text
  opens key = quote ++ key ++ quote ++ codes ":" ++ quote

  abbrev pub closes : Text
  closes = quote ++ codes ","

  unfoldable pub order_json :
      ℕ → Text → Text → Text → Text → Text → Text → Text → ℕ → Bool → Bool → Text → Text
  order_json id cid sym side type q_str p_str tif ts priced untimed sig = concat (
      (codes "{" ++ opens (codes "id"))
      ∷ to_string id
      ∷ (closes
          ++ opens (codes "method")
          ++ codes "order.place"
          ++ closes
          ++ quote
          ++ codes "params"
          ++ quote
          ++ codes ":{")
      ∷ opens (codes "apiKey")
      ∷ venue.api_key
      ∷ (closes ++ opens (codes "newClientOrderId"))
      ∷ cid
      ∷ closes
      ∷ pieces_if priced (opens (codes "price") ∷ p_str ∷ closes ∷ []) (
          opens (codes "quantity")
          ∷ q_str
          ∷ (closes ++ opens (codes "side"))
          ∷ side
          ∷ (closes ++ opens (codes "symbol"))
          ∷ sym
          ∷ closes
          ∷ pieces_if (not untimed) (opens (codes "timeInForce") ∷ tif ∷ closes ∷ []) (
              (quote ++ codes "timestamp" ++ quote ++ codes ":")
              ∷ to_string ts
              ∷ (codes "," ++ opens (codes "type"))
              ∷ type
              ∷ (closes ++ opens (codes "signature"))
              ∷ sig
              ∷ (quote ++ codes "}}")
              ∷ [])))

  unfoldable pub sign : Text → Text
  unfolding to_hex
  sign payload = to_hex (venue.hmac venue.api_secret payload)

  -- `ts` is the clock's reading.
  unfoldable pub build_order_msg : ℕ → Text → Text → Text → Text → W → W → Text → ℕ → Text
  unfolding precision_for order_payload order_json sign
  build_order_msg id cid sym side type qty price tif ts =
      let prec = precision_for sym in
      let q_str = venue.format_decimal qty prec.qty_decimals in
      let p_str = venue.format_decimal price prec.price_decimals in
      let priced = d.nought <? price in
      let untimed = is_empty tif in
      order_json id cid sym side type q_str p_str tif ts priced untimed
        (sign (order_payload cid sym side type q_str p_str tif ts priced untimed))

  unfoldable pub cancel_payload : Text → Text → ℕ → Text
  cancel_payload sym cid ts = concat (
      codes "apiKey="
      ∷ venue.api_key
      ∷ codes "&origClientOrderId="
      ∷ cid
      ∷ codes "&symbol="
      ∷ sym
      ∷ codes "&timestamp="
      ∷ to_string ts
      ∷ [])

  unfoldable pub cancel_msg : ℕ → Text → Text → ℕ → Text
  unfolding cancel_payload sign
  cancel_msg id sym cid ts = concat (
      (codes "{" ++ opens (codes "id"))
      ∷ to_string id
      ∷ (closes
          ++ opens (codes "method")
          ++ codes "order.cancel"
          ++ closes
          ++ quote
          ++ codes "params"
          ++ quote
          ++ codes ":{")
      ∷ opens (codes "apiKey")
      ∷ venue.api_key
      ∷ (closes ++ opens (codes "origClientOrderId"))
      ∷ cid
      ∷ (closes ++ opens (codes "symbol"))
      ∷ sym
      ∷ (closes ++ quote ++ codes "timestamp" ++ quote ++ codes ":")
      ∷ to_string ts
      ∷ (codes "," ++ opens (codes "signature"))
      ∷ sign (cancel_payload sym cid ts)
      ∷ (quote ++ codes "}}")
      ∷ [])

  unfoldable pub limit_msg : ℕ → Text → Text → Side → W → W → ℕ → Text
  unfolding build_order_msg
  limit_msg id cid sym side price qty ts =
      build_order_msg id cid sym (side_text side) (codes "LIMIT") qty price (codes "GTX") ts

  unfoldable pub market_msg : ℕ → Text → Text → Side → W → ℕ → Text
  unfolding build_order_msg
  market_msg id cid sym side qty ts =
      build_order_msg id cid sym (side_text side) (codes "MARKET") qty d.nought [] ts
