-- ===== src/Gateway/Signed.antt =====
-- What is signed is what is sent: the signed query and the parameters of a request are two forms of
-- one list of fields.
use holographic_market.Base.{
  ℕ, ◌≡◌, refl, Bool, true, false, List, [], ◌∷◌, ◌++◌, ap, ◌∙◌, ltb, ◌==◌, ◌&&◌, ◌||◌,
  if◌then◌else◌,
}
use holographic_market.Base.Bytes.{codes}
use holographic_market.Base.Double.{Double, ◌<?◌}
use holographic_market.Oms.Order.{Text}
use holographic_market.Engine.Orders.{to_string}
use holographic_market.Gateway.Texts.{
  precision_for, Venue, is_empty, order_payload, order_json, sign, build_order_msg, cancel_msg,
}

-- A value is written with or without quotation marks.
pub data Value : Type 0 where
  quoted bare : Text → Value

abbrev pub Fields : Type 0
Fields = List (Text × Value)

abbrev pub plain : Value → Text
plain (quoted t) = t
plain (bare t) = t

-- `key=value&key=value`
abbrev pub query_more : Fields → Text
query_more [] = []
query_more ((k, v) ∷ fields) = 38 ∷ (k ++ (61 ∷ (plain v ++ query_more fields)))

abbrev pub query_text : Fields → Text
query_text [] = []
query_text ((k, v) ∷ fields) = k ++ (61 ∷ (plain v ++ query_more fields))

abbrev pub json_value : Value → Text → Text
json_value (quoted t) rest = 34 ∷ (t ++ (34 ∷ rest))
json_value (bare t) rest = t ++ rest

-- `"key":value,` for each field, and then the rest.
abbrev pub json_fields : Fields → Text → Text
json_fields [] rest = rest
json_fields ((k, v) ∷ fields) rest =
    34 ∷ (k ++ (34 ∷ 58 ∷ json_value v (44 ∷ json_fields fields rest)))

-- A request: its number, its method, and the fields with the signature behind them.
abbrev pub request : Text → Text → Fields → Text → Text
request id method fields sig =
    123
    ∷ json_fields ((codes "id", quoted id) ∷ (codes "method", quoted method) ∷ []) (
        34
        ∷ (codes "params"
            ++ (34
                ∷ 58
                ∷ 123
                ∷ json_fields fields (
                    34
                    ∷ (codes "signature"
                        ++ (34 ∷ 58 ∷ json_value (quoted sig) (125 ∷ 125 ∷ [])))))))

-- Texts in the order of their bytes, a text before its continuations.
abbrev pub before : Text → Text → Bool
before [] [] = false
before [] (b ∷ t) = true
before (a ∷ s) [] = false
before (a ∷ s) (b ∷ t) = ltb a b || (a == b && before s t)

abbrev pub ascends : Fields → Bool
ascends [] = true
ascends ((k, v) ∷ []) = true
ascends ((k, v) ∷ ((l, w) ∷ fields)) = before k l && ascends ((l, w) ∷ fields)

module _ {W : Type 0} ⦃d : Double W⦄ (venue : Venue W) where
  -- The request has these fields, in the ascending order of their keys that the venue asks for,
  -- and the signature is that of the query of the same fields.
  pub record IsSigned (id method : Text) (fields : Fields) (msg : Text) : Type 0 where
    pub text : msg ≡ request id method fields (sign venue (query_text fields))
    pub ascending : ascends fields ≡ true

  abbrev pub late_fields : Text → Text → ℕ → Bool → Fields
  late_fields type tif ts timed =
      let last = (codes "timestamp", bare (to_string ts)) ∷ (codes "type", quoted type) ∷ [] in
      if timed then last else (codes "timeInForce", quoted tif) ∷ last

  abbrev pub order_fields :
      Text → Text → Text → Text → Text → Text → Text → ℕ → Bool → Bool → Fields
  order_fields cid sym side type q_str p_str tif ts priced untimed =
      let middle =
        (codes "quantity", quoted q_str)
        ∷ (codes "side", quoted side)
        ∷ (codes "symbol", quoted sym)
        ∷ late_fields type tif ts untimed in
      (codes "apiKey", quoted venue.api_key)
      ∷ (codes "newClientOrderId", quoted cid)
      ∷ (if priced then (codes "price", quoted p_str) ∷ middle else middle)

  payload-fields :
      (cid sym side type q_str p_str tif : Text) (ts : ℕ) (priced untimed : Bool)
      → order_payload venue cid sym side type q_str p_str tif ts priced untimed
        ≡ query_text (order_fields cid sym side type q_str p_str tif ts priced untimed)
  unfolding order_payload
  payload-fields cid sym side type q_str p_str tif ts true true = refl
  payload-fields cid sym side type q_str p_str tif ts true false = refl
  payload-fields cid sym side type q_str p_str tif ts false true = refl
  payload-fields cid sym side type q_str p_str tif ts false false = refl

  json-fields :
      (id : ℕ) (cid sym side type q_str p_str tif : Text) (ts : ℕ) (priced untimed : Bool)
      (sig : Text)
      → order_json venue id cid sym side type q_str p_str tif ts priced untimed sig
        ≡ request
            (to_string id)
            (codes "order.place")
            (order_fields cid sym side type q_str p_str tif ts priced untimed)
            sig
  unfolding order_json
  json-fields id cid sym side type q_str p_str tif ts true true sig = refl
  json-fields id cid sym side type q_str p_str tif ts true false sig = refl
  json-fields id cid sym side type q_str p_str tif ts false true sig = refl
  json-fields id cid sym side type q_str p_str tif ts false false sig = refl

  order-ascends :
      (cid sym side type q_str p_str tif : Text) (ts : ℕ) (priced untimed : Bool)
      → ascends (order_fields cid sym side type q_str p_str tif ts priced untimed) ≡ true
  order-ascends cid sym side type q_str p_str tif ts true true = refl
  order-ascends cid sym side type q_str p_str tif ts true false = refl
  order-ascends cid sym side type q_str p_str tif ts false true = refl
  order-ascends cid sym side type q_str p_str tif ts false false = refl

  abbrev pub cancel_fields : Text → Text → ℕ → Fields
  cancel_fields sym cid ts =
      (codes "apiKey", quoted venue.api_key)
      ∷ (codes "origClientOrderId", quoted cid)
      ∷ (codes "symbol", quoted sym)
      ∷ (codes "timestamp", bare (to_string ts))
      ∷ []

  -- The fields of an order for what the caller gives.
  abbrev pub order_of : Text → Text → Text → Text → W → W → Text → ℕ → Fields
  order_of cid sym side type qty price tif ts =
      let prec = precision_for sym in
      order_fields cid sym side type (venue.format_decimal qty prec.qty_decimals)
        (venue.format_decimal price prec.price_decimals) tif ts (d.nought <? price) (is_empty tif)

  -- The two requests, whatever they hold. The text is that of the method and of the fields, of which
  -- the price is left out when it is not above 0 and the time in force when it is empty; the
  -- signature behind them is that of the query of exactly the same fields; and the keys of the
  -- fields are in ascending order.
  pub build_order_msg-IsSigned :
      (id : ℕ) (cid sym side type : Text) (qty price : W) (tif : Text) (ts : ℕ)
      → IsSigned
          (to_string id)
          (codes "order.place")
          (order_of cid sym side type qty price tif ts)
          (build_order_msg venue id cid sym side type qty price tif ts)
        × IsSigned
            (to_string id)
            (codes "order.cancel")
            (cancel_fields sym cid ts)
            (cancel_msg venue id sym cid ts)
  unfolding build_order_msg cancel_msg
  build_order_msg-IsSigned id cid sym side type qty price tif ts = (
    record {
      text =
          json-fields id cid sym side type q_str p_str tif ts (d.nought <? price) (is_empty tif) _
          ∙ ap
              (λ p.
                request (to_string id) (codes "order.place")
                  (order_of cid sym side type qty price tif ts) (sign venue p))
              (payload-fields cid sym side type q_str p_str tif ts (d.nought <? price)
                (is_empty tif));
      ascending =
          order-ascends cid sym side type q_str p_str tif ts (d.nought <? price) (is_empty tif);
    },
    record { text = refl; ascending = refl },
  )
    where
      q_str : Text
      q_str = venue.format_decimal qty (precision_for sym).qty_decimals

      p_str : Text
      p_str = venue.format_decimal price (precision_for sym).price_decimals
