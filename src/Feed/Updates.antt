-- ===== src/Feed/Updates.antt =====
-- What one message does, on every branch, and that the feed only ever updates orders.
use holographic_market.Base.{
  ℕ, ◌≡◌, refl, sym, ap, ◌∙◌, subst, Bool, true, false, List, [], ◌∷◌, ◌++◌, Option, none, some,
  inl, inr, Bool-cases, Option-cases, if◌then◌else◌,
}
use holographic_market.Base.Bytes.{codes, ◌>>=◌}
use holographic_market.Base.Int.{ℤ}
use holographic_market.Base.Table.{same_text, same_text_iff}
use holographic_market.Base.Double.{Double}
use holographic_market.Oms.Order.{Text}
use holographic_market.Oms.Core.{Oms, Op, registers, updates, releases, step, run}
use holographic_market.Feed.{
  Json, Handled, TradeUpdate, OrderLookup, trade_update, apply_trade, apply_lookup,
  handle_order_trade_update, handle_event, handle_message, event_of, order_event, unhandled,
}

-- An update, of any order.
abbrev pub IsUpdate : {W : Type 0} → Op W → Type 0
IsUpdate (registers id symbol side price qty now mono) = ⊥
IsUpdate (updates key status cumulative last_price exchange_id event_ns commission) = Unit {0}
IsUpdate (releases key) = ⊥

abbrev pub AllUpdates : {W : Type 0} → List (Op W) → Type 0
AllUpdates [] = Unit {0}
AllUpdates (op ∷ ops) = IsUpdate op × AllUpdates ops

module _ {W : Type 0} ⦃d : Double W⦄ where
  -- The second manager comes of the first by updates alone.
  abbrev pub Driven : Oms W → Oms W → Type 0
  Driven o o' = (ops : List (Op W)) × AllUpdates ops × (run o ops ≡ o')

  pub Driven-refl : (o : Oms W) → Driven o o
  unfolding run
  Driven-refl o = ([], tt, refl)

  AllUpdates-append :
      (ops more : List (Op W)) → AllUpdates ops → AllUpdates more → AllUpdates (ops ++ more)
  AllUpdates-append [] more p q = q
  AllUpdates-append (op ∷ ops) more p q = (p.0, AllUpdates-append ops more p.1 q)

  run-append : (o : Oms W) (ops more : List (Op W)) → run o (ops ++ more) ≡ run (run o ops) more
  unfolding run
  run-append o [] more = refl
  run-append o (op ∷ ops) more = run-append (step o op) ops more

  pub Driven-trans : (o p q : Oms W) → Driven o p → Driven p q → Driven o q
  Driven-trans o p q (ops, u, e) (more, v, f) = (
    ops ++ more,
    AllUpdates-append ops more u v,
    run-append o ops more ∙ ap (λ t. run t more) e ∙ f,
  )

  module _ (from_chars : Text → Option W) where
    apply_trade-Driven : (o : Oms W) (u : TradeUpdate) → Driven o (apply_trade from_chars o u)
    unfolding apply_trade run step
    apply_trade-Driven o u = (updates _ _ _ _ _ _ _ ∷ [], (tt, tt), refl)

    pub apply_lookup-Driven :
        (o : Oms W) (key : ℕ) (event_ns : ℤ) (u : OrderLookup)
        → Driven o (apply_lookup from_chars o key event_ns u)
    unfolding apply_lookup run step
    apply_lookup-Driven o key event_ns u = (updates _ _ _ _ _ _ _ ∷ [], (tt, tt), refl)

abbrev pub is_type : Text → Option Text → Bool
is_type t none = false
is_type t (some s) = same_text s t

module _ {J : Type 0} (json : Json J) where
  -- The type of the event that the message holds, if it holds one.
  abbrev pub event_type : Text → Option Text
  event_type text = do doc ← json.parse text; json.text_at doc (codes "e")

  abbrev pub update_of : Option J → Option TradeUpdate
  update_of none = none
  update_of (some o) = trade_update json o

  -- The order update in a document: it has the type, and an object with the four fields that an
  -- update needs.
  abbrev pub update_within : J → Text → Option TradeUpdate
  update_within doc type =
      if same_text type (codes "ORDER_TRADE_UPDATE")
      then update_of (json.element_at doc (codes "o"))
      else none

  abbrev pub update_in : Text → Option TradeUpdate
  update_in text = do (doc, type) ← event_of json text; update_within doc type

module _ {W : Type 0} ⦃d : Double W⦄ (from_chars : Text → Option W) where
  abbrev pub applied : Oms W → Option TradeUpdate → Oms W
  applied o none = o
  applied o (some u) = apply_trade from_chars o u

module _ {J W : Type 0} ⦃d : Double W⦄ (json : Json J) (from_chars : Text → Option W) where
  trade-applied :
      (o : Oms W) (e : J)
      → handle_order_trade_update json from_chars o e ≡ applied from_chars o (trade_update json e)
  unfolding handle_order_trade_update
  trade-applied o e = elim (Option-cases (trade_update json e)) [
    | inl f ↦ rw (f, handle_order_trade_update)
    | inr (u, f) ↦ rw (f, handle_order_trade_update)
  ]

  order_event-applied :
      (o : Oms W) (e : Option J)
      → order_event json from_chars o e ≡ unhandled (applied from_chars o (update_of json e))
  order_event-applied o none = refl
  order_event-applied o (some e) = ap unhandled (trade-applied o e)

  -- What `handle_event` should come to.
  abbrev expected : Oms W → Text → J → Text → Handled W
  expected o text doc type = record {
    reconnect = same_text type (codes "listenKeyExpired");
    margin_call = if same_text type (codes "MARGIN_CALL") then some text else none;
    oms = applied from_chars o (update_within json doc type);
  }

  at_type :
      (o : Oms W) (text : Text) (doc : J) (type name : Text)
      → same_text type name ≡ true
      → handle_event json from_chars o text doc name ≡ expected o text doc name
      → handle_event json from_chars o text doc type ≡ expected o text doc type
  at_type o text doc type name e =
      subst (λ t. handle_event json from_chars o text doc t ≡ expected o text doc t)
        (sym ((same_text_iff type name).0 e))

  handle_event_lem :
      (o : Oms W) (text : Text) (doc : J) (type : Text)
      → handle_event json from_chars o text doc type ≡ expected o text doc type
  unfolding handle_event
  handle_event_lem o text doc type =
      elim (Bool-cases (same_text type (codes "ORDER_TRADE_UPDATE"))) [
        | inl e ↦
            at_type o text doc type _ e (order_event-applied o (json.element_at doc (codes "o")))
        | inr e ↦ elim (Bool-cases (same_text type (codes "listenKeyExpired"))) [
          | inl f ↦ at_type o text doc type _ f refl
          | inr f ↦ elim (Bool-cases (same_text type (codes "MARGIN_CALL"))) [
            | inl g ↦ at_type o text doc type _ g refl
            | inr g ↦ rw (e, f, g, handle_event)
          ]
        ]
      ]

  -- What one message does, whatever it holds. The connection is given up exactly on a
  -- `listenKeyExpired`; the margin-call callback is given exactly the text of a `MARGIN_CALL`; the
  -- order manager is changed exactly by an `ORDER_TRADE_UPDATE` that has all of its four required
  -- fields, and by that as one update. A message that does not parse, has no type or is of another
  -- type does none of these.
  pub handle_message_lem :
      (o : Oms W) (text : Text)
      → handle_message json from_chars o text ≡ record {
        reconnect = is_type (codes "listenKeyExpired") (event_type json text);
        margin_call =
            if is_type (codes "MARGIN_CALL") (event_type json text) then some text else none;
        oms = applied from_chars o (update_in json text);
      }
  unfolding handle_message
  handle_message_lem o text = elim (Option-cases (json.parse text)) [
    | inl e ↦ rw (e, handle_message)
    | inr (doc, e) ↦ elim (Option-cases (json.text_at doc (codes "e"))) [
      | inl f ↦ rw (e, f, handle_message)
      | inr (type, f) ↦ rw (e, f, handle_message) (handle_event_lem o text doc type)
    ]
  ]

  applied-Driven : (o : Oms W) (u : Option TradeUpdate) → Driven o (applied from_chars o u)
  applied-Driven o none = Driven-refl o
  applied-Driven o (some u) = apply_trade-Driven from_chars o u

  -- A message changes the order manager by updates alone.
  pub handle_message-Driven :
      (o : Oms W) (text : Text) → Driven o (handle_message json from_chars o text).oms
  handle_message-Driven o text =
      rw (handle_message_lem o text) (applied-Driven o (update_in json text))
