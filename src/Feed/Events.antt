-- ===== src/Feed/Events.antt =====
-- Which orders a message of the user stream changes, and how, from the fields of the message.
use mathlib.Core.Option
use holographic_market.Base.{
  ℕ, ◌≡◌, refl, [], ◌∷◌, Option, none, some, ◌==◌, inl, inr, Bool-cases, Option-cases,
  if◌then◌else◌,
}
use holographic_market.Base.Bytes.{codes, ◌>>=◌, or_else}
use holographic_market.Base.Int.{ℤ, pos, ◌*ℤ◌}
use holographic_market.Base.Table.{same_text}
use holographic_market.Base.Double.{Double}
use holographic_market.Oms.Order.{Text, OrderRecord, fnv1a64}
use holographic_market.Oms.Core.{Oms, get, updated}
use holographic_market.Oms.Inv.{Inv}
use holographic_market.Oms.Runs.{get-update}
use holographic_market.Feed.{
  Json, map_status, svtod, svtod_or_nought, trade_update, apply_trade, handle_message,
}
use holographic_market.Feed.Updates.{
  is_type, event_type, applied, update_of, update_in, handle_message_lem,
}

module _ {J W : Type 0} ⦃d : Double W⦄ (json : Json J) (from_chars : Text → Option W) where
  -- A text that may be missing or empty, as an amount.
  abbrev pub amount : Option Text → W
  amount none = d.nought
  amount (some []) = d.nought
  amount (some (c ∷ s)) = svtod from_chars (c ∷ s)

  abbrev pub time_of : Option ℤ → ℤ
  time_of none = pos 0
  time_of (some ms) = ms *ℤ pos 1000000

  -- What key `j` leads to after an order object with these fields `c`, `X`, `z` and `i`.
  abbrev pub traded :
      Oms W → ℕ → J → Option Text → Option Text → Option Text → Option ℤ → Option (OrderRecord W)
  traded o j e (some c) (some x) (some z) (some i) =
      if fnv1a64 c == j
      then Option.map
          (λ r.
            updated r (map_status x) (svtod from_chars z) (amount (json.text_at e (codes "L"))) i
              (time_of (json.int_at e (codes "T"))) (amount (json.text_at e (codes "n"))))
          (get o j)
      else get o j
  traded o j e _ _ _ _ = get o j

  abbrev pub after_order : Oms W → ℕ → Option J → Option (OrderRecord W)
  after_order o j none = get o j
  after_order o j (some e) =
      traded o j e (json.text_at e (codes "c")) (json.text_at e (codes "X"))
        (json.text_at e (codes "z")) (json.int_at e (codes "i"))

  -- The order object of a message that is an order update.
  abbrev pub order_in : Text → Option J
  order_in text = do
    doc ← json.parse text
    type ← json.text_at doc (codes "e")
    if same_text type (codes "ORDER_TRADE_UPDATE") then json.element_at doc (codes "o") else none

  amount_lem : (t : Option Text) → svtod_or_nought from_chars (or_else [] t) ≡ amount t
  amount_lem none = refl
  amount_lem (some []) = refl
  amount_lem (some (c ∷ s)) = refl

  time_lem : (t : Option ℤ) → (or_else (pos 0) t *ℤ pos 1000000) ≡ time_of t
  time_lem none = refl
  time_lem (some ms) = refl

  get-trade :
      (o : Oms W) (e : J) (j : ℕ)
      → Inv o
      → get (applied from_chars o (trade_update json e)) j ≡ after_order o j (some e)
  unfolding trade_update apply_trade
  get-trade o e j v = elim (Option-cases (json.text_at e (codes "c"))) [
    | inl p ↦ rw p refl
    | inr (c, p) ↦ elim (Option-cases (json.text_at e (codes "X"))) [
      | inl q ↦ rw (p, q) refl
      | inr (x, q) ↦ elim (Option-cases (json.text_at e (codes "z"))) [
        | inl r ↦ rw (p, q, r) refl
        | inr (z, r) ↦ elim (Option-cases (json.int_at e (codes "i"))) [
          | inl s ↦ rw (p, q, r, s) refl
          | inr (i, s) ↦
              rw
                (
                  p,
                  q,
                  r,
                  s,
                  amount_lem (json.text_at e (codes "L")),
                  amount_lem (json.text_at e (codes "n")),
                  time_lem (json.int_at e (codes "T")),
                )
                (get-update o (fnv1a64 c) j _ _ _ _ _ _ v)
        ]
      ]
    ]
  ]

  get-update_of :
      (o : Oms W) (e : Option J) (j : ℕ)
      → Inv o
      → get (applied from_chars o (update_of json e)) j ≡ after_order o j e
  get-update_of o none j v = refl
  get-update_of o (some e) j v = get-trade o e j v

  get-update_in :
      (o : Oms W) (text : Text) (j : ℕ)
      → Inv o
      → get (applied from_chars o (update_in json text)) j ≡ after_order o j (order_in text)
  get-update_in o text j v = elim (Option-cases (json.parse text)) [
    | inl p ↦ rw p refl
    | inr (doc, p) ↦ elim (Option-cases (json.text_at doc (codes "e"))) [
      | inl q ↦ rw (p, q) refl
      | inr (type, q) ↦ elim (Bool-cases (same_text type (codes "ORDER_TRADE_UPDATE"))) [
        | inl r ↦ rw (p, q, r) (get-update_of o (json.element_at doc (codes "o")) j v)
        | inr r ↦ rw (p, q, r) refl
      ]
    ]
  ]

  -- What one message does, whatever it holds. The connection is given up exactly on a
  -- `listenKeyExpired`, and the margin-call callback is given exactly the text of a `MARGIN_CALL`.
  -- If the message is an `ORDER_TRADE_UPDATE` whose order object has the four fields `c`, `X`, `z`
  -- and `i`, then the order of the client id `c`, if it is known, is updated by the status `X`, the
  -- filled quantity `z`, the exchange's number `i`, and price, commission and time as far as it has
  -- them; no other order changes, and none on any other message. The order manager is sound.
  pub get-handle_message :
      (o : Oms W) (text : Text) (j : ℕ)
      → Inv o
      → let h = handle_message json from_chars o text in
        (h.reconnect ≡ is_type (codes "listenKeyExpired") (event_type json text))
        × (h.margin_call
            ≡ (if is_type (codes "MARGIN_CALL") (event_type json text) then some text else none))
        × (get h.oms j ≡ after_order o j (order_in text))
  get-handle_message o text j v =
      rw (handle_message_lem json from_chars o text) (refl, refl, get-update_in o text j v)
