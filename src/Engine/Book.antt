-- ===== src/Engine/Book.antt =====
-- `PnlBook`: positions by symbol, with an average price each.
pub mod Flow
use holographic_market.Base.{
  Bool, not, ◌||◌, ◌&&◌, List, [], ◌∷◌, Option, none, some, if◌then◌else◌,
}
use holographic_market.Base.Double.{Double, ◌<?◌, ◌≤?◌, least, magnitude, negate}
use holographic_market.Base.Table.{find, assign, text_key}
use holographic_market.Oms.Order.{Text, Side, signed_dir}
use holographic_market.Engine.State.{Position, flat}

abbrev pub xnor : Bool → Bool → Bool
xnor a b = (a && b) || (not a && not b)

module _ {W : Type 0} ⦃d : Double W⦄ where
  -- `book_[symbol]`, and `snapshot`: a symbol without an entry has a flat position.
  unfoldable pub snapshot : List (Text × Position W) → Text → Position W
  snapshot book symbol = elim (find symbol book) [ none ↦ flat | some p ↦ p ]

  abbrev pub opens : Position W → W → Bool
  opens p signed_delta = d.eq p.qty d.nought || xnor (d.nought <? p.qty) (d.nought <? signed_delta)

  unfoldable pub enlarge : Position W → W → W → Position W
  enlarge p signed_delta fill_price =
      let new_qty = d.add p.qty signed_delta in
      record p {
        avg_price =
            if d.eq p.qty d.nought
            then fill_price
            else (d.div
                (d.add (d.mul p.avg_price (magnitude p.qty))
                  (d.mul fill_price (magnitude signed_delta)))
                (magnitude new_qty));
        qty = new_qty;
      }

  unfoldable pub reduce : Position W → W → W → Position W
  reduce p signed_delta fill_price =
      let closing_qty = least (magnitude signed_delta) (magnitude p.qty) in
      let dir_sign = if d.nought <? p.qty then d.one else negate d.one in
      let new_qty = d.add p.qty signed_delta in
      record {
        qty = new_qty;
        avg_price =
            if d.eq new_qty d.nought
            then d.nought
            else (if not (xnor (d.nought <? new_qty) (d.nought <? p.qty))
                then fill_price
                else p.avg_price);
        realized_pnl =
            d.add p.realized_pnl
              (d.mul (d.mul dir_sign (d.sub fill_price p.avg_price)) closing_qty);
      }

  -- The change of one position.
  unfoldable pub filled_position : Position W → W → W → Position W
  unfolding enlarge reduce
  filled_position p signed_delta fill_price =
      if opens p signed_delta
      then enlarge p signed_delta fill_price
      else reduce p signed_delta fill_price

  unfoldable pub apply_fill :
      List (Text × Position W) → Text → Side → W → W → List (Text × Position W)
  unfolding filled_position snapshot
  apply_fill book symbol side delta_qty fill_price =
      if (delta_qty ≤? d.nought) || (fill_price ≤? d.nought)
      then book
      else (let signed_delta = d.mul (signed_dir side) delta_qty in
          assign symbol (filled_position (snapshot book symbol) signed_delta fill_price) book)

  unfoldable pub apply_commission : List (Text × Position W) → Text → W → List (Text × Position W)
  unfolding snapshot
  apply_commission book symbol commission =
      if commission ≤? d.nought
      then book
      else (let p = snapshot book symbol in
          assign symbol (record p { realized_pnl = d.sub p.realized_pnl commission }) book)

  unfoldable pub add_marked : W → Position W → W → W
  add_marked total p mark =
      let total' = d.add total p.realized_pnl in
      if d.eq p.qty d.nought
      then total'
      else (if d.nought <? mark
          then d.add total' (d.mul (d.sub mark p.avg_price) p.qty)
          else total')

  unfoldable pub total_from : W → (Text → W) → List (Text × Position W) → W
  unfolding add_marked
  total_from total mark_price [] = total
  total_from total mark_price ((symbol, p) ∷ book) =
      total_from (add_marked total p (mark_price symbol)) mark_price book

  unfoldable pub total_pnl : (Text → W) → List (Text × Position W) → W
  unfolding total_from
  total_pnl mark_price book = total_from d.nought mark_price book
