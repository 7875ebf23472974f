-- ===== src/Engine/Book/Flow.antt =====
-- What a sequence of fills and fees does to the positions of a book.
use holographic_market.Base.{
  ◌≡◌, ◌≢◌, refl, ap, ◌∙◌, Bool, true, false, not, ◌||◌, List, [], ◌∷◌, none, some, arith,
  if◌then◌else◌,
}
use holographic_market.Base.Double.{Double, ◌<?◌, ◌≤?◌}
use holographic_market.Base.Table.{find, assign, find-assign, text_key, same_text, same_text_iff}
use holographic_market.Oms.Order.{Text, Side, signed_dir}
use holographic_market.Engine.State.{Position, flat}
use holographic_market.Engine.Book.{snapshot, filled_position, opens, apply_fill, enlarge, reduce}

pub record Fill (W : Type 0) : Type 0 where
  pub symbol : Text
  pub side : Side
  pub delta : W
  pub price : W

module _ {W : Type 0} ⦃d : Double W⦄ where
  unfoldable pub apply_fills : List (Text × Position W) → List (Fill W) → List (Text × Position W)
  apply_fills book [] = book
  apply_fills book (f ∷ fs) = apply_fills (apply_fill book f.symbol f.side f.delta f.price) fs

  -- Whether a fill is taken up: `apply_fill` ignores one without a positive quantity and price.
  abbrev pub counts : Fill W → Bool
  counts f = not ((f.delta ≤? d.nought) || (f.price ≤? d.nought))

  -- The signed quantity of one symbol after the fills, from that before.
  unfoldable pub net : Text → W → List (Fill W) → W
  net symbol q [] = q
  net symbol q (f ∷ fs) =
      net symbol
        (if same_text f.symbol symbol
          then (if counts f then d.add q (d.mul (signed_dir f.side) f.delta) else q)
          else q)
        fs

  filled_position-qty :
      (p : Position W) (signed_delta price : W)
      → (filled_position p signed_delta price).qty ≡ d.add p.qty signed_delta
  unfolding filled_position enlarge reduce
  filled_position-qty p signed_delta price = ground arith

  pub snapshot-assign :
      (book : List (Text × Position W)) (s t : Text) (p : Position W)
      → snapshot (assign s p book) t ≡ (if same_text s t then p else snapshot book t)
  unfolding snapshot
  snapshot-assign book s t p =
      ap (λ o. elim o as (λ _. Position W) [ none ↦ flat | some q ↦ q ]) (find-assign s t p book)
      ∙ elim (same_text s t)
          as (λ b.
            (elim (if b then some p else find t book) as (λ _. Position W) [
              | none ↦ flat
              | some q ↦ q
            ])
            ≡ (if b then p else snapshot book t)) [ true ↦ refl | false ↦ refl ]

  pub apply_fill-qty :
      (book : List (Text × Position W)) (f : Fill W) (t : Text)
      → (snapshot (apply_fill book f.symbol f.side f.delta f.price) t).qty ≡ (
          if same_text f.symbol t
          then (if counts f
              then d.add (snapshot book t).qty (d.mul (signed_dir f.side) f.delta)
              else (snapshot book t).qty)
          else (snapshot book t).qty)
  unfolding apply_fill
  apply_fill-qty book f t = ground (
    arith,
    same_text_iff f.symbol t,
    filled_position-qty (snapshot book f.symbol) (d.mul (signed_dir f.side) f.delta) f.price,
    snapshot-assign book f.symbol t
        (filled_position (snapshot book f.symbol) (d.mul (signed_dir f.side) f.delta) f.price),
  )

  -- After any fills, the quantity of every symbol is the one before plus the signed quantity of
  -- each fill of that symbol that has a positive quantity and price, in order: whether a fill
  -- opens, enlarges, reduces, closes or reverses the position makes no difference to it.
  pub apply_fills-qty :
      (fs : List (Fill W)) (book : List (Text × Position W)) (t : Text)
      → (snapshot (apply_fills book fs) t).qty ≡ net t (snapshot book t).qty fs
  unfolding apply_fills net
  apply_fills-qty [] book t = refl
  apply_fills-qty (f ∷ fs) book t =
      apply_fills-qty fs (apply_fill book f.symbol f.side f.delta f.price) t
      ∙ ap (λ q. net t q fs) (apply_fill-qty book f t)

  -- A fill changes the realized profit of its symbol only when it reduces the position, and the
  -- average price of a position that it reduces without closing or reversing it stays.
  pub filled_position-reduces :
      (p : Position W) (signed_delta price : W)
      → let q = filled_position p signed_delta price in
        (opens p signed_delta ≡ true → q.realized_pnl ≡ p.realized_pnl)
        × (opens p signed_delta ≡ false
            → d.eq q.qty d.nought ≡ false
            → (d.nought <? q.qty) ≡ (d.nought <? p.qty)
            → q.avg_price ≡ p.avg_price)
        × (opens p signed_delta ≡ false → d.eq q.qty d.nought ≡ true → q.avg_price ≡ d.nought)
        × (opens p signed_delta ≡ false
            → d.eq q.qty d.nought ≡ false
            → (d.nought <? q.qty) ≢ (d.nought <? p.qty)
            → q.avg_price ≡ price)
  unfolding filled_position enlarge reduce
  filled_position-reduces p signed_delta price = ground arith
