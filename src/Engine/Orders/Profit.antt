-- ===== src/Engine/Orders/Profit.antt =====
-- What the profit bookkeeping charges for the updates of an order, which are cumulative.
use holographic_market.Base.{
  ◌≡◌, refl, sym, ap, ◌∙◌, true, false, List, [], ◌∷◌, some, arith, inl, inr, Bool-cases,
}
use holographic_market.Base.Int.{ℤ, pos, ◌+ℤ◌, ◌-ℤ◌, ◌*ℤ◌, ◌≤ℤ◌, ltb_ℤ, leb_ℤ}
use holographic_market.Base.Double.{Double, ◌<?◌, whole}
use holographic_market.Base.Table.{
  int_key, find, assign, find-assign, same_ℤ_iff, text_key, same_text_iff,
}
use holographic_market.Oms.Order.{Text, Side, buy, sell, signed_dir, OrderRecord}
use holographic_market.Engine.State.{Engine, Leg, Position}
use holographic_market.Engine.Book.{snapshot, apply_fill, apply_commission}
use holographic_market.Engine.Book.Flow.{apply_fill-qty, snapshot-assign}
use holographic_market.Engine.Orders.{
  value_or, Ledger, charge_fill, charge_commission, ledger, apply_fill_pnl,
}

find-assign_self_ℤ :
    {V : Type 0} → (k : ℤ) (v : V) (m : List (ℤ × V)) → find k (assign k v m) ≡ some v
find-assign_self_ℤ k v m = ground (arith, find-assign k k v m, same_ℤ_iff k k)

module _ {W : Type 0} ⦃d : Double W⦄ where
  charge_fill_again :
      ((x : W) → (d.tiny <? d.sub x x) ≡ false)
      → (l : Ledger W) (rec : OrderRecord W) (leg : Leg W)
      → value_or d.nought (find rec.exchange_order_id l.last_filled) ≡ rec.filled_qty
      → (charge_fill l rec leg).book ≡ l.book
  unfolding charge_fill
  charge_fill_again cancels l rec leg seen = rw (seen, cancels rec.filled_qty) refl

  charge_commission_again :
      ((x : W) → (d.tiny <? d.sub x x) ≡ false)
      → (l : Ledger W) (rec : OrderRecord W) (leg : Leg W)
      → value_or d.nought (find rec.exchange_order_id l.last_commission) ≡ rec.cumulative_commission
      → (charge_commission l rec leg).book ≡ l.book
  unfolding charge_commission
  charge_commission_again cancels l rec leg seen = rw (seen, cancels rec.cumulative_commission) refl

  charge_fill_seen :
      (l : Ledger W) (rec : OrderRecord W) (leg : Leg W)
      → find rec.exchange_order_id (charge_fill l rec leg).last_filled ≡ some rec.filled_qty
  unfolding charge_fill
  charge_fill_seen l rec leg = find-assign_self_ℤ rec.exchange_order_id rec.filled_qty l.last_filled

  charge_commission_seen :
      (l : Ledger W) (rec : OrderRecord W) (leg : Leg W)
      → find rec.exchange_order_id (charge_commission l rec leg).last_commission
        ≡ some rec.cumulative_commission
  unfolding charge_commission
  charge_commission_seen l rec leg =
      find-assign_self_ℤ rec.exchange_order_id rec.cumulative_commission l.last_commission

  charge_fill-last_commission :
      (l : Ledger W) (rec : OrderRecord W) (leg : Leg W)
      → (charge_fill l rec leg).last_commission ≡ l.last_commission
  unfolding charge_fill
  charge_fill-last_commission l rec leg = refl

  charge_commission-last_filled :
      (l : Ledger W) (rec : OrderRecord W) (leg : Leg W)
      → (charge_commission l rec leg).last_filled ≡ l.last_filled
  unfolding charge_commission
  charge_commission-last_filled l rec leg = refl

  -- An update that is applied twice is charged once: the book after the second time is that after
  -- the first. The difference of a quantity and itself must not exceed the tolerance, as is so for
  -- doubles that are not infinite.
  pub apply_fill_pnl_twice :
      ((x : W) → (d.tiny <? d.sub x x) ≡ false)
      → {C : Type 0} → (e : Engine W C) (rec : OrderRecord W) (leg : Leg W)
      → (apply_fill_pnl (apply_fill_pnl e rec leg) rec leg).book ≡ (apply_fill_pnl e rec leg).book
  unfolding apply_fill_pnl value_or
  apply_fill_pnl_twice cancels e rec leg =
      let l1 = charge_fill (ledger e) rec leg in
      let l2 = charge_commission l1 rec leg in
      let x = rec.exchange_order_id in
      charge_commission_again cancels (charge_fill l2 rec leg) rec leg (
        ap (value_or d.nought) (
          ap (find x) (charge_fill-last_commission l2 rec leg) ∙ charge_commission_seen l1 rec leg))
      ∙ charge_fill_again cancels l2 rec leg (
          ap (value_or d.nought) (
            ap (find x) (charge_commission-last_filled l1 rec leg)
            ∙ charge_fill_seen (ledger e) rec leg))

  apply_commission-qty :
      (book : List (Text × Position W)) (symbol t : Text) (commission : W)
      → (snapshot (apply_commission book symbol commission) t).qty ≡ (snapshot book t).qty
  unfolding apply_commission
  apply_commission-qty book symbol t commission =
      let p = snapshot book symbol in
      ground (
        arith,
        same_text_iff symbol t,
        snapshot-assign book symbol t (record p { realized_pnl = d.sub p.realized_pnl commission }),
      )

  charge_commission-qty :
      (l : Ledger W) (rec : OrderRecord W) (leg : Leg W) (t : Text)
      → (snapshot (charge_commission l rec leg).book t).qty ≡ (snapshot l.book t).qty
  unfolding charge_commission
  charge_commission-qty l rec leg t =
      let c =
        d.sub rec.cumulative_commission
          (value_or d.nought (find rec.exchange_order_id l.last_commission)) in
      ground (arith, apply_commission-qty l.book leg.symbol t c)

  unfoldable pub apply_each : {C : Type 0} → Engine W C → Leg W → List (OrderRecord W) → Engine W C
  apply_each e leg [] = e
  apply_each e leg (r ∷ rs) = apply_each (apply_fill_pnl e r leg) leg rs

-- What follows is over exact amounts.
abbrev pub directed : Side → ℤ → ℤ
directed buy x = x
directed sell x = pos 0 -ℤ x

-- Updates of the order `x` with a price, each at least as filled as the one before.
abbrev pub Rises : ℤ → ℤ → List (OrderRecord ℤ) → Type 0
Rises x filled [] = Unit {0}
Rises x filled (r ∷ rs) =
    (r.exchange_order_id ≡ x)
    × (ltb_ℤ (pos 0) r.avg_fill_price ≡ true)
    × (filled ≤ℤ r.filled_qty)
    × Rises x r.filled_qty rs

abbrev pub last_fill : ℤ → List (OrderRecord ℤ) → ℤ
last_fill filled [] = filled
last_fill filled (r ∷ rs) = last_fill r.filled_qty rs

directed_mul : (side : Side) (q x : ℤ) → q +ℤ (signed_dir side *ℤ x) ≡ q +ℤ directed side x
directed_mul buy q x = ap (λ y. q +ℤ y) (ground arith)
directed_mul sell q x = ap (λ y. q +ℤ y) (ground arith)

traded :
    (book : List (Text × Position ℤ)) (symbol : Text) (side : Side) (delta price : ℤ)
    → ltb_ℤ (pos 0) delta ≡ true
    → ltb_ℤ (pos 0) price ≡ true
    → (snapshot (apply_fill book symbol side delta price) symbol).qty
      ≡ (snapshot book symbol).qty +ℤ directed side delta
traded book symbol side delta price positive priced =
    let q = (snapshot book symbol).qty in
    apply_fill-qty book (record { symbol = symbol; side = side; delta = delta; price = price })
      symbol
    ∙ rw ((same_text_iff symbol symbol).1 refl, no_sign delta positive, no_sign price priced)
        (directed_mul side q delta)
  where
    no_sign : (x : ℤ) → ltb_ℤ (pos 0) x ≡ true → leb_ℤ x (pos 0) ≡ false
    no_sign x h = ground arith

directed_zero : (side : Side) (q x : ℤ) → x ≤ℤ pos 0 → pos 0 ≤ℤ x → q ≡ q +ℤ directed side x
directed_zero side q x above below = ground arith

not_above : (x : ℤ) → ltb_ℤ (pos 0) x ≡ false → x ≤ℤ pos 0
not_above x h = ground arith

rise_sign : (p x : ℤ) → p ≤ℤ x → pos 0 ≤ℤ (x -ℤ p)
rise_sign p x h = ground arith

charge_fill-qty :
    (l : Ledger ℤ) (r : OrderRecord ℤ) (leg : Leg ℤ) (prev : ℤ)
    → value_or (pos 0) (find r.exchange_order_id l.last_filled) ≡ prev
    → ltb_ℤ (pos 0) r.avg_fill_price ≡ true
    → prev ≤ℤ r.filled_qty
    → (snapshot (charge_fill l r leg).book leg.symbol).qty
      ≡ (snapshot l.book leg.symbol).qty +ℤ directed leg.side (r.filled_qty -ℤ prev)
unfolding charge_fill
charge_fill-qty l r leg prev seen priced rises =
    let delta = r.filled_qty -ℤ prev in
    elim (Bool-cases (ltb_ℤ (pos 0) delta)) [
      | inl e ↦
          rw (seen, e, priced) (traded l.book leg.symbol leg.side delta r.avg_fill_price e priced)
      | inr e ↦
          rw (seen, e)
            (directed_zero leg.side (snapshot l.book leg.symbol).qty delta (not_above delta e)
              (rise_sign prev r.filled_qty rises))
    ]

apply_fill_pnl-qty :
    {C : Type 0}
    → (e : Engine ℤ C) (r : OrderRecord ℤ) (leg : Leg ℤ) (prev : ℤ)
    → value_or (pos 0) (find r.exchange_order_id e.last_filled) ≡ prev
    → ltb_ℤ (pos 0) r.avg_fill_price ≡ true
    → prev ≤ℤ r.filled_qty
    → ((snapshot (apply_fill_pnl e r leg).book leg.symbol).qty
        ≡ (snapshot e.book leg.symbol).qty +ℤ directed leg.side (r.filled_qty -ℤ prev))
      × (find r.exchange_order_id (apply_fill_pnl e r leg).last_filled ≡ some r.filled_qty)
unfolding apply_fill_pnl
apply_fill_pnl-qty e r leg prev seen priced rises =
    let l = charge_fill (ledger e) r leg in
    (
      charge_commission-qty l r leg leg.symbol
          ∙ charge_fill-qty (ledger e) r leg prev seen priced rises,
      ap (find r.exchange_order_id) (charge_commission-last_filled l r leg)
          ∙ charge_fill_seen (ledger e) r leg,
    )

sub_chain : (a b p : ℤ) → (a -ℤ p) +ℤ (b -ℤ a) ≡ b -ℤ p
sub_chain a b p = ground arith

add_assoc : (q x y : ℤ) → q +ℤ x +ℤ y ≡ q +ℤ (x +ℤ y)
add_assoc q x y = ground arith

directed_add : (side : Side) (x y : ℤ) → directed side x +ℤ directed side y ≡ directed side (x +ℤ y)
directed_add buy x y = refl
directed_add sell x y = ground arith

-- Over exact amounts, cumulative updates of one order are charged once in all: after any number of
-- them, each with an average price above 0 and at least as filled as the one before, the position
-- has changed by the last filled quantity less the one that was charged before, in the direction
-- of the leg.
pub apply_each-qty :
    {C : Type 0}
    → (rs : List (OrderRecord ℤ)) (e : Engine ℤ C) (leg : Leg ℤ) (x prev : ℤ)
    → value_or (pos 0) (find x e.last_filled) ≡ prev
    → Rises x prev rs
    → (snapshot (apply_each e leg rs).book leg.symbol).qty
      ≡ (snapshot e.book leg.symbol).qty +ℤ directed leg.side (last_fill prev rs -ℤ prev)
unfolding apply_each value_or
apply_each-qty [] e leg x prev seen rises =
    directed_zero leg.side (snapshot e.book leg.symbol).qty (prev -ℤ prev) (self_below prev)
      (self_above prev)
  where
    self_below : (p : ℤ) → (p -ℤ p) ≤ℤ pos 0
    self_below p = ground arith

    self_above : (p : ℤ) → pos 0 ≤ℤ (p -ℤ p)
    self_above p = ground arith
apply_each-qty (r ∷ rs) e leg x prev seen (same, priced, above, rest) =
    let q = (snapshot e.book leg.symbol).qty in
    let (charged, noted) =
      apply_fill_pnl-qty e r leg prev
        (ap (λ y. value_or (pos 0) (find y e.last_filled)) same ∙ seen) priced above in
    let noted' =
      ap (value_or (pos 0))
        (ap (λ y. find y (apply_fill_pnl e r leg).last_filled) (sym same) ∙ noted) in
    apply_each-qty rs (apply_fill_pnl e r leg) leg x r.filled_qty noted' rest
    ∙ ap (λ y. y +ℤ directed leg.side (last_fill r.filled_qty rs -ℤ r.filled_qty)) charged
    ∙ add_assoc q (directed leg.side (r.filled_qty -ℤ prev))
        (directed leg.side (last_fill r.filled_qty rs -ℤ r.filled_qty))
    ∙ ap (λ y. q +ℤ y)
        (directed_add leg.side (r.filled_qty -ℤ prev) (last_fill r.filled_qty rs -ℤ r.filled_qty)
          ∙ ap (directed leg.side) (sub_chain r.filled_qty (last_fill r.filled_qty rs) prev))
