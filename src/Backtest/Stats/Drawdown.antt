-- ===== src/Backtest/Stats/Drawdown.antt =====
-- What the reported drawdown is, and what is reported without a return.
use holographic_market.Base.{
  ℕ, ◌≡◌, refl, sym, subst, Bool, true, false, List, [], ◌∷◌, if◌then◌else◌, ◌⊎◌, inl, inr,
  Bool-cases,
}
use holographic_market.Base.Double.{Double, IsOrdered, ◌<?◌}
use holographic_market.Oms.Fills.{AtLeast, AtLeast-trans}
use holographic_market.Backtest.Stats.{
  returns_from, raise, fall, drawdown_from, evaluate, evaluate_returns,
}

module _ {W : Type 0} ⦃d : Double W⦄ where
  -- The falls of all points from the greatest point so far.
  abbrev pub falls : W → List W → List W
  falls peak [] = []
  falls peak (x ∷ curve) = fall (raise peak x) x ∷ falls (raise peak x) curve

  abbrev pub NoneAbove : W → List W → Type 0
  NoneAbove m [] = Unit {0}
  NoneAbove m (x ∷ xs) = ((m <? x) ≡ false) × NoneAbove m xs

  abbrev pub Among : W → List W → Type 0
  Among m [] = ⊥
  Among m (x ∷ xs) = (m ≡ x) ⊎ Among m xs

  -- A curve without a return, however long: whatever its trades, its drawdown, its volatility
  -- and its Sharpe ratio are reported as nought.
  pub evaluate-no_returns :
      (sqrt : W → W) (of_ℕ : ℕ → W) (start : W) (curve : List W) (wins trades : ℕ)
      (ticks_per_year : W)
      → returns_from start curve ≡ []
      → let r = evaluate sqrt of_ℕ (start ∷ curve) wins trades ticks_per_year in
        (r.max_drawdown ≡ d.nought)
        × (r.annualized_volatility ≡ d.nought)
        × (r.sharpe_ratio ≡ d.nought)
  unfolding evaluate evaluate_returns
  evaluate-no_returns sqrt of_ℕ start [] wins trades ticks_per_year e = (refl, refl, refl)
  evaluate-no_returns sqrt of_ℕ start (x ∷ curve) wins trades ticks_per_year e =
      rw e (refl, refl, refl)

  module _ (laws : IsOrdered W) where
    no_less : (a b x : W) → AtLeast a b → (a <? x) ≡ false → (b <? x) ≡ false
    no_less a b x (inl e) h = subst (λ t. (t <? x) ≡ false) e h
    no_less a b x (inr e) h = elim (Bool-cases (b <? x)) [
      | inl k ↦ cc (laws.lt_trans a b x e k, h)
      | inr k ↦ k
    ]

    abbrev greater : W → W → W
    greater m dd = if m <? dd then dd else m

    greater-AtLeast : (m dd : W) → AtLeast m (greater m dd) × ((greater m dd <? dd) ≡ false)
    greater-AtLeast m dd = elim (Bool-cases (m <? dd)) [
      | inl e ↦ rw e (inr e, laws.lt_irrefl dd)
      | inr e ↦ rw e (inl refl, e)
    ]

    drawdown-AtLeast : (peak m : W) (curve : List W) → AtLeast m (drawdown_from peak m curve)
    unfolding drawdown_from
    drawdown-AtLeast peak m [] = inl refl
    drawdown-AtLeast peak m (x ∷ curve) =
        let dd = fall (raise peak x) x in
        AtLeast-trans laws m (greater m dd) (drawdown_from (raise peak x) (greater m dd) curve)
          (greater-AtLeast m dd).0 (drawdown-AtLeast (raise peak x) (greater m dd) curve)

    drawdown-NoneAbove :
        (peak m : W) (curve : List W) → NoneAbove (drawdown_from peak m curve) (falls peak curve)
    unfolding drawdown_from
    drawdown-NoneAbove peak m [] = tt
    drawdown-NoneAbove peak m (x ∷ curve) =
        let dd = fall (raise peak x) x in
        (
          no_less (greater m dd) (drawdown_from (raise peak x) (greater m dd) curve) dd
              (drawdown-AtLeast (raise peak x) (greater m dd) curve) (greater-AtLeast m dd).1,
          drawdown-NoneAbove (raise peak x) (greater m dd) curve,
        )

    drawdown-Among :
        (peak m : W) (curve : List W)
        → (drawdown_from peak m curve ≡ m) ⊎ Among (drawdown_from peak m curve) (falls peak curve)
    unfolding drawdown_from
    drawdown-Among peak m [] = inl refl
    drawdown-Among peak m (x ∷ curve) =
        either (m <? dd) (drawdown-Among (raise peak x) (greater m dd) curve)
      where
        dd : W
        dd = fall (raise peak x) x

        r : W
        r = drawdown_from (raise peak x) (greater m dd) curve

        either :
            (b : Bool)
            → (r ≡ (if b then dd else m)) ⊎ Among r (falls (raise peak x) curve)
            → (r ≡ m) ⊎ Among r (dd ∷ falls (raise peak x) curve)
        either true (inl e) = inr (inl e)
        either false (inl e) = inl e
        either b (inr h) = inr (inr h)

    reported :
        (sqrt : W → W) (of_ℕ : ℕ → W) (start x r : W) (curve returns : List W) (wins trades : ℕ)
        (ticks_per_year : W)
        → returns_from start (x ∷ curve) ≡ r ∷ returns
        → (evaluate sqrt of_ℕ (start ∷ x ∷ curve) wins trades ticks_per_year).max_drawdown
          ≡ drawdown_from start d.nought (x ∷ curve)
    unfolding evaluate evaluate_returns
    reported sqrt of_ℕ start x r curve returns wins trades ticks_per_year e = rw e refl

    -- Where two neighbours of a curve make a return: the reported drawdown is nought or the fall
    -- of one of the points behind the first from the greatest point so far, it is not below nought,
    -- and no fall is above it.
    pub evaluate-drawdown :
        (sqrt : W → W) (of_ℕ : ℕ → W) (start x r : W) (curve returns : List W) (wins trades : ℕ)
        (ticks_per_year : W)
        → returns_from start (x ∷ curve) ≡ r ∷ returns
        → let m =
            (evaluate sqrt of_ℕ (start ∷ x ∷ curve) wins trades ticks_per_year).max_drawdown in
          ((m ≡ d.nought) ⊎ Among m (falls start (x ∷ curve)))
          × AtLeast d.nought m
          × NoneAbove m (falls start (x ∷ curve))
    unfolding evaluate evaluate_returns
    evaluate-drawdown sqrt of_ℕ start x r curve returns wins trades ticks_per_year e =
        subst
          (λ m.
            ((m ≡ d.nought) ⊎ Among m (falls start (x ∷ curve)))
            × AtLeast d.nought m
            × NoneAbove m (falls start (x ∷ curve)))
          (sym (reported sqrt of_ℕ start x r curve returns wins trades ticks_per_year e))
          (
            drawdown-Among start d.nought (x ∷ curve),
            drawdown-AtLeast start d.nought (x ∷ curve),
            drawdown-NoneAbove start d.nought (x ∷ curve),
          )
