-- ===== src/Router/Range.antt =====
-- The routed edges join instruments that the tables name.
use holographic_market.Base.{
  ℕ, zero, suc, ◌<◌, ◌≡◌, true, List, [], ◌∷◌, none, ltb, ◌==◌, length, get_or, Option-cases,
  Bool-cases, inl, inr, subst,
}
use holographic_market.Base.Int.{ℤ, pos}
use holographic_market.Base.Double.{Double, ◌<?◌}
use holographic_market.Router.{
  top_k, to_u32, RoutedEdge, Metrics, Signal, best_from, routed, fill_slots, route,
}
use holographic_market.Router.Disjoint.{Fit, best_from-Fit, fill_none, fill_some}

-- Every edge of the two tables joins instruments below `n`.
abbrev pub AllNodes : ℕ → List ℤ → List ℤ → Type 0
AllNodes n srcs dsts =
    (e : ℕ)
    → ltb e (length srcs) ≡ true
    → ltb e (length dsts) ≡ true
    → (to_u32 (get_or srcs e (pos 0)) < n) × (to_u32 (get_or dsts e (pos 0)) < n)

module _ {W : Type 0} where
  abbrev pub InRange : ℕ → List (RoutedEdge W) → Type 0
  InRange n [] = Unit {0}
  InRange n (r ∷ rs) = (r.src_instrument < n) × (r.dst_instrument < n) × InRange n rs

module _ {W : Type 0} ⦃d : Double W⦄ (threshold : W) (sig : Signal W) (srcs dsts : List ℤ) (n : ℕ)
    (nodes : AllNodes n srcs dsts) where
  fill_slots-InRange :
      (slots : ℕ) (flows : List W) (used : List ℕ)
      → InRange n (fill_slots slots threshold sig srcs dsts flows used)
  unfolding fill_slots routed
  fill_slots-InRange zero flows used = tt
  fill_slots-InRange (suc slots) flows used =
      elim (Option-cases (best_from threshold srcs dsts used 0 flows none)) [
        | inl e ↦ rw (fill_none threshold sig srcs dsts slots flows used e) tt
        | inr ((i, af), e) ↦
            let (_, s, t, _, _) =
              subst (Fit threshold sig srcs dsts used) e
                (best_from-Fit threshold sig srcs dsts used 0 flows none tt) in
            let r = routed sig srcs dsts flows i in
            rw (fill_some threshold sig srcs dsts slots flows used i af e) (
              (nodes i s t).0,
              (nodes i s t).1,
              fill_slots-InRange slots flows (r.dst_instrument ∷ r.src_instrument ∷ used),
            )
      ]

  pub route-InRange :
      (m : Metrics) (flows : List W) → InRange n (route threshold m sig flows srcs dsts).0
  unfolding route
  route-InRange m flows = elim (Bool-cases (sig.action <? threshold)) [
    | inl low ↦ rw low tt
    | inr high ↦ elim (Bool-cases (length flows == 0)) [
      | inl empty ↦ rw (high, empty) tt
      | inr full ↦ rw (high, full) (fill_slots-InRange top_k flows [])
    ]
  ]
