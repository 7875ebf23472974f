-- ===== src/Router/Disjoint.antt =====
-- The edges of one batch touch different instruments.
use holographic_market.Base.{
  ℕ, zero, suc, ◌≤◌, ◌≡◌, refl, ap, ◌∙◌, Bool, true, false, not, ◌&&◌, ◌||◌, List, [], ◌∷◌, Option,
  none, some, arith, ltb, ◌==◌, if◌then◌else◌, length, get_or, Option-cases, inl, inr, Bool-cases,
  subst,
}
use holographic_market.Base.Int.{ℤ, pos}
use holographic_market.Base.Double.{Double, ◌<?◌, magnitude}
use holographic_market.Router.{
  top_k, to_u32, RoutedEdge, Metrics, Signal, is_used, eligible, beats, best_from, routed,
  fill_slots, route,
}

module _ {W : Type 0} ⦃d : Double W⦄ where
  -- Whether one of the edges has the instrument at an end.
  abbrev pub touched : ℕ → List (RoutedEdge W) → Bool
  touched x [] = false
  touched x (r ∷ rs) = (r.src_instrument == x) || (r.dst_instrument == x) || touched x rs

  -- No edge shares an instrument with a later one.
  abbrev pub Apart : List (RoutedEdge W) → Type 0
  Apart [] = Unit {0}
  Apart (r ∷ rs) =
      (touched r.src_instrument rs ≡ false) × (touched r.dst_instrument rs ≡ false) × Apart rs

module _ {W : Type 0} ⦃d : Double W⦄ (threshold : W) (sig : Signal W) (srcs dsts : List ℤ) where
  -- The best edge so far is strong enough, is in both tables, and has no instrument in use.
  abbrev pub Fit : List ℕ → Option (ℕ × W) → Type 0
  Fit used none = Unit {0}
  Fit used (some (e, af)) =
      ((af <? threshold) ≡ false)
      × (ltb e (length srcs) ≡ true)
      × (ltb e (length dsts) ≡ true)
      × (is_used used (to_u32 (get_or srcs e (pos 0))) ≡ false)
      × (is_used used (to_u32 (get_or dsts e (pos 0))) ≡ false)

  Fit-next :
      (used : List ℕ) (e : ℕ) (flow : W) (best : Option (ℕ × W)) (b : Bool)
      → Fit used best
      → Fit used
          (if eligible threshold srcs dsts used e flow && b then some (e, magnitude flow) else best)
  unfolding eligible
  Fit-next used e flow best b fit =
      elim (Bool-cases (eligible threshold srcs dsts used e flow && b)) [
        | inl passed ↦ rw passed (tested (magnitude flow) passed)
        | inr failed ↦ rw failed fit
      ]
    where
      tested :
          (af : W)
          → (not (af <? threshold)
              && (ltb e (length srcs) && ltb e (length dsts))
              && (not (is_used used (to_u32 (get_or srcs e (pos 0))))
                  && not (is_used used (to_u32 (get_or dsts e (pos 0)))))
              && b)
            ≡ true
          → Fit used (some (e, af))
      tested af passed = ground (arith, passed)

  pub best_from-Fit :
      (used : List ℕ) (e : ℕ) (flows : List W) (best : Option (ℕ × W))
      → Fit used best
      → Fit used (best_from threshold srcs dsts used e flows best)
  unfolding best_from
  best_from-Fit used e [] best fit = fit
  best_from-Fit used e (flow ∷ flows) best fit =
      best_from-Fit used (suc e) flows _
        (Fit-next used e flow best (beats (magnitude flow) best) fit)

  pub fill_none :
      (slots : ℕ) (flows : List W) (used : List ℕ)
      → best_from threshold srcs dsts used 0 flows none ≡ none
      → fill_slots (suc slots) threshold sig srcs dsts flows used ≡ []
  unfolding fill_slots
  fill_none slots flows used e = rw (fill_slots, e) refl

  pub fill_some :
      (slots : ℕ) (flows : List W) (used : List ℕ) (i : ℕ) (af : W)
      → best_from threshold srcs dsts used 0 flows none ≡ some (i, af)
      → let r = routed sig srcs dsts flows i in
        fill_slots (suc slots) threshold sig srcs dsts flows used
        ≡ r
          ∷ fill_slots slots threshold sig srcs dsts flows
              (r.dst_instrument ∷ r.src_instrument ∷ used)
  unfolding fill_slots routed
  fill_some slots flows used i af e = rw (fill_slots, e) refl

  used_later :
      (a b : ℕ) (used : List ℕ) (x : ℕ) → is_used used x ≡ true → is_used (a ∷ b ∷ used) x ≡ true
  unfolding is_used
  used_later a b used x h = ground (arith, h)

  used_now :
      (a b : ℕ) (used : List ℕ)
      → (is_used (a ∷ b ∷ used) a ≡ true) × (is_used (a ∷ b ∷ used) b ≡ true)
  unfolding is_used
  used_now a b used = (ground arith, ground arith)

  clash :
      (used : List ℕ) (a x : ℕ) → is_used used x ≡ true → is_used used a ≡ false → (a == x) ≡ false
  clash used a x h k = ground (arith, h, k)

  fill_slots-unused :
      (slots : ℕ) (flows : List W) (used : List ℕ) (x : ℕ)
      → is_used used x ≡ true
      → touched x (fill_slots slots threshold sig srcs dsts flows used) ≡ false
  unfolding fill_slots routed
  fill_slots-unused zero flows used x h = refl
  fill_slots-unused (suc slots) flows used x h =
      elim (Option-cases (best_from threshold srcs dsts used 0 flows none)) [
        | inl e ↦ ap (touched x) (fill_none slots flows used e)
        | inr ((i, af), e) ↦
            let (_, _, _, src, dst) = subst (Fit used) e (best_from-Fit used 0 flows none tt) in
            let r = routed sig srcs dsts flows i in
            let rest =
              fill_slots-unused slots flows (r.dst_instrument ∷ r.src_instrument ∷ used) x
                (used_later r.dst_instrument r.src_instrument used x h) in
            ap (touched x) (fill_some slots flows used i af e)
            ∙ ground (arith, clash used _ x h src, clash used _ x h dst, rest)
      ]

  fill_slots-Apart :
      (slots : ℕ) (flows : List W) (used : List ℕ)
      → Apart (fill_slots slots threshold sig srcs dsts flows used)
        × (length (fill_slots slots threshold sig srcs dsts flows used) ≤ slots)
  unfolding fill_slots
  fill_slots-Apart zero flows used = (tt, omega arith)
  fill_slots-Apart (suc slots) flows used =
      elim (Option-cases (best_from threshold srcs dsts used 0 flows none)) [
        | inl e ↦ rw (fill_none slots flows used e) (tt, omega arith)
        | inr ((i, af), e) ↦
            let r = routed sig srcs dsts flows i in
            let now = r.dst_instrument ∷ r.src_instrument ∷ used in
            let (apart, few) = fill_slots-Apart slots flows now in
            rw (fill_some slots flows used i af e) (
              (
                fill_slots-unused slots flows now r.src_instrument
                    (used_now r.dst_instrument r.src_instrument used).1,
                fill_slots-unused slots flows now r.dst_instrument
                    (used_now r.dst_instrument r.src_instrument used).0,
                apart,
              ),
              omega (arith, few),
            )
      ]

module _ {W : Type 0} ⦃d : Double W⦄ where
  -- Whatever the flows and the tables, the edges routed in one call share no instrument, and there
  -- are at most three of them.
  pub route-Apart :
      (threshold : W) (m : Metrics) (sig : Signal W) (flows : List W) (srcs dsts : List ℤ)
      → let (out, m') = route threshold m sig flows srcs dsts in Apart out × (length out ≤ top_k)
  unfolding route
  route-Apart threshold m sig flows srcs dsts =
      let (apart, few) = fill_slots-Apart threshold sig srcs dsts top_k flows [] in
      elim (Bool-cases (sig.action <? threshold)) [
        | inl low ↦ rw low (tt, omega arith)
        | inr high ↦ elim (Bool-cases (length flows == 0)) [
          | inl empty ↦ rw (high, empty) (tt, omega arith)
          | inr full ↦ rw (high, full) (apart, few)
        ]
      ]
