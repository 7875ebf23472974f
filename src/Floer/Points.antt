-- ===== src/Floer/Points.antt =====
-- What the critical points are.
use holographic_market.Base.{
  ℕ, zero, suc, ◌+◌, ◌≡◌, ◌≢◌, ◌⊎◌, refl, sym, ap, ◌∙◌, subst, true, false, not, ◌&&◌, List, [],
  ◌∷◌, none, some, arith, ◌==◌, ==_ne, if◌then◌else◌, get_elem?, Bool-cases, inl, inr,
}
use holographic_market.Base.Double.{Double, ◌<?◌}
use holographic_market.Hodge.{Slots, no_slots}
use holographic_market.Floer.{
  k_floer_max_criticals, Floats, shares_end, CriticalPoint, neighbours_from, critical_at,
  critical_point, criticals_from, find_critical_points,
}
use holographic_market.Floer.Filling.{AllFilled, Granted, claim_some-AllFilled}

module _ {W : Type 0} ⦃d : Double W⦄ (fl : Floats W) (curl coexact : ℕ → W) where
  -- The point stands at an edge of the graph whose curl is not below the threshold, and another edge
  -- shares an end with it.
  pub record IsCritical (edges : List (ℕ × ℕ)) (c : CriticalPoint W) : Type 0 where
    pub ends : ℕ × ℕ
    pub near : ℕ
    pub near_ends : ℕ × ℕ
    pub at_edge : get_elem? edges c.edge_idx ≡ some ends
    pub magnitude : c.curl_magnitude ≡ curl c.edge_idx
    pub strong : (curl c.edge_idx <? fl.k_instanton_threshold) ≡ false
    pub at_near : get_elem? edges near ≡ some near_ends
    pub other : near ≢ c.edge_idx
    pub shares : shares_end ends near_ends ≡ true

  -- An edge other than `e` that shares an end with it, counted from `f` on.
  abbrev pub Near : ℕ → ℕ × ℕ → ℕ → List (ℕ × ℕ) → Type 0
  Near e ends f edges =
      (k : ℕ) × (x : ℕ × ℕ) × (get_elem? edges k ≡ some x)
      × (f + k ≢ e)
      × (shares_end ends x ≡ true)

  -- The loop counts no edge, or one of those it goes over is a neighbour.
  neighbours_from-counts :
      (e : ℕ) (ends : ℕ × ℕ) (f : ℕ) (edges : List (ℕ × ℕ)) (r : W × ℕ)
      → ((neighbours_from fl curl coexact e ends f edges r).1 ≡ r.1) ⊎ Near e ends f edges
  unfolding neighbours_from
  neighbours_from-counts e ends f [] r = inl refl
  neighbours_from-counts e ends f (x ∷ edges) (sum, count) =
      elim (Bool-cases (not (f == e) && shares_end ends x)) [
        | inl met ↦ inr (0, x, refl, ground (arith, met), ground (arith, met))
        | inr unmet ↦ later (neighbours_from-counts e ends (suc f) edges (sum, count)) (
            ap
              (λ b.
                (neighbours_from fl curl coexact e ends (suc f) edges
                  (if b then (d.add sum (curl f), suc count) else (sum, count))).1)
              unmet)
      ]
    where
      later :
          {n m : ℕ}
          → (n ≡ count) ⊎ Near e ends (suc f) edges
          → m ≡ n
          → (m ≡ count) ⊎ Near e ends f (x ∷ edges)
      later (inl same) step = inl (step ∙ same)
      later (inr (k, y, at, ne, met)) step = inr (suc k, y, at, (λ q. ne (omega (arith, q))), met)

  critical_at-IsCritical :
      (ym_action : W) (edges : List (ℕ × ℕ)) (e : ℕ) (ends : ℕ × ℕ)
      → get_elem? edges e ≡ some ends
      → Granted (IsCritical edges) (critical_at fl curl coexact ym_action edges e ends)
  unfolding critical_at
  critical_at-IsCritical ym_action edges e ends at =
      elim (Bool-cases (curl e <? fl.k_instanton_threshold)) [
        | inl weak ↦ rw weak tt
        | inr strong ↦ rw strong (
            by_count (neighbours_from fl curl coexact e ends 0 edges (d.nought, 0))
              (neighbours_from-counts e ends 0 edges (d.nought, 0)) strong)
      ]
    where
      by_count :
          (r : W × ℕ)
          → (r.1 ≡ 0) ⊎ Near e ends 0 edges
          → (curl e <? fl.k_instanton_threshold) ≡ false
          → Granted
              (IsCritical edges)
              (if r.1 == 0 then none else some (critical_point fl curl coexact ym_action e r))
      by_count (sum, count) (inl none_near) strong = rw none_near tt
      by_count (sum, zero) (inr (k, y, at_near, ne, met)) strong = tt
      by_count (sum, suc count) (inr (k, y, at_near, ne, met)) strong =
          subst
            (λ b. Granted (IsCritical edges) (
              if b
              then none
              else some (critical_point fl curl coexact ym_action e (sum, suc count))))
            (sym (==_ne (suc count) 0 (omega arith)))
            (record {
              ends = ends;
              near = k;
              near_ends = y;
              at_edge = at;
              magnitude = refl;
              strong = strong;
              at_near = at_near;
              other = λ q. ne (omega (arith, q));
              shares = met;
            })

  criticals_from-AllFilled :
      (limit : ℕ) (ym_action : W) (edges : List (ℕ × ℕ)) (e : ℕ) (more : List (ℕ × ℕ))
      (s : Slots (CriticalPoint W))
      → ((k : ℕ) (x : ℕ × ℕ) → get_elem? more k ≡ some x → get_elem? edges (e + k) ≡ some x)
      → AllFilled (IsCritical edges) limit s
      → AllFilled
          (IsCritical edges)
          limit
          (criticals_from fl curl coexact limit ym_action edges e more s)
  unfolding criticals_from
  criticals_from-AllFilled limit ym_action edges e [] s sub h = h
  criticals_from-AllFilled limit ym_action edges e (ends ∷ more) s sub h =
      criticals_from-AllFilled limit ym_action edges (suc e) more _
        (λ k x at. subst (λ n. get_elem? edges n ≡ some x) (omega arith) (sub (suc k) x at))
        (claim_some-AllFilled (IsCritical edges) limit s
          (critical_at fl curl coexact ym_action edges e ends)
          (critical_at-IsCritical ym_action edges e ends
            (subst (λ n. get_elem? edges n ≡ some ends) (omega arith) (sub 0 ends refl)))
          h)

  -- Each of the critical points that are found stands at an edge of the graph whose curl is not
  -- below the threshold, and that has another edge at one of its ends; and there are at most 256.
  pub find_critical_points-AllCritical :
      (ym_action : W) (edges : List (ℕ × ℕ))
      → AllFilled
          (IsCritical edges)
          k_floer_max_criticals
          (find_critical_points fl curl coexact ym_action edges)
  unfolding find_critical_points
  find_critical_points-AllCritical ym_action edges =
      criticals_from-AllFilled k_floer_max_criticals ym_action edges 0 edges no_slots
        (λ k x at. subst (λ n. get_elem? edges n ≡ some x) (omega arith) at)
        (tt, omega arith, omega arith)
