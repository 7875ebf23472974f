-- ===== src/Hodge/Signal.antt =====
-- The flow of the edges, its parts, and the edges that are reported as active. A vector is a
-- function of the edge. The sum behind the Yang-Mills action is not modelled.
use holographic_market.Base.{
  ℕ, zero, suc, ◌≡◌, refl, sym, ap, subst, Bool, true, false, List, if◌then◌else◌, get_or, inl, inr,
}
use holographic_market.Base.Double.{Double, IsOrdered, ◌<?◌, magnitude}
use holographic_market.Oms.Fills.{AtLeast}
use holographic_market.Lob.{Lob, base}
use holographic_market.Hodge.{Matrix, sum_from}

-- `logf`, and the literals 0.5, 1e-9 and 1e-8.
pub record FlowMath (W : Type 0) : Type 0 where
  pub log : W → W
  pub half : W
  pub least_volume : W
  pub shift : W

module _ {W : Type 0} ⦃d : Double W⦄ (f : FlowMath W) where
  abbrev pub imbalance : W → W → W
  imbalance bid_qty ask_qty =
      let vol = d.add bid_qty ask_qty in
      if f.least_volume <? vol then d.div (d.sub bid_qty ask_qty) vol else d.nought

  -- The loop of `kernel_build_flow_vector` over the levels of a book.
  unfoldable pub flow_from : Lob W → ℕ → ℕ → ℕ → ℕ → W → W
  flow_from b i j level zero flow = flow
  flow_from b i j level (suc more) flow =
      let at_i = base b.depth i level in
      let at_j = base b.depth j level in
      let mid_i =
        d.mul (d.add (get_or b.bid_prices at_i d.nought) (get_or b.ask_prices at_i d.nought))
          f.half in
      let mid_j =
        d.mul (d.add (get_or b.bid_prices at_j d.nought) (get_or b.ask_prices at_j d.nought))
          f.half in
      let imb_i = imbalance (get_or b.bid_qtys at_i d.nought) (get_or b.ask_qtys at_i d.nought) in
      let imb_j = imbalance (get_or b.bid_qtys at_j d.nought) (get_or b.ask_qtys at_j d.nought) in
      flow_from b i j (suc level) more
        (d.add flow (d.mul (f.log (d.div mid_j (d.add mid_i f.shift))) (d.sub imb_i imb_j)))

  unfoldable pub build_flow_vector : Lob W → List (ℕ × ℕ) → ℕ → W
  unfolding flow_from
  build_flow_vector b edges e =
      let (i, j) = get_or edges e (0, 0) in flow_from b i j 0 b.depth d.nought

module _ {W : Type 0} ⦃d : Double W⦄ where
  -- The loop of `kernel_harmonic_projection` over the eigenvectors.
  unfoldable pub harmonic_from : Matrix W → (ℕ → W) → (ℕ → W) → ℕ → W → ℕ → ℕ → ℕ → W → W
  harmonic_from vectors values omega n_edges threshold e k zero gamma = gamma
  harmonic_from vectors values omega n_edges threshold e k (suc more) gamma =
      let dot = sum_from (λ f. d.mul (vectors k f) (omega f)) 0 n_edges d.nought in
      harmonic_from vectors values omega n_edges threshold e (suc k) more
        (if magnitude (values k) <? threshold then d.add gamma (d.mul (vectors k e) dot) else gamma)

  unfoldable pub harmonic_projection : Matrix W → (ℕ → W) → (ℕ → W) → ℕ → ℕ → W → ℕ → W
  unfolding harmonic_from
  harmonic_projection vectors values omega n_edges n_eigs threshold e =
      harmonic_from vectors values omega n_edges threshold e 0 n_eigs d.nought

  -- The node potential and the exact part of an edge.
  unfoldable pub exact_component : Matrix W → (ℕ → W) → (ℕ → W) → ℕ → ℕ → ℕ → W × W
  unfolding sum_from
  exact_component b1 omega gamma n_edges n_nodes e =
      let node_pot =
        sum_from
          (λ v.
            d.mul (b1 v e)
              (sum_from (λ f. d.mul (b1 v f) (d.sub (omega f) (gamma f))) 0 n_edges d.nought))
          0 n_nodes d.nought in
      (d.sub (d.sub (omega e) (gamma e)) node_pot, node_pot)

  unfoldable pub coexact_component : (ℕ → W) → (ℕ → W) → (ℕ → W) → ℕ → W
  coexact_component omega gamma exact e = d.sub (d.sub (omega e) (gamma e)) (exact e)

  -- `kernel_curl_magnitude`: the magnitude and the signal of an edge.
  unfoldable pub curl_magnitude : W → (ℕ → W) → ℕ → W × W
  curl_magnitude threshold gamma e =
      (magnitude (gamma e), if threshold <? magnitude (gamma e) then gamma e else d.nought)

  -- `kernel_count_active_loops`, from edge `e` on.
  unfoldable pub count_active : (ℕ → W) → ℕ → ℕ → ℕ
  count_active signal e zero = 0
  count_active signal e (suc more) =
      let rest = count_active signal (suc e) more in
      if d.nought <? magnitude (signal e) then suc rest else rest

  -- The edges whose curl is above the threshold.
  abbrev pub above : W → (ℕ → W) → ℕ → ℕ → ℕ
  above threshold flow e zero = 0
  above threshold flow e (suc more) =
      if threshold <? magnitude (flow e)
      then suc (above threshold flow (suc e) more)
      else above threshold flow (suc e) more

  module _ (laws : IsOrdered W) where
    positive : (t x : W) → AtLeast d.nought t → (t <? x) ≡ true → (d.nought <? x) ≡ true
    positive t x (inl e) h = subst (λ z. (z <? x) ≡ true) (sym e) h
    positive t x (inr e) h = laws.lt_trans d.nought t x e h

    -- The signal of an edge is nonzero exactly above the threshold.
    signal_lem :
        (t x : W)
        → AtLeast d.nought t
        → (d.nought <? magnitude (if t <? magnitude x then x else d.nought)) ≡ (t <? magnitude x)
    signal_lem t x low = either (t <? magnitude x) refl
      where
        either :
            (b : Bool)
            → (t <? magnitude x) ≡ b
            → (d.nought <? magnitude (if b then x else d.nought)) ≡ b
        either true e = positive t (magnitude x) low e
        either false e = rw (laws.lt_irrefl d.nought) (laws.lt_irrefl d.nought)

    -- With a threshold that is not below 0, the number of active loops that is reported is the
    -- number of edges whose curl magnitude is above the threshold.
    count_active-above :
        (threshold : W) (flow : ℕ → W) (e more : ℕ)
        → AtLeast d.nought threshold
        → count_active (λ f. (curl_magnitude threshold flow f).1) e more
          ≡ above threshold flow e more
    unfolding count_active curl_magnitude
    count_active-above threshold flow e zero low = refl
    count_active-above threshold flow e (suc more) low = rw (signal_lem threshold (flow e) low) (
        ap (λ n. if threshold <? magnitude (flow e) then suc n else n)
          (count_active-above threshold flow (suc e) more low))
