-- ===== src/Floer/Lower.antt =====
-- The kernel of the boundary writes the entry of a path at the row of its higher end and the column
-- of its lower one.
use holographic_market.Base.{
  ℕ, ◌≤◌, ◌<◌, ◌≡◌, refl, sym, ap, ◌∙◌, Bool, true, false, ◌&&◌, List, [], ◌∷◌, Option, none, some,
  arith, ◌==◌, if◌then◌else◌, length, get_elem?, Bool-cases, inl, inr,
}
use holographic_market.Base.Int.{pos}
use holographic_market.Base.Double.{Double}
use holographic_market.Hodge.{Matrix}
use holographic_market.Floer.{
  grade, Floats, CriticalPoint, InstantonPath, in_range, toggle_if, one_apart, mark, boundary_at,
  build_floer_boundary,
}
use holographic_market.Floer.Filling.{All}
use holographic_market.Floer.Paths.{IsUpward}

in_range-pos : (n i s : ℕ) → in_range n (pos i) ≡ some s → i ≡ s
in_range-pos n i s e = ground (arith, e)

module _ {W : Type 0} where
  -- An entry whose row is not of a higher index than its column is 0.
  abbrev pub IsLower : List (CriticalPoint W) → Matrix ℕ → Type 0
  IsLower criticals m =
      (r c : ℕ) (a b : CriticalPoint W)
      → get_elem? criticals r ≡ some a
      → get_elem? criticals c ≡ some b
      → grade a.morse_index ≤ grade b.morse_index
      → m r c ≡ 0

  toggle_if-IsLower :
      (criticals : List (CriticalPoint W)) (m : Matrix ℕ) (x : Bool) (s t : ℕ)
      (a b : CriticalPoint W)
      → get_elem? criticals s ≡ some a
      → get_elem? criticals t ≡ some b
      → grade a.morse_index < grade b.morse_index
      → IsLower criticals m
      → IsLower criticals (toggle_if x m t s)
  toggle_if-IsLower criticals m false s t a b at_s at_t up low r c a' b' at_r at_c le =
      low r c a' b' at_r at_c le
  toggle_if-IsLower criticals m true s t a b at_s at_t up low r c a' b' at_r at_c le =
      elim (Bool-cases (r == t && c == s)) [
        | inl here ↦ absurd (clash (ground (arith, here)) (ground (arith, here)))
        | inr apart ↦ rw apart (low r c a' b' at_r at_c le)
      ]
    where
      clash : r ≡ t → c ≡ s → ⊥
      clash p q =
          let same_row : some b ≡ some a' = sym at_t ∙ ap (get_elem? criticals) (sym p) ∙ at_r in
          let same_col : some a ≡ some b' = sym at_s ∙ ap (get_elem? criticals) (sym q) ∙ at_c in
          ground (arith, same_row, same_col)

  mark-IsLower :
      (criticals : List (CriticalPoint W)) (m : Matrix ℕ) (os ot : Option ℕ)
      → ((s t : ℕ) (a b : CriticalPoint W)
          → os ≡ some s
          → ot ≡ some t
          → get_elem? criticals s ≡ some a
          → get_elem? criticals t ≡ some b
          → grade a.morse_index < grade b.morse_index)
      → IsLower criticals m
      → IsLower criticals (mark criticals os ot m)
  mark-IsLower criticals m none ot up low = low
  mark-IsLower criticals m (some s) none up low = low
  mark-IsLower criticals m (some s) (some t) up low =
      by_points (get_elem? criticals s) (get_elem? criticals t) refl refl
    where
      by_points :
          (oa ob : Option (CriticalPoint W))
          → get_elem? criticals s ≡ oa
          → get_elem? criticals t ≡ ob
          → IsLower criticals (elim oa as (λ _. Matrix ℕ) [
            | none ↦ m
            | some a ↦ elim ob as (λ _. Matrix ℕ) [
              | none ↦ m
              | some b ↦ toggle_if (one_apart a.morse_index b.morse_index) m t s
            ]
          ])
      by_points none ob p q = low
      by_points (some a) none p q = low
      by_points (some a) (some b) p q =
          toggle_if-IsLower criticals m (one_apart a.morse_index b.morse_index) s t a b p q
            (up s t a b refl refl p q) low

  boundary_at-IsLower :
      ⦃d : Double W⦄ (fl : Floats W) (curl coexact : ℕ → W) (criticals : List (CriticalPoint W))
      (p : InstantonPath W) (m : Matrix ℕ)
      → IsUpward fl curl coexact criticals p
      → IsLower criticals m
      → IsLower criticals (boundary_at criticals p m)
  unfolding boundary_at
  boundary_at-IsLower fl curl coexact criticals p m v low = by_valid p.valid
    where
      n : ℕ
      n = length criticals

      rises :
          (s t : ℕ) (a b : CriticalPoint W)
          → in_range n p.src_critical ≡ some s
          → in_range n p.dst_critical ≡ some t
          → get_elem? criticals s ≡ some a
          → get_elem? criticals t ≡ some b
          → grade a.morse_index < grade b.morse_index
      rises s t a b es et ea eb =
          let ps : v.src ≡ s = in_range-pos n v.src s (ap (in_range n) (sym v.from) ∙ es) in
          let pt : v.dst ≡ t = in_range-pos n v.dst t (ap (in_range n) (sym v.to) ∙ et) in
          let qa : some v.a ≡ some a = sym v.at_src ∙ ap (get_elem? criticals) ps ∙ ea in
          let qb : some v.b ≡ some b = sym v.at_dst ∙ ap (get_elem? criticals) pt ∙ eb in
          ground (arith, qa, qb, v.rises)

      by_valid :
          (b : Bool)
          → IsLower criticals (
              if b
              then mark criticals (in_range n p.src_critical) (in_range n p.dst_critical) m
              else m)
      by_valid true =
          mark-IsLower criticals m (in_range n p.src_critical) (in_range n p.dst_critical) rises low
      by_valid false = low

  pub build-IsLower :
      ⦃d : Double W⦄ (fl : Floats W) (curl coexact : ℕ → W) (criticals : List (CriticalPoint W))
      (paths : List (InstantonPath W)) (m : Matrix ℕ)
      → All (IsUpward fl curl coexact criticals) paths
      → IsLower criticals m
      → IsLower criticals (build_floer_boundary criticals paths m)
  unfolding build_floer_boundary
  build-IsLower fl curl coexact criticals [] m v low = low
  build-IsLower fl curl coexact criticals (p ∷ paths) m v low =
      build-IsLower fl curl coexact criticals paths (boundary_at criticals p m) v.1
        (boundary_at-IsLower fl curl coexact criticals p m v.0 low)
