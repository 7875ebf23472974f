-- ===== src/Floer/Counts.antt =====
-- The ranks of the boundary: they are taken of blocks with the lower index at the rows, where the
-- matrix is 0.
use holographic_market.Base.{
  ℕ, zero, suc, ◌+◌, ◌-◌, ◌≤◌, ◌<◌, ◌≡◌, refl, sym, subst, Bool, true, false, ◌&&◌, List, [], ◌∷◌,
  some, arith, ltb, ltb→lt, ◌==◌, ==_ne, ==_iff, if◌then◌else◌, length, get_elem?,
}
use holographic_market.Base.Int.{sub_ℕ}
use holographic_market.Base.Double.{Double}
use holographic_market.Hodge.{Matrix}
use holographic_market.Floer.{
  MorseIndex, minimum, saddle, maximum, grade, Floats, CriticalPoint, InstantonPath,
  find_critical_points, find_instantons, build_floer_boundary,
}
use holographic_market.Floer.Rank.{
  gaussian_rank_z2-zero, ZeroRow, AllZero, ZeroRow-replicate, AllZero-replicate,
}
use holographic_market.Floer.Homology.{
  FloerRecord, is_index, n_grade, block_row, block_from, block_rank, no_boundary, no_record,
  no_flow, note_paths, homology_of, compute_floer_homology, analyse, run_floer_analysis,
}
use holographic_market.Floer.Lower.{IsLower, build-IsLower}
use holographic_market.Floer.Paths.{find_instantons-AllUpward}

sub_zero : (n : ℕ) → n - 0 ≡ n
sub_zero n = omega arith

module _ {W : Type 0} where
  block_row-zero :
      (m : Matrix ℕ) (g : MorseIndex) (i left j : ℕ) (criticals : List (CriticalPoint W))
      → ((k : ℕ) (b : CriticalPoint W)
          → get_elem? criticals k ≡ some b
          → is_index g b ≡ true
          → m i (j + k) ≡ 0)
      → ZeroRow (block_row m g i left j criticals)
  unfolding block_row
  block_row-zero m g i zero j criticals z = tt
  block_row-zero m g i (suc left) j [] z = ZeroRow-replicate (suc left)
  block_row-zero m g i (suc left) j (c ∷ criticals) z =
      either (is_index g c) (λ e. subst (λ n. m i n ≡ 0) (omega arith) (z 0 c refl e))
        (block_row-zero m g i left (suc j) criticals later)
        (block_row-zero m g i (suc left) (suc j) criticals later) refl
    where
      later :
          (k : ℕ) (b : CriticalPoint W)
          → get_elem? criticals k ≡ some b
          → is_index g b ≡ true
          → m i (suc j + k) ≡ 0
      later k b at e = subst (λ n. m i n ≡ 0) (omega arith) (z (suc k) b at e)

      either :
          (x : Bool)
          → (is_index g c ≡ true → m i j ≡ 0)
          → ZeroRow (block_row m g i left (suc j) criticals)
          → ZeroRow (block_row m g i (suc left) (suc j) criticals)
          → is_index g c ≡ x
          → ZeroRow (
              if x
              then m i j ∷ block_row m g i left (suc j) criticals
              else block_row m g i (suc left) (suc j) criticals)
      either true here p q e = (here e, p)
      either false here p q e = q

  block_from-zero :
      (m : Matrix ℕ) (g h : MorseIndex) (cols : ℕ) (all : List (CriticalPoint W)) (left i : ℕ)
      (criticals : List (CriticalPoint W))
      → ((k : ℕ) (a : CriticalPoint W)
          → get_elem? criticals k ≡ some a
          → is_index g a ≡ true
          → ZeroRow (block_row m h (i + k) cols 0 all))
      → AllZero (block_from m g h cols all left i criticals)
  unfolding block_from
  block_from-zero m g h cols all zero i criticals z = tt
  block_from-zero m g h cols all (suc left) i [] z = AllZero-replicate (suc left) cols
  block_from-zero m g h cols all (suc left) i (c ∷ criticals) z =
      either (is_index g c)
        (λ e. subst (λ n. ZeroRow (block_row m h n cols 0 all)) (omega arith) (z 0 c refl e))
        (block_from-zero m g h cols all left (suc i) criticals later)
        (block_from-zero m g h cols all (suc left) (suc i) criticals later) refl
    where
      later :
          (k : ℕ) (a : CriticalPoint W)
          → get_elem? criticals k ≡ some a
          → is_index g a ≡ true
          → ZeroRow (block_row m h (suc i + k) cols 0 all)
      later k a at e =
          subst (λ n. ZeroRow (block_row m h n cols 0 all)) (omega arith) (z (suc k) a at e)

      either :
          (x : Bool)
          → (is_index g c ≡ true → ZeroRow (block_row m h i cols 0 all))
          → AllZero (block_from m g h cols all left (suc i) criticals)
          → AllZero (block_from m g h cols all (suc left) (suc i) criticals)
          → is_index g c ≡ x
          → AllZero (
              if x
              then block_row m h i cols 0 all ∷ block_from m g h cols all left (suc i) criticals
              else block_from m g h cols all (suc left) (suc i) criticals)
      either true here p q e = (here e, p)
      either false here p q e = q

  block_rank-zero :
      (m : Matrix ℕ) (g h : MorseIndex) (criticals : List (CriticalPoint W))
      → grade g ≤ grade h
      → IsLower criticals m
      → block_rank m g h criticals ≡ 0
  unfolding block_rank
  block_rank-zero m g h criticals le low =
      either (ltb 0 (n_grade g criticals) && ltb 0 (n_grade h criticals)) (
        gaussian_rank_z2-zero
          (block_from m g h (n_grade h criticals) criticals (n_grade g criticals) 0 criticals)
          (n_grade h criticals)
          (block_from-zero m g h (n_grade h criticals) criticals (n_grade g criticals) 0 criticals
            (λ k a at_a ea.
              block_row-zero m h (0 + k) (n_grade h criticals) 0 criticals (λ k' b at_b eb.
                subst (λ r. m r (0 + k') ≡ 0) (omega arith)
                  (subst (λ c. m k c ≡ 0) (omega arith)
                    (low k k' a b at_a at_b (index_le a b ea eb)))))))
    where
      index_le :
          (a b : CriticalPoint W)
          → is_index g a ≡ true
          → is_index h b ≡ true
          → grade a.morse_index ≤ grade b.morse_index
      index_le a b ea eb = omega (
        arith,
        le,
        (==_iff (grade a.morse_index) (grade g)).0 ea,
        (==_iff (grade b.morse_index) (grade h)).0 eb,
      )

      either : {n : ℕ} (x : Bool) → n ≡ 0 → (if x then n else 0) ≡ 0
      either true e = e
      either false e = refl

module _ {W : Type 0} ⦃d : Double W⦄ (fl : Floats W) (curl coexact : ℕ → W) where
  -- The ranks are the numbers of the critical points of each index, and the characteristic is their
  -- alternating sum.
  pub record Counted (criticals : List (CriticalPoint W)) (r : FloerRecord W) : Type 0 where
    pub hf0 : r.rank_hf0 ≡ n_grade minimum criticals
    pub hf1 : r.rank_hf1 ≡ n_grade saddle criticals
    pub hf2 : r.rank_hf2 ≡ n_grade maximum criticals
    pub euler :
        r.euler_characteristic
        ≡ sub_ℕ (n_grade minimum criticals + n_grade maximum criticals) (n_grade saddle criticals)

  compute-Counted :
      (criticals : List (CriticalPoint W)) (paths : List (InstantonPath W)) (m : Matrix ℕ)
      → 2 ≤ length criticals
      → IsLower criticals m
      → Counted criticals (compute_floer_homology fl criticals paths m)
  unfolding compute_floer_homology
  compute-Counted criticals paths m two low =
      subst
        (λ b.
          Counted criticals
            (if b then record (no_record fl) { n_instantons = length paths } else computed d1 d2))
        (sym (==_ne (length criticals) 0 (omega arith)))
        (subst (λ x. Counted criticals (computed x d2))
          (sym (block_rank-zero m minimum saddle criticals (omega arith) low))
          (subst (λ x. Counted criticals (computed 0 x))
            (sym (block_rank-zero m saddle maximum criticals (omega arith) low)) unchanged))
    where
      d1 : ℕ
      d1 = block_rank m minimum saddle criticals

      d2 : ℕ
      d2 = block_rank m saddle maximum criticals

      computed : ℕ → ℕ → FloerRecord W
      computed x y =
          homology_of fl (n_grade minimum criticals) (n_grade saddle criticals)
            (n_grade maximum criticals) x y (length criticals) (length paths)
            (note_paths fl criticals paths (no_flow fl))

      unchanged : Counted criticals (computed 0 0)
      unchanged = record {
        hf0 = sub_zero (n_grade minimum criticals);
        hf1 = sub_zero (n_grade saddle criticals);
        hf2 = sub_zero (n_grade maximum criticals);
        euler =
            rw
              (
                sub_zero (n_grade minimum criticals),
                sub_zero (n_grade saddle criticals),
                sub_zero (n_grade maximum criticals),
              )
              refl;
      }

  analyse-Counted :
      (criticals : List (CriticalPoint W))
      → 2 ≤ length criticals
      → Counted criticals (analyse fl curl coexact criticals)
  unfolding analyse
  analyse-Counted criticals two = either (ltb (length criticals) 2) (ltb→lt (length criticals) 2)
    where
      paths : List (InstantonPath W)
      paths = (find_instantons fl curl coexact criticals).filled

      boundary : Matrix ℕ
      boundary = build_floer_boundary criticals paths (no_boundary fl)

      either :
          (b : Bool)
          → (b ≡ true → length criticals < 2)
          → Counted criticals (
              if b
              then record (no_record fl) { n_criticals = length criticals }
              else compute_floer_homology fl criticals paths boundary)
      either true few = absurd (omega (arith, few refl))
      either false few = compute-Counted criticals paths boundary two (
          build-IsLower fl curl coexact criticals paths (no_boundary fl)
            (find_instantons-AllUpward fl curl coexact criticals).0 (λ r c a b p q le. refl))

  none_found :
      (ym_action : W) → 2 ≤ length (find_critical_points fl curl coexact ym_action []).filled → ⊥
  unfolding find_critical_points
  none_found ym_action two = omega arith

  -- Whatever the curls and the edges are: where at least two critical points are found, the
  -- ranks of the homology are the numbers of the critical points of each index, as if there were
  -- no path between any two, and the characteristic is their alternating sum.
  pub run_floer_analysis-Counted :
      (edges : List (ℕ × ℕ)) (ym_action : W)
      → 2 ≤ length (find_critical_points fl curl coexact ym_action edges).filled
      → Counted
          (find_critical_points fl curl coexact ym_action edges).filled
          (run_floer_analysis fl curl coexact edges ym_action)
  unfolding run_floer_analysis
  run_floer_analysis-Counted edges ym_action two = either (length edges == 0) (no_edges edges two)
    where
      criticals : List (ℕ × ℕ) → List (CriticalPoint W)
      criticals es = (find_critical_points fl curl coexact ym_action es).filled

      no_edges : (es : List (ℕ × ℕ)) → 2 ≤ length (criticals es) → (length es == 0) ≡ true → ⊥
      no_edges [] two e = none_found ym_action two
      no_edges (x ∷ es) two e = ground (arith, e)

      either :
          (b : Bool)
          → (b ≡ true → ⊥)
          → Counted
              (criticals edges)
              (if b then no_record fl else analyse fl curl coexact (criticals edges))
      either true no_edge = absurd (no_edge refl)
      either false no_edge = analyse-Counted (criticals edges) two
