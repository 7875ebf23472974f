-- ===== src/Floer/Euler.antt =====
-- The characteristic that `compute_floer_homology` reports, for any boundary matrix.
use holographic_market.Base.{
  ℕ, zero, suc, ◌+◌, ◌-◌, ◌≤◌, ◌≡◌, refl, ap, Bool, true, false, ◌&&◌, List, [], ◌∷◌, arith, ltb,
  ◌==◌, if◌then◌else◌, length, length-replicate, replicate,
}
use holographic_market.Base.Int.{sub_ℕ}
use holographic_market.Base.Double.{Double}
use holographic_market.Hodge.{Matrix}
use holographic_market.Floer.{
  MorseIndex, minimum, saddle, maximum, Floats, CriticalPoint, InstantonPath,
}
use holographic_market.Floer.Rank.{Rows, gaussian_rank_z2, gaussian_rank_z2-le}
use holographic_market.Floer.Homology.{
  is_index, n_grade, block_row, block_from, block_rank, no_record, no_flow, note_paths, homology_of,
  compute_floer_homology,
}

module _ {W : Type 0} where
  length-block_from :
      (m : Matrix ℕ) (g h : MorseIndex) (cols : ℕ) (all : List (CriticalPoint W)) (left i : ℕ)
      (criticals : List (CriticalPoint W))
      → length (block_from m g h cols all left i criticals) ≡ left
  unfolding block_from
  length-block_from m g h cols all zero i criticals = refl
  length-block_from m g h cols all (suc left) i [] = length-replicate (suc left) (replicate cols 0)
  length-block_from m g h cols all (suc left) i (c ∷ criticals) =
      either (block_row m h i cols 0 all ∷ block_from m g h cols all left (suc i) criticals)
        (block_from m g h cols all (suc left) (suc i) criticals) (is_index g c)
        (ap suc (length-block_from m g h cols all left (suc i) criticals))
        (length-block_from m g h cols all (suc left) (suc i) criticals)
    where
      either :
          (xs ys : Rows) (b : Bool)
          → length xs ≡ suc left
          → length ys ≡ suc left
          → length (if b then xs else ys) ≡ suc left
      either xs ys true p q = p
      either xs ys false p q = q

  -- A block has no more rank than rows or columns.
  pub block_rank-le :
      (m : Matrix ℕ) (g h : MorseIndex) (criticals : List (CriticalPoint W))
      → (block_rank m g h criticals ≤ n_grade g criticals)
        × (block_rank m g h criticals ≤ n_grade h criticals)
  unfolding block_rank
  block_rank-le m g h criticals = either (ltb 0 r && ltb 0 c)
    where
      r : ℕ
      r = n_grade g criticals

      c : ℕ
      c = n_grade h criticals

      block : Rows
      block = block_from m g h c criticals r 0 criticals

      either :
          (b : Bool)
          → ((if b then gaussian_rank_z2 block c else 0) ≤ r)
            × ((if b then gaussian_rank_z2 block c else 0) ≤ c)
      either true =
          omega
            (arith, gaussian_rank_z2-le block c, length-block_from m g h c criticals r 0 criticals)
      either false = omega arith

  n_grade-nil :
      (g : MorseIndex) (criticals : List (CriticalPoint W))
      → length criticals ≡ 0
      → n_grade g criticals ≡ 0
  unfolding n_grade
  n_grade-nil g [] e = refl
  n_grade-nil g (c ∷ criticals) e = absurd (omega arith)

cancel :
    (n0 n1 n2 d1 d2 : ℕ)
    → d1 ≤ n0
    → d2 ≤ n2
    → d1 + d2 ≤ n1
    → sub_ℕ (n0 - d1 + (n2 - d2)) (n1 - (d1 + d2)) ≡ sub_ℕ (n0 + n2) n1
cancel n0 n1 n2 d1 d2 p q r = ground arith

module _ {W : Type 0} ⦃d : Double W⦄ (fl : Floats W) where
  -- For any critical points, paths and boundary matrix, where the two ranks that are computed are
  -- together at most the number of saddles, as they are where the boundary of a boundary is
  -- zero: the characteristic is the alternating sum of the numbers of critical points, whatever the
  -- ranks.
  compute_floer_homology-euler :
      (criticals : List (CriticalPoint W)) (paths : List (InstantonPath W)) (m : Matrix ℕ)
      → block_rank m minimum saddle criticals + block_rank m saddle maximum criticals
        ≤ n_grade saddle criticals
      → (compute_floer_homology fl criticals paths m).euler_characteristic
        ≡ sub_ℕ (n_grade minimum criticals + n_grade maximum criticals) (n_grade saddle criticals)
  unfolding compute_floer_homology
  compute_floer_homology-euler criticals paths m complex =
      either (length criticals == 0) (λ e. ground (arith, e))
    where
      d1 : ℕ
      d1 = block_rank m minimum saddle criticals

      d2 : ℕ
      d2 = block_rank m saddle maximum criticals

      n0 : ℕ
      n0 = n_grade minimum criticals

      n1 : ℕ
      n1 = n_grade saddle criticals

      n2 : ℕ
      n2 = n_grade maximum criticals

      -- The records of the two branches.
      either :
          (b : Bool)
          → (b ≡ true → length criticals ≡ 0)
          → (if b
              then record (no_record fl) { n_instantons = length paths }
              else homology_of fl n0 n1 n2 d1 d2
                  (length criticals)
                  (length paths)
                  (note_paths fl criticals paths (no_flow fl))).euler_characteristic
            ≡ sub_ℕ (n0 + n2) n1
      either true none_there =
          let e : length criticals ≡ 0 = none_there refl in
          rw
            (
              n_grade-nil minimum criticals e,
              n_grade-nil saddle criticals e,
              n_grade-nil maximum criticals e,
            )
            refl
      either false some_there =
          cancel n0 n1 n2 d1 d2 (block_rank-le m minimum saddle criticals).0
            (block_rank-le m saddle maximum criticals).1 complex
