-- ===== src/Floer/Homology.antt =====
-- `compute_floer_homology` and `run_floer_analysis`, engine/math/floer_homology.cu.
use holographic_market.Base.{
  ℕ, zero, suc, ◌+◌, ◌-◌, Bool, true, false, ◌&&◌, List, [], ◌∷◌, Option, none, some, ltb, ◌==◌,
  if◌then◌else◌, length, get_elem?, replicate,
}
use holographic_market.Base.Int.{ℤ, pos, sub_ℕ}
use holographic_market.Base.Double.{Double, ◌<?◌}
use holographic_market.Hodge.{Matrix}
use holographic_market.Floer.{
  MorseIndex, minimum, saddle, maximum, grade, Floats, CriticalPoint, InstantonPath, in_range,
  find_critical_points, find_instantons, build_floer_boundary,
}
use holographic_market.Floer.Rank.{Rows, gaussian_rank_z2}

pub record FloerRecord (W : Type 0) : Type 0 where
  pub entry_signal : MorseIndex
  pub instanton_found : Bool
  pub entry_action : W
  pub exit_action : W
  pub instanton_length : W
  pub rank_hf0 : ℕ
  pub rank_hf1 : ℕ
  pub rank_hf2 : ℕ
  pub euler_characteristic : ℤ
  pub n_criticals : ℕ
  pub n_instantons : ℕ
  pub mean_self_dual_residual : W

-- The variables of the loop over the paths.
pub record Flow (W : Type 0) : Type 0 where
  pub best_entry : W
  pub best_exit : W
  pub best_len : W
  pub total_asd : W
  pub any : Bool

abbrev pub signal_of : ℕ → ℕ → ℕ → MorseIndex
signal_of hf0 hf1 hf2 =
    if ltb hf2 hf0 && ltb hf1 hf0
    then minimum
    else if ltb hf0 hf2 && ltb hf1 hf2
    then maximum
    else saddle

module _ {W : Type 0} where
  abbrev pub is_index : MorseIndex → CriticalPoint W → Bool
  is_index g c = grade c.morse_index == grade g

  -- `n_grade[g]`
  unfoldable pub n_grade : MorseIndex → List (CriticalPoint W) → ℕ
  n_grade g [] = 0
  n_grade g (c ∷ criticals) =
      if is_index g c then suc (n_grade g criticals) else n_grade g criticals

  -- Row `i` of a block, from column `j` on: `left` of its cells are to be written, and a cell that
  -- is not stays 0.
  unfoldable pub block_row : Matrix ℕ → MorseIndex → ℕ → ℕ → ℕ → List (CriticalPoint W) → List ℕ
  block_row m g i zero j criticals = []
  block_row m g i (suc left) j [] = replicate (suc left) 0
  block_row m g i (suc left) j (c ∷ criticals) =
      if is_index g c
      then m i j ∷ block_row m g i left (suc j) criticals
      else block_row m g i (suc left) (suc j) criticals

  -- The rows of a block from `i` on, `left` of them.
  unfoldable pub block_from :
      Matrix ℕ
      → MorseIndex
      → MorseIndex
      → ℕ
      → List (CriticalPoint W)
      → ℕ
      → ℕ
      → List (CriticalPoint W)
      → Rows
  unfolding block_row
  block_from m g h cols all zero i criticals = []
  block_from m g h cols all (suc left) i [] = replicate (suc left) (replicate cols 0)
  block_from m g h cols all (suc left) i (c ∷ criticals) =
      if is_index g c
      then block_row m h i cols 0 all ∷ block_from m g h cols all left (suc i) criticals
      else block_from m g h cols all (suc left) (suc i) criticals

  -- The rank of the block of the rows of index `g` and the columns of index `h`.
  unfoldable pub block_rank : Matrix ℕ → MorseIndex → MorseIndex → List (CriticalPoint W) → ℕ
  unfolding block_from n_grade gaussian_rank_z2
  block_rank m g h criticals =
      let r = n_grade g criticals in
      let c = n_grade h criticals in
      if ltb 0 r && ltb 0 c
      then gaussian_rank_z2 (block_from m g h c criticals r 0 criticals) c
      else 0

module _ {W : Type 0} ⦃d : Double W⦄ (fl : Floats W) where
  abbrev pub note_entry : InstantonPath W → CriticalPoint W → Flow W → Flow W
  note_entry p s f =
      if is_index minimum s && (s.action <? f.best_entry)
      then record f { best_entry = s.action; best_len = p.path_action; any = true }
      else f

  abbrev pub note_exit : CriticalPoint W → Flow W → Flow W
  note_exit t f =
      if is_index maximum t && (f.best_exit <? t.action)
      then record f { best_exit = t.action }
      else f

  abbrev pub add_residual : InstantonPath W → Flow W → Flow W
  add_residual p f = record f { total_asd = d.add f.total_asd p.self_dual_residual }

  abbrev pub note_path :
      InstantonPath W → Option (CriticalPoint W) → Option (CriticalPoint W) → Flow W → Flow W
  note_path p (some s) (some t) f = add_residual p (note_exit t (note_entry p s f))
  note_path p _ _ f = f

  abbrev pub critical_in : List (CriticalPoint W) → Option ℕ → Option (CriticalPoint W)
  critical_in criticals none = none
  critical_in criticals (some i) = get_elem? criticals i

  unfoldable pub note_paths : List (CriticalPoint W) → List (InstantonPath W) → Flow W → Flow W
  note_paths criticals [] f = f
  note_paths criticals (p ∷ paths) f =
      let n = length criticals in
      note_paths criticals paths (
        if p.valid
        then note_path p (critical_in criticals (in_range n p.src_critical))
            (critical_in criticals (in_range n p.dst_critical)) f
        else f)

  -- `FloerRecord{}`
  abbrev pub no_record : FloerRecord W
  no_record = record {
    entry_signal = saddle;
    instanton_found = false;
    entry_action = d.nought;
    exit_action = d.nought;
    instanton_length = d.nought;
    rank_hf0 = 0;
    rank_hf1 = 0;
    rank_hf2 = 0;
    euler_characteristic = pos 0;
    n_criticals = 0;
    n_instantons = 0;
    mean_self_dual_residual = d.nought;
  }

  abbrev pub no_flow : Flow W
  no_flow = record {
    best_entry = fl.no_entry;
    best_exit = d.nought;
    best_len = d.nought;
    total_asd = d.nought;
    any = false;
  }

  -- What is computed where there is a critical point. A rank below 0 is set to 0, where the
  -- subtraction stops.
  abbrev pub homology_of : ℕ → ℕ → ℕ → ℕ → ℕ → ℕ → ℕ → Flow W → FloerRecord W
  homology_of n0 n1 n2 rank_d1 rank_d2 n_criticals n_instantons f =
      let hf0 = n0 - rank_d1 in
      let hf1 = n1 - (rank_d1 + rank_d2) in
      let hf2 = n2 - rank_d2 in
      record {
        entry_signal = signal_of hf0 hf1 hf2;
        instanton_found = f.any;
        entry_action = if f.best_entry <? fl.entry_limit then f.best_entry else d.nought;
        exit_action = f.best_exit;
        instanton_length = f.best_len;
        rank_hf0 = hf0;
        rank_hf1 = hf1;
        rank_hf2 = hf2;
        euler_characteristic = sub_ℕ (hf0 + hf2) hf1;
        n_criticals = n_criticals;
        n_instantons = n_instantons;
        mean_self_dual_residual =
            if ltb 0 n_instantons then d.div f.total_asd (fl.of_ℕ n_instantons) else d.nought;
      }

  unfoldable pub compute_floer_homology :
      List (CriticalPoint W) → List (InstantonPath W) → Matrix ℕ → FloerRecord W
  unfolding n_grade block_rank note_paths
  compute_floer_homology criticals paths m =
      if length criticals == 0
      then record no_record { n_instantons = length paths }
      else homology_of (n_grade minimum criticals) (n_grade saddle criticals)
          (n_grade maximum criticals) (block_rank m minimum saddle criticals)
          (block_rank m saddle maximum criticals) (length criticals) (length paths)
          (note_paths criticals paths no_flow)

  -- `cudaMemsetAsync` with 0
  abbrev pub no_boundary : Matrix ℕ
  no_boundary r c = 0

  -- The counts that are cut off at the limits are the numbers of filled slots.
  unfoldable pub analyse : (ℕ → W) → (ℕ → W) → List (CriticalPoint W) → FloerRecord W
  unfolding find_instantons build_floer_boundary compute_floer_homology
  analyse curl coexact criticals =
      let paths = (find_instantons fl curl coexact criticals).filled in
      if ltb (length criticals) 2
      then record no_record { n_criticals = length criticals }
      else compute_floer_homology criticals paths (build_floer_boundary criticals paths no_boundary)

  unfoldable pub run_floer_analysis : (ℕ → W) → (ℕ → W) → List (ℕ × ℕ) → W → FloerRecord W
  unfolding find_critical_points analyse
  run_floer_analysis curl coexact edges ym_action =
      if length edges == 0
      then no_record
      else analyse curl coexact (find_critical_points fl curl coexact ym_action edges).filled
