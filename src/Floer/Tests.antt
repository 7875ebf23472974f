-- ===== src/Floer/Tests.antt =====
-- Three edges between four nodes, in a path and with growing curls: a minimum, a saddle and a
-- maximum with two paths between neighbouring ones. Amounts are whole numbers.
use holographic_market.Base.{
  ℕ, ◌≡◌, refl, zero, suc, List, [], ◌∷◌, arith, length, map, ◌&&◌, ◌==◌, if◌then◌else◌,
}
use holographic_market.Base.Int.{ℤ, pos}
use holographic_market.Base.Double.{whole}
use holographic_market.Floer.{
  minimum, saddle, maximum, Floats, CriticalPoint, k_floer_max_criticals, find_critical_points,
  find_instantons, build_floer_boundary,
}
use holographic_market.Floer.Rank.{gaussian_rank_z2}
use holographic_market.Floer.Homology.{n_grade, no_boundary, run_floer_analysis, block_rank}
use holographic_market.Hodge.{Matrix}
use holographic_market.Floer.Filling.{AllFilled}
use holographic_market.Floer.Points.{IsCritical, find_critical_points-AllCritical}
use holographic_market.Floer.Counts.{Counted, run_floer_analysis-Counted}

abbrev crude : Floats ℤ
crude = record {
  sqrt = λ x. x;
  of_ℕ = pos;
  k_instanton_threshold = pos 1;
  k_self_dual_tolerance = pos 1;
  k_saddle_band = pos 5;
  epsilon = pos 1;
  two_pi = pos 6;
  action_floor = pos 1;
  no_entry = pos 1000;
  entry_limit = pos 100;
}

abbrev curl : ℕ → ℤ
curl zero = pos 10
curl (suc zero) = pos 20
curl (suc (suc zero)) = pos 30
curl _ = pos 0

abbrev edges : List (ℕ × ℕ)
edges = (0, 1) ∷ (1, 2) ∷ (2, 3) ∷ []

abbrev found : List (CriticalPoint ℤ)
found = (find_critical_points crude curl curl (pos 1) edges).filled

indices : map (λ c. c.morse_index) found ≡ minimum ∷ saddle ∷ maximum ∷ []
unfolding find_critical_points
indices = refl

find_critical_points-AllCritical_example :
    AllFilled
      (IsCritical crude curl curl edges)
      k_floer_max_criticals
      (find_critical_points crude curl curl (pos 1) edges)
find_critical_points-AllCritical_example =
    find_critical_points-AllCritical crude curl curl (pos 1) edges

three_found : length found ≡ 3
unfolding find_critical_points
three_found = refl

run_floer_analysis-Counted_example :
    Counted crude curl curl found (run_floer_analysis crude curl curl edges (pos 1))
run_floer_analysis-Counted_example =
    run_floer_analysis-Counted crude curl curl edges (pos 1) (omega (arith, three_found))

-- The boundary matrix has an entry in the row of the saddle and the column of the minimum, and the
-- rank is taken of the row of the minimum and the column of the saddle.
abbrev boundary : Matrix ℕ
boundary =
    build_floer_boundary found (find_instantons crude curl curl found).filled (no_boundary crude)

rank_below : block_rank boundary saddle minimum found ≡ 1
unfolding find_critical_points find_instantons build_floer_boundary block_rank
rank_below = refl

rank_taken : block_rank boundary minimum saddle found ≡ 0
unfolding find_critical_points find_instantons build_floer_boundary block_rank
rank_taken = refl

-- A boundary of the saddle only.
abbrev one_edge : Matrix ℕ
one_edge r c = if r == 0 && c == 1 then 1 else 0

one_rank :
    (block_rank one_edge minimum saddle found ≡ 1)
    × (block_rank one_edge saddle maximum found ≡ 0)
    × (n_grade saddle found ≡ 1)
unfolding find_critical_points block_rank n_grade
one_rank = (refl, refl, refl)

full_rank : gaussian_rank_z2 ((1 ∷ 1 ∷ 0 ∷ []) ∷ (1 ∷ 0 ∷ 1 ∷ []) ∷ (0 ∷ 1 ∷ 1 ∷ []) ∷ []) 3 ≡ 2
unfolding gaussian_rank_z2
full_rank = refl
