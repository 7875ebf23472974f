-- ===== src/Floer.antt =====
-- engine/math/floer_homology.cu: the critical points of the curl, the paths between them and the
-- boundary matrix. A kernel is one function: its threads in the order of their index; another order
-- gives another numbering of the slots. A device array is a function of the index, and an edge
-- list is the list of its ends. The float functions and literals are a parameter.
pub mod Rank
pub mod Homology
pub mod Filling
pub mod Points
pub mod Paths
pub mod Lower
pub mod Counts
pub mod Euler
mod Tests
use Prim.Native.Nat.{bit_xor}
use holographic_market.Base.{
  ℕ, zero, suc, ◌+◌, ◌-◌, ◌*◌, ◌/◌, ◌%◌, Bool, true, false, not, ◌&&◌, ◌||◌, List, [], ◌∷◌, Option,
  none, some, ltb, ◌==◌, if◌then◌else◌, length, get_elem?,
}
use holographic_market.Base.Int.{ℤ, pos, negsuc}
use holographic_market.Base.Double.{Double, ◌<?◌, negate, magnitude}
use holographic_market.Hodge.{Matrix, Slots, no_slots, claim_slot}

abbrev pub k_floer_max_criticals : ℕ
k_floer_max_criticals = 256

pub data MorseIndex : Type 0 where
  minimum saddle maximum : MorseIndex

abbrev pub grade : MorseIndex → ℕ
grade minimum = 0
grade saddle = 1
grade maximum = 2

-- The literals `1e-3`, `0.15`, `0.05`, `1e-8`, `2.0 * 3.14159265`, `1e-10`, `1e30` and `1e29`, in
-- the order of the fields after the functions.
pub record Floats (W : Type 0) : Type 0 where
  pub sqrt : W → W
  pub of_ℕ : ℕ → W
  pub k_instanton_threshold : W
  pub k_self_dual_tolerance : W
  pub k_saddle_band : W
  pub epsilon : W
  pub two_pi : W
  pub action_floor : W
  pub no_entry : W
  pub entry_limit : W

pub record CriticalPoint (W : Type 0) : Type 0 where
  pub edge_idx : ℕ
  pub action : W
  pub curl_magnitude : W
  pub morse_index : MorseIndex
  pub self_dual : Bool

pub record InstantonPath (W : Type 0) : Type 0 where
  pub src_critical : ℤ
  pub dst_critical : ℤ
  pub path_action : W
  pub self_dual_residual : W
  pub valid : Bool

-- `x >= 0 && x < n`, with the index.
abbrev pub in_range : ℕ → ℤ → Option ℕ
in_range n (pos i) = if ltb i n then some i else none
in_range n (negsuc i) = none

abbrev pub shares_end : ℕ × ℕ → ℕ × ℕ → Bool
shares_end (src, dst) (s, t) = (s == src || t == dst) || (s == dst || t == src)

-- A thread that returns early takes no slot.
abbrev pub claim_some : {A : Type 0} → ℕ → Slots A → Option A → Slots A
claim_some limit s none = s
claim_some limit s (some a) = claim_slot limit s a

module _ {W : Type 0} ⦃d : Double W⦄ (fl : Floats W) (curl coexact : ℕ → W) where
  -- The sum and the count over the edges other than `e` that share an end with it, from `f` on.
  unfoldable pub neighbours_from : ℕ → ℕ × ℕ → ℕ → List (ℕ × ℕ) → W × ℕ → W × ℕ
  neighbours_from e ends f [] r = r
  neighbours_from e ends f (x ∷ edges) (sum, count) =
      neighbours_from e ends (suc f) edges (
        if not (f == e) && shares_end ends x then (d.add sum (curl f), suc count) else (sum, count))

  abbrev pub morse_of : W → MorseIndex
  morse_of hessian =
      if fl.k_saddle_band <? hessian
      then maximum
      else if hessian <? negate fl.k_saddle_band
      then minimum
      else saddle

  abbrev pub critical_point : W → ℕ → W × ℕ → CriticalPoint W
  critical_point ym_action e (sum, count) = record {
    edge_idx = e;
    action = d.div (d.mul (curl e) (curl e)) (d.mul fl.two_pi (d.add ym_action fl.epsilon));
    curl_magnitude = curl e;
    morse_index = morse_of (d.sub (curl e) (d.div sum (fl.of_ℕ count)));
    self_dual =
        d.div (magnitude (d.sub (coexact e) (curl e))) (d.add (curl e) fl.epsilon)
        <? fl.k_self_dual_tolerance;
  }

  -- One thread of `kernel_find_critical_points`: `none` is an early return.
  unfoldable pub critical_at : W → List (ℕ × ℕ) → ℕ → ℕ × ℕ → Option (CriticalPoint W)
  unfolding neighbours_from
  critical_at ym_action edges e ends =
      let near = neighbours_from e ends 0 edges (d.nought, 0) in
      if curl e <? fl.k_instanton_threshold
      then none
      else if near.1 == 0
      then none
      else some (critical_point ym_action e near)

  -- The threads from edge `e` on.
  unfoldable pub criticals_from :
      ℕ → W → List (ℕ × ℕ) → ℕ → List (ℕ × ℕ) → Slots (CriticalPoint W) → Slots (CriticalPoint W)
  unfolding critical_at
  criticals_from limit ym_action edges e [] s = s
  criticals_from limit ym_action edges e (ends ∷ more) s =
      criticals_from limit ym_action edges (suc e) more
        (claim_some limit s (critical_at ym_action edges e ends))

  unfoldable pub find_critical_points : W → List (ℕ × ℕ) → Slots (CriticalPoint W)
  unfolding criticals_from
  find_critical_points ym_action edges =
      criticals_from k_floer_max_criticals ym_action edges 0 edges no_slots

  abbrev pub path_between : ℕ → CriticalPoint W → ℕ → CriticalPoint W → InstantonPath W
  path_between src_idx src dst_idx dst =
      let curl_src = curl src.edge_idx in
      let curl_dst = curl dst.edge_idx in
      record {
        src_critical = pos src_idx;
        dst_critical = pos dst_idx;
        path_action = fl.sqrt (d.add (d.mul src.action dst.action) fl.action_floor);
        self_dual_residual =
            d.div (magnitude (d.add (coexact src.edge_idx) (coexact dst.edge_idx)))
              (d.add (d.add curl_src curl_dst) fl.epsilon);
        valid = true;
      }

  abbrev pub path_of :
      ℕ → Option (CriticalPoint W) → ℕ → Option (CriticalPoint W) → Option (InstantonPath W)
  path_of i (some a) j (some b) =
      if ltb (grade a.morse_index) (grade b.morse_index)
      then some (path_between i a j b)
      else if ltb (grade b.morse_index) (grade a.morse_index)
      then some (path_between j b i a)
      else none
  path_of i _ j _ = none

  -- One thread of `kernel_find_instantons`.
  unfoldable pub instanton_at : List (CriticalPoint W) → ℕ → Option (InstantonPath W)
  instanton_at criticals tid =
      let i = tid / length criticals in
      let j = tid % length criticals in
      if ltb i j then path_of i (get_elem? criticals i) j (get_elem? criticals j) else none

  -- The threads from `tid` on, `more` of them.
  unfoldable pub instantons_from :
      ℕ → List (CriticalPoint W) → ℕ → ℕ → Slots (InstantonPath W) → Slots (InstantonPath W)
  unfolding instanton_at
  instantons_from limit criticals tid zero s = s
  instantons_from limit criticals tid (suc more) s =
      instantons_from limit criticals (suc tid) more
        (claim_some limit s (instanton_at criticals tid))

  unfoldable pub find_instantons : List (CriticalPoint W) → Slots (InstantonPath W)
  unfolding instantons_from
  find_instantons criticals =
      instantons_from (k_floer_max_criticals * k_floer_max_criticals) criticals 0
        (length criticals * length criticals) no_slots

-- `atomicXor` with 1 on one entry.
abbrev pub toggle : Matrix ℕ → ℕ → ℕ → Matrix ℕ
toggle m row col r c = if r == row && c == col then bit_xor (m r c) 1 else m r c

abbrev pub one_apart : MorseIndex → MorseIndex → Bool
one_apart a b = (grade a == suc (grade b)) || (grade b == suc (grade a))

abbrev pub toggle_if : Bool → Matrix ℕ → ℕ → ℕ → Matrix ℕ
toggle_if b m row col r c = if b then toggle m row col r c else m r c

module _ {W : Type 0} where
  abbrev pub mark : List (CriticalPoint W) → Option ℕ → Option ℕ → Matrix ℕ → Matrix ℕ
  mark criticals (some s) (some t) m = elim (get_elem? criticals s) [
    | none ↦ m
    | some a ↦ elim (get_elem? criticals t) [
      | none ↦ m
      | some b ↦ toggle_if (one_apart a.morse_index b.morse_index) m t s
    ]
  ]
  mark criticals _ _ m = m

  -- One thread of `kernel_build_floer_boundary`.
  unfoldable pub boundary_at : List (CriticalPoint W) → InstantonPath W → Matrix ℕ → Matrix ℕ
  boundary_at criticals p m =
      let n = length criticals in
      if p.valid
      then mark criticals (in_range n p.src_critical) (in_range n p.dst_critical) m
      else m

  unfoldable pub build_floer_boundary :
      List (CriticalPoint W) → List (InstantonPath W) → Matrix ℕ → Matrix ℕ
  unfolding boundary_at
  build_floer_boundary criticals [] m = m
  build_floer_boundary criticals (p ∷ paths) m =
      build_floer_boundary criticals paths (boundary_at criticals p m)
