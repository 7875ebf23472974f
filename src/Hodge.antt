-- ===== src/Hodge.antt =====
-- engine/math/hodge_kernel.cu: the edges and triangles of a graph, its incidence matrices, the
-- Laplacian of its edges and the parts of a flow. A kernel is one function: its threads, in the
-- order of their index, where each writes slots of its own. Where they take slots from a counter,
-- the edges come in the order of a schedule, which is an argument, and the triangles in the order
-- of the threads, on which no theorem depends. A matrix is a function of row and column, for the
-- row-major arrays of the code, whose columns are in range. The eigenvectors come from cuSOLVER
-- and are arguments.
pub mod Graph
pub mod Triangles
pub mod Incidence
pub mod Signal
mod Tests
use holographic_market.Base.{
  ℕ, zero, suc, ◌+◌, ◌-◌, ◌*◌, ◌≤◌, Bool, not, List, [], ◌∷◌, ◌++◌, Option, none, some, ltb, ◌==◌,
  if◌then◌else◌, ◌&&◌, ◌||◌, length, get_or,
}
use holographic_market.Base.Double.{Double, ◌<?◌, negate, magnitude}

abbrev pub k_max_edges : ℕ
k_max_edges = 4096

abbrev pub k_max_triangles : ℕ
k_max_triangles = 8192

-- The compressed rows of a sparse matrix.
pub record Csr : Type 0 where
  pub n_rows : ℕ
  pub row_ptr : List ℕ
  pub col_idx : List ℕ

-- What is written to slots taken from a counter, which goes on counting when they are full.
pub record Slots (A : Type 0) : Type 0 where
  pub filled : List A
  pub counter : ℕ

module _ {A : Type 0} where
  abbrev pub no_slots : Slots A
  no_slots = record { filled = []; counter = 0 }

  abbrev pub claim_slot : ℕ → Slots A → A → Slots A
  claim_slot limit s a = record s {
    filled = if ltb s.counter limit then s.filled ++ a ∷ [] else s.filled;
    counter = s.counter + 1;
  }

-- The columns `col_idx[start]`, …, `count` of them.
unfoldable pub slice : List ℕ → ℕ → ℕ → List ℕ
slice cols start zero = []
slice cols start (suc count) = get_or cols start 0 ∷ slice cols (suc start) count

unfoldable pub neighbours : Csr → ℕ → List ℕ
unfolding slice
neighbours g v =
    let start = get_or g.row_ptr v 0 in slice g.col_idx start (get_or g.row_ptr (suc v) 0 - start)

-- The slots that one thread of `kernel_build_edge_list_from_csr` asks for, in its order.
unfoldable pub edges_of_row : ℕ → List ℕ → List (ℕ × ℕ)
edges_of_row v [] = []
edges_of_row v (u ∷ row) = let rest = edges_of_row v row in if ltb v u then (v, u) ∷ rest else rest

unfoldable pub edges_from : Csr → ℕ → ℕ → List (List (ℕ × ℕ))
unfolding edges_of_row neighbours
edges_from g v zero = []
edges_from g v (suc more) = edges_of_row v (neighbours g v) ∷ edges_from g (suc v) more

module _ {A : Type 0} where
  -- The next request of thread `i`, and what is then left of all threads.
  unfoldable pub next_of : ℕ → List (List A) → Option (A × List (List A))
  next_of i [] = none
  next_of zero ([] ∷ threads) = none
  next_of zero ((a ∷ thread) ∷ threads) = some (a, thread ∷ threads)
  next_of (suc i) (thread ∷ threads) = elim (next_of i threads) [
    | none ↦ none
    | some (a, left) ↦ some (a, thread ∷ left)
  ]

  -- The threads take slots from one counter by atomic additions, in the order of a schedule that
  -- names a thread for each; what is left of the threads behind it, and the slots.
  unfoldable pub run_threads : ℕ → List ℕ → List (List A) → Slots A → List (List A) × Slots A
  unfolding next_of
  run_threads limit [] threads s = (threads, s)
  run_threads limit (i ∷ schedule) threads s = elim (next_of i threads) [
    | none ↦ run_threads limit schedule threads s
    | some (a, left) ↦ run_threads limit schedule left (claim_slot limit s a)
  ]

unfoldable pub build_edge_list : List ℕ → Csr → List (List (ℕ × ℕ)) × Slots (ℕ × ℕ)
unfolding edges_from run_threads
build_edge_list schedule g = run_threads k_max_edges schedule (edges_from g 0 g.n_rows) no_slots

abbrev pub joins : ℕ → ℕ → ℕ × ℕ → Bool
joins a b (s, t) = (s == a && t == b) || (s == b && t == a)

-- The last edge between two nodes, from edge `f` on, if one is found.
unfoldable pub find_edge : ℕ → ℕ → ℕ → List (ℕ × ℕ) → Option ℕ → Option ℕ
find_edge a b f [] found = found
find_edge a b f (e ∷ edges) found =
    find_edge a b (suc f) edges (if joins a b e then some f else found)

-- The edges e, e_ik and e_jk of a triangle.
pub record Triangle : Type 0 where
  pub e : ℕ
  pub e_ik : ℕ
  pub e_jk : ℕ

abbrev pub claim_triangle : ℕ → ℕ → Option ℕ → Option ℕ → Slots Triangle → Slots Triangle
claim_triangle limit e (some ik) (some jk) s =
    claim_slot limit s (record { e = e; e_ik = ik; e_jk = jk })
claim_triangle limit e _ _ s = s

abbrev pub third_node : ℕ → List (ℕ × ℕ) → ℕ → ℕ → ℕ → ℕ → Slots Triangle → Slots Triangle
third_node limit edges e i j k s =
    claim_triangle limit e (find_edge i k 0 edges none) (find_edge j k 0 edges none) s

-- One thread of `kernel_find_triangles`: the walk through the two rows. `none` when the fuel is
-- used up.
unfoldable pub merge_rows :
    ℕ → ℕ → List (ℕ × ℕ) → ℕ → ℕ → ℕ → List ℕ → List ℕ → Slots Triangle → Option (Slots Triangle)
unfolding find_edge
merge_rows limit fuel edges e i j [] nj s = some s
merge_rows limit fuel edges e i j (a ∷ ni) [] s = some s
merge_rows limit zero edges e i j (a ∷ ni) (b ∷ nj) s = none
merge_rows limit (suc fuel) edges e i j (a ∷ ni) (b ∷ nj) s =
    let both = merge_rows limit fuel edges e i j ni nj (third_node limit edges e i j a s) in
    let left = merge_rows limit fuel edges e i j ni (b ∷ nj) s in
    let right = merge_rows limit fuel edges e i j (a ∷ ni) nj s in
    if a == b && (not (a == i) && not (a == j)) then both else if ltb a b then left else right

abbrev pub Matrix : Type 0 → Type 0
Matrix W = ℕ → ℕ → W

module _ {W : Type 0} ⦃d : Double W⦄ where
  abbrev pub write_entry : Matrix W → ℕ → ℕ → W → Matrix W
  write_entry m row col x = λ r c. if r == row && c == col then x else m r c

  -- `cudaMemsetAsync` with 0
  abbrev pub cleared : Matrix W
  cleared r c = d.nought

  -- `kernel_build_signed_incidence`, from edge `e` on.
  unfoldable pub incidence_from : ℕ → List (ℕ × ℕ) → Matrix W → Matrix W
  incidence_from e [] m = m
  incidence_from e ((src, dst) ∷ edges) m =
      incidence_from (suc e) edges (write_entry (write_entry m src e (negate d.one)) dst e d.one)

  unfoldable pub build_signed_incidence : List (ℕ × ℕ) → Matrix W
  unfolding incidence_from
  build_signed_incidence edges = incidence_from 0 edges cleared

  abbrev pub write_if : Bool → Matrix W → ℕ → ℕ → W → Matrix W
  write_if ok m row col x = λ r c. if ok then write_entry m row col x r c else m r c

  -- `kernel_build_triangle_incidence`, from triangle `t` on.
  unfoldable pub triangles_from : ℕ → ℕ → List Triangle → Matrix W → Matrix W
  triangles_from n_edges t [] m = m
  triangles_from n_edges t (x ∷ triangles) m = triangles_from n_edges (suc t) triangles (
      write_if (ltb x.e_jk n_edges)
        (write_if (ltb x.e_ik n_edges) (write_if (ltb x.e n_edges) m x.e t d.one) x.e_ik t d.one)
        x.e_jk t (negate d.one))

  unfoldable pub build_triangle_incidence : ℕ → List Triangle → Matrix W
  unfolding triangles_from
  build_triangle_incidence n_edges triangles = triangles_from n_edges 0 triangles cleared

  -- A loop that adds `f v`, from `v` on, `more` times.
  unfoldable pub sum_from : (ℕ → W) → ℕ → ℕ → W → W
  sum_from f v zero sum = sum
  sum_from f v (suc more) sum = sum_from f (suc v) more (d.add sum (f v))

  -- `kernel_hodge1_laplacian`
  unfoldable pub hodge1_laplacian : Matrix W → Matrix W → ℕ → ℕ → Matrix W
  unfolding sum_from
  hodge1_laplacian b1 b2 n_nodes n_triangles row col =
      d.add (sum_from (λ v. d.mul (b1 v row) (b1 v col)) 0 n_nodes d.nought)
        (sum_from (λ t. d.mul (b2 row t) (b2 col t)) 0 n_triangles d.nought)

-- One thread after the other of `kernel_find_triangles`, from edge `e` on.
unfoldable pub triangles_of :
    ℕ → Csr → List (ℕ × ℕ) → ℕ → List (ℕ × ℕ) → Slots Triangle → Option (Slots Triangle)
unfolding merge_rows neighbours
triangles_of limit g edges e [] s = some s
triangles_of limit g edges e ((i, j) ∷ more) s =
    let ni = neighbours g i in
    let nj = neighbours g j in
    elim (merge_rows limit (length ni + length nj) edges e i j ni nj s) [
      | none ↦ none
      | some s' ↦ triangles_of limit g edges (suc e) more s'
    ]

unfoldable pub find_triangles : Csr → List (ℕ × ℕ) → Option (Slots Triangle)
unfolding triangles_of
find_triangles g edges = triangles_of k_max_triangles g edges 0 edges no_slots

-- The fields of `HodgeWorkspace` that `build_incidence_matrices` sets.
pub record Workspace (W : Type 0) : Type 0 where
  pub edges : List (ℕ × ℕ)
  pub triangles : List Triangle
  pub b1 : Matrix W
  pub b2 : Matrix W
  pub l1 : Matrix W

abbrev pub with_triangles :
    {W : Type 0} ⦃d : Double W⦄
    → Csr
    → List (ℕ × ℕ)
    → Option (Slots Triangle)
    → Option (Workspace W)
with_triangles g edges none = none
with_triangles g edges (some s) =
    let b1 = build_signed_incidence edges in
    let b2 = build_triangle_incidence (length edges) s.filled in
    some (record {
      edges = edges;
      triangles = s.filled;
      b1 = b1;
      b2 = b2;
      l1 = hodge1_laplacian b1 b2 g.n_rows (length s.filled);
    })

-- The counts that are cut off at the limits are the numbers of filled slots.
unfoldable pub build_incidence_matrices :
    {W : Type 0} ⦃d : Double W⦄ → List ℕ → Csr → Option (Workspace W)
unfolding build_edge_list find_triangles build_signed_incidence build_triangle_incidence
build_incidence_matrices schedule g =
    let edges = (build_edge_list schedule g).1.filled in
    with_triangles g edges (find_triangles g edges)
