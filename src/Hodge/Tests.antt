-- ===== src/Hodge/Tests.antt =====
-- The complete graph of three nodes, and the theorems on the graph at it. Numbers are whole.
use mathlib.Core.List.{Perm}
use holographic_market.Base.{
  ℕ, ◌+◌, ◌*◌, ap, ◌∙◌, ◌≡◌, refl, List, [], ◌∷◌, Option, none, some, arith, length, map,
}
use holographic_market.Base.Int.{ℤ, pos, negsuc, ◌*ℤ◌, sub_ℕ, pos_part, neg_part}
use holographic_market.Base.Double.{whole}
use holographic_market.Hodge.{
  Csr, Slots, build_edge_list, run_threads, next_of, edges_from, edges_of_row, neighbours, slice,
  find_triangles, triangles_of, merge_rows, find_edge, Triangle, Matrix, build_signed_incidence,
  incidence_from, build_triangle_incidence, triangles_from, sum_from, k_max_edges,
}
use holographic_market.Hodge.Graph.{Filled, build_edge_list-Filled}
use holographic_market.Hodge.Triangles.{AllTriangles, find_triangles-AllTriangles}
use holographic_market.Hodge.Incidence.{end_sign, build_signed_incidence-end_sign}

abbrev k3 : Csr
k3 = record { n_rows = 3; row_ptr = 0 ∷ 2 ∷ 4 ∷ 6 ∷ []; col_idx = 1 ∷ 2 ∷ 0 ∷ 2 ∷ 0 ∷ 1 ∷ [] }

abbrev edges : List (ℕ × ℕ)
edges = (0, 1) ∷ (0, 2) ∷ (1, 2) ∷ []

-- The threads of the three nodes take turns, the second one first.
edges_lem : (build_edge_list (1 ∷ 0 ∷ 2 ∷ 0 ∷ []) k3).1.filled ≡ (1, 2) ∷ (0, 1) ∷ (0, 2) ∷ []
unfolding build_edge_list run_threads next_of edges_from edges_of_row neighbours slice
edges_lem = refl

build_edge_list-Filled_example :
    (order : List (ℕ × ℕ)) × Perm order edges
    × Filled k_max_edges order (build_edge_list (1 ∷ 0 ∷ 0 ∷ []) k3).1
unfolding build_edge_list run_threads next_of edges_from edges_of_row neighbours slice
build_edge_list-Filled_example = build_edge_list-Filled (1 ∷ 0 ∷ 0 ∷ []) k3 refl

find_triangles-AllTriangles_example :
    (s : Slots Triangle) × (find_triangles k3 edges ≡ some s) × AllTriangles edges s.filled
find_triangles-AllTriangles_example = find_triangles-AllTriangles k3 edges

build_signed_incidence-end_sign_example :
    build_signed_incidence edges 1 2 ≡ end_sign 1 (1, 2) (pos 0)
build_signed_incidence-end_sign_example = build_signed_incidence-end_sign edges 1 2 (1, 2) refl

-- The triangle is listed once for each of its edges.
abbrev found : Option (Slots Triangle) → List Triangle
found none = []
found (some s) = s.filled

listed : List Triangle
listed = found (find_triangles k3 edges)

three_times : length listed ≡ 3
unfolding listed find_triangles triangles_of merge_rows find_edge neighbours slice
three_times = refl

-- The boundary of the boundary of the triangle, as the first of these three lists it, at a node.
boundary : ℕ → ℤ
boundary v =
    sum_from (λ e. build_signed_incidence edges v e *ℤ build_triangle_incidence 3 listed e 0) 0 3
      (pos 0)

-- It is not zero: the signs 1, 1 and -1 do not run round the triangle, whose third edge is the one
-- that should be passed backwards.
boundary_not_zero : map boundary (0 ∷ 1 ∷ 2 ∷ []) ≡ negsuc 1 ∷ pos 2 ∷ pos 0 ∷ []
unfolding boundary listed find_triangles triangles_of merge_rows find_edge neighbours slice sum_from
    build_signed_incidence incidence_from build_triangle_incidence triangles_from
boundary_not_zero = refl

mul_comm_ℤ : (x y : ℤ) → x *ℤ y ≡ y *ℤ x
mul_comm_ℤ x y =
    ap (λ a. sub_ℕ a (pos_part x * neg_part y + neg_part x * pos_part y)) (omega arith)
    ∙ ap (λ b. sub_ℕ (pos_part y * pos_part x + neg_part y * neg_part x) b) (omega arith)

abbrev b1_k3 : Matrix ℤ
b1_k3 = build_signed_incidence edges

abbrev b2_k3 : Matrix ℤ
b2_k3 = build_triangle_incidence 3 listed

abbrev flow : ℕ → ℤ
flow e = negsuc e
