-- ===== src/Hodge/Incidence.antt =====
-- The incidence matrix, entry by entry, and the symmetry of the Laplacian.
use mathlib.Core.Option.{some-injective}
use holographic_market.Base.{
  ℕ, zero, suc, ◌+◌, ◌<◌, ◌≡◌, ◌≢◌, refl, ap, ◌∙◌, subst, Bool, true, false, List, [], ◌∷◌, arith,
  ◌==◌, if◌then◌else◌, ◌&&◌, get_elem?, some, ==_ne, ==_refl,
}
use holographic_market.Base.Double.{Double, negate}
use holographic_market.Hodge.{
  Matrix, write_entry, cleared, incidence_from, build_signed_incidence, sum_from, hodge1_laplacian,
}

module _ {W : Type 0} ⦃d : Double W⦄ where
  sum-cong :
      (f g : ℕ → W) (v more : ℕ) (sum : W)
      → ((u : ℕ) → f u ≡ g u)
      → sum_from f v more sum ≡ sum_from g v more sum
  unfolding sum_from
  sum-cong f g v zero sum h = refl
  sum-cong f g v (suc more) sum h = rw (h v) (sum-cong f g (suc v) more (d.add sum (g v)) h)

  -- The Laplacian of the edges is symmetric, whatever the matrices, where multiplication commutes.
  hodge1_laplacian_symm :
      (b1 b2 : Matrix W) (n_nodes n_triangles row col : ℕ)
      → ((x y : W) → d.mul x y ≡ d.mul y x)
      → hodge1_laplacian b1 b2 n_nodes n_triangles row col
        ≡ hodge1_laplacian b1 b2 n_nodes n_triangles col row
  unfolding hodge1_laplacian
  hodge1_laplacian_symm b1 b2 n_nodes n_triangles row col comm =
      ap (λ x. d.add x (sum_from (λ t. d.mul (b2 row t) (b2 col t)) 0 n_triangles d.nought))
        (sum-cong (λ v. d.mul (b1 v row) (b1 v col)) (λ v. d.mul (b1 v col) (b1 v row)) 0 n_nodes
          d.nought (λ v. comm (b1 v row) (b1 v col)))
      ∙ ap (λ x. d.add (sum_from (λ v. d.mul (b1 v col) (b1 v row)) 0 n_nodes d.nought) x)
          (sum-cong (λ t. d.mul (b2 row t) (b2 col t)) (λ t. d.mul (b2 col t) (b2 row t)) 0
            n_triangles d.nought (λ t. comm (b2 row t) (b2 col t)))

  -- A write to another column is not seen.
  write_entry-other :
      (m : Matrix W) (row col v e : ℕ) (x : W) → e ≢ col → write_entry m row col x v e ≡ m v e
  write_entry-other m row col v e x ne = rw (==_ne e col ne) (either (v == row))
    where
      either : (b : Bool) → (if b && false then x else m v e) ≡ m v e
      either true = refl
      either false = refl

  write_entry-same :
      (m : Matrix W) (row col v : ℕ) (x : W)
      → write_entry m row col x v col ≡ (if v == row then x else m v col)
  write_entry-same m row col v x = rw (==_refl col) (either (v == row))
    where
      either : (b : Bool) → (if b && true then x else m v col) ≡ (if b then x else m v col)
      either true = refl
      either false = refl

  -- The columns of edges before the first are left alone.
  incidence-before :
      (n : ℕ) (edges : List (ℕ × ℕ)) (m : Matrix W) (v e : ℕ)
      → e < n
      → incidence_from n edges m v e ≡ m v e
  unfolding incidence_from
  incidence-before n [] m v e lt = refl
  incidence-before n ((src, dst) ∷ edges) m v e lt =
      let m1 = write_entry m src n (negate d.one) in
      incidence-before (suc n) edges (write_entry m1 dst n d.one) v e (omega arith)
      ∙ write_entry-other m1 dst n v e d.one (omega arith)
      ∙ write_entry-other m src n v e (negate d.one) (omega arith)

  -- The entry for an edge, over what stood there.
  abbrev pub end_sign : ℕ → ℕ × ℕ → W → W
  end_sign v (src, dst) x = if v == dst then d.one else if v == src then negate d.one else x

  incidence-at :
      (n k : ℕ) (edges : List (ℕ × ℕ)) (m : Matrix W) (v : ℕ) (e : ℕ × ℕ)
      → get_elem? edges k ≡ some e
      → incidence_from n edges m v (n + k) ≡ end_sign v e (m v (n + k))
  unfolding incidence_from
  incidence-at n k [] m v e at = absurd (cc)
  incidence-at n zero ((src, dst) ∷ edges) m v e at =
      let m1 = write_entry m src n (negate d.one) in
      subst (λ c. incidence_from n ((src, dst) ∷ edges) m v c ≡ end_sign v e (m v c)) (omega arith)
        (incidence-before (suc n) edges (write_entry m1 dst n d.one) v n (omega arith)
          ∙ write_entry-same m1 dst n v d.one
          ∙ ap (λ x. if v == dst then d.one else x) (write_entry-same m src n v (negate d.one))
          ∙ ap (λ t. end_sign v t (m v n)) (some-injective (src, dst) e at))
  incidence-at n (suc k) ((src, dst) ∷ edges) m v e at =
      let m1 = write_entry m src n (negate d.one) in
      subst (λ c. incidence_from n ((src, dst) ∷ edges) m v c ≡ end_sign v e (m v c)) (omega arith)
        (incidence-at (suc n) k edges (write_entry m1 dst n d.one) v e at
          ∙ ap (end_sign v e) (
              write_entry-other m1 dst n v (suc n + k) d.one (omega arith)
              ∙ write_entry-other m src n v (suc n + k) (negate d.one) (omega arith)))

  -- In the column of an edge the node that it leads to has 1, the node that it comes from -1, and
  -- every other node 0.
  pub build_signed_incidence-end_sign :
      (edges : List (ℕ × ℕ)) (v k : ℕ) (e : ℕ × ℕ)
      → get_elem? edges k ≡ some e
      → build_signed_incidence edges v k ≡ end_sign v e d.nought
  unfolding build_signed_incidence
  build_signed_incidence-end_sign edges v k e at =
      subst (λ c. incidence_from 0 edges cleared v c ≡ end_sign v e d.nought) (omega arith)
        (incidence-at 0 k edges cleared v e at)
