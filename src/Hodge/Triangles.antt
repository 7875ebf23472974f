-- ===== src/Hodge/Triangles.antt =====
-- Every triangle that the search lists is one of the graph, and the search ends.
use mathlib.Core.List.{append_assoc}
use holographic_market.Base.{
  ℕ, zero, suc, ◌+◌, ◌≤◌, ◌≡◌, ◌≢◌, refl, sym, ap, ◌∙◌, Bool, true, false, not, List, [], ◌∷◌, ◌++◌,
  Option, none, some, arith, ltb, ◌==◌, if◌then◌else◌, ◌&&◌, length, get_elem?, Bool-cases, inl,
  inr, length-append,
}
use holographic_market.Hodge.{
  Csr, Slots, no_slots, claim_slot, neighbours, k_max_triangles, joins, find_edge, Triangle,
  claim_triangle, third_node, merge_rows, triangles_of, find_triangles,
}

-- The triangle is made of an edge and the edges of both its ends to one third node.
pub record IsTriangle (edges : List (ℕ × ℕ)) (t : Triangle) : Type 0 where
  pub i : ℕ
  pub j : ℕ
  pub k : ℕ
  pub ik : ℕ × ℕ
  pub jk : ℕ × ℕ
  pub at_e : get_elem? edges t.e ≡ some (i, j)
  pub at_ik : get_elem? edges t.e_ik ≡ some ik
  pub at_jk : get_elem? edges t.e_jk ≡ some jk
  pub joins_ik : joins i k ik ≡ true
  pub joins_jk : joins j k jk ≡ true
  pub third : (k ≢ i) × (k ≢ j)

abbrev pub AllTriangles : List (ℕ × ℕ) → List Triangle → Type 0
AllTriangles edges [] = Unit {0}
AllTriangles edges (t ∷ ts) = IsTriangle edges t × AllTriangles edges ts

-- What a search is right to return.
abbrev Joining : List (ℕ × ℕ) → ℕ → ℕ → Option ℕ → Type 0
Joining edges a b none = Unit {0}
Joining edges a b (some f) = (e : ℕ × ℕ) × (get_elem? edges f ≡ some e) × (joins a b e ≡ true)

get-append :
    (before : List (ℕ × ℕ)) (e : ℕ × ℕ) (after : List (ℕ × ℕ))
    → get_elem? (before ++ e ∷ after) (length before) ≡ some e
get-append [] e after = refl
get-append (x ∷ before) e after = get-append before e after

find-Joining :
    (a b n : ℕ) (edges before rest : List (ℕ × ℕ)) (found : Option ℕ)
    → edges ≡ before ++ rest
    → n ≡ length before
    → Joining edges a b found
    → Joining edges a b (find_edge a b n rest found)
unfolding find_edge
find-Joining a b n edges before [] found split at h = h
find-Joining a b n edges before (e ∷ rest) found split at h =
    find-Joining a b (suc n) edges (before ++ e ∷ []) rest _
      (split ∙ sym (append_assoc before (e ∷ []) rest))
      (omega (arith, at, length-append before (e ∷ []))) (either (joins a b e) refl)
  where
    either : (c : Bool) → joins a b e ≡ c → Joining edges a b (if c then some n else found)
    either true j = (
      e,
      ap (λ l. get_elem? l n) split
          ∙ ap (get_elem? (before ++ e ∷ rest)) at
          ∙ get-append before e rest,
      j,
    )
    either false j = h

claim_slot-AllTriangles :
    (limit : ℕ) (edges : List (ℕ × ℕ)) (s : Slots Triangle) (t : Triangle)
    → AllTriangles edges s.filled
    → IsTriangle edges t
    → AllTriangles edges (claim_slot limit s t).filled
claim_slot-AllTriangles limit edges s t all h = either (ltb s.counter limit)
  where
    joined : (ts : List Triangle) → AllTriangles edges ts → AllTriangles edges (ts ++ t ∷ [])
    joined [] a = (h, tt)
    joined (x ∷ ts) a = (a.0, joined ts a.1)

    either : (b : Bool) → AllTriangles edges (if b then s.filled ++ t ∷ [] else s.filled)
    either true = joined s.filled all
    either false = all

third-AllTriangles :
    (limit : ℕ) (edges : List (ℕ × ℕ)) (e i j k : ℕ) (s : Slots Triangle)
    → get_elem? edges e ≡ some (i, j)
    → (k ≢ i) × (k ≢ j)
    → AllTriangles edges s.filled
    → AllTriangles edges (third_node limit edges e i j k s).filled
third-AllTriangles limit edges e i j k s at third all =
    both (find_edge i k 0 edges none) (find_edge j k 0 edges none)
      (find-Joining i k 0 edges [] edges none refl refl tt)
      (find-Joining j k 0 edges [] edges none refl refl tt)
  where
    both :
        (ik jk : Option ℕ)
        → Joining edges i k ik
        → Joining edges j k jk
        → AllTriangles edges (claim_triangle limit e ik jk s).filled
    both (some f) (some g) (x, atx, jx) (y, aty, jy) =
        claim_slot-AllTriangles limit edges s (record { e = e; e_ik = f; e_jk = g }) all
          (record {
            i = i;
            j = j;
            k = k;
            ik = x;
            jk = y;
            at_e = at;
            at_ik = atx;
            at_jk = aty;
            joins_ik = jx;
            joins_jk = jy;
            third = third;
          })
    both none jk p q = all
    both (some f) none p q = all

-- The walk through two rows ends, and adds only triangles.
merge-AllTriangles :
    (limit fuel : ℕ) (edges : List (ℕ × ℕ)) (e i j : ℕ) (ni nj : List ℕ) (s : Slots Triangle)
    → get_elem? edges e ≡ some (i, j)
    → length ni + length nj ≤ fuel
    → AllTriangles edges s.filled
    → (s' : Slots Triangle) × (merge_rows limit fuel edges e i j ni nj s ≡ some s')
      × AllTriangles edges s'.filled
unfolding merge_rows
merge-AllTriangles limit fuel edges e i j [] nj s at h all = (s, refl, all)
merge-AllTriangles limit fuel edges e i j (a ∷ ni) [] s at h all = (s, refl, all)
merge-AllTriangles limit zero edges e i j (a ∷ ni) (b ∷ nj) s at h all = absurd (omega (arith, h))
merge-AllTriangles limit (suc fuel) edges e i j (a ∷ ni) (b ∷ nj) s at h all =
    elim (Bool-cases (a == b && (not (a == i) && not (a == j)))) [
      | inl p ↦ rw p (
          merge-AllTriangles limit fuel edges e i j ni nj (third_node limit edges e i j a s) at
            (omega (arith, h)) (third-AllTriangles limit edges e i j a s at (ground arith) all))
      | inr p ↦ elim (Bool-cases (ltb a b)) [
        | inl q ↦
            rw (p, q)
              (merge-AllTriangles limit fuel edges e i j ni (b ∷ nj) s at (omega (arith, h)) all)
        | inr q ↦
            rw (p, q)
              (merge-AllTriangles limit fuel edges e i j (a ∷ ni) nj s at (omega (arith, h)) all)
      ]
    ]

triangles-AllTriangles :
    (limit : ℕ) (g : Csr) (n : ℕ) (edges before rest : List (ℕ × ℕ)) (s : Slots Triangle)
    → edges ≡ before ++ rest
    → n ≡ length before
    → AllTriangles edges s.filled
    → (s' : Slots Triangle) × (triangles_of limit g edges n rest s ≡ some s')
      × AllTriangles edges s'.filled
unfolding triangles_of
triangles-AllTriangles limit g n edges before [] s split at all = (s, refl, all)
triangles-AllTriangles limit g n edges before ((i, j) ∷ rest) s split at all =
    let (s1, e, all1) =
      merge-AllTriangles limit (length (neighbours g i) + length (neighbours g j)) edges n i j
        (neighbours g i) (neighbours g j) s
        (ap (λ l. get_elem? l n) split
          ∙ ap (get_elem? (before ++ (i, j) ∷ rest)) at
          ∙ get-append before (i, j) rest)
        (omega arith) all in
    rw (e, triangles_of)
      (triangles-AllTriangles limit g (suc n) edges (before ++ (i, j) ∷ []) rest s1
        (split ∙ sym (append_assoc before ((i, j) ∷ []) rest))
        (omega (arith, at, length-append before ((i, j) ∷ []))) all1)

-- Of any graph and any list of its edges: the search for triangles comes to an end with as many
-- steps for an edge as the rows of its ends are long, and each triangle that it lists is made of an
-- edge of the list and the edges of its two ends to one third node.
pub find_triangles-AllTriangles :
    (g : Csr) (edges : List (ℕ × ℕ))
    → (s : Slots Triangle) × (find_triangles g edges ≡ some s) × AllTriangles edges s.filled
unfolding find_triangles
find_triangles-AllTriangles g edges =
    triangles-AllTriangles k_max_triangles g 0 edges [] edges no_slots refl refl tt
