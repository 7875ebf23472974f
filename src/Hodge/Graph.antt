-- ===== src/Hodge/Graph.antt =====
-- Which entries of the matrix become edges.
use mathlib.Core.List.{append_assoc, append-nil, Perm, perm_middle}
use mathlib.Core.List.Perm
use holographic_market.Base.{
  ℕ, zero, suc, ◌+◌, ◌-◌, get_or, Option, none, some, ◌≡◌, refl, sym, ap, ◌∙◌, subst, Bool, true,
  false, List, [], ◌∷◌, ◌++◌, arith, ltb, if◌then◌else◌, length, take, Bool-cases, inl, inr,
  length-append,
}
use holographic_market.Hodge.{
  Csr, Slots, no_slots, claim_slot, slice, neighbours, edges_of_row, edges_from, next_of,
  run_threads, build_edge_list, k_max_edges,
}

positive : (n : ℕ) → ltb 0 (suc n) ≡ true
positive n = ground arith

module _ {A : Type 0} where
  -- The slots hold the first of all that were claimed, and the counter counts them all.
  abbrev pub Filled : ℕ → List A → Slots A → Type 0
  Filled limit xs s = (s.filled ≡ take limit xs) × (s.counter ≡ length xs)

  take-nil : (limit : ℕ) → take {A = A} limit [] ≡ []
  take-nil zero = refl
  take-nil (suc limit) = refl

  take-more :
      (limit : ℕ) (xs : List A) (a : A)
      → take limit (xs ++ a ∷ [])
        ≡ (if ltb (length xs) limit then take limit xs ++ a ∷ [] else take limit xs)
  take-more zero xs a = ground arith
  take-more (suc limit) [] a = rw (positive limit) (ap (λ l. a ∷ l) (take-nil limit))
  take-more (suc limit) (x ∷ xs) a = elim (Bool-cases (ltb (length xs) limit)) [
    | inl e ↦ rw (shifted true e) (ap (λ l. x ∷ l) (take-more limit xs a ∙ rw e refl))
    | inr e ↦ rw (shifted false e) (ap (λ l. x ∷ l) (take-more limit xs a ∙ rw e refl))
  ]
    where
      shifted : (b : Bool) → ltb (length xs) limit ≡ b → ltb (suc (length xs)) (suc limit) ≡ b
      shifted true e = ground arith
      shifted false e = ground arith

  claim_slot-Filled :
      (limit : ℕ) (xs : List A) (s : Slots A) (a : A)
      → Filled limit xs s
      → Filled limit (xs ++ a ∷ []) (claim_slot limit s a)
  claim_slot-Filled limit xs s a (f, c) =
      (rw (f, c) (sym (take-more limit xs a)), rw (c, length-append xs (a ∷ [])) refl)

-- All requests of the threads.
abbrev pub all_of : {A : Type 0} → List (List A) → List A
all_of [] = []
all_of (thread ∷ threads) = thread ++ all_of threads

module _ {A : Type 0} (limit : ℕ) where
  -- A request that is taken was one of those left.
  abbrev Took : List (List A) → Option (A × List (List A)) → Type 0
  Took threads none = Unit {0}
  Took threads (some (a, left)) = Perm (all_of threads) (a ∷ all_of left)

  next_of-Took : (i : ℕ) (threads : List (List A)) → Took threads (next_of i threads)
  unfolding next_of
  next_of-Took i [] = tt
  next_of-Took zero ([] ∷ threads) = tt
  next_of-Took zero ((a ∷ thread) ∷ threads) = Perm.refl (a ∷ thread ++ all_of threads)
  next_of-Took (suc i) (thread ∷ threads) = by_next (next_of i threads) (next_of-Took i threads)
    where
      by_next :
          (o : Option (A × List (List A)))
          → Took threads o
          → Took
              (thread ∷ threads)
              (elim o [ none ↦ none | some (a, left) ↦ some (a, thread ∷ left) ])
      by_next none took = tt
      by_next (some (a, left)) took =
          Perm.trans (Perm.append_left thread took) (perm_middle thread (all_of left))

  -- The order in which slots are taken is one of all requests but those that are left.
  abbrev Taken : List A → List (List A) → List (List A) × Slots A → Type 0
  Taken xs threads (left, s) =
      (ys : List A) × Perm (xs ++ all_of threads) (ys ++ all_of left) × Filled limit ys s

  run_threads-Taken :
      (schedule : List ℕ) (threads : List (List A)) (xs : List A) (s : Slots A)
      → Filled limit xs s
      → Taken xs threads (run_threads limit schedule threads s)
  unfolding run_threads
  run_threads-Taken [] threads xs s h = (xs, Perm.refl (xs ++ all_of threads), h)
  run_threads-Taken (i ∷ schedule) threads xs s h =
      by_next (next_of i threads) (next_of-Took i threads)
        (λ left ys s' p. run_threads-Taken schedule left ys s' p)
    where
      by_next :
          (o : Option (A × List (List A)))
          → Took threads o
          → ((left : List (List A)) (ys : List A) (s' : Slots A)
              → Filled limit ys s'
              → Taken ys left (run_threads limit schedule left s'))
          → Taken xs threads (elim o [
            | none ↦ run_threads limit schedule threads s
            | some (a, left) ↦ run_threads limit schedule left (claim_slot limit s a)
          ])
      by_next none took more = more threads xs s h
      by_next (some (a, left)) took more =
          let (ys, p, h') =
            more left (xs ++ a ∷ []) (claim_slot limit s a) (claim_slot-Filled limit xs s a h) in
          (
            ys,
            Perm.trans (Perm.append_left xs took) (
                subst
                  (λ l.
                    Perm l
                      (ys ++ all_of (run_threads limit schedule left (claim_slot limit s a)).0))
                  (append_assoc xs (a ∷ []) (all_of left)) p),
            h',
          )

-- The entries of a row above the diagonal, from position `p` on.
abbrev pub upper_row : Csr → ℕ → ℕ → ℕ → List (ℕ × ℕ)
upper_row g v p zero = []
upper_row g v p (suc more) =
    if ltb v (get_or g.col_idx p 0)
    then (v, get_or g.col_idx p 0) ∷ upper_row g v (p + 1) more
    else upper_row g v (p + 1) more

-- The entries of the matrix above the diagonal, from row `v` on.
abbrev pub upper_from : Csr → ℕ → ℕ → List (ℕ × ℕ)
upper_from g v zero = []
upper_from g v (suc more) =
    upper_row g v (get_or g.row_ptr v 0) (get_or g.row_ptr (v + 1) 0 - get_or g.row_ptr v 0)
    ++ upper_from g (v + 1) more

row-upper :
    (g : Csr) (v p more : ℕ) → edges_of_row v (slice g.col_idx p more) ≡ upper_row g v p more
unfolding edges_of_row slice
row-upper g v p zero = refl
row-upper g v p (suc more) =
    ap (λ l. if ltb v (get_or g.col_idx p 0) then (v, get_or g.col_idx p 0) ∷ l else l)
      (row-upper g v (suc p) more ∙ ap (λ q. upper_row g v q more) (omega arith))

rows-upper : (g : Csr) (v more : ℕ) → all_of (edges_from g v more) ≡ upper_from g v more
unfolding edges_from neighbours
rows-upper g v zero = refl
rows-upper g v (suc more) =
    let next : suc v ≡ v + 1 = omega arith in
    let start = get_or g.row_ptr v 0 in
    ap (λ l. l ++ all_of (edges_from g (suc v) more))
      (row-upper g v start (get_or g.row_ptr (suc v) 0 - start)
        ∙ ap (λ w. upper_row g v start (get_or g.row_ptr w 0 - start)) next)
    ∙ ap (λ l. upper_row g v start (get_or g.row_ptr (v + 1) 0 - start) ++ l)
        (rows-upper g (suc v) more ∙ ap (λ w. upper_from g w more) next)

-- Whatever the order in which the threads come to take their slots: when none has a request left,
-- the slots hold the first, up to the limit, of some order of the matrix's entries above the
-- diagonal, each once; and the counter counts them all, those cut off included.
pub build_edge_list-Filled :
    (schedule : List ℕ) (g : Csr)
    → all_of (build_edge_list schedule g).0 ≡ []
    → (order : List (ℕ × ℕ)) × Perm order (upper_from g 0 g.n_rows)
      × Filled k_max_edges order (build_edge_list schedule g).1
unfolding build_edge_list
build_edge_list-Filled schedule g done =
    let (ys, p, h) =
      run_threads-Taken k_max_edges schedule (edges_from g 0 g.n_rows) [] no_slots
        (sym (take-nil k_max_edges), refl) in
    (
      ys,
      subst (λ l. Perm ys l) (rows-upper g 0 g.n_rows)
          (Perm.symm (
            subst (λ l. Perm (all_of (edges_from g 0 g.n_rows)) l)
              (ap (λ l. ys ++ l) done ∙ append-nil ys) p)),
      h,
    )
