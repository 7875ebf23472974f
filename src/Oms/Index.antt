-- ===== src/Oms/Index.antt =====
-- `std::unordered_map` with integer keys, as a list of entries with distinct keys. The map's order
-- is not specified: no theorem depends on the order of the list.
use holographic_market.Base.{
  ℕ, ◌≡◌, ◌≢◌, refl, ap, List, [], ◌∷◌, Option, none, some, arith, ◌==◌, if◌then◌else◌, length, sym,
  ==_eq, ==_ne, ℕ_discrete, Bool-cases, inl, inr, ◌+◌, ◌≤◌,
}

module _ {ℓ} {V : Type ℓ} where
  unfoldable pub find : ℕ → List (ℕ × V) → Option V
  find k [] = none
  find k ((j, v) ∷ m) = if j == k then some v else find k m

  unfoldable pub erase : ℕ → List (ℕ × V) → List (ℕ × V)
  erase k [] = []
  erase k ((j, v) ∷ m) = if j == k then m else (j, v) ∷ erase k m

  -- `m[k] = v`
  unfoldable pub assign : ℕ → V → List (ℕ × V) → List (ℕ × V)
  unfolding erase
  assign k v m = (k, v) ∷ erase k m

  -- The keys are distinct.
  abbrev pub IsMap : List (ℕ × V) → Type ℓ
  IsMap [] = Unit {ℓ}
  IsMap ((k, v) ∷ m) = (find k m ≡ none) × IsMap m

  pub find-erase_ne : (k j : ℕ) (m : List (ℕ × V)) → j ≢ k → find j (erase k m) ≡ find j m
  unfolding find erase
  find-erase_ne k j [] ne = refl
  find-erase_ne k j ((i, v) ∷ m) ne = ground (arith, find-erase_ne k j m ne)

  pub find-erase_self : (k : ℕ) (m : List (ℕ × V)) → IsMap m → find k (erase k m) ≡ none
  unfolding find erase
  find-erase_self k [] h = refl
  find-erase_self k ((i, v) ∷ m) h = ground (arith, find-erase_self k m h.1, h.0)

  pub find-assign_self : (k : ℕ) (v : V) (m : List (ℕ × V)) → find k (assign k v m) ≡ some v
  unfolding find assign
  find-assign_self k v m = ground arith

  pub find-assign_ne :
      (k j : ℕ) (v : V) (m : List (ℕ × V)) → j ≢ k → find j (assign k v m) ≡ find j m
  unfolding find assign
  find-assign_ne k j v m ne = ground (arith, find-erase_ne k j m ne)

  find-erase-none : (k j : ℕ) (m : List (ℕ × V)) → find j m ≡ none → find j (erase k m) ≡ none
  unfolding find erase
  find-erase-none k j [] h = refl
  find-erase-none k j ((i, v) ∷ m) h = ground (arith, find-erase-none k j m)

  pub erase-IsMap : (k : ℕ) (m : List (ℕ × V)) → IsMap m → IsMap (erase k m)
  unfolding erase
  erase-IsMap k [] h = tt
  erase-IsMap k ((i, v) ∷ m) h = elim (Bool-cases (i == k)) [
    | inl e ↦ rw e h.1
    | inr e ↦ rw e (find-erase-none k i m h.0, erase-IsMap k m h.1)
  ]

  pub assign-IsMap : (k : ℕ) (v : V) (m : List (ℕ × V)) → IsMap m → IsMap (assign k v m)
  unfolding assign
  assign-IsMap k v m h = (find-erase_self k m h, erase-IsMap k m h)

  -- Both laws with the test that decides them.
  pub find-erase :
      (k j : ℕ) (m : List (ℕ × V))
      → IsMap m
      → find j (erase k m) ≡ (if k == j then none else find j m)
  find-erase k j m h = elim (ℕ_discrete k j) [
    | yes e ↦ rw (==_eq k j e) (rw (← e) (find-erase_self k m h))
    | no ne ↦ rw (==_ne k j ne) (find-erase_ne k j m (λ e. ne (sym e)))
  ]

  pub find-assign :
      (k j : ℕ) (v : V) (m : List (ℕ × V))
      → find j (assign k v m) ≡ (if k == j then some v else find j m)
  find-assign k j v m = elim (ℕ_discrete k j) [
    | yes e ↦ rw (==_eq k j e) (rw (← e) (find-assign_self k v m))
    | no ne ↦ rw (==_ne k j ne) (find-assign_ne k j v m (λ e. ne (sym e)))
  ]

  pub length-erase_le : (k : ℕ) (m : List (ℕ × V)) → length (erase k m) ≤ length m
  unfolding erase
  length-erase_le k [] = omega arith
  length-erase_le k ((i, w) ∷ m) = ground (arith, length-erase_le k m)

  pub length-erase :
      (k : ℕ) (v : V) (m : List (ℕ × V)) → find k m ≡ some v → length (erase k m) + 1 ≡ length m
  unfolding find erase
  length-erase k v [] h = absurd (cc)
  length-erase k v ((i, w) ∷ m) h = ground (arith, length-erase k v m)

  erase-of_none : (k : ℕ) (m : List (ℕ × V)) → find k m ≡ none → erase k m ≡ m
  unfolding find erase
  erase-of_none k [] h = refl
  erase-of_none k ((i, w) ∷ m) h = ground (arith, erase-of_none k m)

  pub length-assign :
      (k : ℕ) (v : V) (m : List (ℕ × V)) → find k m ≡ none → length (assign k v m) ≡ length m + 1
  unfolding assign
  length-assign k v m h = omega (arith, ap length (erase-of_none k m h))
