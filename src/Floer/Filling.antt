-- ===== src/Floer/Filling.antt =====
-- What holds of all slots that the threads of a kernel fill.
use holographic_market.Base.{
  ℕ, ◌≤◌, List, [], ◌∷◌, ◌++◌, Option, none, some, arith, ltb, ltb→lt, length, Bool-cases, inl, inr,
  length-append,
}
use holographic_market.Hodge.{Slots, claim_slot}
use holographic_market.Floer.{claim_some}

module _ {A : Type 0} (P : A → Type 0) where
  abbrev pub All : List A → Type 0
  All [] = Unit {0}
  All (x ∷ xs) = P x × All xs

  All-append_one : (xs : List A) (a : A) → All xs → P a → All (xs ++ a ∷ [])
  All-append_one [] a h p = (p, tt)
  All-append_one (x ∷ xs) a h p = (h.0, All-append_one xs a h.1 p)

  -- Every filled slot satisfies the predicate, and there are no more of them than the limit.
  abbrev pub AllFilled : ℕ → Slots A → Type 0
  AllFilled limit s = All s.filled × (length s.filled ≤ limit) × (length s.filled ≤ s.counter)

  pub claim_slot-AllFilled :
      (limit : ℕ) (s : Slots A) (a : A)
      → P a
      → AllFilled limit s
      → AllFilled limit (claim_slot limit s a)
  claim_slot-AllFilled limit s a p h = elim (Bool-cases (ltb s.counter limit)) [
    | inl room ↦ rw room (
      All-append_one s.filled a h.0 p,
      omega (arith, h.2, ltb→lt s.counter limit room, length-append s.filled (a ∷ [])),
      omega (arith, h.2, length-append s.filled (a ∷ [])),
    )
    | inr full ↦ rw full (h.0, h.1, omega (arith, h.2))
  ]

  abbrev pub Granted : Option A → Type 0
  Granted none = Unit {0}
  Granted (some a) = P a

  pub claim_some-AllFilled :
      (limit : ℕ) (s : Slots A) (o : Option A)
      → Granted o
      → AllFilled limit s
      → AllFilled limit (claim_some limit s o)
  claim_some-AllFilled limit s none g h = h
  claim_some-AllFilled limit s (some a) g h = claim_slot-AllFilled limit s a g h
