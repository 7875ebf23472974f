-- ===== src/Ring/Fifo.antt =====
-- What a ring promises its two users: a first-in first-out queue that refuses an item when it
-- holds one less than its capacity.
use holographic_market.Base.{
  ℕ, ◌+◌, Bool, true, false, List, [], ◌∷◌, ◌++◌, ◌==◌, if◌then◌else◌, length,
}

-- The calls of a client, and what it sees of each: the Boolean result and `out`.
pub data Call {ℓ} (A : Type ℓ) : Type ℓ where
  push : A → Call A
  pop : A → Call A

module _ {ℓ} {A : Type ℓ} where
  abbrev pub enqueue : ℕ → List A → A → Bool × List A
  enqueue capacity q x = if length q + 1 == capacity then (false, q) else (true, q ++ x ∷ [])

  abbrev pub dequeue : List A → A → Bool × A × List A
  dequeue [] out = (false, out, [])
  dequeue (x ∷ q) out = (true, x, q)

  unfoldable pub answer : ℕ → List A → List (Call A) → List (Bool × A)
  answer capacity q [] = []
  answer capacity q (push x ∷ calls) =
      let (done, q') = enqueue capacity q x in (done, x) ∷ answer capacity q' calls
  answer capacity q (pop out ∷ calls) =
      let (done, x, q') = dequeue q out in (done, x) ∷ answer capacity q' calls
