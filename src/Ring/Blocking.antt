-- ===== src/Ring/Blocking.antt =====
-- The blocking calls, against what the other thread does between two attempts.
use holographic_market.Base.{
  ℕ, ◌+◌, ◌^◌, ◌≤◌, ◌≡◌, ◌∙◌, true, false, List, [], ◌∷◌, ◌++◌, some, arith, length,
}
use holographic_market.Ring.{Ring, try_push, try_pop, push_blocking, pop_blocking}
use holographic_market.Ring.Holds.{Holds}
use holographic_market.Ring.Fifo.{enqueue}
use holographic_market.Ring.Calls.{try_push-enqueue, try_pop-dequeue}

module _ {ℓ} {A : Type ℓ} {k p : ℕ} {r : Ring A} where
  -- `push_blocking` makes its call again until it succeeds: on a full ring, one item taken by the
  -- consumer between the two attempts lets the second succeed, and the new item is the last.
  pub push_blocking-after_pop :
      (x out item : A) (q : List A)
      → Holds k p r (x ∷ q)
      → length (x ∷ q) + 1 ≡ 2 ^ k
      → (r' : Ring A) × (push_blocking 2 (λ t. (try_pop t out).2) r item ≡ some r')
        × ((n : ℕ) × Holds k n r' (q ++ item ∷ []))
  unfolding push_blocking
  push_blocking-after_pop x out item q h full =
      let taken = (try_pop-dequeue (x ∷ q) out h).2 in
      let (pushed, after) = try_push-enqueue item taken.1 in
      (
        (try_push (try_pop r out).2 item).1,
        ground (arith, (try_push-enqueue item h).0 ∙ refused, pushed ∙ accepted),
        (taken.0, rw room at after),
      )
    where
      refused : (enqueue (2 ^ k) (x ∷ q) item).0 ≡ false
      refused = ground arith

      accepted : (enqueue (2 ^ k) q item).0 ≡ true
      accepted = ground arith

      room : (enqueue (2 ^ k) q item).1 ≡ q ++ item ∷ []
      room = ground arith

  -- `pop_blocking` likewise: on an empty ring, one item pushed by the producer between the two
  -- attempts is what it hands out, and the ring is empty again.
  pub pop_blocking-after_push :
      (out item : A)
      → Holds k p r []
      → 2 ≤ 2 ^ k
      → (r' : Ring A) × (pop_blocking 2 (λ t. (try_push t item).1) r out ≡ some (item, r'))
        × ((n : ℕ) × Holds k n r' [])
  unfolding pop_blocking
  pop_blocking-after_push out item h two =
      let after = (try_push-enqueue item h).1 in
      let (popped, handed, rest) = try_pop-dequeue (item ∷ []) out (rw accepted at after) in
      (
        (try_pop (try_push r item).1 out).2,
        ground (arith, (try_pop-dequeue [] out h).0, popped, handed),
        rest,
      )
    where
      accepted : (enqueue (2 ^ k) [] item).1 ≡ item ∷ []
      accepted = ground arith
