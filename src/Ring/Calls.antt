-- ===== src/Ring/Calls.antt =====
-- Each call of a ring, run alone, does what the bounded queue of its contents does.
use native.Mathlib.Nat.{mod-eq_of_lt, add-mod_right}
use holographic_market.Base.{
  ==_eq, ==_ne, inl, inr, ℕ, ◌+◌, ◌%◌, ◌^◌, ◌<◌, ◌≡◌, ◌≢◌, refl, sym, ap, ◌∙◌, Bool, List, [], ◌∷◌,
  arith, length, length-replicate, get_or_of_get_elem?, ℕ_discrete, Bool-cases, ◌==◌,
}
use holographic_market.Base.Bits.{one-le-pow}
use holographic_market.Ring.{Ring, next_index, make, try_push, try_pop, empty}
use holographic_market.Ring.Index.{mod_apart}
use holographic_market.Ring.Holds.{Holds, head_next, stored, published, oldest, taken}
use holographic_market.Ring.Fifo.{Call, push, pop, enqueue, dequeue, answer}

module _ {ℓ} {A : Type ℓ} {k p : ℕ} {r : Ring A} where
  -- The head's successor meets the tail exactly when one slot is left.
  pub full-eq :
      {q : List A} → Holds k p r q → (next_index r.mask r.head == r.tail) ≡ (length q + 1 == 2 ^ k)
  full-eq {q} h = elim (ℕ_discrete (length q + 1) (2 ^ k)) [
    | yes e ↦
        rw (head_next h, h.tail_at)
          (==_eq _ _ (ap (λ (t : ℕ). t % 2 ^ k) (omega arith) ∙ add-mod_right p (2 ^ k))
            ∙ sym (==_eq _ _ e))
    | no ne ↦
        rw (head_next h, h.tail_at)
          (==_ne _ _ (λ e.
              mod_apart (2 ^ k) p (length q + 1) (omega arith) (omega (arith, h.room))
                (ap (λ (t : ℕ). t % 2 ^ k) (omega arith) ∙ e))
            ∙ sym (==_ne _ _ ne))
  ]

  pub empty-eq : {q : List A} → Holds k p r q → empty r ≡ (length q == 0)
  unfolding empty
  empty-eq {q} h = elim (ℕ_discrete (length q) 0) [
    | yes e ↦
        rw (h.tail_at, h.head_at)
          (==_eq _ _ (ap (λ (t : ℕ). t % 2 ^ k) (omega arith)) ∙ sym (==_eq _ _ e))
    | no ne ↦
        rw (h.tail_at, h.head_at)
          (==_ne _ _ (λ e. mod_apart (2 ^ k) p (length q) (omega arith) h.room (sym e))
            ∙ sym (==_ne _ _ ne))
  ]

  pub room_of_ne :
      {q : List A} → Holds k p r q → next_index r.mask r.head ≢ r.tail → length q + 1 < 2 ^ k
  room_of_ne {q} h ne = ground (arith, full-eq h, h.room)

  pub full_of_eq :
      {q : List A} → Holds k p r q → next_index r.mask r.head ≡ r.tail → length q + 1 ≡ 2 ^ k
  full_of_eq {q} h e = ground (arith, full-eq h)

  pub pos_of_ne : {q : List A} → Holds k p r q → r.tail ≢ r.head → 0 < length q
  unfolding empty
  pos_of_ne {q} h ne = ground (arith, empty-eq h)

  -- `try_push` refuses an item exactly when the queue holds one less than the capacity, and then
  -- changes nothing; otherwise the item is the queue's newest.
  pub try_push-enqueue :
      {q : List A} (x : A)
      → Holds k p r q
      → ((try_push r x).0 ≡ (enqueue (2 ^ k) q x).0)
        × Holds k p (try_push r x).1 (enqueue (2 ^ k) q x).1
  unfolding try_push
  try_push-enqueue {q} x h = elim (Bool-cases (length q + 1 == 2 ^ k)) [
    | inl full ↦ rw (full-eq h, full) (refl, h)
    | inr free ↦
        rw (full-eq h, free)
          (refl, published x (stored x h).0 (stored x h).1 (ground (arith, h.room)))
  ]

  -- `try_pop` fails exactly on the empty queue, leaving `out` and the ring as they were; otherwise
  -- it hands out the oldest item.
  pub try_pop-dequeue :
      (q : List A) (out : A)
      → Holds k p r q
      → ((try_pop r out).0 ≡ (dequeue q out).0)
        × ((try_pop r out).1 ≡ (dequeue q out).1)
        × ((n : ℕ) × Holds k n (try_pop r out).2 (dequeue q out).2)
  unfolding try_pop empty
  try_pop-dequeue [] out h = rw (empty-eq h) (refl, refl, (p, h))
  try_pop-dequeue (x ∷ q) out h =
      rw (empty-eq h, ==_ne (length (x ∷ q)) 0 (omega arith))
        (refl, get_or_of_get_elem? r.slots r.tail out x (oldest h), (p + 1, taken h))

-- A client's calls in order, with what it sees of each.
unfoldable pub run {ℓ} : {A : Type ℓ} → Ring A → List (Call A) → List (Bool × A)
run r [] = []
run r (push x ∷ calls) = let (done, r') = try_push r x in (done, x) ∷ run r' calls
run r (pop out ∷ calls) = let (done, x, r') = try_pop r out in (done, x) ∷ run r' calls

run-answer_held {ℓ} :
    {A : Type ℓ} (calls : List (Call A)) (k p : ℕ) (r : Ring A) (q : List A)
    → Holds k p r q
    → run r calls ≡ answer (2 ^ k) q calls
unfolding run answer
run-answer_held [] k p r q h = refl
run-answer_held (push x ∷ calls) k p r q h =
    let (same, after) = try_push-enqueue x h in
    rw (same, run-answer_held calls k p (try_push r x).1 (enqueue (2 ^ k) q x).1 after)
run-answer_held (pop out ∷ calls) k p r q h =
    let (same, item, (n, after)) = try_pop-dequeue q out h in
    rw (same, item, run-answer_held calls k n (try_pop r out).2 (dequeue q out).2 after)

pub make-Holds {ℓ} : {A : Type ℓ} (z : A) (k : ℕ) → 2 ^ k < 2 ^ 64 → Holds k 0 (make z (2 ^ k)) []
unfolding make
make-Holds z k h = record {
  small = h;
  masked = omega (arith, one-le-pow k);
  sized = refl;
  storage = length-replicate (2 ^ k) z;
  head_at = sym (mod-eq_of_lt (one-le-pow k));
  tail_at = sym (mod-eq_of_lt (one-le-pow k));
  room = one-le-pow k;
  items = λ i lt. absurd (omega arith);
}

-- No sequence of calls tells a new ring, whose capacity is a power of two below 2^64, from the
-- empty first-in first-out queue that keeps one place free.
pub run-answer {ℓ} :
    {A : Type ℓ} (zeroed : A) (k : ℕ) (calls : List (Call A))
    → 2 ^ k < 2 ^ 64
    → run (make zeroed (2 ^ k)) calls ≡ answer (2 ^ k) [] calls
run-answer zeroed k calls h =
    run-answer_held calls k 0 (make zeroed (2 ^ k)) [] (make-Holds zeroed k h)
