-- ===== src/Ring/Threads/Safety.antt =====
-- What holds in every state that the two threads can reach.
use mathlib.Core.List.{append_cancel_left}
use holographic_market.Base.{
  ℕ, ◌+◌, ◌^◌, ◌<◌, ◌≡◌, ◌≢◌, sym, ap, ◌∙◌, subst, List, [], ◌∷◌, ◌++◌, some, arith, length,
  get_elem?,
}
use holographic_market.Ring.Index.{mod_apart}
use holographic_market.Ring.Holds.{read_oldest}
use holographic_market.Ring.Calls.{full_of_eq}
use holographic_market.Ring.Threads.{Producer, Consumer, System, Reach}
use holographic_market.Ring.Threads.Inv.{Produces, Consumes}
use holographic_market.Ring.Threads.Steps.{Reach-Inv}

module _ {ℓ} {A : Type ℓ} {zeroed : A} {k : ℕ} {s : System A} (small : 2 ^ k < 2 ^ 64)
    (reached : Reach zeroed k s) where
  open (Reach-Inv small reached) use {pending, held, fifo, produces, consumes}

  -- In every interleaving of the two threads, over a ring whose capacity is a power of two below
  -- 2^64: the items received are the first of the items sent, in the same order, none lost and none
  -- twice; the rest are fewer than the capacity.
  pub received-prefix : (rest : List A) × (s.sent ≡ s.received ++ rest) × (length rest < 2 ^ k)
  received-prefix = (pending, fifo, held.room)

  -- In every interleaving: while the producer is about to write a slot and the consumer is about
  -- to read one, the two slots are different.
  slots_apart :
      {item : A} {head next tail : ℕ}
      → s.producer ≡ Producer.admitted item head next
      → s.consumer ≡ Consumer.admitted tail
      → head ≢ tail
  slots_apart {item} {head} {next} {tail} p c e =
      mod_apart (2 ^ k) (length s.received) (length pending) reader.1 held.room
        (sym held.head_at ∙ sym writer.0 ∙ e ∙ reader.0 ∙ held.tail_at)
    where
      writer : Produces k s.ring (length pending) (Producer.admitted item head next)
      writer = subst (Produces k s.ring (length pending)) p produces

      reader : Consumes s.ring (length pending) (Consumer.admitted tail)
      reader = subst (Consumes s.ring (length pending)) c consumes

  -- In every interleaving: a slot that the consumer is about to read exists and holds the oldest
  -- item that was sent and not received.
  pub read-oldest :
      {tail : ℕ}
      → s.consumer ≡ Consumer.admitted tail
      → (item : A) × (rest : List A) × (get_elem? s.ring.slots tail ≡ some item)
        × (s.sent ≡ s.received ++ (item ∷ rest))
  read-oldest {tail} c =
      first pending (subst (Consumes s.ring (length pending)) c consumes) (read_oldest held) fifo
    where
      first :
          (q : List A)
          → (tail ≡ s.ring.tail) × (0 < length q)
          → (0 < length q → get_elem? s.ring.slots s.ring.tail ≡ get_elem? q 0)
          → s.sent ≡ s.received ++ q
          → (item : A) × (rest : List A) × (get_elem? s.ring.slots tail ≡ some item)
            × (s.sent ≡ s.received ++ (item ∷ rest))
      first [] h at f = absurd (omega (arith, h.1))
      first (x ∷ q) h at f = (x, q, ap (get_elem? s.ring.slots) h.0 ∙ at h.1, f)

  -- In every interleaving: the producer finds the ring full only while it holds one item less than
  -- its capacity.
  pub refused-full :
      {item : A} {head next : ℕ} (rest : List A)
      → s.producer ≡ Producer.entered item head next
      → next ≡ s.ring.tail
      → s.sent ≡ s.received ++ rest
      → length rest + 1 ≡ 2 ^ k
  refused-full {item} {head} {next} rest p full split =
      ap (λ (l : List A). length l + 1)
        (append_cancel_left s.received rest pending (sym split ∙ fifo))
      ∙ full_of_eq held (sym known.1 ∙ full)
    where
      known : Produces k s.ring (length pending) (Producer.entered item head next)
      known = subst (Produces k s.ring (length pending)) p produces
