-- ===== src/Ring/Threads/Tests.antt =====
-- An interleaving of the two threads, and the theorems on them at its states.
use holographic_market.Base.{ℕ, ◌<◌, ◌≡◌, refl, List, ◌++◌, arith, length}
use holographic_market.Ring.{next_index, make}
use holographic_market.Ring.Threads.{System, Step, Reach}
use holographic_market.Ring.Threads.Safety.{received-prefix}

-- A state with the steps that lead to it, over a ring of capacity 4.
record Run (k : ℕ) : Type 0 where
  last : System ℕ
  reach : Reach 0 k last

-- One item sent; the producer may write the second slot, the consumer may read the first.
abbrev both_admitted : Run 2
unfolding next_index make
both_admitted = record {
  last = _;
  reach =
      Reach.later
        (Reach.later
          (Reach.later
            (Reach.later
              (Reach.later
                (Reach.later
                  (Reach.later (Reach.later Reach.here (Step.load_head 5 refl))
                    (Step.admit refl (omega arith)))
                  (Step.write_slot refl))
                (Step.store_head refl))
              (Step.load_head 6 refl))
            (Step.admit refl (omega arith)))
          (Step.load_tail refl))
        (Step.find_item refl (omega arith));
}

received-prefix_example :
    (rest : List ℕ) × (both_admitted.last.sent ≡ both_admitted.last.received ++ rest)
    × (length rest < 4)
unfolding both_admitted
received-prefix_example = received-prefix (omega arith) both_admitted.reach

-- A ring of capacity 2 with one item: the next call is refused.
abbrev full_run : Run 1
unfolding next_index make
full_run = record {
  last = _;
  reach =
      Reach.later
        (Reach.later
          (Reach.later
            (Reach.later (Reach.later Reach.here (Step.load_head 5 refl))
              (Step.admit refl (omega arith)))
            (Step.write_slot refl))
          (Step.store_head refl))
        (Step.load_head 6 refl);
}
