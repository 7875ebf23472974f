-- ===== src/Ring/Tests.antt =====
-- Runs of the rings, and the theorems on them at these inputs.
use holographic_market.Base.{
  ℕ, zero, suc, ◌+◌, ◌%◌, ◌^◌, ◌<◌, ◌≡◌, refl, true, false, List, [], ◌∷◌, some, arith, get_elem?,
}
use holographic_market.Ring.{Ring, next_index, make, try_push, try_pop, push_blocking}
use holographic_market.Ring.Fifo.{Call, push, pop, answer}
use holographic_market.Ring.Holds.{Holds}
use holographic_market.Ring.Calls.{run, run-answer}
use holographic_market.Ring.Blocking.{push_blocking-after_pop}

-- Capacity 4 with the items 8, 9, the second one past the end of the storage.
abbrev wrapped : Ring ℕ
wrapped = record { capacity = 4; mask = 3; slots = 9 ∷ 7 ∷ 7 ∷ 8 ∷ []; head = 1; tail = 3 }

abbrev full : Ring ℕ
full = record { capacity = 4; mask = 3; slots = 2 ∷ 3 ∷ 0 ∷ 1 ∷ []; head = 2; tail = 3 }

wrapped-Holds : Holds 2 3 wrapped (8 ∷ 9 ∷ [])
wrapped-Holds = record {
  small = omega arith;
  masked = refl;
  sized = refl;
  storage = refl;
  head_at = refl;
  tail_at = refl;
  room = omega arith;
  items = λ i lt. two i lt;
}
  where
    two : (i : ℕ) → i < 2 → get_elem? wrapped.slots ((3 + i) % 2 ^ 2) ≡ get_elem? (8 ∷ 9 ∷ []) i
    two zero lt = refl
    two (suc zero) lt = refl
    two (suc (suc i)) lt = absurd (omega arith)

full-Holds : Holds 2 3 full (1 ∷ 2 ∷ 3 ∷ [])
full-Holds = record {
  small = omega arith;
  masked = refl;
  sized = refl;
  storage = refl;
  head_at = refl;
  tail_at = refl;
  room = omega arith;
  items = λ i lt. three i lt;
}
  where
    three : (i : ℕ) → i < 3 → get_elem? full.slots ((3 + i) % 2 ^ 2) ≡ get_elem? (1 ∷ 2 ∷ 3 ∷ []) i
    three zero lt = refl
    three (suc zero) lt = refl
    three (suc (suc zero)) lt = refl
    three (suc (suc (suc i))) lt = absurd (omega arith)

abbrev script : List (Call ℕ)
script = push 5 ∷ push 6 ∷ pop 0 ∷ push 7 ∷ push 8 ∷ push 9 ∷ pop 0 ∷ []

script-run :
    run (make 0 4) script
    ≡ (true, 5) ∷ (true, 6) ∷ (true, 5) ∷ (true, 7) ∷ (true, 8) ∷ (false, 9) ∷ (true, 6) ∷ []
unfolding run try_push try_pop make next_index
script-run = refl

run-answer_example : run (make 0 4) script ≡ answer 4 [] script
run-answer_example = run-answer 0 2 script (omega arith)

push_blocking-after_pop_example :
    (r' : Ring ℕ) × (push_blocking 2 (λ t. (try_pop t 0).2) full 4 ≡ some r')
    × ((n : ℕ) × Holds 2 n r' (2 ∷ 3 ∷ 4 ∷ []))
push_blocking-after_pop_example =
    push_blocking-after_pop 1 0 4 (2 ∷ 3 ∷ []) full-Holds (omega arith)

abbrev drained : Ring ℕ
drained = record { capacity = 4; mask = 3; slots = 9 ∷ 7 ∷ 7 ∷ 8 ∷ []; head = 1; tail = 1 }

drained-Holds : Holds 2 1 drained []
drained-Holds = record {
  small = omega arith;
  masked = refl;
  sized = refl;
  storage = refl;
  head_at = refl;
  tail_at = refl;
  room = omega arith;
  items = λ i lt. absurd (omega arith);
}
