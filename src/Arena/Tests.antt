-- ===== src/Arena/Tests.antt =====
-- An arena of one page, and the theorem on it.
use holographic_market.Base.{ℕ, ◌+◌, ◌*◌, ◌≤◌, ◌<◌, ◌≡◌, ◌^◌, refl, none, some, arith, ◌⊎◌}
use holographic_market.Arena.{Arena, align_up, alloc}
use holographic_market.Arena.Bounds.{alloc-bounds}

abbrev page : Arena
page = record { capacity = 4096; cursor = 10 }

alloc-bounds_example :
    (((alloc page 8 (2 ^ 3) 5).0 ≡ none)
      × ((off : ℕ) × (off < 10 + 2 ^ 3)
          × ((m : ℕ) × (off ≡ m * 2 ^ 3))
          × (10 ≤ off)
          × (4096 < off + 40))
      × ((alloc page 8 (2 ^ 3) 5).1 ≡ page))
    ⊎ ((off : ℕ) × ((alloc page 8 (2 ^ 3) 5).0 ≡ some off)
        × (off < 10 + 2 ^ 3)
        × ((m : ℕ) × (off ≡ m * 2 ^ 3))
        × (10 ≤ off)
        × ((alloc page 8 (2 ^ 3) 5).1.cursor ≡ off + 40)
        × (off + 40 ≤ 4096)
        × ((alloc page 8 (2 ^ 3) 5).1.capacity ≡ 4096))
alloc-bounds_example = alloc-bounds page 8 5 3 (omega arith) (omega arith) (omega arith)

-- A type of alignment 128 is put at an odd multiple of 64.
misaligned_lem : (alloc (record page { cursor = 64 }) 128 128 1).0 ≡ some 64
unfolding alloc align_up
misaligned_lem = refl
