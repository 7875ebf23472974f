-- ===== src/Arena.antt =====
-- engine/core/memory_arena.hpp: the bump allocator. A pointer is its offset from the base; the size
-- and the alignment of the element type are arguments. A `std::size_t` wraps at 2 ^ 64.
pub mod Bounds
mod Tests
use holographic_market.Base.{
  ℕ, ◌+◌, ◌-◌, ◌*◌, ◌%◌, ◌^◌, Option, none, some, bit_and, ltb, if◌then◌else◌,
}

abbrev pub k_cache_line : ℕ
k_cache_line = 64

abbrev pub k_page_size : ℕ
k_page_size = 4096

pub record Arena : Type 0 where
  pub capacity : ℕ
  pub cursor : ℕ

-- `(value + alignment - 1U) & ~(alignment - 1U)`
unfoldable pub align_up : ℕ → ℕ → ℕ
align_up value alignment =
    bit_and ((value + alignment + 2 ^ 64 - 1) % 2 ^ 64)
      (2 ^ 64 - 1 - (alignment + 2 ^ 64 - 1) % 2 ^ 64)

unfoldable pub make : ℕ → Arena
make capacity_bytes = record { capacity = align_up capacity_bytes k_page_size; cursor = 0 }

abbrev pub alignment_of : ℕ → ℕ
alignment_of align = if ltb align k_cache_line then align else k_cache_line

-- `alloc<T>(count)`: the offset, or `none` for the null pointer.
unfoldable pub alloc : Arena → ℕ → ℕ → ℕ → Option ℕ × Arena
alloc a size align count =
    let at = align_up a.cursor (alignment_of align) in
    let required = size * count % 2 ^ 64 in
    if ltb a.capacity ((at + required) % 2 ^ 64)
    then (none, a)
    else (some at, record a { cursor = (at + required) % 2 ^ 64 })

unfoldable pub reset : Arena → Arena
reset a = record a { cursor = 0 }

unfoldable pub used : Arena → ℕ
used a = a.cursor

unfoldable pub remaining : Arena → ℕ
remaining a = (a.capacity + 2 ^ 64 - a.cursor) % 2 ^ 64
