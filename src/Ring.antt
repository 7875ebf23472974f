-- ===== src/Ring.antt =====
-- engine/core/lockfree_ring_buffer.hpp: the single-producer single-consumer ring buffers.
-- `SpscRingBuffer` has its capacity as a template argument and `DynamicSpscRingBuffer` as a member;
-- the member functions are the same, so one record stands for both. Here each call runs alone; the
-- interleaving of the two threads is in Ring/Threads.antt.
pub mod Index
pub mod Fifo
pub mod Holds
pub mod Calls
pub mod Size
pub mod Blocking
pub mod Threads
mod Tests
use holographic_market.Base.{
  ℕ, suc, ◌+◌, ◌-◌, ◌%◌, ◌^◌, Bool, true, false, List, bit_and, ◌==◌, if◌then◌else◌, get_or, set,
  replicate, Option, none, some, zero,
}

pub record Ring {ℓ} (A : Type ℓ) : Type ℓ where
  pub capacity : ℕ
  pub mask : ℕ
  pub slots : List A
  pub head : ℕ
  pub tail : ℕ

-- `std::size_t` sums and differences.
abbrev pub add_size : ℕ → ℕ → ℕ
add_size a b = (a + b) % 2 ^ 64

abbrev pub sub_size : ℕ → ℕ → ℕ
sub_size a b = (a + 2 ^ 64 - b) % 2 ^ 64

-- `(index + 1U) & mask_`
unfoldable pub next_index : ℕ → ℕ → ℕ
next_index mask i = bit_and (add_size i 1) mask

module _ {ℓ} {A : Type ℓ} where
  -- The constructor. The arena hands out zeroed storage: `zeroed` is the element that it reads as.
  unfoldable pub make : A → ℕ → Ring A
  make zeroed capacity = record {
    capacity = capacity;
    mask = sub_size capacity 1;
    slots = replicate capacity zeroed;
    head = 0;
    tail = 0;
  }

  unfoldable pub try_push : Ring A → A → Bool × Ring A
  try_push r item =
      let next = next_index r.mask r.head in
      if next == r.tail
      then (false, r)
      else (true, record r { slots = set r.slots r.head item; head = next })

  -- The second component is `out`, which a failed call leaves alone.
  unfoldable pub try_pop : Ring A → A → Bool × A × Ring A
  try_pop r out =
      if r.tail == r.head
      then (false, out, r)
      else (true, get_or r.slots r.tail out, record r { tail = next_index r.mask r.tail })

  unfoldable pub empty : Ring A → Bool
  empty r = r.tail == r.head

  unfoldable pub size_approx : Ring A → ℕ
  size_approx r = bit_and (add_size (sub_size r.head r.tail) r.capacity) r.mask

  -- `capacity()`: one slot is kept free to tell a full ring from an empty one.
  unfoldable pub usable : Ring A → ℕ
  usable r = sub_size r.capacity 1

  -- `push_blocking`, with what the other thread does to the ring between two attempts as an
  -- argument. `none` means that `fuel` attempts were not enough.
  unfoldable pub push_blocking : ℕ → (Ring A → Ring A) → Ring A → A → Option (Ring A)
  push_blocking zero meanwhile r item = none
  push_blocking (suc fuel) meanwhile r item = elim (try_push r item).0 [
    | true ↦ some (try_push r item).1
    | false ↦ push_blocking fuel meanwhile (meanwhile r) item
  ]

  unfoldable pub pop_blocking : ℕ → (Ring A → Ring A) → Ring A → A → Option (A × Ring A)
  pop_blocking zero meanwhile r out = none
  pop_blocking (suc fuel) meanwhile r out = elim (try_pop r out).0 [
    | true ↦ some ((try_pop r out).1, (try_pop r out).2)
    | false ↦ pop_blocking fuel meanwhile (meanwhile r) out
  ]
