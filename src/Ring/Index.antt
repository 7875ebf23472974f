-- ===== src/Ring/Index.antt =====
-- The masked indices of the ring: positions counted without wrapping, taken modulo the capacity.
use native.Mathlib.Nat.{mod-add-mod, mod-eq_of_lt, mod-lt, div-add-mod, mul-le-mul_left}
use holographic_market.Base.{ℕ, ◌+◌, ◌-◌, ◌/◌, ◌%◌, ◌^◌, ◌≤◌, ◌<◌, ◌≡◌, ◌≢◌, ap, ◌∙◌, arith, dec_lt}
use holographic_market.Base.Bits.{bit_and_mask, one-le-pow}
use holographic_market.Ring.{next_index, add_size}

-- Masking an index that has not wrapped counts it on, modulo the capacity.
pub next_index_mod :
    (k p : ℕ) → 2 ^ k < 2 ^ 64 → next_index (2 ^ k - 1) (p % 2 ^ k) ≡ (p + 1) % 2 ^ k
unfolding next_index
next_index_mod k p h =
    bit_and_mask k (add_size (p % 2 ^ k) 1)
    ∙ ap (λ (t : ℕ). t % 2 ^ k) (mod-eq_of_lt (omega (arith, mod-lt p {m = 2 ^ k} (one-le-pow k))))
    ∙ mod-add-mod p (2 ^ k) 1

-- Fewer than `c` steps do not lead back to where they start.
pub mod_apart : (c p n : ℕ) → 0 < n → n < c → (p + n) % c ≢ p % c
mod_apart c p n pos lt e = elim (dec_lt (p / c) ((p + n) / c)) [
  | yes later ↦
      absurd (omega (arith, div-add-mod p c, div-add-mod (p + n) c, mul-le-mul_left c later))
  | no same ↦
      absurd
        (omega (arith, div-add-mod p c, div-add-mod (p + n) c, mul-le-mul_left c (not_later same)))
]
  where
    not_later : ¬ (p / c < (p + n) / c) → (p + n) / c ≤ p / c
    not_later h = omega arith

-- The position of a different item, fewer than `c` away, has another index.
pub mod_apart_between : (c p i j : ℕ) → i < j → j < c → (p + j) % c ≢ (p + i) % c
mod_apart_between c p i j lt hj e =
    mod_apart c (p + i) (j - i) (omega arith) (omega arith)
      (ap (λ (t : ℕ). t % c) (omega arith) ∙ e)
