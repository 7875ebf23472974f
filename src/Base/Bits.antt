-- ===== src/Base/Bits.antt =====
-- `x & (2^k - 1)` at every width: the masking that the ring buffers and the arena index by.
use Prim.Native.Nat.{
  ℕ, zero, suc, ◌+◌, ◌-◌, ◌*◌, ◌/◌, ◌%◌, ◌^◌, ◌≤◌, ◌<◌, min, bit_and, digits, bit_and-bitwise,
}
use mathlib.Core.Path.{◌≡◌, refl, sym, ap, ◌∙◌}
use native.Mathlib.Omega.{arith}
use native.Mathlib.Nat.{
  pow-suc, div-div-eq-div-mul, mod-add-div, mul_comm, mul_assoc, zero-mod, zero-div, div-one,
  mod-eq_of_lt,
}

pub one-le-pow : (k : ℕ) → 1 ≤ 2 ^ k
one-le-pow zero = omega arith
one-le-pow (suc k) = omega (arith, pow-suc 2 k, one-le-pow k)

-- The recursion on binary digits that `bit_and` stands for, with fuel `n`.
abbrev conj : ℕ → ℕ → ℕ → ℕ
conj n a b = digits (λ _. zero) min n a b

conj-zero : (n a : ℕ) → conj n a 0 ≡ 0
conj-zero zero a = refl
conj-zero (suc n) zero = refl
conj-zero (suc n) (suc a) = omega (arith, conj-zero n (suc a / 2))

-- The remainder by a doubled modulus: its last digit, and the remainder of the others.
mod_double : (a p : ℕ) → 1 ≤ p → a / 2 % p * 2 + a % 2 ≡ a % (p * 2)
mod_double a p h = omega (
  arith,
  ap (λ (t : ℕ). p * 2 * t) (ap (λ (t : ℕ). a / t) (mul_comm p 2) ∙ sym (div-div-eq-div-mul a 2 p)),
  mod-add-div (a / 2) p,
  mod-add-div a (p * 2),
)

half_mask : (k : ℕ) → (2 ^ suc k - 1) / 2 ≡ 2 ^ k - 1
half_mask k = omega (arith, pow-suc 2 k, one-le-pow k)

conj_mask : (k n a : ℕ) → a ≤ n → conj n a (2 ^ k - 1) ≡ a % 2 ^ k
conj_mask zero n a h = omega (arith, conj-zero n a)
conj_mask (suc k) zero zero h = omega (arith, zero-mod (2 ^ suc k))
conj_mask (suc k) zero (suc a) h = absurd (omega arith)
conj_mask (suc k) (suc n) zero h = omega (arith, zero-mod (2 ^ suc k))
conj_mask (suc k) (suc n) (suc a) h = omega (
  arith,
  pow-suc 2 k,
  one-le-pow k,
  conj_mask k n (suc a / 2) (omega arith),
  half_mask k,
  ap (λ (b : ℕ). conj n (suc a / 2) b) (half_mask k),
  ap (λ (t : ℕ). suc a % t) (pow-suc 2 k),
  mod_double (suc a) (2 ^ k) (one-le-pow k),
)

pub bit_and_mask : (k a : ℕ) → bit_and a (2 ^ k - 1) ≡ a % 2 ^ k
bit_and_mask k a = bit_and-bitwise a (2 ^ k - 1) ∙ conj_mask k a a (omega arith)

high_mask : (w k : ℕ) → k ≤ w → (2 ^ suc w - 2 ^ suc k) / 2 ≡ 2 ^ w - 2 ^ k
high_mask w k h = omega (arith, pow-suc 2 w, pow-suc 2 k)

half_multiple : (a p : ℕ) → 1 ≤ p → a / 2 / p * p * 2 ≡ a / (p * 2) * (p * 2)
half_multiple a p h =
    ap (λ (q : ℕ). q * p * 2) (div-div-eq-div-mul a 2 p ∙ ap (λ (t : ℕ). a / t) (mul_comm 2 p))
    ∙ mul_assoc (a / (p * 2)) p 2

conj_high : (k w n a : ℕ) → a ≤ n → a < 2 ^ w → k ≤ w → conj n a (2 ^ w - 2 ^ k) ≡ a / 2 ^ k * 2 ^ k
conj_high zero w n a le lt h = conj_mask w n a le ∙ mod-eq_of_lt lt ∙ omega (arith, div-one a)
conj_high (suc k) zero n a le lt h = absurd (omega arith)
conj_high (suc k) (suc w) zero zero le lt h =
    omega (arith, ap (λ (q : ℕ). q * 2 ^ suc k) (zero-div (2 ^ suc k)))
conj_high (suc k) (suc w) zero (suc a) le lt h = absurd (omega arith)
conj_high (suc k) (suc w) (suc n) zero le lt h =
    omega (arith, ap (λ (q : ℕ). q * 2 ^ suc k) (zero-div (2 ^ suc k)))
conj_high (suc k) (suc w) (suc n) (suc a) le lt h = omega (
  arith,
  pow-suc 2 k,
  pow-suc 2 w,
  one-le-pow k,
  conj_high k w n (suc a / 2) (omega arith) (omega (arith, pow-suc 2 w)) (omega arith),
  high_mask w k (omega arith),
  ap (λ (b : ℕ). conj n (suc a / 2) b) (high_mask w k (omega arith)),
  ap (λ (t : ℕ). suc a / t * t) (pow-suc 2 k),
  half_multiple (suc a) (2 ^ k) (one-le-pow k),
)

-- `x & ~(2^k - 1)` rounds down to a multiple of `2^k`.
pub bit_and_high : (w k a : ℕ) → a < 2 ^ w → k ≤ w → bit_and a (2 ^ w - 2 ^ k) ≡ a / 2 ^ k * 2 ^ k
bit_and_high w k a lt h = bit_and-bitwise a (2 ^ w - 2 ^ k) ∙ conj_high k w a a (omega arith) lt h
