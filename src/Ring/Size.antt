-- ===== src/Ring/Size.antt =====
-- `size_approx` and `capacity`: what they return while the other thread is at rest.
use native.Mathlib.Nat.{
  mod-eq_of_lt, mod-lt, mod-add-mod, mod-mod_of_dvd, add-mod_right, add-mul-mod_self_right, pow-suc,
  dvd-mul_left, mod-eq-sub-mod, pow-le-pow_right, suc-mul,
}
use Prim.Native.Nat.{◌∣◌}
use holographic_market.Base.{
  ℕ, zero, suc, ◌+◌, ◌-◌, ◌*◌, ◌%◌, ◌^◌, ◌≤◌, ◌<◌, ◌≡◌, sym, ap, ◌∙◌, subst, List, arith, length,
  dec_lt, bit_and,
}
use holographic_market.Base.Bits.{one-le-pow, bit_and_mask}
use holographic_market.Ring.{Ring, size_approx, usable, add_size, sub_size}
use holographic_market.Ring.Holds.{Holds}

pow-add_mul : (k j : ℕ) → 2 ^ (k + j) ≡ 2 ^ j * 2 ^ k
pow-add_mul k zero = let e : k + 0 ≡ k = omega arith in rw e (omega arith)
pow-add_mul k (suc j) =
    let e : k + suc j ≡ suc (k + j) = omega arith in
    rw e
      (omega (arith, pow-suc 2 (k + j), pow-add_mul k j, ap (λ (t : ℕ). t * 2 ^ k) (pow-suc 2 j)))

-- A power of two up to 2^64 divides it.
pub word_multiple : (k : ℕ) → k ≤ 64 → 2 ^ (64 - k) * 2 ^ k ≡ 2 ^ 64
word_multiple k h =
    let e : k + (64 - k) ≡ 64 = omega arith in
    sym (pow-add_mul k (64 - k)) ∙ ap (λ (t : ℕ). 2 ^ t) e

one_less_lem : (m c : ℕ) → m * c ≡ 2 ^ 64 → (m - 1) * c + c ≡ 2 ^ 64
one_less_lem zero c h = absurd (omega arith)
one_less_lem (suc m) c h =
    let e : suc m - 1 ≡ m = omega arith in rw e (omega (arith, suc-mul m c, h))

module _ (c m p n : ℕ) (lt : n < c) (word : m * c ≡ 2 ^ 64) where
  -- Before it wraps, the difference is `n` and a multiple of the capacity.
  spread : ((p + n) % c + 2 ^ 64 - p % c) % c ≡ n
  spread = elim (dec_lt (p % c + n) c) [
    | yes near ↦
        ap (λ (t : ℕ). t % c) (omega (arith, word, head, mod-eq_of_lt near))
        ∙ add-mul-mod_self_right n m c
        ∙ mod-eq_of_lt lt
    | no far ↦
        ap (λ (t : ℕ). t % c) (omega (arith, word, head, wrapped far, below, one_less))
        ∙ add-mul-mod_self_right n (m - 1) c
        ∙ mod-eq_of_lt lt
  ]
    where
      head : (p % c + n) % c ≡ (p + n) % c
      head = mod-add-mod p c n

      below : p % c < c
      below = mod-lt p (omega arith)

      wrapped : ¬ (p % c + n < c) → (p % c + n) % c ≡ p % c + n - c
      wrapped h =
          mod-eq-sub-mod {n = p % c + n} {m = c} (omega arith)
          ∙ mod-eq_of_lt {n = p % c + n - c} {m = c} (omega arith)

      one_less : (m - 1) * c + c ≡ 2 ^ 64
      one_less = one_less_lem m c word

le-of-pow-lt : (k : ℕ) → 2 ^ k < 2 ^ 64 → k < 64
le-of-pow-lt k h = elim (dec_lt k 64) [
  | yes lt ↦ lt
  | no ge ↦
      absurd (omega (arith, pow-le-pow_right {n = 2} (omega arith) {i = 64} {j = k} (omega arith)))
]

-- A power of two below the word's range divides it.
divides : (k : ℕ) → 2 ^ k < 2 ^ 64 → 2 ^ k ∣ 2 ^ 64
divides k h =
    subst (λ w. 2 ^ k ∣ w) (word_multiple k (omega (arith, le-of-pow-lt k h)))
      (dvd-mul_left (2 ^ k) (2 ^ (64 - k)))

masked_distance :
    (k p n : ℕ)
    → 2 ^ k < 2 ^ 64
    → n < 2 ^ k
    → bit_and (add_size (sub_size ((p + n) % 2 ^ k) (p % 2 ^ k)) (2 ^ k)) (2 ^ k - 1) ≡ n
masked_distance k p n small lt =
    bit_and_mask k _
    ∙ mod-mod_of_dvd (2 ^ k) _ (divides k small)
    ∙ add-mod_right _ (2 ^ k)
    ∙ mod-mod_of_dvd (2 ^ k) _ (divides k small)
    ∙ spread (2 ^ k) (2 ^ (64 - k)) p n lt (word_multiple k (omega (arith, le-of-pow-lt k small)))

-- With both threads at rest, `size_approx` is the number of items in the ring, and `capacity` is
-- the number that it can hold.
pub size_approx-length {ℓ} :
    {A : Type ℓ} {k p : ℕ} {r : Ring A} {q : List A}
    → Holds k p r q
    → (size_approx r ≡ length q) × (length q ≤ usable r) × (usable r + 1 ≡ 2 ^ k)
unfolding size_approx usable
size_approx-length {k} {p} {r} {q} h = (
  rw (h.head_at, h.tail_at, h.sized, h.masked) (masked_distance k p (length q) h.small h.room),
  omega (arith, h.sized, h.room, h.small),
  omega (arith, h.sized, h.small, one-le-pow k),
)
