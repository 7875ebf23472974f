-- ===== src/Arena/Bounds.antt =====
-- Where an allocation lies.
use native.Mathlib.Nat.{pow-le-pow_right, mod-add-div, mod-lt}
use holographic_market.Base.{
  ℕ, zero, suc, min, ltb→lt, ◌+◌, ◌-◌, ◌*◌, ◌/◌, ◌%◌, ◌^◌, ◌≤◌, ◌<◌, ◌≡◌, refl, ap, ◌∙◌, none, some,
  arith, bit_and, ltb, Bool-cases, inl, inr, ◌⊎◌,
}
use holographic_market.Base.Bits.{bit_and_high, one-le-pow}
use holographic_market.Arena.{Arena, align_up, alignment_of, alloc}

-- The least multiple of `2 ^ k` that is not less than the value.
align_up-bounds :
    (value k : ℕ)
    → k ≤ 12
    → value ≤ 2 ^ 62
    → (value ≤ align_up value (2 ^ k))
      × (align_up value (2 ^ k) < value + 2 ^ k)
      × (align_up value (2 ^ k) ≡ (value + 2 ^ k - 1) / 2 ^ k * 2 ^ k)
unfolding align_up
align_up-bounds value k small lt =
    let n = value + 2 ^ k - 1 in
    let p_small : 2 ^ k ≤ 2 ^ 12 = pow-le-pow_right (omega arith) small in
    let some = one-le-pow k in
    let equal : bit_and ((value + 2 ^ k + 2 ^ 64 - 1) % 2 ^ 64)
          (2 ^ 64 - 1 - (2 ^ k + 2 ^ 64 - 1) % 2 ^ 64)
        ≡ n / 2 ^ k * 2 ^ k =
      ap (λ (x : ℕ). bit_and x (2 ^ 64 - 1 - (2 ^ k + 2 ^ 64 - 1) % 2 ^ 64))
        (omega (arith, p_small, some, lt))
      ∙ ap (λ (x : ℕ). bit_and n x) (omega (arith, p_small, some))
      ∙ bit_and_high 64 k n (omega (arith, p_small, lt)) (omega arith) in
    (
      omega (arith, equal, mod-add-div n (2 ^ k), mod-lt n some, some),
      omega (arith, equal, mod-add-div n (2 ^ k), mod-lt n some, some),
      equal,
    )

-- The alignment of a type, or 64 where that is less.
alignment_of-pow : (k : ℕ) → alignment_of (2 ^ k) ≡ 2 ^ min k 6
alignment_of-pow k = elim (Bool-cases (ltb k 6)) [
  | inl e ↦ below k (ltb→lt k 6 e)
  | inr e ↦
      let enough : 6 ≤ k = ground (arith, e) in
      let large : 2 ^ 6 ≤ 2 ^ k = pow-le-pow_right (omega arith) enough in
      let six : 6 ≡ min k 6 = omega (arith, enough) in
      above (2 ^ k) large ∙ ap (λ (n : ℕ). 2 ^ n) six
]
  where
    below : (k : ℕ) → k < 6 → alignment_of (2 ^ k) ≡ 2 ^ min k 6
    below zero h = refl
    below (suc zero) h = refl
    below (suc (suc zero)) h = refl
    below (suc (suc (suc zero))) h = refl
    below (suc (suc (suc (suc zero)))) h = refl
    below (suc (suc (suc (suc (suc zero))))) h = refl
    below (suc (suc (suc (suc (suc (suc k)))))) h = absurd (omega (arith, h))

    above : (n : ℕ) → 64 ≤ n → alignment_of n ≡ 64
    above n h = ground (arith, h)

-- An allocation of a type whose alignment is a power of two lies after the earlier ones, ends at
-- the new cursor, within the arena, and starts at a multiple of the alignment, or of 64 where that
-- is less; a failed one changes nothing, and would end beyond the arena. The arena and the request
-- are at most 2 ^ 62 bytes.
pub alloc-bounds :
    (a : Arena) (size count k : ℕ)
    → a.cursor ≤ a.capacity
    → a.capacity ≤ 2 ^ 62
    → size * count ≤ 2 ^ 62
    → (((alloc a size (2 ^ k) count).0 ≡ none)
        × ((off : ℕ) × (off < a.cursor + 2 ^ min k 6)
            × ((m : ℕ) × (off ≡ m * 2 ^ min k 6))
            × (a.cursor ≤ off)
            × (a.capacity < off + size * count))
        × ((alloc a size (2 ^ k) count).1 ≡ a))
      ⊎ ((off : ℕ) × ((alloc a size (2 ^ k) count).0 ≡ some off)
          × (off < a.cursor + 2 ^ min k 6)
          × ((m : ℕ) × (off ≡ m * 2 ^ min k 6))
          × (a.cursor ≤ off)
          × ((alloc a size (2 ^ k) count).1.cursor ≡ off + size * count)
          × (off + size * count ≤ a.capacity)
          × ((alloc a size (2 ^ k) count).1.capacity ≡ a.capacity))
unfolding alloc
alloc-bounds a size count k below large few =
    let at = align_up a.cursor (alignment_of (2 ^ k)) in
    let at_most : min k 6 ≤ 6 = omega arith in
    let p_small : 2 ^ min k 6 ≤ 2 ^ 6 = pow-le-pow_right (omega arith) at_most in
    let (low, high, multiple) = align_up-bounds a.cursor (min k 6) (omega arith) (omega arith) in
    let same : at ≡ align_up a.cursor (2 ^ min k 6) = ap (align_up a.cursor) (alignment_of-pow k) in
    let unwrapped : (at + size * count % 2 ^ 64) % 2 ^ 64 ≡ at + size * count =
      omega (arith, same, high, p_small) in
    let lies = (a.cursor + 2 ^ min k 6 - 1) / 2 ^ min k 6 in
    elim (Bool-cases (ltb a.capacity (at + size * count))) [
      | inl e ↦ inl (
          rw (unwrapped, e)
            (
              refl,
              (
                at,
                omega (arith, same, high),
                (lies, same ∙ multiple),
                omega (arith, same, low),
                ltb→lt a.capacity (at + size * count) e,
              ),
              refl,
            ))
      | inr e ↦ inr (
          rw (unwrapped, e)
            (
              at,
              refl,
              omega (arith, same, high),
              (lies, same ∙ multiple),
              omega (arith, same, low),
              refl,
              ground (arith, e),
              refl,
            ))
    ]
