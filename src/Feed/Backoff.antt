-- ===== src/Feed/Backoff.antt =====
-- `run_with_backoff`: the wait before each connection.
use native.Mathlib.Nat.{pow-suc, mul_comm}
use holographic_market.Base.Bits.{one-le-pow}
use holographic_market.Base.{
  ℕ, ◌*◌, Bool, List, [], ◌∷◌, ◌^◌, ◌≤◌, ◌≡◌, refl, zero, suc, ◌+◌, ◌-◌, subst, ◌∙◌, dec_le,
  replicate, false, true, arith, if◌then◌else◌, min,
}

abbrev pub first_backoff : ℕ
first_backoff = 200

abbrev pub max_backoff : ℕ
max_backoff = 10000

-- The outcome of one `run`: true when it returned, false when it threw. The result is the wait
-- that follows, and the backoff that the next turn starts with.
unfoldable pub wait_after : ℕ → Bool → ℕ × ℕ
wait_after backoff returned =
    let wait = if returned then first_backoff else backoff in (wait, min (wait * 2) max_backoff)

-- The waits of successive turns.
unfoldable pub waits : ℕ → List Bool → List ℕ
unfolding wait_after
waits backoff [] = []
waits backoff (returned ∷ runs) =
    let (wait, next) = wait_after backoff returned in wait ∷ waits next runs

abbrev pub AllBetween : ℕ → ℕ → List ℕ → Type 0
AllBetween low high [] = Unit {0}
AllBetween low high (w ∷ ws) = (low ≤ w) × (w ≤ high) × AllBetween low high ws

-- From a backoff between the first and the greatest, every wait is between them.
waits-AllBetween :
    (backoff : ℕ) (runs : List Bool)
    → first_backoff ≤ backoff
    → backoff ≤ max_backoff
    → AllBetween first_backoff max_backoff (waits backoff runs)
unfolding waits wait_after
waits-AllBetween backoff [] low high = tt
waits-AllBetween backoff (true ∷ runs) low high =
    (omega arith, omega arith, waits-AllBetween 400 runs (omega arith) (omega arith))
waits-AllBetween backoff (false ∷ runs) low high =
    (low, high, waits-AllBetween (min (backoff * 2) max_backoff) runs (omega arith) (omega arith))

-- The last of some waits.
abbrev pub last_wait : ℕ → List ℕ → ℕ
last_wait w [] = w
last_wait w (v ∷ ws) = last_wait v ws

capped_by :
    (q backoff m : ℕ)
    → m ≡ min (backoff * 2) max_backoff
    → min ((1 + q) * m) max_backoff ≡ min (2 * (1 + q) * backoff) max_backoff
capped_by q backoff m e = elim (dec_le (backoff * 2) max_backoff) [
  | yes le ↦ rw (exact le) (omega arith)
  | no gt ↦ rw (top gt) (omega arith)
]
  where
    exact : backoff * 2 ≤ max_backoff → m ≡ backoff * 2
    exact le = omega arith

    top : ¬ (backoff * 2 ≤ max_backoff) → m ≡ max_backoff
    top gt = omega arith

-- After a normal return, or at the start, the wait that ends a run of failures is 200 ms doubled
-- once for each failure before it, and at most ten seconds.
failures-doubled :
    (n backoff : ℕ)
    → backoff ≤ max_backoff
    → last_wait backoff (waits backoff (false ∷ replicate n false))
      ≡ min (2 ^ n * backoff) max_backoff
unfolding waits wait_after
failures-doubled zero backoff h = omega arith
failures-doubled (suc n) backoff h =
    failures-doubled n (min (backoff * 2) max_backoff) (omega arith)
    ∙ subst
        (λ p.
          min (p * min (backoff * 2) max_backoff) max_backoff ≡ min (2 * p * backoff) max_backoff)
        (power n) (capped_by (2 ^ n - 1) backoff _ refl)
    ∙ rw (pow-suc 2 n, mul_comm (2 ^ n) 2) refl
  where
    power : (n : ℕ) → 1 + (2 ^ n - 1) ≡ 2 ^ n
    power n = omega (arith, one-le-pow n)
