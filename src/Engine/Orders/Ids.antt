-- ===== src/Engine/Orders/Ids.antt =====
-- The identifiers that the engine makes are distinct, and are kept whole by the order records.
use holographic_market.Base.{
  ℕ, suc, zero, ◌+◌, ◌-◌, ◌*◌, ◌/◌, ◌%◌, ◌^◌, ◌<◌, ◌≤◌, ◌≡◌, ◌≢◌, sym, ap, ◌∙◌, [], ◌∷◌, ltb,
  length, arith, Bool-cases, inl, inr,
}
use native.Mathlib.Nat.{pow-suc}
use holographic_market.Oms.Order.{Text, view, make_client_id, fnv1a64}
use holographic_market.Oms.Identity.{NoZero, view-make_client_id}
use holographic_market.Engine.Orders.{digits_before, to_string, client_id}

-- The number that decimal digits stand for, after a number `n`.
unfoldable pub number_from : ℕ → Text → ℕ
number_from n [] = n
number_from n (c ∷ t) = number_from (n * 10 + (c - 48)) t

last_digit : (n : ℕ) (acc : Text) → n < 10 → number_from 0 ((48 + n % 10) ∷ acc) ≡ number_from n acc
unfolding number_from
last_digit n acc lt = ap (λ m. number_from m acc) (omega arith)

next_digit : (n : ℕ) (acc : Text) → number_from (n / 10) ((48 + n % 10) ∷ acc) ≡ number_from n acc
unfolding number_from
next_digit n acc = ap (λ m. number_from m acc) (omega arith)

number_from-digits :
    (fuel n : ℕ) (acc : Text)
    → n < 10 ^ suc fuel
    → number_from 0 (digits_before (suc fuel) n acc) ≡ number_from n acc
unfolding digits_before
number_from-digits zero n acc lt = elim (Bool-cases (ltb n 10)) [
  | inl e ↦ rw e (last_digit n acc (ground (arith, e)))
  | inr e ↦ absurd (ground (arith, e, lt))
]
number_from-digits (suc fuel) n acc lt = elim (Bool-cases (ltb n 10)) [
  | inl e ↦ rw e (last_digit n acc (ground (arith, e)))
  | inr e ↦ rw e (
      number_from-digits fuel (n / 10) ((48 + n % 10) ∷ acc)
        (omega (arith, lt, pow-suc 10 (suc fuel)))
      ∙ next_digit n acc)
]

-- Printing a 64-bit number and reading its digits gives the number.
pub number_from-to_string : (n : ℕ) → n < 2 ^ 64 → number_from 0 (to_string n) ≡ n
unfolding to_string number_from
number_from-to_string n lt = number_from-digits 19 n [] (omega arith)

length-digits : (fuel n : ℕ) (acc : Text) → length (digits_before fuel n acc) ≤ fuel + length acc
unfolding digits_before
length-digits zero n acc = omega arith
length-digits (suc fuel) n acc = ground (arith, length-digits fuel (n / 10) ((48 + n % 10) ∷ acc))

digits-NoZero : (fuel n : ℕ) (acc : Text) → NoZero acc → NoZero (digits_before fuel n acc)
unfolding digits_before
digits-NoZero zero n acc ok = ok
digits-NoZero (suc fuel) n acc ok = elim (Bool-cases (ltb n 10)) [
  | inl e ↦ rw e (omega arith, ok)
  | inr e ↦ rw e (digits-NoZero fuel (n / 10) ((48 + n % 10) ∷ acc) (omega arith, ok))
]

length-to_string : (n : ℕ) → length (to_string n) ≤ 20
unfolding to_string
length-to_string n = length-digits 20 n []

to_string-NoZero : (n : ℕ) → NoZero (to_string n)
unfolding to_string
to_string-NoZero n = digits-NoZero 20 n [] tt

-- An identifier of the engine fits the field of an order record: it is read back as it was, so
-- the key of a record is the key under which the order was registered.
pub client_id-kept :
    (seq : ℕ)
    → (view (make_client_id (client_id seq)) ≡ client_id seq)
      × (fnv1a64 (view (make_client_id (client_id seq))) ≡ fnv1a64 (client_id seq))
unfolding client_id
client_id-kept seq =
    view-make_client_id (client_id seq) (omega (arith, length-to_string seq)) (
      omega arith,
      (omega arith, (omega arith, (omega arith, (omega arith, to_string-NoZero seq)))),
    )

strip : Text → ℕ
strip (a ∷ b ∷ c ∷ e ∷ f ∷ t) = number_from 0 t
strip _ = 0

-- Two identifiers that the engine makes from different sequence numbers are different.
pub client_id-distinct : (a b : ℕ) → a < 2 ^ 64 → b < 2 ^ 64 → a ≢ b → client_id a ≢ client_id b
unfolding client_id strip
client_id-distinct a b lt_a lt_b ne e =
    ne (sym (number_from-to_string a lt_a) ∙ ap strip e ∙ number_from-to_string b lt_b)
