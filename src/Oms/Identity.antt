-- ===== src/Oms/Identity.antt =====
-- What a fixed-width buffer keeps of an identifier.
use holographic_market.Base.{
  ℕ, zero, suc, ◌≤◌, ◌<◌, min, ◌≡◌, ◌≢◌, refl, ap, ◌∙◌, [], ◌∷◌, arith, length, replicate, ==_ne,
  take, dec_le, sym,
}
use holographic_market.Oms.Order.{Text, fill_buffer, make_symbol, make_client_id, view, fnv1a64}

-- No byte of the text is zero.
abbrev pub NoZero : Text → Type 0
NoZero [] = Unit {0}
NoZero (c ∷ sv) = (c ≢ 0) × NoZero sv

view-zeros : (n : ℕ) → view (replicate n 0) ≡ []
unfolding view
view-zeros zero = refl
view-zeros (suc n) = refl

view-fill_buffer :
    (width n : ℕ) (sv : Text) → n < width → NoZero sv → view (fill_buffer width n sv) ≡ take n sv
unfolding fill_buffer view
view-fill_buffer zero n sv lt ok = absurd (omega arith)
view-fill_buffer (suc width) zero sv lt ok = view-zeros (suc width)
view-fill_buffer (suc width) (suc n) [] lt ok = view-zeros (suc width)
view-fill_buffer (suc width) (suc n) (c ∷ sv) lt ok =
    rw (==_ne c 0 ok.0) (ap (λ (t : Text). c ∷ t) (view-fill_buffer width n sv (omega arith) ok.1))

take_all : (n : ℕ) (sv : Text) → length sv ≤ n → take n sv ≡ sv
take_all zero [] h = refl
take_all zero (c ∷ sv) h = absurd (omega arith)
take_all (suc n) [] h = refl
take_all (suc n) (c ∷ sv) h = ap (λ (t : Text). c ∷ t) (take_all n sv (omega arith))

take-min : (sv : Text) (n : ℕ) → take (min (length sv) n) sv ≡ take n sv
take-min sv n = elim (dec_le (length sv) n) [
  | yes short ↦
      let e : min (length sv) n ≡ length sv = omega arith in
      rw e (take_all (length sv) sv (omega arith) ∙ sym (take_all n sv short))
  | no long ↦ let e : min (length sv) n ≡ n = omega arith in rw e
]

-- A client order id of at most 39 bytes, none of them zero, is read back as it was written, and so
-- hashes to the key under which its order was registered.
pub view-make_client_id :
    (sv : Text)
    → length sv < 40
    → NoZero sv
    → (view (make_client_id sv) ≡ sv) × (fnv1a64 (view (make_client_id sv)) ≡ fnv1a64 sv)
unfolding make_client_id
view-make_client_id sv lt ok = (same, ap fnv1a64 same)
  where
    same : view (fill_buffer 40 (min (length sv) 39) sv) ≡ sv
    same =
        view-fill_buffer 40 (min (length sv) 39) sv (omega arith) ok
        ∙ take-min sv 39
        ∙ take_all 39 sv (omega arith)

-- A symbol is cut to its first 15 bytes, and is read back as those.
pub view-make_symbol : (sv : Text) → NoZero sv → view (make_symbol sv) ≡ take 15 sv
unfolding make_symbol
view-make_symbol sv ok =
    view-fill_buffer 16 (min (length sv) 15) sv (omega arith) ok ∙ take-min sv 15
