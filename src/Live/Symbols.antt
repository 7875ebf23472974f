-- ===== src/Live/Symbols.antt =====
-- The symbols of the four instruments, and those of routed edges.
use holographic_market.Base.{
  ℕ, zero, suc, ◌≡◌, ◌<◌, refl, sym, ap, ◌∙◌, false, List, [], ◌∷◌, arith, if◌then◌else◌, ◌==◌,
  Bool-cases, inl, inr,
}
use holographic_market.Base.Bytes.{codes}
use holographic_market.Base.Table.{
  same_text, same_text_iff, text_key, member, insert, member-insert,
}
use holographic_market.Base.Double.{Double}
use holographic_market.Oms.Order.{Text}
use holographic_market.Router.{RoutedEdge}
use holographic_market.Router.Disjoint.{touched}
use holographic_market.Router.Range.{InRange}
use holographic_market.Live.{symbol_of}

-- The instrument of a symbol.
abbrev instrument_of : Text → ℕ
instrument_of t =
    if same_text t (codes "BTCUSDT")
    then 0
    else if same_text t (codes "ETHUSDT")
    then 1
    else if same_text t (codes "SOLUSDT")
    then 2
    else 3

instrument_of-symbol : (a : ℕ) → a < 4 → instrument_of (symbol_of a) ≡ a
instrument_of-symbol zero h = refl
instrument_of-symbol (suc zero) h = refl
instrument_of-symbol (suc (suc zero)) h = refl
instrument_of-symbol (suc (suc (suc zero))) h = refl
instrument_of-symbol (suc (suc (suc (suc a)))) h = absurd (omega arith)

-- The symbols of two different instruments of the four differ.
symbol_of-ne :
    (a b : ℕ) → a < 4 → b < 4 → (a == b) ≡ false → same_text (symbol_of a) (symbol_of b) ≡ false
symbol_of-ne a b p q ne = elim (Bool-cases (same_text (symbol_of a) (symbol_of b))) [
  | inl same ↦ absurd (clash (equal ((same_text_iff (symbol_of a) (symbol_of b)).0 same)))
  | inr apart ↦ apart
]
  where
    equal : symbol_of a ≡ symbol_of b → a ≡ b
    equal e = sym (instrument_of-symbol a p) ∙ ap instrument_of e ∙ instrument_of-symbol b q

    clash : a ≡ b → ⊥
    clash e = ground (arith, e)

module _ {W : Type 0} where
  -- The symbols of an instrument's edges are not among some symbols.
  abbrev pub Free : List Text → List (RoutedEdge W) → Type 0
  Free used [] = Unit {0}
  Free used (r ∷ rs) =
      (member (symbol_of r.src_instrument) used ≡ false)
      × (member (symbol_of r.dst_instrument) used ≡ false)
      × Free used rs

  -- An instrument that no later edge touches can be used before them.
  pub Free-insert :
      ⦃d : Double W⦄ (a : ℕ) (used : List Text) (rs : List (RoutedEdge W))
      → a < 4
      → touched a rs ≡ false
      → InRange 4 rs
      → Free used rs
      → Free (insert (symbol_of a) used) rs
  Free-insert a used [] h t range free = tt
  Free-insert a used (r ∷ rs) h t range free = (
    rw
        (
          member-insert (symbol_of a) (symbol_of r.src_instrument) used,
          symbol_of-ne a r.src_instrument h range.0 (ground (arith, t)),
        )
        free.0,
    rw
        (
          member-insert (symbol_of a) (symbol_of r.dst_instrument) used,
          symbol_of-ne a r.dst_instrument h range.1 (ground (arith, t)),
        )
        free.1,
    Free-insert a used rs h (ground (arith, t)) range.2 free.2,
  )

  pub Free-nil : (rs : List (RoutedEdge W)) → Free [] rs
  unfolding member
  Free-nil [] = tt
  Free-nil (r ∷ rs) = (refl, refl, Free-nil rs)
