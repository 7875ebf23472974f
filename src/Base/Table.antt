-- ===== src/Base/Table.antt =====
-- Maps and sets of the standard library over keys with a Boolean equality, as lists of entries.
-- Their order is not specified, and no theorem depends on it.
use mathlib.Core.Path.{◌≡◌, refl}
use mathlib.Core.Logic.{◌↔◌}
use mathlib.Core.Bool.{Bool, true, false, ◌&&◌, ◌||◌}
use mathlib.Core.Option.{Option, none, some}
use mathlib.Core.List.{List, [], ◌∷◌}
use native.Mathlib.Omega.{arith}
use Prim.Native.Nat.{ℕ}
use holographic_market.Base.Tests.{◌==◌, if◌then◌else◌}
use holographic_market.Base.Int.{ℤ, pos, negsuc}

pub record Key (K : Type 0) : Type 0 where
  pub same : K → K → Bool
  pub same_iff : (a b : K) → (same a b ≡ true) ↔ (a ≡ b)

-- Texts are lists of bytes.
abbrev pub same_text : List ℕ → List ℕ → Bool
same_text [] [] = true
same_text (a ∷ s) (b ∷ t) = (a == b) && same_text s t
same_text _ _ = false

pub same_text_iff : (s t : List ℕ) → (same_text s t ≡ true) ↔ (s ≡ t)
same_text_iff [] [] = ((λ _. refl), (λ _. refl))
same_text_iff (a ∷ s) (b ∷ t) = ground (arith, same_text_iff s t)
same_text_iff [] (b ∷ t) = ((λ e. cc), (λ e. cc))
same_text_iff (a ∷ s) [] = ((λ e. cc), (λ e. cc))

instance abbrev pub text_key : Key (List ℕ)
text_key = record { same = same_text; same_iff = same_text_iff }

abbrev pub same_ℤ : ℤ → ℤ → Bool
same_ℤ (pos a) (pos b) = a == b
same_ℤ (negsuc a) (negsuc b) = a == b
same_ℤ _ _ = false

pub same_ℤ_iff : (a b : ℤ) → (same_ℤ a b ≡ true) ↔ (a ≡ b)
same_ℤ_iff a b = ground arith

instance abbrev pub int_key : Key ℤ
int_key = record { same = same_ℤ; same_iff = same_ℤ_iff }

module _ {K : Type 0} ⦃key : Key K⦄ {V : Type 0} where
  unfoldable pub find : K → List (K × V) → Option V
  find k [] = none
  find k ((j, v) ∷ m) = if key.same j k then some v else find k m

  -- `m[k] = v`
  unfoldable pub assign : K → V → List (K × V) → List (K × V)
  assign k v [] = (k, v) ∷ []
  assign k v ((j, w) ∷ m) = if key.same j k then (k, v) ∷ m else (j, w) ∷ assign k v m

  pub find-assign :
      (k j : K) (v : V) (m : List (K × V))
      → find j (assign k v m) ≡ (if key.same k j then some v else find j m)
  unfolding find assign
  find-assign k j v [] = refl
  find-assign k j v ((i, w) ∷ m) =
      ground (arith, find-assign k j v m, key.same_iff i k, key.same_iff i j, key.same_iff k j)

module _ {K : Type 0} ⦃key : Key K⦄ where
  -- `count` of a set, as a test.
  unfoldable pub member : K → List K → Bool
  member k [] = false
  member k (j ∷ s) = key.same j k || member k s

  unfoldable pub insert : K → List K → List K
  unfolding member
  insert k s = if member k s then s else k ∷ s

  unfoldable pub remove : K → List K → List K
  remove k [] = []
  remove k (j ∷ s) = let rest = remove k s in if key.same j k then rest else j ∷ rest

  pub member-insert : (k j : K) (s : List K) → member j (insert k s) ≡ (key.same k j || member j s)
  unfolding insert member
  member-insert k j s = ground (arith, key.same_iff k j)

  pub member-remove :
      (k j : K) (s : List K) → member j (remove k s) ≡ (if key.same k j then false else member j s)
  unfolding remove member
  member-remove k j [] = ground arith
  member-remove k j (i ∷ s) =
      ground (arith, member-remove k j s, key.same_iff i k, key.same_iff i j, key.same_iff k j)
