-- ===== src/Oms/Stale.antt =====
-- The stale orders, and the balance of the slots.
use mathlib.Core.Option.{some-injective}
use holographic_market.Base.{
  ℕ, ◌+◌, ◌≡◌, refl, sym, ap, ◌∙◌, true, false, List, [], ◌∷◌, ◌++◌, none, some, arith, length,
  subst, get_or, length-set, length-append, ◌⊎◌, inl, inr, Bool-cases, Option-cases, ◌==◌,
}
use holographic_market.Base.Int.{ℤ, ◌-ℤ◌}
use holographic_market.Base.Double.{Double}
use holographic_market.Oms.Order.{Side, Text, OrderRecord, blank, fnv1a64}
use holographic_market.Oms.Index.{find, length-erase, length-assign}
use holographic_market.Oms.Core.{
  Oms, store_record, register_new_order, get, is_stale, collect_stale, get_stale_orders, release,
  live_order_count,
}
use holographic_market.Oms.Runs.{get-of_find, get-of_none}

module _ {W : Type 0} ⦃d : Double W⦄ where
  abbrev pub Has : OrderRecord W → List (OrderRecord W) → Type 0
  Has r [] = ⊥
  Has r (x ∷ l) = (x ≡ r) ⊎ Has r l

  abbrev pub AllStale : ℤ → List (OrderRecord W) → Type 0
  AllStale cutoff [] = Unit {0}
  AllStale cutoff (x ∷ l) = (is_stale cutoff x ≡ true) × AllStale cutoff l

  collected-AllStale :
      (cutoff : ℤ) (slots : List (OrderRecord W)) (m : List (ℕ × ℕ))
      → AllStale cutoff (collect_stale cutoff slots m)
  unfolding collect_stale
  collected-AllStale cutoff slots [] = tt
  collected-AllStale cutoff slots ((key, slot) ∷ m) =
      elim (Bool-cases (is_stale cutoff (get_or slots slot blank))) [
        | inl e ↦ rw e (e, collected-AllStale cutoff slots m)
        | inr e ↦ rw e (collected-AllStale cutoff slots m)
      ]

  -- One entry more in the map adds its record, if that is stale, and loses none.
  grown :
      (cutoff : ℤ) (slots : List (OrderRecord W)) (k s : ℕ) (m : List (ℕ × ℕ)) (r : OrderRecord W)
      → ((get_or slots s blank ≡ r) × (is_stale cutoff r ≡ true))
        ⊎ Has r (collect_stale cutoff slots m)
      → Has r (collect_stale cutoff slots ((k, s) ∷ m))
  unfolding collect_stale
  grown cutoff slots k s m r (inl (e, h)) = rw (ap (is_stale cutoff) e ∙ h) (inl e)
  grown cutoff slots k s m r (inr h) = elim (Bool-cases (is_stale cutoff (get_or slots s blank))) [
    | inl e ↦ rw e (inr h)
    | inr e ↦ rw e h
  ]

  collected-Has :
      (cutoff : ℤ) (slots : List (OrderRecord W)) (m : List (ℕ × ℕ)) (key slot : ℕ)
      → find key m ≡ some slot
      → is_stale cutoff (get_or slots slot blank) ≡ true
      → Has (get_or slots slot blank) (collect_stale cutoff slots m)
  unfolding find
  collected-Has cutoff slots [] key slot e h = absurd (cc)
  collected-Has cutoff slots ((k, s) ∷ m) key slot e h =
      grown cutoff slots k s m (get_or slots slot blank) (elim (Bool-cases (k == key)) [
        | inl same ↦ inl (ap (λ t. get_or slots t blank) (some-injective s slot (first same)), h)
        | inr other ↦ inr (collected-Has cutoff slots m key slot (later other) h)
      ])
    where
      first : (k == key) ≡ true → some s ≡ some slot
      first same = ground arith

      later : (k == key) ≡ false → find key m ≡ some slot
      later other = ground arith

  -- Every order of the sweep's list is live and was created before the cutoff.
  pub get_stale_orders-AllStale :
      (o : Oms W) (mono max_age : ℤ) → AllStale (mono -ℤ max_age) (get_stale_orders o mono max_age)
  unfolding get_stale_orders
  get_stale_orders-AllStale o mono max_age = collected-AllStale (mono -ℤ max_age) o.slots o.index

  -- Every order that the manager knows, if it is live and was created before the cutoff, is in the
  -- sweep's list.
  pub get_stale_orders-Has :
      (o : Oms W) (mono max_age : ℤ) (key : ℕ) (r : OrderRecord W)
      → get o key ≡ some r
      → is_stale (mono -ℤ max_age) r ≡ true
      → Has r (get_stale_orders o mono max_age)
  unfolding get_stale_orders
  get_stale_orders-Has o mono max_age key r e h = elim (Option-cases (find key o.index)) [
    | inl f ↦ cc (get-of_none o key f)
    | inr (slot, f) ↦
        let same = some-injective _ _ (sym (get-of_find o key slot f) ∙ e) in
        subst (λ x. Has x (collect_stale (mono -ℤ max_age) o.slots o.index)) same
          (collected-Has (mono -ℤ max_age) o.slots o.index key slot f
            (ap (is_stale (mono -ℤ max_age)) same ∙ h))
  ]

  -- Slots are never lost: each is in use or on the free list.
  abbrev pub Balanced : Oms W → Type 0
  Balanced o = length o.slots ≡ length o.index + length o.free_list

  pub store-Balanced :
      (slots : List (OrderRecord W)) (index : List (ℕ × ℕ)) (free : List ℕ) (key : ℕ)
      (rec : OrderRecord W)
      → find key index ≡ none
      → length slots ≡ length index + length free
      → Balanced (store_record (record { slots = slots; index = index; free_list = free }) key rec)
  unfolding store_record
  store-Balanced slots index [] key rec new b = omega (
    arith,
    length-set (slots ++ blank ∷ []) (length slots) rec,
    length-append slots (blank ∷ []),
    length-assign key (length slots) index new,
  )
  store-Balanced slots index (s ∷ free) key rec new b =
      omega (arith, length-set slots s rec, length-assign key s index new)

  -- An order registered under a key that is not in use leaves every slot in use or free, if that
  -- was so before.
  pub register-Balanced :
      (o : Oms W) (id symbol : Text) (side : Side) (price qty : W) (now mono : ℤ)
      → find (fnv1a64 id) o.index ≡ none
      → Balanced o
      → Balanced (register_new_order o id symbol side price qty now mono).1
  unfolding register_new_order
  register-Balanced o id symbol side price qty now mono new b =
      store-Balanced o.slots o.index o.free_list (fnv1a64 id) _ new b

  -- So does a release, which lowers the number of orders by one or, of an unknown key, not at all.
  pub release-Balanced :
      (o : Oms W) (key : ℕ)
      → Balanced o
      → Balanced (release o key)
        × (live_order_count (release o key) ≡ live_order_count o
            ⊎ (live_order_count (release o key) + 1 ≡ live_order_count o))
  unfolding release live_order_count
  release-Balanced o key b = elim (Option-cases (find key o.index)) [
    | inl e ↦ rw (e, release) (b, inl refl)
    | inr (slot, e) ↦
        rw (e, release)
          (omega (arith, length-erase key slot o.index e), inr (length-erase key slot o.index e))
  ]
