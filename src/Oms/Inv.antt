-- ===== src/Oms/Inv.antt =====
-- The slots of the order manager: no two orders share one, and no order holds a free one.
use holographic_market.Base.{
  ℕ, ◌+◌, ◌<◌, ◌≡◌, ◌≢◌, refl, sym, ap, ◌∙◌, List, [], ◌∷◌, ◌++◌, some, arith, length, set,
  length-set, length-append, Option-cases, inl, inr, subst, ℕ_discrete,
}
use holographic_market.Base.Int.{ℤ}
use holographic_market.Base.Double.{Double}
use holographic_market.Oms.Order.{OrderStatus, Side, Text, OrderRecord, blank, fnv1a64}
use holographic_market.Oms.Index.{
  find, erase, assign, IsMap, erase-IsMap, assign-IsMap, find-erase, find-assign,
}
use holographic_market.Oms.Core.{
  Oms, store_record, register_new_order, apply_update, release, after,
}

abbrev pub NotIn : ℕ → List ℕ → Type 0
NotIn s [] = Unit {0}
NotIn s (x ∷ l) = (x ≢ s) × NotIn s l

abbrev pub Distinct : List ℕ → Type 0
Distinct [] = Unit {0}
Distinct (x ∷ l) = NotIn x l × Distinct l

abbrev pub AllBelow : ℕ → List ℕ → Type 0
AllBelow n [] = Unit {0}
AllBelow n (x ∷ l) = (x < n) × AllBelow n l

pub record IsSound (size : ℕ) (index : List (ℕ × ℕ)) (free : List ℕ) : Type 0 where
  pub keyed : IsMap index
  pub in_range : (k s : ℕ) → find k index ≡ some s → s < size
  pub unshared : (j k s : ℕ) → find j index ≡ some s → find k index ≡ some s → j ≡ k
  pub free_in_range : AllBelow size free
  pub free_distinct : Distinct free
  pub not_free : (k s : ℕ) → find k index ≡ some s → NotIn s free

abbrev pub Inv : {W : Type 0} → Oms W → Type 0
Inv o = IsSound (length o.slots) o.index o.free_list

AllBelow-mono : (m n : ℕ) (l : List ℕ) → m < n → AllBelow m l → AllBelow n l
AllBelow-mono m n [] h b = tt
AllBelow-mono m n (x ∷ l) h b = (omega arith, AllBelow-mono m n l h b.1)

pub place-IsSound :
    (size : ℕ) (index : List (ℕ × ℕ)) (free : List ℕ) (slot key : ℕ)
    → IsSound size index free
    → slot < size
    → NotIn slot free
    → ((k : ℕ) → find k index ≢ some slot)
    → IsSound size (assign key slot index) free
place-IsSound size index free slot key v lt out unused = record {
  keyed = assign-IsMap key slot index v.keyed;
  in_range = λ k s e. ground (arith, find-assign key k slot index, v.in_range k s);
  unshared = λ j k s p q. ground (
    arith,
    find-assign key j slot index,
    find-assign key k slot index,
    v.unshared j k s,
    unused j,
    unused k,
  );
  free_in_range = v.free_in_range;
  free_distinct = v.free_distinct;
  not_free = λ k s e. elim (ℕ_discrete key k) [
    | yes same ↦ subst (λ t. NotIn t free) (ground (arith, find-assign key k slot index)) out
    | no other ↦ v.not_free k s (ground (arith, find-assign key k slot index))
  ];
}

-- The two ways to get a slot: a new one at the end, and the back of the free list.
pub fresh-IsSound :
    (size : ℕ) (index : List (ℕ × ℕ)) (key : ℕ)
    → IsSound size index []
    → IsSound (size + 1) (assign key size index) []
fresh-IsSound size index key v =
    place-IsSound (size + 1) index [] size key
      (record {
        keyed = v.keyed;
        in_range = λ k s e. omega (arith, v.in_range k s e);
        unshared = v.unshared;
        free_in_range = tt;
        free_distinct = tt;
        not_free = λ k s e. tt;
      })
      (omega arith) tt (λ k e. omega (arith, v.in_range k size e))

pub reused-IsSound :
    (size : ℕ) (index : List (ℕ × ℕ)) (s : ℕ) (free : List ℕ) (key : ℕ)
    → IsSound size index (s ∷ free)
    → IsSound size (assign key s index) free
reused-IsSound size index s free key v =
    place-IsSound size index free s key
      (record {
        keyed = v.keyed;
        in_range = v.in_range;
        unshared = v.unshared;
        free_in_range = v.free_in_range.1;
        free_distinct = v.free_distinct.1;
        not_free = λ k t e. (v.not_free k t e).1;
      })
      v.free_in_range.0 v.free_distinct.0 (λ k e. (v.not_free k s e).0 refl)

freed-IsSound :
    (size : ℕ) (index : List (ℕ × ℕ)) (free : List ℕ) (key slot : ℕ)
    → find key index ≡ some slot
    → IsSound size index free
    → IsSound size (erase key index) (slot ∷ free)
freed-IsSound size index free key slot at v = record {
  keyed = erase-IsMap key index v.keyed;
  in_range = λ k s e. v.in_range k s (kept k s e).0;
  unshared = λ j k s p q. v.unshared j k s (kept j s p).0 (kept k s q).0;
  free_in_range = (v.in_range key slot at, v.free_in_range);
  free_distinct = (v.not_free key slot at, v.free_distinct);
  not_free = λ k s e. (
    λ same. (kept k s e).1 (v.unshared key k slot at ((kept k s e).0 ∙ ap some (sym same))),
    v.not_free k s (kept k s e).0,
  );
}
  where
    kept : (k s : ℕ) → find k (erase key index) ≡ some s → (find k index ≡ some s) × (key ≢ k)
    kept k s e = ground (arith, find-erase key k index v.keyed)

module _ {W : Type 0} ⦃d : Double W⦄ where
  pub store-IsSound :
      (slots : List (OrderRecord W)) (index : List (ℕ × ℕ)) (free : List ℕ) (key : ℕ)
      (rec : OrderRecord W)
      → IsSound (length slots) index free
      → Inv (store_record (record { slots = slots; index = index; free_list = free }) key rec)
  unfolding store_record
  store-IsSound slots index [] key rec v =
      rw (size slots) (fresh-IsSound (length slots) index key v)
    where
      size :
          (xs : List (OrderRecord W))
          → length (set (xs ++ blank ∷ []) (length xs) rec) ≡ length xs + 1
      size xs = length-set (xs ++ blank ∷ []) (length xs) rec ∙ length-append xs (blank ∷ [])
  store-IsSound slots index (s ∷ free) key rec v =
      rw (length-set slots s rec) (reused-IsSound (length slots) index s free key v)

  -- `register_new_order` keeps the slots sound, also when its key is in use.
  pub register-Inv :
      (o : Oms W) (id symbol : Text) (side : Side) (price qty : W) (now mono : ℤ)
      → Inv o
      → Inv (register_new_order o id symbol side price qty now mono).1
  unfolding register_new_order
  register-Inv o id symbol side price qty now mono v =
      store-IsSound o.slots o.index o.free_list (fnv1a64 id) _ v

  pub release-Inv : (o : Oms W) (key : ℕ) → Inv o → Inv (release o key)
  unfolding release
  release-Inv o key v = elim (Option-cases (find key o.index)) [
    | inl e ↦ rw (e, release) v
    | inr (slot, e) ↦
        rw (e, release) (freed-IsSound (length o.slots) o.index o.free_list key slot e v)
  ]

  pub update-Inv :
      (o : Oms W) (key : ℕ) (status : OrderStatus) (cumulative last_price : W)
      (exchange_id event_ns : ℤ) (commission : W)
      → Inv o
      → Inv (
          after o (apply_update o key status cumulative last_price exchange_id event_ns commission))
  unfolding apply_update
  update-Inv o key status cumulative last_price exchange_id event_ns commission v =
      elim (Option-cases (find key o.index)) [
        | inl e ↦ rw (e, apply_update) v
        | inr (slot, e) ↦ rw (e, apply_update) (rw (length-set o.slots slot _) v)
      ]

pub empty-IsSound : IsSound 0 [] []
unfolding find
empty-IsSound = record {
  keyed = tt;
  in_range = λ k s e. absurd (cc);
  unshared = λ j k s p q. absurd (cc);
  free_in_range = tt;
  free_distinct = tt;
  not_free = λ k s e. tt;
}
