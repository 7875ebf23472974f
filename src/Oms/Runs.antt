-- ===== src/Oms/Runs.antt =====
-- What holds after any sequence of calls of the order manager, and what a call changes.
use mathlib.Core.Option
use holographic_market.Base.{
  ℕ, ◌≡◌, ◌≢◌, refl, sym, ap, ◌∙◌, List, [], ◌∷◌, ◌++◌, none, some, arith, length, get_or, set,
  length-append, Option-cases, inl, inr, ◌==◌, if◌then◌else◌, get_or-set_self, get_or-set_ne,
  get_or-append_left, ℕ_discrete, ==_eq, ==_ne,
}
use holographic_market.Base.Int.{ℤ}
use holographic_market.Base.Double.{Double}
use holographic_market.Oms.Order.{OrderStatus, Side, Text, OrderRecord, blank, fnv1a64}
use holographic_market.Oms.Index.{find, assign, find-erase, find-assign, find-assign_self}
use holographic_market.Oms.Core.{
  Oms, make, new_record, store_record, register_new_order, updated, apply_update, after, get,
  release, Op, registers, updates, releases, step, run,
}
use holographic_market.Oms.Inv.{
  Inv, IsSound, fresh-IsSound, reused-IsSound, register-Inv, update-Inv, release-Inv, empty-IsSound,
}

module _ {W : Type 0} ⦃d : Double W⦄ where
  -- Every call keeps the slots sound.
  pub step-Inv : (o : Oms W) (op : Op W) → Inv o → Inv (step o op)
  unfolding step
  step-Inv o (registers id symbol side price qty now mono) v =
      register-Inv o id symbol side price qty now mono v
  step-Inv o (updates key status cumulative last_price exchange_id event_ns commission) v =
      update-Inv o key status cumulative last_price exchange_id event_ns commission v
  step-Inv o (releases key) v = release-Inv o key v

  run_from-Inv : (o : Oms W) (ops : List (Op W)) → Inv o → Inv (run o ops)
  unfolding run
  run_from-Inv o [] v = v
  run_from-Inv o (op ∷ ops) v = run_from-Inv (step o op) ops (step-Inv o op v)

  -- After any sequence of registrations, updates and releases, from the empty manager: every key
  -- leads to a slot in range, two keys never to one slot, and no slot of a key is on the free list,
  -- which itself holds no slot twice.
  pub run-Inv : (ops : List (Op W)) → Inv (run make ops)
  unfolding make
  run-Inv ops = run_from-Inv make ops empty-IsSound

  pub get-of_find :
      (o : Oms W) (key slot : ℕ)
      → find key o.index ≡ some slot
      → get o key ≡ some (get_or o.slots slot blank)
  unfolding get
  get-of_find o key slot e = rw (e, get) refl

  pub get-of_none : (o : Oms W) (key : ℕ) → find key o.index ≡ none → get o key ≡ none
  unfolding get
  get-of_none o key e = rw (e, get) refl

  -- A write to the slot of one key is seen by that key alone.
  get-set :
      (slots : List (OrderRecord W)) (index : List (ℕ × ℕ)) (free : List ℕ) (key slot j : ℕ)
      (rec : OrderRecord W)
      → IsSound (length slots) index free
      → find key index ≡ some slot
      → get (record { slots = set slots slot rec; index = index; free_list = free }) j ≡ (
          if key == j
          then some rec
          else get (record { slots = slots; index = index; free_list = free }) j)
  get-set slots index free key slot j rec v at = elim (ℕ_discrete key j) [
    | yes e ↦ rw (==_eq key j e) (
        get-of_find _ j slot (ap (λ i. find i index) (sym e) ∙ at)
        ∙ ap some (get_or-set_self slots slot rec blank (v.in_range key slot at)))
    | no ne ↦ rw (==_ne key j ne) (elim (Option-cases (find j index)) [
      | inl f ↦ get-of_none _ j f ∙ sym (get-of_none _ j f)
      | inr (t, f) ↦
          get-of_find _ j t f
          ∙ ap some (get_or-set_ne slots slot t rec blank (apart ne t f))
          ∙ sym (get-of_find _ j t f)
    ])
  ]
    where
      apart : key ≢ j → (t : ℕ) → find j index ≡ some t → slot ≢ t
      apart ne t f e = ne (v.unshared key j slot at (f ∙ ap some (sym e)))

  get-assign :
      (slots : List (OrderRecord W)) (index : List (ℕ × ℕ)) (free rest : List ℕ) (key slot j : ℕ)
      → key ≢ j
      → get (record { slots = slots; index = assign key slot index; free_list = free }) j
        ≡ get (record { slots = slots; index = index; free_list = rest }) j
  unfolding get
  get-assign slots index free rest key slot j ne = ground (arith, find-assign key j slot index)

  get-append :
      (slots : List (OrderRecord W)) (index : List (ℕ × ℕ)) (free rest : List ℕ) (j : ℕ)
      (rec : OrderRecord W)
      → IsSound (length slots) index free
      → get (record { slots = slots ++ rec ∷ []; index = index; free_list = rest }) j
        ≡ get (record { slots = slots; index = index; free_list = free }) j
  get-append slots index free rest j rec v = elim (Option-cases (find j index)) [
    | inl f ↦ get-of_none _ j f ∙ sym (get-of_none _ j f)
    | inr (t, f) ↦
        get-of_find _ j t f
        ∙ ap some (get_or-append_left slots (rec ∷ []) t blank (v.in_range j t f))
        ∙ sym (get-of_find _ j t f)
  ]

  -- After `release` the key is unknown; what every other key leads to is unchanged.
  pub get-release :
      (o : Oms W) (key j : ℕ) → Inv o → get (release o key) j ≡ (if key == j then none else get o j)
  unfolding get release
  get-release o key j v = ground (arith, find-erase key j o.index v.keyed)

  -- After `apply_update` the record of the key, if there is one, is the updated one, and what every
  -- other key leads to is unchanged.
  pub get-update :
      (o : Oms W) (key j : ℕ) (status : OrderStatus) (cumulative last_price : W)
      (exchange_id event_ns : ℤ) (commission : W)
      → Inv o
      → get
          (after o
            (apply_update o key status cumulative last_price exchange_id event_ns commission))
          j
        ≡ (if key == j
            then Option.map
                (λ r. updated r status cumulative last_price exchange_id event_ns commission)
                (get o j)
            else get o j)
  unfolding apply_update
  get-update o key j status cumulative last_price exchange_id event_ns commission v =
      elim (Option-cases (find key o.index)) [
        | inl e ↦ rw (e, apply_update) (unknown e)
        | inr (slot, e) ↦
            rw (e, apply_update)
              (get-set o.slots o.index o.free_list key slot j _ v e ∙ known slot e)
      ]
    where
      change : OrderRecord W → OrderRecord W
      change r = updated r status cumulative last_price exchange_id event_ns commission

      unknown :
          find key o.index ≡ none
          → get o j ≡ (if key == j then Option.map change (get o j) else get o j)
      unknown e = elim (ℕ_discrete key j) [
        | yes same ↦ rw (==_eq key j same, ← same, get-of_none o key e)
        | no ne ↦ rw (==_ne key j ne)
      ]

      known :
          (slot : ℕ)
          → find key o.index ≡ some slot
          → (if key == j then some (change (get_or o.slots slot blank)) else get o j)
            ≡ (if key == j then Option.map change (get o j) else get o j)
      known slot e = elim (ℕ_discrete key j) [
        | yes same ↦ rw (==_eq key j same, ← same, get-of_find o key slot e)
        | no ne ↦ rw (==_ne key j ne)
      ]

  get-store :
      (slots : List (OrderRecord W)) (index : List (ℕ × ℕ)) (free : List ℕ) (key j : ℕ)
      (rec : OrderRecord W)
      → IsSound (length slots) index free
      → let o : Oms W = record { slots = slots; index = index; free_list = free } in
        get (store_record o key rec) j ≡ (if key == j then some rec else get o j)
  unfolding store_record
  get-store slots index [] key j rec v =
      get-set (slots ++ blank ∷ []) (assign key (length slots) index) [] key (length slots) j rec
        (rw (length-append slots (blank ∷ [])) (fresh-IsSound (length slots) index key v))
        (find-assign_self key (length slots) index)
      ∙ others (ℕ_discrete key j)
    where
      others :
          Dec (key ≡ j)
          → (if key == j
              then some rec
              else get
                  (record {
                    slots = slots ++ blank ∷ [];
                    index = assign key (length slots) index;
                    free_list = [];
                  })
                  j)
            ≡ (if key == j
                then some rec
                else get (record { slots = slots; index = index; free_list = [] }) j)
      others (yes e) = rw (==_eq key j e)
      others (no ne) = rw (==_ne key j ne) (
          get-assign _ index [] [] key (length slots) j ne ∙ get-append slots index [] [] j blank v)
  get-store slots index (s ∷ free) key j rec v =
      get-set slots (assign key s index) free key s j rec
        (reused-IsSound (length slots) index s free key v) (find-assign_self key s index)
      ∙ others (ℕ_discrete key j)
    where
      others :
          Dec (key ≡ j)
          → (if key == j
              then some rec
              else get (record { slots = slots; index = assign key s index; free_list = free }) j)
            ≡ (if key == j
                then some rec
                else get (record { slots = slots; index = index; free_list = s ∷ free }) j)
      others (yes e) = rw (==_eq key j e)
      others (no ne) = rw (==_ne key j ne) (get-assign slots index free (s ∷ free) key s j ne)

  -- After `register_new_order` the key of the new order leads to its record, in state PendingNew;
  -- what every other key leads to is unchanged.
  pub get-register :
      (o : Oms W) (id symbol : Text) (side : Side) (price qty : W) (now mono : ℤ) (j : ℕ)
      → Inv o
      → get (register_new_order o id symbol side price qty now mono).1 j
        ≡ (if fnv1a64 id == j then some (new_record id symbol side price qty now mono) else get o j)
  unfolding register_new_order
  get-register o id symbol side price qty now mono j v =
      get-store o.slots o.index o.free_list (fnv1a64 id) j _ v
