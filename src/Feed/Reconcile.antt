-- ===== src/Feed/Reconcile.antt =====
-- The reconciliation after a reconnect: what it leaves alone and what it recovers.
use holographic_market.Base.{
  ℕ, ◌≡◌, refl, sym, ap, ◌∙◌, subst, true, false, List, [], ◌∷◌, Option, none, some, inl, inr,
  Bool-cases, Option-cases, ◌==◌, ==_refl, ==_ne, ℕ_discrete,
}
use holographic_market.Base.Int.{ℤ, pos, ◌-ℤ◌}
use holographic_market.Base.Double.{Double, IsOrdered}
use holographic_market.Oms.Order.{OrderStatus, Text, OrderRecord, view, fnv1a64}
use holographic_market.Oms.Core.{
  Oms, get, get_stale_orders, is_stale, Op, registers, updates, releases, step, run,
}
use holographic_market.Oms.Inv.{Inv}
use holographic_market.Oms.Runs.{get-update, step-Inv}
use holographic_market.Oms.Fills.{AllKeep, Advanced, run-Advanced, updated-fill}
use holographic_market.Oms.Stale.{Has, get_stale_orders-Has}
use holographic_market.Feed.{
  Json, OrderLookup, map_status, apply_lookup, lookup, reconcile_single_order, reconcile_each,
  reconcile_open_orders, open_orders, still_open_keys, counts, reconcile_live,
}
use holographic_market.Feed.Updates.{
  AllUpdates, Driven, Driven-refl, Driven-trans, apply_lookup-Driven,
}

module _ {W : Type 0} ⦃d : Double W⦄ where
  run-Inv_from : (o : Oms W) (ops : List (Op W)) → Inv o → Inv (run o ops)
  unfolding run
  run-Inv_from o [] v = v
  run-Inv_from o (op ∷ ops) v = run-Inv_from (step o op) ops (step-Inv o op v)

  pub Driven-Inv : (o o' : Oms W) → Driven o o' → Inv o → Inv o'
  Driven-Inv o o' (ops, u, e) v = subst Inv e (run-Inv_from o ops v)

  AllUpdates-AllKeep : (j : ℕ) (ops : List (Op W)) → AllUpdates ops → AllKeep j ops
  AllUpdates-AllKeep j [] u = tt
  AllUpdates-AllKeep j (registers id symbol side price qty now mono ∷ ops) u = absurd u.0
  AllUpdates-AllKeep j (releases key ∷ ops) u = absurd u.0
  AllUpdates-AllKeep j (updates k s c l x n m ∷ ops) u = (tt, AllUpdates-AllKeep j ops u.1)

  pub Driven-Advanced :
      (laws : IsOrdered W) (o o' : Oms W) (j : ℕ) (r : OrderRecord W)
      → Driven o o'
      → Inv o
      → get o j ≡ some r
      → Advanced r (get o' j)
  Driven-Advanced laws o o' j r (ops, u, e) v at =
      subst (λ t. Advanced r (get t j)) e
        (run-Advanced laws ops o j r v (AllUpdates-AllKeep j ops u) at)

  -- The status of an order that may be unknown.
  abbrev pub HasStatus : OrderStatus → Option (OrderRecord W) → Type 0
  HasStatus s none = ⊥
  HasStatus s (some r) = r.status ≡ s

-- The key that reconciliation computes from a record.
abbrev pub key_of : {W : Type 0} → OrderRecord W → ℕ
key_of r = fnv1a64 (view r.client_order_id)

module _ {J W : Type 0} ⦃d : Double W⦄ (json : Json J) (from_chars : Text → Option W)
    (rest : Text → Text → Option Text) (now : ℕ → ℤ) where
  single-Driven :
      (o : Oms W) (symbol id : Text) (key : ℕ)
      → Driven o (reconcile_single_order json from_chars rest now o symbol id key)
  unfolding reconcile_single_order
  single-Driven o symbol id key = elim (Option-cases (lookup json rest symbol id)) [
    | inl e ↦ rw (e, reconcile_single_order) (Driven-refl o)
    | inr (u, e) ↦ rw (e, reconcile_single_order) (apply_lookup-Driven from_chars o key (now key) u)
  ]

  -- One turn's lookup.
  abbrev single : Oms W → OrderRecord W → Oms W
  single o r =
      reconcile_single_order json from_chars rest now o (view r.symbol) (view r.client_order_id)
        (key_of r)

  each-Driven :
      (keys : List ℕ) (o : Oms W) (live : List (OrderRecord W))
      → Driven o (reconcile_each json from_chars rest now keys o live)
  unfolding reconcile_each
  each-Driven keys o [] = Driven-refl o
  each-Driven keys o (r ∷ live) = elim (Bool-cases (counts (key_of r) keys)) [
    | inl e ↦ rw e (each-Driven keys o live)
    | inr e ↦ rw e (
        Driven-trans o _ _ (single-Driven o (view r.symbol) (view r.client_order_id) (key_of r))
          (each-Driven keys (single o r) live))
  ]

  live-Driven :
      (o : Oms W) (live : List (OrderRecord W))
      → Driven o (reconcile_live json from_chars rest now o live)
  live-Driven o [] = Driven-refl o
  live-Driven o (r ∷ live) = elim (Option-cases (open_orders json rest)) [
    | inl e ↦ rw (e, reconcile_live) (Driven-refl o)
    | inr (doc, e) ↦ rw (e, reconcile_live) (each-Driven (still_open_keys json doc) o (r ∷ live))
  ]

  pub reconcile-Driven :
      (o : Oms W) (mono : ℤ) → Driven o (reconcile_open_orders json from_chars rest now o mono)
  unfolding reconcile_open_orders
  reconcile-Driven o mono = live-Driven o (get_stale_orders o mono (pos 0))

  single-Inv : (o : Oms W) (r : OrderRecord W) → Inv o → Inv (single o r)
  single-Inv o r =
      Driven-Inv o (single o r)
        (single-Driven o (view r.symbol) (view r.client_order_id) (key_of r))

  -- One lookup leaves the orders of other keys alone.
  single-get :
      (o : Oms W) (symbol id : Text) (key j : ℕ)
      → Inv o
      → (key == j) ≡ false
      → get (reconcile_single_order json from_chars rest now o symbol id key) j ≡ get o j
  unfolding reconcile_single_order apply_lookup
  single-get o symbol id key j v ne = elim (Option-cases (lookup json rest symbol id)) [
    | inl e ↦ rw (e, reconcile_single_order) refl
    | inr (u, e) ↦
        rw (e, reconcile_single_order, apply_lookup)
          (get-update o key j _ _ _ _ (now key) _ v ∙ rw ne refl)
  ]

  -- A lookup that is answered sets the status of its order.
  single-status :
      (o : Oms W) (symbol id : Text) (key : ℕ) (r : OrderRecord W) (u : OrderLookup)
      → Inv o
      → get o key ≡ some r
      → lookup json rest symbol id ≡ some u
      → HasStatus
          (map_status u.status_str)
          (get (reconcile_single_order json from_chars rest now o symbol id key) key)
  unfolding reconcile_single_order apply_lookup
  single-status o symbol id key r u v at e =
      rw (e, reconcile_single_order, apply_lookup)
        (rw (get-update o key key _ _ _ _ (now key) _ v, ==_refl key, at)
          (updated-fill r _ _ _ _ (now key) _).4)

  -- Reconciliation does not touch an order that the venue still lists.
  each-kept :
      (keys : List ℕ) (o : Oms W) (live : List (OrderRecord W)) (j : ℕ)
      → Inv o
      → counts j keys ≡ true
      → get (reconcile_each json from_chars rest now keys o live) j ≡ get o j
  unfolding reconcile_each
  each-kept keys o [] j v listed = refl
  each-kept keys o (r ∷ live) j v listed = elim (Bool-cases (counts (key_of r) keys)) [
    | inl e ↦ rw e (each-kept keys o live j v listed)
    | inr e ↦ rw e (
        each-kept keys (single o r) live j (single-Inv o r v) listed
        ∙ single-get o (view r.symbol) (view r.client_order_id) (key_of r) j v
            (==_ne (key_of r) j (λ same. cc (e, ap (λ k. counts k keys) same, listed))))
  ]

  -- Each record of the key is answered with `u`.
  abbrev pub AllAnswer : ℕ → OrderLookup → List (OrderRecord W) → Type 0
  AllAnswer j u [] = Unit {0}
  AllAnswer j u (r ∷ live) =
      (key_of r ≡ j → lookup json rest (view r.symbol) (view r.client_order_id) ≡ some u)
      × AllAnswer j u live

  -- The order of a record under the key being looked for.
  single_at :
      (o : Oms W) (x : OrderRecord W) (j : ℕ) (r : OrderRecord W) (u : OrderLookup)
      → Inv o
      → get o j ≡ some r
      → key_of x ≡ j
      → (key_of x ≡ j → lookup json rest (view x.symbol) (view x.client_order_id) ≡ some u)
      → HasStatus (map_status u.status_str) (get (single o x) j)
  single_at o x j r u v at same answer =
      subst (λ k. HasStatus (map_status u.status_str) (get (single o x) k)) same
        (single-status o (view x.symbol) (view x.client_order_id) (key_of x) r u v
          (ap (get o) same ∙ at) (answer same))

  HasStatus-known :
      (s : OrderStatus) (g : Option (OrderRecord W))
      → HasStatus s g
      → (r : OrderRecord W) × (g ≡ some r)
  HasStatus-known s none h = absurd h
  HasStatus-known s (some r) h = (r, refl)

  each-stays :
      (keys : List ℕ) (o : Oms W) (live : List (OrderRecord W)) (j : ℕ) (u : OrderLookup)
      → Inv o
      → HasStatus (map_status u.status_str) (get o j)
      → AllAnswer j u live
      → HasStatus
          (map_status u.status_str)
          (get (reconcile_each json from_chars rest now keys o live) j)
  unfolding reconcile_each
  each-stays keys o [] j u v h all = h
  each-stays keys o (x ∷ live) j u v h (answer, all) = elim (Bool-cases (counts (key_of x) keys)) [
    | inl e ↦ rw e (each-stays keys o live j u v h all)
    | inr e ↦ rw e (each-stays keys (single o x) live j u (single-Inv o x v) next all)
  ]
    where
      next : HasStatus (map_status u.status_str) (get (single o x) j)
      next = elim (ℕ_discrete (key_of x) j) [
        | yes same ↦
            let (r, at) = HasStatus-known (map_status u.status_str) (get o j) h in
            single_at o x j r u v at same answer
        | no other ↦
            subst (HasStatus (map_status u.status_str))
              (sym (
                single-get o (view x.symbol) (view x.client_order_id) (key_of x) j v
                  (==_ne (key_of x) j other)))
              h
      ]

  -- A record of the list whose key the venue does not list ends with the status it is answered.
  each-recovers :
      (keys : List ℕ) (o : Oms W) (live : List (OrderRecord W)) (r r' : OrderRecord W)
      (u : OrderLookup)
      → Inv o
      → get o (key_of r) ≡ some r'
      → counts (key_of r) keys ≡ false
      → Has r live
      → AllAnswer (key_of r) u live
      → HasStatus
          (map_status u.status_str)
          (get (reconcile_each json from_chars rest now keys o live) (key_of r))
  unfolding reconcile_each
  each-recovers keys o [] r r' u v at unlisted h all = absurd h
  each-recovers keys o (x ∷ live) r r' u v at unlisted h (answer, all) =
      elim (ℕ_discrete (key_of x) (key_of r)) [
        | yes same ↦ rw (ap (λ k. counts k keys) same ∙ unlisted) (
            each-stays keys (single o x) live (key_of r) u (single-Inv o x v)
              (single_at o x (key_of r) r' u v at same answer) all)
        | no other ↦ elim (Bool-cases (counts (key_of x) keys)) [
          | inl e ↦ rw e (each-recovers keys o live r r' u v at unlisted (later other) all)
          | inr e ↦ rw e (
              each-recovers keys (single o x) live r r' u (single-Inv o x v)
                (single-get o (view x.symbol) (view x.client_order_id) (key_of x) (key_of r) v
                    (==_ne (key_of x) (key_of r) other)
                  ∙ at)
                unlisted (later other) all)
        ]
      ]
    where
      later : ¬ (key_of x ≡ key_of r) → Has r live
      later other = elim h [ inl e ↦ absurd (other (ap key_of e)) | inr t ↦ t ]

  -- While the list of open orders is fetched and parsed: an order whose key it lists is left as it
  -- is.
  reconcile-kept :
      (o : Oms W) (mono : ℤ) (j : ℕ) (doc : J)
      → Inv o
      → open_orders json rest ≡ some doc
      → counts j (still_open_keys json doc) ≡ true
      → get (reconcile_open_orders json from_chars rest now o mono) j ≡ get o j
  unfolding reconcile_open_orders
  reconcile-kept o mono j doc v e listed = by_live (get_stale_orders o mono (pos 0))
    where
      by_live :
          (live : List (OrderRecord W))
          → get (reconcile_live json from_chars rest now o live) j ≡ get o j
      by_live [] = refl
      by_live (r ∷ live) =
          rw (e, reconcile_live) (each-kept (still_open_keys json doc) o (r ∷ live) j v listed)

  -- A live order that was registered before this instant and that the venue lists no more, when
  -- its lookup, like that of any other live order under its key, is answered with `u`: after the
  -- reconciliation the order is still known, and its status is the one that the answer maps to.
  pub reconcile-recovers :
      (o : Oms W) (mono : ℤ) (r : OrderRecord W) (doc : J) (u : OrderLookup)
      → Inv o
      → get o (key_of r) ≡ some r
      → is_stale (mono -ℤ pos 0) r ≡ true
      → open_orders json rest ≡ some doc
      → counts (key_of r) (still_open_keys json doc) ≡ false
      → AllAnswer (key_of r) u (get_stale_orders o mono (pos 0))
      → HasStatus
          (map_status u.status_str)
          (get (reconcile_open_orders json from_chars rest now o mono) (key_of r))
  unfolding reconcile_open_orders
  reconcile-recovers o mono r doc u v at stale e unlisted all =
      by_live (get_stale_orders o mono (pos 0))
        (get_stale_orders-Has o mono (pos 0) (key_of r) r at stale) all
    where
      by_live :
          (live : List (OrderRecord W))
          → Has r live
          → AllAnswer (key_of r) u live
          → HasStatus
              (map_status u.status_str)
              (get (reconcile_live json from_chars rest now o live) (key_of r))
      by_live [] h a = absurd h
      by_live (x ∷ live) h a =
          rw (e, reconcile_live)
            (each-recovers (still_open_keys json doc) o (x ∷ live) r r u v at unlisted h a)
