-- ===== src/Oms/Fills.antt =====
-- The fill of an order never goes back, whatever the venue sends.
use holographic_market.Base.{
  ℕ, ◌≡◌, ◌≢◌, refl, sym, ◌∙◌, subst, true, false, List, [], ◌∷◌, Option, none, some, arith, ◌⊎◌,
  inl, inr, Bool-cases, ◌==◌, if◌then◌else◌, ==_ne,
}
use holographic_market.Base.Int.{ℤ}
use holographic_market.Base.Double.{Double, IsOrdered, ◌<?◌}
use holographic_market.Oms.Order.{OrderStatus, OrderRecord, fnv1a64}
use holographic_market.Oms.Core.{Oms, updated, get, Op, registers, updates, releases, step, run}
use holographic_market.Oms.Inv.{Inv}
use holographic_market.Oms.Runs.{step-Inv, get-update, get-register, get-release}

module _ {W : Type 0} ⦃d : Double W⦄ where
  -- `y` is `x`, or greater.
  abbrev pub AtLeast : W → W → Type 0
  AtLeast x y = (x ≡ y) ⊎ ((x <? y) ≡ true)

  pub AtLeast-trans : IsOrdered W → (x y z : W) → AtLeast x y → AtLeast y z → AtLeast x z
  AtLeast-trans laws x y z (inl p) h = subst (λ t. AtLeast t z) (sym p) h
  AtLeast-trans laws x y z (inr p) (inl q) = inr (subst (λ t. (x <? t) ≡ true) q p)
  AtLeast-trans laws x y z (inr p) (inr q) = inr (laws.lt_trans x y z p q)

  -- One update: the filled quantity is the venue's if that is greater, and stays otherwise; the
  -- average price changes only with it.
  pub updated-fill :
      (r : OrderRecord W) (status : OrderStatus) (cumulative last_price : W)
      (exchange_id event_ns : ℤ) (commission : W)
      → let r' = updated r status cumulative last_price exchange_id event_ns commission in
        (r'.filled_qty ≡ (if r.filled_qty <? cumulative then cumulative else r.filled_qty))
        × (((r.filled_qty <? cumulative) ≡ false) → r'.avg_fill_price ≡ r.avg_fill_price)
        × (r'.qty ≡ r.qty)
        × (r'.side ≡ r.side)
        × (r'.status ≡ status)
  unfolding updated
  updated-fill r status cumulative last_price exchange_id event_ns commission = ground arith

  updated-AtLeast :
      (r : OrderRecord W) (status : OrderStatus) (cumulative last_price : W)
      (exchange_id event_ns : ℤ) (commission : W)
      → AtLeast r.filled_qty
          (updated r status cumulative last_price exchange_id event_ns commission).filled_qty
  unfolding updated
  updated-AtLeast r status cumulative last_price exchange_id event_ns commission = ground arith

  -- The call neither registers nor releases the order of key `j`.
  abbrev pub Keeps : ℕ → Op W → Type 0
  Keeps j (registers id symbol side price qty now mono) = fnv1a64 id ≢ j
  Keeps j (updates key status cumulative last_price exchange_id event_ns commission) = Unit {0}
  Keeps j (releases key) = key ≢ j

  abbrev pub AllKeep : ℕ → List (Op W) → Type 0
  AllKeep j [] = Unit {0}
  AllKeep j (op ∷ ops) = Keeps j op × AllKeep j ops

  -- The order of key `j` is known, and at least as filled as `r`, with its side and size.
  abbrev pub Advanced : OrderRecord W → Option (OrderRecord W) → Type 0
  Advanced r none = ⊥
  Advanced r (some r') = AtLeast r.filled_qty r'.filled_qty × (r'.qty ≡ r.qty) × (r'.side ≡ r.side)

  Advanced-trans :
      IsOrdered W
      → (r r' : OrderRecord W) (o : Option (OrderRecord W)) → Advanced r (some r')
      → Advanced r' o
      → Advanced r o
  Advanced-trans laws r r' none a b = b
  Advanced-trans laws r r' (some r'') a b =
      (AtLeast-trans laws r.filled_qty r'.filled_qty r''.filled_qty a.0 b.0, b.1 ∙ a.1, b.2 ∙ a.2)

  Advanced-refl : (r : OrderRecord W) → Advanced r (some r)
  Advanced-refl r = (inl refl, refl, refl)

  step-Advanced :
      (o : Oms W) (op : Op W) (j : ℕ) (r : OrderRecord W)
      → Inv o
      → Keeps j op
      → get o j ≡ some r
      → Advanced r (get (step o op) j)
  unfolding step
  step-Advanced o (registers id symbol side price qty now mono) j r v ne at =
      rw (get-register o id symbol side price qty now mono j v, ==_ne (fnv1a64 id) j ne, at)
        (Advanced-refl r)
  step-Advanced o (releases key) j r v ne at =
      rw (get-release o key j v, ==_ne key j ne, at) (Advanced-refl r)
  step-Advanced o (updates key status cumulative last_price exchange_id event_ns commission) j r v
        ok at =
      rw (get-update o key j status cumulative last_price exchange_id event_ns commission v, at)
        (either (Bool-cases (key == j)))
    where
      r' : OrderRecord W
      r' = updated r status cumulative last_price exchange_id event_ns commission

      either :
          ((key == j) ≡ true) ⊎ ((key == j) ≡ false)
          → Advanced r (if key == j then some r' else some r)
      either (inl e) = rw e (
        updated-AtLeast r status cumulative last_price exchange_id event_ns commission,
        (updated-fill r status cumulative last_price exchange_id event_ns commission).2,
        (updated-fill r status cumulative last_price exchange_id event_ns commission).3,
      )
      either (inr e) = rw e (Advanced-refl r)

  -- Through any calls that neither register nor release an order, its updates in any order and
  -- number included, the order stays known, keeps its side and size, and its filled quantity is
  -- never lower than before.
  pub run-Advanced :
      (laws : IsOrdered W) (ops : List (Op W)) (o : Oms W) (j : ℕ) (r : OrderRecord W)
      → Inv o
      → AllKeep j ops
      → get o j ≡ some r
      → Advanced r (get (run o ops) j)
  unfolding run
  run-Advanced laws [] o j r v ok at = rw at (Advanced-refl r)
  run-Advanced laws (op ∷ ops) o j r v ok at =
      onward (get (step o op) j) refl
        (λ r' e. run-Advanced laws ops (step o op) j r' (step-Inv o op v) ok.1 e)
    where
      onward :
          (g : Option (OrderRecord W))
          → get (step o op) j ≡ g
          → ((r' : OrderRecord W)
              → get (step o op) j ≡ some r'
              → Advanced r' (get (run (step o op) ops) j))
          → Advanced r (get (run (step o op) ops) j)
      onward none e rest = absurd (subst (Advanced r) e (step-Advanced o op j r v ok.0 at))
      onward (some r') e rest =
          Advanced-trans laws r r' (get (run (step o op) ops) j)
            (subst (Advanced r) e (step-Advanced o op j r v ok.0 at)) (rest r' e)
