-- ===== src/Engine/Orders/Routing.antt =====
-- Each update of an order reaches the channel that waits for it, and no other.
use holographic_market.Base.{
  ℕ, ◌≡◌, ◌≢◌, sym, ap, ◌∙◌, some, arith, subst, List, true, false, ◌==◌, if◌then◌else◌, Bool-cases,
  inl, inr,
}
use holographic_market.Base.Int.{ℤ}
use holographic_market.Base.Double.{Double}
use holographic_market.Oms.Index
use holographic_market.Oms.Index.{find-assign_self, find-assign_ne}
use holographic_market.Oms.Order.{OrderStatus, OrderRecord, make_client_id, fnv1a64, view}
use holographic_market.Oms.Core.{updated}
use holographic_market.Engine.State.{Engine, Channels}
use holographic_market.Engine.Breaker.{count_reject}
use holographic_market.Engine.Orders.{client_id, deliver, dispatch_update}
use holographic_market.Engine.Orders.Ids.{client_id-kept}

module _ {W : Type 0} ⦃d : Double W⦄ (ch : Channels W) where
  updated-id :
      (r : OrderRecord W) (status : OrderStatus) (cumulative last_price : W)
      (exchange_id event_ns : ℤ) (commission : W)
      → (updated r status cumulative last_price exchange_id event_ns commission).client_order_id
        ≡ r.client_order_id
  unfolding updated
  updated-id r status cumulative last_price exchange_id event_ns commission = ground arith

  test_eq : (j k : ℕ) → (j == k) ≡ true → j ≡ k
  test_eq j k h = ground arith

  test_ne : (j k : ℕ) → (j == k) ≡ false → j ≢ k
  test_ne j k h = ground arith

  find-assign :
      {V : Type 0}
      → (j k : ℕ) (v : V) (m : List (ℕ × V))
      → Index.find j (Index.assign k v m) ≡ (if j == k then some v else Index.find j m)
  find-assign j k v m = elim (Bool-cases (j == k)) [
    | inl e ↦ rw e (
        subst (λ i. Index.find i (Index.assign k v m) ≡ some v) (sym (test_eq j k e))
          (find-assign_self k v m))
    | inr e ↦ rw e (find-assign_ne k j v m (λ same. absurd (test_ne j k e same)))
  ]

  deliver-to :
      (e : Engine W ch.Chan) (rec : OrderRecord W) (key : ℕ) (c : ch.Chan)
      → fnv1a64 (view rec.client_order_id) ≡ key
      → Index.find key e.waiters ≡ some c
      → (deliver ch e rec).waiters ≡ Index.assign key (ch.try_send c rec).1 e.waiters
  unfolding deliver
  deliver-to e rec key c same at =
      rw (deliver, ap (λ k. Index.find k e.waiters) same ∙ at)
        (ap (λ k. Index.assign k (ch.try_send c rec).1 e.waiters) same)

  -- An update of an order that the engine made, from the record in the OMS: the channel registered
  -- under the order's key is sent exactly the record updated, and every other channel stays.
  pub update-delivered :
      (e : Engine W ch.Chan) (seq : ℕ) (c : ch.Chan) (r : OrderRecord W) (status : OrderStatus)
      (cumulative last_price : W) (exchange_id event_ns : ℤ) (commission : W)
      → r.client_order_id ≡ make_client_id (client_id seq)
      → Index.find (fnv1a64 (client_id seq)) e.waiters ≡ some c
      → (j : ℕ)
      → let r' = updated r status cumulative last_price exchange_id event_ns commission in
        Index.find j (dispatch_update ch e r').waiters ≡ (
          if j == fnv1a64 (client_id seq)
          then some (ch.try_send c r').1
          else Index.find j e.waiters)
  unfolding dispatch_update
  update-delivered e seq c r status cumulative last_price exchange_id event_ns commission made at
        j =
      let key = fnv1a64 (client_id seq) in
      let r' = updated r status cumulative last_price exchange_id event_ns commission in
      let c' = (ch.try_send c r').1 in
      let sent =
        deliver-to (record e { switches = count_reject e.switches r'.status }) r' key c
          (ap (λ b. fnv1a64 (view b))
              (updated-id r status cumulative last_price exchange_id event_ns commission ∙ made)
            ∙ (client_id-kept seq).1)
          at in
      ap (Index.find j) sent ∙ find-assign j key c' e.waiters
