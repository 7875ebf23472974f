-- ===== src/Engine/Monitor/Cover.antt =====
-- What `monitor_pair` does about the exposure that the first leg has opened.
use holographic_market.Base.{
  ℕ, ◌≡◌, refl, true, false, List, [], ◌∷◌, ◌++◌, Option, none, some, ◌⊎◌,
}
use holographic_market.Base.Double.{Double, ◌≤?◌}
use holographic_market.Oms.Order.{Text, OrderRecord, filled, is_status, is_terminal, blank, fnv1a64}
use holographic_market.Oms.Core.{get}
use holographic_market.Engine.State.{Engine, Leg, Channels}
use holographic_market.Engine.Orders.{value_or}
use holographic_market.Engine.Signal.{Request, market, cancel}
use holographic_market.Engine.Monitor.{
  Answers, rest_of, hedge_remaining, abandon_run, await_authoritative, abandon, monitor_pair,
  either, wait_for_terminal, threw, Run,
}

module _ {W : Type 0} ⦃d : Double W⦄ (ch : Channels W) where
  -- A market order in the direction of the leg, for what `r` has left of it, is the last request.
  abbrev pub Ordered : OrderRecord W → Leg W → List (Request W) → Type 0
  Ordered r leg sent =
      (before : List (Request W)) × (id : Text) × (sent
        ≡ before ++ market id leg.symbol leg.side (rest_of r) ∷ [])

  -- The leg is filled, or nothing of it is left, or the rest is ordered at the market.
  abbrev pub Covered : OrderRecord W → Leg W → List (Request W) → Type 0
  Covered r leg sent =
      (is_status r.status filled ≡ true) ⊎ (((rest_of r ≤? d.tiny) ≡ true) ⊎ Ordered r leg sent)

  -- The authoritative record of the resting leg, if its race is lost to the timer.
  abbrev pub resting_record :
      Engine W ch.Chan → Text → Answers W ch.Chan → Option (OrderRecord W) → OrderRecord W
  resting_record e id a (some r) = r
  resting_record e id a none = (await_authoritative ch (a.during_cancel e) (fnv1a64 id) a).0

  -- A wait on a channel answers with the first message of a terminal status, if it answers.
  abbrev pub Waited : Option (OrderRecord W) → Type 0
  Waited none = Unit {0}
  Waited (some r) =
      (messages rest : List (OrderRecord W)) × (wait_for_terminal messages ≡ some (r, rest))

  -- The record is terminal, or the last one known when the timer of the cancel came first.
  abbrev pub Settled : Engine W ch.Chan → ℕ → Answers W ch.Chan → OrderRecord W → Type 0
  Settled e key a r =
      (is_terminal r.status ≡ true)
      ⊎ ((a.ack ≡ none) × (r ≡ value_or blank (get (a.during_ack e).oms key)))

  -- The race is lost to the timer, and the cancel request throws: it is all that is sent.
  abbrev pub Thrown :
      Text → Leg W → Answers W ch.Chan → Option (OrderRecord W) → Run W ch.Chan → Type 0
  Thrown id leg a race run =
      (race ≡ none)
      × (a.cancel_ok ≡ false)
      × (run.sent ≡ cancel leg.symbol id ∷ [])
      × (run.ending ≡ threw)

  -- The resting leg is settled and covered.
  abbrev pub Closed :
      Engine W ch.Chan
      → Text
      → Leg W
      → Answers W ch.Chan
      → Option (OrderRecord W)
      → Run W ch.Chan
      → Type 0
  Closed e id leg a race run =
      Settled (a.during_cancel e) (fnv1a64 id) a (resting_record e id a race)
      × Covered (resting_record e id a race) leg run.sent

  abandon-ignores :
      (e : Engine W ch.Chan) (key : ℕ) (id : Text) (leg : Leg W) (a : Answers W ch.Chan)
      (other : OrderRecord W)
      → abandon ch e key id leg (record a { first_rec = other }) ≡ abandon ch e key id leg a
  unfolding abandon abandon_run hedge_remaining await_authoritative
  abandon-ignores e key id leg a other = refl

  -- If the first leg has settled without being filled, its record counts for nothing: whatever it
  -- has filled in part is neither charged nor hedged, and the requests and the state afterwards
  -- are those of any other such record.
  pub monitor_pair-ignores :
      (e : Engine W ch.Chan) (id1 : Text) (leg1 : Leg W) (id2 : Text) (leg2 : Leg W)
      (a : Answers W ch.Chan) (other : OrderRecord W)
      → is_status a.first_rec.status filled ≡ false
      → is_status other.status filled ≡ false
      → monitor_pair ch e id1 leg1 id2 leg2 (record a { first_rec = other })
        ≡ monitor_pair ch e id1 leg1 id2 leg2 a
  unfolding monitor_pair
  monitor_pair-ignores e id1 leg1 id2 leg2 a other not_filled not_filled' =
      rw (not_filled, not_filled')
        (abandon-ignores (a.during_first e) (fnv1a64 (either ch a.first_is_1 id1 id2))
          (either ch a.first_is_1 id2 id1) (either ch a.first_is_1 leg2 leg1) a other)
