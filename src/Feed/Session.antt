-- ===== src/Feed/Session.antt =====
-- Any number of connections: reconciliations and messages in any order, with any answers of the
-- venue.
use holographic_market.Base.{ℕ, ◌≡◌, List, [], ◌∷◌, Option, some}
use holographic_market.Base.Int.{ℤ}
use holographic_market.Base.Double.{Double, IsOrdered}
use holographic_market.Oms.Order.{Text, OrderRecord}
use holographic_market.Oms.Core.{Oms, get}
use holographic_market.Oms.Inv.{Inv}
use holographic_market.Oms.Fills.{Advanced}
use holographic_market.Feed.{Json, reconcile_open_orders, handle_message}
use holographic_market.Feed.Updates.{Driven, Driven-refl, Driven-trans, handle_message-Driven}
use holographic_market.Feed.Reconcile.{reconcile-Driven, Driven-Inv, Driven-Advanced}

-- What a connection does to the order manager: once connected, the reconciliation, with the
-- answers of the REST calls and the clocks of that moment; then one message at a time.
pub data FeedStep : Type 0 where
  connects : (rest : Text → Text → Option Text) (now : ℕ → ℤ) (mono : ℤ) → FeedStep
  receives : (text : Text) → FeedStep

module _ {J W : Type 0} ⦃d : Double W⦄ (json : Json J) (from_chars : Text → Option W) where
  unfoldable pub feed_step : Oms W → FeedStep → Oms W
  feed_step o (connects rest now mono) = reconcile_open_orders json from_chars rest now o mono
  feed_step o (receives text) = (handle_message json from_chars o text).oms

  unfoldable pub feed : Oms W → List FeedStep → Oms W
  unfolding feed_step
  feed o [] = o
  feed o (s ∷ steps) = feed (feed_step o s) steps

  pub feed_step-Driven : (o : Oms W) (s : FeedStep) → Driven o (feed_step o s)
  unfolding feed_step
  feed_step-Driven o (connects rest now mono) = reconcile-Driven json from_chars rest now o mono
  feed_step-Driven o (receives text) = handle_message-Driven json from_chars o text

  -- Whatever the venue sends and answers, over any number of connections, the feed comes to some
  -- sequence of `apply_update` calls: it neither registers nor releases an order.
  pub feed-Driven : (o : Oms W) (steps : List FeedStep) → Driven o (feed o steps)
  unfolding feed
  feed-Driven o [] = Driven-refl o
  feed-Driven o (s ∷ steps) =
      Driven-trans o (feed_step o s) (feed (feed_step o s) steps) (feed_step-Driven o s)
        (feed-Driven (feed_step o s) steps)

  -- Whatever the venue sends and answers, over any number of connections: the slots of the order
  -- manager stay sound, and an order that it knows stays known, keeps its side and size, and never
  -- has its filled quantity go back.
  feed-Advanced :
      (laws : IsOrdered W) (o : Oms W) (steps : List FeedStep) (j : ℕ) (r : OrderRecord W)
      → Inv o
      → get o j ≡ some r
      → Inv (feed o steps) × Advanced r (get (feed o steps) j)
  feed-Advanced laws o steps j r v at = (
    Driven-Inv o (feed o steps) (feed-Driven o steps) v,
    Driven-Advanced laws o (feed o steps) j r (feed-Driven o steps) v at,
  )
