-- ===== src/Gateway/Streams.antt =====
-- The two streams of the venue: the messages and reconciliations of the user data feed, and the
-- answers on the order socket. Both change orders of one order manager.
use holographic_market.Base.{ℕ, ◌≡◌, List, [], ◌∷◌, Option, some}
use holographic_market.Base.Int.{ℤ}
use holographic_market.Base.Double.{Double, IsOrdered}
use holographic_market.Oms.Order.{Text, OrderRecord}
use holographic_market.Oms.Core.{Oms, get}
use holographic_market.Oms.Inv.{Inv}
use holographic_market.Oms.Fills.{Advanced}
use holographic_market.Feed.{Json}
use holographic_market.Feed.Updates.{Driven, Driven-refl, Driven-trans}
use holographic_market.Feed.Reconcile.{Driven-Inv, Driven-Advanced}
use holographic_market.Feed.Session.{FeedStep, feed_step, feed_step-Driven}
use holographic_market.Gateway.{Gateway, handle_ack}
use holographic_market.Gateway.Acks.{handle_ack-Driven}

-- A step of the feed, or an answer that the gateway gets in some state.
pub data StreamStep : Type 0 where
  feeds : FeedStep → StreamStep
  answers : (g : Gateway) (now : ℤ) (text : Text) → StreamStep

module _ {J W : Type 0} ⦃d : Double W⦄ (json : Json J) (from_chars : Text → Option W)
    (id_from_chars : Text → Option ℕ) where
  unfoldable pub stream_step : Oms W → StreamStep → Oms W
  stream_step o (feeds s) = feed_step json from_chars o s
  stream_step o (answers g now text) = (handle_ack json id_from_chars g o now text).1

  unfoldable pub streams : Oms W → List StreamStep → Oms W
  unfolding stream_step
  streams o [] = o
  streams o (s ∷ steps) = streams (stream_step o s) steps

  stream_step-Driven : (o : Oms W) (s : StreamStep) → Driven o (stream_step o s)
  unfolding stream_step
  stream_step-Driven o (feeds s) = feed_step-Driven json from_chars o s
  stream_step-Driven o (answers g now text) = handle_ack-Driven json id_from_chars g o now text

  streams-Driven : (o : Oms W) (steps : List StreamStep) → Driven o (streams o steps)
  unfolding streams
  streams-Driven o [] = Driven-refl o
  streams-Driven o (s ∷ steps) =
      Driven-trans o (stream_step o s) (streams (stream_step o s) steps) (stream_step-Driven o s)
        (streams-Driven (stream_step o s) steps)

  -- Whatever the venue sends on its two streams, in any interleaving and over any number of
  -- connections, where the order of doubles is irreflexive, asymmetric and transitive: the slots of
  -- the order manager stay sound, and an order that it knows stays known, keeps its side and size,
  -- and never has its filled quantity go back.
  pub streams-Advanced :
      (laws : IsOrdered W) (o : Oms W) (steps : List StreamStep) (j : ℕ) (r : OrderRecord W)
      → Inv o
      → get o j ≡ some r
      → Inv (streams o steps) × Advanced r (get (streams o steps) j)
  streams-Advanced laws o steps j r v at = (
    Driven-Inv o (streams o steps) (streams-Driven o steps) v,
    Driven-Advanced laws o (streams o steps) j r (streams-Driven o steps) v at,
  )
