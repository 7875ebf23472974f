-- ===== src/Router/Tests.antt =====
-- A batch over the six edges of four instruments. Flows are whole numbers.
use holographic_market.Base.{◌≤◌, ◌≡◌, refl, List, [], ◌∷◌, length, map}
use holographic_market.Base.Int.{ℤ, pos, negsuc}
use holographic_market.Base.Double.{whole}
use holographic_market.Router.{
  top_k, Metrics, Signal, route, fill_slots, best_from, eligible, is_used, routed,
}
use holographic_market.Router.Disjoint.{Apart, route-Apart}

abbrev sources : List ℤ
sources = pos 0 ∷ pos 0 ∷ pos 0 ∷ pos 1 ∷ pos 1 ∷ pos 2 ∷ []

abbrev targets : List ℤ
targets = pos 1 ∷ pos 2 ∷ pos 3 ∷ pos 2 ∷ pos 3 ∷ pos 3 ∷ []

abbrev flows : List ℤ
flows = pos 12 ∷ negsuc 29 ∷ pos 25 ∷ pos 3 ∷ pos 11 ∷ pos 20 ∷ []

abbrev signal : Signal ℤ
signal = record { action = pos 50; timestamp_ns = 9 }

abbrev none_yet : Metrics
none_yet = record { signals_processed = 0; edges_routed = 0; signals_suppressed = 0 }

-- The strongest edge is 0-2, of flow -30; of those left, 1-3 alone touches neither.
picked_lem :
    map (λ r. r.edge_index) (route (pos 10) none_yet signal flows sources targets).0 ≡ 1 ∷ 4 ∷ []
unfolding route fill_slots best_from eligible is_used routed
picked_lem = refl

route-Apart_example :
    let out = (route (pos 10) none_yet signal flows sources targets).0 in
    Apart out × (length out ≤ top_k)
route-Apart_example = route-Apart (pos 10) none_yet signal flows sources targets
