-- ===== src/Router.antt =====
-- engine/net/signal_router.hpp: the edges that a signal is routed to, strongest first.
-- `active_threshold()` is an environment variable: an argument, the same throughout a call.
pub mod Disjoint
pub mod Range
mod Tests
use holographic_market.Base.{
  ℕ, zero, suc, ◌+◌, ◌-◌, ◌%◌, ◌^◌, Bool, true, false, not, ◌&&◌, ◌||◌, List, [], ◌∷◌, Option, none,
  some, ltb, ◌==◌, if◌then◌else◌, length, get_or,
}
use holographic_market.Base.Int.{ℤ, pos, negsuc}
use holographic_market.Base.Double.{Double, ◌<?◌, magnitude}

abbrev pub top_k : ℕ
top_k = 3

-- `static_cast<std::uint32_t>` of an int.
abbrev pub to_u32 : ℤ → ℕ
to_u32 (pos n) = n % 2 ^ 32
to_u32 (negsuc n) = 2 ^ 32 - 1 - n % 2 ^ 32

pub record RoutedEdge (W : Type 0) : Type 0 where
  pub src_instrument : ℕ
  pub dst_instrument : ℕ
  pub harmonic_flow : W
  pub yang_mills_action : W
  pub signal_ts_ns : ℕ
  pub edge_index : ℕ

pub record Metrics : Type 0 where
  pub signals_processed : ℕ
  pub edges_routed : ℕ
  pub signals_suppressed : ℕ

-- The fields of `cuda::SignalRecord` that are read.
pub record Signal (W : Type 0) : Type 0 where
  pub action : W
  pub timestamp_ns : ℕ

-- The first `n_used` entries of `used_instruments`, last one first.
unfoldable pub is_used : List ℕ → ℕ → Bool
is_used [] instr = false
is_used (u ∷ used) instr = (u == instr) || is_used used instr

module _ {W : Type 0} ⦃d : Double W⦄ where
  -- The tests by which the inner loop passes over an edge, negated.
  unfoldable pub eligible : W → List ℤ → List ℤ → List ℕ → ℕ → W → Bool
  eligible threshold srcs dsts used e flow =
      not (magnitude flow <? threshold)
      && (ltb e (length srcs) && ltb e (length dsts))
      && (not (is_used used (to_u32 (get_or srcs e (pos 0))))
          && not (is_used used (to_u32 (get_or dsts e (pos 0)))))

  -- `!found || af > best_af`
  abbrev pub beats : W → Option (ℕ × W) → Bool
  beats af none = true
  beats af (some (i, best)) = best <? af

  -- The inner loop, from edge `e` on: the index and the strength of the best edge, if one is found.
  unfoldable pub best_from :
      W → List ℤ → List ℤ → List ℕ → ℕ → List W → Option (ℕ × W) → Option (ℕ × W)
  best_from threshold srcs dsts used e [] best = best
  best_from threshold srcs dsts used e (flow ∷ flows) best =
      let af = magnitude flow in
      best_from threshold srcs dsts used (suc e) flows
        (if eligible threshold srcs dsts used e flow && beats af best then some (e, af) else best)

  unfoldable pub routed : Signal W → List ℤ → List ℤ → List W → ℕ → RoutedEdge W
  routed sig srcs dsts flows e = record {
    src_instrument = to_u32 (get_or srcs e (pos 0));
    dst_instrument = to_u32 (get_or dsts e (pos 0));
    harmonic_flow = get_or flows e d.nought;
    yang_mills_action = sig.action;
    signal_ts_ns = sig.timestamp_ns;
    edge_index = e % 2 ^ 32;
  }

  -- The outer loop over `slots` output slots.
  unfoldable pub fill_slots :
      ℕ → W → Signal W → List ℤ → List ℤ → List W → List ℕ → List (RoutedEdge W)
  fill_slots zero threshold sig srcs dsts flows used = []
  fill_slots (suc slots) threshold sig srcs dsts flows used =
      elim (best_from threshold srcs dsts used 0 flows none) [
        | none ↦ []
        | some (e, af) ↦
            let r = routed sig srcs dsts flows e in
            r
            ∷ fill_slots slots threshold sig srcs dsts flows
                (r.dst_instrument ∷ r.src_instrument ∷ used)
      ]

  -- What is written to the buffer, and the metrics after the call.
  unfoldable pub route :
      W → Metrics → Signal W → List W → List ℤ → List ℤ → List (RoutedEdge W) × Metrics
  route threshold m sig flows srcs dsts =
      let m1 = record m { signals_processed = (m.signals_processed + 1) % 2 ^ 64 } in
      let out = fill_slots top_k threshold sig srcs dsts flows [] in
      if sig.action <? threshold
      then ([], record m1 { signals_suppressed = (m.signals_suppressed + 1) % 2 ^ 64 })
      else (if length flows == 0
          then ([], m1)
          else (out, record m1 { edges_routed = (m.edges_routed + length out) % 2 ^ 64 }))
