-- ===== src/Backtest/Loop.antt =====
-- `main`: the updates of the ring are applied one by one, and every batch of them is analysed.
-- `gpu` stands for `run_once` with the accessors of its last result: the next state of the
-- pipeline, the signal, and the topology, `none` when it has no edge or no flow.
pub mod Batches
use holographic_market.Base.{
  ℕ, ◌+◌, ◌%◌, ◌^◌, Bool, not, List, [], ◌∷◌, Option, none, some, ◌==◌, if◌then◌else◌,
}
use holographic_market.Base.Int.{ℤ}
use holographic_market.Base.Double.{Double, ◌<?◌}
use holographic_market.Lob.{Lob, LobUpdate, apply, mid_price, spread}
use holographic_market.Router.{RoutedEdge, Metrics, Signal, route}
use holographic_market.Backtest.{Maths}
use holographic_market.Backtest.Pnl.{SignalRecord, PnlTracker, record_edge, count}

pub record Topology (W : Type 0) : Type 0 where
  pub harmonic_flow : List W
  pub edge_src : List ℤ
  pub edge_dst : List ℤ

pub record Backtest (W G : Type 0) : Type 0 where
  pub lob : Lob W
  pub pipeline : G
  pub router : Metrics
  pub pnl : PnlTracker W
  pub local_count : ℕ

module _ {W : Type 0} ⦃d : Double W⦄ (f : Maths W) where
  unfoldable pub record_edges :
      Lob W → SignalRecord W → PnlTracker W → List (RoutedEdge W) → PnlTracker W
  record_edges lob sig p [] = p
  record_edges lob sig p (re ∷ edges) =
      record_edges lob sig
        (record_edge f p re (mid_price f.half lob re.src_instrument)
          (mid_price f.half lob re.dst_instrument) (spread f.half f.two_bps lob re.src_instrument)
          sig)
        edges

  module _ {G : Type 0} (gpu : G → Lob W → G × SignalRecord W × Option (Topology W))
      (threshold : W) where
    abbrev pub route_signal : Backtest W G → G → SignalRecord W → Option (Topology W) → Backtest W G
    route_signal b g sig none = record b { pipeline = g }
    route_signal b g sig (some t) =
        let (edges, metrics) =
          route threshold b.router
            (record { action = sig.yang_mills_action; timestamp_ns = sig.timestamp_ns })
            t.harmonic_flow t.edge_src t.edge_dst in
        record b { pipeline = g; router = metrics; pnl = record_edges b.lob sig b.pnl edges }

    unfoldable pub process_signal : Backtest W G → Backtest W G
    unfolding record_edges
    process_signal b =
        let (g, sig, topo) = gpu b.pipeline b.lob in
        if f.least_action <? sig.yang_mills_action
        then route_signal b g sig topo
        else record b { pipeline = g }

    abbrev pub popped : Backtest W G → LobUpdate W → Backtest W G
    popped b u = record b { lob = apply b.lob u; local_count = count b.local_count }

    -- One update from the ring.
    unfoldable pub consume : ℕ → Backtest W G → LobUpdate W → Backtest W G
    unfolding process_signal
    consume k_gpu_batch b u =
        let b' = popped b u in if b'.local_count % k_gpu_batch == 0 then process_signal b' else b'

    -- The loop over all that the replay pushes, in the order of the ring.
    unfoldable pub drain : ℕ → Backtest W G → List (LobUpdate W) → Backtest W G
    unfolding consume
    drain k_gpu_batch b [] = b
    drain k_gpu_batch b (u ∷ updates) = drain k_gpu_batch (consume k_gpu_batch b u) updates

    unfoldable pub flush : ℕ → Backtest W G → Backtest W G
    unfolding process_signal
    flush k_gpu_batch b = if not (b.local_count % k_gpu_batch == 0) then process_signal b else b

    unfoldable pub backtest : ℕ → Backtest W G → List (LobUpdate W) → Backtest W G
    unfolding drain flush
    backtest k_gpu_batch b updates = flush k_gpu_batch (drain k_gpu_batch b updates)

-- `HOLO_GPU_BATCH`, as `strtoull` reads it, when it is set: 0 stands for the default.
unfoldable pub gpu_batch : Option ℕ → ℕ
gpu_batch none = 2048
gpu_batch (some v) = if v == 0 then 2048 else v
