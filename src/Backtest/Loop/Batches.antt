-- ===== src/Backtest/Loop/Batches.antt =====
-- The updates of `main` as batches, and its analyses of them.
use holographic_market.Base.{
  ℕ, ◌<◌, ◌≡◌, List, [], ◌∷◌, ◌++◌, Option, none, some, if◌then◌else◌, length,
}
use holographic_market.Base.Double.{Double, ◌<?◌}
use holographic_market.Lob.{Lob, LobUpdate, apply}
use holographic_market.Router.{Metrics, route}
use holographic_market.Backtest.{Maths}
use holographic_market.Backtest.Pnl.{SignalRecord, PnlTracker}
use holographic_market.Backtest.Pnl.Totals.{IsTallied}
use holographic_market.Backtest.Loop.{Topology, Backtest, record_edges, consume, drain}

abbrev pub applied : {W : Type 0} ⦃d : Double W⦄ → Lob W → List (LobUpdate W) → Lob W
applied b [] = b
applied b (u ∷ updates) = applied (apply b u) updates

-- All updates of some batches, and those behind them.
abbrev pub joined : {A : Type 0} → List (List A) → List A → List A
joined [] last = last
joined (batch ∷ more) last = batch ++ joined more last

module _ {W G : Type 0} ⦃d : Double W⦄ (f : Maths W)
    (gpu : G → Lob W → G × SignalRecord W × Option (Topology W)) (threshold : W) (k : ℕ) where
  -- What the analyses change: the pipeline, the counts of the router, and the tracker.
  abbrev pub Analysed : Type 0
  Analysed = G × Metrics × PnlTracker W

  abbrev pub analysed_of : Backtest W G → Analysed
  analysed_of b = (b.pipeline, b.router, b.pnl)

  -- The trades of a signal: none without a topology.
  abbrev pub traded : Lob W → SignalRecord W → Option (Topology W) → Analysed → Analysed
  traded lob sig none x = x
  traded lob sig (some t) (g, counts, p) =
      let (edges, counts') =
        route threshold counts
          (record { action = sig.yang_mills_action; timestamp_ns = sig.timestamp_ns })
          t.harmonic_flow t.edge_src t.edge_dst in
      (g, counts', record_edges f lob sig p edges)

  -- One analysis of a book: a run of the pipeline, and the trades of its signal if the action is
  -- above the least one.
  abbrev pub analysis : Analysed → Lob W → Analysed
  analysis (g, counts, p) lob =
      let (g', sig, topo) = gpu g lob in
      if f.least_action <? sig.yang_mills_action
      then traded lob sig topo (g', counts, p)
      else (g', counts, p)

  -- The state after `n` updates that make the book `lob`, the analyses having come to `x`.
  record At (n : ℕ) (lob : Lob W) (x : Analysed) (b : Backtest W G) : Type 0 where
    same_lob : b.lob ≡ lob
    counted : b.local_count ≡ n
    analysed : analysed_of b ≡ x
    tallied : IsTallied b.pnl

  abbrev next : Backtest W G → LobUpdate W → Backtest W G
  next b u = consume f gpu threshold k b u

  abbrev drained : Backtest W G → List (LobUpdate W) → Backtest W G
  drained b us = drain f gpu threshold k b us

  -- Batches of `k` updates each, and fewer behind them.
  abbrev pub AreBatches : List (List (LobUpdate W)) → List (LobUpdate W) → Type 0
  AreBatches [] last = length last < k
  AreBatches (batch ∷ more) last = (length batch ≡ k) × AreBatches more last

  -- An analysis after every batch, of the book that all updates up to there make, and after the
  -- last updates if there are any.
  abbrev pub runs : Analysed → Lob W → List (List (LobUpdate W)) → List (LobUpdate W) → Analysed
  runs g lob [] [] = g
  runs g lob [] (u ∷ last) = (analysis g (applied lob (u ∷ last)))
  runs g lob (batch ∷ more) last =
      runs (analysis g (applied lob batch)) (applied lob batch) more last

  abbrev End : Lob W → Analysed → Backtest W G → Type 0
  End lob g b = (b.lob ≡ lob) × (analysed_of b ≡ g) × IsTallied b.pnl
