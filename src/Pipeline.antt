-- ===== src/Pipeline.antt =====
-- The host side of `CudaPipeline`, engine/math/cuda_pipeline.cu: the history of signals, the window
-- that is clustered, and the counts of ticks without an edge. What the GPU stages of a tick leave
-- behind is an argument, and so is the result of the Floer analysis.
pub mod Log
pub mod History
mod Tests
use holographic_market.Base.{
  ℕ, zero, suc, ◌+◌, ◌-◌, ◌%◌, ◌^◌, Bool, List, [], ◌∷◌, Option, none, some, if◌then◌else◌, ltb,
  ◌==◌, get_or, set, replicate, length,
}
use holographic_market.Base.Int.{ℤ, pos}
use holographic_market.Base.Double.{Double, ◌<?◌}

abbrev pub k_signal_history_len : ℕ
k_signal_history_len = 1024

abbrev pub k_cluster_window : ℕ
k_cluster_window = 128

abbrev pub k_cluster_refit_every : ℕ
k_cluster_refit_every = 10

pub record SignalRecord (W F : Type 0) : Type 0 where
  pub timestamp_ns : ℕ
  pub yang_mills_action : W
  pub n_active_loops : ℕ
  pub n_harmonic_dims : ℕ
  pub max_curl : W
  pub mean_curl : W
  pub n_edges : ℕ
  pub floer : F

-- What a tick with edges leaves: `ArbitrageSignal`, the curls of its edges, of which there is at
-- least one, that are copied to the host, the number of harmonic dimensions and the result of `run_floer_analysis`.
pub record Outcome (W F : Type 0) : Type 0 where
  pub signal_ts_ns : ℕ
  pub yang_mills_action : W
  pub n_active_loops : ℕ
  pub n_harmonic_dims : ℕ
  pub first_curl : W
  pub more_curls : List W
  pub floer : F

-- The four features of one record: S_YM, the greatest and the mean curl, and the first Betti number.
pub record Features (W : Type 0) : Type 0 where
  pub s_ym : W
  pub max_curl : W
  pub mean_curl : W
  pub betti_1 : W

-- `fits` are the windows handed to the clusterer, the latest first.
pub record Pipeline (W F : Type 0) : Type 0 where
  pub signal_history : List (SignalRecord W F)
  pub signal_write_idx : ℕ
  pub last_cluster_refit_signal_count : ℕ
  pub fits : List (List (Features W))
  pub zero_edge_streak_current : ℕ
  pub zero_edge_streak_max : ℕ
  pub zero_edge_ticks_total : ℕ
  pub last_lob_generation : ℕ
  pub n_transfers : ℕ
  pub n_arbitrage_signals : ℕ
  pub last_ym_action : W
  pub last_harmonic_dims : ℕ

abbrev pub count : ℕ → ℕ
count n = (n + 1) % 2 ^ 64

-- `h_curl_out_[e] > max_curl`, over the edges.
unfoldable pub max_curl_from : {W : Type 0} ⦃d : Double W⦄ → W → List W → W
max_curl_from best [] = best
max_curl_from best (c ∷ curls) = max_curl_from (if best <? c then c else best) curls

unfoldable pub sum_curls : {W : Type 0} ⦃d : Double W⦄ → W → List W → W
sum_curls ⦃d⦄ sum [] = sum
sum_curls ⦃d⦄ sum (c ∷ curls) = sum_curls (d.add sum c) curls

module _ {W F : Type 0} ⦃d : Double W⦄ (of_ℕ : ℕ → W) where
  unfoldable pub new_signal : Outcome W F → SignalRecord W F
  unfolding max_curl_from sum_curls
  new_signal o = record {
    timestamp_ns = o.signal_ts_ns;
    yang_mills_action = o.yang_mills_action;
    n_active_loops = o.n_active_loops;
    n_harmonic_dims = o.n_harmonic_dims;
    max_curl = max_curl_from d.nought (o.first_curl ∷ o.more_curls);
    mean_curl =
        d.div (sum_curls d.nought (o.first_curl ∷ o.more_curls)) (of_ℕ (suc (length o.more_curls)));
    n_edges = suc (length o.more_curls);
    floer = o.floer;
  }

module _ {W F : Type 0} (betti : F → W) where
  abbrev pub features : SignalRecord W F → Features W
  features r = record {
    s_ym = r.yang_mills_action;
    max_curl = r.max_curl;
    mean_curl = r.mean_curl;
    betti_1 = betti r.floer;
  }

-- `history_len` is `k_signal_history_len`.
module _ {W F : Type 0} (history_len : ℕ) where
  -- `record_signal`, from the test of the edges on.
  unfoldable pub store_signal : Pipeline W F → SignalRecord W F → Pipeline W F
  store_signal p r = record p {
    signal_history = set p.signal_history (p.signal_write_idx % history_len) r;
    signal_write_idx = count p.signal_write_idx;
    n_arbitrage_signals = count p.n_arbitrage_signals;
    last_ym_action = r.yang_mills_action;
    last_harmonic_dims = r.n_harmonic_dims;
  }

  -- `blank` stands for a slot that was never written.
  unfoldable pub last_signal : SignalRecord W F → Pipeline W F → SignalRecord W F
  last_signal blank p =
      get_or p.signal_history ((p.signal_write_idx + history_len - 1) % history_len) blank

  module _ (betti : F → W) (blank : SignalRecord W F) where
    -- The rows of the window, from row `i` on.
    unfoldable pub rows_from : ℕ → List (SignalRecord W F) → ℕ → ℕ → ℕ → List (Features W)
    rows_from window history total i zero = []
    rows_from window history total i (suc more) =
        features betti (get_or history ((total - window + i) % history_len) blank)
        ∷ rows_from window history total (suc i) more

    unfoldable pub build_cluster_window_and_fit : ℕ → ℕ → Pipeline W F → Pipeline W F
    unfolding rows_from
    build_cluster_window_and_fit window refit_every p =
        let total = p.signal_write_idx in
        if ltb total window
        then p
        else if ltb (total - p.last_cluster_refit_signal_count) refit_every
        then p
        else record p {
          fits = rows_from window p.signal_history total 0 window ∷ p.fits;
          last_cluster_refit_signal_count = total;
        }

module _ {W F : Type 0} where
  -- `transfer_lob_to_gpu`: an unchanged generation is not copied again.
  unfoldable pub transfer_lob_to_gpu : Pipeline W F → ℕ → Pipeline W F
  transfer_lob_to_gpu p gen =
      if gen == p.last_lob_generation
      then p
      else record p { last_lob_generation = gen; n_transfers = count p.n_transfers }

  -- A tick without an edge. The loop of the compare-and-swap ends with the greater value.
  unfoldable pub count_zero_edges : Pipeline W F → Pipeline W F
  count_zero_edges p =
      let streak = count p.zero_edge_streak_current in
      record p {
        zero_edge_streak_current = streak;
        zero_edge_ticks_total = count p.zero_edge_ticks_total;
        zero_edge_streak_max =
            if ltb p.zero_edge_streak_max streak then streak else p.zero_edge_streak_max;
      }

-- The generation of the books at a tick, and what its GPU stages leave: no outcome is a tick
-- without an edge.
pub record Tick (W F : Type 0) : Type 0 where
  pub generation : ℕ
  pub outcome : Option (Outcome W F)

module _ {W F : Type 0} ⦃d : Double W⦄ (of_ℕ : ℕ → W) (history_len window refit_every : ℕ)
    (betti : F → W) (blank : SignalRecord W F) where
  abbrev pub finish_tick : Pipeline W F → Option (Outcome W F) → Pipeline W F
  finish_tick p none = count_zero_edges p
  finish_tick p (some o) =
      build_cluster_window_and_fit history_len betti blank window refit_every
        (store_signal history_len (record p { zero_edge_streak_current = 0 }) (new_signal of_ℕ o))

  unfoldable pub run_once : Pipeline W F → Tick W F → Pipeline W F
  unfolding transfer_lob_to_gpu count_zero_edges store_signal build_cluster_window_and_fit
      new_signal
  run_once p t = finish_tick (transfer_lob_to_gpu p t.generation) t.outcome

  unfoldable pub run_all : Pipeline W F → List (Tick W F) → Pipeline W F
  unfolding run_once
  run_all p [] = p
  run_all p (t ∷ ticks) = run_all (run_once p t) ticks
