-- ===== src/Pipeline/History.antt =====
-- The ring of signals against the list of all signals, over the ticks of
-- engine/math/cuda_pipeline.cu: the windows that are clustered.
use holographic_market.Base.{
  ℕ, zero, suc, ◌+◌, ◌-◌, ◌^◌, ◌≤◌, ◌<◌, ◌≡◌, refl, sym, ap, ◌∙◌, subst, Bool, true, false, List,
  [], ◌∷◌, Option, none, some, arith, length, get_or, length-replicate, ltb, ◌==◌, if◌then◌else◌,
  replicate,
}
use holographic_market.Base.Double.{Double}
use holographic_market.Pipeline.{
  SignalRecord, Outcome, Pipeline, count, new_signal, store_signal, features, rows_from,
  build_cluster_window_and_fit, transfer_lob_to_gpu, count_zero_edges, Tick, finish_tick, run_once,
  last_signal, run_all,
}
use holographic_market.Pipeline.Log.{Log, latest_from, Keeps, store-Keeps, zero-Keeps, last-newest}

module _ {W F : Type 0} ⦃d : Double W⦄ (of_ℕ : ℕ → W) (history_len window refit_every : ℕ)
    (betti : F → W) (blank : SignalRecord W F) where
  abbrev pub log_fit : Log W F → Log W F
  log_fit l =
      if ltb (length l.signals) window
      then l
      else if ltb (length l.signals - l.refit_at) refit_every
      then l
      else record l {
        windows = latest_from betti blank window l.signals 0 window ∷ l.windows;
        refit_at = length l.signals;
      }

  abbrev pub log_tick : Log W F → Option (Outcome W F) → Log W F
  log_tick l none = l
  log_tick l (some o) = log_fit (record l { signals = new_signal of_ℕ o ∷ l.signals })

  abbrev pub log_all : Log W F → List (Tick W F) → Log W F
  log_all l [] = l
  log_all l (t ∷ ticks) = log_all (log_tick l t.outcome) ticks

  rows-latest :
      (l : Log W F) (p : Pipeline W F) (i more : ℕ)
      → Keeps history_len blank l p
      → window ≤ history_len
      → window ≤ length l.signals
      → i + more ≡ window
      → rows_from history_len betti blank window p.signal_history (length l.signals) i more
        ≡ latest_from betti blank window l.signals i more
  unfolding rows_from
  rows-latest l p i zero v fits full e = refl
  rows-latest l p i (suc more) v fits full e =
      rw (rows-latest l p (suc i) more v fits full (omega (arith, e))) (
        ap (λ r. features betti r ∷ latest_from betti blank window l.signals (suc i) more)
          (v.kept (length l.signals - window + i) (omega (arith, full, e))
              (omega (arith, full, fits, e))
            ∙ ap (λ k. get_or l.signals k blank) (place (length l.signals) full)))
    where
      place : (n : ℕ) → window ≤ n → n - 1 - (n - window + i) ≡ window - 1 - i
      place n h = omega (arith, h)

  fit-Keeps :
      (l : Log W F) (p : Pipeline W F)
      → Keeps history_len blank l p
      → window ≤ history_len
      → Keeps history_len blank
          (log_fit l)
          (build_cluster_window_and_fit history_len betti blank window refit_every p)
  unfolding build_cluster_window_and_fit
  fit-Keeps l p v fits =
      subst
        (λ c.
          Keeps history_len blank (log_fit l)
            (chosen c (late p.signal_write_idx p.last_cluster_refit_signal_count)))
        (sym (ap (λ n. ltb n window) v.counted))
        (subst (λ e. Keeps history_len blank (log_fit l) (chosen (ltb (length l.signals) window) e))
          (sym (ap (late p.signal_write_idx) v.refit ∙ ap (λ n. late n l.refit_at) v.counted))
          (either (ltb (length l.signals) window) (late (length l.signals) l.refit_at) (λ e.
            ap (λ n. rows_from history_len betti blank window p.signal_history n 0 window) v.counted
            ∙ rows-latest l p 0 window v fits (ground arith) (omega arith))))
    where
      late : ℕ → ℕ → Bool
      late n m = ltb (n - m) refit_every

      chosen : Bool → Bool → Pipeline W F
      chosen c e = if c then p else if e then p else record p {
        fits =
            rows_from history_len betti blank window p.signal_history p.signal_write_idx 0 window
            ∷ p.fits;
        last_cluster_refit_signal_count = p.signal_write_idx;
      }

      either :
          (a b : Bool)
          → (a ≡ false
              → rows_from history_len betti blank window p.signal_history p.signal_write_idx 0
                  window
                ≡ latest_from betti blank window l.signals 0 window)
          → Keeps history_len blank
              (if a then l else if b then l else record l {
                windows = latest_from betti blank window l.signals 0 window ∷ l.windows;
                refit_at = length l.signals;
              })
              (chosen a b)
      either true b same = v
      either false true same = v
      either false false same = record {
        size = v.size;
        counted = v.counted;
        kept = v.kept;
        fitted = rw (same refl, v.fitted) refl;
        refit = v.counted;
      }

  tick-Keeps :
      (l : Log W F) (p : Pipeline W F) (t : Tick W F)
      → 0 < history_len
      → window ≤ history_len
      → length l.signals + 1 < 2 ^ 64
      → Keeps history_len blank l p
      → Keeps history_len blank
          (log_tick l t.outcome)
          (run_once of_ℕ history_len window refit_every betti blank p t)
  unfolding run_once transfer_lob_to_gpu count_zero_edges
  tick-Keeps l p t pos fits small v =
      by_outcome t.outcome (transferred (t.generation == p.last_lob_generation))
    where
      q : Pipeline W F
      q = transfer_lob_to_gpu p t.generation

      transferred :
          (b : Bool)
          → Keeps history_len blank l (
              if b then p else record p {
                last_lob_generation = t.generation;
                n_transfers = count p.n_transfers;
              })
      transferred true = v
      transferred false = record {
        size = v.size;
        counted = v.counted;
        kept = v.kept;
        fitted = v.fitted;
        refit = v.refit;
      }

      by_outcome :
          (o : Option (Outcome W F))
          → Keeps history_len blank l q
          → Keeps history_len blank
              (log_tick l o)
              (finish_tick of_ℕ history_len window refit_every betti blank q o)
      by_outcome none w = zero-Keeps history_len blank l q w
      by_outcome (some o) w =
          let q0 : Pipeline W F = record q { zero_edge_streak_current = 0 } in
          fit-Keeps (record l { signals = new_signal of_ℕ o ∷ l.signals })
            (store_signal history_len q0 (new_signal of_ℕ o))
            (store-Keeps history_len blank l q0 (new_signal of_ℕ o) pos small (record {
              size = w.size;
              counted = w.counted;
              kept = w.kept;
              fitted = w.fitted;
              refit = w.refit;
            }))
            fits

  log_tick-length :
      (l : Log W F) (o : Option (Outcome W F))
      → length (log_tick l o).signals ≤ length l.signals + 1
  log_tick-length l none = omega arith
  log_tick-length l (some o) =
      either (ltb (suc (length l.signals)) window)
        (ltb (suc (length l.signals) - l.refit_at) refit_every)
    where
      grown : Log W F
      grown = record l { signals = new_signal of_ℕ o ∷ l.signals }

      either :
          (a b : Bool)
          → length
              (if a then grown else if b then grown else record grown {
                windows = latest_from betti blank window grown.signals 0 window ∷ grown.windows;
                refit_at = length grown.signals;
              }).signals
            ≤ length l.signals + 1
      either true b = omega arith
      either false true = omega arith
      either false false = omega arith

  all-Keeps :
      (l : Log W F) (p : Pipeline W F) (ticks : List (Tick W F))
      → 0 < history_len
      → window ≤ history_len
      → length l.signals + length ticks < 2 ^ 64
      → Keeps history_len blank l p
      → Keeps history_len blank
          (log_all l ticks)
          (run_all of_ℕ history_len window refit_every betti blank p ticks)
  unfolding run_all
  all-Keeps l p [] pos fits small v = v
  all-Keeps l p (t ∷ ticks) pos fits small v =
      all-Keeps (log_tick l t.outcome)
        (run_once of_ℕ history_len window refit_every betti blank p t) ticks pos fits
        (omega (arith, small, log_tick-length l t.outcome))
        (tick-Keeps l p t pos fits (omega (arith, small)) v)

  -- The state before the first tick.
  abbrev pub fresh : W → Pipeline W F
  fresh zero_action = record {
    signal_history = replicate history_len blank;
    signal_write_idx = 0;
    last_cluster_refit_signal_count = 0;
    fits = [];
    zero_edge_streak_current = 0;
    zero_edge_streak_max = 0;
    zero_edge_ticks_total = 0;
    last_lob_generation = 0;
    n_transfers = 0;
    n_arbitrage_signals = 0;
    last_ym_action = zero_action;
    last_harmonic_dims = 0;
  }

  abbrev pub no_log : Log W F
  no_log = record { signals = []; refit_at = 0; windows = [] }

  -- After fewer than 2^64 ticks, whatever they leave, with a window no longer than the history and
  -- that not empty: the history holds the last signals of the list of all, each in the slot of its
  -- number, and the windows that were clustered are those that the list itself gives, each of the
  -- then latest signals, the oldest first.
  pub run_all-Keeps :
      (zero_action : W) (ticks : List (Tick W F))
      → 0 < history_len
      → window ≤ history_len
      → length ticks < 2 ^ 64
      → Keeps history_len blank
          (log_all no_log ticks)
          (run_all of_ℕ history_len window refit_every betti blank (fresh zero_action) ticks)
  run_all-Keeps zero_action ticks pos fits small =
      all-Keeps no_log (fresh zero_action) ticks pos fits (omega (arith, small)) (record {
        size = length-replicate history_len blank;
        counted = refl;
        kept = λ m lt near. absurd (omega (arith, lt));
        fitted = refl;
        refit = refl;
      })

  -- After fewer than 2^64 ticks, at least one of them with an edge, with a window no longer than the
  -- history and that not empty, the last signal that is read is the latest of all signals.
  last_signal-latest :
      (zero_action : W) (ticks : List (Tick W F))
      → 0 < history_len
      → window ≤ history_len
      → length ticks < 2 ^ 64
      → 0 < length (log_all no_log ticks).signals
      → last_signal history_len blank
          (run_all of_ℕ history_len window refit_every betti blank (fresh zero_action) ticks)
        ≡ get_or (log_all no_log ticks).signals 0 blank
  last_signal-latest zero_action ticks pos fits small any =
      last-newest history_len blank (log_all no_log ticks)
        (run_all of_ℕ history_len window refit_every betti blank (fresh zero_action) ticks) pos any
        (run_all-Keeps zero_action ticks pos fits small)
