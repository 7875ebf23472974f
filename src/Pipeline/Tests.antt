-- ===== src/Pipeline/Tests.antt =====
-- Three ticks with edges and one without, a history of two signals and a window of two that is
-- clustered at every signal. Amounts are whole numbers.
use holographic_market.Base.{ℕ, ◌≡◌, refl, List, [], ◌∷◌, none, some, arith}
use holographic_market.Base.Int.{ℤ, pos}
use holographic_market.Base.Double.{whole}
use holographic_market.Pipeline.{SignalRecord, Outcome, Features, Tick, last_signal, run_all}
use holographic_market.Pipeline.Log.{Keeps}
use holographic_market.Pipeline.History.{log_all, no_log, fresh, run_all-Keeps}

abbrev blank : SignalRecord ℤ ℕ
blank = record {
  timestamp_ns = 0;
  yang_mills_action = pos 0;
  n_active_loops = 0;
  n_harmonic_dims = 0;
  max_curl = pos 0;
  mean_curl = pos 0;
  n_edges = 0;
  floer = 0;
}

-- Two edges with the curls 2 and 4.
abbrev outcome_at : ℕ → Outcome ℤ ℕ
outcome_at t = record {
  signal_ts_ns = t;
  yang_mills_action = pos t;
  n_active_loops = 1;
  n_harmonic_dims = 1;
  first_curl = pos 2;
  more_curls = pos 4 ∷ [];
  floer = 7;
}

abbrev ticks : List (Tick ℤ ℕ)
ticks =
    record { generation = 1; outcome = some (outcome_at 10) }
    ∷ record { generation = 1; outcome = none }
    ∷ record { generation = 2; outcome = some (outcome_at 20) }
    ∷ record { generation = 3; outcome = some (outcome_at 30) }
    ∷ []

run_all-Keeps_example :
    Keeps 2 blank
      (log_all pos 2 2 1 pos blank (no_log pos 2 2 1 pos blank) ticks)
      (run_all pos 2 2 1 pos blank (fresh pos 2 2 1 pos blank (pos 0)) ticks)
run_all-Keeps_example =
    run_all-Keeps pos 2 2 1 pos blank (pos 0) ticks (omega arith) (omega arith) (omega arith)

abbrev row_at : ℕ → Features ℤ
row_at t = record { s_ym = pos t; max_curl = pos 4; mean_curl = pos 3; betti_1 = pos 7 }

windows_clustered :
    (run_all pos 2 2 1 pos blank (fresh pos 2 2 1 pos blank (pos 0)) ticks).fits
    ≡ (row_at 20 ∷ row_at 30 ∷ []) ∷ (row_at 10 ∷ row_at 20 ∷ []) ∷ []
unfolding run_all
windows_clustered = refl

last_written :
    (last_signal 2 blank
      (run_all pos 2 2 1 pos blank (fresh pos 2 2 1 pos blank (pos 0)) ticks)).timestamp_ns
    ≡ 30
unfolding run_all last_signal
last_written = refl

copied_three_times :
    (run_all pos 2 2 1 pos blank (fresh pos 2 2 1 pos blank (pos 0)) ticks).n_transfers ≡ 3
unfolding run_all
copied_three_times = refl
