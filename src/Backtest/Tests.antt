-- ===== src/Backtest/Tests.antt =====
-- A backtest of three updates in batches of two, and the theorems on the program at it. Amounts
-- are whole numbers, and the functions of <cmath> are crude.
use holographic_market.Base.{ℕ, ◌+◌, ◌≡◌, refl, List, [], ◌∷◌, Option, some, length, ◌⊎◌}
use holographic_market.Base.Bytes.{codes}
use holographic_market.Base.Int.{ℤ, pos, negsuc}
use holographic_market.Base.Double.{whole, ℤ-IsOrdered}
use holographic_market.Oms.Order.{Text}
use holographic_market.Oms.Fills.{AtLeast}
use holographic_market.Replay.{realtime, throttled}
use holographic_market.Lob.{Lob, LobUpdate, ask, make}
use holographic_market.Backtest.{Maths}
use holographic_market.Backtest.Args.{
  args, sets_mode, sets_rate, command_line, all_meant, defaults, parse_args,
  parse_args-command_line,
}
use holographic_market.Backtest.Pnl.{SignalRecord, new_tracker}
use holographic_market.Backtest.Loop.{Topology, Backtest}
use holographic_market.Backtest.Stats.{evaluate, returns_from}
use holographic_market.Backtest.Stats.Drawdown.{falls, Among, NoneAbove, evaluate-drawdown}

abbrev crude : Maths ℤ
crude = record {
  log = λ x. x;
  sqrt = λ x. x;
  tanh = λ x. x;
  copysign = λ x y. y;
  of_ℕ = pos;
  alpha = pos 1;
  first_m2 = pos 1;
  k_min_sigma = pos 1;
  bps = pos 1;
  to_float = λ x. x;
  k_max_gross_bps = pos 5;
  half = pos 1;
  least_action = pos 0;
  two_bps = pos 1;
}

abbrev number_of : Text → ℕ
number_of t = length t

parse_args-command_line_example :
    parse_args number_of
      (λ t. pos 0)
      (codes "a.csv"
        ∷ command_line (sets_mode realtime ∷ sets_rate (codes "123") ∷ sets_mode throttled ∷ []) [])
    ≡ args (
        all_meant number_of
          (λ t. pos 0)
          (defaults (codes "a.csv"))
          (sets_mode realtime ∷ sets_rate (codes "123") ∷ sets_mode throttled ∷ []))
parse_args-command_line_example =
    parse_args-command_line number_of (λ t. pos 0) (codes "a.csv")
      (sets_mode realtime ∷ sets_rate (codes "123") ∷ sets_mode throttled ∷ [])

abbrev signal : SignalRecord ℤ
signal = record {
  timestamp_ns = 9;
  yang_mills_action = pos 50;
  max_curl = pos 0;
  floer_asd_residual = pos 0;
  floer_hf1 = pos 0;
}

-- One edge between the first two instruments, at every pass.
abbrev gpu : ℕ → Lob ℤ → ℕ × SignalRecord ℤ × Option (Topology ℤ)
gpu g lob = (
  g + 1,
  signal,
  some (record { harmonic_flow = pos 60 ∷ []; edge_src = pos 0 ∷ []; edge_dst = pos 1 ∷ [] }),
)

abbrev update_of : ℕ → ℕ → LobUpdate ℤ
update_of instrument price = record {
  timestamp_ns = 1;
  price = pos price;
  quantity = pos 1;
  instrument_id = instrument;
  depth_level = 0;
  side = ask;
}

abbrev start : Backtest ℤ ℕ
start = record {
  lob = make (pos 100) 4 1;
  pipeline = 0;
  router = record { signals_processed = 0; edges_routed = 0; signals_suppressed = 0 };
  pnl = new_tracker crude;
  local_count = 0;
}

abbrev updates : List (LobUpdate ℤ)
updates = update_of 0 101 ∷ update_of 1 300 ∷ update_of 1 900 ∷ []

abbrev equity : List ℤ
equity = pos 100 ∷ pos 120 ∷ pos 60 ∷ pos 90 ∷ []

evaluate-drawdown_example :
    let m = (evaluate (λ x. x) pos (pos 10 ∷ pos 20 ∷ pos 0 ∷ []) 1 2 (pos 1)).max_drawdown in
    ((m ≡ pos 0) ⊎ Among m (falls (pos 10) (pos 20 ∷ pos 0 ∷ [])))
    × AtLeast (pos 0) m
    × NoneAbove m (falls (pos 10) (pos 20 ∷ pos 0 ∷ []))
unfolding returns_from
evaluate-drawdown_example =
    evaluate-drawdown ℤ-IsOrdered (λ x. x) pos (pos 10) (pos 20) (pos 1) (pos 0 ∷ [])
      (negsuc 0 ∷ []) 1 2 (pos 1) refl
