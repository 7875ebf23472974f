-- ===== src/Replay.antt =====
-- `CsvReplayHandler`: the rows of a file, parsed without checks and pushed as two updates each.
-- A pointer into the mapped file is the text from it on. How often the ring refuses an update is an
-- argument.
pub mod Rows
pub mod File
pub mod Loop
mod Tests
use holographic_market.Base.{
  ℕ, zero, suc, ◌+◌, ◌*◌, ◌-◌, ◌/◌, ◌%◌, ◌^◌, Bool, true, false, not, List, [], ◌∷◌, ◌++◌, Option,
  none, some, if◌then◌else◌, ◌||◌, ◌&&◌, ◌==◌, ltb, leb, length,
}
use holographic_market.Base.Bytes.{◌>>=◌}
use holographic_market.Base.Double.{Double}
use holographic_market.Oms.Order.{Text}
use holographic_market.Lob.{LobUpdate, bid, ask}

-- What `parse_float` needs of a `float`: the value of a digit, and the literals 10 and 0.1.
pub record Decimal (W : Type 0) : Type 0 where
  pub of_digit : ℕ → W
  pub ten : W
  pub tenth : W

-- `static_cast<unsigned>(*p - '0') < 10U`
abbrev pub is_digit : ℕ → Bool
is_digit c = leb 48 c && leb c 57

-- The digits of a `width`-bit number, behind those read before.
unfoldable pub digits_from : ℕ → ℕ → Text → ℕ × Text
digits_from width out [] = (out, [])
digits_from width out (c ∷ p) =
    let rest = digits_from width ((out * 10 + (c - 48)) % 2 ^ width) p in
    if is_digit c then rest else (out, c ∷ p)

abbrev pub parse_u64 : Text → ℕ × Text
parse_u64 = digits_from 64 0

abbrev pub parse_u32 : Text → ℕ × Text
parse_u32 = digits_from 32 0

module _ {W : Type 0} ⦃d : Double W⦄ (lit : Decimal W) where
  unfoldable pub whole_from : W → Text → W × Text
  whole_from out [] = (out, [])
  whole_from out (c ∷ p) =
      let rest = whole_from (d.add (d.mul out lit.ten) (lit.of_digit (c - 48))) p in
      if is_digit c then rest else (out, c ∷ p)

  unfoldable pub fraction_from : W → W → Text → W × Text
  fraction_from out frac [] = (out, [])
  fraction_from out frac (c ∷ p) =
      let rest =
        fraction_from (d.add out (d.mul (lit.of_digit (c - 48)) frac)) (d.mul frac lit.tenth) p in
      if is_digit c then rest else (out, c ∷ p)

  -- The part behind the whole digits.
  abbrev pub after_whole : W × Text → W × Text
  after_whole (out, []) = (out, [])
  after_whole (out, c ∷ p) = if c == 46 then fraction_from out lit.tenth p else (out, c ∷ p)

  unfoldable pub parse_float : Text → W × Text
  unfolding whole_from fraction_from
  parse_float p = after_whole (whole_from d.nought p)

-- The text behind the next byte `b`.
unfoldable pub skip_past : ℕ → Text → Text
skip_past b [] = []
skip_past b (c ∷ p) = if c == b then p else skip_past b p

abbrev pub skip_comma : Text → Text
skip_comma = skip_past 44

abbrev pub skip_line : Text → Text
skip_line = skip_past 10

-- The tests behind the blanks, at which the text stands.
abbrev pub header_byte : Text → Bool
header_byte [] = true
header_byte (c ∷ p) = c == 10 || (not (c == 45) && not (is_digit c))

unfoldable pub is_header : Text → Bool
is_header [] = true
is_header (c ∷ p) = if c == 32 || c == 13 then is_header p else header_byte (c ∷ p)

pub data ReplayMode : Type 0 where
  fastest realtime throttled : ReplayMode

pub record ReplayConfig : Type 0 where
  pub mode : ReplayMode
  pub msgs_per_sec : ℕ
  pub max_gap_ms : ℕ

pub record CsvRow (W : Type 0) : Type 0 where
  pub ts_ns : ℕ
  pub instr_id : ℕ
  pub bid_price : W
  pub bid_qty : W
  pub ask_price : W
  pub ask_qty : W

-- `ReplayMetrics`, the variable `prev_ts`, the sleeps asked for, the updates pushed, and how often
-- `try_push` was called; of the sleeps and updates, the latest stands first. The time spent in the
-- waits, `push_wait_ns`, is a measurement and left out.
pub record Replay (W : Type 0) : Type 0 where
  pub rows_read : ℕ
  pub updates_pushed : ℕ
  pub updates_dropped : ℕ
  pub parse_errors : ℕ
  pub prev_ts : ℕ
  pub sleeps : List ℕ
  pub pushed : List (LobUpdate W)
  pub attempts : ℕ

abbrev pub k_max_instruments : ℕ
k_max_instruments = 512

abbrev pub count : ℕ → ℕ
count n = (n + 1) % 2 ^ 64

abbrev pub at_least_one : ℕ → ℕ
at_least_one zero = 1
at_least_one (suc n) = suc n

abbrev pub max_gap_ns : ReplayConfig → ℕ
max_gap_ns cfg = cfg.max_gap_ms * 1000000

-- The nanoseconds slept before a row is pushed, 0 for none.
unfoldable pub sleep_in : ReplayMode → ReplayConfig → ℕ → ℕ → ℕ
sleep_in fastest cfg prev ts = 0
sleep_in realtime cfg prev ts =
    if not (prev == 0) && ltb prev ts
    then (let gap = ts - prev in
        let sl = if ltb gap (max_gap_ns cfg) then gap else max_gap_ns cfg in
        if ltb 100000 sl then sl else 0)
    else 0
sleep_in throttled cfg prev ts = 1000000000 / at_least_one cfg.msgs_per_sec

module _ {W : Type 0} ⦃d : Double W⦄ where
  abbrev pub idle : Replay W
  idle = record {
    rows_read = 0;
    updates_pushed = 0;
    updates_dropped = 0;
    parse_errors = 0;
    prev_ts = 0;
    sleeps = [];
    pushed = [];
    attempts = 0;
  }

  abbrev pub bid_of : CsvRow W → LobUpdate W
  bid_of row = record {
    timestamp_ns = row.ts_ns;
    price = row.bid_price;
    quantity = row.bid_qty;
    instrument_id = row.instr_id;
    depth_level = 0;
    side = bid;
  }

  abbrev pub ask_of : CsvRow W → LobUpdate W
  ask_of row = record {
    timestamp_ns = row.ts_ns;
    price = row.ask_price;
    quantity = row.ask_qty;
    instrument_id = row.instr_id;
    depth_level = 0;
    side = ask;
  }

  abbrev pub is_bad : CsvRow W → Bool
  is_bad row =
      d.eq row.bid_price d.nought
      || d.eq row.ask_price d.nought
      || leb k_max_instruments row.instr_id

  -- `while (!ring_.try_push(u))`: `room i` is how often the ring refuses the update of number `i`
  -- before it takes it, or `none` if it never does; the wait then does not end.
  unfoldable pub push_waiting : (ℕ → Option ℕ) → Replay W → LobUpdate W → Option (Replay W)
  push_waiting room r u = elim (room (length r.pushed)) [
    | none ↦ none
    | some refusals ↦ some (record r {
      updates_pushed = count r.updates_pushed;
      pushed = u ∷ r.pushed;
      attempts = r.attempts + (refusals + 1);
    })
  ]

  -- The part of the loop behind the parsing.
  unfoldable pub take_row : ReplayConfig → (ℕ → Option ℕ) → Replay W → CsvRow W → Option (Replay W)
  unfolding sleep_in push_waiting
  take_row cfg room r row =
      let slept = record r {
        rows_read = count r.rows_read;
        prev_ts = row.ts_ns;
        sleeps = sleep_in cfg.mode cfg r.prev_ts row.ts_ns ∷ r.sleeps;
      } in
      let pushed =
        push_waiting room slept (bid_of row) >>= λ r1. push_waiting room r1 (ask_of row) in
      if is_bad row then some (record r { parse_errors = count r.parse_errors }) else pushed

module _ {W : Type 0} ⦃d : Double W⦄ (lit : Decimal W) where
  unfoldable pub parse_row : Text → CsvRow W × Text
  unfolding parse_float
  parse_row p0 =
      let (ts, p1) = parse_u64 p0 in
      let (id, p2) = parse_u32 (skip_comma p1) in
      let (bid_price, p3) = parse_float lit (skip_comma p2) in
      let (bid_qty, p4) = parse_float lit (skip_comma p3) in
      let (ask_price, p5) = parse_float lit (skip_comma p4) in
      let (ask_qty, p6) = parse_float lit (skip_comma p5) in
      (
        record {
          ts_ns = ts;
          instr_id = id;
          bid_price = bid_price;
          bid_qty = bid_qty;
          ask_price = ask_price;
          ask_qty = ask_qty;
        },
        skip_line p6,
      )

  -- One turn of the loop, at a text that is not empty.
  unfoldable pub turn : ReplayConfig → (ℕ → Option ℕ) → Replay W → Text → Option (Replay W) × Text
  unfolding parse_row
  turn cfg room r p =
      let (row, rest) = parse_row p in
      if is_header p then (some r, skip_line p) else (take_row cfg room r row, rest)

  -- The loop, with `shutdown n` for what the `n`th test of the flag reads. `none` when it does not
  -- end: a wait for room does not, or the fuel is used up.
  unfoldable pub replay_loop :
      ReplayConfig → (ℕ → Option ℕ) → (ℕ → Bool) → ℕ → ℕ → Replay W → Text → Option (Replay W)
  unfolding turn
  replay_loop cfg room shutdown fuel n r [] = some r
  replay_loop cfg room shutdown zero n r (c ∷ p) = none
  replay_loop cfg room shutdown (suc fuel) n r (c ∷ p) =
      let (after, rest) = turn cfg room r (c ∷ p) in
      let more = after >>= λ r'. replay_loop cfg room shutdown fuel (suc n) r' rest in
      if shutdown n then some r else more

  -- `run`: a file that cannot be opened or mapped, or is empty, has no text.
  unfoldable pub replay_file :
      ReplayConfig → (ℕ → Option ℕ) → (ℕ → Bool) → ℕ → Option Text → Option (Replay W)
  replay_file cfg room shutdown fuel none = some idle
  replay_file cfg room shutdown fuel (some file) = replay_loop cfg room shutdown fuel 0 idle file
