-- ===== src/Replay/Loop.antt =====
-- How the loop over the rows ends, and what holds of all that it pushed.
use holographic_market.Base.{
  ap, ◌∙◌, ℕ, zero, suc, ◌+◌, ◌*◌, ◌-◌, ◌/◌, ◌%◌, ◌^◌, ◌≤◌, ◌<◌, ◌≡◌, refl, Bool, false, List, [],
  ◌∷◌, Option, none, some, ◌==◌, arith, length, Bool-cases, inl, inr,
}
use holographic_market.Base.Bytes.{◌>>=◌, or_else}
use holographic_market.Base.Double.{Double}
use holographic_market.Oms.Order.{Text}
use holographic_market.Lob.{LobUpdate, bid, ask}
use holographic_market.Replay.{
  Decimal, digits_from, whole_from, fraction_from, after_whole, parse_float, skip_past, skip_comma,
  is_header, is_digit, ReplayConfig, fastest, realtime, throttled, CsvRow, Replay, is_bad, idle,
  bid_of, ask_of, take_row, parse_row, turn, push_waiting, replay_loop, replay_file, sleep_in,
  max_gap_ns, at_least_one, ReplayMode, k_max_instruments, parse_u64, parse_u32,
}

-- How much of the text each step leaves.
skip-le : (b : ℕ) (p : Text) → length (skip_past b p) ≤ length p - 1
unfolding skip_past
skip-le b [] = omega arith
skip-le b (c ∷ p) = ground (arith, skip-le b p)

digits-le : (width out : ℕ) (p : Text) → length (digits_from width out p).1 ≤ length p
unfolding digits_from
digits-le width out [] = omega arith
digits-le width out (c ∷ p) = ground (arith, digits-le width ((out * 10 + (c - 48)) % 2 ^ width) p)

module _ {W : Type 0} ⦃d : Double W⦄ (lit : Decimal W) where
  whole-le : (out : W) (p : Text) → length (whole_from lit out p).1 ≤ length p
  unfolding whole_from
  whole-le out [] = omega arith
  whole-le out (c ∷ p) = elim (Bool-cases (is_digit c)) [
    | inl e ↦ rw e (omega (arith, whole-le (d.add (d.mul out lit.ten) (lit.of_digit (c - 48))) p))
    | inr e ↦ rw e (omega arith)
  ]

  fraction-le : (out frac : W) (p : Text) → length (fraction_from lit out frac p).1 ≤ length p
  unfolding fraction_from
  fraction-le out frac [] = omega arith
  fraction-le out frac (c ∷ p) = elim (Bool-cases (is_digit c)) [
    | inl e ↦ rw e (
        omega (
          arith,
          fraction-le (d.add out (d.mul (lit.of_digit (c - 48)) frac)) (d.mul frac lit.tenth) p,
        ))
    | inr e ↦ rw e (omega arith)
  ]

  after_whole-le : (r : W × Text) → length (after_whole lit r).1 ≤ length r.1
  after_whole-le (out, []) = omega arith
  after_whole-le (out, c ∷ p) = elim (Bool-cases (c == 46)) [
    | inl e ↦ rw e (omega (arith, fraction-le out lit.tenth p))
    | inr e ↦ rw e (omega arith)
  ]

  float-le : (p : Text) → length (parse_float lit p).1 ≤ length p
  unfolding parse_float
  float-le p = omega (arith, whole-le d.nought p, after_whole-le (whole_from lit d.nought p))

  row-le : (p : Text) → length (parse_row lit p).1 ≤ length p - 1
  unfolding parse_row
  row-le p0 =
      let p1 = (parse_u64 p0).1 in
      let p2 = (parse_u32 (skip_comma p1)).1 in
      let p3 = (parse_float lit (skip_comma p2)).1 in
      let p4 = (parse_float lit (skip_comma p3)).1 in
      let p5 = (parse_float lit (skip_comma p4)).1 in
      let p6 = (parse_float lit (skip_comma p5)).1 in
      omega (
        arith,
        digits-le 64 0 p0,
        skip-le 44 p1,
        digits-le 32 0 (skip_comma p1),
        skip-le 44 p2,
        float-le (skip_comma p2),
        skip-le 44 p3,
        float-le (skip_comma p3),
        skip-le 44 p4,
        float-le (skip_comma p4),
        skip-le 44 p5,
        float-le (skip_comma p5),
        skip-le 10 p6,
      )

  turn-le :
      (cfg : ReplayConfig) (room : ℕ → Option ℕ) (r : Replay W) (p : Text)
      → length (turn lit cfg room r p).1 ≤ length p - 1
  unfolding turn
  turn-le cfg room r p = elim (Bool-cases (is_header p)) [
    | inl e ↦ rw e (skip-le 10 p)
    | inr e ↦ rw e (row-le p)
  ]

-- The two updates of one accepted row, the later first.
pub record IsPair {W : Type 0} ⦃d : Double W⦄ (a b : LobUpdate W) : Type 0 where
  pub sides : (b.side ≡ bid) × (a.side ≡ ask)
  pub one_time : a.timestamp_ns ≡ b.timestamp_ns
  pub one_instrument : a.instrument_id ≡ b.instrument_id
  pub in_range : a.instrument_id < k_max_instruments
  pub top_level : (a.depth_level ≡ 0) × (b.depth_level ≡ 0)
  pub priced : (d.eq b.price d.nought ≡ false) × (d.eq a.price d.nought ≡ false)

-- The longest sleep of a configuration.
abbrev pub longest : ReplayMode → ReplayConfig → ℕ
longest fastest cfg = 0
longest realtime cfg = max_gap_ns cfg
longest throttled cfg = 1000000000 / at_least_one cfg.msgs_per_sec

abbrev pub AllUpTo : ℕ → List ℕ → Type 0
AllUpTo n [] = Unit {0}
AllUpTo n (x ∷ l) = (x ≤ n) × AllUpTo n l

sleep-le :
    (mode : ReplayMode) (cfg : ReplayConfig) (prev ts : ℕ)
    → sleep_in mode cfg prev ts ≤ longest mode cfg
unfolding sleep_in
sleep-le fastest cfg prev ts = omega arith
sleep-le realtime cfg prev ts = ground arith
sleep-le throttled cfg prev ts = omega arith

-- Every update is taken in the end.
abbrev pub HasRoom : (ℕ → Option ℕ) → Type 0
HasRoom room = (i : ℕ) → (refusals : ℕ) × (room i ≡ some refusals)

-- The calls of `try_push` for the first `n` updates.
abbrev pub calls : (ℕ → Option ℕ) → ℕ → ℕ
calls room zero = 0
calls room (suc n) = calls room n + (or_else 0 (room n) + 1)

double-mod : (m n : ℕ) → m ≡ n % 2 ^ 64 → ((m + 1) % 2 ^ 64 + 1) % 2 ^ 64 ≡ suc (suc n) % 2 ^ 64
double-mod m n h = omega (arith, h)

module _ {W : Type 0} ⦃d : Double W⦄ where
  abbrev pub Paired : List (LobUpdate W) → Type 0
  Paired [] = Unit {0}
  Paired (a ∷ []) = ⊥
  Paired (a ∷ b ∷ l) = IsPair a b × Paired l

  -- What the loop keeps: the updates stand in pairs; the counters count them, up to wrap-around;
  -- nothing is dropped; no sleep is longer than the configuration's longest; and `try_push` is
  -- called once for every refusal and every update.
  pub record IsReplayed (cfg : ReplayConfig) (room : ℕ → Option ℕ) (r : Replay W) : Type 0 where
    pub pairs : Paired r.pushed
    pub rows : r.rows_read ≡ length r.sleeps % 2 ^ 64
    pub updates : r.updates_pushed ≡ length r.pushed % 2 ^ 64
    pub two_each : length r.pushed ≡ 2 * length r.sleeps
    pub none_dropped : r.updates_dropped ≡ 0
    pub rested : AllUpTo (longest cfg.mode cfg) r.sleeps
    pub waited : r.attempts ≡ calls room (length r.pushed)

  row-IsPair : (row : CsvRow W) → is_bad row ≡ false → IsPair (ask_of row) (bid_of row)
  row-IsPair row h = record {
    sides = (refl, refl);
    one_time = refl;
    one_instrument = refl;
    in_range = ground arith;
    top_level = (refl, refl);
    priced = (ground arith, ground arith);
  }

  -- The loop goes on, or comes to an end, in a state that is kept.
  abbrev Ends : ReplayConfig → (ℕ → Option ℕ) → Option (Replay W) → Type 0
  Ends cfg room o = (r : Replay W) × (o ≡ some r) × IsReplayed cfg room r

  push-taken :
      (room : ℕ → Option ℕ) (r : Replay W) (u : LobUpdate W) (refusals : ℕ)
      → room (length r.pushed) ≡ some refusals
      → push_waiting room r u
        ≡ some (record r {
          updates_pushed = (r.updates_pushed + 1) % 2 ^ 64;
          pushed = u ∷ r.pushed;
          attempts = r.attempts + (refusals + 1);
        })
  unfolding push_waiting
  push-taken room r u refusals e = rw (push_waiting, e) refl

  take_row-Ends :
      (cfg : ReplayConfig) (room : ℕ → Option ℕ) (r : Replay W) (row : CsvRow W)
      → HasRoom room
      → IsReplayed cfg room r
      → Ends cfg room (take_row cfg room r row)
  unfolding take_row
  take_row-Ends cfg room r row has v = elim (Bool-cases (is_bad row)) [
    | inl e ↦ (
      record r { parse_errors = (r.parse_errors + 1) % 2 ^ 64 },
      rw e refl,
      record {
        pairs = v.pairs;
        rows = v.rows;
        updates = v.updates;
        two_each = v.two_each;
        none_dropped = v.none_dropped;
        rested = v.rested;
        waited = v.waited;
      },
    )
    | inr e ↦ (
      good,
      rw e both_taken,
      record {
        pairs = (row-IsPair row e, v.pairs);
        rows = omega (arith, v.rows);
        updates = double-mod r.updates_pushed (length r.pushed) v.updates;
        two_each = omega (arith, v.two_each);
        none_dropped = v.none_dropped;
        rested = (sleep-le cfg.mode cfg r.prev_ts row.ts_ns, v.rested);
        waited = counts;
      },
    )
  ]
    where
      k1 : ℕ
      k1 = (has (length r.pushed)).0

      k2 : ℕ
      k2 = (has (suc (length r.pushed))).0

      bid_taken : room (length r.pushed) ≡ some k1
      bid_taken = (has (length r.pushed)).1

      ask_taken : room (suc (length r.pushed)) ≡ some k2
      ask_taken = (has (suc (length r.pushed))).1

      slept : Replay W
      slept = record r {
        rows_read = (r.rows_read + 1) % 2 ^ 64;
        prev_ts = row.ts_ns;
        sleeps = sleep_in cfg.mode cfg r.prev_ts row.ts_ns ∷ r.sleeps;
      }

      bid_pushed : Replay W
      bid_pushed = record slept {
        updates_pushed = (r.updates_pushed + 1) % 2 ^ 64;
        pushed = bid_of row ∷ r.pushed;
        attempts = r.attempts + (k1 + 1);
      }

      good : Replay W
      good = record r {
        rows_read = (r.rows_read + 1) % 2 ^ 64;
        updates_pushed = ((r.updates_pushed + 1) % 2 ^ 64 + 1) % 2 ^ 64;
        prev_ts = row.ts_ns;
        sleeps = sleep_in cfg.mode cfg r.prev_ts row.ts_ns ∷ r.sleeps;
        pushed = ask_of row ∷ bid_of row ∷ r.pushed;
        attempts = r.attempts + (k1 + 1) + (k2 + 1);
      }

      both_taken :
          (push_waiting room slept (bid_of row) >>= λ r1. push_waiting room r1 (ask_of row))
          ≡ some good
      both_taken =
          ap (λ o. o >>= λ r1. push_waiting room r1 (ask_of row))
            (push-taken room slept (bid_of row) k1 bid_taken)
          ∙ push-taken room bid_pushed (ask_of row) k2 ask_taken

      counts :
          r.attempts + (k1 + 1) + (k2 + 1)
          ≡ calls room (length r.pushed)
            + (or_else 0 (room (length r.pushed)) + 1)
            + (or_else 0 (room (suc (length r.pushed))) + 1)
      counts = rw (bid_taken, ask_taken) (omega (arith, v.waited))

  module _ (lit : Decimal W) where
    turn-Ends :
        (cfg : ReplayConfig) (room : ℕ → Option ℕ) (r : Replay W) (p : Text)
        → HasRoom room
        → IsReplayed cfg room r
        → Ends cfg room (turn lit cfg room r p).0
    unfolding turn
    turn-Ends cfg room r p has v = elim (Bool-cases (is_header p)) [
      | inl e ↦ rw e (r, refl, v)
      | inr e ↦ rw e (take_row-Ends cfg room r (parse_row lit p).0 has v)
    ]

    loop-Ends :
        (cfg : ReplayConfig) (room : ℕ → Option ℕ) (shutdown : ℕ → Bool) (fuel n : ℕ) (r : Replay W)
        (p : Text)
        → HasRoom room
        → length p ≤ fuel
        → IsReplayed cfg room r
        → Ends cfg room (replay_loop lit cfg room shutdown fuel n r p)
    unfolding replay_loop
    loop-Ends cfg room shutdown fuel n r [] has h v = (r, refl, v)
    loop-Ends cfg room shutdown zero n r (c ∷ p) has h v = absurd (omega (arith, h))
    loop-Ends cfg room shutdown (suc fuel) n r (c ∷ p) has h v = elim (Bool-cases (shutdown n)) [
      | inl e ↦ (r, rw e refl, v)
      | inr e ↦
          let t = turn lit cfg room r (c ∷ p) in
          let (r1, went, v1) = turn-Ends cfg room r (c ∷ p) has v in
          let (r2, ended, v2) =
            loop-Ends cfg room shutdown fuel (suc n) r1 t.1 has
              (omega (arith, turn-le lit cfg room r (c ∷ p), h)) v1 in
          (r2, rw (e, went) ended, v2)
    ]

    idle-IsReplayed :
        (cfg : ReplayConfig) (room : ℕ → Option ℕ) → IsReplayed cfg room (idle {W = W})
    idle-IsReplayed cfg room = record {
      pairs = tt;
      rows = omega arith;
      updates = omega arith;
      two_each = omega arith;
      none_dropped = refl;
      rested = tt;
      waited = refl;
    }

    abbrev pub size : Option Text → ℕ
    size none = 0
    size (some file) = length file

    -- Of any file, with a shutdown at any moment, if the ring takes every update after any number of
    -- refusals: the replay ends within as many turns as the file has bytes. Whatever the bytes
    -- are, the updates pushed are then pairs of a bid and an ask with one time and one instrument
    -- below 512, at level 0 and with prices that are not zero; the counters count rows and updates,
    -- two updates to a row, up to wrap-around; nothing is counted as dropped; no sleep is longer
    -- than the configuration allows; and `try_push` is called once for every refusal and every
    -- update.
    pub replay_file-IsReplayed :
        (cfg : ReplayConfig) (room : ℕ → Option ℕ) (shutdown : ℕ → Bool) (fuel : ℕ)
        (file : Option Text)
        → HasRoom room
        → size file ≤ fuel
        → (r : Replay W) × (replay_file lit cfg room shutdown fuel file ≡ some r)
          × IsReplayed cfg room r
    unfolding replay_file
    replay_file-IsReplayed cfg room shutdown fuel none has h =
        (idle, refl, idle-IsReplayed cfg room)
    replay_file-IsReplayed cfg room shutdown fuel (some file) has h =
        loop-Ends cfg room shutdown fuel 0 idle file has h (idle-IsReplayed cfg room)
