-- ===== src/Lob.antt =====
-- engine/core/lob_core.hpp: the order books of all instruments, as arrays with a slot per level.
-- The arrays have a slot for each instrument and level, so a product of two indices in range fits
-- 64 bits. A call is one step here; Seqlock.antt has its accesses one by one.
pub mod Levels
pub mod Mirror
pub mod Seqlock
mod Tests
use holographic_market.Base.{
  ℕ, ◌+◌, ◌*◌, ◌%◌, ◌^◌, ◌-◌, Bool, not, List, replicate, ltb, if◌then◌else◌, get_or, set,
}
use holographic_market.Base.Double.{Double, ◌<?◌}

pub data BookSide : Type 0 where
  bid ask : BookSide

abbrev pub side_code : BookSide → ℕ
side_code bid = 0
side_code ask = 1

pub record LobUpdate (W : Type 0) : Type 0 where
  pub timestamp_ns : ℕ
  pub price : W
  pub quantity : W
  pub instrument_id : ℕ
  pub depth_level : ℕ
  pub side : BookSide

pub record LobStats : Type 0 where
  pub total_updates : ℕ
  pub bid_updates : ℕ
  pub ask_updates : ℕ
  pub dropped_updates : ℕ

pub record Lob (W : Type 0) : Type 0 where
  pub n_instruments : ℕ
  pub depth : ℕ
  pub bid_prices : List W
  pub ask_prices : List W
  pub bid_qtys : List W
  pub ask_qtys : List W
  pub seq_nos : List ℕ
  pub last_ts_ns : List ℕ
  pub stats : LobStats
  pub seq : ℕ

abbrev pub count : ℕ → ℕ
count n = (n + 1) % 2 ^ 64

abbrev pub base : ℕ → ℕ → ℕ → ℕ
base depth instr level = instr * depth + level

module _ {W : Type 0} ⦃d : Double W⦄ where
  -- The constructor, with `hundred` for the literal 100.0 of the prices; `k_invalid_seq` is the
  -- greatest 32-bit number.
  unfoldable pub make : W → ℕ → ℕ → Lob W
  make hundred n_instruments depth = record {
    n_instruments = n_instruments;
    depth = depth;
    bid_prices = replicate (n_instruments * depth) hundred;
    ask_prices = replicate (n_instruments * depth) hundred;
    bid_qtys = replicate (n_instruments * depth) d.nought;
    ask_qtys = replicate (n_instruments * depth) d.nought;
    seq_nos = replicate (n_instruments * depth * 2) (2 ^ 32 - 1);
    last_ts_ns = replicate n_instruments 0;
    stats = record { total_updates = 0; bid_updates = 0; ask_updates = 0; dropped_updates = 0 };
    seq = 0;
  }

  unfoldable pub drop_update : Lob W → Lob W
  drop_update b = record b {
    stats = record (b.stats) { dropped_updates = count b.stats.dropped_updates };
  }

  -- The arrays of one side of the book, and its counter.
  unfoldable pub write_side : Lob W → BookSide → ℕ → W → W → Lob W
  write_side b bid at price quantity = record b {
    bid_prices = set b.bid_prices at price;
    bid_qtys = set b.bid_qtys at quantity;
    stats = record (b.stats) { bid_updates = count b.stats.bid_updates };
  }
  write_side b ask at price quantity = record b {
    ask_prices = set b.ask_prices at price;
    ask_qtys = set b.ask_qtys at quantity;
    stats = record (b.stats) { ask_updates = count b.stats.ask_updates };
  }

  -- What the write of a level does besides: the sequence number of the level, the time stamp of the
  -- instrument, the two additions to the sequence lock and the number of updates.
  unfoldable pub stamp : Lob W → LobUpdate W → Lob W
  stamp b u = record b {
    seq_nos =
        set b.seq_nos (u.instrument_id * b.depth * 2 + u.depth_level * 2 + side_code u.side)
          (b.stats.total_updates % 2 ^ 32);
    last_ts_ns = set b.last_ts_ns u.instrument_id u.timestamp_ns;
    seq = count (count b.seq);
    stats = record (b.stats) { total_updates = count b.stats.total_updates };
  }

  unfoldable pub apply : Lob W → LobUpdate W → Lob W
  apply b u =
      if not (ltb u.instrument_id b.n_instruments)
      then drop_update b
      else (if not (ltb u.depth_level b.depth)
          then drop_update b
          else stamp
              (write_side b u.side (base b.depth u.instrument_id u.depth_level) u.price u.quantity)
              u)

  -- Price and quantity of a level: an element of `bid_prices(instrument)` or `ask_prices`, and of
  -- `bid_qtys` or `ask_qtys`.
  unfoldable pub level : Lob W → BookSide → ℕ → ℕ → W × W
  level b bid instr at = (
    get_or b.bid_prices (base b.depth instr at) d.nought,
    get_or b.bid_qtys (base b.depth instr at) d.nought,
  )
  level b ask instr at = (
    get_or b.ask_prices (base b.depth instr at) d.nought,
    get_or b.ask_qtys (base b.depth instr at) d.nought,
  )

  unfoldable pub best_bid : Lob W → ℕ → W
  best_bid b instr = get_or b.bid_prices (instr * b.depth) d.nought

  unfoldable pub best_ask : Lob W → ℕ → W
  best_ask b instr = get_or b.ask_prices (instr * b.depth) d.nought

  -- With `half` for the literal 0.5.
  unfoldable pub mid_price : W → Lob W → ℕ → W
  mid_price half b instr =
      let at = instr * b.depth in
      d.mul (d.add (get_or b.bid_prices at d.nought) (get_or b.ask_prices at d.nought)) half

  -- With `two_bps` for the literal 2e-4.
  unfoldable pub spread : W → W → Lob W → ℕ → W
  unfolding mid_price
  spread half two_bps b instr =
      let at = instr * b.depth in
      let s = d.sub (get_or b.ask_prices at d.nought) (get_or b.bid_prices at d.nought) in
      if d.nought <? s then s else d.mul (mid_price half b instr) two_bps
