-- ===== src/Depth.antt =====
-- `BinanceFeedHandler`, engine/net/binance_feed.hpp: from the text of a depth message to the pushes
-- of its levels. The connection is Boost.Beast, and Boost.JSON is a parameter. An exception ends
-- the call where it is thrown: what was pushed and counted before stays.
pub mod Pushes
mod Tests
use holographic_market.Base.{
  ℕ, zero, suc, ◌+◌, ◌-◌, ◌%◌, ◌^◌, Bool, true, false, List, [], ◌∷◌, ◌++◌, Option, none, some, set,
  get_or, if◌then◌else◌, ◌&&◌, ◌==◌, leb, length,
}
use holographic_market.Base.Bytes.{codes}
use holographic_market.Base.Double.{Double}
use holographic_market.Oms.Order.{Text}
use holographic_market.Lob.{LobUpdate, BookSide, bid, ask}
use holographic_market.Ring.{Ring, try_push}
use holographic_market.Replay.{Decimal, is_digit}

-- What the code calls of Boost.JSON: `none` is an exception, but of `if_contains` a null pointer.
pub record BoostJson (J : Type 0) : Type 0 where
  pub parse : Text → Option J
  pub is_object : J → Bool
  pub if_contains : J → Text → Option J
  pub as_string : J → Option Text
  pub as_array : J → Option (List J)

abbrev pub k_feed_n_instruments : ℕ
k_feed_n_instruments = 4

abbrev pub k_max_depth : ℕ
k_max_depth = 16

abbrev pub is_code : ℕ → ℕ → ℕ → ℕ → ℕ → ℕ → Bool
is_code a b c x y z = a == x && b == y && c == z

-- The greatest 32-bit number stands for no instrument.
unfoldable pub instrument_id_from_stream : Text → ℕ
instrument_id_from_stream (a ∷ b ∷ c ∷ x ∷ y ∷ z ∷ s) =
    if is_code a b c b'b' b't' b'c'
    then 0
    else if is_code a b c b'e' b't' b'h'
    then 1
    else if is_code a b c b's' b'o' b'l'
    then 2
    else if is_code a b c b'b' b'n' b'b'
    then 3
    else 2 ^ 32 - 1
instrument_id_from_stream _ = 2 ^ 32 - 1

module _ {W : Type 0} ⦃d : Double W⦄ (lit : Decimal W) where
  -- The loop of `parse_price`: its variables `result`, `frac` and `dot`.
  unfoldable pub price_from : W → W → Bool → Text → W
  price_from result frac dot [] = result
  price_from result frac dot (c ∷ sv) =
      let digit = lit.of_digit (c - 48) in
      let whole = price_from (d.add (d.mul result lit.ten) digit) frac dot sv in
      let part = price_from (d.add result (d.mul digit frac)) (d.mul frac lit.tenth) dot sv in
      let behind = price_from result frac true sv in
      if is_digit c then (if dot then part else whole) else if c == 46 then behind else result

  unfoldable pub parse_price : Text → W
  unfolding price_from
  parse_price sv = price_from d.nought lit.tenth false sv

pub record FeedMetrics : Type 0 where
  pub msgs_received : ℕ
  pub msgs_dropped : ℕ
  pub parse_errors : ℕ
  pub reconnects : ℕ
  pub per_instrument_msgs : List ℕ

pub record Feeding (W : Type 0) : Type 0 where
  pub ring : Ring (LobUpdate W)
  pub metrics : FeedMetrics

abbrev pub count : ℕ → ℕ
count n = (n + 1) % 2 ^ 64

-- One element of `levels`: too short, not of the form that is read, or a price and a quantity.
pub data Entry (W : Type 0) : Type 0 where
  too_short : Entry W
  malformed : Entry W
  priced : (price quantity : W) → Entry W

abbrev pub note_push : Bool → FeedMetrics → FeedMetrics
note_push true m = m
note_push false m = record m { msgs_dropped = count m.msgs_dropped }

module _ {W : Type 0} where
  -- A push, which is counted as dropped when the ring refuses it.
  unfoldable pub push_update : Feeding W → LobUpdate W → Feeding W
  push_update f u =
      let (accepted, ring) = try_push f.ring u in
      record { ring = ring; metrics = note_push accepted f.metrics }

  unfoldable pub count_message : Feeding W → ℕ → Feeding W
  count_message f instr = record f {
    metrics = record (f.metrics) {
      msgs_received = count f.metrics.msgs_received;
      per_instrument_msgs =
          set f.metrics.per_instrument_msgs instr
            (count (get_or f.metrics.per_instrument_msgs instr 0));
    };
  }

  -- The handler of an exception: true means that there was none.
  abbrev pub caught : Bool × Feeding W → Feeding W
  caught (true, f) = f
  caught (false, f) = record f {
    metrics = record (f.metrics) { parse_errors = count f.metrics.parse_errors };
  }

module _ {J W : Type 0} ⦃d : Double W⦄ (json : BoostJson J) (lit : Decimal W) where
  abbrev pub entry_prices : Option Text → Option Text → Entry W
  entry_prices (some p) (some q) = priced (parse_price lit p) (parse_price lit q)
  entry_prices _ _ = malformed

  abbrev pub entry_items : Option (List J) → Entry W
  entry_items none = malformed
  entry_items (some (p ∷ q ∷ more)) = entry_prices (json.as_string p) (json.as_string q)
  entry_items (some _) = too_short

  abbrev pub level_update : ℕ → ℕ → BookSide → ℕ → W → W → LobUpdate W
  level_update ts instr side lvl price quantity = record {
    timestamp_ns = ts;
    price = price;
    quantity = quantity;
    instrument_id = instr;
    depth_level = lvl;
    side = side;
  }

  -- `push_levels`, from level `lvl` on, with `more` levels to go before the limit.
  unfoldable pub levels_from : ℕ → ℕ → BookSide → ℕ → ℕ → List J → Feeding W → Bool × Feeding W
  unfolding push_update
  levels_from ts instr side lvl zero levels f = (true, f)
  levels_from ts instr side lvl (suc more) [] f = (true, f)
  levels_from ts instr side lvl (suc more) (level ∷ levels) f =
      elim (entry_items (json.as_array level)) [
        | too_short ↦ levels_from ts instr side (suc lvl) more levels f
        | malformed ↦ (false, f)
        | priced p q ↦
            levels_from ts instr side (suc lvl) more levels
              (push_update f (level_update ts instr side lvl p q))
      ]

  abbrev pub push_levels : ℕ → ℕ → BookSide → Option (List J) → Feeding W → Bool × Feeding W
  push_levels ts instr side none f = (false, f)
  push_levels ts instr side (some levels) f = levels_from ts instr side 0 k_max_depth levels f

  abbrev pub then_asks : ℕ → ℕ → J → Bool × Feeding W → Bool × Feeding W
  then_asks ts instr a (true, f) = push_levels ts instr ask (json.as_array a) f
  then_asks ts instr a (false, f) = (false, f)

  abbrev pub push_sides : ℕ → ℕ → Option J → Option J → Feeding W → Bool × Feeding W
  push_sides ts instr (some b) (some a) f =
      then_asks ts instr a (push_levels ts instr bid (json.as_array b) (count_message f instr))
  push_sides ts instr _ _ f = (true, f)

  abbrev pub push_data : ℕ → Option Text → J → Feeding W → Bool × Feeding W
  push_data ts none dv f = (false, f)
  push_data ts (some stream_name) dv f =
      let instr = instrument_id_from_stream stream_name in
      if leb k_feed_n_instruments instr
      then (true, f)
      else if json.is_object dv
      then push_sides ts instr (json.if_contains dv (codes "b")) (json.if_contains dv (codes "a")) f
      else (false, f)

  abbrev pub push_message : ℕ → Option J → Option J → Feeding W → Bool × Feeding W
  push_message ts (some sv) (some dv) f = push_data ts (json.as_string sv) dv f
  push_message ts _ _ f = (true, f)

  abbrev pub push_root : ℕ → Option J → Feeding W → Bool × Feeding W
  push_root ts none f = (false, f)
  push_root ts (some obj) f =
      if json.is_object obj
      then push_message ts (json.if_contains obj (codes "stream"))
          (json.if_contains obj (codes "data")) f
      else (false, f)

  -- `ts` is the clock's reading. The latency sample is left out.
  unfoldable pub parse_and_enqueue : Feeding W → ℕ → Text → Feeding W
  unfolding levels_from count_message instrument_id_from_stream
  parse_and_enqueue f ts raw = caught (push_root ts (json.parse raw) f)
