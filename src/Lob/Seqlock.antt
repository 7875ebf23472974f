-- ===== src/Lob/Seqlock.antt =====
-- The sequence lock of the books: `LobSoA::apply` and a copy of `GpuLobMirror::stage_snapshot`, an
-- access of what they share at a time, in any interleaving. The fences keep the accesses of each
-- thread in their order. The counters, the sequence numbers and the time stamps, which the reader
-- does not copy, are written with the second addition to `seq_`.
pub mod Stages
pub mod Inv
pub mod Stable
use holographic_market.Base.{
  ℕ, zero, suc, ◌+◌, ◌*◌, ◌%◌, ◌^◌, ◌≡◌, Bool, true, false, ◌&&◌, List, [], ◌∷◌, ◌++◌, some, ltb,
  get_elem?, set, length,
}
use holographic_market.Base.Double.{Double}
use holographic_market.Lob.{
  BookSide, bid, ask, side_code, LobUpdate, LobStats, Lob, count, base, drop_update,
}
use holographic_market.Lob.Mirror.{Attempt}

-- The counters of a call.
abbrev pub counted : BookSide → LobStats → LobStats
counted bid stats = record stats {
  bid_updates = count stats.bid_updates;
  total_updates = count stats.total_updates;
}
counted ask stats = record stats {
  ask_updates = count stats.ask_updates;
  total_updates = count stats.total_updates;
}

module _ {W : Type 0} where
  -- The four arrays that are copied, one behind the other.
  abbrev pub cells : Lob W → List W
  cells b = b.bid_prices ++ (b.ask_prices ++ (b.bid_qtys ++ b.ask_qtys))

  abbrev pub fits : Lob W → LobUpdate W → Bool
  fits b u = ltb u.instrument_id b.n_instruments && ltb u.depth_level b.depth

  abbrev pub add_seq : Lob W → Lob W
  add_seq b = record b { seq = count b.seq }

  abbrev pub put_price : BookSide → Lob W → LobUpdate W → Lob W
  put_price bid b u = record b {
    bid_prices = set b.bid_prices (base b.depth u.instrument_id u.depth_level) u.price;
  }
  put_price ask b u = record b {
    ask_prices = set b.ask_prices (base b.depth u.instrument_id u.depth_level) u.price;
  }

  abbrev pub put_qty : BookSide → Lob W → LobUpdate W → Lob W
  put_qty bid b u = record b {
    bid_qtys = set b.bid_qtys (base b.depth u.instrument_id u.depth_level) u.quantity;
  }
  put_qty ask b u = record b {
    ask_qtys = set b.ask_qtys (base b.depth u.instrument_id u.depth_level) u.quantity;
  }

  abbrev pub close_write : BookSide → Lob W → LobUpdate W → Lob W
  close_write side b u = record b {
    stats = counted side b.stats;
    seq_nos =
        set b.seq_nos (u.instrument_id * b.depth * 2 + u.depth_level * 2 + side_code u.side)
          (b.stats.total_updates % 2 ^ 32);
    last_ts_ns = set b.last_ts_ns u.instrument_id u.timestamp_ns;
    seq = count b.seq;
  }

-- Where the writer stands in `apply`.
pub data Writer (W : Type 0) : Type 0 where
  idle : Writer W
  began : LobUpdate W → Writer W  -- the first addition to `seq_` is made
  priced : LobUpdate W → Writer W  -- the price is written
  sized : LobUpdate W → Writer W  -- the quantity is written

-- Where the reader stands in an attempt.
pub data Reader (W : Type 0) : Type 0 where
  outside : Reader W
  copying : (seq_before : ℕ) (taken : List W) → Reader W  -- so many cells are copied
  copied : Attempt (List W) → Reader W  -- the second load of `seq_` is made

-- `applied` records the updates whose calls have ended, `additions` how often `seq_` was added to;
-- `seen` and `loaded_at` are what they were at the reader's first load.
pub record Shared (W : Type 0) : Type 0 where
  pub book : Lob W
  pub writer : Writer W
  pub reader : Reader W
  pub applied : List (LobUpdate W)
  pub additions : ℕ
  pub seen : List (LobUpdate W)
  pub loaded_at : ℕ

module _ {W : Type 0} ⦃d : Double W⦄ where
  pub data Step (s : Shared W) : Shared W → Type 0 where
    drops :
        (u : LobUpdate W)
        → s.writer ≡ Writer.idle
        → fits s.book u ≡ false
        → Step s (record s { book = drop_update s.book; applied = s.applied ++ u ∷ [] })
    begins :
        (u : LobUpdate W)
        → s.writer ≡ Writer.idle
        → fits s.book u ≡ true
        → Step s (record s {
          book = add_seq s.book;
          writer = Writer.began u;
          additions = suc s.additions;
        })
    writes_price :
        {u : LobUpdate W}
        → s.writer ≡ Writer.began u
        → Step s (record s { book = put_price u.side s.book u; writer = Writer.priced u })
    writes_qty :
        {u : LobUpdate W}
        → s.writer ≡ Writer.priced u
        → Step s (record s { book = put_qty u.side s.book u; writer = Writer.sized u })
    ends :
        {u : LobUpdate W}
        → s.writer ≡ Writer.sized u
        → Step s (record s {
          book = close_write u.side s.book u;
          writer = Writer.idle;
          applied = s.applied ++ u ∷ [];
          additions = suc s.additions;
        })
    loads :
        s.reader ≡ Reader.outside
        → Step s (record s {
          reader = Reader.copying s.book.seq [];
          seen = s.applied;
          loaded_at = s.additions;
        })
    copies :
        {v : ℕ} {taken : List W} (x : W)
        → s.reader ≡ Reader.copying v taken
        → get_elem? (cells s.book) (length taken) ≡ some x
        → Step s (record s { reader = Reader.copying v (taken ++ x ∷ []) })
    loads_again :
        {v : ℕ} {taken : List W}
        → s.reader ≡ Reader.copying v taken
        → length taken ≡ length (cells s.book)
        → Step s (record s {
          reader = Reader.copied (record { seq_before = v; copy = taken; seq_after = s.book.seq });
        })
    returns :
        {a : Attempt (List W)}
        → s.reader ≡ Reader.copied a
        → Step s (record s { reader = Reader.outside })

  abbrev pub at_rest : Lob W → Shared W
  at_rest b = record {
    book = b;
    writer = Writer.idle;
    reader = Reader.outside;
    applied = [];
    additions = 0;
    seen = [];
    loaded_at = 0;
  }

  pub data Reach (b : Lob W) : Shared W → Type 0 where
    here : Reach b (at_rest b)
    later : {s t : Shared W} → Reach b s → Step s t → Reach b t
