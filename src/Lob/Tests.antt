-- ===== src/Lob/Tests.antt =====
-- A book of two instruments with two levels each, and the theorems on it. Amounts are whole numbers.
use holographic_market.Base.{ℕ, zero, suc, ◌%◌, List, [], ◌∷◌, ◌≡◌, refl, arith, if◌then◌else◌}
use holographic_market.Base.Int.{ℤ, pos}
use holographic_market.Base.Double.{whole}
use holographic_market.Lob.{bid, LobUpdate, Lob, make, apply, level, stamp, write_side}
use holographic_market.Lob.Seqlock.{Writer.{idle}, Reader.{copied}, Shared, Step, Reach}
use holographic_market.Lob.Seqlock.Step.{
  loads, copies, begins, writes_price, writes_qty, ends, loads_again, returns,
}
use holographic_market.Lob.Seqlock.Reach.{here, later}
use holographic_market.Lob.Seqlock.Stable.{IsRead, IsStable, stage_snapshot-IsStable}
use holographic_market.Lob.Mirror.{Attempt, Staging, attempts, stage_snapshot}
use holographic_market.Lob.Levels.{names, apply-level}

abbrev fresh : Lob ℤ
unfolding make
fresh = make (pos 100) 2 2

abbrev quote : LobUpdate ℤ
quote = record {
  timestamp_ns = 7;
  price = pos 99;
  quantity = pos 5;
  instrument_id = 1;
  depth_level = 0;
  side = bid;
}

quote_lem : level (apply fresh quote) bid 1 0 ≡ (pos 99, pos 5)
unfolding apply level stamp write_side make fresh
quote_lem = refl

apply-level_example :
    level (apply fresh quote) bid 1 0
    ≡ (if names quote bid 1 0 then (pos 99, pos 5) else level fresh bid 1 0)
unfolding make fresh
apply-level_example =
    apply-level fresh quote bid 1 0 (refl, refl, refl, refl) (omega arith) (omega arith)

-- The first attempt meets a write, the second one is torn, the third one is clean.
abbrev reads : ℕ → Attempt ℕ
reads zero = record { seq_before = 3; copy = 10; seq_after = 4 }
reads (suc zero) = record { seq_before = 4; copy = 11; seq_after = 6 }
reads (suc (suc n)) = record { seq_before = 6; copy = 12; seq_after = 6 }

abbrev before : Staging ℕ
before = record { staged = 0; retries = 0; forced_after_max_retries = 0; snapshots_taken = 0 }

stage_snapshot_lem :
    stage_snapshot reads before
    ≡ record { staged = 12; retries = 2; forced_after_max_retries = 0; snapshots_taken = 1 }
unfolding stage_snapshot attempts
stage_snapshot_lem = refl

-- A book with one level, and a call of `apply` that the reader's first attempt falls into: that
-- attempt copies the old price and the new quantity.
abbrev small_book : Lob ℤ
unfolding make
small_book = make (pos 100) 1 1

abbrev only : LobUpdate ℤ
only = record {
  timestamp_ns = 7;
  price = pos 99;
  quantity = pos 5;
  instrument_id = 0;
  depth_level = 0;
  side = bid;
}

infixl 40 ◌>>◌
abbrev ◌>>◌ : {s t : Shared ℤ} → Reach small_book s → Step s t → Reach small_book t
◌>>◌ r step = later r step

abbrev torn : Attempt (List ℤ)
torn = record { seq_before = 0; copy = pos 100 ∷ pos 100 ∷ pos 5 ∷ pos 0 ∷ []; seq_after = 2 }

abbrev whole_copy : Attempt (List ℤ)
whole_copy = record { seq_before = 2; copy = pos 99 ∷ pos 100 ∷ pos 5 ∷ pos 0 ∷ []; seq_after = 2 }

-- After an attempt that the call has ended in.
abbrev after : Attempt (List ℤ) → List (LobUpdate ℤ) → ℕ → Shared ℤ
after a seen loaded_at = record {
  book = apply small_book only;
  writer = idle;
  reader = copied a;
  applied = only ∷ [];
  additions = 2;
  seen = seen;
  loaded_at = loaded_at;
}

torn_run : Reach small_book (after torn [] 0)
unfolding apply stamp write_side make small_book
torn_run =
    here
    >> loads refl
    >> copies (pos 100) refl refl
    >> begins only refl refl
    >> writes_price refl
    >> writes_qty refl
    >> ends refl
    >> copies (pos 100) refl refl
    >> copies (pos 5) refl refl
    >> copies (pos 0) refl refl
    >> loads_again refl refl

whole_run : Reach small_book (after whole_copy (only ∷ []) 2)
unfolding apply stamp write_side make small_book
whole_run =
    torn_run
    >> returns refl
    >> loads refl
    >> copies (pos 99) refl refl
    >> copies (pos 100) refl refl
    >> copies (pos 5) refl refl
    >> copies (pos 0) refl refl
    >> loads_again refl refl

abbrev two_reads : ℕ → Attempt (List ℤ)
two_reads zero = torn
two_reads (suc k) = whole_copy

abbrev nothing_yet : Staging (List ℤ)
nothing_yet = record { staged = []; retries = 0; forced_after_max_retries = 0; snapshots_taken = 0 }

two_runs : (k : ℕ) → (two_reads k).seq_before % 2 ≡ 0 → IsRead small_book (only ∷ []) (two_reads k)
two_runs zero even = (after torn [] 0, torn_run, refl, omega arith, ([], refl))
two_runs (suc k) even = (after whole_copy (only ∷ []) 2, whole_run, refl, omega arith, ([], refl))

stage_snapshot-IsStable_example :
    IsStable small_book (only ∷ []) (stage_snapshot two_reads nothing_yet).staged
unfolding stage_snapshot attempts make small_book
stage_snapshot-IsStable_example =
    stage_snapshot-IsStable small_book (only ∷ []) two_reads nothing_yet refl two_runs refl
      (omega arith)
