-- ===== src/Replay/Tests.antt =====
-- A file of two rows with its header, and the theorems on the replay at it. Prices are whole
-- numbers, so the digits behind a point count as 0.
use holographic_market.Base.{
  ℕ, ◌≡◌, refl, Bool, true, false, List, [], ◌∷◌, Option, some, none, arith, map, not, ◌&&◌, ◌==◌,
  ◌%◌, if◌then◌else◌, Bool-cases, inl, inr,
}
use holographic_market.Base.Bytes.{codes}
use holographic_market.Base.Int.{ℤ, pos}
use holographic_market.Base.Double.{whole}
use holographic_market.Oms.Order.{Text}
use holographic_market.Replay.{
  Decimal, ReplayConfig, realtime, Replay, idle, parse_row, push_waiting, replay_loop, replay_file,
  digits_from, whole_from, fraction_from, skip_past, is_header, take_row, sleep_in, turn,
  parse_float,
}
use holographic_market.Replay.Rows.{Line, IsLine, IsField}
use holographic_market.Replay.File.{file_text, taken, replay-taken}
use holographic_market.Replay.Loop.{HasRoom, IsReplayed, replay_file-IsReplayed}

abbrev literals : Decimal ℤ
literals = record { of_digit = pos; ten = pos 10; tenth = pos 0 }

abbrev first : Line
first = record {
  ts = codes "100";
  id = codes "1";
  bid_price = codes "50";
  bid_qty = codes "2";
  ask_price = codes "51.5";
  ask_qty = codes "3";
}

abbrev second : Line
second = record {
  ts = codes "200";
  id = codes "900";
  bid_price = codes "x";
  bid_qty = [];
  ask_price = codes "7";
  ask_qty = codes "8";
}

abbrev is_field : Text → Bool
is_field [] = true
is_field (c ∷ p) = not (c == 44) && (not (c == 10) && is_field p)

field : (f : Text) → is_field f ≡ true → IsField f
field [] h = tt
field (c ∷ p) h = (ground arith, ground arith, field p (ground arith))

first_lem : IsLine first
first_lem = record {
  ts = field (codes "100") refl;
  id = field (codes "1") refl;
  bid_price = field (codes "50") refl;
  bid_qty = field (codes "2") refl;
  ask_price = field (codes "51.5") refl;
  ask_qty = field (codes "3") refl;
}

second_lem : IsLine second
second_lem = record {
  ts = field (codes "200") refl;
  id = field (codes "900") refl;
  bid_price = field (codes "x") refl;
  bid_qty = tt;
  ask_price = field (codes "7") refl;
  ask_qty = field (codes "8") refl;
}

abbrev settings : ReplayConfig
settings = record { mode = realtime; msgs_per_sec = 100000; max_gap_ms = 500 }

-- A ring that refuses every other update three times.
abbrev slow : ℕ → Option ℕ
slow i = if i % 2 == 0 then some 0 else some 3

slow-HasRoom : HasRoom slow
slow-HasRoom i = elim (Bool-cases (i % 2 == 0)) [ inl e ↦ (0, rw e refl) | inr e ↦ (3, rw e refl) ]

replay-taken_example :
    replay_loop literals settings slow (λ n. false) 2 0 idle (file_text (first ∷ second ∷ []))
    ≡ taken literals settings slow idle (first ∷ second ∷ [])
replay-taken_example =
    replay-taken literals settings slow (λ n. false) 2 0 idle (first ∷ second ∷ []) (λ m. refl)
      (first_lem, refl, (second_lem, refl, tt)) (omega arith)

replay_file-IsReplayed_example :
    (r : Replay ℤ) × (replay_file literals settings slow
        (λ n. false)
        60
        (some (file_text (first ∷ second ∷ [])))
      ≡ some r)
    × IsReplayed settings slow r
replay_file-IsReplayed_example =
    replay_file-IsReplayed literals settings slow (λ n. false) 60
      (some (file_text (first ∷ second ∷ []))) slow-HasRoom (omega arith)

-- If the consumer stops, the replay waits for ever, a shutdown of the second test notwithstanding.
waits_for_ever :
    replay_loop literals settings
      (λ i. none)
      (λ n. n == 1)
      60
      0
      idle
      (file_text (first ∷ second ∷ []))
    ≡ none
unfolding replay_loop turn parse_row parse_float whole_from fraction_from digits_from skip_past
    is_header take_row sleep_in push_waiting
waits_for_ever = refl

abbrev summary : Option (Replay ℤ) → ℕ × ℕ × List ℤ
summary none = (0, 0, [])
summary (some r) = (r.rows_read, r.parse_errors, map (λ u. u.price) r.pushed)

-- The header and the row of an instrument out of range push nothing; the first row pushes two.
header_skipped :
    summary (
      replay_file literals settings
        (λ i. some 3)
        (λ n. false)
        80
        (some (codes "ts,id\n100,1,50,2,51.5,3\n200,900,1,1,7,8")))
    ≡ (1, 1, pos 51 ∷ pos 50 ∷ [])
unfolding replay_file replay_loop turn parse_row parse_float whole_from fraction_from digits_from
    skip_past is_header take_row sleep_in push_waiting
header_skipped = refl

-- `skip_comma` does not stop at the end of a line: a row that is cut short takes the fields that it
-- lacks from the next one, so prices are made of other fields and the next row is lost.
short_row :
    summary (
      replay_file literals settings
        (λ i. some 0)
        (λ n. false)
        80
        (some (codes "100,1\n200,1,50,2,51,3\n")))
    ≡ (1, 0, pos 2 ∷ pos 1 ∷ [])
unfolding replay_file replay_loop turn parse_row parse_float whole_from fraction_from digits_from
    skip_past is_header take_row sleep_in push_waiting
short_row = refl
