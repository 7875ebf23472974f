-- ===== src/Replay/File.antt =====
-- Files of well-formed rows.
use holographic_market.Base.{
  ℕ, zero, suc, ◌≤◌, ◌≡◌, refl, ap, ◌∙◌, Bool, false, List, [], ◌∷◌, ◌++◌, Option, none, some,
  arith, length,
}
use holographic_market.Base.Bytes.{◌>>=◌}
use holographic_market.Base.Double.{Double}
use holographic_market.Oms.Order.{Text}
use holographic_market.Replay.{
  Decimal, Replay, ReplayConfig, take_row, turn, replay_loop, is_header,
}
use holographic_market.Replay.Rows.{
  Line, line_text, IsLine, StartsWithDigit, row_of, parse_row-line,
}

abbrev pub file_text : List Line → Text
file_text [] = []
file_text (l ∷ lines) = line_text l (file_text lines)

abbrev pub AllLines : List Line → Type 0
AllLines [] = Unit {0}
AllLines (l ∷ lines) = IsLine l × StartsWithDigit l.ts × AllLines lines

digit-not_header : (f rest : Text) → StartsWithDigit f → is_header (f ++ rest) ≡ false
unfolding is_header
digit-not_header [] rest h = absurd h
digit-not_header (c ∷ f) rest h = ground arith

module _ {W : Type 0} ⦃d : Double W⦄ (lit : Decimal W) where
  -- The rows of the lines, each taken in turn, unless a wait for room does not end.
  abbrev pub taken : ReplayConfig → (ℕ → Option ℕ) → Replay W → List Line → Option (Replay W)
  taken cfg room r [] = some r
  taken cfg room r (l ∷ lines) =
      take_row cfg room r (row_of lit l) >>= λ r'. taken cfg room r' lines

  turn-line :
      (cfg : ReplayConfig) (room : ℕ → Option ℕ) (r : Replay W) (l : Line) (rest : Text)
      → IsLine l
      → StartsWithDigit l.ts
      → turn lit cfg room r (line_text l rest) ≡ (take_row cfg room r (row_of lit l), rest)
  unfolding turn
  turn-line cfg room r l rest ok digit =
      rw (digit-not_header l.ts _ digit)
        (ap (λ t. (take_row cfg room r t.0, t.1)) (parse_row-line lit l rest ok))

  loop_line :
      (cfg : ReplayConfig) (room : ℕ → Option ℕ) (shutdown : ℕ → Bool) (fuel n : ℕ) (r : Replay W)
      (f p : Text)
      → StartsWithDigit f
      → shutdown n ≡ false
      → replay_loop lit cfg room shutdown (suc fuel) n r (f ++ p) ≡ (
          let t = turn lit cfg room r (f ++ p) in
          t.0 >>= λ r'. replay_loop lit cfg room shutdown fuel (suc n) r' t.1)
  unfolding replay_loop
  loop_line cfg room shutdown fuel n r [] p digit on = absurd digit
  loop_line cfg room shutdown fuel n r (c ∷ f) p digit on = rw on refl

  loop_end :
      (cfg : ReplayConfig) (room : ℕ → Option ℕ) (shutdown : ℕ → Bool) (fuel n : ℕ) (r : Replay W)
      → replay_loop lit cfg room shutdown fuel n r [] ≡ some r
  unfolding replay_loop
  loop_end cfg room shutdown fuel n r = refl

  -- Without a shutdown, a file of rows of six fields, the first of which starts with a digit, is
  -- replayed row by row and to its end: each row does what its six fields, read by themselves,
  -- stand for. If the wait for room of some row does not end, neither does the replay.
  pub replay-taken :
      (cfg : ReplayConfig) (room : ℕ → Option ℕ) (shutdown : ℕ → Bool) (fuel n : ℕ) (r : Replay W)
      (lines : List Line)
      → ((m : ℕ) → shutdown m ≡ false)
      → AllLines lines
      → length lines ≤ fuel
      → replay_loop lit cfg room shutdown fuel n r (file_text lines) ≡ taken cfg room r lines
  replay-taken cfg room shutdown fuel n r [] on ok h = loop_end cfg room shutdown fuel n r
  replay-taken cfg room shutdown zero n r (l ∷ lines) on ok h = absurd (omega (arith, h))
  replay-taken cfg room shutdown (suc fuel) n r (l ∷ lines) on (ok, digit, more) h =
      loop_line cfg room shutdown fuel n r l.ts _ digit (on n)
      ∙ rw (turn-line cfg room r l (file_text lines) ok digit) (
          by_row (take_row cfg room r (row_of lit l))
            (λ r'. replay-taken cfg room shutdown fuel (suc n) r' lines on more (omega (arith, h))))
    where
      by_row :
          (o : Option (Replay W))
          → ((r' : Replay W)
              → replay_loop lit cfg room shutdown fuel (suc n) r' (file_text lines)
                ≡ taken cfg room r' lines)
          → (o >>= λ r'. replay_loop lit cfg room shutdown fuel (suc n) r' (file_text lines))
            ≡ (o >>= λ r'. taken cfg room r' lines)
      by_row none same = refl
      by_row (some r') same = same r'
