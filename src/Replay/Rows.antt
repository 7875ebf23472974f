-- ===== src/Replay/Rows.antt =====
-- A well-formed row is read as its six fields, and the reading stops at the end of its line.
use holographic_market.Base.{
  ℕ, ◌+◌, ◌*◌, ◌-◌, ◌%◌, ◌^◌, ◌≡◌, ◌≢◌, refl, ap, ◌∙◌, true, false, [], ◌∷◌, ◌++◌, ◌==◌, ==_ne,
  ==_refl, arith, Bool-cases, ◌⊎◌, inl, inr,
}
use holographic_market.Base.Double.{Double}
use holographic_market.Oms.Order.{Text}
use holographic_market.Replay.{
  Decimal, digits_from, whole_from, fraction_from, after_whole, parse_float, skip_past, is_digit,
  CsvRow, parse_row, parse_u64, parse_u32,
}

-- The bytes of a field: no comma, and no end of line.
abbrev pub IsField : Text → Type 0
IsField [] = Unit {0}
IsField (c ∷ p) = (c ≢ 44) × (c ≢ 10) × IsField p

-- A byte at which every parse stops.
abbrev pub Stops : ℕ → Type 0
Stops c = (is_digit c ≡ false) × (c ≢ 46)

comma-Stops : Stops 44
comma-Stops = (refl, λ e. omega (arith, e))

line-Stops : Stops 10
line-Stops = (refl, λ e. omega (arith, e))

skip-append :
    (b : ℕ) (f rest : Text) → IsField f → (b ≡ 44) ⊎ (b ≡ 10) → skip_past b (f ++ b ∷ rest) ≡ rest
unfolding skip_past
skip-append b [] rest ok h = rw (==_refl b) refl
skip-append b (c ∷ f) rest ok h = rw (==_ne c b (other h)) (skip-append b f rest ok.2 h)
  where
    other : (b ≡ 44) ⊎ (b ≡ 10) → c ≢ b
    other (inl e) = rw e ok.0
    other (inr e) = rw e ok.1

-- What a parse leaves of a field, with the rest of the file behind it.
abbrev behind : {V : Type 0} → V × Text → Text → V × Text
behind (v, left) rest = (v, left ++ rest)

digits-append :
    (width out c : ℕ) (f rest : Text)
    → Stops c
    → digits_from width out (f ++ c ∷ rest) ≡ behind (digits_from width out f) (c ∷ rest)
unfolding digits_from
digits-append width out c [] rest stop = rw stop.0 refl
digits-append width out c (x ∷ f) rest stop = elim (Bool-cases (is_digit x)) [
  | inl e ↦ rw e (digits-append width ((out * 10 + (x - 48)) % 2 ^ width) c f rest stop)
  | inr e ↦ rw e refl
]

digits-IsField : (width out : ℕ) (f : Text) → IsField f → IsField (digits_from width out f).1
unfolding digits_from
digits-IsField width out [] ok = tt
digits-IsField width out (x ∷ f) ok = elim (Bool-cases (is_digit x)) [
  | inl e ↦ rw e (digits-IsField width ((out * 10 + (x - 48)) % 2 ^ width) f ok.2)
  | inr e ↦ rw e ok
]

module _ {W : Type 0} ⦃d : Double W⦄ (lit : Decimal W) where
  whole-append :
      (out : W) (c : ℕ) (f rest : Text)
      → Stops c
      → whole_from lit out (f ++ c ∷ rest) ≡ behind (whole_from lit out f) (c ∷ rest)
  unfolding whole_from
  whole-append out c [] rest stop = rw stop.0 refl
  whole-append out c (x ∷ f) rest stop = elim (Bool-cases (is_digit x)) [
    | inl e ↦ rw e (whole-append (d.add (d.mul out lit.ten) (lit.of_digit (x - 48))) c f rest stop)
    | inr e ↦ rw e refl
  ]

  whole-IsField : (out : W) (f : Text) → IsField f → IsField (whole_from lit out f).1
  unfolding whole_from
  whole-IsField out [] ok = tt
  whole-IsField out (x ∷ f) ok = elim (Bool-cases (is_digit x)) [
    | inl e ↦ rw e (whole-IsField (d.add (d.mul out lit.ten) (lit.of_digit (x - 48))) f ok.2)
    | inr e ↦ rw e ok
  ]

  fraction-append :
      (out frac : W) (c : ℕ) (f rest : Text)
      → Stops c
      → fraction_from lit out frac (f ++ c ∷ rest)
        ≡ behind (fraction_from lit out frac f) (c ∷ rest)
  unfolding fraction_from
  fraction-append out frac c [] rest stop = rw stop.0 refl
  fraction-append out frac c (x ∷ f) rest stop = elim (Bool-cases (is_digit x)) [
    | inl e ↦ rw e (
        fraction-append (d.add out (d.mul (lit.of_digit (x - 48)) frac)) (d.mul frac lit.tenth) c f
          rest stop)
    | inr e ↦ rw e refl
  ]

  fraction-IsField :
      (out frac : W) (f : Text) → IsField f → IsField (fraction_from lit out frac f).1
  unfolding fraction_from
  fraction-IsField out frac [] ok = tt
  fraction-IsField out frac (x ∷ f) ok = elim (Bool-cases (is_digit x)) [
    | inl e ↦ rw e (
        fraction-IsField (d.add out (d.mul (lit.of_digit (x - 48)) frac)) (d.mul frac lit.tenth) f
          ok.2)
    | inr e ↦ rw e ok
  ]

  after_whole-append :
      (r : W × Text) (c : ℕ) (rest : Text)
      → Stops c
      → after_whole lit (behind r (c ∷ rest)) ≡ behind (after_whole lit r) (c ∷ rest)
  after_whole-append (out, []) c rest stop = rw (==_ne c 46 stop.1) refl
  after_whole-append (out, x ∷ f) c rest stop = elim (Bool-cases (x == 46)) [
    | inl e ↦ rw e (fraction-append out lit.tenth c f rest stop)
    | inr e ↦ rw e refl
  ]

  after_whole-IsField : (r : W × Text) → IsField r.1 → IsField (after_whole lit r).1
  after_whole-IsField (out, []) ok = tt
  after_whole-IsField (out, x ∷ f) ok = elim (Bool-cases (x == 46)) [
    | inl e ↦ rw e (fraction-IsField out lit.tenth f ok.2)
    | inr e ↦ rw e ok
  ]

  float-append :
      (c : ℕ) (f rest : Text)
      → Stops c
      → parse_float lit (f ++ c ∷ rest) ≡ behind (parse_float lit f) (c ∷ rest)
  unfolding parse_float
  float-append c f rest stop =
      ap (after_whole lit) (whole-append d.nought c f rest stop)
      ∙ after_whole-append (whole_from lit d.nought f) c rest stop

  float-IsField : (f : Text) → IsField f → IsField (parse_float lit f).1
  unfolding parse_float
  float-IsField f ok = after_whole-IsField (whole_from lit d.nought f) (whole-IsField d.nought f ok)

-- The six fields of a row.
pub record Line : Type 0 where
  pub ts : Text
  pub id : Text
  pub bid_price : Text
  pub bid_qty : Text
  pub ask_price : Text
  pub ask_qty : Text

-- A line with more of a file behind it.
abbrev pub line_text : Line → Text → Text
line_text l rest =
    l.ts
    ++ 44
      ∷ (l.id
          ++ 44
            ∷ (l.bid_price
                ++ 44 ∷ (l.bid_qty ++ 44 ∷ (l.ask_price ++ 44 ∷ (l.ask_qty ++ 10 ∷ rest)))))

pub record IsLine (l : Line) : Type 0 where
  pub ts : IsField l.ts
  pub id : IsField l.id
  pub bid_price : IsField l.bid_price
  pub bid_qty : IsField l.bid_qty
  pub ask_price : IsField l.ask_price
  pub ask_qty : IsField l.ask_qty

abbrev pub StartsWithDigit : Text → Type 0
StartsWithDigit [] = ⊥
StartsWithDigit (c ∷ f) = is_digit c ≡ true

module _ {W : Type 0} ⦃d : Double W⦄ (lit : Decimal W) where
  -- Each field read alone.
  abbrev pub row_of : Line → CsvRow W
  row_of l = record {
    ts_ns = (parse_u64 l.ts).0;
    instr_id = (parse_u32 l.id).0;
    bid_price = (parse_float lit l.bid_price).0;
    bid_qty = (parse_float lit l.bid_qty).0;
    ask_price = (parse_float lit l.ask_price).0;
    ask_qty = (parse_float lit l.ask_qty).0;
  }

  -- A row of six fields, whatever bytes but commas and ends of line they hold, is read as its six
  -- fields each by itself, and what is left is the text behind its line.
  pub parse_row-line :
      (l : Line) (rest : Text) → IsLine l → parse_row lit (line_text l rest) ≡ (row_of l, rest)
  unfolding parse_row
  parse_row-line l rest ok =
      rw
        (
          digits-append 64 0 44 l.ts _ comma-Stops,
          skip-append 44 (parse_u64 l.ts).1 _ (digits-IsField 64 0 l.ts ok.ts) (inl refl),
          digits-append 32 0 44 l.id _ comma-Stops,
          skip-append 44 (parse_u32 l.id).1 _ (digits-IsField 32 0 l.id ok.id) (inl refl),
          float-append lit 44 l.bid_price _ comma-Stops,
          skip-append 44 (parse_float lit l.bid_price).1 _
              (float-IsField lit l.bid_price ok.bid_price) (inl refl),
          float-append lit 44 l.bid_qty _ comma-Stops,
          skip-append 44 (parse_float lit l.bid_qty).1 _ (float-IsField lit l.bid_qty ok.bid_qty)
              (inl refl),
          float-append lit 44 l.ask_price _ comma-Stops,
          skip-append 44 (parse_float lit l.ask_price).1 _
              (float-IsField lit l.ask_price ok.ask_price) (inl refl),
          float-append lit 10 l.ask_qty _ line-Stops,
          skip-append 10 (parse_float lit l.ask_qty).1 _ (float-IsField lit l.ask_qty ok.ask_qty)
              (inr refl),
        )
        refl
