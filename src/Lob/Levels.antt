-- ===== src/Lob/Levels.antt =====
-- An update changes the level that it names, and no other.
use holographic_market.Base.{
  ℕ, zero, suc, ◌+◌, ◌*◌, ◌<◌, ◌≡◌, ◌≢◌, refl, ap, ◌∙◌, Bool, true, false, ◌&&◌, List, arith, ltb,
  ◌==◌, if◌then◌else◌, get_or, set, length, length-set, get_or-set_self, get_or-set_ne, Bool-cases,
  inl, inr, subst, ==_ne, ◌⊎◌,
}
use holographic_market.Base.Double.{Double}
use holographic_market.Lob.{
  BookSide, bid, ask, side_code, LobUpdate, Lob, base, apply, drop_update, write_side, stamp, level,
}

-- Two slots of the arrays are the same only if instrument and level are.
slot_apart :
    (i j l m depth : ℕ) → l < depth → m < depth → i * depth + l ≡ j * depth + m → (i ≡ j) × (l ≡ m)
slot_apart zero zero l m depth small small' same = (refl, omega arith)
slot_apart zero (suc j) l m depth small small' same = absurd (omega arith)
slot_apart (suc i) zero l m depth small small' same = absurd (omega arith)
slot_apart (suc i) (suc j) l m depth small small' same =
    let (instr, at) = slot_apart i j l m depth small small' (omega arith) in (ap suc instr, at)

in_range : (i n l depth : ℕ) → i < n → l < depth → i * depth + l < n * depth
in_range i zero l depth lt small = absurd (omega arith)
in_range zero (suc n) l depth lt small = omega arith
in_range (suc i) (suc n) l depth lt small = omega (arith, in_range i n l depth (omega arith) small)

module _ {W : Type 0} ⦃d : Double W⦄ where
  -- Each array of prices and quantities has a slot per instrument and level.
  abbrev pub Sized : Lob W → Type 0
  Sized b =
      (length b.bid_prices ≡ b.n_instruments * b.depth)
      × (length b.bid_qtys ≡ b.n_instruments * b.depth)
      × (length b.ask_prices ≡ b.n_instruments * b.depth)
      × (length b.ask_qtys ≡ b.n_instruments * b.depth)

  -- Whether the update names this level.
  abbrev pub names : LobUpdate W → BookSide → ℕ → ℕ → Bool
  names u side instr at =
      (side_code u.side == side_code side) && ((u.instrument_id == instr) && (u.depth_level == at))

  -- What is read at one slot after a write at another.
  get_or-set :
      (xs : List W) (n depth i l j m : ℕ) (v : W)
      → length xs ≡ n * depth
      → i < n
      → l < depth
      → m < depth
      → get_or (set xs (base depth i l) v) (base depth j m) d.nought
        ≡ (if (i == j) && (l == m) then v else get_or xs (base depth j m) d.nought)
  get_or-set xs n depth i l j m v sized lt small small' = elim (Bool-cases ((i == j) && (l == m))) [
    | inl e ↦ rw e (
        subst (λ k. get_or (set xs (base depth i l) v) k d.nought ≡ v) (same_slot e)
          (get_or-set_self xs (base depth i l) v d.nought
            (omega (arith, sized, in_range i n l depth lt small))))
    | inr e ↦ rw e (get_or-set_ne xs (base depth i l) (base depth j m) v d.nought (other_slot e))
  ]
    where
      same_slot : ((i == j) && (l == m)) ≡ true → base depth i l ≡ base depth j m
      same_slot e = ground (arith, e)

      other_slot : ((i == j) && (l == m)) ≡ false → base depth i l ≢ base depth j m
      other_slot e same =
          let (instr, at) = slot_apart i j l m depth small small' same in
          ground (arith, e, instr, at)

  write_side-level :
      (b : Lob W) (u : LobUpdate W) (written side : BookSide) (instr at : ℕ)
      → Sized b
      → u.instrument_id < b.n_instruments
      → u.depth_level < b.depth
      → at < b.depth
      → level
          (stamp
            (write_side b written (base b.depth u.instrument_id u.depth_level) u.price u.quantity)
            u)
          side
          instr
          at
        ≡ (if (side_code written == side_code side)
              && ((u.instrument_id == instr) && (u.depth_level == at))
            then (u.price, u.quantity)
            else level b side instr at)
  unfolding stamp write_side level
  write_side-level b u bid bid instr at (bp, bq, ap', aq) lt small small' = ground (
    arith,
    get_or-set b.bid_prices b.n_instruments b.depth u.instrument_id u.depth_level instr at u.price
        bp lt small small',
    get_or-set b.bid_qtys b.n_instruments b.depth u.instrument_id u.depth_level instr at u.quantity
        bq lt small small',
  )
  write_side-level b u bid ask instr at sized lt small small' = refl
  write_side-level b u ask bid instr at sized lt small small' = refl
  write_side-level b u ask ask instr at (bp, bq, ap', aq) lt small small' = ground (
    arith,
    get_or-set b.ask_prices b.n_instruments b.depth u.instrument_id u.depth_level instr at u.price
        ap' lt small small',
    get_or-set b.ask_qtys b.n_instruments b.depth u.instrument_id u.depth_level instr at u.quantity
        aq lt small small',
  )

  drop_update-level :
      (b : Lob W) (side : BookSide) (instr at : ℕ)
      → level (drop_update b) side instr at ≡ level b side instr at
  unfolding drop_update level
  drop_update-level b bid instr at = refl
  drop_update-level b ask instr at = refl

  unnamed :
      (u : LobUpdate W) (side : BookSide) (instr at : ℕ)
      → (u.instrument_id ≢ instr) ⊎ (u.depth_level ≢ at)
      → names u side instr at ≡ false
  unnamed u side instr at (inl other) = rw (==_ne u.instrument_id instr other) (ground arith)
  unnamed u side instr at (inr other) = rw (==_ne u.depth_level at other) (ground arith)

  -- After an update, a level has the update's price and quantity if the update is in range and
  -- names it, and what it had before otherwise. The level is one of the book's.
  pub apply-level :
      (b : Lob W) (u : LobUpdate W) (side : BookSide) (instr at : ℕ)
      → Sized b
      → instr < b.n_instruments
      → at < b.depth
      → level (apply b u) side instr at
        ≡ (if names u side instr at then (u.price, u.quantity) else level b side instr at)
  unfolding apply
  apply-level b u side instr at sized lt small =
      elim (Bool-cases (ltb u.instrument_id b.n_instruments)) [
        | inr e ↦
            rw (e, unnamed u side instr at (inl (ground (arith, e, lt))))
              (drop_update-level b side instr at)
        | inl e ↦ elim (Bool-cases (ltb u.depth_level b.depth)) [
          | inr f ↦
              rw (e, f, unnamed u side instr at (inr (ground (arith, f, small))))
                (drop_update-level b side instr at)
          | inl f ↦
              rw (e, f)
                (write_side-level b u u.side side instr at sized (ground (arith, e))
                  (ground (arith, f)) small)
        ]
      ]

  write_side-Sized :
      (b : Lob W) (u : LobUpdate W) (written : BookSide) (k : ℕ)
      → Sized b
      → Sized (stamp (write_side b written k u.price u.quantity) u)
  unfolding stamp write_side
  write_side-Sized b u bid k (bp, bq, ap', aq) =
      (length-set b.bid_prices k u.price ∙ bp, length-set b.bid_qtys k u.quantity ∙ bq, ap', aq)
  write_side-Sized b u ask k (bp, bq, ap', aq) =
      (bp, bq, length-set b.ask_prices k u.price ∙ ap', length-set b.ask_qtys k u.quantity ∙ aq)

  -- An update keeps the sizes of the arrays.
  pub apply-Sized : (b : Lob W) (u : LobUpdate W) → Sized b → Sized (apply b u)
  unfolding apply drop_update
  apply-Sized b u sized = elim (Bool-cases (ltb u.instrument_id b.n_instruments)) [
    | inr e ↦ rw e sized
    | inl e ↦ elim (Bool-cases (ltb u.depth_level b.depth)) [
      | inr f ↦ rw (e, f) sized
      | inl f ↦ rw (e, f) (write_side-Sized b u u.side _ sized)
    ]
  ]
