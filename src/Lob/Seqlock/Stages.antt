-- ===== src/Lob/Seqlock/Stages.antt =====
-- The accesses of a call of `apply`, put together again.
use mathlib.Core.List.{append_assoc, append-nil}
use mathlib.Core.Option.{some-injective}
use holographic_market.Base.{
  ◌+◌, ◌*◌, ◌≡◌, refl, sym, ap, ◌∙◌, Bool, true, false, ◌&&◌, List, [], ◌∷◌, ◌++◌, some, ltb,
  get_elem?, length, length-append, arith, Bool-cases, inl, inr,
}
use holographic_market.Base.Double.{Double}
use holographic_market.Lob.{
  BookSide, bid, ask, LobUpdate, Lob, drop_update, write_side, stamp, apply,
}
use holographic_market.Lob.Seqlock.{fits, add_seq, put_price, put_qty, close_write}

both : (a b : Bool) → (a && b) ≡ true → (a ≡ true) × (b ≡ true)
both true true e = (refl, refl)
both true false e = ground (arith, e)
both false b e = ground (arith, e)

module _ {ℓ} {A : Type ℓ} where
  -- Behind a first part that has been copied, the next element is copied.
  pub next_left :
      (taken left : List A) (x : A)
      → get_elem? (taken ++ left) (length taken) ≡ some x
      → (left' : List A) × ((taken ++ x ∷ []) ++ left' ≡ taken ++ left)
  next_left [] [] x h = absurd (ground (arith, h))
  next_left [] (y ∷ left) x h = (left, ap (λ z. z ∷ left) (sym (some-injective y x h)))
  next_left (y ∷ taken) left x h =
      let (left', e) = next_left taken left x h in (left', ap (λ l. y ∷ l) e)

  -- A first part as long as the whole is the whole.
  pub all_taken :
      (taken left now : List A) → taken ++ left ≡ now → length taken ≡ length now → taken ≡ now
  all_taken taken [] now e h = sym (append-nil taken) ∙ e
  all_taken taken (y ∷ left) now e h =
      absurd (omega (arith, h, ap length e, length-append taken (y ∷ left)))

  -- What one more update leaves of a first part.
  pub one_more :
      (seen applied : List A) (u : A)
      → ((rest : List A) × (seen ++ rest ≡ applied))
      → (rest : List A) × (seen ++ rest ≡ applied ++ u ∷ [])
  one_more seen applied u (rest, e) =
      (rest ++ u ∷ [], sym (append_assoc seen rest (u ∷ [])) ∙ ap (λ l. l ++ u ∷ []) e)

module _ {W : Type 0} ⦃d : Double W⦄ where
  -- The calls of `apply`, one after the other.
  unfoldable pub apply_all : Lob W → List (LobUpdate W) → Lob W
  apply_all b [] = b
  apply_all b (u ∷ us) = apply_all (apply b u) us

  pub apply_all-append :
      (b : Lob W) (us : List (LobUpdate W)) (u : LobUpdate W)
      → apply_all b (us ++ u ∷ []) ≡ apply (apply_all b us) u
  unfolding apply_all
  apply_all-append b [] u = refl
  apply_all-append b (x ∷ us) u = apply_all-append (apply b x) us u

  -- The accesses of a call, one after the other, are the call.
  pub stages-apply :
      (b : Lob W) (u : LobUpdate W)
      → fits b u ≡ true
      → close_write u.side (put_qty u.side (put_price u.side (add_seq b) u) u) u ≡ apply b u
  unfolding apply stamp write_side
  stages-apply b u h =
      let (p, q) = both (ltb u.instrument_id b.n_instruments) (ltb u.depth_level b.depth) h in
      rw (p, q) (by_side u.side)
    where
      by_side :
          (side : BookSide)
          → close_write side (put_qty side (put_price side (add_seq b) u) u) u
            ≡ stamp
                (write_side b side (u.instrument_id * b.depth + u.depth_level) u.price u.quantity)
                u
      by_side bid = refl
      by_side ask = refl

  pub drop-apply : (b : Lob W) (u : LobUpdate W) → fits b u ≡ false → drop_update b ≡ apply b u
  unfolding apply
  drop-apply b u h = elim (Bool-cases (ltb u.instrument_id b.n_instruments)) [
    | inl p ↦ elim (Bool-cases (ltb u.depth_level b.depth)) [
      | inl q ↦ absurd (ground (arith, h, p, q))
      | inr q ↦ rw (p, q) refl
    ]
    | inr p ↦ rw p refl
  ]

  pub seq-put :
      (side : BookSide) (b : Lob W) (u : LobUpdate W)
      → ((put_price side b u).seq ≡ b.seq) × ((put_qty side b u).seq ≡ b.seq)
  seq-put bid b u = (refl, refl)
  seq-put ask b u = (refl, refl)
