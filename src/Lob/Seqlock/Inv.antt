-- ===== src/Lob/Seqlock/Inv.antt =====
-- The invariant of the sequence lock.
use mathlib.Core.List.{append-nil}
use holographic_market.Base.{
  ℕ, suc, ◌%◌, ◌^◌, ◌≤◌, ◌<◌, ◌≡◌, refl, sym, ap, ◌∙◌, subst, true, false, List, [], ◌∷◌, ◌++◌,
  some, get_elem?, length, arith,
}
use holographic_market.Base.Double.{Double}
use holographic_market.Lob.{LobUpdate, Lob, count, drop_update}
use holographic_market.Lob.Seqlock.{
  cells, fits, add_seq, put_price, put_qty, close_write, Writer, Reader, Shared, Step, Reach,
}
use holographic_market.Lob.Seqlock.Stages.{
  apply_all, apply_all-append, next_left, all_taken, one_more, stages-apply, drop-apply, seq-put,
}
use holographic_market.Lob.Mirror.{Attempt}

module _ {W : Type 0} ⦃d : Double W⦄ where
  -- Where the writer stands, the book is so far written.
  abbrev pub WriterInv : Writer W → Lob W → Lob W → ℕ → Type 0
  WriterInv Writer.idle b f n = (b ≡ f) × (n % 2 ≡ 0)
  WriterInv (Writer.began u) b f n = (b ≡ add_seq f) × (fits f u ≡ true) × (n % 2 ≡ 1)
  WriterInv (Writer.priced u) b f n =
      (b ≡ put_price u.side (add_seq f) u) × (fits f u ≡ true) × (n % 2 ≡ 1)
  WriterInv (Writer.sized u) b f n =
      (b ≡ put_qty u.side (put_price u.side (add_seq f) u) u) × (fits f u ≡ true) × (n % 2 ≡ 1)

  -- The cells that are left to copy, as long as no addition is made.
  abbrev pub Fresh : Lob W → List W → List W → Type 0
  Fresh b now taken = (cells b ≡ now) × ((left : List W) × (taken ++ left ≡ now))

  abbrev pub ReaderInv : Lob W → Reader W → ℕ → ℕ → List W → Type 0
  ReaderInv f Reader.outside at n now = Unit {0}
  ReaderInv f (Reader.copying v taken) at n now =
      (at ≤ n) × (v ≡ at % 2 ^ 64) × (at % 2 ≡ 0 → at ≡ n → Fresh f now taken)
  ReaderInv f (Reader.copied a) at n now =
      n < 2 ^ 64 → a.seq_before % 2 ≡ 0 → a.seq_before ≡ a.seq_after → a.copy ≡ cells f

  -- What holds of the two threads in every state.
  pub record Inv (b : Lob W) (s : Shared W) : Type 0 where
    pub writing : WriterInv s.writer s.book (apply_all b s.applied) s.additions
    pub seq : s.book.seq ≡ s.additions % 2 ^ 64
    pub reading : ReaderInv (apply_all b s.seen) s.reader s.loaded_at s.additions (cells s.book)
    pub later_updates : (rest : List (LobUpdate W)) × (s.seen ++ rest ≡ s.applied)

  -- What the writer does keeps what the reader knows, if no copy that is still of use changes.
  reader-moved :
      (f : Lob W) (r : Reader W) (at n n' : ℕ) (now now' : List W)
      → n ≤ n'
      → (at ≤ n → at % 2 ≡ 0 → at ≡ n' → (at ≡ n) × (now ≡ now'))
      → ReaderInv f r at n now
      → ReaderInv f r at n' now'
  reader-moved f Reader.outside at n n' now now' le still h = tt
  reader-moved f (Reader.copying v taken) at n n' now now' le still (before, seq, fresh) = (
    omega (arith, le, before),
    seq,
    λ even same.
        let (q, p) = still before even same in
        let (book, (left, cut)) = fresh even q in (book ∙ p, (left, cut ∙ p)),
  )
  reader-moved f (Reader.copied a) at n n' now now' le still h =
      λ small even same. h (omega (arith, le, small)) even same

  idle_when_even : (w : Writer W) (b f : Lob W) (n : ℕ) → WriterInv w b f n → n % 2 ≡ 0 → b ≡ f
  idle_when_even Writer.idle b f n (e, p) even = e
  idle_when_even (Writer.began u) b f n (e, h, p) even = absurd (omega (arith, p, even))
  idle_when_even (Writer.priced u) b f n (e, h, p) even = absurd (omega (arith, p, even))
  idle_when_even (Writer.sized u) b f n (e, h, p) even = absurd (omega (arith, p, even))

  -- A write between the two additions.
  wrote :
      (b : Lob W) (s : Shared W) (w : Writer W) (book : Lob W)
      → Inv b s
      → WriterInv w book (apply_all b s.applied) s.additions
      → book.seq ≡ s.book.seq
      → s.additions % 2 ≡ 1
      → Inv b (record s { book = book; writer = w })
  wrote b s w book i writing seq odd = record {
    writing = writing;
    seq = seq ∙ i.seq;
    reading =
        reader-moved (apply_all b s.seen) s.reader s.loaded_at s.additions s.additions _ _
          (omega arith) (λ le p q. absurd (omega (arith, odd, p, q))) i.reading;
    later_updates = i.later_updates;
  }

  -- An addition, with which a call begins or ends.
  added :
      (b : Lob W) (s : Shared W) (w : Writer W) (book : Lob W) (applied : List (LobUpdate W))
      → Inv b s
      → WriterInv w book (apply_all b applied) (suc s.additions)
      → book.seq ≡ count s.book.seq
      → ((rest : List (LobUpdate W)) × (s.seen ++ rest ≡ applied))
      → Inv b (record s { book = book; writer = w; applied = applied; additions = suc s.additions })
  added b s w book applied i writing seq later_updates = record {
    writing = writing;
    seq = omega (arith, seq, i.seq);
    reading =
        reader-moved (apply_all b s.seen) s.reader s.loaded_at s.additions (suc s.additions) _ _
          (omega arith) (λ le p q. absurd (omega (arith, le, q))) i.reading;
    later_updates = later_updates;
  }

  -- The reader alone goes on.
  went_on :
      (b : Lob W) (s : Shared W) (r : Reader W)
      → Inv b s
      → ReaderInv (apply_all b s.seen) r s.loaded_at s.additions (cells s.book)
      → Inv b (record s { reader = r })
  went_on b s r i reading = record {
    writing = i.writing;
    seq = i.seq;
    reading = reading;
    later_updates = i.later_updates;
  }

  writer_at :
      (b : Lob W) (s : Shared W) {w : Writer W}
      → Inv b s
      → s.writer ≡ w
      → WriterInv w s.book (apply_all b s.applied) s.additions
  writer_at b s i at =
      subst (λ w. WriterInv w s.book (apply_all b s.applied) s.additions) at i.writing

  reader_at :
      (b : Lob W) (s : Shared W) {r : Reader W}
      → Inv b s
      → s.reader ≡ r
      → ReaderInv (apply_all b s.seen) r s.loaded_at s.additions (cells s.book)
  reader_at b s i at =
      subst (λ r. ReaderInv (apply_all b s.seen) r s.loaded_at s.additions (cells s.book)) at
        i.reading

  dropped :
      (b : Lob W) (s : Shared W) (u : LobUpdate W)
      → Inv b s
      → s.writer ≡ Writer.idle
      → fits s.book u ≡ false
      → Inv b (record s { book = drop_update s.book; applied = s.applied ++ u ∷ [] })
  unfolding drop_update
  dropped b s u i at h =
      let (e, even) = writer_at b s i at in
      let book =
        ap drop_update e
        ∙ drop-apply (apply_all b s.applied) u (subst (λ x. fits x u ≡ false) e h)
        ∙ sym (apply_all-append b s.applied u) in
      record {
        writing =
            subst
              (λ w.
                WriterInv w (drop_update s.book) (apply_all b (s.applied ++ u ∷ [])) s.additions)
              (sym at) (book, even);
        seq = i.seq;
        reading = i.reading;
        later_updates = one_more s.seen s.applied u i.later_updates;
      }

  Step-Inv : (b : Lob W) {s t : Shared W} → Inv b s → Step s t → Inv b t
  Step-Inv b {s} i (Step.drops u at h) = dropped b s u i at h
  Step-Inv b {s} i (Step.begins u at h) =
      let (e, even) = writer_at b s i at in
      added b s (Writer.began u) (add_seq s.book) s.applied i
        (ap add_seq e, subst (λ x. fits x u ≡ true) e h, omega (arith, even)) refl i.later_updates
  Step-Inv b {s} i (Step.writes_price {u} at) =
      let (e, h, odd) = writer_at b s i at in
      wrote b s (Writer.priced u) (put_price u.side s.book u) i
        (ap (λ x. put_price u.side x u) e, h, odd) (seq-put u.side s.book u).0 odd
  Step-Inv b {s} i (Step.writes_qty {u} at) =
      let (e, h, odd) = writer_at b s i at in
      wrote b s (Writer.sized u) (put_qty u.side s.book u) i
        (ap (λ x. put_qty u.side x u) e, h, odd) (seq-put u.side s.book u).1 odd
  Step-Inv b {s} i (Step.ends {u} at) =
      let (e, h, odd) = writer_at b s i at in
      let book =
        ap (λ x. close_write u.side x u) e
        ∙ stages-apply (apply_all b s.applied) u h
        ∙ sym (apply_all-append b s.applied u) in
      added b s Writer.idle (close_write u.side s.book u) (s.applied ++ u ∷ []) i
        (book, omega (arith, odd)) refl (one_more s.seen s.applied u i.later_updates)
  Step-Inv b {s} i (Step.loads at) =
      let rest = idle_when_even s.writer s.book (apply_all b s.applied) s.additions i.writing in
      record {
        writing = i.writing;
        seq = i.seq;
        reading =
            (omega arith, i.seq, λ even q. (ap cells (sym (rest even)), (cells s.book, refl)));
        later_updates = ([], append-nil s.applied);
      }
  Step-Inv b {s} i (Step.copies {v} {taken} x at next) =
      let (le, seq, fresh) = reader_at b s i at in
      went_on b s (Reader.copying v (taken ++ x ∷ [])) i (
        le,
        seq,
        λ even q.
            let (book, (left, cut)) = fresh even q in
            let (left', e) =
              next_left taken left x
                (subst (λ l. get_elem? l (length taken) ≡ some x) (sym cut) next) in
            (book, (left', e ∙ cut)),
      )
  Step-Inv b {s} i (Step.loads_again {v} {taken} at whole) =
      let (le, seq, fresh) = reader_at b s i at in
      let a : Attempt (List W) = record { seq_before = v; copy = taken; seq_after = s.book.seq } in
      went_on b s (Reader.copied a) i (λ small even same.
        let (book, (left, cut)) =
          fresh (omega (arith, le, seq, small, even))
            (omega (arith, le, seq, small, same, i.seq)) in
        all_taken taken left (cells s.book) cut whole ∙ sym book)
  Step-Inv b {s} i (Step.returns at) = went_on b s Reader.outside i tt

  pub Reach-Inv : (b : Lob W) {s : Shared W} → b.seq ≡ 0 → Reach b s → Inv b s
  unfolding apply_all
  Reach-Inv b zeroed Reach.here = record {
    writing = (refl, refl);
    seq = zeroed;
    reading = tt;
    later_updates = ([], refl);
  }
  Reach-Inv b zeroed (Reach.later r step) = Step-Inv b (Reach-Inv b zeroed r) step
