-- ===== src/Depth/Pushes.antt =====
-- A message comes to pushes of levels in range, in order, and the dropped ones are counted.
use holographic_market.Base.{
  ℕ, zero, suc, ◌+◌, ◌≤◌, ◌<◌, ◌≡◌, refl, Bool, true, false, List, [], ◌∷◌, ◌++◌, Option, none,
  some, arith, length, length-append, ap, ◌∙◌, leb, if◌then◌else◌, Bool-cases, inl, inr,
}
use holographic_market.Base.Bytes.{codes}
use holographic_market.Base.Double.{Double}
use holographic_market.Oms.Order.{Text}
use holographic_market.Lob.{LobUpdate, BookSide, bid, ask}
use holographic_market.Ring.{Ring, try_push}
use holographic_market.Replay.{Decimal}
use holographic_market.Depth.{
  BoostJson, Feeding, Entry, too_short, malformed, priced, note_push, push_update, count_message,
  caught, entry_items, level_update, levels_from, push_levels, then_asks, push_sides, push_data,
  push_message, push_root, parse_and_enqueue, instrument_id_from_stream, k_feed_n_instruments,
  k_max_depth, count,
}

module _ {W : Type 0} where
  -- Pushes one after the other: the ring, and the number of updates dropped so far.
  abbrev pub push_all : List (LobUpdate W) → Ring (LobUpdate W) → ℕ → Ring (LobUpdate W) × ℕ
  push_all [] ring dropped = (ring, dropped)
  push_all (u ∷ us) ring dropped =
      push_all us (try_push ring u).1 (if (try_push ring u).0 then dropped else count dropped)

  -- An update that a depth message may hold.
  pub record IsLevel (ts : ℕ) (u : LobUpdate W) : Type 0 where
    pub instrument : u.instrument_id < k_feed_n_instruments
    pub level : u.depth_level < k_max_depth
    pub stamped : u.timestamp_ns ≡ ts

  abbrev pub AllLevels : ℕ → List (LobUpdate W) → Type 0
  AllLevels ts [] = Unit {0}
  AllLevels ts (u ∷ us) = IsLevel ts u × AllLevels ts us

  -- The second state comes of the first by at most `n` pushes of such updates.
  pub record Fed (ts n : ℕ) (f f' : Feeding W) : Type 0 where
    pub updates : List (LobUpdate W)
    pub levels : AllLevels ts updates
    pub few : length updates ≤ n
    pub all : push_all updates f.ring f.metrics.msgs_dropped ≡ (f'.ring, f'.metrics.msgs_dropped)

  Fed-none : (ts n : ℕ) (f : Feeding W) → Fed ts n f f
  Fed-none ts n f = record { updates = []; levels = tt; few = omega arith; all = refl }

  Fed-push :
      (ts n : ℕ) (f f' : Feeding W) (u : LobUpdate W)
      → IsLevel ts u
      → Fed ts n (push_update f u) f'
      → Fed ts (suc n) f f'
  unfolding push_update
  Fed-push ts n f f' u h v = record {
    updates = u ∷ v.updates;
    levels = (h, v.levels);
    few = omega (arith, v.few);
    all = same (try_push f.ring u).0 v.all;
  }
    where
      same :
          (b : Bool)
          → push_all v.updates (try_push f.ring u).1 (note_push b f.metrics).msgs_dropped
            ≡ (f'.ring, f'.metrics.msgs_dropped)
          → push_all v.updates
              (try_push f.ring u).1
              (if b then f.metrics.msgs_dropped else count f.metrics.msgs_dropped)
            ≡ (f'.ring, f'.metrics.msgs_dropped)
      same true e = e
      same false e = e

  push_all-append :
      (us vs : List (LobUpdate W)) (ring : Ring (LobUpdate W)) (dropped : ℕ)
      → push_all (us ++ vs) ring dropped ≡ (let r = push_all us ring dropped in push_all vs r.0 r.1)
  push_all-append [] vs ring dropped = refl
  push_all-append (u ∷ us) vs ring dropped =
      push_all-append us vs (try_push ring u).1
        (if (try_push ring u).0 then dropped else count dropped)

  AllLevels-append :
      (ts : ℕ) (us vs : List (LobUpdate W))
      → AllLevels ts us
      → AllLevels ts vs
      → AllLevels ts (us ++ vs)
  AllLevels-append ts [] vs p q = q
  AllLevels-append ts (u ∷ us) vs p q = (p.0, AllLevels-append ts us vs p.1 q)

  Fed-trans : (ts m n : ℕ) (f g h : Feeding W) → Fed ts m f g → Fed ts n g h → Fed ts (m + n) f h
  Fed-trans ts m n f g h v w = record {
    updates = v.updates ++ w.updates;
    levels = AllLevels-append ts v.updates w.updates v.levels w.levels;
    few = omega (arith, v.few, w.few, length-append v.updates w.updates);
    all =
        push_all-append v.updates w.updates f.ring f.metrics.msgs_dropped
        ∙ ap (λ r. push_all w.updates r.0 r.1) v.all
        ∙ w.all;
  }

  Fed-more : (ts m n : ℕ) (f g : Feeding W) → m ≤ n → Fed ts m f g → Fed ts n f g
  Fed-more ts m n f g h v = record {
    updates = v.updates;
    levels = v.levels;
    few = omega (arith, v.few, h);
    all = v.all;
  }

  Fed-count : (ts n instr : ℕ) (f g : Feeding W) → Fed ts n (count_message f instr) g → Fed ts n f g
  unfolding count_message
  Fed-count ts n instr f g v = record {
    updates = v.updates;
    levels = v.levels;
    few = v.few;
    all = v.all;
  }

  Fed-caught :
      (ts n : ℕ) (f : Feeding W) (r : Bool × Feeding W) → Fed ts n f r.1 → Fed ts n f (caught r)
  Fed-caught ts n f (true, g) v = v
  Fed-caught ts n f (false, g) v = record {
    updates = v.updates;
    levels = v.levels;
    few = v.few;
    all = v.all;
  }

module _ {J W : Type 0} ⦃d : Double W⦄ (json : BoostJson J) (lit : Decimal W) where
  levels-Fed :
      (ts instr : ℕ) (side : BookSide) (lvl more : ℕ) (levels : List J) (f : Feeding W)
      → instr < k_feed_n_instruments
      → lvl + more ≤ k_max_depth
      → Fed ts more f (levels_from json lit ts instr side lvl more levels f).1
  unfolding levels_from
  levels-Fed ts instr side lvl zero levels f h k = Fed-none ts 0 f
  levels-Fed ts instr side lvl (suc more) [] f h k = Fed-none ts (suc more) f
  levels-Fed ts instr side lvl (suc more) (level ∷ levels) f h k =
      by_entry (entry_items json lit (json.as_array level))
        (λ g. levels-Fed ts instr side (suc lvl) more levels g h (omega (arith, k)))
    where
      by_entry :
          (e : Entry W)
          → ((g : Feeding W)
              → Fed ts more g (levels_from json lit ts instr side (suc lvl) more levels g).1)
          → Fed ts
              (suc more)
              f
              (elim e as (λ _. Bool × Feeding W) [
                | too_short ↦ levels_from json lit ts instr side (suc lvl) more levels f
                | malformed ↦ (false, f)
                | priced p q ↦
                    levels_from json lit ts instr side
                      (suc lvl)
                      more
                      levels
                      (push_update f (level_update json lit ts instr side lvl p q))
              ]).1
      by_entry too_short rest = Fed-more ts more (suc more) f _ (omega arith) (rest f)
      by_entry malformed rest = Fed-none ts (suc more) f
      by_entry (priced p q) rest =
          Fed-push ts more f _ (level_update json lit ts instr side lvl p q)
            (record { instrument = h; level = omega (arith, k); stamped = refl })
            (rest (push_update f (level_update json lit ts instr side lvl p q)))

  side-Fed :
      (ts instr : ℕ) (side : BookSide) (levels : Option (List J)) (f : Feeding W)
      → instr < k_feed_n_instruments
      → Fed ts 16 f (push_levels json lit ts instr side levels f).1
  side-Fed ts instr side none f h = Fed-none ts 16 f
  side-Fed ts instr side (some levels) f h = levels-Fed ts instr side 0 16 levels f h (omega arith)

  asks-Fed :
      (ts instr : ℕ) (a : J) (f : Feeding W) (r : Bool × Feeding W)
      → instr < k_feed_n_instruments
      → Fed ts 16 f r.1
      → Fed ts 32 f (then_asks json lit ts instr a r).1
  asks-Fed ts instr a f (true, g) h v =
      Fed-trans ts 16 16 f g _ v (side-Fed ts instr ask (json.as_array a) g h)
  asks-Fed ts instr a f (false, g) h v = Fed-more ts 16 32 f g (omega arith) v

  sides-Fed :
      (ts instr : ℕ) (b a : Option J) (f : Feeding W)
      → instr < k_feed_n_instruments
      → Fed ts 32 f (push_sides json lit ts instr b a f).1
  sides-Fed ts instr (some b) (some a) f h = Fed-count ts 32 instr f _ (
      asks-Fed ts instr a (count_message f instr) _ h
        (side-Fed ts instr bid (json.as_array b) (count_message f instr) h))
  sides-Fed ts instr none a f h = Fed-none ts 32 f
  sides-Fed ts instr (some b) none f h = Fed-none ts 32 f

  data-Fed :
      (ts : ℕ) (name : Option Text) (dv : J) (f : Feeding W)
      → Fed ts 32 f (push_data json lit ts name dv f).1
  data-Fed ts none dv f = Fed-none ts 32 f
  data-Fed ts (some name) dv f =
      elim (Bool-cases (leb k_feed_n_instruments (instrument_id_from_stream name))) [
        | inl e ↦ rw e (Fed-none ts 32 f)
        | inr e ↦ rw e (elim (Bool-cases (json.is_object dv)) [
          | inl o ↦ rw o (
              sides-Fed ts (instrument_id_from_stream name) (json.if_contains dv (codes "b"))
                (json.if_contains dv (codes "a")) f (ground arith))
          | inr o ↦ rw o (Fed-none ts 32 f)
        ])
      ]

  message-Fed :
      (ts : ℕ) (sv dv : Option J) (f : Feeding W) → Fed ts 32 f (push_message json lit ts sv dv f).1
  message-Fed ts (some sv) (some dv) f = data-Fed ts (json.as_string sv) dv f
  message-Fed ts none dv f = Fed-none ts 32 f
  message-Fed ts (some sv) none f = Fed-none ts 32 f

  root-Fed :
      (ts : ℕ) (root : Option J) (f : Feeding W) → Fed ts 32 f (push_root json lit ts root f).1
  root-Fed ts none f = Fed-none ts 32 f
  root-Fed ts (some obj) f = elim (Bool-cases (json.is_object obj)) [
    | inl o ↦ rw o (
        message-Fed ts (json.if_contains obj (codes "stream")) (json.if_contains obj (codes "data"))
          f)
    | inr o ↦ rw o (Fed-none ts 32 f)
  ]

  -- Whatever a message holds, and wherever its handling throws: what it does to the ring is at most
  -- 32 pushes one after the other, of updates of one of the four instruments, at a level below 16
  -- and with the time of the call; and the counter of dropped updates counts those that the ring
  -- refuses.
  pub parse_and_enqueue-Fed :
      (f : Feeding W) (ts : ℕ) (raw : Text) → Fed ts 32 f (parse_and_enqueue json lit f ts raw)
  unfolding parse_and_enqueue
  parse_and_enqueue-Fed f ts raw =
      Fed-caught ts 32 f (push_root json lit ts (json.parse raw) f) (root-Fed ts (json.parse raw) f)
