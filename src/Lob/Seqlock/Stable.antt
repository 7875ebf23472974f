-- ===== src/Lob/Seqlock/Stable.antt =====
-- A copy that the sequence lock lets pass is of the books between two calls of `apply`.
use holographic_market.Base.{ℕ, ◌+◌, ◌%◌, ◌^◌, ◌≤◌, ◌<◌, ◌≡◌, subst, sym, ap, ◌∙◌, List, ◌++◌}
use mathlib.Core.List.{append_assoc}
use holographic_market.Base.Double.{Double}
use holographic_market.Lob.{LobUpdate, Lob}
use holographic_market.Lob.Mirror.{Attempt, Staging, stage_snapshot, stage_snapshot-Clean}
use holographic_market.Lob.Seqlock.{cells, Reader, Shared, Reach}
use holographic_market.Lob.Seqlock.Stages.{apply_all}
use holographic_market.Lob.Seqlock.Inv.{Reach-Inv, ReaderInv}

module _ {W : Type 0} ⦃d : Double W⦄ where
  -- The attempt is one of a run of the two threads whose updates are the first of `all`, with fewer
  -- than 2 ^ 64 additions to the lock before it.
  abbrev pub IsRead : Lob W → List (LobUpdate W) → Attempt (List W) → Type 0
  IsRead b all a =
      (s : Shared W) × Reach b s
      × (s.reader ≡ Reader.copied a)
      × (s.additions < 2 ^ 64)
      × ((rest : List (LobUpdate W)) × (s.applied ++ rest ≡ all))

  -- The four arrays after some first ones of the updates.
  abbrev pub IsStable : Lob W → List (LobUpdate W) → List W → Type 0
  IsStable b all copy =
      (us rest : List (LobUpdate W)) × (us ++ rest ≡ all) × (copy ≡ cells (apply_all b us))

  IsRead-IsStable :
      (b : Lob W) (all : List (LobUpdate W)) (a : Attempt (List W))
      → b.seq ≡ 0
      → IsRead b all a
      → a.seq_before % 2 ≡ 0
      → a.seq_before ≡ a.seq_after
      → IsStable b all a.copy
  IsRead-IsStable b all a zeroed (s, r, at, small, (rest, e)) even same =
      let i = Reach-Inv b zeroed r in
      let (more, p) = i.later_updates in
      let know =
        subst (λ x. ReaderInv (apply_all b s.seen) x s.loaded_at s.additions (cells s.book)) at
          i.reading in
      (
        s.seen,
        more ++ rest,
        sym (append_assoc s.seen more rest) ∙ ap (λ l. l ++ rest) p ∙ e,
        know small even same,
      )

  -- If every attempt that finds no write under way is one of the two threads' interleaved accesses,
  -- from books with a lock of 0 and with fewer than 2 ^ 64 additions to it, then what
  -- `stage_snapshot` stages, unless it counts a forced snapshot, is the four arrays as whole calls of
  -- `apply` leave them, some first ones of the updates. The count of forced snapshots is below 2 ^ 63.
  pub stage_snapshot-IsStable :
      (b : Lob W) (all : List (LobUpdate W)) (reads : ℕ → Attempt (List W)) (s : Staging (List W))
      → b.seq ≡ 0
      → ((k : ℕ) → (reads k).seq_before % 2 ≡ 0 → IsRead b all (reads k))
      → (stage_snapshot reads s).forced_after_max_retries ≡ s.forced_after_max_retries
      → s.forced_after_max_retries + 1 ≤ 2 ^ 63
      → IsStable b all (stage_snapshot reads s).staged
  stage_snapshot-IsStable b all reads s zeroed runs calm small =
      let (k, _, copied, even, same) = stage_snapshot-Clean reads s calm small in
      subst (λ c. IsStable b all c) (sym copied)
        (IsRead-IsStable b all (reads k) zeroed (runs k even) even same)
