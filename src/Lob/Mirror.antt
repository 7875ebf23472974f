-- ===== src/Lob/Mirror.antt =====
-- engine/math/gpu_lob_mirror.cu: `GpuLobMirror::stage_snapshot`, the reader of the sequence lock.
-- What an attempt reads is an argument: `seq_` before the copy, the four arrays that are copied,
-- and `seq_` after it.
use holographic_market.Base.{
  ℕ, zero, suc, ◌+◌, ◌%◌, ◌^◌, ◌≤◌, ◌≡◌, refl, sym, ap, ◌∙◌, true, false, not, ◌||◌, arith, ◌==◌,
  if◌then◌else◌, Bool, Bool-cases, inl, inr, subst,
}

pub record Attempt (C : Type 0) : Type 0 where
  pub seq_before : ℕ
  pub copy : C
  pub seq_after : ℕ

pub record Staging (C : Type 0) : Type 0 where
  pub staged : C
  pub retries : ℕ
  pub forced_after_max_retries : ℕ
  pub snapshots_taken : ℕ

abbrev pub max_retries : ℕ
max_retries = 64

abbrev pub writer_busy : {C : Type 0} → Attempt C → Bool
writer_busy a = not (a.seq_before % 2 == 0)

abbrev pub unchanged : {C : Type 0} → Attempt C → Bool
unchanged a = a.seq_before == a.seq_after

module _ {C : Type 0} where
  -- The loop from attempt `k` on, with `left` attempts before the one that gives up.
  unfoldable pub attempts : ℕ → ℕ → (ℕ → Attempt C) → Staging C → Staging C
  attempts zero k reads s =
      let a = reads k in
      record s {
        staged = a.copy;
        forced_after_max_retries =
            if writer_busy a || not (unchanged a)
            then (s.forced_after_max_retries + 1) % 2 ^ 64
            else s.forced_after_max_retries;
      }
  attempts (suc left) k reads s =
      let a = reads k in
      let more = (s.retries + 1) % 2 ^ 64 in
      let busy = attempts left (suc k) reads (record s { retries = more }) in
      let torn = attempts left (suc k) reads (record s { staged = a.copy; retries = more }) in
      if writer_busy a then busy else (if unchanged a then record s { staged = a.copy } else torn)

  unfoldable pub stage_snapshot : (ℕ → Attempt C) → Staging C → Staging C
  stage_snapshot reads s =
      let s' = attempts max_retries 0 reads s in
      record s' { snapshots_taken = (s'.snapshots_taken + 1) % 2 ^ 64 }

  -- The copy of an attempt that no write has disturbed, as far as the sequence lock tells.
  abbrev Clean : (ℕ → Attempt C) → ℕ → C → Type 0
  Clean reads last staged =
      (k : ℕ) × (k ≤ last)
      × (staged ≡ (reads k).copy)
      × ((reads k).seq_before % 2 ≡ 0)
      × ((reads k).seq_before ≡ (reads k).seq_after)

  even : (a : Attempt C) → writer_busy a ≡ false → a.seq_before % 2 ≡ 0
  even a calm = ground (arith, calm)

  equal : (a : Attempt C) → unchanged a ≡ true → a.seq_before ≡ a.seq_after
  equal a same = ground (arith, same)

  last_calm :
      (a : Attempt C) (n : ℕ)
      → (if writer_busy a || not (unchanged a) then (n + 1) % 2 ^ 64 else n) ≡ n
      → n + 1 ≤ 2 ^ 63
      → (a.seq_before % 2 ≡ 0) × (a.seq_before ≡ a.seq_after)
  last_calm a n calm small = elim (Bool-cases (writer_busy a)) [
    | inl e ↦ absurd (ground (arith, e, calm, small))
    | inr e ↦ elim (Bool-cases (unchanged a)) [
      | inl f ↦ (even a e, equal a f)
      | inr f ↦ absurd (ground (arith, e, f, calm, small))
    ]
  ]

  later :
      (reads : ℕ → Attempt C) (k left : ℕ) (c : C)
      → Clean reads (suc k + left) c
      → Clean reads (k + suc left) c
  later reads k left c (i, le, copied, calm, same) = (i, omega (arith, le), copied, calm, same)

  attempts-Clean :
      (left k : ℕ) (reads : ℕ → Attempt C) (s : Staging C)
      → (attempts left k reads s).forced_after_max_retries ≡ s.forced_after_max_retries
      → s.forced_after_max_retries + 1 ≤ 2 ^ 63
      → Clean reads (k + left) (attempts left k reads s).staged
  unfolding attempts
  attempts-Clean zero k reads s calm small =
      let (calm', same) = last_calm (reads k) s.forced_after_max_retries calm small in
      (k, omega arith, refl, calm', same)
  attempts-Clean (suc left) k reads s calm small = elim (Bool-cases (writer_busy (reads k))) [
    | inl e ↦
        let to = busy_next e in
        subst (λ t. Clean reads (k + suc left) t.staged) (sym to)
          (later reads k left _ (
            attempts-Clean left (suc k) reads _
              (ap (λ t. t.forced_after_max_retries) (sym to) ∙ calm) small))
    | inr e ↦ elim (Bool-cases (unchanged (reads k))) [
      | inl f ↦
          subst (λ t. Clean reads (k + suc left) t.staged) (sym (clean_next e f))
            (k, omega arith, refl, even (reads k) e, equal (reads k) f)
      | inr f ↦
          let to = torn_next e f in
          subst (λ t. Clean reads (k + suc left) t.staged) (sym to)
            (later reads k left _ (
              attempts-Clean left (suc k) reads _
                (ap (λ t. t.forced_after_max_retries) (sym to) ∙ calm) small))
    ]
  ]
    where
      more : ℕ
      more = (s.retries + 1) % 2 ^ 64

      busy_next :
          writer_busy (reads k) ≡ true
          → attempts (suc left) k reads s
            ≡ attempts left (suc k) reads (record s { retries = more })
      busy_next e = rw e refl

      clean_next :
          writer_busy (reads k) ≡ false
          → unchanged (reads k) ≡ true
          → attempts (suc left) k reads s ≡ record s { staged = (reads k).copy }
      clean_next e f = rw (e, f) refl

      torn_next :
          writer_busy (reads k) ≡ false
          → unchanged (reads k) ≡ false
          → attempts (suc left) k reads s
            ≡ attempts left (suc k) reads (record s { staged = (reads k).copy; retries = more })
      torn_next e f = rw (e, f) refl

  -- Whatever the attempts read, the call ends, and unless it counts a forced snapshot, what it has
  -- staged is the copy of one attempt, the 65th at the latest, whose two reads of the lock are the
  -- same even number. The count of forced snapshots is below 2 ^ 63.
  pub stage_snapshot-Clean :
      (reads : ℕ → Attempt C) (s : Staging C)
      → (stage_snapshot reads s).forced_after_max_retries ≡ s.forced_after_max_retries
      → s.forced_after_max_retries + 1 ≤ 2 ^ 63
      → Clean reads 64 (stage_snapshot reads s).staged
  unfolding stage_snapshot
  stage_snapshot-Clean reads s calm small = attempts-Clean 64 0 reads s calm small
