-- ===== src/Pipeline/Log.antt =====
-- The list of all signals that the ring of signals stands for, and what storing one does to it:
-- `signal_history_` in engine/math/cuda_pipeline.cu.
use native.Mathlib.Nat.{mod-lt, add-mod_right}
use holographic_market.Base.{
  ℕ, zero, suc, ◌+◌, ◌-◌, ◌%◌, ◌^◌, ◌≤◌, ◌<◌, ◌≡◌, sym, ap, ◌∙◌, subst, List, [], ◌∷◌, arith,
  length, get_or, set, length-set, get_or-set_self, get_or-set_ne, ℕ_discrete,
}
use holographic_market.Ring.Index.{mod_apart}
use holographic_market.Pipeline.{
  SignalRecord, Features, Pipeline, store_signal, last_signal, features, count_zero_edges,
}

-- All signals, the latest first, and the windows that were clustered.
pub record Log (W F : Type 0) : Type 0 where
  pub signals : List (SignalRecord W F)
  pub refit_at : ℕ
  pub windows : List (List (Features W))

none_before : (n : ℕ) → 0 ≡ suc n - 1 - n
none_before n = omega arith

before : (m n : ℕ) → n - m ≡ suc n - 1 - m
before m n = omega arith

rejoin : (m n : ℕ) → m < n → m + (n - m) ≡ n
rejoin m n h = omega (arith, h)

module _ {W F : Type 0} (betti : F → W) (blank : SignalRecord W F) where
  -- The features of the last `window` signals, the oldest of them first, from row `i` on.
  abbrev pub latest_from : ℕ → List (SignalRecord W F) → ℕ → ℕ → List (Features W)
  latest_from window signals i zero = []
  latest_from window signals i (suc more) =
      features betti (get_or signals (window - 1 - i) blank)
      ∷ latest_from window signals (suc i) more

module _ {W F : Type 0} (history_len : ℕ) (blank : SignalRecord W F) where
  -- The slot of a signal that is among the last `history_len` holds it.
  pub record Keeps (l : Log W F) (p : Pipeline W F) : Type 0 where
    pub size : length p.signal_history ≡ history_len
    pub counted : p.signal_write_idx ≡ length l.signals
    pub kept :
        (m : ℕ)
        → m < length l.signals
        → length l.signals ≤ m + history_len
        → get_or p.signal_history (m % history_len) blank
          ≡ get_or l.signals (length l.signals - 1 - m) blank
    pub fitted : p.fits ≡ l.windows
    pub refit : p.last_cluster_refit_signal_count ≡ l.refit_at

  get_or-later :
      (r : SignalRecord W F) (rs : List (SignalRecord W F)) (m : ℕ)
      → m < length rs
      → get_or (r ∷ rs) (length rs - m) blank ≡ get_or rs (length rs - 1 - m) blank
  get_or-later r rs m h = ap (λ i. get_or (r ∷ rs) i blank) (step (length rs) h)
    where
      step : (n : ℕ) → m < n → n - m ≡ suc (n - 1 - m)
      step n h = omega (arith, h)

  pub store-Keeps :
      (l : Log W F) (p : Pipeline W F) (r : SignalRecord W F)
      → 0 < history_len
      → length l.signals + 1 < 2 ^ 64
      → Keeps l p
      → Keeps (record l { signals = r ∷ l.signals }) (store_signal history_len p r)
  unfolding store_signal
  store-Keeps l p r pos small v = record {
    size = length-set p.signal_history (p.signal_write_idx % history_len) r ∙ v.size;
    counted = omega (arith, v.counted, small);
    kept = λ m lt near. elim (ℕ_discrete m (length l.signals)) [
      | yes e ↦ rw (e, v.counted) (newest e)
      | no ne ↦ rw v.counted (older m (omega (arith, lt, ne)) (omega (arith, near)))
    ];
    fitted = v.fitted;
    refit = v.refit;
  }
    where
      n : ℕ
      n = length l.signals

      newest :
          {m : ℕ}
          → m ≡ n
          → get_or (set p.signal_history (n % history_len) r) (n % history_len) blank
            ≡ get_or (r ∷ l.signals) (suc n - 1 - n) blank
      newest e =
          get_or-set_self p.signal_history (n % history_len) r blank
            (subst (λ t. n % history_len < t) (sym v.size) (mod-lt n pos))
          ∙ ap (λ i. get_or (r ∷ l.signals) i blank) (none_before n)

      older :
          (m : ℕ)
          → m < n
          → suc n ≤ m + history_len
          → get_or (set p.signal_history (n % history_len) r) (m % history_len) blank
            ≡ get_or (r ∷ l.signals) (suc n - 1 - m) blank
      older m lt near =
          get_or-set_ne p.signal_history (n % history_len) (m % history_len) r blank (λ e.
            mod_apart history_len m (n - m) (omega (arith, lt)) (omega (arith, lt, near))
              (ap (λ t. t % history_len) (rejoin m n lt) ∙ e))
          ∙ v.kept m lt (omega (arith, near))
          ∙ sym (get_or-later r l.signals m lt)
          ∙ ap (λ i. get_or (r ∷ l.signals) i blank) (before m n)

  pub zero-Keeps : (l : Log W F) (p : Pipeline W F) → Keeps l p → Keeps l (count_zero_edges p)
  unfolding count_zero_edges
  zero-Keeps l p v = record {
    size = v.size;
    counted = v.counted;
    kept = v.kept;
    fitted = v.fitted;
    refit = v.refit;
  }

  pub last-newest :
      (l : Log W F) (p : Pipeline W F)
      → 0 < history_len
      → 0 < length l.signals
      → Keeps l p
      → last_signal history_len blank p ≡ get_or l.signals 0 blank
  unfolding last_signal
  last-newest l p pos any v =
      ap (λ i. get_or p.signal_history i blank)
        (ap (λ n. (n + history_len - 1) % history_len) v.counted
          ∙ ap (λ n. n % history_len) (one_back (length l.signals) any)
          ∙ add-mod_right (length l.signals - 1) history_len)
      ∙ v.kept (length l.signals - 1) (omega (arith, any)) (omega (arith, pos, any))
      ∙ ap (λ i. get_or l.signals i blank) (itself (length l.signals))
    where
      one_back : (n : ℕ) → 0 < n → n + history_len - 1 ≡ n - 1 + history_len
      one_back n h = omega (arith, h)

      itself : (n : ℕ) → n - 1 - (n - 1) ≡ 0
      itself n = omega arith
