-- ===== src/Engine/Signal/Inflight.antt =====
-- The symbols in flight: no two pairs share one, and a pair that ends frees its own.
use holographic_market.Base.{
  ◌≡◌, ◌≢◌, refl, sym, ap, ◌∙◌, Bool, true, false, ◌||◌, List, [], ◌∷◌, ◌++◌, none, some, arith,
  ==_ne,
}
use holographic_market.Base.Double.{Double}
use holographic_market.Base.Table.{
  text_key, member, insert, remove, member-insert, member-remove, same_text, same_text_iff,
}
use holographic_market.Oms.Order.{Text}
use holographic_market.Engine.State.{Engine}
use holographic_market.Engine.Signal.{bar, pair_key, split_at_bar, claim, clear_inflight}

abbrev pub NoBar : Text → Type 0
NoBar [] = Unit {0}
NoBar (c ∷ t) = (c ≢ bar) × NoBar t

-- The key of a pair is taken apart into the two symbols, whatever the second one has in it.
pub split_at_bar-pair_key : (a b : Text) → NoBar a → split_at_bar (pair_key a b) ≡ some (a, b)
unfolding split_at_bar
split_at_bar-pair_key [] b ok = refl
split_at_bar-pair_key (c ∷ a) b ok = rw (==_ne c bar ok.0, split_at_bar-pair_key a b ok.1) refl

-- Whether the symbol is a leg of one of the pairs.
abbrev pub traded_in : Text → List (Text × Text) → Bool
traded_in s [] = false
traded_in s ((a, b) ∷ l) = (same_text a s || same_text b s) || traded_in s l

-- No symbol is a leg of two of the pairs.
abbrev pub Disjoint : List (Text × Text) → Type 0
Disjoint [] = Unit {0}
Disjoint ((a, b) ∷ l) = (traded_in a l ≡ false) × (traded_in b l ≡ false) × Disjoint l

member-empty : (s : Text) → member s [] ≡ false
unfolding member
member-empty s = refl

traded_in-append :
    (s : Text) (l m : List (Text × Text)) → traded_in s (l ++ m) ≡ (traded_in s l || traded_in s m)
traded_in-append s [] m = refl
traded_in-append s ((a, b) ∷ l) m = ground (arith, traded_in-append s l m)

same_text_sym : (s t : Text) → same_text s t ≡ same_text t s
same_text_sym s t = ground (arith, same_text_iff s t, same_text_iff t s)

-- Without one of the pairs, they are disjoint, and none has a symbol of it.
without :
    (a b : Text) (l m : List (Text × Text))
    → Disjoint (l ++ (a, b) ∷ m)
    → Disjoint (l ++ m) × (traded_in a (l ++ m) ≡ false) × (traded_in b (l ++ m) ≡ false)
without a b [] m (free_a, free_b, rest) = (rest, free_a, free_b)
without a b ((x, y) ∷ l) m (free_x, free_y, rest) =
    let (disjoint, free_a, free_b) = without a b l m rest in
    let all_x = sym (traded_in-append x l ((a, b) ∷ m)) ∙ free_x in
    let all_y = sym (traded_in-append y l ((a, b) ∷ m)) ∙ free_y in
    (
      (
        ground (arith, traded_in-append x l m, all_x),
        ground (arith, traded_in-append y l m, all_y),
        disjoint,
      ),
      ground (arith, all_x, all_y, same_text_sym a x, same_text_sym a y, free_a),
      ground (arith, all_x, all_y, same_text_sym b x, same_text_sym b y, free_b),
    )

module _ {W C : Type 0} ⦃d : Double W⦄ where
  abbrev pub Holds : Engine W C → List (Text × Text) → Type 0
  Holds e l = Disjoint l × ((s : Text) → member s e.inflight_symbols ≡ traded_in s l)

  -- The state of the engine after calls, with the pairs that are in flight.
  pub data Reach : Engine W C → List (Text × Text) → Type 0 where
    start : (e : Engine W C) → e.inflight_symbols ≡ [] → Reach e []
    other :
        {e e' : Engine W C} {l : List (Text × Text)}
        → Reach e l
        → e'.inflight_symbols ≡ e.inflight_symbols
        → Reach e' l
    claims :
        {e e' : Engine W C} {l : List (Text × Text)} (a b : Text)
        → Reach e l
        → claim e a b ≡ some e'
        → Reach e' ((a, b) ∷ l)
    clears :
        {e : Engine W C} (before after : List (Text × Text)) (a b : Text)
        → NoBar a
        → Reach e (before ++ (a, b) ∷ after)
        → Reach (clear_inflight e (pair_key a b)) (before ++ after)

  -- What a claim has found, and done.
  pub claim-claims :
      (e e' : Engine W C) (a b : Text)
      → claim e a b ≡ some e'
      → (member a e.inflight_symbols ≡ false)
        × (member b e.inflight_symbols ≡ false)
        × (e'.inflight_symbols ≡ insert b (insert a e.inflight_symbols))
        × (e'.oms ≡ e.oms)
  unfolding claim
  claim-claims e e' a b done = ground (arith, done)

  pub claim-refuses :
      (e : Engine W C) (a b : Text)
      → claim e a b ≡ none
      → (member a e.inflight_symbols || member b e.inflight_symbols) ≡ true
  unfolding claim
  claim-refuses e a b refused = ground (arith, refused)

  -- A pair that is claimed and cleared leaves the symbols that are claimed as they were.
  pub clear-claim :
      (e x : Engine W C) (a b : Text)
      → NoBar a
      → member a e.inflight_symbols ≡ false
      → member b e.inflight_symbols ≡ false
      → x.inflight_symbols ≡ insert b (insert a e.inflight_symbols)
      → (s : Text)
      → member s (clear_inflight x (pair_key a b)).inflight_symbols ≡ member s e.inflight_symbols
  unfolding clear_inflight
  clear-claim e x a b ok free_a free_b now s =
      rw (clear_inflight, split_at_bar-pair_key a b ok, now)
        (ground (
          arith,
          member-remove b s (remove a (insert b (insert a e.inflight_symbols))),
          member-remove a s (insert b (insert a e.inflight_symbols)),
          member-insert b s (insert a e.inflight_symbols),
          member-insert a s e.inflight_symbols,
          free_a,
          free_b,
          same_text_iff a s,
          same_text_iff b s,
        ))

  claim-Holds :
      (e e' : Engine W C) (l : List (Text × Text)) (a b : Text)
      → Holds e l
      → claim e a b ≡ some e'
      → Holds e' ((a, b) ∷ l)
  claim-Holds e e' l a b (disjoint, same) done =
      let (free_a, free_b, now, _) = claim-claims e e' a b done in
      (
        (sym (same a) ∙ free_a, sym (same b) ∙ free_b, disjoint),
        λ s.
            ap (member s) now
            ∙ ground (
              arith,
              member-insert b s (insert a e.inflight_symbols),
              member-insert a s e.inflight_symbols,
              same s,
            ),
      )

  clear-Holds :
      (e : Engine W C) (before after : List (Text × Text)) (a b : Text)
      → NoBar a
      → Holds e (before ++ (a, b) ∷ after)
      → Holds (clear_inflight e (pair_key a b)) (before ++ after)
  unfolding clear_inflight
  clear-Holds e before after a b ok (disjoint, same) =
      let (disjoint', free_a, free_b) = without a b before after disjoint in
      rw (clear_inflight, split_at_bar-pair_key a b ok)
        (
          disjoint',
          λ s. ground (
            arith,
            member-remove b s (remove a e.inflight_symbols),
            member-remove a s e.inflight_symbols,
            same s,
            traded_in-append s before ((a, b) ∷ after),
            traded_in-append s before after,
            free_a,
            free_b,
            same_text_iff a s,
            same_text_iff b s,
          ),
        )

  -- In every state that the calls lead to, no two pairs in flight share a symbol, and a symbol is
  -- claimed exactly if it is a leg of one of them: none stays claimed after its pair has ended.
  pub Reach-Holds : (e : Engine W C) (l : List (Text × Text)) → Reach e l → Holds e l
  Reach-Holds e l (start _ none_yet) = (tt, λ s. ap (member s) none_yet ∙ member-empty s)
  Reach-Holds e l (other r same) =
      let (disjoint, claimed) = Reach-Holds _ l r in (disjoint, λ s. ap (member s) same ∙ claimed s)
  Reach-Holds e l (claims a b r done) = claim-Holds _ e _ a b (Reach-Holds _ _ r) done
  Reach-Holds e l (clears before after a b ok r) =
      clear-Holds _ before after a b ok (Reach-Holds _ _ r)
