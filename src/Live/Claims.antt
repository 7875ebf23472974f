-- ===== src/Live/Claims.antt =====
-- The pairs of one turn do not stand in each other's way: the engine's claims of their symbols all
-- succeed.
use holographic_market.Base.{
  ℕ, suc, ◌≡◌, ◌≤◌, refl, ap, ◌∙◌, Bool, true, false, ◌||◌, List, [], ◌∷◌, Option, none, some,
  arith, if◌then◌else◌, ◌==◌, length, Bool-cases, inl, inr,
}
use holographic_market.Base.Table.{text_key, member, insert}
use holographic_market.Base.Double.{Double}
use holographic_market.Oms.Order.{Text}
use holographic_market.Router.{top_k, RoutedEdge, Metrics, Signal, route}
use holographic_market.Router.Disjoint.{Apart, route-Apart}
use holographic_market.Router.Range.{AllNodes, InRange, route-InRange}
use holographic_market.Engine.State.{Engine, Leg}
use holographic_market.Engine.Signal.{claim, pair_key}
use holographic_market.Live.{
  symbol_of, Limits, Seen, is_over_limit, leg_of, pair_of, pairs_from, Loop, Topology, spawn, turn,
}
use holographic_market.Live.Symbols.{Free, Free-insert, Free-nil}

-- The claims of `on_signal` for one pair after the other; `none` where one of them fails.
unfoldable pub claim_all :
    {W C : Type 0} ⦃d : Double W⦄ → Engine W C → List (Leg W × Leg W) → Option (Engine W C)
claim_all e [] = some e
claim_all e ((leg1, leg2) ∷ pairs) = elim (claim e leg1.symbol leg2.symbol) [
  | none ↦ none
  | some e' ↦ claim_all e' pairs
]

-- The claim of two symbols that no pair in flight trades.
claim-free :
    {W C : Type 0} ⦃d : Double W⦄ (e : Engine W C) (a b : Text)
    → member a e.inflight_symbols ≡ false
    → member b e.inflight_symbols ≡ false
    → claim e a b
      ≡ some (record e {
        inflight_pairs = insert (pair_key a b) e.inflight_pairs;
        inflight_symbols = insert b (insert a e.inflight_symbols);
      })
unfolding claim
claim-free e a b p q = rw (p, q) refl

module _ {W : Type 0} ⦃d : Double W⦄ (lim : Limits W) (seen : ℕ → Seen W) where
  length-pairs_from :
      (i : ℕ) (edges : List (RoutedEdge W)) → length (pairs_from lim seen i edges) ≤ length edges
  unfolding pairs_from
  length-pairs_from i [] = omega arith
  length-pairs_from i (r ∷ edges) =
      let shorter = length-pairs_from (suc i) edges in
      elim (Bool-cases (is_over_limit lim (seen i) r.src_instrument)) [
        | inl over ↦ rw over (omega (arith, shorter))
        | inr under ↦ rw under (omega (arith, shorter))
      ]

module _ {W C : Type 0} ⦃d : Double W⦄ (lim : Limits W) (seen : ℕ → Seen W) where
  -- The engine after the claims, one of which exists for every pair.
  pairs-claimed :
      (e : Engine W C) (i : ℕ) (edges : List (RoutedEdge W))
      → Apart edges
      → InRange 4 edges
      → Free e.inflight_symbols edges
      → (e' : Engine W C) × (claim_all e (pairs_from lim seen i edges) ≡ some e')
  unfolding claim_all pairs_from leg_of
  pairs-claimed e i [] apart range free = (e, refl)
  pairs-claimed e i (r ∷ edges) apart range free =
      by_risk (is_over_limit lim (seen i) r.src_instrument)
        (pairs-claimed e (suc i) edges apart.2 range.2 free.2)
        (pairs-claimed claimed (suc i) edges apart.2 range.2 (
          Free-insert r.dst_instrument (insert a e.inflight_symbols) edges range.1 apart.1 range.2
            (Free-insert r.src_instrument e.inflight_symbols edges range.0 apart.0 range.2 free.2)))
    where
      a : Text
      a = symbol_of r.src_instrument

      b : Text
      b = symbol_of r.dst_instrument

      claimed : Engine W C
      claimed = record e {
        inflight_pairs = insert (pair_key a b) e.inflight_pairs;
        inflight_symbols = insert b (insert a e.inflight_symbols);
      }

      rest : List (Leg W × Leg W)
      rest = pairs_from lim seen (suc i) edges

      after : Option (Engine W C) → Option (Engine W C)
      after o = elim o [ none ↦ none | some e' ↦ claim_all e' rest ]

      claim_now : claim e a b ≡ some claimed
      claim_now = claim-free e a b free.0 free.1

      by_risk :
          (x : Bool)
          → ((e' : Engine W C) × (claim_all e rest ≡ some e'))
          → ((e' : Engine W C) × (claim_all claimed rest ≡ some e'))
          → (e' : Engine W C) × (claim_all e (if x then rest else pair_of lim (seen i) r ∷ rest)
              ≡ some e')
      by_risk true p q = p
      by_risk false p (e', q) = (e', ap after claim_now ∙ q)

module _ {W C : Type 0} ⦃d : Double W⦄ (lim : Limits W) (threshold : W) where
  -- A turn of the main loop on a topology of the four instruments, with an engine that has no pair
  -- in flight and with any books and positions at its reads, spawns at most three pairs, and the
  -- claims of their symbols, one pair after the other and none of them over, all succeed.
  pub turn-claimed :
      (s : Loop) (sig : Signal W) (topo : Topology W) (blocked : Bool) (seen : ℕ → Seen W)
      (e : Engine W C)
      → AllNodes 4 topo.edge_src topo.edge_dst
      → e.inflight_symbols ≡ []
      → let pairs = (turn lim threshold s sig topo blocked seen).1 in
        (length pairs ≤ top_k) × ((e' : Engine W C) × (claim_all e pairs ≡ some e'))
  unfolding turn claim_all
  turn-claimed s sig topo blocked seen e nodes idle =
      by_guards ((sig.timestamp_ns == s.last_sig_ts) || (sig.timestamp_ns == 0))
        (length topo.flows == 0) blocked
    where
      Fine : List (Leg W × Leg W) → Type 0
      Fine pairs = (length pairs ≤ top_k) × ((e' : Engine W C) × (claim_all e pairs ≡ some e'))

      none_spawned : Fine []
      none_spawned = (omega arith, (e, refl))

      noticed : Loop
      noticed = record s { last_sig_ts = sig.timestamp_ns }

      out : List (RoutedEdge W) × Metrics
      out = route threshold noticed.metrics sig topo.flows topo.edge_src topo.edge_dst

      routed_pairs : Fine (pairs_from lim seen 0 out.0)
      routed_pairs =
          let (apart, few) =
            route-Apart threshold s.metrics sig topo.flows topo.edge_src topo.edge_dst in
          let shorter = length-pairs_from lim seen 0 out.0 in
          let range =
            route-InRange threshold sig topo.edge_src topo.edge_dst 4 nodes s.metrics topo.flows in
          (
            omega (arith, few, shorter),
            pairs-claimed lim seen e 0 out.0 apart range (rw idle (Free-nil out.0)),
          )

      by_guards :
          (stale empty off : Bool)
          → Fine
              (if stale
                then (s, [])
                else if empty
                then (noticed, [])
                else spawn lim threshold noticed off seen out).1
      by_guards true empty off = none_spawned
      by_guards false true off = none_spawned
      by_guards false false true = none_spawned
      by_guards false false false = routed_pairs

module _ {W : Type 0} ⦃d : Double W⦄ (lim : Limits W) (threshold : W) where
  abbrev is_stale : Loop → Signal W → Bool
  is_stale s sig = (sig.timestamp_ns == s.last_sig_ts) || (sig.timestamp_ns == 0)

  turn-stale :
      (s : Loop) (sig : Signal W) (topo : Topology W) (blocked : Bool) (seen : ℕ → Seen W)
      → is_stale s sig ≡ true
      → turn lim threshold s sig topo blocked seen ≡ (s, [])
  unfolding turn
  turn-stale s sig topo blocked seen h = rw h refl

  -- A turn leaves its signal stale.
  is_stale-turn :
      (s : Loop) (sig : Signal W) (topo : Topology W) (blocked : Bool) (seen : ℕ → Seen W)
      → is_stale (turn lim threshold s sig topo blocked seen).0 sig ≡ true
  unfolding turn
  is_stale-turn s sig topo blocked seen = elim (Bool-cases (is_stale s sig)) [
    | inl old ↦ rw old old
    | inr new ↦ elim (Bool-cases (length topo.flows == 0)) [
      | inl empty ↦ rw (new, empty) noticed
      | inr full ↦ rw (new, full) noticed
    ]
  ]
    where
      noticed : ((sig.timestamp_ns == sig.timestamp_ns) || (sig.timestamp_ns == 0)) ≡ true
      noticed = ground arith

  -- A signal is answered once: whatever the topology, the guards, the books and the positions are
  -- then, the next turn with the same signal spawns nothing and changes nothing.
  turn-again :
      (s : Loop) (sig : Signal W) (topo topo' : Topology W) (blocked blocked' : Bool)
      (seen seen' : ℕ → Seen W)
      → let after = (turn lim threshold s sig topo blocked seen).0 in
        turn lim threshold after sig topo' blocked' seen' ≡ (after, [])
  turn-again s sig topo topo' blocked blocked' seen seen' =
      turn-stale (turn lim threshold s sig topo blocked seen).0 sig topo' blocked' seen'
        (is_stale-turn s sig topo blocked seen)
