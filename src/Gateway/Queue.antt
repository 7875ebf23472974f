-- ===== src/Gateway/Queue.antt =====
-- The order of the requests on the wire, over any sequence of calls, connections and failures.
use mathlib.Core.List.{append_assoc}
use holographic_market.Base.{
  ℕ, ◌-◌, ◌≡◌, refl, sym, ap, ◌∙◌, Bool, true, false, not, ◌&&◌, List, [], ◌∷◌, ◌++◌, Option, none,
  some, arith, if◌then◌else◌, Bool-cases, inl, inr,
}
use holographic_market.Base.Int.{ℤ}
use holographic_market.Base.Double.{Double}
use holographic_market.Oms.Order.{Text, Side}
use holographic_market.Oms.Core.{Oms}
use holographic_market.Oms.Index.{find}
use holographic_market.Feed.{Json}
use holographic_market.Gateway.Texts.{Venue, limit_msg, market_msg, cancel_msg}
use holographic_market.Gateway.{
  Gateway, new_gateway, write_front, drop_front, do_write, run_post, finish_write, connect,
  disconnect, next_msg_id, track_pending, post, send_limit_post_only, send_market, cancel_order,
  ack_of, answer, answer_ack, handle_ack,
}

-- What the executor, the connection and the venue do between two calls. A write ends before the
-- stream that it is on is replaced.
pub data Step : Gateway → Gateway → Type 0 where
  runs :
      {g : Gateway} (m : Text) (rest : List Text)
      → g.posts ≡ m ∷ rest
      → Step g (run_post (record g { posts = rest }) m)
  finishes : {g : Gateway} (ok : Bool) → g.in_flight ≡ 1 → Step g (finish_write g ok)
  connects : {g : Gateway} → g.connected ≡ false → g.in_flight ≡ 0 → Step g (connect g)
  disconnects : {g : Gateway} → Step g (disconnect g)

-- The requests that were made, in order, and the state that they and the steps lead to.
pub data Reach {J W : Type 0} ⦃d : Double W⦄ (json : Json J) (from_chars : Text → Option ℕ)
    (venue : Venue W) : List Text → Gateway → Type 0 where
  here : Reach json from_chars venue [] new_gateway
  limit :
      {asked : List Text} {g : Gateway} (cid sym : Text) (side : Side) (price qty : W) (ts : ℕ)
      → Reach json from_chars venue asked g
      → Reach json from_chars venue
          (asked ++ limit_msg venue (next_msg_id g).0 cid sym side price qty ts ∷ [])
          (send_limit_post_only venue g cid sym side price qty ts)
  market :
      {asked : List Text} {g : Gateway} (cid sym : Text) (side : Side) (qty : W) (ts : ℕ)
      → Reach json from_chars venue asked g
      → Reach json from_chars venue
          (asked ++ market_msg venue (next_msg_id g).0 cid sym side qty ts ∷ [])
          (send_market venue g cid sym side qty ts)
  cancel :
      {asked : List Text} {g : Gateway} (sym cid : Text) (ts : ℕ)
      → Reach json from_chars venue asked g
      → Reach json from_chars venue
          (asked ++ cancel_msg venue (next_msg_id g).0 sym cid ts ∷ [])
          (cancel_order venue g sym cid ts)
  step :
      {asked : List Text} {g g' : Gateway}
      → Reach json from_chars venue asked g
      → Step g g'
      → Reach json from_chars venue asked g'
  ack :
      {asked : List Text} {g : Gateway} (o : Oms W) (now : ℤ) (text : Text)
      → Reach json from_chars venue asked g
      → Reach json from_chars venue asked (handle_ack json from_chars g o now text).0

abbrev pub waits : List Text → Bool
waits [] = false
waits (m ∷ queue) = true

-- The messages that are written, those that wait and those whose continuations wait are the requests
-- in order; there is a write under way exactly when the flag is set, and it is one; it is of a
-- message that waits; and on a connection no message waits without one.
pub record IsOrderly (asked : List Text) (g : Gateway) : Type 0 where
  pub order : g.written ++ (g.queue ++ g.posts) ≡ asked
  pub single : g.in_flight ≡ (if g.writing then 1 else 0)
  pub front : g.writing ≡ true → waits g.queue ≡ true
  pub busy : g.connected ≡ true → waits g.queue ≡ true → g.writing ≡ true

waits-append : (queue : List Text) (m : Text) → waits (queue ++ m ∷ []) ≡ true
waits-append [] m = refl
waits-append (x ∷ queue) m = refl

do_write-IsOrderly :
    (asked : List Text) (g : Gateway)
    → g.written ++ (g.queue ++ g.posts) ≡ asked
    → g.in_flight ≡ 0
    → IsOrderly asked (do_write g)
unfolding do_write
do_write-IsOrderly asked g order idle = by_queue g.queue refl
  where
    by_queue : (q : List Text) → g.queue ≡ q → IsOrderly asked (write_front q g)
    by_queue [] e = record {
      order = order;
      single = idle;
      front = λ p. cc;
      busy = λ p w. sym (ap waits e) ∙ w;
    }
    by_queue (m ∷ queue) e = elim (Bool-cases g.connected) [
      | inl c ↦ rw c (record {
        order = order;
        single = omega (arith, idle);
        front = λ p. ap waits e;
        busy = λ p w. refl;
      })
      | inr c ↦ rw c (record { order = order; single = idle; front = λ p. cc; busy = λ p w. p })
    ]

run_post-IsOrderly :
    (asked : List Text) (g : Gateway) (m : Text) (rest : List Text)
    → g.posts ≡ m ∷ rest
    → IsOrderly asked g
    → IsOrderly asked (run_post (record g { posts = rest }) m)
unfolding run_post
run_post-IsOrderly asked g m rest e v = elim (Bool-cases (g.connected && not g.writing)) [
  | inl c ↦ rw c (
      do_write-IsOrderly asked (record g { posts = rest; queue = g.queue ++ m ∷ [] }) order
        (v.single ∙ rw (idle c) refl))
  | inr c ↦ rw c (record {
    order = order;
    single = v.single;
    front = λ p. waits-append g.queue m;
    busy = λ p w. ground (arith, c, p);
  })
]
  where
    order : g.written ++ ((g.queue ++ m ∷ []) ++ rest) ≡ asked
    order = rw append_assoc (rw e at v.order)

    idle : (g.connected && not g.writing) ≡ true → g.writing ≡ false
    idle c = ground (arith, c)

finish_write-IsOrderly :
    (asked : List Text) (g : Gateway) (ok : Bool)
    → g.in_flight ≡ 1
    → IsOrderly asked g
    → IsOrderly asked (finish_write g ok)
unfolding finish_write
finish_write-IsOrderly asked g false one v = record {
  order = v.order;
  single = omega (arith, one);
  front = λ p. cc;
  busy = λ p. cc;
}
finish_write-IsOrderly asked g true one v = by_queue g.queue refl
  where
    by_queue :
        (q : List Text)
        → g.queue ≡ q
        → IsOrderly asked (do_write (drop_front q (record g { in_flight = g.in_flight - 1 })))
    by_queue [] e =
        do_write-IsOrderly asked (record g { in_flight = g.in_flight - 1 }) v.order
          (omega (arith, one))
    by_queue (m ∷ queue) e =
        do_write-IsOrderly asked
          (record g { in_flight = g.in_flight - 1; queue = queue; written = g.written ++ m ∷ [] })
          (append_assoc g.written (m ∷ []) (queue ++ g.posts)
            ∙ ap (λ q. g.written ++ (q ++ g.posts)) (sym e)
            ∙ v.order)
          (omega (arith, one))

connect-IsOrderly :
    (asked : List Text) (g : Gateway)
    → g.in_flight ≡ 0
    → IsOrderly asked g
    → IsOrderly asked (connect g)
unfolding connect
connect-IsOrderly asked g idle v = by_queue g.queue refl
  where
    by_queue :
        (q : List Text)
        → g.queue ≡ q
        → IsOrderly asked (elim q as (λ _. Gateway) [
          | [] ↦ record g { connected = true }
          | m ∷ queue ↦ do_write (record g { connected = true })
        ])
    by_queue [] e = record {
      order = v.order;
      single = v.single;
      front = v.front;
      busy = λ p w. cc (ap waits e, w);
    }
    by_queue (m ∷ queue) e = do_write-IsOrderly asked (record g { connected = true }) v.order idle

Step-IsOrderly :
    {asked : List Text} {g g' : Gateway} → Step g g' → IsOrderly asked g → IsOrderly asked g'
unfolding disconnect
Step-IsOrderly {asked} {g} (runs m rest e) v = run_post-IsOrderly asked g m rest e v
Step-IsOrderly {asked} {g} (finishes ok one) v = finish_write-IsOrderly asked g ok one v
Step-IsOrderly {asked} {g} (connects off idle) v = connect-IsOrderly asked g idle v
Step-IsOrderly {asked} {g} disconnects v = record {
  order = v.order;
  single = v.single;
  front = v.front;
  busy = λ p. cc;
}

-- What the queue consists of, apart from the posts.
abbrev SameQueue : Gateway → Gateway → Type 0
SameQueue g h =
    (h.queue ≡ g.queue)
    × (h.connected ≡ g.connected)
    × (h.writing ≡ g.writing)
    × (h.in_flight ≡ g.in_flight)
    × (h.written ≡ g.written)
    × (h.posts ≡ g.posts)

track_pending-SameQueue : (g : Gateway) (id : ℕ) (cid : Text) → SameQueue g (track_pending g id cid)
unfolding track_pending
track_pending-SameQueue g id cid = by_entry (find id g.pending)
  where
    by_entry :
        (o : Option Text)
        → SameQueue g (elim o as (λ _. Gateway) [
          | none ↦ record g { pending = (id, cid) ∷ g.pending }
          | some c ↦ g
        ])
    by_entry none = (refl, refl, refl, refl, refl, refl)
    by_entry (some c) = (refl, refl, refl, refl, refl, refl)

post-IsOrderly :
    (asked : List Text) (g h : Gateway) (m : Text)
    → SameQueue g h
    → IsOrderly asked g
    → IsOrderly (asked ++ m ∷ []) (post h m)
post-IsOrderly asked g h m (q, c, w, f, x, p) v = record {
  order = rw (x, q, p) (rw (← v.order) (rw (append_assoc, append_assoc) refl));
  single = rw (f, w) v.single;
  front = λ t. ap waits q ∙ v.front (sym w ∙ t);
  busy = λ t u. w ∙ v.busy (sym c ∙ t) (sym (ap waits q) ∙ u);
}

module _ {J W : Type 0} ⦃d : Double W⦄ (json : Json J) (from_chars : Text → Option ℕ)
    (venue : Venue W) where
  answer-SameQueue :
      (g : Gateway) (o : Oms W) (now : ℤ) (a : Option (ℕ × ℤ))
      → SameQueue g (answer_ack json from_chars g o now a).0
  answer-SameQueue g o now none = (refl, refl, refl, refl, refl, refl)
  answer-SameQueue g o now (some (id, status)) = by_entry (find id g.pending)
    where
      by_entry : (e : Option Text) → SameQueue g (answer json from_chars g o now id status e).0
      by_entry none = (refl, refl, refl, refl, refl, refl)
      by_entry (some cid) = (refl, refl, refl, refl, refl, refl)

  SameQueue-IsOrderly :
      (asked : List Text) (g h : Gateway) → SameQueue g h → IsOrderly asked g → IsOrderly asked h
  SameQueue-IsOrderly asked g h (q, c, w, f, x, p) v = record {
    order = rw (x, q, p) v.order;
    single = rw (f, w) v.single;
    front = λ t. ap waits q ∙ v.front (sym w ∙ t);
    busy = λ t u. w ∙ v.busy (sym c ∙ t) (sym (ap waits q) ∙ u);
  }

  -- In every state that calls, answers, connections, writes and failures lead to, in any order, as
  -- long as a write ends before its stream is replaced: the messages that were written, those in
  -- the queue and those whose continuations wait are the requests that were made, in order, each
  -- once; at most one write is under way, of the first message in the queue; and on a connection
  -- a message in the queue never waits without a write.
  pub Reach-IsOrderly :
      {asked : List Text} {g : Gateway} → Reach json from_chars venue asked g → IsOrderly asked g
  unfolding send_limit_post_only send_market cancel_order next_msg_id handle_ack
  Reach-IsOrderly here = record { order = refl; single = refl; front = λ p. cc; busy = λ p. cc }
  Reach-IsOrderly (limit {asked} {g} cid sym side price qty ts r) =
      post-IsOrderly asked g (track_pending (next_msg_id g).1 (next_msg_id g).0 cid) _
        (track_pending-SameQueue (next_msg_id g).1 (next_msg_id g).0 cid) (Reach-IsOrderly r)
  Reach-IsOrderly (market {asked} {g} cid sym side qty ts r) =
      post-IsOrderly asked g (track_pending (next_msg_id g).1 (next_msg_id g).0 cid) _
        (track_pending-SameQueue (next_msg_id g).1 (next_msg_id g).0 cid) (Reach-IsOrderly r)
  Reach-IsOrderly (cancel {asked} {g} sym cid ts r) =
      post-IsOrderly asked g (next_msg_id g).1 _ (refl, refl, refl, refl, refl, refl)
        (Reach-IsOrderly r)
  Reach-IsOrderly (step r s) = Step-IsOrderly s (Reach-IsOrderly r)
  Reach-IsOrderly (ack {asked} {g} o now text r) =
      SameQueue-IsOrderly asked g (handle_ack json from_chars g o now text).0
        (answer-SameQueue g o now (ack_of json from_chars text)) (Reach-IsOrderly r)
