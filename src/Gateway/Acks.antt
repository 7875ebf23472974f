-- ===== src/Gateway/Acks.antt =====
-- What an answer on the order socket does to the order that it is about, and what a disconnect makes
-- of the answers that are still to come.
use mathlib.Core.Option
use holographic_market.Base.{
  ℕ, ◌≡◌, refl, sym, ap, ◌∙◌, subst, Bool, true, false, List, [], ◌∷◌, Option, none, some, ◌-◌,
  ◌++◌, ◌==◌, ==_refl, if◌then◌else◌, ◌&&◌, not, Bool-cases, inl, inr,
}
use holographic_market.Base.Int.{ℤ, pos}
use holographic_market.Base.Table.{same_ℤ}
use holographic_market.Base.Double.{Double}
use holographic_market.Oms.Order.{Text, OrderRecord, rejected, fnv1a64}
use holographic_market.Oms.Index.{find, erase, IsMap, find-erase}
use holographic_market.Oms.Core.{Oms, get, updated, updates, step, run}
use holographic_market.Oms.Inv.{Inv}
use holographic_market.Oms.Runs.{get-update}
use holographic_market.Feed.{Json}
use holographic_market.Feed.Updates.{Driven, Driven-refl}
use holographic_market.Gateway.{
  Gateway, do_write, write_front, drop_front, run_post, finish_write, connect, disconnect, ack_of,
  reject, answer, answer_ack, handle_ack,
}
use holographic_market.Gateway.Queue.{Step, runs, finishes, connects, disconnects}

module _ {J W : Type 0} ⦃d : Double W⦄ (json : Json J) (from_chars : Text → Option ℕ) where
  -- The record that a rejected order has.
  abbrev pub rejection : ℤ → OrderRecord W → OrderRecord W
  rejection now r = updated r rejected d.nought d.nought (pos 0) now d.nought

  handle-tracked :
      (g : Gateway) (o : Oms W) (now : ℤ) (text : Text) (id : ℕ) (status : ℤ) (cid : Text)
      → ack_of json from_chars text ≡ some (id, status)
      → find id g.pending ≡ some cid
      → handle_ack json from_chars g o now text ≡ (
        record g { pending = erase id g.pending },
        if same_ℤ status (pos 200) then o else reject json from_chars o cid now,
      )
  unfolding handle_ack
  handle-tracked g o now text id status cid e f =
      ap (answer_ack json from_chars g o now) e ∙ ap (answer json from_chars g o now id status) f

  handle-untracked :
      (g : Gateway) (o : Oms W) (now : ℤ) (text : Text) (id : ℕ) (status : ℤ)
      → ack_of json from_chars text ≡ some (id, status)
      → find id g.pending ≡ none
      → handle_ack json from_chars g o now text ≡ (g, o)
  unfolding handle_ack
  handle-untracked g o now text id status e f =
      ap (answer_ack json from_chars g o now) e ∙ ap (answer json from_chars g o now id status) f

  handle-unknown :
      (g : Gateway) (o : Oms W) (now : ℤ) (text : Text)
      → ((id : ℕ) → find id g.pending ≡ none)
      → handle_ack json from_chars g o now text ≡ (g, o)
  unfolding handle_ack
  handle-unknown g o now text unknown = by_ack (ack_of json from_chars text)
    where
      by_ack : (a : Option (ℕ × ℤ)) → answer_ack json from_chars g o now a ≡ (g, o)
      by_ack none = refl
      by_ack (some (id, status)) = ap (answer json from_chars g o now id status) (unknown id)

  -- An answer to a tracked request, whatever else is tracked. With the status 200 no order changes;
  -- with any other the order of the request, if it is known, becomes rejected, and no other order
  -- changes. The request is tracked no longer and every other one
  -- still is, so the same answer again does nothing.
  pub handle_ack_lem :
      (g : Gateway) (o : Oms W) (now later : ℤ) (text : Text) (id : ℕ) (status : ℤ) (cid : Text)
      → ack_of json from_chars text ≡ some (id, status)
      → find id g.pending ≡ some cid
      → IsMap g.pending
      → Inv o
      → let r = handle_ack json from_chars g o now text in
        ((j : ℕ)
          → get r.1 j ≡ (
              if same_ℤ status (pos 200)
              then get o j
              else if fnv1a64 cid == j
              then Option.map (rejection now) (get o j)
              else get o j))
        × ((k : ℕ) → find k r.0.pending ≡ (if id == k then none else find k g.pending))
        × (handle_ack json from_chars r.0 r.1 later text ≡ r)
  unfolding reject
  handle_ack_lem g o now later text id status cid e f m v =
      subst
        (λ (r : Gateway × Oms W).
          ((j : ℕ)
            → get r.1 j ≡ (
                if same_ℤ status (pos 200)
                then get o j
                else if fnv1a64 cid == j
                then Option.map (rejection now) (get o j)
                else get o j))
          × ((k : ℕ) → find k r.0.pending ≡ (if id == k then none else find k g.pending))
          × (handle_ack json from_chars r.0 r.1 later text ≡ r))
        (sym (handle-tracked g o now text id status cid e f))
        (orders (same_ℤ status (pos 200)), (λ k. find-erase id k g.pending m), again)
    where
      orders :
          (b : Bool) (j : ℕ)
          → get (if b then o else reject json from_chars o cid now) j ≡ (
              if b
              then get o j
              else if fnv1a64 cid == j
              then Option.map (rejection now) (get o j)
              else get o j)
      orders true j = refl
      orders false j =
          get-update o (fnv1a64 cid) j rejected d.nought d.nought (pos 0) now d.nought v

      gone : find id (erase id g.pending) ≡ none
      gone = find-erase id id g.pending m ∙ rw (==_refl id) refl

      o' : Oms W
      o' = if same_ℤ status (pos 200) then o else reject json from_chars o cid now

      again :
          handle_ack json from_chars (record g { pending = erase id g.pending }) o' later text
          ≡ (record g { pending = erase id g.pending }, o')
      again =
          handle-untracked (record g { pending = erase id g.pending }) o' later text id status e
            gone

-- The steps of the connection after a disconnect, until the next request. Answers are looked at
-- separately: they change nothing in a state without tracked requests.
pub data Drains : Gateway → Gateway → Type 0 where
  here : {g : Gateway} → Drains g g
  next : {g h k : Gateway} → Drains g h → Step h k → Drains g k

do_write-pending : (g : Gateway) → (do_write g).pending ≡ g.pending
unfolding do_write
do_write-pending g = by_queue g.queue
  where
    by_queue : (q : List Text) → (write_front q g).pending ≡ g.pending
    by_queue [] = refl
    by_queue (m ∷ queue) = elim (Bool-cases g.connected) [ inl c ↦ rw c refl | inr c ↦ rw c refl ]

finish_write-pending : (g : Gateway) (ok : Bool) → (finish_write g ok).pending ≡ g.pending
unfolding finish_write
finish_write-pending g false = refl
finish_write-pending g true =
    do_write-pending (drop_front g.queue (record g { in_flight = g.in_flight - 1 }))
    ∙ by_queue g.queue
  where
    by_queue :
        (q : List Text)
        → (drop_front q (record g { in_flight = g.in_flight - 1 })).pending ≡ g.pending
    by_queue [] = refl
    by_queue (m ∷ queue) = refl

Step-pending : {g h : Gateway} → Step g h → g.pending ≡ [] → h.pending ≡ []
unfolding run_post connect disconnect
Step-pending {g} (runs m rest e) p =
    either (g.connected && not g.writing) (record g { posts = rest; queue = g.queue ++ m ∷ [] }) p
  where
    either : (b : Bool) (h : Gateway) → h.pending ≡ [] → (if b then do_write h else h).pending ≡ []
    either true h q = do_write-pending h ∙ q
    either false h q = q
Step-pending {g} (finishes ok one) p = finish_write-pending g ok ∙ p
Step-pending {g} (connects off idle) p = by_queue g.queue
  where
    by_queue :
        (q : List Text)
        → (elim q as (λ _. Gateway) [
          | [] ↦ record g { connected = true }
          | m ∷ queue ↦ do_write (record g { connected = true })
        ]).pending
          ≡ []
    by_queue [] = p
    by_queue (m ∷ queue) = do_write-pending (record g { connected = true }) ∙ p
Step-pending disconnects p = refl

Drains-pending : {g h : Gateway} → Drains g h → g.pending ≡ [] → h.pending ≡ []
Drains-pending here p = p
Drains-pending (next r s) p = Step-pending s (Drains-pending r p)

module _ {J W : Type 0} ⦃d : Double W⦄ (json : Json J) (from_chars : Text → Option ℕ) where
  -- The messages that wait stay in line over a disconnect, and yet, over any steps of the
  -- connection, no answer to one of them changes an order, whatever it says, until there is
  -- another request.
  pub disconnect-forgets :
      (g h : Gateway) (o : Oms W) (now : ℤ) (text : Text)
      → Drains (disconnect g) h
      → ((disconnect g).queue ≡ g.queue)
        × ((disconnect g).posts ≡ g.posts)
        × (handle_ack json from_chars h o now text ≡ (h, o))
  unfolding disconnect find
  disconnect-forgets g h o now text r = (
    refl,
    refl,
    handle-unknown json from_chars h o now text (λ id. ap (find id) (Drains-pending r refl)),
  )

  reject-Driven : (o : Oms W) (cid : Text) (now : ℤ) → Driven o (reject json from_chars o cid now)
  unfolding reject run step
  reject-Driven o cid now = (updates _ _ _ _ _ _ _ ∷ [], (tt, tt), refl)

  pub handle_ack-Driven :
      (g : Gateway) (o : Oms W) (now : ℤ) (text : Text)
      → Driven o (handle_ack json from_chars g o now text).1
  unfolding handle_ack
  handle_ack-Driven g o now text = by_ack (ack_of json from_chars text)
    where
      by_status :
          (b : Bool) (cid : Text) → Driven o (if b then o else reject json from_chars o cid now)
      by_status true cid = Driven-refl o
      by_status false cid = reject-Driven o cid now

      by_entry :
          (id : ℕ) (status : ℤ) (e : Option Text)
          → Driven o (answer json from_chars g o now id status e).1
      by_entry id status none = Driven-refl o
      by_entry id status (some cid) = by_status (same_ℤ status (pos 200)) cid

      by_ack : (a : Option (ℕ × ℤ)) → Driven o (answer_ack json from_chars g o now a).1
      by_ack none = Driven-refl o
      by_ack (some (id, status)) = by_entry id status (find id g.pending)
