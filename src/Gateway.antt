-- ===== src/Gateway.antt =====
-- `BinanceGateway`, engine/net/binance_gateway.hpp: the requests that wait for the socket, and the
-- acknowledgements that reject an order. The connection is Boost.Beast, simdjson and
-- `std::from_chars` are parameters, and everything runs on one executor, as the class asks for.
pub mod Texts
pub mod Signed
pub mod Queue
pub mod Acks
pub mod Streams
mod Tests
use holographic_market.Base.{
  ℕ, zero, suc, ◌+◌, ◌-◌, ◌*◌, ◌%◌, ◌^◌, min, Bool, true, false, not, ◌&&◌, List, [], ◌∷◌, ◌++◌,
  Option, none, some, if◌then◌else◌, ◌==◌,
}
use holographic_market.Base.Bytes.{codes, ◌>>=◌, or_else}
use holographic_market.Base.Int.{ℤ, pos}
use holographic_market.Base.Table.{same_ℤ}
use holographic_market.Base.Double.{Double}
use holographic_market.Oms.Order.{Text, Side, rejected, fnv1a64}
use holographic_market.Oms.Index.{find, erase}
use holographic_market.Oms.Core.{Oms, apply_update, after}
use holographic_market.Feed.{Json}
use holographic_market.Gateway.Texts.{Venue, limit_msg, market_msg, cancel_msg}

-- `posts` are the messages of the continuations that wait for the executor, `in_flight` counts the
-- writes under way, and `written` are the messages whose writes succeeded.
pub record Gateway : Type 0 where
  pub queue : List Text
  pub connected : Bool
  pub writing : Bool
  pub msg_id : ℕ
  pub pending : List (ℕ × Text)
  pub posts : List Text
  pub in_flight : ℕ
  pub written : List Text

abbrev pub new_gateway : Gateway
new_gateway = record {
  queue = [];
  connected = false;
  writing = false;
  msg_id = 0;
  pending = [];
  posts = [];
  in_flight = 0;
  written = [];
}

-- `do_write`. There is a stream whenever the gateway is connected.
abbrev pub write_front : List Text → Gateway → Gateway
write_front [] g = record g { writing = false }
write_front (m ∷ queue) g =
    if g.connected
    then record g { writing = true; in_flight = g.in_flight + 1 }
    else record g { writing = false }

unfoldable pub do_write : Gateway → Gateway
do_write g = write_front g.queue g

-- The continuation that `send_msg` posts.
unfoldable pub run_post : Gateway → Text → Gateway
unfolding do_write
run_post g m =
    let g' = record g { queue = g.queue ++ m ∷ [] } in
    if g.connected && not g.writing then do_write g' else g'

-- The handler of a write: true when there is no error.
abbrev pub drop_front : List Text → Gateway → Gateway
drop_front [] g = g
drop_front (m ∷ queue) g = record g { queue = queue; written = g.written ++ m ∷ [] }

unfoldable pub finish_write : Gateway → Bool → Gateway
unfolding do_write
finish_write g true = do_write (drop_front g.queue (record g { in_flight = g.in_flight - 1 }))
finish_write g false = record g { writing = false; connected = false; in_flight = g.in_flight - 1 }

-- `run`, when the handshake is done.
unfoldable pub connect : Gateway → Gateway
unfolding do_write
connect g = elim g.queue [
  | [] ↦ record g { connected = true }
  | m ∷ queue ↦ do_write (record g { connected = true })
]

-- `run_with_backoff`, when `run` has thrown.
unfoldable pub disconnect : Gateway → Gateway
disconnect g = record g { connected = false; pending = [] }

-- The wait of each turn from a backoff on: `run` never returns, and nothing sets the backoff back.
unfoldable pub backoffs : ℕ → ℕ → List ℕ
backoffs backoff zero = []
backoffs backoff (suc turns) = backoff ∷ backoffs (min (backoff * 2) 10000) turns

unfoldable pub next_msg_id : Gateway → ℕ × Gateway
next_msg_id g = let id = (g.msg_id + 1) % 2 ^ 64 in (id, record g { msg_id = id })

-- `emplace` keeps an entry that is there.
unfoldable pub track_pending : Gateway → ℕ → Text → Gateway
track_pending g id cid = elim (find id g.pending) [
  | none ↦ record g { pending = (id, cid) ∷ g.pending }
  | some _ ↦ g
]

-- `send_msg`
abbrev pub post : Gateway → Text → Gateway
post g m = record g { posts = g.posts ++ m ∷ [] }

module _ {W : Type 0} ⦃d : Double W⦄ (venue : Venue W) where
  unfoldable pub send_limit_post_only : Gateway → Text → Text → Side → W → W → ℕ → Gateway
  unfolding next_msg_id track_pending limit_msg
  send_limit_post_only g cid sym side price qty ts =
      let (id, g') = next_msg_id g in
      post (track_pending g' id cid) (limit_msg venue id cid sym side price qty ts)

  unfoldable pub send_market : Gateway → Text → Text → Side → W → ℕ → Gateway
  unfolding next_msg_id track_pending market_msg
  send_market g cid sym side qty ts =
      let (id, g') = next_msg_id g in
      post (track_pending g' id cid) (market_msg venue id cid sym side qty ts)

  unfoldable pub cancel_order : Gateway → Text → Text → ℕ → Gateway
  unfolding next_msg_id cancel_msg
  cancel_order g sym cid ts =
      let (id, g') = next_msg_id g in post g' (cancel_msg venue id sym cid ts)

-- The number and the status of an answer.
module _ {J : Type 0} (json : Json J) (from_chars : Text → Option ℕ) where
  abbrev pub ack_of : Text → Option (ℕ × ℤ)
  ack_of text = do
    doc ← json.parse text
    id_str ← json.text_at doc (codes "id")
    status ← json.int_at doc (codes "status")
    id ← from_chars id_str
    some (id, status)

  module _ {W : Type 0} ⦃d : Double W⦄ where
    unfoldable pub reject : Oms W → Text → ℤ → Oms W
    reject o cid now =
        after o (apply_update o (fnv1a64 cid) rejected d.nought d.nought (pos 0) now d.nought)

    abbrev pub answer : Gateway → Oms W → ℤ → ℕ → ℤ → Option Text → Gateway × Oms W
    answer g o now id status none = (g, o)
    answer g o now id status (some cid) = (
      record g { pending = erase id g.pending },
      if same_ℤ status (pos 200) then o else reject o cid now,
    )

    abbrev pub answer_ack : Gateway → Oms W → ℤ → Option (ℕ × ℤ) → Gateway × Oms W
    answer_ack g o now none = (g, o)
    answer_ack g o now (some (id, status)) = answer g o now id status (find id g.pending)

    unfoldable pub handle_ack : Gateway → Oms W → ℤ → Text → Gateway × Oms W
    unfolding reject
    handle_ack g o now text = answer_ack g o now (ack_of text)
