-- ===== src/Gateway/Tests.antt =====
-- One limit order and its rejection, and the theorems on the gateway at it. Amounts are whole
-- numbers, and a venue answers every text with the number 1 and the status 400.
use holographic_market.Base.{
  ℕ, ◌≡◌, refl, true, false, List, [], ◌∷◌, ◌++◌, Option, none, some, ◌==◌, if◌then◌else◌,
}
use mathlib.Core.Option
use holographic_market.Base.Bytes.{codes}
use holographic_market.Base.Int.{ℤ, pos}
use holographic_market.Base.Table.{same_ℤ}
use holographic_market.Base.Double.{whole, ℤ-IsOrdered}
use holographic_market.Oms.Order.{
  buy, sell, Text, OrderRecord, blank, fill_buffer, fnv1a64, canceled, is_status, rejected,
}
use holographic_market.Oms.Core.{Oms, make, get, run, Op, registers}
use holographic_market.Oms.Index.{find}
use holographic_market.Oms.Inv.{Inv}
use holographic_market.Oms.Runs.{run-Inv}
use holographic_market.Oms.Fills.{Advanced}
use holographic_market.Engine.Orders.{to_string}
use holographic_market.Feed.{Json}
use holographic_market.Feed.Session.{receives}
use holographic_market.Gateway.Texts.{
  Venue, side_text, order_payload, build_order_msg, cancel_msg, limit_msg,
}
use holographic_market.Gateway.Signed.{IsSigned, order_of, cancel_fields, build_order_msg-IsSigned}
use holographic_market.Gateway.{
  Gateway, new_gateway, disconnect, send_limit_post_only, connect, run_post, finish_write, backoffs,
  handle_ack,
}
use holographic_market.Gateway.Queue.{
  Reach, here, limit, step, runs, finishes, connects, IsOrderly, Reach-IsOrderly,
}
use holographic_market.Gateway.Acks.{Drains, rejection, handle_ack_lem, disconnect-forgets}
use holographic_market.Gateway.Acks
use holographic_market.Gateway.Streams.{StreamStep, feeds, answers, streams, streams-Advanced}

abbrev venue : Venue ℤ
venue = record {
  api_key = codes "k";
  api_secret = codes "s";
  format_decimal = λ x n. codes "10";
  hmac = λ secret text. 171 ∷ [];
}

abbrev refusal : Json (Unit {0})
refusal = record {
  parse = λ t. some tt;
  text_at = λ j k. some (codes "1");
  int_at = λ j k. some (pos 400);
  element_at = λ j k. none;
  elements = λ j. none;
}

abbrev one : Text → Option ℕ
one t = some 1

abbrev sent : List (Op ℤ)
sent = registers (codes "holo-0") (codes "BTCUSDT") buy (pos 10) (pos 10) (pos 5) (pos 5) ∷ []

abbrev known : OrderRecord ℤ
known = record blank {
  client_order_id = fill_buffer 40 6 (codes "holo-0");
  symbol = fill_buffer 16 7 (codes "BTCUSDT");
  price = pos 10;
  qty = pos 10;
  created_ns = pos 5;
  updated_ns = pos 5;
  created_mono_ns = pos 5;
}

abbrev key : ℕ
key = 15575691308032425146

known_lem : get (run make sent) key ≡ some known
unfolding run holographic_market.Oms.Core.step fnv1a64 fill_buffer get
    holographic_market.Oms.Core.register_new_order make holographic_market.Oms.Index.find
    holographic_market.Oms.Core.store_record holographic_market.Oms.Index.assign
    holographic_market.Oms.Order.make_client_id holographic_market.Oms.Order.make_symbol
known_lem = refl

payload :
    order_payload venue
      (codes "holo-0")
      (codes "BTCUSDT")
      (side_text buy)
      (codes "LIMIT")
      (codes "10")
      (codes "7")
      (codes "GTX")
      77
      true
      false
    ≡ codes "apiKey=k&newClientOrderId=holo-0&price=7&quantity=10&side=BUY"
      ++ codes "&symbol=BTCUSDT&timeInForce=GTX&timestamp=77&type=LIMIT"
unfolding order_payload to_string
payload = refl

build_order_msg-IsSigned_example :
    IsSigned venue
      (to_string 1)
      (codes "order.place")
      (order_of venue
        (codes "holo-0")
        (codes "BTCUSDT")
        (codes "SELL")
        (codes "MARKET")
        (pos 10)
        (pos 0)
        []
        77)
      (build_order_msg venue 1
        (codes "holo-0")
        (codes "BTCUSDT")
        (codes "SELL")
        (codes "MARKET")
        (pos 10)
        (pos 0)
        []
        77)
    × IsSigned venue
        (to_string 1)
        (codes "order.cancel")
        (cancel_fields venue (codes "BTCUSDT") (codes "holo-0") 77)
        (cancel_msg venue 1 (codes "BTCUSDT") (codes "holo-0") 77)
build_order_msg-IsSigned_example =
    build_order_msg-IsSigned venue 1 (codes "holo-0") (codes "BTCUSDT") (codes "SELL")
      (codes "MARKET") (pos 10) (pos 0) [] 77

-- The order is sent before there is a connection, and written on it.
abbrev order_text : Text
order_text = limit_msg venue 1 (codes "holo-0") (codes "BTCUSDT") buy (pos 10) (pos 10) 77

abbrev asked_once : Gateway
unfolding send_limit_post_only
asked_once =
    send_limit_post_only venue new_gateway (codes "holo-0") (codes "BTCUSDT") buy (pos 10) (pos 10)
      77

abbrev writing_once : Gateway
unfolding run_post
writing_once = run_post (record (connect asked_once) { posts = [] }) order_text

written_once : Reach refusal one venue (order_text ∷ []) (finish_write writing_once true)
unfolding asked_once writing_once send_limit_post_only connect run_post find
written_once =
    step
      (step
        (step (limit (codes "holo-0") (codes "BTCUSDT") buy (pos 10) (pos 10) 77 here)
          (connects refl refl))
        (runs order_text [] refl))
      (finishes true refl)

Reach-IsOrderly_example : IsOrderly (order_text ∷ []) (finish_write writing_once true)
Reach-IsOrderly_example = Reach-IsOrderly refusal one venue written_once

it_was_written : (finish_write writing_once true).written ≡ order_text ∷ []
unfolding asked_once writing_once send_limit_post_only connect run_post finish_write find
it_was_written = refl

-- The rejection of the order.
tracked : find 1 asked_once.pending ≡ some (codes "holo-0")
unfolding asked_once send_limit_post_only find
tracked = refl

abbrev refused : Gateway × Oms ℤ
refused = handle_ack refusal one asked_once (run make sent) (pos 9) []

handle_ack_lem_example :
    ((j : ℕ)
      → get refused.1 j ≡ (
          if same_ℤ (pos 400) (pos 200)
          then get (run make sent) j
          else if fnv1a64 (codes "holo-0") == j
          then Option.map (rejection refusal one (pos 9)) (get (run make sent) j)
          else get (run make sent) j))
    × ((k : ℕ) → find k refused.0.pending ≡ (if 1 == k then none else find k asked_once.pending))
    × (handle_ack refusal one refused.0 refused.1 (pos 11) [] ≡ refused)
unfolding asked_once find
handle_ack_lem_example =
    handle_ack_lem refusal one asked_once (run make sent) (pos 9) (pos 11) [] 1 (pos 400)
      (codes "holo-0") refl tracked (refl, tt) (run-Inv sent)

-- The connection is lost before the order is written, and the next one writes it: its rejection
-- is passed over.
written_later :
    Drains
      (disconnect asked_once)
      (run_post (record (connect (disconnect asked_once)) { posts = [] }) order_text)
unfolding asked_once send_limit_post_only disconnect connect find
written_later = Acks.next (Acks.next Acks.here (connects refl refl)) (runs order_text [] refl)

disconnect-forgets_example :
    ((disconnect asked_once).queue ≡ asked_once.queue)
    × ((disconnect asked_once).posts ≡ asked_once.posts)
    × (handle_ack refusal one
          (run_post (record (connect (disconnect asked_once)) { posts = [] }) order_text)
          (run make sent)
          (pos 9)
          []
        ≡ (
          run_post (record (connect (disconnect asked_once)) { posts = [] }) order_text,
          run make sent,
        ))
disconnect-forgets_example =
    disconnect-forgets refusal one asked_once _ (run make sent) (pos 9) [] written_later

-- A message, the rejection, and the message again.
abbrev steps : List StreamStep
steps =
    feeds (receives (codes "event"))
    ∷ answers asked_once (pos 9) []
    ∷ feeds (receives (codes "event"))
    ∷ []

streams-Advanced_example :
    Inv (streams refusal (λ t. none) one (run make sent) steps)
    × Advanced known (get (streams refusal (λ t. none) one (run make sent) steps) key)
streams-Advanced_example =
    streams-Advanced refusal (λ t. none) one ℤ-IsOrdered (run make sent) steps key known
      (run-Inv sent) known_lem

-- However long each connection lasted, the fifth wait is 3.2 seconds.
fifth_wait : backoffs 200 5 ≡ 200 ∷ 400 ∷ 800 ∷ 1600 ∷ 3200 ∷ []
unfolding backoffs
fifth_wait = refl
