-- ===== src/Ring/Threads.antt =====
-- The two threads of a ring, a shared access at a time, in any interleaving. An acquire load sees
-- the slots that were written before the release store whose value it loads: that is what one
-- sequence of steps over one memory says of these two indices, each stored by one thread only.
pub mod Inv
pub mod Steps
pub mod Safety
mod Tests
use holographic_market.Base.{ℕ, ◌+◌, ◌^◌, ◌<◌, ◌≡◌, ◌≢◌, List, [], ◌∷◌, ◌++◌, get_elem?, set, some}
use holographic_market.Ring.{Ring, next_index, make}

-- Where the producer stands in `try_push`, with its local variables. A refused call may be given
-- up or, as `push_blocking` does, made again: either way it stands `outside` once more.
pub data Producer {ℓ} (A : Type ℓ) : Type ℓ where
  outside : Producer A
  entered : (item : A) (head next : ℕ) → Producer A  -- `head_` is loaded
  admitted : (item : A) (head next : ℕ) → Producer A  -- the test against `tail_` has passed
  stored : (item : A) (head next : ℕ) → Producer A  -- the slot is written

-- Where the consumer stands in `try_pop`.
pub data Consumer {ℓ} (A : Type ℓ) : Type ℓ where
  outside : Consumer A
  entered : (tail : ℕ) → Consumer A  -- `tail_` is loaded
  admitted : (tail : ℕ) → Consumer A  -- the test against `head_` has passed
  copied : (item : A) (tail : ℕ) → Consumer A  -- the slot is read

-- `sent` and `received` record, oldest first, the items that the stores of the two indices hand
-- over: the calls that returned true.
pub record System {ℓ} (A : Type ℓ) : Type ℓ where
  pub ring : Ring A
  pub producer : Producer A
  pub consumer : Consumer A
  pub sent : List A
  pub received : List A

pub data Step {ℓ} {A : Type ℓ} (s : System A) : System A → Type ℓ where
  load_head :
      (item : A)
      → s.producer ≡ Producer.outside
      → Step s (record s {
        producer = Producer.entered item s.ring.head (next_index s.ring.mask s.ring.head);
      })
  refuse :
      {item : A} {head next : ℕ}
      → s.producer ≡ Producer.entered item head next
      → next ≡ s.ring.tail
      → Step s (record s { producer = Producer.outside })
  admit :
      {item : A} {head next : ℕ}
      → s.producer ≡ Producer.entered item head next
      → next ≢ s.ring.tail
      → Step s (record s { producer = Producer.admitted item head next })
  write_slot :
      {item : A} {head next : ℕ}
      → s.producer ≡ Producer.admitted item head next
      → Step s (record s {
        ring = record (s.ring) { slots = set s.ring.slots head item };
        producer = Producer.stored item head next;
      })
  store_head :
      {item : A} {head next : ℕ}
      → s.producer ≡ Producer.stored item head next
      → Step s (record s {
        ring = record (s.ring) { head = next };
        producer = Producer.outside;
        sent = s.sent ++ item ∷ [];
      })
  load_tail :
      s.consumer ≡ Consumer.outside → Step s (record s { consumer = Consumer.entered s.ring.tail })
  find_empty :
      {tail : ℕ}
      → s.consumer ≡ Consumer.entered tail
      → tail ≡ s.ring.head
      → Step s (record s { consumer = Consumer.outside })
  find_item :
      {tail : ℕ}
      → s.consumer ≡ Consumer.entered tail
      → tail ≢ s.ring.head
      → Step s (record s { consumer = Consumer.admitted tail })
  read_slot :
      {item : A} {tail : ℕ}
      → s.consumer ≡ Consumer.admitted tail
      → get_elem? s.ring.slots tail ≡ some item
      → Step s (record s { consumer = Consumer.copied item tail })
  store_tail :
      {item : A} {tail : ℕ}
      → s.consumer ≡ Consumer.copied item tail
      → Step s (record s {
        ring = record (s.ring) { tail = next_index s.ring.mask tail };
        consumer = Consumer.outside;
        received = s.received ++ item ∷ [];
      })

abbrev pub start {ℓ} : {A : Type ℓ} → A → ℕ → System A
start zeroed k = record {
  ring = make zeroed (2 ^ k);
  producer = Producer.outside;
  consumer = Consumer.outside;
  sent = [];
  received = [];
}

pub data Reach {ℓ} {A : Type ℓ} (zeroed : A) (k : ℕ) : System A → Type ℓ where
  here : Reach zeroed k (start zeroed k)
  later : {s t : System A} → Reach zeroed k s → Step s t → Reach zeroed k t
