-- ===== src/Ring/Threads/Steps.antt =====
-- Every step of either thread keeps the invariant.
use holographic_market.Base.{
  ℕ, ◌+◌, ◌^◌, ◌<◌, ◌≡◌, refl, sym, ap, ◌∙◌, subst, List, [], ◌∷◌, ◌++◌, arith, length, get_elem?,
  set, length-append,
}
use mathlib.Core.Option.{some-injective}
use mathlib.Core.List.{append_assoc}
use holographic_market.Ring.{next_index, empty}
use holographic_market.Ring.Holds.{Holds, stored, published, read_oldest, taken}
use holographic_market.Ring.Calls.{make-Holds, room_of_ne, pos_of_ne}
use holographic_market.Ring.Threads.{Producer, Consumer, System, Step, Reach}
use holographic_market.Ring.Threads.Inv.{Inv, Produces, Staged, Consumes, Copied, grow, shrink}

module _ {ℓ} {A : Type ℓ} {k : ℕ} (s : System A) (v : Inv k s) where
  open v use {pending, held, fifo, produces, staged, consumes, copied}

  write-Inv :
      {item : A} {head next : ℕ}
      → s.producer ≡ Producer.admitted item head next
      → Inv k (record s {
        ring = record (s.ring) { slots = set s.ring.slots head item };
        producer = Producer.stored item head next;
      })
  write-Inv {item} {head} {next} e =
      let known : Produces k s.ring (length pending) (Producer.admitted item head next) =
        subst (Produces k s.ring (length pending)) e produces in
      let (held', at) = stored item held in
      rw known.0 (record {
        pending = pending;
        held = held';
        fifo = fifo;
        produces = (refl, known.1, known.2);
        staged = at;
        consumes = consumes;
        copied = copied;
      })

  publish-Inv :
      {item : A} {head next : ℕ}
      → s.producer ≡ Producer.stored item head next
      → Inv k (record s {
        ring = record (s.ring) { head = next };
        producer = Producer.outside;
        sent = s.sent ++ item ∷ [];
      })
  publish-Inv {item} {head} {next} e =
      let known : Produces k s.ring (length pending) (Producer.stored item head next) =
        subst (Produces k s.ring (length pending)) e produces in
      let at : Staged s.ring (Producer.stored item head next) = subst (Staged s.ring) e staged in
      let (room, same) = grow s.ring pending item next s.consumer consumes copied in
      record {
        pending = pending ++ item ∷ [];
        held = rw known.1 (published item held at known.2);
        fifo = ap (λ (l : List A). l ++ item ∷ []) fifo ∙ append_assoc s.received pending _;
        produces = tt;
        staged = tt;
        consumes = room;
        copied = same;
      }

-- The item that the consumer hands over is the oldest one in the ring.
take-Inv {ℓ} :
    {A : Type ℓ} {k : ℕ} (s : System A) (q : List A) {item : A} {tail : ℕ}
    → Holds k (length s.received) s.ring q
    → s.sent ≡ s.received ++ q
    → Produces k s.ring (length q) s.producer
    → Staged s.ring s.producer
    → Consumes s.ring (length q) (Consumer.copied item tail)
    → Copied q (Consumer.copied item tail)
    → Inv k (record s {
      ring = record (s.ring) { tail = next_index s.ring.mask tail };
      consumer = Consumer.outside;
      received = s.received ++ item ∷ [];
    })
take-Inv s [] held fifo produces staged consumes copied = absurd (omega (arith, consumes.1))
take-Inv {A} {k} s (x ∷ q) {item} {tail} held fifo produces staged consumes copied =
    let (room, same) =
      shrink k s.ring (length q) (next_index s.ring.mask tail) s.producer produces staged in
    record {
      pending = q;
      held = rw (consumes.0, count) (taken held);
      fifo =
          fifo
          ∙ ap (λ y. s.received ++ y ∷ q) (some-injective _ _ copied)
          ∙ sym (append_assoc s.received (item ∷ []) q);
      produces = room;
      staged = same;
      consumes = tt;
      copied = tt;
    }
  where
    count : length (s.received ++ item ∷ []) ≡ length s.received + 1
    count = omega (arith, length-append s.received (item ∷ []))

-- Every step of either thread keeps the invariant.
pub Step-Inv {ℓ} : {A : Type ℓ} {k : ℕ} {s t : System A} → Step s t → Inv k s → Inv k t
Step-Inv (Step.load_head item e) v = record {
  pending = v.pending;
  held = v.held;
  fifo = v.fifo;
  produces = (refl, refl);
  staged = tt;
  consumes = v.consumes;
  copied = v.copied;
}
Step-Inv (Step.refuse e full) v = record {
  pending = v.pending;
  held = v.held;
  fifo = v.fifo;
  produces = tt;
  staged = tt;
  consumes = v.consumes;
  copied = v.copied;
}
Step-Inv {k} {s} (Step.admit {item} {head} {next} e ne) v =
    let known : Produces k s.ring (length v.pending) (Producer.entered item head next) =
      subst (Produces k s.ring (length v.pending)) e v.produces in
    record {
      pending = v.pending;
      held = v.held;
      fifo = v.fifo;
      produces = (known.0, known.1, room_of_ne v.held (λ f. ne (known.1 ∙ f)));
      staged = tt;
      consumes = v.consumes;
      copied = v.copied;
    }
Step-Inv {s} (Step.write_slot e) v = write-Inv s v e
Step-Inv {s} (Step.store_head e) v = publish-Inv s v e
Step-Inv (Step.load_tail e) v = record {
  pending = v.pending;
  held = v.held;
  fifo = v.fifo;
  produces = v.produces;
  staged = v.staged;
  consumes = refl;
  copied = tt;
}
Step-Inv (Step.find_empty e empty) v = record {
  pending = v.pending;
  held = v.held;
  fifo = v.fifo;
  produces = v.produces;
  staged = v.staged;
  consumes = tt;
  copied = tt;
}
Step-Inv {s} (Step.find_item {tail} e ne) v =
    let known : Consumes s.ring (length v.pending) (Consumer.entered tail) =
      subst (Consumes s.ring (length v.pending)) e v.consumes in
    record {
      pending = v.pending;
      held = v.held;
      fifo = v.fifo;
      produces = v.produces;
      staged = v.staged;
      consumes = (known, pos_of_ne v.held (λ f. ne (known ∙ f)));
      copied = tt;
    }
Step-Inv {s} (Step.read_slot {item} {tail} e at) v =
    let known : Consumes s.ring (length v.pending) (Consumer.admitted tail) =
      subst (Consumes s.ring (length v.pending)) e v.consumes in
    record {
      pending = v.pending;
      held = v.held;
      fifo = v.fifo;
      produces = v.produces;
      staged = v.staged;
      consumes = known;
      copied = sym (read_oldest v.held known.1) ∙ ap (get_elem? s.ring.slots) (sym known.0) ∙ at;
    }
Step-Inv {s} (Step.store_tail {item} {tail} e) v =
    take-Inv s v.pending v.held v.fifo v.produces v.staged
      (subst (Consumes s.ring (length v.pending)) e v.consumes)
      (subst (Copied v.pending) e v.copied)

pub Reach-Inv {ℓ} :
    {A : Type ℓ} {zeroed : A} {k : ℕ} {s : System A} → 2 ^ k < 2 ^ 64 → Reach zeroed k s → Inv k s
Reach-Inv {zeroed} {k} small Reach.here = record {
  pending = [];
  held = make-Holds zeroed k small;
  fifo = refl;
  produces = tt;
  staged = tt;
  consumes = tt;
  copied = tt;
}
Reach-Inv small (Reach.later r st) = Step-Inv st (Reach-Inv small r)
