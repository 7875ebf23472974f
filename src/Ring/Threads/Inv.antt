-- ===== src/Ring/Threads/Inv.antt =====
-- What holds between any two steps of the two threads.
use holographic_market.Base.{
  ℕ, suc, ◌+◌, ◌^◌, ◌<◌, ◌≡◌, List, [], ◌∷◌, ◌++◌, some, arith, length, get_elem?, length-append,
}
use holographic_market.Ring.{Ring, next_index}
use holographic_market.Ring.Holds.{Holds}
use holographic_market.Ring.Threads.{Producer, Consumer, System}

-- What the producer knows where it stands; `n` items are in the ring.
abbrev pub Produces {ℓ} : {A : Type ℓ} → ℕ → Ring A → ℕ → Producer A → Type 0
Produces k r n Producer.outside = Unit {0}
Produces k r n (Producer.entered item head next) =
    (head ≡ r.head) × (next ≡ next_index r.mask r.head)
Produces k r n (Producer.admitted item head next) =
    (head ≡ r.head) × (next ≡ next_index r.mask r.head) × (n + 1 < 2 ^ k)
Produces k r n (Producer.stored item head next) =
    (head ≡ r.head) × (next ≡ next_index r.mask r.head) × (n + 1 < 2 ^ k)

-- The item that the producer has stored and not handed over stands at the head.
abbrev pub Staged {ℓ} : {A : Type ℓ} → Ring A → Producer A → Type ℓ
Staged r Producer.outside = Unit {ℓ}
Staged r (Producer.entered item head next) = Unit {ℓ}
Staged r (Producer.admitted item head next) = Unit {ℓ}
Staged r (Producer.stored item head next) = get_elem? r.slots r.head ≡ some item

abbrev pub Consumes {ℓ} : {A : Type ℓ} → Ring A → ℕ → Consumer A → Type 0
Consumes r n Consumer.outside = Unit {0}
Consumes r n (Consumer.entered tail) = tail ≡ r.tail
Consumes r n (Consumer.admitted tail) = (tail ≡ r.tail) × (0 < n)
Consumes r n (Consumer.copied item tail) = (tail ≡ r.tail) × (0 < n)

-- The item that the consumer has copied is the oldest one.
abbrev pub Copied {ℓ} : {A : Type ℓ} → List A → Consumer A → Type ℓ
Copied q Consumer.outside = Unit {ℓ}
Copied q (Consumer.entered tail) = Unit {ℓ}
Copied q (Consumer.admitted tail) = Unit {ℓ}
Copied q (Consumer.copied item tail) = get_elem? q 0 ≡ some item

-- The items handed over are those received and, in order, those in the ring.
pub record Inv {ℓ} {A : Type ℓ} (k : ℕ) (s : System A) : Type ℓ where
  pub pending : List A
  pub held : Holds k (length s.received) s.ring pending
  pub fifo : s.sent ≡ s.received ++ pending
  pub produces : Produces k s.ring (length pending) s.producer
  pub staged : Staged s.ring s.producer
  pub consumes : Consumes s.ring (length pending) s.consumer
  pub copied : Copied pending s.consumer

-- Moving the head on adds to what the consumer may take.
pub grow {ℓ} :
    {A : Type ℓ} (r : Ring A) (q : List A) (x : A) (h : ℕ) (c : Consumer A)
    → Consumes r (length q) c
    → Copied q c
    → Consumes (record r { head = h }) (length (q ++ x ∷ [])) c × Copied (q ++ x ∷ []) c
grow r q x h Consumer.outside a b = (tt, tt)
grow r q x h (Consumer.entered tail) a b = (a, tt)
grow r q x h (Consumer.admitted tail) a b = ((a.0, omega (arith, length-append q (x ∷ []))), tt)
grow r (y ∷ q) x h (Consumer.copied item tail) a b = ((a.0, omega arith), b)
grow r [] x h (Consumer.copied item tail) a b = absurd (omega (arith, a.1))

-- Moving the tail on leaves the producer its room, and the head's slot as it is.
pub shrink {ℓ} :
    {A : Type ℓ} (k : ℕ) (r : Ring A) (n t : ℕ) (p : Producer A)
    → Produces k r (suc n) p
    → Staged r p
    → Produces k (record r { tail = t }) n p × Staged (record r { tail = t }) p
shrink k r n t Producer.outside a b = (tt, tt)
shrink k r n t (Producer.entered item head next) a b = (a, tt)
shrink k r n t (Producer.admitted item head next) a b = ((a.0, a.1, omega arith), tt)
shrink k r n t (Producer.stored item head next) a b = ((a.0, a.1, omega arith), b)
