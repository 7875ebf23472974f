-- ===== src/Ring/Holds.antt =====
-- When a ring of capacity `2 ^ k` holds a queue of items, and what the writes of its calls do to that.
use native.Mathlib.Nat.{mod-lt}
use holographic_market.Base.{
  ℕ, suc, ◌+◌, ◌-◌, ◌%◌, ◌^◌, ◌<◌, ◌≡◌, ◌≢◌, sym, ap, ◌∙◌, List, [], ◌∷◌, ◌++◌, some, arith, length,
  get_elem?, set, length-set, length-append, get_elem?-set_self, get_elem?-set_ne,
  get_elem?-append_left, get_elem?-append_last, dec_lt,
}
use holographic_market.Base.Bits.{one-le-pow}
use holographic_market.Ring.{Ring, next_index}
use holographic_market.Ring.Index.{next_index_mod, mod_apart_between}

-- The ring of capacity `2 ^ k` holds the items `q`, oldest first; `p` items were taken before them.
pub record Holds {ℓ} {A : Type ℓ} (k p : ℕ) (r : Ring A) (q : List A) : Type ℓ where
  pub small : 2 ^ k < 2 ^ 64
  pub masked : r.mask ≡ 2 ^ k - 1
  pub sized : r.capacity ≡ 2 ^ k
  pub storage : length r.slots ≡ 2 ^ k
  pub head_at : r.head ≡ (p + length q) % 2 ^ k
  pub tail_at : r.tail ≡ p % 2 ^ k
  pub room : length q < 2 ^ k
  pub items : (i : ℕ) → i < length q → get_elem? r.slots ((p + i) % 2 ^ k) ≡ get_elem? q i

module _ {ℓ} {A : Type ℓ} {k p : ℕ} {r : Ring A} where
  pub head_next :
      {q : List A} → Holds k p r q → next_index r.mask r.head ≡ (p + length q + 1) % 2 ^ k
  head_next {q} h =
      ap (λ m. next_index m r.head) h.masked
      ∙ ap (next_index (2 ^ k - 1)) h.head_at
      ∙ next_index_mod k (p + length q) h.small

  pub tail_next : {q : List A} → Holds k p r q → next_index r.mask r.tail ≡ (p + 1) % 2 ^ k
  tail_next h =
      ap (λ m. next_index m r.tail) h.masked
      ∙ ap (next_index (2 ^ k - 1)) h.tail_at
      ∙ next_index_mod k p h.small

  -- The slot at the head holds none of the items.
  pub stored :
      {q : List A} (x : A)
      → Holds k p r q
      → Holds k p (record r { slots = set r.slots r.head x }) q
        × (get_elem? (set r.slots r.head x) r.head ≡ some x)
  stored {q} x h = (
    record {
      small = h.small;
      masked = h.masked;
      sized = h.sized;
      storage = length-set r.slots r.head x ∙ h.storage;
      head_at = h.head_at;
      tail_at = h.tail_at;
      room = h.room;
      items = λ i lt.
          get_elem?-set_ne r.slots r.head ((p + i) % 2 ^ k) x (λ e. apart i lt (sym h.head_at ∙ e))
          ∙ h.items i lt;
    },
    get_elem?-set_self r.slots r.head x (omega (arith, h.head_at, h.storage, in_range)),
  )
    where
      apart : (i : ℕ) → i < length q → (p + length q) % 2 ^ k ≢ (p + i) % 2 ^ k
      apart i lt = mod_apart_between (2 ^ k) p i (length q) lt h.room

      in_range : (p + length q) % 2 ^ k < 2 ^ k
      in_range = mod-lt (p + length q) {m = 2 ^ k} (one-le-pow k)

  -- An item that stands at the head is in the queue once the head is moved on.
  pub published :
      {q : List A} (x : A)
      → Holds k p r q
      → get_elem? r.slots r.head ≡ some x
      → length q + 1 < 2 ^ k
      → Holds k p (record r { head = next_index r.mask r.head }) (q ++ x ∷ [])
  published {q} x h at lt = record {
    small = h.small;
    masked = h.masked;
    sized = h.sized;
    storage = h.storage;
    head_at = head_next h ∙ ap (λ (t : ℕ). t % 2 ^ k) (omega (arith, length-append q (x ∷ [])));
    tail_at = h.tail_at;
    room = omega (arith, length-append q (x ∷ []));
    items = λ i lt'. elim (dec_lt i (length q)) [
      | yes old ↦ h.items i old ∙ sym (get_elem?-append_left q (x ∷ []) i old)
      | no new ↦ newest i (omega (arith, length-append q (x ∷ [])))
    ];
  }
    where
      newest :
          (i : ℕ) → i ≡ length q → get_elem? r.slots ((p + i) % 2 ^ k) ≡ get_elem? (q ++ x ∷ []) i
      newest i e = rw e (rw (← h.head_at, get_elem?-append_last q x) at)

  -- The oldest item stands at the tail, and leaves the queue once the tail is moved on.
  pub oldest : {q : List A} {x : A} → Holds k p r (x ∷ q) → get_elem? r.slots r.tail ≡ some x
  oldest h =
      ap (get_elem? r.slots) (h.tail_at ∙ ap (λ (t : ℕ). t % 2 ^ k) (omega arith))
      ∙ h.items 0 (omega arith)

  pub read_oldest :
      {q : List A} → Holds k p r q → 0 < length q → get_elem? r.slots r.tail ≡ get_elem? q 0
  read_oldest {q} h pos =
      ap (get_elem? r.slots) (h.tail_at ∙ ap (λ (t : ℕ). t % 2 ^ k) start) ∙ h.items 0 pos
    where
      start : p ≡ p + 0
      start = omega arith

  pub taken :
      {q : List A} {x : A}
      → Holds k p r (x ∷ q)
      → Holds k (p + 1) (record r { tail = next_index r.mask r.tail }) q
  taken {q} {x} h = record {
    small = h.small;
    masked = h.masked;
    sized = h.sized;
    storage = h.storage;
    head_at = h.head_at ∙ ap (λ (t : ℕ). t % 2 ^ k) (omega arith);
    tail_at = tail_next h;
    room = omega (arith, h.room);
    items = λ i lt.
        ap (λ (t : ℕ). get_elem? r.slots (t % 2 ^ k)) (omega arith) ∙ h.items (suc i) (omega arith);
  }
