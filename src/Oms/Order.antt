-- ===== src/Oms/Order.antt =====
-- Order records, fixed-width identifiers and the hash of an identifier.
use Prim.Native.Nat.{bit_xor}
use holographic_market.Base.{
  ℕ, zero, suc, ◌-◌, ◌*◌, ◌%◌, ◌^◌, min, Bool, List, [], ◌∷◌, replicate, length, ◌==◌,
  if◌then◌else◌, ◌||◌,
}
use holographic_market.Base.Int.{ℤ, pos}
use holographic_market.Base.Double.{Double, negate}

pub data OrderStatus : Type 0 where
  pending_new open_ partial filled canceled rejected : OrderStatus

abbrev pub status_code : OrderStatus → ℕ
status_code pending_new = 0
status_code open_ = 1
status_code partial = 2
status_code filled = 3
status_code canceled = 4
status_code rejected = 5

-- `==` on the enumeration compares the underlying numbers.
abbrev pub is_status : OrderStatus → OrderStatus → Bool
is_status s t = status_code s == status_code t

abbrev pub is_terminal : OrderStatus → Bool
is_terminal s = is_status s filled || is_status s canceled || is_status s rejected

abbrev pub is_live : OrderStatus → Bool
is_live s = is_status s pending_new || is_status s open_ || is_status s partial

pub data Side : Type 0 where
  buy sell : Side

abbrev pub opposite : Side → Side
opposite buy = sell
opposite sell = buy

abbrev pub signed_dir : {W : Type 0} ⦃d : Double W⦄ → Side → W
signed_dir ⦃d⦄ buy = d.one
signed_dir ⦃d⦄ sell = negate d.one

-- A text is the list of its bytes.
abbrev pub Text : Type 0
Text = List ℕ

-- `memcpy` of the first `n` bytes into a zeroed array of `width` bytes.
unfoldable pub fill_buffer : ℕ → ℕ → Text → List ℕ
fill_buffer zero n sv = []
fill_buffer (suc width) zero sv = replicate (suc width) 0
fill_buffer (suc width) (suc n) [] = replicate (suc width) 0
fill_buffer (suc width) (suc n) (c ∷ sv) = c ∷ fill_buffer width n sv

abbrev pub symbol_width : ℕ
symbol_width = 16

abbrev pub client_id_width : ℕ
client_id_width = 40

unfoldable pub make_symbol : Text → List ℕ
make_symbol sv = fill_buffer symbol_width (min (length sv) (symbol_width - 1)) sv

unfoldable pub make_client_id : Text → List ℕ
make_client_id sv = fill_buffer client_id_width (min (length sv) (client_id_width - 1)) sv

-- `std::string_view(b.data())`: the bytes before the first zero.
unfoldable pub view : List ℕ → Text
view [] = []
view (c ∷ b) = if c == 0 then [] else c ∷ view b

abbrev pub fnv_offset : ℕ
fnv_offset = 1469598103934665603

abbrev pub fnv_prime : ℕ
fnv_prime = 1099511628211

unfoldable pub fnv_from : ℕ → Text → ℕ
fnv_from h [] = h
fnv_from h (c ∷ sv) = fnv_from (bit_xor h c * fnv_prime % 2 ^ 64) sv

unfoldable pub fnv1a64 : Text → ℕ
unfolding fnv_from
fnv1a64 sv = fnv_from fnv_offset sv

pub record OrderRecord (W : Type 0) : Type 0 where
  pub client_order_id : List ℕ
  pub symbol : List ℕ
  pub side : Side
  pub status : OrderStatus
  pub price : W
  pub qty : W
  pub filled_qty : W
  pub avg_fill_price : W
  pub cumulative_commission : W
  pub exchange_order_id : ℤ
  pub created_ns : ℤ
  pub updated_ns : ℤ
  pub created_mono_ns : ℤ

module _ {W : Type 0} ⦃d : Double W⦄ where
  -- `OrderRecord{}`
  abbrev pub blank : OrderRecord W
  blank = record {
    client_order_id = replicate client_id_width 0;
    symbol = replicate symbol_width 0;
    side = buy;
    status = pending_new;
    price = d.nought;
    qty = d.nought;
    filled_qty = d.nought;
    avg_fill_price = d.nought;
    cumulative_commission = d.nought;
    exchange_order_id = pos 0;
    created_ns = pos 0;
    updated_ns = pos 0;
    created_mono_ns = pos 0;
  }

  unfoldable pub remaining_qty : OrderRecord W → W
  remaining_qty r = d.sub r.qty r.filled_qty
