-- ===== src/Feed/Rest.antt =====
-- The texts around a REST call: the listen key in a response, the query that is signed, and the
-- digits of a signature. The digest itself is a parameter.
use holographic_market.Base.{
  ℕ, ◌+◌, ◌-◌, ◌*◌, ◌/◌, ◌%◌, ◌<◌, ◌≡◌, ◌≢◌, refl, ap, List, [], ◌∷◌, ◌++◌, Option, none, some,
  arith, ltb, ◌==◌, if◌then◌else◌, ==_ne,
}
use holographic_market.Base.Bytes.{codes, ◌>>=◌}
use holographic_market.Oms.Order.{Text}
use holographic_market.Engine.Orders.{to_string}

-- The rest of a text that begins with the mark.
abbrev pub strip_prefix : Text → Text → Option Text
strip_prefix [] s = some s
strip_prefix (m ∷ mark) [] = none
strip_prefix (m ∷ mark) (c ∷ s) = if m == c then strip_prefix mark s else none

-- `find`, then the text from behind the mark.
unfoldable pub after_mark : Text → Text → Option Text
after_mark mark [] = strip_prefix mark []
after_mark mark (c ∷ s) = elim (strip_prefix mark (c ∷ s)) [
  | some r ↦ some r
  | none ↦ after_mark mark s
]

-- `substr(pos, find("\"", pos) - pos)`: all of the text when there is no quote.
unfoldable pub until_quote : Text → Text
until_quote [] = []
until_quote (c ∷ s) = if c == 34 then [] else c ∷ until_quote s

-- `"listenKey":"`
abbrev pub key_mark : Text
key_mark = 34 ∷ codes "listenKey" ++ 34 ∷ 58 ∷ 34 ∷ []

-- `none` is the exception.
unfoldable pub fetch_fresh_listen_key : Text → Option Text
unfolding after_mark until_quote
fetch_fresh_listen_key body = do rest ← after_mark key_mark body; some (until_quote rest)

abbrev pub hex_digit : ℕ → ℕ
hex_digit n = if ltb n 10 then 48 + n else 87 + n

unfoldable pub to_hex : List ℕ → Text
to_hex [] = []
to_hex (b ∷ digest) = hex_digit (b / 16 % 16) ∷ hex_digit (b % 16) ∷ to_hex digest

-- `query.empty() ? "" : "&"`, behind the query.
abbrev joined : Text → Text
joined [] = []
joined (c ∷ query) = c ∷ query ++ codes "&"

-- The query that `rest_get_signed` sends.
unfoldable pub signed_query : (Text → Text → List ℕ) → Text → Text → ℕ → Text
unfolding to_hex
signed_query hmac secret query ts =
    let stamped = joined query ++ codes "timestamp=" ++ to_string ts in
    stamped ++ codes "&signature=" ++ to_hex (hmac secret stamped)

abbrev pub Unquoted : Text → Type 0
Unquoted [] = Unit {0}
Unquoted (c ∷ s) = (c ≢ 34) × Unquoted s

until_quote-append : (key rest : Text) → Unquoted key → until_quote (key ++ 34 ∷ rest) ≡ key
unfolding until_quote
until_quote-append [] rest ok = refl
until_quote-append (c ∷ key) rest ok = rw (==_ne c 34 ok.0, until_quote-append key rest ok.1) refl

-- The key of the venue's response is found, whatever follows it, when it holds no quote.
listen_key_roundtrip :
    (key rest : Text)
    → Unquoted key
    → fetch_fresh_listen_key (codes "{" ++ key_mark ++ key ++ 34 ∷ rest) ≡ some key
unfolding fetch_fresh_listen_key after_mark
listen_key_roundtrip key rest ok = ap some (until_quote-append key rest ok)

-- The number that a digit of a signature stands for.
abbrev pub digit_value : ℕ → ℕ
digit_value c = if ltb c 97 then c - 48 else c - 87

abbrev pub from_hex : Text → List ℕ
from_hex (a ∷ b ∷ s) = (digit_value a * 16 + digit_value b) ∷ from_hex s
from_hex _ = []

abbrev pub AllBytes : List ℕ → Type 0
AllBytes [] = Unit {0}
AllBytes (b ∷ s) = (b < 256) × AllBytes s

digit_value-hex : (n : ℕ) → n < 16 → digit_value (hex_digit n) ≡ n
digit_value-hex n h = ground arith

byte-hex :
    (b : ℕ)
    → b < 256
    → digit_value (hex_digit (b / 16 % 16)) * 16 + digit_value (hex_digit (b % 16)) ≡ b
byte-hex b h =
    rw (digit_value-hex (b / 16 % 16) (omega arith), digit_value-hex (b % 16) (omega arith))
      (omega arith)

-- The digits of a signature determine its bytes.
pub from_hex-to_hex : (digest : List ℕ) → AllBytes digest → from_hex (to_hex digest) ≡ digest
unfolding to_hex
from_hex-to_hex [] ok = refl
from_hex-to_hex (b ∷ digest) ok = rw (byte-hex b ok.0, from_hex-to_hex digest ok.1) refl
