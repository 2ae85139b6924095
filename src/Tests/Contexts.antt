-- ===== src/Tests/Contexts.antt =====
-- Sessions, pairs and contexts.
use st0x_oracle_server.Session.Window.{Signs}
use st0x_oracle_server.Base.Int.{ℤ, pos, negsuc}
use st0x_oracle_server.Base.{ℕ, List, ◌≡◌, ok, true, ◌∷◌, arith, ◌↔◌, refl, replicate, []}
use st0x_oracle_server.Base.HashMap
use st0x_oracle_server.Tests.{plain, coin_quote, token, registry, settlement, session}
use st0x_oracle_server.Session.{from_quote}
use st0x_oracle_server.Registry.{ResolvedPair, resolve, quote_to_base}
use st0x_oracle_server.Validity.{expiry_from_quote, quote_is_live}
use st0x_oracle_server.Wire.{Quote, Address, Word}
use st0x_oracle_server.Validity.Expiry.{
  Binds, Seconds, expiry_from_quote-Seconds, Unexpired, quote_is_live_iff,
}
use st0x_oracle_server.Context.Layout.{Signed, context_v7}
use st0x_oracle_server.Context.{build_context_v7, parse_u64, left_padding_from}
use st0x_oracle_server.Context.Binding.{ParsesExactly, InRange}
use st0x_oracle_server.Base.Decimal.{to_string-injective, to_string}
use st0x_oracle_server.Session.Window.{in_seconds, Signs, from_quote-eq-ok_iff}
use st0x_oracle_server.Registry.Resolve.{Resolves, resolve-eq-ok_iff}

from_quote-eq-ok_iff_example :
    (from_quote coin_quote ≡ ok (in_seconds session))
    ↔ Signs session (pos 5000) (in_seconds session)
from_quote-eq-ok_iff_example = from_quote-eq-ok_iff coin_quote session (in_seconds session) refl

abbrev coin_pair : ResolvedPair
coin_pair = record { symbol = "COIN"; token = token; direction = quote_to_base }

resolve-eq-ok_iff_example :
    (resolve registry settlement token ≡ ok coin_pair)
    ↔ Resolves registry settlement token coin_pair
resolve-eq-ok_iff_example = resolve-eq-ok_iff registry settlement token coin_pair

resolves_coin : resolve registry settlement token ≡ ok coin_pair
unfolding resolve HashMap.get
resolves_coin = refl

abbrev old_quote : Quote
old_quote = record coin_quote { expiry_unix_ms = negsuc 499 }

-- Half a second before 1970 is signed as 0.
rounds_up : expiry_from_quote old_quote ≡ ok 0
unfolding expiry_from_quote
rounds_up = refl

expiry_from_quote-Seconds_example : (e : ℤ) × Binds old_quote e × Seconds 0 e
expiry_from_quote-Seconds_example = expiry_from_quote-Seconds old_quote 0 rounds_up

quote_is_live_iff_example :
    (quote_is_live (pos 9500) (pos 9400) true ≡ true) ↔ Unexpired (pos 9500) (pos 9400) true
quote_is_live_iff_example = quote_is_live_iff (pos 9500) (pos 9400) true

abbrev long_address : ℕ → Address
long_address n = replicate 20 n

abbrev values : Signed
values = record {
  price_bytes = 1 ∷ [];
  publish_time = 5;
  session_bytes = 2 ∷ [];
  session_start = 1;
  session_end = 90;
  input_token = long_address 3;
  output_token = long_address 4;
  quote_expiry = 9;
}

abbrev v7_context : List Word
v7_context =
    to_string 7
    ∷ (1 ∷ [])
    ∷ to_string 5
    ∷ (2 ∷ [])
    ∷ to_string 1
    ∷ to_string 90
    ∷ left_padding_from (long_address 3)
    ∷ left_padding_from (long_address 4)
    ∷ to_string 9
    ∷ to_string 1
    ∷ []

builds_v7 : context_v7 plain values 1 ≡ ok v7_context
unfolding build_context_v7 parse_u64
builds_v7 = refl

plain-ParsesExactly : ParsesExactly plain
plain-ParsesExactly m n w hm hn p q =
    to_string-injective m n (omega (arith, hm)) (omega (arith, hn)) (ground arith)

values-InRange : InRange values
values-InRange = record {
  publish_time = omega arith;
  session_start = omega arith;
  session_end = omega arith;
  quote_expiry = omega arith;
  input_token = refl;
  output_token = refl;
}

abbrev chain : ℕ
chain = 1
