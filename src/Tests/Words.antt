-- ===== src/Tests/Words.antt =====
-- Contexts of real sizes, with floats packed into 32 bytes.
use st0x_oracle_server.Wire.{External, Word, Bytes, Address, Quote, rth}
use st0x_oracle_server.Tests.{plain, ok, coin_quote, key}
use st0x_oracle_server.Context.{left_padding_from, build_context_v7, parse_u64}
use st0x_oracle_server.Context.Words.{PacksWords, IsWord, IsSized, WordsOf}
use st0x_oracle_server.Context.Binding.{ParsesExactly, InRange}
use st0x_oracle_server.Base.Decimal.{
  to_string, read_decimal, read_decimal-to_string, read_decimal-replicate,
}
use st0x_oracle_server.Base.{
  arith, Result, replicate, length, ◌≡◌, length-replicate, String, ◌≤◌, ℕ, ◌-◌, if◌then◌else◌,
  length-append, leb, err, List, ◌∷◌, refl, [], some,
}
use st0x_oracle_server.Context.Layout.{Signed}
use st0x_oracle_server.Signer.Preimage.{Same, of_v7, statement, packed-statement}
use st0x_oracle_server.Registry.{ResolvedPair, quote_to_base}
use st0x_oracle_server.Refusal.{AppError}
use st0x_oracle_server.Base.HashMap
use st0x_oracle_server.Registry.{TokenRegistry, resolve}
use st0x_oracle_server.Response.States.{States, candidate-States}
use st0x_oracle_server.Response.Words.{candidate-WordsOf}
use st0x_oracle_server.Session.{tag_bytes32_v3, from_quote}
use st0x_oracle_server.Response.{v7, Candidate, candidate, context_of}
use st0x_oracle_server.Tests.Requests.{world}
use st0x_oracle_server.World.{World, continue}
use st0x_oracle_server.Validity.{
  publish_time_from_quote, expiry_from_quote, effective_expiry_unix_ms,
}
use st0x_oracle_server.Rates.{pick_underlying_rate_bytes}

-- A text in the last bytes of a word, if it is not too long.
abbrev pack : Bytes → Result String Word
pack text = if leb (length text) 32 then ok (left_padding_from text) else err "too long"

abbrev wide : External
wide = record plain {
  float_parse = pack;
  float_from_fixed_decimal = λ n d. ok (replicate 32 n);
  float_inv = pack;
}

left_padding_from_length : (t : Bytes) → length t ≤ 32 → IsWord (left_padding_from t)
unfolding left_padding_from
left_padding_from_length t h = omega (
  arith,
  h,
  length-append (replicate (32 - length t) 0) t,
  length-replicate {A = ℕ} (32 - length t) 0,
)

pack-IsWord : (t : Bytes) (w : Word) → pack t ≡ ok w → IsWord w
pack-IsWord t w h = ground (arith, left_padding_from_length t)

wide-PacksWords : PacksWords wide
wide-PacksWords = record {
  parsed = pack-IsWord;
  from_fixed = λ n d w h. ground (arith, length-replicate {A = ℕ} 32 n);
  inverted = pack-IsWord;
}

read_padded : (t : Bytes) → read_decimal (left_padding_from t) ≡ read_decimal t
unfolding left_padding_from
read_padded t = read_decimal-replicate (32 - length t) t

wide-ParsesExactly : ParsesExactly wide
wide-ParsesExactly m n w hm hn p q = ground (
  arith,
  read_padded (to_string m),
  read_padded (to_string n),
  read_decimal-to_string m (omega (arith, hm)),
  read_decimal-to_string n (omega (arith, hn)),
)

abbrev word : ℕ → Word
word n = replicate 32 n

abbrev address : ℕ → Address
address n = replicate 20 n

abbrev wide_values : Signed
wide_values = record {
  price_bytes = word 4;
  publish_time = 5;
  session_bytes = word 2;
  session_start = 1;
  session_end = 90;
  input_token = address 3;
  output_token = address 4;
  quote_expiry = 9;
}

abbrev wide_context : List Word
wide_context =
    left_padding_from (to_string 7)
    ∷ word 4
    ∷ left_padding_from (to_string 5)
    ∷ word 2
    ∷ left_padding_from (to_string 1)
    ∷ left_padding_from (to_string 90)
    ∷ left_padding_from (address 3)
    ∷ left_padding_from (address 4)
    ∷ left_padding_from (to_string 9)
    ∷ left_padding_from (to_string 1)
    ∷ []

builds_wide : statement wide wide_values (of_v7 1) ≡ ok wide_context
unfolding build_context_v7 parse_u64 to_string
builds_wide = refl

wide-IsSized : IsSized wide_values
wide-IsSized = record {
  price_bytes = refl;
  session_bytes = refl;
  input_token = refl;
  output_token = refl;
}

wide-InRange : InRange wide_values
wide-InRange = record {
  publish_time = omega arith;
  session_start = omega arith;
  session_end = omega arith;
  quote_expiry = omega arith;
  input_token = refl;
  output_token = refl;
}

packed-statement_example : (wide_values ≡ wide_values) × Same wide (of_v7 1) (of_v7 1)
packed-statement_example =
    packed-statement wide wide-PacksWords wide-ParsesExactly wide_values wide_values (of_v7 1)
      (of_v7 1) wide_context wide_context wide-InRange wide-InRange wide-IsSized wide-IsSized
      (omega arith) (omega arith) builds_wide builds_wide refl

abbrev wide_quote : Quote
wide_quote = record coin_quote {
  base = address 1;
  quote = address 2;
  rate_base_to_quote = word 4;
  rate_quote_to_base = word 5;
  underlying_rate_base_to_quote = word 8;
  underlying_rate_quote_to_base = word 9;
}

abbrev wide_pair : ResolvedPair
wide_pair = record { symbol = "COIN"; token = address 1; direction = quote_to_base }

abbrev offered : Result AppError Candidate × World
offered =
    candidate wide key 1 wide_pair (record { quote = wide_quote; generation = 0 }) v7 (address 2)
      (address 1) world

abbrev offered_context : List Word
offered_context =
    left_padding_from (to_string 7)
    ∷ word 9
    ∷ left_padding_from (to_string 5)
    ∷ tag_bytes32_v3 wide rth
    ∷ left_padding_from (to_string 1)
    ∷ left_padding_from (to_string 90)
    ∷ left_padding_from (address 2)
    ∷ left_padding_from (address 1)
    ∷ left_padding_from (to_string 9)
    ∷ left_padding_from (to_string 1)
    ∷ []

offers : offered ≡ (ok (record { context = offered_context; expiry = some 9 }), world)
unfolding candidate continue publish_time_from_quote from_quote pick_underlying_rate_bytes
    expiry_from_quote effective_expiry_unix_ms context_of build_context_v7 parse_u64 to_string
    left_padding_from
offers = refl

candidate-WordsOf_example : WordsOf 10 offered_context
candidate-WordsOf_example =
    candidate-WordsOf wide wide-PacksWords key 1 wide_pair
      (record { quote = wide_quote; generation = 0 }) v7 (address 2) (address 1) refl refl world
      world (record { context = offered_context; expiry = some 9 }) offers

abbrev wide_registry : TokenRegistry
wide_registry = record { tokens = (address 1, "COIN") ∷ []; quote_token = address 2 }

resolves_wide : resolve wide_registry (address 2) (address 1) ≡ ok wide_pair
unfolding resolve HashMap.get
resolves_wide = refl

candidate-States_example :
    States wide key 1 wide_registry
      (address 2)
      (address 1)
      wide_quote
      v7
      (record { context = offered_context; expiry = some 9 })
candidate-States_example =
    candidate-States wide key 1 wide_registry (address 2) (address 1) wide_quote wide_pair
      resolves_wide 0 v7 world world (record { context = offered_context; expiry = some 9 }) offers
