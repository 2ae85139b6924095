-- ===== src/Tests.antt =====
-- Concrete quotes, feeds and requests, and the theorems at them.
pub mod Feeds
pub mod Signing
pub mod Contexts
pub mod Requests
pub mod Routes
pub mod Files
pub mod Reloads
pub mod Sources
pub mod Parts
pub mod Words
pub mod Withdrawn
use st0x_oracle_server.Pricing.{empty, Key}
use st0x_oracle_server.Pricing.Events.{run, Event, arrives}
use mathlib.Core.Option.{none}
use st0x_oracle_server.Base.Int.{pos}
use st0x_oracle_server.Wire.{Address, QuoteSession, Quote, External, Word, rth, price}
use st0x_oracle_server.Registry.{TokenRegistry}
use st0x_oracle_server.Pricing.{Feed, QuoteSnapshot, insert_quote}
use st0x_oracle_server.Base.{◌∷◌, ℕ, [], some, arith, ok, false, ◌<◌, List}
use st0x_oracle_server.Signer.{Attempt, signed}

abbrev pub token : Address
token = 1 ∷ 17 ∷ []

abbrev pub settlement : Address
settlement = 2 ∷ []

abbrev pub session : QuoteSession
session = record { tag = rth; start_unix_ms = pos 1000; end_unix_ms = pos 90000 }

-- A quote read at second 5; its deadline, at 9.5 s, comes before its expiry.
abbrev pub coin_quote : Quote
coin_quote = record {
  asset = "COIN";
  chain_id = 1;
  base = token;
  quote = settlement;
  rate_base_to_quote = 4 ∷ [];
  rate_quote_to_base = 5 ∷ [];
  expiry_unix_ms = pos 12000;
  execution_deadline_unix_ms = some (pos 9500);
  source_ts_unix_ms = pos 5000;
  nav_ratio = 7 ∷ [];
  underlying_rate_base_to_quote = 8 ∷ [];
  underlying_rate_quote_to_base = 9 ∷ [];
  session = some session;
}

pub name_is_short : 1 < 32
name_is_short = omega arith

-- Floats as their own texts, hashes as what is hashed.
abbrev pub plain : External
plain = record {
  tag_name = λ t. 114 ∷ [];
  tag_name-short = λ t. name_is_short;
  float_parse = λ b. ok b;
  float_from_fixed_decimal = λ n d. ok (n ∷ []);
  float_inv = λ r. ok r;
  float_is_zero = λ r. ok false;
  keccak256 = λ b. b;
  signer_address = 3 ∷ [];
}

-- A key that signs a hash by itself, at every call.
abbrev pub key : Word → ℕ → Attempt
key hash n = signed hash

abbrev pub registry : TokenRegistry
registry = record { tokens = (token, "COIN") ∷ []; quote_token = settlement }

abbrev pub frames : List Event
frames = arrives none (price coin_quote) ∷ []

abbrev pub feed : Feed
feed = run empty frames

abbrev pub coin : Key
coin = (1, "COIN")

abbrev pub coin_snapshot : QuoteSnapshot
coin_snapshot = record { quote = coin_quote; generation = 0 }
