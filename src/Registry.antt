-- ===== src/Registry.antt =====
-- src/registry.rs: token addresses to pricing symbols, and the pair that a request names.
pub mod Resolve
use st0x_oracle_server.Base.{
  ℕ, ◌≡◌, String, Bool, List, [], ◌∷◌, Option, none, some, Result, ok, err, ok_or, map_err, ◌==◌,
  if◌then◌else◌, bytes_eq, map,
}
use st0x_oracle_server.Base.Errors.{◌>>=◌}
use st0x_oracle_server.Base.HashMap
use st0x_oracle_server.Wire.{Bytes, Address}
use st0x_oracle_server.Config.{TokenEntry}

pub record TokenRegistry : Type 0 where
  pub tokens : List (Address × String)
  pub quote_token : Address

pub data PriceDirection : Type 0 where
  quote_to_base base_to_quote : PriceDirection

unfoldable pub as_str : PriceDirection → String
as_str quote_to_base = "quote_to_base"
as_str base_to_quote = "base_to_quote"

pub record ResolvedPair : Type 0 where
  pub symbol : String
  pub token : Address
  pub direction : PriceDirection

pub data RegistryError : Type 0 where
  invalid_quote_token : (why : String) → RegistryError
  invalid_token_address : (address why : String) → RegistryError
  unknown_token : Address → RegistryError
  neither_is_quote_token : (quote input output : Address) → RegistryError

-- `Address::from_str` is not in the repository.
module _ (from_str : String → Result String Address) where
  abbrev pub address : (String → RegistryError) → String → Result RegistryError Address
  address fault text = map_err fault (from_str text)

  abbrev pub insert_all :
      List (String × String)
      → List (Address × String)
      → Result RegistryError (List (Address × String))
  insert_all [] tokens = ok tokens
  insert_all ((text, symbol) ∷ entries) tokens = do
    addr ← address (invalid_token_address text) text
    insert_all entries (HashMap.insert addr symbol tokens)

  unfoldable pub new : List (String × String) → String → Result RegistryError TokenRegistry
  new entries quote_token = do
    quote ← address invalid_quote_token quote_token
    tokens ← insert_all entries []
    ok (record { tokens = tokens; quote_token = quote })

  unfoldable pub from_config : List TokenEntry → String → Result RegistryError TokenRegistry
  unfolding new
  from_config entries quote_token =
      new (map (λ (t : TokenEntry). (t.address, t.symbol)) entries) quote_token

-- The pair of a registered token; both cases of `resolve` end in it.
registered : TokenRegistry → Address → PriceDirection → Result RegistryError ResolvedPair
registered r token direction = do
  symbol ← ok_or (HashMap.get token r.tokens) (unknown_token token)
  ok (record { symbol = symbol; token = token; direction = direction })

unfoldable pub resolve : TokenRegistry → Address → Address → Result RegistryError ResolvedPair
unfolding registered
resolve r input output =
    if input == r.quote_token
    then registered r output quote_to_base
    else if output == r.quote_token
    then registered r input base_to_quote
    else err (neither_is_quote_token r.quote_token input output)
