-- ===== src/Config.antt =====
-- src/config.rs: the configuration and its validation.
pub mod Validated
pub mod Load
use st0x_oracle_server.Base.Errors.{◌>>=◌, ◌>>◌}
use st0x_oracle_server.Base.Text.{trim}
use st0x_oracle_server.Base.{
  String, ℕ, Bool, List, Option, all, is_empty, Result, map, ◌==◌, codes, if◌then◌else◌, map_err,
  ok, true, take, err, ◌∷◌, [], nat_eq, contains, ◌&&◌, bytes_eq,
}
use st0x_oracle_server.Wire.{Address}

pub record TokenEntry : Type 0 where
  pub address : String
  pub symbol : String

pub record PricingConfig : Type 0 where
  pub ws_url : String
  pub consumer : String

pub record SigningConfig : Type 0 where
  pub reuse_min_remaining_secs : ℕ

-- `[registry]`, declared in src/token_file.rs.
pub record RegistrySource : Type 0 where
  pub url : String
  pub refresh_secs : ℕ

pub record Config : Type 0 where
  pub port : ℕ
  pub chain_id : ℕ
  pub quote_token : String
  pub tokens : List TokenEntry
  pub registry : Option RegistrySource
  pub pricing : PricingConfig
  pub signing : SigningConfig

abbrev pub usdc_base : String
usdc_base = "0x833589fCD6eDb6E08f4c7C32D4f71b54bdA02913"

pub data ConfigError : Type 0 where
  no_tokens : ConfigError
  bad_quote_token : (text why : String) → ConfigError
  placeholder_quote_token : (text : String) → ConfigError
  bad_token_address : (text why : String) → ConfigError
  empty_symbol : (address : String) → ConfigError
  placeholder_address : (address symbol : String) → ConfigError
  token_is_quote_token : (address symbol : String) → ConfigError
  duplicate_token_address : (address : String) → ConfigError
  ws_url_unset : ConfigError
  consumer_unset : ConfigError
  rows_not_merged : ConfigError
  rows_inline : ConfigError
  malformed : (why : String) → ConfigError

-- The bottom 2^16 of the address space.
unfoldable pub is_placeholder_address : Address → Bool
is_placeholder_address addr = all (λ b. b == 0) (take 18 addr)

abbrev pub is_blank : String → Bool
is_blank s = is_empty (trim (codes s))

abbrev refuse_if : Bool → ConfigError → Result ConfigError (Unit {0})
refuse_if b e = if b then err e else ok tt

-- `Address::from_str` is not in the repository.
module _ (from_str : String → Result String Address) where
  -- One round of the loop over the rows; `seen` are the addresses of the rows before.
  unfoldable pub check_entry :
      Address → List Address → TokenEntry → Result ConfigError (List Address)
  check_entry quote seen t = do
    addr ← map_err (bad_token_address t.address) (from_str t.address)
    refuse_if (is_blank t.symbol) (empty_symbol t.address)
    refuse_if (is_placeholder_address addr) (placeholder_address t.address t.symbol)
    refuse_if (addr == quote) (token_is_quote_token t.address t.symbol)
    refuse_if (contains addr seen) (duplicate_token_address t.address)
    ok (addr ∷ seen)

  unfoldable pub check_entries :
      Address → List Address → List TokenEntry → Result ConfigError (List Address)
  check_entries quote seen [] = ok seen
  check_entries quote seen (t ∷ ts) = do
    seen' ← check_entry quote seen t
    check_entries quote seen' ts

  unfoldable pub validate_inner : Bool → Config → Result ConfigError (Unit {0})
  validate_inner require_tokens cfg = do
    refuse_if (require_tokens && is_empty cfg.tokens) no_tokens
    quote ← map_err (bad_quote_token cfg.quote_token) (from_str cfg.quote_token)
    refuse_if (is_placeholder_address quote) (placeholder_quote_token cfg.quote_token)
    seen ← check_entries quote [] cfg.tokens
    refuse_if (is_blank cfg.pricing.ws_url) ws_url_unset
    refuse_if (is_blank cfg.pricing.consumer) consumer_unset
    ok tt

  abbrev pub validate : Config → Result ConfigError (Unit {0})
  validate cfg = validate_inner true cfg

abbrev pub pair_of : TokenEntry → String × String
pair_of t = (t.address, t.symbol)

abbrev pub token_pairs : Config → List (String × String)
token_pairs cfg = map pair_of cfg.tokens

abbrev pub symbols : Config → List String
symbols cfg = map (λ (t : TokenEntry). t.symbol) cfg.tokens
