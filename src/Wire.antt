-- ===== src/Wire.antt =====
-- The shapes that the server reads from the crate `st0x_pricing_types` and the operations that it
-- calls in crates whose code the repository does not hold: Rain floats, hashing, signing. The
-- operations are fields of a record, with the documented facts that the server relies on.
use st0x_oracle_server.Base.{ℕ, ◌<◌, String, List, Bool, Option, Result, length}
use st0x_oracle_server.Base.Int.{ℤ}

-- Bytes as numbers below 256. An address has 20 of them, a word 32.
abbrev pub Bytes : Type 0
Bytes = List ℕ

abbrev pub Address : Type 0
Address = Bytes

abbrev pub Word : Type 0
Word = Bytes

pub data SessionTag : Type 0 where
  premarket rth afterhours closed : SessionTag

pub record QuoteSession : Type 0 where
  pub tag : SessionTag
  pub start_unix_ms : ℤ
  pub end_unix_ms : ℤ

pub record Quote : Type 0 where
  pub asset : String
  pub chain_id : ℕ
  pub base : Address
  pub quote : Address
  pub rate_base_to_quote : Word
  pub rate_quote_to_base : Word
  pub expiry_unix_ms : ℤ
  pub execution_deadline_unix_ms : Option ℤ
  pub source_ts_unix_ms : ℤ
  pub nav_ratio : Word
  pub underlying_rate_base_to_quote : Word
  pub underlying_rate_quote_to_base : Word
  pub session : Option QuoteSession

-- The codes of an error frame: only `stale_source` is told apart.
pub data ErrorCode : Type 0 where
  stale_source other_code : ErrorCode

-- A price frame carries the fields of a quote; venue and model version are not read.
pub data ServerFrame : Type 0 where
  price : Quote → ServerFrame
  error : ErrorCode → Option String → ServerFrame
  halt : (chain_id : ℕ) → (asset : String) → (halted : Bool) → ServerFrame
  ping : (ts_unix_ms : ℤ) → ServerFrame

pub data ClientFrame : Type 0 where
  subscribe : (consumer : String) → (assets : List String) → ClientFrame
  unsubscribe : (assets : List String) → ClientFrame
  pong : (ts_unix_ms : ℤ) → ClientFrame

-- Code that the server calls and that is not in the repository.
pub record External : Type 0 where
  -- `SessionTag::as_str`, as ASCII; every name fits in 31 bytes.
  pub tag_name : SessionTag → Bytes
  pub tag_name-short : (t : SessionTag) → length (tag_name t) < 32
  -- `Float::parse` of a text, as the packed word; the error is its debug text.
  pub float_parse : Bytes → Result String Word
  -- `Float::from_fixed_decimal`.
  pub float_from_fixed_decimal : ℕ → ℕ → Result String Word
  -- `Float::inv` and `Float::is_zero` of a packed word.
  pub float_inv : Word → Result String Word
  pub float_is_zero : Word → Result String Bool
  -- `Keccak256` over the concatenation of the updates.
  pub keccak256 : Bytes → Word
  -- The address of the signing key.
  pub signer_address : Address
