-- ===== src/Status.antt =====
-- src/lib.rs: the handler of `/status`.
pub mod Reported
use st0x_oracle_server.Base.{ℕ, String, List, Option, none, some, length}
use st0x_oracle_server.Base.Int.{ℤ, wrapping_sub}
use st0x_oracle_server.Pricing.{Feed, missing, newest_source_ts_ms}
use st0x_oracle_server.Tokens.{TokenSet}
use st0x_oracle_server.Wire.{Address}

pub record StatusResponse : Type 0 where
  pub signer : Address
  pub configured_symbols : List String
  pub missing_symbols : List String
  pub registry_generation : Option ℤ

-- What the metrics show. The age of the newest quote is shown in seconds, as a float, and is in
-- milliseconds here.
pub record StatusGauges : Type 0 where
  pub configured : ℕ
  pub missing : ℕ
  pub freshness_ms : Option ℤ

abbrev show_freshness : Option ℤ → ℤ → Option ℤ → Option ℤ
show_freshness none now old = old
show_freshness (some newest) now old = some (wrapping_sub now newest)

-- The cache is read twice, and may have changed between the reads.
unfoldable pub status :
    Address → ℕ → TokenSet → Feed → Feed → ℤ → StatusGauges → StatusResponse × StatusGauges
status signer chain_id set first second now g =
    let absent = missing first chain_id set.symbols in
    let newest = newest_source_ts_ms second chain_id in
    (
      record {
        signer = signer;
        configured_symbols = set.symbols;
        missing_symbols = absent;
        registry_generation = set.generation;
      },
      record g {
        configured = length set.symbols;
        missing = length absent;
        freshness_ms = show_freshness newest now g.freshness_ms;
      },
    )
