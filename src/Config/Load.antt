-- ===== src/Config/Load.antt =====
-- src/config.rs: from a parsed table to a validated configuration.
use st0x_oracle_server.Base.Errors.{◌>>=◌, ◌>>◌}
use st0x_oracle_server.Toml
use st0x_oracle_server.Toml.{Table}
use st0x_oracle_server.Config.{
  Config, ConfigError, rows_inline, rows_not_merged, malformed, validate, validate_inner,
}
use st0x_oracle_server.Base.{String, Result, if◌then◌else◌, ◌&&◌, err, not, map_err, ok, false}
use st0x_oracle_server.Wire.{Address}

-- `try_into` is what the crates `toml` and `serde` derive for `Config`.
module _ (from_str : String → Result String Address) (try_into : Table → Result String Config) where
  unfoldable pub from_table : Table → Result ConfigError Config
  from_table table =
      if Toml.contains_key "registry" table && not (Toml.contains_key "tokens" table)
      then err rows_not_merged
      else (do cfg ← map_err malformed (try_into table); validate from_str cfg; ok cfg)

  unfoldable pub from_table_static : Table → Result ConfigError Config
  from_table_static table =
      if Toml.contains_key "tokens" table
      then err rows_inline
      else (do cfg ← map_err malformed (try_into table); validate_inner from_str false cfg; ok cfg)
