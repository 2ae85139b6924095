-- ===== src/TokenFile/Candidate.antt =====
-- src/token_file.rs: what boot and the reload loop build from a copy of the token file, and how
-- boot reads the copy.
use st0x_oracle_server.Base.Errors.{◌>>=◌}
use st0x_oracle_server.Toml.{Table}
use st0x_oracle_server.Config.{Config, ConfigError, symbols}
use st0x_oracle_server.Registry.{TokenRegistry, RegistryError, from_config}
use st0x_oracle_server.TokenFile.Project.{FileError, merge_bytes}
use st0x_oracle_server.Base.{String, Result, map_err, some, ok}
use st0x_oracle_server.TokenFile.{Projection}
use st0x_oracle_server.Wire.{Bytes, Address}
use st0x_oracle_server.Base.Int.{ℤ}
use st0x_oracle_server.Tokens.{TokenSet}
use st0x_oracle_server.Config.Load.{from_table}

pub data CandidateError : Type 0 where
  bad_file : FileError → CandidateError
  bad_config : ConfigError → CandidateError
  bad_registry : RegistryError → CandidateError

-- The code that is not in the repository: text in lower case, reading a TOML text, the derived
-- reading of `Config`, and reading an address.
pub record Library : Type 0 where
  pub to_lowercase : String → String
  pub parse : Bytes → Result String Table
  pub try_into : Table → Result String Config
  pub from_str : String → Result String Address

pub record Candidate : Type 0 where
  pub projection : Projection
  pub config : Config
  pub registry : TokenRegistry

-- What the server runs from a candidate read at a generation.
abbrev pub set_of : Candidate → ℤ → TokenSet
set_of c generation = record {
  registry = c.registry;
  symbols = symbols c.config;
  projection = some c.projection;
  generation = some generation;
}

module _ (L : Library) where
  unfoldable pub candidate : Table → Bytes → Result CandidateError Candidate
  candidate static_config bytes = do
    (table, projection) ← map_err bad_file (merge_bytes L.to_lowercase L.parse static_config bytes)
    config ← map_err bad_config (from_table L.from_str L.try_into table)
    registry ← map_err bad_registry (from_config L.from_str config.tokens config.quote_token)
    ok (record { projection = projection; config = config; registry = registry })
