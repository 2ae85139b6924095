-- ===== src/TokenFile/Source.antt =====
-- src/token_file.rs: the bucket object that a configuration names.
use st0x_oracle_server.Base.{none, some, err, ok, and_then, map_err}
use st0x_oracle_server.Toml
use st0x_oracle_server.Toml.{Value, Table}
use st0x_oracle_server.Config.{RegistrySource}
use st0x_oracle_server.TokenFile.Bucket.{split_gs_url}
use st0x_oracle_server.Base.{String, Result, Option, codes}

pub data SourceError : Type 0 where
  pinned_generation : SourceError
  bad_source : (why : String) → SourceError
  bad_source_url : SourceError

-- `try_into` is what the crates `toml` and `serde` derive for `RegistrySource`.
module _ (try_into : Value → Result String RegistrySource) where
  abbrev checked_source : RegistrySource → Result SourceError (Option RegistrySource)
  checked_source source = elim (split_gs_url (codes source.url)) [
    | none ↦ err bad_source_url
    | some parts ↦ ok (some source)
  ]

  unfoldable pub source_of : Table → Result SourceError (Option RegistrySource)
  source_of config = elim (Toml.get "registry" config) [
    | none ↦ ok none
    | some v ↦ elim (Toml.member "generation" v) [
      | some g ↦ err pinned_generation
      | none ↦ and_then (map_err bad_source (try_into v)) checked_source
    ]
  ]
