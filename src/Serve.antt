-- ===== src/Serve.antt =====
-- src/main.rs: the arguments of `validate`, what it checks, and where the server's tokens and key
-- come from.
pub mod Validated
use st0x_oracle_server.Base.{
  none, some, ok, err, string_eq, String, Option, List, Result, Bool, ◌∷◌, map_err, if◌then◌else◌,
  codes, ◌==◌, ok_or, is_empty, false, and_then, true, [],
}
use st0x_oracle_server.Base.Errors.{◌>>=◌, map_ok}
use st0x_oracle_server.Base.Text.{Text, strip_prefix, trim}
use st0x_oracle_server.Toml.{Value, Table}
use st0x_oracle_server.Config.{Config, RegistrySource, ConfigError}
use st0x_oracle_server.TokenFile.Source.{SourceError, source_of}
use st0x_oracle_server.TokenFile.Candidate.{Library, Candidate, CandidateError, candidate}
use st0x_oracle_server.Wire.{Bytes}
use st0x_oracle_server.Config.Load.{from_table, from_table_static}

pub data ArgumentError : Type 0 where
  registry_file_needs_path : ArgumentError
  second_registry_file : ArgumentError
  unknown_flag : String → ArgumentError
  second_path : ArgumentError

abbrev pub Arguments : Type 0
Arguments = Option String × Option String

-- A value is set once.
abbrev pub set_once : Option String → String → ArgumentError → Result ArgumentError (Option String)
set_once none value e = ok (some value)
set_once (some old) value e = err e

abbrev pub is_flag : String → Bool
is_flag arg = elim (strip_prefix (codes "--") (codes arg)) [ none ↦ false | some rest ↦ true ]

-- The loop over the arguments that are left.
unfoldable pub read_args :
    Option String → Option String → List String → Result ArgumentError Arguments
read_args path file [] = ok (path, file)
read_args path file (arg ∷ []) =
    if arg == "--registry-file"
    then err registry_file_needs_path
    else if is_flag arg
    then err (unknown_flag arg)
    else map_ok (λ (p : Option String). (p, file)) (set_once path arg second_path)
read_args path file (arg ∷ next ∷ args) =
    let as_path = λ (p : Option String). read_args p file (next ∷ args) in
    let as_file = λ (f : Option String). read_args path f args in
    if arg == "--registry-file"
    then and_then (set_once file next second_registry_file) as_file
    else if is_flag arg
    then err (unknown_flag arg)
    else and_then (set_once path arg second_path) as_path

unfoldable pub validate_args : List String → Result ArgumentError Arguments
validate_args args = read_args none none args

pub data ServeError : Type 0 where
  bad_registry_source : SourceError → ServeError
  no_registry_source : ServeError
  unread_file : (why : String) → ServeError
  bad_table : ConfigError → ServeError
  bad_copy : CandidateError → ServeError
  both_signers : ServeError
  no_signer : ServeError

-- What `validate` says of the tokens.
pub data Checked : Type 0 where
  whole : Config → Checked
  with_copy : Config → Checked
  -- The tokens themselves are not checked.
  without_tokens : Config → Checked

module _ (L : Library) (try_into_source : Value → Result String RegistrySource) where
  unfoldable pub serve_source : Table → Result ServeError RegistrySource
  serve_source table = do
    found ← map_err bad_registry_source (source_of try_into_source table)
    ok_or found no_registry_source

  -- `file` is what reading the file of `--registry-file` gives, if the option is there.
  abbrev pub check :
      Table → Option RegistrySource → Option (Result String Bytes) → Result ServeError Checked
  check table none file = map_ok whole (map_err bad_table (from_table L.from_str L.try_into table))
  check table (some source) (some file) = do
    bytes ← map_err unread_file file
    c ← map_err bad_copy (candidate L table bytes)
    ok (with_copy c.config)
  check table (some source) none =
      map_ok without_tokens (map_err bad_table (from_table_static L.from_str L.try_into table))

  unfoldable pub validate_file : Table → Option (Result String Bytes) → Result ServeError Checked
  validate_file table file = do
    found ← map_err bad_registry_source (source_of try_into_source table)
    check table found file

pub data SignerSource : Type 0 where
  kms : Text → SignerSource
  private_key : Text → SignerSource

-- A value of white space only counts as absent.
abbrev pub given : Option String → Option Text
given none = none
given (some s) = if is_empty (trim (codes s)) then none else some (trim (codes s))

abbrev pub choose : Option Text → Option Text → Result ServeError SignerSource
choose (some key) none = ok (kms key)
choose none (some key) = ok (private_key key)
choose (some key) (some other) = err both_signers
choose none none = err no_signer

-- Exactly one source of the signing key.
unfoldable pub signer_source : Option String → Option String → Result ServeError SignerSource
signer_source kms_key key = choose (given kms_key) (given key)
