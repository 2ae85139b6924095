-- ===== src/Context.antt =====
-- src/oracle.rs: the signed context arrays of every schema, slot by slot.
pub mod Layout
pub mod Binding
pub mod Words
use st0x_oracle_server.Base.Errors.{◌>>=◌}
use st0x_oracle_server.Base.{
  String, ℕ, List, Result, replicate, map_err, ok, ◌-◌, ◌∷◌, ◌++◌, length, ◌*◌, [], ◌+◌,
}
use st0x_oracle_server.Wire.{Address, Bytes, External, Word}
use st0x_oracle_server.Base.Decimal.{to_string}

pub data ContextError : Type 0 where
  parse_schema_version parse_publish_time parse_session_start parse_session_end :
      String → ContextError
  parse_quote_expiry pack_nav_ratio parse_chain_id : String → ContextError

abbrev pub schema_version : ℕ
schema_version = 1

abbrev pub schema_version_v4 : ℕ
schema_version_v4 = 4

abbrev pub schema_version_v5 : ℕ
schema_version_v5 = 5

abbrev pub schema_version_v6 : ℕ
schema_version_v6 = 6

abbrev pub schema_version_v7 : ℕ
schema_version_v7 = 7

abbrev nav_ratio_decimals : ℕ
nav_ratio_decimals = 18

pub record OracleResponse : Type 0 where
  pub signer : Address
  pub context : List Word
  pub signature : Bytes

-- `FixedBytes::<32>::left_padding_from`, for at most 32 bytes.
unfoldable pub left_padding_from : Bytes → Word
left_padding_from bytes = replicate (32 - length bytes) 0 ++ bytes

-- `U256::from_be_bytes`.
be_from : ℕ → Bytes → ℕ
be_from acc [] = acc
be_from acc (b ∷ bytes) = be_from (256 * acc + b) bytes

unfoldable pub from_be_bytes : Bytes → ℕ
unfolding be_from
from_be_bytes bytes = be_from 0 bytes

module _ (x : External) where
  -- `Float::parse(n.to_string())`, its failure under the message of the place.
  unfoldable pub parse_u64 : (String → ContextError) → ℕ → Result ContextError Word
  parse_u64 fault n = map_err fault (x.float_parse (to_string n))

  module _ (price_bytes : Word) (publish_time : ℕ) where
    unfoldable pub build_context : Result ContextError (List Word)
    build_context = do
      version ← parse_u64 parse_schema_version schema_version
      publish ← parse_u64 parse_publish_time publish_time
      ok (version ∷ price_bytes ∷ publish ∷ [])

    module _ (session_bytes : Word) (session_start session_end : ℕ) where
      unfoldable pub build_session_context : ℕ → Result ContextError (List Word)
      build_session_context schema_version = do
        version ← parse_u64 parse_schema_version schema_version
        publish ← parse_u64 parse_publish_time publish_time
        start ← parse_u64 parse_session_start session_start
        end ← parse_u64 parse_session_end session_end
        ok (version ∷ price_bytes ∷ publish ∷ session_bytes ∷ start ∷ end ∷ [])

      module _ (input_token output_token : Address) where
        unfoldable pub build_pair_bound_context : ℕ → Result ContextError (List Word)
        unfolding build_session_context
        build_pair_bound_context schema_version = do
          ctx ← build_session_context schema_version
          ok (ctx ++ left_padding_from input_token ∷ left_padding_from output_token ∷ [])

        unfoldable pub build_context_v4 : Result ContextError (List Word)
        unfolding build_pair_bound_context
        build_context_v4 = build_pair_bound_context schema_version_v4

        module _ (quote_expiry : ℕ) where
          unfoldable pub build_expiry_bound_context : ℕ → Result ContextError (List Word)
          unfolding build_pair_bound_context
          build_expiry_bound_context schema_version = do
            ctx ← build_pair_bound_context schema_version
            expiry ← parse_u64 parse_quote_expiry quote_expiry
            ok (ctx ++ expiry ∷ [])

          unfoldable pub build_context_v5 : Result ContextError (List Word)
          unfolding build_expiry_bound_context
          build_context_v5 = build_expiry_bound_context schema_version_v5

          unfoldable pub build_context_v6 : Word → Result ContextError (List Word)
          unfolding build_expiry_bound_context
          build_context_v6 nav_ratio = do
            ctx ← build_expiry_bound_context schema_version_v6
            nav ←
                map_err pack_nav_ratio
                  (x.float_from_fixed_decimal (from_be_bytes nav_ratio) nav_ratio_decimals)
            ok (ctx ++ nav ∷ [])

          unfoldable pub build_context_v7 : ℕ → Result ContextError (List Word)
          unfolding build_expiry_bound_context
          build_context_v7 chain_id = do
            ctx ← build_expiry_bound_context schema_version_v7
            chain ← parse_u64 parse_chain_id chain_id
            ok (ctx ++ chain ∷ [])
