-- ===== src/Context/Layout.antt =====
-- Which value stands in which slot of the expiry-bearing schemas.
use st0x_oracle_server.Base.Errors.{Result}
use st0x_oracle_server.Wire.{External, Word, Address}
use st0x_oracle_server.Base.{List, ℕ, get_elem?, ◌≡◌, to_option, some, ok, length, arith}
use st0x_oracle_server.Context.{
  left_padding_from, ContextError, build_context_v5, build_context_v6, build_context_v7,
  build_session_context, parse_u64, from_be_bytes,
}
use st0x_oracle_server.Base.Decimal.{to_string}

-- The arguments that v5, v6 and v7 share.
pub record Signed : Type 0 where
  pub price_bytes : Word
  pub publish_time : ℕ
  pub session_bytes : Word
  pub session_start : ℕ
  pub session_end : ℕ
  pub input_token : Address
  pub output_token : Address
  pub quote_expiry : ℕ

module _ (x : External) where
  abbrev pub NumberAt : List Word → ℕ → ℕ → Type 0
  NumberAt c i n = get_elem? c i ≡ to_option (x.float_parse (to_string n))

  abbrev pub WordAt : List Word → ℕ → Word → Type 0
  WordAt c i w = get_elem? c i ≡ some w

  pub record NineSlots (version : ℕ) (a : Signed) (c : List Word) : Type 0 where
    pub schema : NumberAt c 0 version
    pub price : WordAt c 1 a.price_bytes
    pub publish : NumberAt c 2 a.publish_time
    pub tag : WordAt c 3 a.session_bytes
    pub start : NumberAt c 4 a.session_start
    pub end : NumberAt c 5 a.session_end
    pub input : WordAt c 6 (left_padding_from a.input_token)
    pub output : WordAt c 7 (left_padding_from a.output_token)
    pub expiry : NumberAt c 8 a.quote_expiry

  abbrev pub context_v5 : Signed → Result ContextError (List Word)
  context_v5 a =
      build_context_v5 x a.price_bytes a.publish_time a.session_bytes a.session_start a.session_end
        a.input_token a.output_token a.quote_expiry

  abbrev pub context_v6 : Signed → Word → Result ContextError (List Word)
  context_v6 a =
      build_context_v6 x a.price_bytes a.publish_time a.session_bytes a.session_start a.session_end
        a.input_token a.output_token a.quote_expiry

  abbrev pub context_v7 : Signed → ℕ → Result ContextError (List Word)
  context_v7 a =
      build_context_v7 x a.price_bytes a.publish_time a.session_bytes a.session_start a.session_end
        a.input_token a.output_token a.quote_expiry

  module _ (a : Signed) (c : List Word) where
    -- v5 has nine slots.
    pub context_v5-NineSlots : context_v5 a ≡ ok c → NineSlots 5 a c × (length c ≡ 9)
    unfolding build_context_v5 build_session_context parse_u64
    context_v5-NineSlots h = ground arith

    -- v6 has the slots of v5 under its own version, and the packed NAV ratio.
    pub context_v6-NineSlots :
        (nav_ratio : Word)
        → context_v6 a nav_ratio ≡ ok c
        → NineSlots 6 a c
          × (get_elem? c 9 ≡ to_option (x.float_from_fixed_decimal (from_be_bytes nav_ratio) 18))
          × (length c ≡ 10)
    unfolding build_context_v6 build_session_context parse_u64
    context_v6-NineSlots nav_ratio h = ground arith

    -- v7 has the slots of v5 under its own version, and the chain id.
    pub context_v7-NineSlots :
        (chain_id : ℕ)
        → context_v7 a chain_id ≡ ok c
        → NineSlots 7 a c × NumberAt c 9 chain_id × (length c ≡ 10)
    unfolding build_context_v7 build_session_context parse_u64
    context_v7-NineSlots chain_id h = ground arith
