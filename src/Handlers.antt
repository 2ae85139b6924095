-- ===== src/Handlers.antt =====
-- src/lib.rs: the handlers of `/context/v1` and `/context/v4` to `/context/v7`.
pub mod Legacy
pub mod Served
pub mod Endpoints
pub mod Unsigned
pub mod Authentic
pub mod Routed
use st0x_oracle_server.World.{◌>>=◌, World, M, current, lift, snapshot, continue, now_unix_ms, pure}
use st0x_oracle_server.Base.{
  none, some, List, ℕ, Result, String, Bool, if◌then◌else◌, Option, leb, and_then, map_err, ok, ◌∷◌,
  ok_or, true, err, get_elem?, [], false, map, ◌&&◌, length, is_empty, string_eq,
}
use st0x_oracle_server.Base.HashMap
use st0x_oracle_server.Registry.{TokenRegistry, ResolvedPair}
use st0x_oracle_server.Wire.{Address, Bytes, External, Word}
use st0x_oracle_server.Refusal.{
  AppError, bad_request, refused_pair, invalid_body, invalid_input_index, invalid_output_index,
  admission,
}
use st0x_oracle_server.Signer.{Attempt}
use st0x_oracle_server.Base.Errors.{map_ok}
use st0x_oracle_server.Context.{OracleResponse}
use st0x_oracle_server.Batch.{
  ContextResponse, finish, strict_abort, BuiltSlot, or_abort, build_slots, revalidate_batch,
}
use st0x_oracle_server.Response.{
  v4, v5, v6, v7, PairSchema, tag, build_response_from_quote_pair_bound, signs_expiry,
}
use st0x_oracle_server.Validity.{legacy_signature_unavailable, no_live_quote_at}
use st0x_oracle_server.Pricing.{QuoteSnapshot}
use mathlib.Core.Bool.{false}

-- What the handlers read of an `OrderV4`: the tokens of its inputs and outputs.
pub record OrderV4 : Type 0 where
  pub valid_inputs : List Address
  pub valid_outputs : List Address

pub record OracleRequest : Type 0 where
  pub order : OrderV4
  pub input_io_index : ℕ
  pub output_io_index : ℕ

pub record DecodedRequest : Type 0 where
  pub items : List OracleRequest
  pub is_batch : Bool

-- `usize::MAX`.
abbrev usize_max : ℕ
usize_max = 18446744073709551615

-- `try_into().unwrap_or(usize::MAX)` of a 256-bit index.
abbrev pub usize_of : ℕ → ℕ
usize_of index = if leb index usize_max then index else usize_max

unfoldable pub io_tokens_for : OracleRequest → Result AppError (Address × Address)
io_tokens_for r =
    let input = usize_of r.input_io_index in
    let output = usize_of r.output_io_index in
    and_then
      (ok_or (get_elem? r.order.valid_inputs input)
        (bad_request (invalid_input_index input (length r.order.valid_inputs))))
      (λ input_token.
        map_ok (λ output_token. (input_token, output_token))
          (ok_or (get_elem? r.order.valid_outputs output)
            (bad_request (invalid_output_index output (length r.order.valid_outputs)))))

abbrev pub resolved_in : TokenRegistry → Address → Address → Result AppError ResolvedPair
resolved_in registry input output =
    map_err (λ e. bad_request (refused_pair e))
      (st0x_oracle_server.Registry.resolve registry input output)

unfoldable pub resolve_pair_for_order : TokenRegistry → OracleRequest → Result AppError ResolvedPair
unfolding io_tokens_for
resolve_pair_for_order registry r =
    and_then (io_tokens_for r) (λ tokens. resolved_in registry tokens.0 tokens.1)

pub record PairSlot : Type 0 where
  pub input_token : Address
  pub output_token : Address
  pub pair : ResolvedPair

unfoldable pub resolve_slot : TokenRegistry → OracleRequest → Result AppError PairSlot
unfolding io_tokens_for
resolve_slot registry r = and_then (io_tokens_for r) (λ tokens.
    map_ok (λ pair. record { input_token = tokens.0; output_token = tokens.1; pair = pair })
      (resolved_in registry tokens.0 tokens.1))

-- ABI decoding is not in the repository: of an array, and of a single tuple.
pub record Abi : Type 0 where
  pub decode_batch : Bytes → Option (List OracleRequest)
  pub decode_single : Bytes → Result String OracleRequest

unfoldable pub decode_request_body : Abi → Bytes → Result AppError DecodedRequest
decode_request_body abi body = elim (abi.decode_batch body) [
  | some items ↦ ok (record { items = items; is_batch = true })
  | none ↦
      map_err (λ e. bad_request (invalid_body e))
        (map_ok (λ r. record { items = r ∷ []; is_batch = false }) (abi.decode_single body))
]

abbrev pub first_error : {A : Type 0} → List (Result AppError A) → Option AppError
first_error [] = none
first_error (err e ∷ items) = some e
first_error (ok a ∷ items) = first_error items

abbrev pub oks : {A : Type 0} → List (Result AppError A) → List A
oks [] = []
oks (err e ∷ items) = oks items
oks (ok a ∷ items) = a ∷ oks items

-- Every resolved item of a schema without a settlement expiry is refused, and counted.
unfoldable pub refuse_all :
    {A : Type 0}
    → String
    → (A → String)
    → List (Result AppError A)
    → World
    → List (Result AppError OracleResponse) × World
refuse_all endpoint symbol_of [] w = ([], w)
refuse_all endpoint symbol_of (err e ∷ items) w =
    let (rest, v) = refuse_all endpoint symbol_of items w in (err e ∷ rest, v)
refuse_all endpoint symbol_of (ok a ∷ items) w =
    let (r, u) = legacy_signature_unavailable {A = OracleResponse} endpoint (symbol_of a) w in
    let (rest, v) = refuse_all endpoint symbol_of items u in (r ∷ rest, v)

abbrev pub finish_legacy :
    {A : Type 0} → String → (A → String) → List (Result AppError A) → Bool → M ContextResponse
finish_legacy endpoint symbol_of items envelope w =
    let (refused, v) = refuse_all endpoint symbol_of items w in finish endpoint refused envelope v

-- In strict mode the first failed resolution is the reply.
abbrev pub unless_failed :
    {A : Type 0} → String → Bool → List (Result AppError A) → M ContextResponse → M ContextResponse
unless_failed endpoint true items go = go
unless_failed endpoint false items go = elim (first_error items) [
  | some e ↦ strict_abort endpoint e
  | none ↦ go
]

module _ (x : External) (abi : Abi) (sign : Word → ℕ → Attempt) (chain_id : ℕ) where
  abbrev pub serve_v1 : List OracleRequest → Bool → M ContextResponse
  serve_v1 requests envelope = do
    registry ← current sign
    let resolved = map (resolve_pair_for_order registry) requests
    unless_failed "v1" envelope resolved
        (finish_legacy "v1" (λ (p : ResolvedPair). p.symbol) resolved envelope)

  unfoldable pub post_signed_context_v1_inner : Bool → Bytes → M ContextResponse
  post_signed_context_v1_inner allow_failure body = do
    decoded ← lift (decode_request_body abi body)
    let envelope = allow_failure && decoded.is_batch
    if is_empty decoded.items then finish "v1" [] envelope else serve_v1 decoded.items envelope

  abbrev pub slot_symbol : PairSlot → String
  slot_symbol s = s.pair.symbol

  module _ (schema : PairSchema) where
    abbrev pub build_one : List (String × QuoteSnapshot) → PairSlot → M BuiltSlot
    build_one snapshot slot w = elim (HashMap.get slot.pair.symbol snapshot) [
      | none ↦ no_live_quote_at (tag schema) slot.pair.symbol admission w
      | some quote ↦
          continue
            (build_response_from_quote_pair_bound x sign chain_id slot.pair quote schema
              slot.input_token slot.output_token w)
            (λ b. pure (record { pair = slot.pair; quote = quote; response = b }))
    ]

    abbrev pub built_symbol : BuiltSlot → String
    built_symbol s = s.pair.symbol

    -- The schemas that sign: snapshot, build, snapshot again, check again.
    abbrev pub sign_slots : List (Result AppError PairSlot) → Bool → M ContextResponse
    sign_slots resolved envelope = do
      quotes ← snapshot sign chain_id (map slot_symbol (oks resolved))
      built ← or_abort (tag schema) (build_slots (build_one quotes) resolved envelope)
      now_quotes ← snapshot sign chain_id (map built_symbol (oks built))
      registry ← current sign
      checked_at ← now_unix_ms sign
      items ← or_abort (tag schema) (
          revalidate_batch sign (tag schema) (signs_expiry schema) checked_at now_quotes registry
            built envelope)
      finish (tag schema) items envelope

    abbrev pub by_schema : List (Result AppError PairSlot) → Bool → M ContextResponse
    by_schema resolved envelope = elim schema [
      | v4 ↦ finish_legacy "v4" slot_symbol resolved envelope
      | v5 ↦ sign_slots resolved envelope
      | v6 ↦ sign_slots resolved envelope
      | v7 ↦ sign_slots resolved envelope
    ]

    abbrev pub serve : List OracleRequest → Bool → M ContextResponse
    serve requests envelope = do
      registry ← current sign
      let resolved = map (resolve_slot registry) requests
      unless_failed (tag schema) envelope resolved (by_schema resolved envelope)

    unfoldable pub post_signed_context_pair_bound : Bool → Bytes → M ContextResponse
    post_signed_context_pair_bound allow_failure body = do
      decoded ← lift (decode_request_body abi body)
      let envelope = allow_failure && decoded.is_batch
      if is_empty decoded.items
          then finish (tag schema) [] envelope
          else serve decoded.items envelope
