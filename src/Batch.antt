-- ===== src/Batch.antt =====
-- src/lib.rs and src/oracle.rs: the slots of one request, their last check, and the reply.
pub mod Final
pub mod Order
pub mod Window
pub mod Futures
pub mod Filled
pub mod Requests
pub mod Trusted
pub mod Revalidated
pub mod Strict
pub mod Authentic
use st0x_oracle_server.World.{◌>>=◌, M, World, pure, lift, continue}
use st0x_oracle_server.Base.Int.{ℤ, ltb_ℤ}
use st0x_oracle_server.Base.{
  none, some, Result, List, Bool, String, false, if◌then◌else◌, ℕ, ok, err, true, is_empty, ◌∷◌,
  map, length, nat_beq, and_then, [], filter, string_eq, ◌&&◌, ◌==◌,
}
use st0x_oracle_server.Base.HashMap
use st0x_oracle_server.Registry.{ResolvedPair, TokenRegistry}
use st0x_oracle_server.Context.{OracleResponse}
use st0x_oracle_server.Wire.{Word, Quote}
use st0x_oracle_server.Pricing.{QuoteSnapshot}
use st0x_oracle_server.Refusal.{
  AppError, code, batch_final, exceeds_bound, ErrorResponse, to_error_response,
}
use st0x_oracle_server.Response.{BuiltResponse}
use st0x_oracle_server.Signer.{Attempt}
use st0x_oracle_server.Validity.{
  no_live_quote_at, validate_quote_liveness, effective_expiry_unix_ms, validate_expiry_deadline,
  validate_quote_address, validate_quote_expiry, expired_quote_at,
}

pub record BuiltSlot : Type 0 where
  pub pair : ResolvedPair
  pub quote : QuoteSnapshot
  pub response : BuiltResponse

pub data BatchItemResponse : Type 0 where
  signed_item : OracleResponse → BatchItemResponse
  error_item : ErrorResponse → BatchItemResponse

unfoldable pub item_of : Result AppError OracleResponse → BatchItemResponse
item_of (ok response) = signed_item response
item_of (err e) = error_item (to_error_response e)

pub data ContextResponse : Type 0 where
  strict : List OracleResponse → ContextResponse
  enveloped : List BatchItemResponse → ContextResponse

abbrev pub is_error : BatchItemResponse → Bool
is_error (signed_item r) = false
is_error (error_item e) = true

unfoldable pub outcome : ContextResponse → String
outcome (strict items) = if is_empty items then "empty" else "ok"
outcome (enveloped items) =
    let failed_ = length (filter is_error items) in
    if is_empty items
    then "empty"
    else if nat_beq failed_ 0
    then "ok"
    else if nat_beq failed_ (length items)
    then "failed"
    else "partial"

unfoldable pub record_item_outcome : String → String → ℕ → World → World
record_item_outcome endpoint what count w =
    if nat_beq count 0 then w else record w { items = (endpoint, what, count) ∷ w.items }

unfoldable pub record_request_outcome : String → Result AppError ContextResponse → World → World
record_request_outcome endpoint (ok response) w = record w {
  requests = (endpoint, outcome response) ∷ w.requests;
}
record_request_outcome endpoint (err e) w = record w { requests = (endpoint, "error") ∷ w.requests }

unfoldable pub strict_abort : {A : Type 0} → String → AppError → M A
strict_abort endpoint e w = (err e, record_item_outcome endpoint (code e) 1 w)

abbrev pub aborting : {A : Type 0} → String → Result AppError A × World → Result AppError A × World
aborting endpoint (ok a, v) = (ok a, v)
aborting endpoint (err e, v) = strict_abort endpoint e v

-- `map_err(strict_abort)`.
unfoldable pub or_abort : {A : Type 0} → String → M A → M A
or_abort endpoint m w = aborting endpoint (m w)

-- The result of one slot, then the others: strict mode stops at the first error.
abbrev pub next :
    {T : Type 0}
    → Bool
    → Result AppError T × World
    → M (List (Result AppError T))
    → Result AppError (List (Result AppError T)) × World
next envelope (ok t, v) rest = continue (rest v) (λ ts. pure (ok t ∷ ts))
next true (err e, v) rest = continue (rest v) (λ ts. pure (err e ∷ ts))
next false (err e, v) rest = (err e, v)

-- The responses, or the first error.
unfoldable pub all_ok : {A : Type 0} → List (Result AppError A) → Result AppError (List A)
all_ok [] = ok []
all_ok (err e ∷ items) = err e
all_ok (ok a ∷ items) = and_then (all_ok items) (λ rest. ok (a ∷ rest))

abbrev pub item_outcome : Result AppError OracleResponse → String
item_outcome (ok response) = "ok"
item_outcome (err e) = code e

unfoldable pub record_items : String → List (Result AppError OracleResponse) → World → World
record_items endpoint [] w = w
record_items endpoint (item ∷ items) w =
    record_items endpoint items (record_item_outcome endpoint (item_outcome item) 1 w)

unfoldable pub finish : String → List (Result AppError OracleResponse) → Bool → M ContextResponse
finish endpoint items true w = (ok (enveloped (map item_of items)), record_items endpoint items w)
finish endpoint items false w = elim (all_ok items) [
  | ok responses ↦ (ok (strict responses), record_item_outcome endpoint "ok" (length responses) w)
  | err e ↦ strict_abort endpoint e w
]

module _ (sign : Word → ℕ → Attempt) (endpoint : String) (signs : Bool) (checked_at : ℤ)
    (current : List (String × QuoteSnapshot)) (registry : TokenRegistry) where
  abbrev pub same_mapping : ResolvedPair → Bool
  same_mapping pair =
      elim (st0x_oracle_server.Registry.resolve registry pair.token registry.quote_token) [
        | ok found ↦ found.symbol == pair.symbol
        | err e ↦ false
      ]

  abbrev gone : {A : Type 0} → String → M A
  gone symbol = no_live_quote_at endpoint symbol batch_final

  abbrev pub within_bound : BuiltSlot → Quote → M {0} Unit
  within_bound slot q = do
    bound ← lift (effective_expiry_unix_ms q)
    if signs && ltb_ℤ bound slot.response.validity_expiry_unix_ms
        then expired_quote_at endpoint slot.pair.symbol batch_final exceeds_bound
        else pure tt

  abbrev pub current_quote : String → M QuoteSnapshot
  current_quote symbol w = elim (HashMap.get symbol current) [
    | none ↦ gone symbol w
    | some s ↦ (ok s, w)
  ]

  abbrev pub mapped : ResolvedPair → M {0} Unit
  mapped pair = if same_mapping pair then pure tt else gone pair.symbol

  -- The last check of one slot.
  unfoldable pub revalidate : BuiltSlot → M OracleResponse
  revalidate slot = do
    kept ← mapped slot.pair
    alive ← validate_quote_liveness sign endpoint slot.pair.symbol batch_final slot.quote
    ahead ←
        validate_expiry_deadline endpoint slot.pair.symbol batch_final
          slot.response.validity_expiry_unix_ms checked_at signs
    now ← current_quote slot.pair.symbol
    still ← validate_quote_liveness sign endpoint slot.pair.symbol batch_final now
    address ← validate_quote_address now.quote slot.pair registry.quote_token endpoint batch_final
    expiry ← validate_quote_expiry endpoint slot.pair.symbol batch_final now.quote checked_at signs
    bound ← if signs then within_bound slot now.quote else pure tt
    pure slot.response.response

  abbrev pub revalidate_slot :
      Result AppError BuiltSlot → World → Result AppError OracleResponse × World
  revalidate_slot (ok slot) w = revalidate slot w
  revalidate_slot (err e) w = (err e, w)

  unfoldable pub revalidate_batch :
      List (Result AppError BuiltSlot) → Bool → M (List (Result AppError OracleResponse))
  revalidate_batch [] envelope w = (ok [], w)
  revalidate_batch (slot ∷ slots) envelope w =
      next envelope (revalidate_slot slot w) (revalidate_batch slots envelope)

-- In an envelope what the other slots do meanwhile is part of the schedule of each slot.
module _ {S T : Type 0} (build_one : S → M T) where
  abbrev pub build_slot : Result AppError S → World → Result AppError T × World
  build_slot (ok s) w = build_one s w
  build_slot (err e) w = (err e, w)

  unfoldable pub build_slots : List (Result AppError S) → Bool → M (List (Result AppError T))
  build_slots [] envelope w = (ok [], w)
  build_slots (slot ∷ slots) envelope w =
      next envelope (build_slot slot w) (build_slots slots envelope)
