-- ===== src/Reuse.antt =====
-- src/reuse.rs: a still valid signature is served again when only the timestamps moved.
pub mod Statement
pub mod Offer
use mathlib.Core.Option
use st0x_oracle_server.Base.HashMap
use st0x_oracle_server.Base.{
  ℕ, List, String, Bool, ◌≡◌, Eq, ◌==◌, true, [], ltb, nat_beq, ◌&&◌, ◌↔◌, length, arith, Option,
  if◌then◌else◌, string_eq, not, bytes_eq, bytes_beq_iff, none, false, ◌||◌, some, ◌∷◌, suc,
}
use st0x_oracle_server.Pricing.{Feed, QuoteGeneration, is_same, is_live}
use st0x_oracle_server.Wire.{Word, Address}
use st0x_oracle_server.Context.{OracleResponse}
use text.Mathlib.TextEquality.{eq_iff}
use st0x_oracle_server.Base.Int.{saturating_add}

abbrev pub publish_time_slot : ℕ
publish_time_slot = 2

abbrev pub expiry_slot : ℕ
expiry_slot = 8

same_from : ℕ → List Word → List Word → Bool
same_from i (x ∷ a) (y ∷ b) =
    (nat_beq i publish_time_slot || nat_beq i expiry_slot || (x == y)) && same_from (suc i) a b
same_from i _ _ = true

unfoldable pub same_statement : List Word → List Word → Bool
unfolding same_from
same_statement a b = nat_beq (length a) (length b) && same_from 0 a b

pub record ReuseKey : Type 0 where
  pub schema : String
  pub symbol : String
  pub direction : String
  pub input_token : Address
  pub output_token : Address

abbrev pub key_beq : ReuseKey → ReuseKey → Bool
key_beq j k =
    (j.schema == k.schema)
    && (j.symbol == k.symbol)
    && (j.direction == k.direction)
    && (j.input_token == k.input_token)
    && (j.output_token == k.output_token)

pub key_beq_iff : (j k : ReuseKey) → (key_beq j k ≡ true) ↔ (j ≡ k)
key_beq_iff j k = ground (
  arith,
  eq_iff j.schema k.schema,
  eq_iff j.symbol k.symbol,
  eq_iff j.direction k.direction,
  bytes_beq_iff j.input_token k.input_token,
  bytes_beq_iff j.output_token k.output_token,
)

instance abbrev pub key_eq : Eq ReuseKey
key_eq = record { beq = key_beq; beq_iff = key_beq_iff }

pub record Stored : Type 0 where
  pub expiry_unix_secs : ℕ
  pub response : OracleResponse
  pub generation : QuoteGeneration

pub record ReusedResponse : Type 0 where
  pub expiry_unix_secs : ℕ
  pub response : OracleResponse

pub record ReuseCache : Type 0 where
  pub entries : List (ReuseKey × Stored)
  pub min_remaining_secs : ℕ

abbrev pub new : ℕ → ReuseCache
new min_remaining_secs = record { entries = []; min_remaining_secs = min_remaining_secs }

abbrev pub enabled : ReuseCache → Bool
enabled c = ltb 0 c.min_remaining_secs

-- The early returns of `lookup`, for the entry that is found.
offer : Feed → ℕ → List Word → ℕ → ℕ → QuoteGeneration → Stored → Option ReusedResponse
offer feed min_remaining_secs context expiry_unix_secs now_secs generation stored =
    if not (is_same stored.generation generation) || not (is_live feed stored.generation)
    then none
    else if not (same_statement stored.response.context context)
    then none
    else if ltb expiry_unix_secs stored.expiry_unix_secs
    then none
    else if ltb stored.expiry_unix_secs (saturating_add now_secs min_remaining_secs)
    then none
    else some (record { expiry_unix_secs = stored.expiry_unix_secs; response = stored.response })

unfoldable pub lookup :
    ReuseCache → Feed → ReuseKey → List Word → ℕ → ℕ → QuoteGeneration → Option ReusedResponse
unfolding offer
lookup c feed key context expiry_unix_secs now_secs generation =
    if not (enabled c)
    then none
    else Option.bind (HashMap.get key c.entries)
        (offer feed c.min_remaining_secs context expiry_unix_secs now_secs generation)

-- `while_live`: the entry is written only while its generation is live.
unfoldable pub store :
    ReuseCache → Feed → ReuseKey → ℕ → OracleResponse → QuoteGeneration → ReuseCache × Bool
store c feed key expiry_unix_secs response generation =
    if not (enabled c)
    then (c, false)
    else if is_live feed generation
    then (
      record c {
        entries =
            HashMap.insert key
              (record {
                expiry_unix_secs = expiry_unix_secs;
                response = response;
                generation = generation;
              })
              c.entries;
      },
      true,
    )
    else (c, false)
