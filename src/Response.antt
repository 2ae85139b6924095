-- ===== src/Response.antt =====
-- src/lib.rs: one signed response, from a resolved pair and the quote of the request's snapshot.
pub mod Checked
pub mod Returned
pub mod Safety
pub mod Authentic
pub mod Words
pub mod States
use st0x_oracle_server.World.{
  ◌>>=◌, M, lift, pure, now_unix_ms, current, look_up, keep, sign_context,
}
use st0x_oracle_server.Base.Int.{ℤ, u64_try_from, div_euclid, i64_try_from, checked_mul}
use st0x_oracle_server.Base.{
  none, some, String, Bool, List, false, true, Option, ℕ, Result, if◌then◌else◌, map_err, ok_or, ok,
  err,
}
use st0x_oracle_server.Context.{OracleResponse, ContextError, build_context_v4}
use st0x_oracle_server.Wire.{External, Word, Quote, Address}
use st0x_oracle_server.Signer.{Attempt}
use st0x_oracle_server.Registry.{ResolvedPair, PriceDirection, as_str}
use st0x_oracle_server.Session.{SignedSession, from_quote, tag_bytes32_v3}
use st0x_oracle_server.Pricing.{QuoteSnapshot}
use st0x_oracle_server.Refusal.{
  AppError, RefusalPhase, admission, pre_sign, internal, pre_reuse_return, context_fault, post_sign,
  clock_before_1970, no_expiry, stored_expiry_out_of_range,
}
use st0x_oracle_server.Context.Layout.{Signed, context_v5, context_v6, context_v7}
use st0x_oracle_server.Validity.{
  validate_quote_liveness, publish_time_from_quote, validate_quote_expiry, validate_quote_address,
  expiry_from_quote, validate_expiry_deadline, session_refused, effective_expiry_unix_ms,
}
use st0x_oracle_server.Reuse.{ReuseKey, ReusedResponse}
use st0x_oracle_server.Rates.{pick_underlying_rate_bytes, pick_rate_bytes}
use st0x_oracle_server.Base.Errors.{map_ok}

pub data PairSchema : Type 0 where
  v4 v5 v6 v7 : PairSchema

abbrev pub tag : PairSchema → String
tag v4 = "v4"
tag v5 = "v5"
tag v6 = "v6"
tag v7 = "v7"

abbrev pub signs_underlying : PairSchema → Bool
signs_underlying v4 = false
signs_underlying v5 = false
signs_underlying v6 = false
signs_underlying v7 = true

abbrev pub signs_expiry : PairSchema → Bool
signs_expiry v4 = false
signs_expiry v5 = true
signs_expiry v6 = true
signs_expiry v7 = true

pub record BuiltResponse : Type 0 where
  pub response : OracleResponse
  pub validity_expiry_unix_ms : ℤ

-- What is read off the quote before anything is signed.
pub record Candidate : Type 0 where
  pub context : List Word
  pub expiry : Option ℕ

-- The server: its key, the chain of its deployment, and the code it calls.
module _ (x : External) (sign : Word → ℕ → Attempt) (chain_id : ℕ) where
  abbrev pub price_bytes : PairSchema → Quote → PriceDirection → Result AppError Word
  price_bytes schema q direction =
      if signs_underlying schema
      then pick_underlying_rate_bytes x q direction
      else pick_rate_bytes x q direction

  abbrev in_context : Result ContextError (List Word) → Result AppError (List Word)
  in_context r = map_err (λ e. internal (context_fault e)) r

  module _ (q : Quote) (price_word : Word) (publish_time : ℕ) (session : SignedSession)
      (input_token output_token : Address) where
    abbrev pub signed_values : ℕ → Signed
    signed_values expiry = record {
      price_bytes = price_word;
      publish_time = publish_time;
      session_bytes = tag_bytes32_v3 x session.tag;
      session_start = session.start;
      session_end = session.end;
      input_token = input_token;
      output_token = output_token;
      quote_expiry = expiry;
    }

    unfoldable pub context_of : PairSchema → Option ℕ → Result AppError (List Word)
    context_of v4 expiry = in_context (
        build_context_v4 x price_word publish_time (tag_bytes32_v3 x session.tag) session.start
          session.end input_token output_token)
    context_of v5 (some expiry) = in_context (context_v5 x (signed_values expiry))
    context_of v6 (some expiry) = in_context (context_v6 x (signed_values expiry) q.nav_ratio)
    context_of v7 (some expiry) = in_context (context_v7 x (signed_values expiry) chain_id)
    context_of schema none = err (internal (no_expiry (tag schema)))

  module _ (pair : ResolvedPair) (quote : QuoteSnapshot) (schema : PairSchema) where
    abbrev pub live_at : RefusalPhase → M {0} Unit
    live_at phase = validate_quote_liveness sign (tag schema) pair.symbol phase quote

    abbrev pub checked : RefusalPhase → M {0} Unit
    checked phase = do
      now ← now_unix_ms sign
      validate_quote_expiry (tag schema) pair.symbol phase quote.quote now (signs_expiry schema)

    -- The checks before anything is read off the quote.
    unfoldable pub admit : M {0} Unit
    admit = do
      live ← live_at admission
      registry ← current sign
      address ← validate_quote_address quote.quote pair registry.quote_token (tag schema) admission
      now ← now_unix_ms sign
      validate_quote_expiry (tag schema) pair.symbol admission quote.quote now (signs_expiry schema)

    abbrev pub session_of : M SignedSession
    session_of w = elim (from_quote quote.quote) [
      | ok session ↦ (ok session, w)
      | err refusal ↦ session_refused (tag schema) pair.symbol refusal w
    ]

    abbrev pub expiry_of : Result AppError (Option ℕ)
    expiry_of =
        if signs_expiry schema
        then map_ok (λ (e : ℕ). some e) (expiry_from_quote quote.quote)
        else ok none

    module _ (input_token output_token : Address) where
      unfoldable pub candidate : M Candidate
      candidate = do
        publish_time ← lift (publish_time_from_quote quote.quote)
        session ← session_of
        price_word ← lift (price_bytes schema quote.quote pair.direction)
        expiry ← lift expiry_of
        context ← lift (
            context_of quote.quote price_word publish_time session input_token output_token schema
              expiry)
        pure (record { context = context; expiry = expiry })

      abbrev pub reuse_key : ReuseKey
      reuse_key = record {
        schema = tag schema;
        symbol = pair.symbol;
        direction = as_str pair.direction;
        input_token = input_token;
        output_token = output_token;
      }

      abbrev pub stored_expiry : ℕ → Result AppError ℤ
      stored_expiry secs =
          ok_or (elim (i64_try_from secs) [ none ↦ none | some e ↦ checked_mul secs 1000 ])
            (internal stored_expiry_out_of_range)

      -- The checks before a stored response is returned.
      unfoldable pub return_stored : ReusedResponse → M BuiltResponse
      return_stored previous = do
        validated_at ← now_unix_ms sign
        live ← live_at pre_reuse_return
        expiry ← lift (stored_expiry previous.expiry_unix_secs)
        fresh_ ←
            validate_expiry_deadline (tag schema) pair.symbol pre_reuse_return expiry validated_at
              true
        pure (record { response = previous.response; validity_expiry_unix_ms = expiry })

      abbrev pub now_secs_of : ℤ → Result AppError ℕ
      now_secs_of now = ok_or (u64_try_from (div_euclid now 1000)) (internal clock_before_1970)

      abbrev pub when_found : Option ReusedResponse → M (Option BuiltResponse)
      when_found none = pure none
      when_found (some previous) = do b ← return_stored previous; pure (some b)

      abbrev pub reuse_within : List Word → Option ℕ → M (Option BuiltResponse)
      reuse_within context none = pure none
      reuse_within context (some expiry) = do
        live ← live_at pre_sign
        now ← now_unix_ms sign
        now_secs ← lift (now_secs_of now)
        found ← look_up sign reuse_key context expiry now_secs quote.generation
        when_found found

      unfoldable pub try_reuse : Candidate → M (Option BuiltResponse)
      try_reuse c = reuse_within c.context c.expiry

      abbrev pub store_response : Option ℕ → OracleResponse → M {0} Unit
      store_response none response = pure tt
      store_response (some expiry) response = keep sign reuse_key expiry response quote.generation

      -- The quote is checked right before and right after the signature.
      unfoldable pub sign_fresh : Candidate → M BuiltResponse
      sign_fresh c = do
        live ← live_at pre_sign
        before ← checked pre_sign
        signature ← sign_context sign x c.context
        validated_at ← now_unix_ms sign
        still ← live_at post_sign
        after ←
            validate_quote_expiry (tag schema) pair.symbol post_sign quote.quote validated_at
              (signs_expiry schema)
        let response : OracleResponse = record {
          signer = signature.1;
          context = c.context;
          signature = signature.0;
        }
        kept ← store_response c.expiry response
        validity ← lift (effective_expiry_unix_ms quote.quote)
        pure (record { response = response; validity_expiry_unix_ms = validity })

      abbrev pub or_sign : Candidate → Option BuiltResponse → M BuiltResponse
      or_sign c none = sign_fresh c
      or_sign c (some b) = pure b

      unfoldable pub build_response_from_quote_pair_bound : M BuiltResponse
      build_response_from_quote_pair_bound = do
        admitted ← admit
        c ← candidate
        reused ← try_reuse c
        or_sign c reused
