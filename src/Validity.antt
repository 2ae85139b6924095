-- ===== src/Validity.antt =====
-- src/lib.rs: which quotes may be signed, and when; the expiry of a quote and its checks.
pub mod Expiry
pub mod Checks
pub mod Trusted
use st0x_oracle_server.World.{◌>>=◌, M, refuse, pure, quote_live}
use st0x_oracle_server.Base.Int.{ℤ, ltb_ℤ, pos, min_ℤ, u64_try_from, div_euclid, div_trunc, int_eq}
use st0x_oracle_server.Base.{
  Bool, Option, String, some, Result, ℕ, ◌&&◌, if◌then◌else◌, err, not, ok_or, and_then, ◌==◌, ◌||◌,
  none, ok, false, ◌∷◌, bytes_eq,
}
use st0x_oracle_server.Wire.{Quote, Word, Address}
use st0x_oracle_server.Refusal.{
  Fault, RefusalPhase, AppError, Detail, source_ts_out_of_range, no_live_quote, expired_quote,
  deadline_missing_for, missing_session, legacy_schema, quote_expiry_out_of_range,
  no_live_quote_for, quote_expired, admission, unavailable, deadline_elapsed, no_session, legacy,
  deadline_missing, internal, invalid_session, bad_session,
}
use st0x_oracle_server.Registry.{ResolvedPair}
use st0x_oracle_server.Session.{SessionRefusal, invalid, missing}
use st0x_oracle_server.Signer.{Attempt}
use st0x_oracle_server.Base.Errors.{map_ok}
use st0x_oracle_server.Pricing.{QuoteSnapshot}

unfoldable pub quote_is_live : (expiry checked_at : ℤ) → (signs_expiry : Bool) → Bool
quote_is_live expiry checked_at signs_expiry =
    ltb_ℤ checked_at expiry
    && (not signs_expiry || ltb_ℤ (div_euclid checked_at 1000) (div_euclid expiry 1000))

-- The deadline counts only when it is positive.
abbrev pub positive : Option ℤ → Option ℤ
positive none = none
positive (some d) = if ltb_ℤ (pos 0) d then some d else none

unfoldable pub effective_expiry_unix_ms : Quote → Result AppError ℤ
effective_expiry_unix_ms q =
    map_ok (λ d. min_ℤ q.expiry_unix_ms d)
      (ok_or (positive q.execution_deadline_unix_ms) (unavailable expired_quote deadline_missing))

abbrev pub whole_seconds : Fault → ℤ → Result AppError ℕ
whole_seconds fault ms = ok_or (u64_try_from (div_trunc ms 1000)) (internal fault)

unfoldable pub publish_time_from_quote : Quote → Result AppError ℕ
publish_time_from_quote q = whole_seconds source_ts_out_of_range q.source_ts_unix_ms

unfoldable pub expiry_from_quote : Quote → Result AppError ℕ
unfolding effective_expiry_unix_ms
expiry_from_quote q =
    and_then (effective_expiry_unix_ms q) (whole_seconds quote_expiry_out_of_range)

-- The deadline binds: the effective expiry is the quote's execution deadline.
abbrev pub is_deadline : Quote → ℤ → Bool
is_deadline q effective = elim q.execution_deadline_unix_ms [
  | none ↦ false
  | some d ↦ d == effective
]

module _ (endpoint symbol : String) (phase : RefusalPhase) where
  abbrev pub no_live_quote_at : {A : Type 0} → M A
  no_live_quote_at = refuse no_live_quote endpoint symbol phase (no_live_quote_for symbol)

  abbrev pub expired_quote_at : {A : Type 0} → Detail → M A
  expired_quote_at detail = refuse expired_quote endpoint symbol phase detail

  unfoldable pub validate_expiry_deadline : (expiry checked_at : ℤ) → Bool → M {0} Unit
  validate_expiry_deadline expiry checked_at signs_expiry =
      if quote_is_live expiry checked_at signs_expiry
      then pure tt
      else expired_quote_at (quote_expired symbol expiry checked_at)

  unfoldable pub validate_quote_expiry : Quote → (checked_at : ℤ) → Bool → M {0} Unit
  validate_quote_expiry q checked_at signs_expiry = elim (effective_expiry_unix_ms q) [
    | err e ↦ expired_quote_at (deadline_missing_for symbol)
    | ok effective ↦
        if is_deadline q effective && not (quote_is_live effective checked_at signs_expiry)
        then expired_quote_at (deadline_elapsed symbol effective checked_at)
        else validate_expiry_deadline effective checked_at signs_expiry
  ]

module _ (sign : Word → ℕ → Attempt) (endpoint symbol : String) (phase : RefusalPhase) where
  unfoldable pub validate_quote_liveness : QuoteSnapshot → M {0} Unit
  validate_quote_liveness s = do
    live ← quote_live sign s.generation
    if live then pure tt else no_live_quote_at endpoint symbol phase

-- Both addresses that pricing used must be those of the request.
unfoldable pub validate_quote_address :
    Quote → ResolvedPair → Address → String → RefusalPhase → M {0} Unit
validate_quote_address q pair settlement endpoint phase w =
    if (q.base == pair.token) && (q.quote == settlement)
    then (ok tt, w)
    else no_live_quote_at endpoint pair.symbol phase
        (record w { mismatches = pair.symbol ∷ w.mismatches })

unfoldable pub session_refused : {A : Type 0} → String → String → SessionRefusal → M A
session_refused endpoint symbol missing =
    refuse missing_session endpoint symbol admission (no_session symbol)
session_refused endpoint symbol (invalid why) =
    refuse invalid_session endpoint symbol admission (bad_session symbol why)

unfoldable pub legacy_signature_unavailable : {A : Type 0} → String → String → M A
legacy_signature_unavailable endpoint symbol = refuse legacy_schema endpoint symbol admission legacy
