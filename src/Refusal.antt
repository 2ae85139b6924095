-- ===== src/Refusal.antt =====
-- src/lib.rs: the errors of a request, and the refusals of a quote that are counted.
use st0x_oracle_server.Base.Int.{ℤ}
use st0x_oracle_server.Base.{String, ℕ}
use st0x_oracle_server.Session.{SessionFault}
use st0x_oracle_server.Context.{ContextError}
use st0x_oracle_server.Registry.{RegistryError}
use st0x_oracle_server.Signer.{SignError}

pub data RefusalPhase : Type 0 where
  admission pre_sign post_sign pre_reuse_return batch_final : RefusalPhase

unfoldable pub label : RefusalPhase → String
label admission = "admission"
label pre_sign = "pre_sign"
label post_sign = "post_sign"
label pre_reuse_return = "pre_reuse_return"
label batch_final = "batch_final"

pub data UnavailableReason : Type 0 where
  no_live_quote expired_quote legacy_schema missing_session invalid_session : UnavailableReason

abbrev pub reason_code : UnavailableReason → String
reason_code no_live_quote = "no_live_quote"
reason_code expired_quote = "expired_quote"
reason_code legacy_schema = "legacy_schema"
reason_code missing_session = "missing_session"
reason_code invalid_session = "invalid_session"

-- The texts of the errors, by what they are made of.
pub data Detail : Type 0 where
  no_live_quote_for : (symbol : String) → Detail
  deadline_missing : Detail
  deadline_missing_for : (symbol : String) → Detail
  deadline_elapsed : (symbol : String) → (effective checked_at : ℤ) → Detail
  quote_expired : (symbol : String) → (expiry checked_at : ℤ) → Detail
  exceeds_bound : Detail
  no_session : (symbol : String) → Detail
  bad_session : (symbol : String) → SessionFault → Detail
  legacy : Detail

pub data Fault : Type 0 where
  source_ts_out_of_range quote_expiry_out_of_range stored_expiry_out_of_range : Fault
  clock_before_1970 : Fault
  rate_not_inverted rate_not_tested : (name why : String) → Fault
  zero_rate : (name : String) → Fault
  context_fault : ContextError → Fault
  sign_fault : SignError → Fault
  no_expiry : (schema : String) → Fault

pub data Mistake : Type 0 where
  invalid_input_index invalid_output_index : (index inputs : ℕ) → Mistake
  refused_pair : RegistryError → Mistake
  invalid_body : (why : String) → Mistake

pub data AppError : Type 0 where
  internal : Fault → AppError
  bad_request : Mistake → AppError
  unavailable : UnavailableReason → Detail → AppError

unfoldable pub status_code : AppError → ℕ
status_code (internal e) = 500
status_code (bad_request e) = 400
status_code (unavailable r d) = 503

unfoldable pub code : AppError → String
code (internal e) = "internal_error"
code (bad_request e) = "bad_request"
code (unavailable r d) = reason_code r

-- The JSON body of an error: its code, and the text of its detail by the error it is made of.
pub record ErrorResponse : Type 0 where
  pub error : String
  pub detail : AppError

abbrev pub to_error_response : AppError → ErrorResponse
to_error_response e = record { error = code e; detail = e }

-- One count of `oracle_quote_refusals_total`.
pub record Refusal : Type 0 where
  pub reason : UnavailableReason
  pub endpoint : String
  pub symbol : String
  pub phase : RefusalPhase
