-- ===== src/Rates.antt =====
-- src/lib.rs: the rate that a request is answered with, inverted into ratio units.
pub mod Direction
pub mod Takers
use st0x_oracle_server.Base.Errors.{◌>>=◌}
use st0x_oracle_server.Wire.{External, Quote, Word}
use st0x_oracle_server.Base.{String, Result, map_err, if◌then◌else◌, err}
use st0x_oracle_server.Registry.{PriceDirection, quote_to_base, base_to_quote}
use st0x_oracle_server.Refusal.{AppError, internal, rate_not_inverted, rate_not_tested, zero_rate}

module _ (x : External) where
  abbrev inverted : String → Word → Result AppError Word
  inverted name rate = map_err (λ e. internal (rate_not_inverted name e)) (x.float_inv rate)

  unfoldable pub pick_rate_bytes : Quote → PriceDirection → Result AppError Word
  pick_rate_bytes q quote_to_base = inverted "rate_quote_to_base" q.rate_quote_to_base
  pick_rate_bytes q base_to_quote = inverted "rate_base_to_quote" q.rate_base_to_quote

  abbrev nonzero : String → Word → Result AppError Word
  nonzero name rate = do
    zero_ ← map_err (λ e. internal (rate_not_tested name e)) (x.float_is_zero rate)
    if zero_ then err (internal (zero_rate name)) else inverted name rate

  unfoldable pub pick_underlying_rate_bytes : Quote → PriceDirection → Result AppError Word
  pick_underlying_rate_bytes q quote_to_base =
      nonzero "underlying_rate_quote_to_base" q.underlying_rate_quote_to_base
  pick_underlying_rate_bytes q base_to_quote =
      nonzero "underlying_rate_base_to_quote" q.underlying_rate_base_to_quote
