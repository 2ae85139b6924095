-- ===== src/Rates/Direction.antt =====
-- The rate of an answer is that of the taker's own direction, inverted.
use st0x_oracle_server.Wire.{Quote, External, Word}
use st0x_oracle_server.Registry.{PriceDirection, quote_to_base, base_to_quote}
use st0x_oracle_server.Rates.{pick_rate_bytes, pick_underlying_rate_bytes}
use st0x_oracle_server.Base.{◌≡◌, ok, ◌↔◌, arith, false}

-- An order that takes the settlement token in is filled by takers that swap it for the base.
abbrev pub taker_rate : Quote → PriceDirection → Word
taker_rate q quote_to_base = q.rate_quote_to_base
taker_rate q base_to_quote = q.rate_base_to_quote

abbrev pub taker_underlying_rate : Quote → PriceDirection → Word
taker_underlying_rate q quote_to_base = q.underlying_rate_quote_to_base
taker_underlying_rate q base_to_quote = q.underlying_rate_base_to_quote

module _ (x : External) (q : Quote) (r : Word) where
  rates :
      (d : PriceDirection) → (pick_rate_bytes x q d ≡ ok r) ↔ (x.float_inv (taker_rate q d) ≡ ok r)
  unfolding pick_rate_bytes
  rates quote_to_base = ground arith
  rates base_to_quote = ground arith

  underlying_rates :
      (d : PriceDirection)
      → (pick_underlying_rate_bytes x q d ≡ ok r) ↔ (
          (x.float_is_zero (taker_underlying_rate q d) ≡ ok false)
          × (x.float_inv (taker_underlying_rate q d) ≡ ok r))
  unfolding pick_underlying_rate_bytes
  underlying_rates quote_to_base = ground arith
  underlying_rates base_to_quote = ground arith

  -- Each pick gives the inverse of the rate of its direction, and the underlying one only where that
  -- rate is known not to be zero.
  pub price_bytes-eq-ok_iff :
      (d : PriceDirection)
      → ((pick_rate_bytes x q d ≡ ok r) ↔ (x.float_inv (taker_rate q d) ≡ ok r))
        × ((pick_underlying_rate_bytes x q d ≡ ok r) ↔ (
            (x.float_is_zero (taker_underlying_rate q d) ≡ ok false)
            × (x.float_inv (taker_underlying_rate q d) ≡ ok r)))
  price_bytes-eq-ok_iff d = (rates d, underlying_rates d)
