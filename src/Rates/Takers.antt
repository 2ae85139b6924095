-- ===== src/Rates/Takers.antt =====
-- The price of a resolved pair: the rate for the takers of the order, inverted.
use st0x_oracle_server.Wire.{External, Word, Address, Quote}
use st0x_oracle_server.Base.{◌≡◌, ok, arith, ◌⊎◌, ◌≢◌, false, inl, inr}
use st0x_oracle_server.Registry.{TokenRegistry, ResolvedPair, resolve}
use st0x_oracle_server.Registry.Resolve.{resolve-Resolves}
use st0x_oracle_server.Rates.{pick_rate_bytes, pick_underlying_rate_bytes}

module _ (x : External) (r : TokenRegistry) (input output : Address) (q : Quote) where
  -- An order that takes the settlement token is filled by takers who swap it for the base token, any
  -- other by takers who swap back.
  abbrev pub ForTakers : (Word → Type 0) → (to_base to_quote : Word) → Type 0
  ForTakers P to_base to_quote =
      ((input ≡ r.quote_token) × P to_base)
      ⊎ ((output ≡ r.quote_token) × (input ≢ r.quote_token) × P to_quote)

  abbrev pub SharePrice : Word → Type 0
  SharePrice price =
      ForTakers (λ rate. x.float_inv rate ≡ ok price) q.rate_quote_to_base q.rate_base_to_quote

  abbrev pub UnderlyingPrice : Word → Type 0
  UnderlyingPrice price =
      ForTakers (λ rate. (x.float_is_zero rate ≡ ok false) × (x.float_inv rate ≡ ok price))
        q.underlying_rate_quote_to_base q.underlying_rate_base_to_quote

  module _ (pair : ResolvedPair) (h : resolve r input output ≡ ok pair) where
    pub pick-SharePrice :
        (price : Word) → pick_rate_bytes x q pair.direction ≡ ok price → SharePrice price
    unfolding pick_rate_bytes
    pick-SharePrice price e = elim (resolve-Resolves r input output pair h).1 [
      | inl (d, i, o) ↦ inl (i, ground (arith, d))
      | inr (d, o, i, n) ↦ inr (o, n, ground (arith, d))
    ]

    pub pick-UnderlyingPrice :
        (price : Word)
        → pick_underlying_rate_bytes x q pair.direction ≡ ok price
        → UnderlyingPrice price
    unfolding pick_underlying_rate_bytes
    pick-UnderlyingPrice price e = elim (resolve-Resolves r input output pair h).1 [
      | inl (d, i, o) ↦ inl (i, ground (arith, d))
      | inr (d, o, i, n) ↦ inr (o, n, ground (arith, d))
    ]
