-- ===== src/Registry/Resolve.antt =====
-- What a resolved pair says about the order's tokens.
use st0x_oracle_server.Base.{
  ◌≡◌, refl, ◌≢◌, ◌⊎◌, ◌↔◌, some, ok, arith, bytes_beq_iff, bytes_eq, inr,
}
use st0x_oracle_server.Base.HashMap
use st0x_oracle_server.Wire.{Address}
use st0x_oracle_server.Registry.{TokenRegistry, quote_to_base, base_to_quote, ResolvedPair, resolve}

-- One side of the order is the settlement token, the pair's token is the other side and is
-- registered under the symbol, and the direction says which side is which.
abbrev pub Resolves : TokenRegistry → Address → Address → ResolvedPair → Type 0
Resolves r input output p =
    (HashMap.get p.token r.tokens ≡ some p.symbol)
    × (((p.direction ≡ quote_to_base) × (input ≡ r.quote_token) × (output ≡ p.token))
        ⊎ ((p.direction ≡ base_to_quote)
            × (output ≡ r.quote_token)
            × (input ≡ p.token)
            × (input ≢ r.quote_token)))

module _ (r : TokenRegistry) (input output : Address) (p : ResolvedPair) where
  pub resolve-Resolves : resolve r input output ≡ ok p → Resolves r input output p
  unfolding resolve
  resolve-Resolves h =
      ground (arith, bytes_beq_iff input r.quote_token, bytes_beq_iff output r.quote_token)

  pub Resolves-resolve : Resolves r input output p → resolve r input output ≡ ok p
  unfolding resolve
  Resolves-resolve h =
      ground (arith, bytes_beq_iff input r.quote_token, bytes_beq_iff output r.quote_token)

  -- `resolve` answers exactly for orders between the settlement token and a registered token.
  pub resolve-eq-ok_iff : (resolve r input output ≡ ok p) ↔ Resolves r input output p
  resolve-eq-ok_iff = (resolve-Resolves, Resolves-resolve)

-- The final check of a batch resolves a pair's token against the settlement token: it finds the
-- symbol under which the token is registered, whatever direction the order had.
pub resolve-token :
    (r : TokenRegistry) (input output : Address) (p : ResolvedPair)
    → resolve r input output ≡ ok p
    → p.token ≢ r.quote_token
    → resolve r p.token r.quote_token ≡ ok (record p { direction = base_to_quote })
resolve-token r input output p h ne =
    Resolves-resolve r p.token r.quote_token (record p { direction = base_to_quote })
      ((resolve-Resolves r input output p h).0, inr (refl, refl, refl, ne))
