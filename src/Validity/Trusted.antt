-- ===== src/Validity/Trusted.antt =====
-- The checks of a quote keep a trusted state.
use st0x_oracle_server.World.Ensures.{
  Ensures, Any, Ensures-pure, Ensures-refuse, Ensures-if, Ensures-bind, quote_live-Ensures,
  ensures_rules,
}
use st0x_oracle_server.Validity.{
  validate_quote_liveness, validate_quote_expiry, validate_expiry_deadline,
  effective_expiry_unix_ms, validate_quote_address,
}
use st0x_oracle_server.Wire.{External, Word, Quote, Address}
use st0x_oracle_server.Base.{ℕ, String, Bool, inl, inr, Bool-cases, ◌==◌, ◌&&◌, bytes_eq, refl}
use st0x_oracle_server.Signer.{Attempt}
use st0x_oracle_server.Refusal.{RefusalPhase}
use st0x_oracle_server.Pricing.{QuoteSnapshot}
use st0x_oracle_server.Base.Int.{ℤ}
use st0x_oracle_server.Base.Errors.{Result-cases}
use st0x_oracle_server.World.{quote_live}
use st0x_oracle_server.Registry.{ResolvedPair}

module _ (x : External) (sign : Word → ℕ → Attempt) (endpoint symbol : String)
    (phase : RefusalPhase) where
  pub validate_quote_liveness-Ensures :
      (s : QuoteSnapshot)
      → Ensures x sign Any (validate_quote_liveness sign endpoint symbol phase s)
  unfolding validate_quote_liveness
  validate_quote_liveness-Ensures s =
      Ensures-bind (quote_live sign s.generation) _ (quote_live-Ensures s.generation)
        (λ live p. Ensures-if live _ _ (Ensures-pure tt tt) (search (Ensures-refuse)))

  pub validate_expiry_deadline-Ensures :
      (expiry checked_at : ℤ) (signs : Bool)
      → Ensures x sign Any (validate_expiry_deadline endpoint symbol phase expiry checked_at signs)
  unfolding validate_expiry_deadline
  validate_expiry_deadline-Ensures expiry checked_at signs = search ensures_rules

  pub validate_quote_expiry-Ensures :
      (q : Quote) (checked_at : ℤ) (signs : Bool)
      → Ensures x sign Any (validate_quote_expiry endpoint symbol phase q checked_at signs)
  unfolding validate_quote_expiry
  validate_quote_expiry-Ensures q checked_at signs =
      elim (Result-cases (effective_expiry_unix_ms q)) [
        | inl (effective, e) ↦
            rw (validate_quote_expiry, e) (search (ensures_rules, validate_expiry_deadline-Ensures))
        | inr (why, e) ↦ rw (validate_quote_expiry, e) (search (Ensures-refuse))
      ]

  pub validate_quote_address-Ensures :
      (q : Quote) (pair : ResolvedPair) (settlement : Address)
      → Ensures x sign Any (validate_quote_address q pair settlement endpoint phase)
  unfolding validate_quote_address
  validate_quote_address-Ensures q pair settlement = record {
    at = λ w t. elim (Bool-cases ((q.base == pair.token) && (q.quote == settlement))) [
      | inl e ↦ rw e (t, tt)
      | inr e ↦ rw e (record { signer = t.signer; reuse = t.reuse; others = t.others }, tt)
    ];
    requests = λ w t. elim (Bool-cases ((q.base == pair.token) && (q.quote == settlement))) [
      | inl e ↦ rw e refl
      | inr e ↦ rw e refl
    ];
  }
