-- ===== src/Batch/Revalidated.antt =====
-- The last check passes on only responses that are signed by the key.
use st0x_oracle_server.Base.HashMap
use st0x_oracle_server.World.{World, lift, pure}
use st0x_oracle_server.World.Trusted.{Authentic, Trusted}
use st0x_oracle_server.World.Ensures.{
  Ensures, IfOk, Any, Ensures-pure, Ensures-lift-Any, Ensures-refuse, Ensures-bind, ensures_rules,
}
use st0x_oracle_server.Batch.{
  BuiltSlot, revalidate, revalidate_slot, revalidate_batch, mapped, current_quote, within_bound,
}
use st0x_oracle_server.Wire.{External, Word, Quote}
use st0x_oracle_server.Base.{
  ℕ, String, Bool, Result, List, ok, All, inl, err, ◌∷◌, inr, [], Option-cases, if◌then◌else◌,
  string_eq, ◌≡◌, ◌∙◌, refl,
}
use st0x_oracle_server.Signer.{Attempt}
use st0x_oracle_server.Refusal.{AppError, batch_final, exceeds_bound}
use st0x_oracle_server.Base.Int.{ℤ}
use st0x_oracle_server.Pricing.{QuoteSnapshot}
use st0x_oracle_server.Registry.{TokenRegistry, ResolvedPair}
use st0x_oracle_server.Validity.{effective_expiry_unix_ms, expired_quote_at}
use st0x_oracle_server.Validity.Trusted.{
  validate_quote_liveness-Ensures, validate_expiry_deadline-Ensures, validate_quote_address-Ensures,
  validate_quote_expiry-Ensures,
}
use st0x_oracle_server.Batch.Trusted.{next-Trusted, next-requests}

-- The response of a slot was signed by the key.
abbrev pub AuthenticSlot : External → (Word → ℕ → Attempt) → BuiltSlot → Type 0
AuthenticSlot x sign slot = Authentic x sign slot.response.response

module _ (x : External) (sign : Word → ℕ → Attempt) (endpoint : String) (signs : Bool)
    (checked_at : ℤ) (now_quotes : List (String × QuoteSnapshot)) (registry : TokenRegistry) where
  mapped-Ensures :
      (pair : ResolvedPair)
      → Ensures x sign Any (mapped sign endpoint signs checked_at now_quotes registry pair)
  mapped-Ensures pair = search ensures_rules

  current_quote-Ensures :
      (symbol : String)
      → Ensures x sign Any (current_quote sign endpoint signs checked_at now_quotes registry symbol)
  current_quote-Ensures symbol = elim (Option-cases (HashMap.get symbol now_quotes)) [
    | inl e ↦ rw (current_quote, e) (search (Ensures-refuse))
    | inr (s, e) ↦ rw (current_quote, e) (Ensures-pure s tt)
  ]

  too_long-Ensures :
      (b : Bool) (symbol : String)
      → Ensures x sign {A = Unit} Any
          (if b then expired_quote_at endpoint symbol batch_final exceeds_bound else pure tt)
  too_long-Ensures b symbol = search ensures_rules

  within_bound-Ensures :
      (slot : BuiltSlot) (q : Quote)
      → Ensures x sign Any (within_bound sign endpoint signs checked_at now_quotes registry slot q)
  within_bound-Ensures slot q =
      Ensures-bind (lift _) _ (Ensures-lift-Any (effective_expiry_unix_ms q))
        (λ bound p. too_long-Ensures _ slot.pair.symbol)

  bound-Ensures :
      (slot : BuiltSlot) (q : Quote)
      → Ensures x sign {A = Unit} Any (
          if signs
          then within_bound sign endpoint signs checked_at now_quotes registry slot q
          else pure tt)
  bound-Ensures slot q = search (ensures_rules, within_bound-Ensures)

  revalidate-Ensures :
      (slot : BuiltSlot)
      → AuthenticSlot x sign slot
      → Ensures x sign
          (Authentic x sign)
          (revalidate sign endpoint signs checked_at now_quotes registry slot)
  unfolding revalidate
  revalidate-Ensures slot a =
      let symbol = slot.pair.symbol in
      Ensures-bind _ _ (mapped-Ensures slot.pair) (λ kept p.
        Ensures-bind _ _
          (validate_quote_liveness-Ensures x sign endpoint symbol batch_final slot.quote)
          (λ alive p.
            Ensures-bind _ _
              (validate_expiry_deadline-Ensures x sign endpoint symbol batch_final
                slot.response.validity_expiry_unix_ms checked_at signs)
              (λ ahead p. Ensures-bind _ _ (current_quote-Ensures symbol) (λ now p.
                Ensures-bind _ _
                  (validate_quote_liveness-Ensures x sign endpoint symbol batch_final now)
                  (λ still p.
                    Ensures-bind _ _
                      (validate_quote_address-Ensures x sign endpoint symbol batch_final now.quote
                        slot.pair registry.quote_token)
                      (λ address p.
                        Ensures-bind _ _
                          (validate_quote_expiry-Ensures x sign endpoint symbol batch_final
                            now.quote checked_at signs)
                          (λ expiry p.
                            Ensures-bind _ _ (bound-Ensures slot now.quote)
                              (λ bound p. Ensures-pure _ a))))))))

  revalidate_slot-Trusted :
      (slot : Result AppError BuiltSlot) (w : World)
      → IfOk (AuthenticSlot x sign) slot
      → Trusted x sign w
      → Trusted x sign (revalidate_slot sign endpoint signs checked_at now_quotes registry slot w).1
        × IfOk
            (Authentic x sign)
            (revalidate_slot sign endpoint signs checked_at now_quotes registry slot w).0
  revalidate_slot-Trusted (ok slot) w a t = (revalidate-Ensures slot a).at w t
  revalidate_slot-Trusted (err e) w a t = (t, tt)

  revalidate_slot-requests :
      (slot : Result AppError BuiltSlot) (w : World)
      → IfOk (AuthenticSlot x sign) slot
      → Trusted x sign w
      → (revalidate_slot sign endpoint signs checked_at now_quotes registry slot w).1.requests
        ≡ w.requests
  revalidate_slot-requests (ok slot) w a t = (revalidate-Ensures slot a).requests w t
  revalidate_slot-requests (err e) w a t = refl

  pub revalidate_batch-Ensures :
      (slots : List (Result AppError BuiltSlot)) (envelope : Bool)
      → All (IfOk (AuthenticSlot x sign)) slots
      → Ensures x sign
          (All (IfOk (Authentic x sign)))
          (revalidate_batch sign endpoint signs checked_at now_quotes registry slots envelope)
  unfolding revalidate_batch
  revalidate_batch-Ensures [] envelope a = record { at = λ w t. (t, tt); requests = λ w t. refl }
  revalidate_batch-Ensures (slot ∷ slots) envelope a = record {
    at = λ w t.
        let (t', p) = revalidate_slot-Trusted slot w a.0 t in
        next-Trusted envelope _ _ t' p (revalidate_batch-Ensures slots envelope a.1);
    requests = λ w t.
        next-requests envelope _ _ (revalidate_slot-Trusted slot w a.0 t).0
          (revalidate_batch-Ensures slots envelope a.1)
        ∙ revalidate_slot-requests slot w a.0 t;
  }
