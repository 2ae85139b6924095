-- ===== src/Response/Authentic.antt =====
-- Every response that is built carries a signature that the key made of the response's context.
use st0x_oracle_server.World.Ensures.{
  Ensures, Any, Ensures-pure, Ensures-refuse, Ensures-bind, now_unix_ms-Ensures, Ensures-lift-Any,
  current-Ensures, look_up-Ensures, sign_context-Ensures, keep-Ensures,
}
use st0x_oracle_server.Validity.{session_refused}
use st0x_oracle_server.Wire.{External, Word, Address}
use st0x_oracle_server.Base.{ℕ, inl, inr, true, Option, List, some, none, bytes_eq}
use st0x_oracle_server.Signer.{Attempt}
use st0x_oracle_server.Refusal.{RefusalPhase, admission, pre_reuse_return, pre_sign, post_sign}
use st0x_oracle_server.Pricing.{QuoteSnapshot}
use st0x_oracle_server.Base.Errors.{Result-cases}
use st0x_oracle_server.Session.{missing, invalid}
use st0x_oracle_server.World.{current, lift}
use st0x_oracle_server.Registry.{ResolvedPair}
use st0x_oracle_server.Response.{
  PairSchema, live_at, checked, admit, session_of, candidate, BuiltResponse, return_stored, tag,
  now_unix_ms, signs_expiry, sign_fresh, Candidate, build_response_from_quote_pair_bound,
  reuse_within, or_sign, try_reuse, when_found, store_response,
}
use st0x_oracle_server.World.Trusted.{Authentic, AuthenticFound}
use st0x_oracle_server.Reuse.{ReusedResponse}
use st0x_oracle_server.Session.{from_quote, invalid}
use st0x_oracle_server.Context.{OracleResponse}
use st0x_oracle_server.Validity.Trusted.{
  validate_quote_liveness-Ensures, validate_quote_expiry-Ensures, validate_quote_address-Ensures,
  validate_expiry_deadline-Ensures,
}

module _ (x : External) (sign : Word → ℕ → Attempt) where
  abbrev pub AuthenticBuilt : BuiltResponse → Type 0
  AuthenticBuilt b = Authentic x sign b.response

  abbrev AuthenticReused : Option BuiltResponse → Type 0
  AuthenticReused none = Unit
  AuthenticReused (some b) = AuthenticBuilt b

module _ (x : External) (sign : Word → ℕ → Attempt) (chain_id : ℕ) (pair : ResolvedPair)
    (quote : QuoteSnapshot) (schema : PairSchema) where
  live_at-Ensures :
      (phase : RefusalPhase) → Ensures x sign Any (live_at x sign chain_id pair quote schema phase)
  live_at-Ensures phase =
      validate_quote_liveness-Ensures x sign (tag schema) pair.symbol phase quote

  checked-Ensures :
      (phase : RefusalPhase) → Ensures x sign Any (checked x sign chain_id pair quote schema phase)
  checked-Ensures phase = Ensures-bind (now_unix_ms sign) _ now_unix_ms-Ensures (λ now p.
      validate_quote_expiry-Ensures x sign (tag schema) pair.symbol phase quote.quote now
        (signs_expiry schema))

  admit-Ensures : Ensures x sign Any (admit x sign chain_id pair quote schema)
  unfolding admit
  admit-Ensures =
      Ensures-bind (live_at x sign chain_id pair quote schema admission) _
        (live_at-Ensures admission)
        (λ live p. Ensures-bind (current sign) _ current-Ensures (λ registry p.
          Ensures-bind _ _
            (validate_quote_address-Ensures x sign (tag schema) pair.symbol admission quote.quote
              pair registry.quote_token)
            (λ address p. checked-Ensures admission)))

  session-Ensures : Ensures x sign Any (session_of x sign chain_id pair quote schema)
  unfolding session_refused
  session-Ensures = elim (Result-cases (from_quote quote.quote)) [
    | inl (session, e) ↦ rw (session_of, e) (Ensures-pure session tt)
    | inr (missing, e) ↦ rw (session_of, e) (search (Ensures-refuse))
    | inr (invalid why, e) ↦ rw (session_of, e) (search (Ensures-refuse))
  ]

  module _ (input_token output_token : Address) where
    candidate-Ensures :
        Ensures x sign Any (candidate x sign chain_id pair quote schema input_token output_token)
    unfolding candidate
    candidate-Ensures = Ensures-bind (lift _) _ (Ensures-lift-Any _) (λ publish p.
        Ensures-bind _ _ session-Ensures (λ session p.
          Ensures-bind (lift _) _ (Ensures-lift-Any _) (λ price p.
            Ensures-bind (lift _) _ (Ensures-lift-Any _) (λ expiry p.
              Ensures-bind (lift _) _ (Ensures-lift-Any _) (λ context p. Ensures-pure _ tt)))))

    return_stored-Ensures :
        (previous : ReusedResponse)
        → Authentic x sign previous.response
        → Ensures x sign
            (AuthenticBuilt x sign)
            (return_stored x sign chain_id pair quote schema input_token output_token previous)
    unfolding return_stored
    return_stored-Ensures previous a =
        Ensures-bind (now_unix_ms sign) _ now_unix_ms-Ensures (λ now p.
          Ensures-bind _ _ (live_at-Ensures pre_reuse_return) (λ live p.
            Ensures-bind (lift _) _ (Ensures-lift-Any _) (λ expiry p.
              Ensures-bind _ _
                (validate_expiry_deadline-Ensures x sign (tag schema) pair.symbol pre_reuse_return
                  expiry now true)
                (λ fresh_ p. Ensures-pure _ a))))

    when_found-Ensures :
        (found : Option ReusedResponse)
        → AuthenticFound x sign found
        → Ensures x sign
            (AuthenticReused x sign)
            (when_found x sign chain_id pair quote schema input_token output_token found)
    when_found-Ensures none a = Ensures-pure none tt
    when_found-Ensures (some previous) a =
        Ensures-bind _ _ (return_stored-Ensures previous a) (λ b p. Ensures-pure (some b) p)

    reuse_within-Ensures :
        (context : List Word) (expiry : Option ℕ)
        → Ensures x sign
            (AuthenticReused x sign)
            (reuse_within x sign chain_id pair quote schema input_token output_token context expiry)
    reuse_within-Ensures context none = Ensures-pure none tt
    reuse_within-Ensures context (some expiry) =
        Ensures-bind _ _ (live_at-Ensures pre_sign) (λ live p.
          Ensures-bind (now_unix_ms sign) _ now_unix_ms-Ensures (λ now p.
            Ensures-bind (lift _) _ (Ensures-lift-Any _) (λ now_secs p.
              Ensures-bind _ _ (look_up-Ensures _ context expiry now_secs quote.generation)
                (λ found a. when_found-Ensures found a))))

    store-Ensures :
        (expiry : Option ℕ) (r : OracleResponse)
        → Authentic x sign r
        → Ensures x sign Any
            (store_response x sign chain_id pair quote schema input_token output_token expiry r)
    store-Ensures none r a = Ensures-pure tt tt
    store-Ensures (some expiry) r a = keep-Ensures _ expiry r quote.generation a

    sign_fresh-Ensures :
        (c : Candidate)
        → Ensures x sign
            (AuthenticBuilt x sign)
            (sign_fresh x sign chain_id pair quote schema input_token output_token c)
    unfolding sign_fresh
    sign_fresh-Ensures c = Ensures-bind _ _ (live_at-Ensures pre_sign) (λ live p.
        Ensures-bind _ _ (checked-Ensures pre_sign) (λ before p.
          Ensures-bind _ _ (sign_context-Ensures c.context) (λ (signature, signer) (signs, own).
            Ensures-bind (now_unix_ms sign) _ now_unix_ms-Ensures (λ now p.
              Ensures-bind _ _ (live_at-Ensures post_sign) (λ still p.
                Ensures-bind _ _
                  (validate_quote_expiry-Ensures x sign (tag schema) pair.symbol post_sign
                    quote.quote now (signs_expiry schema))
                  (λ after p.
                    Ensures-bind _ _
                      (store-Ensures c.expiry _ (record { signature = signs; signer = own }))
                      (λ kept p. Ensures-bind (lift _) _ (Ensures-lift-Any _) (λ validity p.
                        Ensures-pure _ (record { signature = signs; signer = own })))))))))

    or_sign-Ensures :
        (c : Candidate) (reused : Option BuiltResponse)
        → AuthenticReused x sign reused
        → Ensures x sign
            (AuthenticBuilt x sign)
            (or_sign x sign chain_id pair quote schema input_token output_token c reused)
    or_sign-Ensures c none a = sign_fresh-Ensures c
    or_sign-Ensures c (some b) a = Ensures-pure b a

    -- Whatever others do meanwhile, a response that is built carries a signature that the key made
    -- of the response's own context, freshly or earlier, and names the key's address.
    pub build_response-Ensures : Ensures x sign (AuthenticBuilt x sign) (
        build_response_from_quote_pair_bound x sign chain_id pair quote schema input_token
          output_token)
    unfolding build_response_from_quote_pair_bound try_reuse
    build_response-Ensures = Ensures-bind _ _ admit-Ensures (λ admitted p.
        Ensures-bind _ _ candidate-Ensures (λ c p.
          Ensures-bind _ _ (reuse_within-Ensures c.context c.expiry)
            (λ reused a. or_sign-Ensures c reused a)))
