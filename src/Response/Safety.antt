-- ===== src/Response/Safety.antt =====
-- Every returned response was checked, whether it was signed now or earlier.
use st0x_oracle_server.World.{World, continue-eq-ok, lift, current}
use st0x_oracle_server.Base.{
  none, some, ℕ, Option, ◌≡◌, ok, arith, subst, inr, Result, inl, refl, ◌∙◌, ap,
}
use st0x_oracle_server.Wire.{External, Word, Address}
use st0x_oracle_server.Signer.{Attempt}
use st0x_oracle_server.Registry.{ResolvedPair, TokenRegistry}
use st0x_oracle_server.Pricing.{QuoteSnapshot}
use st0x_oracle_server.Response.{
  PairSchema, Candidate, BuiltResponse, signs_expiry, live_at, now_unix_ms, candidate, admit,
  or_sign, build_response_from_quote_pair_bound, session_of, try_reuse, tag, price_bytes, expiry_of,
  context_of,
}
use st0x_oracle_server.Response.Checked.{live-Forward, sign_fresh-Checked}
use st0x_oracle_server.World.Passes.{
  Passes, Passes-trans, no_step, bind-ok, now_unix_ms-Forward, Forward, bind-Forward,
  current-Forward, refuse-Forward, moves,
}
use st0x_oracle_server.Refusal.{
  AppError, admission, missing_session, no_session, invalid_session, bad_session,
}
use st0x_oracle_server.Validity.{
  session_refused, publish_time_from_quote, validate_quote_address, validate_quote_expiry,
}
use st0x_oracle_server.Session.{SessionRefusal, SignedSession, from_quote, invalid, missing}
use st0x_oracle_server.Base.Errors.{Result-cases}
use st0x_oracle_server.Validity.Checks.{
  validate_quote_address-Forward, validate_quote_expiry-Forward, validate_quote_address-ok,
}
use st0x_oracle_server.Response.Returned.{Good, prepend, reuse_within-Good}

module _ (x : External) (sign : Word → ℕ → Attempt) (chain_id : ℕ) (pair : ResolvedPair)
    (quote : QuoteSnapshot) (schema : PairSchema) (input_token output_token : Address) where
  lifted : {A : Type 0} (r : Result AppError A) → Forward sign (lift r)
  lifted r w = no_step

  refused_session-Forward :
      (refusal : SessionRefusal)
      → Forward sign (session_refused {A = SignedSession} (tag schema) pair.symbol refusal)
  unfolding session_refused
  refused_session-Forward missing =
      refuse-Forward sign SignedSession missing_session (tag schema) pair.symbol admission
        (no_session pair.symbol)
  refused_session-Forward (invalid why) =
      refuse-Forward sign SignedSession invalid_session (tag schema) pair.symbol admission
        (bad_session pair.symbol why)

  session-Forward : Forward sign (session_of x sign chain_id pair quote schema)
  session-Forward w = elim (Result-cases (from_quote quote.quote)) [
    | inl (s, e) ↦ rw (e, session_of) no_step
    | inr (f, e) ↦ rw (e, session_of) (refused_session-Forward f w)
  ]

  candidate-Forward :
      Forward sign (candidate x sign chain_id pair quote schema input_token output_token)
  unfolding candidate
  candidate-Forward =
      bind-Forward sign (lift (publish_time_from_quote quote.quote)) _
        (lifted (publish_time_from_quote quote.quote))
        (λ publish.
          bind-Forward sign (session_of x sign chain_id pair quote schema) _ session-Forward
            (λ session.
              bind-Forward sign
                (lift (price_bytes x sign chain_id schema quote.quote pair.direction)) _
                (lifted (price_bytes x sign chain_id schema quote.quote pair.direction))
                (λ price.
                  bind-Forward sign (lift (expiry_of x sign chain_id pair quote schema)) _
                    (lifted (expiry_of x sign chain_id pair quote schema))
                    (λ expiry.
                      bind-Forward sign
                        (lift (
                          context_of x sign chain_id quote.quote price publish session input_token
                            output_token schema expiry))
                        _
                        (lifted (
                          context_of x sign chain_id quote.quote price publish session input_token
                            output_token schema expiry))
                        (λ context w. no_step)))))

  -- The quote was priced for the token of the pair and the settlement token of a set that ran on the
  -- way.
  abbrev pub PricedFor : World → World → Type 0
  PricedFor w w' =
      (quote.quote.base ≡ pair.token)
      × (t : World) × Passes sign w t
      × Passes sign t w'
      × (quote.quote.quote ≡ t.tokens.quote_token)

  current-ok : (w v : World) (r : TokenRegistry) → current sign w ≡ (ok r, v) → r ≡ v.tokens
  unfolding current
  current-ok w v r h = ground arith

  admit-ok :
      (w v : World) (u : Unit {0})
      → admit x sign chain_id pair quote schema w ≡ (ok u, v)
      → Passes sign w v × PricedFor w v
  unfolding admit
  admit-ok w v u h0 =
      let (u1, w1, e1, l1, h1) =
        bind-ok sign (live_at x sign chain_id pair quote schema admission) _ w
          (live-Forward x sign chain_id pair quote schema input_token output_token admission) h0 in
      let (registry, w2, e2, l2, h2) = bind-ok sign (current sign) _ w1 (current-Forward sign) h1 in
      let (u3, w3, e3, l3, h3) =
        bind-ok sign
          (validate_quote_address quote.quote pair registry.quote_token (tag schema) admission) _ w2
          (validate_quote_address-Forward sign quote.quote pair registry.quote_token (tag schema)
            admission)
          h2 in
      let (now, w4, e4, l4, h4) =
        bind-ok sign (now_unix_ms sign) _ w3 (now_unix_ms-Forward sign) h3 in
      let last =
        moves sign
          (validate_quote_expiry (tag schema) pair.symbol admission quote.quote now
            (signs_expiry schema))
          (validate_quote_expiry-Forward sign (tag schema) pair.symbol admission quote.quote now
            (signs_expiry schema))
          h4 in
      let (base, settlement, same) =
        validate_quote_address-ok sign quote.quote pair registry.quote_token (tag schema) admission
          w2 w3 e3 in
      let to_set = Passes-trans sign l1 l2 in
      let rest = Passes-trans sign l3 (Passes-trans sign l4 last) in
      (
        Passes-trans sign to_set rest,
        (
          base,
          w2,
          to_set,
          rest,
          settlement ∙ ap (λ (r : TokenRegistry). r.quote_token) (current-ok w1 w2 registry e2),
        ),
      )

  or_sign-Good :
      (c : Candidate) (w v w' : World) (r : Option BuiltResponse) (b : BuiltResponse)
      → (r ≡ none → Passes sign w v)
      → ((d : BuiltResponse)
          → r ≡ some d
          → Good x sign chain_id pair quote schema input_token output_token c w v d)
      → or_sign x sign chain_id pair quote schema input_token output_token c r v ≡ (ok b, w')
      → Good x sign chain_id pair quote schema input_token output_token c w w' b
  or_sign-Good c w v w' none b l g h =
      let (k, context, binds, asked) =
        sign_fresh-Checked x sign chain_id pair quote schema input_token output_token c v w' b h in
      prepend x sign chain_id pair quote schema input_token output_token c w v w' b (l refl)
        (k, inl (context, binds, asked))
  or_sign-Good c w v w' (some d) b l g h =
      let same : d ≡ b = ground arith in
      let last : v ≡ w' = ground arith in
      subst (λ u. Good x sign chain_id pair quote schema input_token output_token c w u b) last
        (subst (λ e. Good x sign chain_id pair quote schema input_token output_token c w v e) same
          (g d refl))

  pub build_response-Checked :
      (w w' : World) (b : BuiltResponse)
      → build_response_from_quote_pair_bound x sign chain_id pair quote schema input_token
          output_token w
        ≡ (ok b, w')
      → PricedFor w w'
        × (c : Candidate) × (u v : World) × Passes sign w u
        × (candidate x sign chain_id pair quote schema input_token output_token u ≡ (ok c, v))
        × Good x sign chain_id pair quote schema input_token output_token c w w' b
  unfolding build_response_from_quote_pair_bound try_reuse
  build_response-Checked w w' b h0 =
      let (u1, w1, e1, h1) = continue-eq-ok (admit x sign chain_id pair quote schema w) _ h0 in
      let (c, w2, e2, l2, h2) =
        bind-ok sign (candidate x sign chain_id pair quote schema input_token output_token) _ w1
          candidate-Forward h1 in
      let (r, w3, e3, h3) =
        continue-eq-ok (try_reuse x sign chain_id pair quote schema input_token output_token c w2) _
          h2 in
      let (l1, (base, t, to_set, rest, settlement)) = admit-ok w w1 u1 e1 in
      let (none_later, some_good) =
        reuse_within-Good x sign chain_id pair quote schema input_token output_token c w2 w3
          c.expiry r refl e3 in
      let good = or_sign-Good c w2 w3 w' r b none_later some_good h3 in
      let k = good.0 in
      let later = Passes-trans sign k.before (Passes-trans sign k.between k.after) in
      (
        (base, t, to_set, Passes-trans sign (Passes-trans sign rest l2) later, settlement),
        c,
        w1,
        w2,
        l1,
        e2,
        prepend x sign chain_id pair quote schema input_token output_token c w w2 w' b
            (Passes-trans sign l1 l2) good,
      )
