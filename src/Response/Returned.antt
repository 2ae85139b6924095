-- ===== src/Response/Returned.antt =====
-- What a response must be to be returned, and the responses that are served again.
use st0x_oracle_server.World.{World, continue, look_up, continue-eq-ok, lift}
use st0x_oracle_server.Base.{none, some, ℕ, Option, ◌≡◌, ok, ◌⊎◌, arith, subst, sym, inr, inl}
use st0x_oracle_server.Wire.{External, Word, Address}
use st0x_oracle_server.Signer.{Attempt}
use st0x_oracle_server.Registry.{ResolvedPair}
use st0x_oracle_server.Pricing.{QuoteSnapshot}
use st0x_oracle_server.Response.{
  PairSchema, Candidate, BuiltResponse, signs_expiry, reuse_key, when_found, reuse_within,
  return_stored, live_at, now_unix_ms, now_secs_of,
}
use st0x_oracle_server.Response.Checked.{
  Checked, Reused, return_stored-Checked, live-Forward, SignedBefore,
}
use st0x_oracle_server.Reuse.{ReusedResponse}
use st0x_oracle_server.Validity.Expiry.{Binds}
use st0x_oracle_server.World.Passes.{
  Passes, Passes-trans, no_step, bind-ok, now_unix_ms-Forward, look_up-Forward,
}
use st0x_oracle_server.Reuse.Offer.{lookup-eq-some}
use st0x_oracle_server.Refusal.{pre_sign}

module _ (x : External) (sign : Word → ℕ → Attempt) (chain_id : ℕ) (pair : ResolvedPair)
    (quote : QuoteSnapshot) (schema : PairSchema) (input_token output_token : Address) where
  -- The response was signed on the way, or found.
  abbrev pub Source : Candidate → World → World → BuiltResponse → World → Type 0
  Source c w w' b clock =
      ((b.response.context ≡ c.context)
        × Binds quote.quote b.validity_expiry_unix_ms
        × SignedBefore x sign chain_id pair quote schema input_token output_token c w w' b clock)
      ⊎ Reused x sign chain_id pair quote schema input_token output_token c w clock b

  abbrev pub Good : Candidate → World → World → BuiltResponse → Type 0
  Good c w w' b =
      (k : Checked sign quote.generation (signs_expiry schema) b.validity_expiry_unix_ms w w')
      × Source c w w' b k.clock

  earlier :
      (c : Candidate) (w0 w w' : World) (b : BuiltResponse) (clock : World)
      → Passes sign w0 w
      → Source c w w' b clock
      → Source c w0 w' b clock
  earlier c w0 w w' b clock l (inl (context, binds, (u, v, m, asked, l'))) =
      inl (context, binds, (u, v, Passes-trans sign l m, asked, l'))
  earlier c w0 w w' b clock l
        (inr (u, p, n, secs, m, to_clock, is, found, response, valid, same, bound)) =
      inr (u, p, n, secs, Passes-trans sign l m, to_clock, is, found, response, valid, same, bound)

  module _ (c : Candidate) (w w' : World) where
    when_found-Good :
        (n now_secs : ℕ) (found : Option ReusedResponse) (r : Option BuiltResponse)
        → c.expiry ≡ some n
        → found
          ≡ st0x_oracle_server.Reuse.lookup w.reuse w.feed
              (reuse_key x sign chain_id pair quote schema input_token output_token)
              c.context
              n
              now_secs
              quote.generation
        → when_found x sign chain_id pair quote schema input_token output_token found w ≡ (ok r, w')
        → (b : BuiltResponse) → r ≡ some b
        → Good c w w' b
    unfolding continue
    when_found-Good n now_secs none r ce fe h b rb = absurd (ground arith)
    when_found-Good n now_secs (some p) r ce fe h b rb =
        let (s, at, serves, same) =
          lookup-eq-some w.reuse w.feed
            (reuse_key x sign chain_id pair quote schema input_token output_token) c.context n
            now_secs quote.generation p (sym fe) in
        let (b', w1, e, h1) =
          continue-eq-ok
            (return_stored x sign chain_id pair quote schema input_token output_token p w) _ h in
        let is : (b' ≡ b) × (w1 ≡ w') = ground (arith, h1) in
        let (checked_, response, valid) =
          return_stored-Checked x sign chain_id pair quote schema input_token output_token w w' b p
            (ground (arith, e, is)) in
        (
          checked_,
          inr (
            w,
            p,
            n,
            now_secs,
            no_step,
            checked_.before,
            ce,
            sym fe,
            response,
            valid,
            ground (arith, serves.statement, response, same),
            rw (valid, same) (omega (arith, serves.not_longer)),
          ),
        )

  pub prepend :
      (c : Candidate) (w0 w w' : World) (b : BuiltResponse)
      → Passes sign w0 w
      → Good c w w' b
      → Good c w0 w' b
  prepend c w0 w w' b l (k, content) = (
    record {
      clock = k.clock;
      alive = k.alive;
      before = Passes-trans sign l k.before;
      between = k.between;
      after = k.after;
      unexpired = k.unexpired;
      live = k.live;
    },
    earlier c w0 w w' b k.clock l content,
  )

  nothing_found :
      (c : Candidate) (w w' : World) (found : Option ReusedResponse)
      → when_found x sign chain_id pair quote schema input_token output_token found w
        ≡ (ok none, w')
      → w ≡ w'
  unfolding continue
  nothing_found c w w' none h = ground arith
  nothing_found c w w' (some p) h =
      let (b', w1, e, h1) =
        continue-eq-ok
          (return_stored x sign chain_id pair quote schema input_token output_token p w) _ h in
      absurd (ground (arith, h1))

  pub reuse_within-Good :
      (c : Candidate) (w w' : World) (expiry : Option ℕ) (r : Option BuiltResponse)
      → c.expiry ≡ expiry
      → reuse_within x sign chain_id pair quote schema input_token output_token c.context expiry w
        ≡ (ok r, w')
      → (r ≡ none → Passes sign w w') × ((b : BuiltResponse) → r ≡ some b → Good c w w' b)
  unfolding look_up
  reuse_within-Good c w w' none r ce h =
      ((λ n. subst (λ u. Passes sign w u) (ground arith) no_step), (λ b rb. absurd (ground arith)))
  reuse_within-Good c w w' (some expiry) r ce h0 =
      let key = reuse_key x sign chain_id pair quote schema input_token output_token in
      let (u1, w1, e1, l1, h1) =
        bind-ok sign (live_at x sign chain_id pair quote schema pre_sign) _ w
          (live-Forward x sign chain_id pair quote schema input_token output_token pre_sign) h0 in
      let (now, w2, e2, l2, h2) =
        bind-ok sign (now_unix_ms sign) _ w1 (now_unix_ms-Forward sign) h1 in
      let (secs, w3, e3, l3, h3) =
        bind-ok sign
          (lift (now_secs_of x sign chain_id pair quote schema input_token output_token now)) _ w2
          (λ u. no_step) h2 in
      let (found, w4, e4, l4, h4) =
        bind-ok sign (look_up sign key c.context expiry secs quote.generation) _ w3
          (look_up-Forward sign key c.context expiry secs quote.generation) h3 in
      let l = Passes-trans sign l1 (Passes-trans sign l2 (Passes-trans sign l3 l4)) in
      (
        (λ n.
            subst (λ u. Passes sign w u)
              (nothing_found c w4 w' found (
                subst
                  (λ o.
                    when_found x sign chain_id pair quote schema input_token output_token found w4
                    ≡ (ok o, w'))
                  n h4))
              l),
        (λ b rb.
            prepend c w w4 w' b l
              (when_found-Good c w4 w' expiry secs found r ce (ground (arith, e4)) h4 b rb)),
      )
