-- ===== src/Response/Checked.antt =====
-- A response that is returned was checked after it was signed.
use st0x_oracle_server.World.{now_unix_ms, World, M, sign_context, lift, continue-eq-ok}
use st0x_oracle_server.Base.Int.{ℤ, ◌≤ℤ◌, pos}
use st0x_oracle_server.Base.{
  none, some, ℕ, Bool, ◌≡◌, ok, arith, true, Option, subst, refl, ◌*◌, ◌∙◌, ap,
}
use st0x_oracle_server.Wire.{Word, External, Address, Bytes}
use st0x_oracle_server.Signer.{Attempt}
use st0x_oracle_server.Pricing.{QuoteGeneration, QuoteSnapshot, is_live}
use st0x_oracle_server.Registry.{ResolvedPair}
use st0x_oracle_server.World.Passes.{
  Passes, Forward, bind-Forward, no_step, Passes-trans, now_unix_ms-Forward, keep-Forward,
  sign_context-Forward, bind-ok,
}
use st0x_oracle_server.Response.{
  PairSchema, Candidate, BuiltResponse, sign_fresh, signs_expiry, live_at, checked, store_response,
  tag, reuse_key, return_stored, stored_expiry,
}
use st0x_oracle_server.Validity.Expiry.{Unexpired, Binds, effective_expiry_unix_ms_iff}
use st0x_oracle_server.Refusal.{RefusalPhase, post_sign, pre_sign, pre_reuse_return}
use st0x_oracle_server.Context.{OracleResponse}
use st0x_oracle_server.Validity.Checks.{
  validate_quote_expiry-ok, validate_quote_liveness-Forward, validate_quote_liveness-ok,
  validate_quote_expiry-Forward, validate_expiry_deadline-ok,
}
use st0x_oracle_server.Validity.{
  effective_expiry_unix_ms, validate_quote_expiry, validate_expiry_deadline,
}
use st0x_oracle_server.Reuse.{same_statement, ReusedResponse, same_statement}

-- On the way from the one state to the other the expiry was compared with the clock, and after
-- that the quote's generation was live.
pub record Checked (sign : Word → ℕ → Attempt) (g : QuoteGeneration) (signs : Bool) (expiry : ℤ)
    (w w' : World) : Type 0 where
  pub clock : World
  pub alive : World
  pub before : Passes sign w clock
  pub between : Passes sign clock alive
  pub after : Passes sign alive w'
  pub unexpired : Unexpired expiry clock.now_unix_ms signs
  pub live : is_live alive.feed g ≡ true

now_unix_ms-ok :
    (sign : Word → ℕ → Attempt) (w v : World) (now : ℤ)
    → now_unix_ms sign w ≡ (ok now, v)
    → now ≡ v.now_unix_ms
unfolding now_unix_ms
now_unix_ms-ok sign w v now h = ground arith

module _ (x : External) (sign : Word → ℕ → Attempt) (chain_id : ℕ) (pair : ResolvedPair)
    (quote : QuoteSnapshot) (schema : PairSchema) (input_token output_token : Address) where
  pub live-Forward :
      (phase : RefusalPhase) → Forward sign (live_at x sign chain_id pair quote schema phase)
  live-Forward phase = validate_quote_liveness-Forward sign (tag schema) pair.symbol phase quote

  live-ok :
      (phase : RefusalPhase) (w v : World)
      → live_at x sign chain_id pair quote schema phase w ≡ (ok tt, v)
      → is_live v.feed quote.generation ≡ true
  live-ok phase w v h = validate_quote_liveness-ok sign (tag schema) pair.symbol phase quote w v h

  checked-Forward :
      (phase : RefusalPhase) → Forward sign (checked x sign chain_id pair quote schema phase)
  checked-Forward phase =
      bind-Forward sign (now_unix_ms sign) _ (now_unix_ms-Forward sign) (λ (now : ℤ).
        validate_quote_expiry-Forward sign (tag schema) pair.symbol phase quote.quote now
          (signs_expiry schema))

  store-Forward :
      (expiry : Option ℕ) (r : OracleResponse)
      → Forward sign
          (store_response x sign chain_id pair quote schema input_token output_token expiry r)
  store-Forward none r w = no_step
  store-Forward (some e) r w =
      keep-Forward sign (reuse_key x sign chain_id pair quote schema input_token output_token) e r
        quote.generation w

  module _ (c : Candidate) (w w' : World) (b : BuiltResponse) where
    abbrev signing : M BuiltResponse
    signing = sign_fresh x sign chain_id pair quote schema input_token output_token c

    abbrev answer : Bytes × Address → OracleResponse
    answer s = record { signer = s.1; context = c.context; signature = s.0 }

    -- On the way the signature was asked for, and given before the clock was read.
    abbrev pub SignedBefore : World → Type 0
    SignedBefore clock =
        (u v : World) × Passes sign w u
        × (sign_context sign x c.context u ≡ (ok (b.response.signature, b.response.signer), v))
        × Passes sign v clock

    pub sign_fresh-Checked :
        signing w ≡ (ok b, w')
        → (k : Checked sign quote.generation (signs_expiry schema) b.validity_expiry_unix_ms w w')
          × (b.response.context ≡ c.context)
          × Binds quote.quote b.validity_expiry_unix_ms
          × SignedBefore k.clock
    unfolding sign_fresh
    sign_fresh-Checked h0 =
        let check = checked x sign chain_id pair quote schema in
        let alive = live_at x sign chain_id pair quote schema in
        let recheck = λ (now : ℤ).
          validate_quote_expiry (tag schema) pair.symbol post_sign quote.quote now
            (signs_expiry schema) in
        let recheck-Forward = λ (now : ℤ).
          validate_quote_expiry-Forward sign (tag schema) pair.symbol post_sign quote.quote now
            (signs_expiry schema) in
        let keep_it = λ (r : OracleResponse).
          store_response x sign chain_id pair quote schema input_token output_token c.expiry r in
        let (u1, w1, e1, l1, h1) = bind-ok sign (alive pre_sign) _ w (live-Forward pre_sign) h0 in
        let (u2, w2, e2, l2, h2) =
          bind-ok sign (check pre_sign) _ w1 (checked-Forward pre_sign) h1 in
        let (s, w3, e3, l3, h3) =
          bind-ok sign (sign_context sign x c.context) _ w2 (sign_context-Forward sign x c.context)
            h2 in
        let (now, w4, e4, l4, h4) =
          bind-ok sign (now_unix_ms sign) _ w3 (now_unix_ms-Forward sign) h3 in
        let (u5, w5, e5, l5, h5) =
          bind-ok sign (alive post_sign) _ w4 (live-Forward post_sign) h4 in
        let (u6, w6, e6, l6, h6) = bind-ok sign (recheck now) _ w5 (recheck-Forward now) h5 in
        let (u7, w7, e7, l7, h7) =
          bind-ok sign (keep_it (answer s)) _ w6 (store-Forward c.expiry (answer s)) h6 in
        let (v, w8, e8, l8, h8) =
          bind-ok sign (lift (effective_expiry_unix_ms quote.quote)) _ w7 (λ u. no_step) h7 in
        let (e, binds, unexpired, same) =
          validate_quote_expiry-ok sign (tag schema) pair.symbol post_sign quote.quote now
            (signs_expiry schema) w5 w6 e6 in
        let eff : effective_expiry_unix_ms quote.quote ≡ ok e =
          (effective_expiry_unix_ms_iff quote.quote e).0.1 binds in
        let valid : e ≡ b.validity_expiry_unix_ms = ground (arith, eff, e8, h8) in
        let last : w8 ≡ w' = ground (arith, h8) in
        (
          record {
            clock = w4;
            alive = w5;
            before = Passes-trans sign l1 (Passes-trans sign l2 (Passes-trans sign l3 l4));
            between = l5;
            after =
                subst (λ u. Passes sign w5 u) last (Passes-trans sign l6 (Passes-trans sign l7 l8));
            unexpired =
                subst (λ i. Unexpired i w4.now_unix_ms (signs_expiry schema)) valid
                  (subst (λ t. Unexpired e t (signs_expiry schema))
                    (now_unix_ms-ok sign w3 w4 now e4) unexpired);
            live = live-ok post_sign w4 w5 e5;
          },
          ground (arith, h8),
          subst (Binds quote.quote) valid binds,
          (
            w2,
            w3,
            Passes-trans sign l1 l2,
            e3 ∙ ap (λ (a : Bytes × Address). (ok a, w3)) (ground (arith, h8)),
            l4,
          ),
        )

  -- A stored response that is served for the candidate: it was found on the way before the clock was
  -- read, it states the same, and it expires no later.
  abbrev pub Reused : Candidate → World → World → BuiltResponse → Type 0
  Reused c w clock b =
      (u : World) × (previous : ReusedResponse) × (n secs : ℕ) × Passes sign w u
      × Passes sign u clock
      × (c.expiry ≡ some n)
      × (st0x_oracle_server.Reuse.lookup u.reuse u.feed
            (reuse_key x sign chain_id pair quote schema input_token output_token) c.context n secs
            quote.generation
          ≡ some previous)
      × (b.response ≡ previous.response)
      × (b.validity_expiry_unix_ms ≡ pos (previous.expiry_unix_secs * 1000))
      × (same_statement b.response.context c.context ≡ true)
      × (b.validity_expiry_unix_ms ≤ℤ pos (n * 1000))

  any_schema : (signs : Bool) (e now : ℤ) → Unexpired e now true → Unexpired e now signs
  any_schema signs e now u = (u.0, λ h. u.1 refl)

  module _ (w w' : World) (b : BuiltResponse) where
    pub return_stored-Checked :
        (r : ReusedResponse)
        → return_stored x sign chain_id pair quote schema input_token output_token r w ≡ (ok b, w')
        → Checked sign quote.generation (signs_expiry schema) b.validity_expiry_unix_ms w w'
          × (b.response ≡ r.response)
          × (b.validity_expiry_unix_ms ≡ pos (r.expiry_unix_secs * 1000))
    unfolding return_stored
    return_stored-Checked r h0 =
        let deadline = λ (now e : ℤ).
          validate_expiry_deadline (tag schema) pair.symbol pre_reuse_return e now true in
        let (now, w1, e1, l1, h1) =
          bind-ok sign (now_unix_ms sign) _ w (now_unix_ms-Forward sign) h0 in
        let (u2, w2, e2, l2, h2) =
          bind-ok sign (live_at x sign chain_id pair quote schema pre_reuse_return) _ w1
            (live-Forward pre_reuse_return) h1 in
        let (e, w3, e3, h3) =
          continue-eq-ok
            (lift
              (stored_expiry x sign chain_id pair quote schema input_token output_token
                r.expiry_unix_secs)
              w2)
            _ h2 in
        let (u4, w4, e4, h4) = continue-eq-ok (deadline now e w3) _ h3 in
        let (unexpired, same) =
          validate_expiry_deadline-ok sign (tag schema) pair.symbol pre_reuse_return e now true w3
            w4 e4 in
        let valid : e ≡ b.validity_expiry_unix_ms = ground (arith, h4) in
        let last : w2 ≡ w' = ground (arith, h4, same, e3) in
        (
          record {
            clock = w1;
            alive = w2;
            before = l1;
            between = l2;
            after = subst (λ u. Passes sign w2 u) last no_step;
            unexpired = any_schema (signs_expiry schema) b.validity_expiry_unix_ms w1.now_unix_ms (
                subst (λ i. Unexpired i w1.now_unix_ms true) valid
                  (subst (λ t. Unexpired e t true) (now_unix_ms-ok sign w w1 now e1) unexpired));
            live = live-ok pre_reuse_return w1 w2 e2;
          },
          ground (arith, h4),
          ground (arith, h4, e3),
        )
