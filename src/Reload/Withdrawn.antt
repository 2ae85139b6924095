-- ===== src/Reload/Withdrawn.antt =====
-- What a reload withdraws is not sent: neither the builder nor the last check of a batch lets a
-- quote through whose row the new set does not keep.
use st0x_oracle_server.World.{World, continue-eq-ok}
use st0x_oracle_server.World.Later.{Later, Later-dead}
use st0x_oracle_server.World.Passes.{Passes, Passes-trans, Passes-Later, moves}
use st0x_oracle_server.Response.Safety.{build_response-Checked}
use st0x_oracle_server.Response.{PairSchema, build_response_from_quote_pair_bound, BuiltResponse}
use st0x_oracle_server.Batch.{BuiltSlot, revalidate, mapped, same_mapping}
use st0x_oracle_server.Validity.{validate_quote_liveness}
use st0x_oracle_server.Validity.Checks.{validate_quote_liveness-ok, validate_quote_liveness-Forward}
use st0x_oracle_server.Reload.{Result, Reloader, Candidate, round}
use st0x_oracle_server.Wire.{External, Word, Address, Bytes}
use st0x_oracle_server.Refusal.{AppError, batch_final}
use st0x_oracle_server.Base.{
  is_ok, ◌≡◌, ℕ, false, ok, err, contains, refl, true, String, arith, Bool, nat_eq, List,
  Bool-cases, subst, inl, sym, inr, some,
}
use st0x_oracle_server.Signer.{Attempt}
use st0x_oracle_server.Pricing.{is_live}
use st0x_oracle_server.Registry.{ResolvedPair, TokenRegistry}
use st0x_oracle_server.Pricing.{QuoteSnapshot}
use st0x_oracle_server.Base.Int.{ℤ}
use st0x_oracle_server.TokenFile.Candidate.{Library}
use st0x_oracle_server.Toml.{Table}
use st0x_oracle_server.Config.{Config}
use st0x_oracle_server.TokenFile.{Projection, same_as}
use st0x_oracle_server.Reload.Decided.{Comparable}
use st0x_oracle_server.Tokens.{current}
use st0x_oracle_server.Pricing.Invariant.{IsValid}
use st0x_oracle_server.Pricing.Liveness.{generation_at}
use st0x_oracle_server.Reload.Applied.{keeps_row, round-is_live}
use st0x_oracle_server.TokenFile.Bucket.{copy}

-- No value comes of it.
abbrev pub Refused : {A : Type 0} → Result AppError A × World → Type 0
Refused (r, w) = is_ok r ≡ false

refused :
    {A : Type 0} (p : Result AppError A × World)
    → ((a : A) (v : World) → ¬ (p ≡ (ok a, v)))
    → Refused p
refused (ok a, v) h = absurd (h a v refl)
refused (err e, v) h = refl

module _ (x : External) (sign : Word → ℕ → Attempt) (w : World) (g : ℕ)
    (dead : contains g w.feed.revoked ≡ true) where
  not_live : (u : World) → Later sign w u → ¬ (is_live u.feed g ≡ true)
  not_live u l h = ground (arith, Later-dead sign g l dead)

  mapped-same :
      (endpoint : String) (signs : Bool) (checked_at : ℤ) (quotes : List (String × QuoteSnapshot))
      (registry : TokenRegistry) (pair : ResolvedPair) (v : World)
      → mapped sign endpoint signs checked_at quotes registry pair w ≡ (ok tt, v)
      → w ≡ v
  mapped-same endpoint signs checked_at quotes registry pair v h =
      elim (Bool-cases (same_mapping sign endpoint signs checked_at quotes registry pair)) [
        | inl e ↦ ground (arith, e, h)
        | inr e ↦ absurd (ground (arith, e, h))
      ]

  revalidate-Refused :
      (endpoint : String) (signs : Bool) (checked_at : ℤ) (quotes : List (String × QuoteSnapshot))
      (registry : TokenRegistry) (slot : BuiltSlot)
      → slot.quote.generation ≡ g
      → Refused (revalidate sign endpoint signs checked_at quotes registry slot w)
  unfolding revalidate
  revalidate-Refused endpoint signs checked_at quotes registry slot same = refused _ (λ r v h0.
      let symbol = slot.pair.symbol in
      let (u1, w1, e1, h1) =
        continue-eq-ok (mapped sign endpoint signs checked_at quotes registry slot.pair w) _ h0 in
      let (u2, w2, e2, h2) =
        continue-eq-ok (validate_quote_liveness sign endpoint symbol batch_final slot.quote w1) _
          h1 in
      let there : w ≡ w1 = mapped-same endpoint signs checked_at quotes registry slot.pair w1 e1 in
      let later : Passes sign w1 w2 =
        moves sign (validate_quote_liveness sign endpoint symbol batch_final slot.quote)
          (validate_quote_liveness-Forward sign endpoint symbol batch_final slot.quote) e2 in
      let alive = validate_quote_liveness-ok sign endpoint symbol batch_final slot.quote w1 w2 e2 in
      not_live w2 (Passes-Later sign (subst (λ a. Passes sign a w2) (sym there) later))
        (subst (λ n. is_live w2.feed n ≡ true) same alive))

  build_response-Refused :
      (chain_id : ℕ) (pair : ResolvedPair) (quote : QuoteSnapshot) (schema : PairSchema)
      (input_token output_token : Address)
      → quote.generation ≡ g
      → Refused (
          build_response_from_quote_pair_bound x sign chain_id pair quote schema input_token
            output_token w)
  build_response-Refused chain_id pair quote schema input_token output_token same =
      refused _ (λ b v h.
        let (priced, c, u, u', l, e, good) =
          build_response-Checked x sign chain_id pair quote schema input_token output_token w v b
            h in
        let k = good.0 in
        not_live k.alive (Passes-Later sign (Passes-trans sign k.before k.between))
          (subst (λ n. is_live k.alive.feed n ≡ true) same k.live))

module _ (x : External) (sign : Word → ℕ → Attempt) (L : Library) where
  -- Take a round with a valid newer copy whose rows differ, which changes no other field and does not
  -- keep the row of a symbol, and a well-formed cache. From the end of the round on, whatever happens
  -- in between, a quote of that symbol that a request took from the cache before is neither signed
  -- nor served again by the builder, nor let through by the last check of a batch.
  pub round-revalidate :
      (static_config : Table) (boot_config : Config) (r : Reloader) (now generation : ℤ)
      (bytes : Bytes) (c : Candidate) (running : Projection)
      → Comparable L static_config boot_config (current r.tokens) generation bytes c running
      → same_as L.to_lowercase c.projection running ≡ false
      → IsValid r.pricing
      → (chain_id : ℕ) (s : String) (quote : QuoteSnapshot)
      → generation_at r.pricing (chain_id, s) ≡ some quote.generation
      → keeps_row L running c.projection s ≡ false
      → (w u : World)
      → w.feed ≡ (round L static_config boot_config now (ok (copy bytes generation)) r).pricing
      → Later sign w u
      → (pair : ResolvedPair) (schema : PairSchema) (input_token output_token : Address)
        (endpoint : String) (signs : Bool) (checked_at : ℤ) (quotes : List (String × QuoteSnapshot))
        (registry : TokenRegistry) (b : BuiltResponse)
      → Refused (
          build_response_from_quote_pair_bound x sign chain_id pair quote schema input_token
            output_token u)
        × Refused (
            revalidate sign endpoint signs checked_at quotes registry
              (record { pair = pair; quote = quote; response = b })
              u)
  round-revalidate static_config boot_config r now generation bytes c running h other v chain_id s
        quote at lost w u shared later pair schema input_token output_token endpoint signs
        checked_at quotes registry b =
      let g = quote.generation in
      let lives =
        (round-is_live L static_config boot_config r now generation bytes c running h other v
          chain_id s g at).0 in
      let dead : contains g w.feed.revoked ≡ true = rw shared (ground (arith, lives, lost)) in
      let still = Later-dead sign g later dead in
      (
        build_response-Refused x sign u g still chain_id pair quote schema input_token output_token
            refl,
        revalidate-Refused x sign u g still endpoint signs checked_at quotes registry
            (record { pair = pair; quote = quote; response = b }) refl,
      )
