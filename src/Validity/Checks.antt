-- ===== src/Validity/Checks.antt =====
-- A check of a quote passes and changes nothing, or refuses and counts one refusal.
use st0x_oracle_server.World.{World, pure, quote_live, yield, continue}
use st0x_oracle_server.Base.Int.{ℤ}
use st0x_oracle_server.Base.{
  if◌then◌else◌, inl, false, arith, Bool-cases, subst, inr, true, refl, ◌==◌, ◌&&◌, bytes_eq,
  bytes_beq_iff,
}
use st0x_oracle_server.Base.{String, ℕ, ◌∷◌, Bool, Result, ◌≡◌, ok, ◌⊎◌, err}
use st0x_oracle_server.Wire.{Word, Quote, Address}
use st0x_oracle_server.Refusal.{
  UnavailableReason, RefusalPhase, AppError, Detail, unavailable, expired_quote, no_live_quote,
  no_live_quote_for, deadline_missing_for, deadline_elapsed, quote_expired,
}
use st0x_oracle_server.Signer.{Attempt}
use st0x_oracle_server.Validity.{
  validate_quote_liveness, validate_quote_expiry, validate_expiry_deadline,
  effective_expiry_unix_ms, quote_is_live, no_live_quote_at, is_deadline, validate_quote_address,
}
use st0x_oracle_server.Pricing.{QuoteSnapshot, is_live}
use st0x_oracle_server.World.Passes.{
  Forward, no_step, refuse-Forward, bind-Forward, quote_live-Forward, counts,
}
use st0x_oracle_server.Validity.Expiry.{
  Binds, Unexpired, effective_expiry_unix_ms_iff, quote_is_live_iff,
}
use st0x_oracle_server.Base.Errors.{Result-cases}
use st0x_oracle_server.Registry.{ResolvedPair}

abbrev pub refused : World → UnavailableReason → String → String → RefusalPhase → World
refused w reason endpoint symbol phase = record w {
  refusals =
      record { reason = reason; endpoint = endpoint; symbol = symbol; phase = phase } ∷ w.refusals;
}

module _ (endpoint symbol : String) (phase : RefusalPhase) (q : Quote) (now : ℤ) (signs : Bool)
    (w : World) where
  abbrev pub check : Result {0, 0} AppError Unit × World
  check = validate_quote_expiry endpoint symbol phase q now signs w

  still_dead :
      (e : ℤ)
      → effective_expiry_unix_ms q ≡ ok e
      → quote_is_live e now signs ≡ false
      → (e' : ℤ) → Binds q e'
      → ¬ Unexpired e' now signs
  still_dead e is dead e' b u =
      let same : e' ≡ e = ground (arith, (effective_expiry_unix_ms_iff q e').0.1 b, is) in
      ground
        (arith, (quote_is_live_iff e now signs).1 (subst (λ i. Unexpired i now signs) same u), dead)

  -- The expiry check passes exactly when the quote has a binding bound that is still ahead, in
  -- milliseconds and, for a signed expiry, in whole seconds; the state is then as before. Otherwise
  -- the quote is refused as expired, which counts one refusal.
  pub validate_quote_expiry_lem :
      ((e : ℤ) × Binds q e × Unexpired e now signs × (check ≡ (ok tt, w)))
      ⊎ (((e : ℤ) → Binds q e → ¬ Unexpired e now signs)
          × (d : Detail) × (check
              ≡ (err (unavailable expired_quote d), refused w expired_quote endpoint symbol phase)))
  unfolding validate_quote_expiry validate_expiry_deadline
  validate_quote_expiry_lem = elim (Result-cases (effective_expiry_unix_ms q)) [
    | inl (e, is) ↦
        let binds = (effective_expiry_unix_ms_iff q e).0.0 is in
        elim (Bool-cases (quote_is_live e now signs)) [
          | inl live ↦ inl (
            e,
            binds,
            (quote_is_live_iff e now signs).0 live,
            rw (is, validate_quote_expiry) (ground (arith, live)),
          )
          | inr dead ↦ inr (
            still_dead e is dead,
            (if is_deadline q e then deadline_elapsed symbol e now else quote_expired symbol e now),
            rw (is, validate_quote_expiry)
                (elim (Bool-cases (is_deadline q e)) [
                  | inl t ↦ rw (t, dead, validate_expiry_deadline) refl
                  | inr t ↦ rw (t, dead, validate_expiry_deadline) refl
                ]),
          )
        ]
    | inr (f, is) ↦ inr (
      (λ e b u. absurd (ground (arith, (effective_expiry_unix_ms_iff q e).0.1 b, is))),
      deadline_missing_for symbol,
      rw (is, validate_quote_expiry) refl,
    )
  ]

module _ (sign : Word → ℕ → Attempt) where
  pub validate_quote_liveness-Forward :
      (endpoint symbol : String) (phase : RefusalPhase) (s : QuoteSnapshot)
      → Forward sign (validate_quote_liveness sign endpoint symbol phase s)
  unfolding validate_quote_liveness
  validate_quote_liveness-Forward endpoint symbol phase s =
      bind-Forward sign (quote_live sign s.generation) _ (quote_live-Forward sign s.generation)
        (λ b. alive b)
    where
      alive :
          (b : Bool)
          → Forward sign {A = Unit} (if b then pure tt else no_live_quote_at endpoint symbol phase)
      alive true w = no_step
      alive false w =
          refuse-Forward sign Unit no_live_quote endpoint symbol phase (no_live_quote_for symbol) w

  pub validate_quote_address-Forward :
      (q : Quote) (pair : ResolvedPair) (settlement : Address) (endpoint : String)
      (phase : RefusalPhase)
      → Forward sign (validate_quote_address q pair settlement endpoint phase)
  unfolding validate_quote_address
  validate_quote_address-Forward q pair settlement endpoint phase w =
      elim (Bool-cases ((q.base == pair.token) && (q.quote == settlement))) [
        | inl e ↦ rw e no_step
        | inr e ↦ rw e (
            counts sign (record {
              feed = refl;
              tokens = refl;
              now_unix_ms = refl;
              reuse = refl;
              signer = refl;
              schedule = refl;
            }))
      ]

  pub validate_quote_expiry-Forward :
      (endpoint symbol : String) (phase : RefusalPhase) (q : Quote) (now : ℤ) (signs : Bool)
      → Forward sign (validate_quote_expiry endpoint symbol phase q now signs)
  validate_quote_expiry-Forward endpoint symbol phase q now signs w =
      elim (validate_quote_expiry_lem endpoint symbol phase q now signs w) [
        | inl (e, b, u, h) ↦ rw h no_step
        | inr (n, d, h) ↦ rw h (
            counts sign (record {
              feed = refl;
              tokens = refl;
              now_unix_ms = refl;
              reuse = refl;
              signer = refl;
              schedule = refl;
            }))
      ]

  alive-ok :
      (b : Bool) (endpoint symbol : String) (phase : RefusalPhase) (u v : World)
      → (if b then pure {0} tt else no_live_quote_at endpoint symbol phase) u ≡ (ok tt, v)
      → (b ≡ true) × (v ≡ u)
  alive-ok true endpoint symbol phase u v h = (refl, ground arith)
  alive-ok false endpoint symbol phase u v h = absurd (ground arith)

  -- The check of liveness passes only when the quote is live at that moment.
  pub validate_quote_liveness-ok :
      (endpoint symbol : String) (phase : RefusalPhase) (s : QuoteSnapshot) (w v : World)
      → validate_quote_liveness sign endpoint symbol phase s w ≡ (ok tt, v)
      → is_live v.feed s.generation ≡ true
  unfolding validate_quote_liveness quote_live continue
  validate_quote_liveness-ok endpoint symbol phase s w v h =
      let (live, same) =
        alive-ok (is_live (yield sign w).feed s.generation) endpoint symbol phase (yield sign w) v
          h in
      rw same live

  pub validate_quote_expiry-ok :
      (endpoint symbol : String) (phase : RefusalPhase) (q : Quote) (now : ℤ) (signs : Bool)
      (w v : World)
      → validate_quote_expiry endpoint symbol phase q now signs w ≡ (ok tt, v)
      → (e : ℤ) × Binds q e × Unexpired e now signs × (v ≡ w)
  validate_quote_expiry-ok endpoint symbol phase q now signs w v h =
      elim (validate_quote_expiry_lem endpoint symbol phase q now signs w) [
        | inl (e, b, u, is) ↦ (e, b, u, ground (arith, is, h))
        | inr (n, d, is) ↦ absurd (ground (arith, is, h))
      ]

  pub validate_quote_address-ok :
      (q : Quote) (pair : ResolvedPair) (settlement : Address) (endpoint : String)
      (phase : RefusalPhase) (w v : World)
      → validate_quote_address q pair settlement endpoint phase w ≡ (ok tt, v)
      → (q.base ≡ pair.token) × (q.quote ≡ settlement) × (v ≡ w)
  unfolding validate_quote_address
  validate_quote_address-ok q pair settlement endpoint phase w v h =
      ground (arith, bytes_beq_iff q.base pair.token, bytes_beq_iff q.quote settlement)

  pub validate_expiry_deadline-ok :
      (endpoint symbol : String) (phase : RefusalPhase) (e now : ℤ) (signs : Bool) (w v : World)
      → validate_expiry_deadline endpoint symbol phase e now signs w ≡ (ok tt, v)
      → Unexpired e now signs × (v ≡ w)
  unfolding validate_expiry_deadline
  validate_expiry_deadline-ok endpoint symbol phase e now signs w v h =
      elim (Bool-cases (quote_is_live e now signs)) [
        | inl l ↦ ((quote_is_live_iff e now signs).0 l, ground (arith, l))
        | inr l ↦ absurd (ground (arith, l))
      ]
