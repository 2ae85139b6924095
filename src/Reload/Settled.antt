-- ===== src/Reload/Settled.antt =====
-- What one round leaves behind: an accepted copy is run, a refused one changes nothing.
use st0x_oracle_server.Base.{
  none, some, ok, err, option_eq, ◌≡◌, ◌≢◌, true, Bool-cases, false, arith, inl, option_beq_iff,
  inr, refl,
}
use st0x_oracle_server.Base.Int.{ℤ, int_eq}
use st0x_oracle_server.Toml.{Table}
use st0x_oracle_server.Config.{Config}
use st0x_oracle_server.TokenFile.Bucket.{copy}
use st0x_oracle_server.TokenFile.Candidate.{Library, Candidate, CandidateError, candidate}
use st0x_oracle_server.Tokens.{replace}
use st0x_oracle_server.Reload.{
  Reloader, same_rows, reject, apply, round, decide, compare, invalid_copy, current, record_applied,
  unless,
}
use st0x_oracle_server.Reload.Decided.{Comparable}
use st0x_oracle_server.Reload.Applied.{decide-swap}
use st0x_oracle_server.Wire.{Bytes}
use st0x_oracle_server.TokenFile.{Projection, same_as}

module _ (L : Library) (static_config : Table) (boot_config : Config) (r : Reloader)
    (now generation : ℤ) (bytes : Bytes) where
  abbrev after : Reloader
  after = round L static_config boot_config now (ok (copy bytes generation)) r

  -- The instance runs the generation, nothing is refused, and the next read asks for a copy only
  -- if there is a newer one.
  abbrev pub Settled : Reloader → Type 0
  Settled s =
      ((current s.tokens).generation ≡ some generation)
      × (s.rejected ≡ none)
      × (unless s ≡ some generation)
      × (s.gauges.registry_invalid ≡ false)
      × (s.gauges.registry_generation ≡ some generation)

  decide-same_rows :
      (c : Candidate) (running : Projection)
      → Comparable L static_config boot_config (current r.tokens) generation bytes c running
      → same_as L.to_lowercase c.projection running ≡ true
      → decide L static_config boot_config (current r.tokens) generation bytes
        ≡ same_rows generation
  unfolding decide compare
  decide-same_rows c running h other =
      ground (arith, h, option_beq_iff (current r.tokens).generation (some generation))

  -- One round is enough: a valid newer copy is run at once, under its own generation.
  pub round-Settled :
      (c : Candidate) (running : Projection)
      → Comparable L static_config boot_config (current r.tokens) generation bytes c running
      → Settled after
  unfolding round apply replace record_applied
  round-Settled c running h = elim (Bool-cases (same_as L.to_lowercase c.projection running)) [
    | inl e ↦ rw (decide-same_rows c running h e) (refl, refl, refl, refl, refl)
    | inr e ↦
        rw
          (decide-swap L static_config boot_config (current r.tokens) generation bytes c running h
            e)
          (refl, refl, refl, refl, refl)
  ]

  decide-refused :
      (e : CandidateError)
      → (current r.tokens).generation ≢ some generation
      → candidate L static_config bytes ≡ err e
      → decide L static_config boot_config (current r.tokens) generation bytes
        ≡ reject generation (invalid_copy e)
  unfolding decide
  decide-refused e newer h =
      ground (arith, newer, option_beq_iff (current r.tokens).generation (some generation))

  -- What requests and the subscription read.
  abbrev pub Untouched : Reloader → Reloader → Type 0
  Untouched s t =
      (current t.tokens ≡ current s.tokens) × (t.assets ≡ s.assets) × (t.pricing ≡ s.pricing)

  -- A newer copy that is not valid changes nothing that is served: the running set, the
  -- subscription and the cache stay, the refusal shows, and the copy is not asked for again.
  pub round-Refused :
      (e : CandidateError)
      → (current r.tokens).generation ≢ some generation
      → candidate L static_config bytes ≡ err e
      → Untouched r after
        × (after.rejected ≡ some generation)
        × (unless after ≡ some generation)
        × (after.gauges.registry_invalid ≡ true)
  unfolding round apply
  round-Refused e newer h =
      let refused : decide L static_config boot_config (current r.tokens) generation bytes
          ≡ reject generation (invalid_copy e) =
        decide-refused e newer h in
      rw refused ((refl, refl, refl), refl, refl, refl)
