-- ===== src/Reload/Decided.antt =====
-- What the decision on a copy says.
use st0x_oracle_server.Base.{
  none, some, option_eq, ◌≢◌, ◌≡◌, Bool-cases, ok, ◌==◌, true, inl, false, inr, Option-cases, refl,
  option_beq_iff, subst, arith, err,
}
use st0x_oracle_server.Base.Int.{ℤ, int_eq}
use st0x_oracle_server.Toml.{Table}
use st0x_oracle_server.Config.{Config}
use st0x_oracle_server.Tokens.{TokenSet}
use st0x_oracle_server.TokenFile.{Projection, same_as, change}
use st0x_oracle_server.TokenFile.Candidate.{Library, Candidate, candidate, set_of}
use st0x_oracle_server.Reload.{
  Decision, same_generation, same_rows, swap, reject, decide, compare, swap_to,
  static_field_changed, invalid_copy, static_field, no_token_file, Reason,
}
use st0x_oracle_server.Wire.{Bytes}
use st0x_oracle_server.Base.Errors.{Result-cases}

module _ (L : Library) (static_config : Table) (boot_config : Config) (current : TokenSet)
    (generation : ℤ) (bytes : Bytes) where
  -- A copy of a newer generation that is valid, keeps the other fields, and meets a running
  -- projection.
  abbrev pub Comparable : Candidate → Projection → Type 0
  Comparable c running =
      (current.generation ≢ some generation)
      × (candidate L static_config bytes ≡ ok c)
      × (static_field_changed boot_config c.config ≡ none)
      × (current.projection ≡ some running)

  -- What a refused copy lacks.
  abbrev pub Lacks : Reason → Type 0
  Lacks (invalid_copy w) = candidate L static_config bytes ≡ err w
  Lacks (static_field field) =
      (c : Candidate) × (candidate L static_config bytes ≡ ok c)
      × (static_field_changed boot_config c.config ≡ some field)
  Lacks no_token_file =
      (c : Candidate) × (candidate L static_config bytes ≡ ok c)
      × (static_field_changed boot_config c.config ≡ none)
      × (current.projection ≡ none)

  -- What each decision stands for.
  abbrev pub Means : Decision → Type 0
  Means (same_generation g) = (g ≡ generation) × (current.generation ≡ some generation)
  Means (same_rows g) =
      (c : Candidate) × (running : Projection) × (g ≡ generation)
      × Comparable c running
      × (same_as L.to_lowercase c.projection running ≡ true)
  Means (swap set removed readdressed described) =
      (c : Candidate) × (running : Projection) × Comparable c running
      × (same_as L.to_lowercase c.projection running ≡ false)
      × (set ≡ set_of c generation)
      × (removed ≡ (change L.to_lowercase running c.projection).removed)
      × (readdressed ≡ (change L.to_lowercase running c.projection).readdressed)
  Means (reject g reason) = (g ≡ generation) × (current.generation ≢ some generation) × Lacks reason

  -- The decision means what it says.
  pub decide-Means : Means (decide L static_config boot_config current generation bytes)
  unfolding decide compare
  decide-Means =
      let same_iff = option_beq_iff current.generation (some generation) in
      elim (Bool-cases (current.generation == some generation)) [
        | inl same ↦
            subst Means {x = same_generation generation} (ground arith) (refl, same_iff.0 same)
        | inr other ↦
            let newer : current.generation ≢ some generation = ground (arith, same_iff) in
            elim (Result-cases (candidate L static_config bytes)) [
              | inr (w, e) ↦
                  subst Means {x = reject generation (invalid_copy w)} (ground arith)
                    (refl, newer, e)
              | inl (c, e) ↦ elim (Option-cases (static_field_changed boot_config c.config)) [
                | inr (field, f) ↦
                    subst Means {x = reject generation (static_field field)} (ground arith)
                      (refl, newer, (c, e, f))
                | inl f ↦ elim (Option-cases current.projection) [
                  | inl g ↦
                      subst Means {x = reject generation no_token_file} (ground arith)
                        (refl, newer, (c, e, f, g))
                  | inr (running, g) ↦
                      elim (Bool-cases (same_as L.to_lowercase c.projection running)) [
                        | inl k ↦
                            subst Means {x = same_rows generation} (ground arith)
                              (c, running, refl, (newer, e, f, g), k)
                        | inr k ↦
                            subst Means
                              {x = swap_to c generation
                                (change L.to_lowercase running c.projection)}
                              (ground arith) (c, running, (newer, e, f, g), k, refl, refl, refl)
                      ]
                ]
              ]
            ]
      ]
