-- ===== src/Serve/Validated.antt =====
-- What `validate` says of a copy of the token file, and what boot makes of it.
use st0x_oracle_server.Serve.{with_copy, validate_file, serve_source, bad_copy}
use st0x_oracle_server.TokenFile.Bucket.{Read, ReadError, copy}
use st0x_oracle_server.TokenFile.Source.{source_of}
use st0x_oracle_server.TokenFile.Boot.{
  Retry, boot, read_at_boot, validated, BootError, Copy, refused,
}
use st0x_oracle_server.TokenFile.Booted.{read_at_boot-Returns, Ends, outcome}
use st0x_oracle_server.TokenFile.Candidate.{Library, candidate, set_of}
use st0x_oracle_server.Base.{
  ℕ, Result, String, ◌≤◌, List, ◌<◌, ◌≡◌, err, Bool-cases, some, ok, ltb, inl, sym, ◌↔◌, arith, ap,
  inr, ◌∙◌, refl,
}
use st0x_oracle_server.Wire.{Bytes}
use st0x_oracle_server.Toml.{Value, Table}
use st0x_oracle_server.Base.Int.{ℤ}
use st0x_oracle_server.Config.{RegistrySource, Config}
use st0x_oracle_server.Tokens.{TokenSet}
use st0x_oracle_server.Base.Errors.{Result-cases}

module _ (retry : Retry) (reads : ℕ → Result ReadError Read) where
  -- Try `n` reads the first copy.
  abbrev pub ReadsFirst : ℕ → Bytes → ℤ → Type 0
  ReadsFirst n bytes generation =
      (1 ≤ n)
      × (n ≤ retry.attempts)
      × ((m : ℕ) → 1 ≤ m → m < n → (e : ReadError) × (reads m ≡ err e))
      × (reads n ≡ ok (copy bytes generation))

  last_is_first :
      (n last : ℕ) (bytes : Bytes) (generation : ℤ) (r : Result BootError Copy)
      → ReadsFirst n bytes generation
      → Ends retry.attempts reads 1 last r
      → n ≡ last
  last_is_first n last bytes generation r h ends = elim (Bool-cases (ltb n last)) [
    | inl before ↦
        let (e, failed) = ends.1 n h.0 (ground (arith, before)) in
        absurd (ground (arith, h.3, failed))
    | inr later ↦ elim (Bool-cases (ltb last n)) [
      | inr same ↦ ground (arith, later, same)
      | inl after ↦
          let (e, failed) = h.2 last ends.0 (ground (arith, after)) in
          absurd (ground (arith, ends.4 e failed, h.1))
    ]
  ]

  read_at_boot-eq-some :
      (n : ℕ) (bytes : Bytes) (generation : ℤ)
      → ReadsFirst n bytes generation
      → (sleeps : List ℕ) × (read_at_boot retry reads ≡ some (sleeps, ok (bytes, generation)))
  read_at_boot-eq-some n bytes generation h =
      let (sleeps, last, r, same, at, ends) = read_at_boot-Returns retry reads in
      let here : reads last ≡ ok (copy bytes generation) =
        sym (ap reads (last_is_first n last bytes generation r h ends)) ∙ h.3 in
      let end : r ≡ ok (bytes, generation) = ends.3 ∙ ap (outcome last) here in
      (sleeps, same ∙ ap (λ x. some (sleeps, x)) end)

  module _ (L : Library) (try_into_source : Value → Result String RegistrySource) where
    -- When the configuration names a bucket, `validate` passes a copy of the token file exactly
    -- when boot starts the server from that copy, the first that it reads, and with the same
    -- configuration; the server then runs under the generation of the copy.
    pub validate_file-boot :
        (table : Table) (source : RegistrySource) (bytes : Bytes) (config : Config) (n : ℕ)
        (generation : ℤ)
        → source_of try_into_source table ≡ ok (some source)
        → ReadsFirst n bytes generation
        → (serve_source L try_into_source table ≡ ok source)
          × ((validate_file L try_into_source table (some (ok bytes)) ≡ ok (with_copy config)) ↔ (
              (set : TokenSet) × (boot L table retry reads ≡ some (ok (config, set)))
              × (set.generation ≡ some generation)))
    unfolding serve_source validate_file boot validated
    validate_file-boot table source bytes config n generation h first =
        let (sleeps, found) = read_at_boot-eq-some n bytes generation first in
        (
          ground (arith, h),
          elim (Result-cases (candidate L table bytes)) [
            | inl (c, e) ↦
                let passes : validate_file L try_into_source table (some (ok bytes))
                    ≡ ok (with_copy c.config) =
                  ground arith in
                let starts : boot L table retry reads ≡ some (ok (c.config, set_of c generation)) =
                  ground arith in
                (
                  λ passed.
                      let same : c.config ≡ config = ground (arith, passes, passed) in
                      (
                        set_of c generation,
                        starts ∙ ap (λ x. some (ok (x, set_of c generation))) same,
                        refl,
                      ),
                  λ (set, started, at).
                      passes ∙ ap (λ x. ok (with_copy x)) (ground (arith, starts, started)),
                )
            | inr (w, e) ↦
                let refuses : validate_file L try_into_source table (some (ok bytes))
                    ≡ err (bad_copy w) =
                  ground arith in
                let stops : boot L table retry reads ≡ some (err (refused w generation)) =
                  ground arith in
                (
                  λ passed. absurd (ground (arith, refuses, passed)),
                  λ (set, started, at). absurd (ground (arith, stops, started)),
                )
          ],
        )
