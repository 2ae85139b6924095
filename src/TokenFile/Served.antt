-- ===== src/TokenFile/Served.antt =====
-- What a candidate serves.
use st0x_oracle_server.Toml
use st0x_oracle_server.Toml.{Value, Table, array}
use st0x_oracle_server.Config.{Config, TokenEntry, validate, symbols}
use st0x_oracle_server.TokenFile.Project.{
  merge_bytes, chain_id_of, project, merge, declared_quote_token,
}
use st0x_oracle_server.TokenFile.Candidate.{Library, Candidate, candidate}
use st0x_oracle_server.Base.{
  String, Result, List, ℕ, ◌≡◌, some, ok, map, inr, arith, inl, ◌∙◌, subst, ap, ◌∷◌, [], refl,
}
use st0x_oracle_server.Wire.{Bytes}
use st0x_oracle_server.Config.Load.{from_table}
use st0x_oracle_server.TokenFile.{Projection}
use st0x_oracle_server.TokenFile.Rows.{row_of_pair, All-pairs, project-IsRow}
use st0x_oracle_server.Base.Errors.{Result-cases}
use st0x_oracle_server.Registry.{from_config}
use text.Mathlib.TextEquality.{eq_iff}
use st0x_oracle_server.Config.Validated.{Registers, validate-Registers}

abbrev pub entry_of : String × String → TokenEntry
entry_of (a, s) = record { address = a; symbol = s }

-- What the derived reading of `Config` does with a list of rows.
abbrev pub ReadsRows : (Table → Result String Config) → Type 0
ReadsRows try_into =
    (t : Table) (cfg : Config) (pairs : List (String × String))
    → Toml.get "tokens" t ≡ some (array (Toml.from_list (map row_of_pair pairs)))
    → try_into t ≡ ok cfg
    → cfg.tokens ≡ map entry_of pairs

module _ (L : Library) where
  -- The steps that a candidate has passed.
  abbrev pub Built : Table → Bytes → Candidate → Type 0
  Built static_config bytes c =
      (file : Table) × (chain_id : ℕ) × (merged : Table) × (L.parse bytes ≡ ok file)
      × (chain_id_of static_config ≡ ok chain_id)
      × (project file chain_id ≡ ok c.projection)
      × (merge L.to_lowercase static_config c.projection ≡ ok merged)
      × (L.try_into merged ≡ ok c.config)
      × (validate L.from_str c.config ≡ ok tt)
      × (from_config L.from_str c.config.tokens c.config.quote_token ≡ ok c.registry)

  merge_bytes-eq-ok :
      (static_config : Table) (bytes : Bytes) (merged : Table) (p : Projection)
      → merge_bytes L.to_lowercase L.parse static_config bytes ≡ ok (merged, p)
      → (file : Table) × (chain_id : ℕ) × (L.parse bytes ≡ ok file)
        × (chain_id_of static_config ≡ ok chain_id)
        × (project file chain_id ≡ ok p)
        × (merge L.to_lowercase static_config p ≡ ok merged)
  unfolding merge_bytes
  merge_bytes-eq-ok static_config bytes merged p h = elim (Result-cases (L.parse bytes)) [
    | inr (w, e) ↦ absurd (ground arith)
    | inl (file, e) ↦ elim (Result-cases (chain_id_of static_config)) [
      | inr (w, f) ↦ absurd (ground arith)
      | inl (chain_id, f) ↦ elim (Result-cases (project file chain_id)) [
        | inr (w, g) ↦ absurd (ground arith)
        | inl (q, g) ↦ elim (Result-cases (merge L.to_lowercase static_config q)) [
          | inr (w, k) ↦ absurd (ground arith)
          | inl (m, k) ↦ (file, chain_id, e, f, ground arith, ground arith)
        ]
      ]
    ]
  ]

  from_table-eq-ok :
      (t : Table) (cfg : Config)
      → from_table L.from_str L.try_into t ≡ ok cfg
      → (L.try_into t ≡ ok cfg) × (validate L.from_str cfg ≡ ok tt)
  unfolding from_table
  from_table-eq-ok t cfg h = elim (Result-cases (L.try_into t)) [
    | inr (w, e) ↦ absurd (ground arith)
    | inl (read, e) ↦ elim (Result-cases (validate L.from_str read)) [
      | inr (w, f) ↦ absurd (ground arith)
      | inl (u, f) ↦
          let same : read ≡ cfg = ground arith in
          (e ∙ ap ok same, subst (λ x. validate L.from_str x ≡ ok tt) same f)
    ]
  ]

  pub candidate-Built :
      (static_config : Table) (bytes : Bytes) (c : Candidate)
      → candidate L static_config bytes ≡ ok c
      → Built static_config bytes c
  unfolding candidate
  candidate-Built static_config bytes c h =
      elim (Result-cases (merge_bytes L.to_lowercase L.parse static_config bytes)) [
        | inr (w, e) ↦ absurd (ground arith)
        | inl ((merged, p), e) ↦ elim (Result-cases (from_table L.from_str L.try_into merged)) [
          | inr (w, f) ↦ absurd (ground arith)
          | inl (cfg, f) ↦ elim (Result-cases (from_config L.from_str cfg.tokens cfg.quote_token)) [
            | inr (w, g) ↦ absurd (ground arith)
            | inl (r, g) ↦
                let (file, chain_id, parsed, served, projected, put) =
                  merge_bytes-eq-ok static_config bytes merged p e in
                let (decoded, valid) = from_table-eq-ok merged cfg f in
                subst (Built static_config bytes)
                  {x = record { projection = p; config = cfg; registry = r }} (ground arith)
                  (file, chain_id, merged, parsed, served, projected, put, decoded, valid, g)
          ]
        ]
      ]

  merge-tokens :
      (static_config merged : Table) (p : Projection)
      → merge L.to_lowercase static_config p ≡ ok merged
      → (Toml.get "tokens" merged ≡ some (array (Toml.from_list p.tokens)))
        × (L.to_lowercase (declared_quote_token L.to_lowercase static_config)
            ≡ L.to_lowercase p.quote_token)
  unfolding merge
  merge-tokens static_config merged p h =
      let rows = array (Toml.from_list p.tokens) in
      ground (
        arith,
        Toml.get-insert "tokens" "tokens" rows static_config,
        eq_iff "tokens" "tokens",
        eq_iff (L.to_lowercase (declared_quote_token L.to_lowercase static_config))
            (L.to_lowercase p.quote_token),
      )

  -- The rows that a candidate serves: those of its projection, each registered under its symbol.
  abbrev pub Serves : Candidate → List (String × String) → Type 0
  Serves c pairs =
      (c.projection.tokens ≡ map row_of_pair pairs)
      × (symbols c.config ≡ map (λ (p : String × String). p.1) pairs)
      × Registers L.from_str c.registry (map entry_of pairs)

  symbols-entries :
      (pairs : List (String × String))
      → map (λ (t : TokenEntry). t.symbol) (map entry_of pairs)
        ≡ map (λ (p : String × String). p.1) pairs
  symbols-entries [] = refl
  symbols-entries (p ∷ pairs) = ap (λ ss. p.1 ∷ ss) (symbols-entries pairs)

  -- A candidate serves the rows of its projection, in their order, and nothing else: each row's
  -- address is registered under the row's symbol, a registered address is that of a row with its
  -- symbol, and the settlement token and the reserved addresses are not registered; where the derived
  -- reading of a table reads its rows.
  pub candidate-Serves :
      ReadsRows L.try_into
      → (static_config : Table) (bytes : Bytes) (c : Candidate)
      → candidate L static_config bytes ≡ ok c
      → (pairs : List (String × String)) × Serves c pairs
  candidate-Serves reads static_config bytes c h =
      let (file, chain_id, merged, parsed, served, projected, put, decoded, valid, built) =
        candidate-Built static_config bytes c h in
      let (pairs, rows) =
        All-pairs c.projection.tokens (project-IsRow file chain_id c.projection projected) in
      let listed : Toml.get "tokens" merged
          ≡ some (array (Toml.from_list (map row_of_pair pairs))) =
        (merge-tokens static_config merged c.projection put).0
        ∙ ap (λ (vs : List Value). some (array (Toml.from_list vs))) rows in
      let entries : c.config.tokens ≡ map entry_of pairs =
        reads merged c.config pairs listed decoded in
      let (r, made, registers, real, some_rows) = validate-Registers L.from_str c.config valid in
      let same : r ≡ c.registry = cc (made, built) in
      (
        pairs,
        (
          rows,
          ap (map (λ (t : TokenEntry). t.symbol)) entries ∙ symbols-entries pairs,
          subst (Registers L.from_str c.registry) entries
              (subst (λ x. Registers L.from_str x c.config.tokens) same registers),
        ),
      )
