-- ===== src/TokenFile/Projected.antt =====
-- From the file to the rows of one chain.
use st0x_oracle_server.Base.Ordered.{text_ord, pair_ord}
use st0x_oracle_server.Base.{
  some, option_eq, pair_eq, string_eq, String, ◌≡◌, false, refl, ok, arith, inr, Option-cases, inl,
  List, ℕ, filter_map, contains, filter, ◌∷◌, is_empty, [], subst, ◌∙◌, ap,
}
use st0x_oracle_server.Toml
use st0x_oracle_server.Toml.{Value, Table, table, string, integer, float, boolean, datetime, array}
use st0x_oracle_server.TokenFile.{Row, row_of, Projection}
use st0x_oracle_server.TokenFile.Project.{
  project_slots, sort_insert, sort_by_symbol, project, serves, equities, only_chain, project_chain,
}
use st0x_oracle_server.Base.Errors.{Result-cases}
use st0x_oracle_server.TokenFile.Slots.{slot_row, project_slots-lem}

is_empty-insert : (v : Value) (ws : List Value) → is_empty (sort_insert v ws) ≡ false
unfolding sort_insert
is_empty-insert v [] = refl
is_empty-insert v (w ∷ ws) = ground arith

is_empty-sort : (vs : List Value) → is_empty (sort_by_symbol vs) ≡ is_empty vs
unfolding sort_by_symbol
is_empty-sort [] = refl
is_empty-sort (v ∷ vs) = is_empty-insert v (sort_by_symbol vs)

only_chain-eq-ok :
    (chain_id : ℕ) (matched : List (String × Value)) (c : String × Value)
    → only_chain chain_id matched ≡ ok c
    → matched ≡ c ∷ []
only_chain-eq-ok chain_id [] c h = absurd (ground arith)
only_chain-eq-ok chain_id (d ∷ []) c h = ground arith
only_chain-eq-ok chain_id (d ∷ e ∷ matched) c h = absurd (ground arith)

module _ (to_lowercase : String → String) where
  abbrev found_in : List Value → List Row
  found_in vs = filter_map (row_of to_lowercase) vs

  sort_insert-found :
      (r : Row) (v : Value) (ws : List Value)
      → contains r (found_in (sort_insert v ws)) ≡ contains r (found_in (v ∷ ws))
  unfolding sort_insert
  sort_insert-found r v [] = refl
  sort_insert-found r v (w ∷ ws) = ground (arith, sort_insert-found r v ws)

  sort_by_symbol-found :
      (r : Row) (vs : List Value)
      → contains r (found_in (sort_by_symbol vs)) ≡ contains r (found_in vs)
  unfolding sort_by_symbol
  sort_by_symbol-found r [] = refl
  sort_by_symbol-found r (v ∷ vs) =
      ground (arith, sort_insert-found r v (sort_by_symbol vs), sort_by_symbol-found r vs)

  -- The one chain of the file with this id, and its slots.
  abbrev pub IsChain : Table → ℕ → String → Table → List (String × Value) → Type 0
  IsChain file chain_id name chain slots =
      (chains : Table) × (Toml.read Toml.as_table (Toml.get "chains" file) ≡ some chains)
      × (filter (serves chain_id) (Toml.iter chains) ≡ (name, table chain) ∷ [])
      × (equities name chain ≡ ok slots)

  -- The projection has the chain's settlement token and at least one row, and its rows are those
  -- of the chain's wanted slots.
  abbrev pub Projects : ℕ → Table → List (String × Value) → Projection → Type 0
  Projects chain_id chain slots p =
      (p.chain_id ≡ chain_id)
      × (Toml.read Toml.as_str (Toml.get "quote_token" chain) ≡ some p.quote_token)
      × (is_empty p.tokens ≡ false)
      × ((r : Row)
          → contains r (found_in p.tokens) ≡ contains r (filter_map (slot_row to_lowercase) slots))

  project_chain-table :
      (chain_id : ℕ) (name : String) (chain : Table) (p : Projection)
      → project_chain chain_id (name, table chain) ≡ ok p
      → (slots : List (String × Value)) × (equities name chain ≡ ok slots)
        × Projects chain_id chain slots p
  unfolding project_chain
  project_chain-table chain_id name chain p h =
      elim (Option-cases (Toml.read Toml.as_str (Toml.get "quote_token" chain))) [
        | inl e ↦ absurd (ground arith)
        | inr (q, e) ↦ elim (Result-cases (equities name chain)) [
          | inr (w, f) ↦ absurd (ground arith)
          | inl (slots, f) ↦ elim (Result-cases (project_slots name slots)) [
            | inr (w, g) ↦ absurd (ground arith)
            | inl (tokens, g) ↦
                let sorted : sort_by_symbol tokens ≡ p.tokens = ground arith in
                (
                  slots,
                  f,
                  (
                    ground arith,
                    ground arith,
                    ground (arith, is_empty-sort tokens),
                    λ r.
                        subst
                          (λ (vs : List Value).
                            contains r (found_in vs)
                            ≡ contains r (filter_map (slot_row to_lowercase) slots))
                          sorted
                          (sort_by_symbol-found r tokens
                            ∙ ap (λ (rs : List Row). contains r rs)
                                (project_slots-lem to_lowercase name slots tokens g)),
                  ),
                )
          ]
        ]
      ]

  project_chain-eq-ok :
      (chain_id : ℕ) (name : String) (c : Value) (p : Projection)
      → project_chain chain_id (name, c) ≡ ok p
      → (chain : Table) × (c ≡ table chain)
        × (slots : List (String × Value)) × (equities name chain ≡ ok slots)
        × Projects chain_id chain slots p
  unfolding project_chain
  project_chain-eq-ok chain_id name (table chain) p h =
      let (slots, slotted, rest) = project_chain-table chain_id name chain p h in
      (chain, refl, slots, slotted, rest)
  project_chain-eq-ok chain_id name (string s) p h = absurd (ground arith)
  project_chain-eq-ok chain_id name (integer s) p h = absurd (ground arith)
  project_chain-eq-ok chain_id name (float s) p h = absurd (ground arith)
  project_chain-eq-ok chain_id name (boolean s) p h = absurd (ground arith)
  project_chain-eq-ok chain_id name (datetime s) p h = absurd (ground arith)
  project_chain-eq-ok chain_id name (array s) p h = absurd (ground arith)

  -- A projection comes from the only chain of the file with its id, and its rows are exactly those
  -- of the wanted slots of that chain.
  pub project-Projects :
      (file : Table) (chain_id : ℕ) (p : Projection)
      → project file chain_id ≡ ok p
      → (name : String) × (chain : Table) × (slots : List (String × Value)) × IsChain file chain_id
          name chain slots
        × Projects chain_id chain slots p
  unfolding project
  project-Projects file chain_id p h =
      elim (Option-cases (Toml.read Toml.as_table (Toml.get "chains" file))) [
        | inl e ↦ absurd (ground arith)
        | inr (chains, e) ↦
            elim (Result-cases
              (only_chain chain_id (filter (serves chain_id) (Toml.iter chains)))) [
                | inr (w, f) ↦ absurd (ground arith)
                | inl ((name, c), f) ↦
                    let (chain, same, slots, slotted, rest) =
                      project_chain-eq-ok chain_id name c p (ground arith) in
                    let one : filter (serves chain_id) (Toml.iter chains) ≡ (name, c) ∷ [] =
                      only_chain-eq-ok chain_id (filter (serves chain_id) (Toml.iter chains))
                        (name, c) f in
                    (
                      name,
                      chain,
                      slots,
                      (chains, e, one ∙ ap (λ (v : Value). (name, v) ∷ []) same, slotted),
                      rest,
                    )
              ]
      ]
